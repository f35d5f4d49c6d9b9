-- ===== src/Engine/Plan/Lookup.antt =====
-- Names and tags of a plan's members.
use iron_link.Prelude.{
  ◌+◌, ◌≤◌, ◌<◌, String, Bool, true, ◌≡◌, refl, ◌||◌, ◌==◌, ◌++◌, eq_iff, eq_refl, none, some, List,
  [], ◌∷◌, map, arith, find, has_key, any-append, contains-map, count, count-append, Unique,
  Option-cases, inl, inr,
}
use iron_link.Engine.Plan.{
  SessionPlan, ids_of, group_ids, node_tags, member_tags, is_member, member_tag_for_name,
  display_name_for_tag,
}

pub contains-parts :
    (p : SessionPlan) (a : String)
    → is_member p a ≡ (
        (has_key (λ n. n.id) p.natives a || has_key (λ n. n.id) p.xray_nodes a)
        || has_key (λ g. g.id) p.groups a)
unfolding is_member
contains-parts p a = ground (
  arith,
  any-append (λ x. x == a) (ids_of p.natives ++ ids_of p.xray_nodes) (group_ids p.groups),
  any-append (λ x. x == a) (ids_of p.natives) (ids_of p.xray_nodes),
  contains-map (λ n. n.id) p.natives a,
  contains-map (λ n. n.id) p.xray_nodes a,
  contains-map (λ g. g.id) p.groups a,
)

-- One list of members, by their ids and their names.
module _ {A : Type 0} (id name : A → String) where
  found-id :
      (a : String) (xs : List A) (x : A)
      → find (λ y. name y == a) xs ≡ some x
      → 0 < count (id x) (map id xs)
  found-id a [] x h = cc
  found-id a (y ∷ ys) x h = ground (arith, found-id a ys x, eq_refl (id y))

  found-name : (a : String) (xs : List A) (x : A) → find (λ y. name y == a) xs ≡ some x → name x ≡ a
  found-name a [] x h = cc
  found-name a (y ∷ ys) x h = ground (arith, found-name a ys x, eq_iff (name y) a)

  -- With its id once in the list, the value is found again by its id.
  found_again :
      (a : String) (xs : List A) (x : A)
      → find (λ y. name y == a) xs ≡ some x
      → count (id x) (map id xs) ≤ 1
      → find (λ y. id y == id x) xs ≡ some x
  found_again a [] x h u = cc
  found_again a (y ∷ ys) x h u = ground (arith, found_again a ys x, found-id a ys x, eq_refl (id y))

  absent : (t : String) (xs : List A) → count t (map id xs) ≡ 0 → find (λ y. id y == t) xs ≡ none
  absent t [] h = refl
  absent t (y ∷ ys) h = ground (arith, absent t ys)

count-member_tags :
    (p : SessionPlan) (t : String)
    → count t (member_tags p)
      ≡ count t (ids_of p.natives) + count t (ids_of p.xray_nodes) + count t (group_ids p.groups)
unfolding member_tags node_tags
count-member_tags p t = omega (
  arith,
  count-append t (ids_of p.natives ++ ids_of p.xray_nodes) (group_ids p.groups),
  count-append t (ids_of p.natives) (ids_of p.xray_nodes),
)

-- A name that resolves to a tag is the display name of that tag, if no two members share a tag.
pub display_name_for_tag-member_tag_for_name :
    (p : SessionPlan) (name t : String)
    → Unique (member_tags p)
    → member_tag_for_name p name ≡ some t
    → display_name_for_tag p t ≡ some name
unfolding member_tag_for_name display_name_for_tag
display_name_for_tag-member_tag_for_name p name t unique h =
    let once = unique t in
    let total = count-member_tags p t in
    elim (Option-cases (find (λ n. n.name == name) p.natives)) [
      | inr (n, e) ↦
          let same : n.id ≡ t = ground arith in
          ground (
            arith,
            found_again (λ n. n.id) (λ n. n.name) name p.natives n e,
            found-name (λ n. n.id) (λ n. n.name) name p.natives n e,
          )
      | inl e ↦ elim (Option-cases (find (λ n. n.name == name) p.xray_nodes)) [
        | inr (n, f) ↦
            let same : n.id ≡ t = ground arith in
            ground (
              arith,
              found_again (λ n. n.id) (λ n. n.name) name p.xray_nodes n f,
              found-id (λ n. n.id) (λ n. n.name) name p.xray_nodes n f,
              found-name (λ n. n.id) (λ n. n.name) name p.xray_nodes n f,
              absent (λ n. n.id) (λ n. n.name) t p.natives,
            )
        | inl f ↦ elim (Option-cases (find (λ g. g.name == name) p.groups)) [
          | inr (g, k) ↦
              let same : g.id ≡ t = ground arith in
              ground (
                arith,
                found_again (λ g. g.id) (λ g. g.name) name p.groups g k,
                found-id (λ g. g.id) (λ g. g.name) name p.groups g k,
                found-name (λ g. g.id) (λ g. g.name) name p.groups g k,
                absent (λ n. n.id) (λ n. n.name) t p.natives,
                absent (λ n. n.id) (λ n. n.name) t p.xray_nodes,
              )
          | inl k ↦ absurd (ground arith)
        ]
      ]
    ]

found-has_key :
    {A : Type 0} (id : A → String) (test : A → Bool) (xs : List A) (x : A)
    → find test xs ≡ some x
    → has_key id xs (id x) ≡ true
found-has_key id test [] x h = cc
found-has_key id test (y ∷ ys) x h = ground (arith, found-has_key id test ys x, eq_refl (id y))

-- A name resolves to a member.
pub is_member-member_tag_for_name :
    (p : SessionPlan) (name t : String) → member_tag_for_name p name ≡ some t → is_member p t ≡ true
unfolding member_tag_for_name
is_member-member_tag_for_name p name t h =
    let parts = contains-parts p t in
    elim (Option-cases (find (λ n. n.name == name) p.natives)) [
      | inr (n, e) ↦
          let same : n.id ≡ t = ground arith in
          ground (arith, found-has_key (λ n. n.id) (λ n. n.name == name) p.natives n e)
      | inl e ↦ elim (Option-cases (find (λ n. n.name == name) p.xray_nodes)) [
        | inr (n, f) ↦
            let same : n.id ≡ t = ground arith in
            ground (arith, found-has_key (λ n. n.id) (λ n. n.name == name) p.xray_nodes n f)
        | inl f ↦ elim (Option-cases (find (λ g. g.name == name) p.groups)) [
          | inr (g, k) ↦
              let same : g.id ≡ t = ground arith in
              ground (arith, found-has_key (λ g. g.id) (λ g. g.name == name) p.groups g k)
          | inl k ↦ absurd (ground arith)
        ]
      ]
    ]
