-- ===== src/Engine/Plan/Validity.antt =====
-- What `validate` accepts.
use iron_link.Prelude.{
  ◌≤◌, String, ◌≡◌, refl, ◌↔◌, true, false, not, List, [], ◌∷◌, arith, eq_iff, contains, is_empty,
  All, count, Unique, Bool-cases, inl, inr, ok, >>-ok, ◌>>◌, reject_if, reject_if-ok, eq_refl,
}
use iron_link.Engine.Plan.{
  SessionPlan, GroupPlan, node_tags, member_tags, check_unique, check_members, check_groups,
  validate, no_nodes, active_not_in_plan, empty_group,
}

-- Every member of the lowered group is an embedded node, and there is one.
abbrev pub IsDialable : List String → GroupPlan → Type 0
IsDialable nodes g = (is_empty g.members ≡ false) × All (λ m. contains nodes m ≡ true) g.members

-- What a plan must be: its default is a member, member tags are unique, and groups are dialable.
pub record IsStartable (p : SessionPlan) : Type 0 where
  pub active : contains (member_tags p) p.active_tag ≡ true
  pub unique : Unique (member_tags p)
  pub groups : All (IsDialable (node_tags p)) p.groups

-- The loop over `seen` passes exactly when the tags are unique and none was seen.
check_unique_sound :
    (seen tags : List String)
    → check_unique seen tags ≡ ok tt
    → (a : String) → (count a tags ≤ 1) × (contains seen a ≡ true → count a tags ≡ 0)
unfolding check_unique
check_unique_sound seen [] h a = (omega arith, λ _. refl)
check_unique_sound seen (t ∷ ts) h a = elim (Bool-cases (contains seen t)) [
  | inl e ↦ absurd (ground arith)
  | inr e ↦
      let (few, none_seen) = check_unique_sound (t ∷ seen) ts (ground arith) a in
      (ground (arith, eq_iff t a), λ k. ground (arith, eq_iff t a))
]

check_unique_complete :
    (seen tags : List String)
    → ((a : String) → count a tags ≤ 1)
    → ((a : String) → contains seen a ≡ true → count a tags ≡ 0)
    → check_unique seen tags ≡ ok tt
unfolding check_unique
check_unique_complete seen [] u s = refl
check_unique_complete seen (t ∷ ts) u s = elim (Bool-cases (contains seen t)) [
  | inl e ↦ absurd (ground (arith, s t e, eq_refl t))
  | inr e ↦ rw e (
      check_unique_complete (t ∷ seen) ts (λ a. ground (arith, u a))
        (λ a k. ground (arith, u a, s a, eq_iff t a)))
]

check_members_iff :
    (nodes : List String) (group : String) (ms : List String)
    → (check_members nodes group ms ≡ ok tt) ↔ All (λ m. contains nodes m ≡ true) ms
unfolding check_members
check_members_iff nodes group [] = ((λ _. tt), (λ _. refl))
check_members_iff nodes group (m ∷ ms) =
    let ih = check_members_iff nodes group ms in
    (λ h. ground (arith, ih.0), λ h. ground (arith, ih.1))

check_groups_iff :
    (nodes : List String) (gs : List GroupPlan)
    → (check_groups nodes gs ≡ ok tt) ↔ All (IsDialable nodes) gs
unfolding check_groups
check_groups_iff nodes [] = ((λ _. tt), (λ _. refl))
check_groups_iff nodes (g ∷ gs) =
    let ih = check_groups_iff nodes gs in
    let here = check_members_iff nodes g.name g.members in
    let filled = reject_if-ok (is_empty g.members) (empty_group g.name) in
    let first =
      >>-ok (reject_if (is_empty g.members) (empty_group g.name))
        (check_members nodes g.name g.members >> check_groups nodes gs) tt in
    let second = >>-ok (check_members nodes g.name g.members) (check_groups nodes gs) tt in
    (
      (λ h.
          let (a, rest) = first.0 h in
          let (b, c) = second.0 rest in ((filled.0 a, here.0 b), ih.0 c)),
      (λ h. first.1 (filled.1 h.0.0, second.1 (here.1 h.0.1, ih.1 h.1))),
    )

contains-nonempty : (xs : List String) (a : String) → contains xs a ≡ true → is_empty xs ≡ false
contains-nonempty [] a h = cc
contains-nonempty (x ∷ xs) a h = refl

-- Validation accepts exactly the plans whose default is a member, whose member tags are unique, and
-- whose groups have members, all of them embedded nodes.
pub validate_iff : (p : SessionPlan) → (validate p ≡ ok tt) ↔ IsStartable p
unfolding validate
validate_iff p =
    let tags = member_tags p in
    let active = contains tags p.active_tag in
    let rest = check_unique [] tags >> check_groups (node_tags p) p.groups in
    let a = reject_if-ok (is_empty tags) no_nodes in
    let b = reject_if-ok (not active) (active_not_in_plan p.active_tag) in
    let s0 =
      >>-ok (reject_if (is_empty tags) no_nodes)
        (reject_if (not active) (active_not_in_plan p.active_tag) >> rest) tt in
    let s1 = >>-ok (reject_if (not active) (active_not_in_plan p.active_tag)) rest tt in
    let s2 = >>-ok (check_unique [] tags) (check_groups (node_tags p) p.groups) tt in
    let groups = check_groups_iff (node_tags p) p.groups in
    (
      (λ h.
          let (_, h1) = s0.0 h in
          let (act, h2) = s1.0 h1 in
          let (uniq, grp) = s2.0 h2 in
          let present = b.0 act in
          record {
            active = ground arith;
            unique = λ x. (check_unique_sound [] tags uniq x).0;
            groups = groups.0 grp;
          }),
      (λ v.
          let present = v.active in
          s0.1 (
            a.1 (contains-nonempty tags p.active_tag v.active),
            s1.1 (
              b.1 (ground arith),
              s2.1 (check_unique_complete [] tags v.unique (λ x k. cc), groups.1 v.groups),
            ),
          )),
    )
