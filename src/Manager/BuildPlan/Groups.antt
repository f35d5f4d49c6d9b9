-- ===== src/Manager/BuildPlan/Groups.antt =====
-- The groups that `buildPlan` lowers: which come into play, and what their lowering holds.
use iron_link.Prelude.{
  ◌+◌, ◌≤◌, ◌<◌, String, ◌≡◌, refl, ◌∙◌, true, false, not, ◌&&◌, some, List, [], ◌∷◌, ◌++◌, arith,
  ◌==◌, eq_iff, eq_refl, count, count-eq-zero, contains-map, has_key, ok, >>=-eq-ok, ok-injective,
  map, find, delete_func, inl, inr, Bool-cases, Option-cases, All, All-append, contains, is_empty,
  Unique,
}
use iron_link.Routing.{RuleTarget, target_node}
use iron_link.Store.Profile.{Profile, Node, GroupSpec, is_group, find_node_by_id}
use iron_link.Engine.Plan.{GroupPlan, group_ids}
use iron_link.Engine.Plan.Validity.{IsDialable}
use iron_link.Manager.BuildPlan.{
  add_target_group, groups_in_play, live_members, group_plan, lower_groups,
}
use iron_link.Manager.Members.{resolve_group_member_ids}
use iron_link.Manager.BuildPlan.Nodes.{dialable_ids, group_node_ids}

abbrev pub ids : List Node → List String
ids = map (λ n. n.id)

-- Every id is that of a group or of a dialable node.
pub count-split :
    (a : String) (ns : List Node)
    → count a (ids ns) ≡ count a (dialable_ids ns) + count a (group_node_ids ns)
count-split a [] = refl
count-split a (n ∷ ns) = ground (arith, count-split a ns)

pub found-count :
    (id : String) (ns : List Node) (g : Node)
    → find (λ n. n.id == id) ns ≡ some g
    → is_group g ≡ true
    → 0 < count g.id (group_node_ids ns)
found-count id [] g h k = cc
found-count id (n ∷ ns) g h k = ground (arith, found-count id ns g, eq_refl g.id)

-- The groups in play are groups of the profile, each once.
pub record AreInPlay (p : Profile) (gs : List Node) : Type 0 where
  pub unique : Unique (ids gs)
  pub known : (a : String) → 0 < count a (ids gs) → 0 < count a (group_node_ids p.nodes)
  pub all_groups : All (λ g. is_group g ≡ true) gs

count-ids_one :
    (a : String) (gs : List Node) (g : Node)
    → count a (ids (gs ++ g ∷ [])) ≡ count a (ids gs) + count a (g.id ∷ [])
count-ids_one a [] g = omega arith
count-ids_one a (x ∷ xs) g = omega (arith, count-ids_one a xs g)

one_more :
    (p : Profile) (gs : List Node) (g : Node)
    → AreInPlay p gs
    → is_group g ≡ true
    → 0 < count g.id (group_node_ids p.nodes)
    → has_key (λ n. n.id) gs g.id ≡ false
    → AreInPlay p (gs ++ g ∷ [])
one_more p gs g v k f h =
    let absent = count-eq-zero g.id (ids gs) (contains-map (λ n. n.id) gs g.id ∙ h) in
    record {
      unique = λ a. ground (arith, count-ids_one a gs g, v.unique a, absent, eq_iff g.id a);
      known = λ a c. ground (arith, count-ids_one a gs g, v.known a, f, eq_iff g.id a);
      all_groups = All-append (λ n. is_group n ≡ true) gs (g ∷ []) v.all_groups (k, tt);
    }

add_target_group-AreInPlay :
    (p : Profile) (gs : List Node) (t : RuleTarget)
    → AreInPlay p gs
    → AreInPlay p (add_target_group p gs t)
unfolding add_target_group find_node_by_id
add_target_group-AreInPlay p gs t v = elim (Bool-cases (t.kind == target_node)) [
  | inr e ↦ rw (e, add_target_group) v
  | inl e ↦ elim (Option-cases (find (λ n. n.id == t.node) p.nodes)) [
    | inl lost ↦ rw (e, add_target_group, lost, find_node_by_id) v
    | inr (g, found) ↦ elim (Bool-cases (is_group g && not (has_key (λ n. n.id) gs g.id))) [
      | inr old ↦ rw (e, add_target_group, found, find_node_by_id, old) v
      | inl new ↦
          rw (e, add_target_group, found, find_node_by_id, new)
            (one_more p gs g v (ground arith) (found-count t.node p.nodes g found (ground arith))
              (ground arith))
    ]
  ]
]

pub groups_in_play-AreInPlay :
    (p : Profile) (gs : List Node) (ts : List RuleTarget)
    → AreInPlay p gs
    → AreInPlay p (groups_in_play p gs ts)
unfolding groups_in_play
groups_in_play-AreInPlay p gs [] v = v
groups_in_play-AreInPlay p gs (t ∷ ts) v =
    groups_in_play-AreInPlay p (add_target_group p gs t) ts (add_target_group-AreInPlay p gs t v)

count-add_target_group :
    (p : Profile) (gs : List Node) (t : RuleTarget) (a : String)
    → count a (ids gs) ≤ count a (ids (add_target_group p gs t))
unfolding add_target_group
count-add_target_group p gs t a = elim (Option-cases (find_node_by_id p t.node)) [
  | inl lost ↦ ground arith
  | inr (g, found) ↦ ground (arith, count-ids_one a gs g)
]

-- What stands in play first stays there.
pub count-groups_in_play :
    (p : Profile) (gs : List Node) (ts : List RuleTarget) (a : String)
    → count a (ids gs) ≤ count a (ids (groups_in_play p gs ts))
unfolding groups_in_play
count-groups_in_play p gs [] a = omega arith
count-groups_in_play p gs (t ∷ ts) a =
    omega (
      arith,
      count-add_target_group p gs t a,
      count-groups_in_play p (add_target_group p gs t) ts a,
    )

-- What a deletion by a negated test leaves passes the test.
kept_pass :
    (tags xs : List String)
    → All (λ m. contains tags m ≡ true) (delete_func (λ id. not (contains tags id)) xs)
kept_pass tags [] = tt
kept_pass tags (x ∷ xs) = ground (arith, kept_pass tags xs)

live_members-embedded :
    (p : Profile) (tags : List String) (g : Node)
    → All (λ m. contains tags m ≡ true) (live_members p tags g)
unfolding live_members
live_members-embedded p tags g = kept_pass tags (resolve_group_member_ids p g)

-- What the loop over the groups gives: each lowering is dialable, no id comes up more often than
-- among the groups, and the active group is lowered.
pub record AreLowered (active_id : String) (tags : List String) (gs : List Node)
    (plans : List GroupPlan) : Type 0 where
  pub dialable : All (IsDialable tags) plans
  pub fewer : (a : String) → count a (group_ids plans) ≤ count a (ids gs)
  pub active : count active_id (ids gs) ≡ count active_id (group_ids plans)

module _ (p : Profile) (active_id : String) (tags : List String) where
  lowered_skip :
      (g : Node) (gs : List Node) (plans : List GroupPlan)
      → (g.id == active_id) ≡ false
      → AreLowered active_id tags gs plans
      → AreLowered active_id tags (g ∷ gs) plans
  lowered_skip g gs plans e v = record {
    dialable = v.dialable;
    fewer = λ a. ground (arith, v.fewer a);
    active = ground (arith, v.active);
  }

  lowered_more :
      (g : Node) (gs : List Node) (plans : List GroupPlan) (spec : GroupSpec)
      → is_empty (live_members p tags g) ≡ false
      → AreLowered active_id tags gs plans
      → AreLowered active_id tags (g ∷ gs) (group_plan g (live_members p tags g) spec ∷ plans)
  unfolding group_plan
  lowered_more g gs plans spec e v = record {
    dialable = ((e, live_members-embedded p tags g), v.dialable);
    fewer = λ a. ground (arith, v.fewer a);
    active = ground (arith, v.active);
  }

  pub lower_groups-AreLowered :
      (gs : List Node) (plans : List GroupPlan)
      → All (λ g. is_group g ≡ true) gs
      → lower_groups p active_id tags gs ≡ ok plans
      → AreLowered active_id tags gs plans
  unfolding lower_groups
  lower_groups-AreLowered [] plans k h =
      rw (← ok-injective h) (record { dialable = tt; fewer = λ a. omega arith; active = refl })
  lower_groups-AreLowered (g ∷ gs) plans (k, ks) h =
      elim (Bool-cases (is_empty (live_members p tags g))) [
        | inl none_left ↦ elim (Bool-cases (g.id == active_id)) [
          | inl e ↦ cc (e, none_left)
          | inr e ↦ lowered_skip g gs plans e (lower_groups-AreLowered gs plans ks (ground arith))
        ]
        | inr some_left ↦ elim (Option-cases g.group) [
          | inl e ↦ absurd (ground arith)
          | inr (spec, e) ↦
              let (rest, lowered, last) =
                >>=-eq-ok (lower_groups p active_id tags gs)
                  (λ x. ok (group_plan g (live_members p tags g) spec ∷ x)) {out = plans}
                  (ground arith) in
              rw (← ok-injective last)
                (lowered_more g gs rest spec some_left (lower_groups-AreLowered gs rest ks lowered))
        ]
      ]
