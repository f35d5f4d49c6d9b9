-- ===== src/Manager/BuildPlan/Sound.antt =====
-- What `buildPlan` returns, under the validation of the engine.
use iron_link.Prelude.{
  ◌≤◌, ◌<◌, String, ◌≡◌, subst, true, false, Option, some, List, [], ◌∷◌, ◌++◌, arith, ◌==◌, eq_iff,
  eq_refl, count, count-append, contains_of_count_pos, if◌then◌else◌, ok, >>=-eq-ok, ok-injective,
  find, inl, inr, Bool-cases, DistinctBy, DistinctBy-Unique, contains, Unique,
}
use iron_link.Routing
use iron_link.Store.Profile.{Profile, Node, is_group, find_node_by_id}
use iron_link.Engine.Plan.{SessionPlan, GroupPlan, group_ids, member_tags, validate}
use iron_link.Engine.Plan.Validity.{IsStartable, validate_iff}
use iron_link.Manager.BuildPlan.{
  Members, Warning, embed_nodes, groups_in_play, lower_groups, targets_of, embedded_plan,
  build_plan,
}
use iron_link.Manager.BuildPlan.Nodes.{tags_of, dialable_ids, embed_nodes-count, embed_nodes-active}
use iron_link.Manager.BuildPlan.Groups.{
  ids, count-split, found-count, AreInPlay, groups_in_play-AreInPlay, count-groups_in_play,
  AreLowered, lower_groups-AreLowered,
}

abbrev pub no_members : Members
no_members = record { natives = []; xray_nodes = [] }

abbrev pub first_group : Node → List Node
first_group active = if is_group active then active ∷ [] else []

found-dialable_count :
    (id : String) (ns : List Node) (n : Node)
    → find (λ m. m.id == id) ns ≡ some n
    → is_group n ≡ false
    → 0 < count n.id (dialable_ids ns)
found-dialable_count id [] n h k = cc
found-dialable_count id (m ∷ ms) n h k = ground (arith, found-dialable_count id ms n, eq_refl n.id)

first_group-AreInPlay :
    (p : Profile) (active : Node)
    → find_node_by_id p active.id ≡ some active
    → AreInPlay p (first_group active)
unfolding find_node_by_id
first_group-AreInPlay p active h = elim (Bool-cases (is_group active)) [
  | inr e ↦
      rw e
        (record { unique = λ a. omega arith; known = λ a k. absurd (omega arith); all_groups = tt })
  | inl e ↦ rw e (record {
    unique = λ a. ground arith;
    known = λ a k. ground (arith, found-count active.id p.nodes active h, eq_iff active.id a);
    all_groups = (e, tt);
  })
]

-- The parts of a plan that the loops gave.
module _ (p : Profile) (active : Node) (m : Members) (gs : List Node) (plans : List GroupPlan)
    (distinct : DistinctBy (λ n. n.id) p.nodes) (found : find_node_by_id p active.id ≡ some active)
    (embedded : embed_nodes active.id no_members p.nodes ≡ ok m) (play : AreInPlay p gs)
    (kept : count active.id (ids (first_group active)) ≤ count active.id (ids gs))
    (lowered : AreLowered active.id (tags_of m) gs plans) where
  tags-Unique : Unique (tags_of m ++ group_ids plans)
  tags-Unique a = ground (
    arith,
    count-append a (tags_of m) (group_ids plans),
    (embed_nodes-count active.id no_members m p.nodes a embedded).1,
    count-split a p.nodes,
    DistinctBy-Unique (λ n. n.id) p.nodes distinct a,
    play.unique a,
    play.known a,
    lowered.fewer a,
  )

  active-embedded : contains (tags_of m ++ group_ids plans) active.id ≡ true
  unfolding find_node_by_id
  active-embedded =
      contains_of_count_pos active.id (tags_of m ++ group_ids plans)
        (elim (Bool-cases (is_group active)) [
          | inl e ↦ ground (
            arith,
            count-append active.id (tags_of m) (group_ids plans),
            lowered.active,
            kept,
            eq_refl active.id,
          )
          | inr e ↦ ground (
            arith,
            count-append active.id (tags_of m) (group_ids plans),
            embed_nodes-active active.id no_members m p.nodes embedded
                (found-dialable_count active.id p.nodes active found e),
          )
        ])

embedded_plan-IsStartable :
    (p : Profile) (active : Node) (rc : Option Routing.Config) (plan : SessionPlan)
    → DistinctBy (λ n. n.id) p.nodes
    → find_node_by_id p active.id ≡ some active
    → embedded_plan p active rc ≡ ok plan
    → IsStartable plan
unfolding embedded_plan member_tags
embedded_plan-IsStartable p active rc plan distinct found h =
    let (m, embedded, h1) = >>=-eq-ok (embed_nodes active.id no_members p.nodes) _ h in
    let gs = groups_in_play p (first_group active) (targets_of rc) in
    let (plans, lower, h2) = >>=-eq-ok (lower_groups p active.id (tags_of m) gs) _ h1 in
    let play =
      groups_in_play-AreInPlay p (first_group active) (targets_of rc)
        (first_group-AreInPlay p active found) in
    let lowered = lower_groups-AreLowered p active.id (tags_of m) gs plans play.all_groups lower in
    let kept = count-groups_in_play p (first_group active) (targets_of rc) active.id in
    rw (← ok-injective h2) (record {
      active = active-embedded p active m gs plans distinct found embedded play kept lowered;
      unique = tags-Unique p active m gs plans distinct found embedded play kept lowered;
      groups = lowered.dialable;
    })

-- A plan that is built around a node of the profile, whose node ids are distinct, passes the
-- engine's validation: the active node is a member, the members' tags are unique, and every lowered
-- group has members, all of them embedded. The validation never refuses what activation builds.
pub validate-build_plan :
    (p : Profile) (active : Node) (rc : Option Routing.Config) (plan : SessionPlan)
    (warnings : List Warning)
    → DistinctBy (λ n. n.id) p.nodes
    → find_node_by_id p active.id ≡ some active
    → build_plan p active rc ≡ ok (plan, warnings)
    → validate plan ≡ ok tt
unfolding build_plan member_tags
validate-build_plan p active rc plan warnings distinct found h =
    let (plan0, embedded, last) = >>=-eq-ok (embedded_plan p active rc) _ h in
    let v = embedded_plan-IsStartable p active rc plan0 distinct found embedded in
    let same = ok-injective last in
    (validate_iff plan).1 (
      subst (λ (q : SessionPlan × List Warning). IsStartable q.0) same
        (record { active = v.active; unique = v.unique; groups = v.groups }))
