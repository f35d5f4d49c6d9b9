-- ===== src/Engine/Plan.antt =====
-- Session plans (daemon-go/internal/engine/plan.go): the members, how tags and names are looked up,
-- and the validation before the configs are compiled. A duration is in nanoseconds.
pub mod Validity
pub mod Lookup
use iron_link.Prelude.{
  ℕ, String, Bool, true, false, not, ◌||◌, Option, none, some, List, [], ◌∷◌, ◌++◌, map, ◌==◌,
  if◌then◌else◌, find, any, contains, Result, ok, err, ◌>>=◌, ◌>>◌, reject_if, is_empty,
}
use iron_link.Proxy.Profile.{Profile}
use iron_link.Routing
use iron_link.Engine.Tunables.{Tunables}

abbrev pub selector_tag : String
selector_tag = "proxy"

pub record NamedNode : Type 0 where
  pub id : String
  pub name : String
  pub profile : Option Profile

pub record GroupPlan : Type 0 where
  pub id : String
  pub name : String
  pub members : List String
  pub probe_url : String
  pub interval : ℕ
  pub tolerance : ℕ

pub record SessionPlan : Type 0 where
  pub natives : List NamedNode
  pub xray_nodes : List NamedNode
  pub active_tag : String
  pub routing : Option Routing.Config
  pub cache_path : String
  pub tunables : Option Tunables
  pub groups : List GroupPlan

abbrev pub ids_of : List NamedNode → List String
ids_of = map (λ n. n.id)

abbrev pub group_ids : List GroupPlan → List String
group_ids = map (λ g. g.id)

unfoldable pub node_tags : SessionPlan → List String
node_tags p = ids_of p.natives ++ ids_of p.xray_nodes

unfoldable pub member_tags : SessionPlan → List String
unfolding node_tags
member_tags p = node_tags p ++ group_ids p.groups

unfoldable pub is_member : SessionPlan → String → Bool
unfolding member_tags
is_member p tag = contains (member_tags p) tag

-- The three loops of `MemberTagForName`, groups last.
unfoldable pub member_tag_for_name : SessionPlan → String → Option String
member_tag_for_name p name =
    let in_groups : Option String = elim (find (λ g. g.name == name) p.groups) [
      | some g ↦ some g.id
      | none ↦ none
    ] in
    let in_xray : Option String = elim (find (λ n. n.name == name) p.xray_nodes) [
      | some n ↦ some n.id
      | none ↦ in_groups
    ] in
    elim (find (λ n. n.name == name) p.natives) [ some n ↦ some n.id | none ↦ in_xray ]

unfoldable pub display_name_for_tag : SessionPlan → String → Option String
display_name_for_tag p tag =
    let in_groups : Option String = elim (find (λ g. g.id == tag) p.groups) [
      | some g ↦ some g.name
      | none ↦ none
    ] in
    let in_xray : Option String = elim (find (λ n. n.id == tag) p.xray_nodes) [
      | some n ↦ some n.name
      | none ↦ in_groups
    ] in
    elim (find (λ n. n.id == tag) p.natives) [ some n ↦ some n.name | none ↦ in_xray ]

pub data PlanError : Type 0 where
  no_nodes : PlanError
  active_not_in_plan duplicate_id empty_group : String → PlanError
  not_embedded : String → String → PlanError

-- The loop over `seen`.
check_unique : List String → List String → Result PlanError (Unit {0})
check_unique seen [] = ok tt
check_unique seen (tag ∷ tags) =
    if contains seen tag then err (duplicate_id tag) else check_unique (tag ∷ seen) tags

check_members : List String → String → List String → Result PlanError (Unit {0})
check_members nodes group [] = ok tt
check_members nodes group (m ∷ ms) =
    if contains nodes m then check_members nodes group ms else err (not_embedded group m)

check_groups : List String → List GroupPlan → Result PlanError (Unit {0})
check_groups nodes [] = ok tt
check_groups nodes (g ∷ gs) = do
  reject_if (is_empty g.members) (empty_group g.name)
  check_members nodes g.name g.members
  check_groups nodes gs

unfoldable pub validate : SessionPlan → Result PlanError (Unit {0})
unfolding check_unique check_members check_groups member_tags
validate p = do
  reject_if (is_empty (member_tags p)) no_nodes
  reject_if (not (contains (member_tags p) p.active_tag)) (active_not_in_plan p.active_tag)
  check_unique [] (member_tags p)
  check_groups (node_tags p) p.groups
