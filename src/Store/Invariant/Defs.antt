-- ===== src/Store/Invariant/Defs.antt =====
-- The invariant of a profile, and the runs of its mutators.
use iron_link.Prelude.{
  String, ◌≡◌, true, false, List, All, has_key, selects, DistinctBy, if◌then◌else◌, ◌==◌, is_ok,
}
use iron_link.Routing
use iron_link.Store.Name.{validate_name}
use iron_link.Store.Profile.{Profile, Node, GroupSpec, Subscription, new_profile}
use iron_link.Store.Mutators.{
  set_active_node_if_unset, add_node, add_group, replace_group_by_id, remove_node_by_id,
  set_active_node, add_subscription, replace_subscription_nodes, remove_subscription, add_routing,
  replace_routing_by_id, remove_routing, set_active_routing,
}

abbrev pub node_id : Node → String
node_id n = n.id

abbrev pub routing_id : Routing.Config → String
routing_id r = r.id

abbrev pub routing_name : Routing.Config → String
routing_name r = r.name

abbrev pub sub_url : Subscription → String
sub_url s = s.url

abbrev pub HasValidName : Routing.Config → Type 0
HasValidName r = is_ok (validate_name r.name) ≡ true

pub record IsValid (p : Profile) : Type 0 where
  pub active_node : selects node_id p.active_node_id p.nodes ≡ true
  pub active_routing : selects routing_id p.active_routing_id p.routing_configs ≡ true
  pub urls : DistinctBy sub_url p.subscriptions
  pub ids : DistinctBy routing_id p.routing_configs
  pub names : DistinctBy routing_name p.routing_configs
  pub valid_names : All HasValidName p.routing_configs

-- One call of a mutator, with its arguments; a fresh id is the argument that `uuid.New` gives.
pub data Mutation : Type 0 where
  elect : Mutation
  put_node : Node → Mutation
  put_group : GroupSpec → String → Mutation
  edit_group : String → GroupSpec → Mutation
  drop_node : String → Mutation
  choose_node : String → Mutation
  put_sub : Subscription → Mutation
  refresh_nodes : String → List Node → Mutation
  drop_sub : String → Mutation
  put_routing : Routing.Config → String → Mutation
  edit_routing : String → Routing.Config → Mutation
  drop_routing : String → Mutation
  choose_routing : String → Mutation

unfoldable pub apply : Mutation → Profile → Profile
apply elect p = (set_active_node_if_unset p).0
apply (put_node n) p = (add_node p n).0
apply (put_group g fresh) p = (add_group p g fresh).0
apply (edit_group id g) p = (replace_group_by_id p id g).0
apply (drop_node id) p = (remove_node_by_id p id).0
apply (choose_node id) p = (set_active_node p id).0
apply (put_sub s) p = (add_subscription p s).0
apply (refresh_nodes id ns) p = replace_subscription_nodes p id ns
apply (drop_sub id) p = (remove_subscription p id).0
apply (put_routing rc fresh) p = (add_routing p rc fresh).0
apply (edit_routing id rc) p = (replace_routing_by_id p id rc).0
apply (drop_routing id) p = (remove_routing p id).0
apply (choose_routing id) p = (set_active_routing p id).0

-- `AddRouting` does not look for the id that it stores: its one caller, `upsertRouting`, calls it
-- only when no config has that id.
abbrev pub Admissible : Mutation → Profile → Type 0
Admissible (put_routing rc fresh) p =
    has_key routing_id p.routing_configs (if rc.id == "" then fresh else rc.id) ≡ false
Admissible _ _ = Unit {0}

-- The profiles that calls of the mutators lead to.
pub data Reach : Profile → Type 0 where
  create : (name fresh : String) {p : Profile} → p ≡ new_profile name fresh → Reach p
  next : {p q : Profile} → Reach p → (m : Mutation) → Admissible m p → q ≡ apply m p → Reach q
