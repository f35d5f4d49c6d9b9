-- ===== src/Store/Invariant/Kept.antt =====
-- The whole invariant under every mutator, and along their runs.
use iron_link.Prelude.{
  String, ◌≡◌, refl, List, [], arith, ◌==◌, delete_func, DistinctBy, DistinctBy-append_one,
  DistinctBy-delete_func, eq_refl,
}
use iron_link.Store.Name.{validate_name}
use iron_link.Store.Profile.{Profile, Node, Subscription, new_profile}
use iron_link.Store.Mutators.{
  set_active_node_if_unset, add_node, add_group, replace_group_by_id, remove_node_by_id,
  set_active_node, add_subscription, replace_subscription_nodes, remove_subscription, add_routing,
  replace_routing_by_id, remove_routing, set_active_routing, clear_lost_active,
}
use iron_link.Store.Invariant.Defs.{
  IsValid, Mutation, elect, put_node, put_group, edit_group, drop_node, choose_node, put_sub,
  refresh_nodes, drop_sub, put_routing, edit_routing, drop_routing, choose_routing, apply,
  Admissible, Reach, create, next, sub_url,
}
use iron_link.Store.Invariant.Nodes.{
  HasActive, set_active_node_if_unset-HasActive, add_node-HasActive, add_group-HasActive,
  replace_group_by_id-HasActive, remove_node_by_id-HasActive, set_active_node-HasActive,
  replace_subscription_nodes-HasActive, remove_subscription-HasActive,
}
use iron_link.Store.Invariant.Routings.{
  AreValid, add_routing-AreValid, replace_routing_by_id-AreValid, remove_routing-AreValid,
  set_active_routing-AreValid,
}

routings_of : (p : Profile) → IsValid p → AreValid p.active_routing_id p.routing_configs
routings_of p v = record {
  active_routing = v.active_routing;
  ids = v.ids;
  names = v.names;
  valid_names = v.valid_names;
}

-- A profile whose parts have been checked one by one.
of_parts :
    (p : Profile)
    → HasActive p
    → DistinctBy sub_url p.subscriptions
    → AreValid p.active_routing_id p.routing_configs
    → IsValid p
of_parts p a u r = record {
  active_node = a;
  active_routing = r.active_routing;
  urls = u;
  ids = r.ids;
  names = r.names;
  valid_names = r.valid_names;
}

-- The fields that a mutator of the nodes leaves alone.
record SameRest (p q : Profile) : Type 0 where
  subscriptions : p.subscriptions ≡ q.subscriptions
  routing_configs : p.routing_configs ≡ q.routing_configs
  active_routing_id : p.active_routing_id ≡ q.active_routing_id

of_nodes : (p q : Profile) → SameRest q p → HasActive q → IsValid p → IsValid q
of_nodes p q s a v =
    of_parts q a (rw s.subscriptions v.urls)
      (rw (s.routing_configs, s.active_routing_id) (routings_of p v))

set_active_node_if_unset-rest : (p : Profile) → SameRest (set_active_node_if_unset p).0 p
unfolding set_active_node_if_unset
set_active_node_if_unset-rest p = ground arith

replace_subscription_nodes-rest :
    (p : Profile) (id : String) (ns : List Node) → SameRest (replace_subscription_nodes p id ns) p
unfolding replace_subscription_nodes clear_lost_active
replace_subscription_nodes-rest p id ns = ground arith

remove_node_by_id-rest : (p : Profile) (id : String) → SameRest (remove_node_by_id p id).0 p
unfolding remove_node_by_id
remove_node_by_id-rest p id = ground arith

add_node-rest : (p : Profile) (n : Node) → SameRest (add_node p n).0 p
unfolding add_node set_active_node_if_unset
add_node-rest p n = ground arith

add_subscription-urls :
    (p : Profile) (s : Subscription)
    → DistinctBy sub_url p.subscriptions
    → DistinctBy sub_url (add_subscription p s).0.subscriptions
unfolding add_subscription
add_subscription-urls p s d = ground (arith, DistinctBy-append_one sub_url p.subscriptions s d)

remove_subscription-parts :
    (p : Profile) (id : String)
    → ((remove_subscription p id).0.subscriptions ≡ delete_func (λ s. s.id == id) p.subscriptions)
      × ((remove_subscription p id).0.routing_configs ≡ p.routing_configs)
      × ((remove_subscription p id).0.active_routing_id ≡ p.active_routing_id)
unfolding remove_subscription
remove_subscription-parts p id =
    let q = record p { subscriptions = delete_func (λ s. s.id == id) p.subscriptions } in
    let r = replace_subscription_nodes-rest q id [] in
    (
      ground (arith, r.subscriptions),
      ground (arith, r.routing_configs),
      ground (arith, r.active_routing_id),
    )

-- A mutator of the routing configs leaves the nodes and the subscriptions alone.
record SameNodes (p q : Profile) : Type 0 where
  nodes : p.nodes ≡ q.nodes
  active_node_id : p.active_node_id ≡ q.active_node_id
  subscriptions : p.subscriptions ≡ q.subscriptions

of_routings :
    (p q : Profile)
    → SameNodes q p
    → AreValid q.active_routing_id q.routing_configs
    → IsValid p
    → IsValid q
of_routings p q s r v =
    of_parts q (rw (s.nodes, s.active_node_id) v.active_node) (rw s.subscriptions v.urls) r

-- Every mutator, succeeding or failing, keeps the active node and the active routing among the
-- members, the subscription URLs distinct, and the routing configs' ids distinct and their names
-- valid and distinct; `AddRouting` does so for a config whose id no stored config has.
pub apply-IsValid : (m : Mutation) (p : Profile) → Admissible m p → IsValid p → IsValid (apply m p)
unfolding apply
apply-IsValid elect p _ v =
    of_nodes p _ (set_active_node_if_unset-rest p)
      (set_active_node_if_unset-HasActive p v.active_node) v
apply-IsValid (put_node n) p _ v =
    of_nodes p _ (add_node-rest p n) (add_node-HasActive p n v.active_node) v
apply-IsValid (put_group g fresh) p _ v =
    of_nodes p _ (unfold add_group in ground arith) (add_group-HasActive p g fresh v.active_node) v
apply-IsValid (edit_group id g) p _ v =
    of_nodes p _ (unfold replace_group_by_id in ground arith)
      (replace_group_by_id-HasActive p id g v.active_node) v
apply-IsValid (drop_node id) p _ v =
    of_nodes p _ (remove_node_by_id-rest p id) (remove_node_by_id-HasActive p id v.active_node) v
apply-IsValid (choose_node id) p _ v =
    of_nodes p _ (unfold set_active_node in ground arith)
      (set_active_node-HasActive p id v.active_node) v
apply-IsValid (put_sub s) p _ v =
    of_parts _ (unfold add_subscription in ground (arith, v.active_node))
      (add_subscription-urls p s v.urls)
      (unfold add_subscription in ground (arith, routings_of p v))
apply-IsValid (refresh_nodes id ns) p _ v =
    of_nodes p _ (replace_subscription_nodes-rest p id ns)
      (replace_subscription_nodes-HasActive p id ns) v
apply-IsValid (drop_sub id) p _ v =
    let (subs, configs, active) = remove_subscription-parts p id in
    of_parts _ (remove_subscription-HasActive p id v.active_node)
      (rw subs (DistinctBy-delete_func sub_url (λ s. s.id == id) p.subscriptions v.urls))
      (rw (configs, active) (routings_of p v))
apply-IsValid (put_routing rc fresh) p k v =
    of_routings p _ (unfold add_routing in ground arith)
      (add_routing-AreValid p rc fresh k (routings_of p v)) v
apply-IsValid (edit_routing id rc) p _ v =
    of_routings p _ (unfold replace_routing_by_id in ground arith)
      (replace_routing_by_id-AreValid p id rc (routings_of p v)) v
apply-IsValid (drop_routing id) p _ v =
    of_routings p _ (unfold remove_routing in ground arith)
      (remove_routing-AreValid p id (routings_of p v)) v
apply-IsValid (choose_routing id) p _ v =
    of_routings p _ (unfold set_active_routing in ground arith)
      (set_active_routing-AreValid p id (routings_of p v)) v

new_profile-IsValid : (name fresh : String) → IsValid (new_profile name fresh)
unfolding new_profile validate_name
new_profile-IsValid name fresh = record {
  active_node = refl;
  active_routing = ground (arith, eq_refl fresh);
  urls = tt;
  ids = (refl, tt);
  names = (refl, tt);
  valid_names = (refl, tt);
}

-- A new profile holds the invariant, and so does whatever calls of the mutators make of it.
pub Reach-IsValid : {p : Profile} → Reach p → IsValid p
Reach-IsValid (create name fresh e) = rw e (new_profile-IsValid name fresh)
Reach-IsValid (next {p = p} r m k e) = rw e (apply-IsValid m p k (Reach-IsValid r))
