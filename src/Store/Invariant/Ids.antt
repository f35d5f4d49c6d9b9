-- ===== src/Store/Invariant/Ids.antt =====
-- The ids of the routing configs under the mutators: none of them stores a config without an id, if
-- `uuid.New` never gives an empty one.
use iron_link.Prelude.{
  String, false, ◌==◌, ◌≡◌, arith, any, has_key-append, has_key-delete_func, [], ◌∷◌, Result-cases,
  Bool-cases, inl, inr,
}
use iron_link.Routing
use iron_link.Store.Name.{validate_name}
use iron_link.Store.Profile.{Profile}
use iron_link.Store.Reread.{HasIds}
use iron_link.Store.Mutators.{
  add_routing, replace_routing_by_id, remove_routing, set_active_node_if_unset, add_node,
  remove_node_by_id, set_active_node, clear_lost_active, add_group, replace_group_by_id,
  add_subscription, replace_subscription_nodes, remove_subscription, set_active_routing,
}
use iron_link.Store.Invariant.Defs.{
  Mutation, elect, put_node, put_group, edit_group, drop_node, choose_node, put_sub, refresh_nodes,
  drop_sub, put_routing, edit_routing, drop_routing, choose_routing, apply, routing_id,
}
use iron_link.Store.Invariant.Routings.{has_key-write}

-- The fresh id of a new routing config is not empty.
abbrev pub IsNamed : Mutation → Type 0
IsNamed (put_routing rc fresh) = (fresh == "") ≡ false
IsNamed _ = Unit {0}

add_routing-HasIds :
    (p : Profile) (rc : Routing.Config) (fresh : String)
    → (fresh == "") ≡ false
    → HasIds p
    → HasIds (add_routing p rc fresh).0
unfolding add_routing
add_routing-HasIds p rc fresh named h = elim (Result-cases (validate_name rc.name)) [
  | inr (e, bad) ↦ rw (bad, add_routing) h
  | inl (_, valid) ↦ elim (Bool-cases (any (λ r. r.name == rc.name) p.routing_configs)) [
    | inl taken ↦ rw (valid, add_routing, taken) h
    | inr free ↦ elim (Bool-cases (rc.id == "")) [
      | inl blank ↦
          rw (valid, add_routing, free, blank)
            (ground (
              arith,
              named,
              has_key-append routing_id p.routing_configs (record rc { id = fresh } ∷ []) "",
            ))
      | inr own ↦
          rw (valid, add_routing, free, own)
            (ground (
              arith,
              own,
              has_key-append routing_id p.routing_configs (record rc { id = rc.id } ∷ []) "",
            ))
    ]
  ]
]

replace_routing_by_id-HasIds :
    (p : Profile) (id : String) (rc : Routing.Config)
    → HasIds p
    → HasIds (replace_routing_by_id p id rc).0
unfolding replace_routing_by_id
replace_routing_by_id-HasIds p id rc h = elim (Result-cases (validate_name rc.name)) [
  | inr (e, bad) ↦ rw (bad, replace_routing_by_id) h
  | inl (_, valid) ↦
      rw (valid, replace_routing_by_id) (ground (arith, has_key-write rc id p.routing_configs ""))
]

-- Every mutator, succeeding or failing, leaves the routing configs with their ids.
pub apply-HasIds : (m : Mutation) (p : Profile) → IsNamed m → HasIds p → HasIds (apply m p)
unfolding apply set_active_node_if_unset add_node remove_node_by_id set_active_node add_group
    replace_group_by_id add_subscription replace_subscription_nodes remove_subscription
    remove_routing set_active_routing clear_lost_active
apply-HasIds elect p _ h = ground arith
apply-HasIds (put_node n) p _ h = ground arith
apply-HasIds (put_group g fresh) p _ h = ground arith
apply-HasIds (edit_group id g) p _ h = ground arith
apply-HasIds (drop_node id) p _ h = ground arith
apply-HasIds (choose_node id) p _ h = ground arith
apply-HasIds (put_sub s) p _ h = ground arith
apply-HasIds (refresh_nodes id ns) p _ h = ground arith
apply-HasIds (drop_sub id) p _ h = ground arith
apply-HasIds (put_routing rc fresh) p named h = add_routing-HasIds p rc fresh named h
apply-HasIds (edit_routing id rc) p _ h = replace_routing_by_id-HasIds p id rc h
apply-HasIds (drop_routing id) p _ h =
    has_key-delete_func routing_id (λ r. r.id == id) p.routing_configs "" h
apply-HasIds (choose_routing id) p _ h = ground arith
