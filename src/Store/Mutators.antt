-- ===== src/Store/Mutators.antt =====
-- The mutators of a `Profile` (daemon-go/internal/store/profile.go). Each returns the profile as it
-- is left and what the Go method returns; a method that fails leaves the profile as it was.
use iron_link.Prelude.{
  String, Bool, true, false, not, ◌&&◌, Option, none, some, List, [], ◌∷◌, ◌++◌, ◌==◌, eqb,
  if◌then◌else◌, find, any, is_some, length, delete_func, replace_first, Result, ok, err,
}
use iron_link.Routing
use iron_link.Store.Name.{NameError, validate_name}
use iron_link.Store.Profile.{
  Profile, Node, GroupSpec, Subscription, is_group, find_node_by_id, new_group_node,
}

pub data StoreError : Type 0 where
  group_needs_name : StoreError
  not_a_group provider_group no_such_group no_such_node : String → StoreError
  duplicate_url duplicate_routing no_such_routing : String → StoreError
  bad_name : NameError → StoreError

abbrev pub Outcome : Type 0 → Type 0
Outcome A = Profile × Result StoreError A

-- The first dialable node becomes the active one, unless one is active; "" when there is none.
unfoldable pub set_active_node_if_unset : Profile → Profile × String
set_active_node_if_unset p = elim p.active_node_id [
  | some _ ↦ (p, "")
  | none ↦ (elim (find (λ n. not (is_group n)) p.nodes) [
    | none ↦ (p, "")
    | some n ↦ (record p { active_node_id = some n.id }, n.id)
  ])
]

unfoldable pub add_node : Profile → Node → Profile × String
unfolding set_active_node_if_unset
add_node p n = ((set_active_node_if_unset (record p { nodes = p.nodes ++ n ∷ [] })).0, n.id)

unfoldable pub add_group : Profile → GroupSpec → String → Outcome String
unfolding new_group_node
add_group p g fresh =
    if g.name == ""
    then (p, err group_needs_name)
    else (record p { nodes = p.nodes ++ new_group_node g none fresh ∷ [] }, ok fresh)

-- What the loop of `ReplaceGroupByID` does at the first node with the id.
replaceable : Node → String → Result StoreError (Unit {0})
replaceable n id =
    if not (is_group n)
    then err (not_a_group id)
    else if is_some n.sub_id
    then err (provider_group id)
    else ok tt

unfoldable pub replace_group_by_id : Profile → String → GroupSpec → Outcome (Unit {0})
unfolding replaceable
replace_group_by_id p id g =
    if g.name == "" then (p, err group_needs_name) else (elim (find (λ n. n.id == id) p.nodes) [
      | none ↦ (p, err (no_such_group id))
      | some n ↦ (elim (replaceable n id) [
        | err e ↦ (p, err e)
        | ok _ ↦ (
          record p {
            nodes = replace_first (λ m. m.id == id) (λ m. record m { group = some g }) p.nodes;
          },
          ok tt,
        )
      ])
    ])

-- `*ptr == id`, false on nil
abbrev pub points_at : Option String → String → Bool
points_at none id = false
points_at (some a) id = a == id

unfoldable pub remove_node_by_id : Profile → String → Profile × Bool
remove_node_by_id p id =
    let rest = delete_func (λ n. n.id == id) p.nodes in
    let removed = not (eqb (length rest) (length p.nodes)) in
    (
      record p {
        nodes = rest;
        active_node_id =
            if removed && points_at p.active_node_id id then none else p.active_node_id;
      },
      removed,
    )

unfoldable pub set_active_node : Profile → String → Outcome (Unit {0})
unfolding find_node_by_id
set_active_node p id = elim (find_node_by_id p id) [
  | none ↦ (p, err (no_such_node id))
  | some _ ↦ (record p { active_node_id = some id }, ok tt)
]

unfoldable pub add_subscription : Profile → Subscription → Outcome String
add_subscription p sub =
    if any (λ s. s.url == sub.url) p.subscriptions
    then (p, err (duplicate_url sub.url))
    else (record p { subscriptions = p.subscriptions ++ sub ∷ [] }, ok sub.id)

-- The node belongs to the subscription.
abbrev pub of_sub : String → Node → Bool
of_sub sub_id n = points_at n.sub_id sub_id

-- The active node is cleared when it is no longer there.
unfoldable pub clear_lost_active : Profile → Profile
unfolding find_node_by_id
clear_lost_active p = elim p.active_node_id [
  | none ↦ p
  | some id ↦ if is_some (find_node_by_id p id) then p else record p { active_node_id = none }
]

unfoldable pub replace_subscription_nodes : Profile → String → List Node → Profile
unfolding clear_lost_active set_active_node_if_unset
replace_subscription_nodes p sub_id new_nodes =
    (set_active_node_if_unset
      (clear_lost_active (record p { nodes = delete_func (of_sub sub_id) p.nodes ++ new_nodes }))).0

unfoldable pub remove_subscription : Profile → String → Profile × Bool
unfolding replace_subscription_nodes
remove_subscription p id =
    let rest = delete_func (λ s. s.id == id) p.subscriptions in
    let p' = record p { subscriptions = rest } in
    if eqb (length rest) (length p.subscriptions)
    then (p', false)
    else (replace_subscription_nodes p' id [], true)

unfoldable pub add_routing : Profile → Routing.Config → String → Outcome String
add_routing p rc fresh = elim (validate_name rc.name) [
  | err e ↦ (p, err (bad_name e))
  | ok _ ↦
      let id = if rc.id == "" then fresh else rc.id in
      if any (λ r. r.name == rc.name) p.routing_configs
      then (p, err (duplicate_routing rc.name))
      else (record p { routing_configs = p.routing_configs ++ (record rc { id = id }) ∷ [] }, ok id)
]

unfoldable pub replace_routing_by_id : Profile → String → Routing.Config → Outcome (Unit {0})
replace_routing_by_id p id rc = elim (validate_name rc.name) [
  | err e ↦ (p, err (bad_name e))
  | ok _ ↦
      if any (λ r. not (r.id == id) && r.name == rc.name) p.routing_configs
      then (p, err (duplicate_routing rc.name))
      else if any (λ r. r.id == id) p.routing_configs
      then (
        record p {
          routing_configs =
              replace_first (λ r. r.id == id) (λ _. record rc { id = id }) p.routing_configs;
        },
        ok tt,
      )
      else (p, err (no_such_routing id))
]

unfoldable pub remove_routing : Profile → String → Profile × Bool
remove_routing p id =
    let rest = delete_func (λ r. r.id == id) p.routing_configs in
    let removed = not (eqb (length rest) (length p.routing_configs)) in
    (
      record p {
        routing_configs = rest;
        active_routing_id =
            if removed && points_at p.active_routing_id id then none else p.active_routing_id;
      },
      removed,
    )

unfoldable pub set_active_routing : Profile → String → Outcome (Unit {0})
set_active_routing p id =
    if any (λ r. r.id == id) p.routing_configs
    then (record p { active_routing_id = some id }, ok tt)
    else (p, err (no_such_routing id))
