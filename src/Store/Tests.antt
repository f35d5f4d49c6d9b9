-- ===== src/Store/Tests.antt =====
-- A run of the mutators, and the invariant along it.
use iron_link.Prelude.{◌≡◌, none, not, any, ◌&&◌, ◌==◌, refl, some, []}
use iron_link.Routing
use iron_link.Routing.{unit_target, target_direct}
use iron_link.Store.Lookups.{find_node_by_name_sound, find_node_sound}
use iron_link.Store.Profile.{
  is_group, display_name, find_node_by_name, find_node_by_id, find_node, new_group_node, Profile,
  Node, GroupSpec, new_profile, new_subscription,
}
use iron_link.Store.Name.{validate_name}
use iron_link.Store.Mutators.{add_subscription, add_group, add_routing}
use iron_link.Store.Invariant.{IsValid, Mutation, apply, Reach, apply-IsValid, Reach-IsValid}

abbrev fresh_profile : Profile
fresh_profile = new_profile "home" "r1"

abbrev a_group : GroupSpec
a_group = record {
  name = "all";
  members = [];
  all_of_sub = some "s1";
  probe = record { url = ""; interval_sec = 300; tolerance = 50 };
}

abbrev direct_routing : Routing.Config
direct_routing = record {
  id = "r2";
  name = "direct";
  rule_sets = [];
  rules = [];
  default_target = unit_target target_direct;
}

abbrev with_group : Profile
with_group = apply (Mutation.put_group a_group "g1") fresh_profile

abbrev with_sub : Profile
with_sub = apply (Mutation.put_sub (new_subscription "https://a.example" "a" "s1" 0)) with_group

abbrev with_routing : Profile
with_routing = apply (Mutation.put_routing direct_routing "") with_sub

reached : Reach with_routing
unfolding apply new_profile add_subscription add_group add_routing validate_name
reached =
    Reach.next
      (Reach.next
        (Reach.next (Reach.create "home" "r1" refl) (Mutation.put_group a_group "g1") tt refl)
        (Mutation.put_sub (new_subscription "https://a.example" "a" "s1" 0)) tt refl)
      (Mutation.put_routing direct_routing "") refl refl

Reach-IsValid_example : IsValid with_routing
Reach-IsValid_example = Reach-IsValid reached

apply-IsValid_example : IsValid (apply (Mutation.drop_node "g1") with_routing)
apply-IsValid_example =
    apply-IsValid (Mutation.drop_node "g1") with_routing tt (Reach-IsValid reached)

find_node_by_name_sound_example :
    (display_name (new_group_node a_group none "g1") ≡ "all")
    × (is_group (new_group_node a_group none "g1")
        ≡ not (any (λ m. not (is_group m) && display_name m == "all") with_group.nodes))
unfolding find_node_by_name display_name apply add_group new_profile new_group_node
find_node_by_name_sound_example =
    find_node_by_name_sound with_group "all" (new_group_node a_group none "g1") refl

find_node_sound_example : (n : Node) × (find_node with_group "g1" ≡ some n) × (n.id ≡ "g1")
unfolding find_node find_node_by_id apply add_group new_profile new_group_node
find_node_sound_example = find_node_sound with_group "g1" refl
