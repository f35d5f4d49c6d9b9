-- ===== src/Manager/Tests.antt =====
-- A profile with two nodes, a group and a routing config, and what is built of it.
use iron_link.Prelude.{String, ◌≡◌, refl, true, false, none, some, [], ◌∷◌, ok, is_ok}
use iron_link.Proxy.Profile as Proxy
use iron_link.Proxy.Profile.{trojan, dialable_by, xray_outbound, stream_security}
use iron_link.Proxy.Capabilities.{core_caps}
use iron_link.Proxy.Selection.{select_core, select_from_eligible, eligible_cores, preferred_core}
use iron_link.Routing
use iron_link.Routing.{
  RuleTarget, rule, unit_target, target_node, target_direct, target_default_proxy,
}
use iron_link.Store.Profile.{Profile, Node, find_node_by_id, display_name}
use iron_link.Engine.Plan.{SessionPlan, validate, is_member, member_tags, node_tags}
use iron_link.Engine.Route.{route_block}
use iron_link.Manager.BuildPlan.{
  Warning, gone, build_plan, embedded_plan, embed_nodes, embed_node, place_node, xray_of,
  groups_in_play, lower_groups, resolve_routing, resolve_config, fall_back, live_members,
  group_plan, named_node,
}
use iron_link.Manager.Members.{resolve_group_member_ids}
use iron_link.Manager.BuildPlan.Sound.{validate-build_plan}
use iron_link.Manager.BuildPlan.Targets.{route_block-build_plan, resolve_routing-kept}

abbrev pub a_node : String → String → Node
a_node id transport = record {
  id = id;
  sub_id = none;
  doc = some (
      trojan (record {
        server_name = id;
        address = "192.0.2.1";
        port = 443;
        password = "secret";
        security = record { kind = "tls"; tls = none; reality = none };
        transport = record { kind = transport; ws = none; grpc = none; xhttp = none };
      }));
  group = none;
  preferences = record { core_override = none };
}

abbrev a_group : Node
a_group = record {
  id = "g";
  sub_id = none;
  doc = none;
  group = some (record {
    name = "auto";
    members = "a" ∷ "b" ∷ "lost" ∷ [];
    all_of_sub = none;
    probe = record { url = "http://probe"; interval_sec = 300; tolerance = 50 };
  });
  preferences = record { core_override = none };
}

abbrev to_node : String → RuleTarget
to_node id = record { kind = target_node; node = id; sniff = none; resolve = none }

abbrev pub a_routing : Routing.Config
a_routing = record {
  id = "r";
  name = "r";
  rule_sets = [];
  rules = rule (to_node "g") Routing.Rules.nil [] ∷ rule (to_node "lost") Routing.Rules.nil [] ∷ [];
  default_target = unit_target target_direct;
}

abbrev pub a_profile : Profile
a_profile = record {
  schema_version = 3;
  name = "home";
  active_node_id = some "a";
  subscriptions = [];
  nodes = a_node "a" "tcp" ∷ a_node "b" "xhttp" ∷ a_group ∷ [];
  routing_configs = a_routing ∷ [];
  active_routing_id = some "r";
}

abbrev pub the_plan : SessionPlan
the_plan = record {
  natives = named_node (a_node "a" "tcp") ∷ [];
  xray_nodes = named_node (a_node "b" "xhttp") ∷ [];
  active_tag = "a";
  routing = some (record a_routing {
    rules =
        rule (to_node "g") Routing.Rules.nil []
        ∷ rule (unit_target target_default_proxy) Routing.Rules.nil []
        ∷ [];
  });
  cache_path = "";
  tunables = none;
  groups =
      (record {
        id = "g";
        name = "auto";
        members = "a" ∷ "b" ∷ [];
        probe_url = "http://probe";
        interval = 300000000000;
        tolerance = 50;
      })
      ∷ [];
}

abbrev pub the_warning : Warning
the_warning = record { routing = "r"; place = 2; reason = gone "lost" }

-- The node of the second rule is gone, so its traffic goes to the default proxy.
pub built :
    build_plan a_profile (a_node "a" "tcp") (some a_routing) ≡ ok (the_plan, the_warning ∷ [])
unfolding build_plan embedded_plan embed_nodes embed_node place_node xray_of groups_in_play
    lower_groups resolve_routing resolve_config fall_back is_member member_tags node_tags
    select_core select_from_eligible eligible_cores preferred_core dialable_by core_caps
    xray_outbound live_members group_plan resolve_group_member_ids display_name Proxy.display_name
    stream_security
built = refl

validate-build_plan_example : validate the_plan ≡ ok tt
unfolding find_node_by_id
validate-build_plan_example =
    validate-build_plan a_profile (a_node "a" "tcp") (some a_routing) the_plan (the_warning ∷ [])
      (refl, (refl, (refl, tt))) refl built

route_block-build_plan_example :
    is_ok (route_block (λ v. v) (λ v. none) the_plan false "dns") ≡ true
route_block-build_plan_example =
    route_block-build_plan (λ v. v) (λ v. none) a_profile (a_node "a" "tcp") (some a_routing)
      the_plan (the_warning ∷ []) false "dns" refl built

resolve_routing-kept_example :
    (resolve_routing a_profile the_plan the_plan.routing).0 ≡ the_plan.routing
unfolding resolve_routing is_member member_tags node_tags
resolve_routing-kept_example = resolve_routing-kept a_profile the_plan the_plan.routing refl
