-- ===== src/Engine/Tests.antt =====
-- A small plan, and the theorems on plans and routes at it.
use iron_link.Prelude.{
  String, ◌≡◌, map, lookup, List, ◌↔◌, refl, true, none, some, [], ◌∷◌, ok, err, is_ok,
}
use iron_link.Json.{JsonMap, str}
use iron_link.Proxy.Profile.{trojan, xray_outbound}
use iron_link.Engine.XrayClient.{xray_outbounds}
use iron_link.Engine.XrayClient.Dispatch.{xray_outbounds-tags}
use iron_link.Routing
use iron_link.Routing.{RuleTarget, rule, unit_target, target_node, target_direct, target_sniff}
use iron_link.Engine.Plan.{
  NamedNode, SessionPlan, validate, member_tags, node_tags, display_name_for_tag,
  member_tag_for_name,
}
use iron_link.Engine.Plan.Lookup.{display_name_for_tag-member_tag_for_name}
use iron_link.Engine.Plan.Validity.{IsStartable, validate_iff}
use iron_link.Engine.Route.{route_block}
use iron_link.Engine.Route.Compiles.{is_ok-route_block, compiles}

abbrev to_node : String → RuleTarget
to_node id = record { kind = target_node; node = id; sniff = none; resolve = none }

abbrev a_routing : Routing.Config
a_routing = record {
  id = "r";
  name = "r";
  rule_sets = [];
  rules =
      rule (unit_target target_sniff) Routing.Rules.nil []
      ∷ rule (to_node "b") Routing.Rules.nil (("port", "443") ∷ [])
      ∷ [];
  default_target = unit_target target_direct;
}

abbrev a_plan : SessionPlan
a_plan = record {
  natives = (record { id = "a"; name = "A"; profile = none }) ∷ [];
  xray_nodes = (record { id = "b"; name = "B"; profile = none }) ∷ [];
  active_tag = "a";
  routing = some a_routing;
  cache_path = "";
  tunables = none;
  groups =
      (record {
        id = "g";
        name = "G";
        members = "a" ∷ "b" ∷ [];
        probe_url = "";
        interval = 0;
        tolerance = 0;
      })
      ∷ [];
}

validate_iff_example : (validate a_plan ≡ ok tt) ↔ IsStartable a_plan
validate_iff_example = validate_iff a_plan

is_ok-route_block_example :
    is_ok (route_block (λ v. v) (λ v. none) a_plan true "dns") ≡ compiles a_plan a_plan.routing
is_ok-route_block_example = is_ok-route_block (λ v. v) (λ v. none) a_plan true "dns"

startable : IsStartable a_plan
unfolding validate member_tags node_tags
startable = (validate_iff a_plan).0 refl

display_name_for_tag-member_tag_for_name_example : display_name_for_tag a_plan "b" ≡ some "B"
unfolding member_tag_for_name
display_name_for_tag-member_tag_for_name_example =
    display_name_for_tag-member_tag_for_name a_plan "B" "b" startable.unique refl

abbrev xray_members : List NamedNode
xray_members =
    (record {
      id = "b";
      name = "B";
      profile = some (
          trojan (record {
            server_name = "B";
            address = "192.0.2.1";
            port = 443;
            password = "secret";
            security = record { kind = "tls"; tls = none; reality = none };
            transport = record { kind = "xhttp"; ws = none; grpc = none; xhttp = none };
          }));
    })
    ∷ []

-- Its one outbound.
abbrev compiled : List JsonMap
compiled = elim (xray_outbounds xray_members) [ ok obs ↦ obs | err _ ↦ [] ]

xray_outbounds-tags_example : map (λ ob. lookup "tag" ob) compiled ≡ some (str "b") ∷ []
unfolding xray_outbounds xray_outbound
xray_outbounds-tags_example = xray_outbounds-tags xray_members compiled refl
