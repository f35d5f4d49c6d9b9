-- ===== src/Manager/BuildPlan/Targets.antt =====
-- The routing that a built plan carries: where its targets point, and what was warned of.
use iron_link.Prelude.{
  ℕ, ◌+◌, String, ◌≡◌, refl, ◌∙◌, subst, Bool, true, not, ◌||◌, ◌&&◌, Option, none, some, List, [],
  ◌∷◌, append-eq-nil, arith, ◌==◌, ok, is_ok, >>=-eq-ok, ok-injective, map, all, Bool-cases, inl,
  inr,
}
use iron_link.Routing
use iron_link.Routing.{
  RuleTarget, Rule, rule, target_of, target_direct, target_block, target_default_proxy, target_node,
  target_hijack_dns, target_sniff, target_resolve, unit_target,
}
use iron_link.Store.Profile.{Profile, Node}
use iron_link.Engine.Plan.{SessionPlan, is_member, member_tags, node_tags}
use iron_link.Engine.Route.{route_block}
use iron_link.Engine.Route.Compiles.{is_routable, is_compilable, compiles, is_ok-route_block}
use iron_link.Manager.BuildPlan.{
  Warning, retarget, resolve_config, fall_back, warning_for, rule_warnings, resolve_routing,
  embedded_plan, build_plan,
}

-- The target kinds that the engine routes to, and those of a rule. `DpiBypass` is not among them.
abbrev pub routes_to : RuleTarget → Bool
routes_to t =
    t.kind == target_direct
    || t.kind == target_block
    || t.kind == target_default_proxy
    || t.kind == target_node

abbrev pub is_supported : RuleTarget → Bool
is_supported t =
    t.kind == target_hijack_dns || t.kind == target_sniff || t.kind == target_resolve || routes_to t

abbrev pub supported_config : Option Routing.Config → Bool
supported_config none = true
supported_config (some rc) =
    routes_to rc.default_target && all (λ r. is_supported (target_of r)) rc.rules

fall_back-is_routable :
    (plan : SessionPlan) (t : RuleTarget)
    → routes_to t ≡ true
    → is_routable plan (fall_back plan t) ≡ true
unfolding fall_back
fall_back-is_routable plan t h =
    elim (Bool-cases (not (t.kind == target_node) || is_member plan t.node)) [
      | inl e ↦ rw e (ground arith)
      | inr e ↦ rw e refl
    ]

fall_back-is_compilable :
    (plan : SessionPlan) (t : RuleTarget)
    → is_supported t ≡ true
    → is_compilable plan (fall_back plan t) ≡ true
unfolding fall_back
fall_back-is_compilable plan t h =
    elim (Bool-cases (not (t.kind == target_node) || is_member plan t.node)) [
      | inl e ↦ rw e (ground arith)
      | inr e ↦ rw e refl
    ]

all-is_compilable :
    (plan : SessionPlan) (rs : List Rule)
    → all (λ r. is_supported (target_of r)) rs ≡ true
    → all (λ r. is_compilable plan (target_of r)) (map (retarget (fall_back plan)) rs) ≡ true
all-is_compilable plan [] h = refl
all-is_compilable plan (rule t rs cs ∷ rules) h =
    ground (arith, fall_back-is_compilable plan t, all-is_compilable plan rules)

resolve_routing-compiles :
    (p : Profile) (plan : SessionPlan) (rc : Option Routing.Config)
    → supported_config rc ≡ true
    → compiles plan (resolve_routing p plan rc).0 ≡ true
unfolding resolve_routing resolve_config
resolve_routing-compiles p plan none h = refl
resolve_routing-compiles p plan (some rc) h =
    ground (arith, fall_back-is_routable plan rc.default_target, all-is_compilable plan rc.rules)

-- A plan that is built for a routing config with the targets Direct, Block, DefaultProxy and Node,
-- and the rule actions HijackDns, Sniff and Resolve, always has a route block: whatever nodes
-- failed to embed, the fallback leaves no target that the engine would refuse.
pub route_block-build_plan :
    (trim : String → String) (text_of : String → Option String) (p : Profile) (active : Node)
    (rc : Option Routing.Config) (plan : SessionPlan) (warnings : List Warning) (tun : Bool)
    (resolver : String)
    → supported_config rc ≡ true
    → build_plan p active rc ≡ ok (plan, warnings)
    → is_ok (route_block trim text_of plan tun resolver) ≡ true
unfolding build_plan is_member member_tags node_tags
route_block-build_plan trim text_of p active rc plan warnings tun resolver h built =
    let (plan0, embedded, last) = >>=-eq-ok (embedded_plan p active rc) _ built in
    is_ok-route_block trim text_of plan tun resolver
    ∙ subst (λ (q : SessionPlan × List Warning). compiles q.0 q.0.routing ≡ true)
        (ok-injective last) (resolve_routing-compiles p plan0 rc h)

-- Without a warning nothing is retargeted.
warning_for-kept :
    (p : Profile) (plan : SessionPlan) (routing : String) (i : ℕ) (t : RuleTarget)
    → warning_for p plan routing i t ≡ []
    → fall_back plan t ≡ t
unfolding warning_for fall_back
warning_for-kept p plan routing i t h =
    elim (Bool-cases (not (t.kind == target_node) || is_member plan t.node)) [
      | inl e ↦ rw e refl
      | inr e ↦ ground arith
    ]

rule_warnings-kept :
    (p : Profile) (plan : SessionPlan) (routing : String) (i : ℕ) (rs : List Rule)
    → rule_warnings p plan routing i rs ≡ []
    → map (retarget (fall_back plan)) rs ≡ rs
unfolding rule_warnings
rule_warnings-kept p plan routing i [] h = refl
rule_warnings-kept p plan routing i (rule t rs cs ∷ rules) h =
    let (first, rest) =
      append-eq-nil (warning_for p plan routing i t) (rule_warnings p plan routing (i + 1) rules)
        h in
    rw
      (
        warning_for-kept p plan routing i t first,
        rule_warnings-kept p plan routing (i + 1) rules rest,
      )
      refl

-- The fallback is never silent: a routing config that gets no warning is used as it is.
pub resolve_routing-kept :
    (p : Profile) (plan : SessionPlan) (rc : Option Routing.Config)
    → (resolve_routing p plan rc).1 ≡ []
    → (resolve_routing p plan rc).0 ≡ rc
unfolding resolve_routing resolve_config
resolve_routing-kept p plan none h = refl
resolve_routing-kept p plan (some rc) h =
    let (first, rest) =
      append-eq-nil (warning_for p plan rc.name 0 rc.default_target)
        (rule_warnings p plan rc.name 1 rc.rules) h in
    rw
      (
        warning_for-kept p plan rc.name 0 rc.default_target first,
        rule_warnings-kept p plan rc.name 1 rc.rules rest,
      )
      refl
