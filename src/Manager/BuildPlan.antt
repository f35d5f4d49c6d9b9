-- ===== src/Manager/BuildPlan.antt =====
-- `buildPlan` of daemon-go/cmd/iron-link-daemon/manager.go. The rewrites through pointers into a
-- copy of the routing config are the returned config; the texts of errors and warnings are data.
pub mod Nodes
pub mod Groups
pub mod Sound
pub mod Targets
pub mod Starts
use iron_link.Prelude.{
  ℕ, suc, ◌+◌, ◌*◌, String, Bool, true, false, not, ◌||◌, ◌&&◌, Option, none, some, List, [], ◌∷◌,
  ◌++◌, map, ◌==◌, eqb, if◌then◌else◌, find, any, contains, is_empty, is_some, delete_func, has_key,
  Result, ok, err, ◌>>=◌,
}
use iron_link.Proxy.Profile as Proxy
use iron_link.Proxy.Capabilities.{CoreType, core_sing_box}
use iron_link.Proxy.Profile.{xray_outbound}
use iron_link.Proxy.Selection.{SelectError, select_core}
use iron_link.Routing
use iron_link.Routing.{
  RuleTarget, Rule, rule, target_of, sub_rules, conditions, target_node, target_default_proxy,
  unit_target,
}
use iron_link.Store.Profile.{Profile, Node, GroupSpec, is_group, display_name, find_node_by_id}
use iron_link.Engine.Plan.{NamedNode, GroupPlan, SessionPlan, ids_of, is_member}
use iron_link.Manager.Members.{resolve_group_member_ids}

pub data BuildError : Type 0 where
  select : SelectError → BuildError
  xray_cannot_dial : String → BuildError
  no_dialable_members : String → BuildError

-- Why a routing target falls back: its node is gone, is a group with no dialable member, or cannot
-- be dialed.
pub data Reason : Type 0 where
  gone : String → Reason
  empty_group undialable : String → String → Reason

-- `place` 0 is the default target, `place` i the rule i.
pub record Warning : Type 0 where
  pub routing : String
  pub place : ℕ
  pub reason : Reason

-- The nodes embedded so far.
pub record Members : Type 0 where
  pub natives : List NamedNode
  pub xray_nodes : List NamedNode

-- `n.Profile().XrayOutbound()`; a profile is there wherever a core was selected.
unfoldable pub xray_of : Node → Bool
xray_of n = elim n.doc [ none ↦ false | some p ↦ is_some (xray_outbound p) ]

abbrev pub named_node : Node → NamedNode
named_node n = record { id = n.id; name = display_name n; profile = n.doc }

-- Where the loop puts a node that `core` dials.
unfoldable pub place_node : Bool → Members → Node → CoreType → Result BuildError Members
unfolding xray_of
place_node active m n core =
    let named = named_node n in
    if core == core_sing_box
    then ok (record m { natives = m.natives ++ named ∷ [] })
    else if not (xray_of n)
    then (if active then err (xray_cannot_dial (display_name n)) else ok m)
    else if active
    then ok (record m { xray_nodes = named ∷ m.xray_nodes })
    else ok (record m { xray_nodes = m.xray_nodes ++ named ∷ [] })

-- One round of the loop over the profile's nodes.
unfoldable pub embed_node : String → Members → Node → Result BuildError Members
unfolding place_node
embed_node active_id m n =
    if is_group n
    then ok m
    else (elim (select_core n.doc core_sing_box n.preferences.core_override) [
      | err e ↦ if n.id == active_id then err (select e) else ok m
      | ok core ↦ place_node (n.id == active_id) m n core
    ])

unfoldable pub embed_nodes : String → Members → List Node → Result BuildError Members
embed_nodes active_id m [] = ok m
embed_nodes active_id m (n ∷ ns) = embed_node active_id m n >>= λ m'. embed_nodes active_id m' ns

-- The groups in play: the active one, then each group that a target names, once.
add_target_group : Profile → List Node → RuleTarget → List Node
add_target_group p groups t =
    if t.kind == target_node
    then (elim (find_node_by_id p t.node) [
      | none ↦ groups
      | some g ↦
          if is_group g && not (has_key (λ n. n.id) groups g.id) then groups ++ g ∷ [] else groups
    ])
    else groups

unfoldable pub groups_in_play : Profile → List Node → List RuleTarget → List Node
unfolding add_target_group
groups_in_play p groups [] = groups
groups_in_play p groups (t ∷ ts) = groups_in_play p (add_target_group p groups t) ts

-- A group's lowering to a urltest; `spec` is its group spec.
unfoldable pub group_plan : Node → List String → GroupSpec → GroupPlan
group_plan g members spec = record {
  id = g.id;
  name = display_name g;
  members = members;
  probe_url = spec.probe.url;
  interval = spec.probe.interval_sec * 1000000000;
  tolerance = spec.probe.tolerance;
}

-- The members of a group that embedded as dialable members.
unfoldable pub live_members : Profile → List String → Node → List String
live_members p tags g = delete_func (λ id. not (contains tags id)) (resolve_group_member_ids p g)

unfoldable pub lower_groups :
    Profile → String → List String → List Node → Result BuildError (List GroupPlan)
unfolding live_members group_plan
lower_groups p active_id tags [] = ok []
lower_groups p active_id tags (g ∷ gs) =
    let members = live_members p tags g in
    let rest = lower_groups p active_id tags gs in
    if is_empty members
    then (if g.id == active_id then err (no_dialable_members (display_name g)) else rest)
    else (elim g.group [
      | none ↦ rest
      | some spec ↦ rest >>= λ plans. ok (group_plan g members spec ∷ plans)
    ])

-- The reason in the warning about a target that the plan cannot resolve.
reason_for : Profile → String → Reason
reason_for p id = elim (find_node_by_id p id) [
  | none ↦ gone id
  | some n ↦
      if is_group n then empty_group (display_name n) n.id else undialable (display_name n) n.id
]

unfoldable pub fall_back : SessionPlan → RuleTarget → RuleTarget
fall_back plan t =
    if not (t.kind == target_node) || is_member plan t.node
    then t
    else unit_target target_default_proxy

warning_for : Profile → SessionPlan → String → ℕ → RuleTarget → List Warning
unfolding reason_for
warning_for p plan routing place t =
    if not (t.kind == target_node) || is_member plan t.node
    then []
    else (record { routing = routing; place = place; reason = reason_for p t.node }) ∷ []

rule_warnings : Profile → SessionPlan → String → ℕ → List Rule → List Warning
unfolding warning_for
rule_warnings p plan routing i [] = []
rule_warnings p plan routing i (r ∷ rs) =
    warning_for p plan routing i (target_of r) ++ rule_warnings p plan routing (i + 1) rs

abbrev pub retarget : (RuleTarget → RuleTarget) → Rule → Rule
retarget f r = rule (f (target_of r)) (sub_rules r) (conditions r)

unfoldable pub resolve_config : SessionPlan → Routing.Config → Routing.Config
unfolding fall_back
resolve_config plan rc = record rc {
  rules = map (retarget (fall_back plan)) rc.rules;
  default_target = fall_back plan rc.default_target;
}

-- The default target, then the targets of the rules.
abbrev pub targets_of : Option Routing.Config → List RuleTarget
targets_of none = []
targets_of (some rc) = rc.default_target ∷ map target_of rc.rules

-- The fallback pass over the targets, with the warnings in order.
unfoldable pub resolve_routing :
    Profile → SessionPlan → Option Routing.Config → Option Routing.Config × List Warning
unfolding resolve_config rule_warnings
resolve_routing p plan none = (none, [])
resolve_routing p plan (some rc) = (
  some (resolve_config plan rc),
  warning_for p plan rc.name 0 rc.default_target ++ rule_warnings p plan rc.name 1 rc.rules,
)

-- The plan before the fallback pass.
unfoldable pub embedded_plan :
    Profile → Node → Option Routing.Config → Result BuildError SessionPlan
unfolding embed_nodes groups_in_play lower_groups
embedded_plan p active rc = do
  m ← embed_nodes active.id (record { natives = []; xray_nodes = [] }) p.nodes
  let tags = ids_of m.natives ++ ids_of m.xray_nodes
  let first = if is_group active then active ∷ [] else []
  groups ← lower_groups p active.id tags (groups_in_play p first (targets_of rc))
  ok (record {
    natives = m.natives;
    xray_nodes = m.xray_nodes;
    active_tag = active.id;
    routing = rc;
    cache_path = "";
    tunables = none;
    groups = groups;
  })

unfoldable pub build_plan :
    Profile → Node → Option Routing.Config → Result BuildError (SessionPlan × List Warning)
unfolding embedded_plan resolve_routing
build_plan p active rc = do
  plan ← embedded_plan p active rc
  let (routing, warnings) = resolve_routing p plan rc
  ok (record plan { routing = routing }, warnings)
