-- ===== src/Engine/Route.antt =====
-- The compilation of a routing config to sing-box's route block
-- (daemon-go/internal/engine/route.go). Conditions pass through as raw JSON; the `json.Unmarshal` of
-- a rule's "type" and the trimming of a raw value are arguments.
pub mod Compiles
use iron_link.Prelude.{
  ℕ, ◌+◌, String, Bool, true, false, ◌||◌, not, Option, none, some, List, [], ◌∷◌, ◌++◌, map, ◌==◌,
  if◌then◌else◌, find, insert, lookup, is_empty, Result, ok, err, ◌>>=◌,
}
use iron_link.Json.{Json, JsonMap, bool, str, raw, object, array, strings}
use iron_link.Routing
use iron_link.Routing.{
  RuleTarget, Rule, Rules, rule, SniffParams, ResolveParams, RuleSetSource, target_direct,
  target_block, target_default_proxy, target_dpi_bypass, target_node, target_hijack_dns,
  target_sniff, target_resolve,
}
use iron_link.Engine.Plan.{SessionPlan, selector_tag}

pub data RouteError : Type 0 where
  dpi_bypass : RouteError
  node_not_embedded action_target : String → RouteError
  at_default : RouteError → RouteError
  at_rule : ℕ → RouteError → RouteError

-- The three loops of the Node case.
embedded_tag : SessionPlan → String → Option String
embedded_tag p node =
    let in_groups : Option String = elim (find (λ g. g.id == node) p.groups) [
      | some g ↦ some g.id
      | none ↦ none
    ] in
    let in_xray : Option String = elim (find (λ n. n.id == node) p.xray_nodes) [
      | some n ↦ some n.id
      | none ↦ in_groups
    ] in
    elim (find (λ n. n.id == node) p.natives) [ some n ↦ some n.id | none ↦ in_xray ]

unfoldable pub resolve_target : SessionPlan → RuleTarget → Result RouteError String
unfolding embedded_tag
resolve_target p t =
    if t.kind == target_direct
    then ok "direct"
    else if t.kind == target_block
    then ok "block"
    else if t.kind == target_default_proxy
    then ok selector_tag
    else if t.kind == target_dpi_bypass
    then err dpi_bypass
    else if t.kind == target_node
    then (elim (embedded_tag p t.node) [
      | some tag ↦ ok tag
      | none ↦ err (node_not_embedded t.node)
    ])
    else err (action_target t.kind)

-- `trim` is `bytes.TrimSpace`, and `text_of` decodes a raw value as a JSON string.
module _ (trim : String → String) (text_of : String → Option String) where
  unfoldable pub conditions_of : List (String × String) → JsonMap
  conditions_of [] = []
  conditions_of ((k, v) ∷ cs) =
      if trim v == "null" then conditions_of cs else (k, raw v) ∷ conditions_of cs

  unfoldable pub is_logical : List (String × String) → Bool
  is_logical cs = elim (lookup "type" cs) [
    | none ↦ false
    | some v ↦ (elim (text_of v) [ none ↦ false | some s ↦ s == "logical" ])
  ]

  -- `out["rules"] = subs` for a logical rule.
  with_subs : List (String × String) → List Json → JsonMap → JsonMap
  unfolding is_logical
  with_subs cs subs out = if is_logical cs then insert "rules" (array subs) out else out

  mutual
    unfolding with_subs conditions_of

    pub compile_match_rule : Rule → JsonMap
    compile_match_rule (rule t rs cs) = with_subs cs (compile_subs rs) (conditions_of cs)

    pub compile_subs : Rules → List Json
    compile_subs Rules.nil = []
    compile_subs (Rules.cons r rs) = object (compile_match_rule r) ∷ compile_subs rs

  sniff_fields : Option SniffParams → JsonMap → JsonMap
  sniff_fields none out = out
  sniff_fields (some s) out =
      let out1 = if is_empty s.sniffer then out else insert "sniffer" (strings s.sniffer) out in
      if s.timeout == "" then out1 else insert "timeout" (str s.timeout) out1

  resolve_fields : Option ResolveParams → JsonMap → JsonMap
  resolve_fields none out = out
  resolve_fields (some r) out =
      let out1 = if r.server == "" then out else insert "server" (str r.server) out in
      if r.strategy == "" then out1 else insert "strategy" (str r.strategy) out1

  unfoldable pub compile_rule : SessionPlan → Rule → Result RouteError JsonMap
  unfolding with_subs sniff_fields resolve_fields
  compile_rule p (rule t rs cs) =
      let out = with_subs cs (compile_subs rs) (conditions_of cs) in
      if t.kind == target_hijack_dns
      then ok (insert "action" (str "hijack-dns") out)
      else if t.kind == target_sniff
      then ok (sniff_fields t.sniff (insert "action" (str "sniff") out))
      else if t.kind == target_resolve
      then ok (resolve_fields t.resolve (insert "action" (str "resolve") out))
      else resolve_target p t >>= λ tag. ok (insert "outbound" (str tag) out)

  -- The loop over the user rules, which are numbered from 1.
  compile_rules : SessionPlan → ℕ → List Rule → Result RouteError (List Json)
  compile_rules p i [] = ok []
  compile_rules p i (r ∷ rs) = elim (compile_rule p r) [
    | err e ↦ err (at_rule i e)
    | ok m ↦ compile_rules p (i + 1) rs >>= λ ms. ok (object m ∷ ms)
  ]

  abbrev pub private_direct_cidrs : List String
  private_direct_cidrs = "10.0.0.0/8" ∷ "172.16.0.0/12" ∷ "192.168.0.0/16" ∷ []

  -- The immutable rules, in their order.
  unfoldable pub system_rules : Bool → List Json
  system_rules tun =
      object (("action", str "sniff") ∷ [])
      ∷ (if tun
          then object (("protocol", array (str "dns" ∷ [])) ∷ ("action", str "hijack-dns") ∷ [])
            ∷ object (("ip_cidr", strings private_direct_cidrs) ∷ ("outbound", str "direct") ∷ [])
            ∷ []
          else [])

  rule_set : RuleSetSource → Json
  rule_set rs =
      let set : JsonMap =
        ("type", str "remote")
        ∷ ("tag", str rs.tag)
        ∷ ("format", str rs.format)
        ∷ ("url", str rs.url)
        ∷ [] in
      object (elim rs.download_detour [
        | none ↦ set
        | some d ↦
            if d == "" then set else insert "http_client" (object (("detour", str d) ∷ [])) set
      ])

  -- The `route` object around its final tag, its rules and its rule sets.
  assemble : Bool → String → String → List Json → List RuleSetSource → JsonMap
  unfolding rule_set
  assemble tun resolver final rules sets =
      let route : JsonMap =
        ("default_domain_resolver", str resolver)
        ∷ ("final", str final)
        ∷ ("rules", array rules)
        ∷ ("find_process", bool true)
        ∷ [] in
      let detected = if tun then insert "auto_detect_interface" (bool true) route else route in
      if is_empty sets then detected else insert "rule_set" (array (map rule_set sets)) detected

  -- The final tag and the compiled user rules.
  route_parts : SessionPlan → Option Routing.Config → Result RouteError (String × List Json)
  unfolding compile_rules
  route_parts p none = ok (selector_tag, [])
  route_parts p (some rc) = elim (resolve_target p rc.default_target) [
    | err e ↦ err (at_default e)
    | ok final ↦ compile_rules p 1 rc.rules >>= λ rules. ok (final, rules)
  ]

  abbrev rule_sets_of : Option Routing.Config → List RuleSetSource
  rule_sets_of none = []
  rule_sets_of (some rc) = rc.rule_sets

  unfoldable pub route_block : SessionPlan → Bool → String → Result RouteError JsonMap
  unfolding route_parts assemble
  route_block p tun resolver = route_parts p p.routing >>= λ parts.
      ok (assemble tun resolver parts.0 (system_rules tun ++ parts.1) (rule_sets_of p.routing))
