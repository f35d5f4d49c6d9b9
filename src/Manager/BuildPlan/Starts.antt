-- ===== src/Manager/BuildPlan/Starts.antt =====
-- The outbounds of a built plan's members, and its configs.
use iron_link.Prelude.{
  String, ◌≡◌, sym, ◌∙◌, subst, Bool, true, false, Option, none, some, List, [], ◌∷◌, ◌++◌, ◌==◌,
  is_empty, All, All-append, ok, is_ok, >>=-eq-ok, ok-injective, Result-cases, Option-cases,
  Bool-cases, inl, inr, arith, DistinctBy,
}
use iron_link.Json.{ℤ, JsonMap}
use iron_link.Routing
use iron_link.Proxy.Capabilities.{CoreType, core_sing_box}
use iron_link.Proxy.Selection.{select_core}
use iron_link.Proxy.Selection.Emission.{select_core-emits}
use iron_link.Store.Profile.{Profile, Node, is_group, find_node_by_id}
use iron_link.Engine.Tunables.{Tunables}
use iron_link.Engine.Plan.{SessionPlan, validate, is_member, member_tags, node_tags}
use iron_link.Engine.Route.Compiles.{is_ok-route_block}
use iron_link.Engine.Host.{Host}
use iron_link.Engine.Configs.{socks_inbound, plan_socks_configs, plan_tun_configs}
use iron_link.Engine.Configs.Compiles.{HasNative, HasXray, IsCompilable, session_configs-ok}
use iron_link.Manager.BuildPlan.{
  Members, Warning, named_node, xray_of, place_node, embed_node, embed_nodes, groups_in_play,
  targets_of, lower_groups, embedded_plan, build_plan,
}
use iron_link.Manager.BuildPlan.Nodes.{tags_of}
use iron_link.Manager.BuildPlan.Sound.{no_members, first_group, validate-build_plan}
use iron_link.Manager.BuildPlan.Targets.{supported_config, route_block-build_plan}

-- Every member so far has an outbound object for the core that it is embedded in.
pub record HaveOutbounds (m : Members) : Type 0 where
  pub natives : All HasNative m.natives
  pub xray_nodes : All HasXray m.xray_nodes

place_node-HaveOutbounds :
    (active : Bool) (m m' : Members) (n : Node) (core : CoreType)
    → HaveOutbounds m
    → select_core n.doc core_sing_box n.preferences.core_override ≡ ok core
    → place_node active m n core ≡ ok m'
    → HaveOutbounds m'
unfolding place_node xray_of select_core
place_node-HaveOutbounds active m m' n core v chosen h = elim (Option-cases n.doc) [
  | inl missing ↦
      let bad =
        subst (λ d. select_core d core_sing_box n.preferences.core_override ≡ ok core) missing
          chosen in
      cc
  | inr (p, e) ↦
      let known =
        subst (λ d. select_core d core_sing_box n.preferences.core_override ≡ ok core) e chosen in
      let emit = select_core-emits p core_sing_box core n.preferences.core_override n.id known in
      elim (Bool-cases (core == core_sing_box)) [
        | inl native ↦
            let same : record m { natives = m.natives ++ named_node n ∷ [] } ≡ m' = ground arith in
            let has : HasNative (named_node n) = (p, e, ground arith) in
            rw (← same) (record {
              natives = All-append HasNative m.natives (named_node n ∷ []) v.natives (has, tt);
              xray_nodes = v.xray_nodes;
            })
        | inr bridged ↦
            let has : HasXray (named_node n) = (p, e, ground arith) in
            elim (Bool-cases (xray_of n)) [
              | inr undialable ↦ elim (Bool-cases active) [
                | inl a ↦ absurd (ground arith)
                | inr a ↦ let same : m ≡ m' = ground arith in rw (← same) v
              ]
              | inl dialable ↦ elim (Bool-cases active) [
                | inl a ↦
                    let same : record m { xray_nodes = named_node n ∷ m.xray_nodes } ≡ m' =
                      ground arith in
                    rw (← same) (record { natives = v.natives; xray_nodes = (has, v.xray_nodes) })
                | inr a ↦
                    let same : record m { xray_nodes = m.xray_nodes ++ named_node n ∷ [] } ≡ m' =
                      ground arith in
                    rw (← same) (record {
                      natives = v.natives;
                      xray_nodes =
                          All-append HasXray m.xray_nodes (named_node n ∷ []) v.xray_nodes
                            (has, tt);
                    })
              ]
            ]
      ]
]

embed_node-HaveOutbounds :
    (active_id : String) (m m' : Members) (n : Node)
    → HaveOutbounds m
    → embed_node active_id m n ≡ ok m'
    → HaveOutbounds m'
unfolding embed_node
embed_node-HaveOutbounds active_id m m' n v h = elim (Bool-cases (is_group n)) [
  | inl g ↦ let same : m ≡ m' = ground arith in rw (← same) v
  | inr d ↦ elim (Result-cases (select_core n.doc core_sing_box n.preferences.core_override)) [
    | inl (core, e) ↦ place_node-HaveOutbounds (n.id == active_id) m m' n core v e (ground arith)
    | inr (e, bad) ↦ elim (Bool-cases (n.id == active_id)) [
      | inl a ↦ absurd (ground arith)
      | inr a ↦ let same : m ≡ m' = ground arith in rw (← same) v
    ]
  ]
]

embed_nodes-HaveOutbounds :
    (active_id : String) (m m' : Members) (ns : List Node)
    → HaveOutbounds m
    → embed_nodes active_id m ns ≡ ok m'
    → HaveOutbounds m'
unfolding embed_nodes
embed_nodes-HaveOutbounds active_id m m' [] v h = rw (← ok-injective h) v
embed_nodes-HaveOutbounds active_id m m' (n ∷ ns) v h =
    let (m1, first, later) =
      >>=-eq-ok (embed_node active_id m n) (λ x. embed_nodes active_id x ns) h in
    embed_nodes-HaveOutbounds active_id m1 m' ns (embed_node-HaveOutbounds active_id m m1 n v first)
      later

embedded_plan-HaveOutbounds :
    (p : Profile) (active : Node) (rc : Option Routing.Config) (plan : SessionPlan)
    → embedded_plan p active rc ≡ ok plan
    → All HasNative plan.natives × All HasXray plan.xray_nodes
unfolding embedded_plan
embedded_plan-HaveOutbounds p active rc plan h =
    let (m, embedded, h1) = >>=-eq-ok (embed_nodes active.id no_members p.nodes) _ h in
    let gs = groups_in_play p (first_group active) (targets_of rc) in
    let (plans, lower, h2) = >>=-eq-ok (lower_groups p active.id (tags_of m) gs) _ h1 in
    let v =
      embed_nodes-HaveOutbounds active.id no_members m p.nodes
        (record { natives = tt; xray_nodes = tt }) embedded in
    subst (λ (q : SessionPlan). All HasNative q.natives × All HasXray q.xray_nodes)
      (ok-injective h2) (v.natives, v.xray_nodes)

-- The plan as `prepareActivation` completes it.
abbrev pub prepared : SessionPlan → String → Tunables → SessionPlan
prepared plan cache tunables = record plan { cache_path = cache; tunables = some tunables }

prepared-IsCompilable :
    (host : Host) (p : Profile) (active : Node) (rc : Option Routing.Config) (plan : SessionPlan)
    (warnings : List Warning) (cache : String) (tunables : Tunables) (tun : Bool)
    → DistinctBy (λ n. n.id) p.nodes
    → find_node_by_id p active.id ≡ some active
    → supported_config rc ≡ true
    → is_empty tunables.dns ≡ false
    → build_plan p active rc ≡ ok (plan, warnings)
    → IsCompilable host (prepared plan cache tunables) tun
unfolding build_plan validate is_member member_tags node_tags
prepared-IsCompilable host p active rc plan warnings cache tunables tun distinct found supported
      some_dns built =
    let (plan0, embedded, last) = >>=-eq-ok (embedded_plan p active rc) _ built in
    let has =
      subst
        (λ (q : SessionPlan × List Warning). All HasNative q.0.natives × All HasXray q.0.xray_nodes)
        (ok-injective last) (embedded_plan-HaveOutbounds p active rc plan0 embedded) in
    record {
      valid = validate-build_plan p active rc plan warnings distinct found built;
      natives = has.0;
      xray_nodes = has.1;
      dns = some_dns;
      route = λ resolver.
          is_ok-route_block host.trim host.text_of (prepared plan cache tunables) tun resolver
          ∙ sym (is_ok-route_block host.trim host.text_of plan tun resolver)
          ∙ route_block-build_plan host.trim host.text_of p active rc plan warnings tun resolver
              supported built;
    }

-- What activation builds, it compiles: where the profile has distinct node ids and the node is one of
-- it, the routing config, if any, has supported targets only, the settings name a DNS server, and
-- `json.Marshal` does not fail, the configs of a built plan compile in both modes, for both cores,
-- with no stage failing and nothing panicking.
pub plan_configs-build_plan :
    (host : Host) (p : Profile) (active : Node) (rc : Option Routing.Config) (plan : SessionPlan)
    (warnings : List Warning) (cache : String) (tunables : Tunables) (tun_name listen : String)
    (port : ℤ)
    → DistinctBy (λ n. n.id) p.nodes
    → find_node_by_id p active.id ≡ some active
    → supported_config rc ≡ true
    → is_empty tunables.dns ≡ false
    → ((m : JsonMap) → host.marshal m ≡ none)
    → build_plan p active rc ≡ ok (plan, warnings)
    → (is_ok (plan_tun_configs host (prepared plan cache tunables) tun_name) ≡ true)
      × (is_ok (plan_socks_configs host (prepared plan cache tunables) listen port) ≡ true)
unfolding plan_tun_configs plan_socks_configs
plan_configs-build_plan host p active rc plan warnings cache tunables tun_name listen port distinct
      found supported some_dns encodes built =
    (
      session_configs-ok host (prepared plan cache tunables) true _ _ encodes (
          prepared-IsCompilable host p active rc plan warnings cache tunables true distinct found
            supported some_dns built),
      session_configs-ok host (prepared plan cache tunables) false (socks_inbound listen port) _
          encodes
          (prepared-IsCompilable host p active rc plan warnings cache tunables false distinct found
            supported some_dns built),
    )
