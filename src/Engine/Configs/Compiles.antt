-- ===== src/Engine/Configs/Compiles.antt =====
-- When the configs of a session compile.
use iron_link.Prelude.{
  String, ◌≡◌, refl, Bool, true, false, none, some, List, [], ◌∷◌, ◌++◌, is_empty, is_some, All,
  Result, ok, err, is_ok, Option-cases, inl, inr, arith,
}
use iron_link.Json.{JsonMap}
use iron_link.Proxy.Profile.{Profile, sing_box_outbound, xray_outbound}
use iron_link.Engine.Tunables.{Tunables, effective_tunables}
use iron_link.Engine.Plan.{NamedNode, SessionPlan, validate}
use iron_link.Engine.Route.{route_block}
use iron_link.Engine.Host.{Host, encode}
use iron_link.Engine.XrayClient.{
  xray_outbounds, compile_xray_client_nodes, xray_config, xray_document, xray_rules,
  direct_outbound,
}
use iron_link.Engine.Configs.{
  native_outbounds, plan_outbounds, plan_dns, session_configs, session_document,
}

-- The node has an outbound object for sing-box, or for xray.
abbrev pub HasNative : NamedNode → Type 0
HasNative n = (p : Profile) × (n.profile ≡ some p) × (is_ok (sing_box_outbound p n.id) ≡ true)

abbrev pub HasXray : NamedNode → Type 0
HasXray n = (p : Profile) × (n.profile ≡ some p) × (is_some (xray_outbound p) ≡ true)

-- A result that is no error is a value.
pub the_value {ℓ κ} :
    {E : Type ℓ} {A : Type κ} (r : Result E A) → is_ok r ≡ true → (a : A) × (r ≡ ok a)
the_value (ok a) h = (a, refl)
the_value (err e) h = cc

native_outbounds-ok : (ns : List NamedNode) → All HasNative ns → is_ok (native_outbounds ns) ≡ true
unfolding native_outbounds
native_outbounds-ok [] h = refl
native_outbounds-ok (n ∷ ns) ((p, e, k), h) =
    let (ob, made) = the_value (sing_box_outbound p n.id) k in
    let (rest, more) = the_value (native_outbounds ns) (native_outbounds-ok ns h) in
    rw (native_outbounds, e, made, more) refl

plan_outbounds-ok :
    (host : Host) (p : SessionPlan) → All HasNative p.natives → is_ok (plan_outbounds host p) ≡ true
unfolding plan_outbounds
plan_outbounds-ok host p h =
    let (obs, made) = the_value (native_outbounds p.natives) (native_outbounds-ok p.natives h) in
    rw (plan_outbounds, made) refl

xray_outbounds-ok : (ns : List NamedNode) → All HasXray ns → is_ok (xray_outbounds ns) ≡ true
unfolding xray_outbounds
xray_outbounds-ok [] h = refl
xray_outbounds-ok (n ∷ ns) ((p, e, k), h) = elim (Option-cases (xray_outbound p)) [
  | inl missing ↦ cc (k, missing)
  | inr (ob, made) ↦
      let (rest, more) = the_value (xray_outbounds ns) (xray_outbounds-ok ns h) in
      rw (xray_outbounds, e, made, more) refl
]

encode-ok : (host : Host) (m : JsonMap) → host.marshal m ≡ none → encode host m ≡ ok m
unfolding encode
encode-ok host m h = rw (encode, h) refl

xray_config-ok :
    (host : Host) (ns : List NamedNode) (listen : String)
    → ((m : JsonMap) → host.marshal m ≡ none)
    → All HasXray ns
    → is_ok (xray_config host ns listen) ≡ true
unfolding xray_config compile_xray_client_nodes
xray_config-ok host [] listen encodes h = refl
xray_config-ok host (n ∷ ns) listen encodes h =
    let (obs, made) = the_value (xray_outbounds (n ∷ ns)) (xray_outbounds-ok (n ∷ ns) h) in
    let document =
      xray_document host.xray_log_level listen (obs ++ direct_outbound ∷ [])
        (xray_rules (n ∷ ns)) in
    rw (xray_config, compile_xray_client_nodes, made, encode-ok host document (encodes document))
      refl

plan_dns-ok : (host : Host) (t : Tunables) → is_empty t.dns ≡ false → is_ok (plan_dns host t) ≡ true
unfolding plan_dns
plan_dns-ok host t h = ground arith

-- What the compilers need of a plan.
pub record IsCompilable (host : Host) (p : SessionPlan) (tun : Bool) : Type 0 where
  pub valid : validate p ≡ ok tt
  pub natives : All HasNative p.natives
  pub xray_nodes : All HasXray p.xray_nodes
  pub dns : is_empty (effective_tunables p.tunables).dns ≡ false
  pub route : (resolver : String) → is_ok (route_block host.trim host.text_of p tun resolver) ≡ true

-- Where `json.Marshal` does not fail, the configs of such a plan compile: no stage fails, and nothing panics.
pub session_configs-ok :
    (host : Host) (p : SessionPlan) (tun : Bool) (inbound : JsonMap) (stub : String)
    → ((m : JsonMap) → host.marshal m ≡ none)
    → IsCompilable host p tun
    → is_ok (session_configs host p tun inbound stub) ≡ true
unfolding session_configs
session_configs-ok host p tun inbound stub encodes v =
    let t = effective_tunables p.tunables in
    let (obs, outbounds) = the_value (plan_outbounds host p) (plan_outbounds-ok host p v.natives) in
    let (dns, resolved) = the_value (plan_dns host t) (plan_dns-ok host t v.dns) in
    let (route, routed) =
      the_value (route_block host.trim host.text_of p tun dns.1) (v.route dns.1) in
    let (xray, bridged) =
      the_value (xray_config host p.xray_nodes stub)
        (xray_config-ok host p.xray_nodes stub encodes v.xray_nodes) in
    let document = session_document p inbound obs dns.0 route in
    rw
      (
        session_configs,
        v.valid,
        outbounds,
        resolved,
        routed,
        encode-ok host document (encodes document),
        bridged,
      )
      refl
