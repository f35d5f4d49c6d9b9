-- ===== src/Proxy/Selection/Emission.antt =====
-- Selection and emission: the outbound object of the core that is chosen.
use iron_link.Prelude.{
  ◌≡◌, refl, subst, inl, inr, ◌==◌, if◌then◌else◌, String, Bool, true, Option, some, arith, eq_iff,
  is_some, ok, is_ok, contains, and-eq-true,
}
use iron_link.Proxy.Stream.{
  Security, Transport, transport_tcp, transport_ws, transport_grpc, sing_box_transport,
}
use iron_link.Proxy.Profile.{
  Profile, dialable_by, sing_box_outbound, xray_outbound, vless, vmess, trojan, shadowsocks,
  hysteria2, hysteria, tuic, any_tls,
}
use iron_link.Proxy.Capabilities.{CoreType, core_xray, core_sing_box, core_caps}
use iron_link.Proxy.Outbound.{with_stream}
use iron_link.Proxy.Selection.{select_core}
use iron_link.Proxy.Selection.Rules.{select_core_sound}
use iron_link.Json.{JsonMap}

native_transport :
    (t : Transport)
    → contains (core_caps core_sing_box).transports t.kind ≡ true
    → is_ok (sing_box_transport t) ≡ true
unfolding sing_box_transport core_caps
native_transport t h = ground (
  arith,
  eq_iff t.kind transport_tcp,
  eq_iff t.kind transport_ws,
  eq_iff t.kind transport_grpc,
  eq_iff transport_tcp t.kind,
  eq_iff transport_ws t.kind,
  eq_iff transport_grpc t.kind,
)

with_stream_native :
    (s : Security) (t : Transport) (ob : JsonMap)
    → contains (core_caps core_sing_box).transports t.kind ≡ true
    → is_ok (with_stream s t ob) ≡ true
unfolding with_stream
with_stream_native s t ob h = ground (arith, native_transport t h)

sing_box_outbound_of_dialable :
    (p : Profile) (tag : String)
    → dialable_by p core_sing_box ≡ true
    → is_ok (sing_box_outbound p tag) ≡ true
unfolding dialable_by sing_box_outbound
sing_box_outbound_of_dialable (vless c) tag h =
    with_stream_native c.security c.transport _ (and-eq-true _ _ (and-eq-true _ _ h).0).0
sing_box_outbound_of_dialable (vmess c) tag h =
    with_stream_native c.security c.transport _ (and-eq-true _ _ h).0
sing_box_outbound_of_dialable (trojan c) tag h =
    with_stream_native c.security c.transport _ (and-eq-true _ _ h).0
sing_box_outbound_of_dialable (shadowsocks c) tag h = refl
sing_box_outbound_of_dialable (hysteria2 c) tag h = refl
sing_box_outbound_of_dialable (hysteria c) tag h = refl
sing_box_outbound_of_dialable (tuic c) tag h = refl
sing_box_outbound_of_dialable (any_tls c) tag h = refl

xray_outbound_of_dialable :
    (p : Profile) → dialable_by p core_xray ≡ true → is_some (xray_outbound p) ≡ true
unfolding dialable_by xray_outbound
xray_outbound_of_dialable (vless c) h = refl
xray_outbound_of_dialable (vmess c) h = refl
xray_outbound_of_dialable (trojan c) h = refl
xray_outbound_of_dialable (shadowsocks c) h = ground arith
xray_outbound_of_dialable (hysteria2 c) h = ground arith
xray_outbound_of_dialable (hysteria c) h = cc
xray_outbound_of_dialable (tuic c) h = cc
xray_outbound_of_dialable (any_tls c) h = cc

-- Whether a node has an outbound object for a core.
abbrev pub emits : Profile → String → CoreType → Bool
emits p tag core =
    if core == core_sing_box then is_ok (sing_box_outbound p tag) else is_some (xray_outbound p)

-- The core that selection returns, for any engine and any override, can emit the node's outbound:
-- a node sent to sing-box has a native outbound under every tag, with no error, and a node sent to
-- xray has an xray outbound.
pub select_core-emits :
    (p : Profile) (tun_engine core : CoreType) (override : Option CoreType) (tag : String)
    → select_core (some p) tun_engine override ≡ ok core
    → emits p tag core ≡ true
select_core-emits p tun_engine core override tag h =
    let (known, dials) = select_core_sound p tun_engine override core h in
    elim known [
      | inl e ↦
          rw e (sing_box_outbound_of_dialable p tag (subst (λ c. dialable_by p c ≡ true) e dials))
      | inr e ↦ rw e (xray_outbound_of_dialable p (subst (λ c. dialable_by p c ≡ true) e dials))
    ]
