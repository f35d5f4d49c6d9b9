-- ===== src/Proxy/Tests.antt =====
-- Concrete nodes, and the theorems on selection at them.
use iron_link.Prelude.{◌≡◌, ◌⊎◌, refl, true, ◌||◌, none, some, ok, is_ok}
use iron_link.Proxy.Stream.{Security, Transport, security_reality, transport_tcp, transport_xhttp}
use iron_link.Proxy.Profile.{Profile, vless, dialable_by, stream_security}
use iron_link.Proxy.Capabilities.{core_sing_box, core_xray, core_caps}
use iron_link.Proxy.Selection.{select_core, select_from_eligible, eligible_cores, preferred_core}
use iron_link.Proxy.Selection.Rules.{select_core_sound, select_core_complete, select_core-reality}
use iron_link.Proxy.Selection.Emission.{select_core-emits, emits}

abbrev over_tcp : Transport
over_tcp = record { kind = transport_tcp; ws = none; grpc = none; xhttp = none }

abbrev over_xhttp : Transport
over_xhttp = record { kind = transport_xhttp; ws = none; grpc = none; xhttp = none }

abbrev with_reality : Security
with_reality = record {
  kind = security_reality;
  tls = none;
  reality = some (record { sni = "example.org"; fp = "chrome"; pbk = "key"; sid = "" });
}

abbrev node_over : Transport → Profile
node_over t = vless (record {
  server_name = "a node";
  uuid = "b831381d";
  address = "192.0.2.1";
  port = 443;
  encryption = "none";
  flow = "";
  security = with_reality;
  transport = t;
})

select_core_sound_example :
    ((core_sing_box ≡ core_sing_box) ⊎ (core_sing_box ≡ core_xray))
    × (dialable_by (node_over over_tcp) core_sing_box ≡ true)
unfolding select_core select_from_eligible eligible_cores dialable_by core_caps preferred_core
select_core_sound_example =
    select_core_sound (node_over over_tcp) core_xray (some core_sing_box) core_sing_box refl

select_core_complete_example :
    is_ok (select_core (some (node_over over_xhttp)) core_sing_box none) ≡ (
      dialable_by (node_over over_xhttp) core_sing_box
      || dialable_by (node_over over_xhttp) core_xray)
select_core_complete_example = select_core_complete (node_over over_xhttp) core_sing_box

select_core-reality_example :
    select_core (some (node_over over_tcp)) core_sing_box none ≡ ok core_xray
unfolding stream_security dialable_by core_caps
select_core-reality_example =
    select_core-reality (node_over over_tcp) core_sing_box with_reality refl refl refl

select_core-emits_example : emits (node_over over_tcp) "proxy" core_sing_box ≡ true
unfolding select_core select_from_eligible eligible_cores dialable_by core_caps preferred_core
select_core-emits_example =
    select_core-emits (node_over over_tcp) core_xray core_sing_box (some core_sing_box) "proxy" refl
