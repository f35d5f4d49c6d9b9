-- ===== src/Proxy/Tuic.antt =====
-- TUIC nodes (daemon-go/internal/proxy/tuic.go).
use iron_link.Prelude.{ℕ, String, Bool, true, Option, none, List, [], ◌∷◌, ◌==◌, Result, ok, insert}
use iron_link.Json.{JsonMap, bool, str, object, nat, strings}
use iron_link.Proxy.Stream.{UnnativeTransportError, put_text}
use iron_link.Proxy.Capabilities.{CoreType, core_sing_box}

pub record TuicConfig : Type 0 where
  pub server_name : String
  pub address : String
  pub port : ℕ
  pub uuid : String
  pub password : String
  pub sni : String
  pub congestion_control : String
  pub udp_relay_mode : String
  pub alpn : List String
  pub insecure : Bool

-- `dialableBy`
abbrev pub dialable_by : TuicConfig → CoreType → Bool
dialable_by c core = core == core_sing_box

-- `SingBoxOutbound`
abbrev pub sing_box_outbound : TuicConfig → String → Result UnnativeTransportError JsonMap
sing_box_outbound c tag =
    let tls =
      put_text "server_name" c.sni (("enabled", bool true) ∷ ("insecure", bool c.insecure) ∷ []) in
    let tls_alpn : JsonMap = elim c.alpn [
      | [] ↦ tls
      | a ∷ rest ↦ insert "alpn" (strings (a ∷ rest)) tls
    ] in
    ok (
      put_text "udp_relay_mode" c.udp_relay_mode (
        put_text "congestion_control" c.congestion_control (
          ("type", str "tuic")
          ∷ ("tag", str tag)
          ∷ ("server", str c.address)
          ∷ ("server_port", nat c.port)
          ∷ ("uuid", str c.uuid)
          ∷ ("password", str c.password)
          ∷ ("tls", object tls_alpn)
          ∷ [])))

-- `XrayOutbound`; `none` is ok=false.
abbrev pub xray_outbound : TuicConfig → Option JsonMap
xray_outbound c = none
