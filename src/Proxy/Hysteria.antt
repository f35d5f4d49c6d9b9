-- ===== src/Proxy/Hysteria.antt =====
-- Hysteria nodes (daemon-go/internal/proxy/hysteria.go).
use iron_link.Prelude.{
  ℕ, String, Bool, true, Option, none, [], ◌∷◌, ◌==◌, if◌then◌else◌, Result, ok, insert,
}
use iron_link.Json.{ℤ, JsonMap, bool, str, object, nat, strings}
use iron_link.Proxy.Stream.{UnnativeTransportError, put_text}
use iron_link.Proxy.Capabilities.{CoreType, core_sing_box}
use iron_link.Proxy.Outbound.{put_int}

pub record HysteriaConfig : Type 0 where
  pub server_name : String
  pub address : String
  pub port : ℕ
  pub auth : String
  pub sni : String
  pub insecure : Bool
  pub up_mbps : ℤ
  pub down_mbps : ℤ
  pub obfs : String
  pub alpn : String
  pub protocol : String

-- `dialableBy`
abbrev pub dialable_by : HysteriaConfig → CoreType → Bool
dialable_by c core = core == core_sing_box

-- `SingBoxOutbound`
abbrev pub sing_box_outbound : HysteriaConfig → String → Result UnnativeTransportError JsonMap
sing_box_outbound c tag =
    let tls =
      put_text "server_name" c.sni (("enabled", bool true) ∷ ("insecure", bool c.insecure) ∷ []) in
    let tls_alpn = if c.alpn == "" then tls else insert "alpn" (strings (c.alpn ∷ [])) tls in
    ok (
      put_text "obfs" c.obfs (
        put_int "down_mbps" c.down_mbps (
          put_int "up_mbps" c.up_mbps (
            ("type", str "hysteria")
            ∷ ("tag", str tag)
            ∷ ("server", str c.address)
            ∷ ("server_port", nat c.port)
            ∷ ("auth_str", str c.auth)
            ∷ ("tls", object tls_alpn)
            ∷ []))))

-- `XrayOutbound`; `none` is ok=false.
abbrev pub xray_outbound : HysteriaConfig → Option JsonMap
xray_outbound c = none
