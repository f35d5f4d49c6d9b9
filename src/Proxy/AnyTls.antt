-- ===== src/Proxy/AnyTls.antt =====
-- AnyTLS nodes (daemon-go/internal/proxy/anytls.go).
use iron_link.Prelude.{ℕ, String, Bool, true, Option, none, [], ◌∷◌, ◌==◌, Result, ok}
use iron_link.Json.{JsonMap, bool, str, object, nat}
use iron_link.Proxy.Stream.{UnnativeTransportError, put_text}
use iron_link.Proxy.Capabilities.{CoreType, core_sing_box}
use iron_link.Proxy.Outbound.{put_flag}

pub record AnyTlsConfig : Type 0 where
  pub server_name : String
  pub address : String
  pub port : ℕ
  pub password : String
  pub sni : String
  pub insecure : Bool

-- `dialableBy`
abbrev pub dialable_by : AnyTlsConfig → CoreType → Bool
dialable_by c core = core == core_sing_box

-- `SingBoxOutbound`
abbrev pub sing_box_outbound : AnyTlsConfig → String → Result UnnativeTransportError JsonMap
sing_box_outbound c tag = ok (
    ("type", str "anytls")
    ∷ ("tag", str tag)
    ∷ ("server", str c.address)
    ∷ ("server_port", nat c.port)
    ∷ ("password", str c.password)
    ∷ (
      "tls",
      object (
          put_flag "insecure" c.insecure
            (put_text "server_name" c.sni (("enabled", bool true) ∷ []))),
    )
    ∷ [])

-- `XrayOutbound`; `none` is ok=false.
abbrev pub xray_outbound : AnyTlsConfig → Option JsonMap
xray_outbound c = none
