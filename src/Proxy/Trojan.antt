-- ===== src/Proxy/Trojan.antt =====
-- Trojan nodes (daemon-go/internal/proxy/trojan.go).
use iron_link.Prelude.{ℕ, String, Bool, ◌&&◌, Option, some, [], ◌∷◌, Result}
use iron_link.Json.{JsonMap, str, object, array, nat}
use iron_link.Proxy.Stream.{Security, Transport, UnnativeTransportError}
use iron_link.Proxy.Capabilities.{CoreType, core_caps, has_transport, has_security}
use iron_link.Proxy.Outbound.{with_stream, xray_stream}

pub record TrojanConfig : Type 0 where
  pub server_name : String
  pub address : String
  pub port : ℕ
  pub password : String
  pub security : Security
  pub transport : Transport

-- `dialableBy`
abbrev pub dialable_by : TrojanConfig → CoreType → Bool
dialable_by c core =
    let caps = core_caps core in
    has_transport caps c.transport.kind && has_security caps c.security.kind

-- `SingBoxOutbound`
abbrev pub sing_box_outbound : TrojanConfig → String → Result UnnativeTransportError JsonMap
sing_box_outbound c tag = with_stream c.security c.transport (
    ("type", str "trojan")
    ∷ ("tag", str tag)
    ∷ ("server", str c.address)
    ∷ ("server_port", nat c.port)
    ∷ ("password", str c.password)
    ∷ [])

-- `XrayOutbound`; `none` is ok=false.
abbrev pub xray_outbound : TrojanConfig → Option JsonMap
xray_outbound c = some (
    ("protocol", str "trojan")
    ∷ (
      "settings",
      object (
          (
            "servers",
            array (
                object (
                  ("address", str c.address)
                  ∷ ("port", nat c.port)
                  ∷ ("password", str c.password)
                  ∷ ("level", nat 0)
                  ∷ [])
                ∷ []),
          )
          ∷ []),
    )
    ∷ ("streamSettings", xray_stream c.security c.transport)
    ∷ [])
