-- ===== src/Proxy/Vmess.antt =====
-- VMess nodes (daemon-go/internal/proxy/vmess.go).
use iron_link.Prelude.{ℕ, String, Bool, ◌&&◌, Option, some, [], ◌∷◌, ◌==◌, if◌then◌else◌, Result}
use iron_link.Json.{ℤ, JsonMap, num, str, object, array, nat}
use iron_link.Proxy.Stream.{Security, Transport, UnnativeTransportError}
use iron_link.Proxy.Capabilities.{CoreType, core_caps, has_transport, has_security}
use iron_link.Proxy.Outbound.{with_stream, xray_stream}

pub record VmessConfig : Type 0 where
  pub server_name : String
  pub uuid : String
  pub address : String
  pub port : ℕ
  pub alter_id : ℤ
  pub cipher : String
  pub security : Security
  pub transport : Transport

-- `dialableBy`
abbrev pub dialable_by : VmessConfig → CoreType → Bool
dialable_by c core =
    let caps = core_caps core in
    has_transport caps c.transport.kind && has_security caps c.security.kind

-- `cipher`
abbrev request_cipher : VmessConfig → String
request_cipher c = if c.cipher == "" then "auto" else c.cipher

-- `SingBoxOutbound`
abbrev pub sing_box_outbound : VmessConfig → String → Result UnnativeTransportError JsonMap
sing_box_outbound c tag = with_stream c.security c.transport (
    ("type", str "vmess")
    ∷ ("tag", str tag)
    ∷ ("server", str c.address)
    ∷ ("server_port", nat c.port)
    ∷ ("uuid", str c.uuid)
    ∷ ("alter_id", num c.alter_id)
    ∷ ("security", str (request_cipher c))
    ∷ [])

-- `XrayOutbound`; `none` is ok=false.
abbrev pub xray_outbound : VmessConfig → Option JsonMap
xray_outbound c = some (
    ("protocol", str "vmess")
    ∷ (
      "settings",
      object (
          (
            "vnext",
            array (
                object (
                  ("address", str c.address)
                  ∷ ("port", nat c.port)
                  ∷ (
                    "users",
                    array (
                        object (
                          ("id", str c.uuid)
                          ∷ ("alterId", num c.alter_id)
                          ∷ ("security", str (request_cipher c))
                          ∷ ("level", nat 0)
                          ∷ [])
                        ∷ []),
                  )
                  ∷ [])
                ∷ []),
          )
          ∷ []),
    )
    ∷ ("streamSettings", xray_stream c.security c.transport)
    ∷ [])
