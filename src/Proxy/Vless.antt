-- ===== src/Proxy/Vless.antt =====
-- VLESS nodes (daemon-go/internal/proxy/vless.go).
use iron_link.Prelude.{
  ℕ, String, Bool, false, ◌&&◌, Option, some, [], ◌∷◌, ◌==◌, if◌then◌else◌, Result,
}
use iron_link.Json.{negsuc, JsonMap, bool, num, str, object, array, nat}
use iron_link.Proxy.Stream.{Security, Transport, UnnativeTransportError, put_text}
use iron_link.Proxy.Capabilities.{CoreType, core_caps, has_transport, has_security, covers_flow}
use iron_link.Proxy.Outbound.{with_stream, xray_stream}

pub record VlessConfig : Type 0 where
  pub server_name : String
  pub uuid : String
  pub address : String
  pub port : ℕ
  pub encryption : String
  pub flow : String
  pub security : Security
  pub transport : Transport

-- `dialableBy`
abbrev pub dialable_by : VlessConfig → CoreType → Bool
dialable_by c core =
    let caps = core_caps core in
    has_transport caps c.transport.kind
    && has_security caps c.security.kind
    && covers_flow caps c.flow

-- `SingBoxOutbound`
abbrev pub sing_box_outbound : VlessConfig → String → Result UnnativeTransportError JsonMap
sing_box_outbound c tag = with_stream c.security c.transport (
    put_text "flow" c.flow (
      ("type", str "vless")
      ∷ ("tag", str tag)
      ∷ ("server", str c.address)
      ∷ ("server_port", nat c.port)
      ∷ ("uuid", str c.uuid)
      ∷ []))

-- `XrayOutbound`; `none` is ok=false.
abbrev pub xray_outbound : VlessConfig → Option JsonMap
xray_outbound c =
    let encryption = if c.encryption == "" then "none" else c.encryption in
    some (
      ("protocol", str "vless")
      ∷ (
        "settings",
        object (
            (
              "vnext",
              array (
                  object (
                    ("address", str c.address)
                    ∷ ("port", nat c.port)
                    ∷ (
                      "users",
                      array (
                          object (
                            ("id", str c.uuid)
                            ∷ ("encryption", str encryption)
                            ∷ ("flow", str c.flow)
                            ∷ ("level", nat 0)
                            ∷ ("security", str "auto")
                            ∷ [])
                          ∷ []),
                    )
                    ∷ [])
                  ∷ []),
            )
            ∷ []),
      )
      ∷ ("streamSettings", xray_stream c.security c.transport)
      ∷ (
        "mux",
        object (
            ("enabled", bool false)
            ∷ ("concurrency", num (negsuc 0))
            ∷ ("xudpConcurrency", nat 8)
            ∷ ("xudpProxyUDP443", str "")
            ∷ []),
      )
      ∷ [])
