-- ===== src/Proxy/Shadowsocks.antt =====
-- Shadowsocks nodes (daemon-go/internal/proxy/shadowsocks.go).
use iron_link.Prelude.{
  ℕ, String, Bool, true, false, not, Option, none, some, [], ◌∷◌, ◌==◌, if◌then◌else◌, Result, ok,
  insert,
}
use iron_link.Json.{JsonMap, str, object, array, nat}
use iron_link.Proxy.Stream.{UnnativeTransportError}
use iron_link.Proxy.Capabilities.{CoreType, core_xray, core_sing_box}

pub record ShadowsocksConfig : Type 0 where
  pub server_name : String
  pub address : String
  pub port : ℕ
  pub method : String
  pub password : String
  pub plugin : String
  pub plugin_opts : String

-- `dialableBy`
abbrev pub dialable_by : ShadowsocksConfig → CoreType → Bool
dialable_by c core =
    if core == core_sing_box then true else if core == core_xray then c.plugin == "" else false

-- `SingBoxOutbound`
abbrev pub sing_box_outbound : ShadowsocksConfig → String → Result UnnativeTransportError JsonMap
sing_box_outbound c tag =
    let ob : JsonMap =
      ("type", str "shadowsocks")
      ∷ ("tag", str tag)
      ∷ ("server", str c.address)
      ∷ ("server_port", nat c.port)
      ∷ ("method", str c.method)
      ∷ ("password", str c.password)
      ∷ [] in
    ok (
      if c.plugin == ""
      then ob
      else insert "plugin_opts" (str c.plugin_opts) (insert "plugin" (str c.plugin) ob))

-- `XrayOutbound`; `none` is ok=false.
abbrev pub xray_outbound : ShadowsocksConfig → Option JsonMap
xray_outbound c =
    if not (c.plugin == "")
    then none
    else some (
        ("protocol", str "shadowsocks")
        ∷ (
          "settings",
          object (
              (
                "servers",
                array (
                    object (
                      ("address", str c.address)
                      ∷ ("port", nat c.port)
                      ∷ ("method", str c.method)
                      ∷ ("password", str c.password)
                      ∷ [])
                    ∷ []),
              )
              ∷ []),
        )
        ∷ ("streamSettings", object (("network", str "tcp") ∷ []))
        ∷ [])
