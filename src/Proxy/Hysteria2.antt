-- ===== src/Proxy/Hysteria2.antt =====
-- Hysteria2 nodes (daemon-go/internal/proxy/hysteria2.go).
use iron_link.Prelude.{
  ℕ, String, Bool, true, false, not, ◌||◌, Option, none, some, [], ◌∷◌, ◌==◌, if◌then◌else◌, Result,
  ok, insert,
}
use iron_link.Json.{JsonMap, bool, str, object, array, nat}
use iron_link.Proxy.Stream.{UnnativeTransportError, put_text}
use iron_link.Proxy.Capabilities.{CoreType, core_xray, core_sing_box}

pub record Hysteria2Config : Type 0 where
  pub server_name : String
  pub address : String
  pub port : ℕ
  pub password : String
  pub sni : String
  pub insecure : Bool
  pub obfs : String
  pub obfs_password : String
  pub pin_sha256 : String

-- `dialableBy`
abbrev pub dialable_by : Hysteria2Config → CoreType → Bool
dialable_by c core =
    if core == core_sing_box
    then true
    else if core == core_xray
    then not c.insecure || not (c.pin_sha256 == "")
    else false

-- `SingBoxOutbound`
abbrev pub sing_box_outbound : Hysteria2Config → String → Result UnnativeTransportError JsonMap
sing_box_outbound c tag =
    let tls =
      put_text "server_name" c.sni (
        ("enabled", bool true)
        ∷ ("insecure", bool (c.insecure || not (c.pin_sha256 == "")))
        ∷ []) in
    let ob : JsonMap =
      ("type", str "hysteria2")
      ∷ ("tag", str tag)
      ∷ ("server", str c.address)
      ∷ ("server_port", nat c.port)
      ∷ ("password", str c.password)
      ∷ ("tls", object tls)
      ∷ [] in
    ok (
      if c.obfs == ""
      then ob
      else insert "obfs" (object (("type", str c.obfs) ∷ ("password", str c.obfs_password) ∷ []))
          ob)

-- `XrayOutbound`; `none` is ok=false.
abbrev pub xray_outbound : Hysteria2Config → Option JsonMap
xray_outbound c =
    let server_name = if c.sni == "" then c.address else c.sni in
    let tls = put_text "pinnedPeerCertSha256" c.pin_sha256 (("serverName", str server_name) ∷ []) in
    let stream : JsonMap =
      ("network", str "hysteria")
      ∷ ("security", str "tls")
      ∷ ("tlsSettings", object tls)
      ∷ ("hysteriaSettings", object (("version", nat 2) ∷ ("auth", str c.password) ∷ []))
      ∷ [] in
    let mask =
      object (
        ("type", str c.obfs)
        ∷ ("settings", object (("password", str c.obfs_password) ∷ []))
        ∷ []) in
    let masked =
      if c.obfs == ""
      then stream
      else insert "finalmask" (object (("udp", array (mask ∷ [])) ∷ [])) stream in
    if not (dialable_by c core_xray)
    then none
    else some (
        ("protocol", str "hysteria")
        ∷ (
          "settings",
          object (("address", str c.address) ∷ ("port", nat c.port) ∷ ("version", nat 2) ∷ []),
        )
        ∷ ("streamSettings", object masked)
        ∷ [])
