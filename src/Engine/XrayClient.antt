-- ===== src/Engine/XrayClient.antt =====
-- The xray side of a session (`compileXrayClientNodes` of daemon-go/internal/engine/compile.go and
-- `xrayConfig` of daemon-go/internal/engine/plan.go).
pub mod Dispatch
use Prim.Native.String
use iron_link.Prelude.{
  String, Bool, false, ◌==◌, Option, none, some, List, [], ◌∷◌, ◌++◌, map, is_empty, lookup, insert,
  if◌then◌else◌, Result, ok, err, ◌>>=◌,
}
use iron_link.Json.{
  Json, Fields, obj, end, field, raw, str, bool, nat, strings, object, array, JsonMap,
}
use iron_link.Proxy.Profile.{xray_outbound, kind}
use iron_link.Engine.Plan.{NamedNode}
use iron_link.Engine.Host.{Host, encode}

pub data XrayError : Type 0 where
  needs_a_node : XrayError
  cannot_dial : String → XrayError
  -- a method call on a nil profile
  nil_profile : XrayError
  unencodable : String → XrayError

abbrev pub at_encoding {ℓ} : {A : Type ℓ} → Result String A → Result XrayError A
at_encoding (ok a) = ok a
at_encoding (err e) = err (unencodable e)

abbrev pub output_mark : Json
output_mark = nat 8228

-- `m[k] = v` in a nested map.
unfoldable pub put_field : String → Json → Fields → Fields
put_field k v end = field k v end
put_field k v (field j w rest) = if j == k then field k v rest else field j w (put_field k v rest)

-- The value as a map, a fresh one if it is none.
unfoldable pub as_map : Option Json → Fields
as_map (some (obj fields)) = fields
as_map _ = end

abbrev pub sockopt : Json
sockopt = object (("mark", output_mark) ∷ ("domainStrategy", str "UseIP") ∷ [])

-- The outbound of a node under its tag, with the socket options in its stream settings.
unfoldable pub tagged_outbound : String → JsonMap → JsonMap
unfolding put_field as_map
tagged_outbound tag ob =
    let tagged = insert "tag" (str tag) ob in
    insert "streamSettings"
      (obj (put_field "sockopt" sockopt (as_map (lookup "streamSettings" tagged)))) tagged

unfoldable pub dispatch_rule : String → JsonMap
dispatch_rule tag = ("inboundTag", strings (tag ∷ [])) ∷ ("outboundTag", str tag) ∷ []

unfoldable pub xray_outbounds : List NamedNode → Result XrayError (List JsonMap)
unfolding tagged_outbound
xray_outbounds [] = ok []
xray_outbounds (n ∷ ns) = elim n.profile [
  | none ↦ err nil_profile
  | some p ↦ (elim (xray_outbound p) [
    | none ↦ err (cannot_dial (kind p))
    | some ob ↦ xray_outbounds ns >>= λ rest. ok (tagged_outbound n.id ob ∷ rest)
  ])
]

-- The marked freedom outbound of xray's own DNS.
abbrev pub direct_outbound : JsonMap
direct_outbound =
    ("tag", str "direct")
    ∷ ("protocol", str "freedom")
    ∷ ("settings", object (("targetStrategy", str "UseIP") ∷ []))
    ∷ ("streamSettings", object (("sockopt", object (("mark", output_mark) ∷ [])) ∷ []))
    ∷ []

-- The rules: that of xray's own DNS first.
unfoldable pub xray_rules : List NamedNode → List JsonMap
unfolding dispatch_rule
xray_rules ns =
    (("inboundTag", strings ("dns-internal" ∷ [])) ∷ ("outboundTag", str "direct") ∷ [])
    ∷ map (λ n. dispatch_rule n.id) ns

abbrev objects : List JsonMap → Json
objects ms = array (map (λ m. object m) ms)

-- The config around its outbounds and rules.
unfoldable pub xray_document : String → String → List JsonMap → List JsonMap → JsonMap
xray_document level listen outbounds rules =
    ("log", object (("loglevel", str level) ∷ []))
    ∷ (
      "dns",
      object (
          ("queryStrategy", str "UseIPv4")
          ∷ ("servers", strings ("1.1.1.1" ∷ "8.8.8.8" ∷ []))
          ∷ ("tag", str "dns-internal")
          ∷ []),
    )
    ∷ (
      "inbounds",
      array (
          object (
            ("listen", str listen)
            ∷ ("protocol", str "socks")
            ∷ ("settings", object (("udp", bool false) ∷ []))
            ∷ [])
          ∷ []),
    )
    ∷ ("outbounds", objects outbounds)
    ∷ ("routing", object (("domainStrategy", str "AsIs") ∷ ("rules", objects rules) ∷ []))
    ∷ []

unfoldable pub compile_xray_client_nodes : Host → List NamedNode → String → Result XrayError JsonMap
unfolding xray_outbounds xray_rules xray_document encode
compile_xray_client_nodes host nodes listen =
    let compiled = xray_outbounds nodes >>= λ outbounds. at_encoding (
      encode host (
        xray_document host.xray_log_level listen (outbounds ++ direct_outbound ∷ [])
          (xray_rules nodes))) in
    if is_empty nodes then err needs_a_node else compiled

-- The inert instance of a session without xray nodes: the text that the source formats, less its
-- line breaks and indentation.
unfoldable pub stub_config : Host → String → Json
stub_config host listen = raw (
    String.◌++◌ "{\"log\": {\"loglevel\":\"warning\"},\"inbounds\": [{\"listen\":" (
      String.◌++◌ (host.quote listen) (
        String.◌++◌
          ",\"protocol\":\"socks\",\"settings\":{\"udp\":false}}],\"outbounds\": [{\"protocol\":\"freedom\",\"tag\":\"direct\",\"streamSettings\":{\"sockopt\":{\"mark\":"
          (String.◌++◌ (host.show 8228) "}}}]}"))))

unfoldable pub xray_config : Host → List NamedNode → String → Result XrayError Json
unfolding compile_xray_client_nodes stub_config
xray_config host nodes listen =
    let compiled = compile_xray_client_nodes host nodes listen >>= λ m. ok (object m) in
    if is_empty nodes then ok (stub_config host listen) else compiled
