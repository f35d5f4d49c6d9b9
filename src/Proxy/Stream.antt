-- ===== src/Proxy/Stream.antt =====
-- The stream model shared by VLESS, VMess and Trojan: the transport and security unions and what
-- they emit for the two cores (daemon-go/internal/proxy/stream.go). A string kind stays a text, so
-- that a value no constant names is modelled too; a nil payload is `none`.
use iron_link.Prelude.{
  String, true, false, Option, none, some, [], ◌∷◌, ◌==◌, if◌then◌else◌, insert, Result, ok, err,
}
use iron_link.Json.{JsonMap, bool, str, raw, object}

abbrev pub SecurityKind : Type 0
SecurityKind = String

abbrev pub security_none : SecurityKind
security_none = "none"

abbrev pub security_tls : SecurityKind
security_tls = "tls"

abbrev pub security_reality : SecurityKind
security_reality = "reality"

abbrev pub TransportKind : Type 0
TransportKind = String

abbrev pub transport_tcp : TransportKind
transport_tcp = "tcp"

abbrev pub transport_ws : TransportKind
transport_ws = "ws"

abbrev pub transport_grpc : TransportKind
transport_grpc = "grpc"

abbrev pub transport_xhttp : TransportKind
transport_xhttp = "xhttp"

pub record TlsParams : Type 0 where
  pub sni : String
  pub fp : String

pub record RealityParams : Type 0 where
  pub sni : String
  pub fp : String
  pub pbk : String
  pub sid : String

pub record Security : Type 0 where
  pub kind : SecurityKind
  pub tls : Option TlsParams
  pub reality : Option RealityParams

pub record WsParams : Type 0 where
  pub path : String
  pub host : String

pub record GrpcParams : Type 0 where
  pub service_name : String

-- `extra` is raw JSON, "" when absent.
pub record XhttpParams : Type 0 where
  pub path : String
  pub host : String
  pub mode : String
  pub extra : String

pub record Transport : Type 0 where
  pub kind : TransportKind
  pub ws : Option WsParams
  pub grpc : Option GrpcParams
  pub xhttp : Option XhttpParams

-- `Security.SNI`
unfoldable pub sni : Security → String
sni s =
    if s.kind == security_reality
    then (elim s.reality [ none ↦ "" | some r ↦ r.sni ])
    else if s.kind == security_tls
    then (elim s.tls [ none ↦ "" | some t ↦ t.sni ])
    else ""

-- `if v != "" { m[k] = v }`
abbrev pub put_text : String → String → JsonMap → JsonMap
put_text k v m = if v == "" then m else insert k (str v) m

tls_block : TlsParams → JsonMap
tls_block tp =
    let m = put_text "server_name" tp.sni (("enabled", bool true) ∷ []) in
    if tp.fp == ""
    then m
    else insert "utls" (object (("enabled", bool true) ∷ ("fingerprint", str tp.fp) ∷ [])) m

reality_block : RealityParams → JsonMap
reality_block r =
    ("enabled", bool true)
    ∷ ("server_name", str r.sni)
    ∷ ("utls", object (("enabled", bool true) ∷ ("fingerprint", str r.fp) ∷ []))
    ∷ (
      "reality",
      object (("enabled", bool true) ∷ ("public_key", str r.pbk) ∷ ("short_id", str r.sid) ∷ []),
    )
    ∷ []

-- `singBoxTLS`: `none` is ok=false.
unfoldable pub sing_box_tls : Security → Option JsonMap
unfolding tls_block reality_block
sing_box_tls s =
    if s.kind == security_reality
    then (elim s.reality [ none ↦ none | some r ↦ some (reality_block r) ])
    else if s.kind == security_tls
    then (elim s.tls [
      | none ↦ some (tls_block (record { sni = ""; fp = "" }))
      | some tp ↦ some (tls_block tp)
    ])
    else none

pub record UnnativeTransportError : Type 0 where
  pub kind : TransportKind

ws_block : WsParams → JsonMap
ws_block w =
    let m = put_text "path" w.path (("type", str "ws") ∷ []) in
    if w.host == "" then m else insert "headers" (object (("Host", str w.host) ∷ [])) m

grpc_block : GrpcParams → JsonMap
grpc_block g = put_text "service_name" g.service_name (("type", str "grpc") ∷ [])

-- `singBoxTransport`: `ok none` is ok=false with no error.
unfoldable pub sing_box_transport : Transport → Result UnnativeTransportError (Option JsonMap)
unfolding ws_block grpc_block
sing_box_transport t =
    if t.kind == transport_tcp
    then ok none
    else if t.kind == transport_ws
    then ok (some (ws_block (elim t.ws [ none ↦ record { path = ""; host = "" } | some w ↦ w ])))
    else if t.kind == transport_grpc
    then ok (some (grpc_block (elim t.grpc [ none ↦ record { service_name = "" } | some g ↦ g ])))
    else err (record { kind = t.kind })

reality_settings : RealityParams → JsonMap
reality_settings r =
    ("serverName", str r.sni)
    ∷ ("fingerprint", str r.fp)
    ∷ ("publicKey", str r.pbk)
    ∷ ("shortId", str r.sid)
    ∷ ("show", bool false)
    ∷ ("spiderX", str "")
    ∷ []

tls_settings : TlsParams → JsonMap
tls_settings tp =
    put_text "fingerprint" tp.fp (put_text "serverName" tp.sni (("allowInsecure", bool false) ∷ []))

-- `applyXraySecurity`
unfoldable pub apply_xray_security : Security → JsonMap → JsonMap
unfolding reality_settings tls_settings
apply_xray_security s stream =
    if s.kind == security_reality
    then (elim s.reality [
      | none ↦ insert "security" (str "none") stream
      | some r ↦
          insert "realitySettings" (object (reality_settings r))
            (insert "security" (str "reality") stream)
    ])
    else if s.kind == security_tls
    then insert "tlsSettings"
        (object (tls_settings (elim s.tls [ none ↦ record { sni = ""; fp = "" } | some t ↦ t ])))
        (insert "security" (str "tls") stream)
    else insert "security" (str "none") stream

xhttp_settings : XhttpParams → JsonMap
xhttp_settings x =
    let mode = if x.mode == "" then "auto" else x.mode in
    let m : JsonMap = ("path", str x.path) ∷ ("host", str x.host) ∷ ("mode", str mode) ∷ [] in
    if x.extra == "" then m else insert "extra" (raw x.extra) m

ws_settings : WsParams → JsonMap
ws_settings w = ("path", str w.path) ∷ ("headers", object (("Host", str w.host) ∷ [])) ∷ []

-- `applyXrayTransport`
unfoldable pub apply_xray_transport : Transport → JsonMap → JsonMap
unfolding xhttp_settings ws_settings
apply_xray_transport t stream =
    if t.kind == transport_xhttp
    then insert "xhttpSettings"
        (object (
          xhttp_settings (elim t.xhttp [
            | none ↦ record { path = ""; host = ""; mode = ""; extra = "" }
            | some x ↦ x
          ])))
        (insert "network" (str "xhttp") stream)
    else if t.kind == transport_ws
    then insert "wsSettings"
        (object (ws_settings (elim t.ws [ none ↦ record { path = ""; host = "" } | some w ↦ w ])))
        (insert "network" (str "ws") stream)
    else if t.kind == transport_grpc
    then insert "grpcSettings"
        (object (("serviceName", str (elim t.grpc [ none ↦ "" | some g ↦ g.service_name ])) ∷ []))
        (insert "network" (str "grpc") stream)
    else insert "network" (str "tcp") stream
