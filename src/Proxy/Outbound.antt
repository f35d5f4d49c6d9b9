-- ===== src/Proxy/Outbound.antt =====
-- What the protocols share when they emit outbound objects (daemon-go/internal/proxy).
use iron_link.Prelude.{
  String, Bool, true, none, some, [], if◌then◌else◌, Result, ok, ◌>>=◌, insert, eqb,
}
use iron_link.Json.{ℤ, pos, negsuc, Json, JsonMap, bool, num, object}
use iron_link.Proxy.Stream.{
  Security, Transport, UnnativeTransportError, sing_box_tls, sing_box_transport,
  apply_xray_security, apply_xray_transport,
}

-- The tail that VLESS, VMess and Trojan share: the tls block, then the transport block.
unfoldable pub with_stream : Security → Transport → JsonMap → Result UnnativeTransportError JsonMap
with_stream s t ob =
    let ob_tls : JsonMap = elim (sing_box_tls s) [
      | none ↦ ob
      | some b ↦ insert "tls" (object b) ob
    ] in
    do
      block ← sing_box_transport t
      ok (elim block [ none ↦ ob_tls | some b ↦ insert "transport" (object b) ob_tls ])

-- `if n != 0 { m[k] = n }`
abbrev pub put_int : String → ℤ → JsonMap → JsonMap
put_int k (pos n) m = if eqb n 0 then m else insert k (num (pos n)) m
put_int k (negsuc n) m = insert k (num (negsuc n)) m

-- `if b { m[k] = true }`
abbrev pub put_flag : String → Bool → JsonMap → JsonMap
put_flag k b m = if b then insert k (bool true) m else m

abbrev pub xray_stream : Security → Transport → Json
xray_stream s t = object (apply_xray_transport t (apply_xray_security s []))
