-- ===== src/Proxy/Profile.antt =====
-- The `Profile` interface (daemon-go/internal/proxy/profile.go): its implementations, and its methods
-- by cases on them.
use iron_link.Prelude.{ℕ, String, Bool, Option, none, some, ◌==◌, if◌then◌else◌, Result}
use iron_link.Json.{JsonMap}
use iron_link.Proxy.Stream.{Security, UnnativeTransportError}
use iron_link.Proxy.Capabilities.{CoreType}
use iron_link.Proxy.Vless
use iron_link.Proxy.Vless.{VlessConfig}
use iron_link.Proxy.Vmess
use iron_link.Proxy.Vmess.{VmessConfig}
use iron_link.Proxy.Trojan
use iron_link.Proxy.Trojan.{TrojanConfig}
use iron_link.Proxy.Shadowsocks
use iron_link.Proxy.Shadowsocks.{ShadowsocksConfig}
use iron_link.Proxy.Hysteria2
use iron_link.Proxy.Hysteria2.{Hysteria2Config}
use iron_link.Proxy.Hysteria
use iron_link.Proxy.Hysteria.{HysteriaConfig}
use iron_link.Proxy.Tuic
use iron_link.Proxy.Tuic.{TuicConfig}
use iron_link.Proxy.AnyTls
use iron_link.Proxy.AnyTls.{AnyTlsConfig}

-- The implementations of the `Profile` interface.
pub data Profile : Type 0 where
  vless : VlessConfig → Profile
  vmess : VmessConfig → Profile
  trojan : TrojanConfig → Profile
  shadowsocks : ShadowsocksConfig → Profile
  hysteria2 : Hysteria2Config → Profile
  hysteria : HysteriaConfig → Profile
  tuic : TuicConfig → Profile
  any_tls : AnyTlsConfig → Profile

unfoldable pub display_name : Profile → String
display_name (vless c) = c.server_name
display_name (vmess c) = c.server_name
display_name (trojan c) = c.server_name
display_name (shadowsocks c) = c.server_name
display_name (hysteria2 c) = c.server_name
display_name (hysteria c) = c.server_name
display_name (tuic c) = c.server_name
display_name (any_tls c) = c.server_name

unfoldable pub kind : Profile → String
kind (vless _) = "vless"
kind (vmess _) = "vmess"
kind (trojan _) = "trojan"
kind (shadowsocks _) = "shadowsocks"
kind (hysteria2 _) = "hysteria2"
kind (hysteria _) = "hysteria"
kind (tuic _) = "tuic"
kind (any_tls _) = "anytls"

unfoldable pub server_address : Profile → String
server_address (vless c) = c.address
server_address (vmess c) = c.address
server_address (trojan c) = c.address
server_address (shadowsocks c) = c.address
server_address (hysteria2 c) = c.address
server_address (hysteria c) = c.address
server_address (tuic c) = c.address
server_address (any_tls c) = c.address

unfoldable pub server_port : Profile → ℕ
server_port (vless c) = c.port
server_port (vmess c) = c.port
server_port (trojan c) = c.port
server_port (shadowsocks c) = c.port
server_port (hysteria2 c) = c.port
server_port (hysteria c) = c.port
server_port (tuic c) = c.port
server_port (any_tls c) = c.port

-- The credential; a Hysteria node without one falls back to its address.
unfoldable pub identity : Profile → String
identity (vless c) = c.uuid
identity (vmess c) = c.uuid
identity (trojan c) = c.password
identity (shadowsocks c) = c.password
identity (hysteria2 c) = c.password
identity (hysteria c) = if c.auth == "" then c.address else c.auth
identity (tuic c) = c.uuid
identity (any_tls c) = c.password

unfoldable pub transport_label : Profile → String
transport_label (vless c) = c.transport.kind
transport_label (vmess c) = c.transport.kind
transport_label (trojan c) = c.transport.kind
transport_label (shadowsocks _) = ""
transport_label (hysteria2 _) = "quic"
transport_label (hysteria _) = "quic"
transport_label (tuic _) = "quic"
transport_label (any_tls _) = ""

unfoldable pub security_label : Profile → String
security_label (vless c) = c.security.kind
security_label (vmess c) = c.security.kind
security_label (trojan c) = c.security.kind
security_label (shadowsocks _) = ""
security_label (hysteria2 _) = "tls"
security_label (hysteria _) = "tls"
security_label (tuic _) = "tls"
security_label (any_tls _) = "tls"

-- The type assertion to `streamSecurity`: only the stream protocols have it.
unfoldable pub stream_security : Profile → Option Security
stream_security (vless c) = some c.security
stream_security (vmess c) = some c.security
stream_security (trojan c) = some c.security
stream_security _ = none

unfoldable pub dialable_by : Profile → CoreType → Bool
dialable_by (vless c) core = Vless.dialable_by c core
dialable_by (vmess c) core = Vmess.dialable_by c core
dialable_by (trojan c) core = Trojan.dialable_by c core
dialable_by (shadowsocks c) core = Shadowsocks.dialable_by c core
dialable_by (hysteria2 c) core = Hysteria2.dialable_by c core
dialable_by (hysteria c) core = Hysteria.dialable_by c core
dialable_by (tuic c) core = Tuic.dialable_by c core
dialable_by (any_tls c) core = AnyTls.dialable_by c core

-- No implementation of `XrayOutbound` returns an error.
unfoldable pub sing_box_outbound : Profile → String → Result UnnativeTransportError JsonMap
sing_box_outbound (vless c) tag = Vless.sing_box_outbound c tag
sing_box_outbound (vmess c) tag = Vmess.sing_box_outbound c tag
sing_box_outbound (trojan c) tag = Trojan.sing_box_outbound c tag
sing_box_outbound (shadowsocks c) tag = Shadowsocks.sing_box_outbound c tag
sing_box_outbound (hysteria2 c) tag = Hysteria2.sing_box_outbound c tag
sing_box_outbound (hysteria c) tag = Hysteria.sing_box_outbound c tag
sing_box_outbound (tuic c) tag = Tuic.sing_box_outbound c tag
sing_box_outbound (any_tls c) tag = AnyTls.sing_box_outbound c tag

unfoldable pub xray_outbound : Profile → Option JsonMap
xray_outbound (vless c) = Vless.xray_outbound c
xray_outbound (vmess c) = Vmess.xray_outbound c
xray_outbound (trojan c) = Trojan.xray_outbound c
xray_outbound (shadowsocks c) = Shadowsocks.xray_outbound c
xray_outbound (hysteria2 c) = Hysteria2.xray_outbound c
xray_outbound (hysteria c) = Hysteria.xray_outbound c
xray_outbound (tuic c) = Tuic.xray_outbound c
xray_outbound (any_tls c) = AnyTls.xray_outbound c
