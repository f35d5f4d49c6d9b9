-- ===== src/Proxy.antt =====
-- The protocol model and the choice of a core (daemon-go/internal/proxy).
pub mod Stream
pub mod Profile
pub mod Capabilities
pub mod Outbound
pub mod Vless
pub mod Vmess
pub mod Trojan
pub mod Shadowsocks
pub mod Hysteria2
pub mod Hysteria
pub mod Tuic
pub mod AnyTls
pub mod Selection
mod Tests
