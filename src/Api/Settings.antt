-- ===== src/Api/Settings.antt =====
-- The settings document (daemon-go/internal/api/settings.go).
use iron_link.Prelude.{String, Bool, List}
use iron_link.Json.{ℤ}

pub record DnsServer : Type 0 where
  pub kind : String
  pub address : String

pub record DnsSettings : Type 0 where
  pub servers : List DnsServer
  pub strategy : String
  pub via_tunnel : Bool

pub record LanBypass : Type 0 where
  pub enabled : Bool
  pub cidrs : List String

pub record TunSettings : Type 0 where
  pub mtu : ℤ
  pub stack : String
  pub strict_route : Bool

pub record ProbeSettings : Type 0 where
  pub url : String
  pub budget_secs : ℤ

pub record Settings : Type 0 where
  pub log_level : String
  pub ip_version : String
  pub dns : DnsSettings
  pub lan_bypass : LanBypass
  pub restore_on_start : Bool
  pub subscription_user_agent : String
  pub socks_port : ℤ
  pub tun : TunSettings
  pub latency_probe : ProbeSettings
  pub auto_update : Bool
  pub update_via_tunnel : Bool
  pub update_via_direct : Bool
