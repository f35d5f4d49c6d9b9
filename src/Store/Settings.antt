-- ===== src/Store/Settings.antt =====
-- The settings document of the store (daemon-go/internal/store/settings.go). The parsers of
-- net/netip and net/url, and the name of the operating system, are arguments.
pub mod Accepted
use iron_link.Prelude.{
  ℕ, String, Bool, true, false, not, ◌==◌, ◌||◌, ◌&&◌, leb, ltb, Option, none, some, List, [], ◌∷◌,
  is_empty, contains, if◌then◌else◌, Result, ok, err, ◌>>=◌, ◌>>◌, reject_if,
}
use iron_link.Json.{ℤ, pos, negsuc}
use iron_link.Api.Settings.{Settings, DnsServer}
use iron_link.Store.Files.{
  Os, Disk, Codec, FileError, when_missing, undecodable, bad_settings, settings_file, at, read_file,
  write_document, SettingsError, unknown_log_level, unknown_ip_version, unknown_dns_strategy,
  unknown_dns_type, no_dns_server, no_user_agent, bad_dns_address, bad_cidr, unknown_tun_stack,
  bad_probe_url, port_out_of_range, mtu_out_of_range, budget_out_of_range,
}

-- `netip.ParseAddr` and `netip.ParsePrefix` find no error; `url.Parse` gives a scheme and a host.
pub record Net : Type 0 where
  pub parses_addr : String → Bool
  pub parses_prefix : String → Bool
  pub parse_url : String → Option (String × String)

abbrev pub windows : String
windows = "windows"

unfoldable pub default_restore_on_start : String → Bool
default_restore_on_start goos = not (goos == windows)

unfoldable pub default_ip_version : String → String
default_ip_version goos = if goos == windows then "v4" else "both"

unfoldable pub default_settings : String → Settings
unfolding default_restore_on_start default_ip_version
default_settings goos = record {
  log_level = "info";
  ip_version = default_ip_version goos;
  dns = record {
    servers = (record { kind = "tls"; address = "8.8.8.8" }) ∷ [];
    strategy = "prefer_ipv4";
    via_tunnel = false;
  };
  lan_bypass = record { enabled = true; cidrs = "169.254.0.0/16" ∷ "fc00::/7" ∷ "fe80::/10" ∷ [] };
  restore_on_start = default_restore_on_start goos;
  subscription_user_agent = "v2rayN/6.23";
  socks_port = pos 10808;
  tun = record { mtu = pos 1500; stack = "mixed"; strict_route = true };
  latency_probe = record { url = "https://www.gstatic.com/generate_204"; budget_secs = pos 45 };
  auto_update = true;
  update_via_tunnel = true;
  update_via_direct = true;
}

abbrev pub log_levels : List String
log_levels = "error" ∷ "warn" ∷ "info" ∷ "debug" ∷ []

abbrev pub ip_versions : List String
ip_versions = "v4" ∷ "v6" ∷ "both" ∷ []

abbrev pub dns_strategies : List String
dns_strategies = "" ∷ "prefer_ipv4" ∷ "prefer_ipv6" ∷ "ipv4_only" ∷ "ipv6_only" ∷ []

abbrev pub dns_types : List String
dns_types = "udp" ∷ "tls" ∷ "https" ∷ []

abbrev pub tun_stacks : List String
tun_stacks = "system" ∷ "gvisor" ∷ "mixed" ∷ []

unfoldable pub one_of : String → List String → Bool
one_of v set = contains set v

-- `x < lo || x > hi`, for bounds that are not negative.
unfoldable pub out_of_range : ℕ → ℕ → ℤ → Bool
out_of_range lo hi (pos n) = ltb n lo || ltb hi n
out_of_range lo hi (negsuc n) = true

module _ (net : Net) where
  unfoldable pub check_servers : List DnsServer → Result SettingsError (Unit {0})
  unfolding one_of
  check_servers [] = ok tt
  check_servers (srv ∷ rest) = do
    reject_if (not (one_of srv.kind dns_types)) (unknown_dns_type srv.kind)
    reject_if (not (net.parses_addr srv.address)) (bad_dns_address srv.address)
    check_servers rest

  unfoldable pub check_cidrs : List String → Result SettingsError (Unit {0})
  check_cidrs [] = ok tt
  check_cidrs (cidr ∷ rest) = do
    reject_if (not (net.parses_prefix cidr)) (bad_cidr cidr)
    check_cidrs rest

  unfoldable pub is_http_url : String → Bool
  is_http_url url = elim (net.parse_url url) [
    | none ↦ false
    | some (scheme, host) ↦ (scheme == "http" || scheme == "https") && not (host == "")
  ]

  -- The checks from the user agent on.
  unfoldable pub check_tail : Settings → Result SettingsError (Unit {0})
  unfolding one_of out_of_range is_http_url
  check_tail s = do
    reject_if (s.subscription_user_agent == "") no_user_agent
    reject_if (out_of_range 1 65535 s.socks_port) (port_out_of_range s.socks_port)
    reject_if (out_of_range 576 65535 s.tun.mtu) (mtu_out_of_range s.tun.mtu)
    reject_if (not (one_of s.tun.stack tun_stacks)) (unknown_tun_stack s.tun.stack)
    reject_if (not (is_http_url s.latency_probe.url)) (bad_probe_url s.latency_probe.url)
    reject_if (out_of_range 5 300 s.latency_probe.budget_secs)
        (budget_out_of_range s.latency_probe.budget_secs)

  unfoldable pub validate_settings : Settings → Result SettingsError (Unit {0})
  unfolding one_of check_servers check_cidrs check_tail
  validate_settings s = do
    reject_if (not (one_of s.log_level log_levels)) (unknown_log_level s.log_level)
    reject_if (not (one_of s.ip_version ip_versions)) (unknown_ip_version s.ip_version)
    reject_if (not (one_of s.dns.strategy dns_strategies)) (unknown_dns_strategy s.dns.strategy)
    reject_if (is_empty s.dns.servers) no_dns_server
    check_servers s.dns.servers
    check_cidrs s.lan_bypass.cidrs
    check_tail s

  unfoldable pub checked_settings : Settings → Result FileError Settings
  unfolding validate_settings
  checked_settings s = elim (validate_settings s) [ err e ↦ err (bad_settings e) | ok _ ↦ ok s ]

  module _ {Raw : Type 0} (c : Codec Raw) (goos : String) where
    unfoldable pub load_settings : Os → Disk Raw → Result FileError Settings
    unfolding read_file when_missing checked_settings
    load_settings os d = elim (read_file os d settings_file) [
      | err e ↦ when_missing (default_settings goos) e
      | ok raw ↦
          at (undecodable settings_file) (c.decode_settings (default_settings goos) raw)
          >>= checked_settings
    ]

    unfoldable pub save_settings : Os → Settings → Disk Raw → Disk Raw × Result FileError (Unit {0})
    unfolding write_document checked_settings
    save_settings os s d = elim (checked_settings s) [
      | err e ↦ (d, err e)
      | ok _ ↦ write_document os settings_file (c.encode_settings s) d
    ]
