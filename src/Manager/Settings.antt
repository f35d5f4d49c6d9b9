-- ===== src/Manager/Settings.antt =====
-- The settings verbs (daemon-go/cmd/iron-link-daemon/manager_settings.go): what of a document the
-- engine sees, and which changes need a new activation.
pub mod Relevant
use iron_link.Prelude.{
  ℕ, String, Bool, true, false, not, ◌==◌, ◌&&◌, eqb, List, [], ◌∷◌, map, if◌then◌else◌, Result, ok,
  err,
}
use iron_link.Json.{ℤ, pos, negsuc}
use iron_link.Api.Settings.{Settings, DnsServer, ProbeSettings}
use iron_link.Store.Files.{Os, Disk, Codec, FileError}
use iron_link.Store.Settings.{Net, load_settings, save_settings}
use iron_link.Engine.Tunables.{Tunables, DnsUpstream}

unfoldable pub upstream : DnsServer → DnsUpstream
upstream s = record { kind = s.kind; address = s.address }

unfoldable pub tunables_from_settings : Settings → Tunables
unfolding upstream
tunables_from_settings s = record {
  log_level = s.log_level;
  ip_version = s.ip_version;
  dns_strategy = s.dns.strategy;
  dns = map upstream s.dns.servers;
  dns_via_tunnel = s.dns.via_tunnel;
  lan_bypass = if s.lan_bypass.enabled then s.lan_bypass.cidrs else [];
  tun_mtu = s.tun.mtu;
  tun_stack = s.tun.stack;
  strict_route = s.tun.strict_route;
}

-- The fields that apply live, neutralized.
unfoldable pub neutral : Settings → Settings
neutral s = record s {
  restore_on_start = false;
  subscription_user_agent = "";
  latency_probe = record { url = ""; budget_secs = pos 0 };
  auto_update = false;
  update_via_tunnel = false;
  update_via_direct = false;
}

abbrev same_bool : Bool → Bool → Bool
same_bool true b = b
same_bool false b = not b

abbrev same_int : ℤ → ℤ → Bool
same_int (pos a) (pos b) = eqb a b
same_int (negsuc a) (negsuc b) = eqb a b
same_int _ _ = false

abbrev same_texts : List String → List String → Bool
same_texts [] [] = true
same_texts (a ∷ as') (b ∷ bs) = a == b && same_texts as' bs
same_texts _ _ = false

abbrev same_servers : List DnsServer → List DnsServer → Bool
same_servers [] [] = true
same_servers (a ∷ xs) (b ∷ ys) = a.kind == b.kind && a.address == b.address && same_servers xs ys
same_servers _ _ = false

-- `reflect.DeepEqual`, field by field in two groups.
unfoldable pub same_engine : Settings → Settings → Bool
same_engine a b =
    a.log_level == b.log_level
    && a.ip_version == b.ip_version
    && same_servers a.dns.servers b.dns.servers
    && a.dns.strategy == b.dns.strategy
    && same_bool a.dns.via_tunnel b.dns.via_tunnel
    && same_bool a.lan_bypass.enabled b.lan_bypass.enabled
    && same_texts a.lan_bypass.cidrs b.lan_bypass.cidrs
    && same_int a.socks_port b.socks_port
    && same_int a.tun.mtu b.tun.mtu
    && a.tun.stack == b.tun.stack
    && same_bool a.tun.strict_route b.tun.strict_route

unfoldable pub same_live : Settings → Settings → Bool
same_live a b =
    same_bool a.restore_on_start b.restore_on_start
    && a.subscription_user_agent == b.subscription_user_agent
    && a.latency_probe.url == b.latency_probe.url
    && same_int a.latency_probe.budget_secs b.latency_probe.budget_secs
    && same_bool a.auto_update b.auto_update
    && same_bool a.update_via_tunnel b.update_via_tunnel
    && same_bool a.update_via_direct b.update_via_direct

unfoldable pub deep_equal : Settings → Settings → Bool
unfolding same_engine same_live
deep_equal a b = same_engine a b && same_live a b

unfoldable pub engine_relevant_changed : Settings → Settings → Bool
unfolding neutral deep_equal
engine_relevant_changed a b = not (deep_equal (neutral a) (neutral b))

module _ {Raw : Type 0} (net : Net) (c : Codec Raw) (goos : String) where
  unfoldable pub subscription_ua : Os → Disk Raw → String
  subscription_ua os d = elim (load_settings net c goos os d) [
    | ok s ↦ s.subscription_user_agent
    | err _ ↦ ""
  ]

  -- The document stored, and whether a running session misses the change.
  unfoldable pub set_settings :
      Os → Bool → Settings → Disk Raw → Disk Raw × Result FileError (Settings × Bool)
  unfolding engine_relevant_changed
  set_settings os running s d = elim (load_settings net c goos os d) [
    | err e ↦ (d, err e)
    | ok old ↦
        let (d', saved) = save_settings net c goos os s d in
        elim saved [
          | err e ↦ (d', err e)
          | ok _ ↦ (d', ok (s, running && engine_relevant_changed old s))
        ]
  ]
