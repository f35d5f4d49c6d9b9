-- ===== src/Engine/Tunables.antt =====
-- The engine-relevant settings (daemon-go/internal/engine/tunables.go). `show` is the decimal text
-- that `fmt.Sprintf("%d")` gives, an argument.
use iron_link.Prelude.{
  ℕ, zero, suc, String, Bool, true, false, ◌||◌, Option, none, some, List, [], ◌∷◌, ◌==◌,
  if◌then◌else◌,
}
use Prim.Native.String
use iron_link.Json.{ℤ, pos}

pub record DnsUpstream : Type 0 where
  pub kind : String
  pub address : String

pub record Tunables : Type 0 where
  pub log_level : String
  pub ip_version : String
  pub dns_strategy : String
  pub dns : List DnsUpstream
  pub dns_via_tunnel : Bool
  pub lan_bypass : List String
  pub tun_mtu : ℤ
  pub tun_stack : String
  pub strict_route : Bool

abbrev pub default_tunables : Tunables
default_tunables = record {
  log_level = "info";
  ip_version = "both";
  dns_strategy = "prefer_ipv4";
  dns = (record { kind = "tls"; address = "8.8.8.8" }) ∷ [];
  dns_via_tunnel = false;
  lan_bypass = "169.254.0.0/16" ∷ "fc00::/7" ∷ "fe80::/10" ∷ [];
  tun_mtu = pos 1500;
  tun_stack = "mixed";
  strict_route = true;
}

unfoldable pub dns_strategy : String → String → String
dns_strategy strategy ip_version =
    if ip_version == "v4"
    then "ipv4_only"
    else if ip_version == "v6"
    then "ipv6_only"
    else if strategy == "prefer_ipv4"
        || strategy == "prefer_ipv6"
        || strategy == "ipv4_only"
        || strategy == "ipv6_only"
    then strategy
    else "prefer_ipv4"

unfoldable pub tun_addresses : String → List String
tun_addresses ip_version =
    if ip_version == "v4"
    then "172.18.0.1/30" ∷ []
    else if ip_version == "v6"
    then "fdfe:dcba:9876::1/126" ∷ []
    else "172.18.0.1/30" ∷ "fdfe:dcba:9876::1/126" ∷ []

unfoldable pub dns_tag : (ℕ → String) → ℕ → String
dns_tag show zero = "dns-primary"
dns_tag show (suc i) = String.◌++◌ "dns-" (show (suc i))

-- `SessionPlan.tunables`
abbrev pub effective_tunables : Option Tunables → Tunables
effective_tunables none = default_tunables
effective_tunables (some t) = t
