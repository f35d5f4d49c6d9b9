-- ===== src/Engine/Host.antt =====
-- What the compilers of the configs take from outside: the platform, the environment, Go's formatting
-- the resolver, and its encoding of JSON.
use iron_link.Prelude.{ℕ, String, Option, none, some, List, Result, ok, err}
use iron_link.Json.{JsonMap}

pub record Host : Type 0 where
  pub goos : String
  -- IRON_LINK_XRAY_LOGLEVEL, or "warning"
  pub xray_log_level : String
  -- "%d" and "%q" of fmt, and `time.Duration.String`
  pub show : ℕ → String
  pub quote : String → String
  pub show_duration : ℕ → String
  -- `bytes.TrimSpace`, and a raw value decoded as a JSON string
  pub trim : String → String
  pub text_of : String → Option String
  -- the addresses of a host as host-mask prefixes: `netip.ParseAddr`, else the system's resolver
  pub cidrs_of : String → List String
  -- the error of `json.Marshal`, if any
  pub marshal : JsonMap → Option String

-- The config of a map that is marshalled.
unfoldable pub encode : Host → JsonMap → Result String JsonMap
encode host m = elim (host.marshal m) [ none ↦ ok m | some e ↦ err e ]
