-- ===== src/Api/Request.antt =====
-- Requests (daemon-go/internal/api/protocol.go). A raw JSON payload is of the type `Raw`; the tag is
-- the handler's name, since `Handle` only picks the handler by it.
use iron_link.Prelude.{ℕ, String, Bool, false, Option, none, List}
use iron_link.Proxy.Capabilities.{CoreType}
use iron_link.Api.Settings.{Settings}

pub record Request (Raw : Type 0) : Type 0 where
  pub profile : Option String
  pub routing : Option String
  pub tun : Option Bool
  pub routing_config : Option Raw
  pub node : Option String
  pub role : Option String
  pub nodes : Option (List String)
  pub url : Option String
  pub name : Option String
  pub allow_invalid_certs : Option Bool
  pub format : Option String
  pub sub : Option String
  pub enabled : Option Bool
  pub update_interval_sec : Option ℕ
  pub core_override : Option CoreType
  pub settings : Option Settings
  pub group : Option Raw
  pub force : Bool

-- A request with no field set.
abbrev pub empty_request : {Raw : Type 0} → Request Raw
empty_request = record {
  profile = none;
  routing = none;
  tun = none;
  routing_config = none;
  node = none;
  role = none;
  nodes = none;
  url = none;
  name = none;
  allow_invalid_certs = none;
  format = none;
  sub = none;
  enabled = none;
  update_interval_sec = none;
  core_override = none;
  settings = none;
  group = none;
  force = false;
}
