-- ===== src/Api/Reply.antt =====
-- Replies and events (daemon-go/internal/api/protocol.go, daemon-go/internal/api/types.go): the
-- variants that the modelled handlers send.
use iron_link.Prelude.{ℕ, String, Bool, Option, List}
use iron_link.Proxy.Capabilities.{CoreType}

pub data CoreRole : Type 0 where
  role_proxy role_tun role_dpi : CoreRole

pub data CoreState : Type 0 where
  state_running state_stopped : CoreState

pub record CoreEntry : Type 0 where
  pub role : CoreRole
  pub state : CoreState
  pub uptime_secs : ℕ

pub record PersistedEntry : Type 0 where
  pub profile : Option String
  pub node : Option String
  pub node_id : Option String
  pub routing : Option String
  pub tun : Bool

pub record RoutingInfo : Type 0 where
  pub id : String
  pub name : String
  pub rules : ℕ
  pub rule_sets : ℕ
  pub active : Bool

pub record NodeInfo : Type 0 where
  pub id : String
  pub name : String
  pub sub_id : Option String
  pub core_override : Option CoreType
  pub protocol : String
  pub transport : String
  pub security : String
  pub port : ℕ
  pub active : Bool
  pub eligible_cores : List CoreType
  pub kind : String
  pub members : List String

pub record SubscriptionInfo : Type 0 where
  pub id : String
  pub name : String
  pub url : String
  pub enabled : Bool
  pub allow_invalid_certs : Bool
  pub last_updated : Option ℕ
  pub node_count : ℕ
  pub format : String
  pub update_interval_sec : ℕ
  pub last_error : String

pub record RefreshInfo : Type 0 where
  pub name : String
  pub count : ℕ
  pub added : ℕ
  pub removed : ℕ
  pub skipped : Bool
  pub error : String
  pub format : String
  pub entries : ℕ
  pub duplicates : ℕ
  pub unrecognized : ℕ
