-- ===== src/Store/Profile.antt =====
-- The `Profile` model and its read accessors (daemon-go/internal/store/profile.go). A pointer that
-- may be nil is an option; a time is the nanoseconds since Go's zero time; `uuid.New` and
-- `time.Now` are arguments. A Go method that returns a pointer into the profile returns the value.
use iron_link.Prelude.{
  ℕ, String, Bool, true, false, not, ◌&&◌, ◌||◌, Option, none, some, List, [], ◌∷◌, map, ◌==◌, eqb,
  if◌then◌else◌, find, is_some,
}
use iron_link.Proxy.Profile as Proxy
use iron_link.Proxy.Capabilities.{CoreType}
use iron_link.Routing
use iron_link.Routing.{new_default}

abbrev pub schema_version : ℕ
schema_version = 3

abbrev pub default_update_interval_sec : ℕ
default_update_interval_sec = 28800

abbrev pub min_update_interval_sec : ℕ
min_update_interval_sec = 600

abbrev pub legacy_update_interval_sec : ℕ
legacy_update_interval_sec = 86400

pub record Subscription : Type 0 where
  pub id : String
  pub name : String
  pub url : String
  pub last_updated : ℕ
  pub update_interval_sec : ℕ
  pub enabled : Bool
  pub allow_invalid_certs : Bool
  pub format : String
  pub last_error : String

pub record GroupProbe : Type 0 where
  pub url : String
  pub interval_sec : ℕ
  pub tolerance : ℕ

pub record GroupSpec : Type 0 where
  pub name : String
  pub members : List String
  pub all_of_sub : Option String
  pub probe : GroupProbe

pub record NodePrefs : Type 0 where
  pub core_override : Option CoreType

pub record Node : Type 0 where
  pub id : String
  pub sub_id : Option String
  pub doc : Option Proxy.Profile
  pub group : Option GroupSpec
  pub preferences : NodePrefs

pub record Profile : Type 0 where
  pub schema_version : ℕ
  pub name : String
  pub active_node_id : Option String
  pub subscriptions : List Subscription
  pub nodes : List Node
  pub routing_configs : List Routing.Config
  pub active_routing_id : Option String

unfoldable pub new_profile : String → String → Profile
new_profile name fresh = record {
  schema_version = schema_version;
  name = name;
  active_node_id = none;
  subscriptions = [];
  nodes = [];
  routing_configs = new_default fresh ∷ [];
  active_routing_id = some fresh;
}

-- A nil slice and an empty one are one list here, so only the version is left to stamp.
unfoldable pub normalize : Profile → Profile
normalize p = record p { schema_version = schema_version }

unfoldable pub new_subscription : String → String → String → ℕ → Subscription
new_subscription url name fresh now = record {
  id = fresh;
  name = name;
  url = url;
  last_updated = now;
  update_interval_sec = default_update_interval_sec;
  enabled = true;
  allow_invalid_certs = false;
  format = "auto";
  last_error = "";
}

migrate_interval : Subscription → Subscription
migrate_interval s =
    if eqb s.update_interval_sec 0 || eqb s.update_interval_sec legacy_update_interval_sec
    then record s { update_interval_sec = default_update_interval_sec }
    else s

unfoldable pub migrate_subscription_intervals : Profile → Profile
unfolding migrate_interval
migrate_subscription_intervals p = record p { subscriptions = map migrate_interval p.subscriptions }

unfoldable pub new_node : Proxy.Profile → Option String → String → Node
new_node p sub_id fresh = record {
  id = fresh;
  sub_id = sub_id;
  doc = some p;
  group = none;
  preferences = record { core_override = none };
}

unfoldable pub new_group_node : GroupSpec → Option String → String → Node
new_group_node g sub_id fresh = record {
  id = fresh;
  sub_id = sub_id;
  doc = none;
  group = some g;
  preferences = record { core_override = none };
}

abbrev pub is_group : Node → Bool
is_group n = is_some n.group

unfoldable pub display_name : Node → String
display_name n = elim n.group [
  | some g ↦ g.name
  | none ↦ (elim n.doc [ none ↦ "" | some p ↦ Proxy.display_name p ])
]

-- The two passes: dialable nodes first, groups second.
unfoldable pub find_node_by_name : Profile → String → Option Node
find_node_by_name p name =
    let group_pass = find (λ n. is_group n && display_name n == name) p.nodes in
    elim (find (λ n. not (is_group n) && display_name n == name) p.nodes) [
      | some n ↦ some n
      | none ↦ group_pass
    ]

unfoldable pub find_node_by_id : Profile → String → Option Node
find_node_by_id p id = find (λ n. n.id == id) p.nodes

unfoldable pub find_node : Profile → String → Option Node
unfolding find_node_by_id find_node_by_name
find_node p ref = elim (find_node_by_id p ref) [ some n ↦ some n | none ↦ find_node_by_name p ref ]

unfoldable pub active_node : Profile → Option Node
unfolding find_node_by_id
active_node p = elim p.active_node_id [ none ↦ none | some id ↦ find_node_by_id p id ]

unfoldable pub find_subscription : Profile → String → Option Subscription
find_subscription p ref = find (λ s. s.id == ref || s.name == ref) p.subscriptions

unfoldable pub find_routing : Profile → String → Option Routing.Config
find_routing p ref = find (λ r. r.id == ref || r.name == ref) p.routing_configs

unfoldable pub active_routing : Profile → Option Routing.Config
active_routing p = elim p.active_routing_id [
  | none ↦ none
  | some id ↦ find (λ r. r.id == id) p.routing_configs
]
