-- ===== src/Manager/Prepare.antt =====
-- `prepareActivation` of daemon-go/cmd/iron-link-daemon/manager.go: names from the wire, resolved to
-- a plan and its compiled configs, with no lock held.
pub mod Member
use iron_link.Prelude.{
  String, Bool, true, false, ◌==◌, Option, none, some, List, if◌then◌else◌, Result, ok, err, ◌>>=◌,
  ◌>>◌, of_option, reject_if,
}
use iron_link.Json.{ℤ, Json, JsonMap}
use iron_link.Routing
use iron_link.Proxy.Profile as Proxy
use iron_link.Api.Request.{Request}
use iron_link.Api.Settings.{Settings}
use iron_link.Store.Profile.{
  Profile, Node, display_name, find_node, active_node, find_routing, active_routing,
}
use iron_link.Store.Files.{Os, Disk, Codec, FileError}
use iron_link.Store.Profiles.{load_profile, active_profile_name}
use iron_link.Store.Settings.{Net, load_settings}
use iron_link.Engine.Plan.{SessionPlan}
use iron_link.Engine.Host.{Host}
use iron_link.Engine.Configs.{ConfigError, plan_tun_configs, plan_socks_configs}
use iron_link.Manager.BuildPlan.{BuildError, Warning, build_plan}
use iron_link.Manager.Settings.{tunables_from_settings}

-- What the manager takes from outside: the codec and the parsers, the platform, the path of the cache
-- file, the port override of the tests, and the digest of a node's document.
pub record Env (Raw : Type 0) : Type 0 where
  pub codec : Codec Raw
  pub net : Net
  pub host : Host
  pub cache_path : String
  pub socks_override : Option ℤ
  pub digest : Option Proxy.Profile → String

pub data PrepareError : Type 0 where
  store_failed : FileError → PrepareError
  no_active_profile : PrepareError
  node_not_found routing_not_found : String → String → PrepareError
  no_active_node : String → PrepareError
  cannot_build : BuildError → PrepareError
  no_tun_privilege : String → PrepareError
  cannot_compile : ConfigError → PrepareError

pub record Activation : Type 0 where
  pub profile_name : String
  pub node_name : String
  pub node_id : String
  pub routing : Option Routing.Config
  pub tun : Bool
  pub plan : SessionPlan
  pub warnings : List Warning
  pub configs : JsonMap × Json

pub record Resolved : Type 0 where
  pub profile_name : String
  pub profile : Profile
  pub node : Node
  pub routing : Option Routing.Config

abbrev pub wrap {ℓ κ} :
    {E : Type ℓ} {A : Type κ} → (E → PrepareError) → Result E A → Result PrepareError A
wrap f (ok a) = ok a
wrap f (err e) = err (f e)

-- A field that is absent or empty names nothing.
abbrev pub named : Option String → Option String
named none = none
named (some s) = if s == "" then none else some s

unfoldable pub tun_interface_name : String → String
tun_interface_name goos = if goos == "darwin" then "" else "tun777"

unfoldable pub pick_node : Profile → String → Option String → Result PrepareError Node
pick_node prof profile_name none = of_option (no_active_node profile_name) (active_node prof)
pick_node prof profile_name (some ref) =
    of_option (node_not_found ref profile_name) (find_node prof ref)

unfoldable pub pick_routing :
    Profile → String → Option String → Result PrepareError (Option Routing.Config)
pick_routing prof profile_name none = ok (active_routing prof)
pick_routing prof profile_name (some ref) =
    of_option (routing_not_found ref profile_name) (find_routing prof ref) >>= λ rc. ok (some rc)

abbrev pub flag : Option Bool → Bool
flag none = false
flag (some b) = b

abbrev pub or_else_int : Option ℤ → ℤ → ℤ
or_else_int none n = n
or_else_int (some m) n = m

module _ {Raw : Type 0} (env : Env Raw) where
  unfoldable pub pick_profile : Os → Disk Raw → Option String → Result PrepareError String
  pick_profile os d (some name) = ok name
  pick_profile os d none = do
    name ← wrap store_failed (active_profile_name env.codec os d)
    reject_if (name == "") no_active_profile
    ok name

  -- `privilege` is the error of `engine.EnsureTUNPrivilege`, if any.
  unfoldable pub compile_plan :
      Option String → Bool → SessionPlan → ℤ → Result PrepareError (JsonMap × Json)
  unfolding tun_interface_name
  compile_plan privilege false plan port =
      wrap cannot_compile (plan_socks_configs env.host plan "127.0.0.1" port)
  compile_plan (some e) true plan port = err (no_tun_privilege e)
  compile_plan none true plan port =
      wrap cannot_compile (plan_tun_configs env.host plan (tun_interface_name env.host.goos))

  -- The profile, the node and the routing that the names stand for.
  unfoldable pub resolve_names : Os → Disk Raw → Request Raw → Result PrepareError Resolved
  unfolding pick_profile pick_node pick_routing
  resolve_names os d req = do
    name ← pick_profile os d (named req.profile)
    prof ← wrap store_failed (load_profile env.codec os d name)
    node ← pick_node prof name (named req.node)
    rc ← pick_routing prof name (named req.routing)
    ok (record { profile_name = name; profile = prof; node = node; routing = rc })

  abbrev pub complete : SessionPlan → Settings → SessionPlan
  complete built settings = record built {
    cache_path = env.cache_path;
    tunables = some (tunables_from_settings settings);
  }

  -- A built plan, with what the settings add to it, and its configs.
  unfoldable pub compile_activation :
      Option String
      → Bool
      → Resolved
      → SessionPlan
      → List Warning
      → Settings
      → Result PrepareError Activation
  unfolding compile_plan
  compile_activation privilege tun r built warnings settings =
      compile_plan privilege tun (complete built settings)
        (or_else_int env.socks_override settings.socks_port)
      >>= λ configs. ok (record {
        profile_name = r.profile_name;
        node_name = display_name r.node;
        node_id = r.node.id;
        routing = r.routing;
        tun = tun;
        plan = complete built settings;
        warnings = warnings;
        configs = configs;
      })

  unfoldable pub plan_activation :
      Os → Option String → Disk Raw → Bool → Resolved → Result PrepareError Activation
  unfolding compile_activation
  plan_activation os privilege d tun r = do
    (built, warnings) ← wrap cannot_build (build_plan r.profile r.node r.routing)
    settings ← wrap store_failed (load_settings env.net env.codec env.host.goos os d)
    compile_activation privilege tun r built warnings settings

  unfoldable pub prepare_activation :
      Os → Option String → Disk Raw → Request Raw → Result PrepareError Activation
  unfolding resolve_names plan_activation
  prepare_activation os privilege d req =
      resolve_names os d req >>= λ r. plan_activation os privilege d (flag req.tun) r
