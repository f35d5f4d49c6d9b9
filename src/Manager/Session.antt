-- ===== src/Manager/Session.antt =====
-- The session state of the manager (daemon-go/cmd/iron-link-daemon/manager.go): at most one session
-- of the embedded cores, the context that it was started from, and its traffic emitter. The mutex
-- makes what a handler does under it one step. A session is the number that tells it from others; what
-- the cores answer to one handler's calls is a `Cores`, an argument, and the calls are recorded.
pub mod Handlers
pub mod Reconnect
pub mod Coherent
pub mod Steps
pub mod Relabel
pub mod Reachable
pub mod Announced
pub mod Heard
use iron_link.Prelude.{
  ℕ, suc, ◌-◌, ◌+◌, String, Bool, true, false, Option, none, some, List, [], ◌∷◌, Result, ok, err,
}
use iron_link.Json.{Json, JsonMap}
use iron_link.Routing
use iron_link.Api.Reply.{PersistedEntry, CoreEntry, role_tun, role_proxy, state_running}
use iron_link.Store.Files.{Os, Disk}
use iron_link.Store.Profiles.{save_last_session, clear_last_session}
use iron_link.Engine.Plan.{SessionPlan, display_name_for_tag}
use iron_link.Manager.BuildPlan.{Warning}
use iron_link.Manager.Prepare.{Env, Activation, PrepareError}

-- The answers of `StartWithOptions`, `Close`, `SelectOutbound` and `LiveOutbound`, an error as its
-- text, and the clock in seconds.
pub record Cores : Type 0 where
  pub start : JsonMap × Json → Result String ℕ
  pub close : ℕ → Option String
  pub select_outbound : ℕ → String → Option String
  pub live_outbound : ℕ → Option String
  pub now : ℕ

pub data CoreCall : Type 0 where
  started closed : ℕ → CoreCall
  selected : ℕ → String → CoreCall

pub record StateEvent : Type 0 where
  pub active : Option PersistedEntry
  pub entries : List CoreEntry
  pub live_name : Option String
  pub live_id : Option String
  pub routing_warnings : List Warning

-- `calls` and `events` have the latest first; `stop_traffic` is the session whose emitter runs.
pub record Manager (Raw : Type 0) : Type 0 where
  pub sess : Option ℕ
  pub plan : SessionPlan
  pub started_at : ℕ
  pub active : Option PersistedEntry
  pub routing : Option Routing.Config
  pub routing_warnings : List Warning
  pub stop_traffic : Option ℕ
  pub activations : ℕ
  pub disk : Disk Raw
  pub calls : List CoreCall
  pub events : List StateEvent

pub data Reply : Type 0 where
  not_prepared : PrepareError → Reply
  closing_failed starting_failed stopping_failed selecting_failed : String → Reply
  role_scoped node_required nothing_to_switch : Reply
  -- the program panics on a nil pointer
  nil_active : Reply
  activated : List CoreEntry → Reply
  switched : String → Reply
  stopped idle : Reply
  running : StateEvent → Reply

abbrev pub no_plan : SessionPlan
no_plan = record {
  natives = [];
  xray_nodes = [];
  active_tag = "";
  routing = none;
  cache_path = "";
  tunables = none;
  groups = [];
}

-- `newManager` over a store.
abbrev pub new_manager : {Raw : Type 0} → Disk Raw → Manager Raw
new_manager d = record {
  sess = none;
  plan = no_plan;
  started_at = 0;
  active = none;
  routing = none;
  routing_warnings = [];
  stop_traffic = none;
  activations = 0;
  disk = d;
  calls = [];
  events = [];
}

abbrev pub context_of : Activation → PersistedEntry
context_of prep = record {
  profile = some prep.profile_name;
  node = some prep.node_name;
  node_id = some prep.node_id;
  routing = elim prep.routing [ none ↦ none | some rc ↦ some rc.name ];
  tun = prep.tun;
}

module _ {Raw : Type 0} where
  unfoldable pub live_node : Cores → Manager Raw → Option String × Option String
  live_node cores m = elim m.sess [
    | none ↦ (none, none)
    | some s ↦ (elim (cores.live_outbound s) [
      | some live ↦ (elim (display_name_for_tag m.plan live) [
        | some name ↦ (some name, some live)
        | none ↦ (some live, some live)
      ])
      | none ↦ (elim m.active [ none ↦ (none, none) | some a ↦ (a.node, a.node_id) ])
    ])
  ]

  unfoldable pub entries : Cores → Manager Raw → List CoreEntry
  entries cores m =
      let uptime = cores.now - m.started_at in
      (record { role = role_tun; state = state_running; uptime_secs = uptime })
      ∷ (record { role = role_proxy; state = state_running; uptime_secs = uptime })
      ∷ []

  -- `stateEventLocked`, which is also the hub's snapshot.
  unfoldable pub state_event : Cores → Manager Raw → StateEvent
  unfolding live_node entries
  state_event cores m = elim m.sess [
    | none ↦ record {
      active = m.active;
      entries = [];
      live_name = none;
      live_id = none;
      routing_warnings = [];
    }
    | some _ ↦ record {
      active = m.active;
      entries = entries cores m;
      live_name = (live_node cores m).0;
      live_id = (live_node cores m).1;
      routing_warnings = m.routing_warnings;
    }
  ]

  unfoldable pub broadcast_state : Cores → Manager Raw → Manager Raw
  unfolding state_event
  broadcast_state cores m = record m { events = state_event cores m ∷ m.events }

  -- The writes of the last session are best effort: an error is printed.
  unfoldable pub save_last : Env Raw → Os → PersistedEntry → Manager Raw → Manager Raw
  save_last env os context m = record m { disk = (save_last_session env.codec os context m.disk).0 }

  unfoldable pub clear_last : Env Raw → Os → Manager Raw → Manager Raw
  clear_last env os m = record m { disk = (clear_last_session env.codec os m.disk).0 }

  -- The session `s` is closed and its context forgotten.
  unfoldable pub close_session : ℕ → Manager Raw → Manager Raw
  close_session s m = record m {
    sess = none;
    active = none;
    routing = none;
    routing_warnings = [];
    stop_traffic = none;
    calls = closed s ∷ m.calls;
  }

  -- The started session `s` is pinned to the activation's node.
  abbrev pub running_session : Cores → Activation → ℕ → Manager Raw → Manager Raw
  running_session cores prep s m = record m {
    sess = some s;
    plan = prep.plan;
    started_at = cores.now;
    active = some (context_of prep);
    routing = prep.routing;
    routing_warnings = prep.warnings;
    activations = suc m.activations;
    calls = selected s prep.plan.active_tag ∷ started s ∷ m.calls;
  }

  -- It is recorded as the last session, its emitter starts, and the clients hear of it.
  unfoldable pub run_session : Env Raw → Os → Cores → Activation → ℕ → Manager Raw → Manager Raw
  unfolding save_last broadcast_state
  run_session env os cores prep s m =
      broadcast_state cores
        (record (save_last env os (context_of prep) (running_session cores prep s m)) {
          stop_traffic = some s;
        })

  -- Starting, with no session running.
  unfoldable pub start_session :
      Env Raw → Os → Cores → Activation → Manager Raw → Manager Raw × Reply
  unfolding run_session broadcast_state
  start_session env os cores prep m = elim (cores.start prep.configs) [
    | err e ↦ (broadcast_state cores m, starting_failed e)
    | ok s ↦ let m' = run_session env os cores prep s m in (m', activated (entries cores m'))
  ]

  -- `startActivationLocked`
  unfoldable pub start_activation :
      Env Raw → Os → Cores → Activation → Manager Raw → Manager Raw × Reply
  unfolding close_session start_session
  start_activation env os cores prep m = elim m.sess [
    | none ↦ start_session env os cores prep m
    | some s ↦ (elim (cores.close s) [
      | some e ↦ (close_session s m, closing_failed e)
      | none ↦ start_session env os cores prep (close_session s m)
    ])
  ]
