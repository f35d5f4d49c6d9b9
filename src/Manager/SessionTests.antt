-- ===== src/Manager/SessionTests.antt =====
-- A daemon with one profile on its disk: what it starts, and the states that it goes through.
use iron_link.Prelude.{◌≡◌, refl, true, false, none, some, [], ◌∷◌, ok, is_ok}
use iron_link.Json.{pos}
use iron_link.Proxy.Profile as Proxy
use iron_link.Proxy.Profile.{dialable_by, xray_outbound, stream_security}
use iron_link.Proxy.Capabilities.{core_caps}
use iron_link.Proxy.Selection.{select_core, select_from_eligible, eligible_cores, preferred_core}
use iron_link.Store.Name.{validate_name}
use iron_link.Store.Profile as StoreProfile
use iron_link.Store.Profile.{display_name}
use iron_link.Store.Profiles as Profiles
use iron_link.Store.Settings.{load_settings}
use iron_link.Manager.Session as Session
use iron_link.Proxy.Outbound.{with_stream}
use iron_link.Proxy.Stream.{sing_box_transport}
use iron_link.Engine.Route.{route_block, resolve_target, compile_rule}
use iron_link.Engine.XrayClient.{xray_config}
use iron_link.Manager.Members.{resolve_group_member_ids}
use iron_link.Engine.Plan.{validate, is_member, member_tags, node_tags}
use iron_link.Manager.BuildPlan.{
  build_plan, embedded_plan, embed_nodes, embed_node, place_node, xray_of, groups_in_play,
  lower_groups, resolve_routing, resolve_config, fall_back, live_members, group_plan,
}
use iron_link.Api.Reply.{PersistedEntry}
use iron_link.Api.Settings.{Settings}
use iron_link.Store.Profile.{find_node_by_id}
use iron_link.Store.Reread.{reread}
use iron_link.Store.Files.{Disk, quiet}
use iron_link.Store.Settings.{default_settings}
use iron_link.Store.Sample.{Bytes, plain, few_texts, profile_bytes, state_bytes, session_bytes}
use iron_link.Engine.Tunables.{default_tunables}
use iron_link.Engine.Host.{Host}
use iron_link.Engine.Configs.{plan_tun_configs, plan_socks_configs}
use iron_link.Manager.Tests.{a_profile, a_node, a_routing, the_plan, the_warning, built}
use iron_link.Manager.BuildPlan.Starts.{prepared, plan_configs-build_plan}
use iron_link.Manager.Settings.{
  tunables_from_settings, engine_relevant_changed, neutral, deep_equal, same_engine, same_live,
}
use iron_link.Manager.Settings.Relevant.{engine_relevant_changed-tunables}
use iron_link.Manager.Prepare.{Env}
use iron_link.Manager.Session.{Cores, Manager, new_manager, state_event}
use iron_link.Manager.Session.Coherent.{IsCoherent}
use iron_link.Manager.Session.Announced.{Announces}
use iron_link.Manager.Session.Reachable.{Action, Reach, act, Reach-IsCoherent}
use iron_link.Manager.Session.Heard.{act-Announces}

abbrev a_host : Host
a_host = record {
  goos = "linux";
  xray_log_level = "warning";
  show = λ n. "7";
  quote = λ s. s;
  show_duration = λ n. "5m0s";
  trim = λ v. v;
  text_of = λ v. none;
  cidrs_of = λ host. host ∷ [];
  marshal = λ m. none;
}

abbrev pub an_env : Env Bytes
an_env = record {
  codec = plain;
  net = few_texts;
  host = a_host;
  cache_path = "/var/cache/iron-link.db";
  socks_override = none;
  digest = λ doc. "";
}

-- Every call is granted; the started session is the first.
abbrev pub some_cores : Cores
some_cores = record {
  start = λ configs. ok 1;
  close = λ s. none;
  select_outbound = λ s tag. none;
  live_outbound = λ s. some "a";
  now = 0;
}

abbrev last_context : PersistedEntry
last_context = record {
  profile = some "home";
  node = some "a";
  node_id = some "a";
  routing = some "r";
  tun = false;
}

abbrev a_disk : Disk Bytes
a_disk = record {
  profiles = ("home", profile_bytes a_profile) ∷ [];
  state = some (state_bytes (some "home"));
  last_session = some (session_bytes last_context);
  settings = none;
}

plan_configs-build_plan_example :
    (is_ok (plan_tun_configs a_host (prepared the_plan "cache" default_tunables) "tun777") ≡ true)
    × (is_ok (
          plan_socks_configs a_host
            (prepared the_plan "cache" default_tunables)
            "127.0.0.1"
            (pos 10808))
        ≡ true)
unfolding find_node_by_id
plan_configs-build_plan_example =
    plan_configs-build_plan a_host a_profile (a_node "a" "tcp") (some a_routing) the_plan
      (the_warning ∷ []) "cache" default_tunables "tun777" "127.0.0.1" (pos 10808)
      (refl, (refl, (refl, tt))) refl refl refl (λ m. refl) built

-- Another user agent.
abbrev renamed_agent : Settings
renamed_agent = record (default_settings "linux") { subscription_user_agent = "curl" }

engine_relevant_changed-tunables_example :
    (tunables_from_settings (default_settings "linux") ≡ tunables_from_settings renamed_agent)
    × ((default_settings "linux").socks_port ≡ renamed_agent.socks_port)
unfolding engine_relevant_changed neutral deep_equal same_engine same_live default_settings
engine_relevant_changed-tunables_example =
    engine_relevant_changed-tunables (default_settings "linux") renamed_agent refl

-- The last session is restored at the start.
abbrev restored_manager : Manager Bytes
restored_manager = act an_env quiet some_cores (Action.restored none) (new_manager a_disk)

reached : Reach an_env false restored_manager
reached = Reach.next (Reach.fresh a_disk refl) quiet some_cores (Action.restored none) tt refl

Reach-IsCoherent_example : IsCoherent false restored_manager
Reach-IsCoherent_example = Reach-IsCoherent an_env reached

act-Announces_example :
    Announces some_cores (state_event some_cores (new_manager a_disk)) restored_manager
act-Announces_example =
    act-Announces an_env quiet some_cores (Action.restored none) (new_manager a_disk) (λ s. refl)
      refl

-- One session is open, and it is the one that the cores started.
restored-opens : restored_manager.sess ≡ some 1
unfolding act Session.Handlers.restore_last_session load_settings default_settings
    Profiles.load_last_session Profiles.load_profile validate_name find_node_by_id
    StoreProfile.normalize StoreProfile.find_node StoreProfile.find_routing build_plan embedded_plan
    embed_nodes embed_node place_node xray_of groups_in_play lower_groups resolve_routing
    resolve_config fall_back is_member member_tags node_tags select_core select_from_eligible
    eligible_cores preferred_core dialable_by core_caps xray_outbound live_members group_plan
    resolve_group_member_ids display_name Proxy.display_name stream_security plan_socks_configs
    validate Proxy.sing_box_outbound with_stream sing_box_transport tunables_from_settings
    route_block resolve_target compile_rule xray_config reread
restored-opens = refl
