-- ===== src/Manager/ServedTests.antt =====
-- A profile that is created and edited, and one whose subscription is refreshed.
use iron_link.Prelude.{String, refl, some, [], ◌∷◌, Result, ok}
use iron_link.Store.Name.{validate_name}
use iron_link.Store.Profile.{Profile, new_profile, new_subscription, normalize, find_routing}
use iron_link.Store.Invariant.{IsValid}
use iron_link.Store.Mutators.{set_active_routing, add_subscription, replace_subscription_nodes}
use iron_link.Api.Request.{empty_request}
use iron_link.Subscription.Rounds.{Fetching, refresh}
use iron_link.Manager.Verbs.Subs.{requested_sub, add_sub, on_add_subscription}
use iron_link.Store.Reread.{reread}
use iron_link.Store.Files.{Disk, quiet, empty_disk}
use iron_link.Store.Profiles.{load_profile, save_profile, create_profile}
use iron_link.Store.Sample.{Bytes, plain-IsCodec, profile_bytes}
use iron_link.Subscription.Refresh.{
  Outcome, FetchResult, land, land_body, apply_fetch, landed_nodes, reconcile, materialize_groups,
}
use iron_link.Manager.Session.{new_manager}
use iron_link.Manager.SessionTests.{an_env, some_cores}
use iron_link.Manager.Landing.{Sweeper, land_subscription_fetch}
use iron_link.Manager.Landing.Held.{IsSettled, land_subscription_fetch-IsSettled}
use iron_link.Manager.Verbs.{with_profile, select_routing}
use iron_link.Manager.Verbs.Kept.{Verb, edit}
use iron_link.Manager.Served.{Call, serve, Reach}
use iron_link.Manager.Served.Sound.{Reach-IsSound}

abbrev sweeper_on : Disk Bytes → Sweeper Bytes
sweeper_on d = record { manager = new_manager d; retries = []; published = [] }

abbrev created : Sweeper Bytes
created = serve an_env quiet some_cores (Call.create "home" "r1") (sweeper_on empty_disk)

abbrev subscribed : Profile
subscribed = record (new_profile "home" "r1") {
  subscriptions = new_subscription "https://a.example" "a" "s1" 0 ∷ [];
}

abbrev subscribed_disk : Disk Bytes
subscribed_disk = record empty_disk { profiles = ("home", profile_bytes subscribed) ∷ [] }

abbrev fetched : FetchResult
fetched = record {
  sub_id = "s1";
  name = "a";
  url = "https://a.example";
  format = "auto";
  body = ok "";
}

abbrev no_nodes : Outcome
no_nodes = record {
  format = "links";
  nodes = [];
  groups = [];
  entries = 0;
  duplicates = 0;
  unrecognized = 0;
}

abbrev parses : String → String → String → Result String Outcome
parses body sub_id format = ok no_nodes

-- A subscription is added and fetched, and then the routing config is chosen.
abbrev fetching : Fetching
fetching = record { from_name = λ s. s; parse = parses; fetch = λ i sub. fetched; clock = λ i. 7 }

abbrev subscribing : Call Bytes
subscribing =
    Call.subscribe (λ url. "a") fetching "s1" 0
      (record empty_request { profile = some "home"; url = some "https://a.example" })

abbrev refreshed : Sweeper Bytes
refreshed = serve an_env quiet some_cores subscribing created

abbrev choosing : Call Bytes
choosing = Call.verb (some "home") (Verb.choose_routing "r1")

abbrev chosen : Sweeper Bytes
chosen = serve an_env quiet some_cores choosing refreshed

reached : Reach an_env chosen
reached =
    Reach.next
      (Reach.next
        (Reach.next (Reach.start refl) quiet some_cores (Call.create "home" "r1") refl refl) quiet
        some_cores subscribing tt refl)
      quiet some_cores choosing (tt, λ os name p h. tt) refl

abbrev stored : Profile
stored = record (new_profile "home" "r1") {
  subscriptions =
      record (new_subscription "https://a.example" "a" "s1" 0) { last_updated = 7 } ∷ [];
}

Reach-IsSound_example : IsValid stored
unfolding serve create_profile save_profile load_profile validate_name normalize new_profile
    with_profile edit select_routing find_routing set_active_routing reread new_subscription
    on_add_subscription requested_sub add_sub refresh apply_fetch land_body land add_subscription
    replace_subscription_nodes landed_nodes reconcile materialize_groups
Reach-IsSound_example = Reach-IsSound an_env plain-IsCodec reached quiet "home" stored refl

abbrev landed : Sweeper Bytes
landed =
    (land_subscription_fetch an_env quiet some_cores (λ s. s) parses 7 8 "home" fetched
      (sweeper_on subscribed_disk)).0

land_subscription_fetch-IsSettled_example :
    IsSettled an_env quiet 7 8 "home" "s1" (sweeper_on subscribed_disk) landed
unfolding load_profile validate_name normalize new_profile new_subscription apply_fetch land_body
    land reread
land_subscription_fetch-IsSettled_example =
    land_subscription_fetch-IsSettled an_env plain-IsCodec quiet quiet some_cores (λ s. s) parses 7
      8 "home" fetched subscribed (sweeper_on subscribed_disk)
      (record { fetch = λ h. cc; parsed = λ body h. cc }) refl refl refl
