-- ===== src/Manager/Landing.antt =====
-- The automatic refresh around the store and the session: `dueSubscriptionsLocked` and
-- `landSubscriptionFetch` of daemon-go/cmd/iron-link-daemon/manager_subscriptions.go. The parser, the
-- ids of groups and the clock are arguments, the clock twice: `now` is read at the start, for the
-- backoff, and `stamped` by `Apply`, for the time of the refresh. The log lines are left out.
pub mod Files
pub mod Held
use iron_link.Prelude.{
  ℕ, String, Bool, true, false, not, ◌&&◌, ◌||◌, ◌==◌, Option, none, some, List, [], ◌∷◌, remove,
  if◌then◌else◌, Result, ok, err, is_ok,
}
use iron_link.Store.Profile.{Profile, Subscription}
use iron_link.Store.Files.{Os}
use iron_link.Store.Profiles.{active_profile_name, load_profile, save_profile}
use iron_link.Subscription.Refresh.{Outcome, FetchResult, Refreshed, apply_fetch}
use iron_link.Subscription.Sweep.{Retries, due_subscriptions, land_retry}
use iron_link.Manager.Settings.{subscription_ua}
use iron_link.Manager.Prepare.{Env}
use iron_link.Manager.Session.{Cores, Manager}
use iron_link.Manager.Session.Reconnect.{SessionReconnect, session_reconnect}

-- What a sweep works on; `published` has the latest refresh first.
pub record Sweeper (Raw : Type 0) : Type 0 where
  pub manager : Manager Raw
  pub retries : Retries
  pub published : List Refreshed

-- The profile's name, the subscriptions to fetch, and the user agent.
pub record Due : Type 0 where
  pub profile : String
  pub subs : List Subscription
  pub agent : String

abbrev pub nothing_due : Due
nothing_due = record { profile = ""; subs = []; agent = "" }

-- A refresh is published unless it failed, was skipped or was dropped.
abbrev pub is_published : Refreshed → Bool
is_published r = r.error == "" && not r.skipped && not r.discarded

module _ {Raw : Type 0} (env : Env Raw) (os : Os) (cores : Cores) (from_name : String → String)
    (parse : String → String → String → Result String Outcome) (now stamped : ℕ) where
  unfoldable pub due_locked : Sweeper Raw → Sweeper Raw × Due
  due_locked w = elim (active_profile_name env.codec os w.manager.disk) [
    | err _ ↦ (w, nothing_due)
    | ok name ↦
        if name == ""
        then (w, nothing_due)
        else (elim (load_profile env.codec os w.manager.disk name) [
          | err _ ↦ (w, nothing_due)
          | ok p ↦
              let (retries, due) = due_subscriptions now w.retries p.subscriptions in
              (
                record w { retries = retries },
                record {
                  profile = name;
                  subs = due;
                  agent = subscription_ua env.net env.codec env.host.goos os w.manager.disk;
                },
              )
        ])
  ]

  abbrev pub publish : Refreshed → List Refreshed → List Refreshed
  publish r rs = if is_published r then r ∷ rs else rs

  -- After the profile `p` was saved.
  unfoldable pub landed_session :
      String → Profile → Refreshed → Sweeper Raw → Sweeper Raw × Option (SessionReconnect Raw)
  landed_session name p res w =
      let (m, reconnect) = session_reconnect env os cores name p w.manager in
      let heard = record w { published = publish res w.published } in
      if res.error == "" then (record heard { manager = m }, reconnect) else (heard, none)

  -- The profile `p` with its refresh, which is not dropped, saved.
  unfoldable pub land_result :
      String
      → FetchResult
      → Profile
      → Refreshed
      → Sweeper Raw
      → Sweeper Raw × Option (SessionReconnect Raw)
  unfolding landed_session
  land_result name fr p res w =
      let (d, saved) = save_profile env.codec os name p w.manager.disk in
      let failed = not (res.error == "") || not (is_ok saved) in
      let settled = record w {
        manager = record w.manager { disk = d };
        retries = land_retry now failed fr.sub_id w.retries;
      } in
      if is_ok saved then landed_session name p res settled else (settled, none)

  -- The locked part of `landSubscriptionFetch`, and the reconnect that it decides.
  unfoldable pub land_subscription_fetch :
      String → FetchResult → Sweeper Raw → Sweeper Raw × Option (SessionReconnect Raw)
  unfolding land_result
  land_subscription_fetch name fr w = elim (load_profile env.codec os w.manager.disk name) [
    | err _ ↦ (w, none)
    | ok p ↦
        let (p', res) = apply_fetch from_name parse stamped p fr in
        if res.discarded
        then (record w { retries = remove fr.sub_id w.retries }, none)
        else land_result name fr p' res w
  ]
