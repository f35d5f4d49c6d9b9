-- ===== src/Manager/Served.antt =====
-- The calls of the daemon that write a profile: the verbs of
-- daemon-go/cmd/iron-link-daemon/manager_store.go, the landed refreshes, and the creation, deletion and
-- selection of profiles. The events of a refresh that a verb makes are left out.
pub mod Sound
use iron_link.Prelude.{
  false, String, ◌≡◌, sym, subst, if◌then◌else◌, arith, >>=-eq-ok, remove, ℕ, Option, none, Result,
  ok, is_ok, not, ◌==◌, ◌||◌, Result-cases, Bool-cases, inl, inr,
}
use iron_link.Store.Profile.{Profile}
use iron_link.Proxy.Capabilities.{CoreType}
use iron_link.Store.Invariant.{IsValid}
use iron_link.Subscription.Sweep.{land_retry}
use iron_link.Manager.Session.Reconnect.{SessionReconnect, session_reconnect}
use iron_link.Store.Files.{
  Os, Disk, IsCodec, empty_disk, read, read_file, file_at, attempt, profile_file,
}
use iron_link.Store.Profiles.{
  check_name, load_profile, save_profile, create_profile, delete_profile, set_active_profile,
}
use iron_link.Store.Profiles.Untouched.{set_active_profile-profiles}
use iron_link.Subscription.Refresh.{Outcome, FetchResult, Refreshed, apply_fetch}
use iron_link.Subscription.Refresh.Valid.{apply_fetch-IsValid}
use iron_link.Manager.Prepare.{Env}
use iron_link.Manager.Session.{Cores}
use iron_link.Manager.Landing.{Sweeper, land_result, landed_session, land_subscription_fetch}
use iron_link.Manager.Landing.Files.{session_reconnect-profiles}
use iron_link.Manager.Verbs.{or_keep, with_profile, resolve_profile_name, set_node_prefs}
use iron_link.Api.Request.{Request}
use iron_link.Subscription.Rounds.{Fetching}
use iron_link.Manager.Verbs.Subs.{on_add_subscription, on_refresh_subscriptions}
use iron_link.Manager.Verbs.Updated.{IsFreeUrl}
use iron_link.Manager.Verbs.Requests.{pin_core, on_update_subscription}
use iron_link.Manager.Verbs.Kept.{Verb, edit, edit-IsValid}
use iron_link.Manager.Verbs.Stored.{
  IsSound, IsUnused, with_profile-IsSound, save_profile-IsSound, create_profile-IsSound,
  delete_profile-IsSound, same_profiles-IsSound,
}

-- A call, with its arguments; of a landing, also what it parses with, and the two times.
pub data Call (Raw : Type 0) : Type 0 where
  verb : Option String → Verb → Call Raw
  pin : Option String → String → Option CoreType → Call Raw
  -- with `Hostname` of a URL, the fetches, the id that `uuid.New` gives and the time
  subscribe : (String → String) → Fetching → String → ℕ → Request Raw → Call Raw
  refresh : Fetching → Request Raw → Call Raw
  update : Request Raw → Call Raw
  create : String → String → Call Raw
  delete select : String → Call Raw
  landing :
      (String → String)
      → (String → String → String → Result String Outcome)
      → ℕ
      → ℕ
      → String
      → FetchResult
      → Call Raw

module _ {Raw : Type 0} (env : Env Raw) where
  abbrev pub on_disk : (Disk Raw → Disk Raw) → Sweeper Raw → Sweeper Raw
  on_disk f w = record w { manager = record w.manager { disk = f w.manager.disk } }

  unfoldable pub serve : Os → Cores → Call Raw → Sweeper Raw → Sweeper Raw
  serve os cores (verb given v) w = on_disk (λ d. (with_profile env.codec os given (edit v) d).0) w
  serve os cores (pin given ref core) w = record w {
    manager = (pin_core env os cores given ref core w.manager).0;
  }
  serve os cores (subscribe hostname f fresh now req) w =
      on_disk (λ d. (on_add_subscription env.codec os hostname f fresh now req d).0) w
  serve os cores (refresh f req) w =
      on_disk (λ d. (on_refresh_subscriptions env.codec os f req d).0) w
  serve os cores (update req) w = on_disk (λ d. (on_update_subscription env.codec os req d).0) w
  serve os cores (create name fresh) w =
      on_disk (λ d. (create_profile env.codec os name fresh d).0) w
  serve os cores (delete name) w = on_disk (λ d. (delete_profile env.codec os name d).0) w
  serve os cores (select name) w = on_disk (λ d. (set_active_profile env.codec os name d).0) w
  serve os cores (landing from_name parse now stamped name fr) w =
      (land_subscription_fetch env os cores from_name parse now stamped name fr w).0

  -- A verb makes a routing config under an id that is not empty and new, a profile is made with an id
  -- that is not empty, and an update gives a URL that no stored subscription has, or the one that its
  -- subscription has.
  abbrev pub Admissible : Call Raw → Sweeper Raw → Type 0
  Admissible (verb given v) w = IsUnused env.codec v w.manager.disk
  Admissible (update req) w =
      (os : Os) (name : String) (p : Profile)
      → load_profile env.codec os w.manager.disk name ≡ ok p
      → IsFreeUrl req (or_keep req.sub "") p
  Admissible (create name fresh) w = (fresh == "") ≡ false
  Admissible _ w = Unit {0}

  pub data Reach : Sweeper Raw → Type 0 where
    start : {w : Sweeper Raw} → w.manager.disk ≡ empty_disk → Reach w
    next :
        {w w' : Sweeper Raw}
        → Reach w
        → (os : Os) (cores : Cores) (call : Call Raw) → Admissible call w
        → w' ≡ serve os cores call w
        → Reach w'
