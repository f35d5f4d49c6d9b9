-- ===== src/Manager/Verbs/Subs.antt =====
-- The verbs that fetch: `addSubscription` and `refreshSubscriptions` of
-- daemon-go/cmd/iron-link-daemon/manager_store.go. `url.Parse` and `Hostname` are one argument, ""
-- where there is no host.
use iron_link.Prelude.{
  ℕ, String, false, not, ◌==◌, ◌&&◌, Option, none, some, List, is_empty, if◌then◌else◌, Result, ok,
  err, ◌>>=◌,
}
use iron_link.Api.Request.{Request}
use iron_link.Store.Profile.{Subscription, new_subscription}
use iron_link.Store.Mutators.{add_subscription}
use iron_link.Store.Files.{Os, Disk, Codec}
use iron_link.Subscription.Refresh.{Refreshed}
use iron_link.Subscription.Rounds.{Fetching, refresh}
use iron_link.Manager.Verbs.{
  Edit, VerbError, store, subscription_not_found, required, filled, or_keep, parse_format,
  with_profile,
}

abbrev given_format : Option String → Result VerbError String
given_format none = ok ""
given_format (some s) = parse_format s

-- The subscription that `addSubscription` builds of its request.
unfoldable pub requested_sub :
    {Raw : Type 0} → (String → String) → String → ℕ → Request Raw → Result VerbError Subscription
unfolding parse_format
requested_sub hostname fresh now req = do
  url ← required "url" req.url
  name ← required "name" (some (or_keep (filled req.name) (hostname url)))
  format ← given_format req.format
  ok (record (new_subscription url name fresh now) {
    allow_invalid_certs = or_keep req.allow_invalid_certs false;
    format = if format == "" then "auto" else format;
  })

-- The subscription stays when its first fetch fails.
unfoldable pub add_sub : Fetching → Subscription → Edit (List Refreshed)
unfolding refresh
add_sub f sub p =
    let (added, done) = add_subscription p sub in
    elim done [
      | err e ↦ (added, err (store e))
      | ok id ↦ let (p', results) = refresh f id added in (p', ok results)
    ]

unfoldable pub refresh_subs : Fetching → String → Edit (List Refreshed)
unfolding refresh
refresh_subs f only p =
    let (p', results) = refresh f only p in
    if not (only == "") && is_empty results
    then (p', err (subscription_not_found only))
    else (p', ok results)

module _ {Raw : Type 0} (c : Codec Raw) (os : Os) where
  unfoldable pub on_add_subscription :
      (String → String)
      → Fetching
      → String
      → ℕ
      → Request Raw
      → Disk Raw
      → Disk Raw × Result VerbError (List Refreshed)
  unfolding requested_sub with_profile add_sub
  on_add_subscription hostname f fresh now req d = elim (requested_sub hostname fresh now req) [
    | err e ↦ (d, err e)
    | ok sub ↦ with_profile c os req.profile (add_sub f sub) d
  ]

  unfoldable pub on_refresh_subscriptions :
      Fetching → Request Raw → Disk Raw → Disk Raw × Result VerbError (List Refreshed)
  unfolding with_profile refresh_subs
  on_refresh_subscriptions f req d =
      with_profile c os req.profile (refresh_subs f (or_keep req.sub "")) d
