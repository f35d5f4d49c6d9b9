-- ===== src/Manager/Landing/Held.antt =====
-- What a landed refresh leaves on disk and on record.
use iron_link.Prelude.{
  ℕ, String, Bool, true, false, if◌then◌else◌, ◌==◌, ◌≡◌, ◌≢◌, refl, sym, ap, ◌∙◌, subst, ◌⊎◌,
  Option, none, some, List, [], ◌∷◌, find, replace_first, lookup, remove, lookup-insert,
  lookup-remove, eq_refl, eq_iff, Result, ok, err, Option-cases, Result-cases, Bool-cases, inl, inr,
  arith,
}
use iron_link.Store.Profile.{Profile, Subscription, normalize}
use iron_link.Store.Mutators.{
  replace_subscription_nodes, clear_lost_active, set_active_node_if_unset,
}
use iron_link.Store.Files.{Os, IsCodec, profile_file, put_file, read}
use iron_link.Store.Profiles.{load_profile}
use iron_link.Store.Profiles.Spec.{saved}
use iron_link.Store.Reread.{reread}
use iron_link.Store.Profiles.Saved.{save_profile-cases}
use iron_link.Store.Profiles.Complete.{load_profile-save_profile}
use iron_link.Subscription.Schedule.{next_subscription_retry}
use iron_link.Subscription.Refresh.{
  Outcome, FetchResult, Refreshed, land, fail, land_body, apply_fetch, landed_nodes,
}
use iron_link.Subscription.Sweep.{land_retry}
use iron_link.Manager.Prepare.{Env}
use iron_link.Manager.Session.{Cores}
use iron_link.Manager.Session.Reconnect.{SessionReconnect, session_reconnect}
use iron_link.Manager.Landing.{Sweeper, land_result, landed_session, land_subscription_fetch}
use iron_link.Manager.Landing.Files.{session_reconnect-profiles}
use iron_link.Store.Profiles.Untouched.{load_profile-cong}

find-replace_first {ℓ} :
    {A : Type ℓ} (t : A → Bool) (f : A → A) (xs : List A) (x : A)
    → ((y : A) → t (f y) ≡ t y)
    → find t xs ≡ some x
    → find t (replace_first t f xs) ≡ some (f x)
find-replace_first t f [] x k h = cc
find-replace_first t f (y ∷ ys) x k h = ground (arith, k y, find-replace_first t f ys x k)

-- The texts of errors are not empty.
pub record HasTexts (parse : String → String → String → Result String Outcome) (fr : FetchResult)
    : Type 0 where
  pub fetch : fr.body ≢ err ""
  pub parsed : (body : String) → parse body fr.sub_id fr.format ≢ err ""

-- The subscription is stored as refreshed at the time.
abbrev pub IsRefreshed : ℕ → String → Profile → Type 0
IsRefreshed now id q =
    (sub : Subscription) × (find (λ s. s.id == id) q.subscriptions ≡ some sub)
    × (sub.last_updated ≡ now)
    × (sub.last_error ≡ "")

-- The failure of the subscription is on record, with the backoff that follows the one before.
abbrev pub IsHeld : {Raw : Type 0} → ℕ → String → Sweeper Raw → Sweeper Raw → Type 0
IsHeld now id w w' = lookup id w'.retries ≡ some (next_subscription_retry (lookup id w.retries) now)

-- The refresh is on disk, and no failure is on record.
abbrev pub IsLanded : {Raw : Type 0} → Env Raw → Os → ℕ → String → String → Sweeper Raw → Type 0
IsLanded env os stamped name id w' =
    ((q : Profile) × (load_profile env.codec os w'.manager.disk name ≡ ok q)
      × IsRefreshed stamped id q)
    × (lookup id w'.retries ≡ none)

-- One of the two, for a sweeper before and after a landing.
abbrev pub IsSettled :
    {Raw : Type 0} → Env Raw → Os → ℕ → ℕ → String → String → Sweeper Raw → Sweeper Raw → Type 0
IsSettled env os now stamped name id w w' = IsHeld now id w w' ⊎ IsLanded env os stamped name id w'

module _ (from_name : String → String) (parse : String → String → String → Result String Outcome)
    (now : ℕ) where
  land-subscription :
      (p : Profile) (fr : FetchResult) (name : String) (o : Outcome) (sub : Subscription)
      → find (λ s. s.id == fr.sub_id) p.subscriptions ≡ some sub
      → find (λ s. s.id == fr.sub_id) (land from_name parse now p fr name o).0.subscriptions
        ≡ some (record sub { last_updated = now; last_error = "" })
  unfolding land replace_subscription_nodes clear_lost_active set_active_node_if_unset
  land-subscription p fr name o sub h =
      let same : (replace_subscription_nodes p fr.sub_id
            (landed_nodes from_name parse now p fr.sub_id o)).subscriptions
          ≡ p.subscriptions =
        ground arith in
      rw same (
        find-replace_first (λ s. s.id == fr.sub_id)
          (λ s. record s { last_updated = now; last_error = "" }) p.subscriptions sub (λ s. refl) h)

  apply_fetch-IsRefreshed :
      (p : Profile) (fr : FetchResult)
      → HasTexts parse fr
      → (apply_fetch from_name parse now p fr).1.discarded ≡ false
      → (apply_fetch from_name parse now p fr).1.error ≡ ""
      → IsRefreshed now fr.sub_id (apply_fetch from_name parse now p fr).0
  unfolding apply_fetch land_body fail land
  apply_fetch-IsRefreshed p fr texts kept fine =
      elim (Option-cases (find (λ s. s.id == fr.sub_id) p.subscriptions)) [
        | inl f ↦ absurd (ground arith)
        | inr (sub, f) ↦ elim (Bool-cases (sub.url == fr.url)) [
          | inr u ↦ absurd (ground arith)
          | inl u ↦ elim (Result-cases fr.body) [
            | inr (message, b) ↦
                let blank : message ≡ "" = ground arith in
                absurd (texts.fetch (b ∙ ap (λ t. err t) blank))
            | inl (body, b) ↦ elim (Result-cases (parse body fr.sub_id fr.format)) [
              | inr (message, e) ↦
                  let blank : message ≡ "" = ground arith in
                  absurd (texts.parsed body (e ∙ ap (λ t. err t) blank))
              | inl (o, e) ↦
                  rw (f, u, apply_fetch, b, land_body, e)
                    (_, land-subscription p fr sub.name o sub f, refl, refl)
            ]
          ]
        ]
      ]

module _ {Raw : Type 0} (env : Env Raw) (law : IsCodec env.codec) (os os' : Os) (cores : Cores)
    (from_name : String → String) (parse : String → String → String → Result String Outcome)
    (now stamped : ℕ) (name : String) (fr : FetchResult) where
  land_retry-failed :
      (w : Sweeper Raw)
      → lookup fr.sub_id (land_retry now true fr.sub_id w.retries)
        ≡ some (next_subscription_retry (lookup fr.sub_id w.retries) now)
  unfolding land_retry
  land_retry-failed w =
      lookup-insert fr.sub_id fr.sub_id (next_subscription_retry (lookup fr.sub_id w.retries) now)
        w.retries
      ∙ rw (eq_refl fr.sub_id) refl

  land_retry-done :
      (w : Sweeper Raw) → lookup fr.sub_id (land_retry now false fr.sub_id w.retries) ≡ none
  unfolding land_retry
  land_retry-done w = lookup-remove fr.sub_id fr.sub_id w.retries ∙ rw (eq_refl fr.sub_id) refl

  land_result-IsSettled :
      (p : Profile) (res : Refreshed) (w : Sweeper Raw)
      → (res.error ≡ "" → IsRefreshed stamped fr.sub_id p)
      → os' read (profile_file name) ≡ none
      → IsSettled env os' now stamped name fr.sub_id w
          (land_result env os cores from_name parse now stamped name fr p res w).0
  unfolding land_result landed_session normalize reread
  land_result-IsSettled p res w done quiet_read =
      elim (save_profile-cases env.codec law os name p w.manager.disk) [
        | inr (bad, e) ↦ inl (rw (e, land_result) (ground (arith, land_retry-failed w)))
        | inl (raw, checked, encoded, e) ↦ elim (Bool-cases (res.error == "")) [
          | inr failed ↦ inl (rw (e, failed, land_result, landed_session) (land_retry-failed w))
          | inl fine ↦
              let d = put_file (profile_file name) raw w.manager.disk in
              let m = record w.manager { disk = d } in
              let m' = session_reconnect env os cores name p m in
              let (sub, found, at_now, no_error) = done ((eq_iff res.error "").0 fine) in
              let loaded =
                load_profile-cong env.codec os' name m'.0.disk d
                  (ap (λ ps. lookup name ps) (session_reconnect-profiles env os cores name p m))
                ∙ load_profile-save_profile env.codec law os os' name p w.manager.disk d e
                    quiet_read in
              inr (
                rw (e, fine, land_result, landed_session)
                  (
                    (saved law.rereading p, loaded, (sub, found, at_now, no_error)),
                    land_retry-done w,
                  ))
        ]
      ]

  -- Where the profile loads, still has the subscription under the fetched URL, the errors of the fetch
  -- and of the parser have a text, and the later load can read the file: a fetch that is landed,
  -- whatever else fails, leaves the subscription held back with the next backoff, or its refresh is on
  -- disk, stamped with the time of `Apply`, and no failure is on record.
  pub land_subscription_fetch-IsSettled :
      (p : Profile) (w : Sweeper Raw)
      → HasTexts parse fr
      → load_profile env.codec os w.manager.disk name ≡ ok p
      → (apply_fetch from_name parse stamped p fr).1.discarded ≡ false
      → os' read (profile_file name) ≡ none
      → IsSettled env os' now stamped name fr.sub_id w
          (land_subscription_fetch env os cores from_name parse now stamped name fr w).0
  unfolding land_subscription_fetch land_result landed_session
  land_subscription_fetch-IsSettled p w texts loads kept quiet_read =
      let (p', res) = apply_fetch from_name parse stamped p fr in
      let dropped : Sweeper Raw × Option (SessionReconnect Raw) =
        (record w { retries = remove fr.sub_id w.retries }, none) in
      let landed = land_result env os cores from_name parse now stamped name fr p' res w in
      let held =
        land_result-IsSettled p' res w
          (apply_fetch-IsRefreshed from_name parse stamped p fr texts kept) quiet_read in
      rw (loads, land_subscription_fetch)
        (subst
          (λ b. IsSettled env os' now stamped name fr.sub_id w (if b then dropped else landed).0)
          (sym kept) held)
