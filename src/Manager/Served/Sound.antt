-- ===== src/Manager/Served/Sound.antt =====
-- The profiles on disk under all the calls.
use iron_link.Prelude.{
  String, ◌≡◌, sym, subst, if◌then◌else◌, arith, >>=-eq-ok, remove, ℕ, Option, none, some, Result,
  ok, is_ok, not, ◌==◌, ◌||◌, Result-cases, Bool-cases, inl, inr,
}
use iron_link.Store.Profile.{Profile}
use iron_link.Proxy.Capabilities.{CoreType}
use iron_link.Store.Invariant.{IsValid}
use iron_link.Subscription.Sweep.{land_retry}
use iron_link.Manager.Session.Reconnect.{SessionReconnect, session_reconnect}
use iron_link.Store.Files.{Os, IsCodec, empty_disk, read, read_file, file_at, attempt, profile_file}
use iron_link.Store.Profiles.{check_name, load_profile, save_profile}
use iron_link.Store.Profiles.Untouched.{set_active_profile-profiles}
use iron_link.Subscription.Refresh.{Outcome, FetchResult, Refreshed, apply_fetch}
use iron_link.Subscription.Refresh.Valid.{apply_fetch-IsValid}
use iron_link.Manager.Prepare.{Env}
use iron_link.Manager.Session.{Cores, Manager}
use iron_link.Manager.Landing.{Sweeper, land_result, landed_session, land_subscription_fetch}
use iron_link.Manager.Landing.Files.{session_reconnect-profiles}
use iron_link.Manager.Verbs.{resolve_profile_name, set_node_prefs}
use iron_link.Api.Request.{Request}
use iron_link.Store.Files.{Disk}
use iron_link.Subscription.Rounds.{Fetching}
use iron_link.Manager.Verbs.{required, or_keep, interval_ok, update_subscription}
use iron_link.Manager.Verbs.Subs.{
  requested_sub, add_sub, refresh_subs, on_add_subscription, on_refresh_subscriptions,
}
use iron_link.Manager.Verbs.Updated.{
  IsFreeUrl, update_subscription-IsWhole, refresh_subs-IsWhole, add_sub-IsWhole,
}
use iron_link.Manager.Verbs.Requests.{pin_core, on_update_subscription}
use iron_link.Manager.Verbs.Kept.{Verb, edit}
use iron_link.Manager.Verbs.Ids.{apply_fetch-HasIds}
use iron_link.Manager.Verbs.Stored.{
  IsSound, IsWhole, edit-IsKept, with_profile-IsSound, save_profile-IsSound, create_profile-IsSound,
  delete_profile-IsSound, same_profiles-IsSound,
}
use iron_link.Manager.Served.{
  Call, verb, pin, subscribe, refresh, update, create, delete, select, landing, serve, Admissible,
  Reach, start, next,
}

required-or_keep :
    (given : Option String) (ref : String) → required "sub" given ≡ ok ref → ref ≡ or_keep given ""
required-or_keep none ref h = cc
required-or_keep (some s) ref h = ground arith

module _ {Raw : Type 0} (env : Env Raw) (law : IsCodec env.codec) where
  landed_session-IsSound :
      (os : Os) (cores : Cores) (name : String) (p : Profile) (res : Refreshed) (w : Sweeper Raw)
      (from_name : String → String) (parse : String → String → String → Result String Outcome)
      (now stamped : ℕ)
      → IsSound env.codec w.manager.disk
      → IsSound env.codec
          (landed_session env os cores from_name parse now stamped name p res w).0.manager.disk
  unfolding landed_session
  landed_session-IsSound os cores name p res w from_name parse now stamped sound =
      elim (Bool-cases (res.error == "")) [
        | inl fine ↦
            rw (fine, landed_session)
              (same_profiles-IsSound env.codec law w.manager.disk _
                (session_reconnect-profiles env os cores name p w.manager) sound)
        | inr failed ↦ rw (failed, landed_session) sound
      ]

  land_result-IsSound :
      (os : Os) (cores : Cores) (name : String) (fr : FetchResult) (p : Profile) (res : Refreshed)
      (w : Sweeper Raw) (from_name : String → String)
      (parse : String → String → String → Result String Outcome) (now stamped : ℕ)
      → IsWhole p
      → IsSound env.codec w.manager.disk
      → IsSound env.codec
          (land_result env os cores from_name parse now stamped name fr p res w).0.manager.disk
  unfolding land_result
  land_result-IsSound os cores name fr p res w from_name parse now stamped v sound =
      let d = (save_profile env.codec os name p w.manager.disk).0 in
      let stored = save_profile-IsSound env.codec law os name p w.manager.disk v sound in
      let saved = is_ok (save_profile env.codec os name p w.manager.disk).1 in
      let settled : Sweeper Raw = record w {
        manager = record w.manager { disk = d };
        retries = land_retry now (not (res.error == "") || not saved) fr.sub_id w.retries;
      } in
      elim (Bool-cases saved) [
        | inl e ↦
            subst
              (λ b.
                IsSound env.codec
                  (if b
                    then landed_session env os cores from_name parse now stamped name p res settled
                    else (settled, none)).0.manager.disk)
              (sym e)
              (landed_session-IsSound os cores name p res settled from_name parse now stamped
                stored)
        | inr e ↦
            subst
              (λ b.
                IsSound env.codec
                  (if b
                    then landed_session env os cores from_name parse now stamped name p res settled
                    else (settled, none)).0.manager.disk)
              (sym e) stored
      ]

  landing-IsSound :
      (os : Os) (cores : Cores) (name : String) (fr : FetchResult) (w : Sweeper Raw)
      (from_name : String → String) (parse : String → String → String → Result String Outcome)
      (now stamped : ℕ)
      → IsSound env.codec w.manager.disk
      → IsSound env.codec
          (land_subscription_fetch env os cores from_name parse now stamped name fr
            w).0.manager.disk
  unfolding land_subscription_fetch
  landing-IsSound os cores name fr w from_name parse now stamped sound =
      elim (Result-cases (load_profile env.codec os w.manager.disk name)) [
        | inr (bad, e) ↦ rw (e, land_subscription_fetch) sound
        | inl (p, e) ↦
            let (p', res) = apply_fetch from_name parse stamped p fr in
            let dropped : Sweeper Raw × Option (SessionReconnect Raw) =
              (record w { retries = remove fr.sub_id w.retries }, none) in
            let landed = land_result env os cores from_name parse now stamped name fr p' res w in
            let whole = sound os name p e in
            let kept : IsWhole p' = record {
              valid = apply_fetch-IsValid from_name parse stamped p fr whole.valid;
              ids = apply_fetch-HasIds from_name parse stamped p fr whole.ids;
            } in
            rw (e, land_subscription_fetch)
              (elim (Bool-cases res.discarded) [
                | inl f ↦
                    subst (λ b. IsSound env.codec (if b then dropped else landed).0.manager.disk)
                      (sym f) sound
                | inr f ↦
                    subst (λ b. IsSound env.codec (if b then dropped else landed).0.manager.disk)
                      (sym f)
                      (land_result-IsSound os cores name fr p' res w from_name parse now stamped
                        kept sound)
              ])
      ]

  pin_core-IsSound :
      (os : Os) (cores : Cores) (given : Option String) (ref : String) (core : Option CoreType)
      (m : Manager Raw)
      → IsSound env.codec m.disk
      → IsSound env.codec (pin_core env os cores given ref core m).0.disk
  unfolding pin_core edit
  pin_core-IsSound os cores given ref core m sound =
      elim (Result-cases (resolve_profile_name env.codec os m.disk given)) [
        | inr (bad, e) ↦ rw (e, pin_core) sound
        | inl (name, e) ↦ elim (Result-cases (load_profile env.codec os m.disk name)) [
          | inr (bad, f) ↦ rw (e, f, pin_core) sound
          | inl (p, f) ↦ elim (Result-cases (set_node_prefs ref core p).1) [
            | inr (bad, g) ↦ rw (e, f, g, pin_core) sound
            | inl (reply, g) ↦
                let q = (set_node_prefs ref core p).0 in
                let m' = (session_reconnect env os cores name q m).0 in
                let decided =
                  same_profiles-IsSound env.codec law m.disk m'.disk
                    (session_reconnect-profiles env os cores name q m) sound in
                let after =
                  save_profile-IsSound env.codec law os name q m'.disk
                    (edit-IsKept env.codec (Verb.prefer ref core) m.disk (tt, λ os name p h. tt) os
                      name p f (sound os name p f))
                    decided in
                elim (Result-cases (save_profile env.codec os name q m'.disk).1) [
                  | inr (bad, k) ↦ rw (e, f, g, k, pin_core) after
                  | inl (u, k) ↦ rw (e, f, g, k, pin_core) after
                ]
          ]
        ]
      ]

  subscribe-IsSound :
      (os : Os) (hostname : String → String) (f : Fetching) (fresh : String) (now : ℕ)
      (req : Request Raw) (d : Disk Raw)
      → IsSound env.codec d
      → IsSound env.codec (on_add_subscription env.codec os hostname f fresh now req d).0
  unfolding on_add_subscription
  subscribe-IsSound os hostname f fresh now req d sound =
      elim (Result-cases (requested_sub hostname fresh now req)) [
        | inr (bad, e) ↦ rw (e, on_add_subscription) sound
        | inl (sub, e) ↦
            rw (e, on_add_subscription)
              (with_profile-IsSound env.codec law os req.profile (add_sub f sub) d
                (λ os' name p loaded whole. add_sub-IsWhole f sub p whole) sound)
      ]

  update-IsSound :
      (os : Os) (req : Request Raw) (d : Disk Raw)
      → ((os' : Os) (name : String) (p : Profile)
          → load_profile env.codec os' d name ≡ ok p
          → IsFreeUrl req (or_keep req.sub "") p)
      → IsSound env.codec d
      → IsSound env.codec (on_update_subscription env.codec os req d).0
  unfolding on_update_subscription
  update-IsSound os req d free sound = elim (Result-cases (required "sub" req.sub)) [
    | inr (bad, e) ↦ rw (e, on_update_subscription) sound
    | inl (ref, e) ↦ elim (Bool-cases (interval_ok req.update_interval_sec)) [
      | inr short ↦ rw (e, short, on_update_subscription) sound
      | inl long ↦
          rw (e, long, on_update_subscription)
            (with_profile-IsSound env.codec law os req.profile (update_subscription req ref) d
              (λ os' name p loaded whole.
                update_subscription-IsWhole req ref p
                  (subst (λ r. IsFreeUrl req r p) (sym (required-or_keep req.sub ref e))
                    (free os' name p loaded))
                  whole)
              sound)
    ]
  ]

  serve-IsSound :
      (os : Os) (cores : Cores) (call : Call Raw) (w : Sweeper Raw)
      → Admissible env call w
      → IsSound env.codec w.manager.disk
      → IsSound env.codec (serve env os cores call w).manager.disk
  unfolding serve on_refresh_subscriptions
  serve-IsSound os cores (verb given v) w unused sound =
      with_profile-IsSound env.codec law os given (edit v) w.manager.disk
        (edit-IsKept env.codec v w.manager.disk unused) sound
  serve-IsSound os cores (pin given ref core) w _ sound =
      pin_core-IsSound os cores given ref core w.manager sound
  serve-IsSound os cores (subscribe hostname f fresh now req) w _ sound =
      subscribe-IsSound os hostname f fresh now req w.manager.disk sound
  serve-IsSound os cores (refresh f req) w _ sound =
      with_profile-IsSound env.codec law os req.profile (refresh_subs f (or_keep req.sub ""))
        w.manager.disk
        (λ os' name p loaded whole. refresh_subs-IsWhole f (or_keep req.sub "") p whole) sound
  serve-IsSound os cores (update req) w free sound = update-IsSound os req w.manager.disk free sound
  serve-IsSound os cores (create name fresh) w named sound =
      create_profile-IsSound env.codec law os name fresh w.manager.disk named sound
  serve-IsSound os cores (delete name) w _ sound =
      delete_profile-IsSound env.codec law os name w.manager.disk sound
  serve-IsSound os cores (select name) w _ sound =
      same_profiles-IsSound env.codec law w.manager.disk _
        (set_active_profile-profiles env.codec os name w.manager.disk) sound
  serve-IsSound os cores (landing from_name parse now stamped name fr) w _ sound =
      landing-IsSound os cores name fr w from_name parse now stamped sound

  empty_disk-IsSound : IsSound env.codec empty_disk
  unfolding load_profile read_file file_at
  empty_disk-IsSound os name p h =
      let (u, checked, loaded) = >>=-eq-ok (check_name name) _ {out = p} h in
      let (raw, bytes, decoded) =
        >>=-eq-ok (read_file {Raw = Raw} os empty_disk (profile_file name)) _ {out = p} loaded in
      let (v, quiet_read, found) =
        >>=-eq-ok (attempt os read (profile_file name)) _ {out = raw} bytes in
      absurd (ground arith)

  Reach-IsWhole : {w : Sweeper Raw} → Reach env w → IsSound env.codec w.manager.disk
  Reach-IsWhole (start e) = rw e empty_disk-IsSound
  Reach-IsWhole (next r os cores call k e) =
      rw e (serve-IsSound os cores call _ k (Reach-IsWhole r))

  -- From an empty store on, whatever calls are served in whatever order, whatever of them fails, and
  -- whatever providers send: every profile that loads is valid. Three conditions: a new routing config
  -- gets an id that is not empty and that no stored config has; a new profile's routing config gets an
  -- id that is not empty; and `updateSubscription` is given a URL that no stored subscription has, or
  -- leaves that of the subscription it names as it is. The codec reads a profile back as the JSON methods do.
  pub Reach-IsSound :
      {w : Sweeper Raw}
      → Reach env w
      → (os : Os) (name : String) (p : Profile)
      → load_profile env.codec os w.manager.disk name ≡ ok p
      → IsValid p
  Reach-IsSound r os name p loaded = (Reach-IsWhole r os name p loaded).valid
