-- ===== src/Update/Check/Sound.antt =====
-- What stands behind an update that a check announces.
use iron_link.Prelude.{
  ◌≤◌, String, ◌≡◌, refl, sym, ap, ◌∙◌, ok-injective, Bool, true, false, not, ◌||◌, eq_iff, Option,
  some, List, [], ◌∷◌, arith, ltb, eqb, is_empty, Result, ok, err, Option-cases, Result-cases, inl,
  inr,
}
use iron_link.Update.Manifest.{is_positive}
use iron_link.Update.Version.{normalize_current_version}
use iron_link.Update.Verify.{Libs, TrustedKey, Verified, VerifyError, verify_manifest}
use iron_link.Update.Verify.Signed.{IsSigned, verify_manifest-IsSigned}
use iron_link.Update.Fetch.{fetch_manifest}
use iron_link.Update.Check.{
  SeqState, StoreOp, Clock, Checked, CheckError, soft_error, contains_id, channel_stable,
  advance_floor, commit, gates, announce, accept, check,
}
use iron_link.Update.Check.Floor.{retire_keys-last_seen_seq}

fetched-nonempty :
    (get : String → Option String) (urls : List String) (r : String × String)
    → fetch_manifest get urls ≡ some r
    → is_empty urls ≡ false
unfolding fetch_manifest
fetched-nonempty get [] r h = cc
fetched-nonempty get (url ∷ urls) r h = refl

module _ (libs : Libs) (fails : StoreOp → Bool) where
  pub record IsPassed (v : Verified libs) (st : SeqState) : Type 0 where
    pub unrevoked : contains_id st.revoked_key_ids v.key_id ≡ false
    pub stable : v.manifest.channel ≡ channel_stable
    pub not_older : st.last_seen_seq ≤ v.manifest.seq

  pub gates-IsPassed :
      (clock : Clock) (v : Verified libs) (st : SeqState)
      → gates libs fails clock v st ≡ ok tt
      → IsPassed v st
  unfolding gates
  gates-IsPassed clock v st h = record {
    unrevoked = ground arith;
    stable = ground (arith, eq_iff v.manifest.channel channel_stable);
    not_older = ground arith;
  }

  pub commit-last_seen_seq :
      (keys : List (TrustedKey libs)) (v : Verified libs) (st : SeqState)
      → (commit libs fails keys v st).1 ≡ ok tt
      → st.last_seen_seq ≤ v.manifest.seq
      → (commit libs fails keys v st).0.last_seen_seq ≡ v.manifest.seq
  unfolding commit advance_floor
  commit-last_seen_seq keys v st h le =
      ground (arith, retire_keys-last_seen_seq libs fails keys v st)

  -- Why an update is announced.
  pub record IsAnnounced (keys : List (TrustedKey libs)) (clock : Clock)
      (current_version json sig : String) (st st1 : SeqState) (res : Checked) : Type 0 where
    pub verified : Verified libs
    pub signed : IsSigned libs keys json sig verified
    pub passed : IsPassed verified st
    pub floor : st1.last_seen_seq ≡ verified.manifest.seq
    pub unexpired :
        (eqb verified.manifest.expires_at 0
          || not (ltb verified.manifest.expires_at clock.judged_at))
        ≡ true
    pub newer :
        is_positive (
          libs.compare_versions verified.manifest.version
            (normalize_current_version libs.valid current_version))
        ≡ true
    pub version : res.latest_version ≡ verified.manifest.version
    pub key : res.verified_key ≡ verified.key_name

  record IsOffered (clock : Clock) (current_version : String) (v : Verified libs) (res : Checked)
      : Type 0 where
    pub unexpired :
        (eqb v.manifest.expires_at 0 || not (ltb v.manifest.expires_at clock.judged_at)) ≡ true
    pub newer :
        is_positive (
          libs.compare_versions v.manifest.version
            (normalize_current_version libs.valid current_version))
        ≡ true
    pub version : res.latest_version ≡ v.manifest.version
    pub key : res.verified_key ≡ v.key_name

  announce-IsOffered :
      (clock : Clock) (current_version os arch : String) (v : Verified libs)
      → (announce libs fails clock current_version os arch v).available ≡ true
      → IsOffered clock current_version v (announce libs fails clock current_version os arch v)
  unfolding announce
  announce-IsOffered clock current_version os arch v h = record {
    unexpired = ground arith;
    newer = ground arith;
    version = ground arith;
    key = ground arith;
  }

  gates-unavailable :
      (clock : Clock) (v : Verified libs) (st : SeqState) (res : Checked)
      → gates libs fails clock v st ≡ err (ok res)
      → res.available ≡ false
  unfolding gates
  gates-unavailable clock v st res h = ground arith

  -- The three ways out of `accept`.
  module _ (keys : List (TrustedKey libs)) (clock : Clock) (current_version os arch : String)
      (v : Verified libs) (st : SeqState) where
    accept-early :
        (early : Result CheckError Checked)
        → gates libs fails clock v st ≡ err early
        → accept libs fails keys clock current_version os arch v st ≡ (st, early)
    unfolding accept
    accept-early early e = rw (e, accept) refl

    accept-uncommitted :
        (x : CheckError)
        → gates libs fails clock v st ≡ ok tt
        → (commit libs fails keys v st).1 ≡ err x
        → accept libs fails keys clock current_version os arch v st
          ≡ ((commit libs fails keys v st).0, err x)
    unfolding accept
    accept-uncommitted x e f = rw (e, f, accept) refl

    accept-passed :
        gates libs fails clock v st ≡ ok tt
        → (commit libs fails keys v st).1 ≡ ok tt
        → accept libs fails keys clock current_version os arch v st ≡ (
          (commit libs fails keys v st).0,
          ok (announce libs fails clock current_version os arch v),
        )
    unfolding accept
    accept-passed e f = rw (e, f, accept) refl

    accept-IsAnnounced :
        (json sig : String) (st1 : SeqState) (res : Checked)
        → IsSigned libs keys json sig v
        → accept libs fails keys clock current_version os arch v st ≡ (st1, ok res)
        → res.available ≡ true
        → IsAnnounced keys clock current_version json sig st st1 res
    accept-IsAnnounced json sig st1 res signed h a =
        elim (Result-cases (gates libs fails clock v st)) [
          | inr (early, e) ↦
              let out = ap (λ x. x.1) (sym (accept-early early e) ∙ h) in
              absurd (ground (arith, gates-unavailable clock v st res (e ∙ ap err out)))
          | inl (_, e) ↦ elim (Result-cases (commit libs fails keys v st).1) [
            | inr (x, f) ↦ absurd (cc (ap (λ x. x.1) (sym (accept-uncommitted x e f) ∙ h)))
            | inl (_, f) ↦
                let same = sym (accept-passed e f) ∙ h in
                let res_eq = ok-injective (ap (λ x. x.1) same) in
                let passed = gates-IsPassed clock v st e in
                let offered = announce-IsOffered clock current_version os arch v (rw res_eq a) in
                record {
                  verified = v;
                  signed = signed;
                  passed = passed;
                  floor =
                      ap (λ x. x.0.last_seen_seq) (sym same)
                      ∙ commit-last_seen_seq keys v st f passed.not_older;
                  unexpired = offered.unexpired;
                  newer = offered.newer;
                  version = rw (← res_eq) offered.version;
                  key = rw (← res_eq) offered.key;
                }
          ]
        ]

  soft_error-unavailable :
      (clock : Clock) (e : VerifyError) (res : Checked)
      → soft_error libs fails clock e ≡ ok res
      → res.available ≡ false
  unfolding soft_error
  soft_error-unavailable clock e res h = ground arith

  -- The ways out of `check` past the fetch.
  module _ (get : String → Option String) (urls : List String) (keys : List (TrustedKey libs))
      (clock : Clock) (current_version os arch json sig : String) (st : SeqState)
      (fetched : fetch_manifest get urls ≡ some (json, sig)) where
    check-refused :
        (e : VerifyError)
        → verify_manifest libs keys json sig ≡ err e
        → check libs fails get urls keys clock current_version os arch st
          ≡ (st, soft_error libs fails clock e)
    unfolding check
    check-refused e g = rw (fetched-nonempty get urls (json, sig) fetched, fetched, g, check) refl

    pub check-verified :
        (v : Verified libs)
        → verify_manifest libs keys json sig ≡ ok v
        → check libs fails get urls keys clock current_version os arch st
          ≡ accept libs fails keys clock current_version os arch v st
    unfolding check
    check-verified v g = rw (fetched-nonempty get urls (json, sig) fetched, fetched, g, check) refl

  -- An update that is announced was fetched from a mirror and signed, as it stands, by a trusted key
  -- that is not revoked, for the stable channel, with a number not below the floor, unexpired and
  -- newer than the running version; and its number is the new floor.
  pub check-IsAnnounced :
      (get : String → Option String) (urls : List String) (keys : List (TrustedKey libs))
      (clock : Clock) (current_version os arch : String) (st st1 : SeqState) (res : Checked)
      → check libs fails get urls keys clock current_version os arch st ≡ (st1, ok res)
      → res.available ≡ true
      → (json : String) × (sig : String) × (fetch_manifest get urls ≡ some (json, sig))
        × IsAnnounced keys clock current_version json sig st st1 res
  unfolding check
  check-IsAnnounced get urls keys clock current_version os arch st st1 res h a =
      elim (Option-cases (fetch_manifest get urls)) [
        | inl f ↦ absurd (ground arith)
        | inr ((json, sig), f) ↦ elim (Result-cases (verify_manifest libs keys json sig)) [
          | inr (e, g) ↦ absurd (
              ground (
                arith,
                soft_error-unavailable clock e res (
                    ap (λ x. x.1)
                      (sym (
                          check-refused get urls keys clock current_version os arch json sig st f e
                            g)
                        ∙ h)),
              ))
          | inl (v, g) ↦ (
            json,
            sig,
            f,
            accept-IsAnnounced keys clock current_version os arch v st json sig st1 res
                (verify_manifest-IsSigned libs keys json sig v g)
                (sym (check-verified get urls keys clock current_version os arch json sig st f v g)
                  ∙ h)
                a,
          )
        ]
      ]
