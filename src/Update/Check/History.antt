-- ===== src/Update/Check/History.antt =====
-- Sequences of checks: what an accepted manifest rules out afterwards.
use iron_link.Prelude.{
  ℕ, ◌≤◌, String, ◌≡◌, refl, sym, ap, subst, eq_iff, ◌∙◌, Bool, true, false, ◌||◌, ◌==◌, Option,
  some, List, [], ◌∷◌, arith, eqb, any-append, Result, ok, err, is_ok, All, Bool-cases,
  Result-cases, inl, inr,
}
use iron_link.Update.Verify.{Libs, TrustedKey, Verified, key_recovery, verify_manifest}
use iron_link.Update.Verify.Signed.{IsSigned}
use iron_link.Update.Fetch.{fetch_manifest}
use iron_link.Update.Check.{
  SeqState, StoreOp, load_revoked, Clock, Checked, CheckError, store_failed, revoked_key,
  contains_id, revoke_key_id, revoke_others, advance_floor, retire_keys, commit, gates, accept,
  check,
}
use iron_link.Update.Check.Floor.{
  IsForward, IsForward-refl, IsForward-trans, check-IsForward, revoke_others-IsForward,
  revoke_key_id-IsForward,
}
use iron_link.Update.Check.Sound.{check-IsAnnounced, check-verified}

-- The states that checks lead to that run one after the other, each with its own mirrors, faults,
-- keys and clock.
pub data Later (libs : Libs) : SeqState → SeqState → Type 0 where
  here : {st : SeqState} → Later libs st st
  next :
      {a b c : SeqState}
      → Later libs a b
      → (fails : StoreOp → Bool) (get : String → Option String) (urls : List String)
        (keys : List (TrustedKey libs)) (clock : Clock) (current_version os arch : String)
      → c ≡ (check libs fails get urls keys clock current_version os arch b).0
      → Later libs a c

Later-IsForward : (libs : Libs) {a b : SeqState} → Later libs a b → IsForward a b
Later-IsForward libs (here {st}) = IsForward-refl st
Later-IsForward libs (next {a} {b} r fails get urls keys clock current_version os arch e) = rw e (
    IsForward-trans a b _ (Later-IsForward libs r)
      (check-IsForward libs fails get urls keys clock current_version os arch b))

module _ (libs : Libs) (fails : StoreOp → Bool) (get : String → Option String) (urls : List String)
    (keys : List (TrustedKey libs)) (clock : Clock) (current_version os arch : String) where
  -- No downgrade, where the checks run one after the other and each touches the store alone: however
  -- many lie between, an update that is announced later is signed by a trusted key under a number that
  -- is not below the floor that was reached before. Checks that overlap are not covered.
  pub check-no_downgrade :
      (a b c : SeqState) (res : Checked)
      → Later libs a b
      → check libs fails get urls keys clock current_version os arch b ≡ (c, ok res)
      → res.available ≡ true
      → (v : Verified libs) × (json : String) × (sig : String) × IsSigned libs keys json sig v
        × (a.last_seen_seq ≤ v.manifest.seq)
        × (res.latest_version ≡ v.manifest.version)
  check-no_downgrade a b c res r h available =
      let (json, sig, _, x) =
        check-IsAnnounced libs fails get urls keys clock current_version os arch b c res h
          available in
      let forward = Later-IsForward libs r in
      (x.verified, json, sig, x.signed, omega (arith, forward.floor, x.passed.not_older), x.version)

  gates-revoked :
      (v : Verified libs) (st : SeqState)
      → contains_id st.revoked_key_ids v.key_id ≡ true
      → (x : CheckError) × (gates libs fails clock v st ≡ err (err x))
  unfolding gates
  gates-revoked v st h = elim (Bool-cases (fails load_revoked)) [
    | inl e ↦ (store_failed load_revoked, ground arith)
    | inr e ↦ (revoked_key v.key_id, ground arith)
  ]

  -- Once a key is revoked, a manifest that it signed and that verifies fails every later check, and the
  -- check leaves the trust state as it is. A manifest of an unsupported schema does not verify, and is
  -- no failure. The checks run one after the other.
  pub check-revoked :
      (a b : SeqState) (json sig : String) (v : Verified libs)
      → Later libs a b
      → contains_id a.revoked_key_ids v.key_id ≡ true
      → fetch_manifest get urls ≡ some (json, sig)
      → verify_manifest libs keys json sig ≡ ok v
      → (is_ok (check libs fails get urls keys clock current_version os arch b).1 ≡ false)
        × ((check libs fails get urls keys clock current_version os arch b).0 ≡ b)
  unfolding accept
  check-revoked a b json sig v r h fetched verified =
      let forward = Later-IsForward libs r in
      let (x, e) = gates-revoked v b (forward.revoked v.key_id h) in
      rw
        (
          check-verified libs fails get urls keys clock current_version os arch json sig b fetched v
              verified,
          e,
          accept,
        )
        (refl, refl)

-- After the recovery key.
module _ (libs : Libs) (fails : StoreOp → Bool) where
  abbrev IsRetired : SeqState → TrustedKey libs → Type 0
  IsRetired st k =
      (k.name == key_recovery || contains_id st.revoked_key_ids (libs.id_of k.key)) ≡ true

  revoke_key_id-contains :
      (id : ℕ) (st : SeqState)
      → (revoke_key_id libs fails id st).1 ≡ ok tt
      → contains_id (revoke_key_id libs fails id st).0.revoked_key_ids id ≡ true
  unfolding revoke_key_id
  revoke_key_id-contains id st h =
      ground (arith, any-append (λ k. eqb k id) st.revoked_key_ids (id ∷ []))

  -- One round of the loop over the keys.
  module _ (revoked : List ℕ) (k : TrustedKey libs) (keys : List (TrustedKey libs))
      (st : SeqState) where
    skip_key :
        (k.name == key_recovery || contains_id revoked (libs.id_of k.key)) ≡ true
        → revoke_others libs fails revoked (k ∷ keys) st ≡ revoke_others libs fails revoked keys st
    unfolding revoke_others
    skip_key e = rw (e, revoke_others) refl

    retire_key :
        (k.name == key_recovery || contains_id revoked (libs.id_of k.key)) ≡ false
        → (revoke_key_id libs fails (libs.id_of k.key) st).1 ≡ ok tt
        → revoke_others libs fails revoked (k ∷ keys) st
          ≡ revoke_others libs fails revoked keys (revoke_key_id libs fails (libs.id_of k.key) st).0
    unfolding revoke_others
    retire_key e o = rw (e, o, revoke_others) refl

    stop_at_key :
        (x : CheckError)
        → (k.name == key_recovery || contains_id revoked (libs.id_of k.key)) ≡ false
        → (revoke_key_id libs fails (libs.id_of k.key) st).1 ≡ err x
        → (revoke_others libs fails revoked (k ∷ keys) st).1 ≡ err x
    unfolding revoke_others
    stop_at_key x e o = rw (e, o, revoke_others) refl

  revoke_others-IsRetired :
      (revoked : List ℕ) (keys : List (TrustedKey libs)) (st : SeqState)
      → ((id : ℕ) → contains_id revoked id ≡ true → contains_id st.revoked_key_ids id ≡ true)
      → (revoke_others libs fails revoked keys st).1 ≡ ok tt
      → All (IsRetired (revoke_others libs fails revoked keys st).0) keys
  revoke_others-IsRetired revoked [] st known h = tt
  revoke_others-IsRetired revoked (k ∷ keys) st known h =
      let id = libs.id_of k.key in
      let st1 = (revoke_key_id libs fails id st).0 in
      elim (Bool-cases (k.name == key_recovery || contains_id revoked id)) [
        | inl e ↦
            let same = skip_key revoked k keys st e in
            subst (λ (r : SeqState × Result CheckError (Unit {0})). All (IsRetired r.0) (k ∷ keys))
              (sym same)
              (
                ground (
                  arith,
                  known id,
                  (revoke_others-IsForward libs fails revoked keys st).revoked id,
                ),
                revoke_others-IsRetired revoked keys st known (ap (λ r. r.1) (sym same) ∙ h),
              )
        | inr e ↦ elim (Result-cases (revoke_key_id libs fails id st).1) [
          | inl (_, o) ↦
              let same = retire_key revoked k keys st e o in
              subst
                (λ (r : SeqState × Result CheckError (Unit {0})). All (IsRetired r.0) (k ∷ keys))
                (sym same)
                (
                  ground (
                    arith,
                    (revoke_others-IsForward libs fails revoked keys st1).revoked id
                        (revoke_key_id-contains id st o),
                  ),
                  revoke_others-IsRetired revoked keys st1
                      (λ a m. (revoke_key_id-IsForward libs fails id st).revoked a (known a m))
                      (ap (λ r. r.1) (sym same) ∙ h),
                )
          | inr (x, o) ↦ absurd (cc (stop_at_key revoked k keys st x e o, h))
        ]
      ]

  commit-retire_keys :
      (keys : List (TrustedKey libs)) (v : Verified libs) (st : SeqState)
      → (commit libs fails keys v st).1 ≡ ok tt
      → ((retire_keys libs fails keys v st).1 ≡ ok tt)
        × ((commit libs fails keys v st).0.revoked_key_ids
            ≡ (retire_keys libs fails keys v st).0.revoked_key_ids)
  unfolding commit advance_floor
  commit-retire_keys keys v st h = (ground arith, ground arith)

  retire_keys-recovery :
      (keys : List (TrustedKey libs)) (v : Verified libs) (st : SeqState)
      → v.key_name ≡ key_recovery
      → retire_keys libs fails keys v st ≡ revoke_others libs fails st.revoked_key_ids keys st
  unfolding retire_keys
  retire_keys-recovery keys v st name =
      rw ((eq_iff v.key_name key_recovery).1 name, retire_keys) refl

  -- Once a manifest that the recovery key signed is committed with no fault of the store, every other
  -- trusted key is revoked.
  pub commit-IsRetired :
      (keys : List (TrustedKey libs)) (v : Verified libs) (st : SeqState)
      → v.key_name ≡ key_recovery
      → (commit libs fails keys v st).1 ≡ ok tt
      → All
          (λ k.
            (k.name == key_recovery
              || contains_id (commit libs fails keys v st).0.revoked_key_ids (libs.id_of k.key))
            ≡ true)
          keys
  commit-IsRetired keys v st name h =
      let (retired, same) = commit-retire_keys keys v st h in
      let all_others = retire_keys-recovery keys v st name in
      subst
        (λ ids.
          All (λ k. (k.name == key_recovery || contains_id ids (libs.id_of k.key)) ≡ true) keys)
        (ap (λ r. r.0.revoked_key_ids) (sym all_others) ∙ sym same)
        (revoke_others-IsRetired st.revoked_key_ids keys st (λ id m. m)
          (ap (λ r. r.1) (sym all_others) ∙ retired))
