-- ===== src/Update/Check/Floor.antt =====
-- What a check does to the persisted state, whatever the mirrors serve and the store refuses.
use iron_link.Prelude.{
  ℕ, ◌≤◌, String, ◌≡◌, refl, sym, Bool, true, ◌||◌, ◌==◌, Option, List, [], ◌∷◌, arith, eqb,
  is_empty, any-append, Bool-cases, Option-cases, Result-cases, inl, inr,
}
use iron_link.Update.Verify.{Libs, TrustedKey, Verified, key_recovery, verify_manifest}
use iron_link.Update.Fetch.{fetch_manifest}
use iron_link.Update.Check.{
  SeqState, StoreOp, Clock, contains_id, revoke_key_id, revoke_others, advance_floor, retire_keys,
  commit, gates, accept, check,
}

-- The state moves forward: the floor does not sink and no key is accepted again.
pub record IsForward (st st1 : SeqState) : Type 0 where
  pub floor : st.last_seen_seq ≤ st1.last_seen_seq
  pub revoked :
      (id : ℕ)
      → contains_id st.revoked_key_ids id ≡ true
      → contains_id st1.revoked_key_ids id ≡ true

pub IsForward-refl : (st : SeqState) → IsForward st st
IsForward-refl st = record { floor = omega arith; revoked = λ id h. h }

pub IsForward-trans : (a b c : SeqState) → IsForward a b → IsForward b c → IsForward a c
IsForward-trans a b c f g = record {
  floor = omega (arith, f.floor, g.floor);
  revoked = λ id h. g.revoked id (f.revoked id h);
}

module _ (libs : Libs) (fails : StoreOp → Bool) where
  pub revoke_key_id-IsForward :
      (id : ℕ) (st : SeqState) → IsForward st (revoke_key_id libs fails id st).0
  unfolding revoke_key_id
  revoke_key_id-IsForward id st = record {
    floor = ground arith;
    revoked = λ a h. ground (arith, any-append (λ k. eqb k a) st.revoked_key_ids (id ∷ []));
  }

  pub revoke_others-IsForward :
      (revoked : List ℕ) (keys : List (TrustedKey libs)) (st : SeqState)
      → IsForward st (revoke_others libs fails revoked keys st).0
  unfolding revoke_others
  revoke_others-IsForward revoked [] st = IsForward-refl st
  revoke_others-IsForward revoked (k ∷ keys) st =
      elim (Bool-cases (k.name == key_recovery || contains_id revoked (libs.id_of k.key))) [
        | inl e ↦ rw e (revoke_others-IsForward revoked keys st)
        | inr e ↦ elim (Result-cases (revoke_key_id libs fails (libs.id_of k.key) st).1) [
          | inl (_, o) ↦
              rw (e, o)
                (IsForward-trans st (revoke_key_id libs fails (libs.id_of k.key) st).0 _
                  (revoke_key_id-IsForward (libs.id_of k.key) st)
                  (revoke_others-IsForward revoked keys
                    (revoke_key_id libs fails (libs.id_of k.key) st).0))
          | inr (_, o) ↦ rw (e, o) (revoke_key_id-IsForward (libs.id_of k.key) st)
        ]
      ]

  pub advance_floor-IsForward :
      (last seq : ℕ) (st : SeqState)
      → last ≡ st.last_seen_seq
      → IsForward st (advance_floor libs fails last seq st).0
  unfolding advance_floor
  advance_floor-IsForward last seq st h = record {
    floor = ground arith;
    revoked = λ a k. ground arith;
  }

  revoke_others-last_seen_seq :
      (revoked : List ℕ) (keys : List (TrustedKey libs)) (st : SeqState)
      → (revoke_others libs fails revoked keys st).0.last_seen_seq ≡ st.last_seen_seq
  unfolding revoke_others revoke_key_id
  revoke_others-last_seen_seq revoked [] st = refl
  revoke_others-last_seen_seq revoked (k ∷ keys) st = ground (
    arith,
    revoke_others-last_seen_seq revoked keys st,
    revoke_others-last_seen_seq revoked keys (revoke_key_id libs fails (libs.id_of k.key) st).0,
  )

  pub retire_keys-last_seen_seq :
      (keys : List (TrustedKey libs)) (v : Verified libs) (st : SeqState)
      → (retire_keys libs fails keys v st).0.last_seen_seq ≡ st.last_seen_seq
  unfolding retire_keys
  retire_keys-last_seen_seq keys v st =
      ground (arith, revoke_others-last_seen_seq st.revoked_key_ids keys st)

  retire_keys-IsForward :
      (keys : List (TrustedKey libs)) (v : Verified libs) (st : SeqState)
      → IsForward st (retire_keys libs fails keys v st).0
  unfolding retire_keys
  retire_keys-IsForward keys v st = elim (Bool-cases (v.key_name == key_recovery)) [
    | inl e ↦ rw e (revoke_others-IsForward st.revoked_key_ids keys st)
    | inr e ↦ rw e (IsForward-refl st)
  ]

  pub commit-IsForward :
      (keys : List (TrustedKey libs)) (v : Verified libs) (st : SeqState)
      → IsForward st (commit libs fails keys v st).0
  unfolding commit
  commit-IsForward keys v st =
      let st1 = (retire_keys libs fails keys v st).0 in
      let first = retire_keys-IsForward keys v st in
      elim (Result-cases (retire_keys libs fails keys v st).1) [
        | inl (_, e) ↦
            rw (e, commit)
              (IsForward-trans st st1 _ first (
                advance_floor-IsForward st.last_seen_seq v.manifest.seq st1
                  (sym (retire_keys-last_seen_seq keys v st))))
        | inr (_, e) ↦ rw (e, commit) first
      ]

  accept-IsForward :
      (keys : List (TrustedKey libs)) (clock : Clock) (current_version os arch : String)
      (v : Verified libs) (st : SeqState)
      → IsForward st (accept libs fails keys clock current_version os arch v st).0
  unfolding accept
  accept-IsForward keys clock current_version os arch v st =
      elim (Result-cases (gates libs fails clock v st)) [
        | inr (_, e) ↦ rw (e, accept) (IsForward-refl st)
        | inl (_, e) ↦ elim (Result-cases (commit libs fails keys v st).1) [
          | inl (_, f) ↦ rw (e, f, accept) (commit-IsForward keys v st)
          | inr (_, f) ↦ rw (e, f, accept) (commit-IsForward keys v st)
        ]
      ]

  -- A check that no other touches moves the trust state forward only, whatever the mirrors serve, whichever operations of
  -- the store fail, and whether it succeeds: the anti-downgrade floor never sinks, and a revoked key
  -- stays revoked.
  pub check-IsForward :
      (get : String → Option String) (urls : List String) (keys : List (TrustedKey libs))
      (clock : Clock) (current_version os arch : String) (st : SeqState)
      → IsForward st (check libs fails get urls keys clock current_version os arch st).0
  unfolding check
  check-IsForward get urls keys clock current_version os arch st =
      elim (Bool-cases (is_empty urls)) [
        | inl e ↦ rw e (IsForward-refl st)
        | inr e ↦ elim (Option-cases (fetch_manifest get urls)) [
          | inl f ↦ rw (e, f) (IsForward-refl st)
          | inr ((json, sig), f) ↦ elim (Result-cases (verify_manifest libs keys json sig)) [
            | inl (v, g) ↦ rw (e, f, g) (accept-IsForward keys clock current_version os arch v st)
            | inr (x, g) ↦ rw (e, f, g) (IsForward-refl st)
          ]
        ]
      ]
