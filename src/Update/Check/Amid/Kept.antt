-- ===== src/Update/Check/Amid/Kept.antt =====
-- Revoked keys under a check among others, and a check that no other touches.
use iron_link.Prelude.{
  ℕ, ◌+◌, String, Bool, true, false, ◌==◌, ◌||◌, ◌≡◌, refl, Option, some, List, [], ◌∷◌, is_ok,
  is_empty, ok, Option-cases, Result-cases, Bool-cases, inl, inr, arith,
}
use iron_link.Update.Verify.{Libs, TrustedKey, Verified, verify_manifest, key_recovery}
use iron_link.Update.Fetch.{fetch_manifest}
use iron_link.Update.Check.{
  Clock, SeqState, StoreOp, load_revoked, contains_id, revoke_key_id, advance_floor, gates,
}
use iron_link.Update.Check.Floor.{revoke_key_id-IsForward}
use iron_link.Update.Check.Amid.{
  Access, at_revoked, at_seq, at_key, at_floor, revoke_amid, retire_amid, settle_amid, accept_amid,
  check_amid,
}

-- Every key that is revoked in the first state is revoked in the second.
abbrev pub StaysRevoked : SeqState → SeqState → Type 0
StaysRevoked st st1 =
    (id : ℕ) → contains_id st.revoked_key_ids id ≡ true → contains_id st1.revoked_key_ids id ≡ true

module _ (libs : Libs) (fails : StoreOp → Bool) (others : Access → SeqState → SeqState) where
  module _ (others_keep : (a : Access) (st : SeqState) → StaysRevoked st (others a st)) where
    revoke_amid-StaysRevoked :
        (n : ℕ) (revoked : List ℕ) (keys : List (TrustedKey libs)) (st : SeqState)
        → StaysRevoked st (revoke_amid libs fails others n revoked keys st).0
    unfolding revoke_amid
    revoke_amid-StaysRevoked n revoked [] st = λ id h. h
    revoke_amid-StaysRevoked n revoked (k ∷ keys) st =
        let key = libs.id_of k.key in
        let before = others (at_key n) st in
        let written = revoke_key_id-IsForward libs fails key before in
        let once : StaysRevoked st (revoke_key_id libs fails key before).0 =
          λ id h. written.revoked id (others_keep (at_key n) st id h) in
        elim (Bool-cases (k.name == key_recovery || contains_id revoked key)) [
          | inl e ↦ rw e (revoke_amid-StaysRevoked n revoked keys st)
          | inr e ↦ elim (Result-cases (revoke_key_id libs fails key before).1) [
            | inl (_, o) ↦
                rw (e, o)
                  (λ id h.
                    revoke_amid-StaysRevoked (n + 1) revoked keys
                      (revoke_key_id libs fails key before).0 id (once id h))
            | inr (_, o) ↦ rw (e, o) once
          ]
        ]

    retire_amid-StaysRevoked :
        (revoked : List ℕ) (keys : List (TrustedKey libs)) (v : Verified libs) (st : SeqState)
        → StaysRevoked st (retire_amid libs fails others revoked keys v st).0
    unfolding retire_amid
    retire_amid-StaysRevoked revoked keys v st = elim (Bool-cases (v.key_name == key_recovery)) [
      | inl e ↦ rw (e, retire_amid) (revoke_amid-StaysRevoked 0 revoked keys st)
      | inr e ↦ rw (e, retire_amid) (λ id h. h)
    ]

    settle_amid-StaysRevoked :
        (clock : Clock) (current_version os arch : String) (v : Verified libs) (last : ℕ)
        (st : SeqState)
        → StaysRevoked st (settle_amid libs fails others clock current_version os arch v last st).0
    unfolding settle_amid advance_floor
    settle_amid-StaysRevoked clock current_version os arch v last st id h =
        let kept = others_keep at_floor st id h in ground (arith, kept)

    accept_amid-StaysRevoked :
        (keys : List (TrustedKey libs)) (clock : Clock) (current_version os arch : String)
        (v : Verified libs) (st : SeqState)
        → StaysRevoked st (accept_amid libs fails others keys clock current_version os arch v st).0
    unfolding accept_amid
    accept_amid-StaysRevoked keys clock current_version os arch v st id h =
        let st1 = others at_revoked st in
        let st2 = others at_seq st1 in
        let seen : SeqState = record st1 { last_seen_seq = st2.last_seen_seq } in
        let retired = retire_amid libs fails others st1.revoked_key_ids keys v st2 in
        let k2 = others_keep at_seq st1 id (others_keep at_revoked st id h) in
        let k3 = retire_amid-StaysRevoked st1.revoked_key_ids keys v st2 id k2 in
        elim (Result-cases (gates libs fails clock v seen)) [
          | inr (early, e) ↦ rw (accept_amid, e) k2
          | inl (u, e) ↦ elim (Result-cases retired.1) [
            | inr (bad, f) ↦ rw (accept_amid, e, f) k3
            | inl (u', f) ↦
                rw (accept_amid, e, f)
                  (settle_amid-StaysRevoked clock current_version os arch v st2.last_seen_seq
                    retired.0 id k3)
          ]
        ]

    -- However other checks interleave with the accesses of this one, a key that is revoked before it is
    -- revoked after it, whatever the mirrors serve and the store refuses, if the others take no key
    -- off the revoked ones. The same is not so of the floor.
    pub check_amid-StaysRevoked :
        (get : String → Option String) (urls : List String) (keys : List (TrustedKey libs))
        (clock : Clock) (current_version os arch : String) (st : SeqState)
        → StaysRevoked st
            (check_amid libs fails others get urls keys clock current_version os arch st).0
    unfolding check_amid
    check_amid-StaysRevoked get urls keys clock current_version os arch st id h =
        elim (Bool-cases (is_empty urls)) [
          | inl e ↦ rw (check_amid, e) h
          | inr e ↦ elim (Option-cases (fetch_manifest get urls)) [
            | inl f ↦ rw (check_amid, e, f) h
            | inr ((json, sig), f) ↦ elim (Result-cases (verify_manifest libs keys json sig)) [
              | inr (bad, g) ↦ rw (check_amid, e, f, g) h
              | inl (v, g) ↦
                  rw (check_amid, e, f, g)
                    (accept_amid-StaysRevoked keys clock current_version os arch v st id h)
            ]
          ]
        ]

    -- A manifest that verifies is refused when the key that signed it was revoked before the check,
    -- however other checks interleave with the accesses of this one, if they take no key off the
    -- revoked ones.
    pub check_amid_refused :
        (get : String → Option String) (urls : List String) (keys : List (TrustedKey libs))
        (clock : Clock) (current_version os arch : String) (st : SeqState) (json sig : String)
        (v : Verified libs)
        → contains_id st.revoked_key_ids v.key_id ≡ true
        → fetch_manifest get urls ≡ some (json, sig)
        → verify_manifest libs keys json sig ≡ ok v
        → is_ok (check_amid libs fails others get urls keys clock current_version os arch st).1
          ≡ false
    unfolding check_amid accept_amid gates
    check_amid_refused get urls keys clock current_version os arch st json sig v h fetched
          verified =
        let kept = others_keep at_revoked st v.key_id h in
        elim (Bool-cases (is_empty urls)) [
          | inl e ↦ rw (check_amid, e) refl
          | inr e ↦ elim (Bool-cases (fails load_revoked)) [
            | inl bad ↦ rw (check_amid, e, fetched, verified, accept_amid, gates, bad) refl
            | inr fine ↦ rw (check_amid, e, fetched, verified, accept_amid, gates, fine, kept) refl
          ]
        ]

-- The rest of the program leaves the store alone.
abbrev pub alone : Access → SeqState → SeqState
alone a st = st
