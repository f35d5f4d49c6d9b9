-- ===== src/Update/Check/Amid.antt =====
-- `Check` of daemon-go/internal/update/check.go among other checks: they share the store, and each
-- access of it stands alone. `others` is what the rest of the program makes of the state before an
-- access; the setters themselves are serialized (`stateMu` of seqstore.go).
pub mod Kept
use iron_link.Prelude.{
  ℕ, suc, ◌+◌, String, Bool, true, false, ◌==◌, ◌||◌, ◌≡◌, refl, Option, none, some, List, [], ◌∷◌,
  is_empty, is_ok, if◌then◌else◌, Result, ok, err, Option-cases, Result-cases, Bool-cases, inl, inr,
  arith,
}
use iron_link.Update.Verify.{Libs, TrustedKey, Verified, verify_manifest, key_recovery}
use iron_link.Update.Fetch.{fetch_manifest}
use iron_link.Update.Check.{
  CheckError, no_urls, all_mirrors_failed, Clock, Checked, SeqState, StoreOp, contains_id,
  revoke_key_id, advance_floor, gates, announce, soft_error,
}

-- The accesses of one check, in the order in which it makes them.
pub data Access : Type 0 where
  at_revoked at_seq : Access
  at_key : ℕ → Access
  at_floor : Access

module _ (libs : Libs) (fails : StoreOp → Bool) (others : Access → SeqState → SeqState) where
  -- The loop that retires the other keys, from its `n`-th write on.
  unfoldable pub revoke_amid :
      ℕ → List ℕ → List (TrustedKey libs) → SeqState → SeqState × Result CheckError (Unit {0})
  revoke_amid n revoked [] st = (st, ok tt)
  revoke_amid n revoked (k ∷ keys) st =
      let id = libs.id_of k.key in
      let (st1, r) = revoke_key_id libs fails id (others (at_key n) st) in
      let skipped = revoke_amid n revoked keys st in
      let later = revoke_amid (n + 1) revoked keys st1 in
      if k.name == key_recovery || contains_id revoked id
      then skipped
      else (elim r [ err e ↦ (st1, err e) | ok _ ↦ later ])

  unfoldable pub retire_amid :
      List ℕ
      → List (TrustedKey libs)
      → Verified libs
      → SeqState
      → SeqState × Result CheckError (Unit {0})
  unfolding revoke_amid
  retire_amid revoked keys v st =
      if v.key_name == key_recovery then revoke_amid 0 revoked keys st else (st, ok tt)

  -- The write of the floor that was read as `last`, and what is announced.
  unfoldable pub settle_amid :
      Clock
      → String
      → String
      → String
      → Verified libs
      → ℕ
      → SeqState
      → SeqState × Result CheckError Checked
  settle_amid clock current_version os arch v last st =
      let (st1, done) = advance_floor libs fails last v.manifest.seq (others at_floor st) in
      elim done [
        | err e ↦ (st1, err e)
        | ok _ ↦ (st1, ok (announce libs fails clock current_version os arch v))
      ]

  -- From the verified manifest on: the revoked ids and the floor are read one after the other, and
  -- what they were is used from then on.
  unfoldable pub accept_amid :
      List (TrustedKey libs)
      → Clock
      → String
      → String
      → String
      → Verified libs
      → SeqState
      → SeqState × Result CheckError Checked
  unfolding retire_amid settle_amid
  accept_amid keys clock current_version os arch v st =
      let st1 = others at_revoked st in
      let st2 = others at_seq st1 in
      let seen = record st1 { last_seen_seq = st2.last_seen_seq } in
      let (st3, retired) = retire_amid st1.revoked_key_ids keys v st2 in
      let settled = settle_amid clock current_version os arch v st2.last_seen_seq st3 in
      elim (gates libs fails clock v seen) [
        | err early ↦ (st2, early)
        | ok _ ↦ (elim retired [ err e ↦ (st3, err e) | ok _ ↦ settled ])
      ]

  unfoldable pub check_amid :
      (String → Option String)
      → List String
      → List (TrustedKey libs)
      → Clock
      → String
      → String
      → String
      → SeqState
      → SeqState × Result CheckError Checked
  unfolding accept_amid
  check_amid get urls keys clock current_version os arch st =
      if is_empty urls then (st, err no_urls) else (elim (fetch_manifest get urls) [
        | none ↦ (st, err all_mirrors_failed)
        | some (json, sig) ↦ (elim (verify_manifest libs keys json sig) [
          | err e ↦ (st, soft_error libs fails clock e)
          | ok v ↦ accept_amid keys clock current_version os arch v st
        ])
      ])
