-- ===== src/Update/Check.antt =====
-- `Check` of daemon-go/internal/update/check.go: fetch, verify, and the policy gates over the
-- persisted trust state. The transport, the store's faults and the clock are arguments: `get url` is
-- the body of a response with status 200, `fails op` says whether the store's operation fails.
pub mod Floor
pub mod Sound
pub mod History
pub mod Amid
use text.Mathlib.Text.{starts_with}
use Prim.Native.Char.{code}
use Prim.Native.String.{len}
use iron_link.Prelude.{
  ℕ, suc, ◌+◌, String, Bool, true, false, not, ◌||◌, ◌&&◌, ◌==◌, ◌++◌, Option, none, some, List, [],
  ◌∷◌, leb, ltb, eqb, if◌then◌else◌, find, any, is_empty, Result, ok, err, ◌>>◌, reject_if, ◌>>=◌,
}
use iron_link.Json.{ℤ}
use iron_link.Update.Manifest.{Manifest, Artifact, unsupported_schema, is_positive, kind_installer}
use iron_link.Update.Fetch.{fetch_manifest}
use iron_link.Update.Version.{normalize_current_version}
use iron_link.Update.Verify.{
  Libs, TrustedKey, Verified, VerifyError, manifest, verify_manifest, cut_prefix, key_recovery,
}

abbrev pub channel_stable : String
channel_stable = "stable"

-- What a `SeqStore` persists.
pub record SeqState : Type 0 where
  pub last_seen_seq : ℕ
  pub revoked_key_ids : List ℕ

-- Its operations that can fail.
pub data StoreOp : Type 0 where
  load_seq store_seq load_revoked : StoreOp
  store_revoked : ℕ → StoreOp

abbrev pub contains_id : List ℕ → ℕ → Bool
contains_id ids id = any (λ k. eqb k id) ids

pub data CheckError : Type 0 where
  no_urls all_mirrors_failed : CheckError
  not_verified : VerifyError → CheckError
  store_failed : StoreOp → CheckError
  revoked_key : ℕ → CheckError
  rollback : ℕ → ℕ → CheckError

-- The clock, read when the check is stamped and when the expiry is judged.
pub record Clock : Type 0 where
  pub checked_at : ℕ
  pub judged_at : ℕ

-- `Result` of the package.
pub record Checked : Type 0 where
  pub checked_at : ℕ
  pub available : Bool
  pub stale : Bool
  pub latest_version : String
  pub notes_url : String
  pub artifact : Option Artifact
  pub verified_key : String

unfoldable pub select_artifact : List Artifact → String → String → Option Artifact
select_artifact artifacts os arch = find (λ a. a.os == os && a.arch == arch) artifacts

-- `errors.Is(err, errUnsupportedSchema)`
abbrev is_unsupported : VerifyError → Bool
is_unsupported (manifest (unsupported_schema _)) = true
is_unsupported _ = false

module _ (libs : Libs) (fails : StoreOp → Bool) where
  -- `RevokeKeyID`; a revoked id is a no-op.
  unfoldable pub revoke_key_id : ℕ → SeqState → SeqState × Result CheckError (Unit {0})
  revoke_key_id id st =
      if fails (store_revoked id)
      then (st, err (store_failed (store_revoked id)))
      else if contains_id st.revoked_key_ids id
      then (st, ok tt)
      else (record st { revoked_key_ids = st.revoked_key_ids ++ id ∷ [] }, ok tt)

  -- The loop that retires every key but the recovery key, up to the first fault.
  unfoldable pub revoke_others :
      List ℕ → List (TrustedKey libs) → SeqState → SeqState × Result CheckError (Unit {0})
  revoke_others revoked [] st = (st, ok tt)
  revoke_others revoked (k ∷ keys) st =
      let id = libs.id_of k.key in
      let (st1, r) = revoke_key_id id st in
      let skipped = revoke_others revoked keys st in
      let later = revoke_others revoked keys st1 in
      if k.name == key_recovery || contains_id revoked id
      then skipped
      else (elim r [ err e ↦ (st1, err e) | ok _ ↦ later ])

  -- `SetLastSeenSeq` behind its test.
  unfoldable pub advance_floor : ℕ → ℕ → SeqState → SeqState × Result CheckError (Unit {0})
  advance_floor last seq st =
      if not (ltb last seq)
      then (st, ok tt)
      else if fails store_seq
      then (st, err (store_failed store_seq))
      else (record st { last_seen_seq = seq }, ok tt)

  -- The result before the policy gates.
  abbrev pub blank : Clock → String → Checked
  blank clock key = record {
    checked_at = clock.checked_at;
    available = false;
    stale = false;
    latest_version = "";
    notes_url = "";
    artifact = none;
    verified_key = key;
  }

  abbrev installer_only : Option Artifact → Option Artifact
  installer_only none = none
  installer_only (some a) = if a.kind == kind_installer then some a else none

  -- What is announced of an accepted manifest.
  unfoldable pub announce : Clock → String → String → String → Verified libs → Checked
  announce clock current_version os arch v =
      let m = v.manifest in
      let res = record (blank clock v.key_name) {
        latest_version = m.version;
        notes_url = m.notes_url;
      } in
      let current = normalize_current_version libs.valid current_version in
      if not (eqb m.expires_at 0) && ltb m.expires_at clock.judged_at
      then record res { stale = true }
      else if current == ""
      then res
      else if not (is_positive (libs.compare_versions m.version current))
      then res
      else record res {
        available = true;
        artifact = installer_only (select_artifact m.artifacts os arch);
      }

  -- An authentic manifest of another schema is no failure.
  unfoldable pub soft_error : Clock → VerifyError → Result CheckError Checked
  soft_error clock e = if is_unsupported e then ok (blank clock "") else err (not_verified e)

  -- The policy gates that return early, in order, with what each returns.
  unfoldable pub gates :
      Clock → Verified libs → SeqState → Result (Result CheckError Checked) (Unit {0})
  gates clock v st = do
    reject_if (fails load_revoked) (err (store_failed load_revoked))
    reject_if (contains_id st.revoked_key_ids v.key_id) (err (revoked_key v.key_id))
    reject_if (not (v.manifest.channel == channel_stable)) (ok (blank clock v.key_name))
    reject_if (fails load_seq) (err (store_failed load_seq))
    reject_if (ltb v.manifest.seq st.last_seen_seq) (err (rollback v.manifest.seq st.last_seen_seq))

  -- A recovery signature retires the other keys.
  unfoldable pub retire_keys :
      List (TrustedKey libs) → Verified libs → SeqState → SeqState × Result CheckError (Unit {0})
  retire_keys keys v st =
      if v.key_name == key_recovery then revoke_others st.revoked_key_ids keys st else (st, ok tt)

  -- Past the gates: the revocations, then the floor.
  unfoldable pub commit :
      List (TrustedKey libs) → Verified libs → SeqState → SeqState × Result CheckError (Unit {0})
  commit keys v st =
      let (st1, retired) = retire_keys keys v st in
      elim retired [
        | err e ↦ (st1, err e)
        | ok _ ↦ advance_floor st.last_seen_seq v.manifest.seq st1
      ]

  -- From the verified manifest on.
  unfoldable pub accept :
      List (TrustedKey libs)
      → Clock
      → String
      → String
      → String
      → Verified libs
      → SeqState
      → SeqState × Result CheckError Checked
  accept keys clock current_version os arch v st =
      let (st1, committed) = commit keys v st in
      elim (gates clock v st) [
        | err early ↦ (st, early)
        | ok _ ↦ (elim committed [
          | err e ↦ (st1, err e)
          | ok _ ↦ (st1, ok (announce clock current_version os arch v))
        ])
      ]

  -- The whole check as one step: what it is when no other check touches the store between its
  -- accesses. Among others it is `check_amid`.
  unfoldable pub check :
      (String → Option String)
      → List String
      → List (TrustedKey libs)
      → Clock
      → String
      → String
      → String
      → SeqState
      → SeqState × Result CheckError Checked
  check get urls keys clock current_version os arch st =
      if is_empty urls then (st, err no_urls) else (elim (fetch_manifest get urls) [
        | none ↦ (st, err all_mirrors_failed)
        | some (json, sig) ↦ (elim (verify_manifest libs keys json sig) [
          | err e ↦ (st, soft_error clock e)
          | ok v ↦ accept keys clock current_version os arch v st
        ])
      ])
