-- ===== src/Update/Tests.antt =====
-- A mirror with one manifest, and the theorems on checks at it.
use iron_link.Prelude.{
  ℕ, ◌≤◌, String, ◌≡◌, refl, ap, sym, Bool, true, false, ◌||◌, ◌==◌, Option, none, some, List, [],
  ◌∷◌, ok, is_ok, All,
}
use iron_link.Json.{pos}
use iron_link.Update.Manifest.{Manifest, check_manifest, check_artifacts, valid_version}
use iron_link.Update.Verify.{
  Libs, TrustedKey, Verified, key_current, key_recovery, verify_manifest, parse_manifest,
  cross_check, parse_trusted_comment,
}
use iron_link.Update.Verify.Signed.{IsSigned, verify_manifest-IsSigned}
use iron_link.Update.Version.{normalize_current_version}
use iron_link.Update.Fetch.{fetch_manifest, fetch_one}
use iron_link.Update.Check.{
  SeqState, StoreOp, Clock, Checked, contains_id, check, accept, gates, commit, retire_keys,
  revoke_others, revoke_key_id, advance_floor, announce, select_artifact,
}
use iron_link.Update.Check.Sound.{IsAnnounced, check-IsAnnounced}
use iron_link.Update.Check.Amid.{Access, check_amid}
use iron_link.Update.Check.Amid.Kept.{StaysRevoked, check_amid-StaysRevoked, check_amid_refused}
use iron_link.Update.Check.History.{Later, check-no_downgrade, check-revoked, commit-IsRetired}

abbrev a_manifest : Manifest
a_manifest = record {
  schema = pos 1;
  seq = 7;
  channel = "stable";
  version = "v1.2.3";
  min_version = "";
  published_at = 0;
  expires_at = 0;
  notes_url = "";
  artifacts = [];
}

-- Keys are numbers, which sign every text; a signature's text is its trusted comment.
abbrev pub some_libs : Libs
some_libs = record {
  PublicKey = ℕ;
  id_of = λ k. k;
  hash_ed_dsa = 1;
  decode_signature = λ s. some (record { algorithm = 1; key_id = 9; trusted_comment = s });
  verify = λ k m s. true;
  decode_manifest = λ s. some a_manifest;
  valid = λ v. v == "v1.2.3" || v == "v1.0.0";
  canonical = λ v. v;
  compare_versions = λ v w. pos 1;
}

abbrev both_keys : List (TrustedKey some_libs)
both_keys =
    (record { name = key_current; key = 5 }) ∷ (record { name = key_recovery; key = 9 }) ∷ []

abbrev mirror : String → Option String
mirror url = some "version=v1.2.3 seq=7"

abbrev mirrors : List String
mirrors = "https://a.example/update.json" ∷ []

abbrev a_clock : Clock
a_clock = record { checked_at = 100; judged_at = 100 }

abbrev no_faults : StoreOp → Bool
no_faults op = false

abbrev first_state : SeqState
first_state = record { last_seen_seq = 3; revoked_key_ids = [] }

abbrev next_state : SeqState
next_state = record { last_seen_seq = 7; revoked_key_ids = 5 ∷ [] }

abbrev the_result : Checked
the_result = record {
  checked_at = 100;
  available = true;
  stale = false;
  latest_version = "v1.2.3";
  notes_url = "";
  artifact = none;
  verified_key = key_recovery;
}

abbrev the_verified : Verified some_libs
the_verified = record { manifest = a_manifest; key_name = key_recovery; key_id = 9 }

fetched : fetch_manifest mirror mirrors ≡ some ("version=v1.2.3 seq=7", "version=v1.2.3 seq=7")
unfolding fetch_manifest fetch_one
fetched = refl

verified :
    verify_manifest some_libs both_keys "version=v1.2.3 seq=7" "version=v1.2.3 seq=7"
    ≡ ok the_verified
unfolding verify_manifest parse_manifest cross_check parse_trusted_comment check_manifest
    check_artifacts valid_version
verified = refl

checked :
    check some_libs no_faults mirror mirrors both_keys a_clock "v1.0.0" "linux" "amd64" first_state
    ≡ (next_state, ok the_result)
unfolding check fetch_manifest fetch_one verify_manifest parse_manifest cross_check
    parse_trusted_comment check_manifest check_artifacts valid_version accept gates commit
    retire_keys revoke_others revoke_key_id advance_floor announce normalize_current_version
    select_artifact
checked = refl

verify_manifest-IsSigned_example :
    IsSigned some_libs both_keys "version=v1.2.3 seq=7" "version=v1.2.3 seq=7" the_verified
verify_manifest-IsSigned_example =
    verify_manifest-IsSigned some_libs both_keys "version=v1.2.3 seq=7" "version=v1.2.3 seq=7"
      the_verified verified

check-IsAnnounced_example :
    (json : String) × (sig : String) × (fetch_manifest mirror mirrors ≡ some (json, sig))
    × IsAnnounced some_libs no_faults both_keys a_clock "v1.0.0" json sig first_state next_state
        the_result
check-IsAnnounced_example =
    check-IsAnnounced some_libs no_faults mirror mirrors both_keys a_clock "v1.0.0" "linux" "amd64"
      first_state next_state the_result checked refl

-- The state after the check, and the same check again.
checked_again :
    check some_libs no_faults mirror mirrors both_keys a_clock "v1.0.0" "linux" "amd64" next_state
    ≡ (next_state, ok the_result)
unfolding check fetch_manifest fetch_one verify_manifest parse_manifest cross_check
    parse_trusted_comment check_manifest check_artifacts valid_version accept gates commit
    retire_keys revoke_others revoke_key_id advance_floor announce normalize_current_version
    select_artifact
checked_again = refl

later : Later some_libs first_state next_state
later =
    Later.next Later.here no_faults mirror mirrors both_keys a_clock "v1.0.0" "linux" "amd64"
      (ap (λ r. r.0) (sym checked))

check-no_downgrade_example :
    (v : Verified some_libs) × (json : String) × (sig : String) × IsSigned some_libs both_keys json
      sig v
    × (first_state.last_seen_seq ≤ v.manifest.seq)
    × (the_result.latest_version ≡ v.manifest.version)
check-no_downgrade_example =
    check-no_downgrade some_libs no_faults mirror mirrors both_keys a_clock "v1.0.0" "linux" "amd64"
      first_state next_state next_state the_result later checked_again refl

-- A state in which the recovery key itself is revoked.
abbrev revoked_state : SeqState
revoked_state = record { last_seen_seq = 3; revoked_key_ids = 9 ∷ [] }

check-revoked_example :
    (is_ok
        (check some_libs no_faults mirror mirrors both_keys a_clock "v1.0.0" "linux" "amd64"
          revoked_state).1
      ≡ false)
    × ((check some_libs no_faults mirror mirrors both_keys a_clock "v1.0.0" "linux" "amd64"
          revoked_state).0
        ≡ revoked_state)
check-revoked_example =
    check-revoked some_libs no_faults mirror mirrors both_keys a_clock "v1.0.0" "linux" "amd64"
      revoked_state revoked_state "version=v1.2.3 seq=7" "version=v1.2.3 seq=7" the_verified
      Later.here refl fetched verified

commit-IsRetired_example :
    All
      (λ k.
        (k.name == key_recovery
          || contains_id
              (commit some_libs no_faults both_keys the_verified first_state).0.revoked_key_ids
              k.key)
        ≡ true)
      both_keys
unfolding commit retire_keys revoke_others revoke_key_id advance_floor
commit-IsRetired_example =
    commit-IsRetired some_libs no_faults both_keys the_verified first_state refl refl

-- Another check raises the floor whenever it may.
abbrev rival : Access → SeqState → SeqState
rival a st = record st { last_seen_seq = 20 }

check_amid-StaysRevoked_example :
    StaysRevoked revoked_state
      (check_amid some_libs no_faults rival mirror mirrors both_keys a_clock "v1.0.0" "linux"
        "amd64" revoked_state).0
check_amid-StaysRevoked_example =
    check_amid-StaysRevoked some_libs no_faults rival (λ a st id h. h) mirror mirrors both_keys
      a_clock "v1.0.0" "linux" "amd64" revoked_state

check_amid_refused_example :
    is_ok
      (check_amid some_libs no_faults rival mirror mirrors both_keys a_clock "v1.0.0" "linux"
        "amd64" revoked_state).1
    ≡ false
check_amid_refused_example =
    check_amid_refused some_libs no_faults rival (λ a st id h. h) mirror mirrors both_keys a_clock
      "v1.0.0" "linux" "amd64" revoked_state "version=v1.2.3 seq=7" "version=v1.2.3 seq=7"
      the_verified refl fetched verified
