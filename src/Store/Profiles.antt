-- ===== src/Store/Profiles.antt =====
-- Profiles on disk, the active one among them, and the last session
-- (daemon-go/internal/store/store.go).
pub mod Saved
pub mod Spec
pub mod Complete
pub mod Untouched
use iron_link.Prelude.{
  ℕ, String, Bool, true, false, ◌&&◌, ◌==◌, ltb, Option, none, some, is_some, if◌then◌else◌, Result,
  ok, err, is_ok, ◌>>=◌, ◌>>◌, reject_if, of_option,
}
use iron_link.Api.Reply.{PersistedEntry}
use iron_link.Store.Name.{validate_name}
use iron_link.Store.Profile.{Profile, new_profile, normalize, migrate_subscription_intervals}
use iron_link.Store.Files.{
  FilePath, profile_file, state_file, last_session_file, Call, read, stat, Os, FileError, bad_name,
  when_missing, undecodable, pre_v2, already_exists, no_such_profile, Disk, Codec, at, file_at,
  read_file, delete_file, write_document,
}

unfoldable pub check_name : String → Result FileError (Unit {0})
check_name name = elim (validate_name name) [ err e ↦ err (bad_name e) | ok _ ↦ ok tt ]

-- What a decoded document of the given version becomes.
unfoldable pub upgrade : ℕ → Profile → Profile
upgrade version p = normalize (if ltb version 3 then migrate_subscription_intervals p else p)

module _ {Raw : Type 0} (c : Codec Raw) where
  unfoldable pub decode : String → Raw → Result FileError Profile
  unfolding upgrade
  decode name raw = do
    version ← at (undecodable (profile_file name)) (c.probe_version raw)
    reject_if (ltb version 2) (pre_v2 name version)
    p ← at (undecodable (profile_file name)) (c.decode_profile raw)
    ok (upgrade version p)

  unfoldable pub load_profile : Os → Disk Raw → String → Result FileError Profile
  unfolding check_name read_file decode
  load_profile os d name = do
    check_name name
    raw ← read_file os d (profile_file name)
    decode name raw

  unfoldable pub save_profile :
      Os → String → Profile → Disk Raw → Disk Raw × Result FileError (Unit {0})
  unfolding check_name write_document
  save_profile os name p d = elim (check_name name) [
    | err e ↦ (d, err e)
    | ok _ ↦ write_document os (profile_file name) (c.encode_profile (normalize p)) d
  ]

  -- `os.Stat` returns no error.
  unfoldable pub stat_ok : Os → Disk Raw → FilePath → Bool
  unfolding file_at
  stat_ok os d path = elim (os stat path) [ some _ ↦ false | none ↦ is_some (file_at d path) ]

  -- `fresh` is the id of the new profile's routing config.
  unfoldable pub create_profile :
      Os → String → String → Disk Raw → Disk Raw × Result FileError (Unit {0})
  unfolding check_name stat_ok save_profile
  create_profile os name fresh d = elim (check_name name) [
    | err e ↦ (d, err e)
    | ok _ ↦
        if stat_ok os d (profile_file name)
        then (d, err (already_exists name))
        else save_profile os name (new_profile name fresh) d
  ]

  unfoldable pub write_state :
      Os → Option String → Disk Raw → Disk Raw × Result FileError (Unit {0})
  unfolding write_document
  write_state os active d = write_document os state_file (c.encode_state active) d

  -- "" means that no profile is active.
  unfoldable pub active_profile_name : Os → Disk Raw → Result FileError String
  unfolding read_file when_missing
  active_profile_name os d = elim (read_file os d state_file) [
    | err e ↦ when_missing "" e
    | ok raw ↦ at (undecodable state_file) (c.decode_state raw) >>= λ active.
        ok (elim active [ none ↦ "" | some name ↦ name ])
  ]

  -- A selection that cannot be read is left alone.
  pub clear_active : Os → String → Disk Raw → Disk Raw × Result FileError (Unit {0})
  unfolding active_profile_name write_state
  clear_active os name d = elim (active_profile_name os d) [
    | err _ ↦ (d, ok tt)
    | ok active ↦ if active == name then write_state os none d else (d, ok tt)
  ]

  unfoldable pub delete_profile : Os → String → Disk Raw → Disk Raw × Result FileError (Unit {0})
  unfolding check_name delete_file clear_active
  delete_profile os name d = elim (check_name name) [
    | err e ↦ (d, err e)
    | ok _ ↦
        let (d', removed) = delete_file os (profile_file name) d in
        elim removed [ err e ↦ (d', err e) | ok _ ↦ clear_active os name d' ]
  ]

  unfoldable pub set_active_profile :
      Os → String → Disk Raw → Disk Raw × Result FileError (Unit {0})
  unfolding check_name stat_ok write_state
  set_active_profile os name d = elim (check_name name) [
    | err e ↦ (d, err e)
    | ok _ ↦
        if stat_ok os d (profile_file name)
        then write_state os (some name) d
        else (d, err (no_such_profile name))
  ]

  unfoldable pub save_last_session :
      Os → PersistedEntry → Disk Raw → Disk Raw × Result FileError (Unit {0})
  unfolding write_document
  save_last_session os context d = write_document os last_session_file (c.encode_session context) d

  unfoldable pub load_last_session : Os → Disk Raw → Result FileError (Option PersistedEntry)
  unfolding read_file when_missing
  load_last_session os d = elim (read_file os d last_session_file) [
    | err e ↦ when_missing none e
    | ok raw ↦
        at (undecodable last_session_file) (c.decode_session raw) >>= λ context. ok (some context)
  ]

  unfoldable pub clear_last_session : Os → Disk Raw → Disk Raw × Result FileError (Unit {0})
  unfolding delete_file when_missing
  clear_last_session os d =
      let (d', removed) = delete_file os last_session_file d in
      elim removed [ ok _ ↦ (d', ok tt) | err e ↦ (d', when_missing tt e) ]
