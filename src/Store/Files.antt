-- ===== src/Store/Files.antt =====
-- The store's files (daemon-go/internal/store/store.go). `Raw` is the bytes of a file; what
-- encoding/json does is a `Codec`, and what the operating system answers to a call is an `Os`, both
-- arguments. The three kinds of file never share a path: a profile's name is a file name of its own
-- directory.
use iron_link.Prelude.{
  ℕ, String, ◌≡◌, Option, none, some, List, [], Result, ok, err, ok-injective, ◌>>◌, of_option,
  lookup, insert, remove,
}
use iron_link.Json.{ℤ}
use iron_link.Store.Name.{NameError}
use iron_link.Store.Profile.{Profile}
use iron_link.Store.Reread.{Rereading, reread}
use iron_link.Api.Settings.{Settings}
use iron_link.Api.Reply.{PersistedEntry}

pub data FilePath : Type 0 where
  profile_file : String → FilePath
  state_file last_session_file settings_file : FilePath

-- The system calls; those of `atomicWrite` in its order.
pub data Call : Type 0 where
  read stat remove_file : Call
  mkdir_all create_temp chmod write sync close rename : Call

-- The text of the error, where the call fails for another reason than a missing file.
abbrev pub Os : Type 0
Os = Call → FilePath → Option String

-- No call fails.
abbrev pub quiet : Os
quiet call path = none

-- What `ValidateSettings` finds wrong.
pub data SettingsError : Type 0 where
  unknown_log_level unknown_ip_version unknown_dns_strategy unknown_dns_type :
      String → SettingsError
  no_dns_server no_user_agent : SettingsError
  bad_dns_address bad_cidr unknown_tun_stack bad_probe_url : String → SettingsError
  port_out_of_range mtu_out_of_range budget_out_of_range : ℤ → SettingsError

pub data FileError : Type 0 where
  bad_name : NameError → FileError
  not_exist : FilePath → FileError
  failed : Call → FilePath → String → FileError
  undecodable unencodable : FilePath → String → FileError
  pre_v2 : String → ℕ → FileError
  already_exists no_such_profile : String → FileError
  bad_settings : SettingsError → FileError

pub record Disk (Raw : Type 0) : Type 0 where
  pub profiles : List (String × Raw)
  pub state : Option Raw
  pub last_session : Option Raw
  pub settings : Option Raw

abbrev pub empty_disk : {Raw : Type 0} → Disk Raw
empty_disk = record { profiles = []; state = none; last_session = none; settings = none }

-- Go's encoding of the documents; `decode_settings` decodes over a base document.
pub record Codec (Raw : Type 0) : Type 0 where
  pub encode_profile : Profile → Result String Raw
  pub decode_profile : Raw → Result String Profile
  pub probe_version : Raw → Result String ℕ
  pub encode_state : Option String → Result String Raw
  pub decode_state : Raw → Result String (Option String)
  pub encode_session : PersistedEntry → Result String Raw
  pub decode_session : Raw → Result String PersistedEntry
  pub encode_settings : Settings → Result String Raw
  pub decode_settings : Settings → Raw → Result String Settings

-- What the store relies on: a profile that is encoded is decoded to what `reread` makes of it, and the
-- other documents to themselves.
pub record IsCodec {Raw : Type 0} (c : Codec Raw) : Type 0 where
  pub rereading : Rereading
  pub profile :
      (p : Profile) (raw : Raw)
      → c.encode_profile p ≡ ok raw
      → c.decode_profile raw ≡ ok (reread rereading p)
  pub version :
      (p : Profile) (raw : Raw)
      → c.encode_profile p ≡ ok raw
      → c.probe_version raw ≡ ok p.schema_version
  pub state :
      (a : Option String) (raw : Raw) → c.encode_state a ≡ ok raw → c.decode_state raw ≡ ok a
  pub session :
      (e : PersistedEntry) (raw : Raw) → c.encode_session e ≡ ok raw → c.decode_session raw ≡ ok e
  pub settings :
      (base s : Settings) (raw : Raw)
      → c.encode_settings s ≡ ok raw
      → c.decode_settings base raw ≡ ok s

-- The error of one call, if any.
abbrev pub attempt : Os → Call → FilePath → Result FileError (Unit {0})
attempt os call path = elim (os call path) [ none ↦ ok tt | some e ↦ err (failed call path e) ]

-- An error's text, under the name of the file.
abbrev pub at {ℓ} : {A : Type ℓ} → (String → FileError) → Result String A → Result FileError A
at wrap (ok a) = ok a
at wrap (err e) = err (wrap e)

-- The temporary file stands beside the old one until the rename, and is gone after an error.
unfoldable pub write_temp : Os → FilePath → Result FileError (Unit {0})
write_temp os path = do
  attempt os mkdir_all path
  attempt os create_temp path
  attempt os chmod path
  attempt os write path
  attempt os sync path
  attempt os close path
  attempt os rename path

-- A missing file stands for the given value.
unfoldable pub when_missing {ℓ} : {A : Type ℓ} → A → FileError → Result FileError A
when_missing a (not_exist _) = ok a
when_missing a e = err e

pub when_missing-ok {ℓ} : {A : Type ℓ} (a b : A) (e : FileError) → when_missing a e ≡ ok b → a ≡ b
unfolding when_missing
when_missing-ok a b (not_exist _) h = ok-injective h
when_missing-ok a b e h = cc

module _ {Raw : Type 0} where
  unfoldable pub file_at : Disk Raw → FilePath → Option Raw
  file_at d (profile_file name) = lookup name d.profiles
  file_at d state_file = d.state
  file_at d last_session_file = d.last_session
  file_at d settings_file = d.settings

  unfoldable pub put_file : FilePath → Raw → Disk Raw → Disk Raw
  put_file (profile_file name) raw d = record d { profiles = insert name raw d.profiles }
  put_file state_file raw d = record d { state = some raw }
  put_file last_session_file raw d = record d { last_session = some raw }
  put_file settings_file raw d = record d { settings = some raw }

  unfoldable pub drop_file : FilePath → Disk Raw → Disk Raw
  drop_file (profile_file name) d = record d { profiles = remove name d.profiles }
  drop_file state_file d = record d { state = none }
  drop_file last_session_file d = record d { last_session = none }
  drop_file settings_file d = record d { settings = none }

  -- `os.ReadFile`
  unfoldable pub read_file : Os → Disk Raw → FilePath → Result FileError Raw
  unfolding file_at
  read_file os d path = do attempt os read path; of_option (not_exist path) (file_at d path)

  -- `os.Remove`
  unfoldable pub delete_file : Os → FilePath → Disk Raw → Disk Raw × Result FileError (Unit {0})
  unfolding file_at drop_file
  delete_file os path d =
      elim (attempt os remove_file path >> of_option (not_exist path) (file_at d path)) [
        | err e ↦ (d, err e)
        | ok _ ↦ (drop_file path d, ok tt)
      ]

  unfoldable pub atomic_write :
      Os → FilePath → Raw → Disk Raw → Disk Raw × Result FileError (Unit {0})
  unfolding write_temp put_file
  atomic_write os path raw d = elim (write_temp os path) [
    | err e ↦ (d, err e)
    | ok _ ↦ (put_file path raw d, ok tt)
  ]

  -- `json.Marshal` and `atomicWrite`
  unfoldable pub write_document :
      Os → FilePath → Result String Raw → Disk Raw → Disk Raw × Result FileError (Unit {0})
  unfolding atomic_write
  write_document os path encoded d = elim encoded [
    | err e ↦ (d, err (unencodable path e))
    | ok raw ↦ atomic_write os path raw d
  ]
