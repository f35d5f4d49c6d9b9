-- ===== src/Store/FileTests.antt =====
-- Profiles and settings on a disk in memory.
use iron_link.Prelude.{◌≡◌, ◌↔◌, refl, none, some, [], ◌∷◌, ok}
use iron_link.Store.Name.{validate_name}
use iron_link.Store.Profile.{Profile, new_profile}
use iron_link.Store.Files.{Disk, quiet, read_file, file_at}
use iron_link.Store.Profiles.{decode}
use iron_link.Store.Profiles.Spec.{Operation, run, Refines, view, promise}
use iron_link.Store.Profiles.Saved.{run-Refines}
use iron_link.Store.Profiles.Complete.{run_complete}
use iron_link.Store.Settings.{default_settings, load_settings, validate_settings}
use iron_link.Store.Settings.Accepted.{
  IsAccepted, IsNet, validate_settings_iff, load_settings-IsAccepted,
}
use iron_link.Store.Sample.{
  Bytes, plain, plain-IsCodec, as_written, few_texts, profile_bytes, state_bytes,
}

abbrev home : Profile
home = new_profile "home" "r1"

-- One profile, and it is the active one.
abbrev a_disk : Disk Bytes
a_disk = record {
  profiles = ("home", profile_bytes home) ∷ [];
  state = some (state_bytes (some "home"));
  last_session = none;
  settings = none;
}

run-Refines_example : Refines plain as_written quiet (Operation.delete "home") a_disk
run-Refines_example =
    run-Refines plain plain-IsCodec quiet (record { reads = refl; stats = λ path. refl })
      (Operation.delete "home") a_disk

run_complete_example :
    (d' : Disk Bytes) × (run plain quiet (Operation.delete "home") a_disk ≡ (d', ok tt))
    × (view plain d' ≡ promise as_written (Operation.delete "home") (view plain a_disk))
unfolding validate_name decode
run_complete_example =
    run_complete plain (λ p. refl) (λ a. refl) plain-IsCodec (Operation.delete "home") a_disk
      (record { valid = refl; present = refl })

validate_settings_iff_example :
    (validate_settings few_texts (default_settings "linux") ≡ ok tt)
    ↔ IsAccepted few_texts (default_settings "linux")
validate_settings_iff_example = validate_settings_iff few_texts (default_settings "linux")

texts_parse : IsNet few_texts
texts_parse = record {
  address = refl;
  link_local = refl;
  ula = refl;
  link_local6 = refl;
  url = refl;
}

load_settings-IsAccepted_example : IsAccepted few_texts (default_settings "linux")
unfolding load_settings read_file file_at
load_settings-IsAccepted_example =
    load_settings-IsAccepted few_texts plain "linux" quiet a_disk (default_settings "linux")
      texts_parse refl
