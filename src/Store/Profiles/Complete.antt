-- ===== src/Store/Profiles/Complete.antt =====
-- Saving and loading, and the calls on a system where nothing fails.
use iron_link.Prelude.{
  String, true, ◌≡◌, refl, ◌∙◌, Option, none, some, Result, ok, err, is_ok, lookup-insert, arith,
  eq_refl, Result-cases, inl, inr,
}
use iron_link.Store.Name.{validate_name}
use iron_link.Store.Profile.{Profile, normalize, new_profile}
use iron_link.Store.Files.{
  Os, attempt, quiet, read, FilePath, profile_file, state_file, Disk, Codec, IsCodec, file_at,
  put_file, drop_file, read_file, delete_file, write_document, atomic_write, write_temp,
}
use iron_link.Store.Profiles.{
  check_name, load_profile, save_profile, create_profile, delete_profile, set_active_profile,
  write_state, clear_active, stat_ok,
}
use iron_link.Store.Profiles.Spec.{
  Operation, save, create, delete, select, run, view, IsAllowed, promise, saved,
}
use iron_link.Store.Profiles.Saved.{save_profile-cases, decode-encode_profile, run-Refines}

read_file-ok :
    {Raw : Type 0} (os : Os) (d : Disk Raw) (path : FilePath) (raw : Raw)
    → os read path ≡ none
    → file_at d path ≡ some raw
    → read_file os d path ≡ ok raw
unfolding read_file
read_file-ok os d path raw h k = rw (read_file, attempt, h, k) refl

module _ {Raw : Type 0} (c : Codec Raw) where
  -- A profile that was saved is loaded as the JSON methods read it back.
  pub load_profile-save_profile :
      (law : IsCodec c) (os os' : Os) (name : String) (p : Profile) (d d' : Disk Raw)
      → save_profile c os name p d ≡ (d', ok tt)
      → os' read (profile_file name) ≡ none
      → load_profile c os' d' name ≡ ok (saved law.rereading p)
  unfolding load_profile check_name file_at put_file
  load_profile-save_profile law os os' name p d d' h quiet_read =
      elim (save_profile-cases c law os name p d) [
        | inr (e, w) ↦ cc
        | inl (raw, v, e, w) ↦ elim (Result-cases (validate_name name)) [
          | inr (bad, r) ↦ cc
          | inl (v', r) ↦
              let same : d' ≡ put_file (profile_file name) raw d = cc in
              let there : file_at d' (profile_file name) ≡ some raw =
                rw same (lookup-insert name name raw d.profiles ∙ rw (eq_refl name) refl) in
              rw
                (
                  load_profile,
                  check_name,
                  r,
                  read_file-ok os' d' (profile_file name) raw quiet_read there,
                )
                (decode-encode_profile c law name p raw e)
        ]
      ]

  module _ (profiles : (p : Profile) → is_ok (c.encode_profile p) ≡ true)
      (states : (a : Option String) → is_ok (c.encode_state a) ≡ true) where
    document_ok :
        (path : FilePath) (encoded : Result String Raw) (d : Disk Raw)
        → is_ok encoded ≡ true
        → is_ok (write_document quiet path encoded d).1 ≡ true
    unfolding write_document atomic_write write_temp
    document_ok path (ok raw) d h = refl
    document_ok path (err e) d h = cc

    -- Where no call of the operating system fails and every document encodes, whatever is allowed
    -- returns no error.
    is_ok-run :
        (op : Operation) (d : Disk Raw)
        → IsAllowed op (view c d)
        → is_ok (run c quiet op d).1 ≡ true
    unfolding run save_profile create_profile delete_profile set_active_profile check_name stat_ok
        delete_file clear_active write_state file_at
    is_ok-run (save name p) d a =
        let written =
          document_ok (profile_file name) (c.encode_profile (normalize p)) d
            (profiles (normalize p)) in
        ground (arith, a.valid)
    is_ok-run (create name fresh) d a =
        let p = normalize (new_profile name fresh) in
        let written = document_ok (profile_file name) (c.encode_profile p) d (profiles p) in
        ground (arith, a.valid, a.present)
    is_ok-run (delete name) d a =
        let left = drop_file (profile_file name) d in
        let written = document_ok state_file (c.encode_state none) left (states none) in
        ground (arith, a.valid, a.present)
    is_ok-run (select name) d a =
        let written = document_ok state_file (c.encode_state (some name)) d (states (some name)) in
        ground (arith, a.valid, a.present)

    -- Where no call of the operating system fails and every document encodes, whatever is allowed
    -- returns no error and has done what it promises: the documents and the selection that a reader
    -- then finds are the promised ones. A profile is found as the JSON methods read it back.
    pub run_complete :
        (law : IsCodec c) (op : Operation) (d : Disk Raw)
        → IsAllowed op (view c d)
        → (d' : Disk Raw) × (run c quiet op d ≡ (d', ok tt))
          × (view c d' ≡ promise law.rereading op (view c d))
    run_complete law op d a =
        let done = is_ok-run op d a in
        elim (run-Refines c law quiet (record { reads = refl; stats = λ path. refl }) op d) [
          | inl (d', ran, allowed, kept) ↦ (d', ran, kept)
          | inr (e, inl failed) ↦ absurd (ground (arith, done, failed))
          | inr (e, inr (deletes, failed)) ↦ absurd (ground (arith, done, failed))
        ]
