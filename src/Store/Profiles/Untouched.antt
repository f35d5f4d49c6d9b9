-- ===== src/Store/Profiles/Untouched.antt =====
-- What the calls on the selection and a load touch of the profile files.
use iron_link.Prelude.{
  String, ◌≡◌, refl, ◌==◌, Option, none, Bool-cases, ok, Result-cases, Option-cases, inl, inr,
  lookup, >>=-eq-ok, arith,
}
use iron_link.Store.Profile.{Profile}
use iron_link.Store.Files.{
  Os, Disk, Codec, profile_file, state_file, write_document, atomic_write, put_file, write_temp,
  read, read_file, file_at,
}
use iron_link.Store.Profiles.{
  load_profile, write_state, active_profile_name, clear_active, check_name, stat_ok,
  set_active_profile,
}

module _ {Raw : Type 0} (c : Codec Raw) where
  write_state-profiles :
      (os : Os) (active : Option String) (d : Disk Raw)
      → (write_state c os active d).0.profiles ≡ d.profiles
  unfolding write_state write_document atomic_write put_file
  write_state-profiles os active d = elim (Result-cases (c.encode_state active)) [
    | inr (bad, e) ↦ rw (e, write_state, write_document) refl
    | inl (raw, e) ↦ elim (Result-cases (write_temp os state_file)) [
      | inr (bad, f) ↦ rw (e, f, write_state, write_document, atomic_write) refl
      | inl (u, f) ↦ rw (e, f, write_state, write_document, atomic_write) refl
    ]
  ]

  pub clear_active-profiles :
      (os : Os) (name : String) (d : Disk Raw) → (clear_active c os name d).0.profiles ≡ d.profiles
  unfolding clear_active
  clear_active-profiles os name d = elim (Result-cases (active_profile_name c os d)) [
    | inr (bad, e) ↦ rw (e, clear_active) refl
    | inl (active, e) ↦ elim (Bool-cases (active == name)) [
      | inl same ↦ rw (e, clear_active, same) (write_state-profiles os none d)
      | inr apart ↦ rw (e, clear_active, apart) refl
    ]
  ]

  pub set_active_profile-profiles :
      (os : Os) (name : String) (d : Disk Raw)
      → (set_active_profile c os name d).0.profiles ≡ d.profiles
  unfolding set_active_profile
  set_active_profile-profiles os name d = elim (Result-cases (check_name name)) [
    | inr (bad, e) ↦ rw (e, set_active_profile) refl
    | inl (u, e) ↦ elim (Bool-cases (stat_ok c os d (profile_file name))) [
      | inl there ↦ rw (e, set_active_profile, there) (write_state-profiles os (Option.some name) d)
      | inr gone ↦ rw (e, set_active_profile, gone) refl
    ]
  ]

  -- The load of a profile depends on its own file alone.
  pub load_profile-cong :
      (os : Os) (name : String) (d d' : Disk Raw)
      → lookup name d.profiles ≡ lookup name d'.profiles
      → load_profile c os d name ≡ load_profile c os d' name
  unfolding load_profile read_file file_at
  load_profile-cong os name d d' h = rw (h, load_profile, read_file, file_at) refl

  -- A load that succeeds reads the file.
  pub load_profile-reads :
      (os : Os) (name : String) (d : Disk Raw) (p : Profile)
      → load_profile c os d name ≡ ok p
      → os read (profile_file name) ≡ none
  unfolding load_profile read_file
  load_profile-reads os name d p h =
      let (u, checked, loaded) = >>=-eq-ok (check_name name) _ h in
      let (raw, bytes, decoded) = >>=-eq-ok (read_file os d (profile_file name)) _ loaded in
      elim (Option-cases (os read (profile_file name))) [
        | inl e ↦ e
        | inr (e, f) ↦ absurd (ground arith)
      ]
