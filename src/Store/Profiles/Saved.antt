-- ===== src/Store/Profiles/Saved.antt =====
-- The calls of the store, case by case, against what it promises.
use iron_link.Prelude.{
  List, String, true, ◌==◌, ◌≡◌, refl, sym, ap, ◌∙◌, fun_ext, eq_iff, Option, none, some, is_some,
  Result, ok, err, is_ok, lookup, insert, remove, lookup-insert, lookup-remove, Bool-cases,
  Option-cases, Result-cases, ◌⊎◌, inl, inr,
}
use iron_link.Store.Name.{validate_name}
use iron_link.Store.Profile.{Profile, normalize, new_profile}
use iron_link.Store.Reread.{reread}
use iron_link.Store.Files.{
  Os, file_at, quiet, attempt, remove_file, not_exist, already_exists, no_such_profile, FilePath,
  state_file, profile_file, FileError, bad_name, Disk, Codec, IsCodec, write_document, atomic_write,
  write_temp, put_file, drop_file, read_file, delete_file,
}
use iron_link.Store.Profiles.{
  decode, upgrade, save_profile, write_state, active_profile_name, check_name, stat_ok,
  clear_active, create_profile, set_active_profile, delete_profile,
}
use iron_link.Store.Profiles.Spec.{
  Operation, save, create, delete, select, run, Document, document_of, Shelf, view, put, deselect,
  promise, IsSteady, Refines, saved,
}

module _ {Raw : Type 0} (c : Codec Raw) (law : IsCodec c) where
  -- A normalized profile is decoded to what it is read back as.
  pub decode-encode_profile :
      (name : String) (p : Profile) (raw : Raw)
      → c.encode_profile (normalize p) ≡ ok raw
      → decode c name raw ≡ ok (saved law.rereading p)
  unfolding decode upgrade normalize reread
  decode-encode_profile name p raw h =
      rw (law.version (normalize p) raw h, law.profile (normalize p) raw h) refl

  -- A document lands whole, or the disk is as it was.
  write_document-cases :
      (os : Os) (path : FilePath) (encoded : Result String Raw) (d : Disk Raw)
      → ((raw : Raw) × (encoded ≡ ok raw)
          × (write_document os path encoded d ≡ (put_file path raw d, ok tt)))
        ⊎ ((e : FileError) × (write_document os path encoded d ≡ (d, err e)))
  unfolding write_document atomic_write
  write_document-cases os path (err e) d = inr (_, refl)
  write_document-cases os path (ok raw) d = elim (Result-cases (write_temp os path)) [
    | inl (v, e) ↦ inl (raw, refl, rw (e, write_document, atomic_write) refl)
    | inr (e, h) ↦ inr (e, rw (h, write_document, atomic_write) refl)
  ]

  pub save_profile-cases :
      (os : Os) (name : String) (p : Profile) (d : Disk Raw)
      → ((raw : Raw) × (is_ok (validate_name name) ≡ true)
          × (c.encode_profile (normalize p) ≡ ok raw)
          × (save_profile c os name p d ≡ (put_file (profile_file name) raw d, ok tt)))
        ⊎ ((e : FileError) × (save_profile c os name p d ≡ (d, err e)))
  unfolding save_profile check_name
  save_profile-cases os name p d = elim (Result-cases (validate_name name)) [
    | inr (e, h) ↦ inr (bad_name e, rw (h, save_profile, check_name) refl)
    | inl (v, h) ↦
        elim (write_document-cases os (profile_file name) (c.encode_profile (normalize p)) d) [
          | inl (raw, e, w) ↦ inl (raw, rw h refl, e, rw (h, save_profile, check_name) w)
          | inr (e, w) ↦ inr (e, rw (h, save_profile, check_name) w)
        ]
  ]

  document-insert :
      (name other : String) (raw : Raw) (m : List (String × Raw))
      → document_of c other (lookup other (insert name raw m))
        ≡ put name (some (decode c name raw)) (λ n. document_of c n (lookup n m)) other
  document-insert name other raw m = elim (Bool-cases (name == other)) [
    | inr e ↦ rw (lookup-insert name other raw m, e) refl
    | inl e ↦
        let same = (eq_iff name other).0 e in
        rw (lookup-insert name other raw m, e)
          (ap (λ (n : String). some (decode c n raw)) (sym same))
  ]

  document-remove :
      (name other : String) (m : List (String × Raw))
      → document_of c other (lookup other (remove name m))
        ≡ put name none (λ n. document_of c n (lookup n m)) other
  document-remove name other m = elim (Bool-cases (name == other)) [
    | inr e ↦ rw (lookup-remove name other m, e) refl
    | inl e ↦ rw (lookup-remove name other m, e) refl
  ]

  -- The view of a disk with one more document.
  view-put_profile :
      (name : String) (raw : Raw) (d : Disk Raw)
      → view c (put_file (profile_file name) raw d)
        ≡ record (view c d) { document = put name (some (decode c name raw)) (view c d).document }
  unfolding put_file active_profile_name read_file file_at
  view-put_profile name raw d =
      ap (λ (f : String → Document). record (view c d) { document = f })
        (fun_ext λ other. document-insert name other raw d.profiles)

  view-drop_profile :
      (name : String) (d : Disk Raw)
      → view c (drop_file (profile_file name) d)
        ≡ record (view c d) { document = put name none (view c d).document }
  unfolding drop_file active_profile_name read_file file_at
  view-drop_profile name d =
      ap (λ (f : String → Document). record (view c d) { document = f })
        (fun_ext λ other. document-remove name other d.profiles)

  view-put_state :
      (active : Option String) (raw : Raw) (d : Disk Raw)
      → c.encode_state active ≡ ok raw
      → view c (put_file state_file raw d)
        ≡ record (view c d) { active = ok (elim active [ none ↦ "" | some name ↦ name ]) }
  unfolding put_file active_profile_name read_file file_at
  view-put_state active raw d h = rw (law.state active raw h) refl

  check_name-cases :
      (name : String)
      → ((is_ok (validate_name name) ≡ true) × (check_name name ≡ ok tt))
        ⊎ ((e : FileError) × (check_name name ≡ err e))
  unfolding check_name
  check_name-cases name = elim (Result-cases (validate_name name)) [
    | inl (v, h) ↦ inl (rw h refl, rw (h, check_name) refl)
    | inr (e, h) ↦ inr (bad_name e, rw (h, check_name) refl)
  ]

  delete_file-cases :
      (os : Os) (path : FilePath) (d : Disk Raw)
      → ((raw : Raw) × (file_at d path ≡ some raw)
          × (delete_file os path d ≡ (drop_file path d, ok tt)))
        ⊎ ((e : FileError) × (delete_file os path d ≡ (d, err e)))
  unfolding delete_file
  delete_file-cases os path d = elim (Result-cases (attempt os remove_file path)) [
    | inr (e, h) ↦ inr (e, rw (h, delete_file) refl)
    | inl (v, h) ↦ elim (Option-cases (file_at d path)) [
      | inl lost ↦ inr (not_exist path, rw (delete_file, h, lost) refl)
      | inr (raw, there) ↦ inl (raw, there, rw (delete_file, h, there) refl)
    ]
  ]

  module _ (os : Os) (steady : IsSteady os) where
    save-Refines :
        (name : String) (p : Profile) (d : Disk Raw) → Refines c law.rereading os (save name p) d
    unfolding run promise
    save-Refines name p d = elim (save_profile-cases os name p d) [
      | inr (e, w) ↦ inr (e, inl w)
      | inl (raw, v, e, w) ↦ inl (
        put_file (profile_file name) raw d,
        w,
        record { valid = v; present = tt },
        rw (view-put_profile name raw d, decode-encode_profile name p raw e) refl,
      )
    ]

    present-stat :
        (d : Disk Raw) (name : String)
        → stat_ok c os d (profile_file name) ≡ is_some ((view c d).document name)
    unfolding stat_ok file_at
    present-stat d name = elim (Option-cases (lookup name d.profiles)) [
      | inl e ↦ rw (steady.stats (profile_file name), stat_ok, e) refl
      | inr (raw, e) ↦ rw (steady.stats (profile_file name), stat_ok, e) refl
    ]

    create-Refines :
        (name fresh : String) (d : Disk Raw) → Refines c law.rereading os (create name fresh) d
    unfolding run promise create_profile
    create-Refines name fresh d = elim (check_name-cases name) [
      | inr (e, w) ↦ inr (e, inl (rw (w, create_profile) refl))
      | inl (v, w) ↦ elim (Bool-cases (stat_ok c os d (profile_file name))) [
        | inl there ↦ inr (already_exists name, inl (rw (w, create_profile, there) refl))
        | inr absent ↦ elim (save_profile-cases os name (new_profile name fresh) d) [
          | inr (e, r) ↦ inr (e, inl (rw (w, create_profile, absent) r))
          | inl (raw, _, e, r) ↦ inl (
            put_file (profile_file name) raw d,
            rw (w, create_profile, absent) r,
            record { valid = v; present = sym (present-stat d name) ∙ absent },
            rw
                (
                  view-put_profile name raw d,
                  decode-encode_profile name (new_profile name fresh) raw e,
                )
                refl,
          )
        ]
      ]
    ]

    select-Refines : (name : String) (d : Disk Raw) → Refines c law.rereading os (select name) d
    unfolding run promise set_active_profile write_state
    select-Refines name d = elim (check_name-cases name) [
      | inr (e, w) ↦ inr (e, inl (rw (w, set_active_profile) refl))
      | inl (v, w) ↦ elim (Bool-cases (stat_ok c os d (profile_file name))) [
        | inr absent ↦ inr (no_such_profile name, inl (rw (w, set_active_profile, absent) refl))
        | inl there ↦ elim (write_document-cases os state_file (c.encode_state (some name)) d) [
          | inr (e, r) ↦ inr (e, inl (rw (w, set_active_profile, there, write_state) r))
          | inl (raw, e, r) ↦ inl (
            put_file state_file raw d,
            rw (w, set_active_profile, there, write_state) r,
            record { valid = v; present = sym (present-stat d name) ∙ there },
            view-put_state (some name) raw d e,
          )
        ]
      ]
    ]

    active-steady : (d : Disk Raw) → active_profile_name c os d ≡ active_profile_name c quiet d
    unfolding active_profile_name read_file
    active-steady d = rw (steady.reads, active_profile_name, read_file) refl

    clear_active-cases :
        (name : String) (d : Disk Raw)
        → ((d' : Disk Raw) × (clear_active c os name d ≡ (d', ok tt))
            × (view c d' ≡ record (view c d) { active = deselect name (view c d).active }))
          ⊎ ((e : FileError) × (clear_active c os name d ≡ (d, err e)))
    unfolding clear_active write_state
    clear_active-cases name d = elim (Result-cases (active_profile_name c quiet d)) [
      | inr (e, h) ↦ inl (d, rw (clear_active, active-steady d, h) refl, rw h refl)
      | inl (active, h) ↦ elim (Bool-cases (active == name)) [
        | inr other ↦ inl (d, rw (clear_active, active-steady d, h, other) refl, rw (h, other) refl)
        | inl same ↦ elim (write_document-cases os state_file (c.encode_state none) d) [
          | inr (e, r) ↦ inr (e, rw (clear_active, active-steady d, h, same, write_state) r)
          | inl (raw, e, r) ↦ inl (
            put_file state_file raw d,
            rw (clear_active, active-steady d, h, same, write_state) r,
            view-put_state none raw d e ∙ rw (h, same) refl,
          )
        ]
      ]
    ]

    delete-Refines : (name : String) (d : Disk Raw) → Refines c law.rereading os (delete name) d
    unfolding run promise delete_profile delete_file file_at
    delete-Refines name d = elim (check_name-cases name) [
      | inr (e, w) ↦ inr (e, inl (rw (w, delete_profile) refl))
      | inl (v, w) ↦ elim (delete_file-cases os (profile_file name) d) [
        | inr (e, r) ↦ inr (e, inl (rw (w, delete_profile, r, r) refl))
        | inl (raw, there, r) ↦ elim (clear_active-cases name (drop_file (profile_file name) d)) [
          | inr (e, k) ↦ inr (e, inr (refl, rw (w, delete_profile, r, r) k))
          | inl (d', k, view') ↦ inl (
            d',
            rw (w, delete_profile, r, r) k,
            record { valid = v; present = ap (λ o. is_some (document_of c name o)) there },
            view'
                ∙ ap (λ (s : Shelf). record s { active = deselect name s.active })
                    (view-drop_profile name d),
          )
        ]
      ]
    ]

    -- Where `os.Stat` and the read of state.json do not fail, whatever else of the system does, a call
    -- of the store keeps its promise and was allowed to, or fails and leaves the disk as it was; a
    -- deletion whose write of the selection fails has removed the file. A profile that is saved is
    -- from then on what the JSON methods read back.
    pub run-Refines : (op : Operation) (d : Disk Raw) → Refines c law.rereading os op d
    run-Refines (save name p) d = save-Refines name p d
    run-Refines (create name fresh) d = create-Refines name fresh d
    run-Refines (delete name) d = delete-Refines name d
    run-Refines (select name) d = select-Refines name d
