-- ===== src/Manager/Verbs/Stored.antt =====
-- The profiles on disk under the verbs and the calls of the store.
use iron_link.Prelude.{
  String, false, ◌≡◌, refl, sym, ap, ◌∙◌, ◌==◌, subst, Option, none, ok, lookup, lookup-insert,
  lookup-remove, ok-injective, >>=-eq-ok, Result-cases, Bool-cases, inl, inr, arith, eq_iff,
  of_option, ◌>>◌,
}
use iron_link.Store.Profile.{Profile, normalize, new_profile}
use iron_link.Store.Invariant as Invariant
use iron_link.Store.Invariant.{IsValid, Reach-IsValid}
use iron_link.Store.Reread.{HasIds, reread, reread-HasIds, reread-IsValid}
use iron_link.Store.Profiles.Spec.{saved}
use iron_link.Store.Files.{
  Os, Disk, Codec, IsCodec, profile_file, file_at, put_file, read, attempt, read_file, delete_file,
  drop_file, remove_file, not_exist,
}
use iron_link.Store.Profiles.{
  check_name, load_profile, save_profile, delete_profile, clear_active, create_profile, stat_ok,
}
use iron_link.Store.Profiles.Saved.{save_profile-cases}
use iron_link.Store.Profiles.Complete.{load_profile-save_profile}
use iron_link.Store.Profiles.Untouched.{
  load_profile-cong, load_profile-reads, clear_active-profiles,
}
use iron_link.Manager.Verbs.{Edit, resolve_profile_name, with_profile}
use iron_link.Manager.Verbs.Kept.{Verb, edit, IsFresh, edit-IsValid}
use iron_link.Manager.Verbs.Ids.{IsNamed, edit-HasIds}

-- Valid, and every routing config has an id.
pub record IsWhole (p : Profile) : Type 0 where
  pub valid : IsValid p
  pub ids : HasIds p

module _ {Raw : Type 0} (c : Codec Raw) where
  -- Whatever the system answers, a profile that is loaded is whole.
  abbrev pub IsSound : Disk Raw → Type 0
  IsSound d = (os : Os) (name : String) (p : Profile) → load_profile c os d name ≡ ok p → IsWhole p

  -- What an edit keeps whole, of all the profiles on disk.
  abbrev pub IsKept : {A : Type 0} → Edit A → Disk Raw → Type 0
  IsKept edit d =
      (os : Os) (name : String) (p : Profile)
      → load_profile c os d name ≡ ok p
      → IsWhole p
      → IsWhole (edit p).0

  -- The id that a verb would give to a new routing config is not empty and in no profile on disk.
  abbrev pub IsUnused : Verb → Disk Raw → Type 0
  IsUnused w d =
      IsNamed w
      × ((os : Os) (name : String) (p : Profile) → load_profile c os d name ≡ ok p → IsFresh w p)

  pub edit-IsKept : (w : Verb) (d : Disk Raw) → IsUnused w d → IsKept (edit w) d
  edit-IsKept w d (named, unused) os name p loaded whole = record {
    valid = edit-IsValid w p (unused os name p loaded) whole.valid;
    ids = edit-HasIds w p named whole.ids;
  }

module _ {Raw : Type 0} (c : Codec Raw) (law : IsCodec c) where
  -- A whole profile that is saved is whole when it is read back.
  saved-IsWhole : (p : Profile) → IsWhole p → IsWhole (saved law.rereading p)
  unfolding normalize reread
  saved-IsWhole p whole =
      let v = reread-IsValid law.rereading p whole.ids whole.valid in
      record {
        valid = record {
          active_node = v.active_node;
          active_routing = v.active_routing;
          urls = v.urls;
          ids = v.ids;
          names = v.names;
          valid_names = v.valid_names;
        };
        ids = reread-HasIds law.rereading p;
      }

  pub save_profile-IsSound :
      (os : Os) (name : String) (p : Profile) (d : Disk Raw)
      → IsWhole p
      → IsSound c d
      → IsSound c (save_profile c os name p d).0
  unfolding put_file
  save_profile-IsSound os name p d v sound os' other q h =
      elim (save_profile-cases c law os name p d) [
        | inr (e, w) ↦ sound os' other q (subst (λ r. load_profile c os' r.0 other ≡ ok q) w h)
        | inl (raw, checked, e, w) ↦
            let d' = put_file (profile_file name) raw d in
            let loaded : load_profile c os' d' other ≡ ok q =
              subst (λ r. load_profile c os' r.0 other ≡ ok q) w h in
            elim (Bool-cases (name == other)) [
              | inl same ↦
                  let there : load_profile c os' d' name ≡ ok q =
                    subst (λ k. load_profile c os' d' k ≡ ok q) (sym ((eq_iff name other).0 same))
                      loaded in
                  let full =
                    load_profile-save_profile c law os os' name p d d' w
                      (load_profile-reads c os' name d' q there) in
                  rw (← ok-injective (sym full ∙ there)) (saved-IsWhole p v)
              | inr apart ↦
                  let untouched : lookup other d'.profiles ≡ lookup other d.profiles =
                    lookup-insert name other raw d.profiles ∙ rw apart refl in
                  sound os' other q (sym (load_profile-cong c os' other d' d untouched) ∙ loaded)
            ]
      ]

  pub with_profile-IsSound :
      (os : Os) {A : Type 0} (given : Option String) (edit : Edit A) (d : Disk Raw)
      → IsKept c edit d
      → IsSound c d
      → IsSound c (with_profile c os given edit d).0
  unfolding with_profile
  with_profile-IsSound os given edit d keeps sound =
      elim (Result-cases (resolve_profile_name c os d given)) [
        | inr (bad, e) ↦ rw (e, with_profile) sound
        | inl (name, e) ↦ elim (Result-cases (load_profile c os d name)) [
          | inr (bad, f) ↦ rw (e, f, with_profile) sound
          | inl (p, f) ↦ elim (Result-cases (edit p).1) [
            | inr (bad, g) ↦ rw (e, f, g, with_profile) sound
            | inl (reply, g) ↦
                let kept = keeps os name p f (sound os name p f) in
                let after = save_profile-IsSound os name (edit p).0 d kept sound in
                elim (Result-cases (save_profile c os name (edit p).0 d).1) [
                  | inr (bad, k) ↦ rw (e, f, g, k, with_profile) after
                  | inl (u, k) ↦ rw (e, f, g, k, with_profile) after
                ]
          ]
        ]
      ]

  pub same_profiles-IsSound :
      (d d' : Disk Raw) → d'.profiles ≡ d.profiles → IsSound c d → IsSound c d'
  same_profiles-IsSound d d' same sound os name p h =
      sound os name p (sym (load_profile-cong c os name d' d (ap (λ ps. lookup name ps) same)) ∙ h)

  pub drop_file-IsSound :
      (name : String) (d : Disk Raw) → IsSound c d → IsSound c (drop_file (profile_file name) d)
  unfolding drop_file load_profile read_file file_at
  drop_file-IsSound name d sound os other p h =
      let left = drop_file (profile_file name) d in
      let there = lookup-remove name other d.profiles in
      elim (Bool-cases (name == other)) [
        | inr apart ↦
            let untouched : lookup other left.profiles ≡ lookup other d.profiles =
              there ∙ rw apart refl in
            sound os other p (sym (load_profile-cong c os other left d untouched) ∙ h)
        | inl same ↦
            let gone : lookup other left.profiles ≡ none = there ∙ rw same refl in
            let (u, checked, loaded) = >>=-eq-ok (check_name other) _ {out = p} h in
            let (raw, bytes, decoded) =
              >>=-eq-ok (read_file os left (profile_file other)) _ {out = p} loaded in
            let (v, quiet_read, found) =
              >>=-eq-ok (attempt os read (profile_file other)) _ {out = raw} bytes in
            absurd (ground (arith, gone))
      ]

  pub delete_profile-IsSound :
      (os : Os) (name : String) (d : Disk Raw)
      → IsSound c d
      → IsSound c (delete_profile c os name d).0
  unfolding delete_profile delete_file
  delete_profile-IsSound os name d sound = elim (Result-cases (check_name name)) [
    | inr (bad, e) ↦ rw (e, delete_profile) sound
    | inl (u, e) ↦
        elim (Result-cases (
          attempt os remove_file (profile_file name)
          >> of_option (not_exist (profile_file name)) (file_at d (profile_file name)))) [
            | inr (bad, f) ↦ rw (e, delete_profile, f, delete_file, f, delete_file) sound
            | inl (raw, f) ↦
                let left = drop_file (profile_file name) d in
                rw (e, delete_profile, f, delete_file, f, delete_file)
                  (same_profiles-IsSound left (clear_active c os name left).0
                    (clear_active-profiles c os name left) (drop_file-IsSound name d sound))
          ]
  ]

  new_profile-IsWhole :
      (name fresh : String) → (fresh == "") ≡ false → IsWhole (new_profile name fresh)
  unfolding new_profile
  new_profile-IsWhole name fresh named = record {
    valid = Reach-IsValid (Invariant.Reach.create name fresh refl);
    ids = ground (arith, named);
  }

  pub create_profile-IsSound :
      (os : Os) (name fresh : String) (d : Disk Raw)
      → (fresh == "") ≡ false
      → IsSound c d
      → IsSound c (create_profile c os name fresh d).0
  unfolding create_profile
  create_profile-IsSound os name fresh d named sound = elim (Result-cases (check_name name)) [
    | inr (bad, e) ↦ rw (e, create_profile) sound
    | inl (u, e) ↦ elim (Bool-cases (stat_ok c os d (profile_file name))) [
      | inl there ↦ rw (e, there, create_profile) sound
      | inr gone ↦
          rw (e, gone, create_profile)
            (save_profile-IsSound os name (new_profile name fresh) d
              (new_profile-IsWhole name fresh named) sound)
    ]
  ]
