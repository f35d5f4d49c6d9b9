-- ===== src/Store/Profiles/Spec.antt =====
-- What the store promises of its profiles: documents under names and a selection, with no files.
use iron_link.Prelude.{
  String, Bool, true, ◌==◌, ◌≡◌, ◌⊎◌, Option, none, some, is_some, if◌then◌else◌, Result, ok, err,
  is_ok, lookup,
}
use iron_link.Store.Name.{validate_name}
use iron_link.Store.Profile.{Profile, new_profile, normalize}
use iron_link.Store.Reread.{Rereading, reread}
use iron_link.Store.Files.{
  Os, quiet, read, stat, FilePath, profile_file, state_file, drop_file, FileError, Disk, Codec,
}
use iron_link.Store.Profiles.{
  decode, save_profile, create_profile, delete_profile, set_active_profile, active_profile_name,
}

-- A call of the store that changes its profiles; `fresh` is the id that `uuid.New` gives.
pub data Operation : Type 0 where
  save : String → Profile → Operation
  create : String → String → Operation
  delete select : String → Operation

abbrev pub name_of : Operation → String
name_of (save name p) = name
name_of (create name fresh) = name
name_of (delete name) = name
name_of (select name) = name

unfoldable pub run :
    {Raw : Type 0} → Codec Raw → Os → Operation → Disk Raw → Disk Raw × Result FileError (Unit {0})
run c os (save name p) d = save_profile c os name p d
run c os (create name fresh) d = create_profile c os name fresh d
run c os (delete name) d = delete_profile c os name d
run c os (select name) d = set_active_profile c os name d

-- A document that does not decode is there all the same.
abbrev pub Document : Type 0
Document = Option (Result FileError Profile)

pub record Shelf : Type 0 where
  pub document : String → Document
  pub active : Result FileError String

abbrev pub document_of : {Raw : Type 0} → Codec Raw → String → Option Raw → Document
document_of c name none = none
document_of c name (some raw) = some (decode c name raw)

abbrev pub view : {Raw : Type 0} → Codec Raw → Disk Raw → Shelf
view c d = record {
  document = λ name. document_of c name (lookup name d.profiles);
  active = active_profile_name c quiet d;
}

abbrev pub put : String → Document → (String → Document) → String → Document
put name new f other = if name == other then new else f other

-- Removing the selected profile clears the selection.
abbrev pub deselect : String → Result FileError String → Result FileError String
deselect name (ok active) = if active == name then ok "" else ok active
deselect name (err e) = err e

-- A profile is saved as it will be read back.
abbrev pub saved : Rereading → Profile → Profile
saved re p = normalize (reread re (normalize p))

unfoldable pub promise : Rereading → Operation → Shelf → Shelf
promise re (save name p) s = record s { document = put name (some (ok (saved re p))) s.document }
promise re (create name fresh) s = record s {
  document = put name (some (ok (saved re (new_profile name fresh)))) s.document;
}
promise re (delete name) s = record {
  document = put name none s.document;
  active = deselect name s.active;
}
promise re (select name) s = record s { active = ok name }

-- A name on its own is allowed when it passes `ValidateName`; a profile is made only where there is
-- none, and deleted or selected only where there is one.
abbrev pub Present : Operation → Shelf → Type 0
Present (save name p) s = Unit {0}
Present (create name fresh) s = is_some (s.document name) ≡ Bool.false
Present (delete name) s = is_some (s.document name) ≡ true
Present (select name) s = is_some (s.document name) ≡ true

pub record IsAllowed (op : Operation) (s : Shelf) : Type 0 where
  pub valid : is_ok (validate_name (name_of op)) ≡ true
  pub present : Present op s

-- The calls that only look do not fail.
pub record IsSteady (os : Os) : Type 0 where
  pub reads : os read state_file ≡ none
  pub stats : (path : FilePath) → os stat path ≡ none

-- A call does what was promised and was allowed to, or fails with the disk as it was; a deletion may
-- also fail after the file is gone.
abbrev pub Refines : {Raw : Type 0} → Codec Raw → Rereading → Os → Operation → Disk Raw → Type 0
Refines {Raw = Raw} c re os op d =
    ((d' : Disk Raw) × (run c os op d ≡ (d', ok tt))
      × IsAllowed op (view c d)
      × (view c d' ≡ promise re op (view c d)))
    ⊎ ((e : FileError) × ((run c os op d ≡ (d, err e))
          ⊎ ((op ≡ delete (name_of op))
              × (run c os op d ≡ (drop_file (profile_file (name_of op)) d, err e)))))
