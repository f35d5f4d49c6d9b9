-- ===== src/Update/SeqFile.antt =====
-- `FileSeqStore` (daemon-go/internal/update/seqstore.go): the trust state of the update check in a
-- file. The bytes of the file, encoding/json, and the texts of strconv and time are arguments, and so
-- is what the system answers to each call.
pub mod Mirrors
use iron_link.Prelude.{
  ℕ, String, Bool, ◌==◌, ◌++◌, Option, none, some, List, [], ◌∷◌, contains, if◌then◌else◌, Result,
  ok, err, ◌>>=◌, ◌>>◌,
}
use iron_link.Store.Files.{Call, read, mkdir_all, create_temp, chmod, write, sync, close, rename}

-- `seqState`
pub record SeqDoc : Type 0 where
  pub last_seen_seq : ℕ
  pub last_attempt : String
  pub revoked_key_ids : List String

abbrev pub empty_doc : SeqDoc
empty_doc = record { last_seen_seq = 0; last_attempt = ""; revoked_key_ids = [] }

-- `json.Marshal` and `json.Unmarshal`; `strconv.FormatUint` and `strconv.ParseUint` in base 16;
-- `time.Time.Format` and `time.Parse` with RFC 3339.
pub record SeqLibs (Raw : Type 0) : Type 0 where
  pub encode : SeqDoc → Result String Raw
  pub decode : Raw → Result String SeqDoc
  pub format_uint : ℕ → String
  pub parse_uint : String → Result String ℕ
  pub format_time : ℕ → String
  pub parse_time : String → Result String ℕ

pub data SeqError : Type 0 where
  failed : Call → String → SeqError
  undecodable unencodable bad_id bad_time : String → SeqError

-- The text of the error, where a call fails for another reason than a missing file.
abbrev pub Faults : Type 0
Faults = Call → Option String

abbrev pub call : Faults → Call → Result SeqError (Unit {0})
call faults c = elim (faults c) [ none ↦ ok tt | some e ↦ err (failed c e) ]

abbrev pub as_error {ℓ} : {A : Type ℓ} → (String → SeqError) → Result String A → Result SeqError A
as_error wrap (ok a) = ok a
as_error wrap (err e) = err (wrap e)

-- A text that is there is not added again.
abbrev pub add_text : String → List String → List String
add_text t ts = if contains ts t then ts else ts ++ t ∷ []

module _ {Raw : Type 0} (libs : SeqLibs Raw) (faults : Faults) where
  -- A missing file stands for the empty document.
  unfoldable pub load : Option Raw → Result SeqError SeqDoc
  load file = call faults read >>= λ _. elim file [
    | none ↦ ok empty_doc
    | some raw ↦ as_error undecodable (libs.decode raw)
  ]

  -- The calls of `save`, up to the rename.
  unfoldable pub write_calls : Result SeqError (Unit {0})
  write_calls = do
    call faults mkdir_all
    call faults create_temp
    call faults chmod
    call faults write
    call faults sync
    call faults close
    call faults rename

  unfoldable pub save : SeqDoc → Option Raw → Option Raw × Result SeqError (Unit {0})
  unfolding write_calls
  save doc file = elim (libs.encode doc) [
    | err e ↦ (file, err (unencodable e))
    | ok raw ↦ (elim write_calls [ err e ↦ (file, err e) | ok _ ↦ (some raw, ok tt) ])
  ]

  unfoldable pub update : (SeqDoc → SeqDoc) → Option Raw → Option Raw × Result SeqError (Unit {0})
  unfolding load save
  update mutate file = elim (load file) [ err e ↦ (file, err e) | ok doc ↦ save (mutate doc) file ]

  unfoldable pub last_seen_seq : Option Raw → Result SeqError ℕ
  unfolding load
  last_seen_seq file = load file >>= λ doc. ok doc.last_seen_seq

  unfoldable pub set_last_seen_seq : ℕ → Option Raw → Option Raw × Result SeqError (Unit {0})
  unfolding update
  set_last_seen_seq seq file = update (λ doc. record doc { last_seen_seq = seq }) file

  -- The loop of `RevokedKeyIDs`.
  unfoldable pub parse_ids : List String → Result SeqError (List ℕ)
  parse_ids [] = ok []
  parse_ids (t ∷ ts) =
      as_error bad_id (libs.parse_uint t) >>= λ id. parse_ids ts >>= λ ids. ok (id ∷ ids)

  unfoldable pub revoked_key_ids : Option Raw → Result SeqError (List ℕ)
  unfolding load parse_ids
  revoked_key_ids file = load file >>= λ doc. parse_ids doc.revoked_key_ids

  unfoldable pub revoke_key_id : ℕ → Option Raw → Option Raw × Result SeqError (Unit {0})
  unfolding update
  revoke_key_id id file =
      update
        (λ doc. record doc { revoked_key_ids = add_text (libs.format_uint id) doc.revoked_key_ids })
        file

  -- None when no attempt was recorded.
  unfoldable pub last_attempt : Option Raw → Result SeqError (Option ℕ)
  unfolding load
  last_attempt file = load file >>= λ doc.
      if doc.last_attempt == ""
      then ok none
      else as_error bad_time (libs.parse_time doc.last_attempt) >>= λ t. ok (some t)

  unfoldable pub set_last_attempt : ℕ → Option Raw → Option Raw × Result SeqError (Unit {0})
  unfolding update
  set_last_attempt t file = update (λ doc. record doc { last_attempt = libs.format_time t }) file
