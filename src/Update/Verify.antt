-- ===== src/Update/Verify.antt =====
-- The verification of a signed manifest (daemon-go/internal/update/verify.go). The minisign module,
-- the JSON decoder and semver are third-party or reflective: a record of what the code calls.
pub mod Signed
use Prim.Native.Char.{code}
use iron_link.Prelude.{
  ℕ, ◌+◌, ◌*◌, ◌-◌, String, Bool, not, ◌||◌, ◌&&◌, ◌==◌, Option, none, some, List, [], ◌∷◌, leb,
  ltb, eqb, if◌then◌else◌, find, Result, ok, err, ◌>>=◌, ◌>>◌, reject_if, of_option,
}
use iron_link.Json.{ℤ}
use iron_link.Update.Manifest.{Manifest, ManifestError, malformed_json, check_manifest}

-- `minisign.Signature`, the fields that are read.
pub record Signature : Type 0 where
  pub algorithm : ℕ
  pub key_id : ℕ
  pub trusted_comment : String

pub record Libs : Type 1 where
  pub PublicKey : Type 0
  pub id_of : PublicKey → ℕ
  pub decode_signature : String → Option Signature
  pub hash_ed_dsa : ℕ
  pub verify : PublicKey → String → String → Bool
  pub decode_manifest : String → Option Manifest
  pub valid : String → Bool
  pub canonical : String → String
  pub compare_versions : String → String → ℤ

abbrev pub key_current : String
key_current = "current"

abbrev pub key_recovery : String
key_recovery = "recovery"

-- `unicode.IsSpace`
abbrev is_space : ℕ → Bool
is_space c =
    (leb 9 c && leb c 13)
    || eqb c 32
    || eqb c 133
    || eqb c 160
    || eqb c 5760
    || (leb 8192 c && leb c 8202)
    || eqb c 8232
    || eqb c 8233
    || eqb c 8239
    || eqb c 8287
    || eqb c 12288

-- `strings.Fields`: `word` is the reversed start of the field that is read.
abbrev reverse_onto : String → String → String
reverse_onto String.[] t = t
reverse_onto (String.◌∷◌ c s) t = reverse_onto s (String.◌∷◌ c t)

abbrev close_field : String → List String → List String
close_field String.[] fields = fields
close_field (String.◌∷◌ c s) fields = reverse_onto (String.◌∷◌ c s) "" ∷ fields

abbrev fields_from : String → String → List String
fields_from word String.[] = close_field word []
fields_from word (String.◌∷◌ c s) =
    let skipped = fields_from "" s in
    let longer = fields_from (String.◌∷◌ c word) s in
    if is_space (code c) then close_field word skipped else longer

-- `strings.CutPrefix`
abbrev pub cut_prefix : String → String → Option String
cut_prefix String.[] s = some s
cut_prefix (String.◌∷◌ a p) String.[] = none
cut_prefix (String.◌∷◌ a p) (String.◌∷◌ b s) =
    let rest = cut_prefix p s in if eqb (code a) (code b) then rest else none

-- `strconv.ParseUint(s, 10, 64)`
abbrev digits_value : ℕ → String → Option ℕ
digits_value acc String.[] = some acc
digits_value acc (String.◌∷◌ c s) =
    let rest = digits_value (acc * 10 + (code c - b'0')) s in
    if leb b'0' (code c) && leb (code c) b'9' then rest else none

abbrev parse_uint : String → Option ℕ
parse_uint s = elim (digits_value 0 s) [
  | none ↦ none
  | some n ↦ if s == "" then none else if ltb n 18446744073709551616 then some n else none
]

pub data VerifyError : Type 0 where
  malformed_signature wrong_algorithm unknown_key bad_signature : VerifyError
  comment_lacks bad_seq comment_mismatch : VerifyError
  manifest : ManifestError → VerifyError

-- The loop over the comment's fields: the last of each kind counts.
comment_tokens : List String → String → String → String × String
comment_tokens [] version seq_text = (version, seq_text)
comment_tokens (field ∷ fields) version seq_text = elim (cut_prefix "version=" field) [
  | some v ↦ comment_tokens fields v seq_text
  | none ↦ (elim (cut_prefix "seq=" field) [
    | some t ↦ comment_tokens fields version t
    | none ↦ comment_tokens fields version seq_text
  ])
]

unfoldable pub parse_trusted_comment : String → Result VerifyError (String × ℕ)
unfolding comment_tokens
parse_trusted_comment comment =
    let (version, seq_text) = comment_tokens (fields_from "" comment) "" "" in
    if version == "" || seq_text == ""
    then err comment_lacks
    else (elim (parse_uint seq_text) [ none ↦ err bad_seq | some seq ↦ ok (version, seq) ])

module _ (libs : Libs) where
  pub record TrustedKey : Type 0 where
    pub name : String
    pub key : libs.PublicKey

  pub record Verified : Type 0 where
    pub manifest : Manifest
    pub key_name : String
    pub key_id : ℕ

  -- `ParseManifest`
  unfoldable pub parse_manifest : String → Result VerifyError Manifest
  parse_manifest document = do
    m ← of_option (manifest malformed_json) (libs.decode_manifest document)
    elim (check_manifest libs.valid libs.canonical m) [ err e ↦ err (manifest e) | ok _ ↦ ok m ]

  -- The end of `verifyManifest`, from the manifest that the key signed.
  unfoldable pub cross_check : TrustedKey → Signature → Manifest → Result VerifyError Verified
  cross_check k sig m = do
    claimed ← parse_trusted_comment sig.trusted_comment
    reject_if (not (claimed.0 == m.version) || not (eqb claimed.1 m.seq)) comment_mismatch
    ok (record { manifest = m; key_name = k.name; key_id = libs.id_of k.key })

  unfoldable pub verify_manifest : List TrustedKey → String → String → Result VerifyError Verified
  verify_manifest keys manifest_json signature = do
    sig ← of_option malformed_signature (libs.decode_signature signature)
    reject_if (not (eqb sig.algorithm libs.hash_ed_dsa)) wrong_algorithm
    k ← of_option unknown_key (find (λ k. eqb (libs.id_of k.key) sig.key_id) keys)
    reject_if (not (libs.verify k.key manifest_json signature)) bad_signature
    m ← parse_manifest manifest_json
    cross_check k sig m
