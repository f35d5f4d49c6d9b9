-- ===== src/Update/Manifest.antt =====
-- Update manifests and their structural validation (daemon-go/internal/update/manifest.go). The
-- semver module is third-party: the tests that the code calls are arguments. A time is the
-- nanoseconds since Go's zero time.
use Prim.Native.Char.{code}
use Prim.Native.String.{len}
use iron_link.Prelude.{
  ℕ, suc, String, Bool, true, false, not, ◌||◌, ◌&&◌, ◌==◌, List, [], ◌∷◌, leb, eqb, if◌then◌else◌,
  is_empty, Result, ok, err, ◌>>◌, reject_if,
}
use iron_link.Json.{ℤ, pos, negsuc}

abbrev pub schema_version : ℤ
schema_version = pos 1

abbrev pub kind_installer : String
kind_installer = "installer"

abbrev pub kind_pkg : String
kind_pkg = "pkg"

abbrev pub kind_none : String
kind_none = "none"

pub record Artifact : Type 0 where
  pub os : String
  pub arch : String
  pub kind : String
  pub name : String
  pub size : ℤ
  pub sha256 : String
  pub urls : List String

pub record Manifest : Type 0 where
  pub schema : ℤ
  pub seq : ℕ
  pub channel : String
  pub version : String
  pub min_version : String
  pub published_at : ℕ
  pub expires_at : ℕ
  pub notes_url : String
  pub artifacts : List Artifact

pub data ManifestError : Type 0 where
  malformed_json : ManifestError
  unsupported_schema : ℤ → ManifestError
  invalid_version invalid_min_version unknown_kind : String → ManifestError
  size_not_positive not_64_characters not_hex no_urls : ManifestError
  in_artifact : ℕ → ManifestError → ManifestError

-- `a.Size <= 0` is its negation.
abbrev pub is_positive : ℤ → Bool
is_positive (pos n) = not (eqb n 0)
is_positive (negsuc n) = false

abbrev pub same_int : ℤ → ℤ → Bool
same_int (pos n) (pos k) = eqb n k
same_int (negsuc n) (negsuc k) = eqb n k
same_int _ _ = false

abbrev hex_digit : ℕ → Bool
hex_digit c = (leb b'0' c && leb c b'9') || (leb b'a' c && leb c b'f') || (leb b'A' c && leb c b'F')

-- What `hex.DecodeString` accepts among the texts of even length.
abbrev all_hex : String → Bool
all_hex String.[] = true
all_hex (String.◌∷◌ c s) = hex_digit (code c) && all_hex s

-- `Artifact.validate`
unfoldable pub check_artifact : Artifact → Result ManifestError (Unit {0})
check_artifact a =
    let files = do
      reject_if (not (is_positive a.size)) size_not_positive
      reject_if (not (eqb (len a.sha256) 64)) not_64_characters
      reject_if (not (all_hex a.sha256)) not_hex
      reject_if (is_empty a.urls) no_urls
    in if a.kind == kind_installer || a.kind == kind_pkg
      then files
      else if a.kind == kind_none
      then ok tt
      else err (unknown_kind a.kind)

unfoldable pub check_artifacts : ℕ → List Artifact → Result ManifestError (Unit {0})
check_artifacts i [] = ok tt
check_artifacts i (a ∷ rest) = elim (check_artifact a) [
  | err e ↦ err (in_artifact i e)
  | ok _ ↦ check_artifacts (suc i) rest
]

-- `valid` is `semver.IsValid` and `canonical` is `semver.Canonical`.
module _ (valid : String → Bool) (canonical : String → String) where
  unfoldable pub valid_version : String → Bool
  valid_version v = valid v && canonical v == v

  -- `Manifest.validate`
  unfoldable pub check_manifest : Manifest → Result ManifestError (Unit {0})
  unfolding check_artifacts
  check_manifest m = do
    reject_if (not (same_int m.schema schema_version)) (unsupported_schema m.schema)
    reject_if (not (valid_version m.version)) (invalid_version m.version)
    reject_if (not (m.min_version == "") && not (valid_version m.min_version))
        (invalid_min_version m.min_version)
    check_artifacts 0 m.artifacts
