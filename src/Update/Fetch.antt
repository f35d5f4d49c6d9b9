-- ===== src/Update/Fetch.antt =====
-- The mirrors of the manifest (`fetchManifest` and `fetchOne` of daemon-go/internal/update/check.go).
-- `get url` is the body of a response with status 200, if there is one.
use Prim.Native.String.{len}
use iron_link.Prelude.{ℕ, String, Option, none, some, List, [], ◌∷◌, ltb, if◌then◌else◌}

abbrev pub max_manifest_size : ℕ
max_manifest_size = 1048576

abbrev pub max_signature_size : ℕ
max_signature_size = 65536

-- `fetchOne` reads one byte past the cap, and refuses what is longer than it.
unfoldable pub fetch_one : (String → Option String) → String → ℕ → Option String
fetch_one get url max_size = elim (get url) [
  | none ↦ none
  | some body ↦ if ltb max_size (len body) then none else some body
]

-- `url+".minisig"`
abbrev signature_url : String → String
signature_url String.[] = ".minisig"
signature_url (String.◌∷◌ c s) = String.◌∷◌ c (signature_url s)

fetch_mirror : (String → Option String) → String → Option (String × String)
unfolding fetch_one
fetch_mirror get url = elim (fetch_one get url max_manifest_size) [
  | none ↦ none
  | some m ↦ (elim (fetch_one get (signature_url url) max_signature_size) [
    | none ↦ none
    | some s ↦ some (m, s)
  ])
]

unfoldable pub fetch_manifest : (String → Option String) → List String → Option (String × String)
unfolding fetch_mirror
fetch_manifest get [] = none
fetch_manifest get (url ∷ urls) =
    let rest = fetch_manifest get urls in
    elim (fetch_mirror get url) [ some r ↦ some r | none ↦ rest ]
