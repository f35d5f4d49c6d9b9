-- ===== src/Update/Version.antt =====
-- The stamped build version as semver (daemon-go/internal/update/check.go).
use Prim.Native.Char.{code}
use text.Mathlib.Text.{starts_with}
use iron_link.Prelude.{
  ℕ, String, Bool, true, false, not, ◌||◌, ◌&&◌, ◌==◌, none, some, leb, eqb, if◌then◌else◌,
}
use iron_link.Update.Verify.{cut_prefix}

abbrev digits_end : String → String
digits_end String.[] = ""
digits_end (String.◌∷◌ c s) =
    let rest = digits_end s in
    if leb b'0' (code c) && leb (code c) b'9' then rest else String.◌∷◌ c s

abbrev is_hex_lower : ℕ → Bool
is_hex_lower c = (leb b'0' c && leb c b'9') || (leb b'a' c && leb c b'f')

-- No newline: the tail of the pattern runs to the end of the text.
abbrev one_line : String → Bool
one_line String.[] = true
one_line (String.◌∷◌ c s) = not (eqb (code c) 10) && one_line s

-- Whether the text starts with a digit run that `.g` and a hex digit follow.
abbrev describes : String → Bool
describes s =
    let tail = cut_prefix ".g" (digits_end s) in
    not (digits_end s == s) && (elim tail [
      | none ↦ false
      | some t ↦ (elim t [
        | String.[] ↦ false
        | String.◌∷◌ c u ↦ is_hex_lower (code c) && one_line u
      ])
    ])

-- `gitDescribeTail.ReplaceAllString(v, "")`: the first match runs to the end of the text.
abbrev drop_describe_tail : String → String
drop_describe_tail String.[] = ""
drop_describe_tail (String.◌∷◌ c s) =
    let kept = String.◌∷◌ c (drop_describe_tail s) in
    elim (cut_prefix ".r" (String.◌∷◌ c s)) [
      | none ↦ kept
      | some digits ↦ if describes digits then "" else kept
    ]

unfoldable pub normalize_current_version : (String → Bool) → String → String
normalize_current_version valid v =
    let cut = drop_describe_tail v in
    if not (starts_with cut "v") || not (valid cut)
    then ""
    else if starts_with cut "v0.0.0"
    then ""
    else cut
