-- ===== src/Store/Name.antt =====
-- `ValidateName` of daemon-go/internal/store/store.go. Go's `len` counts bytes, and the loop reads
-- code points; a name that passes has only ASCII.
use Prim.Native.Char.{code}
use Prim.Native.String.{len}
use iron_link.Prelude.{
  ℕ, String, Bool, true, ◌||◌, ◌&&◌, ◌==◌, leb, ltb, eqb, if◌then◌else◌, Result, ok, err,
}

pub data NameError : Type 0 where
  empty_name : NameError
  too_long bad_character : String → NameError

-- The cases of the loop's switch.
name_character : ℕ → Bool
name_character c =
    (leb b'a' c && leb c b'z')
    || (leb b'A' c && leb c b'Z')
    || (leb b'0' c && leb c b'9')
    || eqb c b'.'
    || eqb c b'_'
    || eqb c b'-'

all_characters : String → Bool
all_characters String.[] = true
all_characters (String.◌∷◌ c s) = name_character (code c) && all_characters s

unfoldable pub validate_name : String → Result NameError (Unit {0})
unfolding all_characters name_character
validate_name name =
    if name == ""
    then err empty_name
    else if ltb 64 (len name)
    then err (too_long name)
    else if all_characters name
    then ok tt
    else err (bad_character name)
