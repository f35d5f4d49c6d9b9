-- ===== src/Json.antt =====
-- The `map[string]any` values that the daemon hands to `json.Marshal` for the two cores
-- (daemon-go/internal/proxy, daemon-go/internal/engine).
use iron_link.Prelude.{ℕ, String, Bool, List, [], ◌∷◌, map}

-- Go's `int`.
pub data ℤ : Type 0 where
  pos : ℕ → ℤ
  negsuc : ℕ → ℤ

-- `raw` is a `json.RawMessage`, which is emitted verbatim.
mutual
  pub data Json : Type 0 where
    null : Json
    bool : Bool → Json
    num : ℤ → Json
    str : String → Json
    raw : String → Json
    arr : Items → Json
    obj : Fields → Json

  pub data Items : Type 0 where
    nil : Items
    cons : Json → Items → Items

  pub data Fields : Type 0 where
    end : Fields
    field : String → Json → Fields → Fields

-- A `map[string]any` under construction.
abbrev pub JsonMap : Type 0
JsonMap = List (String × Json)

abbrev pub fields_of : JsonMap → Fields
fields_of [] = end
fields_of ((k, v) ∷ m) = field k v (fields_of m)

abbrev pub items_of : List Json → Items
items_of [] = nil
items_of (x ∷ xs) = cons x (items_of xs)

abbrev pub object : JsonMap → Json
object m = obj (fields_of m)

abbrev pub array : List Json → Json
array xs = arr (items_of xs)

abbrev pub nat : ℕ → Json
nat n = num (pos n)

abbrev pub strings : List String → Json
strings xs = array (map str xs)
