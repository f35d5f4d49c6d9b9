-- ===== src/Prelude/Counts.antt =====
-- How often a text stands in a list, which turns distinctness into arithmetic.
use Prim.Native.Nat.{ℕ, ◌+◌, ◌≤◌, ◌<◌}
use Prim.Native.String.{String}
use mathlib.Core.Path.{◌≡◌, refl}
use mathlib.Core.Bool.{true, false}
use mathlib.Core.List.{List, [], ◌∷◌, ◌++◌, map}
use native.Mathlib.Omega.{arith}
use text.Mathlib.Text.{◌==◌}
use text.Mathlib.TextEquality.{eq_iff}
use iron_link.Prelude.Logic.{if◌then◌else◌}
use iron_link.Prelude.Lists.{contains}
use iron_link.Prelude.Keys.{has_key, DistinctBy}

abbrev pub count : String → List String → ℕ
count a [] = 0
count a (x ∷ xs) = (if x == a then 1 else 0) + count a xs

pub count-append :
    (a : String) (before after : List String)
    → count a (before ++ after) ≡ count a before + count a after
count-append a [] after = omega arith
count-append a (x ∷ before) after = omega (arith, count-append a before after)

pub count_pos_of_contains : (a : String) (xs : List String) → contains xs a ≡ true → 0 < count a xs
count_pos_of_contains a [] h = cc
count_pos_of_contains a (x ∷ xs) h = ground (arith, count_pos_of_contains a xs)

pub contains_of_count_pos : (a : String) (xs : List String) → 0 < count a xs → contains xs a ≡ true
contains_of_count_pos a [] h = absurd (omega arith)
contains_of_count_pos a (x ∷ xs) h = ground (arith, contains_of_count_pos a xs)

pub count-eq-zero : (a : String) (xs : List String) → contains xs a ≡ false → count a xs ≡ 0
count-eq-zero a [] h = refl
count-eq-zero a (x ∷ xs) h = ground (arith, count-eq-zero a xs)

-- No text stands twice.
abbrev pub Unique : List String → Type 0
Unique xs = (a : String) → count a xs ≤ 1

module _ {ℓ} {A : Type ℓ} (key : A → String) where
  pub contains-map : (xs : List A) (a : String) → contains (map key xs) a ≡ has_key key xs a
  contains-map [] a = refl
  contains-map (x ∷ xs) a = ground (arith, contains-map xs a)

  -- Distinct keys are counted at most once.
  pub DistinctBy-Unique : (xs : List A) → DistinctBy key xs → Unique (map key xs)
  DistinctBy-Unique [] _ a = omega arith
  DistinctBy-Unique (x ∷ xs) (h, d) a = ground (
    arith,
    DistinctBy-Unique xs d a,
    count-eq-zero a (map key xs),
    contains-map xs a,
    eq_iff (key x) a,
  )
