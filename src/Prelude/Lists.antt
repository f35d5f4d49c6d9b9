-- ===== src/Prelude/Lists.antt =====
-- Lists as the program uses slices: search, deletion by a test, membership of a text.
use Prim.Native.Nat.{ℕ, suc, ◌+◌, ◌≤◌, ◌<◌}
use Prim.Native.String.{String}
use mathlib.Core.Path.{◌≡◌, refl}
use mathlib.Core.Bool.{Bool, true, false, ◌&&◌, ◌||◌}
use mathlib.Core.Option.{Option, none, some}
use mathlib.Core.List.{List, [], ◌∷◌, ◌++◌}
use native.Mathlib.Omega.{arith}
use text.Mathlib.Text.{◌==◌}
use text.Mathlib.TextEquality.{eq_iff}
use iron_link.Prelude.Logic.{if◌then◌else◌, is_some}

module _ {ℓ} {A : Type ℓ} where
  abbrev pub length : List A → ℕ
  length [] = 0
  length (x ∷ xs) = suc (length xs)

  abbrev pub is_empty : List A → Bool
  is_empty [] = true
  is_empty (_ ∷ _) = false

  abbrev pub any : (A → Bool) → List A → Bool
  any p [] = false
  any p (x ∷ xs) = p x || any p xs

  abbrev pub all : (A → Bool) → List A → Bool
  all p [] = true
  all p (x ∷ xs) = p x && all p xs

  -- The first element that passes the test.
  abbrev pub find : (A → Bool) → List A → Option A
  find p [] = none
  find p (x ∷ xs) = if p x then some x else find p xs

  -- `slices.DeleteFunc`
  abbrev pub delete_func : (A → Bool) → List A → List A
  delete_func p [] = []
  delete_func p (x ∷ xs) = if p x then delete_func p xs else x ∷ delete_func p xs

  -- A write at the first element that passes the test.
  abbrev pub replace_first : (A → Bool) → (A → A) → List A → List A
  replace_first p f [] = []
  replace_first p f (x ∷ xs) = if p x then f x ∷ xs else x ∷ replace_first p f xs

  pub length-append : (xs ys : List A) → length (xs ++ ys) ≡ length xs + length ys
  length-append [] ys = omega arith
  length-append (x ∷ xs) ys = omega (arith, length-append xs ys)

  pub any-append : (p : A → Bool) (xs ys : List A) → any p (xs ++ ys) ≡ (any p xs || any p ys)
  any-append p [] ys = refl
  any-append p (x ∷ xs) ys = ground (arith, any-append p xs ys)

  pub append-eq-nil : (xs ys : List A) → xs ++ ys ≡ [] → (xs ≡ []) × (ys ≡ [])
  append-eq-nil [] ys h = (refl, h)
  append-eq-nil (x ∷ xs) ys h = cc

  pub is_some-find : (p : A → Bool) (xs : List A) → is_some (find p xs) ≡ any p xs
  is_some-find p [] = refl
  is_some-find p (x ∷ xs) = ground (arith, is_some-find p xs)

  pub find-eq-none : (p : A → Bool) (xs : List A) → any p xs ≡ false → find p xs ≡ none
  find-eq-none p [] h = refl
  find-eq-none p (x ∷ xs) h = ground (arith, find-eq-none p xs)

  -- What the search returns passes the test.
  pub find_sound : (p : A → Bool) (xs : List A) (x : A) → find p xs ≡ some x → p x ≡ true
  find_sound p [] x h = cc
  find_sound p (y ∷ ys) x h = ground (arith, find_sound p ys x)

  pub any-delete_func_le :
      (p q : A → Bool) (xs : List A) → any q (delete_func p xs) ≡ true → any q xs ≡ true
  any-delete_func_le p q [] h = h
  any-delete_func_le p q (x ∷ xs) h = ground (arith, any-delete_func_le p q xs)

  pub any-delete_func_self : (p : A → Bool) (xs : List A) → any p (delete_func p xs) ≡ false
  any-delete_func_self p [] = refl
  any-delete_func_self p (x ∷ xs) = ground (arith, any-delete_func_self p xs)

  pub length-delete_func-le : (p : A → Bool) (xs : List A) → length (delete_func p xs) ≤ length xs
  length-delete_func-le p [] = omega arith
  length-delete_func-le p (x ∷ xs) = ground (arith, length-delete_func-le p xs)

  -- A deletion that changes the length removed something, and the converse.
  pub length-delete_func-lt :
      (p : A → Bool) (xs : List A) → any p xs ≡ true → length (delete_func p xs) < length xs
  length-delete_func-lt p [] h = cc
  length-delete_func-lt p (x ∷ xs) h =
      ground (arith, length-delete_func-lt p xs, length-delete_func-le p xs)

  pub delete_func-id : (p : A → Bool) (xs : List A) → any p xs ≡ false → delete_func p xs ≡ xs
  delete_func-id p [] h = refl
  delete_func-id p (x ∷ xs) h = ground (arith, delete_func-id p xs)

-- `slices.Contains` on texts
abbrev pub contains : List String → String → Bool
contains xs a = any (λ x. x == a) xs

module _ {ℓ κ} {A : Type ℓ} (P : A → Type κ) where
  abbrev pub All : List A → Type κ
  All [] = Unit
  All (x ∷ xs) = P x × All xs

  pub All-append : (xs ys : List A) → All xs → All ys → All (xs ++ ys)
  All-append [] ys _ k = k
  All-append (x ∷ xs) ys (p, h) k = (p, All-append xs ys h k)

  pub All-delete_func : (p : A → Bool) (xs : List A) → All xs → All (delete_func p xs)
  All-delete_func p [] h = h
  All-delete_func p (x ∷ xs) (a, h) = ground (arith, All-delete_func p xs h)

-- Go's maps with text keys, as association lists.
module _ {ℓ} {V : Type ℓ} where
  abbrev pub lookup : String → List (String × V) → Option V
  lookup k [] = none
  lookup k ((j, v) ∷ m) = if j == k then some v else lookup k m

  -- `m[k] = v`
  abbrev pub insert : String → V → List (String × V) → List (String × V)
  insert k new [] = (k, new) ∷ []
  insert k new ((key, old) ∷ rest) =
      if key == k then (k, new) ∷ rest else (key, old) ∷ insert k new rest

  -- `delete(m, k)`
  abbrev pub remove : String → List (String × V) → List (String × V)
  remove k [] = []
  remove k ((j, w) ∷ m) = if j == k then remove k m else (j, w) ∷ remove k m

  pub lookup-insert :
      (k other : String) (new : V) (m : List (String × V))
      → lookup other (insert k new m) ≡ (if k == other then some new else lookup other m)
  lookup-insert k other new [] = refl
  lookup-insert k other new ((key, old) ∷ rest) =
      ground (arith, lookup-insert k other new rest, eq_iff key k, eq_iff key other, eq_iff k other)

  pub lookup-remove :
      (k j : String) (m : List (String × V))
      → lookup j (remove k m) ≡ (if k == j then none else lookup j m)
  lookup-remove k j [] = ground arith
  lookup-remove k j ((i, w) ∷ m) =
      ground (arith, eq_iff k j, eq_iff i k, eq_iff i j, lookup-remove k j m)
