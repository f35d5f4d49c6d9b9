-- ===== src/Prelude/Keys.antt =====
-- Lists of values under a text key: which keys stand in them, and that none stands twice.
use Prim.Native.String.{String}
use mathlib.Core.Logic.{inl, inr}
use mathlib.Core.Path.{◌≡◌, refl}
use mathlib.Core.Bool.{Bool, true, false, ◌||◌}
use mathlib.Core.Option.{Option, none, some}
use mathlib.Core.List.{List, [], ◌∷◌, ◌++◌}
use native.Mathlib.Omega.{arith}
use text.Mathlib.Text.{◌==◌}
use text.Mathlib.TextEquality.{eq_iff}
use iron_link.Prelude.Logic.{Bool-cases}
use iron_link.Prelude.Lists.{any, find, delete_func, replace_first, any-append}

module _ {ℓ} {A : Type ℓ} (key : A → String) where
  abbrev pub has_key : List A → String → Bool
  has_key xs a = any (λ x. key x == a) xs

  -- No two values share a key.
  abbrev pub DistinctBy : List A → Type 0
  DistinctBy [] = Unit
  DistinctBy (x ∷ xs) = (has_key xs (key x) ≡ false) × DistinctBy xs

  pub has_key-append :
      (xs ys : List A) (a : String) → has_key (xs ++ ys) a ≡ (has_key xs a || has_key ys a)
  has_key-append xs ys a = any-append (λ x. key x == a) xs ys

  pub DistinctBy-append_one :
      (xs : List A) (y : A) → DistinctBy xs → has_key xs (key y) ≡ false → DistinctBy (xs ++ y ∷ [])
  DistinctBy-append_one [] y _ _ = (refl, tt)
  DistinctBy-append_one (x ∷ xs) y (p, d) h = (
    ground
        (arith, has_key-append xs (y ∷ []) (key x), eq_iff (key y) (key x), eq_iff (key x) (key y)),
    DistinctBy-append_one xs y d (ground arith),
  )

  pub has_key-delete_func :
      (p : A → Bool) (xs : List A) (a : String)
      → has_key xs a ≡ false
      → has_key (delete_func p xs) a ≡ false
  has_key-delete_func p [] a h = refl
  has_key-delete_func p (x ∷ xs) a h = ground (arith, has_key-delete_func p xs a)

  pub DistinctBy-delete_func :
      (p : A → Bool) (xs : List A) → DistinctBy xs → DistinctBy (delete_func p xs)
  DistinctBy-delete_func p [] _ = tt
  DistinctBy-delete_func p (x ∷ xs) (h, d) =
      ground (arith, DistinctBy-delete_func p xs d, has_key-delete_func p xs (key x) h)

  -- Deleting the values under one key leaves the other keys where they are.
  pub has_key-delete_other :
      (xs : List A) (a b : String)
      → (a == b) ≡ false
      → has_key (delete_func (λ x. key x == a) xs) b ≡ has_key xs b
  has_key-delete_other [] a b h = refl
  has_key-delete_other (x ∷ xs) a b h =
      ground (arith, has_key-delete_other xs a b h, eq_iff (key x) a, eq_iff (key x) b, eq_iff a b)

  -- A write that keeps the key of the value under `a` keeps every key.
  pub has_key-replace_first :
      (f : A → A) (xs : List A) (a b : String)
      → ((x : A) → (key x == a) ≡ true → key (f x) ≡ key x)
      → has_key (replace_first (λ x. key x == a) f xs) b ≡ has_key xs b
  has_key-replace_first f [] a b h = refl
  has_key-replace_first f (x ∷ xs) a b h =
      ground (arith, has_key-replace_first f xs a b h, h x, eq_iff (key (f x)) b, eq_iff (key x) b)

  -- A write that keeps every key keeps the keys distinct.
  has_key-write :
      (p : A → Bool) (f : A → A) (xs : List A) (a : String)
      → ((x : A) → key (f x) ≡ key x)
      → has_key (replace_first p f xs) a ≡ has_key xs a
  has_key-write p f [] a h = refl
  has_key-write p f (x ∷ xs) a h =
      ground (arith, has_key-write p f xs a h, h x, eq_iff (key (f x)) a, eq_iff (key x) a)

  pub DistinctBy-replace_first :
      (p : A → Bool) (f : A → A) (xs : List A)
      → ((x : A) → key (f x) ≡ key x)
      → DistinctBy xs
      → DistinctBy (replace_first p f xs)
  DistinctBy-replace_first p f [] h _ = tt
  DistinctBy-replace_first p f (x ∷ xs) h (e, d) = elim (Bool-cases (p x)) [
    | inl q ↦ rw q (rw (h x) e, d)
    | inr q ↦ rw q (rw (has_key-write p f xs (key x) h) e, DistinctBy-replace_first p f xs h d)
  ]

  -- What the search by key returns has that key.
  pub find-key : (xs : List A) (a : String) (x : A) → find (λ y. key y == a) xs ≡ some x → key x ≡ a
  find-key [] a x h = cc
  find-key (y ∷ ys) a x h = ground (arith, find-key ys a x, eq_iff (key y) a)

  -- With distinct keys, a value that passes a test is the one its key finds.
  pub has_key-find :
      (xs : List A) (a : String) (x : A) → find (λ y. key y == a) xs ≡ some x → has_key xs a ≡ true
  has_key-find [] a x h = cc
  has_key-find (y ∷ ys) a x h = ground (arith, has_key-find ys a x)

-- The selection, if any, is the key of a value in the list.
abbrev pub selects {ℓ} : {A : Type ℓ} → (A → String) → Option String → List A → Bool
selects key none xs = true
selects key (some a) xs = has_key key xs a
