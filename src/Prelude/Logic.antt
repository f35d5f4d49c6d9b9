-- ===== src/Prelude/Logic.antt =====
-- Tests on numbers, branching, case lemmas, and results that are a value or an error.
use Prim.Native.Nat.{ℕ, compare, Ordering}
use mathlib.Core.Path.{◌≡◌, refl, ap}
use mathlib.Core.Logic.{◌⊎◌, inl, inr, ◌↔◌}
use mathlib.Core.Bool.{Bool, true, false, not, ◌&&◌}
use mathlib.Core.Option.{Option, none, some}
use native.Mathlib.Omega.{arith}

abbrev pub ltb : ℕ → ℕ → Bool
ltb a b = elim (compare a b) [ Ordering.lt ↦ true | _ ↦ false ]

abbrev pub leb : ℕ → ℕ → Bool
leb a b = elim (compare a b) [ Ordering.gt ↦ false | _ ↦ true ]

abbrev pub eqb : ℕ → ℕ → Bool
eqb a b = elim (compare a b) [ Ordering.eq ↦ true | _ ↦ false ]

infix 1 if◌then◌else◌
abbrev pub if◌then◌else◌ {ℓ} : {A : Type ℓ} → Bool → A → A → A
if true then x else y = x
if false then x else y = y

pub Bool-cases : (b : Bool) → (b ≡ true) ⊎ (b ≡ false)
Bool-cases true = inl refl
Bool-cases false = inr refl

pub Option-cases {ℓ} : {A : Type ℓ} (o : Option A) → (o ≡ none) ⊎ ((a : A) × (o ≡ some a))
Option-cases none = inl refl
Option-cases (some a) = inr (a, refl)

abbrev pub is_some {ℓ} : {A : Type ℓ} → Option A → Bool
is_some none = false
is_some (some _) = true

pub and-eq-true : (a b : Bool) → (a && b) ≡ true → (a ≡ true) × (b ≡ true)
and-eq-true a b h = ground arith

-- A Go function that returns a value or an error.
pub data Result {ℓ κ} (E : Type ℓ) (A : Type κ) : Type (ℓ ⊔ κ) where
  ok : A → Result E A
  err : E → Result E A

abbrev pub is_ok {ℓ κ} : {E : Type ℓ} {A : Type κ} → Result E A → Bool
is_ok (ok a) = true
is_ok (err e) = false

infixl 5 ◌>>=◌ ◌>>◌
abbrev pub ◌>>=◌ {ℓ κ ι} :
    {E : Type ℓ} {A : Type κ} {B : Type ι} → Result E A → (A → Result E B) → Result E B
ok a >>= f = f a
err e >>= f = err e

abbrev pub ◌>>◌ {ℓ κ} : {E : Type ℓ} {B : Type κ} → Result E (Unit {0}) → Result E B → Result E B
m >> k = m >>= λ _. k

-- `if bad { return err }`
abbrev pub reject_if {ℓ} : {E : Type ℓ} → Bool → E → Result E (Unit {0})
reject_if true e = err e
reject_if false e = ok tt

pub >>=-eq-ok {ℓ κ ι} :
    {E : Type ℓ} {A : Type κ} {B : Type ι} (m : Result E A) (next : A → Result E B) {out : B}
    → (m >>= next) ≡ ok out
    → (v : A) × (m ≡ ok v) × (next v ≡ ok out)
>>=-eq-ok (ok v) next h = (v, refl, h)
>>=-eq-ok (err e) next h = cc

pub Result-cases {ℓ κ} :
    {E : Type ℓ} {A : Type κ} (r : Result E A) → ((a : A) × (r ≡ ok a)) ⊎ ((e : E) × (r ≡ err e))
Result-cases (ok a) = inl (a, refl)
Result-cases (err e) = inr (e, refl)

-- Both steps of a sequence succeed when it does, and the other way round.
pub >>-ok {ℓ κ} :
    {E : Type ℓ} {B : Type κ} (m : Result E (Unit {0})) (k : Result E B) (b : B)
    → ((m >> k) ≡ ok b) ↔ ((m ≡ ok tt) × (k ≡ ok b))
>>-ok (ok tt) k b = ((λ h. (refl, h)), (λ h. h.1))
>>-ok (err e) k b = ((λ h. cc), (λ h. cc (h.0)))

pub reject_if-ok {ℓ} : {E : Type ℓ} (b : Bool) (e : E) → (reject_if b e ≡ ok tt) ↔ (b ≡ false)
reject_if-ok true e = ((λ h. cc), (λ h. cc))
reject_if-ok false e = ((λ h. refl), (λ h. refl))

pub ok-injective {ℓ κ} :
    {E : Type ℓ} {A : Type κ} {a b : A} → ◌≡◌ {A = Result E A} (ok a) (ok b) → a ≡ b
ok-injective h = cc

-- The value, or an error where there is none.
abbrev pub of_option {ℓ κ} : {E : Type ℓ} {A : Type κ} → E → Option A → Result E A
of_option e none = err e
of_option e (some a) = ok a

pub of_option-ok {ℓ κ} :
    {E : Type ℓ} {A : Type κ} (e : E) (o : Option A) {a : A} → of_option e o ≡ ok a → o ≡ some a
of_option-ok e none h = cc
of_option-ok e (some a) h = ap some (ok-injective h)

-- `if !good { return err }`
pub reject_if-not-ok {ℓ} :
    {E : Type ℓ} (good : Bool) (e : E) → (reject_if (not good) e ≡ ok tt) ↔ (good ≡ true)
reject_if-not-ok true e = ((λ h. refl), (λ h. refl))
reject_if-not-ok false e = ((λ h. cc), (λ h. cc))

-- A sequence of checks passes when each of them does.
pub >>-iff {ℓ κ ι} :
    {E : Type ℓ} {P : Type κ} {Q : Type ι} (m k : Result E (Unit {0}))
    → (m ≡ ok tt) ↔ P
    → (k ≡ ok tt) ↔ Q
    → ((m >> k) ≡ ok tt) ↔ (P × Q)
>>-iff (ok tt) k p q = ((λ h. (p.0 refl, q.0 h)), (λ h. q.1 (h.1)))
>>-iff (err e) k p q = ((λ h. cc), (λ h. let no = p.1 (h.0) in cc))

pub ↔_trans {ℓ κ ι} : {P : Type ℓ} {Q : Type κ} {R : Type ι} → P ↔ Q → Q ↔ R → P ↔ R
↔_trans a b = ((λ p. b.0 (a.0 p)), (λ r. a.1 (b.1 r)))
