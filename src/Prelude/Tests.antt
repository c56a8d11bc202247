-- ===== src/Prelude/Tests.antt =====
-- Boolean tests on the native numbers, branching, and results of code that may raise.
use Prim.Native.Nat.{ℕ, ◌≤◌, ◌<◌, compare, Ordering}
use mathlib.Core.Path.{◌≡◌, refl, ap}
use mathlib.Core.Logic.{◌⊎◌, inl, inr}
use mathlib.Core.Bool.{Bool, true, false}
use mathlib.Core.Option.{Option, none, some}
use native.Mathlib.Omega.{arith}

abbrev pub ltb : ℕ → ℕ → Bool
ltb a b = elim (compare a b) [ Ordering.lt ↦ true | _ ↦ false ]

abbrev pub leb : ℕ → ℕ → Bool
leb a b = elim (compare a b) [ Ordering.gt ↦ false | _ ↦ true ]

infix 50 ◌==◌
abbrev pub ◌==◌ : ℕ → ℕ → Bool
a == b = elim (compare a b) [ Ordering.eq ↦ true | _ ↦ false ]

infix 1 if◌then◌else◌
abbrev pub if◌then◌else◌ {ℓ} : {A : Type ℓ} → Bool → A → A → A
if true then x else y = x
if false then x else y = y

pub ltb→lt : (a b : ℕ) → ltb a b ≡ true → a < b
ltb→lt a b h = ground arith

pub ltb→le : (a b : ℕ) → ltb a b ≡ false → b ≤ a
ltb→le a b h = ground arith

pub eq→≡ : (a b : ℕ) → (a == b) ≡ true → a ≡ b
eq→≡ a b h = ground arith

pub eq_self : (a : ℕ) → (a == a) ≡ true
eq_self a = ground arith

pub Bool-cases : (b : Bool) → (b ≡ true) ⊎ (b ≡ false)
Bool-cases true = inl refl
Bool-cases false = inr refl

pub Option-cases {ℓ} : {A : Type ℓ} (o : Option A) → (o ≡ none) ⊎ ((a : A) × (o ≡ some a))
Option-cases none = inl refl
Option-cases (some a) = inr (a, refl)

-- The exceptions that the modelled code and its SQL statements raise; the last is none of them, and
-- says that a loop of the model has spent its rounds.
pub data Error : Type 0 where
  value_error integrity_error type_error out_of_rounds : Error

pub data Result {ℓ} (A : Type ℓ) : Type ℓ where
  ok : A → Result A
  err : Error → Result A

-- `x is not None`
abbrev pub is_some {ℓ} : {A : Type ℓ} → Option A → Bool
is_some none = false
is_some (some a) = true

-- A statement that raises ends the block.
infixl 5 ◌>>=◌
abbrev pub ◌>>=◌ {ℓ κ} : {X : Type ℓ} {Y : Type κ} → Result X → (X → Result Y) → Result Y
err raised >>= rest = err raised
ok x >>= rest = rest x

-- Inversion of a chain that did not raise.
pub >>=-eq-ok {ℓ κ} :
    {X : Type ℓ} {Y : Type κ} {y : Y} (m : Result X) (rest : X → Result Y)
    → (m >>= rest) ≡ ok y
    → (x : X) × (m ≡ ok x) × (rest x ≡ ok y)
>>=-eq-ok (err raised) rest h = cc
>>=-eq-ok (ok x) rest h = (x, refl, h)

pub Result-cases {ℓ} :
    {A : Type ℓ} (r : Result A) → ((a : A) × (r ≡ ok a)) ⊎ ((e : Error) × (r ≡ err e))
Result-cases (ok a) = inl (a, refl)
Result-cases (err e) = inr (e, refl)

pub ok-injective {ℓ} : {A : Type ℓ} {a b : A} → ok a ≡ ok b → a ≡ b
ok-injective {A = A} {a} h = ap (or_else a) h
  where
    or_else : A → Result A → A
    or_else a (ok x) = x
    or_else a (err e) = a
