-- ===== src/Prelude/Tests.antt =====
-- Boolean tests on numbers and on types with a decidable equality, and case splits.
use Prim.Native.Nat.{ℕ, suc, ◌≤◌, ◌<◌, compare, Ordering}
use mathlib.Core.Bool.{Bool, true, false}
use mathlib.Core.Logic.{◌⊎◌, inl, inr}
use mathlib.Core.Option.{Option, none, some}
use mathlib.Core.Path.{◌≡◌, refl, ap}
use native.Mathlib.Omega.{arith}

abbrev pub ltb : ℕ → ℕ → Bool
ltb a b = elim (compare a b) [ Ordering.lt ↦ true | _ ↦ false ]

abbrev pub leb : ℕ → ℕ → Bool
leb a b = elim (compare a b) [ Ordering.gt ↦ false | _ ↦ true ]

infix 50 ◌==◌
abbrev pub ◌==◌ : ℕ → ℕ → Bool
a == b = elim (compare a b) [ Ordering.eq ↦ true | _ ↦ false ]

infix 1 if◌then◌else◌
abbrev pub if◌then◌else◌ {ℓ} : {A : Type ℓ} → Bool → A → A → A
if true then x else y = x
if false then x else y = y

-- `a == b` where the equality is derived.
abbrev pub equal {ℓ} : {A : Type ℓ} → Discrete A → A → A → Bool
equal dec a b = elim (dec a b) [ yes _ ↦ true | no _ ↦ false ]

pub equal_refl {ℓ} : {A : Type ℓ} (dec : Discrete A) (a : A) → equal dec a a ≡ true
equal_refl dec a = ground arith

pub Bool-cases : (b : Bool) → (b ≡ true) ⊎ (b ≡ false)
Bool-cases true = inl refl
Bool-cases false = inr refl

pub Option-cases {ℓ} : {A : Type ℓ} (o : Option A) → (o ≡ none) ⊎ ((a : A) × (o ≡ some a))
Option-cases none = inl refl
Option-cases (some a) = inr (a, refl)

abbrev pub is_some {ℓ} : {A : Type ℓ} → Option A → Bool
is_some none = false
is_some (some a) = true

pub ltb→lt : (a b : ℕ) → ltb a b ≡ true → a < b
ltb→lt a b h = ground arith

pub lt→ltb : (a b : ℕ) → a < b → ltb a b ≡ true
lt→ltb a b h = ground arith

pub ltb-false : (a b : ℕ) → b ≤ a → ltb a b ≡ false
ltb-false a b h = ground arith

pub le→leb : (a b : ℕ) → a ≤ b → leb a b ≡ true
le→leb a b h = ground arith

pub leb-false : (a b : ℕ) → b < a → leb a b ≡ false
leb-false a b h = ground arith

pub eq→== : (a b : ℕ) → a ≡ b → (a == b) ≡ true
eq→== a b h = ground arith

module _ {ℓ} {A : Type ℓ} (dec : Discrete A) (a b : A) where
  pub equal_yes : a ≡ b → equal dec a b ≡ true
  equal_yes h = ground arith

  pub equal_no : ¬ (a ≡ b) → equal dec a b ≡ false
  equal_no h = ground arith

  pub equal→≡ : equal dec a b ≡ true → a ≡ b
  equal→≡ h = ground arith

  pub equal→≢ : equal dec a b ≡ false → ¬ (a ≡ b)
  equal→≢ h = λ e. ground arith

-- `bytes.len() < 1` fails where there is a byte.
pub ltb-suc-one : (n : ℕ) → ltb (suc n) 1 ≡ false
ltb-suc-one n = ltb-false (suc n) 1 (omega arith)

module _ {ℓ} {A : Type ℓ} {b : Bool} (x y : A) where
  pub if-true : b ≡ true → (if b then x else y) ≡ x
  if-true e = ap (λ c. if c then x else y) e

  pub if-false : b ≡ false → (if b then x else y) ≡ y
  if-false e = ap (λ c. if c then x else y) e
