-- ===== src/Prelude/Tests.antt =====
-- Boolean tests: orders on the native numbers, and one equality test for numbers and texts.
use Prim.Native.Nat.{ℕ, compare, Ordering}
use Prim.Native.String.{String}
use mathlib.Core.Path.{◌≡◌, refl}
use mathlib.Core.Logic.{◌↔◌, ◌⊎◌, inl, inr}
use mathlib.Core.Bool.{Bool, true, false, ◌&&◌, not}
use mathlib.Core.Option.{Option, none, some}
use native.Mathlib.Omega.{arith}
use text.Mathlib.Text.{◌==◌ as str_eq}
use text.Mathlib.TextEquality.{eq_iff}

abbrev pub ltb : ℕ → ℕ → Bool
ltb a b = elim (compare a b) [ Ordering.lt ↦ true | _ ↦ false ]

abbrev pub leb : ℕ → ℕ → Bool
leb a b = elim (compare a b) [ Ordering.gt ↦ false | _ ↦ true ]

abbrev pub nat_eq : ℕ → ℕ → Bool
nat_eq a b = elim (compare a b) [ Ordering.eq ↦ true | _ ↦ false ]

pub nat_eq_iff : (a b : ℕ) → (nat_eq a b ≡ true) ↔ (a ≡ b)
nat_eq_iff a b = ground arith

infix 1 if◌then◌else◌
abbrev pub if◌then◌else◌ {ℓ} : {A : Type ℓ} → Bool → A → A → A
if true then x else y = x
if false then x else y = y

-- An equality test that decides equality.
pub record Eq {ℓ} (A : Type ℓ) : Type ℓ where
  pub test : A → A → Bool
  pub decides : (x y : A) → (test x y ≡ true) ↔ (x ≡ y)

instance abbrev pub string_has_eq : Eq String
string_has_eq = record { decides = eq_iff; test = str_eq }

instance abbrev pub nat_has_eq : Eq ℕ
nat_has_eq = record { decides = nat_eq_iff; test = nat_eq }

infix 50 ◌==◌
abbrev pub ◌==◌ {ℓ} : {A : Type ℓ} ⦃tests : Eq A⦄ → A → A → Bool
◌==◌ ⦃tests⦄ = tests.test

pub ==_iff {ℓ} : {A : Type ℓ} ⦃tests : Eq A⦄ (a b : A) → ((a == b) ≡ true) ↔ (a ≡ b)
==_iff ⦃tests⦄ a b = tests.decides a b

pub ==_refl {ℓ} : {A : Type ℓ} ⦃tests : Eq A⦄ (a : A) → (a == a) ≡ true
==_refl ⦃tests⦄ a = (tests.decides a a).1 refl

-- To split on a computed value and keep the equation.
pub Bool-cases : (b : Bool) → (b ≡ true) ⊎ (b ≡ false)
Bool-cases true = inl refl
Bool-cases false = inr refl

pub Option-cases {ℓ} : {A : Type ℓ} (o : Option A) → (o ≡ none) ⊎ ((a : A) × (o ≡ some a))
Option-cases none = inl refl
Option-cases (some a) = inr (a, refl)

pub false_is_not_true : false ≡ true → ⊥
false_is_not_true h = ground (arith, h)

pub passed_both : (a b : Bool) → (a && b) ≡ true → (a ≡ true) × (b ≡ true)
passed_both a b h = ground (arith, h)

pub not-true : (b : Bool) → not b ≡ true → b ≡ false
not-true b h = ground (arith, h)

pub both : (a b : Bool) → a ≡ true → b ≡ true → (a && b) ≡ true
both a b h k = ground (arith, h, k)

module _ {ℓ} {A : Type ℓ} (a b : A) where
  pub none_is_not : none ≡ some a → ⊥
  none_is_not e = cc

  pub some_same : some a ≡ some b → a ≡ b
  some_same e = cc
