-- ===== src/Prelude/Lists.antt =====
-- Lists measured by native numbers, under the library's names, and predicates by recursion.
use Prim.Native.Nat.{ℕ, zero, suc, ◌+◌, ◌-◌, ◌≤◌, ◌<◌}
use mathlib.Core.Path.{◌≡◌, refl}
use mathlib.Core.Bool.{Bool, true, false, ◌||◌}
use mathlib.Core.List.{List, [], ◌∷◌, ◌++◌}
use mathlib.Core.Logic.{inl, inr}
use native.Mathlib.Omega.{arith}
use nunchi.Prelude.Tests.{if◌then◌else◌, Eq, ◌==◌, Bool-cases, ==_refl, ==_iff}

module _ {ℓ} {A : Type ℓ} where
  abbrev pub length : List A → ℕ
  length [] = 0
  length (x ∷ xs) = suc (length xs)

  abbrev pub drop : ℕ → List A → List A
  drop zero xs = xs
  drop (suc n) [] = []
  drop (suc n) (x ∷ xs) = drop n xs

  abbrev pub take : ℕ → List A → List A
  take zero xs = []
  take (suc n) [] = []
  take (suc n) (x ∷ xs) = x ∷ take n xs

  -- How many items pass a test.
  abbrev pub count : (A → Bool) → List A → ℕ
  count p [] = 0
  count p (x ∷ xs) = let rest = count p xs in if p x then suc rest else rest

  abbrev pub keep : (A → Bool) → List A → List A
  keep p [] = []
  keep p (x ∷ xs) = let rest = keep p xs in if p x then x ∷ rest else rest

  abbrev pub any : (A → Bool) → List A → Bool
  any p [] = false
  any p (x ∷ xs) = p x || any p xs

  pub length-append : (xs ys : List A) → length (xs ++ ys) ≡ length xs + length ys
  length-append [] ys = omega arith
  length-append (x ∷ xs) ys = omega (arith, length-append xs ys)

  pub length-drop : (n : ℕ) (xs : List A) → length (drop n xs) ≡ length xs - n
  length-drop zero xs = omega arith
  length-drop (suc n) [] = omega arith
  length-drop (suc n) (x ∷ xs) = omega (arith, length-drop n xs)

  pub count-append : (p : A → Bool) (xs ys : List A) → count p (xs ++ ys) ≡ count p xs + count p ys
  count-append p [] ys = omega arith
  count-append p (x ∷ xs) ys = ground (arith, count-append p xs ys)

  pub count-le-length : (p : A → Bool) (xs : List A) → count p xs ≤ length xs
  count-le-length p [] = omega arith
  count-le-length p (x ∷ xs) = ground (arith, count-le-length p xs)

-- What holds of each item of a list.
abbrev pub All {ℓ κ} : {A : Type ℓ} → (A → Type κ) → List A → Type κ
All P [] = Unit
All P (x ∷ xs) = P x × All P xs

abbrev pub elem {ℓ} : {A : Type ℓ} ⦃e : Eq A⦄ → A → List A → Bool
elem a [] = false
elem a (x ∷ xs) = a == x || elem a xs

-- A list of numbers that falls strictly, from below a bound.
abbrev pub Descends : ℕ → List ℕ → Type 0
Descends b [] = Unit
Descends b (x ∷ xs) = (x < b) × Descends x xs

pub Descends-mono : (b c : ℕ) (xs : List ℕ) → b ≤ c → Descends b xs → Descends c xs
Descends-mono b c [] h d = tt
Descends-mono b c (x ∷ xs) h d = (omega arith, d.1)

-- `set.add`
abbrev pub add {ℓ} : {A : Type ℓ} ⦃e : Eq A⦄ → A → List A → List A
add a xs = if elem a xs then xs else a ∷ xs

pub or_later : (a b : Bool) → a ≡ false → (a || b) ≡ true → b ≡ true
or_later a b f h = ground (arith, f, h)

pub or_left : (a b : Bool) → a ≡ true → (a || b) ≡ true
or_left a b h = ground (arith, h)

pub or_right : (a b : Bool) → b ≡ true → (a || b) ≡ true
or_right a b h = ground (arith, h)

module _ {ℓ} {A : Type ℓ} ⦃e : Eq A⦄ where
  pub elem-add : (x a : A) (xs : List A) → elem x xs ≡ true → elem x (add a xs) ≡ true
  elem-add x a xs h = elim (Bool-cases (elem a xs)) [
    | inl old ↦ rw old h
    | inr new ↦ rw new (or_right (x == a) (elem x xs) h)
  ]

  pub elem-add_self : (a : A) (xs : List A) → elem a (add a xs) ≡ true
  elem-add_self a xs = elim (Bool-cases (elem a xs)) [
    | inl old ↦ rw old old
    | inr new ↦ rw new (rw (==_refl a) refl)
  ]

  pub elem-add_mono :
      (x a : A) (xs ys : List A)
      → (elem x xs ≡ true → elem x ys ≡ true)
      → elem x (add a xs) ≡ true
      → elem x (add a ys) ≡ true
  elem-add_mono x a xs ys f h = added (elem a xs) h
    where
      added : (t : Bool) → elem x (if t then xs else a ∷ xs) ≡ true → elem x (add a ys) ≡ true
      added true h = elem-add x a ys (f h)
      added false h = elim (Bool-cases (x == a)) [
        | inl same ↦ rw ((==_iff x a).0 same) (elem-add_self a ys)
        | inr other ↦ elem-add x a ys (f (or_later (x == a) (elem x xs) other h))
      ]
