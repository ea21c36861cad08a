-- ===== src/Observation/Times.antt =====
-- The time of a new gap, and the loop that looks for it.
use nunchi.Observation.Audit.{free_time}
use nunchi.Prelude.{
  ℕ, List, count, ◌+◌, elem, ◌≤◌, leb, arith, ◌≡◌, ◌∷◌, true, false, [], suc, nat_has_eq,
  false_is_not_true, Bool, ◌||◌, Bool-cases, nat_eq, inl, inr, zero, length, count-le-length,
}

-- How many of the times are not before one.
abbrev from : ℕ → List ℕ → ℕ
from at ts = count (leb at) ts

from_next : (at : ℕ) (ts : List ℕ) → from (at + 1) ts ≤ from at ts
from_next at [] = omega arith
from_next at (t ∷ ts) = ground (arith, from_next at ts)

from_found : (at : ℕ) (ts : List ℕ) → elem at ts ≡ true → suc (from (at + 1) ts) ≤ from at ts
from_found at [] h = absurd (false_is_not_true h)
from_found at (t ∷ ts) h = elim (Bool-cases (nat_eq at t)) [
  | inl same ↦ ground (arith, same, from_next at ts)
  | inr other ↦ ground (arith, other, from_found at ts (later (nat_eq at t) other h))
]
  where
    later : (b : Bool) → b ≡ false → (b || elem at ts) ≡ true → elem at ts ≡ true
    later b f h = ground (arith, f, h)

elem-from : (at : ℕ) (ts : List ℕ) → from at ts ≡ 0 → elem at ts ≡ false
elem-from at ts h = elim (Bool-cases (elem at ts)) [
  | inl found ↦ absurd (omega (arith, from_found at ts found, h))
  | inr free ↦ free
]

-- With fuel for the times that are not before `at`, the loop ends at a free time, and passes at most
-- as many as its fuel.
free_within :
    (n at : ℕ) (taken : List ℕ)
    → from at taken ≤ n
    → (elem (free_time n at taken) taken ≡ false)
      × ((at ≤ free_time n at taken) × (free_time n at taken ≤ at + n))
unfolding free_time
free_within zero at taken h = (elem-from at taken (omega (arith, h)), omega arith)
free_within (suc n) at taken h = elim (Bool-cases (elem at taken)) [
  | inl found ↦
      let rest = free_within n (at + 1) taken (omega (arith, from_found at taken found, h)) in
      rw found (rest.0, omega (arith, rest.1))
  | inr free ↦ rw free (free, omega arith)
]

-- The search for the time of a new gap ends: it stops at a time that no other gap has, not before
-- the clock's and at most one millisecond later for each gap.
pub free_time-ends :
    (at : ℕ) (taken : List ℕ)
    → (elem (free_time (length taken) at taken) taken ≡ false)
      × ((at ≤ free_time (length taken) at taken)
          × (free_time (length taken) at taken ≤ at + length taken))
free_time-ends at taken = free_within (length taken) at taken (count-le-length (leb at) taken)
