-- ===== src/Gaps/Order.antt =====
-- The order and the number of the gaps that `_with_gap` gives.
use nunchi.Prelude.{
  ℕ, Bool, List, ◌∷◌, ◌≤◌, keep, suc, arith, Bool-cases, ◌≢◌, not, [], inl, ◌==◌, inr, nat_has_eq,
  ◌<◌, ◌++◌, Option, sym, ltb, length, ◌+◌, ◌≡◌, zero,
}
use nunchi.Gaps.{
  Gap, ℕ, insert_gap, List, ◌∷◌, keep, before, sort_gaps, merge_oldest, with_gap, later_time,
  length, max_gaps, merge, gap_at,
}

-- Strictly ascending positions, from a bound on.
abbrev pub Ascends : ℕ → List Gap → Type 0
Ascends b [] = Unit
Ascends b (g ∷ gs) = (b ≤ g.arrival) × Ascends (suc g.arrival) gs

Ascends-mono : (b c : ℕ) (gs : List Gap) → c ≤ b → Ascends b gs → Ascends c gs
Ascends-mono b c [] h a = tt
Ascends-mono b c (g ∷ gs) h a = (omega arith, a.1)

Ascends-keep : (p : Gap → Bool) (b : ℕ) (gs : List Gap) → Ascends b gs → Ascends b (keep p gs)
Ascends-keep p b [] a = tt
Ascends-keep p b (g ∷ gs) a = elim (Bool-cases (p g)) [
  | inl stays ↦ rw stays (a.0, Ascends-keep p (suc g.arrival) gs a.1)
  | inr goes ↦ rw goes (
      Ascends-mono (suc g.arrival) b (keep p gs) (omega arith)
        (Ascends-keep p (suc g.arrival) gs a.1))
]

-- No gap of a list is at a position.
abbrev Avoids : ℕ → List Gap → Type 0
Avoids a [] = Unit
Avoids a (g ∷ gs) = (g.arrival ≢ a) × Avoids a gs

Avoids-keep : (a : ℕ) (gs : List Gap) → Avoids a (keep (λ g. not (g.arrival == a)) gs)
Avoids-keep a [] = tt
Avoids-keep a (g ∷ gs) = elim (Bool-cases (g.arrival == a)) [
  | inl same ↦ rw same (Avoids-keep a gs)
  | inr other ↦ rw other (λ e. ground (arith, e), Avoids-keep a gs)
]

Ascends-insert_gap :
    (g : Gap) (b : ℕ) (gs : List Gap)
    → b ≤ g.arrival
    → Avoids g.arrival gs
    → Ascends b gs
    → Ascends b (insert_gap g gs)
unfolding insert_gap
Ascends-insert_gap g b [] h n a = (h, tt)
Ascends-insert_gap g b (x ∷ xs) h n a = elim (Bool-cases (before x g)) [
  | inl up ↦ rw up (a.0, Ascends-insert_gap g (suc x.arrival) xs (ground (arith, n.0)) n.1 a.1)
  | inr down ↦ rw down (h, (ground arith, a.1))
]

Avoids-insert_gap :
    (a : ℕ) (g : Gap) (gs : List Gap) → g.arrival ≢ a → Avoids a gs → Avoids a (insert_gap g gs)
unfolding insert_gap
Avoids-insert_gap a g [] h n = (h, tt)
Avoids-insert_gap a g (x ∷ xs) h n = elim (Bool-cases (before x g)) [
  | inl up ↦ rw up (n.0, Avoids-insert_gap a g xs h n.1)
  | inr down ↦ rw down (h, n)
]

Avoids-sort_gaps : (a : ℕ) (gs : List Gap) → Avoids a gs → Avoids a (sort_gaps gs)
unfolding sort_gaps
Avoids-sort_gaps a [] n = tt
Avoids-sort_gaps a (g ∷ gs) n = Avoids-insert_gap a g (sort_gaps gs) n.0 (Avoids-sort_gaps a gs n.1)

abbrev Distinct : List Gap → Type 0
Distinct [] = Unit
Distinct (g ∷ gs) = Avoids g.arrival gs × Distinct gs

Ascends-sort_gaps : (gs : List Gap) → Distinct gs → Ascends 0 (sort_gaps gs)
unfolding sort_gaps
Ascends-sort_gaps [] d = tt
Ascends-sort_gaps (g ∷ gs) d =
    Ascends-insert_gap g 0 (sort_gaps gs) (omega arith) (Avoids-sort_gaps g.arrival gs d.0)
      (Ascends-sort_gaps gs d.1)

Ascends-Avoids : (a b : ℕ) (gs : List Gap) → a < b → Ascends b gs → Avoids a gs
Ascends-Avoids a b [] h s = tt
Ascends-Avoids a b (g ∷ gs) h s =
    (omega arith, Ascends-Avoids a (suc g.arrival) gs (omega arith) s.1)

Avoids-append :
    (a : ℕ) (gs : List Gap) (x : Gap) → x.arrival ≢ a → Avoids a gs → Avoids a (gs ++ x ∷ [])
Avoids-append a [] x h n = (h, tt)
Avoids-append a (g ∷ gs) x h n = (n.0, Avoids-append a gs x h n.1)

Distinct-append :
    (b : ℕ) (gs : List Gap) (x : Gap) → Ascends b gs → Avoids x.arrival gs → Distinct (gs ++ x ∷ [])
Distinct-append b [] x s n = (tt, tt)
Distinct-append b (g ∷ gs) x s n = (
  Avoids-append g.arrival gs x (λ e. n.0 (sym e))
      (Ascends-Avoids g.arrival (suc g.arrival) gs (omega arith) s.1),
  Distinct-append (suc g.arrival) gs x s.1 n.1,
)

Ascends-merge_oldest : (n b : ℕ) (gs : List Gap) → Ascends b gs → Ascends b (merge_oldest n gs)
unfolding merge_oldest
Ascends-merge_oldest (suc n) b (x ∷ y ∷ gs) a =
    elim (Bool-cases (ltb max_gaps (length (x ∷ y ∷ gs)))) [
      | inl many ↦ rw many (Ascends-merge_oldest n b (merge x y ∷ gs) (omega arith, a.1.1))
      | inr few ↦ rw few a
    ]
Ascends-merge_oldest zero b gs a = a
Ascends-merge_oldest (suc n) b [] a = a
Ascends-merge_oldest (suc n) b (x ∷ []) a = a

length-merge_oldest :
    (n : ℕ) (gs : List Gap) → length gs ≤ n + max_gaps → length (merge_oldest n gs) ≤ max_gaps
unfolding merge_oldest
length-merge_oldest (suc n) (x ∷ y ∷ gs) h =
    elim (Bool-cases (ltb max_gaps (length (x ∷ y ∷ gs)))) [
      | inl many ↦ rw many (length-merge_oldest n (merge x y ∷ gs) (omega arith))
      | inr few ↦ rw few (ground arith)
    ]
length-merge_oldest zero gs h = omega arith
length-merge_oldest (suc n) [] h = omega arith
length-merge_oldest (suc n) (x ∷ []) h = omega arith

pub later_time_arrival :
    (new : Gap) (same : Option Gap) → (later_time new same).arrival ≡ new.arrival
later_time_arrival new same = ground arith

-- The sorted gaps of `_with_gap` are in order.
pub Ascends-with :
    (gaps : List Gap) (new : Gap)
    → Ascends 0 gaps
    → Ascends 0 (
        sort_gaps (
          keep (λ (g : Gap). not (g.arrival == new.arrival)) gaps
          ++ later_time new (gap_at new.arrival gaps) ∷ []))
Ascends-with gaps new a =
    let kept = keep (λ (g : Gap). not (g.arrival == new.arrival)) gaps in
    let x = later_time new (gap_at new.arrival gaps) in
    Ascends-sort_gaps (kept ++ x ∷ []) (
      Distinct-append 0 kept x (Ascends-keep _ 0 gaps a)
        (rw (later_time_arrival new (gap_at new.arrival gaps)) (Avoids-keep new.arrival gaps)))

-- Adding a gap to gaps in order keeps them in order, strictly by their arrival positions, and at
-- most sixteen of them.
pub with_gap_lem :
    (gaps : List Gap) (new : Gap)
    → Ascends 0 gaps
    → Ascends 0 (with_gap gaps new) × (length (with_gap gaps new) ≤ max_gaps)
unfolding with_gap
with_gap_lem gaps new a =
    let sorted = sort_gaps (
      keep (λ (g : Gap). not (g.arrival == new.arrival)) gaps
      ++ later_time new (gap_at new.arrival gaps) ∷ []) in
    (
      Ascends-merge_oldest (length sorted) 0 sorted (Ascends-with gaps new a),
      length-merge_oldest (length sorted) sorted (omega arith),
    )
