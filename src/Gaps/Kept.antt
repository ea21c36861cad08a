-- ===== src/Gaps/Kept.antt =====
-- What `_with_gap` keeps of the gaps: the relation of a gap to a later one that stands for it.
use mathlib.Core.List.{Memᴰ, []}
use nunchi.Prelude.{
  List, Bool, ℕ, ◌∷◌, ◌≤◌, ◌++◌, ◌⊎◌, Bool-cases, inl, [], ◌≡◌, arith, inr, ltb, true, some, keep,
  length, zero, Option, not, ◌==◌, nat_has_eq, refl,
}
use nunchi.Gaps.{
  Gap, List, insert_gap, sort_gaps, merge_oldest, gap_at, with_gap, ◌∷◌, merge, suc, before,
  max_gaps, later_time, not,
}
use nunchi.Gaps.Order.{Ascends, Ascends-with, later_time_arrival}

-- A gap of the list is at least as late as `g`, in its position and in its time.
abbrev pub Covers : Gap → List Gap → Type 0
Covers g [] = ⊥
Covers g (h ∷ hs) = ((g.arrival ≤ h.arrival) × (g.at ≤ h.at)) ⊎ Covers g hs

-- The second of two gaps that change places.
swapped :
    (g x y : Gap) (ys : List Gap) {R : Type 0}
    → (Covers g (x ∷ ys) → R)
    → Covers g (x ∷ y ∷ ys)
    → ((g.arrival ≤ y.arrival) × (g.at ≤ y.at)) ⊎ R
swapped g x y ys ih (inl first) = inr (ih (inl first))
swapped g x y ys ih (inr (inl second)) = inl second
swapped g x y ys ih (inr (inr rest)) = inr (ih (inr rest))

Covers-insert_gap : (g x : Gap) (gs : List Gap) → Covers g (x ∷ gs) → Covers g (insert_gap x gs)
unfolding insert_gap
Covers-insert_gap g x [] c = c
Covers-insert_gap g x (y ∷ ys) c = elim (Bool-cases (before y x)) [
  | inl up ↦ rw up (swapped g x y ys (Covers-insert_gap g x ys) c)
  | inr down ↦ rw down c
]

Covers-sort_gaps : (g : Gap) (gs : List Gap) → Covers g gs → Covers g (sort_gaps gs)
unfolding sort_gaps
Covers-sort_gaps g [] c = c
Covers-sort_gaps g (x ∷ xs) (inl e) = Covers-insert_gap g x (sort_gaps xs) (inl e)
Covers-sort_gaps g (x ∷ xs) (inr c) =
    Covers-insert_gap g x (sort_gaps xs) (inr (Covers-sort_gaps g xs c))

Covers-merge :
    (g x y : Gap) (gs : List Gap)
    → x.arrival ≤ y.arrival
    → Covers g (x ∷ y ∷ gs)
    → Covers g (merge x y ∷ gs)
Covers-merge g x y gs h (inl e) = inl (omega arith, omega arith)
Covers-merge g x y gs h (inr (inl e)) = inl (omega arith, omega arith)
Covers-merge g x y gs h (inr (inr c)) = inr c

Covers-merge_oldest :
    (n b : ℕ) (g : Gap) (gs : List Gap) → Ascends b gs → Covers g gs → Covers g (merge_oldest n gs)
unfolding merge_oldest
Covers-merge_oldest (suc n) b g (x ∷ y ∷ gs) a c =
    elim (Bool-cases (ltb max_gaps (length (x ∷ y ∷ gs)))) [
      | inl many ↦ rw many (
          Covers-merge_oldest n b g (merge x y ∷ gs) (omega arith, a.1.1)
            (Covers-merge g x y gs (omega arith) c))
      | inr few ↦ rw few c
    ]
Covers-merge_oldest zero b g gs a c = c
Covers-merge_oldest (suc n) b g [] a c = c
Covers-merge_oldest (suc n) b g (x ∷ []) a c = c

Covers-append : (g x : Gap) (gs : List Gap) → Covers g gs → Covers g (gs ++ x ∷ [])
Covers-append g x [] c = absurd c
Covers-append g x (y ∷ ys) (inl e) = inl e
Covers-append g x (y ∷ ys) (inr c) = inr (Covers-append g x ys c)

Covers-last :
    (g x : Gap) (gs : List Gap) → (g.arrival ≤ x.arrival) × (g.at ≤ x.at) → Covers g (gs ++ x ∷ [])
Covers-last g x [] e = inl e
Covers-last g x (y ∷ ys) e = inr (Covers-last g x ys e)

Covers-keep :
    (g : Gap) (p : Gap → Bool) (gs : List Gap) → Memᴰ g gs → p g ≡ true → Covers g (keep p gs)
Covers-keep g p [] m h = elim m [ ]
Covers-keep g p (x ∷ xs) (Memᴰ.head e) h = rw (← e) (rw h (inl (omega arith, omega arith)))
Covers-keep g p (x ∷ xs) (Memᴰ.tail m) h = elim (Bool-cases (p x)) [
  | inl stays ↦ rw stays (inr (Covers-keep g p xs m h))
  | inr goes ↦ rw goes (Covers-keep g p xs m h)
]

arrival_above : (b : ℕ) (g : Gap) (gs : List Gap) → Ascends b gs → Memᴰ g gs → b ≤ g.arrival
arrival_above b g [] a m = elim m [ ]
arrival_above b g (x ∷ xs) a (Memᴰ.head e) = rw e a.0
arrival_above b g (x ∷ xs) a (Memᴰ.tail m) = omega (arith, arrival_above (suc x.arrival) g xs a.1 m)

-- In gaps in order, the gap at a position is the one found there.
gap_at-mem :
    (b : ℕ) (g : Gap) (gs : List Gap) → Ascends b gs → Memᴰ g gs → gap_at g.arrival gs ≡ some g
unfolding gap_at
gap_at-mem b g [] a m = elim m [ ]
gap_at-mem b g (x ∷ xs) a (Memᴰ.head e) = rw (← e) (ground arith)
gap_at-mem b g (x ∷ xs) a (Memᴰ.tail m) =
    ground (arith, arrival_above (suc x.arrival) g xs a.1 m, gap_at-mem (suc x.arrival) g xs a.1 m)

-- The new gap takes the later of its time and the time found at its position.
later_time_new : (new : Gap) (same : Option Gap) → new.at ≤ (later_time new same).at
later_time_new new same = ground arith

later_time_same :
    (new g : Gap) (same : Option Gap) → same ≡ some g → g.at ≤ (later_time new same).at
later_time_same new g same e = rw e (ground arith)

replaced_time :
    (gaps : List Gap) (new g : Gap)
    → Ascends 0 gaps
    → Memᴰ g gaps
    → new.arrival ≡ g.arrival
    → g.at ≤ (later_time new (gap_at new.arrival gaps)).at
replaced_time gaps new g a m same =
    later_time_same new g (gap_at new.arrival gaps) (rw same (gap_at-mem 0 g gaps a m))

-- A gap there was is kept, or the new one stands for it.
Covers-replaced :
    (gaps : List Gap) (new g : Gap)
    → Ascends 0 gaps
    → Memᴰ g gaps
    → Covers g (
        keep (λ (h : Gap). not (h.arrival == new.arrival)) gaps
        ++ later_time new (gap_at new.arrival gaps) ∷ [])
Covers-replaced gaps new g a m =
    let kept = keep (λ (h : Gap). not (h.arrival == new.arrival)) gaps in
    let x = later_time new (gap_at new.arrival gaps) in
    elim (Bool-cases (g.arrival == new.arrival)) [
      | inl same ↦ Covers-last g x kept (
        ground (arith, later_time_arrival new (gap_at new.arrival gaps)),
        replaced_time gaps new g a m (ground arith),
      )
      | inr other ↦ Covers-append g x kept (Covers-keep g _ gaps m (rw other refl))
    ]

-- The gaps before the sort cover the new one and each that there was.
Covers-either :
    (gaps : List Gap) (new g : Gap)
    → Ascends 0 gaps
    → Memᴰ g (new ∷ gaps)
    → Covers g (
        keep (λ (h : Gap). not (h.arrival == new.arrival)) gaps
        ++ later_time new (gap_at new.arrival gaps) ∷ [])
Covers-either gaps new g a (Memᴰ.head e) = rw e (
    Covers-last new (later_time new (gap_at new.arrival gaps)) _ (
      omega (arith, later_time_arrival new (gap_at new.arrival gaps)),
      later_time_new new (gap_at new.arrival gaps),
    ))
Covers-either gaps new g a (Memᴰ.tail m) = Covers-replaced gaps new g a m

-- After a gap is added to gaps in order, the new gap and every gap there was is covered by one that
-- is at least as late in its position and its time.
pub with_gap-Covers :
    (gaps : List Gap) (new g : Gap)
    → Ascends 0 gaps
    → Memᴰ g (new ∷ gaps)
    → Covers g (with_gap gaps new)
unfolding with_gap
with_gap-Covers gaps new g a m =
    let kept = keep (λ (h : Gap). not (h.arrival == new.arrival)) gaps in
    let all = kept ++ later_time new (gap_at new.arrival gaps) ∷ [] in
    Covers-merge_oldest (length (sort_gaps all)) 0 g (sort_gaps all) (Ascends-with gaps new a)
      (Covers-sort_gaps g all (Covers-either gaps new g a m))
