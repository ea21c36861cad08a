-- ===== src/Gaps/View.antt =====
-- The gaps that a reading of the room reaches, `_gaps_in_view`.
use nunchi.Prelude.{
  List, Bool, Option, ℕ, String, keep, ◌≡◌, ◌||◌, leb, ◌≤◌, ◌↔◌, true, length, ◌<◌, ◌∷◌, some, ◌⊎◌,
  arith, inl, subst, false, if◌then◌else◌, Bool-cases, false_is_not_true, inr, sym, [], refl, none,
}
use mathlib.Core.List.{Memᴰ, []}
use nunchi.Gaps.{
  Gap, seen_arrivals, gaps_in_view, Arrivals, reaches, crosses, holds, last_before, first_after,
  false,
}
use nunchi.Gaps.Nearest.{
  UpTo, From, last_before-≡, first_after-≡, last_before-UpTo, first_after-From,
}
use nunchi.Gaps.Shown.{Shown, Memᴰ-seen, seen-Shown, arrival_of-Among, elem-Memᴰ, crosses-BothSides}

-- A reading holds the retained event right before a gap, or the one right after it, or events on
-- both sides of it.
pub data InView (arrivals : Arrivals) (shown : List String) (a : ℕ) : Type 0 where
  right_before :
      (n : ℕ) → Shown arrivals shown n → n ≤ a → UpTo a n arrivals → InView arrivals shown a
  right_after :
      (n : ℕ) → Shown arrivals shown n → a < n → From a n arrivals → InView arrivals shown a
  both_sides :
      (m n : ℕ)
      → Shown arrivals shown m
      → Shown arrivals shown n
      → m ≤ a
      → a < n
      → InView arrivals shown a

keep-Memᴰ :
    (p : Gap → Bool) (g : Gap) (gs : List Gap) → Memᴰ g (keep p gs) ↔ (Memᴰ g gs × (p g ≡ true))
keep-Memᴰ p g gs = (kept gs, λ c. stays gs c.0 c.1)
  where
    kept : (gs : List Gap) → Memᴰ g (keep p gs) → Memᴰ g gs × (p g ≡ true)
    kept [] m = elim m [ ]
    kept (x ∷ xs) m = first (p x) refl (kept xs) m
      where
        first :
            (b : Bool)
            → p x ≡ b
            → (Memᴰ g (keep p xs) → Memᴰ g xs × (p g ≡ true))
            → Memᴰ g (if b then x ∷ keep p xs else keep p xs)
            → Memᴰ g (x ∷ xs) × (p g ≡ true)
        first true e ih (Memᴰ.head same) = (Memᴰ.head same, rw same e)
        first true e ih (Memᴰ.tail m) = let (there, h) = ih m in (Memᴰ.tail there, h)
        first false e ih m = let (there, h) = ih m in (Memᴰ.tail there, h)

    stays : (gs : List Gap) → Memᴰ g gs → p g ≡ true → Memᴰ g (keep p gs)
    stays [] m h = elim m [ ]
    stays (x ∷ xs) (Memᴰ.head e) h = rw (← e) (rw h (Memᴰ.head refl))
    stays (x ∷ xs) (Memᴰ.tail m) h = elim (Bool-cases (p x)) [
      | inl there ↦ rw there (Memᴰ.tail (stays xs m h))
      | inr goes ↦ rw goes (stays xs m h)
    ]

holds-Memᴰ :
    (o : Option ℕ) (seen : List ℕ) → holds o seen ≡ true → (n : ℕ) × (o ≡ some n) × Memᴰ n seen
holds-Memᴰ none seen h = absurd (false_is_not_true h)
holds-Memᴰ (some n) seen h = (n, refl, (elem-Memᴰ n seen).0 h)

one_of_three : (a b c : Bool) → (a || b || c) ≡ true → (a ≡ true) ⊎ ((b ≡ true) ⊎ (c ≡ true))
one_of_three true b c h = inl refl
one_of_three false true c h = inr (inl refl)
one_of_three false false c h = inr (inr h)

first_one : (a b c : Bool) → a ≡ true → (a || b || c) ≡ true
first_one a b c h = ground (arith, h)

second_one : (a b c : Bool) → b ≡ true → (a || b || c) ≡ true
second_one a b c h = ground (arith, h)

third_one : (a b c : Bool) → c ≡ true → (a || b || c) ≡ true
third_one a b c h = ground (arith, h)

Shown-seen :
    (arrivals : Arrivals) (shown : List String) (n : ℕ)
    → Shown arrivals shown n
    → Memᴰ n (seen_arrivals shown arrivals)
Shown-seen arrivals shown n s = Memᴰ-seen s.id n shown arrivals s.is_shown s.is_retained

reaches-InView :
    (arrivals : Arrivals) (shown : List String) (g : Gap)
    → reaches arrivals (seen_arrivals shown arrivals) g ≡ true
    → InView arrivals shown g.arrival
unfolding reaches
reaches-InView arrivals shown g h = elim (one_of_three _ _ _ h) [
  | inl before ↦
      let (n, is_last, m) = holds-Memᴰ (last_before g.arrival arrivals) _ before in
      let (le, upto) = last_before-UpTo g.arrival n arrivals is_last in
      right_before n (seen-Shown arrivals shown n m) le upto
  | inr rest ↦ elim rest [
    | inl after ↦
        let (n, is_first, m) = holds-Memᴰ (first_after g.arrival arrivals) _ after in
        let (lt, from) = first_after-From g.arrival n arrivals is_first in
        right_after n (seen-Shown arrivals shown n m) lt from
    | inr over ↦
        let ((m, m_seen, le), (n, n_seen, lt)) =
          (crosses-BothSides g.arrival (seen_arrivals shown arrivals)).0 over in
        both_sides m n (seen-Shown arrivals shown m m_seen) (seen-Shown arrivals shown n n_seen) le
          lt
  ]
]

InView-reaches :
    (arrivals : Arrivals) (shown : List String) (g : Gap)
    → InView arrivals shown g.arrival
    → reaches arrivals (seen_arrivals shown arrivals) g ≡ true
unfolding reaches
InView-reaches arrivals shown g (right_before n s le upto) = first_one _ _ _ (
    subst (λ o. holds o (seen_arrivals shown arrivals) ≡ true)
      (sym (
        last_before-≡ g.arrival n arrivals (arrival_of-Among s.id n arrivals s.is_retained) le
          upto))
      ((elem-Memᴰ n _).1 (Shown-seen arrivals shown n s)))
InView-reaches arrivals shown g (right_after n s lt from) = second_one _ _ _ (
    subst (λ o. holds o (seen_arrivals shown arrivals) ≡ true)
      (sym (
        first_after-≡ g.arrival n arrivals (arrival_of-Among s.id n arrivals s.is_retained) lt
          from))
      ((elem-Memᴰ n _).1 (Shown-seen arrivals shown n s)))
InView-reaches arrivals shown g (both_sides m n s t le lt) =
    let seen = seen_arrivals shown arrivals in
    third_one (holds (last_before g.arrival arrivals) seen)
      (holds (first_after g.arrival arrivals) seen) (crosses g.arrival seen)
      ((crosses-BothSides g.arrival seen).1
        ((m, Shown-seen arrivals shown m s, le), (n, Shown-seen arrivals shown n t, lt)))

not_empty : (n : ℕ) (xs : List ℕ) → Memᴰ n xs → leb (length xs) 0 ≡ false
not_empty n [] m = elim m [ ]
not_empty n (x ∷ xs) m = ground arith

some_shown :
    (arrivals : Arrivals) (shown : List String) (a : ℕ)
    → InView arrivals shown a
    → leb (length (seen_arrivals shown arrivals)) 0 ≡ false
some_shown arrivals shown a (right_before n s le upto) =
    not_empty n _ (Shown-seen arrivals shown n s)
some_shown arrivals shown a (right_after n s lt from) =
    not_empty n _ (Shown-seen arrivals shown n s)
some_shown arrivals shown a (both_sides m n s t le lt) =
    not_empty m _ (Shown-seen arrivals shown m s)

-- The gaps of a reading are exactly the gaps of which it shows the retained event right before, or
-- the one right after, or retained events on both sides.
pub gaps_in_view-Memᴰ :
    (gaps : List Gap) (g : Gap) (arrivals : Arrivals) (shown : List String)
    → Memᴰ g (gaps_in_view gaps arrivals shown) ↔ (Memᴰ g gaps × InView arrivals shown g.arrival)
unfolding gaps_in_view
gaps_in_view-Memᴰ gaps g arrivals shown =
    let seen = seen_arrivals shown arrivals in
    let kept = keep-Memᴰ (reaches arrivals seen) g gaps in
    (
      λ m.
          let (listed, reached) = kept.0 (unless (leb (length seen) 0) m) in
          (listed, reaches-InView arrivals shown g reached),
      λ c.
          rw (some_shown arrivals shown g.arrival c.1)
            (kept.1 (c.0, InView-reaches arrivals shown g c.1)),
    )
  where
    unless : (b : Bool) {gs : List Gap} → Memᴰ g (if b then [] else gs) → Memᴰ g gs
    unless true m = elim m [ ]
    unless false m = m
