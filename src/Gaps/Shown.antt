-- ===== src/Gaps/Shown.antt =====
-- The positions of the events that a reading shows, `seen` of `_gaps_in_view`, and their range.
use nunchi.Prelude.{
  List, ℕ, String, ◌≡◌, ◌≤◌, Option, ◌∷◌, elem, some, ◌<◌, true, none, ◌↔◌, [], ◌∙◌, Bool,
  false_is_not_true, ap, if◌then◌else◌, Bool-cases, sym, ◌==◌, refl, false, inl, string_has_eq,
  ==_iff, inr, or_later, or_right, nat_has_eq, leb, arith, passed_both, min, max, ltb, subst, both,
}
use mathlib.Core.List.{Memᴰ, List, ◌∷◌}
use nunchi.Gaps.{
  seen_arrivals, Arrivals, arrival_of, crosses, lowest_seen, highest_seen, String, ℕ, some, leb,
}
use nunchi.Gaps.Nearest.{Among}

-- A retained event that the reading shows, with its position.
pub record Shown (arrivals : Arrivals) (shown : List String) (n : ℕ) : Type 0 where
  pub id : String
  pub is_shown : Memᴰ id shown
  pub is_retained : arrival_of id arrivals ≡ some n

here :
    (n : ℕ) (o : Option ℕ) (seen : List ℕ)
    → o ≡ some n
    → Memᴰ n (elim o [ none ↦ seen | some k ↦ k ∷ seen ])
here n none seen e = absurd (none_is_not_some n e)
  where
    none_is_not_some : (n : ℕ) → none ≡ some n → ⊥
    none_is_not_some n e = cc
here n (some k) seen e = Memᴰ.head cc

pub Memᴰ-seen :
    (id : String) (n : ℕ) (shown : List String) (arrivals : Arrivals)
    → Memᴰ id shown
    → arrival_of id arrivals ≡ some n
    → Memᴰ n (seen_arrivals shown arrivals)
unfolding seen_arrivals
Memᴰ-seen id n [] arrivals m h = elim m [ ]
Memᴰ-seen id n (x ∷ xs) arrivals (Memᴰ.head e) h = rw (← e) (here n (arrival_of id arrivals) _ h)
Memᴰ-seen id n (x ∷ xs) arrivals (Memᴰ.tail m) h =
    also (arrival_of x arrivals) (Memᴰ-seen id n xs arrivals m h)
  where
    also :
        (o : Option ℕ) {seen : List ℕ}
        → Memᴰ n seen
        → Memᴰ n (elim o [ none ↦ seen | some k ↦ k ∷ seen ])
    also none m = m
    also (some k) m = Memᴰ.tail m

Shown-cons :
    (arrivals : Arrivals) (x : String) (xs : List String) (n : ℕ)
    → Shown arrivals xs n
    → Shown arrivals (x ∷ xs) n
Shown-cons arrivals x xs n s = record {
  id = s.id;
  is_shown = Memᴰ.tail s.is_shown;
  is_retained = s.is_retained;
}

pub seen-Shown :
    (arrivals : Arrivals) (shown : List String) (n : ℕ)
    → Memᴰ n (seen_arrivals shown arrivals)
    → Shown arrivals shown n
unfolding seen_arrivals
seen-Shown arrivals [] n m = elim m [ ]
seen-Shown arrivals (x ∷ xs) n m = among (arrival_of x arrivals) refl (seen-Shown arrivals xs n) m
  where
    among :
        (o : Option ℕ) {seen : List ℕ}
        → arrival_of x arrivals ≡ o
        → (Memᴰ n seen → Shown arrivals xs n)
        → Memᴰ n (elim o [ none ↦ seen | some k ↦ k ∷ seen ])
        → Shown arrivals (x ∷ xs) n
    among none e ih m = Shown-cons arrivals x xs n (ih m)
    among (some k) e ih (Memᴰ.head h) = record {
      id = x;
      is_shown = Memᴰ.head refl;
      is_retained = e ∙ ap some (sym h);
    }
    among (some k) e ih (Memᴰ.tail m) = Shown-cons arrivals x xs n (ih m)

pub arrival_of-Among :
    (id : String) (n : ℕ) (arrivals : Arrivals) → arrival_of id arrivals ≡ some n → Among n arrivals
unfolding arrival_of
arrival_of-Among id n [] h = absurd (none_is_not n h)
  where
    none_is_not : (n : ℕ) → none ≡ some n → ⊥
    none_is_not n e = cc
arrival_of-Among id n ((e, k) ∷ rest) h = found (e == id) (arrival_of-Among id n rest) h
  where
    found :
        (b : Bool) {o : Option ℕ}
        → (o ≡ some n → Among n rest)
        → (if b then some k else o) ≡ some n
        → Among n ((e, k) ∷ rest)
    found true ih h = ((e, k), Memᴰ.head refl, cc)
    found false ih h = let (d, m, same) = ih h in (d, Memᴰ.tail m, same)

pub elem-Memᴰ : (n : ℕ) (xs : List ℕ) → (elem n xs ≡ true) ↔ Memᴰ n xs
elem-Memᴰ n [] = (λ h. absurd (false_is_not_true h), λ m. elim m [ ])
elem-Memᴰ n (x ∷ xs) = (
  λ h. elim (Bool-cases (n == x)) [
    | inl same ↦ Memᴰ.head ((==_iff n x).0 same)
    | inr other ↦ Memᴰ.tail ((elem-Memᴰ n xs).0 (or_later (n == x) _ other h))
  ],
  λ m. elim m [
    | Memᴰ.head e ↦ rw ((==_iff n x).1 e) refl
    | Memᴰ.tail m ↦ or_right (n == x) _ ((elem-Memᴰ n xs).1 m)
  ],
)

skip : {k n m : ℕ} {ms : List ℕ} → Memᴰ k (n ∷ ms) → Memᴰ k (n ∷ m ∷ ms)
skip (Memᴰ.head e) = Memᴰ.head e
skip (Memᴰ.tail t) = Memᴰ.tail (Memᴰ.tail t)

lowest_seen-Memᴰ : (n : ℕ) (ns : List ℕ) → Memᴰ (lowest_seen n ns) (n ∷ ns)
unfolding lowest_seen
lowest_seen-Memᴰ n [] = Memᴰ.head refl
lowest_seen-Memᴰ n (m ∷ ms) = elim (Bool-cases (leb m (lowest_seen n ms))) [
  | inl le ↦ Memᴰ.tail (Memᴰ.head (ground arith))
  | inr gt ↦
      let same : lowest_seen n ms ≡ min m (lowest_seen n ms) = ground arith in
      subst (λ k. Memᴰ k (n ∷ m ∷ ms)) same (skip (lowest_seen-Memᴰ n ms))
]

highest_seen-Memᴰ : (n : ℕ) (ns : List ℕ) → Memᴰ (highest_seen n ns) (n ∷ ns)
unfolding highest_seen
highest_seen-Memᴰ n [] = Memᴰ.head refl
highest_seen-Memᴰ n (m ∷ ms) = elim (Bool-cases (leb (highest_seen n ms) m)) [
  | inl le ↦ Memᴰ.tail (Memᴰ.head (ground arith))
  | inr gt ↦
      let same : highest_seen n ms ≡ max m (highest_seen n ms) = ground arith in
      subst (λ k. Memᴰ k (n ∷ m ∷ ms)) same (skip (highest_seen-Memᴰ n ms))
]

lowest_seen-≤ : (k n : ℕ) (ns : List ℕ) → Memᴰ k (n ∷ ns) → lowest_seen n ns ≤ k
unfolding lowest_seen
lowest_seen-≤ k n [] (Memᴰ.head e) = ground arith
lowest_seen-≤ k n [] (Memᴰ.tail m) = elim m [ ]
lowest_seen-≤ k n (x ∷ xs) (Memᴰ.head e) =
    let ih = lowest_seen-≤ k n xs (Memᴰ.head e) in ground arith
lowest_seen-≤ k n (x ∷ xs) (Memᴰ.tail (Memᴰ.head e)) = ground arith
lowest_seen-≤ k n (x ∷ xs) (Memᴰ.tail (Memᴰ.tail m)) =
    let ih = lowest_seen-≤ k n xs (Memᴰ.tail m) in ground arith

highest_seen-≥ : (k n : ℕ) (ns : List ℕ) → Memᴰ k (n ∷ ns) → k ≤ highest_seen n ns
unfolding highest_seen
highest_seen-≥ k n [] (Memᴰ.head e) = ground arith
highest_seen-≥ k n [] (Memᴰ.tail m) = elim m [ ]
highest_seen-≥ k n (x ∷ xs) (Memᴰ.head e) =
    let ih = highest_seen-≥ k n xs (Memᴰ.head e) in ground arith
highest_seen-≥ k n (x ∷ xs) (Memᴰ.tail (Memᴰ.head e)) = ground arith
highest_seen-≥ k n (x ∷ xs) (Memᴰ.tail (Memᴰ.tail m)) =
    let ih = highest_seen-≥ k n xs (Memᴰ.tail m) in ground arith

abbrev pub BothSides : ℕ → List ℕ → Type 0
BothSides a seen = ((m : ℕ) × Memᴰ m seen × (m ≤ a)) × ((n : ℕ) × Memᴰ n seen × (a < n))

-- The range of the positions holds a gap exactly when two of them are on its two sides.
pub crosses-BothSides : (a : ℕ) (seen : List ℕ) → (crosses a seen ≡ true) ↔ BothSides a seen
unfolding crosses
crosses-BothSides a [] = (λ h. absurd (false_is_not_true h), λ b. elim b.0.1 [ ])
crosses-BothSides a (x ∷ xs) = (
  λ h.
      let (low, high) = passed_both (leb (lowest_seen x xs) a) (ltb a (highest_seen x xs)) h in
      (
        (lowest_seen x xs, lowest_seen-Memᴰ x xs, ground arith),
        (highest_seen x xs, highest_seen-Memᴰ x xs, ground arith),
      ),
  λ b.
      let low = lowest_seen-≤ b.0.0 x xs b.0.1 in
      let high = highest_seen-≥ b.1.0 x xs b.1.1 in
      let under = b.0.2 in
      let over = b.1.2 in
      both (leb (lowest_seen x xs) a) (ltb a (highest_seen x xs)) (ground arith) (ground arith),
)
