-- ===== src/Gaps/Nearest.antt =====
-- The retained positions right before and right after a gap, `retained[cut - 1]` and `retained[cut]`.
use nunchi.Prelude.{
  ℕ, List, String, All, Option, [], ◌≡◌, ◌≤◌, ◌∷◌, ◌<◌, none, ◌⊎◌, subst, some, Bool-cases, sym,
  max, inr, leb, min, inl, ltb, arith, refl, ap,
}
use mathlib.Core.List.{Memᴰ, List, [], ◌∷◌}
use nunchi.Gaps.{Arrivals, last_before, first_after, ℕ, String, Option, none, some}

-- A position that an event of the arrivals has.
abbrev pub Among : ℕ → Arrivals → Type 0
Among n arrivals = (e : String × ℕ) × Memᴰ e arrivals × (e.1 ≡ n)

abbrev pub UpTo : ℕ → ℕ → Arrivals → Type 0
UpTo a n arrivals = All (λ e. (e.1 ≤ n) ⊎ (a < e.1)) arrivals

abbrev pub From : ℕ → ℕ → Arrivals → Type 0
From a n arrivals = All (λ e. (e.1 ≤ a) ⊎ (n ≤ e.1)) arrivals

pub All-at : {A : Type 0} (P : A → Type 0) (x : A) (xs : List A) → Memᴰ x xs → All P xs → P x
All-at P x [] m h = elim m [ ]
All-at P x (y ∷ ys) (Memᴰ.head e) h = subst P (sym e) h.0
All-at P x (y ∷ ys) (Memᴰ.tail m) h = All-at P x ys m h.1

All-map :
    {A : Type 0} (P Q : A → Type 0) (xs : List A) → ((x : A) → P x → Q x) → All P xs → All Q xs
All-map P Q [] f h = tt
All-map P Q (x ∷ xs) f h = (f x h.0, All-map P Q xs f h.1)

later : (n : ℕ) (e : String × ℕ) (rest : Arrivals) → Among n rest → Among n (e ∷ rest)
later n e rest (d, m, h) = (d, Memᴰ.tail m, h)

abbrev IsGreatest : ℕ → Arrivals → ℕ → Type 0
IsGreatest a arrivals m = Among m arrivals × (m ≤ a) × UpTo a m arrivals

-- The largest position up to `a`.
Greatest : ℕ → Arrivals → Option ℕ → Type 0
Greatest a arrivals none = All (λ e. a < e.1) arrivals
Greatest a arrivals (some m) = IsGreatest a arrivals m

greater :
    (a n : ℕ) (id : String) (rest : Arrivals) (o : Option ℕ)
    → n ≤ a
    → Greatest a rest o
    → Greatest a ((id, n) ∷ rest) (some (elim o [ none ↦ n | some m ↦ max n m ]))
unfolding Greatest
greater a n id rest none h g =
    (((id, n), Memᴰ.head refl, refl), h, (inl (ground arith), All-map _ _ rest (λ e k. inr k) g))
greater a n id rest (some m) h (there, small, upto) = elim (Bool-cases (leb n m)) [
  | inl le ↦
      let same : max n m ≡ m = ground arith in
      subst (IsGreatest a ((id, n) ∷ rest)) (sym same)
        (later m (id, n) rest there, small, (inl (ground arith), upto))
  | inr gt ↦
      let same : max n m ≡ n = ground arith in
      let below : m ≤ n = ground arith in
      subst (IsGreatest a ((id, n) ∷ rest)) (sym same) (
        ((id, n), Memᴰ.head refl, refl),
        h,
        (
          inl (ground arith),
          All-map _ _ rest (λ e k. elim k [ inl x ↦ inl (ground arith) | inr y ↦ inr y ]) upto,
        ),
      )
]

above :
    (a n : ℕ) (id : String) (rest : Arrivals) (o : Option ℕ)
    → a < n
    → Greatest a rest o
    → Greatest a ((id, n) ∷ rest) o
unfolding Greatest
above a n id rest none h g = (h, g)
above a n id rest (some m) h (there, small, upto) =
    (later m (id, n) rest there, small, (inr h, upto))

none-Greatest : (a : ℕ) → Greatest a [] none
unfolding Greatest
none-Greatest a = tt

last_before-Greatest : (a : ℕ) (arrivals : Arrivals) → Greatest a arrivals (last_before a arrivals)
unfolding last_before
last_before-Greatest a [] = none-Greatest a
last_before-Greatest a ((id, n) ∷ rest) =
    let ih = last_before-Greatest a rest in
    elim (Bool-cases (leb n a)) [
      | inl le ↦ rw le (greater a n id rest (last_before a rest) (ground arith) ih)
      | inr gt ↦ rw gt (above a n id rest (last_before a rest) (ground arith) ih)
    ]

abbrev IsLeast : ℕ → Arrivals → ℕ → Type 0
IsLeast a arrivals m = Among m arrivals × (a < m) × From a m arrivals

-- The smallest position after `a`.
Least : ℕ → Arrivals → Option ℕ → Type 0
Least a arrivals none = All (λ e. e.1 ≤ a) arrivals
Least a arrivals (some m) = IsLeast a arrivals m

smaller :
    (a n : ℕ) (id : String) (rest : Arrivals) (o : Option ℕ)
    → a < n
    → Least a rest o
    → Least a ((id, n) ∷ rest) (some (elim o [ none ↦ n | some m ↦ min n m ]))
unfolding Least
smaller a n id rest none h g =
    (((id, n), Memᴰ.head refl, refl), h, (inr (ground arith), All-map _ _ rest (λ e k. inl k) g))
smaller a n id rest (some m) h (there, big, from) = elim (Bool-cases (leb m n)) [
  | inl le ↦
      let same : min n m ≡ m = ground arith in
      subst (IsLeast a ((id, n) ∷ rest)) (sym same)
        (later m (id, n) rest there, big, (inr (ground arith), from))
  | inr gt ↦
      let same : min n m ≡ n = ground arith in
      let over : n ≤ m = ground arith in
      subst (IsLeast a ((id, n) ∷ rest)) (sym same) (
        ((id, n), Memᴰ.head refl, refl),
        h,
        (
          inr (ground arith),
          All-map _ _ rest (λ e k. elim k [ inl x ↦ inl x | inr y ↦ inr (ground arith) ]) from,
        ),
      )
]

below :
    (a n : ℕ) (id : String) (rest : Arrivals) (o : Option ℕ)
    → n ≤ a
    → Least a rest o
    → Least a ((id, n) ∷ rest) o
unfolding Least
below a n id rest none h g = (h, g)
below a n id rest (some m) h (there, big, from) = (later m (id, n) rest there, big, (inl h, from))

none-Least : (a : ℕ) → Least a [] none
unfolding Least
none-Least a = tt

first_after-Least : (a : ℕ) (arrivals : Arrivals) → Least a arrivals (first_after a arrivals)
unfolding first_after
first_after-Least a [] = none-Least a
first_after-Least a ((id, n) ∷ rest) =
    let ih = first_after-Least a rest in
    elim (Bool-cases (ltb a n)) [
      | inl gt ↦ rw gt (smaller a n id rest (first_after a rest) (ground arith) ih)
      | inr le ↦ rw le (below a n id rest (first_after a rest) (ground arith) ih)
    ]

Among-at :
    (P : String × ℕ → Type 0) (n : ℕ) (arrivals : Arrivals)
    → Among n arrivals
    → All P arrivals
    → (e : String × ℕ) × P e × (e.1 ≡ n)
Among-at P n arrivals (e, m, h) all = (e, All-at P e arrivals m all, h)

Greatest-only :
    (a n : ℕ) (arrivals : Arrivals) (o : Option ℕ)
    → Greatest a arrivals o
    → Among n arrivals
    → n ≤ a
    → UpTo a n arrivals
    → o ≡ some n
unfolding Greatest
Greatest-only a n arrivals none g there small upto =
    let (e, more, same) = Among-at _ n arrivals there g in ground arith
Greatest-only a n arrivals (some m) (among, le, ups) there small upto =
    let (e, x, same) = Among-at _ n arrivals there ups in
    let (d, y, is_m) = Among-at _ m arrivals among upto in
    ap some (elim x [
      | inl p ↦ elim y [ inl q ↦ ground arith | inr q ↦ ground arith ]
      | inr p ↦ ground arith
    ])

Least-only :
    (a n : ℕ) (arrivals : Arrivals) (o : Option ℕ)
    → Least a arrivals o
    → Among n arrivals
    → a < n
    → From a n arrivals
    → o ≡ some n
unfolding Least
Least-only a n arrivals none g there big from =
    let (e, less, same) = Among-at _ n arrivals there g in ground arith
Least-only a n arrivals (some m) (among, gt, ups) there big from =
    let (e, x, same) = Among-at _ n arrivals there ups in
    let (d, y, is_m) = Among-at _ m arrivals among from in
    ap some (elim x [
      | inl p ↦ ground arith
      | inr p ↦ elim y [ inl q ↦ ground arith | inr q ↦ ground arith ]
    ])

-- `retained[cut - 1]` is the position of an event such that no other lies between it and the gap.
pub last_before-≡ :
    (a n : ℕ) (arrivals : Arrivals)
    → Among n arrivals
    → n ≤ a
    → UpTo a n arrivals
    → last_before a arrivals ≡ some n
last_before-≡ a n arrivals = Greatest-only a n arrivals _ (last_before-Greatest a arrivals)

pub first_after-≡ :
    (a n : ℕ) (arrivals : Arrivals)
    → Among n arrivals
    → a < n
    → From a n arrivals
    → first_after a arrivals ≡ some n
first_after-≡ a n arrivals = Least-only a n arrivals _ (first_after-Least a arrivals)

pub last_before-UpTo :
    (a n : ℕ) (arrivals : Arrivals) → last_before a arrivals ≡ some n → (n ≤ a) × UpTo a n arrivals
unfolding Greatest
last_before-UpTo a n arrivals h =
    let g : Greatest a arrivals (some n) =
      subst (Greatest a arrivals) h (last_before-Greatest a arrivals) in
    (g.1, g.2)

pub first_after-From :
    (a n : ℕ) (arrivals : Arrivals) → first_after a arrivals ≡ some n → (a < n) × From a n arrivals
unfolding Least
first_after-From a n arrivals h =
    let g : Least a arrivals (some n) = subst (Least a arrivals) h (first_after-Least a arrivals) in
    (g.1, g.2)
