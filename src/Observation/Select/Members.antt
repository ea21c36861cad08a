-- ===== src/Observation/Select/Members.antt =====
-- Members of the lists of indices, and of what the loops leave of them.
use nunchi.Observation.Select.Follow.{elem_or_later, Within, elem_same, elem_here}
use nunchi.Observation.Select.{trim_selected, elem, keep, removal_order, take_out, suc}
use nunchi.Prelude.{
  true, false, [], ◌∷◌, ℕ, Bool, List, elem, length, not, keep, ◌≡◌, ◌++◌, false_is_not_true, ◌≤◌,
  suc, ◌⊎◌, arith, ◌&&◌, ◌==◌, Bool-cases, if◌then◌else◌, inl, inr, passed_both, ==_refl, ltb,
  or_right, nat_has_eq, sym, subst, ◌∙◌, refl, ==_iff, not-true,
}

module _ (p : ℕ → Bool) where
  pub elem-keep_in :
      (i : ℕ) (xs : List ℕ) → elem i (keep p xs) ≡ true → (elem i xs ≡ true) × (p i ≡ true)
  elem-keep_in i [] h = absurd (false_is_not_true h)
  elem-keep_in i (x ∷ xs) h = kept (p x) refl h (elem-keep_in i xs)
    where
      kept :
          (t : Bool)
          → p x ≡ t
          → elem i (if t then x ∷ keep p xs else keep p xs) ≡ true
          → (elem i (keep p xs) ≡ true → (elem i xs ≡ true) × (p i ≡ true))
          → (elem i (x ∷ xs) ≡ true) × (p i ≡ true)
      kept false px h ih = let (m, q) = ih h in (or_right (i == x) _ m, q)
      kept true px h ih = elim (elem_or_later i x (keep p xs) h) [
        | inl same ↦ (elem_same i x xs same, subst (λ y. p y ≡ true) (sym same) px)
        | inr later ↦ let (m, q) = ih later in (or_right (i == x) _ m, q)
      ]

  pub elem-keep : (i : ℕ) (xs : List ℕ) → elem i xs ≡ true → p i ≡ true → elem i (keep p xs) ≡ true
  elem-keep i [] h q = absurd (false_is_not_true h)
  elem-keep i (x ∷ xs) h q = elim (Bool-cases (p x)) [
    | inl yes_x ↦ rw yes_x (elim (elem_or_later i x xs h) [
      | inl same ↦ elem_same i x (keep p xs) same
      | inr later ↦ or_right (i == x) _ (elem-keep i xs later q)
    ])
    | inr no_x ↦ rw no_x (elim (elem_or_later i x xs h) [
      | inl same ↦ absurd (false_is_not_true (sym no_x ∙ subst (λ y. p y ≡ true) same q))
      | inr later ↦ elem-keep i xs later q
    ])
  ]

  pub length-keep : (xs : List ℕ) → length (keep p xs) ≤ length xs
  length-keep [] = omega arith
  length-keep (x ∷ xs) = ground (arith, length-keep xs)

  pub keep_less :
      (i : ℕ) (xs : List ℕ) → elem i xs ≡ true → p i ≡ false → suc (length (keep p xs)) ≤ length xs
  keep_less i [] h q = absurd (false_is_not_true h)
  keep_less i (x ∷ xs) h q = elim (elem_or_later i x xs h) [
    | inl same ↦ rw (subst (λ y. p y ≡ false) same q) (omega (arith, length-keep xs))
    | inr later ↦ one_more (p x) (keep_less i xs later q)
  ]
    where
      one_more :
          (t : Bool) {n : ℕ}
          → suc (length (keep p xs)) ≤ n
          → suc (length (if t then x ∷ keep p xs else keep p xs)) ≤ suc n
      one_more t h = ground (arith, h)

elem-append :
    (i : ℕ) (xs ys : List ℕ) → elem i (xs ++ ys) ≡ true → (elem i xs ≡ true) ⊎ (elem i ys ≡ true)
elem-append i [] ys h = inr h
elem-append i (x ∷ xs) ys h = elim (elem_or_later i x (xs ++ ys) h) [
  | inl same ↦ inl (elem_same i x xs same)
  | inr later ↦ elim (elem-append i xs ys later) [
    | inl m ↦ inl (or_right (i == x) _ m)
    | inr m ↦ inr m
  ]
]

-- What may leave was selected, and is not required.
pub removal_order-optional :
    (required protected selected : List ℕ) (i : ℕ)
    → elem i (removal_order required protected selected) ≡ true
    → (elem i selected ≡ true) × (elem i required ≡ false)
removal_order-optional required protected selected i h = elim (elem-append i _ _ h) [
  | inl m ↦ optional (λ j. not (elem j protected)) m
  | inr m ↦ optional (λ j. elem j protected) m
]
  where
    optional :
        (p : ℕ → Bool)
        → elem i (keep (λ j. not (elem j required) && p j) selected) ≡ true
        → (elem i selected ≡ true) × (elem i required ≡ false)
    optional p m =
        let (s, q) = elem-keep_in (λ j. not (elem j required) && p j) i selected m in
        (s, not-true (elem i required) (passed_both (not (elem i required)) (p i) q).0)

-- An optional index leaves, and the required stay.
pub take_out-Within :
    (required selected : List ℕ) (i : ℕ)
    → elem i required ≡ false
    → Within required selected
    → Within required (take_out i selected)
take_out-Within required selected i new w k h =
    elem-keep (λ j. not (j == i)) k selected (w k h) (other (Bool-cases (k == i)))
  where
    other : ((k == i) ≡ true) ⊎ ((k == i) ≡ false) → not (k == i) ≡ true
    other (inl same) =
        absurd (
          false_is_not_true (sym new ∙ subst (λ y. elem y required ≡ true) ((==_iff k i).0 same) h))
    other (inr differs) = rw differs refl

pub take_out_less :
    (i : ℕ) (selected : List ℕ)
    → elem i selected ≡ true
    → suc (length (take_out i selected)) ≤ length selected
take_out_less i selected h = keep_less (λ j. not (j == i)) i selected h (rw (==_refl i) refl)

pub take_out_sub : (i : ℕ) (selected : List ℕ) → Within (take_out i selected) selected
take_out_sub i selected k h = (elem-keep_in (λ j. not (j == i)) k selected h).0

pub trim_selected-Within :
    (limit : ℕ) (required removable selected : List ℕ)
    → ((i : ℕ) → elem i removable ≡ true → elem i required ≡ false)
    → Within required selected
    → Within required (trim_selected limit removable selected)
unfolding trim_selected
trim_selected-Within limit required [] selected f w = w
trim_selected-Within limit required (i ∷ removable) selected f w =
    elim (Bool-cases (ltb limit (length selected))) [
      | inl over ↦ rw over (
          trim_selected-Within limit required removable (take_out i selected)
            (λ k h. f k (or_right (k == i) _ h))
            (take_out-Within required selected i (f i (elem_here i removable)) w))
      | inr fits ↦ rw fits w
    ]
