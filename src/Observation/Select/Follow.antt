-- ===== src/Observation/Select/Follow.antt =====
-- One pass over the relations of an event.
use nunchi.Observation.Types.{Event}
use nunchi.Observation.Select.{
  index_from, Event, elem, not, index_of, all_indices, counting, follow,
}
use nunchi.Prelude.{
  none, some, true, false, [], ◌∷◌, List, ℕ, elem, count, String, ◌≡◌, not, nat_has_eq, ◌≤◌, suc,
  string_has_eq, arith, false_is_not_true, length, Bool, nat_eq, if◌then◌else◌, ◌||◌, Bool-cases,
  ◌==◌, inl, ==_iff, subst, sym, ==_refl, inr, or_later, Option, none_is_not, ◌⊎◌, ◌+◌, some_same,
  refl, or_right, ◌∙◌,
}

abbrev pub Within : List ℕ → List ℕ → Type 0
Within xs ys = (i : ℕ) → elem i xs ≡ true → elem i ys ≡ true

-- The indices that some references name are among the required.
abbrev pub Covers : List Event → List ℕ → List String → Type 0
Covers events required refs =
    (r : String)
    → elem r refs ≡ true
    → (j : ℕ) → index_of r events ≡ some j
    → elem j required ≡ true

-- How many indices are not yet required.
abbrev pub missing : List Event → List ℕ → ℕ
missing events required = count (λ i. not (elem i required)) (all_indices events)

count_less :
    (j : ℕ) (q xs : List ℕ) → count (λ i. not (elem i (j ∷ q))) xs ≤ count (λ i. not (elem i q)) xs
count_less j q [] = omega arith
count_less j q (x ∷ xs) = test (nat_eq x j) (elem x q) (count_less j q xs)
  where
    test :
        (a b : Bool) {m n : ℕ}
        → m ≤ n
        → (if not (a || b) then suc m else m) ≤ (if not b then suc n else n)
    test a b h = ground (arith, h)

pub count_found :
    (j : ℕ) (q xs : List ℕ)
    → elem j xs ≡ true
    → elem j q ≡ false
    → suc (count (λ i. not (elem i (j ∷ q))) xs) ≤ count (λ i. not (elem i q)) xs
count_found j q [] h new = absurd (false_is_not_true h)
count_found j q (x ∷ xs) h new = elim (Bool-cases (j == x)) [
  | inl same ↦
      let is_it = (==_iff j x).0 same in
      here x (subst (λ y. elem y q ≡ false) is_it new)
        (subst (λ y. nat_eq x y ≡ true) (sym is_it) (==_refl x)) (count_less j q xs)
  | inr other ↦ later (nat_eq x j) (elem x q) (count_found j q xs (or_later (j == x) _ other h) new)
]
  where
    here :
        (y : ℕ)
        → elem y q ≡ false
        → nat_eq y j ≡ true
        → {m n : ℕ} → m ≤ n
        → suc (if not (nat_eq y j || elem y q) then suc m else m)
          ≤ (if not (elem y q) then suc n else n)
    here y absent same h = rw same (rw absent (omega (arith, h)))

    later :
        (a b : Bool) {m n : ℕ}
        → suc m ≤ n
        → suc (if not (a || b) then suc m else m) ≤ (if not b then suc n else n)
    later a b h = ground (arith, h)

abbrev which : Option ℕ → Option ℕ
which o = o

index_from-counting :
    (start : ℕ) (id : String) (es : List Event) (i : ℕ)
    → index_from start id es ≡ some i
    → elem i (counting start (length es)) ≡ true
unfolding index_from
index_from-counting start id [] i h = absurd (none_is_not i i h)
index_from-counting start id (e ∷ es) i h =
    found (index_from (start + 1) id es) (index_from-counting (start + 1) id es i) (e.id == id) h
  where
    found :
        (o : Option ℕ)
        → (o ≡ some i → elem i (counting (start + 1) (length es)) ≡ true)
        → (t : Bool)
        → which (elim o [ none ↦ if t then some start else none | some k ↦ some k ]) ≡ some i
        → elem i (start ∷ counting (start + 1) (length es)) ≡ true
    found none ih true h = rw (sym (some_same start i h)) (rw (==_refl start) refl)
    found none ih false h = absurd (none_is_not i i h)
    found (some k) ih t h = or_right (i == start) _ (ih h)

pub index_of-all_indices :
    (id : String) (events : List Event) (i : ℕ)
    → index_of id events ≡ some i
    → elem i (all_indices events) ≡ true
unfolding index_of
index_of-all_indices id events i h = index_from-counting 0 id events i h

-- What a pass over one event's relations does to the pending and the required.
pub record Followed (events : List Event) (refs : List String) (w w' : List ℕ × List ℕ)
    : Type 0 where
  pub pending : Within w.0 w'.0
  pub required : Within w.1 w'.1
  pub new : (i : ℕ) → elem i w'.1 ≡ true → (elem i w.1 ≡ true) ⊎ (elem i w'.0 ≡ true)
  pub waits : Within w.0 w.1 → Within w'.0 w'.1
  pub valid : Within w.1 (all_indices events) → Within w'.1 (all_indices events)
  pub covers : Covers events w'.1 refs
  pub shrinks : missing events w'.1 + length w'.0 ≤ missing events w.1 + length w.0

Covers-more :
    (events : List Event) (q : List ℕ) (ref : String) (refs : List String)
    → Covers events q refs
    → ((j : ℕ) → index_of ref events ≡ some j → elem j q ≡ true)
    → Covers events q (ref ∷ refs)
Covers-more events q ref refs c f r h j e = elim (Bool-cases (r == ref)) [
  | inl same ↦ f j (subst (λ y. index_of y events ≡ some j) ((==_iff r ref).0 same) e)
  | inr other ↦ c r (or_later (r == ref) _ other h) j e
]

pub elem_here : (i : ℕ) (xs : List ℕ) → elem i (i ∷ xs) ≡ true
elem_here i xs = rw (==_refl i) refl

pub elem_same : (k i : ℕ) (xs : List ℕ) → k ≡ i → elem k (i ∷ xs) ≡ true
elem_same k i xs e = subst (λ y. elem k (y ∷ xs) ≡ true) e (elem_here k xs)

pub elem_or_later : (k i : ℕ) (xs : List ℕ) → elem k (i ∷ xs) ≡ true → (k ≡ i) ⊎ (elem k xs ≡ true)
elem_or_later k i xs h = elim (Bool-cases (k == i)) [
  | inl same ↦ inl ((==_iff k i).0 same)
  | inr other ↦ inr (or_later (k == i) _ other h)
]

pub both_longer : (i : ℕ) (p q : List ℕ) → Within p q → Within (i ∷ p) (i ∷ q)
both_longer i p q w k h = elim (elem_or_later k i p h) [
  | inl same ↦ elem_same k i q same
  | inr later ↦ or_right (k == i) _ (w k later)
]

-- A required index that was not: it waits, too.
Followed-new :
    (events : List Event) (ref : String) (refs : List String) (i : ℕ) (p q : List ℕ)
    (w' : List ℕ × List ℕ)
    → index_of ref events ≡ some i
    → elem i q ≡ false
    → Followed events refs (i ∷ p, i ∷ q) w'
    → Followed events (ref ∷ refs) (p, q) w'
Followed-new events ref refs i p q w' at_i new f = record {
  pending = λ k h. f.pending k (or_right (k == i) _ h);
  required = λ k h. f.required k (or_right (k == i) _ h);
  new = λ k h. elim (f.new k h) [
    | inl old ↦ elim (elem_or_later k i q old) [
      | inl same ↦ inr (f.pending k (elem_same k i p same))
      | inr later ↦ inl later
    ]
    | inr waits ↦ inr waits
  ];
  waits = λ h. f.waits (both_longer i p q h);
  valid = λ h. f.valid (λ k m. elim (elem_or_later k i q m) [
    | inl same ↦ rw same (index_of-all_indices ref events i at_i)
    | inr later ↦ h k later
  ]);
  covers =
      Covers-more events w'.1 ref refs f.covers
        (λ j e. rw (some_same j i (sym e ∙ at_i)) (f.required i (elem_here i q)));
  shrinks = omega (
    arith,
    f.shrinks,
    count_found i q (all_indices events) (index_of-all_indices ref events i at_i) new,
  );
}

pub follow-Followed :
    (events : List Event) (refs : List String) (p q : List ℕ)
    → Followed events refs (p, q) (follow events refs (p, q))
unfolding follow
follow-Followed events [] p q = record {
  pending = λ i h. h;
  required = λ i h. h;
  new = λ i h. inl h;
  waits = λ h. h;
  valid = λ h. h;
  covers = λ r h. absurd (false_is_not_true h);
  shrinks = omega arith;
}
follow-Followed events (ref ∷ refs) p q =
    by_index (index_of ref events) refl (λ p q. follow-Followed events refs p q)
  where
    by_index :
        (o : Option ℕ)
        → index_of ref events ≡ o
        → ((p q : List ℕ) → Followed events refs (p, q) (follow events refs (p, q)))
        → Followed events
            (ref ∷ refs)
            (p, q)
            (elim o [
              | none ↦ follow events refs (p, q)
              | some i ↦
                  if elem i q then follow events refs (p, q) else follow events refs (i ∷ p, i ∷ q)
            ])
    by_index none at_none ih =
        let f = ih p q in
        record {
          pending = f.pending;
          required = f.required;
          new = f.new;
          waits = f.waits;
          valid = f.valid;
          covers =
              Covers-more events (follow events refs (p, q)).1 ref refs f.covers
                (λ j e. absurd (none_is_not j j (sym at_none ∙ e)));
          shrinks = f.shrinks;
        }
    by_index (some i) at_i ih = elim (Bool-cases (elem i q)) [
      | inl old ↦
          let f = ih p q in
          rw old (record {
            pending = f.pending;
            required = f.required;
            new = f.new;
            waits = f.waits;
            valid = f.valid;
            covers =
                Covers-more events (follow events refs (p, q)).1 ref refs f.covers
                  (λ j e. rw (some_same j i (sym e ∙ at_i)) (f.required i old));
            shrinks = f.shrinks;
          })
      | inr new ↦ rw new (
          Followed-new events ref refs i p q (follow events refs (i ∷ p, i ∷ q)) at_i new
            (ih (i ∷ p) (i ∷ q)))
    ]
