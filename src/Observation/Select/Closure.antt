-- ===== src/Observation/Select/Closure.antt =====
-- The loop over the pending relations.
use nunchi.Observation.Select.Follow.{
  Within, Followed, missing, Covers, elem_or_later, follow-Followed, count_found,
  index_of-all_indices, elem_here,
}
use nunchi.Observation.Types.{Event}
use nunchi.Observation.Select.{
  Event, elem, not, index_of, all_indices, counting, follow, refs_at, close_relations, required_of,
}
use nunchi.Prelude.{
  some, true, [], ◌∷◌, List, ℕ, elem, String, ◌≡◌, not, nat_has_eq, ◌≤◌, suc, string_has_eq, arith,
  false_is_not_true, length, ◌==◌, inl, subst, sym, inr, ◌⊎◌, ◌+◌, refl, or_right, zero, ap,
  count-le-length,
}

-- Each required index waits, or all that its event names is required.
record Closing (events : List Event) (p q : List ℕ) : Type 0 where
  pub waiting : Within p q
  pub settled : (i : ℕ) → elem i q ≡ true → (elem i p ≡ true) ⊎ Covers events q (refs_at events i)

Covers-mono :
    (events : List Event) (q q' : List ℕ) (refs : List String)
    → Within q q'
    → Covers events q refs
    → Covers events q' refs
Covers-mono events q q' refs w c r h j e = w j (c r h j e)

Closing-follow :
    (events : List Event) (i : ℕ) (p q : List ℕ) (w' : List ℕ × List ℕ)
    → Closing events (i ∷ p) q
    → Followed events (refs_at events i) (p, q) w'
    → Closing events w'.0 w'.1
Closing-follow events i p q w' c f = record {
  waiting = f.waits (λ k h. c.waiting k (or_right (k == i) _ h));
  settled = λ k h. elim (f.new k h) [
    | inr waits ↦ inl waits
    | inl old ↦ elim (c.settled k old) [
      | inr done ↦ inr (Covers-mono events q w'.1 (refs_at events k) f.required done)
      | inl waited ↦ elim (elem_or_later k i p waited) [
        | inl same ↦ inr (subst (λ y. Covers events w'.1 (refs_at events y)) (sym same) f.covers)
        | inr later ↦ inl (f.pending k later)
      ]
    ]
  ];
}

settled_all :
    (events : List Event) (q : List ℕ)
    → Closing events [] q
    → Within q q × ((i : ℕ) → elem i q ≡ true → Covers events q (refs_at events i))
settled_all events q c = (
  (λ k m. m),
  (λ i m. elim (c.settled i m) [ inl waits ↦ absurd (false_is_not_true waits) | inr done ↦ done ]),
)

length-counting : (start n : ℕ) → length (counting start n) ≡ n
length-counting start zero = refl
length-counting start (suc n) = ap suc (length-counting (start + 1) n)

close-Covers :
    (n : ℕ) (events : List Event) (p q : List ℕ)
    → missing events q + length p ≤ n
    → Closing events p q
    → Within q (close_relations n events p q)
      × ((i : ℕ)
          → elem i (close_relations n events p q) ≡ true
          → Covers events (close_relations n events p q) (refs_at events i))
unfolding close_relations
close-Covers zero events [] q h c = settled_all events q c
close-Covers (suc n) events [] q h c = settled_all events q c
close-Covers zero events (i ∷ p) q h c = absurd (omega (arith, h))
close-Covers (suc n) events (i ∷ p) q h c =
    let w' = follow events (refs_at events i) (p, q) in
    let f = follow-Followed events (refs_at events i) p q in
    let (grown, closed) =
      close-Covers n events w'.0 w'.1 (omega (arith, h, f.shrinks))
        (Closing-follow events i p q w' c f) in
    ((λ k m. grown k (f.required k m)), closed)

pub required_of-Within :
    (events : List Event) (trigger : ℕ)
    → elem trigger (all_indices events) ≡ true
    → Within (required_of events trigger) (all_indices events)
unfolding close_relations
required_of-Within events trigger h =
    close-Within (length events) events (trigger ∷ []) (trigger ∷ []) (λ k m.
      elim (elem_or_later k trigger [] m) [
        | inl same ↦ rw same h
        | inr later ↦ absurd (false_is_not_true later)
      ])
  where
    close-Within :
        (n : ℕ) (events : List Event) (p q : List ℕ)
        → Within q (all_indices events)
        → Within (close_relations n events p q) (all_indices events)
    close-Within zero events p q h = h
    close-Within (suc n) events [] q h = h
    close-Within (suc n) events (i ∷ p) q h =
        let w' = follow events (refs_at events i) (p, q) in
        close-Within n events w'.0 w'.1 ((follow-Followed events (refs_at events i) p q).valid h)

-- The relation closure of a snapshot's trigger is complete: the loop over pending relations ends with
-- the trigger and, for each event in the closure, with every retained event that it replies to, whose
-- thread it is in or to which it reacts.
pub required_of-Covers :
    (events : List Event) (trigger_id : String) (trigger : ℕ)
    → index_of trigger_id events ≡ some trigger
    → (elem trigger (required_of events trigger) ≡ true)
      × ((i : ℕ)
          → elem i (required_of events trigger) ≡ true
          → Covers events (required_of events trigger) (refs_at events i))
required_of-Covers events trigger_id trigger h =
    let start : List ℕ = trigger ∷ [] in
    let fuel =
      count_found trigger [] (all_indices events) (index_of-all_indices trigger_id events trigger h)
        refl in
    let (grown, closed) =
      close-Covers (length events) events start start
        (omega (
          arith,
          fuel,
          count-le-length (λ i. not (elem i [])) (all_indices events),
          length-counting 0 (length events),
        ))
        (record { waiting = λ i h. h; settled = λ i h. inl h }) in
    (grown trigger (elem_here trigger []), closed)
