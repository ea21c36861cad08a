-- ===== src/Observation/Order.antt =====
-- The order of the retained events by their timestamps.
use nunchi.Observation.Retention.{insert_event, is_later}
use nunchi.Prelude.{
  inl, inr, Option-cases, Bool-cases, if◌then◌else◌, ltb, ap, ℕ, ◌∷◌, [], Option, List, ◌≡◌, some,
  ◌≤◌, none, arith, false, refl, ◌∙◌,
}
use nunchi.Observation.Types.{Event}

-- The timestamps of the events that have one.
abbrev timed : Option ℕ → List ℕ → List ℕ
timed none ts = ts
timed (some t) ts = t ∷ ts

abbrev pub times : List Event → List ℕ
times [] = []
times (e ∷ es) = timed e.timestamp (times es)

-- Numbers that never fall, from a bound on.
abbrev pub Rises : ℕ → List ℕ → Type 0
Rises b [] = Unit
Rises b (t ∷ ts) = (b ≤ t) × Rises t ts

Rises-mono : (a b : ℕ) (ts : List ℕ) → a ≤ b → Rises b ts → Rises a ts
Rises-mono a b [] h r = tt
Rises-mono a b (t ∷ ts) h r = (omega arith, r.1)

pub Rises-tail : (e : Event) (es : List Event) → Rises 0 (times (e ∷ es)) → Rises 0 (times es)
Rises-tail e es r = without e.timestamp r
  where
    without : (o : Option ℕ) → Rises 0 (timed o (times es)) → Rises 0 (times es)
    without none r = r
    without (some t) r = Rises-mono 0 t (times es) (omega arith) r.1

not_later : (c e : Event) → e.timestamp ≡ none → is_later c e ≡ false
not_later c e h = elim (Option-cases c.timestamp) [
  | inl untimed ↦ rw untimed refl
  | inr (t, timed) ↦ rw timed (rw h refl)
]

-- An event without a time goes to the end, and leaves the times as they are.
insert-untimed :
    (e : Event) (es : List Event) → e.timestamp ≡ none → times (insert_event e es) ≡ times es
unfolding insert_event
insert-untimed e [] h = rw h refl
insert-untimed e (c ∷ cs) h = rw (not_later c e h) (ap (timed c.timestamp) (insert-untimed e cs h))

later_at :
    (c e : Event) (u t : ℕ) → c.timestamp ≡ some u → e.timestamp ≡ some t → is_later c e ≡ ltb t u
later_at c e u t ch eh = rw ch (rw eh refl)

insert-timed :
    (e : Event) (t b : ℕ) (es : List Event)
    → e.timestamp ≡ some t
    → b ≤ t
    → Rises b (times es)
    → Rises b (times (insert_event e es))
unfolding insert_event
insert-timed e t b [] h le r = rw h (le, tt)
insert-timed e t b (c ∷ cs) h le r = at_time c.timestamp (λ a. insert-timed e t a cs h) refl r
  where
    at_time :
        (o : Option ℕ)
        → ((a : ℕ) → a ≤ t → Rises a (times cs) → Rises a (times (insert_event e cs)))
        → c.timestamp ≡ o
        → Rises b (timed o (times cs))
        → Rises b (times (if is_later c e then e ∷ c ∷ cs else c ∷ insert_event e cs))
    at_time none later ch r = rw ch (later b le r)
    at_time (some u) later ch r = elim (Bool-cases (ltb t u)) [
      | inl before ↦ rw ch (rw h (rw before (le, (ground (arith, before), r.1))))
      | inr after ↦
          rw (later_at c e u t ch h ∙ after) (rw ch (r.0, later u (ground (arith, after)) r.1))
    ]

pub insert_event-Rises :
    (e : Event) (es : List Event) → Rises 0 (times es) → Rises 0 (times (insert_event e es))
insert_event-Rises e es r = by_time e.timestamp refl
  where
    by_time : (o : Option ℕ) → e.timestamp ≡ o → Rises 0 (times (insert_event e es))
    by_time none h = rw (insert-untimed e es h) r
    by_time (some t) h = insert-timed e t 0 es h (omega arith) r
