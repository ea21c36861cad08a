-- ===== src/Observation/Select/Chosen.antt =====
-- The loop over a snapshot's bytes: what it leaves, and its end.
use nunchi.Observation.Select.Follow.{Within, elem_here}
use nunchi.Observation.Select.Members.{
  take_out_sub, length-keep, removal_order-optional, take_out-Within, take_out_less,
}
use nunchi.Observation.Types.{Event, Actors}
use nunchi.Observation.Select.{
  unfinished, unavailable, trimmed, elem, removal_order, take_out, suc, Selecting, Event, Actors,
  context_actors, trim_context, events_at, Trimming,
}
use nunchi.Prelude.{
  none, some, true, false, [], ◌∷◌, ℕ, Bool, List, elem, length, not, ◌≡◌, ◌≤◌, suc, ◌⊎◌, arith,
  ◌==◌, Bool-cases, if◌then◌else◌, inl, inr, nat_has_eq, refl, Option, leb, zero, ◌≢◌,
  false_is_not_true, sym, ap, ◌∙◌,
}

-- Whether a snapshot of these events fits the limit on bytes, with its actors.
abbrev pub FitsBytes : Selecting → List Event → Actors → List ℕ → Type 0
FitsBytes c events actors selected =
    (known : Actors) × ((context_actors c.self_id (events_at events selected) actors ≡ some known)
      × (c.context_bytes (events_at events selected) known ≤ c.snapshot_bytes))

module _ (c : Selecting) (events : List Event) (actors : Actors) (required protected : List ℕ) where
  -- What the loop over the bytes leaves of a selection.
  abbrev pub Leaves : List ℕ → Trimming → Type 0
  Leaves selected unfinished = Unit
  Leaves selected unavailable = Unit
  Leaves selected (trimmed s cut) =
      Within required s
      × (Within s selected
          × ((length s ≤ length selected) × ((s ≡ []) ⊎ FitsBytes c events actors s)))

  Leaves-take_out :
      (i : ℕ) (selected : List ℕ) (o : Trimming)
      → Leaves (take_out i selected) o
      → Leaves selected o
  Leaves-take_out i selected unfinished h = tt
  Leaves-take_out i selected unavailable h = tt
  Leaves-take_out i selected (trimmed s cut) (w, (sub, (short, fits))) = (
    w,
    (
      (λ k h. take_out_sub i selected k (sub k h)),
      (omega (arith, short, length-keep (λ j. not (j == i)) selected), fits),
    ),
  )

  pub trim_context-Leaves :
      (n : ℕ) (selected : List ℕ) (cut : Bool)
      → Within required selected
      → Leaves selected (trim_context n c events actors required protected (selected, cut))
  unfolding trim_context
  trim_context-Leaves zero [] cut w = (w, ((λ k h. h), (omega arith, inl refl)))
  trim_context-Leaves (suc n) [] cut w = (w, ((λ k h. h), (omega arith, inl refl)))
  trim_context-Leaves zero (i ∷ is) cut w = tt
  trim_context-Leaves (suc n) (i ∷ is) cut w =
      of_actors (context_actors c.self_id (events_at events (i ∷ is)) actors) refl (λ j h.
        Leaves-take_out j (i ∷ is)
          (trim_context n c events actors required protected (take_out j (i ∷ is), true))
          (trim_context-Leaves n (take_out j (i ∷ is)) true
            (take_out-Within required (i ∷ is) j h w)))
    where
      of_order :
          (order : List ℕ)
          → ((j : ℕ) → elem j order ≡ true → elem j required ≡ false)
          → ((j : ℕ)
              → elem j required ≡ false
              → Leaves
                  (i ∷ is)
                  (trim_context n c events actors required protected (take_out j (i ∷ is), true)))
          → Leaves (i ∷ is) (elim order [
            | [] ↦ unavailable
            | j ∷ js ↦ trim_context n c events actors required protected (take_out j (i ∷ is), true)
          ])
      of_order [] f later = tt
      of_order (j ∷ js) f later = later j (f j (elem_here j js))

      of_actors :
          (o : Option Actors)
          → context_actors c.self_id (events_at events (i ∷ is)) actors ≡ o
          → ((j : ℕ)
              → elem j required ≡ false
              → Leaves
                  (i ∷ is)
                  (trim_context n c events actors required protected (take_out j (i ∷ is), true)))
          → Leaves (i ∷ is) (elim o [
            | none ↦ unavailable
            | some known ↦
                if leb (c.context_bytes (events_at events (i ∷ is)) known) c.snapshot_bytes
                then trimmed (i ∷ is) cut
                else elim (removal_order required protected (i ∷ is)) [
                  | [] ↦ unavailable
                  | j ∷ js ↦
                      trim_context n c events actors required protected (take_out j (i ∷ is), true)
                ]
          ])
      of_actors none e later = tt
      of_actors (some known) e later =
          elim (Bool-cases
            (leb (c.context_bytes (events_at events (i ∷ is)) known) c.snapshot_bytes)) [
              | inl fits ↦
                  rw fits (w, ((λ k h. h), (omega arith, inr (known, (e, ground (arith, fits))))))
              | inr over ↦ rw over (
                  of_order (removal_order required protected (i ∷ is))
                    (λ j h. (removal_order-optional required protected (i ∷ is) j h).1) later)
            ]

  -- Whether the loop came to its end.
  abbrev is_finished : Trimming → Bool
  is_finished unfinished = false
  is_finished _ = true

  finishes :
      (n : ℕ) (selected : List ℕ) (cut : Bool)
      → length selected ≤ n
      → is_finished (trim_context n c events actors required protected (selected, cut)) ≡ true
  unfolding trim_context
  finishes zero [] cut h = refl
  finishes (suc n) [] cut h = refl
  finishes zero (i ∷ is) cut h = absurd (omega (arith, h))
  finishes (suc n) (i ∷ is) cut h =
      of_actors (context_actors c.self_id (events_at events (i ∷ is)) actors) (λ j e.
        finishes n (take_out j (i ∷ is)) true (omega (arith, h, take_out_less j (i ∷ is) e)))
    where
      next : ℕ → Trimming
      next j = trim_context n c events actors required protected (take_out j (i ∷ is), true)

      of_order :
          (order : List ℕ)
          → ((j : ℕ) → elem j order ≡ true → elem j (i ∷ is) ≡ true)
          → ((j : ℕ) → elem j (i ∷ is) ≡ true → is_finished (next j) ≡ true)
          → is_finished (elim order [ [] ↦ unavailable | j ∷ js ↦ next j ]) ≡ true
      of_order [] f later = refl
      of_order (j ∷ js) f later = later j (f j (elem_here j js))

      of_actors :
          (o : Option Actors)
          → ((j : ℕ) → elem j (i ∷ is) ≡ true → is_finished (next j) ≡ true)
          → is_finished (elim o [
            | none ↦ unavailable
            | some known ↦
                if leb (c.context_bytes (events_at events (i ∷ is)) known) c.snapshot_bytes
                then trimmed (i ∷ is) cut
                else elim (removal_order required protected (i ∷ is)) [
                  | [] ↦ unavailable
                  | j ∷ js ↦ next j
                ]
          ])
            ≡ true
      of_actors none later = refl
      of_actors (some known) later =
          elim (Bool-cases
            (leb (c.context_bytes (events_at events (i ∷ is)) known) c.snapshot_bytes)) [
              | inl fits ↦ rw fits refl
              | inr over ↦ rw over (
                  of_order (removal_order required protected (i ∷ is))
                    (λ j e. (removal_order-optional required protected (i ∷ is) j e).0) later)
            ]

  -- The loop that takes events out of a selection until it fits the bytes ends: within one round for
  -- each selected event it has a selection, or it has raised SnapshotUnavailable.
  pub trim_context-ends :
      (selected : List ℕ) (cut : Bool)
      → trim_context (length selected) c events actors required protected (selected, cut)
        ≢ unfinished
  trim_context-ends selected cut e =
      false_is_not_true
        (sym (ap is_finished e) ∙ finishes (length selected) selected cut (omega arith))
