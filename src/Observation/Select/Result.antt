-- ===== src/Observation/Select/Result.antt =====
-- What a selection that succeeds holds.
use nunchi.Observation.Select.Follow.{Within, index_of-all_indices}
use nunchi.Observation.Select.Chosen.{FitsBytes, Leaves, trim_context-Leaves}
use nunchi.Observation.Select.Members.{
  elem-keep, elem-keep_in, length-keep, trim_selected-Within, removal_order-optional,
}
use nunchi.Observation.Select.Closure.{required_of-Covers, required_of-Within}
use nunchi.Observation.Types.{Event, Actors}
use nunchi.Observation.Select.{
  unfinished, unavailable, trimmed, Selecting, select_around, selected_indices, Event, ℕ, Actors,
  Truncated, elem, required_of, all_indices, drop_old, String, first_selection, index_of, tests_at,
  protected_of, is_old, trim_selected, removal_order, trim_context, Trimming,
}
use nunchi.Prelude.{
  none, some, true, false, [], Option, List, ℕ, elem, ◌≡◌, String, length, ◌⊎◌, false_is_not_true,
  ◌≤◌, leb, ◌||◌, nat_has_eq, none_is_not, ◌-◌, not, subst, or_right, or_left, Bool, refl, inl, inr,
  arith, ltb, Bool-cases,
}

-- What a snapshot around a trigger promises.
pub record IsSnapshot (c : Selecting) (events : List Event) (actors : Actors) (trigger : ℕ)
    (selected : List ℕ) : Type 0 where
  pub has_closure : Within (required_of events trigger) selected
  pub few : length selected ≤ c.snapshot_events
  pub small : FitsBytes c events actors selected
  pub recent :
      (i : ℕ)
      → elem i selected ≡ true
      → (elem i (required_of events trigger) ≡ true)
        ⊎ (tests_at (is_old (c.now - c.snapshot_age)) events i ≡ false)

abbrev Succeeds : Selecting → List Event → Actors → ℕ → Option (List ℕ × Truncated) → Type 0
Succeeds c events actors trigger none = Unit
Succeeds c events actors trigger (some (s, t)) = IsSnapshot c events actors trigger s

first_selection-Within :
    (c : Selecting) (events : List Event) (required protected : List ℕ)
    → Within required (all_indices events)
    → Within required (first_selection c events required protected)
first_selection-Within c events required protected w i h =
    elem-keep
      (λ j. leb (length events - c.snapshot_events) j || (elem j required || elem j protected)) i
      (all_indices events) (w i h)
      (or_right (leb (length events - c.snapshot_events) i) _ (or_left _ (elem i protected) h))

drop_old-Within :
    (c : Selecting) (events : List Event) (required selected : List ℕ)
    → Within required selected
    → Within required (drop_old c events required selected)
drop_old-Within c events required selected w i h =
    elem-keep (λ j. elem j required || not (tests_at (is_old (c.now - c.snapshot_age)) events j)) i
      selected (w i h) (or_left _ _ h)

drop_old-recent :
    (c : Selecting) (events : List Event) (required selected : List ℕ) (i : ℕ)
    → elem i (drop_old c events required selected) ≡ true
    → (elem i required ≡ true) ⊎ (tests_at (is_old (c.now - c.snapshot_age)) events i ≡ false)
drop_old-recent c events required selected i h =
    either (elem i required) _
      (elem-keep_in
        (λ j. elem j required || not (tests_at (is_old (c.now - c.snapshot_age)) events j)) i
        selected h).1
  where
    either : (a b : Bool) → (a || not b) ≡ true → (a ≡ true) ⊎ (b ≡ false)
    either true b h = inl refl
    either false b h = inr (ground (arith, h))

abbrev chosen : Option (List ℕ × Truncated) → Option (List ℕ × Truncated)
chosen o = o

-- The trigger is in the closure, so the selection is not empty.
not_empty :
    (required : List ℕ) (trigger : ℕ) → elem trigger required ≡ true → Within required [] → ⊥
not_empty required trigger h w = false_is_not_true (w trigger h)

select_around-Succeeds :
    (c : Selecting) (events : List Event) (actors : Actors) (trigger_id : String) (trigger : ℕ)
    → index_of trigger_id events ≡ some trigger
    → Succeeds c events actors trigger (select_around c events actors trigger)
unfolding select_around
select_around-Succeeds c events actors trigger_id trigger at =
    let valid =
      required_of-Within events trigger (index_of-all_indices trigger_id events trigger at) in
    let w =
      trim_selected-Within c.snapshot_events required (removal_order required protected first) first
        (λ i h. (removal_order-optional required protected first i h).1)
        (first_selection-Within c events required protected valid) in
    elim (Bool-cases (ltb c.snapshot_events (length few))) [
      | inl over ↦ rw over tt
      | inr fits ↦ rw fits (
          loop_ends (ground (arith, fits))
            (trim_context (length recent) c events actors required protected (recent, false))
            (trim_context-Leaves c events actors required protected (length recent) recent false
              (drop_old-Within c events required few w)))
    ]
  where
    required : List ℕ
    required = required_of events trigger

    protected : List ℕ
    protected = protected_of c events required

    first : List ℕ
    first = first_selection c events required protected

    few : List ℕ
    few = trim_selected c.snapshot_events (removal_order required protected first) first

    recent : List ℕ
    recent = drop_old c events required few

    bytes :
        (s : List ℕ)
        → Within required s
        → (s ≡ []) ⊎ FitsBytes c events actors s
        → FitsBytes c events actors s
    bytes s w (inr fits) = fits
    bytes s w (inl empty) = absurd (
        not_empty required trigger (required_of-Covers events trigger_id trigger at).0
          (subst (Within required) empty w))

    loop_ends :
        length few ≤ c.snapshot_events
        → (o : Trimming) → Leaves c events actors required protected recent o
        → Succeeds c events actors trigger (elim o [
          | unfinished ↦ none
          | unavailable ↦ none
          | trimmed selected cut ↦ some (
            selected,
            record {
              by_events = ltb c.snapshot_events (length first);
              by_age = ltb (length recent) (length few);
              by_bytes = cut;
            },
          )
        ])
    loop_ends le unfinished h = tt
    loop_ends le unavailable h = tt
    loop_ends le (trimmed s cut) (w, (sub, (short, fits))) = record {
      has_closure = w;
      few = omega (
        arith,
        short,
        le,
        length-keep
            (λ j. elem j required || not (tests_at (is_old (c.now - c.snapshot_age)) events j)) few,
      );
      small = bytes s w fits;
      recent = λ i h. drop_old-recent c events required few i (sub i h);
    }

-- A selection for a snapshot that succeeds is about a retained trigger. It holds the trigger's whole
-- relation closure and at most `snapshot_events` events; with the facts of their actors, which are all
-- there, they fit `snapshot_bytes`; and an event older than `snapshot_age` is there only if the
-- closure has it.
pub selected_indices_lem :
    (c : Selecting) (events : List Event) (actors : Actors) (trigger_id : String)
    (selected : List ℕ) (t : Truncated)
    → selected_indices c events actors trigger_id ≡ some (selected, t)
    → (trigger : ℕ) × ((index_of trigger_id events ≡ some trigger)
        × IsSnapshot c events actors trigger selected)
unfolding selected_indices
selected_indices_lem c events actors trigger_id selected t h =
    of_index (index_of trigger_id events) refl h
  where
    of_index :
        (o : Option ℕ)
        → index_of trigger_id events ≡ o
        → chosen (elim o [ none ↦ none | some trigger ↦ select_around c events actors trigger ])
          ≡ some (selected, t)
        → (trigger : ℕ) × ((index_of trigger_id events ≡ some trigger)
            × IsSnapshot c events actors trigger selected)
    of_index none at e = absurd (none_is_not (selected, t) (selected, t) e)
    of_index (some trigger) at e = (
      trigger,
      (
        at,
        subst (Succeeds c events actors trigger) e
            (select_around-Succeeds c events actors trigger_id trigger at),
      ),
    )
