-- ===== src/Observation/Select/Examples.antt =====
-- A snapshot around a reply to a reply, in a room of five messages.
use nunchi.Observation.Select.Follow.{Covers}
use nunchi.Observation.Select.Chosen.{trim_context-ends}
use nunchi.Observation.Select.Closure.{required_of-Covers}
use nunchi.Observation.Select.Result.{IsSnapshot, selected_indices_lem}
use nunchi.Observation.Select.{
  unfinished, context_actors, Selecting, selected_indices, index_of, trim_context, required_of,
  refs_at,
}
use nunchi.Prelude.{
  none, some, true, false, [], ◌∷◌, refl, String, List, ℕ, elem, Option, ◌*◌, ◌≡◌, length,
  nat_has_eq, ◌≢◌,
}
use nunchi.Observation.Types.{message, Actors, Event}

abbrev said : String → Option String → ℕ → Event
said id reply t = record {
  id = id;
  timestamp = some t;
  facts = message "ann" [] reply none;
  text = "";
}

abbrev room : List Event
room =
    said "m1" none 10
    ∷ said "m2" (some "m1") 20
    ∷ said "m3" none 30
    ∷ said "m4" (some "m2") 100
    ∷ said "m5" none 110
    ∷ []

abbrev known_actors : Actors
known_actors =
    ("me", record { display_name = none; kind = none })
    ∷ ("ann", record { display_name = none; kind = none })
    ∷ []

abbrev selecting : Selecting
selecting = record {
  self_id = "me";
  snapshot_events = 4;
  snapshot_bytes = 35;
  snapshot_age = 60;
  now = 120;
  context_bytes = λ events actors. 10 * length events;
}

-- The window is m2 to m5; m1 is required; m3 leaves for the number, m5 for the bytes.
selected_indices_test :
    selected_indices selecting room known_actors "m4"
    ≡ some (0 ∷ 1 ∷ 3 ∷ [], record { by_events = true; by_age = false; by_bytes = true })
unfolding selected_indices context_actors
selected_indices_test = refl

selected_indices_lem_example :
    (trigger : ℕ) × ((index_of "m4" room ≡ some trigger)
      × IsSnapshot selecting room known_actors trigger (0 ∷ 1 ∷ 3 ∷ []))
selected_indices_lem_example =
    selected_indices_lem selecting room known_actors "m4" (0 ∷ 1 ∷ 3 ∷ [])
      (record { by_events = true; by_age = false; by_bytes = true }) selected_indices_test

m4_is_there : index_of "m4" room ≡ some 3
unfolding index_of
m4_is_there = refl

required_of-Covers_example :
    (elem 3 (required_of room 3) ≡ true)
    × ((i : ℕ)
        → elem i (required_of room 3) ≡ true
        → Covers room (required_of room 3) (refs_at room i))
required_of-Covers_example = required_of-Covers room "m4" 3 m4_is_there

trim_context-ends_example :
    trim_context 2 selecting room known_actors (3 ∷ []) [] (3 ∷ 4 ∷ [], false) ≢ unfinished
trim_context-ends_example =
    trim_context-ends selecting room known_actors (3 ∷ []) [] (3 ∷ 4 ∷ []) false
