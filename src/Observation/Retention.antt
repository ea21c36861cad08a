-- ===== src/Observation/Retention.antt =====
-- What the log keeps in memory: `_append_memory`, `_trim_retention`, `_retained_entry`,
-- `_retained_persistence_bytes`, `_context_actors` and `_merged_actor` of src/nunchi/observation.py.
-- A loop that takes events away one by one has the number of events as fuel. `none` is an exception.
use nunchi.Prelude.{
  ℕ, Option, String, Bool, List, some, ◌∷◌, false, true, none, if◌then◌else◌, suc, keep, length,
  add, ◌==◌, [], ltb, ◌&&◌, elem, ◌+◌, ◌++◌, string_has_eq, ◌||◌, zero,
}
use nunchi.Observation.Types.{Event, Actors, Settings, Log, actor_refs, Actor}

abbrev merge_field : Option String → Option String → String → Option String
merge_field known none uninformative = known
merge_field none (some v) uninformative = some v
merge_field (some k) (some v) uninformative = if v == uninformative then some k else some v

unfoldable pub merged_actor : Option Actor → Actor → Actor
merged_actor none incoming = incoming
merged_actor (some known) incoming = record {
  display_name = merge_field known.display_name incoming.display_name "";
  kind = merge_field known.kind incoming.kind "unknown";
}

unfoldable pub merge_into : String → Actor → Actors → Actors
unfolding merged_actor
merge_into id incoming [] = (id, merged_actor none incoming) ∷ []
merge_into id incoming ((k, known) ∷ rest) =
    let others = merge_into id incoming rest in
    if k == id then (k, merged_actor (some known) incoming) ∷ rest else (k, known) ∷ others

unfoldable pub merge_all : Actors → Actors → Actors
merge_all [] actors = actors
merge_all ((id, a) ∷ rest) actors = merge_all rest (merge_into id a actors)

-- `current_at is not None and current_at > retained_at`
abbrev pub is_later : Event → Event → Bool
is_later current e = elim current.timestamp [
  | none ↦ false
  | some c ↦ elim e.timestamp [ none ↦ false | some t ↦ ltb t c ]
]

-- Before the first event that is later, or at the end.
unfoldable pub insert_event : Event → List Event → List Event
insert_event e [] = e ∷ []
insert_event e (c ∷ cs) = if is_later c e then e ∷ c ∷ cs else c ∷ insert_event e cs

abbrev pub has_key {ℓ} : {A : Type ℓ} → String → List (String × A) → Bool
has_key id [] = false
has_key id ((k, v) ∷ rest) = k == id || has_key id rest

abbrev pub all_known : List String → Actors → Bool
all_known [] actors = true
all_known (r ∷ rs) actors = has_key r actors && all_known rs actors

unfoldable pub lookup {ℓ} : {A : Type ℓ} → String → List (String × A) → Option A
lookup id [] = none
lookup id ((k, v) ∷ rest) = if k == id then some v else lookup id rest

unfoldable pub remove {ℓ} : {A : Type ℓ} → String → List (String × A) → List (String × A)
remove id [] = []
remove id ((k, v) ∷ rest) =
    let others = remove id rest in if k == id then others else (k, v) ∷ others

-- `_context_actors([event], actors)`
abbrev actors_of : Event → Actors → Option Actors
actors_of e actors =
    if all_known (actor_refs e) actors
    then some (keep (λ a. elem a.0 (actor_refs e)) actors)
    else none

-- `len(_canonical_bytes(self._retained_entry(event))) + 1`
abbrev entry_size : Settings → Log → Event → Option ℕ
entry_size c l e = elim (actors_of e l.actors) [
  | none ↦ none
  | some actors ↦ elim (lookup e.id l.delivery_by_event) [
    | none ↦ none
    | some delivery ↦ some (c.entry_bytes delivery e actors + 1)
  ]
]

abbrev add_sizes : Option ℕ → Option ℕ → Option ℕ
add_sizes none b = none
add_sizes (some a) none = none
add_sizes (some a) (some b) = some (a + b)

-- `_retained_persistence_bytes`
unfoldable pub retained_bytes : Settings → Log → List Event → Option ℕ
unfolding lookup
retained_bytes c l [] = some 0
retained_bytes c l (e ∷ es) = add_sizes (entry_size c l e) (retained_bytes c l es)

-- `popleft` and what goes with the event.
unfoldable pub pop_event : Log → Log
unfolding remove
pop_event l = elim l.events [
  | [] ↦ l
  | e ∷ es ↦ record l {
    events = es;
    delivery_by_event = remove e.id l.delivery_by_event;
    arrival_by_id = remove e.id l.arrival_by_id;
    evicted_before = true;
  }
]

unfoldable pub trim_count : ℕ → Settings → Log → Log
trim_count zero c l = l
trim_count (suc n) c l =
    let rest = trim_count n c (pop_event l) in
    if ltb c.retention_events (length l.events) then rest else l

-- Whether the loop ended without an exception, and the log that it leaves.
unfoldable pub trim_bytes : ℕ → Settings → Log → Bool × Log
unfolding retained_bytes
trim_bytes zero c l = (true, l)
trim_bytes (suc n) c l =
    let rest = trim_bytes n c (pop_event l) in
    elim (retained_bytes c l l.events) [
      | none ↦ (false, l)
      | some size ↦ if ltb c.retention_bytes size then rest else (true, l)
    ]

unfoldable pub refs_of : List Event → List String
unfolding actor_refs
refs_of [] = []
refs_of (e ∷ es) = actor_refs e ++ refs_of es

unfoldable pub forget_actors : Settings → Log → Log
unfolding refs_of
forget_actors c l = record l {
  actors = keep (λ a. elem a.0 (c.actor_id ∷ refs_of l.events)) l.actors;
}

unfoldable pub trim_retention : Settings → Log → Bool × Log
trim_retention c l =
    let counted = trim_count (length l.events) c l in
    let (done, trimmed) = trim_bytes (length counted.events) c counted in
    if done then (true, forget_actors c trimmed) else (false, trimmed)

abbrev pub set_key {ℓ} : {A : Type ℓ} → String → A → List (String × A) → List (String × A)
set_key id v m = (id, v) ∷ remove id m

abbrev pub with_event : String → Event → Actors → Log → Log
with_event delivery e actors l = record l {
  delivery_ids = add delivery l.delivery_ids;
  event_ids = add e.id l.event_ids;
  accepted_event_ids = add e.id l.accepted_event_ids;
  delivery_by_event = set_key e.id delivery l.delivery_by_event;
  events = insert_event e l.events;
  arrival_seq = l.arrival_seq + 1;
  arrival_by_id = set_key e.id (l.arrival_seq + 1) l.arrival_by_id;
  actors = merge_all actors l.actors;
}

unfoldable pub append_memory : Settings → String → Event → Actors → Log → Bool × Log
append_memory c delivery e actors l = trim_retention c (with_event delivery e actors l)
