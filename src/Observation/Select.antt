-- ===== src/Observation/Select.antt =====
-- The events of a snapshot: `_selected_indices` of src/nunchi/observation.py. A set of indices is the
-- list of its members in order; `none` is SnapshotUnavailable.
mod Follow
pub mod Closure
mod Members
mod Chosen
mod Result
mod Examples
use nunchi.Observation.Retention.{refs_of, all_known}
use nunchi.Prelude.{
  none, some, true, false, [], ◌∷◌, String, Bool, ℕ, List, suc, length, Option, if◌then◌else◌, ◌==◌,
  ltb, drop, ◌-◌, keep, ◌+◌, zero, elem, string_has_eq, ◌||◌, not, leb, nat_has_eq, ◌&&◌, max, ◌++◌,
  ◌/◌,
}
use nunchi.Observation.Types.{message, event_refs, Event, Actors}

-- What `_selected_indices` reads of the limits and the binding, with its clock.
pub record Selecting : Type 0 where
  pub self_id : String
  pub snapshot_events : ℕ
  pub snapshot_bytes : ℕ
  pub snapshot_age : ℕ
  pub now : ℕ
  -- the bytes of the canonical JSON of events and their actors
  pub context_bytes : List Event → Actors → ℕ

pub record Truncated : Type 0 where
  pub by_events : Bool
  pub by_age : Bool
  pub by_bytes : Bool

abbrev pub counting : ℕ → ℕ → List ℕ
counting start zero = []
counting start (suc n) = start ∷ counting (start + 1) n

-- The indices of the events, in order.
abbrev pub all_indices : List Event → List ℕ
all_indices events = counting 0 (length events)

-- `by_id`: of two events with one id, the later one.
unfoldable pub index_from : ℕ → String → List Event → Option ℕ
index_from start id [] = none
index_from start id (e ∷ es) =
    let later = index_from (start + 1) id es in
    elim later [ none ↦ if e.id == id then some start else none | some i ↦ some i ]

unfoldable pub index_of : String → List Event → Option ℕ
unfolding index_from
index_of id events = index_from 0 id events

unfoldable pub event_at : ℕ → List Event → Option Event
event_at i [] = none
event_at zero (e ∷ es) = some e
event_at (suc i) (e ∷ es) = event_at i es

abbrev pub refs_at : List Event → ℕ → List String
refs_at events i = elim (event_at i events) [ none ↦ [] | some e ↦ event_refs e ]

-- The loop over one event's relations: the pending indices, the last one first, and the required.
unfoldable pub follow : List Event → List String → List ℕ × List ℕ → List ℕ × List ℕ
unfolding index_of
follow events [] w = w
follow events (ref ∷ refs) (pending, required) = elim (index_of ref events) [
  | none ↦ follow events refs (pending, required)
  | some i ↦
      if elem i required
      then follow events refs (pending, required)
      else follow events refs (i ∷ pending, i ∷ required)
]

-- `while pending`, with fuel for each event.
unfoldable pub close_relations : ℕ → List Event → List ℕ → List ℕ → List ℕ
unfolding follow event_at event_refs
close_relations zero events pending required = required
close_relations (suc n) events [] required = required
close_relations (suc n) events (i ∷ pending) required =
    let (pending', required') = follow events (refs_at events i) (pending, required) in
    close_relations n events pending' required'

unfoldable pub own_ids : String → List Event → List String
own_ids self [] = []
own_ids self (e ∷ es) =
    let rest = own_ids self es in
    elim e.facts [
      | message author mentioned reply root ↦ if author == self then e.id ∷ rest else rest
      | _ ↦ rest
    ]

abbrev replies_to : List String → Option String → Bool
replies_to ids none = false
replies_to ids (some reply) = elem reply ids

unfoldable pub direct_exchange : String → List String → Event → Bool
direct_exchange self own e = elim e.facts [
  | message author mentioned reply root ↦
      author == self || (elem self mentioned || replies_to own reply)
  | _ ↦ false
]

abbrev pub is_old : ℕ → Event → Bool
is_old cutoff e = elim e.timestamp [ none ↦ false | some t ↦ ltb t cutoff ]

abbrev pub tests_at : (Event → Bool) → List Event → ℕ → Bool
tests_at p events i = elim (event_at i events) [ none ↦ false | some e ↦ p e ]

-- `exchange[-n:]`
abbrev pub last_items : ℕ → List ℕ → List ℕ
last_items n xs = drop (length xs - n) xs

unfoldable pub protected_of : Selecting → List Event → List ℕ → List ℕ
unfolding direct_exchange own_ids event_at
protected_of c events required =
    let own = own_ids c.self_id events in
    let cutoff = c.now - c.snapshot_age in
    let exchange =
      keep
        (λ i.
          not (elem i required)
          && tests_at (λ e. direct_exchange c.self_id own e && not (is_old cutoff e)) events i)
        (all_indices events) in
    last_items (max 1 (c.snapshot_events / 4)) exchange

-- `removal_order`
abbrev pub removal_order : List ℕ → List ℕ → List ℕ → List ℕ
removal_order required protected selected =
    keep (λ i. not (elem i required) && not (elem i protected)) selected
    ++ keep (λ i. not (elem i required) && elem i protected) selected

abbrev pub take_out : ℕ → List ℕ → List ℕ
take_out i selected = keep (λ j. not (j == i)) selected

-- `while len(selected) > self.limits.snapshot_events and removable`
unfoldable pub trim_selected : ℕ → List ℕ → List ℕ → List ℕ
trim_selected limit [] selected = selected
trim_selected limit (i ∷ removable) selected =
    let rest = trim_selected limit removable (take_out i selected) in
    if ltb limit (length selected) then rest else selected

unfoldable pub events_at : List Event → List ℕ → List Event
unfolding event_at
events_at events [] = []
events_at events (i ∷ is) =
    let rest = events_at events is in elim (event_at i events) [ none ↦ rest | some e ↦ e ∷ rest ]

-- `_context_actors` with the participant's own actor
unfoldable pub context_actors : String → List Event → Actors → Option Actors
unfolding refs_of
context_actors self events actors =
    let referenced = self ∷ refs_of events in
    if all_known referenced actors then some (keep (λ a. elem a.0 referenced) actors) else none

-- What the relations require: the trigger, and what the required events name.
abbrev pub required_of : List Event → ℕ → List ℕ
required_of events trigger = close_relations (length events) events (trigger ∷ []) (trigger ∷ [])

-- The indices before any removal.
abbrev pub first_selection : Selecting → List Event → List ℕ → List ℕ → List ℕ
first_selection c events required protected =
    keep (λ i. leb (length events - c.snapshot_events) i || (elem i required || elem i protected))
      (all_indices events)

-- Optional events before the window leave.
abbrev pub drop_old : Selecting → List Event → List ℕ → List ℕ → List ℕ
drop_old c events required selected =
    keep (λ i. elem i required || not (tests_at (is_old (c.now - c.snapshot_age)) events i))
      selected

-- What the loop over the bytes ends with: its fuel ran out, SnapshotUnavailable, or what is selected and
-- whether anything was cut.
pub data Trimming : Type 0 where
  unfinished unavailable : Trimming
  trimmed : List ℕ → Bool → Trimming

-- `while selected`, with fuel for each index; the log's actors are an argument.
unfoldable pub trim_context :
    ℕ → Selecting → List Event → Actors → List ℕ → List ℕ → List ℕ × Bool → Trimming
unfolding events_at
trim_context n c events actors required protected ([], cut) = trimmed [] cut
trim_context zero c events actors required protected (i ∷ is, cut) = unfinished
trim_context (suc n) c events actors required protected (i ∷ is, cut) =
    let selected = i ∷ is in
    let ordered = events_at events selected in
    elim (context_actors c.self_id ordered actors) [
      | none ↦ unavailable
      | some known ↦
          if leb (c.context_bytes ordered known) c.snapshot_bytes
          then trimmed selected cut
          else elim (removal_order required protected selected) [
            | [] ↦ unavailable
            | j ∷ js ↦ trim_context n c events actors required protected (take_out j selected, true)
          ]
    ]

-- After the trigger was found.
unfoldable pub select_around : Selecting → List Event → Actors → ℕ → Option (List ℕ × Truncated)
unfolding close_relations protected_of trim_selected trim_context
select_around c events actors trigger =
    let required = required_of events trigger in
    let protected = protected_of c events required in
    let first = first_selection c events required protected in
    let few = trim_selected c.snapshot_events (removal_order required protected first) first in
    let recent = drop_old c events required few in
    if ltb c.snapshot_events (length few)
    then none
    else elim (trim_context (length recent) c events actors required protected (recent, false)) [
      | unfinished ↦ none
      | unavailable ↦ none
      | trimmed selected cut ↦ some (
        selected,
        record {
          by_events = ltb c.snapshot_events (length first);
          by_age = ltb (length recent) (length few);
          by_bytes = cut;
        },
      )
    ]

-- `_selected_indices`
unfoldable pub selected_indices :
    Selecting → List Event → Actors → String → Option (List ℕ × Truncated)
unfolding index_of select_around
selected_indices c events actors trigger_id = elim (index_of trigger_id events) [
  | none ↦ none
  | some trigger ↦ select_around c events actors trigger
]
