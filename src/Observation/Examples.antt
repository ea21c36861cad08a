-- ===== src/Observation/Examples.antt =====
-- A room of three messages, one delivered twice and one whose snapshot fails.
use nunchi.Observation.Uncertain.{point, admit-Covers}
use nunchi.Observation.Restored.{reopen-Restored}
use nunchi.Observation.Reopened.{Restored}
use nunchi.Observation.Reopen.{Reopening, reopen}
use nunchi.Gaps.{with_gap}
use nunchi.Observation.Times.{free_time-ends}
use nunchi.Observation.Bytes.{trim_bytes-Within}
use nunchi.Observation.Once.{wake_once}
use nunchi.Observation.Retention.{
  trim_bytes, retained_bytes, append_memory, trim_retention, trim_count, insert_event, merge_all,
  merge_into, forget_actors, remove, pop_event,
}
use nunchi.Observation.GapList.{GapsFit, log_after-GapsFit}
use nunchi.Observation.Bounded.{Fits, log_after-Fits}
use nunchi.Observation.Runs.{log_after, ObserveCall, Happening, woken_in, delivered, reopened}
use nunchi.Observation.Audit.{
  written_durably, Answers, free_time, reserve_replay, record_audit, mark_persistence_uncertain,
  with_gap_here, uncertain,
}
use nunchi.Observation.Types.{recorded, message, Settings, Actor, Log, new_log, actor_refs, Event}
use nunchi.Gaps.Order.{Ascends}
use nunchi.Gaps.Kept.{Covers}
use nunchi.Observation.Observe.{raised, canonical, Payload, observe, admit}
use nunchi.Prelude.{
  some, none, true, false, refl, ◌∷◌, [], arith, String, List, count, ℕ, elem, ◌==◌, ◌≡◌, map, ◌≤◌,
  nat_has_eq, string_has_eq, ◌||◌,
}

abbrev settings : Settings
settings = record {
  actor_id = "me";
  threads_in_room = false;
  retention_events = 2;
  retention_bytes = 250;
  entry_bytes = λ delivery e actors. 99;
}

abbrev self : Actor
self = record { display_name = some "Me"; kind = some "agent" }

abbrev said : String → String → ℕ → Payload
said author id t =
    canonical
      (record {
        id = id;
        timestamp = some t;
        facts = message author ("me" ∷ []) none none;
        text = "hello";
      })
      ((author, some (record { display_name = none; kind = none })) ∷ [])

abbrev all_well : Answers
all_well = record {
  reserves = written_durably;
  snapshot = true;
  audits = written_durably;
  gaps = true;
  accounts = written_durably;
  now = 50;
}

abbrev sent : Answers → String → Payload → ObserveCall
sent a id payload = record {
  answers = a;
  delivery_id = id;
  authorized_route = true;
  payload = payload;
}

abbrev deliveries : List ObserveCall
deliveries =
    sent all_well "d1" (said "ann" "m1" 10)
    ∷ sent all_well "d1" (said "ann" "m1" 10)
    ∷ sent (record all_well { snapshot = false }) "d2" (said "ann" "m2" 20)
    ∷ sent all_well "d2" (said "ann" "m2" 20)
    ∷ sent all_well "d3" (said "ben" "m3" 5)
    ∷ sent all_well "d4" (said "me" "m4" 40)
    ∷ []

-- The next process finds no snapshot.
abbrev next_process : Reopening
next_process = record {
  snapshot = [];
  stored = some ([], false);
  snapshot_written = true;
  gaps_written = true;
  accounts = [];
  now = 90;
}

abbrev as_they_are : List (String × String) → List (String × String)
as_they_are pairs = pairs

-- The deliveries again after a restart, and a new one.
abbrev history : List Happening
history =
    delivered (sent all_well "d1" (said "ann" "m1" 10))
    ∷ delivered (sent (record all_well { snapshot = false }) "d2" (said "ann" "m2" 20))
    ∷ delivered (sent all_well "d2" (said "ann" "m2" 20))
    ∷ reopened next_process
    ∷ delivered (sent all_well "d1" (said "ann" "m1" 10))
    ∷ delivered (sent all_well "d2" (said "ann" "m2" 20))
    ∷ delivered (sent all_well "d3" (said "ben" "m3" 5))
    ∷ delivered (sent all_well "d4" (said "me" "m4" 40))
    ∷ []

-- The copies and the participant's own message do not wake it, nor what failed.
woken_in_test :
    woken_in settings as_they_are self (true, new_log settings self) history
    ≡ ("d1", "m1") ∷ ("d3", "m3") ∷ []
unfolding woken_in observe new_log actor_refs reserve_replay append_memory trim_retention trim_bytes
    trim_count insert_event merge_all merge_into record_audit forget_actors remove
    mark_persistence_uncertain pop_event reopen
woken_in_test = refl

-- The event of the earliest time is dropped, and the gap stands after the second arrival.
log_after_test :
    let l = log_after settings (new_log settings self) deliveries in
    (map (λ e. e.id) l.events ≡ "m1" ∷ "m4" ∷ []) × (map (λ g. g.arrival) l.gaps ≡ 2 ∷ [])
unfolding log_after observe new_log actor_refs reserve_replay append_memory trim_retention
    trim_bytes trim_count insert_event merge_all merge_into record_audit forget_actors remove
    mark_persistence_uncertain pop_event with_gap_here with_gap
log_after_test = (refl, refl)

wake_once_example :
    (count
        (λ w. w.0 == "d1")
        (woken_in settings as_they_are self (true, new_log settings self) history)
      ≤ 1)
    × (count
          (λ w. w.1 == "d1")
          (woken_in settings as_they_are self (true, new_log settings self) history)
        ≤ 1)
wake_once_example = wake_once settings as_they_are self (true, new_log settings self) history "d1"

log_after-Fits_example :
    Fits settings (log_after settings (new_log settings self) deliveries).events
log_after-Fits_example = log_after-Fits settings self deliveries

log_after-GapsFit_example : GapsFit (log_after settings (new_log settings self) deliveries).gaps
log_after-GapsFit_example = log_after-GapsFit settings self deliveries

abbrev one_event : Log
one_event = record (new_log settings self) {
  events =
      record { id = "m1"; timestamp = none; facts = message "me" [] none none; text = "" } ∷ [];
  delivery_by_event = ("m1", "d1") ∷ [];
}

byte_loop_ends : (trim_bytes 1 settings one_event).0 ≡ true
unfolding trim_bytes new_log actor_refs
byte_loop_ends = refl

trim_bytes-Within_example :
    (size : ℕ) × ((retained_bytes settings
          (trim_bytes 1 settings one_event).1
          (trim_bytes 1 settings one_event).1.events
        ≡ some size)
      × (size ≤ 250))
trim_bytes-Within_example = trim_bytes-Within 1 settings one_event (omega arith) byte_loop_ends

free_time-ends_example :
    (elem (free_time 2 50 (51 ∷ 50 ∷ [])) (51 ∷ 50 ∷ []) ≡ false)
    × ((50 ≤ free_time 2 50 (51 ∷ 50 ∷ [])) × (free_time 2 50 (51 ∷ 50 ∷ []) ≤ 52))
free_time-ends_example = free_time-ends 50 (51 ∷ 50 ∷ [])

free_time_test : free_time 2 50 (51 ∷ 50 ∷ []) ≡ 52
unfolding free_time
free_time_test = refl

abbrev one_line : Log
one_line = record (new_log settings self) {
  audit_file = record { delivery_id = "d1"; outcome = recorded; event_id = some "m1" } ∷ [];
}

abbrev reopened_line : Log
reopened_line = elim (reopen settings as_they_are self next_process one_line) [
  | none ↦ one_line
  | some l ↦ l
]

line_opens : reopen settings as_they_are self next_process one_line ≡ some reopened_line
unfolding reopen new_log
line_opens = refl

reopen-Restored_example : Restored one_line.audit_file reopened_line
reopen-Restored_example =
    reopen-Restored settings as_they_are self next_process one_line reopened_line line_opens

-- The reservation of this delivery is uncertain.
abbrev half_written : Answers
half_written = record all_well { reserves = uncertain false }

abbrev hello : Event
hello = record {
  id = "m1";
  timestamp = some 10;
  facts = message "ann" [] none none;
  text = "hello";
}

abbrev ann : Actor
ann = record { display_name = none; kind = none }

hello_fits :
    (append_memory settings "d1" hello
      (("ann", ann) ∷ [])
      (reserve_replay (uncertain false) "d1" "m1" (new_log settings self)).1).0
    ≡ true
unfolding append_memory trim_retention trim_bytes trim_count insert_event reserve_replay new_log
    actor_refs merge_all merge_into
hello_fits = refl

hello_fails :
    (admit settings half_written "d1" hello (("ann", some ann) ∷ []) (new_log settings self)).0
    ≡ raised
unfolding admit new_log reserve_replay
hello_fails = refl

no_gaps : Ascends 0 (new_log settings self).gaps
unfolding new_log
no_gaps = tt

hello_is_new :
    (elem "d1" (new_log settings self).delivery_ids || elem "m1" (new_log settings self).event_ids)
    ≡ false
unfolding new_log
hello_is_new = refl

admit-Covers_example :
    Covers
      (point 50 (new_log settings self).arrival_seq)
      (admit settings half_written "d1" hello
        (("ann", some ann) ∷ [])
        (new_log settings self)).1.gaps
admit-Covers_example =
    admit-Covers settings half_written "d1" hello (new_log settings self) (("ann", some ann) ∷ [])
      (("ann", ann) ∷ []) no_gaps hello_is_new refl hello_fits hello_fails
