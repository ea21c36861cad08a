-- ===== src/Observation/Audit.antt =====
-- Durable facts around a delivery: `_record_audit`, `_reserve_replay`, `_account_for_gap`,
-- `_with_gap_here` and `_mark_persistence_uncertain` of src/nunchi/observation.py.
use nunchi.Prelude.{
  ℕ, Bool, String, Option, List, false, if◌then◌else◌, some, true, ◌++◌, suc, ◌∷◌, length, [], ◌==◌,
  add, not, ◌+◌, ltb, none, ◌&&◌, nat_has_eq, string_has_eq, elem, ◌||◌, zero,
}
use nunchi.Gaps.{Gap, with_gap}
use nunchi.Observation.Types.{
  Log, AuditOutcome, DeliveryAudit, Event, recorded, exact_self_context, continuity_gap,
}
use nunchi.Observation.Retention.{lookup}

-- A line's write: the file did not open; the write raised, and the line is in the file or not; or the
-- write is durable. A log with no files has each write durable.
pub data Write : Type 0 where
  not_opened : Write
  uncertain : Bool → Write
  written_durably : Write

-- How the disk answers one delivery's writes, and the clock's milliseconds for a gap.
pub record Answers : Type 0 where
  pub reserves : Write
  pub snapshot : Bool
  pub audits : Write
  pub gaps : Bool
  pub accounts : Write
  pub now : ℕ

abbrev pub has_pair : String → String → List (String × String) → Bool
has_pair a b [] = false
has_pair a b ((x, y) ∷ rest) = (x == a && y == b) || has_pair a b rest

abbrev pub add_pair : String → String → List (String × String) → List (String × String)
add_pair a b m = if has_pair a b m then m else (a, b) ∷ m

abbrev pub add_event : Option String → List String → List String
add_event none ids = ids
add_event (some id) ids = add id ids

abbrev pub is_accepted : AuditOutcome → Bool
is_accepted recorded = true
is_accepted exact_self_context = true
is_accepted _ = false

abbrev commit_pair : DeliveryAudit → List (String × String) → List (String × String)
commit_pair a m = elim a.event_id [
  | none ↦ m
  | some id ↦ if is_accepted a.outcome then add_pair a.delivery_id id m else m
]

-- `_record_audit`: whether it did not raise, and what it leaves.
unfoldable pub record_audit : Write → DeliveryAudit → Log → Bool × Log
record_audit not_opened a l = (false, l)
record_audit (uncertain in_file) a l =
    (false, record l { audit_file = if in_file then l.audit_file ++ a ∷ [] else l.audit_file })
record_audit written_durably a l = (
  true,
  record l {
    audits = l.audits ++ a ∷ [];
    delivery_ids = add a.delivery_id l.delivery_ids;
    event_ids = add_event a.event_id l.event_ids;
    committed_replays = commit_pair a l.committed_replays;
    audit_file = l.audit_file ++ a ∷ [];
  },
)

abbrev pub reserve_pair : String → String → Log → Log
reserve_pair delivery id l = record l {
  reserved_replays = (delivery, id) ∷ l.reserved_replays;
  delivery_ids = add delivery l.delivery_ids;
  event_ids = add id l.event_ids;
}

-- The write of a reservation: an uncertain one reserves too, and raises.
abbrev pub written : Write → String → String → Log → Bool × Log
written not_opened delivery id l = (false, l)
written (uncertain in_file) delivery id l =
    let l' = reserve_pair delivery id l in
    (
      false,
      record l' {
        replay_file = if in_file then l.replay_file ++ (delivery, id) ∷ [] else l.replay_file;
      },
    )
written written_durably delivery id l = (
  true,
  record (reserve_pair delivery id l) { replay_file = l.replay_file ++ (delivery, id) ∷ [] },
)

-- `_reserve_replay`
unfoldable pub reserve_replay : Write → String → String → Log → Bool × Log
reserve_replay w delivery id l =
    if has_pair delivery id l.reserved_replays then (false, l) else written w delivery id l

-- `_account_for_gap`
unfoldable pub account_for_gap : Write → String → String → Log → Log
unfolding record_audit
account_for_gap w delivery id l =
    if not (has_pair delivery id l.reserved_replays)
    then l
    else if has_pair delivery id l.accounted_replays
    then l
    else let (done, l') =
        record_audit w
          (record { delivery_id = delivery; outcome = continuity_gap; event_id = some id }) l in
      if done then record l' { accounted_replays = (delivery, id) ∷ l'.accounted_replays } else l'

-- `while at in taken: at += 1 millisecond`, with fuel for each taken time.
unfoldable pub free_time : ℕ → ℕ → List ℕ → ℕ
free_time zero at taken = at
free_time (suc n) at taken =
    let later = free_time n (at + 1) taken in if elem at taken then later else at

unfoldable pub taken_times : ℕ → List Gap → List ℕ
taken_times seq [] = []
taken_times seq (g ∷ gs) =
    let rest = taken_times seq gs in if g.arrival == seq then rest else g.at ∷ rest

abbrev later_arrival : String × ℕ → Option (String × ℕ) → Option (String × ℕ)
later_arrival a none = some a
later_arrival a (some b) = if ltb a.1 b.1 then some b else some a

-- `max(arrivals, key=arrivals.__getitem__)` over the retained events
unfoldable pub newest_arrival : List Event → List (String × ℕ) → Option (String × ℕ)
newest_arrival [] arrivals = none
newest_arrival (e ∷ es) arrivals =
    let rest = newest_arrival es arrivals in
    elim (lookup e.id arrivals) [ none ↦ rest | some n ↦ later_arrival (e.id, n) rest ]

-- The gap at the room's position now.
unfoldable pub here : ℕ → Log → Gap
unfolding free_time taken_times newest_arrival
here now l =
    let taken = taken_times l.arrival_seq l.gaps in
    record {
      at = free_time (length taken) now taken;
      arrival = l.arrival_seq;
      after = elim (newest_arrival l.events l.arrival_by_id) [
        | none ↦ none
        | some (id, n) ↦ some id
      ];
    }

-- `_with_gap_here`
unfoldable pub with_gap_here : ℕ → Log → List Gap
unfolding here
with_gap_here now l = with_gap l.gaps (here now l)

-- `_mark_persistence_uncertain`
unfoldable pub mark_persistence_uncertain : Answers → String → String → Log → Log
unfolding account_for_gap
mark_persistence_uncertain a delivery id l =
    let marked = record l { gaps = with_gap_here a.now l; continuations = [] } in
    if a.gaps then account_for_gap a.accounts delivery id marked else marked
