-- ===== src/Observation/Bounded.antt =====
-- The number and the order of the retained events, through each part of `observe`.
use nunchi.Observation.Trimmed.{left}
use nunchi.Observation.Same.{
  account_for_gap-SameRoom, record_audit-SameRoom, reserve_replay-SameRoom,
}
use nunchi.Observation.Runs.{ObserveCall, log_after}
use nunchi.Observation.Keeps.{Kept, log_after-Kept}
use nunchi.Prelude.{
  none, some, List, ℕ, length, ◌≡◌, drop, suc, ◌≤◌, ◌∷◌, arith, Option, String, [], length-drop,
  Bool-cases, Bool, ltb, true, inl, if◌then◌else◌, refl, inr, false, zero,
}
use nunchi.Observation.Retention.{
  pop_event, trim_count, trim_bytes, append_memory, trim_retention, forget_actors, remove,
  with_event, retained_bytes,
}
use nunchi.Observation.Types.{Settings, Event, Log, Actors, new_log, Actor}
use nunchi.Observation.Order.{Rises, times, Rises-tail, insert_event-Rises}
use nunchi.Observation.Audit.{mark_persistence_uncertain, Answers, with_gap_here}

-- What the retention promises of the events: their number, and their order by time.
pub record Fits (c : Settings) (es : List Event) : Type 0 where
  pub bounded : length es ≤ c.retention_events
  pub ordered : Rises 0 (times es)

pub pop_event-events : (l : Log) → (pop_event l).events ≡ drop 1 l.events
unfolding pop_event
pop_event-events l = popped l.events refl
  where
    popped :
        (es : List Event)
        → l.events ≡ es
        → Log.events (elim es [
          | [] ↦ l
          | e ∷ es ↦ record l {
            events = es;
            delivery_by_event = remove e.id l.delivery_by_event;
            arrival_by_id = remove e.id l.arrival_by_id;
            evicted_before = true;
          }
        ])
          ≡ drop 1 es
    popped [] h = h
    popped (e ∷ es) h = refl

drop-Rises : (es : List Event) → Rises 0 (times es) → Rises 0 (times (drop 1 es))
drop-Rises [] r = r
drop-Rises (e ∷ es) r = Rises-tail e es r

drop-Fits : (c : Settings) (es : List Event) → Fits c es → Fits c (drop 1 es)
drop-Fits c es f = record {
  bounded = omega (arith, length-drop 1 es, f.bounded);
  ordered = drop-Rises es f.ordered;
}

-- With fuel for each event, the trimmed log has no more events than the limit.
trim_count-Fits :
    (n : ℕ) (c : Settings) (l : Log)
    → length l.events ≤ n
    → Rises 0 (times l.events)
    → Fits c (trim_count n c l).events
unfolding trim_count
trim_count-Fits zero c l h r = record { bounded = omega (arith, h); ordered = r }
trim_count-Fits (suc n) c l h r = elim (Bool-cases (ltb c.retention_events (length l.events))) [
  | inl over ↦ rw over (
      trim_count-Fits n c (pop_event l)
        (rw (pop_event-events l) (omega (arith, length-drop 1 l.events, h)))
        (rw (pop_event-events l) (drop-Rises l.events r)))
  | inr fits ↦ rw fits (record { bounded = ground (arith, fits); ordered = r })
]

trim_bytes-Fits :
    (n : ℕ) (c : Settings) (l : Log) → Fits c l.events → Fits c (trim_bytes n c l).1.events
unfolding trim_bytes
trim_bytes-Fits zero c l f = f
trim_bytes-Fits (suc n) c l f =
    trimmed (retained_bytes c l l.events) (trim_bytes n c (pop_event l))
      (trim_bytes-Fits n c (pop_event l) (rw (pop_event-events l) (drop-Fits c l.events f)))
  where
    trimmed :
        (o : Option ℕ) (rest : Bool × Log)
        → Fits c rest.1.events
        → Fits c (
            Log.events (
              left (elim o [
                | none ↦ (false, l)
                | some size ↦ if ltb c.retention_bytes size then rest else (true, l)
              ])))
    trimmed none rest s = f
    trimmed (some size) rest s = elim (Bool-cases (ltb c.retention_bytes size)) [
      | inl over ↦ rw over s
      | inr fits ↦ rw fits f
    ]

append_memory-Fits :
    (c : Settings) (delivery : String) (e : Event) (actors : Actors) (l : Log)
    → Fits c l.events
    → Fits c (append_memory c delivery e actors l).1.events
unfolding append_memory trim_retention forget_actors
append_memory-Fits c delivery e actors l f =
    let taken = with_event delivery e actors l in
    let counted = trim_count (length taken.events) c taken in
    forgotten (trim_bytes (length counted.events) c counted) (
      trim_bytes-Fits (length counted.events) c counted (
        trim_count-Fits (length taken.events) c taken (omega arith)
          (insert_event-Rises e l.events f.ordered)))
  where
    forgotten :
        (r : Bool × Log)
        → Fits c r.1.events
        → Fits c (Log.events (left (if r.0 then (true, forget_actors c r.1) else (false, r.1))))
    forgotten (true, l') s = s
    forgotten (false, l') s = s

mark_persistence_uncertain-events :
    (a : Answers) (delivery id : String) (l : Log)
    → (mark_persistence_uncertain a delivery id l).events ≡ l.events
unfolding mark_persistence_uncertain
mark_persistence_uncertain-events a delivery id l =
    let marked = record l { gaps = with_gap_here a.now l; continuations = [] } in
    elim (Bool-cases a.gaps) [
      | inl done ↦ rw done (account_for_gap-SameRoom a.accounts delivery id marked).events
      | inr lost ↦ rw lost refl
    ]

Fits-Kept : (c : Settings) → Kept c (λ l. Fits c l.events)
Fits-Kept c = record {
  audits = λ w d l f. rw ((record_audit-SameRoom w d l).events) f;
  reserve = λ w delivery id l f. rw ((reserve_replay-SameRoom w delivery id l).events) f;
  mark = λ a delivery id l f. rw (mark_persistence_uncertain-events a delivery id l) f;
  appends = λ delivery e actors l known f. append_memory-Fits c delivery e actors l f;
  back = λ old l f g. f;
}

-- After any sequence of deliveries to an empty log, with whatever failures of the disk, the log
-- retains at most `retention_events` events, and their timestamps never fall.
pub log_after-Fits :
    (c : Settings) (self : Actor) (ds : List ObserveCall)
    → Fits c (log_after c (new_log c self) ds).events
unfolding new_log
log_after-Fits c self ds =
    log_after-Kept c (λ l. Fits c l.events) (Fits-Kept c) ds (new_log c self)
      (record { bounded = omega arith; ordered = tt })
