-- ===== src/Observation/Observe.antt =====
-- One transport-attested delivery: `ObservationProvider.observe` of src/nunchi/observation.py.
use nunchi.Observation.Retention.{append_memory, has_key}
use nunchi.Observation.Audit.{Answers, record_audit, mark_persistence_uncertain, reserve_replay}
use nunchi.Prelude.{
  List, String, Bool, Option, if◌then◌else◌, ◌==◌, false, some, true, elem, not, ◌∷◌, ◌||◌, none,
  [], ◌&&◌, string_has_eq,
}
use nunchi.Observation.Types.{
  Event, Log, DeliveryAudit, Settings, AuditOutcome, is_by, Actor, exact_self_context, Actors,
  recorded, route_rejected, exact_duplicate, unconstructable, in_thread, actor_refs,
}

-- The event of a delivery, with its actors: none, one that `validate_canonical_event` refuses, or a
-- canonical one. An actor that `_append_memory` refuses has no facts here.
pub data Payload : Type 0 where
  no_event : Payload
  invalid_event : Payload
  canonical : Event → List (String × Option Actor) → Payload

pub data Observed : Type 0 where
  -- an audit, and whether the delivery may wake the participant
  audited : DeliveryAudit → Bool → Observed
  raised : Observed

-- The audit of a delivery that is not taken.
unfoldable pub set_aside : Answers → String → AuditOutcome → Option String → Log → Observed × Log
set_aside a delivery outcome id l =
    let audit : DeliveryAudit = record {
      delivery_id = delivery;
      outcome = outcome;
      event_id = id;
    } in
    let (done, l') = record_audit a.audits audit l in
    (if done then audited audit false else raised, l')

abbrev pub checked_actors : List (String × Option Actor) → Option Actors
checked_actors [] = some []
checked_actors ((id, none) ∷ rest) = none
checked_actors ((id, some facts) ∷ rest) =
    if id == ""
    then none
    else elim (checked_actors rest) [ none ↦ none | some actors ↦ some ((id, facts) ∷ actors) ]

-- The references that neither the delivery nor the log resolves: there must be none.
abbrev pub resolved : List String → List (String × Option Actor) → Actors → Bool
resolved [] given known = true
resolved (r ∷ rs) given known = (has_key r given || has_key r known) && resolved rs given known

-- `previous`: what a failed snapshot puts back.
abbrev pub put_back : Log → Log → Log
put_back old l = record l {
  events = old.events;
  actors = old.actors;
  accepted_event_ids = old.accepted_event_ids;
  delivery_by_event = old.delivery_by_event;
  evicted_before = old.evicted_before;
}

-- The audit of a delivery that was taken; the participant's own events do not wake it.
unfoldable pub take_in : Settings → Answers → String → Event → Log → Observed × Log
take_in c a delivery e l =
    let own = is_by c.actor_id e in
    let audit : DeliveryAudit = record {
      delivery_id = delivery;
      outcome = if own then exact_self_context else recorded;
      event_id = some e.id;
    } in
    let (done, l') = record_audit a.audits audit l in
    if done
    then (audited audit (not own), l')
    else (raised, mark_persistence_uncertain a delivery e.id l')

-- After the reservation: the event in memory, its snapshot, its audit.
unfoldable pub keep_event :
    Settings → Answers → String → Event → Option Actors → Log → Log → Observed × Log
unfolding take_in
keep_event c a delivery e none old l = (raised, l)
keep_event c a delivery e (some actors) old l =
    let (done, kept) = append_memory c delivery e actors l in
    if not done
    then (raised, kept)
    else if a.snapshot
    then take_in c a delivery e kept
    else (raised, mark_persistence_uncertain a delivery e.id (put_back old kept))

unfoldable pub admit :
    Settings → Answers → String → Event → List (String × Option Actor) → Log → Observed × Log
unfolding keep_event
admit c a delivery e given l =
    if elem delivery l.delivery_ids || elem e.id l.event_ids
    then set_aside a delivery exact_duplicate (some e.id) l
    else let (durable, l') = reserve_replay a.reserves delivery e.id l in
      if durable
      then keep_event c a delivery e (checked_actors given) l l'
      else (raised, mark_persistence_uncertain a delivery e.id l')

unfoldable pub observe : Settings → Answers → String → Bool → Payload → Log → Observed × Log
unfolding admit set_aside
observe c a delivery authorized payload l =
    if delivery == ""
    then (raised, l)
    else if not authorized
    then set_aside a delivery route_rejected none l
    else elim payload [
      | no_event ↦ set_aside a delivery unconstructable none l
      | invalid_event ↦ (raised, l)
      | canonical e given ↦
          if in_thread e && not c.threads_in_room
          then set_aside a delivery route_rejected none l
          else if not (resolved (actor_refs e) given l.actors)
          then (raised, l)
          else admit c a delivery e given l
    ]
