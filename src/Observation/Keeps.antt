-- ===== src/Observation/Keeps.antt =====
-- What each part of `observe` keeps, `observe` keeps: one rule for the invariants of the log.
use nunchi.Observation.Known.{Knows, reserve_replay-Knows}
use nunchi.Observation.Retention.{append_memory}
use nunchi.Observation.Audit.{
  Answers, record_audit, reserve_replay, mark_persistence_uncertain, Write,
}
use nunchi.Observation.Runs.{log_after, ObserveCall, observe_delivery}
use nunchi.Observation.Types.{
  Settings, Log, DeliveryAudit, AuditOutcome, Event, unconstructable, Actors, Actor, is_by,
  in_thread, exact_self_context, recorded, route_rejected, actor_refs, exact_duplicate,
}
use nunchi.Observation.Observe.{
  no_event, invalid_event, canonical, Observed, set_aside, take_in, keep_event, admit, observe,
  Payload, audited, raised, checked_actors, put_back, resolved,
}
use nunchi.Prelude.{
  none, some, true, false, [], ◌∷◌, Bool, List, String, Option, if◌then◌else◌, not, Bool-cases,
  ◌&&◌, elem, ◌||◌, inl, inr, string_has_eq, ◌==◌, ◌≡◌, refl,
}

-- A property of the log that its parts keep.
pub record Kept (c : Settings) (P : Log → Type 0) : Type 0 where
  pub audits : (w : Write) (d : DeliveryAudit) (l : Log) → P l → P (record_audit w d l).1
  pub reserve :
      (w : Write) (delivery id : String) (l : Log) → P l → P (reserve_replay w delivery id l).1
  pub mark :
      (a : Answers) (delivery id : String) (l : Log)
      → P l
      → P (mark_persistence_uncertain a delivery id l)
  pub appends :
      (delivery : String) (e : Event) (actors : Actors) (l : Log)
      → Knows delivery e.id l
      → P l
      → P (append_memory c delivery e actors l).1
  pub back : (old l : Log) → P old → P l → P (put_back old l)

abbrev log_of : Observed × Log → Log
log_of r = r.1

module _ (c : Settings) (P : Log → Type 0) (k : Kept c P) where
  set_aside-Kept :
      (a : Answers) (delivery : String) (outcome : AuditOutcome) (id : Option String) (l : Log)
      → P l
      → P (set_aside a delivery outcome id l).1
  unfolding set_aside
  set_aside-Kept a delivery outcome id l p =
      k.audits a.audits (record { delivery_id = delivery; outcome = outcome; event_id = id }) l p

  take_in-Kept :
      (a : Answers) (delivery : String) (e : Event) (l : Log) → P l → P (take_in c a delivery e l).1
  unfolding take_in
  take_in-Kept a delivery e l p =
      let audit : DeliveryAudit = record {
        delivery_id = delivery;
        outcome = if is_by c.actor_id e then exact_self_context else recorded;
        event_id = some e.id;
      } in
      taken audit (not (is_by c.actor_id e)) (record_audit a.audits audit l)
        (k.audits a.audits audit l p)
    where
      taken :
          (d : DeliveryAudit) (wakes : Bool) (r : Bool × Log)
          → P r.1
          → P (
              log_of (
                if r.0
                then (audited d wakes, r.1)
                else (raised, mark_persistence_uncertain a delivery e.id r.1)))
      taken d wakes (true, l') q = q
      taken d wakes (false, l') q = k.mark a delivery e.id l' q

  keep_event-Kept :
      (a : Answers) (delivery : String) (e : Event) (o : Option Actors) (old l : Log)
      → Knows delivery e.id l
      → P old
      → P l
      → P (keep_event c a delivery e o old l).1
  unfolding keep_event
  keep_event-Kept a delivery e none old l known h p = p
  keep_event-Kept a delivery e (some actors) old l known h p =
      kept (append_memory c delivery e actors l) (k.appends delivery e actors l known p) a.snapshot
    where
      kept :
          (r : Bool × Log)
          → P r.1
          → (snapshot : Bool)
          → P (
              log_of (
                if not r.0
                then (raised, r.1)
                else if snapshot
                then take_in c a delivery e r.1
                else (raised, mark_persistence_uncertain a delivery e.id (put_back old r.1))))
      kept (false, l') q snapshot = q
      kept (true, l') q true = take_in-Kept a delivery e l' q
      kept (true, l') q false = k.mark a delivery e.id (put_back old l') (k.back old l' h q)

  admit-Kept :
      (a : Answers) (delivery : String) (e : Event) (given : List (String × Option Actor)) (l : Log)
      → P l
      → P (admit c a delivery e given l).1
  unfolding admit
  admit-Kept a delivery e given l p =
      elim (Bool-cases (elem delivery l.delivery_ids || elem e.id l.event_ids)) [
        | inl old ↦ rw old (set_aside-Kept a delivery exact_duplicate (some e.id) l p)
        | inr new ↦ rw new (
            reserved (reserve_replay a.reserves delivery e.id l)
              (k.reserve a.reserves delivery e.id l p)
              (reserve_replay-Knows a.reserves delivery e.id l))
      ]
    where
      reserved :
          (r : Bool × Log)
          → P r.1
          → (r.0 ≡ true → Knows delivery e.id r.1)
          → P (
              log_of (
                if r.0
                then keep_event c a delivery e (checked_actors given) l r.1
                else (raised, mark_persistence_uncertain a delivery e.id r.1)))
      reserved (true, l') q known =
          keep_event-Kept a delivery e (checked_actors given) l l' (known refl) p q
      reserved (false, l') q known = k.mark a delivery e.id l' q

  pub observe-Kept : (d : ObserveCall) (l : Log) → P l → P (observe_delivery c d l).1
  unfolding observe
  observe-Kept d l p = elim (Bool-cases (d.delivery_id == "")) [
    | inl unnamed ↦ rw unnamed p
    | inr named ↦ elim (Bool-cases d.authorized_route) [
      | inl routed ↦ rw named (rw routed (of_payload d.payload))
      | inr rejected ↦
          rw named (rw rejected (set_aside-Kept d.answers d.delivery_id route_rejected none l p))
    ]
  ]
    where
      of_payload :
          (y : Payload)
          → P (
              log_of (elim y [
                | no_event ↦ set_aside d.answers d.delivery_id unconstructable none l
                | invalid_event ↦ (raised, l)
                | canonical e given ↦
                    if in_thread e && not c.threads_in_room
                    then set_aside d.answers d.delivery_id route_rejected none l
                    else if not (resolved (actor_refs e) given l.actors)
                    then (raised, l)
                    else admit c d.answers d.delivery_id e given l
              ]))
      of_payload no_event = set_aside-Kept d.answers d.delivery_id unconstructable none l p
      of_payload invalid_event = p
      of_payload (canonical e given) = elim (Bool-cases (in_thread e && not c.threads_in_room)) [
        | inl outside ↦ rw outside (set_aside-Kept d.answers d.delivery_id route_rejected none l p)
        | inr inside ↦ elim (Bool-cases (resolved (actor_refs e) given l.actors)) [
          | inl known ↦ rw inside (rw known (admit-Kept d.answers d.delivery_id e given l p))
          | inr unknown_actor ↦ rw inside (rw unknown_actor p)
        ]
      ]

  pub log_after-Kept : (ds : List ObserveCall) (l : Log) → P l → P (log_after c l ds)
  unfolding log_after
  log_after-Kept [] l p = p
  log_after-Kept (d ∷ ds) l p = log_after-Kept ds (observe_delivery c d l).1 (observe-Kept d l p)
