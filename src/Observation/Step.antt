-- ===== src/Observation/Step.antt =====
-- What one call of `observe` adds to the ids that the log knows, and whom it may wake.
use nunchi.Observation.Retention.{append_memory}
use nunchi.Observation.Audit.{Answers, record_audit, mark_persistence_uncertain, reserve_replay}
use nunchi.Observation.Observe.{
  Observed, set_aside, take_in, keep_event, admit, observe, Payload, audited, raised,
  checked_actors, put_back, resolved,
}
use nunchi.Observation.Observe.{no_event, invalid_event, canonical}
use nunchi.Prelude.{
  String, Bool, List, elem, All, ◌≡◌, ◌||◌, Option, false, [], if◌then◌else◌, ◌∷◌, true, arith,
  ◌==◌, string_has_eq, not, some, Bool-cases, inl, refl, inr, none, ◌&&◌,
}
use nunchi.Observation.Types.{
  Event, Log, Settings, DeliveryAudit, AuditOutcome, Actors, Actor, exact_self_context, recorded,
  is_by, exact_duplicate, unconstructable, in_thread, route_rejected, actor_refs,
}
use nunchi.Observation.Known.{
  Grows, Knows, record_audit-Grows, Grows-trans, mark_persistence_uncertain-Grows, Knows-Grows,
  Grows-same, append_memory-Grows, reserve_replay-Grows, reserve_replay-Knows, filed_deliveries,
  Filed, filed_events, record_audit-Filed,
}

-- The delivery and event of an answer that may wake the participant.
abbrev pub pair_of : String → Option String → List (String × String)
pair_of delivery none = []
pair_of delivery (some id) = (delivery, id) ∷ []

abbrev pub woken_of : Observed → List (String × String)
woken_of (audited a true) = pair_of a.delivery_id a.event_id
woken_of _ = []

-- Ids that were unknown before, and are known after and on lines of the audit file.
pub record IsNew (l l' : Log) (w : String × String) : Type 0 where
  pub delivery : elem w.0 l.delivery_ids ≡ false
  pub native : elem w.1 l.event_ids ≡ false
  pub known : Knows w.0 w.1 l'
  pub filed : elem w.0 (filed_deliveries l'.audit_file) ≡ true
  pub filed_native : elem w.1 (filed_events l'.audit_file) ≡ true

pub record Step (l : Log) (r : Observed × Log) : Type 0 where
  pub grows : Grows l r.1
  pub fresh : All (IsNew l r.1) (woken_of r.0)

quiet : (l : Log) (o : Observed) (l' : Log) → woken_of o ≡ [] → Grows l l' → Step l (o, l')
quiet l o l' none_woken g = record { grows = g; fresh = rw none_woken tt }

abbrev answer : Observed × Log → Observed × Log
answer r = r

neither : (a b : Bool) → (a || b) ≡ false → (a ≡ false) × (b ≡ false)
neither a b h = ground (arith, h)

abbrev own_audit : String → String → Bool → DeliveryAudit
own_audit delivery id own = record {
  delivery_id = delivery;
  outcome = if own then exact_self_context else recorded;
  event_id = some id;
}

set_aside-Step :
    (a : Answers) (delivery : String) (outcome : AuditOutcome) (id : Option String) (l : Log)
    → Step l (set_aside a delivery outcome id l)
unfolding set_aside
set_aside-Step a delivery outcome id l =
    let audit : DeliveryAudit = record {
      delivery_id = delivery;
      outcome = outcome;
      event_id = id;
    } in
    aside (record_audit a.audits audit l) (record_audit-Grows a.audits audit l)
  where
    aside :
        (r : Bool × Log)
        → Grows l r.1
        → Step l (
          (if r.0
              then audited
                  (record { delivery_id = delivery; outcome = outcome; event_id = id })
                  false
              else raised),
          r.1,
        )
    aside (true, l') g = quiet l _ l' refl g
    aside (false, l') g = quiet l raised l' refl g

-- A delivery whose ids were unknown in `l`, taken in from a log `m` that knows them.
take_in-Step :
    (c : Settings) (a : Answers) (delivery : String) (e : Event) (l m : Log)
    → elem delivery l.delivery_ids ≡ false
    → elem e.id l.event_ids ≡ false
    → Grows l m
    → Knows delivery e.id m
    → Step l (take_in c a delivery e m)
unfolding take_in
take_in-Step c a delivery e l m nd ne g k =
    taken (is_by c.actor_id e)
      (record_audit a.audits (own_audit delivery e.id (is_by c.actor_id e)) m)
      (record_audit-Grows a.audits (own_audit delivery e.id (is_by c.actor_id e)) m)
      (record_audit-Filed a.audits (own_audit delivery e.id (is_by c.actor_id e)) e.id m refl)
  where
    taken :
        (own : Bool) (r : Bool × Log)
        → Grows m r.1
        → (r.0 ≡ true → Filed delivery e.id r.1)
        → Step l (
            answer (
              if r.0
              then (audited (own_audit delivery e.id own) (not own), r.1)
              else (raised, mark_persistence_uncertain a delivery e.id r.1)))
    taken own (false, l') h filed = quiet l raised _ refl (
        Grows-trans l m _ g
          (Grows-trans m l' _ h (mark_persistence_uncertain-Grows a delivery e.id l')))
    taken true (true, l') h filed = quiet l _ l' refl (Grows-trans l m l' g h)
    taken false (true, l') h filed = record {
      grows = Grows-trans l m l' g h;
      fresh = (
        record {
          delivery = nd;
          native = ne;
          known = Knows-Grows delivery e.id m l' h k;
          filed = (filed refl).delivery;
          filed_native = (filed refl).native;
        },
        tt,
      );
    }

keep_event-Step :
    (c : Settings) (a : Answers) (delivery : String) (e : Event) (o : Option Actors) (l m : Log)
    → elem delivery l.delivery_ids ≡ false
    → elem e.id l.event_ids ≡ false
    → Grows l m
    → Knows delivery e.id m
    → Step l (keep_event c a delivery e o l m)
unfolding keep_event
keep_event-Step c a delivery e none l m nd ne g k = quiet l raised m refl g
keep_event-Step c a delivery e (some actors) l m nd ne g k =
    kept (append_memory c delivery e actors m) (append_memory-Grows c delivery e actors m)
      a.snapshot
  where
    kept :
        (r : Bool × Log)
        → Grows m r.1
        → (snapshot : Bool)
        → Step l (
            answer (
              if not r.0
              then (raised, r.1)
              else if snapshot
              then take_in c a delivery e r.1
              else (raised, mark_persistence_uncertain a delivery e.id (put_back l r.1))))
    kept (false, l') h snapshot = quiet l raised l' refl (Grows-trans l m l' g h)
    kept (true, l') h true =
        take_in-Step c a delivery e l l' nd ne (Grows-trans l m l' g h)
          (Knows-Grows delivery e.id m l' h k)
    kept (true, l') h false = quiet l raised _ refl (
        Grows-trans l m _ g (
          Grows-trans m l' _ h (
            Grows-trans l' (put_back l l') _ (Grows-same l' (put_back l l') refl refl refl)
              (mark_persistence_uncertain-Grows a delivery e.id (put_back l l')))))

admit-Step :
    (c : Settings) (a : Answers) (delivery : String) (e : Event)
    (given : List (String × Option Actor)) (l : Log)
    → Step l (admit c a delivery e given l)
unfolding admit
admit-Step c a delivery e given l =
    elim (Bool-cases (elem delivery l.delivery_ids || elem e.id l.event_ids)) [
      | inl old ↦ rw old (set_aside-Step a delivery exact_duplicate (some e.id) l)
      | inr new ↦ rw new (
          reserved (reserve_replay a.reserves delivery e.id l)
            (reserve_replay-Grows a.reserves delivery e.id l)
            (reserve_replay-Knows a.reserves delivery e.id l) (neither _ _ new).0
            (neither _ _ new).1)
    ]
  where
    reserved :
        (r : Bool × Log)
        → Grows l r.1
        → (r.0 ≡ true → Knows delivery e.id r.1)
        → elem delivery l.delivery_ids ≡ false
        → elem e.id l.event_ids ≡ false
        → Step l (
            answer (
              if r.0
              then keep_event c a delivery e (checked_actors given) l r.1
              else (raised, mark_persistence_uncertain a delivery e.id r.1)))
    reserved (true, l') g k nd ne =
        keep_event-Step c a delivery e (checked_actors given) l l' nd ne g (k refl)
    reserved (false, l') g k nd ne =
        quiet l raised _ refl
          (Grows-trans l l' _ g (mark_persistence_uncertain-Grows a delivery e.id l'))

pub observe-Step :
    (c : Settings) (a : Answers) (delivery : String) (authorized : Bool) (payload : Payload)
    (l : Log)
    → Step l (observe c a delivery authorized payload l)
unfolding observe
observe-Step c a delivery authorized payload l = elim (Bool-cases (delivery == "")) [
  | inl unnamed ↦ rw unnamed (quiet l raised l refl (Grows-same l l refl refl refl))
  | inr named ↦ elim (Bool-cases authorized) [
    | inl routed ↦ rw named (rw routed (of_payload payload))
    | inr rejected ↦ rw named (rw rejected (set_aside-Step a delivery route_rejected none l))
  ]
]
  where
    of_payload :
        (p : Payload)
        → Step l (
            answer (elim p [
              | no_event ↦ set_aside a delivery unconstructable none l
              | invalid_event ↦ (raised, l)
              | canonical e given ↦
                  if in_thread e && not c.threads_in_room
                  then set_aside a delivery route_rejected none l
                  else if not (resolved (actor_refs e) given l.actors)
                  then (raised, l)
                  else admit c a delivery e given l
            ]))
    of_payload no_event = set_aside-Step a delivery unconstructable none l
    of_payload invalid_event = quiet l raised l refl (Grows-same l l refl refl refl)
    of_payload (canonical e given) = elim (Bool-cases (in_thread e && not c.threads_in_room)) [
      | inl outside ↦ rw outside (set_aside-Step a delivery route_rejected none l)
      | inr inside ↦ elim (Bool-cases (resolved (actor_refs e) given l.actors)) [
        | inl known ↦ rw inside (rw known (admit-Step c a delivery e given l))
        | inr unknown_actor ↦
            rw inside (rw unknown_actor (quiet l raised l refl (Grows-same l l refl refl refl)))
      ]
    ]
