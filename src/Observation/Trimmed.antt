-- ===== src/Observation/Trimmed.antt =====
-- What the retention leaves alone: the known ids, the gaps and the arrivals.
use nunchi.Observation.Retention.{
  pop_event, trim_count, trim_bytes, trim_retention, forget_actors, remove, retained_bytes,
  append_memory, with_event,
}
use nunchi.Prelude.{
  ℕ, String, ◌≡◌, Bool, Bool-cases, if◌then◌else◌, true, string_has_eq, Option, false, inl, ◌∷◌,
  inr, refl, ◌∙◌, some, List, none, suc, length, [], ltb, zero, ◌+◌,
}
use nunchi.Observation.Types.{Event, Log, Settings, Actors}

pub record SameIds (l l' : Log) : Type 0 where
  pub deliveries : l'.delivery_ids ≡ l.delivery_ids
  pub natives : l'.event_ids ≡ l.event_ids
  pub gaps : l'.gaps ≡ l.gaps
  pub audits : l'.audit_file ≡ l.audit_file
  pub arrivals : l'.arrival_seq ≡ l.arrival_seq

SameIds-trans : (a b c : Log) → SameIds a b → SameIds b c → SameIds a c
SameIds-trans a b c f g = record {
  deliveries = g.deliveries ∙ f.deliveries;
  natives = g.natives ∙ f.natives;
  gaps = g.gaps ∙ f.gaps;
  audits = g.audits ∙ f.audits;
  arrivals = g.arrivals ∙ f.arrivals;
}

pop_event-SameIds : (l : Log) → SameIds l (pop_event l)
unfolding pop_event
pop_event-SameIds l = popped l.events
  where
    popped :
        (es : List Event)
        → SameIds l (elim es [
          | [] ↦ l
          | e ∷ es ↦ record l {
            events = es;
            delivery_by_event = remove e.id l.delivery_by_event;
            arrival_by_id = remove e.id l.arrival_by_id;
            evicted_before = true;
          }
        ])
    popped [] = record {
      deliveries = refl;
      natives = refl;
      gaps = refl;
      audits = refl;
      arrivals = refl;
    }
    popped (e ∷ es) = record {
      deliveries = refl;
      natives = refl;
      gaps = refl;
      audits = refl;
      arrivals = refl;
    }

abbrev pub left : Bool × Log → Log
left r = r.1

trim_count-SameIds : (n : ℕ) (c : Settings) (l : Log) → SameIds l (trim_count n c l)
unfolding trim_count
trim_count-SameIds zero c l = record {
  deliveries = refl;
  natives = refl;
  gaps = refl;
  audits = refl;
  arrivals = refl;
}
trim_count-SameIds (suc n) c l = elim (Bool-cases (ltb c.retention_events (length l.events))) [
  | inl over ↦
      rw over (
        SameIds-trans l (pop_event l) _ (pop_event-SameIds l)
          (trim_count-SameIds n c (pop_event l)))
  | inr fits ↦
      rw fits
        (record { deliveries = refl; natives = refl; gaps = refl; audits = refl; arrivals = refl })
]

trim_bytes-SameIds : (n : ℕ) (c : Settings) (l : Log) → SameIds l (trim_bytes n c l).1
unfolding trim_bytes
trim_bytes-SameIds zero c l = record {
  deliveries = refl;
  natives = refl;
  gaps = refl;
  audits = refl;
  arrivals = refl;
}
trim_bytes-SameIds (suc n) c l =
    trimmed (retained_bytes c l l.events) (trim_bytes n c (pop_event l))
      (SameIds-trans l (pop_event l) _ (pop_event-SameIds l) (trim_bytes-SameIds n c (pop_event l)))
  where
    trimmed :
        (o : Option ℕ) (rest : Bool × Log)
        → SameIds l rest.1
        → SameIds l (
            left (elim o [
              | none ↦ (false, l)
              | some size ↦ if ltb c.retention_bytes size then rest else (true, l)
            ]))
    trimmed none rest s = record {
      deliveries = refl;
      natives = refl;
      gaps = refl;
      audits = refl;
      arrivals = refl;
    }
    trimmed (some size) rest s = elim (Bool-cases (ltb c.retention_bytes size)) [
      | inl over ↦ rw over s
      | inr fits ↦ rw fits (record {
        deliveries = refl;
        natives = refl;
        gaps = refl;
        audits = refl;
        arrivals = refl;
      })
    ]

pub trim_retention-SameIds : (c : Settings) (l : Log) → SameIds l (trim_retention c l).1
unfolding trim_retention forget_actors
trim_retention-SameIds c l =
    let counted = trim_count (length l.events) c l in
    let s =
      SameIds-trans l counted _ (trim_count-SameIds (length l.events) c l)
        (trim_bytes-SameIds (length counted.events) c counted) in
    forgotten (trim_bytes (length counted.events) c counted) s
  where
    forgotten :
        (r : Bool × Log)
        → SameIds l r.1
        → SameIds l (left (if r.0 then (true, forget_actors c r.1) else (false, r.1)))
    forgotten (true, l') s = record {
      deliveries = s.deliveries;
      natives = s.natives;
      gaps = s.gaps;
      audits = s.audits;
      arrivals = s.arrivals;
    }
    forgotten (false, l') s = s

pub append_memory-gaps :
    (c : Settings) (delivery : String) (e : Event) (actors : Actors) (l : Log)
    → (append_memory c delivery e actors l).1.gaps ≡ l.gaps
unfolding append_memory
append_memory-gaps c delivery e actors l =
    (trim_retention-SameIds c (with_event delivery e actors l)).gaps

pub append_memory-arrivals :
    (c : Settings) (delivery : String) (e : Event) (actors : Actors) (l : Log)
    → (append_memory c delivery e actors l).1.arrival_seq ≡ l.arrival_seq + 1
unfolding append_memory
append_memory-arrivals c delivery e actors l =
    (trim_retention-SameIds c (with_event delivery e actors l)).arrivals
