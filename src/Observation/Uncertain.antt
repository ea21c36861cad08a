-- ===== src/Observation/Uncertain.antt =====
-- The gap that a delivery leaves when a write for it fails.
use nunchi.Observation.Trimmed.{append_memory-gaps, append_memory-arrivals}
use nunchi.Observation.Retention.{append_memory}
use nunchi.Observation.Same.{
  SameRoom, account_for_gap-SameRoom, record_audit-SameRoom, reserve_replay-SameRoom,
}
use nunchi.Observation.Times.{free_time-ends}
use nunchi.Observation.Types.{
  Settings, Log, Event, DeliveryAudit, Actor, Actors, is_by, exact_self_context, recorded,
}
use nunchi.Gaps.Kept.{Covers, with_gap-Covers}
use nunchi.Gaps.Order.{Ascends}
use nunchi.Observation.Audit.{
  mark_persistence_uncertain, with_gap_here, here, Answers, taken_times, reserve_replay,
  record_audit,
}
use nunchi.Gaps.{Gap}
use nunchi.Prelude.{
  refl, none, some, true, false, [], ◌∷◌, inl, inr, ℕ, List, ◌≤◌, arith, String, ◌≡◌, Option, Bool,
  subst, sym, if◌then◌else◌, elem, Bool-cases, ◌∙◌, ◌||◌, not, false_is_not_true, ◌+◌,
  string_has_eq,
}
use nunchi.Observation.Observe.{
  audited, raised, Observed, take_in, admit, keep_event, checked_actors, put_back,
}
use mathlib.Core.List.{Memᴰ}

-- A point of the room: a time and a number of arrivals.
abbrev pub point : ℕ → ℕ → Gap
point now arrivals = record { at = now; arrival = arrivals; after = none }

Covers-mono :
    (g h : Gap) (gaps : List Gap)
    → h.arrival ≤ g.arrival
    → h.at ≤ g.at
    → Covers g gaps
    → Covers h gaps
Covers-mono g h [] a t c = c
Covers-mono g h (x ∷ xs) a t (inl (b, u)) = inl (omega (arith, a, b), omega (arith, t, u))
Covers-mono g h (x ∷ xs) a t (inr c) = inr (Covers-mono g h xs a t c)

-- Marking covers each point that is not after the room's.
mark_persistence_uncertain-Covers :
    (a : Answers) (delivery id : String) (n : ℕ) (l m : Log)
    → Ascends 0 l.gaps
    → m.gaps ≡ l.gaps
    → n ≤ m.arrival_seq
    → Covers (point a.now n) (mark_persistence_uncertain a delivery id m).gaps
unfolding mark_persistence_uncertain with_gap_here here
mark_persistence_uncertain-Covers a delivery id n l m asc same le =
    let marked = record m { gaps = with_gap_here a.now m; continuations = [] } in
    let taken = taken_times m.arrival_seq m.gaps in
    let covered =
      Covers-mono (here a.now m) (point a.now n) marked.gaps le (free_time-ends a.now taken).1.0 (
        with_gap-Covers m.gaps (here a.now m) (here a.now m) (subst (Ascends 0) (sym same) asc)
          (Memᴰ.head refl)) in
    elim (Bool-cases a.gaps) [
      | inl done ↦ rw done (
          subst (Covers (point a.now n))
            (sym (account_for_gap-SameRoom a.accounts delivery id marked).gaps) covered)
      | inr lost ↦ rw lost covered
    ]

-- An answer that is not a wake and not an audit leaves a covered point.
abbrev Declares : Answers → ℕ → Observed × Log → Type 0
Declares a n (raised, l) = Covers (point a.now n) l.gaps
Declares a n (audited d wakes, l) = Unit

module _ (c : Settings) (a : Answers) (delivery : String) (e : Event) (l : Log) where
  take_in-Declares :
      (m : Log)
      → Ascends 0 l.gaps
      → m.gaps ≡ l.gaps
      → l.arrival_seq ≤ m.arrival_seq
      → Declares a l.arrival_seq (take_in c a delivery e m)
  unfolding take_in
  take_in-Declares m asc same le =
      let audit : DeliveryAudit = record {
        delivery_id = delivery;
        outcome = if is_by c.actor_id e then exact_self_context else recorded;
        event_id = some e.id;
      } in
      taken audit (not (is_by c.actor_id e)) (record_audit a.audits audit m)
        (record_audit-SameRoom a.audits audit m)
    where
      taken :
          (d : DeliveryAudit) (wakes : Bool) (r : Bool × Log)
          → SameRoom m r.1
          → Declares a l.arrival_seq (
              if r.0
              then (audited d wakes, r.1)
              else (raised, mark_persistence_uncertain a delivery e.id r.1))
      taken d wakes (true, m') s = tt
      taken d wakes (false, m') s =
          mark_persistence_uncertain-Covers a delivery e.id l.arrival_seq l m' asc (s.gaps ∙ same)
            (omega (arith, le, s.arrivals))

  admit-Declares :
      (given : List (String × Option Actor)) (actors : Actors)
      → Ascends 0 l.gaps
      → (elem delivery l.delivery_ids || elem e.id l.event_ids) ≡ false
      → checked_actors given ≡ some actors
      → (append_memory c delivery e actors (reserve_replay a.reserves delivery e.id l).1).0 ≡ true
      → Declares a l.arrival_seq (admit c a delivery e given l)
  unfolding admit keep_event
  admit-Declares given actors asc new checked fits = rw new (
      rw checked (
        reserved (reserve_replay a.reserves delivery e.id l)
          (reserve_replay-SameRoom a.reserves delivery e.id l)
          (append_memory-gaps c delivery e actors (reserve_replay a.reserves delivery e.id l).1)
          (append_memory-arrivals c delivery e actors (reserve_replay a.reserves delivery e.id l).1)
          fits))
    where
      kept :
          (r : Bool × Log)
          → r.0 ≡ true
          → r.1.gaps ≡ l.gaps
          → l.arrival_seq ≤ r.1.arrival_seq
          → (snapshot : Bool)
          → Declares a l.arrival_seq (
              if not r.0
              then (raised, r.1)
              else if snapshot
              then take_in c a delivery e r.1
              else (raised, mark_persistence_uncertain a delivery e.id (put_back l r.1)))
      kept (false, m) h same le snapshot = absurd (false_is_not_true h)
      kept (true, m) h same le true = take_in-Declares m asc same le
      kept (true, m) h same le false =
          mark_persistence_uncertain-Covers a delivery e.id l.arrival_seq l (put_back l m) asc same
            le

      reserved :
          (r : Bool × Log)
          → SameRoom l r.1
          → (append_memory c delivery e actors r.1).1.gaps ≡ r.1.gaps
          → (append_memory c delivery e actors r.1).1.arrival_seq ≡ r.1.arrival_seq + 1
          → (append_memory c delivery e actors r.1).0 ≡ true
          → Declares a l.arrival_seq (
              if r.0
              then keep_event c a delivery e (some actors) l r.1
              else (raised, mark_persistence_uncertain a delivery e.id r.1))
      reserved (false, m) s gaps arrivals h =
          mark_persistence_uncertain-Covers a delivery e.id l.arrival_seq l m asc s.gaps
            (omega (arith, s.arrivals))
      reserved (true, m) s gaps arrivals h =
          kept (append_memory c delivery e actors m) h (gaps ∙ s.gaps)
            (omega (arith, arrivals, s.arrivals)) a.snapshot

  declared :
      (r : Observed × Log)
      → r.0 ≡ raised
      → Declares a l.arrival_seq r
      → Covers (point a.now l.arrival_seq) r.1.gaps
  declared (raised, m) h d = d
  declared (audited x wakes, m) h d = absurd (not_raised x wakes h)
    where
      not_raised : (x : DeliveryAudit) (wakes : Bool) → audited x wakes ≡ raised → ⊥
      not_raised x wakes h = cc

  -- When the log raises an exception for a delivery whose ids are new, and whose actors and event it
  -- can keep, so that a write for it failed, then the log's gaps, in order before, cover the point
  -- where the room was, at the clock's time.
  pub admit-Covers :
      (given : List (String × Option Actor)) (actors : Actors)
      → Ascends 0 l.gaps
      → (elem delivery l.delivery_ids || elem e.id l.event_ids) ≡ false
      → checked_actors given ≡ some actors
      → (append_memory c delivery e actors (reserve_replay a.reserves delivery e.id l).1).0 ≡ true
      → (admit c a delivery e given l).0 ≡ raised
      → Covers (point a.now l.arrival_seq) (admit c a delivery e given l).1.gaps
  admit-Covers given actors asc new checked fits h =
      declared (admit c a delivery e given l) h (admit-Declares given actors asc new checked fits)
