-- ===== src/Observation/Known.antt =====
-- The ids that the log knows, through each part of `observe`.
use nunchi.Observation.Trimmed.{trim_retention-SameIds}
use nunchi.Observation.Retention.{append_memory, with_event}
use nunchi.Observation.Audit.{
  written_durably, uncertain, not_opened, record_audit, reserve_replay, has_pair, add_event,
  account_for_gap, mark_persistence_uncertain, Answers, with_gap_here, Write, reserve_pair, written,
}
use nunchi.Prelude.{
  String, ◌≡◌, Bool, elem, Bool-cases, if◌then◌else◌, true, string_has_eq, Option, false,
  false_is_not_true, inl, ◌∷◌, elem-add_self, inr, elem-add, refl, some, List, none, [],
  elem-add_mono, ◌++◌, ◌==◌, or_right, or_later, ==_refl,
}
use nunchi.Observation.Types.{Event, Log, DeliveryAudit, continuity_gap, Settings, Actors}

-- The ids on the lines of the audit file.
abbrev pub filed_deliveries : List DeliveryAudit → List String
filed_deliveries [] = []
filed_deliveries (a ∷ rest) = a.delivery_id ∷ filed_deliveries rest

abbrev pub filed_events : List DeliveryAudit → List String
filed_events [] = []
filed_events (a ∷ rest) = add_event a.event_id (filed_events rest)

-- The ids that a log knows are never forgotten, nor those in its audit file.
pub record Grows (l l' : Log) : Type 0 where
  pub deliveries : (x : String) → elem x l.delivery_ids ≡ true → elem x l'.delivery_ids ≡ true
  pub natives : (x : String) → elem x l.event_ids ≡ true → elem x l'.event_ids ≡ true
  pub filed :
      (x : String)
      → elem x (filed_deliveries l.audit_file) ≡ true
      → elem x (filed_deliveries l'.audit_file) ≡ true
  pub filed_natives :
      (x : String)
      → elem x (filed_events l.audit_file) ≡ true
      → elem x (filed_events l'.audit_file) ≡ true

pub Grows-trans : (a b c : Log) → Grows a b → Grows b c → Grows a c
Grows-trans a b c f g = record {
  deliveries = λ x h. g.deliveries x (f.deliveries x h);
  natives = λ x h. g.natives x (f.natives x h);
  filed = λ x h. g.filed x (f.filed x h);
  filed_natives = λ x h. g.filed_natives x (f.filed_natives x h);
}

pub Grows-same :
    (l l' : Log)
    → l'.delivery_ids ≡ l.delivery_ids
    → l'.event_ids ≡ l.event_ids
    → l'.audit_file ≡ l.audit_file
    → Grows l l'
Grows-same l l' d n a = record {
  deliveries = λ x h. rw d h;
  natives = λ x h. rw n h;
  filed = λ x h. rw a h;
  filed_natives = λ x h. rw a h;
}

-- Both ids of a delivery are known.
pub record Knows (d id : String) (l : Log) : Type 0 where
  pub delivery : elem d l.delivery_ids ≡ true
  pub native : elem id l.event_ids ≡ true

pub Knows-Grows :
    (delivery id : String) (l l' : Log) → Grows l l' → Knows delivery id l → Knows delivery id l'
Knows-Grows delivery id l l' g k = record {
  delivery = g.deliveries delivery k.delivery;
  native = g.natives id k.native;
}

pub elem-add_event :
    (x : String) (o : Option String) (ids : List String)
    → elem x ids ≡ true
    → elem x (add_event o ids) ≡ true
elem-add_event x none ids h = h
elem-add_event x (some id) ids h = elem-add x id ids h

pub add_event_mono :
    (x : String) (o : Option String) (xs ys : List String)
    → (elem x xs ≡ true → elem x ys ≡ true)
    → elem x (add_event o xs) ≡ true
    → elem x (add_event o ys) ≡ true
add_event_mono x none xs ys f h = f h
add_event_mono x (some id) xs ys f h = elem-add_mono x id xs ys f h

-- A line more in the audit file.
module _ (a : DeliveryAudit) (x : String) where
  pub filed-append :
      (rows : List DeliveryAudit)
      → elem x (filed_deliveries rows) ≡ true
      → elem x (filed_deliveries (rows ++ a ∷ [])) ≡ true
  filed-append [] h = absurd (false_is_not_true h)
  filed-append (r ∷ rows) h = elim (Bool-cases (x == r.delivery_id)) [
    | inl same ↦ rw same refl
    | inr other ↦
        or_right (x == r.delivery_id) _
          (filed-append rows (or_later (x == r.delivery_id) _ other h))
  ]

  pub filed_natives-append :
      (rows : List DeliveryAudit)
      → elem x (filed_events rows) ≡ true
      → elem x (filed_events (rows ++ a ∷ [])) ≡ true
  filed_natives-append [] h = absurd (false_is_not_true h)
  filed_natives-append (r ∷ rows) h =
      add_event_mono x r.event_id (filed_events rows) (filed_events (rows ++ a ∷ []))
        (filed_natives-append rows) h

-- Both ids of a delivery are on a line of the audit file.
pub record Filed (d id : String) (l : Log) : Type 0 where
  pub delivery : elem d (filed_deliveries l.audit_file) ≡ true
  pub native : elem id (filed_events l.audit_file) ≡ true

filed_last :
    (a : DeliveryAudit) (rows : List DeliveryAudit)
    → elem a.delivery_id (filed_deliveries (rows ++ a ∷ [])) ≡ true
filed_last a [] = rw (==_refl a.delivery_id) refl
filed_last a (r ∷ rows) = or_right _ _ (filed_last a rows)

filed_native_last :
    (a : DeliveryAudit) (id : String) (rows : List DeliveryAudit)
    → a.event_id ≡ some id
    → elem id (filed_events (rows ++ a ∷ [])) ≡ true
filed_native_last a id [] h = rw h (elem-add_self id [])
filed_native_last a id (r ∷ rows) h =
    elem-add_event id r.event_id (filed_events (rows ++ a ∷ [])) (filed_native_last a id rows h)

pub record_audit-Filed :
    (w : Write) (a : DeliveryAudit) (id : String) (l : Log)
    → a.event_id ≡ some id
    → (record_audit w a l).0 ≡ true
    → Filed a.delivery_id id (record_audit w a l).1
unfolding record_audit
record_audit-Filed not_opened a id l e h = absurd (false_is_not_true h)
record_audit-Filed (uncertain in_file) a id l e h = absurd (false_is_not_true h)
record_audit-Filed written_durably a id l e h = record {
  delivery = filed_last a l.audit_file;
  native = filed_native_last a id l.audit_file e;
}

pub record_audit-Grows : (w : Write) (a : DeliveryAudit) (l : Log) → Grows l (record_audit w a l).1
unfolding record_audit
record_audit-Grows not_opened a l = Grows-same l l refl refl refl
record_audit-Grows (uncertain false) a l = Grows-same l _ refl refl refl
record_audit-Grows (uncertain true) a l = record {
  deliveries = λ x h. h;
  natives = λ x h. h;
  filed = λ x h. filed-append a x l.audit_file h;
  filed_natives = λ x h. filed_natives-append a x l.audit_file h;
}
record_audit-Grows written_durably a l = record {
  deliveries = λ x h. elem-add x a.delivery_id l.delivery_ids h;
  natives = λ x h. elem-add_event x a.event_id l.event_ids h;
  filed = λ x h. filed-append a x l.audit_file h;
  filed_natives = λ x h. filed_natives-append a x l.audit_file h;
}

abbrev outcome : Bool × Log → Bool × Log
outcome r = r

-- A reservation that is durable makes both ids known.
pub reserve_replay-Grows :
    (w : Write) (delivery id : String) (l : Log) → Grows l (reserve_replay w delivery id l).1
unfolding reserve_replay
reserve_replay-Grows w delivery id l = elim (Bool-cases (has_pair delivery id l.reserved_replays)) [
  | inl old ↦ rw old (Grows-same l l refl refl refl)
  | inr new ↦ rw new (of_write w)
]
  where
    reserved : Grows l (reserve_pair delivery id l)
    reserved = record {
      deliveries = λ x h. elem-add x delivery l.delivery_ids h;
      natives = λ x h. elem-add x id l.event_ids h;
      filed = λ x h. h;
      filed_natives = λ x h. h;
    }

    of_write : (w : Write) → Grows l (written w delivery id l).1
    of_write not_opened = Grows-same l l refl refl refl
    of_write (uncertain in_file) = record {
      deliveries = reserved.deliveries;
      natives = reserved.natives;
      filed = reserved.filed;
      filed_natives = reserved.filed_natives;
    }
    of_write written_durably = record {
      deliveries = reserved.deliveries;
      natives = reserved.natives;
      filed = reserved.filed;
      filed_natives = reserved.filed_natives;
    }

pub reserve_replay-Knows :
    (w : Write) (delivery id : String) (l : Log)
    → (reserve_replay w delivery id l).0 ≡ true
    → Knows delivery id (reserve_replay w delivery id l).1
unfolding reserve_replay
reserve_replay-Knows w delivery id l h = at_test (has_pair delivery id l.reserved_replays) w h
  where
    at_test :
        (t : Bool) (w : Write)
        → (outcome (if t then (false, l) else written w delivery id l)).0 ≡ true
        → Knows delivery id (outcome (if t then (false, l) else written w delivery id l)).1
    at_test true w h = absurd (false_is_not_true h)
    at_test false not_opened h = absurd (false_is_not_true h)
    at_test false (uncertain in_file) h = absurd (false_is_not_true h)
    at_test false written_durably h = record {
      delivery = elem-add_self delivery l.delivery_ids;
      native = elem-add_self id l.event_ids;
    }

abbrev pub gap_audit : String → String → DeliveryAudit
gap_audit delivery id = record {
  delivery_id = delivery;
  outcome = continuity_gap;
  event_id = some id;
}

pub account_for_gap-Grows :
    (w : Write) (delivery id : String) (l : Log) → Grows l (account_for_gap w delivery id l)
unfolding account_for_gap
account_for_gap-Grows w delivery id l =
    elim (Bool-cases (has_pair delivery id l.reserved_replays)) [
      | inl reserved ↦ elim (Bool-cases (has_pair delivery id l.accounted_replays)) [
        | inl old ↦ rw reserved (rw old (Grows-same l l refl refl refl))
        | inr new ↦
            rw reserved (rw new (settled _ (record_audit-Grows w (gap_audit delivery id) l)))
      ]
      | inr other ↦ rw other (Grows-same l l refl refl refl)
    ]
  where
    settled :
        (r : Bool × Log)
        → Grows l r.1
        → Grows l (
            if r.0
            then record r.1 { accounted_replays = (delivery, id) ∷ r.1.accounted_replays }
            else r.1)
    settled (true, l') g = record {
      deliveries = g.deliveries;
      natives = g.natives;
      filed = g.filed;
      filed_natives = g.filed_natives;
    }
    settled (false, l') g = g

pub mark_persistence_uncertain-Grows :
    (a : Answers) (delivery id : String) (l : Log)
    → Grows l (mark_persistence_uncertain a delivery id l)
unfolding mark_persistence_uncertain
mark_persistence_uncertain-Grows a delivery id l =
    let marked = record l { gaps = with_gap_here a.now l; continuations = [] } in
    elim (Bool-cases a.gaps) [
      | inl done ↦ rw done (
          Grows-trans l marked _ (Grows-same l marked refl refl refl)
            (account_for_gap-Grows a.accounts delivery id marked))
      | inr lost ↦ rw lost (Grows-same l marked refl refl refl)
    ]

pub append_memory-Grows :
    (c : Settings) (delivery : String) (e : Event) (actors : Actors) (l : Log)
    → Grows l (append_memory c delivery e actors l).1
unfolding append_memory
append_memory-Grows c delivery e actors l =
    let s = trim_retention-SameIds c (with_event delivery e actors l) in
    record {
      deliveries = λ x h. rw s.deliveries (elem-add x delivery l.delivery_ids h);
      natives = λ x h. rw s.natives (elem-add x e.id l.event_ids h);
      filed = λ x h. rw s.audits h;
      filed_natives = λ x h. rw s.audits h;
    }
