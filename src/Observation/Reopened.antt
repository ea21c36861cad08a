-- ===== src/Observation/Reopened.antt =====
-- What the ids in the audit file become when the log opens again.
use nunchi.Observation.Retention.{append_memory}
use nunchi.Observation.Audit.{has_pair, add_pair, is_accepted, reserve_pair}
use nunchi.Observation.Known.{
  Grows, Grows-same, filed_deliveries, Grows-trans, filed_events, elem-add_event, add_event_mono,
  append_memory-Grows,
}
use nunchi.Observation.Reopen.{
  load_audits, load_replays, load_entries, with_ids, with_outcome, is_gap,
}
use nunchi.Observation.Types.{Log, DeliveryAudit, Settings, Actors}
use nunchi.Observation.Observe.{no_event, invalid_event, canonical, Payload, checked_actors}
use nunchi.Prelude.{
  none, some, true, false, [], ◌∷◌, List, Option, String, elem, ◌≡◌, elem-add, Bool, Bool-cases,
  string_has_eq, if◌then◌else◌, refl, false_is_not_true, add, ◌==◌, inl, ==_iff, inr, elem-add_self,
  or_later, sym, ◌∙◌,
}

abbrev pub IfSome : (Log → Type 0) → Option Log → Type 0
IfSome P none = Unit
IfSome P (some l) = P l

-- The ids on the lines of the audit file are known, and the lines stay.
pub record Restored (rows : List DeliveryAudit) (l : Log) : Type 0 where
  pub deliveries :
      (x : String) → elem x (filed_deliveries rows) ≡ true → elem x l.delivery_ids ≡ true
  pub natives : (x : String) → elem x (filed_events rows) ≡ true → elem x l.event_ids ≡ true
  pub filed :
      (x : String)
      → elem x (filed_deliveries rows) ≡ true
      → elem x (filed_deliveries l.audit_file) ≡ true
  pub filed_natives :
      (x : String) → elem x (filed_events rows) ≡ true → elem x (filed_events l.audit_file) ≡ true

pub Restored-Grows :
    (rows : List DeliveryAudit) (l l' : Log) → Restored rows l → Grows l l' → Restored rows l'
Restored-Grows rows l l' r g = record {
  deliveries = λ x h. g.deliveries x (r.deliveries x h);
  natives = λ x h. g.natives x (r.natives x h);
  filed = λ x h. g.filed x (r.filed x h);
  filed_natives = λ x h. g.filed_natives x (r.filed_natives x h);
}

with_ids-Grows : (a : DeliveryAudit) (l : Log) → Grows l (with_ids a l)
with_ids-Grows a l = record {
  deliveries = λ x h. elem-add x a.delivery_id l.delivery_ids h;
  natives = λ x h. elem-add_event x a.event_id l.event_ids h;
  filed = λ x h. h;
  filed_natives = λ x h. h;
}

with_outcome-Grows : (a : DeliveryAudit) (l : Log) → Grows l (with_outcome a l)
with_outcome-Grows a l = of_event a.event_id (is_accepted a.outcome) (is_gap a.outcome)
  where
    of_event :
        (o : Option String) (commit gap : Bool)
        → Grows l (elim o [
          | none ↦ l
          | some id ↦
              if commit
              then record l {
                accepted_event_ids = add id l.accepted_event_ids;
                committed_replays = add_pair a.delivery_id id l.committed_replays;
              }
              else if gap
              then record l { accounted_replays = add_pair a.delivery_id id l.accounted_replays }
              else l
        ])
    of_event none commit gap = Grows-same l l refl refl refl
    of_event (some id) true gap = Grows-same l _ refl refl refl
    of_event (some id) false true = Grows-same l _ refl refl refl
    of_event (some id) false false = Grows-same l l refl refl refl

line-Grows : (a : DeliveryAudit) (l : Log) → Grows l (with_outcome a (with_ids a l))
line-Grows a l =
    Grows-trans l (with_ids a l) _ (with_ids-Grows a l) (with_outcome-Grows a (with_ids a l))

load_audits-Grows : (rows : List DeliveryAudit) (l : Log) → Grows l (load_audits rows l)
unfolding load_audits
load_audits-Grows [] l = Grows-same l l refl refl refl
load_audits-Grows (a ∷ rest) l =
    Grows-trans l (with_outcome a (with_ids a l)) _ (line-Grows a l)
      (load_audits-Grows rest (with_outcome a (with_ids a l)))

load_audits-deliveries :
    (rows : List DeliveryAudit) (l : Log) (x : String)
    → elem x (filed_deliveries rows) ≡ true
    → elem x (load_audits rows l).delivery_ids ≡ true
unfolding load_audits
load_audits-deliveries [] l x h = absurd (false_is_not_true h)
load_audits-deliveries (a ∷ rest) l x h = elim (Bool-cases (x == a.delivery_id)) [
  | inl same ↦
      let l' = with_outcome a (with_ids a l) in
      Grows.deliveries (load_audits-Grows rest l') x (
        Grows.deliveries (with_outcome-Grows a (with_ids a l)) x
          (rw ((==_iff x a.delivery_id).0 same) (elem-add_self a.delivery_id l.delivery_ids)))
  | inr other ↦
      load_audits-deliveries rest (with_outcome a (with_ids a l)) x
        (or_later (x == a.delivery_id) _ other h)
]

load_audits-natives :
    (rows : List DeliveryAudit) (l : Log) (x : String)
    → elem x (filed_events rows) ≡ true
    → elem x (load_audits rows l).event_ids ≡ true
unfolding load_audits
load_audits-natives [] l x h = absurd (false_is_not_true h)
load_audits-natives (a ∷ rest) l x h =
    let l' = with_outcome a (with_ids a l) in
    elim (Bool-cases (elem x (filed_events rest))) [
      | inl later ↦ load_audits-natives rest l' x later
      | inr first ↦ Grows.natives (load_audits-Grows rest l') x (
          Grows.natives (with_outcome-Grows a (with_ids a l)) x (
            add_event_mono x a.event_id (filed_events rest) l.event_ids
              (λ k. absurd (false_is_not_true (sym first ∙ k))) h))
    ]

pub load_audits-Restored : (l : Log) → Restored l.audit_file (load_audits l.audit_file l)
load_audits-Restored l =
    let g = load_audits-Grows l.audit_file l in
    record {
      deliveries = load_audits-deliveries l.audit_file l;
      natives = load_audits-natives l.audit_file l;
      filed = g.filed;
      filed_natives = g.filed_natives;
    }

pub load_replays-audits :
    (pairs : List (String × String)) (l : Log)
    → IfSome (λ l'. l'.audit_file ≡ l.audit_file) (load_replays pairs l)
unfolding load_replays
load_replays-audits [] l = refl
load_replays-audits ((delivery, id) ∷ rest) l =
    elim (Bool-cases (has_pair delivery id l.reserved_replays)) [
      | inl old ↦ rw old tt
      | inr new ↦ rw new (load_replays-audits rest (reserve_pair delivery id l))
    ]

pub load_entries-Grows :
    (c : Settings) (entries : List (String × Payload)) (l : Log)
    → IfSome (Grows l) (load_entries c entries l)
unfolding load_entries
load_entries-Grows c [] l = Grows-same l l refl refl refl
load_entries-Grows c ((delivery, no_event) ∷ rest) l = tt
load_entries-Grows c ((delivery, invalid_event) ∷ rest) l = tt
load_entries-Grows c ((delivery, canonical e given) ∷ rest) l =
    of_actors (checked_actors given) (load_entries-Grows c rest)
  where
    appended :
        (r : Bool × Log)
        → Grows l r.1
        → IfSome (Grows r.1) (load_entries c rest r.1)
        → IfSome (Grows l) (if r.0 then load_entries c rest r.1 else none)
    appended (false, l') g later = tt
    appended (true, l') g later = through (load_entries c rest l') later
      where
        through : (o : Option Log) → IfSome (Grows l') o → IfSome (Grows l) o
        through none h = tt
        through (some k) h = Grows-trans l l' k g h

    of_actors :
        (o : Option Actors)
        → ((m : Log) → IfSome (Grows m) (load_entries c rest m))
        → IfSome (Grows l) (elim o [
          | none ↦ none
          | some actors ↦
              let (done, l') = append_memory c delivery e actors l in
              if done then load_entries c rest l' else none
        ])
    of_actors none later = tt
    of_actors (some actors) later =
        appended (append_memory c delivery e actors l) (append_memory-Grows c delivery e actors l)
          (later (append_memory c delivery e actors l).1)
