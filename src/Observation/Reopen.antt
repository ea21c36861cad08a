-- ===== src/Observation/Reopen.antt =====
-- The log after a restart: `_load_replay_index`, `_load_audit_index`, `_load`, `_restore_gaps` and the
-- end of `__init__` of src/nunchi/observation.py; and its calls `mark_continuity_gap` and `restart`.
-- `none` is a PersistenceError: the log does not open. The two line files keep what `Log` says.
use nunchi.Gaps.{with_gap}
use nunchi.Observation.Retention.{lookup, append_memory}
use nunchi.Observation.Observe.{canonical, Payload, Observed, checked_actors, raised, audited}
use nunchi.Prelude.{
  none, some, true, false, [], ◌∷◌, List, Option, String, add, Bool, if◌then◌else◌, ℕ, ◌||◌, keep,
  not, ltb, string_has_eq, length, ◌==◌,
}
use nunchi.Observation.Types.{
  continuity_gap, DeliveryAudit, AuditOutcome, Settings, Log, new_log, Actor,
}
use nunchi.Observation.Audit.{
  written_durably, Write, Answers, has_pair, add_event, is_accepted, account_for_gap, reserve_pair,
  add_pair, with_gap_here, record_audit,
}

-- What a new process finds beside the two line files: the lines of the snapshot, the stored gaps with
-- the flag of the old file, if that file is valid; and how the disk answers its writes.
pub record Reopening : Type 0 where
  pub snapshot : List (String × Payload)
  pub stored : Option (List (ℕ × Option String) × Bool)
  pub snapshot_written : Bool
  pub gaps_written : Bool
  pub accounts : List Write
  pub now : ℕ

-- `_load_replay_index`
unfoldable pub load_replays : List (String × String) → Log → Option Log
load_replays [] l = some l
load_replays ((delivery, id) ∷ rest) l =
    if has_pair delivery id l.reserved_replays
    then none
    else load_replays rest (reserve_pair delivery id l)

abbrev pub with_ids : DeliveryAudit → Log → Log
with_ids a l = record l {
  delivery_ids = add a.delivery_id l.delivery_ids;
  event_ids = add_event a.event_id l.event_ids;
}

abbrev pub is_gap : AuditOutcome → Bool
is_gap continuity_gap = true
is_gap _ = false

-- What a line of the audit file says of its event.
abbrev pub with_outcome : DeliveryAudit → Log → Log
with_outcome a l = elim a.event_id [
  | none ↦ l
  | some id ↦
      if is_accepted a.outcome
      then record l {
        accepted_event_ids = add id l.accepted_event_ids;
        committed_replays = add_pair a.delivery_id id l.committed_replays;
      }
      else if is_gap a.outcome
      then record l { accounted_replays = add_pair a.delivery_id id l.accounted_replays }
      else l
]

-- `_load_audit_index`
unfoldable pub load_audits : List DeliveryAudit → Log → Log
load_audits [] l = l
load_audits (a ∷ rest) l = load_audits rest (with_outcome a (with_ids a l))

-- `_load`, but for its last call
unfoldable pub load_entries : Settings → List (String × Payload) → Log → Option Log
load_entries c [] l = some l
load_entries c ((delivery, canonical e given) ∷ rest) l = elim (checked_actors given) [
  | none ↦ none
  | some actors ↦
      let (done, l') = append_memory c delivery e actors l in
      if done then load_entries c rest l' else none
]
load_entries c (_ ∷ rest) l = none

-- Where an event stands among the arrivals of this process.
abbrev pub position : Option String → Log → ℕ
position none l = 0
position (some id) l = elim (lookup id l.arrival_by_id) [ none ↦ 0 | some n ↦ n ]

unfoldable pub place_gaps : List (ℕ × Option String) → Log → Log
unfolding lookup
place_gaps [] l = l
place_gaps ((at, after) ∷ rest) l = place_gaps rest (record l {
  gaps = with_gap l.gaps (record { at = at; arrival = position after l; after = after });
})

abbrev pub unaccounted : Log → List (String × String)
unaccounted l =
    keep (λ p. not (has_pair p.0 p.1 l.committed_replays || has_pair p.0 p.1 l.accounted_replays))
      l.reserved_replays

abbrev pub is_durable : Write → Bool
is_durable written_durably = true
is_durable _ = false

-- The loop of `_restore_gaps` over what is lost, with an answer of the disk for each.
unfoldable pub account_each : List Write → List (String × String) → Log → Log
account_each (w ∷ ws) ((delivery, id) ∷ rest) l =
    let l' = account_for_gap w delivery id l in if is_durable w then account_each ws rest l' else l'
account_each _ _ l = l

-- `_restore_gaps`; `sorted` is Python's, on pairs of texts.
unfoldable pub restore_gaps :
    (List (String × String) → List (String × String))
    → Reopening
    → List (ℕ × Option String)
    → Bool
    → Log
    → Log
unfolding place_gaps account_each
restore_gaps sorted r stored old_flag l =
    let placed = place_gaps stored l in
    if not (old_flag || ltb 0 (length (unaccounted placed)))
    then placed
    else let marked = record placed { gaps = with_gap_here r.now placed } in
      if r.gaps_written
      then account_each r.accounts (sorted (unaccounted placed)) marked
      else marked

abbrev pub note_evicted : Log → Log
note_evicted l = record l {
  evicted_before = l.evicted_before || ltb (length l.events) (length l.accepted_event_ids);
}

-- A new process's log, before it reads anything.
abbrev pub with_files : List (String × String) → List DeliveryAudit → Log → Log
with_files replays audits l = record l { replay_file = replays; audit_file = audits }

-- After the replay file.
abbrev pub load_rest : Settings → Reopening → Option Log → Option Log
load_rest c r none = none
load_rest c r (some l) = load_entries c r.snapshot (load_audits l.audit_file l)

abbrev pub finish_opening :
    (List (String × String) → List (String × String))
    → Reopening
    → List (ℕ × Option String)
    → Bool
    → Option Log
    → Option Log
finish_opening sorted r stored old_flag none = none
finish_opening sorted r stored old_flag (some l) =
    if r.snapshot_written
    then some (restore_gaps sorted r stored old_flag (note_evicted l))
    else none

-- `__init__` over the files that an older process left.
unfoldable pub reopen :
    Settings
    → (List (String × String) → List (String × String))
    → Actor
    → Reopening
    → Log
    → Option Log
unfolding load_replays load_audits load_entries restore_gaps new_log
reopen c sorted self r old = elim r.stored [
  | none ↦ none
  | some (stored, old_flag) ↦ finish_opening sorted r stored old_flag (
      load_rest c r
        (load_replays old.replay_file (with_files old.replay_file old.audit_file (new_log c self))))
]

-- `mark_continuity_gap`
unfoldable pub mark_continuity_gap : Answers → String → String → Log → Observed × Log
mark_continuity_gap a delivery detail l =
    let audit : DeliveryAudit = record {
      delivery_id = delivery;
      outcome = continuity_gap;
      event_id = none;
    } in
    let marked = record l { gaps = with_gap_here a.now l; continuations = [] } in
    let (done, l') = record_audit a.audits audit marked in
    if delivery == "" || detail == ""
    then (raised, l)
    else if not a.gaps
    then (raised, l)
    else (if done then audited audit false else raised, l')

-- `restart`
abbrev pub restart : Log → Log
restart l = record l { continuations = [] }
