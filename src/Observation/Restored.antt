-- ===== src/Observation/Restored.antt =====
-- The ids that the log of a new process knows.
use nunchi.Gaps.{with_gap}
use nunchi.Observation.Reopened.{
  IfSome, Restored, Restored-Grows, load_audits-Restored, load_entries-Grows, load_replays-audits,
}
use nunchi.Observation.Known.{
  Grows, Grows-same, Grows-trans, account_for_gap-Grows, record_audit-Grows,
}
use nunchi.Observation.Audit.{Write, with_gap_here, account_for_gap, Answers}
use nunchi.Observation.Types.{new_log, Settings, Log, Actor, DeliveryAudit}
use nunchi.Observation.Reopen.{
  place_gaps, account_each, restore_gaps, reopen, Reopening, with_files, position, finish_opening,
  is_durable, note_evicted, unaccounted, load_rest, load_audits, load_entries, load_replays,
  mark_continuity_gap,
}
use nunchi.Observation.Types.{continuity_gap}
use nunchi.Prelude.{
  none, some, [], ◌∷◌, List, ℕ, String, Option, Bool, Bool-cases, refl, ◌||◌, inl, ltb, inr, length,
  ◌≡◌, subst, ◌==◌, string_has_eq,
}

place_gaps-Grows : (stored : List (ℕ × Option String)) (l : Log) → Grows l (place_gaps stored l)
unfolding place_gaps
place_gaps-Grows [] l = Grows-same l l refl refl refl
place_gaps-Grows ((at, after) ∷ rest) l =
    let l' = record l {
      gaps = with_gap l.gaps (record { at = at; arrival = position after l; after = after });
    } in
    Grows-trans l l' _ (Grows-same l l' refl refl refl) (place_gaps-Grows rest l')

account_each-Grows :
    (ws : List Write) (pairs : List (String × String)) (l : Log) → Grows l (account_each ws pairs l)
unfolding account_each
account_each-Grows [] pairs l = Grows-same l l refl refl refl
account_each-Grows (w ∷ ws) [] l = Grows-same l l refl refl refl
account_each-Grows (w ∷ ws) ((delivery, id) ∷ rest) l =
    let l' = account_for_gap w delivery id l in
    elim (Bool-cases (is_durable w)) [
      | inl done ↦ rw done (
          Grows-trans l l' _ (account_for_gap-Grows w delivery id l)
            (account_each-Grows ws rest l'))
      | inr lost ↦ rw lost (account_for_gap-Grows w delivery id l)
    ]

restore_gaps-Grows :
    (sorted : List (String × String) → List (String × String)) (r : Reopening)
    (stored : List (ℕ × Option String)) (old_flag : Bool) (l : Log)
    → Grows l (restore_gaps sorted r stored old_flag l)
unfolding restore_gaps
restore_gaps-Grows sorted r stored old_flag l =
    let placed = place_gaps stored l in
    let marked = record placed { gaps = with_gap_here r.now placed } in
    let g = place_gaps-Grows stored l in
    let h = Grows-trans l placed marked g (Grows-same placed marked refl refl refl) in
    elim (Bool-cases (old_flag || ltb 0 (length (unaccounted placed)))) [
      | inl news ↦ elim (Bool-cases r.gaps_written) [
        | inl done ↦ rw news (
            rw done (
              Grows-trans l marked _ h
                (account_each-Grows r.accounts (sorted (unaccounted placed)) marked)))
        | inr lost ↦ rw news (rw lost h)
      ]
      | inr still ↦ rw still g
    ]

pub reopen-IfSome :
    (c : Settings) (sorted : List (String × String) → List (String × String)) (self : Actor)
    (r : Reopening) (old : Log)
    → IfSome (Restored old.audit_file) (reopen c sorted self r old)
unfolding reopen new_log
reopen-IfSome c sorted self r old = of_gaps r.stored
  where
    fresh : Log
    fresh = with_files old.replay_file old.audit_file (new_log c self)

    ends :
        (stored : List (ℕ × Option String)) (old_flag : Bool) (o : Option Log)
        → IfSome (Restored old.audit_file) o
        → IfSome (Restored old.audit_file) (finish_opening sorted r stored old_flag o)
    ends stored old_flag none h = tt
    ends stored old_flag (some l) h = elim (Bool-cases r.snapshot_written) [
      | inl done ↦ rw done (
          Restored-Grows old.audit_file l _ h (
            Grows-trans l (note_evicted l) _ (Grows-same l (note_evicted l) refl refl refl)
              (restore_gaps-Grows sorted r stored old_flag (note_evicted l))))
      | inr lost ↦ rw lost tt
    ]

    entered :
        (m : Log)
        → Restored old.audit_file m
        → (o : Option Log) → IfSome (Grows m) o
        → IfSome (Restored old.audit_file) o
    entered m h none g = tt
    entered m h (some l) g = Restored-Grows old.audit_file m l h g

    rest :
        (o : Option Log)
        → IfSome (λ l. l.audit_file ≡ old.audit_file) o
        → IfSome (Restored old.audit_file) (load_rest c r o)
    rest none h = tt
    rest (some l) h =
        entered (load_audits l.audit_file l)
          (subst (λ rows. Restored rows (load_audits l.audit_file l)) h (load_audits-Restored l))
          (load_entries c r.snapshot (load_audits l.audit_file l))
          (load_entries-Grows c r.snapshot (load_audits l.audit_file l))

    of_gaps :
        (o : Option (List (ℕ × Option String) × Bool))
        → IfSome (Restored old.audit_file) (elim o [
          | none ↦ none
          | some (stored, old_flag) ↦
              finish_opening sorted r stored old_flag
                (load_rest c r (load_replays old.replay_file fresh))
        ])
    of_gaps none = tt
    of_gaps (some (stored, old_flag)) =
        ends stored old_flag (load_rest c r (load_replays old.replay_file fresh))
          (rest (load_replays old.replay_file fresh) (load_replays-audits old.replay_file fresh))

-- Opening the log again over the files of an older one, when it opens, gives a log that knows each
-- delivery id and each event id on the lines of the audit file, and keeps these lines.
pub reopen-Restored :
    (c : Settings) (sorted : List (String × String) → List (String × String)) (self : Actor)
    (r : Reopening) (old l : Log)
    → reopen c sorted self r old ≡ some l
    → Restored old.audit_file l
reopen-Restored c sorted self r old l h =
    subst (IfSome (Restored old.audit_file)) h (reopen-IfSome c sorted self r old)

pub mark_continuity_gap-Grows :
    (a : Answers) (delivery detail : String) (l : Log)
    → Grows l (mark_continuity_gap a delivery detail l).1
unfolding mark_continuity_gap
mark_continuity_gap-Grows a delivery detail l =
    let audit : DeliveryAudit = record {
      delivery_id = delivery;
      outcome = continuity_gap;
      event_id = none;
    } in
    let marked = record l { gaps = with_gap_here a.now l; continuations = [] } in
    elim (Bool-cases (delivery == "" || detail == "")) [
      | inl unnamed ↦ rw unnamed (Grows-same l l refl refl refl)
      | inr named ↦ elim (Bool-cases a.gaps) [
        | inl done ↦ rw named (
            rw done (
              Grows-trans l marked _ (Grows-same l marked refl refl refl)
                (record_audit-Grows a.audits audit marked)))
        | inr lost ↦ rw named (rw lost (Grows-same l l refl refl refl))
      ]
    ]
