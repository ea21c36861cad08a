-- ===== src/Observation/GapList.antt =====
-- The gaps that the log keeps, through each part of `observe`.
use nunchi.Observation.Trimmed.{append_memory-gaps}
use nunchi.Observation.Same.{
  record_audit-SameRoom, reserve_replay-SameRoom, account_for_gap-SameRoom,
}
use nunchi.Gaps.Order.{with_gap_lem, Ascends}
use nunchi.Gaps.{Gap, max_gaps}
use nunchi.Observation.Runs.{ObserveCall, log_after}
use nunchi.Observation.Keeps.{Kept, log_after-Kept}
use nunchi.Prelude.{List, length, ◌≤◌, arith, String, [], Bool-cases, inl, inr}
use nunchi.Observation.Types.{Settings, Log, new_log, Actor}
use nunchi.Observation.Audit.{mark_persistence_uncertain, Answers, with_gap_here, here}

-- In order of their positions, one for each, and few.
pub record GapsFit (gaps : List Gap) : Type 0 where
  pub ordered : Ascends 0 gaps
  pub bounded : length gaps ≤ max_gaps

mark_persistence_uncertain-GapsFit :
    (a : Answers) (delivery id : String) (l : Log)
    → GapsFit l.gaps
    → GapsFit (mark_persistence_uncertain a delivery id l).gaps
unfolding mark_persistence_uncertain with_gap_here
mark_persistence_uncertain-GapsFit a delivery id l f =
    let marked = record l { gaps = with_gap_here a.now l; continuations = [] } in
    let (ordered, bounded) = with_gap_lem l.gaps (here a.now l) f.ordered in
    let fit : GapsFit marked.gaps = record { ordered = ordered; bounded = bounded } in
    elim (Bool-cases a.gaps) [
      | inl done ↦ rw done (rw (account_for_gap-SameRoom a.accounts delivery id marked).gaps fit)
      | inr lost ↦ rw lost fit
    ]

GapsFit-Kept : (c : Settings) → Kept c (λ l. GapsFit l.gaps)
GapsFit-Kept c = record {
  audits = λ w d l f. rw (record_audit-SameRoom w d l).gaps f;
  reserve = λ w delivery id l f. rw (reserve_replay-SameRoom w delivery id l).gaps f;
  mark = λ a delivery id l f. mark_persistence_uncertain-GapsFit a delivery id l f;
  appends = λ delivery e actors l known f. rw (append_memory-gaps c delivery e actors l) f;
  back = λ old l f g. g;
}

-- After any sequence of deliveries to an empty log, the log's gaps stand in the order of their
-- positions in the room, one for each position, and there are at most 16 of them.
pub log_after-GapsFit :
    (c : Settings) (self : Actor) (ds : List ObserveCall)
    → GapsFit (log_after c (new_log c self) ds).gaps
unfolding new_log
log_after-GapsFit c self ds =
    log_after-Kept c (λ l. GapsFit l.gaps) (GapsFit-Kept c) ds (new_log c self)
      (record { ordered = tt; bounded = omega arith })
