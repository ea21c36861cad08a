-- ===== src/Observation/Same.antt =====
-- The parts of `observe` that leave the events, the gaps and the arrivals as they are.
use nunchi.Observation.Known.{gap_audit}
use nunchi.Prelude.{◌≡◌, ◌∷◌, String, Bool-cases, Bool, true, inl, if◌then◌else◌, refl, inr, false}
use nunchi.Observation.Types.{Log, DeliveryAudit}
use nunchi.Observation.Audit.{
  written_durably, uncertain, not_opened, record_audit, reserve_replay, account_for_gap, has_pair,
  Write, written,
}

-- The same events, gaps and arrivals.
pub record SameRoom (l l' : Log) : Type 0 where
  pub events : l'.events ≡ l.events
  pub gaps : l'.gaps ≡ l.gaps
  pub arrivals : l'.arrival_seq ≡ l.arrival_seq

SameRoom-refl : (l : Log) → SameRoom l l
SameRoom-refl l = record { events = refl; gaps = refl; arrivals = refl }

pub record_audit-SameRoom :
    (w : Write) (d : DeliveryAudit) (l : Log) → SameRoom l (record_audit w d l).1
unfolding record_audit
record_audit-SameRoom written_durably d l = record { events = refl; gaps = refl; arrivals = refl }
record_audit-SameRoom not_opened d l = SameRoom-refl l
record_audit-SameRoom (uncertain in_file) d l = record {
  events = refl;
  gaps = refl;
  arrivals = refl;
}

pub reserve_replay-SameRoom :
    (w : Write) (delivery id : String) (l : Log) → SameRoom l (reserve_replay w delivery id l).1
unfolding reserve_replay
reserve_replay-SameRoom w delivery id l =
    elim (Bool-cases (has_pair delivery id l.reserved_replays)) [
      | inl old ↦ rw old (SameRoom-refl l)
      | inr new ↦ rw new (of_write w)
    ]
  where
    of_write : (w : Write) → SameRoom l (written w delivery id l).1
    of_write not_opened = SameRoom-refl l
    of_write (uncertain in_file) = record { events = refl; gaps = refl; arrivals = refl }
    of_write written_durably = record { events = refl; gaps = refl; arrivals = refl }

pub account_for_gap-SameRoom :
    (w : Write) (delivery id : String) (l : Log) → SameRoom l (account_for_gap w delivery id l)
unfolding account_for_gap
account_for_gap-SameRoom w delivery id l =
    elim (Bool-cases (has_pair delivery id l.reserved_replays)) [
      | inl reserved ↦ elim (Bool-cases (has_pair delivery id l.accounted_replays)) [
        | inl old ↦ rw reserved (rw old (SameRoom-refl l))
        | inr new ↦
            rw reserved (rw new (settled _ (record_audit-SameRoom w (gap_audit delivery id) l)))
      ]
      | inr other ↦ rw other (SameRoom-refl l)
    ]
  where
    settled :
        (r : Bool × Log)
        → SameRoom l r.1
        → SameRoom l (
            if r.0
            then record r.1 { accounted_replays = (delivery, id) ∷ r.1.accounted_replays }
            else r.1)
    settled (true, l') s = record { events = s.events; gaps = s.gaps; arrivals = s.arrivals }
    settled (false, l') s = s
