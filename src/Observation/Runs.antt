-- ===== src/Observation/Runs.antt =====
-- Sequences of deliveries to one log.
use nunchi.Observation.Reopen.{Reopening, mark_continuity_gap, restart, reopen}
use nunchi.Observation.Audit.{Answers}
use nunchi.Observation.Observe.{Observed, observe, Payload}
use nunchi.Prelude.{
  String, Bool, List, [], ◌∷◌, ◌++◌, string_has_eq, Option, false, some, true, none,
}
use nunchi.Observation.Types.{Log, Settings, Actor}
use nunchi.Observation.Step.{woken_of}

-- One call of `observe`.
pub record ObserveCall : Type 0 where
  pub answers : Answers
  pub delivery_id : String
  pub authorized_route : Bool
  pub payload : Payload

abbrev pub observe_delivery : Settings → ObserveCall → Log → Observed × Log
observe_delivery c d l = observe c d.answers d.delivery_id d.authorized_route d.payload l

unfoldable pub log_after : Settings → Log → List ObserveCall → Log
log_after c l [] = l
log_after c l (d ∷ ds) = log_after c (observe_delivery c d l).1 ds

-- What happens to the log of a room: a delivery, a gap that the transport declares, the end of a
-- model's session, or a new process over the files of the last one.
pub data Happening : Type 0 where
  delivered : ObserveCall → Happening
  gap_marked : Answers → String → String → Happening
  restarted : Happening
  reopened : Reopening → Happening

-- Whether a log is open, and the log; of one that did not open only the files count.
abbrev pub Room : Type 0
Room = Bool × Log

module _ (c : Settings) (sorted : List (String × String) → List (String × String))
    (self : Actor) where
  abbrev pub opened : Option Log → Log → List (String × String) × Room
  opened none l = ([], (false, l))
  opened (some l') l = ([], (true, l'))

  -- The pairs of delivery and event that may wake the participant, and the room after.
  unfoldable pub happen : Happening → Room → List (String × String) × Room
  happen (delivered d) (true, l) = let (o, l') = observe_delivery c d l in (woken_of o, (true, l'))
  happen (gap_marked a delivery detail) (true, l) =
      ([], (true, (mark_continuity_gap a delivery detail l).1))
  happen restarted (true, l) = ([], (true, restart l))
  happen (reopened r) (live, l) = opened (reopen c sorted self r l) l
  happen _ (false, l) = ([], (false, l))

  unfoldable pub woken_in : Room → List Happening → List (String × String)
  unfolding happen
  woken_in room [] = []
  woken_in room (h ∷ hs) = let (ws, room') = happen h room in ws ++ woken_in room' hs
