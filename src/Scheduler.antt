-- ===== src/Scheduler.antt =====
-- The opportunity scheduler: src/nunchi/participant.py, `ConversationOpportunityScheduler`.
-- A `threading.Event` is a cell of an explicit heap: tokens and the scheduler share it by its number.
-- Each method holds the scheduler's lock, so it is one step. `uuid4` is the caller's argument.
mod Invariant
mod Commit
mod Examples
use nunchi.Prelude.{
  ℕ, suc, ◌+◌, String, Bool, true, false, not, ◌&&◌, ◌||◌, Option, none, some, leb, ◌==◌,
  nat_has_eq, string_has_eq, if◌then◌else◌,
}

pub record OpportunityToken : Type 0 where
  pub room_key : String
  pub generation : ℕ
  pub anchor_event_id : String
  pub cancel_event : ℕ

pub record Scheduler : Type 0 where
  pub room_key : String
  pub active : Bool
  pub pending_anchor : Option String
  pub generation : ℕ
  pub lifecycle_id : String
  pub cancel_event : Option ℕ
  pub dispatch_committed : Bool
  pub expired_generation : Option ℕ
  -- the heap of events: which are set, and the next one to be made
  pub event_set : ℕ → Bool
  pub next_event : ℕ

-- `none` is the ValueError of an empty room key.
unfoldable pub init : String → String → Option Scheduler
init room_key lifecycle_id =
    if room_key == ""
    then none
    else some (record {
      room_key = room_key;
      active = false;
      pending_anchor = none;
      generation = 0;
      lifecycle_id = lifecycle_id;
      cancel_event = none;
      dispatch_committed = false;
      expired_generation = none;
      event_set = λ _. false;
      next_event = 0;
    })

abbrev pub is : Option ℕ → ℕ → Bool
is none n = false
is (some m) n = m == n

abbrev set_event : ℕ → (ℕ → Bool) → ℕ → Bool
set_event e f n = e == n || f n

-- A new generation with a new, unset event, and its token: the common end of `offer` and `complete`.
issue : String → Scheduler → OpportunityToken × Scheduler
issue anchor s = (
  record {
    room_key = s.room_key;
    generation = s.generation + 1;
    anchor_event_id = anchor;
    cancel_event = s.next_event;
  },
  record s {
    active = true;
    generation = s.generation + 1;
    cancel_event = some s.next_event;
    dispatch_committed = false;
    event_set = λ n. not (s.next_event == n) && s.event_set n;
    next_event = suc s.next_event;
  },
)

pub data Offered : Type 0 where
  -- the ValidationError of an empty anchor
  invalid_anchor : Offered
  busy : Offered
  work : OpportunityToken → Offered

unfoldable pub offer : String → Bool → Scheduler → Offered × Scheduler
unfolding issue
offer anchor only_if_idle s =
    if anchor == ""
    then (invalid_anchor, s)
    else if s.active
    then (busy, if only_if_idle then s else record s { pending_anchor = some anchor })
    else let (t, s') = issue anchor s in (work t, s')

-- The part of `_matches` that says the token is the scheduler's own.
holds : Scheduler → OpportunityToken → Bool
holds s t =
    s.active
    && t.room_key == s.room_key
    && t.generation == s.generation
    && is s.cancel_event t.cancel_event

-- `_matches`, and `is_current`, which is `_matches` under the lock
unfoldable pub is_current : Scheduler → OpportunityToken → Bool
unfolding holds
is_current s t = holds s t && not (s.event_set t.cancel_event)

finish : Option String → Scheduler → Option OpportunityToken × Scheduler
unfolding issue
finish none s = (none, record s { active = false; cancel_event = none; dispatch_committed = false })
finish (some pending) s = let (t, s') = issue pending s in (some t, s')

unfoldable pub complete : OpportunityToken → Scheduler → Option OpportunityToken × Scheduler
unfolding is_current finish
complete t s =
    if (holds s t && is s.expired_generation t.generation) || is_current s t
    then finish s.pending_anchor (record s { expired_generation = none; pending_anchor = none })
    else (none, s)

abbrev set_current : Option ℕ → (ℕ → Bool) → ℕ → Bool
set_current none f = f
set_current (some e) f = set_event e f

-- `cancel`, and `restart`, which is the same method
unfoldable pub cancel : String → Scheduler → Scheduler
cancel lifecycle_id s = record s {
  event_set = set_current s.cancel_event s.event_set;
  pending_anchor = none;
  active = false;
  dispatch_committed = false;
  generation = s.generation + 1;
  lifecycle_id = lifecycle_id;
}

unfoldable pub expire : OpportunityToken → Scheduler → Scheduler
expire t s =
    if s.active && t.generation == s.generation && is s.cancel_event t.cancel_event
    then record s {
      expired_generation = some t.generation;
      event_set = set_event t.cancel_event s.event_set;
    }
    else s

-- `token.cancel_event.set()` by whoever holds the token (`_run` of the participant's host)
unfoldable pub set_cancel : OpportunityToken → Scheduler → Scheduler
set_cancel t s = record s { event_set = set_event t.cancel_event s.event_set }

-- `dispatcher()` runs under the lock, which is reentrant: it may act on the scheduler itself.
-- `none` is the result `(False, None)`.
unfoldable pub commit_dispatch {ℓ} :
    {A : Type ℓ} → OpportunityToken → (Scheduler → A × Scheduler) → Scheduler → Option A × Scheduler
unfolding is_current
commit_dispatch t dispatcher s =
    if not (is_current s t) || s.dispatch_committed
    then (none, s)
    else let (a, s') = dispatcher (record s { dispatch_committed = true }) in (some a, s')

-- A deadline that is no finite number is `none`; `now` is the reading of `time.monotonic`.
unfoldable pub authorize_effect_commit :
    OpportunityToken → Option ℕ → ℕ → Scheduler → Bool × Scheduler
unfolding is_current
authorize_effect_commit t none now s = (false, s)
authorize_effect_commit t (some deadline) now s =
    if not (is_current s t) || s.dispatch_committed || leb deadline now
    then (false, s)
    else (true, record s { dispatch_committed = true })
