-- ===== src/Scheduler/Examples.antt =====
-- The scheduler of one room at work: two opportunities, a restart, and a message that waits.
use nunchi.Prelude.{
  count, ◌≡◌, ◌≢◌, false, some, true, ◌==◌, false_is_not_true, none, refl, not, ◌∷◌, ◌≤◌, ◌&&◌, [],
  nat_has_eq, ==_iff, String, string_has_eq,
}
use nunchi.Scheduler.{
  Scheduler, init, OpportunityToken, is_current, complete, offer, authorize_effect_commit, expire,
  work, cancel, commit_dispatch,
}
use mathlib.Core.List.{Memᴰ, []}
use nunchi.Scheduler.Commit.{
  commit_once, cancel-IsDead, one_current, complete-expire_pending, offer-is_current, IsDead,
}
use nunchi.Scheduler.Invariant.{
  done, then_op, then_dispatch, History, start, run, offer_op, step, cancel_op, commit_op, Script,
}

abbrev idle_room : Scheduler
idle_room = record {
  room_key = "room";
  active = false;
  pending_anchor = none;
  generation = 0;
  lifecycle_id = "life";
  cancel_event = none;
  dispatch_committed = false;
  expired_generation = none;
  event_set = λ _. false;
  next_event = 0;
}

idle_room-init : init "room" "life" ≡ some idle_room
unfolding init
idle_room-init = refl

abbrev first_token : OpportunityToken
first_token = record { room_key = "room"; generation = 1; anchor_event_id = "m1"; cancel_event = 0 }

abbrev busy_room : Scheduler
busy_room = record idle_room {
  active = true;
  generation = 1;
  cancel_event = some 0;
  next_event = 1;
  event_set = λ n. not (0 == n) && false;
}

-- An offer, a dispatch whose dispatcher dispatches and commits again, and a late commit.
abbrev committing : Script
committing = then_op (offer_op "m1" false) (
    then_dispatch first_token
      (then_dispatch first_token done (then_op (commit_op first_token (some 10) 3) done))
      (then_op (commit_op first_token (some 10) 4)
        (then_op (cancel_op "next") (then_op (commit_op first_token (some 10) 5) done))))

abbrev offering : Script
offering = then_op (offer_op "m1" false) done

abbrev offered : History
offered = run (start idle_room) offering

-- What comes after the cancel: another offer, and a dispatch by the old token.
abbrev later : Script
later = then_op (offer_op "m2" false) (then_dispatch first_token done done)

first_issued : Memᴰ first_token offered.issued
unfolding run step offer
first_issued = Memᴰ.head refl

first_current : is_current offered.scheduler first_token ≡ true
unfolding run step offer is_current
first_current = refl

commit_once_example : count (λ c. c == 1) (run (start idle_room) committing).commits ≤ 1
commit_once_example = commit_once "room" "life" idle_room idle_room-init committing 1

-- The one commit is accepted.
committed_test : (run (start idle_room) committing).commits ≡ 1 ∷ []
unfolding run step offer is_current authorize_effect_commit cancel commit_dispatch
committed_test = refl

cancel-IsDead_example : IsDead first_token (run (step offered (cancel_op "next")) later).scheduler
cancel-IsDead_example =
    cancel-IsDead "room" "life" idle_room idle_room-init offering first_token "next" later
      first_issued

one_current_example : first_token ≡ first_token
one_current_example =
    one_current "room" "life" idle_room idle_room-init offering first_token first_token first_issued
      first_issued first_current first_current

differs : ◌≢◌ {A = String} "m2" ""
differs e = false_is_not_true ((==_iff "m2" "").1 e)

busy_current : is_current busy_room first_token ≡ true
unfolding is_current
busy_current = refl

complete-expire_pending_example :
    (u : OpportunityToken) × ((complete first_token
        (expire first_token (offer "m2" false busy_room).1)).0
      ≡ some u)
    × (u.anchor_event_id ≡ "m2")
    × (is_current (complete first_token (expire first_token (offer "m2" false busy_room).1)).1 u
        ≡ true)
complete-expire_pending_example =
    complete-expire_pending busy_room first_token "m2" differs busy_current

offer-is_current_example :
    (t : OpportunityToken) × ((offer "m2" false idle_room).0 ≡ work t)
    × (t.anchor_event_id ≡ "m2")
    × (is_current (offer "m2" false idle_room).1 t ≡ true)
    × (is_current idle_room first_token ≡ false)
offer-is_current_example = offer-is_current "m2" false idle_room first_token differs refl
