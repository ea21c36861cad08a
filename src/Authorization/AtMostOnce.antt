-- ===== src/Authorization/AtMostOnce.antt =====
-- Histories of the coordinator's methods.
use nunchi.Authorization.Proposals.Once.{
  withdraw-Inv, proposals-Inv, pending_for_operator-Inv, cancel-Inv,
}
use nunchi.Authorization.Approval.Once.{complete_authenticated_approval-Inv}
use nunchi.Authorization.Coordinator.Once.{execute_proposal-Inv}
use nunchi.Authorization.Approval.{complete_authenticated_approval}
use nunchi.Authorization.Dispatch.Once.{Inv, commits, calls, retries}
use nunchi.Authorization.Coordinator.{execute_proposal, Deadline}
use nunchi.Authorization.Proposals.{WakeFacts, withdraw, proposals, pending_for_operator, cancel}
use nunchi.Authorization.Binding.{ProposalDoc}
use nunchi.Prelude.{String, List, [], ℕ, ◌∷◌, none, arith, ◌≤◌, ◌+◌}
use nunchi.Authorization.Types.{World, Core}
use nunchi.Authorization.Exec.{State}

-- The methods of a coordinator.
pub data Method : Type 0 where
  propose : ProposalDoc → WakeFacts → ℕ → Deadline → Method
  complete_approval : String → String → Method
  withdraw_proposal : String → WakeFacts → Method
  list_proposals : Method
  list_pending : Method
  cancel_all : Method

-- One call from outside, and the state that it leaves, whether it returns or raises.
unfoldable pub call : World → Method → State → State
call w (propose p wake event d) s = (execute_proposal w p wake event d s).1
call w (complete_approval id approver) s = (complete_authenticated_approval w id approver s).1
call w (withdraw_proposal id wake) s = (withdraw w id wake s).1
call w list_proposals s = (proposals w s).1
call w list_pending s = (pending_for_operator w s).1
call w cancel_all s = (cancel s).1

unfoldable pub calls_from : World → State → List Method → State
unfolding call
calls_from w s [] = s
calls_from w s (m ∷ ms) = calls_from w (call w m s) ms

abbrev pub fresh_core : Core
fresh_core = record {
  journal = record {
    records = [];
    consumed_effects = [];
    unknown_effects = [];
    idempotency_keys = [];
  };
  pending = [];
  proposals = [];
  noting = none;
  calls = [];
}

abbrev pub fresh_state : State
fresh_state = record { tick = 0; core = fresh_core }

call-Inv :
    (f : String) (w : World) (m : Method) (s : State) → Inv f s.core → Inv f (call w m s).core
unfolding call
call-Inv f w (propose p wake event d) s v = (execute_proposal-Inv f w p wake event d).at s v
call-Inv f w (complete_approval id approver) s v =
    (complete_authenticated_approval-Inv f w id approver).at s v
call-Inv f w (withdraw_proposal id wake) s v = (withdraw-Inv f w id wake).at s v
call-Inv f w list_proposals s v = (proposals-Inv f w).at s v
call-Inv f w list_pending s v = (pending_for_operator-Inv f w).at s v
call-Inv f w cancel_all s v = (cancel-Inv f).at s v

calls_from-Inv :
    (f : String) (w : World) (s : State) (ms : List Method)
    → Inv f s.core
    → Inv f (calls_from w s ms).core
unfolding calls_from
calls_from-Inv f w s [] v = v
calls_from-Inv f w s (m ∷ ms) v = calls_from-Inv f w (call w m s) ms (call-Inv f w m s v)

fresh-Inv : (f : String) → Inv f fresh_core
fresh-Inv f = record { once = omega arith; marked = λ h. elim h [ ]; paid = omega arith }

-- After any calls of a new coordinator's methods, with any answers of the clocks, the policy source,
-- the room, the journal's disk and the executors: an effect is committed at most once, and its
-- executor was called at most once more often than retries of it were committed to the journal.
pub effect_at_most_once :
    (f : String) (w : World) (ms : List Method)
    → let c = (calls_from w fresh_state ms).core in
      (commits f c ≤ 1) × (calls f c ≤ commits f c + retries f c)
effect_at_most_once f w ms =
    let v = calls_from-Inv f w fresh_state ms (fresh-Inv f) in (v.once, v.paid)
