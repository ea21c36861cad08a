-- ===== src/Authorization/Approval/Cancelled.antt =====
-- `cancel` followed by `complete_authenticated_approval`.
use nunchi.Authorization.Effects.{failure}
use nunchi.Authorization.Exec.{◌>>=◌, gets, modify, pure, State, ok}
use nunchi.Authorization.Approval.{complete_authenticated_approval, complete_inner, settle_approval}
use nunchi.Prelude.{refl, String, ◌≡◌, none}
use nunchi.Authorization.Types.{World}
use nunchi.Authorization.Proposals.{cancel, find_pending}

-- After a cancel of the coordinator an approval, of any challenge and by anyone, fails as unknown:
-- it changes nothing, asks nothing of the outside and tells no listener.
pub complete-cancel :
    (w : World) (challenge_id approver : String) (s : State)
    → complete_authenticated_approval w challenge_id approver (cancel s).1
      ≡ (ok (failure "approval challenge is unknown or already consumed", none), (cancel s).1)
unfolding complete_authenticated_approval complete_inner settle_approval cancel find_pending ◌>>=◌
    gets modify pure
complete-cancel w challenge_id approver s = refl
