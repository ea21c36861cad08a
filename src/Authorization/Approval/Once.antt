-- ===== src/Authorization/Approval/Once.antt =====
-- `complete_authenticated_approval` keeps the invariant of effects.
use nunchi.Authorization.Proposals.Once.{modify-Inv}
use nunchi.Authorization.Coordinator.Once.{persist_contract-Inv, set_status-Inv}
use nunchi.Authorization.Dispatch.Once.{Inv, retry_unknown_effect-Inv, dispatch_approved_once-Inv}
use nunchi.Authorization.Effects.{Grant}
use nunchi.Authorization.Approval.{
  run_approved, grant_approved, with_authority, approve, complete_inner, settle_approval,
  complete_authenticated_approval, PendingApproval, PolicySnapshot, some, note_settled,
}
use nunchi.Prelude.{refl, String, Option, Bool, ℕ, none, true, false}
use nunchi.Authorization.Types.{
  World, PendingApproval, TransportResult, PolicySnapshot, CapabilityRule, Status,
}
use nunchi.Authorization.Exec.Uses.{Keeps, Keeps-bind, Keeps-gets}
use nunchi.Authorization.Effects.Reads.{read_rules}

module _ (f : String) (w : World) where
  run_approved-Inv : (g : Grant) (retry : Bool) → Keeps (Inv f) (run_approved w g retry)
  unfolding run_approved
  run_approved-Inv g true = retry_unknown_effect-Inv f w g true
  run_approved-Inv g false = dispatch_approved_once-Inv f w g

  grant_approved-Inv :
      (item : PendingApproval) (approver : String) (p : PolicySnapshot) (rule : CapabilityRule)
      (t : ℕ)
      → Keeps (Inv f) (grant_approved w item approver p rule t)
  unfolding grant_approved
  grant_approved-Inv item approver p rule t =
      search (read_rules, persist_contract-Inv, run_approved-Inv) depth 18

  with_authority-Inv :
      (item : PendingApproval) (approver : String) (p : PolicySnapshot) (t : ℕ)
      (rule : Option CapabilityRule)
      → Keeps (Inv f) (with_authority w item approver p t rule)
  unfolding with_authority
  with_authority-Inv item approver p t none = search read_rules
  with_authority-Inv item approver p t (some rule) = search (read_rules, grant_approved-Inv) depth 8

  approve-Inv :
      (item : PendingApproval) (approver : String) → Keeps (Inv f) (approve w item approver)
  unfolding approve
  approve-Inv item approver = search (read_rules, with_authority-Inv) depth 16

  complete_inner-Inv :
      (id approver : String) (item : Option PendingApproval)
      → Keeps (Inv f) (complete_inner w id approver item)
  unfolding complete_inner
  complete_inner-Inv id approver none = search read_rules
  complete_inner-Inv id approver (some item) =
      Keeps-bind _ _ (modify-Inv f _ (λ c. refl) (λ c. refl)) (λ _. approve-Inv item approver)

  note_settled-Inv :
      (item : PendingApproval) (became : Status × Bool) → Keeps (Inv f) (note_settled item became)
  unfolding note_settled
  note_settled-Inv item (st, told) =
      Keeps-bind _ _ (set_status-Inv f w item.request.request_id st) (λ _. Keeps-gets _)

  settle_approval-Inv :
      (approver : String) (r : TransportResult) (item : Option PendingApproval)
      → Keeps (Inv f) (settle_approval w approver r item)
  unfolding settle_approval
  settle_approval-Inv approver r none = search read_rules
  settle_approval-Inv approver r (some item) = search (read_rules, note_settled-Inv) depth 10

  pub complete_authenticated_approval-Inv :
      (id approver : String) → Keeps (Inv f) (complete_authenticated_approval w id approver)
  unfolding complete_authenticated_approval
  complete_authenticated_approval-Inv id approver =
      search (read_rules, complete_inner-Inv, settle_approval-Inv) depth 10
