-- ===== src/Authorization/Approval.antt =====
-- Approvals by an authenticated operator: `complete_authenticated_approval` and
-- `_complete_authenticated_approval` of src/nunchi/authorization.py.
pub mod Once
pub mod Cancelled
use nunchi.Authorization.Proposals.{pop_pending, awaits, find_pending, find_proposal, set_status}
use nunchi.Authorization.Binding.{strictly_after, microseconds, persist_contract}
use nunchi.Authorization.Dispatch.{retry_unknown_effect, dispatch_approved_once}
use nunchi.Authorization.Policy.{Evaluation, evaluate, settled_status}
use nunchi.Authorization.Coordinator.{decision_of}
use nunchi.Prelude.{
  Bool, String, Option, true, some, ℕ, false, if◌then◌else◌, ◌+◌, not, ◌||◌, leb, none, elem,
  string_has_eq, ◌&&◌,
}
use nunchi.Authorization.Types.{
  World, PendingApproval, Delivery, TransportResult, PolicySnapshot, CapabilityRule, Proposal,
  allow, approval_required, needs_approval, failed, Completion, Status, policy_allow, Core,
  authenticated_approval, completion, cancelled, decision, expired_status,
}
use nunchi.Authorization.Exec.{Exec, ◌>>=◌, ◌>>◌, pure, ask, modify, gets}
use nunchi.Authorization.Effects.{failure, is_set, now, Grant, same_provenance, load_policy}
use Prim.Native.String.{◌++◌ as concat, String}

run_approved : World → Grant → Bool → Exec TransportResult
run_approved w g true = retry_unknown_effect w true g
run_approved w g false = dispatch_approved_once w g

-- The approval is the sole missing authority; a retry may also be allowed outright.
abbrev valid_authority : Bool → Evaluation → Bool
valid_authority true (allow, _, some _) = true
valid_authority true (approval_required, _, some _) = true
valid_authority false (approval_required, needs_approval, some _) = true
valid_authority _ _ = false

grant_approved :
    World → PendingApproval → String → PolicySnapshot → CapabilityRule → ℕ → Exec TransportResult
grant_approved w item approver p rule t = do
  id ← ask w.fresh
  recheck_at ← strictly_after w t
  allowed_at ← strictly_after w recheck_at
  decision_id ← ask w.fresh
  let completion_id = concat "approval-completion:" id
  let horizon = recheck_at + microseconds w.grant_ttl
  let done_record : Completion = record {
    request_id = item.request.request_id;
    completion_id = completion_id;
    challenge_id = item.challenge.challenge_id;
    binding = item.request.binding;
    approver_id = approver;
    completed_at = t;
    policy_provenance = p.provenance;
    evaluated_at = recheck_at;
    expires_at = horizon;
  }
  let drafted =
      decision_of w item.request.request_id item.request.binding p allow policy_allow allowed_at
        authenticated_approval decision_id (some item.challenge.challenge_id) (some completion_id)
  let granted = record drafted { expires_at = horizon }
  persist_contract w (completion done_record)
  after_completion ← is_set w item.cancel
  if after_completion then pure (failure "approval was cancelled during completion audit") else do
    persist_contract w (decision granted)
    after_decision ← is_set w item.cancel
    if after_decision
        then pure (failure "approval was cancelled during completion audit")
        else run_approved w
            (record {
              binding = item.request.binding;
              operation = item.operation;
              decision = granted;
              rule = rule;
              cancel = item.cancel;
            })
            item.unknown_retry

with_authority :
    World
    → PendingApproval
    → String
    → PolicySnapshot
    → ℕ
    → Option CapabilityRule
    → Exec TransportResult
with_authority w item approver p t none = pure (failure "policy changed before approval completion")
with_authority w item approver p t (some rule) =
    if not (same_provenance p.provenance item.challenge.policy_provenance)
    then pure (failure "policy revision changed before approval completion")
    else do
      stopped ← is_set w item.cancel
      if stopped
          then pure (failure "approval was cancelled before completion audit")
          else grant_approved w item approver p rule t

approve : World → PendingApproval → String → Exec TransportResult
approve w item approver = do
  first ← strictly_after w item.decision.evaluated_at
  stopped ← is_set w item.cancel
  if stopped
        || leb item.challenge.expires_at first
        || not (elem approver item.challenge.approver_ids)
      then pure (failure "approval is cancelled, expired, or unauthorized")
      else do
        p ← load_policy w
        t ← strictly_after w first
        late ← is_set w item.cancel
        if late || leb item.challenge.expires_at t
            then pure (failure "approval was cancelled or expired during policy recheck")
            else do
              e ← gets (λ c. evaluate w c.journal item.request.binding p t item.unknown_retry false)
              with_authority w item approver p t
                  (if valid_authority item.unknown_retry e then e.2 else none)

-- `_complete_authenticated_approval`, after the entry was taken out
pub complete_inner : World → String → String → Option PendingApproval → Exec TransportResult
complete_inner w challenge_id approver none =
    pure (failure "approval challenge is unknown or already consumed")
complete_inner w challenge_id approver (some item) = do
  modify (λ c. record c { pending = pop_pending challenge_id c.pending })
  approve w item approver

abbrev is_failed : Delivery → Bool
is_failed failed = true
is_failed _ = false

-- What became of the proposal, and whether the listeners are told of it.
pub approval_status : String → TransportResult → PendingApproval → Bool → ℕ → Status × Bool
approval_status approver r item stopped t =
    if is_failed r.delivery && stopped
    then (cancelled, false)
    else if is_failed r.delivery && leb item.challenge.expires_at t
    then (expired_status, false)
    else if is_failed r.delivery && not (elem approver item.challenge.approver_ids)
    then (cancelled, false)
    else (settled_status r, true)

pub note_settled : PendingApproval → Status × Bool → Exec (Option Proposal)
note_settled item (st, told) = do
  modify (λ c. record c { proposals = set_status item.request.request_id st c.proposals })
  gets (λ c. if told then find_proposal item.request.request_id c.proposals else none)

-- A settled record for the listeners, or nothing.
pub settle_approval :
    World → String → TransportResult → Option PendingApproval → Exec (Option Proposal)
settle_approval w approver r none = pure none
settle_approval w approver r (some item) = do
  waiting ← gets (λ c. awaits (find_proposal item.request.request_id c.proposals))
  if not waiting then pure none else do
    stopped ← is_set w item.cancel
    t ← now w
    note_settled item (approval_status approver r item stopped t)

-- The result, and the record that the listeners are told outside the lock.
unfoldable pub complete_authenticated_approval :
    World → String → String → Exec (TransportResult × Option Proposal)
complete_authenticated_approval w challenge_id approver = do
  item ← gets (λ c. find_pending challenge_id c.pending)
  r ← complete_inner w challenge_id approver item
  told ← settle_approval w approver r item
  pure (r, told)
