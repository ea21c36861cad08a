-- ===== src/Authorization/Coordinator.antt =====
-- The way of a proposal in src/nunchi/authorization.py: `execute_proposal`, `_execute_proposal` and
-- `_decision`.
-- A method of many early returns is cut into parts, in the order of the source.
pub mod Once
use nunchi.Authorization.Proposals.{
  WakeFacts, put_pending, awaits, pop_pending, find_proposal, set_status, note_proposal,
}
use nunchi.Authorization.Dispatch.{retry_unknown_effect, dispatch_once}
use nunchi.Authorization.Policy.{Evaluation, is_unknown, evaluate, settled_status}
use nunchi.Authorization.Binding.{
  ProposalDoc, strictly_after, Built, persist_contract, refused, build_binding, microseconds, built,
}
use nunchi.Prelude.{String, Bool, Option, ℕ, false, true, List, some, if◌then◌else◌, none, ◌+◌, not}
use nunchi.Authorization.Types.{
  World, Reason, Request, Outcome, Decision, PolicySnapshot, TransportResult, replay, Binding,
  Lifetime, Challenge, CapabilityRule, unauthorized, AuthorizationPath, allow, approval_required,
  direct_policy, Proposal, revoked, expired, needs_approval, decision, policy_deny, challenge,
  request, policy_allow, awaiting_approval, unavailable,
}
use nunchi.Authorization.Exec.{Exec, ◌>>=◌, ◌>>◌, ask, pure, modify, gets}
use nunchi.Authorization.Effects.{failure, is_set, now, Grant}
use Prim.Native.String.{◌++◌ as concat}

abbrev reason_text : Reason → String
reason_text replay = "replay"
reason_text unauthorized = "unauthorized"
reason_text revoked = "revoked"
reason_text expired = "expired"
reason_text policy_deny = "policy-deny"
reason_text policy_allow = "policy-allow"
reason_text needs_approval = "approval-required"

-- `_decision`
unfoldable pub decision_of :
    World
    → String
    → Binding
    → PolicySnapshot
    → Outcome
    → Reason
    → ℕ
    → AuthorizationPath
    → String
    → Option String
    → Option String
    → Decision
decision_of w request_id b p o r t path id challenge_id completion_id = record {
  request_id = request_id;
  decision_id = concat "decision:" id;
  binding = b;
  outcome = o;
  reason = r;
  policy_provenance = p.provenance;
  evaluated_at = t;
  expires_at = t + microseconds w.grant_ttl;
  path = path;
  challenge_id = challenge_id;
  completion_id = completion_id;
}

-- What one audited proposal carries through its evaluation.
pub record Audited : Type 0 where
  pub request : Request
  pub operation : String
  pub lifetime : Lifetime
  pub event : ℕ

abbrev is_denied : Outcome → Bool
is_denied allow = false
is_denied _ = true

-- An unknown effect whose target is not idempotent is retried only after a fresh approval.
abbrev pub duplicate_risk : Bool → Evaluation → Evaluation
duplicate_risk true (allow, r, some rule) =
    if not rule.target_idempotency
    then (approval_required, needs_approval, some rule)
    else (allow, r, some rule)
duplicate_risk _ e = e

publish : World → Audited → Decision → Challenge → Bool → Exec TransportResult
publish w a d ch unknown_retry = do
  modify (λ c. record c {
    pending =
        put_pending ch.challenge_id
          (record {
            request = a.request;
            decision = d;
            challenge = ch;
            operation = a.operation;
            effect_fingerprint = w.fingerprint a.request.binding.stable;
            cancel = record { event = a.event; deadline = none };
            unknown_retry = unknown_retry;
          })
          c.pending;
  })
  late ← is_set w a.lifetime
  if late
      then (do
        modify (λ c. record c { pending = pop_pending ch.challenge_id c.pending })
        pure (failure "privileged proposal was cancelled before challenge publication"))
      else do
        modify (λ c. record c {
          proposals = set_status a.request.request_id awaiting_approval c.proposals;
        })
        pure
            (record { delivery = unavailable; detail = "authenticated operator approval required" })

ask_approval : World → Audited → PolicySnapshot → Reason → ℕ → Bool → Exec TransportResult
ask_approval w a p r t unknown_retry = do
  token ← ask w.fresh
  id ← ask w.fresh
  let challenge_id = concat "approval:" token
  let d =
      decision_of w a.request.request_id a.request.binding p approval_required r t direct_policy id
        (some challenge_id) none
  let ch : Challenge = record {
    request_id = a.request.request_id;
    challenge_id = challenge_id;
    binding = a.request.binding;
    policy_provenance = p.provenance;
    approver_ids = p.approver_ids;
    expires_at = t + microseconds w.approval_ttl;
  }
  cancelled ← is_set w a.lifetime
  if cancelled then pure (failure "privileged proposal was cancelled before challenge") else do
    persist_contract w (decision d)
    after_decision ← is_set w a.lifetime
    if after_decision
        then pure (failure "privileged proposal was cancelled during challenge audit")
        else do
          persist_contract w (challenge ch)
          after_challenge ← is_set w a.lifetime
          if after_challenge
              then pure (failure "privileged proposal was cancelled during challenge audit")
              else publish w a d ch unknown_retry

run_granted : World → Grant → Bool → Exec TransportResult
run_granted w g true = retry_unknown_effect w false g
run_granted w g false = dispatch_once w g

act_on : World → Audited → Decision → Option CapabilityRule → Bool → Exec TransportResult
act_on w a d none unknown_retry =
    pure (failure (concat "privileged action denied: " (reason_text d.reason)))
act_on w a d (some rule) unknown_retry =
    if is_denied d.outcome
    then pure (failure (concat "privileged action denied: " (reason_text d.reason)))
    else run_granted w
        (record {
          binding = a.request.binding;
          operation = a.operation;
          decision = d;
          rule = rule;
          cancel = a.lifetime;
        })
        unknown_retry

settle_decision : World → Audited → PolicySnapshot → Evaluation → ℕ → Bool → Exec TransportResult
settle_decision w a p e t unknown_retry = do
  id ← ask w.fresh
  let d =
      decision_of w a.request.request_id a.request.binding p e.0 e.1 t direct_policy id none none
  persist_contract w (decision d)
  cancelled ← is_set w a.lifetime
  if cancelled
      then pure (failure "privileged proposal was cancelled during decision audit")
      else act_on w a d e.2 unknown_retry

abbrev needs_an_approval : Outcome → Bool
needs_an_approval approval_required = true
needs_an_approval _ = false

decide : World → Audited → PolicySnapshot → Exec TransportResult
decide w a p = do
  t ← strictly_after w a.request.requested_at
  unknown_retry ← gets (λ c. is_unknown c.journal (w.fingerprint a.request.binding.stable))
  first ← gets (λ c. evaluate w c.journal a.request.binding p t unknown_retry false)
  let e = duplicate_risk unknown_retry first
  cancelled ← is_set w a.lifetime
  if cancelled
      then pure (failure "privileged proposal was cancelled during evaluation")
      else if needs_an_approval e.0
      then ask_approval w a p e.1 t unknown_retry
      else settle_decision w a p e t unknown_retry

-- After the policy was loaded: `none` says that loading raised.
with_policy : World → Audited → Option PolicySnapshot → Exec TransportResult
with_policy w a none = pure (failure "trusted authorization policy is unavailable")
with_policy w a (some p) = do
  cancelled ← is_set w a.lifetime
  if cancelled
      then pure (failure "privileged proposal was cancelled during policy load")
      else decide w a p

audit : World → ProposalDoc → Lifetime → Built → Exec TransportResult
audit w p l (refused detail) = pure (failure detail)
audit w p l (built b) = do
  before ← is_set w l
  if before then pure (failure "privileged proposal was cancelled before audit") else do
    t ← now w
    id ← ask w.fresh
    let r : Request = record {
      request_id = concat "authorization:" id;
      binding = b;
      requested_at = t;
    }
    persist_contract w (request r)
    modify (note_proposal r.request_id b t)
    cancelled ← is_set w l
    if cancelled then pure (failure "privileged proposal was cancelled during audit") else do
      loaded ← ask w.policy
      with_policy w (record { request = r; operation = p.operation; lifetime = l; event = l.event })
          loaded

-- The deadline argument: none, a finite time, or anything else.
pub data Deadline : Type 0 where
  no_deadline : Deadline
  at_time : ℕ → Deadline
  invalid_deadline : Deadline

run_within : World → ProposalDoc → WakeFacts → Lifetime → Exec TransportResult
run_within w p wake l = do
  early ← is_set w l
  if early then pure (failure "privileged proposal was already cancelled") else do
    again ← is_set w l
    if again
        then pure (failure "privileged proposal was already cancelled")
        else do b ← build_binding w p wake; audit w p l b

-- `_execute_proposal`
pub execute_inner : World → ProposalDoc → WakeFacts → ℕ → Deadline → Exec TransportResult
execute_inner w p wake event invalid_deadline =
    pure (failure "privileged proposal deadline is invalid")
execute_inner w p wake event no_deadline =
    run_within w p wake (record { event = event; deadline = none })
execute_inner w p wake event (at_time d) =
    run_within w p wake (record { event = event; deadline = some d })

-- The record noted by this call gets its status, unless it awaits approval.
pub settle_noted : TransportResult → Option String → List Proposal → List Proposal
settle_noted r none ps = ps
settle_noted r (some id) ps =
    if awaits (find_proposal id ps) then ps else set_status id (settled_status r) ps

unfoldable pub execute_proposal :
    World → ProposalDoc → WakeFacts → ℕ → Deadline → Exec TransportResult
execute_proposal w p wake event deadline = do
  modify (λ c. record c { noting = none })
  r ← execute_inner w p wake event deadline
  modify (λ c. record c { noting = none; proposals = settle_noted r c.noting c.proposals })
  pure r
