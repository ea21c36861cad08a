-- ===== src/Authorization/Coordinator/Once.antt =====
-- `execute_proposal` keeps the invariant of effects, one part of it after the other.
use nunchi.Authorization.Policy.{Evaluation}
use nunchi.Authorization.Proposals.Once.{modify-Inv}
use nunchi.Authorization.Effects.{Grant}
use nunchi.Authorization.Dispatch.Once.{
  Inv, retry_unknown_effect-Inv, append-Inv, dispatch_once-Inv,
}
use nunchi.Authorization.Coordinator.{
  publish, ask_approval, run_granted, act_on, settle_decision, decide, with_policy, audit,
  run_within, execute_inner, execute_proposal, Audited, modify, Decision, PolicySnapshot, WakeFacts,
  some, Deadline, none, at_time, settle_noted, invalid_deadline, no_deadline,
}
use nunchi.Authorization.Proposals.{note_proposal, WakeFacts, put_pending, pop_pending, set_status}
use nunchi.Authorization.Binding.{persist_contract, ProposalDoc, Built, refused, built}
use nunchi.Prelude.{refl, String, ℕ, Bool, Option, none, false, true}
use nunchi.Authorization.Types.{
  World, PendingApproval, Status, TransportResult, Contract, Binding, Decision, PolicySnapshot,
  Lifetime, Challenge, Reason, CapabilityRule, authorization_contract,
}
use nunchi.Authorization.Exec.{modify}
use nunchi.Authorization.Exec.Uses.{Keeps, Keeps-bind}
use nunchi.Authorization.Effects.Reads.{read_rules, Keeps-now}

module _ (f : String) (w : World) where
  pub persist_contract-Inv : (k : Contract) → Keeps (Inv f) (persist_contract w k)
  unfolding persist_contract
  persist_contract-Inv k =
      Keeps-bind _ _ (Keeps-now w) (λ t. append-Inv f w (authorization_contract k t) refl)

  put_waiting-Inv :
      (id : String) (item : PendingApproval)
      → Keeps (Inv f) (modify (λ c. record c { pending = put_pending id item c.pending }))
  put_waiting-Inv id item = modify-Inv f _ (λ c. refl) (λ c. refl)

  pop_waiting-Inv :
      (id : String) → Keeps (Inv f) (modify (λ c. record c { pending = pop_pending id c.pending }))
  pop_waiting-Inv id = modify-Inv f _ (λ c. refl) (λ c. refl)

  pub set_status-Inv :
      (id : String) (st : Status)
      → Keeps (Inv f) (modify (λ c. record c { proposals = set_status id st c.proposals }))
  set_status-Inv id st = modify-Inv f _ (λ c. refl) (λ c. refl)

  note_proposal-Inv :
      (id : String) (b : Binding) (t : ℕ) → Keeps (Inv f) (modify (note_proposal id b t))
  unfolding note_proposal
  note_proposal-Inv id b t = modify-Inv f (note_proposal id b t) (λ c. refl) (λ c. refl)

  publish-Inv :
      (a : Audited) (d : Decision) (ch : Challenge) (retry : Bool)
      → Keeps (Inv f) (publish w a d ch retry)
  unfolding publish
  publish-Inv a d ch retry =
      search (read_rules, put_waiting-Inv, pop_waiting-Inv, set_status-Inv) depth 10

  ask_approval-Inv :
      (a : Audited) (p : PolicySnapshot) (r : Reason) (t : ℕ) (retry : Bool)
      → Keeps (Inv f) (ask_approval w a p r t retry)
  unfolding ask_approval
  ask_approval-Inv a p r t retry = search (read_rules, persist_contract-Inv, publish-Inv) depth 16

  run_granted-Inv : (g : Grant) (retry : Bool) → Keeps (Inv f) (run_granted w g retry)
  unfolding run_granted
  run_granted-Inv g true = retry_unknown_effect-Inv f w g false
  run_granted-Inv g false = dispatch_once-Inv f w g

  act_on-Inv :
      (a : Audited) (d : Decision) (r : Option CapabilityRule) (retry : Bool)
      → Keeps (Inv f) (act_on w a d r retry)
  unfolding act_on
  act_on-Inv a d none retry = search read_rules
  act_on-Inv a d (some rule) retry = search (read_rules, run_granted-Inv)

  settle_decision-Inv :
      (a : Audited) (p : PolicySnapshot) (e : Evaluation) (t : ℕ) (retry : Bool)
      → Keeps (Inv f) (settle_decision w a p e t retry)
  unfolding settle_decision
  settle_decision-Inv a p e t retry = search (read_rules, persist_contract-Inv, act_on-Inv) depth 10

  decide-Inv : (a : Audited) (p : PolicySnapshot) → Keeps (Inv f) (decide w a p)
  unfolding decide
  decide-Inv a p = search (read_rules, ask_approval-Inv, settle_decision-Inv) depth 12

  with_policy-Inv : (a : Audited) (p : Option PolicySnapshot) → Keeps (Inv f) (with_policy w a p)
  unfolding with_policy
  with_policy-Inv a none = search read_rules
  with_policy-Inv a (some p) = search (read_rules, decide-Inv)

  audit-Inv : (p : ProposalDoc) (l : Lifetime) (b : Built) → Keeps (Inv f) (audit w p l b)
  unfolding audit
  audit-Inv p l (refused detail) = search read_rules
  audit-Inv p l (built b) =
      search (read_rules, persist_contract-Inv, note_proposal-Inv, with_policy-Inv) depth 16

  run_within-Inv :
      (p : ProposalDoc) (wake : WakeFacts) (l : Lifetime) → Keeps (Inv f) (run_within w p wake l)
  unfolding run_within
  run_within-Inv p wake l = search (read_rules, audit-Inv) depth 10

  execute_inner-Inv :
      (p : ProposalDoc) (wake : WakeFacts) (event : ℕ) (d : Deadline)
      → Keeps (Inv f) (execute_inner w p wake event d)
  unfolding execute_inner
  execute_inner-Inv p wake event invalid_deadline = search read_rules
  execute_inner-Inv p wake event no_deadline = search run_within-Inv
  execute_inner-Inv p wake event (at_time t) = search run_within-Inv

  clear_noting-Inv : Keeps (Inv f) (modify (λ c. record c { noting = none }))
  clear_noting-Inv = modify-Inv f _ (λ c. refl) (λ c. refl)

  settle_noted-Inv :
      (r : TransportResult)
      → Keeps (Inv f) (
          modify (λ c. record c { noting = none; proposals = settle_noted r c.noting c.proposals }))
  settle_noted-Inv r = modify-Inv f _ (λ c. refl) (λ c. refl)

  pub execute_proposal-Inv :
      (p : ProposalDoc) (wake : WakeFacts) (event : ℕ) (d : Deadline)
      → Keeps (Inv f) (execute_proposal w p wake event d)
  unfolding execute_proposal
  execute_proposal-Inv p wake event d =
      search (read_rules, clear_noting-Inv, execute_inner-Inv, settle_noted-Inv) depth 8
