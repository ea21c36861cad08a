-- ===== src/Authorization/Effects.antt =====
-- The one-use effects of src/nunchi/authorization.py: `_dispatch_once`, `_dispatch_approved_once`,
-- `_retry_unknown_effect` and `_record_not_attempted`. A method's early returns are its `else do`.
-- The digest of an operation that has been digested before does not raise.
pub mod Reads
use nunchi.Prelude.{
  ℕ, Bool, Option, true, ◌||◌, not, false, ◌==◌, if◌then◌else◌, ◌&&◌, ◌∷◌, string_has_eq, some, ltb,
  none, leb, nat_has_eq,
}
use nunchi.Authorization.Types.{
  Delivery, sent, failed, unknown, TransportResult, Impact, low, high, CapabilityRule, Provenance,
  PolicySnapshot, Binding, allow, approval_required, policy_allow, needs_approval, Decision,
  EffectOutcome, confirmed, unknown_outcome, failed_outcome, effect_result, Journal, Lifetime,
  Native, World,
}
use nunchi.Authorization.Exec.{
  Exec, pure, ask, try_ask, gets, modify, ◌>>=◌, ◌>>◌, best_effort, other_error,
}
use nunchi.Authorization.Policy.{evaluate, effect_result_of, Evaluation}
use nunchi.Authorization.Journal.{append}
use Prim.Native.String.{◌++◌ as concat, String}

abbrev pub failure : String → TransportResult
failure detail = record { delivery = failed; detail = detail }

-- `_AuthorizationLifetime.is_set`
unfoldable pub is_set : World → Lifetime → Exec Bool
is_set w l = do
  stopped ← ask (λ n. w.event_set n l.event)
  now ← ask w.monotonic
  pure (stopped || elim l.deadline [ none ↦ false | some d ↦ leb d now ])

unfoldable pub now : World → Exec ℕ
now w = ask w.clock

unfoldable pub load_policy : World → Exec PolicySnapshot
load_policy w = try_ask other_error w.policy

abbrev same : Bool → Bool → Bool
same true b = b
same false b = not b

abbrev same_impact : Impact → Impact → Bool
same_impact low low = true
same_impact high high = true
same_impact _ _ = false

abbrev same_time : Option ℕ → Option ℕ → Bool
same_time none none = true
same_time (some a) (some b) = a == b
same_time _ _ = false

pub same_rule : CapabilityRule → CapabilityRule → Bool
same_rule a b =
    a.requester_actor_id == b.requester_actor_id
    && a.capability == b.capability
    && a.platform == b.platform
    && a.room_id == b.room_id
    && a.participant_id == b.participant_id
    && a.resource_kind == b.resource_kind
    && a.resource_id == b.resource_id
    && same a.direct_allow b.direct_allow
    && same a.preauthorized_high_impact b.preauthorized_high_impact
    && same_impact a.impact b.impact
    && same_time a.expires_at b.expires_at
    && same a.revoked b.revoked
    && same a.target_idempotency b.target_idempotency

abbrev is_rule : Option CapabilityRule → CapabilityRule → Bool
is_rule none r = false
is_rule (some c) r = same_rule c r

pub same_provenance : Provenance → Provenance → Bool
same_provenance a b = a.policy_id == b.policy_id && a.revision == b.revision

abbrev is_text : Option String → String → Bool
is_text none t = false
is_text (some s) t = s == t

abbrev pub same_key : Option String → Option String → Bool
same_key none none = true
same_key (some a) (some b) = a == b
same_key _ _ = false

abbrev found {ℓ} : {A : Type ℓ} → Option A → Bool
found none = false
found (some _) = true

-- What a decision's authority must still be: which evaluations it accepts.
abbrev pub Authority : Type 0
Authority = Evaluation → Bool

abbrev pub direct_authority : Authority
direct_authority (allow, policy_allow, r) = true
direct_authority _ = false

abbrev pub approved_authority : Authority
approved_authority (approval_required, needs_approval, r) = true
approved_authority _ = false

-- `authority_matches` of a retry
abbrev pub retry_authority : Bool → CapabilityRule → Authority
retry_authority true rule (allow, _, _) = true
retry_authority true rule (approval_required, _, _) = true
retry_authority true rule _ = false
retry_authority false rule e = direct_authority e && rule.target_idempotency

-- The rule, the operation and the decision that an effect is run under.
pub record Grant : Type 0 where
  pub binding : Binding
  pub operation : String
  pub decision : Decision
  pub rule : CapabilityRule
  pub cancel : Lifetime

abbrev pub effect_of : World → Grant → String
effect_of w g = w.fingerprint g.binding.stable

abbrev pub key_of : World → Grant → Option String
key_of w g = if g.rule.target_idempotency then some (concat "nunchi:" (effect_of w g)) else none

-- Every deterministic fact of a grant, checked again under a policy at a time.
unfoldable pub unchanged :
    World → Authority → Grant → PolicySnapshot → ℕ → Bool → Bool → Bool → Journal → Bool
unfolding same_rule same_provenance
unchanged w authority g p t retry committed origin j =
    let e = evaluate w j g.binding p t retry committed in
    authority e
    && is_rule e.2 g.rule
    && same_provenance p.provenance g.decision.policy_provenance
    && ltb t g.decision.expires_at
    && origin
    && is_text (w.digest g.operation) g.binding.action_digest

unfoldable pub recheck : World → Authority → Grant → PolicySnapshot → ℕ → Bool → Bool → Exec Bool
recheck w authority g p t retry committed = do
  origin ← ask (λ n. w.resolve n g.binding.origin_event_id)
  gets (λ c. unchanged w authority g p t retry committed (found origin) c.journal)

-- The words of a method's refusals.
pub record Refusals : Type 0 where
  pub cancelled : String
  pub cancelled_in_recheck : String
  pub changed : String
  pub replayed : String
  pub cancelled_before_commit : String
  pub cancelled_before_native : String
  pub changed_before_native : String
  pub recheck_failed : String

unfoldable pub record_not_attempted : World → Grant → String → Exec (Unit {0})
record_not_attempted w g reason = best_effort do
  t ← now w
  append w (
      effect_result (effect_of w g) g.binding.action_id failed_outcome
        (concat "privileged effect was not attempted: " reason) t)

abbrev pub outcome_of : Delivery → EffectOutcome
outcome_of sent = confirmed
outcome_of unknown = unknown_outcome
outcome_of _ = failed_outcome

-- The native call; `calls` keeps it.
unfoldable pub call_executor : World → Grant → Option String → Exec Native
call_executor w g key = do
  modify (λ c. record c { calls = record { fingerprint = effect_of w g; key = key } ∷ c.calls })
  ask (λ n. w.execute n g.binding.capability g.operation key)

unfoldable pub run_effect : World → Grant → Option String → Exec TransportResult
run_effect w g key = do
  answer ← call_executor w g key
  let result = effect_result_of answer
  t ← now w
  append w (
      effect_result (effect_of w g) g.binding.action_id (outcome_of result.delivery) result.detail
        t)
  pure result
