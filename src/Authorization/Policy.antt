-- ===== src/Authorization/Policy.antt =====
-- The trusted policy: src/nunchi/authorization.py, `_matching_rule`, `_evaluate`, `_settled_status`.
pub mod Allowed
use nunchi.Prelude.{
  String, ℕ, if◌then◌else◌, Bool, List, Option, none, false, true, some, elem, ◌&&◌, ◌∷◌, leb, not,
  string_has_eq, ◌||◌, ◌==◌, [],
}
use nunchi.Authorization.Types.{
  Delivery, sent, failed, unknown, unavailable, TransportResult, Impact, low, high, CapabilityRule,
  PolicySnapshot, Binding, Outcome, allow, deny, approval_required, Reason, replay, unauthorized,
  revoked, expired, policy_deny, policy_allow, needs_approval, Journal, Status, done,
  unknown_status, denied, failed_status, World, Native, raised, unattested, attested,
}
use text.Mathlib.Text.{starts_with}

unfoldable pub settled_status : TransportResult → Status
settled_status r = elim r.delivery [
  | sent ↦ done
  | unknown ↦ unknown_status
  | _ ↦ if starts_with "privileged action denied" r.detail then denied else failed_status
]

abbrev sanitized_detail : Delivery → String
sanitized_detail sent = "privileged effect confirmed"
sanitized_detail failed = "privileged effect failed"
sanitized_detail unknown = "privileged effect acknowledgement is unknown"
sanitized_detail unavailable = "privileged effect is unavailable"

unfoldable pub sanitized_effect_result : TransportResult → TransportResult
sanitized_effect_result r = record { delivery = r.delivery; detail = sanitized_detail r.delivery }

-- The result of a native call, an exception and a missing attestation included.
unfoldable pub effect_result_of : Native → TransportResult
unfolding sanitized_effect_result
effect_result_of raised =
    sanitized_effect_result
      (record { delivery = unknown; detail = "privileged acknowledgement was lost" })
effect_result_of unattested =
    sanitized_effect_result
      (record { delivery = unknown; detail = "privileged executor returned no attestation" })
effect_result_of (attested r) = sanitized_effect_result r

unfoldable pub rule_matches : Binding → CapabilityRule → Bool
rule_matches b r =
    r.requester_actor_id == b.requester
    && r.capability == b.capability
    && r.platform == b.scope.platform
    && r.room_id == b.scope.room_id
    && r.participant_id == b.scope.participant_id
    && r.resource_kind == b.scope.resource.kind
    && r.resource_id == b.scope.resource.id

-- the first rule that matches
unfoldable pub first_rule : Binding → List CapabilityRule → Option CapabilityRule
unfolding rule_matches
first_rule b [] = none
first_rule b (r ∷ rs) = if rule_matches b r then some r else first_rule b rs

unfoldable pub matching_rule : PolicySnapshot → Binding → Option CapabilityRule
matching_rule p b = first_rule b p.rules

abbrev passed : Option ℕ → ℕ → Bool
passed none now = false
passed (some t) now = leb t now

abbrev is_high : Impact → Bool
is_high high = true
is_high low = false

abbrev pub Evaluation : Type 0
Evaluation = Outcome × Reason × Option CapabilityRule

unfoldable pub evaluate_rule : World → Binding → ℕ → Option CapabilityRule → Evaluation
evaluate_rule w b now none = (deny, unauthorized, none)
evaluate_rule w b now (some r) =
    if r.revoked
    then (deny, revoked, some r)
    else if passed r.expires_at now
    then (deny, expired, some r)
    else if not (w.has_executor b.capability)
    then (deny, policy_deny, some r)
    else if r.direct_allow && (not (is_high r.impact) || r.preauthorized_high_impact)
    then (allow, policy_allow, some r)
    else (approval_required, needs_approval, some r)

abbrev pub consumed : Journal → String → Bool
consumed j f = elem f j.consumed_effects

abbrev pub is_unknown : Journal → String → Bool
is_unknown j f = elem f j.unknown_effects

-- `_evaluate`, with its flags `retry_unknown` and `committed_recheck`
unfoldable pub evaluate : World → Journal → Binding → PolicySnapshot → ℕ → Bool → Bool → Evaluation
unfolding evaluate_rule
evaluate w j b p now retry_unknown committed_recheck =
    let f = w.fingerprint b.stable in
    if consumed j f && not committed_recheck && not (retry_unknown && is_unknown j f)
    then (deny, replay, none)
    else evaluate_rule w b now (matching_rule p b)
