-- ===== src/Authorization/Examples.antt =====
-- A coordinator whose policy allows one effect, asked for it twice.
use nunchi.Authorization.Approval.Cancelled.{complete-cancel}
use nunchi.Authorization.Effects.{failure}
use nunchi.Authorization.Exec.{ok}
use nunchi.Authorization.Approval.{complete_authenticated_approval}
use nunchi.Authorization.Policy.Allowed.{IsAllowed, evaluate-IsAllowed}
use nunchi.Authorization.Policy.{evaluate, evaluate_rule, matching_rule, first_rule, rule_matches}
use nunchi.Authorization.Coordinator.{no_deadline}
use nunchi.Authorization.Dispatch.Once.{commits, calls, retries}
use mathlib.Core.Path.{refl}
use nunchi.Prelude.{List, true, ◌∷◌, ◌≤◌, [], ◌+◌, some, none, false, ◌≡◌}
use nunchi.Authorization.Proposals.{WakeFacts, cancel}
use nunchi.Authorization.Binding.{ProposalDoc, kind_and_id}
use nunchi.Authorization.Types.{
  RoomBinding, CapabilityRule, PolicySnapshot, World, high, message, attested, sent, Binding, allow,
}
use nunchi.Authorization.AtMostOnce.{
  effect_at_most_once, Method, calls_from, fresh_state, propose, fresh_core,
}

abbrev place : RoomBinding
place = record {
  participant_id = "agent";
  platform = "discord";
  room_id = "room";
  continuity_scope_id = "scope";
}

abbrev allowed_rule : CapabilityRule
allowed_rule = record {
  requester_actor_id = "ann";
  capability = "file.delete";
  platform = "discord";
  room_id = "room";
  participant_id = "agent";
  resource_kind = "file";
  resource_id = "notes";
  direct_allow = true;
  preauthorized_high_impact = true;
  impact = high;
  expires_at = none;
  revoked = false;
  target_idempotency = false;
}

abbrev snapshot : PolicySnapshot
snapshot = record {
  provenance = record { policy_id = "p"; revision = "1" };
  rules = allowed_rule ∷ [];
  approver_ids = "ann" ∷ [];
}

-- An outside in which nothing fails.
abbrev world : World
world = record {
  room = place;
  has_executor = λ _. true;
  grant_ttl = 60;
  approval_ttl = 60;
  clock = λ n. 1000 + n;
  monotonic = λ n. n;
  event_set = λ _ _. false;
  policy = λ _. some snapshot;
  resolve = λ _ id. some (record { id = id; kind = message; author_id = "ann" });
  writes = λ _. true;
  execute = λ _ _ _ _. attested (record { delivery = sent; detail = "" });
  fresh = λ _. "fresh";
  digest = λ _. some "digest";
  fingerprint = λ _. "fp";
}

abbrev deletion : ProposalDoc
deletion = record {
  origin_event_id = "m1";
  capability = "file.delete";
  resource = kind_and_id (some "file") (some "notes");
  operation = "{}";
}

abbrev wake : WakeFacts
wake = record { participant_id = "agent"; room_id = "room"; continuity_scope_id = "scope" }

abbrev asked_twice : List Method
asked_twice = propose deletion wake 0 no_deadline ∷ propose deletion wake 1 no_deadline ∷ []

effect_at_most_once_example :
    let c = (calls_from world fresh_state asked_twice).core in
    (commits "fp" c ≤ 1) × (calls "fp" c ≤ commits "fp" c + retries "fp" c)
effect_at_most_once_example = effect_at_most_once "fp" world asked_twice

abbrev bound : Binding
bound = record {
  action_id = "action:1";
  stable = record {
    participant_id = "agent";
    origin_event_id = "m1";
    capability = "file.delete";
    scope = record {
      platform = "discord";
      room_id = "room";
      continuity_scope_id = "scope";
      participant_id = "agent";
      resource = record { kind = "file"; id = "notes" };
    };
    action_digest = "digest";
  };
  requester = "ann";
}

bound_allowed : (evaluate world fresh_core.journal bound snapshot 1000 false false).0 ≡ allow
unfolding evaluate evaluate_rule matching_rule first_rule rule_matches
bound_allowed = refl

evaluate-IsAllowed_example :
    (r : CapabilityRule) × ((evaluate world fresh_core.journal bound snapshot 1000 false false).2
      ≡ some r)
    × IsAllowed world fresh_core.journal bound snapshot 1000 false false r
evaluate-IsAllowed_example =
    evaluate-IsAllowed world fresh_core.journal bound snapshot 1000 false false bound_allowed

complete-cancel_example :
    complete_authenticated_approval world "approval:fresh" "ann" (cancel fresh_state).1 ≡ (
      ok (failure "approval challenge is unknown or already consumed", none),
      (cancel fresh_state).1,
    )
complete-cancel_example = complete-cancel world "approval:fresh" "ann" fresh_state
