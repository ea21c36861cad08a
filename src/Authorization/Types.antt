-- ===== src/Authorization/Types.antt =====
-- The data of src/nunchi/authorization.py, and what it asks of the outside world.
-- A moment is a number of microseconds, the precision of `datetime`, so `_iso` and `_parse_time`
-- are inverse and moments are kept as numbers; a rule's `expires_at` is taken to have an offset from
-- UTC. An operation is its JSON text.
use nunchi.Prelude.{ℕ, String, Bool, Option, List}

-- `TransportResult` of src/nunchi/participant.py
pub data Delivery : Type 0 where
  sent failed unknown unavailable : Delivery

pub record TransportResult : Type 0 where
  pub delivery : Delivery
  pub detail : String

pub data Impact : Type 0 where
  low high : Impact

pub record CapabilityRule : Type 0 where
  pub requester_actor_id : String
  pub capability : String
  pub platform : String
  pub room_id : String
  pub participant_id : String
  pub resource_kind : String
  pub resource_id : String
  pub direct_allow : Bool
  pub preauthorized_high_impact : Bool
  pub impact : Impact
  pub expires_at : Option ℕ
  pub revoked : Bool
  pub target_idempotency : Bool

pub record Provenance : Type 0 where
  pub policy_id : String
  pub revision : String

pub record PolicySnapshot : Type 0 where
  pub provenance : Provenance
  pub rules : List CapabilityRule
  pub approver_ids : List String

pub record Resource : Type 0 where
  pub kind : String
  pub id : String

pub record Scope : Type 0 where
  pub platform : String
  pub room_id : String
  pub continuity_scope_id : String
  pub participant_id : String
  pub resource : Resource

-- The fields of a binding that its effect fingerprint covers.
pub record Stable : Type 0 where
  pub participant_id : String
  pub origin_event_id : String
  pub capability : String
  pub scope : Scope
  pub action_digest : String

pub record Binding : Type 0 where
  pub action_id : String
  pub stable : Stable
  pub open stable use *
  -- the author of the origin event
  pub requester : String

pub data Outcome : Type 0 where
  allow deny approval_required : Outcome

pub data Reason : Type 0 where
  replay unauthorized revoked expired policy_deny policy_allow needs_approval : Reason

pub data AuthorizationPath : Type 0 where
  direct_policy authenticated_approval : AuthorizationPath

pub record Decision : Type 0 where
  pub request_id : String
  pub decision_id : String
  pub binding : Binding
  pub outcome : Outcome
  pub reason : Reason
  pub policy_provenance : Provenance
  pub evaluated_at : ℕ
  pub expires_at : ℕ
  pub path : AuthorizationPath
  pub challenge_id : Option String
  pub completion_id : Option String

pub record Request : Type 0 where
  pub request_id : String
  pub binding : Binding
  pub requested_at : ℕ

pub record Challenge : Type 0 where
  pub request_id : String
  pub challenge_id : String
  pub binding : Binding
  pub policy_provenance : Provenance
  pub approver_ids : List String
  pub expires_at : ℕ

pub record Completion : Type 0 where
  pub request_id : String
  pub completion_id : String
  pub challenge_id : String
  pub binding : Binding
  pub approver_id : String
  pub completed_at : ℕ
  pub policy_provenance : Provenance
  pub evaluated_at : ℕ
  pub expires_at : ℕ

pub data Contract : Type 0 where
  request : Request → Contract
  decision : Decision → Contract
  challenge : Challenge → Contract
  completion : Completion → Contract

pub data EffectOutcome : Type 0 where
  confirmed unknown_outcome failed_outcome : EffectOutcome

pub record Commit : Type 0 where
  pub effect_fingerprint : String
  pub action_id : String
  pub decision_id : String
  pub action_digest : String
  pub idempotency_key : Option String
  pub committed_at : ℕ

-- The kinds of journal records; a retry has an id of its own.
pub data Record : Type 0 where
  authorization_contract : Contract → ℕ → Record
  effect_commit : Commit → Record
  effect_retry_commit : Commit → String → Record
  -- fingerprint, action, outcome, detail, time
  effect_result : String → String → EffectOutcome → String → ℕ → Record

-- The journal in memory: its records, oldest first, and the three indices over them.
pub record Journal : Type 0 where
  pub records : List Record
  pub consumed_effects : List String
  pub unknown_effects : List String
  pub idempotency_keys : List (String × Option String)

-- `_AuthorizationLifetime`: a `threading.Event` by its number, and a deadline
pub record Lifetime : Type 0 where
  pub event : ℕ
  pub deadline : Option ℕ

pub record PendingApproval : Type 0 where
  pub request : Request
  pub decision : Decision
  pub challenge : Challenge
  pub operation : String
  pub effect_fingerprint : String
  pub cancel : Lifetime
  pub unknown_retry : Bool

pub data Status : Type 0 where
  failed_status awaiting_approval done unknown_status denied : Status
  expired_status withdrawn cancelled : Status

pub record Proposal : Type 0 where
  pub proposal_id : String
  pub about_event_id : String
  pub capability : String
  pub status : Status
  pub at : ℕ

-- One call of a native executor: its effect's fingerprint, and the idempotency key.
pub record Call : Type 0 where
  pub fingerprint : String
  pub key : Option String

-- The coordinator's state, with the calls that it made of its executors (newest first).
pub record Core : Type 0 where
  pub journal : Journal
  pub pending : List (String × PendingApproval)
  pub proposals : List Proposal
  pub noting : Option String
  pub calls : List Call

-- How a native executor ends: it raises, answers something else, or attests a result.
pub data Native : Type 0 where
  raised : Native
  unattested : Native
  attested : TransportResult → Native

pub data EventKind : Type 0 where
  message reaction membership : EventKind

pub record Origin : Type 0 where
  pub id : String
  pub kind : EventKind
  pub author_id : String

-- The room and participant of the coordinator's observation provider.
pub record RoomBinding : Type 0 where
  pub participant_id : String
  pub platform : String
  pub room_id : String
  pub continuity_scope_id : String

-- What the outside answers at the n-th question: clocks, events, the policy source, the room's
-- log, durable writes, native executors and fresh identifiers. `none` is an exception.
pub record World : Type 0 where
  pub room : RoomBinding
  pub has_executor : String → Bool
  pub grant_ttl : ℕ
  pub approval_ttl : ℕ
  pub clock : ℕ → ℕ
  pub monotonic : ℕ → ℕ
  pub event_set : ℕ → ℕ → Bool
  pub policy : ℕ → Option PolicySnapshot
  pub resolve : ℕ → String → Option Origin
  pub writes : ℕ → Bool
  pub execute : ℕ → String → String → Option String → Native
  pub fresh : ℕ → String
  -- sha256 of the canonical JSON text; `none` where it is no canonical JSON
  pub digest : String → Option String
  -- sha256 of the stable fields
  pub fingerprint : Stable → String
