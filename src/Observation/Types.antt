-- ===== src/Observation/Types.antt =====
-- The state of `ObservationProvider` in src/nunchi/observation.py, and the events that it keeps.
-- An event's `timestamp` is the parsed one: `_retained_event` drops a text that does not parse.
use nunchi.Prelude.{
  ℕ, String, Option, List, Bool, [], some, ◌++◌, ◌∷◌, ◌==◌, ltb, if◌then◌else◌, elem, length, false,
  none, string_has_eq,
}
use nunchi.Gaps.{Gap}

-- The facts by which the log tells events apart: `type` and what goes with it.
pub data Facts : Type 0 where
  -- author, mentioned actors, `reply_to_event_id`, `thread_root_event_id`
  message : String → List String → Option String → Option String → Facts
  -- author and target
  reaction : String → String → Facts
  -- subject and cause
  membership : String → Option String → Facts

pub record Event : Type 0 where
  pub id : String
  pub timestamp : Option ℕ
  pub facts : Facts
  pub text : String

pub record Actor : Type 0 where
  pub display_name : Option String
  pub kind : Option String

abbrev pub Actors : Type 0
Actors = List (String × Actor)

abbrev pub opt_list : Option String → List String
opt_list none = []
opt_list (some s) = if s == "" then [] else s ∷ []

-- `_event_refs`
unfoldable pub event_refs : Event → List String
event_refs e = elim e.facts [
  | message author mentioned reply root ↦ opt_list reply ++ opt_list root
  | reaction author target ↦ target ∷ []
  | membership subject cause ↦ []
]

-- `_actor_refs`, a set
unfoldable pub actor_refs : Event → List String
actor_refs e = elim e.facts [
  | message author mentioned reply root ↦ author ∷ mentioned
  | reaction author target ↦ author ∷ []
  | membership subject cause ↦ subject ∷ opt_list cause
]

-- `event.get("author_id") == actor or event.get("caused_by_actor_id") == actor`
abbrev pub is_by : String → Event → Bool
is_by actor e = elim e.facts [
  | message author mentioned reply root ↦ author == actor
  | reaction author target ↦ author == actor
  | membership subject cause ↦ elem actor (opt_list cause)
]

-- `checked.get("thread_root_event_id")`
abbrev pub in_thread : Event → Bool
in_thread e = elim e.facts [
  | message author mentioned reply root ↦ ltb 0 (length (opt_list root))
  | _ ↦ false
]

pub data AuditOutcome : Type 0 where
  recorded exact_self_context exact_duplicate unconstructable : AuditOutcome
  route_rejected continuity_gap : AuditOutcome

pub record DeliveryAudit : Type 0 where
  pub delivery_id : String
  pub outcome : AuditOutcome
  pub event_id : Option String

-- The part of the binding and the limits that the log reads.
pub record Settings : Type 0 where
  pub actor_id : String
  pub threads_in_room : Bool
  pub retention_events : ℕ
  pub retention_bytes : ℕ
  -- the bytes of a retained entry's canonical JSON
  pub entry_bytes : String → Event → Actors → ℕ

pub record Log : Type 0 where
  pub events : List Event
  pub actors : Actors
  pub delivery_ids : List String
  pub event_ids : List String
  pub accepted_event_ids : List String
  pub delivery_by_event : List (String × String)
  pub audits : List DeliveryAudit
  pub reserved_replays : List (String × String)
  pub committed_replays : List (String × String)
  pub accounted_replays : List (String × String)
  pub arrival_seq : ℕ
  pub arrival_by_id : List (String × ℕ)
  pub gaps : List Gap
  pub evicted_before : Bool
  -- the handles of continuations
  pub continuations : List String
  -- the lines of the replay file and of the audit file, oldest first
  pub replay_file : List (String × String)
  pub audit_file : List DeliveryAudit

-- The fields that `__init__` sets, with empty files
unfoldable pub new_log : Settings → Actor → Log
new_log c self = record {
  events = [];
  actors = (c.actor_id, self) ∷ [];
  delivery_ids = [];
  event_ids = [];
  accepted_event_ids = [];
  delivery_by_event = [];
  audits = [];
  reserved_replays = [];
  committed_replays = [];
  accounted_replays = [];
  arrival_seq = 0;
  arrival_by_id = [];
  gaps = [];
  evicted_before = false;
  continuations = [];
  replay_file = [];
  audit_file = [];
}
