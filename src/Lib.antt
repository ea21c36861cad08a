-- ===== src/Lib.antt =====
-- Nunchi lets an agent take part in a chat room as one of its participants. A room's events wait for
-- one opportunity at a time; in a turn the agent reads the room and acts; an action with an effect
-- outside the room needs authority; and what was decided is written to journals.
--
-- The parts, and the files that model them:
--
-- - Scheduler: `ConversationOpportunityScheduler` of src/nunchi/participant.py. Its methods are the
--   functions of the same names; its state and the heap of the cancel events that it shares with
--   its tokens are one record. Scheduler/Invariant has the histories of its methods, in
--   which a dispatcher of `commit_dispatch` may itself call them.
-- - Authorization: src/nunchi/authorization.py. Types has its records and, as `World`, all that it asks
--   of the outside: clocks, the policy source, the room's log, durable writes, executors, fresh
--   identifiers and digests, each the answer to its n-th question, an exception included. Exec is the
--   monad of its state, its exceptions and its questions. Policy is `_matching_rule` and `_evaluate`,
--   Journal is `AuthorizationJournal` in memory, Effects and Dispatch are `_dispatch_once`,
--   `_dispatch_approved_once` and `_retry_unknown_effect`, whose common shape is written once with
--   the authority and the words of each as arguments. Proposals, Binding, Coordinator and Approval
--   are the other methods. The files named Once follow one effect through each of them. Where the
--   source leaves out a question by short circuit the model asks it and drops the answer.
-- - RateLimit: src/nunchi/mcp_discord/ratelimit.py, `RateLimiter` without `after_response`, and
--   `SendBackstop`.
-- - Gaps: the continuity gaps of src/nunchi/observation.py, `_Gap`, `_with_gap`, `_gaps_in_view`,
--   `_coverage_of`, `gaps_told` and `gaps_pending`.
-- - Observation: `ObservationProvider` of src/nunchi/observation.py. Types has its state as a record, with
--   the lines of its two line files; Retention is `_append_memory` and `_trim_retention`, Audit the
--   durable facts around a delivery, with an answer of the disk for each write, Observe is `observe`,
--   and Reopen is `__init__` over the files of an older process, with `_load`, the two indexes and
--   `_restore_gaps`. Select is `_selected_indices`, with sets of indices as lists in their order. Runs
--   has histories of a room; Keeps is the rule by which a property of the log is
--   kept by all of `observe`.
-- - Memory: `ConversationMemory` of src/nunchi/memory.py, its records and its `threads`; Pairing is
--   `_answered`. Python's methods of a text are an argument.
-- - Reactions: src/nunchi/reactions.py, which texts are one emoji, with its tables.
-- - Receipts: src/nunchi/receipts.py, `append` and `next_stage`, with the streams of
--   src/nunchi/v2_contracts.py. The checks of a stage's body are an argument.
-- - RoomView: src/nunchi/participant.py, `RoomView.expand`, with `read_room` as an argument.
-- - Threads: src/nunchi/mcp_discord/threads.py, `ThreadDirectory`, with the REST call's answer as an
--   argument.
-- - Prelude: names, tests and lemmas that the others share. The files named Examples run the parts.
--
-- The scheduler gives its token's cancel event to the coordinator as the event of a lifetime; the
-- coordinator reads the room's log by its observation provider. Each method holds its object's lock,
-- so a history of a part is a sequence of its methods.
--
-- Bounds: numbers are natural numbers, as Python's are unbounded; a difference that the source cuts
-- at 0 is cut at 0. Times are numbers of ticks. Loops have fuel where a round takes an item away: the
-- loop that merges the oldest gaps, and the two loops of the retention, so the list's length is
-- enough; in the search for the time of a new gap, where each round passes a time that is taken; and
-- in a selection's loops over relations and bytes, with one round for each event.
--
-- Not modelled: how lines are written and read as JSON, the checks of JSON documents, a receipt's body
--   among them, the floats of the rate limit's headers, the snapshot's
-- document and the pages of the log, what the memory tells of own moves, the participant's host,
-- attention, the model services, the platform adapters and the servers around them.
pub mod Prelude
pub mod Scheduler
pub mod Authorization
pub mod RateLimit
pub mod Gaps
pub mod Reactions
pub mod Receipts
pub mod RoomView
pub mod Threads
pub mod Observation
pub mod Memory
