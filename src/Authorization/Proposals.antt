-- ===== src/Authorization/Proposals.antt =====
-- The participant's proposals and the approvals that wait: `_note_proposal`, `_expire_waiting`,
-- `proposals`, `withdraw`, `pending_for_operator` and `cancel` of src/nunchi/authorization.py.
-- The dicts keep their order of insertion; `_noting` is the id of the record that it aliases.
pub mod Once
use nunchi.Prelude.{
  ℕ, List, String, Option, ◌∷◌, drop, none, Bool, if◌then◌else◌, [], ◌==◌, length, true, false, not,
  string_has_eq, ◌-◌, some, ◌||◌, leb,
}
use nunchi.Authorization.Types.{
  World, Proposal, Status, Binding, PendingApproval, Core, TransportResult, failed_status,
  expired_status, withdrawn, Origin, cancelled, awaiting_approval, sent,
}
use nunchi.Authorization.Exec.{Exec, modify, pure, ◌>>=◌, ◌>>◌, gets, ask}
use nunchi.Authorization.Effects.{failure, is_set, now}

abbrev pub kept_proposals : ℕ
kept_proposals = 16

unfoldable pub put_proposal : Proposal → List Proposal → List Proposal
put_proposal r [] = r ∷ []
put_proposal r (q ∷ qs) = if q.proposal_id == r.proposal_id then r ∷ qs else q ∷ put_proposal r qs

-- `popitem(last=False)` while there are too many
abbrev pub newest : List Proposal → List Proposal
newest ps = drop (length ps - kept_proposals) ps

unfoldable pub note_proposal : String → Binding → ℕ → Core → Core
unfolding put_proposal
note_proposal request_id b requested_at c = record c {
  proposals = newest (
      put_proposal
        (record {
          proposal_id = request_id;
          about_event_id = b.origin_event_id;
          capability = b.capability;
          status = failed_status;
          at = requested_at;
        })
        c.proposals);
  noting = some request_id;
}

unfoldable pub find_proposal : String → List Proposal → Option Proposal
find_proposal id [] = none
find_proposal id (p ∷ ps) = if p.proposal_id == id then some p else find_proposal id ps

unfoldable pub set_status : String → Status → List Proposal → List Proposal
set_status id st [] = []
set_status id st (p ∷ ps) =
    if p.proposal_id == id then record p { status = st } ∷ ps else p ∷ set_status id st ps

abbrev pub is_awaiting : Status → Bool
is_awaiting awaiting_approval = true
is_awaiting _ = false

abbrev pub awaits : Option Proposal → Bool
awaits none = false
awaits (some p) = is_awaiting p.status

-- `if record is not None and record["status"] == "awaiting_approval": record["status"] = st`
unfoldable pub settle_waiting : String → Status → List Proposal → List Proposal
unfolding find_proposal set_status
settle_waiting id st ps = if awaits (find_proposal id ps) then set_status id st ps else ps

unfoldable pub put_pending :
    String → PendingApproval → List (String × PendingApproval) → List (String × PendingApproval)
put_pending id a [] = (id, a) ∷ []
put_pending id a ((j, b) ∷ rest) =
    if j == id then (id, a) ∷ rest else (j, b) ∷ put_pending id a rest

unfoldable pub pop_pending :
    String → List (String × PendingApproval) → List (String × PendingApproval)
pop_pending id [] = []
pop_pending id ((j, b) ∷ rest) =
    let left = pop_pending id rest in if j == id then left else (j, b) ∷ left

unfoldable pub find_pending : String → List (String × PendingApproval) → Option PendingApproval
find_pending id [] = none
find_pending id ((j, b) ∷ rest) = if j == id then some b else find_pending id rest

unfoldable pub expire_one : String → PendingApproval → Core → Core
unfolding pop_pending settle_waiting
expire_one id item c = record c {
  pending = pop_pending id c.pending;
  proposals = settle_waiting item.request.request_id expired_status c.proposals;
}

unfoldable pub expire_each : World → ℕ → List (String × PendingApproval) → Exec (Unit {0})
expire_each w t [] = pure tt
expire_each w t ((id, item) ∷ rest) = do
  over ← is_set w item.cancel
  if over || leb item.challenge.expires_at t then modify (expire_one id item) else pure tt
  expire_each w t rest

unfoldable pub expire_waiting : World → ℕ → Exec (Unit {0})
expire_waiting w t = do items ← gets (λ c. c.pending); expire_each w t items

unfoldable pub proposals : World → Exec (List Proposal)
proposals w = do t ← now w; expire_waiting w t; gets (λ c. c.proposals)

-- Of a turn's wake: the participant and the room that it names.
pub record WakeFacts : Type 0 where
  pub participant_id : String
  pub room_id : String
  pub continuity_scope_id : String

unfoldable pub drop_request :
    String → List (String × PendingApproval) → List (String × PendingApproval)
drop_request id [] = []
drop_request id ((j, b) ∷ rest) =
    let left = drop_request id rest in if b.request.request_id == id then left else (j, b) ∷ left

unfoldable pub withdraw_waiting : String → Core → Core
unfolding drop_request set_status
withdraw_waiting id c = record c {
  pending = drop_request id c.pending;
  proposals = set_status id withdrawn c.proposals;
}

unfoldable pub withdraw : World → String → WakeFacts → Exec TransportResult
withdraw w proposal_id wake =
    if not (wake.participant_id == w.room.participant_id) || not (wake.room_id == w.room.room_id)
    then pure (failure "withdrawal binding does not match this participant")
    else do
      t ← now w
      expire_waiting w t
      waiting ← gets (λ c. awaits (find_proposal proposal_id c.proposals))
      if not waiting then pure (failure "the proposal is not awaiting approval") else do
        modify (withdraw_waiting proposal_id)
        pure (record { delivery = sent; detail = "privileged proposal withdrawn" })

-- What an operator is shown of each waiting approval, with the origin event as it is now.
unfoldable pub show_each :
    World → List (String × PendingApproval) → Exec (List (PendingApproval × Option Origin))
show_each w [] = pure []
show_each w ((id, item) ∷ rest) = do
  origin ← ask (λ n. w.resolve n item.request.binding.origin_event_id)
  others ← show_each w rest
  pure ((item, origin) ∷ others)

unfoldable pub pending_for_operator : World → Exec (List (PendingApproval × Option Origin))
pending_for_operator w = do
  t ← now w
  expire_waiting w t
  items ← gets (λ c. c.pending)
  show_each w items

unfoldable pub cancel_each : List (String × PendingApproval) → List Proposal → List Proposal
unfolding settle_waiting
cancel_each [] ps = ps
cancel_each ((id, item) ∷ rest) ps =
    cancel_each rest (settle_waiting item.request.request_id cancelled ps)

-- `cancel`, and `restart`, which is the same method
unfoldable pub cancel : Exec (Unit {0})
unfolding cancel_each
cancel = modify (λ c. record c { proposals = cancel_each c.pending c.proposals; pending = [] })
