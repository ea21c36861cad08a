-- ===== src/Memory/ThreadFacts.antt =====
-- The threads that a turn is told of: `ConversationMemory.threads` of src/nunchi/memory.py, over the
-- events of the room's log. Two events do not have one id there.
use nunchi.Observation.Audit.{has_pair}
use nunchi.Observation.Retention.{lookup, has_key}
use nunchi.Memory.Pairing.{Pairs, answered}
use nunchi.Memory.{Texts, Sizes, named, Judged, excerpt, Memory, KeptOrigin, text_max}
use nunchi.Observation.Select.{event_at, index_of}
use nunchi.Prelude.{
  none, some, true, false, [], ◌∷◌, ℕ, List, Option, String, Bool, ◌==◌, ltb, string_has_eq,
  if◌then◌else◌, not, ◌+◌, keep, ◌&&◌, ◌++◌, take, drop, length, ◌-◌,
}
use nunchi.Observation.Types.{message, Event}

abbrev pub max_responses : ℕ
max_responses = 4

abbrev pub half_score : ℕ
half_score = 500000

abbrev pub is_message_event : Event → Bool
is_message_event e = elim e.facts [ message author mentioned reply root ↦ true | _ ↦ false ]

abbrev pub author_of : Event → String
author_of e = elim e.facts [ message author mentioned reply root ↦ author | _ ↦ "" ]

abbrev pub reply_of : Event → Option String
reply_of e = elim e.facts [ message author mentioned reply root ↦ named reply | _ ↦ none ]

abbrev pub author_at : List Event → ℕ → String
author_at messages i = elim (event_at i messages) [ none ↦ "" | some e ↦ author_of e ]

-- `link`: the pair, if it links.
unfoldable pub link : List Event → String → String → Pairs
unfolding event_at
link messages head response = elim (index_of head messages) [
  | none ↦ []
  | some i ↦ elim (index_of response messages) [
    | none ↦ []
    | some j ↦
        if ltb i j && not (author_at messages i == author_at messages j)
        then (head, response) ∷ []
        else []
  ]
]

abbrev pub link_to : List Event → Option String → String → Pairs
link_to messages none response = []
link_to messages (some head) response = link messages head response

abbrev pub is_excluded : Option String → String → Bool
is_excluded none id = false
is_excluded (some e) id = e == id

abbrev pub judged_head : Option Judged → Option String
judged_head none = none
judged_head (some j) = j.responds_to

-- Links that a message's reply and its judgment say.
unfoldable pub own_links : List Event → Option String → List (String × Judged) → List Event → Pairs
own_links messages excluded judgments [] = []
own_links messages excluded judgments (e ∷ es) =
    let rest = own_links messages excluded judgments es in
    if is_excluded excluded e.id
    then rest
    else link_to messages (reply_of e) e.id
      ++ (link_to messages (judged_head (lookup e.id judgments)) e.id ++ rest)

-- Links that a judgment's `answered_by` says; a message that is not there links nothing.
unfoldable pub answer_links : List Event → Option String → List (String × Judged) → Pairs
answer_links messages excluded [] = []
answer_links messages excluded ((id, j) ∷ rest) =
    let others = answer_links messages excluded rest in
    elim j.answered_by [
      | none ↦ others
      | some response ↦
          if is_excluded excluded response then others else link messages id response ++ others
    ]

-- Links of the participant's own messages, by `_answered`.
unfoldable pub paired_links : List Event → Option String → Pairs → Pairs
paired_links messages excluded [] = []
paired_links messages excluded ((response, head) ∷ rest) =
    let others = paired_links messages excluded rest in
    if is_excluded excluded response then others else link messages head response ++ others

unfoldable pub all_links :
    Texts → List Event → String → Option String → List (String × Judged) → List KeptOrigin → Pairs
unfolding own_links answer_links paired_links
all_links t messages self excluded judgments origins =
    own_links messages excluded judgments messages
    ++ (answer_links messages excluded judgments
        ++ paired_links messages excluded (answered t messages self origins))

pub record Response : Type 0 where
  pub response_id : String
  pub author : String
  pub said_text : String

pub record Thread : Type 0 where
  pub head_id : String
  pub author : String
  pub head_text : String
  pub addressed_to : Option String
  pub started_at : Option ℕ
  pub responses : List Response

abbrev pub response_of : Texts → Event → Response
response_of t e = record {
  response_id = e.id;
  author = author_of e;
  said_text = excerpt t text_max e.text;
}

-- `sorted(responses, key=position)`: the linked messages, in their order.
unfoldable pub responses_to : Texts → Pairs → String → List Event → List Response
responses_to t links head [] = []
responses_to t links head (e ∷ es) =
    let rest = responses_to t links head es in
    if has_pair head e.id links then response_of t e ∷ rest else rest

abbrev pub asks_something : Option Judged → Bool
asks_something none = false
asks_something (some j) = not (ltb j.asks half_score) && not (ltb j.conversation half_score)

-- Whether a message is older than the memory goes back.
abbrev pub is_too_old : Sizes → ℕ → Option ℕ → Bool
is_too_old s now none = false
is_too_old s now (some t) = ltb (t + s.max_age) now

abbrev pub addressee_of : Bool → Option Judged → Option String
addressee_of own none = none
addressee_of own (some j) = if own then none else some j.addressed_to

abbrev pub thread_of : Texts → Pairs → List Event → Bool → Option Judged → Event → Thread
thread_of t links messages own judged e = record {
  head_id = e.id;
  author = author_of e;
  head_text = excerpt t text_max e.text;
  addressed_to = addressee_of own judged;
  started_at = e.timestamp;
  responses = take max_responses (responses_to t links e.id messages);
}

-- Whether a message starts a thread.
abbrev pub starts : Sizes → String → ℕ → Option String → Pairs → Option Judged → Event → Bool
starts s self now excluded links judged e =
    not (is_excluded excluded e.id)
    && ((if author_of e == self then has_key e.id links else asks_something judged)
        && not (is_too_old s now e.timestamp))

unfoldable pub threads_from :
    Texts
    → Sizes
    → String
    → ℕ
    → Option String
    → List (String × Judged)
    → Pairs
    → List Event
    → List Event
    → List Thread
unfolding responses_to
threads_from t s self now excluded judgments links messages [] = []
threads_from t s self now excluded judgments links messages (e ∷ es) =
    let rest = threads_from t s self now excluded judgments links messages es in
    let judged = lookup e.id judgments in
    if starts s self now excluded links judged e
    then thread_of t links messages (author_of e == self) judged e ∷ rest
    else rest

-- `threads`
unfoldable pub threads :
    Texts → Sizes → List Event → String → ℕ → Option String → Memory → List Thread
unfolding all_links threads_from
threads t s events self now excluded m =
    let messages = keep is_message_event events in
    let links = all_links t messages self excluded m.judgments m.origins in
    let found = threads_from t s self now excluded m.judgments links messages messages in
    drop (length found - s.max_threads) found
