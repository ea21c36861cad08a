-- ===== src/Memory.antt =====
-- What a participant remembers of a room: `ConversationMemory` of src/nunchi/memory.py, what the host
-- records in it. Scores are in millionths; times are milliseconds.
pub mod Pairing
pub mod ThreadFacts
mod Bounded
mod Fair
mod Paired
mod Mine
mod Answers
mod Linked
mod Examples
use nunchi.Prelude.{
  none, some, true, false, [], ◌∷◌, String, ℕ, Option, List, if◌then◌else◌, drop, Bool, ◌*◌, leb,
  ◌==◌, length, ltb, ◌-◌, string_has_eq, ◌+◌, ◌++◌,
}
use Prim.Native.String.{◌++◌ as join_text, String}

-- Python's methods of a text: `" ".join(text.split())`, `len(text)` and `text[:n].rstrip()`.
pub record Texts : Type 0 where
  pub squeeze : String → String
  pub size : String → ℕ
  pub cut : ℕ → String → String

abbrev pub text_max : ℕ
text_max = 280

abbrev pub reason_max : ℕ
reason_max = 200

-- `_excerpt`
unfoldable pub excerpt : Texts → ℕ → String → String
excerpt t limit text =
    let squeezed = t.squeeze text in
    if leb (t.size squeezed) limit then squeezed else join_text (t.cut (limit - 1) squeezed) "…"

-- `move_reason`; a text that is not blank has a text left when it is squeezed.
abbrev pub move_reason : Texts → Option String → Option String
move_reason t none = none
move_reason t (some why) = if t.squeeze why == "" then none else some (excerpt t reason_max why)

-- `_move_key`
pub data MoveKey : Type 0 where
  said : Option String → String → MoveKey
  replied : Option String → String → MoveKey
  reacted : Option String → Option String → MoveKey

-- The message that a committed message or reply answered.
pub record KeptOrigin : Type 0 where
  pub key : MoveKey
  pub answers_to : String
  pub message_id : Option String
  pub committed_at : Option ℕ

pub record Silence : Type 0 where
  pub about : String
  pub silent_at : ℕ
  pub why : Option String

pub record Posted : Type 0 where
  pub prompted_by : String
  pub words : String
  pub posted_at : ℕ
  pub why : Option String

pub record Judged : Type 0 where
  pub conversation : ℕ
  pub asks : ℕ
  pub addressed_to : String
  pub responds_to : Option String
  pub answered_by : Option String

pub record Sizes : Type 0 where
  pub own_moves : ℕ
  pub max_silences : ℕ
  pub max_threads : ℕ
  pub max_judgments : ℕ
  pub max_age : ℕ

pub record Memory : Type 0 where
  pub silences : List Silence
  pub delivered_posts : List Posted
  pub reasons : List (MoveKey × String)
  pub origins : List KeptOrigin
  -- in the order in which they were made
  pub judgments : List (String × Judged)

-- `__init__`
abbrev pub new_memory : Memory
new_memory = record {
  silences = [];
  delivered_posts = [];
  reasons = [];
  origins = [];
  judgments = [];
}

-- `append` of a deque with `maxlen`
abbrev pub push {ℓ} : {A : Type ℓ} → ℕ → A → List A → List A
push limit x xs = drop (length xs + 1 - limit) (xs ++ x ∷ [])

-- The core action of a committed move; `none` is a missing field.
pub data Action : Type 0 where
  message_sent : Option String → Option String → String → Action
  reply_sent : Option String → Option String → String → Action
  reaction_sent : Bool → Option String → Option String → Action
  other_action : Action

-- The key of the move that an action makes; the first field is its target.
abbrev pub action_key : Texts → Action → Option MoveKey
action_key t (message_sent target origin text) = some (said target (excerpt t text_max text))
action_key t (reply_sent target origin text) = some (replied target (excerpt t text_max text))
action_key t (reaction_sent true target reaction) = some (reacted target reaction)
action_key t _ = none

-- An `origin_event_id` that is a text and not empty.
abbrev pub named : Option String → Option String
named none = none
named (some id) = if id == "" then none else some id

abbrev pub action_origin : Action → Option String
action_origin (message_sent target origin text) = named origin
action_origin (reply_sent target origin text) = named origin
action_origin _ = none

-- `record_silence`; `none` is a ValueError.
unfoldable pub record_silence : Texts → Sizes → String → ℕ → Option String → Memory → Option Memory
record_silence t s about at why m =
    if about == ""
    then none
    else some (record m {
      silences =
          push s.max_silences (record { about = about; silent_at = at; why = move_reason t why })
            m.silences;
    })

abbrev pub with_reason : ℕ → Option MoveKey → Option String → Memory → Memory
with_reason limit (some key) (some reason) m = record m {
  reasons = push limit (key, reason) m.reasons;
}
with_reason limit _ _ m = m

-- `record_reason`
unfoldable pub record_reason : Texts → Sizes → Action → Option String → Memory → Memory
record_reason t s action why m =
    with_reason (s.own_moves * 2) (action_key t action) (move_reason t why) m

abbrev pub with_origin :
    ℕ → Option MoveKey → Option String → Option String → Option ℕ → Memory → Memory
with_origin limit (some key) (some origin) attested at m = record m {
  origins =
      push limit
        (record { key = key; answers_to = origin; message_id = named attested; committed_at = at })
        m.origins;
}
with_origin limit _ _ attested at m = m

-- `record_origin`
unfoldable pub record_origin : Texts → Sizes → Action → Option String → Option ℕ → Memory → Memory
record_origin t s action attested at m =
    with_origin (s.own_moves * 2) (action_key t action) (action_origin action) attested at m

abbrev pub with_posted :
    Texts → Sizes → Option String → String → Option String → ℕ → Memory → Memory
with_posted t s none text why at m = m
with_posted t s (some origin) text why at m = record m {
  delivered_posts =
      push s.own_moves
        (record {
          prompted_by = origin;
          words = excerpt t text_max text;
          posted_at = at;
          why = move_reason t why;
        })
        m.delivered_posts;
}

-- `record_delivered`
unfoldable pub record_delivered : Texts → Sizes → Action → Option String → ℕ → Memory → Memory
record_delivered t s (message_sent target origin text) why at m =
    with_posted t s (named origin) text why at m
record_delivered t s _ why at m = m

-- `max` over the addressees: the first of the highest.
abbrev pub highest : String × ℕ → List (String × ℕ) → String
highest best [] = best.0
highest best (a ∷ rest) = if ltb best.1 a.1 then highest a rest else highest best rest

unfoldable pub forget_judgment : String → List (String × Judged) → List (String × Judged)
forget_judgment id [] = []
forget_judgment id ((k, j) ∷ rest) =
    let others = forget_judgment id rest in if k == id then others else (k, j) ∷ others

-- What the attention model found about a message: the addressees' scores stand in the order of
-- ANSWER_ADDRESSEES, the first one apart.
pub record Found : Type 0 where
  pub conversation : ℕ
  pub asks : ℕ
  pub first_addressee : String × ℕ
  pub addressees : List (String × ℕ)
  pub responds_to : Option String
  pub answered_by : Option String

abbrev pub judged_of : Found → Judged
judged_of f = record {
  conversation = f.conversation;
  asks = f.asks;
  addressed_to = highest f.first_addressee f.addressees;
  responds_to = named f.responds_to;
  answered_by = named f.answered_by;
}

-- `record_judgment`; `none` is a ValueError.
unfoldable pub record_judgment : Sizes → String → Found → Memory → Option Memory
unfolding forget_judgment
record_judgment s id found m =
    if id == ""
    then none
    else let kept = forget_judgment id m.judgments in
      some (record m { judgments = push s.max_judgments (id, judged_of found) kept })

-- `restart`
unfoldable pub restart : Memory → Memory
restart m = new_memory
