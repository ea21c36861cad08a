-- ===== src/RoomView.antt =====
-- The participant's view of the room in one turn: src/nunchi/participant.py, `RoomView.expand`.
-- The observation's `read_room` is an argument: it answers a query by a page, or raises. The guard's
-- answer is an argument of each call. A fork is a new view.
mod Caps
mod Seen
mod Examples
use nunchi.Prelude.{
  ℕ, String, List, Option, [], Bool, false, if◌then◌else◌, ◌∷◌, some, ◌++◌, elem, ◌==◌, none, leb,
  string_has_eq, ◌+◌, true,
}

pub record Event : Type 0 where
  pub id : String
  pub body : String

-- `older` stands for each direction but `new` and `news`, by its name.
pub data Direction : Type 0 where
  new_messages : Direction
  steering_news : Direction
  older : String → Direction

pub record Query : Type 0 where
  pub direction : String
  pub anchor_event_id : Option String
  pub seen_event_ids : List String
  pub since_arrival : ℕ
  pub max_events : ℕ
  pub max_bytes : ℕ

pub record Page : Type 0 where
  pub events : List Event
  pub gap_times : List String
  pub note : Option String

abbrev pub Observation : Type 0
Observation = Query → Option Page

pub record RoomView : Type 0 where
  pub trigger_event_id : String
  pub turn_began : ℕ
  pub expansion_calls : ℕ
  pub new_checks : ℕ
  pub limit_noted : Bool
  pub seen_event_ids : List String
  pub seen_events : List (String × String)
  pub gaps_seen : List String

abbrev pub max_context_expansions : ℕ
max_context_expansions = 3

abbrev pub max_new_checks : ℕ
max_new_checks = 8

-- `__init__`, with the events that the wake shows
unfoldable pub new_view : String → ℕ → List String → RoomView
new_view trigger began shown = record {
  trigger_event_id = trigger;
  turn_began = began;
  expansion_calls = 0;
  new_checks = 0;
  limit_noted = false;
  seen_event_ids = shown;
  seen_events = [];
  gaps_seen = [];
}

pub data Answer : Type 0 where
  -- the guard, or `read_room`, raised
  stopped : Answer
  new_cap_exceeded : Answer
  expansion_cap_exceeded : Answer
  page_of : Page → Answer

-- Adding to a set, and writing a dict's entry.
abbrev pub add_id : String → List String → List String
add_id id ids = if elem id ids then ids else id ∷ ids

abbrev pub put_event : String → String → List (String × String) → List (String × String)
put_event id body [] = (id, body) ∷ []
put_event id body ((k, old) ∷ rest) =
    let others = put_event id body rest in if k == id then (k, body) ∷ rest else (k, old) ∷ others

-- The loop over a page's events.
unfoldable pub see_all : List Event → RoomView → RoomView
see_all [] v = v
see_all (e ∷ es) v = see_all es (record v {
  seen_event_ids = add_id e.id v.seen_event_ids;
  seen_events = put_event e.id e.body v.seen_events;
})

abbrev pub limit_page : Page
limit_page = record {
  events = [];
  gap_times = [];
  note =
      some
        "You have looked at the room's history 3 times this turn, the limit. Act on what you have seen.";
}

abbrev query_of : Option String → ℕ → ℕ → Direction → RoomView → Query
query_of anchor max_events max_bytes (older name) v = record {
  direction = name;
  anchor_event_id = some (elim anchor [
    | none ↦ v.trigger_event_id
    | some a ↦ if a == "" then v.trigger_event_id else a
  ]);
  seen_event_ids = v.seen_event_ids;
  since_arrival = v.turn_began;
  max_events = max_events;
  max_bytes = max_bytes;
}
query_of anchor max_events max_bytes _ v = record {
  direction = "new";
  anchor_event_id = none;
  seen_event_ids = v.seen_event_ids;
  since_arrival = v.turn_began;
  max_events = max_events;
  max_bytes = max_bytes;
}

-- Only a page of older messages reaches the participant whole, so only its gaps are read.
abbrev note_gaps : Direction → List String → RoomView → RoomView
note_gaps (older name) times v = record v { gaps_seen = v.gaps_seen ++ times }
note_gaps _ times v = v

take_page : Direction → Option Page → RoomView → Answer × RoomView
take_page d none v = (stopped, v)
take_page d (some p) v = (page_of p, note_gaps d p.gap_times (see_all p.events v))

read_page : Observation → Option String → ℕ → ℕ → Direction → RoomView → Answer × RoomView
unfolding take_page
read_page observation anchor max_events max_bytes d v =
    take_page d (observation (query_of anchor max_events max_bytes d v)) v

-- After the guard, with the caps.
expand_within : Observation → Option String → ℕ → ℕ → Direction → RoomView → Answer × RoomView
unfolding read_page
expand_within o anchor events bytes steering_news v =
    read_page o anchor events bytes steering_news v
expand_within o anchor events bytes new_messages v =
    if leb max_new_checks v.new_checks
    then (new_cap_exceeded, v)
    else read_page o anchor events bytes new_messages (record v { new_checks = v.new_checks + 1 })
expand_within o anchor events bytes (older name) v =
    if leb max_context_expansions v.expansion_calls
    then (if v.limit_noted
        then (expansion_cap_exceeded, v)
        else (page_of limit_page, record v { limit_noted = true }))
    else read_page o anchor events bytes (older name)
        (record v { expansion_calls = v.expansion_calls + 1 })

-- A call: whether the guard raises, the direction, the anchor and the two sizes (12 and 16384 where
-- the argument is no whole number).
unfoldable pub expand :
    Observation
    → Bool
    → Direction
    → Option String
    → Option ℕ
    → Option ℕ
    → RoomView
    → Answer × RoomView
unfolding expand_within
expand o guard_raises d anchor events bytes v =
    if guard_raises
    then (stopped, v)
    else expand_within o anchor (elim events [ none ↦ 12 | some n ↦ n ])
        (elim bytes [ none ↦ 16384 | some n ↦ n ]) d v
