-- ===== src/Memory/Examples.antt =====
-- A room in which the participant answers one message and another agent answers the participant.
use nunchi.Memory.Answers.{IsAnswer, AllDistinct, answered-IsAnswer}
use nunchi.Observation.Retention.{lookup}
use nunchi.Observation.Select.{index_of}
use nunchi.Memory.Linked.{IsThread, threads-IsThread}
use nunchi.Memory.ThreadFacts.{threads, is_message_event, link}
use nunchi.Memory.Pairing.{answered}
use nunchi.Prelude.{
  none, some, [], ◌∷◌, refl, String, List, length, Option, map, ◌≤◌, ℕ, ◌≡◌, All, keep,
}
use nunchi.Observation.Types.{message, Event}
use nunchi.Memory.{
  message_sent, Texts, Sizes, Found, List, Memory, new_memory, record_origin, record_judgment,
  record_silence, excerpt,
}
use nunchi.Memory.Bounded.{
  silence, origin, judgment, FitsSizes, Call, memory_after, memory_after-FitsSizes,
}

-- Texts of the examples are short and have no blanks.
abbrev as_is : Texts
as_is = record { squeeze = λ s. s; size = λ s. 1; cut = λ n s. s }

abbrev sizes : Sizes
sizes = record {
  own_moves = 8;
  max_silences = 3;
  max_threads = 6;
  max_judgments = 64;
  max_age = 1000000;
}

abbrev said_by : String → String → Option String → ℕ → String → Event
said_by id author reply t text = record {
  id = id;
  timestamp = some t;
  facts = message author [] reply none;
  text = text;
}

abbrev room : List Event
room =
    said_by "m1" "ann" none 1000 "when?"
    ∷ said_by "m2" "ben" none 2000 "hello"
    ∷ said_by "m3" "me" none 3000 "friday"
    ∷ said_by "m4" "ben" (some "m3") 4000 "thanks"
    ∷ []

abbrev asked : Found
asked = record {
  conversation = 900000;
  asks = 800000;
  first_addressee = ("participant", 100000);
  addressees = ("room", 700000) ∷ ("someone_else", 200000) ∷ ("nobody", 0) ∷ [];
  responds_to = none;
  answered_by = none;
}

abbrev calls : List Call
calls =
    silence "m2" 2500 none
    ∷ judgment "m1" asked
    ∷ origin (message_sent none (some "m1") "friday") none (some 2900)
    ∷ []

abbrev remembered : Memory
remembered = memory_after as_is sizes calls new_memory

-- The post is paired by its words with the message that it answered.
answered_test : answered as_is room "me" remembered.origins ≡ ("m3", "m1") ∷ []
unfolding answered memory_after record_origin record_judgment record_silence excerpt index_of
answered_test = refl

-- The question's thread has the participant's answer, and the answer's thread what came after it.
threads_test :
    map (λ t. t.head_id) (threads as_is sizes room "me" 5000 none remembered) ≡ "m1" ∷ "m3" ∷ []
unfolding threads lookup memory_after record_origin record_judgment record_silence link index_of
threads_test = refl

answered-IsAnswer_example :
    All (IsAnswer as_is room "me" remembered.origins) (answered as_is room "me" remembered.origins)
    × AllDistinct (answered as_is room "me" remembered.origins)
    × (length (answered as_is room "me" remembered.origins) ≤ length remembered.origins)
answered-IsAnswer_example = answered-IsAnswer as_is room "me" remembered.origins

threads-IsThread_example :
    (length (threads as_is sizes room "me" 5000 none remembered) ≤ 6)
    × All
        (IsThread (keep is_message_event room))
        (threads as_is sizes room "me" 5000 none remembered)
threads-IsThread_example = threads-IsThread as_is sizes room "me" 5000 none remembered

memory_after-FitsSizes_example : FitsSizes sizes (memory_after as_is sizes calls new_memory)
memory_after-FitsSizes_example = memory_after-FitsSizes as_is sizes calls
