-- ===== src/RoomView/Examples.antt =====
-- A turn that looks too often.
use nunchi.Prelude.{List, ◌∷◌, some, [], false, none, ◌≡◌, ◌≤◌, refl}
use nunchi.RoomView.{Page, Direction, older, expand, new_view, see_all, new_messages, steering_news}
use nunchi.RoomView.Caps.{Call, pages_bounded, pages, is_older, is_new, expand_by}
use nunchi.RoomView.Seen.{expand-IsSeen, IsSeen}

abbrev one_page : Page
one_page = record { events = record { id = "m0"; body = "hi" } ∷ []; gap_times = []; note = none }

abbrev look : Direction → Call
look d = record {
  observation = λ _. some one_page;
  guard_raises = false;
  direction = d;
  anchor_event_id = none;
  max_events = none;
  max_bytes = none;
}

abbrev look_back : Call
look_back = look (older "before")

abbrev looks : List Call
looks =
    look_back
    ∷ look_back
    ∷ look_back
    ∷ look_back
    ∷ look_back
    ∷ look new_messages
    ∷ look steering_news
    ∷ []

looks_test :
    (pages is_older (new_view "m1" 0 ("m1" ∷ [])) looks ≡ 4)
    × (pages is_new (new_view "m1" 0 ("m1" ∷ [])) looks ≡ 1)
unfolding pages expand new_view see_all
looks_test = (refl, refl)

pages_bounded_example :
    (pages is_older (new_view "m1" 0 ("m1" ∷ [])) looks ≤ 4)
    × (pages is_new (new_view "m1" 0 ("m1" ∷ [])) looks ≤ 8)
pages_bounded_example = pages_bounded "m1" 0 ("m1" ∷ []) looks

expand-IsSeen_example :
    IsSeen
      (new_view "m1" 0 ("m1" ∷ []))
      (expand_by look_back (new_view "m1" 0 ("m1" ∷ []))).0
      (expand_by look_back (new_view "m1" 0 ("m1" ∷ []))).1
expand-IsSeen_example = expand-IsSeen look_back (new_view "m1" 0 ("m1" ∷ []))
