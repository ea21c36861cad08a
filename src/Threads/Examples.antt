-- ===== src/Threads/Examples.antt =====
-- A lookup that fails, and one that finds a thread's parent.
use nunchi.Prelude.{String, List, Bool, ◌∷◌, arith, true, [], none, ◌≡◌, refl, false, some}
use nunchi.Threads.{parent_of, new_directory, rest_failed, channel, raised, parent}
use nunchi.Threads.Again.{parent_of_again}
use nunchi.Threads.Memory.{parent_of-IsSmall, IsSmall}

abbrev digits : String → Bool
digits id = true

abbrev routed : List String
routed = "7" ∷ []

-- The answers of a failed lookup, of a question ten seconds later, and of a lookup after the memory.
parent_of_test :
    let once = parent_of digits routed "9" 100 101 (rest_failed none "down") new_directory in
    ((parent_of digits routed "9" 110 110 (channel 11 "7") once.2).0 ≡ raised none "down")
    × ((parent_of digits routed "9" 140 140 (channel 11 "7") once.2).0 ≡ parent (some "7"))
unfolding parent_of
parent_of_test = (refl, refl)

asked_once : (parent_of digits routed "9" 100 101 (rest_failed none "down") new_directory).1 ≡ true
unfolding parent_of
asked_once = refl

parent_of_again_example :
    parent_of digits routed "9" 110 110
      (channel 11 "7")
      (parent_of digits routed "9" 100 101 (rest_failed none "down") new_directory).2
    ≡ (
      (parent_of digits routed "9" 100 101 (rest_failed none "down") new_directory).0,
      false,
      (parent_of digits routed "9" 100 101 (rest_failed none "down") new_directory).2,
    )
parent_of_again_example =
    parent_of_again digits routed "9" 100 101 110 110 (rest_failed none "down") (channel 11 "7")
      new_directory asked_once (omega arith) (omega arith)

new_directory-IsSmall : IsSmall new_directory
new_directory-IsSmall = record { known = omega arith; failures = omega arith }

parent_of-IsSmall_example :
    IsSmall (parent_of digits routed "9" 100 101 (channel 11 "7") new_directory).2
parent_of-IsSmall_example =
    parent_of-IsSmall digits routed "9" 100 101 (channel 11 "7") new_directory new_directory-IsSmall
