-- ===== src/Gaps/Examples.antt =====
-- A gap added at the position of an older one.
use nunchi.Gaps.View.{gaps_in_view-Memᴰ, InView}
use nunchi.Prelude.{some, List, arith, ◌∷◌, length, [], ◌≡◌, ◌≤◌, refl, ◌↔◌}
use mathlib.Core.List.{Memᴰ}
use nunchi.Gaps.{Gap, some, with_gap, insert_gap, max_gaps, arrival_of, gaps_in_view, Arrivals}
use nunchi.Gaps.Order.{with_gap_lem, Ascends}
use nunchi.Gaps.Kept.{with_gap-Covers, Covers}

abbrev old_gap : Gap
old_gap = record { at = 70; arrival = 4; after = some "m4" }

abbrev later_gap : Gap
later_gap = record { at = 90; arrival = 9; after = some "m9" }

abbrev new_gap : Gap
new_gap = record { at = 60; arrival = 4; after = some "m4" }

abbrev two_gaps : List Gap
two_gaps = old_gap ∷ later_gap ∷ []

two_gaps-Ascends : Ascends 0 two_gaps
two_gaps-Ascends = (omega arith, (omega arith, tt))

-- One gap for one position, with the later time.
with_gap_test : with_gap two_gaps new_gap ≡ record new_gap { at = 70 } ∷ later_gap ∷ []
unfolding with_gap insert_gap
with_gap_test = refl

with_gap_lem_example :
    Ascends 0 (with_gap two_gaps new_gap) × (length (with_gap two_gaps new_gap) ≤ max_gaps)
with_gap_lem_example = with_gap_lem two_gaps new_gap two_gaps-Ascends

with_gap-Covers_example : Covers old_gap (with_gap two_gaps new_gap)
with_gap-Covers_example =
    with_gap-Covers two_gaps new_gap old_gap two_gaps-Ascends (Memᴰ.tail (Memᴰ.head refl))

abbrev kept_events : Arrivals
kept_events = ("m4", 4) ∷ ("m5", 5) ∷ ("m12", 12) ∷ []

-- A reading of the messages at the positions 4 and 5 shows the gap at 4, and one of the message at
-- 12 does not.
gaps_in_view_test :
    (gaps_in_view (old_gap ∷ []) kept_events ("m4" ∷ "m5" ∷ []) ≡ old_gap ∷ [])
    × (gaps_in_view (old_gap ∷ []) kept_events ("m12" ∷ []) ≡ [])
unfolding gaps_in_view arrival_of
gaps_in_view_test = (refl, refl)

gaps_in_view-Memᴰ_example :
    Memᴰ old_gap (gaps_in_view two_gaps kept_events ("m4" ∷ "m5" ∷ []))
    ↔ (Memᴰ old_gap two_gaps × InView kept_events ("m4" ∷ "m5" ∷ []) old_gap.arrival)
gaps_in_view-Memᴰ_example = gaps_in_view-Memᴰ two_gaps old_gap kept_events ("m4" ∷ "m5" ∷ [])
