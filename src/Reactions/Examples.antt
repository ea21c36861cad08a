-- ===== src/Reactions/Examples.antt =====
-- Emoji and texts that are none.
use nunchi.Prelude.{◌∷◌, ◌≡◌, [], any, true, ◌||◌, false, arith, refl}
use nunchi.Reactions.{is_one_emoji, emoji_part, pictograph, ◌∷◌, within}
use nunchi.Reactions.Joined.{is_one_emoji-join, join}
use nunchi.Reactions.Ranges.{within_lem, in_range}
use nunchi.Reactions.Tables.{emoji, unassigned, modifier_bases}

-- A thumbs up with a skin tone, a flag, a keycap, two emoji, and a lone digit.
emoji_test :
    (is_one_emoji (128077 ∷ 127997 ∷ []) ≡ true)
    × ((is_one_emoji (127467 ∷ 127479 ∷ []) ≡ true)
        × ((is_one_emoji (49 ∷ 65039 ∷ 8419 ∷ []) ≡ true)
            × ((is_one_emoji (128077 ∷ 128077 ∷ []) ≡ false) × (is_one_emoji (49 ∷ []) ≡ false))))
unfolding is_one_emoji
emoji_test = (refl, (refl, (refl, (refl, refl))))

-- A woman with a computer.
is_one_emoji-join_example : is_one_emoji (join ((128105 ∷ []) ∷ (128187 ∷ []) ∷ [])) ≡ true
unfolding join emoji_part
is_one_emoji-join_example =
    is_one_emoji-join 128105 [] ((128187 ∷ []) ∷ []) refl refl refl (omega arith) (omega arith)

within_lem_example :
    (pictograph 128077 ≡ (any (in_range 128077) emoji || any (in_range 128077) unassigned))
    × (within modifier_bases 128077 ≡ any (in_range 128077) modifier_bases)
within_lem_example = within_lem 128077
