-- ===== src/Reactions.antt =====
-- Which text is one emoji: src/nunchi/reactions.py, `_within`, `_pictograph`, `_emoji_part` and
-- `is_one_emoji`, and what a room lets a participant do with reactions, `ReactionCapability`.
-- A text is the list of its code points. `is_one_emoji` is given a text, never another value.
pub mod Tables
mod Ranges
mod Joined
mod Examples
use nunchi.Prelude.{
  ℕ, List, Bool, ◌-◌, String, ◌∷◌, false, ◌||◌, leb, true, ◌+◌, ◌&&◌, if◌then◌else◌, ltb, suc, ◌==◌,
  [], not, any, elem, zero, nat_has_eq, string_has_eq, length,
}
use Tables.{emoji, unassigned, modifier_bases, joined_emoji, flags}

-- `bisect_right` on ascending starts: how many of them are at most `code`.
unfoldable pub bisect_right : List (ℕ × ℕ) → ℕ → ℕ
bisect_right [] code = 0
bisect_right (r ∷ rs) code = let rest = bisect_right rs code in if ltb code r.0 then 0 else suc rest

unfoldable pub end_at : ℕ → List (ℕ × ℕ) → ℕ
end_at n [] = 0
end_at zero (r ∷ rs) = r.1
end_at (suc n) (r ∷ rs) = end_at n rs

abbrev pub at_most_end : List (ℕ × ℕ) → ℕ → ℕ → Bool
at_most_end table code zero = false
at_most_end table code (suc position) = leb code (end_at position table)

unfoldable pub within : List (ℕ × ℕ) → ℕ → Bool
unfolding bisect_right end_at
within table code = at_most_end table code (bisect_right table code)

abbrev pub pictograph : ℕ → Bool
pictograph code = within emoji code || within unassigned code

abbrev pub joiner : ℕ
joiner = 8205

abbrev pub emoji_style : ℕ
emoji_style = 65039

abbrev pub keycap_mark : ℕ
keycap_mark = 8419

abbrev pub is_keycap_base : ℕ → Bool
is_keycap_base c = leb 48 c && leb c 57 || (c == 35 || c == 42)

abbrev pub is_skin_tone : ℕ → Bool
is_skin_tone c = leb 127995 c && ltb c 128000

abbrev pub is_regional : ℕ → Bool
is_regional c = leb 127462 c && leb c 127487

abbrev pub tag_flags : List (List ℕ)
tag_flags =
    (127988 ∷ 917607 ∷ 917602 ∷ 917605 ∷ 917614 ∷ 917607 ∷ 917631 ∷ [])
    ∷ (127988 ∷ 917607 ∷ 917602 ∷ 917619 ∷ 917603 ∷ 917620 ∷ 917631 ∷ [])
    ∷ (127988 ∷ 917607 ∷ 917602 ∷ 917623 ∷ 917612 ∷ 917619 ∷ 917631 ∷ [])
    ∷ []

abbrev pub most_parts : ℕ
most_parts = 4

abbrev pub longest : ℕ
longest = 16

abbrev pub same_codes : List ℕ → List ℕ → Bool
same_codes [] [] = true
same_codes (x ∷ xs) (y ∷ ys) = x == y && same_codes xs ys
same_codes _ _ = false

-- What may follow a base and its style mark.
abbrev pub tone_or_end : ℕ → List ℕ → Bool
tone_or_end base [] = true
tone_or_end base (t ∷ []) = is_skin_tone t && within modifier_bases base
tone_or_end base (t ∷ u ∷ rest) = false

abbrev pub after_base : ℕ → List ℕ → Bool
after_base base [] = true
after_base base (c ∷ rest) =
    if c == emoji_style then tone_or_end base rest else tone_or_end base (c ∷ rest)

abbrev pub is_empty : List ℕ → Bool
is_empty [] = true
is_empty (c ∷ cs) = false

unfoldable pub emoji_part : Bool → List ℕ → Bool
unfolding within
emoji_part joined [] = false
emoji_part joined (base ∷ rest) =
    if not (if joined then elem base joined_emoji else pictograph base)
    then false
    else if is_skin_tone base
    then is_empty rest
    else after_base base rest

-- A code point put before the first part of a split text.
abbrev pub onto_first : ℕ → List (List ℕ) → List (List ℕ)
onto_first c [] = (c ∷ []) ∷ []
onto_first c (p ∷ ps) = (c ∷ p) ∷ ps

-- `str.split`
unfoldable pub split : ℕ → List ℕ → List (List ℕ)
split sep [] = [] ∷ []
split sep (c ∷ cs) = let rest = split sep cs in if c == sep then [] ∷ rest else onto_first c rest

abbrev pub joined_parts : List (List ℕ) → Bool
joined_parts [] = true
joined_parts (p ∷ ps) = emoji_part true p && joined_parts ps

abbrev pub parts_are_emoji : List (List ℕ) → Bool
parts_are_emoji [] = true
parts_are_emoji (p ∷ ps) = emoji_part false p && joined_parts ps

abbrev pub is_keycap_end : List ℕ → Bool
is_keycap_end rest =
    same_codes rest (keycap_mark ∷ []) || same_codes rest (emoji_style ∷ keycap_mark ∷ [])

-- The letter of a regional indicator.
abbrev pub letter : ℕ → ℕ
letter c = c - 127462 + 65

abbrev pub is_flag : ℕ → ℕ → Bool
is_flag a b = is_regional b && any (λ f. f.0 == letter a && f.1 == letter b) flags

abbrev pub is_regional_emoji : ℕ → List ℕ → Bool
is_regional_emoji first [] = true
is_regional_emoji first (second ∷ []) = is_flag first second
is_regional_emoji first (second ∷ third ∷ rest) = false

unfoldable pub is_sequence : List ℕ → Bool
unfolding split
is_sequence value =
    if any (same_codes value) tag_flags
    then true
    else if ltb most_parts (length (split joiner value))
    then false
    else parts_are_emoji (split joiner value)

unfoldable pub is_one_emoji : List ℕ → Bool
unfolding is_sequence emoji_part
is_one_emoji [] = false
is_one_emoji (first ∷ rest) =
    if ltb longest (length (first ∷ rest))
    then false
    else if is_keycap_base first
    then is_keycap_end rest
    else if is_regional first
    then is_regional_emoji first rest
    else is_sequence (first ∷ rest)

pub record ReactionCapability : Type 0 where
  pub supported : Bool
  pub authenticated : Bool
  pub operations : List String
  pub reactions : List String

abbrev pub permits : ReactionCapability → String → Bool
permits c operation =
    c.supported && (c.authenticated && (elem operation c.operations && ltb 0 (length c.reactions)))

abbrev pub allows : ReactionCapability → String → String → Bool
allows c reaction operation =
    permits c operation && (elem "*" c.reactions || elem reaction c.reactions)
