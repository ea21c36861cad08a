-- ===== src/Reactions/Joined.antt =====
-- Joined emoji: parts put together with joiners, and `is_one_emoji` on them.
use nunchi.Prelude.{
  ℕ, List, ◌∷◌, All, ◌≡◌, Bool, ◌++◌, ◌≢◌, [], ◌∙◌, true, Bool-cases, ap, ◌≤◌, ◌==◌, inl, arith,
  inr, refl, nat_has_eq, false, length, ◌<◌, if◌then◌else◌, sym, ltb, not, subst, suc,
  false_is_not_true, passed_both, both,
}
use nunchi.Reactions.{
  within, split, pictograph, emoji_part, joiner, bisect_right, tone_or_end, after_base,
  joined_parts, is_sequence, is_one_emoji, end_at, emoji_style, is_regional, longest, most_parts,
  is_skin_tone, is_keycap_base,
}
use nunchi.Reactions.Ranges.{pictograph_above}

-- The parts with a joiner between each two.
unfoldable pub join : List (List ℕ) → List ℕ
join [] = []
join (p ∷ []) = p
join (p ∷ q ∷ ps) = p ++ joiner ∷ join (q ∷ ps)

abbrev HasNoJoiner : List ℕ → Type 0
HasNoJoiner p = All (λ c. c ≢ joiner) p

split-plain : (p : List ℕ) → HasNoJoiner p → split joiner p ≡ p ∷ []
unfolding split
split-plain [] h = refl
split-plain (c ∷ p) h = elim (Bool-cases (c == joiner)) [
  | inl same ↦ absurd (h.0 (ground arith))
  | inr other ↦ rw other (rw (split-plain p h.1) refl)
]

split-front :
    (p rest : List ℕ) → HasNoJoiner p → split joiner (p ++ joiner ∷ rest) ≡ p ∷ split joiner rest
unfolding split
split-front [] rest h = refl
split-front (c ∷ p) rest h = elim (Bool-cases (c == joiner)) [
  | inl same ↦ absurd (h.0 (ground arith))
  | inr other ↦ rw other (rw (split-front p rest h.1) refl)
]

split-join :
    (p : List ℕ) (ps : List (List ℕ))
    → All HasNoJoiner (p ∷ ps)
    → split joiner (join (p ∷ ps)) ≡ p ∷ ps
unfolding join
split-join p [] h = split-plain p h.0
split-join p (q ∷ ps) h =
    split-front p (join (q ∷ ps)) h.0 ∙ ap (λ qs. p ∷ qs) (split-join q ps h.1)

-- What a test that went on has shown.
passed_not : (b rest : Bool) → (if not b then false else rest) ≡ true → (b ≡ true) × (rest ≡ true)
passed_not b rest h = ground (arith, h)

joiner_is_no_base : (b : Bool) (p : List ℕ) → emoji_part b (joiner ∷ p) ≡ false
unfolding emoji_part within bisect_right end_at
joiner_is_no_base true p = refl
joiner_is_no_base false p = refl

tone_or_end-HasNoJoiner : (base : ℕ) (p : List ℕ) → tone_or_end base p ≡ true → HasNoJoiner p
tone_or_end-HasNoJoiner base [] h = tt
tone_or_end-HasNoJoiner base (t ∷ []) h = (λ e. ground (arith, h, e), tt)
tone_or_end-HasNoJoiner base (t ∷ u ∷ rest) h = absurd (false_is_not_true h)

after_base-HasNoJoiner : (base : ℕ) (p : List ℕ) → after_base base p ≡ true → HasNoJoiner p
after_base-HasNoJoiner base [] h = tt
after_base-HasNoJoiner base (c ∷ p) h = elim (Bool-cases (c == emoji_style)) [
  | inl style ↦
      (λ e. ground (arith, style, e), tone_or_end-HasNoJoiner base p (ground (arith, h, style)))
  | inr other ↦ tone_or_end-HasNoJoiner base (c ∷ p) (ground (arith, h, other))
]

if_empty : (tone rest : Bool) → (if tone then false else rest) ≡ true → rest ≡ true
if_empty tone rest h = ground (arith, h)

rest-HasNoJoiner : (b : Bool) (c : ℕ) (p : List ℕ) → emoji_part b (c ∷ p) ≡ true → HasNoJoiner p
unfolding emoji_part
rest-HasNoJoiner b c [] h = tt
rest-HasNoJoiner b c (d ∷ p) h =
    after_base-HasNoJoiner c (d ∷ p)
      ((if_empty (is_skin_tone c) (after_base c (d ∷ p)) (passed_not _ _ h).1))

emoji_part-HasNoJoiner : (b : Bool) (p : List ℕ) → emoji_part b p ≡ true → HasNoJoiner p
emoji_part-HasNoJoiner b [] h = tt
emoji_part-HasNoJoiner b (c ∷ p) h = (
  λ e.
      false_is_not_true
        (sym (joiner_is_no_base b p) ∙ (subst (λ d. emoji_part b (d ∷ p) ≡ true) e h)),
  rest-HasNoJoiner b c p h,
)

joined_parts-HasNoJoiner : (ps : List (List ℕ)) → joined_parts ps ≡ true → All HasNoJoiner ps
joined_parts-HasNoJoiner [] h = tt
joined_parts-HasNoJoiner (p ∷ ps) h = (
  emoji_part-HasNoJoiner true p (passed_both _ _ h).0,
  joined_parts-HasNoJoiner ps (passed_both _ _ h).1,
)

-- The base of a part that is not joined is a pictograph.
base_is_pictograph : (c : ℕ) (p : List ℕ) → emoji_part false (c ∷ p) ≡ true → pictograph c ≡ true
unfolding emoji_part
base_is_pictograph c p h = (passed_not (pictograph c) _ h).0

few_parts :
    (flag many rest : Bool)
    → many ≡ false
    → rest ≡ true
    → (if flag then true else if many then false else rest) ≡ true
few_parts flag many rest h k = ground (arith, h, k)

ltb_small : (ps : List (List ℕ)) → length ps < most_parts → ltb most_parts (suc (length ps)) ≡ false
ltb_small ps h = ground arith

is_sequence-join :
    (p : List ℕ) (ps : List (List ℕ))
    → emoji_part false p ≡ true
    → joined_parts ps ≡ true
    → length ps < most_parts
    → is_sequence (join (p ∷ ps)) ≡ true
unfolding is_sequence
is_sequence-join p ps h hs few =
    let parts =
      split-join p ps (emoji_part-HasNoJoiner false p h, joined_parts-HasNoJoiner ps hs) in
    rw parts (few_parts _ _ _ (ltb_small ps few) (both _ _ h hs))

-- The first part's base stands first in the joined text.
join-first :
    (c : ℕ) (p : List ℕ) (ps : List (List ℕ)) → (rest : List ℕ) × (join ((c ∷ p) ∷ ps) ≡ c ∷ rest)
unfolding join
join-first c p [] = (p, refl)
join-first c p (q ∷ ps) = (p ++ joiner ∷ join (q ∷ ps), refl)

to_last :
    (long keycap flag a b c : Bool)
    → long ≡ false
    → keycap ≡ false
    → flag ≡ false
    → (if long then false else if keycap then a else if flag then b else c) ≡ c
to_last long keycap flag a b c h k l = ground (arith, h, k, l)

is_one_emoji-sequence :
    (c : ℕ) (p : List ℕ)
    → 169 ≤ c
    → is_regional c ≡ false
    → length (c ∷ p) ≤ longest
    → is_one_emoji (c ∷ p) ≡ is_sequence (c ∷ p)
unfolding is_one_emoji
is_one_emoji-sequence c p h r l =
    to_last (ltb longest (length (c ∷ p))) (is_keycap_base c) (is_regional c) _ _ _ (ground arith)
      (ground arith) r

-- An emoji that is no regional indicator, joined with at most three pieces that follow a joiner, is
-- one emoji, when it has at most sixteen code points.
pub is_one_emoji-join :
    (base : ℕ) (p : List ℕ) (ps : List (List ℕ))
    → emoji_part false (base ∷ p) ≡ true
    → joined_parts ps ≡ true
    → is_regional base ≡ false
    → length ps < most_parts
    → length (join ((base ∷ p) ∷ ps)) ≤ longest
    → is_one_emoji (join ((base ∷ p) ∷ ps)) ≡ true
is_one_emoji-join base p ps h hs plain few short =
    let (rest, e) = join-first base p ps in
    let above = pictograph_above base (base_is_pictograph base p h) in
    subst (λ v. length v ≤ longest → is_sequence v ≡ true → is_one_emoji v ≡ true) (sym e)
      (λ l found. is_one_emoji-sequence base rest above plain l ∙ found) short
      (is_sequence-join (base ∷ p) ps h hs few)
