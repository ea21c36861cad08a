-- ===== src/Reactions/Ranges.antt =====
-- The search of `_within` beside a look at every range of a table.
use nunchi.Prelude.{
  ℕ, List, Bool, ◌∷◌, leb, ◌<◌, ◌≤◌, ◌&&◌, any, ◌≡◌, suc, false, [], arith, refl, Bool-cases, ◌||◌,
  ltb, zero, inl, sym, inr, ◌∙◌, ap, true,
}
use nunchi.Reactions.{within, bisect_right, end_at, at_most_end, pictograph}
use nunchi.Reactions.Tables.{emoji, unassigned, modifier_bases}

-- Ranges that ascend and do not meet.
abbrev pub Ascending : ℕ → List (ℕ × ℕ) → Type 0
Ascending b [] = Unit
Ascending b (r ∷ rs) = (b ≤ r.0) × ((r.0 ≤ r.1) × Ascending (suc r.1) rs)

abbrev pub in_range : ℕ → ℕ × ℕ → Bool
in_range code r = leb r.0 code && leb code r.1

none_below :
    (b : ℕ) (table : List (ℕ × ℕ)) (code : ℕ)
    → Ascending b table
    → code < b
    → (any (in_range code) table ≡ false) × (bisect_right table code ≡ 0)
unfolding bisect_right
none_below b [] code a h = (refl, refl)
none_below b (r ∷ rs) code a h =
    let ih = none_below (suc r.1) rs code a.1.1 (omega arith) in
    (ground (arith, ih.0), ground arith)

-- How the search goes on after the first range, by what it finds in the others.
after_first :
    (r : ℕ × ℕ) (rs : List (ℕ × ℕ)) (code n : ℕ)
    → r.0 ≤ code
    → (code < suc r.1 → n ≡ 0)
    → at_most_end (r ∷ rs) code (suc n) ≡ (in_range code r || at_most_end rs code n)
unfolding end_at
after_first r rs code zero h below = ground arith
after_first r rs code (suc n) h below = ground (arith, below)

search_lem :
    (b : ℕ) (table : List (ℕ × ℕ)) (code : ℕ)
    → Ascending b table
    → within table code ≡ any (in_range code) table
unfolding within bisect_right end_at
search_lem b [] code a = refl
search_lem b (r ∷ rs) code a = elim (Bool-cases (ltb code r.0)) [
  | inl low ↦ rw low (sym (none_below r.0 (r ∷ rs) code (omega arith, a.1) (ground arith)).0)
  | inr high ↦ rw high (
      after_first r rs code (bisect_right rs code) (ground arith)
        (λ h. (none_below (suc r.1) rs code a.1.1 h).1)
      ∙ ap (λ found. in_range code r || found) (search_lem (suc r.1) rs code a.1.1))
]

-- The conditions of `Ascending`, tested.
unfoldable ascending : ℕ → List (ℕ × ℕ) → Bool
ascending b [] = true
ascending b (r ∷ rs) = leb b r.0 && (leb r.0 r.1 && ascending (suc r.1) rs)

ascending-Ascending : (b : ℕ) (table : List (ℕ × ℕ)) → ascending b table ≡ true → Ascending b table
unfolding ascending
ascending-Ascending b [] h = tt
ascending-Ascending b (r ∷ rs) h =
    (ground arith, (ground arith, ascending-Ascending (suc r.1) rs (ground arith)))

emoji-Ascending : Ascending 0 emoji
unfolding ascending
emoji-Ascending = ascending-Ascending 0 emoji refl

unassigned-Ascending : Ascending 0 unassigned
unfolding ascending
unassigned-Ascending = ascending-Ascending 0 unassigned refl

bases-Ascending : Ascending 0 modifier_bases
unfolding ascending
bases-Ascending = ascending-Ascending 0 modifier_bases refl

below_all :
    (b : ℕ) (table : List (ℕ × ℕ)) (code : ℕ)
    → Ascending b table
    → code < b
    → within table code ≡ false
unfolding within
below_all b table code a h = rw (none_below b table code a h).1 refl

leb_le : (a b : ℕ) → leb a b ≡ true → a ≤ b
leb_le a b h = ground arith

not_leb : (a b : ℕ) → leb a b ≡ false → b < a
not_leb a b h = ground arith

neither : (a b : Bool) → a ≡ false → b ≡ false → (a || b) ≡ true → ⊥
neither a b h k e = ground (arith, h, k, e)

-- A pictograph is no control or ASCII code point.
pub pictograph_above : (code : ℕ) → pictograph code ≡ true → 169 ≤ code
unfolding ascending
pictograph_above code h = elim (Bool-cases (leb 169 code)) [
  | inl high ↦ leb_le 169 code high
  | inr low ↦ absurd (
      neither (within emoji code) (within unassigned code)
        (below_all 169 emoji code (ascending-Ascending 169 emoji refl) (not_leb 169 code low))
        (below_all 169 unassigned code (ascending-Ascending 169 unassigned refl)
          (not_leb 169 code low))
        h)
]

-- The search finds a code point in each of the tables exactly when one of the table's ranges holds
-- it: in the emoji and the unassigned places, which make a pictograph, and in the modifier bases.
pub within_lem :
    (code : ℕ)
    → (pictograph code ≡ (any (in_range code) emoji || any (in_range code) unassigned))
      × (within modifier_bases code ≡ any (in_range code) modifier_bases)
within_lem code = (
  rw (search_lem 0 emoji code emoji-Ascending)
      (rw (search_lem 0 unassigned code unassigned-Ascending) refl),
  search_lem 0 modifier_bases code bases-Ascending,
)
