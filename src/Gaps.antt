-- ===== src/Gaps.antt =====
-- Continuity gaps of a room's timeline: src/nunchi/observation.py, `_Gap`, `_with_gap`,
-- `_gaps_in_view`, `_coverage_of`, `gaps_told` and `gaps_pending`.
-- A time is a number of milliseconds, the precision that a gap's time has and `iso` prints, so the
-- printed time stands for the number.
pub mod Order
pub mod Kept
mod Nearest
mod Shown
mod View
mod Examples
use nunchi.Prelude.{
  ℕ, Option, Bool, List, max, String, none, some, ltb, ◌∷◌, keep, map, false, any, ◌||◌,
  if◌then◌else◌, ◌==◌, [], suc, not, leb, min, elem, true, nat_has_eq, string_has_eq, ◌&&◌, length,
  ◌++◌,
}

pub record Gap : Type 0 where
  pub at : ℕ
  pub arrival : ℕ
  pub after : Option String

abbrev pub max_gaps : ℕ
max_gaps = 16

-- The first gap at a position.
unfoldable pub gap_at : ℕ → List Gap → Option Gap
gap_at a [] = none
gap_at a (g ∷ gs) = if g.arrival == a then some g else gap_at a gs

abbrev pub later_time : Gap → Option Gap → Gap
later_time new none = new
later_time new (some same) = if ltb new.at same.at then record new { at = same.at } else new

-- The order of the sort key `(arrival, at)`.
abbrev pub before : Gap → Gap → Bool
before a b = ltb a.arrival b.arrival || (a.arrival == b.arrival && ltb a.at b.at)

unfoldable pub insert_gap : Gap → List Gap → List Gap
insert_gap g [] = g ∷ []
insert_gap g (h ∷ hs) = if before h g then h ∷ insert_gap g hs else g ∷ h ∷ hs

-- `list.sort`, by insertion
unfoldable pub sort_gaps : List Gap → List Gap
unfolding insert_gap
sort_gaps [] = []
sort_gaps (g ∷ gs) = insert_gap g (sort_gaps gs)

abbrev pub merge : Gap → Gap → Gap
merge oldest next_oldest = record {
  at = max oldest.at next_oldest.at;
  arrival = next_oldest.arrival;
  after = next_oldest.after;
}

-- The loop of `_with_gap`: each round takes one gap away, so the list's length is fuel enough.
unfoldable pub merge_oldest : ℕ → List Gap → List Gap
merge_oldest (suc n) (a ∷ b ∷ gs) =
    let rest = merge_oldest n (merge a b ∷ gs) in
    if ltb max_gaps (length (a ∷ b ∷ gs)) then rest else a ∷ b ∷ gs
merge_oldest _ gs = gs

unfoldable pub with_gap : List Gap → Gap → List Gap
unfolding gap_at sort_gaps merge_oldest
with_gap gaps new =
    let kept = keep (λ g. not (g.arrival == new.arrival)) gaps in
    let sorted = sort_gaps (kept ++ later_time new (gap_at new.arrival gaps) ∷ []) in
    merge_oldest (length sorted) sorted

-- `gaps_told`: the gaps that stay news. Whether the file was replaced changes nothing here.
unfoldable pub gaps_told : List ℕ → List Gap → List Gap
gaps_told times gaps = keep (λ g. not (elem g.at times)) gaps

unfoldable pub gaps_pending : List Gap → List ℕ
gaps_pending gaps = map (λ g. g.at) gaps

-- `_retained_arrivals`, as pairs of event and arrival position.
abbrev pub Arrivals : Type 0
Arrivals = List (String × ℕ)

unfoldable pub arrival_of : String → Arrivals → Option ℕ
arrival_of id [] = none
arrival_of id ((e, n) ∷ rest) = if e == id then some n else arrival_of id rest

unfoldable pub seen_arrivals : List String → Arrivals → List ℕ
unfolding arrival_of
seen_arrivals [] arrivals = []
seen_arrivals (id ∷ ids) arrivals =
    let rest = seen_arrivals ids arrivals in
    elim (arrival_of id arrivals) [ none ↦ rest | some n ↦ n ∷ rest ]

-- The largest of the positions up to `a`, which `retained[cut - 1]` is in the sorted positions.
unfoldable pub last_before : ℕ → Arrivals → Option ℕ
last_before a [] = none
last_before a ((e, n) ∷ rest) =
    let other = last_before a rest in
    if leb n a then some (elim other [ none ↦ n | some m ↦ max n m ]) else other

-- The smallest of the positions after `a`, which `retained[cut]` is.
unfoldable pub first_after : ℕ → Arrivals → Option ℕ
first_after a [] = none
first_after a ((e, n) ∷ rest) =
    let other = first_after a rest in
    if ltb a n then some (elim other [ none ↦ n | some m ↦ min n m ]) else other

abbrev pub holds : Option ℕ → List ℕ → Bool
holds none seen = false
holds (some n) seen = elem n seen

-- `min(seen)` and `max(seen)` of a list that is not empty
unfoldable pub lowest_seen : ℕ → List ℕ → ℕ
lowest_seen n [] = n
lowest_seen n (m ∷ ms) = min m (lowest_seen n ms)

unfoldable pub highest_seen : ℕ → List ℕ → ℕ
highest_seen n [] = n
highest_seen n (m ∷ ms) = max m (highest_seen n ms)

-- `min(seen) <= a < max(seen)`, which is asked only where `seen` is not empty
unfoldable pub crosses : ℕ → List ℕ → Bool
unfolding lowest_seen highest_seen
crosses a [] = false
crosses a (n ∷ ns) = leb (lowest_seen n ns) a && ltb a (highest_seen n ns)

unfoldable pub reaches : Arrivals → List ℕ → Gap → Bool
unfolding last_before first_after crosses
reaches arrivals seen g =
    holds (last_before g.arrival arrivals) seen
    || holds (first_after g.arrival arrivals) seen
    || crosses g.arrival seen

unfoldable pub gaps_in_view : List Gap → Arrivals → List String → List Gap
unfolding seen_arrivals reaches
gaps_in_view gaps arrivals shown =
    let seen = seen_arrivals shown arrivals in
    if leb (length seen) 0 then [] else keep (reaches arrivals seen) gaps

pub record Coverage : Type 0 where
  pub has_gaps : Bool
  pub has_restart_gap : Bool
  pub continuity : String
  pub gaps : List ℕ

unfoldable pub coverage_of : String → List Gap → Coverage
coverage_of continuity [] = record {
  has_gaps = false;
  has_restart_gap = false;
  continuity = continuity;
  gaps = [];
}
coverage_of continuity (g ∷ gs) = record {
  has_gaps = true;
  has_restart_gap = true;
  continuity = "unknown";
  gaps = map (λ g. g.at) (g ∷ gs);
}
