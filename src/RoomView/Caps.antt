-- ===== src/RoomView/Caps.antt =====
-- Sequences of calls of `expand`, and the pages that answer them.
use nunchi.Prelude.{
  ℕ, Bool, ◌≡◌, List, Option, ◌+◌, String, true, ◌∷◌, ◌-◌, if◌then◌else◌, false, ◌&&◌, some, ◌<◌,
  suc, none, ◌≤◌, [], refl, ap, arith, Bool-cases, leb, inl, inr,
}
use nunchi.RoomView.{
  Event, Observation, RoomView, Direction, Answer, see_all, take_page, read_page, expand,
  max_context_expansions, max_new_checks, older, page_of, Page, add_id, new_messages, put_event,
  steering_news, expansion_cap_exceeded, expand_within, new_view, limit_page, new_cap_exceeded,
  stopped,
}
use mathlib.Core.List.{◌∷◌}

-- A call of `expand`, with the room's log at its time.
pub record Call : Type 0 where
  pub observation : Observation
  pub guard_raises : Bool
  pub direction : Direction
  pub anchor_event_id : Option String
  pub max_events : Option ℕ
  pub max_bytes : Option ℕ

abbrev pub expand_by : Call → RoomView → Answer × RoomView
expand_by c v =
    expand c.observation c.guard_raises c.direction c.anchor_event_id c.max_events c.max_bytes v

abbrev pub is_older : Direction → Bool
is_older (older name) = true
is_older _ = false

abbrev pub is_new : Direction → Bool
is_new new_messages = true
is_new _ = false

abbrev pub is_page : Answer → Bool
is_page (page_of p) = true
is_page _ = false

-- How many of a turn's calls in some directions are answered by a page.
unfoldable pub pages : (Direction → Bool) → RoomView → List Call → ℕ
pages p v [] = 0
pages p v (c ∷ cs) =
    let (a, v') = expand_by c v in
    let rest = pages p v' cs in if p c.direction && is_page a then suc rest else rest

-- The pages that a view can still give: the readings left, and the note on the limit.
abbrev older_left : RoomView → ℕ
older_left v = (max_context_expansions - v.expansion_calls) + (if v.limit_noted then 0 else 1)

abbrev new_left : RoomView → ℕ
new_left v = max_new_checks - v.new_checks

-- What a page leaves as it was.
record SameCounts (v v' : RoomView) : Type 0 where
  pub calls : v'.expansion_calls ≡ v.expansion_calls
  pub checks : v'.new_checks ≡ v.new_checks
  pub noted : v'.limit_noted ≡ v.limit_noted

see_all-SameCounts : (es : List Event) (v : RoomView) → SameCounts v (see_all es v)
unfolding see_all
see_all-SameCounts [] v = record { calls = refl; checks = refl; noted = refl }
see_all-SameCounts (e ∷ es) v =
    let s = see_all-SameCounts es (record v {
      seen_event_ids = add_id e.id v.seen_event_ids;
      seen_events = put_event e.id e.body v.seen_events;
    }) in
    record { calls = s.calls; checks = s.checks; noted = s.noted }

take_page-SameCounts :
    (d : Direction) (p : Option Page) (v : RoomView) → SameCounts v (take_page d p v).1
unfolding take_page
take_page-SameCounts d none v = record { calls = refl; checks = refl; noted = refl }
take_page-SameCounts (older name) (some p) v =
    let s = see_all-SameCounts p.events v in
    record { calls = s.calls; checks = s.checks; noted = s.noted }
take_page-SameCounts new_messages (some p) v = see_all-SameCounts p.events v
take_page-SameCounts steering_news (some p) v = see_all-SameCounts p.events v

-- One call spends what it is answered.
record Spends (d : Direction) (v : RoomView) (a : Answer) (v' : RoomView) : Type 0 where
  pub old : older_left v' + (if is_older d && is_page a then 1 else 0) ≤ older_left v
  pub fresh : new_left v' + (if is_new d && is_page a then 1 else 0) ≤ new_left v

abbrev note_left : Bool → ℕ
note_left noted = if noted then 0 else 1

kept_noted : (a b : Bool) → b ≡ a → note_left b ≡ note_left a
kept_noted a b e = ap note_left e

at_most_one : (t : Bool) → (if t then 1 else 0) ≤ 1
at_most_one t = ground arith

new-Spends :
    (v v' : RoomView) (a : Answer)
    → v.new_checks < max_new_checks
    → SameCounts (record v { new_checks = v.new_checks + 1 }) v'
    → Spends new_messages v a v'
new-Spends v v' a h s = record {
  old = omega (arith, s.calls, kept_noted v.limit_noted v'.limit_noted s.noted);
  fresh = omega (arith, s.checks, at_most_one (is_page a));
}

older-Spends :
    (name : String) (v v' : RoomView) (a : Answer)
    → v.expansion_calls < max_context_expansions
    → SameCounts (record v { expansion_calls = v.expansion_calls + 1 }) v'
    → Spends (older name) v a v'
older-Spends name v v' a h s = record {
  old =
      omega
        (arith, s.calls, kept_noted v.limit_noted v'.limit_noted s.noted, at_most_one (is_page a));
  fresh = omega (arith, s.checks);
}

free-Spends :
    (d : Direction) (v v' : RoomView) (a : Answer)
    → (is_older d && is_page a) ≡ false
    → (is_new d && is_page a) ≡ false
    → SameCounts v v'
    → Spends d v a v'
free-Spends d v v' a o n s = record {
  old = rw o (omega (arith, s.calls, kept_noted v.limit_noted v'.limit_noted s.noted));
  fresh = rw n (omega (arith, s.checks));
}

unmoved : (v : RoomView) → SameCounts v v
unmoved v = record { calls = refl; checks = refl; noted = refl }

no_page : (t : Bool) → (t && false) ≡ false
no_page true = refl
no_page false = refl

-- Past the cap: the note once, then the refusal.
limit-Spends :
    (name : String) (v : RoomView) (noted : Bool)
    → v.limit_noted ≡ noted
    → let r : Answer × RoomView =
        (if noted
          then (expansion_cap_exceeded, v)
          else (page_of limit_page, record v { limit_noted = true })) in
      Spends (older name) v r.0 r.1
limit-Spends name v true e =
    free-Spends (older name) v v expansion_cap_exceeded refl refl (unmoved v)
limit-Spends name v false e = record { old = omega (arith, ap note_left e); fresh = omega arith }

expand_within-Spends :
    (o : Observation) (an : Option String) (e b : ℕ) (d : Direction) (v : RoomView)
    → Spends d v (expand_within o an e b d v).0 (expand_within o an e b d v).1
unfolding expand_within read_page
expand_within-Spends o an e b steering_news v =
    free-Spends steering_news v _ _ refl refl (take_page-SameCounts steering_news _ v)
expand_within-Spends o an e b new_messages v = elim (Bool-cases (leb max_new_checks v.new_checks)) [
  | inl full ↦ rw full (free-Spends new_messages v v new_cap_exceeded refl refl (unmoved v))
  | inr left ↦ rw left (new-Spends v _ _ (ground arith) (take_page-SameCounts new_messages _ _))
]
expand_within-Spends o an e b (older name) v =
    elim (Bool-cases (leb max_context_expansions v.expansion_calls)) [
      | inl full ↦ rw full (limit-Spends name v v.limit_noted refl)
      | inr left ↦
          rw left (older-Spends name v _ _ (ground arith) (take_page-SameCounts (older name) _ _))
    ]

expand-Spends : (c : Call) (v : RoomView) → Spends c.direction v (expand_by c v).0 (expand_by c v).1
unfolding expand
expand-Spends c v = elim (Bool-cases c.guard_raises) [
  | inl raised ↦ rw raised (free-Spends c.direction v v stopped (no_page _) (no_page _) (unmoved v))
  | inr passes ↦ rw passes (
      expand_within-Spends c.observation c.anchor_event_id
        (elim c.max_events [ none ↦ 12 | some n ↦ n ])
        (elim c.max_bytes [ none ↦ 16384 | some n ↦ n ]) c.direction v)
]

spent :
    (t : Bool) (rest left before : ℕ)
    → rest ≤ left
    → left + (if t then 1 else 0) ≤ before
    → (if t then suc rest else rest) ≤ before
spent true rest left before h k = omega arith
spent false rest left before h k = omega arith

older-pages : (v : RoomView) (cs : List Call) → pages is_older v cs ≤ older_left v
unfolding pages
older-pages v [] = omega arith
older-pages v (c ∷ cs) =
    spent (is_older c.direction && is_page (expand_by c v).0) _ _ _
      (older-pages (expand_by c v).1 cs) (expand-Spends c v).old

new-pages : (v : RoomView) (cs : List Call) → pages is_new v cs ≤ new_left v
unfolding pages
new-pages v [] = omega arith
new-pages v (c ∷ cs) =
    spent (is_new c.direction && is_page (expand_by c v).0) _ _ _ (new-pages (expand_by c v).1 cs)
      (expand-Spends c v).fresh

-- In one turn, whatever the room's log answers and however often the participant asks, it gets at
-- most four pages of older messages, the note on the limit included, and at most eight pages of new
-- messages; steering is not counted.
pub pages_bounded :
    (trigger : String) (began : ℕ) (shown : List String) (cs : List Call)
    → (pages is_older (new_view trigger began shown) cs ≤ 4)
      × (pages is_new (new_view trigger began shown) cs ≤ 8)
unfolding new_view
pages_bounded trigger began shown cs =
    let v = new_view trigger began shown in (older-pages v cs, new-pages v cs)
