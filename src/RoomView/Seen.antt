-- ===== src/RoomView/Seen.antt =====
-- The events that a view has seen, before and after a call of `expand`.
use nunchi.Prelude.{
  ℕ, Bool, String, List, elem, ◌≡◌, if◌then◌else◌, Bool-cases, string_has_eq, true, All, [], Option,
  inl, ◌||◌, inr, ◌∷◌, leb, arith, ◌==◌, ==_refl, false, refl, some, none, ◌+◌,
}
use nunchi.RoomView.{
  Event, Answer, RoomView, see_all, take_page, expand_within, expand, Direction, read_page, page_of,
  add_id, expansion_cap_exceeded, Observation, Page, limit_page, stopped, older, max_new_checks,
  new_cap_exceeded, new_messages, max_context_expansions, steering_news,
}
use nunchi.RoomView.Caps.{Call, expand_by}

abbrev events_of : Answer → List Event
events_of (page_of p) = p.events
events_of _ = []

-- An event may be an action's origin or target: its id is among the seen ones.
abbrev pub sees : RoomView → String → Bool
sees v id = elem id v.seen_event_ids

-- All that was seen still is, and so is all that an answer shows.
pub record IsSeen (v : RoomView) (a : Answer) (v' : RoomView) : Type 0 where
  pub kept : (id : String) → sees v id ≡ true → sees v' id ≡ true
  pub shown : All (λ (e : Event). sees v' e.id ≡ true) (events_of a)

either_or : (a b : Bool) → b ≡ true → (a || b) ≡ true
either_or a b h = ground (arith, h)

add_id-keeps :
    (id x : String) (ids : List String) → elem id ids ≡ true → elem id (add_id x ids) ≡ true
add_id-keeps id x ids h = elim (Bool-cases (elem x ids)) [
  | inl in_set ↦ rw in_set h
  | inr added ↦ rw added (either_or (id == x) (elem id ids) h)
]

add_id-adds : (x : String) (ids : List String) → elem x (add_id x ids) ≡ true
add_id-adds x ids = elim (Bool-cases (elem x ids)) [
  | inl in_set ↦ rw in_set in_set
  | inr added ↦ rw added (rw (==_refl x) refl)
]

see_all-keeps :
    (es : List Event) (v : RoomView) (id : String)
    → sees v id ≡ true
    → sees (see_all es v) id ≡ true
unfolding see_all
see_all-keeps [] v id h = h
see_all-keeps (e ∷ es) v id h = see_all-keeps es _ id (add_id-keeps id e.id v.seen_event_ids h)

see_all-shows :
    (es : List Event) (v : RoomView) → All (λ (e : Event). sees (see_all es v) e.id ≡ true) es
unfolding see_all
see_all-shows [] v = tt
see_all-shows (e ∷ es) v =
    (see_all-keeps es _ e.id (add_id-adds e.id v.seen_event_ids), see_all-shows es _)

nothing-IsSeen :
    (v v' : RoomView) (a : Answer)
    → events_of a ≡ []
    → v'.seen_event_ids ≡ v.seen_event_ids
    → IsSeen v a v'
nothing-IsSeen v v' a none_shown same = record {
  kept = λ id h. rw same h;
  shown = rw none_shown tt;
}

take_page-IsSeen :
    (d : Direction) (p : Option Page) (v : RoomView)
    → IsSeen v (take_page d p v).0 (take_page d p v).1
unfolding take_page
take_page-IsSeen d none v = nothing-IsSeen v v stopped refl refl
take_page-IsSeen (older name) (some p) v = record {
  kept = see_all-keeps p.events v;
  shown = see_all-shows p.events v;
}
take_page-IsSeen new_messages (some p) v = record {
  kept = see_all-keeps p.events v;
  shown = see_all-shows p.events v;
}
take_page-IsSeen steering_news (some p) v = record {
  kept = see_all-keeps p.events v;
  shown = see_all-shows p.events v;
}

-- The counts are not part of what is seen.
recounted :
    (v w v' : RoomView) (a : Answer)
    → w.seen_event_ids ≡ v.seen_event_ids
    → IsSeen w a v'
    → IsSeen v a v'
recounted v w v' a same s = record { kept = λ id h. s.kept id (rw same h); shown = s.shown }

limit-IsSeen :
    (v : RoomView) (noted : Bool)
    → let r : Answer × RoomView =
        (if noted
          then (expansion_cap_exceeded, v)
          else (page_of limit_page, record v { limit_noted = true })) in
      IsSeen v r.0 r.1
limit-IsSeen v true = nothing-IsSeen v v expansion_cap_exceeded refl refl
limit-IsSeen v false = nothing-IsSeen v _ (page_of limit_page) refl refl

expand_within-IsSeen :
    (o : Observation) (an : Option String) (e b : ℕ) (d : Direction) (v : RoomView)
    → IsSeen v (expand_within o an e b d v).0 (expand_within o an e b d v).1
unfolding expand_within read_page
expand_within-IsSeen o an e b steering_news v = take_page-IsSeen steering_news _ v
expand_within-IsSeen o an e b new_messages v = elim (Bool-cases (leb max_new_checks v.new_checks)) [
  | inl full ↦ rw full (nothing-IsSeen v v new_cap_exceeded refl refl)
  | inr left ↦ rw left (
      recounted v _ _ _ refl
        (take_page-IsSeen new_messages _ (record v { new_checks = v.new_checks + 1 })))
]
expand_within-IsSeen o an e b (older name) v =
    elim (Bool-cases (leb max_context_expansions v.expansion_calls)) [
      | inl full ↦ rw full (limit-IsSeen v v.limit_noted)
      | inr left ↦ rw left (
          recounted v _ _ _ refl (
            take_page-IsSeen (older name) _ (record v { expansion_calls = v.expansion_calls + 1 })))
    ]

-- After a call, whatever its answer, every event that was seen before it is still seen, and every
-- event of the page that it was answered by is seen too.
pub expand-IsSeen : (c : Call) (v : RoomView) → IsSeen v (expand_by c v).0 (expand_by c v).1
unfolding expand
expand-IsSeen c v = elim (Bool-cases c.guard_raises) [
  | inl raised ↦ rw raised (nothing-IsSeen v v stopped refl refl)
  | inr passes ↦ rw passes (
      expand_within-IsSeen c.observation c.anchor_event_id
        (elim c.max_events [ none ↦ 12 | some n ↦ n ])
        (elim c.max_bytes [ none ↦ 16384 | some n ↦ n ]) c.direction v)
]
