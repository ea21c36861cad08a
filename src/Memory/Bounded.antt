-- ===== src/Memory/Bounded.antt =====
-- The sizes of the memory, through its calls.
use nunchi.Prelude.{
  none, some, [], ◌∷◌, String, Option, ℕ, List, length, ◌≤◌, ◌*◌, arith, length-drop, ◌+◌, ◌-◌,
  Bool-cases, ◌++◌, ◌==◌, length-append, inl, inr, string_has_eq,
}
use nunchi.Memory.{
  message_sent, reply_sent, reaction_sent, other_action, Texts, Sizes, record_silence, Action,
  Memory, List, MoveKey, record_reason, Found, record_origin, length, with_reason, with_origin,
  with_posted, new_memory, record_delivered, push, record_judgment, restart, action_key,
  move_reason, action_origin, named, forget_judgment,
}

-- One call of a method that changes the memory.
pub data Call : Type 0 where
  silence : String → ℕ → Option String → Call
  reason : Action → Option String → Call
  origin : Action → Option String → Option ℕ → Call
  posted : Action → Option String → ℕ → Call
  judgment : String → Found → Call
  restarted : Call

-- A ValueError changes nothing.
abbrev pub or_same : Option Memory → Memory → Memory
or_same none m = m
or_same (some m') m = m'

abbrev pub record_call : Texts → Sizes → Call → Memory → Memory
record_call t s (silence about at why) m = or_same (record_silence t s about at why m) m
record_call t s (reason action why) m = record_reason t s action why m
record_call t s (origin action attested at) m = record_origin t s action attested at m
record_call t s (posted action why at) m = record_delivered t s action why at m
record_call t s (judgment id found) m = or_same (record_judgment s id found m) m
record_call t s restarted m = restart m

unfoldable pub memory_after : Texts → Sizes → List Call → Memory → Memory
memory_after t s [] m = m
memory_after t s (c ∷ cs) m = memory_after t s cs (record_call t s c m)

pub record FitsSizes (s : Sizes) (m : Memory) : Type 0 where
  pub silences : length m.silences ≤ s.max_silences
  pub delivered_posts : length m.delivered_posts ≤ s.own_moves
  pub reasons : length m.reasons ≤ s.own_moves * 2
  pub origins : length m.origins ≤ s.own_moves * 2
  pub judgments : length m.judgments ≤ s.max_judgments

push_bounded {ℓ} : {A : Type ℓ} (n : ℕ) (x : A) (xs : List A) → length (push n x xs) ≤ n
push_bounded n x xs =
    omega (arith, length-drop (length xs + 1 - n) (xs ++ x ∷ []), length-append xs (x ∷ []))

with_reason-FitsSizes :
    (s : Sizes) (key : Option MoveKey) (why : Option String) (m : Memory)
    → FitsSizes s m
    → FitsSizes s (with_reason (s.own_moves * 2) key why m)
with_reason-FitsSizes s none why m f = f
with_reason-FitsSizes s (some key) none m f = f
with_reason-FitsSizes s (some key) (some why) m f = record {
  silences = f.silences;
  delivered_posts = f.delivered_posts;
  reasons = push_bounded (s.own_moves * 2) (key, why) m.reasons;
  origins = f.origins;
  judgments = f.judgments;
}

with_origin-FitsSizes :
    (s : Sizes) (key : Option MoveKey) (o attested : Option String) (at : Option ℕ) (m : Memory)
    → FitsSizes s m
    → FitsSizes s (with_origin (s.own_moves * 2) key o attested at m)
with_origin-FitsSizes s none o attested at m f = f
with_origin-FitsSizes s (some key) none attested at m f = f
with_origin-FitsSizes s (some key) (some o) attested at m f = record {
  silences = f.silences;
  delivered_posts = f.delivered_posts;
  reasons = f.reasons;
  origins = push_bounded (s.own_moves * 2) _ m.origins;
  judgments = f.judgments;
}

with_posted-FitsSizes :
    (t : Texts) (s : Sizes) (o : Option String) (text : String) (why : Option String) (at : ℕ)
    (m : Memory)
    → FitsSizes s m
    → FitsSizes s (with_posted t s o text why at m)
with_posted-FitsSizes t s none text why at m f = f
with_posted-FitsSizes t s (some o) text why at m f = record {
  silences = f.silences;
  delivered_posts = push_bounded s.own_moves _ m.delivered_posts;
  reasons = f.reasons;
  origins = f.origins;
  judgments = f.judgments;
}

record_call-FitsSizes :
    (t : Texts) (s : Sizes) (c : Call) (m : Memory)
    → FitsSizes s m
    → FitsSizes s (record_call t s c m)
unfolding record_silence record_reason record_origin record_delivered record_judgment restart
record_call-FitsSizes t s (silence about at why) m f = elim (Bool-cases (about == "")) [
  | inl unnamed ↦ rw unnamed f
  | inr given ↦ rw given (record {
    silences = push_bounded s.max_silences _ m.silences;
    delivered_posts = f.delivered_posts;
    reasons = f.reasons;
    origins = f.origins;
    judgments = f.judgments;
  })
]
record_call-FitsSizes t s (reason action why) m f =
    with_reason-FitsSizes s (action_key t action) (move_reason t why) m f
record_call-FitsSizes t s (origin action attested at) m f =
    with_origin-FitsSizes s (action_key t action) (action_origin action) attested at m f
record_call-FitsSizes t s (posted (message_sent target o text) why at) m f =
    with_posted-FitsSizes t s (named o) text why at m f
record_call-FitsSizes t s (posted (reply_sent target o text) why at) m f = f
record_call-FitsSizes t s (posted (reaction_sent added target reaction) why at) m f = f
record_call-FitsSizes t s (posted other_action why at) m f = f
record_call-FitsSizes t s (judgment id found) m f = elim (Bool-cases (id == "")) [
  | inl unnamed ↦ rw unnamed f
  | inr given ↦ rw given (record {
    silences = f.silences;
    delivered_posts = f.delivered_posts;
    reasons = f.reasons;
    origins = f.origins;
    judgments = push_bounded s.max_judgments _ (forget_judgment id m.judgments);
  })
]
record_call-FitsSizes t s restarted m f = record {
  silences = omega arith;
  delivered_posts = omega arith;
  reasons = omega arith;
  origins = omega arith;
  judgments = omega arith;
}

-- Whatever is recorded in a new memory, in any order and with restarts, it keeps no more silences,
-- posts and judgments than its sizes say, and no more reasons or origins than twice its own moves.
pub memory_after-FitsSizes :
    (t : Texts) (s : Sizes) (cs : List Call) → FitsSizes s (memory_after t s cs new_memory)
unfolding memory_after
memory_after-FitsSizes t s cs = from_memory cs new_memory (record {
  silences = omega arith;
  delivered_posts = omega arith;
  reasons = omega arith;
  origins = omega arith;
  judgments = omega arith;
})
  where
    from_memory :
        (cs : List Call) (m : Memory) → FitsSizes s m → FitsSizes s (memory_after t s cs m)
    from_memory [] m f = f
    from_memory (c ∷ cs) m f =
        from_memory cs (record_call t s c m) (record_call-FitsSizes t s c m f)
