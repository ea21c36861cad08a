-- ===== src/RateLimit/Window.antt =====
-- Sequences of requests to `SendBackstop.try_acquire`, and the sends in a window that ends at a time.
use nunchi.Prelude.{
  String, ℕ, List, Bool, ltb, leb, ◌≤◌, count, ◌≡◌, length, if◌then◌else◌, ◌<◌, ◌+◌, ◌&&◌, ◌∷◌,
  arith, ◌==◌, [], Bool-cases, nat_has_eq, string_has_eq, refl, inl, count-le-length, inr, true,
  false, ◌++◌, suc, count-append, ◌-◌, length-append, ==_refl, subst, sym, ==_iff,
}
use nunchi.RateLimit.{SendBackstop, String, ℕ, expire_sends, try_acquire, decide_send}

abbrev pub Request : Type 0
Request = String × ℕ

-- The times of the sends that were allowed on a channel, newest first.
unfoldable pub send_all : String → SendBackstop → List ℕ → List Request → List ℕ × SendBackstop
send_all c b done [] = (done, b)
send_all c b done ((channel, now) ∷ rest) =
    let (wait, b') = try_acquire channel now b in
    send_all c b' (if channel == c && wait == 0 then now ∷ done else done) rest

-- The readings of a monotonic clock.
abbrev pub Ascends : ℕ → List Request → Type 0
Ascends last [] = Unit
Ascends last ((channel, now) ∷ rest) = (last ≤ now) × Ascends now rest

-- A send at `t` that is younger than the window at the time `n`.
abbrev live : ℕ → ℕ → ℕ → Bool
live seconds n t = ltb n (t + seconds)

-- The sends of the window that ends at `n`.
abbrev pub in_window : ℕ → ℕ → ℕ → Bool
in_window seconds n t = leb t n && ltb n (t + seconds)

live-expire_sends :
    (w now n : ℕ) (ts : List ℕ)
    → now ≤ n
    → count (live w n) (expire_sends w now ts) ≡ count (live w n) ts
unfolding expire_sends
live-expire_sends w now n [] h = refl
live-expire_sends w now n (t ∷ ts) h = ground (arith, live-expire_sends w now n ts)

in_window-le-live : (w n : ℕ) (ts : List ℕ) → count (in_window w n) ts ≤ count (live w n) ts
in_window-le-live w n [] = omega arith
in_window-le-live w n (t ∷ ts) = ground (arith, in_window-le-live w n ts)

expire_sends_head : (w now t : ℕ) (xs ts : List ℕ) → expire_sends w now xs ≡ t ∷ ts → now < t + w
unfolding expire_sends
expire_sends_head w now t [] ts e = cc
expire_sends_head w now t (x ∷ xs) ts e = ground (arith, expire_sends_head w now t xs ts)

length-expire_sends : (w now : ℕ) (ts : List ℕ) → length (expire_sends w now ts) ≤ length ts
unfolding expire_sends
length-expire_sends w now [] = omega arith
length-expire_sends w now (t ∷ ts) = ground (arith, length-expire_sends w now ts)

leb→le : (a b : ℕ) → leb a b ≡ true → a ≤ b
leb→le a b h = ground arith

-- The bound of one more send at `now`, when the deque that it joins holds all that is live.
bounded-cons :
    (w m now n : ℕ) (done window : List ℕ)
    → (now ≤ n → count (live w n) (now ∷ done) ≤ count (live w n) window)
    → length window ≤ m
    → count (in_window w n) done ≤ m
    → count (in_window w n) (now ∷ done) ≤ m
bounded-cons w m now n done window h s b = elim (Bool-cases (leb now n)) [
  | inl le ↦ ground (
    arith,
    in_window-le-live w n (now ∷ done),
    count-le-length (live w n) window,
    h (leb→le now n le),
  )
  | inr gt ↦ ground arith
]

positive : (n : ℕ) → 0 < n → (n == 0) ≡ false
positive n h = ground arith

abbrev outcome : ℕ × List ℕ → ℕ → List ℕ → List ℕ
outcome (wait, window) now done = if wait == 0 then now ∷ done else done

-- What the deque must hold of the history, from the time `now` on.
record Held (w m now : ℕ) (window done : List ℕ) : Type 0 where
  held : (n : ℕ) → now ≤ n → count (live w n) done ≤ count (live w n) window
  short : length window ≤ m
  bounded : (n : ℕ) → count (in_window w n) done ≤ m

Held-append :
    (w m now n : ℕ) (window done : List ℕ)
    → Held w m now window done
    → now ≤ n
    → count (live w n) (now ∷ done) ≤ count (live w n) (window ++ now ∷ [])
Held-append w m now n window done h le =
    ground (arith, h.held n le, count-append (live w n) window (now ∷ []))

allowed-Held :
    (w m now : ℕ) (window done : List ℕ)
    → Held w m now window done
    → length window < m
    → Held w m now (window ++ now ∷ []) (now ∷ done)
allowed-Held w m now window done h room = record {
  held = λ n le. Held-append w m now n window done h le;
  short = omega (arith, length-append window (now ∷ []));
  bounded = λ n.
      bounded-cons w m now n done (window ++ now ∷ []) (Held-append w m now n window done h)
        (omega (arith, length-append window (now ∷ []))) (h.bounded n);
}

module _ (w m now : ℕ) (done : List ℕ) (pos : 0 < w) where
  -- A refusal waits for some time, so it is not recorded; an allowed send has room in the deque.
  decide-Held :
      (window : List ℕ)
      → Held w m now window done
      → ((t : ℕ) (ts : List ℕ) → window ≡ t ∷ ts → now < t + w)
      → Held w m now (decide_send m w now window).1 (outcome (decide_send m w now window) now done)
  decide-Held [] h alive = elim (Bool-cases (leb m 0)) [
    | inl none_allowed ↦ rw none_allowed (ground arith)
    | inr room ↦ rw room (allowed-Held w m now [] done h (ground arith))
  ]
  decide-Held (t ∷ ts) h alive = elim (Bool-cases (leb m (suc (length ts)))) [
    | inl full ↦ rw full (rw (positive (t + w - now) (omega (arith, alive t ts refl))) h)
    | inr room ↦ rw room (allowed-Held w m now (t ∷ ts) done h (ground arith))
  ]

-- Eviction at a later time keeps what the history needs.
expire-Held :
    (w m last now : ℕ) (window done : List ℕ)
    → last ≤ now
    → Held w m last window done
    → Held w m now (expire_sends w now window) done
expire-Held w m last now window done le h = record {
  held = λ n now_le. omega (arith, h.held n (omega arith), live-expire_sends w now n window now_le);
  short = omega (arith, h.short, length-expire_sends w now window);
  bounded = h.bounded;
}

later-Held :
    (w m last now : ℕ) (window done : List ℕ)
    → last ≤ now
    → Held w m last window done
    → Held w m now window done
later-Held w m last now window done le h = record {
  held = λ n p. h.held n (omega arith);
  short = h.short;
  bounded = h.bounded;
}

module _ (c : String) where
  Sent : SendBackstop → ℕ → List ℕ → Type 0
  Sent b last done = Held b.window_seconds b.max_sends last (b.sent c) done

  -- What one request on the channel does.
  acquire_self :
      (last now : ℕ) (b : SendBackstop) (done : List ℕ)
      → 0 < b.window_seconds
      → last ≤ now
      → Sent b last done
      → Sent
          (try_acquire c now b).1
          now
          (if c == c && (try_acquire c now b).0 == 0 then now ∷ done else done)
  unfolding try_acquire Sent
  acquire_self last now b done pos le h = rw (==_refl c) (
      decide-Held b.window_seconds b.max_sends now done pos
        (expire_sends b.window_seconds now (b.sent c))
        (expire-Held b.window_seconds b.max_sends last now (b.sent c) done le h)
        (λ t ts. expire_sends_head b.window_seconds now t (b.sent c) ts))

  try_acquire-Held :
      (channel : String) (last now : ℕ) (b : SendBackstop) (done : List ℕ)
      → 0 < b.window_seconds
      → last ≤ now
      → Sent b last done
      → Sent
          (try_acquire channel now b).1
          now
          (if channel == c && (try_acquire channel now b).0 == 0 then now ∷ done else done)
  unfolding try_acquire Sent
  try_acquire-Held channel last now b done pos le h = elim (Bool-cases (channel == c)) [
    | inl same ↦
        subst
          (λ x.
            Sent (try_acquire x now b).1 now
              (if x == c && (try_acquire x now b).0 == 0 then now ∷ done else done))
          (sym ((==_iff channel c).0 same)) (acquire_self last now b done pos le h)
    | inr other ↦ rw other (later-Held b.window_seconds b.max_sends last now (b.sent c) done le h)
  ]

  send_all-Held :
      (b : SendBackstop) (last : ℕ) (done : List ℕ) (rs : List Request)
      → 0 < b.window_seconds
      → Ascends last rs
      → Sent b last done
      → (n : ℕ) → count (in_window b.window_seconds n) (send_all c b done rs).0 ≤ b.max_sends
  unfolding send_all try_acquire Sent
  send_all-Held b last done [] pos asc h n = h.bounded n
  send_all-Held b last done ((channel, now) ∷ rest) pos asc h n =
      send_all-Held (try_acquire channel now b).1 now
        (if channel == c && (try_acquire channel now b).0 == 0 then now ∷ done else done) rest pos
        asc.1 (try_acquire-Held channel last now b done pos asc.0 h) n

-- The backstop's bound: for requests on any channels, at the ascending readings of a monotonic
-- clock, with a window of some length, no window that ends at any time holds more sends on a channel
-- than `max_sends`.
pub sends_bounded :
    (c : String) (b : SendBackstop) (rs : List Request) (n : ℕ)
    → 0 < b.window_seconds
    → b.sent c ≡ []
    → Ascends 0 rs
    → count (in_window b.window_seconds n) (send_all c b [] rs).0 ≤ b.max_sends
unfolding Sent
sends_bounded c b rs n pos empty asc =
    send_all-Held c b 0 [] rs pos asc
      (record {
        held = λ k le. omega arith;
        short = rw empty (omega arith);
        bounded = λ k. omega arith;
      })
      n
