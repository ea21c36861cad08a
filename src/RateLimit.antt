-- ===== src/RateLimit.antt =====
-- The Discord rate-limit guards: src/nunchi/mcp_discord/ratelimit.py.
-- The clock's readings and the seconds are whole ticks. A dict is a function with the default that
-- the source writes out. Each method holds its lock, so it is one step. `after_response`, which reads
-- floats from the headers, is not modelled.
mod Window
mod Waits
mod Examples
use nunchi.Prelude.{
  String, none, Option, ℕ, if◌then◌else◌, some, ◌-◌, Bool, List, ◌==◌, leb, ◌+◌, max, ◌∷◌,
  string_has_eq, ◌&&◌, [], suc, ltb, length, ◌++◌,
}

pub record RateLimiter : Type 0 where
  -- route to (remaining, reset_at)
  pub buckets : String → Option (ℕ × ℕ)
  pub global_until : ℕ

abbrev pub new_limiter : RateLimiter
new_limiter = record { buckets = λ _. none; global_until = 0 }

abbrev pub write {ℓ} : {A : Type ℓ} → String → A → (String → A) → String → A
write k v f j = if k == j then v else f j

abbrev wait_of : Option (ℕ × ℕ) → ℕ → ℕ → ℕ
wait_of none now delay = delay
wait_of (some (remaining, reset_at)) now delay =
    if leb remaining 0 && ltb now reset_at then max delay (reset_at - now) else delay

-- How long `before_request` sleeps; a difference below 0 is 0.
unfoldable pub before_request : String → ℕ → RateLimiter → ℕ
before_request route now l = wait_of (l.buckets route) now (l.global_until - now)

unfoldable pub note_retry_after : String → ℕ → Bool → ℕ → RateLimiter → RateLimiter
note_retry_after route seconds is_global now l =
    if is_global
    then record l { global_until = max l.global_until (now + seconds) }
    else record l { buckets = write route (some (0, now + seconds)) l.buckets }

pub record SendBackstop : Type 0 where
  pub max_sends : ℕ
  pub window_seconds : ℕ
  pub sent : String → List ℕ

-- `while window and window[0] <= now - window_seconds: popleft()`
unfoldable pub expire_sends : ℕ → ℕ → List ℕ → List ℕ
expire_sends seconds now [] = []
expire_sends seconds now (t ∷ ts) =
    let rest = expire_sends seconds now ts in if leb (t + seconds) now then rest else t ∷ ts

abbrev decide_send : ℕ → ℕ → ℕ → List ℕ → ℕ × List ℕ
decide_send max_sends seconds now [] = if leb max_sends 0 then (seconds, []) else (0, now ∷ [])
decide_send max_sends seconds now (t ∷ ts) =
    if leb max_sends (suc (length ts)) then (t + seconds - now, t ∷ ts) else (0, t ∷ ts ++ now ∷ [])

-- The seconds to wait, 0 for a send that is allowed and recorded.
unfoldable pub try_acquire : String → ℕ → SendBackstop → ℕ × SendBackstop
unfolding expire_sends
try_acquire channel now b =
    let (wait, window) =
      decide_send b.max_sends b.window_seconds now
        (expire_sends b.window_seconds now (b.sent channel)) in
    (wait, record b { sent = write channel window b.sent })
