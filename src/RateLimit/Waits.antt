-- ===== src/RateLimit/Waits.antt =====
-- `RateLimiter.note_retry_after` followed by `before_request`.
use nunchi.Prelude.{String, ℕ, Bool, ◌≡◌, ◌≢◌, true, ◌≤◌, ◌⊎◌, arith, ◌+◌, ==_iff, string_has_eq}
use nunchi.RateLimit.{RateLimiter, before_request, note_retry_after, String}

-- After a 429 on a route at the time `t`, a request on that route, or on any route after a global
-- one, sleeps at least until `t + seconds`.
pub retry_after_waits :
    (route other : String) (seconds t now : ℕ) (is_global : Bool) (l : RateLimiter)
    → (is_global ≡ true) ⊎ (other ≡ route)
    → t + seconds ≤ now + before_request other now (note_retry_after route seconds is_global t l)
unfolding before_request note_retry_after
retry_after_waits route other seconds t now is_global l h = ground (arith, ==_iff route other)

-- A 429 on one route, global or not, never shortens the wait of a request on another route.
pub retry_after_monotone :
    (route other : String) (seconds t now : ℕ) (is_global : Bool) (l : RateLimiter)
    → other ≢ route
    → before_request other now l
      ≤ before_request other now (note_retry_after route seconds is_global t l)
unfolding before_request note_retry_after
retry_after_monotone route other seconds t now is_global l h = ground (arith, ==_iff route other)
