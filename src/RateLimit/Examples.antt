-- ===== src/RateLimit/Examples.antt =====
-- A small backstop and a limiter at work.
use nunchi.Prelude.{
  [], List, count, ◌+◌, ◌≢◌, String, ◌≡◌, ◌≤◌, ℕ, ◌∷◌, arith, refl, false, inr, false_is_not_true,
  ==_iff, string_has_eq,
}
use nunchi.RateLimit.{SendBackstop, try_acquire, before_request, new_limiter, note_retry_after}
use nunchi.RateLimit.Window.{sends_bounded, send_all, in_window}
use nunchi.RateLimit.Waits.{retry_after_waits, retry_after_monotone}

abbrev backstop : SendBackstop
backstop = record { max_sends = 2; window_seconds = 10; sent = λ _. [] }

-- Three sends in one window, one on another channel, and one after the window.
abbrev requests : List (String × ℕ)
requests = ("a", 1) ∷ ("a", 2) ∷ ("b", 2) ∷ ("a", 3) ∷ ("a", 12) ∷ []

send_all_test : (send_all "a" backstop [] requests).0 ≡ 12 ∷ 2 ∷ 1 ∷ []
unfolding send_all try_acquire
send_all_test = refl

sends_bounded_example : count (in_window 10 3) (send_all "a" backstop [] requests).0 ≤ 2
sends_bounded_example =
    sends_bounded "a" backstop requests 3 (omega arith) refl
      (omega arith, (omega arith, (omega arith, (omega arith, (omega arith, tt)))))

retry_after_waits_example :
    100 + 30 ≤ 110 + before_request "send" 110 (note_retry_after "send" 30 false 100 new_limiter)
retry_after_waits_example = retry_after_waits "send" "send" 30 100 110 false new_limiter (inr refl)

other_route : ◌≢◌ {A = String} "read" "send"
other_route e = false_is_not_true ((==_iff "read" "send").1 e)

retry_after_monotone_example :
    before_request "read" 110 new_limiter
    ≤ before_request "read" 110 (note_retry_after "send" 30 false 100 new_limiter)
retry_after_monotone_example =
    retry_after_monotone "send" "read" 30 100 110 false new_limiter other_route
