-- ===== src/Authorization/Dispatch.antt =====
-- The three ways to an effect in src/nunchi/authorization.py: `_dispatch_once`,
-- `_dispatch_approved_once` and `_retry_unknown_effect`. Each checks its authority, writes a commit
-- to the journal, checks again, and only then calls the executor.
use nunchi.Prelude.{ℕ, Bool, Option, if◌then◌else◌, false, not, ◌&&◌, some, true, ◌||◌, none}
pub mod Once
use Prim.Native.String.{◌++◌ as concat, String}
use nunchi.Authorization.Types.{TransportResult, effect_commit, effect_retry_commit, Commit, World}
use nunchi.Authorization.Exec.{Exec, pure, ask, gets, ◌>>=◌, ◌>>◌, on_error}
use nunchi.Authorization.Policy.{consumed, is_unknown}
use nunchi.Authorization.Journal.{append, idempotency_key}
use nunchi.Authorization.Effects.{
  failure, is_set, now, load_policy, same_key, Authority, direct_authority, approved_authority,
  retry_authority, Grant, effect_of, key_of, recheck, Refusals, record_not_attempted, run_effect,
}

-- The second check, after the commit is durable; `some` is a refusal.
native_recheck : World → Authority → Refusals → Grant → Bool → Bool → Exec (Option String)
native_recheck w authority words g retry committed = do
  cancelled ← is_set w g.cancel
  if cancelled then pure (some words.cancelled_before_native) else do
    p ← load_policy w
    t ← now w
    still ← recheck w authority g p t retry committed
    keyed ←
        gets (λ c. not retry || same_key (idempotency_key c.journal (effect_of w g)) (key_of w g))
    late ← is_set w g.cancel
    pure (if still && keyed && not late then none else some words.changed_before_native)

-- Every exit before the executor closes the commit as not attempted.
native_effect : World → Refusals → Grant → Option String → Exec TransportResult
native_effect w words g none = run_effect w g (key_of w g)
native_effect w words g (some refusal) = do record_not_attempted w g refusal; pure (failure refusal)

execute_committed : World → Authority → Refusals → Grant → Bool → Bool → Exec TransportResult
unfolding native_recheck native_effect
execute_committed w authority words g retry committed = do
  refusal ←
      on_error (native_recheck w authority words g retry committed)
        (record_not_attempted w g words.recheck_failed)
  native_effect w words g refusal

commit_of : World → Grant → ℕ → Commit
commit_of w g t = record {
  effect_fingerprint = effect_of w g;
  action_id = g.binding.action_id;
  decision_id = g.decision.decision_id;
  action_digest = g.binding.action_digest;
  idempotency_key = key_of w g;
  committed_at = t;
}

-- The one-use gate: consumption is durable before the native call, or there is none.
consume : World → Refusals → Grant → ℕ → Exec (Option String)
unfolding commit_of
consume w words g t = do
  used ← gets (λ c. consumed c.journal (effect_of w g))
  if used then pure (some words.replayed) else do
    cancelled ← is_set w g.cancel
    if cancelled
        then pure (some words.cancelled_before_commit)
        else do append w (effect_commit (commit_of w g t)); pure none

after_gate : World → Authority → Refusals → Grant → Option String → Exec TransportResult
unfolding execute_committed
after_gate w authority words g none = execute_committed w authority words g false true
after_gate w authority words g (some refusal) = pure (failure refusal)

dispatch_under : World → Authority → Refusals → Grant → Exec TransportResult
unfolding consume after_gate
dispatch_under w authority words g = do
  cancelled ← is_set w g.cancel
  if cancelled then pure (failure words.cancelled) else do
    p ← load_policy w
    late ← is_set w g.cancel
    if late then pure (failure words.cancelled_in_recheck) else do
      t ← now w
      still ← recheck w authority g p t false false
      if not still
          then pure (failure words.changed)
          else do gate ← consume w words g t; after_gate w authority words g gate

abbrev once_words : Refusals
once_words = record {
  cancelled = "privileged work cancelled before commit";
  cancelled_in_recheck = "privileged work cancelled during policy recheck";
  changed = "authorization changed before effect commit";
  replayed = "authorization replay rejected";
  cancelled_before_commit = "privileged work cancelled before effect commit";
  cancelled_before_native = "privileged work cancelled before native effect";
  changed_before_native = "authorization changed before native effect";
  recheck_failed = "authority recheck failed";
}

abbrev approved_words : Refusals
approved_words = record {
  cancelled = "approved work was cancelled before commit";
  cancelled_in_recheck = "approved work was cancelled during policy recheck";
  changed = "approved authority changed before effect commit";
  replayed = "approved action replay rejected";
  cancelled_before_commit = "approved work was cancelled before effect commit";
  cancelled_before_native = "approved work was cancelled before native effect";
  changed_before_native = "approved authority changed before native effect";
  recheck_failed = "approved authority recheck failed";
}

abbrev retry_words : Refusals
retry_words = record {
  cancelled = "unknown-effect retry was cancelled";
  cancelled_in_recheck = "unknown-effect retry was cancelled during policy recheck";
  changed = "unknown-effect retry authority changed";
  replayed = "unknown-effect retry has no unknown predecessor";
  cancelled_before_commit = "unknown-effect retry was cancelled before commit";
  cancelled_before_native = "unknown-effect retry was cancelled before native effect";
  changed_before_native = "unknown-effect retry authority changed before native effect";
  recheck_failed = "retry authority recheck failed";
}

unfoldable pub dispatch_once : World → Grant → Exec TransportResult
unfolding dispatch_under
dispatch_once w g = dispatch_under w direct_authority once_words g

unfoldable pub dispatch_approved_once : World → Grant → Exec TransportResult
unfolding dispatch_under
dispatch_approved_once w g = dispatch_under w approved_authority approved_words g

retry_commit : World → Authority → Grant → ℕ → Exec TransportResult
unfolding commit_of execute_committed
retry_commit w authority g t = do
  key ← gets (λ c. idempotency_key c.journal (effect_of w g))
  if not (same_key key (key_of w g))
      then pure (failure "unknown-effect target idempotency binding changed")
      else do
        id ← ask w.fresh
        cancelled ← is_set w g.cancel
        if cancelled then pure (failure retry_words.cancelled_before_commit) else do
          append w (effect_retry_commit (commit_of w g t) (concat "effect-retry:" id))
          execute_committed w authority retry_words g true false

-- `authenticated_approval` is the flag
unfoldable pub retry_unknown_effect : World → Bool → Grant → Exec TransportResult
unfolding retry_commit
retry_unknown_effect w approval g = do
  cancelled ← is_set w g.cancel
  if cancelled then pure (failure retry_words.cancelled) else do
    known ← gets (λ c. consumed c.journal (effect_of w g) && is_unknown c.journal (effect_of w g))
    if not known then pure (failure retry_words.replayed) else do
      p ← load_policy w
      late ← is_set w g.cancel
      if late then pure (failure retry_words.cancelled_in_recheck) else do
        t ← now w
        still ← recheck w (retry_authority approval g.rule) g p t true false
        if not still
            then pure (failure retry_words.changed)
            else retry_commit w (retry_authority approval g.rule) g t
