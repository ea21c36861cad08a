-- ===== src/Authorization/Dispatch/Once.antt =====
-- The commits, retries and calls of one effect fingerprint `f`: an invariant of the coordinator's
-- state, through the dispatch paths.
use nunchi.Authorization.Effects.Reads.{Keeps-now, Keeps-is_set, Keeps-load_policy, Keeps-recheck}
use nunchi.Authorization.Dispatch.{
  native_effect, native_recheck, execute_committed, consume, after_gate, dispatch_under, Refusals,
  commit_of, dispatch_once, dispatch_approved_once, retry_commit, retry_unknown_effect, retry_words,
  once_words, approved_words,
}
use nunchi.Authorization.Effects.{
  Grant, call_executor, effect_of, is_set, record_not_attempted, run_effect, Authority, Refusals,
  key_of, direct_authority, approved_authority, failure,
}
use nunchi.Authorization.Exec.Uses.{
  Keeps, Uses, keeps_rules, Uses-then, Uses-bind, Ends, Ends-bind, Uses-weaken, Keeps-on_error,
  Keeps-bind, Keeps-pure,
}
use nunchi.Authorization.Exec.{◌>>=◌, ◌>>◌}
use nunchi.Prelude.{
  ℕ, ==_refl, count-append, String, Bool, count, ◌≤◌, ◌==◌, List, ◌≡◌, false, string_has_eq, ◌<◌,
  true, elem, ◌+◌, arith, ◌∷◌, [], ==_iff, Option, refl, some, none,
}
use nunchi.Authorization.Types.{
  Core, Record, effect_commit, effect_retry_commit, effect_result, authorization_contract, Commit,
  World, EffectOutcome,
}
use nunchi.Authorization.Policy.{consumed}
use nunchi.Authorization.Journal.{record_in, insert_key, append}

abbrev pub is_commit : String → Record → Bool
is_commit f (effect_commit c) = c.effect_fingerprint == f
is_commit f _ = false

abbrev pub is_retry : String → Record → Bool
is_retry f (effect_retry_commit c id) = c.effect_fingerprint == f
is_retry f _ = false

-- How often the journal has committed, and committed to retry, and how often the executor was called.
abbrev pub commits : String → Core → ℕ
commits f c = count (is_commit f) c.journal.records

abbrev pub retries : String → Core → ℕ
retries f c = count (is_retry f) c.journal.records

abbrev pub calls : String → Core → ℕ
calls f c = count (λ k. k.fingerprint == f) c.calls

pub record Inv (f : String) (c : Core) : Type 0 where
  pub once : commits f c ≤ 1
  pub marked : 0 < commits f c → consumed c.journal f ≡ true
  pub paid : calls f c ≤ commits f c + retries f c

-- A commit of the effect `x` that has not been spent.
pub record Credit (f x : String) (c : Core) : Type 0 where
  pub inv : Inv f c
  pub unspent : (x == f) ≡ true → calls f c < commits f c + retries f c

elem-insert_key_self : (f : String) (fs : List String) → elem f (insert_key f fs) ≡ true
elem-insert_key_self f fs = ground (arith, ==_refl f)

elem-insert_key :
    (f x : String) (fs : List String) → elem f fs ≡ true → elem f (insert_key x fs) ≡ true
elem-insert_key f x fs h = ground arith

module _ (f : String) where
  -- Any record but a commit leaves the invariant alone.
  record_in-Inv :
      (r : Record) (c : Core)
      → is_commit f r ≡ false
      → Inv f c
      → Inv f (record c { journal = record_in r c.journal })
  unfolding record_in
  record_in-Inv (authorization_contract k t) c n v = ground (
    arith,
    count-append (is_commit f) c.journal.records (authorization_contract k t ∷ []),
    count-append (is_retry f) c.journal.records (authorization_contract k t ∷ []),
  )
  record_in-Inv (effect_result x a o d t) c n v = ground (
    arith,
    count-append (is_commit f) c.journal.records (effect_result x a o d t ∷ []),
    count-append (is_retry f) c.journal.records (effect_result x a o d t ∷ []),
  )
  record_in-Inv (effect_retry_commit k t) c n v = ground (
    arith,
    count-append (is_commit f) c.journal.records (effect_retry_commit k t ∷ []),
    count-append (is_retry f) c.journal.records (effect_retry_commit k t ∷ []),
  )
  record_in-Inv (effect_commit k) c n v = ground (
    arith,
    elem-insert_key f k.effect_fingerprint c.journal.consumed_effects,
    count-append (is_commit f) c.journal.records (effect_commit k ∷ []),
    count-append (is_retry f) c.journal.records (effect_commit k ∷ []),
  )

  pub append-Inv : (w : World) (r : Record) → is_commit f r ≡ false → Keeps (Inv f) (append w r)
  unfolding append ◌>>=◌
  append-Inv w r n = record { at = λ s v. ground (arith, record_in-Inv r s.core n v) }

  -- A durable commit of an effect that was not consumed can be spent once.
  commit-Credit :
      (k : Commit) (c : Core)
      → consumed c.journal k.effect_fingerprint ≡ false
      → Inv f c
      → Credit f k.effect_fingerprint (record c { journal = record_in (effect_commit k) c.journal })
  unfolding record_in
  commit-Credit k c u v = ground (
    arith,
    ==_iff k.effect_fingerprint f,
    elem-insert_key_self f c.journal.consumed_effects,
    elem-insert_key f k.effect_fingerprint c.journal.consumed_effects,
    count-append (is_commit f) c.journal.records (effect_commit k ∷ []),
    count-append (is_retry f) c.journal.records (effect_commit k ∷ []),
  )

  retry-Credit :
      (k : Commit) (id : String) (c : Core)
      → Inv f c
      → Credit f k.effect_fingerprint
          (record c { journal = record_in (effect_retry_commit k id) c.journal })
  unfolding record_in
  retry-Credit k id c v = ground (
    arith,
    count-append (is_commit f) c.journal.records (effect_retry_commit k id ∷ []),
    count-append (is_retry f) c.journal.records (effect_retry_commit k id ∷ []),
  )

  module _ (w : World) (g : Grant) where
    call-Inv :
        (key : Option String) → Uses (Credit f (effect_of w g)) (Inv f) (call_executor w g key)
    unfolding call_executor ◌>>=◌
    call-Inv key = record { at = λ s v. ground arith }

    Credit-Inv : (c : Core) → Credit f (effect_of w g) c → Inv f c
    Credit-Inv c v = v.inv

    append_result-Inv :
        (x a : String) (o : EffectOutcome) (d : String) (t : ℕ)
        → Keeps (Inv f) (append w (effect_result x a o d t))
    append_result-Inv x a o d t = append-Inv w (effect_result x a o d t) refl

    record_not_attempted-Inv : (reason : String) → Keeps (Inv f) (record_not_attempted w g reason)
    unfolding record_not_attempted
    record_not_attempted-Inv reason = search (keeps_rules, Keeps-now, append_result-Inv)

    run_effect-Inv :
        (key : Option String) → Uses (Credit f (effect_of w g)) (Inv f) (run_effect w g key)
    unfolding run_effect
    run_effect-Inv key =
        Uses-then (call_executor w g key) _ (call-Inv key)
          (λ a. search (keeps_rules, Keeps-now, append_result-Inv))

    native_effect-Inv :
        (words : Refusals) (r : Option String)
        → Uses (Credit f (effect_of w g)) (Inv f) (native_effect w words g r)
    unfolding native_effect
    native_effect-Inv words none = run_effect-Inv (key_of w g)
    native_effect-Inv words (some reason) =
        Uses-weaken Credit-Inv
          (Keeps-bind _ _ (record_not_attempted-Inv reason) (λ _. Keeps-pure (failure reason)))

    native_recheck-Credit :
        (a : Authority) (words : Refusals) (retry committed : Bool)
        → Keeps (Credit f (effect_of w g)) (native_recheck w a words g retry committed)
    unfolding native_recheck
    native_recheck-Credit a words retry committed =
        search (keeps_rules, Keeps-is_set, Keeps-now, Keeps-load_policy, Keeps-recheck) depth 14

    record_in_result-Credit :
        (x : String) (k a : String) (o : EffectOutcome) (d : String) (t : ℕ) (c : Core)
        → Credit f x c
        → Credit f x (record c { journal = record_in (effect_result k a o d t) c.journal })
    unfolding record_in
    record_in_result-Credit x k a o d t c v = record {
      inv = record_in-Inv (effect_result k a o d t) c refl v.inv;
      unspent = λ e. omega (
        arith,
        v.unspent e,
        count-append (is_commit f) c.journal.records (effect_result k a o d t ∷ []),
        count-append (is_retry f) c.journal.records (effect_result k a o d t ∷ []),
      );
    }

    append_result-Credit :
        (x : String) (k a : String) (o : EffectOutcome) (d : String) (t : ℕ)
        → Keeps (Credit f x) (append w (effect_result k a o d t))
    unfolding append ◌>>=◌
    append_result-Credit x k a o d t = record {
      at = λ s v. ground (arith, record_in_result-Credit x k a o d t s.core v);
    }

    record_not_attempted-Credit :
        (x reason : String) → Keeps (Credit f x) (record_not_attempted w g reason)
    unfolding record_not_attempted
    record_not_attempted-Credit x reason = search (keeps_rules, Keeps-now, append_result-Credit)

    execute_committed-Inv :
        (a : Authority) (words : Refusals) (retry committed : Bool)
        → Uses (Credit f (effect_of w g)) (Inv f) (execute_committed w a words g retry committed)
    unfolding execute_committed
    execute_committed-Inv a words retry committed =
        Uses-bind _ _ Credit-Inv
          (Keeps-on_error _ _ (native_recheck-Credit a words retry committed)
            (record_not_attempted-Credit _ words.recheck_failed))
          (native_effect-Inv words)

    abbrev AfterConsume : Option String → Core → Type 0
    AfterConsume none = Credit f (effect_of w g)
    AfterConsume (some _) = Inv f

    consume-Credit :
        (words : Refusals) (t : ℕ) → Ends (Inv f) AfterConsume (Inv f) (consume w words g t)
    unfolding consume is_set append ◌>>=◌
    consume-Credit words t = record {
      at = λ s v. ground (arith, commit-Credit (commit_of w g t) s.core);
    }

    after_gate-Inv :
        (a : Authority) (words : Refusals) (r : Option String)
        → Uses (AfterConsume r) (Inv f) (after_gate w a words g r)
    unfolding after_gate
    after_gate-Inv a words none = execute_committed-Inv a words false true
    after_gate-Inv a words (some reason) = search keeps_rules

    dispatch_under-Inv :
        (a : Authority) (words : Refusals) → Keeps (Inv f) (dispatch_under w a words g)
    unfolding dispatch_under
    dispatch_under-Inv a words =
        search
          (
            keeps_rules,
            Keeps-is_set,
            Keeps-now,
            Keeps-load_policy,
            Keeps-recheck,
            λ (t : ℕ).
                Ends-bind (consume w words g t) (after_gate w a words g) (consume-Credit words t)
                  (after_gate-Inv a words),
          )
          depth 12

    pub dispatch_once-Inv : Keeps (Inv f) (dispatch_once w g)
    unfolding dispatch_once
    dispatch_once-Inv = dispatch_under-Inv direct_authority once_words

    pub dispatch_approved_once-Inv : Keeps (Inv f) (dispatch_approved_once w g)
    unfolding dispatch_approved_once
    dispatch_approved_once-Inv = dispatch_under-Inv approved_authority approved_words

    append_retry-Credit :
        (k : Commit) (id : String)
        → Ends
            (Inv f)
            (λ _. Credit f k.effect_fingerprint)
            (Inv f)
            (append w (effect_retry_commit k id))
    unfolding append ◌>>=◌
    append_retry-Credit k id = record { at = λ s v. ground (arith, retry-Credit k id s.core) }

    retry_rest :
        (a : Authority) (t : ℕ) (id : String)
        → Keeps (Inv f) (
            append w (effect_retry_commit (commit_of w g t) id)
            >> execute_committed w a retry_words g true false)
    unfolding commit_of
    retry_rest a t id =
        Ends-bind _ _ (append_retry-Credit (commit_of w g t) id)
          (λ _. execute_committed-Inv a retry_words true false)

    retry_commit-Inv : (a : Authority) (t : ℕ) → Keeps (Inv f) (retry_commit w a g t)
    unfolding retry_commit
    retry_commit-Inv a t = search (keeps_rules, Keeps-is_set, retry_rest) depth 12

    pub retry_unknown_effect-Inv :
        (approval : Bool) → Keeps (Inv f) (retry_unknown_effect w approval g)
    unfolding retry_unknown_effect
    retry_unknown_effect-Inv approval =
        search
          (keeps_rules, Keeps-is_set, Keeps-now, Keeps-load_policy, Keeps-recheck, retry_commit-Inv)
          depth 14
