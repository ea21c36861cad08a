-- ===== src/Authorization/Exec/Uses.antt =====
-- What an action does to a predicate on the coordinator's state: one rule for each way to build it.
use nunchi.Prelude.{ℕ, ◌≡◌, refl, Bool, true, false, Option, if◌then◌else◌}
use nunchi.Authorization.Types.{Core}
use nunchi.Authorization.Exec.{
  Error, Exec, pure, raise, ask, try_ask, gets, modify, ◌>>=◌, on_error, best_effort, State, ok,
  err, Result, reraise, continue,
}

-- From a state with `P`, `m` ends in one with `Q`, whether it returns or raises.
pub record Uses {A : Type 0} (P Q : Core → Type 0) (m : Exec A) : Type 0 where
  pub at : (s : State) → P s.core → Q (m s).1.core

abbrev pub Keeps : {A : Type 0} → (Core → Type 0) → Exec A → Type 0
Keeps P m = Uses P P m

after_handler :
    (A : Type 0) (P : Core → Type 0) (e : Error) (q : Result (Unit {0}) × State)
    → P q.1.core
    → P (continue {B = A} q.0 (λ _ u. (err e, u)) q.1).1.core
after_handler A P e (ok _, u) g = g
after_handler A P e (err _, u) g = g

module _ {A : Type 0} {P : Core → Type 0} where
  pub Keeps-pure : (a : A) → Keeps P (pure a)
  unfolding pure
  Keeps-pure a = record { at = λ s h. h }

  pub Keeps-raise : (e : Error) → Keeps P (raise {A = A} e)
  unfolding raise
  Keeps-raise e = record { at = λ s h. h }

  pub Keeps-ask : (f : ℕ → A) → Keeps P (ask f)
  unfolding ask
  Keeps-ask f = record { at = λ s h. h }

  pub Keeps-try_ask : (e : Error) (f : ℕ → Option A) → Keeps P (try_ask e f)
  unfolding try_ask
  Keeps-try_ask e f = record { at = λ s h. h }

  pub Keeps-gets : (f : Core → A) → Keeps P (gets f)
  unfolding gets
  Keeps-gets f = record { at = λ s h. h }

  after_body :
      (k : Exec (Unit {0})) (r : Result A × State)
      → Keeps P k
      → P r.1.core
      → P (reraise k r.0 r.1).1.core
  after_body k (ok a, t) kk h = h
  after_body k (err e, t) kk h = after_handler A P e (k t) (kk.at t h)

  pub Keeps-on_error :
      (m : Exec A) (k : Exec (Unit {0})) → Keeps P m → Keeps P k → Keeps P (on_error m k)
  unfolding on_error
  Keeps-on_error m k km kk = record { at = λ s h. after_body k (m s) kk (km.at s h) }

module _ {A : Type 0} {P Q : Core → Type 0} where
  pub Uses-if :
      (b : Bool) (m n : Exec A)
      → (b ≡ true → Uses P Q m)
      → (b ≡ false → Uses P Q n)
      → Uses P Q (if b then m else n)
  Uses-if true m n km kn = km refl
  Uses-if false m n km kn = kn refl

pub Keeps-modify :
    {P : Core → Type 0} (f : Core → Core) → ((c : Core) → P c → P (f c)) → Keeps P (modify f)
unfolding modify
Keeps-modify f k = record { at = λ s h. k s.core h }

pub Keeps-best_effort :
    {P : Core → Type 0} (m : Exec (Unit {0})) → Keeps P m → Keeps P (best_effort m)
unfolding best_effort
Keeps-best_effort m km = record { at = λ s h. km.at s h }

module _ {A B : Type 0} {P Q : Core → Type 0} where
  bind_cases :
      (f : A → Exec B) (r : Result A × State)
      → ((c : Core) → P c → Q c)
      → ((a : A) → Uses P Q (f a))
      → P r.1.core
      → Q (continue r.0 f r.1).1.core
  bind_cases f (ok a, t) w k h = (k a).at t h
  bind_cases f (err e, t) w k h = w t.core h

  -- `m` keeps `P`, and the rest uses it.
  pub Uses-bind :
      (m : Exec A) (f : A → Exec B)
      → ((c : Core) → P c → Q c)
      → Keeps P m
      → ((a : A) → Uses P Q (f a))
      → Uses P Q (m >>= f)
  unfolding ◌>>=◌
  Uses-bind m f w km kf = record { at = λ s h. bind_cases f (m s) w kf (km.at s h) }

module _ {A B : Type 0} {P Q : Core → Type 0} where
  -- `m` uses `P`, and the rest keeps what it leaves.
  pub Uses-then :
      (m : Exec A) (f : A → Exec B) → Uses P Q m → ((a : A) → Keeps Q (f a)) → Uses P Q (m >>= f)
  unfolding ◌>>=◌
  Uses-then m f um kf = record { at = λ s h. bind_cases f (m s) (λ c g. g) kf (um.at s h) }

module _ {A B : Type 0} {P : Core → Type 0} where
  pub Keeps-bind :
      (m : Exec A) (f : A → Exec B) → Keeps P m → ((a : A) → Keeps P (f a)) → Keeps P (m >>= f)
  Keeps-bind m f km kf = Uses-then m f km kf

abbrev pub Post : {A : Type 0} → (A → Core → Type 0) → (Core → Type 0) → Result A × State → Type 0
Post Q E (ok a, s) = Q a s.core
Post Q E (err e, s) = E s.core

-- From a state with `P`, `m` returns some `a` in a state with `Q a`, or raises in one with `E`.
pub record Ends {A : Type 0} (P : Core → Type 0) (Q : A → Core → Type 0) (E : Core → Type 0)
    (m : Exec A) : Type 0 where
  pub at : (s : State) → P s.core → Post Q E (m s)

module _ {A B : Type 0} {R : Core → Type 0} {Q : A → Core → Type 0} where
  ends_cases :
      (f : A → Exec B) (r : Result A × State)
      → ((a : A) → Uses (Q a) R (f a))
      → Post Q R r
      → R (continue r.0 f r.1).1.core
  ends_cases f (ok a, t) k h = (k a).at t h
  ends_cases f (err e, t) k h = h

  -- The rest may use what `m` leaves for its value.
  pub Ends-bind :
      {P : Core → Type 0} (m : Exec A) (f : A → Exec B)
      → Ends P Q R m
      → ((a : A) → Uses (Q a) R (f a))
      → Uses P R (m >>= f)
  unfolding ◌>>=◌
  Ends-bind m f em kf = record { at = λ s h. ends_cases f (m s) kf (em.at s h) }

pub Uses-weaken :
    {A : Type 0} {P P' Q : Core → Type 0} {m : Exec A}
    → ((c : Core) → P c → P' c)
    → Uses P' Q m
    → Uses P Q m
Uses-weaken w u = record { at = λ s h. u.at s (w s.core h) }

pub ruleset keeps_rules = (
  Keeps-pure, Keeps-raise, Keeps-ask, Keeps-try_ask, Keeps-gets, Keeps-bind, Uses-if,
  Keeps-on_error, Keeps-best_effort,
)
