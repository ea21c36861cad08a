-- ===== src/Authorization/Exec.antt =====
-- Methods of the coordinator: they change its state, ask the outside world, and may raise.
-- What was done before an exception stays done, so the state comes back beside the error too.
pub mod Uses
use nunchi.Prelude.{ℕ, suc, Option, none, some}
use nunchi.Authorization.Types.{Core}

pub data Error : Type 0 where
  authorization_error validation_error other_error : Error

pub data Result {ℓ} (A : Type ℓ) : Type ℓ where
  ok : A → Result A
  err : Error → Result A

-- `tick` counts the questions that the outside has answered.
pub record State : Type 0 where
  pub tick : ℕ
  pub core : Core

abbrev pub Exec : Type 0 → Type 0
Exec A = State → Result A × State

module _ {A : Type 0} where
  unfoldable pub pure : A → Exec A
  pure a s = (ok a, s)

  pub raise : Error → Exec A
  raise e s = (err e, s)

  -- a question to the outside
  pub ask : (ℕ → A) → Exec A
  ask f s = (ok (f s.tick), record s { tick = suc s.tick })

  abbrev or_raise : Error → Option A → Result A
  or_raise e none = err e
  or_raise e (some a) = ok a

  -- a question that may raise
  pub try_ask : Error → (ℕ → Option A) → Exec A
  try_ask e f s = (or_raise e (f s.tick), record s { tick = suc s.tick })

  unfoldable pub gets : (Core → A) → Exec A
  gets f s = (ok (f s.core), s)

unfoldable pub modify : (Core → Core) → Exec (Unit {0})
modify f s = (ok tt, record s { core = f s.core })

module _ {A B : Type 0} where
  abbrev pub continue : Result A → (A → Exec B) → Exec B
  continue (ok a) f s = f a s
  continue (err e) f s = (err e, s)

  infixl 10 ◌>>=◌
  unfoldable pub ◌>>=◌ : Exec A → (A → Exec B) → Exec B
  unfolding pure raise ask try_ask gets modify
  ◌>>=◌ m f s = let (r, s') = m s in continue r f s'

infixl 10 ◌>>◌
abbrev pub ◌>>◌ : {A B : Type 0} → Exec A → Exec B → Exec B
m >> n = m >>= λ _. n

module _ {A : Type 0} where
  abbrev pub reraise : Exec (Unit {0}) → Result A → Exec A
  reraise handler (ok a) s = (ok a, s)
  reraise handler (err e) s = let (r, s') = handler s in continue r (λ _ s. (err e, s)) s'

  -- `try: m` / `except BaseException: handler; raise`
  pub on_error : Exec A → Exec (Unit {0}) → Exec A
  on_error m handler s = let (r, s') = m s in reraise handler r s'

abbrev pub quiet : Result (Unit {0}) → Result (Unit {0})
quiet (err authorization_error) = ok tt
quiet (err validation_error) = ok tt
quiet r = r

-- `try: m` / `except (AuthorizationError, ValidationError): pass`
pub best_effort : Exec (Unit {0}) → Exec (Unit {0})
best_effort m s = let (r, s') = m s in (quiet r, s')
