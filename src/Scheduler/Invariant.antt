-- ===== src/Scheduler/Invariant.antt =====
-- Histories of the scheduler: its methods in any order, and what every history keeps.
use nunchi.Prelude.{
  true, inl, inr, ℕ, suc, ◌+◌, ◌≤◌, ◌<◌, String, ◌≡◌, Bool, false, not, ◌&&◌, Option, none, some,
  List, [], ◌∷◌, map, arith, nat_has_eq, string_has_eq, if◌then◌else◌, Descends, Descends-mono,
  nat_eq_iff, ◌||◌, Bool-cases,
}
use nunchi.Scheduler.{
  OpportunityToken, Scheduler, Offered, work, offer, complete, cancel, expire, set_cancel,
  authorize_effect_commit, commit_dispatch, is_current,
}

-- What the program may do to a scheduler by one method. A token argument may be any token at all.
pub data Op : Type 0 where
  offer_op : String → Bool → Op
  complete_op : OpportunityToken → Op
  cancel_op : String → Op
  expire_op : OpportunityToken → Op
  set_cancel_op : OpportunityToken → Op
  commit_op : OpportunityToken → Option ℕ → ℕ → Op

-- The scheduler with the tokens that it has given out and the generations of its commits, both
-- newest first.
pub record History : Type 0 where
  pub scheduler : Scheduler
  pub issued : List OpportunityToken
  pub commits : List ℕ

abbrev pub tokens_of : Offered → List OpportunityToken → List OpportunityToken
tokens_of (work t) ts = t ∷ ts
tokens_of _ ts = ts

abbrev pub token_of : Option OpportunityToken → List OpportunityToken → List OpportunityToken
token_of none ts = ts
token_of (some t) ts = t ∷ ts

abbrev pub start : Scheduler → History
start s = record { scheduler = s; issued = []; commits = [] }

unfoldable pub step : History → Op → History
step h (offer_op anchor only_if_idle) =
    let (r, s') = offer anchor only_if_idle h.scheduler in
    record h { scheduler = s'; issued = tokens_of r h.issued }
step h (complete_op t) =
    let (r, s') = complete t h.scheduler in
    record h { scheduler = s'; issued = token_of r h.issued }
step h (cancel_op id) = record h { scheduler = cancel id h.scheduler }
step h (expire_op t) = record h { scheduler = expire t h.scheduler }
step h (set_cancel_op t) = record h { scheduler = set_cancel t h.scheduler }
step h (commit_op t deadline now) =
    let (done, s') = authorize_effect_commit t deadline now h.scheduler in
    record h { scheduler = s'; commits = if done then t.generation ∷ h.commits else h.commits }

-- A history: single methods, and calls of `commit_dispatch` with what its dispatcher does to the
-- scheduler meanwhile, since the lock is reentrant. A dispatcher that raises has done what it did.
pub data Script : Type 0 where
  done : Script
  then_op : Op → Script → Script
  then_dispatch : OpportunityToken → Script → Script → Script

-- The history after a dispatcher that turns one history into another; the commit is its call.
abbrev pub dispatching :
    History → OpportunityToken → (History → History) → Scheduler → History × Scheduler
dispatching h t dispatcher s =
    let h' = dispatcher (record h { scheduler = s; commits = t.generation ∷ h.commits }) in
    (h', h'.scheduler)

abbrev pub after_dispatch : History → Option History × Scheduler → History
after_dispatch h (none, s) = record h { scheduler = s }
after_dispatch h (some h', s) = record h' { scheduler = s }

unfoldable pub run : History → Script → History
run h done = h
run h (then_op o rest) = run (step h o) rest
run h (then_dispatch t inner rest) =
    run (after_dispatch h (commit_dispatch t (dispatching h t (λ h'. run h' inner)) h.scheduler))
      rest

abbrev pub generations : List OpportunityToken → List ℕ
generations = map (λ t. t.generation)

-- Every commit so far is of an earlier generation than the next commit can be.
abbrev pub commit_bound : Scheduler → ℕ
commit_bound s = if s.active && not s.dispatch_committed then s.generation else suc s.generation

pub record Inv (h : History) : Type 0 where
  pub issued_fresh : Descends (suc h.scheduler.generation) (generations h.issued)
  pub commits_fresh : Descends (commit_bound h.scheduler) h.commits
  pub idle_is_empty : h.scheduler.active ≡ false → h.scheduler.pending_anchor ≡ none

abbrev pub Grown : Scheduler → Scheduler → Type 0
Grown s t = s.generation ≤ t.generation

-- No method turns the generation back.
pub step-Grown : (h : History) (o : Op) → Grown h.scheduler (step h o).scheduler
unfolding step offer complete cancel expire set_cancel authorize_effect_commit
step-Grown h (offer_op anchor idle) = ground arith
step-Grown h (complete_op t) = ground arith
step-Grown h _ = ground arith

-- The bounds of an invariant hold above it too.
commits_below :
    (s : Scheduler) (n : ℕ) (xs : List ℕ)
    → s.generation < n
    → Descends (commit_bound s) xs
    → Descends n xs
commits_below s n xs h d = Descends-mono (commit_bound s) n xs (ground arith) d

module _ (h : History) (v : Inv h) where
  issued_above : Descends (suc (h.scheduler.generation + 1)) (generations h.issued)
  issued_above =
      Descends-mono (suc h.scheduler.generation) _ (generations h.issued) (omega arith)
        v.issued_fresh

  issued_next : Descends (h.scheduler.generation + 1) (generations h.issued)
  issued_next =
      Descends-mono (suc h.scheduler.generation) _ (generations h.issued) (omega arith)
        v.issued_fresh

  commits_above : Descends (suc (h.scheduler.generation + 1)) h.commits
  commits_above = commits_below h.scheduler _ h.commits (omega arith) v.commits_fresh

  commits_next : Descends (h.scheduler.generation + 1) h.commits
  commits_next = commits_below h.scheduler _ h.commits (omega arith) v.commits_fresh

  commits_here : Descends (suc h.scheduler.generation) h.commits
  commits_here = commits_below h.scheduler _ h.commits (omega arith) v.commits_fresh

-- Every method keeps the invariant.
pub step-Inv : (h : History) (o : Op) → Inv h → Inv (step h o)
unfolding step offer complete cancel expire set_cancel authorize_effect_commit
step-Inv h (offer_op anchor idle) v = ground (arith, issued_next h v, commits_next h v)
step-Inv h (complete_op t) v = ground (arith, issued_next h v, commits_next h v, commits_here h v)
step-Inv h (cancel_op id) v = ground (arith, issued_above h v, commits_above h v)
step-Inv h (expire_op t) v = ground arith
step-Inv h (set_cancel_op t) v = ground arith
step-Inv h (commit_op t none now) v = ground arith
step-Inv h (commit_op t (some deadline) now) v =
    ground (arith, nat_eq_iff t.generation h.scheduler.generation)

-- A dispatch is refused, or it marks its generation as committed and lets the dispatcher run.
module _ (h : History) (t : OpportunityToken) (f : History → History) where
  abbrev marked : History
  marked = record h {
    scheduler = record h.scheduler { dispatch_committed = true };
    commits = t.generation ∷ h.commits;
  }

  dispatch_cases :
      (P : History → Type 0)
      → P h
      → ((is_current h.scheduler t ≡ true)
          → (h.scheduler.dispatch_committed ≡ false)
          → P (f marked))
      → P (after_dispatch h (commit_dispatch t (dispatching h t f) h.scheduler))
  unfolding commit_dispatch
  dispatch_cases P p q =
      elim (Bool-cases (not (is_current h.scheduler t) || h.scheduler.dispatch_committed)) [
        | inl refused ↦ rw refused p
        | inr accepted ↦ rw accepted (
            q (current (is_current h.scheduler t) h.scheduler.dispatch_committed accepted)
              (unmarked (is_current h.scheduler t) h.scheduler.dispatch_committed accepted))
      ]
    where
      current : (a b : Bool) → (not a || b) ≡ false → a ≡ true
      current a b e = ground (arith, e)

      unmarked : (a b : Bool) → (not a || b) ≡ false → b ≡ false
      unmarked a b e = ground (arith, e)

marked-Inv :
    (h : History) (t : OpportunityToken)
    → Inv h
    → is_current h.scheduler t ≡ true
    → h.scheduler.dispatch_committed ≡ false
    → Inv (marked h t (λ h'. h'))
unfolding is_current
marked-Inv h t v c m = ground (arith, nat_eq_iff t.generation h.scheduler.generation)

pub run-Inv : (h : History) (os : Script) → Inv h → Inv (run h os)
unfolding run
run-Inv h done v = v
run-Inv h (then_op o rest) v = run-Inv (step h o) rest (step-Inv h o v)
run-Inv h (then_dispatch t inner rest) v = run-Inv _ rest (
    dispatch_cases h t (λ h'. run h' inner) Inv v
      (λ c m. run-Inv (marked h t (λ h'. h')) inner (marked-Inv h t v c m)))

pub run-Grown : (h : History) (os : Script) → Grown h.scheduler (run h os).scheduler
unfolding run
run-Grown h done = omega arith
run-Grown h (then_op o rest) = omega (arith, step-Grown h o, run-Grown (step h o) rest)
run-Grown h (then_dispatch t inner rest) =
    let h' =
      after_dispatch h (commit_dispatch t (dispatching h t (λ h'. run h' inner)) h.scheduler) in
    omega (
      arith,
      dispatch_cases h t (λ h'. run h' inner) (λ h'. Grown h.scheduler h'.scheduler) (omega arith)
          (λ c m. run-Grown (marked h t (λ h'. h')) inner),
      run-Grown h' rest,
    )
