-- ===== src/Scheduler/Commit.antt =====
-- Tokens of the scheduler: their commits, which of them are current, and what a cancel does to them.
use mathlib.Core.List.{Memᴰ}
use nunchi.Prelude.{
  ℕ, ◌≤◌, ◌<◌, String, ◌≡◌, refl, some, List, [], ◌∷◌, arith, ◌==◌, nat_has_eq, string_has_eq,
  count, Descends, ◌∙◌, sym, true, false, Bool, ap, nat_eq_iff, none, ◌≢◌, Option, ==_iff, ◌+◌,
  ==_refl,
}
use nunchi.Scheduler.{
  OpportunityToken, Scheduler, init, is_current, offer, complete, cancel, expire,
  authorize_effect_commit, work, commit_dispatch,
}
use nunchi.Scheduler.Invariant.{
  start, run, generations, Inv, run-Inv, step, cancel_op, run-Grown, Script,
}

count-Descends : (g b : ℕ) (xs : List ℕ) → b ≤ g → Descends b xs → count (λ c. c == g) xs ≡ 0
count-Descends g b [] h d = refl
count-Descends g b (x ∷ xs) h d = ground (arith, count-Descends g x xs)

count-Descends_le : (g b : ℕ) (xs : List ℕ) → Descends b xs → count (λ c. c == g) xs ≤ 1
count-Descends_le g b [] d = omega arith
count-Descends_le g b (x ∷ xs) d = ground (arith, count-Descends g x xs, count-Descends_le g x xs)

pub Inv-start : (key id : String) (s : Scheduler) → init key id ≡ some s → Inv (start s)
unfolding init
Inv-start key id s e = ground arith

bounded :
    (b : ℕ) {t : OpportunityToken} (ts : List OpportunityToken)
    → Descends b (generations ts)
    → Memᴰ t ts
    → t.generation < b
bounded b [] d m = elim m [ ]
bounded b (x ∷ ts) d (Memᴰ.head e) = rw e d.0
bounded b (x ∷ ts) d (Memᴰ.tail m) = omega (arith, bounded x.generation ts d.1 m)

-- Among tokens with falling generations, two with one generation are one token.
same_generation :
    (b : ℕ) {t u : OpportunityToken} (ts : List OpportunityToken)
    → Descends b (generations ts)
    → Memᴰ t ts
    → Memᴰ u ts
    → t.generation ≡ u.generation
    → t ≡ u
same_generation b [] d m n e = elim m [ ]
same_generation b (x ∷ ts) d (Memᴰ.head p) (Memᴰ.head q) e = p ∙ sym q
same_generation b {t} {u} (x ∷ ts) d (Memᴰ.head p) (Memᴰ.tail n) e =
    absurd
      (omega (arith, bounded x.generation ts d.1 n, ap (λ (y : OpportunityToken). y.generation) p))
same_generation b {t} {u} (x ∷ ts) d (Memᴰ.tail m) (Memᴰ.head q) e =
    absurd
      (omega (arith, bounded x.generation ts d.1 m, ap (λ (y : OpportunityToken). y.generation) q))
same_generation b (x ∷ ts) d (Memᴰ.tail m) (Memᴰ.tail n) e =
    same_generation x.generation ts d.1 m n e

current_generation :
    (s : Scheduler) (t : OpportunityToken) → is_current s t ≡ true → t.generation ≡ s.generation
unfolding is_current
current_generation s t h = ground (arith, nat_eq_iff t.generation s.generation)

-- What a token of an earlier generation can do: nothing.
pub record IsDead (t : OpportunityToken) (s : Scheduler) : Type 0 where
  pub not_current : is_current s t ≡ false
  pub no_completion : complete t s ≡ (none, s)
  pub no_expiry : expire t s ≡ s
  pub no_commit : (d : Option ℕ) (now : ℕ) → authorize_effect_commit t d now s ≡ (false, s)
  pub no_dispatch :
      (dispatcher : Scheduler → ℕ × Scheduler) → commit_dispatch t dispatcher s ≡ (none, s)

older-IsDead : (t : OpportunityToken) (s : Scheduler) → t.generation < s.generation → IsDead t s
unfolding is_current complete expire authorize_effect_commit commit_dispatch
older-IsDead t s h = record {
  not_current = ground arith;
  no_completion = ground arith;
  no_expiry = ground arith;
  no_commit = λ d now. elim d as (λ d. authorize_effect_commit t d now s ≡ (false, s)) [
    | none ↦ refl
    | some e ↦ ground arith
  ];
  no_dispatch = λ f. ground arith;
}

module _ (key id : String) (s : Scheduler) (made : init key id ≡ some s) (os : Script) where
  history-Inv : Inv (run (start s) os)
  history-Inv = run-Inv (start s) os (Inv-start key id s made)

  -- In every history of a new scheduler, with effects and dispatches, whatever the dispatchers do to
  -- the scheduler, whatever tokens are presented and however often: for each generation at most one
  -- effect is authorized or one dispatcher called.
  pub commit_once : (g : ℕ) → count (λ c. c == g) (run (start s) os).commits ≤ 1
  commit_once g = count-Descends_le g _ (run (start s) os).commits history-Inv.commits_fresh

  -- After any history of a new scheduler, two tokens that were given out and are both current are the
  -- same token: at most one opportunity is live.
  pub one_current :
      (t u : OpportunityToken)
      → Memᴰ t (run (start s) os).issued
      → Memᴰ u (run (start s) os).issued
      → is_current (run (start s) os).scheduler t ≡ true
      → is_current (run (start s) os).scheduler u ≡ true
      → t ≡ u
  one_current t u m n ct cu =
      let h = run (start s) os in
      same_generation _ h.issued history-Inv.issued_fresh m n
        (current_generation h.scheduler t ct ∙ sym (current_generation h.scheduler u cu))

  -- A token that a new scheduler gave out in any history is dead after a cancel, whatever is done
  -- then, dispatches included: it is never current again, completes nothing, and commits neither an
  -- effect nor a dispatch.
  pub cancel-IsDead :
      (t : OpportunityToken) (id : String) (later : Script)
      → Memᴰ t (run (start s) os).issued
      → IsDead t (run (step (run (start s) os) (cancel_op id)) later).scheduler
  unfolding step cancel
  cancel-IsDead t id later m =
      let h = run (start s) os in
      older-IsDead t _ (
        omega (
          arith,
          bounded _ h.issued history-Inv.issued_fresh m,
          run-Grown (step h (cancel_op id)) later,
        ))

-- An idle scheduler answers an offer with a proper anchor by a current token for that anchor;
-- until then it had no current token.
pub offer-is_current :
    (anchor : String) (idle : Bool) (s : Scheduler) (old : OpportunityToken)
    → anchor ≢ ""
    → s.active ≡ false
    → (t : OpportunityToken) × ((offer anchor idle s).0 ≡ work t)
      × (t.anchor_event_id ≡ anchor)
      × (is_current (offer anchor idle s).1 t ≡ true)
      × (is_current s old ≡ false)
unfolding offer is_current
offer-is_current anchor idle s old h i =
    let ne = λ (e : (anchor == "") ≡ true). h ((==_iff anchor "").0 e) in
    (
      record {
        room_key = s.room_key;
        generation = s.generation + 1;
        anchor_event_id = anchor;
        cancel_event = s.next_event;
      },
      ground (arith, ne),
      refl,
      ground (arith, ne, ==_refl s.room_key),
      ground arith,
    )

-- Expiry ends the work of the current token, and not the message that waits: completing the
-- expired token gives out a current token for the newest anchor that was offered meanwhile.
pub complete-expire_pending :
    (s : Scheduler) (t : OpportunityToken) (anchor : String)
    → anchor ≢ ""
    → is_current s t ≡ true
    → (u : OpportunityToken) × ((complete t (expire t (offer anchor false s).1)).0 ≡ some u)
      × (u.anchor_event_id ≡ anchor)
      × (is_current (complete t (expire t (offer anchor false s).1)).1 u ≡ true)
unfolding offer is_current complete expire
complete-expire_pending s t anchor h c =
    let ne = λ (e : (anchor == "") ≡ true). h ((==_iff anchor "").0 e) in
    (
      record {
        room_key = s.room_key;
        generation = s.generation + 1;
        anchor_event_id = anchor;
        cancel_event = s.next_event;
      },
      ground (arith, ne),
      refl,
      ground (arith, ne, ==_refl s.room_key),
    )
