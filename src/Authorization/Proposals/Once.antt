-- ===== src/Authorization/Proposals/Once.antt =====
-- Bookkeeping of proposals and approvals runs no effect and writes no commit.
use nunchi.Authorization.Dispatch.Once.{Inv}
use nunchi.Authorization.Proposals.{
  expire_each, expire_waiting, proposals, withdraw, show_each, pending_for_operator, cancel, ℕ,
  WakeFacts, PendingApproval, withdraw_waiting, cancel_each, expire_one,
}
use nunchi.Prelude.{String, ◌≡◌, ℕ, List}
use nunchi.Prelude.{[], ◌∷◌, refl}
use nunchi.Authorization.Effects.Reads.{Keeps-now, Keeps-is_set}
use nunchi.Authorization.Types.{World, Core, PendingApproval}
use nunchi.Authorization.Exec.{modify}
use nunchi.Authorization.Exec.Uses.{
  keeps_rules, Keeps, Keeps-modify, Keeps-bind, Uses-if, Keeps-ask, Keeps-pure,
}

module _ (f : String) where
  -- A change that leaves the journal and the calls alone keeps the invariant.
  pub Inv-other : (c d : Core) → d.journal ≡ c.journal → d.calls ≡ c.calls → Inv f c → Inv f d
  Inv-other c d j k v = record {
    once = rw j v.once;
    marked = rw j v.marked;
    paid = rw (j, k) v.paid;
  }

  pub modify-Inv :
      (g : Core → Core)
      → ((c : Core) → (g c).journal ≡ c.journal)
      → ((c : Core) → (g c).calls ≡ c.calls)
      → Keeps (Inv f) (modify g)
  modify-Inv g j k = Keeps-modify g (λ c v. Inv-other c (g c) (j c) (k c) v)

  expire_one-Inv :
      (id : String) (item : PendingApproval) → Keeps (Inv f) (modify (expire_one id item))
  unfolding expire_one
  expire_one-Inv id item = modify-Inv (expire_one id item) (λ c. refl) (λ c. refl)

  withdraw_waiting-Inv : (id : String) → Keeps (Inv f) (modify (withdraw_waiting id))
  unfolding withdraw_waiting
  withdraw_waiting-Inv id = modify-Inv (withdraw_waiting id) (λ c. refl) (λ c. refl)

  module _ (w : World) where
    pub expire_each-Inv :
        (t : ℕ) (items : List (String × PendingApproval)) → Keeps (Inv f) (expire_each w t items)
    unfolding expire_each
    expire_each-Inv t [] = search keeps_rules
    expire_each-Inv t ((id, item) ∷ rest) = Keeps-bind _ _ (Keeps-is_set w item.cancel) (λ o.
        Keeps-bind _ _ (Uses-if _ _ _ (λ _. expire_one-Inv id item) (λ _. Keeps-pure tt))
          (λ _. expire_each-Inv t rest))

    pub expire_waiting-Inv : (t : ℕ) → Keeps (Inv f) (expire_waiting w t)
    unfolding expire_waiting
    expire_waiting-Inv t = search (keeps_rules, expire_each-Inv)

    pub proposals-Inv : Keeps (Inv f) (proposals w)
    unfolding proposals
    proposals-Inv = search (keeps_rules, Keeps-now, expire_waiting-Inv)

    pub withdraw-Inv : (id : String) (wake : WakeFacts) → Keeps (Inv f) (withdraw w id wake)
    unfolding withdraw
    withdraw-Inv id wake =
        search (keeps_rules, Keeps-now, expire_waiting-Inv, withdraw_waiting-Inv) depth 10

    show_each-Inv : (items : List (String × PendingApproval)) → Keeps (Inv f) (show_each w items)
    unfolding show_each
    show_each-Inv [] = search keeps_rules
    show_each-Inv ((id, item) ∷ rest) =
        Keeps-bind _ _ (Keeps-ask _) (λ o. Keeps-bind _ _ (show_each-Inv rest) (λ x. Keeps-pure _))

    pub pending_for_operator-Inv : Keeps (Inv f) (pending_for_operator w)
    unfolding pending_for_operator
    pending_for_operator-Inv =
        search (keeps_rules, Keeps-now, expire_waiting-Inv, show_each-Inv) depth 8

  pub cancel-Inv : Keeps (Inv f) cancel
  unfolding cancel
  cancel-Inv =
      modify-Inv (λ c. record c { proposals = cancel_each c.pending c.proposals; pending = [] })
        (λ c. refl) (λ c. refl)
