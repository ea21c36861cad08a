-- ===== src/Authorization/Effects/Reads.antt =====
-- Questions to the outside change nothing of the coordinator's own state.
use nunchi.Authorization.Proposals.{WakeFacts}
use nunchi.Prelude.{ℕ, Bool}
use nunchi.Authorization.Binding.{strictly_after, build_binding, ProposalDoc}
use nunchi.Authorization.Effects.{is_set, load_policy, now, recheck, Grant, Authority}
use nunchi.Authorization.Types.{World, Core, Lifetime, PolicySnapshot}
use nunchi.Authorization.Exec.Uses.{Uses, keeps_rules, Keeps}

module _ {P : Core → Type 0} (w : World) where
  pub Keeps-is_set : (l : Lifetime) → Keeps P (is_set w l)
  unfolding is_set
  Keeps-is_set l = search keeps_rules

  pub Keeps-load_policy : Keeps P (load_policy w)
  unfolding load_policy
  Keeps-load_policy = search keeps_rules

  pub Keeps-now : Keeps P (now w)
  unfolding now
  Keeps-now = search keeps_rules

  pub Keeps-strictly_after : (t : ℕ) → Keeps P (strictly_after w t)
  unfolding strictly_after
  Keeps-strictly_after t = search (keeps_rules, Keeps-now)

  pub Keeps-build_binding : (p : ProposalDoc) (wake : WakeFacts) → Keeps P (build_binding w p wake)
  unfolding build_binding
  Keeps-build_binding p wake = search keeps_rules

  pub Keeps-recheck :
      (g : Grant) (a : Authority) (p : PolicySnapshot) (t : ℕ) (retry committed : Bool)
      → Keeps P (recheck w a g p t retry committed)
  unfolding recheck
  Keeps-recheck g a p t retry committed = search keeps_rules

pub ruleset read_rules = (
  keeps_rules, Keeps-is_set, Keeps-load_policy, Keeps-now, Keeps-strictly_after,
  Keeps-build_binding, Keeps-recheck,
)
