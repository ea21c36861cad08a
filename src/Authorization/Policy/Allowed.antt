-- ===== src/Authorization/Policy/Allowed.antt =====
-- The evaluations of `_evaluate` that allow an effect, and the rules that they name.
use nunchi.Authorization.Policy.{
  first_rule, evaluate, evaluate_rule, matching_rule, Bool, passed, rule_matches, true, is_high,
  consumed, is_unknown, Option, Evaluation,
}
use nunchi.Authorization.Types.{
  World, Journal, Binding, PolicySnapshot, CapabilityRule, Reason, allow, Outcome, deny, replay,
  revoked, expired, policy_deny, policy_allow, approval_required, needs_approval,
}
use mathlib.Core.List.{Memᴰ}
use nunchi.Prelude.{
  ℕ, List, Bool, ◌≡◌, false, some, true, ◌∷◌, ◌⊎◌, [], none, Option, Bool-cases, passed_both,
  if◌then◌else◌, inl, ==_iff, false_is_not_true, sym, string_has_eq, ◌&&◌, ap, subst, not, inr,
  refl, ◌∙◌, ◌||◌, String, ◌==◌,
}

-- What an allowed effect has: a rule of the policy for just this requester, capability, place and
-- resource, in force and for direct use, and no earlier use that this evaluation must refuse.
pub record IsAllowed (w : World) (j : Journal) (b : Binding) (p : PolicySnapshot) (now : ℕ)
    (retry recheck : Bool) (r : CapabilityRule) : Type 0 where
  pub listed : Memᴰ r p.rules
  pub requester : r.requester_actor_id ≡ b.requester
  pub capability : r.capability ≡ b.capability
  pub participant : r.participant_id ≡ b.scope.participant_id
  pub place : (r.platform ≡ b.scope.platform) × (r.room_id ≡ b.scope.room_id)
  pub resource : (r.resource_kind ≡ b.scope.resource.kind) × (r.resource_id ≡ b.scope.resource.id)
  pub in_force : (r.revoked ≡ false) × (passed r.expires_at now ≡ false)
  pub executable : w.has_executor b.capability ≡ true
  pub direct : r.direct_allow ≡ true
  pub impact : (is_high r.impact ≡ false) ⊎ (r.preauthorized_high_impact ≡ true)
  pub fresh :
      (consumed j (w.fingerprint b.stable) ≡ false)
      ⊎ ((recheck ≡ true) ⊎ (is_unknown j (w.fingerprint b.stable) ≡ true))

none_is_not_some : {A : Type 0} (a : A) → none ≡ some a → ⊥
none_is_not_some a e = cc

some_same : {A : Type 0} (a b : A) → some a ≡ some b → a ≡ b
some_same a b e = cc

chosen_first :
    (t : Bool) (x : CapabilityRule) (rest : Option CapabilityRule) (r : CapabilityRule)
    → t ≡ true
    → (if t then some x else rest) ≡ some r
    → some x ≡ some r
chosen_first true x rest r h e = e
chosen_first false x rest r h e = absurd (false_is_not_true h)

chosen_later :
    (t : Bool) (x : CapabilityRule) (rest : Option CapabilityRule) (r : CapabilityRule)
    → t ≡ false
    → (if t then some x else rest) ≡ some r
    → rest ≡ some r
chosen_later true x rest r h e = absurd (false_is_not_true (sym h))
chosen_later false x rest r h e = e

abbrev is_allow : Outcome → Bool
is_allow allow = true
is_allow _ = false

denied_is_not_allowed : (e f : Evaluation) → is_allow e.0 ≡ false → is_allow f.0 ≡ true → e ≡ f → ⊥
denied_is_not_allowed e f no_allow yes_allow h =
    false_is_not_true (sym no_allow ∙ ap (λ (x : Evaluation). is_allow x.0) h ∙ yes_allow)

first_rule-Memᴰ :
    (b : Binding) (rs : List CapabilityRule) (r : CapabilityRule)
    → first_rule b rs ≡ some r
    → Memᴰ r rs × (rule_matches b r ≡ true)
unfolding first_rule
first_rule-Memᴰ b [] r e = absurd (none_is_not_some r e)
first_rule-Memᴰ b (x ∷ xs) r e = elim (Bool-cases (rule_matches b x)) [
  | inl here ↦
      let same : x ≡ r = some_same x r (chosen_first _ x (first_rule b xs) r here e) in
      (Memᴰ.head (sym same), subst (λ y. rule_matches b y ≡ true) same here)
  | inr later ↦
      let found = first_rule-Memᴰ b xs r (chosen_later _ x (first_rule b xs) r later e) in
      (Memᴰ.tail found.0, found.1)
]

rule_tests :
    (gone late able direct : Bool) (x r : CapabilityRule) (reason : Reason)
    → ◌≡◌ {A = Evaluation}
        (if gone
          then (deny, revoked, some x)
          else if late
          then (deny, expired, some x)
          else if not able
          then (deny, policy_deny, some x)
          else if direct
          then (allow, policy_allow, some x)
          else (approval_required, needs_approval, some x))
        (allow, reason, some r)
    → (gone ≡ false) × (late ≡ false) × (able ≡ true) × (direct ≡ true) × (x ≡ r)
rule_tests true late able direct x r reason h = absurd (denied_is_not_allowed _ _ refl refl h)
rule_tests false true able direct x r reason h = absurd (denied_is_not_allowed _ _ refl refl h)
rule_tests false false false direct x r reason h = absurd (denied_is_not_allowed _ _ refl refl h)
rule_tests false false true false x r reason h = absurd (denied_is_not_allowed _ _ refl refl h)
rule_tests false false true true x r reason h =
    (refl, refl, refl, refl, some_same x r (ap (λ (e : Evaluation). e.2) h))

light_or_preauthorized :
    (high pre : Bool) → (not high || pre) ≡ true → (high ≡ false) ⊎ (pre ≡ true)
light_or_preauthorized false pre h = inl refl
light_or_preauthorized true pre h = inr h

-- What `evaluate_rule` has tested when it allows.
allowed_rule :
    (w : World) (b : Binding) (now : ℕ) (o : Option CapabilityRule) (reason : Reason)
    (r : CapabilityRule)
    → evaluate_rule w b now o ≡ (allow, reason, some r)
    → (o ≡ some r)
      × ((r.revoked ≡ false) × (passed r.expires_at now ≡ false))
      × (w.has_executor b.capability ≡ true)
      × (r.direct_allow ≡ true)
      × ((is_high r.impact ≡ false) ⊎ (r.preauthorized_high_impact ≡ true))
unfolding evaluate_rule
allowed_rule w b now none reason r e = absurd (denied_is_not_allowed _ _ refl refl e)
allowed_rule w b now (some x) reason r e =
    let (gone, late, able, direct, same) =
      rule_tests x.revoked (passed x.expires_at now) (w.has_executor b.capability) _ x r reason e in
    let (allowed, light) = passed_both x.direct_allow _ direct in
    (
      ap some same,
      (
        ap (λ (y : CapabilityRule). y.revoked) (sym same) ∙ gone,
        ap (λ (y : CapabilityRule). passed y.expires_at now) (sym same) ∙ late,
      ),
      able,
      ap (λ (y : CapabilityRule). y.direct_allow) (sym same) ∙ allowed,
      subst
          (λ (y : CapabilityRule).
            (is_high y.impact ≡ false) ⊎ (y.preauthorized_high_impact ≡ true))
          same (light_or_preauthorized _ _ light),
    )

text_eq : (a b : String) → (a == b) ≡ true → a ≡ b
text_eq a b h = (==_iff a b).0 h

matched :
    (b : Binding) (r : CapabilityRule)
    → rule_matches b r ≡ true
    → (r.requester_actor_id ≡ b.requester)
      × (r.capability ≡ b.capability)
      × (r.platform ≡ b.scope.platform)
      × (r.room_id ≡ b.scope.room_id)
      × (r.participant_id ≡ b.scope.participant_id)
      × (r.resource_kind ≡ b.scope.resource.kind)
      × (r.resource_id ≡ b.scope.resource.id)
unfolding rule_matches
matched b r h =
    let (h5, m6) = passed_both _ _ h in
    let (h4, m5) = passed_both _ _ h5 in
    let (h3, m4) = passed_both _ _ h4 in
    let (h2, m3) = passed_both _ _ h3 in
    let (h1, m2) = passed_both _ _ h2 in
    let (m0, m1) = passed_both _ _ h1 in
    (
      text_eq _ _ m0,
      text_eq _ _ m1,
      text_eq _ _ m2,
      text_eq _ _ m3,
      text_eq _ _ m4,
      text_eq _ _ m5,
      text_eq _ _ m6,
    )

not_replayed :
    (used recheck retry known : Bool) (e : Evaluation) (reason : Reason) (r : CapabilityRule)
    → (if used && not recheck && not (retry && known) then (deny, replay, none) else e)
      ≡ (allow, reason, some r)
    → ((used ≡ false) ⊎ ((recheck ≡ true) ⊎ (known ≡ true))) × (e ≡ (allow, reason, some r))
not_replayed false recheck retry known e reason r h = (inl refl, h)
not_replayed true true retry known e reason r h = (inr (inl refl), h)
not_replayed true false true true e reason r h = (inr (inr refl), h)
not_replayed true false false known e reason r h = absurd (denied_is_not_allowed _ _ refl refl h)
not_replayed true false true false e reason r h = absurd (denied_is_not_allowed _ _ refl refl h)

named-IsAllowed :
    (w : World) (j : Journal) (b : Binding) (p : PolicySnapshot) (now : ℕ) (retry recheck : Bool)
    (reason : Reason) (r : CapabilityRule)
    → evaluate w j b p now retry recheck ≡ (allow, reason, some r)
    → IsAllowed w j b p now retry recheck r
unfolding evaluate evaluate_rule matching_rule
named-IsAllowed w j b p now retry recheck reason r e =
    let (fresh, e') = not_replayed _ _ _ _ _ reason r e in
    let (chosen, in_force, executable, direct, impact) =
      allowed_rule w b now (matching_rule p b) reason r e' in
    let (listed, fits) = first_rule-Memᴰ b p.rules r chosen in
    let m = matched b r fits in
    record {
      listed = listed;
      requester = m.0;
      capability = m.1;
      participant = m.4;
      place = (m.2, m.3);
      resource = (m.5, m.6);
      in_force = in_force;
      executable = executable;
      direct = direct;
      impact = impact;
      fresh = fresh;
    }

-- The rule that an allowing evaluation names.
abbrev Names : Evaluation → Type 0
Names e =
    (reason : Reason) × (r : CapabilityRule) × (◌≡◌ {A = Evaluation} e (allow, reason, some r))

denied-Names : (e : Evaluation) → is_allow e.0 ≡ false → is_allow e.0 ≡ true → Names e
denied-Names e no_allow h = absurd (false_is_not_true (sym no_allow ∙ h))

rule-Names :
    (gone late able direct : Bool) (x : CapabilityRule)
    → let e : Evaluation =
        (if gone
          then (deny, revoked, some x)
          else if late
          then (deny, expired, some x)
          else if not able
          then (deny, policy_deny, some x)
          else if direct
          then (allow, policy_allow, some x)
          else (approval_required, needs_approval, some x)) in
      is_allow e.0 ≡ true → Names e
rule-Names true late able direct x h = denied-Names _ refl h
rule-Names false true able direct x h = denied-Names _ refl h
rule-Names false false false direct x h = denied-Names _ refl h
rule-Names false false true false x h = denied-Names _ refl h
rule-Names false false true true x h = (policy_allow, x, refl)

evaluate_rule-Names :
    (w : World) (b : Binding) (now : ℕ) (o : Option CapabilityRule)
    → is_allow (evaluate_rule w b now o).0 ≡ true
    → Names (evaluate_rule w b now o)
unfolding evaluate_rule
evaluate_rule-Names w b now none h = denied-Names _ refl h
evaluate_rule-Names w b now (some x) h =
    rule-Names x.revoked (passed x.expires_at now) (w.has_executor b.capability) _ x h

abbrev result_of : Evaluation → Outcome
result_of e = e.0

replay-Names :
    (t : Bool) (e : Evaluation)
    → (is_allow e.0 ≡ true → Names e)
    → is_allow (result_of (if t then (deny, replay, none) else e)) ≡ true
    → Names (if t then (deny, replay, none) else e)
replay-Names true e f h = denied-Names _ refl h
replay-Names false e f h = f h

evaluate-Names :
    (w : World) (j : Journal) (b : Binding) (p : PolicySnapshot) (now : ℕ) (retry recheck : Bool)
    → is_allow (evaluate w j b p now retry recheck).0 ≡ true
    → Names (evaluate w j b p now retry recheck)
unfolding evaluate
evaluate-Names w j b p now retry recheck h =
    replay-Names _ (evaluate_rule w b now (matching_rule p b))
      (evaluate_rule-Names w b now (matching_rule p b)) h

-- An evaluation that allows an effect names a rule of the policy for its requester, capability,
-- participant, place and resource; the rule is not revoked or expired and allows direct use, of high
-- impact only where that is authorized in advance; the capability has an executor; and the effect is
-- not consumed, or is checked again after its commit, or its outcome is unknown.
pub evaluate-IsAllowed :
    (w : World) (j : Journal) (b : Binding) (p : PolicySnapshot) (now : ℕ) (retry recheck : Bool)
    → (evaluate w j b p now retry recheck).0 ≡ allow
    → (r : CapabilityRule) × ((evaluate w j b p now retry recheck).2 ≡ some r)
      × IsAllowed w j b p now retry recheck r
evaluate-IsAllowed w j b p now retry recheck h =
    let (reason, r, e) = evaluate-Names w j b p now retry recheck (ap is_allow h) in
    (r, ap (λ (x : Evaluation). x.2) e, named-IsAllowed w j b p now retry recheck reason r e)
