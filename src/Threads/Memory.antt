-- ===== src/Threads/Memory.antt =====
-- The dicts of the directory: lookups and lengths.
use nunchi.Prelude.{
  ◌∷◌, [], ℕ, String, length, List, ◌≡◌, ◌≤◌, Bool, some, suc, arith, Option, ==_refl, Bool-cases,
  leb, ltb, inl, [], ◌-◌, inr, none, ◌==◌, refl, string_has_eq,
}
use nunchi.Threads.{
  find, put, pop, remember, ThreadDirectory, look_up, unless_failed, parent_of, unless_known, Rest,
  max_remembered, rest_failed, channel, Failure, failure_memory_seconds,
}

module _ {A : Type 0} where
  find-put : (id : String) (v : A) (m : List (String × A)) → find id (put id v m) ≡ some v
  unfolding find put
  find-put id v [] = rw (==_refl id) refl
  find-put id v ((k, old) ∷ rest) = elim (Bool-cases (k == id)) [
    | inl same ↦ rw same (rw same refl)
    | inr other ↦ rw other (rw other (find-put id v rest))
  ]

  length-put : (id : String) (v : A) (m : List (String × A)) → length (put id v m) ≤ suc (length m)
  unfolding put
  length-put id v [] = omega arith
  length-put id v ((k, old) ∷ rest) = elim (Bool-cases (k == id)) [
    | inl same ↦ rw same (omega arith)
    | inr other ↦ rw other (omega (arith, length-put id v rest))
  ]

  length-pop : (id : String) (m : List (String × A)) → length (pop id m) ≤ length m
  unfolding pop
  length-pop id [] = omega arith
  length-pop id ((k, old) ∷ rest) = elim (Bool-cases (k == id)) [
    | inl same ↦ rw same (omega arith)
    | inr other ↦ rw other (omega (arith, length-pop id rest))
  ]

  pub find-remember :
      (id : String) (v : A) (m : List (String × A)) → find id (remember id v m) ≡ some v
  unfolding remember
  find-remember id v m = find-put id v _

  length-remember :
      (id : String) (v : A) (m : List (String × A))
      → length m ≤ max_remembered
      → length (remember id v m) ≤ max_remembered
  unfolding remember
  length-remember id v m h = elim (Bool-cases (leb max_remembered (length m))) [
    | inl full ↦ rw full (omega (arith, length-put id v []))
    | inr fits ↦ rw fits (ground (arith, length-put id v m, fits))
  ]

-- Neither memory is larger than its bound.
pub record IsSmall (d : ThreadDirectory) : Type 0 where
  pub known : length d.parents ≤ max_remembered
  pub failures : length d.failed ≤ max_remembered

look_up-IsSmall :
    (routed : List String) (id : String) (later : ℕ) (rest : Rest) (d : ThreadDirectory)
    → IsSmall d
    → IsSmall (look_up routed id later rest d).2
unfolding look_up
look_up-IsSmall routed id later (rest_failed status detail) d s = record {
  known = s.known;
  failures = length-remember id _ d.failed s.failures;
}
look_up-IsSmall routed id later (channel kind parent_id) d s = record {
  known = length-remember id _ d.parents s.known;
  failures = omega (arith, length-pop id d.failed, s.failures);
}

unless_failed-IsSmall :
    (routed : List String) (id : String) (now later : ℕ) (rest : Rest) (o : Option Failure)
    (d : ThreadDirectory)
    → IsSmall d
    → IsSmall (unless_failed routed id now later rest o d).2
unfolding unless_failed
unless_failed-IsSmall routed id now later rest none d s = look_up-IsSmall routed id later rest d s
unless_failed-IsSmall routed id now later rest (some f) d s =
    elim (Bool-cases (ltb (now - f.at) failure_memory_seconds)) [
      | inl recent ↦ rw recent s
      | inr old ↦ rw old (look_up-IsSmall routed id later rest d s)
    ]

-- When the directory's two memories hold at most 4096 entries each, they still do after a question.
pub parent_of-IsSmall :
    (is_digit : String → Bool) (routed : List String) (id : String) (now later : ℕ) (rest : Rest)
    (d : ThreadDirectory)
    → IsSmall d
    → IsSmall (parent_of is_digit routed id now later rest d).2
unfolding parent_of unless_known
parent_of-IsSmall is_digit routed id now later rest d s = elim (Bool-cases (is_digit id)) [
  | inl digits ↦ rw digits (known-IsSmall (find id d.parents))
  | inr other ↦ rw other s
]
  where
    known-IsSmall :
        (o : Option (Option String)) → IsSmall (unless_known routed id now later rest o d).2
    known-IsSmall (some p) = s
    known-IsSmall none = unless_failed-IsSmall routed id now later rest (find id d.failed) d s
