-- ===== src/Observation/Bytes.antt =====
-- What the retained events cost in bytes after the retention.
use nunchi.Observation.Bounded.{pop_event-events}
use nunchi.Observation.Retention.{trim_bytes, retained_bytes, pop_event}
use nunchi.Observation.Types.{Settings, Log, Event}
use nunchi.Prelude.{
  none, some, true, false, [], ◌∷◌, Bool, ℕ, ◌≡◌, length, ◌≤◌, List, arith, suc, Option,
  if◌then◌else◌, ltb, false_is_not_true, Bool-cases, inl, inr, length-drop, zero, refl,
}

-- Whether the loop, if it ends without an exception, leaves entries within the limit.
abbrev Within : Settings → Bool × Log → Type 0
Within c r =
    r.0 ≡ true
    → (size : ℕ) × ((retained_bytes c r.1 r.1.events ≡ some size) × (size ≤ c.retention_bytes))

bytes-Within : (n : ℕ) (c : Settings) (l : Log) → length l.events ≤ n → Within c (trim_bytes n c l)
unfolding trim_bytes retained_bytes
bytes-Within zero c l h = λ done. empty l.events refl h
  where
    empty :
        (es : List Event)
        → l.events ≡ es
        → length es ≤ 0
        → (size : ℕ) × ((retained_bytes c l l.events ≡ some size) × (size ≤ c.retention_bytes))
    empty [] at_end h = (0, (rw at_end refl, omega arith))
    empty (e ∷ es) at_end h = absurd (omega (arith, h))
bytes-Within (suc n) c l h =
    trimmed (retained_bytes c l l.events) refl (trim_bytes n c (pop_event l)) (
      bytes-Within n c (pop_event l)
        (rw (pop_event-events l) (omega (arith, length-drop 1 l.events, h))))
  where
    trimmed :
        (o : Option ℕ)
        → retained_bytes c l l.events ≡ o
        → (rest : Bool × Log) → Within c rest
        → Within c (elim o [
          | none ↦ (false, l)
          | some size ↦ if ltb c.retention_bytes size then rest else (true, l)
        ])
    trimmed none cost rest w = λ h. absurd (false_is_not_true h)
    trimmed (some size) cost rest w = elim (Bool-cases (ltb c.retention_bytes size)) [
      | inl over ↦ rw over w
      | inr fits ↦ rw fits (λ h. (size, (cost, ground (arith, fits))))
    ]

-- When the byte loop of the retention, with fuel for each event, ends without an exception, the
-- entries of the events that are left cost at most `retention_bytes` together.
pub trim_bytes-Within :
    (n : ℕ) (c : Settings) (l : Log)
    → length l.events ≤ n
    → (trim_bytes n c l).0 ≡ true
    → (size : ℕ) × ((retained_bytes c (trim_bytes n c l).1 (trim_bytes n c l).1.events ≡ some size)
        × (size ≤ c.retention_bytes))
trim_bytes-Within n c l h done = bytes-Within n c l h done
