-- ===== src/Threads/Again.antt =====
-- `parent_of` asked twice for one channel.
use nunchi.Prelude.{
  ℕ, Bool, ◌<◌, String, ◌+◌, List, if◌then◌else◌, ◌≤◌, Option, ltb, ◌≡◌, ◌-◌, true, arith, some,
  none, false, false_is_not_true, not, subst, refl, sym,
}
use nunchi.Threads.{
  find, Reply, failure_memory_seconds, unless_failed, unless_known, parent_of, Rest,
  ThreadDirectory, look_up, Failure, raised, rest_failed, parent, channel, found_parent,
}
use nunchi.Threads.Memory.{find-remember}

abbrev choose : Bool → Reply → Reply → Reply
choose t first other = if t then first else other

recent :
    (asked now : ℕ)
    → now < asked + failure_memory_seconds
    → asked ≤ now
    → ltb (now - asked) failure_memory_seconds ≡ true
recent asked now h k = ground arith

module _ (is_digit : String → Bool) (routed : List String) (id : String) where
  -- A call is made only for an id of digits whose parent is not known, after the failure memory.
  called_unless_failed :
      (now later : ℕ) (rest : Rest) (o : Option Failure) (d : ThreadDirectory)
      → (unless_failed routed id now later rest o d).1 ≡ true
      → unless_failed routed id now later rest o d ≡ look_up routed id later rest d
  unfolding unless_failed
  called_unless_failed now later rest none d h = refl
  called_unless_failed now later rest (some f) d h =
      second (ltb (now - f.at) failure_memory_seconds) h
    where
      second :
          (t : Bool)
          → (choose t (raised f.status f.detail, false, d) (look_up routed id later rest d)).1
            ≡ true
          → choose t (raised f.status f.detail, false, d) (look_up routed id later rest d)
            ≡ look_up routed id later rest d
      second true h = absurd (false_is_not_true h)
      second false h = refl

  called_unless_known :
      (now later : ℕ) (rest : Rest) (o : Option (Option String)) (d : ThreadDirectory)
      → (unless_known routed id now later rest o d).1 ≡ true
      → (o ≡ none) × (unless_known routed id now later rest o d ≡ look_up routed id later rest d)
  unfolding unless_known
  called_unless_known now later rest (some p) d h = absurd (false_is_not_true h)
  called_unless_known now later rest none d h =
      (refl, called_unless_failed now later rest (find id d.failed) d h)

  called_looks_up :
      (now later : ℕ) (rest : Rest) (d : ThreadDirectory)
      → (parent_of is_digit routed id now later rest d).1 ≡ true
      → (is_digit id ≡ true)
        × (find id d.parents ≡ none)
        × (parent_of is_digit routed id now later rest d ≡ look_up routed id later rest d)
  unfolding parent_of
  called_looks_up now later rest d h = by_digits (is_digit id) h
    where
      by_digits :
          (t : Bool)
          → (choose
              (not t)
              (parent none, false, d)
              (unless_known routed id now later rest (find id d.parents) d)).1
            ≡ true
          → (t ≡ true)
            × (find id d.parents ≡ none)
            × (choose
                  (not t)
                  (parent none, false, d)
                  (unless_known routed id now later rest (find id d.parents) d)
                ≡ look_up routed id later rest d)
      by_digits false h = absurd (false_is_not_true h)
      by_digits true h =
          let known = called_unless_known now later rest (find id d.parents) d h in
          (refl, known.0, known.1)

  -- After a lookup, the same question within the failure memory's seconds.
  look_up_again :
      (asked now later : ℕ) (first rest : Rest) (d : ThreadDirectory)
      → is_digit id ≡ true
      → find id d.parents ≡ none
      → now < asked + failure_memory_seconds
      → asked ≤ now
      → parent_of is_digit routed id now later rest (look_up routed id asked first d).2
        ≡ ((look_up routed id asked first d).0, false, (look_up routed id asked first d).2)
  unfolding parent_of unless_known unless_failed look_up
  look_up_again asked now later (rest_failed status detail) rest d digits unknown_parent soon
        after =
      rw digits (
        rw unknown_parent (
          rw (find-remember id (record { at = asked; status = status; detail = detail }) d.failed)
            (rw (recent asked now soon after) refl)))
  look_up_again asked now later (channel kind parent_id) rest d digits unknown_parent soon after =
      rw digits (rw (find-remember id (found_parent routed kind parent_id) d.parents) refl)

-- A question that made a REST call has its answer, a failure as well, remembered: asked again within
-- thirty seconds, the directory gives the same answer, makes no call and changes nothing.
pub parent_of_again :
    (is_digit : String → Bool) (routed : List String) (id : String) (before asked now later : ℕ)
    (first rest : Rest) (d : ThreadDirectory)
    → (parent_of is_digit routed id before asked first d).1 ≡ true
    → asked ≤ now
    → now < asked + failure_memory_seconds
    → parent_of is_digit routed id now later rest
        (parent_of is_digit routed id before asked first d).2
      ≡ (
        (parent_of is_digit routed id before asked first d).0,
        false,
        (parent_of is_digit routed id before asked first d).2,
      )
parent_of_again is_digit routed id before asked now later first rest d called after soon =
    let (digits, unknown_parent, looked) =
      called_looks_up is_digit routed id before asked first d called in
    subst (λ (r : Reply). parent_of is_digit routed id now later rest r.2 ≡ (r.0, false, r.2))
      (sym looked)
      (look_up_again is_digit routed id asked now later first rest d digits unknown_parent soon
        after)
