-- ===== src/Threads.antt =====
-- Which routed channel a thread belongs to: src/nunchi/mcp_discord/threads.py, `ThreadDirectory`.
-- The clock's readings are whole seconds of a monotonic clock. `str.isdigit` and the REST call are
-- arguments: the call is given as what it answers, and each method says whether it was made.
mod Memory
mod Again
mod Examples
use nunchi.Prelude.{
  ℕ, Option, List, [], Bool, String, ◌==◌, none, ◌∷◌, if◌then◌else◌, true, some, ◌||◌,
  string_has_eq, leb, ◌&&◌, ltb, false, not, nat_has_eq, length, elem, ◌-◌,
}

-- What `get_channel` answers: a failure with its status and detail, or a channel's type and parent.
pub data Rest : Type 0 where
  rest_failed : Option ℕ → String → Rest
  channel : ℕ → String → Rest

pub record Failure : Type 0 where
  pub at : ℕ
  pub status : Option ℕ
  pub detail : String

pub record ThreadDirectory : Type 0 where
  pub parents : List (String × Option String)
  pub failed : List (String × Failure)

abbrev pub new_directory : ThreadDirectory
new_directory = record { parents = []; failed = [] }

abbrev pub max_remembered : ℕ
max_remembered = 4096

abbrev pub failure_memory_seconds : ℕ
failure_memory_seconds = 30

abbrev is_thread : ℕ → Bool
is_thread kind = kind == 10 || (kind == 11 || kind == 12)

module _ {A : Type 0} where
  unfoldable pub find : String → List (String × A) → Option A
  find id [] = none
  find id ((k, v) ∷ rest) = if k == id then some v else find id rest

  -- `d[id] = v`
  unfoldable pub put : String → A → List (String × A) → List (String × A)
  put id v [] = (id, v) ∷ []
  put id v ((k, old) ∷ rest) =
      let others = put id v rest in if k == id then (k, v) ∷ rest else (k, old) ∷ others

  -- `d.pop(id, None)`
  unfoldable pub pop : String → List (String × A) → List (String × A)
  pop id [] = []
  pop id ((k, old) ∷ rest) = let others = pop id rest in if k == id then rest else (k, old) ∷ others

  -- A full dict is cleared before it takes an entry.
  unfoldable pub remember : String → A → List (String × A) → List (String × A)
  unfolding put
  remember id v m = put id v (if leb max_remembered (length m) then [] else m)

pub data Parent : Type 0 where
  -- the parent's id, or none for any other channel
  parent : Option String → Parent
  raised : Option ℕ → String → Parent

-- An answer, and whether the REST call was made.
abbrev pub Reply : Type 0
Reply = Parent × Bool × ThreadDirectory

abbrev remember_failure : String → ℕ → Option ℕ → String → ThreadDirectory → ThreadDirectory
remember_failure id now status detail d = record d {
  failed = remember id (record { at = now; status = status; detail = detail }) d.failed;
}

-- The parent that a channel is found to have.
abbrev pub found_parent : List String → ℕ → String → Option String
found_parent routed kind id = if is_thread kind && elem id routed then some id else none

unfoldable pub look_up : List String → String → ℕ → Rest → ThreadDirectory → Reply
unfolding remember
look_up routed id later (rest_failed status detail) d =
    (raised status detail, true, remember_failure id later status detail d)
look_up routed id later (channel kind parent_id) d = (
  parent (found_parent routed kind parent_id),
  true,
  record d {
    parents = remember id (found_parent routed kind parent_id) d.parents;
    failed = pop id d.failed;
  },
)

unfoldable pub unless_failed :
    List String → String → ℕ → ℕ → Rest → Option Failure → ThreadDirectory → Reply
unless_failed routed id now later rest none d = look_up routed id later rest d
unless_failed routed id now later rest (some f) d =
    let looked = look_up routed id later rest d in
    if ltb (now - f.at) failure_memory_seconds then (raised f.status f.detail, false, d) else looked

unfoldable pub unless_known :
    List String → String → ℕ → ℕ → Rest → Option (Option String) → ThreadDirectory → Reply
unless_known routed id now later rest (some p) d = (parent p, false, d)
unless_known routed id now later rest none d =
    unless_failed routed id now later rest (find id d.failed) d

-- `now` is the clock when the memory is asked, `later` when a failure is remembered.
unfoldable pub parent_of :
    (String → Bool) → List String → String → ℕ → ℕ → Rest → ThreadDirectory → Reply
unfolding find unless_known unless_failed look_up
parent_of is_digit routed id now later rest d =
    if not (is_digit id)
    then (parent none, false, d)
    else unless_known routed id now later rest (find id d.parents) d

-- `parent_within` when the wait ran out: the lookup goes on, and its own end comes later.
unfoldable pub time_out : String → ℕ → ThreadDirectory → ThreadDirectory
time_out id now d = elim (find id d.parents) [
  | some p ↦ d
  | none ↦ remember_failure id now none "the lookup is still pending" d
]
