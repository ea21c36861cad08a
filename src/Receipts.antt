-- ===== src/Receipts.antt =====
-- The receipt journal, src/nunchi/receipts.py, with the streams of src/nunchi/v2_contracts.py.
-- The checks that `validate_receipt` makes of a stage's body (v2_contracts.py:958-1087) are an
-- argument, `valid_body`, and a body is its text. The file's lines are left out: the disk only
-- answers whether a write is durable.
mod Streams
mod Next
mod Examples
use nunchi.Prelude.{
  ℕ, List, Bool, String, ◌∷◌, true, ◌==◌, ◌++◌, Option, [], false, string_has_eq, ◌&&◌,
  if◌then◌else◌, none, length, not, some, suc, zero,
}

pub data Stage : Type 0 where
  observation attention participant_host transport : Stage

abbrev pub receipt_stages : List Stage
receipt_stages = observation ∷ attention ∷ participant_host ∷ transport ∷ []

abbrev pub stage_eq : Stage → Stage → Bool
stage_eq observation observation = true
stage_eq attention attention = true
stage_eq participant_host participant_host = true
stage_eq transport transport = true
stage_eq _ _ = false

-- `RECEIPT_WRITERS`
abbrev pub writer_of : Stage → String
writer_of observation = "observation-provider"
writer_of attention = "attention-engine"
writer_of participant_host = "participant-host"
writer_of transport = "transport"

pub record Receipt : Type 0 where
  pub request_id : String
  pub stage : Stage
  pub writer : String
  pub body : String

-- Whether a stage takes a body.
abbrev pub BodyCheck : Type 0
BodyCheck = Stage → String → Bool

abbrev pub validate_receipt : BodyCheck → Receipt → Bool
validate_receipt valid_body r =
    not (r.request_id == "") && (r.writer == writer_of r.stage && valid_body r.stage r.body)

abbrev pub all_valid : BodyCheck → List Receipt → Bool
all_valid valid_body [] = true
all_valid valid_body (r ∷ rs) = validate_receipt valid_body r && all_valid valid_body rs

abbrev pub same_request : String → List Receipt → Bool
same_request id [] = true
same_request id (r ∷ rs) = r.request_id == id && same_request id rs

-- `stages == list(RECEIPT_STAGES[: len(stages)])`
abbrev pub is_prefix : List Receipt → List Stage → Bool
is_prefix [] stages = true
is_prefix (r ∷ rs) [] = false
is_prefix (r ∷ rs) (s ∷ stages) = stage_eq r.stage s && is_prefix rs stages

unfoldable pub validate_receipt_stream : BodyCheck → List Receipt → Bool
validate_receipt_stream valid_body [] = true
validate_receipt_stream valid_body (r ∷ rs) =
    all_valid valid_body (r ∷ rs)
    && (same_request r.request_id (r ∷ rs) && is_prefix (r ∷ rs) receipt_stages)

-- Why an append was refused.
pub data Refusal : Type 0 where
  invalid_receipt wrong_writer invalid_stream not_durable : Refusal

-- `_records`, a `defaultdict(list)`
abbrev pub Records : Type 0
Records = List (String × List Receipt)

unfoldable pub records_of : String → Records → List Receipt
records_of id [] = []
records_of id ((k, rs) ∷ rest) = if k == id then rs else records_of id rest

unfoldable pub put_records : String → List Receipt → Records → Records
put_records id rs [] = (id, rs) ∷ []
put_records id rs ((k, old) ∷ rest) =
    let others = put_records id rs rest in if k == id then (k, rs) ∷ rest else (k, old) ∷ others

pub data Appended : Type 0 where
  refused : Refusal → Appended
  appended : Receipt → Appended

-- `append` with the writer's name, and whether the disk wrote and synced the line and the
-- directory, which a journal without a path does not ask.
unfoldable pub append_receipt : BodyCheck → Receipt → String → Bool → Records → Records × Appended
append_receipt valid_body r writer durable records =
    let proposed = records_of r.request_id records ++ r ∷ [] in
    if not (validate_receipt valid_body r)
    then (records, refused invalid_receipt)
    else if not (r.writer == writer)
    then (records, refused wrong_writer)
    else if not (validate_receipt_stream valid_body proposed)
    then (records, refused invalid_stream)
    else if not durable
    then (records, refused not_durable)
    else (put_records r.request_id proposed records, appended r)

abbrev pub nth_stage : ℕ → List Stage → Option Stage
nth_stage n [] = none
nth_stage zero (s ∷ stages) = some s
nth_stage (suc n) (s ∷ stages) = nth_stage n stages

unfoldable pub next_stage : String → Records → Option Stage
next_stage id records = nth_stage (length (records_of id records)) receipt_stages
