-- ===== src/Receipts/Examples.antt =====
-- A journal in which a receipt comes too early and one is lost by the disk.
use nunchi.Receipts.Next.{is_appended, append_receipt_lem}
use nunchi.Prelude.{
  List, true, [], ◌∷◌, false, ◌≡◌, refl, ◌↔◌, some, ◌≢◌, ◌==◌, string_has_eq, String,
}
use nunchi.Receipts.{
  Receipt, observation, attention, Stage, records_of, writer_of, append_receipt, put_records,
  validate_receipt_stream, participant_host, next_stage, BodyCheck,
}
use nunchi.Receipts.Streams.{run_appends-Streams, IsStream, Append, run_appends}

abbrev receipt_of : Stage → Receipt
receipt_of s = record { request_id = "r1"; stage = s; writer = writer_of s; body = "{}" }

-- Bodies as these receipts have them.
abbrev objects_only : BodyCheck
objects_only stage body = body == "{}"

abbrev appends : List Append
appends =
    (receipt_of attention, "attention-engine", true)
    ∷ (record (receipt_of observation) { body = "[]" }, "observation-provider", true)
    ∷ (receipt_of observation, "observation-provider", true)
    ∷ (receipt_of attention, "attention-engine", false)
    ∷ (receipt_of attention, "attention-engine", true)
    ∷ (receipt_of attention, "attention-engine", true)
    ∷ []

appends_test :
    records_of "r1" (run_appends objects_only [] appends)
    ≡ receipt_of observation ∷ receipt_of attention ∷ []
unfolding records_of run_appends append_receipt put_records validate_receipt_stream
appends_test = refl

run_appends-Streams_example :
    IsStream objects_only "r1" (records_of "r1" (run_appends objects_only [] appends))
run_appends-Streams_example = run_appends-Streams objects_only appends "r1"

-- After two receipts the participant's host is next.
append_receipt_lem_example :
    (is_appended
        (append_receipt objects_only
          (receipt_of participant_host)
          "participant-host"
          true
          (run_appends objects_only [] appends)).1
      ≡ true)
    ↔ ((◌≢◌ {A = String} "r1" "")
        × (objects_only participant_host "{}" ≡ true)
        × (writer_of participant_host ≡ writer_of participant_host)
        × (writer_of participant_host ≡ "participant-host")
        × (next_stage "r1" (run_appends objects_only [] appends) ≡ some participant_host))
append_receipt_lem_example =
    append_receipt_lem objects_only (receipt_of participant_host) "participant-host"
      (run_appends objects_only [] appends) (run_appends-Streams objects_only appends)
