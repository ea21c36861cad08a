-- ===== src/Receipts/Next.antt =====
-- `ReceiptJournal.append` beside `next_stage`.
use nunchi.Prelude.{
  Option, Bool, List, String, false, ◌≡◌, ◌&&◌, some, true, map, All, if◌then◌else◌, none, arith,
  ◌↔◌, take, ◌++◌, not, false_is_not_true, length, ◌∷◌, ap, [], sym, both, ◌==◌, subst, ==_iff,
  refl, string_has_eq, ◌∙◌, ◌≢◌,
}
use nunchi.Receipts.{
  Stage, stage_eq, validate_receipt_stream, Appended, append_receipt, Receipt, appended, Records,
  next_stage, writer_of, all_valid, same_request, refused, invalid_receipt, records_of, is_prefix,
  wrong_writer, validate_receipt, nth_stage, invalid_stream, receipt_stages, not_durable,
  put_records, BodyCheck,
}
use nunchi.Receipts.Streams.{IsStream, Streams, stage_eq-≡, Own, validate_receipt-Own}

abbrev is_stage : Option Stage → Stage → Bool
is_stage none s = false
is_stage (some t) s = stage_eq s t

stage_eq_refl : (s : Stage) → stage_eq s s ≡ true
stage_eq_refl s = ground arith

is_stage-≡ : (o : Option Stage) (s : Stage) → (is_stage o s ≡ true) ↔ (o ≡ some s)
is_stage-≡ none s = (λ h. absurd (false_is_not_true h), λ e. cc)
is_stage-≡ (some t) s = (
  λ h. ap some (sym (stage_eq-≡ s t h)),
  λ e. subst (λ o. is_stage o s ≡ true) (sym e) (stage_eq_refl s),
)

and_true : (b : Bool) → (b && true) ≡ b
and_true b = ground arith

prefix_next :
    (old : List Receipt) (stages : List Stage) (r : Receipt)
    → map (λ x. x.stage) old ≡ take (length old) stages
    → is_prefix (old ++ r ∷ []) stages ≡ is_stage (nth_stage (length old) stages) r.stage
prefix_next [] [] r e = refl
prefix_next [] (s ∷ stages) r e = and_true (stage_eq r.stage s)
prefix_next (x ∷ xs) [] r e = cc
prefix_next (x ∷ xs) (s ∷ stages) r e =
    let here : x.stage ≡ s = cc in
    let rest : map (λ (y : Receipt). y.stage) xs ≡ take (length xs) stages = cc in
    rw (subst (λ t. stage_eq x.stage t ≡ true) here (stage_eq_refl x.stage))
      (prefix_next xs stages r rest)

Own-validate_receipt :
    (valid_body : BodyCheck) (id : String) (r : Receipt)
    → Own valid_body id r
    → validate_receipt valid_body r ≡ true
Own-validate_receipt valid_body id r o = (validate_receipt-Own valid_body r).1 (refl, o.1, o.2, o.3)

all_valid-last :
    (valid_body : BodyCheck) (id : String) (old : List Receipt) (r : Receipt)
    → All (Own valid_body id) old
    → Own valid_body id r
    → all_valid valid_body (old ++ r ∷ []) ≡ true
all_valid-last valid_body id [] r a h = both _ _ (Own-validate_receipt valid_body id r h) refl
all_valid-last valid_body id (x ∷ xs) r a h =
    both _ _ (Own-validate_receipt valid_body id x a.0) (all_valid-last valid_body id xs r a.1 h)

same_request-last :
    (valid_body : BodyCheck) (id : String) (old : List Receipt) (r : Receipt)
    → All (Own valid_body id) old
    → r.request_id ≡ id
    → same_request id (old ++ r ∷ []) ≡ true
same_request-last valid_body id [] r a h = both _ _ ((==_iff r.request_id id).1 h) refl
same_request-last valid_body id (x ∷ xs) r a h =
    both _ _ ((==_iff x.request_id id).1 a.0.0) (same_request-last valid_body id xs r a.1 h)

three : (a b c : Bool) → a ≡ true → b ≡ true → (a && (b && c)) ≡ c
three a b c h k = ground (arith, h, k)

-- A stream that goes on with its request's receipt is valid when the receipt is of the next stage.
stream_next :
    (valid_body : BodyCheck) (old : List Receipt) (r : Receipt)
    → IsStream valid_body r.request_id old
    → Own valid_body r.request_id r
    → validate_receipt_stream valid_body (old ++ r ∷ [])
      ≡ is_stage (nth_stage (length old) receipt_stages) r.stage
unfolding validate_receipt_stream
stream_next valid_body [] r v h =
    three _ _ _ (all_valid-last valid_body r.request_id [] r tt h)
      (same_request-last valid_body r.request_id [] r tt refl)
    ∙ prefix_next [] receipt_stages r refl
stream_next valid_body (x ∷ xs) r v h =
    three _ _ _ (all_valid-last valid_body r.request_id (x ∷ xs) r v.its_own h) (
      subst (λ id. same_request id (x ∷ xs ++ r ∷ []) ≡ true) (sym v.its_own.0.0)
        (same_request-last valid_body r.request_id (x ∷ xs) r v.its_own refl))
    ∙ prefix_next (x ∷ xs) receipt_stages r v.in_order

abbrev pub is_appended : Appended → Bool
is_appended (appended r) = true
is_appended (refused why) = false

-- The end of `append_receipt` on a disk that takes the line.
taken :
    (own writes next : Bool) (old new : Records) (r : Receipt)
    → let x : Records × Appended =
        (if not own
          then (old, refused invalid_receipt)
          else if not writes
          then (old, refused wrong_writer)
          else if not next
          then (old, refused invalid_stream)
          else if not true
          then (old, refused not_durable)
          else (new, appended r)) in
      (is_appended x.1 ≡ true) ↔ ((own ≡ true) × (writes ≡ true) × (next ≡ true))
taken true true true old new r = (λ _. (refl, refl, refl), λ _. refl)
taken true true false old new r =
    (λ h. absurd (false_is_not_true h), λ h. absurd (false_is_not_true h.2))
taken true false next old new r =
    (λ h. absurd (false_is_not_true h), λ h. absurd (false_is_not_true h.1))
taken false writes next old new r =
    (λ h. absurd (false_is_not_true h), λ h. absurd (false_is_not_true h.0))

-- In a journal whose streams are in order, a receipt whose line the disk takes is appended exactly
-- when it names a request, its stage takes its body, its writer owns its stage, that writer appends
-- it, and its stage is the next of its request.
pub append_receipt_lem :
    (valid_body : BodyCheck) (r : Receipt) (writer : String) (records : Records)
    → Streams valid_body records
    → (is_appended (append_receipt valid_body r writer true records).1 ≡ true) ↔ (
        (r.request_id ≢ "")
        × (valid_body r.stage r.body ≡ true)
        × (r.writer ≡ writer_of r.stage)
        × (r.writer ≡ writer)
        × (next_stage r.request_id records ≡ some r.stage))
unfolding append_receipt next_stage
append_receipt_lem valid_body r writer records v =
    let old = records_of r.request_id records in
    let t =
      taken (validate_receipt valid_body r) (r.writer == writer)
        (validate_receipt_stream valid_body (old ++ r ∷ [])) records
        (put_records r.request_id (old ++ r ∷ []) records) r in
    (
      λ h.
          let (valid, writes, next) = t.0 h in
          let own = (validate_receipt-Own valid_body r).0 valid in
          (
            own.2,
            own.3,
            own.1,
            (==_iff r.writer writer).0 writes,
            (is_stage-≡ _ r.stage).0
                (sym (stream_next valid_body old r (v r.request_id) own) ∙ next),
          ),
      λ c.
          let own : Own valid_body r.request_id r = (refl, c.2, c.0, c.1) in
          t.1 (
            Own-validate_receipt valid_body r.request_id r own,
            (==_iff r.writer writer).1 c.3,
            stream_next valid_body old r (v r.request_id) own ∙ (is_stage-≡ _ r.stage).1 c.4,
          ),
    )
