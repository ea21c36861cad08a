-- ===== src/Receipts/Streams.antt =====
-- Sequences of appends, and the streams of receipts that they leave.
use nunchi.Prelude.{
  String, List, map, ◌≡◌, Bool, All, take, true, ◌++◌, if◌then◌else◌, length, ◌∷◌, ◌==◌, [],
  string_has_eq, refl, arith, false_is_not_true, Bool-cases, false, passed_both, inl, inr, subst,
  ==_iff, ◌∙◌, not, ◌≢◌, ◌↔◌, both,
}
use nunchi.Receipts.{
  Stage, stage_eq, Receipt, Records, records_of, append_receipt, is_prefix, put_records,
  receipt_stages, writer_of, validate_receipt_stream, refused, invalid_receipt, wrong_writer,
  invalid_stream, not_durable, appended, Appended, BodyCheck, validate_receipt,
}

-- A receipt of a request, by the writer of its stage and with a body that the stage takes.
abbrev pub Own : BodyCheck → String → Receipt → Type 0
Own valid_body id r =
    (r.request_id ≡ id)
    × (r.writer ≡ writer_of r.stage)
    × (r.request_id ≢ "")
    × (valid_body r.stage r.body ≡ true)

-- A stream of a request: the stages from the first, each by its own writer.
pub record IsStream (valid_body : BodyCheck) (id : String) (rs : List Receipt) : Type 0 where
  pub in_order : map (λ r. r.stage) rs ≡ take (length rs) receipt_stages
  pub its_own : All (Own valid_body id) rs

pub stage_eq-≡ : (a b : Stage) → stage_eq a b ≡ true → a ≡ b
stage_eq-≡ a b h = ground (arith, h)

is_prefix_lem :
    (rs : List Receipt) (stages : List Stage)
    → is_prefix rs stages ≡ true
    → map (λ r. r.stage) rs ≡ take (length rs) stages
is_prefix_lem [] stages h = refl
is_prefix_lem (r ∷ rs) [] h = absurd (false_is_not_true h)
is_prefix_lem (r ∷ rs) (s ∷ stages) h =
    let (same, rest) = passed_both (stage_eq r.stage s) (is_prefix rs stages) h in
    rw (stage_eq-≡ r.stage s same) (rw (is_prefix_lem rs stages rest) refl)

not-false : (b : Bool) → not b ≡ false → b ≡ true
not-false b h = ground (arith, h)

not_both : (b : Bool) → not b ≡ true → b ≡ true → ⊥
not_both b h k = ground (arith, h, k)

-- A receipt is valid when it names a request, its writer owns its stage and the stage takes its
-- body.
pub validate_receipt-Own :
    (valid_body : BodyCheck) (r : Receipt)
    → (validate_receipt valid_body r ≡ true) ↔ Own valid_body r.request_id r
validate_receipt-Own valid_body r = (
  λ h.
      let (has_name, rest) = passed_both (not (r.request_id == "")) _ h in
      let (own, taken) = passed_both (r.writer == writer_of r.stage) _ rest in
      (refl, (==_iff r.writer (writer_of r.stage)).0 own, names has_name, taken),
  λ o. both _ _ (has_name o.2) (both _ _ ((==_iff r.writer (writer_of r.stage)).1 o.1) o.3),
)
  where
    names : not (r.request_id == "") ≡ true → r.request_id ≢ ""
    names h e = not_both (r.request_id == "") h ((==_iff r.request_id "").1 e)

    has_name : r.request_id ≢ "" → not (r.request_id == "") ≡ true
    has_name h = elim (Bool-cases (r.request_id == "")) [
      | inl same ↦ absurd (h ((==_iff r.request_id "").0 same))
      | inr other ↦ rw other refl
    ]

stream_in_order :
    (valid_body : BodyCheck) (rs : List Receipt)
    → validate_receipt_stream valid_body rs ≡ true
    → map (λ r. r.stage) rs ≡ take (length rs) receipt_stages
unfolding validate_receipt_stream
stream_in_order valid_body [] h = refl
stream_in_order valid_body (r ∷ rs) h =
    is_prefix_lem (r ∷ rs) receipt_stages (passed_both _ _ (passed_both _ _ h).1).1

-- One append: a receipt, the writer's name, and whether the disk takes it.
abbrev pub Append : Type 0
Append = Receipt × String × Bool

unfoldable pub run_appends : BodyCheck → Records → List Append → Records
run_appends valid_body records [] = records
run_appends valid_body records ((r, writer, durable) ∷ rest) =
    run_appends valid_body (append_receipt valid_body r writer durable records).0 rest

All-last :
    {A : Type 0} (P : A → Type 0) (xs : List A) (x : A) → All P xs → P x → All P (xs ++ x ∷ [])
All-last P [] x h p = (p, tt)
All-last P (y ∷ ys) x h p = (h.0, All-last P ys x h.1 p)

if_again :
    {A : Type 0} (b : Bool) (x y z : A)
    → (if b then x else z) ≡ (if b then x else if b then y else z)
if_again true x y z = refl
if_again false x y z = refl

records_of-put :
    (id k : String) (rs : List Receipt) (m : Records)
    → records_of id (put_records k rs m) ≡ (if k == id then rs else records_of id m)
unfolding records_of put_records
records_of-put id k rs [] = refl
records_of-put id k rs ((k', old) ∷ rest) = elim (Bool-cases (k' == k)) [
  | inl same ↦ rw same (rw ((==_iff k' k).0 same) (if_again (k == id) rs old (records_of id rest)))
  | inr other ↦ rw other (elim (Bool-cases (k == id)) [
    | inl found ↦
        rw (subst (λ x. (k' == x) ≡ false) ((==_iff k id).0 found) other)
          (records_of-put id k rs rest ∙ rw found refl)
    | inr elsewhere ↦ rw elsewhere (rw (records_of-put id k rs rest) (rw elsewhere refl))
  ])
]

abbrev pub Streams : BodyCheck → Records → Type 0
Streams valid_body records = (id : String) → IsStream valid_body id (records_of id records)

-- A validated stream that goes on with a request's receipts.
proposed-IsStream :
    (valid_body : BodyCheck) (r : Receipt) (old : List Receipt)
    → IsStream valid_body r.request_id old
    → Own valid_body r.request_id r
    → validate_receipt_stream valid_body (old ++ r ∷ []) ≡ true
    → IsStream valid_body r.request_id (old ++ r ∷ [])
proposed-IsStream valid_body r old v own h = record {
  in_order = stream_in_order valid_body (old ++ r ∷ []) h;
  its_own = All-last _ old r v.its_own own;
}

abbrev fst_of : Records × Appended → Records
fst_of x = x.0

-- The end of `append_receipt`, by its tests.
ended :
    (P : Records → Type 0) (bad_writer other_writer bad_stream lost : Bool) (old new : Records)
    (r : Receipt)
    → P old
    → (bad_writer ≡ false → bad_stream ≡ false → P new)
    → P (
        fst_of (
          if bad_writer
          then (old, refused invalid_receipt)
          else if other_writer
          then (old, refused wrong_writer)
          else if bad_stream
          then (old, refused invalid_stream)
          else if lost
          then (old, refused not_durable)
          else (new, appended r)))
ended P true o b l old new r p f = p
ended P false true b l old new r p f = p
ended P false false true l old new r p f = p
ended P false false false true old new r p f = p
ended P false false false false old new r p f = f refl refl

put-Streams :
    (valid_body : BodyCheck) (r : Receipt) (rs : List Receipt) (records : Records)
    → Streams valid_body records
    → IsStream valid_body r.request_id rs
    → Streams valid_body (put_records r.request_id rs records)
put-Streams valid_body r rs records v new id =
    rw (records_of-put id r.request_id rs records) (elim (Bool-cases (r.request_id == id)) [
      | inl same ↦
          rw same (subst (λ k. IsStream valid_body k rs) ((==_iff r.request_id id).0 same) new)
      | inr other ↦ rw other (v id)
    ])

append_receipt-Streams :
    (valid_body : BodyCheck) (r : Receipt) (writer : String) (durable : Bool) (records : Records)
    → Streams valid_body records
    → Streams valid_body (append_receipt valid_body r writer durable records).0
unfolding append_receipt
append_receipt-Streams valid_body r writer durable records v =
    ended (Streams valid_body) _ _ _ _ records _ r v (λ own valid.
      put-Streams valid_body r _ records v (
        proposed-IsStream valid_body r (records_of r.request_id records) (v r.request_id)
          ((validate_receipt-Own valid_body r).0 (not-false _ own)) (not-false _ valid)))

run-Streams :
    (valid_body : BodyCheck) (records : Records) (appends : List Append)
    → Streams valid_body records
    → Streams valid_body (run_appends valid_body records appends)
unfolding run_appends
run-Streams valid_body records [] v = v
run-Streams valid_body records ((r, writer, durable) ∷ rest) v =
    run-Streams valid_body (append_receipt valid_body r writer durable records).0 rest
      (append_receipt-Streams valid_body r writer durable records v)

-- Whatever bodies the stages take: after any appends to an empty journal, whether refused, lost or
-- durable, every request's receipts are the first stages in order, each of that request, which is
-- named, by the writer that owns its stage, and with a body that its stage takes.
pub run_appends-Streams :
    (valid_body : BodyCheck) (appends : List Append) (id : String)
    → IsStream valid_body id (records_of id (run_appends valid_body [] appends))
unfolding records_of
run_appends-Streams valid_body appends =
    run-Streams valid_body [] appends (λ id. record { in_order = refl; its_own = tt })
