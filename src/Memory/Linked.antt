-- ===== src/Memory/Linked.antt =====
-- The links between messages, and a thread's responses.
use nunchi.Observation.Retention.{lookup}
use nunchi.Observation.Audit.{has_pair}
use nunchi.Observation.Select.{index_of}
use nunchi.Memory.Pairing.{Pairs, answered}
use nunchi.Memory.{Texts, Sizes, Judged, Memory, KeptOrigin}
use nunchi.Observation.Types.{Event}
use nunchi.Memory.ThreadFacts.{
  threads, link, own_links, answer_links, paired_links, all_links, Thread, responses_to,
  threads_from, link_to, is_excluded, max_responses, starts, is_message_event, author_at, reply_of,
  judged_head,
}
use nunchi.Prelude.{
  none, some, true, false, [], ◌∷◌, List, ℕ, All, length, String, ◌++◌, drop, take, Option, suc,
  ◌≤◌, Bool-cases, ◌≡◌, zero, arith, if◌then◌else◌, inl, keep, ◌<◌, ltb, inr, false_is_not_true,
  ◌&&◌, ◌==◌, length-drop, not, passed_both, ◌-◌, not-true, subst, ==_iff, or_later, string_has_eq,
  refl,
}

-- A pair of messages of which the second comes later and is someone else's.
pub record IsLink (messages : List Event) (pair : String × String) : Type 0 where
  pub from : ℕ
  pub to : ℕ
  pub from_head : index_of pair.0 messages ≡ some from
  pub to_response : index_of pair.1 messages ≡ some to
  pub later : from < to
  pub others : (author_at messages from == author_at messages to) ≡ false

module _ {A : Type 0} (P : A → Type 0) where
  All-append : (xs ys : List A) → All P xs → All P ys → All P (xs ++ ys)
  All-append [] ys a b = b
  All-append (x ∷ xs) ys a b = (a.0, All-append xs ys a.1 b)

  All-drop : (n : ℕ) (xs : List A) → All P xs → All P (drop n xs)
  All-drop zero xs a = a
  All-drop (suc n) [] a = a
  All-drop (suc n) (x ∷ xs) a = All-drop n xs a.1

  All-take : (n : ℕ) (xs : List A) → All P xs → All P (take n xs)
  All-take zero xs a = tt
  All-take (suc n) [] a = tt
  All-take (suc n) (x ∷ xs) a = (a.0, All-take n xs a.1)

length-take_bounded : {A : Type 0} (n : ℕ) (xs : List A) → length (take n xs) ≤ n
length-take_bounded zero xs = omega arith
length-take_bounded (suc n) [] = omega arith
length-take_bounded (suc n) (x ∷ xs) = omega (arith, length-take_bounded n xs)

module _ (messages : List Event) where
  abbrev Links : Pairs → Type 0
  Links = All (IsLink messages)

  link-Links : (head response : String) → Links (link messages head response)
  unfolding link
  link-Links head response = of_head (index_of head messages) refl
    where
      of_response :
          (i : ℕ)
          → index_of head messages ≡ some i
          → (o : Option ℕ) → index_of response messages ≡ o
          → Links (elim o [
            | none ↦ []
            | some j ↦
                if ltb i j && not (author_at messages i == author_at messages j)
                then (head, response) ∷ []
                else []
          ])
      of_response i h none k = tt
      of_response i h (some j) k =
          elim (Bool-cases (ltb i j && not (author_at messages i == author_at messages j))) [
            | inl linked ↦
                let (before, others) = passed_both (ltb i j) _ linked in
                rw linked (
                  record {
                    from = i;
                    to = j;
                    from_head = h;
                    to_response = k;
                    later = ground (arith, before);
                    others = not-true _ others;
                  },
                  tt,
                )
            | inr apart ↦ rw apart tt
          ]

      of_head :
          (o : Option ℕ)
          → index_of head messages ≡ o
          → Links (elim o [
            | none ↦ []
            | some i ↦ elim (index_of response messages) [
              | none ↦ []
              | some j ↦
                  if ltb i j && not (author_at messages i == author_at messages j)
                  then (head, response) ∷ []
                  else []
            ]
          ])
      of_head none h = tt
      of_head (some i) h = of_response i h (index_of response messages) refl

  link_to-Links :
      (head : Option String) (response : String) → Links (link_to messages head response)
  link_to-Links none response = tt
  link_to-Links (some head) response = link-Links head response

  own_links-Links :
      (excluded : Option String) (judgments : List (String × Judged)) (es : List Event)
      → Links (own_links messages excluded judgments es)
  unfolding own_links
  own_links-Links excluded judgments [] = tt
  own_links-Links excluded judgments (e ∷ es) =
      let rest = own_links-Links excluded judgments es in
      elim (Bool-cases (is_excluded excluded e.id)) [
        | inl left_out ↦ rw left_out rest
        | inr taken ↦ rw taken (
            All-append (IsLink messages) (link_to messages (reply_of e) e.id) _
              (link_to-Links (reply_of e) e.id)
              (All-append (IsLink messages)
                (link_to messages (judged_head (lookup e.id judgments)) e.id) _
                (link_to-Links (judged_head (lookup e.id judgments)) e.id) rest))
      ]

  answer_links-Links :
      (excluded : Option String) (judgments : List (String × Judged))
      → Links (answer_links messages excluded judgments)
  unfolding answer_links
  answer_links-Links excluded [] = tt
  answer_links-Links excluded ((id, j) ∷ rest) =
      of_answer j.answered_by (answer_links-Links excluded rest)
    where
      of_answer :
          (o : Option String)
          → Links (answer_links messages excluded rest)
          → Links (elim o [
            | none ↦ answer_links messages excluded rest
            | some response ↦
                if is_excluded excluded response
                then answer_links messages excluded rest
                else link messages id response ++ answer_links messages excluded rest
          ])
      of_answer none others = others
      of_answer (some response) others = elim (Bool-cases (is_excluded excluded response)) [
        | inl left_out ↦ rw left_out others
        | inr taken ↦ rw taken (
            All-append (IsLink messages) (link messages id response) _ (link-Links id response)
              others)
      ]

  paired_links-Links :
      (excluded : Option String) (pairs : Pairs) → Links (paired_links messages excluded pairs)
  unfolding paired_links
  paired_links-Links excluded [] = tt
  paired_links-Links excluded ((response, head) ∷ rest) =
      let others = paired_links-Links excluded rest in
      elim (Bool-cases (is_excluded excluded response)) [
        | inl left_out ↦ rw left_out others
        | inr taken ↦ rw taken (
            All-append (IsLink messages) (link messages head response) _ (link-Links head response)
              others)
      ]

  all_links-Links :
      (t : Texts) (self : String) (excluded : Option String) (judgments : List (String × Judged))
      (origins : List KeptOrigin)
      → Links (all_links t messages self excluded judgments origins)
  unfolding all_links
  all_links-Links t self excluded judgments origins =
      All-append (IsLink messages) (own_links messages excluded judgments messages) _
        (own_links-Links excluded judgments messages)
        (All-append (IsLink messages) (answer_links messages excluded judgments) _
          (answer_links-Links excluded judgments)
          (paired_links-Links excluded (answered t messages self origins)))

  has_pair-IsLink :
      (links : Pairs) (head response : String)
      → Links links
      → has_pair head response links ≡ true
      → IsLink messages (head, response)
  has_pair-IsLink [] head response a h = absurd (false_is_not_true h)
  has_pair-IsLink ((x, y) ∷ rest) head response a h =
      elim (Bool-cases (x == head && y == response)) [
        | inl same ↦
            let (xs, ys) = passed_both (x == head) _ same in
            subst (λ (p : String × String). IsLink messages p)
              (pair_path x y head response ((==_iff x head).0 xs) ((==_iff y response).0 ys)) a.0
        | inr other ↦
            has_pair-IsLink rest head response a.1 (or_later (x == head && y == response) _ other h)
      ]
    where
      pair_path : (x y a b : String) → x ≡ a → y ≡ b → ◌≡◌ {A = String × String} (x, y) (a, b)
      pair_path x y a b h k = cc

  -- What a thread promises of its responses.
  pub record IsThread (thread : Thread) : Type 0 where
    pub few : length thread.responses ≤ max_responses
    pub linked : All (λ r. IsLink messages (thread.head_id, r.response_id)) thread.responses

  responses_to-IsLink :
      (t : Texts) (links : Pairs) (head : String) (es : List Event)
      → Links links
      → All (λ r. IsLink messages (head, r.response_id)) (responses_to t links head es)
  unfolding responses_to
  responses_to-IsLink t links head [] a = tt
  responses_to-IsLink t links head (e ∷ es) a =
      let rest = responses_to-IsLink t links head es a in
      elim (Bool-cases (has_pair head e.id links)) [
        | inl linked ↦ rw linked (has_pair-IsLink links head e.id a linked, rest)
        | inr apart ↦ rw apart rest
      ]

  threads_from-IsThread :
      (t : Texts) (s : Sizes) (self : String) (now : ℕ) (excluded : Option String)
      (judgments : List (String × Judged)) (links : Pairs) (es : List Event)
      → Links links
      → All IsThread (threads_from t s self now excluded judgments links messages es)
  unfolding threads_from
  threads_from-IsThread t s self now excluded judgments links [] a = tt
  threads_from-IsThread t s self now excluded judgments links (e ∷ es) a =
      let rest = threads_from-IsThread t s self now excluded judgments links es a in
      elim (Bool-cases (starts s self now excluded links (lookup e.id judgments) e)) [
        | inl started ↦ rw started (
          record {
            few = length-take_bounded max_responses (responses_to t links e.id messages);
            linked =
                All-take (λ r. IsLink messages (e.id, r.response_id)) max_responses
                  (responses_to t links e.id messages)
                  (responses_to-IsLink t links e.id messages a);
          },
          rest,
        )
        | inr other ↦ rw other rest
      ]

-- A turn is told of no more threads than the memory's size says; each has at most four responses, and
-- each response is a message of the room's log that comes after the thread's head and is by another
-- author.
pub threads-IsThread :
    (t : Texts) (s : Sizes) (events : List Event) (self : String) (now : ℕ)
    (excluded : Option String) (m : Memory)
    → (length (threads t s events self now excluded m) ≤ s.max_threads)
      × All (IsThread (keep is_message_event events)) (threads t s events self now excluded m)
unfolding threads
threads-IsThread t s events self now excluded m =
    let messages = keep is_message_event events in
    let links = all_links t messages self excluded m.judgments m.origins in
    let found = threads_from t s self now excluded m.judgments links messages messages in
    (
      omega (arith, length-drop (length found - s.max_threads) found),
      All-drop (IsThread messages) (length found - s.max_threads) found (
          threads_from-IsThread messages t s self now excluded m.judgments links messages
            (all_links-Links messages t self excluded m.judgments m.origins)),
    )
