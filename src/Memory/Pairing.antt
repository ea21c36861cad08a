-- ===== src/Memory/Pairing.antt =====
-- Which message each of the participant's posts answered: `_answered` of src/nunchi/memory.py, over the
-- events of the room's log. Two events do not have one id there.
use nunchi.Observation.Retention.{has_key}
use nunchi.Observation.Select.{index_of}
use nunchi.Prelude.{
  none, some, true, false, [], ◌∷◌, ℕ, Option, List, String, Bool, ◌==◌, ◌&&◌, if◌then◌else◌, ◌+◌,
  ltb, string_has_eq, ◌||◌, not,
}
use nunchi.Observation.Types.{message, Event}
use nunchi.Memory.{
  said, replied, reacted, MoveKey, ℕ, Texts, Option, List, String, KeptOrigin, Bool, excerpt, ltb,
  text_max,
}

-- ORIGIN_CLOCK_SKEW, in milliseconds
abbrev pub clock_skew : ℕ
clock_skew = 10000

abbrev pub same_option : Option String → Option String → Bool
same_option none none = true
same_option (some a) (some b) = a == b
same_option _ _ = false

abbrev pub equal_keys : MoveKey → MoveKey → Bool
equal_keys (said a w) (said b v) = same_option a b && w == v
equal_keys (replied a w) (replied b v) = same_option a b && w == v
equal_keys (reacted a w) (reacted b v) = same_option a b && same_option w v
equal_keys _ _ = false

-- A message of the log with its position.
pub record OwnPost : Type 0 where
  pub index : ℕ
  pub id : String
  pub post_at : Option ℕ
  pub post_key : MoveKey

-- `_move_key(_own_move(event))` of a message
abbrev pub post_key_of : Texts → Option String → String → MoveKey
post_key_of t none text = said none (excerpt t text_max text)
post_key_of t (some id) text =
    if id == ""
    then said none (excerpt t text_max text)
    else replied (some id) (excerpt t text_max text)

abbrev pub post_of : Texts → String → ℕ → Event → Option OwnPost
post_of t self index e = elim e.facts [
  | message author mentioned reply root ↦
      if author == self
      then some (record {
        index = index;
        id = e.id;
        post_at = e.timestamp;
        post_key = post_key_of t reply e.text;
      })
      else none
  | _ ↦ none
]

abbrev pub more_posts : Option OwnPost → List OwnPost → List OwnPost
more_posts none posts = posts
more_posts (some p) posts = p ∷ posts

-- `mine`
unfoldable pub own_posts : Texts → String → ℕ → List Event → List OwnPost
own_posts t self start [] = []
own_posts t self start (e ∷ es) =
    more_posts (post_of t self start e) (own_posts t self (start + 1) es)

abbrev pub is_post : List OwnPost → String → Bool
is_post [] id = false
is_post (p ∷ ps) id = p.id == id || is_post ps id

-- The pairs of post and message.
abbrev pub Pairs : Type 0
Pairs = List (String × String)

-- By the attested id: what is found, and the origins that are left, in their order.
unfoldable pub pair_attested : List OwnPost → List KeptOrigin → Pairs → Pairs × List KeptOrigin
pair_attested posts [] found = (found, [])
pair_attested posts (o ∷ os) found = elim o.message_id [
  | none ↦ let (found', left) = pair_attested posts os found in (found', o ∷ left)
  | some id ↦
      if is_post posts id && not (has_key id found)
      then pair_attested posts os ((id, o.answers_to) ∷ found)
      else let (found', left) = pair_attested posts os found in (found', o ∷ left)
]

abbrev pub is_before : Option ℕ → ℕ → Bool
is_before none index = false
is_before (some asked) index = ltb asked index

-- Whether a post was made before an origin was committed, by more than the skew.
abbrev pub is_too_early : Option ℕ → Option ℕ → Bool
is_too_early (some posted) (some committed) = ltb (posted + clock_skew) committed
is_too_early _ _ = false

abbrev pub matches : List Event → OwnPost → KeptOrigin → Bool
matches events p o =
    equal_keys o.key p.post_key
    && (is_before (index_of o.answers_to events) p.index
        && not (is_too_early p.post_at o.committed_at))

-- The first origin of a list, newest first, that matches, and the list without it.
unfoldable pub take_match :
    List Event → OwnPost → List KeptOrigin → Option (KeptOrigin × List KeptOrigin)
take_match events p [] = none
take_match events p (o ∷ os) =
    let later = take_match events p os in
    if matches events p o
    then some (o, os)
    else elim later [ none ↦ none | some (m, left) ↦ some (m, o ∷ left) ]

-- By kind, target and words, oldest post first.
unfoldable pub pair_words : List Event → List OwnPost → List KeptOrigin → Pairs → Pairs
unfolding take_match
pair_words events [] left found = found
pair_words events (p ∷ ps) left found =
    if has_key p.id found
    then pair_words events ps left found
    else elim (take_match events p left) [
      | none ↦ pair_words events ps left found
      | some (o, left') ↦ pair_words events ps left' ((p.id, o.answers_to) ∷ found)
    ]

unfoldable pub reverse_origins : List KeptOrigin → List KeptOrigin → List KeptOrigin
reverse_origins done [] = done
reverse_origins done (o ∷ os) = reverse_origins (o ∷ done) os

-- `_answered`
unfoldable pub answered : Texts → List Event → String → List KeptOrigin → Pairs
unfolding own_posts pair_attested pair_words reverse_origins
answered t events self origins =
    let posts = own_posts t self 0 events in
    let (found, left) = pair_attested posts origins [] in
    pair_words events posts (reverse_origins [] left) found
