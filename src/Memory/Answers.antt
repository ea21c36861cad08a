-- ===== src/Memory/Answers.antt =====
-- What a pair of `_answered` says of the log and the memory.
use nunchi.Observation.Retention.{has_key}
use nunchi.Memory.Fair.{IsPaired, Distinct}
use nunchi.Observation.Select.{event_at, index_of}
use nunchi.Memory.Pairing.{
  Pairs, own_posts, equal_keys, OwnPost, same_option, post_key_of, is_too_early, matches, is_before,
  answered,
}
use nunchi.Prelude.{
  none, some, true, false, [], ◌∷◌, inl, inr, refl, length, Option, List, String, ℕ, All, ◌≡◌, ◌≢◌,
  ◌+◌, ◌⊎◌, ◌<◌, false_is_not_true, passed_both, Bool-cases, arith, subst, ◌≤◌, ap, ◌==◌, Bool,
  ==_iff, ◌∙◌, ltb, string_has_eq, sym, not-true, ◌||◌,
}
use nunchi.Observation.Types.{message, Event}
use nunchi.Memory.{
  said, replied, reacted, Texts, Option, MoveKey, ℕ, String, KeptOrigin, excerpt, Bool,
}
use nunchi.Memory.Paired.{paired-Fair}
use mathlib.Core.List.{Memᴰ}
use nunchi.Memory.Mine.{index_from-IsAt, IsMine, own_posts-IsMine}

-- The words of an origin are those of a message, or of a reply to a message.
abbrev pub SameWords : Texts → Option String → String → MoveKey → Type 0
SameWords t reply text key =
    (((reply ≡ none) ⊎ (reply ≡ some "")) × (key ≡ said none (excerpt t 280 text)))
    ⊎ ((id : String) × (reply ≡ some id) × (key ≡ replied (some id) (excerpt t 280 text)))

-- A post not made more than ten seconds before its origin was committed, when both times are known.
abbrev pub InTime : Option ℕ → Option ℕ → Type 0
InTime posted committed =
    (posted ≡ none)
    ⊎ ((committed ≡ none)
        ⊎ ((p : ℕ) × (c : ℕ) × (posted ≡ some p) × (committed ≡ some c) × (c ≤ p + 10000)))

-- Same words, a message earlier in the log, and a post in time.
pub record IsMatch (t : Texts) (events : List Event) (at : ℕ) (post : Event) (reply : Option String)
    (origin : KeptOrigin) : Type 0 where
  pub words : SameWords t reply post.text origin.key
  pub asked_at : ℕ
  pub asked : Event
  pub in_log : event_at asked_at events ≡ some asked
  pub is_asked : asked.id ≡ origin.answers_to
  pub came_before : asked_at < at
  pub in_time : InTime post.timestamp origin.committed_at

-- A message of the log by the participant, and an origin that names what it answered.
pub record IsAnswer (t : Texts) (events : List Event) (self : String) (origins : List KeptOrigin)
    (pair : String × String) : Type 0 where
  pub at : ℕ
  pub post : Event
  pub in_log : event_at at events ≡ some post
  pub has_id : post.id ≡ pair.0
  pub mentioned : List String
  pub reply : Option String
  pub root : Option String
  pub by_self : post.facts ≡ message self mentioned reply root
  pub origin : KeptOrigin
  pub is_kept : Memᴰ origin origins
  pub names : origin.answers_to ≡ pair.1
  pub why : (origin.message_id ≡ some pair.0) ⊎ IsMatch t events at post reply origin

-- No two pairs are of one post.
abbrev pub AllDistinct : Pairs → Type 0
AllDistinct [] = Unit
AllDistinct (p ∷ rest) = All (λ q. q.0 ≢ p.0) rest × AllDistinct rest

same_option-≡ : (a b : Option String) → same_option a b ≡ true → a ≡ b
same_option-≡ none none h = refl
same_option-≡ none (some b) h = absurd (false_is_not_true h)
same_option-≡ (some a) none h = absurd (false_is_not_true h)
same_option-≡ (some a) (some b) h = ap some ((==_iff a b).0 h)

equal_keys-≡ : (a b : MoveKey) → equal_keys a b ≡ true → a ≡ b
equal_keys-≡ (said a w) (said b v) h =
    let (o, e) = passed_both (same_option a b) (w == v) h in
    rw (same_option-≡ a b o) (rw ((==_iff w v).0 e) refl)
equal_keys-≡ (replied a w) (replied b v) h =
    let (o, e) = passed_both (same_option a b) (w == v) h in
    rw (same_option-≡ a b o) (rw ((==_iff w v).0 e) refl)
equal_keys-≡ (reacted a w) (reacted b v) h =
    let (o, e) = passed_both (same_option a b) (same_option w v) h in
    rw (same_option-≡ a b o) (rw (same_option-≡ w v e) refl)
equal_keys-≡ (said a w) (replied b v) h = absurd (false_is_not_true h)
equal_keys-≡ (said a w) (reacted b v) h = absurd (false_is_not_true h)
equal_keys-≡ (replied a w) (said b v) h = absurd (false_is_not_true h)
equal_keys-≡ (replied a w) (reacted b v) h = absurd (false_is_not_true h)
equal_keys-≡ (reacted a w) (said b v) h = absurd (false_is_not_true h)
equal_keys-≡ (reacted a w) (replied b v) h = absurd (false_is_not_true h)

post_key_of-SameWords :
    (t : Texts) (reply : Option String) (text : String)
    → SameWords t reply text (post_key_of t reply text)
post_key_of-SameWords t none text = inl (inl refl, refl)
post_key_of-SameWords t (some id) text = elim (Bool-cases (id == "")) [
  | inl empty ↦ rw empty (inl (inr (ap some ((==_iff id "").0 empty)), refl))
  | inr given ↦ rw given (inr (id, refl, refl))
]

too_early-InTime :
    (posted committed : Option ℕ) → is_too_early posted committed ≡ false → InTime posted committed
too_early-InTime none committed h = inl refl
too_early-InTime (some p) none h = inr (inl refl)
too_early-InTime (some p) (some c) h = inr (inr (p, c, refl, refl, ground (arith, h)))

matches-IsMatch :
    (t : Texts) (events : List Event) (self : String) (p : OwnPost) (o : KeptOrigin)
    (r : IsMine t self events 0 p)
    → matches events p o ≡ true
    → IsMatch t events r.steps r.event r.reply o
unfolding index_of
matches-IsMatch t events self p o r h =
    let (key, rest) = passed_both (equal_keys o.key p.post_key) _ h in
    let (earlier, in_time) =
      passed_both (is_before (index_of o.answers_to events) p.index) _ rest in
    asked (index_of o.answers_to events) refl earlier
      (equal_keys-≡ o.key p.post_key key ∙ r.has_words)
      (not-true (is_too_early p.post_at o.committed_at) in_time)
  where
    asked :
        (i : Option ℕ)
        → index_of o.answers_to events ≡ i
        → is_before i p.index ≡ true
        → o.key ≡ post_key_of t r.reply r.event.text
        → is_too_early p.post_at o.committed_at ≡ false
        → IsMatch t events r.steps r.event r.reply o
    asked none e b k l = absurd (false_is_not_true b)
    asked (some i) e b k l =
        let a = index_from-IsAt 0 o.answers_to events i e in
        record {
          words =
              subst (SameWords t r.reply r.event.text) (sym k)
                (post_key_of-SameWords t r.reply r.event.text);
          asked_at = a.steps;
          asked = a.event;
          in_log = a.in_log;
          is_asked = a.has_id;
          came_before = before_it i p.index a.steps r.steps b a.place r.place;
          in_time =
              too_early-InTime r.event.timestamp o.committed_at
                (subst (λ x. is_too_early x o.committed_at ≡ false) r.has_time l);
        }
      where
        before_it : (i j a b : ℕ) → ltb i j ≡ true → i ≡ 0 + a → j ≡ 0 + b → a < b
        before_it i j a b h e f = ground (arith, h, e, f)

IsPaired-IsAnswer :
    (t : Texts) (events : List Event) (self : String) (origins : List KeptOrigin)
    (pair : String × String)
    → IsPaired events (own_posts t self 0 events) origins pair
    → IsAnswer t events self origins pair
IsPaired-IsAnswer t events self origins pair x =
    let r = own_posts-IsMine t self 0 events x.post x.is_own in
    record {
      at = r.steps;
      post = r.event;
      in_log = r.in_log;
      has_id = r.has_id ∙ x.has_id;
      mentioned = r.mentioned;
      reply = r.reply;
      root = r.root;
      by_self = r.by_self;
      origin = x.origin;
      is_kept = x.is_kept;
      names = x.names;
      why = elim x.why [
        | inl attested ↦ inl (attested ∙ ap some x.has_id)
        | inr fits ↦ inr (matches-IsMatch t events self x.post x.origin r fits)
      ];
    }

All-IsAnswer :
    (t : Texts) (events : List Event) (self : String) (origins : List KeptOrigin) (found : Pairs)
    → All (IsPaired events (own_posts t self 0 events) origins) found
    → All (IsAnswer t events self origins) found
All-IsAnswer t events self origins [] a = tt
All-IsAnswer t events self origins (p ∷ ps) a =
    (IsPaired-IsAnswer t events self origins p a.0, All-IsAnswer t events self origins ps a.1)

not_there : (id : String) (found : Pairs) → has_key id found ≡ false → All (λ q. q.0 ≢ id) found
not_there id [] h = tt
not_there id ((k, o) ∷ rest) h =
    let (here, later) = neither_of (k == id) (has_key id rest) h in
    ((λ e. false_is_not_true (sym here ∙ (==_iff k id).1 e)), not_there id rest later)
  where
    neither_of : (a b : Bool) → (a || b) ≡ false → (a ≡ false) × (b ≡ false)
    neither_of a b h = ground (arith, h)

Distinct-AllDistinct : (found : Pairs) → Distinct found → AllDistinct found
Distinct-AllDistinct [] d = tt
Distinct-AllDistinct ((id, o) ∷ rest) d = (not_there id rest d.0, Distinct-AllDistinct rest d.1)

-- Each pair that `_answered` finds is of a message of the log by the participant, and of the message
-- that some origin of the memory names, for one of two reasons: the transport attested the post's id
-- for that origin; or the origin's kind, target and words are the post's, the message it names stands
-- before the post in the log, and it was not committed more than ten seconds after the post was made,
-- as far as both times are known. No two pairs are of one post, and there are not more pairs than
-- origins.
pub answered-IsAnswer :
    (t : Texts) (events : List Event) (self : String) (origins : List KeptOrigin)
    → All (IsAnswer t events self origins) (answered t events self origins)
      × AllDistinct (answered t events self origins)
      × (length (answered t events self origins) ≤ length origins)
answered-IsAnswer t events self origins =
    let f = paired-Fair t events self origins in
    (
      All-IsAnswer t events self origins (answered t events self origins) f.paired,
      Distinct-AllDistinct (answered t events self origins) f.distinct,
      omega (arith, f.total),
    )
