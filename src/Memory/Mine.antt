-- ===== src/Memory/Mine.antt =====
-- Where an event stands in the log, and the posts of the participant that `_answered` collects,
-- src/nunchi/memory.py.
use nunchi.Observation.Select.{index_from, event_at}
use nunchi.Memory.Pairing.{own_posts, OwnPost, post_key_of, post_of, more_posts}
use nunchi.Prelude.{
  none, some, true, false, [], ◌∷◌, refl, Option, List, String, ℕ, ◌≡◌, ◌+◌, arith, none_is_not,
  subst, suc, ap, ◌==◌, Bool, ==_iff, if◌then◌else◌, ◌∙◌, string_has_eq, sym, some_same,
}
use nunchi.Observation.Types.{message, reaction, membership, Event, Facts}
use nunchi.Memory.{Texts, Option, ℕ, String, Bool}
use mathlib.Core.List.{Memᴰ}

abbrev position_of : Option ℕ → Option ℕ
position_of o = o

abbrev post_out : Option OwnPost → Option OwnPost
post_out o = o

-- Where an event of the log with some id stands.
pub record IsAt (events : List Event) (start i : ℕ) (id : String) : Type 0 where
  pub steps : ℕ
  pub place : i ≡ start + steps
  pub event : Event
  pub in_log : event_at steps events ≡ some event
  pub has_id : event.id ≡ id

pub index_from-IsAt :
    (start : ℕ) (id : String) (es : List Event) (i : ℕ)
    → index_from start id es ≡ some i
    → IsAt es start i id
unfolding index_from event_at
index_from-IsAt start id [] i h = absurd (none_is_not i i h)
index_from-IsAt start id (e ∷ es) i h =
    found (index_from (start + 1) id es) (index_from-IsAt (start + 1) id es i) (e.id == id) refl h
  where
    found :
        (o : Option ℕ)
        → (o ≡ some i → IsAt es (start + 1) i id)
        → (b : Bool) → (e.id == id) ≡ b
        → position_of (elim o [ none ↦ if b then some start else none | some k ↦ some k ]) ≡ some i
        → IsAt (e ∷ es) start i id
    found none ih true same k = record {
      steps = 0;
      place = sym (some_same start i k) ∙ omega arith;
      event = e;
      in_log = refl;
      has_id = (==_iff e.id id).0 same;
    }
    found none ih false same k = absurd (none_is_not i i k)
    found (some j) ih b same k =
        let r = ih k in
        record {
          steps = suc r.steps;
          place = omega (arith, r.place);
          event = r.event;
          in_log = r.in_log;
          has_id = r.has_id;
        }

-- A post of the participant, as the event it comes from.
pub record IsMine (t : Texts) (self : String) (events : List Event) (start : ℕ) (p : OwnPost)
    : Type 0 where
  pub steps : ℕ
  pub place : p.index ≡ start + steps
  pub event : Event
  pub in_log : event_at steps events ≡ some event
  pub has_id : event.id ≡ p.id
  pub has_time : p.post_at ≡ event.timestamp
  pub mentioned : List String
  pub reply : Option String
  pub root : Option String
  pub by_self : event.facts ≡ message self mentioned reply root
  pub has_words : p.post_key ≡ post_key_of t reply event.text

post_of-IsMine :
    (t : Texts) (self : String) (start : ℕ) (e : Event) (es : List Event) (p : OwnPost)
    → post_of t self start e ≡ some p
    → IsMine t self (e ∷ es) start p
unfolding event_at
post_of-IsMine t self start e es p h = of_facts e.facts refl h
  where
    made : Option String → OwnPost
    made reply = record {
      index = start;
      id = e.id;
      post_at = e.timestamp;
      post_key = post_key_of t reply e.text;
    }

    mine :
        (mentioned : List String) (reply root : Option String)
        → e.facts ≡ message self mentioned reply root
        → made reply ≡ p
        → IsMine t self (e ∷ es) start p
    mine mentioned reply root f same = subst (IsMine t self (e ∷ es) start) same (record {
      steps = 0;
      place = omega arith;
      event = e;
      in_log = refl;
      has_id = refl;
      has_time = refl;
      mentioned = mentioned;
      reply = reply;
      root = root;
      by_self = f;
      has_words = refl;
    })

    of_author :
        (author : String) (mentioned : List String) (reply root : Option String)
        → e.facts ≡ message author mentioned reply root
        → (b : Bool) → (author == self) ≡ b
        → post_out (if b then some (made reply) else none) ≡ some p
        → IsMine t self (e ∷ es) start p
    of_author author mentioned reply root f false s k = absurd (none_is_not p p k)
    of_author author mentioned reply root f true s k =
        mine mentioned reply root
          (subst (λ x. e.facts ≡ message x mentioned reply root) ((==_iff author self).0 s) f)
          (some_same (made reply) p k)

    of_facts :
        (f : Facts)
        → e.facts ≡ f
        → post_out (elim f [
          | message author mentioned reply root ↦ if author == self then some (made reply) else none
          | _ ↦ none
        ])
          ≡ some p
        → IsMine t self (e ∷ es) start p
    of_facts (message author mentioned reply root) f k =
        of_author author mentioned reply root f (author == self) refl k
    of_facts (reaction author target) f k = absurd (none_is_not p p k)
    of_facts (membership subject cause) f k = absurd (none_is_not p p k)

pub own_posts-IsMine :
    (t : Texts) (self : String) (start : ℕ) (es : List Event) (p : OwnPost)
    → Memᴰ p (own_posts t self start es)
    → IsMine t self es start p
unfolding own_posts event_at
own_posts-IsMine t self start [] p m = elim m [ ]
own_posts-IsMine t self start (e ∷ es) p m =
    of_post (post_of t self start e) refl (own_posts-IsMine t self (start + 1) es p) m
  where
    shifted : IsMine t self es (start + 1) p → IsMine t self (e ∷ es) start p
    shifted r = record {
      steps = suc r.steps;
      place = omega (arith, r.place);
      event = r.event;
      in_log = r.in_log;
      has_id = r.has_id;
      has_time = r.has_time;
      mentioned = r.mentioned;
      reply = r.reply;
      root = r.root;
      by_self = r.by_self;
      has_words = r.has_words;
    }

    of_post :
        (o : Option OwnPost)
        → post_of t self start e ≡ o
        → (Memᴰ p (own_posts t self (start + 1) es) → IsMine t self es (start + 1) p)
        → Memᴰ p (more_posts o (own_posts t self (start + 1) es))
        → IsMine t self (e ∷ es) start p
    of_post none h ih n = shifted (ih n)
    of_post (some q) h ih (Memᴰ.head same) =
        post_of-IsMine t self start e es p (h ∙ ap some (sym same))
    of_post (some q) h ih (Memᴰ.tail n) = shifted (ih n)
