-- ===== src/Memory/Fair.antt =====
-- A post takes an origin, and the pass by words.
use nunchi.Memory.{KeptOrigin, Option}
use nunchi.Observation.Retention.{has_key}
use nunchi.Observation.Types.{Event}
use nunchi.Memory.Pairing.{Pairs, OwnPost, is_post, take_match, matches, pair_words}
use nunchi.Prelude.{
  none, some, true, false, [], ◌∷◌, List, ◌≡◌, String, ◌⊎◌, All, suc, false_is_not_true, length,
  Bool-cases, ◌+◌, arith, Option, ◌==◌, ◌≤◌, ap, inl, refl, ==_iff, inr, or_later, string_has_eq,
}
use mathlib.Core.List.{Memᴰ}

-- Why a post has its message: an origin of the memory names the message, and the transport attested the
-- post's id for it, or the words are the same and the message came before the post.
pub record IsPaired (events : List Event) (posts : List OwnPost) (origins : List KeptOrigin)
    (pair : String × String) : Type 0 where
  pub post : OwnPost
  pub is_own : Memᴰ post posts
  pub has_id : post.id ≡ pair.0
  pub origin : KeptOrigin
  pub is_kept : Memᴰ origin origins
  pub names : origin.answers_to ≡ pair.1
  pub why : (origin.message_id ≡ some post.id) ⊎ (matches events post origin ≡ true)

-- No id is paired twice.
abbrev pub Distinct : Pairs → Type 0
Distinct [] = Unit
Distinct ((id, o) ∷ rest) = (has_key id rest ≡ false) × Distinct rest

pub is_post-Memᴰ :
    (posts : List OwnPost) (id : String)
    → is_post posts id ≡ true
    → (p : OwnPost) × (Memᴰ p posts × (p.id ≡ id))
is_post-Memᴰ [] id h = absurd (false_is_not_true h)
is_post-Memᴰ (p ∷ ps) id h = elim (Bool-cases (p.id == id)) [
  | inl same ↦ (p, (Memᴰ.head refl, (==_iff p.id id).0 same))
  | inr other ↦
      let (q, (m, e)) = is_post-Memᴰ ps id (or_later (p.id == id) _ other h) in
      (q, (Memᴰ.tail m, e))
]

module _ (events : List Event) (posts : List OwnPost) (origins : List KeptOrigin) where
  -- Found pairs, and the origins that are left for more.
  pub record Fair (found : Pairs) (left : List KeptOrigin) : Type 0 where
    pub paired : All (IsPaired events posts origins) found
    pub distinct : Distinct found
    pub kept : (o : KeptOrigin) → Memᴰ o left → Memᴰ o origins
    pub total : length found + length left ≤ length origins

  -- One origin less, for one pair more.
  pub Fair-take :
      (found : Pairs) (left left' : List KeptOrigin) (p : OwnPost) (o : KeptOrigin)
      → Fair found left
      → has_key p.id found ≡ false
      → Memᴰ p posts
      → Memᴰ o left
      → ((x : KeptOrigin) → Memᴰ x left' → Memᴰ x left)
      → suc (length left') ≡ length left
      → (o.message_id ≡ some p.id) ⊎ (matches events p o ≡ true)
      → Fair ((p.id, o.answers_to) ∷ found) left'
  Fair-take found left left' p o f new own here sub less why = record {
    paired = (
      record {
        post = p;
        is_own = own;
        has_id = refl;
        origin = o;
        is_kept = f.kept o here;
        names = refl;
        why = why;
      },
      f.paired,
    );
    distinct = (new, f.distinct);
    kept = λ x m. f.kept x (sub x m);
    total = omega (arith, f.total, less);
  }

  -- What is taken, and what stays.
  pub record IsTaken (p : OwnPost) (left : List KeptOrigin) (o : KeptOrigin)
      (left' : List KeptOrigin) : Type 0 where
    pub here : Memᴰ o left
    pub fits : matches events p o ≡ true
    pub sub : (x : KeptOrigin) → Memᴰ x left' → Memᴰ x left
    pub less : suc (length left') ≡ length left

  abbrev pub IfTaken : OwnPost → List KeptOrigin → Option (KeptOrigin × List KeptOrigin) → Type 0
  IfTaken p left none = Unit
  IfTaken p left (some (o, left')) = IsTaken p left o left'

  pub take_match-IfTaken :
      (p : OwnPost) (left : List KeptOrigin) → IfTaken p left (take_match events p left)
  unfolding take_match
  take_match-IfTaken p [] = tt
  take_match-IfTaken p (q ∷ qs) = elim (Bool-cases (matches events p q)) [
    | inl fits ↦
        rw fits
          (record { here = Memᴰ.head refl; fits = fits; sub = λ x m. Memᴰ.tail m; less = refl })
    | inr other ↦ rw other (later (take_match events p qs) (take_match-IfTaken p qs))
  ]
    where
      later :
          (r : Option (KeptOrigin × List KeptOrigin))
          → IfTaken p qs r
          → IfTaken p (q ∷ qs) (elim r [ none ↦ none | some (m, left) ↦ some (m, q ∷ left) ])
      later none h = tt
      later (some (o, left)) h = record {
        here = Memᴰ.tail h.here;
        fits = h.fits;
        sub = λ x m. either x left h m;
        less = ap suc h.less;
      }
        where
          either :
              (x : KeptOrigin) (left : List KeptOrigin)
              → IsTaken p qs o left
              → Memᴰ x (q ∷ left)
              → Memᴰ x (q ∷ qs)
          either x left h (Memᴰ.head e) = Memᴰ.head e
          either x left h (Memᴰ.tail m) = Memᴰ.tail (h.sub x m)

  pub pair_words-Fair :
      (ps : List OwnPost) (found : Pairs) (left : List KeptOrigin)
      → ((p : OwnPost) → Memᴰ p ps → Memᴰ p posts)
      → Fair found left
      → Fair (pair_words events ps left found) []
  unfolding pair_words
  pair_words-Fair [] found left own f = record {
    paired = f.paired;
    distinct = f.distinct;
    kept = λ x m. absurd (in_nothing x m);
    total = omega (arith, f.total);
  }
    where
      in_nothing : (x : KeptOrigin) → Memᴰ x [] → ⊥
      in_nothing x m = elim m [ ]
  pair_words-Fair (p ∷ ps) found left own f = elim (Bool-cases (has_key p.id found)) [
    | inl old ↦ rw old (pair_words-Fair ps found left (λ q m. own q (Memᴰ.tail m)) f)
    | inr new ↦ rw new (
        matched (take_match events p left) (take_match-IfTaken p left)
          (λ found left f. pair_words-Fair ps found left (λ q m. own q (Memᴰ.tail m)) f) new)
  ]
    where
      matched :
          (r : Option (KeptOrigin × List KeptOrigin))
          → IfTaken p left r
          → ((found : Pairs) (left : List KeptOrigin)
              → Fair found left
              → Fair (pair_words events ps left found) [])
          → has_key p.id found ≡ false
          → Fair
              (elim r [
                | none ↦ pair_words events ps left found
                | some (o, left') ↦ pair_words events ps left' ((p.id, o.answers_to) ∷ found)
              ])
              []
      matched none t later new = later found left f
      matched (some (o, left')) t later new = later ((p.id, o.answers_to) ∷ found) left' (
          Fair-take found left left' p o f new (own p (Memᴰ.head refl)) t.here t.sub t.less
            (inr t.fits))
