-- ===== src/Memory/Paired.antt =====
-- The pass by attested ids, and the whole pairing.
use nunchi.Memory.Fair.{IsPaired, Fair, Distinct, pair_words-Fair, is_post-Memᴰ}
use nunchi.Memory.{KeptOrigin, Option, Texts}
use nunchi.Observation.Retention.{has_key}
use nunchi.Observation.Types.{Event}
use nunchi.Memory.Pairing.{
  Pairs, OwnPost, is_post, pair_attested, reverse_origins, answered, own_posts,
}
use nunchi.Prelude.{
  none, some, [], ◌∷◌, List, ◌≡◌, String, ◌⊎◌, All, length, Bool-cases, ◌+◌, arith, Option, ap, inl,
  refl, inr, string_has_eq, if◌then◌else◌, ◌&&◌, not, passed_both, ◌∙◌, sym, not-true,
}
use mathlib.Core.List.{Memᴰ}

module _ (events : List Event) (posts : List OwnPost) (origins : List KeptOrigin) where
  -- The same, for the pass by attested ids: it keeps the rest in order.
  record Attested (found : Pairs) (os : List KeptOrigin) (r : Pairs × List KeptOrigin)
      : Type 0 where
    pub paired : All (IsPaired events posts origins) r.0
    pub distinct : Distinct r.0
    pub kept : (o : KeptOrigin) → Memᴰ o r.1 → Memᴰ o os
    pub count : length r.0 + length r.1 ≡ length found + length os

  Attested-keep :
      (found : Pairs) (o : KeptOrigin) (os : List KeptOrigin) (r : Pairs × List KeptOrigin)
      → Attested found os r
      → Attested found (o ∷ os) (r.0, o ∷ r.1)
  Attested-keep found o os r a = record {
    paired = a.paired;
    distinct = a.distinct;
    kept = λ x m. either x m;
    count = omega (arith, a.count);
  }
    where
      either : (x : KeptOrigin) → Memᴰ x (o ∷ r.1) → Memᴰ x (o ∷ os)
      either x (Memᴰ.head e) = Memᴰ.head e
      either x (Memᴰ.tail m) = Memᴰ.tail (a.kept x m)

  pair_attested-Attested :
      (os : List KeptOrigin) (found : Pairs)
      → ((o : KeptOrigin) → Memᴰ o os → Memᴰ o origins)
      → All (IsPaired events posts origins) found
      → Distinct found
      → Attested found os (pair_attested posts os found)
  unfolding pair_attested
  pair_attested-Attested [] found sub paired distinct = record {
    paired = paired;
    distinct = distinct;
    kept = λ o m. m;
    count = refl;
  }
  pair_attested-Attested (o ∷ os) found sub paired distinct =
      by_id o.message_id refl
        (λ found. pair_attested-Attested os found (λ x m. sub x (Memᴰ.tail m)))
    where
      by_id :
          (id : Option String)
          → o.message_id ≡ id
          → ((found : Pairs)
              → All (IsPaired events posts origins) found
              → Distinct found
              → Attested found os (pair_attested posts os found))
          → Attested found (o ∷ os) (elim id [
            | none ↦ let (found', left) = pair_attested posts os found in (found', o ∷ left)
            | some id ↦
                if is_post posts id && not (has_key id found)
                then pair_attested posts os ((id, o.answers_to) ∷ found)
                else let (found', left) = pair_attested posts os found in (found', o ∷ left)
          ])
      by_id none e later =
          Attested-keep found o os (pair_attested posts os found) (later found paired distinct)
      by_id (some id) e later = elim (Bool-cases (is_post posts id && not (has_key id found))) [
        | inr skipped ↦
            rw skipped (
              Attested-keep found o os (pair_attested posts os found) (later found paired distinct))
        | inl found_it ↦
            let (shown, new) = passed_both (is_post posts id) (not (has_key id found)) found_it in
            let (p, (own, same)) = is_post-Memᴰ posts id shown in
            rw found_it (
              attested (pair_attested posts os ((id, o.answers_to) ∷ found)) (
                later ((id, o.answers_to) ∷ found)
                  (
                    record {
                      post = p;
                      is_own = own;
                      has_id = same;
                      origin = o;
                      is_kept = sub o (Memᴰ.head refl);
                      names = refl;
                      why = inl (e ∙ ap some (sym same));
                    },
                    paired,
                  )
                  (not-true (has_key id found) new, distinct)))
      ]
        where
          attested :
              (r : Pairs × List KeptOrigin)
              → Attested ((id, o.answers_to) ∷ found) os r
              → Attested found (o ∷ os) r
          attested r a = record {
            paired = a.paired;
            distinct = a.distinct;
            kept = λ x m. Memᴰ.tail (a.kept x m);
            count = omega (arith, a.count);
          }

reverse-Memᴰ :
    (done os : List KeptOrigin) (x : KeptOrigin)
    → Memᴰ x (reverse_origins done os)
    → (Memᴰ x done) ⊎ (Memᴰ x os)
unfolding reverse_origins
reverse-Memᴰ done [] x m = inl m
reverse-Memᴰ done (o ∷ os) x m = elim (reverse-Memᴰ (o ∷ done) os x m) [
  | inr later ↦ inr (Memᴰ.tail later)
  | inl before ↦ either before
]
  where
    either : Memᴰ x (o ∷ done) → (Memᴰ x done) ⊎ (Memᴰ x (o ∷ os))
    either (Memᴰ.head e) = inr (Memᴰ.head e)
    either (Memᴰ.tail n) = inl n

length-reverse :
    (done os : List KeptOrigin) → length (reverse_origins done os) ≡ length done + length os
unfolding reverse_origins
length-reverse done [] = omega arith
length-reverse done (o ∷ os) = omega (arith, length-reverse (o ∷ done) os)

pub paired-Fair :
    (t : Texts) (events : List Event) (self : String) (origins : List KeptOrigin)
    → Fair events (own_posts t self 0 events) origins (answered t events self origins) []
unfolding answered
paired-Fair t events self origins =
    let posts = own_posts t self 0 events in
    let r = pair_attested posts origins [] in
    let a = pair_attested-Attested events posts origins origins [] (λ o m. m) tt tt in
    pair_words-Fair events posts origins posts r.0 (reverse_origins [] r.1) (λ p m. m)
      (record {
        paired = a.paired;
        distinct = a.distinct;
        kept = λ o m. a.kept o (unreversed o r.1 m);
        total = omega (arith, a.count, length-reverse [] r.1);
      })
  where
    nowhere : (o : KeptOrigin) → Memᴰ o [] → ⊥
    nowhere o m = elim m [ ]

    unreversed :
        (o : KeptOrigin) (os : List KeptOrigin) → Memᴰ o (reverse_origins [] os) → Memᴰ o os
    unreversed o os m = elim (reverse-Memᴰ [] os o m) [ inl n ↦ absurd (nowhere o n) | inr n ↦ n ]
