-- ===== src/Authorization/Journal.antt =====
-- The authorization journal: src/nunchi/authorization.py, `AuthorizationJournal`.
-- Its records are checked documents here, so `_validate_record` is not modelled; a write that
-- raises for any reason is a `false` answer of the outside.
use nunchi.Prelude.{
  ◌++◌, if◌then◌else◌, String, ◌∷◌, List, [], Option, elem, keep, none, string_has_eq, not, ◌==◌,
}
use nunchi.Authorization.Types.{
  Journal, Record, authorization_contract, effect_commit, effect_retry_commit, effect_result,
  confirmed, unknown_outcome, failed_outcome, EffectOutcome, World,
}
use nunchi.Authorization.Exec.{Exec, ask, modify, raise, ◌>>=◌, authorization_error}

abbrev pub insert_key : String → List String → List String
insert_key f fs = if elem f fs then fs else f ∷ fs

abbrev pub discard : String → List String → List String
discard f fs = keep (λ g. not (g == f)) fs

abbrev note_outcome : String → EffectOutcome → List String → List String
note_outcome f unknown_outcome fs = insert_key f fs
note_outcome f confirmed fs = discard f fs
note_outcome f failed_outcome fs = fs

-- The end of `append`: the record and what it does to the indices.
unfoldable pub record_in : Record → Journal → Journal
record_in (authorization_contract c t) j = record j {
  records = j.records ++ authorization_contract c t ∷ [];
}
record_in (effect_commit c) j = record j {
  records = j.records ++ effect_commit c ∷ [];
  consumed_effects = insert_key c.effect_fingerprint j.consumed_effects;
  idempotency_keys = (c.effect_fingerprint, c.idempotency_key) ∷ j.idempotency_keys;
}
record_in (effect_retry_commit c id) j = record j {
  records = j.records ++ effect_retry_commit c id ∷ [];
}
record_in (effect_result f a o d t) j = record j {
  records = j.records ++ effect_result f a o d t ∷ [];
  unknown_effects = note_outcome f o j.unknown_effects;
}

-- `append`: nothing is recorded unless the write is durable.
unfoldable pub append : World → Record → Exec (Unit {0})
append w r = do
  durable ← ask w.writes
  if durable
      then modify (λ c. record c { journal = record_in r c.journal })
      else raise authorization_error

abbrev find_key : String → List (String × Option String) → Option String
find_key f [] = none
find_key f ((k, v) ∷ rest) = if k == f then v else find_key f rest

unfoldable pub idempotency_key : Journal → String → Option String
idempotency_key j f = find_key f j.idempotency_keys
