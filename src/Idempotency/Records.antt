-- ===== src/Idempotency/Records.antt =====
-- The records of the idempotency engine and its run: the table with its unique key, the transaction with
-- its rollback, and the replay after a lost race.
use kirimkode_partner.Base.{
  Bool, ◌&&◌, Option, none, some, List, [], ◌∷◌, if◌then◌else◌, Result, ok, err, ◌>>=◌,
}
use kirimkode_partner.Number.{Number}
use kirimkode_partner.Text.{Text, eq_text}
use kirimkode_partner.Idempotency.{
  StoredIdempotencyResult, IdempotencyCode, idempotency_required, IdempotencyDecision, execute,
  replay, reject, usable_key, decide_idempotency, RunIdempotentInput, CanonicalRequest, EngineError,
  replay_unavailable, effect_failed, hash_canonical_request, Retention, expires_at,
}

pub record RecordLookup : Type 0 where
  pub scope : Text
  pub principal_id : Text
  pub key : Text

-- A row of the table. The engine writes rows with both columns of the response only; a row without one of
-- them is being processed. `R` are the responses that the column can hold, null not among them.
pub record IdempotencyRecord {ℓ} (R : Type ℓ) : Type ℓ where
  pub lookup : RecordLookup
  pub request_hash : Text
  pub response_status : Option Number
  pub response_json : Option R
  pub expires_at : Number

-- `IdempotencyRecordRow`, what the gateway gives back of a row.
pub record IdempotencyRecordRow {ℓ} (R : Type ℓ) : Type ℓ where
  pub lookup : RecordLookup
  pub request_hash : Text
  pub response_status : Number
  pub response_json : R

pub record IdempotentEffectResult {ℓ} (R : Type ℓ) : Type ℓ where
  pub status_code : Number
  pub response : R

-- The table of records, and the rest of the database, which the effects change.
pub record Database {ℓ} (R S : Type ℓ) : Type ℓ where
  pub records : List (IdempotencyRecord R)
  pub state : S

pub data IdempotentOutcome {ℓ} (R : Type ℓ) : Type ℓ where
  executed replayed : Number → R → IdempotentOutcome R
  rejected : IdempotencyCode → IdempotentOutcome R

unfoldable pub same_lookup : RecordLookup → RecordLookup → Bool
same_lookup a b =
    eq_text a.scope b.scope && eq_text a.principal_id b.principal_id && eq_text a.key b.key

-- `findUnique` by the unique key of the table
unfoldable pub find_unique {ℓ} :
    {R : Type ℓ} → RecordLookup → List (IdempotencyRecord R) → Option (IdempotencyRecord R)
find_unique lookup [] = none
find_unique lookup (r ∷ rs) =
    let rest = find_unique lookup rs in if same_lookup r.lookup lookup then some r else rest

unfoldable pub row_with {ℓ} :
    {R : Type ℓ} → IdempotencyRecord R → Option Number → Option R → Option (IdempotencyRecordRow R)
row_with r none json = none
row_with r (some status) none = none
row_with r (some status) (some json) = some record {
  lookup = r.lookup;
  request_hash = r.request_hash;
  response_status = status;
  response_json = json;
}

-- A row without a response is treated as absent.
unfoldable pub find_record {ℓ} :
    {R : Type ℓ} → RecordLookup → List (IdempotencyRecord R) → Option (IdempotencyRecordRow R)
find_record lookup rs = elim (find_unique lookup rs) [
  | none ↦ none
  | some r ↦ row_with r r.response_status r.response_json
]

-- `none` is the outcome `inserted: false`, on the unique key of the table.
unfoldable pub insert_record {ℓ} :
    {R : Type ℓ}
    → IdempotencyRecord R
    → List (IdempotencyRecord R)
    → Option (List (IdempotencyRecord R))
insert_record r rs = elim (find_unique r.lookup rs) [ none ↦ some (r ∷ rs) | some other ↦ none ]

abbrev pub to_stored {ℓ} :
    {R : Type ℓ} → Option (IdempotencyRecordRow R) → Option (StoredIdempotencyResult R)
to_stored none = none
to_stored (some row) = some record {
  scope = row.lookup.scope;
  principal_id = row.lookup.principal_id;
  key = row.lookup.key;
  request_hash = row.request_hash;
  status_code = row.response_status;
  response = row.response_json;
}

abbrev pub decide_for {ℓ} :
    {R : Type ℓ} → RecordLookup → Text → Option (IdempotencyRecordRow R) → IdempotencyDecision R
decide_for lookup hash found =
    decide_idempotency lookup.scope lookup.principal_id (some lookup.key) hash (to_stored found)

unfoldable pub replay_after_conflict {ℓ} :
    {R E S : Type ℓ}
    → RecordLookup
    → Text
    → Database R S
    → Result (EngineError E) (IdempotentOutcome R × Database R S)
replay_after_conflict lookup hash db =
    elim (decide_for lookup hash (find_record lookup db.records)) [
      | replay status response ↦ ok (replayed status response, db)
      | reject code ↦ ok (rejected code, db)
      | execute ↦ err replay_unavailable
    ]

-- A lost race rolls the effect back, and the record that won is replayed.
unfoldable pub settle_insert {ℓ} :
    {R E S : Type ℓ}
    → RecordLookup
    → Text
    → Database R S
    → IdempotentEffectResult R
    → S
    → Option (List (IdempotencyRecord R))
    → Result (EngineError E) (IdempotentOutcome R × Database R S)
settle_insert lookup hash db result state none = replay_after_conflict lookup hash db
settle_insert lookup hash db result state (some records) =
    ok (executed result.status_code result.response, record { records = records; state = state })

-- The effect and its record are committed together.
unfoldable pub commit_effect {ℓ} :
    {R E S : Type ℓ}
    → RecordLookup
    → Text
    → Number
    → Database R S
    → Result E (IdempotentEffectResult R × S)
    → Result (EngineError E) (IdempotentOutcome R × Database R S)
commit_effect lookup hash expiry db (err e) = err (effect_failed e)
commit_effect lookup hash expiry db (ok (result, state)) =
    settle_insert lookup hash db result state (
      insert_record
        record {
          lookup = lookup;
          request_hash = hash;
          response_status = some result.status_code;
          response_json = some result.response;
          expires_at = expiry;
        }
        db.records)

unfoldable pub carry_decision {ℓ} :
    {R E S : Type ℓ}
    → (S → Result E (IdempotentEffectResult R × S))
    → RecordLookup
    → Text
    → Number
    → Database R S
    → IdempotencyDecision R
    → Result (EngineError E) (IdempotentOutcome R × Database R S)
carry_decision effect lookup hash expiry db (replay status response) =
    ok (replayed status response, db)
carry_decision effect lookup hash expiry db (reject code) = ok (rejected code, db)
carry_decision effect lookup hash expiry db execute =
    commit_effect lookup hash expiry db (effect db.state)

-- The transaction: it looks the record up in the table as it was `read`.
unfoldable pub run_transaction {ℓ} :
    {R E S : Type ℓ}
    → (S → Result E (IdempotentEffectResult R × S))
    → RecordLookup
    → Text
    → Number
    → List (IdempotencyRecord R)
    → Database R S
    → Result (EngineError E) (IdempotentOutcome R × Database R S)
run_transaction effect lookup hash expiry read db =
    carry_decision effect lookup hash expiry db (decide_for lookup hash (find_record lookup read))

abbrev pub lookup_of {ℓ} : {J : Type ℓ} → RunIdempotentInput J → Text → RecordLookup
lookup_of input key = record { scope = input.scope; principal_id = input.principal_id; key = key }

abbrev pub canonical_request_of {ℓ} :
    {J : Type ℓ} → RunIdempotentInput J → Text → CanonicalRequest J
canonical_request_of input key = record {
  scope = input.scope;
  principal_id = input.principal_id;
  idempotency_key = key;
  method = input.method;
  path = input.path;
  payload = input.payload;
}

-- The run under a usable key.
unfoldable pub run_keyed {ℓ} :
    {J R E S : Type ℓ}
    → (Text → Text)
    → (CanonicalRequest J → Option Text)
    → Retention
    → (S → Result E (IdempotentEffectResult R × S))
    → RunIdempotentInput J
    → Number
    → List (IdempotencyRecord R)
    → Database R S
    → Option Text
    → Result (EngineError E) (IdempotentOutcome R × Database R S)
run_keyed upper digest windows effect input now read db none =
    ok (rejected idempotency_required, db)
run_keyed upper digest windows effect input now read db (some key) =
    hash_canonical_request upper digest (canonical_request_of input key) >>= (λ hash.
      run_transaction effect (lookup_of input key) hash (expires_at windows now input.retention)
        read db)

unfoldable pub run_idempotent {ℓ} :
    {J R E S : Type ℓ}
    → (Text → Text)
    → (CanonicalRequest J → Option Text)
    → Retention
    → (S → Result E (IdempotentEffectResult R × S))
    → RunIdempotentInput J
    → Number
    → List (IdempotencyRecord R)
    → Database R S
    → Result (EngineError E) (IdempotentOutcome R × Database R S)
run_idempotent upper digest windows effect input now read db =
    run_keyed upper digest windows effect input now read db (usable_key input.idempotency_key)
