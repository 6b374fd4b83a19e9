-- ===== src/Idempotency.antt =====
-- Idempotent mutations of the internal API: the decision of src/domain/task-5-3/idempotency.ts, the
-- request identity of src/domain/task-5-3/canonical-request-hash.ts, and the engine of
-- src/application/internal-api/idempotency-engine.ts on the records of
-- src/infrastructure/database/idempotency-record-gateway.ts. `upper` stands for `toUpperCase`, `digest`
-- for the SHA-256 of the canonical JSON, which is `none` where the payload is not JSON.
pub mod Engine
pub mod Records
pub mod Runs
use kirimkode_partner.Base.{
  ℕ, ◌*◌, not, ◌&&◌, ◌||◌, Option, none, some, ltb, if◌then◌else◌, Result, ok, err, throw_if, ◌>>=◌,
  ◌>>◌,
}
use kirimkode_partner.Number.{Number, num, add_number}
use kirimkode_partner.Text.{Text, eq_text, trim, is_blank, utf16_length}

pub record StoredIdempotencyResult {ℓ} (R : Type ℓ) : Type ℓ where
  pub scope : Text
  pub principal_id : Text
  pub key : Text
  pub request_hash : Text
  pub status_code : Number
  pub response : R

pub data IdempotencyCode : Type 0 where
  idempotency_required idempotency_conflict : IdempotencyCode

pub data IdempotencyDecision {ℓ} (R : Type ℓ) : Type ℓ where
  execute : IdempotencyDecision R
  replay : Number → R → IdempotencyDecision R
  reject : IdempotencyCode → IdempotencyDecision R

abbrev pub idempotency_key_max_length : ℕ
idempotency_key_max_length = 255

-- The trimmed key, unless it is missing, blank or too long.
unfoldable pub usable_key : Option Text → Option Text
usable_key none = none
usable_key (some key) =
    if is_blank key || ltb idempotency_key_max_length (utf16_length (trim key))
    then none
    else some (trim key)

unfoldable pub decide_stored {ℓ} :
    {R : Type ℓ}
    → Text
    → Text
    → Text
    → Text
    → Option (StoredIdempotencyResult R)
    → IdempotencyDecision R
decide_stored scope principal_id key request_hash none = execute
decide_stored scope principal_id key request_hash (some stored) =
    let same_identity =
      eq_text stored.scope scope
      && eq_text stored.principal_id principal_id
      && eq_text stored.key key in
    if not same_identity || not (eq_text stored.request_hash request_hash)
    then reject idempotency_conflict
    else replay stored.status_code stored.response

unfoldable pub decide_idempotency {ℓ} :
    {R : Type ℓ}
    → Text
    → Text
    → Option Text
    → Text
    → Option (StoredIdempotencyResult R)
    → IdempotencyDecision R
decide_idempotency scope principal_id key request_hash stored = elim (usable_key key) [
  | none ↦ reject idempotency_required
  | some k ↦ decide_stored scope principal_id k request_hash stored
]

pub data RetentionClass : Type 0 where
  financial operational : RetentionClass

pub record RunIdempotentInput {ℓ} (J : Type ℓ) : Type ℓ where
  pub scope : Text
  pub principal_id : Text
  pub idempotency_key : Option Text
  pub method : Text
  pub path : Text
  pub payload : J
  pub retention : RetentionClass

pub record CanonicalRequest {ℓ} (J : Type ℓ) : Type ℓ where
  pub scope : Text
  pub principal_id : Text
  pub idempotency_key : Text
  pub method : Text
  pub path : Text
  pub payload : J

-- What a run throws: `effect_failed` is what its effect has thrown.
pub data EngineError {ℓ} (E : Type ℓ) : Type ℓ where
  type_error replay_unavailable : EngineError E
  effect_failed : E → EngineError E

unfoldable pub assert_request_identity {ℓ} :
    {J E : Type ℓ} → CanonicalRequest J → Result (EngineError E) (Unit {0})
assert_request_identity request =
    throw_if
      (is_blank request.scope
        || is_blank request.principal_id
        || is_blank request.idempotency_key
        || is_blank request.method
        || is_blank request.path)
      type_error

unfoldable pub hash_canonical_request {ℓ} :
    {J E : Type ℓ}
    → (Text → Text)
    → (CanonicalRequest J → Option Text)
    → CanonicalRequest J
    → Result (EngineError E) Text
hash_canonical_request upper digest request = do
  assert_request_identity request
  elim (digest record {
    scope = request.scope;
    principal_id = request.principal_id;
    idempotency_key = trim request.idempotency_key;
    method = upper request.method;
    path = request.path;
    payload = request.payload;
  }) [ none ↦ err type_error | some hash ↦ ok hash ]

abbrev pub day_ms : ℕ
day_ms = 24 * 60 * 60 * 1000

-- The retention windows of an engine.
pub record Retention : Type 0 where
  pub financial_ms : Option Number
  pub operational_ms : Option Number

abbrev pub or_else : Option Number → Number → Number
or_else none n = n
or_else (some m) n = m

unfoldable pub expires_at : Retention → Number → RetentionClass → Number
expires_at windows now financial =
    add_number now (or_else windows.financial_ms (num (7 * 365 * day_ms)))
expires_at windows now operational =
    add_number now (or_else windows.operational_ms (num (90 * day_ms)))
