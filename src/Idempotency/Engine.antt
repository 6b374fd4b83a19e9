-- ===== src/Idempotency/Engine.antt =====
-- What one run of the idempotency engine does.
use kirimkode_partner.Base.{
  ◌≡◌, refl, ◌↔◌, ◌⊎◌, inl, inr, Bool, true, false, Option, none, some, List, ◌∷◌, arith, Result,
  ok, err, bind_returns, Option-cases,
}
use kirimkode_partner.Number.{Number}
use kirimkode_partner.Text.{Text, eq_text_iff}
use kirimkode_partner.Idempotency.{
  IdempotencyDecision, execute, replay, reject, RunIdempotentInput, CanonicalRequest,
  hash_canonical_request, Retention, expires_at,
}
use kirimkode_partner.Idempotency.Records.{
  RecordLookup, IdempotencyRecord, IdempotentEffectResult, Database, IdempotentOutcome, executed,
  replayed, rejected, same_lookup, find_unique, find_record, insert_record, decide_for,
  replay_after_conflict, settle_insert, commit_effect, carry_decision, run_transaction, lookup_of,
  canonical_request_of, run_keyed,
}

abbrev pub is_executed {ℓ} : {R : Type ℓ} → IdempotentOutcome R → Bool
is_executed (executed status response) = true
is_executed (replayed status response) = false
is_executed (rejected code) = false

-- The record that an effect with this result leaves.
abbrev pub record_of {ℓ} :
    {R : Type ℓ} → RecordLookup → Text → Number → IdempotentEffectResult R → IdempotencyRecord R
record_of lookup hash expiry result = record {
  lookup = lookup;
  request_hash = hash;
  response_status = some result.status_code;
  response_json = some result.response;
  expires_at = expiry;
}

-- The effect ran on a database without the record, and its new state is committed with the record.
pub record IsExecution {ℓ} {R E S : Type ℓ} (effect : S → Result E (IdempotentEffectResult R × S))
    (lookup : RecordLookup) (hash : Text) (expiry : Number) (db : Database R S)
    (outcome : IdempotentOutcome R) (db' : Database R S) : Type ℓ where
  pub result : IdempotentEffectResult R
  pub state : S
  pub ran : effect db.state ≡ ok (result, state)
  pub fresh : find_unique lookup db.records ≡ none
  pub reported : outcome ≡ executed result.status_code result.response
  pub committed :
      db' ≡ record { records = record_of lookup hash expiry result ∷ db.records; state = state }

pub same_lookup_iff : (a b : RecordLookup) → (same_lookup a b ≡ true) ↔ (a ≡ b)
unfolding same_lookup
same_lookup_iff a b = ground (
  arith,
  eq_text_iff a.scope b.scope,
  eq_text_iff a.principal_id b.principal_id,
  eq_text_iff a.key b.key,
)

replay_changes_nothing {ℓ} :
    {R E S : Type ℓ} (lookup : RecordLookup) (hash : Text) (db db' : Database R S)
    (outcome : IdempotentOutcome R)
    → replay_after_conflict {E = E} lookup hash db ≡ ok (outcome, db')
    → (db' ≡ db) × (is_executed outcome ≡ false)
unfolding replay_after_conflict
replay_changes_nothing lookup hash db db' outcome h = ground arith

insert_cases {ℓ} :
    {R : Type ℓ} (r : IdempotencyRecord R) (rs : List (IdempotencyRecord R))
    → (insert_record r rs ≡ none)
      ⊎ (find_unique r.lookup rs ≡ none) × (insert_record r rs ≡ some (r ∷ rs))
unfolding insert_record
insert_cases r rs = elim (Option-cases (find_unique r.lookup rs)) [
  | inl e ↦ inr (e, rw (insert_record, e) refl)
  | inr (other, e) ↦ inl (rw (insert_record, e) refl)
]

-- What a transaction does: nothing, or the effect on a database without the record.
Steps {ℓ} :
    {R E S : Type ℓ}
    → (S → Result E (IdempotentEffectResult R × S))
    → RecordLookup
    → Text
    → Number
    → Database R S
    → IdempotentOutcome R
    → Database R S
    → Type ℓ
Steps effect lookup hash expiry db outcome db' =
    ((db' ≡ db) × (is_executed outcome ≡ false))
    ⊎ IsExecution effect lookup hash expiry db outcome db'

settle_cases {ℓ} :
    {R E S : Type ℓ} (effect : S → Result E (IdempotentEffectResult R × S)) (lookup : RecordLookup)
    (hash : Text) (expiry : Number) (db db' : Database R S) (outcome : IdempotentOutcome R)
    (result : IdempotentEffectResult R) (state : S) (inserted : Option (List (IdempotencyRecord R)))
    → effect db.state ≡ ok (result, state)
    → (inserted ≡ none)
      ⊎ (find_unique lookup db.records ≡ none)
        × (inserted ≡ some (record_of lookup hash expiry result ∷ db.records))
    → settle_insert {E = E} lookup hash db result state inserted ≡ ok (outcome, db')
    → Steps effect lookup hash expiry db outcome db'
unfolding settle_insert Steps
settle_cases effect lookup hash expiry db db' outcome result state none run c h =
    inl (replay_changes_nothing lookup hash db db' outcome h)
settle_cases effect lookup hash expiry db db' outcome result state (some records) run (inl e) h = cc
settle_cases effect lookup hash expiry db db' outcome result state (some records) run
      (inr (find, e)) h =
    inr record {
      result = result;
      state = state;
      ran = run;
      fresh = find;
      reported = cc;
      committed = ground (arith, e, h);
    }

commit_cases {ℓ} :
    {R E S : Type ℓ} (effect : S → Result E (IdempotentEffectResult R × S)) (lookup : RecordLookup)
    (hash : Text) (expiry : Number) (db db' : Database R S) (outcome : IdempotentOutcome R)
    (ran : Result E (IdempotentEffectResult R × S))
    → effect db.state ≡ ran
    → commit_effect lookup hash expiry db ran ≡ ok (outcome, db')
    → Steps effect lookup hash expiry db outcome db'
unfolding commit_effect
commit_cases effect lookup hash expiry db db' outcome (err e) run h = cc
commit_cases effect lookup hash expiry db db' outcome (ok (result, state)) run h =
    settle_cases effect lookup hash expiry db db' outcome result state
      (insert_record (record_of lookup hash expiry result) db.records) run
      (insert_cases (record_of lookup hash expiry result) db.records) h

carry_cases {ℓ} :
    {R E S : Type ℓ} (effect : S → Result E (IdempotentEffectResult R × S)) (lookup : RecordLookup)
    (hash : Text) (expiry : Number) (db db' : Database R S) (outcome : IdempotentOutcome R)
    (decision : IdempotencyDecision R)
    → carry_decision effect lookup hash expiry db decision ≡ ok (outcome, db')
    → Steps effect lookup hash expiry db outcome db'
unfolding carry_decision Steps
carry_cases effect lookup hash expiry db db' outcome (replay status response) h = inl (cc, cc)
carry_cases effect lookup hash expiry db db' outcome (reject code) h = inl (cc, cc)
carry_cases effect lookup hash expiry db db' outcome execute h =
    commit_cases effect lookup hash expiry db db' outcome (effect db.state) refl h

pub keyed_cases {ℓ} :
    {J R E S : Type ℓ} (upper : Text → Text) (digest : CanonicalRequest J → Option Text)
    (windows : Retention) (effect : S → Result E (IdempotentEffectResult R × S))
    (input : RunIdempotentInput J) (now : Number) (read : List (IdempotencyRecord R))
    (db db' : Database R S) (outcome : IdempotentOutcome R) (key : Option Text)
    → run_keyed upper digest windows effect input now read db key ≡ ok (outcome, db')
    → ((db' ≡ db) × (is_executed outcome ≡ false))
      ⊎ (k : Text) × (hash : Text) × (key ≡ some k)
        × IsExecution effect
            (lookup_of input k)
            hash
            (expires_at windows now input.retention)
            db
            outcome
            db'
unfolding run_keyed run_transaction Steps
keyed_cases upper digest windows effect input now read db db' outcome none h = inl (cc, cc)
keyed_cases upper digest windows effect input now read db db' outcome (some k) h =
    let (hash, _, run) =
      bind_returns (hash_canonical_request upper digest (canonical_request_of input k)) _ h in
    elim (carry_cases effect (lookup_of input k) hash (expires_at windows now input.retention) db
      db' outcome (decide_for (lookup_of input k) hash (find_record (lookup_of input k) read))
      run) [ inl c ↦ inl c | inr x ↦ inr (k, hash, refl, x) ]
