-- ===== src/Tests/Idempotency.antt =====
-- The idempotency engine at concrete inputs.
use kirimkode_partner.Base.{
  ℕ, ◌+◌, false, ◌≡◌, refl, ◌⊎◌, Option, some, none, List, [], ◌∷◌, Result, ok, err,
}
use kirimkode_partner.Int.{◌+ℤ◌}
use kirimkode_partner.Number.{num, add_number}
use kirimkode_partner.Text.{
  Text, codes, trim, trim_start, trim_end, is_space, is_blank, utf16_length,
}
use kirimkode_partner.Idempotency.{
  usable_key, replay_unavailable, decide_idempotency, decide_stored, RunIdempotentInput,
  operational, CanonicalRequest, assert_request_identity, hash_canonical_request, Retention,
  expires_at,
}
use kirimkode_partner.Idempotency.Records.{
  RecordLookup, IdempotentEffectResult, Database, executed, replayed, same_lookup, find_record,
  find_unique, row_with, insert_record, replay_after_conflict, settle_insert, commit_effect,
  carry_decision, run_transaction, run_keyed, run_idempotent,
}
use kirimkode_partner.Idempotency.Runs.{
  Run, begin, then_run, Call, call_of, IsAppliedOnce, run-IsAppliedOnce, effect_with_record,
}
use kirimkode_partner.Idempotency.Engine.{IsExecution}
use kirimkode_partner.Idempotency.Engine.{is_executed}

abbrev same : Text → Text
same t = t

abbrev digest : CanonicalRequest ℕ → Option Text
digest request = some (request.payload ∷ [])

abbrev windows : Retention
windows = record { financial_ms = none; operational_ms = some (num 100) }

abbrev request : RunIdempotentInput ℕ
request = record {
  scope = codes "s";
  principal_id = codes "p";
  idempotency_key = some (codes " k ");
  method = codes "POST";
  path = codes "/";
  payload = 7;
  retention = operational;
}

-- An effect that counts how often it has run.
abbrev count : ℕ → Result ℕ (IdempotentEffectResult ℕ × ℕ)
count n = ok (record { status_code = num 200; response = n + 1 }, n + 1)

abbrev empty : Database ℕ ℕ
empty = record { records = []; state = 0 }

abbrev after : Database ℕ ℕ
after = record {
  records =
      record {
        lookup = record { scope = codes "s"; principal_id = codes "p"; key = codes "k" };
        request_hash = 7 ∷ [];
        response_status = some (num 200);
        response_json = some 1;
        expires_at = num 105;
      }
      ∷ [];
  state = 1;
}

first_run :
    run_idempotent same digest windows count request (num 5) [] empty
    ≡ ok (executed (num 200) 1, after)
unfolding run_idempotent run_keyed run_transaction carry_decision commit_effect settle_insert
    insert_record find_record find_unique row_with same_lookup hash_canonical_request
    assert_request_identity usable_key decide_idempotency decide_stored expires_at add_number ◌+ℤ◌
    trim trim_start trim_end is_space is_blank utf16_length replay_after_conflict
first_run = refl

-- A concurrent run that saw no record loses the race and replays.
second_run :
    run_idempotent same digest windows count request (num 6) [] after
    ≡ ok (replayed (num 200) 1, after)
unfolding run_idempotent run_keyed run_transaction carry_decision commit_effect settle_insert
    insert_record find_record find_unique row_with same_lookup hash_canonical_request
    assert_request_identity usable_key decide_idempotency decide_stored expires_at add_number ◌+ℤ◌
    trim trim_start trim_end is_space is_blank utf16_length replay_after_conflict
second_run = refl

abbrev calls : List (Call ℕ ℕ ℕ)
calls =
    call_of request count (replayed (num 200) 1) ∷ call_of request count (executed (num 200) 1) ∷ []

raced : Run ℕ same digest windows empty calls after
raced =
    then_run (call_of request count (executed (num 200) 1) ∷ []) after after count request (num 6)
      [] (replayed (num 200) 1)
      (then_run [] empty after count request (num 5) [] (executed (num 200) 1) begin first_run)
      second_run

run-IsAppliedOnce_example : (lookups : List RecordLookup) × IsAppliedOnce calls empty after lookups
run-IsAppliedOnce_example = run-IsAppliedOnce ℕ same digest windows empty after calls raced

effect_with_record_example :
    ((after ≡ empty) × (is_executed {R = ℕ} (executed (num 200) 1) ≡ false))
    ⊎ (k : Text) × (hash : Text) × (usable_key (some (codes " k ")) ≡ some k)
      × IsExecution count
          (record { scope = codes "s"; principal_id = codes "p"; key = k })
          hash
          (expires_at windows (num 5) operational)
          empty
          (executed (num 200) 1)
          after
effect_with_record_example =
    effect_with_record same digest windows count request (num 5) [] empty after
      (executed (num 200) 1) first_run

-- A row without a response stands for a run in progress: it is not found, and it blocks the insertion.
abbrev processing : Database ℕ ℕ
processing = record {
  records =
      record {
        lookup = record { scope = codes "s"; principal_id = codes "p"; key = codes "k" };
        request_hash = 7 ∷ [];
        response_status = none;
        response_json = none;
        expires_at = num 105;
      }
      ∷ [];
  state = 0;
}

blocked_run :
    run_idempotent same digest windows count request (num 6) processing.records processing
    ≡ err replay_unavailable
unfolding run_idempotent run_keyed run_transaction carry_decision commit_effect settle_insert
    insert_record find_record find_unique row_with same_lookup hash_canonical_request
    assert_request_identity usable_key decide_idempotency decide_stored expires_at add_number ◌+ℤ◌
    trim trim_start trim_end is_space is_blank utf16_length replay_after_conflict
blocked_run = refl
