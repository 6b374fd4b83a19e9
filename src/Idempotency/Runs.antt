-- ===== src/Idempotency/Runs.antt =====
-- The theorems about runs of the idempotency engine.
use mathlib.Core.Path.{subst}
use kirimkode_partner.Base.{
  sym, ◌≡◌, refl, ◌⊎◌, inl, inr, ◌≢◌, ap, Bool, true, false, Option, none, some, List, [], ◌∷◌, All,
  arith, if◌then◌else◌, Result, ok,
}
use kirimkode_partner.Number.{Number}
use kirimkode_partner.Text.{Text}
use kirimkode_partner.Idempotency.{
  usable_key, RunIdempotentInput, CanonicalRequest, Retention, expires_at,
}
use kirimkode_partner.Idempotency.Records.{
  executed, RecordLookup, IdempotencyRecord, IdempotentEffectResult, Database, IdempotentOutcome,
  same_lookup, find_unique, lookup_of, run_idempotent,
}
use kirimkode_partner.Idempotency.Engine.{
  IsExecution, is_executed, record_of, same_lookup_iff, keyed_cases,
}

-- A call of the engine: its lookup, if its key is usable, its effect, and the outcome that it returned.
pub record Call {ℓ} (R E S : Type ℓ) : Type ℓ where
  pub lookup : Option RecordLookup
  pub effect : S → Result E (IdempotentEffectResult R × S)
  pub outcome : IdempotentOutcome R

abbrev pub keyed_lookup {ℓ} :
    {J : Type ℓ} → RunIdempotentInput J → Option Text → Option RecordLookup
keyed_lookup input none = none
keyed_lookup input (some key) = some (lookup_of input key)

abbrev pub call_of {ℓ} :
    {J R E S : Type ℓ}
    → RunIdempotentInput J
    → (S → Result E (IdempotentEffectResult R × S))
    → IdempotentOutcome R
    → Call R E S
call_of input effect outcome = record {
  lookup = keyed_lookup input (usable_key input.idempotency_key);
  effect = effect;
  outcome = outcome;
}

-- The databases that runs from `db₀` reach, with the calls made so far, the last one first. Each call looks up
-- its record in a table of its own, and has an effect and a request of its own. A call that throws rolls
-- everything back and is left out.
pub data Run {ℓ} {J R S : Type ℓ} (E : Type ℓ) (upper : Text → Text)
    (digest : CanonicalRequest J → Option Text) (windows : Retention) (db₀ : Database R S)
    : List (Call R E S) → Database R S → Type ℓ where
  begin : Run E upper digest windows db₀ [] db₀
  then_run :
      (calls : List (Call R E S)) (db db' : Database R S)
      (effect : S → Result E (IdempotentEffectResult R × S)) (input : RunIdempotentInput J)
      (now : Number) (read : List (IdempotencyRecord R)) (outcome : IdempotentOutcome R)
      → Run E upper digest windows db₀ calls db
      → run_idempotent upper digest windows effect input now read db ≡ ok (outcome, db')
      → Run E upper digest windows db₀ (call_of input effect outcome ∷ calls) db'

-- The second state is what the effects of some of the calls make of the first one, each applied once, in the
-- order of the calls: of exactly those calls that returned an execution, with the result of their effect. The
-- lookups are those of these calls.
pub data Applied {ℓ} {R E S : Type ℓ} : List (Call R E S) → List RecordLookup → S → S → Type ℓ where
  no_calls : {s : S} → Applied [] [] s s
  skipped :
      {calls : List (Call R E S)} {lookups : List RecordLookup} {s t : S} (c : Call R E S)
      → Applied calls lookups s t
      → is_executed c.outcome ≡ false
      → Applied (c ∷ calls) lookups s t
  applied :
      {calls : List (Call R E S)} {lookups : List RecordLookup} {s t u : S} (c : Call R E S)
      (lookup : RecordLookup) (result : IdempotentEffectResult R)
      → Applied calls lookups s t
      → c.lookup ≡ some lookup
      → c.effect t ≡ ok (result, u)
      → c.outcome ≡ executed result.status_code result.response
      → Applied (c ∷ calls) (lookup ∷ lookups) s u

-- No lookup stands in the list twice.
abbrev pub AreDistinct : List RecordLookup → Type 0
AreDistinct [] = Unit
AreDistinct (l ∷ ls) = All (λ m. m ≢ l) ls × AreDistinct ls

rest_none {ℓ} :
    {A : Type ℓ} (b : Bool) (a : A) (rest : Option A)
    → (if b then some a else rest) ≡ none
    → rest ≡ none
rest_none true a rest h = cc
rest_none false a rest h = h

found_behind {ℓ} :
    {R : Type ℓ} (r : IdempotencyRecord R) (rs : List (IdempotencyRecord R)) (l : RecordLookup)
    → (find_unique l rs ≢ none)
    → find_unique l (r ∷ rs) ≢ none
unfolding find_unique
found_behind r rs l f h = f (rest_none (same_lookup r.lookup l) r (find_unique l rs) h)

-- Every lookup of the list has its row in the table.
abbrev pub AreRecorded {ℓ} : {R : Type ℓ} → List RecordLookup → List (IdempotencyRecord R) → Type ℓ
AreRecorded log rs = All (λ l. find_unique l rs ≢ none) log

still_recorded {ℓ} :
    {R : Type ℓ} (r : IdempotencyRecord R) (rs : List (IdempotencyRecord R))
    (log : List RecordLookup)
    → AreRecorded log rs
    → AreRecorded log (r ∷ rs)
still_recorded r rs [] a = tt
still_recorded r rs (l ∷ log) a = (found_behind r rs l a.0, still_recorded r rs log a.1)

not_logged {ℓ} :
    {R : Type ℓ} (lookup : RecordLookup) (rs : List (IdempotencyRecord R)) (log : List RecordLookup)
    → find_unique lookup rs ≡ none
    → AreRecorded log rs
    → All (λ l. l ≢ lookup) log
not_logged lookup rs [] h a = tt
not_logged lookup rs (l ∷ log) h a = ((λ e. a.0 (rw e h)), not_logged lookup rs log h a.1)

found_head {ℓ} :
    {R : Type ℓ} (r : IdempotencyRecord R) (rs : List (IdempotencyRecord R))
    → find_unique r.lookup (r ∷ rs) ≢ none
unfolding find_unique
found_head r rs h = ground (arith, (same_lookup_iff r.lookup r.lookup).1 refl, h)

now_recorded {ℓ} :
    {R : Type ℓ} (r : IdempotencyRecord R) (rs : List (IdempotencyRecord R))
    (log : List RecordLookup)
    → AreRecorded log rs
    → AreRecorded (r.lookup ∷ log) (r ∷ rs)
now_recorded r rs log a = (found_head r rs, still_recorded r rs log a)

-- The state is the effects of calls with distinct lookups, all of which have their rows.
abbrev pub IsAppliedOnce {ℓ} :
    {R E S : Type ℓ} → List (Call R E S) → Database R S → Database R S → List RecordLookup → Type ℓ
IsAppliedOnce calls db₀ db lookups =
    Applied calls lookups db₀.state db.state × AreDistinct lookups × AreRecorded lookups db.records

step-IsAppliedOnce {ℓ} :
    {J R E S : Type ℓ} (effect : S → Result E (IdempotentEffectResult R × S))
    (input : RunIdempotentInput J) (k hash : Text) (expiry : Number) (calls : List (Call R E S))
    (lookups : List RecordLookup) (db₀ db db' : Database R S) (outcome : IdempotentOutcome R)
    → usable_key input.idempotency_key ≡ some k
    → IsExecution effect (lookup_of input k) hash expiry db outcome db'
    → IsAppliedOnce calls db₀ db lookups
    → IsAppliedOnce (call_of input effect outcome ∷ calls) db₀ db' (lookup_of input k ∷ lookups)
step-IsAppliedOnce effect input k hash expiry calls lookups db₀ db db' outcome e x (a, d, r) =
    subst
      (λ z.
        IsAppliedOnce (call_of input effect outcome ∷ calls) db₀ z (lookup_of input k ∷ lookups))
      (sym x.committed)
      (
        applied (call_of input effect outcome) (lookup_of input k) x.result a
            (ap (keyed_lookup input) e) x.ran x.reported,
        (not_logged (lookup_of input k) db.records lookups x.fresh r, d),
        now_recorded (record_of (lookup_of input k) hash expiry x.result) db.records lookups r,
      )

-- However requests are interleaved, with any effects, each looking up its record in any table it may have
-- read: the state that is reached is what the effects of some of the calls, each applied once and in the order
-- of the calls, make of the first state, and nothing else. They are exactly the calls that returned an
-- execution, and they returned the result of their effect; no two of them have the same scope, principal
-- and key, and each has its row in the table.
pub run-IsAppliedOnce {ℓ} :
    {J R S : Type ℓ} (E : Type ℓ) (upper : Text → Text) (digest : CanonicalRequest J → Option Text)
    (windows : Retention) (db₀ db : Database R S) (calls : List (Call R E S))
    → Run E upper digest windows db₀ calls db
    → (lookups : List RecordLookup) × IsAppliedOnce calls db₀ db lookups
unfolding run_idempotent
run-IsAppliedOnce E upper digest windows db₀ db calls begin = ([], (no_calls, tt, tt))
run-IsAppliedOnce E upper digest windows db₀ db calls
      (then_run past t db' effect input now read outcome run h) =
    let (lookups, i) = run-IsAppliedOnce E upper digest windows db₀ t past run in
    elim (keyed_cases upper digest windows effect input now read t db outcome
      (usable_key input.idempotency_key) h) [
        | inl (same, quiet) ↦ (
          lookups,
          subst (λ z. IsAppliedOnce (call_of input effect outcome ∷ past) db₀ z lookups) (sym same)
              (skipped (call_of input effect outcome) i.0 quiet, i.1, i.2),
        )
        | inr (k, hash, e, x) ↦ (
          lookup_of input k ∷ lookups,
          step-IsAppliedOnce effect input k hash (expires_at windows now input.retention) past
              lookups db₀ t db outcome e x i,
        )
      ]

-- A run that returns has either changed nothing, and then it does not report an execution, or it ran the
-- effect under a usable key on a database without the key's record, and committed the effect's new state
-- together with the record of the result that it reports.
pub effect_with_record {ℓ} :
    {J R E S : Type ℓ} (upper : Text → Text) (digest : CanonicalRequest J → Option Text)
    (windows : Retention) (effect : S → Result E (IdempotentEffectResult R × S))
    (input : RunIdempotentInput J) (now : Number) (read : List (IdempotencyRecord R))
    (db db' : Database R S) (outcome : IdempotentOutcome R)
    → run_idempotent upper digest windows effect input now read db ≡ ok (outcome, db')
    → ((db' ≡ db) × (is_executed outcome ≡ false))
      ⊎ (k : Text) × (hash : Text) × (usable_key input.idempotency_key ≡ some k)
        × IsExecution effect
            (lookup_of input k)
            hash
            (expires_at windows now input.retention)
            db
            outcome
            db'
unfolding run_idempotent
effect_with_record upper digest windows effect input now read db db' outcome h =
    keyed_cases upper digest windows effect input now read db db' outcome
      (usable_key input.idempotency_key) h
