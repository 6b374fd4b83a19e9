-- ===== src/Ledger.antt =====
-- The append-only ledger (src/domain/task-5-6/ledger.ts and errors.ts): double-entry transactions and
-- the balances that are derived from their entries.
pub mod Transaction
pub mod Balance
use kirimkode_partner.Base.{
  ℕ, ◌+◌, ◌-◌, ◌/◌, ◌≡◌, refl, Bool, false, not, ◌||◌, List, [], ◌∷◌, ◌++◌, ltb, ◌==◌,
  if◌then◌else◌, length, Result, ok, throw_if, ◌>>=◌, ◌>>◌,
}
use kirimkode_partner.Number.{
  Number, num, is_finite, is_safe_integer, lt_number, eq_number, neg_number,
}
use kirimkode_partner.Double.{add_double}
use kirimkode_partner.Text.{is_blank-cons, is_space, Text, codes, is_blank}

-- `Task56DomainErrorCode`
pub data DomainError : Type 0 where
  invalid_amount invalid_timestamp invalid_identifier ledger_imbalance insufficient_ledger_entries
        invalid_bucket empty_payout duplicate_earning earning_not_available payout_below_minimum
        missing_payment_reference duplicate_payment_reference missing_reason
        allocation_amount_mismatch :
      DomainError

-- `LedgerBucket`; `unknown_bucket` is a stored string outside the type, which the code tests for.
pub data LedgerBucket : Type 0 where
  platform_partner_payable partner_pending partner_available partner_payout_locked partner_paid
        partner_reversed :
      LedgerBucket
  unknown_bucket : Text → LedgerBucket

pub data LedgerEventType : Type 0 where
  order_success hold_release payout_lock payout_paid payout_unlock earning_reversal :
      LedgerEventType

pub record LedgerEntry : Type 0 where
  pub bucket : LedgerBucket
  pub amount_idr_signed : Number

pub record LedgerTransaction : Type 0 where
  pub event_type : LedgerEventType
  pub event_key : Text
  pub reference_type : Text
  pub reference_id : Text
  pub entries : List LedgerEntry

abbrev bucket_rank : LedgerBucket → ℕ
bucket_rank platform_partner_payable = 0
bucket_rank partner_pending = 1
bucket_rank partner_available = 2
bucket_rank partner_payout_locked = 3
bucket_rank partner_paid = 4
bucket_rank partner_reversed = 5
bucket_rank (unknown_bucket _) = 6

-- `BUCKET_SET.has(bucket)`
abbrev pub is_known_bucket : LedgerBucket → Bool
is_known_bucket b = ltb (bucket_rank b) 6

-- `a === b` on known buckets
abbrev pub eq_bucket : LedgerBucket → LedgerBucket → Bool
eq_bucket a b = bucket_rank a == bucket_rank b

-- `LEDGER_BUCKETS`
abbrev pub ledger_buckets : List LedgerBucket
ledger_buckets =
    platform_partner_payable ∷ partner_pending ∷ partner_available ∷ partner_payout_locked
    ∷ partner_paid ∷ partner_reversed ∷ []

unfoldable pub assert_safe_amount : Number → Number → Result DomainError (Unit {0})
assert_safe_amount value minimum =
    throw_if (not (is_safe_integer value) || lt_number value minimum) invalid_amount

unfoldable pub assert_valid_timestamp : Number → Result DomainError (Unit {0})
assert_valid_timestamp value = throw_if (not (is_finite value)) invalid_timestamp

unfoldable pub assert_identifier : Text → Result DomainError (Unit {0})
assert_identifier value = throw_if (is_blank value) invalid_identifier

-- The loop of `assertZeroSumEntries`, with the sum so far.
unfoldable pub sum_checked : Number → List LedgerEntry → Result DomainError Number
unfolding add_double
sum_checked sum [] = ok sum
sum_checked sum (entry ∷ entries) = do
  throw_if (not (is_known_bucket entry.bucket)) invalid_bucket
  throw_if (not (is_safe_integer entry.amount_idr_signed)) invalid_amount
  sum_checked (add_double sum entry.amount_idr_signed) entries

unfoldable pub assert_zero_sum_entries : List LedgerEntry → Result DomainError (Unit {0})
assert_zero_sum_entries entries = do
  throw_if (ltb (length entries) 2) insufficient_ledger_entries
  sum ← sum_checked (num 0) entries
  throw_if (not (eq_number sum (num 0))) ledger_imbalance

-- `createLedgerTransaction` returns its input once it is checked.
unfoldable pub create_ledger_transaction : LedgerTransaction → Result DomainError LedgerTransaction
create_ledger_transaction input = do
  assert_identifier input.event_key
  assert_identifier input.reference_type
  assert_identifier input.reference_id
  assert_zero_sum_entries input.entries
  ok input

abbrev pub transfer_entries : LedgerBucket → LedgerBucket → Number → List LedgerEntry
transfer_entries from to amount =
    record { bucket = from; amount_idr_signed = neg_number amount }
    ∷ record { bucket = to; amount_idr_signed = amount }
    ∷ []

unfoldable pub create_transfer_transaction :
    LedgerEventType
    → Text
    → Text
    → Text
    → LedgerBucket
    → LedgerBucket
    → Number
    → Result DomainError LedgerTransaction
unfolding neg_number
create_transfer_transaction event_type event_key reference_type reference_id from to amount_idr = do
  assert_safe_amount amount_idr (num 1)
  create_ledger_transaction (record {
    event_type = event_type;
    event_key = event_key;
    reference_type = reference_type;
    reference_id = reference_id;
    entries = transfer_entries from to amount_idr;
  })

abbrev pub BucketBalances : Type 0
BucketBalances = LedgerBucket → Number

abbrev pub empty_balances : BucketBalances
empty_balances _ = num 0

-- `balances[bucket] += amount`
abbrev pub add_to_bucket : BucketBalances → LedgerEntry → BucketBalances
add_to_bucket balances entry b =
    if eq_bucket b entry.bucket then add_double (balances b) entry.amount_idr_signed else balances b

-- The loop of `computeBucketBalances`.
unfoldable pub balances_from : BucketBalances → List LedgerEntry → Result DomainError BucketBalances
balances_from balances [] = ok balances
balances_from balances (entry ∷ entries) = do
  throw_if (not (is_known_bucket entry.bucket)) invalid_bucket
  balances_from (add_to_bucket balances entry) entries

unfoldable pub compute_bucket_balances : List LedgerEntry → Result DomainError BucketBalances
unfolding balances_from
compute_bucket_balances entries = balances_from empty_balances entries

-- `allEntries` of `computeBalancesFromTransactions`
unfoldable pub all_entries : List LedgerTransaction → List LedgerEntry
all_entries [] = []
all_entries (t ∷ ts) = t.entries ++ all_entries ts

unfoldable pub compute_balances_from_transactions :
    List LedgerTransaction → Result DomainError BucketBalances
compute_balances_from_transactions ts = compute_bucket_balances (all_entries ts)

unfoldable pub sum_buckets : BucketBalances → Number → List LedgerBucket → Number
sum_buckets balances total [] = total
sum_buckets balances total (b ∷ bs) = sum_buckets balances (add_double total (balances b)) bs

unfoldable pub is_ledger_balanced : BucketBalances → Bool
unfolding sum_buckets add_double
is_ledger_balanced balances = eq_number (sum_buckets balances (num 0) ledger_buckets) (num 0)

-- The deterministic event keys.
unfoldable pub order_success_event_key : Text → Text
order_success_event_key order_id = codes "order-success:" ++ order_id

unfoldable pub hold_release_event_key : Text → Text
hold_release_event_key earning_id = codes "hold-release:" ++ earning_id

unfoldable pub earning_reversal_event_key : Text → Text
earning_reversal_event_key earning_id = codes "earning-reversal:" ++ earning_id

unfoldable pub payout_lock_event_key : Text → Text
payout_lock_event_key payout_id = codes "payout-lock:" ++ payout_id

unfoldable pub payout_paid_event_key : Text → Text
payout_paid_event_key payout_id = codes "payout-paid:" ++ payout_id

unfoldable pub payout_unlock_event_key : Text → Text
payout_unlock_event_key payout_id = codes "payout-unlock:" ++ payout_id

-- No event key is blank.
pub event_keys_nonblank :
    (id : Text)
    → (is_blank (order_success_event_key id) ≡ false)
      × (is_blank (hold_release_event_key id) ≡ false)
      × (is_blank (earning_reversal_event_key id) ≡ false)
      × (is_blank (payout_lock_event_key id) ≡ false)
      × (is_blank (payout_paid_event_key id) ≡ false)
      × (is_blank (payout_unlock_event_key id) ≡ false)
unfolding order_success_event_key hold_release_event_key earning_reversal_event_key
    payout_lock_event_key payout_paid_event_key payout_unlock_event_key is_space
event_keys_nonblank id = (
  is_blank-cons _ _ refl,
  is_blank-cons _ _ refl,
  is_blank-cons _ _ refl,
  is_blank-cons _ _ refl,
  is_blank-cons _ _ refl,
  is_blank-cons _ _ refl,
)
