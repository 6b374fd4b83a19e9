-- ===== src/Settlement.antt =====
-- The earning lifecycle service (src/application/ledger/earning-lifecycle-service.ts) on the rows of one
-- partner: its decisions are made on rows read earlier, and its transactions run on the rows as they are
-- then, through the compare-and-set of src/infrastructure/database/earning-projection-repository.ts and
-- the idempotent append of src/infrastructure/database/ledger-repository.ts. The newest transaction of
-- the ledger stands first.
pub mod Moved
pub mod Rows
pub mod Agreement
pub mod Commands
pub mod Retry
pub mod Payouts
pub mod Amounts
pub mod Runs
use kirimkode_partner.Base.{
  ℕ, ◌-◌, ◌/◌, Bool, true, false, not, ◌&&◌, Option, none, some, List, [], ◌∷◌, ◌==◌, if◌then◌else◌,
  any, Result, ok, ◌>>=◌, ◌>>◌,
}
use kirimkode_partner.Number.{Number}
use kirimkode_partner.Text.{Text, eq_text}
use kirimkode_partner.Ledger.{DomainError, LedgerTransaction, assert_zero_sum_entries}
use kirimkode_partner.Earning.{
  EarningStatus, pending, available, requested, paid, reversed, EarningState, ReleaseHoldCode,
  release, ReleaseHoldDecision, decide_hold_release, ReverseEarningCode, ReverseEarningDecision,
  reverse, reconciliation_required, decide_earning_reversal,
}

-- The partner's earnings and ledger transactions.
pub record Store : Type 0 where
  pub earnings : List EarningState
  pub ledger : List LedgerTransaction

abbrev status_rank : EarningStatus → ℕ
status_rank pending = 0
status_rank available = 1
status_rank requested = 2
status_rank paid = 3
status_rank reversed = 4

abbrev pub eq_status : EarningStatus → EarningStatus → Bool
eq_status a b = status_rank a == status_rank b

unfoldable pub find_earning_by_id : Text → List EarningState → Option EarningState
find_earning_by_id id [] = none
find_earning_by_id id (e ∷ es) =
    let rest = find_earning_by_id id es in if eq_text e.id id then some e else rest

abbrev pub move_earning : EarningState → EarningStatus → EarningState
move_earning e next = record e { status = next }

abbrev pub behind : EarningState → Option (List EarningState) → Option (List EarningState)
behind e none = none
behind e (some es) = some (e ∷ es)

-- The compare-and-set on the row's status; `none` is the outcome `no_op`.
unfoldable pub update_earning_status :
    Text → EarningStatus → EarningStatus → List EarningState → Option (List EarningState)
update_earning_status id expected next [] = none
update_earning_status id expected next (e ∷ es) =
    let rest = update_earning_status id expected next es in
    if eq_text e.id id && eq_status e.status expected
    then some (move_earning e next ∷ es)
    else behind e rest

abbrev pub has_key : Text → List LedgerTransaction → Bool
has_key key ledger = any (λ t. eq_text t.event_key key) ledger

-- A transaction whose event key is there already is not appended again.
unfoldable pub append_transaction :
    LedgerTransaction → List LedgerTransaction → Result DomainError (List LedgerTransaction)
append_transaction transaction ledger = do
  assert_zero_sum_entries transaction.entries
  ok (if has_key transaction.event_key ledger then ledger else transaction ∷ ledger)

-- The ledger event is appended only with the move of the row.
unfoldable pub commit :
    LedgerTransaction → Store → Option (List EarningState) → Result DomainError (Bool × Store)
commit transaction store none = ok (false, store)
commit transaction store (some earnings) =
    append_transaction transaction store.ledger
    >>= (λ ledger. ok (true, record { earnings = earnings; ledger = ledger }))

-- The unit that `runner.run` commits.
unfoldable pub advance :
    Text
    → EarningStatus
    → EarningStatus
    → LedgerTransaction
    → Store
    → Result DomainError (Bool × Store)
advance id expected next transaction store =
    commit transaction store (update_earning_status id expected next store.earnings)

pub data ReleaseHoldResult : Type 0 where
  released already_available state_changed not_found : ReleaseHoldResult
  refused : ReleaseHoldCode → ReleaseHoldResult

abbrev pub released_if : Bool × Store → ReleaseHoldResult × Store
released_if (applied, store) = ((if applied then released else state_changed), store)

unfoldable pub carry_release :
    Text → ReleaseHoldDecision → Store → Result DomainError (ReleaseHoldResult × Store)
carry_release id (ReleaseHoldDecision.no_change key) store = ok (already_available, store)
carry_release id (ReleaseHoldDecision.reject code key) store = ok (refused code, store)
carry_release id (release key transaction) store =
    advance id pending available transaction store >>= (λ r. ok (released_if r))

-- The command on the row that was read, if there is one.
unfoldable pub release_found :
    Text
    → Number
    → Bool
    → Store
    → Option EarningState
    → Result DomainError (ReleaseHoldResult × Store)
release_found id now has_active_dispute store none = ok (not_found, store)
release_found id now has_active_dispute store (some earning) =
    decide_hold_release earning now has_active_dispute
    >>= (λ decision. carry_release id decision store)

unfoldable pub lifecycle_release_hold :
    List EarningState
    → Text
    → Number
    → Bool
    → Store
    → Result DomainError (ReleaseHoldResult × Store)
lifecycle_release_hold seen id now has_active_dispute store =
    release_found id now has_active_dispute store (find_earning_by_id id seen)

-- `reconciliation_needed` also records a reconciliation issue, which is not part of the store.
pub data ReverseEarningResult : Type 0 where
  reversed_now already_reversed reconciliation_needed changed_meanwhile unknown :
      ReverseEarningResult
  refused_reversal : ReverseEarningCode → ReverseEarningResult

abbrev pub reversed_if : Bool × Store → ReverseEarningResult × Store
reversed_if (applied, store) = ((if applied then reversed_now else changed_meanwhile), store)

unfoldable pub carry_reversal :
    Text
    → EarningStatus
    → ReverseEarningDecision
    → Store
    → Result DomainError (ReverseEarningResult × Store)
carry_reversal id status (ReverseEarningDecision.no_change key) store = ok (already_reversed, store)
carry_reversal id status (ReverseEarningDecision.reject code key) store =
    ok (refused_reversal code, store)
carry_reversal id status (reconciliation_required key) store = ok (reconciliation_needed, store)
carry_reversal id status (reverse key transaction) store =
    advance id status reversed transaction store >>= (λ r. ok (reversed_if r))

unfoldable pub reverse_found :
    Text → Text → Store → Option EarningState → Result DomainError (ReverseEarningResult × Store)
reverse_found id reason store none = ok (unknown, store)
reverse_found id reason store (some earning) =
    decide_earning_reversal earning reason
    >>= (λ decision. carry_reversal id earning.status decision store)

unfoldable pub lifecycle_reverse_earning :
    List EarningState → Text → Text → Store → Result DomainError (ReverseEarningResult × Store)
lifecycle_reverse_earning seen id reason store =
    reverse_found id reason store (find_earning_by_id id seen)
