-- ===== src/Earning.antt =====
-- The earning lifecycle (src/domain/task-5-6/earning.ts): an earning is created once for a successful
-- order, released after its hold, and reversed while it is still pending or available.
pub mod Lifecycle
use kirimkode_partner.Base.{
  ℕ, ◌-◌, ◌*◌, ◌/◌, Bool, not, ◌&&◌, Option, none, some, leb, if◌then◌else◌, Result, ok, ◌>>◌,
  ◌>>=◌,
}
use kirimkode_partner.Int.{pos_part, neg_part}
use kirimkode_partner.Number.{Number, int, nan, num, lt_number, add_number}
use kirimkode_partner.Text.{Text, codes, is_blank}
use kirimkode_partner.Ledger.{
  DomainError, LedgerTransaction, order_success, hold_release, earning_reversal,
  platform_partner_payable, partner_pending, partner_available, partner_reversed, LedgerBucket,
  assert_identifier, assert_safe_amount, assert_valid_timestamp, create_transfer_transaction,
  order_success_event_key, hold_release_event_key, earning_reversal_event_key,
}

pub data EarningStatus : Type 0 where
  pending available requested paid reversed : EarningStatus

-- `EARNING_HOLD_PERIOD_MS`
abbrev pub earning_hold_period_ms : ℕ
earning_hold_period_ms = 24 * 60 * 60 * 1000

-- A `Date` is its time value, NaN if it is invalid.
pub record EarningState : Type 0 where
  pub id : Text
  pub order_id : Text
  pub amount_idr : Number
  pub status : EarningStatus
  pub available_at : Number

-- `new Date(t).getTime()`: a time beyond 8.64e15 milliseconds is not a date.
unfoldable pub new_date : Number → Number
new_date (int z) =
    if leb (pos_part z) 8640000000000000 && leb (neg_part z) 8640000000000000 then int z else nan
new_date _ = nan

pub record CreateEarningInput : Type 0 where
  pub earning_id : Text
  pub order_id : Text
  pub payout_idr : Number
  pub succeeded_at : Number
  pub hold_period_ms : Option Number
  pub earning_exists_for_order : Bool

pub data CreateEarningDecision : Type 0 where
  create : Text → EarningState → LedgerTransaction → CreateEarningDecision
  -- its reason is always `earning_already_exists`
  no_change : Text → CreateEarningDecision

-- `x ?? d`
abbrev pub or_default {ℓ} : {A : Type ℓ} → Option A → A → A
or_default none d = d
or_default (some x) d = x

-- The part of `decideEarningOnSuccess` behind the dedupe guard.
unfoldable pub create_earning : CreateEarningInput → Text → Result DomainError CreateEarningDecision
unfolding add_number new_date
create_earning input event_key = do
  assert_identifier input.earning_id
  assert_safe_amount input.payout_idr (num 1)
  assert_valid_timestamp input.succeeded_at
  let hold_period_ms = or_default input.hold_period_ms (num earning_hold_period_ms)
  assert_safe_amount hold_period_ms (num 0)
  let available_at = new_date (add_number input.succeeded_at hold_period_ms)
  transaction ←
      create_transfer_transaction order_success event_key (codes "order") input.order_id
        platform_partner_payable partner_pending input.payout_idr
  ok (
      create event_key
        (record {
          id = input.earning_id;
          order_id = input.order_id;
          amount_idr = input.payout_idr;
          status = pending;
          available_at = available_at;
        })
        transaction)

unfoldable pub decide_earning_on_success :
    CreateEarningInput → Result DomainError CreateEarningDecision
decide_earning_on_success input =
    let event_key = order_success_event_key input.order_id in
    assert_identifier input.order_id
    >> (if input.earning_exists_for_order
        then ok (no_change event_key)
        else create_earning input event_key)

pub data ReleaseHoldCode : Type 0 where
  hold_not_elapsed dispute_active invalid_state : ReleaseHoldCode

pub data ReleaseHoldDecision : Type 0 where
  -- its next status is always `available`
  release : Text → LedgerTransaction → ReleaseHoldDecision
  -- its reason is always `already_available`
  no_change : Text → ReleaseHoldDecision
  reject : ReleaseHoldCode → Text → ReleaseHoldDecision

-- `decideHoldRelease`, by the earning's status, once the two dates are known to be valid.
unfoldable pub release_hold :
    EarningStatus → EarningState → Number → Bool → Text → Result DomainError ReleaseHoldDecision
release_hold available earning now has_active_dispute event_key =
    ok (ReleaseHoldDecision.no_change event_key)
release_hold pending earning now has_active_dispute event_key =
    if has_active_dispute
    then ok (reject dispute_active event_key)
    else if lt_number now earning.available_at
    then ok (reject hold_not_elapsed event_key)
    else (do
      transaction ←
          create_transfer_transaction hold_release event_key (codes "earning") earning.id
            partner_pending partner_available earning.amount_idr
      ok (release event_key transaction))
release_hold _ earning now has_active_dispute event_key = ok (reject invalid_state event_key)

unfoldable pub decide_hold_release :
    EarningState → Number → Bool → Result DomainError ReleaseHoldDecision
unfolding release_hold
decide_hold_release earning now has_active_dispute = do
  assert_valid_timestamp now
  assert_valid_timestamp earning.available_at
  release_hold earning.status earning now has_active_dispute (hold_release_event_key earning.id)

pub data ReverseEarningCode : Type 0 where
  invalid_state missing_reason : ReverseEarningCode

pub data ReverseEarningDecision : Type 0 where
  -- its next status is always `reversed`
  reverse : Text → LedgerTransaction → ReverseEarningDecision
  -- its reason is always `already_reversed`
  no_change : Text → ReverseEarningDecision
  -- its reason is always `paid_earning_manual_reconciliation`
  reconciliation_required : Text → ReverseEarningDecision
  reject : ReverseEarningCode → Text → ReverseEarningDecision

-- The end of `decideEarningReversal`, for an earning whose money is in `from`.
reverse_from : LedgerBucket → EarningState → Text → Text → Result DomainError ReverseEarningDecision
reverse_from from earning reason event_key =
    if is_blank reason then ok (ReverseEarningDecision.reject missing_reason event_key) else (do
      transaction ←
          create_transfer_transaction earning_reversal event_key (codes "earning") earning.id from
            partner_reversed earning.amount_idr
      ok (reverse event_key transaction))

reverse_by_status :
    EarningStatus → EarningState → Text → Text → Result DomainError ReverseEarningDecision
unfolding reverse_from
reverse_by_status reversed earning reason event_key =
    ok (ReverseEarningDecision.no_change event_key)
reverse_by_status paid earning reason event_key = ok (reconciliation_required event_key)
reverse_by_status requested earning reason event_key =
    ok (ReverseEarningDecision.reject ReverseEarningCode.invalid_state event_key)
reverse_by_status pending earning reason event_key =
    reverse_from partner_pending earning reason event_key
reverse_by_status available earning reason event_key =
    reverse_from partner_available earning reason event_key

unfoldable pub decide_earning_reversal :
    EarningState → Text → Result DomainError ReverseEarningDecision
unfolding reverse_by_status
decide_earning_reversal earning reason =
    reverse_by_status earning.status earning reason (earning_reversal_event_key earning.id)
