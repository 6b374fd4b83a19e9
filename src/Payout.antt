-- ===== src/Payout.antt =====
-- Manual payouts (src/domain/task-5-6/payout.ts): a request locks whole available earnings, and a
-- state machine settles or unlocks them.
pub mod Transition
pub mod Request
use kirimkode_partner.Base.{
  ℕ, ◌-◌, ◌/◌, Bool, true, false, not, ◌||◌, Option, none, some, List, [], ◌∷◌, map, ◌==◌,
  if◌then◌else◌, length, any, Result, ok, ◌>>◌, throw_if, ◌>>=◌,
}
use kirimkode_partner.Number.{Number, num, is_finite, is_safe_integer, lt_number, add_number}
use kirimkode_partner.Text.{Text, codes, eq_text, trim, is_blank}
use kirimkode_partner.Ledger.{
  DomainError, invalid_amount, duplicate_payment_reference, LedgerTransaction, payout_lock,
  payout_paid, payout_unlock, partner_available, partner_payout_locked, partner_paid,
  assert_identifier, create_transfer_transaction, payout_lock_event_key, payout_paid_event_key,
  payout_unlock_event_key,
}
use kirimkode_partner.Earning.{EarningStatus, EarningState, or_default}

pub data PayoutStatus : Type 0 where
  requested approved processing paid rejected failed : PayoutStatus

-- `PAYOUT_MINIMUM_IDR`
abbrev pub payout_minimum_idr : ℕ
payout_minimum_idr = 1000

pub record PayoutAllocation : Type 0 where
  pub earning_id : Text
  pub amount_idr : Number

pub record PayoutState : Type 0 where
  pub id : Text
  pub status : PayoutStatus
  pub amount_idr : Number
  pub allocations : List PayoutAllocation
  pub payment_reference : Option Text

abbrev payout_rank : PayoutStatus → ℕ
payout_rank PayoutStatus.requested = 0
payout_rank PayoutStatus.approved = 1
payout_rank PayoutStatus.processing = 2
payout_rank PayoutStatus.paid = 3
payout_rank PayoutStatus.rejected = 4
payout_rank PayoutStatus.failed = 5

-- `a === b` on payout statuses
abbrev pub eq_payout : PayoutStatus → PayoutStatus → Bool
eq_payout a b = payout_rank a == payout_rank b

-- `TERMINAL_STATUSES`
abbrev pub is_terminal_payout_status : PayoutStatus → Bool
is_terminal_payout_status s =
    any (eq_payout s) (PayoutStatus.paid ∷ PayoutStatus.rejected ∷ PayoutStatus.failed ∷ [])

pub record RequestPayoutInput : Type 0 where
  pub payout_id : Text
  pub earnings : List EarningState
  pub minimum_idr : Option Number

pub data RequestRejectCode : Type 0 where
  empty_selection duplicate_earning earning_not_available below_minimum : RequestRejectCode

pub data RequestPayoutDecision : Type 0 where
  -- eventKey, amountIdr, allocations, transaction; each earning's next status is `requested`
  lock : Text → Number → List PayoutAllocation → LedgerTransaction → RequestPayoutDecision
  reject : RequestRejectCode → RequestPayoutDecision

abbrev pub is_available : EarningStatus → Bool
is_available EarningStatus.available = true
is_available _ = false

-- The loop over the selection, with the ids seen so far; `none` where every earning passes.
unfoldable pub check_selection : List Text → List EarningState → Option RequestRejectCode
check_selection seen [] = none
check_selection seen (earning ∷ earnings) =
    let rest = check_selection (earning.id ∷ seen) earnings in
    if any (eq_text earning.id) seen
    then some duplicate_earning
    else if not (is_available earning.status)
    then some earning_not_available
    else rest

abbrev pub allocation_of : EarningState → PayoutAllocation
allocation_of earning = record { earning_id = earning.id; amount_idr = earning.amount_idr }

-- `allocations.reduce(...)`, with exact partial sums: of positive safe amounts, as the earnings have them, a sum
-- that has left the safe range stays outside it, rounded or not, and the test of the result refuses it.
unfoldable pub sum_allocations : Number → List PayoutAllocation → Number
unfolding add_number
sum_allocations total [] = total
sum_allocations total (a ∷ as') = sum_allocations (add_number total a.amount_idr) as'

-- `decideRequestPayout` once the selection has passed its checks.
unfoldable pub lock_selection : RequestPayoutInput → Result DomainError RequestPayoutDecision
lock_selection input =
    let allocations = map allocation_of input.earnings in
    let amount_idr = sum_allocations (num 0) allocations in
    let minimum = or_default input.minimum_idr (num payout_minimum_idr) in
    throw_if (not (is_safe_integer amount_idr)) invalid_amount
    >> (if lt_number amount_idr minimum then ok (reject below_minimum) else (do
      transaction ←
          create_transfer_transaction payout_lock (payout_lock_event_key input.payout_id)
            (codes "payout") input.payout_id partner_available partner_payout_locked amount_idr
      ok (lock (payout_lock_event_key input.payout_id) amount_idr allocations transaction)))

abbrev reject_or_lock :
    Option RequestRejectCode → RequestPayoutInput → Result DomainError RequestPayoutDecision
reject_or_lock (some code) input = ok (reject code)
reject_or_lock none input = lock_selection input

unfoldable pub decide_request_payout : RequestPayoutInput → Result DomainError RequestPayoutDecision
decide_request_payout input =
    assert_identifier input.payout_id
    >> (if length input.earnings == 0
        then ok (reject empty_selection)
        else reject_or_lock (check_selection [] input.earnings) input)

-- `assertPaymentReferenceAvailable`
unfoldable pub assert_payment_reference_available : Text → List Text → Result DomainError Text
assert_payment_reference_available reference existing_references = do
  throw_if (is_blank reference) DomainError.missing_payment_reference
  throw_if (any (λ existing. eq_text existing (trim reference)) existing_references)
      duplicate_payment_reference
  ok (trim reference)

pub data PayoutCommand : Type 0 where
  approve process : PayoutCommand
  -- paymentReference, paidAt, actorRef
  mark_paid : Text → Number → Text → PayoutCommand
  -- reason, actorRef
  reject fail : Text → Text → PayoutCommand

-- `VALID_SOURCES`
abbrev pub valid_payout_sources : PayoutStatus → List PayoutStatus
valid_payout_sources PayoutStatus.requested = []
valid_payout_sources PayoutStatus.approved = PayoutStatus.requested ∷ []
valid_payout_sources PayoutStatus.processing = PayoutStatus.approved ∷ []
valid_payout_sources PayoutStatus.paid = PayoutStatus.processing ∷ []
valid_payout_sources PayoutStatus.rejected =
    PayoutStatus.requested ∷ PayoutStatus.approved ∷ PayoutStatus.processing ∷ []
valid_payout_sources PayoutStatus.failed =
    PayoutStatus.requested ∷ PayoutStatus.approved ∷ PayoutStatus.processing ∷ []

abbrev pub payout_target_status : PayoutCommand → PayoutStatus
payout_target_status approve = PayoutStatus.approved
payout_target_status process = PayoutStatus.processing
payout_target_status (mark_paid _ _ _) = PayoutStatus.paid
payout_target_status (PayoutCommand.reject _ _) = PayoutStatus.rejected
payout_target_status (fail _ _) = PayoutStatus.failed

-- The applied decision, with the optional fields of `PayoutTransitionContext`; the method is always
-- `bank_transfer_manual` where there is a payment reference.
pub record AppliedPayout : Type 0 where
  pub next_status : PayoutStatus
  pub payment_reference : Option Text
  pub paid_at : Option Number
  pub actor_ref : Option Text
  pub reason : Option Text
  pub event_key : Option Text
  pub earning_next_status : Option EarningStatus
  pub transaction : Option LedgerTransaction

pub data PayoutRejectCode : Type 0 where
  illegal_transition terminal_state_conflict missing_reason missing_payment_reference
        payment_reference_conflict invalid_timestamp :
      PayoutRejectCode

pub data PayoutTransitionDecision : Type 0 where
  apply : AppliedPayout → PayoutTransitionDecision
  -- its reason is always `already_in_target_state`
  no_change : PayoutStatus → PayoutTransitionDecision
  reject : PayoutRejectCode → PayoutTransitionDecision

abbrev pub same_reference : Option Text → Text → Bool
same_reference none t = false
same_reference (some s) t = eq_text s t

-- A command whose target is the payout's status.
unfoldable pub repeat_decision : PayoutState → PayoutCommand → PayoutTransitionDecision
repeat_decision payout (mark_paid reference _ _) =
    if is_blank reference
    then PayoutTransitionDecision.reject PayoutRejectCode.missing_payment_reference
    else if not (same_reference payout.payment_reference (trim reference))
    then PayoutTransitionDecision.reject payment_reference_conflict
    else no_change payout.status
repeat_decision payout _ = no_change payout.status

-- `command.type === "reject" || command.type === "fail"`
unfoldable pub unlock_decision :
    PayoutState → PayoutStatus → Text → Text → Result DomainError PayoutTransitionDecision
unlock_decision payout target reason actor_ref =
    if is_blank reason
    then ok (PayoutTransitionDecision.reject PayoutRejectCode.missing_reason)
    else (do
      transaction ←
          create_transfer_transaction payout_unlock (payout_unlock_event_key payout.id)
            (codes "payout") payout.id partner_payout_locked partner_available payout.amount_idr
      ok (
          apply (record {
            next_status = target;
            payment_reference = none;
            paid_at = none;
            actor_ref = some actor_ref;
            reason = some reason;
            event_key = some (payout_unlock_event_key payout.id);
            earning_next_status = some EarningStatus.available;
            transaction = some transaction;
          })))

-- `command.type === "markPaid"`
unfoldable pub paid_decision :
    PayoutState → Text → Number → Text → Result DomainError PayoutTransitionDecision
paid_decision payout reference paid_at actor_ref =
    if is_blank reference
    then ok (PayoutTransitionDecision.reject PayoutRejectCode.missing_payment_reference)
    else if not (is_finite paid_at)
    then ok (PayoutTransitionDecision.reject PayoutRejectCode.invalid_timestamp)
    else (do
      transaction ←
          create_transfer_transaction payout_paid (payout_paid_event_key payout.id) (codes "payout")
            payout.id partner_payout_locked partner_paid payout.amount_idr
      ok (
          apply (record {
            next_status = PayoutStatus.paid;
            payment_reference = some (trim reference);
            paid_at = some paid_at;
            actor_ref = some actor_ref;
            reason = none;
            event_key = some (payout_paid_event_key payout.id);
            earning_next_status = some EarningStatus.paid;
            transaction = some transaction;
          })))

-- `approve` and `process`: no ledger effect.
abbrev workflow_decision : PayoutStatus → PayoutTransitionDecision
workflow_decision target = apply (record {
  next_status = target;
  payment_reference = none;
  paid_at = none;
  actor_ref = none;
  reason = none;
  event_key = none;
  earning_next_status = none;
  transaction = none;
})

-- What an allowed command does.
unfoldable pub settle_decision :
    PayoutState → PayoutCommand → Result DomainError PayoutTransitionDecision
settle_decision payout approve = ok (workflow_decision PayoutStatus.approved)
settle_decision payout process = ok (workflow_decision PayoutStatus.processing)
settle_decision payout (mark_paid reference paid_at actor_ref) =
    paid_decision payout reference paid_at actor_ref
settle_decision payout (PayoutCommand.reject reason actor_ref) =
    unlock_decision payout PayoutStatus.rejected reason actor_ref
settle_decision payout (fail reason actor_ref) =
    unlock_decision payout PayoutStatus.failed reason actor_ref

unfoldable pub decide_payout_transition :
    PayoutState → PayoutCommand → Result DomainError PayoutTransitionDecision
decide_payout_transition payout command =
    let target = payout_target_status command in
    if eq_payout payout.status target
    then ok (repeat_decision payout command)
    else if is_terminal_payout_status payout.status
    then ok (PayoutTransitionDecision.reject terminal_state_conflict)
    else if not (any (eq_payout payout.status) (valid_payout_sources target))
    then ok (PayoutTransitionDecision.reject illegal_transition)
    else settle_decision payout command
