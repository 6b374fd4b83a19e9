-- ===== src/Order/Transition.antt =====
-- `decideOrderNumberTransition` of src/domain/order-state-machine.ts: one decision for an order and
-- the number that it holds, from a command and what the server observed.
pub mod Rules
pub mod Outcome
use kirimkode_partner.Base.{
  Bool, true, false, not, ◌&&◌, ◌||◌, ◌++◌, Option, none, some, if◌then◌else◌,
}
use kirimkode_partner.Int.{◌-ℤ◌}
use kirimkode_partner.Number.{Number, num, is_finite, lt_number, eq_number, sub_number}
use kirimkode_partner.Text.{Text, codes, eq_text}
use kirimkode_partner.Text.Uri.{encode_uri_component}
use kirimkode_partner.Order.Status.{
  OrderStatus, NumberStatus, ReleaseDisposition, order_status_text, eq_order, eq_number_status,
  disposition_status, is_terminal_order_status, is_valid_source,
}
use kirimkode_partner.Order.Release.{
  ReleaseContext, is_finite_timestamp, has_valid_release_context, decide_number_release,
}

-- `OrderTransitionCommand`
pub data OrderTransitionCommand : Type 0 where
  reserve activate succeed : OrderTransitionCommand
  -- reason, createdAtMs, observedAtMs, minimumCancelAgeMs
  cancel : Text → Number → Number → Number → ReleaseContext → OrderTransitionCommand
  -- expiresAtMs, observedAtMs
  timeout : Number → Number → ReleaseContext → OrderTransitionCommand
  fail : ReleaseContext → OrderTransitionCommand

pub record OrderNumberTransitionInput : Type 0 where
  pub order_id : Text
  pub order_status : OrderStatus
  pub number_status : NumberStatus
  pub otp_received : Bool
  pub command : OrderTransitionCommand

pub record DecisionBase : Type 0 where
  pub operation_key : Text
  pub target_order_status : OrderStatus
  pub next_order_status : OrderStatus
  pub next_number_status : NumberStatus
  pub release_disposition : Option ReleaseDisposition

pub data RejectCode : Type 0 where
  state_conflict terminal_state_conflict cancel_not_allowed : RejectCode

pub data RejectReason : Type 0 where
  illegal_transition terminal_absorbing different_terminal_state number_state_mismatch
        cancel_too_early otp_already_received timeout_not_reached invalid_transition_context :
      RejectReason

pub data OrderNumberTransitionDecision : Type 0 where
  -- with expectedOrderStatus, expectedNumberStatus and numberChanged
  apply : DecisionBase → OrderStatus → Option NumberStatus → Bool → OrderNumberTransitionDecision
  -- its reason is always `already_applied`
  no_change : DecisionBase → OrderNumberTransitionDecision
  reject : DecisionBase → RejectCode → RejectReason → OrderNumberTransitionDecision

abbrev pub target_status : OrderTransitionCommand → OrderStatus
target_status reserve = OrderStatus.reserved
target_status activate = OrderStatus.waiting_sms
target_status succeed = OrderStatus.success
target_status (cancel _ _ _ _ _) = OrderStatus.cancelled
target_status (timeout _ _ _) = OrderStatus.timeout
target_status (fail _) = OrderStatus.failed

unfoldable pub create_order_transition_operation_key : Text → OrderStatus → Text
create_order_transition_operation_key order_id target =
    codes "order-transition:"
    ++ (encode_uri_component order_id ++ codes ":" ++ order_status_text target)

-- `releaseContextOf`
abbrev pub release_context_of : OrderTransitionCommand → Option ReleaseContext
release_context_of reserve = none
release_context_of activate = none
release_context_of succeed = none
release_context_of (cancel _ _ _ _ release) = some release
release_context_of (timeout _ _ release) = some release
release_context_of (fail release) = some release

-- `unchangedDisposition`
abbrev pub unchanged_disposition : NumberStatus → Option ReleaseDisposition
unchanged_disposition NumberStatus.available = some ReleaseDisposition.available
unchanged_disposition NumberStatus.offline = some ReleaseDisposition.offline
unchanged_disposition _ = none

abbrev pub reject_transition :
    OrderNumberTransitionInput
    → OrderStatus
    → RejectCode
    → RejectReason
    → OrderNumberTransitionDecision
reject_transition i target code reason =
    reject
      (record {
        operation_key = create_order_transition_operation_key i.order_id target;
        target_order_status = target;
        next_order_status = i.order_status;
        next_number_status = i.number_status;
        release_disposition = none;
      })
      code reason

abbrev pub main_compensation : Text
main_compensation = codes "MAIN_COMPENSATION"

-- The block `if (input.command.type === "cancel")`: why a cancel is refused.
unfoldable pub cancel_refusal :
    OrderStatus
    → Bool
    → Text
    → Number
    → Number
    → Number
    → ReleaseContext
    → Option (RejectCode × RejectReason)
unfolding sub_number ◌-ℤ◌
cancel_refusal status otp_received reason created_at observed_at minimum_age release =
    if not (is_finite_timestamp created_at)
      || not (is_finite_timestamp observed_at)
      || not (is_finite minimum_age)
      || lt_number minimum_age (num 0)
      || not (eq_number release.observed_at_ms observed_at)
    then some (state_conflict, invalid_transition_context)
    else if otp_received
    then some (cancel_not_allowed, otp_already_received)
    else if not (eq_text reason main_compensation && eq_order status OrderStatus.reserved)
        && lt_number (sub_number observed_at created_at) minimum_age
    then some (cancel_not_allowed, cancel_too_early)
    else none

-- The block `if (input.command.type === "timeout")`: why a timeout is refused.
unfoldable pub timeout_refusal :
    Bool → Number → Number → ReleaseContext → Option (RejectCode × RejectReason)
timeout_refusal otp_received expires_at observed_at release =
    if not (is_finite_timestamp expires_at)
      || not (is_finite_timestamp observed_at)
      || not (eq_number release.observed_at_ms observed_at)
    then some (state_conflict, invalid_transition_context)
    else if otp_received
    then some (state_conflict, otp_already_received)
    else if lt_number observed_at expires_at
    then some (state_conflict, timeout_not_reached)
    else none

abbrev command_refusal : OrderNumberTransitionInput → Option (RejectCode × RejectReason)
command_refusal i = elim i.command [
  | cancel reason created_at observed_at minimum_age release ↦
      cancel_refusal i.order_status i.otp_received reason created_at observed_at minimum_age release
  | timeout expires_at observed_at release ↦
      timeout_refusal i.otp_received expires_at observed_at release
  | _ ↦ none
]

-- What a transition wants of the number, and what becomes of it.
pub record NumberPlan : Type 0 where
  pub expected_number_status : Option NumberStatus
  pub next_number_status : NumberStatus
  pub release_disposition : Option ReleaseDisposition

-- The release branch of the plan: it has no value where the context is missing or not valid.
abbrev release_plan : OrderStatus → Option ReleaseContext → Option NumberPlan
release_plan status none = none
release_plan status (some release) =
    if not (has_valid_release_context release)
    then none
    else some (record {
      expected_number_status = some (
          if eq_order status OrderStatus.reserved
          then NumberStatus.reserved
          else NumberStatus.busy);
      next_number_status = disposition_status (decide_number_release release);
      release_disposition = some (decide_number_release release);
    })

number_plan : OrderNumberTransitionInput → OrderStatus → Option NumberPlan
number_plan i target =
    if eq_order target OrderStatus.reserved
    then some (record {
      expected_number_status = some NumberStatus.available;
      next_number_status = NumberStatus.reserved;
      release_disposition = none;
    })
    else if eq_order target OrderStatus.waiting_sms
    then some (record {
      expected_number_status = some NumberStatus.reserved;
      next_number_status = NumberStatus.busy;
      release_disposition = none;
    })
    else if eq_order target OrderStatus.success
    then some (record {
      expected_number_status = some NumberStatus.busy;
      next_number_status = i.number_status;
      release_disposition = none;
    })
    else if is_terminal_order_status target && not (eq_order i.order_status OrderStatus.created)
    then release_plan i.order_status (release_context_of i.command)
    else some (record {
      expected_number_status = none;
      next_number_status = i.number_status;
      release_disposition = none;
    })

-- `expectedNumberStatus !== null && input.numberStatus !== expectedNumberStatus`
abbrev is_mismatched : NumberStatus → Option NumberStatus → Bool
is_mismatched status none = false
is_mismatched status (some expected) = not (eq_number_status status expected)

-- The end of the function, once the plan for the number is there.
apply_plan :
    OrderNumberTransitionInput → OrderStatus → Option NumberPlan → OrderNumberTransitionDecision
apply_plan i target none = reject_transition i target state_conflict invalid_transition_context
apply_plan i target (some plan) =
    if is_mismatched i.number_status plan.expected_number_status
    then reject_transition i target state_conflict number_state_mismatch
    else apply
        (record {
          operation_key = create_order_transition_operation_key i.order_id target;
          target_order_status = target;
          next_order_status = target;
          next_number_status = plan.next_number_status;
          release_disposition = plan.release_disposition;
        })
        i.order_status plan.expected_number_status
        (not (eq_number_status plan.next_number_status i.number_status))

abbrev refuse_or_plan :
    OrderNumberTransitionInput
    → OrderStatus
    → Option (RejectCode × RejectReason)
    → OrderNumberTransitionDecision
refuse_or_plan i target (some (code, reason)) = reject_transition i target code reason
refuse_or_plan i target none = apply_plan i target (number_plan i target)

unfoldable pub decide_order_number_transition :
    OrderNumberTransitionInput → OrderNumberTransitionDecision
unfolding number_plan apply_plan
decide_order_number_transition i =
    let target = target_status i.command in
    if eq_order i.order_status target
    then no_change (record {
      operation_key = create_order_transition_operation_key i.order_id target;
      target_order_status = target;
      next_order_status = i.order_status;
      next_number_status = i.number_status;
      release_disposition =
          if is_terminal_order_status target then unchanged_disposition i.number_status else none;
    })
    else if is_terminal_order_status i.order_status
    then (if is_terminal_order_status target
        then reject_transition i target terminal_state_conflict different_terminal_state
        else reject_transition i target state_conflict terminal_absorbing)
    else if not (is_valid_source target i.order_status)
    then reject_transition i target state_conflict illegal_transition
    else refuse_or_plan i target (command_refusal i)

-- What the decision says of the two statuses.
abbrev pub decision_base : OrderNumberTransitionDecision → DecisionBase
decision_base (apply b _ _ _) = b
decision_base (no_change b) = b
decision_base (reject b _ _) = b

abbrev pub is_apply : OrderNumberTransitionDecision → Bool
is_apply (apply _ _ _ _) = true
is_apply _ = false
