-- ===== src/Order/Listening.antt =====
-- The listening window after a success (src/domain/order-listening-window.ts): who may still receive
-- a code, and when the number's hold ends.
pub mod Hold
use kirimkode_partner.Base.{
  ◌+◌, ◌-◌, ◌/◌, Bool, true, false, not, ◌&&◌, ◌||◌, Option, none, some, [], ◌∷◌, ◌++◌,
  if◌then◌else◌, any,
}
use kirimkode_partner.Number.{Number, le_number, eq_number}
use kirimkode_partner.Text.{Text, codes, eq_text}
use kirimkode_partner.Text.Uri.{encode_uri_component}
use kirimkode_partner.Order.Status.{
  OrderStatus, NumberStatus, ReleaseDisposition, eq_order, eq_number_status, disposition_status,
}
use kirimkode_partner.Order.Release.{ReleaseContext, is_finite_timestamp, decide_number_release}

pub data ListeningReleaseTrigger : Type 0 where
  buyer_complete expiry_sweep : ListeningReleaseTrigger

pub record ListeningOrderState : Type 0 where
  pub order_id : Text
  pub order_status : OrderStatus
  pub completed_at_ms : Option Number
  pub expires_at_ms : Number

pub record ListeningHoldReleaseInput : Type 0 where
  pub order : ListeningOrderState
  pub number_status : NumberStatus
  pub number_current_order_id : Option Text
  pub trigger : ListeningReleaseTrigger
  pub observed_at_ms : Number
  pub release : ReleaseContext

pub record ApplyListeningRelease : Type 0 where
  pub completed_at_ms : Number
  pub next_number_status : NumberStatus
  pub number_changed : Bool
  pub release_disposition : Option ReleaseDisposition

pub data ListeningRejectReason : Type 0 where
  order_not_successful window_still_open invalid_transition_context : ListeningRejectReason

-- Each with its operation key; `no_change` is always `already_completed`, and `reject` always has the
-- code `STATE_CONFLICT`.
pub data ListeningHoldReleaseDecision : Type 0 where
  apply : Text → ApplyListeningRelease → ListeningHoldReleaseDecision
  no_change : Text → ListeningHoldReleaseDecision
  reject : Text → ListeningRejectReason → ListeningHoldReleaseDecision

-- `HELD_STATUSES`
abbrev pub is_held_status : NumberStatus → Bool
is_held_status s = any (eq_number_status s) (NumberStatus.busy ∷ NumberStatus.reserved ∷ [])

pub create_listening_release_operation_key : Text → Text
create_listening_release_operation_key order_id =
    codes "order-listening-release:" ++ encode_uri_component order_id

abbrev pub is_null : {A : Type 0} → Option A → Bool
is_null none = true
is_null (some _) = false

unfoldable pub is_listening_order : ListeningOrderState → Number → Bool
is_listening_order order observed_at =
    eq_order order.order_status OrderStatus.success
    && is_null order.completed_at_ms
    && is_finite_timestamp order.expires_at_ms
    && is_finite_timestamp observed_at
    && le_number observed_at order.expires_at_ms

abbrev is_expiry_sweep : ListeningReleaseTrigger → Bool
is_expiry_sweep expiry_sweep = true
is_expiry_sweep buyer_complete = false

abbrev pub is_current_order : Option Text → Text → Bool
is_current_order none id = false
is_current_order (some current) id = eq_text current id

abbrev pub still_holding : ListeningHoldReleaseInput → Bool
still_holding i =
    is_held_status i.number_status && is_current_order i.number_current_order_id i.order.order_id

unfoldable pub decide_listening_hold_release :
    ListeningHoldReleaseInput → ListeningHoldReleaseDecision
decide_listening_hold_release i =
    let key = create_listening_release_operation_key i.order.order_id in
    let disposition = decide_number_release i.release in
    if not (is_finite_timestamp i.observed_at_ms)
      || not (is_finite_timestamp i.order.expires_at_ms)
      || not (eq_number i.release.observed_at_ms i.observed_at_ms)
    then reject key invalid_transition_context
    else if not (is_null i.order.completed_at_ms)
    then no_change key
    else if not (eq_order i.order.order_status OrderStatus.success)
    then reject key order_not_successful
    else if is_expiry_sweep i.trigger && le_number i.observed_at_ms i.order.expires_at_ms
    then reject key window_still_open
    else if not (still_holding i)
    then apply key (record {
      completed_at_ms = i.observed_at_ms;
      next_number_status = i.number_status;
      number_changed = false;
      release_disposition = none;
    })
    else apply key (record {
      completed_at_ms = i.observed_at_ms;
      next_number_status = disposition_status disposition;
      number_changed = not (eq_number_status (disposition_status disposition) i.number_status);
      release_disposition = some disposition;
    })
