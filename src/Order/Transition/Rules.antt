-- ===== src/Order/Transition/Rules.antt =====
-- When the state machine applies a transition: the conditions of each command, stated apart from
-- the code's tests, and the decision's agreement with them.
use kirimkode_partner.Base.{ℕ, ◌+◌, ◌≤◌, ◌≡◌, refl, ◌↔◌, ◌⊎◌, Bool, true, false, none, arith}
use kirimkode_partner.Int.{pos}
use kirimkode_partner.Number.{Number, int, num}
use kirimkode_partner.Text.{Text, eq_text_iff}
use kirimkode_partner.Order.Status.{OrderStatus, NumberStatus, eq_order_iff}
use kirimkode_partner.Order.Release.{ReleaseContext, has_valid_release_context}
use kirimkode_partner.Order.Transition.{
  OrderTransitionCommand, reserve, activate, succeed, cancel, timeout, fail,
  OrderNumberTransitionInput, cancel_refusal, timeout_refusal, main_compensation,
  decide_order_number_transition, is_apply,
}

-- A live order and the number that it holds.
abbrev pub Holds : OrderStatus → NumberStatus → Type 0
Holds s n =
    ((s ≡ OrderStatus.reserved) × (n ≡ NumberStatus.reserved))
    ⊎ ((s ≡ OrderStatus.waiting_sms) × (n ≡ NumberStatus.busy))

-- A cancel may go through: no code was received, the times are given and agree, and the order is old
-- enough, or it is a compensation of an order that is still reserved.
pub record CancelDue (status : OrderStatus) (otp_received : Bool) (reason : Text)
    (created_at observed_at minimum_age : Number) (release : ReleaseContext) : Type 0 where
  pub created : ℕ
  pub observed : ℕ
  pub minimum : ℕ
  pub created_eq : created_at ≡ num created
  pub observed_eq : observed_at ≡ num observed
  pub minimum_eq : minimum_age ≡ num minimum
  pub release_eq : release.observed_at_ms ≡ num observed
  pub no_otp : otp_received ≡ false
  pub due :
      (created + minimum ≤ observed)
      ⊎ ((reason ≡ main_compensation) × (status ≡ OrderStatus.reserved))

pub record TimeoutDue (otp_received : Bool) (expires_at observed_at : Number)
    (release : ReleaseContext) : Type 0 where
  pub expires : ℕ
  pub observed : ℕ
  pub expires_eq : expires_at ≡ num expires
  pub observed_eq : observed_at ≡ num observed
  pub release_eq : release.observed_at_ms ≡ num observed
  pub no_otp : otp_received ≡ false
  pub due : expires ≤ observed

module _ (status : OrderStatus) (otp : Bool) (reason : Text) (release : ReleaseContext) where
  CancelDue-none :
      (c o m : Number)
      → CancelDue status otp reason c o m release
      → cancel_refusal status otp reason c o m release ≡ none
  unfolding cancel_refusal
  CancelDue-none c o m h =
      ground (arith, eq_text_iff reason main_compensation, eq_order_iff status OrderStatus.reserved)

  due_of :
      (c o m : ℕ) (r : Number)
      → release.observed_at_ms ≡ r
      → cancel_refusal status otp reason (num c) (num o) (num m) release ≡ none
      → (c + m ≤ o) ⊎ ((reason ≡ main_compensation) × (status ≡ OrderStatus.reserved))
  unfolding cancel_refusal
  due_of c o m r e h =
      ground (arith, eq_text_iff reason main_compensation, eq_order_iff status OrderStatus.reserved)

  none-CancelDue :
      (c o m r : Number)
      → release.observed_at_ms ≡ r
      → cancel_refusal status otp reason c o m release ≡ none
      → CancelDue status otp reason c o m release
  unfolding cancel_refusal
  none-CancelDue (int (pos c)) (int (pos o)) (int (pos m)) r e h = record {
    created = c;
    observed = o;
    minimum = m;
    created_eq = refl;
    observed_eq = refl;
    minimum_eq = refl;
    release_eq = ground arith;
    no_otp = ground arith;
    due = due_of c o m r e h;
  }
  none-CancelDue c o m r e h = absurd (ground arith)

module _ (otp : Bool) (release : ReleaseContext) where
  TimeoutDue-none :
      (x o : Number) → TimeoutDue otp x o release → timeout_refusal otp x o release ≡ none
  unfolding timeout_refusal
  TimeoutDue-none x o h = ground arith

  none-TimeoutDue :
      (x o r : Number)
      → release.observed_at_ms ≡ r
      → timeout_refusal otp x o release ≡ none
      → TimeoutDue otp x o release
  unfolding timeout_refusal
  none-TimeoutDue (int (pos x)) (int (pos o)) r e h = record {
    expires = x;
    observed = o;
    expires_eq = refl;
    observed_eq = refl;
    release_eq = ground arith;
    no_otp = ground arith;
    due = ground arith;
  }
  none-TimeoutDue x o r e h = absurd (ground arith)

-- When each command may be applied to an order of this status that holds a number of that status.
abbrev pub Permits : OrderStatus → NumberStatus → Bool → OrderTransitionCommand → Type 0
Permits s n otp reserve = (s ≡ OrderStatus.created) × (n ≡ NumberStatus.available)
Permits s n otp activate = (s ≡ OrderStatus.reserved) × (n ≡ NumberStatus.reserved)
Permits s n otp succeed = (s ≡ OrderStatus.waiting_sms) × (n ≡ NumberStatus.busy)
Permits s n otp (cancel reason c o m release) =
    Holds s n × CancelDue s otp reason c o m release × (has_valid_release_context release ≡ true)
Permits s n otp (timeout x o release) =
    Holds s n × TimeoutDue otp x o release × (has_valid_release_context release ≡ true)
Permits s n otp (fail release) =
    (s ≡ OrderStatus.created)
    ⊎ ((s ≡ OrderStatus.waiting_sms)
        × (n ≡ NumberStatus.busy)
        × (has_valid_release_context release ≡ true))

abbrev input_of :
    Text → OrderStatus → NumberStatus → Bool → OrderTransitionCommand → OrderNumberTransitionInput
input_of id s n otp command = record {
  order_id = id;
  order_status = s;
  number_status = n;
  otp_received = otp;
  command = command;
}

apply-Permits :
    (id : Text) (s : OrderStatus) (n : NumberStatus) (otp : Bool) (command : OrderTransitionCommand)
    → is_apply (decide_order_number_transition (input_of id s n otp command)) ≡ true
    → Permits s n otp command
unfolding decide_order_number_transition
apply-Permits id s n otp reserve h = ground arith
apply-Permits id s n otp activate h = ground arith
apply-Permits id s n otp succeed h = ground arith
apply-Permits id s n otp (cancel reason c o m release) h =
    let none_of : cancel_refusal s otp reason c o m release ≡ none = ground arith in
    (ground arith, none-CancelDue s otp reason release c o m _ refl none_of, ground arith)
apply-Permits id s n otp (timeout x o release) h =
    let none_of : timeout_refusal otp x o release ≡ none = ground arith in
    (ground arith, none-TimeoutDue otp release x o _ refl none_of, ground arith)
apply-Permits id s n otp (fail release) h = ground arith

Permits-apply :
    (id : Text) (s : OrderStatus) (n : NumberStatus) (otp : Bool) (command : OrderTransitionCommand)
    → Permits s n otp command
    → is_apply (decide_order_number_transition (input_of id s n otp command)) ≡ true
unfolding decide_order_number_transition
Permits-apply id s n otp reserve h = ground arith
Permits-apply id s n otp activate h = ground arith
Permits-apply id s n otp succeed h = ground arith
Permits-apply id s n otp (cancel reason c o m release) h =
    ground (arith, CancelDue-none s otp reason release c o m h.1)
Permits-apply id s n otp (timeout x o release) h =
    ground (arith, TimeoutDue-none otp release x o h.1)
Permits-apply id s n otp (fail release) h = ground arith

-- The machine applies a transition exactly where its command is permitted: an order is reserved only
-- from `created` with an available number, activated only from `reserved`, succeeds only from
-- `waiting_sms`; a cancel or a timeout wants a held number, no received code, valid times that agree
-- and are due; a failure wants a `created` order, or a waiting one with a busy number and a valid
-- release context.
pub apply_iff :
    (i : OrderNumberTransitionInput)
    → (is_apply (decide_order_number_transition i) ≡ true)
      ↔ Permits i.order_status i.number_status i.otp_received i.command
apply_iff i = (
  apply-Permits i.order_id i.order_status i.number_status i.otp_received i.command,
  Permits-apply i.order_id i.order_status i.number_status i.otp_received i.command,
)
