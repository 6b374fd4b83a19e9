-- ===== src/Tests/Orders.antt =====
-- Orders and listening windows at concrete inputs.
use kirimkode_partner.Base.{ℕ, ◌≡◌, refl, ◌↔◌, ◌⊎◌, true, false, Option, none, some}
use kirimkode_partner.Number.{Number, num}
use kirimkode_partner.Text.{Text, codes}
use kirimkode_partner.Text.Uri.{encode_uri_component}
use kirimkode_partner.Order.Status.{
  OrderStatus, NumberStatus, ReleaseDisposition, DeviceStatus, disposition_status,
}
use kirimkode_partner.Order.Release.{ReleaseContext, decide_number_release}
use kirimkode_partner.Order.Transition.{
  cancel, OrderNumberTransitionInput, decide_order_number_transition, is_apply, decision_base,
  cancel_refusal, create_order_transition_operation_key, reject, cancel_not_allowed,
  cancel_too_early,
}
use kirimkode_partner.Order.Transition.Rules.{Permits, apply_iff}
use kirimkode_partner.Order.Release.{IsLive}
use kirimkode_partner.Order.Transition.Outcome.{
  is_paired, decision_keeps_pair, applied_release, applied_once, again, is_no_change,
}
use kirimkode_partner.Order.Listening.{
  ListeningReleaseTrigger, buyer_complete, expiry_sweep, ListeningHoldReleaseInput,
  ApplyListeningRelease, apply, still_holding, create_listening_release_operation_key,
  decide_listening_hold_release,
}
use kirimkode_partner.Order.Listening.Hold.{
  is_apply as hold_applied, is_no_change as hold_unchanged, MayEnd, listening_release_iff,
  release_effect, released_once,
}

abbrev live : ℕ → ReleaseContext
live now = record {
  number_enabled = true;
  device_status = DeviceStatus.online;
  device_last_seen_at_ms = some (num 990);
  observed_at_ms = num now;
  heartbeat_timeout_ms = num 90;
}

abbrev waiting_cancel : OrderNumberTransitionInput
waiting_cancel = record {
  order_id = codes "o1";
  order_status = OrderStatus.waiting_sms;
  number_status = NumberStatus.busy;
  otp_received = false;
  command = cancel (codes "BUYER") (num 500) (num 1000) (num 180) (live 1000);
}

abbrev early_cancel : OrderNumberTransitionInput
early_cancel = record waiting_cancel {
  command = cancel (codes "BUYER") (num 900) (num 1000) (num 180) (live 1000);
}

abbrev done_order : OrderNumberTransitionInput
done_order = record waiting_cancel { order_status = OrderStatus.success }

waiting_cancel_applies : is_apply (decide_order_number_transition waiting_cancel) ≡ true
unfolding decide_order_number_transition cancel_refusal
waiting_cancel_applies = refl

early_cancel_refused :
    decide_order_number_transition early_cancel
    ≡ reject
        (record {
          operation_key = create_order_transition_operation_key (codes "o1") OrderStatus.cancelled;
          target_order_status = OrderStatus.cancelled;
          next_order_status = OrderStatus.waiting_sms;
          next_number_status = NumberStatus.busy;
          release_disposition = none;
        })
        cancel_not_allowed
        cancel_too_early
unfolding decide_order_number_transition cancel_refusal
early_cancel_refused = refl

operation_key :
    create_order_transition_operation_key (codes "a b:ü") OrderStatus.timeout
    ≡ codes "order-transition:a%20b%3A%C3%BC:timeout"
unfolding create_order_transition_operation_key encode_uri_component
operation_key = refl

apply_iff_example :
    (is_apply (decide_order_number_transition waiting_cancel) ≡ true)
    ↔ Permits OrderStatus.waiting_sms NumberStatus.busy false
        (cancel (codes "BUYER") (num 500) (num 1000) (num 180) (live 1000))
apply_iff_example = apply_iff waiting_cancel

decision_keeps_pair_example :
    is_paired
      (decision_base (decide_order_number_transition waiting_cancel)).next_order_status
      (decision_base (decide_order_number_transition waiting_cancel)).next_number_status
    ≡ true
decision_keeps_pair_example = decision_keeps_pair waiting_cancel refl

applied_release_example :
    let b = decision_base (decide_order_number_transition waiting_cancel) in
    (is_paired OrderStatus.waiting_sms NumberStatus.busy ≡ true)
    × ((b.next_number_status ≡ NumberStatus.available) ↔ IsLive (live 1000))
    × ((b.next_number_status ≡ NumberStatus.offline) ↔ (¬ IsLive (live 1000)))
    × ((b.release_disposition ≡ some ReleaseDisposition.available) ↔ IsLive (live 1000))
    × ((b.release_disposition ≡ some ReleaseDisposition.offline) ↔ (¬ IsLive (live 1000)))
applied_release_example =
    applied_release waiting_cancel (live 1000) refl (λ e. cc) waiting_cancel_applies

applied_once_example :
    let b = decision_base (decide_order_number_transition waiting_cancel) in
    let d = decide_order_number_transition (again waiting_cancel) in
    (is_no_change d ≡ true)
    × ((decision_base d).operation_key ≡ b.operation_key)
    × ((decision_base d).next_order_status ≡ b.next_order_status)
    × ((decision_base d).next_number_status ≡ b.next_number_status)
applied_once_example = applied_once waiting_cancel waiting_cancel_applies

abbrev hold : ListeningReleaseTrigger → ℕ → Option Number → ListeningHoldReleaseInput
hold trigger now completed = record {
  order = record {
    order_id = codes "o1";
    order_status = OrderStatus.success;
    completed_at_ms = completed;
    expires_at_ms = num 1000;
  };
  number_status = NumberStatus.busy;
  number_current_order_id = some (codes "o1");
  trigger = trigger;
  observed_at_ms = num now;
  release = live now;
}

listening_release_iff_example :
    (hold_applied (decide_listening_hold_release (hold expiry_sweep 1001 none)) ≡ true)
    ↔ MayEnd (hold expiry_sweep 1001 none)
listening_release_iff_example = listening_release_iff (hold expiry_sweep 1001 none)

abbrev completed : ApplyListeningRelease
completed = record {
  completed_at_ms = num 995;
  next_number_status = NumberStatus.available;
  number_changed = true;
  release_disposition = some ReleaseDisposition.available;
}

completes :
    decide_listening_hold_release (hold buyer_complete 995 none)
    ≡ apply (create_listening_release_operation_key (codes "o1")) completed
unfolding decide_listening_hold_release decide_number_release
completes = refl

release_effect_example :
    (num 995 ≡ num 995)
    × (((still_holding (hold buyer_complete 995 none) ≡ true)
          × (◌≡◌ {A = Option Text} (some (codes "o1")) (some (codes "o1")))
          × (NumberStatus.available ≡ disposition_status (decide_number_release (live 995)))
          × (some ReleaseDisposition.available ≡ some (decide_number_release (live 995))))
        ⊎ ((still_holding (hold buyer_complete 995 none) ≡ false)
            × (NumberStatus.available ≡ NumberStatus.busy)
            × (true ≡ false)))
release_effect_example = release_effect (hold buyer_complete 995 none) completes

released_once_example :
    hold_unchanged (decide_listening_hold_release (hold expiry_sweep 2000 (some (num 995)))) ≡ true
released_once_example =
    released_once (hold buyer_complete 995 none) (hold expiry_sweep 2000 (some (num 995))) 2000
      completes refl refl refl
