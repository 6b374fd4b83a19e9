-- ===== src/Sms/Ingestion/Found.antt =====
-- Rows that are found and can be written, and decisions that come out in favour of a first success.
use mathlib.Core.Path.{subst}
use kirimkode_partner.Base.{
  ℕ, ◌+◌, ◌≤◌, ◌≡◌, refl, Bool, true, false, ◌&&◌, ◌||◌, Option, some, List, [], ◌∷◌, any, arith,
  inl, inr, Bool-cases, ok,
}
use kirimkode_partner.Number.{num, max_safe}
use kirimkode_partner.Int.{◌+ℤ◌}
use kirimkode_partner.Text.{Text, codes, eq_text, eq_text_iff, is_blank}
use kirimkode_partner.Ledger.{
  LedgerTransaction, order_success, platform_partner_payable, partner_pending,
  order_success_event_key, event_keys_nonblank, assert_identifier, assert_safe_amount,
  assert_valid_timestamp,
}
use kirimkode_partner.Ledger.Transaction.{transfer_ok}
use kirimkode_partner.Earning.{
  EarningStatus, create, create_earning, decide_earning_on_success, EarningState,
}
use kirimkode_partner.Earning.Lifecycle.{success_transfer}
use kirimkode_partner.Order.Status.{OrderStatus, NumberStatus}
use kirimkode_partner.Order.Transition.{
  DecisionBase, apply, succeed, decide_order_number_transition,
  create_order_transition_operation_key,
}
use kirimkode_partner.Sms.{SmsDevice}
use kirimkode_partner.Sms.Rows.{OrderRow, NumberRow, SmsStore, SmsRow, Platform, IngestSmsInput}
use kirimkode_partner.Sms.Gateway.{
  find_number, find_device, find_order, update_row, contended, awaits_success, succeeded_row,
  insert_key, insert_earning, insert_transaction, release_number, mark_sms_matched, apply_success,
}

pub any-either {ℓ} :
    {A : Type ℓ} (p q : A → Bool) (xs : List A)
    → any p xs ≡ false
    → any q xs ≡ false
    → any (λ x. p x || q x) xs ≡ false
any-either p q [] h k = refl
any-either p q (x ∷ xs) h k = ground (arith, h, k, any-either p q xs)

-- The row that was found can be updated.
pub update_found :
    (p : OrderRow → Bool) (f : OrderRow → OrderRow) (id : Text) (os : List OrderRow) (o : OrderRow)
    → find_order id os ≡ some o
    → p o ≡ true
    → (ys : List OrderRow) × (update_row p f os ≡ some ys)
unfolding find_order update_row
update_found p f id [] o e h = cc
update_found p f id (x ∷ os) o e h = elim (Bool-cases (p x)) [
  | inl y ↦ (f x ∷ os, rw y refl)
  | inr n ↦ elim (Bool-cases (eq_text x.id id)) [
    | inl m ↦ absurd (ground (arith, n, m, e, h))
    | inr m ↦
        let (ys, u) = update_found p f id os o (ground (arith, m, e)) h in (x ∷ ys, rw (n, u) refl)
  ]
]

pub found_number :
    (p id d : Text) (ns : List NumberRow) (n : NumberRow)
    → find_number p id d ns ≡ some n
    → (n.partner_id ≡ p) × (n.device_id ≡ d)
unfolding find_number
found_number p id d [] n e = cc
found_number p id d (x ∷ ns) n e =
    elim (Bool-cases (eq_text x.partner_id p && eq_text x.id id && eq_text x.device_id d)) [
      | inl h ↦
          let same : x ≡ n = ground (arith, h, e) in
          subst {A = NumberRow} (λ z. (z.partner_id ≡ p) × (z.device_id ≡ d)) same
            (
              (eq_text_iff x.partner_id p).0 (ground (arith, h)),
              (eq_text_iff x.device_id d).0 (ground (arith, h)),
            )
      | inr h ↦ found_number p id d ns n (ground (arith, h, e))
    ]

pub found_device :
    (p id : Text) (ds : List SmsDevice) (d : SmsDevice)
    → find_device p id ds ≡ some d
    → (d.partner_id ≡ p) × (d.id ≡ id)
unfolding find_device
found_device p id [] d e = cc
found_device p id (x ∷ ds) d e = elim (Bool-cases (eq_text x.partner_id p && eq_text x.id id)) [
  | inl h ↦
      let same : x ≡ d = ground (arith, h, e) in
      subst {A = SmsDevice} (λ z. (z.partner_id ≡ p) × (z.id ≡ id)) same
        (
          (eq_text_iff x.partner_id p).0 (ground (arith, h)),
          (eq_text_iff x.id id).0 (ground (arith, h)),
        )
  | inr h ↦ found_device p id ds d (ground (arith, h, e))
]

-- The decisions of a first success.
pub success_applies :
    (id : Text)
    → (base : DecisionBase) × (expected : OrderStatus) × (number : Option NumberStatus)
      × (decide_order_number_transition (record {
        order_id = id;
        order_status = OrderStatus.waiting_sms;
        number_status = NumberStatus.busy;
        otp_received = false;
        command = succeed;
      })
          ≡ apply base expected number false)
      × (base.operation_key ≡ create_order_transition_operation_key id OrderStatus.success)
unfolding decide_order_number_transition
success_applies id = (_, _, _, refl, refl)

pub earning_created :
    (earning_id order_id : Text) (payout now hold : ℕ)
    → is_blank earning_id ≡ false
    → is_blank order_id ≡ false
    → 1 ≤ payout
    → payout ≤ max_safe
    → now + hold ≤ 8640000000000000
    → decide_earning_on_success (record {
      earning_id = earning_id;
      order_id = order_id;
      payout_idr = num payout;
      succeeded_at = num now;
      hold_period_ms = some (num hold);
      earning_exists_for_order = false;
    })
      ≡ ok (
          create
            (order_success_event_key order_id)
            (record {
              id = earning_id;
              order_id = order_id;
              amount_idr = num payout;
              status = EarningStatus.pending;
              available_at = num (now + hold);
            })
            (success_transfer order_id payout))
unfolding decide_earning_on_success create_earning assert_identifier assert_safe_amount
    assert_valid_timestamp success_transfer is_blank ◌+ℤ◌
earning_created earning_id order_id payout now hold be bo low high t =
    let made =
      transfer_ok order_success (order_success_event_key order_id) (codes "order") order_id
        platform_partner_payable partner_pending payout (event_keys_nonblank order_id).0 refl bo
        refl refl low high in
    ground (arith, made)

pub update_head {ℓ} :
    {A : Type ℓ} (p : A → Bool) (f : A → A) (x : A) (xs : List A)
    → p x ≡ true
    → update_row p f (x ∷ xs) ≡ some (f x ∷ xs)
unfolding update_row
update_head p f x xs h = rw h refl

pub apply_returns :
    (platform : Platform) (i : IngestSmsInput) (otp : Text) (seen : OrderRow) (from : NumberStatus)
    (base : DecisionBase) (e : EarningState) (t : LedgerTransaction) (s : SmsStore)
    (os : List OrderRow) (rows : List SmsRow)
    → contended
        (update_row (awaits_success seen) (succeeded_row (platform.encrypt_otp otp) i.now) s.orders)
      ≡ ok os
    → contended (mark_sms_matched i.sms_id seen.id i.now s.sms) ≡ ok rows
    → any (eq_text base.operation_key) s.transitions ≡ false
    → any (λ x. eq_text x.id e.id || eq_text x.order_id e.order_id) s.earnings ≡ false
    → any (λ x. eq_text x.event_key t.event_key) s.ledger ≡ false
    → apply_success platform i otp seen from base false e t s
      ≡ ok (record {
        sms = rows;
        orders = os;
        numbers = s.numbers;
        transitions = base.operation_key ∷ s.transitions;
        earnings = e ∷ s.earnings;
        ledger = t ∷ s.ledger;
      })
unfolding apply_success insert_key insert_earning insert_transaction release_number
apply_returns platform i otp seen from base e t s os rows u m k x y = rw (u, k, m, x, y) refl
