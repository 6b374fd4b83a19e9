-- ===== src/Sms/Ingestion/Delivers.antt =====
-- That the first code of an order is delivered and paid for.
use mathlib.Core.Path.{subst}
use kirimkode_partner.Base.{
  ℕ, ◌+◌, ◌*◌, ◌≤◌, ◌≡◌, refl, sym, ap, ◌∙◌, true, false, ==_refl, Option, none, some, [], ◌∷◌, any,
  ok, not, if◌then◌else◌, ◌>>=◌,
}
use kirimkode_partner.Number.{num, max_safe}
use kirimkode_partner.Text.{Text, eq_text, eq_text_refl, is_blank}
use kirimkode_partner.Ledger.{order_success_event_key}
use kirimkode_partner.Earning.{EarningStatus, create, decide_earning_on_success, EarningState}
use kirimkode_partner.Earning.Lifecycle.{success_transfer}
use kirimkode_partner.Order.Status.{OrderStatus, NumberStatus, eq_order}
use kirimkode_partner.Order.Transition.{
  DecisionBase, apply, succeed, decide_order_number_transition,
  create_order_transition_operation_key,
}
use kirimkode_partner.Order.Listening.{is_null}
use kirimkode_partner.Sms.{
  SmsDevice, SmsOrderMatch, first, accept, owns_both, decide_sms_ingress, match_sms_to_active_order,
}
use kirimkode_partner.Sms.Otp.{OtpParseResult, parse_service_otp}
use kirimkode_partner.Sms.Rows.{
  OrderRow, NumberRow, SmsStore, Platform, IngestSmsInput, SmsIngestionResult, no_active_order,
}
use kirimkode_partner.Sms.Gateway.{
  find_number, find_device, find_order, contended, awaits_success, succeeded_row, violated_key,
  load_active_order_candidates, payout_of, mark_sms_matched, apply_success,
}
use kirimkode_partner.Sms.Delivery.{
  find_number_by_id, domain, audit, carry_earning, carry_success, with_config, extract_with,
  first_extract, deliver, carry_parse,
}
use kirimkode_partner.Sms.Ingestion.{
  carry_match, carry_insert, sms_row, ingest_if, ingest_owned, run_ingest,
}
use kirimkode_partner.Sms.Ingestion.Found.{
  any-either, update_found, found_number, found_device, success_applies, earning_created,
  update_head, apply_returns,
}

-- A message with the first code of a waiting order, on rows where nothing stands in its way.
pub record BringsCode (platform : Platform) (i : IngestSmsInput) (s : SmsStore) (order : OrderRow)
    (otp : Text) : Type 0 where
  pub number : NumberRow
  pub device : SmsDevice
  pub owned :
      find_number i.principal.partner_id i.number_id i.principal.device_id s.numbers ≡ some number
  pub known :
      find_device i.principal.partner_id i.principal.device_id platform.devices ≡ some device
  pub new : violated_key (sms_row platform i) s.sms ≡ none
  pub code : Text
  pub match :
      match_sms_to_active_order i.number_id i.received_at_server
        (load_active_order_candidates platform i.principal.partner_id i.number_id s)
      ≡ SmsOrderMatch.matched order.id code first
  pub parse :
      parse_service_otp platform.unicode code i.body
        (record { keywords = none; sender = some i.sender; foreign_sender_markers = none })
      ≡ OtpParseResult.matched otp
  pub found : find_order order.id s.orders ≡ some order
  pub waits : (order.status ≡ OrderStatus.waiting_sms) × (order.otp ≡ none)
  pub held : NumberRow
  pub busy :
      (find_number_by_id order.number_id s.numbers ≡ some held) × (held.status ≡ NumberStatus.busy)
  pub hold : ℕ
  pub configured : platform.earning_hold_seconds ≡ some hold
  pub payout : ℕ
  pub priced : payout_of (platform.snapshot_of order.id) ≡ num payout
  pub payable : (1 ≤ payout) × (payout ≤ max_safe)
  pub time : ℕ
  pub clock : (i.now ≡ num time) × (time + hold * 1000 ≤ 8640000000000000)
  pub named : (is_blank i.earning_id ≡ false) × (is_blank order.id ≡ false)
  pub fresh : any (λ e. eq_text e.id i.earning_id) s.earnings ≡ false
  pub unpaid : any (λ e. eq_text e.order_id order.id) s.earnings ≡ false
  pub unmoved :
      any
        (eq_text (create_order_transition_operation_key order.id OrderStatus.success))
        s.transitions
      ≡ false
  pub unbooked : any (λ t. eq_text t.event_key (order_success_event_key order.id)) s.ledger ≡ false

module _ (platform : Platform) (i : IngestSmsInput) (s : SmsStore) (order : OrderRow) (otp : Text)
    (b : BringsCode platform i s order otp) where
  -- The rows with the message.
  abbrev stored : SmsStore
  stored = record s { sms = sms_row platform i ∷ s.sms }

  -- The compare-and-set on the order that was read.
  own_row : awaits_success order order ≡ true
  own_row =
      rw
        (
          b.waits.0,
          b.waits.1,
          eq_text_refl order.id,
          eq_text_refl order.partner_id,
          ==_refl order.version,
        )
        refl

  applies :
      (from : NumberStatus) (base : DecisionBase) (e : EarningState)
      → e.id ≡ i.earning_id
      → e.order_id ≡ order.id
      → base.operation_key ≡ create_order_transition_operation_key order.id OrderStatus.success
      → (s' : SmsStore) × (apply_success platform i otp order from base false e
            (success_transfer order.id b.payout)
            stored
          ≡ ok s')
  unfolding mark_sms_matched success_transfer
  applies from base e x y k =
      let (os, u) =
        update_found (awaits_success order) (succeeded_row (platform.encrypt_otp otp) i.now)
          order.id s.orders order b.found own_row in
      (
        _,
        apply_returns platform i otp order from base e (success_transfer order.id b.payout) stored
            os _ (ap contended u)
            (ap contended
              (update_head _ _ (sms_row platform i) s.sms (rw (eq_text_refl i.sms_id) refl)))
            (subst (λ z. any (eq_text z) s.transitions ≡ false) (sym k) b.unmoved)
            (any-either (λ z. eq_text z.id e.id) (λ z. eq_text z.order_id e.order_id) s.earnings
              (subst (λ z. any (λ w. eq_text w.id z) s.earnings ≡ false) (sym x) b.fresh)
              (subst (λ z. any (λ w. eq_text w.order_id z) s.earnings ≡ false) (sym y) b.unpaid))
            b.unbooked,
      )

  decided :
      (base : DecisionBase) × (expected : OrderStatus) × (number : Option NumberStatus)
      × (decide_order_number_transition (record {
        order_id = order.id;
        order_status = order.status;
        number_status = b.held.status;
        otp_received = not (is_null order.otp);
        command = succeed;
      })
          ≡ apply base expected number false)
      × (base.operation_key ≡ create_order_transition_operation_key order.id OrderStatus.success)
  decided =
      let (base, expected, number, d, key) = success_applies order.id in
      (base, expected, number, rw (b.waits.0, b.busy.1, b.waits.1) d, key)

  abbrev new_earning : EarningState
  new_earning = record {
    id = i.earning_id;
    order_id = order.id;
    amount_idr = num b.payout;
    status = EarningStatus.pending;
    available_at = num (b.time + b.hold * 1000);
  }

  created :
      decide_earning_on_success (record {
        earning_id = i.earning_id;
        order_id = order.id;
        payout_idr = payout_of (platform.snapshot_of order.id);
        succeeded_at = i.now;
        hold_period_ms = some (num (b.hold * 1000));
        earning_exists_for_order = any (λ e. eq_text e.order_id order.id) s.earnings;
      })
      ≡ ok (
          create
            (order_success_event_key order.id)
            new_earning
            (success_transfer order.id b.payout))
  created =
      rw (b.priced, b.clock.0, b.unpaid)
        (earning_created i.earning_id order.id b.payout b.time (b.hold * 1000) b.named.0 b.named.1
          b.payable.0 b.payable.1 b.clock.1)

  succeeds :
      (s' : SmsStore) × (with_config platform i otp (some b.hold) s order b.held stored
        ≡ ok (SmsIngestionResult.matched order.id first, s'))
  unfolding with_config carry_success carry_earning
  succeeds =
      let (base, expected, number, d, key) = decided in
      let (s', applied) = applies b.held.status base new_earning refl refl key in
      (
        s',
        ap (λ z. carry_success platform i otp b.hold s order b.held.status z stored) d
            ∙ ap
                (λ z. domain z >>= λ c.
                  carry_earning platform i otp order b.held.status base false c stored)
                created
            ∙ ap (λ z. z >>= λ t. ok (SmsIngestionResult.matched order.id first, t)) applied,
      )

  -- The run from the first extract on.
  extracts :
      (s' : SmsStore) × (first_extract platform i otp s (some order) stored
        ≡ ok (SmsIngestionResult.matched order.id first, s'))
  unfolding first_extract extract_with
  extracts =
      let (s', e) = succeeds in
      (
        s',
        ap (λ z. extract_with platform i otp s order z stored) b.busy.0
            ∙ ap
                (λ z.
                  if eq_order z OrderStatus.waiting_sms
                  then with_config platform i otp platform.earning_hold_seconds s order b.held
                      stored
                  else audit i no_active_order stored)
                b.waits.0
            ∙ ap (λ z. with_config platform i otp z s order b.held stored) b.configured
            ∙ e,
      )

  accepts :
      decide_sms_ingress (record {
        principal = i.principal;
        device = b.device;
        number = record {
          id = b.number.id;
          partner_id = b.number.partner_id;
          device_id = b.number.device_id;
        };
        message_id = i.message_id;
        idempotency_key = i.idempotency_key;
        prior_messages = [];
      })
      ≡ accept
  unfolding decide_sms_ingress owns_both
  accepts =
      let (np, nd) =
        found_number i.principal.partner_id i.number_id i.principal.device_id s.numbers b.number
          b.owned in
      let (dp, di) =
        found_device i.principal.partner_id i.principal.device_id platform.devices b.device
          b.known in
      rw (np, nd, dp, di, eq_text_refl i.principal.partner_id, eq_text_refl i.principal.device_id)
        refl

-- The first code of a waiting order is delivered: on rows where nothing stands in its way, the run returns
-- the order's first match. Nothing stands in its way if the number and the device are the principal's, the
-- message is new, the order is its only match and waits without a code on a busy number, the code is parsed,
-- a configuration is active, the payout and the time are in range, and neither the order's earning, its
-- transition and its ledger event nor the earning's id are there already.
pub first_code_delivered :
    (platform : Platform) (i : IngestSmsInput) (s : SmsStore) (order : OrderRow) (otp : Text)
    → BringsCode platform i s order otp
    → (s' : SmsStore) × (run_ingest platform i s s
        ≡ ok (SmsIngestionResult.matched order.id first, s'))
unfolding run_ingest ingest_owned ingest_if carry_insert carry_match carry_parse deliver
first_code_delivered platform i s order otp b =
    let (s', e) = extracts platform i s order otp b in
    (
      s',
      rw (b.owned, b.known, accepts platform i s order otp b, b.new, b.match, b.parse, b.found) e,
    )
