-- ===== src/Sms/Delivery.antt =====
-- What becomes of a message that is matched with an order: the second half of runIngest, applyRepeat and audit
-- in src/application/sms/sms-ingestion-service.ts.
use kirimkode_partner.Base.{
  ℕ, ◌*◌, Bool, not, Option, none, some, List, [], ◌∷◌, any, if◌then◌else◌, Result, ok, err, ◌>>=◌,
}
use kirimkode_partner.Number.{num}
use kirimkode_partner.Text.{Text, eq_text}
use kirimkode_partner.Ledger.{DomainError}
use kirimkode_partner.Earning.{CreateEarningDecision, create, decide_earning_on_success}
use kirimkode_partner.Order.Status.{OrderStatus, NumberStatus, eq_order}
use kirimkode_partner.Order.Transition.{
  OrderNumberTransitionDecision, DecisionBase, apply, succeed, decide_order_number_transition,
}
use kirimkode_partner.Order.Listening.{is_null, is_listening_order}
use kirimkode_partner.Sms.{SmsMatchMode, first, repeat}
use kirimkode_partner.Sms.Otp.{OtpParseResult}
use kirimkode_partner.Sms.Rows.{
  SmsMatchStatus, OrderRow, NumberRow, SmsStore, Platform, IngestSmsInput, IngestError,
  SmsUnmatchedReason, SmsIngestionResult, dependency_unavailable, domain_error, no_active_order,
  otp_rejected,
}
use kirimkode_partner.Sms.Gateway.{
  find_order, payout_of, mark_sms_audited, apply_success, apply_repeat_otp,
}

unfoldable pub audit :
    IngestSmsInput
    → SmsUnmatchedReason
    → SmsStore
    → Result IngestError (SmsIngestionResult × SmsStore)
audit i reason store = ok (
  SmsIngestionResult.unmatched reason,
  record store { sms = mark_sms_audited i.sms_id SmsMatchStatus.unmatched store.sms },
)

-- `applyRepeat`, by the order row that was read.
unfoldable pub apply_repeat :
    Platform
    → IngestSmsInput
    → Text
    → Option OrderRow
    → SmsStore
    → Result IngestError (SmsIngestionResult × SmsStore)
apply_repeat platform i otp none store = audit i no_active_order store
apply_repeat platform i otp (some seen) store =
    if is_listening_order
      (record {
        order_id = seen.id;
        order_status = seen.status;
        completed_at_ms = seen.completed_at;
        expires_at_ms = seen.expires_at;
      })
      i.received_at_server
    then (apply_repeat_otp platform i otp seen store >>= λ s.
        ok (SmsIngestionResult.matched seen.id repeat, s))
    else audit i no_active_order store

-- The end of the first extract, by the earning decision.
unfoldable pub carry_earning :
    Platform
    → IngestSmsInput
    → Text
    → OrderRow
    → NumberStatus
    → DecisionBase
    → Bool
    → CreateEarningDecision
    → SmsStore
    → Result IngestError (SmsIngestionResult × SmsStore)
carry_earning platform i otp seen from base number_changed (CreateEarningDecision.no_change key)
      store =
    audit i no_active_order store
carry_earning platform i otp seen from base number_changed (create key earning transaction) store =
    apply_success platform i otp seen from base number_changed earning transaction store >>= λ s.
    ok (SmsIngestionResult.matched seen.id first, s)

abbrev pub domain {ℓ} : {A : Type ℓ} → Result DomainError A → Result IngestError A
domain (ok x) = ok x
domain (err e) = err (domain_error e)

-- By the decision of the state machine.
unfoldable pub carry_success :
    Platform
    → IngestSmsInput
    → Text
    → ℕ
    → SmsStore
    → OrderRow
    → NumberStatus
    → OrderNumberTransitionDecision
    → SmsStore
    → Result IngestError (SmsIngestionResult × SmsStore)
carry_success platform i otp hold seen order from (apply base expected number changed) store =
    domain (
      decide_earning_on_success (record {
        earning_id = i.earning_id;
        order_id = order.id;
        payout_idr = payout_of (platform.snapshot_of order.id);
        succeeded_at = i.now;
        hold_period_ms = some (num (hold * 1000));
        earning_exists_for_order = any (λ e. eq_text e.order_id order.id) seen.earnings;
      }))
    >>= λ decision. carry_earning platform i otp order from base changed decision store
carry_success platform i otp hold seen order from (OrderNumberTransitionDecision.no_change base)
      store =
    audit i no_active_order store
carry_success platform i otp hold seen order from
      (OrderNumberTransitionDecision.reject base code reason) store =
    audit i no_active_order store

unfoldable pub find_number_by_id : Text → List NumberRow → Option NumberRow
find_number_by_id id [] = none
find_number_by_id id (n ∷ ns) =
    let rest = find_number_by_id id ns in if eq_text n.id id then some n else rest

-- By the active configuration.
unfoldable pub with_config :
    Platform
    → IngestSmsInput
    → Text
    → Option ℕ
    → SmsStore
    → OrderRow
    → NumberRow
    → SmsStore
    → Result IngestError (SmsIngestionResult × SmsStore)
with_config platform i otp none seen order number store = err dependency_unavailable
with_config platform i otp (some hold) seen order number store =
    carry_success platform i otp hold seen order number.status
      (decide_order_number_transition (record {
        order_id = order.id;
        order_status = order.status;
        number_status = number.status;
        otp_received = not (is_null order.otp);
        command = succeed;
      }))
      store

-- The first extract, by the number of the order, which the order's foreign key refers to.
unfoldable pub extract_with :
    Platform
    → IngestSmsInput
    → Text
    → SmsStore
    → OrderRow
    → Option NumberRow
    → SmsStore
    → Result IngestError (SmsIngestionResult × SmsStore)
extract_with platform i otp seen order none store = audit i no_active_order store
extract_with platform i otp seen order (some number) store =
    if eq_order order.status OrderStatus.waiting_sms
    then with_config platform i otp platform.earning_hold_seconds seen order number store
    else audit i no_active_order store

unfoldable pub first_extract :
    Platform
    → IngestSmsInput
    → Text
    → SmsStore
    → Option OrderRow
    → SmsStore
    → Result IngestError (SmsIngestionResult × SmsStore)
first_extract platform i otp seen none store = audit i no_active_order store
first_extract platform i otp seen (some order) store =
    extract_with platform i otp seen order (find_number_by_id order.number_id seen.numbers) store

-- By the mode of the match.
unfoldable pub deliver :
    Platform
    → IngestSmsInput
    → Text
    → SmsStore
    → Text
    → SmsMatchMode
    → SmsStore
    → Result IngestError (SmsIngestionResult × SmsStore)
deliver platform i otp seen order_id repeat store =
    apply_repeat platform i otp (find_order order_id seen.orders) store
deliver platform i otp seen order_id first store =
    first_extract platform i otp seen (find_order order_id seen.orders) store

-- By the result of the parse.
unfoldable pub carry_parse :
    Platform
    → IngestSmsInput
    → SmsStore
    → Text
    → SmsMatchMode
    → OtpParseResult
    → SmsStore
    → Result IngestError (SmsIngestionResult × SmsStore)
carry_parse platform i seen order_id mode (OtpParseResult.rejected reason) store =
    audit i (otp_rejected reason) store
carry_parse platform i seen order_id mode (OtpParseResult.matched otp) store =
    deliver platform i otp seen order_id mode store
