-- ===== src/Sms/Ingestion/Stages.antt =====
-- The effect of every stage of a run, and of the run as a whole.
use mathlib.Core.Path.{subst}
use kirimkode_partner.Base.{
  ℕ, ◌≡◌, refl, Bool, true, false, Option, none, some, ◌∷◌, Result, ok, err, ◌>>=◌,
}
use kirimkode_partner.Text.{Text}
use kirimkode_partner.Ledger.{DomainError}
use kirimkode_partner.Earning.{
  CreateEarningInput, CreateEarningDecision, create, decide_earning_on_success,
}
use kirimkode_partner.Order.Status.{NumberStatus}
use kirimkode_partner.Order.Transition.{
  OrderNumberTransitionInput, OrderNumberTransitionDecision, DecisionBase, apply, succeed,
  decide_order_number_transition,
}
use kirimkode_partner.Sms.{SmsDevice, DuplicateKey, SmsMatchMode, first, repeat, SmsOrderMatch}
use kirimkode_partner.Sms.Otp.{OtpParseResult}
use kirimkode_partner.Sms.Rows.{
  SmsRow, OrderRow, NumberRow, SmsStore, Platform, IngestSmsInput, IngestError, SmsIngestionResult,
}
use kirimkode_partner.Sms.Gateway.{apply_success, payout_of, find_order}
use kirimkode_partner.Sms.Delivery.{
  carry_earning, domain, carry_success, with_config, extract_with, first_extract, deliver,
  carry_parse, find_number_by_id,
}
use kirimkode_partner.Sms.Ingestion.{carry_match, carry_insert, ingest_if, ingest_owned, run_ingest}
use kirimkode_partner.Sms.Ingestion.Creates.{success_keeps_number, success-Creates}
use kirimkode_partner.Sms.Ingestion.Effects.{apply_success-Pays}
use kirimkode_partner.Sms.Ingestion.Unpaid.{
  Effect, Leaves, audit-Leaves, if-Leaves, apply_repeat-Leaves,
}

module _ (platform : Platform) (i : IngestSmsInput) where
  carry_earning-Leaves :
      (otp : Text) (seen : OrderRow) (from : NumberStatus) (base : DecisionBase) (changed : Bool)
      (input : CreateEarningInput) (d : CreateEarningDecision) (s : SmsStore)
      → changed ≡ false
      → input.earning_id ≡ i.earning_id
      → input.order_id ≡ seen.id
      → input.payout_idr ≡ payout_of (platform.snapshot_of seen.id)
      → decide_earning_on_success input ≡ ok d
      → Leaves platform i s (carry_earning platform i otp seen from base changed d s)
  unfolding carry_earning
  carry_earning-Leaves otp seen from base changed input (CreateEarningDecision.no_change k) s c m o
        p e =
      audit-Leaves platform i _ s
  carry_earning-Leaves otp seen from base changed input (create k earning t) s c m o p e =
      paid (apply_success platform i otp seen from base changed earning t s) refl
    where
      paid :
          (r : Result IngestError SmsStore)
          → apply_success platform i otp seen from base changed earning t s ≡ r
          → Leaves platform i s (r >>= λ s'. ok (SmsIngestionResult.matched seen.id first, s'))
      paid (err x) h = tt
      paid (ok s') h =
          apply_success-Pays platform i otp seen from base changed input earning t s s' c
            (success-Creates input k earning t e) m o p h

  decided-Leaves :
      (otp : Text) (seen : OrderRow) (from : NumberStatus) (base : DecisionBase) (changed : Bool)
      (input : CreateEarningInput) (r : Result DomainError CreateEarningDecision) (s : SmsStore)
      → changed ≡ false
      → input.earning_id ≡ i.earning_id
      → input.order_id ≡ seen.id
      → input.payout_idr ≡ payout_of (platform.snapshot_of seen.id)
      → decide_earning_on_success input ≡ r
      → Leaves platform i s
          (domain r >>= λ d. carry_earning platform i otp seen from base changed d s)
  decided-Leaves otp seen from base changed input (err x) s c m o p e = tt
  decided-Leaves otp seen from base changed input (ok d) s c m o p e =
      carry_earning-Leaves otp seen from base changed input d s c m o p e

  carry_success-Leaves :
      (otp : Text) (hold : ℕ) (seen : SmsStore) (order : OrderRow) (from : NumberStatus)
      (t : OrderNumberTransitionInput) (d : OrderNumberTransitionDecision) (s : SmsStore)
      → t.command ≡ succeed
      → decide_order_number_transition t ≡ d
      → Leaves platform i s (carry_success platform i otp hold seen order from d s)
  unfolding carry_success
  carry_success-Leaves otp hold seen order from t (apply base expected number changed) s c e =
      decided-Leaves otp order from base changed _ _ s
        (success_keeps_number t base expected changed c e) refl refl refl refl
  carry_success-Leaves otp hold seen order from t (OrderNumberTransitionDecision.no_change base) s c
        e =
      audit-Leaves platform i _ s
  carry_success-Leaves otp hold seen order from t
        (OrderNumberTransitionDecision.reject base code reason) s c e =
      audit-Leaves platform i _ s

  with_config-Leaves :
      (otp : Text) (config : Option ℕ) (seen : SmsStore) (order : OrderRow) (number : NumberRow)
      (s : SmsStore)
      → Leaves platform i s (with_config platform i otp config seen order number s)
  unfolding with_config
  with_config-Leaves otp none seen order number s = tt
  with_config-Leaves otp (some hold) seen order number s =
      carry_success-Leaves otp hold seen order number.status _ _ s refl refl

  extract_with-Leaves :
      (otp : Text) (seen : SmsStore) (order : OrderRow) (number : Option NumberRow) (s : SmsStore)
      → Leaves platform i s (extract_with platform i otp seen order number s)
  unfolding extract_with
  extract_with-Leaves otp seen order none s = audit-Leaves platform i _ s
  extract_with-Leaves otp seen order (some number) s =
      if-Leaves platform i _ s _ _
        (with_config-Leaves otp platform.earning_hold_seconds seen order number s)
        (audit-Leaves platform i _ s)

  first_extract-Leaves :
      (otp : Text) (seen : SmsStore) (o : Option OrderRow) (s : SmsStore)
      → Leaves platform i s (first_extract platform i otp seen o s)
  unfolding first_extract
  first_extract-Leaves otp seen none s = audit-Leaves platform i _ s
  first_extract-Leaves otp seen (some order) s =
      extract_with-Leaves otp seen order (find_number_by_id order.number_id seen.numbers) s

  deliver-Leaves :
      (otp : Text) (seen : SmsStore) (id : Text) (mode : SmsMatchMode) (s : SmsStore)
      → Leaves platform i s (deliver platform i otp seen id mode s)
  unfolding deliver
  deliver-Leaves otp seen id repeat s =
      apply_repeat-Leaves platform i otp (find_order id seen.orders) s
  deliver-Leaves otp seen id first s = first_extract-Leaves otp seen (find_order id seen.orders) s

  carry_parse-Leaves :
      (seen : SmsStore) (id : Text) (mode : SmsMatchMode) (parse : OtpParseResult) (s : SmsStore)
      → Leaves platform i s (carry_parse platform i seen id mode parse s)
  unfolding carry_parse
  carry_parse-Leaves seen id mode (OtpParseResult.rejected reason) s = audit-Leaves platform i _ s
  carry_parse-Leaves seen id mode (OtpParseResult.matched otp) s = deliver-Leaves otp seen id mode s

  carry_match-Leaves :
      (seen : SmsStore) (m : SmsOrderMatch) (s : SmsStore)
      → Leaves platform i s (carry_match platform i seen m s)
  unfolding carry_match
  carry_match-Leaves seen SmsOrderMatch.unmatched s = audit-Leaves platform i _ s
  carry_match-Leaves seen (SmsOrderMatch.ambiguous ids) s = record {
    orders = refl;
    earnings = refl;
    ledger = refl;
    numbers = refl;
  }
  carry_match-Leaves seen (SmsOrderMatch.matched id code mode) s =
      carry_parse-Leaves seen id mode _ s

  carry_insert-Leaves :
      (seen : SmsStore) (row : SmsRow) (key : Option DuplicateKey) (s : SmsStore)
      → Leaves platform i s (carry_insert platform i seen row key s)
  unfolding carry_insert
  carry_insert-Leaves seen row (some key) s = record {
    orders = refl;
    earnings = refl;
    ledger = refl;
    numbers = refl;
  }
  carry_insert-Leaves seen row none s =
      with_row _ (carry_match-Leaves seen _ (record s { sms = row ∷ s.sms }))
    where
      with_row :
          (r : Result IngestError (SmsIngestionResult × SmsStore))
          → Leaves platform i (record s { sms = row ∷ s.sms }) r
          → Leaves platform i s r
      with_row (err e) l = tt
      with_row (ok (SmsIngestionResult.matched id first, s')) l = l
      with_row (ok (SmsIngestionResult.matched id repeat, s')) l = l
      with_row (ok (SmsIngestionResult.duplicate key, s')) l = l
      with_row (ok (SmsIngestionResult.unmatched reason, s')) l = l
      with_row (ok (SmsIngestionResult.ambiguous ids, s')) l = l

  ingest_if-Leaves :
      (seen : SmsStore) (accepted : Bool) (s : SmsStore)
      → Leaves platform i s (ingest_if platform i seen accepted s)
  unfolding ingest_if
  ingest_if-Leaves seen true s = carry_insert-Leaves seen _ _ s
  ingest_if-Leaves seen false s = tt

  ingest_owned-Leaves :
      (seen : SmsStore) (number : Option NumberRow) (device : Option SmsDevice) (s : SmsStore)
      → Leaves platform i s (ingest_owned platform i seen number device s)
  unfolding ingest_owned
  ingest_owned-Leaves seen none device s = tt
  ingest_owned-Leaves seen (some number) none s = tt
  ingest_owned-Leaves seen (some number) (some device) s = ingest_if-Leaves seen _ s

-- A run that returns pays for an order only if its result is the order's first match: then the order, which
-- was waiting without a code, is successful, has its one earning, of the snapshot's payout, and the ledger
-- has the transaction of that amount on top. On every other result the statuses of the orders, the
-- earnings and the ledger are as before. The numbers stay as they are in any case.
pub run_ingest-Effect :
    (platform : Platform) (i : IngestSmsInput) (seen s : SmsStore) (out : SmsIngestionResult)
    (s' : SmsStore)
    → run_ingest platform i seen s ≡ ok (out, s')
    → Effect platform i out s s'
unfolding run_ingest
run_ingest-Effect platform i seen s out s' e =
    subst (Leaves platform i s) e (ingest_owned-Leaves platform i seen _ _ s)
