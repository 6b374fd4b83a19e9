-- ===== src/Tests/Ingestion.antt =====
-- One message that pays for an order, at concrete rows.
use kirimkode_partner.Base.{false, ◌≡◌, refl, none, some, [], ◌∷◌, Result, ok, err, arith}
use kirimkode_partner.Number.{num}
use kirimkode_partner.Text.{codes}
use kirimkode_partner.Order.Status.{OrderStatus, NumberStatus}
use kirimkode_partner.Sms.{first}
use kirimkode_partner.Sms.Rows.{
  OrderRow, NumberRow, SmsStore, Platform, IngestSmsInput, IngestError, SmsIngestionResult,
}
use kirimkode_partner.Sms.Ingestion.{run_ingest}
use kirimkode_partner.Sms.Ingestion.Unpaid.{Effect}
use kirimkode_partner.Sms.Ingestion.Stages.{run_ingest-Effect}
use kirimkode_partner.Sms.Ingestion.Delivers.{BringsCode, first_code_delivered}
use kirimkode_partner.Settlement.Agreement.{IsSettled}
use kirimkode_partner.Sms.Ingestion.Settles.{money_of, run_ingest-IsSettled}
use kirimkode_partner.Sms.Ingestion.Runs.{IsAccounted, done, ingests, others, run-IsAccounted}
use kirimkode_partner.Sms.{
  owns_both, decide_sms_ingress, is_eligible, match_among, match_sms_to_active_order,
}
use kirimkode_partner.Sms.Registry.{
  service_otp_spec, other_brand_markers, distinct_from, foreign_sender_markers_for, includes,
  is_foreign_service_sender,
}
use kirimkode_partner.Sms.Otp.{
  has_whole_word, has_keyword, last_units, ends_with_label, is_direct_decoy_label, is_foreign,
  choose_candidate, parse_with_spec, parse_service_otp,
}
use kirimkode_partner.Sms.Candidates.{
  take_digits, take_grouped, match_candidate, drop_separators, links_to_digit, in_chain, is_intact,
  candidates_from, intact_code_candidates,
}
use kirimkode_partner.Sms.Gateway.{
  find_number, find_device, find_order, violated_key, candidate_of, load_active_order_candidates,
  update_row, mark_sms_audited, mark_sms_matched, insert_earning, insert_transaction, insert_key,
  release_number, apply_success, apply_repeat_otp,
}
use kirimkode_partner.Sms.Delivery.{
  audit, apply_repeat, carry_earning, carry_success, find_number_by_id, with_config, extract_with,
  first_extract, deliver, carry_parse,
}
use kirimkode_partner.Sms.Ingestion.{carry_match, carry_insert, ingest_if, ingest_owned, run_ingest}
use kirimkode_partner.Text.{is_space, trim_start, trim_end, trim, is_blank}
use kirimkode_partner.Order.Transition.{
  decide_order_number_transition, create_order_transition_operation_key,
}
use kirimkode_partner.Earning.{create_earning, decide_earning_on_success, new_date}
use kirimkode_partner.Double.{add_double, round_number, round_nat, spacing, nearest}
use kirimkode_partner.Ledger.{
  all_entries, assert_safe_amount, assert_valid_timestamp, assert_identifier, sum_checked,
  assert_zero_sum_entries, create_ledger_transaction, create_transfer_transaction,
  order_success_event_key,
}
use kirimkode_partner.Number.{add_number, neg_number}
use kirimkode_partner.Text.Uri.{encode_uri_component}
use kirimkode_partner.Int.{neg, ◌+ℤ◌}
use kirimkode_partner.Tests.Sms.{ascii}

abbrev waiting_order : OrderRow
waiting_order = record {
  id = codes "o1";
  partner_id = codes "p1";
  number_id = codes "n1";
  version = 3;
  status = OrderStatus.waiting_sms;
  otp = none;
  waiting_at = some (num 1000);
  created_at = num 900;
  expires_at = num 9000;
  succeeded_at = none;
  completed_at = none;
  terminal_at = none;
}

abbrev busy_number : NumberRow
busy_number = record {
  id = codes "n1";
  partner_id = codes "p1";
  device_id = codes "d1";
  status = NumberStatus.busy;
  current_order_id = some (codes "o1");
}

abbrev waiting_store : SmsStore
waiting_store = record {
  sms = [];
  orders = waiting_order ∷ [];
  numbers = busy_number ∷ [];
  transitions = [];
  earnings = [];
  ledger = [];
}

abbrev small_platform : Platform
small_platform = record {
  snapshot_of = λ id. some (record { service_code = codes "tg"; payout_idr = num 1500 });
  devices = record { id = codes "d1"; partner_id = codes "p1" } ∷ [];
  earning_hold_seconds = some 86400;
  encrypt_inbound = λ sender body. body;
  encrypt_otp = λ otp. otp;
  unicode = ascii;
}

abbrev code_message : IngestSmsInput
code_message = record {
  principal = record { partner_id = codes "p1"; device_id = codes "d1" };
  number_id = codes "n1";
  message_id = codes "m1";
  idempotency_key = codes "k1";
  sender = codes "Telegram";
  body = codes "Telegram code 12345";
  now = num 2000;
  received_at_server = num 2000;
  sms_id = codes "s1";
  earning_id = codes "e1";
}

-- The rows behind a run that returned.
abbrev rows_of : Result IngestError (SmsIngestionResult × SmsStore) → SmsStore
rows_of (ok (out, s)) = s
rows_of (err e) = waiting_store

abbrev paid_store : SmsStore
paid_store = rows_of (run_ingest small_platform code_message waiting_store waiting_store)

paid_run :
    run_ingest small_platform code_message waiting_store waiting_store
    ≡ ok (SmsIngestionResult.matched (codes "o1") first, paid_store)
unfolding owns_both decide_sms_ingress is_eligible match_among match_sms_to_active_order
    service_otp_spec other_brand_markers distinct_from foreign_sender_markers_for includes
    is_foreign_service_sender has_whole_word has_keyword take_digits take_grouped match_candidate
    drop_separators links_to_digit in_chain is_intact candidates_from intact_code_candidates
    last_units ends_with_label is_direct_decoy_label is_foreign choose_candidate parse_with_spec
    parse_service_otp find_number find_device find_order violated_key candidate_of
    load_active_order_candidates update_row mark_sms_audited mark_sms_matched insert_earning
    insert_transaction insert_key release_number apply_success apply_repeat_otp audit apply_repeat
    carry_earning carry_success find_number_by_id with_config extract_with first_extract deliver
    carry_parse carry_match carry_insert ingest_if ingest_owned run_ingest is_space trim_start
    trim_end trim is_blank decide_order_number_transition create_order_transition_operation_key
    create_earning decide_earning_on_success new_date assert_safe_amount assert_valid_timestamp
    assert_identifier sum_checked add_double round_number round_nat spacing nearest
    assert_zero_sum_entries create_ledger_transaction create_transfer_transaction
    order_success_event_key add_number neg_number encode_uri_component neg ◌+ℤ◌
paid_run = refl

-- The order is reserved by another service before the code comes in.
abbrev unreserved_store : SmsStore
unreserved_store = record waiting_store { orders = [] }

unreserved_store-IsAccounted : IsAccounted small_platform unreserved_store
unreserved_store-IsAccounted = record { different = tt; once = tt; backed = tt }

run-IsAccounted_example : IsAccounted small_platform paid_store
run-IsAccounted_example =
    run-IsAccounted small_platform unreserved_store paid_store
      (ingests code_message waiting_store (SmsIngestionResult.matched (codes "o1") first)
        (others done record {
          created = (codes "o1", false) ∷ [];
          orders = refl;
          new = ((refl, refl, tt), tt);
          earnings = refl;
          more = [];
          ledger = refl;
        })
        paid_run)
      unreserved_store-IsAccounted

run_ingest-Effect_example :
    Effect small_platform code_message
      (SmsIngestionResult.matched (codes "o1") first)
      waiting_store
      paid_store
run_ingest-Effect_example =
    run_ingest-Effect small_platform code_message waiting_store waiting_store
      (SmsIngestionResult.matched (codes "o1") first) paid_store paid_run

code_message-BringsCode :
    BringsCode small_platform code_message waiting_store waiting_order (codes "12345")
unfolding owns_both decide_sms_ingress is_eligible match_among match_sms_to_active_order
    service_otp_spec other_brand_markers distinct_from foreign_sender_markers_for includes
    is_foreign_service_sender has_whole_word has_keyword take_digits take_grouped match_candidate
    drop_separators links_to_digit in_chain is_intact candidates_from intact_code_candidates
    last_units ends_with_label is_direct_decoy_label is_foreign choose_candidate parse_with_spec
    parse_service_otp find_number find_device find_order violated_key candidate_of
    load_active_order_candidates update_row mark_sms_audited mark_sms_matched insert_earning
    insert_transaction insert_key release_number apply_success apply_repeat_otp audit apply_repeat
    carry_earning carry_success find_number_by_id with_config extract_with first_extract deliver
    carry_parse carry_match carry_insert ingest_if ingest_owned run_ingest is_space trim_start
    trim_end trim is_blank decide_order_number_transition create_order_transition_operation_key
    create_earning decide_earning_on_success new_date assert_safe_amount assert_valid_timestamp
    assert_identifier sum_checked add_double round_number round_nat spacing nearest
    assert_zero_sum_entries create_ledger_transaction create_transfer_transaction
    order_success_event_key add_number neg_number encode_uri_component neg ◌+ℤ◌
code_message-BringsCode = record {
  number = busy_number;
  device = record { id = codes "d1"; partner_id = codes "p1" };
  owned = refl;
  known = refl;
  new = refl;
  code = codes "tg";
  match = refl;
  parse = refl;
  found = refl;
  waits = (refl, refl);
  held = busy_number;
  busy = (refl, refl);
  hold = 86400;
  configured = refl;
  payout = 1500;
  priced = refl;
  payable = (omega arith, omega arith);
  time = 2000;
  clock = (refl, omega arith);
  named = (refl, refl);
  fresh = refl;
  unpaid = refl;
  unmoved = refl;
  unbooked = refl;
}

first_code_delivered_example :
    (s' : SmsStore) × (run_ingest small_platform code_message waiting_store waiting_store
      ≡ ok (SmsIngestionResult.matched (codes "o1") first, s'))
first_code_delivered_example =
    first_code_delivered small_platform code_message waiting_store waiting_order (codes "12345")
      code_message-BringsCode

run_ingest-IsSettled_example : IsSettled (money_of paid_store)
unfolding all_entries
run_ingest-IsSettled_example =
    run_ingest-IsSettled small_platform code_message waiting_store waiting_store
      (SmsIngestionResult.matched (codes "o1") first) paid_store paid_run refl refl
      (record { distinct = tt; agrees = λ status. refl; unreleased = tt; unreversed = tt })
