-- ===== src/Tests/Settlement.antt =====
-- The lifecycle service at concrete inputs.
use kirimkode_partner.Base.{inl, inr, none, ◌≡◌, refl, false, [], ◌∷◌, arith, Bool-cases, ok}
use kirimkode_partner.Int.{◌+ℤ◌, neg}
use kirimkode_partner.Number.{num, add_number, neg_number}
use kirimkode_partner.Text.{codes, eq_text, eq_text_iff, eq_text_refl, is_blank}
use kirimkode_partner.Double.{add_double, round_number, round_nat, spacing, nearest}
use kirimkode_partner.Ledger.{
  all_entries, assert_zero_sum_entries, hold_release_event_key, earning_reversal_event_key,
  payout_lock_event_key,
}
use kirimkode_partner.Earning.{
  EarningStatus, pending, available, requested, paid, reversed, EarningState, decide_hold_release,
  decide_earning_reversal,
}
use kirimkode_partner.Ledger.{
  create_transfer_transaction, create_ledger_transaction, assert_safe_amount, assert_identifier,
  assert_valid_timestamp, sum_checked, order_success_event_key,
}
use kirimkode_partner.Ledger.Balance.{bucket_sum}
use kirimkode_partner.Earning.Lifecycle.{
  bucket_of, success_transfer, release_transfer, reversal_transfer,
}
use kirimkode_partner.Settlement.{
  Store, find_earning_by_id, update_earning_status, append_transaction, commit, advance, released,
  carry_release, release_found, lifecycle_release_hold, reversed_now, carry_reversal, reverse_found,
  lifecycle_reverse_earning,
}
use kirimkode_partner.Settlement.Rows.{status_sum}
use kirimkode_partner.Settlement.Agreement.{IsSettled, IsRead}
use kirimkode_partner.Payout.{
  decide_request_payout, check_selection, lock_selection, sum_allocations,
}
use kirimkode_partner.Payout.Request.{lock_transfer}
use kirimkode_partner.Settlement.Payouts.{
  payout_requested, read_earnings, lock_rows, commit_lock, carry_request, request_of,
  request_payout,
}
use kirimkode_partner.Settlement.{changed_meanwhile}
use kirimkode_partner.Settlement.Runs.{Run, begin, then_release, then_reverse}

abbrev pub row : EarningStatus → EarningState
row status = record {
  id = codes "e1";
  order_id = codes "o1";
  amount_idr = num 2500;
  status = status;
  available_at = num 500;
}

abbrev fresh : Store
fresh = record { earnings = row pending ∷ []; ledger = success_transfer (codes "o1") 2500 ∷ [] }

fresh_agrees :
    (status : EarningStatus)
    → status_sum status fresh.earnings ≡ bucket_sum (bucket_of status) (all_entries fresh.ledger)
unfolding all_entries success_transfer neg_number neg ◌+ℤ◌
fresh_agrees pending = refl
fresh_agrees available = refl
fresh_agrees requested = refl
fresh_agrees paid = refl
fresh_agrees reversed = refl

fresh-IsSettled : IsSettled fresh
unfolding success_transfer hold_release_event_key earning_reversal_event_key order_success_event_key
fresh-IsSettled = record {
  distinct = (tt, tt);
  agrees = fresh_agrees;
  unreleased = ((λ _. refl), tt);
  unreversed = ((λ _. refl), tt);
}

fresh-IsRead : IsRead (row pending ∷ []) fresh
unfolding find_earning_by_id
fresh-IsRead id e h =
    ((λ q. ground (arith, eq_text_iff (codes "e1") id, Bool-cases (eq_text (codes "e1") id))), tt)

abbrev after : Store
after = record {
  earnings = row available ∷ [];
  ledger = release_transfer (codes "e1") 2500 ∷ fresh.ledger;
}

releases :
    lifecycle_release_hold (row pending ∷ []) (codes "e1") (num 600) false fresh
    ≡ ok (released, after)
unfolding lifecycle_release_hold release_found carry_release advance commit append_transaction
    find_earning_by_id update_earning_status decide_hold_release assert_valid_timestamp
    create_transfer_transaction create_ledger_transaction assert_safe_amount assert_identifier
    assert_zero_sum_entries sum_checked add_double round_number round_nat spacing nearest
    hold_release_event_key order_success_event_key success_transfer release_transfer is_blank
    add_number ◌+ℤ◌ neg
releases = refl

abbrev taken_back : Store
taken_back = record {
  earnings = row reversed ∷ [];
  ledger = reversal_transfer pending (codes "e1") 2500 ∷ fresh.ledger;
}

reverses :
    lifecycle_reverse_earning (row pending ∷ []) (codes "e1") (codes "refund") fresh
    ≡ ok (reversed_now, taken_back)
unfolding lifecycle_reverse_earning reverse_found carry_reversal advance commit append_transaction
    find_earning_by_id update_earning_status decide_earning_reversal create_transfer_transaction
    create_ledger_transaction assert_safe_amount assert_identifier assert_zero_sum_entries
    sum_checked add_double round_number round_nat spacing nearest earning_reversal_event_key
    order_success_event_key success_transfer reversal_transfer is_blank add_number ◌+ℤ◌ neg
reverses = refl

-- The reversal was decided on the pending row, and the release came first.
too_late :
    lifecycle_reverse_earning (row pending ∷ []) (codes "e1") (codes "refund") after
    ≡ ok (changed_meanwhile, after)
unfolding lifecycle_reverse_earning reverse_found carry_reversal advance commit append_transaction
    find_earning_by_id update_earning_status decide_earning_reversal create_transfer_transaction
    create_ledger_transaction assert_safe_amount assert_identifier assert_zero_sum_entries
    sum_checked add_double round_number round_nat spacing nearest earning_reversal_event_key
    order_success_event_key success_transfer reversal_transfer is_blank add_number ◌+ℤ◌ neg
too_late = refl

abbrev raced : Run fresh (after ∷ after ∷ fresh ∷ []) after
raced =
    then_reverse (after ∷ fresh ∷ []) after after (row pending ∷ []) (codes "e1") (codes "refund")
      changed_meanwhile
      (then_release (fresh ∷ []) fresh after (row pending ∷ []) (codes "e1") (num 600) false
        released begin (inl refl) releases)
      (inr (inl refl)) too_late

abbrev pub row_2 : EarningStatus → EarningState
row_2 status = record {
  id = codes "e2";
  order_id = codes "o2";
  amount_idr = num 500;
  status = status;
  available_at = num 500;
}

abbrev pub due : Store
due = record {
  earnings = row available ∷ row_2 available ∷ [];
  ledger =
      release_transfer (codes "e2") 500
      ∷ success_transfer (codes "o2") 500
      ∷ release_transfer (codes "e1") 2500
      ∷ success_transfer (codes "o1") 2500
      ∷ [];
}

due_agrees :
    (status : EarningStatus)
    → status_sum status due.earnings ≡ bucket_sum (bucket_of status) (all_entries due.ledger)
unfolding all_entries success_transfer release_transfer neg_number neg ◌+ℤ◌
due_agrees pending = refl
due_agrees available = refl
due_agrees requested = refl
due_agrees paid = refl
due_agrees reversed = refl

pub due-IsSettled : IsSettled due
unfolding success_transfer release_transfer hold_release_event_key earning_reversal_event_key
    order_success_event_key
due-IsSettled = record {
  distinct = (((λ q. ground (arith, eq_text_iff (codes "e2") (codes "e1"))), tt), (tt, tt));
  agrees = due_agrees;
  unreleased = ((λ q. absurd (ground arith)), ((λ q. absurd (ground arith)), tt));
  unreversed = ((λ _. refl), ((λ _. refl), tt));
}

due-IsRead : IsRead due.earnings due
unfolding find_earning_by_id
due-IsRead id e h = (
  (λ q. ground (arith, q, eq_text_refl (codes "e1"), h)),
  ((λ q. ground (arith, q, eq_text_refl (codes "e2"), h)), tt),
)

abbrev locked : Store
locked = record {
  earnings = row requested ∷ row_2 requested ∷ [];
  ledger = lock_transfer (codes "p1") 3000 ∷ due.ledger;
}

requests :
    request_payout due.earnings (codes "e1" ∷ codes "e2" ∷ []) (codes "p1") none due
    ≡ ok (payout_requested (num 3000), locked)
unfolding request_payout request_of read_earnings carry_request commit_lock lock_rows
    append_transaction find_earning_by_id update_earning_status decide_request_payout
    check_selection lock_selection sum_allocations create_transfer_transaction
    create_ledger_transaction assert_safe_amount assert_identifier assert_zero_sum_entries
    sum_checked add_double round_number round_nat spacing nearest hold_release_event_key
    order_success_event_key payout_lock_event_key success_transfer release_transfer lock_transfer
    is_blank add_number ◌+ℤ◌ neg
requests = refl
