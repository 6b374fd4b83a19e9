-- ===== src/Tests/References.antt =====
-- Two payouts that are paid one after the other, under references of their own.
use kirimkode_partner.Base.{◌≡◌, refl, false, true, inl, Option, none, some, List, [], ◌∷◌, ok, ℕ}
use kirimkode_partner.Int.{◌+ℤ◌, neg}
use kirimkode_partner.Double.{add_double, round_number, round_nat, spacing, nearest}
use kirimkode_partner.Number.{num, add_number}
use kirimkode_partner.Text.{
  Text, codes, eq_text_iff, is_blank, trim, trim_start, trim_end, is_space, utf16_length,
}
use kirimkode_partner.Ledger.{
  assert_zero_sum_entries, create_transfer_transaction, create_ledger_transaction,
  assert_safe_amount, assert_identifier, sum_checked, hold_release_event_key,
  order_success_event_key, payout_lock_event_key, payout_paid_event_key, payout_unlock_event_key,
  LedgerTransaction,
}
use kirimkode_partner.Earning.{EarningStatus}
use kirimkode_partner.Earning.Lifecycle.{success_transfer, release_transfer}
use kirimkode_partner.Payout.{
  PayoutStatus, decide_request_payout, check_selection, lock_selection, sum_allocations,
  decide_payout_transition, settle_decision, paid_decision,
}
use kirimkode_partner.Payout.Request.{lock_transfer}
use kirimkode_partner.Settlement.{find_earning_by_id, update_earning_status, append_transaction}
use kirimkode_partner.Settlement.Payouts.{payout_requested, read_earnings, lock_rows, commit_lock}
use kirimkode_partner.Review.Rows.{
  PayoutRow, Books, approve_payout, mark_processing, mark_payout_paid, reviewed,
  admin_has_permission, is_uuid,
}
use kirimkode_partner.Review.{
  payout_command, find_payout, advance_payout, is_reference_taken, update_payout_status,
  assert_auditable, apply_transition, carry_transition, transition_found, transition_payout,
  review_payout, move_allocated, release_allocations,
}
use kirimkode_partner.Review.Payouts.{
  active_ids, claim_allocations, book_decision, book_selection, book_request,
}
use kirimkode_partner.Review.Moves.{AllDiffer}
use kirimkode_partner.Review.Requests.{IsNew}
use kirimkode_partner.Review.Ends.{paid_of}
use kirimkode_partner.Review.Runs.{Run, begin, then_request, then_review}
use kirimkode_partner.Review.References.{references, run_references_differ}
use kirimkode_partner.Tests.Settlement.{row, row_2, due}
use kirimkode_partner.Tests.Review.{admin, start, start-IsBooked}

abbrev id_1 : Text
id_1 = codes "00000000-0000-0000-0000-0000000000A1"

abbrev id_2 : Text
id_2 = codes "00000000-0000-0000-0000-0000000000A2"

abbrev payout_row : Text → Text → ℕ → PayoutStatus → Option Text → PayoutRow
payout_row id earning_id n status reference = record {
  payout = record {
    id = id;
    status = status;
    amount_idr = num n;
    allocations = record { earning_id = earning_id; amount_idr = num n } ∷ [];
    payment_reference = reference;
  };
  released = false;
}

-- The first payout on its way.
abbrev ledger_1 : List LedgerTransaction
ledger_1 = lock_transfer id_1 2500 ∷ due.ledger

abbrev first_in : PayoutStatus → Books
first_in status = record {
  store = record {
    earnings = row EarningStatus.requested ∷ row_2 EarningStatus.available ∷ [];
    ledger = ledger_1;
  };
  payouts = payout_row id_1 (codes "e1") 2500 status none ∷ [];
}

abbrev paid_row : PayoutRow
paid_row = payout_row id_1 (codes "e1") 2500 PayoutStatus.paid (some (codes "T1"))

abbrev first_paid : Books
first_paid = record {
  store = record {
    earnings = row EarningStatus.paid ∷ row_2 EarningStatus.available ∷ [];
    ledger = paid_of id_1 2500 ∷ ledger_1;
  };
  payouts = paid_row ∷ [];
}

-- The second one.
abbrev ledger_2 : List LedgerTransaction
ledger_2 = lock_transfer id_2 500 ∷ paid_of id_1 2500 ∷ ledger_1

abbrev second_in : PayoutStatus → Books
second_in status = record {
  store = record {
    earnings = row EarningStatus.paid ∷ row_2 EarningStatus.requested ∷ [];
    ledger = ledger_2;
  };
  payouts = payout_row id_2 (codes "e2") 500 status none ∷ paid_row ∷ [];
}

abbrev second_paid : Books
second_paid = record {
  store = record {
    earnings = row EarningStatus.paid ∷ row_2 EarningStatus.paid ∷ [];
    ledger = paid_of id_2 500 ∷ ledger_2;
  };
  payouts = payout_row id_2 (codes "e2") 500 PayoutStatus.paid (some (codes "T2")) ∷ paid_row ∷ [];
}

requests_1 :
    book_request (start).store.earnings (codes "e1" ∷ []) id_1 none (start)
    ≡ ok (payout_requested (num 2500), first_in PayoutStatus.requested)
unfolding book_request book_selection book_decision active_ids claim_allocations read_earnings
    commit_lock lock_rows append_transaction find_earning_by_id update_earning_status
    decide_request_payout check_selection lock_selection sum_allocations create_transfer_transaction
    create_ledger_transaction assert_safe_amount assert_identifier assert_zero_sum_entries
    sum_checked add_double round_number round_nat spacing nearest hold_release_event_key
    order_success_event_key payout_lock_event_key payout_paid_event_key success_transfer
    release_transfer lock_transfer is_blank add_number ◌+ℤ◌ neg
requests_1 = refl

approves_1 :
    review_payout []
      (first_in PayoutStatus.requested).payouts
      admin
      (num 700)
      id_1
      approve_payout
      (first_in PayoutStatus.requested)
    ≡ ok (reviewed PayoutStatus.approved, first_in PayoutStatus.approved)
unfolding review_payout payout_command transition_payout transition_found carry_transition
    apply_transition update_payout_status is_reference_taken advance_payout find_payout
    admin_has_permission is_uuid decide_payout_transition settle_decision assert_auditable
    assert_identifier is_blank
approves_1 = refl

processes_1 :
    review_payout []
      (first_in PayoutStatus.approved).payouts
      admin
      (num 800)
      id_1
      mark_processing
      (first_in PayoutStatus.approved)
    ≡ ok (reviewed PayoutStatus.processing, first_in PayoutStatus.processing)
unfolding review_payout payout_command transition_payout transition_found carry_transition
    apply_transition update_payout_status is_reference_taken advance_payout find_payout
    admin_has_permission is_uuid decide_payout_transition settle_decision assert_auditable
    assert_identifier is_blank
processes_1 = refl

pays_1 :
    review_payout
      (codes "T0" ∷ [])
      (first_in PayoutStatus.processing).payouts
      admin
      (num 900)
      id_1
      (mark_payout_paid (codes " T1 "))
      (first_in PayoutStatus.processing)
    ≡ ok (reviewed PayoutStatus.paid, first_paid)
unfolding review_payout payout_command transition_payout transition_found carry_transition
    apply_transition update_payout_status is_reference_taken advance_payout find_payout
    admin_has_permission is_uuid decide_payout_transition settle_decision assert_auditable
    assert_identifier is_blank move_allocated release_allocations paid_decision find_earning_by_id
    update_earning_status append_transaction create_transfer_transaction create_ledger_transaction
    assert_safe_amount assert_zero_sum_entries sum_checked add_double round_number round_nat spacing
    nearest add_number ◌+ℤ◌ neg lock_transfer success_transfer release_transfer
    hold_release_event_key order_success_event_key payout_lock_event_key payout_paid_event_key
    payout_unlock_event_key trim trim_start trim_end is_space utf16_length
pays_1 = refl

requests_2 :
    book_request (first_paid).store.earnings (codes "e2" ∷ []) id_2 (some (num 500)) (first_paid)
    ≡ ok (payout_requested (num 500), second_in PayoutStatus.requested)
unfolding book_request book_selection book_decision active_ids claim_allocations read_earnings
    commit_lock lock_rows append_transaction find_earning_by_id update_earning_status
    decide_request_payout check_selection lock_selection sum_allocations create_transfer_transaction
    create_ledger_transaction assert_safe_amount assert_identifier assert_zero_sum_entries
    sum_checked add_double round_number round_nat spacing nearest hold_release_event_key
    order_success_event_key payout_lock_event_key payout_paid_event_key success_transfer
    release_transfer lock_transfer is_blank add_number ◌+ℤ◌ neg
requests_2 = refl

approves_2 :
    review_payout []
      (second_in PayoutStatus.requested).payouts
      admin
      (num 1000)
      id_2
      approve_payout
      (second_in PayoutStatus.requested)
    ≡ ok (reviewed PayoutStatus.approved, second_in PayoutStatus.approved)
unfolding review_payout payout_command transition_payout transition_found carry_transition
    apply_transition update_payout_status is_reference_taken advance_payout find_payout
    admin_has_permission is_uuid decide_payout_transition settle_decision assert_auditable
    assert_identifier is_blank
approves_2 = refl

processes_2 :
    review_payout []
      (second_in PayoutStatus.approved).payouts
      admin
      (num 1100)
      id_2
      mark_processing
      (second_in PayoutStatus.approved)
    ≡ ok (reviewed PayoutStatus.processing, second_in PayoutStatus.processing)
unfolding review_payout payout_command transition_payout transition_found carry_transition
    apply_transition update_payout_status is_reference_taken advance_payout find_payout
    admin_has_permission is_uuid decide_payout_transition settle_decision assert_auditable
    assert_identifier is_blank
processes_2 = refl

pays_2 :
    review_payout
      (codes "T0" ∷ [])
      (second_in PayoutStatus.processing).payouts
      admin
      (num 1200)
      id_2
      (mark_payout_paid (codes "T2"))
      (second_in PayoutStatus.processing)
    ≡ ok (reviewed PayoutStatus.paid, second_paid)
unfolding review_payout payout_command transition_payout transition_found carry_transition
    apply_transition update_payout_status is_reference_taken advance_payout find_payout
    admin_has_permission is_uuid decide_payout_transition settle_decision assert_auditable
    assert_identifier is_blank move_allocated release_allocations paid_decision find_earning_by_id
    update_earning_status append_transaction create_transfer_transaction create_ledger_transaction
    assert_safe_amount assert_zero_sum_entries sum_checked add_double round_number round_nat spacing
    nearest add_number ◌+ℤ◌ neg lock_transfer success_transfer release_transfer
    hold_release_event_key order_success_event_key payout_lock_event_key payout_paid_event_key
    payout_unlock_event_key trim trim_start trim_end is_space utf16_length
pays_2 = refl

id_1-IsNew : IsNew id_1 start
unfolding hold_release_event_key order_success_event_key payout_lock_event_key payout_paid_event_key
    payout_unlock_event_key success_transfer release_transfer lock_transfer
id_1-IsNew = record { unused = tt; unlocked = refl; unpaid = refl; uncancelled = refl }

apart : (id_1 ≡ id_2) → ⊥
apart e = let h : false ≡ true = (eq_text_iff id_1 id_2).1 e in cc

id_2-IsNew : IsNew id_2 first_paid
unfolding hold_release_event_key order_success_event_key payout_lock_event_key payout_paid_event_key
    payout_unlock_event_key success_transfer release_transfer lock_transfer
id_2-IsNew = record {
  unused = ((λ e. apart e), tt);
  unlocked = refl;
  unpaid = refl;
  uncancelled = refl;
}

abbrev past_1 : List Books
past_1 =
    first_paid
    ∷ first_in PayoutStatus.processing
    ∷ first_in PayoutStatus.approved
    ∷ first_in PayoutStatus.requested
    ∷ start
    ∷ []

abbrev past_2 : List Books
past_2 =
    second_paid
    ∷ second_in PayoutStatus.processing
    ∷ second_in PayoutStatus.approved
    ∷ second_in PayoutStatus.requested
    ∷ past_1

first_run : Run start past_1 first_paid
first_run =
    then_review
      (first_in PayoutStatus.processing
        ∷ first_in PayoutStatus.approved
        ∷ first_in PayoutStatus.requested
        ∷ start
        ∷ [])
      (first_in PayoutStatus.processing) (first_paid) (first_in PayoutStatus.processing)
      (codes "T0" ∷ []) admin (num 900) id_1 (mark_payout_paid (codes " T1 "))
      (reviewed PayoutStatus.paid)
      (then_review (first_in PayoutStatus.approved ∷ first_in PayoutStatus.requested ∷ start ∷ [])
        (first_in PayoutStatus.approved) (first_in PayoutStatus.processing)
        (first_in PayoutStatus.approved) [] admin (num 800) id_1 mark_processing
        (reviewed PayoutStatus.processing)
        (then_review (first_in PayoutStatus.requested ∷ start ∷ [])
          (first_in PayoutStatus.requested) (first_in PayoutStatus.approved)
          (first_in PayoutStatus.requested) [] admin (num 700) id_1 approve_payout
          (reviewed PayoutStatus.approved)
          (then_request (start ∷ []) (start) (first_in PayoutStatus.requested) (start)
            (codes "e1" ∷ []) id_1 none (payout_requested (num 2500)) begin (inl refl) id_1-IsNew
            requests_1)
          (inl refl) approves_1)
        (inl refl) processes_1)
      (inl refl) pays_1

both_run : Run start past_2 second_paid
both_run =
    then_review
      (second_in PayoutStatus.processing
        ∷ second_in PayoutStatus.approved
        ∷ second_in PayoutStatus.requested
        ∷ past_1)
      (second_in PayoutStatus.processing) (second_paid) (second_in PayoutStatus.processing)
      (codes "T0" ∷ []) admin (num 1200) id_2 (mark_payout_paid (codes "T2"))
      (reviewed PayoutStatus.paid)
      (then_review (second_in PayoutStatus.approved ∷ second_in PayoutStatus.requested ∷ past_1)
        (second_in PayoutStatus.approved) (second_in PayoutStatus.processing)
        (second_in PayoutStatus.approved) [] admin (num 1100) id_2 mark_processing
        (reviewed PayoutStatus.processing)
        (then_review (second_in PayoutStatus.requested ∷ past_1) (second_in PayoutStatus.requested)
          (second_in PayoutStatus.approved) (second_in PayoutStatus.requested) [] admin (num 1000)
          id_2 approve_payout (reviewed PayoutStatus.approved)
          (then_request past_1 (first_paid) (second_in PayoutStatus.requested) (first_paid)
            (codes "e2" ∷ []) id_2 (some (num 500)) (payout_requested (num 500)) first_run
            (inl refl) id_2-IsNew requests_2)
          (inl refl) approves_2)
        (inl refl) processes_2)
      (inl refl) pays_2

run_references_differ_example : AllDiffer (references second_paid.payouts)
run_references_differ_example =
    run_references_differ start past_2 second_paid start-IsBooked tt both_run

-- The conclusion is about two references.
two_references : references second_paid.payouts ≡ codes "T2" ∷ codes "T1" ∷ []
two_references = refl
