-- ===== src/Tests/Review.antt =====
-- The payout review at concrete inputs.
use kirimkode_partner.Base.{◌≡◌, refl, inl, none, List, [], ◌∷◌, ok, All, false, arith}
use kirimkode_partner.Int.{◌+ℤ◌, neg}
use kirimkode_partner.Number.{num, add_number}
use kirimkode_partner.Text.{
  Text, codes, is_blank, trim, trim_start, trim_end, is_space, utf16_length,
}
use kirimkode_partner.Double.{add_double, round_number, round_nat, spacing, nearest}
use kirimkode_partner.Ledger.{
  assert_zero_sum_entries, create_transfer_transaction, create_ledger_transaction,
  assert_safe_amount, assert_identifier, sum_checked, hold_release_event_key,
  order_success_event_key, payout_lock_event_key, payout_paid_event_key, payout_unlock_event_key,
  LedgerTransaction,
}
use kirimkode_partner.Earning.{EarningStatus}
use kirimkode_partner.Earning.Lifecycle.{success_transfer, release_transfer}
use kirimkode_partner.Payout.{
  PayoutStatus, PayoutAllocation, decide_request_payout, check_selection, lock_selection,
  sum_allocations, decide_payout_transition, settle_decision,
}
use kirimkode_partner.Payout.Request.{lock_transfer}
use kirimkode_partner.Settlement.{find_earning_by_id, update_earning_status, append_transaction}
use kirimkode_partner.Settlement.Payouts.{payout_requested, read_earnings, lock_rows, commit_lock}
use kirimkode_partner.Review.Rows.{
  PayoutRow, Books, AuthenticatedAdmin, approve_payout, mark_processing, mark_payout_paid, reviewed,
  admin_has_permission, is_uuid,
}
use kirimkode_partner.Review.{
  payout_command, find_payout, advance_payout, is_reference_taken, update_payout_status,
  assert_auditable, apply_transition, carry_transition, transition_found, transition_payout,
  review_payout,
}
use kirimkode_partner.Review.Payouts.{
  active_ids, claim_allocations, book_decision, book_selection, book_request,
}
use kirimkode_partner.Review.Moves.{IsHeld}
use kirimkode_partner.Review.Invariant.{IsBooked}
use kirimkode_partner.Review.Requests.{IsNew}
use kirimkode_partner.Review.Ends.{paid_of}
use kirimkode_partner.Review.Runs.{Run, begin, then_request, then_review, run-IsBooked}
use kirimkode_partner.Review.Payments.{IsPayable, payment_goes_through}
use kirimkode_partner.Tests.Settlement.{row, row_2, due, due-IsSettled}

abbrev payout_id : Text
payout_id = codes "00000000-0000-0000-0000-0000000000A1"

abbrev pub admin : AuthenticatedAdmin
admin = record { admin_id = codes "root"; permissions = codes "payout:review" ∷ [] }

abbrev pub start : Books
start = record { store = due; payouts = [] }

pub start-IsBooked : IsBooked start
unfolding active_ids
start-IsBooked = record {
  settled = due-IsSettled;
  unique = tt;
  disjoint = tt;
  backed = tt;
  open_ended = tt;
}

abbrev locked_ledger : List LedgerTransaction
locked_ledger = lock_transfer payout_id 3000 ∷ due.ledger

abbrev allocations : List PayoutAllocation
allocations =
    record { earning_id = codes "e1"; amount_idr = num 2500 }
    ∷ record { earning_id = codes "e2"; amount_idr = num 500 }
    ∷ []

abbrev payout_in : PayoutStatus → PayoutRow
payout_in status = record {
  payout = record {
    id = payout_id;
    status = status;
    amount_idr = num 3000;
    allocations = allocations;
    payment_reference = none;
  };
  released = false;
}

abbrev in_status : PayoutStatus → Books
in_status status = record {
  store = record {
    earnings = row EarningStatus.requested ∷ row_2 EarningStatus.requested ∷ [];
    ledger = locked_ledger;
  };
  payouts = payout_in status ∷ [];
}

requests :
    book_request due.earnings (codes "e1" ∷ codes "e2" ∷ []) payout_id none start
    ≡ ok (payout_requested (num 3000), in_status PayoutStatus.requested)
unfolding book_request book_selection book_decision active_ids claim_allocations read_earnings
    commit_lock lock_rows append_transaction find_earning_by_id update_earning_status
    decide_request_payout check_selection lock_selection sum_allocations create_transfer_transaction
    create_ledger_transaction assert_safe_amount assert_identifier assert_zero_sum_entries
    sum_checked add_double round_number round_nat spacing nearest hold_release_event_key
    order_success_event_key payout_lock_event_key success_transfer release_transfer lock_transfer
    is_blank add_number ◌+ℤ◌ neg
requests = refl

-- An approval decided on the requested payout.
approves :
    review_payout []
      (payout_in PayoutStatus.requested ∷ [])
      admin
      (num 700)
      payout_id
      approve_payout
      (in_status PayoutStatus.requested)
    ≡ ok (reviewed PayoutStatus.approved, in_status PayoutStatus.approved)
unfolding review_payout payout_command transition_payout transition_found carry_transition
    apply_transition update_payout_status is_reference_taken advance_payout find_payout
    admin_has_permission is_uuid decide_payout_transition settle_decision assert_auditable
    assert_identifier is_blank
approves = refl

processes :
    review_payout []
      (payout_in PayoutStatus.approved ∷ [])
      admin
      (num 800)
      payout_id
      mark_processing
      (in_status PayoutStatus.approved)
    ≡ ok (reviewed PayoutStatus.processing, in_status PayoutStatus.processing)
unfolding review_payout payout_command transition_payout transition_found carry_transition
    apply_transition update_payout_status is_reference_taken advance_payout find_payout
    admin_has_permission is_uuid decide_payout_transition settle_decision assert_auditable
    assert_identifier is_blank
processes = refl

start-IsNew : IsNew payout_id start
unfolding hold_release_event_key order_success_event_key payout_lock_event_key payout_paid_event_key
    payout_unlock_event_key success_transfer release_transfer
start-IsNew = record { unused = tt; unlocked = refl; unpaid = refl; uncancelled = refl }

abbrev passed : List Books
passed =
    in_status PayoutStatus.processing
    ∷ in_status PayoutStatus.approved
    ∷ in_status PayoutStatus.requested
    ∷ start
    ∷ []

processed : Run start passed (in_status PayoutStatus.processing)
processed =
    then_review (in_status PayoutStatus.approved ∷ in_status PayoutStatus.requested ∷ start ∷ [])
      (in_status PayoutStatus.approved) (in_status PayoutStatus.processing)
      (in_status PayoutStatus.approved) [] admin (num 800) payout_id mark_processing
      (reviewed PayoutStatus.processing)
      (then_review (in_status PayoutStatus.requested ∷ start ∷ [])
        (in_status PayoutStatus.requested) (in_status PayoutStatus.approved)
        (in_status PayoutStatus.requested) [] admin (num 700) payout_id approve_payout
        (reviewed PayoutStatus.approved)
        (then_request (start ∷ []) start (in_status PayoutStatus.requested) start
          (codes "e1" ∷ codes "e2" ∷ []) payout_id none (payout_requested (num 3000)) begin
          (inl refl) start-IsNew requests)
        (inl refl) approves)
      (inl refl) processes

run-IsBooked_example : IsBooked (in_status PayoutStatus.processing)
run-IsBooked_example =
    run-IsBooked start passed (in_status PayoutStatus.processing) start-IsBooked processed

processing-IsPayable :
    IsPayable
      (codes "T0" ∷ [])
      admin
      900
      3000
      payout_id
      (codes " T1 ")
      (payout_in PayoutStatus.processing)
      (in_status PayoutStatus.processing)
unfolding admin_has_permission is_uuid is_blank find_payout is_reference_taken trim trim_start
    trim_end is_space utf16_length
processing-IsPayable = record {
  permitted = refl;
  known_admin = refl;
  safe_time = omega arith;
  well_formed = refl;
  named = refl;
  found = refl;
  in_process = refl;
  amount = refl;
  positive = omega arith;
  safe = omega arith;
  given = refl;
  short = refl;
  free = refl;
}

payment_goes_through_example :
    (b' : Books) × (review_payout
        (codes "T0" ∷ [])
        (in_status PayoutStatus.processing).payouts
        admin
        (num 900)
        payout_id
        (mark_payout_paid (codes " T1 "))
        (in_status PayoutStatus.processing)
      ≡ ok (reviewed PayoutStatus.paid, b'))
    × All (IsHeld b'.store.earnings EarningStatus.paid) allocations
    × (b'.store.ledger ≡ paid_of payout_id 3000 ∷ locked_ledger)
payment_goes_through_example =
    payment_goes_through (codes "T0" ∷ []) admin 900 3000 payout_id (codes " T1 ")
      (payout_in PayoutStatus.processing) (in_status PayoutStatus.processing) run-IsBooked_example
      processing-IsPayable
