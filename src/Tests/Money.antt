-- ===== src/Tests/Money.antt =====
-- The ledger, earnings and payouts at concrete inputs.
use kirimkode_partner.Base.{◌≡◌, refl, ◌↔◌, true, false, none, some, [], ◌∷◌, map, arith, ok}
use kirimkode_partner.Int.{negsuc, pos, ◌+ℤ◌, neg}
use kirimkode_partner.Number.{Number, int, max_safe, num, add_number, neg_number}
use kirimkode_partner.Text.{codes, is_blank}
use kirimkode_partner.Double.{add_double, round_number, round_nat, spacing, nearest}
use kirimkode_partner.Ledger.{
  LedgerEntry, LedgerTransaction, hold_release, payout_paid, partner_available, partner_paid,
  partner_payout_locked, partner_pending, all_entries, create_ledger_transaction,
  compute_balances_from_transactions, is_ledger_balanced, hold_release_event_key,
  earning_reversal_event_key, payout_lock_event_key, payout_paid_event_key,
  create_transfer_transaction, assert_safe_amount, assert_identifier, assert_zero_sum_entries,
  sum_checked,
}
use kirimkode_partner.Ledger.Transaction.{
  IsDoubleEntry, transfer_of, transfer-IsDoubleEntry, create_iff, StaysExact, transfer-StaysExact,
}
use kirimkode_partner.Ledger.Balance.{
  exact_balances, ledger_balanced, BalancesStayExact, TotalsStayExact,
}
use kirimkode_partner.Earning.{
  EarningStatus, EarningState, release, decide_hold_release, reverse, decide_earning_reversal,
}
use kirimkode_partner.Earning.Lifecycle.{
  Releases, Reverses, earning_release_iff, reverse_iff, release_transfer, reversal_transfer,
}
use kirimkode_partner.Payout.{
  PayoutStatus, PayoutState, approve, mark_paid, AppliedPayout, PayoutTransitionDecision, apply,
  RequestPayoutInput, lock, allocation_of, decide_request_payout, decide_payout_transition,
  settle_decision, paid_decision,
}
use kirimkode_partner.Payout.Request.{
  LocksWhole, lock_transfer, request-LocksWhole, request_succeeds,
}
use kirimkode_partner.Payout.Transition.{
  Edge, Settles, applied_follows_workflow, settled_absorbs, applied_moves_money, is_apply,
}

abbrev released_250 : LedgerTransaction
released_250 =
    transfer_of hold_release (codes "hold-release:e1") (codes "earning") (codes "e1")
      partner_pending partner_available 250

released_250-IsDoubleEntry : IsDoubleEntry released_250
unfolding is_blank
released_250-IsDoubleEntry =
    transfer-IsDoubleEntry hold_release (codes "hold-release:e1") (codes "earning") (codes "e1")
      partner_pending partner_available 250 refl refl refl refl refl (omega arith)

released_250-StaysExact : StaysExact (pos 0) released_250.entries
released_250-StaysExact =
    transfer-StaysExact hold_release (codes "hold-release:e1") (codes "earning") (codes "e1")
      partner_pending partner_available 250 (omega arith)

create_iff_example :
    (create_ledger_transaction released_250 ≡ ok released_250)
    ↔ ((released_250 ≡ released_250) × IsDoubleEntry released_250)
create_iff_example = create_iff released_250 released_250 released_250-StaysExact

released_250-BalancesStayExact : BalancesStayExact (λ _. pos 0) (all_entries (released_250 ∷ []))
unfolding all_entries neg_number neg ◌+ℤ◌
released_250-BalancesStayExact = ((λ b. ground arith), ((λ b. ground arith), tt))

released_250-TotalsStayExact : TotalsStayExact (all_entries (released_250 ∷ []))
unfolding all_entries neg_number neg ◌+ℤ◌
released_250-TotalsStayExact = (
  (omega arith, omega arith),
  (omega arith, omega arith),
  (omega arith, omega arith),
  (omega arith, omega arith),
  (omega arith, omega arith),
)

-- Beyond 2^53 a sum is rounded to an even number.
rounded : add_double (num 9007199254740992) (num 1) ≡ num 9007199254740992
unfolding add_double round_number round_nat spacing nearest add_number ◌+ℤ◌
rounded = refl

-- 3 * (2^53 - 1) lies half-way between two doubles.
rounded_up : add_double (num 18014398509481982) (num 9007199254740991) ≡ num 27021597764222972
unfolding add_double round_number round_nat spacing nearest add_number ◌+ℤ◌
rounded_up = refl

abbrev entry : Number → LedgerEntry
entry n = record { bucket = partner_pending; amount_idr_signed = n }

-- Safe amounts with the exact sum 1 pass the zero-sum test, since the running sum is rounded.
rounded_to_zero :
    assert_zero_sum_entries (
      entry (num max_safe)
      ∷ entry (num max_safe)
      ∷ entry (num 1)
      ∷ entry (num 1)
      ∷ entry (int (negsuc 9007199254740990))
      ∷ entry (int (negsuc 9007199254740990))
      ∷ entry (int (negsuc 0))
      ∷ [])
    ≡ ok tt
unfolding assert_zero_sum_entries sum_checked add_double round_number round_nat spacing nearest
    add_number ◌+ℤ◌ neg
rounded_to_zero = refl

ledger_balanced_example :
    (compute_balances_from_transactions (released_250 ∷ [])
      ≡ ok (exact_balances (all_entries (released_250 ∷ []))))
    × (is_ledger_balanced (exact_balances (all_entries (released_250 ∷ []))) ≡ true)
ledger_balanced_example =
    ledger_balanced (released_250 ∷ []) (released_250-IsDoubleEntry, tt)
      released_250-BalancesStayExact released_250-TotalsStayExact

abbrev earning : EarningStatus → EarningState
earning status = record {
  id = codes "e1";
  order_id = codes "o1";
  amount_idr = num 2500;
  status = status;
  available_at = num 500;
}

earning_release_iff_example :
    (decide_hold_release (earning EarningStatus.pending) (num 600) false
      ≡ ok (release (hold_release_event_key (codes "e1")) (release_transfer (codes "e1") 2500)))
    ↔ Releases
        (earning EarningStatus.pending)
        (num 600)
        false
        (hold_release_event_key (codes "e1"))
        (release_transfer (codes "e1") 2500)
earning_release_iff_example =
    earning_release_iff (earning EarningStatus.pending) (num 600) false
      (hold_release_event_key (codes "e1")) (release_transfer (codes "e1") 2500)

earning_released :
    decide_hold_release (earning EarningStatus.pending) (num 600) false
    ≡ ok (release (hold_release_event_key (codes "e1")) (release_transfer (codes "e1") 2500))
unfolding is_blank
earning_released = earning_release_iff_example.1 (record {
  amount = 2500;
  due = pos 500;
  at = pos 600;
  amount_eq = refl;
  positive = omega arith;
  safe = omega arith;
  identified = refl;
  waiting = refl;
  undisputed = refl;
  due_eq = refl;
  at_eq = refl;
  elapsed = omega arith;
  keyed = refl;
  moved = refl;
})

reverse_iff_example :
    (decide_earning_reversal (earning EarningStatus.available) (codes "refund")
      ≡ ok (
          reverse
            (earning_reversal_event_key (codes "e1"))
            (reversal_transfer EarningStatus.available (codes "e1") 2500)))
    ↔ Reverses
        (earning EarningStatus.available)
        (codes "refund")
        (earning_reversal_event_key (codes "e1"))
        (reversal_transfer EarningStatus.available (codes "e1") 2500)
reverse_iff_example =
    reverse_iff (earning EarningStatus.available) (codes "refund")
      (earning_reversal_event_key (codes "e1"))
      (reversal_transfer EarningStatus.available (codes "e1") 2500)

abbrev request : RequestPayoutInput
request = record {
  payout_id = codes "p1";
  earnings = earning EarningStatus.available ∷ [];
  minimum_idr = none;
}

request_succeeds_example :
    decide_request_payout request
    ≡ ok (
        lock
          (payout_lock_event_key (codes "p1"))
          (num 2500)
          (map allocation_of (earning EarningStatus.available ∷ []))
          (lock_transfer (codes "p1") 2500))
unfolding is_blank ◌+ℤ◌
request_succeeds_example =
    request_succeeds request 2500 refl (refl, tt) (tt, tt) (refl, tt) refl (omega arith)
      (omega arith) refl

request-LocksWhole_example :
    LocksWhole request
      (num 2500)
      (map allocation_of (earning EarningStatus.available ∷ []))
      (lock_transfer (codes "p1") 2500)
request-LocksWhole_example = request-LocksWhole request request_succeeds_example

abbrev payout : PayoutStatus → PayoutState
payout status = record {
  id = codes "p1";
  status = status;
  amount_idr = num 2500;
  allocations = map allocation_of (earning EarningStatus.available ∷ []);
  payment_reference = some (codes "REF");
}

abbrev paid_2500 : AppliedPayout
paid_2500 = record {
  next_status = PayoutStatus.paid;
  payment_reference = some (codes "REF");
  paid_at = some (num 900);
  actor_ref = some (codes "admin");
  reason = none;
  event_key = some (payout_paid_event_key (codes "p1"));
  earning_next_status = some EarningStatus.paid;
  transaction = some (
      transfer_of payout_paid (payout_paid_event_key (codes "p1")) (codes "payout") (codes "p1")
        partner_payout_locked partner_paid 2500);
}

pays :
    decide_payout_transition
      (payout PayoutStatus.processing)
      (mark_paid (codes " REF ") (num 900) (codes "admin"))
    ≡ ok (apply paid_2500)
unfolding decide_payout_transition settle_decision paid_decision create_transfer_transaction
    create_ledger_transaction assert_safe_amount assert_identifier assert_zero_sum_entries
    sum_checked add_double round_number round_nat spacing nearest payout_paid_event_key is_blank
    add_number ◌+ℤ◌ neg
pays = refl

applied_follows_workflow_example : Edge PayoutStatus.processing PayoutStatus.paid
applied_follows_workflow_example =
    applied_follows_workflow (payout PayoutStatus.processing)
      (mark_paid (codes " REF ") (num 900) (codes "admin")) paid_2500 pays

settled_absorbs_example :
    (d : PayoutTransitionDecision) × (decide_payout_transition (payout PayoutStatus.failed) approve
      ≡ ok d)
    × (is_apply d ≡ false)
settled_absorbs_example = settled_absorbs (payout PayoutStatus.failed) approve refl

applied_moves_money_example :
    Settles
      (payout PayoutStatus.processing)
      (mark_paid (codes " REF ") (num 900) (codes "admin"))
      paid_2500
applied_moves_money_example =
    applied_moves_money (payout PayoutStatus.processing)
      (mark_paid (codes " REF ") (num 900) (codes "admin")) paid_2500 pays
