-- ===== src/Review.antt =====
-- The books of a partner: the store of Settlement with its payouts and their allocations, the payout
-- request of src/application/payouts/payout-request-service.ts on them, and the payout review of
-- src/application/payouts/payout-review-service.ts with the compare-and-set, the release of allocations
-- and the unique payment reference of src/infrastructure/database/payout-review-gateway.ts. The rows of
-- the audit trail are not part of the books, but the checks that an audit event makes are.
pub mod Rows
pub mod Payouts
pub mod Moves
pub mod Held
pub mod Invariant
pub mod Requests
pub mod Settles
pub mod Replaced
pub mod Ends
pub mod Transitions
pub mod Steps
pub mod Reviews
pub mod Commands
pub mod Reads
pub mod Payments
pub mod References
pub mod Runs
use kirimkode_partner.Base.{
  ℕ, zero, suc, Bool, true, false, not, ◌&&◌, ◌||◌, Option, none, some, List, [], ◌∷◌, map, ltb,
  leb, ◌==◌, if◌then◌else◌, any, Result, ok, err, ◌>>=◌, ◌>>◌, throw_if, length,
}
use kirimkode_partner.Number.{Number, is_safe_integer, lt_number, num}
use kirimkode_partner.Text.{Text, codes, eq_text, trim, is_blank, utf16_length}
use kirimkode_partner.Ledger.{DomainError, invalid_timestamp, LedgerTransaction, assert_identifier}
use kirimkode_partner.Earning.{EarningStatus, EarningState}
use kirimkode_partner.Payout.{
  PayoutStatus, PayoutState, PayoutAllocation, PayoutCommand, approve, process, mark_paid, fail,
  AppliedPayout, PayoutTransitionDecision, apply, no_change, PayoutRejectCode, eq_payout,
  decide_payout_transition,
}
use kirimkode_partner.Settlement.{Store, update_earning_status, append_transaction}
use kirimkode_partner.Review.Rows.{
  PayoutRow, Books, AuthenticatedAdmin, payout_review_permission, admin_has_permission, is_uuid,
  max_payment_reference_length, PayoutReviewRequest, PayoutReviewReason, PayoutReviewOutcome,
  validate_reason, with_reason, approve_payout, mark_processing, mark_payout_paid, reject_payout,
  fail_payout, forbidden, not_found, illegal_transition, terminal_state_conflict, missing_reason,
  missing_payment_reference, payment_reference_conflict, duplicate_payment_reference, conflict,
  invalid_payout_id, invalid_payment_reference, invalid_paid_at, reviewed, refused,
}

-- The five methods of the service up to their call of `transition`.
unfoldable pub payout_command :
    AuthenticatedAdmin → Number → PayoutReviewRequest → Result PayoutReviewReason PayoutCommand
payout_command admin now approve_payout = ok approve
payout_command admin now mark_processing = ok process
payout_command admin now (mark_payout_paid reference) =
    if is_blank reference
    then err missing_payment_reference
    else if ltb max_payment_reference_length (utf16_length (trim reference))
    then err invalid_payment_reference
    else ok (mark_paid (trim reference) now admin.admin_id)
payout_command admin now (reject_payout reason) =
    with_reason (λ r. PayoutCommand.reject r admin.admin_id) (validate_reason reason)
payout_command admin now (fail_payout reason) =
    with_reason (λ r. fail r admin.admin_id) (validate_reason reason)

unfoldable pub find_payout : Text → List PayoutRow → Option PayoutRow
find_payout id [] = none
find_payout id (p ∷ ps) =
    let rest = find_payout id ps in if eq_text p.payout.id id then some p else rest

abbrev pub or_kept : Option Text → Option Text → Option Text
or_kept none old = old
or_kept (some new) old = some new

abbrev pub advanced : PayoutRow → PayoutStatus → Option Text → PayoutRow
advanced p next reference = record p {
  payout = record p.payout {
    status = next;
    payment_reference = or_kept reference p.payout.payment_reference;
  };
}

abbrev pub behind_payout : PayoutRow → Option (List PayoutRow) → Option (List PayoutRow)
behind_payout p none = none
behind_payout p (some ps) = some (p ∷ ps)

-- The compare-and-set on the row's status; `none` is a count of 0.
unfoldable pub advance_payout :
    Text → PayoutStatus → PayoutStatus → Option Text → List PayoutRow → Option (List PayoutRow)
advance_payout id expected next reference [] = none
advance_payout id expected next reference (p ∷ ps) =
    let rest = advance_payout id expected next reference ps in
    if eq_text p.payout.id id && eq_payout p.payout.status expected
    then some (advanced p next reference ∷ ps)
    else behind_payout p rest

abbrev pub has_reference : Text → Option Text → Bool
has_reference reference none = false
has_reference reference (some r) = eq_text r reference

-- Another payout has the payment reference already; `others` are the references of other partners.
unfoldable pub is_reference_taken : List Text → Text → Option Text → List PayoutRow → Bool
is_reference_taken others id none ps = false
is_reference_taken others id (some reference) ps =
    any (eq_text reference) others
    || any (λ p. not (eq_text p.payout.id id) && has_reference reference p.payout.payment_reference)
        ps

pub data UpdatePayoutStatus : Type 0 where
  updated : List PayoutRow → UpdatePayoutStatus
  no_op duplicate_reference : UpdatePayoutStatus

abbrev pub unless_taken : Bool → Option (List PayoutRow) → UpdatePayoutStatus
unless_taken taken none = no_op
unless_taken true (some ps) = duplicate_reference
unless_taken false (some ps) = updated ps

unfoldable pub update_payout_status :
    List Text
    → Text
    → PayoutStatus
    → PayoutStatus
    → Option Text
    → List PayoutRow
    → UpdatePayoutStatus
update_payout_status others id expected next reference ps =
    unless_taken (is_reference_taken others id reference ps)
      (advance_payout id expected next reference ps)

abbrev pub or_same : List EarningState → Option (List EarningState) → List EarningState
or_same es none = es
or_same es (some moved) = moved

-- The loop that moves the allocated earnings; a lost compare-and-set is passed over.
unfoldable pub move_allocated :
    EarningStatus → List PayoutAllocation → List EarningState → List EarningState
move_allocated next [] es = es
move_allocated next (a ∷ as') es =
    move_allocated next as'
      (or_same es (update_earning_status a.earning_id EarningStatus.requested next es))

abbrev pub move_if :
    Option EarningStatus → List PayoutAllocation → List EarningState → List EarningState
move_if none as' es = es
move_if (some next) as' es = move_allocated next as' es

unfoldable pub release_allocations : Text → List PayoutRow → List PayoutRow
release_allocations id ps =
    map (λ p. if eq_text p.payout.id id then record p { released = true } else p) ps

abbrev pub release_if : Option EarningStatus → Text → List PayoutRow → List PayoutRow
release_if (some EarningStatus.available) id ps = release_allocations id ps
release_if _ id ps = ps

abbrev pub append_if :
    Option LedgerTransaction → List LedgerTransaction → Result DomainError (List LedgerTransaction)
append_if none ledger = ok ledger
append_if (some transaction) ledger = append_transaction transaction ledger

-- What `createAuditEvent` checks of the acting admin and the time; the rest of its input is constant.
unfoldable pub assert_auditable : Text → Number → Result DomainError (Unit {0})
assert_auditable actor_ref now =
    assert_identifier actor_ref
    >> throw_if (not (is_safe_integer now) || lt_number now (num 0)) invalid_timestamp

-- The transaction from its compare-and-set on; what it throws rolls it back.
unfoldable pub apply_transition :
    Text
    → Number
    → PayoutState
    → AppliedPayout
    → Books
    → UpdatePayoutStatus
    → Result DomainError (PayoutReviewOutcome × Books)
apply_transition admin_id now payout a books duplicate_reference =
    ok (refused duplicate_payment_reference, books)
apply_transition admin_id now payout a books no_op = ok (refused conflict, books)
apply_transition admin_id now payout a books (updated ps) = do
  ledger ← append_if a.transaction books.store.ledger
  assert_auditable admin_id now
  ok (
    reviewed a.next_status,
    record {
      store = record {
        earnings = move_if a.earning_next_status payout.allocations books.store.earnings;
        ledger = ledger;
      };
      payouts = release_if a.earning_next_status payout.id ps;
    },
  )

abbrev pub reason_of : PayoutRejectCode → PayoutReviewReason
reason_of PayoutRejectCode.illegal_transition = illegal_transition
reason_of PayoutRejectCode.terminal_state_conflict = terminal_state_conflict
reason_of PayoutRejectCode.missing_reason = missing_reason
reason_of PayoutRejectCode.missing_payment_reference = missing_payment_reference
reason_of PayoutRejectCode.payment_reference_conflict = payment_reference_conflict
reason_of PayoutRejectCode.invalid_timestamp = invalid_paid_at

unfoldable pub carry_transition :
    List Text
    → Text
    → Number
    → PayoutState
    → Books
    → PayoutTransitionDecision
    → Result DomainError (PayoutReviewOutcome × Books)
carry_transition others admin_id now payout books (no_change s) = ok (reviewed payout.status, books)
carry_transition others admin_id now payout books (PayoutTransitionDecision.reject code) =
    ok (refused (reason_of code), books)
carry_transition others admin_id now payout books (apply a) =
    apply_transition admin_id now payout a books (
      update_payout_status others payout.id payout.status a.next_status a.payment_reference
        books.payouts)

unfoldable pub transition_found :
    List Text
    → Text
    → Number
    → PayoutCommand
    → Books
    → Option PayoutRow
    → Result DomainError (PayoutReviewOutcome × Books)
transition_found others admin_id now command books none = ok (refused not_found, books)
transition_found others admin_id now command books (some p) =
    decide_payout_transition p.payout command
    >>= (λ decision. carry_transition others admin_id now p.payout books decision)

-- `transition`, on the payouts as they were `seen` before the transaction.
unfoldable pub transition_payout :
    List Text
    → List PayoutRow
    → AuthenticatedAdmin
    → Number
    → Text
    → Books
    → Result PayoutReviewReason PayoutCommand
    → Result DomainError (PayoutReviewOutcome × Books)
transition_payout others seen admin now id books (err reason) = ok (refused reason, books)
transition_payout others seen admin now id books (ok command) =
    if not (admin_has_permission admin.permissions payout_review_permission)
    then ok (refused forbidden, books)
    else if not (is_uuid id)
    then ok (refused invalid_payout_id, books)
    else transition_found others admin.admin_id now command books (find_payout id seen)

unfoldable pub review_payout :
    List Text
    → List PayoutRow
    → AuthenticatedAdmin
    → Number
    → Text
    → PayoutReviewRequest
    → Books
    → Result DomainError (PayoutReviewOutcome × Books)
review_payout others seen admin now id request books =
    transition_payout others seen admin now id books (payout_command admin now request)
