-- ===== src/Review/Reviews.antt =====
-- The theorems about the payout review on the books.
use kirimkode_partner.Base.{
  ◌≡◌, refl, ◌⊎◌, inl, inr, true, false, Option, none, some, List, arith, Result, ok, err,
  bind_returns, Bool-cases,
}
use kirimkode_partner.Number.{Number}
use kirimkode_partner.Text.{Text}
use kirimkode_partner.Payout.{
  PayoutCommand, AppliedPayout, PayoutTransitionDecision, apply, no_change,
  decide_payout_transition,
}
use kirimkode_partner.Review.Rows.{
  PayoutRow, Books, AuthenticatedAdmin, PayoutReviewRequest, PayoutReviewReason,
  PayoutReviewOutcome, reviewed, admin_has_permission, payout_review_permission, is_uuid,
}
use kirimkode_partner.Review.{
  payout_command, find_payout, advance_payout, unless_taken, is_reference_taken,
  update_payout_status, carry_transition, transition_found, transition_payout, review_payout,
}
use kirimkode_partner.Review.Invariant.{IsBooked}
use kirimkode_partner.Review.Settles.{advance-Advanced}
use kirimkode_partner.Review.Transitions.{
  IsReadPayout, updated_cases, Transitioned, transition_cases,
}
use kirimkode_partner.Review.Steps.{applied-IsBooked}

-- A review that has changed the books: the payout that was read, the decision about it, and the
-- compare-and-set that found its row.
pub record Reviewed (others : List Text) (seen : List PayoutRow) (id : Text) (c : PayoutCommand)
    (o : PayoutReviewOutcome) (b b' : Books) : Type 0 where
  pub row : PayoutRow
  pub found : find_payout id seen ≡ some row
  pub applied : AppliedPayout
  pub decided : decide_payout_transition row.payout c ≡ ok (apply applied)
  pub payouts : List PayoutRow
  pub free : is_reference_taken others row.payout.id applied.payment_reference b.payouts ≡ false
  pub moved :
      advance_payout row.payout.id row.payout.status applied.next_status applied.payment_reference
        b.payouts
      ≡ some payouts
  pub left : Transitioned applied row.payout payouts b b'
  pub reported : o ≡ reviewed applied.next_status

carried_cases :
    (others : List Text) (seen : List PayoutRow) (id admin_id : Text) (now : Number) (p : PayoutRow)
    (c : PayoutCommand) (b b' : Books) (d : PayoutTransitionDecision) (o : PayoutReviewOutcome)
    → find_payout id seen ≡ some p
    → decide_payout_transition p.payout c ≡ ok d
    → carry_transition others admin_id now p.payout b d ≡ ok (o, b')
    → (b' ≡ b) ⊎ Reviewed others seen id c o b b'
unfolding carry_transition update_payout_status
carried_cases others seen id admin_id now p c b b' (no_change s) o f h e = inl (ground arith)
carried_cases others seen id admin_id now p c b b' (PayoutTransitionDecision.reject x) o f h e =
    inl (ground arith)
carried_cases others seen id admin_id now p c b b' (apply a) o f h e =
    let q = p.payout in
    let taken = is_reference_taken others q.id a.payment_reference b.payouts in
    let u = advance_payout q.id q.status a.next_status a.payment_reference b.payouts in
    elim (transition_cases admin_id now q a b b' (unless_taken taken u) o e) [
      | inl same ↦ inl same
      | inr (ps, g, t, said) ↦
          let (moved, free) = updated_cases taken u ps g in
          inr record {
            row = p;
            found = f;
            applied = a;
            decided = h;
            payouts = ps;
            free = free;
            moved = moved;
            left = t;
            reported = said;
          }
    ]

found_cases :
    (others : List Text) (seen : List PayoutRow) (id admin_id : Text) (now : Number)
    (c : PayoutCommand) (b b' : Books) (p : Option PayoutRow) (o : PayoutReviewOutcome)
    → find_payout id seen ≡ p
    → transition_found others admin_id now c b p ≡ ok (o, b')
    → (b' ≡ b) ⊎ Reviewed others seen id c o b b'
unfolding transition_found
found_cases others seen id admin_id now c b b' none o f h = inl (ground arith)
found_cases others seen id admin_id now c b b' (some p) o f h =
    let (d, e, g) = bind_returns (decide_payout_transition p.payout c) _ h in
    carried_cases others seen id admin_id now p c b b' d o f e g

-- The payouts read earlier have the allocations and the amounts that the payouts have now.
abbrev pub AreReadPayouts : List PayoutRow → List PayoutRow → Type 0
AreReadPayouts seen ps =
    (id : Text) (p : PayoutRow) → find_payout id seen ≡ some p → IsReadPayout p.payout ps

-- What the checks before the transaction let through.
transition_tried :
    (others : List Text) (seen : List PayoutRow) (admin : AuthenticatedAdmin) (now : Number)
    (id : Text) (b b' : Books) (r : Result PayoutReviewReason PayoutCommand)
    (o : PayoutReviewOutcome)
    → transition_payout others seen admin now id b r ≡ ok (o, b')
    → (b' ≡ b)
      ⊎ ((c : PayoutCommand) × (r ≡ ok c)
          × (admin_has_permission admin.permissions payout_review_permission ≡ true)
          × (is_uuid id ≡ true)
          × (transition_found others admin.admin_id now c b (find_payout id seen) ≡ ok (o, b')))
unfolding transition_payout
transition_tried others seen admin now id b b' (err x) o h = inl (ground arith)
transition_tried others seen admin now id b b' (ok c) o h =
    elim (Bool-cases (admin_has_permission admin.permissions payout_review_permission)) [
      | inr e ↦ inl (ground (arith, e))
      | inl e ↦ elim (Bool-cases (is_uuid id)) [
        | inr f ↦ inl (ground (arith, e, f))
        | inl f ↦ inr (c, refl, e, f, ground (arith, e, f))
      ]
    ]

-- A review changes nothing, or it carries out a permitted command on a payout with a well-formed id.
pub review_cases :
    (others : List Text) (seen : List PayoutRow) (admin : AuthenticatedAdmin) (now : Number)
    (id : Text) (request : PayoutReviewRequest) (b b' : Books) (o : PayoutReviewOutcome)
    → review_payout others seen admin now id request b ≡ ok (o, b')
    → (b' ≡ b)
      ⊎ ((c : PayoutCommand) × (payout_command admin now request ≡ ok c)
          × (admin_has_permission admin.permissions payout_review_permission ≡ true)
          × (is_uuid id ≡ true)
          × Reviewed others seen id c o b b')
unfolding review_payout
review_cases others seen admin now id request b b' o h =
    elim (transition_tried others seen admin now id b b' (payout_command admin now request) o h) [
      | inl same ↦ inl same
      | inr (c, e, p, u, f) ↦
          elim (found_cases others seen id admin.admin_id now c b b' (find_payout id seen) o refl
            f) [ inl same ↦ inl same | inr r ↦ inr (c, e, p, u, r) ]
    ]

-- A review keeps the books in order, whatever has become of the payout and its earnings since the payout
-- was read, as long as its allocations and amount are the same.
pub review_payout-IsBooked :
    (others : List Text) (seen : List PayoutRow) (admin : AuthenticatedAdmin) (now : Number)
    (id : Text) (request : PayoutReviewRequest) (b b' : Books) (o : PayoutReviewOutcome)
    → IsBooked b
    → AreReadPayouts seen b.payouts
    → review_payout others seen admin now id request b ≡ ok (o, b')
    → IsBooked b'
review_payout-IsBooked others seen admin now id request b b' o i read h =
    elim (review_cases others seen admin now id request b b' o h) [
      | inl same ↦ rw same i
      | inr (c, _, _, _, r) ↦
          applied-IsBooked r.row.payout c r.applied b b' r.payouts r.decided i
            (read id r.row r.found)
            (advance-Advanced r.row.payout.id r.row.payout.status r.applied.next_status
              r.applied.payment_reference b.payouts r.payouts r.moved)
            r.left
    ]
