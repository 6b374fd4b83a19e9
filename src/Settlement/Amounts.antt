-- ===== src/Settlement/Amounts.antt =====
-- Lemmas on the amounts of rows under the commands of src/application/earning-lifecycle-service.ts.
use mathlib.Core.Path.{subst}
use kirimkode_partner.Base.{
  ◌≡◌, refl, sym, ap, ◌≢◌, inl, inr, Bool, Option, none, some, List, [], ◌∷◌, map, arith,
  Bool-cases, All, Result, ok, err, bind_returns,
}
use kirimkode_partner.Number.{Number}
use kirimkode_partner.Text.{Text, eq_text, eq_text_iff}
use kirimkode_partner.Ledger.{LedgerTransaction}
use kirimkode_partner.Earning.{
  EarningStatus, pending, available, reversed, EarningState, release, ReleaseHoldDecision,
  decide_hold_release, ReverseEarningDecision, reverse, reconciliation_required,
  decide_earning_reversal,
}
use kirimkode_partner.Payout.{
  RequestPayoutDecision, lock, RequestPayoutInput, allocation_of, decide_request_payout,
}
use kirimkode_partner.Payout.Request.{Distinct, request-LocksWhole}
use kirimkode_partner.Settlement.{
  Store, find_earning_by_id, move_earning, update_earning_status, append_transaction, commit,
  advance, ReleaseHoldResult, carry_release, release_found, ReverseEarningResult, carry_reversal,
  reverse_found,
}
use kirimkode_partner.Settlement.Rows.{update-All}
use kirimkode_partner.Settlement.Agreement.{IsRead}
use kirimkode_partner.Settlement.Payouts.{
  PayoutRequestResult, lock_rows, commit_lock, carry_request, request_of,
}
use kirimkode_partner.Settlement.Payouts.Locks.{lock-All}

-- The rows of the current store have their own amounts.
same_amounts :
    (id : Text) (e : EarningState) (es : List EarningState)
    → All (λ x. x.id ≢ id) es
    → All (λ r. r.id ≡ id → r.amount_idr ≡ e.amount_idr) es
same_amounts id e [] d = tt
same_amounts id e (r ∷ es) d = ((λ q. absurd (d.0 q)), same_amounts id e es d.1)

pub own_amounts :
    (id : Text) (e : EarningState) (es : List EarningState)
    → Distinct es
    → find_earning_by_id id es ≡ some e
    → All (λ r. r.id ≡ id → r.amount_idr ≡ e.amount_idr) es
unfolding find_earning_by_id
own_amounts id e [] d h = tt
own_amounts id e (x ∷ es) d h = elim (Bool-cases (eq_text x.id id)) [
  | inl y ↦ (
    (λ q. ground (arith, y)),
    same_amounts id e es (subst (λ k. All (λ r. r.id ≢ k) es) ((eq_text_iff x.id id).0 y) d.0),
  )
  | inr n ↦ (
    (λ q. absurd (ground (arith, n, eq_text_iff x.id id, q))),
    own_amounts id e es d.1 (ground (arith, n)),
  )
]

pub current-IsRead : (s : Store) → Distinct s.earnings → IsRead s.earnings s
current-IsRead s d id e h = own_amounts id e s.earnings d h

-- A predicate that moves of the status keep.
abbrev pub IsStable : (EarningState → Type 0) → Type 0
IsStable P = (e : EarningState) (status : EarningStatus) → P e → P (move_earning e status)

module _ (P : EarningState → Type 0) (stable : IsStable P) where
  commit-All :
      (id : Text) (from next : EarningStatus) (t : LedgerTransaction) (s s' : Store) (b : Bool)
      (o : Option (List EarningState))
      → Distinct s.earnings
      → update_earning_status id from next s.earnings ≡ o
      → commit t s o ≡ ok (b, s')
      → All P s.earnings
      → All P s'.earnings
  unfolding commit
  commit-All id from next t s s' b none d u h p = let same : s' ≡ s = ground arith in rw same p
  commit-All id from next t s s' b (some es) d u h p =
      let (ledger, a, e) = bind_returns (append_transaction t s.ledger) _ h in
      let same : s'.earnings ≡ es = ground arith in
      rw same
        (update-All P P id from next s.earnings es (λ e _ p. p) (λ e _ _ p. stable e next p) d p u)

  carry_release-All :
      (id : Text) (dec : ReleaseHoldDecision) (s s' : Store) (r : ReleaseHoldResult)
      → Distinct s.earnings
      → carry_release id dec s ≡ ok (r, s')
      → All P s.earnings
      → All P s'.earnings
  unfolding carry_release advance
  carry_release-All id (ReleaseHoldDecision.no_change k) s s' r d h p =
      let same : s' ≡ s = ground arith in rw same p
  carry_release-All id (ReleaseHoldDecision.reject x k) s s' r d h p =
      let same : s' ≡ s = ground arith in rw same p
  carry_release-All id (release k t) s s' r d h p =
      let o = update_earning_status id pending available s.earnings in
      let ((b, s''), w, x) = bind_returns (commit t s o) _ h in
      let same : s' ≡ s'' = ground arith in
      rw same (commit-All id pending available t s s'' b o d refl w p)

  pub release_found-All :
      (id : Text) (now : Number) (dispute : Bool) (s s' : Store) (r : ReleaseHoldResult)
      (o : Option EarningState)
      → Distinct s.earnings
      → release_found id now dispute s o ≡ ok (r, s')
      → All P s.earnings
      → All P s'.earnings
  unfolding release_found
  release_found-All id now dispute s s' r none d h p = let same : s' ≡ s = ground arith in rw same p
  release_found-All id now dispute s s' r (some e) d h p =
      let (dec, c, w) = bind_returns (decide_hold_release e now dispute) _ h in
      carry_release-All id dec s s' r d w p

  carry_reversal-All :
      (id : Text) (from : EarningStatus) (dec : ReverseEarningDecision) (s s' : Store)
      (r : ReverseEarningResult)
      → Distinct s.earnings
      → carry_reversal id from dec s ≡ ok (r, s')
      → All P s.earnings
      → All P s'.earnings
  unfolding carry_reversal advance
  carry_reversal-All id from (ReverseEarningDecision.no_change k) s s' r d h p =
      let same : s' ≡ s = ground arith in rw same p
  carry_reversal-All id from (ReverseEarningDecision.reject x k) s s' r d h p =
      let same : s' ≡ s = ground arith in rw same p
  carry_reversal-All id from (reconciliation_required k) s s' r d h p =
      let same : s' ≡ s = ground arith in rw same p
  carry_reversal-All id from (reverse k t) s s' r d h p =
      let o = update_earning_status id from reversed s.earnings in
      let ((b, s''), w, x) = bind_returns (commit t s o) _ h in
      let same : s' ≡ s'' = ground arith in
      rw same (commit-All id from reversed t s s'' b o d refl w p)

  pub reverse_found-All :
      (id reason : Text) (s s' : Store) (r : ReverseEarningResult) (o : Option EarningState)
      → Distinct s.earnings
      → reverse_found id reason s o ≡ ok (r, s')
      → All P s.earnings
      → All P s'.earnings
  unfolding reverse_found
  reverse_found-All id reason s s' r none d h p = let same : s' ≡ s = ground arith in rw same p
  reverse_found-All id reason s s' r (some e) d h p =
      let (dec, c, w) = bind_returns (decide_earning_reversal e reason) _ h in
      carry_reversal-All id e.status dec s s' r d w p

  commit_lock-All :
      (x : Number) (t : LedgerTransaction) (sel : List EarningState) (s s' : Store)
      (r : PayoutRequestResult) (o : Result Text (List EarningState))
      → Distinct s.earnings
      → lock_rows (map allocation_of sel) s.earnings ≡ o
      → commit_lock x t s o ≡ ok (r, s')
      → All P s.earnings
      → All P s'.earnings
  unfolding commit_lock
  commit_lock-All x t sel s s' r (err id) d u h p = let same : s' ≡ s = ground arith in rw same p
  commit_lock-All x t sel s s' r (ok es) d u h p =
      let (ledger, a, e) = bind_returns (append_transaction t s.ledger) _ h in
      let same : s'.earnings ≡ es = ground arith in
      let (_, q) =
        lock-All P sel s.earnings es (λ e _ p. stable e EarningStatus.requested p) d p u in
      rw same q

  carry_request-All :
      (i : RequestPayoutInput) (dec : RequestPayoutDecision) (s s' : Store)
      (r : PayoutRequestResult)
      → Distinct s.earnings
      → decide_request_payout i ≡ ok dec
      → carry_request dec s ≡ ok (r, s')
      → All P s.earnings
      → All P s'.earnings
  unfolding carry_request
  carry_request-All i (RequestPayoutDecision.reject code) s s' r d c h p =
      let same : s' ≡ s = ground arith in rw same p
  carry_request-All i (lock key x as' t) s s' r d c h p =
      let w = request-LocksWhole i c in
      commit_lock-All x t i.earnings s s' r (lock_rows as' s.earnings) d
        (ap (λ z. lock_rows z s.earnings) (sym w.whole)) h p

  pub request_of-All :
      (payout_id : Text) (minimum : Option Number) (s s' : Store) (r : PayoutRequestResult)
      (o : Result Text (List EarningState))
      → Distinct s.earnings
      → request_of payout_id minimum s o ≡ ok (r, s')
      → All P s.earnings
      → All P s'.earnings
  unfolding request_of
  request_of-All payout_id minimum s s' r (err id) d h p =
      let same : s' ≡ s = ground arith in rw same p
  request_of-All payout_id minimum s s' r (ok sel) d h p =
      let i : RequestPayoutInput = record {
        payout_id = payout_id;
        earnings = sel;
        minimum_idr = minimum;
      } in
      let (dec, c, w) = bind_returns (decide_request_payout i) _ h in
      carry_request-All i dec s s' r d c w p
