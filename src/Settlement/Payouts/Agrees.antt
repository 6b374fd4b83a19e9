-- ===== src/Settlement/Payouts/Agrees.antt =====
-- The request of src/application/payout-request-service.ts on a settled store.
use mathlib.Core.Path.{subst}
use kirimkode_partner.Base.{
  ℕ, ◌≡◌, refl, sym, ap, ◌∙◌, false, Option, none, some, List, [], ◌∷◌, map, arith, All, All-map,
  Result, ok, err, bind_returns,
}
use kirimkode_partner.Int.{pos, ◌+ℤ◌}
use kirimkode_partner.Number.{Number}
use kirimkode_partner.Text.{Text, eq_text}
use kirimkode_partner.Ledger.{
  LedgerTransaction, hold_release_event_key, earning_reversal_event_key, payout_lock_event_key,
}
use kirimkode_partner.Ledger.Transaction.{amount_of}
use kirimkode_partner.Earning.{EarningStatus, EarningState}
use kirimkode_partner.Payout.{RequestPayoutDecision, lock, allocation_of, decide_request_payout}
use kirimkode_partner.Settlement.{Store, eq_status, find_earning_by_id, has_key, append_transaction}
use kirimkode_partner.Payout.Request.{earning_sum, request-LocksWhole, lock_transfer}
use kirimkode_partner.Settlement.Rows.{status_sum, part, HasAmount}
use kirimkode_partner.Settlement.Agreement.{
  IsUnreleased, IsUnreversed, IsSettled, IsRead, moved_agrees, append_new,
}
use kirimkode_partner.Settlement.Moved.{find_id}
use kirimkode_partner.Settlement.Payouts.{
  PayoutRequestResult, read_before, read_earnings, lock_rows, commit_lock, carry_request,
  request_of, request_payout,
}
use kirimkode_partner.Settlement.Payouts.Locks.{AreRead, lock-All, lock-status_sum}

lock_is_other :
    (a b : Text)
    → (eq_text (payout_lock_event_key a) (hold_release_event_key b) ≡ false)
      × (eq_text (payout_lock_event_key a) (earning_reversal_event_key b) ≡ false)
unfolding hold_release_event_key earning_reversal_event_key payout_lock_event_key
lock_is_other a b = (refl, refl)

read_both :
    (id : Text) (o : Option EarningState) (r : Result Text (List EarningState))
    (sel : List EarningState)
    → read_before id o r ≡ ok sel
    → (e : EarningState) × (rest : List EarningState) × (o ≡ some e)
      × (r ≡ ok rest)
      × (sel ≡ e ∷ rest)
read_both id none r sel h = absurd (ground arith)
read_both id (some e) r sel h =
    let (rest, p, q) = bind_returns r _ h in (e, rest, refl, p, ground arith)

-- What was read from rows with the amounts of now.
pub read-AreRead :
    (ids : List Text) (seen sel : List EarningState) (s : Store)
    → IsRead seen s
    → read_earnings ids seen ≡ ok sel
    → AreRead sel s.earnings
unfolding read_earnings
read-AreRead [] seen sel s a h = let same : sel ≡ [] = ground arith in rw same tt
read-AreRead (id ∷ ids) seen sel s a h =
    let (e, rest, f, r, same) =
      read_both id (find_earning_by_id id seen) (read_earnings ids seen) sel h in
    let q = find_id id seen e f in
    rw same (
      subst (λ k. All (HasAmount k (amount_of e.amount_idr)) s.earnings) (sym q)
          (All-map (λ x. x.id ≡ id → x.amount_idr ≡ e.amount_idr)
            (HasAmount id (amount_of e.amount_idr)) s.earnings (λ x p z. ap amount_of (p z))
            (a id e f)),
      read-AreRead ids seen rest s a r,
    )

-- The rows of a selection are locked and its event is appended.
locked-IsSettled :
    (payout_id : Text) (n : ℕ) (sel es : List EarningState) (s : Store)
    → IsSettled s
    → AreRead sel s.earnings
    → earning_sum sel ≡ pos n
    → lock_rows (map allocation_of sel) s.earnings ≡ ok es
    → IsSettled (record { earnings = es; ledger = lock_transfer payout_id n ∷ s.ledger })
unfolding lock_transfer
locked-IsSettled payout_id n sel es s i a sum h =
    let (distinct, unreleased) =
      lock-All (IsUnreleased s.ledger) sel s.earnings es (λ e _ _ z. absurd (ground arith))
        i.distinct i.unreleased h in
    let (_, unreversed) =
      lock-All (IsUnreversed s.ledger) sel s.earnings es
        (λ e w p _. p (λ z. absurd (ground (arith, w, z)))) i.distinct i.unreversed h in
    record {
      distinct = distinct;
      agrees =
          moved_agrees EarningStatus.available EarningStatus.requested n (lock_transfer payout_id n)
            s es refl i.agrees
            (λ status.
              subst
                (λ z.
                  status_sum status es +ℤ part (eq_status status EarningStatus.available) z
                  ≡ status_sum status s.earnings
                    +ℤ part (eq_status status EarningStatus.requested) z)
                sum (lock-status_sum status sel s.earnings es i.distinct a h));
      unreleased =
          All-map (IsUnreleased s.ledger) (IsUnreleased (lock_transfer payout_id n ∷ s.ledger)) es
            (λ e p z. rw (lock_is_other payout_id e.id).0 (p z)) unreleased;
      unreversed =
          All-map (IsUnreversed s.ledger) (IsUnreversed (lock_transfer payout_id n ∷ s.ledger)) es
            (λ e p z. rw (lock_is_other payout_id e.id).1 (p z)) unreversed;
    }

pub keyed_lock :
    (payout_id : Text) (n : ℕ) (s : Store)
    → has_key (payout_lock_event_key payout_id) s.ledger ≡ false
    → has_key (lock_transfer payout_id n).event_key s.ledger ≡ false
unfolding lock_transfer
keyed_lock payout_id n s h = h

committed-IsSettled :
    (x : Number) (t : LedgerTransaction) (s s' : Store) (o : Result Text (List EarningState))
    (r : PayoutRequestResult)
    → IsSettled s
    → has_key t.event_key s.ledger ≡ false
    → ((es : List EarningState)
        → o ≡ ok es
        → IsSettled (record { earnings = es; ledger = t ∷ s.ledger }))
    → commit_lock x t s o ≡ ok (r, s')
    → IsSettled s'
unfolding commit_lock
committed-IsSettled x t s s' (err id) r i k f h = let same : s' ≡ s = ground arith in rw same i
committed-IsSettled x t s s' (ok es) r i k f h =
    let (ledger, a, e) = bind_returns (append_transaction t s.ledger) _ h in
    let new : ledger ≡ t ∷ s.ledger = append_new t s.ledger ledger k a in
    let same : s' ≡ record { earnings = es; ledger = t ∷ s.ledger } = ground (arith, new) in
    rw same (f es refl)

carried_request-IsSettled :
    (payout_id : Text) (minimum : Option Number) (sel : List EarningState)
    (d : RequestPayoutDecision) (s s' : Store) (r : PayoutRequestResult)
    → IsSettled s
    → has_key (payout_lock_event_key payout_id) s.ledger ≡ false
    → AreRead sel s.earnings
    → decide_request_payout
        (record { payout_id = payout_id; earnings = sel; minimum_idr = minimum })
      ≡ ok d
    → carry_request d s ≡ ok (r, s')
    → IsSettled s'
unfolding carry_request
carried_request-IsSettled payout_id minimum sel (RequestPayoutDecision.reject code) s s' r i k a c
      h =
    let same : s' ≡ s = ground arith in rw same i
carried_request-IsSettled payout_id minimum sel (lock key x as' t) s s' r i k a c h =
    let w =
      request-LocksWhole (record { payout_id = payout_id; earnings = sel; minimum_idr = minimum })
        c in
    committed-IsSettled x t s s' (lock_rows as' s.earnings) r i
      (rw w.moved (keyed_lock payout_id w.total s k))
      (λ es u. rw w.moved (
        locked-IsSettled payout_id w.total sel es s i a w.sum
          (ap (λ z. lock_rows z s.earnings) (sym w.whole) ∙ u)))
      h

pub requested-IsSettled :
    (payout_id : Text) (minimum : Option Number) (s s' : Store) (r : PayoutRequestResult)
    (o : Result Text (List EarningState))
    → IsSettled s
    → has_key (payout_lock_event_key payout_id) s.ledger ≡ false
    → ((sel : List EarningState) → o ≡ ok sel → AreRead sel s.earnings)
    → request_of payout_id minimum s o ≡ ok (r, s')
    → IsSettled s'
unfolding request_of
requested-IsSettled payout_id minimum s s' r (err id) i k a h =
    let same : s' ≡ s = ground arith in rw same i
requested-IsSettled payout_id minimum s s' r (ok sel) i k a h =
    let (d, c, w) =
      bind_returns
        (decide_request_payout
          (record { payout_id = payout_id; earnings = sel; minimum_idr = minimum }))
        _ h in
    carried_request-IsSettled payout_id minimum sel d s s' r i k (a sel refl) c w

-- A payout request with a new id keeps the earnings in agreement with the ledger, whatever has
-- become of the rows since they were read, as long as their amounts are the same.
pub request_payout-IsSettled :
    (seen : List EarningState) (ids : List Text) (payout_id : Text) (minimum : Option Number)
    (s s' : Store) (r : PayoutRequestResult)
    → IsSettled s
    → IsRead seen s
    → has_key (payout_lock_event_key payout_id) s.ledger ≡ false
    → request_payout seen ids payout_id minimum s ≡ ok (r, s')
    → IsSettled s'
unfolding request_payout
request_payout-IsSettled seen ids payout_id minimum s s' r i a k h =
    requested-IsSettled payout_id minimum s s' r (read_earnings ids seen) i k
      (λ sel e. read-AreRead ids seen sel s a e) h
