-- ===== src/Settlement/Commands.antt =====
-- The commands of src/application/earning-lifecycle-service.ts on a settled store.
use mathlib.Core.Path.{subst}
use kirimkode_partner.Base.{
  ℕ, ◌≡◌, refl, sym, ap, ◌∙◌, inl, inr, Bool, true, false, Option, none, some, List, ◌∷◌, arith,
  All, ok, bind_returns,
}
use kirimkode_partner.Number.{Number}
use kirimkode_partner.Text.{Text}
use kirimkode_partner.Ledger.{LedgerTransaction, hold_release_event_key, earning_reversal_event_key}
use kirimkode_partner.Earning.{
  EarningStatus, pending, available, reversed, EarningState, release, ReleaseHoldDecision,
  decide_hold_release, ReverseEarningDecision, reverse, reconciliation_required,
  decide_earning_reversal,
}
use kirimkode_partner.Earning.Lifecycle.{
  Releases, earning_release_iff, release_transfer, Reverses, reverse_iff, reversal_transfer,
}
use kirimkode_partner.Settlement.{
  Store, find_earning_by_id, update_earning_status, has_key, append_transaction, commit, advance,
  ReleaseHoldResult, carry_release, release_found, reverse_found, lifecycle_release_hold,
  ReverseEarningResult, carry_reversal, lifecycle_reverse_earning,
}
use kirimkode_partner.Settlement.Agreement.{IsSettled, IsRead, commit_cases}
use kirimkode_partner.Settlement.Moved.{
  find_id, amounts_read, released-IsSettled, reversed-IsSettled,
}

keyed_release :
    (id : Text) (n : ℕ) (s : Store) (es : List EarningState)
    → (has_key (hold_release_event_key id) s.ledger ≡ false)
      × IsSettled (record { earnings = es; ledger = release_transfer id n ∷ s.ledger })
    → (has_key (release_transfer id n).event_key s.ledger ≡ false)
      × IsSettled (record { earnings = es; ledger = release_transfer id n ∷ s.ledger })
unfolding release_transfer
keyed_release id n s es h = h

-- A unit that leaves the store as it was, or moves a row with its event, keeps the store settled.
commit-IsSettled :
    (t : LedgerTransaction) (s : Store) (b : Bool) (s' : Store) (o : Option (List EarningState))
    → IsSettled s
    → ((es : List EarningState)
        → o ≡ some es
        → (has_key t.event_key s.ledger ≡ false)
          × IsSettled (record { earnings = es; ledger = t ∷ s.ledger }))
    → commit t s o ≡ ok (b, s')
    → IsSettled s'
commit-IsSettled t s b s' o i moved h = elim (commit_cases t s b s' o h) [
  | inl e ↦ rw e i
  | inr (es, u, after) ↦ (let (k, j) = moved es u in rw (after k) j)
]

carried_release-IsSettled :
    (id : Text) (e : EarningState) (now : Number) (dispute : Bool) (d : ReleaseHoldDecision)
    (s s' : Store) (r : ReleaseHoldResult)
    → e.id ≡ id
    → decide_hold_release e now dispute ≡ ok d
    → IsSettled s
    → All (λ x. x.id ≡ id → x.amount_idr ≡ e.amount_idr) s.earnings
    → carry_release id d s ≡ ok (r, s')
    → IsSettled s'
unfolding carry_release advance
carried_release-IsSettled id e now dispute (ReleaseHoldDecision.no_change k) s s' r q c i a h =
    let same : s' ≡ s = ground arith in rw same i
carried_release-IsSettled id e now dispute (ReleaseHoldDecision.reject x k) s s' r q c i a h =
    let same : s' ≡ s = ground arith in rw same i
carried_release-IsSettled id e now dispute (release k t) s s' r q c i a h =
    let due : Releases e now dispute k t = (earning_release_iff e now dispute k t).0 c in
    let ((b, s''), w, x) =
      bind_returns (commit t s (update_earning_status id pending available s.earnings)) _ h in
    let same : s' ≡ s'' = ground arith in
    let moved : t ≡ release_transfer id due.amount =
      due.moved ∙ ap (λ k. release_transfer k due.amount) q in
    rw same (
      commit-IsSettled t s b s'' (update_earning_status id pending available s.earnings) i
        (λ es u.
          subst
            (λ t.
              (has_key t.event_key s.ledger ≡ false)
              × IsSettled (record { earnings = es; ledger = t ∷ s.ledger }))
            (sym moved)
            (keyed_release id due.amount s es (
              released-IsSettled id due.amount s es i
                (amounts_read id e.amount_idr due.amount s.earnings due.amount_eq a) u)))
        w)

found_release-IsSettled :
    (id : Text) (now : Number) (dispute : Bool) (s s' : Store) (r : ReleaseHoldResult)
    (o : Option EarningState)
    → IsSettled s
    → ((e : EarningState)
        → o ≡ some e
        → (e.id ≡ id) × All (λ x. x.id ≡ id → x.amount_idr ≡ e.amount_idr) s.earnings)
    → release_found id now dispute s o ≡ ok (r, s')
    → IsSettled s'
unfolding release_found
found_release-IsSettled id now dispute s s' r none i a h =
    let same : s' ≡ s = ground arith in rw same i
found_release-IsSettled id now dispute s s' r (some e) i a h =
    let (d, c, w) = bind_returns (decide_hold_release e now dispute) _ h in
    let (q, x) = a e refl in carried_release-IsSettled id e now dispute d s s' r q c i x w

-- The hold release keeps the earnings in agreement with the ledger, whatever has become of the rows
-- since they were read, as long as their amounts are the same.
pub release_hold-IsSettled :
    (seen : List EarningState) (id : Text) (now : Number) (dispute : Bool) (s s' : Store)
    (r : ReleaseHoldResult)
    → IsSettled s
    → IsRead seen s
    → lifecycle_release_hold seen id now dispute s ≡ ok (r, s')
    → IsSettled s'
unfolding lifecycle_release_hold
release_hold-IsSettled seen id now dispute s s' r i a h =
    found_release-IsSettled id now dispute s s' r (find_earning_by_id id seen) i
      (λ e f. (find_id id seen e f, a id e f)) h

keyed_reversal :
    (id : Text) (from : EarningStatus) (n : ℕ) (s : Store) (es : List EarningState)
    → (has_key (earning_reversal_event_key id) s.ledger ≡ false)
      × IsSettled (record { earnings = es; ledger = reversal_transfer from id n ∷ s.ledger })
    → (has_key (reversal_transfer from id n).event_key s.ledger ≡ false)
      × IsSettled (record { earnings = es; ledger = reversal_transfer from id n ∷ s.ledger })
unfolding reversal_transfer
keyed_reversal id from n s es h = h

carried_reversal-IsSettled :
    (id : Text) (e : EarningState) (reason : Text) (d : ReverseEarningDecision) (s s' : Store)
    (r : ReverseEarningResult)
    → e.id ≡ id
    → decide_earning_reversal e reason ≡ ok d
    → IsSettled s
    → All (λ x. x.id ≡ id → x.amount_idr ≡ e.amount_idr) s.earnings
    → carry_reversal id e.status d s ≡ ok (r, s')
    → IsSettled s'
unfolding carry_reversal advance
carried_reversal-IsSettled id e reason (ReverseEarningDecision.no_change k) s s' r q c i a h =
    let same : s' ≡ s = ground arith in rw same i
carried_reversal-IsSettled id e reason (ReverseEarningDecision.reject x k) s s' r q c i a h =
    let same : s' ≡ s = ground arith in rw same i
carried_reversal-IsSettled id e reason (reconciliation_required k) s s' r q c i a h =
    let same : s' ≡ s = ground arith in rw same i
carried_reversal-IsSettled id e reason (reverse k t) s s' r q c i a h =
    let back : Reverses e reason k t = (reverse_iff e reason k t).0 c in
    let ((b, s''), w, x) =
      bind_returns (commit t s (update_earning_status id e.status reversed s.earnings)) _ h in
    let same : s' ≡ s'' = ground arith in
    let moved : t ≡ reversal_transfer e.status id back.amount =
      back.moved ∙ ap (λ k. reversal_transfer e.status k back.amount) q in
    rw same (
      commit-IsSettled t s b s'' (update_earning_status id e.status reversed s.earnings) i
        (λ es u.
          subst
            (λ t.
              (has_key t.event_key s.ledger ≡ false)
              × IsSettled (record { earnings = es; ledger = t ∷ s.ledger }))
            (sym moved)
            (keyed_reversal id e.status back.amount s es (
              reversed-IsSettled id e.status back.amount s es back.unrequested i
                (amounts_read id e.amount_idr back.amount s.earnings back.amount_eq a) u)))
        w)

found_reversal-IsSettled :
    (id reason : Text) (s s' : Store) (r : ReverseEarningResult) (o : Option EarningState)
    → IsSettled s
    → ((e : EarningState)
        → o ≡ some e
        → (e.id ≡ id) × All (λ x. x.id ≡ id → x.amount_idr ≡ e.amount_idr) s.earnings)
    → reverse_found id reason s o ≡ ok (r, s')
    → IsSettled s'
unfolding reverse_found
found_reversal-IsSettled id reason s s' r none i a h = let same : s' ≡ s = ground arith in rw same i
found_reversal-IsSettled id reason s s' r (some e) i a h =
    let (d, c, w) = bind_returns (decide_earning_reversal e reason) _ h in
    let (q, x) = a e refl in carried_reversal-IsSettled id e reason d s s' r q c i x w

-- A reversal keeps the earnings in agreement with the ledger, whatever has become of the rows since
-- they were read, as long as their amounts are the same.
pub reverse_earning-IsSettled :
    (seen : List EarningState) (id reason : Text) (s s' : Store) (r : ReverseEarningResult)
    → IsSettled s
    → IsRead seen s
    → lifecycle_reverse_earning seen id reason s ≡ ok (r, s')
    → IsSettled s'
unfolding lifecycle_reverse_earning
reverse_earning-IsSettled seen id reason s s' r i a h =
    found_reversal-IsSettled id reason s s' r (find_earning_by_id id seen) i
      (λ e f. (find_id id seen e f, a id e f)) h

pub committed_some :
    (t : LedgerTransaction) (s s' : Store) (o : Option (List EarningState))
    → commit t s o ≡ ok (true, s')
    → (es : List EarningState) × (o ≡ some es) × (s'.earnings ≡ es)
unfolding commit
committed_some t s s' none h = absurd (ground arith)
committed_some t s s' (some es) h =
    let (ledger, a, e) = bind_returns (append_transaction t s.ledger) _ h in
    (es, refl, ground arith)
