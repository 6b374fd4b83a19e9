-- ===== src/Review/Commands.antt =====
-- Lemmas on the commands of src/application/ledger/earning-lifecycle-service.ts on the books.
use mathlib.Core.Path.{subst}
use kirimkode_partner.Base.{
  ℕ, ◌≡◌, refl, sym, ap, ◌∙◌, ◌≢◌, ◌⊎◌, inl, inr, Bool, false, Option, none, some, List, ◌∷◌, arith,
  Bool-cases, ok, bind_returns,
}
use kirimkode_partner.Number.{Number}
use kirimkode_partner.Text.{Text, eq_text, eq_text_iff}
use kirimkode_partner.Ledger.{
  LedgerTransaction, assert_zero_sum_entries, hold_release_event_key, earning_reversal_event_key,
  payout_paid_event_key, payout_unlock_event_key,
}
use kirimkode_partner.Earning.{
  EarningStatus, pending, available, reversed, EarningState, release, ReleaseHoldDecision,
  decide_hold_release, ReverseEarningDecision, reverse, reconciliation_required,
  decide_earning_reversal,
}
use kirimkode_partner.Earning.Lifecycle.{
  Releases, earning_release_iff, release_transfer, Reverses, reverse_iff, reversal_transfer,
}
use kirimkode_partner.Payout.Request.{Distinct}
use kirimkode_partner.Settlement.{
  Store, find_earning_by_id, update_earning_status, has_key, append_transaction, commit, advance,
  ReleaseHoldResult, carry_release, release_found, lifecycle_release_hold, ReverseEarningResult,
  carry_reversal, reverse_found, lifecycle_reverse_earning,
}
use kirimkode_partner.Settlement.Agreement.{IsSettled}
use kirimkode_partner.Settlement.Moved.{find_id}
use kirimkode_partner.Review.Rows.{Books}
use kirimkode_partner.Review.Moves.{update_found, find_other, IsHeld-same}
use kirimkode_partner.Review.Invariant.{IsBooked, Carries, stored-IsBooked}

-- A row that is pending or available is moved, with a transaction of the given key.
record Moves (id key : Text) (s s' : Store) : Type 0 where
  from : EarningStatus
  to : EarningStatus
  early : (from ≡ pending) ⊎ (from ≡ available)
  transaction : LedgerTransaction
  moved : update_earning_status id from to s.earnings ≡ some s'.earnings
  keyed : transaction.event_key ≡ key
  appended : append_transaction transaction s.ledger ≡ ok s'.ledger

append_cases :
    (t : LedgerTransaction) (l l' : List LedgerTransaction)
    → append_transaction t l ≡ ok l'
    → (l' ≡ l) ⊎ (l' ≡ t ∷ l)
unfolding append_transaction
append_cases t l l' h =
    let (_, _, e) = bind_returns (assert_zero_sum_entries t.entries) _ h in
    elim (Bool-cases (has_key t.event_key l)) [
      | inl y ↦ inl (ground (arith, y))
      | inr n ↦ inr (ground (arith, n))
    ]

key_kept :
    (k : Text) (t : LedgerTransaction) (l l' : List LedgerTransaction)
    → append_transaction t l ≡ ok l'
    → eq_text t.event_key k ≡ false
    → has_key k l ≡ false
    → has_key k l' ≡ false
key_kept k t l l' a e h = elim (append_cases t l l' a) [
  | inl same ↦ rw same h
  | inr more ↦ rw (more, e) h
]

early_is_unheld :
    (x y : EarningState) (from s : EarningStatus)
    → (from ≡ pending) ⊎ (from ≡ available)
    → (s ≡ EarningStatus.requested) ⊎ (s ≡ EarningStatus.paid)
    → x.status ≡ from
    → y.status ≡ s
    → x ≢ y
early_is_unheld x y from s c d p q e = ground (arith, c, d, p, q, ap (λ z. z.status) e)

update-Carries :
    (id : Text) (from to : EarningStatus) (es es' : List EarningState)
    → (from ≡ pending) ⊎ (from ≡ available)
    → Distinct es
    → update_earning_status id from to es ≡ some es'
    → Carries es es'
update-Carries id from to es es' c d u s a k (e, f, p, m) =
    elim (Bool-cases (eq_text a.earning_id id)) [
      | inl y ↦
          let (x, g, q, _) = update_found id from to es es' d u in
          let same : x ≡ e = ground (arith, (eq_text_iff a.earning_id id).0 y, f, g) in
          absurd (early_is_unheld x e from s c k q p same)
      | inr n ↦
          IsHeld-same es es' s a
            (find_other id from to a.earning_id es es'
              (λ z. ground (arith, n, (eq_text_iff a.earning_id id).1 z)) u)
            (e, f, p, m)
    ]

Moves-IsBooked :
    (id key : Text) (b : Books) (s : Store)
    → ((k : Text)
        → (eq_text key (payout_paid_event_key k) ≡ false)
          × (eq_text key (payout_unlock_event_key k) ≡ false))
    → IsBooked b
    → IsSettled s
    → Moves id key b.store s
    → IsBooked (record b { store = s })
Moves-IsBooked id key b s differ i j m =
    stored-IsBooked b s i j
      (update-Carries id m.from m.to b.store.earnings s.earnings m.early i.settled.distinct m.moved)
      (λ k. (
        key_kept (payout_paid_event_key k) m.transaction b.store.ledger s.ledger m.appended
            (rw m.keyed (differ k).0),
        key_kept (payout_unlock_event_key k) m.transaction b.store.ledger s.ledger m.appended
            (rw m.keyed (differ k).1),
      ))

commit_moved :
    (t : LedgerTransaction) (s s' : Store) (b : Bool) (o : Option (List EarningState))
    → commit t s o ≡ ok (b, s')
    → (s' ≡ s) ⊎ ((o ≡ some s'.earnings) × (append_transaction t s.ledger ≡ ok s'.ledger))
unfolding commit
commit_moved t s s' b none h = inl (ground arith)
commit_moved t s s' b (some es) h =
    let (ledger, a, e) = bind_returns (append_transaction t s.ledger) _ h in
    inr (ground arith, ground (arith, a))

release_keyed : (id : Text) (n : ℕ) → (release_transfer id n).event_key ≡ hold_release_event_key id
unfolding release_transfer
release_keyed id n = refl

reversal_keyed :
    (from : EarningStatus) (id : Text) (n : ℕ)
    → (reversal_transfer from id n).event_key ≡ earning_reversal_event_key id
unfolding reversal_transfer
reversal_keyed from id n = refl

carry_release_moved :
    (e : EarningState) (now : Number) (dispute : Bool) (d : ReleaseHoldDecision) (s s' : Store)
    (r : ReleaseHoldResult)
    → decide_hold_release e now dispute ≡ ok d
    → carry_release e.id d s ≡ ok (r, s')
    → (s' ≡ s) ⊎ Moves e.id (hold_release_event_key e.id) s s'
unfolding carry_release advance
carry_release_moved e now dispute (ReleaseHoldDecision.no_change k) s s' r c h = inl (ground arith)
carry_release_moved e now dispute (ReleaseHoldDecision.reject x k) s s' r c h = inl (ground arith)
carry_release_moved e now dispute (release k t) s s' r c h =
    let due : Releases e now dispute k t = (earning_release_iff e now dispute k t).0 c in
    let o = update_earning_status e.id pending available s.earnings in
    let ((b, s''), w, x) = bind_returns (commit t s o) _ h in
    let same : s'' ≡ s' = ground arith in
    elim (commit_moved t s s' b o (subst (λ z. commit t s o ≡ ok (b, z)) same w)) [
      | inl e ↦ inl e
      | inr (moved, a) ↦ inr record {
        from = pending;
        to = available;
        early = inl refl;
        transaction = t;
        moved = moved;
        keyed = ap (λ z. z.event_key) due.moved ∙ release_keyed e.id due.amount;
        appended = a;
      }
    ]

release_found_moved :
    (id : Text) (now : Number) (dispute : Bool) (s s' : Store) (r : ReleaseHoldResult)
    (o : Option EarningState)
    → ((e : EarningState) → o ≡ some e → e.id ≡ id)
    → release_found id now dispute s o ≡ ok (r, s')
    → (s' ≡ s) ⊎ Moves id (hold_release_event_key id) s s'
unfolding release_found
release_found_moved id now dispute s s' r none f h = inl (ground arith)
release_found_moved id now dispute s s' r (some e) f h =
    let (d, c, w) = bind_returns (decide_hold_release e now dispute) _ h in
    subst (λ k. (s' ≡ s) ⊎ Moves k (hold_release_event_key k) s s') (f e refl)
      (carry_release_moved e now dispute d s s' r c
        (subst (λ k. carry_release k d s ≡ ok (r, s')) (sym (f e refl)) w))

carry_reversal_moved :
    (e : EarningState) (reason : Text) (d : ReverseEarningDecision) (s s' : Store)
    (r : ReverseEarningResult)
    → decide_earning_reversal e reason ≡ ok d
    → carry_reversal e.id e.status d s ≡ ok (r, s')
    → (s' ≡ s) ⊎ Moves e.id (earning_reversal_event_key e.id) s s'
unfolding carry_reversal advance
carry_reversal_moved e reason (ReverseEarningDecision.no_change k) s s' r c h = inl (ground arith)
carry_reversal_moved e reason (ReverseEarningDecision.reject x k) s s' r c h = inl (ground arith)
carry_reversal_moved e reason (reconciliation_required k) s s' r c h = inl (ground arith)
carry_reversal_moved e reason (reverse k t) s s' r c h =
    let back : Reverses e reason k t = (reverse_iff e reason k t).0 c in
    let o = update_earning_status e.id e.status reversed s.earnings in
    let ((b, s''), w, x) = bind_returns (commit t s o) _ h in
    let same : s'' ≡ s' = ground arith in
    elim (commit_moved t s s' b o (subst (λ z. commit t s o ≡ ok (b, z)) same w)) [
      | inl e ↦ inl e
      | inr (moved, a) ↦ inr record {
        from = e.status;
        to = reversed;
        early = back.unrequested;
        transaction = t;
        moved = moved;
        keyed = ap (λ z. z.event_key) back.moved ∙ reversal_keyed e.status e.id back.amount;
        appended = a;
      }
    ]

reverse_found_moved :
    (id reason : Text) (s s' : Store) (r : ReverseEarningResult) (o : Option EarningState)
    → ((e : EarningState) → o ≡ some e → e.id ≡ id)
    → reverse_found id reason s o ≡ ok (r, s')
    → (s' ≡ s) ⊎ Moves id (earning_reversal_event_key id) s s'
unfolding reverse_found
reverse_found_moved id reason s s' r none f h = inl (ground arith)
reverse_found_moved id reason s s' r (some e) f h =
    let (d, c, w) = bind_returns (decide_earning_reversal e reason) _ h in
    subst (λ k. (s' ≡ s) ⊎ Moves k (earning_reversal_event_key k) s s') (f e refl)
      (carry_reversal_moved e reason d s s' r c
        (subst (λ k. carry_reversal k e.status d s ≡ ok (r, s')) (sym (f e refl)) w))

hold_is_no_end :
    (id k : Text)
    → (eq_text (hold_release_event_key id) (payout_paid_event_key k) ≡ false)
      × (eq_text (hold_release_event_key id) (payout_unlock_event_key k) ≡ false)
unfolding hold_release_event_key payout_paid_event_key payout_unlock_event_key
hold_is_no_end id k = (refl, refl)

reversal_is_no_end :
    (id k : Text)
    → (eq_text (earning_reversal_event_key id) (payout_paid_event_key k) ≡ false)
      × (eq_text (earning_reversal_event_key id) (payout_unlock_event_key k) ≡ false)
unfolding earning_reversal_event_key payout_paid_event_key payout_unlock_event_key
reversal_is_no_end id k = (refl, refl)

kept-IsBooked :
    (id key : Text) (b : Books) (s : Store)
    → ((k : Text)
        → (eq_text key (payout_paid_event_key k) ≡ false)
          × (eq_text key (payout_unlock_event_key k) ≡ false))
    → IsBooked b
    → IsSettled s
    → (s ≡ b.store) ⊎ Moves id key b.store s
    → IsBooked (record b { store = s })
kept-IsBooked id key b s differ i j (inl same) = rw same i
kept-IsBooked id key b s differ i j (inr m) = Moves-IsBooked id key b s differ i j m

-- A hold release that leaves the store settled leaves the books in order.
pub release_hold-IsBooked :
    (seen : List EarningState) (id : Text) (now : Number) (dispute : Bool) (b : Books) (s : Store)
    (r : ReleaseHoldResult)
    → IsBooked b
    → IsSettled s
    → lifecycle_release_hold seen id now dispute b.store ≡ ok (r, s)
    → IsBooked (record b { store = s })
unfolding lifecycle_release_hold
release_hold-IsBooked seen id now dispute b s r i j h =
    kept-IsBooked id (hold_release_event_key id) b s (hold_is_no_end id) i j (
      release_found_moved id now dispute b.store s r (find_earning_by_id id seen) (find_id id seen)
        h)

-- So does a reversal.
pub reverse_earning-IsBooked :
    (seen : List EarningState) (id reason : Text) (b : Books) (s : Store) (r : ReverseEarningResult)
    → IsBooked b
    → IsSettled s
    → lifecycle_reverse_earning seen id reason b.store ≡ ok (r, s)
    → IsBooked (record b { store = s })
unfolding lifecycle_reverse_earning
reverse_earning-IsBooked seen id reason b s r i j h =
    kept-IsBooked id (earning_reversal_event_key id) b s (reversal_is_no_end id) i j
      (reverse_found_moved id reason b.store s r (find_earning_by_id id seen) (find_id id seen) h)
