-- ===== src/Review/Steps.antt =====
-- Lemmas on books in which a decided transition of a payout was carried out.
use mathlib.Core.Path.{subst}
use kirimkode_partner.Base.{
  ℕ, ◌≡◌, refl, sym, ap, ◌∙◌, inl, inr, true, false, some, List, ◌∷◌, ◌++◌, arith, All, ok,
}
use kirimkode_partner.Int.{pos}
use kirimkode_partner.Number.{num}
use kirimkode_partner.Ledger.{LedgerTransaction, payout_paid_event_key, payout_unlock_event_key}
use kirimkode_partner.Ledger.Transaction.{amount_of}
use kirimkode_partner.Earning.{EarningStatus}
use kirimkode_partner.Payout.{
  PayoutState, PayoutCommand, AppliedPayout, apply, decide_payout_transition,
  is_terminal_payout_status,
}
use kirimkode_partner.Payout.Transition.{
  applied_follows_workflow, applied_moves_money, Settles-cases, Workflow, Paid, Unlocked,
}
use kirimkode_partner.Settlement.{has_key}
use kirimkode_partner.Settlement.Agreement.{append_new}
use kirimkode_partner.Review.Rows.{PayoutRow, Books}
use kirimkode_partner.Review.{advanced, move_allocated, release_allocations, append_if}
use kirimkode_partner.Review.Moves.{IsHeld, allocation_sum, AllDiffer, Moved, move_allocated-Moved}
use kirimkode_partner.Review.Invariant.{
  held_as, is_cancelled, payout_ids, IsBacked, IsOpenEnded, IsBooked,
}
use kirimkode_partner.Review.Settles.{ids-append, Advanced, release_split}
use kirimkode_partner.Review.Replaced.{AddsOwnEnd, replaced-IsBooked}
use kirimkode_partner.Review.Ends.{
  IsEnd, paid_of, unlock_of, paid-IsEnd, unlock-IsEnd, end-AddsOwnEnd, end_is_new, ended-IsSettled,
}
use kirimkode_partner.Review.Transitions.{
  IsReadPayout, Edge-open, open_held, Workflow-is_open, Transitioned, row_read, row_of,
  own_AllDiffer,
}

module _ (q : PayoutState) (a : AppliedPayout) (b b' : Books) (ps : List PayoutRow) (i : IsBooked b)
    (d : Advanced q.id q.status a.next_status a.payment_reference b.payouts ps)
    (t : Transitioned a q ps b b') (read : IsReadPayout q b.payouts)
    (unsettled : is_terminal_payout_status q.status ≡ false) where
  row-IsBacked : IsBacked b.store.earnings d.row
  row-IsBacked = row_of (IsBacked b.store.earnings) d.before d.behind d.row b.payouts d.was i.backed

  row_unreleased : d.row.released ≡ false
  row_unreleased =
      row-IsBacked.cancelled ∙ ap is_cancelled d.status_eq ∙ (open_held q.status unsettled).0

  row-IsHeld : All (IsHeld b.store.earnings EarningStatus.requested) d.row.payout.allocations
  row-IsHeld =
      subst (λ s. All (IsHeld b.store.earnings s) d.row.payout.allocations)
        (ap held_as d.status_eq ∙ (open_held q.status unsettled).1)
        (row-IsBacked.held row_unreleased)

  row-IsOpenEnded : IsOpenEnded b.store.ledger d.row
  row-IsOpenEnded =
      row_of (IsOpenEnded b.store.ledger) d.before d.behind d.row b.payouts d.was i.open_ended

  -- A step of the workflow.
  Workflow-IsBooked : Workflow a → is_terminal_payout_status a.next_status ≡ false → IsBooked b'
  Workflow-IsBooked w o =
      let (uncancelled, requested) = open_held a.next_status o in
      let same : b' ≡ record {
        store = b.store;
        payouts = d.before ++ advanced d.row a.next_status a.payment_reference ∷ d.behind;
      } =
        let l : t.ledger ≡ b.store.ledger = ground (arith, t.appended, w.1) in
        ground (arith, t.left, d.now, w.0, l) in
      rw same (
        replaced-IsBooked b b.store d.before d.behind d.row
          (advanced d.row a.next_status a.payment_reference) i d.was row_unreleased refl refl
          i.settled (λ k _. refl) (λ id _. ((λ h. h), (λ h. h)))
          (record {
            cancelled = row_unreleased ∙ sym uncancelled;
            held = λ _.
                subst (λ s. All (IsHeld b.store.earnings s) d.row.payout.allocations)
                  (sym requested) row-IsHeld;
            whole = row-IsBacked.whole;
          })
          (λ _. row-IsOpenEnded (ap is_terminal_payout_status d.status_eq ∙ unsettled)))

  -- The end of a payout.
  end_AllMoved :
      (next : EarningStatus)
      → Moved next d.row.payout.allocations b.store.earnings
          (move_allocated next d.row.payout.allocations b.store.earnings)
  end_AllMoved next =
      move_allocated-Moved next d.row.payout.allocations b.store.earnings i.settled.distinct
        (own_AllDiffer d.before d.behind d.row b.payouts d.was row_unreleased i.disjoint) row-IsHeld

  row_sum : (n : ℕ) → q.amount_idr ≡ num n → allocation_sum d.row.payout.allocations ≡ pos n
  row_sum n e =
      let (_, m) = row_read q d.before d.behind d.row b.payouts d.was d.id_eq read in
      sym row-IsBacked.whole ∙ ap amount_of (m ∙ e)

  end_fresh :
      (k : LedgerTransaction) (next : EarningStatus) (n : ℕ)
      → IsEnd q.id next n k
      → has_key k.event_key b.store.ledger ≡ false
  end_fresh k next n e =
      let (x, y) = row-IsOpenEnded (ap is_terminal_payout_status d.status_eq ∙ unsettled) in
      end_is_new q.id next n k e b.store.ledger
        (subst (λ z. has_key (payout_paid_event_key z) b.store.ledger ≡ false) d.id_eq x)
        (subst (λ z. has_key (payout_unlock_event_key z) b.store.ledger ≡ false) d.id_eq y)

  end_ledger :
      (k : LedgerTransaction) (next : EarningStatus) (n : ℕ)
      → IsEnd q.id next n k
      → a.transaction ≡ some k
      → t.ledger ≡ k ∷ b.store.ledger
  end_ledger k next n e m =
      append_new k b.store.ledger t.ledger (end_fresh k next n e)
        (subst (λ z. append_if z b.store.ledger ≡ ok t.ledger) m t.appended)

  -- The row that an end leaves, wherever it stands among the others.
  end-IsBooked :
      (k : LedgerTransaction) (next : EarningStatus) (n : ℕ) (row : PayoutRow)
      → IsEnd q.id next n k
      → q.amount_idr ≡ num n
      → row.payout.id ≡ d.row.payout.id
      → row.payout.allocations ≡ d.row.payout.allocations
      → row.payout.amount_idr ≡ d.row.payout.amount_idr
      → row.released ≡ is_cancelled row.payout.status
      → (row.released ≡ false → held_as row.payout.status ≡ next)
      → is_terminal_payout_status row.payout.status ≡ true
      → b' ≡ record {
        store = record {
          earnings = move_allocated next d.row.payout.allocations b.store.earnings;
          ledger = k ∷ b.store.ledger;
        };
        payouts = d.before ++ row ∷ d.behind;
      }
      → IsBooked b'
  end-IsBooked k next n row e m same_id same_allocations same_amount gone as_next ended left =
      let own = d.row.payout.allocations in
      let es' = move_allocated next own b.store.earnings in
      let moved = end_AllMoved next in
      rw left (
        replaced-IsBooked b (record { earnings = es'; ledger = k ∷ b.store.ledger }) d.before
          d.behind d.row row i d.was row_unreleased same_id same_allocations
          (ended-IsSettled q.id next n k e own b.store es' i.settled (row_sum n m) moved)
          moved.others
          (subst (λ z. AddsOwnEnd z b.store.ledger (k ∷ b.store.ledger)) (sym d.id_eq)
            (end-AddsOwnEnd q.id next n k e b.store.ledger))
          (record {
            cancelled = gone;
            held = λ r.
                subst (λ x. All (IsHeld es' (held_as row.payout.status)) x) (sym same_allocations)
                  (subst (λ s. All (IsHeld es' s) own) (sym (as_next r)) moved.held);
            whole =
                ap amount_of same_amount
                ∙ row-IsBacked.whole
                ∙ ap allocation_sum (sym same_allocations);
          })
          (λ o. absurd (ground (arith, o, ended))))

  own_allocations : d.row.payout.allocations ≡ q.allocations
  own_allocations = (row_read q d.before d.behind d.row b.payouts d.was d.id_eq read).0

  released_payouts :
      release_allocations q.id ps
      ≡ d.before
        ++ record (advanced d.row a.next_status a.payment_reference) { released = true } ∷ d.behind
  released_payouts =
      let row = advanced d.row a.next_status a.payment_reference in
      let unique : AllDiffer (payout_ids (d.before ++ row ∷ d.behind)) =
        subst AllDiffer
          (ap payout_ids d.was
            ∙ ids-append d.before (d.row ∷ d.behind)
            ∙ sym (ids-append d.before (row ∷ d.behind)))
          i.unique in
      ap (λ z. release_allocations z ps) (sym d.id_eq)
      ∙ ap (λ z. release_allocations d.row.payout.id z) d.now
      ∙ release_split row d.before d.behind unique

  Paid-IsBooked : (n : ℕ) → q.amount_idr ≡ num n → Paid q a n → IsBooked b'
  Paid-IsBooked n m (next, moves, money) =
      end-IsBooked (paid_of q.id n) EarningStatus.paid n
        (advanced d.row a.next_status a.payment_reference) (paid-IsEnd q.id n) m refl refl refl
        (row_unreleased ∙ ap is_cancelled (sym next)) (λ _. ap held_as next)
        (ap is_terminal_payout_status next)
        (t.left
          ∙ rw
              (
                moves,
                end_ledger (paid_of q.id n) EarningStatus.paid n (paid-IsEnd q.id n) money,
                d.now,
                own_allocations,
              )
              refl)

  cancelled-IsBooked : (n : ℕ) → q.amount_idr ≡ num n → Unlocked q a n → IsBooked b'
  cancelled-IsBooked n m (next, moves, money) =
      end-IsBooked (unlock_of q.id n) EarningStatus.available n
        (record (advanced d.row a.next_status a.payment_reference) { released = true })
        (unlock-IsEnd q.id n) m refl refl refl (ground (arith, next)) (λ z. cc)
        (ground (arith, next))
        (t.left
          ∙ rw
              (
                moves,
                end_ledger (unlock_of q.id n) EarningStatus.available n (unlock-IsEnd q.id n) money,
                released_payouts,
                own_allocations,
              )
              refl)

pub applied-IsBooked :
    (q : PayoutState) (c : PayoutCommand) (a : AppliedPayout) (b b' : Books) (ps : List PayoutRow)
    → decide_payout_transition q c ≡ ok (apply a)
    → IsBooked b
    → IsReadPayout q b.payouts
    → Advanced q.id q.status a.next_status a.payment_reference b.payouts ps
    → Transitioned a q ps b b'
    → IsBooked b'
applied-IsBooked q c a b b' ps h i read d t =
    let edge = applied_follows_workflow q c a h in
    let unsettled = Edge-open edge in
    elim (Settles-cases q c a (applied_moves_money q c a h)) [
      | inl w ↦
          Workflow-IsBooked q a b b' ps i d t read unsettled w (Workflow-is_open q c a h edge w)
      | inr (n, m, _, _, inl paid) ↦ Paid-IsBooked q a b b' ps i d t read unsettled n m paid
      | inr (n, m, _, _, inr gone) ↦ cancelled-IsBooked q a b b' ps i d t read unsettled n m gone
    ]
