-- ===== src/Review/Payments.antt =====
-- The payment of a payout goes through.
use mathlib.Core.Path.{subst}
use kirimkode_partner.Base.{
  ℕ, ◌≤◌, ◌≡◌, refl, sym, ap, ◌∙◌, inl, inr, true, false, Option, none, some, List, [], ◌∷◌, ◌++◌,
  arith, All, Bool-cases, ltb, ok,
}
use kirimkode_partner.Int.{pos}
use kirimkode_partner.Number.{Number, num, max_safe}
use kirimkode_partner.Text.{Text, codes, eq_text, eq_text_iff, trim, is_blank, utf16_length}
use kirimkode_partner.Text.Trim.{trim-trim, is_blank-trim}
use kirimkode_partner.Ledger.{
  LedgerTransaction, event_keys_nonblank, payout_paid, partner_payout_locked, partner_paid,
  assert_identifier, payout_paid_event_key,
}
use kirimkode_partner.Ledger.Transaction.{
  IsDoubleEntry, transfer_ok, transfer-IsDoubleEntry, zero_sum_checked, StaysExact,
  transfer-StaysExact,
}
use kirimkode_partner.Earning.{EarningStatus}
use kirimkode_partner.Payout.{
  PayoutStatus, PayoutState, mark_paid, AppliedPayout, apply, eq_payout, decide_payout_transition,
  settle_decision, paid_decision,
}
use kirimkode_partner.Settlement.{has_key, append_transaction}
use kirimkode_partner.Review.Rows.{
  PayoutRow, Books, AuthenticatedAdmin, mark_payout_paid, reviewed, payout_review_permission,
  admin_has_permission, is_uuid, max_payment_reference_length,
}
use kirimkode_partner.Review.{
  payout_command, find_payout, advanced, advance_payout, is_reference_taken, update_payout_status,
  move_allocated, assert_auditable, apply_transition, carry_transition, transition_found,
  transition_payout, review_payout,
}
use kirimkode_partner.Review.Moves.{IsHeld, move_allocated-Moved}
use kirimkode_partner.Review.Invariant.{IsBacked, IsOpenEnded, IsBooked, held_as, is_cancelled}
use kirimkode_partner.Review.Ends.{paid_of}
use kirimkode_partner.Review.Transitions.{row_of, own_AllDiffer}

find_split :
    (id : Text) (ps : List PayoutRow) (p : PayoutRow)
    → find_payout id ps ≡ some p
    → (xs : List PayoutRow) × (zs : List PayoutRow) × (ps ≡ xs ++ p ∷ zs) × (p.payout.id ≡ id)
unfolding find_payout
find_split id [] p h = absurd (ground arith)
find_split id (x ∷ ps) p h = elim (Bool-cases (eq_text x.payout.id id)) [
  | inl y ↦
      let same : x ≡ p = ground (arith, y) in
      (
        [],
        ps,
        ap (λ z. z ∷ ps) same,
        ap (λ z. z.payout.id) (sym same) ∙ (eq_text_iff x.payout.id id).0 y,
      )
  | inr n ↦
      let (xs, zs, e, i) = find_split id ps p (ground (arith, n)) in
      (x ∷ xs, zs, ap (λ z. x ∷ z) e, i)
]

advance_hits :
    (id : Text) (expected next : PayoutStatus) (reference : Option Text) (ps : List PayoutRow)
    (p : PayoutRow)
    → find_payout id ps ≡ some p
    → eq_payout p.payout.status expected ≡ true
    → (qs : List PayoutRow) × (advance_payout id expected next reference ps ≡ some qs)
unfolding find_payout advance_payout
advance_hits id expected next reference [] p h s = absurd (ground arith)
advance_hits id expected next reference (x ∷ ps) p h s =
    elim (Bool-cases (eq_text x.payout.id id)) [
      | inl y ↦
          let same : x ≡ p = ground (arith, y) in
          (advanced x next reference ∷ ps, ground (arith, y, same, s))
      | inr n ↦
          let (qs, e) = advance_hits id expected next reference ps p (ground (arith, n)) s in
          (x ∷ qs, ground (arith, n, e))
    ]

append_goes_through :
    (t : LedgerTransaction) (l : List LedgerTransaction)
    → StaysExact (pos 0) t.entries
    → IsDoubleEntry t
    → has_key t.event_key l ≡ false
    → append_transaction t l ≡ ok (t ∷ l)
unfolding append_transaction
append_goes_through t l x d k =
    ground (arith, zero_sum_checked t.entries d.paired x d.sound d.zero_sum, k)

-- What the payment of a processing payout decides.
paid_applied : Text → ℕ → Text → Number → Text → AppliedPayout
paid_applied id n reference now admin_id = record {
  next_status = PayoutStatus.paid;
  payment_reference = some reference;
  paid_at = some now;
  actor_ref = some admin_id;
  reason = none;
  event_key = some (payout_paid_event_key id);
  earning_next_status = some EarningStatus.paid;
  transaction = some (paid_of id n);
}

payment_decided :
    (q : PayoutState) (n t : ℕ) (reference admin_id : Text)
    → q.status ≡ PayoutStatus.processing
    → q.amount_idr ≡ num n
    → 1 ≤ n
    → n ≤ max_safe
    → is_blank q.id ≡ false
    → is_blank reference ≡ false
    → decide_payout_transition q (mark_paid (trim reference) (num t) admin_id)
      ≡ ok (apply (paid_applied q.id n (trim reference) (num t) admin_id))
unfolding decide_payout_transition settle_decision paid_decision paid_applied is_blank
payment_decided q n t reference admin_id s m l u i b =
    rw (s, m)
      (ground (
        arith,
        is_blank-trim reference,
        trim-trim reference,
        transfer_ok payout_paid (payout_paid_event_key q.id) (codes "payout") q.id
            partner_payout_locked partner_paid n (event_keys_nonblank q.id).4 refl i refl refl l u,
      ))

-- What a payment needs beside books in order: an admin with the permission, a payout in `processing` with a
-- safe amount, and a reference that no other payout has.
pub record IsPayable (others : List Text) (admin : AuthenticatedAdmin) (t n : ℕ)
    (id reference : Text) (p : PayoutRow) (b : Books) : Type 0 where
  pub permitted : admin_has_permission admin.permissions payout_review_permission ≡ true
  pub known_admin : is_blank admin.admin_id ≡ false
  pub safe_time : t ≤ max_safe
  pub well_formed : is_uuid id ≡ true
  pub named : is_blank id ≡ false
  pub found : find_payout id b.payouts ≡ some p
  pub in_process : p.payout.status ≡ PayoutStatus.processing
  pub amount : p.payout.amount_idr ≡ num n
  pub positive : 1 ≤ n
  pub safe : n ≤ max_safe
  pub given : is_blank reference ≡ false
  pub short : ltb max_payment_reference_length (utf16_length (trim reference)) ≡ false
  pub free : is_reference_taken others id (some (trim reference)) b.payouts ≡ false

module _ (others : List Text) (admin : AuthenticatedAdmin) (t n : ℕ) (id reference : Text)
    (p : PayoutRow) (b : Books) (i : IsBooked b)
    (w : IsPayable others admin t n id reference p b) where
  commanded :
      payout_command admin (num t) (mark_payout_paid reference)
      ≡ ok (mark_paid (trim reference) (num t) admin.admin_id)
  unfolding payout_command
  commanded = ground (arith, w.given, w.short)

  audited : assert_auditable admin.admin_id (num t) ≡ ok tt
  unfolding assert_auditable assert_identifier
  audited = ground (arith, w.known_admin, w.safe_time)

  own_id : p.payout.id ≡ id
  own_id = (find_split id b.payouts p w.found).3

  appended : append_transaction (paid_of id n) b.store.ledger ≡ ok (paid_of id n ∷ b.store.ledger)
  unfolding is_blank
  appended =
      let (xs, zs, was, same) = find_split id b.payouts p w.found in
      let (x, y) =
        row_of (IsOpenEnded b.store.ledger) xs zs p b.payouts was i.open_ended
          (ground (arith, w.in_process)) in
      append_goes_through (paid_of id n) b.store.ledger
        (transfer-StaysExact payout_paid (payout_paid_event_key id) (codes "payout") id
          partner_payout_locked partner_paid n w.safe)
        (transfer-IsDoubleEntry payout_paid (payout_paid_event_key id) (codes "payout") id
          partner_payout_locked partner_paid n (event_keys_nonblank id).4 refl w.named refl refl
          w.safe)
        (subst (λ k. has_key (payout_paid_event_key k) b.store.ledger ≡ false) same x)

  own-IsHeld :
      All
        (IsHeld
          (move_allocated EarningStatus.paid p.payout.allocations b.store.earnings)
          EarningStatus.paid)
        p.payout.allocations
  own-IsHeld =
      let (xs, zs, was, _) = find_split id b.payouts p w.found in
      let backed = row_of (IsBacked b.store.earnings) xs zs p b.payouts was i.backed in
      let unreleased = backed.cancelled ∙ ap is_cancelled w.in_process in
      (move_allocated-Moved EarningStatus.paid p.payout.allocations b.store.earnings
        i.settled.distinct (own_AllDiffer xs zs p b.payouts was unreleased i.disjoint)
        (subst (λ s. All (IsHeld b.store.earnings s) p.payout.allocations) (ap held_as w.in_process)
          (backed.held unreleased))).held

  transitioned :
      (qs : List PayoutRow)
      → advance_payout id PayoutStatus.processing PayoutStatus.paid
          (some (trim reference))
          b.payouts
        ≡ some qs
      → transition_found others admin.admin_id
          (num t)
          (mark_paid (trim reference) (num t) admin.admin_id)
          b
          (some p)
        ≡ ok (
          reviewed PayoutStatus.paid,
          record {
            store = record {
              earnings = move_allocated EarningStatus.paid p.payout.allocations b.store.earnings;
              ledger = paid_of id n ∷ b.store.ledger;
            };
            payouts = qs;
          },
        )
  unfolding transition_found carry_transition update_payout_status apply_transition paid_applied
  transitioned qs moved =
      rw
        (
          payment_decided p.payout n t reference admin.admin_id w.in_process w.amount w.positive
              w.safe (subst (λ k. is_blank k ≡ false) (sym own_id) w.named) w.given,
          own_id,
          w.in_process,
          moved,
          w.free,
          appended,
          audited,
        )
        refl

  -- An admin with the permission can pay a payout that is being processed: the review returns, its earnings
  -- are all `paid`, and the ledger has just the payment of its whole amount on top.
  pub payment_goes_through :
      (b' : Books) × (review_payout others b.payouts admin (num t) id (mark_payout_paid reference) b
        ≡ ok (reviewed PayoutStatus.paid, b'))
      × All (IsHeld b'.store.earnings EarningStatus.paid) p.payout.allocations
      × (b'.store.ledger ≡ paid_of id n ∷ b.store.ledger)
  unfolding review_payout transition_payout
  payment_goes_through =
      let (qs, moved) =
        advance_hits id PayoutStatus.processing PayoutStatus.paid (some (trim reference)) b.payouts
          p w.found (ground (arith, w.in_process)) in
      (
        record {
          store = record {
            earnings = move_allocated EarningStatus.paid p.payout.allocations b.store.earnings;
            ledger = paid_of id n ∷ b.store.ledger;
          };
          payouts = qs;
        },
        rw (commanded, w.permitted, w.well_formed, w.found) (transitioned qs moved),
        own-IsHeld,
        refl,
      )
