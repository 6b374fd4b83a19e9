-- ===== src/Review/Requests.antt =====
-- The theorems about the payout request on the books.
use mathlib.Core.Path.{subst}
use kirimkode_partner.Base.{
  ℕ, ◌≡◌, refl, sym, ap, ◌∙◌, ◌≢◌, ◌⊎◌, inl, inr, false, Option, some, List, [], ◌∷◌, map, arith,
  All, All-map, All-append, Bool-cases, Result, ok,
}
use kirimkode_partner.Int.{pos, ◌+ℤ◌}
use kirimkode_partner.Number.{Number, num}
use kirimkode_partner.Text.{Text}
use kirimkode_partner.Ledger.{
  LedgerTransaction, payout_lock_event_key, payout_paid_event_key, payout_unlock_event_key,
}
use kirimkode_partner.Earning.{EarningStatus, EarningState}
use kirimkode_partner.Ledger.Transaction.{amount_of}
use kirimkode_partner.Payout.{PayoutAllocation, allocation_of}
use kirimkode_partner.Payout.Request.{earning_sum, request-LocksWhole, lock_transfer}
use kirimkode_partner.Settlement.{Store, find_earning_by_id, has_key}
use kirimkode_partner.Settlement.Agreement.{IsSettled, IsRead, append_new}
use kirimkode_partner.Settlement.Payouts.{PayoutRequestResult, payout_requested, lock_rows}
use kirimkode_partner.Settlement.Payouts.Locks.{AreRead}
use kirimkode_partner.Settlement.Payouts.Agrees.{requested-IsSettled, read-AreRead}
use kirimkode_partner.Review.Rows.{PayoutRow, Books}
use kirimkode_partner.Review.Payouts.{
  earning_ids, active_ids, new_payout, book_request, Booked, request-Booked,
}
use kirimkode_partner.Review.Moves.{IsHeld, IsHeld-same, allocation_sum, AllDiffer}
use kirimkode_partner.Review.Held.{IsFree, Locked, Distinct-AllDiffer, lock_rows-Locked}
use kirimkode_partner.Review.Invariant.{
  held_as, payout_ids, IsBacked, IsBooked, Carries, AddsNoEnd, held_cases, carried-IsBacked,
  kept-IsOpenEnded, Apart, AllDiffer-append,
}

-- An id that no payout has, and none of whose events is in the ledger.
pub record IsNew (id : Text) (b : Books) : Type 0 where
  pub unused : All (λ t. t ≢ id) (payout_ids b.payouts)
  pub unlocked : has_key (payout_lock_event_key id) b.store.ledger ≡ false
  pub unpaid : has_key (payout_paid_event_key id) b.store.ledger ≡ false
  pub uncancelled : has_key (payout_unlock_event_key id) b.store.ledger ≡ false

-- The earning of an allocation that is not released.
abbrev IsOccupied : List EarningState → Text → Type 0
IsOccupied es id =
    (e : EarningState) × (find_earning_by_id id es ≡ some e)
    × ((e.status ≡ EarningStatus.requested) ⊎ (e.status ≡ EarningStatus.paid))

held-IsOccupied :
    (es : List EarningState) (s : EarningStatus) (as' : List PayoutAllocation)
    → (s ≡ EarningStatus.requested) ⊎ (s ≡ EarningStatus.paid)
    → All (IsHeld es s) as'
    → All (IsOccupied es) (earning_ids as')
held-IsOccupied es s [] c h = tt
held-IsOccupied es s (a ∷ as') c ((e, f, p, _), h) = (
  (e, f, subst (λ x. (x ≡ EarningStatus.requested) ⊎ (x ≡ EarningStatus.paid)) (sym p) c),
  held-IsOccupied es s as' c h,
)

active-IsOccupied :
    (es : List EarningState) (ps : List PayoutRow)
    → All (IsBacked es) ps
    → All (IsOccupied es) (active_ids ps)
unfolding active_ids
active-IsOccupied es [] h = tt
active-IsOccupied es (p ∷ ps) h = elim (Bool-cases p.released) [
  | inl e ↦ rw e (active-IsOccupied es ps h.1)
  | inr e ↦ rw e (
      All-append (IsOccupied es) (earning_ids p.payout.allocations) (active_ids ps)
        (held-IsOccupied es (held_as p.payout.status) p.payout.allocations
          (held_cases p.payout.status) (h.0.held e))
        (active-IsOccupied es ps h.1))
]

free_is_apart : (es : List EarningState) (t u : Text) → IsFree es t → IsOccupied es u → u ≢ t
free_is_apart es t u (e, f, s) (x, g, o) q =
    let same : x ≡ e = ground (arith, f, g, q) in ground (arith, s, o, same)

frees-Apart :
    (es : List EarningState) (ts us : List Text)
    → All (IsFree es) ts
    → All (IsOccupied es) us
    → Apart ts us
frees-Apart es [] us f o = tt
frees-Apart es (t ∷ ts) us f o = (
  All-map (IsOccupied es) (λ u. u ≢ t) us (λ u. free_is_apart es t u f.0) o,
  frees-Apart es ts us f.1 o,
)

apart_from :
    (es : List EarningState) (k : Text) (ts : List Text)
    → IsOccupied es k
    → All (IsFree es) ts
    → All (λ u. u ≢ k) ts
apart_from es k ts o f =
    All-map (IsFree es) (λ u. u ≢ k) ts (λ t z q. free_is_apart es t k z o (sym q)) f

Locked-Carries :
    (as' : List PayoutAllocation) (es es' : List EarningState) → Locked as' es es' → Carries es es'
Locked-Carries as' es es' l s a c (e, f, p, m) =
    IsHeld-same es es' s a
      (l.others a.earning_id (
        apart_from es a.earning_id (earning_ids as')
          (e, f, subst (λ x. (x ≡ EarningStatus.requested) ⊎ (x ≡ EarningStatus.paid)) (sym p) c)
          l.free))
      (e, f, p, m)

allocated_sum : (sel : List EarningState) → earning_sum sel ≡ allocation_sum (map allocation_of sel)
allocated_sum [] = refl
allocated_sum (e ∷ sel) = ap (λ z. amount_of e.amount_idr +ℤ z) (allocated_sum sel)

lock-AddsNoEnd :
    (id : Text) (t : LedgerTransaction) (l : List LedgerTransaction)
    → t.event_key ≡ payout_lock_event_key id
    → AddsNoEnd l (t ∷ l)
unfolding payout_lock_event_key payout_paid_event_key payout_unlock_event_key
lock-AddsNoEnd id t l k x = (λ h. rw k h, λ h. rw k h)

lock_key :
    (id : Text) (n : ℕ) (t : LedgerTransaction)
    → t ≡ lock_transfer id n
    → t.event_key ≡ payout_lock_event_key id
unfolding lock_transfer
lock_key id n t e = rw e refl

ok_same :
    (sel sel' : List EarningState)
    → ◌≡◌ {A = Result Text (List EarningState)} (ok sel) (ok sel')
    → sel ≡ sel'
ok_same sel sel' e = cc

whole_amount :
    (amount : Number) (n : ℕ) (sel : List EarningState)
    → amount ≡ num n
    → earning_sum sel ≡ pos n
    → amount_of amount ≡ allocation_sum (map allocation_of sel)
whole_amount amount n sel e s = ap amount_of e ∙ sym s ∙ allocated_sum sel

added-IsBooked :
    (b : Books) (s : Store) (id : Text) (amount : Number) (as' : List PayoutAllocation)
    → IsBooked b
    → IsNew id b
    → IsSettled s
    → Locked as' b.store.earnings s.earnings
    → AllDiffer (earning_ids as')
    → amount_of amount ≡ allocation_sum as'
    → AddsNoEnd b.store.ledger s.ledger
    → IsBooked (record { store = s; payouts = new_payout id amount as' ∷ b.payouts })
unfolding active_ids
added-IsBooked b s id amount as' i new j l d w k = record {
  settled = j;
  unique = (new.unused, i.unique);
  disjoint = AllDiffer-append (earning_ids as') (active_ids b.payouts) d i.disjoint (
      frees-Apart b.store.earnings (earning_ids as') (active_ids b.payouts) l.free
        (active-IsOccupied b.store.earnings b.payouts i.backed));
  backed = (
    record { cancelled = refl; held = λ _. l.held; whole = w },
    carried-IsBacked b.store.earnings s.earnings b.payouts
        (Locked-Carries as' b.store.earnings s.earnings l) i.backed,
  );
  open_ended = (
    (λ _. ((k id).0 new.unpaid, (k id).1 new.uncancelled)),
    kept-IsOpenEnded b.store.ledger s.ledger b.payouts k i.open_ended,
  );
}

Booked-IsBooked :
    (id : Text) (minimum : Option Number) (sel : List EarningState) (b b' : Books)
    → IsBooked b
    → AreRead sel b.store.earnings
    → IsNew id b
    → Booked id minimum sel b b'
    → IsBooked b'
Booked-IsBooked id minimum sel b b' i a new k =
    let w =
      request-LocksWhole (record { payout_id = id; earnings = sel; minimum_idr = minimum })
        k.decided in
    let key = lock_key id w.total k.transaction w.moved in
    let ledger : b'.store.ledger ≡ k.transaction ∷ b.store.ledger =
      append_new k.transaction b.store.ledger b'.store.ledger (rw key new.unlocked) k.appended in
    let same : b' ≡ record {
      store = b'.store;
      payouts = new_payout id k.amount (map allocation_of sel) ∷ b.payouts;
    } =
      ground (arith, k.added, w.whole) in
    rw same (
      added-IsBooked b b'.store id k.amount (map allocation_of sel) i new
        (requested-IsSettled id minimum b.store b'.store (payout_requested k.amount) (ok sel)
          i.settled new.unlocked
          (λ sel' e. subst (λ z. AreRead z b.store.earnings) (ok_same sel sel' e) a) k.plain)
        (lock_rows-Locked sel b.store.earnings b'.store.earnings i.settled.distinct w.distinct a
          (ap (λ z. lock_rows z b.store.earnings) (sym w.whole) ∙ k.locked))
        (Distinct-AllDiffer sel w.distinct) (whole_amount k.amount w.total sel w.amount_eq w.sum)
        (subst (AddsNoEnd b.store.ledger) (sym ledger)
          (lock-AddsNoEnd id k.transaction b.store.ledger key)))

-- A payout request with a new id keeps the books in order, whatever has become of the rows since they were
-- read, as long as their amounts are the same.
pub book_request-IsBooked :
    (seen : List EarningState) (ids : List Text) (id : Text) (minimum : Option Number)
    (b b' : Books) (r : PayoutRequestResult)
    → IsBooked b
    → IsRead seen b.store
    → IsNew id b
    → book_request seen ids id minimum b ≡ ok (r, b')
    → IsBooked b'
book_request-IsBooked seen ids id minimum b b' r i a new h =
    elim (request-Booked seen ids id minimum b b' r h) [
      | inl same ↦ rw same i
      | inr (sel, read, k) ↦
          Booked-IsBooked id minimum sel b b' i (read-AreRead ids seen sel b.store a read) new k
    ]
