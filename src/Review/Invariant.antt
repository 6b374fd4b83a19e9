-- ===== src/Review/Invariant.antt =====
-- The invariant of the books: every payout is backed by the earnings that it has allocated.
use kirimkode_partner.Base.{
  ◌≡◌, refl, ◌≢◌, ◌⊎◌, inl, inr, Bool, true, false, List, [], ◌∷◌, ◌++◌, map, All, All-map,
  All-append, All-parts,
}
use kirimkode_partner.Text.{Text}
use kirimkode_partner.Ledger.{LedgerTransaction, payout_paid_event_key, payout_unlock_event_key}
use kirimkode_partner.Earning.{EarningStatus, EarningState}
use kirimkode_partner.Ledger.Transaction.{amount_of}
use kirimkode_partner.Payout.{PayoutStatus, PayoutAllocation, is_terminal_payout_status}
use kirimkode_partner.Settlement.{Store, has_key}
use kirimkode_partner.Settlement.Agreement.{IsSettled}
use kirimkode_partner.Review.Rows.{PayoutRow, Books}
use kirimkode_partner.Review.Payouts.{active_ids}
use kirimkode_partner.Review.Moves.{IsHeld, allocation_sum, AllDiffer}

-- The status of the earnings of a payout that has not given them back.
abbrev pub held_as : PayoutStatus → EarningStatus
held_as PayoutStatus.paid = EarningStatus.paid
held_as _ = EarningStatus.requested

abbrev pub is_cancelled : PayoutStatus → Bool
is_cancelled PayoutStatus.rejected = true
is_cancelled PayoutStatus.failed = true
is_cancelled _ = false

abbrev pub payout_ids : List PayoutRow → List Text
payout_ids ps = map (λ (p : PayoutRow). p.payout.id) ps

-- A payout has released its allocations exactly if it was cancelled; the earnings of one that has not are
-- `requested` until it is paid, and `paid` then; and its amount is the sum of its allocations.
pub record IsBacked (es : List EarningState) (p : PayoutRow) : Type 0 where
  pub cancelled : p.released ≡ is_cancelled p.payout.status
  pub held : p.released ≡ false → All (IsHeld es (held_as p.payout.status)) p.payout.allocations
  pub whole : amount_of p.payout.amount_idr ≡ allocation_sum p.payout.allocations

-- The ledger has neither end of a payout that is still open.
abbrev pub IsOpenEnded : List LedgerTransaction → PayoutRow → Type 0
IsOpenEnded ledger p =
    is_terminal_payout_status p.payout.status ≡ false
    → (has_key (payout_paid_event_key p.payout.id) ledger ≡ false)
      × (has_key (payout_unlock_event_key p.payout.id) ledger ≡ false)

pub record IsBooked (b : Books) : Type 0 where
  pub settled : IsSettled b.store
  -- no two payouts have one id
  pub unique : AllDiffer (payout_ids b.payouts)
  -- no earning stands in two allocations that are not released
  pub disjoint : AllDiffer (active_ids b.payouts)
  pub backed : All (IsBacked b.store.earnings) b.payouts
  pub open_ended : All (IsOpenEnded b.store.ledger) b.payouts

-- Held allocations stay held.
abbrev pub Carries : List EarningState → List EarningState → Type 0
Carries es es' =
    (s : EarningStatus) (a : PayoutAllocation)
    → (s ≡ EarningStatus.requested) ⊎ (s ≡ EarningStatus.paid)
    → IsHeld es s a
    → IsHeld es' s a

-- The ends of payouts that are not in the one ledger are not in the other.
abbrev pub AddsNoEnd : List LedgerTransaction → List LedgerTransaction → Type 0
AddsNoEnd l l' =
    (id : Text)
    → (has_key (payout_paid_event_key id) l ≡ false → has_key (payout_paid_event_key id) l' ≡ false)
      × (has_key (payout_unlock_event_key id) l ≡ false
          → has_key (payout_unlock_event_key id) l' ≡ false)

pub held_cases :
    (s : PayoutStatus) → (held_as s ≡ EarningStatus.requested) ⊎ (held_as s ≡ EarningStatus.paid)
held_cases PayoutStatus.paid = inr refl
held_cases s = inl refl

pub carried-IsBacked :
    (es es' : List EarningState) (ps : List PayoutRow)
    → Carries es es'
    → All (IsBacked es) ps
    → All (IsBacked es') ps
carried-IsBacked es es' ps c h =
    All-map (IsBacked es) (IsBacked es') ps
      (λ p k. record {
        cancelled = k.cancelled;
        held = λ r.
            All-map (IsHeld es (held_as p.payout.status)) (IsHeld es' (held_as p.payout.status))
              p.payout.allocations (λ a. c (held_as p.payout.status) a (held_cases p.payout.status))
              (k.held r);
        whole = k.whole;
      })
      h

pub kept-IsOpenEnded :
    (l l' : List LedgerTransaction) (ps : List PayoutRow)
    → AddsNoEnd l l'
    → All (IsOpenEnded l) ps
    → All (IsOpenEnded l') ps
kept-IsOpenEnded l l' ps c h =
    All-map (IsOpenEnded l) (IsOpenEnded l') ps
      (λ p k o. (((c p.payout.id).0 (k o).0), ((c p.payout.id).1 (k o).1))) h

-- A command that changes the store only.
pub stored-IsBooked :
    (b : Books) (s : Store)
    → IsBooked b
    → IsSettled s
    → Carries b.store.earnings s.earnings
    → AddsNoEnd b.store.ledger s.ledger
    → IsBooked (record b { store = s })
stored-IsBooked b s i j c k = record {
  settled = j;
  unique = i.unique;
  disjoint = i.disjoint;
  backed = carried-IsBacked b.store.earnings s.earnings b.payouts c i.backed;
  open_ended = kept-IsOpenEnded b.store.ledger s.ledger b.payouts k i.open_ended;
}

-- Every text of the one list differs from every text of the other.
abbrev pub Apart : List Text → List Text → Type 0
Apart ts us = All (λ t. All (λ u. u ≢ t) us) ts

pub AllDiffer-append :
    (ts us : List Text) → AllDiffer ts → AllDiffer us → Apart ts us → AllDiffer (ts ++ us)
AllDiffer-append [] us d e a = e
AllDiffer-append (t ∷ ts) us d e a =
    (All-append (λ u. u ≢ t) ts us d.0 a.0, AllDiffer-append ts us d.1 e a.1)

pub AllDiffer-parts :
    (ts us : List Text) → AllDiffer (ts ++ us) → AllDiffer ts × AllDiffer us × Apart ts us
AllDiffer-parts [] us d = (tt, d, tt)
AllDiffer-parts (t ∷ ts) us d =
    let (a, b) = All-parts (λ u. u ≢ t) ts us d.0 in
    let (p, q, r) = AllDiffer-parts ts us d.1 in ((a, p), q, (b, r))
