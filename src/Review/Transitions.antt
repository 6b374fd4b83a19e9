-- ===== src/Review/Transitions.antt =====
-- Lemmas on the transaction of a payout review, and on the row that it changes.
use mathlib.Core.Path.{subst}
use kirimkode_partner.Base.{
  ◌≡◌, refl, ap, ◌∙◌, ◌⊎◌, inl, inr, Bool, true, false, Option, none, some, List, [], ◌∷◌, ◌++◌,
  arith, All, All-parts, ok, bind_returns, if◌then◌else◌,
}
use kirimkode_partner.Number.{Number}
use kirimkode_partner.Text.{Text}
use kirimkode_partner.Ledger.{LedgerTransaction}
use kirimkode_partner.Earning.{EarningStatus}
use kirimkode_partner.Payout.{
  PayoutStatus, PayoutState, PayoutCommand, approve, process, mark_paid, fail, AppliedPayout, apply,
  decide_payout_transition, settle_decision, unlock_decision, paid_decision, repeat_decision,
  is_terminal_payout_status,
}
use kirimkode_partner.Payout.Transition.{
  Edge, approving, processing, paying, rejecting, failing, Workflow,
}
use kirimkode_partner.Review.Rows.{PayoutRow, Books, PayoutReviewOutcome, reviewed}
use kirimkode_partner.Review.{
  UpdatePayoutStatus, updated, no_op, duplicate_reference, unless_taken, move_if, release_if,
  append_if, assert_auditable, apply_transition,
}
use kirimkode_partner.Review.Payouts.{earning_ids, active_ids}
use kirimkode_partner.Review.Moves.{AllDiffer}
use kirimkode_partner.Review.Invariant.{held_as, is_cancelled, AllDiffer-parts}
use kirimkode_partner.Review.Settles.{own_ids, active-append, active_head}

-- The payout read earlier has the allocations and the amount that its row has now.
abbrev pub IsReadPayout : PayoutState → List PayoutRow → Type 0
IsReadPayout q ps =
    All
      (λ (r : PayoutRow).
        r.payout.id ≡ q.id
        → (r.payout.allocations ≡ q.allocations) × (r.payout.amount_idr ≡ q.amount_idr))
      ps

pub Edge-open : {s t : PayoutStatus} → Edge s t → is_terminal_payout_status s ≡ false
Edge-open approving = refl
Edge-open processing = refl
Edge-open paying = refl
Edge-open (rejecting h) = h
Edge-open (failing h) = h

pub open_held :
    (s : PayoutStatus)
    → is_terminal_payout_status s ≡ false
    → (is_cancelled s ≡ false) × (held_as s ≡ EarningStatus.requested)
open_held PayoutStatus.requested h = (refl, refl)
open_held PayoutStatus.approved h = (refl, refl)
open_held PayoutStatus.processing h = (refl, refl)
open_held s h = absurd (ground arith)

-- A step without money leaves the payout open.
pub Workflow-is_open :
    (q : PayoutState) (c : PayoutCommand) (a : AppliedPayout)
    → decide_payout_transition q c ≡ ok (apply a)
    → Edge q.status a.next_status
    → Workflow a
    → is_terminal_payout_status a.next_status ≡ false
unfolding decide_payout_transition settle_decision unlock_decision paid_decision repeat_decision
Workflow-is_open q approve a h e w = ground arith
Workflow-is_open q process a h e w = ground arith
Workflow-is_open q (mark_paid r t actor) a h e w = absurd (ground arith)
Workflow-is_open q (PayoutCommand.reject r actor) a h e w = absurd (ground arith)
Workflow-is_open q (fail r actor) a h e w = absurd (ground arith)

pub updated_cases :
    (taken : Bool) (o : Option (List PayoutRow)) (ps : List PayoutRow)
    → unless_taken taken o ≡ updated ps
    → (o ≡ some ps) × (taken ≡ false)
updated_cases taken none ps h = absurd (ground arith)
updated_cases true (some qs) ps h = absurd (ground arith)
updated_cases false (some qs) ps h = (ground arith, refl)

-- What the transaction does, if it does anything.
pub record Transitioned (a : AppliedPayout) (q : PayoutState) (ps : List PayoutRow) (b b' : Books)
    : Type 0 where
  pub ledger : List LedgerTransaction
  pub appended : append_if a.transaction b.store.ledger ≡ ok ledger
  pub left : b' ≡ record {
    store = record {
      earnings = move_if a.earning_next_status q.allocations b.store.earnings;
      ledger = ledger;
    };
    payouts = release_if a.earning_next_status q.id ps;
  }

pub transition_cases :
    (admin_id : Text) (now : Number) (q : PayoutState) (a : AppliedPayout) (b b' : Books)
    (u : UpdatePayoutStatus) (o : PayoutReviewOutcome)
    → apply_transition admin_id now q a b u ≡ ok (o, b')
    → (b' ≡ b)
      ⊎ ((ps : List PayoutRow) × (u ≡ updated ps)
          × Transitioned a q ps b b'
          × (o ≡ reviewed a.next_status))
unfolding apply_transition
transition_cases admin_id now q a b b' duplicate_reference o h = inl (ground arith)
transition_cases admin_id now q a b b' no_op o h = inl (ground arith)
transition_cases admin_id now q a b b' (updated ps) o h =
    let (ledger, x, y) = bind_returns (append_if a.transaction b.store.ledger) _ h in
    let (_, _, z) = bind_returns (assert_auditable admin_id now) _ y in
    inr (ps, refl, record { ledger = ledger; appended = x; left = ground arith }, ground arith)

-- The row between its neighbours, read as it is.
pub row_read :
    (q : PayoutState) (xs zs : List PayoutRow) (r : PayoutRow) (ps : List PayoutRow)
    → ps ≡ xs ++ r ∷ zs
    → r.payout.id ≡ q.id
    → IsReadPayout q ps
    → (r.payout.allocations ≡ q.allocations) × (r.payout.amount_idr ≡ q.amount_idr)
row_read q xs zs r ps was same h =
    let (_, y) =
      All-parts
        (λ (r : PayoutRow).
          r.payout.id ≡ q.id
          → (r.payout.allocations ≡ q.allocations) × (r.payout.amount_idr ≡ q.amount_idr))
        xs (r ∷ zs) (subst (IsReadPayout q) was h) in
    y.0 same

pub row_of {κ} :
    (P : PayoutRow → Type κ) (xs zs : List PayoutRow) (r : PayoutRow) (ps : List PayoutRow)
    → ps ≡ xs ++ r ∷ zs
    → All P ps
    → P r
row_of P xs zs r ps was h = (All-parts P xs (r ∷ zs) (subst (All P) was h)).1.0

pub own_AllDiffer :
    (xs zs : List PayoutRow) (r : PayoutRow) (ps : List PayoutRow)
    → ps ≡ xs ++ r ∷ zs
    → r.released ≡ false
    → AllDiffer (active_ids ps)
    → AllDiffer (earning_ids r.payout.allocations)
own_AllDiffer xs zs r ps was e d =
    let (_, y, _) =
      AllDiffer-parts (active_ids xs) (active_ids (r ∷ zs))
        (subst AllDiffer (ap active_ids was ∙ active-append xs (r ∷ zs)) d) in
    let (own, _, _) =
      AllDiffer-parts (own_ids r) (active_ids zs) (subst AllDiffer (active_head r zs) y) in
    subst (λ b. AllDiffer (if b then [] else earning_ids r.payout.allocations)) e own
