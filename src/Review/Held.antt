-- ===== src/Review/Held.antt =====
-- Lemmas on the allocations that a request locks.
use kirimkode_partner.Base.{
  ◌≡◌, refl, sym, ◌∙◌, ◌≢◌, inl, inr, some, List, [], ◌∷◌, map, arith, Bool-cases, All, ok,
  bind_returns,
}
use kirimkode_partner.Text.{Text, eq_text}
use kirimkode_partner.Earning.{EarningStatus, EarningState}
use kirimkode_partner.Ledger.Transaction.{amount_of}
use kirimkode_partner.Payout.{PayoutAllocation, allocation_of}
use kirimkode_partner.Payout.Request.{Distinct}
use kirimkode_partner.Settlement.{find_earning_by_id, move_earning, update_earning_status}
use kirimkode_partner.Settlement.Rows.{update-Distinct}
use kirimkode_partner.Settlement.Moved.{find_id}
use kirimkode_partner.Settlement.Payouts.{or_conflict, lock_rows}
use kirimkode_partner.Settlement.Payouts.Locks.{AreRead, read_on, kept_conflict}
use kirimkode_partner.Review.Payouts.{earning_ids}
use kirimkode_partner.Review.Moves.{update_found, find_other, IsHeld, AllDiffer}

pub found_All {κ} :
    (P : EarningState → Type κ) (id : Text) (es : List EarningState) (e : EarningState)
    → All P es
    → find_earning_by_id id es ≡ some e
    → P e
unfolding find_earning_by_id
found_All P id [] e p h = absurd (ground arith)
found_All P id (x ∷ es) e p h = elim (Bool-cases (eq_text x.id id)) [
  | inl y ↦ (let same : x ≡ e = ground (arith, y) in rw (← same) p.0)
  | inr n ↦ found_All P id es e p.1 (ground (arith, n))
]

-- The row of an id is available.
abbrev pub IsFree : List EarningState → Text → Type 0
IsFree es id =
    (e : EarningState) × (find_earning_by_id id es ≡ some e) × (e.status ≡ EarningStatus.available)

-- What the locks have done.
pub record Locked (as' : List PayoutAllocation) (es es' : List EarningState) : Type 0 where
  pub held : All (IsHeld es' EarningStatus.requested) as'
  pub free : All (IsFree es) (earning_ids as')
  pub others :
      (k : Text)
      → All (λ u. u ≢ k) (earning_ids as')
      → find_earning_by_id k es' ≡ find_earning_by_id k es

IsFree-before :
    (id : Text) (es es₁ : List EarningState) (ts : List Text)
    → ((k : Text) → k ≢ id → find_earning_by_id k es₁ ≡ find_earning_by_id k es)
    → All (λ u. u ≢ id) ts
    → All (IsFree es₁) ts
    → All (IsFree es) ts
IsFree-before id es es₁ [] same n f = tt
IsFree-before id es es₁ (t ∷ ts) same n ((e, g, s), f) =
    ((e, sym (same t n.0) ∙ g, s), IsFree-before id es es₁ ts same n.1 f)

ids_differ :
    (id : Text) (sel : List EarningState)
    → All (λ x. x.id ≢ id) sel
    → All (λ u. u ≢ id) (earning_ids (map allocation_of sel))
ids_differ id [] n = tt
ids_differ id (e ∷ sel) n = (n.0, ids_differ id sel n.1)

-- Earnings with distinct ids have allocations with distinct ids.
pub Distinct-AllDiffer :
    (sel : List EarningState) → Distinct sel → AllDiffer (earning_ids (map allocation_of sel))
Distinct-AllDiffer [] d = tt
Distinct-AllDiffer (e ∷ sel) d = (ids_differ e.id sel d.0, Distinct-AllDiffer sel d.1)

pub lock_rows-Locked :
    (sel es es' : List EarningState)
    → Distinct es
    → Distinct sel
    → AreRead sel es
    → lock_rows (map allocation_of sel) es ≡ ok es'
    → Locked (map allocation_of sel) es es'
unfolding lock_rows
lock_rows-Locked [] es es' d n a h =
    let same : es' ≡ es = ground arith in
    record { held = tt; free = tt; others = λ k _. rw same refl }
lock_rows-Locked (e ∷ sel) es es' d n a h =
    let (es₁, c, w) =
      bind_returns
        (or_conflict e.id
          (update_earning_status e.id EarningStatus.available EarningStatus.requested es))
        _ h in
    let u =
      kept_conflict e.id
        (update_earning_status e.id EarningStatus.available EarningStatus.requested es) es₁ c in
    let (x, g, q, moved) =
      update_found e.id EarningStatus.available EarningStatus.requested es es₁ d u in
    let same = λ (k : Text) (o : k ≢ e.id).
      find_other e.id EarningStatus.available EarningStatus.requested k es es₁ o u in
    let r =
      lock_rows-Locked sel es₁ es'
        (update-Distinct e.id EarningStatus.available EarningStatus.requested es es₁ d u) n.1
        (read_on sel es es₁ e.id d a.1 u) w in
    let differ = ids_differ e.id sel n.0 in
    record {
      held = (
        (
          move_earning x EarningStatus.requested,
          r.others e.id differ ∙ moved,
          refl,
          found_All (λ y. y.id ≡ e.id → amount_of y.amount_idr ≡ amount_of e.amount_idr) e.id es x
              a.0 g (find_id e.id es x g),
        ),
        r.held,
      );
      free = (
        (x, g, q),
        IsFree-before e.id es es₁ (earning_ids (map allocation_of sel)) same differ r.free,
      );
      others = λ k o. r.others k o.1 ∙ same k (λ z. o.0 (sym z));
    }
