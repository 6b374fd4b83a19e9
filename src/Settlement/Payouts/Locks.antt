-- ===== src/Settlement/Payouts/Locks.antt =====
-- Lemmas on the locks of the request of src/application/payout-request-service.ts.
use kirimkode_partner.Base.{
  ◌≡◌, refl, ap, Bool, true, false, Option, none, some, List, [], ◌∷◌, map, arith, All, ok,
  bind_returns,
}
use kirimkode_partner.Int.{ℤ, pos, pos_part, neg_part, ◌+ℤ◌, int_laws}
use kirimkode_partner.Text.{Text}
use kirimkode_partner.Ledger.Transaction.{amount_of}
use kirimkode_partner.Earning.{EarningStatus, EarningState}
use kirimkode_partner.Payout.{allocation_of}
use kirimkode_partner.Settlement.{eq_status, move_earning, update_earning_status}
use kirimkode_partner.Payout.Request.{Distinct, earning_sum}
use kirimkode_partner.Settlement.Rows.{
  status_sum, part, HasAmount, update-status_sum, update-All, update-Distinct,
}
use kirimkode_partner.Settlement.Payouts.{or_conflict, lock_rows}

pub two_moves :
    (b c : Bool) (x y r s t : ℤ)
    → s +ℤ part b x ≡ r +ℤ part c x
    → t +ℤ part b y ≡ s +ℤ part c y
    → t +ℤ part b (x +ℤ y) ≡ r +ℤ part c (x +ℤ y)
two_moves true true x y r s t h k =
    let p = ap pos_part h in
    let q = ap neg_part h in let u = ap pos_part k in let v = ap neg_part k in omega int_laws
two_moves true false x y r s t h k =
    let p = ap pos_part h in
    let q = ap neg_part h in let u = ap pos_part k in let v = ap neg_part k in omega int_laws
two_moves false true x y r s t h k =
    let p = ap pos_part h in
    let q = ap neg_part h in let u = ap pos_part k in let v = ap neg_part k in omega int_laws
two_moves false false x y r s t h k =
    let p = ap pos_part h in
    let q = ap neg_part h in let u = ap pos_part k in let v = ap neg_part k in omega int_laws

pub part_zero : (b : Bool) → part b (pos 0) ≡ pos 0
part_zero true = refl
part_zero false = refl

pub kept_conflict :
    (id : Text) (o : Option (List EarningState)) (es : List EarningState)
    → or_conflict id o ≡ ok es
    → o ≡ some es
kept_conflict id none es h = absurd (ground arith)
kept_conflict id (some x) es h = ground arith

abbrev pub AreRead : List EarningState → List EarningState → Type 0
AreRead sel es = All (λ (e : EarningState). All (HasAmount e.id (amount_of e.amount_idr)) es) sel

-- What the locks keep of every row.
pub lock-All {κ} :
    (P : EarningState → Type κ) (sel es es' : List EarningState)
    → ((e : EarningState)
        → e.status ≡ EarningStatus.available
        → P e
        → P (move_earning e EarningStatus.requested))
    → Distinct es
    → All P es
    → lock_rows (map allocation_of sel) es ≡ ok es'
    → Distinct es' × All P es'
unfolding lock_rows
lock-All P [] es es' f d p h = let same : es' ≡ es = ground arith in rw same (d, p)
lock-All P (e ∷ sel) es es' f d p h =
    let (es₁, c, w) =
      bind_returns
        (or_conflict e.id
          (update_earning_status e.id EarningStatus.available EarningStatus.requested es))
        _ h in
    let u =
      kept_conflict e.id
        (update_earning_status e.id EarningStatus.available EarningStatus.requested es) es₁ c in
    lock-All P sel es₁ es' f
      (update-Distinct e.id EarningStatus.available EarningStatus.requested es es₁ d u)
      (update-All P P e.id EarningStatus.available EarningStatus.requested es es₁ (λ x _ p. p)
        (λ x _ s p. f x s p) d p u)
      w

pub read_on :
    (sel es es' : List EarningState) (id : Text)
    → Distinct es
    → AreRead sel es
    → update_earning_status id EarningStatus.available EarningStatus.requested es ≡ some es'
    → AreRead sel es'
read_on [] es es' id d a u = tt
read_on (e ∷ sel) es es' id d a u = (
  update-All (HasAmount e.id (amount_of e.amount_idr)) (HasAmount e.id (amount_of e.amount_idr)) id
      EarningStatus.available EarningStatus.requested es es' (λ x _ p. p) (λ x _ s p. p) d a.0 u,
  read_on sel es es' id d a.1 u,
)

-- The locks move the exact sum of the selection from `available` to `requested`.
pub lock-status_sum :
    (s : EarningStatus) (sel es es' : List EarningState)
    → Distinct es
    → AreRead sel es
    → lock_rows (map allocation_of sel) es ≡ ok es'
    → status_sum s es' +ℤ part (eq_status s EarningStatus.available) (earning_sum sel)
      ≡ status_sum s es +ℤ part (eq_status s EarningStatus.requested) (earning_sum sel)
unfolding lock_rows
lock-status_sum s [] es es' d a h =
    let same : es' ≡ es = ground arith in
    rw
      (
        same,
        part_zero (eq_status s EarningStatus.available),
        part_zero (eq_status s EarningStatus.requested),
      )
      refl
lock-status_sum s (e ∷ sel) es es' d a h =
    let (es₁, c, w) =
      bind_returns
        (or_conflict e.id
          (update_earning_status e.id EarningStatus.available EarningStatus.requested es))
        _ h in
    let u =
      kept_conflict e.id
        (update_earning_status e.id EarningStatus.available EarningStatus.requested es) es₁ c in
    two_moves (eq_status s EarningStatus.available) (eq_status s EarningStatus.requested)
      (amount_of e.amount_idr) (earning_sum sel) (status_sum s es) (status_sum s es₁)
      (status_sum s es')
      (update-status_sum e.id EarningStatus.available EarningStatus.requested s
        (amount_of e.amount_idr) es es₁ a.0 u)
      (lock-status_sum s sel es₁ es'
        (update-Distinct e.id EarningStatus.available EarningStatus.requested es es₁ d u)
        (read_on sel es es₁ e.id d a.1 u) w)
