-- ===== src/Settlement/Rows.antt =====
-- What the compare-and-set does to the rows: to their sums, their ids, and what holds of each of them.
use mathlib.Core.Path.{subst}
use kirimkode_partner.Base.{
  ◌≡◌, refl, sym, ap, ◌∙◌, ◌≢◌, ◌⊎◌, inl, inr, Bool, true, false, ◌&&◌, Option, none, some, List,
  [], ◌∷◌, arith, if◌then◌else◌, Bool-cases, All,
}
use kirimkode_partner.Int.{ℤ, pos, ◌+ℤ◌, int_laws, +ℤ_assoc}
use kirimkode_partner.Text.{Text, eq_text, eq_text_iff}
use kirimkode_partner.Earning.{EarningStatus, EarningState}
use kirimkode_partner.Ledger.Transaction.{amount_of}
use kirimkode_partner.Payout.Request.{Distinct}
use kirimkode_partner.Settlement.{eq_status, move_earning, behind, update_earning_status}

-- The exact sum of the earnings of a status.
abbrev pub status_sum : EarningStatus → List EarningState → ℤ
status_sum s [] = pos 0
status_sum s (e ∷ es) =
    let rest = status_sum s es in
    if eq_status s e.status then amount_of e.amount_idr +ℤ rest else rest

abbrev pub part : Bool → ℤ → ℤ
part true n = n
part false n = pos 0

abbrev pub HasAmount : Text → ℤ → EarningState → Type 0
HasAmount id n e = e.id ≡ id → amount_of e.amount_idr ≡ n

some_rest :
    (e : EarningState) (o : Option (List EarningState)) (es : List EarningState)
    → behind e o ≡ some es
    → (rest : List EarningState) × (o ≡ some rest) × (es ≡ e ∷ rest)
some_rest e none es h = absurd (ground arith)
some_rest e (some rest) es h = (rest, refl, ground arith)

status_same : (a b : EarningStatus) → eq_status a b ≡ true → a ≡ b
status_same a b h = ground arith

-- How the compare-and-set goes at the first row.
pub updated_head :
    (id : Text) (expected next : EarningStatus) (e : EarningState) (es es' : List EarningState)
    → update_earning_status id expected next (e ∷ es) ≡ some es'
    → ((e.id ≡ id) × (e.status ≡ expected) × (es' ≡ move_earning e next ∷ es))
      ⊎ ((rest : List EarningState) × (update_earning_status id expected next es ≡ some rest)
          × (es' ≡ e ∷ rest))
unfolding update_earning_status
updated_head id expected next e es es' h =
    elim (Bool-cases (eq_text e.id id && eq_status e.status expected)) [
      | inl y ↦ inl (
        (eq_text_iff e.id id).0 (ground arith),
        status_same e.status expected (ground arith),
        ground (arith, y),
      )
      | inr n ↦
          inr (some_rest e (update_earning_status id expected next es) es' (ground (arith, n)))
    ]

moved_sum :
    (b c : Bool) (z : ℤ) (n : ℤ)
    → (if c then n +ℤ z else z) +ℤ part b n ≡ (if b then n +ℤ z else z) +ℤ part c n
moved_sum true true z n = refl
moved_sum true false z n = omega int_laws
moved_sum false true z n = omega int_laws
moved_sum false false z n = refl

kept_sum :
    (b c d : Bool) (a y z : ℤ) (n : ℤ)
    → z +ℤ part b n ≡ y +ℤ part c n
    → (if d then a +ℤ z else z) +ℤ part b n ≡ (if d then a +ℤ y else y) +ℤ part c n
kept_sum b c true a y z n h =
    +ℤ_assoc a z (part b n) ∙ ap (λ (x : ℤ). a +ℤ x) h ∙ sym (+ℤ_assoc a y (part c n))
kept_sum b c false a y z n h = h

-- The compare-and-set moves the row's amount from the sum of the expected status to the next one's.
pub update-status_sum :
    (id : Text) (expected next s : EarningStatus) (n : ℤ) (es es' : List EarningState)
    → All (HasAmount id n) es
    → update_earning_status id expected next es ≡ some es'
    → status_sum s es' +ℤ part (eq_status s expected) n
      ≡ status_sum s es +ℤ part (eq_status s next) n
unfolding update_earning_status
update-status_sum id expected next s n [] es' a h = absurd (ground arith)
update-status_sum id expected next s n (e ∷ es) es' a h =
    elim (updated_head id expected next e es es' h) [
      | inl (i, p, q) ↦
          rw (q, p, a.0 i) (moved_sum (eq_status s expected) (eq_status s next) (status_sum s es) n)
      | inr (rest, u, q) ↦ rw q (
          kept_sum (eq_status s expected) (eq_status s next) (eq_status s e.status)
            (amount_of e.amount_idr) (status_sum s es) (status_sum s rest) n
            (update-status_sum id expected next s n es rest a.1 u))
    ]

-- The row that the compare-and-set hits, with what holds of every row.
pub found_row {κ} :
    (P : EarningState → Type κ) (id : Text) (expected next : EarningStatus)
    (es es' : List EarningState)
    → All P es
    → update_earning_status id expected next es ≡ some es'
    → (e : EarningState) × (e.id ≡ id) × (e.status ≡ expected) × P e
unfolding update_earning_status
found_row P id expected next [] es' p h = absurd (ground arith)
found_row P id expected next (e ∷ es) es' p h = elim (updated_head id expected next e es es' h) [
  | inl (i, q, r) ↦ (e, i, q, p.0)
  | inr (rest, u, r) ↦ found_row P id expected next es rest p.1 u
]

pub missed :
    (e : EarningState) (id : Text) (expected next : EarningStatus) (es rest : List EarningState)
    → All (λ x. x.id ≢ e.id) es
    → update_earning_status id expected next es ≡ some rest
    → e.id ≢ id
missed e id expected next es rest d u q =
    let (row, i, _, n) =
      found_row (λ (x : EarningState). x.id ≢ e.id) id expected next es rest d u in
    n (i ∙ sym q)

others_All {κ μ} :
    (P : EarningState → Type κ) (Q : EarningState → Type μ) (id : Text) (es : List EarningState)
    → All (λ x. x.id ≢ id) es
    → ((e : EarningState) → e.id ≢ id → P e → Q e)
    → All P es
    → All Q es
others_All P Q id [] n f p = tt
others_All P Q id (e ∷ es) n f p = (f e n.0 p.0, others_All P Q id es n.1 f p.1)

-- What held of every row still holds of the others, and of the moved row what the move gives.
pub update-All {κ μ} :
    (P : EarningState → Type κ) (Q : EarningState → Type μ) (id : Text)
    (expected next : EarningStatus) (es es' : List EarningState)
    → ((e : EarningState) → e.id ≢ id → P e → Q e)
    → ((e : EarningState) → e.id ≡ id → e.status ≡ expected → P e → Q (move_earning e next))
    → Distinct es
    → All P es
    → update_earning_status id expected next es ≡ some es'
    → All Q es'
unfolding update_earning_status
update-All P Q id expected next [] es' other here d p h = absurd (ground arith)
update-All P Q id expected next (e ∷ es) es' other here d p h =
    elim (updated_head id expected next e es es' h) [
      | inl (i, q, r) ↦ rw r (
        here e i q p.0,
        others_All P Q id es (subst (λ k. All (λ x. x.id ≢ k) es) i d.0) other p.1,
      )
      | inr (rest, u, r) ↦ rw r (
        other e (missed e id expected next es rest d.0 u) p.0,
        update-All P Q id expected next es rest other here d.1 p.1 u,
      )
    ]

All-ids :
    (k id : Text) (expected next : EarningStatus) (es es' : List EarningState)
    → All (λ x. x.id ≢ k) es
    → update_earning_status id expected next es ≡ some es'
    → All (λ x. x.id ≢ k) es'
unfolding update_earning_status
All-ids k id expected next [] es' a h = absurd (ground arith)
All-ids k id expected next (e ∷ es) es' a h = elim (updated_head id expected next e es es' h) [
  | inl (i, p, q) ↦ rw q (a.0, a.1)
  | inr (rest, u, q) ↦ rw q (a.0, All-ids k id expected next es rest a.1 u)
]

-- The ids stay distinct.
pub update-Distinct :
    (id : Text) (expected next : EarningStatus) (es es' : List EarningState)
    → Distinct es
    → update_earning_status id expected next es ≡ some es'
    → Distinct es'
unfolding update_earning_status
update-Distinct id expected next [] es' d h = absurd (ground arith)
update-Distinct id expected next (e ∷ es) es' d h =
    elim (updated_head id expected next e es es' h) [
      | inl (i, p, q) ↦ rw q (d.0, d.1)
      | inr (rest, u, q) ↦ rw q (
        All-ids e.id id expected next es rest d.0 u,
        update-Distinct id expected next es rest d.1 u,
      )
    ]

absent_row :
    (id : Text) (expected next : EarningStatus) (es : List EarningState)
    → All (λ x. x.id ≢ id) es
    → update_earning_status id expected next es ≡ none
unfolding update_earning_status
absent_row id expected next [] a = refl
absent_row id expected next (e ∷ es) a =
    ground (arith, eq_text_iff e.id id, a.0, absent_row id expected next es a.1)

-- Once a row has left the expected status, the compare-and-set hits none.
pub update_once :
    (id : Text) (expected next : EarningStatus) (es es' : List EarningState)
    → eq_status next expected ≡ false
    → Distinct es
    → update_earning_status id expected next es ≡ some es'
    → update_earning_status id expected next es' ≡ none
unfolding update_earning_status
update_once id expected next [] es' n d h = absurd (ground arith)
update_once id expected next (e ∷ es) es' n d h = elim (updated_head id expected next e es es' h) [
  | inl (i, p, q) ↦ rw q (
      ground (arith, n, absent_row id expected next es (subst (λ k. All (λ x. x.id ≢ k) es) i d.0)))
  | inr (rest, u, q) ↦ rw q (
      ground (
        arith,
        eq_text_iff e.id id,
        missed e id expected next es rest d.0 u,
        update_once id expected next es rest n d.1 u,
      ))
]
