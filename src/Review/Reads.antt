-- ===== src/Review/Reads.antt =====
-- Lemmas on what was read of the books at an earlier point.
use mathlib.Core.Path.{subst}
use kirimkode_partner.Base.{
  ◌≡◌, refl, ap, ◌∙◌, ◌≢◌, inl, inr, Bool, true, false, Option, none, some, List, [], ◌∷◌, ◌&&◌,
  arith, All, All-map, Bool-cases, if◌then◌else◌,
}
use kirimkode_partner.Text.{Text, eq_text, eq_text_iff}
use kirimkode_partner.Earning.{EarningStatus, EarningState}
use kirimkode_partner.Payout.{PayoutStatus, PayoutAllocation, eq_payout}
use kirimkode_partner.Payout.Request.{Distinct}
use kirimkode_partner.Settlement.{update_earning_status}
use kirimkode_partner.Settlement.Rows.{update-All, update-Distinct}
use kirimkode_partner.Settlement.Amounts.{IsStable}
use kirimkode_partner.Review.Rows.{PayoutRow}
use kirimkode_partner.Review.{
  find_payout, advanced, advance_payout, move_allocated, or_same, move_if, release_allocations,
  release_if,
}
use kirimkode_partner.Review.Moves.{AllDiffer}
use kirimkode_partner.Review.Invariant.{payout_ids}
use kirimkode_partner.Review.Settles.{some_behind}
use kirimkode_partner.Review.Reviews.{AreReadPayouts}

-- The parts of a payout that never change.
abbrev pub SameCore : PayoutRow → PayoutRow → Type 0
SameCore p q =
    (q.payout.id ≡ p.payout.id)
    × (q.payout.allocations ≡ p.payout.allocations)
    × (q.payout.amount_idr ≡ p.payout.amount_idr)

abbrev SameRows : List PayoutRow → List PayoutRow → Type 0
SameRows [] [] = Unit
SameRows [] (q ∷ qs) = ⊥
SameRows (p ∷ ps) [] = ⊥
SameRows (p ∷ ps) (q ∷ qs) = SameCore p q × SameRows ps qs

SameRows-refl : (ps : List PayoutRow) → SameRows ps ps
SameRows-refl [] = tt
SameRows-refl (p ∷ ps) = ((refl, refl, refl), SameRows-refl ps)

find_same :
    (k : Text) (ps qs : List PayoutRow) (p : PayoutRow)
    → SameRows ps qs
    → find_payout k ps ≡ some p
    → (q : PayoutRow) × (find_payout k qs ≡ some q) × SameCore p q
unfolding find_payout
find_same k [] qs p s h = absurd (ground arith)
find_same k (x ∷ ps) [] p s h = elim s [ ]
find_same k (x ∷ ps) (y ∷ qs) p ((i, a, m), s) h = elim (Bool-cases (eq_text x.payout.id k)) [
  | inl e ↦
      let same : x ≡ p = ground (arith, e) in
      (y, ground (arith, e, i), subst (λ z. SameCore z y) same (i, a, m))
  | inr n ↦
      let (q, f, c) = find_same k ps qs p s (ground (arith, n)) in (q, ground (arith, n, i, f), c)
]

advance_same :
    (id : Text) (expected next : PayoutStatus) (reference : Option Text) (ps qs : List PayoutRow)
    → advance_payout id expected next reference ps ≡ some qs
    → SameRows ps qs
unfolding advance_payout
advance_same id expected next reference [] qs h = absurd (ground arith)
advance_same id expected next reference (p ∷ ps) qs h =
    elim (Bool-cases (eq_text p.payout.id id && eq_payout p.payout.status expected)) [
      | inl y ↦
          let same : qs ≡ advanced p next reference ∷ ps = ground (arith, y) in
          rw same ((refl, refl, refl), SameRows-refl ps)
      | inr n ↦
          let (rest, u, e) =
            some_behind p (advance_payout id expected next reference ps) qs (ground (arith, n)) in
          rw e ((refl, refl, refl), advance_same id expected next reference ps rest u)
    ]

released_core :
    (b : Bool) (p : PayoutRow) → SameCore p (if b then record p { released = true } else p)
released_core true p = (refl, refl, refl)
released_core false p = (refl, refl, refl)

release_same : (id : Text) (ps : List PayoutRow) → SameRows ps (release_allocations id ps)
unfolding release_allocations
release_same id [] = tt
release_same id (p ∷ ps) = (released_core (eq_text p.payout.id id) p, release_same id ps)

release_if_same :
    (next : Option EarningStatus) (id : Text) (ps : List PayoutRow)
    → SameRows ps (release_if next id ps)
release_if_same none id ps = SameRows-refl ps
release_if_same (some EarningStatus.available) id ps = release_same id ps
release_if_same (some s) id ps = SameRows-refl ps

-- Every payout that was read is still there, with the same core.
abbrev pub Keeps : List PayoutRow → List PayoutRow → Type 0
Keeps seen ps =
    (id : Text) (p : PayoutRow)
    → find_payout id seen ≡ some p
    → (q : PayoutRow) × (find_payout id ps ≡ some q) × SameCore p q

pub Keeps-refl : (ps : List PayoutRow) → Keeps ps ps
Keeps-refl ps id p h = (p, h, (refl, refl, refl))

core_trans : (p q r : PayoutRow) → SameCore p q → SameCore q r → SameCore p r
core_trans p q r (a, b, c) (x, y, z) = (x ∙ a, y ∙ b, z ∙ c)

same-Keeps : (seen ps qs : List PayoutRow) → SameRows ps qs → Keeps seen ps → Keeps seen qs
same-Keeps seen ps qs s k id p h =
    let (q, f, c) = k id p h in
    let (r, g, d) = find_same id ps qs q s f in (r, g, core_trans p q r c d)

pub reviewed-Keeps :
    (seen ps qs : List PayoutRow) (id : Text) (expected next : PayoutStatus)
    (reference : Option Text) (target : Option EarningStatus)
    → advance_payout id expected next reference ps ≡ some qs
    → Keeps seen ps
    → Keeps seen (release_if target id qs)
reviewed-Keeps seen ps qs id expected next reference target h k =
    same-Keeps seen qs (release_if target id qs) (release_if_same target id qs)
      (same-Keeps seen ps qs (advance_same id expected next reference ps qs h) k)

absent_payout :
    (id : Text) (ps : List PayoutRow) → All (λ u. u ≢ id) (payout_ids ps) → find_payout id ps ≡ none
unfolding find_payout
absent_payout id [] n = refl
absent_payout id (p ∷ ps) n =
    ground (arith, n.0, eq_text_iff p.payout.id id, absent_payout id ps n.1)

pub added-Keeps :
    (seen ps : List PayoutRow) (p : PayoutRow)
    → All (λ u. u ≢ p.payout.id) (payout_ids ps)
    → Keeps seen ps
    → Keeps seen (p ∷ ps)
unfolding find_payout
added-Keeps seen ps p n k id x h =
    let (q, f, c) = k id x h in
    elim (Bool-cases (eq_text p.payout.id id)) [
      | inl e ↦
          let same : p.payout.id ≡ id = (eq_text_iff p.payout.id id).0 e in
          absurd (
            ground (
              arith,
              f,
              absent_payout id ps (subst (λ z. All (λ u. u ≢ z) (payout_ids ps)) same n),
            ))
      | inr e ↦ (q, ground (arith, e, f), c)
    ]

find_payout_id :
    (id : Text) (ps : List PayoutRow) (p : PayoutRow)
    → find_payout id ps ≡ some p
    → p.payout.id ≡ id
unfolding find_payout
find_payout_id id [] p h = absurd (ground arith)
find_payout_id id (x ∷ ps) p h = elim (Bool-cases (eq_text x.payout.id id)) [
  | inl y ↦ ground (arith, y, eq_text_iff x.payout.id id)
  | inr n ↦ find_payout_id id ps p (ground (arith, n))
]

others_read :
    (id : Text) (q : PayoutRow) (ps : List PayoutRow)
    → All (λ u. u ≢ id) (payout_ids ps)
    → All (λ r. r.payout.id ≡ id → r ≡ q) ps
others_read id q [] n = tt
others_read id q (p ∷ ps) n = ((λ e. absurd (n.0 e)), others_read id q ps n.1)

only_row :
    (id : Text) (q : PayoutRow) (ps : List PayoutRow)
    → AllDiffer (payout_ids ps)
    → find_payout id ps ≡ some q
    → All (λ r. r.payout.id ≡ id → r ≡ q) ps
unfolding find_payout
only_row id q [] d h = tt
only_row id q (p ∷ ps) d h = elim (Bool-cases (eq_text p.payout.id id)) [
  | inl y ↦
      let e : p.payout.id ≡ id = (eq_text_iff p.payout.id id).0 y in
      (
        (λ _. ground (arith, y)),
        others_read id q ps (subst (λ z. All (λ u. u ≢ z) (payout_ids ps)) e d.0),
      )
  | inr n ↦ (
    (λ e. absurd (ground (arith, n, (eq_text_iff p.payout.id id).1 e))),
    only_row id q ps d.1 (ground (arith, n)),
  )
]

-- What was kept was read rightly.
pub Keeps-AreReadPayouts :
    (seen ps : List PayoutRow) → AllDiffer (payout_ids ps) → Keeps seen ps → AreReadPayouts seen ps
Keeps-AreReadPayouts seen ps d k id p h =
    let (q, f, (_, a, m)) = k id p h in
    let own = find_payout_id id seen p h in
    All-map (λ r. r.payout.id ≡ id → r ≡ q)
      (λ r.
        r.payout.id ≡ p.payout.id
        → (r.payout.allocations ≡ p.payout.allocations)
          × (r.payout.amount_idr ≡ p.payout.amount_idr))
      ps
      (λ r g e. (
        ap (λ x. x.payout.allocations) (g (e ∙ own)) ∙ a,
        ap (λ x. x.payout.amount_idr) (g (e ∙ own)) ∙ m,
      ))
      (only_row id q ps d f)

module _ (P : EarningState → Type 0) (stable : IsStable P) where
  or_same-All :
      (id : Text) (next : EarningStatus) (es : List EarningState) (o : Option (List EarningState))
      → update_earning_status id EarningStatus.requested next es ≡ o
      → Distinct es
      → All P es
      → Distinct (or_same es o) × All P (or_same es o)
  or_same-All id next es none u d p = (d, p)
  or_same-All id next es (some es') u d p = (
    update-Distinct id EarningStatus.requested next es es' d u,
    update-All P P id EarningStatus.requested next es es' (λ e _ p. p) (λ e _ _ p. stable e next p)
        d p u,
  )

  moved-All :
      (next : EarningStatus) (as' : List PayoutAllocation) (es : List EarningState)
      → Distinct es
      → All P es
      → All P (move_allocated next as' es)
  unfolding move_allocated
  moved-All next [] es d p = p
  moved-All next (a ∷ as') es d p =
      let (e, q) =
        or_same-All a.earning_id next es
          (update_earning_status a.earning_id EarningStatus.requested next es) refl d p in
      moved-All next as'
        (or_same es (update_earning_status a.earning_id EarningStatus.requested next es)) e q

  pub move_if-All :
      (next : Option EarningStatus) (as' : List PayoutAllocation) (es : List EarningState)
      → Distinct es
      → All P es
      → All P (move_if next as' es)
  move_if-All none as' es d p = p
  move_if-All (some s) as' es d p = moved-All s as' es d p
