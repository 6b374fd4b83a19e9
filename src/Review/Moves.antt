-- ===== src/Review/Moves.antt =====
-- Lemmas on the rows of earnings that the compare-and-set finds and leaves, one by one and in a loop over
-- allocations.
use kirimkode_partner.Base.{
  ◌≡◌, refl, sym, ap, ◌∙◌, ◌≢◌, inl, inr, true, some, List, [], ◌∷◌, arith, Bool-cases, All,
  All-map,
}
use kirimkode_partner.Int.{ℤ, pos, ◌+ℤ◌}
use kirimkode_partner.Text.{Text, eq_text, eq_text_iff}
use kirimkode_partner.Earning.{EarningStatus, EarningState}
use kirimkode_partner.Ledger.Transaction.{amount_of}
use kirimkode_partner.Payout.{PayoutAllocation}
use kirimkode_partner.Payout.Request.{Distinct}
use kirimkode_partner.Settlement.{
  eq_status, find_earning_by_id, move_earning, update_earning_status,
}
use kirimkode_partner.Settlement.Rows.{
  updated_head, status_sum, part, HasAmount, update-status_sum, update-All, update-Distinct, missed,
}
use kirimkode_partner.Settlement.Amounts.{own_amounts}
use kirimkode_partner.Settlement.Payouts.Locks.{two_moves, part_zero}
use kirimkode_partner.Review.Payouts.{earning_ids}
use kirimkode_partner.Review.{move_allocated}

module _ (id : Text) (expected next : EarningStatus) where
  -- The compare-and-set finds a row with the expected status, and moves it.
  pub update_found :
      (es es' : List EarningState)
      → Distinct es
      → update_earning_status id expected next es ≡ some es'
      → (e : EarningState) × (find_earning_by_id id es ≡ some e)
        × (e.status ≡ expected)
        × (find_earning_by_id id es' ≡ some (move_earning e next))
  unfolding update_earning_status find_earning_by_id
  update_found [] es' d h = absurd (ground arith)
  update_found (e ∷ es) es' d h = elim (updated_head id expected next e es es' h) [
    | inl (i, p, q) ↦
        let y : eq_text e.id id ≡ true = (eq_text_iff e.id id).1 i in
        (e, ground (arith, y), p, rw q (ground (arith, y)))
    | inr (rest, u, q) ↦
        let (x, f, p, g) = update_found es rest d.1 u in
        let n = missed e id expected next es rest d.0 u in
        (
          x,
          ground (arith, f, n, eq_text_iff e.id id),
          p,
          rw q (ground (arith, g, n, eq_text_iff e.id id)),
        )
  ]

  -- It leaves the others.
  pub find_other :
      (k : Text) (es es' : List EarningState)
      → k ≢ id
      → update_earning_status id expected next es ≡ some es'
      → find_earning_by_id k es' ≡ find_earning_by_id k es
  unfolding update_earning_status find_earning_by_id
  find_other k [] es' n h = absurd (ground arith)
  find_other k (e ∷ es) es' n h = elim (updated_head id expected next e es es' h) [
    | inl (i, p, q) ↦ rw q (ground (arith, i, n, eq_text_iff e.id k))
    | inr (rest, u, q) ↦ rw q (ground (arith, find_other k es rest n u))
  ]

  -- It hits wherever the row has the expected status.
  pub update_hits :
      (es : List EarningState) (e : EarningState)
      → find_earning_by_id id es ≡ some e
      → e.status ≡ expected
      → (es' : List EarningState) × (update_earning_status id expected next es ≡ some es')
  unfolding update_earning_status find_earning_by_id
  update_hits [] e f s = absurd (ground arith)
  update_hits (x ∷ es) e f s = elim (Bool-cases (eq_text x.id id)) [
    | inl y ↦ (move_earning x next ∷ es, ground (arith, y))
    | inr n ↦
        (let (es', u) = update_hits es e (ground (arith, n)) s in (x ∷ es', ground (arith, n, u)))
  ]

-- The row of an allocation has a status, and the allocation's amount.
abbrev pub IsHeld : List EarningState → EarningStatus → PayoutAllocation → Type 0
IsHeld es status a =
    (e : EarningState) × (find_earning_by_id a.earning_id es ≡ some e)
    × (e.status ≡ status)
    × (amount_of e.amount_idr ≡ amount_of a.amount_idr)

-- The exact sum of the allocations.
abbrev pub allocation_sum : List PayoutAllocation → ℤ
allocation_sum [] = pos 0
allocation_sum (a ∷ as') = amount_of a.amount_idr +ℤ allocation_sum as'

-- No two texts are the same.
abbrev pub AllDiffer : List Text → Type 0
AllDiffer [] = Unit
AllDiffer (t ∷ ts) = All (λ u. u ≢ t) ts × AllDiffer ts

held_amounts :
    (es : List EarningState) (s : EarningStatus) (a : PayoutAllocation)
    → Distinct es
    → IsHeld es s a
    → All (HasAmount a.earning_id (amount_of a.amount_idr)) es
held_amounts es s a d (e, f, _, m) =
    All-map (λ r. r.id ≡ a.earning_id → r.amount_idr ≡ e.amount_idr)
      (HasAmount a.earning_id (amount_of a.amount_idr)) es (λ r p q. ap amount_of (p q) ∙ m)
      (own_amounts a.earning_id e es d f)

-- An allocation is held as before where its row is found as before.
pub IsHeld-same :
    (es es' : List EarningState) (s : EarningStatus) (a : PayoutAllocation)
    → find_earning_by_id a.earning_id es' ≡ find_earning_by_id a.earning_id es
    → IsHeld es s a
    → IsHeld es' s a
IsHeld-same es es' s a same (e, f, p, m) = (e, same ∙ f, p, m)

IsHeld-rest :
    (id : Text) (es es' : List EarningState) (s : EarningStatus) (as' : List PayoutAllocation)
    → ((k : Text) → k ≢ id → find_earning_by_id k es' ≡ find_earning_by_id k es)
    → All (λ u. u ≢ id) (earning_ids as')
    → All (IsHeld es s) as'
    → All (IsHeld es' s) as'
IsHeld-rest id es es' s [] same n h = tt
IsHeld-rest id es es' s (a ∷ as') same n h =
    (IsHeld-same es es' s a (same a.earning_id n.0) h.0, IsHeld-rest id es es' s as' same n.1 h.1)

-- What the loop over the allocations has done, if every allocation was held as `requested`.
pub record Moved (next : EarningStatus) (as' : List PayoutAllocation) (es es' : List EarningState)
    : Type 1 where
  pub distinct : Distinct es'
  pub held : All (IsHeld es' next) as'
  pub others :
      (k : Text)
      → All (λ u. u ≢ k) (earning_ids as')
      → find_earning_by_id k es' ≡ find_earning_by_id k es
  pub sums :
      (s : EarningStatus)
      → status_sum s es' +ℤ part (eq_status s EarningStatus.requested) (allocation_sum as')
        ≡ status_sum s es +ℤ part (eq_status s next) (allocation_sum as')
  pub keeps :
      (P : EarningState → Type 0)
      → ((e : EarningState) → e.status ≡ EarningStatus.requested → P e → P (move_earning e next))
      → All P es
      → All P es'

module _ (next : EarningStatus) where
  Moved-step :
      (a : PayoutAllocation) (as' : List PayoutAllocation) (es es₁ es' : List EarningState)
      → Distinct es
      → All (λ u. u ≢ a.earning_id) (earning_ids as')
      → IsHeld es EarningStatus.requested a
      → update_earning_status a.earning_id EarningStatus.requested next es ≡ some es₁
      → Moved next as' es₁ es'
      → Moved next (a ∷ as') es es'
  Moved-step a as' es es₁ es' d n (e, f, p, m) u r =
      let id = a.earning_id in
      let (x, g, q, moved) = update_found id EarningStatus.requested next es es₁ d u in
      let same : x ≡ e = ground (arith, f, g) in
      record {
        distinct = r.distinct;
        held = ((move_earning x next, r.others id n ∙ moved, refl, rw same m), r.held);
        others = λ k o.
            r.others k o.1
            ∙ find_other id EarningStatus.requested next k es es₁ (λ z. o.0 (sym z)) u;
        sums = λ s.
            two_moves (eq_status s EarningStatus.requested) (eq_status s next)
              (amount_of a.amount_idr) (allocation_sum as') (status_sum s es) (status_sum s es₁)
              (status_sum s es')
              (update-status_sum id EarningStatus.requested next s (amount_of a.amount_idr) es es₁
                (held_amounts es EarningStatus.requested a d (e, f, p, m)) u)
              (r.sums s);
        keeps = λ P k z. r.keeps P k (
            update-All P P id EarningStatus.requested next es es₁ (λ x _ w. w) (λ x _ s w. k x s w)
              d z u);
      }

  pub move_allocated-Moved :
      (as' : List PayoutAllocation) (es : List EarningState)
      → Distinct es
      → AllDiffer (earning_ids as')
      → All (IsHeld es EarningStatus.requested) as'
      → Moved next as' es (move_allocated next as' es)
  unfolding move_allocated
  move_allocated-Moved [] es d n h = record {
    distinct = d;
    held = tt;
    others = λ k _. refl;
    sums = λ s.
        rw (part_zero (eq_status s EarningStatus.requested), part_zero (eq_status s next)) refl;
    keeps = λ P f p. p;
  }
  move_allocated-Moved (a ∷ as') es d n h =
      let id = a.earning_id in
      let (e, f, p, m) = h.0 in
      let (es₁, u) = update_hits id EarningStatus.requested next es e f p in
      let rest =
        move_allocated-Moved as' es₁ (update-Distinct id EarningStatus.requested next es es₁ d u)
          n.1
          (IsHeld-rest id es es₁ EarningStatus.requested as'
            (λ k o. find_other id EarningStatus.requested next k es es₁ o u) n.0 h.1) in
      rw u (Moved-step a as' es es₁ (move_allocated next as' es₁) d n.0 h.0 u rest)
