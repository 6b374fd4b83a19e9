-- ===== src/Review/Ends.antt =====
-- Lemmas on the end of a payout: its transaction, and the store that it leaves.
use mathlib.Core.Path.{subst}
use kirimkode_partner.Base.{ℕ, ◌≡◌, refl, ◌≢◌, ◌⊎◌, inl, inr, false, List, ◌∷◌, arith, All-map}
use kirimkode_partner.Int.{pos, ◌+ℤ◌}
use kirimkode_partner.Number.{num}
use kirimkode_partner.Text.{Text, codes, eq_text, eq_text_iff}
use kirimkode_partner.Ledger.{
  LedgerTransaction, transfer_entries, partner_payout_locked, payout_paid, payout_unlock,
  partner_paid, partner_available, hold_release_event_key, earning_reversal_event_key,
  payout_paid_event_key, payout_unlock_event_key,
}
use kirimkode_partner.Ledger.Transaction.{transfer_of}
use kirimkode_partner.Earning.{EarningStatus, EarningState}
use kirimkode_partner.Earning.Lifecycle.{bucket_of}
use kirimkode_partner.Payout.{PayoutAllocation}
use kirimkode_partner.Settlement.{Store, eq_status, has_key}
use kirimkode_partner.Settlement.Rows.{status_sum, part}
use kirimkode_partner.Settlement.Agreement.{IsUnreleased, IsUnreversed, IsSettled, moved_agrees}
use kirimkode_partner.Review.Moves.{allocation_sum, Moved}
use kirimkode_partner.Review.Replaced.{AddsOwnEnd}

-- A transaction that ends the payout `id`, moving `n` out of the locked bucket.
pub record IsEnd (id : Text) (next : EarningStatus) (n : ℕ) (t : LedgerTransaction) : Type 0 where
  pub target : (next ≡ EarningStatus.paid) ⊎ (next ≡ EarningStatus.available)
  pub entries : t.entries ≡ transfer_entries partner_payout_locked (bucket_of next) (num n)
  pub own_key :
      (t.event_key ≡ payout_paid_event_key id) ⊎ (t.event_key ≡ payout_unlock_event_key id)

abbrev pub paid_of : Text → ℕ → LedgerTransaction
paid_of id n =
    transfer_of payout_paid (payout_paid_event_key id) (codes "payout") id partner_payout_locked
      partner_paid n

abbrev pub unlock_of : Text → ℕ → LedgerTransaction
unlock_of id n =
    transfer_of payout_unlock (payout_unlock_event_key id) (codes "payout") id partner_payout_locked
      partner_available n

pub paid-IsEnd : (id : Text) (n : ℕ) → IsEnd id EarningStatus.paid n (paid_of id n)
paid-IsEnd id n = record { target = inl refl; entries = refl; own_key = inl refl }

pub unlock-IsEnd : (id : Text) (n : ℕ) → IsEnd id EarningStatus.available n (unlock_of id n)
unlock-IsEnd id n = record { target = inr refl; entries = refl; own_key = inr refl }

end_is_other :
    (a b : Text)
    → (eq_text (payout_paid_event_key a) (hold_release_event_key b) ≡ false)
      × (eq_text (payout_paid_event_key a) (earning_reversal_event_key b) ≡ false)
      × (eq_text (payout_unlock_event_key a) (hold_release_event_key b) ≡ false)
      × (eq_text (payout_unlock_event_key a) (earning_reversal_event_key b) ≡ false)
unfolding hold_release_event_key earning_reversal_event_key payout_paid_event_key
    payout_unlock_event_key
end_is_other a b = (refl, refl, refl, refl)

ends_differ :
    (a b : Text)
    → b ≢ a
    → (eq_text (payout_paid_event_key a) (payout_paid_event_key b) ≡ false)
      × (eq_text (payout_paid_event_key a) (payout_unlock_event_key b) ≡ false)
      × (eq_text (payout_unlock_event_key a) (payout_paid_event_key b) ≡ false)
      × (eq_text (payout_unlock_event_key a) (payout_unlock_event_key b) ≡ false)
unfolding payout_paid_event_key payout_unlock_event_key
ends_differ a b n = (ground (arith, eq_text_iff a b), refl, refl, ground (arith, eq_text_iff a b))

module _ (id : Text) (next : EarningStatus) (n : ℕ) (t : LedgerTransaction)
    (d : IsEnd id next n t) where
  foreign_keys :
      (k : Text)
      → (eq_text t.event_key (hold_release_event_key k) ≡ false)
        × (eq_text t.event_key (earning_reversal_event_key k) ≡ false)
  foreign_keys k =
      let (a, b, c, e) = end_is_other id k in
      elim d.own_key [ inl p ↦ rw p (a, b) | inr p ↦ rw p (c, e) ]

  pub end-AddsOwnEnd : (l : List LedgerTransaction) → AddsOwnEnd id l (t ∷ l)
  end-AddsOwnEnd l k ne =
      let (a, b, c, e) = ends_differ id k ne in
      elim d.own_key [
        | inl p ↦ rw p ((λ h. rw a h), (λ h. rw b h))
        | inr p ↦ rw p ((λ h. rw c h), (λ h. rw e h))
      ]

  pub end_is_new :
      (l : List LedgerTransaction)
      → has_key (payout_paid_event_key id) l ≡ false
      → has_key (payout_unlock_event_key id) l ≡ false
      → has_key t.event_key l ≡ false
  end_is_new l p u = elim d.own_key [ inl e ↦ rw e p | inr e ↦ rw e u ]

  -- The allocated earnings are moved with the money.
  pub ended-IsSettled :
      (as' : List PayoutAllocation) (s : Store) (es' : List EarningState)
      → IsSettled s
      → allocation_sum as' ≡ pos n
      → Moved next as' s.earnings es'
      → IsSettled (record { earnings = es'; ledger = t ∷ s.ledger })
  ended-IsSettled as' s es' i sum m = record {
    distinct = m.distinct;
    agrees = moved_agrees EarningStatus.requested next n t s es' d.entries i.agrees (λ status.
        subst
          (λ z.
            status_sum status es' +ℤ part (eq_status status EarningStatus.requested) z
            ≡ status_sum status s.earnings +ℤ part (eq_status status next) z)
          sum (m.sums status));
    unreleased =
        All-map (IsUnreleased s.ledger) (IsUnreleased (t ∷ s.ledger)) es'
          (λ e p z. rw (foreign_keys e.id).0 (p z))
          (m.keeps (IsUnreleased s.ledger) (λ e w p z. absurd (ground (arith, d.target, z)))
            i.unreleased);
    unreversed =
        All-map (IsUnreversed s.ledger) (IsUnreversed (t ∷ s.ledger)) es'
          (λ e p z. rw (foreign_keys e.id).1 (p z))
          (m.keeps (IsUnreversed s.ledger) (λ e w p z. p (λ q. absurd (ground (arith, w, q))))
            i.unreversed);
  }
