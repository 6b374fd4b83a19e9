-- ===== src/Settlement/Moved.antt =====
-- A move of an earning row with its ledger event, on a settled store.
use mathlib.Core.Path.{subst}
use kirimkode_partner.Base.{
  ℕ, ◌≡◌, refl, ap, ◌∙◌, ◌⊎◌, inl, inr, false, some, List, [], ◌∷◌, arith, Bool-cases, All,
}
use kirimkode_partner.Number.{Number, num}
use kirimkode_partner.Text.{Text, eq_text, eq_text_iff}
use kirimkode_partner.Ledger.{hold_release_event_key, earning_reversal_event_key}
use kirimkode_partner.Earning.{EarningStatus, pending, available, reversed, EarningState}
use kirimkode_partner.Earning.Lifecycle.{release_transfer, reversal_transfer}
use kirimkode_partner.Settlement.{Store, find_earning_by_id, update_earning_status, has_key}
use kirimkode_partner.Int.{pos}
use kirimkode_partner.Ledger.Transaction.{amount_of}
use kirimkode_partner.Settlement.Rows.{
  update-status_sum, HasAmount, found_row, update-All, update-Distinct,
}
use kirimkode_partner.Settlement.Agreement.{
  IsUnreleased, IsUnreversed, IsSettled, moved_agrees, hold_keys_differ, reversal_keys_differ,
  hold_is_no_reversal,
}

pub find_id :
    (id : Text) (es : List EarningState) (e : EarningState)
    → find_earning_by_id id es ≡ some e
    → e.id ≡ id
unfolding find_earning_by_id
find_id id [] e h = absurd (ground arith)
find_id id (x ∷ es) e h = elim (Bool-cases (eq_text x.id id)) [
  | inl y ↦ ground (arith, y, eq_text_iff x.id id)
  | inr n ↦ find_id id es e (ground (arith, n))
]

pub amounts_read :
    (id : Text) (x : Number) (n : ℕ) (es : List EarningState)
    → x ≡ num n
    → All (λ r. r.id ≡ id → r.amount_idr ≡ x) es
    → All (HasAmount id (pos n)) es
amounts_read id x n [] e h = tt
amounts_read id x n (r ∷ es) e h = ((λ q. ap amount_of (h.0 q ∙ e)), amounts_read id x n es e h.1)

-- A release that moved its row.
pub released-IsSettled :
    (id : Text) (n : ℕ) (s : Store) (es : List EarningState)
    → IsSettled s
    → All (HasAmount id (pos n)) s.earnings
    → update_earning_status id pending available s.earnings ≡ some es
    → (has_key (hold_release_event_key id) s.ledger ≡ false)
      × IsSettled (record { earnings = es; ledger = release_transfer id n ∷ s.ledger })
unfolding release_transfer
released-IsSettled id n s es i a u =
    let (row, same, waits, absent) =
      found_row (IsUnreleased s.ledger) id pending available s.earnings es i.unreleased u in
    (
      subst (λ k. has_key (hold_release_event_key k) s.ledger ≡ false) same (absent waits),
      record {
        distinct = update-Distinct id pending available s.earnings es i.distinct u;
        agrees =
            moved_agrees pending available n (release_transfer id n) s es refl i.agrees
              (λ status. update-status_sum id pending available status (pos n) s.earnings es a u);
        unreleased =
            update-All (IsUnreleased s.ledger) (IsUnreleased (release_transfer id n ∷ s.ledger)) id
              pending available s.earnings es (λ x o p q. rw (hold_keys_differ id x.id o) (p q))
              (λ x _ _ _ q. absurd (ground arith)) i.distinct i.unreleased u;
        unreversed =
            update-All (IsUnreversed s.ledger) (IsUnreversed (release_transfer id n ∷ s.ledger)) id
              pending available s.earnings es (λ x _ p q. rw (hold_is_no_reversal id x.id).0 (p q))
              (λ x _ w p _.
                rw (hold_is_no_reversal id x.id).0 (p (λ z. absurd (ground (arith, w, z)))))
              i.distinct i.unreversed u;
      },
    )

-- A reversal that moved its row.
pub reversed-IsSettled :
    (id : Text) (from : EarningStatus) (n : ℕ) (s : Store) (es : List EarningState)
    → (from ≡ pending) ⊎ (from ≡ available)
    → IsSettled s
    → All (HasAmount id (pos n)) s.earnings
    → update_earning_status id from reversed s.earnings ≡ some es
    → (has_key (earning_reversal_event_key id) s.ledger ≡ false)
      × IsSettled (record { earnings = es; ledger = reversal_transfer from id n ∷ s.ledger })
unfolding reversal_transfer
reversed-IsSettled id from n s es f i a u =
    let (row, same, was, absent) =
      found_row (IsUnreversed s.ledger) id from reversed s.earnings es i.unreversed u in
    (
      subst (λ k. has_key (earning_reversal_event_key k) s.ledger ≡ false) same
          (absent (λ z. absurd (ground (arith, was, z, f)))),
      record {
        distinct = update-Distinct id from reversed s.earnings es i.distinct u;
        agrees =
            moved_agrees from reversed n (reversal_transfer from id n) s es refl i.agrees
              (λ status. update-status_sum id from reversed status (pos n) s.earnings es a u);
        unreleased =
            update-All (IsUnreleased s.ledger)
              (IsUnreleased (reversal_transfer from id n ∷ s.ledger)) id from reversed s.earnings es
              (λ x _ p q. rw (hold_is_no_reversal id x.id).1 (p q))
              (λ x _ _ _ q. absurd (ground arith)) i.distinct i.unreleased u;
        unreversed =
            update-All (IsUnreversed s.ledger)
              (IsUnreversed (reversal_transfer from id n ∷ s.ledger)) id from reversed s.earnings es
              (λ x o p q. rw (reversal_keys_differ id x.id o) (p q)) (λ x _ _ _ q. absurd (q refl))
              i.distinct i.unreversed u;
      },
    )
