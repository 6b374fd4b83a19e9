-- ===== src/Payout/Transition.antt =====
-- The theorems about the payout state machine.
use kirimkode_partner.Base.{
  ℕ, ◌≤◌, ◌≡◌, refl, ◌≢◌, ◌↔◌, ◌⊎◌, inl, inr, Bool, true, false, none, some, arith, if◌then◌else◌,
  Bool-cases, Result-cases, ok,
}
use kirimkode_partner.Number.{Number, num, max_safe}
use kirimkode_partner.Text.{Text, codes, eq_text, eq_text_iff, trim, is_blank}
use kirimkode_partner.Ledger.{
  payout_paid, payout_unlock, partner_available, partner_payout_locked, partner_paid,
  create_transfer_transaction, payout_paid_event_key, payout_unlock_event_key,
}
use kirimkode_partner.Ledger.Transaction.{transfer_of, ok-transfer}
use kirimkode_partner.Earning.{EarningStatus}
use kirimkode_partner.Payout.{
  PayoutStatus, PayoutState, PayoutCommand, approve, process, mark_paid, fail, AppliedPayout,
  PayoutTransitionDecision, apply, no_change, payment_reference_conflict, terminal_state_conflict,
  decide_payout_transition, settle_decision, unlock_decision, paid_decision, repeat_decision,
  is_terminal_payout_status, payout_target_status, eq_payout,
}

-- The workflow: requested, approved, processing, and then an end; a cancel from any of the three.
pub data Edge : PayoutStatus → PayoutStatus → Type 0 where
  approving : Edge PayoutStatus.requested PayoutStatus.approved
  processing : Edge PayoutStatus.approved PayoutStatus.processing
  paying : Edge PayoutStatus.processing PayoutStatus.paid
  rejecting :
      {s : PayoutStatus} → is_terminal_payout_status s ≡ false → Edge s PayoutStatus.rejected
  failing : {s : PayoutStatus} → is_terminal_payout_status s ≡ false → Edge s PayoutStatus.failed

apply_Edge :
    (s : PayoutStatus) (p : PayoutState) (c : PayoutCommand) (a : AppliedPayout)
    → p.status ≡ s
    → decide_payout_transition p c ≡ ok (apply a)
    → Edge s a.next_status
unfolding decide_payout_transition settle_decision unlock_decision paid_decision repeat_decision
apply_Edge PayoutStatus.requested p c a e h =
    grind (arith, approving, processing, paying, rejecting, failing)
apply_Edge s p c a e h = grind (arith, approving, processing, paying, rejecting, failing)

abbrev pub is_apply : PayoutTransitionDecision → Bool
is_apply (apply _) = true
is_apply _ = false

-- An applied command follows the workflow: requested to approved to processing to paid, or a rejection
-- or failure from one of the three; no other change of a payout's status is ever decided.
pub applied_follows_workflow :
    (p : PayoutState) (c : PayoutCommand) (a : AppliedPayout)
    → decide_payout_transition p c ≡ ok (apply a)
    → Edge p.status a.next_status
applied_follows_workflow p c a h = apply_Edge p.status p c a refl h

settled_decision : PayoutState → PayoutCommand → PayoutTransitionDecision
settled_decision p c =
    if eq_payout p.status (payout_target_status c)
    then repeat_decision p c
    else PayoutTransitionDecision.reject terminal_state_conflict

-- A paid, rejected or failed payout is settled for good: every command returns, with no exception,
-- and none is applied.
pub settled_absorbs :
    (p : PayoutState) (c : PayoutCommand)
    → is_terminal_payout_status p.status ≡ true
    → (d : PayoutTransitionDecision) × (decide_payout_transition p c ≡ ok d) × (is_apply d ≡ false)
unfolding decide_payout_transition repeat_decision settled_decision
settled_absorbs p c h = (settled_decision p c, ground arith, ground arith)

-- A payout that was paid is paid under one reference: asking to pay it again changes nothing if the
-- trimmed reference is the stored one, and is refused as a conflict if it is another.
pub paid_reference_conflict :
    (p : PayoutState) (reference stored : Text) (paid_at : Number) (actor_ref : Text)
    → p.status ≡ PayoutStatus.paid
    → p.payment_reference ≡ some stored
    → is_blank reference ≡ false
    → let d = decide_payout_transition p (mark_paid reference paid_at actor_ref) in
      ((d ≡ ok (no_change PayoutStatus.paid)) ↔ (stored ≡ trim reference))
      × ((d ≡ ok (PayoutTransitionDecision.reject payment_reference_conflict))
          ↔ (stored ≢ trim reference))
unfolding decide_payout_transition repeat_decision
paid_reference_conflict p reference stored paid_at actor_ref s r b =
    elim (Bool-cases (eq_text stored (trim reference))) [
      | inl same ↦ (
        (λ _. (eq_text_iff stored (trim reference)).0 same, λ _. ground arith),
        (
          λ h. absurd (ground arith),
          λ ne. absurd (ne ((eq_text_iff stored (trim reference)).0 same)),
        ),
      )
      | inr other ↦ (
        (
          λ h. absurd (ground arith),
          λ e. absurd (ground (arith, eq_text_iff stored (trim reference))),
        ),
        (λ _ e. ground (arith, eq_text_iff stored (trim reference)), λ _. ground arith),
      )
    ]

-- The money side of an applied command.
abbrev pub Workflow : AppliedPayout → Type 0
Workflow a = (a.earning_next_status ≡ none) × (a.transaction ≡ none)

abbrev pub Paid : PayoutState → AppliedPayout → ℕ → Type 0
Paid p a n =
    (a.next_status ≡ PayoutStatus.paid)
    × (a.earning_next_status ≡ some EarningStatus.paid)
    × (a.transaction
        ≡ some (
            transfer_of payout_paid (payout_paid_event_key p.id) (codes "payout") p.id
              partner_payout_locked partner_paid n))

abbrev pub Unlocked : PayoutState → AppliedPayout → ℕ → Type 0
Unlocked p a n =
    ((a.next_status ≡ PayoutStatus.rejected) ⊎ (a.next_status ≡ PayoutStatus.failed))
    × (a.earning_next_status ≡ some EarningStatus.available)
    × (a.transaction
        ≡ some (
            transfer_of payout_unlock (payout_unlock_event_key p.id) (codes "payout") p.id
              partner_payout_locked partner_available n))

-- The payout's amount is `n`, a safe integer of one at least.
abbrev pub IsAmount : PayoutState → ℕ → Type 0
IsAmount p n = (p.amount_idr ≡ num n) × (1 ≤ n) × (n ≤ max_safe)

-- What each command does when it is applied.
abbrev pub Settles : PayoutState → PayoutCommand → AppliedPayout → Type 0
Settles p approve a = (a.next_status ≡ PayoutStatus.approved) × Workflow a
Settles p process a = (a.next_status ≡ PayoutStatus.processing) × Workflow a
Settles p (mark_paid reference paid_at actor_ref) a = (n : ℕ) × IsAmount p n × Paid p a n
Settles p (PayoutCommand.reject reason actor_ref) a =
    (n : ℕ) × IsAmount p n × (a.next_status ≡ PayoutStatus.rejected) × Unlocked p a n
Settles p (fail reason actor_ref) a =
    (n : ℕ) × IsAmount p n × (a.next_status ≡ PayoutStatus.failed) × Unlocked p a n

Paid-moves :
    (p : PayoutState) (reference : Text) (at : Number) (actor : Text) (a : AppliedPayout)
    → paid_decision p reference at actor ≡ ok (apply a)
    → (n : ℕ) × IsAmount p n × Paid p a n
unfolding paid_decision
Paid-moves p reference at actor a h =
    elim (Result-cases (
      create_transfer_transaction payout_paid (payout_paid_event_key p.id) (codes "payout") p.id
        partner_payout_locked partner_paid p.amount_idr)) [
          | inl (x, e) ↦ absurd (ground arith)
          | inr (t, e) ↦
              let (n, amount, low, high, moved, _) =
                ok-transfer payout_paid (payout_paid_event_key p.id) (codes "payout") p.id
                  partner_payout_locked partner_paid p.amount_idr t e in
              (n, (amount, low, high), (ground arith, ground arith, ground arith))
        ]

unlock_moves :
    (p : PayoutState) (target : PayoutStatus) (reason actor : Text) (a : AppliedPayout)
    → (target ≡ PayoutStatus.rejected) ⊎ (target ≡ PayoutStatus.failed)
    → unlock_decision p target reason actor ≡ ok (apply a)
    → (n : ℕ) × IsAmount p n × (a.next_status ≡ target) × Unlocked p a n
unfolding unlock_decision
unlock_moves p target reason actor a t h =
    elim (Result-cases (
      create_transfer_transaction payout_unlock (payout_unlock_event_key p.id) (codes "payout") p.id
        partner_payout_locked partner_available p.amount_idr)) [
          | inl (x, e) ↦ absurd (ground arith)
          | inr (u, e) ↦
              let (n, amount, low, high, moved, _) =
                ok-transfer payout_unlock (payout_unlock_event_key p.id) (codes "payout") p.id
                  partner_payout_locked partner_available p.amount_idr u e in
              (n, (amount, low, high), ground arith, (ground arith, ground arith, ground arith))
        ]

settle_Settles :
    (p : PayoutState) (c : PayoutCommand) (a : AppliedPayout)
    → settle_decision p c ≡ ok (apply a)
    → Settles p c a
unfolding settle_decision
settle_Settles p approve a h = (ground arith, (ground arith, ground arith))
settle_Settles p process a h = (ground arith, (ground arith, ground arith))
settle_Settles p (mark_paid r t actor) a h = Paid-moves p r t actor a h
settle_Settles p (PayoutCommand.reject r actor) a h = unlock_moves p _ r actor a (inl refl) h
settle_Settles p (fail r actor) a h = unlock_moves p _ r actor a (inr refl) h

-- What each command does with the money when it is applied: an approval and a processing step move none,
-- with no ledger transaction and no change of the earnings; a payment makes the payout paid and moves its
-- whole amount, a safe integer of one at least, from the locked bucket to the paid one, and its earnings
-- to `paid`; a rejection makes it rejected, a failure failed, and each moves the whole amount back to the
-- available bucket and the earnings to `available`.
pub applied_moves_money :
    (p : PayoutState) (c : PayoutCommand) (a : AppliedPayout)
    → decide_payout_transition p c ≡ ok (apply a)
    → Settles p c a
unfolding decide_payout_transition repeat_decision
applied_moves_money p c a h = settle_Settles p c a (ground arith)

-- The same without the command: no money, or the whole amount paid or unlocked.
pub Settles-cases :
    (p : PayoutState) (c : PayoutCommand) (a : AppliedPayout)
    → Settles p c a
    → Workflow a
      ⊎ ((n : ℕ) × (p.amount_idr ≡ num n)
          × (1 ≤ n)
          × (n ≤ max_safe)
          × (Paid p a n ⊎ Unlocked p a n))
Settles-cases p approve a s = inl s.1
Settles-cases p process a s = inl s.1
Settles-cases p (mark_paid r t actor) a (n, (e, low, high), paid) = inr (n, e, low, high, inl paid)
Settles-cases p (PayoutCommand.reject r actor) a (n, (e, low, high), _, u) =
    inr (n, e, low, high, inr u)
Settles-cases p (fail r actor) a (n, (e, low, high), _, u) = inr (n, e, low, high, inr u)
