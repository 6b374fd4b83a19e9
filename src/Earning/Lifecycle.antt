-- ===== src/Earning/Lifecycle.antt =====
-- When an earning is created, released and reversed, and the money that each of the three moves.
use kirimkode_partner.Base.{
  ℕ, ◌+◌, ◌≤◌, ◌≡◌, refl, sym, ap, ◌↔◌, ◌⊎◌, inl, inr, Bool, true, false, none, arith, Result, ok,
  err,
}
use kirimkode_partner.Int.{ℤ, ◌+ℤ◌, ◌≤ℤ◌}
use kirimkode_partner.Number.{Number, int, num, max_safe}
use kirimkode_partner.Text.{Text, codes, is_blank}
use kirimkode_partner.Ledger.{
  DomainError, LedgerBucket, partner_pending, partner_available, partner_payout_locked,
  partner_paid, partner_reversed, platform_partner_payable, LedgerTransaction, order_success,
  hold_release, earning_reversal, create_transfer_transaction, order_success_event_key,
  hold_release_event_key, earning_reversal_event_key, assert_identifier, assert_valid_timestamp,
  assert_safe_amount, event_keys_nonblank,
}
use kirimkode_partner.Ledger.Transaction.{transfer_of, ok-transfer, transfer_ok}
use kirimkode_partner.Earning.{
  EarningStatus, pending, available, requested, paid, reversed, EarningState, CreateEarningInput,
  CreateEarningDecision, create, create_earning, earning_hold_period_ms, decide_earning_on_success,
  release, decide_hold_release, reverse, decide_earning_reversal, reverse_by_status, reverse_from,
}

-- The ledger bucket that holds the money of an earning of this status.
abbrev pub bucket_of : EarningStatus → LedgerBucket
bucket_of pending = partner_pending
bucket_of available = partner_available
bucket_of requested = partner_payout_locked
bucket_of paid = partner_paid
bucket_of reversed = partner_reversed

unfoldable pub release_transfer : Text → ℕ → LedgerTransaction
release_transfer id n =
    transfer_of hold_release (hold_release_event_key id) (codes "earning") id partner_pending
      partner_available n

-- The hold of an earning ends: it is pending, undisputed, its time has come, and its money moves.
pub record Releases (e : EarningState) (now : Number) (dispute : Bool) (k : Text)
    (t : LedgerTransaction) : Type 0 where
  pub amount : ℕ
  pub due : ℤ
  pub at : ℤ
  pub amount_eq : e.amount_idr ≡ num amount
  pub positive : 1 ≤ amount
  pub safe : amount ≤ max_safe
  pub identified : is_blank e.id ≡ false
  pub waiting : e.status ≡ pending
  pub undisputed : dispute ≡ false
  pub due_eq : e.available_at ≡ int due
  pub at_eq : now ≡ int at
  pub elapsed : due ≤ℤ at
  pub keyed : k ≡ hold_release_event_key e.id
  pub moved : t ≡ release_transfer e.id amount

release-Releases :
    (e : EarningState) (now avail : Number) (dispute : Bool) (k : Text) (t : LedgerTransaction)
    (r : Result DomainError LedgerTransaction)
    → e.available_at ≡ avail
    → create_transfer_transaction hold_release
        (hold_release_event_key e.id)
        (codes "earning")
        e.id
        partner_pending
        partner_available
        e.amount_idr
      ≡ r
    → decide_hold_release e now dispute ≡ ok (release k t)
    → Releases e now dispute k t
unfolding decide_hold_release assert_valid_timestamp release_transfer
release-Releases e (int z) (int y) dispute k t (ok u) a c h =
    let (n, amount, low, high, moved, d) =
      ok-transfer hold_release (hold_release_event_key e.id) (codes "earning") e.id partner_pending
        partner_available e.amount_idr u c in
    record {
      amount = n;
      due = y;
      at = z;
      amount_eq = amount;
      positive = low;
      safe = high;
      identified = ground (arith, d.referenced);
      waiting = ground arith;
      undisputed = ground arith;
      due_eq = a;
      at_eq = refl;
      elapsed = ground arith;
      keyed = ground arith;
      moved = ground arith;
    }
release-Releases e now avail dispute k t r a c h = absurd (ground arith)

Releases-release :
    (e : EarningState) (now : Number) (dispute : Bool) (k : Text) (t : LedgerTransaction)
    → Releases e now dispute k t
    → decide_hold_release e now dispute ≡ ok (release k t)
unfolding decide_hold_release assert_valid_timestamp release_transfer is_blank
Releases-release e now dispute k t h = ground (
  arith,
  transfer_ok hold_release (hold_release_event_key e.id) (codes "earning") e.id partner_pending
      partner_available h.amount (event_keys_nonblank e.id).1 refl h.identified refl refl h.positive
      h.safe,
)

-- A hold is released exactly if the earning is pending and undisputed, both times are valid and the due
-- time has come, and its id and amount are valid; the ledger then moves the whole amount from the
-- pending to the available bucket, under the earning's own event key.
pub earning_release_iff :
    (e : EarningState) (now : Number) (dispute : Bool) (k : Text) (t : LedgerTransaction)
    → (decide_hold_release e now dispute ≡ ok (release k t)) ↔ Releases e now dispute k t
earning_release_iff e now dispute k t = (
  release-Releases e now e.available_at dispute k t _ refl refl,
  Releases-release e now dispute k t,
)

unfoldable pub reversal_transfer : EarningStatus → Text → ℕ → LedgerTransaction
reversal_transfer status id n =
    transfer_of earning_reversal (earning_reversal_event_key id) (codes "earning") id
      (bucket_of status) partner_reversed n

-- An earning may be taken back: it was not yet requested, a reason is given, and its money moves.
pub record Reverses (e : EarningState) (reason k : Text) (t : LedgerTransaction) : Type 0 where
  pub amount : ℕ
  pub amount_eq : e.amount_idr ≡ num amount
  pub positive : 1 ≤ amount
  pub safe : amount ≤ max_safe
  pub identified : is_blank e.id ≡ false
  pub unrequested : (e.status ≡ pending) ⊎ (e.status ≡ available)
  pub reasoned : is_blank reason ≡ false
  pub keyed : k ≡ earning_reversal_event_key e.id
  pub moved : t ≡ reversal_transfer e.status e.id amount

reverse_from-Reverses :
    (from : LedgerBucket) (e : EarningState) (reason k : Text) (t : LedgerTransaction)
    (r : Result DomainError LedgerTransaction)
    → (e.status ≡ pending) ⊎ (e.status ≡ available)
    → from ≡ bucket_of e.status
    → create_transfer_transaction earning_reversal
        (earning_reversal_event_key e.id)
        (codes "earning")
        e.id
        from
        partner_reversed
        e.amount_idr
      ≡ r
    → reverse_from from e reason (earning_reversal_event_key e.id) ≡ ok (reverse k t)
    → Reverses e reason k t
unfolding reverse_from reversal_transfer
reverse_from-Reverses from e reason k t (err x) s b c h = absurd (ground arith)
reverse_from-Reverses from e reason k t (ok u) s b c h =
    let (n, amount, low, high, moved, d) =
      ok-transfer earning_reversal (earning_reversal_event_key e.id) (codes "earning") e.id from
        partner_reversed e.amount_idr u c in
    record {
      amount = n;
      amount_eq = amount;
      positive = low;
      safe = high;
      identified = ground (arith, d.referenced);
      unrequested = s;
      reasoned = ground arith;
      keyed = ground arith;
      moved = ground arith;
    }

reverse-Reverses :
    (s : EarningStatus) (e : EarningState) (reason k : Text) (t : LedgerTransaction)
    → e.status ≡ s
    → reverse_by_status s e reason (earning_reversal_event_key e.id) ≡ ok (reverse k t)
    → Reverses e reason k t
unfolding reverse_by_status
reverse-Reverses pending e reason k t q h =
    reverse_from-Reverses partner_pending e reason k t _ (inl q) (ap bucket_of (sym q)) refl h
reverse-Reverses available e reason k t q h =
    reverse_from-Reverses partner_available e reason k t _ (inr q) (ap bucket_of (sym q)) refl h
reverse-Reverses _ e reason k t q h = absurd (ground arith)

Reverses-reverse :
    (s : EarningStatus) (e : EarningState) (reason k : Text) (t : LedgerTransaction)
    → e.status ≡ s
    → Reverses e reason k t
    → reverse_by_status s e reason (earning_reversal_event_key e.id) ≡ ok (reverse k t)
unfolding reverse_by_status reverse_from reversal_transfer is_blank
Reverses-reverse pending e reason k t q h = ground (
  arith,
  transfer_ok earning_reversal (earning_reversal_event_key e.id) (codes "earning") e.id
      partner_pending partner_reversed h.amount (event_keys_nonblank e.id).2 refl h.identified refl
      refl h.positive h.safe,
)
Reverses-reverse available e reason k t q h = ground (
  arith,
  transfer_ok earning_reversal (earning_reversal_event_key e.id) (codes "earning") e.id
      partner_available partner_reversed h.amount (event_keys_nonblank e.id).2 refl h.identified
      refl refl h.positive h.safe,
)
Reverses-reverse s e reason k t q h = absurd (ground (arith, h.unrequested))

-- An earning is reversed exactly if it is still pending or available, a reason is given, and its id and
-- amount are valid; the ledger then moves the whole amount from the bucket of the earning's status to
-- the reversed bucket. A requested or paid earning is never reversed.
pub reverse_iff :
    (e : EarningState) (reason k : Text) (t : LedgerTransaction)
    → (decide_earning_reversal e reason ≡ ok (reverse k t)) ↔ Reverses e reason k t
unfolding decide_earning_reversal
reverse_iff e reason k t =
    (reverse-Reverses e.status e reason k t refl, Reverses-reverse e.status e reason k t refl)

unfoldable pub success_transfer : Text → ℕ → LedgerTransaction
success_transfer order_id n =
    transfer_of order_success (order_success_event_key order_id) (codes "order") order_id
      platform_partner_payable partner_pending n

abbrev pub success_input : Text → Text → ℕ → ℕ → Bool → CreateEarningInput
success_input earning_id order_id payout succeeded exists = record {
  earning_id = earning_id;
  order_id = order_id;
  payout_idr = num payout;
  succeeded_at = num succeeded;
  hold_period_ms = none;
  earning_exists_for_order = exists;
}

-- The first success of an order with a valid id, payout and time creates one pending earning of exactly
-- the snapshot's payout, available 24 hours later, and moves that amount from the platform's payable
-- bucket to the pending one; with an earning already there, the same call changes nothing.
pub success_creates_once :
    (earning_id order_id : Text) (payout succeeded : ℕ)
    → is_blank earning_id ≡ false
    → is_blank order_id ≡ false
    → 1 ≤ payout
    → payout ≤ max_safe
    → succeeded + earning_hold_period_ms ≤ 8640000000000000
    → (decide_earning_on_success (success_input earning_id order_id payout succeeded false)
        ≡ ok (
            create
              (order_success_event_key order_id)
              (record {
                id = earning_id;
                order_id = order_id;
                amount_idr = num payout;
                status = pending;
                available_at = num (succeeded + earning_hold_period_ms);
              })
              (success_transfer order_id payout)))
      × (decide_earning_on_success (success_input earning_id order_id payout succeeded true)
          ≡ ok (CreateEarningDecision.no_change (order_success_event_key order_id)))
unfolding decide_earning_on_success create_earning assert_identifier assert_safe_amount
    assert_valid_timestamp success_transfer is_blank ◌+ℤ◌
success_creates_once earning_id order_id payout succeeded be bo low high t =
    let made =
      transfer_ok order_success (order_success_event_key order_id) (codes "order") order_id
        platform_partner_payable partner_pending payout (event_keys_nonblank order_id).0 refl bo
        refl refl low high in
    (ground (arith, made), ground arith)
