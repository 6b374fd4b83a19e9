-- ===== src/Sms/Ingestion/Creates.antt =====
-- What the decisions of a first success give to the run: the earning and its transaction, and a number
-- that stays as it is.
use kirimkode_partner.Base.{
  ℕ, ◌≤◌, ◌≡◌, refl, Bool, false, arith, inl, inr, Bool-cases, Result, ok, err,
}
use kirimkode_partner.Number.{num, max_safe}
use kirimkode_partner.Text.{Text, codes}
use kirimkode_partner.Ledger.{
  DomainError, LedgerTransaction, order_success, platform_partner_payable, partner_pending,
  order_success_event_key, create_transfer_transaction,
}
use kirimkode_partner.Ledger.Transaction.{ok-transfer}
use kirimkode_partner.Earning.{
  EarningState, pending, CreateEarningInput, create, create_earning, decide_earning_on_success,
}
use kirimkode_partner.Earning.Lifecycle.{success_transfer}
use kirimkode_partner.Order.Status.{OrderStatus}
use kirimkode_partner.Order.Transition.{
  OrderNumberTransitionInput, DecisionBase, apply, succeed, decide_order_number_transition,
}

-- The earning of an order's success and the transaction that goes with it.
pub record Creates (input : CreateEarningInput) (e : EarningState) (t : LedgerTransaction)
    : Type 0 where
  pub amount : ℕ
  pub payout : input.payout_idr ≡ num amount
  pub positive : 1 ≤ amount
  pub safe : amount ≤ max_safe
  pub fresh : input.earning_exists_for_order ≡ false
  pub named : e.id ≡ input.earning_id
  pub order : e.order_id ≡ input.order_id
  pub earned : e.amount_idr ≡ num amount
  pub status : e.status ≡ pending
  pub moved : t ≡ success_transfer input.order_id amount

create_earning-Creates :
    (input : CreateEarningInput) (k : Text) (e : EarningState) (t : LedgerTransaction)
    (r : Result DomainError LedgerTransaction)
    → input.earning_exists_for_order ≡ false
    → create_transfer_transaction order_success
        (order_success_event_key input.order_id)
        (codes "order")
        input.order_id
        platform_partner_payable
        partner_pending
        input.payout_idr
      ≡ r
    → create_earning input (order_success_event_key input.order_id) ≡ ok (create k e t)
    → Creates input e t
unfolding create_earning success_transfer
create_earning-Creates input k e t (err x) f c h = absurd (ground arith)
create_earning-Creates input k e t (ok u) f c h =
    let (n, amount, low, high, moved, d) =
      ok-transfer order_success (order_success_event_key input.order_id) (codes "order")
        input.order_id platform_partner_payable partner_pending input.payout_idr u c in
    record {
      amount = n;
      payout = amount;
      positive = low;
      safe = high;
      fresh = f;
      named = ground arith;
      order = ground arith;
      earned = ground arith;
      status = ground arith;
      moved = ground arith;
    }

pub success_keeps_number :
    (i : OrderNumberTransitionInput) (base : DecisionBase) (expected : OrderStatus) {number : _}
    (changed : Bool)
    → i.command ≡ succeed
    → decide_order_number_transition i ≡ apply base expected number changed
    → changed ≡ false
unfolding decide_order_number_transition
success_keeps_number i base expected changed c h = ground arith

pub success-Creates :
    (input : CreateEarningInput) (k : Text) (e : EarningState) (t : LedgerTransaction)
    → decide_earning_on_success input ≡ ok (create k e t)
    → Creates input e t
unfolding decide_earning_on_success
success-Creates input k e t h = elim (Bool-cases input.earning_exists_for_order) [
  | inl y ↦ absurd (ground (arith, y, h))
  | inr n ↦ create_earning-Creates input k e t _ n refl (ground (arith, n, h))
]
