-- ===== src/Order/Transition/Outcome.antt =====
-- The theorems about the statuses a decision leaves behind.
use kirimkode_partner.Base.{◌≡◌, refl, ◌↔◌, Option, sym, ◌∙◌, ◌≢◌, Bool, true, false, some, arith}
use kirimkode_partner.Order.Status.{
  OrderStatus, NumberStatus, ReleaseDisposition, eq_number_status, disposition_status,
  is_terminal_order_status, eq_order_iff,
}
use kirimkode_partner.Order.Release.{
  ReleaseContext, decide_number_release, IsLive, decide_number_release_iff,
}
use kirimkode_partner.Order.Transition.{
  OrderNumberTransitionInput, OrderNumberTransitionDecision, no_change, target_status,
  decide_order_number_transition, is_apply, release_context_of, decision_base,
  create_order_transition_operation_key,
}

-- A terminal order is never moved: whatever is asked of it, no transition is applied, and the order
-- and its number keep their statuses.
pub terminal_absorbs :
    (i : OrderNumberTransitionInput)
    → is_terminal_order_status i.order_status ≡ true
    → (is_apply (decide_order_number_transition i) ≡ false)
      × ((decision_base (decide_order_number_transition i)).next_order_status ≡ i.order_status)
      × ((decision_base (decide_order_number_transition i)).next_number_status ≡ i.number_status)
unfolding decide_order_number_transition
terminal_absorbs i h = ground arith

unapplied_unchanged :
    (i : OrderNumberTransitionInput)
    → is_apply (decide_order_number_transition i) ≡ false
    → ((decision_base (decide_order_number_transition i)).next_order_status ≡ i.order_status)
      × ((decision_base (decide_order_number_transition i)).next_number_status ≡ i.number_status)
unfolding decide_order_number_transition
unapplied_unchanged i h = ground arith

-- An order that holds its number: a reserved order a reserved number, a waiting or a successful
-- (still listening) order a busy one.
abbrev pub is_paired : OrderStatus → NumberStatus → Bool
is_paired OrderStatus.reserved n = eq_number_status n NumberStatus.reserved
is_paired OrderStatus.waiting_sms n = eq_number_status n NumberStatus.busy
is_paired OrderStatus.success n = eq_number_status n NumberStatus.busy
is_paired _ n = true

-- The decision keeps an order and its number paired on every branch: from a paired input the next
-- statuses are paired too.
pub decision_keeps_pair :
    (i : OrderNumberTransitionInput)
    → is_paired i.order_status i.number_status ≡ true
    → is_paired
        (decision_base (decide_order_number_transition i)).next_order_status
        (decision_base (decide_order_number_transition i)).next_number_status
      ≡ true
unfolding decide_order_number_transition
decision_keeps_pair i h = ground arith

released_as :
    (i : OrderNumberTransitionInput) (release : ReleaseContext)
    → release_context_of i.command ≡ some release
    → i.order_status ≢ OrderStatus.created
    → is_apply (decide_order_number_transition i) ≡ true
    → let b = decision_base (decide_order_number_transition i) in
      (is_paired i.order_status i.number_status ≡ true)
      × (b.next_number_status ≡ disposition_status (decide_number_release release))
      × (b.release_disposition ≡ some (decide_number_release release))
unfolding decide_order_number_transition
released_as i release e ne h = ground arith

-- The next number status says whether the number is live, and the decision reports the same.
lively_status :
    (release : ReleaseContext) (next : NumberStatus) (reported : Option ReleaseDisposition)
    → next ≡ disposition_status (decide_number_release release)
    → reported ≡ some (decide_number_release release)
    → ((next ≡ NumberStatus.available) ↔ IsLive release)
      × ((next ≡ NumberStatus.offline) ↔ (¬ IsLive release))
      × ((reported ≡ some ReleaseDisposition.available) ↔ IsLive release)
      × ((reported ≡ some ReleaseDisposition.offline) ↔ (¬ IsLive release))
lively_status release next reported n r =
    let (live, dead) = decide_number_release_iff release in
    (
      ((λ e. live.0 (ground arith)), λ l. rw (n, live.1 l) refl),
      ((λ e. dead.0 (ground arith)), λ l. rw (n, dead.1 l) refl),
      ((λ e. live.0 (ground arith)), λ l. rw (r, live.1 l) refl),
      ((λ e. dead.0 (ground arith)), λ l. rw (r, dead.1 l) refl),
    )

-- A cancel, timeout or failure that is applied to an order that is not merely `created` lets go of the number
-- that the order held. The number becomes available exactly if it is enabled, its device is online, and
-- the device's last heartbeat is neither in the future nor older than the heartbeat timeout, with all
-- three times finite and not negative; it becomes offline exactly if not; and the decision reports it so.
pub applied_release :
    (i : OrderNumberTransitionInput) (release : ReleaseContext)
    → release_context_of i.command ≡ some release
    → i.order_status ≢ OrderStatus.created
    → is_apply (decide_order_number_transition i) ≡ true
    → let b = decision_base (decide_order_number_transition i) in
      (is_paired i.order_status i.number_status ≡ true)
      × ((b.next_number_status ≡ NumberStatus.available) ↔ IsLive release)
      × ((b.next_number_status ≡ NumberStatus.offline) ↔ (¬ IsLive release))
      × ((b.release_disposition ≡ some ReleaseDisposition.available) ↔ IsLive release)
      × ((b.release_disposition ≡ some ReleaseDisposition.offline) ↔ (¬ IsLive release))
applied_release i release e ne h =
    let (paired, next, reported) = released_as i release e ne h in
    let (live, dead, told_live, told_dead) = lively_status release _ _ next reported in
    (paired, live, dead, told_live, told_dead)

abbrev pub is_no_change : OrderNumberTransitionDecision → Bool
is_no_change (no_change _) = true
is_no_change _ = false

-- The request that the same command makes once its decision has been stored.
abbrev pub again : OrderNumberTransitionInput → OrderNumberTransitionInput
again i =
    let b = decision_base (decide_order_number_transition i) in
    record i { order_status = b.next_order_status; number_status = b.next_number_status }

applied_target :
    (i : OrderNumberTransitionInput)
    → is_apply (decide_order_number_transition i) ≡ true
    → let b = decision_base (decide_order_number_transition i) in
      (b.next_order_status ≡ target_status i.command)
      × (b.operation_key
          ≡ create_order_transition_operation_key i.order_id (target_status i.command))
unfolding decide_order_number_transition
applied_target i h = ground arith

at_target :
    (i : OrderNumberTransitionInput)
    → i.order_status ≡ target_status i.command
    → let d = decide_order_number_transition i in
      (is_no_change d ≡ true)
      × ((decision_base d).operation_key
          ≡ create_order_transition_operation_key i.order_id (target_status i.command))
      × ((decision_base d).next_order_status ≡ i.order_status)
      × ((decision_base d).next_number_status ≡ i.number_status)
unfolding decide_order_number_transition
at_target i h = ground (arith, eq_order_iff i.order_status (target_status i.command))

-- A command takes effect once: sent again after it was applied, it is reported as done, changes
-- neither status, and repeats the operation key.
pub applied_once :
    (i : OrderNumberTransitionInput)
    → is_apply (decide_order_number_transition i) ≡ true
    → let b = decision_base (decide_order_number_transition i) in
      let d = decide_order_number_transition (again i) in
      (is_no_change d ≡ true)
      × ((decision_base d).operation_key ≡ b.operation_key)
      × ((decision_base d).next_order_status ≡ b.next_order_status)
      × ((decision_base d).next_number_status ≡ b.next_number_status)
applied_once i h =
    let (moved, key) = applied_target i h in
    let (done, key', order, number) = at_target (again i) moved in
    (done, key' ∙ sym key, order, number)
