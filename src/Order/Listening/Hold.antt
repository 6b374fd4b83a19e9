-- ===== src/Order/Listening/Hold.antt =====
-- The theorems about the release of a listening order's hold.
use kirimkode_partner.Base.{
  ℕ, ◌<◌, ◌≡◌, refl, ap, ◌↔◌, ◌⊎◌, Bool, true, false, Option, none, some, arith,
}
use kirimkode_partner.Int.{pos}
use kirimkode_partner.Number.{Number, int, num}
use kirimkode_partner.Text.{Text, eq_text_iff}
use kirimkode_partner.Order.Status.{OrderStatus, disposition_status}
use kirimkode_partner.Order.Release.{decide_number_release}
use kirimkode_partner.Order.Listening.{
  buyer_complete, expiry_sweep, ListeningHoldReleaseInput, ApplyListeningRelease,
  ListeningHoldReleaseDecision, apply, no_change, reject, window_still_open, is_listening_order,
  still_holding, is_current_order, create_listening_release_operation_key,
  decide_listening_hold_release,
}

abbrev pub is_apply : ListeningHoldReleaseDecision → Bool
is_apply (apply _ _) = true
is_apply _ = false

abbrev pub is_no_change : ListeningHoldReleaseDecision → Bool
is_no_change (no_change _) = true
is_no_change _ = false

-- The hold may end: the order succeeded and was not completed, the times are given and agree, and
-- either the buyer asks or the window is over.
pub record MayEnd (i : ListeningHoldReleaseInput) : Type 0 where
  pub observed : ℕ
  pub expires : ℕ
  pub observed_eq : i.observed_at_ms ≡ num observed
  pub expires_eq : i.order.expires_at_ms ≡ num expires
  pub release_eq : i.release.observed_at_ms ≡ num observed
  pub open_hold : i.order.completed_at_ms ≡ none
  pub successful : i.order.order_status ≡ OrderStatus.success
  pub asked : (i.trigger ≡ buyer_complete) ⊎ (expires < observed)

MayEnd-apply :
    (i : ListeningHoldReleaseInput) → MayEnd i → is_apply (decide_listening_hold_release i) ≡ true
unfolding decide_listening_hold_release
MayEnd-apply i h = ground arith

apply-MayEnd :
    (i : ListeningHoldReleaseInput) (o x r : Number)
    → i.observed_at_ms ≡ o
    → i.order.expires_at_ms ≡ x
    → i.release.observed_at_ms ≡ r
    → is_apply (decide_listening_hold_release i) ≡ true
    → MayEnd i
unfolding decide_listening_hold_release
apply-MayEnd i (int (pos o)) (int (pos x)) (int (pos r)) eo ex er h = record {
  observed = o;
  expires = x;
  observed_eq = eo;
  expires_eq = ex;
  release_eq = ground arith;
  open_hold = ground arith;
  successful = ground arith;
  asked = ground arith;
}
apply-MayEnd i o x r eo ex er h = absurd (ground arith)

-- A hold is released exactly for a successful order that was not completed, with valid times that
-- agree, and only if the buyer asks for it or the window is past its deadline.
pub listening_release_iff :
    (i : ListeningHoldReleaseInput) → (is_apply (decide_listening_hold_release i) ≡ true) ↔ MayEnd i
listening_release_iff i = (apply-MayEnd i _ _ _ refl refl refl, MayEnd-apply i)

-- The expiry sweep never closes a window in which the order could still receive a code.
pub sweep_waits :
    (i : ListeningHoldReleaseInput)
    → i.trigger ≡ expiry_sweep
    → i.release.observed_at_ms ≡ i.observed_at_ms
    → is_listening_order i.order i.observed_at_ms ≡ true
    → decide_listening_hold_release i
      ≡ reject (create_listening_release_operation_key i.order.order_id) window_still_open
unfolding decide_listening_hold_release is_listening_order
sweep_waits i t e h = ground arith

current_eq : (o : Option Text) (id : Text) → is_current_order o id ≡ true → o ≡ some id
current_eq none id h = cc
current_eq (some c) id h = ap some ((eq_text_iff c id).0 h)

still_holding_current :
    (i : ListeningHoldReleaseInput)
    → still_holding i ≡ true
    → i.number_current_order_id ≡ some i.order.order_id
still_holding_current i h = current_eq i.number_current_order_id i.order.order_id (ground arith)

-- A release takes a number only from the order that holds it: unless the number is busy or reserved
-- and points at this very order, an applied release completes the order and leaves the number as it
-- is; if it does, the number becomes what `decideNumberRelease` says. Either way the order is stamped
-- with the observed instant.
pub release_effect :
    (i : ListeningHoldReleaseInput) {k : Text} {d : ApplyListeningRelease}
    → decide_listening_hold_release i ≡ apply k d
    → (d.completed_at_ms ≡ i.observed_at_ms)
      × (((still_holding i ≡ true)
            × (i.number_current_order_id ≡ some i.order.order_id)
            × (d.next_number_status ≡ disposition_status (decide_number_release i.release))
            × (d.release_disposition ≡ some (decide_number_release i.release)))
          ⊎ ((still_holding i ≡ false)
              × (d.next_number_status ≡ i.number_status)
              × (d.number_changed ≡ false)))
unfolding decide_listening_hold_release
release_effect i {k} {d} h = ground (arith, still_holding_current i)

completed_no_change :
    (j : ListeningHoldReleaseInput) (now x : ℕ) (c : Number)
    → j.observed_at_ms ≡ num now
    → j.release.observed_at_ms ≡ num now
    → j.order.expires_at_ms ≡ num x
    → j.order.completed_at_ms ≡ some c
    → is_no_change (decide_listening_hold_release j) ≡ true
unfolding decide_listening_hold_release
completed_no_change j now x c o r e s = ground arith

-- A completed order is completed once: after a release was applied, any later request with valid times
-- that agree, by either trigger, changes nothing.
pub released_once :
    (i j : ListeningHoldReleaseInput) {k : Text} {d : ApplyListeningRelease} (now : ℕ)
    → decide_listening_hold_release i ≡ apply k d
    → j.order ≡ record (i.order) { completed_at_ms = some d.completed_at_ms }
    → j.observed_at_ms ≡ num now
    → j.release.observed_at_ms ≡ num now
    → is_no_change (decide_listening_hold_release j) ≡ true
released_once i j {k} {d} now h e o r =
    let m : MayEnd i = (listening_release_iff i).0 (ground arith) in
    completed_no_change j now m.expires d.completed_at_ms o r (ground arith) (ground arith)
