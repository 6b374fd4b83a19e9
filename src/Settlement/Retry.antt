-- ===== src/Settlement/Retry.antt =====
-- A hold release of src/application/earning-lifecycle-service.ts sent twice.
use kirimkode_partner.Base.{
  ◌≡◌, refl, ap, ◌∙◌, Bool, true, Option, none, some, List, arith, Bool-cases, ok, bind_returns,
}
use kirimkode_partner.Number.{Number}
use kirimkode_partner.Text.{Text}
use kirimkode_partner.Earning.{
  pending, available, EarningState, release, ReleaseHoldDecision, decide_hold_release,
}
use kirimkode_partner.Settlement.{
  Store, find_earning_by_id, update_earning_status, commit, advance, released, state_changed,
  carry_release, release_found, lifecycle_release_hold,
}
use kirimkode_partner.Payout.Request.{Distinct}
use kirimkode_partner.Settlement.Rows.{update_once}
use kirimkode_partner.Settlement.Agreement.{IsSettled}
use kirimkode_partner.Settlement.Commands.{committed_some}

paired : (b b' : Bool) (s s' : Store) → b ≡ b' → s ≡ s' → ◌≡◌ {A = Bool × Store} (b, s) (b', s')
paired b b' s s' p q = λ i. (p i, q i)

again_carried :
    (id : Text) (d : ReleaseHoldDecision) (s s' : Store)
    → Distinct s.earnings
    → carry_release id d s ≡ ok (released, s')
    → carry_release id d s' ≡ ok (state_changed, s')
unfolding carry_release advance commit
again_carried id (ReleaseHoldDecision.no_change k) s s' u h = absurd (ground arith)
again_carried id (ReleaseHoldDecision.reject x k) s s' u h = absurd (ground arith)
again_carried id (release k t) s s' u h =
    let ((b, s''), w, x) =
      bind_returns (commit t s (update_earning_status id pending available s.earnings)) _ h in
    let applied : b ≡ true = ground (arith, Bool-cases b) in
    let same : s'' ≡ s' = ground arith in
    let (es, v, e) =
      committed_some t s s' (update_earning_status id pending available s.earnings)
        (w ∙ ap ok (paired b true s'' s' applied same)) in
    let gone : update_earning_status id pending available s'.earnings ≡ none =
      rw e (update_once id pending available s.earnings es refl u v) in
    rw gone refl

again_found :
    (id : Text) (now : Number) (dispute : Bool) (s s' : Store) (o : Option EarningState)
    → Distinct s.earnings
    → release_found id now dispute s o ≡ ok (released, s')
    → release_found id now dispute s' o ≡ ok (state_changed, s')
unfolding release_found
again_found id now dispute s s' none u h = absurd (ground arith)
again_found id now dispute s s' (some e) u h =
    let (d, c, w) = bind_returns (decide_hold_release e now dispute) _ h in
    rw c (again_carried id d s s' u w)

-- A release that went through on a settled store and is sent again with the rows read the first
-- time, as a retry or a concurrent run does, changes nothing and reports that the state has
-- changed.
pub stale_release_waits :
    (seen : List EarningState) (id : Text) (now : Number) (dispute : Bool) (s s' : Store)
    → IsSettled s
    → lifecycle_release_hold seen id now dispute s ≡ ok (released, s')
    → lifecycle_release_hold seen id now dispute s' ≡ ok (state_changed, s')
unfolding lifecycle_release_hold
stale_release_waits seen id now dispute s s' i h =
    again_found id now dispute s s' (find_earning_by_id id seen) i.distinct h
