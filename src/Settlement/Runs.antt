-- ===== src/Settlement/Runs.antt =====
-- Runs of the commands in any order, each deciding on rows read at any earlier point of the run, as
-- concurrent requests and retried jobs do.
use kirimkode_partner.Base.{◌≡◌, ◌⊎◌, inl, inr, Bool, false, Option, List, [], ◌∷◌, All, ok}
use kirimkode_partner.Number.{Number}
use kirimkode_partner.Text.{Text}
use kirimkode_partner.Earning.{EarningState}
use kirimkode_partner.Ledger.{payout_lock_event_key}
use kirimkode_partner.Settlement.{
  Store, find_earning_by_id, has_key, ReleaseHoldResult, lifecycle_release_hold,
  ReverseEarningResult, lifecycle_reverse_earning,
}
use kirimkode_partner.Settlement.Agreement.{IsSettled, IsRead}
use kirimkode_partner.Settlement.Commands.{release_hold-IsSettled, reverse_earning-IsSettled}
use kirimkode_partner.Settlement.Payouts.{PayoutRequestResult, read_earnings, request_payout}
use kirimkode_partner.Settlement.Payouts.Agrees.{request_payout-IsSettled}
use kirimkode_partner.Settlement.Amounts.{
  current-IsRead, IsStable, release_found-All, reverse_found-All, request_of-All,
}

-- A read that the run has made before: the rows of a past store.
abbrev pub IsPast : List EarningState → List Store → Type 0
IsPast seen [] = ⊥
IsPast seen (s ∷ past) = (seen ≡ s.earnings) ⊎ IsPast seen past

-- The stores that a run from `s₀` can reach, with the stores it passed, the latest first. A payout's id
-- is new: its lock event is not in the ledger.
pub data Run (s₀ : Store) : List Store → Store → Type 0 where
  begin : Run s₀ (s₀ ∷ []) s₀
  then_release :
      (past : List Store) (s s' : Store) (seen : List EarningState) (id : Text) (now : Number)
      (dispute : Bool) (r : ReleaseHoldResult)
      → Run s₀ past s
      → IsPast seen past
      → lifecycle_release_hold seen id now dispute s ≡ ok (r, s')
      → Run s₀ (s' ∷ past) s'
  then_reverse :
      (past : List Store) (s s' : Store) (seen : List EarningState) (id reason : Text)
      (r : ReverseEarningResult)
      → Run s₀ past s
      → IsPast seen past
      → lifecycle_reverse_earning seen id reason s ≡ ok (r, s')
      → Run s₀ (s' ∷ past) s'
  then_request :
      (past : List Store) (s s' : Store) (seen : List EarningState) (ids : List Text)
      (payout_id : Text) (minimum : Option Number) (r : PayoutRequestResult)
      → Run s₀ past s
      → IsPast seen past
      → has_key (payout_lock_event_key payout_id) s.ledger ≡ false
      → request_payout seen ids payout_id minimum s ≡ ok (r, s')
      → Run s₀ (s' ∷ past) s'

-- Every past read is still right about the amounts.
abbrev AreRead : List Store → Store → Type 0
AreRead [] s = Unit
AreRead (t ∷ past) s = IsRead t.earnings s × AreRead past s

past-IsRead :
    (seen : List EarningState) (past : List Store) (s : Store)
    → AreRead past s
    → IsPast seen past
    → IsRead seen s
past-IsRead seen (t ∷ past) s a (inl e) = rw e a.0
past-IsRead seen (t ∷ past) s a (inr i) = past-IsRead seen past s a.1 i
past-IsRead seen [] s a i = elim i [ ]

kept-AreRead :
    (past : List Store) (s s' : Store)
    → ((P : EarningState → Type 0) → IsStable P → All P s.earnings → All P s'.earnings)
    → AreRead past s
    → AreRead past s'
kept-AreRead [] s s' f a = tt
kept-AreRead (t ∷ past) s s' f a = (
  (λ id e q. f (λ r. r.id ≡ id → r.amount_idr ≡ e.amount_idr) (λ x _ p. p) (a.0 id e q)),
  kept-AreRead past s s' f a.1,
)

-- What a command that keeps the store settled and its amounts leaves.
step-IsSettled :
    (past : List Store) (s s' : Store)
    → IsSettled s'
    → ((P : EarningState → Type 0) → IsStable P → All P s.earnings → All P s'.earnings)
    → AreRead past s
    → IsSettled s' × AreRead (s' ∷ past) s'
step-IsSettled past s s' i f a = (i, (current-IsRead s' i.distinct, kept-AreRead past s s' f a))

run-AreRead :
    (s₀ : Store) (past : List Store) (s : Store)
    → IsSettled s₀
    → Run s₀ past s
    → IsSettled s × AreRead past s
unfolding lifecycle_release_hold lifecycle_reverse_earning request_payout
run-AreRead s₀ past s i begin = (i, (current-IsRead s₀ i.distinct, tt))
run-AreRead s₀ past s i (then_release past' t s' seen id now dispute r run read h) =
    let (j, a) = run-AreRead s₀ past' t i run in
    step-IsSettled past' t s'
      (release_hold-IsSettled seen id now dispute t s' r j (past-IsRead seen past' t a read) h)
      (λ P f. release_found-All P f id now dispute t s' r (find_earning_by_id id seen) j.distinct h)
      a
run-AreRead s₀ past s i (then_reverse past' t s' seen id reason r run read h) =
    let (j, a) = run-AreRead s₀ past' t i run in
    step-IsSettled past' t s'
      (reverse_earning-IsSettled seen id reason t s' r j (past-IsRead seen past' t a read) h)
      (λ P f. reverse_found-All P f id reason t s' r (find_earning_by_id id seen) j.distinct h) a
run-AreRead s₀ past s i (then_request past' t s' seen ids payout_id minimum r run read new h) =
    let (j, a) = run-AreRead s₀ past' t i run in
    step-IsSettled past' t s'
      (request_payout-IsSettled seen ids payout_id minimum t s' r j
        (past-IsRead seen past' t a read) new h)
      (λ P f. request_of-All P f payout_id minimum t s' r (read_earnings ids seen) j.distinct h) a

-- However hold releases, reversals and payout requests are interleaved, each deciding on rows read at any
-- earlier point, the earnings of every status still sum up to the balance of its bucket: a run from a
-- settled store reaches settled stores only, provided that each payout has a new id.
pub run-IsSettled :
    (s₀ : Store) (past : List Store) (s : Store) → IsSettled s₀ → Run s₀ past s → IsSettled s
run-IsSettled s₀ past s i run = (run-AreRead s₀ past s i run).0
