-- ===== src/Review/Runs.antt =====
-- Runs of the commands on the books in any order: hold releases, reversals, payout requests and reviews,
-- each deciding on rows read at any earlier point of the run.
use kirimkode_partner.Base.{◌≡◌, ◌⊎◌, inl, inr, Bool, Option, List, [], ◌∷◌, All, All-map, ok}
use kirimkode_partner.Number.{Number}
use kirimkode_partner.Text.{Text}
use kirimkode_partner.Earning.{EarningState}
use kirimkode_partner.Settlement.{
  Store, find_earning_by_id, ReleaseHoldResult, lifecycle_release_hold, ReverseEarningResult,
  lifecycle_reverse_earning,
}
use kirimkode_partner.Settlement.Agreement.{IsRead}
use kirimkode_partner.Settlement.Commands.{release_hold-IsSettled, reverse_earning-IsSettled}
use kirimkode_partner.Settlement.Amounts.{
  current-IsRead, IsStable, release_found-All, reverse_found-All, request_of-All,
}
use kirimkode_partner.Settlement.Payouts.{PayoutRequestResult, payout_requested}
use kirimkode_partner.Review.Rows.{
  PayoutRow, Books, AuthenticatedAdmin, PayoutReviewRequest, PayoutReviewOutcome,
}
use kirimkode_partner.Review.{review_payout}
use kirimkode_partner.Review.Payouts.{book_request, new_payout, request-Booked}
use kirimkode_partner.Review.Invariant.{IsBooked}
use kirimkode_partner.Review.Requests.{IsNew, book_request-IsBooked}
use kirimkode_partner.Review.Reviews.{review_cases, review_payout-IsBooked}
use kirimkode_partner.Review.Commands.{release_hold-IsBooked, reverse_earning-IsBooked}
use kirimkode_partner.Review.Reads.{
  Keeps, Keeps-refl, reviewed-Keeps, added-Keeps, Keeps-AreReadPayouts, move_if-All,
}

-- Books that the run has passed.
abbrev pub IsPast : Books → List Books → Type 0
IsPast seen [] = ⊥
IsPast seen (b ∷ past) = (seen ≡ b) ⊎ IsPast seen past

-- The books that a run from `b₀` can reach, with those it passed, the latest first. A payout's id is new;
-- `others` are the payment references of other partners at that time.
pub data Run (b₀ : Books) : List Books → Books → Type 0 where
  begin : Run b₀ (b₀ ∷ []) b₀
  then_release :
      (past : List Books) (b : Books) (s : Store) (seen : Books) (id : Text) (now : Number)
      (dispute : Bool) (r : ReleaseHoldResult)
      → Run b₀ past b
      → IsPast seen past
      → lifecycle_release_hold seen.store.earnings id now dispute b.store ≡ ok (r, s)
      → Run b₀ (record b { store = s } ∷ past) (record b { store = s })
  then_reverse :
      (past : List Books) (b : Books) (s : Store) (seen : Books) (id reason : Text)
      (r : ReverseEarningResult)
      → Run b₀ past b
      → IsPast seen past
      → lifecycle_reverse_earning seen.store.earnings id reason b.store ≡ ok (r, s)
      → Run b₀ (record b { store = s } ∷ past) (record b { store = s })
  then_request :
      (past : List Books) (b b' seen : Books) (ids : List Text) (id : Text)
      (minimum : Option Number) (r : PayoutRequestResult)
      → Run b₀ past b
      → IsPast seen past
      → IsNew id b
      → book_request seen.store.earnings ids id minimum b ≡ ok (r, b')
      → Run b₀ (b' ∷ past) b'
  then_review :
      (past : List Books) (b b' seen : Books) (others : List Text) (admin : AuthenticatedAdmin)
      (now : Number) (id : Text) (request : PayoutReviewRequest) (o : PayoutReviewOutcome)
      → Run b₀ past b
      → IsPast seen past
      → review_payout others seen.payouts admin now id request b ≡ ok (o, b')
      → Run b₀ (b' ∷ past) b'

-- What was read at a past point is still right.
abbrev IsStillRead : Books → Books → Type 0
IsStillRead b t = IsRead t.store.earnings b.store × Keeps t.payouts b.payouts

past_read :
    (seen b : Books) (past : List Books)
    → All (IsStillRead b) past
    → IsPast seen past
    → IsStillRead b seen
past_read seen b [] a i = elim i [ ]
past_read seen b (t ∷ past) a (inl e) = rw e a.0
past_read seen b (t ∷ past) a (inr i) = past_read seen b past a.1 i

-- A step that keeps the amounts of earnings and the cores of payouts.
step_read :
    (b b' : Books) (past : List Books)
    → IsBooked b'
    → ((P : EarningState → Type 0) → IsStable P → All P b.store.earnings → All P b'.store.earnings)
    → ((seen : List PayoutRow) → Keeps seen b.payouts → Keeps seen b'.payouts)
    → All (IsStillRead b) past
    → All (IsStillRead b') (b' ∷ past)
step_read b b' past i f g a = (
  (current-IsRead b'.store i.settled.distinct, Keeps-refl b'.payouts),
  All-map (IsStillRead b) (IsStillRead b') past
      (λ t h. (
        (λ id e q. f (λ r. r.id ≡ id → r.amount_idr ≡ e.amount_idr) (λ x _ p. p) (h.0 id e q)),
        g t.payouts h.1,
      ))
      a,
)

request_read :
    (seen : List EarningState) (ids : List Text) (id : Text) (minimum : Option Number)
    (b b' : Books) (r : PayoutRequestResult) (past : List Books)
    → IsBooked b
    → IsBooked b'
    → IsNew id b
    → book_request seen ids id minimum b ≡ ok (r, b')
    → All (IsStillRead b) past
    → All (IsStillRead b') (b' ∷ past)
request_read seen ids id minimum b b' r past i j new h a =
    elim (request-Booked seen ids id minimum b b' r h) [
      | inl same ↦ step_read b b' past j (λ P _ p. rw same p) (λ seen k. rw same k) a
      | inr (sel, _, k) ↦
          step_read b b' past j
            (λ P f p.
              request_of-All P f id minimum b.store b'.store (payout_requested k.amount) (ok sel)
                i.settled.distinct k.plain p)
            (λ seen z.
              rw k.added
                (added-Keeps seen b.payouts (new_payout id k.amount k.allocations) new.unused z))
            a
    ]

review_read :
    (others : List Text) (seen : List PayoutRow) (admin : AuthenticatedAdmin) (now : Number)
    (id : Text) (request : PayoutReviewRequest) (b b' : Books) (o : PayoutReviewOutcome)
    (past : List Books)
    → IsBooked b
    → IsBooked b'
    → review_payout others seen admin now id request b ≡ ok (o, b')
    → All (IsStillRead b) past
    → All (IsStillRead b') (b' ∷ past)
review_read others seen admin now id request b b' o past i j h a =
    elim (review_cases others seen admin now id request b b' o h) [
      | inl same ↦ step_read b b' past j (λ P _ p. rw same p) (λ seen k. rw same k) a
      | inr (c, _, _, _, k) ↦
          step_read b b' past j
            (λ P f p. rw k.left.left (
              move_if-All P f k.applied.earning_next_status k.row.payout.allocations
                b.store.earnings i.settled.distinct p))
            (λ seen z. rw k.left.left (
              reviewed-Keeps seen b.payouts k.payouts k.row.payout.id k.row.payout.status
                k.applied.next_status k.applied.payment_reference k.applied.earning_next_status
                k.moved z))
            a
    ]

run_read :
    (b₀ : Books) (past : List Books) (b : Books)
    → IsBooked b₀
    → Run b₀ past b
    → IsBooked b × All (IsStillRead b) past
unfolding lifecycle_release_hold lifecycle_reverse_earning
run_read b₀ past b i begin =
    (i, ((current-IsRead b₀.store i.settled.distinct, Keeps-refl b₀.payouts), tt))
run_read b₀ past b i (then_release past' t s seen id now dispute r run read h) =
    let (j, a) = run_read b₀ past' t i run in
    let (e, _) = past_read seen t past' a read in
    let k =
      release_hold-IsBooked seen.store.earnings id now dispute t s r j
        (release_hold-IsSettled seen.store.earnings id now dispute t.store s r j.settled e h) h in
    (
      k,
      step_read t (record t { store = s }) past' k
          (λ P f.
            release_found-All P f id now dispute t.store s r
              (find_earning_by_id id seen.store.earnings) j.settled.distinct h)
          (λ _ z. z) a,
    )
run_read b₀ past b i (then_reverse past' t s seen id reason r run read h) =
    let (j, a) = run_read b₀ past' t i run in
    let (e, _) = past_read seen t past' a read in
    let k =
      reverse_earning-IsBooked seen.store.earnings id reason t s r j
        (reverse_earning-IsSettled seen.store.earnings id reason t.store s r j.settled e h) h in
    (
      k,
      step_read t (record t { store = s }) past' k
          (λ P f.
            reverse_found-All P f id reason t.store s r (find_earning_by_id id seen.store.earnings)
              j.settled.distinct h)
          (λ _ z. z) a,
    )
run_read b₀ past b i (then_request past' t b' seen ids id minimum r run read new h) =
    let (j, a) = run_read b₀ past' t i run in
    let (e, _) = past_read seen t past' a read in
    let k = book_request-IsBooked seen.store.earnings ids id minimum t b' r j e new h in
    (k, request_read seen.store.earnings ids id minimum t b' r past' j k new h a)
run_read b₀ past b i (then_review past' t b' seen others admin now id request o run read h) =
    let (j, a) = run_read b₀ past' t i run in
    let (_, e) = past_read seen t past' a read in
    let k =
      review_payout-IsBooked others seen.payouts admin now id request t b' o j
        (Keeps-AreReadPayouts seen.payouts t.payouts j.unique e) h in
    (k, review_read others seen.payouts admin now id request t b' o past' j k h a)

-- However hold releases, reversals, payout requests and reviews are interleaved, each deciding on rows read
-- at any earlier point, a run from books in order reaches books in order only, provided that each payout
-- has a new id: the earnings of every status sum up to the balance of its bucket; no earning stands in two
-- allocations that are not released; and the earnings of a payout that was not cancelled are all
-- `requested` until it is paid and all `paid` then, for amounts that sum up to the payout's.
pub run-IsBooked :
    (b₀ : Books) (past : List Books) (b : Books) → IsBooked b₀ → Run b₀ past b → IsBooked b
run-IsBooked b₀ past b i run = (run_read b₀ past b i run).0
