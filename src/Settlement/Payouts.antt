-- ===== src/Settlement/Payouts.antt =====
-- The payout request service (src/application/payouts/payout-request-service.ts) on the rows of one
-- partner, behind its permission and destination checks: the earnings it reads, the decision, and the
-- unit that locks every selected row or rolls back. The payout, its allocations and the audit rows that
-- the unit also inserts are not part of the store.
pub mod Locks
pub mod Agrees
use kirimkode_partner.Base.{
  ◌-◌, ◌/◌, not, Option, none, some, List, [], ◌∷◌, Result, ok, err, ◌>>=◌, ◌>>◌,
}
use kirimkode_partner.Number.{Number}
use kirimkode_partner.Text.{Text}
use kirimkode_partner.Ledger.{DomainError, LedgerTransaction}
use kirimkode_partner.Earning.{EarningStatus, EarningState}
use kirimkode_partner.Payout.{
  RequestRejectCode, RequestPayoutDecision, lock, PayoutAllocation, decide_request_payout,
}
use kirimkode_partner.Settlement.{
  Store, find_earning_by_id, update_earning_status, append_transaction,
}

pub data PayoutRequestResult : Type 0 where
  payout_requested : Number → PayoutRequestResult
  earning_not_found earning_conflict : Text → PayoutRequestResult
  payout_refused : RequestRejectCode → PayoutRequestResult

abbrev pub read_before :
    Text → Option EarningState → Result Text (List EarningState) → Result Text (List EarningState)
read_before id none rest = err id
read_before id (some earning) rest = rest >>= (λ earnings. ok (earning ∷ earnings))

-- The loop over `earningIds`; the error is the id that is not found.
unfoldable pub read_earnings : List Text → List EarningState → Result Text (List EarningState)
read_earnings [] seen = ok []
read_earnings (id ∷ ids) seen = read_before id (find_earning_by_id id seen) (read_earnings ids seen)

-- `throw new EarningLockConflict(earningId)` on a lost compare-and-set
abbrev pub or_conflict : Text → Option (List EarningState) → Result Text (List EarningState)
or_conflict id none = err id
or_conflict id (some es) = ok es

-- The loop that locks every allocated earning; an error rolls the whole unit back.
unfoldable pub lock_rows :
    List PayoutAllocation → List EarningState → Result Text (List EarningState)
lock_rows [] es = ok es
lock_rows (a ∷ as') es =
    or_conflict a.earning_id
      (update_earning_status a.earning_id EarningStatus.available EarningStatus.requested es)
    >>= (λ locked. lock_rows as' locked)

unfoldable pub commit_lock :
    Number
    → LedgerTransaction
    → Store
    → Result Text (List EarningState)
    → Result DomainError (PayoutRequestResult × Store)
commit_lock amount transaction store (err id) = ok (earning_conflict id, store)
commit_lock amount transaction store (ok earnings) =
    append_transaction transaction store.ledger
    >>= (λ ledger. ok (payout_requested amount, record { earnings = earnings; ledger = ledger }))

unfoldable pub carry_request :
    RequestPayoutDecision → Store → Result DomainError (PayoutRequestResult × Store)
carry_request (RequestPayoutDecision.reject code) store = ok (payout_refused code, store)
carry_request (lock key amount allocations transaction) store =
    commit_lock amount transaction store (lock_rows allocations store.earnings)

unfoldable pub request_of :
    Text
    → Option Number
    → Store
    → Result Text (List EarningState)
    → Result DomainError (PayoutRequestResult × Store)
request_of payout_id minimum store (err id) = ok (earning_not_found id, store)
request_of payout_id minimum store (ok earnings) =
    decide_request_payout
      (record { payout_id = payout_id; earnings = earnings; minimum_idr = minimum })
    >>= (λ decision. carry_request decision store)

-- `payout_id` comes from the id generator, `minimum` from the active configuration.
unfoldable pub request_payout :
    List EarningState
    → List Text
    → Text
    → Option Number
    → Store
    → Result DomainError (PayoutRequestResult × Store)
request_payout seen earning_ids payout_id minimum store =
    request_of payout_id minimum store (read_earnings earning_ids seen)
