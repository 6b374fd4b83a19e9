-- ===== src/Review/Rows.antt =====
-- The rows of a partner's payouts, and the requests and results of the review: the types of
-- src/application/payouts/ports.ts and payout-review-service.ts beside it, the permission of
-- src/domain/task-7-5/admin-authorization.ts and the test of an id.
use kirimkode_partner.Base.{
  ℕ, zero, suc, Bool, false, ◌&&◌, ◌||◌, Option, none, some, List, [], ◌∷◌, ltb, leb, ◌==◌,
  if◌then◌else◌, any, Result, ok, err, length,
}
use kirimkode_partner.Text.{Text, codes, eq_text, trim, is_blank, utf16_length}
use kirimkode_partner.Payout.{PayoutStatus, PayoutState, PayoutCommand}
use kirimkode_partner.Settlement.{Store}

-- A payout with its allocations; `released` is set where their `releasedAt` is.
pub record PayoutRow : Type 0 where
  pub payout : PayoutState
  pub released : Bool

pub record Books : Type 0 where
  pub store : Store
  pub payouts : List PayoutRow

pub record AuthenticatedAdmin : Type 0 where
  pub admin_id : Text
  pub permissions : List Text

abbrev pub payout_review_permission : Text
payout_review_permission = codes "payout:review"

unfoldable pub admin_has_permission : List Text → Text → Bool
admin_has_permission permissions permission = any (eq_text permission) permissions

is_hex : ℕ → Bool
is_hex c = (leb b'0' c && leb c b'9') || (leb b'a' c && leb c b'f') || (leb b'A' c && leb c b'F')

-- What follows `n` hexadecimal digits.
take_hex : ℕ → Text → Option Text
unfolding is_hex
take_hex zero s = some s
take_hex (suc n) [] = none
take_hex (suc n) (c ∷ s) = if is_hex c then take_hex n s else none

take_group : ℕ → Text → Option Text
unfolding take_hex
take_group n [] = none
take_group n (c ∷ s) = if c == b'-' then take_hex n s else none

take_groups : List ℕ → Option Text → Bool
unfolding take_group
take_groups ns none = false
take_groups [] (some s) = length s == 0
take_groups (n ∷ ns) (some s) = take_groups ns (take_group n s)

-- `UUID_PATTERN.test(s)`
unfoldable pub is_uuid : Text → Bool
unfolding take_groups take_hex
is_uuid s = take_groups (4 ∷ 4 ∷ 4 ∷ 12 ∷ []) (take_hex 8 s)

abbrev max_reason_length : ℕ
max_reason_length = 500

abbrev pub max_payment_reference_length : ℕ
max_payment_reference_length = 160

pub data PayoutReviewRequest : Type 0 where
  approve_payout mark_processing : PayoutReviewRequest
  mark_payout_paid : Text → PayoutReviewRequest
  reject_payout fail_payout : Text → PayoutReviewRequest

-- `invalid_payout_id`, `invalid_payment_reference` and `invalid_paid_at` are the codes of `validation`.
pub data PayoutReviewReason : Type 0 where
  forbidden not_found illegal_transition terminal_state_conflict missing_reason
        missing_payment_reference payment_reference_conflict duplicate_payment_reference conflict
        invalid_payout_id invalid_payment_reference invalid_paid_at :
      PayoutReviewReason

pub data PayoutReviewOutcome : Type 0 where
  reviewed : PayoutStatus → PayoutReviewOutcome
  refused : PayoutReviewReason → PayoutReviewOutcome

unfoldable pub validate_reason : Text → Option Text
validate_reason reason =
    if is_blank reason || ltb max_reason_length (utf16_length (trim reason))
    then none
    else some (trim reason)

abbrev pub with_reason :
    (Text → PayoutCommand) → Option Text → Result PayoutReviewReason PayoutCommand
with_reason command none = err missing_reason
with_reason command (some reason) = ok (command reason)
