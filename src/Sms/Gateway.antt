-- ===== src/Sms/Gateway.antt =====
-- The reads and writes of src/infrastructure/database/partner-sms-matching-gateway.ts and partner-sms-gateway.ts.
-- The newest row of the messages, earnings and ledger stands first.
use kirimkode_partner.Base.{
  suc, Bool, true, false, ◌&&◌, ◌||◌, Option, none, some, List, [], ◌∷◌, map, any, keep, ◌==◌,
  if◌then◌else◌, Result, ok, err, ◌>>=◌,
}
use kirimkode_partner.Number.{Number, num}
use kirimkode_partner.Text.{Text, eq_text}
use kirimkode_partner.Ledger.{LedgerTransaction}
use kirimkode_partner.Earning.{EarningState, or_default}
use kirimkode_partner.Order.Status.{
  OrderStatus, NumberStatus, eq_order, eq_number_status, order_status_text,
}
use kirimkode_partner.Order.Transition.{DecisionBase}
use kirimkode_partner.Order.Listening.{is_null, is_current_order}
use kirimkode_partner.Sms.{DuplicateKey, message_id, idempotency_key, SmsDevice, SmsOrderCandidate}
use kirimkode_partner.Sms.Rows.{
  SmsMatchStatus, SmsRow, OrderRow, NumberRow, SmsStore, OrderSnapshot, Platform, IngestSmsInput,
  IngestError, success_contention, unique_violation,
}

unfoldable pub find_number : Text → Text → Text → List NumberRow → Option NumberRow
find_number partner_id id device_id [] = none
find_number partner_id id device_id (n ∷ ns) =
    let rest = find_number partner_id id device_id ns in
    if eq_text n.partner_id partner_id && eq_text n.id id && eq_text n.device_id device_id
    then some n
    else rest

unfoldable pub find_device : Text → Text → List SmsDevice → Option SmsDevice
find_device partner_id id [] = none
find_device partner_id id (d ∷ ds) =
    let rest = find_device partner_id id ds in
    if eq_text d.partner_id partner_id && eq_text d.id id then some d else rest

unfoldable pub find_order : Text → List OrderRow → Option OrderRow
find_order id [] = none
find_order id (o ∷ os) = let rest = find_order id os in if eq_text o.id id then some o else rest

-- The insertion looks the device up again as the run has done before, so this test is written once.
-- Which unique constraint a new message violates, where the database tries the one on `messageId` first.
unfoldable pub violated_key : SmsRow → List SmsRow → Option DuplicateKey
violated_key row rows =
    if any (λ r. eq_text r.device_id row.device_id && eq_text r.message_id row.message_id) rows
    then some message_id
    else if any
        (λ r. eq_text r.device_id row.device_id && eq_text r.idempotency_key row.idempotency_key)
        rows
    then some idempotency_key
    else none

abbrev still_holds : OrderRow → Bool
still_holds o =
    eq_order o.status OrderStatus.waiting_sms
    || (eq_order o.status OrderStatus.success && is_null o.completed_at)

abbrev service_of : Option OrderSnapshot → Text
service_of none = []
service_of (some s) = s.service_code

abbrev pub payout_of : Option OrderSnapshot → Number
payout_of none = num 0
payout_of (some s) = s.payout_idr

unfoldable pub candidate_of : Platform → OrderRow → SmsOrderCandidate
candidate_of platform o = record {
  id = o.id;
  number_id = o.number_id;
  service_code = service_of (platform.snapshot_of o.id);
  status = order_status_text o.status;
  window_starts_at_ms = or_default o.waiting_at o.created_at;
  window_ends_at_ms = o.expires_at;
  completed_at_ms = o.completed_at;
}

unfoldable pub load_active_order_candidates :
    Platform → Text → Text → SmsStore → List SmsOrderCandidate
load_active_order_candidates platform partner_id number_id store = map (candidate_of platform) (
    keep (λ o. eq_text o.partner_id partner_id && eq_text o.number_id number_id && still_holds o)
      store.orders)

-- `updateMany` on rows that the test tells apart by their id; `none` if it counts no row.
unfoldable pub update_row {ℓ} : {A : Type ℓ} → (A → Bool) → (A → A) → List A → Option (List A)
update_row p f [] = none
update_row p f (x ∷ xs) =
    let rest = update_row p f xs in
    if p x then some (f x ∷ xs) else elim rest [ none ↦ none | some ys ↦ some (x ∷ ys) ]

-- `if (updated.count !== 1) throw new SmsSuccessContentionError()`
abbrev pub contended {ℓ} : {A : Type ℓ} → Option A → Result IngestError A
contended none = err success_contention
contended (some x) = ok x

abbrev is_pending : SmsMatchStatus → Bool
is_pending SmsMatchStatus.pending = true
is_pending _ = false

-- `markSmsAudited`: no row needs to be pending.
unfoldable pub mark_sms_audited : Text → SmsMatchStatus → List SmsRow → List SmsRow
mark_sms_audited id status [] = []
mark_sms_audited id status (r ∷ rs) =
    let rest = mark_sms_audited id status rs in
    if eq_text r.id id && is_pending r.match_status
    then record r { match_status = status } ∷ rest
    else r ∷ rest

unfoldable pub mark_sms_matched : Text → Text → Number → List SmsRow → Option (List SmsRow)
mark_sms_matched id order_id now rows =
    update_row (λ r. eq_text r.id id && is_pending r.match_status)
      (λ r. record r {
        match_status = SmsMatchStatus.matched;
        matched_order_id = some order_id;
        extracted_at = some now;
      })
      rows

abbrev pub awaits_success : OrderRow → OrderRow → Bool
awaits_success seen o =
    eq_text o.id seen.id
    && eq_text o.partner_id seen.partner_id
    && (o.version == seen.version)
    && eq_order o.status OrderStatus.waiting_sms
    && is_null o.otp

abbrev pub succeeded_row : Text → Number → OrderRow → OrderRow
succeeded_row otp now o = record o {
  status = OrderStatus.success;
  otp = some otp;
  succeeded_at = some now;
  terminal_at = some now;
  version = suc o.version;
}

abbrev pub awaits_repeat : OrderRow → OrderRow → Bool
awaits_repeat seen o =
    eq_text o.id seen.id
    && eq_text o.partner_id seen.partner_id
    && (o.version == seen.version)
    && eq_order o.status OrderStatus.success
    && is_null o.completed_at

abbrev pub repeated_row : Text → OrderRow → OrderRow
repeated_row otp o = record o { otp = some otp; version = suc o.version }

-- `partnerEarning.create`, with the primary key and the unique order.
unfoldable pub insert_earning :
    EarningState → List EarningState → Result IngestError (List EarningState)
insert_earning e es =
    if any (λ x. eq_text x.id e.id || eq_text x.order_id e.order_id) es
    then err unique_violation
    else ok (e ∷ es)

-- `ledgerTransaction.create`, with the unique event key.
unfoldable pub insert_transaction :
    LedgerTransaction → List LedgerTransaction → Result IngestError (List LedgerTransaction)
insert_transaction t ts =
    if any (λ x. eq_text x.event_key t.event_key) ts then err unique_violation else ok (t ∷ ts)

unfoldable pub insert_key : Text → List Text → Result IngestError (List Text)
insert_key key keys = if any (eq_text key) keys then err unique_violation else ok (key ∷ keys)

-- The release of the number, if the decision changes it.
unfoldable pub release_number :
    Bool
    → OrderRow
    → NumberStatus
    → NumberStatus
    → List NumberRow
    → Result IngestError (List NumberRow)
release_number false seen from to numbers = ok numbers
release_number true seen from to numbers = contended (
    update_row
      (λ n.
        eq_text n.id seen.number_id
        && eq_text n.partner_id seen.partner_id
        && eq_number_status n.status from
        && is_current_order n.current_order_id seen.id)
      (λ n. record n { status = to; current_order_id = none }) numbers)

-- `applySuccess`, for the order row that was read.
unfoldable pub apply_success :
    Platform
    → IngestSmsInput
    → Text
    → OrderRow
    → NumberStatus
    → DecisionBase
    → Bool
    → EarningState
    → LedgerTransaction
    → SmsStore
    → Result IngestError SmsStore
apply_success platform i otp seen from base number_changed earning transaction store = do
  orders ← contended (
      update_row (awaits_success seen) (succeeded_row (platform.encrypt_otp otp) i.now)
        store.orders)
  transitions ← insert_key base.operation_key store.transitions
  sms ← contended (mark_sms_matched i.sms_id seen.id i.now store.sms)
  earnings ← insert_earning earning store.earnings
  ledger ← insert_transaction transaction store.ledger
  numbers ← release_number number_changed seen from base.next_number_status store.numbers
  ok (record {
    sms = sms;
    orders = orders;
    numbers = numbers;
    transitions = transitions;
    earnings = earnings;
    ledger = ledger;
  })

unfoldable pub apply_repeat_otp :
    Platform → IngestSmsInput → Text → OrderRow → SmsStore → Result IngestError SmsStore
apply_repeat_otp platform i otp seen store = do
  orders ←
      contended
        (update_row (awaits_repeat seen) (repeated_row (platform.encrypt_otp otp)) store.orders)
  sms ← contended (mark_sms_matched i.sms_id seen.id i.now store.sms)
  ok (record store { sms = sms; orders = orders })
