-- ===== src/Order/Status.antt =====
-- The statuses of src/domain/order-state-machine.ts and the tests on them.
use kirimkode_partner.Base.{ℕ, ◌≡◌, ◌↔◌, Bool, true, false, List, [], ◌∷◌, arith, ◌==◌, any}
use kirimkode_partner.Text.{Text, codes}

pub data OrderStatus : Type 0 where
  created reserved waiting_sms success cancelled timeout failed : OrderStatus

pub data NumberStatus : Type 0 where
  offline available reserved busy disabled : NumberStatus

pub data ReleaseDisposition : Type 0 where
  available offline : ReleaseDisposition

pub data DeviceStatus : Type 0 where
  online offline disabled : DeviceStatus

-- The string that a status is.
abbrev pub order_status_text : OrderStatus → Text
order_status_text OrderStatus.created = codes "created"
order_status_text OrderStatus.reserved = codes "reserved"
order_status_text OrderStatus.waiting_sms = codes "waiting_sms"
order_status_text OrderStatus.success = codes "success"
order_status_text OrderStatus.cancelled = codes "cancelled"
order_status_text OrderStatus.timeout = codes "timeout"
order_status_text OrderStatus.failed = codes "failed"

abbrev order_rank : OrderStatus → ℕ
order_rank OrderStatus.created = 0
order_rank OrderStatus.reserved = 1
order_rank OrderStatus.waiting_sms = 2
order_rank OrderStatus.success = 3
order_rank OrderStatus.cancelled = 4
order_rank OrderStatus.timeout = 5
order_rank OrderStatus.failed = 6

abbrev number_rank : NumberStatus → ℕ
number_rank NumberStatus.offline = 0
number_rank NumberStatus.available = 1
number_rank NumberStatus.reserved = 2
number_rank NumberStatus.busy = 3
number_rank NumberStatus.disabled = 4

-- `a === b` on statuses
abbrev pub eq_order : OrderStatus → OrderStatus → Bool
eq_order a b = order_rank a == order_rank b

abbrev pub eq_number_status : NumberStatus → NumberStatus → Bool
eq_number_status a b = number_rank a == number_rank b

abbrev pub is_online : DeviceStatus → Bool
is_online DeviceStatus.online = true
is_online _ = false

-- A release disposition is a number status.
abbrev pub disposition_status : ReleaseDisposition → NumberStatus
disposition_status ReleaseDisposition.available = NumberStatus.available
disposition_status ReleaseDisposition.offline = NumberStatus.offline

-- `TERMINAL_STATUSES`
abbrev pub terminal_statuses : List OrderStatus
terminal_statuses =
    OrderStatus.success ∷ OrderStatus.cancelled ∷ OrderStatus.timeout ∷ OrderStatus.failed ∷ []

abbrev pub is_terminal_order_status : OrderStatus → Bool
is_terminal_order_status s = any (eq_order s) terminal_statuses

-- `VALID_SOURCES`
abbrev pub valid_sources : OrderStatus → List OrderStatus
valid_sources OrderStatus.created = []
valid_sources OrderStatus.reserved = OrderStatus.created ∷ []
valid_sources OrderStatus.waiting_sms = OrderStatus.reserved ∷ []
valid_sources OrderStatus.success = OrderStatus.waiting_sms ∷ []
valid_sources OrderStatus.cancelled = OrderStatus.reserved ∷ OrderStatus.waiting_sms ∷ []
valid_sources OrderStatus.timeout = OrderStatus.reserved ∷ OrderStatus.waiting_sms ∷ []
valid_sources OrderStatus.failed = OrderStatus.created ∷ OrderStatus.waiting_sms ∷ []

-- `VALID_SOURCES[target].includes(source)`
abbrev pub is_valid_source : OrderStatus → OrderStatus → Bool
is_valid_source target source = any (eq_order source) (valid_sources target)

pub eq_order_iff : (a b : OrderStatus) → (eq_order a b ≡ true) ↔ (a ≡ b)
eq_order_iff OrderStatus.created b = ground arith
eq_order_iff OrderStatus.reserved b = ground arith
eq_order_iff OrderStatus.waiting_sms b = ground arith
eq_order_iff OrderStatus.success b = ground arith
eq_order_iff OrderStatus.cancelled b = ground arith
eq_order_iff OrderStatus.timeout b = ground arith
eq_order_iff OrderStatus.failed b = ground arith

pub eq_number_status_iff : (a b : NumberStatus) → (eq_number_status a b ≡ true) ↔ (a ≡ b)
eq_number_status_iff NumberStatus.offline b = ground arith
eq_number_status_iff NumberStatus.available b = ground arith
eq_number_status_iff NumberStatus.reserved b = ground arith
eq_number_status_iff NumberStatus.busy b = ground arith
eq_number_status_iff NumberStatus.disabled b = ground arith
