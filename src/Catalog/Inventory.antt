-- ===== src/Catalog/Inventory.antt =====
-- Liveness of a device, the status of a number, and the inventory of
-- src/domain/task-5-2-device-inventory-pricing.ts.
pub mod Laws
pub mod Selection
use kirimkode_partner.Base.{
  ℕ, ◌+◌, ◌-◌, ◌*◌, ◌/◌, ◌%◌, ◌<◌, Bool, true, false, not, ◌&&◌, ◌||◌, Option, none, some, List, [],
  ◌∷◌, ltb, leb, ◌==◌, if◌then◌else◌, Result, ok, ◌>>=◌, ◌>>◌, throw_if,
}
use kirimkode_partner.Int.{pos_part, neg_part, ◌-ℤ◌}
use kirimkode_partner.Number.{Number, int}
use kirimkode_partner.Text.{Text, eq_text}
use kirimkode_partner.Catalog.Pricing.{
  CatalogError, device_disabled, unsupported_capability, number_state_guard, assert_safe_integer,
}
use kirimkode_partner.Catalog.Dimension.{
  PartnerStatus, OfferStatus, InventoryFilter, OfferInput, is_approved,
}
use kirimkode_partner.Catalog.Device.{
  DeviceCapabilities, DeviceStatus, online, DeviceState, assert_valid_date,
}

pub data NumberStatus : Type 0 where
  offline available reserved busy disabled : NumberStatus

pub data DeviceOperation : Type 0 where
  inventory sms notification resend operator : DeviceOperation

-- `nowServer.getTime() - lastSeenAt.getTime() <= timeoutSeconds * 1_000`
abbrev pub within_timeout : Number → Number → Number → Bool
within_timeout (int now) (int seen) (int timeout) =
    leb (pos_part (now -ℤ seen)) (pos_part timeout * 1_000 + neg_part (now -ℤ seen))
within_timeout _ _ _ = false

-- Whether an online device was seen in time.
unfoldable pub seen_in_time : Option Number → Number → Number → Result CatalogError Bool
seen_in_time none now_server timeout_seconds = ok false
seen_in_time (some last_seen_at) now_server timeout_seconds = do
  assert_valid_date last_seen_at
  ok (within_timeout now_server last_seen_at timeout_seconds)

unfoldable pub is_device_live :
    DeviceStatus → Option Number → Number → Number → Result CatalogError Bool
is_device_live status last_seen_at now_server timeout_seconds = do
  assert_valid_date now_server
  assert_safe_integer timeout_seconds 1
  elim status [ online ↦ seen_in_time last_seen_at now_server timeout_seconds | _ ↦ ok false ]

unfoldable pub effective_device_status :
    DeviceStatus → Option Number → Number → Number → Result CatalogError DeviceStatus
effective_device_status DeviceStatus.disabled last_seen_at now_server timeout_seconds =
    ok DeviceStatus.disabled
effective_device_status status last_seen_at now_server timeout_seconds = do
  live ← is_device_live status last_seen_at now_server timeout_seconds
  ok (if live then DeviceStatus.online else DeviceStatus.offline)

-- `device.capabilities[operation]`
abbrev pub capability_of : DeviceCapabilities → DeviceOperation → Bool
capability_of c inventory = true
capability_of c sms = c.sms
capability_of c notification = c.notification
capability_of c resend = c.resend
capability_of c operator = c.operator

abbrev pub is_disabled_device : DeviceStatus → Bool
is_disabled_device DeviceStatus.disabled = true
is_disabled_device _ = false

unfoldable pub assert_device_operation_allowed :
    DeviceState → DeviceOperation → Result CatalogError (Unit {0})
assert_device_operation_allowed device operation = do
  throw_if (is_disabled_device device.status) device_disabled
  throw_if (not (capability_of device.capabilities operation)) unsupported_capability

abbrev pub is_held : NumberStatus → Bool
is_held reserved = true
is_held busy = true
is_held _ = false

unfoldable pub assert_number_move_or_delete_allowed : NumberStatus → Result CatalogError (Unit {0})
assert_number_move_or_delete_allowed status = throw_if (is_held status) number_state_guard

unfoldable pub disable_idle_number : NumberStatus → Result CatalogError NumberStatus
unfolding assert_number_move_or_delete_allowed
disable_idle_number status = do
  assert_number_move_or_delete_allowed status
  ok NumberStatus.disabled

abbrev pub reenable_number : NumberStatus
reenable_number = offline

pub record NumberAvailabilityInput : Type 0 where
  pub status : NumberStatus
  pub enabled : Bool
  pub has_active_order : Bool
  pub has_active_offer : Bool
  pub device_status : DeviceStatus
  pub last_seen_at : Option Number
  pub now_server : Number
  pub heartbeat_timeout_seconds : Number

abbrev pub idle_status : NumberAvailabilityInput → Bool → NumberStatus
idle_status input live =
    if live && input.has_active_offer && not input.has_active_order
    then NumberStatus.available
    else NumberStatus.offline

unfoldable pub reconcile_number_availability :
    NumberAvailabilityInput → Result CatalogError NumberStatus
reconcile_number_availability input =
    if not input.enabled then ok NumberStatus.disabled else elim input.status [
      | disabled ↦ ok NumberStatus.disabled
      | reserved ↦ ok NumberStatus.reserved
      | busy ↦ ok NumberStatus.busy
      | _ ↦
          is_device_live input.device_status input.last_seen_at input.now_server
            input.heartbeat_timeout_seconds
          >>= (λ live. ok (idle_status input live))
    ]

pub record InventoryNumber : Type 0 where
  pub status : NumberStatus
  pub enabled : Bool
  pub country_code : Text
  pub operator_code : Text
  pub has_active_order : Option Bool

pub record InventoryCandidate : Type 0 where
  pub number_id : Text
  pub partner_status : PartnerStatus
  pub device : DeviceState
  pub number : InventoryNumber
  pub offer : OfferInput

abbrev pub is_available_number : NumberStatus → Bool
is_available_number available = true
is_available_number _ = false

abbrev pub is_active_offer : OfferStatus → Bool
is_active_offer OfferStatus.active = true
is_active_offer _ = false

-- `hasActiveOrder !== true`
abbrev pub is_free : Option Bool → Bool
is_free (some true) = false
is_free _ = true

-- The tests behind liveness.
unfoldable pub offers_dimension : InventoryCandidate → InventoryFilter → Bool
offers_dimension candidate filter =
    candidate.device.capabilities.sms
    && is_available_number candidate.number.status
    && candidate.number.enabled
    && is_free candidate.number.has_active_order
    && is_active_offer candidate.offer.status
    && eq_text candidate.offer.service_code filter.service_code
    && eq_text candidate.offer.country_code filter.country_code
    && eq_text candidate.offer.operator_code filter.operator_code
    && eq_text candidate.number.country_code filter.country_code
    && eq_text candidate.number.operator_code filter.operator_code

unfoldable pub is_inventory_candidate_eligible :
    InventoryCandidate → InventoryFilter → Number → Number → Result CatalogError Bool
is_inventory_candidate_eligible candidate filter now_server heartbeat_timeout_seconds =
    if not (is_approved candidate.partner_status) then ok false else do
      live ←
          is_device_live candidate.device.status candidate.device.last_seen_at now_server
            heartbeat_timeout_seconds
      ok (live && offers_dimension candidate filter)

-- `Array.prototype.filter` with a test that may throw.
unfoldable pub keep_if {ℓ κ} :
    {E : Type ℓ} {A : Type κ} → (A → Result E Bool) → List A → Result E (List A)
keep_if p [] = ok []
keep_if p (x ∷ xs) = do kept ← p x; rest ← keep_if p xs; ok (if kept then x ∷ rest else rest)

-- The UTF-16 code units of a text, by which `<` compares strings.
unfoldable pub units : Text → List ℕ
units [] = []
units (c ∷ s) =
    let rest = units s in
    if leb 0x10000 c
    then (0xd800 + (c - 0x10000) / 0x400) ∷ (0xdc00 + (c - 0x10000) % 0x400) ∷ rest
    else c ∷ rest

unfoldable pub lt_units : List ℕ → List ℕ → Bool
lt_units s [] = false
lt_units [] (d ∷ t) = true
lt_units (c ∷ s) (d ∷ t) = ltb c d || ((c == d) && lt_units s t)

abbrev pub lt_text : Text → Text → Bool
lt_text s t = lt_units (units s) (units t)

-- `Array.prototype.sort`, which is stable, by a strict order.
unfoldable pub insert_by {ℓ} : {A : Type ℓ} → (A → A → Bool) → A → List A → List A
insert_by lt x [] = x ∷ []
insert_by lt x (y ∷ ys) = let rest = insert_by lt x ys in if lt y x then y ∷ rest else x ∷ y ∷ ys

unfoldable pub sort_by {ℓ} : {A : Type ℓ} → (A → A → Bool) → List A → List A
sort_by lt [] = []
sort_by lt (x ∷ xs) = insert_by lt x (sort_by lt xs)

abbrev pub first {ℓ} : {A : Type ℓ} → List A → Option A
first [] = none
first (x ∷ xs) = some x

abbrev pub before : InventoryCandidate → InventoryCandidate → Bool
before left right = lt_text left.number_id right.number_id

unfoldable pub select_eligible_inventory :
    List InventoryCandidate
    → InventoryFilter
    → Number
    → Number
    → Result CatalogError (Option InventoryCandidate)
select_eligible_inventory candidates filter now_server heartbeat_timeout_seconds = do
  eligible ←
      keep_if
        (λ candidate.
          is_inventory_candidate_eligible candidate filter now_server heartbeat_timeout_seconds)
        candidates
  ok (first (sort_by before eligible))
