-- ===== src/Tests/Inventory.antt =====
-- Devices, inventory and phone numbers at concrete inputs.
use kirimkode_partner.Base.{
  ◌≡◌, refl, ◌≢◌, ◌↔◌, true, false, Option, none, some, List, [], ◌∷◌, arith, All, ok,
}
use kirimkode_partner.Int.{ℤ, pos, ◌-ℤ◌}
use kirimkode_partner.Number.{int, num}
use kirimkode_partner.Text.{is_space, Text, codes, trim, utf16_length}
use kirimkode_partner.Catalog.Pricing.{assert_safe_integer}
use kirimkode_partner.Catalog.Dimension.{PartnerStatus}
use kirimkode_partner.Catalog.Device.{
  DeviceStatus, DeviceState, DeviceType, undefined, record_server_heartbeat, max_number,
  next_capabilities, next_metadata,
}
use kirimkode_partner.Catalog.Inventory.{
  NumberStatus, NumberAvailabilityInput, reconcile_number_availability, is_held, is_device_live,
  seen_in_time, InventoryCandidate, select_eligible_inventory, is_inventory_candidate_eligible,
  offers_dimension, keep_if, units, lt_units, insert_by, sort_by,
}
use kirimkode_partner.Catalog.Inventory.Laws.{heartbeat_revives, available_iff}
use kirimkode_partner.Catalog.Inventory.Selection.{IsSelected, select-IsSelected}
use kirimkode_partner.Catalog.Phone.{
  normalize_indonesian_number, canonical_of, compact_of, is_dialable, is_mobile, national_part,
  canonical_number, is_separator, with_country, ExistingNumberIdentity, assert_unique_active_number,
  some_returns, is_duplicate,
}
use kirimkode_partner.Catalog.Phone.Laws.{
  Spelling, spelling_agrees, normalize_again, accepted-IsUnique, IsOther,
}
use kirimkode_partner.Tests.Catalog.{filter_of, wa_offer}

abbrev device : DeviceStatus → Option ℤ → DeviceState
device status seen = record {
  kind = DeviceType.android;
  status = status;
  last_seen_at = elim seen [ none ↦ none | some t ↦ some (int t) ];
  capabilities = record {
    sms = true;
    notification = false;
    resend = false;
    operator = false;
    slots = num 2;
  };
  heartbeat_metadata = none;
}

beats :
    record_server_heartbeat
      (device DeviceStatus.offline (some (pos 5000)))
      (num 4000)
      undefined
      undefined
    ≡ ok (device DeviceStatus.online (some (pos 5000)))
unfolding record_server_heartbeat max_number next_capabilities next_metadata
beats = refl

heartbeat_revives_example :
    is_device_live DeviceStatus.online (some (num 5000)) (num 90_000) (num 90) ≡ ok true
unfolding ◌-ℤ◌
heartbeat_revives_example =
    heartbeat_revives (device DeviceStatus.offline (some (pos 5000)))
      (device DeviceStatus.online (some (pos 5000))) (some (pos 5000)) (pos 4000) (pos 90_000) 90
      undefined undefined refl (λ e. ground arith) (omega arith) (omega arith) (omega arith) beats

abbrev idle : NumberAvailabilityInput
idle = record {
  status = NumberStatus.offline;
  enabled = true;
  has_active_order = false;
  has_active_offer = true;
  device_status = DeviceStatus.online;
  last_seen_at = some (num 5000);
  now_server = num 95_000;
  heartbeat_timeout_seconds = num 90;
}

available_iff_example : (reconcile_number_availability idle ≡ ok NumberStatus.available) ↔ (
    (true ≡ true)
    × (is_held NumberStatus.offline ≡ false)
    × (NumberStatus.offline ≢ NumberStatus.disabled)
    × (is_device_live DeviceStatus.online (some (num 5000)) (num 95_000) (num 90) ≡ ok true)
    × (true ≡ true)
    × (false ≡ false))
available_iff_example = available_iff idle

abbrev candidate : Text → PartnerStatus → InventoryCandidate
candidate id status = record {
  number_id = id;
  partner_status = status;
  device = device DeviceStatus.online (some (pos 5000));
  number = record {
    status = NumberStatus.available;
    enabled = true;
    country_code = codes "ID";
    operator_code = codes "any";
    has_active_order = none;
  };
  offer = wa_offer;
}

abbrev candidates : List InventoryCandidate
candidates =
    candidate (codes "n3") PartnerStatus.approved
    ∷ candidate (codes "n1") PartnerStatus.suspended
    ∷ candidate (codes "n2") PartnerStatus.approved
    ∷ []

selects :
    select_eligible_inventory candidates (filter_of (codes "wa")) (num 95_000) (num 90)
    ≡ ok (some (candidate (codes "n2") PartnerStatus.approved))
unfolding select_eligible_inventory is_inventory_candidate_eligible offers_dimension is_device_live
    seen_in_time assert_safe_integer keep_if units lt_units insert_by sort_by ◌-ℤ◌
selects = refl

select-IsSelected_example :
    IsSelected candidates
      (λ z. is_inventory_candidate_eligible z (filter_of (codes "wa")) (num 95_000) (num 90))
      (some (candidate (codes "n2") PartnerStatus.approved))
select-IsSelected_example =
    select-IsSelected candidates (filter_of (codes "wa")) (num 95_000) (num 90)
      (some (candidate (codes "n2") PartnerStatus.approved)) selects

-- The normalisation of ASCII text.
abbrev nfkc : Text → Text
nfkc s = s

spelling_agrees_example :
    normalize_indonesian_number nfkc (codes " 0812-3456 7890")
    ≡ ok (with_country (codes "81234567890"))
unfolding is_mobile is_separator is_space utf16_length
spelling_agrees_example =
    spelling_agrees nfkc (codes " 0812-3456 7890") (codes "81234567890") Spelling.trunk refl
      (λ e. ground arith) refl

normalizes : normalize_indonesian_number nfkc (codes "0812-3456 7890") ≡ ok (codes "+6281234567890")
unfolding normalize_indonesian_number canonical_of compact_of is_dialable is_mobile national_part
    canonical_number is_separator is_space utf16_length trim
normalizes = refl

normalize_again_example :
    normalize_indonesian_number nfkc (codes "+6281234567890") ≡ ok (codes "+6281234567890")
normalize_again_example =
    normalize_again nfkc (codes "0812-3456 7890") (codes "+6281234567890") normalizes refl

abbrev numbers : List ExistingNumberIdentity
numbers =
    record {
      id = codes "n1";
      canonical_number = codes "+6281234567890";
      status = NumberStatus.disabled;
    }
    ∷ []

accepts :
    assert_unique_active_number nfkc (codes "0812-3456 7890") numbers none
    ≡ ok (codes "+6281234567890")
unfolding assert_unique_active_number some_returns is_duplicate normalize_indonesian_number
    canonical_of compact_of is_dialable is_mobile national_part canonical_number is_separator
    is_space utf16_length trim
accepts = refl

accepted-IsUnique_example :
    (normalize_indonesian_number nfkc (codes "0812-3456 7890") ≡ ok (codes "+6281234567890"))
    × All (IsOther nfkc (codes "+6281234567890") none) numbers
accepted-IsUnique_example =
    accepted-IsUnique nfkc (codes "0812-3456 7890") (codes "+6281234567890") numbers none accepts
