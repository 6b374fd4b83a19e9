-- ===== src/Catalog/Pricing.antt =====
-- Authoritative pricing of src/domain/task-5-2-device-inventory-pricing.ts. A validated amount is a
-- natural number; the quotients under Math.ceil are of safe integers, for which the rounded division
-- of the language has the exact ceiling.
pub mod Laws
pub mod Returns
use kirimkode_partner.Base.{
  ℕ, ◌+◌, ◌-◌, ◌*◌, ◌/◌, Bool, not, ◌||◌, leb, ◌==◌, Result, ok, throw_if, ◌>>=◌, ◌>>◌,
}
use kirimkode_partner.Int.{pos}
use kirimkode_partner.Number.{Number, int, num, is_safe_integer, lt_number, max_safe}
use kirimkode_partner.Text.{Text, utf16_length}

-- `Task52DomainErrorCode`
pub data CatalogError : Type 0 where
  invalid_config invalid_device_capabilities device_disabled unsupported_capability
        invalid_heartbeat invalid_phone_number number_state_guard duplicate_active_number
        partner_not_approved invalid_offer_catalog price_out_of_guardrail :
      CatalogError

pub record PricingConfig : Type 0 where
  pub version : Number
  pub service_code : Text
  pub country_code : Text
  pub operator_code : Text
  pub currency : Text
  pub min_base_price_idr : Number
  pub max_base_price_idr : Number
  pub fixed_fee_idr : Number
  pub markup_bps : Number
  pub round_to_idr : Number

pub record PricingResult : Type 0 where
  pub retail_price_idr : ℕ
  pub payout_idr : ℕ
  pub platform_margin_idr : ℕ

unfoldable pub assert_safe_integer : Number → ℕ → Result CatalogError (Unit {0})
assert_safe_integer value minimum =
    throw_if (not (is_safe_integer value) || lt_number value (num minimum)) invalid_config

unfoldable pub validate_pricing_config : PricingConfig → Result CatalogError PricingConfig
validate_pricing_config config = do
  assert_safe_integer config.version 1
  assert_safe_integer config.min_base_price_idr 0
  assert_safe_integer config.max_base_price_idr 0
  assert_safe_integer config.fixed_fee_idr 0
  assert_safe_integer config.markup_bps 0
  assert_safe_integer config.round_to_idr 1
  throw_if (lt_number config.max_base_price_idr config.min_base_price_idr) invalid_config
  throw_if
      (utf16_length config.service_code == 0
        || not (utf16_length config.country_code == 2)
        || utf16_length config.operator_code == 0
        || not (utf16_length config.currency == 3))
      invalid_config
  ok config

unfoldable pub assert_base_price_within_guardrail :
    Number → PricingConfig → Result CatalogError (Unit {0})
assert_base_price_within_guardrail base_price_idr config = do
  validate_pricing_config config
  throw_if
      (not (is_safe_integer base_price_idr)
        || lt_number base_price_idr config.min_base_price_idr
        || lt_number config.max_base_price_idr base_price_idr)
      price_out_of_guardrail

-- The natural number that a validated amount is.
abbrev pub nat_of : Number → ℕ
nat_of (int (pos n)) = n
nat_of _ = 0

-- `Math.ceil(a / b)` for b > 0
abbrev pub ceil_div : ℕ → ℕ → ℕ
ceil_div a b = (a + (b - 1)) / b

abbrev pub is_safe_nat : ℕ → Bool
is_safe_nat n = leb n max_safe

unfoldable pub ceil_to : ℕ → ℕ → Result CatalogError ℕ
ceil_to value unit = do
  throw_if (not (is_safe_nat (ceil_div value unit * unit))) invalid_config
  ok (ceil_div value unit * unit)

-- `calculateAuthoritativePricing` behind the guardrail, on the validated amounts.
unfoldable pub price : ℕ → ℕ → ℕ → ℕ → Result CatalogError PricingResult
unfolding ceil_to
price base fixed_fee markup_bps round_to = do
  throw_if (not (is_safe_nat (base * markup_bps))) invalid_config
  let unrounded_retail = base + fixed_fee + ceil_div (base * markup_bps) 10_000
  throw_if (not (is_safe_nat unrounded_retail)) invalid_config
  retail_price_idr ← ceil_to unrounded_retail round_to
  ok (record {
    retail_price_idr = retail_price_idr;
    payout_idr = base;
    platform_margin_idr = retail_price_idr - base;
  })

unfoldable pub calculate_authoritative_pricing :
    Number → PricingConfig → Result CatalogError PricingResult
calculate_authoritative_pricing base_price_idr config = do
  assert_base_price_within_guardrail base_price_idr config
  price (nat_of base_price_idr) (nat_of config.fixed_fee_idr) (nat_of config.markup_bps)
      (nat_of config.round_to_idr)
