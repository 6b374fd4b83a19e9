-- ===== src/Tests/Catalog.antt =====
-- The catalog at concrete inputs.
use kirimkode_partner.Base.{◌≡◌, refl, Bool, true, false, none, some, List, [], ◌∷◌, arith, ok}
use kirimkode_partner.Number.{num}
use kirimkode_partner.Text.{Text, codes, eq_text_iff, trim, utf16_length}
use kirimkode_partner.Catalog.Pricing.{
  PricingConfig, PricingResult, validate_pricing_config, assert_safe_integer,
  calculate_authoritative_pricing,
}
use kirimkode_partner.Catalog.Pricing.{price, assert_base_price_within_guardrail, ceil_to}
use kirimkode_partner.Catalog.Pricing.Laws.{IsPriced, IsValidConfig, pricing-IsPriced}
use kirimkode_partner.Catalog.Pricing.Returns.{pricing_returns}
use kirimkode_partner.Catalog.Dimension.{
  PartnerStatus, OfferStatus, CatalogDimension, InventoryFilter, find_enabled_dimension,
  dimension_matches, resolve_dimension_pricing, OfferInput, ValidatedOffer, validate_offer,
  price_offer,
}
use kirimkode_partner.Catalog.Dimension.Laws.{AreUnique, IsServed, offer-IsServed}
use kirimkode_partner.Catalog.Declaration.{
  DimensionDeclaration, valid, validate_dimension_declaration, declaration_violations,
  normalize_declaration, is_bad_code, is_bad_override, is_misordered, dimension_code_pattern,
  iso2_country_pattern,
}
use kirimkode_partner.Catalog.Declaration.Laws.{IsStorable, declared-IsStorable}

-- `MVP_PRICING_CONFIG`
abbrev mvp : PricingConfig
mvp = record {
  version = num 1;
  service_code = codes "wa";
  country_code = codes "ID";
  operator_code = codes "any";
  currency = codes "IDR";
  min_base_price_idr = num 500;
  max_base_price_idr = num 5000;
  fixed_fee_idr = num 250;
  markup_bps = num 1500;
  round_to_idr = num 50;
}

mvp-IsValidConfig : IsValidConfig mvp
unfolding utf16_length
mvp-IsValidConfig = record {
  version = 1;
  low = 500;
  high = 5000;
  fee = 250;
  bps = 1500;
  unit = 50;
  version_eq = refl;
  low_eq = refl;
  high_eq = refl;
  fee_eq = refl;
  bps_eq = refl;
  unit_eq = refl;
  versioned = omega arith;
  positive_unit = omega arith;
  ordered = omega arith;
  safe = (omega arith, omega arith, omega arith, omega arith, omega arith);
  coded = ((λ e. ground arith), refl, (λ e. ground arith), refl);
}

abbrev at_1001 : PricingResult
at_1001 = record { retail_price_idr = 1450; payout_idr = 1001; platform_margin_idr = 449 }

abbrev at_2000 : PricingResult
at_2000 = record { retail_price_idr = 2550; payout_idr = 2000; platform_margin_idr = 550 }

prices_1001 : calculate_authoritative_pricing (num 1001) mvp ≡ ok at_1001
unfolding calculate_authoritative_pricing assert_base_price_within_guardrail validate_pricing_config
    assert_safe_integer price ceil_to utf16_length
prices_1001 = refl

prices_2000 : calculate_authoritative_pricing (num 2000) mvp ≡ ok at_2000
unfolding calculate_authoritative_pricing assert_base_price_within_guardrail validate_pricing_config
    assert_safe_integer price ceil_to utf16_length
prices_2000 = refl

pricing-IsPriced_example : IsPriced (num 1001) mvp at_1001
pricing-IsPriced_example = pricing-IsPriced (num 1001) mvp at_1001 prices_1001

pricing_returns_example :
    (r : PricingResult) × (calculate_authoritative_pricing (num 5000) mvp ≡ ok r)
unfolding mvp-IsValidConfig
pricing_returns_example =
    pricing_returns mvp mvp-IsValidConfig 5000 (omega arith) (omega arith) (omega arith)
      (omega arith)

abbrev dimension : Text → Bool → CatalogDimension
dimension service enabled = record {
  service_code = service;
  country_code = codes "ID";
  operator_code = codes "any";
  enabled = enabled;
  min_base_price_idr = none;
  max_base_price_idr = none;
  fixed_fee_idr = none;
  markup_bps = none;
  round_to_idr = none;
}

abbrev pub filter_of : Text → InventoryFilter
filter_of service = record {
  service_code = service;
  country_code = codes "ID";
  operator_code = codes "any";
}

abbrev catalog : List CatalogDimension
catalog = dimension (codes "tg") false ∷ dimension (codes "wa") true ∷ []

catalog-AreUnique : AreUnique catalog
unfolding dimension_matches
catalog-AreUnique =
    (((λ f h. ground (arith, eq_text_iff (codes "tg") f.service_code)), tt), (tt, tt))

abbrev pub wa_offer : OfferInput
wa_offer = record {
  service_code = codes "wa";
  country_code = codes "ID";
  operator_code = codes "any";
  base_price_idr = num 1001;
  status = OfferStatus.active;
}

abbrev validated : ValidatedOffer
validated = record { offer = wa_offer; pricing = at_1001; config_version = num 1 }

offers : validate_offer PartnerStatus.approved wa_offer mvp catalog ≡ ok validated
unfolding validate_offer price_offer find_enabled_dimension dimension_matches
    resolve_dimension_pricing calculate_authoritative_pricing assert_base_price_within_guardrail
    validate_pricing_config assert_safe_integer price ceil_to utf16_length
offers = refl

offer-IsServed_example : IsServed PartnerStatus.approved mvp catalog wa_offer validated
offer-IsServed_example = offer-IsServed PartnerStatus.approved wa_offer mvp catalog validated offers

abbrev declared : DimensionDeclaration
declared = record {
  service_code = codes "tg";
  country_code = codes "ID";
  operator_code = codes "any";
  enabled = true;
  min_base_price_idr = some (num 100);
  max_base_price_idr = some (num 900);
  fixed_fee_idr = none;
  markup_bps = none;
  round_to_idr = some (num 25);
  note = some (codes "new");
}

abbrev proposed : DimensionDeclaration
proposed = record declared { service_code = codes " tg "; note = some (codes "new ") }

abbrev keep_case : Text → Text
keep_case s = s

declares : validate_dimension_declaration keep_case proposed ≡ valid declared
unfolding validate_dimension_declaration declaration_violations normalize_declaration is_bad_code
    is_bad_override is_misordered dimension_code_pattern iso2_country_pattern utf16_length trim
declares = refl

declared-IsStorable_example : IsStorable declared
declared-IsStorable_example = declared-IsStorable keep_case proposed declared declares
