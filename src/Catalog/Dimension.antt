-- ===== src/Catalog/Dimension.antt =====
-- The catalog of src/domain/task-5-2-device-inventory-pricing.ts: the dimensions the platform serves,
-- the pricing in force on each, and the offers accepted on them. An absent override and a null one are
-- both `none`.
pub mod Laws
use kirimkode_partner.Base.{
  ◌-◌, ◌/◌, Bool, true, false, not, ◌&&◌, Option, none, some, List, [], ◌∷◌, if◌then◌else◌, Result,
  ok, err, throw_if, ◌>>=◌, ◌>>◌,
}
use kirimkode_partner.Number.{Number}
use kirimkode_partner.Text.{Text, eq_text}
use kirimkode_partner.Catalog.Pricing.{
  CatalogError, partner_not_approved, invalid_offer_catalog, PricingConfig, PricingResult,
  validate_pricing_config, calculate_authoritative_pricing,
}

pub data PartnerStatus : Type 0 where
  pending approved suspended rejected : PartnerStatus

pub data OfferStatus : Type 0 where
  inactive active : OfferStatus

pub record CatalogDimension : Type 0 where
  pub service_code : Text
  pub country_code : Text
  pub operator_code : Text
  pub enabled : Bool
  pub min_base_price_idr : Option Number
  pub max_base_price_idr : Option Number
  pub fixed_fee_idr : Option Number
  pub markup_bps : Option Number
  pub round_to_idr : Option Number

pub record InventoryFilter : Type 0 where
  pub service_code : Text
  pub country_code : Text
  pub operator_code : Text

unfoldable pub dimension_matches : CatalogDimension → InventoryFilter → Bool
dimension_matches dimension filter =
    eq_text dimension.service_code filter.service_code
    && eq_text dimension.country_code filter.country_code
    && eq_text dimension.operator_code filter.operator_code

unfoldable pub is_dimension_served : Option CatalogDimension → Bool
is_dimension_served none = false
is_dimension_served (some dimension) = dimension.enabled

pub record DimensionLookup : Type 0 where
  pub dimension : Option CatalogDimension
  pub declared : Bool

pub record CatalogSnapshot : Type 0 where
  pub dimensions : List CatalogDimension
  pub declared : Bool

unfoldable pub config_dimension : PricingConfig → CatalogDimension
config_dimension config = record {
  service_code = config.service_code;
  country_code = config.country_code;
  operator_code = config.operator_code;
  enabled = true;
  min_base_price_idr = none;
  max_base_price_idr = none;
  fixed_fee_idr = none;
  markup_bps = none;
  round_to_idr = none;
}

unfoldable pub resolve_served_catalog : CatalogSnapshot → PricingConfig → List CatalogDimension
resolve_served_catalog snapshot config =
    if snapshot.declared then snapshot.dimensions else config_dimension config ∷ []

unfoldable pub resolve_served_dimension :
    DimensionLookup → PricingConfig → InventoryFilter → Option CatalogDimension
unfolding is_dimension_served
resolve_served_dimension lookup config filter =
    if not lookup.declared
    then (let fallback = config_dimension config in
        if dimension_matches fallback filter then some fallback else none)
    else if is_dimension_served lookup.dimension
    then lookup.dimension
    else none

-- `Array.prototype.find`
abbrev pub find {ℓ} : {A : Type ℓ} → (A → Bool) → List A → Option A
find p [] = none
find p (x ∷ xs) = let rest = find p xs in if p x then some x else rest

unfoldable pub find_enabled_dimension :
    List CatalogDimension → InventoryFilter → Option CatalogDimension
find_enabled_dimension dimensions filter =
    find (λ dimension. dimension.enabled && dimension_matches dimension filter) dimensions

-- `override ?? inherited`
abbrev pub inherit : Option Number → Number → Number
inherit none inherited = inherited
inherit (some override) inherited = override

unfoldable pub resolve_dimension_pricing : CatalogDimension → PricingConfig → PricingConfig
resolve_dimension_pricing dimension config = record {
  version = config.version;
  service_code = dimension.service_code;
  country_code = dimension.country_code;
  operator_code = dimension.operator_code;
  currency = config.currency;
  min_base_price_idr = inherit dimension.min_base_price_idr config.min_base_price_idr;
  max_base_price_idr = inherit dimension.max_base_price_idr config.max_base_price_idr;
  fixed_fee_idr = inherit dimension.fixed_fee_idr config.fixed_fee_idr;
  markup_bps = inherit dimension.markup_bps config.markup_bps;
  round_to_idr = inherit dimension.round_to_idr config.round_to_idr;
}

pub record OfferInput : Type 0 where
  pub service_code : Text
  pub country_code : Text
  pub operator_code : Text
  pub base_price_idr : Number
  pub status : OfferStatus

pub record ValidatedOffer : Type 0 where
  pub offer : OfferInput
  pub pricing : PricingResult
  pub config_version : Number

abbrev pub is_approved : PartnerStatus → Bool
is_approved approved = true
is_approved _ = false

-- The dimension that an offer names.
abbrev pub offer_filter : OfferInput → InventoryFilter
offer_filter offer = record {
  service_code = offer.service_code;
  country_code = offer.country_code;
  operator_code = offer.operator_code;
}

-- An offer on the dimension found for it.
unfoldable pub price_offer :
    OfferInput → PricingConfig → Option CatalogDimension → Result CatalogError ValidatedOffer
price_offer offer config none = err invalid_offer_catalog
price_offer offer config (some dimension) = do
  pricing ←
      calculate_authoritative_pricing offer.base_price_idr
        (resolve_dimension_pricing dimension config)
  ok (record { offer = offer; pricing = pricing; config_version = config.version })

unfoldable pub validate_offer :
    PartnerStatus
    → OfferInput
    → PricingConfig
    → List CatalogDimension
    → Result CatalogError ValidatedOffer
validate_offer partner_status offer config dimensions = do
  validate_pricing_config config
  throw_if (not (is_approved partner_status)) partner_not_approved
  price_offer offer config (find_enabled_dimension dimensions (offer_filter offer))
