-- ===== src/Catalog/Dimension/Laws.antt =====
-- The theorems about dimensions, inheritance and offers of
-- src/domain/task-5-2-device-inventory-pricing.ts.
use kirimkode_partner.Base.{
  ◌≡◌, refl, inl, inr, Bool, true, false, not, ◌&&◌, Option, none, some, List, [], ◌∷◌, arith,
  if◌then◌else◌, Bool-cases, All, ok, throw_if, bind_returns,
}
use kirimkode_partner.Number.{Number}
use kirimkode_partner.Text.{eq_text_iff}
use kirimkode_partner.Catalog.Pricing.{
  partner_not_approved, PricingConfig, validate_pricing_config, calculate_authoritative_pricing,
}
use kirimkode_partner.Catalog.Pricing.Laws.{IsPriced, pricing-IsPriced}
use kirimkode_partner.Catalog.Dimension.{
  PartnerStatus, CatalogDimension, InventoryFilter, dimension_matches, is_dimension_served,
  config_dimension, resolve_served_catalog, resolve_served_dimension, find, inherit,
  find_enabled_dimension, resolve_dimension_pricing, OfferInput, ValidatedOffer, is_approved,
  offer_filter, price_offer, validate_offer,
}

-- A configuration's own dimension prices exactly as the configuration, and keeps doing so however often
-- it is resolved.
pub resolve_inherits :
    (config : PricingConfig) → resolve_dimension_pricing (config_dimension config) config ≡ config
unfolding resolve_dimension_pricing config_dimension
resolve_inherits config = refl

-- No later dimension answers a filter that the first one answers.
abbrev pub AreUnique : List CatalogDimension → Type 0
AreUnique [] = Unit
AreUnique (d ∷ ds) =
    All
      (λ (e : CatalogDimension).
        (f : InventoryFilter) → dimension_matches d f ≡ true → dimension_matches e f ≡ false)
      ds
    × AreUnique ds

-- Nothing is found where nothing matches.
none_found :
    (f : InventoryFilter) (ds : List CatalogDimension)
    → All (λ e. dimension_matches e f ≡ false) ds
    → find (λ e. e.enabled && dimension_matches e f) ds ≡ none
none_found f [] h = refl
none_found f (d ∷ ds) h = ground (arith, h.0, none_found f ds h.1)

others_differ :
    (d : CatalogDimension) (f : InventoryFilter) (ds : List CatalogDimension)
    → All
        (λ (e : CatalogDimension).
          (g : InventoryFilter) → dimension_matches d g ≡ true → dimension_matches e g ≡ false)
        ds
    → dimension_matches d f ≡ true
    → All (λ e. dimension_matches e f ≡ false) ds
others_differ d f [] h m = tt
others_differ d f (e ∷ ds) h m = (h.0 f m, others_differ d f ds h.1 m)

find_served :
    (f : InventoryFilter) (ds : List CatalogDimension)
    → AreUnique ds
    → (if is_dimension_served (find (λ e. dimension_matches e f) ds)
        then find (λ e. dimension_matches e f) ds
        else none)
      ≡ find (λ e. e.enabled && dimension_matches e f) ds
unfolding is_dimension_served
find_served f [] u = refl
find_served f (d ∷ ds) u = elim (Bool-cases (dimension_matches d f)) [
  | inl m ↦ ground (arith, m, none_found f ds (others_differ d f ds u.0 m))
  | inr m ↦ ground (arith, m, find_served f ds u.1)
]

-- The row lookup and the snapshot of the whole catalog serve the same dimension for every filter, when
-- the rows have distinct codes and the lookup returns the row with the codes asked for.
pub lookup_agrees :
    (ds : List CatalogDimension) (declared : Bool) (config : PricingConfig) (f : InventoryFilter)
    → AreUnique ds
    → resolve_served_dimension
        (record { dimension = find (λ d. dimension_matches d f) ds; declared = declared })
        config
        f
      ≡ find_enabled_dimension
          (resolve_served_catalog (record { dimensions = ds; declared = declared }) config)
          f
unfolding resolve_served_dimension find_enabled_dimension resolve_served_catalog config_dimension
lookup_agrees ds true config f u = find_served f ds u
lookup_agrees ds false config f u =
    ground (arith, Bool-cases (dimension_matches (config_dimension config) f))

-- The value of a parameter is the dimension's override if it has one, and else the configuration's.
abbrev pub Overrides : Option Number → Number → Number → Type 0
Overrides none inherited value = value ≡ inherited
Overrides (some override) inherited value = value ≡ override

-- The parameters that an offer on the dimension is priced with.
pub record IsConfigured (dimension : CatalogDimension) (config c : PricingConfig) : Type 0 where
  pub lowest : Overrides dimension.min_base_price_idr config.min_base_price_idr c.min_base_price_idr
  pub highest :
      Overrides dimension.max_base_price_idr config.max_base_price_idr c.max_base_price_idr
  pub fee : Overrides dimension.fixed_fee_idr config.fixed_fee_idr c.fixed_fee_idr
  pub markup : Overrides dimension.markup_bps config.markup_bps c.markup_bps
  pub step : Overrides dimension.round_to_idr config.round_to_idr c.round_to_idr
  pub version_kept : c.version ≡ config.version
  pub currency_kept : c.currency ≡ config.currency

-- What an accepted offer is.
pub record IsServed (status : PartnerStatus) (config : PricingConfig) (ds : List CatalogDimension)
    (offer : OfferInput) (v : ValidatedOffer) : Type 0 where
  pub approved : is_approved status ≡ true
  pub dimension : CatalogDimension
  pub enabled : dimension.enabled ≡ true
  pub matches : dimension_matches dimension (offer_filter offer) ≡ true
  pub service : dimension.service_code ≡ offer.service_code
  pub country : dimension.country_code ≡ offer.country_code
  pub operator : dimension.operator_code ≡ offer.operator_code
  pub found : find_enabled_dimension ds (offer_filter offer) ≡ some dimension
  pub resolved : PricingConfig
  pub resolves : resolved ≡ resolve_dimension_pricing dimension config
  pub configured : IsConfigured dimension config resolved
  pub priced : IsPriced offer.base_price_idr resolved v.pricing
  pub kept : v.offer ≡ offer
  pub versioned : v.config_version ≡ config.version

found_holds {ℓ} :
    {A : Type ℓ} (p : A → Bool) (xs : List A) (x : A) → find p xs ≡ some x → p x ≡ true
found_holds p [] x h = cc
found_holds p (y ∷ xs) x h = elim (Bool-cases (p y)) [
  | inl t ↦ ground (arith, t)
  | inr n ↦ found_holds p xs x (ground (arith, n))
]

inherit-Overrides :
    (override : Option Number) (inherited : Number)
    → Overrides override inherited (inherit override inherited)
inherit-Overrides none inherited = refl
inherit-Overrides (some override) inherited = refl

resolve-IsConfigured :
    (d : CatalogDimension) (config : PricingConfig)
    → IsConfigured d config (resolve_dimension_pricing d config)
unfolding resolve_dimension_pricing
resolve-IsConfigured d config = record {
  lowest = inherit-Overrides d.min_base_price_idr config.min_base_price_idr;
  highest = inherit-Overrides d.max_base_price_idr config.max_base_price_idr;
  fee = inherit-Overrides d.fixed_fee_idr config.fixed_fee_idr;
  markup = inherit-Overrides d.markup_bps config.markup_bps;
  step = inherit-Overrides d.round_to_idr config.round_to_idr;
  version_kept = refl;
  currency_kept = refl;
}

same_codes :
    (d : CatalogDimension) (f : InventoryFilter)
    → dimension_matches d f ≡ true
    → (d.service_code ≡ f.service_code)
      × (d.country_code ≡ f.country_code)
      × (d.operator_code ≡ f.operator_code)
unfolding dimension_matches
same_codes d f h = ground (
  arith,
  eq_text_iff d.service_code f.service_code,
  eq_text_iff d.country_code f.country_code,
  eq_text_iff d.operator_code f.operator_code,
)

priced-IsServed :
    (status : PartnerStatus) (config : PricingConfig) (ds : List CatalogDimension)
    (offer : OfferInput) (v : ValidatedOffer)
    → is_approved status ≡ true
    → (found : Option CatalogDimension) → find_enabled_dimension ds (offer_filter offer) ≡ found
    → price_offer offer config found ≡ ok v
    → IsServed status config ds offer v
unfolding price_offer find_enabled_dimension
priced-IsServed status config ds offer v a none e h = absurd (ground arith)
priced-IsServed status config ds offer v a (some d) e h =
    let (pricing, p, h1) =
      bind_returns
        (calculate_authoritative_pricing offer.base_price_idr (resolve_dimension_pricing d config))
        _ h in
    let match : (d.enabled && dimension_matches d (offer_filter offer)) ≡ true =
      found_holds (λ (x : CatalogDimension). x.enabled && dimension_matches x (offer_filter offer))
        ds d e in
    let matched : dimension_matches d (offer_filter offer) ≡ true = ground arith in
    let (service, country, operator) = same_codes d (offer_filter offer) matched in
    record {
      approved = a;
      dimension = d;
      enabled = ground arith;
      matches = matched;
      service = service;
      country = country;
      operator = operator;
      found = e;
      resolved = resolve_dimension_pricing d config;
      resolves = refl;
      configured = resolve-IsConfigured d config;
      priced =
          pricing-IsPriced offer.base_price_idr (resolve_dimension_pricing d config) v.pricing
            (ground (arith, p));
      kept = ground arith;
      versioned = ground arith;
    }

-- An offer is accepted only from an approved partner, on the enabled dimension that was found for it, which
-- has the offer's three codes. It is priced with the dimension's lowest and highest base price, fee, markup
-- and rounding step where the dimension overrides them, and with the configuration's where it does not,
-- and it records the configuration's version.
pub offer-IsServed :
    (status : PartnerStatus) (offer : OfferInput) (config : PricingConfig)
    (ds : List CatalogDimension) (v : ValidatedOffer)
    → validate_offer status offer config ds ≡ ok v
    → IsServed status config ds offer v
unfolding validate_offer
offer-IsServed status offer config ds v h =
    let (_, _, h1) = bind_returns (validate_pricing_config config) _ h in
    let (_, a, h2) = bind_returns (throw_if (not (is_approved status)) partner_not_approved) _ h1 in
    priced-IsServed status config ds offer v (ground arith)
      (find_enabled_dimension ds (offer_filter offer)) refl h2
