-- ===== src/Catalog/Pricing/Laws.antt =====
-- The theorems about prices of src/domain/task-5-2-device-inventory-pricing.ts.
use native.Mathlib.Nat.{div-add-mod', mod-lt, mul-mod_left}
use kirimkode_partner.Base.{
  ℕ, ◌+◌, ◌-◌, ◌*◌, ◌/◌, ◌%◌, ◌≤◌, ◌<◌, ◌≡◌, refl, sym, ap, ◌∙◌, ◌≢◌, not, ◌||◌, arith, ◌==◌,
  ==_iff, ok, ◌>>◌, throw_if, bind_returns,
}
use kirimkode_partner.Int.{pos, negsuc}
use kirimkode_partner.Number.{
  Number, int, nan, infinity, neg_infinity, num, is_safe_integer, lt_number, max_safe,
}
use kirimkode_partner.Text.{utf16_length}
use kirimkode_partner.Catalog.Pricing.{
  invalid_config, price_out_of_guardrail, PricingConfig, PricingResult, validate_pricing_config,
  assert_safe_integer, assert_base_price_within_guardrail, nat_of, ceil_div, ceil_to, price,
  calculate_authoritative_pricing,
}

-- A configuration of safe integers in their ranges, ordered guardrail, and codes of the right lengths.
pub record IsValidConfig (c : PricingConfig) : Type 0 where
  pub version : ℕ
  pub low : ℕ
  pub high : ℕ
  pub fee : ℕ
  pub bps : ℕ
  pub unit : ℕ
  pub version_eq : c.version ≡ num version
  pub low_eq : c.min_base_price_idr ≡ num low
  pub high_eq : c.max_base_price_idr ≡ num high
  pub fee_eq : c.fixed_fee_idr ≡ num fee
  pub bps_eq : c.markup_bps ≡ num bps
  pub unit_eq : c.round_to_idr ≡ num unit
  pub versioned : 1 ≤ version
  pub positive_unit : 1 ≤ unit
  pub ordered : low ≤ high
  pub safe :
      (version ≤ max_safe)
      × (high ≤ max_safe)
      × (fee ≤ max_safe)
      × (bps ≤ max_safe)
      × (unit ≤ max_safe)
  pub coded :
      (utf16_length c.service_code ≢ 0)
      × (utf16_length c.country_code ≡ 2)
      × (utf16_length c.operator_code ≢ 0)
      × (utf16_length c.currency ≡ 3)

safe_nat :
    (x : Number) (m : ℕ) {k : Unit {0}}
    → assert_safe_integer x m ≡ ok k
    → (n : ℕ) × (x ≡ num n) × (m ≤ n) × (n ≤ max_safe)
unfolding assert_safe_integer
safe_nat (int (pos n)) m h = (n, refl, ground arith, ground arith)
safe_nat x m h = absurd (ground arith)

-- The last two checks of a configuration, on its ordered bounds and on the lengths of its codes.
checked_codes :
    (lo hi : Number) (low high s c o u : ℕ) (d e : PricingConfig)
    → lo ≡ num low
    → hi ≡ num high
    → (throw_if (lt_number hi lo) invalid_config
        >> (throw_if (s == 0 || not (c == 2) || o == 0 || not (u == 3)) invalid_config >> ok d))
      ≡ ok e
    → (low ≤ high) × (s ≢ 0) × (c ≡ 2) × (o ≢ 0) × (u ≡ 3)
checked_codes lo hi low high s c o u d e l r h = (
  ground (arith, l, r),
  (λ q. ground arith),
  ground (arith, ==_iff c 2),
  (λ q. ground arith),
  ground (arith, ==_iff u 3),
)

pub validated-IsValidConfig :
    (c : PricingConfig) {d : PricingConfig} → validate_pricing_config c ≡ ok d → IsValidConfig c
unfolding validate_pricing_config
validated-IsValidConfig c {d} h0 =
    let (_, e1, h1) = bind_returns (assert_safe_integer c.version 1) _ h0 in
    let (_, e2, h2) = bind_returns (assert_safe_integer c.min_base_price_idr 0) _ h1 in
    let (_, e3, h3) = bind_returns (assert_safe_integer c.max_base_price_idr 0) _ h2 in
    let (_, e4, h4) = bind_returns (assert_safe_integer c.fixed_fee_idr 0) _ h3 in
    let (_, e5, h5) = bind_returns (assert_safe_integer c.markup_bps 0) _ h4 in
    let (_, e6, h6) = bind_returns (assert_safe_integer c.round_to_idr 1) _ h5 in
    let (version, version_eq, versioned, v) = safe_nat c.version 1 e1 in
    let (low, low_eq, _, _) = safe_nat c.min_base_price_idr 0 e2 in
    let (high, high_eq, _, hs) = safe_nat c.max_base_price_idr 0 e3 in
    let (fee, fee_eq, _, fs) = safe_nat c.fixed_fee_idr 0 e4 in
    let (bps, bps_eq, _, bs) = safe_nat c.markup_bps 0 e5 in
    let (unit, unit_eq, positive_unit, us) = safe_nat c.round_to_idr 1 e6 in
    let (ordered, s, co, o, u) =
      checked_codes c.min_base_price_idr c.max_base_price_idr low high (utf16_length c.service_code)
        (utf16_length c.country_code) (utf16_length c.operator_code) (utf16_length c.currency) c d
        low_eq high_eq h6 in
    record {
      version = version;
      low = low;
      high = high;
      fee = fee;
      bps = bps;
      unit = unit;
      version_eq = version_eq;
      low_eq = low_eq;
      high_eq = high_eq;
      fee_eq = fee_eq;
      bps_eq = bps_eq;
      unit_eq = unit_eq;
      versioned = versioned;
      positive_unit = positive_unit;
      ordered = ordered;
      safe = (v, hs, fs, bs, us);
      coded = (s, co, o, u);
    }

-- A rounded-up quotient times its unit is the least multiple of the unit that is not below the number.
pub ceil_div_bounds :
    (a b : ℕ)
    → 1 ≤ b
    → (a ≤ ceil_div a b * b) × (ceil_div a b * b < a + b) × ((ceil_div a b * b) % b ≡ 0)
ceil_div_bounds a b h =
    let top : ℕ = a + (b - 1) in
    let whole : top / b * b + top % b ≡ top = div-add-mod' top b in
    let rest : top % b < b = mod-lt top (omega arith) in
    (omega arith, omega arith, mul-mod_left (top / b) b)

-- The price of a base amount under a configuration, by what it guarantees.
pub record IsPriced (base : Number) (c : PricingConfig) (r : PricingResult) : Type 0 where
  pub config : IsValidConfig c
  pub markup : ℕ
  pub base_eq : base ≡ num r.payout_idr
  pub above : config.low ≤ r.payout_idr
  pub below : r.payout_idr ≤ config.high
  pub marked :
      (r.payout_idr * config.bps ≤ markup * 10_000)
      × (markup * 10_000 < r.payout_idr * config.bps + 10_000)
  pub covers : r.payout_idr + config.fee + markup ≤ r.retail_price_idr
  pub least : r.retail_price_idr < r.payout_idr + config.fee + markup + config.unit
  pub whole : r.retail_price_idr % config.unit ≡ 0
  pub margin : r.payout_idr + r.platform_margin_idr ≡ r.retail_price_idr
  pub safe : r.retail_price_idr ≤ max_safe

-- The guardrail accepts a base amount only if it is a safe integer between the bounds.
pub in_guardrail :
    (base lo hi : Number) (low high : ℕ) (d : PricingConfig)
    → lo ≡ num low
    → hi ≡ num high
    → throw_if
        (not (is_safe_integer base) || lt_number base lo || lt_number hi base)
        price_out_of_guardrail
      ≡ ok tt
    → (n : ℕ) × (base ≡ num n) × (low ≤ n) × (n ≤ high)
in_guardrail (int (pos n)) lo hi low high d l r h =
    (n, refl, ground (arith, l, r), ground (arith, l, r))
in_guardrail (int (negsuc n)) lo hi low high d l r h = absurd (ground (arith, l, r))
in_guardrail nan lo hi low high d l r h = absurd (ground arith)
in_guardrail infinity lo hi low high d l r h = absurd (ground arith)
in_guardrail neg_infinity lo hi low high d l r h = absurd (ground arith)

pub priced_parts :
    (base fee bps unit : ℕ) (r : PricingResult)
    → price base fee bps unit ≡ ok r
    → (r.payout_idr ≡ base)
      × (r.retail_price_idr ≡ ceil_div (base + fee + ceil_div (base * bps) 10_000) unit * unit)
      × (r.platform_margin_idr ≡ r.retail_price_idr - base)
      × (r.retail_price_idr ≤ max_safe)
unfolding price ceil_to
priced_parts base fee bps unit r h = (ground arith, ground arith, ground arith, ground arith)

-- A price that is returned is of a valid configuration and a base amount in its guardrail: the
-- partner gets the base amount; the markup is the basis points of it, rounded up; and the retail
-- price is the least multiple of the rounding unit that covers base, fee and markup, a safe
-- integer, with the platform's margin as the exact rest.
pub pricing-IsPriced :
    (base : Number) (c : PricingConfig) (r : PricingResult)
    → calculate_authoritative_pricing base c ≡ ok r
    → IsPriced base c r
unfolding calculate_authoritative_pricing assert_base_price_within_guardrail
pricing-IsPriced base c r h =
    let (_, g, h1) = bind_returns (assert_base_price_within_guardrail base c) _ h in
    let (d, v, g1) = bind_returns (validate_pricing_config c) _ g in
    let k : IsValidConfig c = validated-IsValidConfig c v in
    let (n, base_eq, above, below) =
      in_guardrail base c.min_base_price_idr c.max_base_price_idr k.low k.high c k.low_eq k.high_eq
        g1 in
    let (paid, retail, margin, safe) = priced_parts n k.fee k.bps k.unit r (
      rw
        (
          sym (ap nat_of base_eq),
          sym (ap nat_of k.fee_eq),
          sym (ap nat_of k.bps_eq),
          sym (ap nat_of k.unit_eq),
        )
        h1) in
    let (m1, m2, _) = ceil_div_bounds (n * k.bps) 10_000 (ground arith) in
    let (r1, r2, r3) =
      ceil_div_bounds (n + k.fee + ceil_div (n * k.bps) 10_000) k.unit k.positive_unit in
    record {
      config = k;
      markup = ceil_div (n * k.bps) 10_000;
      base_eq = (base_eq ∙ ap num (sym paid));
      above = rw paid above;
      below = rw paid below;
      marked = rw paid (m1, m2);
      covers = rw (paid, retail) r1;
      least = rw (paid, retail) r2;
      whole = rw retail r3;
      margin = omega arith;
      safe = safe;
    }
