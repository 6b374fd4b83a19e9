-- ===== src/Catalog/Pricing/Returns.antt =====
-- When a price is returned, and how it moves with the base amount.
use native.Mathlib.Nat.{mul-le-mul_right, le-div_iff_mul-le}
use kirimkode_partner.Base.{
  ℕ, ◌+◌, ◌-◌, ◌*◌, ◌≤◌, ◌≡◌, ap, ◌≢◌, not, ◌||◌, arith, ◌==◌, ok, ◌>>◌, throw_if, bind_returns,
}
use kirimkode_partner.Number.{Number, num, is_safe_integer, lt_number, max_safe}
use kirimkode_partner.Text.{utf16_length}
use kirimkode_partner.Catalog.Pricing.{
  invalid_config, price_out_of_guardrail, PricingConfig, PricingResult, validate_pricing_config,
  assert_safe_integer, assert_base_price_within_guardrail, nat_of, ceil_div, ceil_to, price,
  calculate_authoritative_pricing,
}
use kirimkode_partner.Catalog.Pricing.Laws.{
  IsValidConfig, IsPriced, pricing-IsPriced, ceil_div_bounds, priced_parts,
}

nat_safe :
    (x : Number) (n m : ℕ) → x ≡ num n → m ≤ n → n ≤ max_safe → assert_safe_integer x m ≡ ok tt
unfolding assert_safe_integer
nat_safe x n m e l h = ground (arith, e)

ceil_div_mono : (a b u : ℕ) → 1 ≤ u → a ≤ b → ceil_div a u ≤ ceil_div b u
ceil_div_mono a b u h l =
    (le-div_iff_mul-le (omega arith)).1 (let (_, r, _) = ceil_div_bounds a u h in omega arith)

-- The last two checks pass on ordered bounds and codes of the right lengths.
codes_checked :
    (lo hi : Number) (low high s c o u : ℕ) (d : PricingConfig)
    → lo ≡ num low
    → hi ≡ num high
    → low ≤ high
    → s ≢ 0
    → c ≡ 2
    → o ≢ 0
    → u ≡ 3
    → (throw_if (lt_number hi lo) invalid_config
        >> (throw_if (s == 0 || not (c == 2) || o == 0 || not (u == 3)) invalid_config >> ok d))
      ≡ ok d
codes_checked lo hi low high s c o u d el eh l a b k e = ground (arith, el, eh, a, b, k, e)

valid_checked : (c : PricingConfig) → IsValidConfig c → validate_pricing_config c ≡ ok c
unfolding validate_pricing_config
valid_checked c k =
    let (v, h, f, b, u) = k.safe in
    let (s, co, o, cu) = k.coded in
    rw
      (
        nat_safe c.version k.version 1 k.version_eq k.versioned v,
        nat_safe c.min_base_price_idr k.low 0 k.low_eq (omega arith) (omega arith),
        nat_safe c.max_base_price_idr k.high 0 k.high_eq (omega arith) h,
        nat_safe c.fixed_fee_idr k.fee 0 k.fee_eq (omega arith) f,
        nat_safe c.markup_bps k.bps 0 k.bps_eq (omega arith) b,
        nat_safe c.round_to_idr k.unit 1 k.unit_eq k.positive_unit u,
      )
      (codes_checked c.min_base_price_idr c.max_base_price_idr k.low k.high
        (utf16_length c.service_code) (utf16_length c.country_code) (utf16_length c.operator_code)
        (utf16_length c.currency) c k.low_eq k.high_eq k.ordered s co o cu)

guardrail_passed :
    (n low high : ℕ) (lo hi : Number)
    → lo ≡ num low
    → hi ≡ num high
    → low ≤ n
    → n ≤ high
    → high ≤ max_safe
    → throw_if
        (not (is_safe_integer (num n)) || lt_number (num n) lo || lt_number hi (num n))
        price_out_of_guardrail
      ≡ ok tt
guardrail_passed n low high lo hi el eh l h m = ground (arith, el, eh)

price_returns :
    (n fee bps unit : ℕ)
    → 1 ≤ unit
    → n * bps ≤ max_safe
    → n + fee + ceil_div (n * bps) 10_000 + unit ≤ max_safe
    → (r : PricingResult) × (price n fee bps unit ≡ ok r)
unfolding price ceil_to
price_returns n fee bps unit u p q =
    let total : ℕ = n + fee + ceil_div (n * bps) 10_000 in
    let (_, b, _) = ceil_div_bounds total unit u in
    (
      record {
        retail_price_idr = ceil_div total unit * unit;
        payout_idr = n;
        platform_margin_idr = ceil_div total unit * unit - n;
      },
      ground arith,
    )

-- Every base amount in the guardrail of a valid configuration has a price, as long as neither the
-- product with the basis points nor the subtotal with one rounding unit leaves the safe integers.
pub pricing_returns :
    (c : PricingConfig) (k : IsValidConfig c) (n : ℕ)
    → k.low ≤ n
    → n ≤ k.high
    → n * k.bps ≤ max_safe
    → n + k.fee + ceil_div (n * k.bps) 10_000 + k.unit ≤ max_safe
    → (r : PricingResult) × (calculate_authoritative_pricing (num n) c ≡ ok r)
unfolding calculate_authoritative_pricing assert_base_price_within_guardrail
pricing_returns c k n l h p q =
    let (r, e) = price_returns n k.fee k.bps k.unit k.positive_unit p q in
    (
      r,
      rw
          (
            valid_checked c k,
            guardrail_passed n k.low k.high c.min_base_price_idr c.max_base_price_idr k.low_eq
                k.high_eq l h k.safe.1,
            ap nat_of k.fee_eq,
            ap nat_of k.bps_eq,
            ap nat_of k.unit_eq,
          )
          e,
    )

price_of :
    (n : ℕ) (c : PricingConfig) (r : PricingResult)
    → calculate_authoritative_pricing (num n) c ≡ ok r
    → price n (nat_of c.fixed_fee_idr) (nat_of c.markup_bps) (nat_of c.round_to_idr) ≡ ok r
unfolding calculate_authoritative_pricing
price_of n c r h =
    let (_, _, e) = bind_returns (assert_base_price_within_guardrail (num n) c) _ h in e

-- Of two base amounts that one configuration prices, the higher never has the lower retail price.
pub retail_mono :
    (c : PricingConfig) (a b : ℕ) (r s : PricingResult)
    → a ≤ b
    → calculate_authoritative_pricing (num a) c ≡ ok r
    → calculate_authoritative_pricing (num b) c ≡ ok s
    → r.retail_price_idr ≤ s.retail_price_idr
retail_mono c a b r s l hr hs =
    let fee : ℕ = nat_of c.fixed_fee_idr in
    let bps : ℕ = nat_of c.markup_bps in
    let unit : ℕ = nat_of c.round_to_idr in
    let k : IsPriced (num a) c r = pricing-IsPriced (num a) c r hr in
    let u : 1 ≤ unit = rw (ap nat_of k.config.unit_eq) k.config.positive_unit in
    let (_, er, _, _) = priced_parts a fee bps unit r (price_of a c r hr) in
    let (_, es, _, _) = priced_parts b fee bps unit s (price_of b c s hs) in
    let markup : ceil_div (a * bps) 10_000 ≤ ceil_div (b * bps) 10_000 =
      ceil_div_mono (a * bps) (b * bps) 10_000 (ground arith) (mul-le-mul_right bps l) in
    rw (er, es)
      (mul-le-mul_right unit (
        ceil_div_mono (a + fee + ceil_div (a * bps) 10_000) (b + fee + ceil_div (b * bps) 10_000)
          unit u (omega arith)))
