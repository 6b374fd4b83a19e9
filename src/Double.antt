-- ===== src/Double.antt =====
-- Sums of JavaScript numbers as doubles: the exact sum, rounded to the nearest double, ties to even. The
-- ledger's own sums (src/domain/task-5-6/ledger.ts) are taken with no test of the safe range, and round
-- beyond 2^53.
use mathlib.Core.Path.{subst}
use kirimkode_partner.Base.{
  ℕ, suc, zero, ◌*◌, ◌^◌, ◌/◌, ◌%◌, ◌≤◌, ◌≡◌, refl, Bool, true, false, ltb, leb, ◌==◌, arith,
  if◌then◌else◌, Bool-cases, inl, inr, ap, ◌∙◌,
}
use Prim.Native.Nat.pow
use kirimkode_partner.Int.{ℤ, pos, negsuc, pos_part, neg_part, ◌+ℤ◌, neg}
use kirimkode_partner.Number.{Number, int, nan, infinity, neg_infinity, add_number}

-- 2^53: up to here every integer is a double.
abbrev pub exact_bound : ℕ
exact_bound = 9007199254740992

-- The distance of neighbouring doubles at `m`: the least power of two, from `s` on, that is enough for `m` to
-- be at most 2^53 of them.
unfoldable pub spacing : ℕ → ℕ → ℕ → ℕ
spacing zero m s = s
spacing (suc fuel) m s = elim (leb m (exact_bound * s)) [
  | true ↦ s
  | false ↦ spacing fuel m (s * 2)
]

-- `m` to the nearest multiple of `s`, ties to the even one.
unfoldable pub nearest : ℕ → ℕ → ℕ
nearest m s =
    let q = m / s in
    let r = m % s in
    if ltb (2 * r) s
    then q * s
    else if ltb s (2 * r)
    then suc q * s
    else if q % 2 == 0
    then q * s
    else suc q * s

-- A double is less than 2^1024, so 971 doublings of the distance are enough.
unfoldable pub round_nat : ℕ → ℕ
unfolding spacing nearest
round_nat m = nearest m (spacing 971 m 1)

abbrev pub overflows : ℕ → Bool
overflows m = leb (2 ^ 1024) m

unfoldable pub round_number : Number → Number
unfolding round_nat
round_number (int (pos m)) = let r = round_nat m in if overflows r then infinity else int (pos r)
round_number (int (negsuc m)) =
    let r = round_nat (suc m) in if overflows r then neg_infinity else int (neg (pos r))
round_number nan = nan
round_number infinity = infinity
round_number neg_infinity = neg_infinity

-- `a + b`
unfoldable pub add_double : Number → Number → Number
unfolding round_number add_number
add_double a b = round_number (add_number a b)

double_comm : (s p : ℕ) → s * (p * 2) ≡ s * 2 * p
double_comm s p = omega arith

twice : (s fuel : ℕ) → s * 2 ^ suc fuel ≡ s * 2 * 2 ^ fuel
twice s fuel = ap (λ (z : ℕ). s * z) (λ i. pow.suc 2 fuel i) ∙ double_comm s (2 ^ fuel)

-- The distance found is enough, for any `m` within the reach of the fuel.
pub spacing_covers :
    (fuel m s : ℕ) → m ≤ exact_bound * (s * 2 ^ fuel) → m ≤ exact_bound * spacing fuel m s
unfolding spacing
spacing_covers zero m s h = subst (λ (z : ℕ). m ≤ exact_bound * z) (omega arith) h
spacing_covers (suc fuel) m s h = elim (Bool-cases (leb m (exact_bound * s))) [
  | inl y ↦ ground (arith, y)
  | inr n ↦
      let rest : m ≤ exact_bound * spacing fuel m (s * 2) =
        spacing_covers fuel m (s * 2) (subst (λ (z : ℕ). m ≤ exact_bound * z) (twice s fuel) h) in
      ground (arith, n, rest)
]

-- So the fuel of `round_nat` reaches every double.
pub round_covers : (m : ℕ) → m ≤ 2 ^ 1024 → m ≤ exact_bound * spacing 971 m 1
round_covers m h = spacing_covers 971 m 1 (subst (λ (z : ℕ). m ≤ z) reach h)
  where
    reach : 2 ^ 1024 ≡ exact_bound * (1 * 2 ^ 971)
    reach = refl

-- The integers up to 2^53 in magnitude.
abbrev pub IsExact : ℤ → Type 0
IsExact z = (pos_part z ≤ exact_bound) × (neg_part z ≤ exact_bound)

spacing_one : (fuel m : ℕ) → m ≤ exact_bound → spacing fuel m 1 ≡ 1
unfolding spacing
spacing_one zero m h = refl
spacing_one (suc fuel) m h =
    let below : leb m (exact_bound * 1) ≡ true = ground arith in rw (spacing, below) refl

nearest_one : (m : ℕ) → nearest m 1 ≡ m
unfolding nearest
nearest_one m = ground arith

round_nat-exact : (m : ℕ) → m ≤ exact_bound → round_nat m ≡ m
unfolding round_nat
round_nat-exact m h = rw (spacing_one 971 m h) (nearest_one m)

fits : (m : ℕ) → m ≤ exact_bound → overflows m ≡ false
fits m h = ground arith

neg-suc : (m : ℕ) → neg (pos (suc m)) ≡ negsuc m
unfolding neg
neg-suc m = ground arith

round_exact : (z : ℤ) → IsExact z → round_number (int z) ≡ int z
unfolding round_number
round_exact (pos m) h = rw (round_nat-exact m h.0, fits m h.0) refl
round_exact (negsuc m) h = rw (round_nat-exact (suc m) h.1, fits (suc m) h.1) (ap int (neg-suc m))

-- A sum of at most 2^53 is not rounded.
pub add_double-exact : (a b : ℤ) → IsExact (a +ℤ b) → add_double (int a) (int b) ≡ int (a +ℤ b)
unfolding add_double add_number
add_double-exact a b h = round_exact (a +ℤ b) h
