-- ===== src/Number.antt =====
-- JavaScript numbers as the program uses them: exact integers, and the three values that are not
-- finite. Fractions are outside this model, and so is the rounding of integers beyond 2^53 here, since
-- every amount that the program stores passes `Number.isSafeInteger` first; Double has the rounded sum.
use kirimkode_partner.Base.{ℕ, ◌≡◌, Bool, true, false, ◌&&◌, leb}
use kirimkode_partner.Int.{ℤ, pos, pos_part, neg_part, ltb_ℤ, leb_ℤ, eqb_ℤ, ◌+ℤ◌, ◌-ℤ◌, neg}

pub data Number : Type 0 where
  int : ℤ → Number
  nan infinity neg_infinity : Number

-- `Number.MAX_SAFE_INTEGER`
abbrev pub max_safe : ℕ
max_safe = 9007199254740991

-- `Number.isFinite`
abbrev pub is_finite : Number → Bool
is_finite (int z) = true
is_finite _ = false

-- `Number.isSafeInteger`
abbrev pub is_safe_integer : Number → Bool
is_safe_integer (int z) = leb (pos_part z) max_safe && leb (neg_part z) max_safe
is_safe_integer _ = false

-- `a < b`; every comparison with NaN is false.
abbrev pub lt_number : Number → Number → Bool
lt_number (int a) (int b) = ltb_ℤ a b
lt_number (int a) infinity = true
lt_number neg_infinity (int b) = true
lt_number neg_infinity infinity = true
lt_number _ _ = false

-- `a === b`
abbrev pub eq_number : Number → Number → Bool
eq_number (int a) (int b) = eqb_ℤ a b
eq_number infinity infinity = true
eq_number neg_infinity neg_infinity = true
eq_number _ _ = false

-- `a <= b`
abbrev pub le_number : Number → Number → Bool
le_number (int a) (int b) = leb_ℤ a b
le_number (int a) infinity = true
le_number neg_infinity (int b) = true
le_number neg_infinity infinity = true
le_number infinity infinity = true
le_number neg_infinity neg_infinity = true
le_number _ _ = false

-- `a + b`
unfoldable pub add_number : Number → Number → Number
add_number (int a) (int b) = int (a +ℤ b)
add_number (int a) y = y
add_number nan y = nan
add_number x (int b) = x
add_number infinity infinity = infinity
add_number neg_infinity neg_infinity = neg_infinity
add_number _ _ = nan

-- `-a`
unfoldable pub neg_number : Number → Number
neg_number (int a) = int (neg a)
neg_number nan = nan
neg_number infinity = neg_infinity
neg_number neg_infinity = infinity

-- `a - b`
unfoldable pub sub_number : Number → Number → Number
sub_number (int a) (int b) = int (a -ℤ b)
sub_number x y = add_number x (neg_number y)

-- A numeral of the source.
abbrev pub num : ℕ → Number
num n = int (pos n)

-- A value that `Number.isSafeInteger` accepts.
abbrev pub IsSafeInteger : Number → Type 0
IsSafeInteger x = is_safe_integer x ≡ true
