-- ===== src/Catalog/Phone.antt =====
-- Phone numbers of src/domain/task-5-2-device-inventory-pricing.ts. `nfkc` stands for the Unicode
-- normalisation `normalize("NFKC")`.
pub mod Laws
use kirimkode_partner.Base.{
  ℕ, zero, suc, ◌+◌, ◌-◌, ◌/◌, ◌^◌, Bool, true, false, not, ◌&&◌, ◌||◌, Option, none, some, List,
  [], ◌∷◌, ◌++◌, leb, ◌==◌, if◌then◌else◌, length, all, keep, Result, ok, ◌>>=◌, ◌>>◌, throw_if,
}
use kirimkode_partner.Text.{Text, codes, eq_text, trim, is_space, utf16_length}
use kirimkode_partner.Catalog.Pricing.{CatalogError, invalid_phone_number, duplicate_active_number}
use kirimkode_partner.Catalog.Inventory.{NumberStatus}

-- `\d`
abbrev pub is_digit : ℕ → Bool
is_digit c = leb 48 c && leb c 57

-- `[\s().-]`
unfoldable pub is_separator : ℕ → Bool
is_separator c = is_space c || (c == 40) || (c == 41) || (c == 46) || (c == 45)

-- `/^\d+$/`
abbrev pub are_digits : Text → Bool
are_digits [] = false
are_digits (c ∷ s) = is_digit c && all is_digit s

-- `/^\+?\d+$/`
unfoldable pub is_dialable : Text → Bool
is_dialable [] = false
is_dialable (c ∷ s) = if c == 43 then are_digits s else are_digits (c ∷ s)

-- `/^8[1-9]\d{8,11}$/`, what the canonical pattern asks behind +62
unfoldable pub is_mobile : Text → Bool
is_mobile (e ∷ d ∷ s) =
    (e == 56) && leb 49 d && leb d 57 && all is_digit s && leb 8 (length s) && leb (length s) 11
is_mobile _ = false

-- `s.startsWith(prefix)`
abbrev pub starts_with : Text → Text → Bool
starts_with [] s = true
starts_with (p ∷ ps) [] = false
starts_with (p ∷ ps) (c ∷ s) = (p == c) && starts_with ps s

-- `s.slice(n)`
abbrev pub slice : ℕ → Text → Text
slice zero s = s
slice (suc n) [] = []
slice (suc n) (c ∷ s) = slice n s

unfoldable pub national_part : Text → Text
national_part compact =
    if starts_with (codes "+62") compact
    then slice 3 compact
    else if starts_with (codes "0062") compact
    then slice 4 compact
    else if starts_with (codes "62") compact
    then slice 2 compact
    else if starts_with (codes "0") compact
    then slice 1 compact
    else compact

abbrev pub with_country : Text → Text
with_country national = codes "+62" ++ national

-- `INDONESIAN_CANONICAL_NUMBER`
unfoldable pub canonical_number : Text → Bool
canonical_number s = starts_with (codes "+62") s && is_mobile (slice 3 s)

-- The number without its separators.
unfoldable pub compact_of : (Text → Text) → Text → Text
compact_of nfkc input = keep (λ c. not (is_separator c)) (trim (nfkc input))

unfoldable pub canonical_of : Text → Result CatalogError Text
canonical_of compact = do
  throw_if (not (is_dialable compact)) invalid_phone_number
  throw_if (not (canonical_number (with_country (national_part compact)))) invalid_phone_number
  ok (with_country (national_part compact))

unfoldable pub normalize_indonesian_number : (Text → Text) → Text → Result CatalogError Text
normalize_indonesian_number nfkc input = do
  throw_if (utf16_length input == 0) invalid_phone_number
  canonical_of (compact_of nfkc input)

pub record ExistingNumberIdentity : Type 0 where
  pub id : Text
  pub canonical_number : Text
  pub status : NumberStatus

abbrev pub is_disabled_number : NumberStatus → Bool
is_disabled_number NumberStatus.disabled = true
is_disabled_number _ = false

-- `id !== excludedNumberId`
abbrev pub is_not_excluded : Text → Option Text → Bool
is_not_excluded id none = true
is_not_excluded id (some excluded) = not (eq_text id excluded)

-- The test of one existing number; its number is normalised only behind the other two tests.
unfoldable pub is_duplicate :
    (Text → Text) → Text → Option Text → ExistingNumberIdentity → Result CatalogError Bool
is_duplicate nfkc canonical excluded n =
    if is_not_excluded n.id excluded && not (is_disabled_number n.status)
    then (normalize_indonesian_number nfkc n.canonical_number >>= λ other.
        ok (eq_text other canonical))
    else ok false

-- `Array.prototype.some` with a test that may throw.
unfoldable pub some_returns {ℓ κ} :
    {E : Type ℓ} {A : Type κ} → (A → Result E Bool) → List A → Result E Bool
some_returns p [] = ok false
some_returns p (x ∷ xs) = do
  found ← p x
  let rest = some_returns p xs
  if found then ok true else rest

unfoldable pub assert_unique_active_number :
    (Text → Text) → Text → List ExistingNumberIdentity → Option Text → Result CatalogError Text
assert_unique_active_number nfkc input existing_numbers excluded = do
  canonical ← normalize_indonesian_number nfkc input
  duplicate ← some_returns (is_duplicate nfkc canonical excluded) existing_numbers
  throw_if duplicate duplicate_active_number
  ok canonical
