-- ===== src/Catalog/Phone/Laws.antt =====
-- The theorems about phone numbers of src/domain/task-5-2-device-inventory-pricing.ts.
use mathlib.Core.Path.{subst}
use kirimkode_partner.Base.{
  ℕ, ◌≡◌, refl, sym, ap, ◌∙◌, ◌≢◌, true, false, not, ◌&&◌, Option, List, [], ◌∷◌, ◌++◌, arith, all,
  keep, All, ok, bind_returns,
}
use kirimkode_partner.Text.{
  Text, codes, eq_text_refl, trim, is_space, keep-trim, visible_ascii, utf16_length,
}
use kirimkode_partner.Catalog.Phone.{
  is_digit, is_separator, is_dialable, is_mobile, national_part, with_country, canonical_number,
  compact_of, canonical_of, normalize_indonesian_number, ExistingNumberIdentity, is_disabled_number,
  is_not_excluded, is_duplicate, some_returns, assert_unique_active_number,
}

-- A normalised number is canonical: +628, a digit of one at least, and eight to eleven more digits.
pub normalized-IsCanonical :
    (nfkc : Text → Text) (input s : Text)
    → normalize_indonesian_number nfkc input ≡ ok s
    → canonical_number s ≡ true
unfolding normalize_indonesian_number canonical_of
normalized-IsCanonical nfkc input s h = ground arith

mobile_digits : (n : Text) → is_mobile n ≡ true → all is_digit n ≡ true
unfolding is_mobile
mobile_digits [] h = absurd (ground arith)
mobile_digits (c ∷ []) h = absurd (ground arith)
mobile_digits (c ∷ d ∷ s) h = ground arith

-- The five ways to write a national number.
pub data Spelling : Type 0 where
  international double_zero country trunk plain : Spelling

abbrev pub spell : Spelling → Text → Text
spell international n = codes "+62" ++ n
spell double_zero n = codes "0062" ++ n
spell country n = codes "62" ++ n
spell trunk n = codes "0" ++ n
spell plain n = n

spelled_part : (w : Spelling) (n : Text) → is_mobile n ≡ true → national_part (spell w n) ≡ n
unfolding national_part is_mobile
spelled_part international n h = refl
spelled_part double_zero n h = refl
spelled_part country n h = refl
spelled_part trunk [] h = absurd (ground arith)
spelled_part trunk (c ∷ []) h = absurd (ground arith)
spelled_part trunk (c ∷ d ∷ s) h = ground arith
spelled_part plain [] h = absurd (ground arith)
spelled_part plain (c ∷ []) h = absurd (ground arith)
spelled_part plain (c ∷ d ∷ s) h = ground arith

spelled_dialable : (w : Spelling) (n : Text) → is_mobile n ≡ true → is_dialable (spell w n) ≡ true
unfolding is_dialable is_mobile
spelled_dialable w [] h = absurd (ground arith)
spelled_dialable w (c ∷ []) h = absurd (ground arith)
spelled_dialable w (c ∷ d ∷ s) h = elim w [
  | international ↦ ground arith
  | double_zero ↦ ground arith
  | country ↦ ground arith
  | trunk ↦ ground arith
  | plain ↦ ground arith
]

spelled_canonical :
    (w : Spelling) (n : Text) → is_mobile n ≡ true → canonical_of (spell w n) ≡ ok (with_country n)
unfolding canonical_of canonical_number
spelled_canonical w n h = ground (arith, spelled_dialable w n h, spelled_part w n h)

space_separates : (c : ℕ) → is_space c ≡ true → not (is_separator c) ≡ false
unfolding is_separator
space_separates c h = ground (arith, h)

-- However a mobile number is written (with +62, 0062, 62, 0 or nothing in front, and any separators
-- in it or around it, after the Unicode normalisation of an input that is not empty), the
-- normalised number is the same.
pub spelling_agrees :
    (nfkc : Text → Text) (input n : Text) (w : Spelling)
    → is_mobile n ≡ true
    → utf16_length input ≢ 0
    → keep (λ c. not (is_separator c)) (nfkc input) ≡ spell w n
    → normalize_indonesian_number nfkc input ≡ ok (with_country n)
unfolding normalize_indonesian_number compact_of
spelling_agrees nfkc input n w h l e =
    let same : keep (λ c. not (is_separator c)) (trim (nfkc input)) ≡ spell w n =
      keep-trim (λ c. not (is_separator c)) space_separates (nfkc input) ∙ e in
    ground (arith, l, same, spelled_canonical w n h)

canonical_spelled :
    (s : Text)
    → canonical_number s ≡ true
    → (n : Text) × (is_mobile n ≡ true) × (s ≡ spell international n)
unfolding canonical_number
canonical_spelled [] h = absurd (ground arith)
canonical_spelled (a ∷ []) h = absurd (ground arith)
canonical_spelled (a ∷ b ∷ []) h = absurd (ground arith)
canonical_spelled (a ∷ b ∷ c ∷ n) h = (n, ground arith, ground arith)

digit_kept : (c : ℕ) → is_digit c ≡ true → is_separator c ≡ false
unfolding is_separator
digit_kept c h = ground (arith, visible_ascii c (ground arith) (ground arith))

kept_digits : (s : Text) → all is_digit s ≡ true → keep (λ c. not (is_separator c)) s ≡ s
kept_digits [] h = refl
kept_digits (c ∷ s) h = ground (arith, digit_kept c, kept_digits s)

plus_kept : is_separator 43 ≡ false
unfolding is_separator is_space
plus_kept = refl

kept_international :
    (n : Text)
    → is_mobile n ≡ true
    → keep (λ c. not (is_separator c)) (spell international n) ≡ spell international n
kept_international n h =
    ground
      (arith, plus_kept, digit_kept 54 refl, digit_kept 50 refl, kept_digits n (mobile_digits n h))

nonempty : (s : Text) → canonical_number s ≡ true → utf16_length s ≢ 0
unfolding canonical_number utf16_length
nonempty [] h = absurd (ground arith)
nonempty (c ∷ s) h = λ e. ground arith

-- Normalising a normalised number again keeps it, when the Unicode normalisation does.
pub normalize_again :
    (nfkc : Text → Text) (input s : Text)
    → normalize_indonesian_number nfkc input ≡ ok s
    → nfkc s ≡ s
    → normalize_indonesian_number nfkc s ≡ ok s
normalize_again nfkc input s h k =
    let c : canonical_number s ≡ true = normalized-IsCanonical nfkc input s h in
    let (n, m, e) = canonical_spelled s c in
    spelling_agrees nfkc s n international m (nonempty s c)
      (ap (keep (λ x. not (is_separator x))) (k ∙ e) ∙ kept_international n m)
    ∙ ap ok (sym e)

-- Only a disabled number, or the excluded one, may have the same canonical number.
module _ (nfkc : Text → Text) (canonical : Text) (excluded : Option Text) where
  abbrev pub IsOther : ExistingNumberIdentity → Type 0
  IsOther n =
      (is_not_excluded n.id excluded && not (is_disabled_number n.status)) ≡ true
      → normalize_indonesian_number nfkc n.canonical_number ≢ ok canonical

  differs :
      (n : ExistingNumberIdentity) → is_duplicate nfkc canonical excluded n ≡ ok false → IsOther n
  unfolding is_duplicate
  differs n h t e = ground (arith, eq_text_refl canonical, t, e)

  others_differ :
      (ns : List ExistingNumberIdentity)
      → some_returns (is_duplicate nfkc canonical excluded) ns ≡ ok false
      → All IsOther ns
  unfolding some_returns
  others_differ [] h = tt
  others_differ (n ∷ ns) h =
      let (b, e, h1) = bind_returns (is_duplicate nfkc canonical excluded n) _ h in
      let no : b ≡ false = ground arith in
      (differs n (e ∙ ap ok no), others_differ ns (ground arith))

-- A number that is accepted is the normalised input, and no other existing number that is not
-- disabled has the same canonical number.
pub accepted-IsUnique :
    (nfkc : Text → Text) (input s : Text) (ns : List ExistingNumberIdentity)
    (excluded : Option Text)
    → assert_unique_active_number nfkc input ns excluded ≡ ok s
    → (normalize_indonesian_number nfkc input ≡ ok s) × All (IsOther nfkc s excluded) ns
unfolding assert_unique_active_number
accepted-IsUnique nfkc input s ns excluded h =
    let (c, e, h1) = bind_returns (normalize_indonesian_number nfkc input) _ h in
    let (b, k, h2) = bind_returns (some_returns (is_duplicate nfkc c excluded) ns) _ h1 in
    let same : c ≡ s = ground arith in
    let no : b ≡ false = ground arith in
    subst (λ x. (normalize_indonesian_number nfkc input ≡ ok x) × All (IsOther nfkc x excluded) ns)
      same (e, others_differ nfkc c excluded ns (k ∙ ap ok no))
