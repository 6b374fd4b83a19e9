-- ===== src/Catalog/Declaration.antt =====
-- The declaration of a catalog dimension (validateDimensionDeclaration of
-- src/domain/task-5-2-device-inventory-pricing.ts). `upper` stands for the full Unicode `toUpperCase`; an
-- override that is absent or null is `none`.
pub mod Laws
pub mod Kept
use kirimkode_partner.Base.{
  ℕ, ◌+◌, ◌-◌, ◌*◌, ◌/◌, ◌^◌, Bool, false, not, ◌&&◌, ◌||◌, Option, none, some, List, [], ◌∷◌, ◌++◌,
  ltb, leb, ◌==◌, if◌then◌else◌, all,
}
use kirimkode_partner.Number.{Number, num, is_safe_integer, lt_number}
use kirimkode_partner.Text.{Text, codes, trim, utf16_length}

pub data DimensionDeclarationViolationCode : Type 0 where
  invalid_service_code invalid_country_code invalid_operator_code invalid_price_override
        invalid_price_guardrail_order invalid_note :
      DimensionDeclarationViolationCode

pub record DimensionDeclarationViolation : Type 0 where
  pub field : Text
  pub code : DimensionDeclarationViolationCode

-- The proposed dimension, and what the row will contain.
pub record DimensionDeclaration : Type 0 where
  pub service_code : Text
  pub country_code : Text
  pub operator_code : Text
  pub enabled : Bool
  pub min_base_price_idr : Option Number
  pub max_base_price_idr : Option Number
  pub fixed_fee_idr : Option Number
  pub markup_bps : Option Number
  pub round_to_idr : Option Number
  pub note : Option Text

pub data DimensionDeclarationValidation : Type 0 where
  valid : DimensionDeclaration → DimensionDeclarationValidation
  invalid : List DimensionDeclarationViolation → DimensionDeclarationValidation

abbrev pub dimension_code_max_length : ℕ
dimension_code_max_length = 32

abbrev pub dimension_note_max_length : ℕ
dimension_note_max_length = 500

abbrev pub int4_max : ℕ
int4_max = 2_147_483_647

-- `[a-z0-9]`
abbrev pub is_code_start : ℕ → Bool
is_code_start c = (leb 97 c && leb c 122) || (leb 48 c && leb c 57)

-- `[a-z0-9_-]`
abbrev pub is_code_part : ℕ → Bool
is_code_part c = is_code_start c || (c == 95) || (c == 45)

-- `/^[a-z0-9][a-z0-9_-]*$/`
unfoldable pub dimension_code_pattern : Text → Bool
dimension_code_pattern [] = false
dimension_code_pattern (c ∷ s) = is_code_start c && all is_code_part s

abbrev pub is_upper_letter : ℕ → Bool
is_upper_letter c = leb 65 c && leb c 90

-- `/^[A-Z]{2}$/`
unfoldable pub iso2_country_pattern : Text → Bool
iso2_country_pattern (a ∷ b ∷ []) = is_upper_letter a && is_upper_letter b
iso2_country_pattern _ = false

abbrev pub DimensionDeclarationViolations : Type 0
DimensionDeclarationViolations = List DimensionDeclarationViolation

-- `if (bad) violations.push({ field, code })`
abbrev pub push_if :
    Bool → Text → DimensionDeclarationViolationCode → DimensionDeclarationViolations
push_if bad field code = if bad then record { field = field; code = code } ∷ [] else []

unfoldable pub is_bad_code : Text → Bool
is_bad_code code =
    (utf16_length code == 0)
    || ltb dimension_code_max_length (utf16_length code)
    || not (dimension_code_pattern code)

-- The test of one override against its column's bounds.
unfoldable pub is_bad_override : Option Number → ℕ → Bool
is_bad_override none minimum = false
is_bad_override (some value) minimum =
    not (is_safe_integer value) || lt_number value (num minimum) || lt_number (num int4_max) value

unfoldable pub is_misordered : Option Number → Option Number → Bool
is_misordered (some min) (some max) =
    is_safe_integer min && is_safe_integer max && lt_number max min
is_misordered _ _ = false

abbrev pub trimmed_note : Option Text → Text
trimmed_note none = []
trimmed_note (some note) = trim note

abbrev pub note_of : Text → Option Text
note_of trimmed = if utf16_length trimmed == 0 then none else some trimmed

-- The row that an input is normalised to.
unfoldable pub normalize_declaration : (Text → Text) → DimensionDeclaration → DimensionDeclaration
normalize_declaration upper input = record {
  service_code = trim input.service_code;
  country_code = upper (trim input.country_code);
  operator_code = trim input.operator_code;
  enabled = input.enabled;
  min_base_price_idr = input.min_base_price_idr;
  max_base_price_idr = input.max_base_price_idr;
  fixed_fee_idr = input.fixed_fee_idr;
  markup_bps = input.markup_bps;
  round_to_idr = input.round_to_idr;
  note = note_of (trimmed_note input.note);
}

-- Every refusal, in the order of the checks.
unfoldable pub declaration_violations :
    (Text → Text) → DimensionDeclaration → DimensionDeclarationViolations
declaration_violations upper input =
    push_if (is_bad_code (trim input.service_code)) (codes "serviceCode") invalid_service_code
    ++ (push_if (not (iso2_country_pattern (upper (trim input.country_code)))) (codes "countryCode")
          invalid_country_code
        ++ (push_if (is_bad_code (trim input.operator_code)) (codes "operatorCode")
              invalid_operator_code
            ++ (push_if (is_bad_override input.min_base_price_idr 0) (codes "minBasePriceIdr")
                  invalid_price_override
                ++ (push_if (is_bad_override input.max_base_price_idr 0) (codes "maxBasePriceIdr")
                      invalid_price_override
                    ++ (push_if (is_bad_override input.fixed_fee_idr 0) (codes "fixedFeeIdr")
                          invalid_price_override
                        ++ (push_if (is_bad_override input.markup_bps 0) (codes "markupBps")
                              invalid_price_override
                            ++ (push_if (is_bad_override input.round_to_idr 1) (codes "roundToIdr")
                                  invalid_price_override
                                ++ (push_if
                                      (is_misordered input.min_base_price_idr
                                        input.max_base_price_idr)
                                      (codes "maxBasePriceIdr") invalid_price_guardrail_order
                                    ++ push_if
                                        (ltb dimension_note_max_length
                                          (utf16_length (trimmed_note input.note)))
                                        (codes "note") invalid_note))))))))

unfoldable pub validate_dimension_declaration :
    (Text → Text) → DimensionDeclaration → DimensionDeclarationValidation
validate_dimension_declaration upper input = elim (declaration_violations upper input) [
  | [] ↦ valid (normalize_declaration upper input)
  | violations ↦ invalid violations
]
