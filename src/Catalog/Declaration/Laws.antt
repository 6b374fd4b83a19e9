-- ===== src/Catalog/Declaration/Laws.antt =====
-- What a declared dimension satisfies: the constraints of the catalog's table.
use kirimkode_partner.Base.{
  ℕ, ◌≤◌, ◌≡◌, refl, inl, inr, Bool, true, false, Option, none, some, [], ◌∷◌, ◌++◌, arith, ltb,
  ◌==◌, Bool-cases,
}
use kirimkode_partner.Int.{pos, negsuc}
use kirimkode_partner.Number.{Number, int, nan, infinity, neg_infinity, num, lt_number}
use kirimkode_partner.Text.{Text, trim, utf16_length}
use kirimkode_partner.Catalog.Declaration.{
  DimensionDeclaration, DimensionDeclarationViolations, valid, dimension_code_pattern,
  iso2_country_pattern, is_bad_code, is_bad_override, is_misordered, trimmed_note, note_of,
  normalize_declaration, declaration_violations, validate_dimension_declaration, push_if, int4_max,
  DimensionDeclarationViolationCode,
}

-- An override that is absent, or a number between the column's bound and the largest INTEGER.
abbrev pub IsOverride : Option Number → ℕ → Type 0
IsOverride none minimum = Unit
IsOverride (some value) minimum = (n : ℕ) × (value ≡ num n) × (minimum ≤ n) × (n ≤ int4_max)

-- Neither bound is overridden without the other, or they are in order.
abbrev pub IsOrdered : Option Number → Option Number → Type 0
IsOrdered (some min) (some max) = lt_number max min ≡ false
IsOrdered _ _ = Unit

abbrev pub IsCode : Text → Type 0
IsCode s = (dimension_code_pattern s ≡ true) × (1 ≤ utf16_length s) × (utf16_length s ≤ 32)

abbrev pub IsNote : Option Text → Type 0
IsNote none = Unit
IsNote (some note) = (1 ≤ utf16_length note) × (utf16_length note ≤ 500)

-- The constraints of a row of the catalog.
pub record IsStorable (d : DimensionDeclaration) : Type 0 where
  pub service : IsCode d.service_code
  pub country : iso2_country_pattern d.country_code ≡ true
  pub operator : IsCode d.operator_code
  pub low : IsOverride d.min_base_price_idr 0
  pub high : IsOverride d.max_base_price_idr 0
  pub fee : IsOverride d.fixed_fee_idr 0
  pub markup : IsOverride d.markup_bps 0
  pub round : IsOverride d.round_to_idr 1
  pub ordered : IsOrdered d.min_base_price_idr d.max_base_price_idr
  pub note : IsNote d.note

-- A check that pushed nothing, and the checks behind it.
pushed_none :
    (bad : Bool) (field : Text) (code : DimensionDeclarationViolationCode)
    (rest : DimensionDeclarationViolations)
    → push_if bad field code ++ rest ≡ []
    → (bad ≡ false) × (rest ≡ [])
pushed_none true field code rest h = absurd (ground arith)
pushed_none false field code rest h = (refl, h)

checked-IsCode : (s : Text) → is_bad_code s ≡ false → IsCode s
unfolding is_bad_code
checked-IsCode s h = (ground arith, ground arith, ground arith)

checked-IsOverride : (o : Option Number) (m : ℕ) → is_bad_override o m ≡ false → IsOverride o m
unfolding is_bad_override
checked-IsOverride none m h = tt
checked-IsOverride (some (int (pos n))) m h = (n, refl, ground arith, ground arith)
checked-IsOverride (some (int (negsuc n))) m h = absurd (ground arith)
checked-IsOverride (some nan) m h = absurd (ground arith)
checked-IsOverride (some infinity) m h = absurd (ground arith)
checked-IsOverride (some neg_infinity) m h = absurd (ground arith)

order_checked :
    (a b : Option Number)
    → is_bad_override a 0 ≡ false
    → is_bad_override b 0 ≡ false
    → is_misordered a b ≡ false
    → IsOrdered a b
unfolding is_misordered is_bad_override
order_checked none b ha hb h = tt
order_checked (some x) none ha hb h = tt
order_checked (some x) (some y) ha hb h = ground arith

checked-IsNote : (t : Text) → ltb 500 (utf16_length t) ≡ false → IsNote (note_of t)
checked-IsNote t h = elim (Bool-cases (utf16_length t == 0)) [
  | inl z ↦ rw z tt
  | inr n ↦ rw n (ground arith, ground arith)
]

-- The order of the checks, none of which pushed.
checks_passed :
    (upper : Text → Text) (i : DimensionDeclaration)
    → declaration_violations upper i ≡ []
    → IsStorable (normalize_declaration upper i)
unfolding declaration_violations normalize_declaration
checks_passed upper i h0 =
    let (b1, h1) = pushed_none _ _ _ _ h0 in
    let (b2, h2) = pushed_none _ _ _ _ h1 in
    let (b3, h3) = pushed_none _ _ _ _ h2 in
    let (b4, h4) = pushed_none _ _ _ _ h3 in
    let (b5, h5) = pushed_none _ _ _ _ h4 in
    let (b6, h6) = pushed_none _ _ _ _ h5 in
    let (b7, h7) = pushed_none _ _ _ _ h6 in
    let (b8, h8) = pushed_none _ _ _ _ h7 in
    let (b9, h9) = pushed_none _ _ _ _ h8 in
    record {
      service = checked-IsCode (trim i.service_code) b1;
      country = ground arith;
      operator = checked-IsCode (trim i.operator_code) b3;
      low = checked-IsOverride i.min_base_price_idr 0 b4;
      high = checked-IsOverride i.max_base_price_idr 0 b5;
      fee = checked-IsOverride i.fixed_fee_idr 0 b6;
      markup = checked-IsOverride i.markup_bps 0 b7;
      round = checked-IsOverride i.round_to_idr 1 b8;
      ordered = order_checked i.min_base_price_idr i.max_base_price_idr b4 b5 b9;
      note = checked-IsNote (trimmed_note i.note) (ground arith);
    }

accepted-IsStorable :
    (upper : Text → Text) (i d : DimensionDeclaration) (vs : DimensionDeclarationViolations)
    → declaration_violations upper i ≡ vs
    → validate_dimension_declaration upper i ≡ valid d
    → IsStorable d
unfolding validate_dimension_declaration
accepted-IsStorable upper i d [] e h =
    let same : d ≡ normalize_declaration upper i = ground (arith, e) in
    rw same (checks_passed upper i e)
accepted-IsStorable upper i d (v ∷ vs) e h = absurd (ground (arith, e))

-- A declaration that is accepted satisfies every constraint of the catalog's table: the codes' shape and
-- length, the country's two upper-case letters, each override within its column, the guardrail in order,
-- and the note's length; whatever `upper` does.
pub declared-IsStorable :
    (upper : Text → Text) (i d : DimensionDeclaration)
    → validate_dimension_declaration upper i ≡ valid d
    → IsStorable d
unfolding validate_dimension_declaration
declared-IsStorable upper i d h =
    accepted-IsStorable upper i d (declaration_violations upper i) refl h
