-- ===== src/Catalog/Declaration/Kept.antt =====
-- Which declarations are accepted as they stand.
use kirimkode_partner.Base.{
  ℕ, ◌≤◌, ◌≡◌, refl, ap, Bool, true, false, not, Option, none, some, [], ◌∷◌, arith, ltb, all,
}
use kirimkode_partner.Number.{Number}
use kirimkode_partner.Text.{Text, trim, trim-visible, is_space, visible_ascii, utf16_length}
use kirimkode_partner.Catalog.Declaration.{
  DimensionDeclaration, valid, dimension_code_pattern, iso2_country_pattern, is_code_start,
  is_code_part, is_upper_letter, is_bad_code, is_bad_override, is_misordered, trimmed_note, note_of,
  normalize_declaration, declaration_violations, validate_dimension_declaration,
}
use kirimkode_partner.Catalog.Declaration.Laws.{IsOverride, IsOrdered, IsCode, IsNote, IsStorable}

part_range : (c : ℕ) → is_code_part c ≡ true → (33 ≤ c) × (c ≤ 126)
part_range c h = (ground arith, ground arith)

upper_range : (c : ℕ) → is_upper_letter c ≡ true → (33 ≤ c) × (c ≤ 126)
upper_range c h = (ground arith, ground arith)

all_visible :
    (p : ℕ → Bool)
    → ((c : ℕ) → p c ≡ true → (33 ≤ c) × (c ≤ 126))
    → (s : Text) → all p s ≡ true
    → all (λ c. not (is_space c)) s ≡ true
all_visible p r [] h = refl
all_visible p r (c ∷ s) h =
    let here : p c ≡ true = ground arith in
    let (l, u) = r c here in
    let there : all p s ≡ true = ground arith in rw (visible_ascii c l u) (all_visible p r s there)

-- The codes of a storable row hold no white space, so trimming keeps them.
part_all :
    (c : ℕ) (s : Text)
    → is_code_start c ≡ true
    → all is_code_part s ≡ true
    → all is_code_part (c ∷ s) ≡ true
part_all c s h k = rw h k

code_trimmed : (s : Text) → dimension_code_pattern s ≡ true → trim s ≡ s
unfolding dimension_code_pattern
code_trimmed [] h = absurd (ground arith)
code_trimmed (c ∷ s) h =
    trim-visible (c ∷ s)
      (all_visible is_code_part part_range (c ∷ s) (part_all c s (ground arith) (ground arith)))

country_trimmed : (s : Text) → iso2_country_pattern s ≡ true → trim s ≡ s
unfolding iso2_country_pattern
country_trimmed (a ∷ b ∷ []) h =
    trim-visible (a ∷ b ∷ []) (all_visible is_upper_letter upper_range (a ∷ b ∷ []) (ground arith))
country_trimmed [] h = absurd (ground arith)
country_trimmed (a ∷ []) h = absurd (ground arith)
country_trimmed (a ∷ b ∷ c ∷ s) h = absurd (ground arith)

override_kept : (o : Option Number) (m : ℕ) → IsOverride o m → is_bad_override o m ≡ false
unfolding is_bad_override
override_kept none m h = refl
override_kept (some v) m (n, e, l, u) = ground (arith, e)

order_kept : (a b : Option Number) → IsOrdered a b → is_misordered a b ≡ false
unfolding is_misordered
order_kept none b h = refl
order_kept (some x) none h = refl
order_kept (some x) (some y) h = ground (arith, h)

code_kept : (s : Text) → IsCode s → is_bad_code s ≡ false
unfolding is_bad_code
code_kept s (p, l, u) = ground (arith, p)

abbrev pub IsTrimmed : Option Text → Type 0
IsTrimmed none = Unit
IsTrimmed (some note) = trim note ≡ note

note_normal : (n : Option Text) → IsNote n → IsTrimmed n → note_of (trimmed_note n) ≡ n
unfolding utf16_length
note_normal none h t = refl
note_normal (some n) h t = ground (arith, t)

note_kept :
    (n : Option Text) → IsNote n → IsTrimmed n → ltb 500 (utf16_length (trimmed_note n)) ≡ false
unfolding utf16_length
note_kept none h t = ground arith
note_kept (some n) h t = ground (arith, t)

normal_kept :
    (upper : Text → Text) (d : DimensionDeclaration)
    → IsStorable d
    → upper d.country_code ≡ d.country_code
    → IsTrimmed d.note
    → normalize_declaration upper d ≡ d
unfolding normalize_declaration
normal_kept upper d k u t = ground (
  arith,
  code_trimmed d.service_code k.service.0,
  code_trimmed d.operator_code k.operator.0,
  country_trimmed d.country_code k.country,
  u,
  note_normal d.note k.note t,
)

kept_none :
    (upper : Text → Text) (d : DimensionDeclaration)
    → IsStorable d
    → upper d.country_code ≡ d.country_code
    → IsTrimmed d.note
    → declaration_violations upper d ≡ []
unfolding declaration_violations
kept_none upper d k u t = ground (
  arith,
  code_trimmed d.service_code k.service.0,
  code_trimmed d.operator_code k.operator.0,
  country_trimmed d.country_code k.country,
  u,
  k.country,
  code_kept d.service_code k.service,
  code_kept d.operator_code k.operator,
  override_kept d.min_base_price_idr 0 k.low,
  override_kept d.max_base_price_idr 0 k.high,
  override_kept d.fixed_fee_idr 0 k.fee,
  override_kept d.markup_bps 0 k.markup,
  override_kept d.round_to_idr 1 k.round,
  order_kept d.min_base_price_idr d.max_base_price_idr k.ordered,
  note_kept d.note k.note t,
)

-- A row that satisfies the constraints is accepted unchanged, when upper-casing keeps its country code and
-- its note is trimmed.
pub declaration_kept :
    (upper : Text → Text) (d : DimensionDeclaration)
    → IsStorable d
    → upper d.country_code ≡ d.country_code
    → IsTrimmed d.note
    → validate_dimension_declaration upper d ≡ valid d
unfolding validate_dimension_declaration
declaration_kept upper d k u t =
    rw (validate_dimension_declaration, kept_none upper d k u t)
      (ap valid (normal_kept upper d k u t))
