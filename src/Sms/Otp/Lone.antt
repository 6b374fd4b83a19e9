-- ===== src/Sms/Otp/Lone.antt =====
-- A message whose only digits are a code.
use mathlib.Core.Path.{subst}
use kirimkode_partner.Base.{
  ℕ, zero, suc, ◌≤◌, ◌≡◌, refl, ◌∙◌, Bool, true, false, not, Option, none, some, List, [], ◌∷◌,
  ◌++◌, inl, inr, arith, length, all, All, Bool-cases,
}
use kirimkode_partner.Text.{Text}
use kirimkode_partner.Earning.{or_default}
use kirimkode_partner.Catalog.Phone.{is_digit}
use kirimkode_partner.Sms.Registry.{
  GroupedForm, ServiceOtpSpec, service_otp_registry, service_otp_spec, includes,
}
use kirimkode_partner.Sms.Candidates.{
  take_digits, take_grouped, match_candidate, value_of, candidates_from, head_is, is_intact,
  in_chain, reverse_onto, intact_code_candidates,
}
use kirimkode_partner.Sms.Otp.{
  choose_candidate, is_foreign, has_keyword, is_direct_decoy_label, last_units, parse_with_spec,
  parse_service_otp, matched, Unicode, ServiceOtpRule,
}
use kirimkode_partner.Sms.Otp.Digits.{IsCode, IsJoinable, dropped_digits}
use kirimkode_partner.Sms.Otp.Matches.{
  Holds, find_spec-Holds, HasJoinable, service_otp_spec-HasJoinable,
}

abbrev pub HasNoDigit : Text → Type 0
HasNoDigit s = all (λ c. not (is_digit c)) s ≡ true

-- No match starts but at a digit.
unfoldable NeedsDigit : ServiceOtpSpec → Type 0
NeedsDigit spec =
    (c : ℕ) (s : Text) → is_digit c ≡ false → match_candidate spec.code_shape (c ∷ s) ≡ none

registry-NeedDigit : All (λ e. NeedsDigit e.1) service_otp_registry
unfolding NeedsDigit match_candidate take_digits take_grouped
registry-NeedDigit = (
  (λ c s h. rw h (rw h refl)),
  ((λ c s h. rw h refl), ((λ c s h. rw h refl), ((λ c s h. rw h refl), tt))),
)

service_otp_spec-NeedsDigit :
    (code : Text) (spec : ServiceOtpSpec) → service_otp_spec code ≡ some spec → NeedsDigit spec
unfolding service_otp_spec
service_otp_spec-NeedsDigit code spec e =
    subst (Holds NeedsDigit) e
      (find_spec-Holds NeedsDigit code service_otp_registry registry-NeedDigit)

unfoldable HasLength : ServiceOtpSpec → Type 0
HasLength spec = 1 ≤ spec.code_shape.digit_length

registry-HaveLength : All (λ e. HasLength e.1) service_otp_registry
unfolding HasLength
registry-HaveLength = (omega arith, (omega arith, (omega arith, (omega arith, tt))))

code_nonempty :
    (code : Text) (spec : ServiceOtpSpec) (ds : Text)
    → service_otp_spec code ≡ some spec
    → IsCode spec.code_shape.digit_length ds
    → 1 ≤ length ds
unfolding service_otp_spec HasLength
code_nonempty code spec ds e i = omega (
  arith,
  i.0,
  subst (Holds HasLength) e
      (find_spec-Holds HasLength code service_otp_registry registry-HaveLength),
)

take_digits-append : (n : ℕ) (ds t : Text) → IsCode n ds → take_digits n (ds ++ t) ≡ some (ds, t)
unfolding take_digits
take_digits-append zero [] t i = refl
take_digits-append zero (d ∷ ds) t i = ground (arith, i.0)
take_digits-append (suc n) [] t i = ground (arith, i.0)
take_digits-append (suc n) (d ∷ ds) t (l, h) = elim (Bool-cases (is_digit d)) [
  | inl y ↦ rw (y, take_digits-append n ds t (omega (arith, l), ground (arith, y, h))) refl
  | inr y ↦ ground (arith, y, h)
]

includes-digits :
    (c : ℕ) (ds : Text) → is_digit c ≡ false → all is_digit ds ≡ true → includes (c ∷ []) ds ≡ false
unfolding includes
includes-digits c [] x h = refl
includes-digits c (d ∷ ds) x h = ground (arith, x, h, includes-digits c ds x)

in_chain-digits :
    (is_decimal : ℕ → Bool) (n : ℕ) (form : Option GroupedForm) (before ds after : Text)
    → IsJoinable n form
    → all is_digit ds ≡ true
    → in_chain is_decimal form before ds after ≡ false
unfolding in_chain IsJoinable
in_chain-digits is_decimal n none before ds after j h = refl
in_chain-digits is_decimal n (some g) before ds after (c, x, p, q) h =
    rw (p, includes-digits c ds x h) refl

value_of-digits :
    (n : ℕ) (form : Option GroupedForm) (ds : Text)
    → IsJoinable n form
    → all is_digit ds ≡ true
    → value_of form ds ≡ ds
unfolding IsJoinable
value_of-digits n none ds j h = refl
value_of-digits n (some g) ds (c, x, p, q) h = rw p (dropped_digits c x ds h)

module _ (is_decimal : ℕ → Bool) (spec : ServiceOtpSpec) (needs : NeedsDigit spec) where
  abbrev scan : ℕ → Text → Text → List (Text × Text)
  scan = candidates_from is_decimal spec.code_shape

  scan-append :
      (p before s : Text)
      → HasNoDigit p
      → scan zero before (p ++ s) ≡ scan zero (reverse_onto p before) s
  unfolding candidates_from NeedsDigit
  scan-append [] before s h = refl
  scan-append (c ∷ p) before s h = elim (Bool-cases (is_digit c)) [
    | inl y ↦ ground (arith, y, h)
    | inr y ↦ rw (needs c (p ++ s) y) (scan-append p (c ∷ before) s (ground (arith, y, h)))
  ]

  scan_none : (s before : Text) → HasNoDigit s → scan zero before s ≡ []
  unfolding candidates_from NeedsDigit
  scan_none [] before h = refl
  scan_none (c ∷ s) before h = elim (Bool-cases (is_digit c)) [
    | inl y ↦ ground (arith, y, h)
    | inr y ↦ rw (needs c s y) (scan_none s (c ∷ before) (ground (arith, y, h)))
  ]

  scan_skip :
      (ds before s : Text)
      → scan (length ds) before (ds ++ s) ≡ scan zero (reverse_onto ds before) s
  unfolding candidates_from
  scan_skip [] before s = refl
  scan_skip (d ∷ ds) before s = scan_skip ds (d ∷ before) s

  code_intact :
      (before ds after : Text)
      → HasJoinable spec
      → all is_digit ds ≡ true
      → head_is is_decimal before ≡ false
      → head_is is_decimal after ≡ false
      → is_intact is_decimal spec.code_shape before ds after ≡ true
  unfolding is_intact HasJoinable
  code_intact before ds after j h b a =
      rw
        (
          b,
          a,
          in_chain-digits is_decimal spec.code_shape.digit_length spec.code_shape.grouped_form
              before ds after j h,
        )
        refl

  -- The code alone, between texts without a digit.
  scan_code :
      (p ds after : Text)
      → HasNoDigit p
      → IsCode spec.code_shape.digit_length ds
      → 1 ≤ length ds
      → HasNoDigit after
      → head_is is_decimal (reverse_onto p []) ≡ false
      → head_is is_decimal after ≡ false
      → HasJoinable spec
      → scan zero [] (p ++ (ds ++ after)) ≡ (ds, reverse_onto p []) ∷ []
  unfolding candidates_from match_candidate HasJoinable
  scan_code p [] after h i n k b a j = ground arith
  scan_code p (d ∷ ds) after h i n k b a j =
      scan-append p [] (d ∷ ds ++ after) h
      ∙ rw
          (
            take_digits-append spec.code_shape.digit_length (d ∷ ds) after i,
            code_intact (reverse_onto p []) (d ∷ ds) after j i.1 b a,
            value_of-digits spec.code_shape.digit_length spec.code_shape.grouped_form (d ∷ ds) j
                i.1,
            scan_skip ds (d ∷ reverse_onto p []) after,
            scan_none after (reverse_onto ds (d ∷ reverse_onto p [])) k,
          )
          refl

choose_lone :
    (u : Unicode) (ds before : Text)
    → is_direct_decoy_label u.is_word_folded (last_units 24 before) ≡ false
    → choose_candidate u ((ds, before) ∷ []) ≡ matched ds
unfolding choose_candidate
choose_lone u ds before h = rw h refl

-- In a text with a keyword whose only ASCII digits are one code of the service, that code is delivered,
-- as long as no decimal digit of another script borders it, no label of a date or a phone stands before
-- it, and the sender names no other service.
pub lone_code_delivered :
    (u : Unicode) (code : Text) (rule : ServiceOtpRule) (spec : ServiceOtpSpec) (p ds after : Text)
    → service_otp_spec code ≡ some spec
    → is_foreign u code rule ≡ false
    → has_keyword u.lower u.is_word (p ++ (ds ++ after)) (or_default rule.keywords spec.keywords)
      ≡ true
    → IsCode spec.code_shape.digit_length ds
    → HasNoDigit p
    → HasNoDigit after
    → head_is u.is_decimal (reverse_onto p []) ≡ false
    → head_is u.is_decimal after ≡ false
    → is_direct_decoy_label u.is_word_folded (last_units 24 (reverse_onto p [])) ≡ false
    → parse_service_otp u code (p ++ (ds ++ after)) rule ≡ matched ds
unfolding parse_service_otp parse_with_spec intact_code_candidates service_otp_spec
lone_code_delivered u code rule spec p ds after k f w i x y b a l =
    rw
      (
        k,
        f,
        w,
        scan_code u.is_decimal spec (service_otp_spec-NeedsDigit code spec k) p ds after x i
            (code_nonempty code spec ds k i) y b a (service_otp_spec-HasJoinable code spec k),
      )
      (choose_lone u ds (reverse_onto p []) l)
