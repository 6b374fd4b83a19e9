-- ===== src/Sms/Otp/Matches.antt =====
-- What the parser finds: a code that stands alone in the text.
use mathlib.Core.Path.{subst}
use kirimkode_partner.Base.{
  ℕ, zero, suc, ◌≡◌, refl, ap, ◌∙◌, Bool, true, false, Option, none, some, List, [], ◌∷◌, ◌++◌, inl,
  inr, arith, All, Bool-cases, Option-cases,
}
use kirimkode_partner.Text.{Text, eq_text}
use kirimkode_partner.Earning.{or_default}
use kirimkode_partner.Sms.Registry.{
  OtpCodeShape, ServiceOtpSpec, service_otp_registry, find_spec, service_otp_spec,
}
use kirimkode_partner.Sms.Candidates.{
  rest_of, with_match, match_candidate, value_of, candidates_from, is_intact, reverse_onto,
  intact_code_candidates,
}
use kirimkode_partner.Sms.Otp.{
  choose_candidate, is_foreign, has_keyword, is_direct_decoy_label, last_units, parse_with_spec,
  parse_service_otp, matched, Unicode, ServiceOtpRule,
}
use kirimkode_partner.Sms.Otp.Digits.{IsCode, IsJoinable, Fits, match_candidate-Fits}

module _ (is_decimal : ℕ → Bool) (shape : OtpCodeShape) (body : Text) where
  -- A candidate with the place where it stands.
  pub record Stands (found : Text × Text) : Type 0 where
    pub raw : Text
    pub after : Text
    pub place : body ≡ reverse_onto found.1 (raw ++ after)
    pub value : found.0 ≡ value_of shape.grouped_form raw
    pub intact : is_intact is_decimal shape found.1 raw after ≡ true
    pub code : IsCode shape.digit_length found.0

  with_match-Stand :
      (before s : Text) (found : Option (Text × Text)) (rest : List (Text × Text))
      → body ≡ reverse_onto before s
      → Fits shape.digit_length shape.grouped_form s found
      → All Stands rest
      → All Stands (with_match is_decimal shape before found rest)
  with_match-Stand before s none rest e f a = a
  with_match-Stand before s (some (raw, after)) rest e (p, i) a =
      elim (Bool-cases (is_intact is_decimal shape before raw after)) [
        | inl h ↦ rw h (
          record {
            raw = raw;
            after = after;
            place = e ∙ ap (reverse_onto before) p;
            value = refl;
            intact = h;
            code = i;
          },
          a,
        )
        | inr h ↦ rw h a
      ]

  candidates-Stand :
      IsJoinable shape.digit_length shape.grouped_form
      → (skip : ℕ) (before s : Text) → body ≡ reverse_onto before s
      → All Stands (candidates_from is_decimal shape skip before s)
  unfolding candidates_from
  candidates-Stand j skip before [] e = tt
  candidates-Stand j (suc k) before (c ∷ s) e = candidates-Stand j k (c ∷ before) s e
  candidates-Stand j zero before (c ∷ s) e =
      with_match-Stand before (c ∷ s) (match_candidate shape (c ∷ s))
        (candidates_from is_decimal shape (rest_of (match_candidate shape (c ∷ s))) (c ∷ before) s)
        e (match_candidate-Fits shape (c ∷ s) j)
        (candidates-Stand j (rest_of (match_candidate shape (c ∷ s))) (c ∷ before) s e)

intact-Stand :
    (is_decimal : ℕ → Bool) (shape : OtpCodeShape) (body : Text)
    → IsJoinable shape.digit_length shape.grouped_form
    → All (Stands is_decimal shape body) (intact_code_candidates is_decimal body shape)
unfolding intact_code_candidates
intact-Stand is_decimal shape body j = candidates-Stand is_decimal shape body j zero [] body refl

-- A property of what was looked up, if anything was.
abbrev pub Holds : (ServiceOtpSpec → Type 0) → Option ServiceOtpSpec → Type 0
Holds P none = Unit
Holds P (some spec) = P spec

pub find_spec-Holds :
    (P : ServiceOtpSpec → Type 0) (code : Text) (entries : List (Text × ServiceOtpSpec))
    → All (λ e. P e.1) entries
    → Holds P (find_spec code entries)
find_spec-Holds P code [] a = tt
find_spec-Holds P code ((c, spec) ∷ entries) a = elim (Bool-cases (eq_text c code)) [
  | inl h ↦ rw h a.0
  | inr h ↦ rw h (find_spec-Holds P code entries a.1)
]

unfoldable pub HasJoinable : ServiceOtpSpec → Type 0
HasJoinable spec = IsJoinable spec.code_shape.digit_length spec.code_shape.grouped_form

registry-HasJoinable : All (λ e. HasJoinable e.1) service_otp_registry
unfolding HasJoinable IsJoinable
registry-HasJoinable = ((45, refl, refl, refl), (tt, (tt, (tt, tt))))

pub service_otp_spec-HasJoinable :
    (code : Text) (spec : ServiceOtpSpec) → service_otp_spec code ≡ some spec → HasJoinable spec
unfolding service_otp_spec
service_otp_spec-HasJoinable code spec e =
    subst (Holds HasJoinable) e
      (find_spec-Holds HasJoinable code service_otp_registry registry-HasJoinable)

-- The one candidate that was delivered.
choose_candidate_one :
    (u : Unicode) (found : List (Text × Text)) {otp : Text}
    → choose_candidate u found ≡ matched otp
    → (before : Text) × (found ≡ (otp, before) ∷ [])
      × (is_direct_decoy_label u.is_word_folded (last_units 24 before) ≡ false)
unfolding choose_candidate
choose_candidate_one u [] e = cc
choose_candidate_one u ((value, before) ∷ []) e =
    elim (Bool-cases (is_direct_decoy_label u.is_word_folded (last_units 24 before))) [
      | inl h ↦ ground (arith, h, e)
      | inr h ↦ (before, ground (arith, h, e), h)
    ]
choose_candidate_one u (c ∷ d ∷ cs) e = cc

-- All that stands behind a code that is delivered.
pub record IsDelivered (u : Unicode) (code body : Text) (rule : ServiceOtpRule) (otp : Text)
    : Type 0 where
  pub spec : ServiceOtpSpec
  pub supported : service_otp_spec code ≡ some spec
  pub own_sender : is_foreign u code rule ≡ false
  pub worded : has_keyword u.lower u.is_word body (or_default rule.keywords spec.keywords) ≡ true
  pub before : Text
  pub only : intact_code_candidates u.is_decimal body spec.code_shape ≡ (otp, before) ∷ []
  pub unlabelled : is_direct_decoy_label u.is_word_folded (last_units 24 before) ≡ false
  pub stands : Stands u.is_decimal spec.code_shape body (otp, before)

parse_with_spec-IsDelivered :
    (u : Unicode) (code body : Text) (rule : ServiceOtpRule) (spec : ServiceOtpSpec) (otp : Text)
    → service_otp_spec code ≡ some spec
    → parse_with_spec u code body rule spec ≡ matched otp
    → IsDelivered u code body rule otp
unfolding parse_with_spec HasJoinable
parse_with_spec-IsDelivered u code body rule spec otp k e =
    elim (Bool-cases (is_foreign u code rule)) [
      | inl h ↦ ground (arith, h, e)
      | inr h ↦
          elim (Bool-cases
            (has_keyword u.lower u.is_word body (or_default rule.keywords spec.keywords))) [
              | inl w ↦
                  deliver
                    (choose_candidate_one u
                      (intact_code_candidates u.is_decimal body spec.code_shape)
                      (ground (arith, h, w, e)))
                    h w
              | inr w ↦ ground (arith, h, w, e)
            ]
    ]
  where
    deliver :
        ((before : Text) × (intact_code_candidates u.is_decimal body spec.code_shape
            ≡ (otp, before) ∷ [])
          × (is_direct_decoy_label u.is_word_folded (last_units 24 before) ≡ false))
        → is_foreign u code rule ≡ false
        → has_keyword u.lower u.is_word body (or_default rule.keywords spec.keywords) ≡ true
        → IsDelivered u code body rule otp
    deliver (before, found, unlabelled) h w = record {
      spec = spec;
      supported = k;
      own_sender = h;
      worded = w;
      before = before;
      only = found;
      unlabelled = unlabelled;
      stands =
          (subst (All (Stands u.is_decimal spec.code_shape body)) found (
            intact-Stand u.is_decimal spec.code_shape body
              (service_otp_spec-HasJoinable code spec k))).0;
    }

-- A password is delivered only for a supported service, from a sender that names no other one, out of a
-- text with a keyword in which exactly one candidate is intact and stands behind no label of a date or
-- a phone; and it is the digits of that candidate, as many ASCII digits as the service's codes have.
pub matched-IsDelivered :
    (u : Unicode) (code body : Text) (rule : ServiceOtpRule) (otp : Text)
    → parse_service_otp u code body rule ≡ matched otp
    → IsDelivered u code body rule otp
unfolding parse_service_otp
matched-IsDelivered u code body rule otp e = elim (Option-cases (service_otp_spec code)) [
  | inl h ↦ ground (arith, h, e)
  | inr (spec, h) ↦ parse_with_spec-IsDelivered u code body rule spec otp h (ground (arith, h, e))
]
