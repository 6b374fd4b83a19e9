-- ===== src/Sms/Otp.antt =====
-- The parser of one-time passwords in src/domain/sms-matching-otp.ts. The Unicode tables are parameters:
-- `lower` for `toLocaleLowerCase("en-US")`, `is_word` and `is_decimal` for the classes `[\p{L}\p{N}_]` and
-- `\p{Nd}`, and `is_word_folded` for the first class under the flag `i`. The source indexes a string by
-- code units, and half of a surrogate pair is in no class.
pub mod Digits
pub mod Matches
pub mod Lone
use kirimkode_partner.Base.{
  ℕ, zero, suc, ◌+◌, ◌-◌, Bool, true, false, not, ◌&&◌, ◌||◌, Option, none, some, List, [], ◌∷◌,
  leb, ◌==◌, any, length, if◌then◌else◌,
}
use kirimkode_partner.Text.{Text, codes, trim_start, trim}
use kirimkode_partner.Earning.{or_default}
use kirimkode_partner.Catalog.Phone.{starts_with, slice}
use kirimkode_partner.Sms.Registry.{
  ServiceOtpSpec, service_otp_spec, foreign_sender_markers_for, is_nonempty,
  is_foreign_service_sender,
}
use kirimkode_partner.Sms.Candidates.{head_is, reverse_onto, intact_code_candidates}

-- The keyword at some place of the text that no word character borders, where `before` is what stands
-- in front of the text, backwards.
unfoldable pub has_whole_word : (ℕ → Bool) → Text → Text → Text → Bool
has_whole_word is_word keyword before [] = false
has_whole_word is_word keyword before (c ∷ s) =
    (starts_with keyword (c ∷ s)
      && not (head_is is_word before)
      && not (head_is is_word (slice (length keyword) (c ∷ s))))
    || has_whole_word is_word keyword (c ∷ before) s

unfoldable pub has_keyword : (Text → Text) → (ℕ → Bool) → Text → List Text → Bool
has_keyword lower is_word body keywords =
    any
      (λ raw.
        is_nonempty (lower (trim raw)) && has_whole_word is_word (lower (trim raw)) [] (lower body))
      keywords

-- The last code units of a text that stands backwards, without half of a pair.
unfoldable pub last_units : ℕ → Text → Text
last_units n [] = []
last_units zero (c ∷ s) = []
last_units (suc zero) (c ∷ s) = if leb 0x10000 c then [] else c ∷ []
last_units (suc (suc n)) (c ∷ s) =
    let one = last_units (suc n) s in
    let two = last_units n s in c ∷ (if leb 0x10000 c then two else one)

-- A letter of the text in lower case, for the labels, which have ASCII letters without other cases.
abbrev pub lower_ascii : ℕ → ℕ
lower_ascii c = if leb 65 c && leb c 90 then c + 32 else c

-- The text begins with the label in any case, and no word character follows; both stand backwards.
unfoldable pub ends_with_label : (ℕ → Bool) → Text → Text → Bool
ends_with_label is_word_folded [] [] = true
ends_with_label is_word_folded [] (c ∷ s) = not (is_word_folded c)
ends_with_label is_word_folded (l ∷ ls) [] = false
ends_with_label is_word_folded (l ∷ ls) (c ∷ s) =
    (l == lower_ascii c) && ends_with_label is_word_folded ls s

-- `[:#-]?`
abbrev pub skip_mark : Text → Text
skip_mark [] = []
skip_mark (c ∷ s) = if (c == 58) || (c == 35) || (c == 45) then s else c ∷ s

abbrev pub decoy_labels : List Text
decoy_labels =
    codes "date"
    ∷ codes "tanggal"
    ∷ codes "phone"
    ∷ codes "tel"
    ∷ codes "nomor"
    ∷ codes "telepon"
    ∷ []

-- `directDecoyLabel.test`, on the text backwards.
unfoldable pub is_direct_decoy_label : (ℕ → Bool) → Text → Bool
is_direct_decoy_label is_word_folded prefix =
    any
      (λ label.
        ends_with_label is_word_folded (reverse_onto label [])
          (trim_start (skip_mark (trim_start prefix))))
      decoy_labels

pub data OtpRejectReason : Type 0 where
  unsupported_service foreign_sender missing_keyword no_candidate ambiguous_candidates
        decoy_candidate :
      OtpRejectReason

pub data OtpParseResult : Type 0 where
  matched : Text → OtpParseResult
  rejected : OtpRejectReason → OtpParseResult

pub record ServiceOtpRule : Type 0 where
  pub keywords : Option (List Text)
  pub sender : Option Text
  pub foreign_sender_markers : Option (List Text)

-- The Unicode tables of the JavaScript engine.
pub record Unicode : Type 0 where
  pub lower : Text → Text
  pub is_word : ℕ → Bool
  pub is_word_folded : ℕ → Bool
  pub is_decimal : ℕ → Bool

unfoldable pub is_foreign : Unicode → Text → ServiceOtpRule → Bool
is_foreign u code rule = elim rule.sender [
  | none ↦ false
  | some sender ↦
      is_foreign_service_sender u.lower sender
        (or_default rule.foreign_sender_markers (foreign_sender_markers_for code))
]

-- The end of the parse, by the candidates.
unfoldable pub choose_candidate : Unicode → List (Text × Text) → OtpParseResult
choose_candidate u [] = rejected no_candidate
choose_candidate u ((value, before) ∷ []) =
    if is_direct_decoy_label u.is_word_folded (last_units 24 before)
    then rejected decoy_candidate
    else matched value
choose_candidate u (c ∷ d ∷ cs) = rejected ambiguous_candidates

-- The parse for a service of the registry.
unfoldable pub parse_with_spec :
    Unicode → Text → Text → ServiceOtpRule → ServiceOtpSpec → OtpParseResult
parse_with_spec u code body rule spec =
    if is_foreign u code rule
    then rejected foreign_sender
    else if not (has_keyword u.lower u.is_word body (or_default rule.keywords spec.keywords))
    then rejected missing_keyword
    else choose_candidate u (intact_code_candidates u.is_decimal body spec.code_shape)

unfoldable pub parse_service_otp : Unicode → Text → Text → ServiceOtpRule → OtpParseResult
parse_service_otp u code body rule = elim (service_otp_spec code) [
  | none ↦ rejected unsupported_service
  | some spec ↦ parse_with_spec u code body rule spec
]
