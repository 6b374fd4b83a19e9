-- ===== src/Tests/Sms.antt =====
-- Inbound messages and one-time passwords at concrete inputs.
use kirimkode_partner.Base.{
  ℕ, ◌≡◌, ◌↔◌, true, [], ◌∷◌, ◌++◌, refl, Bool, ◌||◌, ◌&&◌, none, some, map, leb, ◌==◌,
}
use kirimkode_partner.Text.{Text, codes, trim, is_space, trim_start, trim_end}
use kirimkode_partner.Number.{num}
use kirimkode_partner.Order.Status.{OrderStatus}
use kirimkode_partner.Catalog.Inventory.{sort_by, insert_by, lt_units, units}
use kirimkode_partner.Sms.{
  SmsOrderCandidate, SmsOrderMatch, ambiguous, first, is_eligible, match_among,
  match_sms_to_active_order,
}
use kirimkode_partner.Sms.Match.{IsOnlyEligible, IsDue, match_iff, eligible_iff}
use kirimkode_partner.Sms.Otp.Matches.{IsDelivered, matched-IsDelivered}
use kirimkode_partner.Sms.Otp.Lone.{lone_code_delivered}
use kirimkode_partner.Catalog.Phone.{is_digit}
use kirimkode_partner.Sms.Otp.{
  OtpParseResult, matched, rejected, decoy_candidate, ambiguous_candidates, foreign_sender, Unicode,
  ServiceOtpRule, lower_ascii, parse_service_otp, parse_with_spec, is_foreign, has_keyword,
  has_whole_word, choose_candidate, ends_with_label, is_direct_decoy_label, last_units,
}
use kirimkode_partner.Sms.Registry.{
  brand_spec, service_otp_spec, is_foreign_service_sender, foreign_sender_markers_for,
  distinct_from, other_brand_markers, includes,
}
use kirimkode_partner.Sms.Candidates.{
  intact_code_candidates, candidates_from, match_candidate, take_digits, is_intact, drop_separators,
  in_chain, links_to_digit, take_grouped,
}

-- The tables on ASCII.
abbrev pub is_ascii_word : ℕ → Bool
is_ascii_word c = is_digit c || (leb 65 c && leb c 90) || (leb 97 c && leb c 122) || (c == 95)

abbrev pub ascii : Unicode
ascii = record {
  lower = map lower_ascii;
  is_word = is_ascii_word;
  is_word_folded = is_ascii_word;
  is_decimal = is_digit;
}

abbrev from_sender : Text → ServiceOtpRule
from_sender s = record { keywords = none; sender = some s; foreign_sender_markers = none }

abbrev ParsesTo : Text → Text → Text → OtpParseResult → Type 0
ParsesTo code sender body result = parse_service_otp ascii code body (from_sender sender) ≡ result

parsed_messages :
    ParsesTo
      (codes "wa")
      (codes "WhatsApp")
      (codes "Kode WhatsApp Business Anda: 718-891")
      (matched (codes "718891"))
    × ParsesTo
        (codes "wa")
        (codes "32665")
        (codes "WhatsApp 0812-345-678, code 123456.")
        (matched (codes "123456"))
    × ParsesTo (codes "go") (codes "32665") (codes "Google Date: 123456") (rejected decoy_candidate)
    × ParsesTo
        (codes "go")
        (codes "32665")
        (codes "Google update 123456")
        (matched (codes "123456"))
    × ParsesTo
        (codes "tg")
        (codes "My-WhatsApp")
        (codes "Telegram code 12345")
        (rejected foreign_sender)
    × ParsesTo
        (codes "tg")
        (codes "Telegram")
        (codes "Telegram code 12345 or 54321")
        (rejected ambiguous_candidates)
unfolding parse_service_otp service_otp_spec parse_with_spec is_foreign is_foreign_service_sender
    foreign_sender_markers_for distinct_from other_brand_markers includes has_keyword trim
    has_whole_word choose_candidate intact_code_candidates candidates_from match_candidate
    take_digits is_intact drop_separators ends_with_label in_chain is_direct_decoy_label last_units
    links_to_digit take_grouped is_space trim_start trim_end
parsed_messages = (refl, refl, refl, refl, refl, refl)

abbrev grouped_body : Text
grouped_body = codes "Your WhatsApp code: 123-456"

grouped_parse :
    parse_service_otp ascii (codes "wa") grouped_body (from_sender (codes "WhatsApp"))
    ≡ matched (codes "123456")
unfolding parse_service_otp service_otp_spec parse_with_spec is_foreign is_foreign_service_sender
    foreign_sender_markers_for distinct_from other_brand_markers includes has_keyword trim
    has_whole_word choose_candidate intact_code_candidates candidates_from match_candidate
    take_digits is_intact drop_separators ends_with_label in_chain is_direct_decoy_label last_units
    links_to_digit take_grouped is_space trim_start trim_end
grouped_parse = refl

matched-IsDelivered_example :
    IsDelivered ascii (codes "wa") grouped_body (from_sender (codes "WhatsApp")) (codes "123456")
matched-IsDelivered_example =
    matched-IsDelivered ascii (codes "wa") grouped_body (from_sender (codes "WhatsApp"))
      (codes "123456") grouped_parse

lone_code_delivered_example :
    parse_service_otp ascii
      (codes "go")
      (codes "G-" ++ (codes "123456" ++ codes " is your Google code"))
      (from_sender (codes "32665"))
    ≡ matched (codes "123456")
unfolding parse_service_otp service_otp_spec parse_with_spec is_foreign is_foreign_service_sender
    foreign_sender_markers_for distinct_from other_brand_markers includes has_keyword trim
    has_whole_word choose_candidate intact_code_candidates candidates_from match_candidate
    take_digits is_intact drop_separators ends_with_label in_chain is_direct_decoy_label last_units
    links_to_digit take_grouped is_space trim_start trim_end
lone_code_delivered_example =
    lone_code_delivered ascii (codes "go") (from_sender (codes "32665"))
      (brand_spec (codes "Google") (codes "google") 6) (codes "G-") (codes "123456")
      (codes " is your Google code") refl refl refl (refl, refl) refl refl refl refl refl

abbrev candidate : Text → SmsOrderCandidate
candidate id = record {
  id = id;
  number_id = codes "n1";
  service_code = codes "wa";
  status = codes "waiting_sms";
  window_starts_at_ms = num 1000;
  window_ends_at_ms = num 9000;
  completed_at_ms = none;
}

match_iff_example :
    (match_sms_to_active_order (codes "n1") (num 2000) (candidate (codes "a") ∷ [])
      ≡ SmsOrderMatch.matched (codes "a") (codes "wa") first)
    ↔ IsOnlyEligible
        (codes "n1")
        (num 2000)
        (candidate (codes "a") ∷ [])
        (codes "a")
        (codes "wa")
        first
match_iff_example =
    match_iff (codes "n1") (num 2000) (candidate (codes "a") ∷ []) (codes "a") (codes "wa") first

eligible_iff_example :
    (is_eligible (codes "n1") (num 2000) (candidate (codes "a")) ≡ true)
    ↔ IsDue (codes "n1") (num 2000) (candidate (codes "a")) OrderStatus.waiting_sms
eligible_iff_example =
    eligible_iff (codes "n1") (num 2000) (candidate (codes "a")) OrderStatus.waiting_sms refl refl

several_orders :
    match_sms_to_active_order
      (codes "n1")
      (num 2000)
      (candidate (codes "b") ∷ candidate (codes "a") ∷ [])
    ≡ ambiguous (codes "a" ∷ codes "b" ∷ [])
unfolding match_sms_to_active_order match_among is_eligible sort_by insert_by lt_units units
several_orders = refl
