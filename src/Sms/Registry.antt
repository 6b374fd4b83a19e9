-- ===== src/Sms/Registry.antt =====
-- The services of src/domain/sms-matching-otp.ts, and the senders that are foreign to each. `lower` stands for
-- `toLocaleLowerCase("en-US")`.
use kirimkode_partner.Base.{
  ℕ, Bool, true, false, not, ◌&&◌, ◌||◌, Option, none, some, List, [], ◌∷◌, ◌++◌, any, keep,
  if◌then◌else◌,
}
use kirimkode_partner.Text.{Text, codes, eq_text}
use kirimkode_partner.Catalog.Phone.{starts_with}

pub record GroupedForm : Type 0 where
  pub group_sizes : List ℕ
  pub separator : Text

pub record OtpCodeShape : Type 0 where
  pub digit_length : ℕ
  pub grouped_form : Option GroupedForm

pub record ServiceOtpSpec : Type 0 where
  pub keywords : List Text
  pub sender_brand_markers : List Text
  pub code_shape : OtpCodeShape

abbrev pub contiguous_only : ℕ → OtpCodeShape
contiguous_only n = record { digit_length = n; grouped_form = none }

abbrev pub wa_spec : ServiceOtpSpec
wa_spec = record {
  keywords = codes "WhatsApp" ∷ [];
  sender_brand_markers = codes "whatsapp" ∷ [];
  code_shape = record {
    digit_length = 6;
    grouped_form = some (record { group_sizes = 3 ∷ 3 ∷ []; separator = codes "-" });
  };
}

abbrev pub brand_spec : Text → Text → ℕ → ServiceOtpSpec
brand_spec keyword marker n = record {
  keywords = keyword ∷ [];
  sender_brand_markers = marker ∷ [];
  code_shape = contiguous_only n;
}

-- `SERVICE_OTP_REGISTRY`
abbrev pub service_otp_registry : List (Text × ServiceOtpSpec)
service_otp_registry =
    (codes "wa", wa_spec)
    ∷ (codes "tg", brand_spec (codes "Telegram") (codes "telegram") 5)
    ∷ (codes "ig", brand_spec (codes "Instagram") (codes "instagram") 6)
    ∷ (codes "go", brand_spec (codes "Google") (codes "google") 6)
    ∷ []

abbrev pub third_party_sender_markers : List Text
third_party_sender_markers =
    codes "facebook"
    ∷ codes "tiktok"
    ∷ codes "tokopedia"
    ∷ codes "shopee"
    ∷ codes "lazada"
    ∷ codes "gojek"
    ∷ codes "grab"
    ∷ codes "dana"
    ∷ codes "ovo"
    ∷ codes "linkaja"
    ∷ codes "bca"
    ∷ codes "mandiri"
    ∷ codes "bni"
    ∷ codes "bri"
    ∷ []

abbrev pub find_spec : Text → List (Text × ServiceOtpSpec) → Option ServiceOtpSpec
find_spec code [] = none
find_spec code ((c, spec) ∷ entries) =
    let rest = find_spec code entries in if eq_text c code then some spec else rest

unfoldable pub service_otp_spec : Text → Option ServiceOtpSpec
service_otp_spec code = find_spec code service_otp_registry

abbrev pub own_markers : Option ServiceOtpSpec → List Text
own_markers none = []
own_markers (some spec) = spec.sender_brand_markers

-- `otherBrandMarkers`
unfoldable pub other_brand_markers : Text → List (Text × ServiceOtpSpec) → List Text
other_brand_markers code [] = []
other_brand_markers code ((c, spec) ∷ entries) =
    let rest = other_brand_markers code entries in
    if eq_text c code then rest else spec.sender_brand_markers ++ rest

-- `[...new Set(markers)]`, given those seen before.
unfoldable pub distinct_from : List Text → List Text → List Text
distinct_from seen [] = []
distinct_from seen (m ∷ ms) =
    let rest = distinct_from (m ∷ seen) ms in if any (eq_text m) seen then rest else m ∷ rest

unfoldable pub foreign_sender_markers_for : Text → List Text
foreign_sender_markers_for code = distinct_from [] (
    keep (λ m. not (any (eq_text m) (own_markers (service_otp_spec code))))
      (other_brand_markers code service_otp_registry ++ third_party_sender_markers))

-- `s.includes(part)`
unfoldable pub includes : Text → Text → Bool
includes part [] = starts_with part []
includes part (c ∷ s) = starts_with part (c ∷ s) || includes part s

abbrev pub is_nonempty : Text → Bool
is_nonempty [] = false
is_nonempty (c ∷ s) = true

unfoldable pub is_foreign_service_sender : (Text → Text) → Text → List Text → Bool
is_foreign_service_sender lower sender markers =
    is_nonempty sender && any (λ m. is_nonempty m && includes m (lower sender)) markers
