-- ===== src/Sms.antt =====
-- Inbound messages of src/domain/sms-matching-otp.ts: who may send one, what is a duplicate, and which
-- order a message belongs to. The parser of the one-time password is in the child module Otp.
pub mod Delivery
pub mod Candidates
pub mod Registry
pub mod Gateway
pub mod Rows
pub mod Otp
pub mod Match
pub mod Ingestion
use kirimkode_partner.Base.{
  Bool, not, ◌&&◌, ◌||◌, Option, List, [], ◌∷◌, map, any, keep, if◌then◌else◌,
}
use kirimkode_partner.Number.{Number, is_finite, le_number}
use kirimkode_partner.Text.{Text, codes, eq_text}
use kirimkode_partner.Order.Listening.{is_null}
use kirimkode_partner.Catalog.Inventory.{lt_text, sort_by}

pub data DuplicateKey : Type 0 where
  message_id idempotency_key : DuplicateKey

pub data SmsIngressDecision : Type 0 where
  accept : SmsIngressDecision
  duplicate : DuplicateKey → SmsIngressDecision
  -- its reason is always `ownership_mismatch`
  reject : SmsIngressDecision

pub record SmsPrincipal : Type 0 where
  pub partner_id : Text
  pub device_id : Text

pub record SmsDevice : Type 0 where
  pub id : Text
  pub partner_id : Text

pub record SmsNumber : Type 0 where
  pub id : Text
  pub partner_id : Text
  pub device_id : Text

pub record PriorMessage : Type 0 where
  pub device_id : Text
  pub message_id : Text
  pub idempotency_key : Text

pub record SmsIngressPolicyInput : Type 0 where
  pub principal : SmsPrincipal
  pub device : SmsDevice
  pub number : SmsNumber
  pub message_id : Text
  pub idempotency_key : Text
  pub prior_messages : List PriorMessage

-- `ownsDevice && ownsNumber`
unfoldable pub owns_both : SmsIngressPolicyInput → Bool
owns_both i =
    eq_text i.principal.device_id i.device.id
    && eq_text i.principal.partner_id i.device.partner_id
    && eq_text i.number.device_id i.device.id
    && eq_text i.number.partner_id i.device.partner_id

unfoldable pub decide_sms_ingress : SmsIngressPolicyInput → SmsIngressDecision
decide_sms_ingress i =
    let same_device = keep (λ m. eq_text m.device_id i.device.id) i.prior_messages in
    if not (owns_both i)
    then reject
    else if any (λ m. eq_text m.message_id i.message_id) same_device
    then duplicate message_id
    else if any (λ m. eq_text m.idempotency_key i.idempotency_key) same_device
    then duplicate idempotency_key
    else accept

pub record SmsOrderCandidate : Type 0 where
  pub id : Text
  pub number_id : Text
  pub service_code : Text
  pub status : Text
  pub window_starts_at_ms : Number
  pub window_ends_at_ms : Number
  pub completed_at_ms : Option Number

pub data SmsMatchMode : Type 0 where
  first repeat : SmsMatchMode

-- `unmatched` always has no candidates.
pub data SmsOrderMatch : Type 0 where
  matched : Text → Text → SmsMatchMode → SmsOrderMatch
  unmatched : SmsOrderMatch
  ambiguous : List Text → SmsOrderMatch

abbrev pub awaits_code : SmsOrderCandidate → Bool
awaits_code order =
    eq_text order.status (codes "waiting_sms")
    || (eq_text order.status (codes "success") && is_null order.completed_at_ms)

unfoldable pub is_eligible : Text → Number → SmsOrderCandidate → Bool
is_eligible number_id received_at order =
    eq_text order.number_id number_id
    && awaits_code order
    && is_finite received_at
    && is_finite order.window_starts_at_ms
    && is_finite order.window_ends_at_ms
    && le_number order.window_starts_at_ms order.window_ends_at_ms
    && le_number order.window_starts_at_ms received_at
    && le_number received_at order.window_ends_at_ms

abbrev pub mode_of : SmsOrderCandidate → SmsMatchMode
mode_of order = if eq_text order.status (codes "success") then repeat else first

-- The match, by the eligible orders.
unfoldable pub match_among : List SmsOrderCandidate → SmsOrderMatch
match_among [] = unmatched
match_among (order ∷ []) = matched order.id order.service_code (mode_of order)
match_among (o ∷ p ∷ os) = ambiguous (sort_by lt_text (map (λ x. x.id) (o ∷ p ∷ os)))

unfoldable pub match_sms_to_active_order : Text → Number → List SmsOrderCandidate → SmsOrderMatch
match_sms_to_active_order number_id received_at orders =
    match_among (keep (is_eligible number_id received_at) orders)
