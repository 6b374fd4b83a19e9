-- ===== src/Sms/Ingestion.antt =====
-- The ingestion of one message: src/application/sms/sms-ingestion-service.ts on the rows of
-- src/infrastructure/database/partner-sms-matching-gateway.ts and partner-sms-gateway.ts. A run reads the
-- rows of `seen` and writes on those of `store`, so that concurrent runs can be stated; an error rolls
-- everything back. The newest row stands first. The price snapshots of the orders, the devices and the
-- configuration, which no run writes, are part of the platform, as are the cipher and the Unicode tables.
pub mod Unpaid
pub mod Found
pub mod Delivers
pub mod Creates
pub mod Effects
pub mod Stages
pub mod Runs
pub mod Settles
use kirimkode_partner.Base.{Bool, true, false, Option, none, some, [], ◌∷◌, Result, ok, err}
use kirimkode_partner.Sms.{
  DuplicateKey, message_id, idempotency_key, SmsDevice, SmsIngressDecision, decide_sms_ingress,
  first, SmsOrderMatch, match_sms_to_active_order,
}
use kirimkode_partner.Sms.Otp.{Unicode, parse_service_otp}
use kirimkode_partner.Sms.Rows.{
  SmsMatchStatus, SmsRow, NumberRow, SmsStore, Platform, IngestSmsInput, IngestError,
  SmsIngestionResult, ownership_mismatch, no_active_order,
}
use kirimkode_partner.Sms.Gateway.{
  find_number, find_device, violated_key, load_active_order_candidates, mark_sms_audited,
}
use kirimkode_partner.Sms.Delivery.{audit, carry_parse}

-- By the match.
unfoldable pub carry_match :
    Platform
    → IngestSmsInput
    → SmsStore
    → SmsOrderMatch
    → SmsStore
    → Result IngestError (SmsIngestionResult × SmsStore)
carry_match platform i seen SmsOrderMatch.unmatched store = audit i no_active_order store
carry_match platform i seen (SmsOrderMatch.ambiguous ids) store = ok (
  SmsIngestionResult.ambiguous ids,
  record store { sms = mark_sms_audited i.sms_id SmsMatchStatus.ambiguous store.sms },
)
carry_match platform i seen (SmsOrderMatch.matched order_id service_code mode) store =
    carry_parse platform i seen order_id mode
      (parse_service_otp platform.unicode service_code i.body
        (record { keywords = none; sender = some i.sender; foreign_sender_markers = none }))
      store

-- By what the insertion of the message came to.
unfoldable pub carry_insert :
    Platform
    → IngestSmsInput
    → SmsStore
    → SmsRow
    → Option DuplicateKey
    → SmsStore
    → Result IngestError (SmsIngestionResult × SmsStore)
carry_insert platform i seen row (some key) store = ok (SmsIngestionResult.duplicate key, store)
carry_insert platform i seen row none store =
    carry_match platform i seen
      (match_sms_to_active_order i.number_id i.received_at_server
        (load_active_order_candidates platform i.principal.partner_id i.number_id seen))
      (record store { sms = row ∷ store.sms })

abbrev pub sms_row : Platform → IngestSmsInput → SmsRow
sms_row platform i = record {
  id = i.sms_id;
  device_id = i.principal.device_id;
  number_id = i.number_id;
  message_id = i.message_id;
  idempotency_key = i.idempotency_key;
  content = platform.encrypt_inbound i.sender i.body;
  match_status = SmsMatchStatus.pending;
  matched_order_id = none;
  received_at_server = i.received_at_server;
  extracted_at = none;
}

abbrev is_accept : SmsIngressDecision → Bool
is_accept SmsIngressDecision.accept = true
is_accept _ = false

-- By the decision of the ingress policy.
unfoldable pub ingest_if :
    Platform
    → IngestSmsInput
    → SmsStore
    → Bool
    → SmsStore
    → Result IngestError (SmsIngestionResult × SmsStore)
ingest_if platform i seen false store = err ownership_mismatch
ingest_if platform i seen true store =
    carry_insert platform i seen (sms_row platform i) (violated_key (sms_row platform i) store.sms)
      store

-- By the number and the device that were loaded.
unfoldable pub ingest_owned :
    Platform
    → IngestSmsInput
    → SmsStore
    → Option NumberRow
    → Option SmsDevice
    → SmsStore
    → Result IngestError (SmsIngestionResult × SmsStore)
ingest_owned platform i seen none device store = err ownership_mismatch
ingest_owned platform i seen (some number) none store = err ownership_mismatch
ingest_owned platform i seen (some number) (some device) store =
    ingest_if platform i seen
      (is_accept (
        decide_sms_ingress (record {
          principal = i.principal;
          device = device;
          number = record {
            id = number.id;
            partner_id = number.partner_id;
            device_id = number.device_id;
          };
          message_id = i.message_id;
          idempotency_key = i.idempotency_key;
          prior_messages = [];
        })))
      store

unfoldable pub run_ingest :
    Platform
    → IngestSmsInput
    → SmsStore
    → SmsStore
    → Result IngestError (SmsIngestionResult × SmsStore)
run_ingest platform i seen store =
    ingest_owned platform i seen
      (find_number i.principal.partner_id i.number_id i.principal.device_id seen.numbers)
      (find_device i.principal.partner_id i.principal.device_id platform.devices) store
