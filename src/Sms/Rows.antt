-- ===== src/Sms/Rows.antt =====
-- The rows and results of the ingestion: the tables of src/infrastructure/database/partner-sms-matching-gateway.ts
-- that it reads and writes, and the types of src/application/sms/sms-ingestion-service.ts. The price snapshots
-- of the orders, the devices and the configuration, which no run writes, are part of the platform, as are the
-- cipher and the Unicode tables.
use kirimkode_partner.Base.{ℕ, Option, List}
use kirimkode_partner.Number.{Number}
use kirimkode_partner.Text.{Text}
use kirimkode_partner.Ledger.{DomainError, LedgerTransaction}
use kirimkode_partner.Earning.{EarningState}
use kirimkode_partner.Order.Status.{OrderStatus, NumberStatus}
use kirimkode_partner.Sms.{DuplicateKey, SmsPrincipal, SmsDevice, SmsMatchMode}
use kirimkode_partner.Sms.Otp.{Unicode, OtpRejectReason}

pub data SmsMatchStatus : Type 0 where
  pending matched unmatched ambiguous : SmsMatchStatus

pub record SmsRow : Type 0 where
  pub id : Text
  pub device_id : Text
  pub number_id : Text
  pub message_id : Text
  pub idempotency_key : Text
  pub content : Text
  pub match_status : SmsMatchStatus
  pub matched_order_id : Option Text
  pub received_at_server : Number
  pub extracted_at : Option Number

-- The encrypted password stands for its ciphertext, key version and fingerprint, which are set together.
pub record OrderRow : Type 0 where
  pub id : Text
  pub partner_id : Text
  pub number_id : Text
  pub version : ℕ
  pub status : OrderStatus
  pub otp : Option Text
  pub waiting_at : Option Number
  pub created_at : Number
  pub expires_at : Number
  pub succeeded_at : Option Number
  pub completed_at : Option Number
  pub terminal_at : Option Number

pub record NumberRow : Type 0 where
  pub id : Text
  pub partner_id : Text
  pub device_id : Text
  pub status : NumberStatus
  pub current_order_id : Option Text

-- `transitions` are the operation keys of the order transitions, which are unique.
pub record SmsStore : Type 0 where
  pub sms : List SmsRow
  pub orders : List OrderRow
  pub numbers : List NumberRow
  pub transitions : List Text
  pub earnings : List EarningState
  pub ledger : List LedgerTransaction

pub record OrderSnapshot : Type 0 where
  pub service_code : Text
  pub payout_idr : Number

pub record Platform : Type 0 where
  pub snapshot_of : Text → Option OrderSnapshot
  pub devices : List SmsDevice
  -- `earningHoldSeconds` of the active configuration
  pub earning_hold_seconds : Option ℕ
  pub encrypt_inbound : Text → Text → Text
  pub encrypt_otp : Text → Text
  pub unicode : Unicode

-- The input, with what the clock and the id generator return during the run.
pub record IngestSmsInput : Type 0 where
  pub principal : SmsPrincipal
  pub number_id : Text
  pub message_id : Text
  pub idempotency_key : Text
  pub sender : Text
  pub body : Text
  pub now : Number
  pub received_at_server : Number
  pub sms_id : Text
  pub earning_id : Text

pub data IngestError : Type 0 where
  ownership_mismatch dependency_unavailable success_contention unique_violation : IngestError
  domain_error : DomainError → IngestError

pub data SmsUnmatchedReason : Type 0 where
  no_active_order : SmsUnmatchedReason
  otp_rejected : OtpRejectReason → SmsUnmatchedReason

pub data SmsIngestionResult : Type 0 where
  duplicate : DuplicateKey → SmsIngestionResult
  matched : Text → SmsMatchMode → SmsIngestionResult
  unmatched : SmsUnmatchedReason → SmsIngestionResult
  ambiguous : List Text → SmsIngestionResult
