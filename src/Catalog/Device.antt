-- ===== src/Catalog/Device.antt =====
-- Devices of src/domain/task-5-2-device-inventory-pricing.ts: capabilities and heartbeats. A Date is
-- its time value in milliseconds, `nan` if it is invalid; a value of type `unknown` is a Value, whose
-- `other` stands for functions, symbols and big integers.
use kirimkode_partner.Base.{
  Bool, true, false, not, ◌&&◌, ◌||◌, Option, none, some, ltb, if◌then◌else◌, Result, ok, err,
  throw_if, ◌>>=◌, ◌>>◌,
}
use kirimkode_partner.Number.{Number, nan, neg_infinity, num, is_finite, is_safe_integer, lt_number}
use kirimkode_partner.Text.{Text, codes, eq_text, utf16_length}
use kirimkode_partner.Catalog.Pricing.{CatalogError, invalid_device_capabilities, invalid_heartbeat}

mutual
  pub data Value : Type 0 where
    undefined null other : Value
    boolean : Bool → Value
    number : Number → Value
    string : Text → Value
    array : Values → Value
    object : Fields → Value

  pub data Values : Type 0 where
    end : Values
    item : Value → Values → Values

  pub data Fields : Type 0 where
    close : Fields
    field : Text → Value → Fields → Fields

abbrev pub is_record : Value → Bool
is_record (object fields) = true
is_record _ = false

unfoldable mutual
  pub is_json_value : Value → Bool
  is_json_value undefined = false
  is_json_value null = true
  is_json_value other = false
  is_json_value (boolean b) = true
  is_json_value (number n) = is_finite n
  is_json_value (string s) = true
  is_json_value (array values) = are_json_values values
  is_json_value (object fields) = are_json_fields fields

  pub are_json_values : Values → Bool
  are_json_values end = true
  are_json_values (item value values) = is_json_value value && are_json_values values

  pub are_json_fields : Fields → Bool
  are_json_fields close = true
  are_json_fields (field key value fields) = is_json_value value && are_json_fields fields

-- `input[key]`
unfoldable pub get : Fields → Text → Value
get close key = undefined
get (field name value fields) key =
    let rest = get fields key in if eq_text name key then value else rest

pub record DeviceCapabilities : Type 0 where
  pub sms : Bool
  pub notification : Bool
  pub resend : Bool
  pub operator : Bool
  pub slots : Number

pub record HeartbeatMetadata : Type 0 where
  pub agent_version : Option Text
  pub signal : Option Number
  pub operator : Option Text
  pub health : Option Fields

pub data DeviceType : Type 0 where
  simulator android modem goip api : DeviceType

pub data DeviceStatus : Type 0 where
  offline online disabled : DeviceStatus

pub record DeviceState : Type 0 where
  pub kind : DeviceType
  pub status : DeviceStatus
  pub last_seen_at : Option Number
  pub capabilities : DeviceCapabilities
  pub heartbeat_metadata : Option HeartbeatMetadata

unfoldable pub boolean_capability : Value → Result CatalogError Bool
boolean_capability undefined = ok false
boolean_capability null = ok false
boolean_capability (boolean b) = ok b
boolean_capability _ = err invalid_device_capabilities

unfoldable pub slots_of : Value → Result CatalogError Number
slots_of undefined = ok (num 0)
slots_of null = ok (num 0)
slots_of (number n) = do
  throw_if (not (is_safe_integer n) || lt_number n (num 0)) invalid_device_capabilities
  ok n
slots_of _ = err invalid_device_capabilities

unfoldable pub parse_device_capabilities : Value → Result CatalogError DeviceCapabilities
parse_device_capabilities (object input) = do
  slots ← slots_of (get input (codes "slots"))
  sms ← boolean_capability (get input (codes "sms"))
  notification ← boolean_capability (get input (codes "notification"))
  resend ← boolean_capability (get input (codes "resend"))
  operator ← boolean_capability (get input (codes "operator"))
  ok (record {
    sms = sms;
    notification = notification;
    resend = resend;
    operator = operator;
    slots = slots;
  })
parse_device_capabilities _ = err invalid_device_capabilities

-- A string field of at most 64 code units.
unfoldable pub short_text : Value → Result CatalogError (Option Text)
short_text undefined = ok none
short_text (string s) = do throw_if (ltb 64 (utf16_length s)) invalid_heartbeat; ok (some s)
short_text _ = err invalid_heartbeat

unfoldable pub signal_of : Value → Result CatalogError (Option Number)
signal_of undefined = ok none
signal_of (number n) = do throw_if (not (is_safe_integer n)) invalid_heartbeat; ok (some n)
signal_of _ = err invalid_heartbeat

unfoldable pub health_of : Value → Result CatalogError (Option Fields)
health_of undefined = ok none
health_of (object fields) = do
  throw_if (not (is_json_value (object fields))) invalid_heartbeat
  ok (some fields)
health_of _ = err invalid_heartbeat

unfoldable pub sanitize_heartbeat_metadata : Value → Result CatalogError HeartbeatMetadata
sanitize_heartbeat_metadata undefined =
    ok (record { agent_version = none; signal = none; operator = none; health = none })
sanitize_heartbeat_metadata (object input) = do
  agent_version ← short_text (get input (codes "agentVersion"))
  signal ← signal_of (get input (codes "signal"))
  operator ← short_text (get input (codes "operator"))
  health ← health_of (get input (codes "health"))
  ok (record {
    agent_version = agent_version;
    signal = signal;
    operator = operator;
    health = health;
  })
sanitize_heartbeat_metadata _ = err invalid_heartbeat

abbrev pub assert_valid_date : Number → Result CatalogError (Unit {0})
assert_valid_date time = throw_if (not (is_finite time)) invalid_heartbeat

-- `Math.max` of two numbers
unfoldable pub max_number : Number → Number → Number
max_number nan y = nan
max_number x nan = nan
max_number x y = if lt_number x y then y else x

-- `lastSeenAt?.getTime() ?? Number.NEGATIVE_INFINITY`
abbrev pub previous_time : Option Number → Number
previous_time none = neg_infinity
previous_time (some time) = time

unfoldable pub next_capabilities :
    DeviceCapabilities → Value → Result CatalogError DeviceCapabilities
next_capabilities kept undefined = ok kept
next_capabilities kept update = parse_device_capabilities update

unfoldable pub next_metadata :
    Option HeartbeatMetadata → Value → Result CatalogError (Option HeartbeatMetadata)
next_metadata kept undefined = ok kept
next_metadata kept update = do metadata ← sanitize_heartbeat_metadata update; ok (some metadata)

abbrev pub heartbeat_status : DeviceStatus → DeviceStatus
heartbeat_status disabled = disabled
heartbeat_status _ = online

-- `metadata` and `capabilities` are the fields of the update, undefined if absent.
unfoldable pub record_server_heartbeat :
    DeviceState → Number → Value → Value → Result CatalogError DeviceState
record_server_heartbeat device received_at_server metadata capabilities = do
  assert_valid_date received_at_server
  next ← next_capabilities device.capabilities capabilities
  heartbeat ← next_metadata device.heartbeat_metadata metadata
  ok (record {
    kind = device.kind;
    status = heartbeat_status device.status;
    last_seen_at = some (max_number (previous_time device.last_seen_at) received_at_server);
    capabilities = next;
    heartbeat_metadata = heartbeat;
  })
