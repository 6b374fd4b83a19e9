-- ===== src/Catalog/Inventory/Laws.antt =====
-- Liveness and statuses: what a heartbeat does, when a device is live, and when a number is available.
use kirimkode_partner.Base.{
  ℕ, ◌+◌, ◌*◌, ◌≤◌, ◌≡◌, refl, ◌≢◌, ◌↔◌, inl, inr, Bool, true, false, Option, none, some, arith,
  if◌then◌else◌, Bool-cases, Result, ok, bind_returns, Result-cases,
}
use kirimkode_partner.Int.{ℤ, pos, pos_part, neg_part, ◌-ℤ◌, ◌≤ℤ◌, ltb_ℤ, int_laws}
use kirimkode_partner.Number.{Number, int, num, max_safe}
use kirimkode_partner.Catalog.Pricing.{CatalogError, assert_safe_integer}
use kirimkode_partner.Catalog.Device.{
  DeviceStatus, DeviceState, Value, max_number, previous_time, heartbeat_status, next_capabilities,
  next_metadata, record_server_heartbeat,
}
use kirimkode_partner.Catalog.Inventory.{
  NumberStatus, seen_in_time, is_device_live, is_held, NumberAvailabilityInput, idle_status,
  reconcile_number_availability,
}

-- The device was last seen, at `seen`, no more than the timeout before `now`.
abbrev pub IsRecent : Option Number → ℤ → ℕ → Type 0
IsRecent none now timeout = ⊥
IsRecent (some (int seen)) now timeout = now -ℤ seen ≤ℤ pos (timeout * 1_000)
IsRecent (some _) now timeout = ⊥

timeout_checked : (t : ℕ) → 1 ≤ t → t ≤ max_safe → assert_safe_integer (num t) 1 ≡ ok tt
unfolding assert_safe_integer
timeout_checked t l u = ground arith

-- At a valid time, and with a timeout that is a safe integer of one second at least, a device is
-- reported live exactly when it is online and was last seen, at a valid time, no longer than the
-- timeout ago.
is_device_live_iff :
    (status : DeviceStatus) (seen : Option Number) (now : ℤ) (timeout : ℕ)
    → 1 ≤ timeout
    → timeout ≤ max_safe
    → (is_device_live status seen (int now) (num timeout) ≡ ok true)
      ↔ ((status ≡ DeviceStatus.online) × IsRecent seen now timeout)
unfolding is_device_live seen_in_time
is_device_live_iff DeviceStatus.offline seen now timeout l u =
    let v : assert_safe_integer (num timeout) 1 ≡ ok tt = timeout_checked timeout l u in
    ((λ h. ground (arith, v)), λ h. ground (arith, v))
is_device_live_iff DeviceStatus.disabled seen now timeout l u =
    let v : assert_safe_integer (num timeout) 1 ≡ ok tt = timeout_checked timeout l u in
    ((λ h. ground (arith, v)), λ h. ground (arith, v))
is_device_live_iff DeviceStatus.online none now timeout l u =
    let v : assert_safe_integer (num timeout) 1 ≡ ok tt = timeout_checked timeout l u in
    ((λ h. ground (arith, v)), λ h. ground (arith, v))
is_device_live_iff DeviceStatus.online (some (int z)) now timeout l u =
    let v : assert_safe_integer (num timeout) 1 ≡ ok tt = timeout_checked timeout l u in
    ((λ h. ground (arith, v)), λ h. ground (arith, v))
is_device_live_iff DeviceStatus.online (some x) now timeout l u =
    let v : assert_safe_integer (num timeout) 1 ≡ ok tt = timeout_checked timeout l u in
    ((λ h. ground (arith, v)), λ h. ground (arith, v))

-- What a heartbeat leaves: the type is kept, only a disabled device stays disabled, the others are online,
-- and the time last seen is the later of the two.
pub record IsHeartbeat (d : DeviceState) (at : ℤ) (e : DeviceState) : Type 0 where
  pub kind : e.kind ≡ d.kind
  pub status : e.status ≡ heartbeat_status d.status
  pub seen : e.last_seen_at ≡ some (max_number (previous_time d.last_seen_at) (int at))

recorded-IsHeartbeat :
    (d e : DeviceState) (at : ℤ) (metadata capabilities : Value)
    → record_server_heartbeat d (int at) metadata capabilities ≡ ok e
    → IsHeartbeat d at e
unfolding record_server_heartbeat
recorded-IsHeartbeat d e at metadata capabilities h =
    let (c, _, h1) = bind_returns (next_capabilities d.capabilities capabilities) _ h in
    let (m, _, h2) = bind_returns (next_metadata d.heartbeat_metadata metadata) _ h1 in
    record { kind = ground arith; status = ground arith; seen = ground arith }

abbrev pub time_of : Option ℤ → Option Number
time_of none = none
time_of (some t) = some (int t)

-- The later of a valid time last seen, if any, and the time of the heartbeat.
abbrev pub later : Option ℤ → ℤ → ℤ
later none at = at
later (some before) at = if ltb_ℤ before at then at else before

earlier_recent :
    (b at now : ℤ) (timeout : ℕ)
    → ltb_ℤ b at ≡ false
    → now -ℤ at ≤ℤ pos (timeout * 1_000)
    → now -ℤ b ≤ℤ pos (timeout * 1_000)
earlier_recent b at now timeout h r =
    let h' : pos_part at + neg_part b ≤ pos_part b + neg_part at = ground arith in omega int_laws

later_recent :
    (before : Option ℤ) (at now : ℤ) (timeout : ℕ)
    → now -ℤ at ≤ℤ pos (timeout * 1_000)
    → now -ℤ later before at ≤ℤ pos (timeout * 1_000)
later_recent none at now timeout r = r
later_recent (some b) at now timeout r = elim (Bool-cases (ltb_ℤ b at)) [
  | inl y ↦ rw y r
  | inr n ↦ rw n (earlier_recent b at now timeout n r)
]

seen_later :
    (before : Option ℤ) (at : ℤ)
    → max_number (previous_time (time_of before)) (int at) ≡ int (later before at)
unfolding max_number
seen_later none at = refl
seen_later (some b) at = ground (arith, Bool-cases (ltb_ℤ b at))

-- An accepted heartbeat makes a device that is not disabled, and that was never seen or at a valid
-- time, live until the timeout after the heartbeat has passed, even if the heartbeat arrives out of
-- order.
pub heartbeat_revives :
    (d e : DeviceState) (before : Option ℤ) (at now : ℤ) (timeout : ℕ)
    (metadata capabilities : Value)
    → d.last_seen_at ≡ time_of before
    → d.status ≢ DeviceStatus.disabled
    → 1 ≤ timeout
    → timeout ≤ max_safe
    → now -ℤ at ≤ℤ pos (timeout * 1_000)
    → record_server_heartbeat d (int at) metadata capabilities ≡ ok e
    → is_device_live e.status e.last_seen_at (int now) (num timeout) ≡ ok true
heartbeat_revives d e before at now timeout metadata capabilities p n l u r h =
    let k : IsHeartbeat d at e = recorded-IsHeartbeat d e at metadata capabilities h in
    rw (k.status, k.seen, p, seen_later before at)
      ((is_device_live_iff (heartbeat_status d.status) (some (int (later before at))) now timeout l
          u).1
        (ground (arith, n), later_recent before at now timeout r))

idle_available :
    (i : NumberAvailabilityInput) (live : Bool)
    → (idle_status i live ≡ NumberStatus.available)
      ↔ ((live ≡ true) × (i.has_active_offer ≡ true) × (i.has_active_order ≡ false))
idle_available i live = ground arith

-- A number becomes available exactly when it is enabled, neither held nor disabled, its device is live,
-- an offer is active and no order is.
pub available_iff :
    (i : NumberAvailabilityInput)
    → (reconcile_number_availability i ≡ ok NumberStatus.available) ↔ (
        (i.enabled ≡ true)
        × (is_held i.status ≡ false)
        × (i.status ≢ NumberStatus.disabled)
        × (is_device_live i.device_status i.last_seen_at i.now_server i.heartbeat_timeout_seconds
            ≡ ok true)
        × (i.has_active_offer ≡ true)
        × (i.has_active_order ≡ false))
unfolding reconcile_number_availability
available_iff i =
    let live : Result CatalogError Bool =
      is_device_live i.device_status i.last_seen_at i.now_server i.heartbeat_timeout_seconds in
    elim (Result-cases live) [
      | inl (x, e) ↦ ((λ h. ground (arith, e)), λ h. ground (arith, e))
      | inr (b, e) ↦ ((λ h. ground (arith, e)), λ h. ground (arith, e))
    ]
