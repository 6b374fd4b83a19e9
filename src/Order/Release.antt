-- ===== src/Order/Release.antt =====
-- Whether a released number goes back on sale: `decideNumberRelease` of
-- src/domain/order-state-machine.ts, against what it promises of the device and its heartbeat.
use kirimkode_partner.Base.{
  ℕ, ◌+◌, ◌≤◌, ◌≡◌, refl, ◌↔◌, Bool, true, not, ◌&&◌, ◌||◌, Option, none, some, arith,
  if◌then◌else◌,
}
use kirimkode_partner.Int.{pos, ◌-ℤ◌}
use kirimkode_partner.Number.{Number, int, num, is_finite, le_number, sub_number}
use kirimkode_partner.Order.Status.{
  ReleaseDisposition, available, offline, DeviceStatus, online, is_online,
}

-- `ServerObservedReleaseContext`
pub record ReleaseContext : Type 0 where
  pub number_enabled : Bool
  pub device_status : DeviceStatus
  pub device_last_seen_at_ms : Option Number
  pub observed_at_ms : Number
  pub heartbeat_timeout_ms : Number

-- `isFiniteTimestamp`
abbrev pub is_finite_timestamp : Number → Bool
is_finite_timestamp t = is_finite t && le_number (num 0) t

abbrev pub last_seen_ok : Option Number → Bool
last_seen_ok none = true
last_seen_ok (some t) = is_finite_timestamp t

-- `hasValidReleaseContext`
abbrev pub has_valid_release_context : ReleaseContext → Bool
has_valid_release_context c =
    is_finite_timestamp c.observed_at_ms
    && is_finite c.heartbeat_timeout_ms
    && le_number (num 0) c.heartbeat_timeout_ms
    && last_seen_ok c.device_last_seen_at_ms

-- The tests of `decideNumberRelease` once the last heartbeat is known to be there.
abbrev release_with_heartbeat : ReleaseContext → Number → ReleaseDisposition
release_with_heartbeat c seen =
    let age = sub_number c.observed_at_ms seen in
    if not (has_valid_release_context c)
    then offline
    else if le_number (num 0) age && le_number age c.heartbeat_timeout_ms
    then available
    else offline

unfoldable pub decide_number_release : ReleaseContext → ReleaseDisposition
unfolding sub_number ◌-ℤ◌
decide_number_release c =
    if not c.number_enabled || not (is_online c.device_status)
    then offline
    else elim c.device_last_seen_at_ms [
      | none ↦ offline
      | some seen ↦ release_with_heartbeat c seen
    ]

-- The number is enabled, its device is online, and its last heartbeat, seen no later than now, is
-- no older than the timeout.
pub record IsLive (c : ReleaseContext) : Type 0 where
  pub seen : ℕ
  pub now : ℕ
  pub limit : ℕ
  pub enabled : c.number_enabled ≡ true
  pub up : c.device_status ≡ online
  pub seen_eq : c.device_last_seen_at_ms ≡ some (num seen)
  pub now_eq : c.observed_at_ms ≡ num now
  pub limit_eq : c.heartbeat_timeout_ms ≡ num limit
  pub not_future : seen ≤ now
  pub fresh : now ≤ seen + limit

IsLive-available : (c : ReleaseContext) → IsLive c → decide_number_release c ≡ available
unfolding decide_number_release
IsLive-available c h = ground arith

release_IsLive :
    (c : ReleaseContext) (seen now limit : Number)
    → c.device_last_seen_at_ms ≡ some seen
    → c.observed_at_ms ≡ now
    → c.heartbeat_timeout_ms ≡ limit
    → decide_number_release c ≡ available
    → IsLive c
unfolding decide_number_release
release_IsLive c (int (pos s)) (int (pos n)) (int (pos l)) es en el h = record {
  seen = s;
  now = n;
  limit = l;
  enabled = ground arith;
  up = ground arith;
  seen_eq = es;
  now_eq = en;
  limit_eq = el;
  not_future = ground arith;
  fresh = ground arith;
}
release_IsLive c s n l es en el h = absurd (ground arith)

available-IsLive :
    (c : ReleaseContext) (o : Option Number)
    → c.device_last_seen_at_ms ≡ o
    → decide_number_release c ≡ available
    → IsLive c
unfolding decide_number_release
available-IsLive c none e h = absurd (ground arith)
available-IsLive c (some seen) e h =
    release_IsLive c seen c.observed_at_ms c.heartbeat_timeout_ms e refl refl h

-- A number is released back on sale exactly if it is enabled, its device is online, and the
-- device's last heartbeat is neither in the future nor older than the heartbeat timeout; with any
-- other context, one with a missing or non-finite time included, it is parked offline.
pub decide_number_release_iff :
    (c : ReleaseContext)
    → ((decide_number_release c ≡ available) ↔ IsLive c)
      × ((decide_number_release c ≡ offline) ↔ (¬ IsLive c))
decide_number_release_iff c = (
  (available-IsLive c c.device_last_seen_at_ms refl, IsLive-available c),
  (λ off live. not_both (IsLive-available c live) off, λ dead. offline_of c _ refl dead),
)
  where
    not_both : decide_number_release c ≡ available → decide_number_release c ≡ offline → ⊥
    not_both p q = cc

    offline_of :
        (c : ReleaseContext) (d : ReleaseDisposition)
        → decide_number_release c ≡ d
        → (¬ IsLive c)
        → decide_number_release c ≡ offline
    offline_of c available e dead = absurd (dead (available-IsLive c _ refl e))
    offline_of c offline e dead = e
