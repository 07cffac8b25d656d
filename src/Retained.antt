-- ===== src/Retained.antt =====
-- Retained messages and the reservations for them: crates/netbaiot-transports/src/mqtt/broker/retained.rs
-- and the fields of `BrokerState` that it keeps, in broker/mod.rs there.
pub mod Update
mod Promise
mod Release
mod Tally
mod Storing
mod Allowed
mod Updating
mod Runs
use netbaiot.Prelude.{
  Result, ℕ, zero, suc, ◌+◌, ◌-◌, ◌*◌, ◌/◌, ◌%◌, ◌^◌, ◌≤◌, ◌<◌, min, max, ◌≡◌, refl, sym, ap, ◌∙◌,
  ◌≢◌, ◌↔◌, ◌⊎◌, inl, inr, Bool, true, false, not, ◌&&◌, ◌||◌, Option, none, some, List, [], ◌∷◌,
  ◌++◌, map, arith, ltb, leb, ◌==◌, if◌then◌else◌, leb→le, ltb→lt, ==_iff, Bool-cases, Option-cases,
  Eq, nat_eq, str_eq, str_eq_iff, string_eq, length, get_elem?, take, drop, All, length-append,
  take-append-drop, take-append, drop-append, length-take, length-drop, ok, err, ◌>>=◌, ◌>>◌,
  ensure, ok_or, Result-cases, usize_limit, checked_add, checked_mul, checked_sub, wrapping_sub,
  saturating_add, lt_wf,
}
use netbaiot.Prelude.Map.{lookup, insert, remove}
use netbaiot.Topic.{byte_length}
use netbaiot.Message.{
  DeviceKey, SessionKey, BrokerMessage, BrokerError, overloaded, internal, state_overhead,
  message_bytes,
}
use netbaiot.Broker.{DeadlineIndex, RetainedReservation}
use netbaiot.Broker.Deadlines.{same_deadline, update}

pub record RetainedLimits : Type 0 where
  pub max_retained_messages : ℕ
  pub max_retained_messages_per_tenant : ℕ
  pub max_retained_bytes : ℕ
  pub max_retained_bytes_per_tenant : ℕ
  pub max_retained_message_bytes : ℕ

pub record RetainedMessage : Type 0 where
  pub tenant_id : List ℕ
  pub message : BrokerMessage
  pub origin : Option SessionKey

pub record RetainedState : Type 0 where
  pub retained : List (List ℕ × RetainedMessage)
  pub retained_tenant_usage : List (List ℕ × (ℕ × ℕ))
  pub retained_bytes : ℕ
  pub retained_reserved_count : ℕ
  pub retained_reserved_bytes : ℕ
  pub retained_reserved_tenants : List (List ℕ × (ℕ × ℕ))
  pub retained_expiry : DeadlineIndex (List ℕ)

abbrev pub origin_bytes : Option SessionKey → ℕ
origin_bytes none = 0
origin_bytes (some key) =
    byte_length key.client_id
    + byte_length key.device.tenant_id
    + byte_length key.device.product_id
    + byte_length key.device.device_id
    + state_overhead

unfoldable pub retained_charge : BrokerMessage → Option SessionKey → ℕ
retained_charge message origin = saturating_add (message_bytes message) (origin_bytes origin)

abbrev pub charge_of : RetainedMessage → ℕ
charge_of r = retained_charge r.message r.origin

abbrev pub pair_or_default : Option (ℕ × ℕ) → ℕ × ℕ
pair_or_default none = (0, 0)
pair_or_default (some p) = p

abbrev pub bytes_added :
    RetainedState → RetainedMessage → ℕ → Option ℕ → RetainedState × Result BrokerError (Unit {0})
bytes_added s r count none = (s, err overloaded)
bytes_added s r count (some bytes) = (
  record s { retained_tenant_usage = insert r.tenant_id (count, bytes) s.retained_tenant_usage },
  ok tt,
)

abbrev pub count_added :
    RetainedState → RetainedMessage → ℕ → Option ℕ → RetainedState × Result BrokerError (Unit {0})
count_added s r bytes none = (s, err overloaded)
count_added s r bytes (some count) = bytes_added s r count (checked_add bytes (charge_of r))

unfoldable pub retained_usage_add :
    RetainedState → RetainedMessage → RetainedState × Result BrokerError (Unit {0})
retained_usage_add s r =
    let current = pair_or_default (lookup r.tenant_id s.retained_tenant_usage) in
    count_added s r current.1 (checked_add current.0 1)

-- The count is changed also where the bytes do not suffice.
abbrev pub bytes_removed :
    RetainedState
    → RetainedMessage
    → ℕ
    → ℕ
    → Option ℕ
    → RetainedState × Result BrokerError (Unit {0})
bytes_removed s r fewer bytes none = (
  record s { retained_tenant_usage = insert r.tenant_id (fewer, bytes) s.retained_tenant_usage },
  err internal,
)
bytes_removed s r fewer bytes (some less) = (
  record s {
    retained_tenant_usage =
        if fewer == 0
        then remove r.tenant_id s.retained_tenant_usage
        else insert r.tenant_id (fewer, less) s.retained_tenant_usage;
  },
  ok tt,
)

abbrev pub count_removed :
    RetainedState → RetainedMessage → ℕ → Option ℕ → RetainedState × Result BrokerError (Unit {0})
count_removed s r bytes none = (s, err internal)
count_removed s r bytes (some fewer) =
    bytes_removed s r fewer bytes (checked_sub bytes (charge_of r))

abbrev pub usage_removed :
    RetainedState → RetainedMessage → Option (ℕ × ℕ) → RetainedState × Result BrokerError (Unit {0})
usage_removed s r none = (s, err internal)
usage_removed s r (some (count, bytes)) = count_removed s r bytes (checked_sub count 1)

unfoldable pub retained_usage_remove :
    RetainedState → RetainedMessage → RetainedState × Result BrokerError (Unit {0})
retained_usage_remove s r = usage_removed s r (lookup r.tenant_id s.retained_tenant_usage)

abbrev pub old_charge : Option RetainedMessage → ℕ
old_charge none = 0
old_charge (some old) = charge_of old

abbrev pub same_tenant : Option RetainedMessage → List ℕ → Bool
same_tenant none tenant = false
same_tenant (some old) tenant = str_eq old.tenant_id tenant

abbrev pub is_absent : Option RetainedMessage → Bool
is_absent none = true
is_absent (some old) = false

abbrev pub no_payload : BrokerMessage → Bool
no_payload m = elim m.payload [ [] ↦ true | _ ∷ _ ↦ false ]

-- The condition of the `if` of `check_retained_update`.
abbrev pub over_limits : RetainedState → List ℕ → Option RetainedMessage → ℕ → RetainedLimits → Bool
over_limits s tenant existing new_bytes limits =
    let usage = pair_or_default (lookup tenant s.retained_tenant_usage) in
    let reserved = pair_or_default (lookup tenant s.retained_reserved_tenants) in
    let own_bytes = if same_tenant existing tenant then old_charge existing else 0 in
    (is_absent existing
      && leb limits.max_retained_messages
          (saturating_add (length s.retained) s.retained_reserved_count))
    || (not (same_tenant existing tenant)
        && leb limits.max_retained_messages_per_tenant (saturating_add usage.0 reserved.0))
    || ltb limits.max_retained_bytes (
        saturating_add (saturating_add (s.retained_bytes - old_charge existing) new_bytes)
          s.retained_reserved_bytes)
    || ltb limits.max_retained_bytes_per_tenant
        (saturating_add (saturating_add (usage.1 - own_bytes) new_bytes) reserved.1)

unfoldable pub check_retained_update :
    RetainedState
    → DeviceKey
    → Option SessionKey
    → BrokerMessage
    → RetainedLimits
    → Result BrokerError (Unit {0})
check_retained_update s owner origin message limits =
    if no_payload message
    then ok tt
    else (if ltb limits.max_retained_message_bytes (length message.payload)
        then err overloaded
        else ensure
            (not (
              over_limits s owner.tenant_id (lookup message.topic s.retained)
                (retained_charge message origin) limits))
            overloaded)

abbrev pub no_reservation : RetainedReservation
no_reservation = record { global_count = 0; global_bytes = 0; tenant_count = 0; tenant_bytes = 0 }

abbrev pub is_no_reservation : RetainedReservation → Bool
is_no_reservation r =
    (r.global_count == 0) && (r.global_bytes == 0) && (r.tenant_count == 0) && (r.tenant_bytes == 0)

abbrev pub reservation_of : ℕ → RetainedReservation
reservation_of bytes = record {
  global_count = 1;
  global_bytes = bytes;
  tenant_count = 1;
  tenant_bytes = bytes;
}

abbrev pub promise_refused : RetainedState → List ℕ → RetainedReservation → RetainedLimits → Bool
promise_refused s tenant r limits =
    let usage = pair_or_default (lookup tenant s.retained_tenant_usage) in
    let reserved = pair_or_default (lookup tenant s.retained_reserved_tenants) in
    ltb limits.max_retained_messages
      (saturating_add (saturating_add (length s.retained) s.retained_reserved_count) r.global_count)
    || ltb limits.max_retained_bytes
        (saturating_add (saturating_add s.retained_bytes s.retained_reserved_bytes) r.global_bytes)
    || ltb limits.max_retained_messages_per_tenant
        (saturating_add (saturating_add usage.0 reserved.0) r.tenant_count)
    || ltb limits.max_retained_bytes_per_tenant
        (saturating_add (saturating_add usage.1 reserved.1) r.tenant_bytes)

-- `entry(tenant).or_default()`, with both components raised. The sums of `+=` are numbers without a
-- bound here: the test before keeps them within limits, which are below `usize::MAX`.
unfoldable pub with_promise : RetainedState → List ℕ → RetainedReservation → RetainedState
with_promise s tenant r =
    let reserved = pair_or_default (lookup tenant s.retained_reserved_tenants) in
    record s {
      retained_reserved_count = s.retained_reserved_count + r.global_count;
      retained_reserved_bytes = s.retained_reserved_bytes + r.global_bytes;
      retained_reserved_tenants =
          insert tenant (reserved.0 + r.tenant_count, reserved.1 + r.tenant_bytes)
            s.retained_reserved_tenants;
    }

unfoldable pub reserve_retained :
    RetainedState
    → List ℕ
    → Option SessionKey
    → BrokerMessage
    → RetainedLimits
    → RetainedState × Result BrokerError RetainedReservation
reserve_retained s tenant origin message limits =
    let r = reservation_of (retained_charge message origin) in
    if not message.retain || no_payload message
    then (s, ok no_reservation)
    else (if ltb limits.max_retained_message_bytes (length message.payload)
          || promise_refused s tenant r limits
        then (s, err overloaded)
        else (with_promise s tenant r, ok r))

abbrev pub tenants_released :
    List ℕ
    → RetainedReservation
    → Option (ℕ × ℕ)
    → List (List ℕ × (ℕ × ℕ))
    → List (List ℕ × (ℕ × ℕ))
tenants_released tenant r none tenants = tenants
tenants_released tenant r (some (count, bytes)) tenants =
    if ((count - r.tenant_count) == 0) && ((bytes - r.tenant_bytes) == 0)
    then remove tenant tenants
    else insert tenant (count - r.tenant_count, bytes - r.tenant_bytes) tenants

unfoldable pub release_retained_reservation :
    RetainedState → List ℕ → RetainedReservation → RetainedState
release_retained_reservation s tenant r = if is_no_reservation r then s else record s {
  retained_reserved_count = s.retained_reserved_count - r.global_count;
  retained_reserved_bytes = s.retained_reserved_bytes - r.global_bytes;
  retained_reserved_tenants =
      tenants_released tenant r (lookup tenant s.retained_reserved_tenants)
        s.retained_reserved_tenants;
}
