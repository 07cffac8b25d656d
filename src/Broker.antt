-- ===== src/Broker.antt =====
-- The MQTT broker's data of crates/netbaiot-transports/src/mqtt/broker/mod.rs: stored sessions, usages,
-- and the state under the broker's mutex.
pub mod Deadlines
pub mod Due
pub mod Earliest
pub mod Expiry
pub mod Usage
mod Accounts
mod Sums
mod Records
mod Inbound
mod Deliveries
mod Once
mod Single
mod Pruned
mod Runs
use netbaiot.Prelude.{
  Result, ℕ, zero, suc, ◌+◌, ◌-◌, ◌*◌, ◌/◌, ◌%◌, ◌^◌, ◌≤◌, ◌<◌, min, max, ◌≡◌, refl, sym, ap, ◌∙◌,
  ◌≢◌, ◌↔◌, ◌⊎◌, inl, inr, Bool, true, false, not, ◌&&◌, ◌||◌, Option, none, some, List, [], ◌∷◌,
  ◌++◌, map, arith, ltb, leb, ◌==◌, if◌then◌else◌, leb→le, ltb→lt, ==_iff, Bool-cases, Option-cases,
  Eq, nat_eq, str_eq, str_eq_iff, string_eq, length, get_elem?, take, drop, All, length-append,
  take-append-drop, take-append, drop-append, length-take, length-drop, ok, err, ◌>>=◌, ◌>>◌,
  ensure, ok_or, Result-cases, usize_limit, checked_add, checked_mul, checked_sub, wrapping_sub,
  saturating_add, lt_wf,
}
use netbaiot.Prelude.Map.{lookup, insert}
use netbaiot.Message.{
  BrokerError, BrokerMessage, DeviceKey, PublishProperties, SessionKey, conflict, device_key_beq,
  device_key_beq_iff, device_key_eq, due, expired, internal, invalid, is_default, is_none,
  message_bytes, no_properties, option_bytes, overloaded, properties_bytes, session_key_beq,
  session_key_beq_iff, session_key_eq, state_overhead, user_bytes,
}
use netbaiot.Trie.{Subscription}

pub data MqttVersion : Type 0 where
  v311 : MqttVersion
  v5 : MqttVersion

pub data InboundQos2State : Type 0 where
  await_pubrel : BrokerMessage → InboundQos2State
  delivering : BrokerMessage → ℕ → InboundQos2State
  event_accepted : BrokerMessage → InboundQos2State

pub data OutboundState : Type 0 where
  await_puback : BrokerMessage → OutboundState
  await_pubrec : BrokerMessage → OutboundState
  await_pubcomp : BrokerMessage → OutboundState

unfoldable pub outbound_bytes : OutboundState → ℕ
outbound_bytes (await_puback m) = message_bytes m
outbound_bytes (await_pubrec m) = message_bytes m
outbound_bytes (await_pubcomp m) = message_bytes m

pub record RetainedReservation : Type 0 where
  pub global_count : ℕ
  pub global_bytes : ℕ
  pub tenant_count : ℕ
  pub tenant_bytes : ℕ

pub record StoredSession : Type 0 where
  pub version : MqttVersion
  pub expires_at_ms : Option ℕ
  pub incarnation : ℕ
  pub subscriptions : List (List ℕ × Subscription)
  pub offline : List BrokerMessage
  pub offline_bytes : ℕ
  pub inbound_qos2 : List (ℕ × InboundQos2State)
  pub inbound_operations : List (ℕ × ℕ)
  pub inbound_reservations : List (ℕ × RetainedReservation)
  pub outbound : List (ℕ × OutboundState)
  pub command_outbound : List ℕ
  pub outbound_order : List ℕ
  pub next_packet_id : ℕ
  pub state_bytes : ℕ
  pub last_seen_ms : ℕ
  pub send_quota : ℕ
  pub sent : List ℕ
  pub send_window : List ℕ
  pub inbound_window : List ℕ
  pub started_outbound : List ℕ

pub record SessionUsage : Type 0 where
  pub state_bytes : ℕ
  pub subscriptions : ℕ
  pub offline_count : ℕ
  pub offline_bytes : ℕ
  pub qos1_inflight : ℕ
  pub qos2_inflight : ℕ

pub record TenantUsage : Type 0 where
  pub session_count : ℕ
  pub session_bytes : ℕ
  pub subscription_count : ℕ
  pub offline_count : ℕ
  pub offline_bytes : ℕ
  pub qos1_inflight : ℕ
  pub qos2_inflight : ℕ

-- `BTreeMap<i64, HashSet<K>>` and `HashMap<K, i64>`
pub record DeadlineIndex (K : Type 0) : Type 0 where
  pub by_deadline : List (ℕ × List K)
  pub by_key : List (K × ℕ)

-- Of the connection that holds a session, its generation.
pub record ActiveSession : Type 0 where
  pub generation : ℕ

pub record BrokerState : Type 0 where
  pub sessions : List (SessionKey × StoredSession)
  pub session_usage : List (SessionKey × SessionUsage)
  pub tenant_usage : List (List ℕ × TenantUsage)
  pub device_subscription_count : List (DeviceKey × ℕ)
  pub session_expiry : DeadlineIndex SessionKey
  pub message_expiry : DeadlineIndex SessionKey
  pub session_idle_ttl_ms : ℕ
  pub active : List (SessionKey × ActiveSession)
  pub operation_id : ℕ
  pub session_bytes : ℕ
  pub offline_count : ℕ
  pub offline_bytes : ℕ
  pub will_responsibility_bytes : ℕ
  pub will_responsibility_tenants : List (List ℕ × (ℕ × ℕ))
  pub capacity_wakes : List (List ℕ × ℕ)

abbrev pub check_owner : BrokerState → SessionKey → ℕ → Result BrokerError (Unit {0})
check_owner state key generation = elim (lookup key state.active) [
  | none ↦ err conflict
  | some active ↦ ensure (active.generation == generation) conflict
]

-- A tenant and a quality of service.
abbrev pub wake_beq : List ℕ × ℕ → List ℕ × ℕ → Bool
wake_beq (t, q) (u, r) = str_eq t u && (q == r)

pub wake_beq_iff : (a b : List ℕ × ℕ) → (wake_beq a b ≡ true) ↔ (a ≡ b)
wake_beq_iff (t, q) (u, r) =
    (λ h. ground (arith, str_eq_iff t u), λ h. ground (arith, str_eq_iff t u, h))

instance abbrev pub wake_eq : Eq (List ℕ × ℕ)
wake_eq = record { beq = wake_beq; beq_iff = wake_beq_iff }
