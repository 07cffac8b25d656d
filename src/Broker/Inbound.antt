-- ===== src/Broker/Inbound.antt =====
-- The deliveries of QoS 2 messages from devices, of
-- crates/netbaiot-transports/src/mqtt/broker/inbound_qos2.rs: the calls that change one session only,
-- each under the broker's mutex.
use netbaiot.Prelude.{
  Result, ℕ, ◌+◌, ◌%◌, min, max, Bool, true, false, not, ◌&&◌, ◌||◌, Option, none, some, ltb, leb,
  ◌==◌, if◌then◌else◌, nat_eq, string_eq, length, ok, err, ◌>>=◌, ◌>>◌, ensure, ok_or, usize_limit,
}
use netbaiot.Prelude.Map.{lookup, insert}
use netbaiot.Prelude.Sets.{contains, add, discard}
use netbaiot.Message.{
  SessionKey, session_key_eq, BrokerMessage, BrokerError, conflict, internal, invalid,
}
use netbaiot.Broker.{
  InboundQos2State, await_pubrel, delivering, event_accepted, StoredSession, BrokerState,
  check_owner,
}

pub data InboundQos2Action : Type 0 where
  deliver : BrokerMessage → ℕ → ℕ → InboundQos2Action
  already_accepted : ℕ → ℕ → InboundQos2Action
  delivery_in_progress : InboundQos2Action
  unknown : InboundQos2Action

pub data InboundQos2PublishState : Type 0 where
  existing_transaction : InboundQos2PublishState
  needs_new_message_admission : InboundQos2PublishState
  identifier_in_use : InboundQos2PublishState

pub record InflightLimits : Type 0 where
  pub max_inflight_qos1_per_session : ℕ
  pub max_inflight_qos2_per_session : ℕ

abbrev pub receive_limit : InflightLimits → ℕ
receive_limit limits = min limits.max_inflight_qos1_per_session limits.max_inflight_qos2_per_session

abbrev pub with_session : BrokerState → SessionKey → StoredSession → BrokerState
with_session state key s = record state { sessions = insert key s state.sessions }

-- `state.sessions.get(key).ok_or(Error::Internal)?` after `check_owner`.
abbrev pub owned_session : BrokerState → SessionKey → ℕ → Result BrokerError StoredSession
owned_session state key generation =
    check_owner state key generation >> ok_or (lookup key state.sessions) internal

unfoldable pub inbound_receive_available :
    BrokerState → SessionKey → ℕ → ℕ → ℕ → InflightLimits → Result BrokerError Bool
inbound_receive_available state key generation qos packet_id limits = do
  s ← owned_session state key generation
  let known : Bool = elim (lookup packet_id s.inbound_qos2) [ none ↦ false | some entry ↦ true ]
  ok (((qos == 2) && known) || ltb (length s.inbound_window) (receive_limit limits))

abbrev pub retransmitted :
    StoredSession → ℕ → InflightLimits → StoredSession × Result BrokerError Bool
retransmitted s packet_id limits =
    if contains packet_id s.inbound_window
    then (s, ok true)
    else (if leb (receive_limit limits) (length s.inbound_window)
        then (s, ok false)
        else (record s { inbound_window = add packet_id s.inbound_window }, ok true))

abbrev pub retransmission_of :
    StoredSession
    → ℕ
    → InflightLimits
    → Option InboundQos2State
    → StoredSession × Result BrokerError Bool
retransmission_of s packet_id limits none = (s, err conflict)
retransmission_of s packet_id limits (some (await_pubrel m)) = retransmitted s packet_id limits
retransmission_of s packet_id limits (some (delivering m operation)) = (s, err conflict)
retransmission_of s packet_id limits (some (event_accepted m)) = (s, err conflict)

unfoldable pub begin_inbound_qos2_retransmission :
    BrokerState → SessionKey → ℕ → ℕ → InflightLimits → BrokerState × Result BrokerError Bool
begin_inbound_qos2_retransmission state key generation packet_id limits =
    elim (owned_session state key generation) [
      | err e ↦ (state, err e)
      | ok s ↦
          let (after, answer) =
            retransmission_of s packet_id limits (lookup packet_id s.inbound_qos2) in
          (with_session state key after, answer)
    ]

abbrev pub publish_state : Option InboundQos2State → InboundQos2PublishState
publish_state none = needs_new_message_admission
publish_state (some (await_pubrel m)) = existing_transaction
publish_state (some (delivering m operation)) = identifier_in_use
publish_state (some (event_accepted m)) = identifier_in_use

unfoldable pub classify_inbound_qos2_publish :
    BrokerState → SessionKey → ℕ → ℕ → Result BrokerError InboundQos2PublishState
classify_inbound_qos2_publish state key generation packet_id = do
  ensure (not (packet_id == 0)) invalid
  s ← owned_session state key generation
  ok (publish_state (lookup packet_id s.inbound_qos2))

unfoldable pub finish_inbound_pubcomp :
    BrokerState → SessionKey → ℕ → ℕ → BrokerState × Result BrokerError (Unit {0})
finish_inbound_pubcomp state key generation packet_id = elim (owned_session state key generation) [
  | err e ↦ (state, err e)
  | ok s ↦ (
    with_session state key (record s { inbound_window = discard packet_id s.inbound_window }),
    ok tt,
  )
]

-- `wrapping_add(1).max(1)` on a `u64`
abbrev pub next_operation : ℕ → ℕ
next_operation id = max ((id + 1) % usize_limit) 1

abbrev pub set_entry : StoredSession → ℕ → InboundQos2State → StoredSession
set_entry s packet_id entry = record s { inbound_qos2 = insert packet_id entry s.inbound_qos2 }

-- `*inbound_operations.entry(packet_id).or_insert(operation_id)`
abbrev pub kept_operation : StoredSession → ℕ → ℕ → ℕ
kept_operation s packet_id operation_id = elim (lookup packet_id s.inbound_operations) [
  | none ↦ operation_id
  | some id ↦ id
]

abbrev pub begin_entry :
    StoredSession → ℕ → ℕ → Option InboundQos2State → StoredSession × InboundQos2Action
begin_entry s packet_id operation_id none = (s, unknown)
begin_entry s packet_id operation_id (some (await_pubrel m)) =
    (set_entry s packet_id (delivering m operation_id), deliver m s.incarnation operation_id)
begin_entry s packet_id operation_id (some (delivering m current)) = (s, delivery_in_progress)
begin_entry s packet_id operation_id (some (event_accepted m)) = (
  record s {
    inbound_operations =
        insert packet_id (kept_operation s packet_id operation_id) s.inbound_operations;
  },
  already_accepted s.incarnation (kept_operation s packet_id operation_id),
)

abbrev pub begin_session :
    BrokerState
    → SessionKey
    → ℕ
    → Option StoredSession
    → BrokerState × Result BrokerError InboundQos2Action
begin_session state key packet_id none = (state, err internal)
begin_session state key packet_id (some s) =
    let (after, action) =
      begin_entry s packet_id state.operation_id (lookup packet_id s.inbound_qos2) in
    (with_session state key after, ok action)

abbrev pub begin_owned :
    BrokerState
    → SessionKey
    → ℕ
    → Result BrokerError (Unit {0})
    → BrokerState × Result BrokerError InboundQos2Action
begin_owned state key packet_id (err e) = (state, err e)
begin_owned state key packet_id (ok u) =
    begin_session (record state { operation_id = next_operation state.operation_id }) key packet_id
      (lookup key state.sessions)

unfoldable pub begin_inbound_qos2_delivery :
    BrokerState → SessionKey → ℕ → ℕ → BrokerState × Result BrokerError InboundQos2Action
begin_inbound_qos2_delivery state key generation packet_id =
    begin_owned state key packet_id (check_owner state key generation)

abbrev pub has_operation : StoredSession → ℕ → ℕ → Bool
has_operation s packet_id operation_id = elim (lookup packet_id s.inbound_operations) [
  | none ↦ false
  | some id ↦ id == operation_id
]

abbrev pub finish_entry :
    StoredSession → ℕ → ℕ → Option InboundQos2State → StoredSession × Result BrokerError (Unit {0})
finish_entry s packet_id operation_id none = (s, err invalid)
finish_entry s packet_id operation_id (some (await_pubrel m)) = (s, err conflict)
finish_entry s packet_id operation_id (some (delivering m current)) =
    if current == operation_id
    then (
      record s {
        inbound_qos2 = insert packet_id (event_accepted m) s.inbound_qos2;
        inbound_operations = insert packet_id operation_id s.inbound_operations;
      },
      ok tt,
    )
    else (s, err conflict)
finish_entry s packet_id operation_id (some (event_accepted m)) =
    if has_operation s packet_id operation_id then (s, ok tt) else (s, err conflict)

abbrev pub abandon_entry :
    StoredSession → ℕ → ℕ → Option InboundQos2State → StoredSession × Result BrokerError (Unit {0})
abandon_entry s packet_id operation_id none = (s, err invalid)
abandon_entry s packet_id operation_id (some (await_pubrel m)) = (s, err conflict)
abandon_entry s packet_id operation_id (some (delivering m current)) =
    if current == operation_id
    then (set_entry s packet_id (await_pubrel m), ok tt)
    else (s, err conflict)
abandon_entry s packet_id operation_id (some (event_accepted m)) = (s, err conflict)

-- The tests before the entry is looked at: a session of this incarnation.
abbrev pub settle_session :
    (StoredSession
      → ℕ
      → ℕ
      → Option InboundQos2State
      → StoredSession × Result BrokerError (Unit {0}))
    → BrokerState
    → SessionKey
    → ℕ
    → ℕ
    → ℕ
    → Option StoredSession
    → BrokerState × Result BrokerError (Unit {0})
settle_session settle state key incarnation packet_id operation_id none = (state, err internal)
settle_session settle state key incarnation packet_id operation_id (some s) =
    let (after, answer) = settle s packet_id operation_id (lookup packet_id s.inbound_qos2) in
    if s.incarnation == incarnation
    then (with_session state key after, answer)
    else (state, err conflict)

unfoldable pub finish_inbound_qos2_delivery :
    BrokerState → SessionKey → ℕ → ℕ → ℕ → BrokerState × Result BrokerError (Unit {0})
finish_inbound_qos2_delivery state key incarnation packet_id operation_id =
    settle_session finish_entry state key incarnation packet_id operation_id
      (lookup key state.sessions)

unfoldable pub abandon_inbound_qos2_delivery :
    BrokerState → SessionKey → ℕ → ℕ → ℕ → BrokerState × Result BrokerError (Unit {0})
abandon_inbound_qos2_delivery state key incarnation packet_id operation_id =
    settle_session abandon_entry state key incarnation packet_id operation_id
      (lookup key state.sessions)
