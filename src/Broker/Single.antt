-- ===== src/Broker/Single.antt =====
-- One delivery of a QoS 2 message at a time, of
-- crates/netbaiot-transports/src/mqtt/broker/inbound_qos2.rs: of the calls
-- that begin, finish and abandon deliveries, only those of its own operation settle it.
use netbaiot.Prelude.{
  Result, ℕ, ◌≡◌, refl, ap, ◌∙◌, ◌⊎◌, inl, inr, Bool, false, ◌&&◌, Option, none, some, List, [],
  ◌∷◌, arith, ◌==◌, Bool-cases, nat_eq, string_eq, All, ok, err,
}
use netbaiot.Prelude.Map.{lookup, lookup-insert}
use netbaiot.Message.{
  SessionKey, session_key_eq, session_key_beq, session_key_beq_iff, BrokerMessage, BrokerError,
  conflict,
}
use netbaiot.Broker.{
  InboundQos2State, await_pubrel, delivering, event_accepted, StoredSession, BrokerState,
}
use netbaiot.Broker.Inbound.{
  InboundQos2Action, delivery_in_progress, begin_entry, begin_session, begin_owned,
  begin_inbound_qos2_delivery, next_operation, finish_entry, abandon_entry, has_operation,
}
use netbaiot.Broker.Deliveries.{
  Call, begin_call, finish_call, abandon_call, run, Has, HoldsAt, Keeps, run-HoldsAt,
}
use netbaiot.Broker.Once.{IsDelivering, owner-conflict}

-- Whether a call names this operation of this packet.
abbrev pub settles : SessionKey → ℕ → ℕ → Call → Bool
settles key packet operation (begin_call j generation p) = false
settles key packet operation (finish_call j incarnation p id) =
    session_key_beq j key && (p == packet) && (id == operation)
settles key packet operation (abandon_call j incarnation p id) =
    session_key_beq j key && (p == packet) && (id == operation)

module _ (packet : ℕ) (m : BrokerMessage) (operation : ℕ) where
  begin-IsDelivering :
      (s : StoredSession) (p id : ℕ) (entry : Option InboundQos2State)
      → lookup p s.inbound_qos2 ≡ entry
      → IsDelivering packet m operation s
      → IsDelivering packet m operation (begin_entry s p id entry).0
  begin-IsDelivering s p id none found h = h
  begin-IsDelivering s p id (some (await_pubrel n)) found h =
      ground (arith, found, h, lookup-insert p packet (delivering n id) s.inbound_qos2)
  begin-IsDelivering s p id (some (delivering n c)) found h = h
  begin-IsDelivering s p id (some (event_accepted n)) found h = h

  finish-IsDelivering :
      (s : StoredSession) (p id : ℕ) (entry : Option InboundQos2State)
      → ((p == packet) && (id == operation)) ≡ false
      → lookup p s.inbound_qos2 ≡ entry
      → IsDelivering packet m operation s
      → IsDelivering packet m operation (finish_entry s p id entry).0
  finish-IsDelivering s p id none other found h = h
  finish-IsDelivering s p id (some (await_pubrel n)) other found h = h
  finish-IsDelivering s p id (some (delivering n c)) other found h =
      ground (arith, other, found, h, lookup-insert p packet (event_accepted n) s.inbound_qos2)
  finish-IsDelivering s p id (some (event_accepted n)) other found h =
      elim (Bool-cases (has_operation s p id)) [
        | inl equal ↦ rw equal h
        | inr different ↦ rw different h
      ]

  abandon-IsDelivering :
      (s : StoredSession) (p id : ℕ) (entry : Option InboundQos2State)
      → ((p == packet) && (id == operation)) ≡ false
      → lookup p s.inbound_qos2 ≡ entry
      → IsDelivering packet m operation s
      → IsDelivering packet m operation (abandon_entry s p id entry).0
  abandon-IsDelivering s p id none other found h = h
  abandon-IsDelivering s p id (some (await_pubrel n)) other found h = h
  abandon-IsDelivering s p id (some (delivering n c)) other found h =
      ground (arith, other, found, h, lookup-insert p packet (await_pubrel n) s.inbound_qos2)
  abandon-IsDelivering s p id (some (event_accepted n)) other found h = h

  other_packet :
      (key j : SessionKey) (p id : ℕ)
      → (session_key_beq j key && (p == packet) && (id == operation)) ≡ false
      → j ≡ key
      → ((p == packet) && (id == operation)) ≡ false
  other_packet key j p id other same =
      let equal = (session_key_beq_iff j key).1 same in rw equal at other

  other-Keeps :
      (key : SessionKey) (call : Call)
      → settles key packet operation call ≡ false
      → Keeps (IsDelivering packet m operation) key call
  other-Keeps key (begin_call j generation p) other =
      λ s id h. begin-IsDelivering s p id (lookup p s.inbound_qos2) refl h
  other-Keeps key (finish_call j named p id) other = λ s same h.
      finish-IsDelivering s p id (lookup p s.inbound_qos2) (other_packet key j p id other same) refl
        h
  other-Keeps key (abandon_call j named p id) other = λ s same h.
      abandon-IsDelivering s p id (lookup p s.inbound_qos2) (other_packet key j p id other same)
        refl h

  All-Keep :
      (key : SessionKey) (calls : List Call)
      → All (λ call. settles key packet operation call ≡ false) calls
      → All (Keeps (IsDelivering packet m operation) key) calls
  All-Keep key [] others = tt
  All-Keep key (call ∷ calls) (first, rest) = (other-Keeps key call first, All-Keep key calls rest)

  in_progress :
      (state : BrokerState) (key : SessionKey) (found : Option StoredSession)
      → Has (IsDelivering packet m operation) found
      → (begin_session state key packet found).1 ≡ ok delivery_in_progress
  in_progress state key none h = cc
  in_progress state key (some s) h =
      ap (λ entry. ok (begin_entry s packet state.operation_id entry).1) h

-- What a begin may answer for a packet whose delivery is under way.
abbrev pub AnswersInProgress : Result BrokerError InboundQos2Action → Type 0
AnswersInProgress r = (r ≡ err conflict) ⊎ (r ≡ ok delivery_in_progress)

-- While a message is being delivered under an operation: whatever begins, finishes and abandons of
-- deliveries follow, for any sessions and packets, of which none finishes or abandons this operation of
-- this packet, it still is; and a further begin for the packet refuses a connection that does not own the
-- session or answers that the delivery is in progress, so that it does not hand the message out a second
-- time. Calls that remove the entry or its session, as `complete_inbound_qos2` does at PUBREL, are not
-- among those that may follow.
pub IsDelivering-once :
    (state : BrokerState) (calls : List Call) (packet : ℕ) (m : BrokerMessage) (operation : ℕ)
    (key : SessionKey) (generation : ℕ)
    → HoldsAt (IsDelivering packet m operation) key state
    → All (λ call. settles key packet operation call ≡ false) calls
    → HoldsAt (IsDelivering packet m operation) key (run state calls)
      × AnswersInProgress (begin_inbound_qos2_delivery (run state calls) key generation packet).1
unfolding begin_inbound_qos2_delivery
IsDelivering-once state calls packet m operation key generation holds others =
    let after = run state calls in
    let still =
      run-HoldsAt (IsDelivering packet m operation) key calls state holds
        (All-Keep packet m operation key calls others) in
    (
      still,
      elim (owner-conflict after key generation) [
        | inl owner ↦ inr (
            ap (λ r. (begin_owned after key packet r).1) owner
            ∙ in_progress packet m operation
                (record after { operation_id = next_operation after.operation_id }) key
                (lookup key after.sessions) still)
        | inr other ↦ inl (ap (λ r. (begin_owned after key packet r).1) other)
      ],
    )
