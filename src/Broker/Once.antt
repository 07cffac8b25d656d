-- ===== src/Broker/Once.antt =====
-- An event of a QoS 2 message, of crates/netbaiot-transports/src/mqtt/broker/inbound_qos2.rs, has one
-- delivery at a time and is not delivered again once it was accepted.
use netbaiot.Prelude.{
  Result, ℕ, ◌≡◌, refl, ap, ◌∙◌, ◌⊎◌, inl, inr, Option, none, some, List, [], ◌∷◌, arith, ◌==◌,
  Bool-cases, Option-cases, nat_eq, string_eq, All, ok, err,
}
use netbaiot.Prelude.Map.{lookup, lookup-insert}
use netbaiot.Message.{SessionKey, session_key_eq, BrokerMessage, BrokerError, conflict}
use netbaiot.Broker.{
  InboundQos2State, await_pubrel, delivering, event_accepted, StoredSession, BrokerState,
  check_owner,
}
use netbaiot.Broker.Inbound.{
  InboundQos2Action, already_accepted, kept_operation, begin_entry, begin_session, begin_owned,
  begin_inbound_qos2_delivery, next_operation, finish_entry, abandon_entry, has_operation,
}
use netbaiot.Broker.Deliveries.{
  Call, begin_call, finish_call, abandon_call, run, Has, HoldsAt, Keeps, run-HoldsAt,
}

abbrev pub IsDelivering : ℕ → BrokerMessage → ℕ → StoredSession → Type 0
IsDelivering packet_id m operation s =
    lookup packet_id s.inbound_qos2 ≡ some (delivering m operation)

abbrev pub IsAccepted : ℕ → BrokerMessage → ℕ → ℕ → StoredSession → Type 0
IsAccepted packet_id m incarnation operation s =
    (lookup packet_id s.inbound_qos2 ≡ some (event_accepted m))
    × (lookup packet_id s.inbound_operations ≡ some operation)
    × (s.incarnation ≡ incarnation)

module _ (packet : ℕ) (m : BrokerMessage) (incarnation operation : ℕ) where
  begin-IsAccepted :
      (s : StoredSession) (p id : ℕ) (entry : Option InboundQos2State)
      → lookup p s.inbound_qos2 ≡ entry
      → IsAccepted packet m incarnation operation s
      → IsAccepted packet m incarnation operation (begin_entry s p id entry).0
  begin-IsAccepted s p id none found h = h
  begin-IsAccepted s p id (some (await_pubrel n)) found (accepted, current, same) = (
    ground (arith, found, accepted, lookup-insert p packet (delivering n id) s.inbound_qos2),
    current,
    same,
  )
  begin-IsAccepted s p id (some (delivering n c)) found h = h
  begin-IsAccepted s p id (some (event_accepted n)) found (accepted, current, same) = (
    accepted,
    ground (arith, current, lookup-insert p packet (kept_operation s p id) s.inbound_operations),
    same,
  )

  finish-IsAccepted :
      (s : StoredSession) (p id : ℕ) (entry : Option InboundQos2State)
      → lookup p s.inbound_qos2 ≡ entry
      → IsAccepted packet m incarnation operation s
      → IsAccepted packet m incarnation operation (finish_entry s p id entry).0
  finish-IsAccepted s p id none found h = h
  finish-IsAccepted s p id (some (await_pubrel n)) found h = h
  finish-IsAccepted s p id (some (delivering n c)) found (accepted, current, same) =
      elim (Bool-cases (c == id)) [
        | inl equal ↦ rw equal (
          ground (arith, found, accepted, lookup-insert p packet (event_accepted n) s.inbound_qos2),
          ground (arith, found, accepted, current, lookup-insert p packet id s.inbound_operations),
          same,
        )
        | inr other ↦ rw other (accepted, current, same)
      ]
  finish-IsAccepted s p id (some (event_accepted n)) found h =
      elim (Bool-cases (has_operation s p id)) [ inl equal ↦ rw equal h | inr other ↦ rw other h ]

  abandon-IsAccepted :
      (s : StoredSession) (p id : ℕ) (entry : Option InboundQos2State)
      → lookup p s.inbound_qos2 ≡ entry
      → IsAccepted packet m incarnation operation s
      → IsAccepted packet m incarnation operation (abandon_entry s p id entry).0
  abandon-IsAccepted s p id none found h = h
  abandon-IsAccepted s p id (some (await_pubrel n)) found h = h
  abandon-IsAccepted s p id (some (delivering n c)) found (accepted, current, same) =
      elim (Bool-cases (c == id)) [
        | inl equal ↦ rw equal (
          ground (arith, found, accepted, lookup-insert p packet (await_pubrel n) s.inbound_qos2),
          current,
          same,
        )
        | inr other ↦ rw other (accepted, current, same)
      ]
  abandon-IsAccepted s p id (some (event_accepted n)) found h = h

  any-Keeps :
      (key : SessionKey) (call : Call) → Keeps (IsAccepted packet m incarnation operation) key call
  any-Keeps key (begin_call j generation p) =
      λ s id h. begin-IsAccepted s p id (lookup p s.inbound_qos2) refl h
  any-Keeps key (finish_call j named p id) =
      λ s same h. finish-IsAccepted s p id (lookup p s.inbound_qos2) refl h
  any-Keeps key (abandon_call j named p id) =
      λ s same h. abandon-IsAccepted s p id (lookup p s.inbound_qos2) refl h

  All-Keep :
      (key : SessionKey) (calls : List Call)
      → All (Keeps (IsAccepted packet m incarnation operation) key) calls
  All-Keep key [] = tt
  All-Keep key (call ∷ calls) = (any-Keeps key call, All-Keep key calls)

-- What a begin may answer for a packet whose event was accepted.
abbrev pub AnswersAccepted : ℕ → ℕ → Result BrokerError InboundQos2Action → Type 0
AnswersAccepted incarnation operation r =
    (r ≡ err conflict) ⊎ (r ≡ ok (already_accepted incarnation operation))

accepted-answer :
    (state : BrokerState) (packet : ℕ) (m : BrokerMessage) (incarnation operation : ℕ)
    (key : SessionKey) (found : Option StoredSession)
    → Has (IsAccepted packet m incarnation operation) found
    → (begin_session state key packet found).1 ≡ ok (already_accepted incarnation operation)
accepted-answer state packet m incarnation operation key none h = cc
accepted-answer state packet m incarnation operation key (some s) (accepted, current, same) =
    let kept : kept_operation s packet state.operation_id ≡ operation =
      rw (kept_operation, current) refl in
    ap (λ entry. ok (begin_entry s packet state.operation_id entry).1) accepted
    ∙ ap (λ id. ok (already_accepted s.incarnation id)) kept
    ∙ ap (λ id. ok (already_accepted id operation)) same

pub owner-conflict :
    (state : BrokerState) (key : SessionKey) (generation : ℕ)
    → (check_owner state key generation ≡ ok tt) ⊎ (check_owner state key generation ≡ err conflict)
owner-conflict state key generation = elim (Option-cases (lookup key state.active)) [
  | inl absent ↦ inr (rw (check_owner, absent) refl)
  | inr (active, present) ↦ elim (Bool-cases (active.generation == generation)) [
    | inl owner ↦ inl (rw (check_owner, present, owner) refl)
    | inr other ↦ inr (rw (check_owner, present, other) refl)
  ]
]

owned-answer :
    (state : BrokerState) (packet : ℕ) (m : BrokerMessage) (incarnation operation : ℕ)
    (key : SessionKey) (generation : ℕ)
    → HoldsAt (IsAccepted packet m incarnation operation) key state
    → AnswersAccepted incarnation operation
        (begin_inbound_qos2_delivery state key generation packet).1
unfolding begin_inbound_qos2_delivery
owned-answer state packet m incarnation operation key generation holds =
    elim (owner-conflict state key generation) [
      | inl owner ↦ inr (
          ap (λ r. (begin_owned state key packet r).1) owner
          ∙ accepted-answer (record state { operation_id = next_operation state.operation_id })
              packet m incarnation operation key (lookup key state.sessions) holds)
      | inr other ↦ inl (ap (λ r. (begin_owned state key packet r).1) other)
    ]

-- Where the event of a session's packet was accepted under an operation: whatever begins, finishes and
-- abandons of deliveries follow, for any sessions and packets, a further begin for the packet refuses a
-- connection that does not own the session, or answers that the event was accepted, with the same
-- operation; it never delivers it again.
pub accepted_never_delivered :
    (state : BrokerState) (calls : List Call) (packet : ℕ) (m : BrokerMessage)
    (incarnation operation : ℕ) (key : SessionKey) (generation : ℕ)
    → HoldsAt (IsAccepted packet m incarnation operation) key state
    → AnswersAccepted incarnation operation
        (begin_inbound_qos2_delivery (run state calls) key generation packet).1
accepted_never_delivered state calls packet m incarnation operation key generation holds =
    owned-answer (run state calls) packet m incarnation operation key generation (
      run-HoldsAt (IsAccepted packet m incarnation operation) key calls state holds
        (All-Keep packet m incarnation operation key calls))
