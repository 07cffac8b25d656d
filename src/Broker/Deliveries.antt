-- ===== src/Broker/Deliveries.antt =====
-- Histories of the deliveries of crates/netbaiot-transports/src/mqtt/broker/inbound_qos2.rs: which calls
-- may settle a delivery, and that an accepted event is not delivered again.
use mathlib.Core.Path.{subst}
use netbaiot.Prelude.{
  Result, ℕ, ◌≡◌, refl, sym, ap, ◌∙◌, inl, inr, true, false, Option, none, some, List, [], ◌∷◌,
  ◌==◌, Bool-cases, nat_eq, string_eq, All, ok, err,
}
use netbaiot.Prelude.Map.{lookup, insert, lookup-insert}
use netbaiot.Message.{SessionKey, session_key_eq, session_key_beq, session_key_beq_iff, BrokerError}
use netbaiot.Broker.{InboundQos2State, StoredSession, BrokerState, check_owner}
use netbaiot.Broker.Inbound.{
  with_session, begin_entry, begin_session, begin_owned, begin_inbound_qos2_delivery,
  next_operation, finish_entry, abandon_entry, settle_session, finish_inbound_qos2_delivery,
  abandon_inbound_qos2_delivery,
}

-- A call with its session, the generation or the incarnation that it names, its packet and operation.
pub data Call : Type 0 where
  begin_call : SessionKey → ℕ → ℕ → Call
  finish_call : SessionKey → ℕ → ℕ → ℕ → Call
  abandon_call : SessionKey → ℕ → ℕ → ℕ → Call

unfoldable pub step : BrokerState → Call → BrokerState
step state (begin_call key generation packet_id) =
    (begin_inbound_qos2_delivery state key generation packet_id).0
step state (finish_call key incarnation packet_id operation_id) =
    (finish_inbound_qos2_delivery state key incarnation packet_id operation_id).0
step state (abandon_call key incarnation packet_id operation_id) =
    (abandon_inbound_qos2_delivery state key incarnation packet_id operation_id).0

unfoldable pub run : BrokerState → List Call → BrokerState
run state [] = state
run state (call ∷ calls) = run (step state call) calls

-- A predicate of the session that a key has.
abbrev pub Has : (StoredSession → Type 0) → Option StoredSession → Type 0
Has P none = false ≡ true
Has P (some s) = P s

abbrev pub HoldsAt : (StoredSession → Type 0) → SessionKey → BrokerState → Type 0
HoldsAt P key state = Has P (lookup key state.sessions)

-- What a call makes of the session that it is for.
abbrev pub Keeps : (StoredSession → Type 0) → SessionKey → Call → Type 0
Keeps P key (begin_call j generation packet_id) =
    (s : StoredSession) (operation_id : ℕ)
    → P s
    → P (begin_entry s packet_id operation_id (lookup packet_id s.inbound_qos2)).0
Keeps P key (finish_call j incarnation packet_id operation_id) =
    (s : StoredSession)
    → j ≡ key
    → P s
    → P (finish_entry s packet_id operation_id (lookup packet_id s.inbound_qos2)).0
Keeps P key (abandon_call j incarnation packet_id operation_id) =
    (s : StoredSession)
    → j ≡ key
    → P s
    → P (abandon_entry s packet_id operation_id (lookup packet_id s.inbound_qos2)).0

with_session-HoldsAt :
    (P : StoredSession → Type 0) (key j : SessionKey) (state : BrokerState)
    (old new : StoredSession)
    → HoldsAt P key state
    → lookup j state.sessions ≡ some old
    → (j ≡ key → P old → P new)
    → HoldsAt P key (with_session state j new)
with_session-HoldsAt P key j state old new holds there keeps =
    elim (Bool-cases (session_key_beq j key)) [
      | inl equal ↦
          let same = (session_key_beq_iff j key).0 equal in
          let here : lookup key state.sessions ≡ some old =
            ap (λ k. lookup k state.sessions) (sym same) ∙ there in
          let put : lookup key (insert j new state.sessions) ≡ some new =
            lookup-insert j key new state.sessions ∙ rw equal refl in
          subst (Has P) (sym put) (keeps same (subst (Has P) here holds))
      | inr other ↦
          let put : lookup key (insert j new state.sessions) ≡ lookup key state.sessions =
            lookup-insert j key new state.sessions ∙ rw other refl in
          subst (Has P) (sym put) holds
    ]

begin_session-HoldsAt :
    (P : StoredSession → Type 0) (key j : SessionKey) (generation packet_id : ℕ)
    (state : BrokerState) (found : Option StoredSession)
    → HoldsAt P key state
    → lookup j state.sessions ≡ found
    → Keeps P key (begin_call j generation packet_id)
    → HoldsAt P key (begin_session state j packet_id found).0
begin_session-HoldsAt P key j generation packet_id state none holds there keeps = holds
begin_session-HoldsAt P key j generation packet_id state (some s) holds there keeps =
    with_session-HoldsAt P key j state s
      (begin_entry s packet_id state.operation_id (lookup packet_id s.inbound_qos2)).0 holds there
      (λ same old. keeps s state.operation_id old)

begin_owned-HoldsAt :
    (P : StoredSession → Type 0) (key j : SessionKey) (generation packet_id : ℕ)
    (state : BrokerState) (owner : Result BrokerError (Unit {0}))
    → HoldsAt P key state
    → Keeps P key (begin_call j generation packet_id)
    → HoldsAt P key (begin_owned state j packet_id owner).0
begin_owned-HoldsAt P key j generation packet_id state (err e) holds keeps = holds
begin_owned-HoldsAt P key j generation packet_id state (ok u) holds keeps =
    begin_session-HoldsAt P key j generation packet_id
      (record state { operation_id = next_operation state.operation_id }) (lookup j state.sessions)
      holds refl keeps

settle_session-HoldsAt :
    (settle : StoredSession
      → ℕ
      → ℕ
      → Option InboundQos2State
      → StoredSession × Result BrokerError (Unit {0}))
    (P : StoredSession → Type 0) (key j : SessionKey) (incarnation packet_id operation_id : ℕ)
    (state : BrokerState) (found : Option StoredSession)
    → HoldsAt P key state
    → lookup j state.sessions ≡ found
    → ((s : StoredSession)
        → j ≡ key
        → P s
        → P (settle s packet_id operation_id (lookup packet_id s.inbound_qos2)).0)
    → HoldsAt P key (settle_session settle state j incarnation packet_id operation_id found).0
settle_session-HoldsAt settle P key j incarnation packet_id operation_id state none holds there
      keeps =
    holds
settle_session-HoldsAt settle P key j incarnation packet_id operation_id state (some s) holds there
      keeps =
    elim (Bool-cases (s.incarnation == incarnation)) [
      | inl current ↦ rw current (
          with_session-HoldsAt P key j state s
            (settle s packet_id operation_id (lookup packet_id s.inbound_qos2)).0 holds there
            (keeps s))
      | inr stale ↦ rw stale holds
    ]

-- A call keeps what its operation keeps of the session that it is for.
pub step-HoldsAt :
    (P : StoredSession → Type 0) (key : SessionKey) (state : BrokerState) (call : Call)
    → HoldsAt P key state
    → Keeps P key call
    → HoldsAt P key (step state call)
unfolding step begin_inbound_qos2_delivery finish_inbound_qos2_delivery
    abandon_inbound_qos2_delivery
step-HoldsAt P key state (begin_call j generation packet_id) holds keeps =
    begin_owned-HoldsAt P key j generation packet_id state (check_owner state j generation) holds
      keeps
step-HoldsAt P key state (finish_call j incarnation packet_id operation_id) holds keeps =
    settle_session-HoldsAt finish_entry P key j incarnation packet_id operation_id state
      (lookup j state.sessions) holds refl keeps
step-HoldsAt P key state (abandon_call j incarnation packet_id operation_id) holds keeps =
    settle_session-HoldsAt abandon_entry P key j incarnation packet_id operation_id state
      (lookup j state.sessions) holds refl keeps

pub run-HoldsAt :
    (P : StoredSession → Type 0) (key : SessionKey) (calls : List Call) (state : BrokerState)
    → HoldsAt P key state
    → All (Keeps P key) calls
    → HoldsAt P key (run state calls)
unfolding run
run-HoldsAt P key [] state holds keeps = holds
run-HoldsAt P key (call ∷ calls) state holds (first, rest) =
    run-HoldsAt P key calls (step state call) (step-HoldsAt P key state call holds first) rest
