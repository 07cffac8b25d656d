-- ===== src/Retained/Release.antt =====
-- Releasing a granted reservation of crates/netbaiot-transports/src/mqtt/broker/retained.rs undoes it.
use mathlib.Core.Path.{subst}
use netbaiot.Prelude.{
  Result, ℕ, ◌+◌, ◌≡◌, refl, ap, inl, inr, not, ◌||◌, Option, List, arith, ltb, if◌then◌else◌,
  Bool-cases, nat_eq, str_eq, str_eq_iff, string_eq, length, ok, err,
}
use netbaiot.Prelude.Map.{beq_self}
use netbaiot.Message.{SessionKey, BrokerMessage, BrokerError, overloaded}
use netbaiot.Broker.{RetainedReservation}
use netbaiot.Retained.{
  RetainedLimits, RetainedState, retained_charge, no_payload, no_reservation, reservation_of,
  promise_refused, with_promise, reserve_retained, release_retained_reservation,
}
use netbaiot.Retained.Promise.{
  reserved_of_tenant, reserved-with_promise, reserved-release, released_counts,
}

abbrev answer : Result BrokerError RetainedReservation → RetainedReservation
answer (ok r) = r
answer (err e) = no_reservation

-- What an answer adds to the accounts, an error nothing.
abbrev Raises :
    RetainedState
    → List ℕ
    → List ℕ
    → RetainedState × Result BrokerError RetainedReservation
    → Type 0
Raises s tenant other p =
    (p.0.retained_reserved_count ≡ s.retained_reserved_count + (answer p.1).global_count)
    × (p.0.retained_reserved_bytes ≡ s.retained_reserved_bytes + (answer p.1).global_bytes)
    × (reserved_of_tenant p.0 other ≡ (
        if str_eq tenant other
        then (
          (reserved_of_tenant s tenant).0 + (answer p.1).tenant_count,
          (reserved_of_tenant s tenant).1 + (answer p.1).tenant_bytes,
        )
        else reserved_of_tenant s other))

Raises-nothing :
    (s : RetainedState) (tenant other : List ℕ) (r : Result BrokerError RetainedReservation)
    → answer r ≡ no_reservation
    → Raises s tenant other (s, r)
Raises-nothing s tenant other r h =
    (rw h (omega arith), rw h (omega arith), rw h (ground (arith, str_eq_iff tenant other)))

promise-Raises :
    (s : RetainedState) (tenant other : List ℕ) (r : RetainedReservation)
    → Raises s tenant other (with_promise s tenant r, ok r)
unfolding with_promise
promise-Raises s tenant other r = (refl, refl, reserved-with_promise s tenant other r)

reserve-Raises :
    (limits : RetainedLimits) (s : RetainedState) (tenant other : List ℕ)
    (origin : Option SessionKey) (message : BrokerMessage)
    → Raises s tenant other (reserve_retained s tenant origin message limits)
unfolding reserve_retained
reserve-Raises limits s tenant other origin message =
    let full = reservation_of (retained_charge message origin) in
    elim (Bool-cases (not message.retain || no_payload message)) [
      | inl nothing ↦ rw nothing (Raises-nothing s tenant other (ok no_reservation) refl)
      | inr wanted ↦
          elim (Bool-cases (
            ltb limits.max_retained_message_bytes (length message.payload)
            || promise_refused s tenant full limits)) [
              | inl refused ↦
                  rw (wanted, refused) (Raises-nothing s tenant other (err overloaded) refl)
              | inr fits ↦ rw (wanted, fits) (promise-Raises s tenant other full)
            ]
    ]

-- A reservation granted and released at once.
abbrev pub reserved_and_released :
    RetainedLimits
    → RetainedState
    → List ℕ
    → Option SessionKey
    → BrokerMessage
    → RetainedReservation
    → RetainedState
reserved_and_released limits s tenant origin message r =
    release_retained_reservation (reserve_retained s tenant origin message limits).0 tenant r

-- The accounts of reservations are the same again.
abbrev pub GivenBack : RetainedState → RetainedState → List ℕ → Type 0
GivenBack s t other =
    (reserved_of_tenant t other ≡ reserved_of_tenant s other)
    × (t.retained_reserved_count ≡ s.retained_reserved_count)
    × (t.retained_reserved_bytes ≡ s.retained_reserved_bytes)

given_back :
    (limits : RetainedLimits) (s : RetainedState) (tenant other : List ℕ)
    (origin : Option SessionKey) (message : BrokerMessage)
    → GivenBack s
        (reserved_and_released limits s tenant origin message
          (answer (reserve_retained s tenant origin message limits).1))
        other
given_back limits s tenant other origin message =
    let after = (reserve_retained s tenant origin message limits).0 in
    let r = answer (reserve_retained s tenant origin message limits).1 in
    let (count, bytes) = released_counts after tenant r in
    let own = reserved-release after tenant other r in
    let (count_raised, bytes_raised, here) = reserve-Raises limits s tenant tenant origin message in
    let (count_too, bytes_too, there) = reserve-Raises limits s tenant other origin message in
    let same = ap (reserved_of_tenant s) {x = tenant} {y = other} in
    let self = beq_self tenant in
    (
      ground (arith, own, here, there, self, str_eq_iff tenant other, same),
      omega (arith, count, count_raised),
      omega (arith, bytes, bytes_raised),
    )

-- Releasing the reservation that `reserve_retained` has just granted gives the accounts of reservations
-- back as they were.
pub release-reserve :
    (limits : RetainedLimits) (s : RetainedState) (tenant other : List ℕ)
    (origin : Option SessionKey) (message : BrokerMessage) (r : RetainedReservation)
    → (reserve_retained s tenant origin message limits).1 ≡ ok r
    → GivenBack s (reserved_and_released limits s tenant origin message r) other
release-reserve limits s tenant other origin message r granted =
    subst (λ x. GivenBack s (reserved_and_released limits s tenant origin message x) other)
      (ap answer granted) (given_back limits s tenant other origin message)
