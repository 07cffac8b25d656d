-- ===== src/Retained/Promise.antt =====
-- What is retained and what is reserved stay within the limits together, so that a reservation of
-- crates/netbaiot-transports/src/mqtt/broker/retained.rs is a promise that can be kept.
use netbaiot.Prelude.{
  ℕ, ◌+◌, ◌-◌, ◌≤◌, ◌<◌, ◌≡◌, refl, inl, inr, Bool, false, not, ◌||◌, Option, none, some, List,
  arith, ltb, if◌then◌else◌, Bool-cases, nat_eq, str_eq, str_eq_iff, string_eq, length, ok,
  usize_limit, saturating_add,
}
use netbaiot.Prelude.Map.{lookup, lookup-insert, lookup-remove, beq_self}
use netbaiot.Message.{DeviceKey, SessionKey, BrokerMessage}
use netbaiot.Broker.{RetainedReservation}
use netbaiot.Retained.{
  RetainedLimits, RetainedMessage, RetainedState, retained_charge, pair_or_default, no_payload,
  over_limits, check_retained_update, is_no_reservation, reservation_of, promise_refused,
  with_promise, reserve_retained, tenants_released, release_retained_reservation,
}

abbrev pub usage_of_tenant : RetainedState → List ℕ → ℕ × ℕ
usage_of_tenant s tenant = pair_or_default (lookup tenant s.retained_tenant_usage)

abbrev pub reserved_of_tenant : RetainedState → List ℕ → ℕ × ℕ
reserved_of_tenant s tenant = pair_or_default (lookup tenant s.retained_reserved_tenants)

-- Limits that the saturating sums do not reach.
pub record AreLimits (limits : RetainedLimits) : Type 0 where
  pub messages : limits.max_retained_messages + 1 < usize_limit
  pub tenant_messages : limits.max_retained_messages_per_tenant + 1 < usize_limit
  pub bytes : limits.max_retained_bytes + 1 < usize_limit
  pub tenant_bytes : limits.max_retained_bytes_per_tenant + 1 < usize_limit

pub record IsWithin (limits : RetainedLimits) (s : RetainedState) : Type 0 where
  pub messages : length s.retained + s.retained_reserved_count ≤ limits.max_retained_messages
  pub bytes : s.retained_bytes + s.retained_reserved_bytes ≤ limits.max_retained_bytes
  pub tenant_messages :
      (tenant : List ℕ)
      → (usage_of_tenant s tenant).0 + (reserved_of_tenant s tenant).0
        ≤ limits.max_retained_messages_per_tenant
  pub tenant_bytes :
      (tenant : List ℕ)
      → (usage_of_tenant s tenant).1 + (reserved_of_tenant s tenant).1
        ≤ limits.max_retained_bytes_per_tenant

-- A reservation that the accounts of reservations contain.
abbrev pub Holds : RetainedState → List ℕ → RetainedReservation → Type 0
Holds s tenant r =
    (r.global_count ≤ s.retained_reserved_count)
    × (r.global_bytes ≤ s.retained_reserved_bytes)
    × (r.tenant_count ≤ (reserved_of_tenant s tenant).0)
    × (r.tenant_bytes ≤ (reserved_of_tenant s tenant).1)

pub reserved-with_promise :
    (s : RetainedState) (tenant other : List ℕ) (r : RetainedReservation)
    → reserved_of_tenant (with_promise s tenant r) other ≡ (
        if str_eq tenant other
        then (
          (reserved_of_tenant s tenant).0 + r.tenant_count,
          (reserved_of_tenant s tenant).1 + r.tenant_bytes,
        )
        else reserved_of_tenant s other)
unfolding with_promise
reserved-with_promise s tenant other r = ground (
  arith,
  lookup-insert tenant other
      (
        (reserved_of_tenant s tenant).0 + r.tenant_count,
        (reserved_of_tenant s tenant).1 + r.tenant_bytes,
      )
      s.retained_reserved_tenants,
)

pub four_false :
    (a b c d : Bool)
    → (a || b || c || d) ≡ false
    → (a ≡ false) × (b ≡ false) × (c ≡ false) × (d ≡ false)
four_false a b c d h = (ground arith, ground arith, ground arith, ground arith)

pub sum_within :
    (a b c limit : ℕ)
    → limit + 1 < usize_limit
    → ltb limit (saturating_add (saturating_add a b) c) ≡ false
    → a + b + c ≤ limit
sum_within a b c limit h k = ground arith

-- What a reservation that is not refused adds stays within the limits.
granted_within :
    (limits : RetainedLimits) (s : RetainedState) (tenant : List ℕ) (r : RetainedReservation)
    → AreLimits limits
    → promise_refused s tenant r limits ≡ false
    → (length s.retained + s.retained_reserved_count + r.global_count
        ≤ limits.max_retained_messages)
      × (s.retained_bytes + s.retained_reserved_bytes + r.global_bytes ≤ limits.max_retained_bytes)
      × ((usage_of_tenant s tenant).0 + (reserved_of_tenant s tenant).0 + r.tenant_count
          ≤ limits.max_retained_messages_per_tenant)
      × ((usage_of_tenant s tenant).1 + (reserved_of_tenant s tenant).1 + r.tenant_bytes
          ≤ limits.max_retained_bytes_per_tenant)
granted_within limits s tenant r sane granted =
    let (a, b, c, d) = four_false _ _ _ _ granted in
    (
      sum_within (length s.retained) s.retained_reserved_count r.global_count
          limits.max_retained_messages sane.messages a,
      sum_within s.retained_bytes s.retained_reserved_bytes r.global_bytes limits.max_retained_bytes
          sane.bytes b,
      sum_within (usage_of_tenant s tenant).0 (reserved_of_tenant s tenant).0 r.tenant_count
          limits.max_retained_messages_per_tenant sane.tenant_messages c,
      sum_within (usage_of_tenant s tenant).1 (reserved_of_tenant s tenant).1 r.tenant_bytes
          limits.max_retained_bytes_per_tenant sane.tenant_bytes d,
    )

with_promise-IsWithin :
    (limits : RetainedLimits) (s : RetainedState) (tenant : List ℕ) (r : RetainedReservation)
    → AreLimits limits
    → IsWithin limits s
    → promise_refused s tenant r limits ≡ false
    → IsWithin limits (with_promise s tenant r)
unfolding with_promise
with_promise-IsWithin limits s tenant r sane within granted =
    let (messages, bytes, tenant_messages, tenant_bytes) =
      granted_within limits s tenant r sane granted in
    record {
      messages = omega (arith, messages);
      bytes = omega (arith, bytes);
      tenant_messages = λ other. ground (
        arith,
        reserved-with_promise s tenant other r,
        str_eq_iff tenant other,
        tenant_messages,
        within.tenant_messages other,
      );
      tenant_bytes = λ other. ground (
        arith,
        reserved-with_promise s tenant other r,
        str_eq_iff tenant other,
        tenant_bytes,
        within.tenant_bytes other,
      );
    }

reserved-tenants_released :
    (s : RetainedState) (tenant other : List ℕ) (r : RetainedReservation) (found : Option (ℕ × ℕ))
    → lookup tenant s.retained_reserved_tenants ≡ found
    → pair_or_default (lookup other (tenants_released tenant r found s.retained_reserved_tenants))
      ≡ (if str_eq tenant other
          then (
            (pair_or_default found).0 - r.tenant_count,
            (pair_or_default found).1 - r.tenant_bytes,
          )
          else reserved_of_tenant s other)
reserved-tenants_released s tenant other r none found =
    ground (arith, found, str_eq_iff tenant other)
reserved-tenants_released s tenant other r (some (count, bytes)) found = ground (
  arith,
  lookup-remove tenant other s.retained_reserved_tenants,
  lookup-insert tenant other (count - r.tenant_count, bytes - r.tenant_bytes)
      s.retained_reserved_tenants,
)

pub reserved-release :
    (s : RetainedState) (tenant other : List ℕ) (r : RetainedReservation)
    → reserved_of_tenant (release_retained_reservation s tenant r) other ≡ (
        if str_eq tenant other
        then (
          (reserved_of_tenant s tenant).0 - r.tenant_count,
          (reserved_of_tenant s tenant).1 - r.tenant_bytes,
        )
        else reserved_of_tenant s other)
unfolding release_retained_reservation
reserved-release s tenant other r = elim (Bool-cases (is_no_reservation r)) [
  | inl nothing ↦ ground (arith, nothing, str_eq_iff tenant other)
  | inr something ↦
      rw something (
        reserved-tenants_released s tenant other r (lookup tenant s.retained_reserved_tenants) refl)
]

pub released_counts :
    (s : RetainedState) (tenant : List ℕ) (r : RetainedReservation)
    → ((release_retained_reservation s tenant r).retained_reserved_count
        ≡ s.retained_reserved_count - r.global_count)
      × ((release_retained_reservation s tenant r).retained_reserved_bytes
          ≡ s.retained_reserved_bytes - r.global_bytes)
unfolding release_retained_reservation
released_counts s tenant r = elim (Bool-cases (is_no_reservation r)) [
  | inl nothing ↦ (ground (arith, nothing), ground (arith, nothing))
  | inr something ↦ rw something (refl, refl)
]

released_rest :
    (s : RetainedState) (tenant : List ℕ) (r : RetainedReservation)
    → ((release_retained_reservation s tenant r).retained ≡ s.retained)
      × ((release_retained_reservation s tenant r).retained_bytes ≡ s.retained_bytes)
      × ((release_retained_reservation s tenant r).retained_tenant_usage ≡ s.retained_tenant_usage)
unfolding release_retained_reservation
released_rest s tenant r = elim (Bool-cases (is_no_reservation r)) [
  | inl nothing ↦ rw nothing (refl, refl, refl)
  | inr something ↦ rw something (refl, refl, refl)
]

-- Giving a reservation back keeps the limits.
pub release-IsWithin :
    (limits : RetainedLimits) (s : RetainedState) (tenant : List ℕ) (r : RetainedReservation)
    → IsWithin limits s
    → IsWithin limits (release_retained_reservation s tenant r)
release-IsWithin limits s tenant r within =
    let (count, reserved_bytes) = released_counts s tenant r in
    let (retained, bytes, usage) = released_rest s tenant r in
    record {
      messages = rw (count, retained) (omega (arith, within.messages));
      bytes = rw (reserved_bytes, bytes) (omega (arith, within.bytes));
      tenant_messages = λ other. rw usage (
          ground (
            arith,
            reserved-release s tenant other r,
            str_eq_iff tenant other,
            within.tenant_messages other,
          ));
      tenant_bytes = λ other. rw usage (
          ground (
            arith,
            reserved-release s tenant other r,
            str_eq_iff tenant other,
            within.tenant_bytes other,
          ));
    }

-- A reservation that is granted keeps the limits and is held.
pub reserve-IsWithin :
    (limits : RetainedLimits) (s : RetainedState) (tenant : List ℕ) (origin : Option SessionKey)
    (message : BrokerMessage)
    → AreLimits limits
    → IsWithin limits s
    → IsWithin limits (reserve_retained s tenant origin message limits).0
unfolding reserve_retained
reserve-IsWithin limits s tenant origin message sane within =
    let r = reservation_of (retained_charge message origin) in
    elim (Bool-cases (not message.retain || no_payload message)) [
      | inl nothing ↦ rw nothing within
      | inr wanted ↦
          elim (Bool-cases (
            ltb limits.max_retained_message_bytes (length message.payload)
            || promise_refused s tenant r limits)) [
              | inl refused ↦ rw (wanted, refused) within
              | inr granted ↦
                  let fits : promise_refused s tenant r limits ≡ false = ground (arith, granted) in
                  rw (wanted, granted) (with_promise-IsWithin limits s tenant r sane within fits)
            ]
    ]

-- Room for one more message leaves `check_retained_update` nothing to refuse, whatever it replaces.
room_suffices :
    (limits : RetainedLimits) (s : RetainedState) (tenant : List ℕ)
    (existing : Option RetainedMessage) (new : ℕ)
    → AreLimits limits
    → length s.retained + s.retained_reserved_count + 1 ≤ limits.max_retained_messages
    → s.retained_bytes + s.retained_reserved_bytes + new ≤ limits.max_retained_bytes
    → (usage_of_tenant s tenant).0 + (reserved_of_tenant s tenant).0 + 1
      ≤ limits.max_retained_messages_per_tenant
    → (usage_of_tenant s tenant).1 + (reserved_of_tenant s tenant).1 + new
      ≤ limits.max_retained_bytes_per_tenant
    → over_limits s tenant existing new limits ≡ false
room_suffices limits s tenant none new sane a b c d =
    ground (arith, sane.messages, sane.tenant_messages, sane.bytes, sane.tenant_bytes)
room_suffices limits s tenant (some old) new sane a b c d =
    ground (arith, sane.messages, sane.tenant_messages, sane.bytes, sane.tenant_bytes)

-- Where what is retained and reserved is within the limits and the reservations contain one for a
-- message that is not too long: once that one is released, the message may be retained, whatever is
-- retained under its topic by then.
pub promise_kept :
    (limits : RetainedLimits) (s : RetainedState) (owner : DeviceKey) (origin : Option SessionKey)
    (message : BrokerMessage)
    → AreLimits limits
    → IsWithin limits s
    → Holds s owner.tenant_id (reservation_of (retained_charge message origin))
    → length message.payload ≤ limits.max_retained_message_bytes
    → check_retained_update
        (release_retained_reservation s owner.tenant_id
          (reservation_of (retained_charge message origin)))
        owner
        origin
        message
        limits
      ≡ ok tt
unfolding check_retained_update
promise_kept limits s owner origin message sane within holds short =
    let r = reservation_of (retained_charge message origin) in
    let after = release_retained_reservation s owner.tenant_id r in
    let (count, reserved_bytes) = released_counts s owner.tenant_id r in
    let (retained, bytes, usage) = released_rest s owner.tenant_id r in
    let own = reserved-release s owner.tenant_id owner.tenant_id r in
    let self = beq_self owner.tenant_id in
    let tenant_messages = within.tenant_messages owner.tenant_id in
    let tenant_bytes = within.tenant_bytes owner.tenant_id in
    let (held_count, held_bytes, held_tenant_count, held_tenant_bytes) = holds in
    let allowed =
      room_suffices limits after owner.tenant_id (lookup message.topic after.retained)
        (retained_charge message origin) sane
        (rw (count, retained) (omega (arith, within.messages, held_count)))
        (rw (reserved_bytes, bytes) (omega (arith, within.bytes, held_bytes)))
        (rw usage (ground (arith, own, self, tenant_messages, held_tenant_count)))
        (rw usage (ground (arith, own, self, tenant_bytes, held_tenant_bytes))) in
    ground (arith, allowed, short)
