-- ===== src/Retained/Allowed.antt =====
-- What `check_retained_update` of crates/netbaiot-transports/src/mqtt/broker/retained.rs allows,
-- `update_retained` does, within the limits.
use netbaiot.Prelude.{
  ℕ, ◌+◌, ◌-◌, ◌≤◌, ◌≡◌, refl, false, not, ◌&&◌, Option, none, some, List, [], ◌∷◌, arith, ltb, leb,
  if◌then◌else◌, Eq, nat_eq, str_eq_iff, string_eq, length, saturating_add,
}
use netbaiot.Prelude.Map.{lookup, remove, Distinct}
use netbaiot.Prelude.Totals.{total, entry_weight, total-remove}
use netbaiot.Retained.{
  RetainedLimits, RetainedMessage, RetainedState, old_charge, same_tenant, is_absent, over_limits,
}
use netbaiot.Retained.Promise.{
  usage_of_tenant, reserved_of_tenant, AreLimits, IsWithin, four_false, sum_within,
}
use netbaiot.Retained.Tally.{IsTallied, lookup-lowered}
use netbaiot.Retained.Storing.{CountsOld, base_state}

pub length-total : {K V : Type 0} ⦃e : Eq K⦄ (m : List (K × V)) → length m ≡ total (λ k v. 1) m
unfolding total
length-total [] = refl
length-total ((k, v) ∷ m) = omega (arith, length-total m)

-- The usage of the tenants without the old message.
pub base-usage :
    (s : RetainedState) (topic : List ℕ) (old : Option RetainedMessage) (count bytes : ℕ)
    (tenant : List ℕ)
    → CountsOld s old count bytes
    → usage_of_tenant (base_state s topic old count bytes) tenant ≡ (
        if same_tenant old tenant
        then ((usage_of_tenant s tenant).0 - 1, (usage_of_tenant s tenant).1 - old_charge old)
        else usage_of_tenant s tenant)
base-usage s topic none count bytes tenant counted = refl
base-usage s topic (some old) count bytes tenant (present, some_left, enough, alone) = ground (
  arith,
  lookup-lowered old count bytes s.retained_tenant_usage tenant alone some_left,
  present,
  str_eq_iff old.tenant_id tenant,
)

-- A topic's entry is the only one that `remove` takes.
pub length-removed :
    (topic : List ℕ) (m : List (List ℕ × RetainedMessage))
    → Distinct m
    → length (remove topic m) + entry_weight (λ k v. 1) topic (lookup topic m) ≡ length m
length-removed topic m d =
    omega (arith, length-total m, length-total (remove topic m), total-remove (λ k v. 1) topic m d)

-- The four tests of `check_retained_update`, without saturation.
allowed_parts :
    (limits : RetainedLimits) (s : RetainedState) (tenant : List ℕ)
    (existing : Option RetainedMessage) (new : ℕ)
    → AreLimits limits
    → over_limits s tenant existing new limits ≡ false
    → let own_bytes = if same_tenant existing tenant then old_charge existing else 0 in
      ((is_absent existing
          && leb limits.max_retained_messages
              (saturating_add (length s.retained) s.retained_reserved_count))
        ≡ false)
      × ((not (same_tenant existing tenant)
            && leb limits.max_retained_messages_per_tenant
                (saturating_add (usage_of_tenant s tenant).0 (reserved_of_tenant s tenant).0))
          ≡ false)
      × (s.retained_bytes - old_charge existing + new + s.retained_reserved_bytes
          ≤ limits.max_retained_bytes)
      × ((usage_of_tenant s tenant).1 - own_bytes + new + (reserved_of_tenant s tenant).1
          ≤ limits.max_retained_bytes_per_tenant)
allowed_parts limits s tenant existing new sane allowed =
    let own_bytes : ℕ = if same_tenant existing tenant then old_charge existing else 0 in
    let (a, b, c, d) =
      four_false
        (is_absent existing
          && leb limits.max_retained_messages
              (saturating_add (length s.retained) s.retained_reserved_count))
        (not (same_tenant existing tenant)
          && leb limits.max_retained_messages_per_tenant
              (saturating_add (usage_of_tenant s tenant).0 (reserved_of_tenant s tenant).0))
        (ltb limits.max_retained_bytes (
          saturating_add (saturating_add (s.retained_bytes - old_charge existing) new)
            s.retained_reserved_bytes))
        (ltb limits.max_retained_bytes_per_tenant (
          saturating_add (saturating_add ((usage_of_tenant s tenant).1 - own_bytes) new)
            (reserved_of_tenant s tenant).1))
        allowed in
    (
      a,
      b,
      sum_within (s.retained_bytes - old_charge existing) new s.retained_reserved_bytes
          limits.max_retained_bytes sane.bytes c,
      sum_within ((usage_of_tenant s tenant).1 - own_bytes) new (reserved_of_tenant s tenant).1
          limits.max_retained_bytes_per_tenant sane.tenant_bytes d,
    )

-- What the answer of `check_retained_update` says of the state without the old message.
pub allowed_room :
    (limits : RetainedLimits) (s : RetainedState) (tenant topic : List ℕ)
    (old : Option RetainedMessage) (count bytes new : ℕ)
    → AreLimits limits
    → IsWithin limits s
    → IsTallied s
    → lookup topic s.retained ≡ old
    → CountsOld s old count bytes
    → over_limits s tenant old new limits ≡ false
    → let base = base_state s topic old count bytes in
      (length base.retained + s.retained_reserved_count + 1 ≤ limits.max_retained_messages)
      × (base.retained_bytes + new + s.retained_reserved_bytes ≤ limits.max_retained_bytes)
      × ((usage_of_tenant base tenant).0 + (reserved_of_tenant s tenant).0 + 1
          ≤ limits.max_retained_messages_per_tenant)
      × ((usage_of_tenant base tenant).1 + new + (reserved_of_tenant s tenant).1
          ≤ limits.max_retained_bytes_per_tenant)
allowed_room limits s tenant topic none count bytes new sane within tallied found counted allowed =
    let (a, b, c, d) = allowed_parts limits s tenant none new sane allowed in
    let fewer = length-removed topic s.retained tallied.distinct in
    (ground (arith, a, fewer, found), omega (arith, c), ground (arith, b), omega (arith, d))
allowed_room limits s tenant topic (some old) count bytes new sane within tallied found counted
      allowed =
    let (a, b, c, d) = allowed_parts limits s tenant (some old) new sane allowed in
    let fewer = length-removed topic s.retained tallied.distinct in
    let usage = base-usage s topic (some old) count bytes tenant counted in
    let (present, some_left, enough, alone) = counted in
    let same = str_eq_iff old.tenant_id tenant in
    (
      ground (arith, fewer, found, within.messages),
      omega (arith, c),
      ground (arith, b, usage, within.tenant_messages tenant, present, some_left, same),
      ground (arith, d, usage, same),
    )
