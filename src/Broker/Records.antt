-- ===== src/Broker/Records.antt =====
-- `sync_session_usage` of crates/netbaiot-transports/src/mqtt/broker/state.rs succeeds within the bounds
-- of `usize` and records the session's usage.
use netbaiot.Prelude.{
  Result, ℕ, ◌+◌, ◌≤◌, ◌<◌, ◌≡◌, refl, sym, ap, ◌∙◌, inl, inr, true, Option, none, some, List, [],
  ◌∷◌, arith, if◌then◌else◌, Bool-cases, Option-cases, Eq, nat_eq, str_eq_iff, string_eq, ok,
  usize_limit,
}
use netbaiot.Prelude.Map.{lookup, lookup-insert, lookup-remove, beq_self}
use netbaiot.Message.{
  BrokerError, SessionKey, DeviceKey, device_key_eq, device_key_beq_iff, session_key_eq,
  session_key_beq_iff,
}
use netbaiot.Broker.{SessionUsage, BrokerState, wake_eq}
use netbaiot.Broker.Usage.{
  usage_of, usage_or_default, count_or_default, same_fields, same_usage, tenant_of, woken,
  stored_session_usage, stored, filed_deadlines, account_usage, sync_session_usage, own_usage,
}
use netbaiot.Prelude.Totals.{total, entry-within}
use netbaiot.Broker.Accounts.{
  Measure, subscription_count, tenant_measure, measure, tenant_weight, device_weight, IsAccounted,
  delta-fits, moved_usage-fits,
}
use netbaiot.Broker.Sums.{weight_of}

same_fields-equal : (a b : SessionUsage) → same_fields a b ≡ true → a ≡ b
same_fields-equal a b h =
    let h_state_bytes : a.state_bytes ≡ b.state_bytes = ground (arith, h) in
    let h_subscriptions : a.subscriptions ≡ b.subscriptions = ground (arith, h) in
    let h_offline_count : a.offline_count ≡ b.offline_count = ground (arith, h) in
    let h_offline_bytes : a.offline_bytes ≡ b.offline_bytes = ground (arith, h) in
    let h_qos1_inflight : a.qos1_inflight ≡ b.qos1_inflight = ground (arith, h) in
    let h_qos2_inflight : a.qos2_inflight ≡ b.qos2_inflight = ground (arith, h) in
    λ i. record {
      state_bytes = h_state_bytes i;
      subscriptions = h_subscriptions i;
      offline_count = h_offline_count i;
      offline_bytes = h_offline_bytes i;
      qos1_inflight = h_qos1_inflight i;
      qos2_inflight = h_qos2_inflight i;
    }

same_usage-equal : (a b : Option SessionUsage) → same_usage a b ≡ true → a ≡ b
same_usage-equal none none h = refl
same_usage-equal none (some b) h = cc
same_usage-equal (some a) none h = cc
same_usage-equal (some a) (some b) h = ap some (same_fields-equal a b h)

total-less :
    {K V : Type 0} ⦃e : Eq K⦄ (lower upper : K → V → ℕ) (m : List (K × V))
    → ((k : K) (v : V) → lower k v ≤ upper k v)
    → total lower m ≤ total upper m
unfolding total
total-less lower upper [] h = omega arith
total-less lower upper ((k, v) ∷ m) h = omega (arith, h k v, total-less lower upper m h)

device_weight-less :
    (key : SessionKey) (k : SessionKey) (u : SessionUsage)
    → device_weight key.device k u ≤ tenant_weight subscription_count (tenant_of key) k u
device_weight-less key k u = ground (
  arith,
  device_key_beq_iff k.device key.device,
  λ (h : k.device ≡ key.device). ap DeviceKey.tenant_id h,
  str_eq_iff (tenant_of k) (tenant_of key),
)

-- The call's answer, and the record of a session after it.
abbrev pub Records :
    BrokerState → SessionKey → BrokerState × Result BrokerError (Unit {0}) → SessionKey → Type 0
Records state key r j =
    (r.1 ≡ ok tt)
    × (lookup j r.0.session_usage ≡ (
        if session_key_eq.beq key j
        then usage_of (lookup key state.sessions)
        else lookup j state.session_usage))

recorded_already :
    (key j : SessionKey) (after : Option SessionUsage) (m : List (SessionKey × SessionUsage))
    → lookup key m ≡ after
    → lookup j m ≡ (if session_key_eq.beq key j then after else lookup j m)
recorded_already key j after m h = elim (Bool-cases (session_key_eq.beq key j)) [
  | inl equal ↦ rw equal (ap (λ k. lookup k m) (sym ((session_key_beq_iff key j).0 equal)) ∙ h)
  | inr other ↦ rw other refl
]

module _ (state : BrokerState) (accounted : IsAccounted state) (key : SessionKey) where
  held_within :
      (x : Measure)
      → measure x (lookup key state.session_usage) ≤ tenant_measure x (own_usage state key)
  held_within x =
      let old = weight_of x (tenant_of key) key (lookup key state.session_usage) in
      let within = entry-within (tenant_weight x (tenant_of key)) key state.session_usage in
      let here = accounted.tenants x (tenant_of key) in
      ground (arith, old, within, here, beq_self (tenant_of key))

  device_within :
      (usage_or_default (lookup key state.session_usage)).subscriptions
      ≤ count_or_default (lookup key.device state.device_subscription_count)
  device_within =
      let within = entry-within (device_weight key.device) key state.session_usage in
      let here = accounted.devices key.device in
      elim (Option-cases (lookup key state.session_usage)) [
        | inl absent ↦ rw absent (omega arith)
        | inr (u, found) ↦ ground (arith, found, within, here, beq_self key.device)
      ]

  device_below_tenant :
      count_or_default (lookup key.device state.device_subscription_count)
      ≤ tenant_measure subscription_count (own_usage state key)
  device_below_tenant = omega (
    arith,
    accounted.devices key.device,
    accounted.tenants subscription_count (tenant_of key),
    total-less (device_weight key.device) (tenant_weight subscription_count (tenant_of key))
        state.session_usage (device_weight-less key),
  )

  -- Where the call succeeds, the session's usage is on record and the others' are as they were.
  stored-records :
      (j : SessionKey) (after : Option SessionUsage)
      → lookup j (stored_session_usage key after state.session_usage)
        ≡ (if session_key_eq.beq key j then after else lookup j state.session_usage)
  stored-records j none = lookup-remove key j state.session_usage
  stored-records j (some u) = lookup-insert key j u state.session_usage

  account_usage-Records :
      (j : SessionKey)
      → ((x : Measure)
          → tenant_measure x (own_usage state key)
              + measure x (usage_of (lookup key state.sessions))
            < usize_limit)
      → Records state key
          (account_usage state key
            (lookup key state.session_usage)
            (usage_of (lookup key state.sessions)))
          j
  unfolding account_usage stored woken
  account_usage-Records j fits =
      let before = lookup key state.session_usage in
      let after = usage_of (lookup key state.sessions) in
      let (moved, h) = moved_usage-fits (own_usage state key) before after held_within fits in
      let k =
        delta-fits (count_or_default (lookup key.device state.device_subscription_count))
          (usage_or_default before).subscriptions (usage_or_default after).subscriptions
          device_within (omega (arith, fits subscription_count, device_below_tenant)) in
      rw (h, k) (refl, stored-records j after)

-- Where the accounts hold and those of the session's tenant have room for its usage within a `usize`,
-- a call of `sync_session_usage` succeeds, records the session's present usage, and leaves the records
-- of the others.
pub sync_session_usage-Records :
    (state : BrokerState) (key j : SessionKey)
    → IsAccounted state
    → ((x : Measure)
        → tenant_measure x (own_usage state key) + measure x (usage_of (lookup key state.sessions))
          < usize_limit)
    → Records state key (sync_session_usage state key) j
unfolding sync_session_usage filed_deadlines
sync_session_usage-Records state key j accounted fits =
    let filed = filed_deadlines state key in
    let same : IsAccounted filed = record {
      distinct = accounted.distinct;
      tenants = accounted.tenants;
      devices = accounted.devices;
    } in
    let before = lookup key state.session_usage in
    let after = usage_of (lookup key state.sessions) in
    elim (Bool-cases (same_usage before after)) [
      | inl equal ↦ rw equal (
        refl,
        recorded_already key j after state.session_usage (same_usage-equal before after equal),
      )
      | inr changed ↦ rw changed (account_usage-Records filed same key j fits)
    ]
