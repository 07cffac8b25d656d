-- ===== src/Broker/Sums.antt =====
-- `sync_session_usage` of crates/netbaiot-transports/src/mqtt/broker/state.rs keeps the accounts.
use netbaiot.Prelude.{
  Result, ℕ, ◌+◌, ◌≡◌, refl, sym, ap, ◌∙◌, inl, inr, Option, none, some, List, arith, ◌==◌,
  if◌then◌else◌, ==_iff, Bool-cases, nat_eq, str_eq, str_eq_iff, string_eq, ok, err,
}
use netbaiot.Prelude.Map.{
  lookup, Distinct, lookup-insert, lookup-remove, insert-Distinct, remove-Distinct, beq_self,
}
use netbaiot.Message.{
  BrokerError, SessionKey, DeviceKey, device_key_eq, device_key_beq_iff, session_key_eq,
}
use netbaiot.Broker.{SessionUsage, TenantUsage, BrokerState, wake_eq}
use netbaiot.Broker.Usage.{
  apply_usage_delta, usage_of, usage_or_default, tenant_or_default, count_or_default, same_usage,
  moved_usage, tenant_of, woken, stored_session_usage, stored_tenant_usage, stored_count, stored,
  filed_deadlines, account_usage, sync_session_usage, counted, subscription_delta, account_moved,
  own_usage,
}
use netbaiot.Prelude.Totals.{total, entry_weight, total-insert, total-remove, total-vanishes}
use netbaiot.Broker.Accounts.{
  Measure, session_count, session_bytes, subscription_count, offline_count, offline_bytes,
  qos1_inflight, qos2_inflight, tenant_measure, measure, tenant_weight, device_weight, IsAccounted,
  delta-balance, moved_usage-balance,
}

total-stored :
    (weight : SessionKey → SessionUsage → ℕ) (key : SessionKey) (after : Option SessionUsage)
    (m : List (SessionKey × SessionUsage))
    → Distinct m
    → total weight (stored_session_usage key after m) + entry_weight weight key (lookup key m)
      ≡ total weight m + entry_weight weight key after
total-stored weight key none m d = omega (arith, total-remove weight key m d)
total-stored weight key (some u) m d = total-insert weight key u m

stored-Distinct :
    (key : SessionKey) (after : Option SessionUsage) (m : List (SessionKey × SessionUsage))
    → Distinct m
    → Distinct (stored_session_usage key after m)
stored-Distinct key none m d = remove-Distinct key m d
stored-Distinct key (some u) m d = insert-Distinct key u m d

measure-none : (x : Measure) → measure x none ≡ 0
measure-none session_count = refl
measure-none session_bytes = refl
measure-none subscription_count = refl
measure-none offline_count = refl
measure-none offline_bytes = refl
measure-none qos1_inflight = refl
measure-none qos2_inflight = refl

-- What a session weighs in a tenant's account.
pub weight_of :
    (x : Measure) (tenant : List ℕ) (key : SessionKey) (o : Option SessionUsage)
    → entry_weight (tenant_weight x tenant) key o
      ≡ (if str_eq (tenant_of key) tenant then measure x o else 0)
weight_of x tenant key none = ground (arith, measure-none x)
weight_of x tenant key (some u) = refl

-- A tenant without sessions has nothing in its accounts.
no_sessions :
    (x : Measure) (tenant : List ℕ) (m : List (SessionKey × SessionUsage))
    → total (tenant_weight session_count tenant) m ≡ 0
    → total (tenant_weight x tenant) m ≡ 0
no_sessions x tenant m z =
    total-vanishes (tenant_weight session_count tenant) (tenant_weight x tenant) m
      (λ k v h. ground arith) z

pub tenant_measure_default : (x : Measure) → tenant_measure x (tenant_or_default none) ≡ 0
tenant_measure_default session_count = refl
tenant_measure_default session_bytes = refl
tenant_measure_default subscription_count = refl
tenant_measure_default offline_count = refl
tenant_measure_default offline_bytes = refl
tenant_measure_default qos1_inflight = refl
tenant_measure_default qos2_inflight = refl

lookup-stored_tenant :
    (own tenant : List ℕ) (u : TenantUsage) (m : List (List ℕ × TenantUsage))
    → lookup tenant (stored_tenant_usage own u m) ≡ (
        if str_eq own tenant
        then (if u.session_count == 0 then none else some u)
        else lookup tenant m)
lookup-stored_tenant own tenant u m =
    ground (arith, lookup-remove own tenant m, lookup-insert own tenant u m)

lookup-stored_count :
    (own device : DeviceKey) (n : ℕ) (m : List (DeviceKey × ℕ))
    → count_or_default (lookup device (stored_count own n m))
      ≡ (if device_key_eq.beq own device then n else count_or_default (lookup device m))
lookup-stored_count own device n m = elim (Bool-cases (n == 0)) [
  | inl zero_left ↦ ground (arith, zero_left, lookup-remove own device m)
  | inr some_left ↦ ground (arith, some_left, lookup-insert own device n m)
]

module _ (state : BrokerState) (accounted : IsAccounted state) (key : SessionKey) where
  abbrev before : Option SessionUsage
  before = lookup key state.session_usage

  abbrev own : TenantUsage
  own = tenant_or_default (lookup (tenant_of key) state.tenant_usage)

  own-total :
      (after : Option SessionUsage) (moved : TenantUsage)
      → moved_usage own before after ≡ ok moved
      → (x : Measure)
      → tenant_measure x moved
        ≡ total
            (tenant_weight x (tenant_of key))
            (stored_session_usage key after state.session_usage)
  own-total after moved h x =
      let balance = moved_usage-balance own moved before after h x in
      let sum =
        total-stored (tenant_weight x (tenant_of key)) key after state.session_usage
          accounted.distinct in
      let old = weight_of x (tenant_of key) key before in
      let new = weight_of x (tenant_of key) key after in
      let self = beq_self (tenant_of key) in
      let here = accounted.tenants x (tenant_of key) in
      ground (arith, balance, sum, old, new, self, here)

  stored-own :
      (after : Option SessionUsage) (moved : TenantUsage)
      → moved_usage own before after ≡ ok moved
      → (x : Measure) (tenant : List ℕ) → tenant_of key ≡ tenant
      → tenant_measure x (
          tenant_or_default
            (lookup tenant (stored_tenant_usage (tenant_of key) moved state.tenant_usage)))
        ≡ total (tenant_weight x tenant) (stored_session_usage key after state.session_usage)
  stored-own after moved h x tenant same =
      let usages = stored_session_usage key after state.session_usage in
      let sums : (y : Measure) → tenant_measure y moved ≡ total (tenant_weight y tenant) usages =
        λ y. own-total after moved h y ∙ ap (λ t. total (tenant_weight y t) usages) same in
      let found = lookup-stored_tenant (tenant_of key) tenant moved state.tenant_usage in
      let equal = (str_eq_iff (tenant_of key) tenant).1 same in
      ap (λ o. tenant_measure x (tenant_or_default o)) found
      ∙ elim (Bool-cases (moved.session_count == 0)) [
        | inl none_left ↦
            let z = sym (sums session_count) ∙ (==_iff moved.session_count 0).0 none_left in
            rw (equal, none_left) (tenant_measure_default x ∙ sym (no_sessions x tenant usages z))
        | inr some_left ↦ rw (equal, some_left) (sums x)
      ]

  stored-tenants :
      (after : Option SessionUsage) (moved : TenantUsage)
      → moved_usage own before after ≡ ok moved
      → (x : Measure) (tenant : List ℕ)
      → tenant_measure x (
          tenant_or_default
            (lookup tenant (stored_tenant_usage (tenant_of key) moved state.tenant_usage)))
        ≡ total (tenant_weight x tenant) (stored_session_usage key after state.session_usage)
  stored-tenants after moved h x tenant =
      let sum =
        total-stored (tenant_weight x tenant) key after state.session_usage accounted.distinct in
      let old = weight_of x tenant key before in
      let new = weight_of x tenant key after in
      let there = accounted.tenants x tenant in
      let found = lookup-stored_tenant (tenant_of key) tenant moved state.tenant_usage in
      elim (Bool-cases (str_eq (tenant_of key) tenant)) [
        | inl equal ↦
            stored-own after moved h x tenant ((str_eq_iff (tenant_of key) tenant).0 equal)
        | inr other ↦
            ap (λ o. tenant_measure x (tenant_or_default o)) found
            ∙ rw other (ground (arith, sum, old, new, there, other))
      ]

  device_weight_of :
      (device : DeviceKey) (o : Option SessionUsage)
      → entry_weight (device_weight device) key o
        ≡ (if device_key_eq.beq key.device device then (usage_or_default o).subscriptions else 0)
  device_weight_of device none = ground arith
  device_weight_of device (some u) = refl

  stored-devices :
      (after : Option SessionUsage) (subscriptions : ℕ)
      → apply_usage_delta
          (count_or_default (lookup key.device state.device_subscription_count))
          (usage_or_default before).subscriptions
          (usage_or_default after).subscriptions
        ≡ ok subscriptions
      → (device : DeviceKey)
      → count_or_default
          (lookup device (stored_count key.device subscriptions state.device_subscription_count))
        ≡ total (device_weight device) (stored_session_usage key after state.session_usage)
  stored-devices after subscriptions h device =
      let sum =
        total-stored (device_weight device) key after state.session_usage accounted.distinct in
      let old = device_weight_of device before in
      let new = device_weight_of device after in
      let there = accounted.devices device in
      let balance =
        delta-balance (count_or_default (lookup key.device state.device_subscription_count))
          (usage_or_default before).subscriptions (usage_or_default after).subscriptions
          subscriptions h in
      let found =
        lookup-stored_count key.device device subscriptions state.device_subscription_count in
      elim (Bool-cases (device_key_eq.beq key.device device)) [
        | inl equal ↦
            let same = (device_key_beq_iff key.device device).0 equal in
            let count =
              ap (λ d. count_or_default (lookup d state.device_subscription_count)) same in
            found ∙ ground (arith, sum, old, new, there, equal, balance, count)
        | inr other ↦ found ∙ ground (arith, sum, old, new, there, other)
      ]

  stored-IsAccounted :
      (after : Option SessionUsage) (moved : TenantUsage) (subscriptions : ℕ)
      → moved_usage own before after ≡ ok moved
      → apply_usage_delta
          (count_or_default (lookup key.device state.device_subscription_count))
          (usage_or_default before).subscriptions
          (usage_or_default after).subscriptions
        ≡ ok subscriptions
      → IsAccounted (stored (woken state (tenant_of key) moved) key after moved subscriptions)
  unfolding stored woken
  stored-IsAccounted after moved subscriptions h k = record {
    distinct = stored-Distinct key after state.session_usage accounted.distinct;
    tenants = stored-tenants after moved h;
    devices = stored-devices after subscriptions k;
  }

  woken-IsAccounted : (u : TenantUsage) → IsAccounted (woken state (tenant_of key) u)
  unfolding woken
  woken-IsAccounted u = record {
    distinct = accounted.distinct;
    tenants = accounted.tenants;
    devices = accounted.devices;
  }

  counted-IsAccounted :
      (after : Option SessionUsage) (moved : TenantUsage) (r : Result BrokerError ℕ)
      → moved_usage own before after ≡ ok moved
      → subscription_delta state key before after ≡ r
      → IsAccounted (counted state key after moved r).0
  counted-IsAccounted after moved (err e) h k = woken-IsAccounted moved
  counted-IsAccounted after moved (ok subscriptions) h k =
      stored-IsAccounted after moved subscriptions h k

  account_moved-IsAccounted :
      (after : Option SessionUsage) (r : Result BrokerError TenantUsage)
      → moved_usage own before after ≡ r
      → IsAccounted (account_moved state key before after r).0
  account_moved-IsAccounted after (err e) h = accounted
  account_moved-IsAccounted after (ok moved) h =
      counted-IsAccounted after moved (subscription_delta state key before after) h refl

-- A call of `sync_session_usage` keeps the accounts, also where it fails: each tenant's account is the
-- sum of its sessions' recorded usages, and each device's count that of its subscriptions.
pub sync_session_usage-IsAccounted :
    (state : BrokerState) (key : SessionKey)
    → IsAccounted state
    → IsAccounted (sync_session_usage state key).0
unfolding sync_session_usage filed_deadlines account_usage
sync_session_usage-IsAccounted state key accounted =
    let filed = filed_deadlines state key in
    let same : IsAccounted filed = record {
      distinct = accounted.distinct;
      tenants = accounted.tenants;
      devices = accounted.devices;
    } in
    let after = usage_of (lookup key state.sessions) in
    elim (Bool-cases (same_usage (lookup key state.session_usage) after)) [
      | inl equal ↦ rw equal same
      | inr changed ↦ rw changed (
          account_moved-IsAccounted filed same key after
            (moved_usage (own_usage filed key) (lookup key state.session_usage) after) refl)
    ]
