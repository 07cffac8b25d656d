-- ===== src/Broker/Accounts.antt =====
-- The accounts of crates/netbaiot-transports/src/mqtt/broker/state.rs are sums over the sessions'
-- recorded usages.
use netbaiot.Prelude.{
  Result, ℕ, ◌+◌, ◌-◌, ◌≤◌, ◌<◌, ◌≡◌, refl, ap, ◌∙◌, Option, some, List, arith, if◌then◌else◌,
  nat_eq, str_eq, string_eq, ok, err, ◌>>=◌, usize_limit,
}
use netbaiot.Prelude.Map.{lookup, Distinct}
use netbaiot.Message.{BrokerError, SessionKey, DeviceKey, device_key_eq, session_key_eq}
use netbaiot.Broker.{SessionUsage, TenantUsage, BrokerState, wake_eq}
use netbaiot.Prelude.Totals.{total}
use netbaiot.Broker.Usage.{
  apply_usage_delta, usage_or_default, tenant_or_default, count_or_default, present, moved_usage,
  tenant_of,
}

-- The seven accounts of a tenant.
pub data Measure : Type 0 where
  session_count : Measure
  session_bytes : Measure
  subscription_count : Measure
  offline_count : Measure
  offline_bytes : Measure
  qos1_inflight : Measure
  qos2_inflight : Measure

abbrev pub tenant_measure : Measure → TenantUsage → ℕ
tenant_measure session_count u = u.session_count
tenant_measure session_bytes u = u.session_bytes
tenant_measure subscription_count u = u.subscription_count
tenant_measure offline_count u = u.offline_count
tenant_measure offline_bytes u = u.offline_bytes
tenant_measure qos1_inflight u = u.qos1_inflight
tenant_measure qos2_inflight u = u.qos2_inflight

abbrev pub measure : Measure → Option SessionUsage → ℕ
measure session_count o = present o
measure session_bytes o = (usage_or_default o).state_bytes
measure subscription_count o = (usage_or_default o).subscriptions
measure offline_count o = (usage_or_default o).offline_count
measure offline_bytes o = (usage_or_default o).offline_bytes
measure qos1_inflight o = (usage_or_default o).qos1_inflight
measure qos2_inflight o = (usage_or_default o).qos2_inflight

abbrev pub tenant_weight : Measure → List ℕ → SessionKey → SessionUsage → ℕ
tenant_weight x tenant key usage =
    if str_eq (tenant_of key) tenant then measure x (some usage) else 0

abbrev pub device_weight : DeviceKey → SessionKey → SessionUsage → ℕ
device_weight device key usage =
    if device_key_eq.beq key.device device then usage.subscriptions else 0

-- Each tenant's account is the sum of its sessions' usages, each device's count that of its
-- subscriptions.
pub record IsAccounted (state : BrokerState) : Type 0 where
  pub distinct : Distinct state.session_usage
  pub tenants :
      (x : Measure) (tenant : List ℕ)
      → tenant_measure x (tenant_or_default (lookup tenant state.tenant_usage))
        ≡ total (tenant_weight x tenant) state.session_usage
  pub devices :
      (device : DeviceKey)
      → count_or_default (lookup device state.device_subscription_count)
        ≡ total (device_weight device) state.session_usage

pub delta-balance :
    (value before after moved : ℕ)
    → apply_usage_delta value before after ≡ ok moved
    → moved + before ≡ value + after
unfolding apply_usage_delta
delta-balance value before after moved h = ground (arith, h)

pub delta-fits :
    (value before after : ℕ)
    → before ≤ value
    → value + after < usize_limit
    → apply_usage_delta value before after ≡ ok (value + after - before)
unfolding apply_usage_delta
delta-fits value before after h k = ground arith

abbrev value_of : Result BrokerError ℕ → ℕ
value_of (ok a) = a
value_of (err e) = 0

-- The seven binds of `moved_usage`.
seven-ok :
    (p q r s t v w : Result BrokerError ℕ) (f : ℕ → ℕ → ℕ → ℕ → ℕ → ℕ → ℕ → TenantUsage)
    (u : TenantUsage)
    → (p >>= λ a.
        q >>= λ b. r >>= λ c. s >>= λ d. t >>= λ e. v >>= λ g. w >>= λ k. ok (f a b c d e g k))
      ≡ ok u
    → (p ≡ ok (value_of p))
      × (q ≡ ok (value_of q))
      × (r ≡ ok (value_of r))
      × (s ≡ ok (value_of s))
      × (t ≡ ok (value_of t))
      × (v ≡ ok (value_of v))
      × (w ≡ ok (value_of w))
      × (f
            (value_of p)
            (value_of q)
            (value_of r)
            (value_of s)
            (value_of t)
            (value_of v)
            (value_of w)
          ≡ u)
seven-ok (err x) q r s t v w f u h = cc
seven-ok (ok a) (err x) r s t v w f u h = cc
seven-ok (ok a) (ok b) (err x) s t v w f u h = cc
seven-ok (ok a) (ok b) (ok c) (err x) t v w f u h = cc
seven-ok (ok a) (ok b) (ok c) (ok d) (err x) v w f u h = cc
seven-ok (ok a) (ok b) (ok c) (ok d) (ok e) (err x) w f u h = cc
seven-ok (ok a) (ok b) (ok c) (ok d) (ok e) (ok g) (err x) f u h = cc
seven-ok (ok a) (ok b) (ok c) (ok d) (ok e) (ok g) (ok k) f u h =
    (refl, refl, refl, refl, refl, refl, refl, cc)

abbrev delta :
    TenantUsage → Option SessionUsage → Option SessionUsage → Measure → Result BrokerError ℕ
delta u before after x = apply_usage_delta (tenant_measure x u) (measure x before) (measure x after)

balance_at :
    (u built moved : TenantUsage) (before after : Option SessionUsage) (x : Measure)
    → delta u before after x ≡ ok (tenant_measure x built)
    → built ≡ moved
    → tenant_measure x moved + measure x before ≡ tenant_measure x u + measure x after
balance_at u built moved before after x h same =
    delta-balance (tenant_measure x u) (measure x before) (measure x after) (tenant_measure x moved)
      (h ∙ ap (λ z. ok (tenant_measure x z)) same)

pub moved_usage-balance :
    (u moved : TenantUsage) (before after : Option SessionUsage)
    → moved_usage u before after ≡ ok moved
    → (x : Measure)
    → tenant_measure x moved + measure x before ≡ tenant_measure x u + measure x after
unfolding moved_usage
moved_usage-balance u moved before after h =
    let d = delta u before after in
    let (p, q, r, s, t, v, w, same) =
      seven-ok (d session_count) (d session_bytes) (d subscription_count) (d offline_count)
        (d offline_bytes) (d qos1_inflight) (d qos2_inflight) _ moved h in
    λ x.
      elim x
        as (λ k. tenant_measure k moved + measure k before ≡ tenant_measure k u + measure k after) [
          | session_count ↦ balance_at u _ moved before after session_count p same
          | session_bytes ↦ balance_at u _ moved before after session_bytes q same
          | subscription_count ↦ balance_at u _ moved before after subscription_count r same
          | offline_count ↦ balance_at u _ moved before after offline_count s same
          | offline_bytes ↦ balance_at u _ moved before after offline_bytes t same
          | qos1_inflight ↦ balance_at u _ moved before after qos1_inflight v same
          | qos2_inflight ↦ balance_at u _ moved before after qos2_inflight w same
        ]

abbrev shifted : TenantUsage → Option SessionUsage → Option SessionUsage → TenantUsage
shifted u before after =
    let at : Measure → ℕ = λ x. tenant_measure x u + measure x after - measure x before in
    record {
      session_count = at session_count;
      session_bytes = at session_bytes;
      subscription_count = at subscription_count;
      offline_count = at offline_count;
      offline_bytes = at offline_bytes;
      qos1_inflight = at qos1_inflight;
      qos2_inflight = at qos2_inflight;
    }

-- No account falls below the usage that leaves it, and none passes the machine's bound.
pub moved_usage-fits :
    (u : TenantUsage) (before after : Option SessionUsage)
    → ((x : Measure) → measure x before ≤ tenant_measure x u)
    → ((x : Measure) → tenant_measure x u + measure x after < usize_limit)
    → (moved : TenantUsage) × (moved_usage u before after ≡ ok moved)
unfolding moved_usage
moved_usage-fits u before after within fits =
    let fit : (x : Measure)
        → delta u before after x ≡ ok (tenant_measure x u + measure x after - measure x before) =
      λ x.
        delta-fits (tenant_measure x u) (measure x before) (measure x after) (within x) (fits x) in
    (
      shifted u before after,
      rw
          (
            fit session_count,
            fit session_bytes,
            fit subscription_count,
            fit offline_count,
            fit offline_bytes,
            fit qos1_inflight,
            fit qos2_inflight,
          )
          refl,
    )
