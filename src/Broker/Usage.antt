-- ===== src/Broker/Usage.antt =====
-- The usage accounts of crates/netbaiot-transports/src/mqtt/broker/state.rs, with the deadlines of
-- expiry.rs that `sync_session_usage` files. The second component is the call's result; an error leaves
-- the changes made before it.
use netbaiot.Prelude.{
  Result, ℕ, suc, ◌+◌, ◌-◌, Bool, true, false, ◌&&◌, Option, none, some, List, [], ◌∷◌, ltb, leb,
  ◌==◌, if◌then◌else◌, nat_eq, string_eq, length, ok, err, ◌>>=◌, ok_or, checked_add, checked_sub,
  saturating_add,
}
use netbaiot.Prelude.Map.{lookup, insert, remove}
use netbaiot.Prelude.Sets.{add}
use netbaiot.Message.{BrokerError, internal, SessionKey, DeviceKey, device_key_eq, session_key_eq}
use netbaiot.Broker.{
  OutboundState, await_puback, await_pubrec, await_pubcomp, StoredSession, SessionUsage,
  TenantUsage, BrokerState, wake_eq,
}
use netbaiot.Broker.Deadlines.{update}
use netbaiot.Broker.Expiry.{next_message_expiry, session_expiry_deadline}

unfoldable pub apply_usage_delta : ℕ → ℕ → ℕ → Result BrokerError ℕ
apply_usage_delta value before after =
    ok_or
      (if leb before after
        then checked_add value (after - before)
        else checked_sub value (before - after))
      internal

unfoldable pub count_qos1 : List (ℕ × OutboundState) → ℕ
count_qos1 [] = 0
count_qos1 ((id, await_puback m) ∷ outbound) = suc (count_qos1 outbound)
count_qos1 ((id, await_pubrec m) ∷ outbound) = count_qos1 outbound
count_qos1 ((id, await_pubcomp m) ∷ outbound) = count_qos1 outbound

unfoldable pub count_qos2 : List (ℕ × OutboundState) → ℕ
count_qos2 [] = 0
count_qos2 ((id, await_puback m) ∷ outbound) = count_qos2 outbound
count_qos2 ((id, await_pubrec m) ∷ outbound) = suc (count_qos2 outbound)
count_qos2 ((id, await_pubcomp m) ∷ outbound) = suc (count_qos2 outbound)

unfoldable pub from_session : StoredSession → SessionUsage
from_session s = record {
  state_bytes = s.state_bytes;
  subscriptions = length s.subscriptions;
  offline_count = length s.offline;
  offline_bytes = s.offline_bytes;
  qos1_inflight = count_qos1 s.outbound;
  qos2_inflight = length s.inbound_qos2 + count_qos2 s.outbound;
}

abbrev pub usage_of : Option StoredSession → Option SessionUsage
usage_of none = none
usage_of (some s) = some (from_session s)

abbrev pub no_usage : SessionUsage
no_usage = record {
  state_bytes = 0;
  subscriptions = 0;
  offline_count = 0;
  offline_bytes = 0;
  qos1_inflight = 0;
  qos2_inflight = 0;
}

abbrev pub usage_or_default : Option SessionUsage → SessionUsage
usage_or_default none = no_usage
usage_or_default (some u) = u

abbrev pub no_tenant_usage : TenantUsage
no_tenant_usage = record {
  session_count = 0;
  session_bytes = 0;
  subscription_count = 0;
  offline_count = 0;
  offline_bytes = 0;
  qos1_inflight = 0;
  qos2_inflight = 0;
}

abbrev pub tenant_or_default : Option TenantUsage → TenantUsage
tenant_or_default none = no_tenant_usage
tenant_or_default (some u) = u

abbrev pub count_or_default : Option ℕ → ℕ
count_or_default none = 0
count_or_default (some n) = n

-- `usize::from(option.is_some())`
abbrev pub present : Option SessionUsage → ℕ
present none = 0
present (some u) = 1

abbrev pub same_fields : SessionUsage → SessionUsage → Bool
same_fields a b =
    (a.state_bytes == b.state_bytes)
    && (a.subscriptions == b.subscriptions)
    && (a.offline_count == b.offline_count)
    && (a.offline_bytes == b.offline_bytes)
    && (a.qos1_inflight == b.qos1_inflight)
    && (a.qos2_inflight == b.qos2_inflight)

abbrev pub same_usage : Option SessionUsage → Option SessionUsage → Bool
same_usage none none = true
same_usage none (some b) = false
same_usage (some a) none = false
same_usage (some a) (some b) = same_fields a b

unfoldable pub moved_usage :
    TenantUsage → Option SessionUsage → Option SessionUsage → Result BrokerError TenantUsage
moved_usage u before after = do
  let old = usage_or_default before
  let new = usage_or_default after
  session_count ← apply_usage_delta u.session_count (present before) (present after)
  session_bytes ← apply_usage_delta u.session_bytes old.state_bytes new.state_bytes
  subscription_count ← apply_usage_delta u.subscription_count old.subscriptions new.subscriptions
  offline_count ← apply_usage_delta u.offline_count old.offline_count new.offline_count
  offline_bytes ← apply_usage_delta u.offline_bytes old.offline_bytes new.offline_bytes
  qos1_inflight ← apply_usage_delta u.qos1_inflight old.qos1_inflight new.qos1_inflight
  qos2_inflight ← apply_usage_delta u.qos2_inflight old.qos2_inflight new.qos2_inflight
  ok record {
    session_count = session_count;
    session_bytes = session_bytes;
    subscription_count = subscription_count;
    offline_count = offline_count;
    offline_bytes = offline_bytes;
    qos1_inflight = qos1_inflight;
    qos2_inflight = qos2_inflight;
  }

abbrev pub tenant_of : SessionKey → List ℕ
tenant_of key = key.device.tenant_id

-- Capacity that a tenant got back wakes the sessions that wait for it.
unfoldable pub woken : BrokerState → List ℕ → TenantUsage → BrokerState
woken state tenant usage =
    let old = tenant_or_default (lookup tenant state.tenant_usage) in
    let first =
      if ltb usage.qos1_inflight old.qos1_inflight
      then add (tenant, 1) state.capacity_wakes
      else state.capacity_wakes in
    record state {
      capacity_wakes =
          if ltb usage.qos2_inflight old.qos2_inflight then add (tenant, 2) first else first;
    }

abbrev pub stored_session_usage :
    SessionKey
    → Option SessionUsage
    → List (SessionKey × SessionUsage)
    → List (SessionKey × SessionUsage)
stored_session_usage key none usages = remove key usages
stored_session_usage key (some after) usages = insert key after usages

abbrev pub stored_tenant_usage :
    List ℕ → TenantUsage → List (List ℕ × TenantUsage) → List (List ℕ × TenantUsage)
stored_tenant_usage tenant usage usages =
    if usage.session_count == 0 then remove tenant usages else insert tenant usage usages

abbrev pub stored_count : DeviceKey → ℕ → List (DeviceKey × ℕ) → List (DeviceKey × ℕ)
stored_count device count counts =
    if count == 0 then remove device counts else insert device count counts

unfoldable pub stored :
    BrokerState → SessionKey → Option SessionUsage → TenantUsage → ℕ → BrokerState
stored state key after usage subscriptions = record state {
  session_usage = stored_session_usage key after state.session_usage;
  tenant_usage = stored_tenant_usage (tenant_of key) usage state.tenant_usage;
  device_subscription_count = stored_count key.device subscriptions state.device_subscription_count;
}

unfoldable pub filed_deadlines : BrokerState → SessionKey → BrokerState
filed_deadlines state key =
    let message_deadline : Option ℕ = elim (lookup key state.sessions) [
      | none ↦ none
      | some s ↦ next_message_expiry s
    ] in
    record state {
      message_expiry = update state.message_expiry key message_deadline;
      session_expiry = update state.session_expiry key (session_expiry_deadline state key);
    }

abbrev pub counted :
    BrokerState
    → SessionKey
    → Option SessionUsage
    → TenantUsage
    → Result BrokerError ℕ
    → BrokerState × Result BrokerError (Unit {0})
counted state key after usage (err e) = (woken state (tenant_of key) usage, err e)
counted state key after usage (ok subscriptions) =
    (stored (woken state (tenant_of key) usage) key after usage subscriptions, ok tt)

abbrev pub subscription_delta :
    BrokerState → SessionKey → Option SessionUsage → Option SessionUsage → Result BrokerError ℕ
subscription_delta state key before after =
    apply_usage_delta (count_or_default (lookup key.device state.device_subscription_count))
      (usage_or_default before).subscriptions (usage_or_default after).subscriptions

abbrev pub account_moved :
    BrokerState
    → SessionKey
    → Option SessionUsage
    → Option SessionUsage
    → Result BrokerError TenantUsage
    → BrokerState × Result BrokerError (Unit {0})
account_moved state key before after (err e) = (state, err e)
account_moved state key before after (ok usage) =
    counted state key after usage (subscription_delta state key before after)

abbrev pub own_usage : BrokerState → SessionKey → TenantUsage
own_usage state key = tenant_or_default (lookup (tenant_of key) state.tenant_usage)

-- The part of the call after its early return.
unfoldable pub account_usage :
    BrokerState
    → SessionKey
    → Option SessionUsage
    → Option SessionUsage
    → BrokerState × Result BrokerError (Unit {0})
account_usage state key before after =
    account_moved state key before after (moved_usage (own_usage state key) before after)

unfoldable pub sync_session_usage :
    BrokerState → SessionKey → BrokerState × Result BrokerError (Unit {0})
sync_session_usage state key =
    let before = lookup key state.session_usage in
    let after = usage_of (lookup key state.sessions) in
    let filed = filed_deadlines state key in
    if same_usage before after then (filed, ok tt) else account_usage filed key before after

abbrev pub tenant_session_bytes : BrokerState → List ℕ → ℕ
tenant_session_bytes state tenant =
    (tenant_or_default (lookup tenant state.tenant_usage)).session_bytes

abbrev pub total_session_bytes : BrokerState → ℕ
total_session_bytes state = saturating_add state.session_bytes state.will_responsibility_bytes

abbrev pub will_bytes : Option (ℕ × ℕ) → ℕ
will_bytes none = 0
will_bytes (some (count, bytes)) = bytes

abbrev pub tenant_total_session_bytes : BrokerState → List ℕ → ℕ
tenant_total_session_bytes state tenant =
    saturating_add (tenant_session_bytes state tenant)
      (will_bytes (lookup tenant state.will_responsibility_tenants))

abbrev pub tenant_inflight : BrokerState → List ℕ → ℕ → ℕ
tenant_inflight state tenant qos =
    let usage = tenant_or_default (lookup tenant state.tenant_usage) in
    if qos == 1 then usage.qos1_inflight else usage.qos2_inflight
