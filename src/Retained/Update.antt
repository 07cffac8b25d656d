-- ===== src/Retained/Update.antt =====
-- `update_retained` and `add_retained_reservation` of
-- crates/netbaiot-transports/src/mqtt/broker/retained.rs.
use netbaiot.Prelude.{
  Result, ℕ, ◌-◌, Option, none, some, List, if◌then◌else◌, nat_eq, string_eq, ok, err,
  saturating_add,
}
use netbaiot.Prelude.Map.{lookup, insert, remove}
use netbaiot.Message.{DeviceKey, SessionKey, BrokerMessage, BrokerError}
use netbaiot.Broker.{RetainedReservation}
use netbaiot.Broker.Deadlines.{update}
use netbaiot.Retained.{
  RetainedLimits, RetainedMessage, RetainedState, charge_of, pair_or_default, retained_usage_add,
  retained_usage_remove, old_charge, no_payload, check_retained_update, is_no_reservation,
}

-- `?` between two calls on the state.
abbrev pub proceed :
    RetainedState × Result BrokerError (Unit {0})
    → (RetainedState → RetainedState × Result BrokerError (Unit {0}))
    → RetainedState × Result BrokerError (Unit {0})
proceed (s, ok u) rest = rest s
proceed (s, err e) rest = (s, err e)

-- The early test of `update_retained_expiry` is that of `update`.
unfoldable pub update_retained_expiry : RetainedState → List ℕ → Option ℕ → RetainedState
update_retained_expiry s topic deadline = record s {
  retained_expiry = update s.retained_expiry topic deadline;
}

abbrev pub without_expiry : List ℕ → RetainedState → RetainedState × Result BrokerError (Unit {0})
without_expiry topic s = (update_retained_expiry s topic none, ok tt)

unfoldable pub delete_retained :
    RetainedState → List ℕ → Option RetainedMessage → RetainedState × Result BrokerError (Unit {0})
delete_retained s topic none = without_expiry topic s
delete_retained s topic (some old) =
    proceed
      (retained_usage_remove
        (record s {
          retained = remove topic s.retained;
          retained_bytes = s.retained_bytes - charge_of old;
        })
        old)
      (without_expiry topic)

abbrev pub without_old :
    RetainedState → Option RetainedMessage → RetainedState × Result BrokerError (Unit {0})
without_old s none = (s, ok tt)
without_old s (some old) = retained_usage_remove s old

-- The state with the new message, whose old value's usage is gone.
unfoldable pub put_retained :
    RetainedMessage
    → Option RetainedMessage
    → RetainedState
    → RetainedState × Result BrokerError (Unit {0})
put_retained r old s =
    proceed
      (retained_usage_add
        (record s {
          retained_bytes = saturating_add (s.retained_bytes - old_charge old) (charge_of r);
        })
        r)
      (λ after. (
        update_retained_expiry (record after { retained = insert r.message.topic r after.retained })
            r.message.topic r.message.properties.expires_at_ms,
        ok tt,
      ))

unfoldable pub store_retained :
    RetainedState
    → RetainedMessage
    → Option RetainedMessage
    → RetainedState × Result BrokerError (Unit {0})
store_retained s r old =
    proceed (without_old (record s { retained = remove r.message.topic s.retained }) old)
      (put_retained r old)

unfoldable pub update_retained :
    RetainedState
    → DeviceKey
    → Option SessionKey
    → BrokerMessage
    → RetainedLimits
    → RetainedState × Result BrokerError (Unit {0})
update_retained s owner origin message limits =
    let r : RetainedMessage = record {
      tenant_id = owner.tenant_id;
      message = message;
      origin = origin;
    } in
    let old = lookup message.topic s.retained in
    if no_payload message
    then delete_retained s message.topic old
    else elim (check_retained_update s owner origin message limits) [
      | err e ↦ (s, err e)
      | ok u ↦ store_retained s r old
    ]

unfoldable pub add_retained_reservation :
    RetainedState → List ℕ → RetainedReservation → RetainedState
add_retained_reservation s tenant r =
    let reserved = pair_or_default (lookup tenant s.retained_reserved_tenants) in
    if is_no_reservation r then s else record s {
      retained_reserved_count = saturating_add s.retained_reserved_count r.global_count;
      retained_reserved_bytes = saturating_add s.retained_reserved_bytes r.global_bytes;
      retained_reserved_tenants =
          insert tenant
            (saturating_add reserved.0 r.tenant_count, saturating_add reserved.1 r.tenant_bytes)
            s.retained_reserved_tenants;
    }
