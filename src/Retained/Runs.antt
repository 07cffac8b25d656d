-- ===== src/Retained/Runs.antt =====
-- Retained messages and reservations at concrete inputs.
use netbaiot.Prelude.{◌≡◌, refl, true, none, [], ◌∷◌, arith, nat_eq, string_eq, ok}
use netbaiot.Prelude.{list_beq}
use netbaiot.Prelude.Map.{lookup, insert}
use netbaiot.Prelude.Totals.{total}
use netbaiot.Topic.{byte_length, utf8_width}
use netbaiot.Message.{DeviceKey, no_properties, properties_bytes, BrokerMessage, message_bytes}
use netbaiot.Broker.{RetainedReservation}
use netbaiot.Broker.Deadlines.{no_deadlines}
use netbaiot.Retained.{
  RetainedLimits, RetainedState, retained_charge, reservation_of, with_promise,
  check_retained_update, reserve_retained, release_retained_reservation,
}
use netbaiot.Retained.Update.{update_retained}
use netbaiot.Retained.Promise.{
  AreLimits, IsWithin, release-IsWithin, reserve-IsWithin, promise_kept,
}
use netbaiot.Retained.Release.{GivenBack, reserved_and_released, release-reserve}
use netbaiot.Retained.Tally.{IsTallied}
use netbaiot.Retained.Updating.{IsUpdated, new_value, update_retained-IsUpdated}

abbrev limits : RetainedLimits
limits = record {
  max_retained_messages = 2;
  max_retained_messages_per_tenant = 2;
  max_retained_bytes = 200;
  max_retained_bytes_per_tenant = 150;
  max_retained_message_bytes = 10;
}

abbrev owner : DeviceKey
owner = record { tenant_id = 116 ∷ []; product_id = 112 ∷ []; device_id = 100 ∷ [] }

abbrev message : BrokerMessage
message = record {
  topic = 97 ∷ [];
  payload = 1 ∷ 2 ∷ [];
  qos = 2;
  retain = true;
  properties = no_properties;
}

abbrev empty_state : RetainedState
empty_state = record {
  retained = [];
  retained_tenant_usage = [];
  retained_bytes = 0;
  retained_reserved_count = 0;
  retained_reserved_bytes = 0;
  retained_reserved_tenants = [];
  retained_expiry = no_deadlines;
}

limits-AreLimits : AreLimits limits
limits-AreLimits = record {
  messages = omega arith;
  tenant_messages = omega arith;
  bytes = omega arith;
  tenant_bytes = omega arith;
}

empty-IsWithin : IsWithin limits empty_state
unfolding lookup
empty-IsWithin = record {
  messages = omega arith;
  bytes = omega arith;
  tenant_messages = λ tenant. omega arith;
  tenant_bytes = λ tenant. omega arith;
}

empty-IsTallied : IsTallied empty_state
unfolding lookup total
empty-IsTallied = record {
  distinct = tt;
  bytes = refl;
  counts = λ tenant. refl;
  tenant_bytes = λ tenant. refl;
}

abbrev reserved_state : RetainedState
reserved_state = (reserve_retained empty_state owner.tenant_id none message limits).0

reserve-IsWithin_example : IsWithin limits reserved_state
reserve-IsWithin_example =
    reserve-IsWithin limits empty_state owner.tenant_id none message limits-AreLimits empty-IsWithin

abbrev reservation : RetainedReservation
reservation = reservation_of (retained_charge message none)

charges : retained_charge message none ≡ 67
unfolding retained_charge message_bytes properties_bytes byte_length utf8_width
charges = refl

release-IsWithin_example :
    IsWithin limits (release_retained_reservation reserved_state owner.tenant_id reservation)
release-IsWithin_example =
    release-IsWithin limits reserved_state owner.tenant_id reservation reserve-IsWithin_example

release-reserve_example :
    GivenBack empty_state
      (reserved_and_released limits empty_state owner.tenant_id none message reservation)
      owner.tenant_id
unfolding reserve_retained retained_charge message_bytes properties_bytes byte_length utf8_width
    lookup with_promise
release-reserve_example =
    release-reserve limits empty_state owner.tenant_id owner.tenant_id none message reservation refl

promise_kept_example :
    check_retained_update
      (release_retained_reservation reserved_state owner.tenant_id reservation)
      owner
      none
      message
      limits
    ≡ ok tt
unfolding reserve_retained retained_charge message_bytes properties_bytes byte_length utf8_width
    lookup with_promise insert list_beq
promise_kept_example =
    promise_kept limits reserved_state owner none message limits-AreLimits reserve-IsWithin_example
      (omega arith, omega arith, omega arith, omega arith) (omega arith)

update_retained-IsUpdated_example :
    IsUpdated limits empty_state message.topic
      (new_value owner none message)
      (update_retained empty_state owner none message limits)
unfolding check_retained_update retained_charge message_bytes properties_bytes byte_length
    utf8_width lookup
update_retained-IsUpdated_example =
    update_retained-IsUpdated limits empty_state owner none message limits-AreLimits empty-IsTallied
      empty-IsWithin refl
