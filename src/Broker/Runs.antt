-- ===== src/Broker/Runs.antt =====
-- The broker's indexes and accounts at concrete inputs.
use netbaiot.Prelude.{
  ℕ, ◌+◌, ◌<◌, ◌≡◌, refl, false, some, List, [], ◌∷◌, arith, nat_eq, string_eq, usize_limit,
}
use netbaiot.Prelude.{list_beq}
use netbaiot.Prelude.Map.{lookup, insert}
use netbaiot.Prelude.Sets.{insert_ordered, contains, add}
use netbaiot.Prelude.Totals.{total}
use netbaiot.Message.{SessionKey, session_key_eq, no_properties, BrokerMessage, due}
use netbaiot.Broker.{
  v5, StoredSession, DeadlineIndex, BrokerState, await_puback, await_pubrec, await_pubcomp,
  delivering,
}
use netbaiot.Broker.Deadlines.{no_deadlines, left_bucket, take_out, put_in, update, pop_due}
use netbaiot.Broker.Due.{IsIndexed, bucket_at, update-IsIndexed, none-IsIndexed}
use netbaiot.Broker.Earliest.{update-bucket_at, Answers, pop_due-earliest}
use netbaiot.Broker.Usage.{
  from_session, count_qos1, count_qos2, sync_session_usage, own_usage, usage_of,
}
use netbaiot.Broker.Inbound.{begin_inbound_qos2_delivery, finish_inbound_qos2_delivery}
use netbaiot.Broker.Deliveries.{Call, begin_call, finish_call, abandon_call, run, HoldsAt}
use netbaiot.Broker.Once.{IsDelivering, AnswersAccepted, accepted_never_delivered}
use netbaiot.Broker.Expiry.{next_message_expiry, prune_session_messages}
use netbaiot.Broker.Pruned.{prune_session_messages-due}
use netbaiot.Broker.Single.{AnswersInProgress, IsDelivering-once}
use netbaiot.Broker.Accounts.{
  IsAccounted, Measure, session_count, session_bytes, subscription_count, offline_count,
  offline_bytes, qos1_inflight, qos2_inflight, tenant_measure, measure,
}
use netbaiot.Broker.Sums.{tenant_measure_default, sync_session_usage-IsAccounted}
use netbaiot.Broker.Records.{Records, sync_session_usage-Records}

abbrev index : DeadlineIndex ℕ
index = update (update (update no_deadlines 7 (some 50)) 8 (some 40)) 9 (some 40)

index-IsIndexed : IsIndexed index
index-IsIndexed =
    update-IsIndexed (update (update no_deadlines 7 (some 50)) 8 (some 40)) 9 (some 40) (
      update-IsIndexed (update no_deadlines 7 (some 50)) 8 (some 40)
        (update-IsIndexed no_deadlines 7 (some 50) none-IsIndexed))

takes_nine : (pop_due index 45).1 ≡ some 9
unfolding pop_due update take_out put_in left_bucket insert_ordered add contains lookup insert
takes_nine = refl

pop_due-earliest_example : Answers index 45 50
unfolding update take_out put_in left_bucket insert_ordered add contains lookup insert
pop_due-earliest_example = pop_due-earliest index 45 7 50 index-IsIndexed refl

-- The key 8 moves from the bucket of 40 to that of 60; the key 9 stays in it.
update-bucket_at_example :
    IsIndexed (update index 8 (some 60))
    × (lookup 9 (update index 8 (some 60)).by_key ≡ lookup 9 index.by_key)
    × (contains 9 (bucket_at 40 (update index 8 (some 60)).by_deadline)
        ≡ contains 9 (bucket_at 40 index.by_deadline))
update-bucket_at_example = update-bucket_at index 8 9 (some 60) 40 index-IsIndexed

abbrev key : SessionKey
key = record {
  device = record { tenant_id = 116 ∷ []; product_id = 112 ∷ []; device_id = 100 ∷ [] };
  client_id = 99 ∷ [];
}

abbrev message : BrokerMessage
message = record {
  topic = 97 ∷ [];
  payload = 1 ∷ 2 ∷ [];
  qos = 1;
  retain = false;
  properties = record no_properties { expires_at_ms = some 90 };
}

abbrev session : StoredSession
session = record {
  version = v5;
  expires_at_ms = some 1000;
  incarnation = 3;
  subscriptions = [];
  offline = message ∷ [];
  offline_bytes = 67;
  inbound_qos2 = [];
  inbound_operations = [];
  inbound_reservations = [];
  outbound =
      (4, await_puback message) ∷ (5, await_pubrec message) ∷ (6, await_pubcomp message) ∷ [];
  command_outbound = [];
  outbound_order = 4 ∷ 5 ∷ 6 ∷ [];
  next_packet_id = 7;
  state_bytes = 400;
  last_seen_ms = 80;
  send_quota = 10;
  sent = [];
  send_window = 4 ∷ 5 ∷ 6 ∷ [];
  inbound_window = [];
  started_outbound = 5 ∷ [];
}

abbrev state : BrokerState
state = record {
  sessions = (key, session) ∷ [];
  session_usage = [];
  tenant_usage = [];
  device_subscription_count = [];
  session_expiry = no_deadlines;
  message_expiry = no_deadlines;
  session_idle_ttl_ms = 100;
  active = [];
  operation_id = 0;
  session_bytes = 400;
  offline_count = 1;
  offline_bytes = 67;
  will_responsibility_bytes = 0;
  will_responsibility_tenants = [];
  capacity_wakes = [];
}

state-IsAccounted : IsAccounted state
unfolding total lookup
state-IsAccounted = record {
  distinct = tt;
  tenants = λ x tenant. tenant_measure_default x;
  devices = λ device. refl;
}

sync_session_usage-IsAccounted_example : IsAccounted (sync_session_usage state key).0
sync_session_usage-IsAccounted_example = sync_session_usage-IsAccounted state key state-IsAccounted

state_fits :
    (x : Measure)
    → tenant_measure x (own_usage state key) + measure x (usage_of (lookup key state.sessions))
      < usize_limit
unfolding lookup from_session count_qos1 count_qos2 list_beq
state_fits session_count = omega arith
state_fits session_bytes = omega arith
state_fits subscription_count = omega arith
state_fits offline_count = omega arith
state_fits offline_bytes = omega arith
state_fits qos1_inflight = omega arith
state_fits qos2_inflight = omega arith

sync_session_usage-Records_example : Records state key (sync_session_usage state key) key
sync_session_usage-Records_example =
    sync_session_usage-Records state key key state-IsAccounted state_fits

abbrev delivering_state : BrokerState
delivering_state = record state {
  sessions = (key, record session { inbound_qos2 = (9, delivering message 5) ∷ [] }) ∷ [];
  active = (key, record { generation = 2 }) ∷ [];
  operation_id = 5;
}

abbrev accepted_state : BrokerState
accepted_state = (finish_inbound_qos2_delivery delivering_state key 3 9 5).0

abbrev other_calls : List Call
other_calls = begin_call key 2 9 ∷ finish_call key 3 9 4 ∷ abandon_call key 3 8 5 ∷ []

IsDelivering-once_example :
    HoldsAt (IsDelivering 9 message 5) key (run delivering_state other_calls)
    × AnswersInProgress (begin_inbound_qos2_delivery (run delivering_state other_calls) key 2 9).1
unfolding lookup list_beq
IsDelivering-once_example =
    IsDelivering-once delivering_state other_calls 9 message 5 key 2 refl (refl, (refl, (refl, tt)))

accepted_never_delivered_example :
    AnswersAccepted 3 5
      (begin_inbound_qos2_delivery
        (run accepted_state (begin_call key 2 9 ∷ other_calls))
        key
        2
        9).1
unfolding lookup list_beq insert finish_inbound_qos2_delivery
accepted_never_delivered_example =
    accepted_never_delivered accepted_state (begin_call key 2 9 ∷ other_calls) 9 message 3 5 key 2
      (refl, refl, refl)

prune_session_messages-due_example :
    due (next_message_expiry (prune_session_messages session 90).0) 90 ≡ false
prune_session_messages-due_example = prune_session_messages-due session 90
