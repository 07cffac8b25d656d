-- ===== src/Lib.antt =====
-- Verification of NetbaIoT, an IoT ingress gateway: MQTT, framed TCP and UDP uplinks are
-- authenticated, decoded and routed to business services.
--
-- The files model the pure core of the gateway, one module for each part of the program:
--
-- - Prelude: booleans, lists, Rust's Result with `?` as bind, checked and saturating usize
--   arithmetic (64 bits), HashMap as association lists without two entries of one key
--   (Prelude.Map).
-- - Wire: crates/netbaiot-mqtt-wire/src/lib.rs. `remaining_length`, `fixed_header`,
--   `encoded_size`, `put_variable` and `encode` under their own names; a byte slice is a list of
--   numbers below 256. The loop of `put_variable` recurs on the value, which falls.
-- - Topic: `valid_utf8` on a text, `valid_filter` and `valid_topic` of the same crate and
--   `topic_matches` of crates/netbaiot-transports/src/mqtt/broker/routing.rs. A text is its list
--   of code points.
-- - Trie: crates/netbaiot-transports/src/mqtt/broker/subscription.rs, the trie. `insert_filter`,
--   `remove_filter` and `matching` are `insert`, `remove` and `matching`; Trie.Model has the flat
--   table that the trie stands for. The walk of `matching` has fuel for the topic's levels and
--   one more, which is enough since each round takes a level; it is part of what the theorems
--   about `matching` show.
-- - RpcWire: crates/netbaiot-protocol/src/business_rpc/wire.rs. `parse`, `encode`, `validate`,
--   `negotiate`, and in RpcWire.Open the type RpcOpen with its checks.
-- - Mux: crates/netbaiot-rpc-mux/src/lib.rs, the stream table. Mux has the state, Mux.Table the
--   opening of streams, Mux.Flow received data, credit, responses and ends. The table's state
--   includes the global budget; `remove` and `insert` of the table are `remove_stream` and
--   `insert_stream`. A HashMap is an association list, so `close_parent` returns the children in
--   some order. Mux.History has the histories of calls that the invariant speaks of.
-- - Scheduler: the same file's MuxScheduler. Scheduler has its state and what enters it,
--   Scheduler.Turns `take_data` and `next_frame`; the rounds of `take_data` are the length of the
--   queue, as in the source, those of `next_frame` five. `reset` is `reset_stream_state`.
-- - Tcp: crates/netbaiot-protocol/src/tcp_frame.rs and tcp_ack.rs; `encode` and `decode` of
--   tcp_ack.rs are `encode_receipt` and `decode_receipt`.
-- - Udp: the replay window of crates/netbaiot-transports/src/udp.rs. `check_with_policy` and
--   `commit` under their own names; `decide` is the part of the check after pruning, `judge` its
--   answer on an entry, `recorded` the entry that a commit leaves.
-- - PacketIds: `allocate_packet_id` of crates/netbaiot-transports/src/mqtt/broker/session.rs and
--   `projected_packet_id` of routing.rs there. Of the session the next identifier and the
--   outbound map are read; the states in the map are any type. The rounds are the source's 65535.
-- - Message and Broker: crates/netbaiot-transports/src/mqtt/broker. Message has messages and
--   keys, Broker the sessions and the state under the mutex, of which the fields are those that
--   the modelled calls read or change. Broker.Deadlines is `DeadlineIndex` and Broker.Expiry the
--   rest of expiry.rs; Broker.Usage is state.rs; Broker.Inbound is inbound_qos2.rs, without the
--   calls that route, reserve or remove an entry. A call's result is the state after it and its
--   answer; an error leaves the changes made before it. `settle_session` has the tests that
--   finishing and abandoning share. A map of sessions lists its entries in some order, and the
--   next key of a bucket is the first of its list. A subtraction that the source saturates is the
--   subtraction of numbers.
-- - Retained: retained.rs there, on the fields of `BrokerState` that it keeps (RetainedState).
--   Retained.Update has `update_retained`, whose steps `delete_retained`, `store_retained` and
--   `put_retained` follow its branches.
-- - Connections: the connection slots and counters of crates/netbaiot-runtime/src/quota.rs. A
--   semaphore is the number of its free permits. A lease is a value; an operation that takes it
--   by value and fails drops it, which is part of the operation here. Connections.History has the
--   histories of calls, with the leases that are alive.
-- - Rate: `Window` and `RateLimiter` of crates/netbaiot-runtime/src/quota.rs; `take_request` is
--   `RateLimiter::take`, the present instant an argument, an address a number.
-- - Classifier: `classify_prefix` of crates/netbaiot-transports/src/classifier.rs, with the
--   header parser of Wire.
--
-- Left out so far: the asynchronous tasks, sockets and locks (a lock's section is one operation),
-- cryptography and serde. Session keys are any type with a decidable equality.
pub mod Prelude
pub mod Wire
pub mod Topic
pub mod Trie
pub mod RpcWire
pub mod Mux
pub mod Scheduler
pub mod Tcp
pub mod Udp
pub mod PacketIds
pub mod Message
pub mod Broker
pub mod Retained
pub mod Connections
pub mod Rate
pub mod Classifier
