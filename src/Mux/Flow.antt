-- ===== src/Mux/Flow.antt =====
-- Bodies, credit and the end of streams: `StreamTable` of crates/netbaiot-rpc-mux/src/lib.rs from
-- `receive_data` on. A body is a list of bytes.
use netbaiot.Prelude.{
  Result, ℕ, zero, suc, ◌+◌, ◌-◌, ◌^◌, Bool, true, false, not, ◌&&◌, ◌||◌, Option, none, some, List,
  [], ◌∷◌, ◌++◌, ltb, leb, ◌==◌, if◌then◌else◌, nat_eq, string_eq, length, ok, ◌>>=◌, ◌>>◌, ensure,
  ok_or, checked_add,
}
use netbaiot.Prelude.Map.{lookup, insert}
use netbaiot.RpcWire.{length_invalid, max_message_bytes}
use netbaiot.Mux.{
  MuxError, connection, stream, flow_control, overloaded, message_too_large, reserve, ReceiveBody,
  Stream, ReceivedData, StreamTable,
}
use netbaiot.Mux.Table.{drop_body, remove_stream, is_provider, is_event_subscription}

-- The guards, on the stream and its body; the length of the whole body then.
unfoldable pub check_data : ℕ → Stream → ReceiveBody → List ℕ → Bool → Result MuxError ℕ
check_data connection_window s body bytes end = do
  ensure (ltb (length bytes) (2 ^ 32)) message_too_large
  ensure (leb (length bytes) connection_window) (connection length_invalid)
  ensure (leb (length bytes) s.recv_window) flow_control
  next ← ok_or (checked_add (length body.bytes) (length bytes)) message_too_large
  ensure (leb next body.expected) message_too_large
  ensure (not (end && not (next == body.expected))) stream
  ok next

unfoldable pub stream_body : Stream → Result MuxError ReceiveBody
stream_body s = do ensure (not s.remote_closed) stream; ok_or s.body stream

abbrev pub received : ReceiveBody → List ℕ → ReceiveBody
received body bytes = record body { bytes = body.bytes ++ bytes }

-- The stream with the bytes taken in; a body that has ended is taken out of it.
unfoldable pub taken_in : Stream → ReceiveBody → List ℕ → Bool → Stream
taken_in s body bytes true = record s {
  recv_window = s.recv_window - length bytes;
  remote_closed = true;
  body = none;
}
taken_in s body bytes false = record s {
  recv_window = s.recv_window - length bytes;
  body = some (received body bytes);
}

unfoldable pub with_stream : StreamTable → ℕ → Stream → ℕ → StreamTable
with_stream t id s len = record t {
  connection_window = t.connection_window - len;
  streams = insert id s t.streams;
}

abbrev pub outcome : ReceiveBody → List ℕ → Bool → ReceivedData
outcome body bytes true = record {
  complete = some (body.bytes ++ bytes);
  connection_update = length bytes;
  stream_update = 0;
}
outcome body bytes false = record {
  complete = none;
  connection_update = length bytes;
  stream_update = length bytes;
}

unfoldable pub receive_into : StreamTable → ℕ → Stream → ReceiveBody → List ℕ → Bool → StreamTable
receive_into t id s body bytes end =
    let after = with_stream t id (taken_in s body bytes end) (length bytes) in
    let given_back = drop_body after (some body) in
    if end then (if s.local_closed then remove_stream given_back id else given_back) else after

unfoldable pub receive_data :
    StreamTable → ℕ → List ℕ → Bool → Result MuxError (StreamTable × ReceivedData)
receive_data t id bytes end = do
  s ← ok_or (lookup id t.streams) stream
  body ← stream_body s
  next ← check_data t.connection_window s body bytes end
  ok (receive_into t id s body bytes end, outcome body bytes end)

-- `checked_add(increment).filter(|window| *window <= max)` on a u32.
unfoldable pub credit : ℕ → ℕ → ℕ → Option ℕ
credit window increment most =
    if ltb (window + increment) (2 ^ 32) && leb (window + increment) most
    then some (window + increment)
    else none

unfoldable pub grant_credit : StreamTable → ℕ → ℕ → Result MuxError StreamTable
grant_credit t zero increment = do
  ensure (not (increment == 0)) flow_control
  window ←
      ok_or (credit t.connection_window increment t.limits.initial_connection_window_bytes)
        (connection length_invalid)
  ok (record t { connection_window = window })
grant_credit t (suc id) increment = do
  ensure (not (increment == 0)) flow_control
  s ← ok_or (lookup (suc id) t.streams) stream
  window ← ok_or (credit s.recv_window increment t.limits.initial_stream_window_bytes) flow_control
  ok (record t { streams = insert (suc id) (record s { recv_window = window }) t.streams })

abbrev pub is_some {ℓ} : {A : Type ℓ} → Option A → Bool
is_some none = false
is_some (some a) = true

unfoldable pub mark_response : StreamTable → ℕ → ℕ → Result MuxError StreamTable
mark_response t id expected = do
  s ← ok_or (lookup id t.streams) stream
  ensure
      (not
        (s.response_seen || is_some s.body || not s.local_closed || ltb max_message_bytes expected))
      stream
  reserved ← ok_or (checked_add t.connection_reserved expected) overloaded
  ensure (leb reserved t.connection_budget) overloaded
  budget ← reserve t.global_budget expected
  ok (record t {
    connection_reserved = reserved;
    global_budget = budget;
    streams =
        insert id
          (record s {
            body = some (record { expected = expected; bytes = [] });
            response_seen = true;
          })
          t.streams;
  })

unfoldable pub mark_local_end : StreamTable → ℕ → Result MuxError StreamTable
mark_local_end t id = do
  s ← ok_or (lookup id t.streams) stream
  ensure (not s.local_closed) stream
  let after = record t { streams = insert id (record s { local_closed = true }) t.streams }
  ok (if s.remote_closed then remove_stream after id else after)

abbrev pub opt_is : Option ℕ → ℕ → Bool
opt_is none id = false
opt_is (some j) id = j == id

unfoldable pub children : ℕ → List (ℕ × Stream) → List ℕ
children id [] = []
children id ((child, s) ∷ streams) =
    if opt_is s.parent_id id then child ∷ children id streams else children id streams

unfoldable pub remove_all : StreamTable → List ℕ → StreamTable
remove_all t [] = t
remove_all t (child ∷ rest) = remove_all (remove_stream t child) rest

unfoldable pub owner_of_children : Option Stream → Bool
owner_of_children none = false
owner_of_children (some s) = is_provider s.kind || is_event_subscription s.kind

-- The children come in the order of the map, which Rust leaves open.
unfoldable pub close_parent : StreamTable → ℕ → StreamTable × List ℕ
close_parent t id =
    let removed = if owner_of_children (lookup id t.streams) then children id t.streams else [] in
    (remove_stream (remove_all t removed) id, removed)

unfoldable pub reset : StreamTable → ℕ → Result MuxError (StreamTable × List ℕ)
reset t id = do ensure (is_some (lookup id t.streams)) stream; ok (close_parent t id)
