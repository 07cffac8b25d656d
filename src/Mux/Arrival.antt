-- ===== src/Mux/Arrival.antt =====
-- Bodies for which there is credit: `receive_data` of crates/netbaiot-rpc-mux/src/lib.rs takes them.
use netbaiot.Prelude.{
  ℕ, ◌+◌, ◌≤◌, ◌≡◌, refl, sym, ap, ◌∙◌, Bool, true, false, some, List, [], ◌∷◌, ◌++◌, arith, nat_eq,
  string_eq, length, length-append, ok,
}
use mathlib.Core.List.{append_assoc}
use netbaiot.Prelude.Map.{lookup, lookup-insert, beq_self}
use netbaiot.RpcWire.{max_message_bytes}
use netbaiot.Mux.{ReceiveBody, Stream, StreamTable, ReceivedData}
use netbaiot.Mux.Flow.{
  stream_body, check_data, receive_data, receive_into, taken_in, with_stream, outcome, received,
}
use netbaiot.Mux.Bodies.{feed, concat, Collects, feed-whole}

-- What a body still awaits, and the credit for it.
pub record CanTake (t : StreamTable) (id : ℕ) (s : Stream) (body : ReceiveBody) (more : ℕ)
    : Type 0 where
  pub present : lookup id t.streams ≡ some s
  pub is_open : s.remote_closed ≡ false
  pub has_body : s.body ≡ some body
  pub connection_credit : more ≤ t.connection_window
  pub stream_credit : more ≤ s.recv_window
  pub room : length body.bytes + more ≤ body.expected
  pub small : body.expected ≤ max_message_bytes

check_data-passes :
    (w : ℕ) (s : Stream) (body : ReceiveBody) (bytes : List ℕ) (end : Bool)
    → length bytes ≤ w
    → length bytes ≤ s.recv_window
    → length body.bytes + length bytes ≤ body.expected
    → body.expected ≤ max_message_bytes
    → (end ≡ true → length body.bytes + length bytes ≡ body.expected)
    → check_data w s body bytes end ≡ ok (length body.bytes + length bytes)
unfolding check_data
check_data-passes w s body bytes true c r room small whole = ground (arith, whole refl)
check_data-passes w s body bytes false c r room small whole = ground arith

receive_data-taken :
    (t : StreamTable) (id : ℕ) (s : Stream) (body : ReceiveBody) (bytes : List ℕ) (end : Bool)
    → CanTake t id s body (length bytes)
    → (end ≡ true → length body.bytes + length bytes ≡ body.expected)
    → receive_data t id bytes end ≡ ok (receive_into t id s body bytes end, outcome body bytes end)
unfolding receive_data stream_body
receive_data-taken t id s body bytes end can whole = simp (
  receive_data,
  stream_body,
  can.present,
  can.is_open,
  can.has_body,
  check_data-passes t.connection_window s body bytes end can.connection_credit can.stream_credit
      can.room can.small whole,
)

into-CanTake :
    (t : StreamTable) (id : ℕ) (s : Stream) (body : ReceiveBody) (bytes : List ℕ) (more : ℕ)
    → CanTake t id s body (length bytes + more)
    → CanTake
        (receive_into t id s body bytes false)
        id
        (taken_in s body bytes false)
        (received body bytes)
        more
unfolding receive_into with_stream taken_in
into-CanTake t id s body bytes more can = record {
  present =
      ground (arith, lookup-insert id id (taken_in s body bytes false) t.streams, beq_self id);
  is_open = can.is_open;
  has_body = refl;
  connection_credit = omega (arith, can.connection_credit);
  stream_credit = omega (arith, can.stream_credit);
  room = omega (arith, can.room, length-append body.bytes bytes);
  small = can.small;
}

CanTake-less :
    (t : StreamTable) (id : ℕ) (s : Stream) (body : ReceiveBody) (more less : ℕ)
    → less ≤ more
    → CanTake t id s body more
    → CanTake t id s body less
CanTake-less t id s body more less h can = record {
  present = can.present;
  is_open = can.is_open;
  has_body = can.has_body;
  connection_credit = omega (arith, can.connection_credit);
  stream_credit = omega (arith, can.stream_credit);
  room = omega (arith, can.room);
  small = can.small;
}

feed-arrives :
    (parts : List (List ℕ)) (t : StreamTable) (id : ℕ) (s : Stream) (body : ReceiveBody)
    (last : List ℕ)
    → CanTake t id s body (length (concat parts ++ last))
    → length body.bytes + length (concat parts ++ last) ≡ body.expected
    → (between after : StreamTable) × (data_in : ReceivedData) × (feed t id parts ≡ ok between)
      × (receive_data between id last true ≡ ok (after, data_in))
unfolding feed
feed-arrives [] t id s body last can whole =
    (t, _, _, refl, receive_data-taken t id s body last true can (λ e. whole))
feed-arrives (part ∷ parts) t id s body last can whole =
    let more : length ((part ++ concat parts) ++ last)
        ≡ length part + length (concat parts ++ last) =
      ap length (append_assoc part (concat parts) last)
      ∙ length-append part (concat parts ++ last) in
    let first = CanTake-less t id s body _ (length part) (omega (arith, more)) can in
    let taken = receive_data-taken t id s body part false first (λ e. absurd (cc e)) in
    let next : CanTake t id s body (length part + length (concat parts ++ last)) =
      rw (sym more) can in
    let (between, after, data_in, fed, done) =
      feed-arrives parts (receive_into t id s body part false) id (taken_in s body part false)
        (received body part) last (into-CanTake t id s body part _ next)
        (omega (arith, length-append body.bytes part, more, whole)) in
    (between, after, data_in, rw taken fed, done)

-- A stream whose other end is open and whose body awaits just the bytes that come, with credit for
-- them all, takes them in any parts: no part is refused, and the message that comes out is what
-- stood in the body followed by the parts in their order.
pub message_arrives :
    (parts : List (List ℕ)) (t : StreamTable) (id : ℕ) (s : Stream) (body : ReceiveBody)
    (last : List ℕ)
    → CanTake t id s body (length (concat parts ++ last))
    → length body.bytes + length (concat parts ++ last) ≡ body.expected
    → (between after : StreamTable) × (data_in : ReceivedData) × (feed t id parts ≡ ok between)
      × (receive_data between id last true ≡ ok (after, data_in))
      × (data_in.complete ≡ some (body.bytes ++ (concat parts ++ last)))
message_arrives parts t id s body last can whole =
    let (between, after, data_in, fed, done) = feed-arrives parts t id s body last can whole in
    let collects : Collects t id body = record {
      stream_now = s;
      present = can.present;
      has_body = can.has_body;
    } in
    (
      between,
      after,
      data_in,
      fed,
      done,
      (feed-whole parts t between after id body last data_in collects fed done).0,
    )
