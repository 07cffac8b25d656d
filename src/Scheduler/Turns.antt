-- ===== src/Scheduler/Turns.antt =====
-- Which frame goes out next: `take_data` and `next_frame` of crates/netbaiot-rpc-mux/src/lib.rs.
use netbaiot.Prelude.{
  Result, ℕ, zero, suc, ◌+◌, ◌-◌, ◌%◌, ◌^◌, min, Bool, true, false, not, ◌&&◌, ◌||◌, Option, none,
  some, List, [], ◌∷◌, ◌++◌, ltb, leb, ◌==◌, if◌then◌else◌, nat_eq, string_eq, length, take, drop,
  ok, err, wrapping_sub,
}
use netbaiot.Prelude.Map.{lookup, insert, remove}
use netbaiot.RpcWire.{RpcFrameType, open_stream, response, data_frame, end_stream}
use netbaiot.Scheduler.{
  Frame, new_frame, DataClass, rpc_class, event_class, OutboundBody, MuxScheduler, has, or_insert,
}

unfoldable pub queue_of : MuxScheduler → DataClass → List ℕ
queue_of s rpc_class = s.rpc_queue
queue_of s event_class = s.event_queue

unfoldable pub with_queue : MuxScheduler → DataClass → List ℕ → MuxScheduler
with_queue s rpc_class queue = record s { rpc_queue = queue }
with_queue s event_class queue = record s { event_queue = queue }

abbrev pub is_barrier : RpcFrameType → Bool
is_barrier open_stream = true
is_barrier response = true
is_barrier _ = false

-- OPEN or RESPONSE of the stream still waits among the control frames.
unfoldable pub barred : List Frame → ℕ → Bool
barred [] id = false
barred (frame ∷ frames) id =
    (frame.header.stream_id == id && is_barrier frame.header.frame_type) || barred frames id

abbrev pub or_zero : Option ℕ → ℕ
or_zero none = 0
or_zero (some n) = n

-- What the stream may send now, with `outstanding` bytes that the peer has not credited.
unfoldable pub allowance : MuxScheduler → OutboundBody → ℕ → ℕ → ℕ
allowance s body window outstanding =
    let n = min (min (min (length body.bytes - body.cursor) s.max_frame) window) s.conn_window in
    elim s.send_ahead [
      | none ↦ n
      | some policy ↦
          min (min n (policy.stream_bytes - outstanding))
            (policy.connection_bytes - s.conn_uncredited)
    ]

-- A turn of a stream: its entry is dropped, put back, or it sends.
pub data Turn : Type 0 where
  dropped : Turn
  put_back : Turn
  sends : (body : OutboundBody) (window outstanding size : ℕ) → Turn

abbrev pub overflows : ℕ → Bool
overflows n = leb (2 ^ 32) n

unfoldable pub sized : MuxScheduler → OutboundBody → ℕ → ℕ → ℕ → Turn
sized s body window outstanding n =
    if n == 0 && not (length body.bytes - body.cursor == 0)
    then put_back
    else (if overflows n
        then put_back
        else (if has s.send_ahead
              && (overflows (s.conn_uncredited + n) || overflows (outstanding + n))
            then put_back
            else sends body window outstanding n))

unfoldable pub outstanding_of : MuxScheduler → ℕ → ℕ
outstanding_of s id = if has s.send_ahead then or_zero (lookup id s.stream_uncredited) else 0

unfoldable pub turn : MuxScheduler → ℕ → Turn
turn s id = elim (lookup id s.bodies) [
  | none ↦ dropped
  | some body ↦ if barred s.control id then put_back else (elim (lookup id s.windows) [
    | none ↦ dropped
    | some window ↦
        sized s body window (outstanding_of s id) (allowance s body window (outstanding_of s id))
  ])
]

-- `entry(id).or_insert(0)` under a policy.
unfoldable pub touched : MuxScheduler → ℕ → MuxScheduler
touched s id = record s {
  stream_uncredited =
      if has s.send_ahead
        && has (lookup id s.bodies)
        && not (barred s.control id)
        && has (lookup id s.windows)
      then or_insert id 0 s.stream_uncredited
      else s.stream_uncredited;
}

-- The scheduler after a frame of `n` bytes: the cursor, the windows and what is uncredited move, and
-- a body that is through leaves.
unfoldable pub sent : MuxScheduler → DataClass → ℕ → OutboundBody → ℕ → ℕ → ℕ → MuxScheduler
sent s kind id body window outstanding n =
    let counted = record s {
      windows = insert id (window - n) s.windows;
      conn_window = s.conn_window - n;
      conn_uncredited = if has s.send_ahead then s.conn_uncredited + n else s.conn_uncredited;
      stream_uncredited =
          if has s.send_ahead
          then insert id (outstanding + n) s.stream_uncredited
          else s.stream_uncredited;
    } in
    if n == length body.bytes - body.cursor
    then record counted {
      bodies = remove id s.bodies;
      queued_bytes = wrapping_sub s.queued_bytes (length body.bytes);
    }
    else with_queue
        (record counted { bodies = insert id (record body { cursor = body.cursor + n }) s.bodies })
        kind (queue_of s kind ++ (id ∷ []))

abbrev pub as_option : {E A : Type 0} → Result E A → Option A
as_option (ok a) = some a
as_option (err e) = none

unfoldable pub frame_of : MuxScheduler → ℕ → OutboundBody → ℕ → Option Frame
frame_of s id body n = as_option (
    new_frame id data_frame (if n == length body.bytes - body.cursor then end_stream else 0)
      (take n (drop body.cursor body.bytes)) s.max_frame)

-- A round with the front of the queue off it; `again` is the next round.
unfoldable pub take_turn :
    MuxScheduler
    → DataClass
    → ℕ
    → List ℕ
    → Turn
    → (MuxScheduler → MuxScheduler × Option Frame)
    → MuxScheduler × Option Frame
take_turn s kind id queue dropped again = again (with_queue s kind queue)
take_turn s kind id queue put_back again =
    again (with_queue (touched s id) kind (queue ++ (id ∷ [])))
take_turn s kind id queue (sends body window outstanding n) again =
    (sent (with_queue s kind queue) kind id body window outstanding n, frame_of s id body n)

unfoldable pub take_front :
    MuxScheduler
    → DataClass
    → List ℕ
    → (MuxScheduler → MuxScheduler × Option Frame)
    → MuxScheduler × Option Frame
take_front s kind [] again = (s, none)
take_front s kind (id ∷ queue) again = take_turn s kind id queue (turn s id) again

-- The `for` over the length of the queue, which is the number of rounds.
unfoldable pub take_rounds : ℕ → MuxScheduler → DataClass → MuxScheduler × Option Frame
take_rounds zero s kind = (s, none)
take_rounds (suc rounds) s kind =
    take_front s kind (queue_of s kind) (λ after. take_rounds rounds after kind)

unfoldable pub take_data : MuxScheduler → DataClass → MuxScheduler × Option Frame
take_data s kind = take_rounds (length (queue_of s kind)) s kind

abbrev pub class_at : ℕ → DataClass
class_at class_turn = if ltb class_turn 4 then rpc_class else event_class

-- The turns over the classes: four for RPC and one for events.
unfoldable pub next_data : ℕ → MuxScheduler → MuxScheduler × Option Frame
next_data zero s = (s, none)
next_data (suc rounds) s =
    let (after, found) =
      take_data (record s { class_turn = (s.class_turn + 1) % 5 }) (class_at s.class_turn) in
    elim found [
      | none ↦ next_data rounds after
      | some frame ↦ (record after { control_burst = 0 }, some frame)
    ]

abbrev pub pop_control : MuxScheduler → Frame → List Frame → ℕ → MuxScheduler
pop_control s frame frames burst = record s {
  control = frames;
  control_bytes = wrapping_sub s.control_bytes (length frame.payload + 12);
  control_burst = burst;
}

unfoldable pub last_control : MuxScheduler → MuxScheduler × Option Frame
last_control s = elim s.control [
  | [] ↦ (s, none)
  | frame ∷ frames ↦ (pop_control s frame frames 0, some frame)
]

unfoldable pub data_or_control : MuxScheduler → MuxScheduler × Option Frame
data_or_control s =
    let (after, found) = next_data 5 s in
    elim found [ some frame ↦ (after, some frame) | none ↦ last_control after ]

unfoldable pub next_frame : MuxScheduler → MuxScheduler × Option Frame
next_frame s = elim s.control [
  | [] ↦ data_or_control s
  | frame ∷ frames ↦
      if ltb s.control_burst 4
      then (pop_control s frame frames (s.control_burst + 1), some frame)
      else data_or_control s
]
