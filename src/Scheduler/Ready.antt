-- ===== src/Scheduler/Ready.antt =====
-- When the turn of a stream in `take_data` of crates/netbaiot-rpc-mux/src/lib.rs sends, and that a frame
-- can be made of what it sends.
use netbaiot.Prelude.{
  ℕ, ◌-◌, ◌^◌, ◌≤◌, ◌<◌, ◌≡◌, refl, sym, ap, ◌∙◌, ◌⊎◌, false, Option, none, some, List, arith, ◌==◌,
  if◌then◌else◌, nat_eq, string_eq, length, take, drop, length-take, length-drop, ok,
}
use netbaiot.Prelude.Map.{lookup}
use netbaiot.RpcWire.{
  RpcFrameHeader, parse, encode, data_frame, end_stream, max_stream_id,
  hard_max_frame_payload_bytes,
}
use netbaiot.RpcWire.Header.{parse-encode}
use netbaiot.Scheduler.{Frame, new_frame, SendAheadLimits, OutboundBody, MuxScheduler}
use netbaiot.Scheduler.Turns.{
  barred, allowance, sends, sized, or_zero, outstanding_of, turn, as_option, frame_of,
}
use netbaiot.Scheduler.Moves.{turn-sends, allowance-bounds}

-- Stream identifiers that a frame can name.
abbrev pub IsStream : ℕ → Type 0
IsStream id = (0 < id) × (id ≤ max_stream_id)

-- A stream whose body waits and that is held back by nothing: its OPEN or RESPONSE is gone, and where
-- the body has bytes left, the frame size, both windows and both send-ahead limits leave room for one.
pub record CanSend (s : MuxScheduler) (id : ℕ) : Type 0 where
  pub body : OutboundBody
  pub window : ℕ
  pub waiting : lookup id s.bodies ≡ some body
  pub credited : lookup id s.windows ≡ some window
  pub not_barred : barred s.control id ≡ false
  pub room :
      (length body.bytes - body.cursor ≡ 0)
      ⊎ ((0 < s.max_frame) × (0 < window) × (0 < s.conn_window))
  pub ahead :
      (policy : SendAheadLimits)
      → s.send_ahead ≡ some policy
      → (s.conn_uncredited < policy.connection_bytes)
        × (policy.connection_bytes < 2 ^ 32)
        × (or_zero (lookup id s.stream_uncredited) < policy.stream_bytes)
        × (policy.stream_bytes < 2 ^ 32)

sized-sends_now :
    (s : MuxScheduler) (id : ℕ) (can : CanSend s id) (policy : Option SendAheadLimits)
    → s.max_frame ≤ hard_max_frame_payload_bytes
    → s.send_ahead ≡ policy
    → (n : ℕ) → n ≡ allowance s can.body can.window (outstanding_of s id)
    → sized s can.body can.window (outstanding_of s id) n
      ≡ sends can.body can.window (outstanding_of s id) n
unfolding sized allowance outstanding_of
sized-sends_now s id can none small free n size = ground (arith, can.room, free, small, size)
sized-sends_now s id can (some policy) small limited n size =
    ground (arith, can.room, limited, small, size, can.ahead policy limited)

pub CanSend-turn :
    (s : MuxScheduler) (id : ℕ) (can : CanSend s id)
    → s.max_frame ≤ hard_max_frame_payload_bytes
    → turn s id
      ≡ sends can.body can.window
          (outstanding_of s id)
          (allowance s can.body can.window (outstanding_of s id))
unfolding turn
CanSend-turn s id can small =
    rw (turn, can.waiting, can.not_barred, can.credited)
      (sized-sends_now s id can s.send_ahead small refl _ refl)

-- Of a turn that sends: the piece is not empty before the end of the body.
sized_last :
    (s : MuxScheduler) (body b : OutboundBody) (window outstanding n w o m : ℕ)
    → sized s body window outstanding n ≡ sends b w o m
    → n ≡ 0
    → length body.bytes - body.cursor ≡ 0
unfolding sized
sized_last s body b window outstanding n w o m h z = ground (arith, z)

turn_last :
    (s : MuxScheduler) (id : ℕ) (body : OutboundBody) (window outstanding n : ℕ)
    → turn s id ≡ sends body window outstanding n
    → n ≡ 0
    → length body.bytes - body.cursor ≡ 0
unfolding turn
turn_last s id body window outstanding n h z =
    let (waiting, credited, free, before, size) = turn-sends s id body window outstanding n h in
    let same : sized s body window (outstanding_of s id)
          (allowance s body window (outstanding_of s id))
        ≡ sends body window outstanding n =
      rw (turn, waiting, free, credited) at h in
    sized_last s body body window (outstanding_of s id)
      (allowance s body window (outstanding_of s id)) window outstanding n same
      (ap (allowance s body window) (sym before) ∙ sym size ∙ z)

new_frame-made :
    (id n left : ℕ) (payload : List ℕ) (most : ℕ)
    → IsStream id
    → length payload ≡ n
    → n ≤ most
    → most ≤ hard_max_frame_payload_bytes
    → (n ≡ 0 → left ≡ 0)
    → (frame : Frame) × (new_frame id data_frame (if n == left then end_stream else 0) payload most
        ≡ ok frame)
unfolding new_frame
new_frame-made id n left payload most legal size fits small last =
    let flags : ℕ = if n == left then end_stream else 0 in
    let header : RpcFrameHeader = record {
      payload_len = length payload;
      stream_id = id;
      frame_type = data_frame;
      flags = flags;
    } in
    let read : parse (encode header) most ≡ ok header =
      (parse-encode header most (omega (arith, size)) (omega arith)).1
        (ground (arith, size, last)) in
    (record { header = header; payload = payload }, ground (arith, size, read))

pub frame_of-made :
    (s : MuxScheduler) (id : ℕ) (body : OutboundBody) (window outstanding n : ℕ)
    → IsStream id
    → s.max_frame ≤ hard_max_frame_payload_bytes
    → turn s id ≡ sends body window outstanding n
    → (frame : Frame) × (frame_of s id body n ≡ some frame)
unfolding frame_of
frame_of-made s id body window outstanding n legal small h =
    let (waiting, credited, free, before, size) = turn-sends s id body window outstanding n h in
    let (whole, fits, strm, conn) = allowance-bounds s body window outstanding in
    let long : length (take n (drop body.cursor body.bytes)) ≡ n = ground (
      arith,
      size,
      whole,
      length-take n (drop body.cursor body.bytes),
      length-drop body.cursor body.bytes,
    ) in
    let (frame, made) =
      new_frame-made id n (length body.bytes - body.cursor) (take n (drop body.cursor body.bytes))
        s.max_frame legal long (omega (arith, size, fits)) small
        (turn_last s id body window outstanding n h) in
    (frame, ap as_option made)
