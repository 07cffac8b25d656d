-- ===== src/Scheduler/Moves.antt =====
-- What the turn of a stream in `take_data` of crates/netbaiot-rpc-mux/src/lib.rs tests, and what
-- sending a piece moves.
use netbaiot.Prelude.{
  ℕ, ◌+◌, ◌-◌, ◌≤◌, ◌≡◌, refl, ap, ◌∙◌, inl, inr, false, Option, none, some, arith, ◌==◌,
  if◌then◌else◌, Bool-cases, Option-cases, nat_eq, string_eq, length, take, drop,
}
use netbaiot.Prelude.Map.{lookup, insert, lookup-insert, lookup-remove, beq_self}
use netbaiot.RpcWire.{end_stream}
use netbaiot.Scheduler.{
  Frame, new_frame, DataClass, rpc_class, event_class, SendAheadLimits, OutboundBody, MuxScheduler,
  has,
}
use netbaiot.Scheduler.Turns.{
  with_queue, barred, allowance, sends, sized, outstanding_of, or_zero, turn, sent, frame_of,
}

-- What is left of a body after `n` bytes of it went out: nothing, or the same bytes further on.
abbrev pub rest_of : OutboundBody → ℕ → Option OutboundBody
rest_of body n =
    if n == length body.bytes - body.cursor
    then none
    else some (record body { cursor = body.cursor + n })

-- The body, the window and what is uncredited of a stream are as they were.
abbrev pub Untouched : MuxScheduler → MuxScheduler → ℕ → Type 0
Untouched s after j =
    (lookup j after.bodies ≡ lookup j s.bodies)
    × (lookup j after.windows ≡ lookup j s.windows)
    × (or_zero (lookup j after.stream_uncredited) ≡ or_zero (lookup j s.stream_uncredited))

-- The piece is within both send-ahead limits, that of the connection and that of its stream, and is
-- counted against both.
abbrev pub Ahead : MuxScheduler → MuxScheduler → ℕ → ℕ → SendAheadLimits → Type 0
Ahead s after id size policy =
    (size ≤ policy.connection_bytes - s.conn_uncredited)
    × (size ≤ policy.stream_bytes - or_zero (lookup id s.stream_uncredited))
    × (after.conn_uncredited ≡ s.conn_uncredited + size)
    × (lookup id after.stream_uncredited ≡ some (or_zero (lookup id s.stream_uncredited) + size))

-- The frame is the next piece of its stream's body and the cursor moves past it; its stream is not held
-- back by metadata that still waits; the piece is within and taken from the windows and the send-ahead
-- limits; and nothing of another stream changes.
pub record Sends (s after : MuxScheduler) (frame : Frame) : Type 0 where
  pub body : OutboundBody
  pub window : ℕ
  pub size : ℕ
  pub waiting : lookup frame.header.stream_id s.bodies ≡ some body
  pub credited : lookup frame.header.stream_id s.windows ≡ some window
  pub not_barred : barred s.control frame.header.stream_id ≡ false
  pub piece : frame.payload ≡ take size (drop body.cursor body.bytes)
  pub no_more : size ≤ length body.bytes - body.cursor
  pub ends :
      frame.header.flags ≡ (if size == length body.bytes - body.cursor then end_stream else 0)
  pub within_frame : size ≤ s.max_frame
  pub within_stream : size ≤ window
  pub within_connection : size ≤ s.conn_window
  pub connection_taken : after.conn_window ≡ s.conn_window - size
  pub stream_taken : lookup frame.header.stream_id after.windows ≡ some (window - size)
  pub moved : lookup frame.header.stream_id after.bodies ≡ rest_of body size
  pub ahead :
      (policy : SendAheadLimits)
      → s.send_ahead ≡ some policy
      → Ahead s after frame.header.stream_id size policy
  pub others : (j : ℕ) → (frame.header.stream_id == j) ≡ false → Untouched s after j

pub frame_of-fields :
    (s : MuxScheduler) (id : ℕ) (body : OutboundBody) (n : ℕ) (frame : Frame)
    → frame_of s id body n ≡ some frame
    → (frame.header.stream_id ≡ id)
      × (frame.payload ≡ take n (drop body.cursor body.bytes))
      × (frame.header.flags ≡ (if n == length body.bytes - body.cursor then end_stream else 0))
unfolding frame_of new_frame
frame_of-fields s id body n frame h = (ground arith, ground arith, ground arith)

sized-sends :
    (s : MuxScheduler) (body b : OutboundBody) (window outstanding n w o m : ℕ)
    → sized s body window outstanding n ≡ sends b w o m
    → (b ≡ body) × (w ≡ window) × (o ≡ outstanding) × (m ≡ n)
unfolding sized
sized-sends s body b window outstanding n w o m h =
    (ground arith, ground arith, ground arith, ground arith)

pub turn-sends :
    (s : MuxScheduler) (id : ℕ) (body : OutboundBody) (window outstanding n : ℕ)
    → turn s id ≡ sends body window outstanding n
    → (lookup id s.bodies ≡ some body)
      × (lookup id s.windows ≡ some window)
      × (barred s.control id ≡ false)
      × (outstanding ≡ outstanding_of s id)
      × (n ≡ allowance s body window outstanding)
unfolding turn
turn-sends s id body window outstanding n h = elim (Option-cases (lookup id s.bodies)) [
  | inl absent ↦ absurd (cc (rw (turn, absent) at h))
  | inr (b, waiting) ↦ elim (Bool-cases (barred s.control id)) [
    | inl held ↦ absurd (cc (rw (turn, waiting, held) at h))
    | inr free ↦ elim (Option-cases (lookup id s.windows)) [
      | inl absent ↦ absurd (cc (rw (turn, waiting, free, absent) at h))
      | inr (w, credited) ↦
          let same =
            sized-sends s b body w (outstanding_of s id) (allowance s b w (outstanding_of s id))
              window outstanding n (rw (turn, waiting, free, credited) at h) in
          ground (arith, waiting, credited, free, same)
    ]
  ]
]

pub allowance-bounds :
    (s : MuxScheduler) (body : OutboundBody) (window outstanding : ℕ)
    → (allowance s body window outstanding ≤ length body.bytes - body.cursor)
      × (allowance s body window outstanding ≤ s.max_frame)
      × (allowance s body window outstanding ≤ window)
      × (allowance s body window outstanding ≤ s.conn_window)
unfolding allowance
allowance-bounds s body window outstanding = ground arith

allowance-ahead :
    (s : MuxScheduler) (body : OutboundBody) (window outstanding : ℕ) (policy : SendAheadLimits)
    → s.send_ahead ≡ some policy
    → (allowance s body window outstanding ≤ policy.connection_bytes - s.conn_uncredited)
      × (allowance s body window outstanding ≤ policy.stream_bytes - outstanding)
unfolding allowance
allowance-ahead s body window outstanding policy h = (ground arith, ground arith)

pub sent-fields :
    (s : MuxScheduler) (kind : DataClass) (id : ℕ) (body : OutboundBody) (window outstanding n : ℕ)
    → ((sent s kind id body window outstanding n).conn_window ≡ s.conn_window - n)
      × ((sent s kind id body window outstanding n).windows ≡ insert id (window - n) s.windows)
      × ((sent s kind id body window outstanding n).conn_uncredited
          ≡ (if has s.send_ahead then s.conn_uncredited + n else s.conn_uncredited))
      × ((sent s kind id body window outstanding n).stream_uncredited ≡ (
          if has s.send_ahead
          then insert id (outstanding + n) s.stream_uncredited
          else s.stream_uncredited))
unfolding sent with_queue
sent-fields s rpc_class id body window outstanding n =
    (ground arith, ground arith, ground arith, ground arith)
sent-fields s event_class id body window outstanding n =
    (ground arith, ground arith, ground arith, ground arith)

-- Of the bodies only that of the stream moves on, or leaves when it is through.
pub lookup-sent :
    (s : MuxScheduler) (kind : DataClass) (id j : ℕ) (body : OutboundBody)
    (window outstanding n : ℕ)
    → lookup j (sent s kind id body window outstanding n).bodies
      ≡ (if id == j then rest_of body n else lookup j s.bodies)
unfolding sent with_queue
lookup-sent s rpc_class id j body window outstanding n = ground (
  arith,
  lookup-remove id j s.bodies,
  lookup-insert id j (record body { cursor = body.cursor + n }) s.bodies,
)
lookup-sent s event_class id j body window outstanding n = ground (
  arith,
  lookup-remove id j s.bodies,
  lookup-insert id j (record body { cursor = body.cursor + n }) s.bodies,
)

pub sent-Ahead :
    (s : MuxScheduler) (kind : DataClass) (id : ℕ) (body : OutboundBody) (window n : ℕ)
    (policy : SendAheadLimits)
    → s.send_ahead ≡ some policy
    → n ≡ allowance s body window (outstanding_of s id)
    → Ahead s (sent s kind id body window (outstanding_of s id) n) id n policy
unfolding outstanding_of
sent-Ahead s kind id body window n policy with_policy size =
    let outstanding : ℕ = or_zero (lookup id s.stream_uncredited) in
    let same : outstanding_of s id ≡ outstanding = rw with_policy refl in
    let (conn, strm) = allowance-ahead s body window (outstanding_of s id) policy with_policy in
    let (c, w, conn_after, stream_after) =
      sent-fields s kind id body window (outstanding_of s id) n in
    (
      omega (arith, size, conn),
      omega (arith, size, strm, same),
      conn_after ∙ (rw with_policy refl),
      ap (lookup id) (stream_after ∙ (rw with_policy refl))
          ∙ lookup-insert id id (outstanding + n) s.stream_uncredited
          ∙ (rw (beq_self {K = ℕ} id) refl),
    )

pub sent-Untouched :
    (s : MuxScheduler) (kind : DataClass) (id j : ℕ) (body : OutboundBody)
    (window outstanding n : ℕ)
    → (id == j) ≡ false
    → Untouched s (sent s kind id body window outstanding n) j
sent-Untouched s kind id j body window outstanding n other =
    let (c, windows_after, u, uncredited_after) = sent-fields s kind id body window outstanding n in
    let put = lookup-insert id j (outstanding + n) s.stream_uncredited in
    (
      lookup-sent s kind id j body window outstanding n ∙ (rw other refl),
      ap (lookup j) windows_after ∙ lookup-insert id j (window - n) s.windows ∙ (rw other refl),
      ap (λ m. or_zero (lookup j m)) uncredited_after ∙ ground (arith, other, put),
    )
