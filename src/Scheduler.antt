-- ===== src/Scheduler.antt =====
-- The outbound scheduler of crates/netbaiot-rpc-mux/src/lib.rs: `Frame`, `SendAheadLimits` and the
-- state of `MuxScheduler` with what enters it. A deque is a list, its front first.
pub mod Turns
mod Moves
mod Credit
mod Ready
mod Work
mod Runs
use netbaiot.Prelude.{
  Result, ℕ, zero, suc, ◌+◌, ◌-◌, ◌*◌, ◌/◌, ◌%◌, ◌^◌, ◌≤◌, ◌<◌, min, max, ◌≡◌, refl, sym, ap, ◌∙◌,
  ◌≢◌, ◌↔◌, ◌⊎◌, inl, inr, Bool, true, false, not, ◌&&◌, ◌||◌, Option, none, some, List, [], ◌∷◌,
  ◌++◌, map, arith, ltb, leb, ◌==◌, if◌then◌else◌, leb→le, ltb→lt, ==_iff, Bool-cases, Option-cases,
  Eq, nat_eq, str_eq, str_eq_iff, string_eq, length, get_elem?, take, drop, All, length-append,
  take-append-drop, take-append, drop-append, length-take, length-drop, ok, err, ◌>>=◌, ◌>>◌,
  ensure, ok_or, Result-cases, usize_limit, checked_add, checked_mul, checked_sub, wrapping_sub,
  saturating_add, lt_wf,
}
use netbaiot.Prelude.Map.{lookup, insert, remove}
use netbaiot.RpcWire.{
  RpcWireError, RpcLimits, RpcFrameType, open_stream, response, RpcFrameHeader, encode, parse,
  validate, length_invalid, max_stream_id, max_message_bytes,
}
use netbaiot.Mux.{MuxError, connection, stream, flow_control, overloaded, message_too_large}

pub record Frame : Type 0 where
  pub header : RpcFrameHeader
  pub payload : List ℕ

unfoldable pub new_frame : ℕ → RpcFrameType → ℕ → List ℕ → ℕ → Result MuxError Frame
new_frame stream_id frame_type flags payload most =
    if leb (2 ^ 32) (length payload)
    then err message_too_large
    else (let header : RpcFrameHeader = record {
      payload_len = length payload;
      stream_id = stream_id;
      frame_type = frame_type;
      flags = flags;
    } in
        elim (parse (encode header) most) [
          | ok read ↦ ok (record { header = header; payload = payload })
          | err e ↦ err (connection e)
        ])

pub data DataClass : Type 0 where
  rpc_class event_class : DataClass

pub record SendAheadLimits : Type 0 where
  pub stream_bytes : ℕ
  pub connection_bytes : ℕ

unfoldable pub validate_ahead : SendAheadLimits → RpcLimits → Result MuxError (Unit {0})
validate_ahead policy limits =
    ensure
      (not (
        ltb policy.stream_bytes limits.max_frame_payload_bytes
        || ltb policy.connection_bytes policy.stream_bytes
        || ltb 16_777_216 policy.connection_bytes))
      flow_control

pub record OutboundBody : Type 0 where
  pub bytes : List ℕ
  pub cursor : ℕ

pub record MuxScheduler : Type 0 where
  pub max_frame : ℕ
  pub conn_window : ℕ
  pub conn_max : ℕ
  pub stream_max : ℕ
  pub send_ahead : Option SendAheadLimits
  pub conn_uncredited : ℕ
  pub stream_uncredited : List (ℕ × ℕ)
  pub queued_bytes : ℕ
  pub byte_limit : ℕ
  pub control : List Frame
  pub control_bytes : ℕ
  pub bodies : List (ℕ × OutboundBody)
  pub windows : List (ℕ × ℕ)
  pub max_streams : ℕ
  pub rpc_queue : List ℕ
  pub event_queue : List ℕ
  pub class_turn : ℕ
  pub control_burst : ℕ

unfoldable pub validate_policy : Option SendAheadLimits → RpcLimits → Result MuxError (Unit {0})
validate_policy none limits = ok tt
validate_policy (some policy) limits = validate_ahead policy limits

unfoldable pub limits_valid : RpcLimits → Result MuxError (Unit {0})
limits_valid limits = elim (validate limits) [ ok u ↦ ok tt | err e ↦ err (connection e) ]

unfoldable pub with_send_ahead :
    RpcLimits → ℕ → Option SendAheadLimits → Result MuxError MuxScheduler
with_send_ahead limits byte_limit send_ahead = do
  limits_valid limits
  validate_policy send_ahead limits
  ensure (not (byte_limit == 0)) overloaded
  ok (record {
    max_frame = limits.max_frame_payload_bytes;
    conn_window = limits.initial_connection_window_bytes;
    conn_max = limits.initial_connection_window_bytes;
    stream_max = limits.initial_stream_window_bytes;
    send_ahead = send_ahead;
    conn_uncredited = 0;
    stream_uncredited = [];
    queued_bytes = 0;
    byte_limit = byte_limit;
    control = [];
    control_bytes = 0;
    bodies = [];
    windows = [];
    max_streams = limits.max_concurrent_streams;
    rpc_queue = [];
    event_queue = [];
    class_turn = 0;
    control_burst = 0;
  })

unfoldable pub new : RpcLimits → ℕ → Result MuxError MuxScheduler
new limits byte_limit = with_send_ahead limits byte_limit none

-- The gauge `queued_bytes()`.
unfoldable pub all_queued_bytes : MuxScheduler → ℕ
all_queued_bytes s = s.queued_bytes + s.control_bytes

abbrev pub is_nil {ℓ} : {A : Type ℓ} → List A → Bool
is_nil [] = true
is_nil (x ∷ xs) = false

unfoldable pub has_pending_frames : MuxScheduler → Bool
has_pending_frames s = not (is_nil s.control) || not (is_nil s.bodies)

abbrev pub has {ℓ} : {A : Type ℓ} → Option A → Bool
has none = false
has (some a) = true

unfoldable pub queue_control : MuxScheduler → Frame → Result MuxError MuxScheduler
queue_control s frame = do
  ensure (not (leb 64 (length s.control))) overloaded
  total ← ok_or (checked_add s.control_bytes (length frame.payload + 12)) overloaded
  ensure (leb total 262_144) overloaded
  ok (record s { control_bytes = total; control = s.control ++ (frame ∷ []) })

-- `entry(id).or_insert(value)`
abbrev pub or_insert : ℕ → ℕ → List (ℕ × ℕ) → List (ℕ × ℕ)
or_insert id value entries = elim (lookup id entries) [
  | none ↦ insert id value entries
  | some present ↦ entries
]

unfoldable pub push_class : MuxScheduler → DataClass → ℕ → MuxScheduler
push_class s rpc_class id = record s { rpc_queue = s.rpc_queue ++ (id ∷ []) }
push_class s event_class id = record s { event_queue = s.event_queue ++ (id ∷ []) }

unfoldable pub queue_body : MuxScheduler → ℕ → DataClass → List ℕ → Result MuxError MuxScheduler
queue_body s id kind bytes = do
  ensure
      (not (
        id == 0
        || ltb max_stream_id id
        || has (lookup id s.bodies)
        || ltb max_message_bytes (length bytes)))
      message_too_large
  total ← ok_or (checked_add s.queued_bytes (length bytes)) overloaded
  ensure
      (not (
        ltb s.byte_limit total
        || (not (has (lookup id s.windows)) && leb s.max_streams (length s.windows))))
      overloaded
  ok (
      push_class
        (record s {
          queued_bytes = total;
          windows = or_insert id s.stream_max s.windows;
          stream_uncredited =
              if has s.send_ahead then or_insert id 0 s.stream_uncredited else s.stream_uncredited;
          bodies = insert id (record { bytes = bytes; cursor = 0 }) s.bodies;
        })
        kind id)

-- `checked_add(increment).filter(|n| *n <= max)` on a u32.
unfoldable pub widen : ℕ → ℕ → ℕ → Option ℕ
widen window increment most =
    if ltb (window + increment) (2 ^ 32) && leb (window + increment) most
    then some (window + increment)
    else none

-- `saturating_sub` is `-` on these numbers.
unfoldable pub paid : ℕ → ℕ → List (ℕ × ℕ) → List (ℕ × ℕ)
paid id increment entries = elim (lookup id entries) [
  | none ↦ entries
  | some outstanding ↦ insert id (outstanding - increment) entries
]

unfoldable pub window_update : MuxScheduler → ℕ → ℕ → Result MuxError MuxScheduler
window_update s zero increment = do
  ensure (not (increment == 0)) flow_control
  window ← ok_or (widen s.conn_window increment s.conn_max) (connection length_invalid)
  ok (record s { conn_window = window; conn_uncredited = s.conn_uncredited - increment })
window_update s (suc id) increment = do
  ensure (not (increment == 0)) flow_control
  old ← ok_or (lookup (suc id) s.windows) stream
  window ← ok_or (widen old increment s.stream_max) flow_control
  ok (record s {
    windows = insert (suc id) window s.windows;
    stream_uncredited = paid (suc id) increment s.stream_uncredited;
  })

unfoldable pub retain_not : ℕ → List ℕ → List ℕ
retain_not id [] = []
retain_not id (entry ∷ queue) =
    let rest = retain_not id queue in if entry == id then rest else entry ∷ rest

unfoldable pub reset_stream_state : MuxScheduler → ℕ → MuxScheduler
reset_stream_state s id = record s {
  queued_bytes = elim (lookup id s.bodies) [
    | none ↦ s.queued_bytes
    | some body ↦ wrapping_sub s.queued_bytes (length body.bytes)
  ];
  bodies = remove id s.bodies;
  windows = remove id s.windows;
  stream_uncredited = remove id s.stream_uncredited;
  rpc_queue = retain_not id s.rpc_queue;
  event_queue = retain_not id s.event_queue;
}
