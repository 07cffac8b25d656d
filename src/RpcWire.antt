-- ===== src/RpcWire.antt =====
-- Business RPC frames and limits: crates/netbaiot-protocol/src/business_rpc/wire.rs. A frame header
-- is twelve bytes, its numbers big-endian; `flags & !RPC_END_STREAM != 0` of a byte is `2 ≤ flags`.
pub mod Header
pub mod Negotiation
pub mod Open
mod Runs
use netbaiot.Prelude.{
  Result, ℕ, zero, suc, ◌+◌, ◌-◌, ◌*◌, ◌/◌, ◌%◌, ◌^◌, ◌≤◌, ◌<◌, min, max, ◌≡◌, refl, sym, ap, ◌∙◌,
  ◌≢◌, ◌↔◌, ◌⊎◌, inl, inr, Bool, true, false, not, ◌&&◌, ◌||◌, Option, none, some, List, [], ◌∷◌,
  ◌++◌, map, arith, ltb, leb, ◌==◌, if◌then◌else◌, leb→le, ltb→lt, ==_iff, Bool-cases, Option-cases,
  Eq, nat_eq, str_eq, str_eq_iff, string_eq, length, get_elem?, take, drop, All, length-append,
  take-append-drop, take-append, drop-append, length-take, length-drop, ok, err, ◌>>=◌, ◌>>◌,
  ensure, ok_or, Result-cases, usize_limit, checked_add, checked_mul, checked_sub, saturating_add,
  lt_wf,
}

pub data RpcFrameType : Type 0 where
  open_stream accept response data_frame window_update : RpcFrameType
  reset_stream close_stream ping pong go_away : RpcFrameType

pub data RpcWireError : Type 0 where
  truncated unknown_frame_type reserved flags_invalid : RpcWireError
  stream_id_invalid length_invalid metadata limits_invalid : RpcWireError

abbrev pub max_metadata_bytes : ℕ
max_metadata_bytes = 4096

abbrev pub hard_max_frame_payload_bytes : ℕ
hard_max_frame_payload_bytes = 16384

abbrev pub max_stream_id : ℕ
max_stream_id = 0x7fff_ffff

abbrev pub end_stream : ℕ
end_stream = 1

abbrev pub max_message_bytes : ℕ
max_message_bytes = 8_388_608

unfoldable pub type_byte : RpcFrameType → ℕ
type_byte open_stream = 1
type_byte accept = 2
type_byte response = 3
type_byte data_frame = 4
type_byte window_update = 5
type_byte reset_stream = 6
type_byte close_stream = 7
type_byte ping = 8
type_byte pong = 9
type_byte go_away = 10

unfoldable pub try_from : ℕ → Result RpcWireError RpcFrameType
try_from value =
    if value == 1
    then ok open_stream
    else (if value == 2
        then ok accept
        else (if value == 3
            then ok response
            else (if value == 4
                then ok data_frame
                else (if value == 5
                    then ok window_update
                    else (if value == 6
                        then ok reset_stream
                        else (if value == 7
                            then ok close_stream
                            else (if value == 8
                                then ok ping
                                else (if value == 9
                                    then ok pong
                                    else (if value == 10
                                        then ok go_away
                                        else err unknown_frame_type)))))))))

pub record RpcFrameHeader : Type 0 where
  pub payload_len : ℕ
  pub stream_id : ℕ
  pub frame_type : RpcFrameType
  pub flags : ℕ

unfoldable pub be32 : ℕ → ℕ → ℕ → ℕ → ℕ
be32 a b c d = a * 16777216 + b * 65536 + c * 256 + d

-- `matches!(frame_type, Data | Response)` and the like.
unfoldable pub carries_flags : RpcFrameType → Bool
carries_flags data_frame = true
carries_flags response = true
carries_flags _ = false

unfoldable pub is_connection_type : RpcFrameType → Bool
is_connection_type ping = true
is_connection_type pong = true
is_connection_type go_away = true
is_connection_type _ = false

unfoldable pub is_window_update : RpcFrameType → Bool
is_window_update window_update = true
is_window_update _ = false

-- The tests of the length that depend on the type.
unfoldable pub length_refused : RpcFrameType → ℕ → ℕ → Bool
length_refused open_stream len flags = ltb max_metadata_bytes len || len == 0
length_refused accept len flags = ltb max_metadata_bytes len || len == 0
length_refused response len flags = ltb max_metadata_bytes len || len == 0
length_refused data_frame len flags = len == 0 && not (flags == end_stream)
length_refused window_update len flags = ltb max_metadata_bytes len || not (len == 4)
length_refused reset_stream len flags = ltb max_metadata_bytes len || len == 0
length_refused close_stream len flags = ltb max_metadata_bytes len || not (len == 0)
length_refused ping len flags = ltb max_metadata_bytes len || not (len == 8)
length_refused pong len flags = ltb max_metadata_bytes len || not (len == 8)
length_refused go_away len flags = ltb max_metadata_bytes len || len == 0

-- The tests after the numbers are read, in their order.
unfoldable pub check : RpcFrameHeader → ℕ → ℕ → ℕ → Result RpcWireError RpcFrameHeader
check h r10 r11 max_frame_payload = do
  ensure (r10 == 0 && r11 == 0) reserved
  ensure (not (leb 2 h.flags) && (h.flags == 0 || carries_flags h.frame_type)) flags_invalid
  ensure
      (leb h.stream_id max_stream_id
        && (not (h.stream_id == 0)
            || (is_connection_type h.frame_type || is_window_update h.frame_type))
        && (h.stream_id == 0 || not (is_connection_type h.frame_type)))
      stream_id_invalid
  ensure
      (leb h.payload_len (min max_frame_payload hard_max_frame_payload_bytes)
        && not (length_refused h.frame_type h.payload_len h.flags))
      length_invalid
  ok h

unfoldable pub parse : List ℕ → ℕ → Result RpcWireError RpcFrameHeader
parse (b0 ∷ b1 ∷ b2 ∷ b3 ∷ b4 ∷ b5 ∷ b6 ∷ b7 ∷ b8 ∷ b9 ∷ b10 ∷ b11 ∷ []) max_frame_payload = do
  frame_type ← try_from b8
  check
      (record {
        payload_len = be32 b0 b1 b2 b3;
        stream_id = be32 b4 b5 b6 b7;
        frame_type = frame_type;
        flags = b9;
      })
      b10 b11 max_frame_payload
parse _ max_frame_payload = err truncated

unfoldable pub to_be32 : ℕ → List ℕ
to_be32 n = n / 16777216 % 256 ∷ n / 65536 % 256 ∷ n / 256 % 256 ∷ n % 256 ∷ []

unfoldable pub encode : RpcFrameHeader → List ℕ
encode h =
    to_be32 h.payload_len
    ++ (to_be32 h.stream_id ++ (type_byte h.frame_type ∷ h.flags ∷ 0 ∷ 0 ∷ []))

pub record RpcLimits : Type 0 where
  pub max_frame_payload_bytes : ℕ
  pub max_concurrent_streams : ℕ
  pub initial_stream_window_bytes : ℕ
  pub initial_connection_window_bytes : ℕ
  pub heartbeat_ms : ℕ

-- `RpcLimits::default()`
abbrev pub default_limits : RpcLimits
default_limits = record {
  max_frame_payload_bytes = 8192;
  max_concurrent_streams = 256;
  initial_stream_window_bytes = 262_144;
  initial_connection_window_bytes = 4_194_304;
  heartbeat_ms = 5000;
}

unfoldable pub validate : RpcLimits → Result RpcWireError (Unit {0})
validate l =
    ensure
      (leb 4096 l.max_frame_payload_bytes
        && leb l.max_frame_payload_bytes hard_max_frame_payload_bytes
        && not (l.max_concurrent_streams == 0)
        && leb l.max_concurrent_streams 4096
        && leb l.max_frame_payload_bytes l.initial_stream_window_bytes
        && leb l.initial_stream_window_bytes l.initial_connection_window_bytes
        && leb l.initial_connection_window_bytes 0x7fff_ffff
        && not (l.heartbeat_ms == 0)
        && leb l.heartbeat_ms 60_000)
      limits_invalid

abbrev pub narrowest : RpcLimits → RpcLimits → RpcLimits
narrowest own peer = record {
  max_frame_payload_bytes = min own.max_frame_payload_bytes peer.max_frame_payload_bytes;
  max_concurrent_streams = min own.max_concurrent_streams peer.max_concurrent_streams;
  initial_stream_window_bytes =
      min own.initial_stream_window_bytes peer.initial_stream_window_bytes;
  initial_connection_window_bytes =
      min own.initial_connection_window_bytes peer.initial_connection_window_bytes;
  heartbeat_ms = max own.heartbeat_ms peer.heartbeat_ms;
}

unfoldable pub negotiate : RpcLimits → RpcLimits → Result RpcWireError RpcLimits
negotiate own peer = do
  validate own
  validate peer
  validate (narrowest own peer)
  ok (narrowest own peer)
