-- ===== src/RpcWire/Header.antt =====
-- Frame headers of crates/netbaiot-protocol/src/business_rpc/wire.rs: `parse` against `encode`.
use netbaiot.Prelude.{
  ℕ, ◌+◌, ◌/◌, ◌%◌, ◌^◌, ◌≤◌, ◌<◌, ◌≡◌, refl, sym, ◌∙◌, ◌↔◌, inl, inr, List, [], ◌∷◌, arith, nat_eq,
  string_eq, All, ok, Result-cases,
}
use netbaiot.RpcWire.{
  RpcFrameType, open_stream, accept, response, data_frame, window_update, reset_stream,
  close_stream, ping, pong, go_away, RpcFrameHeader, be32, to_be32, type_byte, try_from, check,
  parse, encode, length_refused, carries_flags, is_connection_type, is_window_update, max_stream_id,
  hard_max_frame_payload_bytes,
}

abbrev pub IsByte : ℕ → Type 0
IsByte b = b < 256

type_byte-try_from : (b : ℕ) (t : RpcFrameType) → try_from b ≡ ok t → type_byte t ≡ b
unfolding try_from type_byte
type_byte-try_from b t h = ground arith

try_from-type_byte : (t : RpcFrameType) → try_from (type_byte t) ≡ ok t
unfolding try_from type_byte
try_from-type_byte open_stream = refl
try_from-type_byte _ = refl

to_be32-be32 :
    (a b c d : ℕ)
    → a < 256
    → b < 256
    → c < 256
    → d < 256
    → to_be32 (be32 a b c d) ≡ a ∷ b ∷ c ∷ d ∷ []
unfolding to_be32 be32
to_be32-be32 a b c d ha hb hc hd = ground arith

pub be32-to_be32 :
    (n : ℕ) → n < 2 ^ 32 → be32 (n / 16777216 % 256) (n / 65536 % 256) (n / 256 % 256) (n % 256) ≡ n
unfolding be32
be32-to_be32 n h = omega arith

check_ok :
    (h r : RpcFrameHeader) (r10 r11 max_frame_payload : ℕ)
    → check h r10 r11 max_frame_payload ≡ ok r
    → (r ≡ h) × (r10 ≡ 0) × (r11 ≡ 0)
unfolding check
check_ok h r r10 r11 max_frame_payload e = ground arith

-- Every header that `parse` accepts is written back by `encode` to the same twelve bytes.
pub encode-parse :
    (bytes : List ℕ) (max_frame_payload : ℕ) (h : RpcFrameHeader)
    → All IsByte bytes
    → parse bytes max_frame_payload ≡ ok h
    → encode h ≡ bytes
unfolding parse encode
encode-parse (b0 ∷ b1 ∷ b2 ∷ b3 ∷ b4 ∷ b5 ∷ b6 ∷ b7 ∷ b8 ∷ b9 ∷ b10 ∷ b11 ∷ []) max_frame_payload h
      (h0, (h1, (h2, (h3, (h4, (h5, (h6, (h7, rest)))))))) e =
    elim (Result-cases (try_from b8)) [
      | inl (t, et) ↦
          let read : RpcFrameHeader = record {
            payload_len = be32 b0 b1 b2 b3;
            stream_id = be32 b4 b5 b6 b7;
            frame_type = t;
            flags = b9;
          } in
          let (same, z10, z11) = check_ok read h b10 b11 max_frame_payload (rw et at e) in
          ground (
            arith,
            same,
            z10,
            z11,
            to_be32-be32 b0 b1 b2 b3 h0 h1 h2 h3,
            to_be32-be32 b4 b5 b6 b7 h4 h5 h6 h7,
            type_byte-try_from b8 t et,
          )
      | inr (x, ex) ↦ absurd (cc (rw ex at e))
    ]
encode-parse _ max_frame_payload h are_bytes e = cc

-- What a frame of each type may carry: its stream, its flags and its length.
abbrev pub Fits : RpcFrameType → ℕ → ℕ → ℕ → Type 0
Fits open_stream stream flags len = (0 < stream) × (flags ≡ 0) × (0 < len) × (len ≤ 4096)
Fits accept stream flags len = (0 < stream) × (flags ≡ 0) × (0 < len) × (len ≤ 4096)
Fits response stream flags len = (0 < stream) × (flags ≤ 1) × (0 < len) × (len ≤ 4096)
Fits data_frame stream flags len = (0 < stream) × (flags ≤ 1) × (0 < len + flags)
Fits window_update stream flags len = (flags ≡ 0) × (len ≡ 4)
Fits reset_stream stream flags len = (0 < stream) × (flags ≡ 0) × (0 < len) × (len ≤ 4096)
Fits close_stream stream flags len = (0 < stream) × (flags ≡ 0) × (len ≡ 0)
Fits ping stream flags len = (stream ≡ 0) × (flags ≡ 0) × (len ≡ 8)
Fits pong stream flags len = (stream ≡ 0) × (flags ≡ 0) × (len ≡ 8)
Fits go_away stream flags len = (stream ≡ 0) × (flags ≡ 0) × (0 < len) × (len ≤ 4096)

abbrev pub IsLegal : RpcFrameHeader → ℕ → Type 0
IsLegal h max_frame_payload =
    (h.stream_id ≤ max_stream_id)
    × (h.payload_len ≤ max_frame_payload)
    × (h.payload_len ≤ hard_max_frame_payload_bytes)
    × Fits h.frame_type h.stream_id h.flags h.payload_len

abbrev header : RpcFrameType → ℕ → ℕ → ℕ → RpcFrameHeader
header t stream flags len = record {
  payload_len = len;
  stream_id = stream;
  frame_type = t;
  flags = flags;
}

check-IsLegal :
    (t : RpcFrameType) (stream flags len max_frame_payload : ℕ)
    → check (header t stream flags len) 0 0 max_frame_payload ≡ ok (header t stream flags len)
    → IsLegal (header t stream flags len) max_frame_payload
unfolding check length_refused carries_flags is_connection_type is_window_update
check-IsLegal open_stream stream flags len m h = ground arith
check-IsLegal _ stream flags len m h = ground arith

IsLegal-check :
    (t : RpcFrameType) (stream flags len max_frame_payload : ℕ)
    → IsLegal (header t stream flags len) max_frame_payload
    → check (header t stream flags len) 0 0 max_frame_payload ≡ ok (header t stream flags len)
unfolding check length_refused carries_flags is_connection_type is_window_update
IsLegal-check open_stream stream flags len m h = ground arith
IsLegal-check _ stream flags len m h = ground arith

parse-check :
    (h : RpcFrameHeader) (max_frame_payload : ℕ)
    → h.payload_len < 2 ^ 32
    → h.stream_id < 2 ^ 32
    → parse (encode h) max_frame_payload ≡ check h 0 0 max_frame_payload
unfolding parse encode to_be32
parse-check h m hp hs =
    rw (try_from-type_byte h.frame_type, be32-to_be32 h.payload_len hp, be32-to_be32 h.stream_id hs)

-- `parse` accepts just the encoded headers whose stream, flags and length suit their type, and reads
-- them back unchanged.
pub parse-encode :
    (h : RpcFrameHeader) (max_frame_payload : ℕ)
    → h.payload_len < 2 ^ 32
    → h.stream_id < 2 ^ 32
    → (parse (encode h) max_frame_payload ≡ ok h) ↔ IsLegal h max_frame_payload
parse-encode h m hp hs = (
  λ e.
      check-IsLegal h.frame_type h.stream_id h.flags h.payload_len m
        (sym (parse-check h m hp hs) ∙ e),
  λ l. parse-check h m hp hs ∙ IsLegal-check h.frame_type h.stream_id h.flags h.payload_len m l,
)
