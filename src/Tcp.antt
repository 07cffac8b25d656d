-- ===== src/Tcp.antt =====
-- Native TCP frames and receipts: crates/netbaiot-protocol/src/tcp_frame.rs and tcp_ack.rs. Their
-- one error has no fields, so it is `tt`. A signed time is the number of its 64 bits, a Uuid its
-- sixteen bytes.
mod Receipts
mod Runs
use netbaiot.Prelude.{
  Result, ℕ, zero, suc, ◌+◌, ◌-◌, ◌*◌, ◌/◌, ◌%◌, ◌^◌, ◌≤◌, ◌<◌, min, max, ◌≡◌, refl, sym, ap, ◌∙◌,
  ◌≢◌, ◌↔◌, ◌⊎◌, inl, inr, Bool, true, false, not, ◌&&◌, ◌||◌, Option, none, some, List, [], ◌∷◌,
  ◌++◌, map, arith, ltb, leb, ◌==◌, if◌then◌else◌, leb→le, ltb→lt, ==_iff, Bool-cases, Option-cases,
  Eq, nat_eq, str_eq, str_eq_iff, string_eq, length, get_elem?, take, drop, All, length-append,
  take-append-drop, take-append, drop-append, length-take, length-drop, ok, err, ◌>>=◌, ◌>>◌,
  ensure, ok_or, Result-cases, usize_limit, checked_add, checked_mul, checked_sub, wrapping_sub,
  saturating_add, lt_wf,
}
use netbaiot.RpcWire.{be32, to_be32}

abbrev pub ack_flag : ℕ
ack_flag = 2_147_483_648

abbrev pub ack_body_len : ℕ
ack_body_len = 42

pub data FrameKind : Type 0 where
  payload event_accepted : FrameKind

-- `raw & ACK_FLAG` and `raw & LENGTH_MASK` are quotient and remainder by the flag.
unfoldable pub decode_header : ℕ → ℕ → ℕ → ℕ → ℕ → Result (Unit {0}) (FrameKind × ℕ)
decode_header b0 b1 b2 b3 maximum =
    let raw = be32 b0 b1 b2 b3 in
    let len = raw % ack_flag in
    if len == 0 || ltb maximum len
    then err tt
    else (if raw / ack_flag % 2 == 0
        then ok (payload, len)
        else (if not (len == ack_body_len) then err tt else ok (event_accepted, len)))

unfoldable pub payload_header : ℕ → Result (Unit {0}) (List ℕ)
payload_header len =
    if leb (2 ^ 32) len
    then err tt
    else (if len == 0 || leb ack_flag len then err tt else ok (to_be32 len))

pub record EventAccepted : Type 0 where
  pub event_id : List ℕ
  pub accepted_at : ℕ
  pub required_deliveries : ℕ
  pub best_effort_deliveries : ℕ

unfoldable pub to_be64 : ℕ → List ℕ
to_be64 n = to_be32 (n / 4_294_967_296) ++ to_be32 (n % 4_294_967_296)

unfoldable pub be64 : List ℕ → ℕ
be64 (b0 ∷ b1 ∷ b2 ∷ b3 ∷ b4 ∷ b5 ∷ b6 ∷ b7 ∷ []) =
    be32 b0 b1 b2 b3 * 4_294_967_296 + be32 b4 b5 b6 b7
be64 _ = 0

abbrev pub frame_header : List ℕ
frame_header = 128 ∷ 0 ∷ 0 ∷ 42 ∷ []

-- Counts are usize, 64 bits, so their conversion does not fail.
unfoldable pub encode_receipt : EventAccepted → List ℕ
encode_receipt receipt =
    frame_header
    ++ (1
        ∷ 1
        ∷ (receipt.event_id
            ++ (to_be64 receipt.accepted_at
                ++ (to_be64 receipt.required_deliveries
                    ++ to_be64 receipt.best_effort_deliveries))))

abbrev pub field : ℕ → ℕ → List ℕ → List ℕ
field from to bytes = take (to - from) (drop from bytes)

unfoldable pub decode_receipt : List ℕ → Result (Unit {0}) EventAccepted
decode_receipt body =
    if not (length body == ack_body_len)
    then err tt
    else (if not (str_eq (field 0 2 body) (1 ∷ 1 ∷ []))
        then err tt
        else (ok (record {
          event_id = field 2 18 body;
          accepted_at = be64 (field 18 26 body);
          required_deliveries = be64 (field 26 34 body);
          best_effort_deliveries = be64 (field 34 42 body);
        })))

unfoldable pub decode_frame : List ℕ → Result (Unit {0}) EventAccepted
decode_frame frame =
    if not (length frame == 46)
    then err tt
    else (if not (str_eq (take 4 frame) frame_header)
        then err tt
        else (decode_receipt (drop 4 frame)))
