-- ===== src/Tcp/Receipts.antt =====
-- Round trips of crates/netbaiot-protocol/src/tcp_frame.rs and tcp_ack.rs.
use netbaiot.Prelude.{
  list_beq, Result, ℕ, ◌/◌, ◌%◌, ◌≤◌, ◌<◌, ◌≡◌, ap, ◌∙◌, List, [], ◌∷◌, arith, nat_eq, string_eq,
  length, ok, usize_limit,
}
use netbaiot.RpcWire.{be32, to_be32}
use netbaiot.RpcWire.Header.{be32-to_be32}
use netbaiot.Tcp.{
  payload, decode_header, payload_header, ack_flag, EventAccepted, to_be64, be64, encode_receipt,
  decode_receipt, decode_frame,
}

be64-to_be64 : (n : ℕ) → n < usize_limit → be64 (to_be64 n) ≡ n
unfolding be64 to_be64 to_be32
be64-to_be64 n h = omega (
  arith,
  be32-to_be32 (n / 4_294_967_296) (omega arith),
  be32-to_be32 (n % 4_294_967_296) (omega arith),
)

sixteen_bytes :
    (event_id : List ℕ) (accepted_at required best_effort : ℕ)
    → length event_id ≡ 16
    → accepted_at < usize_limit
    → required < usize_limit
    → best_effort < usize_limit
    → decode_frame (
        encode_receipt (record {
          event_id = event_id;
          accepted_at = accepted_at;
          required_deliveries = required;
          best_effort_deliveries = best_effort;
        }))
      ≡ ok (record {
        event_id = event_id;
        accepted_at = accepted_at;
        required_deliveries = required;
        best_effort_deliveries = best_effort;
      })
unfolding decode_frame encode_receipt decode_receipt to_be64 to_be32 list_beq
sixteen_bytes
      (x0 ∷ x1 ∷ x2 ∷ x3 ∷ x4 ∷ x5 ∷ x6 ∷ x7 ∷ x8 ∷ x9 ∷ x10 ∷ x11 ∷ x12 ∷ x13 ∷ x14 ∷ x15 ∷ []) a r
      b h ha hr hb =
    let read : ℕ → ℕ → ℕ → Result (Unit {0}) EventAccepted = λ u v w. ok (record {
      event_id =
          x0 ∷ x1 ∷ x2 ∷ x3 ∷ x4 ∷ x5 ∷ x6 ∷ x7 ∷ x8 ∷ x9 ∷ x10 ∷ x11 ∷ x12 ∷ x13 ∷ x14 ∷ x15 ∷ [];
      accepted_at = u;
      required_deliveries = v;
      best_effort_deliveries = w;
    }) in
    ap (λ u. read u (be64 (to_be64 r)) (be64 (to_be64 b))) (be64-to_be64 a ha)
    ∙ ap (λ v. read a v (be64 (to_be64 b))) (be64-to_be64 r hr)
    ∙ ap (λ w. read a r w) (be64-to_be64 b hb)
sixteen_bytes _ a r b h ha hr hb = absurd (omega arith)

-- Every receipt that is encoded comes back from its frame unchanged.
pub decode_frame-encode_receipt :
    (receipt : EventAccepted)
    → length receipt.event_id ≡ 16
    → receipt.accepted_at < usize_limit
    → receipt.required_deliveries < usize_limit
    → receipt.best_effort_deliveries < usize_limit
    → decode_frame (encode_receipt receipt) ≡ ok receipt
decode_frame-encode_receipt receipt h ha hr hb =
    sixteen_bytes receipt.event_id receipt.accepted_at receipt.required_deliveries
      receipt.best_effort_deliveries h ha hr hb

-- A header that payload_header writes is read back as a payload of the length, if the length is
-- within the maximum.
pub decode_header-payload_header :
    (len maximum b0 b1 b2 b3 : ℕ)
    → len ≤ maximum
    → payload_header len ≡ ok (b0 ∷ b1 ∷ b2 ∷ b3 ∷ [])
    → decode_header b0 b1 b2 b3 maximum ≡ ok (payload, len)
unfolding decode_header payload_header to_be32
decode_header-payload_header len maximum b0 b1 b2 b3 fits h =
    let legal : (0 < len) × (len < ack_flag) = (ground arith, ground arith) in
    let bytes : (b0 ≡ len / 16777216 % 256)
        × (b1 ≡ len / 65536 % 256)
        × (b2 ≡ len / 256 % 256)
        × (b3 ≡ len % 256) =
      (ground arith, ground arith, ground arith, ground arith) in
    let (e0, e1, e2, e3) = bytes in
    let value : be32 b0 b1 b2 b3 ≡ len = rw (e0, e1, e2, e3) (be32-to_be32 len (omega arith)) in
    ground (arith, value, legal, fits)
