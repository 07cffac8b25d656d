-- ===== src/Tcp/Runs.antt =====
-- TCP frames at concrete inputs.
use netbaiot.Prelude.{◌≡◌, refl, [], ◌∷◌, arith, nat_eq, string_eq, ok}
use netbaiot.RpcWire.{to_be32}
use netbaiot.Tcp.{EventAccepted, payload_header, encode_receipt, decode_frame}
use netbaiot.Tcp.Receipts.{decode_frame-encode_receipt}

abbrev receipt : EventAccepted
receipt = record {
  event_id = 0 ∷ 1 ∷ 2 ∷ 3 ∷ 4 ∷ 5 ∷ 6 ∷ 7 ∷ 8 ∷ 9 ∷ 10 ∷ 11 ∷ 12 ∷ 13 ∷ 14 ∷ 15 ∷ [];
  accepted_at = 18_446_744_073_709_551_614;
  required_deliveries = 16_909_060;
  best_effort_deliveries = 84_281_096;
}

decode_frame-encode_receipt_example : decode_frame (encode_receipt receipt) ≡ ok receipt
decode_frame-encode_receipt_example =
    decode_frame-encode_receipt receipt refl (omega arith) (omega arith) (omega arith)

header_300 : payload_header 300 ≡ ok (0 ∷ 0 ∷ 1 ∷ 44 ∷ [])
unfolding payload_header to_be32
header_300 = refl
