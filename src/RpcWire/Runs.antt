-- ===== src/RpcWire/Runs.antt =====
-- Frame headers and limits at concrete inputs.
use netbaiot.Prelude.{ℕ, ◌≡◌, refl, ◌↔◌, List, [], ◌∷◌, arith, nat_eq, string_eq, All, ok}
use netbaiot.RpcWire.{
  RpcFrameType, data_frame, RpcFrameHeader, RpcLimits, default_limits, encode, parse, negotiate,
  validate, narrowest, type_byte, try_from, check, be32, to_be32,
}
use netbaiot.RpcWire.Header.{encode-parse, parse-encode, IsLegal, IsByte}
use netbaiot.RpcWire.Negotiation.{Narrows, negotiate_agrees}

abbrev last_data : RpcFrameHeader
last_data = record { payload_len = 300; stream_id = 7; frame_type = data_frame; flags = 1 }

abbrev last_data_bytes : List ℕ
last_data_bytes = 0 ∷ 0 ∷ 1 ∷ 44 ∷ 0 ∷ 0 ∷ 0 ∷ 7 ∷ 4 ∷ 1 ∷ 0 ∷ 0 ∷ []

reads_last_data : parse last_data_bytes 4096 ≡ ok last_data
unfolding parse try_from check netbaiot.RpcWire.carries_flags be32
    netbaiot.RpcWire.is_connection_type netbaiot.RpcWire.length_refused
reads_last_data = refl

are_bytes : All IsByte last_data_bytes
are_bytes = ground arith

encode-parse_example : encode last_data ≡ last_data_bytes
encode-parse_example = encode-parse last_data_bytes 4096 last_data are_bytes reads_last_data

parse-encode_example : (parse (encode last_data) 4096 ≡ ok last_data) ↔ IsLegal last_data 4096
parse-encode_example = parse-encode last_data 4096 (omega arith) (omega arith)

abbrev server : RpcLimits
server = record {
  max_frame_payload_bytes = 16384;
  max_concurrent_streams = 128;
  initial_stream_window_bytes = 65536;
  initial_connection_window_bytes = 1048576;
  heartbeat_ms = 10_000;
}

abbrev client : RpcLimits
client = record {
  max_frame_payload_bytes = 8192;
  max_concurrent_streams = 512;
  initial_stream_window_bytes = 131072;
  initial_connection_window_bytes = 262144;
  heartbeat_ms = 15_000;
}

server_valid : validate server ≡ ok tt
unfolding validate
server_valid = refl

client_valid : validate client ≡ ok tt
unfolding validate
client_valid = refl

negotiate_agrees_example :
    (agreed : RpcLimits) × (negotiate server client ≡ ok agreed)
    × (negotiate client server ≡ ok agreed)
    × (validate agreed ≡ ok tt)
    × Narrows agreed server
    × Narrows agreed client
negotiate_agrees_example = negotiate_agrees server client server_valid client_valid

default_valid : validate default_limits ≡ ok tt
unfolding validate
default_valid = refl
