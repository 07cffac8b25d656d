-- ===== src/Scheduler/Runs.antt =====
-- Tests of the scheduler, and its theorem at a concrete input.
use netbaiot.Prelude.{◌≡◌, refl, some, [], ◌∷◌, nat_eq, string_eq}
use netbaiot.Prelude.Map.{lookup}
use netbaiot.RpcWire.{
  data_frame, response, parse, encode, try_from, type_byte, check, be32, to_be32, carries_flags,
  is_connection_type, is_window_update, length_refused,
}
use netbaiot.Scheduler.{Frame, new_frame, rpc_class, MuxScheduler}
use netbaiot.Scheduler.Turns.{
  queue_of, barred, allowance, sized, outstanding_of, turn, frame_of, take_turn, take_front,
  take_rounds, take_data,
}
use netbaiot.Scheduler.Moves.{Sends}
use netbaiot.Scheduler.Credit.{take_data-Sends}

-- Five bytes queued on stream 2, of which three may go at once.
abbrev loaded : MuxScheduler
loaded = record {
  max_frame = 4096;
  conn_window = 3;
  conn_max = 8192;
  stream_max = 4096;
  send_ahead = some (record { stream_bytes = 4096; connection_bytes = 4096 });
  conn_uncredited = 0;
  stream_uncredited = (2, 0) ∷ [];
  queued_bytes = 5;
  byte_limit = 100;
  control = [];
  control_bytes = 0;
  bodies = (2, record { bytes = 1 ∷ 2 ∷ 3 ∷ 4 ∷ 5 ∷ []; cursor = 0 }) ∷ [];
  windows = (2, 4096) ∷ [];
  max_streams = 3;
  rpc_queue = 2 ∷ [];
  event_queue = [];
  class_turn = 0;
  control_burst = 0;
}

abbrev piece : Frame
piece = record {
  header = record { payload_len = 3; stream_id = 2; frame_type = data_frame; flags = 0 };
  payload = 1 ∷ 2 ∷ 3 ∷ [];
}

takes_piece : (take_data loaded rpc_class).1 ≡ some piece
unfolding take_data take_rounds take_front take_turn turn sized allowance outstanding_of barred
    queue_of lookup frame_of new_frame parse encode try_from type_byte check be32 to_be32
    carries_flags is_connection_type is_window_update length_refused
takes_piece = refl

take_data-Sends_example : Sends loaded (take_data loaded rpc_class).0 piece
take_data-Sends_example = take_data-Sends loaded rpc_class piece takes_piece

-- The RESPONSE of stream 4 waits, so that its body is held back.
abbrev response_4 : Frame
response_4 = record {
  header = record { payload_len = 2; stream_id = 4; frame_type = response; flags = 0 };
  payload = 9 ∷ 9 ∷ [];
}

abbrev held_back : MuxScheduler
held_back = record loaded {
  control = response_4 ∷ [];
  control_bytes = 14;
  stream_uncredited = (2, 0) ∷ (4, 0) ∷ [];
  queued_bytes = 6;
  bodies =
      (2, record { bytes = 1 ∷ 2 ∷ 3 ∷ 4 ∷ 5 ∷ []; cursor = 0 })
      ∷ (4, record { bytes = 6 ∷ []; cursor = 0 })
      ∷ [];
  windows = (2, 4096) ∷ (4, 4096) ∷ [];
  rpc_queue = 4 ∷ 2 ∷ [];
}
