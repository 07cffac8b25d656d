-- ===== src/Mux/Runs.antt =====
-- Tests of the stream table, and its theorems at concrete inputs.
use netbaiot.Prelude.{
  ℕ, ◌<◌, ◌≡◌, refl, true, false, Option, none, some, List, [], ◌∷◌, ◌++◌, arith, if◌then◌else◌,
  nat_eq, string_eq, length, ok,
}
use netbaiot.Prelude.Map.{lookup, insert, remove, Distinct}
use netbaiot.RpcWire.{RpcLimits, validate}
use netbaiot.RpcWire.Open.{RpcOpen, provider, rpc, content_length, parent}
use netbaiot.Mux.{
  server, provider_kind, owns, opposite, parity, ReassemblyBudget, reserve, release, rpc_kind,
  kind_of, ReceiveBody, Stream, ReceivedData, StreamTable,
}
use netbaiot.Mux.Table.{
  new, blank, first_local, check_peer_id, refuse_peer, admit, open_peer, open_local, insert_stream,
  check_parent, next_id, drop_body, remove_stream,
}
use netbaiot.Mux.Flow.{
  receive_data, receive_into, check_data, stream_body, taken_in, with_stream, children,
  owner_of_children, remove_all, close_parent, reset,
}
use netbaiot.Mux.Invariant.{IsSound}
use netbaiot.Mux.History.{
  Call, opening_peer, opening_local, receiving, ending, resetting, after_value, run,
  new-run-IsSound,
}
use netbaiot.Mux.Reuse.{Refuses, refuse_peer-never_again, open_local-rises}
use netbaiot.Mux.Bodies.{feed, concat, Collects, feed-whole}
use netbaiot.Mux.Arrival.{CanTake, message_arrives}
use netbaiot.Mux.Removal.{goes, reset_removes}

abbrev small_limits : RpcLimits
small_limits = record {
  max_frame_payload_bytes = 4096;
  max_concurrent_streams = 3;
  initial_stream_window_bytes = 4096;
  initial_connection_window_bytes = 8192;
  heartbeat_ms = 5000;
}

abbrev shared_budget : ReassemblyBudget
shared_budget = record { maximum = 1000; used = 900 }

abbrev table : StreamTable
table = blank server small_limits 90 shared_budget

-- "x"
abbrev call_of : Option ℕ → ℕ → RpcOpen
call_of above len = rpc above 9 (120 ∷ []) 1000 len

abbrev provider_open : RpcOpen
provider_open = provider (112 ∷ [])

table-new : new server small_limits 90 shared_budget ≡ ok table
unfolding new validate first_local
table-new = refl

abbrev history : List Call
history =
    opening_peer 1 provider_open
    ∷ opening_peer 3 (call_of (some 1) 5)
    ∷ receiving 3 (7 ∷ 8 ∷ []) false
    ∷ opening_peer 5 (call_of none 60)
    ∷ opening_peer 7 (call_of none 60)
    ∷ ending 3
    ∷ resetting 1
    ∷ opening_local (call_of none 40)
    ∷ []

new-run-IsSound_example : IsSound 900 (run table history)
new-run-IsSound_example =
    new-run-IsSound server small_limits 90 shared_budget table history (omega arith) (omega arith)
      table-new

taken_1 : refuse_peer table 1 ≡ ok (record table { highest_peer = 1 })
unfolding refuse_peer check_peer_id owns opposite parity first_local
taken_1 = refl

refuse_peer-never_again_example :
    Refuses (run (record table { highest_peer = 1 }) history) 1 provider_open
    × Refuses (run (open_peer table 1 (call_of none 95)).0 history) 1 provider_open
refuse_peer-never_again_example =
    refuse_peer-never_again table (record table { highest_peer = 1 }) 1 (call_of none 95)
      provider_open history taken_1

table-IsSound : IsSound 900 table
unfolding run
table-IsSound =
    new-run-IsSound server small_limits 90 shared_budget table [] (omega arith) (omega arith)
      table-new

abbrev after_local : StreamTable → StreamTable
after_local t = after_value t (open_local t (call_of none 40))

first_opened : open_local table (call_of none 40) ≡ ok (after_local table, 2)
unfolding open_local insert_stream check_parent parent kind_of reserve release next_id insert
    after_value first_local
first_opened = refl

second_opened :
    open_local (run (after_local table) []) (call_of none 40)
    ≡ ok (after_local (after_local table), 4)
unfolding run open_local insert_stream check_parent parent kind_of reserve release next_id insert
    after_value first_local
second_opened = refl

open_local-rises_example : (owns server 2 ≡ true) × (owns server 4 ≡ true) × (2 < 4)
open_local-rises_example =
    open_local-rises 900 table (after_local table) (after_local (after_local table)) 2 4
      (call_of none 40) (call_of none 40) [] table-IsSound first_opened second_opened

abbrev body_5 : ReceiveBody
body_5 = record { expected = 5; bytes = [] }

abbrev stream_5 : Stream
stream_5 = record {
  kind = rpc_kind;
  parent_id = none;
  remote_closed = false;
  local_closed = false;
  response_seen = false;
  body = some body_5;
  recv_window = 4096;
}

abbrev collecting : StreamTable
collecting = record table {
  highest_peer = 3;
  streams = (3, stream_5) ∷ [];
  connection_reserved = 5;
  global_budget = record { maximum = 1000; used = 905 };
}

opens_collecting : open_peer table 3 (call_of none 5) ≡ (collecting, ok tt)
unfolding open_peer admit refuse_peer check_peer_id owns opposite parity insert_stream check_parent
    parent content_length kind_of reserve insert first_local
opens_collecting = refl

abbrev parts : List (List ℕ)
parts = (1 ∷ 2 ∷ []) ∷ (3 ∷ []) ∷ []

abbrev fed_table : StreamTable
fed_table = record collecting {
  connection_window = 8189;
  streams =
      (
        3,
        record stream_5 {
          recv_window = 4093;
          body = some (record { expected = 5; bytes = 1 ∷ 2 ∷ 3 ∷ [] });
        },
      )
      ∷ [];
}

fed : feed collecting 3 parts ≡ ok fed_table
unfolding feed receive_data stream_body check_data receive_into with_stream taken_in lookup insert
fed = refl

abbrev done_table : StreamTable
done_table = record fed_table {
  connection_window = 8187;
  connection_reserved = 0;
  global_budget = shared_budget;
  streams = (3, record stream_5 { recv_window = 4091; body = none; remote_closed = true }) ∷ [];
}

abbrev whole : ReceivedData
whole = record {
  complete = some (1 ∷ 2 ∷ 3 ∷ 4 ∷ 5 ∷ []);
  connection_update = 2;
  stream_update = 0;
}

done : receive_data fed_table 3 (4 ∷ 5 ∷ []) true ≡ ok (done_table, whole)
unfolding receive_data stream_body check_data receive_into with_stream taken_in lookup insert
    drop_body release
done = refl

collects : Collects collecting 3 body_5
unfolding lookup
collects = record { stream_now = stream_5; present = refl; has_body = refl }

feed-whole_example :
    (whole.complete ≡ some ([] ++ (concat parts ++ (4 ∷ 5 ∷ []))))
    × (length {A = ℕ} ([] ++ (concat parts ++ (4 ∷ 5 ∷ []))) ≡ 5)
feed-whole_example =
    feed-whole parts collecting fed_table done_table 3 body_5 (4 ∷ 5 ∷ []) whole collects fed done

can_take : CanTake collecting 3 stream_5 body_5 5
unfolding lookup
can_take = record {
  present = refl;
  is_open = refl;
  has_body = refl;
  connection_credit = omega arith;
  stream_credit = omega arith;
  room = omega arith;
  small = omega arith;
}

message_arrives_example :
    (between after : StreamTable) × (data_in : ReceivedData) × (feed collecting 3 parts
      ≡ ok between)
    × (receive_data between 3 (4 ∷ 5 ∷ []) true ≡ ok (after, data_in))
    × (data_in.complete ≡ some ([] ++ (concat parts ++ (4 ∷ 5 ∷ []))))
message_arrives_example =
    message_arrives parts collecting 3 stream_5 body_5 (4 ∷ 5 ∷ []) can_take refl

abbrev provider_stream : Stream
provider_stream = record stream_5 { kind = provider_kind; body = none }

-- A provider and a call below it.
abbrev family : StreamTable
family = record collecting {
  streams = (1, provider_stream) ∷ (3, record stream_5 { parent_id = some 1 }) ∷ [];
}

family-Distinct : Distinct family.streams
unfolding lookup
family-Distinct = (refl, (refl, tt))

abbrev reset_family : StreamTable
reset_family = after_value family (reset family 1)

resets : reset family 1 ≡ ok (reset_family, 3 ∷ [])
unfolding reset close_parent owner_of_children children remove_stream remove_all remove lookup
    after_value
resets = refl

reset_removes_example :
    lookup 3 reset_family.streams
    ≡ (if goes 1 3 family.streams then none else lookup 3 family.streams)
reset_removes_example = reset_removes family reset_family 1 3 (3 ∷ []) family-Distinct resets
