-- ===== src/Mux/Table.antt =====
-- The operations of `StreamTable` of crates/netbaiot-rpc-mux/src/lib.rs. An operation that changes
-- nothing when it fails returns the new table in its result; `open_peer`, which consumes the
-- identifier even when it fails, returns table and result side by side. Of the budget's atomic
-- counter a section is one step.
use netbaiot.Prelude.{
  Result, ℕ, ◌+◌, ◌^◌, Bool, true, false, not, ◌&&◌, ◌||◌, Option, none, some, List, [], ◌∷◌, ◌++◌,
  ltb, leb, ◌==◌, if◌then◌else◌, nat_eq, str_eq, string_eq, length, ok, err, ◌>>=◌, ◌>>◌, ensure,
  ok_or, checked_add, wrapping_sub,
}
use netbaiot.Prelude.Map.{lookup, insert, remove}
use netbaiot.RpcWire.{
  RpcWireError, RpcLimits, stream_id_invalid, max_stream_id, max_message_bytes, validate,
}
use netbaiot.RpcWire.Open.{RpcOpen, rpc, event_delivery, content_length, parent}
use netbaiot.Mux.{
  MuxError, connection, stream, overloaded, message_too_large, Initiator, client, server, owns,
  opposite, ReassemblyBudget, reserve, release, StreamKind, provider_kind, event_subscription_kind,
  rpc_kind, event_delivery_kind, kind_of, ReceiveBody, Stream, StreamTable,
}

-- `.map_err(MuxError::Connection)`
abbrev pub as_connection {ℓ} : {A : Type ℓ} → Result RpcWireError A → Result MuxError A
as_connection (ok a) = ok a
as_connection (err e) = err (connection e)

unfoldable pub first_local : Initiator → ℕ
first_local client = 1
first_local server = 2

abbrev pub blank : Initiator → RpcLimits → ℕ → ReassemblyBudget → StreamTable
blank local limits connection_budget global_budget = record {
  local = local;
  highest_peer = 0;
  next_local = first_local local;
  limits = limits;
  streams = [];
  connection_window = limits.initial_connection_window_bytes;
  connection_reserved = 0;
  connection_budget = connection_budget;
  global_budget = global_budget;
  accepting = true;
}

unfoldable pub new : Initiator → RpcLimits → ℕ → ReassemblyBudget → Result MuxError StreamTable
new local limits connection_budget global_budget = do
  as_connection (validate limits)
  ensure (not (connection_budget == 0 || ltb global_budget.maximum connection_budget)) overloaded
  ok (blank local limits connection_budget global_budget)

unfoldable pub local_ids_exhausted : StreamTable → Bool
local_ids_exhausted t = ltb max_stream_id t.next_local

unfoldable pub goaway : StreamTable → StreamTable × ℕ
goaway t = (record t { accepting = false }, t.highest_peer)

unfoldable pub check_peer_id : StreamTable → ℕ → Result MuxError (Unit {0})
check_peer_id t id = do
  ensure (not (not (owns (opposite t.local) id) || leb id t.highest_peer))
      (connection stream_id_invalid)
  ensure t.accepting stream

unfoldable pub starts_with : List ℕ → List ℕ → Bool
starts_with text [] = true
starts_with [] (p ∷ prefix) = false
starts_with (c ∷ text) (p ∷ prefix) = c == p && starts_with text prefix

abbrev pub auth_dot : List ℕ
auth_dot = 97 ∷ 117 ∷ 116 ∷ 104 ∷ 46 ∷ []

-- "device."
abbrev pub device_dot : List ℕ
device_dot = 100 ∷ 101 ∷ 118 ∷ 105 ∷ 99 ∷ 101 ∷ 46 ∷ []

-- "device.authenticate"
abbrev pub device_authenticate : List ℕ
device_authenticate =
    device_dot ++ (97 ∷ 117 ∷ 116 ∷ 104 ∷ 101 ∷ 110 ∷ 116 ∷ 105 ∷ 99 ∷ 97 ∷ 116 ∷ 101 ∷ [])

-- "device.resolve_verifier"
abbrev pub device_resolve_verifier : List ℕ
device_resolve_verifier =
    device_dot
    ++ (114 ∷ 101 ∷ 115 ∷ 111 ∷ 108 ∷ 118 ∷ 101 ∷ 95 ∷ 118 ∷ 101 ∷ 114 ∷ 105 ∷ 102 ∷ 105 ∷ 101 ∷ 114
        ∷ [])

unfoldable pub is_auth_method : List ℕ → Bool
is_auth_method method =
    starts_with method auth_dot
    || starts_with method device_authenticate
    || str_eq method device_resolve_verifier

abbrev pub is_provider : StreamKind → Bool
is_provider provider_kind = true
is_provider _ = false

abbrev pub is_event_subscription : StreamKind → Bool
is_event_subscription event_subscription_kind = true
is_event_subscription _ = false

unfoldable pub may_parent : Stream → RpcOpen → Bool
may_parent owner (event_delivery parent_id delivery_id event_id attempt len) =
    is_event_subscription owner.kind
may_parent owner (rpc parent_id request_id method deadline_ms len) =
    if is_auth_method method then is_provider owner.kind else true
may_parent owner _ = false

unfoldable pub check_parent : StreamTable → RpcOpen → Result MuxError (Unit {0})
check_parent t request = elim (parent request) [
  | none ↦ ok tt
  | some id ↦ do
    owner ← ok_or (lookup id t.streams) stream
    ensure (not (owner.remote_closed || owner.local_closed)) stream
    ensure (may_parent owner request) stream
]

abbrev pub takes_body : StreamKind → Bool
takes_body rpc_kind = true
takes_body event_delivery_kind = true
takes_body _ = false

abbrev pub opened : StreamTable → RpcOpen → Option ReceiveBody → Stream
opened t request body = record {
  kind = kind_of request;
  parent_id = parent request;
  remote_closed = false;
  local_closed = false;
  response_seen = false;
  body = body;
  recv_window = t.limits.initial_stream_window_bytes;
}

-- A reservation that no body takes is dropped at the end.
unfoldable pub insert_stream : StreamTable → ℕ → RpcOpen → Bool → Result MuxError StreamTable
insert_stream t id request inbound = do
  ensure (ltb (length t.streams) t.limits.max_concurrent_streams) overloaded
  check_parent t request
  let len = if inbound then content_length request else 0
  ensure (leb len max_message_bytes) message_too_large
  reserved ← ok_or (checked_add t.connection_reserved len) overloaded
  ensure (leb reserved t.connection_budget) overloaded
  budget ← reserve t.global_budget len
  ok (
      if inbound && takes_body (kind_of request)
      then record t {
        connection_reserved = reserved;
        global_budget = budget;
        streams =
            insert id (opened t request (some (record { expected = len; bytes = [] }))) t.streams;
      }
      else record t {
        connection_reserved = reserved;
        global_budget = release budget len;
        streams = insert id (opened t request none) t.streams;
      })

unfoldable pub refuse_peer : StreamTable → ℕ → Result MuxError StreamTable
refuse_peer t id = do check_peer_id t id; ok (record t { highest_peer = id })

-- Admission on a table that has consumed the identifier.
unfoldable pub admit : StreamTable → ℕ → RpcOpen → StreamTable × Result MuxError (Unit {0})
admit t id request = elim (insert_stream t id request true) [
  | ok after ↦ (after, ok tt)
  | err e ↦ (t, err e)
]

unfoldable pub open_peer : StreamTable → ℕ → RpcOpen → StreamTable × Result MuxError (Unit {0})
open_peer t id request = elim (refuse_peer t id) [
  | ok considered ↦ admit considered id request
  | err e ↦ (t, err e)
]

-- `checked_add(2)` on a u32 does not overflow below RPC_MAX_STREAM_ID; it is written out.
unfoldable pub next_id : ℕ → ℕ
next_id id = if ltb (id + 2) (2 ^ 32) then id + 2 else max_stream_id + 1

unfoldable pub open_local : StreamTable → RpcOpen → Result MuxError (StreamTable × ℕ)
open_local t request = do
  ensure (not (not t.accepting || ltb max_stream_id t.next_local)) stream
  after ← insert_stream t t.next_local request false
  ok (record after { next_local = next_id t.next_local }, t.next_local)

-- `remove`: the stream's body, and with it the reservation, is dropped.
unfoldable pub drop_body : StreamTable → Option ReceiveBody → StreamTable
drop_body t none = t
drop_body t (some body) = record t {
  connection_reserved = wrapping_sub t.connection_reserved body.expected;
  global_budget = release t.global_budget body.expected;
}

unfoldable pub remove_stream : StreamTable → ℕ → StreamTable
remove_stream t id = elim (lookup id t.streams) [
  | none ↦ t
  | some stream_gone ↦ drop_body (record t { streams = remove id t.streams }) stream_gone.body
]
