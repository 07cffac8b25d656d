-- ===== src/RpcWire/Open.antt =====
-- `RpcOpen` and its parts: crates/netbaiot-protocol/src/business_rpc/wire.rs, and `EventFilter` of
-- crates/netbaiot-protocol/src/lib.rs. A text is the list of its bytes, an identifier its text, a
-- Uuid its number.
use netbaiot.Prelude.{
  Result, ℕ, Bool, true, false, not, ◌&&◌, ◌||◌, Option, none, some, List, [], ◌∷◌, ltb, leb, ◌==◌,
  if◌then◌else◌, nat_eq, string_eq, length, ok, err,
}
use netbaiot.RpcWire.{RpcWireError, metadata, max_stream_id, max_message_bytes}

pub data EventType : Type 0 where
  telemetry device_event heartbeat command_ack : EventType

pub record EventFilter : Type 0 where
  pub tenant : Option (List ℕ)
  pub product : Option (List ℕ)
  pub device : Option (List ℕ)
  pub event_types : List EventType

-- `EventFilter::validate` has one error, which its caller replaces.
unfoldable pub filter_valid : EventFilter → Bool
filter_valid filter = leb (length filter.event_types) 16

pub data RpcOpen : Type 0 where
  provider : List ℕ → RpcOpen
  event_subscription : ℕ → EventFilter → RpcOpen
  rpc :
      (parent_stream_id : Option ℕ) (request_id : ℕ) (method : List ℕ)
      (deadline_ms content_length : ℕ)
      → RpcOpen
  event_delivery : (parent_stream_id delivery_id event_id attempt content_length : ℕ) → RpcOpen

abbrev pub is_empty : List ℕ → Bool
is_empty [] = true
is_empty (b ∷ bytes) = false

unfoldable pub method_bytes : List ℕ → Bool
method_bytes [] = true
method_bytes (b ∷ bytes) =
    ((leb b'a' b && leb b b'z') || b == b'.' || b == b'_') && method_bytes bytes

abbrev pub parent_invalid : ℕ → Bool
parent_invalid id = id == 0 || ltb max_stream_id id

unfoldable pub optional_invalid : Option ℕ → Bool
optional_invalid none = false
optional_invalid (some id) = parent_invalid id

unfoldable pub validate_open : RpcOpen → Result RpcWireError (Unit {0})
validate_open (provider provider_id) =
    if is_empty provider_id || ltb 64 (length provider_id) then err metadata else ok tt
validate_open (event_subscription subscription_id filter) =
    if subscription_id == 0 || not (filter_valid filter) then err metadata else ok tt
validate_open (rpc parent_stream_id request_id method deadline_ms content_length) =
    if request_id == 0
      || deadline_ms == 0
      || ltb 60_000 deadline_ms
      || is_empty method
      || ltb 64 (length method)
      || not (method_bytes method)
      || optional_invalid parent_stream_id
      || ltb max_message_bytes content_length
    then err metadata
    else ok tt
validate_open (event_delivery parent_stream_id delivery_id event_id attempt content_length) =
    if parent_invalid parent_stream_id
      || delivery_id == 0
      || event_id == 0
      || attempt == 0
      || ltb max_message_bytes content_length
    then err metadata
    else ok tt

unfoldable pub content_length : RpcOpen → ℕ
content_length (provider provider_id) = 0
content_length (event_subscription subscription_id filter) = 0
content_length (rpc parent_stream_id request_id method deadline_ms len) = len
content_length (event_delivery parent_stream_id delivery_id event_id attempt len) = len

unfoldable pub parent : RpcOpen → Option ℕ
parent (provider provider_id) = none
parent (event_subscription subscription_id filter) = none
parent (rpc parent_stream_id request_id method deadline_ms len) = parent_stream_id
parent (event_delivery parent_stream_id delivery_id event_id attempt len) = some parent_stream_id
