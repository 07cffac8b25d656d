-- ===== src/Mux.antt =====
-- The stream table of crates/netbaiot-rpc-mux/src/lib.rs: its errors, budgets and streams. The
-- number of the global budget, which other connections change too, is a field of the table's state.
pub mod Table
pub mod Flow
mod Ledger
mod Invariant
mod Receiving
mod Opening
mod Ending
pub mod History
mod Identifiers
mod Reuse
mod Removal
mod Bodies
mod Arrival
mod Runs
use netbaiot.Prelude.{
  Result, ℕ, zero, suc, ◌+◌, ◌-◌, ◌*◌, ◌/◌, ◌%◌, ◌^◌, ◌≤◌, ◌<◌, min, max, ◌≡◌, refl, sym, ap, ◌∙◌,
  ◌≢◌, ◌↔◌, ◌⊎◌, inl, inr, Bool, true, false, not, ◌&&◌, ◌||◌, Option, none, some, List, [], ◌∷◌,
  ◌++◌, map, arith, ltb, leb, ◌==◌, if◌then◌else◌, leb→le, ltb→lt, ==_iff, Bool-cases, Option-cases,
  Eq, nat_eq, str_eq, str_eq_iff, string_eq, length, get_elem?, take, drop, All, length-append,
  take-append-drop, take-append, drop-append, length-take, length-drop, ok, err, ◌>>=◌, ◌>>◌,
  ensure, ok_or, Result-cases, usize_limit, checked_add, checked_mul, checked_sub, wrapping_sub,
  saturating_add, lt_wf,
}
use netbaiot.Prelude.Map.{lookup, insert, remove}
use netbaiot.RpcWire.{RpcWireError, RpcLimits, stream_id_invalid, length_invalid, max_stream_id}
use netbaiot.RpcWire.Open.{RpcOpen, provider, event_subscription, rpc, event_delivery}

pub data MuxError : Type 0 where
  connection : RpcWireError → MuxError
  stream flow_control overloaded message_too_large io timeout : MuxError

pub data Initiator : Type 0 where
  client server : Initiator

unfoldable pub parity : Initiator → ℕ
parity client = 1
parity server = 0

unfoldable pub owns : Initiator → ℕ → Bool
owns side id = not (id == 0) && leb id max_stream_id && id % 2 == parity side

unfoldable pub opposite : Initiator → Initiator
opposite client = server
opposite server = client

pub record ReassemblyBudget : Type 0 where
  pub maximum : ℕ
  pub used : ℕ

unfoldable pub reserve : ReassemblyBudget → ℕ → Result MuxError ReassemblyBudget
reserve budget bytes = elim (checked_add budget.used bytes) [
  | none ↦ err overloaded
  | some next ↦
      if leb next budget.maximum
      then ok (record { maximum = budget.maximum; used = next })
      else err overloaded
]

-- The drop of a reservation.
unfoldable pub release : ReassemblyBudget → ℕ → ReassemblyBudget
release budget bytes = record { maximum = budget.maximum; used = wrapping_sub budget.used bytes }

pub data StreamKind : Type 0 where
  provider_kind event_subscription_kind rpc_kind event_delivery_kind : StreamKind

unfoldable pub kind_of : RpcOpen → StreamKind
kind_of (provider id) = provider_kind
kind_of (event_subscription id filter) = event_subscription_kind
kind_of (rpc parent_id request_id method deadline_ms len) = rpc_kind
kind_of (event_delivery parent_id delivery_id event_id attempt len) = event_delivery_kind

-- The reservation of a body is for its `expected` bytes.
pub record ReceiveBody : Type 0 where
  pub expected : ℕ
  pub bytes : List ℕ

pub record Stream : Type 0 where
  pub kind : StreamKind
  pub parent_id : Option ℕ
  pub remote_closed : Bool
  pub local_closed : Bool
  pub response_seen : Bool
  pub body : Option ReceiveBody
  pub recv_window : ℕ

pub record ReceivedData : Type 0 where
  pub complete : Option (List ℕ)
  pub connection_update : ℕ
  pub stream_update : ℕ

pub record StreamTable : Type 0 where
  pub local : Initiator
  pub highest_peer : ℕ
  pub next_local : ℕ
  pub limits : RpcLimits
  pub streams : List (ℕ × Stream)
  pub connection_window : ℕ
  pub connection_reserved : ℕ
  pub connection_budget : ℕ
  pub global_budget : ReassemblyBudget
  pub accepting : Bool
