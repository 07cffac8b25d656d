-- ===== src/Mux/Invariant.antt =====
-- The invariant of `StreamTable` of crates/netbaiot-rpc-mux/src/lib.rs, and the changes it bears.
use netbaiot.Prelude.{
  ℕ, ◌+◌, ◌-◌, ◌%◌, ◌≤◌, ◌<◌, ◌≡◌, ap, ◌⊎◌, inl, inr, Bool, true, false, Option, none, some, List,
  arith, if◌then◌else◌, Option-cases, nat_eq, string_eq, length, usize_limit,
}
use netbaiot.Prelude.Map.{
  lookup, insert, remove, Distinct, lookup-insert, lookup-remove, insert-Distinct, remove-Distinct,
}
use netbaiot.RpcWire.{RpcLimits, max_message_bytes}
use netbaiot.Mux.{owns, opposite, ReceiveBody, Stream, StreamTable, parity, release}
use netbaiot.Mux.Table.{drop_body, remove_stream}
use netbaiot.Mux.Ledger.{
  body_cost, entry_cost, reserved, reserved-insert, reserved-remove, entry_cost-reserved,
  remove-absent, length-insert-present, length-insert-absent, length-remove,
}

-- A body holds no more than it declared, and it declared no more than a message may have.
abbrev pub BodyFits : Option ReceiveBody → Type 0
BodyFits none = Unit {0}
BodyFits (some body) = (length body.bytes ≤ body.expected) × (body.expected ≤ max_message_bytes)

abbrev pub StreamFits : RpcLimits → Stream → Type 0
StreamFits limits s = (s.recv_window ≤ limits.initial_stream_window_bytes) × BodyFits s.body

-- An identifier that the peer has opened, or this side.
abbrev pub WasOpened : StreamTable → ℕ → Type 0
WasOpened t id =
    ((owns (opposite t.local) id ≡ true) × (id ≤ t.highest_peer))
    ⊎ ((owns t.local id ≡ true) × (id < t.next_local))

-- `others` is what other connections hold of the global budget.
pub record IsSound (others : ℕ) (t : StreamTable) : Type 0 where
  pub distinct : Distinct t.streams
  pub fits : (id : ℕ) (s : Stream) → lookup id t.streams ≡ some s → StreamFits t.limits s
  pub known : (id : ℕ) (s : Stream) → lookup id t.streams ≡ some s → WasOpened t id
  pub count : length t.streams ≤ t.limits.max_concurrent_streams
  pub ledger : t.connection_reserved ≡ reserved t.streams
  pub within_budget : t.connection_reserved ≤ t.connection_budget
  pub shared : t.global_budget.used ≡ others + t.connection_reserved
  pub within_global : t.global_budget.used ≤ t.global_budget.maximum
  pub machine : t.global_budget.maximum < usize_limit
  pub window : t.connection_window ≤ t.limits.initial_connection_window_bytes
  pub local_parity : t.next_local % 2 ≡ parity t.local
  pub local_positive : 0 < t.next_local

-- The fields that calls change.
abbrev pub changed : StreamTable → List (ℕ × Stream) → ℕ → ℕ → ℕ → StreamTable
changed t streams connection_reserved used connection_window = record t {
  streams = streams;
  connection_reserved = connection_reserved;
  global_budget = record { maximum = t.global_budget.maximum; used = used };
  connection_window = connection_window;
}

-- A stream may be put into the table when the ledger moves along.
pub put-IsSound :
    (others : ℕ) (t : StreamTable) (id : ℕ) (s : Stream) (held used connection_window : ℕ)
    → IsSound others t
    → StreamFits t.limits s
    → WasOpened t id
    → (lookup id t.streams ≡ none → length t.streams < t.limits.max_concurrent_streams)
    → held + entry_cost (lookup id t.streams) ≡ t.connection_reserved + body_cost s.body
    → held ≤ t.connection_budget
    → used ≡ others + held
    → used ≤ t.global_budget.maximum
    → connection_window ≤ t.limits.initial_connection_window_bytes
    → IsSound others (changed t (insert id s t.streams) held used connection_window)
put-IsSound others t id s held used connection_window inv sf ok_id room moved b u g w = record {
  distinct = insert-Distinct id s t.streams inv.distinct;
  fits = λ j v h. ground (arith, lookup-insert id j s t.streams, inv.fits j v, sf);
  known = λ j v h. ground (arith, lookup-insert id j s t.streams, inv.known j v, ok_id);
  count = elim (Option-cases (lookup id t.streams)) [
    | inl absent ↦
        ground (arith, length-insert-absent id s t.streams absent, room absent, inv.count)
    | inr (v, present) ↦ ground (arith, length-insert-present id s v t.streams present, inv.count)
  ];
  ledger = ground (arith, reserved-insert id s t.streams, inv.ledger);
  within_budget = b;
  shared = u;
  within_global = g;
  machine = inv.machine;
  window = w;
  local_parity = inv.local_parity;
  local_positive = inv.local_positive;
}

-- A stream may be taken out when the ledger moves along.
take_out-IsSound :
    (others : ℕ) (t : StreamTable) (id held used : ℕ)
    → IsSound others t
    → held + entry_cost (lookup id t.streams) ≡ t.connection_reserved
    → used ≡ others + held
    → IsSound others (changed t (remove id t.streams) held used t.connection_window)
take_out-IsSound others t id held used inv moved u = record {
  distinct = remove-Distinct id t.streams inv.distinct;
  fits = λ j v h. ground (arith, lookup-remove id j t.streams, inv.fits j v);
  known = λ j v h. ground (arith, lookup-remove id j t.streams, inv.known j v);
  count = omega (arith, length-remove id t.streams, inv.count);
  ledger = ground (arith, reserved-remove id t.streams inv.distinct, inv.ledger);
  within_budget = omega (arith, inv.within_budget);
  shared = u;
  within_global = omega (arith, inv.within_global, inv.shared);
  machine = inv.machine;
  window = inv.window;
  local_parity = inv.local_parity;
  local_positive = inv.local_positive;
}

-- Nothing wraps when a reservation is given back.
abbrev without : StreamTable → ℕ → StreamTable
without t id =
    changed t (remove id t.streams) (t.connection_reserved - entry_cost (lookup id t.streams))
      (t.global_budget.used - entry_cost (lookup id t.streams)) t.connection_window

drop_body-changed :
    (t : StreamTable) (streams : List (ℕ × Stream)) (body : Option ReceiveBody)
    → body_cost body ≤ t.connection_reserved
    → body_cost body ≤ t.global_budget.used
    → drop_body (record t { streams = streams }) body
      ≡ changed t streams
          (t.connection_reserved - body_cost body)
          (t.global_budget.used - body_cost body)
          t.connection_window
unfolding drop_body release body_cost
drop_body-changed t streams none hr hu = ground arith
drop_body-changed t streams (some body) hr hu = ground arith

pub remove_stream-without :
    (others : ℕ) (t : StreamTable) (id : ℕ) → IsSound others t → remove_stream t id ≡ without t id
unfolding remove_stream entry_cost
remove_stream-without others t id inv =
    let covered = entry_cost-reserved id t.streams in
    elim (Option-cases (lookup id t.streams)) [
      | inl absent ↦ ground (arith, absent, remove-absent id t.streams absent)
      | inr (s, present) ↦
          let enough : body_cost s.body ≤ t.connection_reserved =
            omega (arith, inv.ledger, ap entry_cost present, covered) in
          rw (
            remove_stream,
            present,
            drop_body-changed t (remove id t.streams) s.body enough
                (omega (arith, inv.shared, enough)),
          )
    ]

pub remove_stream-IsSound :
    (others : ℕ) (t : StreamTable) (id : ℕ) → IsSound others t → IsSound others (remove_stream t id)
remove_stream-IsSound others t id inv =
    let covered = entry_cost-reserved id t.streams in
    rw (remove_stream-without others t id inv) (
      take_out-IsSound others t id (t.connection_reserved - entry_cost (lookup id t.streams))
        (t.global_budget.used - entry_cost (lookup id t.streams)) inv
        (omega (arith, inv.ledger, covered)) (omega (arith, inv.ledger, inv.shared, covered)))

pub if_removed-IsSound :
    (others : ℕ) (closed : Bool) (t : StreamTable) (id : ℕ)
    → IsSound others t
    → IsSound others (if closed then remove_stream t id else t)
if_removed-IsSound others true t id inv = remove_stream-IsSound others t id inv
if_removed-IsSound others false t id inv = inv

-- Neither the connection's credit nor its end to new streams touches the ledger.
pub steady-IsSound :
    (others : ℕ) (t : StreamTable) (connection_window : ℕ) (accepting : Bool)
    → IsSound others t
    → connection_window ≤ t.limits.initial_connection_window_bytes
    → IsSound others (record t { connection_window = connection_window; accepting = accepting })
steady-IsSound others t connection_window accepting inv w = record {
  distinct = inv.distinct;
  fits = inv.fits;
  known = inv.known;
  count = inv.count;
  ledger = inv.ledger;
  within_budget = inv.within_budget;
  shared = inv.shared;
  within_global = inv.within_global;
  machine = inv.machine;
  window = w;
  local_parity = inv.local_parity;
  local_positive = inv.local_positive;
}
