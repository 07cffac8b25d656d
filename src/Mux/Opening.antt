-- ===== src/Mux/Opening.antt =====
-- Opening streams: `insert`, `refuse_peer`, `open_peer`, `open_local` of
-- crates/netbaiot-rpc-mux/src/lib.rs.
use netbaiot.Prelude.{
  ℕ, ◌+◌, ◌%◌, ◌≤◌, ◌<◌, ◌≡◌, refl, ap, inl, inr, Bool, true, false, ◌&&◌, Option, none, some, [],
  arith, if◌then◌else◌, Option-cases, nat_eq, string_eq, length, ok, Result-cases,
}
use netbaiot.Prelude.Map.{lookup, insert}
use netbaiot.RpcWire.{max_message_bytes, max_stream_id}
use netbaiot.RpcWire.Open.{
  RpcOpen, provider, event_subscription, rpc, event_delivery, content_length,
}
use netbaiot.Mux.{
  Initiator, client, server, owns, opposite, parity, ReceiveBody, StreamTable, reserve, release,
  kind_of,
}
use netbaiot.Mux.Table.{
  insert_stream, opened, takes_body, refuse_peer, check_peer_id, admit, open_peer, open_local,
  next_id,
}
use netbaiot.Mux.Ledger.{body_cost, entry_cost}
use netbaiot.Mux.Invariant.{IsSound, BodyFits, WasOpened, changed, put-IsSound}

-- The bytes that an opened stream reserves, and its body.
unfoldable pub declared : RpcOpen → Bool → ℕ
declared request inbound = if inbound then content_length request else 0

unfoldable pub first_body : RpcOpen → Bool → Option ReceiveBody
first_body request inbound =
    if inbound && takes_body (kind_of request)
    then some (record { expected = content_length request; bytes = [] })
    else none

first_body-cost :
    (request : RpcOpen) (inbound : Bool)
    → body_cost (first_body request inbound) ≡ declared request inbound
unfolding body_cost first_body declared kind_of content_length
first_body-cost request false = refl
first_body-cost (provider id) true = refl
first_body-cost (event_subscription id filter) true = refl
first_body-cost (rpc parent_id id method deadline len) true = refl
first_body-cost (event_delivery parent_id id event attempt len) true = refl

-- What `insert` has tested when it succeeds, and what it leaves.
pub record Admits (t : StreamTable) (id : ℕ) (request : RpcOpen) (inbound : Bool)
    (after : StreamTable) : Type 0 where
  pub slots : length t.streams < t.limits.max_concurrent_streams
  pub size : declared request inbound ≤ max_message_bytes
  pub within_budget : t.connection_reserved + declared request inbound ≤ t.connection_budget
  pub within_global : t.global_budget.used + declared request inbound ≤ t.global_budget.maximum
  pub same :
      after
      ≡ changed t
          (insert id (opened t request (first_body request inbound)) t.streams)
          (t.connection_reserved + declared request inbound)
          (t.global_budget.used + declared request inbound)
          t.connection_window

pub insert_stream-Admits :
    (t : StreamTable) (id : ℕ) (request : RpcOpen) (inbound : Bool) (after : StreamTable)
    → insert_stream t id request inbound ≡ ok after
    → Admits t id request inbound after
unfolding insert_stream declared first_body kind_of content_length reserve release
insert_stream-Admits t id request false after h = record {
  slots = ground arith;
  size = ground arith;
  within_budget = ground arith;
  within_global = ground arith;
  same = ground arith;
}
insert_stream-Admits t id (provider provider_id) true after h = record {
  slots = ground arith;
  size = ground arith;
  within_budget = ground arith;
  within_global = ground arith;
  same = ground arith;
}
insert_stream-Admits t id (event_subscription sub_id filter) true after h = record {
  slots = ground arith;
  size = ground arith;
  within_budget = ground arith;
  within_global = ground arith;
  same = ground arith;
}
insert_stream-Admits t id (rpc parent_id request_id method deadline len) true after h = record {
  slots = ground arith;
  size = ground arith;
  within_budget = ground arith;
  within_global = ground arith;
  same = ground arith;
}
insert_stream-Admits t id (event_delivery parent_id delivery_id event_id attempt len) true after h =
    record {
      slots = ground arith;
      size = ground arith;
      within_budget = ground arith;
      within_global = ground arith;
      same = ground arith;
    }

first_body-fits :
    (request : RpcOpen) (inbound : Bool)
    → declared request inbound ≤ max_message_bytes
    → BodyFits (first_body request inbound)
unfolding first_body declared kind_of content_length
first_body-fits request false h = tt
first_body-fits (provider id) true h = tt
first_body-fits (event_subscription id filter) true h = tt
first_body-fits (rpc parent_id id method deadline len) true h = (omega arith, h)
first_body-fits (event_delivery parent_id id event attempt len) true h = (omega arith, h)

admitted-IsSound :
    (others : ℕ) (t : StreamTable) (id : ℕ) (request : RpcOpen) (inbound : Bool)
    → IsSound others t
    → lookup id t.streams ≡ none
    → WasOpened t id
    → length t.streams < t.limits.max_concurrent_streams
    → declared request inbound ≤ max_message_bytes
    → t.connection_reserved + declared request inbound ≤ t.connection_budget
    → t.global_budget.used + declared request inbound ≤ t.global_budget.maximum
    → IsSound others (
        changed t
          (insert id (opened t request (first_body request inbound)) t.streams)
          (t.connection_reserved + declared request inbound)
          (t.global_budget.used + declared request inbound)
          t.connection_window)
unfolding first_body entry_cost declared
admitted-IsSound others t id request inbound inv fresh ours slots size budget global =
    put-IsSound others t id (opened t request (first_body request inbound))
      (t.connection_reserved + declared request inbound)
      (t.global_budget.used + declared request inbound) t.connection_window inv
      (omega arith, first_body-fits request inbound size) ours (λ absent. slots)
      (omega (arith, ap entry_cost fresh, first_body-cost request inbound)) budget
      (omega (arith, inv.shared)) global inv.window

insert_stream-IsSound :
    (others : ℕ) (t : StreamTable) (id : ℕ) (request : RpcOpen) (inbound : Bool)
    (after : StreamTable)
    → IsSound others t
    → lookup id t.streams ≡ none
    → WasOpened t id
    → insert_stream t id request inbound ≡ ok after
    → IsSound others after
insert_stream-IsSound others t id request inbound after inv fresh ours h =
    let a = insert_stream-Admits t id request inbound after h in
    rw a.same (
      admitted-IsSound others t id request inbound inv fresh ours a.slots a.size a.within_budget
        a.within_global)

-- What a peer opens is new to the table, and so is what this side opens.
owns-opposite : (side : Initiator) (id : ℕ) → owns (opposite side) id ≡ true → owns side id ≡ false
unfolding owns opposite parity
owns-opposite client id h = ground arith
owns-opposite server id h = ground arith

fresh_peer :
    (others : ℕ) (t : StreamTable) (id : ℕ)
    → IsSound others t
    → owns (opposite t.local) id ≡ true
    → t.highest_peer < id
    → lookup id t.streams ≡ none
fresh_peer others t id inv peers above = elim (Option-cases (lookup id t.streams)) [
  | inl absent ↦ absent
  | inr (s, present) ↦ elim (inv.known id s present) [
    | inl (owned, below) ↦ absurd (omega arith)
    | inr (owned, below) ↦ absurd (cc (owns-opposite t.local id peers, owned))
  ]
]

fresh_local :
    (others : ℕ) (t : StreamTable)
    → IsSound others t
    → owns t.local t.next_local ≡ true
    → lookup t.next_local t.streams ≡ none
fresh_local others t inv owned = elim (Option-cases (lookup t.next_local t.streams)) [
  | inl absent ↦ absent
  | inr (s, present) ↦ elim (inv.known t.next_local s present) [
    | inl (peers, below) ↦ absurd (cc (owns-opposite t.local t.next_local peers, owned))
    | inr (same, below) ↦ absurd (omega arith)
  ]
]

-- The identifiers that a table counts as used may grow.
widened-IsSound :
    (others : ℕ) (t : StreamTable) (highest_peer next_local : ℕ)
    → IsSound others t
    → t.highest_peer ≤ highest_peer
    → t.next_local ≤ next_local
    → next_local % 2 ≡ parity t.local
    → IsSound others (record t { highest_peer = highest_peer; next_local = next_local })
widened-IsSound others t highest_peer next_local inv up further even = record {
  distinct = inv.distinct;
  fits = inv.fits;
  known = λ id s h. elim (inv.known id s h) [
    | inl (owned, below) ↦ inl (owned, omega arith)
    | inr (owned, below) ↦ inr (owned, omega arith)
  ];
  count = inv.count;
  ledger = inv.ledger;
  within_budget = inv.within_budget;
  shared = inv.shared;
  within_global = inv.within_global;
  machine = inv.machine;
  window = inv.window;
  local_parity = even;
  local_positive = omega (arith, inv.local_positive);
}

-- An identifier that `refuse_peer` takes is the peer's and above all before it.
pub refuse_peer-above :
    (t : StreamTable) (id : ℕ) (after : StreamTable)
    → refuse_peer t id ≡ ok after
    → (owns (opposite t.local) id ≡ true)
      × (t.highest_peer < id)
      × (t.accepting ≡ true)
      × (after ≡ record t { highest_peer = id })
unfolding refuse_peer check_peer_id
refuse_peer-above t id after h = (ground arith, ground arith, ground arith, ground arith)

pub refuse_peer-IsSound :
    (others : ℕ) (t : StreamTable) (id : ℕ) (after : StreamTable)
    → IsSound others t
    → refuse_peer t id ≡ ok after
    → IsSound others after
refuse_peer-IsSound others t id after inv h =
    let (owned, above, accepting, same) = refuse_peer-above t id after h in
    rw same
      (widened-IsSound others t id t.next_local inv (omega arith) (omega arith) inv.local_parity)

admit-IsSound :
    (others : ℕ) (t considered : StreamTable) (id : ℕ) (request : RpcOpen)
    → IsSound others t
    → refuse_peer t id ≡ ok considered
    → IsSound others (admit considered id request).0
unfolding admit
admit-IsSound others t considered id request inv taken =
    let (owned, above, accepting, same) = refuse_peer-above t id considered taken in
    let kept = refuse_peer-IsSound others t id considered inv taken in
    elim (Result-cases (insert_stream considered id request true)) [
      | inr (e, refused) ↦ rw (admit, refused) kept
      | inl (after, inserted) ↦
          rw (admit, inserted)
            (insert_stream-IsSound others considered id request true after kept
              (rw same (fresh_peer others t id inv owned above))
              (rw same (inl (owned, omega arith))) inserted)
    ]

pub open_peer-IsSound :
    (others : ℕ) (t : StreamTable) (id : ℕ) (request : RpcOpen)
    → IsSound others t
    → IsSound others (open_peer t id request).0
unfolding open_peer
open_peer-IsSound others t id request inv = elim (Result-cases (refuse_peer t id)) [
  | inr (e, refused) ↦ rw (open_peer, refused) inv
  | inl (considered, taken) ↦
      rw (open_peer, taken) (admit-IsSound others t considered id request inv taken)
]

pub next_id-next : (id : ℕ) → id ≤ max_stream_id → next_id id ≡ id + 2
unfolding next_id
next_id-next id h = ground arith

pub own_next :
    (others : ℕ) (t : StreamTable)
    → IsSound others t
    → t.next_local ≤ max_stream_id
    → owns t.local t.next_local ≡ true
unfolding owns
own_next others t inv h = ground (arith, inv.local_parity, inv.local_positive)

pub open_local-took :
    (t : StreamTable) (request : RpcOpen) (after : StreamTable) (id : ℕ)
    → open_local t request ≡ ok (after, id)
    → (between : StreamTable) × (insert_stream t t.next_local request false ≡ ok between)
      × (t.accepting ≡ true)
      × (t.next_local ≤ max_stream_id)
      × (id ≡ t.next_local)
      × (after ≡ record between { next_local = next_id t.next_local })
unfolding open_local
open_local-took t request after id h =
    elim (Result-cases (insert_stream t t.next_local request false)) [
      | inr (e, refused) ↦ absurd (ground (arith, refused))
      | inl (between, inserted) ↦
          (between, inserted, ground arith, ground arith, ground arith, ground arith)
    ]

pub open_local-IsSound :
    (others : ℕ) (t : StreamTable) (request : RpcOpen) (after : StreamTable) (id : ℕ)
    → IsSound others t
    → open_local t request ≡ ok (after, id)
    → IsSound others after
unfolding declared first_body
open_local-IsSound others t request after id inv h =
    let (between, inserted, accepting, legal, which, same) = open_local-took t request after id h in
    let owned = own_next others t inv legal in
    let next = next_id-next t.next_local legal in
    let further : StreamTable = record t { next_local = next_id t.next_local } in
    let wide : IsSound others further =
      widened-IsSound others t t.highest_peer (next_id t.next_local) inv (omega arith) (omega arith)
        (omega (arith, inv.local_parity)) in
    let a = insert_stream-Admits t t.next_local request false between inserted in
    rw (same, a.same)
      (admitted-IsSound others further t.next_local request false wide
        (fresh_local others t inv owned) (inr (owned, omega arith)) a.slots a.size a.within_budget
        a.within_global)
