-- ===== src/Mux/Receiving.antt =====
-- Received bytes: `receive_data` of crates/netbaiot-rpc-mux/src/lib.rs.
use netbaiot.Prelude.{
  ℕ, ◌+◌, ◌-◌, ◌≤◌, ◌≡◌, ap, ◌∙◌, inl, inr, Bool, true, false, some, List, arith, Bool-cases,
  Option-cases, nat_eq, string_eq, length, length-append, ok, Result-cases,
}
use netbaiot.Prelude.Map.{lookup, insert}
use netbaiot.Mux.{ReceiveBody, Stream, StreamTable, ReceivedData, release}
use netbaiot.Mux.Table.{drop_body}
use netbaiot.Mux.Flow.{
  receive_data, receive_into, check_data, stream_body, taken_in, with_stream, outcome, received,
}
use netbaiot.Mux.Ledger.{body_cost, entry_cost, entry_cost-reserved}
use netbaiot.Mux.Invariant.{IsSound, BodyFits, changed, put-IsSound, if_removed-IsSound}

-- What `receive_data` has tested when it succeeds.
pub record Accepts (t : StreamTable) (id : ℕ) (bytes : List ℕ) (end : Bool) (s : Stream)
    (body : ReceiveBody) : Type 0 where
  pub present : lookup id t.streams ≡ some s
  pub is_open : s.remote_closed ≡ false
  pub has_body : s.body ≡ some body
  pub connection_credit : length bytes ≤ t.connection_window
  pub stream_credit : length bytes ≤ s.recv_window
  pub room : length body.bytes + length bytes ≤ body.expected
  pub whole : end ≡ true → length body.bytes + length bytes ≡ body.expected

check_data-ok :
    (w : ℕ) (s : Stream) (body : ReceiveBody) (bytes : List ℕ) (end : Bool) (next : ℕ)
    → check_data w s body bytes end ≡ ok next
    → (length bytes ≤ w)
      × (length bytes ≤ s.recv_window)
      × (length body.bytes + length bytes ≤ body.expected)
      × (end ≡ true → length body.bytes + length bytes ≡ body.expected)
unfolding check_data
check_data-ok w s body bytes end next h =
    (ground arith, ground arith, ground arith, λ e. ground arith)

pub receive_data-Accepts :
    (t : StreamTable) (id : ℕ) (bytes : List ℕ) (end : Bool) (after : StreamTable)
    (data_in : ReceivedData)
    → receive_data t id bytes end ≡ ok (after, data_in)
    → (s : Stream) × (body : ReceiveBody) × Accepts t id bytes end s body
      × (after ≡ receive_into t id s body bytes end)
      × (data_in ≡ outcome body bytes end)
unfolding receive_data stream_body check_data
receive_data-Accepts t id bytes end after data_in h = elim (Option-cases (lookup id t.streams)) [
  | inl absent ↦ absurd (cc (rw absent at h))
  | inr (s, present) ↦ elim (Bool-cases s.remote_closed) [
    | inl closed ↦ absurd (cc (rw (present, closed) at h))
    | inr is_open ↦ elim (Option-cases s.body) [
      | inl no_body ↦ absurd (cc (rw (present, is_open, no_body) at h))
      | inr (body, has_body) ↦
          elim (Result-cases (check_data t.connection_window s body bytes end)) [
            | inr (e, refused) ↦ absurd (cc (rw (present, is_open, has_body, refused) at h))
            | inl (next, passed) ↦
                let (c, w, room, whole) =
                  check_data-ok t.connection_window s body bytes end next passed in
                let done = rw (present, is_open, has_body, passed) at h in
                (
                  s,
                  body,
                  record {
                    present = present;
                    is_open = is_open;
                    has_body = has_body;
                    connection_credit = c;
                    stream_credit = w;
                    room = room;
                    whole = whole;
                  },
                  cc,
                  cc,
                )
          ]
    ]
  ]
]

given_back-changed :
    (t : StreamTable) (id : ℕ) (s : Stream) (body : ReceiveBody) (bytes : List ℕ)
    → body.expected ≤ t.connection_reserved
    → body.expected ≤ t.global_budget.used
    → drop_body (with_stream t id (taken_in s body bytes true) (length bytes)) (some body)
      ≡ changed t
          (insert id (taken_in s body bytes true) t.streams)
          (t.connection_reserved - body.expected)
          (t.global_budget.used - body.expected)
          (t.connection_window - length bytes)
unfolding drop_body with_stream release
given_back-changed t id s body bytes hr hu = ground arith

-- A finished body leaves the ledger, whatever becomes of its stream.
given_back-IsSound :
    (others : ℕ) (t : StreamTable) (id : ℕ) (bytes : List ℕ) (s : Stream) (body : ReceiveBody)
    → IsSound others t
    → Accepts t id bytes true s body
    → IsSound others
        (drop_body (with_stream t id (taken_in s body bytes true) (length bytes)) (some body))
unfolding taken_in body_cost entry_cost
given_back-IsSound others t id bytes s body inv acc =
    let cost : entry_cost (lookup id t.streams) ≡ body.expected =
      ap entry_cost acc.present ∙ ap body_cost acc.has_body in
    let covered = entry_cost-reserved id t.streams in
    let enough : body.expected ≤ t.connection_reserved = omega (arith, cost, covered, inv.ledger) in
    rw (given_back-changed t id s body bytes enough (omega (arith, enough, inv.shared))) (
      put-IsSound others t id (taken_in s body bytes true) (t.connection_reserved - body.expected)
        (t.global_budget.used - body.expected) (t.connection_window - length bytes) inv
        (omega (arith, (inv.fits id s acc.present).0), tt) (inv.known id s acc.present)
        (λ absent. absurd (cc (absent, acc.present))) (omega (arith, cost, enough))
        (omega (arith, inv.within_budget)) (omega (arith, inv.shared, enough))
        (omega (arith, inv.within_global)) (omega (arith, inv.window)))

received-fits :
    (s : Stream) (body : ReceiveBody) (bytes : List ℕ)
    → BodyFits s.body
    → s.body ≡ some body
    → length body.bytes + length bytes ≤ body.expected
    → BodyFits (some (received body bytes))
received-fits s body bytes old has_body room =
    let fits : BodyFits (some body) = rw has_body at old in
    (omega (arith, length-append body.bytes bytes, room), fits.1)

with_stream-IsSound :
    (others : ℕ) (t : StreamTable) (id : ℕ) (bytes : List ℕ) (s : Stream) (body : ReceiveBody)
    → IsSound others t
    → Accepts t id bytes false s body
    → IsSound others (with_stream t id (taken_in s body bytes false) (length bytes))
unfolding taken_in body_cost entry_cost with_stream
with_stream-IsSound others t id bytes s body inv acc =
    let cost : entry_cost (lookup id t.streams) ≡ body.expected =
      ap entry_cost acc.present ∙ ap body_cost acc.has_body in
    let old = inv.fits id s acc.present in
    put-IsSound others t id (taken_in s body bytes false) t.connection_reserved t.global_budget.used
      (t.connection_window - length bytes) inv
      (omega (arith, old.0), received-fits s body bytes old.1 acc.has_body acc.room)
      (inv.known id s acc.present) (λ absent. absurd (cc (absent, acc.present)))
      (omega (arith, cost)) inv.within_budget inv.shared inv.within_global
      (omega (arith, inv.window))

receive_into-IsSound :
    (others : ℕ) (t : StreamTable) (id : ℕ) (bytes : List ℕ) (end : Bool) (s : Stream)
    (body : ReceiveBody)
    → IsSound others t
    → Accepts t id bytes end s body
    → IsSound others (receive_into t id s body bytes end)
unfolding receive_into
receive_into-IsSound others t id bytes true s body inv acc =
    if_removed-IsSound others s.local_closed _ id
      (given_back-IsSound others t id bytes s body inv acc)
receive_into-IsSound others t id bytes false s body inv acc =
    with_stream-IsSound others t id bytes s body inv acc

pub receive_data-IsSound :
    (others : ℕ) (t : StreamTable) (id : ℕ) (bytes : List ℕ) (end : Bool) (after : StreamTable)
    (data_in : ReceivedData)
    → IsSound others t
    → receive_data t id bytes end ≡ ok (after, data_in)
    → IsSound others after
receive_data-IsSound others t id bytes end after data_in inv h =
    let (s, body, acc, same, what) = receive_data-Accepts t id bytes end after data_in h in
    rw same (receive_into-IsSound others t id bytes end s body inv acc)
