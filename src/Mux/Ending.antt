-- ===== src/Mux/Ending.antt =====
-- Credit, responses and the end of streams: `grant_credit`, `mark_response`, `mark_local_end`,
-- `close_parent` and `reset` of crates/netbaiot-rpc-mux/src/lib.rs.
use netbaiot.Prelude.{
  ℕ, zero, suc, ◌+◌, ◌≤◌, ◌≡◌, refl, sym, ap, inl, inr, true, false, none, some, List, [], ◌∷◌,
  arith, if◌then◌else◌, Option-cases, nat_eq, string_eq, ok,
}
use netbaiot.Prelude.Map.{lookup, insert}
use netbaiot.RpcWire.{max_message_bytes}
use netbaiot.Mux.{Stream, StreamTable, reserve}
use netbaiot.Mux.Table.{remove_stream, goaway}
use netbaiot.Mux.Flow.{
  grant_credit, credit, mark_response, mark_local_end, remove_all, close_parent, reset,
}
use netbaiot.Mux.Ledger.{body_cost, entry_cost}
use netbaiot.Mux.Invariant.{
  IsSound, changed, put-IsSound, steady-IsSound, remove_stream-IsSound, if_removed-IsSound,
}

-- A change of one stream that leaves the ledger as it is.
restream-IsSound :
    (others : ℕ) (t : StreamTable) (id : ℕ) (s w : Stream)
    → IsSound others t
    → lookup id t.streams ≡ some s
    → w.body ≡ s.body
    → w.recv_window ≤ t.limits.initial_stream_window_bytes
    → IsSound others (record t { streams = insert id w t.streams })
unfolding entry_cost
restream-IsSound others t id s w inv present same_body window =
    put-IsSound others t id w t.connection_reserved t.global_budget.used t.connection_window inv
      (window, rw same_body (inv.fits id s present).1) (inv.known id s present)
      (λ absent. absurd (cc (absent, present)))
      (omega (arith, ap entry_cost present, ap body_cost same_body)) inv.within_budget inv.shared
      inv.within_global inv.window

pub grant_credit-IsSound :
    (others : ℕ) (t : StreamTable) (id increment : ℕ) (after : StreamTable)
    → IsSound others t
    → grant_credit t id increment ≡ ok after
    → IsSound others after
unfolding grant_credit credit
grant_credit-IsSound others t zero increment after inv h =
    let (small, same) : (t.connection_window + increment ≤ t.limits.initial_connection_window_bytes)
        × (after ≡ record t { connection_window = t.connection_window + increment }) =
      (ground arith, ground arith) in
    rw same (steady-IsSound others t (t.connection_window + increment) t.accepting inv small)
grant_credit-IsSound others t (suc id) increment after inv h =
    elim (Option-cases (lookup (suc id) t.streams)) [
      | inl absent ↦ absurd (ground (arith, absent))
      | inr (s, present) ↦
          let (small, same) : (s.recv_window + increment ≤ t.limits.initial_stream_window_bytes)
              × (after ≡ record t {
                streams =
                    insert (suc id) (record s { recv_window = s.recv_window + increment })
                      t.streams;
              }) =
            (ground (arith, present), ground (arith, present)) in
          rw same (
            restream-IsSound others t (suc id) s
              (record s { recv_window = s.recv_window + increment }) inv present refl small)
    ]

pub mark_response-IsSound :
    (others : ℕ) (t : StreamTable) (id expected : ℕ) (after : StreamTable)
    → IsSound others t
    → mark_response t id expected ≡ ok after
    → IsSound others after
unfolding mark_response reserve entry_cost body_cost
mark_response-IsSound others t id expected after inv h = elim (Option-cases (lookup id t.streams)) [
  | inl absent ↦ absurd (ground (arith, absent))
  | inr (s, present) ↦
      let answered : Stream = record s {
        body = some (record { expected = expected; bytes = [] });
        response_seen = true;
      } in
      let (none_yet, small, budget, global, same) : (s.body ≡ none)
          × (expected ≤ max_message_bytes)
          × (t.connection_reserved + expected ≤ t.connection_budget)
          × (t.global_budget.used + expected ≤ t.global_budget.maximum)
          × (after
              ≡ changed t (insert id answered t.streams) (t.connection_reserved + expected)
                  (t.global_budget.used + expected) t.connection_window) =
        (
          ground (arith, present),
          ground (arith, present),
          ground (arith, present),
          ground (arith, present),
          ground (arith, present),
        ) in
      rw same (
        put-IsSound others t id answered (t.connection_reserved + expected)
          (t.global_budget.used + expected) t.connection_window inv
          ((inv.fits id s present).0, (omega arith, small)) (inv.known id s present)
          (λ absent. absurd (cc (absent, present)))
          (omega (arith, ap entry_cost present, ap body_cost none_yet)) budget
          (omega (arith, inv.shared)) global inv.window)
]

pub mark_local_end-IsSound :
    (others : ℕ) (t : StreamTable) (id : ℕ) (after : StreamTable)
    → IsSound others t
    → mark_local_end t id ≡ ok after
    → IsSound others after
unfolding mark_local_end
mark_local_end-IsSound others t id after inv h = elim (Option-cases (lookup id t.streams)) [
  | inl absent ↦ absurd (ground (arith, absent))
  | inr (s, present) ↦
      let closed : StreamTable = record t {
        streams = insert id (record s { local_closed = true }) t.streams;
      } in
      let same : after ≡ (if s.remote_closed then remove_stream closed id else closed) =
        ground (arith, present) in
      rw same (
        if_removed-IsSound others s.remote_closed closed id (
          restream-IsSound others t id s (record s { local_closed = true }) inv present refl
            (inv.fits id s present).0))
]

remove_all-IsSound :
    (others : ℕ) (t : StreamTable) (gone : List ℕ)
    → IsSound others t
    → IsSound others (remove_all t gone)
unfolding remove_all
remove_all-IsSound others t [] inv = inv
remove_all-IsSound others t (id ∷ gone) inv =
    remove_all-IsSound others (remove_stream t id) gone (remove_stream-IsSound others t id inv)

pub close_parent-IsSound :
    (others : ℕ) (t : StreamTable) (id : ℕ)
    → IsSound others t
    → IsSound others (close_parent t id).0
unfolding close_parent
close_parent-IsSound others t id inv =
    remove_stream-IsSound others (remove_all t _) id (remove_all-IsSound others t _ inv)

pub reset-IsSound :
    (others : ℕ) (t : StreamTable) (id : ℕ) (after : StreamTable) (removed : List ℕ)
    → IsSound others t
    → reset t id ≡ ok (after, removed)
    → IsSound others after
unfolding reset
reset-IsSound others t id after removed inv h =
    let same : (close_parent t id).0 ≡ after = ground arith in
    rw (sym same) (close_parent-IsSound others t id inv)

pub goaway-IsSound : (others : ℕ) (t : StreamTable) → IsSound others t → IsSound others (goaway t).0
unfolding goaway
goaway-IsSound others t inv = steady-IsSound others t t.connection_window false inv inv.window
