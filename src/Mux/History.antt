-- ===== src/Mux/History.antt =====
-- Histories of calls on a `StreamTable` of crates/netbaiot-rpc-mux/src/lib.rs.
use netbaiot.Prelude.{
  Result, ℕ, ◌%◌, ◌≤◌, ◌<◌, ◌≡◌, refl, sym, inl, inr, Bool, List, [], ◌∷◌, arith, nat_eq, string_eq,
  ok, err, Result-cases, usize_limit,
}
use netbaiot.Prelude.Map.{lookup}
use netbaiot.RpcWire.{RpcLimits, validate}
use netbaiot.Mux.Ledger.{reserved}
use netbaiot.RpcWire.Open.{RpcOpen}
use netbaiot.Mux.{MuxError, Initiator, client, server, parity, StreamTable, ReassemblyBudget}
use netbaiot.Mux.Table.{new, blank, first_local, goaway, refuse_peer, open_peer, open_local}
use netbaiot.Mux.Flow.{
  receive_data, grant_credit, mark_response, mark_local_end, close_parent, reset,
}
use netbaiot.Mux.Invariant.{IsSound}
use netbaiot.Mux.Receiving.{receive_data-IsSound}
use netbaiot.Mux.Opening.{refuse_peer-IsSound, open_peer-IsSound, open_local-IsSound}
use netbaiot.Mux.Ending.{
  grant_credit-IsSound, mark_response-IsSound, mark_local_end-IsSound, close_parent-IsSound,
  reset-IsSound, goaway-IsSound,
}

-- The public calls that change a table, with their arguments.
pub data Call : Type 0 where
  going_away : Call
  refusing : ℕ → Call
  opening_peer : ℕ → RpcOpen → Call
  opening_local : RpcOpen → Call
  receiving : ℕ → List ℕ → Bool → Call
  granting : ℕ → ℕ → Call
  answering : ℕ → ℕ → Call
  ending : ℕ → Call
  closing : ℕ → Call
  resetting : ℕ → Call

-- The table after a call that may fail.
unfoldable pub after_call : StreamTable → Result MuxError StreamTable → StreamTable
after_call t (ok after) = after
after_call t (err e) = t

unfoldable pub after_value :
    {A : Type 0} → StreamTable → Result MuxError (StreamTable × A) → StreamTable
after_value t (ok (after, a)) = after
after_value t (err e) = t

unfoldable pub apply : StreamTable → Call → StreamTable
apply t going_away = (goaway t).0
apply t (refusing id) = after_call t (refuse_peer t id)
apply t (opening_peer id request) = (open_peer t id request).0
apply t (opening_local request) = after_value t (open_local t request)
apply t (receiving id bytes end) = after_value t (receive_data t id bytes end)
apply t (granting id increment) = after_call t (grant_credit t id increment)
apply t (answering id expected) = after_call t (mark_response t id expected)
apply t (ending id) = after_call t (mark_local_end t id)
apply t (closing id) = (close_parent t id).0
apply t (resetting id) = after_value t (reset t id)

unfoldable pub run : StreamTable → List Call → StreamTable
run t [] = t
run t (call ∷ calls) = run (apply t call) calls

-- What holds after a call that fails, and after it succeeds, holds after it.
pub after_call-keeps :
    (P : StreamTable → Type 0) (t : StreamTable) (r : Result MuxError StreamTable)
    → P t
    → ((after : StreamTable) → r ≡ ok after → P after)
    → P (after_call t r)
unfolding after_call
after_call-keeps P t (ok after) pt pr = pr after refl
after_call-keeps P t (err e) pt pr = pt

pub after_value-keeps :
    {A : Type 0} (P : StreamTable → Type 0) (t : StreamTable)
    (r : Result MuxError (StreamTable × A))
    → P t
    → ((after : StreamTable) (a : A) → r ≡ ok (after, a) → P after)
    → P (after_value t r)
unfolding after_value
after_value-keeps P t (ok (after, a)) pt pr = pr after a refl
after_value-keeps P t (err e) pt pr = pt

pub apply-IsSound :
    (others : ℕ) (t : StreamTable) (call : Call) → IsSound others t → IsSound others (apply t call)
unfolding apply
apply-IsSound others t going_away inv = goaway-IsSound others t inv
apply-IsSound others t (refusing id) inv =
    after_call-keeps (IsSound others) t _ inv
      (λ after h. refuse_peer-IsSound others t id after inv h)
apply-IsSound others t (opening_peer id request) inv = open_peer-IsSound others t id request inv
apply-IsSound others t (opening_local request) inv =
    after_value-keeps (IsSound others) t _ inv
      (λ after id h. open_local-IsSound others t request after id inv h)
apply-IsSound others t (receiving id bytes end) inv =
    after_value-keeps (IsSound others) t _ inv
      (λ after d h. receive_data-IsSound others t id bytes end after d inv h)
apply-IsSound others t (granting id increment) inv =
    after_call-keeps (IsSound others) t _ inv
      (λ after h. grant_credit-IsSound others t id increment after inv h)
apply-IsSound others t (answering id expected) inv =
    after_call-keeps (IsSound others) t _ inv
      (λ after h. mark_response-IsSound others t id expected after inv h)
apply-IsSound others t (ending id) inv =
    after_call-keeps (IsSound others) t _ inv
      (λ after h. mark_local_end-IsSound others t id after inv h)
apply-IsSound others t (closing id) inv = close_parent-IsSound others t id inv
apply-IsSound others t (resetting id) inv =
    after_value-keeps (IsSound others) t _ inv
      (λ after removed h. reset-IsSound others t id after removed inv h)

pub run-IsSound :
    (others : ℕ) (t : StreamTable) (calls : List Call)
    → IsSound others t
    → IsSound others (run t calls)
unfolding run
run-IsSound others t [] inv = inv
run-IsSound others t (call ∷ calls) inv =
    run-IsSound others (apply t call) calls (apply-IsSound others t call inv)

first_local-parity :
    (local : Initiator) → (first_local local % 2 ≡ parity local) × (0 < first_local local)
unfolding first_local parity
first_local-parity client = (refl, omega arith)
first_local-parity server = (refl, omega arith)

blank-IsSound :
    (local : Initiator) (limits : RpcLimits) (connection_budget : ℕ) (budget : ReassemblyBudget)
    → budget.used ≤ budget.maximum
    → budget.maximum < usize_limit
    → IsSound budget.used (blank local limits connection_budget budget)
unfolding reserved lookup
blank-IsSound local limits connection_budget budget within machine = record {
  distinct = tt;
  fits = λ id s h. absurd (cc h);
  known = λ id s h. absurd (cc h);
  count = omega arith;
  ledger = refl;
  within_budget = omega arith;
  shared = omega arith;
  within_global = within;
  machine = machine;
  window = omega arith;
  local_parity = (first_local-parity local).0;
  local_positive = (first_local-parity local).1;
}

new-blank :
    (local : Initiator) (limits : RpcLimits) (connection_budget : ℕ) (budget : ReassemblyBudget)
    (t : StreamTable)
    → new local limits connection_budget budget ≡ ok t
    → blank local limits connection_budget budget ≡ t
unfolding new
new-blank local limits connection_budget budget t h = elim (Result-cases (validate limits)) [
  | inl (u, valid) ↦ ground (arith, valid)
  | inr (e, refused) ↦ absurd (cc (rw (new, refused) at h))
]

-- Over any history of calls on a new table, failing ones included: the bytes that the connection
-- reserves are the sum of what its bodies declared, within the connection's budget; the global
-- budget holds them besides what it held, within its maximum; no body outgrows its declaration, no
-- window its initial size, no table its number of streams; and every stream was opened by its owner.
pub new-run-IsSound :
    (local : Initiator) (limits : RpcLimits) (connection_budget : ℕ) (budget : ReassemblyBudget)
    (t : StreamTable) (calls : List Call)
    → budget.used ≤ budget.maximum
    → budget.maximum < usize_limit
    → new local limits connection_budget budget ≡ ok t
    → IsSound budget.used (run t calls)
new-run-IsSound local limits connection_budget budget t calls within machine h =
    run-IsSound budget.used t calls (
      rw (sym (new-blank local limits connection_budget budget t h))
        (blank-IsSound local limits connection_budget budget within machine))
