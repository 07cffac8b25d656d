-- ===== src/Mux/Reuse.antt =====
-- Stream identifiers of crates/netbaiot-rpc-mux/src/lib.rs: each is used once.
use netbaiot.Prelude.{ℕ, ◌≤◌, ◌<◌, ◌≡◌, sym, ap, ◌∙◌, true, List, arith, nat_eq, string_eq, ok, err}
use netbaiot.RpcWire.{stream_id_invalid}
use netbaiot.RpcWire.Open.{RpcOpen}
use netbaiot.Mux.{connection, StreamTable, owns}
use netbaiot.Mux.Invariant.{IsSound}
use netbaiot.Mux.Table.{check_peer_id, refuse_peer, open_peer, open_local, next_id}
use netbaiot.Mux.Opening.{
  refuse_peer-above, open_local-took, next_id-next, own_next, open_local-IsSound,
}
use netbaiot.Mux.History.{Call, run, run-IsSound}
use netbaiot.Mux.Identifiers.{run-Follows, admit-Follows, open_local-Follows}

-- The identifier is refused as a connection error, with metadata and without, and leaves no trace.
abbrev pub Refuses : StreamTable → ℕ → RpcOpen → Type 0
Refuses t id request =
    (refuse_peer t id ≡ err (connection stream_id_invalid))
    × (open_peer t id request ≡ (t, err (connection stream_id_invalid)))

used-Refuses :
    (t : StreamTable) (id : ℕ) (request : RpcOpen) → id ≤ t.highest_peer → Refuses t id request
unfolding open_peer refuse_peer check_peer_id
used-Refuses t id request used = (ground arith, ground arith)

run-Refuses :
    (t : StreamTable) (id : ℕ) (request : RpcOpen) (calls : List Call)
    → id ≤ t.highest_peer
    → Refuses (run t calls) id request
run-Refuses t id request calls used =
    used-Refuses (run t calls) id request (omega (arith, used, (run-Follows t calls).peer_grows))

open_peer-considers :
    (t considered : StreamTable) (id : ℕ) (request : RpcOpen)
    → refuse_peer t id ≡ ok considered
    → (id ≤ considered.highest_peer) × (id ≤ (open_peer t id request).0.highest_peer)
unfolding open_peer
open_peer-considers t considered id request taken =
    let (owned, above, accepting, same) = refuse_peer-above t id considered taken in
    let seen : considered.highest_peer ≡ id = ap (λ u. u.highest_peer) same in
    (
      omega (arith, seen),
      rw (open_peer, taken) (omega (arith, (admit-Follows considered id request).peer_grows, seen)),
    )

-- A peer's identifier that `refuse_peer` takes is used up, whether `refuse_peer` alone considered it or
-- `open_peer` did, and whether the latter then admitted the stream or not: after any further calls, both
-- refuse it as a connection error, with whatever metadata it comes again, and change nothing.
pub refuse_peer-never_again :
    (t considered : StreamTable) (id : ℕ) (request again : RpcOpen) (calls : List Call)
    → refuse_peer t id ≡ ok considered
    → Refuses (run considered calls) id again
      × Refuses (run (open_peer t id request).0 calls) id again
refuse_peer-never_again t considered id request again calls h =
    let (alone, admitted) = open_peer-considers t considered id request h in
    (
      run-Refuses considered id again calls alone,
      run-Refuses (open_peer t id request).0 id again calls admitted,
    )

-- Of a sound table, as any history leaves it: two identifiers that this side opens, with any calls
-- between them, are both this side's own by range and parity, and the second is the larger.
pub open_local-rises :
    (others : ℕ) (t after later : StreamTable) (first second : ℕ) (request again : RpcOpen)
    (calls : List Call)
    → IsSound others t
    → open_local t request ≡ ok (after, first)
    → open_local (run after calls) again ≡ ok (later, second)
    → (owns t.local first ≡ true) × (owns t.local second ≡ true) × (first < second)
open_local-rises others t after later first second request again calls sound h k =
    let (between, inserted, accepting, legal, which, same) =
      open_local-took t request after first h in
    let (middle, put, still, fine, second_is, last) =
      open_local-took (run after calls) again later second k in
    let bumped : after.next_local ≡ next_id t.next_local = ap (λ u. u.next_local) same in
    let opened = open_local-Follows t request after first h in
    let followed = run-Follows after calls in
    let side : (run after calls).local ≡ t.local = followed.same_side ∙ opened.same_side in
    let sound_later =
      run-IsSound others after calls (open_local-IsSound others t request after first sound h) in
    (
      ap (owns t.local) which ∙ own_next others t sound legal,
      ap (λ o. owns o second) (sym side)
          ∙ ap (owns (run after calls).local) second_is
          ∙ own_next others (run after calls) sound_later fine,
      omega (arith, next_id-next t.next_local legal, bumped, followed.local_grows),
    )
