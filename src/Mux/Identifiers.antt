-- ===== src/Mux/Identifiers.antt =====
-- Stream identifiers of crates/netbaiot-rpc-mux/src/lib.rs: what counts as used never shrinks.
use netbaiot.Prelude.{
  ℕ, zero, suc, ◌≤◌, ◌≡◌, refl, sym, ap, ◌∙◌, inl, inr, Bool, true, false, Option, none, some, List,
  [], ◌∷◌, arith, if◌then◌else◌, Option-cases, nat_eq, string_eq, ok, Result-cases,
}
use netbaiot.Prelude.Map.{lookup, insert}
use netbaiot.RpcWire.Open.{RpcOpen}
use netbaiot.Mux.{ReceivedData, ReceiveBody, Stream, StreamTable}
use netbaiot.Mux.Table.{
  refuse_peer, open_peer, admit, open_local, insert_stream, goaway, remove_stream, drop_body,
}
use netbaiot.Mux.Flow.{
  receive_data, receive_into, with_stream, grant_credit, mark_response, mark_local_end,
  close_parent, remove_all, reset,
}
use netbaiot.Mux.Receiving.{receive_data-Accepts}
use netbaiot.Mux.Opening.{refuse_peer-above, open_local-took, insert_stream-Admits, next_id-next}
use netbaiot.Mux.History.{
  Call, going_away, refusing, opening_peer, opening_local, receiving, granting, answering, ending,
  closing, resetting, apply, run, after_call-keeps, after_value-keeps,
}

-- The side stays, and what counts as used grows; a table that is going away stays so.
pub record Follows (t after : StreamTable) : Type 0 where
  pub same_side : after.local ≡ t.local
  pub peer_grows : t.highest_peer ≤ after.highest_peer
  pub local_grows : t.next_local ≤ after.next_local
  pub stays_away : t.accepting ≡ false → after.accepting ≡ false

Follows-self : (t : StreamTable) → Follows t t
Follows-self t = record {
  same_side = refl;
  peer_grows = omega arith;
  local_grows = omega arith;
  stays_away = λ h. h;
}

Follows-twice : (t u v : StreamTable) → Follows t u → Follows u v → Follows t v
Follows-twice t u v first second = record {
  same_side = second.same_side ∙ first.same_side;
  peer_grows = omega (arith, first.peer_grows, second.peer_grows);
  local_grows = omega (arith, first.local_grows, second.local_grows);
  stays_away = λ h. second.stays_away (first.stays_away h);
}

Follows-fields :
    (t after : StreamTable)
    → after.local ≡ t.local
    → t.highest_peer ≤ after.highest_peer
    → t.next_local ≤ after.next_local
    → after.accepting ≡ t.accepting
    → Follows t after
Follows-fields t after side peer local same = record {
  same_side = side;
  peer_grows = peer;
  local_grows = local;
  stays_away = λ h. same ∙ h;
}

drop_body-Follows : (t : StreamTable) (body : Option ReceiveBody) → Follows t (drop_body t body)
unfolding drop_body
drop_body-Follows t none = Follows-self t
drop_body-Follows t (some body) = Follows-fields t _ refl (omega arith) (omega arith) refl

remove_stream-Follows : (t : StreamTable) (id : ℕ) → Follows t (remove_stream t id)
unfolding drop_body remove_stream
remove_stream-Follows t id = elim (Option-cases (lookup id t.streams)) [
  | inl absent ↦ rw (remove_stream, absent) (Follows-self t)
  | inr (s, present) ↦
      rw (remove_stream, present)
        (Follows-twice t _ _ (Follows-fields t _ refl (omega arith) (omega arith) refl)
          (drop_body-Follows _ s.body))
]

if_removed-Follows :
    (closed : Bool) (t : StreamTable) (id : ℕ)
    → Follows t (if closed then remove_stream t id else t)
if_removed-Follows true t id = remove_stream-Follows t id
if_removed-Follows false t id = Follows-self t

remove_all-Follows : (t : StreamTable) (gone : List ℕ) → Follows t (remove_all t gone)
unfolding remove_all
remove_all-Follows t [] = Follows-self t
remove_all-Follows t (id ∷ gone) =
    Follows-twice t (remove_stream t id) _ (remove_stream-Follows t id)
      (remove_all-Follows (remove_stream t id) gone)

close_parent-Follows : (t : StreamTable) (id : ℕ) → Follows t (close_parent t id).0
unfolding close_parent
close_parent-Follows t id =
    Follows-twice t (remove_all t _) _ (remove_all-Follows t _) (remove_stream-Follows _ id)

insert_stream-Follows :
    (t : StreamTable) (id : ℕ) (request : RpcOpen) (inbound : Bool) (after : StreamTable)
    → insert_stream t id request inbound ≡ ok after
    → Follows t after
insert_stream-Follows t id request inbound after h =
    rw (insert_stream-Admits t id request inbound after h).same
      (Follows-fields t _ refl (omega arith) (omega arith) refl)

refuse_peer-Follows :
    (t : StreamTable) (id : ℕ) (after : StreamTable) → refuse_peer t id ≡ ok after → Follows t after
refuse_peer-Follows t id after h =
    let (owned, above, accepting, same) = refuse_peer-above t id after h in
    rw same (Follows-fields t _ refl (omega arith) (omega arith) refl)

pub admit-Follows :
    (t : StreamTable) (id : ℕ) (request : RpcOpen) → Follows t (admit t id request).0
unfolding admit
admit-Follows t id request = elim (Result-cases (insert_stream t id request true)) [
  | inr (e, full) ↦ rw (admit, full) (Follows-self t)
  | inl (after, inserted) ↦
      rw (admit, inserted) (insert_stream-Follows t id request true after inserted)
]

open_peer-Follows :
    (t : StreamTable) (id : ℕ) (request : RpcOpen) → Follows t (open_peer t id request).0
unfolding open_peer
open_peer-Follows t id request = elim (Result-cases (refuse_peer t id)) [
  | inr (e, refused) ↦ rw (open_peer, refused) (Follows-self t)
  | inl (considered, taken) ↦
      rw (open_peer, taken)
        (Follows-twice t considered _ (refuse_peer-Follows t id considered taken)
          (admit-Follows considered id request))
]

receive_into-Follows :
    (t : StreamTable) (id : ℕ) (s : Stream) (body : ReceiveBody) (bytes : List ℕ) (end : Bool)
    → Follows t (receive_into t id s body bytes end)
unfolding receive_into with_stream drop_body
receive_into-Follows t id s body bytes true =
    Follows-twice t _ _ (Follows-fields t _ refl (omega arith) (omega arith) refl)
      (if_removed-Follows s.local_closed _ id)
receive_into-Follows t id s body bytes false =
    Follows-fields t _ refl (omega arith) (omega arith) refl

receive_data-Follows :
    (t : StreamTable) (id : ℕ) (bytes : List ℕ) (end : Bool) (after : StreamTable)
    (data_in : ReceivedData)
    → receive_data t id bytes end ≡ ok (after, data_in)
    → Follows t after
receive_data-Follows t id bytes end after data_in h =
    let (s, body, acc, same, what) = receive_data-Accepts t id bytes end after data_in h in
    rw same (receive_into-Follows t id s body bytes end)

pub open_local-Follows :
    (t : StreamTable) (request : RpcOpen) (after : StreamTable) (id : ℕ)
    → open_local t request ≡ ok (after, id)
    → Follows t after
open_local-Follows t request after id h =
    let (between, inserted, accepting, legal, which, same) = open_local-took t request after id h in
    let first = insert_stream-Follows t t.next_local request false between inserted in
    let unmoved : between.next_local ≡ t.next_local =
      ap (λ u. u.next_local)
        (insert_stream-Admits t t.next_local request false between inserted).same in
    rw same (
      Follows-twice t between _ first (
        Follows-fields between _ refl (omega arith)
          (omega (arith, next_id-next t.next_local legal, unmoved)) refl))

grant_credit-Follows :
    (t : StreamTable) (id increment : ℕ) (after : StreamTable)
    → grant_credit t id increment ≡ ok after
    → Follows t after
unfolding grant_credit
grant_credit-Follows t zero increment after h =
    Follows-fields t after (ground arith) (ground arith) (ground arith) (ground arith)
grant_credit-Follows t (suc id) increment after h =
    Follows-fields t after (ground arith) (ground arith) (ground arith) (ground arith)

mark_response-Follows :
    (t : StreamTable) (id expected : ℕ) (after : StreamTable)
    → mark_response t id expected ≡ ok after
    → Follows t after
unfolding mark_response
mark_response-Follows t id expected after h =
    Follows-fields t after (ground arith) (ground arith) (ground arith) (ground arith)

mark_local_end-Follows :
    (t : StreamTable) (id : ℕ) (after : StreamTable)
    → mark_local_end t id ≡ ok after
    → Follows t after
unfolding mark_local_end
mark_local_end-Follows t id after h = elim (Option-cases (lookup id t.streams)) [
  | inl absent ↦ absurd (ground (arith, absent))
  | inr (s, present) ↦
      let closed : StreamTable = record t {
        streams = insert id (record s { local_closed = true }) t.streams;
      } in
      let same : after ≡ (if s.remote_closed then remove_stream closed id else closed) =
        ground (arith, present) in
      rw same (
        Follows-twice t closed _ (Follows-fields t _ refl (omega arith) (omega arith) refl)
          (if_removed-Follows s.remote_closed closed id))
]

reset-Follows :
    (t : StreamTable) (id : ℕ) (after : StreamTable) (removed : List ℕ)
    → reset t id ≡ ok (after, removed)
    → Follows t after
unfolding reset
reset-Follows t id after removed h =
    let same : (close_parent t id).0 ≡ after = ground arith in
    rw (sym same) (close_parent-Follows t id)

goaway-Follows : (t : StreamTable) → Follows t (goaway t).0
unfolding goaway
goaway-Follows t = record {
  same_side = refl;
  peer_grows = omega arith;
  local_grows = omega arith;
  stays_away = λ h. refl;
}

apply-Follows : (t : StreamTable) (call : Call) → Follows t (apply t call)
unfolding apply
apply-Follows t going_away = goaway-Follows t
apply-Follows t (refusing id) =
    after_call-keeps (Follows t) t _ (Follows-self t) (λ after h. refuse_peer-Follows t id after h)
apply-Follows t (opening_peer id request) = open_peer-Follows t id request
apply-Follows t (opening_local request) =
    after_value-keeps (Follows t) t _ (Follows-self t)
      (λ after id h. open_local-Follows t request after id h)
apply-Follows t (receiving id bytes end) =
    after_value-keeps (Follows t) t _ (Follows-self t)
      (λ after d h. receive_data-Follows t id bytes end after d h)
apply-Follows t (granting id increment) =
    after_call-keeps (Follows t) t _ (Follows-self t)
      (λ after h. grant_credit-Follows t id increment after h)
apply-Follows t (answering id expected) =
    after_call-keeps (Follows t) t _ (Follows-self t)
      (λ after h. mark_response-Follows t id expected after h)
apply-Follows t (ending id) =
    after_call-keeps (Follows t) t _ (Follows-self t)
      (λ after h. mark_local_end-Follows t id after h)
apply-Follows t (closing id) = close_parent-Follows t id
apply-Follows t (resetting id) =
    after_value-keeps (Follows t) t _ (Follows-self t)
      (λ after removed h. reset-Follows t id after removed h)

pub run-Follows : (t : StreamTable) (calls : List Call) → Follows t (run t calls)
unfolding run
run-Follows t [] = Follows-self t
run-Follows t (call ∷ calls) =
    Follows-twice t (apply t call) _ (apply-Follows t call) (run-Follows (apply t call) calls)
