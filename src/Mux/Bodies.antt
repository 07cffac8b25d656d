-- ===== src/Mux/Bodies.antt =====
-- Bodies in parts: `receive_data` of crates/netbaiot-rpc-mux/src/lib.rs, over the parts of a message.
use netbaiot.Prelude.{
  Result, ℕ, ◌≡◌, refl, sym, ap, ◌∙◌, inl, inr, Bool, true, false, some, List, [], ◌∷◌, ◌++◌, arith,
  nat_eq, string_eq, length, length-append, ok, ◌>>=◌, Result-cases,
}
use mathlib.Core.List.{append_assoc}
use netbaiot.Prelude.Map.{lookup, lookup-insert, beq_self}
use netbaiot.Mux.{MuxError, ReceiveBody, Stream, StreamTable, ReceivedData}
use netbaiot.Mux.Flow.{receive_data, receive_into, taken_in, with_stream, received}
use netbaiot.Mux.Receiving.{Accepts, receive_data-Accepts}

-- The parts of a body but the last, one after another.
unfoldable pub feed : StreamTable → ℕ → List (List ℕ) → Result MuxError StreamTable
feed t id [] = ok t
feed t id (part ∷ parts) = receive_data t id part false >>= λ r. feed r.0 id parts

abbrev pub concat : List (List ℕ) → List ℕ
concat [] = []
concat (part ∷ parts) = part ++ concat parts

-- The stream is in the table, with this body.
pub record Collects (t : StreamTable) (id : ℕ) (body : ReceiveBody) : Type 0 where
  pub stream_now : Stream
  pub present : lookup id t.streams ≡ some stream_now
  pub has_body : stream_now.body ≡ some body

the_body :
    (t : StreamTable) (id : ℕ) (body found : ReceiveBody) (bytes : List ℕ) (end : Bool) (s : Stream)
    → Collects t id body
    → Accepts t id bytes end s found
    → found ≡ body
the_body t id body found bytes end s c acc =
    let same : c.stream_now ≡ s = cc (c.present, acc.present) in
    cc (ap (λ w. w.body) same, c.has_body, acc.has_body)

into-Collects :
    (t : StreamTable) (id : ℕ) (s : Stream) (body : ReceiveBody) (bytes : List ℕ)
    → Collects (receive_into t id s body bytes false) id (received body bytes)
unfolding receive_into with_stream taken_in
into-Collects t id s body bytes = record {
  stream_now = taken_in s body bytes false;
  present =
      ground (arith, lookup-insert id id (taken_in s body bytes false) t.streams, beq_self id);
  has_body = refl;
}

receive_data-Collects :
    (t : StreamTable) (id : ℕ) (body : ReceiveBody) (bytes : List ℕ) (after : StreamTable)
    (data_in : ReceivedData)
    → Collects t id body
    → receive_data t id bytes false ≡ ok (after, data_in)
    → Collects after id (received body bytes)
receive_data-Collects t id body bytes after data_in c h =
    let (s, found, acc, same, what) = receive_data-Accepts t id bytes false after data_in h in
    rw (same, sym (the_body t id body found bytes false s c acc)) (into-Collects t id s found bytes)

receive_data-whole :
    (t : StreamTable) (id : ℕ) (body : ReceiveBody) (bytes : List ℕ) (after : StreamTable)
    (data_in : ReceivedData)
    → Collects t id body
    → receive_data t id bytes true ≡ ok (after, data_in)
    → (data_in.complete ≡ some (body.bytes ++ bytes))
      × (length (body.bytes ++ bytes) ≡ body.expected)
receive_data-whole t id body bytes after data_in c h =
    let (s, found, acc, same, what) = receive_data-Accepts t id bytes true after data_in h in
    let is_body = the_body t id body found bytes true s c acc in
    (
      ap (λ d. d.complete) what ∙ ap (λ b. some (b.bytes ++ bytes)) is_body,
      omega (
        arith,
        length-append body.bytes bytes,
        ap (λ b. length b.bytes) is_body,
        ap (λ b. b.expected) is_body,
        acc.whole refl,
      ),
    )

regroup : (xs ys zs ws : List ℕ) → (xs ++ ys) ++ (zs ++ ws) ≡ xs ++ ((ys ++ zs) ++ ws)
regroup xs ys zs ws = append_assoc xs ys (zs ++ ws) ∙ ap (◌++◌ xs) (sym (append_assoc ys zs ws))

-- When the last part of a body is accepted, the message that comes out is what stood in the body
-- followed by all parts in their order, and its length is the declared one.
pub feed-whole :
    (parts : List (List ℕ)) (t between after : StreamTable) (id : ℕ) (body : ReceiveBody)
    (last : List ℕ) (data_in : ReceivedData)
    → Collects t id body
    → feed t id parts ≡ ok between
    → receive_data between id last true ≡ ok (after, data_in)
    → (data_in.complete ≡ some (body.bytes ++ (concat parts ++ last)))
      × (length (body.bytes ++ (concat parts ++ last)) ≡ body.expected)
unfolding feed
feed-whole [] t between after id body last data_in c h k =
    let same : t ≡ between = ground arith in
    receive_data-whole t id body last after data_in c (rw same k)
feed-whole (part ∷ parts) t between after id body last data_in c h k =
    elim (Result-cases (receive_data t id part false)) [
      | inr (e, refused) ↦ absurd (cc (rw refused at h))
      | inl ((next, given), taken) ↦
          let fed : feed next id parts ≡ ok between = rw taken at h in
          let (content, len) =
            feed-whole parts next between after id (received body part) last data_in
              (receive_data-Collects t id body part next given c taken) fed k in
          let order = regroup body.bytes part (concat parts) last in
          (content ∙ ap some order, ap length (sym order) ∙ len)
    ]
