-- ===== src/Scheduler/Credit.antt =====
-- DATA frames of `take_data` in crates/netbaiot-rpc-mux/src/lib.rs against the peer's credit.
use netbaiot.Prelude.{
  ℕ, zero, suc, ◌+◌, ◌-◌, ◌≡◌, refl, sym, ap, ◌∙◌, inl, inr, Option, some, List, [], ◌∷◌, ◌++◌,
  arith, ◌==◌, Option-cases, nat_eq, string_eq, length,
}
use netbaiot.Prelude.Map.{lookup, lookup-insert, beq_self}
use netbaiot.Scheduler.{
  Frame, DataClass, rpc_class, event_class, OutboundBody, MuxScheduler, or_insert,
}
use netbaiot.Scheduler.Turns.{
  queue_of, with_queue, allowance, Turn, dropped, put_back, sends, sized, outstanding_of, or_zero,
  turn, touched, sent, frame_of, take_turn, take_front, take_rounds, take_data,
}
use netbaiot.Scheduler.Moves.{
  Sends, frame_of-fields, turn-sends, allowance-bounds, sent-fields, lookup-sent, sent-Ahead,
  sent-Untouched,
}

sent-Sends :
    (s : MuxScheduler) (kind : DataClass) (id : ℕ) (body : OutboundBody) (window outstanding n : ℕ)
    (frame : Frame)
    → turn s id ≡ sends body window outstanding n
    → frame_of s id body n ≡ some frame
    → Sends s (sent s kind id body window outstanding n) frame
sent-Sends s kind id body window outstanding n frame h f =
    let (waiting, credited, free, before, size) = turn-sends s id body window outstanding n h in
    let (own, payload, flags) = frame_of-fields s id body n frame f in
    let (whole, fits, stream, conn) = allowance-bounds s body window outstanding in
    let (conn_after, windows_after, u, v) = sent-fields s kind id body window outstanding n in
    let sized_before : n ≡ allowance s body window (outstanding_of s id) =
      size ∙ ap (allowance s body window) before in
    record {
      body = body;
      window = window;
      size = n;
      waiting = rw own waiting;
      credited = rw own credited;
      not_barred = rw own free;
      piece = payload;
      no_more = omega (arith, size, whole);
      ends = flags;
      within_frame = omega (arith, size, fits);
      within_stream = omega (arith, size, stream);
      within_connection = omega (arith, size, conn);
      connection_taken = conn_after;
      stream_taken =
          rw (windows_after, own)
            (lookup-insert id id (window - n) s.windows ∙ (rw (beq_self {K = ℕ} id) refl));
      moved =
          ap (λ i. lookup i (sent s kind id body window outstanding n).bodies) own
          ∙ lookup-sent s kind id id body window outstanding n
          ∙ (rw (beq_self {K = ℕ} id) refl);
      ahead = λ policy with_policy.
          rw (own, before) (sent-Ahead s kind id body window n policy with_policy sized_before);
      others = λ j other.
          sent-Untouched s kind id j body window outstanding n (ap (λ i. i == j) (sym own) ∙ other);
    }

-- The queues do not matter to it, nor an entry of zero where nothing is uncredited.
requeued-Sends :
    (s : MuxScheduler) (uncredited : List (ℕ × ℕ)) (rpcs events : List ℕ) (after : MuxScheduler)
    (frame : Frame)
    → ((j : ℕ) → or_zero (lookup j uncredited) ≡ or_zero (lookup j s.stream_uncredited))
    → Sends
        (record s { stream_uncredited = uncredited; rpc_queue = rpcs; event_queue = events })
        after
        frame
    → Sends s after frame
requeued-Sends s uncredited rpcs events after frame same h = record {
  body = h.body;
  window = h.window;
  size = h.size;
  waiting = h.waiting;
  credited = h.credited;
  not_barred = h.not_barred;
  piece = h.piece;
  no_more = h.no_more;
  ends = h.ends;
  within_frame = h.within_frame;
  within_stream = h.within_stream;
  within_connection = h.within_connection;
  connection_taken = h.connection_taken;
  stream_taken = h.stream_taken;
  moved = h.moved;
  ahead = λ policy with_policy.
      let (conn, strm, conn_after, stream_after) = h.ahead policy with_policy in
      let here = same frame.header.stream_id in
      (
        conn,
        omega (arith, strm, here),
        conn_after,
        stream_after ∙ ap (λ u. some (u + h.size)) here,
      );
  others = λ j other.
      let (bodies, windows, uncredited_after) = h.others j other in
      (bodies, windows, uncredited_after ∙ same j);
}

with_queue-Sends :
    (s : MuxScheduler) (kind : DataClass) (queue : List ℕ) (after : MuxScheduler) (frame : Frame)
    → Sends (with_queue s kind queue) after frame
    → Sends s after frame
unfolding with_queue
with_queue-Sends s rpc_class queue after frame h =
    requeued-Sends s s.stream_uncredited queue s.event_queue after frame (λ j. refl) h
with_queue-Sends s event_class queue after frame h =
    requeued-Sends s s.stream_uncredited s.rpc_queue queue after frame (λ j. refl) h

or_zero-or_insert :
    (id j : ℕ) (entries : List (ℕ × ℕ))
    → or_zero (lookup j (or_insert id 0 entries)) ≡ or_zero (lookup j entries)
or_zero-or_insert id j entries = elim (Option-cases (lookup id entries)) [
  | inl absent ↦ ground (arith, absent, lookup-insert id j 0 entries)
  | inr (u, present) ↦ ground (arith, present)
]

pub or_zero-touched :
    (s : MuxScheduler) (id j : ℕ)
    → or_zero (lookup j (touched s id).stream_uncredited) ≡ or_zero (lookup j s.stream_uncredited)
unfolding touched
or_zero-touched s id j = ground (arith, or_zero-or_insert id j s.stream_uncredited)

touched-Sends :
    (s : MuxScheduler) (id : ℕ) (after : MuxScheduler) (frame : Frame)
    → Sends (touched s id) after frame
    → Sends s after frame
unfolding touched
touched-Sends s id after frame h =
    requeued-Sends s (touched s id).stream_uncredited s.rpc_queue s.event_queue after frame
      (or_zero-touched s id) h

pub turn-with_queue :
    (s : MuxScheduler) (kind : DataClass) (queue : List ℕ) (id : ℕ)
    → turn (with_queue s kind queue) id ≡ turn s id
unfolding turn with_queue sized allowance outstanding_of
turn-with_queue s rpc_class queue id = refl
turn-with_queue s event_class queue id = refl

frame_of-with_queue :
    (s : MuxScheduler) (kind : DataClass) (queue : List ℕ) (id : ℕ) (body : OutboundBody) (n : ℕ)
    → frame_of (with_queue s kind queue) id body n ≡ frame_of s id body n
unfolding frame_of with_queue
frame_of-with_queue s rpc_class queue id body n = refl
frame_of-with_queue s event_class queue id body n = refl

-- What the rest of the rounds is known to do.
abbrev Continues : (MuxScheduler → MuxScheduler × Option Frame) → Frame → Type 0
Continues again frame = (s : MuxScheduler) → (again s).1 ≡ some frame → Sends s (again s).0 frame

take_turn-Sends :
    (s : MuxScheduler) (kind : DataClass) (id : ℕ) (queue : List ℕ) (t : Turn)
    (again : MuxScheduler → MuxScheduler × Option Frame) (frame : Frame)
    → turn s id ≡ t
    → Continues again frame
    → (take_turn s kind id queue t again).1 ≡ some frame
    → Sends s (take_turn s kind id queue t again).0 frame
unfolding take_turn
take_turn-Sends s kind id queue dropped again frame e go h =
    with_queue-Sends s kind queue _ frame (go (with_queue s kind queue) h)
take_turn-Sends s kind id queue put_back again frame e go h = touched-Sends s id _ frame (
    with_queue-Sends (touched s id) kind (queue ++ (id ∷ [])) _ frame
      (go (with_queue (touched s id) kind (queue ++ (id ∷ []))) h))
take_turn-Sends s kind id queue (sends body window outstanding n) again frame e go h =
    with_queue-Sends s kind queue _ frame (
      sent-Sends (with_queue s kind queue) kind id body window outstanding n frame
        (turn-with_queue s kind queue id ∙ e) (frame_of-with_queue s kind queue id body n ∙ h))

take_front-Sends :
    (s : MuxScheduler) (kind : DataClass) (queue : List ℕ)
    (again : MuxScheduler → MuxScheduler × Option Frame) (frame : Frame)
    → Continues again frame
    → (take_front s kind queue again).1 ≡ some frame
    → Sends s (take_front s kind queue again).0 frame
unfolding take_front
take_front-Sends s kind [] again frame go h = absurd (cc h)
take_front-Sends s kind (id ∷ queue) again frame go h =
    take_turn-Sends s kind id queue (turn s id) again frame refl go h

take_rounds-Sends :
    (rounds : ℕ) (s : MuxScheduler) (kind : DataClass) (frame : Frame)
    → (take_rounds rounds s kind).1 ≡ some frame
    → Sends s (take_rounds rounds s kind).0 frame
unfolding take_rounds
take_rounds-Sends zero s kind frame h = absurd (cc h)
take_rounds-Sends (suc rounds) s kind frame h =
    take_front-Sends s kind (queue_of s kind) _ frame
      (λ after k. take_rounds-Sends rounds after kind frame k) h

-- A DATA frame that take_data gives out is the next piece of its stream's body, marked as the last just
-- if it is, and no OPEN or RESPONSE of its stream still waits. Its size is within the frame size, the
-- windows of the stream and of the connection and, under a send-ahead policy, what the policy leaves of
-- both its limits, and is taken from or counted in each of them. The cursor moves past the piece, the
-- body leaves after the last one, and no other stream's body, window or uncredited bytes change.
pub take_data-Sends :
    (s : MuxScheduler) (kind : DataClass) (frame : Frame)
    → (take_data s kind).1 ≡ some frame
    → Sends s (take_data s kind).0 frame
unfolding take_data
take_data-Sends s kind frame h = take_rounds-Sends (length (queue_of s kind)) s kind frame h
