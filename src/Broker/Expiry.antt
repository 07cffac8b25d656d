-- ===== src/Broker/Expiry.antt =====
-- The expiry of messages and sessions: `next_message_expiry`, `session_expiry_deadline`,
-- `message_expiry_due` and `prune_session_messages` of
-- crates/netbaiot-transports/src/mqtt/broker/expiry.rs, with `remove_outbound` of session.rs there.
use netbaiot.Prelude.{
  ℕ, ◌+◌, ◌-◌, min, Bool, true, false, not, ◌&&◌, Option, none, some, List, [], ◌∷◌, ◌++◌,
  if◌then◌else◌, nat_eq, string_eq, length, usize_limit, saturating_add,
}
use netbaiot.Prelude.Map.{lookup, insert, remove}
use netbaiot.Prelude.Sets.{contains, discard}
use netbaiot.Message.{
  no_properties, message_bytes, due, expired, BrokerMessage, SessionKey, session_key_eq,
}
use netbaiot.Broker.{
  v311, v5, OutboundState, await_puback, await_pubrec, await_pubcomp, outbound_bytes, StoredSession,
  BrokerState,
}

-- The smaller of the deadlines that are there, `Iterator::min`.
abbrev pub sooner : Option ℕ → Option ℕ → Option ℕ
sooner none b = b
sooner (some a) none = some a
sooner (some a) (some b) = some (min a b)

unfoldable pub offline_expiry : List BrokerMessage → Option ℕ
offline_expiry [] = none
offline_expiry (m ∷ messages) = sooner m.properties.expires_at_ms (offline_expiry messages)

-- Once its transfer has begun, a publish is not dropped any more.
abbrev pub outbound_deadline : List ℕ → ℕ → OutboundState → Option ℕ
outbound_deadline started id (await_puback m) =
    if contains id started then none else m.properties.expires_at_ms
outbound_deadline started id (await_pubrec m) =
    if contains id started then none else m.properties.expires_at_ms
outbound_deadline started id (await_pubcomp m) = m.properties.expires_at_ms

unfoldable pub outbound_expiry : List ℕ → List (ℕ × OutboundState) → Option ℕ
outbound_expiry started [] = none
outbound_expiry started ((id, o) ∷ outbound) =
    sooner (outbound_deadline started id o) (outbound_expiry started outbound)

unfoldable pub next_message_expiry : StoredSession → Option ℕ
next_message_expiry s =
    sooner (offline_expiry s.offline) (outbound_expiry s.started_outbound s.outbound)

-- `i64::saturating_add` on numbers that stand 2^63 too high.
abbrev pub i64_zero : ℕ
i64_zero = 9_223_372_036_854_775_808

abbrev pub saturating_add_i64 : ℕ → ℕ → ℕ
saturating_add_i64 a b = min (a + b - i64_zero) (usize_limit - 1)

unfoldable pub stored_deadline : ℕ → StoredSession → Option ℕ
stored_deadline idle_ttl s = elim s.version [
  | v5 ↦ s.expires_at_ms
  | v311 ↦ some (saturating_add_i64 (saturating_add_i64 s.last_seen_ms idle_ttl) (i64_zero + 1))
]

unfoldable pub session_expiry_deadline : BrokerState → SessionKey → Option ℕ
session_expiry_deadline state key = elim (lookup key state.active) [
  | some active ↦ none
  | none ↦ elim (lookup key state.sessions) [
    | none ↦ none
    | some s ↦ stored_deadline state.session_idle_ttl_ms s
  ]
]

unfoldable pub message_expiry_due : BrokerState → SessionKey → ℕ → Bool
message_expiry_due state key now = due (lookup key state.message_expiry.by_key) now

unfoldable pub insert_outbound : StoredSession → ℕ → OutboundState → StoredSession
insert_outbound s packet_id o = record s {
  outbound_order = elim (lookup packet_id s.outbound) [
    | none ↦ s.outbound_order ++ (packet_id ∷ [])
    | some old ↦ s.outbound_order
  ];
  outbound = insert packet_id o s.outbound;
}

unfoldable pub remove_outbound : StoredSession → ℕ → StoredSession × Option OutboundState
remove_outbound s packet_id = (
  record s {
    command_outbound = discard packet_id s.command_outbound;
    sent = discard packet_id s.sent;
    send_window = discard packet_id s.send_window;
    started_outbound = discard packet_id s.started_outbound;
    outbound = remove packet_id s.outbound;
    outbound_order = elim (lookup packet_id s.outbound) [
      | none ↦ s.outbound_order
      | some old ↦ discard packet_id s.outbound_order
    ];
  },
  lookup packet_id s.outbound,
)

-- The messages that stay, and the bytes of the others, counted on from `released`.
unfoldable pub retain_fresh : List BrokerMessage → ℕ → ℕ → List BrokerMessage × ℕ
retain_fresh [] now released = ([], released)
retain_fresh (m ∷ messages) now released =
    let late = expired m now in
    let counted = if late then saturating_add released (message_bytes m) else released in
    let (fresh, total) = retain_fresh messages now counted in
    if late then (fresh, total) else (m ∷ fresh, total)

abbrev pub dropped : List ℕ → ℕ → ℕ → OutboundState → Bool
dropped started now id (await_puback m) = expired m now && not (contains id started)
dropped started now id (await_pubrec m) = expired m now && not (contains id started)
dropped started now id (await_pubcomp m) = false

unfoldable pub expired_ids : List ℕ → ℕ → List (ℕ × OutboundState) → List ℕ
expired_ids started now [] = []
expired_ids started now ((id, o) ∷ outbound) =
    let rest = expired_ids started now outbound in
    if dropped started now id o then id ∷ rest else rest

-- The loop over the expired identifiers, with the released bytes.
unfoldable pub remove_all : StoredSession → List ℕ → ℕ → StoredSession × ℕ
remove_all s [] released = (s, released)
remove_all s (id ∷ ids) released =
    let (after, removed) = remove_outbound s id in
    remove_all after ids
      (elim removed [ none ↦ released | some o ↦ saturating_add released (outbound_bytes o) ])

abbrev pub cleared : BrokerMessage → BrokerMessage
cleared m = record m { payload = []; properties = no_properties }

-- A publish that waits for PUBCOMP keeps its topic only.
abbrev pub clear_entry : ℕ → OutboundState → OutboundState
clear_entry now (await_puback m) = await_puback m
clear_entry now (await_pubrec m) = await_pubrec m
clear_entry now (await_pubcomp m) = await_pubcomp (if expired m now then cleared m else m)

unfoldable pub clear_expired : ℕ → List (ℕ × OutboundState) → ℕ → List (ℕ × OutboundState) × ℕ
clear_expired now [] released = ([], released)
clear_expired now ((id, o) ∷ outbound) released =
    let after = clear_entry now o in
    let (rest, total) =
      clear_expired now outbound
        (saturating_add released (outbound_bytes o - outbound_bytes after)) in
    ((id, after) ∷ rest, total)

abbrev pub is_empty_list : {A : Type 0} → List A → Bool
is_empty_list [] = true
is_empty_list (x ∷ xs) = false

-- The session, the released count and bytes of its queue, all released bytes, and whether an exchange
-- was dropped.
unfoldable pub prune_session_messages : StoredSession → ℕ → StoredSession × (ℕ × ℕ × ℕ × Bool)
prune_session_messages s now =
    let (fresh, offline_bytes) = retain_fresh s.offline now 0 in
    let count = length s.offline - length fresh in
    let queue = record s { offline = fresh; offline_bytes = s.offline_bytes - offline_bytes } in
    let ids = expired_ids s.started_outbound now s.outbound in
    let (kept, released) = remove_all queue ids offline_bytes in
    let (outbound, total) = clear_expired now kept.outbound released in
    (
      record kept { outbound = outbound; state_bytes = kept.state_bytes - total },
      (count, offline_bytes, total, not (is_empty_list ids)),
    )
