-- ===== src/Broker/Pruned.antt =====
-- After `prune_session_messages` of crates/netbaiot-transports/src/mqtt/broker/expiry.rs no message of the
-- session is due, so that its next deadline lies ahead.
use netbaiot.Prelude.{
  ℕ, ◌-◌, ◌≡◌, refl, inl, inr, true, false, Option, none, some, List, [], ◌∷◌, arith, ◌==◌,
  Bool-cases, nat_eq, string_eq, All, saturating_add,
}
use netbaiot.Prelude.Map.{lookup, remove}
use netbaiot.Prelude.Sets.{contains, discard, contains-discard}
use netbaiot.Message.{BrokerMessage, due, expired, message_bytes}
use netbaiot.Broker.{
  OutboundState, await_puback, await_pubrec, await_pubcomp, StoredSession, outbound_bytes,
}
use netbaiot.Broker.Expiry.{
  sooner, offline_expiry, outbound_deadline, outbound_expiry, next_message_expiry, remove_outbound,
  retain_fresh, dropped, expired_ids, remove_all, clear_entry, clear_expired,
  prune_session_messages,
}

due-sooner :
    (a b : Option ℕ) (now : ℕ)
    → due a now ≡ false
    → due b now ≡ false
    → due (sooner a b) now ≡ false
due-sooner none b now h k = k
due-sooner (some a) none now h k = h
due-sooner (some a) (some b) now h k = ground (arith, h, k)

retain_fresh-due :
    (messages : List BrokerMessage) (now released : ℕ)
    → due (offline_expiry (retain_fresh messages now released).0) now ≡ false
unfolding retain_fresh offline_expiry
retain_fresh-due [] now released = refl
retain_fresh-due (m ∷ messages) now released = elim (Bool-cases (expired m now)) [
  | inl late ↦ rw late (retain_fresh-due messages now (saturating_add released (message_bytes m)))
  | inr fresh ↦ rw fresh (
      due-sooner m.properties.expires_at_ms (offline_expiry (retain_fresh messages now released).0)
        now fresh (retain_fresh-due messages now released))
]

unfoldable remove_keys : List ℕ → List (ℕ × OutboundState) → List (ℕ × OutboundState)
remove_keys [] m = m
remove_keys (id ∷ ids) m = remove_keys ids (remove id m)

unfoldable discard_keys : List ℕ → List ℕ → List ℕ
discard_keys [] set = set
discard_keys (id ∷ ids) set = discard_keys ids (discard id set)

remove_all-fields :
    (s : StoredSession) (ids : List ℕ) (released : ℕ)
    → ((remove_all s ids released).0.outbound ≡ remove_keys ids s.outbound)
      × ((remove_all s ids released).0.started_outbound ≡ discard_keys ids s.started_outbound)
      × ((remove_all s ids released).0.offline ≡ s.offline)
unfolding remove_all remove_keys discard_keys remove_outbound
remove_all-fields s [] released = (refl, refl, refl)
remove_all-fields s (id ∷ ids) released =
    remove_all-fields (remove_outbound s id).0 ids (elim (lookup id s.outbound) [
      | none ↦ released
      | some o ↦ saturating_add released (outbound_bytes o)
    ])

contains-discard_keys :
    (id : ℕ) (ids set : List ℕ)
    → contains id ids ≡ false
    → contains id (discard_keys ids set) ≡ contains id set
unfolding discard_keys contains
contains-discard_keys id [] set other = refl
contains-discard_keys id (j ∷ ids) set other =
    ground (arith, other, contains-discard_keys id ids (discard j set), contains-discard j id set)

-- What is left of the map when its keys outside the list have a property.
abbrev Outside : (ℕ × OutboundState → Type 0) → List ℕ → ℕ × OutboundState → Type 0
Outside P ids e = contains e.0 ids ≡ false → P e

remove-Outside :
    (P : ℕ × OutboundState → Type 0) (id : ℕ) (ids : List ℕ) (m : List (ℕ × OutboundState))
    → All (Outside P (id ∷ ids)) m
    → All (Outside P ids) (remove id m)
unfolding remove contains
remove-Outside P id ids [] h = tt
remove-Outside P id ids ((j, o) ∷ m) (first, rest) = elim (Bool-cases (j == id)) [
  | inl equal ↦ rw equal (remove-Outside P id ids m rest)
  | inr other ↦
      rw other (λ outside. first (ground (arith, other, outside)), remove-Outside P id ids m rest)
]

remove_keys-Outside :
    (P : ℕ × OutboundState → Type 0) (ids : List ℕ) (m : List (ℕ × OutboundState))
    → All (Outside P ids) m
    → All P (remove_keys ids m)
unfolding remove_keys contains
remove_keys-Outside P [] [] h = tt
remove_keys-Outside P [] (e ∷ m) (first, rest) = (first refl, remove_keys-Outside P [] m rest)
remove_keys-Outside P (id ∷ ids) m h =
    remove_keys-Outside P ids (remove id m) (remove-Outside P id ids m h)

abbrev IsKept : List ℕ → ℕ → ℕ × OutboundState → Type 0
IsKept started now (id, o) = dropped started now id o ≡ false

dropped-discard_keys :
    (started ids : List ℕ) (now id : ℕ) (o : OutboundState)
    → contains id ids ≡ false
    → dropped started now id o ≡ false
    → dropped (discard_keys ids started) now id o ≡ false
dropped-discard_keys started ids now id (await_puback m) other h =
    rw (contains-discard_keys id ids started other) h
dropped-discard_keys started ids now id (await_pubrec m) other h =
    rw (contains-discard_keys id ids started other) h
dropped-discard_keys started ids now id (await_pubcomp m) other h = refl

expired_ids-Outside :
    (started ids : List ℕ) (now : ℕ) (m : List (ℕ × OutboundState))
    → ((id : ℕ) → contains id (expired_ids started now m) ≡ true → contains id ids ≡ true)
    → All (Outside (IsKept (discard_keys ids started) now) ids) m
unfolding expired_ids contains
expired_ids-Outside started ids now [] within = tt
expired_ids-Outside started ids now ((id, o) ∷ m) within =
    let rest = expired_ids started now m in
    elim (Bool-cases (dropped started now id o)) [
      | inl late ↦
          let all : (k : ℕ) → contains k (id ∷ rest) ≡ true → contains k ids ≡ true =
            λ k h. within k (rw late h) in
          let listed : contains id ids ≡ true = all id (ground arith) in
          (
            λ outside. ground (arith, listed, outside),
            expired_ids-Outside started ids now m (λ k h. all k (ground (arith, h))),
          )
      | inr kept ↦
          let all : (k : ℕ) → contains k rest ≡ true → contains k ids ≡ true =
            λ k h. within k (rw kept h) in
          (
            λ outside. dropped-discard_keys started ids now id o outside kept,
            expired_ids-Outside started ids now m all,
          )
    ]

clear_entry-due :
    (started : List ℕ) (now id : ℕ) (o : OutboundState)
    → dropped started now id o ≡ false
    → due (outbound_deadline started id (clear_entry now o)) now ≡ false
clear_entry-due started now id (await_puback m) kept = ground (arith, kept)
clear_entry-due started now id (await_pubrec m) kept = ground (arith, kept)
clear_entry-due started now id (await_pubcomp m) kept = elim (Bool-cases (expired m now)) [
  | inl late ↦ rw late refl
  | inr fresh ↦ rw fresh fresh
]

clear_expired-due :
    (started : List ℕ) (now : ℕ) (m : List (ℕ × OutboundState)) (released : ℕ)
    → All (IsKept started now) m
    → due (outbound_expiry started (clear_expired now m released).0) now ≡ false
unfolding clear_expired outbound_expiry
clear_expired-due started now [] released kept = refl
clear_expired-due started now ((id, o) ∷ m) released (first, rest) =
    let after = clear_entry now o in
    let total = saturating_add released (outbound_bytes o - outbound_bytes after) in
    due-sooner (outbound_deadline started id after)
      (outbound_expiry started (clear_expired now m total).0) now
      (clear_entry-due started now id o first) (clear_expired-due started now m total rest)

-- Once a session's messages have been pruned at a time, the next deadline of its messages, where there
-- is one, lies after that time.
pub prune_session_messages-due :
    (s : StoredSession) (now : ℕ)
    → due (next_message_expiry (prune_session_messages s now).0) now ≡ false
unfolding prune_session_messages next_message_expiry
prune_session_messages-due s now =
    let (fresh, offline_bytes) = retain_fresh s.offline now 0 in
    let queue = record s { offline = fresh; offline_bytes = s.offline_bytes - offline_bytes } in
    let ids = expired_ids s.started_outbound now s.outbound in
    let kept = remove_all queue ids offline_bytes in
    let (outbound, started, offline) = remove_all-fields queue ids offline_bytes in
    let all : All (IsKept kept.0.started_outbound now) kept.0.outbound =
      rw (outbound, started)
        (remove_keys-Outside (IsKept (discard_keys ids s.started_outbound) now) ids s.outbound
          (expired_ids-Outside s.started_outbound ids now s.outbound (λ k h. h))) in
    due-sooner (offline_expiry kept.0.offline)
      (outbound_expiry kept.0.started_outbound (clear_expired now kept.0.outbound kept.1).0) now
      (rw offline (retain_fresh-due s.offline now 0))
      (clear_expired-due kept.0.started_outbound now kept.0.outbound kept.1 all)
