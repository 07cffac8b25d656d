-- ===== src/PacketIds.antt =====
-- MQTT packet identifiers of a session: `allocate_packet_id` of
-- crates/netbaiot-transports/src/mqtt/broker/session.rs and `projected_packet_id` of routing.rs there.
-- Of the session only the next identifier and the map of outbound states are read.
mod Allocation
mod Runs
use netbaiot.Prelude.{
  Result, ℕ, zero, suc, ◌+◌, ◌-◌, ◌*◌, ◌/◌, ◌%◌, ◌^◌, ◌≤◌, ◌<◌, min, max, ◌≡◌, refl, sym, ap, ◌∙◌,
  ◌≢◌, ◌↔◌, ◌⊎◌, inl, inr, Bool, true, false, not, ◌&&◌, ◌||◌, Option, none, some, List, [], ◌∷◌,
  ◌++◌, map, arith, ltb, leb, ◌==◌, if◌then◌else◌, leb→le, ltb→lt, ==_iff, Bool-cases, Option-cases,
  Eq, nat_eq, str_eq, str_eq_iff, string_eq, length, get_elem?, take, drop, All, length-append,
  take-append-drop, take-append, drop-append, length-take, length-drop, ok, err, ◌>>=◌, ◌>>◌,
  ensure, ok_or, Result-cases, usize_limit, checked_add, checked_mul, checked_sub, wrapping_sub,
  saturating_add, lt_wf,
}
use netbaiot.Prelude.Map.{lookup}

abbrev pub id_max : ℕ
id_max = 65_535

unfoldable pub following : ℕ → ℕ
following id = if id == id_max then 1 else id + 1

pub data PacketIdError : Type 0 where
  overloaded : PacketIdError

module _ {State : Type 0} where
  abbrev pub in_use : ℕ → List (ℕ × State) → Bool
  in_use id outbound = elim (lookup id outbound) [ none ↦ false | some s ↦ true ]

  -- The `for` with its rounds, over `self.next_packet_id`; the next identifier after it and the answer.
  unfoldable pub allocate_rounds : ℕ → List (ℕ × State) → ℕ → ℕ × Result PacketIdError ℕ
  allocate_rounds zero outbound next = (next, err overloaded)
  allocate_rounds (suc rounds) outbound id =
      let rest = allocate_rounds rounds outbound (following id) in
      if in_use id outbound then rest else (following id, ok id)

  unfoldable pub allocate_packet_id : List (ℕ × State) → ℕ → ℕ × Result PacketIdError ℕ
  allocate_packet_id outbound next = allocate_rounds id_max outbound next

  unfoldable pub projected_rounds : ℕ → List (ℕ × State) → ℕ → Result PacketIdError ℕ
  projected_rounds zero outbound candidate = err overloaded
  projected_rounds (suc rounds) outbound candidate =
      let rest = projected_rounds rounds outbound (following candidate) in
      if in_use candidate outbound then rest else ok candidate

  unfoldable pub projected_packet_id : List (ℕ × State) → ℕ → Result PacketIdError ℕ
  projected_packet_id outbound next = projected_rounds id_max outbound next
