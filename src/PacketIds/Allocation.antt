-- ===== src/PacketIds/Allocation.antt =====
-- What `allocate_packet_id` of crates/netbaiot-transports/src/mqtt/broker/session.rs finds.
use netbaiot.Prelude.{
  ℕ, zero, suc, ◌+◌, ◌-◌, ◌%◌, ◌≤◌, ◌<◌, ◌≡◌, refl, sym, ap, ◌↔◌, inl, inr, true, false, List,
  arith, Bool-cases, nat_eq, string_eq, ok, err,
}
use netbaiot.PacketIds.{
  id_max, following, overloaded, in_use, allocate_rounds, allocate_packet_id, projected_rounds,
  projected_packet_id,
}

-- The identifier that many steps further on, round the 65535 of them.
abbrev ahead : ℕ → ℕ → ℕ
ahead id steps = (id - 1 + steps) % 65_535 + 1

abbrev pub IsId : ℕ → Type 0
IsId id = (0 < id) × (id ≤ id_max)

following-IsId : (id : ℕ) → IsId id → IsId (following id)
unfolding following
following-IsId id h = ground arith

ahead-following : (id steps : ℕ) → IsId id → ahead (following id) steps ≡ ahead id (suc steps)
unfolding following
ahead-following id steps h = ground arith

module _ {State : Type 0} where
  rounds-ok :
      (rounds : ℕ) (outbound : List (ℕ × State)) (next after id : ℕ)
      → IsId next
      → allocate_rounds rounds outbound next ≡ (after, ok id)
      → IsId id × (in_use id outbound ≡ false) × (after ≡ following id)
  unfolding allocate_rounds
  rounds-ok zero outbound next after id legal h = absurd (cc (ap (λ p. p.1) h))
  rounds-ok (suc rounds) outbound next after id legal h = elim (Bool-cases (in_use next outbound)) [
    | inl used ↦
        rounds-ok rounds outbound (following next) after id (following-IsId next legal)
          (rw used at h)
    | inr free ↦ ground (arith, free)
  ]

  rounds-err :
      (rounds : ℕ) (outbound : List (ℕ × State)) (next steps : ℕ)
      → IsId next
      → (allocate_rounds rounds outbound next).1 ≡ err overloaded
      → steps < rounds
      → in_use (ahead next steps) outbound ≡ true
  unfolding allocate_rounds
  rounds-err zero outbound next steps legal h below = absurd (omega arith)
  rounds-err (suc rounds) outbound next zero legal h below =
      elim (Bool-cases (in_use next outbound)) [
        | inr free ↦ absurd (cc (rw (allocate_rounds, free) at h))
        | inl used ↦ let same : ahead next 0 ≡ next = omega arith in rw same used
      ]
  rounds-err (suc rounds) outbound next (suc steps) legal h below =
      elim (Bool-cases (in_use next outbound)) [
        | inr free ↦ absurd (cc (rw (allocate_rounds, free) at h))
        | inl used ↦ rw (sym (ahead-following next steps legal)) (
            rounds-err rounds outbound (following next) steps (following-IsId next legal)
              (rw (allocate_rounds, used) at h) (omega arith))
      ]

  -- An identifier that is handed out is legal and free, and the next one follows it.
  pub allocate_packet_id-ok :
      (outbound : List (ℕ × State)) (next after id : ℕ)
      → IsId next
      → allocate_packet_id outbound next ≡ (after, ok id)
      → IsId id × (in_use id outbound ≡ false) × (after ≡ following id)
  unfolding allocate_packet_id
  allocate_packet_id-ok outbound next after id legal h =
      rounds-ok id_max outbound next after id legal h

  none_free :
      (outbound : List (ℕ × State)) (next id : ℕ)
      → IsId next
      → (allocate_packet_id outbound next).1 ≡ err overloaded
      → IsId id
      → in_use id outbound ≡ true
  unfolding allocate_packet_id
  none_free outbound next id legal h wanted =
      let reached : ahead next ((id + 65_535 - next) % 65_535) ≡ id = omega arith in
      rw (sym reached)
        (rounds-err id_max outbound next ((id + 65_535 - next) % 65_535) legal h (omega arith))

  all_used :
      (rounds : ℕ) (outbound : List (ℕ × State)) (next : ℕ)
      → IsId next
      → ((id : ℕ) → IsId id → in_use id outbound ≡ true)
      → (allocate_rounds rounds outbound next).1 ≡ err overloaded
  unfolding allocate_rounds
  all_used zero outbound next legal used = refl
  all_used (suc rounds) outbound next legal used =
      rw (used next legal)
        (all_used rounds outbound (following next) (following-IsId next legal) used)

  -- The search fails just when every legal identifier is in use: its rounds are enough.
  pub allocate_packet_id-err :
      (outbound : List (ℕ × State)) (next : ℕ)
      → IsId next
      → ((allocate_packet_id outbound next).1 ≡ err overloaded)
        ↔ ((id : ℕ) → IsId id → in_use id outbound ≡ true)
  unfolding allocate_packet_id
  allocate_packet_id-err outbound next legal = (
    λ h id wanted. none_free outbound next id legal h wanted,
    λ used. all_used id_max outbound next legal used,
  )

  projected_rounds-allocate_rounds :
      (rounds : ℕ) (outbound : List (ℕ × State)) (next : ℕ)
      → projected_rounds rounds outbound next ≡ (allocate_rounds rounds outbound next).1
  unfolding projected_rounds allocate_rounds
  projected_rounds-allocate_rounds zero outbound next = refl
  projected_rounds-allocate_rounds (suc rounds) outbound next =
      ground (arith, projected_rounds-allocate_rounds rounds outbound (following next))

  -- The identifier that is projected for a session is the one that it then allocates.
  pub projected_packet_id-allocate_packet_id :
      (outbound : List (ℕ × State)) (next : ℕ)
      → projected_packet_id outbound next ≡ (allocate_packet_id outbound next).1
  unfolding projected_packet_id allocate_packet_id
  projected_packet_id-allocate_packet_id outbound next =
      projected_rounds-allocate_rounds id_max outbound next
