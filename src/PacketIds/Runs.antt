-- ===== src/PacketIds/Runs.antt =====
-- Packet identifiers at concrete inputs.
use netbaiot.Prelude.{
  ℕ, suc, ◌≡◌, refl, ◌↔◌, true, false, List, [], ◌∷◌, arith, nat_eq, string_eq, ok, err,
}
use netbaiot.Prelude.Map.{lookup}
use netbaiot.PacketIds.{following, overloaded, in_use, allocate_rounds, allocate_packet_id}
use netbaiot.PacketIds.Allocation.{IsId, allocate_packet_id-ok, allocate_packet_id-err}

-- The last identifier and the first are in use.
abbrev outbound : List (ℕ × ℕ)
outbound = (65_535, 0) ∷ (1, 0) ∷ []

wraps : allocate_rounds (suc (suc (suc 65_532))) outbound 65_535 ≡ (3, ok 2)
unfolding allocate_rounds following lookup
wraps = refl

allocates_2 : allocate_packet_id outbound 65_535 ≡ (3, ok 2)
unfolding allocate_packet_id
allocates_2 = wraps

allocate_packet_id-ok_example : IsId 2 × (in_use 2 outbound ≡ false) × (3 ≡ following 2)
allocate_packet_id-ok_example =
    allocate_packet_id-ok outbound 65_535 3 2 (omega arith, omega arith) allocates_2

allocate_packet_id-err_example :
    ((allocate_packet_id outbound 65_535).1 ≡ err overloaded)
    ↔ ((id : ℕ) → IsId id → in_use id outbound ≡ true)
allocate_packet_id-err_example = allocate_packet_id-err outbound 65_535 (omega arith, omega arith)
