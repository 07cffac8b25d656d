-- ===== src/Udp/Window.antt =====
-- The sliding window of crates/netbaiot-transports/src/udp.rs: which sequence numbers count as seen.
use netbaiot.Prelude.{
  ℕ, zero, suc, ◌+◌, ◌-◌, ◌≤◌, ◌<◌, max, ◌≡◌, refl, ap, ◌∙◌, ◌⊎◌, inl, inr, Bool, true, false, ◌&&◌,
  ◌||◌, some, List, [], ◌∷◌, arith, ltb, leb, ◌==◌, if◌then◌else◌, Bool-cases, nat_eq, string_eq,
  take, ok, err,
}
use netbaiot.Prelude.Map.{lookup, insert, lookup-insert, beq_self}
use netbaiot.Udp.{
  Replay, accepted_duplicate, conflict, UdpReplayPolicy, bit, set_bit, zeros, shift_left, judge,
  recorded, ReplayKey, key_eq, ReplayWindow, decide, commit, expiry, or_new,
}

bit-set_bit : (i j : ℕ) (bits : List Bool) → bit i (set_bit j bits) ≡ ((i == j) || bit i bits)
unfolding bit set_bit
bit-set_bit zero zero [] = refl
bit-set_bit (suc i) zero [] = ground arith
bit-set_bit zero (suc j) [] = ground arith
bit-set_bit (suc i) (suc j) [] = ground (arith, bit-set_bit i j [])
bit-set_bit zero zero (b ∷ bits) = refl
bit-set_bit (suc i) zero (b ∷ bits) = ground arith
bit-set_bit zero (suc j) (b ∷ bits) = ground arith
bit-set_bit (suc i) (suc j) (b ∷ bits) = ground (arith, bit-set_bit i j bits)

bit-zeros :
    (d i : ℕ) (bits : List Bool)
    → bit i (zeros d bits) ≡ (if ltb i d then false else bit (i - d) bits)
unfolding bit zeros
bit-zeros zero i bits = ground arith
bit-zeros (suc d) zero bits = ground arith
bit-zeros (suc d) (suc i) bits = ground (arith, bit-zeros d i bits)

bit-take : (n i : ℕ) (bits : List Bool) → bit i (take n bits) ≡ (ltb i n && bit i bits)
unfolding bit
bit-take zero i bits = ground arith
bit-take (suc n) i [] = ground arith
bit-take (suc n) zero (b ∷ bits) = ground arith
bit-take (suc n) (suc i) (b ∷ bits) = ground (arith, bit-take n i bits)

bit-shift_left :
    (d i : ℕ) (bits : List Bool)
    → bit i (shift_left d bits) ≡ (ltb i 64 && (if ltb i d then false else bit (i - d) bits))
unfolding shift_left
bit-shift_left d i bits = ground (arith, bit-take 64 i (zeros d bits), bit-zeros d i bits)

-- The sequence number was recorded, and lies in the window.
unfoldable pub in_window : Replay → ℕ → Bool
in_window entry q =
    leb q entry.maximum && ltb (entry.maximum - q) 64 && bit (entry.maximum - q) entry.bits

in_window-old :
    (entry : Replay) (seq expires q : ℕ)
    → seq ≤ entry.maximum
    → in_window (recorded entry seq expires) q
      ≡ ((q == seq || in_window entry q) && ltb (entry.maximum - q) 64 && leb q entry.maximum)
unfolding in_window recorded
in_window-old entry seq expires q h =
    ground (arith, bit-set_bit (entry.maximum - q) (entry.maximum - seq) entry.bits)

pub in_window-within : (entry : Replay) (q : ℕ) → in_window entry q ≡ true → q ≤ entry.maximum
unfolding in_window
in_window-within entry q h = ground arith

in_window-far :
    (entry : Replay) (seq expires q : ℕ)
    → entry.maximum + 64 ≤ seq
    → in_window (recorded entry seq expires) q ≡ (q == seq)
unfolding in_window recorded bit
in_window-far entry seq expires q h = ground (arith, bit-set_bit (seq - q) 0 [])

in_window-near :
    (entry : Replay) (seq expires q : ℕ)
    → entry.maximum < seq
    → seq < entry.maximum + 64
    → in_window (recorded entry seq expires) q
      ≡ ((q == seq || in_window entry q) && ltb (seq - q) 64 && leb q seq)
unfolding in_window recorded
in_window-near entry seq expires q above near =
    let there : (seq - seq) ≡ 0 = omega arith in
    let moved : q ≤ entry.maximum
        → bit (seq - q - (seq - entry.maximum)) entry.bits ≡ bit (entry.maximum - q) entry.bits =
      λ below. ap (λ i. bit i entry.bits) (omega arith) in
    ground (
      arith,
      there,
      moved,
      bit-set_bit (seq - q) (seq - seq) (shift_left (seq - entry.maximum) entry.bits),
      bit-shift_left (seq - entry.maximum) (seq - q) entry.bits,
    )

-- After a commit, the numbers known in the window are the committed one and those known before, less
-- what lies 64 or more behind the largest.
pub in_window-recorded :
    (entry : Replay) (seq expires q : ℕ)
    → in_window (recorded entry seq expires) q ≡ (
        (q == seq || in_window entry q)
        && ltb (max entry.maximum seq - q) 64
        && leb q (max entry.maximum seq))
in_window-recorded entry seq expires q = elim (Bool-cases (ltb entry.maximum seq)) [
  | inr old ↦ ground (arith, old, in_window-old entry seq expires q (ground arith))
  | inl above ↦ elim (Bool-cases (leb (entry.maximum + 64) seq)) [
    | inl far ↦ ground (
      arith,
      above,
      far,
      in_window-far entry seq expires q (ground arith),
      in_window-within entry q,
    )
    | inr near ↦
        ground
          (arith, above, near, in_window-near entry seq expires q (ground arith) (ground arith))
  ]
]

-- A number that a commit has recorded, as the entry then knows it.
abbrev pub IsSeen : Replay → ℕ → Type 0
IsSeen entry q = (q ≤ entry.maximum) × ((64 ≤ entry.maximum - q) ⊎ (in_window entry q ≡ true))

unfoldable pub recorded_all : Replay → List (ℕ × ℕ) → Replay
recorded_all entry [] = entry
recorded_all entry ((seq, expires) ∷ commits) = recorded_all (recorded entry seq expires) commits

recorded-IsSeen :
    (entry : Replay) (seq expires q : ℕ) → IsSeen entry q → IsSeen (recorded entry seq expires) q
unfolding recorded
recorded-IsSeen entry seq expires q h = ground (arith, in_window-recorded entry seq expires q, h)

recorded-itself : (entry : Replay) (seq expires : ℕ) → IsSeen (recorded entry seq expires) seq
unfolding recorded
recorded-itself entry seq expires = ground (arith, in_window-recorded entry seq expires seq)

recorded_all-IsSeen :
    (commits : List (ℕ × ℕ)) (entry : Replay) (q : ℕ)
    → IsSeen entry q
    → IsSeen (recorded_all entry commits) q
unfolding recorded_all
recorded_all-IsSeen [] entry q h = h
recorded_all-IsSeen ((seq, expires) ∷ commits) entry q h =
    recorded_all-IsSeen commits (recorded entry seq expires) q
      (recorded-IsSeen entry seq expires q h)

judge-IsSeen :
    (entry : Replay) (q : ℕ) (policy : UdpReplayPolicy)
    → IsSeen entry q
    → (judge entry q policy ≡ ok accepted_duplicate) ⊎ (judge entry q policy ≡ err conflict)
unfolding judge in_window
judge-IsSeen entry q policy h = ground (arith, h)

-- A sequence number that was committed is not new again while its entry lives, whatever is committed
-- after it and under either policy: it is an accepted duplicate or a conflict.
pub committed_never_new :
    (entry : Replay) (seq expires : ℕ) (commits : List (ℕ × ℕ)) (policy : UdpReplayPolicy)
    → (judge (recorded_all (recorded entry seq expires) commits) seq policy ≡ ok accepted_duplicate)
      ⊎ (judge (recorded_all (recorded entry seq expires) commits) seq policy ≡ err conflict)
committed_never_new entry seq expires commits policy =
    judge-IsSeen (recorded_all (recorded entry seq expires) commits) seq policy (
      recorded_all-IsSeen commits (recorded entry seq expires) seq
        (recorded-itself entry seq expires))

-- Right after a commit the window itself never calls the number new for that device, boot and
-- credential version, nor refuses it for want of room.
pub decide-commit :
    (w : ReplayWindow) (key : ReplayKey) (seq now : ℕ) (policy : UdpReplayPolicy)
    → (decide (commit w key seq now) key seq policy ≡ ok accepted_duplicate)
      ⊎ (decide (commit w key seq now) key seq policy ≡ err conflict)
unfolding decide commit
decide-commit w key seq now policy =
    let expires = expiry now w.limits.replay_ttl_ms in
    let entry : Replay = recorded (or_new (lookup key w.entries) seq expires) seq expires in
    let found : lookup key (insert key entry w.entries) ≡ some entry =
      lookup-insert key key entry w.entries ∙ (rw (beq_self key) refl) in
    rw (decide, found) (judge-IsSeen entry seq policy (recorded-itself _ seq expires))
