-- ===== src/Wire/Length.antt =====
-- The variable byte integer of crates/netbaiot-mqtt-wire/src/lib.rs: what `put_variable` writes and
-- what `remaining_length` makes of any input.
use mathlib.Core.List.{append_assoc}
use mathlib.Core.WellFounded.{Acc}
use mathlib.Core.Logic.{◌≢◌}
use native.Mathlib.Nat.{pow-suc, div-add-mod}
use netbaiot.Prelude.{
  false, Bool-cases, ltb→lt, ℕ, zero, suc, ◌+◌, ◌*◌, ◌/◌, ◌%◌, ◌^◌, ◌≤◌, ◌<◌, ◌≡◌, refl, sym, ap,
  ◌∙◌, List, [], ◌∷◌, ◌++◌, some, ok, if◌then◌else◌, ltb, length, take, All, arith, ◌⊎◌, inl, inr,
  lt_wf,
}
use netbaiot.Wire.{variable_max, remaining_loop, remaining_length, put_loop, put_variable}

-- The groups of seven bits, lowest first, for a value below 128 ^ (k + 1).
unfoldable pub octets : ℕ → ℕ → List ℕ
octets v zero = v ∷ []
octets v (suc k) =
    let rest = octets (v / 128) k in if ltb v 128 then v ∷ [] else (v % 128 + 128) ∷ rest

-- A last group, and a group that more follow.
put_loop_ends :
    (output : List ℕ) {v : ℕ} (falls : Acc ◌<◌ v)
    → v < 128
    → put_loop v falls output ≡ output ++ v ∷ []
unfolding put_loop
put_loop_ends output (Acc.intro v smaller) last = ground arith

put_loop_goes_on :
    (output : List ℕ) {v : ℕ} (falls : Acc ◌<◌ v)
    → ltb v 128 ≡ false
    → (rounds : ℕ)
    → ((next : Acc ◌<◌ (v / 128))
        → put_loop (v / 128) next (output ++ (v % 128 + 128) ∷ [])
          ≡ (output ++ (v % 128 + 128) ∷ []) ++ octets (v / 128) rounds)
    → put_loop v falls output ≡ output ++ (v % 128 + 128) ∷ octets (v / 128) rounds
unfolding put_loop
put_loop_goes_on output {v = v} (Acc.intro _ smaller) more rounds rest =
    grind (arith, rest, append_assoc output ((v % 128 + 128) ∷ []) (octets (v / 128) rounds))

put_loop-octets :
    (rounds : ℕ) (output : List ℕ) {v : ℕ} (falls : Acc ◌<◌ v)
    → v < 128 * 128 ^ rounds
    → put_loop v falls output ≡ output ++ octets v rounds
unfolding octets
put_loop-octets zero output falls bound = put_loop_ends output falls (omega arith)
put_loop-octets (suc rounds) output {v = v} (Acc.intro _ smaller) bound =
    elim (Bool-cases (ltb v 128)) [
      | inl last ↦ rw last (put_loop_ends output (Acc.intro v smaller) (ltb→lt v 128 last))
      | inr more ↦ rw more (
          put_loop_goes_on output (Acc.intro v smaller) more rounds
            (λ falls. put_loop-octets rounds (output ++ (v % 128 + 128) ∷ []) falls (omega arith)))
    ]

pub put_variable-octets :
    (v : ℕ) (output : List ℕ) → v ≤ variable_max → put_variable v output ≡ ok (output ++ octets v 3)
unfolding put_variable
put_variable-octets v output h =
    ground (arith, put_loop-octets 3 output (lt_wf.apply v) (omega arith))

pub length-octets : (k v : ℕ) → (1 ≤ length (octets v k)) × (length (octets v k) ≤ k + 1)
unfolding octets
length-octets zero v = omega arith
length-octets (suc k) v = ground (arith, length-octets k (v / 128))

-- One round of the loop on a last octet, and on an octet with the top bit set over the group `g`.
last_octet :
    (b index value m maximum : ℕ) (rest : List ℕ)
    → b < 128
    → (0 < index → 0 < b)
    → value + b * m ≤ maximum
    → value + b * m ≤ variable_max
    → remaining_loop (b ∷ rest) index value m maximum ≡ ok (some (value + b * m, index + 1))
unfolding remaining_loop
last_octet b index value m maximum rest hb pos fits small =
    let e : b % 128 ≡ b = omega arith in rw e (ground arith)

inner_octet :
    (g index value m maximum : ℕ) (rest : List ℕ)
    → g < 128
    → index ≢ 3
    → value + g * m ≤ maximum
    → value + g * m ≤ variable_max
    → m ≤ 2_097_152
    → remaining_loop ((g + 128) ∷ rest) index value m maximum
      ≡ remaining_loop rest (index + 1) (value + g * m) (m * 128) maximum
unfolding remaining_loop
inner_octet g index value m maximum rest hg more fits small hm =
    let e : (g + 128) % 128 ≡ g = omega arith in rw e (ground arith)

split_group : (w m : ℕ) → w * m ≡ w % 128 * m + w / 128 * (m * 128)
split_group w m = omega (arith, ap (λ (t : ℕ). t * m) (div-add-mod w 128))

widen : (k m : ℕ) → m * 128 ^ suc k ≡ 2_097_152 → m * 128 * 128 ^ k ≡ 2_097_152
widen k m h = omega (arith, ap (λ (t : ℕ). m * t) (pow-suc 128 k))

weight-le : (k m : ℕ) → m * 128 ^ k ≡ 2_097_152 → m ≤ 2_097_152
weight-le zero m h = omega arith
weight-le (suc k) m h = omega (arith, weight-le k (m * 128) (widen k m h))

-- The loop reads the octets of a value back, whatever follows it.
remaining_loop-octets :
    (k w index value m maximum : ℕ) (rest : List ℕ)
    → k + index ≡ 3
    → m * 128 ^ k ≡ 2_097_152
    → w < 128 ^ suc k
    → (0 < index → 0 < w)
    → value + w * m ≤ maximum
    → value + w * m ≤ variable_max
    → remaining_loop (octets w k ++ rest) index value m maximum
      ≡ ok (some (value + w * m, index + length (octets w k)))
unfolding octets
remaining_loop-octets zero w index value m maximum rest hi hm hw pos fits small =
    last_octet w index value m maximum rest hw pos fits small
remaining_loop-octets (suc k) w index value m maximum rest hi hm hw pos fits small = ground (
  arith,
  weight-le (suc k) m hm,
  last_octet w index value m maximum rest,
  split_group w m,
  inner_octet (w % 128) index value m maximum (octets (w / 128) k ++ rest),
  remaining_loop-octets k (w / 128) (index + 1) (value + w % 128 * m) (m * 128) maximum rest
      (omega arith) (widen k m hm),
)

-- One round of the loop that does not fail, read backwards.
pub octet_cases :
    (b index value m maximum : ℕ) (rest : List ℕ) {v n : ℕ}
    → remaining_loop (b ∷ rest) index value m maximum ≡ ok (some (v, n))
    → ((b < 128) × (v ≡ value + b * m) × (n ≡ index + 1) × (0 < index → 0 < b) × (v ≤ maximum))
      ⊎ ((128 ≤ b)
          × (index ≢ 3)
          × (remaining_loop rest (index + 1) (value + b % 128 * m) (m * 128) maximum
              ≡ ok (some (v, n))))
unfolding remaining_loop
octet_cases b index value m maximum rest h = elim (Bool-cases (ltb b 128)) [
  | inl low ↦
      let e : b % 128 ≡ b = omega (arith, ltb→lt b 128 low) in
      inl (ground arith, ground arith, ground arith, λ p. ground arith, ground arith)
  | inr high ↦ inr (ground arith, ground arith, ground arith)
]

pow128_pos : (k : ℕ) → 0 < 128 ^ k
pow128_pos zero = omega arith
pow128_pos (suc k) = omega (arith, pow128_pos k, pow-suc 128 k)

octets_more :
    (k b w : ℕ) → 128 ≤ b → b < 256 → 0 < w → octets (b % 128 + 128 * w) (suc k) ≡ b ∷ octets w k
unfolding octets
octets_more k b w high byte pos =
    let e : (b % 128 + 128 * w) / 128 ≡ w = omega arith in rw e (ground arith)

-- What the loop accepts is the octets of the value that it returns.
remaining_loop-canonical :
    (input : List ℕ) (k index value m maximum : ℕ) {v n : ℕ}
    → All (λ b. b < 256) input
    → k + index ≡ 3
    → m * 128 ^ k ≡ 2_097_152
    → remaining_loop input index value m maximum ≡ ok (some (v, n))
    → (w : ℕ) × (j : ℕ) × (v ≡ value + w * m)
      × (n ≡ index + j)
      × (w < 128 ^ suc k)
      × (0 < index → 0 < w)
      × (take j input ≡ octets w k)
      × (v ≤ maximum)
remaining_loop-canonical [] k index value m maximum bytes hi hm h = unfold remaining_loop in cc
remaining_loop-canonical (b ∷ rest) zero index value m maximum bytes hi hm h =
    elim (octet_cases b index value m maximum rest h) [
      | inl (low, ev, en, pos, fits) ↦ (b, 1, ev, en, low, pos, unfold octets in refl, fits)
      | inr (high, more, _) ↦ absurd (more (omega arith))
    ]
remaining_loop-canonical (b ∷ rest) (suc k) index value m maximum bytes hi hm h =
    elim (octet_cases b index value m maximum rest h) [
      | inl (low, ev, en, pos, fits) ↦ (
        b,
        1,
        ev,
        en,
        omega (arith, pow128_pos (suc k)),
        pos,
        unfold octets in ground arith,
        fits,
      )
      | inr (high, more, next) ↦
          let (w, j, ev, en, hw, pos, same, fits) =
            remaining_loop-canonical rest k (index + 1) (value + b % 128 * m) (m * 128) maximum
              bytes.1 (omega arith) (widen k m hm) next in
          (
            b % 128 + 128 * w,
            suc j,
            omega arith,
            omega arith,
            omega arith,
            λ _. omega arith,
            ap (◌∷◌ b) same ∙ sym (octets_more k b w high bytes.0 (omega arith)),
            fits,
          )
    ]

-- The loop fails at its fourth octet, so it never looks past it.
remaining_loop-take :
    (input : List ℕ) (n index value m maximum : ℕ)
    → n + index ≡ 3
    → remaining_loop (take (suc n) input) index value m maximum
      ≡ remaining_loop input index value m maximum
unfolding remaining_loop
remaining_loop-take [] n index value m maximum h = refl
remaining_loop-take (b ∷ rest) zero index value m maximum h = ground arith
remaining_loop-take (b ∷ rest) (suc n) index value m maximum h = ground (
  arith,
  remaining_loop-take rest n (index + 1) (value + b % 128 * m) (m * 128) maximum (omega arith),
)

pub remaining_length-loop :
    (input : List ℕ) (maximum : ℕ)
    → remaining_length input maximum ≡ remaining_loop input 0 0 1 maximum
unfolding remaining_length
remaining_length-loop input maximum = remaining_loop-take input 3 0 0 1 maximum (omega arith)

-- `remaining_length` reads back every value that `put_variable` writes and the caller's maximum
-- admits, with its number of octets, and does not look at what follows them.
pub remaining_length-put_variable :
    (v maximum : ℕ) (written rest : List ℕ)
    → put_variable v [] ≡ ok written
    → v ≤ maximum
    → remaining_length (written ++ rest) maximum ≡ ok (some (v, length written))
unfolding put_variable
remaining_length-put_variable v maximum written rest h fits =
    let small : v ≤ variable_max = ground arith in
    let same : octets v 3 ≡ written = ground (arith, put_variable-octets v [] small) in
    rw (remaining_length-loop, ← same)
      (ground (arith, remaining_loop-octets 3 v 0 0 1 maximum rest))

-- Of any bytes, what `remaining_length` accepts is within the caller's maximum and below 2 ^ 28,
-- and the octets that it took are the ones that `put_variable` writes for the value: no second
-- spelling of a length is accepted.
pub remaining_length-canonical :
    (input : List ℕ) (maximum v n : ℕ)
    → All (λ b. b < 256) input
    → remaining_length input maximum ≡ ok (some (v, n))
    → (v ≤ maximum) × (v ≤ variable_max) × (put_variable v [] ≡ ok (take n input))
remaining_length-canonical input maximum v n bytes h =
    let (w, j, ev, en, hw, _, same, fits) =
      remaining_loop-canonical input 3 0 0 1 maximum bytes (omega arith) (omega arith)
        (rw remaining_length-loop at h) in
    let small : v ≤ variable_max = omega arith in
    let ew : w ≡ v = omega arith in
    let ej : j ≡ n = omega arith in
    (fits, small, put_variable-octets v [] small ∙ ap ok (rw (← ew, ← ej) (sym same)))
