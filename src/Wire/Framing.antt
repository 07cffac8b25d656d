-- ===== src/Wire/Framing.antt =====
-- Packets of crates/netbaiot-mqtt-wire/src/lib.rs: `encode` and `fixed_header` against each other, and
-- `fixed_header` on input that arrives in pieces.
use mathlib.Core.List.{append_assoc}
use netbaiot.Prelude.{
  ℕ, suc, ◌+◌, ◌-◌, ◌*◌, ◌/◌, ◌%◌, ◌≤◌, ◌<◌, ◌≡◌, refl, ap, ◌∙◌, ◌≢◌, inl, inr, true, none, some,
  List, [], ◌∷◌, ◌++◌, arith, nat_eq, string_eq, length, drop, length-append, drop-append, ok,
  Result-cases,
}
use netbaiot.Wire.{
  variable_max, valid_flags, remaining_loop, remaining_length, fixed_header, encoded_size, encode,
}
use netbaiot.Wire.Length.{
  octets, length-octets, put_variable-octets, remaining_length-put_variable, remaining_length-loop,
  octet_cases,
}

encoded_size-octets :
    (n s : ℕ) → encoded_size n ≡ ok s → (n ≤ variable_max) × (s ≡ n + 1 + length (octets n 3))
unfolding encoded_size octets
encoded_size-octets n s h = ground arith

-- `encode` succeeds on a body that fits, and what it writes is the byte, the length and the body.
encode_shape :
    (first maximum : ℕ) (body out : List ℕ)
    → encode first body maximum ≡ ok out
    → (length body ≤ variable_max)
      × (length out ≤ maximum)
      × (valid_flags (first / 16) (first % 16) ≡ true)
      × (out ≡ first ∷ octets (length body) 3 ++ body)
unfolding encode
encode_shape first maximum body out h = elim (Result-cases (encoded_size (length body))) [
  | inl (size, e) ↦
      let (small, hs) = encoded_size-octets (length body) size e in
      ground (
        arith,
        put_variable-octets (length body) (first ∷ []) small,
        length-append (octets (length body) 3) body,
      )
  | inr (e, r) ↦ ground arith
]

header_read :
    (first n k maximum : ℕ) (input : List ℕ)
    → valid_flags (first / 16) (first % 16) ≡ true
    → remaining_length input maximum ≡ ok (some (n, k))
    → n + (k + 1) ≤ maximum
    → n ≤ variable_max
    → k ≤ 4
    → fixed_header (first ∷ input) maximum ≡ ok (some (first, k + 1, n + (k + 1)))
unfolding fixed_header
header_read first n k maximum input flags read fits small short = rw (flags, read) (ground arith)

-- A packet that `encode` built is within the maximum, `fixed_header` finds its first byte and its
-- length whatever bytes follow the packet, and behind the header stands the body.
pub fixed_header-encode :
    (first maximum : ℕ) (body out rest : List ℕ)
    → encode first body maximum ≡ ok out
    → let header = length out - length body in
      (fixed_header (out ++ rest) maximum ≡ ok (some (first, header, length out)))
      × (drop header out ≡ body)
      × (length out ≤ maximum)
unfolding fixed_header
fixed_header-encode first maximum body out rest h =
    let (small, fits, flags, shape) = encode_shape first maximum body out h in
    let enc : List ℕ = octets (length body) 3 in
    let size : length out ≡ suc (length enc + length body) =
      ap length shape ∙ ap suc (length-append enc body) in
    let read : fixed_header (first ∷ enc ++ (body ++ rest)) maximum
        ≡ ok (some (first, length enc + 1, length body + (length enc + 1))) =
      header_read first (length body) (length enc) maximum (enc ++ (body ++ rest)) flags
        (remaining_length-put_variable (length body) maximum enc (body ++ rest)
          (put_variable-octets (length body) [] small) (omega arith))
        (omega arith) small (length-octets 3 (length body)).1 in
    let hn : length enc + 1 ≡ length out - length body = omega arith in
    let tn : length body + (length enc + 1) ≡ length out = omega arith in
    let dn : suc (length enc) ≡ length out - length body = omega arith in
    (
      ap (λ o. fixed_header (o ++ rest) maximum) shape
          ∙ ap (λ t. fixed_header (first ∷ t) maximum) (append_assoc enc body rest)
          ∙ read
          ∙ rw (tn, hn),
      rw (← dn) (ap (drop (suc (length enc))) shape ∙ drop-append enc body),
      fits,
    )

remaining_loop_bounds :
    (input : List ℕ) (index value m maximum : ℕ) {v n : ℕ}
    → index ≤ 3
    → remaining_loop input index value m maximum ≡ ok (some (v, n))
    → (index < n) × (n ≤ 4) × (n ≤ index + length input)
remaining_loop_bounds [] index value m maximum hi h = unfold remaining_loop in cc
remaining_loop_bounds (b ∷ rest) index value m maximum hi h =
    elim (octet_cases b index value m maximum rest h) [
      | inl (low, ev, en, pos, fits) ↦ omega arith
      | inr (high, more, next) ↦
          let (after, short, within) =
            remaining_loop_bounds rest (index + 1) (value + b % 128 * m) (m * 128) maximum
              (omega arith) next in
          omega arith
    ]

-- The bounds that a reader relies on, for any bytes.
pub fixed_header_bounds :
    (input : List ℕ) (maximum first header total : ℕ)
    → fixed_header input maximum ≡ ok (some (first, header, total))
    → (2 ≤ header) × (header ≤ 5) × (header ≤ length input) × (header ≤ total) × (total ≤ maximum)
unfolding fixed_header
fixed_header_bounds [] maximum first header total h = cc
fixed_header_bounds (b ∷ input) maximum first header total h =
    elim (Result-cases (remaining_length input maximum)) [
      | inl (none, e) ↦ ground arith
      | inl (some (n, k), e) ↦ ground (
        arith,
        remaining_loop_bounds input 0 0 1 maximum {v = n} {n = k},
        remaining_length-loop input maximum,
      )
      | inr (x, e) ↦ ground arith
    ]

remaining_loop-append :
    (input more : List ℕ) (index value m maximum : ℕ)
    → remaining_loop input index value m maximum ≢ ok none
    → remaining_loop (input ++ more) index value m maximum
      ≡ remaining_loop input index value m maximum
unfolding remaining_loop
remaining_loop-append [] more index value m maximum h = absurd (h refl)
remaining_loop-append (b ∷ input) more index value m maximum h =
    ground
      (arith, remaining_loop-append input more (index + 1) (value + b % 128 * m) (m * 128) maximum)

-- Once `fixed_header` has decided, by a header or by an error, further bytes do not change what it
-- says.
pub fixed_header-append :
    (input more : List ℕ) (maximum : ℕ)
    → fixed_header input maximum ≢ ok none
    → fixed_header (input ++ more) maximum ≡ fixed_header input maximum
unfolding fixed_header
fixed_header-append [] more maximum h = absurd (h refl)
fixed_header-append (b ∷ input) more maximum h = ground (
  arith,
  remaining_length-loop input maximum,
  remaining_length-loop (input ++ more) maximum,
  remaining_loop-append input more 0 0 1 maximum,
)

remaining_loop_waits :
    (input : List ℕ) (index value m maximum : ℕ)
    → index ≤ 3
    → remaining_loop input index value m maximum ≡ ok none
    → length input + index ≤ 3
unfolding remaining_loop
remaining_loop_waits [] index value m maximum hi h = omega arith
remaining_loop_waits (b ∷ rest) index value m maximum hi h =
    ground (arith, remaining_loop_waits rest (index + 1) (value + b % 128 * m) (m * 128) maximum)

-- It asks for more bytes only while it has fewer than five.
pub fixed_header_waits :
    (input : List ℕ) (maximum : ℕ) → fixed_header input maximum ≡ ok none → length input ≤ 4
unfolding fixed_header
fixed_header_waits [] maximum h = omega arith
fixed_header_waits (b ∷ input) maximum h =
    ground (arith, remaining_length-loop input maximum, remaining_loop_waits input 0 0 1 maximum)
