-- ===== src/Classifier/Prefixes.antt =====
-- How far `classify_prefix` of crates/netbaiot-transports/src/classifier.rs waits.
use netbaiot.Prelude.{
  ℕ, ◌+◌, ◌≤◌, ◌<◌, ◌≡◌, inl, inr, none, some, List, [], ◌∷◌, arith, nat_eq, string_eq, length,
  drop, length-take, length-drop, ok, Result-cases,
}
use netbaiot.Wire.{fixed_header}
use netbaiot.Wire.Framing.{fixed_header_waits, fixed_header_bounds}
use netbaiot.Classifier.{classify_tcp, classify_connect, classify_mqtt, classify_prefix}

classify_tcp-waits :
    (input : List ℕ) (max_tcp : ℕ) → classify_tcp input max_tcp ≡ ok none → length input < 5
unfolding classify_tcp
classify_tcp-waits [] max_tcp h = omega arith
classify_tcp-waits (b0 ∷ []) max_tcp h = omega arith
classify_tcp-waits (b0 ∷ b1 ∷ []) max_tcp h = omega arith
classify_tcp-waits (b0 ∷ b1 ∷ b2 ∷ []) max_tcp h = omega arith
classify_tcp-waits (b0 ∷ b1 ∷ b2 ∷ b3 ∷ []) max_tcp h = omega arith
classify_tcp-waits (b0 ∷ b1 ∷ b2 ∷ b3 ∷ b4 ∷ more) max_tcp h = absurd (ground arith)

classify_connect-waits :
    (input : List ℕ) (header total : ℕ)
    → classify_connect input header total ≡ ok none
    → length input ≤ header + 6
unfolding classify_connect
classify_connect-waits input header total h =
    ground (arith, length-take 6 (drop header input), length-drop header input)

classify_mqtt-waits :
    (input : List ℕ) (max_mqtt : ℕ) → classify_mqtt input max_mqtt ≡ ok none → length input < 12
unfolding classify_mqtt
classify_mqtt-waits input max_mqtt h = elim (Result-cases (fixed_header input max_mqtt)) [
  | inr (e, bad) ↦ absurd (cc (rw (classify_mqtt, bad) at h))
  | inl (none, short) ↦ omega (arith, fixed_header_waits input max_mqtt short)
  | inl (some (first, header, total), found) ↦ omega (
    arith,
    fixed_header_bounds input max_mqtt first header total found,
    classify_connect-waits input header total (rw (classify_mqtt, found) at h),
  )
]

-- Twelve bytes always decide: the classifier asks for more only while it has fewer.
pub classify_prefix_waits :
    (input : List ℕ) (max_tcp max_mqtt : ℕ)
    → classify_prefix input max_tcp max_mqtt ≡ ok none
    → length input < 12
unfolding classify_prefix
classify_prefix_waits [] max_tcp max_mqtt h = omega arith
classify_prefix_waits (first ∷ rest) max_tcp max_mqtt h =
    ground (
      arith,
      classify_tcp-waits (first ∷ rest) max_tcp,
      classify_mqtt-waits (first ∷ rest) max_mqtt,
    )
