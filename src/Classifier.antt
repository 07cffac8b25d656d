-- ===== src/Classifier.antt =====
-- Which protocol a connection speaks: `classify_prefix` of
-- crates/netbaiot-transports/src/classifier.rs, on the bytes that have come.
mod Prefixes
mod Runs
use netbaiot.Prelude.{
  Result, ℕ, zero, suc, ◌+◌, ◌-◌, ◌*◌, ◌/◌, ◌%◌, ◌^◌, ◌≤◌, ◌<◌, min, max, ◌≡◌, refl, sym, ap, ◌∙◌,
  ◌≢◌, ◌↔◌, ◌⊎◌, inl, inr, Bool, true, false, not, ◌&&◌, ◌||◌, Option, none, some, List, [], ◌∷◌,
  ◌++◌, map, arith, ltb, leb, ◌==◌, if◌then◌else◌, leb→le, ltb→lt, ==_iff, Bool-cases, Option-cases,
  Eq, nat_eq, str_eq, str_eq_iff, string_eq, length, get_elem?, take, drop, All, length-append,
  take-append-drop, take-append, drop-append, length-take, length-drop, ok, err, ◌>>=◌, ◌>>◌,
  ensure, ok_or, Result-cases, usize_limit, checked_add, checked_mul, checked_sub, wrapping_sub,
  saturating_add, lt_wf,
}
use netbaiot.RpcWire.{be32}
use netbaiot.Wire.{WireError, invalid, fixed_header}

pub data Transport : Type 0 where
  tcp mqtt : Transport

-- What the listener reports; `wire` passes an error of the MQTT header on.
pub data ClassifyError : Type 0 where
  refused : ClassifyError
  wire : WireError → ClassifyError

unfoldable pub json_start : ℕ → Bool
json_start b = b == 123 || b == 32 || b == 9 || b == 13 || b == 10

unfoldable pub classify_tcp : List ℕ → ℕ → Result ClassifyError (Option Transport)
classify_tcp (b0 ∷ b1 ∷ b2 ∷ b3 ∷ rest) max_tcp = do
  ensure (not (be32 b0 b1 b2 b3 == 0 || ltb max_tcp (be32 b0 b1 b2 b3))) refused
  elim rest [ [] ↦ ok none | b4 ∷ more ↦ if json_start b4 then ok (some tcp) else err refused ]
classify_tcp _ max_tcp = ok none

-- "\x00\x04MQTT"
abbrev pub signature : List ℕ
signature = 0 ∷ 4 ∷ 77 ∷ 81 ∷ 84 ∷ 84 ∷ []

unfoldable pub is_prefix : List ℕ → List ℕ → Bool
is_prefix [] text = true
is_prefix (b ∷ prefix) [] = false
is_prefix (b ∷ prefix) (c ∷ text) = b == c && is_prefix prefix text

unfoldable pub classify_connect : List ℕ → ℕ → ℕ → Result ClassifyError (Option Transport)
classify_connect input header total = do
  ensure (leb 12 (total - header)) refused
  let available = take 6 (drop header input)
  ensure (is_prefix available signature) refused
  ok (if length available == 6 && ltb (header + 6) (length input) then some mqtt else none)

unfoldable pub classify_mqtt : List ℕ → ℕ → Result ClassifyError (Option Transport)
classify_mqtt input max_mqtt = elim (fixed_header input max_mqtt) [
  | err e ↦ err (wire e)
  | ok none ↦ ok none
  | ok (some (first, header, total)) ↦ classify_connect input header total
]

abbrev pub first_byte : List ℕ → Option ℕ
first_byte [] = none
first_byte (first ∷ rest) = some first

unfoldable pub classify_prefix : List ℕ → ℕ → ℕ → Result ClassifyError (Option Transport)
classify_prefix input max_tcp max_mqtt =
    if ltb 1_048_576 max_tcp || ltb 12 (length input)
    then err refused
    else (elim (first_byte input) [
      | none ↦ ok none
      | some first ↦
          if first == 0
          then classify_tcp input max_tcp
          else (if first == 16 then classify_mqtt input max_mqtt else err refused)
    ])
