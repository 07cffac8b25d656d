-- ===== src/Wire.antt =====
-- MQTT fixed headers: crates/netbaiot-mqtt-wire/src/lib.rs. A byte slice is a list of numbers below
-- 256, so `byte & 0x7f` is `byte % 128`, `byte & 0x80 == 0` is `byte < 128`, and `byte |= 0x80` on
-- a byte below 128 adds 128. `usize` has 64 bits.
pub mod Length
pub mod Framing
mod Runs
use mathlib.Core.Logic.{dite}
use mathlib.Core.WellFounded.{Acc}
use native.Mathlib.Decide.{dec_lt}
use netbaiot.Prelude.{
  ℕ, ◌+◌, ◌*◌, ◌/◌, ◌%◌, ◌^◌, ◌<◌, Bool, true, false, ◌&&◌, ◌||◌, not, List, [], ◌∷◌, ◌++◌, Option,
  none, some, Result, ok, err, ◌>>=◌, ◌>>◌, ensure, ok_or, if◌then◌else◌, ltb, leb, ◌==◌, length,
  take, arith, checked_add, checked_mul, lt_wf,
}

pub data WireError : Type 0 where
  invalid too_large : WireError

-- 268_435_455, the largest value of four octets.
abbrev pub variable_max : ℕ
variable_max = 268_435_455

-- One round of the `for` loop over the octets that are left.
unfoldable pub remaining_loop : List ℕ → ℕ → ℕ → ℕ → ℕ → Result WireError (Option (ℕ × ℕ))
remaining_loop [] index value multiplier maximum = ok none
remaining_loop (byte ∷ rest) index value multiplier maximum = do
  part ← ok_or (checked_mul (byte % 128) multiplier) invalid
  next ← ok_or (checked_add value part) invalid
  let more = λ (wider : ℕ). remaining_loop rest (index + 1) next wider maximum
  if ltb maximum next
      then err too_large
      else (if ltb byte 128
          then (if ltb 0 index && byte == 0 then err invalid else ok (some (next, index + 1)))
          else (if index == 3
              then err invalid
              else ok_or (checked_mul multiplier 128) invalid >>= more))

unfoldable pub remaining_length : List ℕ → ℕ → Result WireError (Option (ℕ × ℕ))
remaining_length input maximum = remaining_loop (take 4 input) 0 0 1 maximum

-- `first >> 4` and `first & 0x0f` of the first byte are its two arguments.
unfoldable pub valid_flags : ℕ → ℕ → Bool
valid_flags kind flags =
    if kind == 3
    then (let qos = flags / 2 % 4 in not (qos == 3) && not (qos == 0 && leb 8 (flags % 16)))
    else (if kind == 6 || kind == 8 || kind == 10
        then flags == 2
        else ((kind == 1
              || kind == 2
              || kind == 4
              || kind == 5
              || kind == 7
              || kind == 9
              || kind == 11
              || kind == 12
              || kind == 13
              || kind == 14
              || kind == 15)
            && flags == 0))

unfoldable pub fixed_header : List ℕ → ℕ → Result WireError (Option (ℕ × ℕ × ℕ))
fixed_header [] maximum = ok none
fixed_header (first ∷ input) maximum = do
  ensure (valid_flags (first / 16) (first % 16)) invalid
  decoded ← remaining_length input maximum
  elim decoded [
    | none ↦ ok none
    | some (remaining, encoded) ↦ do
      header ← ok_or (checked_add encoded 1) invalid
      total ← ok_or (checked_add remaining header) invalid
      if ltb maximum total then err too_large else ok (some (first, header, total))
  ]

unfoldable pub encoded_size : ℕ → Result WireError ℕ
encoded_size remaining =
    if leb remaining 127
    then ok_or (checked_add remaining (1 + 1)) invalid
    else (if leb remaining 16_383
        then ok_or (checked_add remaining (1 + 2)) invalid
        else (if leb remaining 2_097_151
            then ok_or (checked_add remaining (1 + 3)) invalid
            else (if leb remaining variable_max
                then ok_or (checked_add remaining (1 + 4)) invalid
                else err invalid)))

pub group_shrinks : (v : ℕ) → 0 < v / 128 → v / 128 < v
group_shrinks v h = omega arith

-- The `loop` writes the low group, with its top bit set while a higher group follows.
unfoldable pub put_loop : (value : ℕ) → Acc ◌<◌ value → List ℕ → List ℕ
unfolding dec_lt
put_loop value (Acc.intro _ smaller) output =
    dite (dec_lt 0 (value / 128))
      (λ more.
        put_loop (value / 128) (smaller _ (group_shrinks value more))
          (output ++ (value % 128 + 128) ∷ []))
      (λ _. output ++ (value % 128) ∷ [])

unfoldable pub put_variable : ℕ → List ℕ → Result WireError (List ℕ)
unfolding lt_wf put_loop
put_variable value output =
    if ltb variable_max value then err invalid else ok (put_loop value (lt_wf.apply value) output)

unfoldable pub encode : ℕ → List ℕ → ℕ → Result WireError (List ℕ)
encode first body maximum = do
  size ← encoded_size (length body)
  ensure (leb size maximum && valid_flags (first / 16) (first % 16)) too_large
  output ← put_variable (length body) (first ∷ [])
  ok (output ++ body)
