-- ===== src/Prelude/Words.antt =====
-- `usize` and `u64` arithmetic with its checks, and recursion on a falling number.
use Prim.Native.Nat.{ℕ, zero, suc, ◌+◌, ◌-◌, ◌*◌, ◌<◌}
use mathlib.Core.Option.{Option, none, some}
use mathlib.Core.WellFounded.{Acc, WellFounded}
use native.Mathlib.Omega.{arith}
use netbaiot.Prelude.Tests.{ltb, leb, if◌then◌else◌}

abbrev pub usize_limit : ℕ
usize_limit = 18_446_744_073_709_551_616

abbrev pub checked_add : ℕ → ℕ → Option ℕ
checked_add a b = if ltb (a + b) usize_limit then some (a + b) else none

abbrev pub checked_mul : ℕ → ℕ → Option ℕ
checked_mul a b = if ltb (a * b) usize_limit then some (a * b) else none

abbrev pub checked_sub : ℕ → ℕ → Option ℕ
checked_sub a b = if leb b a then some (a - b) else none

abbrev pub saturating_add : ℕ → ℕ → ℕ
saturating_add a b = if ltb (a + b) usize_limit then a + b else usize_limit - 1

-- A subtraction on `usize` that wraps.
abbrev pub wrapping_sub : ℕ → ℕ → ℕ
wrapping_sub a b = if leb b a then a - b else a + usize_limit - b

acc_below : (bound n : ℕ) → n < bound → Acc ◌<◌ n
acc_below zero n h = elim h [ ]
acc_below (suc bound) n h = Acc.intro n (λ m hm. acc_below bound m (omega arith))

unfoldable pub lt_wf : WellFounded ◌<◌
unfolding acc_below
lt_wf = record { apply = λ n. acc_below (suc n) n (omega arith) }
