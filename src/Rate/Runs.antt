-- ===== src/Rate/Runs.antt =====
-- Rates at concrete inputs.
use netbaiot.Prelude.{ℕ, ◌+◌, ◌≤◌, ◌≡◌, refl, List, [], ◌∷◌, arith, nat_eq, string_eq}
use netbaiot.Rate.{Window, renewed, take_n, take_one}
use netbaiot.Rate.Windows.{take_all, take_all-within}

abbrev window : Window
window = record { start = 5000; count = 1 }

abbrev times : List ℕ
times = 5100 ∷ 5100 ∷ 5999 ∷ []

grants_two : take_all window 3 times ≡ (record { start = 5000; count = 3 }, 2)
unfolding take_all take_one take_n renewed
grants_two = refl

take_all-within_example :
    ((take_all window 3 times).0.count ≡ 1 + (take_all window 3 times).1)
    × (1 + (take_all window 3 times).1 ≤ 3)
take_all-within_example =
    take_all-within times window 3 (omega arith, (omega arith, (omega arith, tt))) (omega arith)
