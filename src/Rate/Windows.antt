-- ===== src/Rate/Windows.antt =====
-- Bounds of the rates of crates/netbaiot-runtime/src/quota.rs.
use netbaiot.Prelude.{
  Result, ℕ, ◌+◌, ◌≤◌, ◌<◌, ◌≡◌, List, [], ◌∷◌, arith, nat_eq, string_eq, ok, err,
}
use netbaiot.Rate.{Window, RateError, renewed, take_n, take_one}

abbrev pub granted : Result RateError (Unit {0}) → ℕ
granted (ok u) = 1
granted (err e) = 0

-- The window after requests at these times, and how many of them it granted.
unfoldable pub take_all : Window → ℕ → List ℕ → Window × ℕ
take_all w limit [] = (w, 0)
take_all w limit (now ∷ times) =
    let (after, answer) = take_one w now limit in
    let (last, more) = take_all after limit times in (last, granted answer + more)

abbrev pub AllBefore : ℕ → List ℕ → Type 0
AllBefore bound [] = Unit {0}
AllBefore bound (now ∷ times) = (now < bound) × AllBefore bound times

take_one-running :
    (w : Window) (now limit : ℕ)
    → now < w.start + 1000
    → w.count ≤ limit
    → ((take_one w now limit).0.start ≡ w.start)
      × ((take_one w now limit).0.count ≡ w.count + granted (take_one w now limit).1)
      × ((take_one w now limit).0.count ≤ limit)
unfolding take_one take_n renewed
take_one-running w now limit before within = (ground arith, ground arith, ground arith)

-- Of the requests within one second of a window's start no more are granted than its limit leaves, and
-- each granted one is counted.
pub take_all-within :
    (times : List ℕ) (w : Window) (limit : ℕ)
    → AllBefore (w.start + 1000) times
    → w.count ≤ limit
    → ((take_all w limit times).0.count ≡ w.count + (take_all w limit times).1)
      × (w.count + (take_all w limit times).1 ≤ limit)
unfolding take_all
take_all-within [] w limit before within = (omega arith, omega arith)
take_all-within (now ∷ times) w limit before within =
    let (start, counted, bound) = take_one-running w now limit before.0 within in
    let later : AllBefore ((take_one w now limit).0.start + 1000) times = rw start before.1 in
    let rest = take_all-within times (take_one w now limit).0 limit later bound in
    (omega (arith, rest.0, counted), omega (arith, rest.1, counted))
