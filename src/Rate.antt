-- ===== src/Rate.antt =====
-- Request rates: `Window` and `RateLimiter` of crates/netbaiot-runtime/src/quota.rs. An instant is its
-- number of milliseconds, and the present one is an argument; a locked section is one call.
mod Windows
mod Runs
use netbaiot.Prelude.{
  Result, ℕ, zero, suc, ◌+◌, ◌-◌, ◌*◌, ◌/◌, ◌%◌, ◌^◌, ◌≤◌, ◌<◌, min, max, ◌≡◌, refl, sym, ap, ◌∙◌,
  ◌≢◌, ◌↔◌, ◌⊎◌, inl, inr, Bool, true, false, not, ◌&&◌, ◌||◌, Option, none, some, List, [], ◌∷◌,
  ◌++◌, map, arith, ltb, leb, ◌==◌, if◌then◌else◌, leb→le, ltb→lt, ==_iff, Bool-cases, Option-cases,
  Eq, nat_eq, str_eq, str_eq_iff, string_eq, length, get_elem?, take, drop, All, length-append,
  take-append-drop, take-append, drop-append, length-take, length-drop, ok, err, ◌>>=◌, ◌>>◌,
  ensure, ok_or, Result-cases, usize_limit, checked_add, checked_mul, checked_sub, wrapping_sub,
  saturating_add, lt_wf,
}
use netbaiot.Prelude.Map.{lookup, insert}

pub record Window : Type 0 where
  pub start : ℕ
  pub count : ℕ

pub data RateError : Type 0 where
  overloaded : RateError

-- `start.elapsed() >= Duration::from_secs(1)`
abbrev pub elapsed : Window → ℕ → Bool
elapsed w now = leb 1000 (now - w.start)

unfoldable pub renewed : Window → ℕ → Window
renewed w now = if elapsed w now then record { start = now; count = 0 } else w

-- A window that has elapsed starts anew, also where the units are then refused.
unfoldable pub take_n : Window → ℕ → ℕ → ℕ → Window × Result RateError (Unit {0})
take_n w now limit units =
    let current = renewed w now in
    elim (checked_add current.count units) [
      | none ↦ (current, err overloaded)
      | some next ↦
          if ltb limit next
          then (current, err overloaded)
          else (record current { count = next }, ok tt)
    ]

unfoldable pub take_one : Window → ℕ → ℕ → Window × Result RateError (Unit {0})
take_one w now limit = take_n w now limit 1

pub record Limits : Type 0 where
  pub requests_per_second : ℕ
  pub requests_per_ip_second : ℕ
  pub rate_entries : ℕ

pub record RateLimiter : Type 0 where
  pub limits : Limits
  pub global : Window
  pub sources : List (ℕ × Window)

unfoldable pub retain_live : List (ℕ × Window) → ℕ → List (ℕ × Window)
retain_live [] now = []
retain_live ((ip, w) ∷ sources) now =
    let rest = retain_live sources now in if elapsed w now then rest else (ip, w) ∷ rest

abbrev pub has_source : ℕ → List (ℕ × Window) → Bool
has_source ip sources = elim (lookup ip sources) [ none ↦ false | some w ↦ true ]

abbrev pub or_window : Option Window → ℕ → Window
or_window none now = record { start = now; count = 0 }
or_window (some w) now = w

unfoldable pub with_room : RateLimiter → ℕ → ℕ → List (ℕ × Window)
with_room r ip now =
    if not (has_source ip r.sources) && leb r.limits.rate_entries (length r.sources)
    then retain_live r.sources now
    else r.sources

unfoldable pub take_source : RateLimiter → ℕ → ℕ → RateLimiter × Result RateError (Unit {0})
take_source r ip now =
    let sources = with_room r ip now in
    let (window, answer) =
      take_one (or_window (lookup ip sources) now) now r.limits.requests_per_ip_second in
    if not (has_source ip sources) && leb r.limits.rate_entries (length sources)
    then (record r { sources = sources }, err overloaded)
    else (record r { sources = insert ip window sources }, answer)

unfoldable pub take_request : RateLimiter → ℕ → ℕ → RateLimiter × Result RateError (Unit {0})
take_request r ip now =
    let (global, answer) = take_one r.global now r.limits.requests_per_second in
    elim answer [
      | err e ↦ (record r { global = global }, err e)
      | ok u ↦ take_source (record r { global = global }) ip now
    ]
