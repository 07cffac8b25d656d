-- ===== src/Udp.antt =====
-- The replay window of crates/netbaiot-transports/src/udp.rs. A time in i64 is its number plus 2^63,
-- which keeps order and differences. The u64 of accepted sequence numbers is the list of its bits, the
-- lowest first, without the zeros at its end that no number has set yet. The ordered set of expiries is
-- a list in the order of its times.
mod Window
mod Numbers
mod Runs
use netbaiot.Prelude.{
  Result, ℕ, zero, suc, ◌+◌, ◌-◌, ◌*◌, ◌/◌, ◌%◌, ◌^◌, ◌≤◌, ◌<◌, min, max, ◌≡◌, refl, sym, ap, ◌∙◌,
  ◌≢◌, ◌↔◌, ◌⊎◌, inl, inr, Bool, true, false, not, ◌&&◌, ◌||◌, Option, none, some, List, [], ◌∷◌,
  ◌++◌, map, arith, ltb, leb, ◌==◌, if◌then◌else◌, leb→le, ltb→lt, ==_iff, Bool-cases, Option-cases,
  Eq, nat_eq, str_eq, str_eq_iff, string_eq, length, get_elem?, take, drop, All, length-append,
  take-append-drop, take-append, drop-append, length-take, length-drop, ok, err, ◌>>=◌, ◌>>◌,
  ensure, ok_or, Result-cases, usize_limit, checked_add, checked_mul, checked_sub, wrapping_sub,
  saturating_add, lt_wf,
}
use netbaiot.Prelude.Map.{lookup, insert, remove}

pub record DeviceKey : Type 0 where
  pub tenant_id : List ℕ
  pub product_id : List ℕ
  pub device_id : List ℕ

pub record ReplayKey : Type 0 where
  pub device : DeviceKey
  pub boot : List ℕ
  pub version : ℕ

unfoldable pub device_beq : DeviceKey → DeviceKey → Bool
device_beq a b =
    str_eq a.tenant_id b.tenant_id
    && str_eq a.product_id b.product_id
    && str_eq a.device_id b.device_id

unfoldable pub key_beq : ReplayKey → ReplayKey → Bool
key_beq a b = device_beq a.device b.device && str_eq a.boot b.boot && a.version == b.version

pub device_beq_iff : (a b : DeviceKey) → (device_beq a b ≡ true) ↔ (a ≡ b)
unfolding device_beq
device_beq_iff a b = ground (
  arith,
  str_eq_iff a.tenant_id b.tenant_id,
  str_eq_iff a.product_id b.product_id,
  str_eq_iff a.device_id b.device_id,
)

pub key_beq_iff : (a b : ReplayKey) → (key_beq a b ≡ true) ↔ (a ≡ b)
unfolding key_beq
key_beq_iff a b =
    ground (
      arith,
      device_beq_iff a.device b.device,
      str_eq_iff a.boot b.boot,
      ==_iff a.version b.version,
    )

instance abbrev pub device_eq : Eq DeviceKey
device_eq = record { beq = device_beq; beq_iff = device_beq_iff }

instance abbrev pub key_eq : Eq ReplayKey
key_eq = record { beq = key_beq; beq_iff = key_beq_iff }

pub record Replay : Type 0 where
  pub maximum : ℕ
  pub bits : List Bool
  pub expires : ℕ

pub data ReplayDecision : Type 0 where
  fresh accepted_duplicate : ReplayDecision

pub data UdpReplayPolicy : Type 0 where
  window_64 monotonic : UdpReplayPolicy

pub data ReplayError : Type 0 where
  authentication conflict overloaded : ReplayError

-- The limits that the window reads.
pub record Limits : Type 0 where
  pub udp_clock_skew_ms : ℕ
  pub replay_ttl_ms : ℕ
  pub max_replay_entries : ℕ
  pub max_replay_entries_per_device : ℕ
  pub max_replay_entries_per_tenant : ℕ

pub record ReplayWindow : Type 0 where
  pub entries : List (ReplayKey × Replay)
  pub expirations : List (ℕ × ReplayKey)
  pub devices : List (DeviceKey × ℕ)
  pub tenants : List (List ℕ × ℕ)
  pub limits : Limits

unfoldable pub bit : ℕ → List Bool → Bool
bit i [] = false
bit zero (b ∷ bits) = b
bit (suc i) (b ∷ bits) = bit i bits

-- `bits | 1 << i`
unfoldable pub set_bit : ℕ → List Bool → List Bool
set_bit zero [] = true ∷ []
set_bit zero (b ∷ bits) = true ∷ bits
set_bit (suc i) [] = false ∷ set_bit i []
set_bit (suc i) (b ∷ bits) = b ∷ set_bit i bits

unfoldable pub zeros : ℕ → List Bool → List Bool
zeros zero bits = bits
zeros (suc n) bits = false ∷ zeros n bits

-- `bits << delta` on 64 bits.
unfoldable pub shift_left : ℕ → List Bool → List Bool
shift_left delta bits = take 64 (zeros delta bits)

-- `saturating_sub` on the numbers is `-`; the difference of two times either way round.
abbrev pub abs_diff : ℕ → ℕ → ℕ
abs_diff a b = (a - b) + (b - a)

abbrev pub or_zero : Option ℕ → ℕ
or_zero none = 0
or_zero (some n) = n

abbrev pub is_window_64 : UdpReplayPolicy → Bool
is_window_64 window_64 = true
is_window_64 monotonic = false

-- The decision on an entry that is there.
unfoldable pub judge : Replay → ℕ → UdpReplayPolicy → Result ReplayError ReplayDecision
judge entry seq policy =
    if ltb entry.maximum seq
    then ok fresh
    else (if leb 64 (entry.maximum - seq)
        then err conflict
        else (if bit (entry.maximum - seq) entry.bits
            then ok accepted_duplicate
            else (if is_window_64 policy then ok fresh else err conflict)))

-- A count goes down, and leaves when it is zero.
unfoldable pub count_down : {K : Type 0} ⦃e : Eq K⦄ → K → List (K × ℕ) → List (K × ℕ)
count_down k counts = elim (lookup k counts) [
  | none ↦ counts
  | some count ↦ if count - 1 == 0 then remove k counts else insert k (count - 1) counts
]

unfoldable pub count_up : {K : Type 0} ⦃e : Eq K⦄ → K → List (K × ℕ) → List (K × ℕ)
count_up k counts = insert k (or_zero (lookup k counts) + 1) counts

unfoldable pub evict : ReplayWindow → ReplayKey → ReplayWindow
evict w key = elim (lookup key w.entries) [
  | none ↦ w
  | some entry ↦ record w {
    entries = remove key w.entries;
    devices = count_down key.device w.devices;
    tenants = count_down key.device.tenant_id w.tenants;
  }
]

unfoldable pub prune_from : List (ℕ × ReplayKey) → ReplayWindow → ℕ → ReplayWindow
prune_from [] w now = record w { expirations = [] }
prune_from ((expires, key) ∷ expirations) w now =
    let pruned = prune_from expirations (evict w key) now in
    if leb expires now then pruned else record w { expirations = (expires, key) ∷ expirations }

unfoldable pub prune : ReplayWindow → ℕ → ReplayWindow
prune w now = prune_from w.expirations w now

unfoldable pub decide :
    ReplayWindow → ReplayKey → ℕ → UdpReplayPolicy → Result ReplayError ReplayDecision
decide w key seq policy = elim (lookup key w.entries) [
  | some entry ↦ judge entry seq policy
  | none ↦
      if leb w.limits.max_replay_entries (length w.entries)
        || leb w.limits.max_replay_entries_per_device (or_zero (lookup key.device w.devices))
        || leb w.limits.max_replay_entries_per_tenant
            (or_zero (lookup key.device.tenant_id w.tenants))
      then err overloaded
      else ok fresh
]

-- The window is pruned also where the answer is an error, unless the clock is refused.
unfoldable pub check_with_policy :
    ReplayWindow
    → ReplayKey
    → ℕ
    → ℕ
    → ℕ
    → UdpReplayPolicy
    → ReplayWindow × Result ReplayError ReplayDecision
check_with_policy w key seq timestamp now policy =
    let pruned = prune w now in
    let decision = decide pruned key seq policy in
    if ltb w.limits.udp_clock_skew_ms (abs_diff now timestamp)
    then (w, err authentication)
    else (pruned, decision)

-- `now.saturating_add(ttl as i64)`, where a ttl from 2^63 on is negative.
unfoldable pub expiry : ℕ → ℕ → ℕ
expiry now ttl =
    if ltb ttl 9_223_372_036_854_775_808
    then min (now + ttl) (usize_limit - 1)
    else now - (usize_limit - ttl)

unfoldable pub insert_expiry : ℕ → ReplayKey → List (ℕ × ReplayKey) → List (ℕ × ReplayKey)
insert_expiry expires key [] = (expires, key) ∷ []
insert_expiry expires key ((at_time, other) ∷ more) =
    let rest = insert_expiry expires key more in
    if leb at_time expires
    then (at_time, other) ∷ rest
    else (expires, key) ∷ (at_time, other) ∷ more

unfoldable pub remove_expiry : ℕ → ReplayKey → List (ℕ × ReplayKey) → List (ℕ × ReplayKey)
remove_expiry expires key [] = []
remove_expiry expires key ((at_time, other) ∷ more) =
    let rest = remove_expiry expires key more in
    if at_time == expires && key_beq other key then rest else (at_time, other) ∷ rest

-- The entry with the sequence number in it.
unfoldable pub recorded : Replay → ℕ → ℕ → Replay
recorded entry seq expires =
    let delta = seq - entry.maximum in
    let moved =
      if ltb entry.maximum seq
      then (if leb 64 delta then [] else shift_left delta entry.bits)
      else entry.bits in
    let top = if ltb entry.maximum seq then seq else entry.maximum in
    record {
      maximum = top;
      bits = if ltb (top - seq) 64 then set_bit (top - seq) moved else moved;
      expires = expires;
    }

unfoldable pub rescheduled : ReplayWindow → ReplayKey → ℕ → ReplayWindow
rescheduled w key expires = elim (lookup key w.entries) [
  | none ↦ record w {
    devices = count_up key.device w.devices;
    tenants = count_up key.device.tenant_id w.tenants;
    expirations = insert_expiry expires key w.expirations;
  }
  | some entry ↦ if entry.expires == expires then w else record w {
    expirations = insert_expiry expires key (remove_expiry entry.expires key w.expirations);
  }
]

abbrev pub or_new : Option Replay → ℕ → ℕ → Replay
or_new none seq expires = record { maximum = seq; bits = []; expires = expires }
or_new (some entry) seq expires = entry

unfoldable pub commit : ReplayWindow → ReplayKey → ℕ → ℕ → ReplayWindow
commit w key seq now =
    let expires = expiry now w.limits.replay_ttl_ms in
    record (rescheduled w key expires) {
      entries =
          insert key (recorded (or_new (lookup key w.entries) seq expires) seq expires) w.entries;
    }
