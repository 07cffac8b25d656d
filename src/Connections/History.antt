-- ===== src/Connections/History.antt =====
-- Histories of connections over the counters of crates/netbaiot-runtime/src/quota.rs.
use netbaiot.Prelude.{
  Result, ℕ, ◌+◌, ◌-◌, ◌≡◌, refl, ◌∙◌, inl, inr, Bool, not, Option, none, some, List, [], ◌∷◌,
  arith, leb, ◌==◌, Bool-cases, nat_eq, string_eq, ok, err,
}
use netbaiot.Prelude.Map.{lookup, insert, remove, lookup-insert}
use netbaiot.Prelude.Totals.{total}
use netbaiot.Message.{DeviceKey, device_key_eq}
use netbaiot.Connections.{
  Transport, QuotaError, QuotaLimits, Connections, ConnectionLease, new_connections, count_or_zero,
  can_reserve, reserve_connection, drop_lease, classify, authenticate, into_management,
}
use netbaiot.Connections.Ledger.{Leases, IsCounted}
use netbaiot.Connections.Counting.{admitted-IsCounted}

-- A call on the connection of this number; `acquire_pending` and `acquire_device_pending` open one.
pub data Call : Type 0 where
  open_call : ℕ → ℕ → Bool → Call
  classify_call : ℕ → Transport → Call
  manage_call : ℕ → Call
  authenticate_call : ℕ → DeviceKey → Call
  close_call : ℕ → Call

abbrev pub opened :
    ℕ → Leases → Connections × Result QuotaError ConnectionLease → Connections × Leases
opened id leases (c, err e) = (c, leases)
opened id leases (c, ok lease) = (c, insert id lease leases)

-- A call that takes the lease by value gives it back or has dropped it.
abbrev pub settled :
    ℕ → Leases → Connections × Result QuotaError ConnectionLease → Connections × Leases
settled id leases (c, err e) = (c, remove id leases)
settled id leases (c, ok lease) = (c, insert id lease leases)

abbrev pub open_at :
    QuotaLimits
    → Connections
    → Leases
    → ℕ
    → ℕ
    → Bool
    → Option ConnectionLease
    → Connections × Leases
open_at limits c leases id ip ingress none =
    opened id leases (reserve_connection limits c ip ingress)
open_at limits c leases id ip ingress (some lease) = (c, leases)

-- Only a pending lease, on no transport yet, is classified or taken for management.
abbrev pub while_pending :
    Option Transport → Connections × Leases → Connections × Leases → Connections × Leases
while_pending none changed same = changed
while_pending (some t) changed same = same

abbrev pub classify_at :
    QuotaLimits
    → Connections
    → Leases
    → ℕ
    → Transport
    → Option ConnectionLease
    → Connections × Leases
classify_at limits c leases id t none = (c, leases)
classify_at limits c leases id t (some lease) =
    while_pending lease.transport (settled id leases (classify limits c lease t)) (c, leases)

abbrev pub manage_at :
    QuotaLimits → Connections → Leases → ℕ → Option ConnectionLease → Connections × Leases
manage_at limits c leases id none = (c, leases)
manage_at limits c leases id (some lease) =
    while_pending lease.transport (settled id leases (into_management limits c lease)) (c, leases)

abbrev pub authenticate_at :
    QuotaLimits
    → Connections
    → Leases
    → ℕ
    → DeviceKey
    → Option ConnectionLease
    → Connections × Leases
authenticate_at limits c leases id device none = (c, leases)
authenticate_at limits c leases id device (some lease) =
    let (after, (changed, answer)) = authenticate limits c lease device in
    (after, insert id changed leases)

abbrev pub close_at :
    QuotaLimits → Connections → Leases → ℕ → Option ConnectionLease → Connections × Leases
close_at limits c leases id none = (c, leases)
close_at limits c leases id (some lease) = (drop_lease limits c lease, remove id leases)

unfoldable pub step : QuotaLimits → Connections × Leases → Call → Connections × Leases
step limits (c, leases) (open_call id ip ingress) =
    open_at limits c leases id ip ingress (lookup id leases)
step limits (c, leases) (classify_call id t) = classify_at limits c leases id t (lookup id leases)
step limits (c, leases) (manage_call id) = manage_at limits c leases id (lookup id leases)
step limits (c, leases) (authenticate_call id device) =
    authenticate_at limits c leases id device (lookup id leases)
step limits (c, leases) (close_call id) = close_at limits c leases id (lookup id leases)

unfoldable pub run : QuotaLimits → Connections × Leases → List Call → Connections × Leases
run limits state [] = state
run limits state (call ∷ calls) = run limits (step limits state call) calls

abbrev pub Counts : QuotaLimits → Connections × Leases → Type 0
Counts limits (c, leases) = IsCounted limits c leases

pub new-IsCounted : (limits : QuotaLimits) → IsCounted limits (new_connections limits) []
unfolding total lookup
new-IsCounted limits = record {
  distinct = tt;
  slots = omega arith;
  memory = omega arith;
  ips = λ ip. refl;
  devices = λ device. refl;
  tenants = λ tenant. refl;
  transports = λ t. refl;
  device_transports = λ t. refl;
}

-- Permits that came back, and an entry that counts nothing, leave the counters right.
kept-IsCounted :
    (limits : QuotaLimits) (c : Connections) (leases : Leases) (slots memory : ℕ)
    (ips : List (ℕ × ℕ))
    → slots ≡ c.slots
    → memory ≡ c.memory
    → ((ip : ℕ) → count_or_zero (lookup ip ips) ≡ count_or_zero (lookup ip c.ips))
    → IsCounted limits c leases
    → IsCounted limits (record c { slots = slots; memory = memory; ips = ips }) leases
kept-IsCounted limits c leases slots memory ips same_slots same_memory same_ips counted = record {
  distinct = counted.distinct;
  slots = omega (arith, same_slots, counted.slots);
  memory = omega (arith, same_memory, counted.memory);
  ips = λ ip. same_ips ip ∙ counted.ips ip;
  devices = counted.devices;
  tenants = counted.tenants;
  transports = counted.transports;
  device_transports = counted.device_transports;
}

same_count :
    (ips : List (ℕ × ℕ)) (ip other : ℕ)
    → count_or_zero (lookup other (insert ip (count_or_zero (lookup ip ips)) ips))
      ≡ count_or_zero (lookup other ips)
same_count ips ip other = ground (arith, lookup-insert ip other (count_or_zero (lookup ip ips)) ips)

pub open_at-Counts :
    (limits : QuotaLimits) (c : Connections) (leases : Leases) (id ip : ℕ) (ingress : Bool)
    (found : Option ConnectionLease)
    → IsCounted limits c leases
    → lookup id leases ≡ found
    → Counts limits (open_at limits c leases id ip ingress found)
unfolding reserve_connection
open_at-Counts limits c leases id ip ingress (some lease) counted found = counted
open_at-Counts limits c leases id ip ingress none counted found =
    let bytes = limits.connection_memory_reservation in
    elim (Bool-cases (c.slots == 0)) [
      | inl none_left ↦ rw none_left counted
      | inr free ↦ elim (Bool-cases (not (can_reserve c.memory bytes))) [
        | inl short ↦
            rw (free, short)
              (kept-IsCounted limits c leases (c.slots - 1 + 1) c.memory c.ips
                (ground (arith, free)) refl (λ other. refl) counted)
        | inr room ↦
            elim (Bool-cases
              (leb limits.max_connections_per_ip (count_or_zero (lookup ip c.ips)))) [
                | inl busy ↦
                    rw (free, room, busy)
                      (kept-IsCounted limits c leases (c.slots - 1 + 1) (c.memory - bytes + bytes)
                        (insert ip (count_or_zero (lookup ip c.ips)) c.ips) (ground (arith, free))
                        (ground (arith, room)) (same_count c.ips ip) counted)
                | inr granted ↦
                    rw (free, room, granted)
                      (admitted-IsCounted limits c leases id ip ingress counted found
                        (ground (arith, free)) (ground (arith, room)))
              ]
      ]
    ]
