-- ===== src/Connections/Counting.antt =====
-- Every operation of crates/netbaiot-runtime/src/quota.rs on connections keeps the counters right.
use netbaiot.Prelude.{
  ℕ, ◌+◌, ◌-◌, ◌≤◌, ◌≡◌, refl, sym, ap, ◌∙◌, Bool, Option, none, some, arith, nat_eq, string_eq,
}
use netbaiot.Prelude.Map.{
  lookup, insert, remove, Distinct, lookup-insert, insert-Distinct, remove-Distinct,
}
use netbaiot.Prelude.Totals.{total, entry_weight, total-insert, total-remove}
use netbaiot.Message.{DeviceKey, device_key_eq}
use netbaiot.Connections.{
  Transport, QuotaLimits, Connections, ConnectionLease, count_or_zero, new_lease, decrement,
  without_device, without_transport, drop_lease,
}
use netbaiot.Connections.Ledger.{
  Leases, one, held_bytes, at_ip, of_device, of_tenant, on_transport, device_on_transport,
  IsCounted, ip-left, device-left, tenants-left, transports-left, device_transports-left,
}

-- The counters that a device or a transport does not touch.
device_rest :
    (own : Option DeviceKey) (c : Connections)
    → ((without_device own c).slots ≡ c.slots)
      × ((without_device own c).memory ≡ c.memory)
      × ((without_device own c).ips ≡ c.ips)
      × ((without_device own c).transports ≡ c.transports)
      × ((without_device own c).device_transports ≡ c.device_transports)
device_rest none c = (refl, refl, refl, refl, refl)
device_rest (some own) c = (refl, refl, refl, refl, refl)

transport_rest :
    (own : Option Transport) (ingress : Bool) (c : Connections)
    → ((without_transport own ingress c).slots ≡ c.slots)
      × ((without_transport own ingress c).memory ≡ c.memory)
      × ((without_transport own ingress c).ips ≡ c.ips)
      × ((without_transport own ingress c).tenants ≡ c.tenants)
      × ((without_transport own ingress c).devices ≡ c.devices)
transport_rest none ingress c = (refl, refl, refl, refl, refl)
transport_rest (some own) ingress c = (refl, refl, refl, refl, refl)

-- A sum without the entry of a lease.
without_entry :
    (weight : ℕ → ConnectionLease → ℕ) (id : ℕ) (lease : ConnectionLease) (leases : Leases)
    → Distinct leases
    → lookup id leases ≡ some lease
    → total weight (remove id leases) + weight id lease ≡ total weight leases
without_entry weight id lease leases d found =
    ap (λ o. total weight (remove id leases) + entry_weight weight id o) (sym found)
    ∙ total-remove weight id leases d

pub drop_lease-IsCounted :
    (limits : QuotaLimits) (c : Connections) (leases : Leases) (id : ℕ) (lease : ConnectionLease)
    → IsCounted limits c leases
    → lookup id leases ≡ some lease
    → IsCounted limits (drop_lease limits c lease) (remove id leases)
unfolding drop_lease
drop_lease-IsCounted limits c leases id lease counted found =
    let left = record c { ips = decrement c.ips lease.ip } in
    let plain = without_device lease.device left in
    let (d_slots, d_memory, d_ips, d_transports, d_device) = device_rest lease.device left in
    let (t_slots, t_memory, t_ips, t_tenants, t_devices) =
      transport_rest lease.transport lease.device_ingress plain in
    let out =
      λ (w : ℕ → ConnectionLease → ℕ). without_entry w id lease leases counted.distinct found in
    record {
      distinct = remove-Distinct id leases counted.distinct;
      slots = omega (arith, t_slots, d_slots, out one, counted.slots);
      memory = omega (arith, t_memory, d_memory, out (held_bytes limits), counted.memory);
      ips = λ ip.
          rw (t_ips, d_ips)
            (omega (arith, ip-left c.ips lease.ip ip, out (at_ip ip), counted.ips ip));
      devices = λ device. rw t_devices (
          omega (
            arith,
            device-left device lease.device left,
            out (of_device device),
            counted.devices device,
          ));
      tenants = λ tenant. rw t_tenants (
          omega (
            arith,
            tenants-left tenant lease.device left,
            out (of_tenant tenant),
            counted.tenants tenant,
          ));
      transports = λ t. omega (
        arith,
        transports-left t lease.transport lease.device_ingress plain,
        ap (λ f. f t) d_transports,
        out (on_transport t),
        counted.transports t,
      );
      device_transports = λ t. omega (
        arith,
        device_transports-left t lease.transport lease.device_ingress plain,
        ap (λ f. f t) d_device,
        out (device_on_transport t),
        counted.device_transports t,
      );
    }

-- A sum with the entry of a new lease, or of one that changed.
pub with_entry :
    (weight : ℕ → ConnectionLease → ℕ) (id : ℕ) (old : Option ConnectionLease)
    (lease : ConnectionLease) (leases : Leases)
    → lookup id leases ≡ old
    → total weight (insert id lease leases) + entry_weight weight id old
      ≡ total weight leases + weight id lease
with_entry weight id old lease leases found =
    ap (λ o. total weight (insert id lease leases) + entry_weight weight id o) (sym found)
    ∙ total-insert weight id lease leases

abbrev pub admitted : QuotaLimits → Connections → ℕ → Connections
admitted limits c ip = record c {
  slots = c.slots - 1;
  memory = c.memory - limits.connection_memory_reservation;
  ips = insert ip (count_or_zero (lookup ip c.ips) + 1) c.ips;
}

pub admitted-IsCounted :
    (limits : QuotaLimits) (c : Connections) (leases : Leases) (id ip : ℕ) (ingress : Bool)
    → IsCounted limits c leases
    → lookup id leases ≡ none
    → 1 ≤ c.slots
    → limits.connection_memory_reservation ≤ c.memory
    → IsCounted limits (admitted limits c ip) (insert id (new_lease ip ingress) leases)
admitted-IsCounted limits c leases id ip ingress counted fresh free room =
    let put =
      λ (w : ℕ → ConnectionLease → ℕ). with_entry w id none (new_lease ip ingress) leases fresh in
    record {
      distinct = insert-Distinct id (new_lease ip ingress) leases counted.distinct;
      slots = omega (arith, put one, counted.slots);
      memory = omega (arith, put (held_bytes limits), counted.memory);
      ips = λ other. ground (
        arith,
        lookup-insert ip other (count_or_zero (lookup ip c.ips) + 1) c.ips,
        put (at_ip other),
        counted.ips other,
      );
      devices = λ device. omega (arith, put (of_device device), counted.devices device);
      tenants = λ tenant. omega (arith, put (of_tenant tenant), counted.tenants tenant);
      transports = λ t. omega (arith, put (on_transport t), counted.transports t);
      device_transports =
          λ t. ground (arith, put (device_on_transport t), counted.device_transports t);
    }
