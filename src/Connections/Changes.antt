-- ===== src/Connections/Changes.antt =====
-- Classifying and authenticating a lease of crates/netbaiot-runtime/src/quota.rs counts it, and the whole
-- operations keep the counters right.
use netbaiot.Prelude.{
  ℕ, ◌+◌, ◌≡◌, ap, inl, inr, none, some, arith, if◌then◌else◌, Bool-cases, nat_eq, str_eq_iff,
  string_eq,
}
use netbaiot.Prelude.Map.{lookup, insert, lookup-insert, insert-Distinct}
use netbaiot.Prelude.Totals.{total}
use netbaiot.Message.{DeviceKey, device_key_eq, device_key_beq, device_key_beq_iff}
use netbaiot.Connections.{
  Transport, same_transport, QuotaLimits, Connections, ConnectionLease, count_or_zero,
  tenant_or_default, set_count, classified, authenticated,
}
use netbaiot.Connections.Ledger.{
  Leases, one, held_bytes, at_ip, device_is, of_device, tenant_is, of_tenant, transport_is,
  on_transport, device_on_transport, IsCounted, same_transport-equal,
}
use netbaiot.Connections.Counting.{with_entry}

set_count-more :
    (s t : Transport) (counts : Transport → ℕ)
    → set_count t (counts t + 1) counts s ≡ counts s + (if same_transport t s then 1 else 0)
set_count-more s t counts = elim (Bool-cases (same_transport t s)) [
  | inl equal ↦ rw equal (ap (λ x. counts x + 1) (same_transport-equal t s equal))
  | inr different ↦ rw different (omega arith)
]

-- The lease of a pending connection is not on a transport yet.
pub classified-IsCounted :
    (limits : QuotaLimits) (c : Connections) (leases : Leases) (id : ℕ) (lease : ConnectionLease)
    (t : Transport)
    → IsCounted limits c leases
    → lookup id leases ≡ some lease
    → lease.transport ≡ none
    → IsCounted limits
        (classified c lease t).0
        (insert id (record lease { transport = some t }) leases)
classified-IsCounted limits c leases id lease t counted found pending =
    let after = record lease { transport = some t } in
    let put = λ (w : ℕ → ConnectionLease → ℕ). with_entry w id (some lease) after leases found in
    record {
      distinct = insert-Distinct id after leases counted.distinct;
      slots = omega (arith, put one, counted.slots);
      memory = omega (arith, put (held_bytes limits), counted.memory);
      ips = λ ip. omega (arith, put (at_ip ip), counted.ips ip);
      devices = λ device. omega (arith, put (of_device device), counted.devices device);
      tenants = λ tenant. omega (arith, put (of_tenant tenant), counted.tenants tenant);
      transports = λ s. omega (
        arith,
        set_count-more s t c.transports,
        ap (transport_is s) pending,
        put (on_transport s),
        counted.transports s,
      );
      device_transports = λ s. ground (
        arith,
        set_count-more s t c.device_transports,
        ap (transport_is s) pending,
        put (device_on_transport s),
        counted.device_transports s,
      );
    }

-- The lease that is authenticated had no device before.
pub authenticated-IsCounted :
    (limits : QuotaLimits) (c : Connections) (leases : Leases) (id : ℕ) (lease : ConnectionLease)
    (own : DeviceKey) (read_bytes : ℕ)
    → IsCounted limits c leases
    → lookup id leases ≡ some lease
    → lease.device ≡ none
    → IsCounted limits
        (authenticated c lease own read_bytes).0
        (insert id (authenticated c lease own read_bytes).1.0 leases)
authenticated-IsCounted limits c leases id lease own read_bytes counted found anonymous =
    let after = (authenticated c lease own read_bytes).1.0 in
    let put = λ (w : ℕ → ConnectionLease → ℕ). with_entry w id (some lease) after leases found in
    let old = tenant_or_default (lookup own.tenant_id c.tenants) in
    record {
      distinct = insert-Distinct id after leases counted.distinct;
      slots = omega (arith, put one, counted.slots);
      memory = omega (arith, put (held_bytes limits), counted.memory);
      ips = λ ip. omega (arith, put (at_ip ip), counted.ips ip);
      devices = λ device. device_more device (put (of_device device));
      tenants = λ tenant. ground (
        arith,
        lookup-insert own.tenant_id tenant
            (record { connections = old.connections + 1; read_bytes = read_bytes }) c.tenants,
        str_eq_iff own.tenant_id tenant,
        ap (tenant_is tenant) anonymous,
        put (of_tenant tenant),
        counted.tenants tenant,
      );
      transports = λ s. omega (arith, put (on_transport s), counted.transports s);
      device_transports =
          λ s. omega (arith, put (device_on_transport s), counted.device_transports s);
    }
  where
    device_more :
        (device : DeviceKey)
        → total (of_device device) (insert id (authenticated c lease own read_bytes).1.0 leases)
            + device_is device lease.device
          ≡ total (of_device device) leases + device_is device (some own)
        → count_or_zero
            (lookup device (insert own (count_or_zero (lookup own c.devices) + 1) c.devices))
          ≡ total (of_device device) (insert id (authenticated c lease own read_bytes).1.0 leases)
    device_more device put =
        let more = lookup-insert own device (count_or_zero (lookup own c.devices) + 1) c.devices in
        elim (Bool-cases (device_key_beq own device)) [
          | inl equal ↦
              let same = (device_key_beq_iff own device).0 equal in
              let count = ap (λ d. count_or_zero (lookup d c.devices)) same in
              ground (
                arith,
                equal,
                more,
                put,
                count,
                ap (device_is device) anonymous,
                counted.devices device,
              )
          | inr different ↦
              ground (
                arith,
                different,
                more,
                put,
                ap (device_is device) anonymous,
                counted.devices device,
              )
        ]
