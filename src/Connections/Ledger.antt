-- ===== src/Connections/Ledger.antt =====
-- The counters of crates/netbaiot-runtime/src/quota.rs count the live leases.
use netbaiot.Prelude.{
  ℕ, ◌+◌, ◌-◌, ◌≡◌, refl, sym, ap, ◌∙◌, inl, inr, Bool, true, false, ◌&&◌, Option, none, some, List,
  arith, ◌==◌, if◌then◌else◌, Bool-cases, Eq, nat_eq, str_eq, str_eq_iff, string_eq,
}
use netbaiot.Prelude.Map.{lookup, Distinct, lookup-insert, lookup-remove}
use netbaiot.Prelude.Totals.{total}
use netbaiot.Message.{DeviceKey, device_key_eq, device_key_beq, device_key_beq_iff}
use netbaiot.Connections.{
  Transport, mqtt, tcp, udp, same_transport, QuotaLimits, TenantConnections, Connections,
  ConnectionLease, count_or_zero, tenant_or_default, set_count, decremented, decrement, left_tenant,
  without_device, without_transport,
}

abbrev pub Leases : Type 0
Leases = List (ℕ × ConnectionLease)

abbrev pub one : ℕ → ConnectionLease → ℕ
one id lease = 1

abbrev pub held_bytes : QuotaLimits → ℕ → ConnectionLease → ℕ
held_bytes limits id lease = limits.connection_memory_reservation

abbrev pub at_ip : ℕ → ℕ → ConnectionLease → ℕ
at_ip ip id lease = if lease.ip == ip then 1 else 0

abbrev pub device_is : DeviceKey → Option DeviceKey → ℕ
device_is device none = 0
device_is device (some own) = if device_key_beq own device then 1 else 0

abbrev pub of_device : DeviceKey → ℕ → ConnectionLease → ℕ
of_device device id lease = device_is device lease.device

abbrev pub tenant_is : List ℕ → Option DeviceKey → ℕ
tenant_is tenant none = 0
tenant_is tenant (some own) = if str_eq own.tenant_id tenant then 1 else 0

abbrev pub of_tenant : List ℕ → ℕ → ConnectionLease → ℕ
of_tenant tenant id lease = tenant_is tenant lease.device

abbrev pub transport_is : Transport → Option Transport → ℕ
transport_is t none = 0
transport_is t (some own) = if same_transport own t then 1 else 0

abbrev pub on_transport : Transport → ℕ → ConnectionLease → ℕ
on_transport t id lease = transport_is t lease.transport

abbrev pub device_on_transport : Transport → ℕ → ConnectionLease → ℕ
device_on_transport t id lease = if lease.device_ingress then transport_is t lease.transport else 0

-- Each counter counts its live leases, and the permits that they hold are not free.
pub record IsCounted (limits : QuotaLimits) (c : Connections) (leases : Leases) : Type 0 where
  pub distinct : Distinct leases
  pub slots : c.slots + total one leases ≡ limits.max_connections
  pub memory : c.memory + total (held_bytes limits) leases ≡ limits.global_connection_logical_bytes
  pub ips : (ip : ℕ) → count_or_zero (lookup ip c.ips) ≡ total (at_ip ip) leases
  pub devices :
      (device : DeviceKey)
      → count_or_zero (lookup device c.devices) ≡ total (of_device device) leases
  pub tenants :
      (tenant : List ℕ)
      → (tenant_or_default (lookup tenant c.tenants)).connections ≡ total (of_tenant tenant) leases
  pub transports : (t : Transport) → c.transports t ≡ total (on_transport t) leases
  pub device_transports :
      (t : Transport) → c.device_transports t ≡ total (device_on_transport t) leases

count-decremented :
    {K : Type 0} ⦃e : Eq K⦄ (counts : List (K × ℕ)) (key other : K) (found : Option ℕ)
    → lookup key counts ≡ found
    → count_or_zero (lookup other (decremented key found counts))
      ≡ (if e.beq key other then count_or_zero found - 1 else count_or_zero (lookup other counts))
count-decremented ⦃e⦄ counts key other none found = elim (Bool-cases (e.beq key other)) [
  | inl equal ↦
      let same = (e.beq_iff key other).0 equal in
      rw equal (ap (λ k. count_or_zero (lookup k counts)) (sym same) ∙ ap count_or_zero found)
  | inr different ↦ rw different refl
]
count-decremented ⦃e⦄ counts key other (some count) found = elim (Bool-cases ((count - 1) == 0)) [
  | inl last ↦ ground (arith, last, lookup-remove key other counts)
  | inr more ↦ ground (arith, more, lookup-insert key other (count - 1) counts)
]

tenant-left :
    (tenant other : List ℕ) (tenants : List (List ℕ × TenantConnections))
    (found : Option TenantConnections)
    → lookup tenant tenants ≡ found
    → (tenant_or_default (lookup other (left_tenant tenant found tenants))).connections ≡ (
        if str_eq tenant other
        then (tenant_or_default found).connections - 1
        else (tenant_or_default (lookup other tenants)).connections)
tenant-left tenant other tenants none found = ground (arith, found, str_eq_iff tenant other)
tenant-left tenant other tenants (some t) found =
    elim (Bool-cases (((t.connections - 1) == 0) && (t.read_bytes == 0))) [
      | inl last ↦ ground (arith, last, lookup-remove tenant other tenants)
      | inr more ↦ ground (
        arith,
        more,
        lookup-insert tenant other (record t { connections = t.connections - 1 }) tenants,
      )
    ]

-- What a lease that leaves takes from each counter.
pub ip-left :
    (counts : List (ℕ × ℕ)) (key other : ℕ)
    → count_or_zero (lookup other (decrement counts key))
      ≡ count_or_zero (lookup other counts) - (if key == other then 1 else 0)
unfolding decrement
ip-left counts key other =
    ground (arith, count-decremented counts key other (lookup key counts) refl)

pub device-left :
    (device : DeviceKey) (own : Option DeviceKey) (c : Connections)
    → count_or_zero (lookup device (without_device own c).devices)
      ≡ count_or_zero (lookup device c.devices) - device_is device own
unfolding decrement
device-left device none c = omega arith
device-left device (some own) c =
    let left = count-decremented c.devices own device (lookup own c.devices) refl in
    elim (Bool-cases (device_key_beq own device)) [
      | inl equal ↦
          let same = (device_key_beq_iff own device).0 equal in
          let count = ap (λ d. count_or_zero (lookup d c.devices)) same in
          ground (arith, left, equal, count)
      | inr different ↦ ground (arith, left, different)
    ]

pub tenants-left :
    (tenant : List ℕ) (own : Option DeviceKey) (c : Connections)
    → (tenant_or_default (lookup tenant (without_device own c).tenants)).connections
      ≡ (tenant_or_default (lookup tenant c.tenants)).connections - tenant_is tenant own
tenants-left tenant none c = omega arith
tenants-left tenant (some own) c = ground (
  arith,
  tenant-left own.tenant_id tenant c.tenants (lookup own.tenant_id c.tenants) refl,
  str_eq_iff own.tenant_id tenant,
)

pub same_transport-equal : (s t : Transport) → same_transport s t ≡ true → s ≡ t
same_transport-equal mqtt mqtt h = refl
same_transport-equal mqtt tcp h = cc
same_transport-equal mqtt udp h = cc
same_transport-equal tcp mqtt h = cc
same_transport-equal tcp tcp h = refl
same_transport-equal tcp udp h = cc
same_transport-equal udp mqtt h = cc
same_transport-equal udp tcp h = cc
same_transport-equal udp udp h = refl

pub set_count-left :
    (s t : Transport) (counts : Transport → ℕ)
    → set_count t (counts t - 1) counts s ≡ counts s - (if same_transport t s then 1 else 0)
set_count-left s t counts = elim (Bool-cases (same_transport t s)) [
  | inl equal ↦ rw equal (ap (λ x. counts x - 1) (same_transport-equal t s equal))
  | inr different ↦ rw different (omega arith)
]

pub transports-left :
    (s : Transport) (own : Option Transport) (ingress : Bool) (c : Connections)
    → (without_transport own ingress c).transports s ≡ c.transports s - transport_is s own
transports-left s none ingress c = omega arith
transports-left s (some t) ingress c = set_count-left s t c.transports

pub device_transports-left :
    (s : Transport) (own : Option Transport) (ingress : Bool) (c : Connections)
    → (without_transport own ingress c).device_transports s
      ≡ c.device_transports s - (if ingress then transport_is s own else 0)
device_transports-left s none ingress c = ground arith
device_transports-left s (some t) true c = set_count-left s t c.device_transports
device_transports-left s (some t) false c = omega arith
