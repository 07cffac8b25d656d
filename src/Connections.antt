-- ===== src/Connections.antt =====
-- The admission of connections: `Connections`, `ConnectionLease` and `PendingConnectionLease` of
-- crates/netbaiot-runtime/src/quota.rs. A semaphore is the number of its free permits; a lease is a
-- value that its connection holds, and an operation that takes it by value drops it where it fails.
pub mod Ledger
mod Counting
mod Changes
mod History
mod Leak
mod Runs
use netbaiot.Prelude.{
  Result, ℕ, zero, suc, ◌+◌, ◌-◌, ◌*◌, ◌/◌, ◌%◌, ◌^◌, ◌≤◌, ◌<◌, min, max, ◌≡◌, refl, sym, ap, ◌∙◌,
  ◌≢◌, ◌↔◌, ◌⊎◌, inl, inr, Bool, true, false, not, ◌&&◌, ◌||◌, Option, none, some, List, [], ◌∷◌,
  ◌++◌, map, arith, ltb, leb, ◌==◌, if◌then◌else◌, leb→le, ltb→lt, ==_iff, Bool-cases, Option-cases,
  Eq, nat_eq, str_eq, str_eq_iff, string_eq, length, get_elem?, take, drop, All, length-append,
  take-append-drop, take-append, drop-append, length-take, length-drop, ok, err, ◌>>=◌, ◌>>◌,
  ensure, ok_or, Result-cases, usize_limit, checked_add, checked_mul, checked_sub, wrapping_sub,
  saturating_add, lt_wf,
}
use netbaiot.Prelude.Map.{lookup, insert, remove}
use netbaiot.Message.{DeviceKey, device_key_eq}

pub data Transport : Type 0 where
  mqtt : Transport
  tcp : Transport
  udp : Transport

abbrev pub same_transport : Transport → Transport → Bool
same_transport mqtt mqtt = true
same_transport mqtt tcp = false
same_transport mqtt udp = false
same_transport tcp mqtt = false
same_transport tcp tcp = true
same_transport tcp udp = false
same_transport udp mqtt = false
same_transport udp tcp = false
same_transport udp udp = true

pub data QuotaError : Type 0 where
  overloaded : QuotaError
  invalid : QuotaError
  forbidden : QuotaError

pub record QuotaLimits : Type 0 where
  pub max_connections : ℕ
  pub global_connection_logical_bytes : ℕ
  pub connection_memory_reservation : ℕ
  pub max_connections_per_ip : ℕ
  pub max_connections_per_tenant : ℕ
  pub max_connections_per_device : ℕ
  pub max_device_connections_per_protocol : ℕ
  pub max_connection_bytes_per_tenant : ℕ

pub record TenantConnections : Type 0 where
  pub connections : ℕ
  pub read_bytes : ℕ

-- `ConnectionCounts` with the two semaphores of `Connections`; `[usize; 3]` is a function.
pub record Connections : Type 0 where
  pub slots : ℕ
  pub memory : ℕ
  pub ips : List (ℕ × ℕ)
  pub tenants : List (List ℕ × TenantConnections)
  pub devices : List (DeviceKey × ℕ)
  pub transports : Transport → ℕ
  pub device_transports : Transport → ℕ

pub record ReadAllocationState : Type 0 where
  pub tenant : Option (List ℕ)
  pub capacity : ℕ
  pub replacing : Bool

pub record ConnectionLease : Type 0 where
  pub ip : ℕ
  pub device : Option DeviceKey
  pub transport : Option Transport
  pub device_ingress : Bool
  pub read_state : Option ReadAllocationState

abbrev pub new_connections : QuotaLimits → Connections
new_connections limits = record {
  slots = limits.max_connections;
  memory = limits.global_connection_logical_bytes;
  ips = [];
  tenants = [];
  devices = [];
  transports = λ t. 0;
  device_transports = λ t. 0;
}

abbrev pub count_or_zero : Option ℕ → ℕ
count_or_zero none = 0
count_or_zero (some n) = n

abbrev pub tenant_or_default : Option TenantConnections → TenantConnections
tenant_or_default none = record { connections = 0; read_bytes = 0 }
tenant_or_default (some t) = t

-- `counts[transport as usize] = value`
abbrev pub set_count : Transport → ℕ → (Transport → ℕ) → Transport → ℕ
set_count transport value counts t = if same_transport transport t then value else counts t

abbrev pub new_lease : ℕ → Bool → ConnectionLease
new_lease ip device_ingress = record {
  ip = ip;
  device = none;
  transport = none;
  device_ingress = device_ingress;
  read_state = none;
}

-- `ByteBudget::reserve` takes a `u32` of permits.
abbrev pub can_reserve : ℕ → ℕ → Bool
can_reserve available bytes = ltb bytes (2 ^ 32) && leb bytes available

-- The permits of a slot and of bytes go back when their guards are dropped.
abbrev pub drop_slot : Connections → Connections
drop_slot c = record c { slots = c.slots + 1 }

abbrev pub drop_bytes : ℕ → Connections → Connections
drop_bytes bytes c = record c { memory = c.memory + bytes }

-- An early return drops the permits acquired before it; a refused address leaves its entry.
unfoldable pub reserve_connection :
    QuotaLimits → Connections → ℕ → Bool → Connections × Result QuotaError ConnectionLease
reserve_connection limits c ip device_ingress =
    let bytes = limits.connection_memory_reservation in
    let slotted = record c { slots = c.slots - 1 } in
    let held = record slotted { memory = slotted.memory - bytes } in
    let count = count_or_zero (lookup ip held.ips) in
    if c.slots == 0
    then (c, err overloaded)
    else (if not (can_reserve slotted.memory bytes)
        then (drop_slot slotted, err overloaded)
        else (if leb limits.max_connections_per_ip count
            then (
              drop_slot (drop_bytes bytes (record held { ips = insert ip count held.ips })),
              err overloaded,
            )
            else (
              record held { ips = insert ip (count + 1) held.ips },
              ok (new_lease ip device_ingress),
            )))

abbrev pub decremented : {K : Type 0} ⦃e : Eq K⦄ → K → Option ℕ → List (K × ℕ) → List (K × ℕ)
decremented key none counts = counts
decremented key (some count) counts =
    if (count - 1) == 0 then remove key counts else insert key (count - 1) counts

unfoldable pub decrement : {K : Type 0} ⦃e : Eq K⦄ → List (K × ℕ) → K → List (K × ℕ)
decrement counts key = decremented key (lookup key counts) counts

-- The tenant's entry after a connection left, pruned where nothing is left of it.
abbrev pub left_tenant :
    List ℕ
    → Option TenantConnections
    → List (List ℕ × TenantConnections)
    → List (List ℕ × TenantConnections)
left_tenant tenant none tenants = tenants
left_tenant tenant (some t) tenants =
    if ((t.connections - 1) == 0) && (t.read_bytes == 0)
    then remove tenant tenants
    else insert tenant (record t { connections = t.connections - 1 }) tenants

abbrev pub without_device : Option DeviceKey → Connections → Connections
without_device none c = c
without_device (some device) c = record c {
  tenants = left_tenant device.tenant_id (lookup device.tenant_id c.tenants) c.tenants;
  devices = decrement c.devices device;
}

abbrev pub without_transport : Option Transport → Bool → Connections → Connections
without_transport none device_ingress c = c
without_transport (some t) device_ingress c = record c {
  transports = set_count t (c.transports t - 1) c.transports;
  device_transports =
      if device_ingress
      then set_count t (c.device_transports t - 1) c.device_transports
      else c.device_transports;
}

-- `Drop for ConnectionLease`, and then of its two permits.
unfoldable pub drop_lease : QuotaLimits → Connections → ConnectionLease → Connections
drop_lease limits c lease =
    let counted =
      without_transport lease.transport lease.device_ingress
        (without_device lease.device (record c { ips = decrement c.ips lease.ip })) in
    record counted {
      slots = counted.slots + 1;
      memory = counted.memory + limits.connection_memory_reservation;
    }

abbrev pub taken_for_management :
    QuotaLimits
    → Connections
    → ConnectionLease
    → Bool
    → Connections × Result QuotaError ConnectionLease
taken_for_management limits c lease true = (drop_lease limits c lease, err invalid)
taken_for_management limits c lease false = (c, ok lease)

abbrev pub into_management :
    QuotaLimits → Connections → ConnectionLease → Connections × Result QuotaError ConnectionLease
into_management limits c lease = taken_for_management limits c lease lease.device_ingress

abbrev pub is_udp : Transport → Bool
is_udp mqtt = false
is_udp tcp = false
is_udp udp = true

-- The reasons to refuse a transport on a device listener.
abbrev pub check_transport :
    QuotaLimits → Connections → ConnectionLease → Transport → Result QuotaError (Unit {0})
check_transport limits c lease transport =
    if not lease.device_ingress
    then ok tt
    else (if is_udp transport
        then err invalid
        else ensure
            (not (leb limits.max_device_connections_per_protocol (c.device_transports transport)))
            overloaded)

abbrev pub classified :
    Connections → ConnectionLease → Transport → Connections × Result QuotaError ConnectionLease
classified c lease transport = (
  record c {
    transports = set_count transport (c.transports transport + 1) c.transports;
    device_transports =
        if lease.device_ingress
        then set_count transport (c.device_transports transport + 1) c.device_transports
        else c.device_transports;
  },
  ok (record lease { transport = some transport }),
)

abbrev pub classification :
    QuotaLimits
    → Connections
    → ConnectionLease
    → Transport
    → Result QuotaError (Unit {0})
    → Connections × Result QuotaError ConnectionLease
classification limits c lease transport (err e) = (drop_lease limits c lease, err e)
classification limits c lease transport (ok u) = classified c lease transport

unfoldable pub classify :
    QuotaLimits
    → Connections
    → ConnectionLease
    → Transport
    → Connections × Result QuotaError ConnectionLease
classify limits c lease transport =
    classification limits c lease transport (check_transport limits c lease transport)

-- The bytes of the reader that the tenant takes over.
abbrev pub newly_bound_bytes : Option ReadAllocationState → List ℕ → Result QuotaError ℕ
newly_bound_bytes none tenant = ok 0
newly_bound_bytes (some (record_state)) tenant = elim record_state.tenant [
  | none ↦ ok record_state.capacity
  | some id ↦ if str_eq id tenant then ok 0 else err forbidden
]

abbrev pub bound : Option ReadAllocationState → List ℕ → Option ReadAllocationState
bound none tenant = none
bound (some state) tenant = some (record state { tenant = some tenant })

-- The tests of a first authentication, and the tenant's read bytes after it.
unfoldable pub admit_device :
    QuotaLimits → Connections → ConnectionLease → DeviceKey → Result QuotaError ℕ
admit_device limits c lease device = do
  let tenant = tenant_or_default (lookup device.tenant_id c.tenants)
  ensure
      (not (
        leb limits.max_connections_per_tenant tenant.connections
        || leb limits.max_connections_per_device (count_or_zero (lookup device c.devices))))
      overloaded
  bytes ← newly_bound_bytes lease.read_state device.tenant_id
  read_bytes ← ok_or (checked_add tenant.read_bytes bytes) overloaded
  count ← ok_or (checked_add tenant.connections 1) overloaded
  fixed ← ok_or (checked_mul count limits.connection_memory_reservation) overloaded
  next ← ok_or (checked_add fixed read_bytes) overloaded
  ensure (leb next limits.max_connection_bytes_per_tenant) overloaded
  ok read_bytes

abbrev pub authenticated :
    Connections
    → ConnectionLease
    → DeviceKey
    → ℕ
    → Connections × (ConnectionLease × Result QuotaError (Unit {0}))
authenticated c lease device read_bytes = (
  record c {
    tenants =
        insert device.tenant_id
          (record {
            connections = (tenant_or_default (lookup device.tenant_id c.tenants)).connections + 1;
            read_bytes = read_bytes;
          })
          c.tenants;
    devices = insert device (count_or_zero (lookup device c.devices) + 1) c.devices;
  },
  (
    record lease { device = some device; read_state = bound lease.read_state device.tenant_id },
    ok tt,
  ),
)

abbrev pub first_authentication :
    Connections
    → ConnectionLease
    → DeviceKey
    → Result QuotaError ℕ
    → Connections × (ConnectionLease × Result QuotaError (Unit {0}))
first_authentication c lease device (err e) = (c, (lease, err e))
first_authentication c lease device (ok read_bytes) = authenticated c lease device read_bytes

abbrev pub authentication :
    QuotaLimits
    → Connections
    → ConnectionLease
    → DeviceKey
    → Option DeviceKey
    → Connections × (ConnectionLease × Result QuotaError (Unit {0}))
authentication limits c lease device none =
    first_authentication c lease device (admit_device limits c lease device)
authentication limits c lease device (some own) =
    if device_key_eq.beq own device then (c, (lease, ok tt)) else (c, (lease, err forbidden))

unfoldable pub authenticate :
    QuotaLimits
    → Connections
    → ConnectionLease
    → DeviceKey
    → Connections × (ConnectionLease × Result QuotaError (Unit {0}))
authenticate limits c lease device = authentication limits c lease device lease.device
