-- ===== src/Connections/Leak.antt =====
-- No history of connections of crates/netbaiot-runtime/src/quota.rs loses or keeps a permit.
use netbaiot.Prelude.{
  Result, ℕ, ◌≡◌, refl, inl, inr, Bool, true, false, Option, none, some, List, [], ◌∷◌, arith,
  Bool-cases, nat_eq, string_eq, ok, err,
}
use netbaiot.Prelude.Map.{lookup, insert, insert-Distinct}
use netbaiot.Message.{DeviceKey, device_key_eq}
use netbaiot.Connections.{
  Transport, QuotaError, QuotaLimits, Connections, ConnectionLease, new_connections,
  check_transport, classification, classify, admit_device, first_authentication, authentication,
  authenticate, into_management, taken_for_management,
}
use netbaiot.Connections.Ledger.{
  Leases, one, held_bytes, at_ip, of_device, of_tenant, on_transport, device_on_transport,
  IsCounted,
}
use netbaiot.Connections.Counting.{with_entry, drop_lease-IsCounted}
use netbaiot.Connections.Changes.{classified-IsCounted, authenticated-IsCounted}
use netbaiot.Connections.History.{
  Call, open_call, classify_call, manage_call, authenticate_call, close_call, settled,
  while_pending, classify_at, manage_at, authenticate_at, close_at, step, run, Counts,
  new-IsCounted, open_at-Counts,
}

module _ (limits : QuotaLimits) (c : Connections) (leases : Leases) (id : ℕ)
    (counted : IsCounted limits c leases) where
  same-IsCounted :
      (lease : ConnectionLease)
      → lookup id leases ≡ some lease
      → IsCounted limits c (insert id lease leases)
  same-IsCounted lease found =
      let put = λ (w : ℕ → ConnectionLease → ℕ). with_entry w id (some lease) lease leases found in
      record {
        distinct = insert-Distinct id lease leases counted.distinct;
        slots = omega (arith, put one, counted.slots);
        memory = omega (arith, put (held_bytes limits), counted.memory);
        ips = λ ip. omega (arith, put (at_ip ip), counted.ips ip);
        devices = λ device. omega (arith, put (of_device device), counted.devices device);
        tenants = λ tenant. omega (arith, put (of_tenant tenant), counted.tenants tenant);
        transports = λ s. omega (arith, put (on_transport s), counted.transports s);
        device_transports =
            λ s. omega (arith, put (device_on_transport s), counted.device_transports s);
      }

  classification-Counts :
      (lease : ConnectionLease) (t : Transport) (checked : Result QuotaError (Unit {0}))
      → lookup id leases ≡ some lease
      → lease.transport ≡ none
      → Counts limits (settled id leases (classification limits c lease t checked))
  classification-Counts lease t (err e) found pending =
      drop_lease-IsCounted limits c leases id lease counted found
  classification-Counts lease t (ok u) found pending =
      classified-IsCounted limits c leases id lease t counted found pending

  pending-Counts :
      (transport : Option Transport) (changed : Connections × Leases)
      → (transport ≡ none → Counts limits changed)
      → Counts limits (while_pending transport changed (c, leases))
  pending-Counts none changed h = h refl
  pending-Counts (some t) changed h = counted

  classify_at-Counts :
      (t : Transport) (found : Option ConnectionLease)
      → lookup id leases ≡ found
      → Counts limits (classify_at limits c leases id t found)
  unfolding classify
  classify_at-Counts t none found = counted
  classify_at-Counts t (some lease) found =
      pending-Counts lease.transport (settled id leases (classify limits c lease t))
        (classification-Counts lease t (check_transport limits c lease t) found)

  taken-Counts :
      (lease : ConnectionLease) (device_ingress : Bool)
      → lookup id leases ≡ some lease
      → Counts limits (settled id leases (taken_for_management limits c lease device_ingress))
  taken-Counts lease true found = drop_lease-IsCounted limits c leases id lease counted found
  taken-Counts lease false found = same-IsCounted lease found

  manage_at-Counts :
      (found : Option ConnectionLease)
      → lookup id leases ≡ found
      → Counts limits (manage_at limits c leases id found)
  manage_at-Counts none found = counted
  manage_at-Counts (some lease) found =
      pending-Counts lease.transport (settled id leases (into_management limits c lease))
        (λ pending. taken-Counts lease lease.device_ingress found)

  first-IsCounted :
      (lease : ConnectionLease) (device : DeviceKey) (admitted : Result QuotaError ℕ)
      → lookup id leases ≡ some lease
      → lease.device ≡ none
      → IsCounted limits
          (first_authentication c lease device admitted).0
          (insert id (first_authentication c lease device admitted).1.0 leases)
  first-IsCounted lease device (err e) found anonymous = same-IsCounted lease found
  first-IsCounted lease device (ok read_bytes) found anonymous =
      authenticated-IsCounted limits c leases id lease device read_bytes counted found anonymous

  authentication-IsCounted :
      (lease : ConnectionLease) (device : DeviceKey) (own : Option DeviceKey)
      → lookup id leases ≡ some lease
      → lease.device ≡ own
      → IsCounted limits
          (authentication limits c lease device own).0
          (insert id (authentication limits c lease device own).1.0 leases)
  authentication-IsCounted lease device none found h =
      first-IsCounted lease device (admit_device limits c lease device) found h
  authentication-IsCounted lease device (some own) found h =
      elim (Bool-cases (device_key_eq.beq own device)) [
        | inl same ↦ rw same (same-IsCounted lease found)
        | inr other ↦ rw other (same-IsCounted lease found)
      ]

  authenticate_at-Counts :
      (device : DeviceKey) (found : Option ConnectionLease)
      → lookup id leases ≡ found
      → Counts limits (authenticate_at limits c leases id device found)
  unfolding authenticate
  authenticate_at-Counts device none found = counted
  authenticate_at-Counts device (some lease) found =
      authentication-IsCounted lease device lease.device found refl

  close_at-Counts :
      (found : Option ConnectionLease)
      → lookup id leases ≡ found
      → Counts limits (close_at limits c leases id found)
  close_at-Counts none found = counted
  close_at-Counts (some lease) found = drop_lease-IsCounted limits c leases id lease counted found

step-Counts :
    (limits : QuotaLimits) (state : Connections × Leases) (call : Call)
    → Counts limits state
    → Counts limits (step limits state call)
unfolding step
step-Counts limits (c, leases) (open_call id ip ingress) counted =
    open_at-Counts limits c leases id ip ingress (lookup id leases) counted refl
step-Counts limits (c, leases) (classify_call id t) counted =
    classify_at-Counts limits c leases id counted t (lookup id leases) refl
step-Counts limits (c, leases) (manage_call id) counted =
    manage_at-Counts limits c leases id counted (lookup id leases) refl
step-Counts limits (c, leases) (authenticate_call id device) counted =
    authenticate_at-Counts limits c leases id counted device (lookup id leases) refl
step-Counts limits (c, leases) (close_call id) counted =
    close_at-Counts limits c leases id counted (lookup id leases) refl

run-Counts :
    (limits : QuotaLimits) (calls : List Call) (state : Connections × Leases)
    → Counts limits state
    → Counts limits (run limits state calls)
unfolding run
run-Counts limits [] state counted = counted
run-Counts limits (call ∷ calls) state counted =
    run-Counts limits calls (step limits state call) (step-Counts limits state call counted)

-- After any history of opening, classifying, authenticating, taking for management and closing
-- connections, failures included: each counter of addresses, devices, tenants and transports is the
-- number of the live leases that it is for, and slots and memory are the limits less what these hold.
pub new-run-Counts :
    (limits : QuotaLimits) (calls : List Call)
    → Counts limits (run limits (new_connections limits, []) calls)
new-run-Counts limits calls =
    run-Counts limits calls (new_connections limits, []) (new-IsCounted limits)
