-- ===== src/Connections/Runs.antt =====
-- Connections at concrete inputs.
use netbaiot.Prelude.{true, false, List, [], ◌∷◌, nat_eq, string_eq}
use netbaiot.Message.{DeviceKey, device_key_eq}
use netbaiot.Connections.{QuotaLimits, mqtt, udp, new_connections}
use netbaiot.Connections.History.{
  Call, open_call, classify_call, manage_call, authenticate_call, close_call, run, Counts,
}
use netbaiot.Connections.Leak.{new-run-Counts}

abbrev limits : QuotaLimits
limits = record {
  max_connections = 3;
  global_connection_logical_bytes = 100;
  connection_memory_reservation = 30;
  max_connections_per_ip = 2;
  max_connections_per_tenant = 1;
  max_connections_per_device = 1;
  max_device_connections_per_protocol = 2;
  max_connection_bytes_per_tenant = 60;
}

abbrev device : DeviceKey
device = record { tenant_id = 116 ∷ []; product_id = 112 ∷ []; device_id = 100 ∷ [] }

-- The second connection is refused on UDP, the third is refused to be a second one of its tenant.
abbrev calls : List Call
calls =
    open_call 1 7 true
    ∷ classify_call 1 mqtt
    ∷ authenticate_call 1 device
    ∷ open_call 2 7 true
    ∷ classify_call 2 udp
    ∷ open_call 3 7 false
    ∷ manage_call 3
    ∷ authenticate_call 3 device
    ∷ close_call 1
    ∷ []

new-run-Counts_example : Counts limits (run limits (new_connections limits, []) calls)
new-run-Counts_example = new-run-Counts limits calls
