-- ===== src/RpcWire/Negotiation.antt =====
-- Limits of crates/netbaiot-protocol/src/business_rpc/wire.rs: what two peers agree on.
use netbaiot.Prelude.{◌≤◌, ◌<◌, ◌≡◌, ◌↔◌, arith, nat_eq, string_eq, ok}
use netbaiot.RpcWire.{RpcLimits, validate, negotiate, narrowest}

-- The bounds that a validated set of limits is known to keep.
pub record AreSound (l : RpcLimits) : Type 0 where
  pub frame_least : 4096 ≤ l.max_frame_payload_bytes
  pub frame_most : l.max_frame_payload_bytes ≤ 16384
  pub streams_least : 0 < l.max_concurrent_streams
  pub streams_most : l.max_concurrent_streams ≤ 4096
  pub frame_fits_stream : l.max_frame_payload_bytes ≤ l.initial_stream_window_bytes
  pub stream_fits_connection : l.initial_stream_window_bytes ≤ l.initial_connection_window_bytes
  pub connection_most : l.initial_connection_window_bytes ≤ 0x7fff_ffff
  pub beats : 0 < l.heartbeat_ms
  pub beats_most : l.heartbeat_ms ≤ 60_000

pub validate-AreSound : (l : RpcLimits) → (validate l ≡ ok tt) ↔ AreSound l
unfolding validate
validate-AreSound l = (λ h. ground arith, λ h. ground arith)

narrowest-AreSound :
    (own peer : RpcLimits) → AreSound own → AreSound peer → AreSound (narrowest own peer)
narrowest-AreSound own peer so sp = omega arith

narrowest_comm : (own peer : RpcLimits) → narrowest own peer ≡ narrowest peer own
narrowest_comm own peer = ground arith

-- No size and no number of streams is larger, and the heartbeat is no shorter.
abbrev pub Narrows : RpcLimits → RpcLimits → Type 0
Narrows agreed l =
    (agreed.max_frame_payload_bytes ≤ l.max_frame_payload_bytes)
    × (agreed.max_concurrent_streams ≤ l.max_concurrent_streams)
    × (agreed.initial_stream_window_bytes ≤ l.initial_stream_window_bytes)
    × (agreed.initial_connection_window_bytes ≤ l.initial_connection_window_bytes)
    × (l.heartbeat_ms ≤ agreed.heartbeat_ms)

-- Two peers with valid limits always agree: the last check cannot fail, both sides come to the same
-- limits, these are valid, and no size and no number of streams of them exceeds either peer's while the
-- heartbeat is no shorter than either's.
pub negotiate_agrees :
    (own peer : RpcLimits)
    → validate own ≡ ok tt
    → validate peer ≡ ok tt
    → (agreed : RpcLimits) × (negotiate own peer ≡ ok agreed)
      × (negotiate peer own ≡ ok agreed)
      × (validate agreed ≡ ok tt)
      × Narrows agreed own
      × Narrows agreed peer
unfolding negotiate
negotiate_agrees own peer ho hp =
    let so = (validate-AreSound own).0 ho in
    let sp = (validate-AreSound peer).0 hp in
    let valid : validate (narrowest own peer) ≡ ok tt =
      (validate-AreSound (narrowest own peer)).1 (narrowest-AreSound own peer so sp) in
    (
      narrowest own peer,
      rw (ho, hp, valid),
      rw (hp, ho, narrowest_comm peer own, valid),
      valid,
      (omega arith, omega arith, omega arith, omega arith, omega arith),
      (omega arith, omega arith, omega arith, omega arith, omega arith),
    )
