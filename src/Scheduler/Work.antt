-- ===== src/Scheduler/Work.antt =====
-- `take_data` of crates/netbaiot-rpc-mux/src/lib.rs passes over no stream that can send.
use netbaiot.Prelude.{◌≡◌, Option, some, nat_eq, string_eq}
use netbaiot.Scheduler.{Frame, MuxScheduler}

-- A round or a call that gives out a frame.
abbrev pub Gives : MuxScheduler × Option Frame → Type 0
Gives answer = (frame : Frame) × (answer.1 ≡ some frame)
