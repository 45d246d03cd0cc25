-- ===== src/Device.antt =====
-- simulator/device.py: one device with its two workers, and `send_frames` of simulator/faults.py.
-- A worker is a state machine over the events of its queue: where the source awaits a Flow Control
-- frame, the state holds the frames that are still to be sent. Both workers share one store, and
-- their events may come in any order. Delays have no effect on what is sent and in which order.
pub mod Clients
pub mod Doip
pub mod Health
pub mod Reads
pub mod Responding
pub mod Serving
pub mod Requests
pub mod Received
pub mod Linear
pub mod Sharing
pub mod Sending
pub mod Register
mod Tests
use e3on_canserver.Base.{
  Result, ok, err, ℕ, ◌+◌, ◌/◌, ◌^◌, Bool, true, false, Option, none, some, List, [], ◌∷◌, ◌++◌,
  map, ◌==◌, if◌then◌else◌,
}
use e3on_canserver.Base.Dict.{Dict}
use e3on_canserver.Isotp.{Bytes, segment, Assembler, reset, Fed, feed}
use e3on_canserver.Datastore.{DatapointStore}
use e3on_canserver.Uds.{ProtocolHandler, handle_uds}
use e3on_canserver.Service77.{s77_request_id_offset, s77_response_id_offset, handle_service77}
use e3on_canserver.Faults.Config.{FaultConfig, Draws, maybe_inject}
use e3on_canserver.Bus.{register_rx}

abbrev pub uds_response_id_offset : ℕ
uds_response_id_offset = 0x10

-- A frame on the bus: its CAN-ID and its data.
abbrev pub Sent : Type 0
Sent = ℕ × Bytes

-- What a worker's queue shows it: a frame, with the draws for the response that it may lead to, or
-- that for one second no frame came.
pub data Event : Type 0 where
  frame : Bytes → Draws → Event
  silence : Event

-- `waiting` holds the Consecutive Frames behind a First Frame that has been sent. A worker whose
-- task has ended by an exception is not alive.
pub record Worker : Type 0 where
  pub assembler : Assembler
  pub waiting : Option (List Bytes)
  pub alive : Bool

-- What a worker's step changes: the worker, the store, and the frames sent, oldest first.
abbrev pub Stepped : Type 0
Stepped = Worker × DatapointStore × List Sent

abbrev pub to_id : ℕ → List Bytes → List Sent
to_id id = map (λ f. (id, f))

-- `send_frames` with a Flow Control waiter, after the injection: a single frame is sent and done,
-- of several the first is sent and the others wait. `frames[0]` of no frames raises.
unfoldable pub send_frames : ℕ → Worker → DatapointStore → List Bytes → Stepped
send_frames id w s [] = (record w { alive = false }, s, [])
send_frames id w s (f ∷ []) = (w, s, (id, f) ∷ [])
send_frames id w s (f ∷ g ∷ rest) = (record w { waiting = some (g ∷ rest) }, s, (id, f) ∷ [])

-- `_handle_payload`, once the handler has answered.
unfoldable pub respond : FaultConfig → Draws → ℕ → Worker → DatapointStore × Option Bytes → Stepped
unfolding send_frames
respond c d id w (s, none) = (w, s, [])
respond c d id w (s, some response) = elim (segment response) [
  | err e ↦ (record w { alive = false }, s, [])
  | ok frames ↦ send_frames id w s (maybe_inject c d frames)
]

abbrev pub fc_sent : ℕ → Option Bytes → List Sent
fc_sent id none = []
fc_sent id (some fc) = (id, fc) ∷ []

-- The frames of `rest` behind those of `first`.
abbrev pub sent_after : List Sent → Stepped → Stepped
sent_after first r = (r.0, r.1, first ++ r.2)

-- `_process_frame` for what the assembler made of the frame.
unfoldable pub process_fed :
    ProtocolHandler → FaultConfig → Draws → ℕ → Worker → DatapointStore → Result Fed → Stepped
unfolding respond
process_fed handler c d id w s (err e) = (record w { alive = false }, s, [])
process_fed handler c d id w s (ok (a, none, fc)) = (record w { assembler = a }, s, fc_sent id fc)
process_fed handler c d id w s (ok (a, some payload, fc)) =
    sent_after (fc_sent id fc) (respond c d id (record w { assembler = a }) (handler payload s))

-- The end of `send_frames`, where the waiter of `_make_fc_waiter` has received a frame: any frame
-- that is no Flow Control frame ends the response and is lost; `data[0]` of no data raises.
unfoldable pub resume : ℕ → Worker → DatapointStore → List Bytes → Bytes → Stepped
resume id w s cfs [] = (record w { alive = false }, s, [])
resume id w s cfs (b0 ∷ rest) =
    if b0 / 2 ^ 4 == 0x3
    then (record w { waiting = none }, s, to_id id cfs)
    else (record w { waiting = none }, s, [])

-- One event of the queue for a living worker, idle or waiting.
unfoldable pub take_event :
    ProtocolHandler
    → FaultConfig
    → ℕ
    → Worker
    → DatapointStore
    → Option (List Bytes)
    → Event
    → Stepped
unfolding process_fed resume
take_event handler c id w s none silence = (w, s, [])
take_event handler c id w s none (frame data_bytes d) =
    process_fed handler c d id w s (feed w.assembler data_bytes)
take_event handler c id w s (some cfs) silence = (record w { waiting = none }, s, [])
take_event handler c id w s (some cfs) (frame data_bytes d) = resume id w s cfs data_bytes

-- One round of `_run`; a task that has ended takes nothing from its queue.
unfoldable pub worker_step :
    ProtocolHandler → FaultConfig → ℕ → Worker → DatapointStore → Event → Stepped
unfolding take_event
worker_step handler c id w s e =
    if w.alive then take_event handler c id w s w.waiting e else (w, s, [])

pub record SimulatedDevice : Type 0 where
  pub tx_id : ℕ
  pub protected : List ℕ
  pub config : FaultConfig
  pub store : DatapointStore
  pub uds : Worker
  pub s77 : Worker

abbrev pub idle : Worker
idle = record { assembler = reset; waiting = none; alive = true }

-- `__init__` for a store that has been loaded.
unfoldable pub make_device : ℕ → List ℕ → FaultConfig → DatapointStore → SimulatedDevice
make_device tx_id protected config store = record {
  tx_id = tx_id;
  protected = protected;
  config = config;
  store = store;
  uds = idle;
  s77 = idle;
}

-- The two queues.
pub data Channel : Type 0 where
  on_uds on_s77 : Channel

-- `rx_id` and `s77_rx_id`
abbrev pub response_id : SimulatedDevice → Channel → ℕ
response_id dev on_uds = dev.tx_id + uds_response_id_offset
response_id dev on_s77 = dev.tx_id + s77_response_id_offset

-- `register`: the two callbacks, of the device with this number, that put frames in its queues.
unfoldable pub register : SimulatedDevice → ℕ → Dict (ℕ × Channel) → Dict (ℕ × Channel)
register dev number callbacks =
    register_rx (register_rx callbacks dev.tx_id (number, on_uds))
      (dev.tx_id + s77_request_id_offset) (number, on_s77)

unfoldable pub device_step : SimulatedDevice → Channel → Event → SimulatedDevice × List Sent
unfolding worker_step
device_step dev on_uds e =
    let (w, s, sent) =
      worker_step (handle_uds dev.protected) dev.config (response_id dev on_uds) dev.uds dev.store
        e in
    (record dev { uds = w; store = s }, sent)
device_step dev on_s77 e =
    let (w, s, sent) =
      worker_step handle_service77 dev.config (response_id dev on_s77) dev.s77 dev.store e in
    (record dev { s77 = w; store = s }, sent)

-- The device over a sequence of events of both queues.
unfoldable pub run : SimulatedDevice → List (Channel × Event) → SimulatedDevice × List Sent
unfolding device_step
run dev [] = (dev, [])
run dev ((c, e) ∷ es) =
    let (dev', sent) = device_step dev c e in
    let (dev'', later) = run dev' es in (dev'', sent ++ later)
