-- ===== src/Lifecycle.antt =====
-- The start and the end of the program: `run`, `_run_can` and `_run_doip` of main.py with the
-- `start` and `stop` of simulator/bus.py, simulator/device.py, simulator/cyclic.py,
-- simulator/energy_meter.py and simulator/doip.py. What asyncio keeps of a task is whether it runs
-- and how it ended; an `async def` that may raise gives its state and the exception.
pub mod Stopping
pub mod Shutdown
mod Tests
use mathlib.Core.Option
use e3on_canserver.Base.{
  Exc, file_not_found, Result, ok, err, ℕ, Bool, true, false, ◌&&◌, not, Option, none, some, List,
  [], ◌∷◌, ◌++◌, map, if◌then◌else◌, replicate,
}
use e3on_canserver.Base.Int.{ℤ}
use e3on_canserver.Isotp.{Bytes}
use e3on_canserver.Datastore.File.{Text}
use e3on_canserver.Device.{SimulatedDevice}
use e3on_canserver.Doip.Server.{ConnectionEvent, ServerState, serve_events}
use e3on_canserver.Main.{device_map, parse_doip_address}

-- A task: it runs, it has been cancelled, or an exception has ended it.
pub data Task : Type 0 where
  running cancelled : Task
  failed : Exc → Task

-- `task.cancel()` with the loop's next round: a task that has ended stays as it is.
abbrev pub cancel : Task → Task
cancel running = cancelled
cancel cancelled = cancelled
cancel (failed e) = failed e

-- `await task` under a handler for CancelledError: any other exception goes on.
abbrev pub await_task : Task → Option Exc
await_task running = none
await_task cancelled = none
await_task (failed e) = some e

-- A task, if there is one, is cancelled and awaited.
abbrev pub stop_task : Option Task → Option Task × Option Exc
stop_task none = (none, none)
stop_task (some t) = (some (cancel t), await_task (cancel t))

-- What runs behind a call that may have raised.
abbrev pub unless_raised {ℓ} : {A : Type ℓ} → A × Option Exc → (A → A × Option Exc) → A × Option Exc
unless_raised (a, some e) next = (a, some e)
unless_raised (a, none) next = next a

-- `asyncio.gather(*tasks, return_exceptions=True)` behind a `cancel` of each: every task ends, and
-- what it raised is dropped.
abbrev pub cancel_all : List Task → List Task
cancel_all [] = []
cancel_all (t ∷ ts) = cancel t ∷ cancel_all ts

-- `CyclicTask`: the number of its messages, its tasks, and the tasks that it has had and refers to
-- no more, which asyncio goes on with until they end.
pub record CyclicTasks : Type 0 where
  pub messages : ℕ
  pub tasks : List Task
  pub past : List Task

-- `CyclicTask.start`: one task more for each message.
unfoldable pub start_cyclic : CyclicTasks → CyclicTasks
start_cyclic c = record c { tasks = c.tasks ++ replicate c.messages running }

-- `CyclicTask.stop`: the tasks are cancelled and awaited, then the list is cleared.
unfoldable pub stop_cyclic : CyclicTasks → CyclicTasks
stop_cyclic c = record c { tasks = []; past = cancel_all c.tasks ++ c.past }

pub record DeviceTasks : Type 0 where
  pub uds_task : Option Task
  pub s77_task : Option Task
  pub cyclic_task : Option CyclicTasks

-- `SimulatedDevice.start`
unfoldable pub start_device : DeviceTasks → DeviceTasks
unfolding start_cyclic
start_device d = record {
  uds_task = some running;
  s77_task = some running;
  cyclic_task = Option.map start_cyclic d.cyclic_task;
}

-- `SimulatedDevice.stop`, the loop over its two worker tasks.
unfoldable pub stop_s77 : DeviceTasks → DeviceTasks × Option Exc
stop_s77 d = let (t, raised) = stop_task d.s77_task in (record d { s77_task = t }, raised)

unfoldable pub stop_uds : DeviceTasks → DeviceTasks × Option Exc
stop_uds d = let (t, raised) = stop_task d.uds_task in (record d { uds_task = t }, raised)

unfoldable pub stop_device : DeviceTasks → DeviceTasks × Option Exc
unfolding stop_cyclic stop_uds stop_s77
stop_device d =
    let d' : DeviceTasks = record d { cyclic_task = Option.map stop_cyclic d.cyclic_task } in
    unless_raised (stop_uds d') stop_s77

-- `EnergyMeterTask`: its task, and those that it has had and refers to no more.
pub record MeterTask : Type 0 where
  pub task : Option Task
  pub past : List Task

abbrev pub let_go : Option Task → List Task → List Task
let_go none past = past
let_go (some t) past = t ∷ past

-- `EnergyMeterTask.start`: a task in the place of the one before, which is not cancelled.
unfoldable pub start_meter : MeterTask → MeterTask
start_meter m = record { task = some running; past = let_go m.task m.past }

-- `EnergyMeterTask.stop`: the task, if there is one, is cancelled and awaited, what it raised is
-- dropped, and the reference is cleared.
unfoldable pub stop_meter : MeterTask → MeterTask
stop_meter m = record { task = none; past = let_go (Option.map cancel m.task) m.past }

-- `CANBus`: whether the interface is open, `_running`, and the transmit task. The receive thread
-- goes on while the interface is open and `_running` holds.
pub record BusState : Type 0 where
  pub is_open : Bool
  pub is_running : Bool
  pub tx_task : Option Task

abbrev pub new_bus : BusState
new_bus = record { is_open = false; is_running = false; tx_task = none }

abbrev pub receiving : BusState → Bool
receiving b = b.is_running && b.is_open

-- `CANBus.start`, with what opening the interface raised, if anything.
unfoldable pub start_bus : Option Exc → BusState → BusState × Option Exc
start_bus (some e) b = (b, some e)
start_bus none b = (record { is_open = true; is_running = true; tx_task = some running }, none)

-- `CANBus.stop`
unfoldable pub stop_bus : BusState → BusState × Option Exc
stop_bus b =
    let (t, raised) = stop_task b.tx_task in
    unless_raised (record b { is_running = false; tx_task = t }, raised)
      (λ b'. (record b' { is_open = false }, none))

-- The objects of CAN mode.
pub record Host : Type 0 where
  pub bus : BusState
  pub devices : List DeviceTasks
  pub meters : List MeterTask

-- `for device in devices: await device.stop()`
unfoldable pub stop_devices : List DeviceTasks → List DeviceTasks × Option Exc
unfolding stop_device
stop_devices [] = ([], none)
stop_devices (d ∷ ds) =
    let (d', raised) = stop_device d in
    unless_raised (d' ∷ ds, raised)
      (λ l. let (ds', raised') = stop_devices ds in (d' ∷ ds', raised'))

-- `_run_can` up to the wait for a signal: if the interface does not open, nothing is started.
unfoldable pub start_up : Option Exc → Host → Host × Option Exc
unfolding start_bus start_device start_meter
start_up opening h =
    let (b, raised) = start_bus opening h.bus in
    unless_raised (record h { bus = b }, raised)
      (λ h'. (
        record h' { devices = map start_device h'.devices; meters = map start_meter h'.meters },
        none,
      ))

-- `_run_can` behind the signal.
unfoldable pub shut_down : Host → Host × Option Exc
unfolding stop_devices stop_bus stop_meter
shut_down h =
    let (ds, raised) = stop_devices h.devices in
    unless_raised (record h { meters = map stop_meter h.meters; devices = ds }, raised)
      (λ h'. let (b, raised') = stop_bus h'.bus in (record h' { bus = b }, raised'))

abbrev pub unloaded : Host
unloaded = record { bus = new_bus; devices = []; meters = [] }

-- `_run_can`: what loading the configuration gives, what opening the interface raises, and what
-- happens to the tasks until the signal comes, are arguments.
unfoldable pub run_can : Result Host → Option Exc → (Host → Host) → Host × Option Exc
unfolding start_up shut_down
run_can (err e) opening live = (unloaded, some e)
run_can (ok h) opening live = unless_raised (start_up opening h) (λ h'. shut_down (live h'))

-- `_run_doip` with the parsed address, the loaded devices, what opening the socket raises and what
-- arrives on the connections until the signal comes: what the server writes. The devices are used,
-- but none of their tasks is started.
unfoldable pub run_doip :
    Result (Text × ℤ)
    → Result (List SimulatedDevice)
    → Option Exc
    → List (ℕ × ConnectionEvent)
    → List (ℕ × Bytes) × Option Exc
unfolding device_map serve_events
run_doip (err e) loaded opening es = ([], some e)
run_doip (ok address) (err e) opening es = ([], some e)
run_doip (ok address) (ok devices) (some e) es = ([], some e)
run_doip (ok address) (ok devices) none es =
    let st : ServerState = record { devices = device_map [] devices; connections = λ n. none } in
    ((serve_events st es).1, none)

-- What the program meets: whether its file exists, what it loads, what opening raises, and what
-- happens until the signal.
pub record World : Type 0 where
  pub devices_file : Bool
  pub can_objects : Result Host
  pub doip_devices : Result (List SimulatedDevice)
  pub opening : Option Exc
  pub live : Host → Host
  pub events : List (ℕ × ConnectionEvent)

pub data Outcome : Type 0 where
  can_ended : Host → Outcome
  doip_ended : List (ℕ × Bytes) → Outcome

-- `run`, with `args.doip`
unfoldable pub run_main : World → Option Text → Outcome × Option Exc
unfolding run_can run_doip parse_doip_address
run_main w none =
    if not w.devices_file
    then (can_ended unloaded, some file_not_found)
    else (let (h, raised) = run_can w.can_objects w.opening w.live in (can_ended h, raised))
run_main w (some spec) =
    if not w.devices_file
    then (can_ended unloaded, some file_not_found)
    else (let (out, raised) =
          run_doip (parse_doip_address (some spec)) w.doip_devices w.opening w.events in
        (doip_ended out, raised))
