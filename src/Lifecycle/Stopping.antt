-- ===== src/Lifecycle/Stopping.antt =====
-- What the `stop` of each object of main.py leaves and raises.

use mathlib.Core.Option
use e3on_canserver.Base.{
  Exc, ◌≡◌, refl, ap, ◌∙◌, ◌≢◌, Bool, false, Option, none, some, List, [], ◌∷◌, map, All,
  All-append,
}
use e3on_canserver.Lifecycle.{
  Task, running, cancelled, failed, cancel, stop_task, unless_raised, cancel_all, CyclicTasks,
  stop_cyclic, DeviceTasks, stop_s77, stop_uds, stop_device, MeterTask, stop_meter, BusState,
  receiving, stop_bus, Host, stop_devices,
}

-- The exception that ended a task, if one did.
abbrev pub failure : Option Task → Option Exc
failure none = none
failure (some running) = none
failure (some cancelled) = none
failure (some (failed e)) = some e

abbrev pub or_first : Option Exc → Option Exc → Option Exc
or_first none b = b
or_first (some e) b = some e

-- The first failure of the workers, in the order of the devices, UDS before Service 77.
abbrev pub worker_failure : List DeviceTasks → Option Exc
worker_failure [] = none
worker_failure (d ∷ ds) =
    or_first (failure d.uds_task) (or_first (failure d.s77_task) (worker_failure ds))

abbrev pub IsStopped : Option Task → Type 0
IsStopped t = t ≢ some running

abbrev pub HaveEnded : List Task → Type 0
HaveEnded = All (λ t. t ≢ running)

-- No task runs to which the cyclic tasks of a device refer, or have referred.
abbrev pub IsIdle : Option CyclicTasks → Type 0
IsIdle none = Unit
IsIdle (some c) = HaveEnded c.tasks × HaveEnded c.past

abbrev pub IsMeterDown : MeterTask → Type 0
IsMeterDown m = IsStopped m.task × HaveEnded m.past

-- No task runs that a cyclic task, or an energy meter, refers to no more.
abbrev pub IsTidy : Option CyclicTasks → Type 0
IsTidy none = Unit
IsTidy (some c) = HaveEnded c.past

abbrev pub HasNoStray : Host → Type 0
HasNoStray h = All (λ d. IsTidy d.cyclic_task) h.devices × All (λ m. HaveEnded m.past) h.meters

abbrev pub IsDeviceDown : DeviceTasks → Type 0
IsDeviceDown d = IsStopped d.uds_task × IsStopped d.s77_task × IsIdle d.cyclic_task

-- Nothing of the program runs any more, and the interface is closed.
pub record IsDown (h : Host) : Type 0 where
  pub closed : h.bus.is_open ≡ false
  pub deaf : receiving h.bus ≡ false
  pub silent : IsStopped h.bus.tx_task
  pub devices_down : All IsDeviceDown h.devices
  pub meters_down : All IsMeterDown h.meters

stop_task-failure : (t : Option Task) → (stop_task t).1 ≡ failure t
stop_task-failure none = refl
stop_task-failure (some running) = refl
stop_task-failure (some cancelled) = refl
stop_task-failure (some (failed e)) = refl

stop_task-IsStopped : (t : Option Task) → IsStopped (stop_task t).0
stop_task-IsStopped none e = cc
stop_task-IsStopped (some running) e = cc
stop_task-IsStopped (some cancelled) e = cc
stop_task-IsStopped (some (failed x)) e = cc

cancel-ended : (t : Task) → cancel t ≢ running
cancel-ended running e = cc e
cancel-ended cancelled e = cc e
cancel-ended (failed x) e = cc e

cancel_all-HaveEnded : (ts : List Task) → HaveEnded (cancel_all ts)
cancel_all-HaveEnded [] = tt
cancel_all-HaveEnded (t ∷ ts) = (cancel-ended t, cancel_all-HaveEnded ts)

stop_cyclic-IsIdle : (c : Option CyclicTasks) → IsTidy c → IsIdle (Option.map stop_cyclic c)
stop_cyclic-IsIdle none h = tt
stop_cyclic-IsIdle (some c) h =
    unfold stop_cyclic in
    (tt, All-append (λ t. t ≢ running) (cancel_all c.tasks) c.past (cancel_all-HaveEnded c.tasks) h)

-- A device by its tasks.
abbrev device_of : Option Task → Option Task → Option CyclicTasks → DeviceTasks
device_of u s c = record { uds_task = u; s77_task = s; cyclic_task = c }

stop_device-failure :
    (u s : Option Task) (c : Option CyclicTasks)
    → (stop_device (device_of u s c)).1 ≡ or_first (failure u) (failure s)
unfolding stop_device stop_uds stop_s77
stop_device-failure none s c = stop_task-failure s
stop_device-failure (some running) s c = stop_task-failure s
stop_device-failure (some cancelled) s c = stop_task-failure s
stop_device-failure (some (failed e)) s c = refl

stop_device-IsDeviceDown :
    (u s : Option Task) (c : Option CyclicTasks)
    → IsTidy c
    → or_first (failure u) (failure s) ≡ none
    → IsDeviceDown (stop_device (device_of u s c)).0
unfolding stop_device stop_uds stop_s77
stop_device-IsDeviceDown none s c tidy h =
    ((λ e. cc), stop_task-IsStopped s, stop_cyclic-IsIdle c tidy)
stop_device-IsDeviceDown (some running) s c tidy h =
    ((λ e. cc), stop_task-IsStopped s, stop_cyclic-IsIdle c tidy)
stop_device-IsDeviceDown (some cancelled) s c tidy h =
    ((λ e. cc), stop_task-IsStopped s, stop_cyclic-IsIdle c tidy)
stop_device-IsDeviceDown (some (failed x)) s c tidy h = cc

or_first_assoc : (a b c : Option Exc) → or_first (or_first a b) c ≡ or_first a (or_first b c)
or_first_assoc none b c = refl
or_first_assoc (some e) b c = refl

or_first-none : (a b : Option Exc) → or_first a b ≡ none → (a ≡ none) × (b ≡ none)
or_first-none none b h = (refl, h)
or_first-none (some e) b h = cc

unless_raised-or_first {ℓ} :
    {A : Type ℓ} (r : A × Option Exc) (next : A → A × Option Exc) (later : Option Exc)
    → ((a : A) → (next a).1 ≡ later)
    → (unless_raised r next).1 ≡ or_first r.1 later
unless_raised-or_first (a, none) next later h = h a
unless_raised-or_first (a, some e) next later h = refl

pub stop_devices-failure : (ds : List DeviceTasks) → (stop_devices ds).1 ≡ worker_failure ds
unfolding stop_devices
stop_devices-failure [] = refl
stop_devices-failure (d ∷ ds) =
    unless_raised-or_first ((stop_device d).0 ∷ ds, (stop_device d).1) _ (worker_failure ds)
      (λ l. stop_devices-failure ds)
    ∙ ap (λ a. or_first a (worker_failure ds))
        (stop_device-failure d.uds_task d.s77_task d.cyclic_task)
    ∙ or_first_assoc (failure d.uds_task) (failure d.s77_task) (worker_failure ds)

pub stop_devices-IsDeviceDown :
    (ds : List DeviceTasks)
    → All (λ d. IsTidy d.cyclic_task) ds
    → worker_failure ds ≡ none
    → All IsDeviceDown (stop_devices ds).0
unfolding stop_devices
stop_devices-IsDeviceDown [] tidy h = tt
stop_devices-IsDeviceDown (d ∷ ds) tidy h =
    let parts : or_first (or_first (failure d.uds_task) (failure d.s77_task)) (worker_failure ds)
        ≡ none =
      or_first_assoc (failure d.uds_task) (failure d.s77_task) (worker_failure ds) ∙ h in
    let (own, others) = or_first-none _ (worker_failure ds) parts in
    let fine : (stop_device d).1 ≡ none =
      stop_device-failure d.uds_task d.s77_task d.cyclic_task ∙ own in
    rw fine (
      stop_device-IsDeviceDown d.uds_task d.s77_task d.cyclic_task tidy.0 own,
      stop_devices-IsDeviceDown ds tidy.1 others,
    )

abbrev bus_of : Bool → Bool → Option Task → BusState
bus_of o r t = record { is_open = o; is_running = r; tx_task = t }

pub stop_bus-failure : (o r : Bool) (t : Option Task) → (stop_bus (bus_of o r t)).1 ≡ failure t
unfolding stop_bus
stop_bus-failure o r none = refl
stop_bus-failure o r (some running) = refl
stop_bus-failure o r (some cancelled) = refl
stop_bus-failure o r (some (failed e)) = refl

abbrev IsBusDown : BusState → Type 0
IsBusDown b = (b.is_open ≡ false) × (receiving b ≡ false) × IsStopped b.tx_task

pub stop_bus-IsBusDown :
    (o r : Bool) (t : Option Task) → failure t ≡ none → IsBusDown (stop_bus (bus_of o r t)).0
unfolding stop_bus
stop_bus-IsBusDown o r none h = (refl, refl, (λ e. cc))
stop_bus-IsBusDown o r (some running) h = (refl, refl, (λ e. cc))
stop_bus-IsBusDown o r (some cancelled) h = (refl, refl, (λ e. cc))
stop_bus-IsBusDown o r (some (failed e)) h = cc

stop_meter-IsMeterDown :
    (t : Option Task) (past : List Task)
    → HaveEnded past
    → IsMeterDown (stop_meter (record { task = t; past = past }))
unfolding stop_meter
stop_meter-IsMeterDown none past h = ((λ e. cc e), h)
stop_meter-IsMeterDown (some t) past h = ((λ e. cc e), (cancel-ended t, h))

pub stop_meters-AreDown :
    (ms : List MeterTask) → All (λ m. HaveEnded m.past) ms → All IsMeterDown (map stop_meter ms)
stop_meters-AreDown [] h = tt
stop_meters-AreDown (m ∷ ms) h =
    (stop_meter-IsMeterDown m.task m.past h.0, stop_meters-AreDown ms h.1)
