-- ===== src/Lifecycle/Shutdown.antt =====
-- How the program of main.py ends: cleanly, unless an exception has ended a task before.
use e3on_canserver.Base.{Exc, ok, ◌≡◌, refl, ◌∙◌, ◌⊎◌, inl, inr, none, some, map, Option-cases}
use e3on_canserver.Lifecycle.{
  stop_meter, start_bus, stop_bus, Host, stop_devices, start_up, shut_down, run_can,
}
use e3on_canserver.Lifecycle.Stopping.{
  failure, or_first, worker_failure, HasNoStray, IsDown, stop_devices-failure,
  stop_devices-IsDeviceDown, stop_bus-failure, stop_bus-IsBusDown, stop_meters-AreDown,
}

-- The shutdown in two parts, as equations.
shut_down-ok :
    (h : Host)
    → (stop_devices h.devices).1 ≡ none
    → shut_down h ≡ (
      record {
        bus = (stop_bus h.bus).0;
        devices = (stop_devices h.devices).0;
        meters = map stop_meter h.meters;
      },
      (stop_bus h.bus).1,
    )
unfolding shut_down
shut_down-ok h e = rw e refl

shut_down-err :
    (h : Host) (e : Exc)
    → (stop_devices h.devices).1 ≡ some e
    → shut_down h ≡ (
      record {
        bus = h.bus;
        devices = (stop_devices h.devices).0;
        meters = map stop_meter h.meters;
      },
      some e,
    )
unfolding shut_down
shut_down-err h e raised = rw raised refl

-- The shutdown of `_run_can` raises exactly the first exception that has ended a worker task
-- before, device by device and UDS before Service 77, or else the one that has ended the transmit
-- task; where it is a worker's, the CAN interface stays open, and receiving goes on if it did.
pub shut_down-failure :
    (h : Host)
    → ((shut_down h).1 ≡ or_first (worker_failure h.devices) (failure h.bus.tx_task))
      × ((worker_failure h.devices ≡ none) ⊎ ((shut_down h).0.bus ≡ h.bus))
shut_down-failure h = elim (Option-cases (worker_failure h.devices)) [
  | inl calm ↦
      let fine : (stop_devices h.devices).1 ≡ none = stop_devices-failure h.devices ∙ calm in
      (
        rw (shut_down-ok h fine, calm)
            (stop_bus-failure h.bus.is_open h.bus.is_running h.bus.tx_task),
        inl calm,
      )
  | inr (e, broken) ↦
      let raised : (stop_devices h.devices).1 ≡ some e = stop_devices-failure h.devices ∙ broken in
      (rw (shut_down-err h e raised, broken) refl, inr (rw (shut_down-err h e raised) refl))
]

-- Where no exception has ended a worker task or the transmit task, and no task is left that its
-- object refers to no more, the shutdown ends without an exception, no task runs any more, the
-- interface is closed and nothing is received.
shut_down-IsDown :
    (h : Host)
    → worker_failure h.devices ≡ none
    → failure h.bus.tx_task ≡ none
    → HasNoStray h
    → ((shut_down h).1 ≡ none) × IsDown (shut_down h).0
shut_down-IsDown h calm sent (tidy, tidy_meters) =
    let fine : (stop_devices h.devices).1 ≡ none = stop_devices-failure h.devices ∙ calm in
    let (closed, deaf, silent) =
      stop_bus-IsBusDown h.bus.is_open h.bus.is_running h.bus.tx_task sent in
    rw (shut_down-ok h fine) (
      stop_bus-failure h.bus.is_open h.bus.is_running h.bus.tx_task ∙ sent,
      record {
        closed = closed;
        deaf = deaf;
        silent = silent;
        devices_down = stop_devices-IsDeviceDown h.devices tidy calm;
        meters_down = stop_meters-AreDown h.meters tidy_meters;
      },
    )

-- In CAN mode, with a configuration that loads and an interface that opens, whatever happens until
-- the signal comes: if by then no exception has ended a worker task or the transmit task, and no
-- object has let go of a task that still runs, the program ends without an exception, no task runs
-- any more, be it a worker's, a cyclic one, a meter's or the transmit task, also none to which no
-- object refers, and the interface is closed.
pub run_can-IsDown :
    (h : Host) (live : Host → Host)
    → worker_failure (live (start_up none h).0).devices ≡ none
    → failure (live (start_up none h).0).bus.tx_task ≡ none
    → HasNoStray (live (start_up none h).0)
    → let r = run_can (ok h) none live in (r.1 ≡ none) × IsDown r.0
unfolding run_can start_up start_bus
run_can-IsDown h live calm sent tidy = shut_down-IsDown (live (start_up none h).0) calm sent tidy
