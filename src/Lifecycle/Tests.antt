-- ===== src/Lifecycle/Tests.antt =====
-- Runs of the start and the end of main.py, and their theorems at concrete inputs.
use e3on_canserver.Base.{
  value_error, index_error, file_not_found, os_error, ok, ◌≡◌, refl, ◌⊎◌, true, false, none, some,
  [], ◌∷◌, arith,
}
use e3on_canserver.Datastore.File.{is_space}
use e3on_canserver.Main.{parse_doip_address}
use e3on_canserver.Lifecycle.{
  running, cancelled, failed, start_cyclic, start_device, stop_uds, stop_device, start_meter,
  stop_meter, new_bus, Host, stop_devices, start_up, shut_down, unloaded, run_can, run_doip, World,
  can_ended, doip_ended, run_main,
}
use e3on_canserver.Lifecycle.Shutdown.{shut_down-failure, run_can-IsDown}
use e3on_canserver.Lifecycle.Stopping.{failure, or_first, worker_failure, IsDown}

abbrev loaded : Host
loaded = record {
  bus = new_bus;
  devices =
      record { uds_task = none; s77_task = none; cyclic_task = none }
      ∷ record {
        uds_task = none;
        s77_task = none;
        cyclic_task = some (record { messages = 2; tasks = []; past = [] });
      }
      ∷ [];
  meters = record { task = none; past = [] } ∷ [];
}

-- One task for each worker, message and meter.
start_up-loaded : start_up none loaded ≡ (
  record {
    bus = record { is_open = true; is_running = true; tx_task = some running };
    devices =
        record { uds_task = some running; s77_task = some running; cyclic_task = none }
        ∷ record {
          uds_task = some running;
          s77_task = some running;
          cyclic_task = some (record { messages = 2; tasks = running ∷ running ∷ []; past = [] });
        }
        ∷ [];
    meters = record { task = some running; past = [] } ∷ [];
  },
  none,
)
unfolding start_up start_device start_cyclic start_meter
start_up-loaded = refl

-- An interface that does not open starts nothing.
start_up-closed : start_up (some os_error) loaded ≡ (loaded, some os_error)
unfolding start_up
start_up-closed = refl

-- A frame of one byte has ended the UDS worker of the first device.
abbrev crash : Host → Host
crash h = record h {
  devices =
      record { uds_task = some (failed index_error); s77_task = some running; cyclic_task = none }
      ∷ record { uds_task = some running; s77_task = some running; cyclic_task = none }
      ∷ [];
}

-- Then the shutdown leaves the other workers running and the interface open.
run_can-crash : run_can (ok loaded) none crash ≡ (
  record {
    bus = record { is_open = true; is_running = true; tx_task = some running };
    devices =
        record { uds_task = some (failed index_error); s77_task = some running; cyclic_task = none }
        ∷ record { uds_task = some running; s77_task = some running; cyclic_task = none }
        ∷ [];
    meters = record { task = none; past = cancelled ∷ [] } ∷ [];
  },
  some index_error,
)
unfolding run_can start_up shut_down stop_devices stop_device stop_uds stop_meter
run_can-crash = refl

abbrev nobody : World
nobody = record {
  devices_file = false;
  can_objects = ok loaded;
  doip_devices = ok [];
  opening = none;
  live = λ h. h;
  events = [];
}

run_main-no_file : run_main nobody none ≡ (can_ended unloaded, some file_not_found)
unfolding run_main
run_main-no_file = refl

-- DoIP mode with a port that is no number.
run_main-bad_port :
    run_main (record nobody { devices_file = true }) (some (0x78 ∷ []))
    ≡ (doip_ended [], some value_error)
unfolding run_main run_doip parse_doip_address is_space
run_main-bad_port = refl

shut_down-failure_example :
    ((shut_down (crash loaded)).1
      ≡ or_first (worker_failure (crash loaded).devices) (failure (crash loaded).bus.tx_task))
    × ((worker_failure (crash loaded).devices ≡ none)
        ⊎ ((shut_down (crash loaded)).0.bus ≡ (crash loaded).bus))
shut_down-failure_example = shut_down-failure (crash loaded)

run_can-IsDown_example : let r = run_can (ok loaded) none (λ h. h) in (r.1 ≡ none) × IsDown r.0
unfolding start_up start_device start_cyclic start_meter
run_can-IsDown_example = run_can-IsDown loaded (λ h. h) refl refl (omega arith)
