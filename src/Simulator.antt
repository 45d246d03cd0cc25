-- ===== src/Simulator.antt =====
-- The simulator in CAN mode: the devices that main.py has loaded, behind the callbacks of
-- simulator/bus.py. A sequence of frames stands for the order in which the workers take them from
-- their queues, each with the draws for the response that it may lead to; no wait for Flow Control
-- times out between them.
pub mod Isolation
pub mod Wiring
pub mod Clients
mod Tests
use e3on_canserver.Base.{ℕ, Option, none, some, List, [], ◌∷◌, ◌++◌, get_elem?, set}
use e3on_canserver.Base.Dict.{Dict}
use e3on_canserver.Faults.Config.{Draws}
use e3on_canserver.Device.{Sent, Event, frame, SimulatedDevice, Channel, device_step}
use e3on_canserver.Bus.{Message, rx_round}

-- The callback of a device puts the frame in the queue, from which the worker takes it.
unfoldable pub deliver :
    List SimulatedDevice → ℕ × Channel → Event → List SimulatedDevice × List Sent
unfolding device_step
deliver ds (k, c) e = elim (get_elem? ds k) [
  | none ↦ (ds, [])
  | some dev ↦ (let (dev', sent) = device_step dev c e in (set ds k dev', sent))
]

abbrev pub deliver_to :
    List SimulatedDevice
    → Draws
    → Option ((ℕ × Channel) × Message)
    → List SimulatedDevice × List Sent
deliver_to ds d none = (ds, [])
deliver_to ds d (some (target, msg)) = deliver ds target (frame msg.1 d)

-- A frame goes where the callback for its CAN-ID says, and is lost if there is none.
unfoldable pub simulator_run :
    Dict (ℕ × Channel)
    → List SimulatedDevice
    → List (Message × Draws)
    → List SimulatedDevice × List Sent
unfolding deliver
simulator_run callbacks ds [] = (ds, [])
simulator_run callbacks ds ((msg, d) ∷ frames) =
    let (ds', sent) = deliver_to ds d (rx_round callbacks (some msg)) in
    let (ds'', later) = simulator_run callbacks ds' frames in (ds'', sent ++ later)
