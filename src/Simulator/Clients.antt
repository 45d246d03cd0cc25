-- ===== src/Simulator/Clients.antt =====
-- The clients of one device of a loaded configuration, with any other traffic on the bus: main.py,
-- simulator/bus.py and simulator/device.py together against the specification of a device.
use mathlib.Core.Option
use e3on_canserver.Base.{
  ok, ◌+◌, ◌≡◌, refl, ap, ◌∙◌, inl, inr, false, some, List, [], ◌∷◌, ◌++◌, length, get_elem?, All,
}
use e3on_canserver.Base.Int.{ℤ}
use e3on_canserver.Isotp.{Bytes, reset}
use e3on_canserver.Isotp.RoundTrip.{receive}
use e3on_canserver.Datastore.Laws.{StoreIsBounded}
use e3on_canserver.Service77.{s77_response_id_offset}
use e3on_canserver.Faults.Config.{from_config, has_errors, Draws}
use e3on_canserver.Device.{uds_response_id_offset, Channel, on_uds, on_s77}
use e3on_canserver.Device.Reads.{data_on}
use e3on_canserver.Device.Requests.{of_channel, frames_on, serve_all}
use e3on_canserver.Bus.{Message}
use e3on_canserver.Main.{DeviceEntry, load_device, load_devices}
use e3on_canserver.Simulator.{simulator_run}
use e3on_canserver.Simulator.Isolation.{requests_for, simulator_run-IsAt}
use e3on_canserver.Isotp.Robust.{IsByte}
use e3on_canserver.Device.Clients.{client_frames, IsRequest}
use e3on_canserver.Device.Sharing.{run-two_clients}
use e3on_canserver.Device.Health.{max_value}
use e3on_canserver.Ecu.Refines.{view}
use e3on_canserver.Simulator.Wiring.{AllApart, loaded-IsWired, loaded-IsAt}

-- A configuration is loaded in which no other entry shares a CAN-ID with the entry `e`, whose error
-- rate is 0 and whose values have at most 4092 bytes. The bus carries any frames; those on the two
-- request CAN-IDs of `e` are those of two clients that each send requests of 1 to 4095 bytes with
-- a Flow Control frame after each, in any interleaving with each other and with the rest. Then
-- there is one order of all these requests, which keeps the order of each client, such that each
-- client's ISO-TP assembler puts together, from all that the simulator sends on its response
-- CAN-ID, exactly the responses that the specification of the device gives in that order, and the
-- device's store ends as the specification says.
pub simulator_run-two_clients :
    (cd ce : ℤ) (before after : List DeviceEntry) (e : DeviceEntry)
    (frames : List (Message × Draws)) (flow_u flow_s : Bytes) (reqs_u reqs_s : List Bytes)
    → AllApart e.tx before
    → AllApart e.tx after
    → has_errors (from_config e.delay e.errors (some cd) (some ce)) ≡ false
    → StoreIsBounded max_value e.values
    → All IsRequest reqs_u
    → All IsRequest reqs_s
    → All (All IsByte) reqs_u
    → All (All IsByte) reqs_s
    → frames_on on_uds (requests_for e.tx frames) ≡ client_frames flow_u reqs_u
    → frames_on on_s77 (requests_for e.tx frames) ≡ client_frames flow_s reqs_s
    → let (devices, callbacks) = load_devices cd ce 0 (before ++ (e ∷ after)) [] in
      let out = simulator_run callbacks devices frames in
      (order : List (Channel × Bytes)) × (of_channel on_uds order ≡ reqs_u)
      × (of_channel on_s77 order ≡ reqs_s)
      × (receive reset (data_on (e.tx + uds_response_id_offset) out.1)
          ≡ ok (reset, of_channel on_uds (serve_all e.service77 (view e.values) order).1))
      × (receive reset (data_on (e.tx + s77_response_id_offset) out.1)
          ≡ ok (reset, of_channel on_s77 (serve_all e.service77 (view e.values) order).1))
      × (Option.map (λ d. view d.store) (get_elem? out.0 (length before))
          ≡ some (serve_all e.service77 (view e.values) order).0)
unfolding load_device
simulator_run-two_clients cd ce before after e frames flow_u flow_s reqs_u reqs_s hb ha clean bound
      hu hs bu bs eu es =
    let wired = loaded-IsWired cd ce before after e hb ha in
    let at_place = loaded-IsAt cd ce before after e hb ha in
    let (order, ou, os, gu, gs, stored) =
      run-two_clients e.tx e.service77 (from_config e.delay e.errors (some cd) (some ce)) e.values
        (requests_for e.tx frames) flow_u flow_s reqs_u reqs_s clean bound hu hs bu bs eu es in
    let (dev_u, sent_u) =
      simulator_run-IsAt (load_devices cd ce 0 (before ++ (e ∷ after)) []).1 (length before) e.tx
        (e.tx + uds_response_id_offset) wired (inl refl) frames _ _ at_place in
    let (dev_s, sent_s) =
      simulator_run-IsAt (load_devices cd ce 0 (before ++ (e ∷ after)) []).1 (length before) e.tx
        (e.tx + s77_response_id_offset) wired (inr refl) frames _ _ at_place in
    (
      order,
      ou,
      os,
      ap (receive reset) sent_u ∙ gu,
      ap (receive reset) sent_s ∙ gs,
      ap (Option.map (λ d. view d.store)) dev_u ∙ ap some stored,
    )
