-- ===== src/Simulator/Tests.antt =====
-- Runs of a loaded configuration behind simulator/bus.py, and its theorem at a concrete input.
use mathlib.Core.Option
use e3on_canserver.Base.{ok, ℕ, ◌+◌, ◌*◌, ◌≡◌, refl, none, some, List, [], ◌∷◌, arith, get_elem?}
use e3on_canserver.Base.Int.{pos}
use e3on_canserver.Base.Dict.{Dict}
use e3on_canserver.Isotp.{Bytes, pad, consecutive_frames, multi_frames, segment, reset, feed}
use e3on_canserver.Isotp.RoundTrip.{receive}
use e3on_canserver.Datastore.{DatapointStore, read, write}
use e3on_canserver.Datastore.Laws.{StoreIsBounded}
use e3on_canserver.Uds.{handle_uds}
use e3on_canserver.Service77.{s77_response_id_offset, handle_service77}
use e3on_canserver.Faults.{apply_wrong_did, apply_fault}
use e3on_canserver.Faults.Config.{one_float, from_config, has_errors, Draws, maybe_inject}
use e3on_canserver.Device.{
  uds_response_id_offset, SimulatedDevice, make_device, Channel, on_uds, on_s77, run,
}
use e3on_canserver.Device.Reads.{single_frame, data_on}
use e3on_canserver.Device.Requests.{of_channel, serve_all}
use e3on_canserver.Bus.{Message, register_rx, rx_round}
use e3on_canserver.Main.{DeviceEntry, load_devices}
use e3on_canserver.Simulator.{simulator_run}
use e3on_canserver.Device.Clients.{client_frames}
use e3on_canserver.Device.Health.{max_value}
use e3on_canserver.Ecu.Refines.{view}
use e3on_canserver.Uds.Replies.{read_request}
use e3on_canserver.Simulator.Clients.{simulator_run-two_clients}

abbrev stored : DatapointStore
stored = record {
  table = (268, 1 ∷ 2 ∷ []) ∷ (256, 10 ∷ 11 ∷ 12 ∷ 13 ∷ 14 ∷ 15 ∷ 16 ∷ []) ∷ [];
  resolvers = [];
}

stored-StoreIsBounded : StoreIsBounded max_value stored
stored-StoreIsBounded = record { static = omega arith; dynamic = tt }

-- The first and the last device inject faults, the one between them does not.
abbrev entry : ℕ → ℕ → DeviceEntry
entry tx pct = record {
  tx = tx;
  delay = none;
  errors = some (pos (pct * one_float));
  service77 = [];
  values = stored;
}

abbrev no_draws : Draws
no_draws = record { roll = 0; pick = 0; value = 0 }

-- A Service 77 write of 9 bytes.
abbrev write_request77 : Bytes
write_request77 = 0x77 ∷ 0x43 ∷ 1 ∷ 0 ∷ 0 ∷ 0 ∷ 0 ∷ 1 ∷ 5 ∷ []

-- Two clients of the device between, a client of its neighbour, and a frame for nobody.
abbrev traffic : List (Message × Draws)
traffic =
    ((0x6a1, single_frame (read_request 1 0)), no_draws)
    ∷ ((0x680, single_frame (read_request 1 12)), no_draws)
    ∷ ((0x6a3, 0x10 ∷ 9 ∷ 0x77 ∷ 0x43 ∷ 1 ∷ 0 ∷ 0 ∷ 0 ∷ []), no_draws)
    ∷ ((0x123, 0xff ∷ []), no_draws)
    ∷ ((0x6a3, 0x21 ∷ 0 ∷ 1 ∷ 5 ∷ 0xcc ∷ 0xcc ∷ 0xcc ∷ 0xcc ∷ []), no_draws)
    ∷ ((0x6a1, 0x30 ∷ 0 ∷ 0 ∷ []), no_draws)
    ∷ ((0x6a3, 0x30 ∷ 8 ∷ 0 ∷ []), no_draws)
    ∷ []

abbrev loaded : List SimulatedDevice × Dict (ℕ × Channel)
loaded = load_devices (pos 20) (pos 0) 0 (entry 0x680 5 ∷ entry 0x6a1 0 ∷ entry 0x68c 7 ∷ []) []

-- What is sent on the response CAN-IDs of the three devices.
traffic_answered :
    let sent = (simulator_run loaded.1 loaded.0 traffic).1 in
    (data_on 0x6b1 sent
      ≡ (0x10 ∷ 10 ∷ 0x62 ∷ 1 ∷ 0 ∷ 10 ∷ 11 ∷ 12 ∷ [])
        ∷ (0x21 ∷ 13 ∷ 14 ∷ 15 ∷ 16 ∷ 0xcc ∷ 0xcc ∷ 0xcc ∷ [])
        ∷ [])
    × (data_on 0x69c sent ≡ [])
unfolding load_devices simulator_run run make_device feed pad handle_uds read segment maybe_inject
    multi_frames consecutive_frames handle_service77 rx_round register_rx one_float apply_fault
    apply_wrong_did write
traffic_answered = (refl, refl)

simulator_run-two_clients_example :
    let (devices, callbacks) = loaded in
    let out = simulator_run callbacks devices traffic in
    (order : List (Channel × Bytes)) × (of_channel on_uds order ≡ read_request 1 0 ∷ [])
    × (of_channel on_s77 order ≡ write_request77 ∷ [])
    × (receive reset (data_on (0x6a1 + uds_response_id_offset) out.1)
        ≡ ok (reset, of_channel on_uds (serve_all [] (view stored) order).1))
    × (receive reset (data_on (0x6a1 + s77_response_id_offset) out.1)
        ≡ ok (reset, of_channel on_s77 (serve_all [] (view stored) order).1))
    × (Option.map (λ d. view d.store) (get_elem? out.0 1)
        ≡ some (serve_all [] (view stored) order).0)
unfolding has_errors client_frames segment multi_frames consecutive_frames pad from_config one_float
simulator_run-two_clients_example =
    simulator_run-two_clients (pos 20) (pos 0) (entry 0x680 5 ∷ []) (entry 0x68c 7 ∷ [])
      (entry 0x6a1 0) traffic (0 ∷ 0 ∷ []) (8 ∷ 0 ∷ []) (read_request 1 0 ∷ [])
      (write_request77 ∷ []) (omega arith) (omega arith) refl stored-StoreIsBounded (omega arith)
      (omega arith) (omega arith) (omega arith) refl refl
