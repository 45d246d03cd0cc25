-- ===== src/Device/Tests.antt =====
-- Runs of simulator/device.py, and its theorems at concrete inputs.
use e3on_canserver.Base.{ok, ◌+◌, ◌≡◌, refl, true, false, List, [], ◌∷◌, arith}
use e3on_canserver.Base.Int.{pos}
use e3on_canserver.Datastore.Laws.{StoreIsBounded}
use e3on_canserver.Isotp.{Bytes, pad, consecutive_frames, multi_frames, segment, reset, feed}
use e3on_canserver.Isotp.RoundTrip.{receive}
use e3on_canserver.Datastore.{DatapointStore, read}
use e3on_canserver.Uds.{handle_uds}
use e3on_canserver.Uds.Replies.{read_request}
use e3on_canserver.Service77.{s77_response_id_offset, handle_service77}
use e3on_canserver.Faults.Config.{FaultConfig, has_errors, Draws, maybe_inject}
use e3on_canserver.Device.{
  uds_response_id_offset, Event, frame, silence, make_device, Channel, on_uds, on_s77, run,
}
use e3on_canserver.Device.Health.{max_value, run-IsHealthy}
use e3on_canserver.Device.Clients.{client_frames}
use e3on_canserver.Device.Reads.{single_frame, data_on}
use e3on_canserver.Ecu.Refines.{view}
use e3on_canserver.Device.Requests.{Arrival, arrivals, of_channel, serve_all}
use e3on_canserver.Device.Sharing.{run-two_clients}
use e3on_canserver.Device.Doip.{handle_uds_payload, handle_uds_payload_clean}

abbrev stored : DatapointStore
stored = record {
  table = (268, 1 ∷ 2 ∷ []) ∷ (256, 10 ∷ 11 ∷ 12 ∷ 13 ∷ 14 ∷ 15 ∷ 16 ∷ []) ∷ [];
  resolvers = [];
}

abbrev no_faults : FaultConfig
no_faults = record { delay_ms = pos 20; error_pct = pos 0 }

abbrev no_draws : Draws
no_draws = record { roll = 0; pick = 0; value = 0 }

stored-StoreIsBounded : StoreIsBounded max_value stored
stored-StoreIsBounded = record { static = omega arith; dynamic = tt }

-- A read of several frames, and a write to the other queue between its two events.
abbrev two_queues : List (Channel × Event)
two_queues =
    (on_uds, frame (single_frame (read_request 1 0)) no_draws)
    ∷ (on_s77, frame (0x07 ∷ 0x77 ∷ 0x43 ∷ 0 ∷ 0 ∷ 0 ∷ 0 ∷ 0 ∷ []) no_draws)
    ∷ (on_uds, frame (0x30 ∷ 0 ∷ 0 ∷ 0xcc ∷ 0xcc ∷ 0xcc ∷ 0xcc ∷ 0xcc ∷ []) no_draws)
    ∷ (on_s77, silence)
    ∷ []

run-two_queues :
    (run (make_device 0x680 [] no_faults stored) two_queues).1
    ≡ (0x690, 0x10 ∷ 10 ∷ 0x62 ∷ 1 ∷ 0 ∷ 10 ∷ 11 ∷ 12 ∷ [])
      ∷ (0x692, 0x03 ∷ 0x7f ∷ 0x77 ∷ 0x12 ∷ 0xcc ∷ 0xcc ∷ 0xcc ∷ 0xcc ∷ [])
      ∷ (0x690, 0x21 ∷ 13 ∷ 14 ∷ 15 ∷ 16 ∷ 0xcc ∷ 0xcc ∷ 0xcc ∷ [])
      ∷ []
unfolding run make_device feed pad handle_uds read segment maybe_inject multi_frames
    consecutive_frames handle_service77
run-two_queues = refl

-- A frame with no data ends a worker that waits for Flow Control.
empty_frame_ends_worker :
    (run (make_device 0x680 [] no_faults stored) (
      (on_uds, frame (single_frame (read_request 1 0)) no_draws)
      ∷ (on_uds, frame [] no_draws)
      ∷ [])).0.uds.alive
    ≡ false
unfolding run make_device feed pad handle_uds read segment maybe_inject multi_frames
    consecutive_frames
empty_frame_ends_worker = refl

run-IsHealthy_example :
    let dev = (run (make_device 0x680 [] no_faults stored) two_queues).0 in
    (dev.uds.alive ≡ true) × (dev.s77.alive ≡ true) × StoreIsBounded max_value dev.store
unfolding pad
run-IsHealthy_example =
    run-IsHealthy 0x680 [] no_faults stored two_queues stored-StoreIsBounded (omega arith)

-- A Service 77 write of 9 bytes, whose two frames come between the two events of a UDS read.
abbrev write_request77 : Bytes
write_request77 = 0x77 ∷ 0x43 ∷ 1 ∷ 0 ∷ 0 ∷ 0 ∷ 0 ∷ 1 ∷ 5 ∷ []

abbrev crossing : List (Channel × Arrival)
crossing =
    (on_uds, (single_frame (read_request 1 0), no_draws))
    ∷ (on_s77, (0x10 ∷ 9 ∷ 0x77 ∷ 0x43 ∷ 1 ∷ 0 ∷ 0 ∷ 0 ∷ [], no_draws))
    ∷ (on_s77, (0x21 ∷ 0 ∷ 1 ∷ 5 ∷ 0xcc ∷ 0xcc ∷ 0xcc ∷ 0xcc ∷ [], no_draws))
    ∷ (on_uds, (0x30 ∷ 0 ∷ 0 ∷ [], no_draws))
    ∷ (on_s77, (0x30 ∷ 8 ∷ 0 ∷ [], no_draws))
    ∷ []

run-two_clients_example :
    let out = run (make_device 0x680 [] no_faults stored) (arrivals crossing) in
    (order : List (Channel × Bytes)) × (of_channel on_uds order ≡ read_request 1 0 ∷ [])
    × (of_channel on_s77 order ≡ write_request77 ∷ [])
    × (receive reset (data_on (0x680 + uds_response_id_offset) out.1)
        ≡ ok (reset, of_channel on_uds (serve_all [] (view stored) order).1))
    × (receive reset (data_on (0x680 + s77_response_id_offset) out.1)
        ≡ ok (reset, of_channel on_s77 (serve_all [] (view stored) order).1))
    × (view out.0.store ≡ (serve_all [] (view stored) order).0)
unfolding has_errors client_frames segment multi_frames consecutive_frames pad
run-two_clients_example =
    run-two_clients 0x680 [] no_faults stored crossing (0 ∷ 0 ∷ []) (8 ∷ 0 ∷ [])
      (read_request 1 0 ∷ []) (write_request77 ∷ []) refl stored-StoreIsBounded (omega arith)
      (omega arith) (omega arith) (omega arith) refl refl

handle_uds_payload_clean_example :
    handle_uds_payload (make_device 0x680 [] no_faults stored) no_draws (read_request 1 12) ≡ (
      record (make_device 0x680 [] no_faults stored) {
        store = (handle_uds [] (read_request 1 12) stored).0;
      },
      ok (handle_uds [] (read_request 1 12) stored).1,
    )
unfolding has_errors make_device
handle_uds_payload_clean_example =
    handle_uds_payload_clean (make_device 0x680 [] no_faults stored) no_draws (read_request 1 12)
      refl stored-StoreIsBounded
