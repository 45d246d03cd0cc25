-- ===== src/Device/Sharing.antt =====
-- Two clients of one device of simulator/device.py at the same time, one on each request CAN-ID:
-- however their frames are interleaved, they get what the specification of the device answers.
use e3on_canserver.Base.{ok, ℕ, ◌+◌, ◌≡◌, sym, ap, ◌∙◌, false, List, [], ◌∷◌, All}
use e3on_canserver.Datastore.Laws.{StoreIsBounded}
use e3on_canserver.Isotp.{Bytes, reset}
use e3on_canserver.Isotp.RoundTrip.{receive}
use e3on_canserver.Isotp.Robust.{IsByte}
use e3on_canserver.Datastore.{DatapointStore}
use e3on_canserver.Service77.{s77_response_id_offset}
use e3on_canserver.Faults.Config.{FaultConfig, has_errors}
use e3on_canserver.Device.{
  uds_response_id_offset, SimulatedDevice, make_device, Channel, on_uds, on_s77, run,
}
use e3on_canserver.Device.Health.{max_value}
use e3on_canserver.Device.Clients.{client_frames, IsRequest, between}
use e3on_canserver.Device.Reads.{data_on}
use e3on_canserver.Ecu.Refines.{view}
use e3on_canserver.Device.Requests.{
  Arrival, arrivals, of_channel, frames_on, serve_all, handle_all, handle_all-refines,
}
use e3on_canserver.Device.Linear.{Linear, run-Linear}

-- A property of both clients' requests holds of the sequence that they share.
of_channel-All {ℓ κ} :
    {A : Type ℓ} (P : A → Type κ) (xs : List (Channel × A))
    → All P (of_channel on_uds xs)
    → All P (of_channel on_s77 xs)
    → All (λ x. P x.1) xs
of_channel-All P [] hu hs = tt
of_channel-All P ((on_uds, x) ∷ xs) hu hs = (hu.0, of_channel-All P xs hu.1 hs)
of_channel-All P ((on_s77, x) ∷ xs) hu hs = (hs.0, of_channel-All P xs hu hs.1)

-- One client sends requests of 1 to 4095 bytes on the UDS request CAN-ID, another on that of
-- Service 77, each a Flow Control frame after each of its requests; their frames come in any
-- interleaving, to a device with an error rate of 0 whose values have at most 4092 bytes. Then
-- there is one order of all the requests, which keeps the order of each client, such that each
-- client's ISO-TP assembler puts together exactly the responses that the specification of the
-- device gives to its requests in that order, and the store ends as the specification says.
pub run-two_clients :
    (tx_id : ℕ) (protected : List ℕ) (c : FaultConfig) (s : DatapointStore)
    (es : List (Channel × Arrival)) (flow_u flow_s : Bytes) (reqs_u reqs_s : List Bytes)
    → has_errors c ≡ false
    → StoreIsBounded max_value s
    → All IsRequest reqs_u
    → All IsRequest reqs_s
    → All (All IsByte) reqs_u
    → All (All IsByte) reqs_s
    → frames_on on_uds es ≡ client_frames flow_u reqs_u
    → frames_on on_s77 es ≡ client_frames flow_s reqs_s
    → let out = run (make_device tx_id protected c s) (arrivals es) in
      (order : List (Channel × Bytes)) × (of_channel on_uds order ≡ reqs_u)
      × (of_channel on_s77 order ≡ reqs_s)
      × (receive reset (data_on (tx_id + uds_response_id_offset) out.1)
          ≡ ok (reset, of_channel on_uds (serve_all protected (view s) order).1))
      × (receive reset (data_on (tx_id + s77_response_id_offset) out.1)
          ≡ ok (reset, of_channel on_s77 (serve_all protected (view s) order).1))
      × (view out.0.store ≡ (serve_all protected (view s) order).0)
unfolding make_device
run-two_clients tx_id protected c s es flow_u flow_s reqs_u reqs_s clean bound hu hs bu bs eu
      es_eq =
    let dev : SimulatedDevice = make_device tx_id protected c s in
    let l : Linear dev reset reset reqs_u reqs_s [] [] (run dev (arrivals es)) =
      run-Linear dev flow_u flow_s es reset reset (client_frames flow_u reqs_u)
        (client_frames flow_s reqs_s) reqs_u reqs_s [] [] clean bound hu hs (between reset reqs_u)
        (between reset reqs_s) (sym eu) (sym es_eq) in
    let bytes : All (λ p. All IsByte p.1) l.order =
      of_channel-All (All IsByte) l.order (rw l.uds_order bu) (rw l.s77_order bs) in
    let same : (view (handle_all protected s l.order).0, (handle_all protected s l.order).1)
        ≡ serve_all protected (view s) l.order =
      handle_all-refines protected s l.order bytes in
    (
      l.order,
      l.uds_order,
      l.s77_order,
      l.uds_got ∙ ap (λ r. ok (reset, of_channel on_uds r.1)) same,
      l.s77_got ∙ ap (λ r. ok (reset, of_channel on_s77 r.1)) same,
      ap view l.stored ∙ ap (λ r. r.0) same,
    )
