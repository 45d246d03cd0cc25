-- ===== src/Device/Reads.antt =====
-- A read over CAN from end to end, in simulator/device.py: the client's request frame, the
-- device's frames, the client's Flow Control, and the client's assembler on what it received.
use e3on_canserver.Base.{
  ok, ℕ, ◌+◌, ◌≤◌, ◌<◌, ◌≡◌, refl, ap, ◌∙◌, true, false, none, some, List, [], ◌∷◌, ◌++◌,
  append-nil, arith, ◌==◌, if◌then◌else◌, ==-refl, length,
}
use e3on_canserver.Datastore.Laws.{StoreIsBounded}
use e3on_canserver.Isotp.{Bytes, pad, segment, Assembler, reset, feed}
use e3on_canserver.Isotp.RoundTrip.{receive, feed_single, receive-segment}
use e3on_canserver.Isotp.Robust.{segment-AreFrames}
use e3on_canserver.Datastore.{DatapointStore, read}
use e3on_canserver.Uds.{handle_uds}
use e3on_canserver.Uds.Replies.{did_of, read_request, read_reply, handle_uds-read}
use e3on_canserver.Uds.Frame.{handle_uds_reply_bound}
use e3on_canserver.Faults.Config.{FaultConfig, has_errors, Draws, maybe_inject_clean}
use e3on_canserver.Device.{
  uds_response_id_offset, Sent, Event, frame, Worker, Stepped, to_id, send_frames, respond,
  worker_step, SimulatedDevice, idle, Channel, on_uds, run,
}
use e3on_canserver.Device.Health.{max_value}

-- A device whose UDS worker runs and waits for nothing; its assembler may be in any state.
abbrev pub ready : ℕ → List ℕ → FaultConfig → DatapointStore → Assembler → Worker → SimulatedDevice
ready tx_id protected config s a s77 = record {
  tx_id = tx_id;
  protected = protected;
  config = config;
  store = s;
  uds = record { assembler = a; waiting = none; alive = true };
  s77 = s77;
}

-- The client's two frames: a request in a Single Frame, and a Flow Control frame.
abbrev pub single_frame : Bytes → Bytes
single_frame p = pad (length p ∷ p)

abbrev pub read_events : ℕ → ℕ → Bytes → Draws → Draws → List (Channel × Event)
read_events hi lo flow d d' =
    (on_uds, frame (single_frame (read_request hi lo)) d) ∷ (on_uds, frame (0x30 ∷ flow) d') ∷ []

-- The data of the frames on one CAN-ID.
abbrev pub data_on : ℕ → List Sent → List Bytes
data_on id [] = []
data_on id ((i, f) ∷ sent) = if i == id then f ∷ data_on id sent else data_on id sent

pub data_on-to_id : (id : ℕ) (frames : List Bytes) → data_on id (to_id id frames) ≡ frames
data_on-to_id id [] = refl
data_on-to_id id (f ∷ fs) = rw (==-refl, data_on-to_id id fs)

-- What the worker sends for the frames of one response and the Flow Control that follows.
abbrev pub after_flow : ℕ → FaultConfig → List ℕ → Draws → Bytes → Stepped → List Sent
after_flow id c protected d flow r =
    r.2 ++ (worker_step (handle_uds protected) c id r.0 r.1 (frame (0x30 ∷ flow) d)).2

send_frames-after_flow :
    (id : ℕ) (c : FaultConfig) (protected : List ℕ) (d : Draws) (flow : Bytes) (a : Assembler)
    (s : DatapointStore) (frames : List Bytes)
    → 1 ≤ length frames
    → after_flow id c protected d flow
        (send_frames id (record { assembler = a; waiting = none; alive = true }) s frames)
      ≡ to_id id frames
unfolding send_frames worker_step feed
send_frames-after_flow id c protected d flow a s [] h = absurd (omega arith)
send_frames-after_flow id c protected d flow a s (f ∷ []) h = refl
send_frames-after_flow id c protected d flow a s (f ∷ g ∷ rest) h = refl

-- The worker's answer to the request, and the rest of the answer after the Flow Control.
respond-after_flow :
    (id : ℕ) (c : FaultConfig) (protected : List ℕ) (d d' : Draws) (flow : Bytes) (a : Assembler)
    (s : DatapointStore) (r : Bytes) (frames : List Bytes)
    → has_errors c ≡ false
    → segment r ≡ ok frames
    → 1 ≤ length frames
    → after_flow id c protected d' flow
        (respond c d id (record { assembler = a; waiting = none; alive = true }) (s, some r))
      ≡ to_id id frames
unfolding respond
respond-after_flow id c protected d d' flow a s r frames h e n =
    rw (e, respond, maybe_inject_clean c d frames h)
      (send_frames-after_flow id c protected d' flow a s frames n)

run-read_events :
    (tx_id : ℕ) (protected : List ℕ) (c : FaultConfig) (s : DatapointStore) (a : Assembler)
    (s77 : Worker) (hi lo : ℕ) (flow : Bytes) (d d' : Draws)
    → (run (ready tx_id protected c s a s77) (read_events hi lo flow d d')).1
      ≡ after_flow (tx_id + uds_response_id_offset) c protected d' flow (
          respond c d
            (tx_id + uds_response_id_offset)
            idle
            (handle_uds protected (read_request hi lo) s))
unfolding run worker_step
run-read_events tx_id protected c s a s77 hi lo flow d d' =
    rw (feed_single a (read_request hi lo) (omega arith) (omega arith), append-nil)

-- A client that sends a read request in a Single Frame and then a Flow Control frame to a device
-- whose UDS worker waits for nothing, with an error rate of 0 and every value within 4092 bytes,
-- receives on the response CAN-ID frames that an ISO-TP assembler puts together to exactly the
-- reply: the data point's value behind its echoed identifier, or requestOutOfRange.
pub read_over_can :
    (tx_id : ℕ) (protected : List ℕ) (c : FaultConfig) (s : DatapointStore) (a : Assembler)
    (s77 : Worker) (hi lo : ℕ) (flow : Bytes) (d d' : Draws)
    → lo < 256
    → has_errors c ≡ false
    → StoreIsBounded max_value s
    → receive reset (
        data_on
          (tx_id + uds_response_id_offset)
          (run (ready tx_id protected c s a s77) (read_events hi lo flow d d')).1)
      ≡ ok (reset, read_reply hi lo (read s (did_of hi lo)) ∷ [])
read_over_can tx_id protected c s a s77 hi lo flow d d' h1 h2 b =
    let reply : Bytes = read_reply hi lo (read s (did_of hi lo)) in
    let bound : (3 ≤ length reply) × (length reply ≤ max_value + 3) =
      handle_uds_reply_bound max_value protected (read_request hi lo) s reply b
        (ap (λ r. r.1) (handle_uds-read protected s hi lo h1)) in
    let (frames, made, received) = receive-segment reset reply (omega arith) (omega arith) in
    let all_sent : (run (ready tx_id protected c s a s77) (read_events hi lo flow d d')).1
        ≡ to_id (tx_id + uds_response_id_offset) frames =
      run-read_events tx_id protected c s a s77 hi lo flow d d'
      ∙ rw (handle_uds-read protected s hi lo h1) (
          respond-after_flow (tx_id + uds_response_id_offset) c protected d d' flow reset s reply
            frames h2 made (segment-AreFrames reply frames made).1) in
    rw (all_sent, data_on-to_id) received
