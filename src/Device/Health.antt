-- ===== src/Device/Health.antt =====
-- No sequence of CAN frames of 8 bytes ends a worker task of simulator/device.py.
use e3on_canserver.Base.{
  Exc, Result, ok, err, Result-cases, Ensures, ℕ, ◌+◌, ◌/◌, ◌^◌, ◌≤◌, ◌≡◌, refl, ◌≢◌, inl, inr,
  true, Option, none, some, List, [], ◌∷◌, arith, ◌==◌, if_ind, length, All,
}
use e3on_canserver.Datastore.Laws.{StoreIsBounded}
use e3on_canserver.Isotp.{Bytes, segment, Assembler, Fed, feed}
use e3on_canserver.Isotp.Frames.{IsFrame}
use e3on_canserver.Isotp.Robust.{
  IsByte, IsWellFormed, IsSound, reset-IsWellFormed, feed-IsSound, feed-err, segment-ne-err,
  segment-AreFrames,
}
use e3on_canserver.Datastore.{DatapointStore}
use e3on_canserver.Uds.{ProtocolHandler, handle_uds}
use e3on_canserver.Uds.Frame.{handle_uds-StoreIsBounded, handle_uds_reply_bound}
use e3on_canserver.Service77.{handle_service77}
use e3on_canserver.Service77.Replies.{service77-StoreIsBounded, service77_reply_bound}
use e3on_canserver.Faults.Config.{FaultConfig, Draws, maybe_inject}
use e3on_canserver.Faults.Shape.{maybe_inject-AreFrames}
use e3on_canserver.Device.{
  Sent, Event, frame, silence, Worker, Stepped, send_frames, respond, fc_sent, sent_after,
  process_fed, resume, take_event, worker_step, SimulatedDevice, idle, make_device, Channel, on_uds,
  on_s77, response_id, device_step, run,
}

-- The longest value that a read response of 4095 bytes can carry.
abbrev pub max_value : ℕ
max_value = 4092

-- What a worker needs of its protocol handler: on requests that ISO-TP can carry it keeps the
-- store within bounds, and answers, if at all, with 1 to 4095 bytes, which ISO-TP can carry.
pub record IsBoundedHandler (h : ProtocolHandler) : Type 0 where
  pub keeps :
      (payload : Bytes) (s : DatapointStore)
      → length payload ≤ 4095
      → StoreIsBounded max_value s
      → StoreIsBounded max_value (h payload s).0
  pub short :
      (payload : Bytes) (s : DatapointStore) (r : Bytes)
      → StoreIsBounded max_value s
      → (h payload s).1 ≡ some r
      → (1 ≤ length r) × (length r ≤ 4095)

pub uds-IsBoundedHandler : (protected : List ℕ) → IsBoundedHandler (handle_uds protected)
uds-IsBoundedHandler protected = record {
  keeps = λ payload s h b. handle_uds-StoreIsBounded max_value protected payload s h b;
  short = λ payload s r b e.
      let bound : (3 ≤ length r) × (length r ≤ max_value + 3) =
        handle_uds_reply_bound max_value protected payload s r b e in
      omega arith;
}

pub service77-IsBoundedHandler : IsBoundedHandler handle_service77
service77-IsBoundedHandler = record {
  keeps = λ payload s h b. service77-StoreIsBounded max_value payload s (omega arith) b;
  short = λ payload s r b e.
      let bound : (3 ≤ length r) × (length r ≤ 4) = service77_reply_bound payload s r e in
      omega arith;
}

-- A worker that runs, with a sound assembler and a bounded store.
pub record IsSafe (w : Worker) (s : DatapointStore) : Type 0 where
  pub running : w.alive ≡ true
  pub sound : IsWellFormed w.assembler
  pub bounded : StoreIsBounded max_value s

abbrev pub StaysSafe : Stepped → Type 0
StaysSafe r = IsSafe r.0 r.1

module _ (id : ℕ) where
  send_frames-StaysSafe :
      (w : Worker) (s : DatapointStore) (frames : List Bytes)
      → 1 ≤ length frames
      → IsSafe w s
      → StaysSafe (send_frames id w s frames)
  unfolding send_frames
  send_frames-StaysSafe w s [] n h = absurd (omega arith)
  send_frames-StaysSafe w s (f ∷ []) n h = h
  send_frames-StaysSafe w s (f ∷ g ∷ rest) n h = record {
    running = h.running;
    sound = h.sound;
    bounded = h.bounded;
  }

  respond-StaysSafe :
      (c : FaultConfig) (d : Draws) (w : Worker) (s : DatapointStore) (r : Option Bytes)
      → ((p : Bytes) → r ≡ some p → length p ≤ 4095)
      → IsSafe w s
      → StaysSafe (respond c d id w (s, r))
  unfolding respond
  respond-StaysSafe c d w s none short h = h
  respond-StaysSafe c d w s (some p) short h = elim (Result-cases (segment p)) [
    | inl (frames, e) ↦
        rw (e, respond)
          (send_frames-StaysSafe w s (maybe_inject c d frames)
            (maybe_inject-AreFrames c d frames (segment-AreFrames p frames e)).1 h)
    | inr (x, e) ↦ absurd (segment-ne-err p x (short p refl) e)
  ]

  sent_after-StaysSafe :
      (first : List Sent) (r : Stepped) → StaysSafe r → StaysSafe (sent_after first r)
  sent_after-StaysSafe first r h = h

  process_fed-StaysSafe :
      (handler : ProtocolHandler) (c : FaultConfig) (d : Draws) (w : Worker) (s : DatapointStore)
      (r : Result Fed)
      → IsBoundedHandler handler
      → IsSafe w s
      → ((e : Exc) → r ≢ err e)
      → Ensures IsSound r
      → StaysSafe (process_fed handler c d id w s r)
  unfolding process_fed
  process_fed-StaysSafe handler c d w s (err e) laws h fine sound = absurd (fine e refl)
  process_fed-StaysSafe handler c d w s (ok (a, none, fc)) laws h fine sound = record {
    running = h.running;
    sound = sound.0;
    bounded = h.bounded;
  }
  process_fed-StaysSafe handler c d w s (ok (a, some p, fc)) laws h fine sound =
      sent_after-StaysSafe (fc_sent id fc)
        (respond c d id (record w { assembler = a }) (handler p s))
        (respond-StaysSafe c d (record w { assembler = a }) (handler p s).0 (handler p s).1
          (λ r e. (laws.short p s r h.bounded e).1)
          (record {
            running = h.running;
            sound = sound.0;
            bounded = laws.keeps p s sound.1 h.bounded;
          }))

  resume-StaysSafe :
      (w : Worker) (s : DatapointStore) (cfs : List Bytes) (d : Bytes)
      → 1 ≤ length d
      → IsSafe w s
      → StaysSafe (resume id w s cfs d)
  unfolding resume
  resume-StaysSafe w s cfs [] n h = absurd (omega arith)
  resume-StaysSafe w s cfs (b0 ∷ rest) n h =
      if_ind StaysSafe (b0 / 2 ^ 4 == 0x3) _ _
        (λ _. record { running = h.running; sound = h.sound; bounded = h.bounded })
        (λ _. record { running = h.running; sound = h.sound; bounded = h.bounded })

-- A CAN frame of 8 bytes, or no frame.
abbrev pub IsBusEvent : Event → Type 0
IsBusEvent silence = Unit
IsBusEvent (frame d draws) = IsFrame d × All IsByte d

feed_fine : (a : Assembler) (d : Bytes) → IsFrame d → (e : Exc) → feed a d ≢ err e
feed_fine a d h e p = absurd (omega (arith, ((feed-err a d e).0 p).0))

feed-IsSound_here :
    (a : Assembler) (d : Bytes) → All IsByte d → IsWellFormed a → Ensures IsSound (feed a d)
feed-IsSound_here a d bs w = elim (Result-cases (feed a d)) [
  | inl (r, e) ↦ rw e (feed-IsSound a d r bs w e)
  | inr (x, e) ↦ rw e tt
]

take_event-StaysSafe :
    (handler : ProtocolHandler) (c : FaultConfig) (id : ℕ) (w : Worker) (s : DatapointStore)
    (waiting : Option (List Bytes)) (e : Event)
    → IsBoundedHandler handler
    → IsSafe w s
    → IsBusEvent e
    → StaysSafe (take_event handler c id w s waiting e)
unfolding take_event
take_event-StaysSafe handler c id w s none silence laws h bus = h
take_event-StaysSafe handler c id w s none (frame d draws) laws h bus =
    process_fed-StaysSafe id handler c draws w s (feed w.assembler d) laws h
      (feed_fine w.assembler d bus.0) (feed-IsSound_here w.assembler d bus.1 h.sound)
take_event-StaysSafe handler c id w s (some cfs) silence laws h bus = record {
  running = h.running;
  sound = h.sound;
  bounded = h.bounded;
}
take_event-StaysSafe handler c id w s (some cfs) (frame d draws) laws h bus =
    resume-StaysSafe id w s cfs d (omega (arith, bus.0)) h

worker_step-StaysSafe :
    (handler : ProtocolHandler) (c : FaultConfig) (id : ℕ) (w : Worker) (s : DatapointStore)
    (e : Event)
    → IsBoundedHandler handler
    → IsSafe w s
    → IsBusEvent e
    → StaysSafe (worker_step handler c id w s e)
unfolding worker_step
worker_step-StaysSafe handler c id w s e laws h bus =
    if_ind StaysSafe w.alive _ _ (λ _. take_event-StaysSafe handler c id w s w.waiting e laws h bus)
      (λ _. h)

-- Both workers run, with sound assemblers and one bounded store.
pub record IsHealthy (dev : SimulatedDevice) : Type 0 where
  pub uds_safe : IsSafe dev.uds dev.store
  pub s77_safe : IsSafe dev.s77 dev.store

abbrev pub AreBusEvents : List (Channel × Event) → Type 0
AreBusEvents = All (λ e. IsBusEvent e.1)

device_step-IsHealthy :
    (dev : SimulatedDevice) (c : Channel) (e : Event)
    → IsHealthy dev
    → IsBusEvent e
    → IsHealthy (device_step dev c e).0
unfolding device_step
device_step-IsHealthy dev on_uds e h bus =
    let k : StaysSafe (
        worker_step (handle_uds dev.protected) dev.config (response_id dev on_uds) dev.uds dev.store
          e) =
      worker_step-StaysSafe (handle_uds dev.protected) dev.config (response_id dev on_uds) dev.uds
        dev.store e (uds-IsBoundedHandler dev.protected) h.uds_safe bus in
    record {
      uds_safe = k;
      s77_safe = record {
        running = h.s77_safe.running;
        sound = h.s77_safe.sound;
        bounded = k.bounded;
      };
    }
device_step-IsHealthy dev on_s77 e h bus =
    let k : StaysSafe
        (worker_step handle_service77 dev.config (response_id dev on_s77) dev.s77 dev.store e) =
      worker_step-StaysSafe handle_service77 dev.config (response_id dev on_s77) dev.s77 dev.store e
        service77-IsBoundedHandler h.s77_safe bus in
    record {
      uds_safe = record {
        running = h.uds_safe.running;
        sound = h.uds_safe.sound;
        bounded = k.bounded;
      };
      s77_safe = k;
    }

run-IsHealthy_step :
    (dev : SimulatedDevice) (es : List (Channel × Event))
    → IsHealthy dev
    → AreBusEvents es
    → IsHealthy (run dev es).0
unfolding run
run-IsHealthy_step dev [] h bus = h
run-IsHealthy_step dev ((c, e) ∷ es) h bus =
    run-IsHealthy_step (device_step dev c e).0 es (device_step-IsHealthy dev c e h bus.0) bus.1

-- A device made over a store whose values have at most 4092 bytes has both workers still running
-- after any sequence of frames of 8 bytes and of silences on its two request CAN-IDs, in any order
-- and with any faults injected, and every value still has at most 4092 bytes.
pub run-IsHealthy :
    (tx_id : ℕ) (protected : List ℕ) (config : FaultConfig) (s : DatapointStore)
    (es : List (Channel × Event))
    → StoreIsBounded max_value s
    → AreBusEvents es
    → let dev = (run (make_device tx_id protected config s) es).0 in
      (dev.uds.alive ≡ true) × (dev.s77.alive ≡ true) × StoreIsBounded max_value dev.store
unfolding make_device
run-IsHealthy tx_id protected config s es b bus =
    let fresh : IsSafe idle s = record {
      running = refl;
      sound = reset-IsWellFormed;
      bounded = b;
    } in
    let h : IsHealthy (run (make_device tx_id protected config s) es).0 =
      run-IsHealthy_step (make_device tx_id protected config s) es
        (record { uds_safe = fresh; s77_safe = fresh }) bus in
    (h.uds_safe.running, h.s77_safe.running, h.uds_safe.bounded)
