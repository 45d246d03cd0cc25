-- ===== src/Device/Sending.antt =====
-- The CAN-IDs on which a worker of simulator/device.py sends.
use e3on_canserver.Base.{
  Result, ok, err, Result-cases, ℕ, ◌/◌, ◌^◌, ◌≡◌, refl, sym, ◌∙◌, ◌≢◌, inl, inr, Option, none,
  some, List, [], ◌∷◌, ◌==◌, ==-false, if_ind, All, All-append,
}
use e3on_canserver.Isotp.{Bytes, segment, Fed, feed}
use e3on_canserver.Datastore.{DatapointStore}
use e3on_canserver.Uds.{ProtocolHandler, handle_uds}
use e3on_canserver.Service77.{handle_service77}
use e3on_canserver.Faults.Config.{FaultConfig, Draws, maybe_inject}
use e3on_canserver.Device.{
  Sent, Event, frame, silence, Worker, Stepped, to_id, send_frames, respond, fc_sent, process_fed,
  resume, take_event, worker_step, SimulatedDevice, Channel, on_uds, on_s77, response_id,
  device_step,
}
use e3on_canserver.Device.Reads.{data_on}

module _ (id : ℕ) where
  -- Every frame is on one CAN-ID.
  abbrev IsOnId : List Sent → Type 0
  IsOnId = All (λ m. m.0 ≡ id)

  to_id-IsOnId : (frames : List Bytes) → IsOnId (to_id id frames)
  to_id-IsOnId [] = tt
  to_id-IsOnId (f ∷ fs) = (refl, to_id-IsOnId fs)

  send_frames-IsOnId :
      (w : Worker) (s : DatapointStore) (frames : List Bytes) → IsOnId (send_frames id w s frames).2
  unfolding send_frames
  send_frames-IsOnId w s [] = tt
  send_frames-IsOnId w s (f ∷ []) = (refl, tt)
  send_frames-IsOnId w s (f ∷ g ∷ rest) = (refl, tt)

  respond-IsOnId :
      (c : FaultConfig) (d : Draws) (w : Worker) (s : DatapointStore) (o : Option Bytes)
      → IsOnId (respond c d id w (s, o)).2
  unfolding respond
  respond-IsOnId c d w s none = tt
  respond-IsOnId c d w s (some r) = elim (Result-cases (segment r)) [
    | inl (frames, e) ↦ rw (e, respond) (send_frames-IsOnId w s (maybe_inject c d frames))
    | inr (x, e) ↦ rw (e, respond) tt
  ]

  fc_sent-IsOnId : (fc : Option Bytes) → IsOnId (fc_sent id fc)
  fc_sent-IsOnId none = tt
  fc_sent-IsOnId (some fc) = (refl, tt)

  process_fed-IsOnId :
      (h : ProtocolHandler) (c : FaultConfig) (d : Draws) (w : Worker) (s : DatapointStore)
      (r : Result Fed)
      → IsOnId (process_fed h c d id w s r).2
  unfolding process_fed
  process_fed-IsOnId h c d w s (err e) = tt
  process_fed-IsOnId h c d w s (ok (a, none, fc)) = fc_sent-IsOnId fc
  process_fed-IsOnId h c d w s (ok (a, some p, fc)) =
      All-append (λ m. m.0 ≡ id) (fc_sent id fc) _ (fc_sent-IsOnId fc)
        (respond-IsOnId c d (record w { assembler = a }) (h p s).0 (h p s).1)

  resume-IsOnId :
      (w : Worker) (s : DatapointStore) (cfs : List Bytes) (d : Bytes)
      → IsOnId (resume id w s cfs d).2
  unfolding resume
  resume-IsOnId w s cfs [] = tt
  resume-IsOnId w s cfs (b0 ∷ rest) =
      if_ind (λ (r : Stepped). IsOnId r.2) (b0 / 2 ^ 4 == 0x3) _ _ (λ _. to_id-IsOnId cfs) (λ _. tt)

  take_event-IsOnId :
      (h : ProtocolHandler) (c : FaultConfig) (w : Worker) (s : DatapointStore)
      (waiting : Option (List Bytes)) (e : Event)
      → IsOnId (take_event h c id w s waiting e).2
  unfolding take_event
  take_event-IsOnId h c w s none silence = tt
  take_event-IsOnId h c w s none (frame data_bytes d) =
      process_fed-IsOnId h c d w s (feed w.assembler data_bytes)
  take_event-IsOnId h c w s (some cfs) silence = tt
  take_event-IsOnId h c w s (some cfs) (frame data_bytes d) = resume-IsOnId w s cfs data_bytes

  worker_step-IsOnId :
      (h : ProtocolHandler) (c : FaultConfig) (w : Worker) (s : DatapointStore) (e : Event)
      → IsOnId (worker_step h c id w s e).2
  unfolding worker_step
  worker_step-IsOnId h c w s e =
      if_ind (λ (r : Stepped). IsOnId r.2) w.alive _ _ (λ _. take_event-IsOnId h c w s w.waiting e)
        (λ _. tt)

  data_on-IsOnId :
      (other_id : ℕ) (sent : List Sent) → IsOnId sent → id ≢ other_id → data_on other_id sent ≡ []
  data_on-IsOnId other_id [] h ne = refl
  data_on-IsOnId other_id ((i, f) ∷ sent) h ne =
      rw (==-false i other_id (λ e. ne (sym h.0 ∙ e))) (data_on-IsOnId other_id sent h.1 ne)

-- What a device sends in one step is not seen on any other CAN-ID than that of the channel.
pub device_step-data_on :
    (dev : SimulatedDevice) (c : Channel) (e : Event) (id : ℕ)
    → response_id dev c ≢ id
    → data_on id (device_step dev c e).1 ≡ []
unfolding device_step
device_step-data_on dev on_uds e id ne =
    data_on-IsOnId (response_id dev on_uds) id _
      (worker_step-IsOnId (response_id dev on_uds) (handle_uds dev.protected) dev.config dev.uds
        dev.store e)
      ne
device_step-data_on dev on_s77 e id ne =
    data_on-IsOnId (response_id dev on_s77) id _
      (worker_step-IsOnId (response_id dev on_s77) handle_service77 dev.config dev.s77 dev.store e)
      ne

-- A step keeps the CAN-IDs of a device.
pub device_step_tx_id :
    (dev : SimulatedDevice) (c : Channel) (e : Event) → (device_step dev c e).0.tx_id ≡ dev.tx_id
unfolding device_step
device_step_tx_id dev on_uds e = refl
device_step_tx_id dev on_s77 e = refl
