-- ===== src/Device/Linear.antt =====
-- The run of a device of simulator/device.py for two clients, one on each request CAN-ID, whose
-- frames are interleaved: the requests take effect one after the other.
use e3on_canserver.Base.{
  ok, ℕ, ◌≡◌, refl, sym, ap, ◌∙◌, subst, false, List, [], ◌∷◌, ◌++◌, arith, All, All-append_parts,
}
use e3on_canserver.Datastore.Laws.{StoreIsBounded}
use e3on_canserver.Isotp.{Bytes, Assembler, reset}
use e3on_canserver.Isotp.RoundTrip.{receive}
use e3on_canserver.Uds.{handle_uds}
use e3on_canserver.Service77.{handle_service77}
use e3on_canserver.Faults.Config.{has_errors}
use e3on_canserver.Device.{
  Sent, frame, Stepped, worker_step, SimulatedDevice, Channel, on_uds, on_s77, response_id, run,
}
use e3on_canserver.Device.Health.{max_value, uds-IsBoundedHandler, service77-IsBoundedHandler}
use e3on_canserver.Device.Clients.{IsRequest, Phase, Advanced}
use e3on_canserver.Device.Serving.{step-Advanced}
use e3on_canserver.Device.Reads.{data_on}
use e3on_canserver.Device.Requests.{
  Arrival, arrivals, of_channel, frames_on, handle_all, on_channel, of_channel-own,
  of_channel-other, handle_all-on_channel,
}
use e3on_canserver.Device.Received.{nothing_owed, answer_all-StoreIsBounded, got-own, got-other}

-- What both clients have got when all their frames have been taken, and what the device stores.
pub record Linear (dev : SimulatedDevice) (uds_client s77_client : Assembler)
    (uds_requests s77_requests uds_owed s77_owed : List Bytes) (out : SimulatedDevice × List Sent)
    : Type 0 where
  pub order : List (Channel × Bytes)
  pub uds_order : of_channel on_uds order ≡ uds_requests
  pub s77_order : of_channel on_s77 order ≡ s77_requests
  pub stored : out.0.store ≡ (handle_all dev.protected dev.store order).0
  pub uds_got :
      receive uds_client (data_on (response_id dev on_uds) out.1)
      ≡ ok (reset, uds_owed ++ of_channel on_uds (handle_all dev.protected dev.store order).1)
  pub s77_got :
      receive s77_client (data_on (response_id dev on_s77) out.1)
      ≡ ok (reset, s77_owed ++ of_channel on_s77 (handle_all dev.protected dev.store order).1)

no_events-Linear :
    (dev : SimulatedDevice) (flow_u flow_s : Bytes) (cu cs : Assembler)
    (fu fs ru rs ou os : List Bytes)
    → Phase flow_u dev.uds cu fu ru ou
    → Phase flow_s dev.s77 cs fs rs os
    → fu ≡ []
    → fs ≡ []
    → Linear dev cu cs ru rs ou os (dev, [])
no_events-Linear dev flow_u flow_s cu cs fu fs ru rs ou os pu ps eu es =
    let (cu_end, ru_end, ou_end) = nothing_owed flow_u dev.uds cu fu ru ou pu eu in
    let (cs_end, rs_end, os_end) = nothing_owed flow_s dev.s77 cs fs rs os ps es in
    record {
      order = [];
      uds_order = sym ru_end;
      s77_order = sym rs_end;
      stored = unfold handle_all in refl;
      uds_got = rw (cu_end, ou_end) (unfold receive handle_all in refl);
      s77_got = rw (cs_end, os_end) (unfold receive handle_all in refl);
    }

module _ (dev : SimulatedDevice) (flow : Bytes) (frames : List Bytes) (cu cs : Assembler)
    (ru rs ou os : List Bytes) (r : Stepped) (out : SimulatedDevice × List Sent) where
  -- A step of the UDS worker, and then the rest.
  uds_step-Linear :
      (adv : Advanced
        (handle_uds dev.protected)
        (response_id dev on_uds)
        flow
        dev.store
        cu
        frames
        ru
        ou
        r)
      → Linear
          (record dev { uds = r.0; store = r.1 })
          adv.client
          cs
          adv.unserved
          rs
          adv.owed_now
          os
          out
      → Linear dev cu cs ru rs ou os (out.0, r.2 ++ out.1)
  uds_step-Linear adv rest = record {
    order = on_channel on_uds adv.served ++ rest.order;
    uds_order =
        of_channel-own on_uds adv.served rest.order
        ∙ ap (λ l. adv.served ++ l) rest.uds_order
        ∙ sym adv.asked;
    s77_order = of_channel-other on_uds adv.served rest.order ∙ rest.s77_order;
    stored =
        rw
          (
            handle_all-on_channel dev.protected on_uds adv.served rest.order dev.store,
            sym adv.stored,
          )
          rest.stored;
    uds_got = rw adv.on_id (
        got-own dev.protected on_uds (response_id dev on_uds) dev.store r.1 adv.served rest.order cu
          adv.client adv.sent adv.got ou adv.owed_now out.1 adv.stored adv.received adv.paid
          rest.uds_got);
    s77_got = rw adv.on_id (
        got-other dev.protected on_uds (response_id dev on_s77) (response_id dev on_uds) dev.store
          r.1 adv.served rest.order cs adv.sent os out.1 adv.stored (omega arith) rest.s77_got);
  }

  -- A step of the Service 77 worker, and then the rest.
  s77_step-Linear :
      (adv : Advanced handle_service77 (response_id dev on_s77) flow dev.store cs frames rs os r)
      → Linear
          (record dev { s77 = r.0; store = r.1 })
          cu
          adv.client
          ru
          adv.unserved
          ou
          adv.owed_now
          out
      → Linear dev cu cs ru rs ou os (out.0, r.2 ++ out.1)
  s77_step-Linear adv rest = record {
    order = on_channel on_s77 adv.served ++ rest.order;
    uds_order = of_channel-other on_s77 adv.served rest.order ∙ rest.uds_order;
    s77_order =
        of_channel-own on_s77 adv.served rest.order
        ∙ ap (λ l. adv.served ++ l) rest.s77_order
        ∙ sym adv.asked;
    stored =
        rw
          (
            handle_all-on_channel dev.protected on_s77 adv.served rest.order dev.store,
            sym adv.stored,
          )
          rest.stored;
    uds_got = rw adv.on_id (
        got-other dev.protected on_s77 (response_id dev on_uds) (response_id dev on_s77) dev.store
          r.1 adv.served rest.order cu adv.sent ou out.1 adv.stored (omega arith) rest.uds_got);
    s77_got = rw adv.on_id (
        got-own dev.protected on_s77 (response_id dev on_s77) dev.store r.1 adv.served rest.order cs
          adv.client adv.sent adv.got os adv.owed_now out.1 adv.stored adv.received adv.paid
          rest.s77_got);
  }

-- The requests behind those that a step has served.
unserved-AreRequests :
    (reqs served unserved : List Bytes)
    → reqs ≡ served ++ unserved
    → All IsRequest reqs
    → All IsRequest served × All IsRequest unserved
unserved-AreRequests reqs served unserved e h =
    All-append_parts IsRequest served unserved (subst (All IsRequest) e h)

pub run-Linear :
    (dev : SimulatedDevice) (flow_u flow_s : Bytes) (es : List (Channel × Arrival))
    (cu cs : Assembler) (fu fs ru rs ou os : List Bytes)
    → has_errors dev.config ≡ false
    → StoreIsBounded max_value dev.store
    → All IsRequest ru
    → All IsRequest rs
    → Phase flow_u dev.uds cu fu ru ou
    → Phase flow_s dev.s77 cs fs rs os
    → fu ≡ frames_on on_uds es
    → fs ≡ frames_on on_s77 es
    → Linear dev cu cs ru rs ou os (run dev (arrivals es))
unfolding run
run-Linear dev flow_u flow_s [] cu cs fu fs ru rs ou os clean bound reqs_u reqs_s pu ps eu es_eq =
    no_events-Linear dev flow_u flow_s cu cs fu fs ru rs ou os pu ps eu es_eq
run-Linear dev flow_u flow_s ((on_uds, a) ∷ es) cu cs fu fs ru rs ou os clean bound reqs_u reqs_s pu
      ps eu es_eq =
    let id : ℕ = response_id dev on_uds in
    let r : Stepped =
      worker_step (handle_uds dev.protected) dev.config id dev.uds dev.store (frame a.0 a.1) in
    let adv : Advanced (handle_uds dev.protected) id flow_u dev.store cu (frames_on on_uds es) ru ou
        r =
      step-Advanced (handle_uds dev.protected) (uds-IsBoundedHandler dev.protected) dev.config id
        flow_u clean dev.uds cu fu ru ou dev.store a.0 (frames_on on_uds es) a.1 pu eu reqs_u
        bound in
    let parts : All IsRequest adv.served × All IsRequest adv.unserved =
      unserved-AreRequests ru adv.served adv.unserved adv.asked reqs_u in
    let bounded : StoreIsBounded max_value r.1 = rw adv.stored (
      answer_all-StoreIsBounded (handle_uds dev.protected) adv.served dev.store
        (uds-IsBoundedHandler dev.protected) parts.0 bound) in
    let next : SimulatedDevice = record dev { uds = r.0; store = r.1 } in
    let later : SimulatedDevice × List Sent = run next (arrivals es) in
    uds_step-Linear dev flow_u (frames_on on_uds es) cu cs ru rs ou os r later adv (
      run-Linear next flow_u flow_s es adv.client cs (frames_on on_uds es) fs adv.unserved rs
        adv.owed_now os clean bounded parts.1 reqs_s adv.phase ps refl es_eq)
run-Linear dev flow_u flow_s ((on_s77, a) ∷ es) cu cs fu fs ru rs ou os clean bound reqs_u reqs_s pu
      ps eu es_eq =
    let id : ℕ = response_id dev on_s77 in
    let r : Stepped =
      worker_step handle_service77 dev.config id dev.s77 dev.store (frame a.0 a.1) in
    let adv : Advanced handle_service77 id flow_s dev.store cs (frames_on on_s77 es) rs os r =
      step-Advanced handle_service77 service77-IsBoundedHandler dev.config id flow_s clean dev.s77
        cs fs rs os dev.store a.0 (frames_on on_s77 es) a.1 ps es_eq reqs_s bound in
    let parts : All IsRequest adv.served × All IsRequest adv.unserved =
      unserved-AreRequests rs adv.served adv.unserved adv.asked reqs_s in
    let bounded : StoreIsBounded max_value r.1 = rw adv.stored (
      answer_all-StoreIsBounded handle_service77 adv.served dev.store service77-IsBoundedHandler
        parts.0 bound) in
    let next : SimulatedDevice = record dev { s77 = r.0; store = r.1 } in
    let later : SimulatedDevice × List Sent = run next (arrivals es) in
    s77_step-Linear dev flow_s (frames_on on_s77 es) cu cs ru rs ou os r later adv (
      run-Linear next flow_u flow_s es cu adv.client fu (frames_on on_s77 es) ru adv.unserved ou
        adv.owed_now clean bounded reqs_u parts.1 pu adv.phase eu refl)
