-- ===== src/Doip/Conversation.antt =====
-- A conversation over DoIP, from the bytes that a client sends to the bytes that it gets: the
-- session of simulator/doip.py on the devices answers as the specifications of the devices do.
use mathlib.Core.Option
use e3on_canserver.Base.{
  ℕ, ◌+◌, ◌≡◌, refl, sym, ap, ◌∙◌, fun_ext, inl, inr, true, false, none, some, List, [], ◌∷◌, ◌++◌,
  arith, ◌==◌, if◌then◌else◌, Bool-cases, Option-cases, All,
}
use e3on_canserver.Base.Dict.{
  lookup, insert, lookup-insert, AllValues, insert-AllValues, lookup-AllValues,
}
use e3on_canserver.Isotp.{Bytes}
use e3on_canserver.Datastore.{DatapointStore}
use e3on_canserver.Uds.{handle_uds}
use e3on_canserver.Uds.Frame.{handle_uds-StoreIsBounded}
use e3on_canserver.Faults.Config.{Draws}
use e3on_canserver.Device.{SimulatedDevice, on_uds}
use e3on_canserver.Device.Health.{max_value}
use e3on_canserver.Doip.{
  pt_routing_activation_req, pt_diagnostic_msg, diag_nack_unknown_target,
  routing_activation_response, diagnostic_ack, Devices, SessionState, Handled, client_address,
  handle_frame, written_before, go_on, session,
}
use e3on_canserver.Doip.Session.{
  encode, serve, session-encode, diagnostic_request, diagnostic_unknown_target, diagnostic_exchange,
}
use e3on_canserver.Ecu.{Ecu, serve_payload}
use e3on_canserver.Ecu.Refines.{view, handle_uds-refines}
use e3on_canserver.Doip.Gateway.{
  Gateway, device_view, gateway_view, DoipRequest, acknowledged, gateway_answer, gateway_step,
  gateway_serve, diagnostics, IsClean, IsDoipRequest,
}

-- A frame handled as the specification says.
pub record Answers (st : SessionState) (q : DoipRequest) (h : Handled) : Type 0 where
  pub state : SessionState
  pub handled : h ≡ (state, (gateway_step (gateway_view st.devices) q).1, false)
  pub seen : gateway_view state.devices ≡ (gateway_step (gateway_view st.devices) q).0
  pub active : state.activated ≡ true
  pub clean : AllValues IsClean state.devices

gateway_view-insert :
    (target : ℕ) (dev : SimulatedDevice) (ds : Devices)
    → gateway_view (insert target dev ds)
      ≡ (λ j. if target == j then some (device_view dev) else gateway_view ds j)
gateway_view-insert target dev ds = fun_ext (λ j.
    rw (lookup-insert target j dev ds)
      (elim (Bool-cases (target == j)) [ inl e ↦ rw e refl | inr e ↦ rw e refl ]))

gateway_step_unknown :
    (ds : Devices) (source target : ℕ) (uds : Bytes)
    → lookup target ds ≡ none
    → gateway_step (gateway_view ds) (source, target, uds)
      ≡ (gateway_view ds, diagnostic_ack target source diag_nack_unknown_target ∷ [])
unfolding gateway_step
gateway_step_unknown ds source target uds h =
    ap (λ o. gateway_answer (gateway_view ds) source target uds (Option.map device_view o)) h

gateway_step_known :
    (ds : Devices) (source target : ℕ) (uds : Bytes) (dev : SimulatedDevice)
    → lookup target ds ≡ some dev
    → gateway_step (gateway_view ds) (source, target, uds)
      ≡ gateway_answer (gateway_view ds) source target uds (some (device_view dev))
unfolding gateway_step
gateway_step_known ds source target uds dev h =
    ap (λ o. gateway_answer (gateway_view ds) source target uds (Option.map device_view o)) h

-- Both requests that a device answers and requests to an address without a device.
known-Answers :
    (st : SessionState) (d : Draws) (source target u : ℕ) (us : Bytes) (dev : SimulatedDevice)
    → st.activated ≡ true
    → AllValues IsClean st.devices
    → IsDoipRequest (source, target, u ∷ us)
    → lookup target st.devices ≡ some dev
    → Answers st
        (source, target, u ∷ us)
        (handle_frame st d pt_diagnostic_msg (diagnostic_request source target (u ∷ us)))
known-Answers st d source target u us dev h c (req, bytes) here =
    let fine : IsClean dev = lookup-AllValues IsClean target st.devices dev c here in
    let s : DatapointStore = (handle_uds dev.protected (u ∷ us) dev.store).0 in
    let (r, given, replied) =
      diagnostic_exchange st d source target u us dev h here fine.no_errors fine.bounded in
    let same : (view s, (handle_uds dev.protected (u ∷ us) dev.store).1)
        ≡ serve_payload dev.protected (view dev.store) on_uds (u ∷ us) =
      handle_uds-refines dev.protected (u ∷ us) dev.store bytes in
    let now : SimulatedDevice = record dev { store = s } in
    let step : gateway_step (gateway_view st.devices) (source, target, u ∷ us)
        ≡ gateway_answer (gateway_view st.devices) source target (u ∷ us) (some (device_view dev)) =
      gateway_step_known st.devices source target (u ∷ us) dev here in
    record {
      state = record st { devices = insert target now st.devices };
      handled =
          replied
          ∙ ap (λ out. (record st { devices = insert target now st.devices }, out, false))
              (ap (acknowledged source target) (sym given ∙ ap (λ a. a.1) same)
                ∙ sym (ap (λ a. a.1) step));
      seen =
          gateway_view-insert target now st.devices
          ∙ ap
              (λ (e : Ecu). λ (j : ℕ).
                if target == j then some (dev.protected, e) else gateway_view st.devices j)
              (ap (λ a. a.0) same)
          ∙ sym (ap (λ a. a.0) step);
      active = h;
      clean =
          insert-AllValues IsClean target now st.devices
            (record {
              no_errors = fine.no_errors;
              bounded =
                  handle_uds-StoreIsBounded max_value dev.protected (u ∷ us) dev.store req.1
                    fine.bounded;
            })
            c;
    }

pub handle_frame-Answers :
    (st : SessionState) (d : Draws) (source target : ℕ) (uds : Bytes)
    → st.activated ≡ true
    → AllValues IsClean st.devices
    → IsDoipRequest (source, target, uds)
    → Answers st
        (source, target, uds)
        (handle_frame st d pt_diagnostic_msg (diagnostic_request source target uds))
handle_frame-Answers st d source target [] h c (req, bytes) = absurd (omega (arith, req.0))
handle_frame-Answers st d source target (u ∷ us) h c (req, bytes) =
    elim (Option-cases (lookup target st.devices)) [
      | inl no_device ↦
          let step : gateway_step (gateway_view st.devices) (source, target, u ∷ us) ≡ (
            gateway_view st.devices,
            diagnostic_ack target source diag_nack_unknown_target ∷ [],
          ) =
            gateway_step_unknown st.devices source target (u ∷ us) no_device in
          record {
            state = st;
            handled =
                diagnostic_unknown_target st d source target u us h no_device
                ∙ ap (λ out. (st, out, false)) (sym (ap (λ r. r.1) step));
            seen = sym (ap (λ r. r.0) step);
            active = h;
            clean = c;
          }
      | inr (dev, here) ↦ known-Answers st d source target u us dev h c (req, bytes) here
    ]

-- The requests served one by one.
serve-gateway :
    (draws : ℕ → Draws) (k : ℕ) (st : SessionState) (qs : List DoipRequest)
    → st.activated ≡ true
    → AllValues IsClean st.devices
    → All IsDoipRequest qs
    → (st' : SessionState) × (serve draws k st (diagnostics qs)
        ≡ some (st', (gateway_serve (gateway_view st.devices) qs).1))
      × (gateway_view st'.devices ≡ (gateway_serve (gateway_view st.devices) qs).0)
unfolding serve gateway_serve
serve-gateway draws k st [] h c ok_qs = (st, refl, refl)
serve-gateway draws k st (q ∷ qs) h c ok_qs =
    let a : Answers st q
        (handle_frame st (draws k) pt_diagnostic_msg (diagnostic_request q.0 q.1 q.2)) =
      handle_frame-Answers st (draws k) q.0 q.1 q.2 h c ok_qs.0 in
    let (st', rest, seen) = serve-gateway draws (k + 1) a.state qs a.active a.clean ok_qs.1 in
    (
      st',
      ap (λ r. go_on r (λ t. serve draws (k + 1) t (diagnostics qs))) a.handled
          ∙ ap (written_before (gateway_step (gateway_view st.devices) q).1) rest
          ∙ ap
              (λ (g : Gateway).
                some (st', (gateway_step (gateway_view st.devices) q).1 ++ (gateway_serve g qs).1))
              a.seen,
      seen ∙ ap (λ (g : Gateway). (gateway_serve g qs).0) a.seen,
    )

serve_activation :
    (draws : ℕ → Draws) (ds : Devices) (activation : Bytes) (ms : List (ℕ × Bytes))
    → serve draws 0
        (record { activated = false; devices = ds })
        ((pt_routing_activation_req, activation) ∷ ms)
      ≡ written_before
          (routing_activation_response (client_address activation) ∷ [])
          (serve draws 1 (record { activated = true; devices = ds }) ms)
unfolding serve handle_frame
serve_activation draws ds activation ms = refl

-- A client of DoIP sends the bytes of a Routing Activation Request and then of any number of
-- Diagnostic Messages, each with a UDS payload of 1 to 4095 bytes, to devices with an error rate of
-- 0 and values within 4092 bytes. The session writes exactly the activation response, and then for
-- each message what the specification of the addressed device answers, behind the ACK, or the
-- negative ACK for an address without a device; and the devices end as their specifications say.
pub session-gateway :
    (draws : ℕ → Draws) (ds : Devices) (activation : Bytes) (qs : List DoipRequest)
    → AllValues IsClean ds
    → All IsDoipRequest qs
    → (st : SessionState) × (session draws
          (record { activated = false; devices = ds })
          (encode ((pt_routing_activation_req, activation) ∷ diagnostics qs))
        ≡ some (
          st,
          routing_activation_response (client_address activation)
              ∷ (gateway_serve (gateway_view ds) qs).1,
        ))
      × (gateway_view st.devices ≡ (gateway_serve (gateway_view ds) qs).0)
session-gateway draws ds activation qs c ok_qs =
    let (st, rest, seen) =
      serve-gateway draws 1 (record { activated = true; devices = ds }) qs refl c ok_qs in
    (
      st,
      session-encode draws (record { activated = false; devices = ds })
            ((pt_routing_activation_req, activation) ∷ diagnostics qs)
          ∙ serve_activation draws ds activation (diagnostics qs)
          ∙ ap (written_before (routing_activation_response (client_address activation) ∷ [])) rest,
      seen,
    )
