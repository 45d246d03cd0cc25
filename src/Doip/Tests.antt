-- ===== src/Doip/Tests.antt =====
-- Runs of simulator/doip.py, and its theorems at concrete inputs.
use e3on_canserver.Base.{
  ℕ, ◌≡◌, refl, ◌≢◌, inl, inr, true, false, none, some, List, [], ◌∷◌, ◌++◌, arith,
}
use e3on_canserver.Base.Int.{pos}
use e3on_canserver.Datastore.Laws.{StoreIsBounded}
use e3on_canserver.Isotp.{Bytes, pad, segment}
use e3on_canserver.Datastore.{read}
use e3on_canserver.Uds.{handle_uds}
use e3on_canserver.Faults.Config.{has_errors, Draws, maybe_inject}
use e3on_canserver.Device.{SimulatedDevice, idle}
use e3on_canserver.Doip.{
  pt_routing_activation_req, pt_diagnostic_msg, diag_ack, routing_activation_response,
  diagnostic_ack, diagnostic_message, SessionState, client_address, session,
}
use e3on_canserver.Doip.Frames.{good_frame}
use e3on_canserver.Doip.Session.{
  encode, serve, session-encode, session-ne-none, session-inactive, diagnostic_request,
}
use e3on_canserver.Device.Doip.{handle_uds_payload}
use e3on_canserver.Device.Health.{max_value}
use e3on_canserver.Doip.Server.{
  ConnectionEvent, accepted, arrived, closed, ServerState, serve_events,
}
use e3on_canserver.Doip.Isolation.{without, serve_events-without}
use e3on_canserver.Doip.Gateway.{gateway_view, DoipRequest, gateway_serve, diagnostics}
use e3on_canserver.Doip.Conversation.{session-gateway}
use e3on_canserver.Doip.Sharing.{
  enter, activate, ask, leave, Arriving, arriving, serve_messages, serve_events-messages,
}

abbrev gateway : SimulatedDevice
gateway = record {
  tx_id = 0x680;
  protected = [];
  config = record { delay_ms = pos 0; error_pct = pos 0 };
  store = record { table = (268, 1 ∷ 2 ∷ []) ∷ []; resolvers = [] };
  uds = idle;
  s77 = idle;
}

abbrev no_draws : Draws
no_draws = record { roll = 0; pick = 0; value = 0 }

abbrev closed_session : SessionState
closed_session = record { activated = false; devices = (0x680, gateway) ∷ [] }

abbrev open_session : SessionState
open_session = record { activated = true; devices = (0x680, gateway) ∷ [] }

abbrev read_message : ℕ × Bytes
read_message = (pt_diagnostic_msg, diagnostic_request 0x0e80 0x680 (0x22 ∷ 1 ∷ 12 ∷ []))

abbrev activation : ℕ × Bytes
activation = (pt_routing_activation_req, 0x0e ∷ 0x80 ∷ 0 ∷ 0 ∷ 0 ∷ 0 ∷ 0 ∷ [])

-- A request before activation, the activation, the request again, and an incomplete frame.
session_activates :
    session
      (λ k. no_draws)
      closed_session
      (encode (read_message ∷ activation ∷ read_message ∷ []) ++ (2 ∷ 0xfd ∷ []))
    ≡ some (
      open_session,
      routing_activation_response 0x0e80
          ∷ diagnostic_ack 0x680 0x0e80 diag_ack
          ∷ diagnostic_message 0x680 0x0e80 (0x62 ∷ 1 ∷ 12 ∷ 1 ∷ 2 ∷ [])
          ∷ [],
    )
unfolding session handle_uds_payload handle_uds read segment maybe_inject pad
session_activates = refl

-- A frame with a bad sync check is dropped with its payload, and the next one is served.
session_resyncs :
    session
      (λ k. no_draws)
      closed_session
      ((1 ∷ 0xfe ∷ 0 ∷ 5 ∷ 0 ∷ 0 ∷ 0 ∷ 1 ∷ 7 ∷ []) ++ encode (activation ∷ []))
    ≡ some (open_session, routing_activation_response 0x0e80 ∷ [])
unfolding session
session_resyncs = refl

session-encode_example :
    session (λ k. no_draws) closed_session (encode (activation ∷ read_message ∷ []))
    ≡ serve (λ k. no_draws) 0 closed_session (activation ∷ read_message ∷ [])
session-encode_example =
    session-encode (λ k. no_draws) closed_session (activation ∷ read_message ∷ [])

session-ne-none_example : session (λ k. no_draws) closed_session (2 ∷ 0xfd ∷ 0 ∷ []) ≢ none
session-ne-none_example = session-ne-none (λ k. no_draws) closed_session (2 ∷ 0xfd ∷ 0 ∷ [])

session-inactive_example :
    session (λ k. no_draws) closed_session (encode (read_message ∷ [])) ≡ some (closed_session, [])
session-inactive_example =
    session-inactive (λ k. no_draws) closed_session (read_message ∷ []) refl (omega arith)

gateway-StoreIsBounded : StoreIsBounded max_value gateway.store
gateway-StoreIsBounded = record { static = omega arith; dynamic = tt }

-- A write, a read of what was written, and a request to an address without a device.
abbrev conversation : List DoipRequest
conversation =
    (0x0e80, 0x680, 0x2e ∷ 1 ∷ 12 ∷ 7 ∷ [])
    ∷ (0x0e80, 0x680, 0x22 ∷ 1 ∷ 12 ∷ [])
    ∷ (0x0e80, 0x684, 0x22 ∷ 1 ∷ 12 ∷ [])
    ∷ []

-- Two connections, of which only the first asks for activation.
abbrev two_connections : List (ℕ × ConnectionEvent)
two_connections =
    (0, accepted)
    ∷ (1, accepted)
    ∷ (0, arrived no_draws (good_frame activation.0 activation.1))
    ∷ (1, arrived no_draws (good_frame read_message.0 read_message.1))
    ∷ (0, arrived no_draws (good_frame read_message.0 read_message.1))
    ∷ (1, closed)
    ∷ []

abbrev listening : ServerState
listening = record { devices = (0x680, gateway) ∷ []; connections = λ n. none }

serve_events-two_connections :
    (serve_events listening two_connections).1
    ≡ (0, routing_activation_response 0x0e80)
      ∷ (0, diagnostic_ack 0x680 0x0e80 diag_ack)
      ∷ (0, diagnostic_message 0x680 0x0e80 (0x62 ∷ 1 ∷ 12 ∷ 1 ∷ 2 ∷ []))
      ∷ []
unfolding serve_events handle_uds_payload handle_uds read segment maybe_inject pad
serve_events-two_connections = refl

-- A second connection that is activated does not replace the first: both are served.
both_connections_served :
    (serve_events listening (
      (0, accepted)
      ∷ (0, arrived no_draws (good_frame activation.0 activation.1))
      ∷ (1, accepted)
      ∷ (1, arrived no_draws (good_frame activation.0 activation.1))
      ∷ (0, arrived no_draws (good_frame read_message.0 read_message.1))
      ∷ [])).1
    ≡ (0, routing_activation_response 0x0e80)
      ∷ (1, routing_activation_response 0x0e80)
      ∷ (0, diagnostic_ack 0x680 0x0e80 diag_ack)
      ∷ (0, diagnostic_message 0x680 0x0e80 (0x62 ∷ 1 ∷ 12 ∷ 1 ∷ 2 ∷ []))
      ∷ []
unfolding serve_events handle_uds_payload handle_uds read segment maybe_inject pad
both_connections_served = refl

serve_events-without_example :
    let all = serve_events listening two_connections in
    let others = serve_events listening (without 1 two_connections) in
    (all.0.devices ≡ others.0.devices) × (all.1 ≡ others.1)
serve_events-without_example =
    serve_events-without 1 listening two_connections (λ e. cc)
      (
        inl (omega arith),
        (inr tt, (inl (omega arith), (inr (omega arith), (inl (omega arith), (inr tt, tt))))),
      )

session-gateway_example :
    (st : SessionState) × (session
        (λ k. no_draws)
        (record { activated = false; devices = (0x680, gateway) ∷ [] })
        (encode ((pt_routing_activation_req, activation.1) ∷ diagnostics conversation))
      ≡ some (
        st,
        routing_activation_response (client_address activation.1)
            ∷ (gateway_serve (gateway_view ((0x680, gateway) ∷ [])) conversation).1,
      ))
    × (gateway_view st.devices
        ≡ (gateway_serve (gateway_view ((0x680, gateway) ∷ [])) conversation).0)
unfolding has_errors
session-gateway_example =
    session-gateway (λ k. no_draws) ((0x680, gateway) ∷ []) activation.1 conversation
      (record { no_errors = refl; bounded = record { static = omega arith; dynamic = tt } }, tt)
      (omega arith)

-- The second client asks before it is activated, and then reads what the first has written.
abbrev two_clients : List (ℕ × Arriving)
two_clients =
    (0, (no_draws, enter))
    ∷ (1, (no_draws, enter))
    ∷ (0, (no_draws, activate activation.1))
    ∷ (1, (no_draws, ask (0x0e81, 0x680, 0x22 ∷ 1 ∷ 12 ∷ [])))
    ∷ (0, (no_draws, ask (0x0e80, 0x680, 0x2e ∷ 1 ∷ 12 ∷ 7 ∷ [])))
    ∷ (1, (no_draws, activate activation.1))
    ∷ (1, (no_draws, ask (0x0e81, 0x680, 0x22 ∷ 1 ∷ 12 ∷ [])))
    ∷ (0, (no_draws, leave))
    ∷ []

serve_events-messages_example :
    let r = serve_events listening (arriving two_clients) in
    (r.1 ≡ (serve_messages (gateway_view listening.devices) listening.connections two_clients).1)
    × (gateway_view r.0.devices
        ≡ (serve_messages (gateway_view listening.devices) listening.connections two_clients).0)
unfolding has_errors
serve_events-messages_example =
    serve_events-messages listening two_clients
      (record { no_errors = refl; bounded = record { static = omega arith; dynamic = tt } }, tt)
      (omega arith)
