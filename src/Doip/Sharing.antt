-- ===== src/Doip/Sharing.antt =====
-- Any number of clients of the server of simulator/doip.py at the same time: their messages, in the
-- order in which they arrive, are served by the specifications of the devices one after the other.
use e3on_canserver.Base.{
  ℕ, ◌≡◌, refl, ap, ◌∙◌, Bool, true, false, Option, none, some, List, [], ◌∷◌, ◌++◌, map, All,
}
use e3on_canserver.Base.Dict.{AllValues}
use e3on_canserver.Isotp.{Bytes}
use e3on_canserver.Faults.Config.{Draws}
use e3on_canserver.Doip.{
  pt_routing_activation_req, pt_diagnostic_msg, routing_activation_response, Devices, SessionState,
  client_address, handle_frame, round,
}
use e3on_canserver.Doip.Session.{handle_diagnostic-inactive, diagnostic_request}
use e3on_canserver.Doip.Frames.{good_frame}
use e3on_canserver.Doip.Server.{
  ConnectionEvent, accepted, arrived, closed, ServerState, connection_step, connect, written,
  serve_events,
}
use e3on_canserver.Doip.Gateway.{
  Gateway, gateway_view, DoipRequest, gateway_step, IsClean, IsDoipRequest,
}
use e3on_canserver.Doip.Conversation.{Answers, handle_frame-Answers}

-- What a client does on its connection.
pub data ClientMessage : Type 0 where
  enter : ClientMessage
  activate : Bytes → ClientMessage
  ask : DoipRequest → ClientMessage
  leave : ClientMessage

-- The message as the server meets it.
abbrev pub event_of : Draws → ClientMessage → ConnectionEvent
event_of d enter = accepted
event_of d (activate p) = arrived d (good_frame pt_routing_activation_req p)
event_of d (ask q) = arrived d (good_frame pt_diagnostic_msg (diagnostic_request q.0 q.1 q.2))
event_of d leave = closed

abbrev pub IsMessage : ClientMessage → Type 0
IsMessage enter = Unit
IsMessage (activate p) = Unit
IsMessage (ask q) = IsDoipRequest q
IsMessage leave = Unit

-- The specification: a request is answered on an activated connection only.
unfoldable pub message_step :
    ClientMessage → Gateway → Option Bool → Gateway × Option Bool × List Bytes
message_step enter g c = (g, some false, [])
message_step leave g c = (g, none, [])
message_step (activate p) g none = (g, none, [])
message_step (activate p) g (some activated) =
    (g, some true, routing_activation_response (client_address p) ∷ [])
message_step (ask q) g none = (g, none, [])
message_step (ask q) g (some false) = (g, some false, [])
message_step (ask q) g (some true) = let (g', out) = gateway_step g q in (g', some true, out)

-- A message with its connection, and with the draws for a response.
abbrev pub Arriving : Type 0
Arriving = Draws × ClientMessage

abbrev pub arriving : List (ℕ × Arriving) → List (ℕ × ConnectionEvent)
arriving = map (λ m. (m.0, event_of m.1.0 m.1.1))

unfoldable pub serve_messages :
    Gateway → (ℕ → Option Bool) → List (ℕ × Arriving) → Gateway × List (ℕ × Bytes)
unfolding message_step
serve_messages g cs [] = (g, [])
serve_messages g cs ((n, a) ∷ ms) =
    let (g', c, out) = message_step a.1 g (cs n) in
    let (g'', later) = serve_messages g' (connect n c cs) ms in (g'', written n out ++ later)

-- One event does what the specification says of its message.
record Implements (m : Gateway × Option Bool × List Bytes) (r : Devices × Option Bool × List Bytes)
    : Type 0 where
  seen : gateway_view r.0 ≡ m.0
  connection : r.1 ≡ m.1
  out : r.2 ≡ m.2
  clean : AllValues IsClean r.0

ask-Implements :
    (d : Draws) (q : DoipRequest) (ds : Devices)
    → AllValues IsClean ds
    → IsDoipRequest q
    → Implements
        (message_step (ask q) (gateway_view ds) (some true))
        (connection_step (event_of d (ask q)) ds (some true))
unfolding message_step connection_step round
ask-Implements d q ds c req =
    let st : SessionState = record { activated = true; devices = ds } in
    let a : Answers st q (handle_frame st d pt_diagnostic_msg (diagnostic_request q.0 q.1 q.2)) =
      handle_frame-Answers st d q.0 q.1 q.2 refl c req in
    rw a.handled
      (record { seen = a.seen; connection = ap some a.active; out = refl; clean = a.clean })

message_step-Implements :
    (d : Draws) (m : ClientMessage) (ds : Devices) (c : Option Bool)
    → AllValues IsClean ds
    → IsMessage m
    → Implements (message_step m (gateway_view ds) c) (connection_step (event_of d m) ds c)
unfolding message_step connection_step round handle_frame
message_step-Implements d enter ds c clean h = record {
  seen = refl;
  connection = refl;
  out = refl;
  clean = clean;
}
message_step-Implements d leave ds c clean h = record {
  seen = refl;
  connection = refl;
  out = refl;
  clean = clean;
}
message_step-Implements d (activate p) ds none clean h = record {
  seen = refl;
  connection = refl;
  out = refl;
  clean = clean;
}
message_step-Implements d (activate p) ds (some b) clean h = record {
  seen = refl;
  connection = refl;
  out = refl;
  clean = clean;
}
message_step-Implements d (ask q) ds none clean h = record {
  seen = refl;
  connection = refl;
  out = refl;
  clean = clean;
}
message_step-Implements d (ask q) ds (some false) clean h =
    rw
      (handle_diagnostic-inactive (record { activated = false; devices = ds }) d
        (diagnostic_request q.0 q.1 q.2) refl)
      (record { seen = refl; connection = refl; out = refl; clean = clean })
message_step-Implements d (ask q) ds (some true) clean h = ask-Implements d q ds clean h

-- The state of the server behind one message.
abbrev behind_event : ServerState → ℕ → ConnectionEvent → ServerState
behind_event st n e =
    let r = connection_step e st.devices (st.connections n) in
    record { devices = r.0; connections = connect n r.1 st.connections }

-- Any number of clients of the DoIP server send, each on its own connection and interleaved in any
-- way, Routing Activation Requests and Diagnostic Messages with UDS payloads of 1 to 4095 bytes, to
-- devices with an error rate of 0 and values within 4092 bytes. The server writes to each of them
-- exactly what the specification says of the messages in the order in which they arrive: on an
-- activated connection the answer of the addressed device in its present state, on another
-- nothing; and the devices end as their specifications say.
pub serve_events-messages :
    (st : ServerState) (ms : List (ℕ × Arriving))
    → AllValues IsClean st.devices
    → All (λ m. IsMessage m.1.1) ms
    → let r = serve_events st (arriving ms) in
      (r.1 ≡ (serve_messages (gateway_view st.devices) st.connections ms).1)
      × (gateway_view r.0.devices ≡ (serve_messages (gateway_view st.devices) st.connections ms).0)
unfolding serve_events serve_messages
serve_events-messages st [] c h = (refl, refl)
serve_events-messages st ((n, a) ∷ ms) c h =
    let m : Gateway × Option Bool × List Bytes =
      message_step a.1 (gateway_view st.devices) (st.connections n) in
    let i : Implements m (connection_step (event_of a.0 a.1) st.devices (st.connections n)) =
      message_step-Implements a.0 a.1 st.devices (st.connections n) c h.0 in
    let next : ServerState = behind_event st n (event_of a.0 a.1) in
    let (written_later, seen_later) = serve_events-messages next ms i.clean h.1 in
    let same : serve_messages (gateway_view next.devices) next.connections ms
        ≡ serve_messages m.0 (connect n m.1 st.connections) ms =
      ap (λ (g : Gateway). serve_messages g next.connections ms) i.seen
      ∙ ap (λ (o : Option Bool). serve_messages m.0 (connect n o st.connections) ms) i.connection in
    (
      ap (λ o. written n o ++ (serve_events next (arriving ms)).1) i.out
          ∙ ap (λ l. written n m.2 ++ l) (written_later ∙ ap (λ r. r.1) same),
      seen_later ∙ ap (λ r. r.0) same,
    )
