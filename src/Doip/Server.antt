-- ===== src/Doip/Server.antt =====
-- The DoIP server of simulator/doip.py: any number of connections at the same time, each with its
-- session, on the same devices. What arrives on the connections is one sequence; a frame takes
-- effect on a device at the moment at which its request is handed to the device.
use e3on_canserver.Base.{
  ℕ, Bool, false, Option, none, some, List, [], ◌∷◌, ◌++◌, map, ◌==◌, if◌then◌else◌,
}
use e3on_canserver.Isotp.{Bytes}
use e3on_canserver.Faults.Config.{Draws}
use e3on_canserver.Doip.{Devices, Handled, DoipFrame, round}

-- What happens on one connection: it is accepted, a frame has been read, or it ends.
pub data ConnectionEvent : Type 0 where
  accepted : ConnectionEvent
  arrived : Draws → DoipFrame → ConnectionEvent
  closed : ConnectionEvent

-- The devices, and for each connection that is open the `activated` of its session.
pub record ServerState : Type 0 where
  pub devices : Devices
  pub connections : ℕ → Option Bool

-- After a frame: an exception closes the connection, as the `finally` of `_handle_connection` does.
abbrev pub after_round : Handled → Devices × Option Bool × List Bytes
after_round (st, out, raised) = (st.devices, (if raised then none else some st.activated), out)

-- One event for a connection in this state: the devices, the connection, and the frames written.
unfoldable pub connection_step :
    ConnectionEvent → Devices → Option Bool → Devices × Option Bool × List Bytes
unfolding round
connection_step accepted ds c = (ds, some false, [])
connection_step closed ds c = (ds, none, [])
connection_step (arrived d f) ds none = (ds, none, [])
connection_step (arrived d f) ds (some activated) =
    after_round (round (record { activated = activated; devices = ds }) d f)

abbrev pub connect : ℕ → Option Bool → (ℕ → Option Bool) → ℕ → Option Bool
connect n c connections j = if j == n then c else connections j

abbrev pub written : ℕ → List Bytes → List (ℕ × Bytes)
written n = map (λ f. (n, f))

-- The server over a sequence of events: the state, and the frames written, each with its
-- connection.
unfoldable pub serve_events :
    ServerState → List (ℕ × ConnectionEvent) → ServerState × List (ℕ × Bytes)
unfolding connection_step
serve_events st [] = (st, [])
serve_events st ((n, e) ∷ es) =
    let (ds, c, out) = connection_step e st.devices (st.connections n) in
    let (st', later) =
      serve_events (record { devices = ds; connections = connect n c st.connections }) es in
    (st', written n out ++ later)
