-- ===== src/Device/Clients.antt =====
-- Clients of simulator/device.py over CAN: what one of them sends to one request CAN-ID, where it
-- stands between two frames, and what serving its requests one after the other gives.
use e3on_canserver.Base.{ok, ℕ, ◌+◌, ◌≤◌, ◌<◌, ◌≡◌, true, none, some, List, [], ◌∷◌, ◌++◌, length}
use e3on_canserver.Isotp.{Bytes, consecutive_frames, segment, Assembler, reset}
use e3on_canserver.Isotp.RoundTrip.{collected, receive, waiting}
use e3on_canserver.Datastore.{DatapointStore}
use e3on_canserver.Uds.{ProtocolHandler}
use e3on_canserver.Isotp.Segments.{frames_in}
use e3on_canserver.Device.{Worker, Stepped, to_id}

-- A client sends the frames of a request and then one Flow Control frame, whether the response
-- needs it or not, and goes on with the next request.
abbrev pub flow_frame : Bytes → Bytes
flow_frame flow = 0x30 ∷ flow

unfoldable pub client_frames : Bytes → List Bytes → List Bytes
client_frames flow [] = []
client_frames flow (p ∷ ps) = frames_in (segment p) ++ (flow_frame flow ∷ client_frames flow ps)

-- A request that ISO-TP can carry.
abbrev pub IsRequest : Bytes → Type 0
IsRequest p = (1 ≤ length p) × (length p ≤ 4095)

-- Requests served one after the other: the store, and the responses that were given.
unfoldable pub answer_all :
    ProtocolHandler → List Bytes → DatapointStore → DatapointStore × List Bytes
answer_all h [] s = (s, [])
answer_all h (p ∷ ps) s =
    let (s', r) = h p s in let (s'', rs) = answer_all h ps s' in (s'', collected r rs)

-- A worker between two frames: it takes the next one, or waits for Flow Control with these frames.
abbrev pub running : Assembler → Worker
running a = record { assembler = a; waiting = none; alive = true }

abbrev pub holding : Assembler → List Bytes → Worker
holding a cfs = record { assembler = a; waiting = some cfs; alive = true }

-- Where a worker and its client stand: the client's own assembler, the frames that it has still to
-- send, the requests that are not served yet, and the responses that it has not got yet.
pub data Phase (flow : Bytes)
    : Worker → Assembler → List Bytes → List Bytes → List Bytes → Type 0 where
  between :
      (a : Assembler) (ps : List Bytes) → Phase flow (running a) reset (client_frames flow ps) ps []
  asking :
      (b rem : Bytes) (fuel seq : ℕ) (ps : List Bytes)
      → seq < 16
      → length rem ≤ fuel
      → 0 < length rem
      → length b + length rem ≤ 4095
      → Phase flow
          (running (waiting (length b + length rem) b seq))
          reset
          (consecutive_frames fuel seq rem ++ (flow_frame flow ∷ client_frames flow ps))
          ((b ++ rem) ∷ ps)
          []
  answered :
      (a : Assembler) (ps : List Bytes)
      → Phase flow (running a) reset (flow_frame flow ∷ client_frames flow ps) ps []
  owing :
      (a c : Assembler) (cfs : List Bytes) (r : Bytes) (ps : List Bytes)
      → receive c cfs ≡ ok (reset, r ∷ [])
      → Phase flow (holding a cfs) c (flow_frame flow ∷ client_frames flow ps) ps (r ∷ [])

-- What one step of a worker means to its client: the requests that it served, at most one, the
-- frames that it sent, and the responses that the client has put together from them.
pub record Advanced (h : ProtocolHandler) (id : ℕ) (flow : Bytes) (s : DatapointStore)
    (c : Assembler) (fs reqs owed : List Bytes) (r : Stepped) : Type 0 where
  pub served : List Bytes
  pub unserved : List Bytes
  pub sent : List Bytes
  pub got : List Bytes
  pub owed_now : List Bytes
  pub client : Assembler
  pub phase : Phase flow r.0 client fs unserved owed_now
  pub asked : reqs ≡ served ++ unserved
  pub stored : r.1 ≡ (answer_all h served s).0
  pub on_id : r.2 ≡ to_id id sent
  pub received : receive c sent ≡ ok (client, got)
  pub paid : got ++ owed_now ≡ owed ++ (answer_all h served s).1
