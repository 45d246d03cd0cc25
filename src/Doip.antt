-- ===== src/Doip.antt =====
-- simulator/doip.py: the DoIP (ISO 13400) frames and the session with one client.
-- `struct.pack` and `struct.unpack` of "!B", "!H" and "!I" are the language's: big-endian bytes.
-- What `pack` refuses, a number too wide for its field, does not occur: the addresses are unpacked
-- from two bytes, and the payloads are far shorter than 2 ^ 32 bytes.
pub mod Frames
pub mod Session
pub mod Server
pub mod Isolation
pub mod Gateway
pub mod Conversation
pub mod Sharing
mod Tests
use e3on_canserver.Base.{
  Result, ok, err, ℕ, zero, suc, ◌+◌, ◌*◌, ◌/◌, ◌%◌, ◌^◌, Bool, true, false, ◌&&◌, not, Option,
  none, some, List, [], ◌∷◌, ◌++◌, ltb, ◌==◌, if◌then◌else◌, length, take, drop,
}
use e3on_canserver.Base.Dict.{Dict, lookup, insert}
use e3on_canserver.Isotp.{Bytes}
use e3on_canserver.Faults.Config.{Draws}
use e3on_canserver.Device.{SimulatedDevice}
use e3on_canserver.Device.Doip.{handle_uds_payload}

abbrev pub doip_version : ℕ
doip_version = 0x02

abbrev pub doip_version_inv : ℕ
doip_version_inv = 0xfd

abbrev pub doip_header_len : ℕ
doip_header_len = 8

abbrev pub doip_diag_addr_len : ℕ
doip_diag_addr_len = 4

abbrev pub pt_routing_activation_req : ℕ
pt_routing_activation_req = 0x0005

abbrev pub pt_routing_activation_resp : ℕ
pt_routing_activation_resp = 0x0006

abbrev pub pt_diagnostic_msg : ℕ
pt_diagnostic_msg = 0x8001

abbrev pub pt_diagnostic_ack : ℕ
pt_diagnostic_ack = 0x8002

abbrev pub ra_activated : ℕ
ra_activated = 0x10

abbrev pub diag_ack : ℕ
diag_ack = 0x00

abbrev pub diag_nack_unknown_target : ℕ
diag_nack_unknown_target = 0x03

abbrev pub server_logical_addr : ℕ
server_logical_addr = 0x0001

-- "!H" and "!I"
abbrev pub pack_h : ℕ → Bytes
pack_h n = n / 2 ^ 8 ∷ n % 2 ^ 8 ∷ []

abbrev pub pack_i : ℕ → Bytes
pack_i n = n / 2 ^ 24 ∷ n / 2 ^ 16 % 2 ^ 8 ∷ n / 2 ^ 8 % 2 ^ 8 ∷ n % 2 ^ 8 ∷ []

abbrev pub unpack_h : ℕ → ℕ → ℕ
unpack_h hi lo = hi * 2 ^ 8 + lo

abbrev pub unpack_i : ℕ → ℕ → ℕ → ℕ → ℕ
unpack_i a b c d = a * 2 ^ 24 + b * 2 ^ 16 + c * 2 ^ 8 + d

-- `_header`
unfoldable pub header : ℕ → ℕ → Bytes
header payload_type payload_len =
    doip_version ∷ doip_version_inv ∷ (pack_h payload_type ++ pack_i payload_len)

unfoldable pub routing_activation_response : ℕ → Bytes
unfolding header
routing_activation_response client_addr =
    let payload = pack_h client_addr ++ (pack_h server_logical_addr ++ (ra_activated ∷ pack_i 0)) in
    header pt_routing_activation_resp (length payload) ++ payload

unfoldable pub diagnostic_ack : ℕ → ℕ → ℕ → Bytes
unfolding header
diagnostic_ack source_addr target_addr ack_code =
    let payload = pack_h source_addr ++ (pack_h target_addr ++ (ack_code ∷ [])) in
    header pt_diagnostic_ack (length payload) ++ payload

unfoldable pub diagnostic_message : ℕ → ℕ → Bytes → Bytes
unfolding header
diagnostic_message source_addr target_addr uds_payload =
    let payload = (pack_h source_addr ++ pack_h target_addr) ++ uds_payload in
    header pt_diagnostic_msg (length payload) ++ payload

-- `_devices`: the devices by their `tx_id`. They are shared objects: what a request does to one is
-- there for the next, so the changed device is put in its place.
abbrev pub Devices : Type 0
Devices = Dict SimulatedDevice

-- The variables of `_session`.
pub record SessionState : Type 0 where
  pub activated : Bool
  pub devices : Devices

-- What handling one frame does: the state, the frames written, and whether an exception ends the
-- session.
abbrev pub Handled : Type 0
Handled = SessionState × List Bytes × Bool

abbrev pub ignored : SessionState → Handled
ignored st = (st, [], false)

-- The first two bytes as an address; without two bytes the client is 0x0E00.
unfoldable pub client_address : Bytes → ℕ
client_address [] = 0x0e00
client_address (a ∷ []) = 0x0e00
client_address (a ∷ b ∷ rest) = unpack_h a b

-- The ACK, and the response if there is one.
unfoldable pub answer : SessionState → ℕ → ℕ → SimulatedDevice × Result (Option Bytes) → Handled
unfolding insert diagnostic_ack diagnostic_message
answer st target source (dev, ok none) = (
  record st { devices = insert target dev st.devices },
  diagnostic_ack target source diag_ack ∷ [],
  false,
)
answer st target source (dev, ok (some response)) = (
  record st { devices = insert target dev st.devices },
  diagnostic_ack target source diag_ack ∷ diagnostic_message target source response ∷ [],
  false,
)
answer st target source (dev, err e) = (
  record st { devices = insert target dev st.devices },
  diagnostic_ack target source diag_ack ∷ [],
  true,
)

-- The branch for a Diagnostic Message that is long enough, after activation.
unfoldable pub dispatch : SessionState → Draws → ℕ → ℕ → Bytes → Handled
unfolding answer lookup
dispatch st d source target uds_payload = elim (lookup target st.devices) [
  | none ↦ (st, diagnostic_ack target source diag_nack_unknown_target ∷ [], false)
  | some dev ↦ answer st target source (handle_uds_payload dev d uds_payload)
]

-- The length test is the pattern: four address bytes and at least one byte behind them.
unfoldable pub handle_diagnostic : SessionState → Draws → Bytes → Handled
unfolding dispatch
handle_diagnostic st d (s1 ∷ s2 ∷ t1 ∷ t2 ∷ u ∷ us) =
    if not st.activated
    then ignored st
    else dispatch st d (unpack_h s1 s2) (unpack_h t1 t2) (u ∷ us)
handle_diagnostic st d _ = ignored st

-- One frame whose header passed the sync check.
unfoldable pub handle_frame : SessionState → Draws → ℕ → Bytes → Handled
unfolding client_address handle_diagnostic routing_activation_response
handle_frame st d payload_type payload =
    if payload_type == pt_routing_activation_req
    then (
      record st { activated = true },
      routing_activation_response (client_address payload) ∷ [],
      false,
    )
    else if payload_type == pt_diagnostic_msg
    then handle_diagnostic st d payload
    else ignored st

-- A frame as it is read: the version bytes, the payload type and the payload.
pub record DoipFrame : Type 0 where
  pub version : ℕ
  pub version_inv : ℕ
  pub payload_type : ℕ
  pub payload : Bytes

-- `readexactly(n)`; `none` is the IncompleteReadError at the end of the stream.
unfoldable pub read_exactly : ℕ → Bytes → Option (Bytes × Bytes)
read_exactly n stream = if ltb (length stream) n then none else some (take n stream, drop n stream)

-- The payload of a header that has been unpacked.
unfoldable pub read_payload : ℕ → ℕ → ℕ → ℕ → Bytes → Option (DoipFrame × Bytes)
unfolding read_exactly
read_payload version version_inv payload_type payload_len stream =
    elim (read_exactly payload_len stream) [
      | none ↦ none
      | some (payload, rest) ↦ some (
        record {
          version = version;
          version_inv = version_inv;
          payload_type = payload_type;
          payload = payload;
        },
        rest,
      )
    ]

-- The header of 8 bytes, and the payload that it announces.
unfoldable pub read_frame : Bytes → Option (DoipFrame × Bytes)
unfolding read_payload
read_frame (v ∷ w ∷ t1 ∷ t2 ∷ a ∷ b ∷ c ∷ d ∷ stream) =
    read_payload v w (unpack_h t1 t2) (unpack_i a b c d) stream
read_frame _ = none

unfoldable pub sync_ok : DoipFrame → Bool
sync_ok f = (f.version == doip_version) && (f.version_inv == doip_version_inv)

-- One round of the loop, a frame with a bad sync check being dropped with its payload.
unfoldable pub round : SessionState → Draws → DoipFrame → Handled
unfolding handle_frame sync_ok
round st d f = if sync_ok f then handle_frame st d f.payload_type f.payload else ignored st

-- What a session leaves: the state, and what it has written, oldest first.
abbrev pub Served : Type 0
Served = SessionState × List Bytes

abbrev pub written_before : List Bytes → Option Served → Option Served
written_before out none = none
written_before out (some (st, later)) = some (st, out ++ later)

-- After one frame: on an exception the session ends, else it goes on.
abbrev pub go_on : Handled → (SessionState → Option Served) → Option Served
go_on (st, out, true) next = some (st, out)
go_on (st, out, false) next = written_before out (next st)

-- The `while True` loop on the bytes that the client sends before it closes the connection; draw
-- `k` is for the frame number `k`. `none` would be fuel that runs out.
unfoldable pub session_loop : ℕ → (ℕ → Draws) → ℕ → SessionState → Bytes → Option Served
unfolding read_frame round
session_loop zero draws k st stream = none
session_loop (suc fuel) draws k st stream = elim (read_frame stream) [
  | none ↦ some (st, [])
  | some (f, rest) ↦ go_on (round st (draws k) f) (λ st'. session_loop fuel draws (k + 1) st' rest)
]

-- `_session`: a frame takes 8 bytes at least, so one round more than there are bytes is enough.
unfoldable pub session : (ℕ → Draws) → SessionState → Bytes → Option Served
unfolding session_loop
session draws st stream = session_loop (length stream + 1) draws 0 st stream
