-- ===== src/Uds.antt =====
-- simulator/protocol/uds.py: ReadDataByIdentifier and WriteDataByIdentifier, and the interface of
-- simulator/protocol/base.py that every protocol handler implements.
pub mod Replies
pub mod Frame
mod Tests
use e3on_canserver.Base.{
  ℕ, ◌+◌, ◌*◌, ◌^◌, bit_or, Bool, true, false, ◌||◌, Option, none, some, List, [], ◌∷◌, ltb, ◌==◌,
  if◌then◌else◌, length, get_or, drop,
}
use e3on_canserver.Isotp.{Bytes}
use e3on_canserver.Datastore.{DatapointStore, read, write}

-- `ProtocolHandler.handle`: a payload and the store give the response, `none` for silence, and the
-- new store.
abbrev pub ProtocolHandler : Type 0
ProtocolHandler = Bytes → DatapointStore → DatapointStore × Option Bytes

abbrev pub sid_read_data_by_id : ℕ
sid_read_data_by_id = 0x22

abbrev pub sid_write_data_by_id : ℕ
sid_write_data_by_id = 0x2e

abbrev pub sid_negative_resp : ℕ
sid_negative_resp = 0x7f

abbrev pub positive_offset : ℕ
positive_offset = 0x40

abbrev pub nrc_service_not_supported : ℕ
nrc_service_not_supported = 0x11

abbrev pub nrc_subfunction_not_supported : ℕ
nrc_subfunction_not_supported = 0x12

abbrev pub nrc_conditions_not_correct : ℕ
nrc_conditions_not_correct = 0x22

abbrev pub nrc_request_out_of_range : ℕ
nrc_request_out_of_range = 0x31

abbrev pub negative_response : ℕ → ℕ → Bytes
negative_response service_id nrc = sid_negative_resp ∷ service_id ∷ nrc ∷ []

-- `payload[i]` where the length has been tested.
abbrev pub index : Bytes → ℕ → ℕ
index d i = get_or d i 0

-- `did in self._protected`
unfoldable pub contains : ℕ → List ℕ → Bool
contains did [] = false
contains did (d ∷ ds) = (d == did) || contains did ds

-- `(payload[1] << 8) | payload[2]`
abbrev pub request_did : Bytes → ℕ
request_did payload = bit_or (index payload 1 * 2 ^ 8) (index payload 2)

unfoldable pub handle_read_data_by_id : ProtocolHandler
handle_read_data_by_id payload s =
    if ltb (length payload) 3
    then (s, some (negative_response sid_read_data_by_id nrc_subfunction_not_supported))
    else elim (read s (request_did payload)) [
      | none ↦ (s, some (negative_response sid_read_data_by_id nrc_request_out_of_range))
      | some value ↦ (
        s,
        some ((sid_read_data_by_id + positive_offset) ∷ index payload 1 ∷ index payload 2 ∷ value),
      )
    ]

-- What `_handle_write_data_by_id` answers to the store's `write`.
abbrev pub write_reply : ℕ → ℕ → DatapointStore × Bool → DatapointStore × Option Bytes
write_reply hi lo (s, true) = (s, some ((sid_write_data_by_id + positive_offset) ∷ hi ∷ lo ∷ []))
write_reply hi lo (s, false) =
    (s, some (negative_response sid_write_data_by_id nrc_request_out_of_range))

unfoldable pub handle_write_data_by_id : List ℕ → ProtocolHandler
unfolding contains
handle_write_data_by_id protected payload s =
    if ltb (length payload) 4
    then (s, some (negative_response sid_write_data_by_id nrc_subfunction_not_supported))
    else if contains (request_did payload) protected
    then (s, some (negative_response sid_write_data_by_id nrc_conditions_not_correct))
    else write_reply (index payload 1) (index payload 2)
        (write s (request_did payload) (drop 3 payload))

-- `UDSHandler.handle` of a handler with the given protection list; `_HANDLERS` is the two tests.
unfoldable pub handle_uds : List ℕ → ProtocolHandler
unfolding handle_read_data_by_id handle_write_data_by_id
handle_uds protected [] s = (s, none)
handle_uds protected (sid ∷ rest) s =
    if sid == sid_read_data_by_id
    then handle_read_data_by_id (sid ∷ rest) s
    else if sid == sid_write_data_by_id
    then handle_write_data_by_id protected (sid ∷ rest) s
    else (s, some (negative_response sid nrc_service_not_supported))
