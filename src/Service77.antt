-- ===== src/Service77.antt =====
-- simulator/protocol/service77.py: the proprietary write service on its own pair of CAN-IDs.
pub mod Replies
mod Tests
use e3on_canserver.Base.{
  ℕ, ◌*◌, ◌^◌, bit_and, bit_or, Bool, true, false, not, Option, none, some, [], ◌∷◌, ltb, leb, ◌==◌,
  if◌then◌else◌, length, drop,
}
use e3on_canserver.Isotp.{Bytes}
use e3on_canserver.Datastore.{DatapointStore, write}
use e3on_canserver.Uds.{
  ProtocolHandler, nrc_subfunction_not_supported, nrc_request_out_of_range, negative_response,
  index,
}

abbrev pub sid_service77 : ℕ
sid_service77 = 0x77

abbrev pub s77_confirm_byte : ℕ
s77_confirm_byte = 0x44

abbrev pub s77_request_id_offset : ℕ
s77_request_id_offset = 0x02

abbrev pub s77_response_id_offset : ℕ
s77_response_id_offset = 0x12

-- The authoritative identifier, `payload[6] | (payload[7] << 8)`.
abbrev pub s77_did : Bytes → ℕ
s77_did payload = bit_or (index payload 6) (index payload 7 * 2 ^ 8)

-- A byte 8 with a high nibble of 8 or more is a length code, any other the first data byte.
unfoldable pub s77_data : Bytes → Bytes
s77_data payload =
    if leb 0x80 (bit_and (index payload 8) 0xf0) then drop 9 payload else drop 8 payload

-- What `handle` answers to the store's `write`.
abbrev pub s77_reply : ℕ → ℕ → DatapointStore × Bool → DatapointStore × Option Bytes
s77_reply b1 b2 (s, true) = (s, some (sid_service77 ∷ b1 ∷ b2 ∷ s77_confirm_byte ∷ []))
s77_reply b1 b2 (s, false) = (s, some (negative_response sid_service77 nrc_request_out_of_range))

-- `Service77Handler.handle`
unfoldable pub handle_service77 : ProtocolHandler
unfolding s77_data
handle_service77 [] s = (s, none)
handle_service77 (sid ∷ rest) s =
    if not (sid == sid_service77)
    then (s, none)
    else if ltb (length (sid ∷ rest)) 9
    then (s, some (negative_response sid_service77 nrc_subfunction_not_supported))
    else s77_reply (index (sid ∷ rest) 1) (index (sid ∷ rest) 2)
        (write s (s77_did (sid ∷ rest)) (s77_data (sid ∷ rest)))
