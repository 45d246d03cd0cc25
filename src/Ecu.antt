-- ===== src/Ecu.antt =====
-- What a device promises its clients, without lists of entries and without frames: the abstract
-- specification of simulator/device.py with simulator/datastore.py, simulator/protocol/uds.py and
-- simulator/protocol/service77.py. The terms of the specification model no line of the source.
pub mod Refines
pub mod Documented
mod Tests
use e3on_canserver.Base.{ℕ, Bool, ◌&&◌, not, Option, none, some, List, [], ◌∷◌, ◌==◌, if◌then◌else◌}
use e3on_canserver.Isotp.{Bytes}
use e3on_canserver.Uds.{
  sid_read_data_by_id, sid_write_data_by_id, nrc_service_not_supported,
  nrc_subfunction_not_supported, nrc_conditions_not_correct, nrc_request_out_of_range,
  negative_response, contains,
}
use e3on_canserver.Uds.Replies.{did_of, read_reply}
use e3on_canserver.Service77.{sid_service77}
use e3on_canserver.Service77.Replies.{tail_data}
use e3on_canserver.Device.{Channel, on_uds, on_s77}

-- A device as its clients see it: what a read of an identifier gives, which identifiers a write
-- may change, and which of them a resolver stands before.
pub record Ecu : Type 0 where
  pub value : ℕ → Option Bytes
  pub writable : ℕ → Bool
  pub dynamic : ℕ → Bool

abbrev pub assign : Ecu → ℕ → Bytes → Ecu
assign e did v = record e {
  value = λ j. if (did == j) && not (e.dynamic j) then some v else e.value j;
}

-- What a payload asks for.
pub data Request : Type 0 where
  unheard : Request
  unsupported : ℕ → Request
  too_short : ℕ → Request
  read_did : ℕ → ℕ → Request
  write_did : ℕ → ℕ → Bytes → Request
  write_service77 : ℕ → ℕ → ℕ → Bytes → Request

-- The first request for a read service, the second for a write service.
abbrev pub by_service : ℕ → Request → Request → Request
by_service sid r w =
    if sid == sid_read_data_by_id
    then r
    else if sid == sid_write_data_by_id
    then w
    else unsupported sid

-- The UDS service of a request with no identifier, with an identifier, and with data behind it.
unfoldable pub parse_uds : Bytes → Request
parse_uds [] = unheard
parse_uds (sid ∷ []) = by_service sid (too_short sid) (too_short sid)
parse_uds (sid ∷ hi ∷ []) = by_service sid (too_short sid) (too_short sid)
parse_uds (sid ∷ hi ∷ lo ∷ []) = by_service sid (read_did hi lo) (too_short sid)
parse_uds (sid ∷ hi ∷ lo ∷ b ∷ bs) = by_service sid (read_did hi lo) (write_did hi lo (b ∷ bs))

-- Behind the service: the counter field, three bytes of the client, the identifier with its low
-- byte first, and at least one byte of data or length code. A length code only tells where the data
-- begins; what docs/protocols.md says of the length is in Ecu/Documented.
unfoldable pub parse_fields : Bytes → Request
parse_fields (c1 ∷ c2 ∷ k1 ∷ k2 ∷ k3 ∷ lo ∷ hi ∷ b ∷ bs) =
    write_service77 c1 c2 (did_of hi lo) (tail_data (b ∷ bs))
parse_fields _ = too_short sid_service77

unfoldable pub parse_service77 : Bytes → Request
unfolding parse_fields
parse_service77 [] = unheard
parse_service77 (sid ∷ rest) = if sid == sid_service77 then parse_fields rest else unheard

abbrev pub parse : Channel → Bytes → Request
parse on_uds = parse_uds
parse on_s77 = parse_service77

-- One request served: a write to an unknown identifier is out of range, a write by UDS to a
-- protected one is refused.
unfoldable pub serve_request : List ℕ → Ecu → Request → Ecu × Option Bytes
serve_request protected e unheard = (e, none)
serve_request protected e (unsupported sid) =
    (e, some (negative_response sid nrc_service_not_supported))
serve_request protected e (too_short sid) =
    (e, some (negative_response sid nrc_subfunction_not_supported))
serve_request protected e (read_did hi lo) = (e, some (read_reply hi lo (e.value (did_of hi lo))))
serve_request protected e (write_did hi lo v) =
    if contains (did_of hi lo) protected
    then (e, some (negative_response sid_write_data_by_id nrc_conditions_not_correct))
    else if e.writable (did_of hi lo)
    then (assign e (did_of hi lo) v, some (0x6e ∷ hi ∷ lo ∷ []))
    else (e, some (negative_response sid_write_data_by_id nrc_request_out_of_range))
serve_request protected e (write_service77 c1 c2 did v) =
    if e.writable did
    then (assign e did v, some (0x77 ∷ c1 ∷ c2 ∷ 0x44 ∷ []))
    else (e, some (negative_response sid_service77 nrc_request_out_of_range))

-- A payload on one of the two request CAN-IDs.
abbrev pub serve_payload : List ℕ → Ecu → Channel → Bytes → Ecu × Option Bytes
serve_payload protected e c p = serve_request protected e (parse c p)
