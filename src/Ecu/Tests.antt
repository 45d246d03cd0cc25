-- ===== src/Ecu/Tests.antt =====
-- The refinements of the specification of a device at concrete inputs.
use e3on_canserver.Base.{replicate, ◌≡◌, refl, some, [], ◌∷◌, arith}
use e3on_canserver.Base.Dict.{lookup}
use e3on_canserver.Datastore.{DatapointStore}
use e3on_canserver.Uds.{contains, handle_uds}
use e3on_canserver.Uds.Replies.{write_request}
use e3on_canserver.Service77.Replies.{s77_request}
use e3on_canserver.Device.{on_uds, on_s77}
use e3on_canserver.Ecu.{write_service77, parse_uds, parse_service77, serve_request, serve_payload}
use e3on_canserver.Ecu.Refines.{view, handle_uds-refines}
use e3on_canserver.Ecu.Documented.{documented_request}

abbrev two_points : DatapointStore
two_points = record { table = (268, 1 ∷ 2 ∷ []) ∷ (256, 10 ∷ 11 ∷ []) ∷ []; resolvers = [] }

handle_uds-refines_example :
    (
      view (handle_uds (256 ∷ []) (write_request 1 12 (7 ∷ [])) two_points).0,
      (handle_uds (256 ∷ []) (write_request 1 12 (7 ∷ [])) two_points).1,
    )
    ≡ serve_payload (256 ∷ []) (view two_points) on_uds (write_request 1 12 (7 ∷ []))
handle_uds-refines_example =
    handle_uds-refines (256 ∷ []) (write_request 1 12 (7 ∷ [])) two_points (omega arith)

-- A value of 16 bytes, with its length behind the length code.
long_form :
    documented_request (s77_request 0x43 1 0 0 0 0 1 (0xb0 ∷ 16 ∷ replicate 16 7))
    ≡ some (write_service77 0x43 1 256 (replicate 16 7))
unfolding documented_request
long_form = refl

-- A protected identifier, an unknown one, and a request that is too short.
serve_payload-refusals :
    ((serve_payload (256 ∷ []) (view two_points) on_uds (0x2e ∷ 1 ∷ 0 ∷ 9 ∷ [])).1
      ≡ some (0x7f ∷ 0x2e ∷ 0x22 ∷ []))
    × ((serve_payload [] (view two_points) on_uds (0x2e ∷ 1 ∷ 1 ∷ 9 ∷ [])).1
        ≡ some (0x7f ∷ 0x2e ∷ 0x31 ∷ []))
    × ((serve_payload [] (view two_points) on_s77 (0x77 ∷ 1 ∷ 1 ∷ 9 ∷ [])).1
        ≡ some (0x7f ∷ 0x77 ∷ 0x12 ∷ []))
unfolding serve_request parse_uds parse_service77 contains lookup
serve_payload-refusals = (refl, refl, refl)
