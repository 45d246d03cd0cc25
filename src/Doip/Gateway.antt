-- ===== src/Doip/Gateway.antt =====
-- What the devices behind a session of simulator/doip.py promise a client together: each address
-- has the specification of its device.
use mathlib.Core.Option
use e3on_canserver.Base.{
  ℕ, ◌≡◌, false, Option, none, some, List, [], ◌∷◌, ◌++◌, map, ◌==◌, if◌then◌else◌, All,
}
use e3on_canserver.Base.Dict.{lookup}
use e3on_canserver.Datastore.Laws.{StoreIsBounded}
use e3on_canserver.Isotp.{Bytes}
use e3on_canserver.Isotp.Robust.{IsByte}
use e3on_canserver.Faults.Config.{has_errors}
use e3on_canserver.Device.{SimulatedDevice, on_uds}
use e3on_canserver.Device.Health.{max_value}
use e3on_canserver.Device.Clients.{IsRequest}
use e3on_canserver.Doip.{
  pt_diagnostic_msg, diag_ack, diag_nack_unknown_target, diagnostic_ack, diagnostic_message,
  Devices,
}
use e3on_canserver.Doip.Session.{diagnostic_request}
use e3on_canserver.Ecu.{Ecu, serve_payload}
use e3on_canserver.Ecu.Refines.{view}

-- What a client sees of the devices: the protection list and the specification at each address.
abbrev pub Gateway : Type 0
Gateway = ℕ → Option (List ℕ × Ecu)

abbrev pub device_view : SimulatedDevice → List ℕ × Ecu
device_view dev = (dev.protected, view dev.store)

abbrev pub gateway_view : Devices → Gateway
gateway_view ds address = Option.map device_view (lookup address ds)

-- A request: source and target address, and the UDS payload.
abbrev pub DoipRequest : Type 0
DoipRequest = ℕ × ℕ × Bytes

-- The frames that answer a request: an ACK and the response, if there is one.
abbrev pub acknowledged : ℕ → ℕ → Option Bytes → List Bytes
acknowledged source target none = diagnostic_ack target source diag_ack ∷ []
acknowledged source target (some r) =
    diagnostic_ack target source diag_ack ∷ diagnostic_message target source r ∷ []

abbrev pub gateway_answer : Gateway → ℕ → ℕ → Bytes → Option (List ℕ × Ecu) → Gateway × List Bytes
gateway_answer g source target uds none =
    (g, diagnostic_ack target source diag_nack_unknown_target ∷ [])
gateway_answer g source target uds (some (protected, e)) =
    let (e', r) = serve_payload protected e on_uds uds in
    ((λ j. if target == j then some (protected, e') else g j), acknowledged source target r)

unfoldable pub gateway_step : Gateway → DoipRequest → Gateway × List Bytes
gateway_step g (source, target, uds) = gateway_answer g source target uds (g target)

unfoldable pub gateway_serve : Gateway → List DoipRequest → Gateway × List Bytes
unfolding gateway_step
gateway_serve g [] = (g, [])
gateway_serve g (q ∷ qs) =
    let (g', out) = gateway_step g q in
    let (g'', later) = gateway_serve g' qs in (g'', out ++ later)

-- The frames of the requests.
abbrev pub diagnostics : List DoipRequest → List (ℕ × Bytes)
diagnostics = map (λ q. (pt_diagnostic_msg, diagnostic_request q.0 q.1 q.2))

-- A device without injected faults whose values a response can carry.
pub record IsClean (dev : SimulatedDevice) : Type 0 where
  pub no_errors : has_errors dev.config ≡ false
  pub bounded : StoreIsBounded max_value dev.store

abbrev pub IsDoipRequest : DoipRequest → Type 0
IsDoipRequest q = IsRequest q.2 × All IsByte q.2
