-- ===== src/Main.antt =====
-- main.py: the devices of a configuration, their registration, and the DoIP address. An entry of
-- the configuration stands here with its numbers parsed and its value file loaded.
pub mod Dispatch
pub mod Json
pub mod Load
mod Tests
use e3on_canserver.Base.{
  ◌>>=◌, Result, ok, ℕ, ◌+◌, Option, none, some, List, [], ◌∷◌, ◌==◌, if◌then◌else◌,
}
use e3on_canserver.Base.Int.{ℤ, pos}
use e3on_canserver.Base.Dict.{Dict, insert}
use e3on_canserver.Datastore.{DatapointStore}
use e3on_canserver.Datastore.File.{Text, trim, int_of}
use e3on_canserver.Uds.{contains}
use e3on_canserver.Faults.Config.{from_config}
use e3on_canserver.Device.{SimulatedDevice, make_device, Channel, register}
use e3on_canserver.Doip.{Devices}

-- What `load_devices` uses of an entry: "tx", "delay", "errors", "service77", and the store that
-- the value file behind "dpList" gives.
pub record DeviceEntry : Type 0 where
  pub tx : ℕ
  pub delay : Option ℤ
  pub errors : Option ℤ
  pub service77 : List ℕ
  pub values : DatapointStore

-- The device of an entry, with the settings of the command line.
unfoldable pub load_device : ℤ → ℤ → DeviceEntry → SimulatedDevice
unfolding make_device from_config
load_device cli_delay cli_errors e =
    make_device e.tx e.service77 (from_config e.delay e.errors (some cli_delay) (some cli_errors))
      e.values

-- The loop of `load_devices`: the devices, the first with the number `n`, and the callbacks of the
-- bus after each has registered.
unfoldable pub load_devices :
    ℤ → ℤ → ℕ → List DeviceEntry → Dict (ℕ × Channel) → List SimulatedDevice × Dict (ℕ × Channel)
unfolding load_device register
load_devices cli_delay cli_errors n [] callbacks = ([], callbacks)
load_devices cli_delay cli_errors n (e ∷ es) callbacks =
    let dev = load_device cli_delay cli_errors e in
    let (devices, after) =
      load_devices cli_delay cli_errors (n + 1) es (register dev n callbacks) in
    (dev ∷ devices, after)

-- `{d.tx_id: d for d in devices}`, added to what is there.
unfoldable pub device_map : Devices → List SimulatedDevice → Devices
unfolding insert
device_map map_so_far [] = map_so_far
device_map map_so_far (dev ∷ devices) = device_map (insert dev.tx_id dev map_so_far) devices

abbrev pub default_host : Text
default_host = 49 ∷ 50 ∷ 55 ∷ 46 ∷ 48 ∷ 46 ∷ 48 ∷ 46 ∷ 49 ∷ []

abbrev pub default_port : ℕ
default_port = 13400

abbrev pub colon : ℕ
colon = 0x3a

abbrev pub full_stop : ℕ
full_stop = 0x2e

-- `spec.rsplit(":", 1)` for a text with a colon; `none` for one without.
unfoldable pub rsplit_colon : Text → Option (Text × Text)
rsplit_colon [] = none
rsplit_colon (c ∷ cs) = elim (rsplit_colon cs) [
  | some (host, port) ↦ some (c ∷ host, port)
  | none ↦ if c == colon then some ([], cs) else none
]

-- `int(s)`, which passes over white space first.
unfoldable pub int_text : Text → Result ℤ
unfolding int_of trim
int_text s = int_of 10 (trim s)

-- The specification behind the two first cases.
unfoldable pub parse_port : Text → Result (Text × ℤ)
unfolding int_text contains
parse_port spec =
    if contains full_stop spec
    then ok (spec, pos default_port)
    else (do port ← int_text spec; ok (default_host, port))

-- `_parse_doip_address`
unfoldable pub parse_doip_address : Option Text → Result (Text × ℤ)
unfolding rsplit_colon parse_port
parse_doip_address none = ok (default_host, pos default_port)
parse_doip_address (some []) = ok (default_host, pos default_port)
parse_doip_address (some (c ∷ cs)) = elim (rsplit_colon (c ∷ cs)) [
  | some (host, port_str) ↦ (do port ← int_text port_str; ok (host, port))
  | none ↦ parse_port (c ∷ cs)
]
