-- ===== src/Main/Tests.antt =====
-- Runs of main.py, and its theorem at a concrete input.
use e3on_canserver.Base.{ok, ℕ, ◌≡◌, refl, none, some, [], ◌∷◌, arith}
use e3on_canserver.Base.Int.{pos}
use e3on_canserver.Base.Dict.{lookup}
use e3on_canserver.Datastore.File.{is_space}
use e3on_canserver.Device.{on_uds}
use e3on_canserver.Bus.{rx_round}
use e3on_canserver.Main.{
  DeviceEntry, load_device, load_devices, device_map, default_host, parse_doip_address,
}
use e3on_canserver.Main.Dispatch.{load_devices_dispatch}

abbrev entry : ℕ → DeviceEntry
entry tx = record {
  tx = tx;
  delay = none;
  errors = none;
  service77 = [];
  values = record { table = []; resolvers = [] };
}

load_devices_dispatch_example :
    (rx_round
        (load_devices (pos 20) (pos 0) 0 (entry 0x680 ∷ entry 0x6a1 ∷ entry 0x68c ∷ []) []).1
        (some (0x6a1, 2 ∷ []))
      ≡ some ((1, on_uds), (0x6a1, 2 ∷ [])))
    × (lookup 0x6a1 (
          device_map []
            (load_devices (pos 20) (pos 0) 0 (entry 0x680 ∷ entry 0x6a1 ∷ entry 0x68c ∷ []) []).0)
        ≡ some (load_device (pos 20) (pos 0) (entry 0x6a1)))
load_devices_dispatch_example =
    load_devices_dispatch (pos 20) (pos 0) (entry 0x680 ∷ []) (entry 0x68c ∷ []) (entry 0x6a1)
      (2 ∷ []) (omega arith)

-- "0.0.0.0:1" and "7"
address_and_port :
    parse_doip_address (some (48 ∷ 46 ∷ 48 ∷ 46 ∷ 48 ∷ 46 ∷ 48 ∷ 58 ∷ 49 ∷ []))
    ≡ ok (48 ∷ 46 ∷ 48 ∷ 46 ∷ 48 ∷ 46 ∷ 48 ∷ [], pos 1)
unfolding parse_doip_address is_space
address_and_port = refl

port_alone : parse_doip_address (some (55 ∷ [])) ≡ ok (default_host, pos 7)
unfolding parse_doip_address is_space
port_alone = refl
