-- ===== src/Cyclic/Tests.antt =====
-- Runs of simulator/cyclic.py and simulator/energy_meter.py, and the theorems at concrete inputs.
use e3on_canserver.Base.{value_error, ok, err, ◌≡◌, refl, none, some, List, [], ◌∷◌, map, arith}
use e3on_canserver.Base.Int.{pos}
use e3on_canserver.Isotp.{Bytes}
use e3on_canserver.Datastore.{DatapointStore}
use e3on_canserver.Bus.{Message}
use e3on_canserver.Cyclic.{
  LocalTime, raw, localtime, CyclicMessage, cyclic_send, run_message, energy_meter_run,
}
use e3on_canserver.Cyclic.Broadcast.{run_message-ok, Shows, decode-cyclic_send}
use e3on_canserver.Collect.Decode.{decode}
use e3on_canserver.Cyclic.Config.{raw_encoder, encoder_from_config, load_energy_meters}
use e3on_canserver.Datastore.File.{is_space}

abbrev stored : DatapointStore
stored = record { table = (0x01f6, 1 ∷ 2 ∷ 3 ∷ 4 ∷ 5 ∷ []) ∷ []; resolvers = [] }

abbrev noon : LocalTime
noon = record { tm_hour = 12; tm_min = 0; tm_sec = 5 }

abbrev clock_message : CyclicMessage
clock_message = record { did = 0x01f6; encoder = localtime }

energy_meter_two :
    energy_meter_run 0x250 (1 ∷ 2 ∷ []) 2 ≡ (0x250, 1 ∷ 2 ∷ []) ∷ (0x250, 1 ∷ 2 ∷ []) ∷ []
unfolding energy_meter_run
energy_meter_two = refl

run_message-ok_example :
    (sent : List Message) × (run_message 0x693 clock_message ((stored, noon) ∷ (stored, noon) ∷ [])
      ≡ ok sent)
run_message-ok_example =
    run_message-ok 0x693 clock_message ((stored, noon) ∷ (stored, noon) ∷ []) (omega arith)

decode-cyclic_send_example :
    (frames : List Bytes) × (cyclic_send 0x693 clock_message stored noon
      ≡ ok (map (λ f. (0x693, f)) frames))
    × (decode frames ≡ some (0x01f6, 12 ∷ 0 ∷ 5 ∷ []))
decode-cyclic_send_example =
    decode-cyclic_send 0x693 clock_message stored noon (12 ∷ 0 ∷ 5 ∷ []) (omega arith)
      (Shows.clock refl) (omega arith) (omega arith)

-- {"fct": "RAW", "_args": {"val": "01 2c"}}
raw_from_config :
    encoder_from_config
      (82 ∷ 65 ∷ 87 ∷ [])
      (record { val = some (48 ∷ 49 ∷ 32 ∷ 50 ∷ 99 ∷ []); format = none })
    ≡ ok (raw (some (1 ∷ 44 ∷ [])))
unfolding encoder_from_config is_space
raw_from_config = refl

raw_odd : raw_encoder (record { val = some (48 ∷ 49 ∷ 50 ∷ []); format = none }) ≡ err value_error
unfolding raw_encoder is_space
raw_odd = refl

-- {"tx": "0x250", "msg": "01 ff"}
meter_from_config :
    load_energy_meters ((48 ∷ 120 ∷ 50 ∷ 53 ∷ 48 ∷ [], 48 ∷ 49 ∷ 32 ∷ 102 ∷ 102 ∷ []) ∷ [])
    ≡ ok ((pos 0x250, 1 ∷ 255 ∷ []) ∷ [])
unfolding load_energy_meters is_space
meter_from_config = refl
