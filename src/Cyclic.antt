-- ===== src/Cyclic.antt =====
-- simulator/cyclic.py with the encoders of simulator/protocol/encoders.py, and
-- simulator/energy_meter.py: what is broadcast without a request. The wall clock is an argument.
pub mod Broadcast
pub mod Config
mod Tests
use e3on_canserver.Base.{
  ◌>>=◌, value_error, Result, ok, err, ℕ, zero, suc, Option, none, some, List, [], ◌∷◌, ◌++◌, map,
}
use e3on_canserver.Isotp.{Bytes}
use e3on_canserver.Datastore.{DatapointStore, read}
use e3on_canserver.Bus.{Message}
use e3on_canserver.Collect.{segment_collect}

-- `time.localtime()`, the three fields that are read.
pub record LocalTime : Type 0 where
  pub tm_hour : ℕ
  pub tm_min : ℕ
  pub tm_sec : ℕ

-- The encoder classes once constructed: `RawEncoder` with its fixed value, if one is configured,
-- and `LocaltimeEncoder`, whose only supported format is "hhmmss".
pub data Encoder : Type 0 where
  raw : Option Bytes → Encoder
  localtime : Encoder

-- `encode`
unfoldable pub encode_value : Encoder → ℕ → DatapointStore → LocalTime → Option Bytes
encode_value (raw (some fixed)) did s now = some fixed
encode_value (raw none) did s now = read s did
encode_value localtime did s now = some (now.tm_hour ∷ now.tm_min ∷ now.tm_sec ∷ [])

pub record CyclicMessage : Type 0 where
  pub did : ℕ
  pub encoder : Encoder

-- The frames of a payload: a ValueError of the segmentation skips it, any other error goes on.
unfoldable pub send_segmented : ℕ → Result (List Bytes) → Result (List Message)
send_segmented tx_id (ok frames) = ok (map (λ f. (tx_id, f)) frames)
send_segmented tx_id (err value_error) = ok []
send_segmented tx_id (err e) = err e

-- `CyclicTask._send`
unfoldable pub cyclic_send : ℕ → CyclicMessage → DatapointStore → LocalTime → Result (List Message)
unfolding encode_value send_segmented
cyclic_send tx_id msg s now = elim (encode_value msg.encoder msg.did s now) [
  | none ↦ ok []
  | some payload ↦ send_segmented tx_id (segment_collect msg.did payload)
]

-- `_run_message` over the moments at which its sleep ends: an error ends the task.
unfoldable pub run_message :
    ℕ → CyclicMessage → List (DatapointStore × LocalTime) → Result (List Message)
unfolding cyclic_send
run_message tx_id msg [] = ok []
run_message tx_id msg ((s, now) ∷ moments) = do
  sent ← cyclic_send tx_id msg s now
  later ← run_message tx_id msg moments
  ok (sent ++ later)

-- `EnergyMeterTask._run` over a number of intervals.
unfoldable pub energy_meter_run : ℕ → Bytes → ℕ → List Message
energy_meter_run tx_id msg zero = []
energy_meter_run tx_id msg (suc n) = (tx_id, msg) ∷ energy_meter_run tx_id msg n
