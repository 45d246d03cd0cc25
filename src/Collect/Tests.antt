-- ===== src/Collect/Tests.antt =====
-- Runs of simulator/protocol/collect.py, and its theorems at concrete inputs.
use e3on_canserver.Isotp.{Bytes}
use e3on_canserver.Base.{ok, ◌≡◌, refl, some, List, [], ◌∷◌, arith, replicate}
use e3on_canserver.Collect.{segment_collect}
use e3on_canserver.Collect.Decode.{decode}
use e3on_canserver.Collect.Messages.{decode-segment_collect}

abbrev short_value : Bytes
short_value = 0x95 ∷ 0x0e ∷ 0 ∷ 0 ∷ []

-- The example of the module comment: DID 0x09BE with four bytes.
segment_short :
    segment_collect 0x09be short_value
    ≡ ok ((0x21 ∷ 0xbe ∷ 0x09 ∷ 0xb4 ∷ 0x95 ∷ 0x0e ∷ 0 ∷ 0 ∷ []) ∷ [])
unfolding segment_collect
segment_short = refl

-- A length of 0xB5 takes the escape byte.
decode_escaped :
    (frames : List Bytes) × (segment_collect 0x0509 (replicate 0xb5 1) ≡ ok frames)
    × (decode frames ≡ some (0x0509, replicate 0xb5 1))
decode_escaped =
    decode-segment_collect 0x0509 (replicate 0xb5 1) (omega arith) (omega arith) (omega arith)

decode-segment_collect_example :
    (frames : List Bytes) × (segment_collect 0x09be short_value ≡ ok frames)
    × (decode frames ≡ some (0x09be, short_value))
decode-segment_collect_example =
    decode-segment_collect 0x09be short_value (omega arith) (omega arith) (omega arith)
