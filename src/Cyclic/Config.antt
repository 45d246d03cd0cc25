-- ===== src/Cyclic/Config.antt =====
-- The constructors of simulator/protocol/encoders.py, and `load_energy_meters` of
-- main.py. Texts are lists of ASCII codes.
use e3on_canserver.Base.{
  ◌>>=◌, value_error, Result, ok, err, ◌+◌, ◌%◌, Bool, true, false, ◌&&◌, not, Option, none, some,
  List, [], ◌∷◌, map, leb, ◌==◌, if◌then◌else◌, length,
}
use e3on_canserver.Base.Int.{ℤ}
use e3on_canserver.Isotp.{Bytes}
use e3on_canserver.Datastore.File.{Text, strip, trim, split_words, int_of, hex_bytes, pairs}
use e3on_canserver.Cyclic.{Encoder, raw, localtime}

-- `str.lower`
unfoldable pub lower : Text → Text
lower [] = []
lower (c ∷ cs) = (if leb 65 c && leb c 90 then c + 32 else c) ∷ lower cs

unfoldable pub same_text : Text → Text → Bool
same_text [] [] = true
same_text (c ∷ cs) (d ∷ ds) = (c == d) && same_text cs ds
same_text _ _ = false

-- `raw_val.replace(" ", "")`
unfoldable pub remove_spaces : Text → Text
remove_spaces [] = []
remove_spaces (c ∷ cs) = let rest = remove_spaces cs in if c == 32 then rest else c ∷ rest

-- The "_args" of an encoder that are read.
pub record EncoderArgs : Type 0 where
  pub val : Option Text
  pub format : Option Text

abbrev pub or_else : Option Text → Text → Text
or_else none t = t
or_else (some s) t = s

-- `RawEncoder.__init__`; `int` passes over the white space that is left in a pair.
unfoldable pub raw_encoder : EncoderArgs → Result Encoder
unfolding strip trim remove_spaces hex_bytes pairs
raw_encoder args = elim (strip (or_else args.val [])) [
  | [] ↦ ok (raw none)
  | c ∷ cs ↦
      let hex_str = remove_spaces (c ∷ cs) in
      if not (length hex_str % 2 == 0)
      then err value_error
      else (do fixed ← hex_bytes (map trim (pairs hex_str)); ok (raw (some fixed)))
]

abbrev pub hhmmss : Text
hhmmss = 104 ∷ 104 ∷ 109 ∷ 109 ∷ 115 ∷ 115 ∷ []

-- `LocaltimeEncoder.__init__`
unfoldable pub localtime_encoder : EncoderArgs → Result Encoder
unfolding lower same_text
localtime_encoder args =
    if same_text (lower (or_else args.format hhmmss)) hhmmss then ok localtime else err value_error

-- "raw" and "localtime"
abbrev pub raw_name : Text
raw_name = 114 ∷ 97 ∷ 119 ∷ []

abbrev pub localtime_name : Text
localtime_name = 108 ∷ 111 ∷ 99 ∷ 97 ∷ 108 ∷ 116 ∷ 105 ∷ 109 ∷ 101 ∷ []

-- `Encoder.from_config`, with `ENCODER_REGISTRY`.
unfoldable pub encoder_from_config : Text → EncoderArgs → Result Encoder
unfolding lower same_text raw_encoder localtime_encoder
encoder_from_config fct args =
    if same_text (lower fct) raw_name
    then raw_encoder args
    else if same_text (lower fct) localtime_name
    then localtime_encoder args
    else err value_error

-- An entry of "energy_meter": the CAN-ID and the bytes of its message.
unfoldable pub load_energy_meter : Text → Text → Result (ℤ × Bytes)
unfolding int_of trim split_words hex_bytes
load_energy_meter tx msg = do
  tx_id ← int_of 16 (trim tx)
  bytes ← hex_bytes (split_words [] msg)
  ok (tx_id, bytes)

unfoldable pub load_energy_meters : List (Text × Text) → Result (List (ℤ × Bytes))
unfolding load_energy_meter
load_energy_meters [] = ok []
load_energy_meters ((tx, msg) ∷ entries) = do
  meter ← load_energy_meter tx msg
  meters ← load_energy_meters entries
  ok (meter ∷ meters)
