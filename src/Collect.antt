-- ===== src/Collect.antt =====
-- simulator/protocol/collect.py: segmentation for the broadcast ("collect") protocol.
pub mod Decode
pub mod RoundTrip
pub mod Messages
mod Tests
use e3on_canserver.Base.{
  ◌>>=◌, value_error, assertion_error, Result, ok, err, ℕ, zero, suc, ◌+◌, ◌-◌, ◌/◌, ◌^◌, bit_and,
  List, [], ◌∷◌, ◌++◌, ltb, leb, if◌then◌else◌, length, take, drop, replicate,
}
use e3on_canserver.Isotp.{Bytes}
use e3on_canserver.Uds.{contains}

abbrev pub frame_len : ℕ
frame_len = 8

abbrev pub collect_padding : ℕ
collect_padding = 0x55

abbrev pub seq_first : ℕ
seq_first = 0x21

abbrev pub seq_min : ℕ
seq_min = 0x20

abbrev pub seq_max : ℕ
seq_max = 0x2f

abbrev pub len_base : ℕ
len_base = 0xb0

abbrev pub len_short_max : ℕ
len_short_max = 15

abbrev pub len_escape : ℕ
len_escape = 0xc1

abbrev pub len_escape_list : List ℕ
len_escape_list = 0xb5 ∷ 0xc1 ∷ []

-- `_pad`, which raises for more than 8 bytes.
unfoldable pub pad_collect : Bytes → Result Bytes
pad_collect d =
    if ltb frame_len (length d)
    then err assertion_error
    else ok (d ++ replicate (frame_len - length d) collect_padding)

unfoldable pub next_seq : ℕ → ℕ
next_seq current = if ltb seq_max (current + 1) then seq_min else current + 1

-- The `while remaining` loop: fuel `length remaining` is enough, a round takes a byte at least.
unfoldable pub continuation_frames : ℕ → ℕ → Bytes → Result (List Bytes)
unfolding pad_collect next_seq
continuation_frames fuel seq [] = ok []
continuation_frames zero seq (x ∷ xs) = ok []
continuation_frames (suc fuel) seq (x ∷ xs) = do
  frame ← pad_collect (next_seq seq ∷ take 7 (x ∷ xs))
  frames ← continuation_frames fuel (next_seq seq) (drop 7 (x ∷ xs))
  ok (frame ∷ frames)

-- `bytes([…])` raises ValueError for a number above 255.
unfoldable pub to_byte : ℕ → Result ℕ
to_byte n = if ltb n 256 then ok n else err value_error

-- The header behind the identifier, and how many payload bytes the first frame takes.
unfoldable pub length_header : ℕ → Result (Bytes × ℕ)
unfolding to_byte
length_header size =
    if leb size len_short_max
    then ok ((len_base + size) ∷ [], 4)
    else if contains size len_escape_list
    then (do b ← to_byte size; ok (len_base ∷ len_escape ∷ b ∷ [], 2))
    else (do b ← to_byte size; ok (len_base ∷ b ∷ [], 3))

unfoldable pub segment_collect : ℕ → Bytes → Result (List Bytes)
unfolding length_header pad_collect continuation_frames
segment_collect did [] = err value_error
segment_collect did (x ∷ xs) = do
  (header, first_chunk_size) ← length_header (length (x ∷ xs))
  let prefix = seq_first ∷ bit_and did 0xff ∷ bit_and (did / 2 ^ 8) 0xff ∷ header
  first ← pad_collect (prefix ++ take first_chunk_size (x ∷ xs))
  let remaining = drop first_chunk_size (x ∷ xs)
  frames ← continuation_frames (length remaining) seq_first remaining
  ok (first ∷ frames)
