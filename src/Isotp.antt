-- ===== src/Isotp.antt =====
-- simulator/protocol/isotp.py: the ISO-TP transport layer, both directions.
-- A byte string is a list of numbers; `x >> 4` is `x / 2 ^ 4` and `x << 8` is `x * 2 ^ 8`.
pub mod Frames
pub mod RoundTrip
pub mod Robust
pub mod Sequence
pub mod Segments
mod Tests
use e3on_canserver.Base.{
  ℕ, zero, suc, ◌+◌, ◌-◌, ◌*◌, ◌/◌, ◌%◌, ◌^◌, min, bit_and, bit_or, Bool, true, false, Option, none,
  some, List, [], ◌∷◌, ◌++◌, ltb, leb, ◌==◌, if◌then◌else◌, ◌||◌, not, length, take, drop,
  replicate, get_elem?, value_error, index_error, Result, ok, err, ◌>>=◌,
}

abbrev pub Bytes : Type 0
Bytes = List ℕ

abbrev pub can_dlc : ℕ
can_dlc = 8

abbrev pub padding_byte : ℕ
padding_byte = 0xcc

-- `_pad`: a negative repetition count gives no padding, as `-` on ℕ does.
unfoldable pub pad : Bytes → Bytes
pad d = d ++ replicate (can_dlc - length d) padding_byte

-- The `while remaining` loop of `segment`. Each round takes a byte at least, so the length of
-- `remaining` is enough fuel.
unfoldable pub consecutive_frames : ℕ → ℕ → Bytes → List Bytes
consecutive_frames fuel seq [] = []
consecutive_frames zero seq (x ∷ xs) = []
consecutive_frames (suc fuel) seq (x ∷ xs) =
    pad (bit_or 0x20 (bit_and seq 0x0f) ∷ take 7 (x ∷ xs))
    ∷ consecutive_frames fuel ((seq + 1) % 16) (drop 7 (x ∷ xs))

-- The First Frame and the Consecutive Frames of a payload that needs several.
unfoldable pub multi_frames : Bytes → List Bytes
multi_frames payload =
    let high = bit_and (length payload / 2 ^ 8) 0x0f in
    let low = bit_and (length payload) 0xff in
    let remaining = drop 6 payload in
    pad (bit_or 0x10 high ∷ low ∷ take 6 payload)
    ∷ consecutive_frames (length remaining) 1 remaining

unfoldable pub segment : Bytes → Result (List Bytes)
segment payload =
    if leb (length payload) 7
    then ok (pad (length payload ∷ payload) ∷ [])
    else if ltb 0xfff (length payload)
    then err value_error
    else ok (multi_frames payload)

-- The fields of `ISOTPAssembler`.
pub record Assembler : Type 0 where
  pub expected_length : ℕ
  pub buffer : Bytes
  pub next_seq : ℕ
  pub active : Bool

-- `__init__` and `_reset`.
abbrev pub reset : Assembler
reset = record { expected_length = 0; buffer = []; next_seq = 1; active = false }

-- The new state, the complete payload and the Flow Control frame to send.
abbrev pub Fed : Type 0
Fed = Assembler × Option Bytes × Option Bytes

abbrev pub nothing : Assembler → Result Fed
nothing a = ok (a, none, none)

-- `data[i]`
unfoldable pub byte_at : Bytes → ℕ → Result ℕ
byte_at d i = elim (get_elem? d i) [ none ↦ err index_error | some b ↦ ok b ]

unfoldable pub handle_sf : Assembler → Bytes → ℕ → Result Fed
handle_sf a d b0 =
    let size = bit_and b0 0x0f in
    if (size == 0) || ltb 7 size then nothing a else ok (reset, some (take size (drop 1 d)), none)

-- ContinueToSend, no block size, no separation time.
abbrev pub flow_control : Bytes
flow_control = pad (0x30 ∷ 0 ∷ 0 ∷ [])

-- `_handle_ff` once the announced length is known.
unfoldable pub announce : Assembler → Bytes → ℕ → Result Fed
announce a d size =
    if ltb size 8
    then nothing a
    else ok (
      record { expected_length = size; buffer = take 6 (drop 2 d); next_seq = 1; active = true },
      none,
      some flow_control,
    )

-- The length byte is read before anything changes: a frame of one byte raises IndexError.
unfoldable pub handle_ff : Assembler → Bytes → ℕ → Result Fed
unfolding byte_at announce
handle_ff a d b0 = do b1 ← byte_at d 1; announce a d (bit_or (bit_and b0 0x0f * 2 ^ 8) b1)

-- `remaining` is positive in every reachable state (`Isotp.Robust`), so `-` does not clip it.
-- The end of `_handle_cf`, after the buffer and the sequence number have been updated.
unfoldable pub finish_cf : Assembler → Result Fed
finish_cf a =
    if leb a.expected_length (length a.buffer)
    then ok (reset, some (take a.expected_length a.buffer), none)
    else nothing a

unfoldable pub handle_cf : Assembler → Bytes → ℕ → Result Fed
unfolding finish_cf
handle_cf a d b0 =
    if not a.active
    then nothing a
    else if not (bit_and b0 0x0f == a.next_seq)
    then nothing reset
    else (let chunk = take (min 7 (a.expected_length - length a.buffer)) (drop 1 d) in
        finish_cf (record a { buffer = a.buffer ++ chunk; next_seq = (a.next_seq + 1) % 16 }))

-- `frame_type` is the high nibble of the first byte.
unfoldable pub dispatch_frame : Assembler → Bytes → ℕ → ℕ → Result Fed
unfolding handle_sf handle_ff handle_cf
dispatch_frame a d b0 frame_type =
    if frame_type == 0x0
    then handle_sf a d b0
    else if frame_type == 0x1
    then handle_ff a d b0
    else if frame_type == 0x2
    then handle_cf a d b0
    else nothing a

unfoldable pub feed : Assembler → Bytes → Result Fed
unfolding dispatch_frame
feed a [] = nothing a
feed a (b0 ∷ rest) = dispatch_frame a (b0 ∷ rest) b0 (bit_and (b0 / 2 ^ 4) 0x0f)
