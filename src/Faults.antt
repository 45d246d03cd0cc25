-- ===== src/Faults.antt =====
-- simulator/faults.py: the ten faults on the complete frame list of a response.
-- A random draw is an argument; `randint` keeps it within the bounds that the source asks for.
pub mod Config
pub mod Shape
pub mod Edits
pub mod Detect
pub mod Disguise
pub mod Padding
pub mod Length
pub mod Overwriting
pub mod Shortening
mod Tests
use e3on_canserver.Base.{
  ◌>>=◌, index_error, Result, ok, err, ℕ, zero, suc, ◌+◌, ◌-◌, ◌*◌, ◌/◌, ◌%◌, ◌^◌, min, bit_and,
  bit_or, Bool, none, some, List, [], ◌∷◌, ◌++◌, map, ltb, ◌==◌, if◌then◌else◌, length, get_elem?,
  set, take, drop,
}
use e3on_canserver.Isotp.{Bytes, can_dlc, padding_byte, byte_at}

pub data FaultType : Type 0 where
  wrong_did wrong_service short_payload wrong_padding : FaultType
  drop_random_cf drop_last_cf wrong_seq duplicate_cf truncated_mf wrong_len : FaultType

abbrev pub sf_faults : List FaultType
sf_faults =
    FaultType.wrong_did ∷ FaultType.wrong_service ∷ FaultType.short_payload
    ∷ FaultType.wrong_padding ∷ []

abbrev pub mf_faults : List FaultType
mf_faults =
    sf_faults
    ++ (FaultType.drop_random_cf ∷ FaultType.drop_last_cf ∷ FaultType.wrong_seq
        ∷ FaultType.duplicate_cf ∷ FaultType.truncated_mf ∷ FaultType.wrong_len ∷ [])

-- `random.randint(lo, hi)` for the draw `r`.
abbrev pub randint : ℕ → ℕ → ℕ → ℕ
randint lo hi r = lo + r % (hi - lo + 1)

-- `frames[i]`
unfoldable pub frame_at : List Bytes → ℕ → Result Bytes
frame_at frames i = elim (get_elem? frames i) [ none ↦ err index_error | some f ↦ ok f ]

-- `f[i] = v` of a bytearray
unfoldable pub set_at : Bytes → ℕ → ℕ → Result Bytes
set_at f i v = if ltb i (length f) then ok (set f i v) else err index_error

-- `_is_ff`
unfoldable pub is_ff : Bytes → Result Bool
unfolding byte_at
is_ff f = do b0 ← byte_at f 0; ok (b0 / 2 ^ 4 == 0x1)

unfoldable pub did_position : Bool → ℕ
did_position ff = if ff then 3 else 2

-- `_wrong_did`: the identifier in the first frame plus a number from 1 to 254, modulo 2 ^ 16.
unfoldable pub apply_wrong_did : ℕ → List Bytes → Result (List Bytes)
unfolding frame_at byte_at set_at is_ff did_position
apply_wrong_did r frames = do
  f ← frame_at frames 0
  ff ← is_ff f
  let hi_pos = did_position ff
  hi ← byte_at f hi_pos
  lo ← byte_at f (hi_pos + 1)
  let new_did = bit_and (bit_or (hi * 2 ^ 8) lo + randint 1 254 r) 0xffff
  g ← set_at f hi_pos (bit_and (new_did / 2 ^ 8) 0xff)
  h ← set_at g (hi_pos + 1) (bit_and new_did 0xff)
  ok (h ∷ drop 1 frames)

-- `_wrong_service`
unfoldable pub apply_wrong_service : List Bytes → Result (List Bytes)
unfolding frame_at byte_at set_at is_ff
apply_wrong_service frames = do
  f ← frame_at frames 0
  ff ← is_ff f
  g ← set_at f (if ff then 2 else 1) 0x00
  ok (g ∷ drop 1 frames)

-- The loop of `_short_payload`: bytes 7, 6, … of the last frame, `n` of them.
unfoldable pub early_pad : ℕ → ℕ → Bytes → Result Bytes
unfolding set_at
early_pad zero i f = ok f
early_pad (suc n) i f = do g ← set_at f i padding_byte; early_pad n (i - 1) g

-- The last frame is replaced by what the function makes of it; `result[-1]` of an empty list raises.
unfoldable pub on_last : (Bytes → Result Bytes) → List Bytes → Result (List Bytes)
on_last f [] = err index_error
on_last f (x ∷ []) = do y ← f x; ok (y ∷ [])
on_last f (x ∷ y ∷ ys) = do rest ← on_last f (y ∷ ys); ok (x ∷ rest)

-- `_short_payload`
unfoldable pub apply_short_payload : ℕ → List Bytes → Result (List Bytes)
unfolding early_pad on_last
apply_short_payload r = on_last (early_pad (randint 1 3 r) (can_dlc - 1))

abbrev pub other_padding : ℕ
other_padding = 0xaa

unfoldable pub replace_padding : ℕ → ℕ
replace_padding b = if b == padding_byte then other_padding else b

-- `_wrong_padding`: the first 8 bytes of every frame; a shorter one raises.
unfoldable pub apply_wrong_padding : List Bytes → Result (List Bytes)
unfolding replace_padding
apply_wrong_padding [] = ok []
apply_wrong_padding (f ∷ frames) = if ltb (length f) can_dlc then err index_error else (do
  rest ← apply_wrong_padding frames
  ok ((map replace_padding (take can_dlc f) ++ drop can_dlc f) ∷ rest))

-- `frames[:idx] + frames[idx + 1:]`
abbrev pub remove_at : ℕ → List Bytes → List Bytes
remove_at idx frames = take idx frames ++ drop (idx + 1) frames

abbrev pub random_cf : ℕ → List Bytes → ℕ
random_cf r frames = randint 1 (length frames - 1) r

-- `_drop_random_cf`
unfoldable pub apply_drop_random_cf : ℕ → List Bytes → Result (List Bytes)
apply_drop_random_cf r frames =
    if ltb (length frames) 2 then ok frames else ok (remove_at (random_cf r frames) frames)

-- `_drop_last_cf`
unfoldable pub apply_drop_last_cf : List Bytes → Result (List Bytes)
apply_drop_last_cf frames =
    if ltb (length frames) 2 then ok frames else ok (take (length frames - 1) frames)

-- `_wrong_seq`
unfoldable pub apply_wrong_seq : ℕ → List Bytes → Result (List Bytes)
unfolding frame_at byte_at set_at
apply_wrong_seq r frames = if ltb (length frames) 2 then ok frames else (do
  f ← frame_at frames (random_cf r frames)
  orig ← byte_at f 0
  g ← set_at f 0 (bit_or 0x20 (bit_and (orig + 1) 0x0f))
  ok (set frames (random_cf r frames) g))

-- `frames[:idx + 1] + [frames[idx]] + frames[idx + 1:]`
abbrev pub duplicate_at : ℕ → Bytes → List Bytes → List Bytes
duplicate_at idx f frames = take (idx + 1) frames ++ (f ∷ drop (idx + 1) frames)

-- `_duplicate_cf`
unfoldable pub apply_duplicate_cf : ℕ → List Bytes → Result (List Bytes)
unfolding frame_at
apply_duplicate_cf r frames = if ltb (length frames) 2 then ok frames else (do
  f ← frame_at frames (random_cf r frames)
  ok (duplicate_at (random_cf r frames) f frames))

-- `_wrong_len`
unfoldable pub apply_wrong_len : List Bytes → Result (List Bytes)
unfolding frame_at byte_at set_at
apply_wrong_len frames = if ltb (length frames) 2 then ok frames else (do
  f ← frame_at frames 0
  b0 ← byte_at f 0
  b1 ← byte_at f 1
  let new_len = min (bit_or (bit_and b0 0x0f * 2 ^ 8) b1 + 1) 0xfff
  g ← set_at f 0 (bit_or (bit_and b0 0xf0) (bit_and (new_len / 2 ^ 8) 0x0f))
  h ← set_at g 1 (bit_and new_len 0xff)
  ok (h ∷ drop 1 frames))

-- The handler table of `_apply`.
unfoldable pub fault_handler : FaultType → ℕ → List Bytes → Result (List Bytes)
fault_handler FaultType.wrong_did r frames = apply_wrong_did r frames
fault_handler FaultType.wrong_service r frames = apply_wrong_service frames
fault_handler FaultType.short_payload r frames = apply_short_payload r frames
fault_handler FaultType.wrong_padding r frames = apply_wrong_padding frames
fault_handler FaultType.drop_random_cf r frames = apply_drop_random_cf r frames
fault_handler FaultType.drop_last_cf r frames = apply_drop_last_cf frames
fault_handler FaultType.wrong_seq r frames = apply_wrong_seq r frames
fault_handler FaultType.duplicate_cf r frames = apply_duplicate_cf r frames
fault_handler FaultType.truncated_mf r frames = ok (take 1 frames)
fault_handler FaultType.wrong_len r frames = apply_wrong_len frames

-- `_apply`: a fault that raises leaves the frames as they are.
unfoldable pub apply_fault : FaultType → ℕ → List Bytes → List Bytes
unfolding fault_handler
apply_fault fault r frames = elim (fault_handler fault r frames) [ ok fs ↦ fs | err e ↦ frames ]
