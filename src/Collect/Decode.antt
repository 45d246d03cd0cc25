-- ===== src/Collect/Decode.antt =====
-- A listener of the collect protocol, from the frame layout in docs/protocols.md ("Unsolicited
-- sequences") and in the module comment of simulator/protocol/collect.py: the specification that
-- the segmentation is held against.
use mathlib.Core.Option
use e3on_canserver.Base.{
  ℕ, ◌+◌, ◌*◌, bit_and, ◌&&◌, not, Option, none, some, List, [], ◌∷◌, ◌++◌, ltb, leb, ◌==◌,
  if◌then◌else◌, length, get_or, take, drop,
}
use e3on_canserver.Isotp.{Bytes}

-- The sequence byte behind another: one more, and 0x20 behind 0x2F.
unfoldable pub follows : ℕ → ℕ
follows seq = if seq == 0x2f then 0x20 else seq + 1

-- The Continuation Frames, each with the next sequence byte and 7 bytes, until `size` bytes are
-- there; too few frames, too many, or a wrong sequence byte give no message.
unfoldable pub gather : ℕ → ℕ → Bytes → List Bytes → Option Bytes
unfolding follows
gather size seq buffer [] = if leb size (length buffer) then some (take size buffer) else none
gather size seq buffer ([] ∷ frames) = none
gather size seq buffer ((s ∷ chunk) ∷ frames) =
    if (s == follows seq) && ltb (length buffer) size
    then gather size s (buffer ++ chunk) frames
    else none

-- The length field: the low nibble of `v3`, else `v4`, else `v5` behind the escape byte. With it
-- come the bytes behind the field.
unfoldable pub read_length : ℕ → Bytes → Option (ℕ × Bytes)
read_length v3 rest =
    if not (bit_and v3 0x0f == 0)
    then some (bit_and v3 0x0f, rest)
    else if not (get_or rest 0 0 == 0xc1)
    then some (get_or rest 0 0, drop 1 rest)
    else some (get_or rest 1 0, drop 2 rest)

-- The identifier and the payload of one message.
unfoldable pub decode : List Bytes → Option (ℕ × Bytes)
unfolding gather read_length
decode ((v0 ∷ lo ∷ hi ∷ v3 ∷ rest) ∷ frames) =
    if v0 == 0x21
    then elim (read_length v3 rest) [
      | none ↦ none
      | some (size, chunk) ↦ Option.map (λ p. (hi * 256 + lo, p)) (gather size v0 chunk frames)
    ]
    else none
decode _ = none
