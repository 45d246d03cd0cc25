-- ===== src/Isotp/Frames.antt =====
-- The header bytes of simulator/protocol/isotp.py as arithmetic, and what `feed` makes of them.
use e3on_canserver.Base.{
  ok, ℕ, ◌+◌, ◌*◌, ◌/◌, ◌^◌, ◌≤◌, ◌<◌, bit_and, bit_or, ◌≡◌, refl, none, ◌∷◌, arith, length,
  length-append, length-replicate,
}
use e3on_canserver.Base.Bits.{bit_and_0x0f, bit_or-16}
use e3on_canserver.Isotp.{Bytes, can_dlc, pad, Assembler, handle_sf, handle_ff, handle_cf, feed}

abbrev pub IsFrame : Bytes → Type 0
IsFrame d = length d ≡ can_dlc

pub pad-IsFrame : (d : Bytes) → length d ≤ can_dlc → IsFrame (pad d)
unfolding pad
pad-IsFrame d h = rw length-append (rw length-replicate (omega arith))

pub cf_header : (seq : ℕ) → seq < 16 → bit_or 0x20 (bit_and seq 0x0f) ≡ 32 + seq
cf_header seq h = omega (arith, bit_and_0x0f seq, bit_or-16 2 (bit_and seq 0x0f))

pub ff_header :
    (size : ℕ) → size ≤ 4095 → bit_or 0x10 (bit_and (size / 2 ^ 8) 0x0f) ≡ 16 + size / 256
ff_header size h = omega (arith, bit_and_0x0f (size / 256), bit_or-16 1 (bit_and (size / 256) 0x0f))

pub low_nibble : (t n : ℕ) → n < 16 → bit_and (t * 16 + n) 0x0f ≡ n
low_nibble t n hn = omega (arith, bit_and_0x0f (t * 16 + n))

pub feed-sf : (a : Assembler) (n : ℕ) (d : Bytes) → n < 16 → feed a (n ∷ d) ≡ handle_sf a (n ∷ d) n
unfolding feed
feed-sf a n d h =
    let e : bit_and (n / 2 ^ 4) 0x0f ≡ 0 = omega (arith, bit_and_0x0f (n / 16)) in rw e

pub feed-ff :
    (a : Assembler) (n : ℕ) (d : Bytes)
    → n < 16
    → feed a ((16 + n) ∷ d) ≡ handle_ff a ((16 + n) ∷ d) (16 + n)
unfolding feed
feed-ff a n d h =
    let e : bit_and ((16 + n) / 2 ^ 4) 0x0f ≡ 1 = omega (arith, bit_and_0x0f ((16 + n) / 16)) in
    rw e

pub feed-cf :
    (a : Assembler) (n : ℕ) (d : Bytes)
    → n < 16
    → feed a ((32 + n) ∷ d) ≡ handle_cf a ((32 + n) ∷ d) (32 + n)
unfolding feed
feed-cf a n d h =
    let e : bit_and ((32 + n) / 2 ^ 4) 0x0f ≡ 2 = omega (arith, bit_and_0x0f ((32 + n) / 16)) in
    rw e

-- A Flow Control frame that nobody waits for is ignored.
pub feed-flow_control : (a : Assembler) (flow : Bytes) → feed a (0x30 ∷ flow) ≡ ok (a, none, none)
unfolding feed
feed-flow_control a flow = refl
