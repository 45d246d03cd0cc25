-- ===== src/Isotp/RoundTrip.antt =====
-- A payload that simulator/protocol/isotp.py segments is reassembled from its frames.
use native.Mathlib.Decide.{dec_le}
use e3on_canserver.Base.Bits.{bit_and_0xff, bit_and_0x0f, bit_or-256}
use e3on_canserver.Base.{
  ◌>>=◌, Result, ok, ℕ, zero, suc, ◌+◌, ◌-◌, ◌*◌, ◌/◌, ◌%◌, ◌^◌, ◌≤◌, ◌<◌, bit_and, bit_or, ◌≡◌,
  refl, true, Option, none, some, List, [], ◌∷◌, ◌++◌, append_assoc, arith, ltb-false, leb-true,
  leb-false, ==-refl, suc-ne-zero, length, take, drop, length-append, take-append-drop, length-take,
  length-drop, take_all, drop_all, take-append_exact, take-take-append,
}
use e3on_canserver.Isotp.Frames.{cf_header, ff_header, low_nibble, feed-sf, feed-ff, feed-cf}
use e3on_canserver.Isotp.{
  Bytes, pad, consecutive_frames, multi_frames, segment, Assembler, reset, handle_sf, flow_control,
  handle_ff, finish_cf, handle_cf, feed,
}

abbrev pub collected : Option Bytes → List Bytes → List Bytes
collected none ps = ps
collected (some p) ps = p ∷ ps

-- Frames fed one after the other: the last state, and the complete payloads in order.
unfoldable pub receive : Assembler → List Bytes → Result (Assembler × List Bytes)
receive a [] = ok (a, [])
receive a (f ∷ fs) = do
  (a', payload, fc) ← feed a f
  (a'', payloads) ← receive a' fs
  ok (a'', collected payload payloads)

-- The state between two Consecutive Frames.
abbrev pub waiting : ℕ → Bytes → ℕ → Assembler
waiting size b seq = record { expected_length = size; buffer = b; next_seq = seq; active = true }

-- One Consecutive Frame of `segment` adds its chunk.
pub feed_chunk :
    (b : Bytes) (seq : ℕ) (rem : Bytes)
    → seq < 16
    → feed (waiting (length b + length rem) b seq) (pad ((32 + seq) ∷ take 7 rem))
      ≡ finish_cf (waiting (length b + length rem) (b ++ take 7 rem) ((seq + 1) % 16))
unfolding pad handle_cf
feed_chunk b seq rem h =
    let low : bit_and (32 + seq) 0x0f ≡ seq = low_nibble 2 seq h in
    let left : length b + length rem - length b ≡ length rem = omega arith in
    rw (feed-cf _ seq _ h) (rw (low, ==-refl, left, take-take-append))

-- The chunk that completes the payload, and one that does not.
pub finish_last :
    (b rem : Bytes) (seq : ℕ)
    → length rem ≤ 7
    → finish_cf (waiting (length b + length rem) (b ++ take 7 rem) seq)
      ≡ ok (reset, some (b ++ rem), none)
unfolding finish_cf
finish_last b rem seq h =
    let size : length (b ++ rem) ≡ length b + length rem = length-append b rem in
    rw (take_all 7 rem h) (
      rw (leb-true (length b + length rem) (length (b ++ rem)) (omega arith))
        (rw (take_all (length b + length rem) (b ++ rem) (omega arith))))

pub finish_more :
    (b rem : Bytes) (seq : ℕ)
    → 7 < length rem
    → finish_cf (waiting (length b + length rem) (b ++ take 7 rem) seq)
      ≡ ok (
        waiting (length (b ++ take 7 rem) + length (drop 7 rem)) (b ++ take 7 rem) seq,
        none,
        none,
      )
unfolding finish_cf
finish_more b rem seq h =
    let size : length (b ++ take 7 rem) ≡ length b + 7 =
      omega (arith, length-append b (take 7 rem), length-take 7 rem) in
    let total : length (b ++ take 7 rem) + length (drop 7 rem) ≡ length b + length rem =
      omega (arith, length-drop 7 rem) in
    rw (leb-false (length b + length rem) (length (b ++ take 7 rem)) (omega arith)) (rw total)

pub receive-consecutive_frames :
    (fuel : ℕ) (b : Bytes) (seq : ℕ) (rem : Bytes)
    → length rem ≤ fuel
    → 0 < length rem
    → seq < 16
    → receive (waiting (length b + length rem) b seq) (consecutive_frames fuel seq rem)
      ≡ ok (reset, (b ++ rem) ∷ [])
unfolding receive consecutive_frames
receive-consecutive_frames fuel b seq [] hf hp hs = absurd (omega arith)
receive-consecutive_frames zero b seq (x ∷ xs) hf hp hs = absurd (omega arith)
receive-consecutive_frames (suc fuel) b seq (x ∷ xs) hf hp hs =
    rw (cf_header seq hs, feed_chunk b seq (x ∷ xs) hs)
      (elim (dec_le (length (x ∷ xs)) 7) [
        | yes last ↦ rw (finish_last b (x ∷ xs) ((seq + 1) % 16) last, drop_all 7 (x ∷ xs) last)
        | no more ↦ rw (finish_more b (x ∷ xs) ((seq + 1) % 16) (omega arith)) (
            rw (
              receive-consecutive_frames fuel (b ++ take 7 (x ∷ xs)) ((seq + 1) % 16)
                  (drop 7 (x ∷ xs)) (omega (arith, length-drop 7 (x ∷ xs)))
                  (omega (arith, length-drop 7 (x ∷ xs))) (omega arith),
              append_assoc,
              take-append-drop,
            ))
      ])

-- A Single Frame gives its payload, and no Flow Control, whatever the assembler was doing.
pub feed_single :
    (a : Assembler) (p : Bytes)
    → 1 ≤ length p
    → length p ≤ 7
    → feed a (pad (length p ∷ p)) ≡ ok (reset, some p, none)
unfolding pad handle_sf
feed_single a [] h1 h2 = absurd (omega arith)
feed_single a (x ∷ xs) h1 h2 =
    let low : bit_and (suc (length xs)) 0x0f ≡ suc (length xs) =
      omega (arith, bit_and_0x0f (suc (length xs))) in
    rw (feed-sf a (suc (length xs)) _ (omega arith)) (
      rw (low, suc-ne-zero, ltb-false 7 (suc (length xs)) h2)
        (rw (take-append_exact (length xs) xs _ refl)))

receive-sf :
    (a : Assembler) (p : Bytes)
    → 1 ≤ length p
    → length p ≤ 7
    → receive a (pad (length p ∷ p) ∷ []) ≡ ok (reset, p ∷ [])
unfolding receive
receive-sf a p h1 h2 = rw (feed_single a p h1 h2)

-- Whatever the assembler was doing, a First Frame starts over.
pub feed_first :
    (a : Assembler) (p : Bytes)
    → 8 ≤ length p
    → length p ≤ 4095
    → feed a
        (pad (bit_or 0x10 (bit_and (length p / 2 ^ 8) 0x0f) ∷ bit_and (length p) 0xff ∷ take 6 p))
      ≡ ok (waiting (length (take 6 p) + length (drop 6 p)) (take 6 p) 1, none, some flow_control)
unfolding pad handle_ff
feed_first a p h1 h2 =
    let low : bit_and (16 + length p / 256) 0x0f ≡ length p / 256 =
      low_nibble 1 (length p / 256) (omega arith) in
    let size : bit_or (length p / 256 * 256) (length p % 256) ≡ length p =
      omega (arith, bit_or-256 (length p / 256) (length p % 256)) in
    let total : length (take 6 p) + length (drop 6 p) ≡ length p =
      omega (arith, length-take 6 p, length-drop 6 p) in
    rw (ff_header (length p) h2, feed-ff a (length p / 256) _ (omega arith), total)
      (rw (low, bit_and_0xff, size, ltb-false (length p) 8 h1)
        (rw (take-append_exact 6 (take 6 p) _ (omega (arith, length-take 6 p)))))

pub receive-multi :
    (a : Assembler) (p : Bytes)
    → 8 ≤ length p
    → length p ≤ 4095
    → receive a (multi_frames p) ≡ ok (reset, p ∷ [])
unfolding receive multi_frames
receive-multi a p h1 h2 = rw (
  feed_first a p h1 h2,
  receive-consecutive_frames (length (drop 6 p)) (take 6 p) 1 (drop 6 p) (omega arith)
      (omega (arith, length-drop 6 p)) (omega arith),
  take-append-drop,
)

-- A payload of 1 to 4095 bytes is segmented, and an assembler in any state that is fed the frames
-- in order gives exactly that payload once, and is idle again.
pub receive-segment :
    (a : Assembler) (p : Bytes)
    → 1 ≤ length p
    → length p ≤ 4095
    → (frames : List Bytes) × (segment p ≡ ok frames) × (receive a frames ≡ ok (reset, p ∷ []))
unfolding segment
receive-segment a p h1 h2 = elim (dec_le (length p) 7) [
  | yes small ↦ (pad (length p ∷ p) ∷ [], rw (leb-true _ _ small), receive-sf a p h1 small)
  | no large ↦ (
    multi_frames p,
    rw (leb-false (length p) 7 (omega arith), ltb-false 0xfff (length p) h2),
    receive-multi a p (omega arith) h2,
  )
]
