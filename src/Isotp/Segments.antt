-- ===== src/Isotp/Segments.antt =====
-- The frames that `segment` of simulator/protocol/isotp.py makes, one by one, and what an assembler
-- makes of each.
use e3on_canserver.Base.{
  Result, ok, err, ◌+◌, ◌/◌, ◌^◌, ◌≤◌, bit_and, bit_or, ◌≡◌, refl, ◌∙◌, List, [], ◌∷◌, arith,
  ltb-false, leb-true, leb-false, length, take, drop, take-append-drop, length-drop,
}
use e3on_canserver.Isotp.{Bytes, pad, consecutive_frames, multi_frames, segment, Assembler, reset}
use e3on_canserver.Isotp.RoundTrip.{
  receive, waiting, receive-consecutive_frames, feed_single, feed_first,
}
use e3on_canserver.Isotp.Robust.{length-consecutive_frames}

-- The frames of one payload; there are none for a payload that ISO-TP cannot carry.
abbrev pub frames_in : Result (List Bytes) → List Bytes
frames_in (ok frames) = frames
frames_in (err e) = []

abbrev pub first_frame : Bytes → Bytes
first_frame p =
    pad (bit_or 0x10 (bit_and (length p / 2 ^ 8) 0x0f) ∷ bit_and (length p) 0xff ∷ take 6 p)

abbrev pub later_frames : Bytes → List Bytes
later_frames p = consecutive_frames (length (drop 6 p)) 1 (drop 6 p)

pub segment_small : (p : Bytes) → length p ≤ 7 → segment p ≡ ok (pad (length p ∷ p) ∷ [])
unfolding segment
segment_small p h = rw (leb-true (length p) 7 h) refl

pub segment_large :
    (p : Bytes) → 8 ≤ length p → length p ≤ 4095 → segment p ≡ ok (first_frame p ∷ later_frames p)
unfolding segment multi_frames
segment_large p h1 h2 =
    rw (leb-false (length p) 7 (omega arith), ltb-false 0xfff (length p) h2) refl

-- Behind the First Frame, the frames of the rest complete the payload.
pub receive-later_frames :
    (p : Bytes)
    → 8 ≤ length p
    → receive (waiting (length (take 6 p) + length (drop 6 p)) (take 6 p) 1) (later_frames p)
      ≡ ok (reset, p ∷ [])
receive-later_frames p h =
    receive-consecutive_frames (length (drop 6 p)) (take 6 p) 1 (drop 6 p) (omega arith)
      (omega (arith, length-drop 6 p)) (omega arith)
    ∙ rw (take-append-drop 6 p) refl

pub multi_frames_lem : (p : Bytes) → multi_frames p ≡ first_frame p ∷ later_frames p
unfolding multi_frames
multi_frames_lem p = refl

pub length-later_frames : (p : Bytes) → 8 ≤ length p → 1 ≤ length (later_frames p)
length-later_frames p h = omega (
  arith,
  length-consecutive_frames (length (drop 6 p)) 1 (drop 6 p) (omega arith),
  length-drop 6 p,
)

pub receive_single :
    (a : Assembler) (p : Bytes)
    → 1 ≤ length p
    → length p ≤ 7
    → receive a (pad (length p ∷ p) ∷ []) ≡ ok (reset, p ∷ [])
unfolding receive
receive_single a p h1 h2 = rw (feed_single a p h1 h2) refl

pub receive_first :
    (a : Assembler) (p : Bytes)
    → 8 ≤ length p
    → length p ≤ 4095
    → receive a (first_frame p ∷ [])
      ≡ ok (waiting (length (take 6 p) + length (drop 6 p)) (take 6 p) 1, [])
unfolding receive
receive_first a p h1 h2 = rw (feed_first a p h1 h2) refl
