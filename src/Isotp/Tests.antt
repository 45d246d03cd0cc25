-- ===== src/Isotp/Tests.antt =====
-- Runs of simulator/protocol/isotp.py, and its theorems at concrete inputs.
use e3on_canserver.Base.{
  index_error, ok, err, ℕ, ◌≡◌, refl, ◌↔◌, none, some, List, [], ◌∷◌, arith, length, All,
}
use e3on_canserver.Isotp.{Bytes, pad, consecutive_frames, multi_frames, segment, reset, feed}
use e3on_canserver.Isotp.Frames.{IsFrame}
use e3on_canserver.Isotp.RoundTrip.{receive, waiting, receive-segment}
use e3on_canserver.Isotp.Robust.{
  segment_frames, IsWellFormed, IsShort, reset-IsWellFormed, feed-IsSound, type_of, feed-err,
}

abbrev sample : Bytes
sample = 0x62 ∷ 1 ∷ 0 ∷ 1 ∷ 2 ∷ 3 ∷ 4 ∷ 5 ∷ 6 ∷ 7 ∷ 8 ∷ 9 ∷ 10 ∷ 11 ∷ []

segment-sample :
    segment sample
    ≡ ok (
        (0x10 ∷ 14 ∷ 0x62 ∷ 1 ∷ 0 ∷ 1 ∷ 2 ∷ 3 ∷ [])
        ∷ (0x21 ∷ 4 ∷ 5 ∷ 6 ∷ 7 ∷ 8 ∷ 9 ∷ 10 ∷ [])
        ∷ (0x22 ∷ 11 ∷ 0xcc ∷ 0xcc ∷ 0xcc ∷ 0xcc ∷ 0xcc ∷ 0xcc ∷ [])
        ∷ [])
unfolding segment multi_frames consecutive_frames pad
segment-sample = refl

receive-segment_example :
    (frames : List Bytes) × (segment sample ≡ ok frames)
    × (receive (waiting 20 (7 ∷ []) 3) frames ≡ ok (reset, sample ∷ []))
receive-segment_example = receive-segment (waiting 20 (7 ∷ []) 3) sample (omega arith) (omega arith)

segment_frames_example : All IsFrame (pad (2 ∷ 5 ∷ 6 ∷ []) ∷ []) × (◌≡◌ {A = ℕ} 1 1)
unfolding segment
segment_frames_example = segment_frames (5 ∷ 6 ∷ []) (pad (2 ∷ 5 ∷ 6 ∷ []) ∷ []) refl

feed-IsSound_example : IsWellFormed reset × IsShort (some (9 ∷ []))
unfolding feed
feed-IsSound_example =
    feed-IsSound reset (1 ∷ 9 ∷ 0 ∷ 0 ∷ 0 ∷ 0 ∷ 0 ∷ 0 ∷ []) (reset, some (9 ∷ []), none)
      (omega arith) reset-IsWellFormed refl

feed-err_example :
    (feed reset (0x10 ∷ []) ≡ err index_error)
    ↔ ((length {A = ℕ} (0x10 ∷ []) ≡ 1) × (type_of (0x10 ∷ []) ≡ 1) × (index_error ≡ index_error))
feed-err_example = feed-err reset (0x10 ∷ []) index_error
