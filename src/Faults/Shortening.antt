-- ===== src/Faults/Shortening.antt =====
-- SHORT_PAYLOAD of simulator/faults.py, which overwrites the end of the last frame by padding: what
-- a client's ISO-TP assembler puts together from the frames.
use native.Mathlib.Decide.{dec_le}
use e3on_canserver.Base.{
  ok, ℕ, suc, ◌-◌, ◌/◌, ◌%◌, ◌^◌, ◌≤◌, ◌<◌, bit_and, bit_or, ◌≡◌, refl, sym, ap, ◌∙◌, List, [], ◌∷◌,
  ◌++◌, arith, leb, if◌then◌else◌, leb-true, leb-false, length, take, drop, replicate, length-take,
  length-drop, take-append_within, drop-append_within, drop-take, take-take,
}
use e3on_canserver.Isotp.{
  Bytes, padding_byte, pad, consecutive_frames, multi_frames, segment, Assembler, reset,
}
use e3on_canserver.Isotp.Frames.{pad-IsFrame}
use e3on_canserver.Isotp.RoundTrip.{receive, receive-multi}
use e3on_canserver.Isotp.Segments.{
  first_frame, later_frames, segment_small, segment_large, multi_frames_lem, length-later_frames,
  receive_single,
}
use e3on_canserver.Faults.{
  FaultType, randint, early_pad, on_last, apply_short_payload, fault_handler, apply_fault,
}
use e3on_canserver.Faults.Detect.{apply_fault-handler}
use e3on_canserver.Faults.Overwriting.{
  overwritten, early_pad_lem, overwritten_frame, hit, length-overwritten, on_last_later, short_last,
}

-- The bytes of padding in the last frame of a payload of this size.
abbrev pub room_behind : ℕ → ℕ
room_behind size = if leb size 7 then 7 - size else 6 - size % 7

-- What the faulty frames are, and that a client takes the payload overwritten in part.
abbrev IsReceived : Assembler → ℕ → ℕ → Bytes → List Bytes → Type 0
IsReceived a n room p frames =
    (fs : List Bytes) × (on_last (early_pad (suc n) 7) frames ≡ ok fs)
    × (receive a fs ≡ ok (reset, overwritten (suc n - room) p ∷ []))

short_single :
    (n : ℕ) (a : Assembler) (p : Bytes)
    → n < 3
    → 1 ≤ length p
    → length p ≤ 7
    → IsReceived a n (7 - length p) p (pad (length p ∷ p) ∷ [])
unfolding on_last
short_single n a p l h1 h2 =
    let q : Bytes = overwritten (suc n - (7 - length p)) p in
    let size : length q ≡ length p = length-overwritten (suc n - (7 - length p)) p (omega arith) in
    let padded_q : early_pad (suc n) 7 (pad (length p ∷ p)) ≡ ok (pad (length q ∷ q)) =
      early_pad_lem n (pad (length p ∷ p)) l (pad-IsFrame (length p ∷ p) (omega arith))
      ∙ ap ok (overwritten_frame n (length p) p l h2 ∙ ap (λ k. pad (k ∷ q)) (sym size)) in
    (
      pad (length q ∷ q) ∷ [],
      rw padded_q refl,
      receive_single a q (omega (arith, size)) (omega (arith, size)),
    )

short_many :
    (n : ℕ) (a : Assembler) (p : Bytes)
    → n < 3
    → 8 ≤ length p
    → length p ≤ 4095
    → IsReceived a n (6 - length p % 7) p (multi_frames p)
short_many n a p l h1 h2 =
    let m : ℕ = suc n - (6 - length p % 7) in
    let q : Bytes = overwritten m p in
    let size : length q ≡ length p = length-overwritten m p (omega arith) in
    let kept : 6 ≤ length (take (length p - m) p) = omega (arith, length-take (length p - m) p) in
    let rest : length (drop 6 p) ≡ length p - 6 = length-drop 6 p in
    let front : take 6 q ≡ take 6 p =
      take-append_within 6 (take (length p - m) p) (replicate m padding_byte) kept
      ∙ take-take 6 (length p - m) p (omega arith) in
    let same : hit n (length (drop 6 p)) ≡ m = omega arith in
    let kept_rest : length (drop 6 p) - m ≡ length p - m - 6 = omega arith in
    let back : drop 6 q ≡ overwritten (hit n (length (drop 6 p))) (drop 6 p) =
      rw (same, kept_rest)
        (drop-append_within 6 (take (length p - m) p) (replicate m padding_byte) kept
          ∙ ap (λ t. t ++ replicate m padding_byte)
              (drop-take 6 (length p - m - 6) (length p - m) p (omega arith))) in
    let size_back : length (drop 6 q) ≡ length (drop 6 p) = omega (arith, length-drop 6 q) in
    let first : first_frame q ≡ first_frame p =
      ap (λ k. pad (bit_or 0x10 (bit_and (k / 2 ^ 8) 0x0f) ∷ bit_and k 0xff ∷ take 6 q)) size
      ∙ ap (λ t. pad (bit_or 0x10 (bit_and (length p / 2 ^ 8) 0x0f) ∷ bit_and (length p) 0xff ∷ t))
          front in
    let later : on_last (early_pad (suc n) 7) (later_frames p) ≡ ok (later_frames q) =
      short_last n (length (drop 6 p)) 1 (drop 6 p) l (omega arith) (omega arith)
      ∙ ap ok (
          ap (consecutive_frames (length (drop 6 p)) 1) (sym back)
          ∙ ap (λ k. consecutive_frames k 1 (drop 6 q)) (sym size_back)) in
    let faulty : on_last (early_pad (suc n) 7) (multi_frames p) ≡ ok (multi_frames q) =
      rw (multi_frames_lem p, multi_frames_lem q)
        (on_last_later (early_pad (suc n) 7) (first_frame p) (later_frames p) (later_frames q)
            (length-later_frames p h1) later
          ∙ ap (λ f. ok (f ∷ later_frames q)) (sym first)) in
    (multi_frames q, faulty, receive-multi a q (omega (arith, size)) (omega (arith, size)))

-- A response of 1 to 4095 bytes that is hit by SHORT_PAYLOAD has its last 1 to 3 bytes overwritten
-- by 0xCC, less the bytes of padding behind it in its last frame, and a client's ISO-TP assembler
-- in any state takes the result for the response: where the padding is long enough, the right one.
pub short_payload_received :
    (r : ℕ) (a : Assembler) (p : Bytes)
    → 1 ≤ length p
    → length p ≤ 4095
    → (frames : List Bytes) × (segment p ≡ ok frames)
      × (receive a (apply_fault FaultType.short_payload r frames)
          ≡ ok (reset, overwritten (randint 1 3 r - room_behind (length p)) p ∷ []))
unfolding fault_handler apply_short_payload segment
short_payload_received r a p h1 h2 =
    let draw : randint 1 3 r ≡ suc (r % 3) = omega arith in
    elim (dec_le (length p) 7) [
      | yes small ↦
          let (fs, faulty, got) = short_single (r % 3) a p (omega arith) h1 small in
          let lost : randint 1 3 r - room_behind (length p) ≡ suc (r % 3) - (7 - length p) =
            rw (leb-true (length p) 7 small, draw) refl in
          let handled : fault_handler FaultType.short_payload r (pad (length p ∷ p) ∷ []) ≡ ok fs =
            rw draw faulty in
          (
            _,
            segment_small p small,
            rw (lost, apply_fault-handler FaultType.short_payload r _ fs handled) got,
          )
      | no large ↦
          let (fs, faulty, got) = short_many (r % 3) a p (omega arith) (omega arith) h2 in
          let lost : randint 1 3 r - room_behind (length p) ≡ suc (r % 3) - (6 - length p % 7) =
            rw (leb-false (length p) 7 (omega arith), draw) refl in
          let handled : fault_handler FaultType.short_payload r (multi_frames p) ≡ ok fs =
            rw draw faulty in
          (
            multi_frames p,
            segment_large p (omega arith) h2 ∙ ap ok (sym (multi_frames_lem p)),
            rw (lost, apply_fault-handler FaultType.short_payload r _ fs handled) got,
          )
    ]
