-- ===== src/Collect/RoundTrip.antt =====
-- What simulator/protocol/collect.py sends, a listener decodes.
use native.Mathlib.Decide.{dec_le}
use e3on_canserver.Base.Bits.{bit_and_0xff}
use e3on_canserver.Base.{
  ok, ℕ, zero, suc, ◌+◌, ◌-◌, ◌*◌, ◌/◌, ◌^◌, ◌≤◌, ◌<◌, bit_and, ◌≡◌, refl, sym, some, List, [], ◌∷◌,
  ◌++◌, append-nil, append_assoc, arith, lt→ltb, ltb-false, leb-true, ==-refl, length, take, drop,
  replicate, length-append, take-append-drop, length-take, length-drop, take_all, drop_all,
  take-append_exact,
}
use e3on_canserver.Isotp.{Bytes}
use e3on_canserver.Collect.{
  frame_len, collect_padding, seq_first, pad_collect, next_seq, continuation_frames, length_header,
  segment_collect,
}
use e3on_canserver.Collect.Decode.{follows, gather}

pub pad_collect-ok :
    (d : Bytes)
    → length d ≤ 8
    → pad_collect d ≡ ok (d ++ replicate (frame_len - length d) collect_padding)
unfolding pad_collect
pad_collect-ok d h = rw (ltb-false frame_len (length d) h)

-- The sequence byte of the code is the one of the documents, and stays in their range.
next_seq-follows : (seq : ℕ) → seq ≤ 0x2f → (next_seq seq ≡ follows seq) × (next_seq seq ≤ 0x2f)
unfolding next_seq follows
next_seq-follows seq h = ground arith

-- The continuation frames as a list.
unfoldable pub chunks : ℕ → ℕ → Bytes → List Bytes
unfolding next_seq
chunks fuel seq [] = []
chunks zero seq (x ∷ xs) = []
chunks (suc fuel) seq (x ∷ xs) =
    (next_seq seq
      ∷ (take 7 (x ∷ xs)
          ++ replicate (frame_len - length (next_seq seq ∷ take 7 (x ∷ xs))) collect_padding))
    ∷ chunks fuel (next_seq seq) (drop 7 (x ∷ xs))

continuation_frames-chunks :
    (fuel seq : ℕ) (rem : Bytes) → continuation_frames fuel seq rem ≡ ok (chunks fuel seq rem)
unfolding continuation_frames chunks
continuation_frames-chunks fuel seq [] = refl
continuation_frames-chunks zero seq (x ∷ xs) = refl
continuation_frames-chunks (suc fuel) seq (x ∷ xs) = rw (
  pad_collect-ok (next_seq seq ∷ take 7 (x ∷ xs)) (omega (arith, length-take 6 xs)),
  continuation_frames-chunks fuel (next_seq seq) (drop 6 xs),
)

-- The payload is complete, and what stands behind it is padding.
gather_end :
    (seq : ℕ) (payload pads : Bytes)
    → gather (length payload) seq (payload ++ pads) [] ≡ some payload
unfolding gather
gather_end seq payload pads = rw (
  leb-true (length payload) (length (payload ++ pads)) (omega (arith, length-append payload pads)),
  take-append_exact (length payload) payload pads refl,
)

gather_last :
    (seq : ℕ) (buffer rem pads : Bytes)
    → gather (length buffer + length rem) seq (buffer ++ (rem ++ pads)) [] ≡ some (buffer ++ rem)
gather_last seq buffer rem pads =
    rw (← append_assoc buffer rem pads, ← length-append buffer rem)
      (gather_end seq (buffer ++ rem) pads)

gather_next :
    (size seq : ℕ) (buffer chunk : Bytes) (frames : List Bytes)
    → seq ≤ 0x2f
    → length buffer < size
    → gather size seq buffer ((next_seq seq ∷ chunk) ∷ frames)
      ≡ gather size (next_seq seq) (buffer ++ chunk) frames
unfolding gather
gather_next size seq buffer chunk frames r h =
    rw (sym (next_seq-follows seq r).0, ==-refl, lt→ltb (length buffer) size h)

gather-chunks :
    (fuel seq : ℕ) (buffer rem : Bytes)
    → seq ≤ 0x2f
    → length rem ≤ fuel
    → 0 < length rem
    → gather (length buffer + length rem) seq buffer (chunks fuel seq rem) ≡ some (buffer ++ rem)
unfolding chunks
gather-chunks fuel seq buffer [] r h p = absurd (omega arith)
gather-chunks zero seq buffer (x ∷ xs) r h p = absurd (omega arith)
gather-chunks (suc fuel) seq buffer (x ∷ xs) r h p =
    rw
      (gather_next (length buffer + length (x ∷ xs)) seq buffer _
        (chunks fuel (next_seq seq) (drop 7 (x ∷ xs))) r (omega arith))
      (elim (dec_le (length xs) 6) [
        | yes last ↦
            rw (drop_all 6 xs last, take_all 6 xs last)
              (gather_last (next_seq seq) buffer (x ∷ xs) _)
        | no more ↦
            let full : length (take 6 xs) ≡ 6 = omega (arith, length-take 6 xs) in
            let total : length buffer + suc (length xs)
                ≡ length (buffer ++ (x ∷ take 6 xs)) + length (drop 6 xs) =
              omega (arith, length-append buffer (x ∷ take 6 xs), length-drop 6 xs) in
            rw (
              full,
              append-nil,
              total,
              gather-chunks fuel (next_seq seq) (buffer ++ (x ∷ take 6 xs)) (drop 6 xs)
                  (next_seq-follows seq r).1 (omega (arith, length-drop 6 xs))
                  (omega (arith, length-drop 6 xs)),
              append_assoc,
              take-append-drop,
            )
      ])

-- A message whose first frame takes `n` bytes of it.
pub gather_message :
    (n k : ℕ) (p : Bytes)
    → 0 < n
    → k ≡ n - length (take n p)
    → gather
        (length p)
        seq_first
        (take n p ++ replicate k collect_padding)
        (chunks (length (drop n p)) seq_first (drop n p))
      ≡ some p
gather_message n k p h e = elim (dec_le (length p) n) [
  | yes fits ↦
      rw (take_all n p fits, drop_all n p fits)
        (unfold chunks in gather_end seq_first p (replicate k collect_padding))
  | no more ↦
      let none_left : k ≡ 0 = omega (arith, length-take n p) in
      let total : length p ≡ length (take n p) + length (drop n p) =
        omega (arith, length-take n p, length-drop n p) in
      let whole : gather (length (take n p) + length (drop n p)) seq_first (take n p)
            (chunks (length (drop n p)) seq_first (drop n p))
          ≡ some (take n p ++ drop n p) =
        gather-chunks (length (drop n p)) seq_first (take n p) (drop n p) (omega arith)
          (omega arith) (omega (arith, length-drop n p)) in
      rw (none_left, append-nil) (rw (← total, take-append-drop) at whole)
]

abbrev pub prefix : ℕ → Bytes → Bytes
prefix did header = seq_first ∷ bit_and did 0xff ∷ bit_and (did / 2 ^ 8) 0xff ∷ header

-- The frames of a message with the given header.
abbrev pub message : ℕ → Bytes → ℕ → Bytes → List Bytes
message did header n p =
    (prefix did header ++ (take n p ++ replicate (n - length (take n p)) collect_padding))
    ∷ chunks (length (drop n p)) seq_first (drop n p)

pub segment_collect-message :
    (did : ℕ) (p header : Bytes) (n : ℕ)
    → 0 < length p
    → length header + n ≡ 5
    → length_header (length p) ≡ ok (header, n)
    → segment_collect did p ≡ ok (message did header n p)
unfolding segment_collect
segment_collect-message did [] header n h fits e = absurd (omega arith)
segment_collect-message did (x ∷ xs) header n h fits e =
    let size : length (prefix did header ++ take n (x ∷ xs))
        ≡ 3 + length header + length (take n (x ∷ xs)) =
      omega (arith, length-append header (take n (x ∷ xs))) in
    let room : frame_len - length (prefix did header ++ take n (x ∷ xs))
        ≡ n - length (take n (x ∷ xs)) =
      omega arith in
    rw
      (
        e,
        pad_collect-ok (prefix did header ++ take n (x ∷ xs))
            (omega (arith, length-take n (x ∷ xs))),
        continuation_frames-chunks,
      )
      (rw (room, append_assoc))

pub did_bytes : (did : ℕ) → did < 65536 → bit_and (did / 2 ^ 8) 0xff * 256 + bit_and did 0xff ≡ did
did_bytes did h = omega (arith, bit_and_0xff did, bit_and_0xff (did / 256))
