-- ===== src/Faults/Padding.antt =====
-- WRONG_PADDING of simulator/faults.py, which replaces bytes by their value: what a client's ISO-TP
-- assembler puts together from the frames.
use native.Mathlib.Decide.{dec_le}
use e3on_canserver.Base.{
  ok, ℕ, zero, suc, ◌+◌, ◌-◌, ◌/◌, ◌%◌, ◌≤◌, ◌<◌, bit_and, bit_or, ◌≡◌, refl, sym, ap, ◌∙◌, ◌≢◌,
  none, some, List, [], ◌∷◌, ◌++◌, map, append-nil, append_assoc, arith, ltb-false, ==-refl,
  ==-false, suc-ne-zero, length, take, drop, replicate, All, take-append-drop, length-take,
  length-drop, take_all, drop_all, take-append_exact, take-take-append, length-map,
}
use e3on_canserver.Base.Bits.{bit_and_0x0f, bit_and_0xff}
use e3on_canserver.Isotp.{
  Bytes, can_dlc, padding_byte, pad, consecutive_frames, segment, Assembler, reset, handle_sf,
  flow_control, finish_cf, handle_cf, feed,
}
use e3on_canserver.Isotp.Frames.{IsFrame, cf_header, ff_header, low_nibble, feed-sf, feed-cf}
use e3on_canserver.Isotp.RoundTrip.{receive, waiting, finish_last, finish_more, feed_first}
use e3on_canserver.Isotp.Robust.{segment_frames}
use e3on_canserver.Isotp.Sequence.{receive_quiet}
use e3on_canserver.Isotp.Segments.{first_frame, later_frames, segment_small, segment_large}
use e3on_canserver.Faults.{
  FaultType, replace_padding, apply_wrong_padding, fault_handler, apply_fault,
}
use e3on_canserver.Faults.Detect.{apply_fault-handler}

abbrev pub repadded : Bytes → Bytes
repadded = map replace_padding

repadded-append : (xs ys : Bytes) → repadded (xs ++ ys) ≡ repadded xs ++ repadded ys
repadded-append [] ys = refl
repadded-append (x ∷ xs) ys = ap (◌∷◌ (replace_padding x)) (repadded-append xs ys)

take-repadded : (n : ℕ) (xs : Bytes) → repadded (take n xs) ≡ take n (repadded xs)
take-repadded zero xs = refl
take-repadded (suc n) [] = refl
take-repadded (suc n) (x ∷ xs) = ap (◌∷◌ (replace_padding x)) (take-repadded n xs)

drop-repadded : (n : ℕ) (xs : Bytes) → repadded (drop n xs) ≡ drop n (repadded xs)
drop-repadded zero xs = refl
drop-repadded (suc n) [] = refl
drop-repadded (suc n) (x ∷ xs) = drop-repadded n xs

replace_padding_other : (b : ℕ) → b ≢ padding_byte → replace_padding b ≡ b
unfolding replace_padding
replace_padding_other b h = rw (==-false b padding_byte h) refl

-- Frames of 8 bytes are changed byte by byte.
wrong_padding_frames :
    (frames : List Bytes)
    → All IsFrame frames
    → apply_wrong_padding frames ≡ ok (map repadded frames)
unfolding apply_wrong_padding
wrong_padding_frames [] h = refl
wrong_padding_frames (f ∷ fs) h =
    rw
      (
        ltb-false (length f) 8 (omega (arith, h.0)),
        wrong_padding_frames fs h.1,
        take_all 8 f (omega (arith, h.0)),
        drop_all 8 f (omega (arith, h.0)),
        append-nil,
      )
      refl

-- One Consecutive Frame adds its chunk, whatever stands behind it.
feed_chunk_any :
    (b : Bytes) (seq : ℕ) (rem pads : Bytes)
    → seq < 16
    → feed (waiting (length b + length rem) b seq) ((32 + seq) ∷ (take 7 rem ++ pads))
      ≡ finish_cf (waiting (length b + length rem) (b ++ take 7 rem) ((seq + 1) % 16))
unfolding handle_cf
feed_chunk_any b seq rem pads h =
    let low : bit_and (32 + seq) 0x0f ≡ seq = low_nibble 2 seq h in
    let left : length b + length rem - length b ≡ length rem = omega arith in
    rw (feed-cf _ seq _ h) (rw (low, ==-refl, left, take-take-append))

repadded_cf :
    (seq : ℕ) (rem : Bytes)
    → seq < 16
    → (pads : Bytes) × (repadded (pad (bit_or 0x20 (bit_and seq 0x0f) ∷ take 7 rem))
        ≡ (32 + seq) ∷ (take 7 (repadded rem) ++ pads))
unfolding pad
repadded_cf seq rem h = (
  repadded (replicate (can_dlc - suc (length (take 7 rem))) padding_byte),
  rw
      (
        cf_header seq h,
        repadded-append,
        take-repadded 7 rem,
        replace_padding_other (32 + seq) (omega arith),
      )
      refl,
)

receive-repadded :
    (fuel : ℕ) (b : Bytes) (seq : ℕ) (rem : Bytes)
    → length rem ≤ fuel
    → 0 < length rem
    → seq < 16
    → receive
        (waiting (length b + length (repadded rem)) b seq)
        (map repadded (consecutive_frames fuel seq rem))
      ≡ ok (reset, (b ++ repadded rem) ∷ [])
unfolding receive consecutive_frames
receive-repadded fuel b seq [] hf hp hs = absurd (omega arith)
receive-repadded zero b seq (x ∷ xs) hf hp hs = absurd (omega arith)
receive-repadded (suc fuel) b seq (x ∷ xs) hf hp hs =
    let (pads, frame_is) = repadded_cf seq (x ∷ xs) hs in
    let size : length (repadded (x ∷ xs)) ≡ length (x ∷ xs) = length-map replace_padding (x ∷ xs) in
    rw (frame_is, feed_chunk_any b seq (repadded (x ∷ xs)) pads hs)
      (elim (dec_le (length (x ∷ xs)) 7) [
        | yes last ↦
            rw
              (
                finish_last b (repadded (x ∷ xs)) ((seq + 1) % 16) (omega arith),
                drop_all 7 (x ∷ xs) last,
              )
              refl
        | no more ↦
            rw
              (
                finish_more b (repadded (x ∷ xs)) ((seq + 1) % 16) (omega arith),
                sym (drop-repadded 7 (x ∷ xs)),
              )
              (rw
                (
                  receive-repadded fuel (b ++ take 7 (repadded (x ∷ xs))) ((seq + 1) % 16)
                      (drop 7 (x ∷ xs)) (omega (arith, length-drop 7 (x ∷ xs)))
                      (omega (arith, length-drop 7 (x ∷ xs))) (omega arith),
                  append_assoc,
                  drop-repadded 7 (x ∷ xs),
                  take-append-drop 7 (repadded (x ∷ xs)),
                )
                refl)
      ])

repadded_first :
    (p : Bytes)
    → 8 ≤ length p
    → length p ≤ 4095
    → length p % 256 ≢ padding_byte
    → repadded (first_frame p) ≡ first_frame (repadded p)
unfolding pad
repadded_first p h1 h2 low =
    let size : length (repadded p) ≡ length p = length-map replace_padding p in
    let full : length (take 6 p) ≡ 6 = omega (arith, length-take 6 p) in
    let full' : length (take 6 (repadded p)) ≡ 6 = omega (arith, length-take 6 (repadded p)) in
    rw
      (
        size,
        full,
        full',
        ff_header (length p) h2,
        bit_and_0xff (length p),
        replace_padding_other (16 + length p / 256) (omega arith),
        replace_padding_other (length p % 256) low,
        append-nil,
        append-nil,
        take-repadded 6 p,
      )
      refl

-- A Single Frame gives its payload, whatever stands behind it.
feed_single_any :
    (a : Assembler) (q pads : Bytes)
    → 1 ≤ length q
    → length q ≤ 7
    → feed a (length q ∷ (q ++ pads)) ≡ ok (reset, some q, none)
unfolding handle_sf
feed_single_any a [] pads h1 h2 = absurd (omega arith)
feed_single_any a (x ∷ xs) pads h1 h2 =
    let low : bit_and (suc (length xs)) 0x0f ≡ suc (length xs) =
      omega (arith, bit_and_0x0f (suc (length xs))) in
    rw (feed-sf a (suc (length xs)) _ (omega arith)) (
      rw (low, suc-ne-zero, ltb-false 7 (suc (length xs)) h2)
        (rw (take-append_exact (length xs) xs _ refl)))

repadded_single :
    (a : Assembler) (p : Bytes)
    → 1 ≤ length p
    → length p ≤ 7
    → receive a (repadded (pad (length p ∷ p)) ∷ []) ≡ ok (reset, repadded p ∷ [])
unfolding receive pad
repadded_single a p h1 h2 =
    let size : length (repadded p) ≡ length p = length-map replace_padding p in
    rw
      (
        replace_padding_other (length p) (omega arith),
        repadded-append,
        sym size,
        feed_single_any a (repadded p)
            (repadded (replicate (can_dlc - suc (length (repadded p))) padding_byte)) (omega arith)
            (omega arith),
      )
      refl

repadded_many :
    (a : Assembler) (p : Bytes)
    → 8 ≤ length p
    → length p ≤ 4095
    → length p % 256 ≢ padding_byte
    → receive a (map repadded (first_frame p ∷ later_frames p)) ≡ ok (reset, repadded p ∷ [])
repadded_many a p h1 h2 low =
    let size : length (repadded p) ≡ length p = length-map replace_padding p in
    rw (repadded_first p h1 h2 low) (
      receive_quiet a _ (first_frame (repadded p)) (some flow_control)
        (map repadded (later_frames p)) (feed_first a (repadded p) (omega arith) (omega arith))
      ∙ rw
          (
            sym (drop-repadded 6 p),
            receive-repadded (length (drop 6 p)) (take 6 (repadded p)) 1 (drop 6 p) (omega arith)
                (omega (arith, length-drop 6 p)) (omega arith),
            drop-repadded 6 p,
            take-append-drop 6 (repadded p),
          )
          refl)

repadded_frames :
    (r : ℕ) (p : Bytes) (frames : List Bytes)
    → segment p ≡ ok frames
    → apply_fault FaultType.wrong_padding r frames ≡ map repadded frames
unfolding fault_handler
repadded_frames r p frames e =
    apply_fault-handler FaultType.wrong_padding r frames (map repadded frames)
      (wrong_padding_frames frames (segment_frames p frames e).0)

-- A response of 1 to 4095 bytes that WRONG_PADDING hits reaches the client complete, in well-formed
-- frames, with 0xAA in place of every byte 0xCC, unless the low byte of its length is 0xCC.
pub wrong_padding_received :
    (r : ℕ) (a : Assembler) (p : Bytes)
    → 1 ≤ length p
    → length p ≤ 4095
    → length p % 256 ≢ padding_byte
    → (frames : List Bytes) × (segment p ≡ ok frames)
      × (receive a (apply_fault FaultType.wrong_padding r frames)
          ≡ ok (reset, map replace_padding p ∷ []))
wrong_padding_received r a p h1 h2 low = elim (dec_le (length p) 7) [
  | yes small ↦ (
    pad (length p ∷ p) ∷ [],
    segment_small p small,
    rw (repadded_frames r p (pad (length p ∷ p) ∷ []) (segment_small p small))
        (repadded_single a p h1 small),
  )
  | no large ↦ (
    first_frame p ∷ later_frames p,
    segment_large p (omega arith) h2,
    rw (repadded_frames r p (first_frame p ∷ later_frames p) (segment_large p (omega arith) h2))
        (repadded_many a p (omega arith) h2 low),
  )
]
