-- ===== src/Faults/Length.antt =====
-- WRONG_LEN of simulator/faults.py, which announces one byte more than a response has: what a
-- client's ISO-TP assembler puts together from the frames.

use native.Mathlib.Decide.{dec_le, ℕ_discrete}
use e3on_canserver.Base.{
  ok, ℕ, zero, suc, ◌+◌, ◌-◌, ◌*◌, ◌/◌, ◌%◌, ◌≤◌, ◌<◌, min, bit_and, bit_or, ◌≡◌, refl, sym, ap,
  ◌∙◌, subst, ◌≢◌, ◌⊎◌, inl, inr, List, [], ◌∷◌, ◌++◌, append-nil, append_assoc, arith, lt→ltb,
  ltb-false, length, take, drop, length-append, length-take, length-drop, take_all, drop_all,
  take-append_exact, take-append_within, drop-append_within,
}
use e3on_canserver.Base.Bits.{bit_and_0xff, bit_and_0xf0, bit_or-256}
use e3on_canserver.Isotp.{
  Bytes, can_dlc, padding_byte, pad, consecutive_frames, multi_frames, Assembler, reset, byte_at,
}
use e3on_canserver.Isotp.Frames.{ff_header, low_nibble}
use e3on_canserver.Isotp.RoundTrip.{receive, receive-multi}
use e3on_canserver.Isotp.Segments.{first_frame, later_frames, multi_frames_lem, length-later_frames}
use e3on_canserver.Faults.{FaultType, frame_at, set_at, apply_wrong_len, fault_handler, apply_fault}
use e3on_canserver.Faults.Detect.{IsSilent, cut-IsSilent, apply_fault-handler}

-- A payload and one byte of padding.
abbrev pub padded : Bytes → Bytes
padded p = p ++ (padding_byte ∷ [])

-- A last chunk with room for the byte is padded to the same frame.
pad-padded : (h : ℕ) (b : Bytes) → length b < 7 → pad (h ∷ padded b) ≡ pad (h ∷ b)
unfolding pad
pad-padded h b l =
    let size : length (padded b) ≡ suc (length b) =
      omega (arith, length-append b (padding_byte ∷ [])) in
    let room : can_dlc - suc (length b) ≡ suc (can_dlc - suc (suc (length b))) = omega arith in
    rw (size, room, append_assoc) refl

same_frames :
    (fuel fuel' seq : ℕ) (b : Bytes)
    → length b ≤ fuel
    → length b < fuel'
    → length b % 7 ≢ 0
    → consecutive_frames fuel' seq (padded b) ≡ consecutive_frames fuel seq b
unfolding consecutive_frames
same_frames fuel fuel' seq [] h h' ne = absurd (ne refl)
same_frames zero fuel' seq (x ∷ xs) h h' ne = absurd (omega arith)
same_frames (suc fuel) zero seq (x ∷ xs) h h' ne = absurd (omega arith)
same_frames (suc fuel) (suc fuel') seq (x ∷ xs) h h' ne = elim (dec_le 7 (length (x ∷ xs))) [
  | yes full ↦
      rw
        (
          take-append_within 7 (x ∷ xs) (padding_byte ∷ []) full,
          drop-append_within 7 (x ∷ xs) (padding_byte ∷ []) full,
        )
        (rw
          (same_frames fuel fuel' ((seq + 1) % 16) (drop 7 (x ∷ xs))
            (omega (arith, length-drop 7 (x ∷ xs))) (omega (arith, length-drop 7 (x ∷ xs)))
            (λ q. ne (omega (arith, length-drop 7 (x ∷ xs)))))
          refl)
  | no short ↦
      let size : length (padded xs) ≡ suc (length xs) =
        omega (arith, length-append xs (padding_byte ∷ [])) in
      rw
        (
          take_all 6 (padded xs) (omega arith),
          drop_all 6 (padded xs) (omega arith),
          take_all 6 xs (omega arith),
          drop_all 6 xs (omega arith),
        )
        (ap (λ g. g ∷ []) (pad-padded (bit_or 32 (bit_and seq 15)) (x ∷ xs) (omega arith)))
]

one_more_frame :
    (fuel fuel' seq : ℕ) (b : Bytes)
    → length b ≤ fuel
    → length b < fuel'
    → length b % 7 ≡ 0
    → (f : Bytes) × (consecutive_frames fuel' seq (padded b)
        ≡ consecutive_frames fuel seq b ++ (f ∷ []))
unfolding consecutive_frames
one_more_frame fuel zero seq [] h h' e = absurd (omega arith)
one_more_frame fuel (suc fuel') seq [] h h' e = (_, refl)
one_more_frame zero fuel' seq (x ∷ xs) h h' e = absurd (omega arith)
one_more_frame (suc fuel) zero seq (x ∷ xs) h h' e = absurd (omega arith)
one_more_frame (suc fuel) (suc fuel') seq (x ∷ xs) h h' e =
    let full : 7 ≤ length (x ∷ xs) = omega arith in
    let (f, same) =
      one_more_frame fuel fuel' ((seq + 1) % 16) (drop 7 (x ∷ xs))
        (omega (arith, length-drop 7 (x ∷ xs))) (omega (arith, length-drop 7 (x ∷ xs)))
        (omega (arith, length-drop 7 (x ∷ xs))) in
    (
      f,
      rw
          (
            take-append_within 7 (x ∷ xs) (padding_byte ∷ []) full,
            drop-append_within 7 (x ∷ xs) (padding_byte ∷ []) full,
          )
          (rw same refl),
    )

wrong_len_first :
    (p : Bytes) (f : Bytes) (rest : List Bytes)
    → 8 ≤ length p
    → length p ≤ 4094
    → apply_wrong_len (first_frame p ∷ f ∷ rest) ≡ ok (first_frame (padded p) ∷ f ∷ rest)
unfolding apply_wrong_len frame_at byte_at set_at pad
wrong_len_first p f rest h1 h2 =
    let size : length (padded p) ≡ suc (length p) =
      omega (arith, length-append p (padding_byte ∷ [])) in
    let full : length (take 6 p) ≡ 6 = omega (arith, length-take 6 p) in
    let high : bit_and (16 + length p / 256) 0x0f ≡ length p / 256 =
      low_nibble 1 (length p / 256) (omega arith) in
    let top : bit_and (16 + length p / 256) 0xf0 ≡ 16 =
      omega (arith, bit_and_0xf0 (16 + length p / 256) (omega arith)) in
    let whole : bit_or (length p / 256 * 256) (length p % 256) ≡ length p =
      omega (arith, bit_or-256 (length p / 256) (length p % 256)) in
    let least : min (length p + 1) 0xfff ≡ suc (length p) = omega arith in
    let announced : bit_or 16 (bit_and (suc (length p) / 256) 0x0f) ≡ 16 + suc (length p) / 256 =
      ff_header (suc (length p)) (omega arith) in
    rw
      (
        size,
        take-append_within 6 p (padding_byte ∷ []) (omega arith),
        ff_header (length p) (omega arith),
        bit_and_0xff (length p),
      )
      (rw (full, high, whole, top, least)
        (rw
          (
            append-nil,
            ltb-false (suc (suc (length rest))) 2 (omega arith),
            lt→ltb 0 (suc (suc (length (take 6 p)))) (omega arith),
            lt→ltb 1 (suc (suc (length (take 6 p)))) (omega arith),
          )
          refl))

announced :
    (p : Bytes) (later : List Bytes)
    → 8 ≤ length p
    → length p ≤ 4094
    → 1 ≤ length later
    → apply_wrong_len (first_frame p ∷ later) ≡ ok (first_frame (padded p) ∷ later)
announced p [] h1 h2 h = absurd (omega arith)
announced p (f ∷ rest) h1 h2 h = wrong_len_first p f rest h1 h2

-- The frames that a client gets.
wrong_len_frames :
    (r : ℕ) (p : Bytes)
    → 8 ≤ length p
    → length p ≤ 4094
    → apply_fault FaultType.wrong_len r (multi_frames p) ≡ first_frame (padded p) ∷ later_frames p
unfolding fault_handler
wrong_len_frames r p h1 h2 = rw (multi_frames_lem p) (
    apply_fault-handler FaultType.wrong_len r _ _
      (announced p (later_frames p) h1 h2 (length-later_frames p h1)))

drop-padded : (p : Bytes) → 8 ≤ length p → drop 6 (padded p) ≡ padded (drop 6 p)
drop-padded p h = drop-append_within 6 p (padding_byte ∷ []) (omega arith)

later_frames-same :
    (p : Bytes) → 8 ≤ length p → length p % 7 ≢ 6 → later_frames (padded p) ≡ later_frames p
later_frames-same p h ne = rw (drop-padded p h) (
    same_frames (length (drop 6 p)) (length (padded (drop 6 p))) 1 (drop 6 p) (omega arith)
      (omega (arith, length-append (drop 6 p) (padding_byte ∷ [])))
      (λ q. ne (omega (arith, length-drop 6 p))))

later_frames-more :
    (p : Bytes)
    → 8 ≤ length p
    → length p % 7 ≡ 6
    → (f : Bytes) × (later_frames (padded p) ≡ later_frames p ++ (f ∷ []))
later_frames-more p h e = rw (drop-padded p h) (
    one_more_frame (length (drop 6 p)) (length (padded (drop 6 p))) 1 (drop 6 p) (omega arith)
      (omega (arith, length-append (drop 6 p) (padding_byte ∷ [])))
      (omega (arith, length-drop 6 p)))

-- The length announced for a response of 8 to 4094 bytes that is hit by WRONG_LEN is one too large.
-- A client whose ISO-TP assembler gets the frames takes the response with a byte 0xCC behind it,
-- if the last frame has room for that byte, and otherwise waits for a frame that never comes and
-- takes nothing; whatever the draw, it never takes the response as it is.
pub wrong_len_received :
    (r : ℕ) (a : Assembler) (p : Bytes)
    → 8 ≤ length p
    → length p ≤ 4094
    → ((length p % 7 ≢ 6)
        × (receive a (apply_fault FaultType.wrong_len r (multi_frames p))
            ≡ ok (reset, padded p ∷ [])))
      ⊎ ((length p % 7 ≡ 6)
          × (a' : Assembler) × (receive a (apply_fault FaultType.wrong_len r (multi_frames p))
              ≡ ok (a', [])))
wrong_len_received r a p h1 h2 =
    let size : length (padded p) ≡ length p + 1 = length-append p (padding_byte ∷ []) in
    elim (ℕ_discrete (length p % 7) 6) [
      | no room ↦ inl (
        room,
        rw
            (
              wrong_len_frames r p h1 h2,
              sym (later_frames-same p h1 room),
              sym (multi_frames_lem (padded p)),
            )
            (receive-multi a (padded p) (omega arith) (omega arith)),
      )
      | yes no_room ↦
          let (f, more) = later_frames-more p h1 no_room in
          let fewer : length (later_frames p) < length (later_frames (padded p)) =
            omega (arith, ap length more, length-append (later_frames p) (f ∷ [])) in
          let cut : IsSilent a (
              first_frame (padded p)
              ∷ (take (length (later_frames p)) (later_frames (padded p)) ++ [])) =
            cut-IsSilent a (padded p) (length (later_frames p)) (omega arith) (omega arith) fewer in
          let kept : take (length (later_frames p)) (later_frames (padded p)) ++ []
              ≡ later_frames p =
            append-nil (take (length (later_frames p)) (later_frames (padded p)))
            ∙ (ap (take (length (later_frames p))) more
                ∙ take-append_exact (length (later_frames p)) (later_frames p) (f ∷ []) refl) in
          let silent : IsSilent a (apply_fault FaultType.wrong_len r (multi_frames p)) =
            rw (wrong_len_frames r p h1 h2)
              (subst (λ l. IsSilent a (first_frame (padded p) ∷ l)) kept cut) in
          inr (no_room, silent.0, silent.1)
    ]
