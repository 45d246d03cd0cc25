-- ===== src/Faults/Overwriting.antt =====
-- The end of the last frame overwritten by padding, as SHORT_PAYLOAD of simulator/faults.py does, on
-- the frames of simulator/protocol/isotp.py: they are those of a payload overwritten in part.
use native.Mathlib.Decide.{dec_le}
use e3on_canserver.Base.{
  Result, ok, ℕ, zero, suc, ◌+◌, ◌-◌, ◌%◌, ◌≤◌, ◌<◌, bit_and, bit_or, ◌≡◌, refl, sym, ap, ◌∙◌, List,
  [], ◌∷◌, ◌++◌, append-nil, append_assoc, arith, length, take, drop, replicate, length-append,
  length-take, length-drop, length-replicate, take_all, drop_all, take-append_exact,
  take-append_more, take-append_within, drop-append_within, replicate_add, drop-take, take-take,
}
use e3on_canserver.Isotp.{Bytes, can_dlc, padding_byte, pad, consecutive_frames}
use e3on_canserver.Isotp.Frames.{IsFrame, pad-IsFrame}
use e3on_canserver.Isotp.Robust.{length-consecutive_frames}
use e3on_canserver.Faults.{set_at, early_pad, on_last}

-- The last `m` bytes of a payload overwritten.
abbrev pub overwritten : ℕ → Bytes → Bytes
overwritten m p = take (length p - m) p ++ replicate m padding_byte

pub early_pad_lem :
    (n : ℕ) (f : Bytes)
    → n < 3
    → IsFrame f
    → early_pad (suc n) 7 f ≡ ok (take (7 - n) f ++ replicate (suc n) padding_byte)
unfolding early_pad set_at
early_pad_lem zero (a ∷ b ∷ c ∷ d ∷ e ∷ f ∷ g ∷ h ∷ []) l is = refl
early_pad_lem (suc zero) (a ∷ b ∷ c ∷ d ∷ e ∷ f ∷ g ∷ h ∷ []) l is = refl
early_pad_lem (suc (suc zero)) (a ∷ b ∷ c ∷ d ∷ e ∷ f ∷ g ∷ h ∷ []) l is = refl
early_pad_lem (suc (suc (suc n))) _ l is = absurd (omega arith)
early_pad_lem n _ l is = absurd (omega arith)

-- A frame of `length b` bytes behind its header.
pub overwritten_frame :
    (n h : ℕ) (b : Bytes)
    → n < 3
    → length b ≤ 7
    → take (7 - n) (pad (h ∷ b)) ++ replicate (suc n) padding_byte
      ≡ pad (h ∷ overwritten (suc n - (7 - length b)) b)
unfolding pad
overwritten_frame n h b l l' =
    let head : 7 - n ≡ suc (6 - n) = omega arith in
    elim (dec_le (length b) (6 - n)) [
      | yes short ↦
          let k : ℕ = 6 - n - length b in
          let none_hit : suc n - (7 - length b) ≡ 0 = omega arith in
          let room : replicate (can_dlc - suc (length b)) padding_byte
              ≡ replicate k padding_byte ++ replicate (suc n) padding_byte =
            sym (replicate_add k (suc n) (can_dlc - suc (length b)) padding_byte (omega arith)) in
          let inside : take (6 - n)
                (b ++ (replicate k padding_byte ++ replicate (suc n) padding_byte))
              ≡ b ++ replicate k padding_byte =
            take-append_more (6 - n) k b _ (omega arith)
            ∙ ap (λ t. b ++ t)
                (take-append_exact k (replicate k padding_byte) _
                  (length-replicate k padding_byte)) in
          rw (head, none_hit, take_all (length b - 0) b (omega arith), append-nil, room)
            (ap (◌∷◌ h) (
              ap (λ t. t ++ replicate (suc n) padding_byte) inside
              ∙ append_assoc b (replicate k padding_byte) (replicate (suc n) padding_byte)))
      | no long ↦
          let m : ℕ = suc n - (7 - length b) in
          let kept : length b - m ≡ 6 - n = omega arith in
          let size : length (take (6 - n) b ++ replicate m padding_byte) ≡ length b = omega (
            arith,
            length-append (take (6 - n) b) (replicate m padding_byte),
            length-take (6 - n) b,
            length-replicate m padding_byte,
          ) in
          rw
            (
              head,
              kept,
              size,
              take-append_within (6 - n) b (replicate (can_dlc - suc (length b)) padding_byte)
                  (omega arith),
              append_assoc (take (6 - n) b),
            )
            (ap (λ t. h ∷ (take (6 - n) b ++ t))
              (sym (replicate_add m (can_dlc - suc (length b)) (suc n) padding_byte (omega arith))))
    ]

-- The bytes of padding in the last frame of the rest of a payload, and how many bytes of data the
-- fault overwrites there.
abbrev pub hit : ℕ → ℕ → ℕ
hit n size = suc n - (6 - (size + 6) % 7)

drop-overwritten :
    (n : ℕ) (b : Bytes)
    → n < 3
    → 7 < length b
    → drop 7 (overwritten (hit n (length b)) b) ≡ overwritten (hit n (length (drop 7 b))) (drop 7 b)
drop-overwritten n b l l' =
    let m : ℕ = hit n (length b) in
    let size : length (drop 7 b) ≡ length b - 7 = length-drop 7 b in
    let same : hit n (length b - 7) ≡ m = omega arith in
    let kept : 7 ≤ length (take (length b - m) b) = omega (arith, length-take (length b - m) b) in
    rw
      (
        drop-append_within 7 (take (length b - m) b) (replicate m padding_byte) kept,
        drop-take 7 (length b - 7 - m) (length b - m) b (omega arith),
        size,
        same,
      )
      refl

take-overwritten :
    (n : ℕ) (b : Bytes)
    → n < 3
    → 7 < length b
    → take 7 (overwritten (hit n (length b)) b) ≡ take 7 b
take-overwritten n b l l' =
    let m : ℕ = hit n (length b) in
    let kept : 7 ≤ length (take (length b - m) b) = omega (arith, length-take (length b - m) b) in
    take-append_within 7 (take (length b - m) b) (replicate m padding_byte) kept
    ∙ take-take 7 (length b - m) b (omega arith)

pub length-overwritten : (m : ℕ) (b : Bytes) → m ≤ length b → length (overwritten m b) ≡ length b
length-overwritten m b h = omega (
  arith,
  length-append (take (length b - m) b) (replicate m padding_byte),
  length-take (length b - m) b,
  length-replicate m padding_byte,
)

one_frame :
    (fuel seq : ℕ) (b : Bytes)
    → 1 ≤ length b
    → consecutive_frames (suc fuel) seq b
      ≡ pad (bit_or 0x20 (bit_and seq 0x0f) ∷ take 7 b)
        ∷ consecutive_frames fuel ((seq + 1) % 16) (drop 7 b)
unfolding consecutive_frames
one_frame fuel seq [] h = absurd (omega arith)
one_frame fuel seq (x ∷ xs) h = refl

pub on_last_later :
    (f : Bytes → Result Bytes) (x : Bytes) (ys zs : List Bytes)
    → 1 ≤ length ys
    → on_last f ys ≡ ok zs
    → on_last f (x ∷ ys) ≡ ok (x ∷ zs)
unfolding on_last
on_last_later f x [] zs h e = absurd (omega arith)
on_last_later f x (y ∷ ys) zs h e = rw e refl

-- On the Consecutive Frames of the rest of a payload.
pub short_last :
    (n fuel seq : ℕ) (b : Bytes)
    → n < 3
    → 1 ≤ length b
    → length b ≤ fuel
    → on_last (early_pad (suc n) 7) (consecutive_frames fuel seq b)
      ≡ ok (consecutive_frames fuel seq (overwritten (hit n (length b)) b))
unfolding consecutive_frames on_last
short_last n zero seq b l h h' = absurd (omega arith)
short_last n (suc fuel) seq b l h h' =
    let m : ℕ = hit n (length b) in
    let size : length (overwritten m b) ≡ length b = length-overwritten m b (omega arith) in
    let before = one_frame fuel seq b h in
    let after = one_frame fuel seq (overwritten m b) (omega (arith, size)) in
    elim (dec_le 8 (length b)) [
      | yes more ↦
          let rest : length (drop 7 b) ≡ length b - 7 = length-drop 7 b in
          let some_later : 1 ≤ length (consecutive_frames fuel ((seq + 1) % 16) (drop 7 b)) =
            omega (
              arith,
              rest,
              length-consecutive_frames fuel ((seq + 1) % 16) (drop 7 b) (omega arith),
            ) in
          rw
            (
              before,
              after,
              take-overwritten n b l (omega arith),
              drop-overwritten n b l (omega arith),
            )
            (on_last_later (early_pad (suc n) 7) _ _ _ some_later
              (short_last n fuel ((seq + 1) % 16) (drop 7 b) l (omega arith) (omega arith)))
      | no last ↦
          let same : hit n (length b) ≡ suc n - (7 - length b) = omega arith in
          let whole : take 7 (overwritten m b) ≡ overwritten m b =
            take_all 7 (overwritten m b) (omega (arith, size)) in
          let ended : drop 7 (overwritten m b) ≡ [] =
            drop_all 7 (overwritten m b) (omega (arith, size)) in
          let header : ℕ = bit_or 0x20 (bit_and seq 0x0f) in
          rw (before, after, whole, ended, take_all 7 b (omega arith), drop_all 7 b (omega arith))
            (rw
              (
                early_pad_lem n (pad (header ∷ b)) l (pad-IsFrame (header ∷ b) (omega arith)),
                overwritten_frame n header b l (omega arith),
                same,
              )
              refl)
    ]
