-- ===== src/Faults/Detect.antt =====
-- What a client's assembler makes of the multi-frame faults of simulator/faults.py that drop,
-- repeat or renumber a frame: it gives no payload, or the right one.
-- The two parts of a response of several frames.
use e3on_canserver.Base.Bits.{bit_and_0x0f, bit_or-16}
use e3on_canserver.Base.{
  ok, ℕ, suc, ◌+◌, ◌-◌, ◌%◌, ◌≤◌, ◌<◌, bit_and, bit_or, ◌≡◌, refl, ap, ◌∙◌, ◌⊎◌, inl, inr, Bool,
  true, false, some, List, [], ◌∷◌, ◌++◌, arith, length, take, drop, take-append-drop,
}
use e3on_canserver.Isotp.{Bytes, multi_frames, Assembler, reset, flow_control}
use e3on_canserver.Isotp.RoundTrip.{receive, waiting, feed_first}
use e3on_canserver.Isotp.Sequence.{
  receive_quiet, Reached, reach, due, behind, split_first, receive-behind, receive_renumbered,
  receive_twice,
}
use e3on_canserver.Isotp.Segments.{first_frame, later_frames, multi_frames_lem, length-later_frames}
use e3on_canserver.Faults.{FaultType, fault_handler, apply_fault}
use e3on_canserver.Faults.Edits.{
  drop_next, chosen, drop_random_lem, drop_last_lem, wrong_seq_lem, duplicate_lem,
}

-- The assembler behind the First Frame and `k` Consecutive Frames.
behind_first :
    (p : Bytes) (k : ℕ)
    → k < length (later_frames p)
    → Reached
        (take 6 p ++ drop 6 p)
        (later_frames p)
        (waiting (length (take 6 p) + length (drop 6 p)) (take 6 p) 1)
        k
behind_first p k h =
    reach k (length (drop 6 p)) (take 6 p) 1 (drop 6 p) (omega arith) (omega arith) h

receive-edited :
    (a : Assembler) (p : Bytes) (k : ℕ) (tail : List Bytes) (h : k < length (later_frames p))
    → 8 ≤ length p
    → length p ≤ 4095
    → let at_k = behind_first p k h in
      receive a (first_frame p ∷ (take k (later_frames p) ++ tail))
      ≡ receive (waiting (length at_k.got + length at_k.rem) at_k.got at_k.seq) tail
receive-edited a p k tail h h1 h2 =
    receive_quiet a (waiting (length (take 6 p) + length (drop 6 p)) (take 6 p) 1) (first_frame p)
      (some flow_control) (take k (later_frames p) ++ tail) (feed_first a p h1 h2)
    ∙ (behind_first p k h).there tail

drop-later_frames :
    (p : Bytes) (k : ℕ) (h : k < length (later_frames p))
    → let at_k = behind_first p k h in
      drop k (later_frames p) ≡ due at_k.seq at_k.rem ∷ behind at_k.fuel at_k.seq at_k.rem
drop-later_frames p k h =
    let at_k = behind_first p k h in
    at_k.left ∙ split_first at_k.fuel at_k.seq at_k.rem at_k.seq_lt at_k.enough at_k.more

-- No payload at all.
abbrev pub IsSilent : Assembler → List Bytes → Type 0
IsSilent a fs = (a' : Assembler) × (receive a fs ≡ ok (a', []))

pub cut-IsSilent :
    (a : Assembler) (p : Bytes) (k : ℕ)
    → 8 ≤ length p
    → length p ≤ 4095
    → k < length (later_frames p)
    → IsSilent a (first_frame p ∷ (take k (later_frames p) ++ []))
unfolding receive
cut-IsSilent a p k h1 h2 h = (_, receive-edited a p k [] h h1 h2)

drop_one-IsSilent :
    (a : Assembler) (p : Bytes) (k : ℕ)
    → 8 ≤ length p
    → length p ≤ 4095
    → k < length (later_frames p)
    → IsSilent a (first_frame p ∷ (take k (later_frames p) ++ drop (suc k) (later_frames p)))
drop_one-IsSilent a p k h1 h2 h =
    let at_k = behind_first p k h in
    let (a', e) =
      receive-behind (length at_k.got + length at_k.rem) at_k.fuel at_k.seq at_k.got at_k.rem
        at_k.seq_lt at_k.enough in
    (
      a',
      rw (drop_next k (later_frames p) _ _ (drop-later_frames p k h))
          (receive-edited a p k _ h h1 h2 ∙ e),
    )

renumber-IsSilent :
    (a : Assembler) (p : Bytes) (k : ℕ) (h : k < length (later_frames p)) (d : Bytes)
    → 8 ≤ length p
    → length p ≤ 4095
    → let at_k = behind_first p k h in
      IsSilent a (
        first_frame p
        ∷ (take k (later_frames p)
            ++ ((bit_or 0x20 (bit_and (32 + at_k.seq + 1) 0x0f) ∷ d)
                ∷ behind at_k.fuel at_k.seq at_k.rem)))
renumber-IsSilent a p k h d h1 h2 =
    let at_k = behind_first p k h in
    let low : bit_and (32 + at_k.seq + 1) 0x0f ≡ (at_k.seq + 1) % 16 =
      omega (arith, bit_and_0x0f (32 + at_k.seq + 1)) in
    let n : bit_or 0x20 ((at_k.seq + 1) % 16) ≡ 32 + (at_k.seq + 1) % 16 =
      omega (arith, bit_or-16 2 ((at_k.seq + 1) % 16)) in
    (
      reset,
      rw (low, n)
          (receive-edited a p k _ h h1 h2
            ∙ receive_renumbered (length at_k.got + length at_k.rem) at_k.fuel at_k.seq
                ((at_k.seq + 1) % 16) at_k.got d at_k.rem (omega arith)
                (let lt : at_k.seq < 16 = at_k.seq_lt in omega arith)),
    )

-- The faults after which the Consecutive Frames no longer count up from 1 to the last one.
unfoldable pub breaks_sequence : FaultType → Bool
breaks_sequence FaultType.drop_random_cf = true
breaks_sequence FaultType.drop_last_cf = true
breaks_sequence FaultType.wrong_seq = true
breaks_sequence FaultType.truncated_mf = true
breaks_sequence _ = false

pub apply_fault-handler :
    (fault : FaultType) (r : ℕ) (frames fs : List Bytes)
    → fault_handler fault r frames ≡ ok fs
    → apply_fault fault r frames ≡ fs
unfolding apply_fault
apply_fault-handler fault r frames fs e = rw (e, apply_fault)

-- A fault that drops, cuts off or renumbers Consecutive Frames of a response of 8 to 4095 bytes
-- leaves a client without any payload, whatever the draw, and whatever its ISO-TP assembler was
-- doing: it never takes a wrong payload for the response.
pub broken_sequence :
    (fault : FaultType) (r : ℕ) (a : Assembler) (p : Bytes)
    → breaks_sequence fault ≡ true
    → 8 ≤ length p
    → length p ≤ 4095
    → (a' : Assembler) × (receive a (apply_fault fault r (multi_frames p)) ≡ ok (a', []))
unfolding breaks_sequence fault_handler
broken_sequence FaultType.drop_random_cf r a p b h1 h2 =
    let (k, c) = chosen r (first_frame p) (later_frames p) (length-later_frames p h1) in
    rw
      (
        multi_frames_lem p,
        apply_fault-handler FaultType.drop_random_cf r _ _
            (drop_random_lem r k (first_frame p) (later_frames p) c),
      )
      (drop_one-IsSilent a p k h1 h2 c.0)
broken_sequence FaultType.drop_last_cf r a p b h1 h2 =
    let n : 1 ≤ length (later_frames p) = length-later_frames p h1 in
    rw
      (
        multi_frames_lem p,
        apply_fault-handler FaultType.drop_last_cf r _ _
            (drop_last_lem (first_frame p) (later_frames p) n),
      )
      (cut-IsSilent a p (length (later_frames p) - 1) h1 h2 (omega (arith, n)))
broken_sequence FaultType.wrong_seq r a p b h1 h2 =
    let (k, c) = chosen r (first_frame p) (later_frames p) (length-later_frames p h1) in
    rw
      (
        multi_frames_lem p,
        apply_fault-handler FaultType.wrong_seq r _ _ (
            wrong_seq_lem r k _ (first_frame p) _ (later_frames p) _ c (drop-later_frames p k c.0)),
      )
      (renumber-IsSilent a p k c.0 _ h1 h2)
broken_sequence FaultType.truncated_mf r a p b h1 h2 =
    rw (multi_frames_lem p, apply_fault-handler FaultType.truncated_mf r _ _ refl)
      (cut-IsSilent a p 0 h1 h2 (omega (arith, length-later_frames p h1)))
broken_sequence FaultType.wrong_did r a p b h1 h2 = cc b
broken_sequence FaultType.wrong_service r a p b h1 h2 = cc b
broken_sequence FaultType.short_payload r a p b h1 h2 = cc b
broken_sequence FaultType.wrong_padding r a p b h1 h2 = cc b
broken_sequence FaultType.duplicate_cf r a p b h1 h2 = cc b
broken_sequence FaultType.wrong_len r a p b h1 h2 = cc b

-- A repeated Consecutive Frame leaves a client with the right payload, once, or with none.
pub repeated_frame :
    (r : ℕ) (a : Assembler) (p : Bytes)
    → 8 ≤ length p
    → length p ≤ 4095
    → (receive a (apply_fault FaultType.duplicate_cf r (multi_frames p)) ≡ ok (reset, p ∷ []))
      ⊎ (receive a (apply_fault FaultType.duplicate_cf r (multi_frames p)) ≡ ok (reset, []))
unfolding fault_handler
repeated_frame r a p h1 h2 =
    let (k, c) = chosen r (first_frame p) (later_frames p) (length-later_frames p h1) in
    let at_k = behind_first p k c.0 in
    let total : at_k.got ++ at_k.rem ≡ p = at_k.whole ∙ take-append-drop 6 p in
    let edited : apply_fault FaultType.duplicate_cf r (multi_frames p)
        ≡ first_frame p
          ∷ (take k (later_frames p)
              ++ (due at_k.seq at_k.rem
                  ∷ due at_k.seq at_k.rem
                  ∷ behind at_k.fuel at_k.seq at_k.rem)) =
      rw (multi_frames_lem p) (
        apply_fault-handler FaultType.duplicate_cf r _ _
          (duplicate_lem r k (first_frame p) _ (later_frames p) _ c (drop-later_frames p k c.0))) in
    let fed : receive a (apply_fault FaultType.duplicate_cf r (multi_frames p))
        ≡ receive (waiting (length at_k.got + length at_k.rem) at_k.got at_k.seq)
            (due at_k.seq at_k.rem ∷ due at_k.seq at_k.rem ∷ behind at_k.fuel at_k.seq at_k.rem) =
      ap (receive a) edited ∙ receive-edited a p k _ c.0 h1 h2 in
    elim (receive_twice at_k.fuel at_k.seq at_k.got at_k.rem at_k.seq_lt at_k.enough) [
      | inl once ↦ inl (fed ∙ (once ∙ ap (λ q. ok (reset, q ∷ [])) total))
      | inr never ↦ inr (fed ∙ never)
    ]
