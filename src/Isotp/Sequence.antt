-- ===== src/Isotp/Sequence.antt =====
-- What an assembler of simulator/protocol/isotp.py does with Consecutive Frames out of sequence:
-- every edit of a response's frames keeps the first ones, and goes on differently from there.
use native.Mathlib.Decide.{dec_le}
use e3on_canserver.Base.{
  Result, ok, err, ◌>>=◌, Result-cases, ℕ, zero, suc, ◌+◌, ◌-◌, ◌%◌, ◌≤◌, ◌<◌, bit_and, ◌≡◌, refl,
  ◌∙◌, ◌≢◌, ◌⊎◌, inl, inr, false, Option, none, some, List, [], ◌∷◌, ◌++◌, append_assoc, arith,
  ==-false, length, take, drop, replicate, All, take-append-drop, length-drop, drop_all,
}
use e3on_canserver.Isotp.{
  Bytes, can_dlc, padding_byte, pad, consecutive_frames, Assembler, reset, finish_cf, handle_cf,
  feed,
}
use e3on_canserver.Isotp.Frames.{cf_header, low_nibble, feed-cf}
use e3on_canserver.Isotp.RoundTrip.{
  collected, receive, waiting, feed_chunk, finish_last, finish_more,
}
use e3on_canserver.Datastore.{size}

-- The header of a Consecutive Frame, whatever its sequence number.
abbrev pub IsCf : Bytes → Type 0
IsCf f = (n : ℕ) × (d : Bytes) × (n < 16) × (f ≡ (32 + n) ∷ d)

-- A frame that completes nothing changes only the state.
pub receive_quiet :
    (a a' : Assembler) (f : Bytes) (fc : Option Bytes) (fs : List Bytes)
    → feed a f ≡ ok (a', none, fc)
    → receive a (f ∷ fs) ≡ receive a' fs
unfolding receive
receive_quiet a a' f fc fs e =
    rw e (elim (Result-cases (receive a' fs)) [ inl ((a'', ps), r) ↦ rw r | inr (x, r) ↦ rw r ])

-- Frames received in two parts.
abbrev pub appended : List Bytes → Assembler × List Bytes → Result (Assembler × List Bytes)
appended ps r = ok (r.0, ps ++ r.1)

abbrev pub collect_first : Option Bytes → Assembler × List Bytes → Result (Assembler × List Bytes)
collect_first o r = ok (r.0, collected o r.1)

collected-append :
    (o : Option Bytes) (ps qs : List Bytes) → collected o (ps ++ qs) ≡ collected o ps ++ qs
collected-append none ps qs = refl
collected-append (some p) ps qs = refl

collect_parts :
    (o : Option Bytes) (m : Result (Assembler × List Bytes)) (gs : List Bytes)
    → (m >>= (λ r. receive r.0 gs >>= appended r.1) >>= collect_first o)
      ≡ (m >>= collect_first o >>= (λ r. receive r.0 gs >>= appended r.1))
collect_parts o (err x) gs = refl
collect_parts o (ok (b, ps)) gs = elim (Result-cases (receive b gs)) [
  | inl ((c, qs), e) ↦ rw (e, collected-append o ps qs) refl
  | inr (x, e) ↦ rw e refl
]

receive_parts :
    (a : Assembler) (fs gs : List Bytes)
    → receive a (fs ++ gs) ≡ (receive a fs >>= (λ r. receive r.0 gs >>= appended r.1))
unfolding receive
receive_parts a [] gs = elim (Result-cases (receive a gs)) [
  | inl (r, e) ↦ rw e refl
  | inr (x, e) ↦ rw e refl
]
receive_parts a (f ∷ fs) gs = elim (Result-cases (feed a f)) [
  | inl ((a', o, fc), e) ↦ rw (e, receive_parts a' fs gs) (collect_parts o (receive a' fs) gs)
  | inr (x, e) ↦ rw e refl
]

pub receive-append :
    (a b c : Assembler) (fs gs : List Bytes) (ps qs : List Bytes)
    → receive a fs ≡ ok (b, ps)
    → receive b gs ≡ ok (c, qs)
    → receive a (fs ++ gs) ≡ ok (c, ps ++ qs)
receive-append a b c fs gs ps qs e e' = receive_parts a fs gs ∙ rw (e, e') refl

-- Without a First Frame all Consecutive Frames are ignored.
pub receive_ignored :
    (a : Assembler) (fs : List Bytes) → a.active ≡ false → All IsCf fs → receive a fs ≡ ok (a, [])
unfolding receive
receive_ignored a [] h cfs = refl
receive_ignored a (f ∷ fs) h ((n, d, lt, e), rest) =
    receive_quiet a a f none fs (rw (e, feed-cf a n d lt) (unfold handle_cf in rw h))
    ∙ receive_ignored a fs h rest

-- A wrong sequence number resets the assembler, and the frames behind it are ignored.
pub receive_mismatch :
    (size s n : ℕ) (b d : Bytes) (fs : List Bytes)
    → n < 16
    → n ≢ s
    → All IsCf fs
    → receive (waiting size b s) (((32 + n) ∷ d) ∷ fs) ≡ ok (reset, [])
receive_mismatch size s n b d fs lt ne cfs =
    let low : bit_and (32 + n) 0x0f ≡ n = low_nibble 2 n lt in
    receive_quiet (waiting size b s) reset ((32 + n) ∷ d) none fs
      (rw (feed-cf (waiting size b s) n d lt) (unfold handle_cf in rw (low, ==-false n s ne)))
    ∙ receive_ignored reset fs refl cfs

pub consecutive_frames-AreCfs :
    (fuel seq : ℕ) (rem : Bytes) → seq < 16 → All IsCf (consecutive_frames fuel seq rem)
unfolding consecutive_frames pad
consecutive_frames-AreCfs fuel seq [] h = tt
consecutive_frames-AreCfs zero seq (x ∷ xs) h = tt
consecutive_frames-AreCfs (suc fuel) seq (x ∷ xs) h = (
  rw (cf_header seq h) (seq, _, h, refl),
  consecutive_frames-AreCfs fuel ((seq + 1) % 16) (drop 7 (x ∷ xs)) (omega arith),
)

-- The assembler behind the first `k` of the frames: it misses `rem` of the payload, and the other
-- frames are those of `rem`.
pub record Reached (payload : Bytes) (cfs : List Bytes) (a : Assembler) (k : ℕ) : Type 0 where
  pub fuel : ℕ
  pub seq : ℕ
  pub got : Bytes
  pub rem : Bytes
  pub seq_lt : seq < 16
  pub enough : length rem ≤ fuel
  pub more : 0 < length rem
  pub whole : got ++ rem ≡ payload
  pub left : drop k cfs ≡ consecutive_frames fuel seq rem
  pub there :
      (tail : List Bytes)
      → receive a (take k cfs ++ tail) ≡ receive (waiting (length got + length rem) got seq) tail

pub reach :
    (k fuel : ℕ) (b : Bytes) (seq : ℕ) (rem : Bytes)
    → length rem ≤ fuel
    → seq < 16
    → k < length (consecutive_frames fuel seq rem)
    → Reached (b ++ rem) (consecutive_frames fuel seq rem) (waiting (length b + length rem) b seq) k
unfolding consecutive_frames
reach k fuel b seq [] hf hs hk = absurd (omega arith)
reach k zero b seq (x ∷ xs) hf hs hk = absurd (omega arith)
reach zero (suc fuel) b seq (x ∷ xs) hf hs hk = record {
  fuel = suc fuel;
  seq = seq;
  got = b;
  rem = x ∷ xs;
  seq_lt = hs;
  enough = hf;
  more = omega arith;
  whole = refl;
  left = refl;
  there = λ tail. refl;
}
reach (suc k) (suc fuel) b seq (x ∷ xs) hf hs hk = elim (dec_le (length (x ∷ xs)) 7) [
  | yes last ↦
      let none_left : k < length (consecutive_frames fuel ((seq + 1) % 16) (drop 7 (x ∷ xs))) =
        omega arith in
      absurd (omega (arith, rw (drop_all 7 (x ∷ xs) last) at none_left))
  | no large ↦
      let next : Reached ((b ++ take 7 (x ∷ xs)) ++ drop 7 (x ∷ xs))
          (consecutive_frames fuel ((seq + 1) % 16) (drop 7 (x ∷ xs)))
          (waiting (length (b ++ take 7 (x ∷ xs)) + length (drop 7 (x ∷ xs))) (b ++ take 7 (x ∷ xs))
            ((seq + 1) % 16))
          k =
        reach k fuel (b ++ take 7 (x ∷ xs)) ((seq + 1) % 16) (drop 7 (x ∷ xs))
          (omega (arith, length-drop 7 (x ∷ xs))) (omega arith) (omega arith) in
      record {
        fuel = next.fuel;
        seq = next.seq;
        got = next.got;
        rem = next.rem;
        seq_lt = next.seq_lt;
        enough = next.enough;
        more = next.more;
        whole = next.whole ∙ rw (append_assoc, take-append-drop);
        left = next.left;
        there = λ tail.
            receive_quiet _ _ _ none _ (
              rw (cf_header seq hs, feed_chunk b seq (x ∷ xs) hs)
                (finish_more b (x ∷ xs) ((seq + 1) % 16) (omega arith)))
            ∙ next.there tail;
      }
]

-- The frame that is due, and those behind it.
abbrev pub due : ℕ → Bytes → Bytes
due seq rem =
    (32 + seq) ∷ (take 7 rem ++ replicate (can_dlc - length ((32 + seq) ∷ take 7 rem)) padding_byte)

abbrev pub behind : ℕ → ℕ → Bytes → List Bytes
behind fuel seq rem = consecutive_frames (fuel - 1) ((seq + 1) % 16) (drop 7 rem)

pub split_first :
    (fuel seq : ℕ) (rem : Bytes)
    → seq < 16
    → length rem ≤ fuel
    → 0 < length rem
    → consecutive_frames fuel seq rem ≡ due seq rem ∷ behind fuel seq rem
unfolding consecutive_frames pad
split_first fuel seq [] hs hf hp = absurd (omega arith)
split_first zero seq (x ∷ xs) hs hf hp = absurd (omega arith)
split_first (suc fuel) seq (x ∷ xs) hs hf hp =
    let before : suc fuel - 1 ≡ fuel = omega arith in rw (cf_header seq hs, before)

behind-AreCfs : (fuel seq : ℕ) (rem : Bytes) → All IsCf (behind fuel seq rem)
behind-AreCfs fuel seq rem =
    consecutive_frames-AreCfs (fuel - 1) ((seq + 1) % 16) (drop 7 rem) (omega arith)

-- The frame that is due is left out.
pub receive-behind :
    (size fuel seq : ℕ) (got rem : Bytes)
    → seq < 16
    → length rem ≤ fuel
    → (a : Assembler) × (receive (waiting size got seq) (behind fuel seq rem) ≡ ok (a, []))
unfolding receive
receive-behind size fuel seq got rem hs hf = elim (dec_le (length rem) 7) [
  | yes last ↦ (waiting size got seq, rw (drop_all 7 rem last) (unfold consecutive_frames in refl))
  | no more ↦ (
    reset,
    rw
        (split_first (fuel - 1) ((seq + 1) % 16) (drop 7 rem) (omega arith)
          (omega (arith, length-drop 7 rem)) (omega (arith, length-drop 7 rem)))
        (receive_mismatch size seq ((seq + 1) % 16) got _ _ (omega arith) (omega arith)
          (behind-AreCfs (fuel - 1) ((seq + 1) % 16) (drop 7 rem))),
  )
]

-- The frame that is due comes with another number.
pub receive_renumbered :
    (size fuel seq n : ℕ) (got d rem : Bytes)
    → n < 16
    → n ≢ seq
    → receive (waiting size got seq) (((32 + n) ∷ d) ∷ behind fuel seq rem) ≡ ok (reset, [])
receive_renumbered size fuel seq n got d rem lt ne =
    receive_mismatch size seq n got d (behind fuel seq rem) lt ne (behind-AreCfs fuel seq rem)

pub feed-due :
    (seq : ℕ) (got rem : Bytes)
    → seq < 16
    → feed (waiting (length got + length rem) got seq) (due seq rem)
      ≡ finish_cf (waiting (length got + length rem) (got ++ take 7 rem) ((seq + 1) % 16))
unfolding pad
feed-due seq got rem hs = feed_chunk got seq rem hs

-- The frame that is due comes twice: the last one completes the payload once, and any other stops
-- the reassembly.
pub receive_twice :
    (fuel seq : ℕ) (got rem : Bytes)
    → seq < 16
    → length rem ≤ fuel
    → (receive
          (waiting (length got + length rem) got seq)
          (due seq rem ∷ due seq rem ∷ behind fuel seq rem)
        ≡ ok (reset, (got ++ rem) ∷ []))
      ⊎ (receive
            (waiting (length got + length rem) got seq)
            (due seq rem ∷ due seq rem ∷ behind fuel seq rem)
          ≡ ok (reset, []))
receive_twice fuel seq got rem hs hf = elim (dec_le (length rem) 7) [
  | yes last ↦ inl (
      unfold receive in
      rw (feed-due seq got rem hs, finish_last got rem ((seq + 1) % 16) last)
        (rw (
          receive_ignored reset (due seq rem ∷ behind fuel seq rem) refl
            ((seq, _, hs, refl), behind-AreCfs fuel seq rem))))
  | no more ↦ inr (
      receive_quiet _ _ (due seq rem) none _
        (feed-due seq got rem hs ∙ finish_more got rem ((seq + 1) % 16) (omega arith))
      ∙ receive_mismatch _ ((seq + 1) % 16) seq (got ++ take 7 rem) _ (behind fuel seq rem) hs
          (omega arith) (behind-AreCfs fuel seq rem))
]
