-- ===== src/Isotp/Robust.antt =====
-- simulator/protocol/isotp.py: which frames `segment` makes, which states the assembler reaches,
-- and when either raises.
use e3on_canserver.Base.Bits.{bit_and_0x0f, bit_or-256}
use e3on_canserver.Base.{
  Exc, value_error, index_error, ok, err, Ensures, Ensures-ok, Ensures-if, ℕ, zero, suc, ◌+◌, ◌-◌,
  ◌/◌, ◌%◌, ◌^◌, ◌≤◌, ◌<◌, bit_and, ◌≡◌, refl, ◌≢◌, ◌↔◌, true, ◌||◌, not, Option, none, some, List,
  [], ◌∷◌, arith, ltb, leb, ◌==◌, if◌then◌else◌, length, get_or, drop, All, length-take,
  length-drop,
}
use e3on_canserver.Isotp.Frames.{IsFrame, pad-IsFrame}
use e3on_canserver.Isotp.{
  Bytes, consecutive_frames, multi_frames, segment, Assembler, reset, Fed, nothing, handle_sf,
  announce, handle_ff, finish_cf, handle_cf, dispatch_frame, feed,
}

abbrev pub IsByte : ℕ → Type 0
IsByte b = b < 256

-- `segment` raises ValueError exactly for payloads of more than 4095 bytes.
pub segment-err : (p : Bytes) → (segment p ≡ err value_error) ↔ (0xfff < length p)
unfolding segment
segment-err p = ground arith

consecutive_frames-IsFrame :
    (fuel seq : ℕ) (rem : Bytes) → All IsFrame (consecutive_frames fuel seq rem)
unfolding consecutive_frames
consecutive_frames-IsFrame fuel seq [] = tt
consecutive_frames-IsFrame zero seq (x ∷ xs) = tt
consecutive_frames-IsFrame (suc fuel) seq (x ∷ xs) =
    (pad-IsFrame _ (omega (arith, length-take 7 (x ∷ xs))), consecutive_frames-IsFrame fuel _ _)

-- How many Consecutive Frames carry `n` bytes, seven to a frame.
abbrev pub cf_count : ℕ → ℕ
cf_count n = (n + 6) / 7

pub length-consecutive_frames :
    (fuel seq : ℕ) (rem : Bytes)
    → length rem ≤ fuel
    → length (consecutive_frames fuel seq rem) ≡ cf_count (length rem)
unfolding consecutive_frames
length-consecutive_frames fuel seq [] h = refl
length-consecutive_frames zero seq (x ∷ xs) h = absurd (omega arith)
length-consecutive_frames (suc fuel) seq (x ∷ xs) h = omega (
  arith,
  length-drop 6 xs,
  length-consecutive_frames fuel ((seq + 1) % 16) (drop 6 xs) (omega (arith, length-drop 6 xs)),
)

abbrev pub frame_count : ℕ → ℕ
frame_count n = if leb n 7 then 1 else 1 + cf_count (n - 6)

abbrev pub IsCounted : Bytes → List Bytes → Type 0
IsCounted p frames = All IsFrame frames × (length frames ≡ frame_count (length p))

segment-IsCounted : (p : Bytes) → Ensures (IsCounted p) (segment p)
unfolding segment multi_frames
segment-IsCounted p =
    Ensures-if (IsCounted p) (leb (length p) 7) _ _
      (λ small. ((pad-IsFrame (length p ∷ p) (ground arith), tt), ground arith))
      (λ large.
        Ensures-if (IsCounted p) (ltb 0xfff (length p)) _ _ (λ _. tt)
          (λ _. (
            (
              pad-IsFrame _ (omega (arith, length-take 6 p)),
              consecutive_frames-IsFrame (length (drop 6 p)) 1 (drop 6 p),
            ),
            rw large (
                omega (
                  arith,
                  length-drop 6 p,
                  length-consecutive_frames (length (drop 6 p)) 1 (drop 6 p) (omega arith),
                )),
          )))

-- Every frame of a payload is exactly 8 bytes, and their number is 1 up to 7 bytes and
-- else 1 plus one for each 7 bytes begun behind the first 6.
pub segment_frames :
    (p : Bytes) (frames : List Bytes)
    → segment p ≡ ok frames
    → All IsFrame frames × (length frames ≡ frame_count (length p))
segment_frames p frames = Ensures-ok (IsCounted p) (segment-IsCounted p)

pub record IsWellFormed (a : Assembler) : Type 0 where
  pub seq_lt : a.next_seq < 16
  pub size_le : a.expected_length ≤ 4095
  pub room : a.active ≡ true → length a.buffer < a.expected_length

abbrev pub IsShort : Option Bytes → Type 0
IsShort none = Unit
IsShort (some p) = length p ≤ 4095

-- The state is well formed, and a payload that is complete has at most 4095 bytes.
abbrev pub IsSound : Fed → Type 0
IsSound r = IsWellFormed r.0 × IsShort r.1

pub reset-IsWellFormed : IsWellFormed reset
reset-IsWellFormed = record { seq_lt = omega arith; size_le = omega arith; room = λ e. cc }

nothing-IsSound : (a : Assembler) → IsWellFormed a → Ensures IsSound (nothing a)
nothing-IsSound a w = (w, tt)

finish_cf-IsSound :
    (a : Assembler) → a.next_seq < 16 → a.expected_length ≤ 4095 → Ensures IsSound (finish_cf a)
unfolding finish_cf
finish_cf-IsSound a h1 h2 =
    Ensures-if IsSound (leb a.expected_length (length a.buffer)) _ _
      (λ _. (reset-IsWellFormed, omega (arith, length-take a.expected_length a.buffer)))
      (λ more. (record { seq_lt = h1; size_le = h2; room = λ _. ground arith }, tt))

handle_cf-IsSound :
    (a : Assembler) (d : Bytes) (b0 : ℕ) → IsWellFormed a → Ensures IsSound (handle_cf a d b0)
unfolding handle_cf
handle_cf-IsSound a d b0 w =
    Ensures-if IsSound (not a.active) _ _ (λ _. (w, tt))
      (λ _.
        Ensures-if IsSound (not (bit_and b0 0x0f == a.next_seq)) _ _ (λ _. (reset-IsWellFormed, tt))
          (λ _. finish_cf-IsSound _ (omega arith) w.size_le))

handle_sf-IsSound :
    (a : Assembler) (d : Bytes) (b0 : ℕ) → IsWellFormed a → Ensures IsSound (handle_sf a d b0)
unfolding handle_sf
handle_sf-IsSound a d b0 w =
    Ensures-if IsSound ((bit_and b0 0x0f == 0) || ltb 7 (bit_and b0 0x0f)) _ _ (λ _. (w, tt))
      (λ _. (
        reset-IsWellFormed,
        omega (arith, length-take (bit_and b0 0x0f) (drop 1 d), bit_and_0x0f b0),
      ))

announce-IsSound :
    (a : Assembler) (d : Bytes) (size : ℕ)
    → size ≤ 4095
    → IsWellFormed a
    → Ensures IsSound (announce a d size)
unfolding announce
announce-IsSound a d size h w =
    Ensures-if IsSound (ltb size 8) _ _ (λ _. (w, tt))
      (λ large. (
        record {
          seq_lt = omega arith;
          size_le = h;
          room = λ _. ground (arith, length-take 6 (drop 2 d));
        },
        tt,
      ))

handle_ff-IsSound :
    (a : Assembler) (d : Bytes) (b0 : ℕ)
    → All IsByte d
    → IsWellFormed a
    → Ensures IsSound (handle_ff a d b0)
unfolding handle_ff
handle_ff-IsSound a [] b0 bs w = tt
handle_ff-IsSound a (x ∷ []) b0 bs w = tt
handle_ff-IsSound a (x ∷ y ∷ ys) b0 bs w =
    announce-IsSound a (x ∷ y ∷ ys) _
      (omega (arith, bit_or-256 (bit_and b0 0x0f) y, bit_and_0x0f b0, bs.1.0)) w

dispatch_frame-IsSound :
    (a : Assembler) (d : Bytes) (b0 t : ℕ)
    → All IsByte d
    → IsWellFormed a
    → Ensures IsSound (dispatch_frame a d b0 t)
unfolding dispatch_frame
dispatch_frame-IsSound a d b0 t bs w =
    Ensures-if IsSound (t == 0) _ _ (λ _. handle_sf-IsSound a d b0 w)
      (λ _.
        Ensures-if IsSound (t == 1) _ _ (λ _. handle_ff-IsSound a d b0 bs w)
          (λ _. Ensures-if IsSound (t == 2) _ _ (λ _. handle_cf-IsSound a d b0 w) (λ _. (w, tt))))

feed-IsSound_if :
    (a : Assembler) (d : Bytes) → All IsByte d → IsWellFormed a → Ensures IsSound (feed a d)
unfolding feed
feed-IsSound_if a [] bs w = (w, tt)
feed-IsSound_if a (b0 ∷ rest) bs w =
    dispatch_frame-IsSound a (b0 ∷ rest) b0 (bit_and (b0 / 2 ^ 4) 0x0f) bs w

-- A well-formed assembler that takes a frame of bytes, of any length and content, stays well
-- formed: its sequence number is a nibble, and an active one still misses bytes of its announced
-- length; and a payload that it gives has at most 4095 bytes.
pub feed-IsSound :
    (a : Assembler) (d : Bytes) (r : Fed)
    → All IsByte d
    → IsWellFormed a
    → feed a d ≡ ok r
    → IsWellFormed r.0 × IsShort r.1
feed-IsSound a d r bs w e = Ensures-ok IsSound (feed-IsSound_if a d bs w) e

-- The high nibble of the first byte, 0 for no bytes.
abbrev pub type_of : Bytes → ℕ
type_of d = bit_and (get_or d 0 0 / 2 ^ 4) 0x0f

dispatch_frame_raises :
    (a : Assembler) (b0 b1 : ℕ) (rest : Bytes) (t : ℕ) (e : Exc)
    → dispatch_frame a (b0 ∷ b1 ∷ rest) b0 t ≢ err e
unfolding dispatch_frame
dispatch_frame_raises a b0 b1 rest t e h = ground arith

dispatch_one :
    (a : Assembler) (b t : ℕ) (e : Exc)
    → (dispatch_frame a (b ∷ []) b t ≡ err e) ↔ ((t ≡ 1) × (e ≡ index_error))
unfolding dispatch_frame
dispatch_one a b t e = ground arith

-- `feed` raises exactly for a frame of one single byte that announces a First Frame, and what it
-- raises is an IndexError.
pub feed-err :
    (a : Assembler) (d : Bytes) (e : Exc)
    → (feed a d ≡ err e) ↔ ((length d ≡ 1) × (type_of d ≡ 1) × (e ≡ index_error))
unfolding feed
feed-err a [] e = ((λ h. cc), λ h. absurd (omega arith))
feed-err a (b ∷ []) e =
    let one : (dispatch_frame a (b ∷ []) b (type_of (b ∷ [])) ≡ err e)
        ↔ ((type_of (b ∷ []) ≡ 1) × (e ≡ index_error)) =
      dispatch_one a b (type_of (b ∷ [])) e in
    ((λ h. (refl, (one.0 h).0, (one.0 h).1)), λ h. one.1 (h.1, h.2))
feed-err a (b0 ∷ b1 ∷ rest) e = (
  (λ h. absurd (dispatch_frame_raises a b0 b1 rest (bit_and (b0 / 2 ^ 4) 0x0f) e h)),
  λ h. absurd (omega arith),
)

-- Up to 4095 bytes `segment` does not raise.
pub segment-ne-err : (p : Bytes) (e : Exc) → length p ≤ 4095 → segment p ≢ err e
unfolding segment
segment-ne-err p e h = ground arith

-- There is at least one frame.
pub segment-AreFrames :
    (p : Bytes) (frames : List Bytes)
    → segment p ≡ ok frames
    → All IsFrame frames × (1 ≤ length frames)
segment-AreFrames p frames e =
    let (shape, count) = segment_frames p frames e in (shape, ground arith)
