-- ===== src/Collect/Messages.antt =====
-- Every message of simulator/protocol/collect.py decodes to the identifier and the payload that it
-- was made from.
use native.Mathlib.Decide.{dec_le}
use e3on_canserver.Base.Bits.{bit_and_0x0f}
use e3on_canserver.Base.{
  Exc, value_error, ok, err, ℕ, suc, ◌+◌, ◌-◌, ◌≤◌, ◌<◌, bit_and, ◌≡◌, refl, ◌∙◌, ◌↔◌, ◌⊎◌, inl,
  inr, false, some, List, [], ◌∷◌, ◌++◌, arith, lt→ltb, leb-true, leb-false, Bool-cases, ==-false,
  length, take, replicate,
}
use e3on_canserver.Isotp.{Bytes}
use e3on_canserver.Uds.{contains}
use e3on_canserver.Collect.{
  collect_padding, len_base, len_escape, len_escape_list, length_header, segment_collect,
}
use e3on_canserver.Collect.Decode.{read_length, decode}
use e3on_canserver.Collect.RoundTrip.{gather_message, message, segment_collect-message, did_bytes}

decode-message :
    (did v3 n : ℕ) (header p : Bytes)
    → did < 65536
    → 0 < n
    → ((rest : Bytes) → read_length v3 (header ++ rest) ≡ some (length p, rest))
    → decode (message did (v3 ∷ header) n p) ≡ some (did, p)
unfolding decode
decode-message did v3 n header p hd hn h = rw (
  h (take n p ++ replicate (n - length (take n p)) collect_padding),
  gather_message n (n - length (take n p)) p hn refl,
  did_bytes did hd,
)

-- The three forms of the length field.
short_length :
    (size : ℕ) (rest : Bytes)
    → 1 ≤ size
    → size ≤ 15
    → read_length (len_base + size) rest ≡ some (size, rest)
unfolding read_length
short_length size rest h1 h2 =
    let low : bit_and (len_base + size) 0x0f ≡ size =
      omega (arith, bit_and_0x0f (len_base + size)) in
    rw (low, ==-false size 0 (omega arith))

plain_length :
    (size : ℕ) (rest : Bytes)
    → contains size len_escape_list ≡ false
    → read_length len_base (size ∷ rest) ≡ some (size, rest)
unfolding read_length contains
plain_length size rest h = ground arith

escaped_length :
    (size : ℕ) (rest : Bytes) → read_length len_base (len_escape ∷ size ∷ rest) ≡ some (size, rest)
unfolding read_length
escaped_length size rest = refl

-- A payload of 1 to 255 bytes is segmented for any 16-bit identifier, and a listener decodes the
-- frames to exactly that identifier and payload.
pub decode-segment_collect :
    (did : ℕ) (p : Bytes)
    → did < 65536
    → 1 ≤ length p
    → length p ≤ 255
    → (frames : List Bytes) × (segment_collect did p ≡ ok frames) × (decode frames ≡ some (did, p))
decode-segment_collect did p hd h1 h2 = elim (dec_le (length p) 15) [
  | yes short ↦ (
    message did ((len_base + length p) ∷ []) 4 p,
    segment_collect-message did p ((len_base + length p) ∷ []) 4 h1 (omega arith)
        (unfold length_header in rw (leb-true (length p) 15 short)),
    decode-message did (len_base + length p) 4 [] p hd (omega arith)
        (λ rest. short_length (length p) rest h1 short),
  )
  | no long ↦ elim (Bool-cases (contains (length p) len_escape_list)) [
    | inl escaped ↦ (
      message did (len_base ∷ len_escape ∷ length p ∷ []) 2 p,
      segment_collect-message did p (len_base ∷ len_escape ∷ length p ∷ []) 2 h1 (omega arith) (
          unfold length_header in
          rw (leb-false (length p) 15 (omega arith), escaped, lt→ltb (length p) 256 (omega arith))),
      decode-message did len_base 2 (len_escape ∷ length p ∷ []) p hd (omega arith)
          (λ rest. escaped_length (length p) rest),
    )
    | inr plain ↦ (
      message did (len_base ∷ length p ∷ []) 3 p,
      segment_collect-message did p (len_base ∷ length p ∷ []) 3 h1 (omega arith) (
          unfold length_header in
          rw (leb-false (length p) 15 (omega arith), plain, lt→ltb (length p) 256 (omega arith))),
      decode-message did len_base 3 (length p ∷ []) p hd (omega arith)
          (λ rest. plain_length (length p) rest plain),
    )
  ]
]

header_too_long : (size : ℕ) → 255 < size → length_header size ≡ err value_error
unfolding length_header contains
header_too_long size h = ground arith

raises :
    (did : ℕ) (p : Bytes)
    → (length p ≡ 0) ⊎ (255 < length p)
    → segment_collect did p ≡ err value_error
unfolding segment_collect
raises did [] h = refl
raises did (x ∷ xs) (inl h) = absurd (omega arith)
raises did (x ∷ xs) (inr h) = rw (header_too_long (suc (length xs)) h)

-- What `segment_collect` raises for a 16-bit identifier: a ValueError, exactly for the empty
-- payload and for more than 255 bytes.
pub segment_collect-err :
    (did : ℕ) (p : Bytes) (e : Exc)
    → did < 65536
    → (segment_collect did p ≡ err e) ↔ ((e ≡ value_error) × ((length p ≡ 0) ⊎ (255 < length p)))
segment_collect-err did p e hd = (fails, λ h. raises did p h.1 ∙ cc (h.0))
  where
    fails : segment_collect did p ≡ err e → (e ≡ value_error) × ((length p ≡ 0) ⊎ (255 < length p))
    fails h = elim (dec_le (length p) 0) [
      | yes empty ↦ (cc (h, raises did p (inl (omega arith))), inl (omega arith))
      | no some_bytes ↦ elim (dec_le (length p) 255) [
        | no large ↦ (cc (h, raises did p (inr (omega arith))), inr (omega arith))
        | yes small ↦
            let (frames, made, _) = decode-segment_collect did p hd (omega arith) small in
            cc (h, made)
      ]
    ]
