-- ===== src/Doip/Frames.antt =====
-- Frames of simulator/doip.py as a client builds them are read back.
use e3on_canserver.Base.{
  ℕ, ◌+◌, ◌/◌, ◌%◌, ◌^◌, ◌≤◌, ◌<◌, ◌≡◌, refl, some, ◌∷◌, ◌++◌, arith, ltb-false, length, All,
  length-append, length-drop, take-append_exact, drop-append_exact,
}
use e3on_canserver.Isotp.{Bytes}
use e3on_canserver.Isotp.Robust.{IsByte}
use e3on_canserver.Doip.{
  doip_version, doip_version_inv, unpack_h, unpack_i, header, DoipFrame, read_exactly, read_payload,
  read_frame,
}

-- A frame as a client sends it.
abbrev pub client_frame : ℕ → Bytes → Bytes
client_frame payload_type payload = header payload_type (length payload) ++ payload

-- A payload type of 16 bits and a payload whose length fits 32.
abbrev pub FitsHeader : ℕ → Bytes → Type 0
FitsHeader payload_type payload = (payload_type < 65536) × (length payload < 2 ^ 32)

unpack_i-pack :
    (n : ℕ) → unpack_i (n / 2 ^ 24) (n / 2 ^ 16 % 2 ^ 8) (n / 2 ^ 8 % 2 ^ 8) (n % 2 ^ 8) ≡ n
unpack_i-pack n = omega arith

pub unpack_h-pack : (n : ℕ) → unpack_h (n / 2 ^ 8) (n % 2 ^ 8) ≡ n
unpack_h-pack n = omega arith

read_exactly-append : (p rest : Bytes) → read_exactly (length p) (p ++ rest) ≡ some (p, rest)
unfolding read_exactly
read_exactly-append p rest = rw (
  ltb-false (length (p ++ rest)) (length p) (omega (arith, length-append p rest)),
  take-append_exact (length p) p rest refl,
  drop-append_exact (length p) p rest refl,
)

abbrev pub good_frame : ℕ → Bytes → DoipFrame
good_frame t p = record {
  version = doip_version;
  version_inv = doip_version_inv;
  payload_type = t;
  payload = p;
}

read_payload-append :
    (v w t : ℕ) (p rest : Bytes)
    → read_payload v w t (length p) (p ++ rest)
      ≡ some (record { version = v; version_inv = w; payload_type = t; payload = p }, rest)
unfolding read_payload
read_payload-append v w t p rest = rw (read_exactly-append p rest, read_payload)

header-IsByte : (t : ℕ) (p : Bytes) → FitsHeader t p → All IsByte (header t (length p))
unfolding header
header-IsByte t p h = omega arith

pub read_frame-append :
    (t : ℕ) (p rest : Bytes) → read_frame (client_frame t p ++ rest) ≡ some (good_frame t p, rest)
unfolding header
read_frame-append t p rest =
    unfold read_frame in
    rw (unpack_i-pack (length p), unpack_h-pack t)
      (read_payload-append doip_version doip_version_inv t p rest)

-- A payload type of 16 bits and a length of 32 bits make a header of bytes, and the server reads
-- the frame back, its payload to the last byte, and leaves what follows.
pub read_frame-client_frame :
    (t : ℕ) (p rest : Bytes)
    → FitsHeader t p
    → All IsByte (header t (length p))
      × (read_frame (client_frame t p ++ rest) ≡ some (good_frame t p, rest))
read_frame-client_frame t p rest h = (header-IsByte t p h, read_frame-append t p rest)

length-read_payload :
    (v w t n : ℕ) (stream : Bytes) (f : DoipFrame) (rest : Bytes)
    → read_payload v w t n stream ≡ some (f, rest)
    → length rest ≤ length stream
unfolding read_payload read_exactly
length-read_payload v w t n stream f rest e = ground (arith, length-drop n stream)

-- A frame takes 8 bytes at least.
pub length-read_frame :
    (stream : Bytes) (f : DoipFrame) (rest : Bytes)
    → read_frame stream ≡ some (f, rest)
    → length rest + 8 ≤ length stream
unfolding read_frame
length-read_frame (v ∷ w ∷ t1 ∷ t2 ∷ a ∷ b ∷ c ∷ d ∷ s) f rest e =
    omega (arith, length-read_payload v w (unpack_h t1 t2) (unpack_i a b c d) s f rest e)
length-read_frame _ f rest e = cc
