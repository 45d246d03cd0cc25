-- ===== src/Faults/Disguise.antt =====
-- The faults of simulator/faults.py that a client's ISO-TP assembler cannot see: the frames of a
-- response keep their form, and carry another payload.
use native.Mathlib.Decide.{dec_le}
use e3on_canserver.Base.{
  ok, ℕ, suc, ◌+◌, ◌*◌, ◌/◌, ◌%◌, ◌^◌, ◌≤◌, ◌<◌, bit_and, bit_or, ◌≡◌, refl, sym, ap, ◌∙◌, ◌≢◌,
  true, false, List, [], ◌∷◌, arith, ◌==◌, lt→ltb, ==_iff, ==-false, length,
}
use e3on_canserver.Base.Bits.{bit_and_0xff, bit_and_0xffff, bit_or-256}
use e3on_canserver.Isotp.{Bytes, pad, segment, Assembler, reset}
use e3on_canserver.Isotp.Frames.{ff_header}
use e3on_canserver.Isotp.RoundTrip.{receive, receive-segment}
use e3on_canserver.Isotp.Segments.{frames_in, segment_small, segment_large}
use e3on_canserver.Uds.Replies.{did_of}
use e3on_canserver.Faults.{
  FaultType, randint, apply_wrong_did, apply_wrong_service, fault_handler, apply_fault,
}
use e3on_canserver.Faults.Detect.{apply_fault-handler}

-- The identifier that WRONG_DID puts in place of one, byte by byte.
abbrev pub new_did : ℕ → ℕ → ℕ → ℕ
new_did r hi lo = bit_and (bit_or (hi * 2 ^ 8) lo + randint 1 254 r) 0xffff

abbrev pub new_hi : ℕ → ℕ → ℕ → ℕ
new_hi r hi lo = bit_and (new_did r hi lo / 2 ^ 8) 0xff

abbrev pub new_lo : ℕ → ℕ → ℕ → ℕ
new_lo r hi lo = bit_and (new_did r hi lo) 0xff

new_did-ne :
    (r hi lo : ℕ) → hi < 256 → lo < 256 → did_of (new_hi r hi lo) (new_lo r hi lo) ≢ did_of hi lo
new_did-ne r hi lo h1 h2 e =
    let old : bit_or (hi * 2 ^ 8) lo ≡ hi * 256 + lo = omega (arith, bit_or-256 hi lo h2) in
    let new : new_did r hi lo ≡ (hi * 256 + lo + (1 + r % 254)) % 65536 =
      rw (bit_and_0xffff, old) refl in
    let high : new_hi r hi lo ≡ new_did r hi lo / 256 % 256 = rw bit_and_0xff refl in
    let low : new_lo r hi lo ≡ new_did r hi lo % 256 = rw bit_and_0xff refl in omega arith

-- The first frame is a Single Frame, or a First Frame.
wrong_did_sf :
    (r a svc hi lo : ℕ) (tail : Bytes) (fs : List Bytes)
    → (a / 2 ^ 4 == 0x1) ≡ false
    → apply_wrong_did r ((a ∷ svc ∷ hi ∷ lo ∷ tail) ∷ fs)
      ≡ ok ((a ∷ svc ∷ new_hi r hi lo ∷ new_lo r hi lo ∷ tail) ∷ fs)
unfolding apply_wrong_did
wrong_did_sf r a svc hi lo tail fs h =
    rw
      (
        h,
        lt→ltb 2 (suc (suc (suc (suc (length tail))))) (omega arith),
        lt→ltb 3 (suc (suc (suc (suc (length tail))))) (omega arith),
      )
      refl

wrong_did_ff :
    (r a b svc hi lo : ℕ) (tail : Bytes) (fs : List Bytes)
    → (a / 2 ^ 4 == 0x1) ≡ true
    → apply_wrong_did r ((a ∷ b ∷ svc ∷ hi ∷ lo ∷ tail) ∷ fs)
      ≡ ok ((a ∷ b ∷ svc ∷ new_hi r hi lo ∷ new_lo r hi lo ∷ tail) ∷ fs)
unfolding apply_wrong_did
wrong_did_ff r a b svc hi lo tail fs h =
    rw
      (
        h,
        lt→ltb 3 (suc (suc (suc (suc (suc (length tail)))))) (omega arith),
        lt→ltb 4 (suc (suc (suc (suc (suc (length tail)))))) (omega arith),
      )
      refl

wrong_service_sf :
    (a svc : ℕ) (tail : Bytes) (fs : List Bytes)
    → (a / 2 ^ 4 == 0x1) ≡ false
    → apply_wrong_service ((a ∷ svc ∷ tail) ∷ fs) ≡ ok ((a ∷ 0x00 ∷ tail) ∷ fs)
unfolding apply_wrong_service
wrong_service_sf a svc tail fs h = rw (h, lt→ltb 1 (suc (suc (length tail))) (omega arith)) refl

wrong_service_ff :
    (a b svc : ℕ) (tail : Bytes) (fs : List Bytes)
    → (a / 2 ^ 4 == 0x1) ≡ true
    → apply_wrong_service ((a ∷ b ∷ svc ∷ tail) ∷ fs) ≡ ok ((a ∷ b ∷ 0x00 ∷ tail) ∷ fs)
unfolding apply_wrong_service
wrong_service_ff a b svc tail fs h =
    rw (h, lt→ltb 2 (suc (suc (suc (length tail)))) (omega arith)) refl

-- The header bytes of the two kinds.
sf_type : (n : ℕ) → n ≤ 7 → (n / 2 ^ 4 == 0x1) ≡ false
sf_type n h = ==-false (n / 16) 1 (omega arith)

ff_type : (n : ℕ) → n ≤ 4095 → (bit_or 0x10 (bit_and (n / 2 ^ 8) 0x0f) / 2 ^ 4 == 0x1) ≡ true
ff_type n h = rw (ff_header n h) ((==_iff ((16 + n / 256) / 16) 1).1 (omega arith))

-- Frames that a fault turns into those of another payload.
abbrev IsTurned : FaultType → ℕ → Bytes → Bytes → Type 0
IsTurned fault r p q =
    (frames : List Bytes) × (fs : List Bytes) × (segment p ≡ ok frames)
    × (fault_handler fault r frames ≡ ok fs)
    × (segment q ≡ ok fs)

-- WRONG_DID on the frames of a payload gives the frames of the payload with another identifier.
wrong_did-IsTurned :
    (r svc hi lo : ℕ) (rest : Bytes)
    → length rest ≤ 4092
    → IsTurned FaultType.wrong_did r
        (svc ∷ hi ∷ lo ∷ rest)
        (svc ∷ new_hi r hi lo ∷ new_lo r hi lo ∷ rest)
unfolding fault_handler pad
wrong_did-IsTurned r svc hi lo rest h = elim (dec_le (length rest) 4) [
  | yes small ↦ (
    _,
    _,
    segment_small (svc ∷ hi ∷ lo ∷ rest) (omega arith),
    wrong_did_sf r (suc (suc (suc (length rest)))) svc hi lo _ []
        (sf_type (suc (suc (suc (length rest)))) (omega arith)),
    segment_small (svc ∷ new_hi r hi lo ∷ new_lo r hi lo ∷ rest) (omega arith),
  )
  | no large ↦ (
    _,
    _,
    segment_large (svc ∷ hi ∷ lo ∷ rest) (omega arith) (omega arith),
    wrong_did_ff r _ _ svc hi lo _ _ (ff_type (suc (suc (suc (length rest)))) (omega arith)),
    segment_large (svc ∷ new_hi r hi lo ∷ new_lo r hi lo ∷ rest) (omega arith) (omega arith),
  )
]

wrong_service-IsTurned :
    (r svc : ℕ) (rest : Bytes)
    → length rest ≤ 4094
    → IsTurned FaultType.wrong_service r (svc ∷ rest) (0x00 ∷ rest)
unfolding fault_handler pad
wrong_service-IsTurned r svc rest h = elim (dec_le (length rest) 6) [
  | yes small ↦ (
    _,
    _,
    segment_small (svc ∷ rest) (omega arith),
    wrong_service_sf (suc (length rest)) svc _ [] (sf_type (suc (length rest)) (omega arith)),
    segment_small (0x00 ∷ rest) (omega arith),
  )
  | no large ↦ (
    _,
    _,
    segment_large (svc ∷ rest) (omega arith) (omega arith),
    wrong_service_ff _ _ svc _ _ (ff_type (suc (length rest)) (omega arith)),
    segment_large (0x00 ∷ rest) (omega arith) (omega arith),
  )
]

-- Then a client receives the other payload.
receive-turned :
    (fault : FaultType) (r : ℕ) (a : Assembler) (p q : Bytes)
    → IsTurned fault r p q
    → 1 ≤ length q
    → length q ≤ 4095
    → (frames : List Bytes) × (segment p ≡ ok frames)
      × (receive a (apply_fault fault r frames) ≡ ok (reset, q ∷ []))
receive-turned fault r a p q (frames, fs, made, faulted, turned) h1 h2 =
    let (gs, same, received) = receive-segment a q h1 h2 in
    let equal : gs ≡ fs = ap frames_in (sym same ∙ turned) in
    (frames, made, rw (apply_fault-handler fault r frames fs faulted, sym equal) received)

-- A response of 3 to 4095 bytes that WRONG_DID hits reaches the client complete, in well-formed
-- frames, with its service and its data, but under another identifier.
pub wrong_did_received :
    (r : ℕ) (a : Assembler) (svc hi lo : ℕ) (rest : Bytes)
    → hi < 256
    → lo < 256
    → length rest ≤ 4092
    → (frames : List Bytes) × (hi' : ℕ) × (lo' : ℕ) × (segment (svc ∷ hi ∷ lo ∷ rest) ≡ ok frames)
      × (receive a (apply_fault FaultType.wrong_did r frames)
          ≡ ok (reset, (svc ∷ hi' ∷ lo' ∷ rest) ∷ []))
      × (did_of hi' lo' ≢ did_of hi lo)
wrong_did_received r a svc hi lo rest h1 h2 h =
    let (frames, made, received) =
      receive-turned FaultType.wrong_did r a (svc ∷ hi ∷ lo ∷ rest)
        (svc ∷ new_hi r hi lo ∷ new_lo r hi lo ∷ rest) (wrong_did-IsTurned r svc hi lo rest h)
        (omega arith) (omega arith) in
    (frames, new_hi r hi lo, new_lo r hi lo, made, received, new_did-ne r hi lo h1 h2)

-- A response of 1 to 4095 bytes that WRONG_SERVICE hits reaches the client complete, in well-formed
-- frames, with 0x00 in place of its first byte and every other byte as it was.
pub wrong_service_received :
    (r : ℕ) (a : Assembler) (svc : ℕ) (rest : Bytes)
    → length rest ≤ 4094
    → (frames : List Bytes) × (segment (svc ∷ rest) ≡ ok frames)
      × (receive a (apply_fault FaultType.wrong_service r frames) ≡ ok (reset, (0x00 ∷ rest) ∷ []))
wrong_service_received r a svc rest h =
    receive-turned FaultType.wrong_service r a (svc ∷ rest) (0x00 ∷ rest)
      (wrong_service-IsTurned r svc rest h) (omega arith) (omega arith)
