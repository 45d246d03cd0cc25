-- ===== src/Device/Doip.antt =====
-- `handle_uds_payload` of simulator/device.py: the way of a request that comes by DoIP.
use native.Mathlib.Decide.{dec_le}
use e3on_canserver.Base.Bits.{bit_and_0x0f, bit_and_0xff, bit_or-256}
use e3on_canserver.Base.{
  ◌>>=◌, index_error, Result, ok, err, ℕ, zero, suc, ◌+◌, ◌-◌, ◌*◌, ◌/◌, ◌%◌, ◌^◌, ◌≤◌, bit_and,
  bit_or, ◌≡◌, refl, ap, ◌∙◌, false, Option, none, some, List, [], ◌∷◌, ◌++◌, append-nil, arith,
  ltb-false, leb-true, leb-false, length, take, drop, take-append-drop, length-take, length-drop,
  take_all, take-append_exact, take_inside, take-append_more,
}
use e3on_canserver.Datastore.Laws.{StoreIsBounded}
use e3on_canserver.Isotp.{Bytes, pad, consecutive_frames, multi_frames, segment, byte_at}
use e3on_canserver.Isotp.Frames.{ff_header, low_nibble}
use e3on_canserver.Isotp.Robust.{cf_count, length-consecutive_frames}
use e3on_canserver.Uds.{handle_uds}
use e3on_canserver.Uds.Frame.{handle_uds_reply_bound}
use e3on_canserver.Faults.Config.{FaultConfig, has_errors, Draws, maybe_inject, maybe_inject_clean}
use e3on_canserver.Device.{SimulatedDevice}
use e3on_canserver.Device.Health.{max_value}

-- The frames that `send_frames` sends where nothing waits for Flow Control; `frames[0]` of no
-- frames raises.
unfoldable pub collect_frames : List Bytes → Result (List Bytes)
collect_frames [] = err index_error
collect_frames (f ∷ frames) = ok (f ∷ frames)

-- `buf.extend(cf[1:8])` for each frame
unfoldable pub join_cfs : List Bytes → Bytes
join_cfs [] = []
join_cfs (cf ∷ cfs) = take 7 (drop 1 cf) ++ join_cfs cfs

-- The payload of the faulted frames, without their headers. A single frame is read as an SF.
unfoldable pub strip_frames : List Bytes → Result (Option Bytes)
unfolding byte_at join_cfs
strip_frames [] = ok none
strip_frames (sf ∷ []) = do b0 ← byte_at sf 0; ok (some (take (bit_and b0 0x0f) (drop 1 sf)))
strip_frames (ff ∷ cf ∷ cfs) = do
  b0 ← byte_at ff 0
  b1 ← byte_at ff 1
  ok (some (take (bit_or (bit_and b0 0x0f * 2 ^ 8) b1) (take 6 (drop 2 ff) ++ join_cfs (cf ∷ cfs))))

-- What happens to the handler's answer.
unfoldable pub transmit : FaultConfig → Draws → Option Bytes → Result (Option Bytes)
unfolding collect_frames strip_frames
transmit c d none = ok none
transmit c d (some response) = do
  frames ← segment response
  faulted ← collect_frames (maybe_inject c d frames)
  strip_frames faulted

-- The new store, and the payload to send back; the store keeps a write also when sending raises.
unfoldable pub handle_uds_payload :
    SimulatedDevice → Draws → Bytes → SimulatedDevice × Result (Option Bytes)
unfolding transmit
handle_uds_payload dev d payload =
    let (s, response) = handle_uds dev.protected payload dev.store in
    (record dev { store = s }, transmit dev.config d response)

-- The frames behind the first one carry the rest of the payload, and padding.
take-join_cfs :
    (fuel seq : ℕ) (rem : Bytes)
    → length rem ≤ fuel
    → take (length rem) (join_cfs (consecutive_frames fuel seq rem)) ≡ rem
unfolding join_cfs consecutive_frames pad
take-join_cfs fuel seq [] h = refl
take-join_cfs zero seq (x ∷ xs) h = absurd (omega arith)
take-join_cfs (suc fuel) seq (x ∷ xs) h = ap (◌∷◌ x) (elim (dec_le (length xs) 6) [
  | yes last ↦ rw (take_all 6 xs last) (take_inside 6 xs _ _ last)
  | no more ↦
      let full : length (take 6 xs) ≡ 6 = omega (arith, length-take 6 xs) in
      rw (full, append-nil, take_all 6 (take 6 xs) (omega arith))
        (rw (
          take-append_more (length xs) (length (drop 6 xs)) (take 6 xs)
              (join_cfs (consecutive_frames fuel ((seq + 1) % 16) (drop 6 xs)))
              (omega (arith, length-drop 6 xs)),
          take-join_cfs fuel ((seq + 1) % 16) (drop 6 xs) (omega (arith, length-drop 6 xs)),
          take-append-drop,
        ))
])

strip-many :
    (b0 b1 : ℕ) (rest : Bytes) (cfs : List Bytes)
    → 1 ≤ length cfs
    → strip_frames ((b0 ∷ b1 ∷ rest) ∷ cfs)
      ≡ ok (some (take (bit_or (bit_and b0 0x0f * 2 ^ 8) b1) (take 6 rest ++ join_cfs cfs)))
unfolding strip_frames
strip-many b0 b1 rest [] h = absurd (omega arith)
strip-many b0 b1 rest (cf ∷ cfs) h = refl

-- Stripping the frames that `segment` made gives the payload back.
strip-multi_frames :
    (p : Bytes) → 8 ≤ length p → length p ≤ 4095 → strip_frames (multi_frames p) ≡ ok (some p)
unfolding multi_frames pad
strip-multi_frames p h1 h2 =
    let low : bit_and (16 + length p / 256) 0x0f ≡ length p / 256 =
      low_nibble 1 (length p / 256) (omega arith) in
    let total : bit_or (length p / 256 * 256) (length p % 256) ≡ length p =
      omega (arith, bit_or-256 (length p / 256) (length p % 256)) in
    let left : length (drop 6 p) ≡ length p - 6 = length-drop 6 p in
    let count : length (consecutive_frames (length (drop 6 p)) 1 (drop 6 p))
        ≡ cf_count (length (drop 6 p)) =
      length-consecutive_frames (length (drop 6 p)) 1 (drop 6 p) (omega arith) in
    rw (strip-many _ _ _ (consecutive_frames (length (drop 6 p)) 1 (drop 6 p)) (omega arith)) (
      rw
        (
          ff_header (length p) h2,
          low,
          bit_and_0xff,
          total,
          take-append_exact 6 (take 6 p) _ (omega (arith, length-take 6 p)),
        )
        (rw (
          take-append_more (length p) (length (drop 6 p)) (take 6 p) _
              (omega (arith, length-take 6 p)),
          take-join_cfs (length (drop 6 p)) 1 (drop 6 p) (omega arith),
          take-append-drop,
        )))

strip-single : (p : Bytes) → length p ≤ 7 → strip_frames (pad (length p ∷ p) ∷ []) ≡ ok (some p)
unfolding strip_frames pad
strip-single p h =
    let low : bit_and (length p) 0x0f ≡ length p = omega (arith, bit_and_0x0f (length p)) in
    rw (low, take-append_exact (length p) p _ refl)

transmit-segment :
    (c : FaultConfig) (d : Draws) (r : Bytes) (frames : List Bytes)
    → has_errors c ≡ false
    → segment r ≡ ok frames
    → 1 ≤ length frames
    → transmit c d (some r) ≡ strip_frames frames
unfolding transmit
transmit-segment c d r [] h e n = absurd (omega arith)
transmit-segment c d r (f ∷ fs) h e n = rw (e, maybe_inject_clean c d (f ∷ fs) h)

-- With an error rate of 0, a response of at most 4095 bytes leaves `handle_uds_payload` exactly as
-- the UDS handler gave it, through the frames and back.
pub transmit_clean :
    (c : FaultConfig) (d : Draws) (r : Bytes)
    → has_errors c ≡ false
    → length r ≤ 4095
    → transmit c d (some r) ≡ ok (some r)
transmit_clean c d r h n = elim (dec_le (length r) 7) [
  | yes small ↦
      transmit-segment c d r (pad (length r ∷ r) ∷ []) h
        (unfold segment in rw (leb-true (length r) 7 small)) (omega arith)
      ∙ strip-single r small
  | no large ↦
      transmit-segment c d r (multi_frames r) h
        (unfold segment in rw (leb-false (length r) 7 (omega arith), ltb-false 0xfff (length r) n))
        (unfold multi_frames in omega arith)
      ∙ strip-multi_frames r (omega arith) n
]

-- With an error rate of 0 and every value within 4092 bytes, a client of DoIP is answered exactly
-- what the UDS handler answers, and of the device only the store changes, to the handler's.
pub handle_uds_payload_clean :
    (dev : SimulatedDevice) (d : Draws) (payload : Bytes)
    → has_errors dev.config ≡ false
    → StoreIsBounded max_value dev.store
    → handle_uds_payload dev d payload ≡ (
      record dev { store = (handle_uds dev.protected payload dev.store).0 },
      ok (handle_uds dev.protected payload dev.store).1,
    )
unfolding handle_uds_payload
handle_uds_payload_clean dev d payload h b =
    ap
      (λ (o : Result (Option Bytes)).
        (record dev { store = (handle_uds dev.protected payload dev.store).0 }, o))
      (answered (handle_uds dev.protected payload dev.store).1
        (λ r e. (handle_uds_reply_bound max_value dev.protected payload dev.store r b e).1))
  where
    answered :
        (o : Option Bytes)
        → ((r : Bytes) → o ≡ some r → length r ≤ 4095)
        → transmit dev.config d o ≡ ok o
    answered none short = unfold transmit in refl
    answered (some r) short = transmit_clean dev.config d r h (short r refl)
