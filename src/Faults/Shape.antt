-- ===== src/Faults/Shape.antt =====
-- What every fault of simulator/faults.py keeps: at least one frame, and 8 bytes in each.
use e3on_canserver.Base.{
  Result, ok, err, Ensures, Ensures-if, Ensures-bind, Ensures-then, ℕ, zero, suc, ◌+◌, ◌-◌, ◌≤◌,
  ◌<◌, ◌≡◌, refl, ap, ◌∙◌, not, List, [], ◌∷◌, ◌++◌, map, arith, ltb, if◌then◌else◌, if_ind, length,
  set, take, drop, All, length-append, length-take, length-drop, length-set, All-append, All-take,
  All-drop, length-map,
}
use e3on_canserver.Base.Int.{pos, ltb_ℤ}
use e3on_canserver.Isotp.{Bytes, can_dlc, padding_byte, byte_at}
use e3on_canserver.Isotp.Frames.{IsFrame}
use e3on_canserver.Faults.{
  FaultType, randint, frame_at, set_at, is_ff, did_position, apply_wrong_did, apply_wrong_service,
  early_pad, on_last, apply_short_payload, replace_padding, apply_wrong_padding, remove_at,
  random_cf, apply_drop_random_cf, apply_drop_last_cf, apply_wrong_seq, duplicate_at,
  apply_duplicate_cf, apply_wrong_len, fault_handler, apply_fault,
}
use e3on_canserver.Faults.Config.{FaultConfig, has_errors, Draws, maybe_inject}

abbrev pub AreFrames : List Bytes → Type 0
AreFrames frames = All IsFrame frames × (1 ≤ length frames)

set_at-IsFrame : (f : Bytes) (i v : ℕ) → IsFrame f → Ensures IsFrame (set_at f i v)
unfolding set_at
set_at-IsFrame f i v h =
    Ensures-if IsFrame (ltb i (length f)) _ _ (λ _. length-set f i v ∙ h) (λ _. tt)

frame_at-IsFrame :
    (frames : List Bytes) (i : ℕ) → All IsFrame frames → Ensures IsFrame (frame_at frames i)
unfolding frame_at
frame_at-IsFrame [] i h = tt
frame_at-IsFrame (f ∷ fs) zero h = h.0
frame_at-IsFrame (f ∷ fs) (suc i) h = frame_at-IsFrame fs i h.1

-- A frame in place of the first one.
new_first :
    (frames : List Bytes) (g : Bytes) → AreFrames frames → IsFrame g → AreFrames (g ∷ drop 1 frames)
new_first frames g h hg = ((hg, All-drop IsFrame 1 frames h.0), omega arith)

wrong_did-AreFrames :
    (r : ℕ) (frames : List Bytes) → AreFrames frames → Ensures AreFrames (apply_wrong_did r frames)
unfolding apply_wrong_did
wrong_did-AreFrames r frames h =
    Ensures-bind IsFrame AreFrames (frame_at frames 0) _ (frame_at-IsFrame frames 0 h.0) (λ f hf.
      Ensures-then AreFrames (is_ff f) _ (λ ff.
        Ensures-then AreFrames (byte_at f (did_position ff)) _ (λ hi.
          Ensures-then AreFrames (byte_at f (did_position ff + 1)) _ (λ lo.
            Ensures-bind IsFrame AreFrames (set_at f (did_position ff) _) _
              (set_at-IsFrame f (did_position ff) _ hf)
              (λ g hg.
                Ensures-bind IsFrame AreFrames (set_at g (did_position ff + 1) _) _
                  (set_at-IsFrame g (did_position ff + 1) _ hg)
                  (λ k hk. new_first frames k h hk))))))

wrong_service-AreFrames :
    (frames : List Bytes) → AreFrames frames → Ensures AreFrames (apply_wrong_service frames)
unfolding apply_wrong_service
wrong_service-AreFrames frames h =
    Ensures-bind IsFrame AreFrames (frame_at frames 0) _ (frame_at-IsFrame frames 0 h.0) (λ f hf.
      Ensures-then AreFrames (is_ff f) _ (λ ff.
        Ensures-bind IsFrame AreFrames (set_at f (if ff then 2 else 1) 0x00) _
          (set_at-IsFrame f (if ff then 2 else 1) 0x00 hf) (λ g hg. new_first frames g h hg)))

early_pad-IsFrame : (n i : ℕ) (f : Bytes) → IsFrame f → Ensures IsFrame (early_pad n i f)
unfolding early_pad
early_pad-IsFrame zero i f h = h
early_pad-IsFrame (suc n) i f h =
    Ensures-bind IsFrame IsFrame (set_at f i padding_byte) _ (set_at-IsFrame f i padding_byte h)
      (λ g hg. early_pad-IsFrame n (i - 1) g hg)

on_last-AreFrames :
    (k : Bytes → Result Bytes) (frames : List Bytes)
    → ((f : Bytes) → IsFrame f → Ensures IsFrame (k f))
    → All IsFrame frames
    → Ensures AreFrames (on_last k frames)
unfolding on_last
on_last-AreFrames k [] hk h = tt
on_last-AreFrames k (x ∷ []) hk h =
    Ensures-bind IsFrame AreFrames (k x) _ (hk x h.0) (λ y hy. ((hy, tt), omega arith))
on_last-AreFrames k (x ∷ y ∷ ys) hk h =
    Ensures-bind AreFrames AreFrames (on_last k (y ∷ ys)) _ (on_last-AreFrames k (y ∷ ys) hk h.1)
      (λ rest hr. ((h.0, hr.0), omega arith))

IsFrame-wrong_padding :
    (f : Bytes) → IsFrame f → IsFrame (map replace_padding (take can_dlc f) ++ drop can_dlc f)
IsFrame-wrong_padding f h = omega (
  arith,
  length-append (map replace_padding (take can_dlc f)) (drop can_dlc f),
  length-map replace_padding (take can_dlc f),
  length-take can_dlc f,
  length-drop can_dlc f,
)

wrong_padding-AreFrames :
    (frames : List Bytes)
    → All IsFrame frames
    → Ensures (λ fs. All IsFrame fs × (length fs ≡ length frames)) (apply_wrong_padding frames)
unfolding apply_wrong_padding
wrong_padding-AreFrames [] h = (tt, refl)
wrong_padding-AreFrames (f ∷ fs) h =
    Ensures-if (λ gs. All IsFrame gs × (length gs ≡ suc (length fs))) (ltb (length f) can_dlc) _ _
      (λ _. tt)
      (λ _.
        Ensures-bind (λ gs. All IsFrame gs × (length gs ≡ length fs))
          (λ gs. All IsFrame gs × (length gs ≡ suc (length fs))) (apply_wrong_padding fs) _
          (wrong_padding-AreFrames fs h.1)
          (λ rest hr. ((IsFrame-wrong_padding f h.0, hr.0), ap suc hr.1)))

pub random_cf_bounds :
    (r : ℕ) (frames : List Bytes)
    → 2 ≤ length frames
    → (1 ≤ random_cf r frames) × (random_cf r frames < length frames)
random_cf_bounds r frames h = (omega arith, grind arith)

-- The three list edits of the multi-frame faults.
remove_at-AreFrames :
    (i : ℕ) (frames : List Bytes) → AreFrames frames → 1 ≤ i → AreFrames (remove_at i frames)
remove_at-AreFrames i frames h hi = (
  All-append IsFrame (take i frames) (drop (i + 1) frames) (All-take IsFrame i frames h.0)
      (All-drop IsFrame (i + 1) frames h.0),
  omega (arith, length-append (take i frames) (drop (i + 1) frames), length-take i frames),
)

take-AreFrames :
    (i : ℕ) (frames : List Bytes) → AreFrames frames → 1 ≤ i → AreFrames (take i frames)
take-AreFrames i frames h hi = (All-take IsFrame i frames h.0, omega (arith, length-take i frames))

duplicate_at-AreFrames :
    (i : ℕ) (f : Bytes) (frames : List Bytes)
    → AreFrames frames
    → IsFrame f
    → AreFrames (duplicate_at i f frames)
duplicate_at-AreFrames i f frames h hf = (
  All-append IsFrame (take (i + 1) frames) (f ∷ drop (i + 1) frames)
      (All-take IsFrame (i + 1) frames h.0) (hf, All-drop IsFrame (i + 1) frames h.0),
  omega (arith, length-append (take (i + 1) frames) (f ∷ drop (i + 1) frames)),
)

All-set :
    (i : ℕ) (g : Bytes) (frames : List Bytes)
    → IsFrame g
    → All IsFrame frames
    → All IsFrame (set frames i g)
All-set i g [] hg h = tt
All-set zero g (f ∷ fs) hg h = (hg, h.1)
All-set (suc i) g (f ∷ fs) hg h = (h.0, All-set i g fs hg h.1)

set-AreFrames :
    (i : ℕ) (g : Bytes) (frames : List Bytes)
    → AreFrames frames
    → IsFrame g
    → AreFrames (set frames i g)
set-AreFrames i g frames h hg = (All-set i g frames hg h.0, omega (arith, length-set frames i g))

-- A fault for several frames leaves a single one alone.
if_multi :
    (frames : List Bytes) (m : Result (List Bytes))
    → AreFrames frames
    → (2 ≤ length frames → Ensures AreFrames m)
    → Ensures AreFrames (if ltb (length frames) 2 then ok frames else m)
if_multi frames m h k =
    Ensures-if AreFrames (ltb (length frames) 2) _ _ (λ _. h) (λ many. k (ground arith))

wrong_seq-AreFrames :
    (r : ℕ) (frames : List Bytes) → AreFrames frames → Ensures AreFrames (apply_wrong_seq r frames)
unfolding apply_wrong_seq
wrong_seq-AreFrames r frames h = if_multi frames _ h (λ _.
    Ensures-bind IsFrame AreFrames (frame_at frames (random_cf r frames)) _
      (frame_at-IsFrame frames (random_cf r frames) h.0)
      (λ f hf. Ensures-then AreFrames (byte_at f 0) _ (λ orig.
        Ensures-bind IsFrame AreFrames (set_at f 0 _) _ (set_at-IsFrame f 0 _ hf)
          (λ g hg. set-AreFrames (random_cf r frames) g frames h hg))))

wrong_len-AreFrames :
    (frames : List Bytes) → AreFrames frames → Ensures AreFrames (apply_wrong_len frames)
unfolding apply_wrong_len
wrong_len-AreFrames frames h = if_multi frames _ h (λ _.
    Ensures-bind IsFrame AreFrames (frame_at frames 0) _ (frame_at-IsFrame frames 0 h.0) (λ f hf.
      Ensures-then AreFrames (byte_at f 0) _ (λ b0. Ensures-then AreFrames (byte_at f 1) _ (λ b1.
        Ensures-bind IsFrame AreFrames (set_at f 0 _) _ (set_at-IsFrame f 0 _ hf) (λ g hg.
          Ensures-bind IsFrame AreFrames (set_at g 1 _) _ (set_at-IsFrame g 1 _ hg)
            (λ k hk. new_first frames k h hk))))))

same_count :
    (frames : List Bytes) (m : Result (List Bytes))
    → 1 ≤ length frames
    → Ensures (λ fs. All IsFrame fs × (length fs ≡ length frames)) m
    → Ensures AreFrames m
same_count frames (ok fs) n e = (e.0, omega (arith, e.1))
same_count frames (err x) n e = tt

-- `_apply` catches what a fault raises.
settled :
    (frames : List Bytes) (m : Result (List Bytes))
    → AreFrames frames
    → Ensures AreFrames m
    → AreFrames (elim m [ ok fs ↦ fs | err e ↦ frames ])
settled frames (ok fs) h e = e
settled frames (err x) h e = h

fault_handler-AreFrames :
    (fault : FaultType) (r : ℕ) (frames : List Bytes)
    → AreFrames frames
    → Ensures AreFrames (fault_handler fault r frames)
unfolding fault_handler apply_short_payload apply_drop_random_cf apply_drop_last_cf
    apply_duplicate_cf
fault_handler-AreFrames FaultType.wrong_did r frames h = wrong_did-AreFrames r frames h
fault_handler-AreFrames FaultType.wrong_service r frames h = wrong_service-AreFrames frames h
fault_handler-AreFrames FaultType.short_payload r frames h =
    on_last-AreFrames (early_pad (randint 1 3 r) 7) frames (early_pad-IsFrame (randint 1 3 r) 7) h.0
fault_handler-AreFrames FaultType.wrong_padding r frames h =
    same_count frames (apply_wrong_padding frames) h.1 (wrong_padding-AreFrames frames h.0)
fault_handler-AreFrames FaultType.drop_random_cf r frames h =
    if_multi frames _ h
      (λ many. remove_at-AreFrames (random_cf r frames) frames h (random_cf_bounds r frames many).0)
fault_handler-AreFrames FaultType.drop_last_cf r frames h =
    if_multi frames _ h (λ many. take-AreFrames (length frames - 1) frames h (omega arith))
fault_handler-AreFrames FaultType.wrong_seq r frames h = wrong_seq-AreFrames r frames h
fault_handler-AreFrames FaultType.duplicate_cf r frames h = if_multi frames _ h (λ _.
    Ensures-bind IsFrame AreFrames (frame_at frames (random_cf r frames)) _
      (frame_at-IsFrame frames (random_cf r frames) h.0)
      (λ f hf. duplicate_at-AreFrames (random_cf r frames) f frames h hf))
fault_handler-AreFrames FaultType.truncated_mf r frames h = take-AreFrames 1 frames h (omega arith)
fault_handler-AreFrames FaultType.wrong_len r frames h = wrong_len-AreFrames frames h

-- Whatever the fault and the draw, a response of frames of 8 bytes stays one: there is at least
-- one frame, and each has 8 bytes.
pub apply_fault-AreFrames :
    (fault : FaultType) (r : ℕ) (frames : List Bytes)
    → All IsFrame frames
    → 1 ≤ length frames
    → All IsFrame (apply_fault fault r frames) × (1 ≤ length (apply_fault fault r frames))
unfolding apply_fault
apply_fault-AreFrames fault r frames h n =
    settled frames (fault_handler fault r frames) (h, n)
      (fault_handler-AreFrames fault r frames (h, n))

pub maybe_inject-AreFrames :
    (c : FaultConfig) (d : Draws) (frames : List Bytes)
    → All IsFrame frames × (1 ≤ length frames)
    → All IsFrame (maybe_inject c d frames) × (1 ≤ length (maybe_inject c d frames))
unfolding maybe_inject
maybe_inject-AreFrames c d frames h =
    if_ind AreFrames (not (has_errors c)) _ _ (λ _. h)
      (λ _.
        if_ind AreFrames (not (ltb_ℤ (pos d.roll) c.error_pct)) _ _ (λ _. h)
          (λ _. apply_fault-AreFrames _ d.value frames h.0 h.1))
