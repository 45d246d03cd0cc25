-- ===== src/Faults/Tests.antt =====
-- Runs of simulator/faults.py, and its theorems at concrete inputs.
use e3on_canserver.Base.{
  ok, ℕ, ◌-◌, ◌%◌, ◌≡◌, refl, ◌≢◌, ◌⊎◌, none, some, List, [], ◌∷◌, arith, length, get_elem?, take,
  replicate, All,
}
use e3on_canserver.Base.Int.{pos, negsuc}
use e3on_canserver.Isotp.{
  Bytes, pad, consecutive_frames, multi_frames, segment, Assembler, reset, feed,
}
use e3on_canserver.Isotp.Frames.{IsFrame}
use e3on_canserver.Isotp.RoundTrip.{receive}
use e3on_canserver.Uds.Replies.{did_of}
use e3on_canserver.Faults.{
  FaultType, randint, apply_wrong_did, apply_short_payload, replace_padding, apply_wrong_padding,
  apply_drop_last_cf, apply_wrong_seq, apply_wrong_len, fault_handler, apply_fault,
}
use e3on_canserver.Faults.Detect.{breaks_sequence, broken_sequence, repeated_frame}
use e3on_canserver.Faults.Config.{
  delay_max_ms, error_pct_max, from_config, IsWithin, from_config-IsWithin,
}
use e3on_canserver.Faults.Disguise.{wrong_did_received}
use e3on_canserver.Faults.Padding.{wrong_padding_received}
use e3on_canserver.Faults.Overwriting.{overwritten}
use e3on_canserver.Faults.Shortening.{room_behind, short_payload_received}
use e3on_canserver.Faults.Length.{padded, wrong_len_received}

abbrev multi : List Bytes
multi =
    (0x10 ∷ 14 ∷ 0x62 ∷ 1 ∷ 0 ∷ 1 ∷ 2 ∷ 3 ∷ [])
    ∷ (0x21 ∷ 4 ∷ 5 ∷ 6 ∷ 7 ∷ 8 ∷ 9 ∷ 10 ∷ [])
    ∷ (0x22 ∷ 11 ∷ 0xcc ∷ 0xcc ∷ 0xcc ∷ 0xcc ∷ 0xcc ∷ 0xcc ∷ [])
    ∷ []

wrong_seq_multi :
    get_elem? (apply_fault FaultType.wrong_seq 0 multi) 1
    ≡ some (0x22 ∷ 4 ∷ 5 ∷ 6 ∷ 7 ∷ 8 ∷ 9 ∷ 10 ∷ [])
unfolding apply_fault apply_wrong_seq
wrong_seq_multi = refl

wrong_len_multi :
    get_elem? (apply_fault FaultType.wrong_len 0 multi) 0
    ≡ some (0x10 ∷ 15 ∷ 0x62 ∷ 1 ∷ 0 ∷ 1 ∷ 2 ∷ 3 ∷ [])
unfolding apply_fault apply_wrong_len
wrong_len_multi = refl

drop_last_multi : apply_fault FaultType.drop_last_cf 0 multi ≡ take 2 multi
unfolding apply_fault apply_drop_last_cf
drop_last_multi = refl

wrong_did_multi :
    get_elem? (apply_fault FaultType.wrong_did 4 multi) 0
    ≡ some (0x10 ∷ 14 ∷ 0x62 ∷ 1 ∷ 5 ∷ 1 ∷ 2 ∷ 3 ∷ [])
unfolding apply_fault apply_wrong_did
wrong_did_multi = refl

-- A fault that raises leaves the frames.
wrong_did_short : apply_fault FaultType.wrong_did 4 ((0x02 ∷ 1 ∷ []) ∷ []) ≡ (0x02 ∷ 1 ∷ []) ∷ []
unfolding apply_fault apply_wrong_did
wrong_did_short = refl

multi-AreFrames : All IsFrame multi
multi-AreFrames = (refl, (refl, (refl, tt)))

from_config-IsWithin_example :
    IsWithin delay_max_ms (from_config (some (pos 250)) none none (some (negsuc 3))).delay_ms
    × IsWithin error_pct_max (from_config (some (pos 250)) none none (some (negsuc 3))).error_pct
from_config-IsWithin_example = from_config-IsWithin (some (pos 250)) none none (some (negsuc 3))

abbrev fourteen : Bytes
fourteen = 0x62 ∷ 1 ∷ 0 ∷ 1 ∷ 2 ∷ 3 ∷ 4 ∷ 5 ∷ 6 ∷ 7 ∷ 8 ∷ 9 ∷ 10 ∷ 11 ∷ []

multi_frames-fourteen : multi_frames fourteen ≡ multi
unfolding multi_frames consecutive_frames pad
multi_frames-fourteen = refl

broken_sequence_example :
    (a : Assembler) × (receive reset (apply_fault FaultType.wrong_seq 3 (multi_frames fourteen))
      ≡ ok (a, []))
unfolding breaks_sequence
broken_sequence_example =
    broken_sequence FaultType.wrong_seq 3 reset fourteen refl (omega arith) (omega arith)

repeated_frame_example :
    (receive reset (apply_fault FaultType.duplicate_cf 1 (multi_frames fourteen))
      ≡ ok (reset, fourteen ∷ []))
    ⊎ (receive reset (apply_fault FaultType.duplicate_cf 1 (multi_frames fourteen))
        ≡ ok (reset, []))
repeated_frame_example = repeated_frame 1 reset fourteen (omega arith) (omega arith)

wrong_did_received_example :
    (frames : List Bytes) × (hi' : ℕ) × (lo' : ℕ) × (segment (0x62 ∷ 1 ∷ 0 ∷ 1 ∷ 2 ∷ 3 ∷ 4 ∷ 5 ∷ [])
      ≡ ok frames)
    × (receive reset (apply_fault FaultType.wrong_did 4 frames)
        ≡ ok (reset, (0x62 ∷ hi' ∷ lo' ∷ 1 ∷ 2 ∷ 3 ∷ 4 ∷ 5 ∷ []) ∷ []))
    × (did_of hi' lo' ≢ did_of 1 0)
wrong_did_received_example =
    wrong_did_received 4 reset 0x62 1 0 (1 ∷ 2 ∷ 3 ∷ 4 ∷ 5 ∷ []) (omega arith) (omega arith)
      (omega arith)

wrong_padding_received_example :
    (frames : List Bytes) × (segment (0x62 ∷ 1 ∷ 0 ∷ 0xcc ∷ []) ≡ ok frames)
    × (receive reset (apply_fault FaultType.wrong_padding 0 frames)
        ≡ ok (reset, (0x62 ∷ 1 ∷ 0 ∷ 0xaa ∷ []) ∷ []))
unfolding replace_padding
wrong_padding_received_example =
    wrong_padding_received 0 reset (0x62 ∷ 1 ∷ 0 ∷ 0xcc ∷ []) (omega arith) (omega arith)
      (omega arith)

-- Nine bytes: the last frame has room for one more.
abbrev nine_bytes : Bytes
nine_bytes = 0x62 ∷ 1 ∷ 0 ∷ 1 ∷ 2 ∷ 3 ∷ 4 ∷ 5 ∷ 6 ∷ []

wrong_len_received_example :
    ((length nine_bytes % 7 ≢ 6)
      × (receive reset (apply_fault FaultType.wrong_len 0 (multi_frames nine_bytes))
          ≡ ok (reset, padded nine_bytes ∷ [])))
    ⊎ ((length nine_bytes % 7 ≡ 6)
        × (a' : Assembler) × (receive reset
              (apply_fault FaultType.wrong_len 0 (multi_frames nine_bytes))
            ≡ ok (a', [])))
wrong_len_received_example = wrong_len_received 0 reset nine_bytes (omega arith) (omega arith)

-- The length byte of a First Frame is no padding, and is replaced where it is 0xCC: a client takes
-- the first 170 bytes of a response of 204 bytes for the whole.
wrong_padding_length :
    receive reset (apply_fault FaultType.wrong_padding 0 (multi_frames (replicate 204 7)))
    ≡ ok (reset, replicate 170 7 ∷ [])
unfolding receive apply_fault fault_handler apply_wrong_padding multi_frames consecutive_frames pad
    feed
wrong_padding_length = refl

short_payload_received_example :
    (frames : List Bytes) × (segment nine_bytes ≡ ok frames)
    × (receive reset (apply_fault FaultType.short_payload 2 frames)
        ≡ ok (reset, overwritten (randint 1 3 2 - room_behind (length nine_bytes)) nine_bytes ∷ []))
short_payload_received_example =
    short_payload_received 2 reset nine_bytes (omega arith) (omega arith)

-- SHORT_PAYLOAD changes nothing where the last frame ends with enough padding.
short_payload_harmless :
    apply_fault FaultType.short_payload 2 ((3 ∷ 0x6e ∷ 1 ∷ 0 ∷ 0xcc ∷ 0xcc ∷ 0xcc ∷ 0xcc ∷ []) ∷ [])
    ≡ (3 ∷ 0x6e ∷ 1 ∷ 0 ∷ 0xcc ∷ 0xcc ∷ 0xcc ∷ 0xcc ∷ []) ∷ []
unfolding apply_fault fault_handler apply_short_payload
short_payload_harmless = refl
