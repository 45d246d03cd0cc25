-- ===== src/Uds/Replies.antt =====
-- What the UDS handler of simulator/protocol/uds.py answers.
use e3on_canserver.Base.Bits.{bit_or-256}
use e3on_canserver.Base.{
  ℕ, suc, ◌+◌, ◌*◌, ◌≤◌, ◌<◌, ◌≡◌, true, false, Option, none, some, List, [], ◌∷◌, arith, ltb-false,
  length,
}
use e3on_canserver.Datastore.Laws.{read-write, write-known}
use e3on_canserver.Isotp.{Bytes}
use e3on_canserver.Datastore.{DatapointStore, known, resolved, read, write}
use e3on_canserver.Uds.{
  sid_read_data_by_id, sid_write_data_by_id, nrc_conditions_not_correct, nrc_request_out_of_range,
  negative_response, contains, request_did, write_reply, handle_uds,
}

-- A request with a two-byte identifier.
abbrev pub did_of : ℕ → ℕ → ℕ
did_of hi lo = hi * 256 + lo

pub request_did_lem :
    (sid hi lo : ℕ) (rest : Bytes) → lo < 256 → request_did (sid ∷ hi ∷ lo ∷ rest) ≡ did_of hi lo
request_did_lem sid hi lo rest h = bit_or-256 hi lo h

abbrev pub read_request : ℕ → ℕ → Bytes
read_request hi lo = sid_read_data_by_id ∷ hi ∷ lo ∷ []

abbrev pub write_request : ℕ → ℕ → Bytes → Bytes
write_request hi lo value = sid_write_data_by_id ∷ hi ∷ lo ∷ value

-- The reply to a read: the value behind the echoed identifier, or requestOutOfRange.
abbrev pub read_reply : ℕ → ℕ → Option Bytes → Bytes
read_reply hi lo none = negative_response sid_read_data_by_id nrc_request_out_of_range
read_reply hi lo (some value) = 0x62 ∷ hi ∷ lo ∷ value

pub handle_uds-read :
    (protected : List ℕ) (s : DatapointStore) (hi lo : ℕ)
    → lo < 256
    → handle_uds protected (read_request hi lo) s
      ≡ (s, some (read_reply hi lo (read s (did_of hi lo))))
unfolding handle_uds
handle_uds-read protected s hi lo h = rw (bit_or-256 hi lo h) (ground arith)

pub handle_uds-write :
    (protected : List ℕ) (s : DatapointStore) (hi lo : ℕ) (value : Bytes)
    → lo < 256
    → 1 ≤ length value
    → contains (did_of hi lo) protected ≡ false
    → handle_uds protected (write_request hi lo value) s
      ≡ write_reply hi lo (write s (did_of hi lo) value)
unfolding handle_uds
handle_uds-write protected s hi lo [] h1 h2 h3 = absurd (omega arith)
handle_uds-write protected s hi lo (x ∷ xs) h1 h2 h3 =
    rw (ltb-false (suc (suc (suc (suc (length xs))))) 4 (omega arith), bit_or-256 hi lo h1, h3)

-- A write to a protected data point is refused and changes nothing.
pub handle_uds-protected :
    (protected : List ℕ) (s : DatapointStore) (hi lo : ℕ) (value : Bytes)
    → lo < 256
    → 1 ≤ length value
    → contains (did_of hi lo) protected ≡ true
    → handle_uds protected (write_request hi lo value) s
      ≡ (s, some (negative_response sid_write_data_by_id nrc_conditions_not_correct))
unfolding handle_uds
handle_uds-protected protected s hi lo [] h1 h2 h3 = absurd (omega arith)
handle_uds-protected protected s hi lo (x ∷ xs) h1 h2 h3 =
    rw (ltb-false (suc (suc (suc (suc (length xs))))) 4 (omega arith), bit_or-256 hi lo h1, h3)

-- A write to a known, unprotected data point without a resolver is confirmed, and a read that
-- follows answers with the value that was written.
pub read_after_write :
    (protected : List ℕ) (s : DatapointStore) (hi lo : ℕ) (value : Bytes)
    → lo < 256
    → 1 ≤ length value
    → contains (did_of hi lo) protected ≡ false
    → known s (did_of hi lo) ≡ true
    → resolved s (did_of hi lo) ≡ false
    → ((handle_uds protected (write_request hi lo value) s).1 ≡ some (0x6e ∷ hi ∷ lo ∷ []))
      × ((handle_uds protected
            (read_request hi lo)
            (handle_uds protected (write_request hi lo value) s).0).1
          ≡ some (0x62 ∷ hi ∷ lo ∷ value))
read_after_write protected s hi lo value h1 h2 h3 h4 h5 =
    rw (handle_uds-write protected s hi lo value h1 h2 h3, handle_uds-read protected _ hi lo h1)
      (ground (
        arith,
        write-known s (did_of hi lo) value,
        read-write s (did_of hi lo) (did_of hi lo) value,
      ))
