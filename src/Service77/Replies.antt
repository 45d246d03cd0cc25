-- ===== src/Service77/Replies.antt =====
-- What the handler of simulator/protocol/service77.py answers and stores.
use e3on_canserver.Base.{
  ℕ, suc, ◌+◌, ◌-◌, ◌*◌, ◌≤◌, ◌<◌, bit_and, ◌≡◌, refl, ◌≢◌, ◌↔◌, ◌⊎◌, inl, Bool, true, false, not,
  Option, none, some, List, [], ◌∷◌, arith, ltb, leb, ◌==◌, if◌then◌else◌, ltb-false, leb-true,
  leb-false, if_ind, length, drop, length-drop,
}
use e3on_canserver.Base.Bits.{bit_and_0xf0, bit_or-256_right}
use e3on_canserver.Base.Dict.{keys}
use e3on_canserver.Isotp.{Bytes}
use e3on_canserver.Datastore.{DatapointStore, known, resolved, write}
use e3on_canserver.Datastore.Laws.{
  read-write, keys-write, resolvers-write, write-known, StoreIsBounded, write-IsBounded,
}
use e3on_canserver.Uds.{index, handle_uds}
use e3on_canserver.Uds.Replies.{did_of, read_request, handle_uds-read}
use e3on_canserver.Service77.{sid_service77, s77_did, s77_data, s77_reply, handle_service77}

-- A request as e3oncan builds it: the counter field `c1`, `c2`, three client bytes, the identifier
-- little-endian, and the tail.
abbrev pub s77_request : ℕ → ℕ → ℕ → ℕ → ℕ → ℕ → ℕ → Bytes → Bytes
s77_request c1 c2 k1 k2 k3 lo hi tail = sid_service77 ∷ c1 ∷ c2 ∷ k1 ∷ k2 ∷ k3 ∷ lo ∷ hi ∷ tail

-- The data of the tail: behind a length code, or the whole tail.
abbrev pub tail_data : Bytes → Bytes
tail_data [] = []
tail_data (b ∷ bs) = if leb 0x80 b then bs else b ∷ bs

s77_data_lem :
    (c1 c2 k1 k2 k3 lo hi b : ℕ) (bs : Bytes)
    → b < 256
    → s77_data (s77_request c1 c2 k1 k2 k3 lo hi (b ∷ bs)) ≡ tail_data (b ∷ bs)
unfolding s77_data
s77_data_lem c1 c2 k1 k2 k3 lo hi b bs h = rw (bit_and_0xf0 b h) (ground arith)

-- A Service 77 request of nine bytes or more has the store write the data of its tail to the
-- identifier in bytes 6 and 7; the answer is a confirmation that echoes the counter field, or
-- requestOutOfRange where the store does not know the identifier.
pub handle_service77-write :
    (s : DatapointStore) (c1 c2 k1 k2 k3 lo hi b : ℕ) (bs : Bytes)
    → lo < 256
    → b < 256
    → handle_service77 (s77_request c1 c2 k1 k2 k3 lo hi (b ∷ bs)) s
      ≡ s77_reply c1 c2 (write s (did_of hi lo) (tail_data (b ∷ bs)))
unfolding handle_service77
handle_service77-write s c1 c2 k1 k2 k3 lo hi b bs h1 h2 = rw (
  ltb-false (suc (suc (suc (suc (suc (suc (suc (suc (suc (length bs)))))))))) 9 (omega arith),
  bit_or-256_right hi lo h1,
  s77_data_lem c1 c2 k1 k2 k3 lo hi b bs h2,
)

-- The Service 77 handler is silent exactly for the empty payload and for another service.
pub handle_service77_silent :
    (payload : Bytes) (s : DatapointStore)
    → ((handle_service77 payload s).1 ≡ none) ↔ ((payload ≡ []) ⊎ (index payload 0 ≢ sid_service77))
unfolding handle_service77
handle_service77_silent [] s = ((λ _. inl refl), λ _. refl)
handle_service77_silent (sid ∷ rest) s = grind arith

-- The tail that carries a value, from docs/protocols.md: a value whose first byte is below 0x80 as
-- it is, or a length code, with a high nibble of 8 or more and the length in the low nibble, and
-- the value behind it. The form for 16 bytes and more, a low nibble of 0 with the length in the
-- next byte, is left out.
pub data IsTail : Bytes → Bytes → Type 0 where
  bare : (b : ℕ) (bs : Bytes) → b < 0x80 → IsTail (b ∷ bs) (b ∷ bs)
  coded :
      (high : ℕ) (value : Bytes)
      → 8 ≤ high
      → high < 16
      → 1 ≤ length value
      → length value ≤ 15
      → IsTail value ((high * 16 + length value) ∷ value)

-- What the code takes for the value of such a tail, which has a byte at least.
IsTail-tail_data :
    (value tail : Bytes)
    → IsTail value tail
    → (b : ℕ) × (bs : Bytes) × (tail ≡ b ∷ bs) × (b < 256) × (tail_data (b ∷ bs) ≡ value)
IsTail-tail_data value tail (bare b bs h) = (b, bs, refl, omega arith, rw (leb-false 0x80 b h) refl)
IsTail-tail_data value tail (coded high _ h1 h2 h3 h4) = (
  high * 16 + length value,
  value,
  refl,
  omega arith,
  rw (leb-true 0x80 (high * 16 + length value) (omega arith)) refl,
)

-- A Service 77 request for a known data point without a resolver, whose tail carries a value in one
-- of the two forms of docs/protocols.md for up to 15 bytes (the whole tail, with a first byte below
-- 0x80, or behind a length code with the length in its low nibble), is confirmed, and a UDS read
-- that follows answers with that value, whatever the UDS handler's protection list.
pub uds_read_after_service77_write :
    (protected : List ℕ) (s : DatapointStore) (c1 c2 k1 k2 k3 lo hi : ℕ) (value tail : Bytes)
    → lo < 256
    → IsTail value tail
    → known s (did_of hi lo) ≡ true
    → resolved s (did_of hi lo) ≡ false
    → ((handle_service77 (s77_request c1 c2 k1 k2 k3 lo hi tail) s).1
        ≡ some (0x77 ∷ c1 ∷ c2 ∷ 0x44 ∷ []))
      × ((handle_uds protected
            (read_request hi lo)
            (handle_service77 (s77_request c1 c2 k1 k2 k3 lo hi tail) s).0).1
          ≡ some (0x62 ∷ hi ∷ lo ∷ value))
uds_read_after_service77_write protected s c1 c2 k1 k2 k3 lo hi value tail h1 form h3 h4 =
    let (b, bs, shape, h2, carried) = IsTail-tail_data value tail form in
    rw
      (
        shape,
        handle_service77-write s c1 c2 k1 k2 k3 lo hi b bs h1 h2,
        carried,
        handle_uds-read protected _ hi lo h1,
      )
      (ground (
        arith,
        write-known s (did_of hi lo) value,
        read-write s (did_of hi lo) (did_of hi lo) value,
      ))

-- No request adds or removes a data point.
pub service77-keeps_keys :
    (payload : Bytes) (s : DatapointStore)
    → (keys (handle_service77 payload s).0.table ≡ keys s.table)
      × ((handle_service77 payload s).0.resolvers ≡ s.resolvers)
unfolding handle_service77
service77-keeps_keys [] s = (refl, refl)
service77-keeps_keys (sid ∷ rest) s = ground (
  arith,
  keys-write s (s77_did (sid ∷ rest)) (s77_data (sid ∷ rest)),
  resolvers-write s (s77_did (sid ∷ rest)) (s77_data (sid ∷ rest)),
)

-- The data of a request is at least 8 bytes shorter than the request, so a store stays bounded.
length-s77_data : (payload : Bytes) → length (s77_data payload) ≤ length payload - 8
unfolding s77_data
length-s77_data payload =
    if_ind (λ (d : Bytes). length d ≤ length payload - 8)
      (leb 0x80 (bit_and (index payload 8) 0xf0)) (drop 9 payload) (drop 8 payload)
      (λ _. omega (arith, length-drop 9 payload)) (λ _. omega (arith, length-drop 8 payload))

s77_reply-store : (b1 b2 : ℕ) (w : DatapointStore × Bool) → (s77_reply b1 b2 w).0 ≡ w.0
s77_reply-store b1 b2 (s, true) = refl
s77_reply-store b1 b2 (s, false) = refl

pub service77-StoreIsBounded :
    (n : ℕ) (payload : Bytes) (s : DatapointStore)
    → length payload ≤ n + 8
    → StoreIsBounded n s
    → StoreIsBounded n (handle_service77 payload s).0
unfolding handle_service77
service77-StoreIsBounded n [] s h b = b
service77-StoreIsBounded n (sid ∷ rest) s h b =
    if_ind P (not (sid == sid_service77)) _ _ (λ _. b)
      (λ _.
        if_ind P (ltb (length (sid ∷ rest)) 9) _ _ (λ _. b)
          (λ _. rw s77_reply-store (
            write-IsBounded n s (s77_did (sid ∷ rest)) (s77_data (sid ∷ rest))
              (omega (arith, length-s77_data (sid ∷ rest))) b)))
  where
    P : DatapointStore × Option Bytes → Type 0
    P r = StoreIsBounded n r.0

-- A response has at most four bytes.
pub service77_reply_bound :
    (payload : Bytes) (s : DatapointStore) (r : Bytes)
    → (handle_service77 payload s).1 ≡ some r
    → (3 ≤ length r) × (length r ≤ 4)
unfolding handle_service77
service77_reply_bound [] s r e = cc
service77_reply_bound (sid ∷ rest) s r e = ground arith
