-- ===== src/Uds/Frame.antt =====
-- What the UDS handler of simulator/protocol/uds.py leaves unchanged, and how long it answers.
use e3on_canserver.Base.{
  ℕ, ◌+◌, ◌≤◌, ◌≡◌, refl, ◌≢◌, ◌↔◌, inl, inr, Bool, true, false, Option, none, some, List, [], ◌∷◌,
  arith, ltb, ◌==◌, Option-cases, if_ind, length, drop, length-drop,
}
use e3on_canserver.Base.Dict.{keys}
use e3on_canserver.Datastore.Laws.{
  read-write, keys-write, resolvers-write, write-known, write_unknown, StoreIsBounded,
  write-IsBounded, read-IsBounded,
}
use e3on_canserver.Isotp.{Bytes}
use e3on_canserver.Datastore.{DatapointStore, read}
use e3on_canserver.Uds.{
  sid_read_data_by_id, sid_write_data_by_id, sid_negative_resp, index, contains, request_did,
  handle_read_data_by_id, write_reply, handle_uds,
}

-- A negative response.
abbrev pub IsNegative : Bytes → Type 0
IsNegative r = index r 0 ≡ sid_negative_resp

-- A protected data point keeps its value through `UDSHandler.handle`, whatever the payload.
pub handle_uds-keeps_protected :
    (protected : List ℕ) (payload : Bytes) (s : DatapointStore) (did : ℕ)
    → contains did protected ≡ true
    → read (handle_uds protected payload s).0 did ≡ read s did
unfolding handle_uds
handle_uds-keeps_protected protected [] s did h = refl
handle_uds-keeps_protected protected (sid ∷ rest) s did h =
    ground (arith, read-write s (request_did (sid ∷ rest)) did (drop 3 (sid ∷ rest)))

-- No UDS request adds or removes a data point, or changes a resolver.
pub handle_uds-keeps_keys :
    (protected : List ℕ) (payload : Bytes) (s : DatapointStore)
    → (keys (handle_uds protected payload s).0.table ≡ keys s.table)
      × ((handle_uds protected payload s).0.resolvers ≡ s.resolvers)
unfolding handle_uds
handle_uds-keeps_keys protected [] s = (refl, refl)
handle_uds-keeps_keys protected (sid ∷ rest) s = ground (
  arith,
  keys-write s (request_did (sid ∷ rest)) (drop 3 (sid ∷ rest)),
  resolvers-write s (request_did (sid ∷ rest)) (drop 3 (sid ∷ rest)),
)

-- A negative response of `UDSHandler.handle` comes with an unchanged store.
pub handle_uds_negative_keeps :
    (protected : List ℕ) (payload : Bytes) (s : DatapointStore) (r : Bytes)
    → (handle_uds protected payload s).1 ≡ some r
    → IsNegative r
    → (handle_uds protected payload s).0 ≡ s
unfolding handle_uds
handle_uds_negative_keeps protected [] s r e n = refl
handle_uds_negative_keeps protected (sid ∷ rest) s r e n = ground (
  arith,
  write_unknown s (request_did (sid ∷ rest)) (drop 3 (sid ∷ rest)),
  write-known s (request_did (sid ∷ rest)) (drop 3 (sid ∷ rest)),
)

-- Through `UDSHandler.handle` every data point but the one that the payload addresses keeps its
-- value.
pub handle_uds-keeps_others :
    (protected : List ℕ) (payload : Bytes) (s : DatapointStore) (did : ℕ)
    → request_did payload ≢ did
    → read (handle_uds protected payload s).0 did ≡ read s did
unfolding handle_uds
handle_uds-keeps_others protected [] s did h = refl
handle_uds-keeps_others protected (sid ∷ rest) s did h =
    ground (arith, read-write s (request_did (sid ∷ rest)) did (drop 3 (sid ∷ rest)))

-- `UDSHandler.handle` answers every payload but the empty one.
pub handle_uds_silent :
    (protected : List ℕ) (payload : Bytes) (s : DatapointStore)
    → ((handle_uds protected payload s).1 ≡ none) ↔ (payload ≡ [])
unfolding handle_uds
handle_uds_silent protected [] s = ((λ _. refl), λ _. refl)
handle_uds_silent protected (sid ∷ rest) s = ground arith

write_reply-store : (hi lo : ℕ) (w : DatapointStore × Bool) → (write_reply hi lo w).0 ≡ w.0
write_reply-store hi lo (s, true) = refl
write_reply-store hi lo (s, false) = refl

read-store : (payload : Bytes) (s : DatapointStore) → (handle_read_data_by_id payload s).0 ≡ s
unfolding handle_read_data_by_id
read-store payload s = ground arith

-- A request of at most `n + 3` bytes keeps every value within `n` bytes.
pub handle_uds-StoreIsBounded :
    (n : ℕ) (protected : List ℕ) (payload : Bytes) (s : DatapointStore)
    → length payload ≤ n + 3
    → StoreIsBounded n s
    → StoreIsBounded n (handle_uds protected payload s).0
unfolding handle_uds
handle_uds-StoreIsBounded n protected [] s h b = b
handle_uds-StoreIsBounded n protected (sid ∷ rest) s h b =
    if_ind P (sid == sid_read_data_by_id) _ _ (λ _. rw (read-store (sid ∷ rest) s) b)
      (λ _.
        if_ind P (sid == sid_write_data_by_id) _ _
          (λ _.
            if_ind P (ltb (length (sid ∷ rest)) 4) _ _ (λ _. b)
              (λ _.
                if_ind P (contains (request_did (sid ∷ rest)) protected) _ _ (λ _. b)
                  (λ _. rw write_reply-store (
                    write-IsBounded n s (request_did (sid ∷ rest)) (drop 2 rest)
                      (omega (arith, length-drop 2 rest)) b))))
          (λ _. b))
  where
    P : DatapointStore × Option Bytes → Type 0
    P r = StoreIsBounded n r.0

-- With every value within `n` bytes, a response of `UDSHandler.handle` has 3 to `n + 3` bytes.
pub handle_uds_reply_bound :
    (n : ℕ) (protected : List ℕ) (payload : Bytes) (s : DatapointStore) (r : Bytes)
    → StoreIsBounded n s
    → (handle_uds protected payload s).1 ≡ some r
    → (3 ≤ length r) × (length r ≤ n + 3)
unfolding handle_uds
handle_uds_reply_bound n protected [] s r b e = cc
handle_uds_reply_bound n protected (sid ∷ rest) s r b e =
    elim (Option-cases (read s (request_did (sid ∷ rest)))) [
      | inl no_value ↦ ground arith
      | inr (v, e') ↦ ground (arith, read-IsBounded n s (request_did (sid ∷ rest)) v b e')
    ]
