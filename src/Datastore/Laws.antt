-- ===== src/Datastore/Laws.antt =====
-- What reads see after writes, in simulator/datastore.py.
use mathlib.Core.List.{Perm}
use mathlib.Core.List.Perm
use e3on_canserver.Base.{
  ℕ, ◌≤◌, ◌≡◌, inl, inr, false, ◌&&◌, not, some, List, [], ◌∷◌, arith, leb, ◌==◌, if◌then◌else◌,
  Bool-cases, Option-cases, length, All,
}
use e3on_canserver.Base.Dict.{
  Dict, lookup, keys, lookup-insert, keys-insert, AllValues, insert-AllValues, lookup-AllValues,
}
use e3on_canserver.Isotp.{Bytes}
use e3on_canserver.Datastore.{
  DatapointStore, known, resolved, read, write, insert_sorted, sorted, known_dids,
}

-- What a read returns after a write: the new value at the key that was written, if it is known and
-- no resolver stands before it, and the old value everywhere else.
pub read-write :
    (s : DatapointStore) (k j : ℕ) (v : Bytes)
    → read (write s k v).0 j
      ≡ (if (k == j) && known s k && not (resolved s j) then some v else read s j)
unfolding read write
read-write s k j v = ground (arith, lookup-insert k j v s.table)

-- A write adds and removes no key.
pub keys-write :
    (s : DatapointStore) (k : ℕ) (v : Bytes) → keys (write s k v).0.table ≡ keys s.table
unfolding write
keys-write s k v = ground (arith, keys-insert k v s.table)

pub resolvers-write :
    (s : DatapointStore) (k : ℕ) (v : Bytes) → (write s k v).0.resolvers ≡ s.resolvers
unfolding write
resolvers-write s k v = ground arith

pub write-known : (s : DatapointStore) (k : ℕ) (v : Bytes) → (write s k v).1 ≡ known s k
unfolding write
write-known s k v = ground arith

pub write_unknown :
    (s : DatapointStore) (k : ℕ) (v : Bytes) → known s k ≡ false → (write s k v).0 ≡ s
unfolding write
write_unknown s k v h = ground arith

pub known-write : (s : DatapointStore) (k j : ℕ) (v : Bytes) → known (write s k v).0 j ≡ known s j
unfolding write
known-write s k j v = ground (arith, lookup-insert k j v s.table)

-- Values of at most `n` bytes, static and resolved.
abbrev pub IsBounded : ℕ → Dict Bytes → Type 0
IsBounded n = AllValues (λ v. length v ≤ n)

pub record StoreIsBounded (n : ℕ) (s : DatapointStore) : Type 0 where
  pub static : IsBounded n s.table
  pub dynamic : IsBounded n s.resolvers

pub write-IsBounded :
    (n : ℕ) (s : DatapointStore) (k : ℕ) (v : Bytes)
    → length v ≤ n
    → StoreIsBounded n s
    → StoreIsBounded n (write s k v).0
unfolding write
write-IsBounded n s k v h b = elim (Option-cases (lookup k s.table)) [
  | inl e ↦ rw (e, write) b
  | inr (w, e) ↦
      rw (e, write)
        (record {
          static = insert-AllValues (λ w. length w ≤ n) k v s.table h b.static;
          dynamic = b.dynamic;
        })
]

pub read-IsBounded :
    (n : ℕ) (s : DatapointStore) (k : ℕ) (v : Bytes)
    → StoreIsBounded n s
    → read s k ≡ some v
    → length v ≤ n
unfolding read
read-IsBounded n s k v b e = ground (
  arith,
  lookup-AllValues (λ w. length w ≤ n) k s.table v b.static,
  lookup-AllValues (λ w. length w ≤ n) k s.resolvers v b.dynamic,
)

-- `known_dids` is ascending, and holds the keys of the table, each as often as the table does.
abbrev pub IsAscending : List ℕ → Type 0
IsAscending [] = Unit
IsAscending (n ∷ ns) = All (λ m. n ≤ m) ns × IsAscending ns

All-insert_sorted :
    (k n : ℕ) (ns : List ℕ) → k ≤ n → All (λ m. k ≤ m) ns → All (λ m. k ≤ m) (insert_sorted n ns)
unfolding insert_sorted
All-insert_sorted k n [] h a = (h, tt)
All-insert_sorted k n (m ∷ ms) h a = ground (arith, All-insert_sorted k n ms)

All-le_trans : (k n : ℕ) (ns : List ℕ) → k ≤ n → All (λ m. n ≤ m) ns → All (λ m. k ≤ m) ns
All-le_trans k n [] h a = tt
All-le_trans k n (m ∷ ms) h a = (omega (arith, a.0), All-le_trans k n ms h a.1)

insert_sorted-IsAscending :
    (n : ℕ) (ns : List ℕ) → IsAscending ns → IsAscending (insert_sorted n ns)
unfolding insert_sorted
insert_sorted-IsAscending n [] a = (tt, tt)
insert_sorted-IsAscending n (m ∷ ms) a =
    ground (arith, All-insert_sorted m n ms, insert_sorted-IsAscending n ms, All-le_trans n m ms)

sorted-IsAscending : (ns : List ℕ) → IsAscending (sorted ns)
unfolding sorted
sorted-IsAscending [] = tt
sorted-IsAscending (n ∷ ns) = insert_sorted-IsAscending n (sorted ns) (sorted-IsAscending ns)

insert_sorted-perm : (n : ℕ) (ns : List ℕ) → Perm (insert_sorted n ns) (n ∷ ns)
unfolding insert_sorted
insert_sorted-perm n [] = Perm.refl (n ∷ [])
insert_sorted-perm n (m ∷ ms) = elim (Bool-cases (leb n m)) [
  | inl le ↦ rw le (Perm.refl (n ∷ m ∷ ms))
  | inr gt ↦ rw gt (Perm.trans (Perm.cons m (insert_sorted-perm n ms)) (Perm.swap n m ms))
]

sorted-perm : (ns : List ℕ) → Perm (sorted ns) ns
unfolding sorted
sorted-perm [] = Perm.refl []
sorted-perm (n ∷ ns) = Perm.trans (insert_sorted-perm n (sorted ns)) (Perm.cons n (sorted-perm ns))

-- `known_dids` is ascending and a rearrangement of the table's keys.
pub known_dids_sorted :
    (s : DatapointStore) → IsAscending (known_dids s) × Perm (known_dids s) (keys s.table)
unfolding known_dids
known_dids_sorted s = (sorted-IsAscending (keys s.table), sorted-perm (keys s.table))
