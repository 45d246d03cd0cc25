-- ===== src/Datastore.antt =====
-- simulator/datastore.py: the values of one device's data points.
-- A resolver, a callable without arguments, stands in the state as the bytes that it returns when
-- it is called now.
pub mod Laws
pub mod File
mod Tests
use e3on_canserver.Base.{
  ℕ, Bool, true, false, Option, none, some, List, [], ◌∷◌, leb, if◌then◌else◌, length,
}
use e3on_canserver.Base.Dict.{Dict, lookup, insert, keys, is_some}
use e3on_canserver.Isotp.{Bytes}

pub record DatapointStore : Type 0 where
  pub table : Dict Bytes
  pub resolvers : Dict Bytes

-- `did in self._data`, `did in self._resolvers`
abbrev pub known : DatapointStore → ℕ → Bool
known s did = is_some (lookup did s.table)

abbrev pub resolved : DatapointStore → ℕ → Bool
resolved s did = is_some (lookup did s.resolvers)

-- `read`: a resolver comes first.
unfoldable pub read : DatapointStore → ℕ → Option Bytes
unfolding lookup
read s did = elim (lookup did s.resolvers) [ some v ↦ some v | none ↦ lookup did s.table ]

-- `write`: the new store, and whether the data point was known.
unfoldable pub write : DatapointStore → ℕ → Bytes → DatapointStore × Bool
unfolding lookup insert
write s did value = elim (lookup did s.table) [
  | none ↦ (s, false)
  | some _ ↦ (record s { table = insert did value s.table }, true)
]

unfoldable pub register_resolver : DatapointStore → ℕ → Bytes → DatapointStore
unfolding insert
register_resolver s did value = record s { resolvers = insert did value s.resolvers }

-- `sorted(self._data.keys())`
unfoldable pub insert_sorted : ℕ → List ℕ → List ℕ
insert_sorted n [] = n ∷ []
insert_sorted n (m ∷ ms) = if leb n m then n ∷ m ∷ ms else m ∷ insert_sorted n ms

unfoldable pub sorted : List ℕ → List ℕ
unfolding insert_sorted
sorted [] = []
sorted (n ∷ ns) = insert_sorted n (sorted ns)

unfoldable pub known_dids : DatapointStore → List ℕ
unfolding sorted
known_dids s = sorted (keys s.table)

-- `__len__`
unfoldable pub size : DatapointStore → ℕ
size s = length s.table
