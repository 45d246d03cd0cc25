-- ===== src/Uds/Tests.antt =====
-- Runs of simulator/protocol/uds.py, and its theorems at concrete inputs.
use e3on_canserver.Base.{ℕ, ◌≡◌, refl, some, List, [], ◌∷◌, arith}
use e3on_canserver.Base.Dict.{lookup}
use e3on_canserver.Datastore.Laws.{StoreIsBounded}
use e3on_canserver.Datastore.{DatapointStore, read}
use e3on_canserver.Uds.{contains, handle_uds}
use e3on_canserver.Uds.Replies.{read_request, write_request, read_after_write}
use e3on_canserver.Uds.Frame.{handle_uds-keeps_protected}

abbrev points : DatapointStore
points = record { table = (268, 1 ∷ 2 ∷ []) ∷ (256, 9 ∷ []) ∷ []; resolvers = [] }

abbrev guarded : List ℕ
guarded = 268 ∷ []

read_known : (handle_uds guarded (read_request 1 12) points).1 ≡ some (0x62 ∷ 1 ∷ 12 ∷ 1 ∷ 2 ∷ [])
unfolding handle_uds read
read_known = refl

write_guarded :
    (handle_uds guarded (write_request 1 12 (7 ∷ [])) points).1 ≡ some (0x7f ∷ 0x2e ∷ 0x22 ∷ [])
unfolding handle_uds
write_guarded = refl

read_after_write_example :
    ((handle_uds guarded (write_request 1 0 (7 ∷ [])) points).1 ≡ some (0x6e ∷ 1 ∷ 0 ∷ []))
    × ((handle_uds guarded
          (read_request 1 0)
          (handle_uds guarded (write_request 1 0 (7 ∷ [])) points).0).1
        ≡ some (0x62 ∷ 1 ∷ 0 ∷ 7 ∷ []))
unfolding contains lookup
read_after_write_example =
    read_after_write guarded points 1 0 (7 ∷ []) (omega arith) (omega arith) refl refl refl

handle_uds-keeps_protected_example :
    read (handle_uds guarded (write_request 1 12 (7 ∷ [])) points).0 268 ≡ read points 268
unfolding contains
handle_uds-keeps_protected_example =
    handle_uds-keeps_protected guarded (write_request 1 12 (7 ∷ [])) points 268 refl

points-StoreIsBounded : StoreIsBounded 2 points
points-StoreIsBounded = record { static = omega arith; dynamic = tt }
