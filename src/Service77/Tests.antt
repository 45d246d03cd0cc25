-- ===== src/Service77/Tests.antt =====
-- Runs of simulator/protocol/service77.py, and its theorems at concrete inputs.
use e3on_canserver.Base.{replicate, ◌≡◌, refl, some, [], ◌∷◌, arith}
use e3on_canserver.Base.Dict.{lookup}
use e3on_canserver.Datastore.{DatapointStore}
use e3on_canserver.Uds.{handle_uds}
use e3on_canserver.Uds.Replies.{read_request}
use e3on_canserver.Service77.{s77_data, handle_service77}
use e3on_canserver.Service77.Replies.{s77_request, IsTail, uds_read_after_service77_write}

abbrev points : DatapointStore
points = record { table = (268, 1 ∷ 2 ∷ []) ∷ (256, 9 ∷ []) ∷ []; resolvers = [] }

-- A length code, and a first data byte in its place.
data_behind_code : s77_data (s77_request 1 12 0x43 1 0x82 12 1 (0xb1 ∷ 0x2b ∷ [])) ≡ 0x2b ∷ []
unfolding s77_data
data_behind_code = refl

data_without_code : s77_data (s77_request 1 12 0x43 1 0x82 12 1 (0x2b ∷ [])) ≡ 0x2b ∷ []
unfolding s77_data
data_without_code = refl

-- A value of 16 bytes behind the length code 0xB0 and its length, which is stored with it.
data_with_length :
    s77_data (s77_request 1 12 0x43 1 0x82 12 1 (0xb0 ∷ 16 ∷ replicate 16 7)) ≡ 16 ∷ replicate 16 7
unfolding s77_data
data_with_length = refl

uds_read_after_service77_write_example :
    ((handle_service77 (s77_request 1 12 0x43 1 0x82 12 1 (0xb1 ∷ 0x2b ∷ [])) points).1
      ≡ some (0x77 ∷ 1 ∷ 12 ∷ 0x44 ∷ []))
    × ((handle_uds
          (268 ∷ [])
          (read_request 1 12)
          (handle_service77 (s77_request 1 12 0x43 1 0x82 12 1 (0xb1 ∷ 0x2b ∷ [])) points).0).1
        ≡ some (0x62 ∷ 1 ∷ 12 ∷ 0x2b ∷ []))
unfolding lookup
uds_read_after_service77_write_example =
    uds_read_after_service77_write (268 ∷ []) points 1 12 0x43 1 0x82 12 1 (0x2b ∷ [])
      (0xb1 ∷ 0x2b ∷ []) (omega arith)
      (IsTail.coded 11 (0x2b ∷ []) (omega arith) (omega arith) (omega arith) (omega arith)) refl
      refl
