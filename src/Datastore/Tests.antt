-- ===== src/Datastore/Tests.antt =====
-- Runs of simulator/datastore.py, and its theorems at concrete inputs.
use e3on_canserver.Base.{
  value_error, ok, err, ◌≡◌, refl, some, List, [], ◌∷◌, ◌++◌, arith, ◌==◌, if◌then◌else◌,
}
use e3on_canserver.Base.Int.{pos}
use e3on_canserver.Datastore.{DatapointStore, read, known_dids}
use e3on_canserver.Datastore.File.{Text, is_space, parse_line, from_file}
use e3on_canserver.Datastore.File.Lines.{decimal, decimal_value, hex_text, parse_line-hex}
use e3on_canserver.Datastore.File.Loads.{read_last_line}

abbrev pub two_points : DatapointStore
two_points = record {
  table = (268, 1 ∷ 2 ∷ []) ∷ (256, 9 ∷ []) ∷ [];
  resolvers = (700, 5 ∷ []) ∷ [];
}

read_resolver : read two_points 700 ≡ some (5 ∷ [])
unfolding read
read_resolver = refl

known_dids_two : known_dids two_points ≡ 256 ∷ 268 ∷ []
unfolding known_dids
known_dids_two = refl

-- "256 0aFf", "# x", "700 1 2", and a blank line.
abbrev short_file : List Text
short_file =
    (50 ∷ 53 ∷ 54 ∷ 32 ∷ 48 ∷ 97 ∷ 70 ∷ 102 ∷ 10 ∷ [])
    ∷ (35 ∷ 32 ∷ 120 ∷ 10 ∷ [])
    ∷ (55 ∷ 48 ∷ 48 ∷ 32 ∷ 49 ∷ 32 ∷ 50 ∷ 10 ∷ [])
    ∷ (32 ∷ 10 ∷ [])
    ∷ []

from_file-short_file :
    from_file short_file
    ≡ ok (record { table = (256, 10 ∷ 255 ∷ []) ∷ (700, 1 ∷ 2 ∷ []) ∷ []; resolvers = [] })
unfolding from_file is_space
from_file-short_file = refl

-- "256 5": the odd digit is lost, and the value is empty.
odd_digit :
    from_file ((50 ∷ 53 ∷ 54 ∷ 32 ∷ 53 ∷ []) ∷ [])
    ≡ ok (record { table = (256, []) ∷ []; resolvers = [] })
unfolding from_file is_space
odd_digit = refl

-- "0x10 1 2": an identifier in base 16 is refused.
hex_identifier : from_file ((48 ∷ 120 ∷ 49 ∷ 48 ∷ 32 ∷ 49 ∷ 32 ∷ 50 ∷ []) ∷ []) ≡ err value_error
unfolding from_file is_space
hex_identifier = refl

-- "256 0a" at the end of that file.
read_last_line_example :
    (s : DatapointStore) × (from_file
        (short_file ++ ((decimal (2 ∷ 5 ∷ 6 ∷ []) ++ (32 ∷ hex_text (10 ∷ []))) ∷ []))
      ≡ ok s)
    × (read s 256 ≡ (
        if decimal_value 0 (2 ∷ 5 ∷ 6 ∷ []) == 256
        then some (10 ∷ [])
        else read
            (record { table = (256, 10 ∷ 255 ∷ []) ∷ (700, 1 ∷ 2 ∷ []) ∷ []; resolvers = [] })
            256))
read_last_line_example =
    read_last_line short_file
      (record { table = (256, 10 ∷ 255 ∷ []) ∷ (700, 1 ∷ 2 ∷ []) ∷ []; resolvers = [] }) 2 10
      (5 ∷ 6 ∷ []) [] 256 from_file-short_file (omega arith) (omega arith)

parse_line-hex_example :
    parse_line (decimal (2 ∷ 5 ∷ 6 ∷ []) ++ (32 ∷ hex_text (10 ∷ 255 ∷ [])))
    ≡ ok (some (pos (decimal_value 0 (2 ∷ 5 ∷ 6 ∷ [])), 10 ∷ 255 ∷ []))
parse_line-hex_example = parse_line-hex 2 10 (5 ∷ 6 ∷ []) (255 ∷ []) (omega arith) (omega arith)
