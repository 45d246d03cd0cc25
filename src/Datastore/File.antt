-- ===== src/Datastore/File.antt =====
-- `from_file` of simulator/datastore.py. A line is a list of ASCII codes; opening the file and its
-- division into lines are Python's.
pub mod Lines
pub mod Loads
use e3on_canserver.Base.{
  ◌>>=◌, value_error, Result, ok, err, ℕ, zero, suc, ◌+◌, ◌-◌, ◌*◌, Bool, true, false, ◌&&◌, ◌||◌,
  Option, none, some, List, [], ◌∷◌, ◌++◌, ltb, leb, ◌==◌, if◌then◌else◌,
}
use e3on_canserver.Base.Int.{ℤ, pos, negsuc}
use e3on_canserver.Base.Dict.{insert}
use e3on_canserver.Isotp.{Bytes}
use e3on_canserver.Datastore.{DatapointStore}

abbrev pub Text : Type 0
Text = List ℕ

abbrev pub hash_sign : ℕ
hash_sign = 0x23

abbrev pub underscore : ℕ
underscore = 0x5f

-- `str.isspace` of an ASCII character.
unfoldable pub is_space : ℕ → Bool
is_space c = (leb 9 c && leb c 13) || (leb 28 c && leb c 32)

-- `str.strip`
unfoldable pub lstrip : Text → Text
lstrip [] = []
lstrip (c ∷ cs) = let rest = lstrip cs in if is_space c then rest else c ∷ cs

abbrev pub rstrip_step : ℕ → Text → Text
rstrip_step c [] = if is_space c then [] else c ∷ []
rstrip_step c (d ∷ ds) = c ∷ d ∷ ds

unfoldable pub rstrip : Text → Text
rstrip [] = []
rstrip (c ∷ cs) = rstrip_step c (rstrip cs)

unfoldable pub strip : Text → Text
unfolding lstrip rstrip
strip raw = rstrip (lstrip raw)

-- The white space that `int` and `float` pass over around a number in ASCII, less than `str.strip`.
unfoldable pub is_number_space : ℕ → Bool
is_number_space c = (leb 9 c && leb c 13) || (c == 32)

abbrev pub trim_left : Text → Text
trim_left [] = []
trim_left (c ∷ cs) = let rest = trim_left cs in if is_number_space c then rest else c ∷ cs

abbrev pub trim_right_step : ℕ → Text → Text
trim_right_step c [] = if is_number_space c then [] else c ∷ []
trim_right_step c (d ∷ ds) = c ∷ d ∷ ds

abbrev pub trim_right : Text → Text
trim_right [] = []
trim_right (c ∷ cs) = trim_right_step c (trim_right cs)

unfoldable pub trim : Text → Text
unfolding is_number_space
trim t = trim_right (trim_left t)

-- `str.split()`: the words between runs of white space; `word` is the one being read.
abbrev pub end_word : Text → List Text → List Text
end_word [] ws = ws
end_word (c ∷ cs) ws = (c ∷ cs) ∷ ws

unfoldable pub split_words : Text → Text → List Text
split_words word [] = end_word word []
split_words word (c ∷ cs) =
    let fresh = split_words [] cs in
    let longer = split_words (word ++ (c ∷ [])) cs in
    if is_space c then end_word word fresh else longer

-- The value of a digit of any base up to 36; 99 for what is none.
unfoldable pub digit_value : ℕ → ℕ
digit_value c =
    if leb 48 c && leb c 57
    then c - 48
    else if leb 97 c && leb c 122
    then c - 87
    else if leb 65 c && leb c 90
    then c - 55
    else 99

-- The digits of `int(s, base)`, with single underscores between them; `after` tells whether the
-- character before was a digit.
unfoldable pub int_digits : ℕ → ℕ → Bool → Text → Result ℕ
unfolding digit_value
int_digits base acc after [] = if after then ok acc else err value_error
int_digits base acc after (c ∷ cs) =
    let more = int_digits base (acc * base + digit_value c) true cs in
    let skip = int_digits base acc false cs in
    if ltb (digit_value c) base
    then more
    else if (c == underscore) && after
    then skip
    else err value_error

-- An underscore may follow the prefix.
abbrev pub behind_prefix : Text → Text
behind_prefix [] = []
behind_prefix (c ∷ cs) = if c == underscore then cs else c ∷ cs

-- In base 16 the digits may have the prefix 0x or 0X.
unfoldable pub int_unsigned : ℕ → Text → Result ℕ
unfolding int_digits
int_unsigned base (z ∷ x ∷ cs) =
    if (base == 16) && ((z == 0x30) && ((x == 0x78) || (x == 0x58)))
    then int_digits base 0 false (behind_prefix cs)
    else int_digits base 0 false (z ∷ x ∷ cs)
int_unsigned base s = int_digits base 0 false s

abbrev pub negate : ℕ → ℤ
negate zero = pos zero
negate (suc n) = negsuc n

-- `int(s, base)` of a word.
unfoldable pub int_of : ℕ → Text → Result ℤ
unfolding int_unsigned
int_of base [] = err value_error
int_of base (c ∷ cs) =
    if c == 0x2d
    then (do n ← int_unsigned base cs; ok (negate n))
    else if c == 0x2b
    then (do n ← int_unsigned base cs; ok (pos n))
    else (do n ← int_unsigned base (c ∷ cs); ok (pos n))

-- An element of `bytes(…)`, which refuses what is below 0 or above 255.
unfoldable pub as_byte : ℤ → Result ℕ
as_byte (pos n) = if ltb n 256 then ok n else err value_error
as_byte (negsuc n) = err value_error

unfoldable pub hex_bytes : List Text → Result Bytes
unfolding int_of as_byte
hex_bytes [] = ok []
hex_bytes (w ∷ ws) = do n ← int_of 16 w; b ← as_byte n; bs ← hex_bytes ws; ok (b ∷ bs)

-- Two characters at a time; an odd one at the end is left out.
unfoldable pub pairs : Text → List Text
pairs (a ∷ b ∷ cs) = (a ∷ b ∷ []) ∷ pairs cs
pairs _ = []

-- `dataStr` for the words behind the identifier.
unfoldable pub data_words : List Text → List Text
unfolding pairs
data_words [] = []
data_words (w ∷ []) = pairs w
data_words (w ∷ v ∷ ws) = w ∷ v ∷ ws

unfoldable pub parse_parts : List Text → Result (Option (ℤ × Bytes))
unfolding data_words hex_bytes
parse_parts [] = err value_error
parse_parts (w ∷ ws) = do
  did ← int_of 10 w
  value ← hex_bytes (data_words ws)
  ok (some (did, value))

-- The body of the loop up to the assignment; `none` for an empty line or a comment.
unfoldable pub parse_line : Text → Result (Option (ℤ × Bytes))
unfolding strip split_words parse_parts
parse_line raw = elim (strip raw) [
  | [] ↦ ok none
  | c ∷ cs ↦ if c == hash_sign then ok none else parse_parts (split_words [] (c ∷ cs))
]

-- `store._data[did] = data`. A negative identifier, which no request can name, is left out.
unfoldable pub add_row : DatapointStore → Option (ℤ × Bytes) → DatapointStore
unfolding insert
add_row s none = s
add_row s (some (pos did, value)) = record s { table = insert did value s.table }
add_row s (some (negsuc n, value)) = s

unfoldable pub load_lines : DatapointStore → List Text → Result DatapointStore
unfolding parse_line add_row
load_lines s [] = ok s
load_lines s (raw ∷ raws) = do row ← parse_line raw; load_lines (add_row s row) raws

unfoldable pub from_file : List Text → Result DatapointStore
unfolding load_lines
from_file raws = load_lines (record { table = []; resolvers = [] }) raws
