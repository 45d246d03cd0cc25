-- ===== src/Main/Json.antt =====
-- The values that `json.load` gives main.py, and what Python's subscript, `get`, `int`, `float` and
-- iteration make of them, errors included. Texts are lists of ASCII codes; a finite float is the
-- integer multiple of 2 ^ -1074 that it is, and the sign of an infinity is not kept.
mod Tests
use e3on_canserver.Base.{
  ◌>>=◌, value_error, key_error, type_error, attribute_error, overflow_error, Result, ok, err, ℕ,
  zero, ◌+◌, ◌-◌, ◌/◌, ◌^◌, Bool, true, false, ◌&&◌, ◌||◌, not, Option, none, some, List, [], ◌∷◌,
  leb, ◌==◌, if◌then◌else◌,
}
use e3on_canserver.Base.Int.{ℤ, pos, negsuc}
use e3on_canserver.Datastore.File.{Text, underscore, trim, negate, int_of}
use e3on_canserver.Faults.Config.{one_float}
use e3on_canserver.Cyclic.Config.{lower, same_text}

mutual
  pub data Json : Type 0 where
    null infinite not_a_number : Json
    boolean : Bool → Json
    whole real : ℤ → Json
    text : Text → Json
    array : Items → Json
    object : Fields → Json

  pub data Items : Type 0 where
    nil : Items
    item : Json → Items → Items

  pub data Fields : Type 0 where
    end : Fields
    field : Text → Json → Fields → Fields

-- The keys of a `dict` differ, so the first field with a key is the only one.
unfoldable pub find_field : Text → Fields → Option Json
unfolding same_text
find_field key end = none
find_field key (field k j fields) =
    let rest = find_field key fields in if same_text k key then some j else rest

-- `d[key]` with a text for a key, which only a `dict` takes.
unfoldable pub subscript : Json → Text → Result Json
unfolding find_field
subscript (object fields) key = elim (find_field key fields) [
  | none ↦ err key_error
  | some j ↦ ok j
]
subscript _ key = err type_error

-- `d.get(key)`, a method of a `dict` alone; `none` where the default is taken.
unfoldable pub get : Json → Text → Result (Option Json)
unfolding find_field
get (object fields) key = ok (find_field key fields)
get _ key = err attribute_error

-- A method of `str`.
unfoldable pub text_method : Json → Result Text
text_method (text t) = ok t
text_method _ = err attribute_error

-- `not j`
unfoldable pub is_falsy : Json → Bool
is_falsy null = true
is_falsy (boolean b) = not b
is_falsy (whole (pos zero)) = true
is_falsy (real (pos zero)) = true
is_falsy (text []) = true
is_falsy (array nil) = true
is_falsy (object end) = true
is_falsy _ = false

-- `for x in j`: the elements, the characters, or the keys.
abbrev pub elements : Items → List Json
elements nil = []
elements (item j items) = j ∷ elements items

abbrev pub characters : Text → List Json
characters [] = []
characters (c ∷ cs) = text (c ∷ []) ∷ characters cs

abbrev pub keys_of : Fields → List Json
keys_of end = []
keys_of (field k j fields) = text k ∷ keys_of fields

unfoldable pub iterate : Json → Result (List Json)
iterate (array items) = ok (elements items)
iterate (text t) = ok (characters t)
iterate (object fields) = ok (keys_of fields)
iterate _ = err type_error

-- `int(j, 16)`
unfoldable pub int_16 : Json → Result ℤ
unfolding int_of trim
int_16 (text t) = int_of 16 (trim t)
int_16 _ = err type_error

-- A float without its fraction.
unfoldable pub truncated : ℤ → ℤ
unfolding one_float
truncated (pos n) = pos (n / one_float)
truncated (negsuc n) = negate ((n + 1) / one_float)

-- `int(j)`
unfoldable pub int_10 : Json → Result ℤ
unfolding int_of trim truncated
int_10 (text t) = int_of 10 (trim t)
int_10 (whole z) = ok z
int_10 (real z) = ok (truncated z)
int_10 (boolean b) = ok (pos (if b then 1 else 0))
int_10 infinite = err overflow_error
int_10 not_a_number = err value_error
int_10 _ = err type_error

-- `[int(j) for j in js]`
unfoldable pub ints : List Json → Result (List ℤ)
unfolding int_10
ints [] = ok []
ints (j ∷ js) = do z ← int_10 j; zs ← ints js; ok (z ∷ zs)

-- Where a scan of a decimal number stands: before it, in its digits, behind a single underscore
-- between digits, and so on for the fraction and the exponent.
pub data FloatState : Type 0 where
  start digits digits_joint bare_point behind_point fraction fraction_joint : FloatState
  exponent_mark exponent_sign exponent exponent_joint : FloatState

abbrev pub is_digit : ℕ → Bool
is_digit c = leb 48 c && leb c 57

abbrev pub is_exponent_mark : ℕ → Bool
is_exponent_mark c = (c == 101) || (c == 69)

abbrev pub is_sign : ℕ → Bool
is_sign c = (c == 43) || (c == 45)

-- Behind a digit: another one, an underscore, or what else the part allows.
abbrev pub behind_digit : FloatState → FloatState → ℕ → Option FloatState → Option FloatState
behind_digit here joint c other =
    if is_digit c then some here else if c == underscore then some joint else other

abbrev pub digit_only : FloatState → ℕ → Option FloatState
digit_only here c = if is_digit c then some here else none

abbrev pub mark : ℕ → Option FloatState
mark c = if is_exponent_mark c then some exponent_mark else none

unfoldable pub float_step : FloatState → ℕ → Option FloatState
float_step start c = if is_digit c then some digits else if c == 46 then some bare_point else none
float_step digits c =
    behind_digit digits digits_joint c (if c == 46 then some behind_point else mark c)
float_step digits_joint c = digit_only digits c
float_step bare_point c = digit_only fraction c
float_step behind_point c = if is_digit c then some fraction else mark c
float_step fraction c = behind_digit fraction fraction_joint c (mark c)
float_step fraction_joint c = digit_only fraction c
float_step exponent_mark c = if is_sign c then some exponent_sign else digit_only exponent c
float_step exponent_sign c = digit_only exponent c
float_step exponent c = behind_digit exponent exponent_joint c none
float_step exponent_joint c = digit_only exponent c

abbrev pub is_complete : FloatState → Bool
is_complete digits = true
is_complete behind_point = true
is_complete fraction = true
is_complete exponent = true
is_complete _ = false

unfoldable pub float_scan : FloatState → Text → Bool
unfolding float_step
float_scan st [] = is_complete st
float_scan st (c ∷ cs) = elim (float_step st c) [ none ↦ false | some st' ↦ float_scan st' cs ]

-- "inf", "infinity" and "nan"
abbrev pub inf_text : Text
inf_text = 105 ∷ 110 ∷ 102 ∷ []

abbrev pub infinity_text : Text
infinity_text = 105 ∷ 110 ∷ 102 ∷ 105 ∷ 110 ∷ 105 ∷ 116 ∷ 121 ∷ []

abbrev pub nan_text : Text
nan_text = 110 ∷ 97 ∷ 110 ∷ []

unfoldable pub is_unsigned_float : Text → Bool
unfolding float_scan same_text lower
is_unsigned_float t =
    float_scan start t
    || same_text (lower t) inf_text
    || same_text (lower t) infinity_text
    || same_text (lower t) nan_text

-- Whether `float(t)` takes a text without white space around it.
unfoldable pub is_float : Text → Bool
unfolding is_unsigned_float
is_float [] = false
is_float (c ∷ cs) = if is_sign c then is_unsigned_float cs else is_unsigned_float (c ∷ cs)

abbrev pub magnitude : ℤ → ℕ
magnitude (pos n) = n
magnitude (negsuc n) = n + 1

-- From here on an integer is rounded to no finite float.
abbrev pub float_limit : ℕ
float_limit = 2 ^ 1024 - 2 ^ 970

-- `float(j)`, of which only whether it raises is kept.
unfoldable pub float_check : Json → Result Json
unfolding is_float trim
float_check (text t) = if is_float (trim t) then ok (text t) else err value_error
float_check (whole z) = if leb float_limit (magnitude z) then err overflow_error else ok (whole z)
float_check null = err type_error
float_check (array items) = err type_error
float_check (object fields) = err type_error
float_check j = ok j
