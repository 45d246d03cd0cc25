-- ===== src/Ecu/Documented.antt =====
-- The Service 77 request as docs/protocols.md describes it, with all three forms of the value, and
-- the handler of simulator/protocol/service77.py held against it.
use mathlib.Core.Option
use e3on_canserver.Base.{
  ℕ, ◌%◌, ◌<◌, ◌≢◌, ◌⊎◌, ◌&&◌, Option, none, some, [], ◌∷◌, ltb, leb, ◌==◌, if◌then◌else◌, length,
}
use e3on_canserver.Isotp.{Bytes}
use e3on_canserver.Uds.Replies.{did_of}
use e3on_canserver.Ecu.{Request, unheard, too_short, write_service77}

-- A length code with a low nibble of 0: the next byte is the length, of 16 bytes or more.
unfoldable pub long_value : Bytes → Option Bytes
long_value [] = none
long_value (n ∷ value) = if (n == length value) && leb 16 n then some value else none

-- The value of byte 8, `b`, and the bytes behind it; `none` where the documents give no meaning.
unfoldable pub documented_value : ℕ → Bytes → Option Bytes
unfolding long_value
documented_value b bs =
    if ltb b 0x80
    then some (b ∷ bs)
    else if b % 16 == 0
    then long_value bs
    else if length bs == b % 16
    then some bs
    else none

-- What a payload asks for, with nothing asked by an empty one or by another service.
unfoldable pub documented_fields : Bytes → Option Request
unfolding documented_value
documented_fields (c1 ∷ c2 ∷ k1 ∷ k2 ∷ k3 ∷ lo ∷ hi ∷ b ∷ bs) =
    Option.map (write_service77 c1 c2 (did_of hi lo)) (documented_value b bs)
documented_fields _ = some (too_short 0x77)

unfoldable pub documented_request : Bytes → Option Request
unfolding documented_fields
documented_request [] = some unheard
documented_request (sid ∷ rest) = if sid == 0x77 then documented_fields rest else some unheard

-- Byte 8, if there is one, is no length code with a low nibble of 0.
abbrev pub IsShortForm : Bytes → Type 0
IsShortForm (sid ∷ c1 ∷ c2 ∷ k1 ∷ k2 ∷ k3 ∷ lo ∷ hi ∷ b ∷ bs) = (b < 0x80) ⊎ (b % 16 ≢ 0)
IsShortForm _ = Unit

abbrev asked : Option Request → Request
asked none = unheard
asked (some r) = r

abbrev bytes_in : Option Bytes → Bytes
bytes_in none = []
bytes_in (some v) = v
