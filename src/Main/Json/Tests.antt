-- ===== src/Main/Json/Tests.antt =====
-- The values of a configuration read at concrete inputs.
use e3on_canserver.Base.{
  value_error, key_error, attribute_error, overflow_error, ok, err, ◌+◌, ◌-◌, ◌/◌, ◌≡◌, refl, true,
  false, [], ◌∷◌,
}
use e3on_canserver.Base.Int.{negsuc}
use e3on_canserver.Datastore.File.{is_number_space}
use e3on_canserver.Faults.Config.{one_float}
use e3on_canserver.Main.Json.{
  null, infinite, real, text, array, object, nil, field, end, subscript, get, iterate, int_10,
  inf_text, infinity_text, nan_text, is_float, float_check,
}

-- "1_0.5e-3", "1__0", " 1e3" and "infinity"
joined_float : is_float (49 ∷ 95 ∷ 48 ∷ 46 ∷ 53 ∷ 101 ∷ 45 ∷ 51 ∷ []) ≡ true
unfolding is_float
joined_float = refl

double_joint : is_float (49 ∷ 95 ∷ 95 ∷ 48 ∷ []) ≡ false
unfolding is_float
double_joint = refl

spaced_float : float_check (text (32 ∷ 49 ∷ 101 ∷ 51 ∷ [])) ≡ ok (text (32 ∷ 49 ∷ 101 ∷ 51 ∷ []))
unfolding float_check is_number_space
spaced_float = refl

signed_infinity : is_float (45 ∷ infinity_text) ≡ true
unfolding is_float
signed_infinity = refl

no_float : float_check (text (46 ∷ [])) ≡ err value_error
unfolding float_check is_number_space
no_float = refl

-- -1.5 is -1, and infinity no integer.
truncated_float : int_10 (real (negsuc (one_float + one_float / 2 - 1))) ≡ ok (negsuc 0)
unfolding int_10 one_float
truncated_float = refl

infinite_integer : int_10 infinite ≡ err overflow_error
unfolding int_10
infinite_integer = refl

absent_key : subscript (object (field nan_text null end)) inf_text ≡ err key_error
unfolding subscript
absent_key = refl

no_dict : get (array nil) inf_text ≡ err attribute_error
unfolding get
no_dict = refl

looped_text : iterate (text (49 ∷ 50 ∷ [])) ≡ ok (text (49 ∷ []) ∷ text (50 ∷ []) ∷ [])
unfolding iterate
looped_text = refl

-- What `str.strip` removes is more than what `int` passes over.
other_space : int_10 (text (28 ∷ 49 ∷ [])) ≡ err value_error
unfolding int_10 is_number_space
other_space = refl
