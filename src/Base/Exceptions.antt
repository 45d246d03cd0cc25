-- ===== src/Base/Exceptions.antt =====
-- A Python function that may raise returns a `Result`.
use mathlib.Core.Path.{◌≡◌, refl, subst}
use mathlib.Core.Bool.{Bool, true, false}
use e3on_canserver.Base.Tests.{if◌then◌else◌}
use mathlib.Core.Logic.{◌⊎◌, inl, inr}

-- The exceptions that the modelled code raises or meets.
pub data Exc : Type 0 where
  value_error index_error assertion_error incomplete_read key_error : Exc
  file_not_found os_error type_error attribute_error overflow_error : Exc

pub data Result {ℓ} (A : Type ℓ) : Type ℓ where
  ok : A → Result A
  err : Exc → Result A

infixl 5 ◌>>=◌
abbrev pub ◌>>=◌ {ℓ κ} : {A : Type ℓ} {B : Type κ} → Result A → (A → Result B) → Result B
ok a >>= f = f a
err e >>= f = err e

pub Result-cases {ℓ} :
    {A : Type ℓ} (r : Result A) → ((a : A) × (r ≡ ok a)) ⊎ ((e : Exc) × (r ≡ err e))
Result-cases (ok a) = inl (a, refl)
Result-cases (err e) = inr (e, refl)

-- What a call promises of the value that it returns, if it returns.
abbrev pub Ensures {ℓ κ} : {A : Type ℓ} → (A → Type κ) → Result A → Type κ
Ensures P (ok a) = P a
Ensures P (err e) = Unit

pub Ensures-ok {ℓ κ} :
    {A : Type ℓ} (P : A → Type κ) {r : Result A} {a : A} → Ensures P r → r ≡ ok a → P a
Ensures-ok P h e = subst (Ensures P) e h

-- Each branch may use its test.
pub Ensures-if {ℓ κ} :
    {A : Type ℓ} (P : A → Type κ) (c : Bool) (m n : Result A)
    → (c ≡ true → Ensures P m)
    → (c ≡ false → Ensures P n)
    → Ensures P (if c then m else n)
Ensures-if P true m n hm hn = hm refl
Ensures-if P false m n hm hn = hn refl

pub Ensures-bind {ℓ κ} :
    {A B : Type ℓ} (P : A → Type κ) (Q : B → Type κ) (m : Result A) (f : A → Result B)
    → Ensures P m
    → ((a : A) → P a → Ensures Q (f a))
    → Ensures Q (m >>= f)
Ensures-bind P Q (ok a) f h k = k a h
Ensures-bind P Q (err e) f h k = tt

-- A step whose value does not matter.
pub Ensures-then {ℓ κ} :
    {A B : Type ℓ} (Q : B → Type κ) (m : Result A) (f : A → Result B)
    → ((a : A) → Ensures Q (f a))
    → Ensures Q (m >>= f)
Ensures-then Q (ok a) f k = k a
Ensures-then Q (err e) f k = tt

-- A function applied to the value, if there is one.
abbrev pub map_result {ℓ κ} : {A : Type ℓ} {B : Type κ} → (A → B) → Result A → Result B
map_result f (ok a) = ok (f a)
map_result f (err e) = err e

pub map_result-bind {ℓ κ μ} :
    {A : Type ℓ} {B : Type κ} {C : Type μ} (f : B → C) (m : Result A) (g : A → Result B)
    (h : A → Result C)
    → ((a : A) → map_result f (g a) ≡ h a)
    → map_result f (m >>= g) ≡ (m >>= h)
map_result-bind f (ok a) g h k = k a
map_result-bind f (err e) g h k = refl
