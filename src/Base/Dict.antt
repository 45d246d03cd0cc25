-- ===== src/Base/Dict.antt =====
-- Python's `dict` with integer keys: the list of its entries in insertion order, one for each key.
use mathlib.Core.Path.{◌≡◌, refl, subst}
use mathlib.Core.Logic.{◌≢◌, inl, inr}
use mathlib.Core.Bool.{Bool, true, false}
use mathlib.Core.Option.{Option, none, some}
use mathlib.Core.List.{List, [], ◌∷◌, map}
use Prim.Native.Nat.{ℕ}
use native.Mathlib.Omega.{arith}
use e3on_canserver.Base.Tests.{◌==◌, if◌then◌else◌, Bool-cases}
use e3on_canserver.Base.Lists.{All}

abbrev pub Dict {ℓ} : Type ℓ → Type ℓ
Dict V = List (ℕ × V)

module _ {ℓ} {V : Type ℓ} where
  -- `d.get(key)`
  unfoldable pub lookup : ℕ → Dict V → Option V
  lookup key [] = none
  lookup key ((k, v) ∷ d) = if k == key then some v else lookup key d

  -- `d[key] = value`: a known key keeps its place, a new one comes last.
  unfoldable pub insert : ℕ → V → Dict V → Dict V
  insert key value [] = (key, value) ∷ []
  insert key value ((k, v) ∷ d) = if k == key then (k, value) ∷ d else (k, v) ∷ insert key value d

  abbrev pub keys : Dict V → List ℕ
  keys = map (λ e. e.0)

  abbrev pub is_some : Option V → Bool
  is_some none = false
  is_some (some v) = true

module _ {ℓ} {V : Type ℓ} where
  pub lookup-insert :
      (k j : ℕ) (v : V) (d : Dict V)
      → lookup j (insert k v d) ≡ (if k == j then some v else lookup j d)
  unfolding lookup insert
  lookup-insert k j v [] = refl
  lookup-insert k j v ((i, w) ∷ d) = ground (arith, lookup-insert k j v d)

  -- A write to a known key adds no key.
  pub keys-insert : (k : ℕ) (v : V) (d : Dict V) → lookup k d ≢ none → keys (insert k v d) ≡ keys d
  unfolding lookup insert
  keys-insert k v [] h = absurd (h refl)
  keys-insert k v ((i, w) ∷ d) h = ground (arith, keys-insert k v d)

module _ {ℓ κ} {V : Type ℓ} (P : V → Type κ) where
  -- Every value has the property.
  abbrev pub AllValues : Dict V → Type κ
  AllValues = All (λ e. P e.1)

  abbrev IsValue : Option V → Type κ
  IsValue none = Unit
  IsValue (some v) = P v

  pub insert-AllValues : (k : ℕ) (v : V) (d : Dict V) → P v → AllValues d → AllValues (insert k v d)
  unfolding insert
  insert-AllValues k v [] h a = (h, tt)
  insert-AllValues k v ((i, w) ∷ d) h a = elim (Bool-cases (i == k)) [
    | inl same ↦ rw same (h, a.1)
    | inr other ↦ rw other (a.0, insert-AllValues k v d h a.1)
  ]

  pub lookup-AllValues : (k : ℕ) (d : Dict V) (v : V) → AllValues d → lookup k d ≡ some v → P v
  unfolding lookup
  lookup-AllValues k [] v a e = cc
  lookup-AllValues k ((i, w) ∷ d) v a e = elim (Bool-cases (i == k)) [
    | inl same ↦ let here : some w ≡ some v = rw same at e in subst IsValue here a.0
    | inr other ↦ lookup-AllValues k d v a.1 (rw other at e)
  ]
