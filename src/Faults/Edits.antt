-- ===== src/Faults/Edits.antt =====
-- The faults of simulator/faults.py on Consecutive Frames as edits of the frame list: each keeps
-- the First Frame and the first `k` Consecutive Frames, and goes on differently.
-- The list edits of the faults at an index behind the first element.
use e3on_canserver.Base.{
  ok, ℕ, zero, suc, ◌+◌, ◌-◌, ◌≤◌, ◌<◌, bit_and, bit_or, ◌≡◌, ap, some, List, [], ◌∷◌, ◌++◌,
  append-nil, arith, ltb-false, length, get_elem?, set, take, drop,
}
use e3on_canserver.Isotp.{Bytes}
use e3on_canserver.Faults.{
  frame_at, set_at, random_cf, apply_drop_random_cf, apply_drop_last_cf, apply_wrong_seq,
  apply_duplicate_cf,
}
use e3on_canserver.Faults.Shape.{random_cf_bounds}

module _ {ℓ} {A : Type ℓ} where
  pub drop_next : (k : ℕ) (xs cs : List A) (c : A) → drop k xs ≡ c ∷ cs → drop (suc k) xs ≡ cs
  drop_next zero [] cs c e = cc e
  drop_next zero (x ∷ xs) cs c e = ap (drop 1) e
  drop_next (suc k) [] cs c e = cc e
  drop_next (suc k) (x ∷ xs) cs c e = drop_next k xs cs c e

  get-drop : (k : ℕ) (xs cs : List A) (c : A) → drop k xs ≡ c ∷ cs → get_elem? xs k ≡ some c
  get-drop zero [] cs c e = cc e
  get-drop zero (x ∷ xs) cs c e = cc e
  get-drop (suc k) [] cs c e = cc e
  get-drop (suc k) (x ∷ xs) cs c e = get-drop k xs cs c e

  set-drop :
      (k : ℕ) (xs cs : List A) (c g : A) → drop k xs ≡ c ∷ cs → set xs k g ≡ take k xs ++ (g ∷ cs)
  set-drop zero [] cs c g e = cc e
  set-drop zero (x ∷ xs) cs c g e = ap (λ ys. g ∷ drop 1 ys) e
  set-drop (suc k) [] cs c g e = cc e
  set-drop (suc k) (x ∷ xs) cs c g e = ap (◌∷◌ x) (set-drop k xs cs c g e)

  take_next :
      (k : ℕ) (xs cs ys : List A) (c : A)
      → drop k xs ≡ c ∷ cs
      → take (suc k) xs ++ ys ≡ take k xs ++ (c ∷ ys)
  take_next zero [] cs ys c e = cc e
  take_next zero (x ∷ xs) cs ys c e = cc e
  take_next (suc k) [] cs ys c e = cc e
  take_next (suc k) (x ∷ xs) cs ys c e = ap (◌∷◌ x) (take_next k xs cs ys c e)

-- The draw chooses the Consecutive Frame `k`, counted from 0.
abbrev pub Chooses : ℕ → Bytes → List Bytes → ℕ → Type 0
Chooses r f cfs k = (k < length cfs) × (random_cf r (f ∷ cfs) ≡ suc k)

pub chosen : (r : ℕ) (f : Bytes) (cfs : List Bytes) → 1 ≤ length cfs → (k : ℕ) × Chooses r f cfs k
chosen r f cfs h =
    let b : (1 ≤ random_cf r (f ∷ cfs)) × (random_cf r (f ∷ cfs) < length (f ∷ cfs)) =
      random_cf_bounds r (f ∷ cfs) (omega arith) in
    (random_cf r (f ∷ cfs) - 1, (omega (arith, b.0, b.1), omega (arith, b.0)))

frame_at-drop :
    (k : ℕ) (f c : Bytes) (cfs cs : List Bytes)
    → drop k cfs ≡ c ∷ cs
    → frame_at (f ∷ cfs) (suc k) ≡ ok c
unfolding frame_at
frame_at-drop k f c cfs cs e = rw (get-drop k cfs cs c e, frame_at)

set_at-first : (orig v : ℕ) (d : Bytes) → set_at (orig ∷ d) 0 v ≡ ok (v ∷ d)
unfolding set_at
set_at-first orig v d = ground arith

pub drop_random_lem :
    (r k : ℕ) (f : Bytes) (cfs : List Bytes)
    → Chooses r f cfs k
    → apply_drop_random_cf r (f ∷ cfs) ≡ ok (f ∷ (take k cfs ++ drop (suc k) cfs))
unfolding apply_drop_random_cf
drop_random_lem r k f cfs (lt, e) =
    let after : random_cf r (f ∷ cfs) + 1 ≡ suc (suc k) = omega (arith, e) in
    rw (ltb-false (length (f ∷ cfs)) 2 (omega arith), after, e)

pub drop_last_lem :
    (f : Bytes) (cfs : List Bytes)
    → 1 ≤ length cfs
    → apply_drop_last_cf (f ∷ cfs) ≡ ok (f ∷ (take (length cfs - 1) cfs ++ []))
unfolding apply_drop_last_cf
drop_last_lem f cfs h =
    let e : length (f ∷ cfs) - 1 ≡ suc (length cfs - 1) = omega arith in
    rw (ltb-false (length (f ∷ cfs)) 2 (omega arith), e, append-nil)

pub wrong_seq_lem :
    (r k orig : ℕ) (f d : Bytes) (cfs cs : List Bytes)
    → Chooses r f cfs k
    → drop k cfs ≡ (orig ∷ d) ∷ cs
    → apply_wrong_seq r (f ∷ cfs)
      ≡ ok (f ∷ (take k cfs ++ ((bit_or 0x20 (bit_and (orig + 1) 0x0f) ∷ d) ∷ cs)))
unfolding apply_wrong_seq
wrong_seq_lem r k orig f d cfs cs (lt, e) at_k = rw (
  ltb-false (length (f ∷ cfs)) 2 (omega arith),
  e,
  frame_at-drop k f (orig ∷ d) cfs cs at_k,
  set_at-first orig _ d,
  set-drop k cfs cs (orig ∷ d) (bit_or 0x20 (bit_and (orig + 1) 0x0f) ∷ d) at_k,
)

pub duplicate_lem :
    (r k : ℕ) (f c : Bytes) (cfs cs : List Bytes)
    → Chooses r f cfs k
    → drop k cfs ≡ c ∷ cs
    → apply_duplicate_cf r (f ∷ cfs) ≡ ok (f ∷ (take k cfs ++ (c ∷ c ∷ cs)))
unfolding apply_duplicate_cf
duplicate_lem r k f c cfs cs (lt, e) at_k =
    let after : random_cf r (f ∷ cfs) + 1 ≡ suc (suc k) = omega (arith, e) in
    rw (
      ltb-false (length (f ∷ cfs)) 2 (omega arith),
      after,
      e,
      frame_at-drop k f c cfs cs at_k,
      drop_next k cfs cs c at_k,
      take_next k cfs cs (c ∷ cs) c at_k,
    )
