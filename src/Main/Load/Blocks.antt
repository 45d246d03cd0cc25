-- ===== src/Main/Load/Blocks.antt =====
-- What the "cyclic" blocks of a configuration can change when main.py loads it.
use e3on_canserver.Base.{
  Exc, value_error, key_error, Result, ok, err, ◌>>=◌, Result-cases, map_result, ◌≡◌, ◌≢◌, refl,
  ◌∙◌, sym, ap, subst, ◌⊎◌, inl, inr, Bool, true, false, Option, none, some, List, [], ◌∷◌, map,
  Bool-cases,
}
use e3on_canserver.Base.Int.{ℤ}
use e3on_canserver.Datastore.File.{Text, from_file}
use e3on_canserver.Cyclic.Config.{same_text}
use e3on_canserver.Main.Json.{Json, array, nil, iterate, int_16, ints}
use e3on_canserver.Main.Load.{
  required, RawEntry, or_default, TaskOf, json_cyclic_task, caught, attach_cyclic, values_path,
  path_text, Loaded, energy_meter_key, load_entry, load_config,
}

-- A configuration whose devices have no "cyclic" blocks.
abbrev pub without_blocks : List (Text × RawEntry) → List (Text × RawEntry)
without_blocks [] = []
without_blocks ((name, e) ∷ items) = (name, record e { raw_cyclic = none }) ∷ without_blocks items

abbrev pub without_task : Loaded → Loaded
without_task l = record l { cyclic_task = none }

-- Neither a KeyError nor a ValueError.
abbrev pub IsOther : Exc → Type 0
IsOther x = (x ≢ key_error) × (x ≢ value_error)

-- Building the task of the block raises another exception.
abbrev pub BlockRaises : Option Json → Exc → Type 0
BlockRaises o x = (block : Json) × (o ≡ some block) × (json_cyclic_task block ≡ err x) × IsOther x

-- The block of some device does.
pub data SomeBlockRaises : List (Text × RawEntry) → Exc → Type 0 where
  here :
      {name : Text} {e : RawEntry} {items : List (Text × RawEntry)} {x : Exc}
      → same_text name energy_meter_key ≡ false
      → BlockRaises e.raw_cyclic x
      → SomeBlockRaises ((name, e) ∷ items) x
  later :
      {item : Text × RawEntry} {items : List (Text × RawEntry)} {x : Exc}
      → SomeBlockRaises items x
      → SomeBlockRaises (item ∷ items) x

abbrev IsTrue : Bool → Type 0
IsTrue true = Unit
IsTrue false = ⊥

uncaught-IsOther : {x : Exc} → caught x ≡ false → IsOther x
uncaught-IsOther u =
    (λ k. subst IsTrue (sym (ap caught k) ∙ u) tt, λ v. subst IsTrue (sym (ap caught v) ∙ u) tt)

attach_cyclic-cases :
    (o : Option Json)
    → ((t : Option TaskOf) × (attach_cyclic o ≡ ok t))
      ⊎ ((x : Exc) × (attach_cyclic o ≡ err x) × BlockRaises o x)
unfolding attach_cyclic
attach_cyclic-cases none = inl (none, refl)
attach_cyclic-cases (some block) = elim (Result-cases (json_cyclic_task block)) [
  | inl (t, e) ↦ inl (t, rw (e, attach_cyclic) refl)
  | inr (x, e) ↦ elim (Bool-cases (caught x)) [
    | inl c ↦ inl (none, rw (e, attach_cyclic, c) refl)
    | inr u ↦ inr (x, rw (e, attach_cyclic, u) refl, (block, refl, e, uncaught-IsOther u))
  ]
]

-- Behind the same call, the rest agrees, or has the property R.
behind {ℓ κ μ ν} :
    {A : Type ℓ} {B : Type κ} {C : Type μ} (f : B → C) (R : Result B → Type ν) (m : Result A)
    (g : A → Result B) (h : A → Result C)
    → ((a : A) → (map_result f (g a) ≡ h a) ⊎ R (g a))
    → (map_result f (m >>= g) ≡ (m >>= h)) ⊎ R (m >>= g)
behind f R (ok a) g h k = k a
behind f R (err e) g h k = inl refl

-- A result that is the exception of the block.
abbrev IsRaised {ℓ} : {A : Type ℓ} → Option Json → Result A → Type ℓ
IsRaised o r = (x : Exc) × BlockRaises o x × (r ≡ err x)

-- Where the first entry agrees with itself without its block, the rest decides.
with_rest {ℓ κ} :
    {R : Exc → Type ℓ} {S : Exc → Type κ} (in_rest : (x : Exc) → R x → S x) (m : Result Loaded)
    {m' : Result Loaded}
    → map_result without_task m ≡ m'
    → (n : Result (List Loaded)) {n' : Result (List Loaded)}
    → (map_result (map without_task) n ≡ n') ⊎ ((x : Exc) × R x × (n ≡ err x))
    → (map_result (map without_task) (m >>= λ l. n >>= λ ls. ok (l ∷ ls))
        ≡ (m' >>= λ l. n' >>= λ ls. ok (l ∷ ls)))
      ⊎ ((x : Exc) × S x × ((m >>= λ l. n >>= λ ls. ok (l ∷ ls)) ≡ err x))
with_rest in_rest (err e) same n rest = inl (rw (sym same) refl)
with_rest in_rest (ok l) same (ok ls) (inl rest) = inl (rw (sym same, sym rest) refl)
with_rest in_rest (ok l) same (err e) (inl rest) = inl (rw (sym same, sym rest) refl)
with_rest in_rest (ok l) same n (inr (x, r, raised)) = inr (x, in_rest x r, rw raised refl)

module _ (files : Text → Result (List Text)) (cd ce : ℤ) where
  load_entry-without_block :
      (e : RawEntry)
      → (map_result without_task (load_entry files cd ce e)
          ≡ load_entry files cd ce (record e { raw_cyclic = none }))
        ⊎ IsRaised e.raw_cyclic (load_entry files cd ce e)
  unfolding load_entry attach_cyclic
  load_entry-without_block e =
      behind without_task (IsRaised e.raw_cyclic) (required e.raw_tx) _ _ (λ tx.
        behind without_task (IsRaised e.raw_cyclic) (int_16 tx) _ _ (λ tx_id.
          behind without_task (IsRaised e.raw_cyclic) (required e.dp_list) _ _ (λ dp_path.
            behind without_task (IsRaised e.raw_cyclic) (path_text dp_path) _ _ (λ path.
              behind without_task (IsRaised e.raw_cyclic)
                (iterate (or_default e.raw_service77 (array nil))) _ _
                (λ listed. behind without_task (IsRaised e.raw_cyclic) (ints listed) _ _ (λ dids.
                  behind without_task (IsRaised e.raw_cyclic) (files (values_path path)) _ _
                    (λ lines.
                      behind without_task (IsRaised e.raw_cyclic) (from_file lines) _ _ (λ store.
                        elim (attach_cyclic-cases e.raw_cyclic) [
                          | inl (t, a) ↦ inl (rw a refl)
                          | inr (x, a, raises) ↦ inr (x, raises, rw a refl)
                        ]))))))))

  -- For any value files and any configuration, with finite numbers for "delay" and "errors", one of
  -- two holds. Either it loads as without its "cyclic" blocks, with the same devices but for their
  -- cyclic tasks, or with the same exception. Or building the task of some device's block raises an
  -- exception that is neither a KeyError nor a ValueError, and loading raises this exception.
  pub load_config-without_blocks :
      (items : List (Text × RawEntry))
      → (map_result (map without_task) (load_config files cd ce items)
          ≡ load_config files cd ce (without_blocks items))
        ⊎ ((x : Exc) × SomeBlockRaises items x × (load_config files cd ce items ≡ err x))
  unfolding load_config
  load_config-without_blocks [] = inl refl
  load_config-without_blocks ((name, e) ∷ items) =
      elim (Bool-cases (same_text name energy_meter_key)) [
        | inl meter ↦ elim (load_config-without_blocks items) [
          | inl same ↦ inl (rw meter same)
          | inr (x, raises, raised) ↦ inr (x, later raises, rw meter raised)
        ]
        | inr device ↦ elim (load_entry-without_block e) [
          | inl same ↦
              rw device (with_rest (λ x. later) _ same _ (load_config-without_blocks items))
          | inr (x, raises, raised) ↦ inr (x, here device raises, rw (device, raised) refl)
        ]
      ]
