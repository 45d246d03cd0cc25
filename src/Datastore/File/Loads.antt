-- ===== src/Datastore/File/Loads.antt =====
-- A whole value file in simulator/datastore.py: the lines are taken in order, the last entry wins.
use e3on_canserver.Base.{
  ok, Result-cases, ℕ, ◌<◌, ◌≡◌, refl, ◌∙◌, inl, inr, Option, none, some, List, [], ◌∷◌, ◌++◌, ◌==◌,
  if◌then◌else◌, All,
}
use e3on_canserver.Base.Int.{ℤ, pos, negsuc}
use e3on_canserver.Base.Dict.{lookup-insert}
use e3on_canserver.Isotp.{Bytes}
use e3on_canserver.Isotp.Robust.{IsByte}
use e3on_canserver.Datastore.{DatapointStore, read}
use e3on_canserver.Datastore.File.{Text, parse_line, add_row, load_lines, from_file}
use e3on_canserver.Datastore.File.Lines.{decimal, decimal_value, hex_text, parse_line-hex}

load_lines-append :
    (s s' : DatapointStore) (raws more : List Text)
    → load_lines s raws ≡ ok s'
    → load_lines s (raws ++ more) ≡ load_lines s' more
unfolding load_lines
load_lines-append s s' [] more e = let same : s ≡ s' = cc e in rw same
load_lines-append s s' (raw ∷ raws) more e = elim (Result-cases (parse_line raw)) [
  | inl (row, r) ↦
      rw (r, load_lines) (load_lines-append (add_row s row) s' raws more (rw (r, load_lines) at e))
  | inr (x, r) ↦ cc (rw (r, load_lines) at e)
]

add_row-resolvers :
    (s : DatapointStore) (row : Option (ℤ × Bytes)) → (add_row s row).resolvers ≡ s.resolvers
unfolding add_row
add_row-resolvers s none = refl
add_row-resolvers s (some (pos did, value)) = refl
add_row-resolvers s (some (negsuc n, value)) = refl

load_lines-resolvers :
    (s s' : DatapointStore) (raws : List Text)
    → load_lines s raws ≡ ok s'
    → s'.resolvers ≡ s.resolvers
unfolding load_lines
load_lines-resolvers s s' [] e = let same : s ≡ s' = cc e in rw same
load_lines-resolvers s s' (raw ∷ raws) e = elim (Result-cases (parse_line raw)) [
  | inl (row, r) ↦
      load_lines-resolvers (add_row s row) s' raws (rw (r, load_lines) at e)
      ∙ add_row-resolvers s row
  | inr (x, r) ↦ cc (rw (r, load_lines) at e)
]

-- One more entry at the end of a file that loads, a decimal identifier and at least one byte in
-- undelimited hexadecimal digits, gives a store that loads too: it answers the entry's bytes for
-- the entry's identifier, and for every other one what the store of the shorter file answers.
pub read_last_line :
    (raws : List Text) (s : DatapointStore) (d b : ℕ) (ds : List ℕ) (bs : Bytes) (did : ℕ)
    → from_file raws ≡ ok s
    → All (λ d. d < 10) (d ∷ ds)
    → All IsByte (b ∷ bs)
    → (s' : DatapointStore) × (from_file
          (raws ++ ((decimal (d ∷ ds) ++ (32 ∷ hex_text (b ∷ bs))) ∷ []))
        ≡ ok s')
      × (read s' did ≡ (if decimal_value 0 (d ∷ ds) == did then some (b ∷ bs) else read s did))
unfolding from_file
read_last_line raws s d b ds bs did e h k =
    let none_there : s.resolvers ≡ [] =
      load_lines-resolvers (record { table = []; resolvers = [] }) s raws e in
    (
      add_row s (some (pos (decimal_value 0 (d ∷ ds)), b ∷ bs)),
      load_lines-append (record { table = []; resolvers = [] }) s raws _ e
          ∙ (unfold load_lines in rw (parse_line-hex d b ds bs h k)),
      unfold read add_row in
          rw (none_there, lookup-insert (decimal_value 0 (d ∷ ds)) did (b ∷ bs) s.table),
    )
