-- ===== src/Load/Distinct.antt =====
-- What a successful load of src/benchmark_initial_load.c has stored, where it does not overwrite.
use chronos_prototype.Base.{
  ℕ, ◌≢◌, [], ◌∷◌, ◌+◌, ◌≡◌, refl, sym, ◌∙◌, ap, true, false, none, some, List, length, arith, Text,
  text_eq, text_eq_refl, eq_of_text_eq, All, all_nil, all_cons, some-ne-none, Bool-cases, inl, inr,
}
use chronos_prototype.Db.{Outcome, ok}
use chronos_prototype.Load.{
  Catalog, personal, stocks, currencies, quotes, same, Machine, read_line, no_overwrite, LoadDb,
  load_database,
}
use chronos_prototype.Load.Loaded.{
  Store, write, Laws, Inserts, no_lines, a_line, Loaded, all_in, stopped, overran,
  load_database-Loaded,
}

-- The row of a line is in the store under its key.
abbrev pub IsStored : Machine → Catalog → Store → Text → Type 0
IsStored mach t s line =
    (k : Text) × (row : List ℕ) × (read_line mach t line ≡ some (k, row)) × (s t k ≡ some row)

-- Both lines make a row, under different keys.
abbrev pub OtherKey : Machine → Catalog → Text → Text → Type 0
OtherKey mach t line line' =
    (k : Text) × (row : List ℕ) × (k' : Text) × (row' : List ℕ) × (read_line mach t line
      ≡ some (k, row))
    × (read_line mach t line' ≡ some (k', row'))
    × (k ≢ k')

-- No two lines have one key.
abbrev pub DistinctKeys : Machine → Catalog → List Text → Type 0
DistinctKeys mach t [] = Unit {0}
DistinctKeys mach t (line ∷ lines) = All (OtherKey mach t line) lines × DistinctKeys mach t lines

same_refl : (t : Catalog) → same t t ≡ true
same_refl personal = refl
same_refl stocks = refl
same_refl currencies = refl
same_refl quotes = refl

write_self : (t : Catalog) (k : Text) (row : List ℕ) (s : Store) → write t k row s t k ≡ some row
write_self t k row s = rw (same_refl t, text_eq_refl k) refl

-- A write into a free key leaves the records.
write-keeps :
    (t : Catalog) (k : Text) (row : List ℕ) (s : Store) (j : Text) (old : List ℕ)
    → s t k ≡ none
    → s t j ≡ some old
    → write t k row s t j ≡ some old
write-keeps t k row s j old free h = elim (Bool-cases (text_eq j k)) [
  | inl e ↦
      absurd (some-ne-none old (sym h ∙ ap (λ (i : Text). s t i) (eq_of_text_eq j k e) ∙ free))
  | inr e ↦ rw (same_refl t, e) h
]

module _ (mach : Machine) (t : Catalog) where
  Inserts-keeps :
      (j : Text) (old : List ℕ) {ls : List Text} {s s' : Store}
      → no_overwrite t ≡ true
      → Inserts mach t ls s s'
      → s t j ≡ some old
      → s' t j ≡ some old
  Inserts-keeps j old kept no_lines h = h
  Inserts-keeps j old kept (a_line {s = s} {k = k} {row = row} read free i) h =
      Inserts-keeps j old kept i (write-keeps t k row s j old (free kept) h)

  Inserts-IsStored :
      {ls : List Text} {s s' : Store}
      → no_overwrite t ≡ true
      → Inserts mach t ls s s'
      → All (IsStored mach t s') ls
  Inserts-IsStored kept no_lines = all_nil
  Inserts-IsStored kept (a_line {s = s} {k = k} {row = row} read free i) =
      all_cons (k, row, read, Inserts-keeps k row kept i (write_self t k row s))
        (Inserts-IsStored kept i)

  -- A key that is taken is the key of no line that comes later.
  Inserts-OtherKey :
      (line : Text) (k : Text) (row old : List ℕ) {ls : List Text} {s s' : Store}
      → no_overwrite t ≡ true
      → read_line mach t line ≡ some (k, row)
      → Inserts mach t ls s s'
      → s t k ≡ some old
      → All (OtherKey mach t line) ls
  Inserts-OtherKey line k row old kept mine no_lines h = all_nil
  Inserts-OtherKey line k row old kept mine (a_line {s = s} {k = k'} {row = row'} read free i) h =
      all_cons
        (
          k,
          row,
          k',
          row',
          mine,
          read,
          λ e. some-ne-none old (sym h ∙ ap (λ (j : Text). s t j) e ∙ free kept),
        )
        (Inserts-OtherKey line k row old kept mine i (write-keeps t k' row' s k old (free kept) h))

  Inserts-DistinctKeys :
      {ls : List Text} {s s' : Store}
      → no_overwrite t ≡ true
      → Inserts mach t ls s s'
      → DistinctKeys mach t ls
  Inserts-DistinctKeys kept no_lines = tt
  Inserts-DistinctKeys kept (a_line {l = line} {s = s} {k = k} {row = row} read free i) = (
    Inserts-OtherKey line k row row kept read i (write_self t k row s),
    Inserts-DistinctKeys kept i,
  )

  -- The other catalogs are left alone.
  Inserts-other :
      (t' : Catalog) (j : Text) {ls : List Text} {s s' : Store}
      → same t' t ≡ false
      → Inserts mach t ls s s'
      → s' t' j ≡ s t' j
  Inserts-other t' j other no_lines = refl
  Inserts-other t' j other (a_line {s = s} {k = k} {row = row} read free i) =
      Inserts-other t' j other i ∙ rw other refl

module _ {db : LoadDb} (l : Laws db) where
  Loaded-ok :
      (mach : Machine) (t : Catalog) (ls : List Text) (s : Store) (cnt : ℕ) (r : Outcome ℕ × db.Env)
      (n : ℕ)
      → Loaded l mach t ls s cnt r
      → r.0 ≡ ok n
      → (n ≡ cnt + length ls) × Inserts mach t ls s (l.committed r.1)
  Loaded-ok mach t ls s cnt r n (all_in c i) e = (ground (arith, c, e), i)
  Loaded-ok mach t ls s cnt r n (stopped done rest c i) e = absurd (ground arith)
  Loaded-ok mach t ls s cnt r n (overran done rest line c out i) e = absurd (ground arith)

  -- A load that does not overwrite and succeeds has counted its lines; the row of each is in the table
  -- under its own key, and no two lines have one key; what was there is there still, and the other
  -- tables are as they were.
  pub load_database-IsStored :
      (mach : Machine) (t : Catalog) (ls : List Text) (e : db.Env) (n : ℕ)
      → no_overwrite t ≡ true
      → (load_database db mach t true (some ls) e).0 ≡ ok n
      → let s' = l.committed (load_database db mach t true (some ls) e).1 in
        (n ≡ length ls)
        × All (IsStored mach t s') ls
        × DistinctKeys mach t ls
        × ((k : Text) (row : List ℕ) → l.committed e t k ≡ some row → s' t k ≡ some row)
        × ((t' : Catalog) (k : Text) → same t' t ≡ false → s' t' k ≡ l.committed e t' k)
  load_database-IsStored mach t ls e n kept succeeded =
      let (counted, i) =
        Loaded-ok mach t ls (l.committed e) 0 (load_database db mach t true (some ls) e) n
          (load_database-Loaded l mach t ls e) succeeded in
      (
        omega (arith, counted),
        Inserts-IsStored mach t kept i,
        Inserts-DistinctKeys mach t kept i,
        λ k row h. Inserts-keeps mach t k row kept i h,
        λ t' k other. Inserts-other mach t t' k other i,
      )
