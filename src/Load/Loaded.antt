-- ===== src/Load/Loaded.antt =====
-- What a load leaves in the tables: the loops of src/benchmark_initial_load.c.
use chronos_prototype.Base.{
  ℕ, ◌+◌, ◌≡◌, refl, sym, ◌∙◌, ap, subst, Bool, true, false, Option, none, some, List, [], ◌∷◌,
  ◌++◌, ◌&&◌, length, arith, if◌then◌else◌, Text, text_eq, on_result-cases,
}
use chronos_prototype.Db.{Outcome, ok, fail, crash}
use chronos_prototype.Load.{
  Catalog, same, Machine, read_line, no_overwrite, LoadDb, end_insert, insert, load_next,
  load_lines, load_database,
}

-- The committed records, by catalog and key.
abbrev pub Store : Type 0
Store = Catalog → Text → Option (List ℕ)

abbrev pub write : Catalog → Text → List ℕ → Store → Store
write t k row s t' j = if same t' t && text_eq j k then some row else s t' j

-- What is relied on, for one thread of transactions: writes are committed by a successful commit
-- alone, and DB_NOOVERWRITE fails on a key that is there. Any call may fail.
pub record Laws (db : LoadDb) : Type 0 where
  pub committed : db.Env → Store
  pub seen : db.Txn → db.Env → Store
  pub committed_begin : (e : db.Env) → committed (db.txn_begin e).1 ≡ committed e
  pub seen_begin :
      (e : db.Env) (x : db.Txn)
      → (db.txn_begin e).0 ≡ some x
      → seen x (db.txn_begin e).1 ≡ committed e
  pub committed_put :
      (t : Catalog) (x : db.Txn) (k : Text) (row : List ℕ) (keep : Bool) (e : db.Env)
      → committed (db.put t x k row keep e).1 ≡ committed e
  pub seen_put :
      (t : Catalog) (x : db.Txn) (k : Text) (row : List ℕ) (keep : Bool) (e : db.Env)
      → (db.put t x k row keep e).0 ≡ true
      → (seen x (db.put t x k row keep e).1 ≡ write t k row (seen x e))
        × (keep ≡ true → seen x e t k ≡ none)
  pub committed_commit :
      (x : db.Txn) (e : db.Env)
      → committed (db.commit x e).1 ≡ (if (db.commit x e).0 then seen x e else committed e)
  pub committed_abort : (x : db.Txn) (e : db.Env) → committed (db.abort x e) ≡ committed e

-- The rows of the lines go into the store one after the other, into free keys where the load does
-- not overwrite.
pub data Inserts (mach : Machine) (t : Catalog) : List Text → Store → Store → Type 0 where
  no_lines : {s : Store} → Inserts mach t [] s s
  a_line :
      {l : Text} {ls : List Text} {s s' : Store} {k : Text} {row : List ℕ}
      → read_line mach t l ≡ some (k, row)
      → (no_overwrite t ≡ true → s t k ≡ none)
      → Inserts mach t ls (write t k row s) s'
      → Inserts mach t (l ∷ ls) s s'

-- A success inserts all lines and counts them; at every other end the first lines are in, each
-- whole, and none after them.
pub data Loaded {db : LoadDb} (l : Laws db) (mach : Machine) (t : Catalog) (lines : List Text)
    (s : Store) (cnt : ℕ) : Outcome ℕ × db.Env → Type 0 where
  all_in :
      {n : ℕ} {e : db.Env}
      → n ≡ cnt + length lines
      → Inserts mach t lines s (l.committed e)
      → Loaded l mach t lines s cnt (ok n, e)
  stopped :
      {e : db.Env} (done rest : List Text)
      → lines ≡ done ++ rest
      → Inserts mach t done s (l.committed e)
      → Loaded l mach t lines s cnt (fail, e)
  overran :
      {e : db.Env} (done rest : List Text) (line : Text)
      → lines ≡ done ++ line ∷ rest
      → read_line mach t line ≡ none
      → Inserts mach t done s (l.committed e)
      → Loaded l mach t lines s cnt (crash, e)

-- A record is stored into a free key, or nothing changes.
data Stored {db : LoadDb} (l : Laws db) (t : Catalog) (k : Text) (row : List ℕ) (s : Store)
    : Bool × db.Env → Type 0 where
  stored :
      {e : db.Env}
      → l.committed e ≡ write t k row s
      → (no_overwrite t ≡ true → s t k ≡ none)
      → Stored l t k row s (true, e)
  kept : {e : db.Env} → l.committed e ≡ s → Stored l t k row s (false, e)

module _ {db : LoadDb} (l : Laws db) where
  Stored-commit :
      (t : Catalog) (k : Text) (row : List ℕ) (s : Store) (x : db.Txn) (e : db.Env)
      (r : Bool × db.Env)
      → db.commit x e ≡ r
      → l.seen x e ≡ write t k row s
      → l.committed e ≡ s
      → (no_overwrite t ≡ true → s t k ≡ none)
      → Stored l t k row s r
  Stored-commit t k row s x e (true, e1) q seen old free =
      stored
        (subst (λ r. l.committed r.1 ≡ (if r.0 then l.seen x e else l.committed e)) q
            (l.committed_commit x e)
          ∙ seen)
        free
  Stored-commit t k row s x e (false, e1) q seen old free = kept (
      subst (λ r. l.committed r.1 ≡ (if r.0 then l.seen x e else l.committed e)) q
        (l.committed_commit x e)
      ∙ old)

  Stored-put :
      (t : Catalog) (k : Text) (row : List ℕ) (s : Store) (x : db.Txn) (e : db.Env)
      (r : Bool × db.Env)
      → db.put t x k row (no_overwrite t) e ≡ r
      → l.seen x e ≡ s
      → l.committed e ≡ s
      → Stored l t k row s (end_insert db x r)
  Stored-put t k row s x e (true, e1) q seen old =
      let f = l.seen_put t x k row (no_overwrite t) e (ap (λ r. r.0) q) in
      Stored-commit t k row s x e1 (db.commit x e1) refl
        (subst (λ r. l.seen x r.1 ≡ write t k row (l.seen x e)) q f.0 ∙ ap (write t k row) seen)
        (subst (λ r. l.committed r.1 ≡ l.committed e) q (l.committed_put t x k row _ e) ∙ old)
        (λ lack. ap (λ (u : Store). u t k) (sym seen) ∙ f.1 lack)
  Stored-put t k row s x e (false, e1) q seen old = kept (
      l.committed_abort x e1
      ∙ subst (λ r. l.committed r.1 ≡ l.committed e) q (l.committed_put t x k row _ e)
      ∙ old)

  Stored-insert :
      (t : Catalog) (k : Text) (row : List ℕ) (s : Store) (e : db.Env)
      → l.committed e ≡ s
      → Stored l t k row s (insert db t (k, row) e)
  unfolding insert
  Stored-insert t k row s e old =
      on_result-cases (Stored l t k row s) (db.txn_begin e).0 _ _
        (λ _. kept (l.committed_begin e ∙ old))
        λ x b.
          Stored-put t k row s x (db.txn_begin e).1 _ refl (l.seen_begin e x b ∙ old)
            (l.committed_begin e ∙ old)

  -- The first line is in.
  Loaded-line :
      (mach : Machine) (t : Catalog) (line : Text) (ls : List Text) (k : Text) (row : List ℕ)
      (s : Store) (cnt : ℕ) {r : Outcome ℕ × db.Env}
      → read_line mach t line ≡ some (k, row)
      → (no_overwrite t ≡ true → s t k ≡ none)
      → Loaded l mach t ls (write t k row s) (cnt + 1) r
      → Loaded l mach t (line ∷ ls) s cnt r
  Loaded-line mach t line ls k row s cnt read free (all_in n i) =
      all_in (omega (arith, n)) (a_line read free i)
  Loaded-line mach t line ls k row s cnt read free (stopped done rest e i) =
      stopped (line ∷ done) rest (ap (λ u. line ∷ u) e) (a_line read free i)
  Loaded-line mach t line ls k row s cnt read free (overran done rest bad e out i) =
      overran (line ∷ done) rest bad (ap (λ u. line ∷ u) e) out (a_line read free i)

  Loaded-next :
      (mach : Machine) (t : Catalog) (line : Text) (ls : List Text) (k : Text) (row : List ℕ)
      (s : Store) (cnt : ℕ) (r : Bool × db.Env)
      → read_line mach t line ≡ some (k, row)
      → Stored l t k row s r
      → ((e : db.Env)
          → l.committed e ≡ write t k row s
          → Loaded l mach t ls (write t k row s) (cnt + 1) (load_lines db mach t ls (cnt + 1) e))
      → Loaded l mach t (line ∷ ls) s cnt (load_next r (λ e'. load_lines db mach t ls (cnt + 1) e'))
  Loaded-next mach t line ls k row s cnt (true, e) read (stored now free) rec =
      Loaded-line mach t line ls k row s cnt read free (rec e now)
  Loaded-next mach t line ls k row s cnt (false, e) read (kept now) rec =
      stopped [] (line ∷ ls) refl (subst (Inserts mach t [] s) (sym now) no_lines)

  load_lines-Loaded :
      (mach : Machine) (t : Catalog) (ls : List Text) (s : Store) (cnt : ℕ) (e : db.Env)
      → l.committed e ≡ s
      → Loaded l mach t ls s cnt (load_lines db mach t ls cnt e)
  unfolding load_lines
  load_lines-Loaded mach t [] s cnt e old =
      all_in (omega arith) (subst (Inserts mach t [] s) (sym old) no_lines)
  load_lines-Loaded mach t (line ∷ ls) s cnt e old =
      on_result-cases (Loaded l mach t (line ∷ ls) s cnt) (read_line mach t line) _ _
        (λ lack. overran [] ls line refl lack (subst (Inserts mach t [] s) (sym old) no_lines))
        λ x read.
          Loaded-next mach t line ls x.0 x.1 s cnt (insert db t x e) read
            (Stored-insert t x.0 x.1 s e old)
            (λ e1 now. load_lines-Loaded mach t ls (write t x.0 x.1 s) (cnt + 1) e1 now)

  -- A load of a file: a success inserts a row for each line and counts them; a failure, or a line that
  -- does not fit, leaves the rows of the lines before it, each whole. Where the load does not
  -- overwrite, no row takes the key of another.
  pub load_database-Loaded :
      (mach : Machine) (t : Catalog) (ls : List Text) (e : db.Env)
      → Loaded l mach t ls (l.committed e) 0 (load_database db mach t true (some ls) e)
  unfolding load_database
  load_database-Loaded mach t ls e = load_lines-Loaded mach t ls (l.committed e) 0 e refl
