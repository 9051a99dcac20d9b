-- ===== src/Load.antt =====
-- The initial load of the catalogs: the loops of src/benchmark_initial_load.c, for a handle whose
-- databases are open. Berkeley DB is the parameter `LoadDb`; a file is what `fgets` returns line by
-- line, and none if it cannot be opened. The structs are laid out for 32-bit `int` and `float` and
-- 64-bit `long`, each on a multiple of its size.
pub mod Scan
pub mod Rows
pub mod Loaded
pub mod Distinct
pub mod Example
mod Tests
use chronos_prototype.Base.{
  ℕ, ◌+◌, Bool, true, false, Option, none, some, List, [], ◌∷◌, ◌&&◌, replicate, on_result,
  if◌then◌else◌, Text, text_eq,
}
use chronos_prototype.Db.{Outcome, ok, fail, crash, out_of_fuel}
use chronos_prototype.Load.Scan.{
  Directive, scanset, ignored, literal, number, float, long, Convert, ◌>>=◌, store, sscanf,
  c_string,
}

-- The databases that are loaded from a file.
pub data Catalog : Type 0 where
  personal stocks currencies quotes : Catalog

abbrev pub same : Catalog → Catalog → Bool
same personal personal = true
same stocks stocks = true
same currencies currencies = true
same quotes quotes = true
same _ _ = false

-- `sizeof` the struct of a catalog, and the format of its lines.
abbrev pub size_of : Catalog → ℕ
size_of personal = 1122
size_of stocks = 138
size_of currencies = 344
size_of quotes = 72

abbrev pub hash : Directive
hash = literal 35

abbrev pub format_of : Catalog → List Directive
format_of personal =
    scanset 10 35 0
    ∷ hash
    ∷ scanset 128 35 10
    ∷ hash
    ∷ scanset 128 35 138
    ∷ hash
    ∷ scanset 128 35 266
    ∷ hash
    ∷ scanset 128 35 522
    ∷ hash
    ∷ scanset 128 35 650
    ∷ hash
    ∷ scanset 128 35 778
    ∷ hash
    ∷ scanset 16 10 906
    ∷ []
format_of stocks = scanset 10 35 0 ∷ hash ∷ scanset 128 35 10 ∷ hash ∷ ignored 500 10 500 ∷ []
format_of currencies = scanset 200 35 10 ∷ hash ∷ scanset 200 35 210 ∷ hash ∷ scanset 10 10 0 ∷ []
format_of quotes =
    scanset 10 35 0
    ∷ hash
    ∷ number float 12
    ∷ hash
    ∷ scanset 10 35 16
    ∷ hash
    ∷ number float 28
    ∷ hash
    ∷ number float 32
    ∷ hash
    ∷ number float 36
    ∷ hash
    ∷ number float 40
    ∷ hash
    ∷ number float 44
    ∷ hash
    ∷ number long 48
    ∷ hash
    ∷ scanset 10 10 56
    ∷ []

-- The numbers of the machine: the conversions, and the bytes of 500.0.
pub record Machine : Type 0 where
  pub convert : Convert
  pub five_hundred : List ℕ

-- `quote.current_price = 500.0`
abbrev pub set_price : Machine → Catalog → List ℕ → Option (List ℕ)
set_price mach quotes mem = store 12 mach.five_hundred mem
set_price mach _ mem = some mem

-- The key and the struct of a line; none where a write or `strlen` leaves the struct.
unfoldable pub read_line : Machine → Catalog → Text → Option (Text × List ℕ)
read_line mach t l = do
  mem ← sscanf mach.convert (format_of t) l (replicate (size_of t) 0)
  row ← set_price mach t mem
  key ← c_string row
  some (key, row)

-- DB_NOOVERWRITE
abbrev pub no_overwrite : Catalog → Bool
no_overwrite currencies = false
no_overwrite _ = true

pub record LoadDb : Type 1 where
  pub Env : Type 0
  pub Txn : Type 0
  pub txn_begin : Env → Option Txn × Env
  pub put : Catalog → Txn → Text → List ℕ → Bool → Env → Bool × Env
  pub commit : Txn → Env → Bool × Env
  pub abort : Txn → Env → Env

abbrev pub load_next : {E : Type 0} → Bool × E → (E → Outcome ℕ × E) → Outcome ℕ × E
load_next (true, e) next = next e
load_next (false, e) next = (fail, e)

module _ (db : LoadDb) where
  -- What follows the put.
  abbrev pub end_insert : db.Txn → Bool × db.Env → Bool × db.Env
  end_insert x (true, e) = db.commit x e
  end_insert x (false, e) = (false, db.abort x e)

  -- One record in a transaction of its own. Is it stored?
  unfoldable pub insert : Catalog → Text × List ℕ → db.Env → Bool × db.Env
  insert t (k, row) e =
      let e1 = (db.txn_begin e).1 in
      on_result (db.txn_begin e).0 (false, e1)
        λ x. end_insert x (db.put t x k row (no_overwrite t) e1)

  -- The loop over the lines, with the rows inserted so far.
  unfoldable pub load_lines : Machine → Catalog → List Text → ℕ → db.Env → Outcome ℕ × db.Env
  load_lines mach t [] cnt e = (ok cnt, e)
  load_lines mach t (l ∷ ls) cnt e =
      on_result (read_line mach t l) (crash, e)
        λ row. load_next (insert t row e) λ e'. load_lines mach t ls (cnt + 1) e'

  -- Without a handle or an environment the exit closes a file pointer that was never set.
  unfoldable pub load_database :
      Machine → Catalog → Bool → Option (List Text) → db.Env → Outcome ℕ × db.Env
  load_database mach t false lines e = (crash, e)
  load_database mach t true none e = (fail, e)
  load_database mach t true (some ls) e = load_lines mach t ls 0 e

  abbrev pub load_personal_database :
      Machine → Bool → Option (List Text) → db.Env → Outcome ℕ × db.Env
  load_personal_database mach = load_database mach personal

  abbrev pub load_stocks_database :
      Machine → Bool → Option (List Text) → db.Env → Outcome ℕ × db.Env
  load_stocks_database mach = load_database mach stocks

  abbrev pub load_currencies_database :
      Machine → Bool → Option (List Text) → db.Env → Outcome ℕ × db.Env
  load_currencies_database mach = load_database mach currencies

  -- `number_stocks` of the handle becomes the count of a load that succeeds.
  abbrev pub number_stocks_of : ℕ → Outcome ℕ × db.Env → Outcome (Unit {0}) × ℕ × db.Env
  number_stocks_of old (ok n, e) = (ok tt, n, e)
  number_stocks_of old (fail, e) = (fail, old, e)
  number_stocks_of old (crash, e) = (crash, old, e)
  number_stocks_of old (out_of_fuel, e) = (out_of_fuel, old, e)

  abbrev pub load_quotes_database :
      Machine → Bool → Option (List Text) → ℕ → db.Env → Outcome (Unit {0}) × ℕ × db.Env
  load_quotes_database mach open_ lines old e =
      number_stocks_of old (load_database mach quotes open_ lines e)
