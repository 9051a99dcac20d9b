-- ===== src/Load/Example.antt =====
-- Catalogs in memory for the loads of src/benchmark_initial_load.c, and a file of two companies.
use chronos_prototype.Base.{
  true, false, Bool, Option, none, some, List, [], ◌∷◌, if◌then◌else◌, Text, ℕ,
}
use chronos_prototype.Load.{Catalog, Machine, LoadDb}
use chronos_prototype.Load.Loaded.{Store, write}

pub record Tables : Type 0 where
  pub committed : Store
  pub working : Store

-- Is the key free?
abbrev pub is_free : Option (List ℕ) → Bool
is_free none = true
is_free (some row) = false

abbrev pub put_row : Catalog → Text → List ℕ → Bool → Tables → Bool × Tables
put_row t k row false e = (true, record e { working = write t k row e.working })
put_row t k row true e =
    if is_free (e.working t k)
    then (true, record e { working = write t k row e.working })
    else (false, e)

abbrev pub tables_db : LoadDb
tables_db = record {
  Env = Tables;
  Txn = Unit {0};
  txn_begin = λ e. (some tt, record e { working = e.committed });
  put = λ t x k row keep e. put_row t k row keep e;
  commit = λ x e. (true, record e { committed = e.working });
  abort = λ x e. e;
}

abbrev pub machine : Machine
machine = record { convert = λ k s. none; five_hundred = 0 ∷ 0 ∷ 250 ∷ 67 ∷ [] }

abbrev pub no_records : Tables
no_records = record { committed = λ t k. none; working = λ t k. none }

-- "AB#Cd#1.0\n" and "E#F#2.0\n"
abbrev pub company_list : List Text
company_list =
    (65 ∷ 66 ∷ 35 ∷ 67 ∷ 100 ∷ 35 ∷ 49 ∷ 10 ∷ []) ∷ (69 ∷ 35 ∷ 70 ∷ 35 ∷ 50 ∷ 10 ∷ []) ∷ []
