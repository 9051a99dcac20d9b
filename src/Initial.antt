-- ===== src/Initial.antt =====
-- `benchmark_initial_load` of src/benchmark_initial_load.c: a new handle, the loads of the four
-- catalogs, and its release. The loads are the argument `load`, and `load_catalog` is that of Load; the
-- paths of the files are the four calls of `malloc`.
pub mod Ends
mod Tests
use chronos_prototype.Base.{ℕ, Option, List, Text, Bool, true, false}
use chronos_prototype.Db.{Outcome, ok, fail, crash, out_of_fuel}
use chronos_prototype.Load.{
  LoadDb, Machine, load_database, Catalog, personal, stocks, currencies, quotes,
}
use chronos_prototype.Handles.{
  malloc, Library, State, Step, ◌>>◌, call, failed_alloc, benchmark_handle_alloc,
  benchmark_handle_free,
}

-- How the calls of the loads stand beside those of the handles: Berkeley DB keeps the tables in the one
-- world of both.
pub record Shared (lib : Library) (db : LoadDb) : Type 0 where
  pub tables : lib.World → db.Env
  pub with_tables : db.Env → lib.World → lib.World

abbrev pub without_count : Outcome ℕ → Outcome (Unit {0})
without_count (ok n) = ok tt
without_count fail = fail
without_count crash = crash
without_count out_of_fuel = out_of_fuel

module _ {lib : Library} where
  -- The exit releases the handle, logs a failure of that, and fails.
  abbrev pub or_free : Outcome (Unit {0}) × State lib → Outcome (Unit {0}) × State lib
  or_free (fail, st) = failed_alloc (benchmark_handle_free st)
  or_free (o, st) = (o, st)

  -- The load of a catalog from its file, with a handle and its environment. `number_stocks`, which the
  -- load of the quotes sets in the handle, ends with it.
  abbrev pub load_catalog :
      {db : LoadDb} → Shared lib db → Machine → (Catalog → Option (List Text)) → Catalog → Step lib
  load_catalog {db} link mach files t st =
      let r = load_database db mach t true (files t) (link.tables st.world) in
      (without_count r.0, record st { world = link.with_tables r.1 st.world })

  abbrev pub load_all : (Catalog → Step lib) → Step lib
  load_all load = do load personal; load stocks; load currencies; load quotes

  -- With the handle: also a failure to release it goes to the exit, which releases it again.
  abbrev pub load_and_free : (Catalog → Step lib) → Step lib
  load_and_free load = do load_all load; benchmark_handle_free

  pub benchmark_initial_load : (Catalog → Step lib) → Step lib
  benchmark_initial_load load = do
    call malloc
    call malloc
    call malloc
    call malloc
    benchmark_handle_alloc true true true
    λ st. or_free (load_and_free load st)
