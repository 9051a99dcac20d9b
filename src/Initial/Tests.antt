-- ===== src/Initial/Tests.antt =====
-- The life of a handle and the initial load, with calls that all succeed, and with a close that fails.
use chronos_prototype.Base.{
  ◌≡◌, refl, Option, some, List, [], Text, text_eq, Bool, true, false, if◌then◌else◌,
}
use chronos_prototype.Db.{Outcome, ok, fail, crash}
use chronos_prototype.Load.{Catalog, load_database, load_lines, insert, read_line}
use chronos_prototype.Load.Scan.{store, sscanf, scan_set, c_string}
use chronos_prototype.Load.Example.{Tables, tables_db, machine, no_records, company_list}
use chronos_prototype.Handles.{
  Slot, live, LibraryCall, db_close, Library, State, new_handle, databases_setup, databases_close,
  close_environment, close_all, open_database, open_environment, benchmark_handle_alloc,
  benchmark_handle_free,
}
use chronos_prototype.Handles.Lifetime.{Freed, benchmark_handle_free-Freed}
use chronos_prototype.Handles.Allocated.{Allocated, benchmark_handle_alloc-Allocated}
use chronos_prototype.Initial.{
  Shared, load_catalog, load_all, or_free, load_and_free, benchmark_initial_load,
}
use chronos_prototype.Initial.Ends.{Ended, load_and_free-Ended, load_and_free-crash}

-- Is it the close of Quotes?
abbrev is_bad : LibraryCall → Bool
is_bad (db_close Slot.quotes) = true
is_bad _ = false

-- The world says whether that close fails.
abbrev library : Library
library = record { World = Bool × Tables; succeeds = λ c w. (if is_bad c then w.0 else true, w) }

abbrev opened : Bool → State library
opened w = record { world = (w, no_records); env = live; dbs = λ s. live }

abbrev link : Shared library tables_db
link = record { tables = λ w. w.1; with_tables = λ e w. (w.0, e) }

-- Two companies, and no persons, currencies and quotes.
abbrev files : Catalog → Option (List Text)
files Catalog.stocks = some company_list
files _ = some []

abbrev loads : Catalog → State library → Outcome (Unit {0}) × State library
loads = load_catalog link machine files

benchmark_handle_alloc-Allocated_example :
    Allocated
      (benchmark_handle_alloc false true true (new_handle {lib = library} (true, no_records)))
benchmark_handle_alloc-Allocated_example =
    benchmark_handle_alloc-Allocated {lib = library} false true true (true, no_records)

benchmark_handle_free-Freed_example : Freed (benchmark_handle_free (opened true))
benchmark_handle_free-Freed_example = benchmark_handle_free-Freed (opened true) (refl, λ s. refl)

load_and_free-Ended_example : Ended (or_free (load_and_free loads (opened true)))
load_and_free-Ended_example = load_and_free-Ended link machine files (opened true) (refl, λ s. refl)

all_loaded : (load_all loads (opened false)).0 ≡ ok tt
unfolding load_database load_lines insert read_line store sscanf scan_set c_string text_eq
all_loaded = refl

quotes_stay : (databases_close (load_all loads (opened false)).1).0 ≡ fail
unfolding databases_close close_all load_database load_lines insert read_line store sscanf scan_set
    c_string text_eq
quotes_stay = refl

load_and_free-crash_example : (or_free (load_and_free loads (opened false))).0 ≡ crash
load_and_free-crash_example =
    load_and_free-crash link machine files (opened false) (refl, λ s. refl) all_loaded quotes_stay

-- The whole program, where nothing fails.
initial_load :
    (benchmark_initial_load loads (new_handle {lib = library} (true, no_records))).0 ≡ ok tt
unfolding benchmark_initial_load benchmark_handle_alloc benchmark_handle_free databases_setup
    open_environment open_database databases_close close_environment close_all load_database
    load_lines insert read_line store sscanf scan_set c_string text_eq
initial_load = refl
