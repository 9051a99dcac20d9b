-- ===== src/Server/Main/Tests.antt =====
-- The start and the exit of `main` of src/startup_server.c on small cases.
use chronos_prototype.Base.{
  ℕ, ◌≡◌, refl, Bool, true, false, some, List, [], ◌∷◌, if◌then◌else◌, arith,
}
use chronos_prototype.Base.Int.{pos}
use chronos_prototype.Db.{Outcome, ok}
use chronos_prototype.Load.{Catalog}
use chronos_prototype.Handles.{
  live, LibraryCall, env_close, Library, State, benchmark_handle_alloc, benchmark_handle_free,
  databases_setup, open_environment, open_database, databases_close, close_environment, close_all,
}
use chronos_prototype.Server.Example.{tenths}
use chronos_prototype.Server.Arguments.{
  ServerOption, updaters, no_load, process_arguments, set_options, defaults,
}
use chronos_prototype.Server.Main.{
  System, spawn_listener, held, freed, returned, unfinished, ServerState, no_context, cleanup, main,
}
use chronos_prototype.Server.Main.Cleanup.{Cleaned, cleanup-Cleaned}
use chronos_prototype.Server.Main.Ended.{Ended, wanted, main-Ended}

-- The world says whether the environment closes.
abbrev is_close : LibraryCall → Bool
is_close env_close = true
is_close _ = false

abbrev library : Library
library = record { World = Bool; succeeds = λ c w. (if is_close c then w else true, w) }

abbrev no_tables : Catalog → State library → Outcome (Unit {0}) × State library
no_tables t st = (ok tt, st)

abbrev works : System
works _ = true

abbrev no_listener : System
no_listener spawn_listener = false
no_listener _ = true

-- Just after the handle is obtained.
abbrev before_items : Bool → ServerState library
before_items w = record (no_context library w) {
  has_context = true;
  has_queues = true;
  handle = some (record { world = w; env = live; dbs = λ s. live });
}

cleanup-Cleaned_example :
    Cleaned
      (record (before_items true) { items = held })
      true
      (cleanup 3 true (record (before_items true) { items = held }))
cleanup-Cleaned_example =
    cleanup-Cleaned 1 true (record (before_items true) { items = held }) refl (ground arith)
      (refl, λ s. refl)

-- An environment that does not close, before the items are allocated.
hangs : (cleanup 20 false (before_items false)).0 ≡ unfinished
unfolding cleanup benchmark_handle_free databases_close close_environment close_all
hangs = refl

abbrev two_updaters : List (ServerOption ℕ)
two_updaters = updaters (pos 2) ∷ no_load ∷ []

main-Ended_example :
    Ended
      (wanted true (process_arguments tenths two_updaters))
      (main tenths 3 false true works no_tables true true true two_updaters true)
main-Ended_example = main-Ended tenths 1 false true works no_tables true true true two_updaters true

runs : (main tenths 3 false true works no_tables true true true two_updaters true).0 ≡ returned true
unfolding main cleanup process_arguments set_options defaults benchmark_handle_alloc
    benchmark_handle_free databases_setup open_environment open_database databases_close
    close_environment close_all
runs = refl

-- The listener is not started, and the update threads run on without their items.
abbrev refused_listener : ServerState library
refused_listener =
    (main tenths 3 false true no_listener no_tables true true true two_updaters true).1

still_running :
    (refused_listener.updaters ≡ 2)
    × (refused_listener.joined ≡ false)
    × (refused_listener.items ≡ freed)
unfolding main cleanup process_arguments set_options defaults benchmark_handle_alloc
    benchmark_handle_free databases_setup open_environment open_database databases_close
    close_environment close_all
still_running = (refl, refl, refl)
