-- ===== src/Server/Main.antt =====
-- `main` of src/startup_server.c: the start of the server, its threads and its exit. The calls of the
-- operating system are the parameter `System`, those of Berkeley DB the `Library` of Handles. What the
-- data items hold is in Start, and what the threads do in Updates, Listener and Handler.
pub mod Cleanup
pub mod Started
pub mod Ended
mod Tests
use chronos_prototype.Base.{
  ℕ, zero, suc, ◌+◌, Bool, true, false, Option, none, some, List, [], ◌∷◌, ◌++◌, if◌then◌else◌,
}
use chronos_prototype.Base.Int.{ℤ, pos, negsuc}
use chronos_prototype.Db.{Outcome, ok, fail, crash, out_of_fuel}
use chronos_prototype.Load.{Catalog}
use chronos_prototype.Handles.{
  Library, State, Step, new_handle, benchmark_handle_alloc, benchmark_handle_free,
}
use chronos_prototype.Initial.{benchmark_initial_load}
use chronos_prototype.Server.{Doubles}
use chronos_prototype.Server.Arguments.{
  ServerOption, Config, Arguments, accepted, rejected, exited, process_arguments,
}

-- The mutexes and the condition variables of the context. The last two are `ticketReady` of the queues.
pub data Sync : Type 0 where
  user_mutex sys_mutex start_mutex sys_more sys_less user_more user_less start_wait : Sync
  user_ticket sys_ticket : Sync

-- Those that are initialised, in their order. The condition variables of the tickets are not.
abbrev pub initialised_syncs : List Sync
initialised_syncs =
    user_mutex ∷ sys_mutex ∷ start_mutex ∷ sys_more ∷ sys_less ∷ user_more ∷ user_less ∷ start_wait
    ∷ []

pub data SystemCall : Type 0 where
  alloc_context set_signal create_timer attr_init attr_stack alloc_items : SystemCall
  alloc_updaters alloc_listener spawn_listener : SystemCall
  init_sync : Sync → SystemCall
  spawn_updater : ℕ → SystemCall

-- Which calls succeed. Each is made once at most.
abbrev pub System : Type 0
System = SystemCall → Bool

-- Memory of the heap: a pointer to what was freed is kept.
pub data Memory : Type 0 where
  unallocated held freed : Memory

-- How the program ends: by a return, with whether that is CHRONOS_SUCCESS; by `exit(0)` after the
-- usage; by undefined behaviour; or the model is out of fuel.
pub data Ending : Type 0 where
  returned : Bool → Ending
  left crashed unfinished : Ending

module _ (lib : Library) where
  pub record ServerState : Type 0 where
    pub db_world : lib.World
    pub has_context : Bool
    -- `userTxnQueueP` and `sysTxnQueueP` are set
    pub has_queues : Bool
    pub ready : List Sync
    pub destroyed : List Sync
    -- `benchmarkCtxtP`
    pub handle : Option (State lib)
    -- `dataItemsArray`
    pub items : Memory
    pub updaters : ℕ
    pub listening : Bool
    pub joined : Bool

  abbrev pub MainStep : Type 0
  MainStep = ServerState → Outcome (Unit {0}) × ServerState

  abbrev pub no_context : lib.World → ServerState
  no_context w = record {
    db_world = w;
    has_context = false;
    has_queues = false;
    ready = [];
    destroyed = [];
    handle = none;
    items = unallocated;
    updaters = 0;
    listening = false;
    joined = false;
  }

-- A number that is not zero.
abbrev pub is_set : ℤ → Bool
is_set (pos zero) = false
is_set (pos (suc n)) = true
is_set (negsuc n) = true

-- How often a loop up to a bound runs.
abbrev pub loop_bound : ℤ → ℕ
loop_bound (pos n) = n
loop_bound (negsuc n) = 0

module _ {lib : Library} where
  abbrev pub proceed :
      Outcome (Unit {0}) × ServerState lib → MainStep lib → Outcome (Unit {0}) × ServerState lib
  proceed (ok u, st) next = next st
  proceed (fail, st) next = (fail, st)
  proceed (crash, st) next = (crash, st)
  proceed (out_of_fuel, st) next = (out_of_fuel, st)

  infixl 5 ◌>>◌
  abbrev pub ◌>>◌ : MainStep lib → MainStep lib → MainStep lib
  ◌>>◌ m n st = proceed (m st) n

  -- A call with what it changes where it succeeds.
  abbrev pub call_then : Bool → (ServerState lib → ServerState lib) → MainStep lib
  call_then true f st = (ok tt, f st)
  call_then false f st = (fail, st)

  abbrev pub call : Bool → MainStep lib
  call b = call_then b (λ st. st)

  abbrev pub init_syncs : System → List Sync → MainStep lib
  init_syncs sys [] st = (ok tt, st)
  init_syncs sys (s ∷ ss) st =
      proceed (call_then (sys (init_sync s)) (λ st. record st { ready = st.ready ++ (s ∷ []) }) st)
        (init_syncs sys ss)

  -- A function of the library that leaves no handle behind, and one that gives out a handle.
  abbrev pub keep_world : Outcome (Unit {0}) × State lib → MainStep lib
  keep_world (o, h) st = (o, record st { db_world = h.world })

  abbrev pub keep_handle : Outcome (Unit {0}) × State lib → MainStep lib
  keep_handle (ok u, h) st = (ok tt, record st { db_world = h.world; handle = some h })
  keep_handle (fail, h) st = (fail, record st { db_world = h.world })
  keep_handle (crash, h) st = (crash, record st { db_world = h.world })
  keep_handle (out_of_fuel, h) st = (out_of_fuel, record st { db_world = h.world })

  abbrev pub load_tables : Bool → (Catalog → Step lib) → MainStep lib
  load_tables true load st = keep_world (benchmark_initial_load load (new_handle st.db_world)) st
  load_tables false load st = (ok tt, st)

  abbrev pub obtain_handle : Bool → Bool → MainStep lib
  obtain_handle symbols portfolios_read st =
      keep_handle (benchmark_handle_alloc false symbols portfolios_read (new_handle st.db_world)) st

  -- `n` threads, from number `i` on.
  abbrev pub spawn_updaters : System → ℕ → ℕ → MainStep lib
  spawn_updaters sys zero i st = (ok tt, st)
  spawn_updaters sys (suc n) i st =
      proceed
        (call_then (sys (spawn_updater i)) (λ st. record st { updaters = st.updaters + 1 }) st)
        (spawn_updaters sys n (i + 1))

  -- CHRONOS_UPDATE_TRANSACTIONS_ENABLED
  abbrev pub start_updaters : Bool → System → ℕ → MainStep lib
  start_updaters true sys n st = proceed (call (sys alloc_updaters) st) (spawn_updaters sys n 0)
  start_updaters false sys n st = (ok tt, st)

  -- From the list of stocks on, to the joins, whose failure is logged.
  abbrev pub spawn_threads : Bool → System → ℕ → MainStep lib
  spawn_threads updates sys n = do
    call_then (sys alloc_items) (λ st. record st { items = held })
    start_updaters updates sys n
    call (sys alloc_listener)
    call_then (sys spawn_listener) (λ st. record st { listening = true })
    λ st. (ok tt, record st { joined = true })

  -- From the accepted command line on. `sampling` and `updates`
  -- are the build's CHRONOS_SAMPLING_ENABLED and CHRONOS_UPDATE_TRANSACTIONS_ENABLED; `listed` is what
  -- `benchmark_stock_list_get` comes to.
  abbrev pub run_server :
      {D : Type 0}
      → Bool
      → Bool
      → System
      → (Catalog → Step lib)
      → Bool
      → Bool
      → Bool
      → Config D
      → MainStep lib
  run_server sampling updates sys load symbols portfolios_read listed c = do
    call (sys set_signal)
    call (if sampling then sys create_timer else true)
    λ st. (ok tt, record st { has_queues = true })
    init_syncs sys initialised_syncs
    load_tables (is_set c.initial_load) load
    obtain_handle symbols portfolios_read
    call (sys attr_init)
    call (sys attr_stack)
    call listed
    spawn_threads updates sys (loop_bound c.num_update_threads)

  -- The exit destroys what the pointers lead to, initialised or not.
  abbrev pub destroy_syncs : ServerState lib → ServerState lib
  destroy_syncs st = record st {
    destroyed =
        st.destroyed
        ++ ((if st.has_queues
              then user_more ∷ user_less ∷ user_mutex ∷ sys_more ∷ sys_less ∷ sys_mutex ∷ []
              else [])
            ++ (if st.has_context then start_wait ∷ start_mutex ∷ [] else []));
  }

  -- A failure to release the handle goes to `failXit`, and so to the exit again.
  abbrev pub after_free :
      Outcome (Unit {0}) × State lib
      → (ServerState lib → Ending × ServerState lib)
      → Bool
      → ServerState lib
      → Ending × ServerState lib
  after_free (ok u, h) again rc st =
      (returned rc, record st { db_world = h.world; handle = some h })
  after_free (fail, h) again rc st = again (record st { db_world = h.world; handle = some h })
  after_free (crash, h) again rc st = (crashed, record st { db_world = h.world; handle = some h })
  after_free (out_of_fuel, h) again rc st =
      (unfinished, record st { db_world = h.world; handle = some h })

  abbrev pub free_handle :
      Option (State lib)
      → (ServerState lib → Ending × ServerState lib)
      → Bool
      → ServerState lib
      → Ending × ServerState lib
  free_handle none again rc st = (returned rc, st)
  free_handle (some h) again rc st = after_free (benchmark_handle_free h) again rc st

  -- `dataItemsArray` is freed where it is not NULL, and not set to NULL.
  abbrev pub free_context :
      Bool
      → Memory
      → (ServerState lib → Ending × ServerState lib)
      → Bool
      → ServerState lib
      → Ending × ServerState lib
  free_context false m again rc st = (returned rc, st)
  free_context true unallocated again rc st = free_handle st.handle again rc st
  free_context true held again rc st = free_handle st.handle again rc (record st { items = freed })
  free_context true freed again rc st = (crashed, st)

  -- The exit, on fuel: `rc` is what it would return.
  unfoldable pub cleanup : ℕ → Bool → ServerState lib → Ending × ServerState lib
  cleanup zero rc st = (unfinished, st)
  cleanup (suc n) rc st =
      let again = cleanup n false in
      free_context st.has_context st.items again rc (destroy_syncs st)

  abbrev pub end_main : ℕ → Outcome (Unit {0}) × ServerState lib → Ending × ServerState lib
  end_main fuel (ok u, st) = cleanup fuel true st
  end_main fuel (fail, st) = cleanup fuel false st
  end_main fuel (crash, st) = (crashed, st)
  end_main fuel (out_of_fuel, st) = (unfinished, st)

  abbrev pub with_arguments :
      {D : Type 0}
      → ℕ
      → Arguments D
      → (Config D → MainStep lib)
      → ServerState lib
      → Ending × ServerState lib
  with_arguments fuel (accepted c) run st = end_main fuel (run c st)
  with_arguments fuel rejected run st = cleanup fuel false st
  with_arguments fuel exited run st = (left, st)

  unfoldable pub main :
      {D : Type 0}
      → Doubles D
      → ℕ
      → Bool
      → Bool
      → System
      → (Catalog → Step lib)
      → Bool
      → Bool
      → Bool
      → List (ServerOption D)
      → lib.World
      → Ending × ServerState lib
  unfolding cleanup
  main d fuel sampling updates sys load symbols portfolios_read listed os w =
      let st : ServerState lib = no_context lib w in
      if sys alloc_context
      then (with_arguments fuel (process_arguments d os)
          (λ c. run_server sampling updates sys load symbols portfolios_read listed c)
          (record st { has_context = true }))
      else cleanup fuel false st
