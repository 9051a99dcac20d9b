-- ===== src/Server/Main/Ended.antt =====
-- How `main` of src/startup_server.c ends.
use chronos_prototype.Base.{
  ℕ, zero, suc, ◌+◌, ◌≡◌, ◌≢◌, refl, sym, ◌∙◌, ap, subst, Bool, true, false, List, [], ◌∷◌, ◌++◌,
  append_assoc, append-nil, arith, if◌then◌else◌,
}
use chronos_prototype.Db.{Outcome, ok, fail, crash, out_of_fuel}
use chronos_prototype.Load.{Catalog}
use chronos_prototype.Handles.{Library, State, Step, new_handle}
use chronos_prototype.Handles.Allocated.{
  Allocated, given, refused, no_name, benchmark_handle_alloc-Allocated,
}
use chronos_prototype.Initial.{benchmark_initial_load}
use chronos_prototype.Server.{Doubles}
use chronos_prototype.Server.Arguments.{
  ServerOption, Config, Arguments, accepted, rejected, exited, process_arguments,
}
use chronos_prototype.Server.Main.{
  Sync, initialised_syncs, System, set_signal, create_timer, attr_init, attr_stack, is_set,
  alloc_context, init_sync, spawn_updater, alloc_updaters, Memory, unallocated, held, freed, Ending,
  returned, left, crashed, unfinished, ServerState, MainStep, no_context, proceed, call_then,
  init_syncs, keep_world, keep_handle, load_tables, loop_bound, spawn_updaters, start_updaters,
  run_server, spawn_threads, alloc_items, alloc_listener, spawn_listener, cleanup, end_main,
  with_arguments, main,
}
use chronos_prototype.Server.Main.Started.{occurs, Started, all_but_tickets}
use chronos_prototype.Server.Main.Cleanup.{
  Usable, Gone, Cleaned, released, broken, for_ever, cleanup-Cleaned,
}

-- What the exit can deal with.
abbrev Clean : {lib : Library} → ServerState lib → Type 0
Clean st = (st.has_context ≡ true) × (st.items ≢ freed) × Usable st.handle

-- The start has got this far: the mutexes and conditions, the items, and the update threads.
abbrev Stage : {lib : Library} → List Sync → Memory → ℕ → ServerState lib → Type 0
Stage ready items k st =
    (st.ready ≡ ready)
    × (st.items ≡ items)
    × (st.updaters ≡ k)
    × (st.has_context ≡ true)
    × Usable st.handle

-- The steps of the start keep what the exit can deal with; the last one establishes `P`.
data Steps {lib : Library} (P : ServerState lib → Type 0)
    : Outcome (Unit {0}) × ServerState lib → Type 0 where
  went : {st : ServerState lib} → P st → Steps P (ok tt, st)
  stopped : {st : ServerState lib} → Clean st → Steps P (fail, st)
  died : {st : ServerState lib} → Steps P (crash, st)
  endless : {st : ServerState lib} → Steps P (out_of_fuel, st)

-- The update threads that a command line and the build ask for.
abbrev pub wanted : {D : Type 0} → Bool → Arguments D → ℕ
wanted updates (accepted c) = if updates then loop_bound c.num_update_threads else 0
wanted updates rejected = 0
wanted updates exited = 0

-- The end of the program: after the usage; with everything started, joined and released; refused, with
-- nothing held; or not by a return.
pub data Ended {lib : Library} (n : ℕ) (r : Ending × ServerState lib) : Type 0 where
  usage : r.0 ≡ left → Ended n r
  served : r.0 ≡ returned true → Started n r.1 → Gone r.1.handle → r.1.items ≢ held → Ended n r
  turned_down : r.0 ≡ returned false → Gone r.1.handle → r.1.items ≢ held → Ended n r
  undefined : r.0 ≡ crashed → Ended n r
  running : r.0 ≡ unfinished → Ended n r

module _ {lib : Library} where
  Steps-proceed :
      {P Q : ServerState lib → Type 0} {r : Outcome (Unit {0}) × ServerState lib}
      (next : MainStep lib)
      → Steps P r
      → ((st : ServerState lib) → P st → Steps Q (next st))
      → Steps Q (proceed r next)
  Steps-proceed next (went p) k = k _ p
  Steps-proceed next (stopped c) k = stopped c
  Steps-proceed next died k = died
  Steps-proceed next endless k = endless

  call_then-Steps :
      {Q : ServerState lib → Type 0} (b : Bool) (f : ServerState lib → ServerState lib)
      (st : ServerState lib)
      → Clean st
      → Q (f st)
      → Steps Q (call_then b f st)
  call_then-Steps true f st c q = went q
  call_then-Steps false f st c q = stopped c

  Stage-Clean :
      {ready : List Sync} {m : Memory} {k : ℕ} (st : ServerState lib)
      → m ≢ freed
      → Stage ready m k st
      → Clean st
  Stage-Clean st h (r, i, u, c, g) = (c, (λ e. h (sym i ∙ e)), g)

  call-Steps :
      {ready : List Sync} {m : Memory} {k : ℕ} (b : Bool) (st : ServerState lib)
      → m ≢ freed
      → Stage ready m k st
      → Steps (Stage ready m k) (call_then b (λ st. st) st)
  call-Steps b st h at = call_then-Steps b (λ st. st) st (Stage-Clean st h at) at

  init_syncs-Steps :
      (sys : System) (ss done : List Sync) (st : ServerState lib)
      → Stage done unallocated 0 st
      → Steps (Stage (done ++ ss) unallocated 0) (init_syncs sys ss st)
  init_syncs-Steps sys [] done st (r, m, u, c, g) = went (r ∙ sym (append-nil done), m, u, c, g)
  init_syncs-Steps sys (s ∷ ss) done st (r, m, u, c, g) =
      Steps-proceed {P = Stage (done ++ (s ∷ [])) unallocated 0} (init_syncs sys ss)
        (call_then-Steps (sys (init_sync s)) _ st (Stage-Clean st (ground arith) (r, m, u, c, g))
          (ap (λ (l : List Sync). l ++ (s ∷ [])) r, m, u, c, g))
        λ st1 at1.
          subst (λ l. Steps (Stage l unallocated 0) (init_syncs sys ss st1))
            (append_assoc done (s ∷ []) ss) (init_syncs-Steps sys ss (done ++ (s ∷ [])) st1 at1)

  keep_world-Steps :
      {ready : List Sync} (x : Outcome (Unit {0}) × State lib) (st : ServerState lib)
      → Stage ready unallocated 0 st
      → Steps (Stage ready unallocated 0) (keep_world x st)
  keep_world-Steps (ok u, h) st at = went at
  keep_world-Steps (fail, h) st at =
      stopped (Stage-Clean (record st { db_world = h.world }) (ground arith) at)
  keep_world-Steps (crash, h) st at = died
  keep_world-Steps (out_of_fuel, h) st at = endless

  load_tables-Steps :
      {ready : List Sync} (b : Bool) (load : Catalog → Step lib) (st : ServerState lib)
      → Stage ready unallocated 0 st
      → Steps (Stage ready unallocated 0) (load_tables b load st)
  load_tables-Steps true load st at =
      keep_world-Steps (benchmark_initial_load load (new_handle st.db_world)) st at
  load_tables-Steps false load st at = went at

  keep_handle-Steps :
      {ready : List Sync} {x : Outcome (Unit {0}) × State lib} (st : ServerState lib)
      → Allocated x
      → Stage ready unallocated 0 st
      → Steps (Stage ready unallocated 0) (keep_handle x st)
  keep_handle-Steps st (given live) (r, i, u, c, g) = went (r, i, u, c, live)
  keep_handle-Steps st (refused {st = h} l) at =
      stopped (Stage-Clean (record st { db_world = h.world }) (ground arith) at)
  keep_handle-Steps st (no_name n) at = died

  spawn_updaters-Steps :
      {ready : List Sync} (sys : System) (n i k : ℕ) (st : ServerState lib)
      → Stage ready held k st
      → Steps (Stage ready held (k + n)) (spawn_updaters sys n i st)
  spawn_updaters-Steps {ready} sys zero i k st at =
      subst (λ m. Steps (Stage ready held m) (spawn_updaters sys zero i st)) (omega arith) (went at)
  spawn_updaters-Steps {ready} sys (suc n) i k st (r, m, u, c, g) =
      Steps-proceed {P = Stage ready held (k + 1)} (spawn_updaters sys n (i + 1))
        (call_then-Steps (sys (spawn_updater i)) _ st
          (Stage-Clean st (ground arith) (r, m, u, c, g)) (r, m, ap (λ (j : ℕ). j + 1) u, c, g))
        λ st1 at1.
          subst (λ j. Steps (Stage ready held j) (spawn_updaters sys n (i + 1) st1)) (omega arith)
            (spawn_updaters-Steps sys n (i + 1) (k + 1) st1 at1)

  start_updaters-Steps :
      {ready : List Sync} (updates : Bool) (sys : System) (n : ℕ) (st : ServerState lib)
      → Stage ready held 0 st
      → Steps (Stage ready held (if updates then n else 0)) (start_updaters updates sys n st)
  start_updaters-Steps {ready} true sys n st at =
      Steps-proceed (spawn_updaters sys n 0) (call-Steps (sys alloc_updaters) st (ground arith) at)
        λ st1 at1.
          subst (λ j. Steps (Stage ready held j) (spawn_updaters sys n 0 st1)) (omega arith)
            (spawn_updaters-Steps sys n 0 0 st1 at1)
  start_updaters-Steps false sys n st at = went at

  -- The whole start, with the state that the exit gets.
  abbrev Ready : ℕ → ServerState lib → Type 0
  Ready n st = Started n st × Clean st

  last_steps :
      {n : ℕ} (st : ServerState lib)
      → Stage initialised_syncs held n st
      → Ready n (record st { listening = true; joined = true })
  last_steps st (r, m, u, c, g) = (
    (λ s. ap (λ (l : List Sync). occurs s l) r ∙ all_but_tickets s, u, refl, refl),
    (c, rw m (ground arith), g),
  )

  -- From the list of stocks on.
  threads-Steps :
      (updates : Bool) (sys : System) (n : ℕ) (st : ServerState lib)
      → Stage initialised_syncs unallocated 0 st
      → Steps (Ready (if updates then n else 0)) (spawn_threads updates sys n st)
  threads-Steps updates sys n st (r, m, u, c, g) =
      Steps-proceed {P = Stage initialised_syncs held 0} _
        (call_then-Steps (sys alloc_items) _ st (Stage-Clean st (ground arith) (r, m, u, c, g))
          (r, refl, u, c, g))
        λ st1 at1. Steps-proceed _ (start_updaters-Steps updates sys n st1 at1) λ st2 at2.
          Steps-proceed _ (call-Steps (sys alloc_listener) st2 (ground arith) at2) λ st3 at3.
            Steps-proceed {P = λ st. Ready (if updates then n else 0) (record st { joined = true })}
              _
              (call_then-Steps (sys spawn_listener) _ st3 (Stage-Clean st3 (ground arith) at3)
                (last_steps st3 at3))
              (λ st4 at4. went at4)

  run_server-Steps :
      {D : Type 0} (sampling updates : Bool) (sys : System) (load : Catalog → Step lib)
      (symbols portfolios_read listed : Bool) (c : Config D) (st : ServerState lib)
      → Stage [] unallocated 0 st
      → Steps
          (Ready (if updates then loop_bound c.num_update_threads else 0))
          (run_server sampling updates sys load symbols portfolios_read listed c st)
  run_server-Steps sampling updates sys load symbols portfolios_read listed c st at =
      Steps-proceed _ (call-Steps (sys set_signal) st (ground arith) at) λ st1 at1.
        Steps-proceed _
          (call-Steps (if sampling then sys create_timer else true) st1 (ground arith) at1)
          λ st2 at2.
            Steps-proceed _
              (init_syncs-Steps sys initialised_syncs [] (record st2 { has_queues = true }) at2)
              λ st3 at3.
                Steps-proceed _ (load_tables-Steps (is_set c.initial_load) load st3 at3) λ st4 at4.
                  Steps-proceed _
                    (keep_handle-Steps st4
                      (benchmark_handle_alloc-Allocated false symbols portfolios_read st4.db_world)
                      at4)
                    λ st5 at5.
                      Steps-proceed _ (call-Steps (sys attr_init) st5 (ground arith) at5) λ st6 at6.
                        Steps-proceed _ (call-Steps (sys attr_stack) st6 (ground arith) at6)
                          λ st7 at7.
                            Steps-proceed _ (call-Steps listed st7 (ground arith) at7) λ st8 at8.
                              threads-Steps updates sys (loop_bound c.num_update_threads) st8 at8

  served-Ended :
      (n k : ℕ) (st : ServerState lib)
      → Ready k st
      → Cleaned st true (cleanup (suc (suc n)) true st)
      → Ended k (cleanup (suc (suc n)) true st)
  served-Ended n k st ((r, u, l, j), c) (released e b gone_ items_ (r', u', l', j')) =
      served e ((λ s. ap (λ (l : List Sync). occurs s l) r' ∙ r s), u' ∙ u, l' ∙ l, j' ∙ j) gone_
        items_
  served-Ended n k st at (broken e b) = undefined e
  served-Ended n k st at (for_ever b i each) = running (each (suc (suc n)))

  failed-Ended :
      (n k : ℕ) (st : ServerState lib)
      → Cleaned st false (cleanup (suc (suc n)) false st)
      → Ended k (cleanup (suc (suc n)) false st)
  failed-Ended n k st (released e b gone_ items_ same) = turned_down e gone_ items_
  failed-Ended n k st (broken e b) = undefined e
  failed-Ended n k st (for_ever b i each) = running (each (suc (suc n)))

  end_main-Ended :
      (n k : ℕ) {x : Outcome (Unit {0}) × ServerState lib}
      → Steps (Ready k) x
      → Ended k (end_main (suc (suc n)) x)
  end_main-Ended n k (went {st = st} (at, c)) =
      served-Ended n k st (at, c) (cleanup-Cleaned n true st c.0 c.1 c.2)
  end_main-Ended n k (stopped {st = st} (c, i, g)) =
      failed-Ended n k st (cleanup-Cleaned n false st c i g)
  end_main-Ended n k died = undefined refl
  end_main-Ended n k endless = running refl

  with_arguments-Ended :
      {D : Type 0} (n : ℕ) (sampling updates : Bool) (sys : System) (load : Catalog → Step lib)
      (symbols portfolios_read listed : Bool) (a : Arguments D) (st : ServerState lib)
      → Stage [] unallocated 0 st
      → Ended (wanted updates a) (
          with_arguments
            (suc (suc n))
            a
            (λ c. run_server sampling updates sys load symbols portfolios_read listed c)
            st)
  with_arguments-Ended n sampling updates sys load symbols portfolios_read listed (accepted c) st
        at =
      end_main-Ended n _
        (run_server-Steps sampling updates sys load symbols portfolios_read listed c st at)
  with_arguments-Ended n sampling updates sys load symbols portfolios_read listed rejected st at =
      let c = Stage-Clean st (ground arith) at in
      failed-Ended n 0 st (cleanup-Cleaned n false st c.0 c.1 c.2)
  with_arguments-Ended n sampling updates sys load symbols portfolios_read listed exited st at =
      usage refl

  allocated-Ended :
      (b : Bool) (k n : ℕ) (w : lib.World) (r : Ending × ServerState lib)
      → Ended k r
      → Ended k (if b then r else cleanup (suc (suc n)) false (no_context lib w))
  unfolding cleanup
  allocated-Ended true k n w r h = h
  allocated-Ended false k n w r h = turned_down refl tt (ground arith)

  -- Fuel for two rounds of the exit. A return of success comes after every mutex and condition but
  -- those of the tickets of the queues, which never are, was initialised, all the wanted update threads
  -- and the listener were started, and all were joined; it and a return of failure leave no handle, or
  -- one whose primary databases and environment are closed, and no data items. The other ends are that
  -- after the usage, undefined behaviour, and none.
  pub main-Ended :
      {D : Type 0} (d : Doubles D) (n : ℕ) (sampling updates : Bool) (sys : System)
      (load : Catalog → Step lib) (symbols portfolios_read listed : Bool)
      (os : List (ServerOption D)) (w : lib.World)
      → Ended
          (wanted updates (process_arguments d os))
          (main d (suc (suc n)) sampling updates sys load symbols portfolios_read listed os w)
  unfolding main
  main-Ended d n sampling updates sys load symbols portfolios_read listed os w =
      let st : ServerState lib = record (no_context lib w) { has_context = true } in
      allocated-Ended (sys alloc_context) _ n w _ (
        with_arguments-Ended n sampling updates sys load symbols portfolios_read listed
          (process_arguments d os) st (refl, refl, refl, refl, tt))
