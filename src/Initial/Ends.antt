-- ===== src/Initial/Ends.antt =====
-- How `benchmark_initial_load` of src/benchmark_initial_load.c ends.
use chronos_prototype.Base.{
  Option, List, Text, ◌≡◌, ◌⊎◌, inl, inr, refl, sym, ◌∙◌, ap, subst, arith,
}
use chronos_prototype.Db.{Outcome, ok, fail, crash, out_of_fuel}
use chronos_prototype.Load.{LoadDb, Machine, Catalog, personal, stocks, currencies, quotes}
use chronos_prototype.Handles.{
  Slot, Pointer, portfolios_sec, null, live, closed, Library, State, Step, continue,
  databases_close, close_environment, benchmark_handle_free, failed_alloc,
}
use chronos_prototype.Handles.Closing.{CloseFailed}
use chronos_prototype.Handles.Opening.{AllLive}
use chronos_prototype.Handles.Lifetime.{
  AllClosed, Freed, all_free, database_kept, environment_lost, benchmark_handle_free-Freed,
  databases_close-again, dangling,
}
use chronos_prototype.Initial.{Shared, load_catalog, or_free, load_all, load_and_free}

-- A step that opens and closes nothing.
abbrev pub KeepsPointers : {lib : Library} → Step lib → Type 0
KeepsPointers {lib} m = (st : State lib) → ((m st).1.env ≡ st.env) × ((m st).1.dbs ≡ st.dbs)

-- The end of the loads with the release: all is closed after a success; after a failure all is
-- closed, or a close of a database has failed and the environment stays open. A crash, or a load that does not end,
-- is the load's or the release's.
pub data Ended {lib : Library} : Outcome (Unit {0}) × State lib → Type 0 where
  loaded :
      {st : State lib}
      → AllClosed st
      → st.dbs portfolios_sec ≡ live
      → st.env ≡ null
      → Ended (ok tt, st)
  unloaded :
      {st : State lib}
      → (AllClosed st × (st.env ≡ null))
        ⊎ (CloseFailed lib × (st.env ≡ live) × (st.dbs Slot.stocks ≡ closed))
      → Ended (fail, st)
  crashed : {st : State lib} → Ended (crash, st)
  starved : {st : State lib} → Ended (out_of_fuel, st)

module _ {lib : Library} where
  continue-kept :
      (r : Outcome (Unit {0}) × State lib) (n : Step lib) (st : State lib)
      → (r.1.env ≡ st.env) × (r.1.dbs ≡ st.dbs)
      → KeepsPointers n
      → ((continue r n).1.env ≡ st.env) × ((continue r n).1.dbs ≡ st.dbs)
  continue-kept (ok u, st1) n st h k = ((k st1).0 ∙ h.0, (k st1).1 ∙ h.1)
  continue-kept (fail, st1) n st h k = h
  continue-kept (crash, st1) n st h k = h
  continue-kept (out_of_fuel, st1) n st h k = h

  then-KeepsPointers :
      (m n : Step lib) → KeepsPointers m → KeepsPointers n → KeepsPointers (λ st. continue (m st) n)
  then-KeepsPointers m n h k st = continue-kept (m st) n st (h st) k

  load_all-KeepsPointers :
      (load : Catalog → Step lib)
      → ((t : Catalog) → KeepsPointers (load t))
      → KeepsPointers (load_all load)
  load_all-KeepsPointers load k = then-KeepsPointers (load personal) _ (k personal) (
      then-KeepsPointers (load stocks) _ (k stocks)
        (then-KeepsPointers (load currencies) (load quotes) (k currencies) (k quotes)))

  kept-AllLive :
      (st st' : State lib) → AllLive st → (st'.env ≡ st.env) × (st'.dbs ≡ st.dbs) → AllLive st'
  kept-AllLive st st' (env, dbs) (e, d) = (e ∙ env, λ s. ap (λ (f : Slot → Pointer). f s) d ∙ dbs s)

  -- The exit after a failed load.
  failed_load-Ended : {r : Outcome (Unit {0}) × State lib} → Freed r → Ended (failed_alloc r)
  failed_load-Ended (all_free shut sec env) = unloaded (inl (shut, env))
  failed_load-Ended (database_kept bad env first each) = unloaded (inr (bad, env, first))
  failed_load-Ended (environment_lost bad shut env) = unloaded (inl (shut, env))

  -- The release of a handle without an environment fails and does nothing.
  pub no_env : (st : State lib) → st.env ≡ null → benchmark_handle_free st ≡ (fail, st)
  unfolding benchmark_handle_free databases_close
  no_env st e = rw e refl

  crash_first :
      (r : Outcome (Unit {0}) × State lib) → r.0 ≡ crash → (continue r close_environment).0 ≡ crash
  crash_first (ok u, st) h = absurd (ground arith)
  crash_first (fail, st) h = absurd (ground arith)
  crash_first (crash, st) h = refl
  crash_first (out_of_fuel, st) h = absurd (ground arith)

  any_crash : (r : Outcome (Unit {0}) × State lib) → r.0 ≡ crash → Ended (failed_alloc r)
  any_crash (ok u, st) h = absurd (ground arith)
  any_crash (fail, st) h = absurd (ground arith)
  any_crash (crash, st) h = crashed
  any_crash (out_of_fuel, st) h = absurd (ground arith)

  -- The release of a handle that was released.
  pub again-crash :
      (st : State lib) → (databases_close st).0 ≡ crash → (benchmark_handle_free st).0 ≡ crash
  unfolding benchmark_handle_free
  again-crash st h = crash_first (databases_close st) h

  -- The second release, in the exit, of what the first left.
  Freed-Ended : {r : Outcome (Unit {0}) × State lib} → Freed r → Ended (or_free r)
  Freed-Ended (all_free shut sec env) = loaded shut sec env
  Freed-Ended (database_kept {st = st} bad env first each) =
      any_crash (benchmark_handle_free st) (again-crash st (dangling st env first))
  Freed-Ended (environment_lost {st = st} bad shut env) =
      subst (λ r. Ended (failed_alloc r)) (sym (no_env st env)) (unloaded (inl (shut, env)))

  free-Ended :
      (r : Outcome (Unit {0}) × State lib)
      → AllLive r.1
      → Ended (or_free (continue r benchmark_handle_free))
  free-Ended (ok u, st) h = Freed-Ended (benchmark_handle_free-Freed st h)
  free-Ended (fail, st) h = failed_load-Ended (benchmark_handle_free-Freed st h)
  free-Ended (crash, st) h = crashed
  free-Ended (out_of_fuel, st) h = starved

  crash_kept : (r : Outcome (Unit {0}) × State lib) → r.0 ≡ crash → (failed_alloc r).0 ≡ crash
  crash_kept (ok u, st) h = absurd (ground arith)
  crash_kept (fail, st) h = absurd (ground arith)
  crash_kept (crash, st) h = refl
  crash_kept (out_of_fuel, st) h = absurd (ground arith)

  or_free_again :
      (r : Outcome (Unit {0}) × State lib)
      → r.0 ≡ fail
      → (databases_close r.1).0 ≡ crash
      → (or_free (continue r close_environment)).0 ≡ crash
  or_free_again (ok u, st) h c = absurd (ground arith)
  or_free_again (fail, st) h c = crash_kept (benchmark_handle_free st) (again-crash st c)
  or_free_again (crash, st) h c = absurd (ground arith)
  or_free_again (out_of_fuel, st) h c = absurd (ground arith)

  second_release :
      (r : Outcome (Unit {0}) × State lib)
      → AllLive r.1
      → r.0 ≡ ok tt
      → (databases_close r.1).0 ≡ fail
      → (or_free (continue r benchmark_handle_free)).0 ≡ crash
  unfolding benchmark_handle_free
  second_release (ok u, st) h done failed =
      or_free_again (databases_close st) failed (databases_close-again st h)
  second_release (fail, st) h done failed = absurd (ground arith)
  second_release (crash, st) h done failed = absurd (ground arith)
  second_release (out_of_fuel, st) h done failed = absurd (ground arith)

  -- The loads of the catalogs open and close no database.
  load_catalog-KeepsPointers :
      {db : LoadDb} (link : Shared lib db) (mach : Machine) (files : Catalog → Option (List Text))
      (t : Catalog)
      → KeepsPointers (load_catalog link mach files t)
  load_catalog-KeepsPointers link mach files t st = (refl, refl)

  -- With a handle on which everything is open, and the loads of the four catalogs: a success has
  -- closed every primary database and the environment; after a failure these are closed too, or a
  -- close of a database has failed, and the environment is open.
  pub load_and_free-Ended :
      {db : LoadDb} (link : Shared lib db) (mach : Machine) (files : Catalog → Option (List Text))
      (st : State lib)
      → AllLive st
      → Ended (or_free (load_and_free (load_catalog link mach files) st))
  load_and_free-Ended link mach files st h =
      let load : Catalog → Step lib = load_catalog link mach files in
      free-Ended (load_all load st) (
        kept-AllLive st (load_all load st).1 h
          (load_all-KeepsPointers load (load_catalog-KeepsPointers link mach files) st))

  -- With a handle on which everything is open: where the loads succeed and then a database does not
  -- close, the exit releases the handle again, and follows a pointer to a database that was closed.
  pub load_and_free-crash :
      {db : LoadDb} (link : Shared lib db) (mach : Machine) (files : Catalog → Option (List Text))
      (st : State lib)
      → AllLive st
      → (load_all (load_catalog link mach files) st).0 ≡ ok tt
      → (databases_close (load_all (load_catalog link mach files) st).1).0 ≡ fail
      → (or_free (load_and_free (load_catalog link mach files) st)).0 ≡ crash
  load_and_free-crash link mach files st h all_loaded not_closed =
      let load : Catalog → Step lib = load_catalog link mach files in
      second_release (load_all load st)
        (kept-AllLive st (load_all load st).1 h
          (load_all-KeepsPointers load (load_catalog-KeepsPointers link mach files) st))
        all_loaded not_closed
