-- ===== src/Server/Main/Cleanup.antt =====
-- The exit of `main` of src/startup_server.c, with the `goto failXit` in its last step.
use chronos_prototype.Base.{
  ℕ, zero, suc, ◌≡◌, ◌≢◌, refl, sym, ◌∙◌, ap, subst, Bool, true, false, Option, none, some, arith,
}
use chronos_prototype.Db.{Outcome, ok, fail, crash}
use chronos_prototype.Handles.{Slot, live, closed, null, Library, State, benchmark_handle_free}
use chronos_prototype.Handles.Opening.{AllLive}
use chronos_prototype.Handles.Lifetime.{
  AllClosed, Freed, all_free, database_kept, environment_lost, benchmark_handle_free-Freed,
  dangling,
}
use chronos_prototype.Initial.Ends.{no_env, again-crash}
use chronos_prototype.Server.Main.{
  Memory, unallocated, held, freed, Ending, returned, crashed, unfinished, ServerState,
  destroy_syncs, after_free, free_handle, free_context, cleanup,
}

-- There is no handle, or one with everything open.
abbrev pub Usable : {lib : Library} → Option (State lib) → Type 0
Usable none = Unit {0}
Usable (some h) = AllLive h

-- There is no handle, or one whose primary databases and environment are closed.
abbrev pub Gone : {lib : Library} → Option (State lib) → Type 0
Gone none = Unit {0}
Gone (some h) = AllClosed h × (h.env ≡ null)

-- What the release of the handle comes to.
abbrev pub Releases : {lib : Library} → Outcome (Unit {0}) → Option (State lib) → Type 0
Releases o none = o ≡ ok tt
Releases o (some h) = (benchmark_handle_free h).0 ≡ o

-- What the exit leaves as the start made it.
abbrev pub SameStart : {lib : Library} → ServerState lib → ServerState lib → Type 0
SameStart st st' =
    (st'.ready ≡ st.ready)
    × (st'.updaters ≡ st.updaters)
    × (st'.listening ≡ st.listening)
    × (st'.joined ≡ st.joined)

-- The exit from `st`: it returns `rc` where the handle is released, with the handle closed and the
-- items freed. Where the release fails it crashes, or goes round for ever, whatever the fuel.
pub data Cleaned {lib : Library} (st : ServerState lib) (rc : Bool) (r : Ending × ServerState lib)
    : Type 0 where
  released :
      r.0 ≡ returned rc
      → Releases (ok tt) st.handle
      → Gone r.1.handle
      → r.1.items ≢ held
      → SameStart st r.1
      → Cleaned st rc r
  broken : r.0 ≡ crashed → Releases fail st.handle → Cleaned st rc r
  for_ever :
      Releases fail st.handle
      → st.items ≡ unallocated
      → ((n : ℕ) → (cleanup n rc st).0 ≡ unfinished)
      → Cleaned st rc r

module _ {lib : Library} where
  -- A round, by the items and the handle.
  round_without :
      (n : ℕ) (rc : Bool) (st : ServerState lib) {o : Option (State lib)}
      → st.has_context ≡ true
      → st.items ≡ unallocated
      → st.handle ≡ o
      → cleanup (suc n) rc st ≡ free_handle o (cleanup n false) rc (destroy_syncs st)
  unfolding cleanup
  round_without n rc st e f g =
      let again : ServerState lib → Ending × ServerState lib = cleanup n false in
      (λ i. free_context (e i) (f i) again rc (destroy_syncs st))
      ∙ (λ i. free_handle (g i) again rc (destroy_syncs st))

  round_with :
      (n : ℕ) (rc : Bool) (st : ServerState lib) {o : Option (State lib)}
      → st.has_context ≡ true
      → st.items ≡ held
      → st.handle ≡ o
      → cleanup (suc n) rc st
        ≡ free_handle o (cleanup n false) rc (record (destroy_syncs st) { items = freed })
  unfolding cleanup
  round_with n rc st e f g =
      let again : ServerState lib → Ending × ServerState lib = cleanup n false in
      (λ i. free_context (e i) (f i) again rc (destroy_syncs st))
      ∙ (λ i. free_handle (g i) again rc (record (destroy_syncs st) { items = freed }))

  -- A second round frees the data items again.
  freed_twice :
      (n : ℕ) (rc : Bool) (st : ServerState lib)
      → st.has_context ≡ true
      → st.items ≡ freed
      → (cleanup (suc n) rc st).0 ≡ crashed
  unfolding cleanup
  freed_twice n rc st e f = rw (e, f) refl

  crash_in_free :
      (r : Outcome (Unit {0}) × State lib) (again : ServerState lib → Ending × ServerState lib)
      (rc : Bool) (st : ServerState lib)
      → r.0 ≡ crash
      → (after_free r again rc st).0 ≡ crashed
  crash_in_free (ok u, h) again rc st e = absurd (ground arith)
  crash_in_free (fail, h) again rc st e = absurd (ground arith)
  crash_in_free (crash, h) again rc st e = refl
  crash_in_free (Outcome.out_of_fuel, h) again rc st e = absurd (ground arith)

  -- Without items, a second round follows a pointer to a closed database,
  closed_twice :
      (n : ℕ) (rc : Bool) (st : ServerState lib) (h : State lib)
      → st.has_context ≡ true
      → st.items ≡ unallocated
      → st.handle ≡ some h
      → h.env ≡ live
      → h.dbs Slot.stocks ≡ closed
      → (cleanup (suc n) rc st).0 ≡ crashed
  closed_twice n rc st h e f g env shut =
      ap (λ (r : Ending × ServerState lib). r.0) (round_without n rc st e f g)
      ∙ crash_in_free (benchmark_handle_free h) (cleanup n false) rc (destroy_syncs st)
          (again-crash h (dangling h env shut))

  -- or finds no environment, and so do all that follow.
  without_env :
      (n : ℕ) (rc : Bool) (st : ServerState lib) (h : State lib)
      → st.has_context ≡ true
      → st.items ≡ unallocated
      → st.handle ≡ some h
      → h.env ≡ null
      → (cleanup n rc st).0 ≡ unfinished
  unfolding cleanup
  without_env zero rc st h e f g env = refl
  without_env (suc n) rc st h e f g env =
      ap (λ (r : Ending × ServerState lib). r.0) (round_without n rc st e f g)
      ∙ ap
          (λ (x : Outcome (Unit {0}) × State lib).
            (after_free x (cleanup n false) rc (destroy_syncs st)).0)
          (no_env h env)
      ∙ without_env n false (record (destroy_syncs st) { db_world = h.world; handle = some h }) h e
          f refl env

  -- Every round, where the first finds an environment that does not close.
  going_round :
      (n : ℕ) (rc : Bool) (st : ServerState lib) (h h' : State lib)
      → st.has_context ≡ true
      → st.items ≡ unallocated
      → st.handle ≡ some h
      → benchmark_handle_free h ≡ (fail, h')
      → h'.env ≡ null
      → (cleanup n rc st).0 ≡ unfinished
  unfolding cleanup
  going_round zero rc st h h' e f g b env = refl
  going_round (suc n) rc st h h' e f g b env =
      ap (λ (r : Ending × ServerState lib). r.0) (round_without n rc st e f g)
      ∙ ap
          (λ (x : Outcome (Unit {0}) × State lib).
            (after_free x (cleanup n false) rc (destroy_syncs st)).0)
          b
      ∙ without_env n false (record (destroy_syncs st) { db_world = h'.world; handle = some h' }) h'
          e f refl env

  gives :
      (o : Outcome (Unit {0})) (st : ServerState lib) (h h' : State lib)
      → st.handle ≡ some h
      → benchmark_handle_free h ≡ (o, h')
      → Releases o st.handle
  gives o st h h' g b =
      subst (Releases o) (sym g) (ap (λ (x : Outcome (Unit {0}) × State lib). x.0) b)

  -- The release of the handle, and what follows where it fails.
  free_empty-Cleaned :
      (n : ℕ) (rc : Bool) (st : ServerState lib) (h : State lib)
      → st.has_context ≡ true
      → st.items ≡ unallocated
      → st.handle ≡ some h
      → (x : Outcome (Unit {0}) × State lib) → benchmark_handle_free h ≡ x
      → Freed x
      → Cleaned st rc (after_free x (cleanup (suc n) false) rc (destroy_syncs st))
  free_empty-Cleaned n rc st h e f g x b (all_free {st = h'} shut sec env) =
      released refl (gives (ok tt) st h h' g b) (shut, env) (rw f (ground arith))
        (refl, refl, refl, refl)
  free_empty-Cleaned n rc st h e f g x b (database_kept {st = h'} bad env first each) =
      broken
        (closed_twice n false (record (destroy_syncs st) { db_world = h'.world; handle = some h' })
          h' e f refl env first)
        (gives fail st h h' g b)
  free_empty-Cleaned n rc st h e f g x b (environment_lost {st = h'} bad shut env) =
      for_ever (gives fail st h h' g b) f (λ m. going_round m rc st h h' e f g b env)

  again_freed :
      (n : ℕ) (rc : Bool) (st : ServerState lib) (h h' : State lib)
      → st.has_context ≡ true
      → st.handle ≡ some h
      → benchmark_handle_free h ≡ (fail, h')
      → Cleaned st rc (
          cleanup
            (suc n)
            false
            (record (destroy_syncs st) { db_world = h'.world; handle = some h'; items = freed }))
  again_freed n rc st h h' e g b =
      broken
        (freed_twice n false
          (record (destroy_syncs st) { db_world = h'.world; handle = some h'; items = freed }) e
          refl)
        (gives fail st h h' g b)

  free_held-Cleaned :
      (n : ℕ) (rc : Bool) (st : ServerState lib) (h : State lib)
      → st.has_context ≡ true
      → st.handle ≡ some h
      → (x : Outcome (Unit {0}) × State lib) → benchmark_handle_free h ≡ x
      → Freed x
      → Cleaned st rc
          (after_free x (cleanup (suc n) false) rc (record (destroy_syncs st) { items = freed }))
  free_held-Cleaned n rc st h e g x b (all_free {st = h'} shut sec env) =
      released refl (gives (ok tt) st h h' g b) (shut, env) (ground arith) (refl, refl, refl, refl)
  free_held-Cleaned n rc st h e g x b (database_kept {st = h'} bad env first each) =
      again_freed n rc st h h' e g b
  free_held-Cleaned n rc st h e g x b (environment_lost {st = h'} bad shut env) =
      again_freed n rc st h h' e g b

  cases-Cleaned :
      (n : ℕ) (rc : Bool) (st : ServerState lib) (m : Memory) (o : Option (State lib))
      → st.has_context ≡ true
      → st.items ≡ m
      → m ≢ freed
      → st.handle ≡ o
      → Usable o
      → Cleaned st rc (cleanup (suc (suc n)) rc st)
  cases-Cleaned n rc st unallocated none e f k g u =
      subst (Cleaned st rc) (sym (round_without (suc n) rc st e f g)) (
        released refl (subst (Releases (ok tt)) (sym g) refl) (subst Gone (sym g) tt)
          (rw f (ground arith)) (refl, refl, refl, refl))
  cases-Cleaned n rc st unallocated (some h) e f k g u =
      subst (Cleaned st rc) (sym (round_without (suc n) rc st e f g)) (
        free_empty-Cleaned n rc st h e f g (benchmark_handle_free h) refl
          (benchmark_handle_free-Freed h u))
  cases-Cleaned n rc st held none e f k g u =
      subst (Cleaned st rc) (sym (round_with (suc n) rc st e f g)) (
        released refl (subst (Releases (ok tt)) (sym g) refl) (subst Gone (sym g) tt) (ground arith)
          (refl, refl, refl, refl))
  cases-Cleaned n rc st held (some h) e f k g u =
      subst (Cleaned st rc) (sym (round_with (suc n) rc st e f g)) (
        free_held-Cleaned n rc st h e g (benchmark_handle_free h) refl
          (benchmark_handle_free-Freed h u))
  cases-Cleaned n rc st freed o e f k g u = absurd (k refl)

  -- From a state with the context, no handle or one with everything open, and items that were not
  -- freed, and with fuel for two rounds: the exit returns its result exactly where the release of the
  -- handle succeeds, with the handle closed and the items not held; where it fails, the exit crashes,
  -- or there are no items and it returns with no fuel at all.
  pub cleanup-Cleaned :
      (n : ℕ) (rc : Bool) (st : ServerState lib)
      → st.has_context ≡ true
      → st.items ≢ freed
      → Usable st.handle
      → Cleaned st rc (cleanup (suc (suc n)) rc st)
  cleanup-Cleaned n rc st e f u = cases-Cleaned n rc st st.items st.handle e refl f refl u
