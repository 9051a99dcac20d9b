-- ===== src/Handles/Allocated.antt =====
-- `benchmark_handle_alloc` of src/view_stock_txn.c.
use chronos_prototype.Base.{
  ◌≡◌, ◌≢◌, ◌⊎◌, inl, inr, refl, ◌∙◌, Bool, true, false, List, [], ◌∷◌, arith, All, all_nil,
  all_cons, All-mono,
}
use chronos_prototype.Db.{Outcome, ok, fail, crash}
use chronos_prototype.Handles.{
  Slot, Pointer, null, live, closed, malloc, Library, State, Step, continue, answer, alloc_name,
  or_crash, set_db_filenames, or_close, failed_alloc, read_tables, new_handle, with_env, close_all,
  closing_order, databases_close, benchmark_handle_alloc,
}
use chronos_prototype.Handles.Closing.{
  after_close, CloseFailed, Closes, all_closed, some_closed, close_all-Closes,
}
use chronos_prototype.Handles.Opening.{
  Ends, at_ok, at_fail, Ends-continue, IsSound, AllLive, databases_setup-AllLive,
}
use chronos_prototype.Handles.Lifetime.{closing_order-Distinct}

-- No primary database is left open, unless a close failed; and where any database is, so is the
-- environment, which nobody closes.
abbrev pub IsLeft : {lib : Library} → State lib → Type 0
IsLeft {lib} st =
    (All (λ s. st.dbs s ≢ live) closing_order ⊎ CloseFailed lib)
    × ((st.env ≡ live) ⊎ ((s : Slot) → st.dbs s ≢ live))

-- After the allocation: everything is open; or the handle is refused; or there was no memory for a
-- name, and the code writes through NULL.
pub data Allocated {lib : Library} : Outcome (Unit {0}) × State lib → Type 0 where
  given : {st : State lib} → AllLive st → Allocated (ok tt, st)
  refused : {st : State lib} → IsLeft st → Allocated (fail, st)
  no_name : {st : State lib} → ((s : Slot) → st.dbs s ≡ null) → Allocated (crash, st)

closed-ne-live : (p : Pointer) → after_close p ≢ live
closed-ne-live null = ground arith
closed-ne-live live = ground arith
closed-ne-live closed = ground arith

module _ {lib : Library} where
  abbrev Untouched : State lib → Type 0
  Untouched st = (s : Slot) → st.dbs s ≡ null

  data Named : Outcome (Unit {0}) × State lib → Type 0 where
    named : {st : State lib} → Untouched st → Named (ok tt, st)
    unnamed : {st : State lib} → Untouched st → Named (crash, st)

  Named-continue :
      {r : Outcome (Unit {0}) × State lib} (n : Step lib)
      → Named r
      → ((st : State lib) → Untouched st → Named (n st))
      → Named (continue r n)
  Named-continue n (named h) next = next _ h
  Named-continue n (unnamed h) next = unnamed h

  or_crash-Named :
      (a : Bool × lib.World) (st : State lib) → Untouched st → Named (or_crash (answer a st))
  or_crash-Named (true, w) st h = named h
  or_crash-Named (false, w) st h = unnamed h

  alloc_name-Named : (st : State lib) → Untouched st → Named (alloc_name st)
  alloc_name-Named st h = or_crash-Named (lib.succeeds malloc st.world) st h

  then_named :
      (n : Step lib)
      → ((st : State lib) → Untouched st → Named (n st))
      → (st : State lib) → Untouched st
      → Named (continue (alloc_name st) n)
  then_named n next st h = Named-continue n (alloc_name-Named st h) next

  set_db_filenames-Named : (st : State lib) → Untouched st → Named (set_db_filenames st)
  set_db_filenames-Named st h =
      then_named _
        (then_named _ (
          then_named _ (
            then_named _
              (then_named _ (then_named _ (then_named _ (λ st h. alloc_name-Named st h)))))))
        st h

  not_live :
      (s : Slot) (st st' : State lib)
      → st.dbs s ≡ null
      → (st'.dbs s ≡ st.dbs s) ⊎ (st'.dbs s ≡ closed)
      → st'.dbs s ≢ live
  not_live s st st' h (inl e) = rw (e ∙ h) (ground arith)
  not_live s st st' h (inr e) = rw e (ground arith)

  -- What stays open with the environment.
  still_open :
      (st st' : State lib)
      → IsSound st
      → st'.env ≡ st.env
      → ((s : Slot) → (st'.dbs s ≡ st.dbs s) ⊎ (st'.dbs s ≡ closed))
      → (st'.env ≡ live) ⊎ ((s : Slot) → st'.dbs s ≢ live)
  still_open st st' (sound, inl open_) env each = inl (env ∙ open_)
  still_open st st' (sound, inr none_open) env each =
      inr λ s. not_live s st st' (none_open s) (each s)

  failed_alloc-IsLeft :
      (st : State lib) {r : Outcome (Unit {0}) × State lib}
      → IsSound st
      → Closes closing_order st r
      → Ends AllLive IsLeft (failed_alloc r)
  failed_alloc-IsLeft st sound (all_closed {st = st'} env each shut rest) = at_fail (
    inl (All-mono (λ s e. rw e (closed-ne-live (st.dbs s))) shut),
    still_open st st' sound env each,
  )
  failed_alloc-IsLeft st sound (some_closed {st = st'} bad env each rest) =
      at_fail (inr bad, still_open st st' sound env each)

  sound_slots : (ss : List Slot) (st : State lib) → IsSound st → All (λ s. st.dbs s ≢ closed) ss
  sound_slots [] st sound = all_nil
  sound_slots (s ∷ ss) st sound = all_cons (sound.0 s) (sound_slots ss st sound)

  none_live : (ss : List Slot) (st : State lib) → Untouched st → All (λ s. st.dbs s ≢ live) ss
  none_live [] st h = all_nil
  none_live (s ∷ ss) st h = all_cons (rw (h s) (ground arith)) (none_live ss st h)

  Untouched-IsLeft : (st : State lib) → Untouched st → IsLeft st
  Untouched-IsLeft st h = (inl (none_live closing_order st h), inr (λ s. rw (h s) (ground arith)))

  without_env-IsLeft : (st : State lib) → st.env ≡ null → IsSound st → IsLeft st
  without_env-IsLeft st e (sound, inl open_) = absurd (ground (arith, e, open_))
  without_env-IsLeft st e (sound, inr h) = Untouched-IsLeft st h

  with_env-IsLeft :
      (p : Pointer) (st : State lib)
      → st.env ≡ p
      → IsSound st
      → Ends AllLive IsLeft (failed_alloc (with_env p (close_all closing_order) st))
  with_env-IsLeft null st e sound = at_fail (without_env-IsLeft st e sound)
  with_env-IsLeft live st e sound = failed_alloc-IsLeft st sound (
      close_all-Closes closing_order st closing_order-Distinct (sound_slots closing_order st sound))
  with_env-IsLeft closed st e sound = failed_alloc-IsLeft st sound (
      close_all-Closes closing_order st closing_order-Distinct (sound_slots closing_order st sound))

  or_close-IsLeft :
      {r : Outcome (Unit {0}) × State lib}
      → Ends AllLive IsSound r
      → Ends AllLive IsLeft (or_close r)
  unfolding databases_close
  or_close-IsLeft (at_ok h) = at_ok h
  or_close-IsLeft (at_fail {st = st} sound) = with_env-IsLeft st.env st refl sound

  live-IsSound : (st : State lib) → AllLive st → IsSound st
  live-IsSound st (env, dbs) = (λ s. rw (dbs s) (ground arith), inl env)

  read_tables-IsSound :
      (create symbols portfolios_read : Bool) (st : State lib)
      → AllLive st
      → Ends AllLive IsSound (read_tables create symbols portfolios_read st)
  read_tables-IsSound true symbols portfolios_read st h = at_ok h
  read_tables-IsSound false true true st h = at_ok h
  read_tables-IsSound false true false st h = at_fail (live-IsSound st h)
  read_tables-IsSound false false portfolios_read st h = at_fail (live-IsSound st h)

  Ends-Allocated : {r : Outcome (Unit {0}) × State lib} → Ends AllLive IsLeft r → Allocated r
  Ends-Allocated (at_ok h) = given h
  Ends-Allocated (at_fail h) = refused h

  Named-Allocated :
      {r : Outcome (Unit {0}) × State lib} (n : Step lib)
      → Named r
      → ((st : State lib) → Untouched st → Allocated (n st))
      → Allocated (continue r n)
  Named-Allocated n (named h) next = next _ h
  Named-Allocated n (unnamed h) next = no_name h

  -- The handle itself.
  malloc-Allocated :
      (a : Bool × lib.World) (st : State lib) (n : Step lib)
      → Untouched st
      → ((st : State lib) → Untouched st → Allocated (n st))
      → Allocated (continue (answer a st) n)
  malloc-Allocated (true, w) st n h next = next (record st { world = w }) h
  malloc-Allocated (false, w) st n h next = refused (Untouched-IsLeft (record st { world = w }) h)

  -- An allocation that succeeds gives a handle with the environment and every database open; one that
  -- is refused leaves no primary database open, unless a close failed, and the environment open where
  -- any database is; it crashes only where there is no memory for a name, before anything is opened.
  pub benchmark_handle_alloc-Allocated :
      (create symbols portfolios_read : Bool) (w : lib.World)
      → Allocated (benchmark_handle_alloc create symbols portfolios_read (new_handle {lib = lib} w))
  unfolding benchmark_handle_alloc
  benchmark_handle_alloc-Allocated create symbols portfolios_read w =
      malloc-Allocated (lib.succeeds malloc w) (new_handle w) _ (λ s. refl)
        λ st1 h1. Named-Allocated _ (set_db_filenames-Named st1 h1) λ st2 h2. Ends-Allocated (
          Ends-continue _ (or_close-IsLeft (databases_setup-AllLive st2 h2))
            λ st3 h3. or_close-IsLeft (read_tables-IsSound create symbols portfolios_read st3 h3))
