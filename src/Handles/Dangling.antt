-- ===== src/Handles/Dangling.antt =====
-- A database that `databases_close` of src/benchmark_common.c has closed stays a dangling pointer.
use chronos_prototype.Base.{◌≡◌, inl, inr, sym, ◌∙◌, subst, Bool, true, false, List, [], ◌∷◌}
use chronos_prototype.Db.{Outcome, ok, fail, crash, out_of_fuel}
use chronos_prototype.Handles.{
  Slot, Pointer, null, live, closed, db_close, Library, State, Step, set_slot, continue, answer,
  close_pointer, close_all,
}
use chronos_prototype.Handles.Closing.{set_slot_self, set_slot_closed}

module _ {lib : Library} where
  -- A closed slot stays so.
  answer-closed :
      (s s' : Slot) (st : State lib) (r : Bool × lib.World)
      → st.dbs s ≡ closed
      → (answer r (record st { dbs = set_slot s' closed st.dbs })).1.dbs s ≡ closed
  answer-closed s s' st (true, w) h = elim (set_slot_closed s' st.dbs s) [
    | inl e ↦ e ∙ h
    | inr e ↦ e
  ]
  answer-closed s s' st (false, w) h = elim (set_slot_closed s' st.dbs s) [
    | inl e ↦ e ∙ h
    | inr e ↦ e
  ]

  close_pointer-closed :
      (p : Pointer) (s s' : Slot) (st : State lib)
      → st.dbs s ≡ closed
      → (close_pointer p s' st).1.dbs s ≡ closed
  close_pointer-closed null s s' st h = h
  close_pointer-closed live s s' st h =
      answer-closed s s' st (lib.succeeds (db_close s') st.world) h
  close_pointer-closed closed s s' st h = h

  continue-closed :
      (s : Slot) (n : Step lib) (r : Outcome (Unit {0}) × State lib)
      → r.1.dbs s ≡ closed
      → ((st : State lib) → st.dbs s ≡ closed → (n st).1.dbs s ≡ closed)
      → (continue r n).1.dbs s ≡ closed
  continue-closed s n (ok u, st) h next = next st h
  continue-closed s n (fail, st) h next = h
  continue-closed s n (crash, st) h next = h
  continue-closed s n (out_of_fuel, st) h next = h

  close_all-closed :
      (s : Slot) (ss : List Slot) (st : State lib)
      → st.dbs s ≡ closed
      → (close_all ss st).1.dbs s ≡ closed
  unfolding close_all
  close_all-closed s [] st h = h
  close_all-closed s (s' ∷ ss) st h =
      continue-closed s (close_all ss) (close_pointer (st.dbs s') s' st)
        (close_pointer-closed (st.dbs s') s s' st h) (λ st' h'. close_all-closed s ss st' h')

  answer-first :
      (s : Slot) (st : State lib) (r : Bool × lib.World)
      → (answer r (record st { dbs = set_slot s closed st.dbs })).1.dbs s ≡ closed
  answer-first s st (true, w) = set_slot_self s closed st.dbs
  answer-first s st (false, w) = set_slot_self s closed st.dbs

  -- The first slot is closed, whatever comes of the rest.
  pub close_all-first :
      (s : Slot) (ss : List Slot) (st : State lib)
      → st.dbs s ≡ live
      → (close_all (s ∷ ss) st).1.dbs s ≡ closed
  unfolding close_all
  close_all-first s ss st h =
      continue-closed s (close_all ss) (close_pointer (st.dbs s) s st)
        (subst (λ p. (close_pointer p s st).1.dbs s ≡ closed) (sym h)
          (answer-first s st (lib.succeeds (db_close s) st.world)))
        (λ st' h'. close_all-closed s ss st' h')
