-- ===== src/Handles/Ending.antt =====
-- `benchmark_end` of src/benchmark_common.c closes what `databases_close` closes.
use chronos_prototype.Base.{
  ℕ, ◌≡◌, ◌≢◌, inl, inr, refl, ◌∙◌, ap, Bool, true, false, List, [], ◌∷◌, arith, All, all_nil,
  all_cons,
}
use chronos_prototype.Db.{Outcome, ok, fail, crash, out_of_fuel}
use chronos_prototype.Handles.{
  Slot, Pointer, null, live, closed, db_close, Library, State, Step, set_slot, continue, answer,
  has_flag, all_dbs_flag, close_pointer, close_database, close_all, closing_order, end_all,
  ending_order, databases_close, benchmark_end, with_env,
}
use chronos_prototype.Handles.Closing.{set_slot_closed}
use chronos_prototype.Handles.Opening.{AllLive}

abbrev NoneNull : {lib : Library} → State lib → Type 0
NoneNull st = (s : Slot) → st.dbs s ≢ null

-- The flags that are set.
abbrev AllSet : ℕ → List (ℕ × Slot) → Type 0
AllSet which = All (λ x. has_flag which x.0 ≡ true)

abbrev slots_of : List (ℕ × Slot) → List Slot
slots_of [] = []
slots_of (x ∷ xs) = x.1 ∷ slots_of xs

module _ {lib : Library} where
  close_database-eq :
      (p : Pointer) (s : Slot) (st : State lib)
      → p ≢ null
      → close_database p s st ≡ close_pointer p s st
  close_database-eq null s st h = absurd (h refl)
  close_database-eq live s st h = refl
  close_database-eq closed s st h = refl

  NoneNull-set :
      (s : Slot) (st : State lib) → NoneNull st → (s' : Slot) → set_slot s closed st.dbs s' ≢ null
  NoneNull-set s st h s' = elim (set_slot_closed s st.dbs s') [
    | inl e ↦ rw e (h s')
    | inr e ↦ rw e (ground arith)
  ]

  answer-NoneNull :
      (s : Slot) (st : State lib) (r : Bool × lib.World)
      → NoneNull st
      → NoneNull (answer r (record st { dbs = set_slot s closed st.dbs })).1
  answer-NoneNull s st (true, w) h = NoneNull-set s st h
  answer-NoneNull s st (false, w) h = NoneNull-set s st h

  close_pointer-NoneNull :
      (p : Pointer) (s : Slot) (st : State lib) → NoneNull st → NoneNull (close_pointer p s st).1
  close_pointer-NoneNull null s st h = h
  close_pointer-NoneNull live s st h = answer-NoneNull s st (lib.succeeds (db_close s) st.world) h
  close_pointer-NoneNull closed s st h = h

  continue-eq :
      (m n : Step lib) (r : Outcome (Unit {0}) × State lib)
      → NoneNull r.1
      → ((st : State lib) → NoneNull st → m st ≡ n st)
      → continue r m ≡ continue r n
  continue-eq m n (ok u, st) h e = e st h
  continue-eq m n (fail, st) h e = refl
  continue-eq m n (crash, st) h e = refl
  continue-eq m n (out_of_fuel, st) h e = refl

  end_all-eq :
      (which : ℕ) (xs : List (ℕ × Slot)) (st : State lib)
      → AllSet which xs
      → NoneNull st
      → end_all which xs st ≡ close_all (slots_of xs) st
  unfolding end_all close_all
  end_all-eq which [] st set h = refl
  end_all-eq which ((flag, s) ∷ xs) st (all_cons on set) h =
      ap (λ r. continue r (end_all which xs)) (rw on (close_database-eq (st.dbs s) s st (h s)))
      ∙ continue-eq (end_all which xs) (close_all (slots_of xs)) (close_pointer (st.dbs s) s st)
          (close_pointer-NoneNull (st.dbs s) s st h) (λ st' h'. end_all-eq which xs st' set h')

  with_env-eq :
      (p : Pointer) (m n : Step lib) (st : State lib)
      → m st ≡ n st
      → with_env p m st ≡ with_env p n st
  with_env-eq null m n st e = refl
  with_env-eq live m n st e = e
  with_env-eq closed m n st e = e

  -- With everything open and all flags, `benchmark_end` and `databases_close` do the same.
  pub benchmark_end-eq-databases_close :
      (st : State lib) → AllLive st → benchmark_end all_dbs_flag st ≡ databases_close st
  unfolding benchmark_end databases_close
  benchmark_end-eq-databases_close st (env, dbs) =
      with_env-eq st.env (end_all all_dbs_flag ending_order) (close_all closing_order) st (
        end_all-eq all_dbs_flag ending_order st
          (all_cons refl (
            all_cons refl (
              all_cons refl
                (all_cons refl (all_cons refl (all_cons refl (all_cons refl all_nil)))))))
          (λ s. rw (dbs s) (ground arith)))
