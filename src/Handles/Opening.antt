-- ===== src/Handles/Opening.antt =====
-- `databases_setup` of src/benchmark_common.c opens the environment and then every database.
use mathlib.Core.Path.{fun_ext}
use chronos_prototype.Base.{
  ◌==◌, ◌≡◌, ◌≢◌, ◌⊎◌, inl, inr, refl, sym, ◌∙◌, ap, subst, Bool, true, false, List, [], ◌∷◌, arith,
  Bool-cases, if◌then◌else◌,
}
use chronos_prototype.Db.{Outcome, ok, fail}
use chronos_prototype.Handles.{
  Slot, stocks, quotes, quotes_hist, portfolios, portfolios_sec, accounts, currencies, personal,
  number_of, Pointer, null, live, closed, LibraryCall, db_create, set_dupsort, db_open,
  set_lk_detect, set_shm_key, set_lock_timeout, set_txn_timeout, env_open, env_close, env_create,
  associate, Library, State, Step, set_slot, continue, answer, skip, call, configure_env,
  end_configure, end_create, open_environment, open_database, open_portfolios, databases_setup,
  all_dbs_flag,
}

-- A success where `Q` holds, or a failure where `E` holds; no crash.
pub data Ends {lib : Library} (Q E : State lib → Type 0)
    : Outcome (Unit {0}) × State lib → Type 0 where
  at_ok : {st : State lib} → Q st → Ends Q E (ok tt, st)
  at_fail : {st : State lib} → E st → Ends Q E (fail, st)

-- No pointer dangles, and a database is open only in an open environment.
abbrev pub IsSound : {lib : Library} → State lib → Type 0
IsSound st = ((s : Slot) → st.dbs s ≢ closed) × ((st.env ≡ live) ⊎ ((s : Slot) → st.dbs s ≡ null))

-- The environment is open and the pointers are `f`.
abbrev pub Has : {lib : Library} → (Slot → Pointer) → State lib → Type 0
Has f st = (st.env ≡ live) × (st.dbs ≡ f)

abbrev NoneClosed : (Slot → Pointer) → Type 0
NoneClosed f = (s : Slot) → f s ≢ closed

abbrev pub all_null : Slot → Pointer
all_null s = null

all_null-NoneClosed : NoneClosed all_null
all_null-NoneClosed s = ground arith

live-NoneClosed : (s : Slot) (f : Slot → Pointer) → NoneClosed f → NoneClosed (set_slot s live f)
live-NoneClosed s f h s' = elim (Bool-cases (number_of s' == number_of s)) [
  | inl e ↦ rw e (ground arith)
  | inr e ↦ rw e (h s')
]

-- One database more.
abbrev with_slots : List Slot → Slot → Pointer
with_slots [] = all_null
with_slots (s ∷ ss) = set_slot s live (with_slots ss)

with_slots-NoneClosed : (ss : List Slot) → NoneClosed (with_slots ss)
with_slots-NoneClosed [] = all_null-NoneClosed
with_slots-NoneClosed (s ∷ ss) = live-NoneClosed s (with_slots ss) (with_slots-NoneClosed ss)

abbrev seven : List Slot
seven = currencies ∷ accounts ∷ portfolios_sec ∷ portfolios ∷ quotes_hist ∷ quotes ∷ stocks ∷ []

slots_open : (s : Slot) → with_slots (personal ∷ seven) s ≡ live
slots_open stocks = refl
slots_open quotes = refl
slots_open quotes_hist = refl
slots_open portfolios = refl
slots_open portfolios_sec = refl
slots_open accounts = refl
slots_open currencies = refl
slots_open personal = refl

module _ {lib : Library} where
  pub Ends-continue :
      {Q R E : State lib → Type 0} {r : Outcome (Unit {0}) × State lib} (n : Step lib)
      → Ends Q E r
      → ((st : State lib) → Q st → Ends R E (n st))
      → Ends R E (continue r n)
  Ends-continue n (at_ok q) next = next _ q
  Ends-continue n (at_fail e) next = at_fail e

  Has-IsSound : (f : Slot → Pointer) (st : State lib) → NoneClosed f → Has f st → IsSound st
  Has-IsSound f st h (env, dbs) =
      (λ s. subst (λ (g : Slot → Pointer). g s ≢ closed) (sym dbs) (h s), inl env)

  -- A call keeps what is open.
  answer-Has :
      (f : Slot → Pointer) (r : Bool × lib.World) (st : State lib)
      → NoneClosed f
      → Has f st
      → Ends (Has f) IsSound (answer r st)
  answer-Has f (true, w) st h at = at_ok at
  answer-Has f (false, w) st h at = at_fail (Has-IsSound f (record st { world = w }) h at)

  opened-Has :
      (s : Slot) (f : Slot → Pointer) (st : State lib)
      → Has f st
      → Has (set_slot s live f) (record st { dbs = set_slot s live st.dbs })
  opened-Has s f st (env, dbs) = (env, ap (set_slot s live) dbs)

  call-Has :
      (c : LibraryCall) (f : Slot → Pointer) (st : State lib)
      → NoneClosed f
      → Has f st
      → Ends (Has f) IsSound (call c st)
  call-Has c f st h at = answer-Has f (lib.succeeds c st.world) st h at

  flags-Has :
      (second : Bool) (s : Slot) (f : Slot → Pointer) (st : State lib)
      → NoneClosed f
      → Has f st
      → Ends (Has f) IsSound ((if second then call (set_dupsort s) else skip) st)
  flags-Has true s f st h at = call-Has (set_dupsort s) f st h at
  flags-Has false s f st h at = at_ok at

  -- The pointer is set by the creation, so also a failure leaves it to be closed.
  open_database-Has :
      (s : Slot) (second : Bool) (f : Slot → Pointer) (st : State lib)
      → NoneClosed f
      → Has f st
      → Ends (Has (set_slot s live f)) IsSound (open_database s second st)
  unfolding open_database
  open_database-Has s second f st h at =
      let g = set_slot s live f in
      let h' = live-NoneClosed s f h in
      Ends-continue _ (call-Has (db_create s) f st h at) λ st1 at1.
        Ends-continue _
          (flags-Has second s g (record st1 { dbs = set_slot s live st1.dbs }) h'
            (opened-Has s f st1 at1))
          λ st2 at2. call-Has (db_open s) g st2 h' at2

  -- The environment of a fresh handle.
  abbrev Untouched : State lib → Type 0
  Untouched st = (s : Slot) → st.dbs s ≡ null

  answer-Untouched :
      (r : Bool × lib.World) (st : State lib)
      → Untouched st
      → Ends Untouched Untouched (answer r st)
  answer-Untouched (true, w) st h = at_ok h
  answer-Untouched (false, w) st h = at_fail h

  configure_env-Untouched :
      (st : State lib) → Untouched st → Ends Untouched Untouched (configure_env st)
  configure_env-Untouched st h =
      Ends-continue _ (answer-Untouched (lib.succeeds set_lk_detect st.world) st h) λ st1 h1.
        Ends-continue _ (answer-Untouched (lib.succeeds set_shm_key st1.world) st1 h1) λ st2 h2.
          Ends-continue _ (answer-Untouched (lib.succeeds set_lock_timeout st2.world) st2 h2)
            λ st3 h3.
              Ends-continue _ (answer-Untouched (lib.succeeds set_txn_timeout st3.world) st3 h3)
                λ st4 h4. answer-Untouched (lib.succeeds env_open st4.world) st4 h4

  null-IsSound : (st : State lib) → Untouched st → IsSound st
  null-IsSound st h = (λ s. rw (h s) (ground arith), inr h)

  end_configure-Has :
      {r : Outcome (Unit {0}) × State lib}
      → Ends Untouched Untouched r
      → Ends (Has all_null) IsSound (end_configure r)
  end_configure-Has (at_ok h) = at_ok (refl, fun_ext h)
  end_configure-Has (at_fail {st = st} h) =
      at_fail
        (null-IsSound (record st { world = (lib.succeeds env_close st.world).1; env = closed }) h)

  open_environment-Has :
      (r : Bool × lib.World) (st : State lib)
      → Untouched st
      → Ends (Has all_null) IsSound (end_create r st)
  open_environment-Has (true, w) st h =
      end_configure-Has (configure_env-Untouched (record st { world = w }) h)
  open_environment-Has (false, w) st h =
      at_fail (null-IsSound (record st { world = w; env = null }) h)

  open_next :
      (s : Slot) (second : Bool) (ss : List Slot) (st : State lib)
      → Has (with_slots ss) st
      → Ends (Has (with_slots (s ∷ ss))) IsSound (open_database s second st)
  open_next s second ss st at =
      open_database-Has s second (with_slots ss) st (with_slots-NoneClosed ss) at

  open_portfolios-Has :
      (ss : List Slot) (st : State lib)
      → Has (with_slots ss) st
      → Ends (Has (with_slots (portfolios_sec ∷ portfolios ∷ ss))) IsSound (open_portfolios 255 st)
  open_portfolios-Has ss st at =
      let full = portfolios_sec ∷ portfolios ∷ ss in
      Ends-continue _ (open_next portfolios false ss st at) λ st1 at1.
        Ends-continue _ (open_next portfolios_sec true (portfolios ∷ ss) st1 at1)
          λ st2 at2. call-Has associate (with_slots full) st2 (with_slots-NoneClosed full) at2

  abbrev pub AllLive : State lib → Type 0
  AllLive st = (st.env ≡ live) × ((s : Slot) → st.dbs s ≡ live)

  all_open :
      {r : Outcome (Unit {0}) × State lib}
      → Ends (Has (with_slots (personal ∷ seven))) IsSound r
      → Ends AllLive IsSound r
  all_open (at_ok (env, dbs)) =
      at_ok (env, λ s. ap (λ (f : Slot → Pointer). f s) dbs ∙ slots_open s)
  all_open (at_fail e) = at_fail e

  -- On a fresh handle, with all flags: a success has opened the environment and every database; a
  -- failure leaves no pointer to something closed, and no database without its environment. There is
  -- no crash.
  pub databases_setup-AllLive :
      (st : State lib)
      → ((s : Slot) → st.dbs s ≡ null)
      → Ends AllLive IsSound (databases_setup all_dbs_flag st)
  unfolding databases_setup open_environment
  databases_setup-AllLive st fresh =
      Ends-continue _ (open_environment-Has (lib.succeeds env_create st.world) st fresh) λ st1 at1.
        Ends-continue _ (open_next stocks false [] st1 at1) λ st2 at2.
          Ends-continue _ (open_next quotes false (stocks ∷ []) st2 at2) λ st3 at3.
            Ends-continue _ (open_next quotes_hist false (quotes ∷ stocks ∷ []) st3 at3) λ st4 at4.
              Ends-continue _ (open_portfolios-Has (quotes_hist ∷ quotes ∷ stocks ∷ []) st4 at4)
                λ st5 at5.
                  Ends-continue _
                    (open_next accounts false
                      (portfolios_sec ∷ portfolios ∷ quotes_hist ∷ quotes ∷ stocks ∷ []) st5 at5)
                    λ st6 at6.
                      Ends-continue _
                        (open_next currencies false
                          (accounts ∷ portfolios_sec ∷ portfolios ∷ quotes_hist ∷ quotes ∷ stocks
                            ∷ [])
                          st6 at6)
                        λ st7 at7. all_open (
                          open_next personal false
                            (currencies ∷ accounts ∷ portfolios_sec ∷ portfolios ∷ quotes_hist
                              ∷ quotes ∷ stocks ∷ [])
                            st7 at7)
