-- ===== src/Handles/Lifetime.antt =====
-- The release of a handle: `benchmark_handle_free` of src/view_stock_txn.c.
use chronos_prototype.Base.{
  ◌≡◌, ◌≢◌, ◌⊎◌, inl, inr, refl, sym, ◌∙◌, ap, subst, Bool, true, false, List, [], ◌∷◌, arith, All,
  All-mono, all_nil, all_cons,
}
use chronos_prototype.Db.{Outcome, ok, fail, crash}
use chronos_prototype.Handles.{
  Slot, stocks, quotes, quotes_hist, portfolios, portfolios_sec, accounts, currencies, personal,
  null, live, closed, env_close, Library, State, continue, answer, close_all, close_env_pointer,
  closing_order, databases_close, close_environment, benchmark_handle_free,
}
use chronos_prototype.Handles.Closing.{
  after_close, CloseFailed, Closes, all_closed, some_closed, Distinct, Closes-env, close_all-Closes,
}
use chronos_prototype.Handles.Dangling.{close_all-first}
use chronos_prototype.Handles.Opening.{AllLive}

-- The primary databases are closed.
abbrev pub AllClosed : {lib : Library} → State lib → Type 0
AllClosed st = All (λ s. st.dbs s ≡ closed) closing_order

-- The call that closes the environment did not succeed.
abbrev pub EnvironmentFailed : Library → Type 0
EnvironmentFailed lib = (w : lib.World) × ((lib.succeeds env_close w).0 ≡ false)

-- After the release: the primary databases and the environment are closed, and the secondary index
-- is not; or a close has failed, of a database or of the environment.
pub data Freed {lib : Library} : Outcome (Unit {0}) × State lib → Type 0 where
  all_free :
      {st : State lib}
      → AllClosed st
      → st.dbs portfolios_sec ≡ live
      → st.env ≡ null
      → Freed (ok tt, st)
  database_kept :
      {st : State lib}
      → CloseFailed lib
      → st.env ≡ live
      → st.dbs stocks ≡ closed
      → ((s : Slot) → (st.dbs s ≡ live) ⊎ (st.dbs s ≡ closed))
      → Freed (fail, st)
  environment_lost :
      {st : State lib} → EnvironmentFailed lib → AllClosed st → st.env ≡ null → Freed (fail, st)

pub closing_order-Distinct : Distinct closing_order
closing_order-Distinct = (
  all_cons (omega arith) (
      all_cons (omega arith) (
        all_cons (omega arith)
          (all_cons (omega arith) (all_cons (omega arith) (all_cons (omega arith) all_nil))))),
  (
    all_cons (omega arith) (
        all_cons (omega arith)
          (all_cons (omega arith) (all_cons (omega arith) (all_cons (omega arith) all_nil)))),
    (
      all_cons (omega arith)
          (all_cons (omega arith) (all_cons (omega arith) (all_cons (omega arith) all_nil))),
      (
        all_cons (omega arith) (all_cons (omega arith) (all_cons (omega arith) all_nil)),
        (
          all_cons (omega arith) (all_cons (omega arith) all_nil),
          (all_cons (omega arith) all_nil, (all_nil, tt)),
        ),
      ),
    ),
  ),
)

module _ {lib : Library} where
  slots_open :
      (ss : List Slot) (st : State lib)
      → ((s : Slot) → st.dbs s ≡ live)
      → All (λ s. st.dbs s ≢ closed) ss
  slots_open [] st h = all_nil
  slots_open (s ∷ ss) st h = all_cons (rw (h s) (ground arith)) (slots_open ss st h)

  -- With the environment open, `databases_close` closes the pointers in their order.
  databases_close-open :
      (st : State lib) → st.env ≡ live → databases_close st ≡ close_all closing_order st
  unfolding databases_close
  databases_close-open st e = rw e refl

  AllLive-Closes : (st : State lib) → AllLive st → Closes closing_order st (databases_close st)
  AllLive-Closes st (env, dbs) =
      subst (Closes closing_order st) (sym (databases_close-open st env))
        (close_all-Closes closing_order st closing_order-Distinct (slots_open closing_order st dbs))

  answer-Freed :
      (st : State lib) (w : lib.World) (r : Bool × lib.World)
      → lib.succeeds env_close w ≡ r
      → AllClosed st
      → st.dbs portfolios_sec ≡ live
      → Freed (answer r (record st { env = null }))
  answer-Freed st w0 (true, w) a shut sec = all_free shut sec refl
  answer-Freed st w0 (false, w) a shut sec =
      environment_lost (w0, ap (λ (r : Bool × lib.World). r.0) a) shut refl

  databases_close-first : (st : State lib) → AllLive st → (databases_close st).1.dbs stocks ≡ closed
  databases_close-first st (env, dbs) =
      subst (λ r. r.1.dbs stocks ≡ closed) (sym (databases_close-open st env))
        (close_all-first stocks
          (quotes ∷ quotes_hist ∷ portfolios ∷ accounts ∷ currencies ∷ personal ∷ []) st
          (dbs stocks))

  -- A close of a pointer that dangles.
  pub dangling :
      (st : State lib) → st.env ≡ live → st.dbs stocks ≡ closed → (databases_close st).0 ≡ crash
  unfolding databases_close close_all
  dangling st env shut = rw (env, shut) refl

  still_live :
      (s : Slot) (st st' : State lib)
      → st.dbs s ≡ live
      → (st'.dbs s ≡ st.dbs s) ⊎ (st'.dbs s ≡ closed)
      → (st'.dbs s ≡ live) ⊎ (st'.dbs s ≡ closed)
  still_live s st st' h (inl e) = inl (e ∙ h)
  still_live s st st' h (inr e) = inr e

  Closes-Freed :
      (st : State lib) {r : Outcome (Unit {0}) × State lib}
      → AllLive st
      → Closes closing_order st r
      → r.1.dbs stocks ≡ closed
      → Freed (continue r close_environment)
  unfolding close_environment
  Closes-Freed st (env, dbs) (all_closed {st = st'} env' each shut rest) first =
      subst (λ p. Freed (close_env_pointer p st')) (sym (env' ∙ env))
        (answer-Freed st' st'.world (lib.succeeds env_close st'.world) refl
          (All-mono (λ s e. e ∙ ap after_close (dbs s)) shut)
          (rest portfolios_sec (
              all_cons (omega arith) (
                all_cons (omega arith) (
                  all_cons (omega arith) (
                    all_cons (omega arith) (
                      all_cons (omega arith)
                        (all_cons (omega arith) (all_cons (omega arith) all_nil)))))))
            ∙ dbs portfolios_sec))
  Closes-Freed st (env, dbs) (some_closed {st = st'} bad env' each rest) first =
      database_kept bad (env' ∙ env) first (λ s. still_live s st st' (dbs s) (each s))

  -- A release of a handle with everything open does not crash. A success closes each primary database
  -- and the environment, and leaves the secondary index open; a failure leaves the environment open
  -- with the first database closed, where a close of a database failed, or has closed all of these
  -- where the close of the environment failed.
  pub benchmark_handle_free-Freed : (st : State lib) → AllLive st → Freed (benchmark_handle_free st)
  unfolding benchmark_handle_free
  benchmark_handle_free-Freed st at =
      Closes-Freed st at (AllLive-Closes st at) (databases_close-first st at)

  -- After it has run once, `databases_close` follows a dangling pointer.
  pub databases_close-again :
      (st : State lib) → AllLive st → (databases_close (databases_close st).1).0 ≡ crash
  databases_close-again st at =
      let st1 = (databases_close st).1 in
      let env : st1.env ≡ live = Closes-env (AllLive-Closes st at) ∙ at.0 in
      dangling st1 env (databases_close-first st at)
