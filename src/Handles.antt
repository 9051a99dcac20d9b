-- ===== src/Handles.antt =====
-- The environment and the databases of a `BENCHMARK_DBS`: `open_environment`, `open_database`,
-- `databases_setup`, `databases_close`,
-- `benchmark_end` and `close_environment` of src/benchmark_common.c,
-- `benchmark_handle_alloc` and `benchmark_handle_free` of src/view_stock_txn.c. The calls of Berkeley
-- DB and of `malloc` are the parameter `Library`, which says of each whether it succeeds.
pub mod Closing
pub mod Dangling
pub mod Opening
pub mod Lifetime
pub mod Allocated
pub mod Ending
use chronos_prototype.Base.{
  ℕ, ◌+◌, ◌/◌, ◌%◌, ◌==◌, Bool, true, false, Option, none, some, List, [], ◌∷◌, if◌then◌else◌,
}
use chronos_prototype.Db.{Outcome, ok, fail, crash, out_of_fuel}

-- The databases with a pointer in the handle; `portfolios_sec` is `portfolios_sdbp`.
pub data Slot : Type 0 where
  stocks quotes quotes_hist portfolios portfolios_sec accounts currencies personal : Slot

-- Has a slot this number?
abbrev pub number_of : Slot → ℕ
number_of stocks = 0
number_of quotes = 1
number_of quotes_hist = 2
number_of portfolios = 3
number_of portfolios_sec = 4
number_of accounts = 5
number_of currencies = 6
number_of personal = 7

-- A pointer to a handle of Berkeley DB: NULL, to an open one, or to one that was closed. A handle is
-- gone after a close, also after one that fails.
pub data Pointer : Type 0 where
  null live closed : Pointer

pub data LibraryCall : Type 0 where
  malloc env_create set_lk_detect set_shm_key set_lock_timeout set_txn_timeout env_open :
      LibraryCall
  env_close associate : LibraryCall
  db_create set_dupsort db_open db_close : Slot → LibraryCall

pub record Library : Type 1 where
  pub World : Type 0
  pub succeeds : LibraryCall → World → Bool × World

module _ (lib : Library) where
  -- The fields of `BENCHMARK_DBS` that are pointers of Berkeley DB.
  pub record State : Type 0 where
    pub world : lib.World
    pub env : Pointer
    pub dbs : Slot → Pointer

  abbrev pub Step : Type 0
  Step = State → Outcome (Unit {0}) × State

abbrev pub set_slot : Slot → Pointer → (Slot → Pointer) → Slot → Pointer
set_slot s p f s' = if number_of s' == number_of s then p else f s'

-- `(which & flag) == flag`, for a flag of one bit.
abbrev pub has_flag : ℕ → ℕ → Bool
has_flag which flag = (which / flag) % 2 == 1

-- ALL_DBS_FLAG
abbrev pub all_dbs_flag : ℕ
all_dbs_flag = 255

abbrev pub closing_order : List Slot
closing_order = stocks ∷ quotes ∷ quotes_hist ∷ portfolios ∷ accounts ∷ currencies ∷ personal ∷ []

abbrev pub ending_order : List (ℕ × Slot)
ending_order =
    (1, stocks)
    ∷ (8, quotes)
    ∷ (16, quotes_hist)
    ∷ (32, portfolios)
    ∷ (64, accounts)
    ∷ (4, currencies)
    ∷ (2, personal)
    ∷ []

module _ {lib : Library} where
  abbrev pub continue : Outcome (Unit {0}) × State lib → Step lib → Outcome (Unit {0}) × State lib
  continue (ok u, st) next = next st
  continue (fail, st) next = (fail, st)
  continue (crash, st) next = (crash, st)
  continue (out_of_fuel, st) next = (out_of_fuel, st)

  infixl 5 ◌>>◌
  abbrev pub ◌>>◌ : Step lib → Step lib → Step lib
  ◌>>◌ m n st = continue (m st) n

  abbrev pub skip : Step lib
  skip st = (ok tt, st)

  abbrev pub answer : Bool × lib.World → State lib → Outcome (Unit {0}) × State lib
  answer (true, w) st = (ok tt, record st { world = w })
  answer (false, w) st = (fail, record st { world = w })

  -- A call whose failure is the caller's.
  abbrev pub call : LibraryCall → Step lib
  call c st = answer (lib.succeeds c st.world) st

  -- A call whose failure is only logged.
  abbrev pub try_call : LibraryCall → Step lib
  try_call c st = (ok tt, record st { world = (lib.succeeds c st.world).1 })

  abbrev pub set_env : Pointer → Step lib
  set_env p st = (ok tt, record st { env = p })

  abbrev pub set_db : Slot → Pointer → Step lib
  set_db s p st = (ok tt, record st { dbs = set_slot s p st.dbs })

  -- `*dbpp` is set before the open, and stays set where that fails.
  unfoldable pub open_database : Slot → Bool → Step lib
  open_database s is_secondary = do
    call (db_create s)
    set_db s live
    if is_secondary then call (set_dupsort s) else skip
    call (db_open s)

  -- The settings and the open of an environment that was created.
  abbrev pub configure_env : Step lib
  configure_env = do
    call set_lk_detect
    call set_shm_key
    call set_lock_timeout
    call set_txn_timeout
    call env_open

  -- The exit: the environment is closed, and the handle keeps the pointer.
  abbrev pub end_configure : Outcome (Unit {0}) × State lib → Outcome (Unit {0}) × State lib
  end_configure (fail, st) =
      (fail, record st { world = (lib.succeeds env_close st.world).1; env = closed })
  end_configure (o, st) = (o, record st { env = live })

  abbrev pub end_create : Bool × lib.World → State lib → Outcome (Unit {0}) × State lib
  end_create (false, w) st = (fail, record st { world = w; env = null })
  end_create (true, w) st = end_configure (configure_env (record st { world = w }))

  unfoldable pub open_environment : Step lib
  open_environment st = end_create (lib.succeeds env_create st.world) st

  abbrev pub open_if : ℕ → ℕ → Slot → Step lib
  open_if which flag s = if has_flag which flag then open_database s false else skip

  -- Portfolios with its secondary index, whose keys `get_account_id` gives.
  abbrev pub open_portfolios : ℕ → Step lib
  open_portfolios which =
      if has_flag which 32
      then (do open_database portfolios false; open_database portfolios_sec true; call associate)
      else skip

  unfoldable pub databases_setup : ℕ → Step lib
  databases_setup which = do
    open_environment
    open_if which 1 stocks
    open_if which 8 quotes
    open_if which 16 quotes_hist
    open_portfolios which
    open_if which 64 accounts
    open_if which 4 currencies
    open_if which 2 personal

  abbrev pub close_pointer : Pointer → Slot → Step lib
  close_pointer null s st = (ok tt, st)
  close_pointer live s st =
      answer (lib.succeeds (db_close s) st.world) (record st { dbs = set_slot s closed st.dbs })
  close_pointer closed s st = (crash, st)

  -- Every pointer that is not NULL is closed, and is not set to NULL.
  unfoldable pub close_all : List Slot → Step lib
  close_all [] st = (ok tt, st)
  close_all (s ∷ ss) st = continue (close_pointer (st.dbs s) s st) (close_all ss)

  abbrev pub with_env : Pointer → Step lib → Step lib
  with_env null next st = (fail, st)
  with_env p next st = next st

  -- Unlike above, a pointer that is NULL is an error.
  abbrev pub close_database : Pointer → Slot → Step lib
  close_database null s st = (fail, st)
  close_database live s st = close_pointer live s st
  close_database closed s st = (crash, st)

  abbrev pub end_one : ℕ → ℕ × Slot → Step lib
  end_one which (flag, s) st =
      (if has_flag which flag then close_database (st.dbs s) s else skip) st

  pub end_all : ℕ → List (ℕ × Slot) → Step lib
  end_all which [] st = (ok tt, st)
  end_all which (x ∷ xs) st = continue (end_one which x st) (end_all which xs)

  pub benchmark_end : ℕ → Step lib
  benchmark_end which st = with_env st.env (end_all which ending_order) st

  unfoldable pub databases_close : Step lib
  databases_close st = with_env st.env (close_all closing_order) st

  -- The result of the close of the environment is the function's, and the pointer becomes NULL.
  abbrev pub close_env_pointer : Pointer → Step lib
  close_env_pointer null st = (fail, st)
  close_env_pointer live st = answer (lib.succeeds env_close st.world) (record st { env = null })
  close_env_pointer closed st = (crash, st)

  unfoldable pub close_environment : Step lib
  close_environment st = close_env_pointer st.env st

  -- A fresh handle, all NULL.
  abbrev pub new_handle : lib.World → State lib
  new_handle w = record { world = w; env = null; dbs = λ s. null }

  -- The eight names of `set_db_filenames`, which are written without a test of `malloc`.
  abbrev pub or_crash : Outcome (Unit {0}) × State lib → Outcome (Unit {0}) × State lib
  or_crash (fail, st) = (crash, st)
  or_crash (o, st) = (o, st)

  abbrev pub alloc_name : Step lib
  alloc_name st = or_crash (call malloc st)

  abbrev pub set_db_filenames : Step lib
  set_db_filenames = do
    alloc_name
    alloc_name
    alloc_name
    alloc_name
    alloc_name
    alloc_name
    alloc_name
    alloc_name

  -- The exit of `benchmark_handle_alloc` closes the databases, whatever comes of it.
  abbrev pub failed_alloc : Outcome (Unit {0}) × State lib → Outcome (Unit {0}) × State lib
  failed_alloc (crash, st) = (crash, st)
  failed_alloc (o, st) = (fail, st)

  abbrev pub or_close : Outcome (Unit {0}) × State lib → Outcome (Unit {0}) × State lib
  or_close (fail, st) = failed_alloc (databases_close st)
  or_close (o, st) = (o, st)

  -- Without `create` the stocks are listed and the portfolios counted: `symbols` and `portfolios_read`
  -- are the results of these functions, which open and close no database. What a BENCHMARK_DEBUG build
  -- prints here is left out.
  abbrev pub read_tables : Bool → Bool → Bool → Step lib
  read_tables true symbols portfolios_read st = (ok tt, st)
  read_tables false true true st = (ok tt, st)
  read_tables false symbols portfolios_read st = (fail, st)

  -- The handle is the state; it is given out on success only.
  unfoldable pub benchmark_handle_alloc : Bool → Bool → Bool → Step lib
  unfolding databases_setup databases_close
  benchmark_handle_alloc create symbols portfolios_read = do
    call malloc
    set_db_filenames
    λ st. or_close (databases_setup all_dbs_flag st)
    λ st. or_close (read_tables create symbols portfolios_read st)

  unfoldable pub benchmark_handle_free : Step lib
  unfolding databases_close close_environment
  benchmark_handle_free = do databases_close; close_environment
