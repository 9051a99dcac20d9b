-- ===== src/Views.antt =====
-- The view of portfolios: src/view_portfolio_txn.c with `show_portfolios` and `show_one_portfolio` of
-- src/benchmark_common.c, for a valid handle, inside a transaction of the caller. What the functions
-- print is their result: the records shown, in order. `fuel` bounds the scans of Personal and of the
-- secondary index.
pub mod Displays
pub mod Output
pub mod Atomic
mod Tests
use chronos_prototype.Base.{
  ℕ, zero, suc, Bool, true, false, Option, none, some, List, [], ◌∷◌, ◌++◌, if◌then◌else◌, Text,
  text_eq,
}
use chronos_prototype.Tables.{Portfolio}
use chronos_prototype.Db.{
  Table, BerkeleyDb, starves, M, pure, give_up, ◌>>=◌, ◌>>◌, attempt, reply, is_done, is_no_more,
  cursor_of, key_of, portfolio_of, or_fail, maybe, open_cursor, close, get_key, next_key, pget_next,
}
use chronos_prototype.Orders.{is_empty}
use chronos_prototype.Xact.{run_xact}

-- What `show_personal_item` and `show_portfolio_item` print: the record of an account, and an entry
-- of the index with its key.
pub data Shown : Type 0 where
  person : Text → Shown
  holding : Text → Portfolio → Shown

-- The list of a call whose failure is only logged.
abbrev pub or_nothing : Option (List Shown) → List Shown
or_nothing none = []
or_nothing (some xs) = xs

module _ {F : Type 0} (db : BerkeleyDb F) where
  open db use {Txn, Cursor}

  -- The loop over the whole secondary index, which no error is told from the end of. A failure to
  -- close the cursor is only logged.
  pub show_entries : ℕ → Text → Cursor → M db (List Shown)
  show_entries zero account c = starves
  show_entries (suc fuel) account c = do
    a ← reply (pget_next c)
    maybe (portfolio_of a) (do reply (close c); pure [])
        λ x.
          let (k, p, c') = x in
          do
            rest ← show_entries fuel account c'
            pure (if text_eq account p.account_id then holding k p ∷ rest else rest)

  pub show_one_portfolio : ℕ → Text → Txn → M db (List Shown)
  show_one_portfolio fuel account t = do
    c ← reply (open_cursor Table.portfolios_sec t) >>= λ a. or_fail (cursor_of a)
    show_entries fuel account c

  -- A person, and its portfolios unless only users are wanted.
  pub show_account : ℕ → Text → Bool → Txn → M db (List Shown)
  show_account fuel account only_users t = if only_users then pure (person account ∷ []) else (do
    shown ← attempt (show_one_portfolio fuel account t)
    pure (person account ∷ or_nothing shown))

  -- The loop over all persons. An error other than the end leaves the cursor open.
  pub show_all : ℕ → ℕ → Bool → Cursor → Txn → M db (List Shown)
  show_all zero fuel only_users c t = starves
  show_all (suc rounds) fuel only_users c t = do
    a ← reply (next_key c)
    maybe (key_of a) (if is_no_more a then (do reply (close c); pure []) else give_up) λ x.
        let (account, c') = x in
        do
          shown ← show_account fuel account only_users t
          rest ← show_all rounds fuel only_users c' t
          pure (shown ++ rest)

  pub show_portfolios : ℕ → Text → Bool → Txn → M db (List Shown)
  unfolding show_all show_account
  show_portfolios fuel account only_users t = do
    c ← reply (open_cursor Table.personal t) >>= λ a. or_fail (cursor_of a)
    if is_empty account then show_all fuel fuel only_users c t else (do
      found ← reply (get_key c account)
      shown ← if is_done found then show_account fuel account only_users t else pure []
      reply (close c)
      pure shown)

  pub benchmark_view_portfolio2 : ℕ → List Text → M db (Unit {0})
  benchmark_view_portfolio2 fuel accounts =
      run_xact db "VIEW_PORTFOLIO_TXN"
        (λ t account. do show_portfolios fuel account false t; pure tt) accounts
