-- ===== src/Orders.antt =====
-- src/benchmark_common.c: the lookups and the order functions that run inside a transaction.
-- The handle `benchmarkP` is valid with its environment and databases open, and `xactH` is not NULL:
-- no live caller passes NULL (`benchmark_purchase` and `benchmark_sell` stop at an assert first, and
-- nothing calls `benchmark_view_stock`). On failure the functions then only return BENCHMARK_FAIL.
-- `fuel` bounds the scan of the secondary index.
pub mod Lookups
pub mod Spec
pub mod Parts
pub mod Place
pub mod Sell
pub mod Success
use chronos_prototype.Base.{
  ℕ, zero, suc, ◌+◌, Bool, true, false, ◌&&◌, ◌||◌, Option, none, some, [], ◌∷◌, ◌==◌,
  if◌then◌else◌, not, Text, text_eq,
}
use chronos_prototype.Base.Int.{ℤ, pos, ◌+ℤ◌, ◌-ℤ◌, ltb_ℤ, wrap32}
use chronos_prototype.Base.Decimal.{decimal}
use chronos_prototype.Tables.{Floats, Quote, Portfolio, XactData}
use chronos_prototype.Db.{
  Table, BerkeleyDb, starves, crashes, M, take_id, pure, give_up, ◌>>=◌, ◌>>◌, attempt, guard,
  reply, checked, is_done, cursor_of, quote_of, portfolio_of, or_fail, maybe, Request, open_cursor,
  close, get_key, get_quote, pget_next, put_quote, put_portfolio, insert_portfolio,
}
use chronos_prototype.Db

-- `s[0] == '\0'`
abbrev pub is_empty : Text → Bool
is_empty [] = true
is_empty (c ∷ cs) = false

module _ {F : Type 0} (db : BerkeleyDb F) where
  open db use {Txn, Cursor}

  -- A lookup whose only result is whether the key is there. No error is told from a missing key.
  key_exists : Table → Text → Txn → M db Bool
  key_exists table key t = do
    a ← reply (open_cursor table t)
    maybe (cursor_of a) (pure false)
        λ c. do found ← reply (get_key c key); reply (close c); pure (is_done found)

  pub account_exists : Text → Txn → M db Bool
  unfolding key_exists
  account_exists account t =
      if is_empty account then pure false else key_exists Table.personal account t

  pub symbol_exists : Text → Txn → M db Bool
  unfolding key_exists
  symbol_exists symbol t = if is_empty symbol then pure false else key_exists Table.stocks symbol t

  -- The flag is DB_RMW.
  pub get_stock : Text → Txn → Bool → M db (Quote F × Cursor)
  get_stock symbol t rmw = if is_empty symbol then give_up else (do
    c ← reply (open_cursor Table.quotes t) >>= λ a. or_fail (cursor_of a)
    a ← reply (get_quote c symbol rmw)
    maybe (quote_of a) (do reply (close c); give_up) pure)

  -- The loop over the secondary index; the key of an entry is the account of its record. At the
  -- end, or at an error, the cursor is closed.
  pub scan : ℕ → Text → Text → Cursor → M db (Text × Portfolio × Cursor)
  scan zero account symbol c = starves
  scan (suc fuel) account symbol c = do
    a ← reply (pget_next c)
    maybe (portfolio_of a) (do reply (close c); give_up)
        λ x.
          let (k, p, c') = x in
          let rest = scan fuel account symbol c' in
          if text_eq account p.account_id && text_eq symbol p.symbol then pure x else rest

  -- On bad arguments, or if no cursor can be opened, the failure path closes a NULL cursor.
  pub get_portfolio : ℕ → Text → Text → Txn → M db (Text × Portfolio × Cursor)
  get_portfolio fuel account symbol t = if is_empty account || is_empty symbol then crashes else (do
    a ← reply (open_cursor Table.portfolios_sec t)
    maybe (cursor_of a) crashes λ c. scan fuel account symbol c)

  -- Both kinds of order first look for the account and the symbol.
  pub check_known : XactData F → Txn → M db (Unit {0})
  check_known d t = do
    account_found ← account_exists d.account_id t
    guard account_found
    symbol_found ← symbol_exists d.symbol t
    guard symbol_found

  -- The record under key `k` in the primary database, with a cursor on it.
  pub locate : Text → Txn → M db (Portfolio × Cursor)
  locate k t = do
    c ← reply (open_cursor Table.portfolios t) >>= λ a. or_fail (cursor_of a)
    a ← reply (Request.get_portfolio c k)
    (k', p, c') ← or_fail (portfolio_of a)
    pure (p, c')

  -- The new record is written, and both cursors are closed.
  pub save : Cursor → Cursor → Portfolio → M db (Unit {0})
  save secondary primary p = do
    checked (put_portfolio primary p)
    checked (close secondary)
    checked (close primary)

module _ {F : Type 0} (fl : Floats F) where
  -- A record as `create_portfolio` fills it in.
  pub new_portfolio : Text → XactData F → ℕ → Portfolio
  new_portfolio id d force =
      if force == 0
      then record {
        portfolio_id = id;
        account_id = d.account_id;
        symbol = d.symbol;
        hold_stocks = pos 0;
        to_sell = pos 0;
        number_sell = pos 0;
        price_sell = pos 0;
        to_buy = pos 1;
        number_buy = d.amount;
        price_buy = fl.to_int d.price;
      }
      else record {
        portfolio_id = id;
        account_id = d.account_id;
        symbol = d.symbol;
        hold_stocks = d.amount;
        to_sell = pos 0;
        number_sell = pos 0;
        price_sell = pos 0;
        to_buy = pos 0;
        number_buy = pos 0;
        price_buy = pos 0;
      }

  -- The record that an order to buy, or to sell, leaves in place of `p`.
  pub bought : Portfolio → XactData F → ℕ → Portfolio
  bought p d force =
      if force == 1
      then record p { hold_stocks = wrap32 (p.hold_stocks +ℤ d.amount) }
      else record p { to_buy = pos 1; number_buy = d.amount; price_buy = fl.to_int d.price }

  pub sold : Portfolio → XactData F → ℕ → Portfolio
  sold p d force =
      if force == 1
      then record p { hold_stocks = wrap32 (p.hold_stocks -ℤ d.amount) }
      else record p { to_sell = pos 1; number_sell = d.amount; price_sell = fl.to_int d.price }

module _ {F : Type 0} (fl : Floats F) (db : BerkeleyDb F) where
  open db use {Txn, Cursor}

  pub create_portfolio : XactData F → ℕ → Txn → M db (Unit {0})
  create_portfolio d force t = do
    id ← take_id
    checked (insert_portfolio t (decimal id) (new_portfolio fl (decimal id) d force))

  -- A forced order looks at the current price; the cursor on the quote is never closed.
  pub buy_price_ok : XactData F → ℕ → Txn → M db (Unit {0})
  buy_price_ok d force t =
      if force == 1
      then (do (q, c) ← get_stock db d.symbol t false; guard (fl.le q.current_price d.price))
      else pure tt

  pub sell_price_ok : XactData F → ℕ → Txn → M db (Unit {0})
  sell_price_ok d force t =
      if force == 1
      then (do (q, c) ← get_stock db d.symbol t false; guard (fl.le d.price q.current_price))
      else pure tt

  -- The branch of `place_order` for a portfolio that is there, and the branch for none.
  pub add_to_portfolio : Text → Cursor → XactData F → ℕ → Txn → M db (Unit {0})
  add_to_portfolio k c d force t = do
    (p, c') ← locate db k t
    buy_price_ok d force t
    save db c c' (bought fl p d force)

  pub start_portfolio : XactData F → ℕ → Txn → M db (Unit {0})
  start_portfolio d force t = do buy_price_ok d force t; create_portfolio d force t

  pub place_order : ℕ → XactData F → ℕ → Txn → M db (Unit {0})
  unfolding add_to_portfolio start_portfolio
  place_order fuel d force t = do
    check_known db d t
    held ← attempt (get_portfolio db fuel d.account_id d.symbol t)
    maybe held (start_portfolio d force t) λ x. add_to_portfolio x.0 x.2 d force t

  -- The part of `sell_stocks` after its look at the portfolio.
  pub take_from_portfolio : Text → Cursor → XactData F → ℕ → Txn → M db (Unit {0})
  take_from_portfolio k c d force t = do
    (p, c') ← locate db k t
    sell_price_ok d force t
    save db c c' (sold fl p d force)

  pub sell_stocks : ℕ → XactData F → ℕ → Txn → M db (Unit {0})
  unfolding take_from_portfolio
  sell_stocks fuel d force t = do
    check_known db d t
    (k, held, c) ← get_portfolio db fuel d.account_id d.symbol t
    guard (not (ltb_ℤ held.hold_stocks d.amount))
    take_from_portfolio k c d force t
