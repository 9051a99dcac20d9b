-- ===== src/Xact.antt =====
-- The transactions of the server: `start_xact`, `commit_xact`, `abort_xact`, `show_quote` and
-- `update_stock` of src/benchmark_common.c, with src/view_stock_txn.c, src/purchase_txn.c,
-- src/sell_txn.c and src/refresh_quotes.c, for a valid handle.
pub mod Atomic
pub mod Trade
pub mod Refresh
pub mod Solvent
pub mod Success
pub mod Example
mod Tests
use Prim.Native.String.{String}
use chronos_prototype.Base.{
  ℕ, Bool, true, false, ◌||◌, Option, none, some, List, [], ◌∷◌, ◌==◌, if◌then◌else◌, Text,
}
use chronos_prototype.Tables.{Floats, Quote, XactData}
use chronos_prototype.Db.{
  BerkeleyDb, M, pure, give_up, ◌>>=◌, ◌>>◌, attempt, guard, reply, checked, is_done, txn_of,
  or_fail, maybe, txn_begin, set_name, commit, abort, close, put_quote,
}
use chronos_prototype.Orders.{is_empty, get_stock, place_order, sell_stocks}

module _ {F : Type 0} (db : BerkeleyDb F) where
  open db use {Txn, Cursor}

  -- The transaction is given back, and the caller fails. The result of the abort is only logged.
  pub abandon : Txn → M db (Unit {0})
  abandon t = do reply (abort t); give_up

  pub start_xact : String → M db Txn
  unfolding abandon
  start_xact name = do
    t ← reply txn_begin >>= λ a. or_fail (txn_of a)
    a ← reply (set_name t name)
    if is_done a then pure t else (do abandon t; pure t)

  -- A commit that fails is followed by an abort of the same transaction.
  pub commit_xact : Txn → M db (Unit {0})
  unfolding abandon
  commit_xact t = do a ← reply (commit t); if is_done a then pure tt else abandon t

  pub for_each : {A : Type 0} → (A → M db (Unit {0})) → List A → M db (Unit {0})
  for_each f [] = pure tt
  for_each f (x ∷ xs) = do f x; for_each f xs

  -- The frame of `benchmark_view_stock2`, `benchmark_purchase2` and `benchmark_sell2`: the first item
  -- that fails ends the loop, and a failure after the start aborts, also one of the commit.
  pub run_xact : {A : Type 0} → String → (Txn → A → M db (Unit {0})) → List A → M db (Unit {0})
  unfolding start_xact commit_xact for_each abandon
  run_xact name item items = do
    t ← start_xact name
    r ← attempt (do for_each (item t) items; commit_xact t)
    maybe r (abandon t) pure

  -- Inside a transaction of the caller. A cursor that cannot be closed is a failure.
  pub show_quote : Text → Txn → M db (Unit {0})
  show_quote symbol t = do (q, c) ← get_stock db symbol t false; checked (close c)

  pub benchmark_view_stock2 : List Text → M db (Unit {0})
  unfolding run_xact show_quote
  benchmark_view_stock2 symbols =
      run_xact "VIEW_STOCK_TXN" (λ t symbol. show_quote symbol t) symbols

module _ {F : Type 0} (fl : Floats F) where
  -- The new price; `direction` is `rand() % 2`.
  pub new_quote : F → ℕ → Quote F → Quote F
  new_quote value direction q = record q {
    current_price =
        if fl.le fl.zero value
        then value
        else if direction == 0 || fl.le q.current_price fl.zero
        then fl.add_tenth q.current_price
        else fl.sub_tenth q.current_price;
  }

module _ {F : Type 0} (fl : Floats F) (db : BerkeleyDb F) where
  open db use {Txn, Cursor}

  pub benchmark_purchase2 : ℕ → List (XactData F) → M db (Unit {0})
  benchmark_purchase2 fuel items =
      run_xact db "PURCHASE_TXN" (λ t d. place_order fl db fuel d 1 t) items

  pub benchmark_sell2 : ℕ → List (XactData F) → M db (Unit {0})
  benchmark_sell2 fuel items = run_xact db "SELL_TXN" (λ t d. sell_stocks fl db fuel d 1 t) items

  -- `update_stock` from the cursor on: each failure closes the cursor if it is still open, and aborts.
  pub write_stock : Txn → Cursor → Quote F → M db (Unit {0})
  write_stock t c q = do
    put ← reply (put_quote c q)
    if is_done put
        then (do
          closed ← reply (close c)
          if is_done closed then commit_xact db t else (do reply (close c); abandon db t))
        else (do reply (close c); abandon db t)

  pub update_stock : Text → F → ℕ → M db (Unit {0})
  unfolding write_stock
  update_stock symbol value direction = do
    t ← reply txn_begin >>= λ a. or_fail (txn_of a)
    found ← attempt (get_stock db symbol t true)
    maybe found (abandon db t) λ x. write_stock t x.1 (new_quote fl value direction x.0)

  pub benchmark_refresh_quotes2 : Text → F → ℕ → M db (Unit {0})
  benchmark_refresh_quotes2 symbol value direction =
      if is_empty symbol then give_up else update_stock symbol value direction
