-- ===== src/Populate.antt =====
-- The random portfolios of src/populate_portfolios.c: `benchmark_load_portfolio` and
-- `load_portfolio_database`. `rand k` is what the `k`-th call of `rand` returns; `stocks` is the list
-- of the handle, whose length is `number_stocks`.
pub mod Filled
pub mod Ranges
mod Tests
use chronos_prototype.Base.{
  ℕ, zero, suc, ◌+◌, ◌*◌, ◌%◌, Bool, true, false, Option, none, some, List, [], ◌∷◌, ◌==◌, ltb,
  length, get_elem?, on_result, if◌then◌else◌, Text,
}
use chronos_prototype.Base.Decimal.{decimal}
use chronos_prototype.Base.Int.{pos}
use chronos_prototype.Tables.{Portfolio}
use chronos_prototype.Db.{
  BerkeleyDb, M, pure, give_up, crashes, ◌>>=◌, ◌>>◌, reply, checked, or_fail, is_done, txn_of,
  txn_begin, commit, abort, insert_portfolio,
}

-- CHRONOS_PORTFOLIOS_NUM
abbrev pub portfolios_num : ℕ
portfolios_num = 100

-- `benchmarkP->stocks[rand() % benchmarkP->number_stocks]`, as far as it goes into its array: none for
-- a division by 0, for NULL, and for a text with no room.
abbrev pub if_short : Text → Option Text
if_short s = if ltb 9 (length s) then none else some s

abbrev pub pick_symbol : List (Option Text) → ℕ → Option Text
pick_symbol stocks r =
    if length stocks == 0
    then none
    else on_result (get_elem? stocks (r % length stocks)) none λ o. on_result o none if_short

-- The `i`-th portfolio takes three numbers: for the account, the symbol, and the amount.
abbrev pub starting_portfolio : ℕ → ℕ → ℕ → Text → Portfolio
starting_portfolio i account hold symbol = record {
  portfolio_id = decimal i;
  account_id = decimal (account % 50 + 1);
  symbol = symbol;
  hold_stocks = pos (hold % 100 + 1);
  to_sell = pos 0;
  number_sell = pos 0;
  price_sell = pos 0;
  to_buy = pos 0;
  number_buy = pos 0;
  price_buy = pos 0;
}

abbrev pub random_portfolio : (ℕ → ℕ) → List (Option Text) → ℕ → Option Portfolio
random_portfolio rand stocks i =
    on_result (pick_symbol stocks (rand (3 * i + 1))) none
      λ s. some (starting_portfolio i (rand (3 * i)) (rand (3 * i + 2)) s)

module _ {F : Type 0} (db : BerkeleyDb F) where
  open db use {Txn}

  -- One portfolio in a transaction of its own.
  unfoldable pub store_portfolio : Portfolio → M db (Unit {0})
  store_portfolio p = do
    t ← reply txn_begin >>= λ a. or_fail (txn_of a)
    a ← reply (insert_portfolio t p.portfolio_id p)
    if is_done a then checked (commit t) else (do reply (abort t); give_up)

  -- The loop, from portfolio `i` on.
  unfoldable pub load_from : (ℕ → ℕ) → List (Option Text) → ℕ → ℕ → M db (Unit {0})
  load_from rand stocks i zero = pure tt
  load_from rand stocks i (suc left) =
      on_result (random_portfolio rand stocks i) crashes
        λ p. do store_portfolio p; load_from rand stocks (i + 1) left

  unfoldable pub load_portfolio_database : (ℕ → ℕ) → List (Option Text) → M db (Unit {0})
  unfolding load_from
  load_portfolio_database rand stocks = load_from rand stocks 0 portfolios_num

  -- For no handle, it fails.
  pub benchmark_load_portfolio : (ℕ → ℕ) → Option (List (Option Text)) → M db (Unit {0})
  unfolding load_portfolio_database
  benchmark_load_portfolio rand none = give_up
  benchmark_load_portfolio rand (some stocks) = load_portfolio_database rand stocks
