-- ===== src/Cache/Client.antt =====
-- src/chronos_cache.c: the reads of a client's cache, by numbers of a user and of a symbol. A handle
-- is `none` where it is NULL.
pub mod Reads
use chronos_prototype.Base.{
  ℕ, Bool, true, false, Option, none, some, List, ltb, if◌then◌else◌, Text,
}
use chronos_prototype.Base.Int.{ℤ, pos, negsuc}
use chronos_prototype.Cache.{
  Ret, returned, crashed, read, ◌>>=◌, StockInfo, ClientPortfolio, ClientCache,
}

module _ {F : Type 0} where
  -- `assert(0 <= numUser && numUser < clientCacheP->numPortfolios)`, and the read.
  unfoldable pub portfolio_at : ℤ → ClientCache F → Ret (ClientPortfolio F)
  portfolio_at (negsuc n) cc = crashed
  portfolio_at (pos n) cc = if ltb n cc.num_portfolios then read cc.portfolios n else crashed

  -- `assert(0 <= numSymbol && numSymbol < clientCacheP->portfoliosArr[numUser].numSymbols)`, and
  -- the read.
  unfoldable pub stock_at : ℤ → ClientPortfolio F → Ret (StockInfo F)
  stock_at (negsuc n) p = crashed
  stock_at (pos n) p = if ltb n p.num_symbols then read p.stock_info n else crashed

  unfoldable pub num_portfolios_get : Option (ClientCache F) → ℕ
  num_portfolios_get none = 0
  num_portfolios_get (some cc) = cc.num_portfolios

  unfoldable pub user_id_get : ℤ → Option (ClientCache F) → Ret ℤ
  user_id_get n none = returned (pos 0)
  user_id_get n (some cc) = portfolio_at n cc >>= λ p. returned p.user_id

  unfoldable pub client_user_get : ℤ → Option (ClientCache F) → Ret (Option Text)
  client_user_get n none = returned none
  client_user_get n (some cc) = portfolio_at n cc >>= λ p. returned p.user

  unfoldable pub num_symbol_from_user_get : ℤ → Option (ClientCache F) → Ret ℕ
  num_symbol_from_user_get n none = returned 0
  num_symbol_from_user_get n (some cc) = portfolio_at n cc >>= λ p. returned p.num_symbols

  unfoldable pub symbol_id_from_user_get : ℤ → ℤ → Option (ClientCache F) → Ret ℕ
  symbol_id_from_user_get n m none = returned 0
  symbol_id_from_user_get n m (some cc) =
      portfolio_at n cc >>= λ p. stock_at m p >>= λ x. returned x.symbol_id

  unfoldable pub symbol_from_user_get : ℤ → ℤ → Option (ClientCache F) → Ret (Option Text)
  symbol_from_user_get n m none = returned none
  symbol_from_user_get n m (some cc) =
      portfolio_at n cc >>= λ p. stock_at m p >>= λ x. returned x.symbol

  -- `zero` is 0.0.
  unfoldable pub symbol_price_from_user_get : F → ℤ → ℤ → Option (ClientCache F) → Ret F
  symbol_price_from_user_get zero n m none = returned zero
  symbol_price_from_user_get zero n m (some cc) =
      portfolio_at n cc >>= λ p. stock_at m p >>= λ x. returned x.random_price
