-- ===== src/Cache/Client/Reads.antt =====
-- src/chronos_cache.c: the reads of a client's cache with numbers in range.
use chronos_prototype.Base.{All, all_nil, all_cons}
use chronos_prototype.Base.{ℕ, zero, suc, ◌<◌, ◌≡◌, refl, true, some, List, arith, length, ltb}
use chronos_prototype.Base.Int.{pos}
use chronos_prototype.Cache.{returned, read, ChronosCache, StockInfo, ClientPortfolio, ClientCache}
use chronos_prototype.Cache.Client.{
  portfolio_at, stock_at, user_id_get, client_user_get, num_symbol_from_user_get,
  symbol_id_from_user_get, symbol_from_user_get, symbol_price_from_user_get,
}
use chronos_prototype.Cache.Bounds.{StockOf, PortfolioOf, ClientOf}

read-All :
    {A : Type 0} {P : A → Type 0} {xs : List A}
    → All P xs
    → (i : ℕ) → i < length xs
    → (x : A) × P x × (read xs i ≡ returned x)
read-All all_nil i h = absurd (omega arith)
read-All (all_cons p ps) zero h = (_, p, refl)
read-All (all_cons p ps) (suc i) h = read-All ps i (omega arith)

ltb-true : (a b : ℕ) → a < b → ltb a b ≡ true
ltb-true a b h = ground arith

-- What a portfolio's reads return.
pub record StockReads {F : Type 0} (price zero_price : F) (c : ChronosCache) (cc : ClientCache F)
    (u j : ℕ) (x : StockInfo F) : Type 0 where
  pub stock_of : StockOf price c x
  pub id_read : symbol_id_from_user_get (pos u) (pos j) (some cc) ≡ returned x.symbol_id
  pub symbol_read : symbol_from_user_get (pos u) (pos j) (some cc) ≡ returned x.symbol
  pub price_read :
      symbol_price_from_user_get zero_price (pos u) (pos j) (some cc) ≡ returned x.random_price

pub record UserReads {F : Type 0} (price : F) (c : ChronosCache) (cc : ClientCache F) (u : ℕ)
    (p : ClientPortfolio F) : Type 0 where
  pub portfolio_of : PortfolioOf price c p
  pub user_id_read : user_id_get (pos u) (some cc) ≡ returned p.user_id
  pub user_read : client_user_get (pos u) (some cc) ≡ returned p.user
  pub count_read : num_symbol_from_user_get (pos u) (some cc) ≡ returned p.num_symbols

module _ {F : Type 0} (price zero_price : F) (c : ChronosCache) (cc : ClientCache F)
    (v : ClientOf price c cc) where
  -- In a client's cache within bounds, every read with the number of a portfolio below their count,
  -- and of an entry below its count, passes its asserts, and returns the fields of one portfolio
  -- and one entry, which are within bounds.
  pub portfolio_at-Reads :
      (u : ℕ)
      → u < cc.num_portfolios
      → (p : ClientPortfolio F) × UserReads price c cc u p
        × ((j : ℕ) → j < p.num_symbols → (x : StockInfo F) × StockReads price zero_price c cc u j x)
  unfolding portfolio_at stock_at user_id_get client_user_get num_symbol_from_user_get
      symbol_id_from_user_get symbol_from_user_get symbol_price_from_user_get
  portfolio_at-Reads u h =
      let (p, v1, e) = read-All v.portfolios_of u (omega (arith, v.portfolios_counted)) in
      let b = ltb-true u cc.num_portfolios h in
      (
        p,
        record {
          portfolio_of = v1;
          user_id_read = rw (b, e) refl;
          user_read = rw (b, e) refl;
          count_read = rw (b, e) refl;
        },
        λ j g.
            let (x, v2, e2) = read-All v1.stocks_of j (omega (arith, v1.symbols_counted)) in
            let b2 = ltb-true j p.num_symbols g in
            (
              x,
              record {
                stock_of = v2;
                id_read = rw (b, e, b2, e2) refl;
                symbol_read = rw (b, e, b2, e2) refl;
                price_read = rw (b, e, b2, e2) refl;
              },
            ),
      )
