-- ===== src/Cache/Bounds.antt =====
-- src/chronos_cache.c: what is allocated is in bounds, and the calls that fill it in are defined.
use chronos_prototype.Base.{
  ℕ, zero, suc, ◌+◌, ◌*◌, ◌-◌, ◌%◌, ◌/◌, ◌^◌, ◌≤◌, ◌<◌, ◌≡◌, ◌≢◌, refl, ap, true, false, some, List,
  [], ◌∷◌, arith, length, All, all_nil, all_cons, get_elem?, ltb, ◌==◌,
}
use native.Mathlib.Nat.{mod-lt, mul-le-mul_right}
use chronos_prototype.Base.Int.{pos, ◌+ℤ◌, ◌-ℤ◌}
use chronos_prototype.Cache.{
  returned, read, ChronosCache, StockInfo, ClientPortfolio, ClientCache, users_from, symbol_get,
  user_get, clamp, stock_info, stock_infos, user_of, client_portfolio, client_portfolios,
  create_portfolios, client_cache_alloc,
}

-- A cache whose counts are those of its arrays.
pub record Counted (c : ChronosCache) : Type 0 where
  pub stocks_counted : length c.stocks_list ≡ c.num_stocks
  pub users_counted : length c.users ≡ c.num_users
  pub some_stocks : c.num_stocks ≢ 0
  pub some_users : c.num_users ≢ 0

module _ {F : Type 0} (price : F) (c : ChronosCache) where
  -- An entry names a stock of the cache, at the initial price, in an amount below 100.
  pub record StockOf (x : StockInfo F) : Type 0 where
    pub stock_in : x.symbol_id < c.num_stocks
    pub stock_named : get_elem? c.stocks_list x.symbol_id ≡ some x.symbol
    pub amount_small : x.random_amount < 100
    pub initial_price : x.random_price ≡ price

  -- A portfolio names a user of the cache, and has from 10 to 100 entries.
  pub record PortfolioOf (p : ClientPortfolio F) : Type 0 where
    pub user_of_cache :
        (id : ℕ) × (p.user_id ≡ pos id) × (id < c.num_users) × (get_elem? c.users id ≡ p.user)
    pub symbols_counted : length p.stock_info ≡ p.num_symbols
    pub symbols_fit : (10 ≤ p.num_symbols) × (p.num_symbols ≤ 100)
    pub stocks_of : All StockOf p.stock_info

  -- A client's cache has from 10 to 100 portfolios.
  pub record ClientOf (cc : ClientCache F) : Type 0 where
    pub portfolios_counted : length cc.portfolios ≡ cc.num_portfolios
    pub portfolios_fit : (10 ≤ cc.num_portfolios) × (cc.num_portfolios ≤ 100)
    pub portfolios_of : All PortfolioOf cc.portfolios

read-get_elem? :
    {A : Type 0} (xs : List A) (i : ℕ)
    → i < length xs
    → (a : A) × (get_elem? xs i ≡ some a) × (read xs i ≡ returned a)
read-get_elem? [] i h = absurd (omega arith)
read-get_elem? (x ∷ xs) zero h = (x, refl, refl)
read-get_elem? (x ∷ xs) (suc i) h = read-get_elem? xs i (omega arith)

pub ==-false : (n : ℕ) → n ≢ 0 → (n == 0) ≡ false
==-false n h = ground arith

clamp_fits : (n : ℕ) → (10 ≤ clamp n) × (clamp n ≤ 100)
unfolding clamp
clamp_fits n = ground arith

pub length-users_from : (n i : ℕ) → length (users_from n i) ≡ n
length-users_from zero i = refl
length-users_from (suc n) i = ap suc (length-users_from n (suc i))

module _ {F : Type 0} (price : F) (rand : ℕ → ℕ) (c : ChronosCache) (v : Counted c) where
  stock_info-StockOf :
      (k : ℕ) → (x : StockInfo F) × (stock_info price rand c k ≡ returned x) × StockOf price c x
  unfolding stock_info symbol_get
  stock_info-StockOf k =
      let inside : rand k % c.num_stocks < c.num_stocks =
        mod-lt (rand k) (grind (arith, v.some_stocks)) in
      let there = ==-false c.num_stocks v.some_stocks in
      let bound : ltb c.num_stocks (rand k % c.num_stocks) ≡ false = ground arith in
      let small : rand (k + 1) % 100 < 100 = omega arith in
      let (s, named, found) =
        read-get_elem? c.stocks_list (rand k % c.num_stocks) (omega (arith, v.stocks_counted)) in
      (
        record {
          symbol_id = rand k % c.num_stocks;
          symbol = s;
          random_amount = rand (k + 1) % 100;
          random_price = price;
        },
        rw (there, bound, found) refl,
        record {
          stock_in = inside;
          stock_named = named;
          amount_small = small;
          initial_price = refl;
        },
      )

  stock_infos-StockOf :
      (n k : ℕ)
      → (xs : List (StockInfo F)) × (stock_infos price rand c n k ≡ returned xs)
        × (length xs ≡ n)
        × All (StockOf price c) xs
  unfolding stock_infos
  stock_infos-StockOf zero k = ([], refl, refl, all_nil)
  stock_infos-StockOf (suc n) k =
      let (x, e, h) = stock_info-StockOf k in
      let (xs, es, l, hs) = stock_infos-StockOf n (k + 2) in
      (x ∷ xs, rw (e, es) refl, ap suc l, all_cons h hs)

  -- The first twenty million clients stay inside an `int`.
  user_of-int :
      (num_client size i : ℕ)
      → 1 ≤ num_client
      → num_client ≤ 20000000
      → size ≤ 100
      → i < 100
      → user_of price rand c (pos num_client) size i
        ≡ returned (pos ((i + size * (num_client - 1)) % c.num_users))
  unfolding user_of ◌+ℤ◌ ◌-ℤ◌
  user_of-int num_client size i first last fit inside =
      let small = mul-le-mul_right (num_client - 1) fit in
      let product : size * (num_client - 1) < 2 ^ 31 = omega (arith, small) in
      let sum : i + size * (num_client - 1) < 2 ^ 31 = omega (arith, small) in
      ground (arith, first, product, sum)

  client_portfolio-PortfolioOf :
      (num_client size symbols i k : ℕ)
      → 1 ≤ num_client
      → num_client ≤ 20000000
      → size ≤ 100
      → i < 100
      → (10 ≤ symbols) × (symbols ≤ 100)
      → (p : ClientPortfolio F) × (client_portfolio price rand c (pos num_client) size symbols i k
          ≡ returned p)
        × PortfolioOf price c p
  unfolding client_portfolio user_get
  client_portfolio-PortfolioOf num_client size symbols i k first last small low fit =
      let id = (i + size * (num_client - 1)) % c.num_users in
      let inside : id < c.num_users =
        mod-lt (i + size * (num_client - 1)) (grind (arith, v.some_users)) in
      let bound : ltb c.num_users id ≡ false = ground arith in
      let (u, named, found) = read-get_elem? c.users id (omega (arith, v.users_counted)) in
      let (xs, es, l, hs) = stock_infos-StockOf symbols k in
      let number = user_of-int num_client size i first last small low in
      (
        record { user_id = pos id; user = some u; num_symbols = symbols; stock_info = xs },
        rw (number, bound, found, es) refl,
        record {
          user_of_cache = (id, refl, inside, named);
          symbols_counted = l;
          symbols_fit = fit;
          stocks_of = hs;
        },
      )

  client_portfolios-PortfolioOf :
      (num_client size symbols n i k : ℕ)
      → 1 ≤ num_client
      → num_client ≤ 20000000
      → size ≤ 100
      → i + n ≤ 100
      → (10 ≤ symbols) × (symbols ≤ 100)
      → (ps : List (ClientPortfolio F)) × (client_portfolios price rand c
            (pos num_client)
            size
            symbols
            n
            i
            k
          ≡ returned ps)
        × (length ps ≡ n)
        × All (PortfolioOf price c) ps
  unfolding client_portfolios
  client_portfolios-PortfolioOf num_client size symbols zero i k first last small room fit =
      ([], refl, refl, all_nil)
  client_portfolios-PortfolioOf num_client size symbols (suc n) i k first last small room fit =
      let (x, e, h) =
        client_portfolio-PortfolioOf num_client size symbols i k first last small (omega arith)
          fit in
      let (xs, es, l, hs) =
        client_portfolios-PortfolioOf num_client size symbols n (suc i) (k + 2 * symbols) first last
          small (omega arith) fit in
      (x ∷ xs, rw (e, es) refl, ap suc l, all_cons h hs)

  -- From a cache whose counts are right, and with at least one client, each of the first twenty million
  -- client threads gets from 10 to 100 portfolios, with every user and every stock in bounds, and no
  -- undefined behaviour on the way.
  pub client_cache_alloc-ClientOf :
      (num_client num_clients : ℕ)
      → 1 ≤ num_client
      → num_client ≤ 20000000
      → num_clients ≢ 0
      → (cc : ClientCache F) × (client_cache_alloc price rand
            (pos num_client)
            num_clients
            (some c)
            true
          ≡ returned (some cc))
        × ClientOf price c cc
  unfolding client_cache_alloc create_portfolios
  client_cache_alloc-ClientOf num_client num_clients first last h =
      let size = clamp (c.num_users / num_clients) in
      let symbols = clamp (c.num_stocks / c.num_users) in
      let (ps, e, l, hs) =
        client_portfolios-PortfolioOf num_client size symbols size 0 0 first last
          (clamp_fits (c.num_users / num_clients)).1
          (omega (arith, clamp_fits (c.num_users / num_clients)))
          (clamp_fits (c.num_stocks / c.num_users)) in
      let many = ==-false num_clients h in
      let there = ==-false c.num_users v.some_users in
      (
        record { num_portfolios = size; portfolios = ps },
        rw (many, there, e) refl,
        record {
          portfolios_counted = l;
          portfolios_fit = clamp_fits (c.num_users / num_clients);
          portfolios_of = hs;
        },
      )
