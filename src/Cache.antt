-- ===== src/Cache.antt =====
-- src/chronos_cache.c: the list of stocks and users that a client process loads, and the portfolios
-- that each of its threads plays with. Text is allocated without failure; the other allocations are
-- arguments, and the names of the directories are not empty. `rand k` is what the `k`-th call of
-- `rand` returns.
pub mod Bounds
pub mod Load
pub mod Client
use chronos_prototype.Base.{
  ℕ, zero, suc, ◌+◌, ◌-◌, ◌*◌, ◌/◌, ◌%◌, Bool, true, false, Option, none, some, List, [], ◌∷◌, ◌==◌,
  ◌||◌, ◌&&◌, ◌^◌, ltb, if◌then◌else◌, get_elem?, length, Text,
}
use chronos_prototype.Base.Int.{ℤ, pos, negsuc, sub_ℕ, ◌+ℤ◌, ◌-ℤ◌}
use chronos_prototype.Base.Decimal.{decimal}

-- What a call comes to: its result, or undefined behaviour (a failed assert, a division by 0, an
-- access outside an array or through NULL).
pub data Ret {ℓ} (A : Type ℓ) : Type ℓ where
  returned : A → Ret A
  crashed : Ret A

infixl 5 ◌>>=◌
abbrev pub ◌>>=◌ : {A B : Type 0} → Ret A → (A → Ret B) → Ret B
returned a >>= k = k a
crashed >>= k = crashed

-- A read of an array.
abbrev pub read : {A : Type 0} → List A → ℕ → Ret A
read xs i = elim (get_elem? xs i) [ none ↦ crashed | some a ↦ returned a ]

-- CHRONOS_CLIENT_NUM_STOCKS, CHRONOS_CLIENT_NUM_USERS
abbrev pub client_num_stocks : ℕ
client_num_stocks = 300

abbrev pub client_num_users : ℕ
client_num_users = 50

-- `chronosCache_t`. A stock past the end of the data file is NULL.
pub record ChronosCache : Type 0 where
  pub num_stocks : ℕ
  pub stocks_list : List (Option Text)
  pub num_users : ℕ
  pub users : List Text

-- `sscanf(buf, "%10[^#]#…")`. The array has room for 9 characters and the NUL.
abbrev pub until_hash : Text → Text
until_hash [] = []
until_hash (c ∷ cs) = if c == 35 then [] else c ∷ until_hash cs

abbrev pub after_hash : Text → Text
after_hash [] = []
after_hash (c ∷ cs) = if c == 35 then cs else after_hash cs

abbrev pub until_newline : Text → Text
until_newline [] = []
until_newline (c ∷ cs) = if c == 10 then [] else c ∷ until_newline cs

-- `%128[^#]#%500[^\n]` into 128 and 500 bytes, after a symbol: an empty match ends the scan. Does a NUL
-- or a character leave its array?
abbrev pub ignored_overruns : Text → Text → Bool
ignored_overruns [] rest = false
ignored_overruns (c ∷ cs) rest = ltb 499 (length (until_newline (after_hash rest)))

abbrev pub rest_overruns : Text → Text → Bool
rest_overruns [] rest = false
rest_overruns (c ∷ cs) rest =
    let name = until_hash rest in ltb 127 (length name) || ignored_overruns name rest

abbrev pub scan_symbol : Text → Ret Text
scan_symbol line =
    let s = until_hash line in
    if ltb 9 (length s) || rest_overruns s (after_hash line) then crashed else returned s

-- The loop over the lines that `fgets` returns, with the slots that are left.
pub stocks_from : ℕ → List Text → Ret (List (Option Text))
stocks_from zero lines = returned []
stocks_from (suc slots) [] = stocks_from slots [] >>= λ rest. returned (none ∷ rest)
stocks_from (suc slots) (line ∷ lines) =
    scan_symbol line >>= λ s. stocks_from slots lines >>= λ rest. returned (some s ∷ rest)

-- The result is the list, `none` on failure. `lines` is `none` if the file cannot be opened. When one
-- of the two allocations fails, the failure path reads the file pointer before it is set.
pub stock_list_from_file : Bool → Bool → Option (List Text) → Ret (Option (List (Option Text)))
stock_list_from_file false list_ok lines = crashed
stock_list_from_file true false lines = crashed
stock_list_from_file true true none = returned none
stock_list_from_file true true (some lines) =
    stocks_from client_num_stocks lines >>= λ xs. returned (some xs)

-- The names of `n` users from number `i` on.
abbrev pub users_from : ℕ → ℕ → List Text
users_from zero i = []
users_from (suc n) i = decimal i ∷ users_from n (suc i)

pub cache_alloc : Bool → Bool → Bool → Option (List Text) → Ret (Option ChronosCache)
unfolding stock_list_from_file
cache_alloc false path_ok list_ok lines = returned none
cache_alloc true path_ok list_ok lines = stock_list_from_file path_ok list_ok lines >>= λ o.
    elim o [
      | none ↦ returned none
      | some xs ↦ returned (
          some (record {
            num_stocks = client_num_stocks;
            stocks_list = xs;
            num_users = client_num_users;
            users = users_from client_num_users 0;
          }))
    ]

pub num_symbols_get : Option ChronosCache → ℕ
num_symbols_get none = 0
num_symbols_get (some c) = c.num_stocks

pub num_users_get : Option ChronosCache → ℕ
num_users_get none = 0
num_users_get (some c) = c.num_users

-- The bound is tested with `>`, so the number of stocks itself is let through.
unfoldable pub symbol_get : ℤ → Option ChronosCache → Ret (Option Text)
symbol_get n none = returned none
symbol_get (negsuc n) (some c) = returned none
symbol_get (pos n) (some c) = if ltb c.num_stocks n then returned none else read c.stocks_list n

unfoldable pub user_get : ℤ → Option ChronosCache → Ret (Option Text)
user_get n none = returned none
user_get (negsuc n) (some c) = returned none
user_get (pos n) (some c) =
    if ltb c.num_users n then returned none else (read c.users n >>= λ u. returned (some u))

-- `chronosClientStockInfo_t`, `chronosClientPortfolios_t` and `chronosClientCache_t`; a list has
-- the entries of its array that are in use.
pub record StockInfo (F : Type 0) : Type 0 where
  pub symbol_id : ℕ
  pub symbol : Option Text
  pub random_amount : ℕ
  pub random_price : F

pub record ClientPortfolio (F : Type 0) : Type 0 where
  pub user_id : ℤ
  pub user : Option Text
  pub num_symbols : ℕ
  pub stock_info : List (StockInfo F)

pub record ClientCache (F : Type 0) : Type 0 where
  pub num_portfolios : ℕ
  pub portfolios : List (ClientPortfolio F)

-- `MAX(MIN(n, 100), 10)`
pub clamp : ℕ → ℕ
clamp n = let m = if ltb n 100 then n else 100 in if ltb 10 m then m else 10

-- A number of times an integer, and the test that the result fits an `int`.
abbrev pub scaled : ℕ → ℤ → ℤ
scaled n (pos m) = pos (n * m)
scaled n (negsuc m) = sub_ℕ 0 (n * (m + 1))

abbrev pub fits_int : ℤ → Bool
fits_int (pos n) = ltb n (2 ^ 31)
fits_int (negsuc n) = ltb n (2 ^ 31)

abbrev pub c_remainder : ℤ → ℕ → ℤ
c_remainder (pos n) m = pos (n % m)
c_remainder (negsuc n) m = sub_ℕ 0 ((n + 1) % m)

-- `price` is 500.0. The number of a client is any `int`; the client threads count from 1.
module _ {F : Type 0} (price : F) (rand : ℕ → ℕ) (cache : ChronosCache) where
  -- One turn of the inner loop, from call `k` of `rand` on.
  pub stock_info : ℕ → Ret (StockInfo F)
  unfolding symbol_get
  stock_info k =
      if cache.num_stocks == 0
      then crashed
      else (symbol_get (pos (rand k % cache.num_stocks)) (some cache) >>= λ s. returned (record {
        symbol_id = rand k % cache.num_stocks;
        symbol = s;
        random_amount = rand (k + 1) % 100;
        random_price = price;
      }))

  pub stock_infos : ℕ → ℕ → Ret (List (StockInfo F))
  unfolding stock_info
  stock_infos zero k = returned []
  stock_infos (suc n) k = stock_info k >>= λ x. stock_infos n (k + 2) >>= λ xs. returned (x ∷ xs)

  -- The user of the `i`-th of `size` portfolios of a client, in `int`s: an overflow is undefined, and
  -- the remainder has the sign of what is divided.
  pub user_of : ℤ → ℕ → ℕ → Ret ℤ
  user_of num_client size i =
      let before = num_client -ℤ pos 1 in
      let offset = scaled size before in
      let n = pos i +ℤ offset in
      if fits_int before && fits_int offset && fits_int n
      then returned (c_remainder n cache.num_users)
      else crashed

  -- One turn of the outer loop.
  pub client_portfolio : ℤ → ℕ → ℕ → ℕ → ℕ → Ret (ClientPortfolio F)
  unfolding user_get stock_infos user_of
  client_portfolio num_client size symbols i k = user_of num_client size i >>= λ id.
      user_get id (some cache) >>= λ u. stock_infos symbols k >>= λ xs.
      returned (record { user_id = id; user = u; num_symbols = symbols; stock_info = xs })

  -- The `n` portfolios from the `i`-th on.
  pub client_portfolios : ℤ → ℕ → ℕ → ℕ → ℕ → ℕ → Ret (List (ClientPortfolio F))
  unfolding client_portfolio
  client_portfolios num_client size symbols zero i k = returned []
  client_portfolios num_client size symbols (suc n) i k =
      client_portfolio num_client size symbols i k >>= λ p.
      client_portfolios num_client size symbols n (suc i) (k + 2 * symbols) >>= λ ps.
      returned (p ∷ ps)

  pub create_portfolios : ℤ → ℕ → Ret (ClientCache F)
  unfolding client_portfolios clamp
  create_portfolios num_client num_clients =
      if num_clients == 0 || cache.num_users == 0
      then crashed
      else (let size = clamp (cache.num_users / num_clients) in
          let symbols = clamp (cache.num_stocks / cache.num_users) in
          client_portfolios num_client size symbols size 0 0 >>= λ ps.
          returned (record { num_portfolios = size; portfolios = ps }))

-- The `Bool` tells whether `malloc` succeeds.
pub client_cache_alloc :
    {F : Type 0} → F → (ℕ → ℕ) → ℤ → ℕ → Option ChronosCache → Bool → Ret (Option (ClientCache F))
client_cache_alloc price rand num_client num_clients none ok = returned none
client_cache_alloc price rand num_client num_clients (some c) false = returned none
client_cache_alloc price rand num_client num_clients (some c) true =
    create_portfolios price rand c num_client num_clients >>= λ cc. returned (some cc)
