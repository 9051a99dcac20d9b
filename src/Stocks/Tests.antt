-- ===== src/Stocks/Tests.antt =====
-- The theorem about the list of symbols, on a table of two stocks, and runs of the functions.
use chronos_prototype.Base.{ℕ, ◌≡◌, refl, arith, true, none, some, List, [], ◌∷◌, length, Text}
use chronos_prototype.Stocks.{
  StocksDb, Handle, Next, found, no_more, copy_symbols, benchmark_stocks_symbols_print,
  benchmark_stocks_symbols_get, benchmark_stocks_stats_get,
}
use chronos_prototype.Stocks.Listing.{Laws, Listed, benchmark_stocks_symbols_get-Listed}

-- The keys of Stocks, those that the cursor has not passed, and the count of Quotes.
record Store : Type 0 where
  keys : List Text
  rest : List Text
  quotes : ℕ

abbrev read : List Text → Store → Next × Store
read [] e = (no_more, e)
read (k ∷ ks) e = (found k, record e { rest = ks })

abbrev stocks_db : StocksDb
stocks_db = record {
  Env = Store;
  Txn = Unit {0};
  Cursor = Unit {0};
  txn_begin = λ e. (some tt, e);
  stat = λ t e. (some (length e.keys), e);
  stat_quotes = λ e. (some e.quotes, e);
  calloc = λ n e. (true, e);
  strdup = λ s e. (true, e);
  open_cursor = λ t e. (some tt, record e { rest = e.keys });
  next = λ c e. read e.rest e;
  close = λ c e. (true, e);
  commit = λ t e. (true, e);
  abort = λ t e. (true, e);
}

read-found :
    (ks : List Text) (e : Store) (k : Text) → (read ks e).0 ≡ found k → ks ≡ k ∷ (read ks e).1.rest
read-found [] e k h = absurd (ground arith)
read-found (k' ∷ ks) e k h = ground arith

read-no_more : (ks : List Text) (e : Store) → (read ks e).0 ≡ no_more → ks ≡ []
read-no_more [] e h = refl
read-no_more (k ∷ ks) e h = absurd (ground arith)

count_inj : (m n : ℕ) → some m ≡ some n → n ≡ m
count_inj m n h = ground arith

abbrev stocks_laws : Laws stocks_db
stocks_laws = record {
  keys = λ e. e.keys;
  ahead = λ c e. e.rest;
  keys_begin = λ e. refl;
  keys_stat = λ t e. refl;
  keys_calloc = λ n e. refl;
  ahead_strdup = λ c k e. refl;
  counted = λ t e n h. count_inj (length e.keys) n h;
  opened = λ t e c h. refl;
  next_found = λ c e k h. read-found e.rest e k h;
  next_end = λ c e h. read-no_more e.rest e h;
}

abbrev acme : Text
acme = 65 ∷ []

abbrev bolt : Text
bolt = 66 ∷ []

abbrev handle : Handle stocks_db
handle = record {
  env = record { keys = acme ∷ bolt ∷ []; rest = []; quotes = 3 };
  has_env = true;
  has_quotes = true;
  number_stocks = 0;
  stocks = none;
}

benchmark_stocks_symbols_get-Listed_example :
    Listed (acme ∷ bolt ∷ []) (benchmark_stocks_symbols_get 3 handle)
benchmark_stocks_symbols_get-Listed_example =
    benchmark_stocks_symbols_get-Listed stocks_laws 3 handle (λ xs e. absurd (ground arith))
      (omega arith)

-- The list is printed with its positions.
printed :
    benchmark_stocks_symbols_print (benchmark_stocks_symbols_get 3 handle).1
    ≡ some ((0, acme) ∷ (1, bolt) ∷ [])
unfolding benchmark_stocks_symbols_get copy_symbols
printed = refl

-- After the count of Quotes, which is one more, the printer reads outside the array.
print_outside :
    benchmark_stocks_symbols_print
      (benchmark_stocks_stats_get (benchmark_stocks_symbols_get 3 handle).1).1
    ≡ none
unfolding benchmark_stocks_symbols_get copy_symbols
print_outside = refl
