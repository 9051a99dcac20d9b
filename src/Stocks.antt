-- ===== src/Stocks.antt =====
-- The list of stock symbols that a server keeps: src/benchmark_stocks.c. Berkeley DB is the parameter
-- `StocksDb`, with `calloc` and `strdup` beside it, which may find no memory. A handle that is not NULL is valid;
-- the counts of keys fit an int.
pub mod Listing
mod Tests
use chronos_prototype.Base.{
  ℕ, zero, suc, ◌+◌, ◌<◌, Bool, true, false, Option, none, some, List, [], ◌∷◌, length, set,
  replicate, if◌then◌else◌, ltb, on_result, ◌&&◌, Text,
}
use chronos_prototype.Db.{Outcome, ok, fail, crash, out_of_fuel}

-- What `get` with DB_NEXT returns: a key, DB_NOTFOUND, or another error.
pub data Next : Type 0 where
  found : Text → Next
  no_more : Next
  failed : Next

pub record StocksDb : Type 1 where
  pub Env : Type 0
  pub Txn : Type 0
  pub Cursor : Type 0
  pub txn_begin : Env → Option Txn × Env
  pub stat : Txn → Env → Option ℕ × Env
  pub stat_quotes : Env → Option ℕ × Env
  pub calloc : ℕ → Env → Bool × Env
  pub strdup : Text → Env → Bool × Env
  pub open_cursor : Txn → Env → Option Cursor × Env
  pub next : Cursor → Env → Next × Env
  pub close : Cursor → Env → Bool × Env
  pub commit : Txn → Env → Bool × Env
  pub abort : Txn → Env → Bool × Env

-- The tests on a read: another error, the end, a key.
abbrev pub on_next : {B : Type 0} → Next → B → B → (Text → B) → B
on_next failed b b' f = b
on_next no_more b b' f = b'
on_next (found s) b b' f = f s

-- The fields of `BENCHMARK_DBS` that these functions use: whether `envP` and `quotes_dbp` are set, the
-- array `stocks`, none for NULL, and `number_stocks`.
pub record Handle (db : StocksDb) : Type 0 where
  pub env : db.Env
  pub has_env : Bool
  pub has_quotes : Bool
  pub number_stocks : ℕ
  pub stocks : Option (List (Option Text))

abbrev pub Run : StocksDb → Type 0
Run db = Outcome (Unit {0}) × Handle db

-- The loop that frees the symbols: none when it leaves the array.
abbrev pub release : ℕ → List (Option Text) → Option (List (Option Text))
release zero xs = some xs
release (suc n) [] = none
release (suc n) (x ∷ xs) = elim (release n xs) [ none ↦ none | some ys ↦ some (none ∷ ys) ]

-- The symbols that the loop of the printer shows, with their positions, from position `i` on.
abbrev pub print_slots : ℕ → ℕ → List (Option Text) → Option (List (ℕ × Text))
print_slots zero i xs = some []
print_slots (suc n) i [] = none
print_slots (suc n) i (none ∷ xs) = print_slots n (i + 1) xs
print_slots (suc n) i (some s ∷ xs) = elim (print_slots n (i + 1) xs) [
  | none ↦ none
  | some ys ↦ some ((i, s) ∷ ys)
]

-- What is printed; none for a read outside the array.
abbrev pub benchmark_stocks_symbols_print : {db : StocksDb} → Handle db → Option (List (ℕ × Text))
benchmark_stocks_symbols_print h = elim h.stocks [
  | none ↦ some []
  | some xs ↦ print_slots h.number_stocks 0 xs
]

module _ {db : StocksDb} where
  abbrev pub with_stocks : Handle db → Option (List (Option Text)) → Run db
  with_stocks h none = (crash, h)
  with_stocks h (some xs) = (fail, record h { stocks = some xs })

  -- A transaction that has begun ends, after its cursor.
  abbrev pub drop_txn : Option db.Txn → Option db.Cursor → Handle db → Handle db
  drop_txn none c h = h
  drop_txn (some t) none h = record h { env = (db.abort t h.env).1 }
  drop_txn (some t) (some c) h = record h { env = (db.abort t (db.close c h.env).1).1 }

  -- From the label `failXit` on.
  abbrev pub fail_exit : Option db.Txn → Option db.Cursor → Handle db → Run db
  fail_exit t c h =
      let h1 = drop_txn t c h in
      on_result h1.stocks (fail, h1) λ xs. with_stocks h1 (release h1.number_stocks xs)

  -- The write of a symbol, which asserts that its slot is one of the array. Where `strdup` finds no
  -- memory, it is a NULL.
  abbrev pub put_symbol : ℕ → Text → Handle db → Option (Handle db)
  put_symbol slot s h =
      let h1 : Handle db = record h { env = (db.strdup s h.env).1 } in
      on_result h.stocks none λ xs.
        if ltb slot h.number_stocks
        then some (record h1 {
          stocks = some (set xs slot (if (db.strdup s h.env).0 then some s else none));
        })
        else none

  -- The loop over the table.
  pub copy_symbols : ℕ → db.Cursor → ℕ → Handle db → Run db
  copy_symbols zero c slot h = (out_of_fuel, h)
  copy_symbols (suc fuel) c slot h =
      let h1 : Handle db = record h { env = (db.next c h.env).1 } in
      on_next (db.next c h.env).0 (fail, h1) (ok tt, h1)
        λ s. on_result (put_symbol slot s h1) (crash, h1) λ h2. copy_symbols fuel c (slot + 1) h2

  -- What follows the loop. A failure to close the cursor is only logged.
  abbrev pub finish : db.Txn → db.Cursor → Run db → Run db
  finish t c (ok u, h) =
      let e = (db.close c h.env).1 in
      let h1 : Handle db = record h { env = (db.commit t e).1 } in
      if (db.commit t e).0 then (ok tt, h1) else fail_exit (some t) none h1
  finish t c (fail, h) = fail_exit (some t) (some c) h
  finish t c (crash, h) = (crash, h)
  finish t c (out_of_fuel, h) = (out_of_fuel, h)

  -- With an array of empty slots: the cursor, the loop, and the commit.
  abbrev pub fill : ℕ → db.Txn → Handle db → Run db
  fill fuel t h =
      let h1 : Handle db = record h { env = (db.open_cursor t h.env).1 } in
      on_result (db.open_cursor t h.env).0 (fail_exit (some t) none h1)
        λ c. finish t c (copy_symbols fuel c 0 h1)

  abbrev pub allocate : ℕ → db.Txn → ℕ → Handle db → Run db
  allocate fuel t n h =
      let h1 : Handle db = record h { env = (db.calloc n h.env).1; number_stocks = n } in
      if (db.calloc n h.env).0
      then fill fuel t (record h1 { stocks = some (replicate n none) })
      else fail_exit (some t) none (record h1 { stocks = none })

  abbrev pub count_stocks : ℕ → db.Txn → Handle db → Run db
  count_stocks fuel t h =
      let h1 : Handle db = record h { env = (db.stat t h.env).1 } in
      on_result (db.stat t h.env).0 (fail_exit (some t) none h1) λ n. allocate fuel t n h1

  -- `fuel` bounds the scan of the table.
  pub benchmark_stocks_symbols_get : ℕ → Handle db → Run db
  benchmark_stocks_symbols_get fuel h =
      let h1 : Handle db = record h { env = (db.txn_begin h.env).1 } in
      if h.has_env
      then (on_result (db.txn_begin h.env).0 (fail_exit none none h1) λ t. count_stocks fuel t h1)
      else fail_exit none none h

  -- With `quotes_dbp` set, the count of Quotes replaces the length of the list.
  abbrev pub benchmark_stocks_stats_get : Handle db → Run db
  benchmark_stocks_stats_get h =
      let h1 : Handle db = record h { env = (db.stat_quotes h.env).1 } in
      if h.has_env && h.has_quotes
      then (on_result (db.stat_quotes h.env).0 (fail, h1)
          λ n. (ok tt, record h1 { number_stocks = n }))
      else (fail, h)

  -- The list and its length, for a handle that is not NULL.
  abbrev pub benchmark_stock_list_get :
      Option (Handle db) → Option (Option (List (Option Text)) × ℕ)
  benchmark_stock_list_get none = none
  benchmark_stock_list_get (some h) = some (h.stocks, h.number_stocks)
