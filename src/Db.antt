-- ===== src/Db.antt =====
-- Berkeley DB as src/benchmark_common.c uses it, and the programs over it. The library is no part
-- of the repository: it is the parameter `call`, which takes a request and returns the reply and the
-- new environment. What is relied on is stated in Db/Laws.antt.
pub mod Laws
pub mod Run
pub mod Example
pub mod Reliable
use chronos_prototype.Base.{ℕ, ◌+◌, Bool, true, false, Option, none, some, Text}
use Prim.Native.String.{String}
use chronos_prototype.Tables.{Quote, Portfolio}

-- The databases that a cursor is opened on.
pub data Table : Type 0 where
  personal stocks quotes portfolios portfolios_sec : Table

-- The calls. A cursor is the value of its handle with its position, so a call that moves it
-- returns it moved.
pub data Request (F Txn Cursor : Type 0) : Type 0 where
  txn_begin : Request F Txn Cursor
  set_name : Txn → String → Request F Txn Cursor
  commit : Txn → Request F Txn Cursor
  abort : Txn → Request F Txn Cursor
  open_cursor : Table → Txn → Request F Txn Cursor
  close : Cursor → Request F Txn Cursor
  -- `get` with DB_SET on Personal or Stocks, whose data the program does not read
  get_key : Cursor → Text → Request F Txn Cursor
  -- `get` with DB_NEXT on Personal
  next_key : Cursor → Request F Txn Cursor
  -- `get` with DB_SET on Quotes; the flag is DB_RMW
  get_quote : Cursor → Text → Bool → Request F Txn Cursor
  -- `get` with DB_SET on Portfolios
  get_portfolio : Cursor → Text → Request F Txn Cursor
  -- `pget` with DB_NEXT on PortfoliosSec
  pget_next : Cursor → Request F Txn Cursor
  -- `put` with DB_CURRENT
  put_quote : Cursor → Quote F → Request F Txn Cursor
  put_portfolio : Cursor → Portfolio → Request F Txn Cursor
  -- `put` on Portfolios with DB_NOOVERWRITE
  insert_portfolio : Txn → Text → Portfolio → Request F Txn Cursor

-- `no_more` is DB_NOTFOUND from `next_key`; `failed` is every other return value that is not 0. The record that `pget` finds comes with
-- its primary key.
pub data Reply (F Txn Cursor : Type 0) : Type 0 where
  failed : Reply F Txn Cursor
  done : Reply F Txn Cursor
  began : Txn → Reply F Txn Cursor
  opened : Cursor → Reply F Txn Cursor
  no_more : Reply F Txn Cursor
  found_key : Text → Cursor → Reply F Txn Cursor
  found_quote : Quote F → Cursor → Reply F Txn Cursor
  found_portfolio : Text → Portfolio → Cursor → Reply F Txn Cursor

module _ {F Txn Cursor : Type 0} where
  -- Is the return value 0?
  abbrev pub is_done : Reply F Txn Cursor → Bool
  is_done done = true
  is_done _ = false

  abbrev pub txn_of : Reply F Txn Cursor → Option Txn
  txn_of (began t) = some t
  txn_of _ = none

  abbrev pub cursor_of : Reply F Txn Cursor → Option Cursor
  cursor_of (opened c) = some c
  cursor_of _ = none

  abbrev pub is_no_more : Reply F Txn Cursor → Bool
  is_no_more no_more = true
  is_no_more _ = false

  abbrev pub key_of : Reply F Txn Cursor → Option (Text × Cursor)
  key_of (found_key k c) = some (k, c)
  key_of _ = none

  abbrev pub quote_of : Reply F Txn Cursor → Option (Quote F × Cursor)
  quote_of (found_quote q c) = some (q, c)
  quote_of _ = none

  abbrev pub portfolio_of : Reply F Txn Cursor → Option (Text × Portfolio × Cursor)
  portfolio_of (found_portfolio k p c) = some (k, p, c)
  portfolio_of _ = none

pub record BerkeleyDb (F : Type 0) : Type 1 where
  pub Env : Type 0
  pub Txn : Type 0
  pub Cursor : Type 0
  pub call : Request F Txn Cursor → Env → Reply F Txn Cursor × Env

-- The way a function ends: success with its results, its failure code, a crash (a failed assert or
-- a call through NULL), or out of fuel.
pub data Outcome (A : Type 0) : Type 0 where
  ok : A → Outcome A
  fail : Outcome A
  crash : Outcome A
  out_of_fuel : Outcome A

module _ {F : Type 0} (db : BerkeleyDb F) where
  -- The environment with `number_portfolios` of `BENCHMARK_DBS`.
  pub record World : Type 0 where
    pub env : db.Env
    pub number_portfolios : ℕ

  abbrev pub M : Type 0 → Type 0
  M A = World → Outcome A × World

module _ {F : Type 0} {db : BerkeleyDb F} where
  abbrev pub pure : {A : Type 0} → A → M db A
  pure a w = (ok a, w)

  abbrev pub give_up : {A : Type 0} → M db A
  give_up w = (fail, w)

  abbrev pub crashes : {A : Type 0} → M db A
  crashes w = (crash, w)

  abbrev pub starves : {A : Type 0} → M db A
  starves w = (out_of_fuel, w)

  abbrev pub and_then : {A B : Type 0} → Outcome A × World db → (A → M db B) → Outcome B × World db
  and_then (ok a, w) k = k a w
  and_then (fail, w) k = (fail, w)
  and_then (crash, w) k = (crash, w)
  and_then (out_of_fuel, w) k = (out_of_fuel, w)

  infixl 5 ◌>>=◌ ◌>>◌
  abbrev pub ◌>>=◌ : {A B : Type 0} → M db A → (A → M db B) → M db B
  ◌>>=◌ m k w = and_then (m w) k

  abbrev pub ◌>>◌ : {A B : Type 0} → M db A → M db B → M db B
  m >> n = m >>= λ _. n

  -- A failure becomes a value.
  abbrev pub caught : {A : Type 0} → Outcome A × World db → Outcome (Option A) × World db
  caught (ok a, w) = (ok (some a), w)
  caught (fail, w) = (ok none, w)
  caught (crash, w) = (crash, w)
  caught (out_of_fuel, w) = (out_of_fuel, w)

  abbrev pub attempt : {A : Type 0} → M db A → M db (Option A)
  attempt m w = caught (m w)

  abbrev pub guard : Bool → M db (Unit {0})
  guard true w = (ok tt, w)
  guard false w = (fail, w)

  abbrev pub reply : Request F db.Txn db.Cursor → M db (Reply F db.Txn db.Cursor)
  reply r w = let (a, e) = db.call r w.env in (ok a, record w { env = e })

  -- A call whose failure is the caller's.
  abbrev pub checked : Request F db.Txn db.Cursor → M db (Unit {0})
  checked r = do a ← reply r; guard (is_done a)

  abbrev pub or_fail : {A : Type 0} → Option A → M db A
  or_fail none = give_up
  or_fail (some a) = pure a

  -- `if (p == NULL) … else …`
  abbrev pub maybe : {A B : Type 0} → Option A → M db B → (A → M db B) → M db B
  maybe none missing present = missing
  maybe (some a) missing present = present a

  -- `__sync_fetch_and_add(&benchmarkP->number_portfolios, 1)`
  abbrev pub take_id : M db ℕ
  take_id w = (ok w.number_portfolios, record w { number_portfolios = w.number_portfolios + 1 })
