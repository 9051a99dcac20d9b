-- ===== src/Db/Laws.antt =====
-- What src/benchmark_common.c relies on in Berkeley DB, for one thread of transactions: a
-- transaction reads its own tables, which start as the committed ones, its writes change those,
-- and the committed tables change by a successful commit alone. Any call may fail at any time.
use chronos_prototype.Base.{
  ℕ, ◌+◌, ◌≤◌, ◌<◌, ◌≡◌, Bool, true, false, Option, none, some, if◌then◌else◌, Text,
}
use chronos_prototype.Tables.{Quote, Portfolio, Tables, write_portfolio, write_quote}
use chronos_prototype.Db.{
  Table, Request, BerkeleyDb, is_done, txn_of, cursor_of, quote_of, portfolio_of, commit, txn_begin,
  set_name, open_cursor, close, get_key, key_of, next_key, get_quote, get_portfolio, pget_next,
  put_quote, put_portfolio, insert_portfolio,
}

module _ {F Txn Cursor : Type 0} where
  abbrev pub is_commit : Request F Txn Cursor → Bool
  is_commit (commit t) = true
  is_commit _ = false

  -- Calls inside a transaction that write nothing.
  abbrev pub is_read : Request F Txn Cursor → Bool
  is_read (set_name t n) = true
  is_read (open_cursor tb t) = true
  is_read (close c) = true
  is_read (get_key c k) = true
  is_read (next_key c) = true
  is_read (get_quote c k b) = true
  is_read (get_portfolio c k) = true
  is_read (pget_next c) = true
  is_read _ = false

  abbrev pub is_insert : Request F Txn Cursor → Bool
  is_insert (insert_portfolio t k p) = true
  is_insert _ = false

pub record Laws {F : Type 0} (db : BerkeleyDb F) : Type 0 where
  -- The committed tables, and those that a transaction reads.
  pub committed : db.Env → Tables F
  pub seen : db.Txn → db.Env → Tables F
  -- The transaction and the table of a cursor, and the key of the record that it stands on.
  pub owner : db.Cursor → db.Txn
  pub table : db.Cursor → Table
  pub position : db.Cursor → Option Text
  -- A bound on the entries of the secondary index and of Personal, and those that a cursor has not
  -- passed.
  pub records : db.Env → ℕ
  pub ahead : db.Cursor → db.Env → ℕ
  pub committed_kept :
      (r : Request F db.Txn db.Cursor) (e : db.Env)
      → is_commit r ≡ false
      → committed (db.call r e).1 ≡ committed e
  pub committed_commit :
      (t : db.Txn) (e : db.Env)
      → committed (db.call (commit t) e).1
        ≡ (if is_done (db.call (commit t) e).0 then seen t e else committed e)
  pub seen_begin :
      (t : db.Txn) (e : db.Env)
      → txn_of (db.call txn_begin e).0 ≡ some t
      → seen t (db.call txn_begin e).1 ≡ committed e
  pub seen_read :
      (r : Request F db.Txn db.Cursor) (t : db.Txn) (e : db.Env)
      → is_read r ≡ true
      → seen t (db.call r e).1 ≡ seen t e
  pub cursor_opened :
      (tb : Table) (t : db.Txn) (e : db.Env) (c : db.Cursor)
      → cursor_of (db.call (open_cursor tb t) e).0 ≡ some c
      → (owner c ≡ t) × (table c ≡ tb) × (ahead c (db.call (open_cursor tb t) e).1 ≤ records e)
  -- A call that writes nothing puts nothing before a cursor; a call that moves a cursor returns
  -- another value of it.
  pub ahead_kept :
      (r : Request F db.Txn db.Cursor) (c : db.Cursor) (e : db.Env)
      → is_read r ≡ true
      → ahead c (db.call r e).1 ≤ ahead c e
  pub account_found :
      (c : db.Cursor) (k : Text) (e : db.Env)
      → table c ≡ Table.personal
      → is_done (db.call (get_key c k) e).0 ≡ true
      → (seen (owner c) e).personal k ≡ true
  pub account_next :
      (c : db.Cursor) (e : db.Env) (k : Text) (c' : db.Cursor)
      → table c ≡ Table.personal
      → key_of (db.call (next_key c) e).0 ≡ some (k, c')
      → ((seen (owner c) e).personal k ≡ true)
        × (owner c' ≡ owner c)
        × (table c' ≡ Table.personal)
        × (ahead c' (db.call (next_key c) e).1 < ahead c e)
  pub stock_found :
      (c : db.Cursor) (k : Text) (e : db.Env)
      → table c ≡ Table.stocks
      → is_done (db.call (get_key c k) e).0 ≡ true
      → (seen (owner c) e).stocks k ≡ true
  pub quote_found :
      (c : db.Cursor) (k : Text) (b : Bool) (e : db.Env) (q : Quote F) (c' : db.Cursor)
      → table c ≡ Table.quotes
      → quote_of (db.call (get_quote c k b) e).0 ≡ some (q, c')
      → ((seen (owner c) e).quotes k ≡ some q)
        × (owner c' ≡ owner c)
        × (table c' ≡ Table.quotes)
        × (position c' ≡ some k)
  pub portfolio_found :
      (c : db.Cursor) (k : Text) (e : db.Env) (k' : Text) (p : Portfolio) (c' : db.Cursor)
      → table c ≡ Table.portfolios
      → portfolio_of (db.call (get_portfolio c k) e).0 ≡ some (k', p, c')
      → ((seen (owner c) e).portfolios k ≡ some p)
        × (owner c' ≡ owner c)
        × (table c' ≡ Table.portfolios)
        × (position c' ≡ some k)
  pub entry_found :
      (c : db.Cursor) (e : db.Env) (k : Text) (p : Portfolio) (c' : db.Cursor)
      → table c ≡ Table.portfolios_sec
      → portfolio_of (db.call (pget_next c) e).0 ≡ some (k, p, c')
      → ((seen (owner c) e).portfolios k ≡ some p)
        × (owner c' ≡ owner c)
        × (table c' ≡ Table.portfolios_sec)
        × (ahead c' (db.call (pget_next c) e).1 < ahead c e)
  pub quote_written :
      (c : db.Cursor) (k : Text) (q : Quote F) (e : db.Env)
      → table c ≡ Table.quotes
      → position c ≡ some k
      → is_done (db.call (put_quote c q) e).0 ≡ true
      → seen (owner c) (db.call (put_quote c q) e).1 ≡ write_quote k q (seen (owner c) e)
  pub portfolio_written :
      (c : db.Cursor) (k : Text) (p : Portfolio) (e : db.Env)
      → table c ≡ Table.portfolios
      → position c ≡ some k
      → is_done (db.call (put_portfolio c p) e).0 ≡ true
      → seen (owner c) (db.call (put_portfolio c p) e).1 ≡ write_portfolio k p (seen (owner c) e)
  pub portfolio_inserted :
      (t : db.Txn) (k : Text) (p : Portfolio) (e : db.Env)
      → is_done (db.call (insert_portfolio t k p) e).0 ≡ true
      → ((seen t e).portfolios k ≡ none)
        × (seen t (db.call (insert_portfolio t k p) e).1 ≡ write_portfolio k p (seen t e))
  pub records_grow :
      (r : Request F db.Txn db.Cursor) (e : db.Env)
      → records (db.call r e).1 ≤ records e + (if is_insert r then 1 else 0)
