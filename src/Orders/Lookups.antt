-- ===== src/Orders/Lookups.antt =====
-- src/benchmark_common.c: the lookups change no table, and tell what the transaction reads.
use chronos_prototype.Base.{
  ℕ, zero, suc, ◌≤◌, ◌<◌, ◌≡◌, refl, ◌∙◌, Bool, true, false, ◌&&◌, ◌||◌, some, arith, Text, text_eq,
  eq_of_text_eq,
}
use chronos_prototype.Tables.{Portfolio, Tables}
use chronos_prototype.Db.{
  Table, Request, BerkeleyDb, World, is_done, cursor_of, quote_of, portfolio_of, txn_begin, commit,
  open_cursor, close, get_key, get_quote, pget_next, insert_portfolio,
}
use chronos_prototype.Db.Laws.{Laws, is_commit, is_read, is_insert}
use chronos_prototype.Db.Run.{
  Post, at_ok, at_fail, at_crash, Post-bind, Post-or_fail, Post-maybe, Post-if,
}
use chronos_prototype.Orders
use chronos_prototype.Orders.{account_exists, symbol_exists, key_exists, get_stock, scan}

module _ {F : Type 0} {db : BerkeleyDb F} (l : Laws db) (base s : Tables F) (n : ℕ)
    (t : db.Txn) where
  -- The transaction reads `s`, the committed tables are `base`, and the index has at most `n` entries.
  pub record At (w : World db) : Type 0 where
    pub shown : l.committed w.env ≡ base
    pub read : l.seen t w.env ≡ s
    pub small : l.records w.env ≤ n

-- The world after a call.
abbrev pub after :
    {F : Type 0} (db : BerkeleyDb F) → Request F db.Txn db.Cursor → World db → World db
after db r w = record w { env = (db.call r w.env).1 }

is_read-only :
    {F Txn Cursor : Type 0} (r : Request F Txn Cursor)
    → is_read r ≡ true
    → (is_commit r ≡ false) × (is_insert r ≡ false)
is_read-only txn_begin h = ground arith
is_read-only (commit u) h = ground arith
is_read-only (insert_portfolio u k p) h = ground arith
is_read-only _ h = (refl, refl)

module _ {F : Type 0} {db : BerkeleyDb F} (l : Laws db) (base s : Tables F) (n : ℕ)
    (t : db.Txn) where
  abbrev pub Here : World db → Type 0
  Here = At l base s n t

  pub At-after :
      (r : Request F db.Txn db.Cursor) (w : World db)
      → is_read r ≡ true
      → Here w
      → Here (after db r w)
  At-after r w h a = record {
    shown = l.committed_kept r w.env (is_read-only r h).0 ∙ a.shown;
    read = l.seen_read r t w.env h ∙ a.read;
    small = ground (arith, l.records_grow r w.env, is_read-only r h);
  }

  -- A cursor of this transaction on a table.
  pub record On (tb : Table) (c : db.Cursor) : Type 0 where
    pub mine : l.owner c ≡ t
    pub on : l.table c ≡ tb

  pub opened-On :
      (tb : Table) (w : World db) (c : db.Cursor)
      → cursor_of (db.call (open_cursor tb t) w.env).0 ≡ some c
      → On tb c
  opened-On tb w c e = let h = l.cursor_opened tb t w.env c e in record { mine = h.0; on = h.1 }

  key_exists-Post :
      (tb : Table) (k : Text) (w : World db) (P : Type 0)
      → Here w
      → ((c : db.Cursor) (w' : World db)
          → On tb c
          → Here w'
          → is_done (db.call (get_key c k) w'.env).0 ≡ true
          → P)
      → Post (λ b w'. Here w' × (b ≡ true → P)) Here (key_exists db tb k t w)
  unfolding key_exists
  key_exists-Post tb k w P a found =
      let w1 = after db (open_cursor tb t) w in
      let a1 = At-after (open_cursor tb t) w refl a in
      Post-maybe (cursor_of (db.call (open_cursor tb t) w.env).0) w1 _ _ (λ _. at_ok (a1, λ e. cc))
        λ c e.
          let w2 = after db (get_key c k) w1 in
          at_ok (
            At-after (close c) w2 refl (At-after (get_key c k) w1 refl a1),
            found c w1 (opened-On tb w c e) a1,
          )

  pub account_exists-Post :
      (k : Text) (w : World db)
      → Here w
      → Post (λ b w'. Here w' × (b ≡ true → s.personal k ≡ true)) Here (account_exists db k t w)
  unfolding account_exists
  account_exists-Post k w a =
      Post-if (Orders.is_empty k) w _ _ (λ _. at_ok (a, λ e. cc))
        λ _.
          key_exists-Post Table.personal k w (s.personal k ≡ true) a
            λ c w' o a' e. ground (arith, l.account_found c k w'.env, o, a')

  pub symbol_exists-Post :
      (k : Text) (w : World db)
      → Here w
      → Post (λ b w'. Here w' × (b ≡ true → s.stocks k ≡ true)) Here (symbol_exists db k t w)
  unfolding symbol_exists
  symbol_exists-Post k w a =
      Post-if (Orders.is_empty k) w _ _ (λ _. at_ok (a, λ e. cc))
        λ _.
          key_exists-Post Table.stocks k w (s.stocks k ≡ true) a
            λ c w' o a' e. ground (arith, l.stock_found c k w'.env, o, a')

  pub get_stock-Post :
      (k : Text) (b : Bool) (w : World db)
      → Here w
      → Post
          (λ x w'.
            Here w' × (s.quotes k ≡ some x.0) × On Table.quotes x.1 × (l.position x.1 ≡ some k))
          Here
          (get_stock db k t b w)
  unfolding get_stock
  get_stock-Post k b w a =
      let w1 = after db (open_cursor Table.quotes t) w in
      let a1 = At-after (open_cursor Table.quotes t) w refl a in
      Post-if (Orders.is_empty k) w _ _ (λ _. at_fail a)
        λ _.
          Post-bind
            (Post-or_fail (cursor_of (db.call (open_cursor Table.quotes t) w.env).0) w1
              {R = λ c w'. Here w' × On Table.quotes c} (λ c e. (a1, opened-On Table.quotes w c e))
              a1)
            λ c w1 (a1, o).
              let w2 = after db (get_quote c k b) w1 in
              let a2 = At-after (get_quote c k b) w1 refl a1 in
              Post-maybe (quote_of (db.call (get_quote c k b) w1.env).0) w2 _ _
                (λ _. at_fail (At-after (close c) w2 refl a2))
                λ x e.
                  let f = l.quote_found c k b w1.env x.0 x.1 o.on e in
                  at_ok
                    (a2, ground (arith, f, o, a1), record { mine = f.1 ∙ o.mine; on = f.2 }, f.3)

  -- What a lookup in the secondary index finds: a portfolio of that account and symbol.
  pub record Found (account symbol : Text) (k : Text) (p : Portfolio) : Type 0 where
    pub stored : s.portfolios k ≡ some p
    pub account_is : account ≡ p.account_id
    pub symbol_is : symbol ≡ p.symbol

  pub scan-Post :
      (fuel : ℕ) (account symbol : Text) (c : db.Cursor) (w : World db)
      → Here w
      → On Table.portfolios_sec c
      → l.ahead c w.env < fuel
      → Post (λ x w'. Here w' × Found account symbol x.0 x.1) Here (scan db fuel account symbol c w)
  unfolding scan
  scan-Post zero account symbol c w a o h = elim h [ ]
  scan-Post (suc fuel) account symbol c w a o h =
      let w1 = after db (pget_next c) w in
      let a1 = At-after (pget_next c) w refl a in
      Post-maybe (portfolio_of (db.call (pget_next c) w.env).0) w1 _ _
        (λ _. at_fail (At-after (close c) w1 refl a1))
        λ x e.
          let f = l.entry_found c w.env x.0 x.1 x.2 o.on e in
          Post-if (text_eq account x.1.account_id && text_eq symbol x.1.symbol) w1 _ _
            (λ both. at_ok (
              a1,
              record {
                stored = ground (arith, f, o, a);
                account_is = eq_of_text_eq _ _ (ground arith);
                symbol_is = eq_of_text_eq _ _ (ground arith);
              },
            ))
            (λ _.
              scan-Post fuel account symbol x.2 w1 a1 (record { mine = f.1 ∙ o.mine; on = f.2 })
                (omega arith))

  pub get_portfolio-Post :
      (fuel : ℕ) (account symbol : Text) (w : World db)
      → Here w
      → n < fuel
      → Post
          (λ x w'. Here w' × Found account symbol x.0 x.1)
          Here
          (Orders.get_portfolio db fuel account symbol t w)
  unfolding Orders.get_portfolio
  get_portfolio-Post fuel account symbol w a h =
      let w1 = after db (open_cursor Table.portfolios_sec t) w in
      let a1 = At-after (open_cursor Table.portfolios_sec t) w refl a in
      Post-if (Orders.is_empty account || Orders.is_empty symbol) w _ _ (λ _. at_crash a)
        λ _.
          Post-maybe (cursor_of (db.call (open_cursor Table.portfolios_sec t) w.env).0) w1 _ _
            (λ _. at_crash a1)
            λ c e.
              let c_at = l.cursor_opened Table.portfolios_sec t w.env c e in
              scan-Post fuel account symbol c w1 a1 (opened-On Table.portfolios_sec w c e)
                (omega (arith, a.small, c_at.2))
