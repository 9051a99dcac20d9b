-- ===== src/Orders/Parts.antt =====
-- src/benchmark_common.c: the steps of an order after its lookups.
use chronos_prototype.Base.{
  ℕ, ◌+◌, ◌≡◌, refl, ◌∙◌, ap, Bool, true, false, none, some, arith, Text, ◌==◌,
}
use chronos_prototype.Base.Decimal.{decimal}
use chronos_prototype.Tables.{Floats, Quote, Portfolio, XactData, Tables, write_portfolio}
use chronos_prototype.Db.{
  Table, Request, BerkeleyDb, World, is_done, cursor_of, portfolio_of, open_cursor, close,
  put_portfolio, insert_portfolio,
}
use chronos_prototype.Db.Laws.{Laws}
use chronos_prototype.Db.Run.{Post, at_ok, Post-bind, Post-or_fail, Post-guard, Post-if}
use chronos_prototype.Orders.{
  check_known, new_portfolio, create_portfolio, buy_price_ok, sell_price_ok, locate, save,
}
use chronos_prototype.Orders.Lookups.{
  At, On, after, At-after, opened-On, account_exists-Post, symbol_exists-Post, get_stock-Post,
}

module _ {F : Type 0} (fl : Floats F) {db : BerkeleyDb F} (l : Laws db) (base s : Tables F) (n : ℕ)
    (t : db.Txn) where
  -- The committed tables are `base`.
  abbrev pub Kept : World db → Type 0
  Kept w = l.committed w.env ≡ base

  abbrev Here : World db → Type 0
  Here = At l base s n t

  -- A quote of the symbol with a price that passes `test`.
  abbrev pub Priced : XactData F → (F → Bool) → Type 0
  Priced d test = (q : Quote F) × (s.quotes d.symbol ≡ some q) × (test q.current_price ≡ true)

  pub check_known-Post :
      (d : XactData F) (w : World db)
      → Here w
      → Post
          (λ _ w'. Here w' × (s.personal d.account_id ≡ true) × (s.stocks d.symbol ≡ true))
          Here
          (check_known db d t w)
  unfolding check_known
  check_known-Post d w a =
      Post-bind (account_exists-Post l base s n t d.account_id w a) λ b w (a, ac).
        Post-bind
          (Post-guard b w {R = λ _ w'. Here w' × (s.personal d.account_id ≡ true)} (λ e. (a, ac e))
            a)
          λ _ w (a, ac).
            Post-bind (symbol_exists-Post l base s n t d.symbol w a)
              λ b w (a, sy). Post-guard b w (λ e. (a, ac, sy e)) a

  pub buy_price_ok-Post :
      (d : XactData F) (force : ℕ) (w : World db)
      → Here w
      → Post
          (λ _ w'. Here w' × (force ≡ 1 → Priced d (λ p. fl.le p d.price)))
          Here
          (buy_price_ok fl db d force t w)
  unfolding buy_price_ok
  buy_price_ok-Post d force w a =
      Post-if (force == 1) w _ _
        (λ e. Post-bind (get_stock-Post l base s n t d.symbol false w a) λ (q, c) w' (a', r, o, z).
          Post-guard (fl.le q.current_price d.price) w' (λ h. (a', λ _. (q, r, h))) a')
        (λ e. at_ok (a, λ h. absurd (ground arith)))

  pub sell_price_ok-Post :
      (d : XactData F) (force : ℕ) (w : World db)
      → Here w
      → Post
          (λ _ w'. Here w' × (force ≡ 1 → Priced d (λ p. fl.le d.price p)))
          Here
          (sell_price_ok fl db d force t w)
  unfolding sell_price_ok
  sell_price_ok-Post d force w a =
      Post-if (force == 1) w _ _
        (λ e. Post-bind (get_stock-Post l base s n t d.symbol false w a) λ (q, c) w' (a', r, o, z).
          Post-guard (fl.le d.price q.current_price) w' (λ h. (a', λ _. (q, r, h))) a')
        (λ e. at_ok (a, λ h. absurd (ground arith)))

  pub locate-Post :
      (k : Text) (w : World db)
      → Here w
      → Post
          (λ x w'.
            Here w'
            × (s.portfolios k ≡ some x.0)
            × On l base s n t Table.portfolios x.1
            × (l.position x.1 ≡ some k))
          Here
          (locate db k t w)
  unfolding locate
  locate-Post k w a =
      let w1 = after db (open_cursor Table.portfolios t) w in
      let a1 = At-after l base s n t (open_cursor Table.portfolios t) w refl a in
      Post-bind
        (Post-or_fail (cursor_of (db.call (open_cursor Table.portfolios t) w.env).0) w1
          {R = λ c w'. Here w' × On l base s n t Table.portfolios c}
          (λ c e. (a1, opened-On l base s n t Table.portfolios w c e)) a1)
        λ c w1 (a1, o).
          let w2 = after db (Request.get_portfolio c k) w1 in
          let a2 = At-after l base s n t (Request.get_portfolio c k) w1 refl a1 in
          Post-bind
            (Post-or_fail (portfolio_of (db.call (Request.get_portfolio c k) w1.env).0) w2
              {R = λ x w'.
                Here w'
                × (s.portfolios k ≡ some x.1)
                × On l base s n t Table.portfolios x.2
                × (l.position x.2 ≡ some k)}
              (λ x e.
                let f = l.portfolio_found c k w1.env x.0 x.1 x.2 o.on e in
                (a2, ground (arith, f, o, a1), record { mine = f.1 ∙ o.mine; on = f.2 }, f.3))
              a2)
            λ x w3 h. at_ok h

  pub save-Post :
      (secondary primary : db.Cursor) (k : Text) (p : Portfolio) (w : World db)
      → Here w
      → On l base s n t Table.portfolios primary
      → l.position primary ≡ some k
      → Post (λ _ w'. At l base (write_portfolio k p s) n t w') Kept (save db secondary primary p w)
  unfolding save
  save-Post secondary primary k p w a o at_k =
      let w1 = after db (put_portfolio primary p) w in
      let kept = l.committed_kept (put_portfolio primary p) w.env refl ∙ a.shown in
      Post-bind
        (Post-guard (is_done (db.call (put_portfolio primary p) w.env).0) w1
          {R = λ _ w'. At l base (write_portfolio k p s) n t w'}
          (λ e. record {
            shown = kept;
            read = ground (arith, l.portfolio_written primary k p w.env, o, a);
            small = omega (arith, l.records_grow (put_portfolio primary p) w.env, a.small);
          })
          kept)
        λ _ w1 a1.
          let a2 = At-after l base (write_portfolio k p s) n t (close secondary) w1 refl a1 in
          let w2 = after db (close secondary) w1 in
          Post-bind
            (Post-guard (is_done (db.call (close secondary) w1.env).0) w2
              {R = λ _ w'. At l base (write_portfolio k p s) n t w'} (λ _. a2) a2.shown)
            λ _ w2 a2.
              let a3 = At-after l base (write_portfolio k p s) n t (close primary) w2 refl a2 in
              Post-guard (is_done (db.call (close primary) w2.env).0) (after db (close primary) w2)
                (λ _. a3) a3.shown

  pub create_portfolio-Post :
      (d : XactData F) (force : ℕ) (w : World db)
      → Here w
      → Post
          (λ _ w'.
            (k : Text) × (s.portfolios k ≡ none)
            × At l base (write_portfolio k (new_portfolio fl k d force) s) (n + 1) t w')
          Kept
          (create_portfolio fl db d force t w)
  unfolding create_portfolio
  create_portfolio-Post d force w a =
      let k = decimal w.number_portfolios in
      let it = insert_portfolio t k (new_portfolio fl k d force) in
      let kept = l.committed_kept it w.env refl ∙ a.shown in
      Post-guard (is_done (db.call it w.env).0) _
        (λ e.
          let f = l.portfolio_inserted t k (new_portfolio fl k d force) w.env e in
          (
            k,
            ground (arith, f, a),
            record {
              shown = kept;
              read = f.1 ∙ ap (write_portfolio k (new_portfolio fl k d force)) a.read;
              small = omega (arith, l.records_grow it w.env, a.small);
            },
          ))
        kept
