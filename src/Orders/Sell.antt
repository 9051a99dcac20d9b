-- ===== src/Orders/Sell.antt =====
-- `sell_stocks` of src/benchmark_common.c against the specification of a sale.
use chronos_prototype.Base.{ℕ, ◌<◌, ◌≡◌, refl, true, not, arith, Text}
use chronos_prototype.Base.Int.{◌≤ℤ◌, ltb_ℤ}
use chronos_prototype.Tables.{Floats, Portfolio, XactData, Tables}
use chronos_prototype.Db.{BerkeleyDb, World}
use chronos_prototype.Db.Laws.{Laws}
use chronos_prototype.Db.Run.{Post, Post-bind, Post-mono, Post-else, Post-guard}
use chronos_prototype.Orders.{sold, sell_stocks, take_from_portfolio}
use chronos_prototype.Orders.Lookups.{At, get_portfolio-Post}
use chronos_prototype.Orders.Parts.{
  Kept, check_known-Post, sell_price_ok-Post, locate-Post, save-Post,
}
use chronos_prototype.Orders.Spec.{Known, Holds, Sale, shrink}

module _ {F : Type 0} (fl : Floats F) {db : BerkeleyDb F} (l : Laws db) (base s : Tables F) (n : ℕ)
    (t : db.Txn) where
  -- Where a sale has been made.
  abbrev pub Sold : XactData F → World db → Type 0
  Sold d w = (s' : Tables F) × Sale fl s d s' × At l base s' n t w

  take_from_portfolio-Post :
      (d : XactData F) (k : Text) (p : Portfolio) (c : db.Cursor) (w : World db)
      → s.personal d.account_id ≡ true
      → s.stocks d.symbol ≡ true
      → Holds s d k p
      → d.amount ≤ℤ p.hold_stocks
      → At l base s n t w
      → Post (λ _ w'. Sold d w') (Kept fl l base s n t) (take_from_portfolio fl db k c d 1 t w)
  unfolding take_from_portfolio sold
  take_from_portfolio-Post d k p c w ac sy holds enough a =
      Post-bind (Post-else (locate-Post fl l base s n t k w a) λ w e. e.shown)
        λ (p', c') w (a, r, o, z).
          Post-bind (Post-else (sell_price_ok-Post fl l base s n t d 1 w a) λ w e. e.shown)
            λ _ w (a, priced).
              let (q, quoted, high) = priced refl in
              let known : Known s d q = record {
                account_known = ac;
                symbol_known = sy;
                quoted = quoted;
              } in
              let holds' : Holds s d k p' = ground (arith, r, holds) in
              let enough' : d.amount ≤ℤ p'.hold_stocks = ground (arith, r, holds, enough) in
              Post-mono (save-Post fl l base s n t c c' k (sold fl p' d 1) w a o z)
                λ _ w a. (_, shrink q k p' known high holds' enough', a)

  -- A forced sale that succeeds is a sale; one that fails leaves the committed tables alone; and the
  -- scan ends.
  pub sell_stocks-Post :
      (fuel : ℕ) (d : XactData F) (w : World db)
      → n < fuel
      → At l base s n t w
      → Post (λ _ w'. Sold d w') (Kept fl l base s n t) (sell_stocks fl db fuel d 1 t w)
  unfolding sell_stocks
  sell_stocks-Post fuel d w h a =
      Post-bind (Post-else (check_known-Post fl l base s n t d w a) λ w e. e.shown)
        λ _ w (a, ac, sy).
          Post-bind
            (Post-else (get_portfolio-Post l base s n t fuel d.account_id d.symbol w a h)
              λ w e. e.shown)
            λ x w (a, f).
              Post-bind
                (Post-guard (not (ltb_ℤ x.1.hold_stocks d.amount)) w
                  {R = λ _ w'. At l base s n t w' × (d.amount ≤ℤ x.1.hold_stocks)}
                  (λ e. (a, ground arith)) a.shown)
                λ _ w (a, enough).
                  take_from_portfolio-Post d x.0 x.1 x.2 w ac sy
                    (record {
                      stored = f.stored;
                      account_is = f.account_is;
                      symbol_is = f.symbol_is;
                    })
                    enough a
