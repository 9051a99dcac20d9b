-- ===== src/Orders/Spec.antt =====
-- What an order that is applied at once does to the tables, whatever the program does on the way.
use chronos_prototype.Base.{◌≡◌, true, none, some, Text}
use chronos_prototype.Base.Int.{pos, ◌+ℤ◌, ◌-ℤ◌, ◌≤ℤ◌, wrap32}
use chronos_prototype.Tables.{Floats, Quote, Portfolio, XactData, Tables, write_portfolio}

-- The portfolio under key `k` is one of the order's account and symbol.
pub record Holds {F : Type 0} (s : Tables F) (d : XactData F) (k : Text) (p : Portfolio)
    : Type 0 where
  pub stored : s.portfolios k ≡ some p
  pub account_is : d.account_id ≡ p.account_id
  pub symbol_is : d.symbol ≡ p.symbol

-- The account and the symbol are known, and the symbol has a quote.
pub record Known {F : Type 0} (s : Tables F) (d : XactData F) (q : Quote F) : Type 0 where
  pub account_known : s.personal d.account_id ≡ true
  pub symbol_known : s.stocks d.symbol ≡ true
  pub quoted : s.quotes d.symbol ≡ some q

-- A portfolio opened by a purchase.
abbrev pub opening : {F : Type 0} → Text → XactData F → Portfolio
opening k d = record {
  portfolio_id = k;
  account_id = d.account_id;
  symbol = d.symbol;
  hold_stocks = d.amount;
  to_sell = pos 0;
  number_sell = pos 0;
  price_sell = pos 0;
  to_buy = pos 0;
  number_buy = pos 0;
  price_buy = pos 0;
}

-- A purchase at a price that covers the quote: a portfolio of that account and symbol grows by the
-- amount, or one is opened with it under a key that was free. Nothing else changes.
pub data Purchase {F : Type 0} (fl : Floats F) (s : Tables F) (d : XactData F)
    : Tables F → Type 0 where
  grow :
      (q : Quote F) (k : Text) (p : Portfolio)
      → Known s d q
      → fl.le q.current_price d.price ≡ true
      → Holds s d k p
      → Purchase fl s d
          (write_portfolio k (record p { hold_stocks = wrap32 (p.hold_stocks +ℤ d.amount) }) s)
  open_new :
      (q : Quote F) (k : Text)
      → Known s d q
      → fl.le q.current_price d.price ≡ true
      → s.portfolios k ≡ none
      → Purchase fl s d (write_portfolio k (opening k d) s)

-- A sale at a price that the quote covers: a portfolio of that account and symbol that holds at
-- least the amount falls by it. Nothing else changes.
pub data Sale {F : Type 0} (fl : Floats F) (s : Tables F) (d : XactData F) : Tables F → Type 0 where
  shrink :
      (q : Quote F) (k : Text) (p : Portfolio)
      → Known s d q
      → fl.le d.price q.current_price ≡ true
      → Holds s d k p
      → d.amount ≤ℤ p.hold_stocks
      → Sale fl s d
          (write_portfolio k (record p { hold_stocks = wrap32 (p.hold_stocks -ℤ d.amount) }) s)
