-- ===== src/Tables.antt =====
-- include/benchmark_common.h: the records that the transactions touch, and `benchmark_xact_data_t`.
-- A text is what a `char` array holds up to its NUL; `sprintf` into an array of ID_SZ bytes wants
-- at most 9 characters, which every id of the program has. `F` is C's `float`.
use chronos_prototype.Base.{Bool, Option, some, if◌then◌else◌, Text, text_eq}
use chronos_prototype.Base.Int.{ℤ}

-- What the program uses of `float`: `a <= b` (and `b >= a`), the constant 0, `+= 0.1`, `-= 0.1`,
-- and the conversion to `int`.
pub record Floats (F : Type 0) : Type 0 where
  pub le : F → F → Bool
  pub zero : F
  pub add_tenth : F → F
  pub sub_tenth : F → F
  pub to_int : F → ℤ

-- `QUOTE`
pub record Quote (F : Type 0) : Type 0 where
  pub symbol : Text
  pub current_price : F
  pub trade_time : Text
  pub low_price_day : F
  pub high_price_day : F
  pub perc_price_change : F
  pub bidding_price : F
  pub asking_price : F
  pub trade_volume : ℤ
  pub market_cap : Text

-- `PORTFOLIOS`
pub record Portfolio : Type 0 where
  pub portfolio_id : Text
  pub account_id : Text
  pub symbol : Text
  pub hold_stocks : ℤ
  pub to_sell : ℤ
  pub number_sell : ℤ
  pub price_sell : ℤ
  pub to_buy : ℤ
  pub number_buy : ℤ
  pub price_buy : ℤ

-- `benchmark_xact_data_t`: one item of a purchase or a sale.
pub record XactData (F : Type 0) : Type 0 where
  pub account_id : Text
  pub symbol_id : ℤ
  pub symbol : Text
  pub price : F
  pub amount : ℤ

-- The content of the tables, by key.
pub record Tables (F : Type 0) : Type 0 where
  pub personal : Text → Bool
  pub stocks : Text → Bool
  pub quotes : Text → Option (Quote F)
  pub portfolios : Text → Option Portfolio

abbrev pub update : {A : Type 0} → (Text → Option A) → Text → A → Text → Option A
update f k v j = if text_eq j k then some v else f j

-- The tables with one record written.
abbrev pub write_portfolio : {F : Type 0} → Text → Portfolio → Tables F → Tables F
write_portfolio k p t = record t { portfolios = update t.portfolios k p }

abbrev pub write_quote : {F : Type 0} → Text → Quote F → Tables F → Tables F
write_quote k q t = record t { quotes = update t.quotes k q }
