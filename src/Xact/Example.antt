-- ===== src/Xact/Example.antt =====
-- A small database with one account, one stock and one portfolio, for the tests.
use chronos_prototype.Base.{
  ◌≡◌, ap, Bool, text_eq_refl, ℕ, suc, ◌-◌, some, none, [], ◌∷◌, leb, Text, text_eq, if◌then◌else◌,
}
use chronos_prototype.Base.Int.{pos}
use chronos_prototype.Tables.{Floats, Quote, Portfolio, XactData, Tables}
use chronos_prototype.Db.{World}
use chronos_prototype.Db.Example.{example_db}

abbrev pub prices : Floats ℕ
prices = record { le = leb; zero = 0; add_tenth = suc; sub_tenth = λ n. n - 1; to_int = pos }

abbrev pub alice : Text
alice = 49 ∷ []

abbrev pub acme : Text
acme = 65 ∷ 67 ∷ []

abbrev pub acme_quote : Quote ℕ
acme_quote = record {
  symbol = acme;
  current_price = 10;
  trade_time = [];
  low_price_day = 0;
  high_price_day = 0;
  perc_price_change = 0;
  bidding_price = 0;
  asking_price = 0;
  trade_volume = pos 0;
  market_cap = [];
}

abbrev pub stock : Portfolio
stock = record {
  portfolio_id = 48 ∷ [];
  account_id = alice;
  symbol = acme;
  hold_stocks = pos 5;
  to_sell = pos 0;
  number_sell = pos 0;
  price_sell = pos 0;
  to_buy = pos 0;
  number_buy = pos 0;
  price_buy = pos 0;
}

abbrev pub tables : Tables ℕ
tables = record {
  personal = text_eq alice;
  stocks = text_eq acme;
  quotes = λ k. if text_eq acme k then some acme_quote else none;
  portfolios = λ k. if text_eq (48 ∷ []) k then some stock else none;
}

pub acme_quoted : tables.quotes acme ≡ some acme_quote
acme_quoted = ap (λ (b : Bool). if b then some acme_quote else none) (text_eq_refl acme)

abbrev pub world : World example_db
world = record {
  env = record { committed = tables; working = tables; keys = (48 ∷ []) ∷ [] };
  number_portfolios = 1;
}

abbrev pub item : XactData ℕ
item = record { account_id = alice; symbol_id = pos 0; symbol = acme; price = 10; amount = pos 3 }
