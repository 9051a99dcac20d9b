-- ===== src/Populate/Tests.antt =====
-- The theorem about the random portfolios, on a small database.
use chronos_prototype.Base.{
  ℕ, ◌<◌, ◌≡◌, refl, Option, none, some, List, [], ◌∷◌, Text, text_eq, Bool, ◌≤◌,
}
use chronos_prototype.Base.Decimal.{decimal}
use chronos_prototype.Tables.{Portfolio, Tables}
use chronos_prototype.Db.{World, ok}
use chronos_prototype.Db.Run.{Post}
use chronos_prototype.Db.Example.{example_db, example_laws}
use chronos_prototype.Populate.{store_portfolio, load_from, load_portfolio_database}
use chronos_prototype.Populate.Filled.{Filled, load_portfolio_database-Filled}
use chronos_prototype.Populate.Ranges.{IsStarting, load_portfolio_database-IsStarting}

abbrev no_tables : Tables ℕ
no_tables = record {
  personal = λ k. Bool.false;
  stocks = λ k. Bool.false;
  quotes = λ k. none;
  portfolios = λ k. none;
}

abbrev empty_world : World example_db
empty_world = record {
  env = record { committed = no_tables; working = no_tables; keys = [] };
  number_portfolios = 0;
}

-- "ACME"
abbrev listed : List (Option Text)
listed = some (65 ∷ 67 ∷ 77 ∷ 69 ∷ []) ∷ []

abbrev rand : ℕ → ℕ
rand k = k

populated : (load_portfolio_database example_db rand listed empty_world).0 ≡ ok tt
unfolding load_portfolio_database load_from store_portfolio decimal text_eq
populated = refl

load_portfolio_database-Filled_example :
    Post
      (λ u w'. Filled rand listed 0 100 no_tables w'.env.committed)
      (λ w'. (n : ℕ) × (n ≤ 100) × Filled rand listed 0 n no_tables w'.env.committed)
      (load_portfolio_database example_db rand listed empty_world)
load_portfolio_database-Filled_example =
    load_portfolio_database-Filled example_laws rand listed empty_world

load_portfolio_database-IsStarting_example :
    let s' = (load_portfolio_database example_db rand listed empty_world).1.env.committed in
    ((j : ℕ)
      → j < 100
      → (p : Portfolio) × (s'.portfolios (decimal j) ≡ some p) × IsStarting listed j p)
    × ((k : Text) (q : Portfolio) → none ≡ some q → s'.portfolios k ≡ some q)
load_portfolio_database-IsStarting_example =
    load_portfolio_database-IsStarting example_laws rand listed empty_world populated
