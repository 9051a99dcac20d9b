-- ===== src/Xact/Tests.antt =====
-- The theorems about the transactions of src/purchase_txn.c, src/sell_txn.c, src/view_stock_txn.c
-- and src/refresh_quotes.c, on a small database with one account, one stock and one portfolio.
use chronos_prototype.Base.{◌≡◌, refl, [], ◌∷◌, arith}
use chronos_prototype.Db.{ok}
use chronos_prototype.Db.Example.{example_db, example_laws, example-Reliable}
use chronos_prototype.Orders.Spec.{Purchase, Sale}
use chronos_prototype.Xact.{benchmark_purchase2, benchmark_sell2, benchmark_refresh_quotes2}
use chronos_prototype.Xact.Atomic.{AllOrNothing}
use chronos_prototype.Xact.Trade.{benchmark_purchase2-AllOrNothing, benchmark_sell2-AllOrNothing}
use chronos_prototype.Xact.Refresh.{Refreshed, benchmark_refresh_quotes2-Refreshed}
use chronos_prototype.Xact.Success.{benchmark_refresh_quotes2-Success}
use chronos_prototype.Xact.Solvent.{Solvent, benchmark_sell2-Solvent}
use chronos_prototype.Xact.Example.{prices, acme, acme_quote, tables, acme_quoted, world, item}

benchmark_purchase2-AllOrNothing_example :
    AllOrNothing
      (Purchase prices)
      (item ∷ item ∷ [])
      (benchmark_purchase2 prices example_db 3 (item ∷ item ∷ []) world).0
      tables
      (benchmark_purchase2 prices example_db 3 (item ∷ item ∷ []) world).1.env.committed
benchmark_purchase2-AllOrNothing_example =
    benchmark_purchase2-AllOrNothing prices example_laws 3 (item ∷ item ∷ []) world (omega arith)

benchmark_sell2-AllOrNothing_example :
    AllOrNothing
      (Sale prices)
      (item ∷ item ∷ [])
      (benchmark_sell2 prices example_db 3 (item ∷ item ∷ []) world).0
      tables
      (benchmark_sell2 prices example_db 3 (item ∷ item ∷ []) world).1.env.committed
benchmark_sell2-AllOrNothing_example =
    benchmark_sell2-AllOrNothing prices example_laws 3 (item ∷ item ∷ []) world (omega arith)

benchmark_refresh_quotes2-Refreshed_example :
    Refreshed prices acme 12 0
      (benchmark_refresh_quotes2 prices example_db acme 12 0 world).0
      tables
      (benchmark_refresh_quotes2 prices example_db acme 12 0 world).1.env.committed
benchmark_refresh_quotes2-Refreshed_example =
    benchmark_refresh_quotes2-Refreshed prices example_laws acme 12 0 world

tables-Solvent : Solvent tables
tables-Solvent k p e = ground arith

benchmark_sell2-Solvent_example :
    Solvent (benchmark_sell2 prices example_db 2 (item ∷ []) world).1.env.committed
benchmark_sell2-Solvent_example =
    benchmark_sell2-Solvent prices example_laws 2 (item ∷ []) world (omega arith) (omega arith, tt)
      tables-Solvent

benchmark_refresh_quotes2-Success_example :
    (benchmark_refresh_quotes2 prices example_db acme 12 0 world).0 ≡ ok tt
benchmark_refresh_quotes2-Success_example =
    benchmark_refresh_quotes2-Success example_laws example-Reliable prices acme 12 0 acme_quote
      world refl acme_quoted
