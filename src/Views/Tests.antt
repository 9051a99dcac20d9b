-- ===== src/Views/Tests.antt =====
-- The theorems about the view of portfolios, on a small database.
use chronos_prototype.Base.{arith, [], ◌∷◌}
use chronos_prototype.Db.Example.{example_db, example_laws}
use chronos_prototype.Xact.Example.{alice, tables, world}
use chronos_prototype.Views.{benchmark_view_portfolio2}
use chronos_prototype.Views.Atomic.{Unchanged, benchmark_view_portfolio2-Unchanged}

benchmark_view_portfolio2-Unchanged_example :
    Unchanged
      (benchmark_view_portfolio2 example_db 3 (alice ∷ [] ∷ []) world).0
      tables
      (benchmark_view_portfolio2 example_db 3 (alice ∷ [] ∷ []) world).1.env.committed
benchmark_view_portfolio2-Unchanged_example =
    benchmark_view_portfolio2-Unchanged example_laws 3 (alice ∷ [] ∷ []) world (omega arith)
