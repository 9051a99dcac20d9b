-- ===== src/Xact/Trade.antt =====
-- `benchmark_purchase2`, `benchmark_sell2` and `benchmark_view_stock2` of src/purchase_txn.c,
-- src/sell_txn.c and src/view_stock_txn.c against their specifications.
use chronos_prototype.Base.{ℕ, ◌+◌, ◌≤◌, ◌≡◌, refl, some, false, List, length, arith, Text}
use chronos_prototype.Tables.{Floats, Quote, XactData, Tables}
use chronos_prototype.Db.{BerkeleyDb, World, close, is_done}
use chronos_prototype.Db.Laws.{Laws}
use chronos_prototype.Db.Run.{Post, Post-bind, Post-mono, Post-else, Post-guard}
use chronos_prototype.Orders.Lookups.{At, after, At-after, get_stock-Post}
use chronos_prototype.Orders.Spec.{Purchase, Sale}
use chronos_prototype.Orders.Place.{place_order-Post}
use chronos_prototype.Orders.Sell.{sell_stocks-Post}
use chronos_prototype.Xact.{show_quote, benchmark_purchase2, benchmark_sell2, benchmark_view_stock2}
use chronos_prototype.Xact.Atomic.{AllOrNothing, Untouched, run_xact-AllOrNothing}

-- A look at a stock: it has a quote, and the tables stay as they are.
pub data Viewed {F : Type 0} (s : Tables F) (symbol : Text) : Tables F → Type 0 where
  viewed : (q : Quote F) → s.quotes symbol ≡ some q → Viewed s symbol s

module _ {F : Type 0} (fl : Floats F) {db : BerkeleyDb F} (l : Laws db) where
  -- With fuel for the index entries and the items: a purchase that succeeds leaves the committed
  -- tables as the items, taken in order, make them, each by a purchase of the specification; one that
  -- fails or crashes leaves them as they were; and the fuel does not run out.
  pub benchmark_purchase2-AllOrNothing :
      (fuel : ℕ) (items : List (XactData F)) (w : World db)
      → l.records w.env + length items ≤ fuel
      → AllOrNothing
          (Purchase fl)
          items
          (benchmark_purchase2 fl db fuel items w).0
          (l.committed w.env)
          (l.committed (benchmark_purchase2 fl db fuel items w).1.env)
  unfolding benchmark_purchase2
  benchmark_purchase2-AllOrNothing fuel items w h =
      run_xact-AllOrNothing l (l.committed w.env) (Purchase fl) "PURCHASE_TXN" _ fuel
        (λ t s n d w h a. place_order-Post fl l _ s n t fuel d w h a) items w refl h

  -- With fuel for the index entries and the items: a sale that succeeds leaves the committed tables
  -- as the items, taken in order, make them, each by a sale of the specification; one that fails or
  -- crashes leaves them as they were; and the fuel does not run out.
  pub benchmark_sell2-AllOrNothing :
      (fuel : ℕ) (items : List (XactData F)) (w : World db)
      → l.records w.env + length items ≤ fuel
      → AllOrNothing
          (Sale fl)
          items
          (benchmark_sell2 fl db fuel items w).0
          (l.committed w.env)
          (l.committed (benchmark_sell2 fl db fuel items w).1.env)
  unfolding benchmark_sell2
  benchmark_sell2-AllOrNothing fuel items w h =
      run_xact-AllOrNothing l (l.committed w.env) (Sale fl) "SELL_TXN" _ fuel
        (λ t s n d w h a. Post-mono (sell_stocks-Post fl l _ s n t fuel d w h a) λ _ w (s', r, a).
          (s', r, record { shown = a.shown; read = a.read; small = omega (arith, a.small) }))
        items w refl h

module _ {F : Type 0} {db : BerkeleyDb F} (l : Laws db) where
  show_quote-Post :
      (base s : Tables F) (n : ℕ) (t : db.Txn) (symbol : Text) (w : World db)
      → At l base s n t w
      → Post
          (λ _ w'. (s' : Tables F) × Viewed s symbol s' × At l base s' (n + 1) t w')
          (Untouched l base)
          (show_quote db symbol t w)
  unfolding show_quote
  show_quote-Post base s n t symbol w a =
      Post-bind (Post-else (get_stock-Post l base s n t symbol false w a) λ w e. e.shown)
        λ (q, c) w (a, r, _, _).
          let a1 = At-after l base s n t (close c) w refl a in
          Post-guard (is_done (db.call (close c) w.env).0) (after db (close c) w)
            (λ _. (
              s,
              viewed q r,
              record { shown = a1.shown; read = a1.read; small = omega (arith, a1.small) },
            ))
            a1.shown

  -- A look at stocks, whatever its outcome, leaves the committed tables as they were; if it succeeds,
  -- each of the symbols has a quote; and the fuel does not run out.
  pub benchmark_view_stock2-AllOrNothing :
      (symbols : List Text) (w : World db)
      → AllOrNothing Viewed symbols
          (benchmark_view_stock2 db symbols w).0
          (l.committed w.env)
          (l.committed (benchmark_view_stock2 db symbols w).1.env)
  unfolding benchmark_view_stock2
  benchmark_view_stock2-AllOrNothing symbols w =
      run_xact-AllOrNothing l (l.committed w.env) Viewed "VIEW_STOCK_TXN" _
        (l.records w.env + length symbols) (λ t s n x w h a. show_quote-Post _ s n t x w a) symbols
        w refl (omega arith)
