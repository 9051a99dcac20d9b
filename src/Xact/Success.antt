-- ===== src/Xact/Success.antt =====
-- src/view_stock_txn.c and src/refresh_quotes.c: transactions that are in order succeed on a
-- database on which no call fails.
use Prim.Native.String.{String}
use chronos_prototype.Base.{ℕ, ◌≡◌, ◌∙◌, refl, subst, true, false, some, List, [], ◌∷◌, arith, Text}
use chronos_prototype.Tables.{Floats, Quote, Tables}
use chronos_prototype.Db.{
  Table, BerkeleyDb, ok, World, M, txn_begin, txn_of, set_name, close, commit, put_quote, is_done,
}
use chronos_prototype.Db.Laws.{Laws}
use chronos_prototype.Db.Run.{Post, at_ok, Post-bind, Post-mono, Post-caught, Post-maybe, Post-if}
use chronos_prototype.Db.Reliable.{Reliable, Never, Post-some, Post-pass, Post-ok}
use chronos_prototype.Orders.{is_empty}
use chronos_prototype.Orders.Lookups.{At, On, after, At-after}
use chronos_prototype.Orders.Success.{get_stock-Never}
use chronos_prototype.Xact.{
  start_xact, commit_xact, for_each, run_xact, show_quote, benchmark_view_stock2, new_quote,
  write_stock, update_stock, benchmark_refresh_quotes2,
}
use chronos_prototype.Xact.Atomic.{kept}

-- Every symbol is a text with a quote.
abbrev pub AllQuoted : {F : Type 0} → Tables F → List Text → Type 0
AllQuoted s [] = Unit {0}
AllQuoted {F} s (k ∷ ks) =
    (is_empty k ≡ false) × ((q : Quote F) × (s.quotes k ≡ some q)) × AllQuoted s ks

module _ {F : Type 0} {db : BerkeleyDb F} (l : Laws db) (r : Reliable l) (base : Tables F) where
  begun :
      (w : World db) (t : db.Txn)
      → l.committed w.env ≡ base
      → txn_of (db.call txn_begin w.env).0 ≡ some t
      → At l base base (l.records (after db txn_begin w).env) t (after db txn_begin w)
  begun w t u e = record {
    shown = kept l base txn_begin w refl u;
    read = l.seen_begin t w.env e ∙ u;
    small = omega arith;
  }

  start_xact-Never :
      (name : String) (w : World db)
      → l.committed w.env ≡ base
      → Post
          (λ t w'. At l base base (l.records (after db txn_begin w).env) t w')
          Never
          (start_xact db name w)
  unfolding start_xact
  start_xact-Never name w u =
      let (t, e) = r.begins w.env in
      let n = l.records (after db txn_begin w).env in
      Post-bind
        (Post-some (txn_of (db.call txn_begin w.env).0) t (after db txn_begin w)
          {R = λ t w'. At l base base n t w'} e (begun w t u e))
        λ t w1 a1.
          Post-if (is_done (db.call (set_name t name) w1.env).0) _ _ _
            (λ _. at_ok (At-after l base base n t (set_name t name) w1 refl a1))
            (λ e. absurd (ground (arith, r.names t name w1.env)))

  commit_xact-Never :
      (t : db.Txn) (w : World db) → Post (λ _ w'. Unit {0}) Never (commit_xact db t w)
  unfolding commit_xact
  commit_xact-Never t w =
      Post-if (is_done (db.call (commit t) w.env).0) _ _ _ (λ _. at_ok tt)
        (λ e. absurd (ground (arith, r.commits t w.env)))

  module _ {A : Type 0} (I : db.Txn → List A → World db → Type 0)
      (item : db.Txn → A → M db (Unit {0}))
      (each : (t : db.Txn) (x : A) (xs : List A) (w : World db)
        → I t (x ∷ xs) w
        → Post (λ _ w'. I t xs w') Never (item t x w)) where
    for_each-Never :
        (t : db.Txn) (xs : List A) (w : World db)
        → I t xs w
        → Post (λ _ w'. I t [] w') Never (for_each db (item t) xs w)
    unfolding for_each
    for_each-Never t [] w i = at_ok i
    for_each-Never t (x ∷ xs) w i = Post-bind (each t x xs w i) λ _ w i. for_each-Never t xs w i

    run_xact-Never :
        (name : String) (xs : List A) (w : World db)
        → l.committed w.env ≡ base
        → ((t : db.Txn) (n : ℕ) (w : World db) → At l base base n t w → I t xs w)
        → Post (λ _ w'. Unit {0}) Never (run_xact db name item xs w)
    unfolding run_xact
    run_xact-Never name xs w u ready = Post-bind (start_xact-Never name w u) λ t w a.
        Post-bind
          (Post-caught {R = λ o w'. o ≡ some tt}
            (Post-bind (for_each-Never t xs w (ready t _ w a)) λ _ w i. commit_xact-Never t w)
            (λ y w q. refl) (λ w u. elim u [ ]))
          λ o w e. Post-maybe o w _ _ (λ g. absurd (ground (arith, e))) (λ y g. at_ok tt)

module _ {F : Type 0} {db : BerkeleyDb F} (l : Laws db) (r : Reliable l) where
  show_quote-Never :
      (base s : Tables F) (n : ℕ) (t : db.Txn) (k : Text) (w : World db)
      → is_empty k ≡ false
      → (q : Quote F) × (s.quotes k ≡ some q)
      → At l base s n t w
      → Post (λ _ w'. At l base s n t w') Never (show_quote db k t w)
  unfolding show_quote
  show_quote-Never base s n t k w full (q, there) a =
      Post-bind (get_stock-Never l r base s n t k false q w a full there) λ (q, c) w (a, _, _).
        Post-pass (is_done (db.call (close c) w.env).0) (after db (close c) w) (r.closes c w.env)
          (At-after l base s n t (close c) w refl a)

  -- Where no call of the database fails, a look at symbols that all have a quote succeeds.
  pub benchmark_view_stock2-Success :
      (symbols : List Text) (w : World db)
      → AllQuoted (l.committed w.env) symbols
      → (benchmark_view_stock2 db symbols w).0 ≡ ok tt
  unfolding benchmark_view_stock2
  benchmark_view_stock2-Success symbols w quoted =
      let base = l.committed w.env in
      Post-ok (
        run_xact-Never l r base (λ t ks w'. ((n : ℕ) × At l base base n t w') × AllQuoted base ks)
          (λ t k. show_quote db k t)
          (λ t k ks w (at, all).
            Post-mono (show_quote-Never base base at.0 t k w all.0 all.1 at.1)
              λ _ w a. ((at.0, a), all.2))
          "VIEW_STOCK_TXN" symbols w refl (λ t n w a. ((n, a), quoted)))

  write_stock-Never :
      (fl : Floats F) (base s : Tables F) (n : ℕ) (t : db.Txn) (c : db.Cursor) (k : Text)
      (q : Quote F) (w : World db)
      → On l base s n t Table.quotes c
      → l.position c ≡ some k
      → Post (λ _ w'. Unit {0}) Never (write_stock fl db t c q w)
  unfolding write_stock
  write_stock-Never fl base s n t c k q w o at_k =
      let w1 = after db (put_quote c q) w in
      Post-if (is_done (db.call (put_quote c q) w.env).0) w1 _ _
        (λ _.
          Post-if (is_done (db.call (close c) w1.env).0) (after db (close c) w1) _ _
            (λ _. commit_xact-Never l r base t (after db (close c) w1))
            (λ e. absurd (ground (arith, r.closes c w1.env))))
        (λ e. absurd (ground (arith, r.puts_quote c k q w.env o.on at_k)))

  -- Where no call of the database fails, a refresh of a symbol that has a quote succeeds.
  pub benchmark_refresh_quotes2-Success :
      (fl : Floats F) (k : Text) (value : F) (direction : ℕ) (q : Quote F) (w : World db)
      → is_empty k ≡ false
      → (l.committed w.env).quotes k ≡ some q
      → (benchmark_refresh_quotes2 fl db k value direction w).0 ≡ ok tt
  unfolding benchmark_refresh_quotes2 update_stock
  benchmark_refresh_quotes2-Success fl k value direction q w full there = Post-ok (
      let base = l.committed w.env in
      let (t, e) = r.begins w.env in
      let n = l.records (after db txn_begin w).env in
      Post-if (is_empty k) w _ _ (λ e. absurd (ground arith))
        λ _.
          Post-bind
            (Post-some (txn_of (db.call txn_begin w.env).0) t (after db txn_begin w)
              {R = λ t w'. At l base base n t w'} e (begun l r base w t refl e))
            λ t w1 a1.
              Post-bind
                (Post-caught
                  {R = λ o w'.
                    (x : Quote F × db.Cursor) × (o ≡ some x)
                    × On l base base n t Table.quotes x.1
                    × (l.position x.1 ≡ some k)}
                  (get_stock-Never l r base base n t k true q w1 a1 full there)
                  (λ x w (a, o, z). (x, refl, o, z)) (λ w u. elim u [ ]))
                λ o w2 (x, e, on, z).
                  Post-maybe o w2 _ _ (λ g. absurd (ground (arith, e)))
                    λ y g.
                      let same : x ≡ y = cc in
                      write_stock-Never fl base base n t y.1 k (new_quote fl value direction y.0) w2
                        (subst (λ (v : Quote F × db.Cursor). On l base base n t Table.quotes v.1)
                          same on)
                        (subst (λ (v : Quote F × db.Cursor). l.position v.1 ≡ some k) same z))
