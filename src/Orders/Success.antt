-- ===== src/Orders/Success.antt =====
-- `get_stock` of src/benchmark_common.c finds a quote that is there.
use chronos_prototype.Base.{ℕ, ◌≡◌, ◌∙◌, refl, Bool, false, some, arith, Text}
use chronos_prototype.Tables.{Quote, Tables}
use chronos_prototype.Db.{Table, BerkeleyDb, World, open_cursor, get_quote, cursor_of, quote_of}
use chronos_prototype.Db.Laws.{Laws}
use chronos_prototype.Db.Run.{Post, at_ok, Post-bind, Post-maybe, Post-if}
use chronos_prototype.Db.Reliable.{Reliable, Never, Post-some}
use chronos_prototype.Orders.{is_empty, get_stock}
use chronos_prototype.Orders.Lookups.{At, On, after, At-after, opened-On}

module _ {F : Type 0} {db : BerkeleyDb F} (l : Laws db) (r : Reliable l) (base s : Tables F) (n : ℕ)
    (t : db.Txn) where
  pub get_stock-Never :
      (k : Text) (b : Bool) (q : Quote F) (w : World db)
      → At l base s n t w
      → is_empty k ≡ false
      → s.quotes k ≡ some q
      → Post
          (λ x w'.
            At l base s n t w' × On l base s n t Table.quotes x.1 × (l.position x.1 ≡ some k))
          Never
          (get_stock db k t b w)
  unfolding get_stock
  get_stock-Never k b q w a full there =
      let w1 = after db (open_cursor Table.quotes t) w in
      let (c, e) = r.opens Table.quotes t w.env in
      let a1 = At-after l base s n t (open_cursor Table.quotes t) w refl a in
      Post-if (is_empty k) w _ _ (λ e. absurd (ground arith))
        λ _.
          Post-bind
            (Post-some (cursor_of (db.call (open_cursor Table.quotes t) w.env).0) c w1
              {R = λ c' w'. At l base s n t w' × On l base s n t Table.quotes c'} e
              (a1, opened-On l base s n t Table.quotes w c e))
            λ c w1 (a1, o).
              let (c1, f) =
                r.finds_quote c k b w1.env q o.on (ground (arith, o.mine, a1.read, there)) in
              let w2 = after db (get_quote c k b) w1 in
              let a2 = At-after l base s n t (get_quote c k b) w1 refl a1 in
              Post-maybe (quote_of (db.call (get_quote c k b) w1.env).0) w2 _ _ (λ e. absurd (cc))
                λ x e.
                  let g = l.quote_found c k b w1.env x.0 x.1 o.on e in
                  at_ok (a2, record { mine = g.1 ∙ o.mine; on = g.2 }, g.3)
