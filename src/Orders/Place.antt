-- ===== src/Orders/Place.antt =====
-- `place_order` of src/benchmark_common.c against the specification of a purchase.
use chronos_prototype.Base.{ℕ, ◌+◌, ◌<◌, ◌≡◌, refl, subst, true, some, arith, Text}
use chronos_prototype.Tables.{Floats, Portfolio, XactData, Tables}
use chronos_prototype.Db.{BerkeleyDb, World}
use chronos_prototype.Db.Laws.{Laws}
use chronos_prototype.Db.Run.{Post, Post-bind, Post-mono, Post-else, Post-caught, Post-maybe}
use chronos_prototype.Orders.{new_portfolio, bought, place_order, add_to_portfolio, start_portfolio}
use chronos_prototype.Orders.Lookups.{At, get_portfolio-Post, Found}
use chronos_prototype.Orders.Parts.{
  Kept, check_known-Post, buy_price_ok-Post, locate-Post, save-Post, create_portfolio-Post,
}
use chronos_prototype.Orders.Spec.{Known, Holds, Purchase, grow, open_new}

module _ {F : Type 0} (fl : Floats F) {db : BerkeleyDb F} (l : Laws db) (base s : Tables F) (n : ℕ)
    (t : db.Txn) where
  -- Where a purchase has been made.
  abbrev pub Purchased : XactData F → World db → Type 0
  Purchased d w = (s' : Tables F) × Purchase fl s d s' × At l base s' (n + 1) t w

  At-suc : (s' : Tables F) (w : World db) → At l base s' n t w → At l base s' (n + 1) t w
  At-suc s' w a = record { shown = a.shown; read = a.read; small = omega (arith, a.small) }

  add_to_portfolio-Post :
      (d : XactData F) (k : Text) (p : Portfolio) (c : db.Cursor) (w : World db)
      → s.personal d.account_id ≡ true
      → s.stocks d.symbol ≡ true
      → Holds s d k p
      → At l base s n t w
      → Post (λ _ w'. Purchased d w') (Kept fl l base s n t) (add_to_portfolio fl db k c d 1 t w)
  unfolding add_to_portfolio bought
  add_to_portfolio-Post d k p c w ac sy holds a =
      Post-bind (Post-else (locate-Post fl l base s n t k w a) λ w e. e.shown)
        λ (p', c') w (a, r, o, z).
          Post-bind (Post-else (buy_price_ok-Post fl l base s n t d 1 w a) λ w e. e.shown)
            λ _ w (a, priced).
              let (q, quoted, low) = priced refl in
              let known : Known s d q = record {
                account_known = ac;
                symbol_known = sy;
                quoted = quoted;
              } in
              let holds' : Holds s d k p' = ground (arith, r, holds) in
              Post-mono (save-Post fl l base s n t c c' k (bought fl p' d 1) w a o z)
                λ _ w a. (_, grow q k p' known low holds', At-suc _ w a)

  start_portfolio-Post :
      (d : XactData F) (w : World db)
      → s.personal d.account_id ≡ true
      → s.stocks d.symbol ≡ true
      → At l base s n t w
      → Post (λ _ w'. Purchased d w') (Kept fl l base s n t) (start_portfolio fl db d 1 t w)
  unfolding start_portfolio new_portfolio
  start_portfolio-Post d w ac sy a =
      Post-bind (Post-else (buy_price_ok-Post fl l base s n t d 1 w a) λ w e. e.shown)
        λ _ w (a, priced).
          let (q, quoted, low) = priced refl in
          let known : Known s d q = record {
            account_known = ac;
            symbol_known = sy;
            quoted = quoted;
          } in
          Post-mono (create_portfolio-Post fl l base s n t d 1 w a)
            λ _ w (k, free, a). (_, open_new q k known low free, a)

  Found-Holds :
      (d : XactData F) (x x' : Text × Portfolio × db.Cursor)
      → some x ≡ some x'
      → Found l base s n t d.account_id d.symbol x.0 x.1
      → Holds s d x'.0 x'.1
  Found-Holds d x x' e f =
      let same : x ≡ x' = cc in
      subst (λ (y : Text × Portfolio × db.Cursor). Holds s d y.0 y.1) same
        (record { stored = f.stored; account_is = f.account_is; symbol_is = f.symbol_is })

  -- A forced order that succeeds is a purchase; one that fails leaves the committed tables alone;
  -- and the scan ends.
  pub place_order-Post :
      (fuel : ℕ) (d : XactData F) (w : World db)
      → n < fuel
      → At l base s n t w
      → Post (λ _ w'. Purchased d w') (Kept fl l base s n t) (place_order fl db fuel d 1 t w)
  unfolding place_order
  place_order-Post fuel d w h a =
      Post-bind (Post-else (check_known-Post fl l base s n t d w a) λ w e. e.shown)
        λ _ w (a, ac, sy).
          Post-bind
            (Post-else
              (Post-caught
                {R = λ o w'.
                  At l base s n t w'
                  × ((x : Text × Portfolio × db.Cursor) → o ≡ some x → Holds s d x.0 x.1)}
                (get_portfolio-Post l base s n t fuel d.account_id d.symbol w a h)
                (λ x w (a, f). (a, λ x' e. Found-Holds d x x' e f)) (λ w a. (a, λ x e. cc)))
              λ w e. e.shown)
            λ o w (a, found).
              Post-maybe o w _ _ (λ _. start_portfolio-Post d w ac sy a)
                λ x e. add_to_portfolio-Post d x.0 x.1 x.2 w ac sy (found x e) a
