-- ===== src/Packets/Create.antt =====
-- src/chronos_packets.c: `chronosRequestCreate` asks only for what the client's cache has.
use chronos_prototype.Base.{All, all_nil, all_cons}
use chronos_prototype.Base.{
  ℕ, zero, suc, ◌+◌, ◌%◌, ◌<◌, ◌≡◌, ◌≢◌, ◌∙◌, ap, refl, true, Option, none, some, List, [], ◌∷◌,
  arith, length, get_elem?, take, Text, Option-cases, inl, inr, get_elem?-ne-none,
}
use native.Mathlib.Nat.{mod-lt}
use chronos_prototype.Cache.{Ret, returned, ChronosCache, StockInfo, ClientPortfolio, ClientCache}
use chronos_prototype.Cache.Client.{num_portfolios_get}
use chronos_prototype.Cache.Bounds.{StockOf, PortfolioOf, ClientOf, Counted, ==-false}
use chronos_prototype.Cache.Client.Reads.{portfolio_at-Reads}
use chronos_prototype.Packets.{
  id_sz, TxnType, view_stock, view_portfolio, purchase, sale, inval, Item, symbol_item,
  account_item, purchase_item, sell_item, RequestPacket, env_magic, env_check, env_cache_get,
  copy_id, pack_purchase, pack_sell_stock, pack_view_portfolio, pack_view_stock, Prices, pick,
  view_stock_turn, view_portfolio_turn, trade_turn, turns, request_items, request_create,
}

-- Every stock of the cache has a name: the data file had a line for each.
abbrev pub Loaded : ChronosCache → Type 0
Loaded c = (i : ℕ) → get_elem? c.stocks_list i ≢ some none

-- `s` is what `strncpy` makes of the name of a user, or of the stock numbered `id`.
pub record NamesUser (c : ChronosCache) (s : Text) : Type 0 where
  pub user_number : ℕ
  pub user_name : Text
  pub user_there : get_elem? c.users user_number ≡ some user_name
  pub user_copied : s ≡ take id_sz user_name

pub record NamesStock (c : ChronosCache) (id : ℕ) (s : Text) : Type 0 where
  pub stock_name : Text
  pub stock_there : get_elem? c.stocks_list id ≡ some (some stock_name)
  pub stock_copied : s ≡ take id_sz stock_name

-- What an item of a request of each type may be.
pub data Asks {F : Type 0} (pr : Prices F) (price : F) (c : ChronosCache)
    : TxnType → Item F → Type 0 where
  asks_view_stock :
      {id : ℕ} {s : Text} → NamesStock c id s → Asks pr price c view_stock (symbol_item id s)
  asks_view_portfolio : {a : Text} → NamesUser c a → Asks pr price c view_portfolio (account_item a)
  asks_purchase :
      {a : Text} {id : ℕ} {s : Text} {n : ℕ}
      → NamesUser c a
      → NamesStock c id s
      → n < 100
      → Asks pr price c purchase (purchase_item a id s (pr.add_ten price) n)
  asks_sale :
      {a : Text} {id : ℕ} {s : Text} {n : ℕ}
      → NamesUser c a
      → NamesStock c id s
      → n < 100
      → Asks pr price c sale (sell_item a id s (pr.sub_ten price) n)

pick-lt : (r n : ℕ) → n ≢ 0 → (pick r n ≡ returned (r % n)) × (r % n < n)
pick-lt r n h = (rw (==-false n h) refl, mod-lt r (grind (arith, h)))

module _ {F : Type 0} (pr : Prices F) (price : F) (rand : ℕ → ℕ) (c : ChronosCache)
    (cc : ClientCache F) (counted : Counted c) (v : ClientOf price c cc) (loaded : Loaded c) where
  StockOf-NamesStock :
      (x : StockInfo F)
      → StockOf price c x
      → (s : Text) × (copy_id x.symbol ≡ returned s) × NamesStock c x.symbol_id s
  StockOf-NamesStock x h = elim (Option-cases x.symbol) [
    | inl e ↦ absurd (loaded x.symbol_id (h.stock_named ∙ ap some e))
    | inr (name, e) ↦ (
      take id_sz name,
      rw e refl,
      record { stock_name = name; stock_there = h.stock_named ∙ ap some e; stock_copied = refl },
    )
  ]

  PortfolioOf-NamesUser :
      (p : ClientPortfolio F)
      → PortfolioOf price c p
      → (s : Text) × (copy_id p.user ≡ returned s) × NamesUser c s
  PortfolioOf-NamesUser p h =
      let (id, _, inside, named) = h.user_of_cache in
      elim (Option-cases p.user) [
        | inl e ↦ absurd (
            get_elem?-ne-none c.users id (omega (arith, counted.users_counted, inside)) (named ∙ e))
        | inr (name, e) ↦ (
          take id_sz name,
          rw e refl,
          record { user_number = id; user_name = name; user_there = named ∙ e; user_copied = refl },
        )
      ]

  view_stock_turn-Asks :
      (u k : ℕ)
      → u < cc.num_portfolios
      → (x : Item F) × (view_stock_turn pr rand (some cc) u k ≡ returned x)
        × Asks pr price c view_stock x
  unfolding view_stock_turn pack_view_stock
  view_stock_turn-Asks u k h =
      let (p, user, stock) = portfolio_at-Reads price pr.zero_price c cc v u h in
      let (picked, small) =
        pick-lt (rand k) p.num_symbols (grind (arith, user.portfolio_of.symbols_fit)) in
      let (x, st) = stock (rand k % p.num_symbols) small in
      let (s, copied, named) = StockOf-NamesStock x st.stock_of in
      (
        _,
        rw (user.count_read, picked, st.id_read, st.symbol_read, copied) refl,
        asks_view_stock named,
      )

  view_portfolio_turn-Asks :
      (k : ℕ)
      → (x : Item F) × (view_portfolio_turn pr rand (some cc) k ≡ returned x)
        × Asks pr price c view_portfolio x
  unfolding view_portfolio_turn num_portfolios_get pack_view_portfolio
  view_portfolio_turn-Asks k =
      let (picked, small) = pick-lt (rand k) cc.num_portfolios (grind (arith, v.portfolios_fit)) in
      let (p, user, stock) =
        portfolio_at-Reads price pr.zero_price c cc v (rand k % cc.num_portfolios) small in
      let (s, copied, named) = PortfolioOf-NamesUser p user.portfolio_of in
      (_, rw (picked, user.user_read, copied) refl, asks_view_portfolio named)

  -- A turn of a purchase or a sale, up to the packing.
  trade_turn-packs :
      (asked : F → F) (pack : Option Text → ℕ → Option Text → F → ℕ → Ret (Item F)) (k : ℕ)
      → (a : Option Text) × (a' : Text) × (id : ℕ) × (s : Option Text) × (s' : Text) × (trade_turn
            pr rand
            (some cc)
            asked
            pack
            k
          ≡ pack a id s (asked price) (rand (k + 2) % 100))
        × (copy_id a ≡ returned a')
        × (copy_id s ≡ returned s')
        × NamesUser c a'
        × NamesStock c id s'
  unfolding trade_turn num_portfolios_get
  trade_turn-packs asked pack k =
      let (picked, small) = pick-lt (rand k) cc.num_portfolios (grind (arith, v.portfolios_fit)) in
      let (p, user, stock) =
        portfolio_at-Reads price pr.zero_price c cc v (rand k % cc.num_portfolios) small in
      let (a, a_copied, a_named) = PortfolioOf-NamesUser p user.portfolio_of in
      let (picked2, small2) =
        pick-lt (rand (k + 1)) p.num_symbols (grind (arith, user.portfolio_of.symbols_fit)) in
      let (x, st) = stock (rand (k + 1) % p.num_symbols) small2 in
      let (s, s_copied, s_named) = StockOf-NamesStock x st.stock_of in
      (
        p.user,
        a,
        x.symbol_id,
        x.symbol,
        s,
        rw
            (
              picked, user.user_read, user.count_read, picked2, st.id_read, st.symbol_read,
              st.price_read, st.stock_of.initial_price,
            )
            refl,
        a_copied,
        s_copied,
        a_named,
        s_named,
      )

  purchase_turn-Asks :
      (k : ℕ)
      → (x : Item F) × (trade_turn pr rand (some cc) pr.add_ten pack_purchase k ≡ returned x)
        × Asks pr price c purchase x
  unfolding pack_purchase
  purchase_turn-Asks k =
      let (a, a', id, s, s', e, ea, es, na, ns) = trade_turn-packs pr.add_ten pack_purchase k in
      (
        purchase_item a' id s' (pr.add_ten price) (rand (k + 2) % 100),
        e ∙ rw (ea, es) refl,
        asks_purchase na ns (omega arith),
      )

  sale_turn-Asks :
      (k : ℕ)
      → (x : Item F) × (trade_turn pr rand (some cc) pr.sub_ten pack_sell_stock k ≡ returned x)
        × Asks pr price c sale x
  unfolding pack_sell_stock
  sale_turn-Asks k =
      let (a, a', id, s, s', e, ea, es, na, ns) = trade_turn-packs pr.sub_ten pack_sell_stock k in
      (
        sell_item a' id s' (pr.sub_ten price) (rand (k + 2) % 100),
        e ∙ rw (ea, es) refl,
        asks_sale na ns (omega arith),
      )

  turns-Asks :
      (t : TxnType) (turn : ℕ → Ret (Item F)) (step : ℕ)
      → ((k : ℕ) → (x : Item F) × (turn k ≡ returned x) × Asks pr price c t x)
      → (n k : ℕ)
      → (xs : List (Item F)) × (turns pr rand (some cc) turn step n k ≡ returned xs)
        × (length xs ≡ n)
        × All (Asks pr price c t) xs
  unfolding turns
  turns-Asks t turn step each zero k = ([], refl, refl, all_nil)
  turns-Asks t turn step each (suc n) k =
      let (x, e, h) = each k in
      let (xs, es, l, hs) = turns-Asks t turn step each n (k + step) in
      (x ∷ xs, rw (e, es) refl, ap suc l, all_cons h hs)

  request_items-Asks :
      (t : TxnType) (n : ℕ)
      → t ≢ inval
      → (xs : List (Item F)) × (request_items pr rand (some cc) t n ≡ returned xs)
        × (length xs ≡ n)
        × All (Asks pr price c t) xs
  unfolding request_items num_portfolios_get
  request_items-Asks view_stock n h =
      let (picked, small) = pick-lt (rand 0) cc.num_portfolios (grind (arith, v.portfolios_fit)) in
      let (xs, e, l, hs) =
        turns-Asks view_stock _ 1 (λ k. view_stock_turn-Asks (rand 0 % cc.num_portfolios) k small) n
          1 in
      (xs, rw picked e, l, hs)
  request_items-Asks view_portfolio n h = turns-Asks view_portfolio _ 1 view_portfolio_turn-Asks n 0
  request_items-Asks purchase n h = turns-Asks purchase _ 3 purchase_turn-Asks n 0
  request_items-Asks sale n h = turns-Asks sale _ 3 sale_turn-Asks n 0
  request_items-Asks inval n h = absurd (h refl)

  -- From a client's cache within bounds, on a cache with a name for each stock, and a good
  -- environment handle: a request of each valid type is made, without undefined behaviour, with 3
  -- items of that type, which name users and stocks of the cache, ask for fewer than 100 stocks, at
  -- 10 above the price for a purchase and 10 below it for a sale.
  pub request_create-Asks :
      (t : TxnType) (c' : ChronosCache)
      → t ≢ inval
      → (p : RequestPacket F) × (request_create pr rand t
            (some cc)
            (some (record { magic = env_magic; cache = some c' }))
            true
          ≡ returned (some p))
        × (p.txn_type ≡ t)
        × (p.num_items ≡ 3)
        × (length p.items ≡ 3)
        × All (Asks pr price c t) p.items
  unfolding request_create env_cache_get env_check
  request_create-Asks t c' h =
      let (xs, e, l, hs) = request_items-Asks t 3 h in
      (record { txn_type = t; num_items = 3; items = xs }, rw e refl, refl, refl, l, hs)
