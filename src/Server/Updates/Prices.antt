-- ===== src/Server/Updates/Prices.antt =====
-- What the updates of src/startup_server.c do to the tables: they change current prices only.
use chronos_prototype.Base.{
  ℕ, zero, suc, ◌+◌, ◌≡◌, refl, ◌∙◌, sym, ap, subst, Bool, Bool-cases, Option-cases, inl, inr,
  Option, none, some, if◌then◌else◌, leb, get_elem?, take, Text, text_eq, eq_of_text_eq, List, [],
  ◌∷◌, ◌≢◌,
}
use chronos_prototype.Tables.{Floats, Quote, Tables, write_quote}
use chronos_prototype.Db.{BerkeleyDb, Outcome, ok, fail, crash, out_of_fuel, World}
use chronos_prototype.Db.Laws.{Laws}
use chronos_prototype.Packets.{id_sz}
use chronos_prototype.Xact.Refresh.{Refreshed, benchmark_refresh_quotes2-Refreshed}
use chronos_prototype.Xact.{benchmark_refresh_quotes2}
use chronos_prototype.Server.{Doubles, DataItem, ServerContext}
use chronos_prototype.Server.Process.{settle, wait_less, process_refresh_transaction}
use chronos_prototype.Server.Updates.{
  UpdateTurn, touch_item, go_on, update_item, update_items, update_thread,
}

-- The same record up to its current price.
pub data SameButPrice {F : Type 0} : Option (Quote F) → Option (Quote F) → Type 0 where
  absent : SameButPrice none none
  priced : (q : Quote F) (p : F) → SameButPrice (some q) (some (record q { current_price = p }))

-- Tables that differ in current prices only.
pub record OnlyPrices {F : Type 0} (before now : Tables F) : Type 0 where
  pub personal_kept : now.personal ≡ before.personal
  pub stocks_kept : now.stocks ≡ before.stocks
  pub portfolios_kept : now.portfolios ≡ before.portfolios
  pub quotes_priced : (k : Text) → SameButPrice (before.quotes k) (now.quotes k)

module _ {F : Type 0} where
  SameButPrice-refl : (o : Option (Quote F)) → SameButPrice o o
  SameButPrice-refl none = absent
  SameButPrice-refl (some q) = priced q q.current_price

  SameButPrice-trans :
      {a b c : Option (Quote F)} → SameButPrice a b → SameButPrice b c → SameButPrice a c
  SameButPrice-trans absent h = h
  SameButPrice-trans (priced q p) (priced _ p') = priced q p'

  OnlyPrices-refl : (s : Tables F) → OnlyPrices s s
  OnlyPrices-refl s = record {
    personal_kept = refl;
    stocks_kept = refl;
    portfolios_kept = refl;
    quotes_priced = λ k. SameButPrice-refl (s.quotes k);
  }

  OnlyPrices-trans : (a b c : Tables F) → OnlyPrices a b → OnlyPrices b c → OnlyPrices a c
  OnlyPrices-trans a b c h g = record {
    personal_kept = g.personal_kept ∙ h.personal_kept;
    stocks_kept = g.stocks_kept ∙ h.stocks_kept;
    portfolios_kept = g.portfolios_kept ∙ h.portfolios_kept;
    quotes_priced = λ k. SameButPrice-trans (h.quotes_priced k) (g.quotes_priced k);
  }

  write_quote-OnlyPrices :
      (s : Tables F) (k : Text) (q : Quote F) (p : F)
      → s.quotes k ≡ some q
      → OnlyPrices s (write_quote k (record q { current_price = p }) s)
  write_quote-OnlyPrices s k q p h = record {
    personal_kept = refl;
    stocks_kept = refl;
    portfolios_kept = refl;
    quotes_priced = λ j. elim (Bool-cases (text_eq j k)) [
      | inl e ↦ rw e (
          subst (λ o. SameButPrice o (some (record q { current_price = p })))
            (sym (ap s.quotes (eq_of_text_eq j k e) ∙ h)) (priced q p))
      | inr e ↦ rw e (SameButPrice-refl (s.quotes j))
    ];
  }

  Refreshed-OnlyPrices :
      (fl : Floats F) (symbol : Text) (value : F) (direction : ℕ) (o : Outcome (Unit {0}))
      (before now : Tables F)
      → Refreshed fl symbol value direction o before now
      → OnlyPrices before now × (o ≢ out_of_fuel)
  Refreshed-OnlyPrices fl symbol value direction (ok u) before now (q, p, at, new, e) =
      (subst (OnlyPrices before) (sym e) (write_quote-OnlyPrices before symbol q p at), λ h. cc)
  Refreshed-OnlyPrices fl symbol value direction fail before now h =
      (subst (OnlyPrices before) (sym h) (OnlyPrices-refl before), λ h. cc)
  Refreshed-OnlyPrices fl symbol value direction crash before now h =
      (subst (OnlyPrices before) (sym h) (OnlyPrices-refl before), λ h. cc)
  Refreshed-OnlyPrices fl symbol value direction out_of_fuel before now h = absurd h

module _ {F D : Type 0} {db : BerkeleyDb F} (l : Laws db) where
  -- What a call may do from tables `base`.
  abbrev Reprices : {A : Type 0} → Tables F → Outcome A × ServerContext D × World db → Type 0
  Reprices base x = OnlyPrices base (l.committed x.2.env) × (x.0 ≢ out_of_fuel)

  settle-Reprices :
      (base : Tables F) (note : Bool → ServerContext D → ServerContext D) (s : ServerContext D)
      (x : Outcome (Unit {0}) × World db)
      → OnlyPrices base (l.committed x.1.env) × (x.0 ≢ out_of_fuel)
      → Reprices base (settle note s x)
  settle-Reprices base note s (ok u, w) (h, g) = (h, λ e. cc)
  settle-Reprices base note s (fail, w) (h, g) = (h, λ e. cc)
  settle-Reprices base note s (crash, w) (h, g) = (h, λ e. cc)
  settle-Reprices base note s (out_of_fuel, w) (h, g) = absurd (g refl)

  go_on-Reprices :
      {A : Type 0} (base : Tables F) (x : Outcome A × ServerContext D × World db)
      (next : ServerContext D → World db → Outcome (Unit {0}) × ServerContext D × World db)
      → Reprices base x
      → ((s : ServerContext D) (w : World db) → Reprices (l.committed w.env) (next s w))
      → Reprices base (go_on x next)
  go_on-Reprices base (ok a, s, w) next (h, g) k =
      let (h', g') = k s w in (OnlyPrices-trans base _ _ h h', g')
  go_on-Reprices base (fail, s, w) next (h, g) k = (h, λ e. cc)
  go_on-Reprices base (crash, s, w) next (h, g) k = (h, λ e. cc)
  go_on-Reprices base (out_of_fuel, s, w) next (h, g) k = absurd (g refl)

  stays :
      {A : Type 0} (o : Outcome A) (s : ServerContext D) (w : World db)
      → o ≢ out_of_fuel
      → Reprices (l.committed w.env) (o, s, w)
  stays o s w h = (OnlyPrices-refl (l.committed w.env), h)

  module _ (fl : Floats F) (d : Doubles D) (minus_one : F) where
    refresh-Reprices :
        (value : F) (direction : ℕ) (pkey : Text) (s : ServerContext D) (w : World db)
        → Reprices
            (l.committed w.env)
            (process_refresh_transaction fl d db value direction pkey s w)
    unfolding process_refresh_transaction
    refresh-Reprices value direction pkey s w =
        settle-Reprices (l.committed w.env) (λ success s. if success then wait_less d s else s) s
          (benchmark_refresh_quotes2 fl db pkey value direction w)
          (Refreshed-OnlyPrices fl pkey value direction _ _ _
            (benchmark_refresh_quotes2-Refreshed fl l pkey value direction w))

    update_item-Reprices :
        (turn : UpdateTurn) (i : ℕ) (x : DataItem D) (s : ServerContext D) (w : World db)
        → Reprices (l.committed w.env) (update_item fl d db minus_one turn i x s w)
    unfolding update_item
    update_item-Reprices turn i x s w =
        elim (Bool-cases (leb x.next_update_time_ms turn.current_time_ms)) [
          | inl due ↦
              let y =
                process_refresh_transaction fl d db minus_one (turn.direction i)
                  (take id_sz x.data_item) s w in
              rw due (
                go_on-Reprices (l.committed w.env) y (λ s w. (ok tt, touch_item d turn i x s, w))
                  (refresh-Reprices minus_one (turn.direction i) (take id_sz x.data_item) s w)
                  (λ s w. stays (ok tt) (touch_item d turn i x s) w (λ e. cc)))
          | inr early ↦ rw early (stays (ok tt) s w (λ e. cc))
        ]

    update_items-none :
        (turn : UpdateTurn) (i n : ℕ) (s : ServerContext D) (w : World db)
        → get_elem? s.data_items i ≡ none
        → update_items fl d db minus_one turn i (suc n) s w ≡ (crash, s, w)
    unfolding update_items
    update_items-none turn i n s w e = rw (e, update_items) refl

    update_items-some :
        (turn : UpdateTurn) (i n : ℕ) (s : ServerContext D) (w : World db) (x : DataItem D)
        → get_elem? s.data_items i ≡ some x
        → update_items fl d db minus_one turn i (suc n) s w
          ≡ go_on
              (update_item fl d db minus_one turn i x s w)
              (update_items fl d db minus_one turn (i + 1) n)
    unfolding update_items
    update_items-some turn i n s w x e = rw (e, update_items) refl

    update_items-Reprices :
        (turn : UpdateTurn) (i n : ℕ) (s : ServerContext D) (w : World db)
        → Reprices (l.committed w.env) (update_items fl d db minus_one turn i n s w)
    unfolding update_items
    update_items-Reprices turn i zero s w = stays (ok tt) s w (λ e. cc)
    update_items-Reprices turn i (suc n) s w = elim (Option-cases (get_elem? s.data_items i)) [
      | inl out ↦
          subst (λ x. Reprices (l.committed w.env) x) (sym (update_items-none turn i n s w out))
            (stays crash s w (λ e. cc))
      | inr (x, at_i) ↦
          subst (λ x. Reprices (l.committed w.env) x) (sym (update_items-some turn i n s w x at_i))
            (go_on-Reprices (l.committed w.env) (update_item fl d db minus_one turn i x s w)
              (update_items fl d db minus_one turn (i + 1) n) (update_item-Reprices turn i x s w)
              (λ s w. update_items-Reprices turn (i + 1) n s w))
    ]

    -- However many turns an update thread makes, whichever calls fail, and also if it crashes: the
    -- committed tables differ from those before in current prices only. No fuel is needed.
    pub update_thread-OnlyPrices :
        (first n : ℕ) (turns : List UpdateTurn) (s : ServerContext D) (w : World db)
        → let x = update_thread fl d db minus_one first n turns s w in
          OnlyPrices (l.committed w.env) (l.committed x.2.env) × (x.0 ≢ out_of_fuel)
    unfolding update_thread
    update_thread-OnlyPrices first n [] s w = stays (ok tt) s w (λ e. cc)
    update_thread-OnlyPrices first n (turn ∷ turns) s w =
        go_on-Reprices _ (update_items fl d db minus_one turn first n s w) _
          (update_items-Reprices turn first n s w)
          λ s w. elim (Bool-cases turn.time_to_die) [
            | inl die ↦ rw die (stays (ok tt) s w (λ e. cc))
            | inr stay ↦ rw stay (update_thread-OnlyPrices first n turns s w)
          ]
