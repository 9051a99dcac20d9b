-- ===== src/Xact/Refresh.antt =====
-- `update_stock` of src/benchmark_common.c and `benchmark_refresh_quotes2` of src/refresh_quotes.c
-- against the specification of a refresh.
use chronos_prototype.Base.{
  ℕ, ◌≡◌, ◌≢◌, ◌⊎◌, inl, inr, false, Bool-cases, ◌==◌, ◌||◌, refl, ◌∙◌, subst, some, true, arith,
  Text,
}
use chronos_prototype.Tables.{Floats, Quote, Tables, write_quote}
use chronos_prototype.Db.{
  BerkeleyDb, Outcome, ok, fail, crash, out_of_fuel, World, Table, txn_begin, txn_of, is_done,
  close, put_quote,
}
use chronos_prototype.Db.Laws.{Laws}
use chronos_prototype.Db.Run.{
  Post, at_ok, at_fail, at_crash, Post-bind, Post-mono, Post-else, Post-caught, Post-or_fail,
  Post-maybe, Post-if,
}
use chronos_prototype.Orders.{is_empty}
use chronos_prototype.Orders.Lookups.{At, On, after, At-after, get_stock-Post}
use chronos_prototype.Xact.{new_quote, write_stock, update_stock, benchmark_refresh_quotes2}
use chronos_prototype.Xact.Atomic.{Untouched, kept, abandon-Post, commit_xact-Post}

-- The price that a refresh may put in place of `old`: the given value if that is not negative; else
-- a tenth more where chance says 0 or nothing is left to take away, and a tenth less otherwise.
pub data NewPrice {F : Type 0} (fl : Floats F) (value : F) (direction : ℕ) (old : F)
    : F → Type 0 where
  given : fl.le fl.zero value ≡ true → NewPrice fl value direction old value
  raised :
      fl.le fl.zero value ≡ false
      → (direction ≡ 0) ⊎ (fl.le old fl.zero ≡ true)
      → NewPrice fl value direction old (fl.add_tenth old)
  lowered :
      fl.le fl.zero value ≡ false
      → direction ≢ 0
      → fl.le old fl.zero ≡ false
      → NewPrice fl value direction old (fl.sub_tenth old)

-- What a refresh may end with: on success the quote of the symbol has the new price and nothing
-- else has changed; on failure nothing has.
abbrev pub Refreshed :
    {F : Type 0} → Floats F → Text → F → ℕ → Outcome (Unit {0}) → Tables F → Tables F → Type 0
Refreshed fl symbol value direction (ok _) before now =
    (q : Quote _) × (p : _) × (before.quotes symbol ≡ some q)
    × NewPrice fl value direction q.current_price p
    × (now ≡ write_quote symbol (record q { current_price = p }) before)
Refreshed fl symbol value direction fail before now = now ≡ before
Refreshed fl symbol value direction crash before now = now ≡ before
Refreshed fl symbol value direction out_of_fuel before now = ⊥

new_quote-NewPrice :
    {F : Type 0} (fl : Floats F) (value : F) (direction : ℕ) (q : Quote F)
    → NewPrice fl value direction q.current_price (new_quote fl value direction q).current_price
unfolding new_quote
new_quote-NewPrice fl value direction q = elim (Bool-cases (fl.le fl.zero value)) [
  | inl e ↦ rw e (given e)
  | inr e ↦ elim (Bool-cases (direction == 0 || fl.le q.current_price fl.zero)) [
    | inl d ↦ rw (e, d) (raised e (either d))
    | inr d ↦ rw (e, d) (lowered e (ground arith) (ground arith))
  ]
]
  where
    either :
        (direction == 0 || fl.le q.current_price fl.zero) ≡ true
        → (direction ≡ 0) ⊎ (fl.le q.current_price fl.zero ≡ true)
    either d = ground arith

module _ {F : Type 0} (fl : Floats F) {db : BerkeleyDb F} (l : Laws db) where
  write_stock-Post :
      (base s : Tables F) (n : ℕ) (t : db.Txn) (c : db.Cursor) (k : Text) (q : Quote F)
      (w : World db)
      → At l base s n t w
      → On l base s n t Table.quotes c
      → l.position c ≡ some k
      → Post
          (λ _ w'. l.committed w'.env ≡ write_quote k q s)
          (Untouched l base)
          (write_stock fl db t c q w)
  unfolding write_stock
  write_stock-Post base s n t c k q w a o at_k =
      let w1 = after db (put_quote c q) w in
      let u1 = kept l base (put_quote c q) w refl a.shown in
      let w2 = after db (close c) w1 in
      let u2 = kept l base (close c) w1 refl u1 in
      Post-if (is_done (db.call (put_quote c q) w.env).0) w1 _ _
        (λ e.
          let a1 : At l base (write_quote k q s) n t w1 = record {
            shown = u1;
            read = ground (arith, l.quote_written c k q w.env, o, a);
            small = omega (arith, l.records_grow (put_quote c q) w.env, a.small);
          } in
          Post-if (is_done (db.call (close c) w1.env).0) w2 _ _
            (λ _.
              commit_xact-Post l base (write_quote k q s) n t w2
                (At-after l base (write_quote k q s) n t (close c) w1 refl a1))
            (λ _. abandon-Post l base t (after db (close c) w2) (kept l base (close c) w2 refl u2)))
        (λ _. abandon-Post l base t w2 u2)

  update_stock-Post :
      (base : Tables F) (k : Text) (value : F) (direction : ℕ) (w : World db)
      → Untouched l base w
      → Post
          (λ _ w'.
            (q : Quote F) × (base.quotes k ≡ some q)
            × (l.committed w'.env ≡ write_quote k (new_quote fl value direction q) base))
          (Untouched l base)
          (update_stock fl db k value direction w)
  unfolding update_stock
  update_stock-Post base k value direction w u =
      let w1 = after db txn_begin w in
      let n = l.records w1.env in
      Post-bind
        (Post-or_fail (txn_of (db.call txn_begin w.env).0) w1 {R = λ t w'. At l base base n t w'}
          (λ t e. record {
            shown = kept l base txn_begin w refl u;
            read = l.seen_begin t w.env e ∙ u;
            small = omega arith;
          })
          (kept l base txn_begin w refl u))
        λ t w1 a1.
          Post-bind
            (Post-else
              (Post-caught
                {R = λ o w'.
                  At l base base n t w'
                  × ((x : Quote F × db.Cursor)
                      → o ≡ some x
                      → (base.quotes k ≡ some x.0)
                        × On l base base n t Table.quotes x.1
                        × (l.position x.1 ≡ some k))}
                (get_stock-Post l base base n t k true w1 a1)
                (λ x w (a, r, o, z). (
                  a,
                  λ y e.
                      let same : x ≡ y = cc in
                      subst
                        (λ (y : Quote F × db.Cursor).
                          (base.quotes k ≡ some y.0)
                          × On l base base n t Table.quotes y.1
                          × (l.position y.1 ≡ some k))
                        same (r, o, z),
                ))
                (λ w a. (a, λ y e. cc)))
              λ w a. a.shown)
            λ o w2 (a2, found).
              Post-maybe o w2 _ _ (λ _. abandon-Post l base t w2 a2.shown)
                λ x e.
                  let (r, o, z) = found x e in
                  Post-mono
                    (write_stock-Post base base n t x.1 k (new_quote fl value direction x.0) w2 a2 o
                      z)
                    λ _ w h. (x.0, r, h)

  Refreshed-Post :
      (base : Tables F) (k : Text) (value : F) (direction : ℕ) {x : Outcome (Unit {0}) × World db}
      → Post
          (λ _ w'.
            (q : Quote F) × (base.quotes k ≡ some q)
            × (l.committed w'.env ≡ write_quote k (new_quote fl value direction q) base))
          (Untouched l base)
          x
      → Refreshed fl k value direction x.0 base (l.committed x.1.env)
  unfolding new_quote
  Refreshed-Post base k value direction (at_ok (q, r, e)) =
      (q, _, r, new_quote-NewPrice fl value direction q, e)
  Refreshed-Post base k value direction (at_fail h) = h
  Refreshed-Post base k value direction (at_crash h) = h

  -- A refresh that succeeds leaves the committed tables as they were but for the quote of the symbol,
  -- which was there and has a new price by `NewPrice`; one that fails or crashes changes nothing.
  pub benchmark_refresh_quotes2-Refreshed :
      (k : Text) (value : F) (direction : ℕ) (w : World db)
      → Refreshed fl k value direction
          (benchmark_refresh_quotes2 fl db k value direction w).0
          (l.committed w.env)
          (l.committed (benchmark_refresh_quotes2 fl db k value direction w).1.env)
  unfolding benchmark_refresh_quotes2
  benchmark_refresh_quotes2-Refreshed k value direction w =
      Refreshed-Post (l.committed w.env) k value direction (
        Post-if (is_empty k) w _ _ (λ _. at_fail refl)
          (λ _. update_stock-Post (l.committed w.env) k value direction w refl))
