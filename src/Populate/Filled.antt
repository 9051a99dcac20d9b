-- ===== src/Populate/Filled.antt =====
-- What `benchmark_load_portfolio` of src/populate_portfolios.c leaves in Portfolios.
use chronos_prototype.Base.{
  ℕ, zero, suc, ◌+◌, ◌≤◌, ◌≡◌, refl, sym, ◌∙◌, ap, subst, Option, none, some, List, arith,
  on_result, Text,
}
use chronos_prototype.Tables.{Tables, Portfolio, write_portfolio}
use chronos_prototype.Db.{
  BerkeleyDb, M, World, is_done, txn_of, txn_begin, commit, abort, insert_portfolio,
}
use chronos_prototype.Db.Laws.{Laws}
use chronos_prototype.Db.Run.{
  Post, at_ok, at_fail, at_crash, Post-bind, Post-mono, Post-else, Post-or_fail, Post-if,
  Post-guard_cases,
}
use chronos_prototype.Populate.{
  random_portfolio, store_portfolio, load_from, load_portfolio_database,
}

module _ {F : Type 0} where
  -- The portfolios from number `i` on, `n` of them, go into free keys one after the other.
  pub data Filled (rand : ℕ → ℕ) (stocks : List (Option Text))
      : ℕ → ℕ → Tables F → Tables F → Type 0 where
    no_more : {i : ℕ} {s : Tables F} → Filled rand stocks i 0 s s
    one_more :
        {i n : ℕ} {s s' : Tables F} {p : Portfolio}
        → random_portfolio rand stocks i ≡ some p
        → s.portfolios p.portfolio_id ≡ none
        → Filled rand stocks (i + 1) n (write_portfolio p.portfolio_id p s) s'
        → Filled rand stocks i (suc n) s s'

Post-result :
    {F : Type 0} {db : BerkeleyDb F} {A B : Type 0} {R : B → World db → Type 0}
    {E : World db → Type 0} (o : Option A) (w : World db) (m : M db B) (k : A → M db B)
    → (o ≡ none → Post R E (m w))
    → ((a : A) → o ≡ some a → Post R E (k a w))
    → Post R E (on_result o m k w)
Post-result none w m k h g = h refl
Post-result (some a) w m k h g = g a refl

module _ {F : Type 0} {db : BerkeleyDb F} (l : Laws db) where
  abbrev Committed : Tables F → World db → Type 0
  Committed s w = l.committed w.env ≡ s

  -- A portfolio is stored in a free key, or nothing is committed.
  store_portfolio-Post :
      (p : Portfolio) (s : Tables F) (w : World db)
      → Committed s w
      → Post
          (λ u w'.
            Committed (write_portfolio p.portfolio_id p s) w'
            × (s.portfolios p.portfolio_id ≡ none))
          (Committed s)
          (store_portfolio db p w)
  unfolding store_portfolio
  store_portfolio-Post p s w old =
      let w1 : World db = record w { env = (db.call txn_begin w.env).1 } in
      let old1 : Committed s w1 = l.committed_kept txn_begin w.env refl ∙ old in
      Post-bind
        (Post-or_fail (txn_of (db.call txn_begin w.env).0) w1
          {R = λ t w'. Committed s w' × (l.seen t w'.env ≡ s)}
          (λ t e. (old1, l.seen_begin t w.env e ∙ old)) old1)
        λ t w (old, seen).
          let k = p.portfolio_id in
          let w2 : World db = record w { env = (db.call (insert_portfolio t k p) w.env).1 } in
          let old2 : Committed s w2 = l.committed_kept (insert_portfolio t k p) w.env refl ∙ old in
          Post-if (is_done (db.call (insert_portfolio t k p) w.env).0) w2 _ _
            (λ done.
              let f = l.portfolio_inserted t k p w.env done in
              let c = l.committed_commit t w2.env in
              Post-guard_cases (is_done (db.call (commit t) w2.env).0)
                (record w2 { env = (db.call (commit t) w2.env).1 })
                (λ d. (
                  ground (arith, c, d) ∙ f.1 ∙ ap (write_portfolio k p) seen,
                  ap (λ (u : Tables F). u.portfolios k) (sym seen) ∙ f.0,
                ))
                (λ d. ground (arith, c, d) ∙ old2))
            (λ lost. at_fail (l.committed_kept (abort t) w2.env refl ∙ old2))

  -- The rows so far: all of them after a success, the first ones after any other end.
  load_from-Post :
      (rand : ℕ → ℕ) (stocks : List (Option Text)) (i left : ℕ) (s : Tables F) (w : World db)
      → Committed s w
      → Post
          (λ u w'. Filled rand stocks i left s (l.committed w'.env))
          (λ w'. (n : ℕ) × (n ≤ left) × Filled rand stocks i n s (l.committed w'.env))
          (load_from db rand stocks i left w)
  unfolding load_from
  load_from-Post rand stocks i zero s w old =
      at_ok (subst (Filled rand stocks i 0 s) (sym old) no_more)
  load_from-Post rand stocks i (suc left) s w old =
      let stay : (w' : World db)
          → Committed s w'
          → (n : ℕ) × (n ≤ suc left) × Filled rand stocks i n s (l.committed w'.env) =
        λ w' h. (0, omega arith, subst (Filled rand stocks i 0 s) (sym h) no_more) in
      Post-result (random_portfolio rand stocks i) w _ _ (λ _. at_crash (stay w old))
        λ p read. Post-bind (Post-else (store_portfolio-Post p s w old) stay) λ u w1 (now, free).
          Post-mono
            (Post-else
              (load_from-Post rand stocks (i + 1) left (write_portfolio p.portfolio_id p s) w1 now)
              (λ w2 (n, h, f). (suc n, omega arith, one_more read free f)))
            (λ u w2 f. one_more read free f)

  -- A run that succeeds puts a hundred portfolios into Portfolios, each into a free key; one that does
  -- not leaves the first of them there, each whole, and nothing else. The run ends.
  pub load_portfolio_database-Filled :
      (rand : ℕ → ℕ) (stocks : List (Option Text)) (w : World db)
      → Post
          (λ u w'. Filled rand stocks 0 100 (l.committed w.env) (l.committed w'.env))
          (λ w'.
            (n : ℕ) × (n ≤ 100) × Filled rand stocks 0 n (l.committed w.env) (l.committed w'.env))
          (load_portfolio_database db rand stocks w)
  unfolding load_portfolio_database
  load_portfolio_database-Filled rand stocks w =
      load_from-Post rand stocks 0 100 (l.committed w.env) w refl
