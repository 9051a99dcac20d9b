-- ===== src/Populate/Ranges.antt =====
-- The portfolios that `benchmark_load_portfolio` of src/populate_portfolios.c makes.
use chronos_prototype.Base.{
  ℕ, ◌+◌, ◌*◌, ◌%◌, ◌≤◌, ◌<◌, ◌==◌, ◌≡◌, refl, sym, ◌∙◌, ap, subst, Option, none, some, List,
  length, get_elem?, arith, on_result, Bool-cases, Option-cases, some-inj, some-ne-none,
  lt_of_get_elem?, inl, inr, Text, text_eq, text_eq_refl, eq_of_text_eq,
}
use chronos_prototype.Base.Decimal.{decimal}
use chronos_prototype.Base.Int.{pos}
use chronos_prototype.Tables.{Tables, Portfolio, write_portfolio}
use chronos_prototype.Db.{BerkeleyDb, World, Outcome, ok}
use chronos_prototype.Db.Laws.{Laws}
use chronos_prototype.Db.Run.{Post, at_ok, at_fail, at_crash}
use chronos_prototype.Populate.{
  if_short, pick_symbol, starting_portfolio, random_portfolio, load_portfolio_database,
}
use chronos_prototype.Populate.Filled.{Filled, no_more, one_more, load_portfolio_database-Filled}

-- The portfolio of number `i`: of an account from 1 to 50, with 1 to 100 shares of a listed stock, and
-- nothing ordered.
pub record IsStarting (stocks : List (Option Text)) (i : ℕ) (p : Portfolio) : Type 0 where
  pub numbered : p.portfolio_id ≡ decimal i
  pub account : (a : ℕ) × (p.account_id ≡ decimal a) × (1 ≤ a) × (a ≤ 50)
  pub holding : (h : ℕ) × (p.hold_stocks ≡ pos h) × (1 ≤ h) × (h ≤ 100)
  pub listed : (n : ℕ) × (n < length stocks) × (get_elem? stocks n ≡ some (some p.symbol))
  pub not_for_sale : (p.to_sell ≡ pos 0) × (p.number_sell ≡ pos 0)
  pub not_wanted : (p.to_buy ≡ pos 0) × (p.number_buy ≡ pos 0)

if_short-eq : (s t : Text) → if_short s ≡ some t → s ≡ t
if_short-eq s t h = ground (arith, h)

pick_symbol-listed :
    (stocks : List (Option Text)) (r : ℕ) (t : Text)
    → pick_symbol stocks r ≡ some t
    → get_elem? stocks (r % length stocks) ≡ some (some t)
pick_symbol-listed stocks r t h = elim (Bool-cases (length stocks == 0)) [
  | inl e ↦ absurd (ground (arith, e, h))
  | inr e ↦ elim (Option-cases (get_elem? stocks (r % length stocks))) [
    | inl n ↦ absurd (ground (arith, e, n, h))
    | inr (none, g) ↦ absurd (ground (arith, e, g, h))
    | inr (some s, g) ↦
        let same : s ≡ t = if_short-eq s t (ground (arith, e, g, h)) in
        g ∙ ap (λ u. some (some u)) same
  ]
]

random_portfolio-IsStarting :
    (rand : ℕ → ℕ) (stocks : List (Option Text)) (i : ℕ) (p : Portfolio)
    → random_portfolio rand stocks i ≡ some p
    → IsStarting stocks i p
random_portfolio-IsStarting rand stocks i p h =
    elim (Option-cases (pick_symbol stocks (rand (3 * i + 1)))) [
      | inl n ↦ absurd (ground (arith, n, h))
      | inr (s, g) ↦
          let same : starting_portfolio i (rand (3 * i)) (rand (3 * i + 2)) s ≡ p = some-inj (
            sym (
              ap
                (λ o.
                  on_result o none
                    (λ s. some (starting_portfolio i (rand (3 * i)) (rand (3 * i + 2)) s)))
                g)
            ∙ h) in
          subst (IsStarting stocks i) same (record {
            numbered = refl;
            account = (rand (3 * i) % 50 + 1, refl, omega arith, omega arith);
            holding = (rand (3 * i + 2) % 100 + 1, refl, omega arith, omega arith);
            listed =
                let at = pick_symbol-listed stocks (rand (3 * i + 1)) s g in
                (
                  rand (3 * i + 1) % length stocks,
                  lt_of_get_elem? stocks (rand (3 * i + 1) % length stocks) (some s) at,
                  at,
                );
            not_for_sale = (refl, refl);
            not_wanted = (refl, refl);
          })
    ]

module _ {F : Type 0} where
  write-keeps :
      (k : Text) (p : Portfolio) (s : Tables F) (j : Text) (q : Portfolio)
      → s.portfolios k ≡ none
      → s.portfolios j ≡ some q
      → (write_portfolio k p s).portfolios j ≡ some q
  write-keeps k p s j q free h = elim (Bool-cases (text_eq j k)) [
    | inl e ↦ absurd (some-ne-none q (sym h ∙ ap s.portfolios (eq_of_text_eq j k e) ∙ free))
    | inr e ↦ rw e h
  ]

  write_self :
      (k : Text) (p : Portfolio) (s : Tables F) → (write_portfolio k p s).portfolios k ≡ some p
  write_self k p s = rw (text_eq_refl k) refl

  Filled-keeps :
      (rand : ℕ → ℕ) (stocks : List (Option Text)) {i n : ℕ} {s s' : Tables F} (j : Text)
      (q : Portfolio)
      → Filled rand stocks i n s s'
      → s.portfolios j ≡ some q
      → s'.portfolios j ≡ some q
  Filled-keeps rand stocks j q no_more h = h
  Filled-keeps rand stocks j q (one_more {s = s} {p = p} read free f) h =
      Filled-keeps rand stocks j q f (write-keeps p.portfolio_id p s j q free h)

  Filled-IsStarting :
      (rand : ℕ → ℕ) (stocks : List (Option Text)) {i n : ℕ} {s s' : Tables F} (j : ℕ)
      → Filled rand stocks i n s s'
      → i ≤ j
      → j < i + n
      → (p : Portfolio) × (s'.portfolios (decimal j) ≡ some p) × IsStarting stocks j p
  Filled-IsStarting rand stocks j no_more h g = absurd (omega arith)
  Filled-IsStarting rand stocks j (one_more {i = i} {s = s} {s' = s'} {p = p} read free f) h g =
      elim (Bool-cases (i == j)) [
        | inl e ↦
            let same : i ≡ j = ground (arith, e) in
            let starts = random_portfolio-IsStarting rand stocks i p read in
            (
              p,
              subst (λ k. s'.portfolios k ≡ some p) (starts.numbered ∙ ap decimal same)
                  (Filled-keeps rand stocks p.portfolio_id p f (write_self p.portfolio_id p s)),
              subst (λ k. IsStarting stocks k p) same starts,
            )
        | inr e ↦ Filled-IsStarting rand stocks j f (ground (arith, e, h)) (omega (arith, g))
      ]

ok-inj : {A : Type 0} {a b : A} → ok a ≡ ok b → a ≡ b
ok-inj h = cc

module _ {F : Type 0} {db : BerkeleyDb F} where
  Post-ok :
      {A : Type 0} {Q : A → World db → Type 0} {E : World db → Type 0} (x : Outcome A × World db)
      (a : A)
      → Post Q E x
      → x.0 ≡ ok a
      → Q a x.1
  Post-ok {Q = Q} x a (at_ok {w = w} q) e = subst (λ b. Q b w) (ok-inj e) q
  Post-ok x a (at_fail q) e = absurd (ground arith)
  Post-ok x a (at_crash q) e = absurd (ground arith)

module _ {F : Type 0} {db : BerkeleyDb F} (l : Laws db) where
  -- A run that succeeds has put the portfolios 0 to 99 there: each of an account from 1 to 50, with 1
  -- to 100 shares of a listed stock, nothing for sale and nothing wanted. The portfolios that were
  -- there are there still.
  pub load_portfolio_database-IsStarting :
      (rand : ℕ → ℕ) (stocks : List (Option Text)) (w : World db)
      → (load_portfolio_database db rand stocks w).0 ≡ ok tt
      → let s' = l.committed (load_portfolio_database db rand stocks w).1.env in
        ((j : ℕ)
          → j < 100
          → (p : Portfolio) × (s'.portfolios (decimal j) ≡ some p) × IsStarting stocks j p)
        × ((k : Text) (q : Portfolio)
            → (l.committed w.env).portfolios k ≡ some q
            → s'.portfolios k ≡ some q)
  load_portfolio_database-IsStarting rand stocks w h =
      let f =
        Post-ok (load_portfolio_database db rand stocks w) tt
          (load_portfolio_database-Filled l rand stocks w) h in
      (
        λ j g. Filled-IsStarting rand stocks j f (omega arith) (omega (arith, g)),
        λ k q g. Filled-keeps rand stocks k q f g,
      )
