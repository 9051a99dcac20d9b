-- ===== src/Xact/Atomic.antt =====
-- All or nothing: src/purchase_txn.c, src/sell_txn.c and src/view_stock_txn.c.
use Prim.Native.String.{String}
use chronos_prototype.Base.{
  ℕ, ◌+◌, ◌≤◌, ◌<◌, ◌≡◌, refl, ◌∙◌, sym, subst, false, none, some, List, [], ◌∷◌, arith, length,
}
use chronos_prototype.Tables.{Tables}
use chronos_prototype.Db.{
  BerkeleyDb, Outcome, ok, fail, crash, out_of_fuel, World, M, is_done, txn_of, txn_begin, set_name,
  commit, abort, Request,
}
use chronos_prototype.Db.Laws.{Laws, is_commit}
use chronos_prototype.Db.Run.{
  Post, at_ok, at_fail, at_crash, Post-bind, Post-mono, Post-caught, Post-or_fail, Post-maybe,
  Post-if,
}
use chronos_prototype.Orders.Lookups.{At, after, At-after}
use chronos_prototype.Xact.{abandon, start_xact, commit_xact, for_each, run_xact}

-- The tables after a list of items, by the specification `R` of one.
pub data Steps {F A : Type 0} (R : Tables F → A → Tables F → Type 0)
    : Tables F → List A → Tables F → Type 0 where
  none_left : {s : Tables F} → Steps R s [] s
  one_more :
      {s s' s'' : Tables F} {x : A} {xs : List A}
      → R s x s'
      → Steps R s' xs s''
      → Steps R s (x ∷ xs) s''

-- What a transaction over `xs` may end with: on success the tables have gone through every item,
-- on failure they are as before, and the scans end.
abbrev pub AllOrNothing :
    {F A : Type 0}
    → (Tables F → A → Tables F → Type 0)
    → List A
    → Outcome (Unit {0})
    → Tables F
    → Tables F
    → Type 0
AllOrNothing R xs (ok _) before now = Steps R before xs now
AllOrNothing R xs fail before now = now ≡ before
AllOrNothing R xs crash before now = now ≡ before
AllOrNothing R xs out_of_fuel before now = ⊥

module _ {F : Type 0} {db : BerkeleyDb F} (l : Laws db) (base : Tables F) where
  abbrev pub Untouched : World db → Type 0
  Untouched w = l.committed w.env ≡ base

  pub kept :
      (r : Request F db.Txn db.Cursor) (w : World db)
      → is_commit r ≡ false
      → Untouched w
      → Untouched (after db r w)
  kept r w h u = l.committed_kept r w.env h ∙ u

  pub abandon-Post :
      (t : db.Txn) (w : World db) {R : Unit {0} → World db → Type 0}
      → Untouched w
      → Post R Untouched (abandon db t w)
  unfolding abandon
  abandon-Post t w u = at_fail (l.committed_kept (abort t) w.env refl ∙ u)

  pub start_xact-Post :
      (name : String) (n : ℕ) (w : World db)
      → Untouched w
      → l.records w.env ≤ n
      → Post (λ t w'. At l base base n t w') Untouched (start_xact db name w)
  unfolding start_xact
  start_xact-Post name n w u h =
      let w1 = after db txn_begin w in
      let u1 = kept txn_begin w refl u in
      Post-bind
        (Post-or_fail (txn_of (db.call txn_begin w.env).0) w1 {R = λ t w'. At l base base n t w'}
          (λ t e. record {
            shown = u1;
            read = l.seen_begin t w.env e ∙ u;
            small = omega (arith, l.records_grow txn_begin w.env);
          })
          u1)
        λ t w1 a1.
          let a2 = At-after l base base n t (set_name t name) w1 refl a1 in
          let w2 = after db (set_name t name) w1 in
          Post-if (is_done (db.call (set_name t name) w1.env).0) w2 _ _ (λ _. at_ok a2)
            (λ _. at_fail (kept (abort t) w2 refl a2.shown))

  pub commit_xact-Post :
      (s : Tables F) (n : ℕ) (t : db.Txn) (w : World db)
      → At l base s n t w
      → Post (λ _ w'. l.committed w'.env ≡ s) Untouched (commit_xact db t w)
  unfolding commit_xact
  commit_xact-Post s n t w a =
      let e = l.committed_commit t w.env in
      Post-if (is_done (db.call (commit t) w.env).0) _ _ _ (λ d. at_ok (ground (arith, e, a)))
        (λ d. abandon-Post t _ (ground (arith, e, a)))

  module _ {A : Type 0} (R : Tables F → A → Tables F → Type 0) (t : db.Txn)
      (item : A → M db (Unit {0})) (limit : ℕ)
      (each : (s : Tables F) (n : ℕ) (x : A) (w : World db)
        → n < limit
        → At l base s n t w
        → Post
            (λ _ w'. (s' : Tables F) × R s x s' × At l base s' (n + 1) t w')
            Untouched
            (item x w)) where
    for_each-Post :
        (xs : List A) (s : Tables F) (n : ℕ) (w : World db)
        → n + length xs ≤ limit
        → At l base s n t w
        → Post
            (λ _ w'. (s' : Tables F) × Steps R s xs s' × At l base s' limit t w')
            Untouched
            (for_each db item xs w)
    unfolding for_each
    for_each-Post [] s n w h a =
        at_ok
          (s, none_left, record { shown = a.shown; read = a.read; small = omega (arith, a.small) })
    for_each-Post (x ∷ xs) s n w h a = Post-bind (each s n x w (omega arith) a) λ _ w (s', r, a).
        Post-mono (for_each-Post xs s' (n + 1) w (omega arith) a)
          λ _ w (s'', rs, a). (s'', one_more r rs, a)

  AllOrNothing-Post :
      {A : Type 0} (R : Tables F → A → Tables F → Type 0) (xs : List A)
      {x : Outcome (Unit {0}) × World db}
      → Post (λ _ w'. Steps R base xs (l.committed w'.env)) Untouched x
      → AllOrNothing R xs x.0 base (l.committed x.1.env)
  AllOrNothing-Post R xs (at_ok h) = h
  AllOrNothing-Post R xs (at_fail h) = h
  AllOrNothing-Post R xs (at_crash h) = h

  pub run_xact-AllOrNothing :
      {A : Type 0} (R : Tables F → A → Tables F → Type 0) (name : String)
      (item : db.Txn → A → M db (Unit {0})) (limit : ℕ)
      → ((t : db.Txn) (s : Tables F) (n : ℕ) (x : A) (w : World db)
          → n < limit
          → At l base s n t w
          → Post
              (λ _ w'. (s' : Tables F) × R s x s' × At l base s' (n + 1) t w')
              Untouched
              (item t x w))
      → (xs : List A) (w : World db) → Untouched w
      → l.records w.env + length xs ≤ limit
      → AllOrNothing R xs
          (run_xact db name item xs w).0
          base
          (l.committed (run_xact db name item xs w).1.env)
  unfolding run_xact
  run_xact-AllOrNothing {A} R name item limit each xs w u h = AllOrNothing-Post R xs (
      Post-bind (start_xact-Post name (l.records w.env) w u (omega arith)) λ t w a.
        Post-bind
          (Post-caught
            {R = λ o w'.
              (o ≡ none → Untouched w')
              × ((y : Unit {0}) → o ≡ some y → Steps R base xs (l.committed w'.env))}
            (Post-bind (for_each-Post R t (item t) limit (each t) xs base _ w h a)
              λ _ w (s', rs, a).
                Post-mono (commit_xact-Post s' limit t w a)
                  λ _ w e. subst (Steps R base xs) (sym e) rs)
            (λ y w q. (λ e. cc, λ _ _. q)) (λ w u. (λ _. u, λ y e. cc)))
          λ o w (lost, made).
            Post-maybe o w _ _ (λ e. abandon-Post t w (lost e)) (λ y e. at_ok (made y e)))
