-- ===== src/Views/Output.antt =====
-- What the view of portfolios prints, and that it changes nothing: `show_portfolios` and
-- `show_one_portfolio` of src/benchmark_common.c.
use chronos_prototype.Base.{
  ℕ, zero, suc, ◌≤◌, ◌<◌, ◌≡◌, refl, ◌∙◌, sym, ◌≢◌, ap, text_eq_refl, Option, none, Bool, true,
  false, some, List, [], ◌∷◌, arith, Text, text_eq, eq_of_text_eq, if◌then◌else◌,
}
use chronos_prototype.Tables.{Tables, Portfolio}
use chronos_prototype.Db.{
  Table, BerkeleyDb, or_fail, pure, ◌>>=◌, ◌>>◌, reply, Request, World, is_done, cursor_of, key_of,
  portfolio_of, is_no_more, open_cursor, close, get_key, next_key, pget_next,
}
use chronos_prototype.Db.Laws.{Laws, is_read}
use chronos_prototype.Db.Run.{
  Post, at_ok, at_fail, Post-bind, Post-mono, Post-else, Post-caught, Post-or_fail, Post-maybe,
  Post-if,
}
use chronos_prototype.Orders.{is_empty}
use chronos_prototype.Orders.Lookups.{At, On, after, At-after, opened-On}
use chronos_prototype.Views.Displays.{
  Entries, no_entry, own_entry, other_entry, NoScan, OfAccount, user_alone, user_lost, user_with,
  Accounts, no_account, an_account, Displayed, everyone, somebody, nobody,
}
use chronos_prototype.Views.{
  Shown, person, holding, or_nothing, show_entries, show_one_portfolio, show_account, show_all,
  show_portfolios,
}

text_ne : (a b : Text) → text_eq a b ≡ false → a ≢ b
text_ne a b h e = absurd (ground (arith, h, text_eq_refl a, ap (λ (c : Text). text_eq a c) e))

-- An entry in front.
entry-Entries :
    {F : Type 0} {db : BerkeleyDb F} {s : Tables F} (b : Bool) (account k : Text) (p : Portfolio)
    (xs : List Shown)
    → text_eq account p.account_id ≡ b
    → s.portfolios k ≡ some p
    → Entries db s account xs
    → Entries db s account (if b then holding k p ∷ xs else xs)
entry-Entries true account k p xs e there rest =
    own_entry (sym (eq_of_text_eq account p.account_id e)) there rest
entry-Entries false account k p xs e there rest =
    other_entry (λ same. text_ne account p.account_id e (sym same)) there rest

or_fail-Post :
    {F : Type 0} {db : BerkeleyDb F} {A : Type 0} {E : World db → Type 0} (o : Option A)
    (w : World db) {R : A → World db → Type 0}
    → ((a : A) → o ≡ some a → R a w)
    → (o ≡ none → E w)
    → Post R E (or_fail o w)
or_fail-Post none w h g = at_fail (g refl)
or_fail-Post (some a) w h g = at_ok (h a refl)

-- An invariant `Inv` of the calls that write nothing, inside a transaction.
module _ {F : Type 0} {db : BerkeleyDb F} (l : Laws db) (base s : Tables F) (n : ℕ) (t : db.Txn)
    (Inv : World db → Type 0) (at : (w : World db) → Inv w → At l base s n t w)
    (stays : (r : Request F db.Txn db.Cursor) (w : World db)
      → is_read r ≡ true
      → Inv w
      → Inv (after db r w)) where
  show_entries-Post :
      {E : World db → Type 0} (fuel : ℕ) (account : Text) (c : db.Cursor) (w : World db)
      → Inv w
      → On l base s n t Table.portfolios_sec c
      → l.ahead c w.env < fuel
      → Post (λ xs w'. Inv w' × Entries db s account xs) E (show_entries db fuel account c w)
  unfolding show_entries
  show_entries-Post zero account c w a o h = elim h [ ]
  show_entries-Post (suc fuel) account c w a o h =
      let w1 = after db (pget_next c) w in
      let a1 = stays (pget_next c) w refl a in
      Post-maybe (portfolio_of (db.call (pget_next c) w.env).0) w1 _ _
        (λ e. at_ok (stays (close c) w1 refl a1, no_entry c w.env e))
        λ x e.
          let f = l.entry_found c w.env x.0 x.1 x.2 o.on e in
          Post-bind
            (show_entries-Post fuel account x.2 w1 a1 (record { mine = f.1 ∙ o.mine; on = f.2 })
              (omega arith))
            λ xs w2 (a2, shown). at_ok (
              a2,
              entry-Entries (text_eq account x.1.account_id) account x.0 x.1 xs refl
                  (ground (arith, f, o, (at w a).read)) shown,
            )

  show_one_portfolio-Post :
      (fuel : ℕ) (account : Text) (w : World db)
      → Inv w
      → n < fuel
      → Post
          (λ xs w'. Inv w' × Entries db s account xs)
          (λ w'. Inv w' × NoScan db)
          (show_one_portfolio db fuel account t w)
  unfolding show_one_portfolio
  show_one_portfolio-Post fuel account w a h =
      let w1 = after db (open_cursor Table.portfolios_sec t) w in
      let a1 = stays (open_cursor Table.portfolios_sec t) w refl a in
      Post-bind
        (or_fail-Post (cursor_of (db.call (open_cursor Table.portfolios_sec t) w.env).0) w1
          {R = λ c w'. Inv w' × On l base s n t Table.portfolios_sec c × (l.ahead c w'.env < fuel)}
          (λ c e.
            let o = l.cursor_opened Table.portfolios_sec t w.env c e in
            (
              a1,
              opened-On l base s n t Table.portfolios_sec w c e,
              omega (arith, o.2, (at w a).small),
            ))
          (λ e. (a1, (t, w.env, e))))
        λ c w (a, o, h). show_entries-Post fuel account c w a o h

  show_account-Post :
      (fuel : ℕ) (account : Text) (only_users : Bool) (w : World db)
      → Inv w
      → n < fuel
      → Post
          (λ xs w'. Inv w' × OfAccount db s only_users account xs)
          Inv
          (show_account db fuel account only_users t w)
  unfolding show_account
  show_account-Post fuel account only_users w a h =
      Post-if only_users w _ _ (λ e. at_ok (a, user_alone e))
        λ e.
          Post-bind
            (Post-else
              (Post-caught
                {R = λ o w'.
                  Inv w' × OfAccount db s only_users account (person account ∷ or_nothing o)}
                (show_one_portfolio-Post fuel account w a h)
                (λ xs w (a, shown). (a, user_with e shown)) (λ w (a, lost). (a, user_lost e lost)))
              (λ w (a, lost). a))
            λ o w (a, shown). at_ok (a, shown)

module _ {F : Type 0} {db : BerkeleyDb F} (l : Laws db) (base s : Tables F) (n : ℕ)
    (t : db.Txn) where
  -- Inside the transaction, with a cursor that has at most `b` entries before it.
  record Before (c : db.Cursor) (b : ℕ) (w : World db) : Type 0 where
    pub here : At l base s n t w
    pub near : l.ahead c w.env ≤ b

  show_all-Post :
      (rounds fuel : ℕ) (only_users : Bool) (c : db.Cursor) (w : World db)
      → At l base s n t w
      → On l base s n t Table.personal c
      → l.ahead c w.env < rounds
      → n < fuel
      → Post
          (λ xs w'. At l base s n t w' × Accounts db s only_users xs)
          (At l base s n t)
          (show_all db rounds fuel only_users c t w)
  unfolding show_all
  show_all-Post zero fuel only_users c w a o h g = elim h [ ]
  show_all-Post (suc rounds) fuel only_users c w a o h g =
      let w1 = after db (next_key c) w in
      let a1 = At-after l base s n t (next_key c) w refl a in
      Post-maybe (key_of (db.call (next_key c) w.env).0) w1 _ _
        (λ _.
          Post-if (is_no_more (db.call (next_key c) w.env).0) w1 _ _
            (λ e. at_ok (At-after l base s n t (close c) w1 refl a1, no_account c w.env e))
            (λ _. at_fail a1))
        λ x e.
          let f = l.account_next c w.env x.0 x.1 o.on e in
          let known : s.personal x.0 ≡ true = ground (arith, f, o, a.read) in
          Post-bind
            (Post-else
              (show_account-Post l base s n t (Before x.1 (l.ahead x.1 w1.env)) (λ w b. b.here)
                (λ r w only b. record {
                  here = At-after l base s n t r w only b.here;
                  near = omega (arith, l.ahead_kept r x.1 w.env only, b.near);
                })
                fuel x.0 only_users w1 (record { here = a1; near = omega arith }) g)
              (λ w b. b.here))
            λ xs w2 (b, shown).
              Post-bind
                (show_all-Post rounds fuel only_users x.1 w2 b.here
                  (record { mine = f.1 ∙ o.mine; on = f.2 }) (omega (arith, b.near, f.3)) g)
                λ ys w3 (a3, more). at_ok (a3, an_account known shown more)

  from_cursor :
      (fuel : ℕ) (account : Text) (only_users : Bool) (c : db.Cursor) (w : World db)
      → At l base s n t w
      → On l base s n t Table.personal c
      → l.ahead c w.env ≤ n
      → n < fuel
      → Post
          (λ xs w'. At l base s n t w' × Displayed db s only_users account xs)
          (At l base s n t)
          ((if is_empty account then show_all db fuel fuel only_users c t else (do
            found ← reply (get_key c account)
            shown ← if is_done found then show_account db fuel account only_users t else pure []
            reply (close c)
            pure shown))
            w)
  from_cursor fuel [] only_users c w a o near h =
      Post-mono (show_all-Post fuel fuel only_users c w a o (omega arith) h)
        (λ xs w (a, shown). (a, everyone shown))
  from_cursor fuel (k ∷ ks) only_users c w a o near h =
      let account : Text = k ∷ ks in
      let w1 = after db (get_key c account) w in
      let a1 = At-after l base s n t (get_key c account) w refl a in
      Post-bind
        (Post-if (is_done (db.call (get_key c account) w.env).0) w1
          (show_account db fuel account only_users t) (pure [])
          {R = λ xs w'. At l base s n t w' × Displayed db s only_users account xs}
          (λ found.
            let known : s.personal account ≡ true =
              ground (arith, l.account_found c account w.env, o, a.read) in
            Post-mono
              (show_account-Post l base s n t (At l base s n t) (λ w a. a)
                (λ r w only a. At-after l base s n t r w only a) fuel account only_users w1 a1 h)
              λ xs w (a, shown). (a, somebody known shown))
          (λ e. at_ok (a1, nobody c w.env e)))
        λ xs w (a, shown). at_ok (At-after l base s n t (close c) w refl a, shown)

  pub show_portfolios-Displayed :
      (fuel : ℕ) (account : Text) (only_users : Bool) (w : World db)
      → At l base s n t w
      → n < fuel
      → Post
          (λ xs w'. At l base s n t w' × Displayed db s only_users account xs)
          (At l base s n t)
          (show_portfolios db fuel account only_users t w)
  unfolding show_portfolios
  show_portfolios-Displayed fuel account only_users w a h =
      let w1 = after db (open_cursor Table.personal t) w in
      let a1 = At-after l base s n t (open_cursor Table.personal t) w refl a in
      Post-bind
        (Post-or_fail (cursor_of (db.call (open_cursor Table.personal t) w.env).0) w1
          {R = λ c w'.
            At l base s n t w' × On l base s n t Table.personal c × (l.ahead c w'.env ≤ n)}
          (λ c e.
            let o = l.cursor_opened Table.personal t w.env c e in
            (a1, opened-On l base s n t Table.personal w c e, omega (arith, o.2, a.small)))
          a1)
        λ c w (a, o, near). from_cursor fuel account only_users c w a o near h
