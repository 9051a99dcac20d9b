-- ===== src/Db/Example.antt =====
-- A small database with one transaction at a time, for the tests: a call fails where its record is
-- missing, and a price is a natural number. It satisfies what Db/Laws.antt asks of Berkeley DB.
use chronos_prototype.Base.{
  ℕ, ◌+◌, ◌≤◌, ◌<◌, ◌≡◌, refl, ap, sym, subst, Bool, true, false, Bool-cases, inl, inr, Option,
  none, some, List, [], ◌∷◌, length, arith, if◌then◌else◌, Text,
}
use chronos_prototype.Tables.{Quote, Portfolio, Tables, write_portfolio, write_quote}
use chronos_prototype.Db.{
  Table, personal, stocks, quotes, portfolios, portfolios_sec, Request, txn_begin, set_name, commit,
  abort, open_cursor, close, get_key, next_key, no_more, found_key, key_of, get_quote,
  get_portfolio, pget_next, put_quote, put_portfolio, insert_portfolio, Reply, failed, done, began,
  opened, found_quote, found_portfolio, BerkeleyDb, is_done, cursor_of, quote_of, portfolio_of,
}
use chronos_prototype.Db.Reliable.{Reliable}
use chronos_prototype.Db.Laws.{Laws, is_commit, is_read, is_insert}

-- The committed tables, those of the transaction, and the keys of the secondary index.
pub record Store : Type 0 where
  pub committed : Tables ℕ
  pub working : Tables ℕ
  pub keys : List Text

pub record Cursor : Type 0 where
  pub table : Table
  pub position : Option Text
  pub rest : List Text

abbrev Req : Type 0
Req = Request ℕ (Unit {0}) Cursor

abbrev Rep : Type 0
Rep = Reply ℕ (Unit {0}) Cursor

abbrev tell : Bool → Rep
tell true = done
tell false = failed

abbrev tell_quote : Option (Quote ℕ) → Cursor → Rep
tell_quote (some q) c = found_quote q c
tell_quote none c = failed

abbrev tell_portfolio : Text → Option Portfolio → Cursor → Rep
tell_portfolio k (some p) c = found_portfolio k p c
tell_portfolio k none c = failed

abbrev has_key : Tables ℕ → Table → Text → Rep
has_key s personal k = tell (s.personal k)
has_key s stocks k = tell (s.stocks k)
has_key s tb k = failed

abbrev quote_at : Tables ℕ → Cursor → Text → Rep
quote_at s c k = tell_quote (s.quotes k) (record c { table = quotes; position = some k })

abbrev portfolio_at : Tables ℕ → Cursor → Text → Rep
portfolio_at s c k =
    tell_portfolio k (s.portfolios k) (record c { table = portfolios; position = some k })

abbrev next_of : Tables ℕ → List Text → Rep
next_of s [] = failed
next_of s (k ∷ ks) =
    tell_portfolio k (s.portfolios k)
      (record { table = portfolios_sec; position = some k; rest = ks })

-- The keys that a cursor on Personal passes are those of the list that are accounts.
abbrev next_account : Tables ℕ → List Text → Rep
next_account s [] = no_more
next_account s (k ∷ ks) =
    if s.personal k
    then found_key k (record { table = personal; position = some k; rest = ks })
    else next_account s ks

abbrev put_quote_at : Option Text → Quote ℕ → Store → Rep × Store
put_quote_at none q e = (failed, e)
put_quote_at (some k) q e = (done, record e { working = write_quote k q e.working })

abbrev put_portfolio_at : Option Text → Portfolio → Store → Rep × Store
put_portfolio_at none p e = (failed, e)
put_portfolio_at (some k) p e = (done, record e { working = write_portfolio k p e.working })

abbrev insert_at : Option Portfolio → Text → Portfolio → Store → Rep × Store
insert_at (some old) k p e = (failed, e)
insert_at none k p e =
    (done, record e { working = write_portfolio k p e.working; keys = k ∷ e.keys })

abbrev answer : Req → Store → Rep × Store
answer txn_begin e = (began tt, record e { working = e.committed })
answer (set_name t n) e = (done, e)
answer (commit t) e = (done, record e { committed = e.working })
answer (abort t) e = (done, e)
answer (open_cursor tb t) e = (opened (record { table = tb; position = none; rest = e.keys }), e)
answer (close c) e = (done, e)
answer (get_key c k) e = (has_key e.working c.table k, e)
answer (next_key c) e = (next_account e.working c.rest, e)
answer (get_quote c k b) e = (quote_at e.working c k, e)
answer (get_portfolio c k) e = (portfolio_at e.working c k, e)
answer (pget_next c) e = (next_of e.working c.rest, e)
answer (put_quote c q) e = put_quote_at c.position q e
answer (put_portfolio c p) e = put_portfolio_at c.position p e
answer (insert_portfolio t k p) e = insert_at (e.working.portfolios k) k p e

abbrev pub example_db : BerkeleyDb ℕ
example_db = record { Env = Store; Txn = Unit {0}; Cursor = Cursor; call = answer }

put_quote_at-kept :
    (o : Option Text) (q : Quote ℕ) (e : Store)
    → ((put_quote_at o q e).1.committed ≡ e.committed) × ((put_quote_at o q e).1.keys ≡ e.keys)
put_quote_at-kept none q e = (refl, refl)
put_quote_at-kept (some k) q e = (refl, refl)

put_portfolio_at-kept :
    (o : Option Text) (p : Portfolio) (e : Store)
    → ((put_portfolio_at o p e).1.committed ≡ e.committed)
      × ((put_portfolio_at o p e).1.keys ≡ e.keys)
put_portfolio_at-kept none p e = (refl, refl)
put_portfolio_at-kept (some k) p e = (refl, refl)

insert_at-kept :
    (o : Option Portfolio) (k : Text) (p : Portfolio) (e : Store)
    → ((insert_at o k p e).1.committed ≡ e.committed)
      × (length (insert_at o k p e).1.keys ≤ length e.keys + 1)
insert_at-kept none k p e = (refl, omega arith)
insert_at-kept (some old) k p e = (refl, omega arith)

pub insert_at-free :
    (o : Option Portfolio) (k : Text) (p : Portfolio) (e : Store)
    → is_done (insert_at o k p e).0 ≡ true
    → (o ≡ none) × ((insert_at o k p e).1.working ≡ write_portfolio k p e.working)
insert_at-free none k p e h = (refl, refl)
insert_at-free (some old) k p e h = cc

pub committed_kept :
    (r : Request ℕ (Unit {0}) (Cursor)) (e : Store)
    → is_commit r ≡ false
    → (answer r e).1.committed ≡ e.committed
committed_kept (commit t) e h = ground arith
committed_kept (put_quote c q) e h = (put_quote_at-kept c.position q e).0
committed_kept (put_portfolio c q) e h = (put_portfolio_at-kept c.position q e).0
committed_kept (insert_portfolio t k p) e h = (insert_at-kept (e.working.portfolios k) k p e).0
committed_kept _ e h = refl

pub seen_read :
    (r : Request ℕ (Unit {0}) (Cursor)) (e : Store)
    → is_read r ≡ true
    → (answer r e).1.working ≡ e.working
seen_read txn_begin e h = ground arith
seen_read (put_quote c q) e h = ground arith
seen_read (put_portfolio c q) e h = ground arith
seen_read (insert_portfolio t k p) e h = ground arith
seen_read _ e h = refl

pub records_grow :
    (r : Request ℕ (Unit {0}) (Cursor)) (e : Store)
    → length (answer r e).1.keys ≤ length e.keys + (if is_insert r then 1 else 0)
records_grow (put_quote c q) e = grind (arith, put_quote_at-kept c.position q e)
records_grow (put_portfolio c q) e = grind (arith, put_portfolio_at-kept c.position q e)
records_grow (insert_portfolio t k p) e = (insert_at-kept (e.working.portfolios k) k p e).1
records_grow _ e = omega arith

is_done-tell : (b : Bool) → is_done (tell b) ≡ true → b ≡ true
is_done-tell true h = refl
is_done-tell false h = h

pub quote_of-tell :
    (o : Option (Quote ℕ)) (c : Cursor) (q : Quote ℕ) (c' : Cursor)
    → quote_of (tell_quote o c) ≡ some (q, c')
    → (o ≡ some q) × (c' ≡ c)
quote_of-tell none c q c' h = cc
quote_of-tell (some q1) c q c' h = ground arith

pub portfolio_of-tell :
    (k : Text) (o : Option Portfolio) (c : Cursor) (k' : Text) (p : Portfolio) (c' : Cursor)
    → portfolio_of (tell_portfolio k o c) ≡ some (k', p, c')
    → (k' ≡ k) × (o ≡ some p) × (c' ≡ c)
portfolio_of-tell k none c k' p c' h = cc
portfolio_of-tell k (some p1) c k' p c' h = ground arith

pub next_of-entry :
    (s : Tables ℕ) (ks : List Text) (k : Text) (p : Portfolio) (c' : Cursor)
    → portfolio_of (next_of s ks) ≡ some (k, p, c')
    → (s.portfolios k ≡ some p) × (c'.table ≡ portfolios_sec) × (length c'.rest < length ks)
next_of-entry s [] k p c' h = cc
next_of-entry s (k1 ∷ ks) k p c' h =
    let f = portfolio_of-tell k1 (s.portfolios k1) _ k p c' h in ground (arith, f)

pub next_account-key :
    (s : Tables ℕ) (ks : List Text) (k : Text) (c' : Cursor)
    → key_of (next_account s ks) ≡ some (k, c')
    → (s.personal k ≡ true) × (c'.table ≡ personal) × (length c'.rest < length ks)
next_account-key s [] k c' h = cc
next_account-key s (k1 ∷ ks) k c' h = elim (Bool-cases (s.personal k1)) [
  | inl e ↦
      let f : (k1 ≡ k)
          × ((let d : Cursor = record { table = personal; position = some k1; rest = ks } in d)
              ≡ c') =
        ground (arith, e, h) in
      ground (arith, e, f)
  | inr e ↦
      let f = next_account-key s ks k c' (ground (arith, e, h)) in (f.0, f.1, omega (arith, f.2))
]

pub has_key-found :
    (s : Tables ℕ) (tb : Table) (k : Text)
    → is_done (has_key s tb k) ≡ true
    → (tb ≡ personal → s.personal k ≡ true) × (tb ≡ stocks → s.stocks k ≡ true)
has_key-found s personal k h = (λ _. is_done-tell (s.personal k) h, λ e. absurd (ground arith))
has_key-found s stocks k h = (λ e. absurd (ground arith), λ _. is_done-tell (s.stocks k) h)
has_key-found s _ k h = absurd (ground arith)

pub cursor_opened :
    (tb : Table) (t : Unit {0}) (e : Store) (c : Cursor)
    → cursor_of (answer (open_cursor tb t) e).0 ≡ some c
    → (tt {0} ≡ t) × (c.table ≡ tb) × (length c.rest ≤ length e.keys)
cursor_opened tb t e c h =
    let same : record { table = tb; position = none; rest = e.keys } ≡ c = cc in
    (
      refl,
      ap (λ (d : Cursor). d.table) (sym same),
      subst (λ (d : Cursor). length d.rest ≤ length e.keys) same (omega arith),
    )

abbrev pub example_laws : Laws example_db
example_laws = record {
  committed = λ e. e.committed;
  seen = λ t e. e.working;
  owner = λ c. tt;
  table = λ c. c.table;
  position = λ c. c.position;
  records = λ e. length e.keys;
  ahead = λ c e. length c.rest;
  committed_kept = committed_kept;
  committed_commit = λ t e. refl;
  seen_begin = λ t e h. refl;
  seen_read = λ r t e h. seen_read r e h;
  cursor_opened = cursor_opened;
  ahead_kept = λ r c e h. omega arith;
  account_found = λ c k e on h. (has_key-found e.working c.table k h).0 on;
  account_next =
      λ c e k c' on h. let f = next_account-key e.working c.rest k c' h in (f.0, refl, f.1, f.2);
  stock_found = λ c k e on h. (has_key-found e.working c.table k h).1 on;
  quote_found = λ c k b e q c' on h.
      let f = quote_of-tell (e.working.quotes k) _ q c' h in
      (f.0, refl, ap (λ (d : Cursor). d.table) f.1, ap (λ (d : Cursor). d.position) f.1);
  portfolio_found = λ c k e k' p c' on h.
      let f = portfolio_of-tell k (e.working.portfolios k) _ k' p c' h in
      (f.1, refl, ap (λ (d : Cursor). d.table) f.2, ap (λ (d : Cursor). d.position) f.2);
  entry_found =
      λ c e k p c' on h. let f = next_of-entry e.working c.rest k p c' h in (f.0, refl, f.1, f.2);
  quote_written =
      λ c k q e on at_k h. ap (λ (o : Option Text). (put_quote_at o q e).1.working) at_k;
  portfolio_written =
      λ c k p e on at_k h. ap (λ (o : Option Text). (put_portfolio_at o p e).1.working) at_k;
  portfolio_inserted = λ t k p e h. insert_at-free (e.working.portfolios k) k p e h;
  records_grow = records_grow;
}

put_quote_at-done :
    (o : Option Text) (k : Text) (q : Quote ℕ) (e : Store)
    → o ≡ some k
    → is_done (put_quote_at o q e).0 ≡ true
put_quote_at-done o k q e h = rw h refl

pub example-Reliable : Reliable example_laws
example-Reliable = record {
  begins = λ e. (tt, refl);
  names = λ t n e. refl;
  commits = λ t e. refl;
  opens = λ tb t e. (record { table = tb; position = none; rest = e.keys }, refl);
  closes = λ c e. refl;
  finds_quote = λ c k b e q on h. (record c { table = quotes; position = some k }, rw h refl);
  puts_quote = λ c k q e on h. put_quote_at-done c.position k q e h;
}
