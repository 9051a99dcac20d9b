-- ===== src/Db/Reliable.antt =====
-- Berkeley DB on a day when nothing goes wrong: a call fails only where its record is missing.
use chronos_prototype.Base.{◌≡◌, Bool, true, Option, some, refl, Text}
use Prim.Native.String.{String}
use chronos_prototype.Tables.{Quote}
use chronos_prototype.Db.{
  Table, BerkeleyDb, Outcome, ok, World, txn_begin, set_name, commit, open_cursor, close, get_quote,
  put_quote, is_done, txn_of, cursor_of, quote_of, or_fail, guard,
}
use chronos_prototype.Db.Laws.{Laws}
use chronos_prototype.Db.Run.{Post, at_ok, at_fail, at_crash}

pub record Reliable {F : Type 0} {db : BerkeleyDb F} (l : Laws db) : Type 0 where
  pub begins : (e : db.Env) → (t : db.Txn) × (txn_of (db.call txn_begin e).0 ≡ some t)
  pub names : (t : db.Txn) (n : String) (e : db.Env) → is_done (db.call (set_name t n) e).0 ≡ true
  pub commits : (t : db.Txn) (e : db.Env) → is_done (db.call (commit t) e).0 ≡ true
  pub opens :
      (tb : Table) (t : db.Txn) (e : db.Env)
      → (c : db.Cursor) × (cursor_of (db.call (open_cursor tb t) e).0 ≡ some c)
  pub closes : (c : db.Cursor) (e : db.Env) → is_done (db.call (close c) e).0 ≡ true
  pub finds_quote :
      (c : db.Cursor) (k : Text) (b : Bool) (e : db.Env) (q : Quote F)
      → l.table c ≡ Table.quotes
      → (l.seen (l.owner c) e).quotes k ≡ some q
      → (c' : db.Cursor) × (quote_of (db.call (get_quote c k b) e).0 ≡ some (q, c'))
  pub puts_quote :
      (c : db.Cursor) (k : Text) (q : Quote F) (e : db.Env)
      → l.table c ≡ Table.quotes
      → l.position c ≡ some k
      → is_done (db.call (put_quote c q) e).0 ≡ true

module _ {F : Type 0} {db : BerkeleyDb F} where
  -- No failure and no crash.
  abbrev pub Never : World db → Type 0
  Never w = ⊥

  pub Post-some :
      {A : Type 0} {E : World db → Type 0} (o : Option A) (a : A) (w : World db)
      {R : A → World db → Type 0}
      → o ≡ some a
      → R a w
      → Post R E (or_fail o w)
  Post-some o a w e h = rw e (at_ok h)

  pub Post-pass :
      {E : World db → Type 0} (b : Bool) (w : World db) {R : Unit {0} → World db → Type 0}
      → b ≡ true
      → R tt w
      → Post R E (guard b w)
  Post-pass b w e h = rw e (at_ok h)

  pub Post-ok :
      {R : Unit {0} → World db → Type 0} {x : Outcome (Unit {0}) × World db}
      → Post R Never x
      → x.0 ≡ ok tt
  Post-ok (at_ok h) = refl
  Post-ok (at_fail h) = elim h [ ]
  Post-ok (at_crash h) = elim h [ ]
