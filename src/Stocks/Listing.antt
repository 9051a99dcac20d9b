-- ===== src/Stocks/Listing.antt =====
-- What the list of symbols holds after `benchmark_stocks_symbols_get` of src/benchmark_stocks.c.
use chronos_prototype.Base.{
  on_result, on_result-cases, ℕ, zero, suc, ◌+◌, ◌<◌, ◌≡◌, refl, sym, ◌∙◌, ap, subst, Bool, true,
  false, inl, inr, ◌⊎◌, Option, none, some, List, [], ◌∷◌, ◌++◌, length, set, replicate,
  length-replicate, length-append, append_assoc, arith, if◌then◌else◌, Text,
}
use chronos_prototype.Db.{ok, fail, crash}
use chronos_prototype.Stocks.{
  StocksDb, Handle, Run, Next, found, no_more, failed, release, fail_exit, on_next, drop_txn,
  with_stocks, put_symbol, copy_symbols, finish, fill, count_stocks, allocate,
  benchmark_stocks_symbols_get,
}

-- What is relied on, where no other transaction writes to Stocks: a scan meets the keys of the table
-- in their order, and the statistics count them. Any call may fail.
pub record Laws (db : StocksDb) : Type 0 where
  pub keys : db.Env → List Text
  pub ahead : db.Cursor → db.Env → List Text
  pub keys_begin : (e : db.Env) → keys (db.txn_begin e).1 ≡ keys e
  pub keys_stat : (t : db.Txn) (e : db.Env) → keys (db.stat t e).1 ≡ keys e
  pub keys_calloc : (n : ℕ) (e : db.Env) → keys (db.calloc n e).1 ≡ keys e
  pub ahead_strdup : (c : db.Cursor) (k : Text) (e : db.Env) → ahead c (db.strdup k e).1 ≡ ahead c e
  pub counted : (t : db.Txn) (e : db.Env) (n : ℕ) → (db.stat t e).0 ≡ some n → n ≡ length (keys e)
  pub opened :
      (t : db.Txn) (e : db.Env) (c : db.Cursor)
      → (db.open_cursor t e).0 ≡ some c
      → ahead c (db.open_cursor t e).1 ≡ keys e
  pub next_found :
      (c : db.Cursor) (e : db.Env) (k : Text)
      → (db.next c e).0 ≡ found k
      → ahead c e ≡ k ∷ ahead c (db.next c e).1
  pub next_end : (c : db.Cursor) (e : db.Env) → (db.next c e).0 ≡ no_more → ahead c e ≡ []

-- The array has `number_stocks` slots.
abbrev pub IsSized : {db : StocksDb} → Handle db → Type 0
IsSized h = (xs : List (Option Text)) → h.stocks ≡ some xs → length xs ≡ h.number_stocks

-- The copy of a key: the key, or a NULL, for which some call of `strdup` found no memory.
pub data CopyOf (db : StocksDb) (k : Text) : Option Text → Type 0 where
  copy : CopyOf db k (some k)
  no_copy : {e : db.Env} → (db.strdup k e).0 ≡ false → CopyOf db k none

pub data Copies (db : StocksDb) : List Text → List (Option Text) → Type 0 where
  no_keys : Copies db [] []
  a_key :
      {k : Text} {ks : List Text} {x : Option Text} {xs : List (Option Text)}
      → CopyOf db k x
      → Copies db ks xs
      → Copies db (k ∷ ks) (x ∷ xs)

-- A success has a copy of each key; a failure leaves no symbol. There is no other end.
pub data Listed {db : StocksDb} (ks : List Text) : Run db → Type 0 where
  listed :
      {h : Handle db} {xs : List (Option Text)}
      → h.stocks ≡ some xs
      → Copies db ks xs
      → h.number_stocks ≡ length ks
      → Listed ks (ok tt, h)
  emptied :
      {h : Handle db}
      → (h.stocks ≡ none) ⊎ (h.stocks ≡ some (replicate h.number_stocks none))
      → Listed ks (fail, h)

-- The end of the loop, with the symbols `pre` in front: the whole array, or a failure with an array of
-- the same size.
data Copied {db : StocksDb} (pre : List (Option Text)) (ks : List Text) (n : ℕ)
    : Run db → Type 0 where
  copied :
      {h : Handle db} {xs : List (Option Text)}
      → h.stocks ≡ some (pre ++ xs)
      → Copies db ks xs
      → h.number_stocks ≡ n
      → Copied pre ks n (ok tt, h)
  broken : {h : Handle db} → IsSized h → Copied pre ks n (fail, h)

length-Copies :
    {db : StocksDb} {ks : List Text} {xs : List (Option Text)}
    → Copies db ks xs
    → length xs ≡ length ks
length-Copies no_keys = refl
length-Copies (a_key c cs) = ap suc (length-Copies cs)

release-all :
    (n : ℕ) (xs : List (Option Text)) → length xs ≡ n → release n xs ≡ some (replicate n none)
release-all zero [] e = refl
release-all zero (x ∷ xs) e = absurd (omega arith)
release-all (suc n) [] e = absurd (omega arith)
release-all (suc n) (x ∷ xs) e = rw (release-all n xs (omega arith)) refl

set-append :
    {A : Type 0} (xs ys : List A) (x y : A)
    → set (xs ++ x ∷ ys) (length xs) y ≡ (xs ++ y ∷ []) ++ ys
set-append [] ys x y = refl
set-append (z ∷ xs) ys x y = ap (λ l. z ∷ l) (set-append xs ys x y)

on_next-cases :
    {B : Type 0} (P : B → Type 0) (n : Next) (b b' : B) (f : Text → B)
    → P b
    → (n ≡ no_more → P b')
    → ((s : Text) → n ≡ found s → P (f s))
    → P (on_next n b b' f)
on_next-cases P failed b b' f h g k = h
on_next-cases P no_more b b' f h g k = g refl
on_next-cases P (found s) b b' f h g k = k s refl

if-cases : {B : Type 0} (P : B → Type 0) (t : Bool) (a b : B) → P a → P b → P (if t then a else b)
if-cases P true a b h g = h
if-cases P false a b h g = g

module _ {db : StocksDb} where
  drop_txn-kept :
      (t : Option db.Txn) (c : Option db.Cursor) (h : Handle db)
      → ((drop_txn t c h).stocks ≡ h.stocks) × ((drop_txn t c h).number_stocks ≡ h.number_stocks)
  drop_txn-kept none c h = (refl, refl)
  drop_txn-kept (some t) none h = (refl, refl)
  drop_txn-kept (some t) (some c) h = (refl, refl)

  with_stocks-Listed :
      (ks : List Text) (h : Handle db) (o : Option (List (Option Text)))
      → o ≡ some (replicate h.number_stocks none)
      → Listed ks (with_stocks h o)
  with_stocks-Listed ks h none e = absurd (ground arith)
  with_stocks-Listed ks h (some xs) e = emptied (inr e)

  fail_exit-Listed :
      (ks : List Text) (t : Option db.Txn) (c : Option db.Cursor) (h : Handle db)
      → IsSized h
      → Listed ks (fail_exit t c h)
  fail_exit-Listed ks t c h sized =
      let h1 = drop_txn t c h in
      let f = drop_txn-kept t c h in
      on_result-cases (Listed ks) h1.stocks _ _ (λ e. emptied (inl e))
        λ xs e.
          with_stocks-Listed ks h1 (release h1.number_stocks xs)
            (release-all h1.number_stocks xs (sized xs (sym f.0 ∙ e) ∙ sym f.1))

  put_symbol-in :
      (slot : ℕ) (k : Text) (xs : List (Option Text)) (h : Handle db)
      → h.stocks ≡ some xs
      → slot < h.number_stocks
      → put_symbol slot k h
        ≡ some (record h {
          env = (db.strdup k h.env).1;
          stocks = some (set xs slot (if (db.strdup k h.env).0 then some k else none));
        })
  put_symbol-in slot k xs h e lt = ground (arith, e, lt)

  CopyOf-strdup :
      (k : Text) (e : db.Env) (b : Bool)
      → (db.strdup k e).0 ≡ b
      → CopyOf db k (if b then some k else none)
  CopyOf-strdup k e true h = copy
  CopyOf-strdup k e false h = no_copy h

  -- A key in front.
  Copied-cons :
      (pre : List (Option Text)) (k : Text) (ks : List Text) (x : Option Text) (n : ℕ) {r : Run db}
      → CopyOf db k x
      → Copied (pre ++ x ∷ []) ks n r
      → Copied pre (k ∷ ks) n r
  Copied-cons pre k ks x n c (copied {xs = xs} s cs num) =
      copied (s ∙ ap some (append_assoc pre (x ∷ []) xs)) (a_key c cs) num
  Copied-cons pre k ks x n c (broken sized) = broken sized

  IsSized-of :
      (xs : List (Option Text)) (h : Handle db)
      → h.stocks ≡ some xs
      → length xs ≡ h.number_stocks
      → IsSized h
  IsSized-of xs h e n ys e' = ground (arith, e, n, e')

module _ {db : StocksDb} (l : Laws db) where
  -- The loop after the symbols `pre`, with the keys `rest` before the cursor.
  copy_symbols-Copied :
      (fuel : ℕ) (c : db.Cursor) (slot : ℕ) (pre : List (Option Text)) (rest : List Text)
      (h : Handle db) (n : ℕ)
      → l.ahead c h.env ≡ rest
      → h.stocks ≡ some (pre ++ replicate (length rest) none)
      → slot ≡ length pre
      → n ≡ length pre + length rest
      → h.number_stocks ≡ n
      → length rest < fuel
      → Copied pre rest n (copy_symbols fuel c slot h)
  unfolding copy_symbols
  copy_symbols-Copied zero c slot pre rest h n a s i len num g = absurd (omega arith)
  copy_symbols-Copied (suc fuel) c slot pre [] h n a s i len num g =
      on_next-cases (Copied pre [] n) (db.next c h.env).0 _ _ _
        (broken (IsSized-of (pre ++ []) h s (omega (arith, length-append pre (replicate 0 none)))))
        (λ e. copied s no_keys num) λ k e. absurd (ground (arith, a, l.next_found c h.env k e))
  copy_symbols-Copied (suc fuel) c slot pre (r ∷ rs) h n a s i len num g =
      let m = length rs in
      let empty : Option Text = none in
      on_next-cases (Copied pre (r ∷ rs) n) (db.next c h.env).0 _ _ _
        (broken (
          IsSized-of _ h s (
            omega
              (arith, length-append pre (replicate (suc m) none), length-replicate (suc m) empty))))
        (λ e. absurd (ground (arith, a, l.next_end c h.env e)))
        λ k e.
          let h1 : Handle db = record h { env = (db.next c h.env).1 } in
          let xs = pre ++ replicate (suc m) none in
          let x : Option Text = if (db.strdup k h1.env).0 then some k else none in
          let f = sym a ∙ l.next_found c h.env k e in
          let same : r ≡ k = ground (arith, f) in
          subst
            (λ o.
              Copied pre (r ∷ rs) n
                (on_result o (crash, h1) (λ h2. copy_symbols fuel c (slot + 1) h2)))
            (sym (put_symbol-in slot k xs h1 s (omega arith)))
            (Copied-cons pre r rs x n
              (subst (λ j. CopyOf db j x) (sym same)
                (CopyOf-strdup k h1.env (db.strdup k h1.env).0 refl))
              (copy_symbols-Copied fuel c (slot + 1) (pre ++ x ∷ []) rs
                (record h1 { env = (db.strdup k h1.env).1; stocks = some (set xs slot x) }) n
                (l.ahead_strdup c k h1.env ∙ ground (arith, f))
                (ap some (rw i (set-append pre (replicate m none) none x)))
                (omega (arith, length-append pre (x ∷ [])))
                (omega (arith, length-append pre (x ∷ []))) num (omega arith)))

module _ {db : StocksDb} (l : Laws db) where
  finish-Listed :
      (ks : List Text) (t : db.Txn) (c : db.Cursor) {r : Run db}
      → Copied [] ks (length ks) r
      → Listed ks (finish t c r)
  finish-Listed ks t c (copied {h = h} {xs = xs} s cs n) =
      if-cases (Listed ks) (db.commit t (db.close c h.env).1).0 _ _ (listed s cs n)
        (fail_exit-Listed ks (some t) none _ (IsSized-of xs h s (length-Copies cs ∙ sym n)))
  finish-Listed ks t c (broken {h = h} sized) = fail_exit-Listed ks (some t) (some c) h sized

  fill-Listed :
      (fuel : ℕ) (ks : List Text) (t : db.Txn) (h : Handle db)
      → l.keys h.env ≡ ks
      → h.stocks ≡ some (replicate (length ks) none)
      → h.number_stocks ≡ length ks
      → length ks < fuel
      → Listed ks (fill fuel t h)
  fill-Listed fuel ks t h read s n g =
      let h1 : Handle db = record h { env = (db.open_cursor t h.env).1 } in
      on_result-cases (Listed ks) (db.open_cursor t h.env).0 _ _
        (λ _.
          fail_exit-Listed ks (some t) none h1
            (IsSized-of _ h1 s (length-replicate (length ks) none ∙ sym n)))
        λ c e. finish-Listed ks t c (
          copy_symbols-Copied l fuel c 0 [] ks h1 (length ks) (l.opened t h.env c e ∙ read) s refl
            (omega arith) n g)

  -- NULL is no array.
  unsized : (n : ℕ) (xs : List (Option Text)) → none ≡ some xs → length xs ≡ n
  unsized n xs e = absurd (ground (arith, e))

  allocate-Listed :
      (fuel : ℕ) (ks : List Text) (t : db.Txn) (n : ℕ) (h : Handle db)
      → l.keys h.env ≡ ks
      → n ≡ length ks
      → length ks < fuel
      → Listed ks (allocate fuel t n h)
  allocate-Listed fuel ks t n h read count g =
      if-cases (Listed ks) (db.calloc n h.env).0 _ _
        (fill-Listed fuel ks t _ (l.keys_calloc n h.env ∙ read)
          (ap (λ (m : ℕ). some (replicate m none)) count) count g)
        (fail_exit-Listed ks (some t) none _ (unsized n))

  count_stocks-Listed :
      (fuel : ℕ) (ks : List Text) (t : db.Txn) (h : Handle db)
      → l.keys h.env ≡ ks
      → IsSized h
      → length ks < fuel
      → Listed ks (count_stocks fuel t h)
  count_stocks-Listed fuel ks t h read sized g =
      on_result-cases (Listed ks) (db.stat t h.env).0 _ _
        (λ _. fail_exit-Listed ks (some t) none _ sized)
        λ n e.
          allocate-Listed fuel ks t n (record h { env = (db.stat t h.env).1 })
            (l.keys_stat t h.env ∙ read) (l.counted t h.env n e ∙ ap length read) g

  -- Where no other transaction writes to Stocks, with an array of `number_stocks` slots or none to
  -- start with and fuel for the keys: the function ends without a write or a read outside the array
  -- and without a failed assertion; a success has a copy of each key of Stocks in the order of the
  -- table, or a NULL where `strdup` found no memory for it, and a failure at any other call leaves no
  -- symbol in the array.
  pub benchmark_stocks_symbols_get-Listed :
      (fuel : ℕ) (h : Handle db)
      → IsSized h
      → length (l.keys h.env) < fuel
      → Listed (l.keys h.env) (benchmark_stocks_symbols_get fuel h)
  unfolding benchmark_stocks_symbols_get
  benchmark_stocks_symbols_get-Listed fuel h sized g =
      let ks = l.keys h.env in
      if-cases (Listed ks) h.has_env _ _
        (on_result-cases (Listed ks) (db.txn_begin h.env).0 _ _
          (λ _. fail_exit-Listed ks none none _ sized)
          λ t e.
            count_stocks-Listed fuel ks t (record h { env = (db.txn_begin h.env).1 })
              (l.keys_begin h.env) sized g)
        (fail_exit-Listed ks none none h sized)
