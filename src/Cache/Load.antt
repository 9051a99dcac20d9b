-- ===== src/Cache/Load.antt =====
-- src/chronos_cache.c: `chronosCacheAlloc` on a data file, and the reads of what it allocates.
use chronos_prototype.Base.{
  ℕ, zero, suc, ◌+◌, ◌≤◌, ◌<◌, ◌≡◌, refl, ap, ◌∙◌, true, false, Option, none, some, List, [], ◌∷◌,
  arith, length, ltb, Text,
}
use chronos_prototype.Base.Decimal.{decimal}
use chronos_prototype.Base.Int.{pos}
use chronos_prototype.Cache.{
  Ret, returned, crashed, read, ChronosCache, client_num_stocks, client_num_users, users_from,
  stocks_from, stock_list_from_file, cache_alloc, scan_symbol, until_hash, after_hash,
  rest_overruns, symbol_get, user_get, ◌>>=◌,
}
use chronos_prototype.Cache.Bounds.{Counted, length-users_from}

-- Lines whose parts fit their arrays.
abbrev pub Short : List Text → Type 0
Short [] = Unit {0}
Short (l ∷ ls) =
    ((length (until_hash l) ≤ 9) × (rest_overruns (until_hash l) (after_hash l) ≡ false)) × Short ls

-- The symbol on the `i`-th line; NULL past the last line.
abbrev pub symbol_on : List Text → ℕ → Option Text
symbol_on [] i = none
symbol_on (l ∷ ls) zero = some (until_hash l)
symbol_on (l ∷ ls) (suc i) = symbol_on ls i

scan_symbol-short :
    (l : Text)
    → (length (until_hash l) ≤ 9) × (rest_overruns (until_hash l) (after_hash l) ≡ false)
    → scan_symbol l ≡ returned (until_hash l)
scan_symbol-short l (h, g) =
    let bound : ltb 9 (length (until_hash l)) ≡ false = ground arith in rw (bound, g) refl

read_next :
    (n : ℕ) (x : Option Text) (xs : List (Option Text)) (f : ℕ → Option Text)
    → ((i : ℕ) → i < n → read xs i ≡ returned (f (suc i)))
    → x ≡ f 0
    → (i : ℕ) → i < suc n
    → read (x ∷ xs) i ≡ returned (f i)
read_next n x xs f at e zero g = ap returned e
read_next n x xs f at e (suc i) g = at i (omega arith)

read_past : {A : Type 0} (xs : List A) (i : ℕ) → length xs ≤ i → read xs i ≡ crashed
read_past [] i h = refl
read_past (x ∷ xs) zero h = absurd (omega arith)
read_past (x ∷ xs) (suc i) h = read_past xs i (omega arith)

ltb-false : (a b : ℕ) → b ≤ a → ltb a b ≡ false
ltb-false a b h = ground arith

symbol_get-read :
    (c : ChronosCache) (i : ℕ)
    → i ≤ c.num_stocks
    → symbol_get (pos i) (some c) ≡ read c.stocks_list i
unfolding symbol_get
symbol_get-read c i h = rw (ltb-false c.num_stocks i h) refl

user_get-read :
    (c : ChronosCache) (i : ℕ)
    → i ≤ c.num_users
    → user_get (pos i) (some c) ≡ (read c.users i >>= λ u. returned (some u))
unfolding user_get
user_get-read c i h = rw (ltb-false c.num_users i h) refl

stocks_from-symbol_on :
    (n : ℕ) (ls : List Text)
    → Short ls
    → (xs : List (Option Text)) × (stocks_from n ls ≡ returned xs)
      × (length xs ≡ n)
      × ((i : ℕ) → i < n → read xs i ≡ returned (symbol_on ls i))
unfolding stocks_from
stocks_from-symbol_on zero ls h = ([], refl, refl, λ i g. absurd (omega arith))
stocks_from-symbol_on (suc n) [] h =
    let (xs, e, l, at) = stocks_from-symbol_on n [] h in
    (none ∷ xs, rw e refl, ap suc l, read_next n none xs (symbol_on []) at refl)
stocks_from-symbol_on (suc n) (line ∷ ls) h =
    let (xs, e, l, at) = stocks_from-symbol_on n ls h.1 in
    (
      some (until_hash line) ∷ xs,
      rw (scan_symbol-short line h.0, e) refl,
      ap suc l,
      read_next n (some (until_hash line)) xs (symbol_on (line ∷ ls)) at refl,
    )

read-users_from : (n i j : ℕ) → j < n → read (users_from n i) j ≡ returned (decimal (i + j))
read-users_from zero i j h = absurd (omega arith)
read-users_from (suc n) i zero h = ap (λ k. returned (decimal k)) (omega arith)
read-users_from (suc n) i (suc j) h =
    read-users_from n (suc i) j (omega arith) ∙ ap (λ k. returned (decimal k)) (omega arith)

-- From a data file whose lines fit, the cache has 300 stocks and 50 users: the stock with a
-- number below 300 is the symbol on that line, NULL past the end of the file, and the user with a
-- number below 50 is called by it. The stock numbered 300 and the user numbered 50 pass the test of
-- the bound and are read outside their arrays.
pub cache_alloc-symbol_get :
    (lines : List Text)
    → Short lines
    → (c : ChronosCache) × (cache_alloc true true true (some lines) ≡ returned (some c))
      × Counted c
      × ((i : ℕ) → i < 300 → symbol_get (pos i) (some c) ≡ returned (symbol_on lines i))
      × ((i : ℕ) → i < 50 → user_get (pos i) (some c) ≡ returned (some (decimal i)))
      × (symbol_get (pos 300) (some c) ≡ crashed)
      × (user_get (pos 50) (some c) ≡ crashed)
unfolding cache_alloc stock_list_from_file
cache_alloc-symbol_get lines h =
    let (xs, e, l, at) = stocks_from-symbol_on client_num_stocks lines h in
    let us = users_from client_num_users 0 in
    let c : ChronosCache = record {
      num_stocks = client_num_stocks;
      stocks_list = xs;
      num_users = client_num_users;
      users = us;
    } in
    let bind = λ (r : Ret Text). r >>= λ u. returned (some u) in
    (
      c,
      rw e refl,
      record {
        stocks_counted = l;
        users_counted = length-users_from client_num_users 0;
        some_stocks = omega arith;
        some_users = omega arith;
      },
      λ i g. symbol_get-read c i (omega arith) ∙ at i g,
      λ i g.
          user_get-read c i (omega arith)
          ∙ ap bind (
              read-users_from client_num_users 0 i g
              ∙ ap (λ k. returned (decimal k)) (omega arith)),
      symbol_get-read c 300 (omega arith) ∙ read_past xs 300 (omega (arith, l)),
      user_get-read c 50 (omega arith)
          ∙ ap bind (read_past us 50 (omega (arith, length-users_from client_num_users 0))),
    )
