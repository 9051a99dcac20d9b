-- ===== src/Packets/Example.antt =====
-- A cache of one stock and one user, and a client on it, for the tests.
use chronos_prototype.Base.{ℕ, zero, suc, ◌+◌, ◌-◌, refl, some, [], ◌∷◌, arith}
use chronos_prototype.Cache.{ChronosCache, ClientCache}
use chronos_prototype.Cache.Bounds.{Counted, ClientOf, client_cache_alloc-ClientOf}
use chronos_prototype.Packets.{Prices}
use chronos_prototype.Packets.Create.{Loaded}

abbrev pub small_cache : ChronosCache
small_cache = record {
  num_stocks = 1;
  stocks_list = some (b'A' ∷ []) ∷ [];
  num_users = 1;
  users = (b'0' ∷ []) ∷ [];
}

pub small_cache-Counted : Counted small_cache
small_cache-Counted = record {
  stocks_counted = refl;
  users_counted = refl;
  some_stocks = omega arith;
  some_users = omega arith;
}

pub small_cache-Loaded : Loaded small_cache
small_cache-Loaded zero = ground arith
small_cache-Loaded (suc i) = ground arith

abbrev pub prices : Prices ℕ
prices = record { zero_price = 0; add_ten = λ n. n + 10; sub_ten = λ n. n - 10 }

abbrev pub dice : ℕ → ℕ
dice k = k + 7

pub small_client : (cc : ClientCache ℕ) × ClientOf 500 small_cache cc
small_client =
    let (cc, _, v) =
      client_cache_alloc-ClientOf 500 dice small_cache small_cache-Counted 1 2 (omega arith)
        (omega arith) (omega arith) in
    (cc, v)
