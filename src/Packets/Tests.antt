-- ===== src/Packets/Tests.antt =====
-- The theorems about src/chronos_cache.c and src/chronos_packets.c, on a cache of one stock and one
-- user.
use chronos_prototype.Base.{ℕ, ◌<◌, ◌≡◌, true, some, arith, length}
use chronos_prototype.Base.Int.{pos}
use chronos_prototype.Cache.{returned, ClientCache, client_cache_alloc}
use chronos_prototype.Base.{All}
use chronos_prototype.Cache.Bounds.{ClientOf, client_cache_alloc-ClientOf}
use chronos_prototype.Packets.{purchase, RequestPacket, env_magic, request_create}
use chronos_prototype.Packets.Create.{Asks, request_create-Asks}
use chronos_prototype.Packets.Example.{
  small_cache, small_cache-Counted, small_cache-Loaded, prices, dice, small_client,
}

client_cache_alloc-ClientOf_example :
    (cc : ClientCache ℕ) × (client_cache_alloc 500 dice (pos 1) 2 (some small_cache) true
      ≡ returned (some cc))
    × ClientOf 500 small_cache cc
client_cache_alloc-ClientOf_example =
    client_cache_alloc-ClientOf 500 dice small_cache small_cache-Counted 1 2 (omega arith)
      (omega arith) (omega arith)

small_client-many : 0 < small_client.0.num_portfolios
small_client-many = omega (arith, small_client.1.portfolios_fit)

request_create-Asks_example :
    (p : RequestPacket ℕ) × (request_create prices dice purchase
        (some small_client.0)
        (some (record { magic = env_magic; cache = some small_cache }))
        true
      ≡ returned (some p))
    × (p.txn_type ≡ purchase)
    × (p.num_items ≡ 3)
    × (length p.items ≡ 3)
    × All (Asks prices 500 small_cache purchase) p.items
request_create-Asks_example =
    request_create-Asks prices 500 dice small_cache small_client.0 small_cache-Counted
      small_client.1 small_cache-Loaded purchase small_cache (λ e. cc)
