-- ===== src/Packets.antt =====
-- src/chronos_packets.c: the requests that a client sends, filled in from its cache, and the reads
-- of a packet; and the environment handle of src/chronos_environment.c that carries the cache.
pub mod Create
pub mod Example
mod Tests
use chronos_prototype.Base.{
  ℕ, zero, suc, ◌+◌, ◌-◌, ◌^◌, ◌%◌, Bool, true, false, Option, none, some, List, [], ◌∷◌, ◌==◌,
  take, if◌then◌else◌, Text,
}
use chronos_prototype.Base.Int.{ℤ, pos}
use chronos_prototype.Cache.{Ret, returned, crashed, ◌>>=◌, ChronosCache, ClientCache}
use chronos_prototype.Cache.Client.{
  num_portfolios_get, client_user_get, num_symbol_from_user_get, symbol_id_from_user_get,
  symbol_from_user_get, symbol_price_from_user_get,
}

-- ID_SZ
abbrev pub id_sz : ℕ
id_sz = 10

-- `chronosUserTransaction_t`; `inval` is CHRONOS_USER_TXN_INVAL.
pub data TxnType : Type 0 where
  view_stock view_portfolio purchase sale inval : TxnType

-- An item of a request: `chronosSymbol_t`, `chronosViewPortfolioInfo_t`, `chronosPurchaseInfo_t` or
-- `chronosSellInfo_t`. The numbers of the items, and of their symbols and amounts, are those that a client
-- makes: none is negative.
pub data Item (F : Type 0) : Type 0 where
  symbol_item : ℕ → Text → Item F
  account_item : Text → Item F
  purchase_item : Text → ℕ → Text → F → ℕ → Item F
  sell_item : Text → ℕ → Text → F → ℕ → Item F

-- `chronosRequestPacket_t`
pub record RequestPacket (F : Type 0) : Type 0 where
  pub txn_type : TxnType
  pub num_items : ℕ
  pub items : List (Item F)

-- `chronosEnv_t`
pub record ChronosEnv : Type 0 where
  pub magic : ℕ
  pub cache : Option ChronosCache

-- CHRONOS_ENV_MAGIC
abbrev pub env_magic : ℕ
env_magic = 0xCAFE

-- `chronosEnvCheck`: success, failure, or a failed assert.
unfoldable pub env_check : Option ChronosEnv → Ret Bool
env_check none = returned false
env_check (some e) = if e.magic == env_magic then returned true else crashed

unfoldable pub env_cache_get : Option ChronosEnv → Ret (Option ChronosCache)
unfolding env_check
env_cache_get none = returned none
env_cache_get (some e) = env_check (some e) >>= λ good. returned (if good then e.cache else none)

-- `chronosEnvAlloc`, given whether `malloc` succeeds and what `chronosCacheAlloc` returns.
pub env_alloc : Bool → Ret (Option ChronosCache) → Ret (Option ChronosEnv)
env_alloc false r = returned none
env_alloc true r = r >>= λ o. elim o [
  | none ↦ returned none
  | some c ↦ returned (some (record { magic = env_magic; cache = some c }))
]

-- `strncpy` into an array of ID_SZ bytes.
abbrev pub copy_id : Option Text → Ret Text
copy_id none = crashed
copy_id (some s) = returned (take id_sz s)

-- The four functions that pack an item; the item's address is never NULL.
module _ {F : Type 0} where
  unfoldable pub pack_purchase : Option Text → ℕ → Option Text → F → ℕ → Ret (Item F)
  pack_purchase account id symbol price amount =
      copy_id account >>= λ a. copy_id symbol >>= λ s. returned (purchase_item a id s price amount)

  pub pack_sell_stock : Option Text → ℕ → Option Text → F → ℕ → Ret (Item F)
  pack_sell_stock account id symbol price amount =
      copy_id account >>= λ a. copy_id symbol >>= λ s. returned (sell_item a id s price amount)

  pub pack_view_portfolio : Option Text → Ret (Item F)
  pack_view_portfolio account = copy_id account >>= λ a. returned (account_item a)

  pub pack_view_stock : ℕ → Option Text → Ret (Item F)
  pack_view_stock id symbol = copy_id symbol >>= λ s. returned (symbol_item id s)

-- 0.0, and the prices 10 above and 10 below.
pub record Prices (F : Type 0) : Type 0 where
  pub zero_price : F
  pub add_ten : F → F
  pub sub_ten : F → F

-- `rand() % n`
abbrev pub pick : ℕ → ℕ → Ret ℕ
pick r n = if n == 0 then crashed else returned (r % n)

module _ {F : Type 0} (pr : Prices F) (rand : ℕ → ℕ) (cc : Option (ClientCache F)) where
  -- One turn of each loop, from call `k` of `rand` on.
  unfoldable pub view_stock_turn : ℕ → ℕ → Ret (Item F)
  unfolding pack_view_stock
  view_stock_turn u k = num_symbol_from_user_get (pos u) cc >>= λ n. pick (rand k) n >>= λ j.
      symbol_id_from_user_get (pos u) (pos j) cc >>= λ id.
      symbol_from_user_get (pos u) (pos j) cc >>= λ s. pack_view_stock id s

  pub view_portfolio_turn : ℕ → Ret (Item F)
  unfolding pack_view_portfolio
  view_portfolio_turn k = pick (rand k) (num_portfolios_get cc) >>= λ u.
      client_user_get (pos u) cc >>= λ user. pack_view_portfolio user

  -- The turns of a purchase and of a sale, which differ in the price and in the packing.
  unfoldable pub trade_turn :
      (F → F) → (Option Text → ℕ → Option Text → F → ℕ → Ret (Item F)) → ℕ → Ret (Item F)
  trade_turn asked pack k = pick (rand k) (num_portfolios_get cc) >>= λ u.
      client_user_get (pos u) cc >>= λ user. num_symbol_from_user_get (pos u) cc >>= λ n.
      pick (rand (k + 1)) n >>= λ j. symbol_id_from_user_get (pos u) (pos j) cc >>= λ id.
      symbol_from_user_get (pos u) (pos j) cc >>= λ s.
      symbol_price_from_user_get pr.zero_price (pos u) (pos j) cc >>= λ p.
      pack user id s (asked p) (rand (k + 2) % 100)

  -- `n` turns that call `rand` `step` times each.
  unfoldable pub turns : (ℕ → Ret (Item F)) → ℕ → ℕ → ℕ → Ret (List (Item F))
  turns turn step zero k = returned []
  turns turn step (suc n) k =
      turn k >>= λ x. turns turn step n (k + step) >>= λ xs. returned (x ∷ xs)

  -- The `switch` of `chronosRequestCreate`, with the number of items.
  unfoldable pub request_items : TxnType → ℕ → Ret (List (Item F))
  unfolding view_stock_turn view_portfolio_turn trade_turn turns pack_purchase pack_sell_stock
  request_items view_stock n =
      pick (rand 0) (num_portfolios_get cc) >>= λ u. turns (view_stock_turn u) 1 n 1
  request_items view_portfolio n = turns view_portfolio_turn 1 n 0
  request_items purchase n = turns (trade_turn pr.add_ten pack_purchase) 3 n 0
  request_items sale n = turns (trade_turn pr.sub_ten pack_sell_stock) 3 n 0
  request_items inval n = crashed

-- `chronosRequestCreate`: a request has 3 items. `ok` tells whether `malloc` succeeds.
unfoldable pub request_create :
    {F : Type 0}
    → Prices F
    → (ℕ → ℕ)
    → TxnType
    → Option (ClientCache F)
    → Option ChronosEnv
    → Bool
    → Ret (Option (RequestPacket F))
request_create pr rand t cc none ok = returned none
request_create pr rand t none (some e) ok = returned none
request_create pr rand t (some cc) (some e) ok = env_cache_get (some e) >>= λ cache. elim cache [
  | none ↦ returned none
  | some c ↦
      if ok
      then (request_items pr rand (some cc) t 3 >>= λ xs.
          returned (some (record { txn_type = t; num_items = 3; items = xs })))
      else returned none
]

-- The reads of a packet; `size` is `sizeof`, and -1 is a `size_t`.
module _ {F : Type 0} where
  pub request_type_get : Option (RequestPacket F) → TxnType
  request_type_get none = inval
  request_type_get (some p) = p.txn_type

  pub request_size_get : ℕ → Option (RequestPacket F) → ℕ
  request_size_get size none = 2 ^ 64 - 1
  request_size_get size (some p) = size
