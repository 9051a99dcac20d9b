-- ===== src/Server/Updates/Partition.antt =====
-- How `main` of src/startup_server.c deals the data items out to the update threads.
use chronos_prototype.Base.{ℕ, ◌+◌, ◌*◌, ◌/◌, ◌≤◌, ◌<◌, ◌≡◌, true, arith}
use chronos_prototype.Server.Updates.{first_item}
use chronos_prototype.Server.Updates.Schedule.{within}

row_lt : (k k' n : ℕ) → k < k' → k * n + n ≤ k' * n
row_lt k k' n h = grind arith

row_unique : (k k' n j : ℕ) → k * n ≤ j → j < k * n + n → k' * n ≤ j → j < k' * n + n → k' ≡ k
row_unique k k' n j a b a' b' = ground (arith, row_lt k k' n, row_lt k' k n)

-- Each of the first `threads * n` items, with `n` to a thread, is handled by exactly one of the
-- threads.
pub first_item-within :
    (threads n j : ℕ)
    → j < threads * n
    → (k : ℕ) × (k < threads)
      × (within (first_item k n) n j ≡ true)
      × ((k' : ℕ) → within (first_item k' n) n j ≡ true → k' ≡ k)
unfolding first_item
first_item-within threads n j h = (
  j / n,
  grind arith,
  grind arith,
  λ k' w. row_unique (j / n) k' n j (grind arith) (grind arith) (ground arith) (ground arith),
)
