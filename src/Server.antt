-- ===== src/Server.antt =====
-- The server: src/startup_server.c and include/chronos_server.h. The parent holds the state that its
-- threads share; the children model the parts that change it.
pub mod Sampling
pub mod Process
pub mod Updates
pub mod Handler
pub mod Arguments
pub mod Admission
pub mod Start
pub mod Exchange
pub mod Example
pub mod Main
pub mod Listener
mod Tests
use chronos_prototype.Base.{ℕ, ◌+◌, Bool, true, false, ◌==◌, if◌then◌else◌, List, Text}
use chronos_prototype.Base.Int.{ℤ, pos, negsuc}

-- What the program uses of `double`. A comparison with a NaN is false.
pub record Doubles (D : Type 0) : Type 0 where
  pub zero : D
  pub one : D
  -- 0.1, 0.9, 1.1, 0.5, 0.4 and 100.0
  pub tenth : D
  pub nine_tenths : D
  pub eleven_tenths : D
  pub half : D
  pub two_fifths : D
  pub hundred : D
  pub of_int : ℤ → D
  pub to_int : D → ℤ
  -- to `unsigned long long`
  pub to_nat : D → ℕ
  pub lt : D → D → Bool
  pub le : D → D → Bool
  pub eq : D → D → Bool
  pub add : D → D → D
  pub sub : D → D → D
  pub mul : D → D → D
  pub div : D → D → D

-- CHRONOS_SAMPLING_SPACE: the slots that the measurements go round.
abbrev pub sampling_space : ℕ
sampling_space = 5

-- An array of `sampling_space` entries, by slot.
abbrev pub Slots : Type 0 → Type 0
Slots A = ℕ → A

abbrev pub put : {A : Type 0} → Slots A → ℕ → A → Slots A
put f i v j = if j == i then v else f j

-- `chronosServerStats_t`
pub record ServerStats (D : Type 0) : Type 0 where
  pub num_txns : ℕ
  pub cumulative_time_ms : D
  pub num_failed_txns : ℕ
  pub num_timely_txns : ℕ

-- `chronosDataItem_t`
pub record DataItem (D : Type 0) : Type 0 where
  pub index : ℕ
  pub data_item : Text
  pub next_update_time_ms : ℕ
  pub update_frequency : Slots D
  pub access_update_ratio : Slots D
  pub update_period_ms : Slots D

-- The fields of `chronosServerContext_t` that the running server changes or decides by. The ready
-- queues are here by their `occupied` alone.
pub record ServerContext (D : Type 0) : Type 0 where
  pub running_mode : ℤ
  pub min_update_period_ms : D
  pub max_update_period_ms : D
  pub desired_delay_bound_ms : D
  pub user_occupied : ℕ
  pub sys_occupied : ℕ
  pub current_slot : ℕ
  pub stats_matrix : Slots (List (ServerStats D))
  pub average_service_delay_ms : D
  pub degree_timing_violation : D
  pub smoth_degree_timing_violation : D
  pub alpha : D
  pub num_txn_to_wait : ℤ
  pub total_txns_enqueued : ℕ
  pub data_items : List (DataItem D)

-- CHRONOS_MODE_AC, CHRONOS_MODE_AUP and CHRONOS_MODE_FULL; CHRONOS_MODE_BASE is 0.
abbrev pub mode_ac : ℕ
mode_ac = 1

abbrev pub mode_aup : ℕ
mode_aup = 2

abbrev pub mode_full : ℕ
mode_full = 3

-- IS_CHRONOS_MODE_AC and its like.
abbrev pub is_mode : ℕ → ℤ → Bool
is_mode k (pos n) = n == k
is_mode k (negsuc n) = false
