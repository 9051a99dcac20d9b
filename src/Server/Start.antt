-- ===== src/Server/Start.antt =====
-- The server's context as `main` of src/startup_server.c sets it up before the threads start.
use chronos_prototype.Base.{ℕ, List, Text, replicate}
use chronos_prototype.Base.Int.{pos}
use chronos_prototype.Server.{Doubles, ServerContext}
use chronos_prototype.Server.Sampling.{no_stats}
use chronos_prototype.Server.Arguments.{Config}
use chronos_prototype.Server.Updates.{start_items}

module _ {D : Type 0} (d : Doubles D) where
  -- CHRONOS_MAX_NUM_SERVER_THREADS is 1 in a CHRONOS_DEBUG build.
  abbrev pub max_server_threads : ℕ
  max_server_threads = 1

  -- `now` is the clock in milliseconds, `keys` the list of stocks.
  unfoldable pub start_context : Config D → List Text → ℕ → ServerContext D
  unfolding no_stats
  start_context c keys now = record {
    running_mode = c.running_mode;
    min_update_period_ms = c.min_update_period_ms;
    max_update_period_ms = c.max_update_period_ms;
    desired_delay_bound_ms = c.desired_delay_bound_ms;
    user_occupied = 0;
    sys_occupied = 0;
    current_slot = 0;
    stats_matrix = λ i. replicate max_server_threads (no_stats d);
    average_service_delay_ms = d.zero;
    degree_timing_violation = d.zero;
    smoth_degree_timing_violation = d.zero;
    alpha = c.alpha;
    num_txn_to_wait = pos 0;
    total_txns_enqueued = 0;
    data_items =
        start_items d c.min_update_period_ms
          (d.to_nat (d.add (d.of_int (pos now)) c.min_update_period_ms)) 0 keys;
  }
