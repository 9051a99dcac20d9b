-- ===== src/Server/Sampling.antt =====
-- `handler_sampling` of src/startup_server.c: the measurements of the slot that ends, the update
-- periods of the next, and the number of transactions to wait for.
pub mod Periods
pub mod Waiting
use chronos_prototype.Base.{
  ℕ, ◌+◌, ◌%◌, Bool, true, false, ◌||◌, ◌&&◌, if◌then◌else◌, List, [], ◌∷◌, map, length, replicate,
}
use chronos_prototype.Base.Int.{ℤ, pos}
use chronos_prototype.Server.{
  Doubles, sampling_space, Slots, put, ServerStats, DataItem, ServerContext, mode_ac, mode_aup,
  mode_full, is_mode,
}

module _ {D : Type 0} (d : Doubles D) where
  -- What `memset` leaves.
  unfoldable pub no_stats : ServerStats D
  no_stats = record {
    num_txns = 0;
    cumulative_time_ms = d.zero;
    num_failed_txns = 0;
    num_timely_txns = 0;
  }

  -- The sums over the threads: the number of transactions, a `double`, and their time.
  pub totals : List (ServerStats D) → D → D → D × D
  totals [] count duration = (count, duration)
  totals (x ∷ xs) count duration =
      totals xs (d.add count (d.of_int (pos x.num_txns))) (d.add duration x.cumulative_time_ms)

  pub average_delay : D × D → D
  average_delay (count, duration) = if d.lt d.zero count then d.div duration count else d.zero

  -- The period of the next slot, from the ratio and the period of the last one. Where the guard of
  -- the last bound fails, and where the ratio is 1, the next slot keeps what it holds.
  pub next_periods : D → D → D → ℕ → ℕ → Slots D → Slots D
  next_periods lowest highest ratio previous new periods =
      if d.lt ratio d.one
      then if d.le (d.mul (periods previous) d.eleven_tenths) highest
        then put periods new (d.mul (periods previous) d.eleven_tenths)
        else periods
      else if d.lt d.one ratio
      then if d.le lowest (d.mul (periods previous) d.nine_tenths)
        then put periods new (d.mul (periods previous) d.nine_tenths)
        else periods
      else periods

  -- A frequency of 0 counts as 0.1.
  pub counted_frequency : D → D
  counted_frequency f = if d.eq f d.zero then d.tenth else f

  pub sample_item : ServerContext D → ℕ → ℕ → DataItem D → DataItem D
  unfolding next_periods counted_frequency
  sample_item s previous new item =
      let frequency = counted_frequency (item.update_frequency previous) in
      let ratio = d.div (item.access_update_ratio previous) frequency in
      record item {
        update_frequency = put item.update_frequency previous frequency;
        access_update_ratio = put item.access_update_ratio previous ratio;
        update_period_ms =
            if is_mode mode_full s.running_mode || is_mode mode_aup s.running_mode
            then next_periods s.min_update_period_ms s.max_update_period_ms ratio previous new
                item.update_period_ms
            else put item.update_period_ms new s.min_update_period_ms;
      }

  -- The degree of overload of one period, and its moving average.
  pub timing_violation : D → D → D
  timing_violation average bound =
      if d.lt bound average then d.div (d.sub average bound) bound else d.zero

  pub smoothed : D → D → D → D
  smoothed alpha degree old = d.add (d.mul alpha degree) (d.mul (d.sub d.one alpha) old)

  pub txns_to_wait : ℤ → ℕ → D → ℤ
  txns_to_wait mode enqueued degree =
      if (is_mode mode_full mode || is_mode mode_ac mode) && d.lt d.zero degree
      then d.to_int (d.div (d.mul (d.of_int (pos enqueued)) degree) d.hundred)
      else pos 0

  pub handler_sampling : ServerContext D → ServerContext D
  unfolding no_stats totals average_delay sample_item timing_violation smoothed txns_to_wait
  handler_sampling s =
      let previous = s.current_slot in
      let new = (previous + 1) % sampling_space in
      let stats = put s.stats_matrix new (replicate (length (s.stats_matrix new)) no_stats) in
      let average = average_delay (totals (stats previous) d.zero d.zero) in
      let degree = timing_violation average s.desired_delay_bound_ms in
      let smooth = smoothed s.alpha degree s.smoth_degree_timing_violation in
      let enqueued = s.user_occupied + s.sys_occupied in
      record s {
        stats_matrix = stats;
        data_items = map (sample_item s previous new) s.data_items;
        current_slot = new;
        average_service_delay_ms = average;
        degree_timing_violation = degree;
        smoth_degree_timing_violation = smooth;
        total_txns_enqueued = enqueued;
        num_txn_to_wait = txns_to_wait s.running_mode enqueued smooth;
      }
