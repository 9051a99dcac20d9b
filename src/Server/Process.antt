-- ===== src/Server/Process.antt =====
-- `processUserTransaction`, `dispatchTableFn` and `processRefreshTransaction` of
-- src/startup_server.c, for a thread with its context. `sampling` is CHRONOS_SAMPLING_ENABLED.
pub mod Served
pub mod Stats
use chronos_prototype.Base.{
  ℕ, zero, suc, ◌+◌, ◌*◌, ◌/◌, Bool, true, false, Option, none, some, if◌then◌else◌, List, [], ◌∷◌,
  ltb, set, get_or, Text,
}
use chronos_prototype.Base.Int.{ℤ, pos, negsuc, ◌+ℤ◌, ◌-ℤ◌, ltb_ℤ}
use chronos_prototype.Tables.{Floats, XactData}
use chronos_prototype.Time.{ChronosTime, nano_offset}
use chronos_prototype.Db.{
  BerkeleyDb, Outcome, ok, fail, crash, out_of_fuel, World, M, crashes, maybe,
}
use chronos_prototype.Packets.{
  TxnType, view_stock, view_portfolio, purchase, sale, inval, Item, symbol_item, account_item,
  purchase_item, sell_item, RequestPacket,
}
use chronos_prototype.Xact.{
  benchmark_purchase2, benchmark_sell2, benchmark_view_stock2, benchmark_refresh_quotes2,
}
use chronos_prototype.Views.{benchmark_view_portfolio2}
use chronos_prototype.Server.{Doubles, put, ServerStats, ServerContext}
use chronos_prototype.Server.Sampling.{no_stats}

-- CHRONOS_MAX_DATA_ITEMS_PER_XACT: the length of the arrays of items.
abbrev pub max_data_items : ℕ
max_data_items = 100

abbrev pub one_and_all : {A : Type 0} → Option A → Option (List A) → Option (List A)
one_and_all none rest = none
one_and_all (some x) none = none
one_and_all (some x) (some xs) = some (x ∷ xs)

module _ {F : Type 0} where
  -- The reads of an item as the member of the union that its request's type asks for. The bytes of
  -- one member are not read as another.
  pub symbol_of : Item F → Option Text
  symbol_of (symbol_item id s) = some s
  symbol_of _ = none

  pub account_of : Item F → Option Text
  account_of (account_item a) = some a
  account_of _ = none

  pub purchase_of : Item F → Option (XactData F)
  purchase_of (purchase_item a id s p n) =
      some (record { account_id = a; symbol_id = pos id; symbol = s; price = p; amount = pos n })
  purchase_of _ = none

  pub sale_of : Item F → Option (XactData F)
  sale_of (sell_item a id s p n) =
      some (record { account_id = a; symbol_id = pos id; symbol = s; price = p; amount = pos n })
  sale_of _ = none

  -- The loop that copies the first items out of a packet.
  pub copy_items : {A : Type 0} → (Item F → Option A) → ℕ → List (Item F) → Option (List A)
  copy_items f zero xs = some []
  copy_items f (suc n) [] = none
  copy_items f (suc n) (x ∷ xs) = let rest = copy_items f n xs in one_and_all (f x) rest

module _ {F : Type 0} (fl : Floats F) (db : BerkeleyDb F) where
  -- The switch. More items than the arrays hold are written past their end.
  pub run_transaction : ℕ → TxnType → ℕ → List (Item F) → M db (Unit {0})
  run_transaction fuel view_stock n items =
      maybe (copy_items symbol_of n items) crashes (benchmark_view_stock2 db)
  run_transaction fuel view_portfolio n items =
      maybe (copy_items account_of n items) crashes (benchmark_view_portfolio2 db fuel)
  run_transaction fuel purchase n items =
      maybe (copy_items purchase_of n items) crashes (benchmark_purchase2 fl db fuel)
  run_transaction fuel sale n items =
      maybe (copy_items sale_of n items) crashes (benchmark_sell2 fl db fuel)
  run_transaction fuel inval n items = crashes

  pub run_request : ℕ → RequestPacket F → M db (Unit {0})
  unfolding run_transaction
  run_request fuel p =
      if ltb max_data_items p.num_items
      then crashes
      else run_transaction fuel p.txn_type p.num_items p.items

-- The two terms of CHRONOS_TIME_TO_MS; the division is that of C, towards zero.
sec_to_ms : ℤ → ℤ
sec_to_ms (pos n) = pos (n * 1000)
sec_to_ms (negsuc n) = pos 0 -ℤ pos ((n + 1) * 1000)

nsec_to_ms : ℤ → ℤ
nsec_to_ms (pos n) = pos (n / 1000000)
nsec_to_ms (negsuc n) = pos 0 -ℤ pos ((n + 1) / 1000000)

pub time_to_ms : ChronosTime → ℤ
unfolding sec_to_ms nsec_to_ms
time_to_ms t = sec_to_ms t.tv_sec +ℤ nsec_to_ms t.tv_nsec

module _ {D : Type 0} (d : Doubles D) where
  -- One transaction less to wait for.
  pub wait_less : ServerContext D → ServerContext D
  wait_less s =
      if ltb_ℤ (pos 0) s.num_txn_to_wait
      then record s { num_txn_to_wait = s.num_txn_to_wait -ℤ pos 1 }
      else s

  pub count_txn : D → ℤ → Bool → ServerStats D → ServerStats D
  count_txn bound ms true x = record x {
    num_txns = x.num_txns + 1;
    cumulative_time_ms = d.add x.cumulative_time_ms (d.of_int ms);
    num_timely_txns = if d.le (d.of_int ms) bound then x.num_timely_txns + 1 else x.num_timely_txns;
  }
  count_txn bound ms false x = record x { num_failed_txns = x.num_failed_txns + 1 }

  -- The measurements of a thread in the current slot.
  pub record_txn : ℕ → ChronosTime → ChronosTime → Bool → ServerContext D → ServerContext D
  unfolding count_txn time_to_ms no_stats
  record_txn thread begin end success s =
      let row = s.stats_matrix s.current_slot in
      record s {
        stats_matrix = put s.stats_matrix s.current_slot (
            set row thread (
              count_txn s.desired_delay_bound_ms (time_to_ms (nano_offset begin end)) success
                (get_or row thread (no_stats d))));
      }

  pub after_txn : Bool → ℕ → ChronosTime → ChronosTime → Bool → ServerContext D → ServerContext D
  unfolding wait_less record_txn
  after_txn sampling thread begin end success s =
      if sampling then record_txn thread begin end success (wait_less s) else wait_less s

module _ {F D : Type 0} {db : BerkeleyDb F} where
  -- The return code of a transaction, with what the server notes of it.
  abbrev pub settle :
      (Bool → ServerContext D → ServerContext D)
      → ServerContext D
      → Outcome (Unit {0}) × World db
      → Outcome Bool × ServerContext D × World db
  settle note s (ok u, w) = (ok true, note true s, w)
  settle note s (fail, w) = (ok false, note false s, w)
  settle note s (crash, w) = (crash, s, w)
  settle note s (out_of_fuel, w) = (out_of_fuel, s, w)

module _ {F D : Type 0} (fl : Floats F) (d : Doubles D) (db : BerkeleyDb F) where
  -- The outcome is `txn_rc`, whether it is CHRONOS_SUCCESS; `begin` and `end` are clock readings.
  pub process_user_transaction :
      Bool
      → ℕ
      → ChronosTime
      → ChronosTime
      → ℕ
      → RequestPacket F
      → ServerContext D
      → World db
      → Outcome Bool × ServerContext D × World db
  unfolding after_txn run_request
  process_user_transaction sampling thread begin end fuel p s w =
      settle (after_txn d sampling thread begin end) s (run_request fl db fuel p w)

  -- `value` is -1 and `direction` is `rand() % 2`. The outcome is whether CHRONOS_SUCCESS is returned.
  unfoldable pub process_refresh_transaction :
      F → ℕ → Text → ServerContext D → World db → Outcome Bool × ServerContext D × World db
  unfolding wait_less
  process_refresh_transaction value direction pkey s w =
      settle (λ success s. if success then wait_less d s else s) s
        (benchmark_refresh_quotes2 fl db pkey value direction w)
