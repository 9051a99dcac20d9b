-- ===== src/Workload/Tests.antt =====
-- The theorems about src/startup_client.c, on a thread that makes one request.
use chronos_prototype.Base.{ℕ, Bool, List, true, false, some, [], ◌∷◌}
use chronos_prototype.Base.Int.{pos}
use chronos_prototype.Packets.{env_magic, turns}
use chronos_prototype.Cache.{ClientCache}
use chronos_prototype.Packets.Example.{prices, dice, small_cache}
use chronos_prototype.Client.{
  in_progress, timed_out, finished, wrote, byte, attempt, polled_nothing, polled_ready,
  disconnected,
}
use chronos_prototype.Workload.{
  ClientContext, ClientThread, ClientTurn, TurnEnd, goes_on, left, hangs, stops,
  user_transaction_thread,
}
use chronos_prototype.Workload.Arguments.{
  threads, address, Verdict, client_defaults, process_client_arguments,
  process_client_arguments-Verdict,
}

abbrev client : ClientContext
client = record {
  all_available = true;
  percentage_view_stock = pos 60;
  server_address = b'h' ∷ [];
  server_port = 5000;
  env = some (record { magic = env_magic; cache = some small_cache });
}

abbrev fresh : ClientThread
fresh = record {
  connection = some (record {
    connection_name = [];
    server_address = [];
    server_port = 0;
    socket_fd = pos 0;
    state = disconnected;
  });
  load_iterations = 0;
  cnt_txns = 0;
  cnt_view_stock = 0;
  cnt_view_portfolio = 0;
  cnt_view_purchase = 0;
  cnt_view_sale = 0;
  cnt_success = 0;
  cnt_fail = 0;
}

abbrev turn : ClientTurn
turn = record {
  network = record {
    socket = some 3;
    option_set = true;
    non_blocking = true;
    connecting = in_progress;
    turns = timed_out ∷ finished true ∷ [];
  };
  first_pick = 17;
  second_pick = 2;
  rand = dice;
  request_allocated = true;
  writes = wrote 1 ∷ wrote 2 ∷ [];
  response_allocated = true;
  polls = attempt false polled_nothing ∷ attempt false (polled_ready (byte 0 ∷ [])) ∷ [];
  time_to_die = false;
}

abbrev one_user : ClientCache ℕ
one_user = record {
  num_portfolios = 1;
  portfolios =
      record {
        user_id = pos 0;
        user = some (b'0' ∷ []);
        num_symbols = 1;
        stock_info =
            record {
              symbol_id = 0;
              symbol = some (b'A' ∷ []);
              random_amount = 4;
              random_price = 500;
            }
            ∷ [];
      }
      ∷ [];
}

abbrev reads_success : List ℕ → Bool
reads_success bs = true

-- Two turns are two purchases of the warm-up, and both succeed.
abbrev thread_of : TurnEnd → ClientThread
thread_of (goes_on t) = t
thread_of (left t) = t
thread_of (hangs t) = t
thread_of stops = fresh

abbrev after_two : ClientThread
after_two = thread_of (
    user_transaction_thread prices client (some one_user) (λ p. 1 ∷ 2 ∷ 3 ∷ []) reads_success 1
      (turn ∷ turn ∷ []) fresh)

process_client_arguments-Verdict_example :
    Verdict
      (threads (pos 3) ∷ address [] ∷ [])
      client_defaults
      (process_client_arguments (threads (pos 3) ∷ address [] ∷ []))
process_client_arguments-Verdict_example =
    process_client_arguments-Verdict (threads (pos 3) ∷ address [] ∷ [])
