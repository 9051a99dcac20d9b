-- ===== src/Lib.antt =====
-- Chronos: a real-time stock-trading benchmark over Berkeley DB.
--
-- A client process loads a cache of stocks and users (chronos_cache.c), makes requests from it
-- (chronos_packets.c) and sends them to the server (chronos_client.c). A handler thread of the server
-- (startup_server.c) reads a request, waits for its admission, runs it as a database transaction
-- (purchase_txn.c, sell_txn.c, view_stock_txn.c, view_portfolio_txn.c) and replies. Update threads
-- refresh the quotes (refresh_quotes.c), and a sampling handler sets their periods and the number of
-- transactions to wait for. Two ready queues (chronos_queue.c) serve the older design, in which
-- threads of their own process the transactions. The database transactions are made of the functions
-- of benchmark_common.c.
--
-- The files, and the code that each models:
--   Base, Base/*        no code: lists, integers of 32 bits, `sprintf("%d")`, text
--   Time                `chronos_time_t` of include/chronos.h and CHRONOS_TIME_NANO_OFFSET_GET; Time/Sums
--                       has CHRONOS_TIME_ADD and the conversions to and from milliseconds
--   Queue               `chronos_queue_t` and src/chronos_queue.c: `chronos_dequeue_transaction`,
--                       `chronos_enqueue_transaction`; Queue/Api has the four functions on the
--                       server context; Queue/Spec is the first-in first-out list they promise
--   Tables              the records of include/benchmark_common.h
--   Db                  the requests that src/benchmark_common.c makes of Berkeley DB, and the
--                       monad its functions run in; Db/Laws states what they rely on,
--                       Db/Reliable a database on which no call fails, and Db/Example is a small
--                       one that satisfies both
--   Orders              src/benchmark_common.c: `account_exists`, `symbol_exists`, `get_stock`,
--                       `get_portfolio`, `create_portfolio`, `place_order`, `sell_stocks`;
--                       Orders/Spec says what a purchase and a sale do to the tables
--   Xact                src/benchmark_common.c: `start_xact`, `commit_xact`, `abort_xact`,
--                       `show_quote`, `update_stock`; src/purchase_txn.c, src/sell_txn.c,
--                       src/view_stock_txn.c and src/refresh_quotes.c: the functions of the server
--   Views               src/view_portfolio_txn.c and src/benchmark_common.c: `show_portfolios`,
--                       `show_one_portfolio`; what they print is their result. Views/Displays says what
--                       a view shows
--   Load                src/benchmark_initial_load.c: the four loads. Load/Scan is `sscanf` into the bytes
--                       of a struct, Load/Rows a well-formed line of accounts.txt, Load/Loaded and
--                       Load/Distinct what a load leaves in the tables
--   Handles             src/benchmark_common.c and src/view_stock_txn.c: `databases_setup`,
--                       `databases_close`, `benchmark_end`, `open_environment`, `close_environment`,
--                       `benchmark_handle_alloc`, `benchmark_handle_free`
--   Initial             src/benchmark_initial_load.c: `benchmark_initial_load`, over Handles and Load
--   Populate            src/populate_portfolios.c: `benchmark_load_portfolio`
--   Stocks              src/benchmark_stocks.c: the list of stock symbols that the server shares out
--                       to its update threads
--   Cache               src/chronos_cache.c: `chronosCacheAlloc`, `createPortfolios` and
--                       `chronosClientCacheAlloc`, the reads; Cache/Client has those of a client's
--                       cache
--   Packets             src/chronos_packets.c: `chronosRequestCreate` and the four functions that
--                       pack; `chronosEnvCheck`, `chronosEnvCacheGet` and `chronosEnvAlloc` of
--                       src/chronos_environment.c
--   Client              src/chronos_client.c: `chronosClientConnect`, `chronosClientDisconnect`,
--                       `chronosClientSendRequest`, `chronosClientReceiveResponse`
--   Server              include/chronos_server.h and src/startup_server.c. Server/Sampling:
--                       `handler_sampling`. Server/Process: `processUserTransaction`,
--                       `processRefreshTransaction`. Server/Updates: the data items of `main` and
--                       `updateThread`. Server/Handler: `daHandler`. Server/Arguments:
--                       `processArguments`. Server/Listener: `daListener`. Server/Main: the start
--                       and the exit of `main`, over Handles and Initial. Server/Start is the context
--                       that `main` sets up, Server/Admission what all of these make of it over
--                       time, and Server/Exchange a client and the server together
--   Workload            src/startup_client.c: `userTransactionThread`, `pickTransactionType`, and
--                       `processArguments` in Workload/Arguments
--
-- How state is modelled. A critical section of the queue is one step from a queue to a reply and
-- a queue. A wait is a list of wakeups, each with the queue that the other threads have left.
-- Berkeley DB is the parameter `call` of a record with types for environment, transaction and
-- cursor; the laws describe one thread of transactions. Any call may fail at any time.
-- `float` is a type with the operations that the code uses. `rand` is the sequence of its results.
-- A loop round a system call takes the list of that call's results. `double` is a type with its
-- operations; what is proved of the sampling is for degrees that come out finite. The server's
-- context is passed from step to step; the steps of its threads do not interleave inside a step.
-- Packets are bytes by functions that are parameters.
--
-- Fuel. `get_portfolio` scans the secondary index until it ends; the model scans on fuel. The
-- theorems ask for as much fuel as the index has entries and the transaction has items, since each
-- item adds at most one entry. The exit of the server's `main` jumps back to its start; fuel for two
-- rounds is enough wherever it ends.
--
-- Not modelled: the timers of startup_server.c and the creation of threads in startup_client.c, the
-- variants startup_server_2.c and startup_client_2.c, the
-- functions that only print, and the transactions that pick their own random items. Logging,
-- allocation of local structures and the magic number of BENCHMARK_DBS are left out of the functions
-- that are modelled. So are the functions that free packets and caches.
pub mod Base
pub mod Cache
pub mod Client
pub mod Db
pub mod Handles
pub mod Initial
pub mod Load
pub mod Orders
pub mod Packets
pub mod Populate
pub mod Queue
pub mod Server
pub mod Stocks
pub mod Tables
pub mod Time
pub mod Views
pub mod Workload
pub mod Xact
