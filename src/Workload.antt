-- ===== src/Workload.antt =====
-- A client thread of src/startup_client.c: `pickTransactionType` and `userTransactionThread`, for a
-- thread with its context and a good connection handle. What the system calls of a turn return is an
-- argument.
pub mod Counts
pub mod Arguments
mod Tests
use chronos_prototype.Base.{
  ℕ, ◌+◌, ◌%◌, Bool, true, false, Option, none, some, List, [], ◌∷◌, ◌==◌, ltb, if◌then◌else◌, Text,
}
use chronos_prototype.Base.Int.{ℤ, pos, ltb_ℤ}
use chronos_prototype.Cache.{Ret, returned, crashed, ClientCache}
use chronos_prototype.Packets.{
  TxnType, view_stock, view_portfolio, purchase, sale, inval, RequestPacket, ChronosEnv, Prices,
  request_create,
}
use chronos_prototype.Client
use chronos_prototype.Client.{
  Connection, Network, Written, Attempt, client_connect, client_disconnect, send_request,
  receive_response,
}

-- The configuration of the threads: CHRONOS_ALL_TXN_AVAILABLE, and what the context holds.
pub record ClientContext : Type 0 where
  pub all_available : Bool
  pub percentage_view_stock : ℤ
  pub server_address : Text
  pub server_port : ℕ
  pub env : Option ChronosEnv

-- The handle and the counters of a thread.
pub record ClientThread : Type 0 where
  pub connection : Option Connection
  pub load_iterations : ℕ
  pub cnt_txns : ℕ
  pub cnt_view_stock : ℕ
  pub cnt_view_portfolio : ℕ
  pub cnt_view_purchase : ℕ
  pub cnt_view_sale : ℕ
  pub cnt_success : ℕ
  pub cnt_fail : ℕ

-- CHRONOS_CLIENT_LOAD_ITERATIONS
abbrev pub client_load_iterations : ℕ
client_load_iterations = 10

-- What the calls of a turn return: the connect, the `rand()` of the choice of a type and of the
-- request, the memory, the writes, the polls with their reads, and `time_to_die` at the end.
pub record ClientTurn : Type 0 where
  pub network : Network
  pub first_pick : ℕ
  pub second_pick : ℕ
  pub rand : ℕ → ℕ
  pub request_allocated : Bool
  pub writes : List Written
  pub response_allocated : Bool
  pub polls : List Attempt
  pub time_to_die : Bool

-- How a turn of the loop ends: another one follows; the thread leaves the loop; it waits in a call;
-- or it stops the program, by a failed assert or an access out of bounds.
pub data TurnEnd : Type 0 where
  goes_on left hangs : ClientThread → TurnEnd
  stops : TurnEnd

-- The types but the first, by `rand() % (CHRONOS_USER_TXN_MAX - 1)`.
pub other_type : ℕ → TxnType
other_type n = if n == 0 then view_portfolio else if n == 1 then purchase else sale

pub pick_transaction_type : ClientContext → ℕ → ℕ → TxnType
unfolding other_type
pick_transaction_type c first second =
    if c.all_available
    then if ltb_ℤ (pos (first % 100)) c.percentage_view_stock
      then view_stock
      else other_type (second % 3)
    else purchase

pub count_type : TxnType → ClientThread → ClientThread
count_type view_stock t = record t { cnt_view_stock = t.cnt_view_stock + 1 }
count_type view_portfolio t = record t { cnt_view_portfolio = t.cnt_view_portfolio + 1 }
count_type purchase t = record t { cnt_view_purchase = t.cnt_view_purchase + 1 }
count_type sale t = record t { cnt_view_sale = t.cnt_view_sale + 1 }
count_type inval t = t

pub count_result : Bool → ClientThread → ClientThread
count_result true t = record t { cnt_success = t.cnt_success + 1 }
count_result false t = record t { cnt_fail = t.cnt_fail + 1 }

-- The type of the turn: purchases while the system warms up.
pub turn_type : ClientContext → ClientTurn → ClientThread → TxnType
unfolding pick_transaction_type
turn_type c turn t =
    if ltb t.load_iterations client_load_iterations
    then purchase
    else pick_transaction_type c turn.first_pick turn.second_pick

-- A failed call leaves the loop.
abbrev pub after_call : Client.Outcome → ClientThread → TurnEnd → TurnEnd
after_call Client.success t next = next
after_call Client.failed t next = left t
after_call Client.waiting t next = hangs t
after_call Client.crashed t next = stops

-- The end of a turn: the disconnect, whose failure is only logged, and the test of `time_to_die`.
pub end_turn : ClientTurn → ClientThread → TurnEnd
end_turn turn t =
    let t' = record t { connection = (client_disconnect t.connection).1 } in
    if turn.time_to_die then left t' else goes_on t'

-- Another turn where the last one says so.
abbrev pub next_turn : TurnEnd → (ClientThread → TurnEnd) → TurnEnd
next_turn (goes_on t) next = next t
next_turn (left t) next = left t
next_turn (hangs t) next = hangs t
next_turn stops next = stops

module _ {F : Type 0} (pr : Prices F) (c : ClientContext) (cache : Option (ClientCache F))
    (encode : RequestPacket F → List ℕ) (succeeded : List ℕ → Bool) (response_size : ℕ) where
  -- `succeeded` reads the return code of a response as CHRONOS_SUCCESS.
  pub receive : ClientTurn → ClientThread → TurnEnd
  unfolding end_turn count_result
  receive turn t =
      let x = receive_response response_size true turn.response_allocated t.connection turn.polls in
      after_call x.0 t (end_turn turn (count_result (succeeded x.1) t))

  pub exchange : ClientTurn → ClientThread → RequestPacket F → TurnEnd
  unfolding receive
  exchange turn t p =
      after_call (send_request (some (encode p)) t.connection turn.writes).0 t
        (receive turn (record t { cnt_txns = t.cnt_txns + 1 }))

  -- The request of a turn; there may be none.
  pub with_request : ClientTurn → ClientThread → Ret (Option (RequestPacket F)) → TurnEnd
  unfolding exchange
  with_request turn t crashed = stops
  with_request turn t (returned none) = left t
  with_request turn t (returned (some p)) = exchange turn t p

  -- A turn from the connection on.
  pub issue : ClientTurn → ClientThread → TurnEnd
  unfolding with_request turn_type count_type
  issue turn t =
      let t1 = record t { load_iterations = t.load_iterations + 1 } in
      let type = turn_type c turn t1 in
      with_request turn (count_type type t1)
        (request_create pr turn.rand type cache c.env turn.request_allocated)

  pub client_turn : ClientTurn → ClientThread → TurnEnd
  unfolding issue
  client_turn turn t =
      let x = client_connect (some c.server_address) c.server_port none t.connection turn.network in
      let t' = record t { connection = x.1 } in after_call x.0 t' (issue turn t')

  -- The loop, over its turns.
  pub user_transaction_thread : List ClientTurn → ClientThread → TurnEnd
  unfolding client_turn
  user_transaction_thread [] t = goes_on t
  user_transaction_thread (turn ∷ turns) t =
      next_turn (client_turn turn t) (user_transaction_thread turns)
