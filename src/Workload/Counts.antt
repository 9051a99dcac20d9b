-- ===== src/Workload/Counts.antt =====
-- Each counter of a client thread of src/startup_client.c, over its turns.
use chronos_prototype.Base.{
  ℕ, ◌+◌, ◌≡◌, Bool, true, false, not, Option, List, [], ◌∷◌, if◌then◌else◌,
}
use chronos_prototype.Packets.{TxnType, view_stock, view_portfolio, purchase, sale}
use chronos_prototype.Client
use chronos_prototype.Client.{Connection, send_request, receive_response}
use chronos_prototype.Workload.{
  ClientContext, ClientThread, ClientTurn, count_type, count_result, turn_type,
}

-- A transaction: its type, and whether the response says success.
abbrev pub Entry : Type 0
Entry = TxnType × Bool

abbrev pub is_view_stock : Entry → Bool
is_view_stock (view_stock, good) = true
is_view_stock _ = false

abbrev pub is_view_portfolio : Entry → Bool
is_view_portfolio (view_portfolio, good) = true
is_view_portfolio _ = false

abbrev pub is_purchase : Entry → Bool
is_purchase (purchase, good) = true
is_purchase _ = false

abbrev pub is_sale : Entry → Bool
is_sale (sale, good) = true
is_sale _ = false

-- How many entries pass the test.
abbrev pub count : (Entry → Bool) → List Entry → ℕ
count p [] = 0
count p (x ∷ xs) = if p x then count p xs + 1 else count p xs

-- From `t` to `t'` the counters have gone up by the entries of the log, each by its own.
pub record Adds (log : List Entry) (t t' : ClientThread) : Type 0 where
  pub view_stocks : t'.cnt_view_stock ≡ t.cnt_view_stock + count is_view_stock log
  pub view_portfolios : t'.cnt_view_portfolio ≡ t.cnt_view_portfolio + count is_view_portfolio log
  pub purchases : t'.cnt_view_purchase ≡ t.cnt_view_purchase + count is_purchase log
  pub sales : t'.cnt_view_sale ≡ t.cnt_view_sale + count is_sale log
  pub successes : t'.cnt_success ≡ t.cnt_success + count (λ x. x.1) log
  pub failures : t'.cnt_fail ≡ t.cnt_fail + count (λ x. not x.1) log
  pub transactions : t'.cnt_txns ≡ t.cnt_txns + count (λ x. true) log
  pub iterations : t'.load_iterations ≡ t.load_iterations + count (λ x. true) log

-- One transaction, as the turn makes it.
abbrev made : TxnType → Bool → ClientThread → ClientThread
made type good t =
    let t1 : ClientThread =
      count_type type (record t { load_iterations = t.load_iterations + 1 }) in
    count_result good (record t1 { cnt_txns = t1.cnt_txns + 1 })

-- Entries of the log, one for each turn from iteration `k` on: its type is that of the choice in this
-- iteration, and its result is read from the bytes that the turn received.
pub data Logged (c : ClientContext) (succeeded : List ℕ → Bool) (response_size : ℕ)
    : ℕ → List ClientTurn → List Entry → Type 0 where
  no_log : {k : ℕ} → Logged c succeeded response_size k [] []
  an_entry :
      {k : ℕ} {turn : ClientTurn} {turns : List ClientTurn} {log : List Entry} (t : ClientThread)
      (handle : Option Connection)
      → t.load_iterations ≡ k + 1
      → Logged c succeeded response_size (k + 1) turns log
      → Logged c succeeded response_size k (turn ∷ turns) (
          (
            turn_type c turn t,
            succeeded
                (receive_response response_size true turn.response_allocated handle turn.polls).1,
          )
          ∷ log)
