-- ===== src/Queue/Tests.antt =====
-- Runs of the queue of src/chronos_queue.c, and the theorems about it on them.
use chronos_prototype.Base.{
  ℕ, ◌≡◌, ◌≢◌, ◌+◌, ◌&&◌, refl, true, false, none, some, List, [], ◌∷◌, ◌++◌, length, replicate,
  length-replicate, arith, if◌then◌else◌,
}
use chronos_prototype.Time.{zero_time}
use chronos_prototype.Queue.{
  TxnInfo, ChronosQueue, Wakeup, success, fail, blocked, fault, ready_queue_size,
  dequeue_transaction,
}
use chronos_prototype.Queue.Spec
use chronos_prototype.Queue.Spec.{Op, enqueue, dequeue, accepted, served, Numbered}
use chronos_prototype.Queue.Bounds.{IsValid, dequeue_transaction-IsValid}
use chronos_prototype.Queue.Refine.{contents}
use chronos_prototype.Queue.Fifo.{run, run_refines, run_tickets}
use chronos_prototype.Queue.Waiting.{dequeue_transaction_wakes}
use chronos_prototype.Queue.Api.{ServerQueues, enqueue_user_transaction, dequeue_user_transaction}
use chronos_prototype.Queue.Api.Roundtrip.{user_round_trip}

abbrev txn : ℕ → TxnInfo ℕ
txn n = record {
  txn_start = zero_time;
  txn_enqueue = zero_time;
  ticket = n;
  txn_done = none;
  txn_rc = none;
  request = n;
}

-- An array in which `n` transactions wait from index `out` on, with tickets up to `last`.
abbrev queue_at : ℕ → ℕ → ℕ → ℕ → ChronosQueue ℕ
queue_at out inn n last = record {
  txn_info_arr = replicate ready_queue_size (txn last);
  occupied = n;
  nextin = inn;
  nextout = out;
  ticket_req = last;
  ticket_done = 0;
}

abbrev empty_queue : ChronosQueue ℕ
empty_queue = queue_at 1023 1023 0 7

-- One transaction waits in the last slot of the array.
abbrev wrapped_queue : ChronosQueue ℕ
wrapped_queue = queue_at 1023 0 1 7

abbrev full_queue : ChronosQueue ℕ
full_queue = queue_at 5 5 1024 7

empty_queue-IsValid : IsValid empty_queue
empty_queue-IsValid = record {
  storage = length-replicate ready_queue_size (txn 7);
  room = omega arith;
  out_in = omega arith;
  in_at = refl;
}

wrapped_queue-IsValid : IsValid wrapped_queue
wrapped_queue-IsValid = record {
  storage = length-replicate ready_queue_size (txn 7);
  room = omega arith;
  out_in = omega arith;
  in_at = refl;
}

abbrev wakeup : ChronosQueue ℕ → Wakeup ℕ
wakeup q = record { queue = q; die = false }

abbrev ops : List (Op ℕ)
ops = enqueue (txn 20) ∷ dequeue ∷ enqueue (txn 21) ∷ dequeue ∷ dequeue ∷ dequeue ∷ []

abbrev queues : ServerQueues ℕ
queues = record { user_txn_queue = empty_queue; sys_txn_queue = empty_queue; time_to_die_fp = true }

run_refines_example :
    let (rs, q') = run true wrapped_queue ops in
    (rs, contents (txn 0) q') ≡ Spec.run 7 (contents (txn 0) wrapped_queue) ops
run_refines_example = run_refines (txn 0) true ops wrapped_queue wrapped_queue-IsValid (omega arith)

run_tickets_example :
    let (rs, q') = run true wrapped_queue ops in
    Numbered (7 + length (accepted rs)) (served rs ++ contents (txn 0) q')
run_tickets_example =
    run_tickets (txn 0) true ops wrapped_queue wrapped_queue-IsValid (omega arith) (refl, tt)

dequeue_transaction-IsValid_example :
    IsValid (dequeue_transaction true empty_queue (wakeup wrapped_queue ∷ [])).1
    × ((dequeue_transaction true empty_queue (wakeup wrapped_queue ∷ [])).0 ≢ fault)
dequeue_transaction-IsValid_example =
    dequeue_transaction-IsValid true empty_queue (wakeup wrapped_queue ∷ []) empty_queue-IsValid
      (wrapped_queue-IsValid, tt)

dequeue_transaction_wakes_example :
    ((dequeue_transaction true empty_queue (wakeup empty_queue ∷ [])).0 ≡ blocked)
    × (dequeue_transaction true empty_queue ((wakeup empty_queue ∷ []) ++ wakeup wrapped_queue ∷ [])
        ≡ (if true && false
            then (fail, wrapped_queue)
            else dequeue_transaction true wrapped_queue []))
dequeue_transaction_wakes_example =
    dequeue_transaction_wakes true empty_queue (wakeup empty_queue ∷ []) [] (wakeup wrapped_queue)
      refl (refl, refl, tt)

user_round_trip_example :
    (n : ℕ) × (c' : ServerQueues ℕ) × (enqueue_user_transaction
        (some 42)
        (some zero_time)
        true
        (some 1)
        (some 2)
        (some queues)
        []
      ≡ (success n, some c'))
    × ((dequeue_user_transaction true true (some c') []).0
        ≡ success (record {
          request = 42;
          enqueued = zero_time;
          ticket = n;
          txn_done = some 1;
          txn_rc = some 2;
        }))
    × (c'.sys_txn_queue ≡ queues.sys_txn_queue)
user_round_trip_example =
    user_round_trip 42 zero_time (some 1) (some 2) queues empty_queue-IsValid refl
