-- ===== src/Queue/Bounds.antt =====
-- The representation invariant of `chronos_queue_t`: every index stays inside the array.
use chronos_prototype.Base.{
  ◌+◌, ◌%◌, ◌&&◌, ◌≢◌, ◌≤◌, ◌<◌, ◌≡◌, Bool, List, [], ◌∷◌, arith, Bool-cases, inl, inr, length,
  length-set, get_elem?-ne-none, true, false,
}
use chronos_prototype.Queue.{
  ready_queue_size, TxnInfo, ChronosQueue, Wakeup, fault, Waited, ready, asked_to_die,
  still_waiting, is_empty, is_full, wait_while, take_out, put_in, next_ticket, dequeue_after,
  enqueue_after, dequeue_transaction, enqueue_transaction,
}

pub record IsValid {R : Type 0} (q : ChronosQueue R) : Type 0 where
  pub storage : length q.txn_info_arr ≡ ready_queue_size
  pub room : q.occupied ≤ ready_queue_size
  pub out_in : q.nextout < ready_queue_size
  pub in_at : q.nextin ≡ (q.nextout + q.occupied) % ready_queue_size

-- Every queue that a wait finds is valid.
abbrev pub AllValid : {R : Type 0} → List (Wakeup R) → Type 0
AllValid [] = Unit {0}
AllValid (w ∷ ws) = IsValid w.queue × AllValid ws

module _ {R : Type 0} where
  -- What is known of the queue at which a wait stops.
  abbrev pub Stops : (ChronosQueue R → Bool) → Waited R → Type 0
  Stops test (ready q) = IsValid q × (test q ≡ false)
  Stops test (asked_to_die q) = IsValid q
  Stops test (still_waiting q) = IsValid q × (test q ≡ true)

  pub wait_while-Stops :
      (test : ChronosQueue R → Bool) (fp : Bool) (q : ChronosQueue R) (ws : List (Wakeup R))
      → IsValid q
      → AllValid ws
      → Stops test (wait_while test fp q ws)
  unfolding wait_while
  wait_while-Stops test fp q [] v vs = elim (Bool-cases (test q)) [
    | inl e ↦ rw e (v, e)
    | inr e ↦ rw e (v, e)
  ]
  wait_while-Stops test fp q (w ∷ ws) v vs = elim (Bool-cases (test q)) [
    | inr e ↦ rw e (v, e)
    | inl e ↦ elim (Bool-cases (fp && w.die)) [
      | inl d ↦ rw (e, d) (vs.0)
      | inr d ↦ rw (e, d) (wait_while-Stops test fp w.queue ws vs.0 vs.1)
    ]
  ]

  dequeue_after-IsValid :
      (r : Waited R)
      → Stops is_empty r
      → IsValid (dequeue_after r).1 × ((dequeue_after r).0 ≢ fault)
  unfolding dequeue_after take_out
  dequeue_after-IsValid (ready q) h = ground (arith, get_elem?-ne-none q.txn_info_arr q.nextout)
  dequeue_after-IsValid (asked_to_die q) h = ground arith
  dequeue_after-IsValid (still_waiting q) h = ground arith

  enqueue_after-IsValid :
      (t : TxnInfo R) (r : Waited R)
      → Stops is_full r
      → IsValid (enqueue_after t r).1 × ((enqueue_after t r).0 ≢ fault)
  unfolding enqueue_after put_in
  enqueue_after-IsValid t (ready q) h = ground (
    arith,
    get_elem?-ne-none q.txn_info_arr q.nextin,
    length-set q.txn_info_arr q.nextin (record t { ticket = next_ticket q }),
  )
  enqueue_after-IsValid t (asked_to_die q) h = ground arith
  enqueue_after-IsValid t (still_waiting q) h = ground arith

  -- A dequeue on a valid queue, while other threads leave valid queues behind, ends with a valid
  -- queue, and does not read outside the array.
  pub dequeue_transaction-IsValid :
      (fp : Bool) (q : ChronosQueue R) (ws : List (Wakeup R))
      → IsValid q
      → AllValid ws
      → IsValid (dequeue_transaction fp q ws).1 × ((dequeue_transaction fp q ws).0 ≢ fault)
  unfolding dequeue_transaction
  dequeue_transaction-IsValid fp q ws v vs =
      dequeue_after-IsValid _ (wait_while-Stops is_empty fp q ws v vs)

  -- An enqueue on a valid queue, while other threads leave valid queues behind, ends with a valid
  -- queue, and does not write outside the array.
  pub enqueue_transaction-IsValid :
      (t : TxnInfo R) (fp : Bool) (q : ChronosQueue R) (ws : List (Wakeup R))
      → IsValid q
      → AllValid ws
      → IsValid (enqueue_transaction t fp q ws).1 × ((enqueue_transaction t fp q ws).0 ≢ fault)
  unfolding enqueue_transaction
  enqueue_transaction-IsValid t fp q ws v vs =
      enqueue_after-IsValid t _ (wait_while-Stops is_full fp q ws v vs)
