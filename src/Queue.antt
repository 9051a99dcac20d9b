-- ===== src/Queue.antt =====
-- src/chronos_queue.c with the queue of include/chronos_server.h: the two ready queues, each a
-- circular array of 1024 transactions under one mutex. A request is a value of any type `R`.
-- Each function runs under the queue's mutex, so it is one step, but for the waits: there other
-- threads run. What they leave is the list of wakeups, one for each return of
-- `pthread_cond_timedwait`: the queue as found then, and the answer of `timeToDieFp`.
pub mod Spec
pub mod Api
pub mod Bounds
pub mod Refine
pub mod Fifo
pub mod Waiting
pub mod Roundtrip
mod Tests
use chronos_prototype.Base.{
  ℕ, ◌+◌, ◌-◌, ◌%◌, ◌^◌, Bool, ◌&&◌, Option, none, some, List, [], ◌∷◌, ◌==◌, leb, if◌then◌else◌,
  get_elem?, set,
}
use chronos_prototype.Time.{ChronosTime}

-- CHRONOS_READY_QUEUE_SIZE
abbrev pub ready_queue_size : ℕ
ready_queue_size = 1024

-- `txn_info_t`. A pointer is `none` where it is NULL.
pub record TxnInfo (R : Type 0) : Type 0 where
  pub txn_start : ChronosTime
  pub txn_enqueue : ChronosTime
  pub ticket : ℕ
  pub txn_done : Option ℕ
  pub txn_rc : Option ℕ
  pub request : R

-- `chronos_queue_t`, less the mutex and the condition variables.
pub record ChronosQueue (R : Type 0) : Type 0 where
  pub txn_info_arr : List (TxnInfo R)
  pub occupied : ℕ
  pub nextin : ℕ
  pub nextout : ℕ
  pub ticket_req : ℕ
  pub ticket_done : ℕ

pub record Wakeup (R : Type 0) : Type 0 where
  pub queue : ChronosQueue R
  pub die : Bool

-- What a call has come to: CHRONOS_SUCCESS with what it hands out, CHRONOS_FAIL, still waiting at
-- the end of the wakeups, or an access outside the array or through NULL.
pub data Call (A : Type 0) : Type 0 where
  success : A → Call A
  fail : Call A
  blocked : Call A
  fault : Call A

pub data Waited (R : Type 0) : Type 0 where
  ready : ChronosQueue R → Waited R
  asked_to_die : ChronosQueue R → Waited R
  still_waiting : ChronosQueue R → Waited R

-- `occupied <= 0`, `occupied >= CHRONOS_READY_QUEUE_SIZE`
abbrev pub is_empty : {R : Type 0} → ChronosQueue R → Bool
is_empty q = q.occupied == 0

abbrev pub is_full : {R : Type 0} → ChronosQueue R → Bool
is_full q = leb ready_queue_size q.occupied

module _ {R : Type 0} where
  -- The loop round `pthread_cond_timedwait`. `fp` tells whether `timeToDieFp` is set.
  pub wait_while : (ChronosQueue R → Bool) → Bool → ChronosQueue R → List (Wakeup R) → Waited R
  wait_while test fp q [] = if test q then still_waiting q else ready q
  wait_while test fp q (w ∷ ws) =
      let rest = wait_while test fp w.queue ws in
      if test q then (if fp && w.die then asked_to_die w.queue else rest) else ready q

  -- `dequeue`'s work once there is something to take
  pub take_out : ChronosQueue R → Call (TxnInfo R) × ChronosQueue R
  take_out q = elim (get_elem? q.txn_info_arr q.nextout) [
    | none ↦ (fault, q)
    | some t ↦ (
      success t,
      record q { nextout = (q.nextout + 1) % ready_queue_size; occupied = q.occupied - 1 },
    )
  ]

  abbrev pub next_ticket : ChronosQueue R → ℕ
  next_ticket q = (q.ticket_req + 1) % 2 ^ 64

  -- `enqueue`'s work once there is room
  pub put_in : TxnInfo R → ChronosQueue R → Call ℕ × ChronosQueue R
  put_in t q = elim (get_elem? q.txn_info_arr q.nextin) [
    | none ↦ (fault, q)
    | some _ ↦ (
      success (next_ticket q),
      record q {
        txn_info_arr = set q.txn_info_arr q.nextin (record t { ticket = next_ticket q });
        ticket_req = next_ticket q;
        nextin = (q.nextin + 1) % ready_queue_size;
        occupied = q.occupied + 1;
      },
    )
  ]

  -- What follows the wait of `chronos_dequeue_transaction`.
  pub dequeue_after : Waited R → Call (TxnInfo R) × ChronosQueue R
  dequeue_after (ready q) = take_out q
  dequeue_after (asked_to_die q) = (fail, q)
  dequeue_after (still_waiting q) = (blocked, q)

  -- What follows the wait of `chronos_enqueue_transaction`.
  pub enqueue_after : TxnInfo R → Waited R → Call ℕ × ChronosQueue R
  enqueue_after t (ready q) = put_in t q
  enqueue_after t (asked_to_die q) = (fail, q)
  enqueue_after t (still_waiting q) = (blocked, q)

  -- `chronos_dequeue_transaction`; its two callers pass addresses, which are not NULL.
  pub dequeue_transaction :
      Bool → ChronosQueue R → List (Wakeup R) → Call (TxnInfo R) × ChronosQueue R
  dequeue_transaction fp q ws = dequeue_after (wait_while is_empty fp q ws)

  -- `chronos_enqueue_transaction`; what it succeeds with is the ticket.
  pub enqueue_transaction :
      TxnInfo R → Bool → ChronosQueue R → List (Wakeup R) → Call ℕ × ChronosQueue R
  enqueue_transaction t fp q ws = enqueue_after t (wait_while is_full fp q ws)
