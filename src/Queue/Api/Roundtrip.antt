-- ===== src/Queue/Api/Roundtrip.antt =====
-- src/chronos_queue.c, the server's calls: what goes into a queue comes out of it.
use chronos_prototype.Base.{ℕ, ◌≡◌, refl, true, Option, none, some, [], arith}
use chronos_prototype.Time.{ChronosTime}
use chronos_prototype.Queue.{success, next_ticket, enqueue_transaction}
use chronos_prototype.Queue.Roundtrip.{transaction_round_trip}
use chronos_prototype.Queue.Bounds.{IsValid}
use chronos_prototype.Queue.Api.{
  ServerQueues, new_txn, enqueue_user_transaction, dequeue_user_transaction,
  enqueue_system_transaction, dequeue_system_transaction,
}

module _ {R : Type 0} where
  -- A user transaction put into an empty valid user queue is the one taken out next: its request, its time,
  -- its two pointers, and the ticket that the enqueue returned. The system queue is untouched.
  pub user_round_trip :
      (r : R) (ts : ChronosTime) (flag rc : Option ℕ) (c : ServerQueues R)
      → IsValid c.user_txn_queue
      → c.user_txn_queue.occupied ≡ 0
      → (n : ℕ) × (c' : ServerQueues R) × (enqueue_user_transaction
            (some r)
            (some ts)
            true
            flag
            rc
            (some c)
            []
          ≡ (success n, some c'))
        × ((dequeue_user_transaction true true (some c') []).0
            ≡ success
                (record { request = r; enqueued = ts; ticket = n; txn_done = flag; txn_rc = rc }))
        × (c'.sys_txn_queue ≡ c.sys_txn_queue)
  unfolding enqueue_user_transaction dequeue_user_transaction
  user_round_trip r ts flag rc c v e =
      let p = transaction_round_trip (new_txn r ts flag rc) c.time_to_die_fp c.user_txn_queue v e in
      (
        next_ticket c.user_txn_queue,
        record c {
          user_txn_queue =
              (enqueue_transaction (new_txn r ts flag rc) c.time_to_die_fp c.user_txn_queue []).1;
        },
        ground (arith, p),
        ground (arith, p),
        refl,
      )

  -- A system transaction put into an empty valid system queue is the one taken out next, with its
  -- time. The user queue is untouched.
  pub system_round_trip :
      (r : R) (ts : ChronosTime) (c : ServerQueues R)
      → IsValid c.sys_txn_queue
      → c.sys_txn_queue.occupied ≡ 0
      → (c' : ServerQueues R) × (enqueue_system_transaction (some r) (some ts) (some c) []
          ≡ (success tt, some c'))
        × ((dequeue_system_transaction true true (some c') []).0 ≡ success (r, ts))
        × (c'.user_txn_queue ≡ c.user_txn_queue)
  unfolding enqueue_system_transaction dequeue_system_transaction
  system_round_trip r ts c v e =
      let p =
        transaction_round_trip (new_txn r ts none none) c.time_to_die_fp c.sys_txn_queue v e in
      (
        record c {
          sys_txn_queue =
              (enqueue_transaction (new_txn r ts none none) c.time_to_die_fp c.sys_txn_queue []).1;
        },
        ground (arith, p),
        ground (arith, p),
        refl,
      )
