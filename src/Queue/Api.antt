-- ===== src/Queue/Api.antt =====
-- src/chronos_queue.c: the four functions that the server calls, over the two queues of the server
-- context. The `Bool` arguments tell whether an out-pointer is not NULL.
pub mod Roundtrip
use chronos_prototype.Base.{ℕ, Bool, true, false, ◌&&◌, Option, none, some, List, if◌then◌else◌}
use chronos_prototype.Time.{ChronosTime, zero_time}
use chronos_prototype.Queue.{
  TxnInfo, ChronosQueue, Wakeup, Call, success, fail, blocked, fault, dequeue_transaction,
  enqueue_transaction,
}

-- The fields of `chronosServerContext_t` that these functions use. `time_to_die_fp` tells whether
-- the function pointer is set.
pub record ServerQueues (R : Type 0) : Type 0 where
  pub user_txn_queue : ChronosQueue R
  pub sys_txn_queue : ChronosQueue R
  pub time_to_die_fp : Bool

-- What a user transaction comes out with.
pub record UserTxn (R : Type 0) : Type 0 where
  pub request : R
  pub enqueued : ChronosTime
  pub ticket : ℕ
  pub txn_done : Option ℕ
  pub txn_rc : Option ℕ

abbrev pub map_call : {A B : Type 0} → (A → B) → Call A → Call B
map_call f (success a) = success (f a)
map_call f fail = fail
map_call f blocked = blocked
map_call f fault = fault

module _ {R : Type 0} where
  abbrev pub with_user : {A : Type 0} → ServerQueues R → A × ChronosQueue R → A × ServerQueues R
  with_user c r = (r.0, record c { user_txn_queue = r.1 })

  abbrev pub with_sys : {A : Type 0} → ServerQueues R → A × ChronosQueue R → A × ServerQueues R
  with_sys c r = (r.0, record c { sys_txn_queue = r.1 })

  abbrev pub user_txn : TxnInfo R → UserTxn R
  user_txn t = record {
    request = t.request;
    enqueued = t.txn_enqueue;
    ticket = t.ticket;
    txn_done = t.txn_done;
    txn_rc = t.txn_rc;
  }

  -- A transaction as `memset` and the assignments leave it; the queue sets the ticket.
  abbrev pub new_txn : R → ChronosTime → Option ℕ → Option ℕ → TxnInfo R
  new_txn r ts flag rc = record {
    txn_start = zero_time;
    txn_enqueue = ts;
    ticket = 0;
    txn_done = flag;
    txn_rc = rc;
    request = r;
  }

  -- The writes through the out-pointers.
  abbrev pub written : Bool → Call (UserTxn R) → Call (UserTxn R)
  written outs (success a) = if outs then success a else fault
  written outs fail = fail
  written outs blocked = blocked
  written outs fault = fault

  -- The context is returned as the call leaves it, `none` where the argument is NULL.
  pub dequeue_system_transaction :
      Bool
      → Bool
      → Option (ServerQueues R)
      → List (Wakeup R)
      → Call (R × ChronosTime) × Option (ServerQueues R)
  dequeue_system_transaction request_ret ts none ws = (fail, none)
  dequeue_system_transaction request_ret ts (some c) ws =
      if request_ret && ts
      then (let (r, c') = with_sys c (dequeue_transaction c.time_to_die_fp c.sys_txn_queue ws) in
          (map_call (λ t. (t.request, t.txn_enqueue)) r, some c'))
      else (fail, some c)

  pub enqueue_system_transaction :
      Option R
      → Option ChronosTime
      → Option (ServerQueues R)
      → List (Wakeup R)
      → Call (Unit {0}) × Option (ServerQueues R)
  enqueue_system_transaction request ts none ws = (fail, none)
  enqueue_system_transaction none ts (some c) ws = (fail, some c)
  enqueue_system_transaction (some r) none (some c) ws = (fail, some c)
  enqueue_system_transaction (some r) (some ts) (some c) ws =
      let (x, c') =
        with_sys c
          (enqueue_transaction (new_txn r ts none none) c.time_to_die_fp c.sys_txn_queue ws) in
      (map_call (λ _. tt) x, some c')

  -- Of its five out-pointers only `ts` is tested; `outs` tells whether the other four are not NULL.
  pub dequeue_user_transaction :
      Bool
      → Bool
      → Option (ServerQueues R)
      → List (Wakeup R)
      → Call (UserTxn R) × Option (ServerQueues R)
  dequeue_user_transaction outs ts none ws = (fail, none)
  dequeue_user_transaction outs ts (some c) ws =
      if ts
      then (let (r, c') = with_user c (dequeue_transaction c.time_to_die_fp c.user_txn_queue ws) in
          (written outs (map_call user_txn r), some c'))
      else (fail, some c)

  -- The request is not tested: `memcpy` reads through it.
  pub enqueue_user_transaction :
      Option R
      → Option ChronosTime
      → Bool
      → Option ℕ
      → Option ℕ
      → Option (ServerQueues R)
      → List (Wakeup R)
      → Call ℕ × Option (ServerQueues R)
  enqueue_user_transaction request ts ticket_ret flag rc none ws = (fail, none)
  enqueue_user_transaction request none ticket_ret flag rc (some c) ws = (fail, some c)
  enqueue_user_transaction request (some ts) false flag rc (some c) ws = (fail, some c)
  enqueue_user_transaction none (some ts) true flag rc (some c) ws = (fault, some c)
  enqueue_user_transaction (some r) (some ts) true flag rc (some c) ws =
      let (x, c') =
        with_user c
          (enqueue_transaction (new_txn r ts flag rc) c.time_to_die_fp c.user_txn_queue ws) in
      (x, some c')
