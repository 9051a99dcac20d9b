-- ===== src/Queue/Waiting.antt =====
-- The waits of src/chronos_queue.c: what a call that has to wait does at each wakeup.
use chronos_prototype.Base.{
  ◌≡◌, ◌∙◌, ap, Bool, true, false, ◌&&◌, List, [], ◌∷◌, ◌++◌, arith, if◌then◌else◌,
}
use chronos_prototype.Queue.{
  TxnInfo, ChronosQueue, Wakeup, fail, blocked, Waited, asked_to_die, is_empty, is_full, wait_while,
  dequeue_after, enqueue_after, dequeue_transaction, enqueue_transaction,
}

-- Wakeups that leave a thread waiting: the test still holds, and nobody asks it to die.
abbrev pub Idle : {R : Type 0} → (ChronosQueue R → Bool) → Bool → List (Wakeup R) → Type 0
Idle test fp [] = Unit {0}
Idle test fp (w ∷ ws) = (test w.queue ≡ true) × ((fp && w.die) ≡ false) × Idle test fp ws

module _ {R : Type 0} (test : ChronosQueue R → Bool) (fp : Bool) where
  wait_while-append :
      (q : ChronosQueue R) (us ws : List (Wakeup R)) (w : Wakeup R)
      → test q ≡ true
      → Idle test fp us
      → wait_while test fp q (us ++ w ∷ ws)
        ≡ (if fp && w.die then asked_to_die w.queue else wait_while test fp w.queue ws)
  unfolding wait_while
  wait_while-append q [] ws w e i = rw e
  wait_while-append q (u ∷ us) ws w e i = rw (e, i.1) (wait_while-append u.queue us ws w i.0 i.2)

  wait_while-Idle :
      (q : ChronosQueue R) (us : List (Wakeup R))
      → test q ≡ true
      → Idle test fp us
      → (q' : ChronosQueue R) × (wait_while test fp q us ≡ Waited.still_waiting q')
  unfolding wait_while
  wait_while-Idle q [] e i = (q, rw e)
  wait_while-Idle q (u ∷ us) e i = rw (e, i.1) (wait_while-Idle u.queue us i.0 i.2)

module _ {R : Type 0} (fp : Bool) (q : ChronosQueue R) (us ws : List (Wakeup R))
    (w : Wakeup R) where
  -- A dequeue on an empty queue waits through every wakeup that finds it empty. At the next one it
  -- gives up if it is asked to die, even if there is something to take, and else goes on as a
  -- dequeue of the queue found there.
  pub dequeue_transaction_wakes :
      is_empty q ≡ true
      → Idle is_empty fp us
      → ((dequeue_transaction fp q us).0 ≡ blocked)
        × (dequeue_transaction fp q (us ++ w ∷ ws)
            ≡ (if fp && w.die then (fail, w.queue) else dequeue_transaction fp w.queue ws))
  unfolding dequeue_transaction dequeue_after
  dequeue_transaction_wakes e i = (
    ap (λ r. (dequeue_after r).0) (wait_while-Idle is_empty fp q us e i).1,
    ap (dequeue_after) (wait_while-append is_empty fp q us ws w e i) ∙ ground arith,
  )

  -- An enqueue on a full queue waits in the same way.
  pub enqueue_transaction_wakes :
      (t : TxnInfo R)
      → is_full q ≡ true
      → Idle is_full fp us
      → ((enqueue_transaction t fp q us).0 ≡ blocked)
        × (enqueue_transaction t fp q (us ++ w ∷ ws)
            ≡ (if fp && w.die then (fail, w.queue) else enqueue_transaction t fp w.queue ws))
  unfolding enqueue_transaction enqueue_after
  enqueue_transaction_wakes t e i = (
    ap (λ r. (enqueue_after t r).0) (wait_while-Idle is_full fp q us e i).1,
    ap (enqueue_after t) (wait_while-append is_full fp q us ws w e i) ∙ ground arith,
  )
