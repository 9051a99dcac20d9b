-- ===== src/Queue/Roundtrip.antt =====
-- src/chronos_queue.c: an enqueue on an empty queue, and the dequeue after it.
use chronos_prototype.Base.{◌≡◌, Bool, [], arith, get_elem?-ne-none, get_elem?-set_self}
use chronos_prototype.Queue.{
  TxnInfo, ChronosQueue, success, next_ticket, take_out, put_in, wait_while, dequeue_after,
  enqueue_after, dequeue_transaction, enqueue_transaction,
}
use chronos_prototype.Queue.Bounds.{IsValid}

module _ {R : Type 0} where
  -- On a queue with nothing in it, a dequeue right after an enqueue hands out that transaction.
  pub transaction_round_trip :
      (t : TxnInfo R) (fp : Bool) (q : ChronosQueue R)
      → IsValid q
      → q.occupied ≡ 0
      → let (r, q') = enqueue_transaction t fp q [] in
        let n = next_ticket q in
        (r ≡ success n) × ((dequeue_transaction fp q' []).0 ≡ success (record t { ticket = n }))
  unfolding enqueue_transaction dequeue_transaction wait_while dequeue_after enqueue_after take_out
      put_in
  transaction_round_trip t fp q v e = ground (
    arith,
    get_elem?-ne-none q.txn_info_arr q.nextin,
    get_elem?-set_self q.txn_info_arr q.nextin (record t { ticket = next_ticket q }),
  )
