-- ===== src/Queue/Fifo.antt =====
-- First come, first served: any interleaving of enqueues and dequeues of src/chronos_queue.c.
use chronos_prototype.Base.{
  ◌+◌, ◌^◌, ◌<◌, ◌≤◌, subst, sym, ◌∙◌, ◌≡◌, refl, ap, Bool, List, [], ◌∷◌, ◌++◌, arith, length,
}
use chronos_prototype.Queue.{TxnInfo, ChronosQueue, dequeue_transaction, enqueue_transaction}
use chronos_prototype.Queue.Spec
use chronos_prototype.Queue.Spec.{
  Op, enqueue, dequeue, Reply, ticketed, handed, accepted, served, Numbered, served-run, push-le,
}
use chronos_prototype.Queue.Bounds.{
  IsValid, dequeue_transaction-IsValid, enqueue_transaction-IsValid,
}
use chronos_prototype.Queue.Refine.{
  contents, dequeue_transaction-pop, enqueue_transaction-push, ticket_req-dequeue,
}

-- A sequence of calls that do not wait, each a critical section of one thread.
pub run : {R : Type 0} → Bool → ChronosQueue R → List (Op R) → List (Reply R) × ChronosQueue R
run fp q [] = ([], q)
run fp q (enqueue t ∷ ops) =
    let (r, q') = enqueue_transaction t fp q [] in
    let (rs, q'') = run fp q' ops in (ticketed t r ∷ rs, q'')
run fp q (dequeue ∷ ops) =
    let (r, q') = dequeue_transaction fp q [] in
    let (rs, q'') = run fp q' ops in (handed r ∷ rs, q'')

module _ {R : Type 0} (blank : TxnInfo R) (fp : Bool) where
  -- No sequence of calls tells a valid queue from the list of its contents, as long as the ticket
  -- counter has room for one ticket a call.
  pub run_refines :
      (ops : List (Op R)) (q : ChronosQueue R)
      → IsValid q
      → q.ticket_req + length ops < 2 ^ 64
      → let (rs, q') = run fp q ops in
        (rs, contents blank q') ≡ Spec.run q.ticket_req (contents blank q) ops
  unfolding run Spec.run
  run_refines [] q v h = refl
  run_refines (enqueue t ∷ ops) q v h =
      let q' = (enqueue_transaction t fp q []).1 in
      let p = enqueue_transaction-push blank t fp q v (omega arith) in
      let below : q'.ticket_req ≤ q.ticket_req + 1 =
        omega (arith, ap (λ x. x.1) p, push-le t q.ticket_req (contents blank q)) in
      rw (← p) (
        ap (λ x. (ticketed t (enqueue_transaction t fp q []).0 ∷ x.0, x.1))
          (run_refines ops q' (enqueue_transaction-IsValid t fp q [] v tt).0 (omega arith)))
  run_refines (dequeue ∷ ops) q v h =
      let q' = (dequeue_transaction fp q []).1 in
      let same = ticket_req-dequeue blank fp q in
      let r = (dequeue_transaction fp q []).0 in
      rw (← dequeue_transaction-pop blank fp q v) (
        ap (λ x. (handed r ∷ x.0, x.1))
          (run_refines ops q' (dequeue_transaction-IsValid fp q [] v tt).0 (omega arith)
            ∙ ap (λ n. Spec.run n (contents blank q') ops) same))

  -- From a valid queue, as long as the ticket counter has room for one ticket a call: what the calls
  -- hand out, followed by what is left, is what was there followed by what was accepted.
  pub run_fifo :
      (ops : List (Op R)) (q : ChronosQueue R)
      → IsValid q
      → q.ticket_req + length ops < 2 ^ 64
      → let (rs, q') = run fp q ops in
        served rs ++ contents blank q' ≡ contents blank q ++ accepted rs
  run_fifo ops q v h =
      let e = run_refines ops q v h in
      subst
        (λ (x : List (Reply R) × List (TxnInfo R)).
          served x.0 ++ x.1 ≡ contents blank q ++ accepted x.0)
        (sym e) (served-run ops q.ticket_req (contents blank q))

  -- From a valid queue with consecutive tickets up to the counter, as long as that has room for one
  -- ticket a call: what is handed out, followed by what is left, has consecutive tickets, up to the
  -- counter and one more for each transaction accepted.
  pub run_tickets :
      (ops : List (Op R)) (q : ChronosQueue R)
      → IsValid q
      → q.ticket_req + length ops < 2 ^ 64
      → Numbered q.ticket_req (contents blank q)
      → let (rs, q') = run fp q ops in
        Numbered (q.ticket_req + length (accepted rs)) (served rs ++ contents blank q')
  run_tickets ops q v h n =
      subst
        (λ (x : List (Reply R) × List (TxnInfo R)).
          Numbered (q.ticket_req + length (accepted x.0)) (served x.0 ++ x.1))
        (sym (run_refines ops q v h)) (Spec.run-Numbered ops q.ticket_req (contents blank q) n)
