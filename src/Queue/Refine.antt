-- ===== src/Queue/Refine.antt =====
-- The circular array of src/chronos_queue.c against the first-in first-out list of Queue/Spec.antt.
use chronos_prototype.Base.{
  ℕ, zero, suc, ◌+◌, ◌-◌, sym, ◌%◌, ◌^◌, ◌<◌, ◌≡◌, ◌≢◌, refl, ap, ap₂, ◌∙◌, Bool, List, [], ◌∷◌,
  ◌++◌, arith, length, get_or, set, get_elem?-eq-get_or, get_or-set_self, get_or-set_ne,
}
use chronos_prototype.Queue.{
  ready_queue_size, TxnInfo, ChronosQueue, take_out, put_in, next_ticket, wait_while, dequeue_after,
  enqueue_after, dequeue_transaction, enqueue_transaction,
}
use chronos_prototype.Queue.Spec
use chronos_prototype.Queue.Bounds.{IsValid}

-- `blank` is what an index outside the array would read: a valid queue has no such index.
module _ {R : Type 0} (blank : TxnInfo R) where
  -- The `n` entries from the `k`-th after index `h` on.
  abbrev pub entries : List (TxnInfo R) → ℕ → ℕ → ℕ → List (TxnInfo R)
  entries arr h k zero = []
  entries arr h k (suc n) = get_or arr ((h + k) % ready_queue_size) blank ∷ entries arr h (suc k) n

  -- The waiting transactions, oldest first.
  abbrev pub contents : ChronosQueue R → List (TxnInfo R)
  contents q = entries q.txn_info_arr q.nextout 0 q.occupied

  pub length-entries : (arr : List (TxnInfo R)) (h k n : ℕ) → length (entries arr h k n) ≡ n
  length-entries arr h k zero = refl
  length-entries arr h k (suc n) = ap suc (length-entries arr h (suc k) n)

  -- Counting from the next index is counting one further on.
  entries_shift :
      (arr : List (TxnInfo R)) (h k n : ℕ)
      → entries arr ((h + 1) % ready_queue_size) k n ≡ entries arr h (suc k) n
  entries_shift arr h k zero = refl
  entries_shift arr h k (suc n) =
      ap₂ ◌∷◌ (ap (λ i. get_or arr i blank) (omega arith)) (entries_shift arr h (suc k) n)

  entries-set :
      (arr : List (TxnInfo R)) (h k n i : ℕ) (t : TxnInfo R)
      → length arr ≡ ready_queue_size
      → h < ready_queue_size
      → k + n < ready_queue_size
      → i ≡ (h + (k + n)) % ready_queue_size
      → entries (set arr i t) h k (suc n) ≡ entries arr h k n ++ (t ∷ [])
  entries-set arr h k zero i t l hh hk e =
      ap (λ x. x ∷ [])
        (ap (λ j. get_or (set arr i t) j blank) (omega arith)
          ∙ get_or-set_self arr i t blank (omega arith))
  entries-set arr h k (suc n) i t l hh hk e =
      ap₂ ◌∷◌ (get_or-set_ne arr t blank (omega arith))
        (entries-set arr h (suc k) n i t l hh (omega arith) (omega arith))

  entries_pop :
      (arr : List (TxnInfo R)) (h n : ℕ)
      → h < ready_queue_size
      → n ≢ 0
      → entries arr h 0 n ≡ get_or arr h blank ∷ entries arr ((h + 1) % ready_queue_size) 0 (n - 1)
  entries_pop arr h zero hh p = absurd (p refl)
  entries_pop arr h (suc n) hh p = ap₂ ◌∷◌ (ap (λ i. get_or arr i blank) (omega arith)) (
      sym (entries_shift arr h 0 n) ∙ ap (entries arr ((h + 1) % ready_queue_size) 0) (omega arith))

  -- A dequeue that does not wait is the list's.
  pub dequeue_transaction-pop :
      (fp : Bool) (q : ChronosQueue R)
      → IsValid q
      → let (r, q') = dequeue_transaction fp q [] in (r, contents q') ≡ Spec.pop (contents q)
  unfolding dequeue_transaction wait_while dequeue_after take_out Spec.pop
  dequeue_transaction-pop fp q v = ground (
    arith,
    get_elem?-eq-get_or q.txn_info_arr q.nextout blank,
    entries_pop q.txn_info_arr q.nextout q.occupied,
  )

  pub enqueue_transaction-push :
      (t : TxnInfo R) (fp : Bool) (q : ChronosQueue R)
      → IsValid q
      → q.ticket_req + 1 < 2 ^ 64
      → let (r, q') = enqueue_transaction t fp q [] in
        (r, q'.ticket_req, contents q') ≡ Spec.push t q.ticket_req (contents q)
  unfolding enqueue_transaction wait_while enqueue_after put_in Spec.push
  enqueue_transaction-push t fp q v h = ground (
    arith,
    get_elem?-eq-get_or q.txn_info_arr q.nextin blank,
    length-entries q.txn_info_arr q.nextout 0 q.occupied,
    entries-set q.txn_info_arr q.nextout 0 q.occupied q.nextin
        (record t { ticket = next_ticket q }),
  )

  pub ticket_req-dequeue :
      (fp : Bool) (q : ChronosQueue R) → (dequeue_transaction fp q []).1.ticket_req ≡ q.ticket_req
  unfolding dequeue_transaction wait_while dequeue_after take_out
  ticket_req-dequeue fp q = ground arith
