-- ===== src/Queue/Spec.antt =====
-- What a ready queue promises: a first-in first-out list of at most 1024 numbered transactions,
-- under any sequence of calls that do not wait. A call that has to wait is `blocked`, changes
-- nothing, and may be made again later, which is what a thread does when it wakes up.
use chronos_prototype.Base.{
  ℕ, ◌+◌, ◌≤◌, ◌≡◌, List, [], ◌∷◌, ◌++◌, arith, leb, if◌then◌else◌, length, length-append, subst₂,
  add-zero, append_assoc, append-nil, Bool-cases, inl, inr, ◌∙◌,
}
use chronos_prototype.Queue.{ready_queue_size, TxnInfo, Call, success, fail, blocked, fault}

pub data Op (R : Type 0) : Type 0 where
  enqueue : TxnInfo R → Op R
  dequeue : Op R

pub data Reply (R : Type 0) : Type 0 where
  ticketed : TxnInfo R → Call ℕ → Reply R
  handed : Call (TxnInfo R) → Reply R

module _ {R : Type 0} where
  unfoldable pub pop : List (TxnInfo R) → Call (TxnInfo R) × List (TxnInfo R)
  pop [] = (blocked, [])
  pop (x ∷ xs) = (success x, xs)

  -- The number is that of the last ticket.
  unfoldable pub push : TxnInfo R → ℕ → List (TxnInfo R) → Call ℕ × ℕ × List (TxnInfo R)
  push t last xs =
      if leb ready_queue_size (length xs)
      then (blocked, last, xs)
      else (success (last + 1), last + 1, xs ++ record t { ticket = last + 1 } ∷ [])

  unfoldable pub run : ℕ → List (TxnInfo R) → List (Op R) → List (Reply R) × List (TxnInfo R)
  run last xs [] = ([], xs)
  run last xs (enqueue t ∷ ops) =
      let (r, last', ys) = push t last xs in
      let (rs, zs) = run last' ys ops in (ticketed t r ∷ rs, zs)
  run last xs (dequeue ∷ ops) =
      let (r, ys) = pop xs in let (rs, zs) = run last ys ops in (handed r ∷ rs, zs)

  -- The transactions that replies accept, with their tickets, and those that they hand out.
  abbrev pub accepted : List (Reply R) → List (TxnInfo R)
  accepted [] = []
  accepted (ticketed t (success n) ∷ rs) = record t { ticket = n } ∷ accepted rs
  accepted (ticketed t fail ∷ rs) = accepted rs
  accepted (ticketed t blocked ∷ rs) = accepted rs
  accepted (ticketed t fault ∷ rs) = accepted rs
  accepted (handed r ∷ rs) = accepted rs

  abbrev pub served : List (Reply R) → List (TxnInfo R)
  served [] = []
  served (ticketed t r ∷ rs) = served rs
  served (handed (success t) ∷ rs) = t ∷ served rs
  served (handed fail ∷ rs) = served rs
  served (handed blocked ∷ rs) = served rs
  served (handed fault ∷ rs) = served rs

  pub push-le : (t : TxnInfo R) (last : ℕ) (xs : List (TxnInfo R)) → (push t last xs).1 ≤ last + 1
  unfolding push
  push-le t last xs = ground arith

  pub served-run :
      (ops : List (Op R)) (last : ℕ) (xs : List (TxnInfo R))
      → served (run last xs ops).0 ++ (run last xs ops).1 ≡ xs ++ accepted (run last xs ops).0
  unfolding run push pop
  served-run [] last xs = rw append-nil
  served-run (dequeue ∷ ops) last [] = served-run ops last []
  served-run (dequeue ∷ ops) last (x ∷ xs) = rw (served-run ops last xs)
  served-run (enqueue t ∷ ops) last xs = elim (Bool-cases (leb ready_queue_size (length xs))) [
    | inl full ↦ rw (full, push, run) (served-run ops last xs)
    | inr room ↦ rw (room, push, run) (served-run ops (last + 1) _ ∙ append_assoc xs _ _)
  ]

  -- Each ticket is one more than the one before, and the last is `last`.
  abbrev pub Numbered : ℕ → List (TxnInfo R) → Type 0
  Numbered last [] = Unit {0}
  Numbered last (x ∷ xs) = (x.ticket + length xs ≡ last) × Numbered last xs

  Numbered-snoc :
      (last : ℕ) (t : TxnInfo R) (xs : List (TxnInfo R))
      → Numbered last xs
      → Numbered (last + 1) (xs ++ record t { ticket = last + 1 } ∷ [])
  Numbered-snoc last t [] h = omega arith
  Numbered-snoc last t (x ∷ xs) h = (
    omega (arith, length-append xs (record t { ticket = last + 1 } ∷ [])),
    Numbered-snoc last t xs h.1,
  )

  Numbered-append-accepted :
      (ops : List (Op R)) (last : ℕ) (xs : List (TxnInfo R))
      → Numbered last xs
      → let acc = accepted (run last xs ops).0 in Numbered (last + length acc) (xs ++ acc)
  unfolding run push pop
  Numbered-append-accepted [] last xs h = rw (append-nil, add-zero) h
  Numbered-append-accepted (dequeue ∷ ops) last [] h = Numbered-append-accepted ops last [] h
  Numbered-append-accepted (dequeue ∷ ops) last (x ∷ xs) h =
      let acc = accepted (run last xs ops).0 in
      (omega (arith, length-append xs acc), Numbered-append-accepted ops last xs h.1)
  Numbered-append-accepted (enqueue t ∷ ops) last xs h =
      elim (Bool-cases (leb ready_queue_size (length xs))) [
        | inl full ↦ rw (full, push, run) (Numbered-append-accepted ops last xs h)
        | inr room ↦
            rw (room, push, run)
              (let xs' = xs ++ record t { ticket = last + 1 } ∷ [] in
                let acc = accepted (run (last + 1) xs' ops).0 in
                subst₂ Numbered (omega arith) (append_assoc xs _ _)
                  (Numbered-append-accepted ops (last + 1) xs' (Numbered-snoc last t xs h)))
      ]

  -- The tickets of what is handed out, and of what is left, rise by one each time.
  pub run-Numbered :
      (ops : List (Op R)) (last : ℕ) (xs : List (TxnInfo R))
      → Numbered last xs
      → let (rs, ys) = run last xs ops in Numbered (last + length (accepted rs)) (served rs ++ ys)
  run-Numbered ops last xs h = rw (served-run ops last xs) (Numbered-append-accepted ops last xs h)
