-- ===== src/Client/Receive.antt =====
-- `chronosClientReceiveResponse` of src/chronos_client.c: which bytes make the response.
use chronos_prototype.Base.{
  ℕ, zero, suc, ◌≡◌, ◌↔◌, refl, ap, sym, subst, ◌∙◌, true, false, some, List, [], ◌∷◌, ◌++◌, map,
  arith, length,
}
use chronos_prototype.Client.{
  Connection, Outcome, success, is_connected, ReadByte, read_failed, socket_closed, byte,
  polled_error, polled_nothing, polled_ready, Attempt, attempt, read_loop, receive_loop,
  receive_response,
}

-- Nobody asks the thread to die, `poll` times out for a while, and then these reads follow.
pub data Arrives (rs : List ReadByte) : List Attempt → Type 0 where
  now : {ts : List Attempt} → Arrives rs (attempt false (polled_ready rs) ∷ ts)
  later : {ts : List Attempt} → Arrives rs ts → Arrives rs (attempt false polled_nothing ∷ ts)

read_loop-bytes :
    (bs : List ℕ) (rest : List ReadByte)
    → read_loop (length bs) (map byte bs ++ rest) ≡ (success, bs)
unfolding read_loop
read_loop-bytes [] rest = refl
read_loop-bytes (b ∷ bs) rest =
    ap (λ (x : Outcome × List ℕ). (x.0, b ∷ x.1)) (read_loop-bytes bs rest)

read_loop-length :
    (n : ℕ) (rs : List ReadByte)
    → (read_loop n rs).0 ≡ success
    → (length (read_loop n rs).1 ≡ n)
      × ((rest : List ReadByte) × (rs ≡ map byte (read_loop n rs).1 ++ rest))
unfolding read_loop
read_loop-length zero rs h = (refl, (rs, refl))
read_loop-length (suc n) [] h = absurd (ground arith)
read_loop-length (suc n) (read_failed ∷ rs) h = absurd (ground arith)
read_loop-length (suc n) (socket_closed ∷ rs) h = absurd (ground arith)
read_loop-length (suc n) (byte b ∷ rs) h =
    let (l, (rest, e)) = read_loop-length n rs h in (ap suc l, (rest, ap (λ x. byte b ∷ x) e))

receive_loop-bytes :
    (bs : List ℕ) (rest : List ReadByte) (ts : List Attempt)
    → Arrives (map byte bs ++ rest) ts
    → receive_loop (length bs) ts ≡ (success, bs)
unfolding receive_loop
receive_loop-bytes bs rest [] h = elim h [ ]
receive_loop-bytes bs rest (_ ∷ ts) now = read_loop-bytes bs rest
receive_loop-bytes bs rest (_ ∷ ts) (later h) = receive_loop-bytes bs rest ts h

receive_loop-Arrives :
    (n : ℕ) (ts : List Attempt)
    → (receive_loop n ts).0 ≡ success
    → (length (receive_loop n ts).1 ≡ n)
      × ((rest : List ReadByte) × Arrives (map byte (receive_loop n ts).1 ++ rest) ts)
unfolding receive_loop
receive_loop-Arrives n [] h = absurd (ground arith)
receive_loop-Arrives n (attempt true p ∷ ts) h = absurd (ground arith)
receive_loop-Arrives n (attempt false polled_error ∷ ts) h = absurd (ground arith)
receive_loop-Arrives n (attempt false polled_nothing ∷ ts) h =
    let (l, (rest, a)) = receive_loop-Arrives n ts h in (l, (rest, later a))
receive_loop-Arrives n (attempt false (polled_ready rs) ∷ ts) h =
    let (l, (rest, e)) = read_loop-length n rs h in
    (l, (rest, subst (λ x. Arrives x (attempt false (polled_ready rs) ∷ ts)) e now))

-- On a connected handle, with memory for the response: a receive succeeds with some bytes exactly if
-- they are as many as a response has, and arrive one by one after polls that only time out.
pub receive_response-Arrives :
    (size : ℕ) (c : Connection) (ts : List Attempt) (bs : List ℕ)
    → is_connected c ≡ true
    → (receive_response size true true (some c) ts ≡ (success, bs))
      ↔ ((length bs ≡ size) × ((rest : List ReadByte) × Arrives (map byte bs ++ rest) ts))
unfolding receive_response
receive_response-Arrives size c ts bs h = rw h (
  λ e.
      let (l, (rest, a)) = receive_loop-Arrives size ts (ap (λ x. x.0) e) in
      (
        sym (ap (λ x. length x.1) e) ∙ l,
        (rest, subst (λ x. Arrives (map byte x ++ rest) ts) (ap (λ x. x.1) e) a),
      ),
  λ (l, (rest, a)).
      subst (λ n. receive_loop n ts ≡ (success, bs)) l (receive_loop-bytes bs rest ts a),
)
