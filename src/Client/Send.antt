-- ===== src/Client/Send.antt =====
-- `chronosClientSendRequest` of src/chronos_client.c: what goes out on the socket.
use chronos_prototype.Base.{
  ℕ, zero, suc, ◌≤◌, ◌≡◌, ◌≢◌, refl, ap, subst, ◌∙◌, true, some, List, [], ◌∷◌, ◌++◌, arith, length,
  take, append_assoc,
}
use chronos_prototype.Client.{
  Connection, Outcome, success, failed, waiting, crashed, Written, write_failed, wrote, drop,
  is_connected, send_loop, send_request,
}

-- What has gone out of `bs`: all of it on success, and a part from the front on otherwise.
abbrev pub Sent : Outcome → List ℕ → List ℕ → Type 0
Sent success bs out = out ≡ bs
Sent failed bs out = (rest : List ℕ) × (out ++ rest ≡ bs)
Sent waiting bs out = (rest : List ℕ) × (out ++ rest ≡ bs)
Sent crashed bs out = ⊥

take-drop : (n : ℕ) (bs : List ℕ) → take n bs ++ drop n bs ≡ bs
take-drop zero bs = refl
take-drop (suc n) [] = refl
take-drop (suc n) (b ∷ bs) = ap (λ x. b ∷ x) (take-drop n bs)

length-drop : (n : ℕ) (b : ℕ) (bs : List ℕ) → n ≢ 0 → length (drop n (b ∷ bs)) ≤ length bs
length-drop zero b bs h = absurd (h refl)
length-drop (suc n) b bs h = shorter n bs
  where
    shorter : (n : ℕ) (bs : List ℕ) → length (drop n bs) ≤ length bs
    shorter zero bs = omega arith
    shorter (suc n) [] = omega arith
    shorter (suc n) (c ∷ cs) = omega (arith, shorter n cs)

Sent-append : (o : Outcome) (xs bs out : List ℕ) → Sent o bs out → Sent o (xs ++ bs) (xs ++ out)
Sent-append success xs bs out h = ap (λ x. xs ++ x) h
Sent-append failed xs bs out (rest, h) = (rest, append_assoc xs out rest ∙ ap (λ x. xs ++ x) h)
Sent-append waiting xs bs out (rest, h) = (rest, append_assoc xs out rest ∙ ap (λ x. xs ++ x) h)
Sent-append crashed xs bs out h = h

send_loop-Sent : (bs : List ℕ) (ws : List Written) → Sent (send_loop bs ws).0 bs (send_loop bs ws).1
unfolding send_loop
send_loop-Sent [] ws = refl
send_loop-Sent (b ∷ bs) [] = (b ∷ bs, refl)
send_loop-Sent (b ∷ bs) (write_failed ∷ ws) = (b ∷ bs, refl)
send_loop-Sent (b ∷ bs) (wrote n ∷ ws) =
    let (r, out) = send_loop (drop n (b ∷ bs)) ws in
    subst (λ x. Sent r x (take n (b ∷ bs) ++ out)) (take-drop n (b ∷ bs))
      (Sent-append r (take n (b ∷ bs)) (drop n (b ∷ bs)) out (send_loop-Sent (drop n (b ∷ bs)) ws))

-- Every write takes at least one byte.
abbrev pub Progress : List Written → Type 0
Progress [] = Unit {0}
Progress (write_failed ∷ ws) = ⊥
Progress (wrote n ∷ ws) = (n ≢ 0) × Progress ws

send_loop-success :
    (bs : List ℕ) (ws : List Written)
    → Progress ws
    → length bs ≤ length ws
    → (send_loop bs ws).0 ≡ success
unfolding send_loop
send_loop-success [] ws p h = refl
send_loop-success (b ∷ bs) [] p h = absurd (omega arith)
send_loop-success (b ∷ bs) (write_failed ∷ ws) p h = elim p [ ]
send_loop-success (b ∷ bs) (wrote n ∷ ws) p h =
    send_loop-success (drop n (b ∷ bs)) ws p.1 (omega (arith, length-drop n b bs p.0))

pub send_loop-all :
    (bs : List ℕ) (ws : List Written)
    → Progress ws
    → length bs ≤ length ws
    → send_loop bs ws ≡ (success, bs)
send_loop-all bs ws p h =
    let done = send_loop-success bs ws p h in
    let out : (send_loop bs ws).1 ≡ bs =
      subst (λ o. Sent o bs (send_loop bs ws).1) done (send_loop-Sent bs ws) in
    ground (arith, done, out)

-- A send on a connected handle, through any partial writes: on success exactly the packet has gone
-- out, and else a part of it from the front. It succeeds if every write takes at least one byte and
-- there are as many as the packet has bytes.
pub send_request-Sent :
    (bs : List ℕ) (c : Connection) (ws : List Written)
    → is_connected c ≡ true
    → let (r, out) = send_request (some bs) (some c) ws in
      Sent r bs out × (Progress ws → length bs ≤ length ws → r ≡ success)
unfolding send_request
send_request-Sent bs c ws h = rw h (send_loop-Sent bs ws, send_loop-success bs ws)

pub send_request-all :
    (bs : List ℕ) (c : Connection) (ws : List Written)
    → is_connected c ≡ true
    → Progress ws
    → length bs ≤ length ws
    → send_request (some bs) (some c) ws ≡ (success, bs)
unfolding send_request
send_request-all bs c ws h p n = rw h (send_loop-all bs ws p n)
