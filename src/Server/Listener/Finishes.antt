-- ===== src/Server/Listener/Finishes.antt =====
-- When the loop of `daListener` of src/startup_server.c ends.
use chronos_prototype.Base.{
  ℕ, ◌≡◌, ◌<◌, ◌≤◌, sym, ◌∙◌, ap, true, false, ◌||◌, List, [], ◌∷◌, ◌++◌, map, append_assoc,
  append-nil, All, all_nil, all_cons, leb, if◌then◌else◌, arith,
}
use chronos_prototype.Client.{Outcome, success, waiting}
use chronos_prototype.Server.Listener.{
  Accept, would_block, connection, timed_out, ready, Round, Listening, when_ok, accept_all,
  check_clock, after_poll, unless_dying, listen_loop,
}

-- A round without a signal or a failure, with the clock after it: no connection comes, or these.
pub data Visit : Type 0 where
  idle : ℕ → Visit
  busy : List ℕ → ℕ → Visit

abbrev pub calm : List ℕ → List Accept
calm [] = would_block ∷ []
calm (fd ∷ fds) = connection fd true true ∷ calm fds

abbrev pub round_of : Visit → Round
round_of (idle now) = record { die = false; poll = timed_out; accepts = []; now = now }
round_of (busy fds now) = record { die = false; poll = ready; accepts = calm fds; now = now }

abbrev pub sockets_of : List Visit → List ℕ
sockets_of [] = []
sockets_of (idle now ∷ vs) = sockets_of vs
sockets_of (busy fds now ∷ vs) = fds ++ sockets_of vs

-- Where a connection comes, the clock is before the deadline.
abbrev pub IsEarly : ℕ → Visit → Type 0
IsEarly deadline (idle now) = Unit {0}
IsEarly deadline (busy fds now) = now < deadline

-- The listener after it has handed these sockets over.
abbrev pub handed : List ℕ → Listening → Listening
handed fds st = record st { accepted = st.accepted ++ fds; handlers = st.handlers ++ fds }

handed_nil : (st : Listening) → handed [] st ≡ st
handed_nil st =
    λ i. record st { accepted = append-nil st.accepted i; handlers = append-nil st.handlers i }

handed-append :
    (fds gds : List ℕ) (st : Listening) → handed gds (handed fds st) ≡ handed (fds ++ gds) st
handed-append fds gds st = λ i. record st {
  accepted = append_assoc st.accepted fds gds i;
  handlers = append_assoc st.handlers fds gds i;
}

accept_all-calm :
    (fds : List ℕ) (st : Listening) → accept_all (calm fds) st ≡ (success, handed fds st)
unfolding accept_all
accept_all-calm [] st = ap (λ (x : Listening). (Outcome.success, x)) (sym (handed_nil st))
accept_all-calm (fd ∷ fds) st =
    accept_all-calm fds (handed (fd ∷ []) st)
    ∙ ap (λ (x : Listening). (Outcome.success, x)) (handed-append (fd ∷ []) fds st)

-- One round.
busy_round :
    (deadline : ℕ) (fds : List ℕ) (now : ℕ) (rest : List Round) (st : Listening)
    → st.time_to_die ≡ false
    → listen_loop deadline (round_of (busy fds now) ∷ rest) st
      ≡ listen_loop deadline rest (check_clock deadline now (handed fds st))
unfolding listen_loop
busy_round deadline fds now rest st h =
    let next : Listening → Outcome × Listening =
      (λ x. listen_loop deadline rest (check_clock deadline now x)) in
    (λ i. unless_dying (h i || false) st (when_ok (accept_all (calm fds) st) next))
    ∙ ap (λ (r : Outcome × Listening). when_ok r next) (accept_all-calm fds st)

idle_round :
    (deadline now : ℕ) (rest : List Round) (st : Listening)
    → st.time_to_die ≡ false
    → listen_loop deadline (round_of (idle now) ∷ rest) st ≡ listen_loop deadline rest st
unfolding listen_loop
idle_round deadline now rest st h =
    λ i. unless_dying (h i || false) st (listen_loop deadline rest st)

clock_early :
    (deadline now : ℕ) (st : Listening)
    → now < deadline
    → st.time_to_die ≡ false
    → check_clock deadline now st ≡ st
clock_early deadline now st early h =
    let e : leb deadline now ≡ false = ground arith in
    λ i. record st { time_to_die = if e i then true else st.time_to_die }

early_rounds :
    (deadline : ℕ) (vs : List Visit) (rest : List Round) (st : Listening)
    → All (IsEarly deadline) vs
    → st.time_to_die ≡ false
    → listen_loop deadline (map round_of vs ++ rest) st
      ≡ listen_loop deadline rest (handed (sockets_of vs) st)
early_rounds deadline [] rest st all_nil h = ap (listen_loop deadline rest) (sym (handed_nil st))
early_rounds deadline (idle now ∷ vs) rest st (all_cons e es) h =
    idle_round deadline now (map round_of vs ++ rest) st h ∙ early_rounds deadline vs rest st es h
early_rounds deadline (busy fds now ∷ vs) rest st (all_cons e es) h =
    busy_round deadline fds now (map round_of vs ++ rest) st h
    ∙ ap (listen_loop deadline (map round_of vs ++ rest)) (clock_early deadline now _ e h)
    ∙ early_rounds deadline vs rest (handed fds st) es h
    ∙ ap (listen_loop deadline rest) (handed-append fds (sockets_of vs) st)

dying :
    (deadline : ℕ) (rest : List Round) (st : Listening)
    → st.time_to_die ≡ true
    → listen_loop deadline rest st ≡ (success, record st { time_to_die = true })
unfolding listen_loop
dying deadline [] st h = λ i. unless_dying (h i) st (waiting, st)
dying deadline (r ∷ rs) st h =
    λ i. unless_dying (h i || r.die) st (after_poll r.poll deadline r st (listen_loop deadline rs))

-- The listener waits on after rounds in which no connection comes at or after the deadline, whatever
-- the clock is in the idle ones. Every connection has been handed over, in order.
pub listen_loop_waits :
    (deadline : ℕ) (vs : List Visit) (st : Listening)
    → All (IsEarly deadline) vs
    → st.time_to_die ≡ false
    → listen_loop deadline (map round_of vs) st ≡ (waiting, handed (sockets_of vs) st)
unfolding listen_loop
listen_loop_waits deadline vs st es h =
    ap (λ (rs : List Round). listen_loop deadline rs st) (sym (append-nil (map round_of vs)))
    ∙ early_rounds deadline vs [] st es h
    ∙ (λ i. unless_dying (h i) (handed (sockets_of vs) st) (waiting, handed (sockets_of vs) st))

-- The first connections at or after the deadline end it: they and those before them are handed over,
-- in order, it is time to die, and nothing that comes later is looked at.
pub listen_loop_finishes :
    (deadline : ℕ) (vs : List Visit) (fds : List ℕ) (now : ℕ) (rest : List Round) (st : Listening)
    → All (IsEarly deadline) vs
    → deadline ≤ now
    → st.time_to_die ≡ false
    → listen_loop deadline (map round_of vs ++ (round_of (busy fds now) ∷ rest)) st
      ≡ (success, record (handed (sockets_of vs ++ fds) st) { time_to_die = true })
listen_loop_finishes deadline vs fds now rest st es late h =
    let e : leb deadline now ≡ true = ground arith in
    let st1 = handed (sockets_of vs) st in
    early_rounds deadline vs (round_of (busy fds now) ∷ rest) st es h
    ∙ busy_round deadline fds now rest st1 h
    ∙ dying deadline rest (check_clock deadline now (handed fds st1))
        (λ i. if e i then true else st.time_to_die)
    ∙ ap (λ (x : Listening). (Outcome.success, record x { time_to_die = true }))
        (handed-append (sockets_of vs) fds st)
