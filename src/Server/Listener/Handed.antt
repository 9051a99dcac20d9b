-- ===== src/Server/Listener/Handed.antt =====
-- The connections that `daListener` of src/startup_server.c accepts.
use chronos_prototype.Base.{
  ℕ, ◌≡◌, ◌⊎◌, inl, inr, refl, sym, ap, subst, if◌then◌else◌, Bool, true, false, ◌||◌, List, [],
  ◌∷◌, ◌++◌,
}
use chronos_prototype.Client.{Outcome, success, failed, waiting}
use chronos_prototype.Server.{Doubles}
use chronos_prototype.Server.Listener.{
  SetupCall, setup_calls, make_socket, Accept, would_block, accept_failed, connection, PollResult,
  poll_failed, timed_out, ready, Round, Listening, not_listening, when_ok, after_setup_call,
  call_setup, set_up, hand_over, accept_all, check_clock, after_poll, unless_dying, listen_loop,
  start_sampling, da_listener,
}

-- Each accepted socket has its handler, in the order in which they came.
abbrev pub Even : Listening → Type 0
Even st = (st.accepted ≡ st.handlers) × (st.sampling ≡ false)

-- All but the last one have.
abbrev pub OneShort : Listening → Type 0
OneShort st = ((fd : ℕ) × (st.accepted ≡ st.handlers ++ (fd ∷ []))) × (st.sampling ≡ false)

-- The listener by its end: it is time to die; it waits; it gave up.
pub data Heard : Outcome × Listening → Type 0 where
  over : {st : Listening} → Even st → st.time_to_die ≡ true → Heard (success, st)
  on : {st : Listening} → Even st → Heard (waiting, st)
  gave_up : {st : Listening} → Even st ⊎ OneShort st → Heard (failed, st)

-- A part of it that may end well at any time.
data Part : Outcome × Listening → Type 0 where
  done : {st : Listening} → Even st → Part (success, st)
  part_on : {st : Listening} → Even st → Part (waiting, st)
  part_failed : {st : Listening} → Even st ⊎ OneShort st → Part (failed, st)

Part-when_ok :
    {r : Outcome × Listening} (next : Listening → Outcome × Listening)
    → Part r
    → ((st : Listening) → Even st → Heard (next st))
    → Heard (when_ok r next)
Part-when_ok next (done e) k = k _ e
Part-when_ok next (part_on e) k = on e
Part-when_ok next (part_failed e) k = gave_up e

hand_over-Part :
    (fd : ℕ) (allocated spawned : Bool) (st : Listening) (next : Listening → Outcome × Listening)
    → Even st
    → ((st : Listening) → Even st → Part (next st))
    → Part (hand_over fd allocated spawned st next)
hand_over-Part fd true true st next (e, s) k = k _ (ap (λ (l : List ℕ). l ++ (fd ∷ [])) e, s)
hand_over-Part fd true false st next (e, s) k =
    part_failed (inr ((fd, ap (λ (l : List ℕ). l ++ (fd ∷ [])) e), s))
hand_over-Part fd false spawned st next (e, s) k =
    part_failed (inr ((fd, ap (λ (l : List ℕ). l ++ (fd ∷ [])) e), s))

accept_all-Part : (xs : List Accept) (st : Listening) → Even st → Part (accept_all xs st)
unfolding accept_all
accept_all-Part [] st e = part_on e
accept_all-Part (would_block ∷ xs) st e = done e
accept_all-Part (accept_failed ∷ xs) st e = part_failed (inl e)
accept_all-Part (connection fd allocated spawned ∷ xs) st e =
    hand_over-Part fd allocated spawned st (accept_all xs) e (λ st' e'. accept_all-Part xs st' e')

after_poll-Heard :
    (p : PollResult) (deadline : ℕ) (r : Round) (st : Listening)
    (next : Listening → Outcome × Listening)
    → Even st
    → ((st : Listening) → Even st → Heard (next st))
    → Heard (after_poll p deadline r st next)
after_poll-Heard poll_failed deadline r st next e k = gave_up (inl e)
after_poll-Heard timed_out deadline r st next e k = k st e
after_poll-Heard ready deadline r st next e k =
    Part-when_ok _ (accept_all-Part r.accepts st e)
      (λ st' e'. k (check_clock deadline r.now st') e')

unless_dying-Heard :
    (b : Bool) (st : Listening) (r : Outcome × Listening)
    → Even st
    → Heard r
    → Heard (unless_dying b st r)
unless_dying-Heard true st r e h = over e refl
unless_dying-Heard false st r e h = h

pub listen_loop-Heard :
    (deadline : ℕ) (rs : List Round) (st : Listening) → Even st → Heard (listen_loop deadline rs st)
unfolding listen_loop
listen_loop-Heard deadline [] st e = unless_dying-Heard st.time_to_die st (waiting, st) e (on e)
listen_loop-Heard deadline (r ∷ rs) st e = unless_dying-Heard (st.time_to_die || r.die) st _ e (
    after_poll-Heard r.poll deadline r st (listen_loop deadline rs) e
      (λ st' e'. listen_loop-Heard deadline rs st' e'))

after_setup_call-Even : (c : SetupCall) (st : Listening) → Even st → Even (after_setup_call c st)
after_setup_call-Even make_socket st e = e
after_setup_call-Even SetupCall.attr_init st e = e
after_setup_call-Even SetupCall.attr_stack st e = e
after_setup_call-Even SetupCall.attr_detach st e = e
after_setup_call-Even SetupCall.set_reuse st e = e
after_setup_call-Even SetupCall.set_nonblock st e = e
after_setup_call-Even SetupCall.bind_address st e = e
after_setup_call-Even SetupCall.start_listening st e = e

call_setup-Part : (b : Bool) (c : SetupCall) (st : Listening) → Even st → Part (call_setup b c st)
call_setup-Part true c st e = done (after_setup_call-Even c st e)
call_setup-Part false c st e = part_failed (inl e)

then-Part :
    {r : Outcome × Listening} (next : Listening → Outcome × Listening)
    → Part r
    → ((st : Listening) → Even st → Part (next st))
    → Part (when_ok r next)
then-Part next (done e) k = k _ e
then-Part next (part_on e) k = part_on e
then-Part next (part_failed e) k = part_failed e

set_up-Part :
    (sys : SetupCall → Bool) (cs : List SetupCall) (st : Listening)
    → Even st
    → Part (set_up sys cs st)
set_up-Part sys [] st e = done e
set_up-Part sys (c ∷ cs) st e =
    then-Part (set_up sys cs) (call_setup-Part (sys c) c st e) (λ st' e'. set_up-Part sys cs st' e')

-- The timer does not start.
start_sampling-Heard :
    (st : Listening) → Even st → st.time_to_die ≡ true → Heard (start_sampling st)
start_sampling-Heard st e die =
    subst Heard
      (ap (λ (b : Bool). (Outcome.success, if b then st else record st { sampling = true }))
        (sym die))
      (over e die)

Heard-when_ok : {r : Outcome × Listening} → Heard r → Heard (when_ok r start_sampling)
Heard-when_ok (over {st = st} e die) = start_sampling-Heard st e die
Heard-when_ok (on e) = on e
Heard-when_ok (gave_up e) = gave_up e

-- Whatever the calls give: the accepted sockets are handed to handler threads in their order, each to
-- one; only where the listener gives up, the last of them may have none. The sampling timer is never
-- started, and the listener ends otherwise only when it is time to die.
pub da_listener-Heard :
    {D : Type 0} (d : Doubles D) (sys : SetupCall → Bool) (duration_sec : D) (start : ℕ)
    (rounds : List Round)
    → Heard (da_listener d sys duration_sec start rounds)
unfolding da_listener
da_listener-Heard d sys duration_sec start rounds =
    Part-when_ok _ (set_up-Part sys setup_calls not_listening (refl, refl))
      (λ st e. Heard-when_ok (listen_loop-Heard _ rounds st e))
