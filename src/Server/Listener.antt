-- ===== src/Server/Listener.antt =====
-- `daListener` of src/startup_server.c: the listening socket, and the loop that accepts connections and
-- starts a handler thread for each. The results of the system calls are lists, a round of the loop at
-- a time.
pub mod Handed
pub mod Finishes
mod Tests
use chronos_prototype.Base.{ℕ, Bool, true, false, ◌||◌, List, [], ◌∷◌, ◌++◌, leb, if◌then◌else◌}
use chronos_prototype.Base.Int.{pos}
use chronos_prototype.Client.{Outcome, success, failed, waiting, crashed}
use chronos_prototype.Server.{Doubles}

pub data SetupCall : Type 0 where
  attr_init attr_stack attr_detach make_socket set_reuse set_nonblock bind_address start_listening :
      SetupCall

abbrev pub setup_calls : List SetupCall
setup_calls =
    attr_init ∷ attr_stack ∷ attr_detach ∷ make_socket ∷ set_reuse ∷ set_nonblock ∷ bind_address
    ∷ start_listening ∷ []

-- `accept`: nothing is queued up (EWOULDBLOCK), another error, or a socket, with whether the memory for
-- its handler is there and whether the thread starts.
pub data Accept : Type 0 where
  would_block accept_failed : Accept
  connection : ℕ → Bool → Bool → Accept

pub data PollResult : Type 0 where
  poll_failed timed_out ready : PollResult

-- A turn of the loop: whether a signal has set `time_to_die`, the poll, what `accept` gives, and the
-- clock after that, in seconds.
pub record Round : Type 0 where
  pub die : Bool
  pub poll : PollResult
  pub accepts : List Accept
  pub now : ℕ

pub record Listening : Type 0 where
  pub socket_open : Bool
  -- the sockets that were accepted, and those that have a handler
  pub accepted : List ℕ
  pub handlers : List ℕ
  pub time_to_die : Bool
  pub sampling : Bool

abbrev pub not_listening : Listening
not_listening = record {
  socket_open = false;
  accepted = [];
  handlers = [];
  time_to_die = false;
  sampling = false;
}

abbrev pub after_setup_call : SetupCall → Listening → Listening
after_setup_call make_socket st = record st { socket_open = true }
after_setup_call _ st = st

abbrev pub when_ok : Outcome × Listening → (Listening → Outcome × Listening) → Outcome × Listening
when_ok (success, st) next = next st
when_ok (failed, st) next = (failed, st)
when_ok (waiting, st) next = (waiting, st)
when_ok (crashed, st) next = (crashed, st)

abbrev pub call_setup : Bool → SetupCall → Listening → Outcome × Listening
call_setup true c st = (success, after_setup_call c st)
call_setup false c st = (failed, st)

abbrev pub set_up : (SetupCall → Bool) → List SetupCall → Listening → Outcome × Listening
set_up sys [] st = (success, st)
set_up sys (c ∷ cs) st = when_ok (call_setup (sys c) c st) (set_up sys cs)

-- A socket without a handler is not closed.
abbrev pub hand_over :
    ℕ → Bool → Bool → Listening → (Listening → Outcome × Listening) → Outcome × Listening
hand_over fd true true st next =
    next (record st { accepted = st.accepted ++ (fd ∷ []); handlers = st.handlers ++ (fd ∷ []) })
hand_over fd _ _ st next = (failed, record st { accepted = st.accepted ++ (fd ∷ []) })

-- The inner loop: `success` when nothing is queued up.
unfoldable pub accept_all : List Accept → Listening → Outcome × Listening
accept_all [] st = (waiting, st)
accept_all (would_block ∷ xs) st = (success, st)
accept_all (accept_failed ∷ xs) st = (failed, st)
accept_all (connection fd allocated spawned ∷ xs) st =
    hand_over fd allocated spawned st (accept_all xs)

abbrev pub check_clock : ℕ → ℕ → Listening → Listening
check_clock deadline now st = record st {
  time_to_die = if leb deadline now then true else st.time_to_die;
}

-- A poll that times out goes round without a look at the clock.
abbrev pub after_poll :
    PollResult → ℕ → Round → Listening → (Listening → Outcome × Listening) → Outcome × Listening
after_poll poll_failed deadline r st next = (failed, st)
after_poll timed_out deadline r st next = next st
after_poll ready deadline r st next =
    when_ok (accept_all r.accepts st) (λ st. next (check_clock deadline r.now st))

abbrev pub unless_dying : Bool → Listening → Outcome × Listening → Outcome × Listening
unless_dying true st r = (success, record st { time_to_die = true })
unless_dying false st r = r

-- The outer loop: `success` when it is time to die.
unfoldable pub listen_loop : ℕ → List Round → Listening → Outcome × Listening
unfolding accept_all
listen_loop deadline [] st = unless_dying st.time_to_die st (waiting, st)
listen_loop deadline (r ∷ rs) st =
    let rest = listen_loop deadline rs in
    unless_dying (st.time_to_die || r.die) st (after_poll r.poll deadline r st rest)

-- What follows the loop: the sampling timer, unless it is time to die.
abbrev pub start_sampling : Listening → Outcome × Listening
start_sampling st = (success, if st.time_to_die then st else record st { sampling = true })

module _ {D : Type 0} (d : Doubles D) where
  -- `start` is the clock before the loop.
  pub da_listener : (SetupCall → Bool) → D → ℕ → List Round → Outcome × Listening
  unfolding listen_loop
  da_listener sys duration_sec start rounds =
      let deadline = d.to_nat (d.add (d.of_int (pos start)) duration_sec) in
      when_ok (set_up sys setup_calls not_listening)
        (λ st. when_ok (listen_loop deadline rounds st) start_sampling)
