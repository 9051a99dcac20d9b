-- ===== src/Server/Main/Started.antt =====
-- What the start of `main` of src/startup_server.c establishes.
use chronos_prototype.Base.{ℕ, ◌==◌, ◌||◌, ◌≡◌, refl, not, Bool, true, false, List, [], ◌∷◌}
use chronos_prototype.Handles.{Library}
use chronos_prototype.Server.Main.{
  Sync, user_mutex, sys_mutex, start_mutex, sys_more, sys_less, user_more, user_less, start_wait,
  user_ticket, sys_ticket, initialised_syncs, ServerState,
}

-- A number for each.
abbrev pub number_of : Sync → ℕ
number_of user_mutex = 0
number_of sys_mutex = 1
number_of start_mutex = 2
number_of sys_more = 3
number_of sys_less = 4
number_of user_more = 5
number_of user_less = 6
number_of start_wait = 7
number_of user_ticket = 8
number_of sys_ticket = 9

abbrev pub occurs : Sync → List Sync → Bool
occurs s [] = false
occurs s (s' ∷ ss) = (number_of s == number_of s') || occurs s ss

-- Is it for the tickets of a queue?
abbrev pub is_ticket : Sync → Bool
is_ticket user_ticket = true
is_ticket sys_ticket = true
is_ticket _ = false

-- Everything but the tickets is initialised, the threads are started, and all are joined.
abbrev pub Started : {lib : Library} → ℕ → ServerState lib → Type 0
Started n st =
    ((s : Sync) → occurs s st.ready ≡ not (is_ticket s))
    × (st.updaters ≡ n)
    × (st.listening ≡ true)
    × (st.joined ≡ true)

pub all_but_tickets : (s : Sync) → occurs s initialised_syncs ≡ not (is_ticket s)
all_but_tickets user_mutex = refl
all_but_tickets sys_mutex = refl
all_but_tickets start_mutex = refl
all_but_tickets sys_more = refl
all_but_tickets sys_less = refl
all_but_tickets user_more = refl
all_but_tickets user_less = refl
all_but_tickets start_wait = refl
all_but_tickets user_ticket = refl
all_but_tickets sys_ticket = refl
