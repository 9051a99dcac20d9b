-- ===== src/Server/Listener/Tests.antt =====
-- The loop of `daListener` of src/startup_server.c on a few rounds.
use chronos_prototype.Base.{◌≡◌, refl, true, List, [], ◌∷◌, ◌++◌, map, all_nil, all_cons, arith}
use chronos_prototype.Client.{success, waiting}
use chronos_prototype.Server.Example.{tenths}
use chronos_prototype.Server.Listener.{not_listening, listen_loop, da_listener}
use chronos_prototype.Server.Listener.Handed.{Heard, da_listener-Heard}
use chronos_prototype.Server.Listener.Finishes.{
  Visit, idle, busy, round_of, sockets_of, handed, listen_loop_waits, listen_loop_finishes,
}

-- The deadline is 60, and the second round passes it without a connection.
abbrev quiet : List Visit
quiet = busy (4 ∷ 5 ∷ []) 10 ∷ idle 70 ∷ []

listen_loop_waits_example :
    listen_loop 60 (map round_of quiet) not_listening
    ≡ (waiting, handed (sockets_of quiet) not_listening)
listen_loop_waits_example =
    listen_loop_waits 60 quiet not_listening (all_cons (omega arith) (all_cons tt all_nil)) refl

listen_loop_finishes_example :
    listen_loop 60 (map round_of quiet ++ (round_of (busy (6 ∷ []) 71) ∷ [])) not_listening
    ≡ (success, record (handed (sockets_of quiet ++ (6 ∷ [])) not_listening) { time_to_die = true })
listen_loop_finishes_example =
    listen_loop_finishes 60 quiet (6 ∷ []) 71 [] not_listening
      (all_cons (omega arith) (all_cons tt all_nil)) (omega arith) refl

da_listener-Heard_example : Heard (da_listener tenths (λ c. true) 600 0 (map round_of quiet))
da_listener-Heard_example = da_listener-Heard tenths (λ c. true) 600 0 (map round_of quiet)
