-- ===== src/Client/Tests.antt =====
-- The theorems about src/chronos_client.c on a connection that goes through.
use chronos_prototype.Base.{
  ℕ, ◌≡◌, ◌↔◌, ◌≤◌, refl, true, false, some, List, [], ◌∷◌, ◌++◌, map, length, Text,
}
use chronos_prototype.Base.Int.{pos}
use chronos_prototype.Client.{
  connected, disconnected, Connection, success, Network, in_progress, timed_out, finished, wrote,
  ReadByte, byte, Attempt, attempt, polled_nothing, polled_ready, await_connect, establish,
  client_connect, conn_handle_alloc, send_request, receive_response,
}
use chronos_prototype.Client.Send.{Sent, Progress, send_request-Sent}
use chronos_prototype.Client.Receive.{Arrives, receive_response-Arrives}
use chronos_prototype.Client.States.{
  Reachable, allocated, connecting, HasSocket, Reachable-HasSocket,
}

abbrev host : Text
host = b'h' ∷ []

abbrev net : Network
net = record {
  socket = some 3;
  option_set = true;
  non_blocking = true;
  connecting = in_progress;
  turns = timed_out ∷ finished true ∷ [];
}

abbrev fresh : Connection
fresh = record {
  connection_name = [];
  server_address = [];
  server_port = 0;
  socket_fd = pos 0;
  state = disconnected;
}

abbrev open_connection : Connection
open_connection = record {
  connection_name = host;
  server_address = host;
  server_port = 5000;
  socket_fd = pos 3;
  state = connected;
}

open_connection-Reachable : Reachable (net ∷ []) open_connection
unfolding client_connect establish conn_handle_alloc await_connect
open_connection-Reachable =
    connecting {c = fresh} open_connection (some host) 5000 (some host) net (allocated fresh refl)
      refl

Reachable-HasSocket_example : HasSocket (net ∷ []) open_connection
Reachable-HasSocket_example =
    Reachable-HasSocket (net ∷ []) open_connection open_connection-Reachable

send_request-Sent_example :
    let (r, out) =
      send_request
        (some (1 ∷ 2 ∷ 3 ∷ []))
        (some open_connection)
        (wrote 2 ∷ wrote 1 ∷ wrote 1 ∷ []) in
    Sent r (1 ∷ 2 ∷ 3 ∷ []) out
    × (Progress (wrote 2 ∷ wrote 1 ∷ wrote 1 ∷ []) → 3 ≤ 3 → r ≡ success)
send_request-Sent_example =
    send_request-Sent (1 ∷ 2 ∷ 3 ∷ []) open_connection (wrote 2 ∷ wrote 1 ∷ wrote 1 ∷ []) refl

abbrev arriving : List Attempt
arriving =
    attempt false polled_nothing ∷ attempt false (polled_ready (byte 7 ∷ byte 8 ∷ byte 9 ∷ [])) ∷ []

abbrev answer : List ℕ
answer = 7 ∷ 8 ∷ []

receive_response-Arrives_example :
    (receive_response 2 true true (some open_connection) arriving ≡ (success, answer))
    ↔ ((length answer ≡ 2) × ((rest : List ReadByte) × Arrives (map byte answer ++ rest) arriving))
receive_response-Arrives_example = receive_response-Arrives 2 open_connection arriving answer refl
