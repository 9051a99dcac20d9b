-- ===== src/Client.antt =====
-- src/chronos_client.c: the client's end of a connection. What the system calls return is given as
-- arguments; a loop round a call takes the list of its results, and is `waiting` where that ends.
pub mod Send
pub mod Receive
pub mod States
mod Tests
use chronos_prototype.Base.{
  ℕ, zero, suc, ◌-◌, Bool, true, false, Option, none, some, List, [], ◌∷◌, ◌++◌, ◌==◌, leb,
  if◌then◌else◌, take, length, Text,
}
use chronos_prototype.Base.Int.{ℤ, pos, negsuc}
use chronos_prototype.Base.Decimal.{decimal}

-- `chronosConnState_t`, less CHRONOS_CONNECTION_INVALID, which nothing sets.
pub data ConnState : Type 0 where
  connected disconnected : ConnState

-- `chronosClientConnection_t`, less the environment handle.
pub record Connection : Type 0 where
  pub connection_name : Text
  pub server_address : Text
  pub server_port : ℕ
  pub socket_fd : ℤ
  pub state : ConnState

-- What a call comes to. `crashed` is an access through NULL.
pub data Outcome : Type 0 where
  success failed waiting crashed : Outcome

abbrev pub is_connected : Connection → Bool
is_connected c = elim c.state [ connected ↦ true | disconnected ↦ false ]

-- `connect`
pub data Connect : Type 0 where
  at_once refused in_progress : Connect

-- A turn of the loop round `poll` for a connection in progress: `poll` fails or times out,
-- `getsockopt` fails, or it tells how the connection went.
pub data Turn : Type 0 where
  poll_failed timed_out no_result : Turn
  finished : Bool → Turn

unfoldable pub await_connect : List Turn → Outcome
await_connect [] = waiting
await_connect (poll_failed ∷ ts) = failed
await_connect (timed_out ∷ ts) = await_connect ts
await_connect (no_result ∷ ts) = failed
await_connect (finished good ∷ ts) = if good then success else failed

-- The socket, and the results of the calls on it in their order.
pub record Network : Type 0 where
  pub socket : Option ℕ
  pub option_set : Bool
  pub non_blocking : Bool
  pub connecting : Connect
  pub turns : List Turn

-- What becomes of the socket.
unfoldable pub establish : Network → Outcome
unfolding await_connect
establish net = elim net.socket [
  | none ↦ failed
  | some fd ↦
      if net.option_set
      then if net.non_blocking
        then elim net.connecting [
          | at_once ↦ success
          | refused ↦ failed
          | in_progress ↦ await_connect net.turns
        ]
        else failed
      else failed
]

abbrev pub fd_of : Option ℕ → ℤ
fd_of none = negsuc 0
fd_of (some fd) = pos fd

-- The failure path.
abbrev pub dropped : Connection → Connection
dropped c = record c { socket_fd = negsuc 0; state = disconnected }

-- The end of a connect: a connection that still waits is unchanged but for its names.
abbrev pub settle : Outcome → Option ℕ → Connection → Outcome × Connection
settle success fd c = (success, record c { socket_fd = fd_of fd; state = connected })
settle failed fd c = (failed, dropped c)
settle waiting fd c = (waiting, c)
settle crashed fd c = (crashed, c)

-- `strncpy` and `snprintf` into arrays of 256 bytes; the port is a number from 1 on.
abbrev pub named : Text → ℕ → Option Text → Connection → Connection
named address port none c = record c {
  connection_name = take 255 (address ++ b':' ∷ decimal port);
  server_address = take 256 address;
  server_port = port;
}
named address port (some name) c = record c {
  connection_name = take 256 name;
  server_address = take 256 address;
  server_port = port;
}

-- `chronosClientConnect`. On a NULL handle, and on bad arguments, the failure path writes through
-- the pointer before it is set.
unfoldable pub client_connect :
    Option Text → ℕ → Option Text → Option Connection → Network → Outcome × Option Connection
unfolding establish
client_connect address port name none net = (crashed, none)
client_connect none port name (some c) net = (crashed, some c)
client_connect (some address) port name (some c) net =
    if port == 0
    then (crashed, some c)
    else if is_connected c
    then (failed, some (dropped c))
    else (let (r, c') = settle (establish net) net.socket (named address port name c) in
        (r, some c'))

-- `chronosClientDisconnect`
unfoldable pub client_disconnect : Option Connection → Outcome × Option Connection
client_disconnect none = (failed, none)
client_disconnect (some c) =
    (success, some (if is_connected c then dropped c else record c { state = disconnected }))

-- `chronosConnHandleAlloc`, given whether `malloc` succeeds and whether the environment is good.
pub conn_handle_alloc : Bool → Bool → Option Connection
conn_handle_alloc false good = none
conn_handle_alloc true false = none
conn_handle_alloc true true = some (record {
  connection_name = [];
  server_address = [];
  server_port = 0;
  socket_fd = pos 0;
  state = disconnected;
})

-- `chronosConnHandleFree`: what is left of the handle, given whether the environment is good.
pub conn_handle_free : Bool → Option Connection → Outcome × Option Connection
conn_handle_free good none = (failed, none)
conn_handle_free good (some c) =
    if is_connected c then (failed, some c) else if good then (success, none) else (failed, some c)

-- `write`: an error, or how many bytes were taken.
pub data Written : Type 0 where
  write_failed : Written
  wrote : ℕ → Written

abbrev pub drop : ℕ → List ℕ → List ℕ
drop zero xs = xs
drop (suc n) [] = []
drop (suc n) (x ∷ xs) = drop n xs

-- The loop of `chronosClientSendRequest` over the bytes that are left, with those that go out.
unfoldable pub send_loop : List ℕ → List Written → Outcome × List ℕ
send_loop [] ws = (success, [])
send_loop (b ∷ bs) [] = (waiting, [])
send_loop (b ∷ bs) (write_failed ∷ ws) = (failed, [])
send_loop (b ∷ bs) (wrote n ∷ ws) =
    let (r, out) = send_loop (drop n (b ∷ bs)) ws in (r, take n (b ∷ bs) ++ out)

-- `chronosClientSendRequest` with the bytes of the packet.
unfoldable pub send_request : Option (List ℕ) → Option Connection → List Written → Outcome × List ℕ
unfolding send_loop
send_request packet none ws = (failed, [])
send_request none (some c) ws = (failed, [])
send_request (some bs) (some c) ws = if is_connected c then send_loop bs ws else (failed, [])

-- `read` of one byte.
pub data ReadByte : Type 0 where
  read_failed socket_closed : ReadByte
  byte : ℕ → ReadByte

-- A turn of the outer loop of `chronosClientReceiveResponse`: whether the thread is asked to die,
-- then `poll`, then the reads.
pub data Poll : Type 0 where
  polled_error polled_nothing : Poll
  polled_ready : List ReadByte → Poll

pub data Attempt : Type 0 where
  attempt : Bool → Poll → Attempt

-- The inner loop, with the number of bytes that are missing.
unfoldable pub read_loop : ℕ → List ReadByte → Outcome × List ℕ
read_loop zero rs = (success, [])
read_loop (suc n) [] = (waiting, [])
read_loop (suc n) (read_failed ∷ rs) = (failed, [])
read_loop (suc n) (socket_closed ∷ rs) = (failed, [])
read_loop (suc n) (byte b ∷ rs) = let (r, bs) = read_loop n rs in (r, b ∷ bs)

unfoldable pub receive_loop : ℕ → List Attempt → Outcome × List ℕ
unfolding read_loop
receive_loop size [] = (waiting, [])
receive_loop size (attempt die poll ∷ ts) =
    let rest = receive_loop size ts in
    if die then (failed, []) else elim poll [
      | polled_error ↦ (failed, [])
      | polled_nothing ↦ rest
      | polled_ready rs ↦ read_loop size rs
    ]

-- `chronosClientReceiveResponse`: the bytes of the response, of `size` bytes. `out` tells whether
-- the out-pointer is not NULL, `ok` whether the response can be allocated.
unfoldable pub receive_response :
    ℕ → Bool → Bool → Option Connection → List Attempt → Outcome × List ℕ
unfolding receive_loop
receive_response size out ok none ts = (failed, [])
receive_response size false ok (some c) ts = (failed, [])
receive_response size true ok (some c) ts =
    if is_connected c then (if ok then receive_loop size ts else (failed, [])) else (failed, [])
