-- ===== src/Server/Handler.antt =====
-- `daHandler` of src/startup_server.c with `dispatchTableFn`, which only passes on what
-- `processUserTransaction` returns: one connection, from its first byte to its close, for a thread
-- with its context.
pub mod Reply
use chronos_prototype.Base.{ℕ, zero, suc, Bool, true, false, if◌then◌else◌, List, [], ◌∷◌}
use chronos_prototype.Base.Int.{ℤ, pos, ltb_ℤ}
use chronos_prototype.Tables.{Floats}
use chronos_prototype.Time.{ChronosTime}
use chronos_prototype.Db
use chronos_prototype.Db.{BerkeleyDb, World}
use chronos_prototype.Packets.{TxnType, inval, RequestPacket}
use chronos_prototype.Client.{
  Outcome, success, failed, waiting, crashed, Written, ReadByte, read_failed, socket_closed, byte,
  send_loop,
}
use chronos_prototype.Server.{Doubles, ServerContext}
use chronos_prototype.Server.Process.{process_user_transaction}

-- `chronosResponsePacket_t`: the return code is whether it is CHRONOS_SUCCESS.
pub record ResponsePacket : Type 0 where
  pub txn_type : TxnType
  pub rc : Bool

-- The loop that reads the request, with the number of bytes that are missing. A `read` that returns 0
-- is one that read nothing: the loop goes on. `waiting` is its state after the reads of the list.
pub handler_read : ℕ → List ReadByte → Outcome × List ℕ
handler_read zero rs = (success, [])
handler_read (suc n) [] = (waiting, [])
handler_read (suc n) (read_failed ∷ rs) = (failed, [])
handler_read (suc n) (socket_closed ∷ rs) = handler_read (suc n) rs
handler_read (suc n) (byte b ∷ rs) = let (r, bs) = handler_read n rs in (r, b ∷ bs)

-- What the admission loop sees in a turn: `num_txn_to_wait`, and then `time_to_die`.
pub record Look : Type 0 where
  pub to_wait : ℤ
  pub time_to_die : Bool

-- The loop of the admission control: `success` lets the request in, `failed` ends the handler.
pub wait_admission : List Look → Outcome
wait_admission [] = waiting
wait_admission (x ∷ xs) =
    let rest = wait_admission xs in
    if ltb_ℤ (pos 0) x.to_wait then (if x.time_to_die then failed else rest) else success

-- How a handler ends: it closes its socket; it is still waiting in one of its loops; the server stops
-- at a failed assert or an access out of bounds; or the model is out of fuel.
pub data End : Type 0 where
  closed stuck stopped starved : End

abbrev pub end_of : Outcome → End
end_of success = closed
end_of failed = closed
end_of waiting = stuck
end_of crashed = stopped

-- The handler goes on after a loop that ends well, and is else at its end.
abbrev pub on_success :
    {S W : Type 0} → Outcome → S → W → End × List ℕ × S × W → End × List ℕ × S × W
on_success success s w next = next
on_success failed s w next = (closed, [], s, w)
on_success waiting s w next = (stuck, [], s, w)
on_success crashed s w next = (stopped, [], s, w)

abbrev pub is_inval : TxnType → Bool
is_inval inval = true
is_inval _ = false

module _ {F D : Type 0} (fl : Floats F) (d : Doubles D) (db : BerkeleyDb F)
    (decode : List ℕ → RequestPacket F) (encode : ResponsePacket → List ℕ) where
  -- The reply to a processed request: how the handler ends, and what goes out.
  pub send_reply :
      TxnType
      → List Written
      → Db.Outcome Bool × ServerContext D × World db
      → End × List ℕ × ServerContext D × World db
  send_reply t ws (Db.ok rc, s, w) =
      let (o, out) = send_loop (encode (record { txn_type = t; rc = rc })) ws in
      (end_of o, out, s, w)
  send_reply t ws (Db.fail, s, w) = (closed, [], s, w)
  send_reply t ws (Db.crash, s, w) = (stopped, [], s, w)
  send_reply t ws (Db.out_of_fuel, s, w) = (starved, [], s, w)

  -- From the bytes of a whole request on.
  pub handle_packet :
      Bool
      → ℕ
      → ChronosTime
      → ChronosTime
      → ℕ
      → List ℕ
      → List Look
      → List Written
      → ServerContext D
      → World db
      → End × List ℕ × ServerContext D × World db
  unfolding send_reply
  handle_packet sampling thread begin end fuel bytes looks ws s w =
      let p = decode bytes in
      if is_inval p.txn_type
      then (stopped, [], s, w)
      else on_success (wait_admission looks) s w (
          send_reply p.txn_type ws
            (process_user_transaction fl d db sampling thread begin end fuel p s w))

  -- `size` is `sizeof(chronosRequestPacket_t)`.
  pub da_handler :
      ℕ
      → Bool
      → ℕ
      → ChronosTime
      → ChronosTime
      → ℕ
      → List ReadByte
      → List Look
      → List Written
      → ServerContext D
      → World db
      → End × List ℕ × ServerContext D × World db
  unfolding handler_read wait_admission handle_packet
  da_handler size sampling thread begin end fuel reads looks ws s w =
      let x = handler_read size reads in
      on_success x.0 s w (handle_packet sampling thread begin end fuel x.1 looks ws s w)
