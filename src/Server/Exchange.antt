-- ===== src/Server/Exchange.antt =====
-- The client and the server together: a request of src/chronos_packets.c goes out by
-- src/chronos_client.c, is handled by `daHandler` of src/startup_server.c, and the response comes back.
use chronos_prototype.Base.{
  ℕ, ◌+◌, ◌≤◌, ◌≡◌, ◌≢◌, ◌⊎◌, inl, inr, ap, subst, ◌∙◌, sym, Bool, true, some, List, ◌++◌, map,
  arith, length, All-mono,
}
use chronos_prototype.Tables.{Floats}
use chronos_prototype.Time.{ChronosTime}
use chronos_prototype.Db
use chronos_prototype.Db.{BerkeleyDb, World}
use chronos_prototype.Db.Laws.{Laws}
use chronos_prototype.Cache.{returned, ChronosCache, ClientCache}
use chronos_prototype.Cache.Bounds.{Counted, ClientOf}
use chronos_prototype.Packets.{
  TxnType, inval, Item, RequestPacket, Prices, env_magic, request_create,
}
use chronos_prototype.Packets.Create.{
  Loaded, Asks, asks_view_stock, asks_view_portfolio, asks_purchase, asks_sale, request_create-Asks,
}
use chronos_prototype.Client.{
  Outcome, success, Connection, is_connected, Written, ReadByte, byte, Attempt, send_request,
  receive_response,
}
use chronos_prototype.Client.Send.{Progress, send_request-all}
use chronos_prototype.Client.Receive.{Arrives, receive_response-Arrives}
use chronos_prototype.Server.{Doubles, ServerContext}
use chronos_prototype.Server.Process.Served.{OfType, IsRequest, Serves}
use chronos_prototype.Server.Handler.{ResponsePacket, Look, stopped, da_handler}
use chronos_prototype.Server.Handler.Reply.{Brings, Admits, Responded, da_handler-Responded}

module _ {F : Type 0} (pr : Prices F) (price : F) (c : ChronosCache) where
  Asks-OfType : (t : TxnType) (x : Item F) → Asks pr price c t x → OfType t x
  Asks-OfType _ _ (asks_view_stock s) = tt
  Asks-OfType _ _ (asks_view_portfolio u) = tt
  Asks-OfType _ _ (asks_purchase u s n) = tt
  Asks-OfType _ _ (asks_sale u s n) = tt

  -- Whatever valid type of request a client with a good cache makes, the server can read it: its type
  -- passes the handler's assert, its items are of that type and fit the arrays they are copied to.
  pub request_create-IsRequest :
      (rand : ℕ → ℕ) (cc : ClientCache F) (t : TxnType) (c' : ChronosCache)
      → Counted c
      → ClientOf price c cc
      → Loaded c
      → t ≢ inval
      → (p : RequestPacket F) × (request_create pr rand t
            (some cc)
            (some (record { magic = env_magic; cache = some c' }))
            true
          ≡ returned (some p))
        × (p.txn_type ≡ t)
        × IsRequest p
  request_create-IsRequest rand cc t c' counted v loaded h =
      let (p, e, type_is, count, len, all) =
        request_create-Asks pr price rand c cc counted v loaded t c' h in
      (
        p,
        e,
        type_is,
        record {
          valid = λ bad. h (sym type_is ∙ bad);
          fits = omega (arith, count);
          there = omega (arith, count, len);
          typed = All-mono (λ x a. subst (λ k. OfType k x) (sym type_is) (Asks-OfType t x a)) all;
        },
      )

-- How packets lie in memory, which the compiler decides. A response is its bytes, of one size.
pub record Layout (F : Type 0) : Type 0 where
  pub encode_request : RequestPacket F → List ℕ
  pub decode_request : List ℕ → RequestPacket F
  pub encode_response : ResponsePacket → List ℕ
  pub decode_response : List ℕ → ResponsePacket
  pub response_size : ℕ
  pub decode-encode_response : (r : ResponsePacket) → decode_response (encode_response r) ≡ r
  pub length-encode_response : (r : ResponsePacket) → length (encode_response r) ≡ response_size

module _ {F D : Type 0} {db : BerkeleyDb F} (l : Laws db) (fl : Floats F) (d : Doubles D)
    (lay : Layout F) where
  -- A client on a connected handle sends a request that the server can read, and reads back from its
  -- bytes, by writes of at least one byte; the handler gets what went out, is admitted before it is told to die, and replies by such
  -- writes; what it sent arrives at the client. Then the client receives a response with the type of
  -- its request and a return code by which the committed tables are as the specification of the
  -- request says; or the server has stopped inside the transaction, and the tables are as before.
  pub da_handler-receive_response :
      (p : RequestPacket F) (c : Connection) (sent : List Written) (reads : List ReadByte)
      (looks : List Look) (replied : List Written) (ts : List Attempt) (sampling : Bool)
      (thread : ℕ) (begin end : ChronosTime) (fuel : ℕ) (s : ServerContext D) (w : World db)
      → IsRequest p
      → lay.decode_request (lay.encode_request p) ≡ p
      → is_connected c ≡ true
      → Progress sent
      → length (lay.encode_request p) ≤ length sent
      → Brings (send_request (some (lay.encode_request p)) (some c) sent).1 reads
      → Admits looks
      → Progress replied
      → lay.response_size ≤ length replied
      → l.records w.env + p.num_items ≤ fuel
      → let x =
          da_handler fl d db lay.decode_request lay.encode_response
            (length (lay.encode_request p))
            sampling
            thread
            begin
            end
            fuel
            reads
            looks
            replied
            s
            w in
        ((rest : List ReadByte) × Arrives (map byte x.1 ++ rest) ts)
        → ((rc : Bool) × ((receive_response lay.response_size true true (some c) ts).0 ≡ success)
            × (lay.decode_response (receive_response lay.response_size true true (some c) ts).1
                ≡ record { txn_type = p.txn_type; rc = rc })
            × Serves fl p.txn_type p.num_items p.items
                (Db.ok rc)
                (l.committed w.env)
                (l.committed x.3.env))
          ⊎ ((x.0 ≡ stopped) × (l.committed x.3.env ≡ l.committed w.env))
  da_handler-receive_response p c sent reads looks replied ts sampling thread begin end fuel s w r e
        on moved room brought admits progress fits enough (rest, arrives) =
      let bytes = lay.encode_request p in
      let x =
        da_handler fl d db lay.decode_request lay.encode_response (length bytes) sampling thread
          begin end fuel reads looks replied s w in
      let gone : (send_request (some bytes) (some c) sent).1 ≡ bytes =
        ap (λ (y : Outcome × List ℕ). y.1) (send_request-all bytes c sent on moved room) in
      let responded : Responded l fl lay.encode_response p (l.committed w.env) x =
        subst (λ q. Responded l fl lay.encode_response q (l.committed w.env) x) e
          (da_handler-Responded l fl d lay.decode_request lay.encode_response sampling thread begin
            end fuel bytes reads looks replied s w (subst (λ bs. Brings bs reads) gone brought)
            (subst IsRequest (sym e) r) admits progress
            (λ rc. omega (
              arith,
              fits,
              lay.length-encode_response
                  (record { txn_type = (lay.decode_request bytes).txn_type; rc = rc }),
            ))
            (subst (λ (q : RequestPacket F). l.records w.env + q.num_items ≤ fuel) (sym e)
              enough)) in
      elim responded [
        | inl (rc, ended, out, served) ↦
            let response : ResponsePacket = record { txn_type = p.txn_type; rc = rc } in
            let got : receive_response lay.response_size true true (some c) ts ≡ (success, x.1) =
              (receive_response-Arrives lay.response_size c ts x.1 on).1
                (ap length out ∙ lay.length-encode_response response, (rest, arrives)) in
            inl (
              rc,
              ap (λ (y : Outcome × List ℕ). y.0) got,
              ap (λ (y : Outcome × List ℕ). lay.decode_response y.1) got
                  ∙ ap lay.decode_response out
                  ∙ lay.decode-encode_response response,
              served,
            )
        | inr (ended, out, same) ↦ inr (ended, same)
      ]
