-- ===== src/Server/Handler/Reply.antt =====
-- What a client gets back from `daHandler` of src/startup_server.c.
use chronos_prototype.Base.{
  ℕ, ◌+◌, ◌≤◌, ◌≡◌, ◌≢◌, ◌⊎◌, inl, inr, refl, ap, subst, ◌∙◌, sym, Bool, false, Bool-cases, List,
  [], ◌∷◌, length,
}
use chronos_prototype.Base.Int.{pos, ltb_ℤ}
use chronos_prototype.Tables.{Floats, Tables}
use chronos_prototype.Time.{ChronosTime}
use chronos_prototype.Db
use chronos_prototype.Db.{BerkeleyDb, World}
use chronos_prototype.Db.Laws.{Laws}
use chronos_prototype.Packets.{
  TxnType, view_stock, view_portfolio, purchase, sale, inval, Item, RequestPacket,
}
use chronos_prototype.Client.{Outcome, success, Written, ReadByte, socket_closed, byte}
use chronos_prototype.Client.Send.{Progress, send_loop-all}
use chronos_prototype.Server.{Doubles, ServerContext}
use chronos_prototype.Server.Process.{process_user_transaction}
use chronos_prototype.Server.Process.Served.{IsRequest, Serves, process_user_transaction-Serves}
use chronos_prototype.Server.Handler.{
  ResponsePacket, handler_read, Look, wait_admission, End, closed, stopped, is_inval, on_success,
  end_of, send_reply, handle_packet, da_handler,
}

-- The reads bring these bytes, with any reads of nothing between them.
pub data Brings : List ℕ → List ReadByte → Type 0 where
  all_brought : {rs : List ReadByte} → Brings [] rs
  byte_brought :
      {b : ℕ} {bs : List ℕ} {rs : List ReadByte} → Brings bs rs → Brings (b ∷ bs) (byte b ∷ rs)
  nothing_brought :
      {bs : List ℕ} {rs : List ReadByte} → Brings bs rs → Brings bs (socket_closed ∷ rs)

handler_read-Brings :
    (bs : List ℕ) (rs : List ReadByte) → Brings bs rs → handler_read (length bs) rs ≡ (success, bs)
unfolding handler_read
handler_read-Brings _ _ all_brought = refl
handler_read-Brings _ _ (byte_brought {b} {bs} {rs} h) =
    ap (λ (x : Outcome × List ℕ). (x.0, b ∷ x.1)) (handler_read-Brings bs rs h)
handler_read-Brings [] _ (nothing_brought h) = refl
handler_read-Brings (b ∷ bs) _ (nothing_brought {rs = rs} h) = handler_read-Brings (b ∷ bs) rs h

-- The handler is not told to die before nothing is to wait for.
pub data Admits : List Look → Type 0 where
  free : {x : Look} {xs : List Look} → ltb_ℤ (pos 0) x.to_wait ≡ false → Admits (x ∷ xs)
  busy : {x : Look} {xs : List Look} → x.time_to_die ≡ false → Admits xs → Admits (x ∷ xs)

wait_admission-Admits : (xs : List Look) → Admits xs → wait_admission xs ≡ success
unfolding wait_admission
wait_admission-Admits _ (free h) = rw h refl
wait_admission-Admits _ (busy {x} {xs} h a) = elim (Bool-cases (ltb_ℤ (pos 0) x.to_wait)) [
  | inl e ↦ rw (e, h) (wait_admission-Admits xs a)
  | inr e ↦ rw e refl
]

is_inval-false : (t : TxnType) → t ≢ inval → is_inval t ≡ false
is_inval-false inval h = absurd (h refl)
is_inval-false _ h = refl

Serves-fail :
    {F : Type 0} (fl : Floats F) (t : TxnType) (n : ℕ) (items : List (Item F))
    (before now : Tables F)
    → ¬ Serves fl t n items Db.fail before now
Serves-fail fl view_stock n items before now (xs, e, l, h) = h
Serves-fail fl view_portfolio n items before now (xs, e, l, h) = h
Serves-fail fl purchase n items before now (xs, e, l, h) = h
Serves-fail fl sale n items before now (xs, e, l, h) = h
Serves-fail fl inval n items before now h = h

Serves-crash :
    {F : Type 0} (fl : Floats F) (t : TxnType) (n : ℕ) (items : List (Item F))
    (before now : Tables F)
    → Serves fl t n items Db.crash before now
    → now ≡ before
Serves-crash fl view_stock n items before now (xs, e, l, h) = h
Serves-crash fl view_portfolio n items before now (xs, e, l, h) = h
Serves-crash fl purchase n items before now (xs, e, l, h) = h
Serves-crash fl sale n items before now (xs, e, l, h) = h
Serves-crash fl inval n items before now h = absurd h

Serves-out_of_fuel :
    {F : Type 0} (fl : Floats F) (t : TxnType) (n : ℕ) (items : List (Item F))
    (before now : Tables F)
    → ¬ Serves fl t n items Db.out_of_fuel before now
Serves-out_of_fuel fl view_stock n items before now (xs, e, l, h) = h
Serves-out_of_fuel fl view_portfolio n items before now (xs, e, l, h) = h
Serves-out_of_fuel fl purchase n items before now (xs, e, l, h) = h
Serves-out_of_fuel fl sale n items before now (xs, e, l, h) = h
Serves-out_of_fuel fl inval n items before now h = h

module _ {F D : Type 0} {db : BerkeleyDb F} (l : Laws db) (fl : Floats F)
    (encode : ResponsePacket → List ℕ) (p : RequestPacket F) (before : Tables F) where
  -- The handler closes its socket after the response, and the request was served with its return
  -- code; or the server has stopped with nothing sent, and the tables are as before.
  abbrev pub Responded : End × List ℕ × ServerContext D × World db → Type 0
  Responded x =
      ((rc : Bool) × (x.0 ≡ closed)
        × (x.1 ≡ encode (record { txn_type = p.txn_type; rc = rc }))
        × Serves fl p.txn_type p.num_items p.items (Db.ok rc) before (l.committed x.3.env))
      ⊎ ((x.0 ≡ stopped) × (x.1 ≡ []) × (l.committed x.3.env ≡ before))

  send_reply-Responded :
      (d : Doubles D) (decode : List ℕ → RequestPacket F) (ws : List Written)
      (y : Db.Outcome Bool × ServerContext D × World db)
      → Progress ws
      → ((rc : Bool) → length (encode (record { txn_type = p.txn_type; rc = rc })) ≤ length ws)
      → Serves fl p.txn_type p.num_items p.items y.0 before (l.committed y.2.env)
      → Responded (send_reply fl d db decode encode p.txn_type ws y)
  unfolding send_reply
  send_reply-Responded d decode ws (Db.ok rc, s, w) progress fits h =
      let e =
        send_loop-all (encode (record { txn_type = p.txn_type; rc = rc })) ws progress (fits rc) in
      inl (rc, ap (λ x. end_of x.0) e, ap (λ x. x.1) e, h)
  send_reply-Responded d decode ws (Db.fail, s, w) progress fits h =
      absurd (Serves-fail fl p.txn_type _ _ _ _ h)
  send_reply-Responded d decode ws (Db.crash, s, w) progress fits h =
      inr (refl, refl, Serves-crash fl p.txn_type _ _ _ _ h)
  send_reply-Responded d decode ws (Db.out_of_fuel, s, w) progress fits h =
      absurd (Serves-out_of_fuel fl p.txn_type _ _ _ _ h)

module _ {F D : Type 0} {db : BerkeleyDb F} (l : Laws db) (fl : Floats F) (d : Doubles D)
    (decode : List ℕ → RequestPacket F) (encode : ResponsePacket → List ℕ) where
  da_handler-reply :
      (sampling : Bool) (thread : ℕ) (begin end : ChronosTime) (fuel : ℕ) (bytes : List ℕ)
      (reads : List ReadByte) (looks : List Look) (ws : List Written) (s : ServerContext D)
      (w : World db)
      → Brings bytes reads
      → (decode bytes).txn_type ≢ inval
      → Admits looks
      → da_handler fl d db decode encode
          (length bytes)
          sampling
          thread
          begin
          end
          fuel
          reads
          looks
          ws
          s
          w
        ≡ send_reply fl d db decode encode
            (decode bytes).txn_type
            ws
            (process_user_transaction fl d db sampling thread begin end fuel (decode bytes) s w)
  unfolding da_handler handle_packet
  da_handler-reply sampling thread begin end fuel bytes reads looks ws s w b valid a =
      let e = handler_read-Brings bytes reads b in
      let next = λ (bs : List ℕ).
        handle_packet fl d db decode encode sampling thread begin end fuel bs looks ws s w in
      ap (λ (x : Outcome × List ℕ). on_success x.0 s w (next x.1)) e
      ∙ rw
          (
            is_inval-false (decode bytes).txn_type valid,
            wait_admission-Admits looks a,
            handle_packet,
          )
          refl

  -- A connection that brings the bytes of a request that the server can read, whatever reads of
  -- nothing lie between them, that is admitted before it is told to die, and that takes the response
  -- by writes of at least one byte, is answered by the response with the type of the request and its
  -- return code, and closed; the committed tables are as the specification of the request says for
  -- that return code. Else the server has stopped inside the transaction, and the tables are as before.
  pub da_handler-Responded :
      (sampling : Bool) (thread : ℕ) (begin end : ChronosTime) (fuel : ℕ) (bytes : List ℕ)
      (reads : List ReadByte) (looks : List Look) (ws : List Written) (s : ServerContext D)
      (w : World db)
      → Brings bytes reads
      → IsRequest (decode bytes)
      → Admits looks
      → Progress ws
      → ((rc : Bool)
          → length (encode (record { txn_type = (decode bytes).txn_type; rc = rc })) ≤ length ws)
      → l.records w.env + (decode bytes).num_items ≤ fuel
      → Responded l fl encode (decode bytes) (l.committed w.env) (
          da_handler fl d db decode encode
            (length bytes)
            sampling
            thread
            begin
            end
            fuel
            reads
            looks
            ws
            s
            w)
  da_handler-Responded sampling thread begin end fuel bytes reads looks ws s w b r a progress fits
        enough =
      let y = process_user_transaction fl d db sampling thread begin end fuel (decode bytes) s w in
      subst (Responded l fl encode (decode bytes) (l.committed w.env))
        (sym (da_handler-reply sampling thread begin end fuel bytes reads looks ws s w b r.valid a))
        (send_reply-Responded l fl encode (decode bytes) (l.committed w.env) d decode ws y progress
          fits
          (process_user_transaction-Serves l fl d sampling thread begin end fuel (decode bytes) s w
            r enough))
