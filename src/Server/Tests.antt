-- ===== src/Server/Tests.antt =====
-- The theorems about src/startup_server.c, on a small server and a small database.
use chronos_prototype.Base.{
  ℕ, ◌≡◌, ◌⊎◌, refl, arith, true, false, some, List, [], ◌∷◌, map, all_nil, all_cons, Bool, subst,
  sym, ap, append-nil, ◌==◌, if◌then◌else◌,
}
use chronos_prototype.Base.Int.{pos}
use chronos_prototype.Time.{zero_time}
use chronos_prototype.Db
use chronos_prototype.Db.{World}
use chronos_prototype.Db.Example.{example_db, example_laws}
use chronos_prototype.Packets.{
  TxnType, view_stock, view_portfolio, purchase, sale, inval, Item, account_item, RequestPacket,
}
use chronos_prototype.Client.{
  Connection, connected, success, Written, wrote, ReadByte, byte, socket_closed, Attempt, attempt,
  polled_ready, send_request, receive_response,
}
use chronos_prototype.Client.Send.{send_request-all}
use chronos_prototype.Client.Receive.{Arrives, now}
use chronos_prototype.Xact.Example.{prices, alice, acme, world, tables}
use chronos_prototype.Server.{ServerContext}
use chronos_prototype.Server.Example.{
  tenths, IsFinite, tenths-Scales, tenths-NoShare, tenths-Halves, context,
}
use chronos_prototype.Server.Sampling.Periods.{PeriodsAllowed}
use chronos_prototype.Server.Sampling.{handler_sampling}
use chronos_prototype.Server.Arguments.{mode, unknown, process_arguments, defaults, with_periods}
use chronos_prototype.Server.Arguments.Accepted.{no_options-accepted, no_options-number}
use chronos_prototype.Server.Arguments.Verdict.{Verdict, process_arguments-Verdict}
use chronos_prototype.Server.Start.{start_context}
use chronos_prototype.Server.Admission.{here, next, sampled, finished, Reach-start_context}
use chronos_prototype.Server.Process.{after_txn, process_user_transaction}
use chronos_prototype.Server.Process.Served.{IsRequest, Serves, process_user_transaction-Serves}
use chronos_prototype.Server.Handler.{ResponsePacket, Look, End, da_handler, stopped}
use chronos_prototype.Server.Handler.Reply.{
  Brings, all_brought, byte_brought, nothing_brought, Admits, free, busy,
}
use chronos_prototype.Server.Exchange.{Layout, da_handler-receive_response}

abbrev started : ServerContext ℕ
started = start_context tenths (with_periods tenths (defaults tenths)) (acme ∷ []) 1000

abbrev later : ServerContext ℕ
later = handler_sampling tenths (after_txn tenths true 0 zero_time zero_time true started)

Reach-start_context_example : PeriodsAllowed tenths later × (later.num_txn_to_wait ≡ pos 0)
Reach-start_context_example =
    Reach-start_context tenths tenths-Scales tenths-Halves IsFinite tenths-NoShare []
      (with_periods tenths (defaults tenths)) (acme ∷ []) 1000 later no_options-accepted
      no_options-number (next (next here (finished true 0 zero_time zero_time true)) (sampled tt))

process_arguments-Verdict_example :
    Verdict tenths
      (mode (pos 2) ∷ unknown ∷ [])
      (defaults tenths)
      (process_arguments tenths (mode (pos 2) ∷ unknown ∷ []))
process_arguments-Verdict_example = process_arguments-Verdict tenths (mode (pos 2) ∷ unknown ∷ [])

abbrev request : RequestPacket ℕ
request = record { txn_type = view_portfolio; num_items = 1; items = account_item alice ∷ [] }

request-IsRequest : IsRequest request
request-IsRequest = record {
  valid = λ e. cc;
  fits = omega arith;
  there = omega arith;
  typed = all_cons tt all_nil;
}

process_user_transaction-Serves_example :
    let x =
      process_user_transaction prices tenths example_db true 0 zero_time zero_time 2 request context
        world in
    Serves prices view_portfolio 1 (account_item alice ∷ []) x.0 tables x.2.env.committed
process_user_transaction-Serves_example =
    process_user_transaction-Serves example_laws prices tenths true 0 zero_time zero_time 2 request
      context world request-IsRequest (omega arith)

-- A layout that holds requests for one portfolio, by their account, and responses.
abbrev account_bytes : List (Item ℕ) → List ℕ
account_bytes (account_item a ∷ xs) = a
account_bytes _ = []

abbrev request_of : List ℕ → RequestPacket ℕ
request_of bytes = record {
  txn_type = view_portfolio;
  num_items = 1;
  items = account_item bytes ∷ [];
}

abbrev type_code : TxnType → ℕ
type_code view_stock = 0
type_code view_portfolio = 1
type_code purchase = 2
type_code sale = 3
type_code inval = 4

abbrev type_of : ℕ → TxnType
type_of n =
    if n == 0
    then view_stock
    else if n == 1
    then view_portfolio
    else if n == 2
    then purchase
    else if n == 3
    then sale
    else inval

abbrev rc_code : Bool → ℕ
rc_code true = 0
rc_code false = 1

abbrev response_bytes : ResponsePacket → List ℕ
response_bytes r = type_code r.txn_type ∷ rc_code r.rc ∷ []

abbrev response_of : List ℕ → ResponsePacket
response_of (t ∷ c ∷ bs) = record { txn_type = type_of t; rc = c == 0 }
response_of _ = record { txn_type = inval; rc = false }

type_of-code : (t : TxnType) → type_of (type_code t) ≡ t
type_of-code view_stock = refl
type_of-code view_portfolio = refl
type_of-code purchase = refl
type_of-code sale = refl
type_of-code inval = refl

rc_of-code : (b : Bool) → (rc_code b == 0) ≡ b
rc_of-code true = refl
rc_of-code false = refl

abbrev layout : Layout ℕ
layout = record {
  encode_request = λ p. account_bytes p.items;
  decode_request = request_of;
  encode_response = response_bytes;
  decode_response = response_of;
  response_size = 2;
  decode-encode_response =
      λ r i. record { txn_type = type_of-code r.txn_type i; rc = rc_of-code r.rc i };
  length-encode_response = λ r. refl;
}

-- The account's one byte comes after a read of nothing.
abbrev reads : List ReadByte
reads = socket_closed ∷ byte 49 ∷ []

reads-Brings : Brings (49 ∷ []) reads
reads-Brings = nothing_brought (byte_brought all_brought)

abbrev looks : List Look
looks =
    record { to_wait = pos 1; time_to_die = false }
    ∷ record { to_wait = pos 0; time_to_die = false }
    ∷ []

looks-Admits : Admits looks
looks-Admits = busy refl (free refl)

abbrev writes : List Written
writes = wrote 1 ∷ wrote 1 ∷ []

abbrev connection : Connection
connection = record {
  connection_name = [];
  server_address = [];
  server_port = 5000;
  socket_fd = pos 3;
  state = connected;
}

-- What the handler makes of the request.
abbrev handled : End × List ℕ × ServerContext ℕ × World example_db
handled =
    da_handler prices tenths example_db request_of response_bytes 1 true 0 zero_time zero_time 2
      reads looks writes context world

sent-Brings : Brings (send_request (some (49 ∷ [])) (some connection) writes).1 reads
sent-Brings =
    subst (λ bs. Brings bs reads)
      (sym (
        ap (λ x. x.1)
          (send_request-all (49 ∷ []) connection writes refl (omega arith, (omega arith, tt))
            (omega arith))))
      reads-Brings

abbrev polls : List Attempt
polls = attempt false (polled_ready (map byte handled.1)) ∷ []

da_handler-receive_response_example :
    ((rc : Bool) × ((receive_response 2 true true (some connection) polls).0 ≡ success)
      × (response_of (receive_response 2 true true (some connection) polls).1
          ≡ record { txn_type = view_portfolio; rc = rc })
      × Serves prices view_portfolio 1
          (account_item alice ∷ [])
          (Db.ok rc)
          tables
          handled.3.env.committed)
    ⊎ ((handled.0 ≡ stopped) × (handled.3.env.committed ≡ tables))
da_handler-receive_response_example =
    da_handler-receive_response example_laws prices tenths layout request connection writes reads
      looks writes polls true 0 zero_time zero_time 2 context world request-IsRequest refl refl
      (omega arith, (omega arith, tt)) (omega arith) sent-Brings looks-Admits
      (omega arith, (omega arith, tt)) (omega arith) (omega arith)
      ([], subst (λ rs. Arrives rs polls) (sym (append-nil (map byte handled.1))) now)
