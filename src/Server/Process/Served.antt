-- ===== src/Server/Process/Served.antt =====
-- What a request makes of the tables: `processUserTransaction` of src/startup_server.c against the
-- specifications of the transactions.
use chronos_prototype.Base.{
  ℕ, zero, suc, ◌+◌, ◌≤◌, ◌≡◌, ◌≢◌, refl, ap₂, Bool, true, false, Option, some, List, [], ◌∷◌,
  arith, length, ltb, All, all_cons, Text,
}
use chronos_prototype.Tables.{Floats, XactData, Tables}
use chronos_prototype.Time.{ChronosTime}
use chronos_prototype.Db.{BerkeleyDb, Outcome, ok, fail, crash, out_of_fuel, World}
use chronos_prototype.Db.Laws.{Laws}
use chronos_prototype.Orders.Spec.{Purchase, Sale}
use chronos_prototype.Packets.{
  TxnType, view_stock, view_portfolio, purchase, sale, inval, Item, symbol_item, account_item,
  purchase_item, sell_item, RequestPacket,
}
use chronos_prototype.Xact.Atomic.{Steps, AllOrNothing}
use chronos_prototype.Xact.Trade.{
  Viewed, benchmark_purchase2-AllOrNothing, benchmark_sell2-AllOrNothing,
  benchmark_view_stock2-AllOrNothing,
}
use chronos_prototype.Views.Atomic.{Same, benchmark_view_portfolio2-AllOrNothing}
use chronos_prototype.Server.{Doubles, ServerContext}
use chronos_prototype.Server.Process.{
  max_data_items, symbol_of, account_of, purchase_of, sale_of, copy_items, run_transaction,
  run_request, after_txn, one_and_all, settle, process_user_transaction,
}

-- An item of the member that requests of a type use.
abbrev pub OfType : {F : Type 0} → TxnType → Item F → Type 0
OfType view_stock (symbol_item id s) = Unit {0}
OfType view_portfolio (account_item a) = Unit {0}
OfType purchase (purchase_item a id s p n) = Unit {0}
OfType sale (sell_item a id s p n) = Unit {0}
OfType _ _ = ⊥

-- A request that the server can read: of a valid type, with its items, which fit the arrays.
pub record IsRequest {F : Type 0} (p : RequestPacket F) : Type 0 where
  pub valid : p.txn_type ≢ inval
  pub fits : p.num_items ≤ max_data_items
  pub there : p.num_items ≤ length p.items
  pub typed : All (OfType p.txn_type) p.items

-- What is answered for a list of items: success, and the tables have gone through all of them; or
-- failure, or no answer after a crash, and the tables are as before.
abbrev pub Answered :
    {F A : Type 0}
    → (Tables F → A → Tables F → Type 0)
    → List A
    → Outcome Bool
    → Tables F
    → Tables F
    → Type 0
Answered R xs (ok true) before now = Steps R before xs now
Answered R xs (ok false) before now = now ≡ before
Answered R xs fail before now = ⊥
Answered R xs crash before now = now ≡ before
Answered R xs out_of_fuel before now = ⊥

-- The items that a request names are copied, and answered by the specification of its type.
abbrev pub Copied :
    {F A : Type 0}
    → (Item F → Option A)
    → (Tables F → A → Tables F → Type 0)
    → ℕ
    → List (Item F)
    → Outcome Bool
    → Tables F
    → Tables F
    → Type 0
Copied f R n items o before now =
    (xs : List _) × (copy_items f n items ≡ some xs) × (length xs ≡ n) × Answered R xs o before now

abbrev pub Serves :
    {F : Type 0}
    → Floats F
    → TxnType
    → ℕ
    → List (Item F)
    → Outcome Bool
    → Tables F
    → Tables F
    → Type 0
Serves fl view_stock n items o before now = Copied symbol_of Viewed n items o before now
Serves fl view_portfolio n items o before now = Copied account_of Same n items o before now
Serves fl purchase n items o before now = Copied purchase_of (Purchase fl) n items o before now
Serves fl sale n items o before now = Copied sale_of (Sale fl) n items o before now
Serves fl inval n items o before now = ⊥

module _ {F A : Type 0} (f : Item F → Option A) (P : Item F → Type 0)
    (reads : (x : Item F) → P x → (a : A) × (f x ≡ some a)) where
  copy_items-some :
      (n : ℕ) (items : List (Item F))
      → n ≤ length items
      → All P items
      → (xs : List A) × (copy_items f n items ≡ some xs) × (length xs ≡ n)
  unfolding copy_items
  copy_items-some zero items h all = ([], refl, refl)
  copy_items-some (suc n) [] h all = absurd (omega arith)
  copy_items-some (suc n) (x ∷ items) h (all_cons p all) =
      let (a, ea) = reads x p in
      let (xs, exs, count) = copy_items-some n items (omega arith) all in
      (a ∷ xs, ap₂ one_and_all ea exs, omega (arith, count))

symbol_of-some :
    {F : Type 0} (x : Item F) → OfType view_stock x → (a : Text) × (symbol_of x ≡ some a)
unfolding symbol_of
symbol_of-some (symbol_item id s) h = (s, refl)
symbol_of-some (account_item a) h = elim h [ ]
symbol_of-some (purchase_item a id s p n) h = elim h [ ]
symbol_of-some (sell_item a id s p n) h = elim h [ ]

account_of-some :
    {F : Type 0} (x : Item F) → OfType view_portfolio x → (a : Text) × (account_of x ≡ some a)
unfolding account_of
account_of-some (symbol_item id s) h = elim h [ ]
account_of-some (account_item a) h = (a, refl)
account_of-some (purchase_item a id s p n) h = elim h [ ]
account_of-some (sell_item a id s p n) h = elim h [ ]

purchase_of-some :
    {F : Type 0} (x : Item F) → OfType purchase x → (a : XactData F) × (purchase_of x ≡ some a)
unfolding purchase_of
purchase_of-some (symbol_item id s) h = elim h [ ]
purchase_of-some (account_item a) h = elim h [ ]
purchase_of-some (purchase_item a id s p n) h = (_, refl)
purchase_of-some (sell_item a id s p n) h = elim h [ ]

sale_of-some : {F : Type 0} (x : Item F) → OfType sale x → (a : XactData F) × (sale_of x ≡ some a)
unfolding sale_of
sale_of-some (symbol_item id s) h = elim h [ ]
sale_of-some (account_item a) h = elim h [ ]
sale_of-some (purchase_item a id s p n) h = elim h [ ]
sale_of-some (sell_item a id s p n) h = (_, refl)

module _ {F D : Type 0} {db : BerkeleyDb F} (l : Laws db) where
  settle-Answered :
      {A : Type 0} (R : Tables F → A → Tables F → Type 0) (xs : List A)
      (note : Bool → ServerContext D → ServerContext D) (s : ServerContext D)
      (x : Outcome (Unit {0}) × World db) (before : Tables F)
      → AllOrNothing R xs x.0 before (l.committed x.1.env)
      → Answered R xs (settle note s x).0 before (l.committed (settle note s x).2.env)
  settle-Answered R xs note s (ok u, w) before h = h
  settle-Answered R xs note s (fail, w) before h = h
  settle-Answered R xs note s (crash, w) before h = h
  settle-Answered R xs note s (out_of_fuel, w) before h = h

  module _ (fl : Floats F) (d : Doubles D) (note : Bool → ServerContext D → ServerContext D)
      (s : ServerContext D) where
    run_transaction-Serves :
        (fuel : ℕ) (t : TxnType) (n : ℕ) (items : List (Item F)) (w : World db)
        → t ≢ inval
        → n ≤ length items
        → All (OfType t) items
        → l.records w.env + n ≤ fuel
        → let x = settle note s (run_transaction fl db fuel t n items w) in
          Serves fl t n items x.0 (l.committed w.env) (l.committed x.2.env)
    unfolding run_transaction
    run_transaction-Serves fuel view_stock n items w v h all enough =
        let (xs, e, count) = copy_items-some symbol_of _ symbol_of-some n items h all in
        (
          xs,
          e,
          count,
          rw e (settle-Answered Viewed xs note s _ _ (benchmark_view_stock2-AllOrNothing l xs w)),
        )
    run_transaction-Serves fuel view_portfolio n items w v h all enough =
        let (xs, e, count) = copy_items-some account_of _ account_of-some n items h all in
        (
          xs,
          e,
          count,
          rw e (
              settle-Answered Same xs note s _ _
                (benchmark_view_portfolio2-AllOrNothing l fuel xs w (omega arith))),
        )
    run_transaction-Serves fuel purchase n items w v h all enough =
        let (xs, e, count) = copy_items-some purchase_of _ purchase_of-some n items h all in
        (
          xs,
          e,
          count,
          rw e (
              settle-Answered (Purchase fl) xs note s _ _
                (benchmark_purchase2-AllOrNothing fl l fuel xs w (omega arith))),
        )
    run_transaction-Serves fuel sale n items w v h all enough =
        let (xs, e, count) = copy_items-some sale_of _ sale_of-some n items h all in
        (
          xs,
          e,
          count,
          rw e (
              settle-Answered (Sale fl) xs note s _ _
                (benchmark_sell2-AllOrNothing fl l fuel xs w (omega arith))),
        )
    run_transaction-Serves fuel inval n items w v h all enough = v refl

  -- A request that the server can read, with fuel for the index entries and its items, is processed:
  -- its items are copied out of the packet, and the return code 0 means that the committed tables
  -- have gone through all of them as the specification of its type says; any other return code, and a
  -- crash, that they are as before. The fuel does not run out.
  pub process_user_transaction-Serves :
      (fl : Floats F) (d : Doubles D) (sampling : Bool) (thread : ℕ) (begin end : ChronosTime)
      (fuel : ℕ) (p : RequestPacket F) (s : ServerContext D) (w : World db)
      → IsRequest p
      → l.records w.env + p.num_items ≤ fuel
      → let x = process_user_transaction fl d db sampling thread begin end fuel p s w in
        Serves fl p.txn_type p.num_items p.items x.0 (l.committed w.env) (l.committed x.2.env)
  unfolding process_user_transaction run_request
  process_user_transaction-Serves fl d sampling thread begin end fuel p s w r enough =
      let e : ltb max_data_items p.num_items ≡ false = ground (arith, r.fits) in
      rw e (
        run_transaction-Serves fl d (after_txn d sampling thread begin end) s fuel p.txn_type
          p.num_items p.items w r.valid r.there r.typed enough)
