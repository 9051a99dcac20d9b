-- ===== src/Xact/Solvent.antt =====
-- What the sales of src/sell_txn.c keep true of the portfolios: nobody holds less than nothing.
use chronos_prototype.Base.{ℕ, ◌+◌, ◌≤◌, ◌≡◌, sym, subst, some, List, [], ◌∷◌, length, arith, Text}
use chronos_prototype.Base.Int.{ℤ, pos, negsuc, ◌-ℤ◌, ◌≤ℤ◌, IsInt, wrap32, wrap32_lem}
use chronos_prototype.Tables.{Floats, Portfolio, XactData, Tables, write_portfolio}
use chronos_prototype.Db.{BerkeleyDb, Outcome, ok, fail, crash, out_of_fuel, World}
use chronos_prototype.Db.Laws.{Laws}
use chronos_prototype.Orders.Spec.{Sale, shrink}
use chronos_prototype.Xact.{benchmark_sell2}
use chronos_prototype.Xact.Atomic.{Steps, none_left, one_more, AllOrNothing}
use chronos_prototype.Xact.Trade.{benchmark_sell2-AllOrNothing}

-- Every portfolio holds a number of stocks between 0 and 2^31 - 1.
abbrev pub Solvent : {F : Type 0} → Tables F → Type 0
Solvent s =
    (k : Text) (p : Portfolio)
    → s.portfolios k ≡ some p
    → (pos 0 ≤ℤ p.hold_stocks) × IsInt p.hold_stocks

-- No item sells a negative amount.
abbrev pub NoNegative : {F : Type 0} → List (XactData F) → Type 0
NoNegative [] = Unit {0}
NoNegative (d ∷ ds) = (pos 0 ≤ℤ d.amount) × NoNegative ds

sale_in_range :
    (a b : ℤ)
    → pos 0 ≤ℤ a
    → IsInt a
    → pos 0 ≤ℤ b
    → b ≤ℤ a
    → (pos 0 ≤ℤ wrap32 (a -ℤ b)) × IsInt (wrap32 (a -ℤ b))
unfolding ◌-ℤ◌
sale_in_range (pos a) (pos b) h i g e =
    rw (wrap32_lem (pos a -ℤ pos b) (ground arith)) (ground arith)
sale_in_range (negsuc a) b h i g e = absurd (omega arith)
sale_in_range (pos a) (negsuc b) h i g e = absurd (omega arith)

update-Solvent :
    {F : Type 0} (s : Tables F) (k : Text) (p : Portfolio)
    → Solvent s
    → (pos 0 ≤ℤ p.hold_stocks) × IsInt p.hold_stocks
    → Solvent (write_portfolio k p s)
update-Solvent s k p v h j p' e = ground (arith, v j p')

Sale-Solvent :
    {F : Type 0} (fl : Floats F) (s : Tables F) (d : XactData F) (s' : Tables F)
    → pos 0 ≤ℤ d.amount
    → Sale fl s d s'
    → Solvent s
    → Solvent s'
Sale-Solvent fl s d _ h (shrink q k p known high holds enough) v =
    let old = v k p holds.stored in
    update-Solvent s k _ v (sale_in_range p.hold_stocks d.amount old.0 old.1 h enough)

Steps-Solvent :
    {F : Type 0} (fl : Floats F) (s s' : Tables F) (ds : List (XactData F))
    → NoNegative ds
    → Steps (Sale fl) s ds s'
    → Solvent s
    → Solvent s'
Steps-Solvent fl s _ [] h none_left v = v
Steps-Solvent fl s s' (d ∷ ds) (h, hs) (one_more {s' = m} r rs) v =
    Steps-Solvent fl m s' ds hs rs (Sale-Solvent fl s d m h r v)

AllOrNothing-Solvent :
    {F : Type 0} (fl : Floats F) (s s' : Tables F) (ds : List (XactData F)) (o : Outcome (Unit {0}))
    → NoNegative ds
    → AllOrNothing (Sale fl) ds o s s'
    → Solvent s
    → Solvent s'
AllOrNothing-Solvent fl s s' ds (ok _) h a v = Steps-Solvent fl s s' ds h a v
AllOrNothing-Solvent fl s s' ds fail h a v = subst Solvent (sym a) v
AllOrNothing-Solvent fl s s' ds crash h a v = subst Solvent (sym a) v
AllOrNothing-Solvent fl s s' ds out_of_fuel h a v = elim a [ ]

-- A sale of amounts that are not negative, whatever its outcome, leaves every portfolio solvent.
pub benchmark_sell2-Solvent :
    {F : Type 0} (fl : Floats F) {db : BerkeleyDb F} (l : Laws db) (fuel : ℕ)
    (items : List (XactData F)) (w : World db)
    → l.records w.env + length items ≤ fuel
    → NoNegative items
    → Solvent (l.committed w.env)
    → Solvent (l.committed (benchmark_sell2 fl db fuel items w).1.env)
benchmark_sell2-Solvent fl {db} l fuel items w h g v =
    AllOrNothing-Solvent fl _ _ items (benchmark_sell2 fl db fuel items w).0 g
      (benchmark_sell2-AllOrNothing fl l fuel items w h) v
