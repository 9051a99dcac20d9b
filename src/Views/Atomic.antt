-- ===== src/Views/Atomic.antt =====
-- `benchmark_view_portfolio2` of src/view_portfolio_txn.c: it changes nothing, however it ends.
use chronos_prototype.Base.{ℕ, ◌+◌, ◌≤◌, ◌≡◌, refl, ◌∙◌, List, length, arith, Text, false}
use chronos_prototype.Tables.{Tables}
use chronos_prototype.Db.{BerkeleyDb, Outcome, ok, fail, crash, out_of_fuel, World}
use chronos_prototype.Db.Laws.{Laws}
use chronos_prototype.Db.Run.{at_ok, Post-bind, Post-else}
use chronos_prototype.Views.{benchmark_view_portfolio2}
use chronos_prototype.Views.Output.{show_portfolios-Displayed}
use chronos_prototype.Xact.Atomic.{Steps, none_left, one_more, AllOrNothing, run_xact-AllOrNothing}

-- A view of an account, which leaves the tables as they are.
abbrev pub Same : {F : Type 0} → Tables F → Text → Tables F → Type 0
Same s account s' = s' ≡ s

-- What a view may end with: not out of fuel, and the tables are as before.
abbrev pub Unchanged : {F : Type 0} → Outcome (Unit {0}) → Tables F → Tables F → Type 0
Unchanged out_of_fuel before now = ⊥
Unchanged _ before now = now ≡ before

Steps-Same :
    {F : Type 0} {s s' : Tables F} {accounts : List Text} → Steps Same s accounts s' → s' ≡ s
Steps-Same none_left = refl
Steps-Same (one_more e steps) = Steps-Same steps ∙ e

AllOrNothing-Unchanged :
    {F : Type 0} (accounts : List Text) (o : Outcome (Unit {0})) (before now : Tables F)
    → AllOrNothing Same accounts o before now
    → Unchanged o before now
AllOrNothing-Unchanged accounts (ok x) before now h = Steps-Same h
AllOrNothing-Unchanged accounts fail before now h = h
AllOrNothing-Unchanged accounts crash before now h = h
AllOrNothing-Unchanged accounts out_of_fuel before now h = h

pub benchmark_view_portfolio2-AllOrNothing :
    {F : Type 0} {db : BerkeleyDb F} (l : Laws db) (fuel : ℕ) (accounts : List Text) (w : World db)
    → l.records w.env + length accounts ≤ fuel
    → AllOrNothing Same accounts
        (benchmark_view_portfolio2 db fuel accounts w).0
        (l.committed w.env)
        (l.committed (benchmark_view_portfolio2 db fuel accounts w).1.env)
unfolding benchmark_view_portfolio2
benchmark_view_portfolio2-AllOrNothing l fuel accounts w h =
    run_xact-AllOrNothing l (l.committed w.env) Same "VIEW_PORTFOLIO_TXN" _ fuel
      (λ t s n account w h a.
        Post-bind
          (Post-else (show_portfolios-Displayed l _ s n t fuel account false w a h) λ w a. a.shown)
          λ xs w (a, shown).
            at_ok
              (s, refl, record { shown = a.shown; read = a.read; small = omega (arith, a.small) }))
      accounts w refl h

-- With fuel for the entries and the accounts, the view of portfolios ends, and whatever its outcome
-- and whichever of its calls fail, the committed tables are as before.
pub benchmark_view_portfolio2-Unchanged :
    {F : Type 0} {db : BerkeleyDb F} (l : Laws db) (fuel : ℕ) (accounts : List Text) (w : World db)
    → l.records w.env + length accounts ≤ fuel
    → Unchanged
        (benchmark_view_portfolio2 db fuel accounts w).0
        (l.committed w.env)
        (l.committed (benchmark_view_portfolio2 db fuel accounts w).1.env)
benchmark_view_portfolio2-Unchanged l fuel accounts w h =
    AllOrNothing-Unchanged accounts _ _ _
      (benchmark_view_portfolio2-AllOrNothing l fuel accounts w h)
