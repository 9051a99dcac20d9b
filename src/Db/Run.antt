-- ===== src/Db/Run.antt =====
-- Postconditions of programs over the database: of a success, and of every other end.
use chronos_prototype.Base.{◌≡◌, Option, none, some, Bool, true, false, refl, if◌then◌else◌}
use chronos_prototype.Db.{
  BerkeleyDb, Outcome, ok, fail, crash, World, M, and_then, caught, guard, or_fail, maybe,
}

-- `Q` holds of a success and its result, `E` of a failure and of a crash; the fuel does not run out.
pub data Post {F : Type 0} {db : BerkeleyDb F} {A : Type 0} (Q : A → World db → Type 0)
    (E : World db → Type 0) : Outcome A × World db → Type 0 where
  at_ok : {a : A} {w : World db} → Q a w → Post Q E (ok a, w)
  at_fail : {w : World db} → E w → Post Q E (fail, w)
  at_crash : {w : World db} → E w → Post Q E (crash, w)

module _ {F : Type 0} {db : BerkeleyDb F} {A : Type 0} {E : World db → Type 0}
    {Q : A → World db → Type 0} where
  -- The rule for `do`.
  pub Post-bind :
      {B : Type 0} {R : B → World db → Type 0} {x : Outcome A × World db} {k : A → M db B}
      → Post Q E x
      → ((a : A) (w : World db) → Q a w → Post R E (k a w))
      → Post R E (and_then x k)
  Post-bind (at_ok h) next = next _ _ h
  Post-bind (at_fail h) next = at_fail h
  Post-bind (at_crash h) next = at_crash h

  pub Post-mono :
      {R : A → World db → Type 0} {x : Outcome A × World db}
      → Post Q E x
      → ((a : A) (w : World db) → Q a w → R a w)
      → Post R E x
  Post-mono (at_ok h) weaken = at_ok (weaken _ _ h)
  Post-mono (at_fail h) weaken = at_fail h
  Post-mono (at_crash h) weaken = at_crash h

  -- The rule for `attempt`: after a failure the program goes on where `E` holds.
  pub Post-caught :
      {R : Option A → World db → Type 0} {x : Outcome A × World db}
      → Post Q E x
      → ((a : A) (w : World db) → Q a w → R (some a) w)
      → ((w : World db) → E w → R none w)
      → Post R E (caught x)
  Post-caught (at_ok h) found lost = at_ok (found _ _ h)
  Post-caught (at_fail h) found lost = at_ok (lost _ h)
  Post-caught (at_crash h) found lost = at_crash h

  -- A weaker condition on the other ends.
  pub Post-else :
      {E' : World db → Type 0} {x : Outcome A × World db}
      → Post Q E x
      → ((w : World db) → E w → E' w)
      → Post Q E' x
  Post-else (at_ok h) weaken = at_ok h
  Post-else (at_fail h) weaken = at_fail (weaken _ h)
  Post-else (at_crash h) weaken = at_crash (weaken _ h)

module _ {F : Type 0} {db : BerkeleyDb F} {E : World db → Type 0} where
  pub Post-guard :
      (b : Bool) (w : World db) {R : Unit {0} → World db → Type 0}
      → (b ≡ true → R tt w)
      → E w
      → Post R E (guard b w)
  Post-guard true w h e = at_ok (h refl)
  Post-guard false w h e = at_fail e

  pub Post-guard_cases :
      (b : Bool) (w : World db) {R : Unit {0} → World db → Type 0}
      → (b ≡ true → R tt w)
      → (b ≡ false → E w)
      → Post R E (guard b w)
  Post-guard_cases true w h e = at_ok (h refl)
  Post-guard_cases false w h e = at_fail (e refl)

  pub Post-or_fail :
      {A : Type 0} (o : Option A) (w : World db) {R : A → World db → Type 0}
      → ((a : A) → o ≡ some a → R a w)
      → E w
      → Post R E (or_fail o w)
  Post-or_fail (some a) w h e = at_ok (h a refl)
  Post-or_fail none w h e = at_fail e

  pub Post-maybe :
      {A B : Type 0} (o : Option A) (w : World db) (m : M db B) (k : A → M db B)
      {R : B → World db → Type 0}
      → (o ≡ none → Post R E (m w))
      → ((a : A) → o ≡ some a → Post R E (k a w))
      → Post R E (maybe o m k w)
  Post-maybe none w m k h g = h refl
  Post-maybe (some a) w m k h g = g a refl

  pub Post-if :
      {B : Type 0} (b : Bool) (w : World db) (m k : M db B) {R : B → World db → Type 0}
      → (b ≡ true → Post R E (m w))
      → (b ≡ false → Post R E (k w))
      → Post R E ((if b then m else k) w)
  Post-if true w m k h g = h refl
  Post-if false w m k h g = g refl
