-- ===== src/Base/Lists.antt =====
-- C arrays as lists indexed by native numbers, under the library's names.
use Prim.Native.Nat.{ℕ, zero, suc, ◌+◌, ◌<◌, min}
use mathlib.Core.Path.{◌≡◌, refl, ap, subst}
use mathlib.Core.Logic.{◌≢◌}
use mathlib.Core.List.{List, [], ◌∷◌, ◌++◌}
use mathlib.Core.Option.{Option, none, some}
use chronos_prototype.Base.Tests.{◌==◌, if◌then◌else◌}
use native.Mathlib.Omega.{arith}

module _ {ℓ} {A : Type ℓ} where
  abbrev pub length : List A → ℕ
  length [] = 0
  length (x ∷ xs) = suc (length xs)

  abbrev pub get_elem? : List A → ℕ → Option A
  get_elem? [] i = none
  get_elem? (x ∷ xs) zero = some x
  get_elem? (x ∷ xs) (suc i) = get_elem? xs i

  abbrev pub get_or : List A → ℕ → A → A
  get_or [] i d = d
  get_or (x ∷ xs) zero d = x
  get_or (x ∷ xs) (suc i) d = get_or xs i d

  -- A write out of bounds changes nothing.
  abbrev pub set : List A → ℕ → A → List A
  set [] i v = []
  set (x ∷ xs) zero v = v ∷ xs
  set (x ∷ xs) (suc i) v = x ∷ set xs i v

  abbrev pub take : ℕ → List A → List A
  take zero xs = []
  take (suc n) [] = []
  take (suc n) (x ∷ xs) = x ∷ take n xs

  abbrev pub replicate : ℕ → A → List A
  replicate zero a = []
  replicate (suc n) a = a ∷ replicate n a

  pub length-append : (xs ys : List A) → length (xs ++ ys) ≡ length xs + length ys
  length-append [] ys = omega arith
  length-append (x ∷ xs) ys = omega (arith, length-append xs ys)

  pub length-set : (xs : List A) (i : ℕ) (v : A) → length (set xs i v) ≡ length xs
  length-set [] i v = refl
  length-set (x ∷ xs) zero v = refl
  length-set (x ∷ xs) (suc i) v = ap suc (length-set xs i v)

  pub length-replicate : (n : ℕ) (a : A) → length (replicate n a) ≡ n
  length-replicate zero a = refl
  length-replicate (suc n) a = ap suc (length-replicate n a)

  pub length-take : (n : ℕ) (xs : List A) → length (take n xs) ≡ min n (length xs)
  length-take zero xs = omega arith
  length-take (suc n) [] = omega arith
  length-take (suc n) (x ∷ xs) = omega (arith, length-take n xs)

  pub get_elem?-eq-get_or :
      (xs : List A) (i : ℕ) (d : A) → i < length xs → get_elem? xs i ≡ some (get_or xs i d)
  get_elem?-eq-get_or [] i d h = absurd (omega arith)
  get_elem?-eq-get_or (x ∷ xs) zero d h = refl
  get_elem?-eq-get_or (x ∷ xs) (suc i) d h = get_elem?-eq-get_or xs i d (omega arith)

  pub get_elem?-ne-none : (xs : List A) (i : ℕ) → i < length xs → get_elem? xs i ≢ none
  get_elem?-ne-none [] i h = absurd (omega arith)
  get_elem?-ne-none (x ∷ xs) zero h = ground arith
  get_elem?-ne-none (x ∷ xs) (suc i) h = get_elem?-ne-none xs i (omega arith)

  pub lt_of_get_elem? : (xs : List A) (i : ℕ) (a : A) → get_elem? xs i ≡ some a → i < length xs
  lt_of_get_elem? [] i a h = absurd (ground arith)
  lt_of_get_elem? (x ∷ xs) zero a h = omega arith
  lt_of_get_elem? (x ∷ xs) (suc i) a h = omega (arith, lt_of_get_elem? xs i a h)

  pub get_elem?-set_self :
      (xs : List A) (i : ℕ) (v : A) → i < length xs → get_elem? (set xs i v) i ≡ some v
  get_elem?-set_self [] i v h = absurd (omega arith)
  get_elem?-set_self (x ∷ xs) zero v h = refl
  get_elem?-set_self (x ∷ xs) (suc i) v h = get_elem?-set_self xs i v (omega arith)

  pub get_or-set_self :
      (xs : List A) (i : ℕ) (v d : A) → i < length xs → get_or (set xs i v) i d ≡ v
  get_or-set_self [] i v d h = absurd (omega arith)
  get_or-set_self (x ∷ xs) zero v d h = refl
  get_or-set_self (x ∷ xs) (suc i) v d h = get_or-set_self xs i v d (omega arith)

  pub get_or-set_ne :
      (xs : List A) {i j : ℕ} (v d : A) → i ≢ j → get_or (set xs i v) j d ≡ get_or xs j d
  get_or-set_ne [] v d h = refl
  get_or-set_ne (x ∷ xs) {i = zero} {j = zero} v d h = absurd (h refl)
  get_or-set_ne (x ∷ xs) {i = zero} {j = suc j} v d h = refl
  get_or-set_ne (x ∷ xs) {i = suc i} {j = zero} v d h = refl
  get_or-set_ne (x ∷ xs) {i = suc i} {j = suc j} v d h = get_or-set_ne xs v d (λ e. h (ap suc e))

module _ {ℓ} {A : Type ℓ} where
  pub get_elem?-set :
      (xs : List A) (i j : ℕ) (x v : A)
      → get_elem? xs i ≡ some x
      → get_elem? (set xs i v) j ≡ (if j == i then some v else get_elem? xs j)
  get_elem?-set [] i j x v h = absurd (ground arith)
  get_elem?-set (y ∷ xs) zero zero x v h = refl
  get_elem?-set (y ∷ xs) zero (suc j) x v h = ground arith
  get_elem?-set (y ∷ xs) (suc i) zero x v h = ground arith
  get_elem?-set (y ∷ xs) (suc i) (suc j) x v h = ground (arith, get_elem?-set xs i j x v h)

-- The last value that a list of options gives a field, or its old one.
abbrev pub last_or : {O A : Type 0} → (O → Option A) → A → List O → A
last_or f a [] = a
last_or f a (o ∷ os) = last_or f (elim (f o) [ none ↦ a | some b ↦ b ]) os

-- Every member satisfies `P`.
pub data All {A : Type 0} (P : A → Type 0) : List A → Type 0 where
  all_nil : All P []
  all_cons : {x : A} {xs : List A} → P x → All P xs → All P (x ∷ xs)

module _ {A : Type 0} {P : A → Type 0} where
  pub All-head : {x : A} {xs : List A} → All P (x ∷ xs) → P x
  All-head (all_cons p ps) = p

  pub All-tail : {x : A} {xs : List A} → All P (x ∷ xs) → All P xs
  All-tail (all_cons p ps) = ps

  pub All-append : {xs ys : List A} → All P xs → All P ys → All P (xs ++ ys)
  All-append all_nil ys = ys
  All-append (all_cons p xs) ys = all_cons p (All-append xs ys)

  pub All-mono : {Q : A → Type 0} {xs : List A} → ((x : A) → P x → Q x) → All P xs → All Q xs
  All-mono f all_nil = all_nil
  All-mono f (all_cons p xs) = all_cons (f _ p) (All-mono f xs)

  pub All-set : {xs : List A} (i : ℕ) (v : A) → All P xs → P v → All P (set xs i v)
  All-set i v all_nil q = all_nil
  All-set zero v (all_cons p ps) q = all_cons q ps
  All-set (suc i) v (all_cons p ps) q = all_cons p (All-set i v ps q)

  pub All-get_elem? : {xs : List A} (i : ℕ) {x : A} → All P xs → get_elem? xs i ≡ some x → P x
  All-get_elem? i all_nil e = absurd (ground arith)
  All-get_elem? zero (all_cons p ps) e = subst P (ground arith) p
  All-get_elem? (suc i) (all_cons p ps) e = All-get_elem? i ps e
