-- ===== src/Base/Tests.antt =====
-- Boolean tests on the native numbers, the conditional, and case splits that keep the equation.
use Prim.Native.Nat.{ℕ, compare, Ordering}
use mathlib.Core.Path.{◌≡◌, refl}
use mathlib.Core.Logic.{◌≢◌, ◌↔◌, ◌⊎◌, inl, inr}
use mathlib.Core.Bool.{Bool, true, false}
use mathlib.Core.Option.{Option, none, some}
use mathlib.Core.List.{List, [], ◌∷◌}
use native.Mathlib.Omega.{arith}

abbrev pub ltb : ℕ → ℕ → Bool
ltb a b = elim (compare a b) [ Ordering.lt ↦ true | _ ↦ false ]

abbrev pub leb : ℕ → ℕ → Bool
leb a b = elim (compare a b) [ Ordering.gt ↦ false | _ ↦ true ]

infix 50 ◌==◌
abbrev pub ◌==◌ : ℕ → ℕ → Bool
a == b = elim (compare a b) [ Ordering.eq ↦ true | _ ↦ false ]

infix 1 if◌then◌else◌
abbrev pub if◌then◌else◌ {ℓ} : {A : Type ℓ} → Bool → A → A → A
if true then x else y = x
if false then x else y = y

pub ==_iff : (a b : ℕ) → ((a == b) ≡ true) ↔ (a ≡ b)
==_iff a b = ground arith

pub Bool-cases : (b : Bool) → (b ≡ true) ⊎ (b ≡ false)
Bool-cases true = inl refl
Bool-cases false = inr refl

pub Option-cases {ℓ} : {A : Type ℓ} (o : Option A) → (o ≡ none) ⊎ ((a : A) × (o ≡ some a))
Option-cases none = inl refl
Option-cases (some a) = inr (a, refl)

-- Text is its list of character codes, without the closing NUL.
abbrev pub Text : Type 0
Text = List ℕ

-- `strcmp(a, b) == 0`
unfoldable pub text_eq : Text → Text → Bool
text_eq [] [] = true
text_eq [] (y ∷ ys) = false
text_eq (x ∷ xs) [] = false
text_eq (x ∷ xs) (y ∷ ys) = let rest = text_eq xs ys in if x == y then rest else false

pub text_eq_refl : (a : Text) → text_eq a a ≡ true
unfolding text_eq
text_eq_refl [] = refl
text_eq_refl (x ∷ xs) = ground (arith, text_eq_refl xs)

pub eq_of_text_eq : (a b : Text) → text_eq a b ≡ true → a ≡ b
unfolding text_eq
eq_of_text_eq [] [] h = refl
eq_of_text_eq [] (y ∷ ys) h = ground arith
eq_of_text_eq (x ∷ xs) [] h = ground arith
eq_of_text_eq (x ∷ xs) (y ∷ ys) h = ground (arith, eq_of_text_eq xs ys)

-- A result that may be missing.
abbrev pub on_result : {A B : Type 0} → Option A → B → (A → B) → B
on_result none b f = b
on_result (some a) b f = f a

pub on_result-cases :
    {A B : Type 0} (P : B → Type 0) (o : Option A) (b : B) (f : A → B)
    → (o ≡ none → P b)
    → ((a : A) → o ≡ some a → P (f a))
    → P (on_result o b f)
on_result-cases P none b f h g = h refl
on_result-cases P (some a) b f h g = g a refl

pub some-ne-none : {A : Type 0} (x : A) → some x ≢ none
some-ne-none x = ground arith

pub some-inj : {A : Type 0} {x y : A} → some x ≡ some y → x ≡ y
some-inj h = cc
