-- ===== src/Base/Decimal.antt =====
-- `sprintf("%d", n)` of a number that is not negative.
use Prim.Native.Nat.{ℕ, zero, suc, ◌+◌, ◌/◌, ◌%◌}
use mathlib.Core.List.{[], ◌∷◌, ◌++◌}
use chronos_prototype.Base.Tests.{ltb, if◌then◌else◌, Text}

-- The digits on fuel: a number has fewer digits than it has units, plus one.
digits : ℕ → ℕ → Text
digits zero n = []
digits (suc fuel) n =
    let rest = digits fuel (n / 10) ++ (b'0' + n % 10) ∷ [] in
    if ltb n 10 then (b'0' + n) ∷ [] else rest

unfoldable pub decimal : ℕ → Text
unfolding digits
decimal n = digits (suc n) n
