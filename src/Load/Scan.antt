-- ===== src/Load/Scan.antt =====
-- `sscanf` as src/benchmark_initial_load.c uses it: a line goes into the bytes of a struct. A string
-- that is longer than its array runs on into the next one, as the code does; a write past the end of
-- the struct is undefined.
pub mod Memory
pub mod Fields
use chronos_prototype.Base.{
  ℕ, zero, suc, ◌+◌, Bool, Option, none, some, List, [], ◌∷◌, ◌++◌, ◌==◌, if◌then◌else◌, Text, leb,
  length,
}

-- `%f` and `%ld`
pub data Number : Type 0 where
  float long : Number

-- `scanset w c off` is `%w[^c]` into the array at offset `off`; `ignored w c size` the same into an
-- array of `size` bytes that is not read; `number k off` converts into the field at `off`.
pub data Directive : Type 0 where
  scanset : ℕ → ℕ → ℕ → Directive
  ignored : ℕ → ℕ → ℕ → Directive
  literal : ℕ → Directive
  number : Number → ℕ → Directive

-- The conversion of `strtof` and `strtol`: the bytes of the value, and what is left of the text.
abbrev pub Convert : Type 0
Convert = Number → Text → Option (List ℕ × Text)

infixl 5 ◌>>=◌
abbrev pub ◌>>=◌ : {A B : Type 0} → Option A → (A → Option B) → Option B
none >>= f = none
some a >>= f = f a

-- A write of bytes at an offset; none past the end.
unfoldable pub store : ℕ → List ℕ → List ℕ → Option (List ℕ)
store off [] mem = some mem
store off (b ∷ bs) [] = none
store zero (b ∷ bs) (m ∷ mem) = store zero bs mem >>= λ r. some (b ∷ r)
store (suc off) (b ∷ bs) (m ∷ mem) = store off (b ∷ bs) mem >>= λ r. some (m ∷ r)

-- The longest text without `c`, of at most `w` characters, and what is left.
unfoldable pub scan_set : ℕ → ℕ → Text → Text × Text
scan_set zero c s = ([], s)
scan_set (suc w) c [] = ([], [])
scan_set (suc w) c (x ∷ s) =
    let (a, r) = scan_set w c s in if x == c then ([], x ∷ s) else (x ∷ a, r)

-- What is scanned goes into its array with a NUL, and the conversions go on behind it.
abbrev pub put_set : ℕ → List ℕ → (Text → List ℕ → Option (List ℕ)) → Text × Text → Option (List ℕ)
put_set off mem next ([], r) = some mem
put_set off mem next (x ∷ xs, r) = store off (x ∷ xs ++ 0 ∷ []) mem >>= λ m. next r m

-- The conversions stop at the first that does not match.
unfoldable pub sscanf : Convert → List Directive → Text → List ℕ → Option (List ℕ)
unfolding store scan_set
sscanf conv [] s mem = some mem
sscanf conv (literal c ∷ ds) [] mem = some mem
sscanf conv (literal c ∷ ds) (x ∷ s) mem = if x == c then sscanf conv ds s mem else some mem
sscanf conv (scanset w c off ∷ ds) s mem =
    put_set off mem (λ r m. sscanf conv ds r m) (scan_set w c s)
sscanf conv (ignored w c size ∷ ds) s mem =
    let (a, r) = scan_set w c s in
    elim a [
      | [] ↦ some mem
      | x ∷ xs ↦ if leb size (length (x ∷ xs)) then none else sscanf conv ds r mem
    ]
sscanf conv (number k off ∷ ds) s mem = elim (conv k s) [
  | none ↦ some mem
  | some (bytes, r) ↦ store off bytes mem >>= λ m. sscanf conv ds r m
]

abbrev pub drop : ℕ → List ℕ → List ℕ
drop zero mem = mem
drop (suc n) [] = []
drop (suc n) (m ∷ mem) = drop n mem

-- The string at the start of the bytes, as `strlen` reads it; none with no NUL.
unfoldable pub c_string : List ℕ → Option Text
c_string [] = none
c_string (m ∷ mem) = if m == 0 then some [] else (c_string mem >>= λ s. some (m ∷ s))
