-- ===== src/Load/Scan/Memory.antt =====
-- Writes into bytes, and the strings that are read from them: for the structs that `sscanf` fills.
use chronos_prototype.Base.{
  ℕ, zero, suc, ◌+◌, ◌≤◌, ◌<◌, ◌≡◌, ◌≢◌, inl, inr, refl, ap, some, List, [], ◌∷◌, ◌++◌, length,
  arith, All, all_cons, Text, Option-cases, Bool-cases, ◌==◌, subst,
}
use chronos_prototype.Load.Scan.{store, drop, c_string}

-- A write inside the bytes succeeds and keeps their number.
pub store-inside :
    (off : ℕ) (bs mem : List ℕ)
    → off + length bs ≤ length mem
    → (m : List ℕ) × (store off bs mem ≡ some m) × (length m ≡ length mem)
unfolding store
store-inside zero [] mem h = (mem, refl, refl)
store-inside (suc off) [] mem h = (mem, refl, refl)
store-inside zero (b ∷ bs) [] h = absurd (omega arith)
store-inside (suc off) (b ∷ bs) [] h = absurd (omega arith)
store-inside zero (b ∷ bs) (x ∷ mem) h =
    let (m, e, l) = store-inside zero bs mem (omega arith) in (b ∷ m, rw e refl, ap suc l)
store-inside (suc off) (b ∷ bs) (x ∷ mem) h =
    let (m, e, l) = store-inside off (b ∷ bs) mem (omega arith) in (x ∷ m, rw e refl, ap suc l)

pub c_string-append : (t rest : Text) → All (λ x. x ≢ 0) t → c_string (t ++ 0 ∷ rest) ≡ some t
unfolding c_string
c_string-append [] rest p = refl
c_string-append (x ∷ t) rest (all_cons q p) = ground (arith, c_string-append t rest p)

-- What is written is there.
store-zero : (bs mem m : List ℕ) → store 0 bs mem ≡ some m → (rest : List ℕ) × (m ≡ bs ++ rest)
unfolding store
store-zero [] mem m e = (m, refl)
store-zero (b ∷ bs) [] m e = absurd (ground arith)
store-zero (b ∷ bs) (x ∷ mem) m e = elim (Option-cases (store 0 bs mem)) [
  | inl n ↦ absurd (ground (arith, n))
  | inr (r, s) ↦ let (rest, g) = store-zero bs mem r s in (rest, ground (arith, s, g))
]

pub store-written :
    (off : ℕ) (bs mem m : List ℕ)
    → 0 < length bs
    → store off bs mem ≡ some m
    → (rest : List ℕ) × (drop off m ≡ bs ++ rest)
unfolding store
store-written off [] mem m h e = absurd (omega arith)
store-written zero (b ∷ bs) mem m h e = store-zero (b ∷ bs) mem m e
store-written (suc off) (b ∷ bs) [] m h e = absurd (ground arith)
store-written (suc off) (b ∷ bs) (x ∷ mem) m h e = elim (Option-cases (store off (b ∷ bs) mem)) [
  | inl n ↦ absurd (ground (arith, n))
  | inr (r, s) ↦
      let (rest, g) = store-written off (b ∷ bs) mem r h s in (rest, ground (arith, s, g))
]

-- What stands behind a write stays.
pub store-behind :
    (off : ℕ) (bs mem m : List ℕ) (off' : ℕ)
    → store off bs mem ≡ some m
    → off + length bs ≤ off'
    → drop off' m ≡ drop off' mem
unfolding store
store-behind off [] mem m off' e h = ground (arith, e)
store-behind off (b ∷ bs) [] m off' e h = absurd (ground arith)
store-behind off (b ∷ bs) (x ∷ mem) m zero e h = absurd (omega arith)
store-behind zero (b ∷ bs) (x ∷ mem) m (suc off') e h = elim (Option-cases (store 0 bs mem)) [
  | inl n ↦ absurd (ground (arith, n))
  | inr (r, s) ↦
      let g = store-behind zero bs mem r off' s (omega arith) in
      let same : b ∷ r ≡ m = ground (arith, e, s) in
      subst (λ k. drop (suc off') k ≡ drop off' mem) same g
]
store-behind (suc off) (b ∷ bs) (x ∷ mem) m (suc off') e h =
    elim (Option-cases (store off (b ∷ bs) mem)) [
      | inl n ↦ absurd (ground (arith, n))
      | inr (r, s) ↦
          let g = store-behind off (b ∷ bs) mem r off' s (omega arith) in
          let same : x ∷ r ≡ m = ground (arith, e, s) in
          subst (λ k. drop (suc off') k ≡ drop off' mem) same g
    ]

c_string_step :
    (off : ℕ) (bs mem r : List ℕ) (x : ℕ) (t : Text)
    → store off bs mem ≡ some r
    → c_string (x ∷ mem) ≡ some t
    → length t + 1 ≤ suc off
    → ((u : Text) → c_string mem ≡ some u → length u + 1 ≤ off → c_string r ≡ some u)
    → c_string (x ∷ r) ≡ some t
unfolding c_string
c_string_step off bs mem r x t s c h rec = elim (Bool-cases (x == 0)) [
  | inl z ↦ ground (arith, z)
  | inr nz ↦ elim (Option-cases (c_string mem)) [
    | inl n ↦ absurd (ground (arith, nz, n))
    | inr (u, g) ↦
        let same : x ∷ u ≡ t = ground (arith, nz, g, c) in
        let tail = rec u g (omega (arith, ap length same)) in ground (arith, nz, tail, same)
  ]
]

-- A string that ends before a write stays.
c_string-before :
    (off : ℕ) (bs mem m : List ℕ) (t : Text)
    → store off bs mem ≡ some m
    → c_string mem ≡ some t
    → length t + 1 ≤ off
    → c_string m ≡ some t
unfolding store c_string
c_string-before off bs [] m t e c h = absurd (ground arith)
c_string-before zero bs (x ∷ mem) m t e c h = absurd (omega arith)
c_string-before (suc off) [] (x ∷ mem) m t e c h = ground (arith, e)
c_string-before (suc off) (b ∷ bs) (x ∷ mem) m t e c h =
    elim (Option-cases (store off (b ∷ bs) mem)) [
      | inl n ↦ absurd (ground (arith, n))
      | inr (r, s) ↦
          let same : x ∷ r ≡ m = ground (arith, e, s) in
          subst (λ k. c_string k ≡ some t) same
            (c_string_step off (b ∷ bs) mem r x t s c h
              (λ u d g. c_string-before off (b ∷ bs) mem r u s d g))
    ]

pub drop-before :
    (o off : ℕ) (bs mem m : List ℕ) (t : Text)
    → store off bs mem ≡ some m
    → c_string (drop o mem) ≡ some t
    → o + length t + 1 ≤ off
    → c_string (drop o m) ≡ some t
unfolding store c_string
drop-before zero off bs mem m t e c h = c_string-before off bs mem m t e c (omega arith)
drop-before (suc o) zero bs mem m t e c h = absurd (omega arith)
drop-before (suc o) (suc off) bs [] m t e c h = absurd (ground (arith, c_string))
drop-before (suc o) (suc off) [] (x ∷ mem) m t e c h = ground (arith, e)
drop-before (suc o) (suc off) (b ∷ bs) (x ∷ mem) m t e c h =
    elim (Option-cases (store off (b ∷ bs) mem)) [
      | inl n ↦ absurd (ground (arith, n))
      | inr (r, s) ↦
          let same : x ∷ r ≡ m = ground (arith, e, s) in
          subst (λ k. c_string (drop (suc o) k) ≡ some t) same
            (drop-before o off (b ∷ bs) mem r t s c (omega arith))
    ]
