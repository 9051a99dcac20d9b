-- ===== src/Time/Sums.antt =====
-- The sum of include/chronos.h and its conversions to and from milliseconds: CHRONOS_TIME_ADD,
-- CHRONOS_TIME_TO_MS and CHRONOS_MS_TO_TIME.
use chronos_prototype.Base.{
  ℕ, zero, suc, ◌+◌, ◌*◌, ◌/◌, ◌%◌, ◌<◌, ◌≡◌, ◌⊎◌, inl, inr, refl, ◌∙◌, ap, arith, if◌then◌else◌,
}
use chronos_prototype.Base.Int.{
  ℤ, pos, negsuc, ◌+ℤ◌, ltb_ℤ, pos_part, neg_part, +ℤ_parts, eq_of_parts,
}
use chronos_prototype.Time.{ChronosTime, nsec_to_sec}
use chronos_prototype.Time.Laws.{time, add_pos, lt-cases, ltb_ℤ-true, ltb_ℤ-false}

-- The number -n.
abbrev pub neg : ℕ → ℤ
neg zero = pos 0
neg (suc n) = negsuc n

-- Division, remainder and product by a positive constant; the quotient is rounded towards 0.
tdiv : ℤ → ℕ → ℤ
tdiv (pos a) k = pos (a / k)
tdiv (negsuc a) k = neg (suc a / k)

tmod : ℤ → ℕ → ℤ
tmod (pos a) k = pos (a % k)
tmod (negsuc a) k = neg (suc a % k)

scale : ℤ → ℕ → ℤ
scale (pos a) k = pos (a * k)
scale (negsuc a) k = neg (suc a * k)

-- CHRONOS_TIME_ADD
pub time_add : ChronosTime → ChronosTime → ChronosTime
time_add t1 t2 =
    let n = t1.tv_nsec +ℤ t2.tv_nsec in
    let s = t1.tv_sec +ℤ t2.tv_sec in
    if ltb_ℤ (pos nsec_to_sec) n
    then record { tv_sec = tdiv n nsec_to_sec +ℤ s; tv_nsec = tmod n nsec_to_sec }
    else record { tv_sec = pos 0 +ℤ s; tv_nsec = n }

-- CHRONOS_TIME_TO_MS
pub time_to_ms : ChronosTime → ℤ
time_to_ms t = scale t.tv_sec 1000 +ℤ tdiv t.tv_nsec 1000000

-- CHRONOS_MS_TO_TIME
pub ms_to_time : ℤ → ChronosTime
ms_to_time ms = record { tv_sec = tdiv ms 1000; tv_nsec = scale (tmod ms 1000) 1000000 }

neg_parts : (a : ℕ) → (pos_part (neg a) ≡ 0) × (neg_part (neg a) ≡ a)
neg_parts zero = (refl, refl)
neg_parts (suc a) = (refl, refl)

add_neg : (a b : ℕ) → neg a +ℤ neg b ≡ neg (a + b)
add_neg a b =
    eq_of_parts _ _
      (omega (arith, +ℤ_parts (neg a) (neg b), neg_parts a, neg_parts b, neg_parts (a + b)))

scale-neg : (a k : ℕ) → scale (neg a) k ≡ neg (a * k)
unfolding scale
scale-neg zero k =
    ap pos {x = 0 * k} {y = 0} (omega arith) ∙ ap neg {x = 0} {y = 0 * k} (omega arith)
scale-neg (suc a) k = refl

tdiv-neg : (a : ℕ) → tdiv (neg a) 1000000 ≡ neg (a / 1000000)
unfolding tdiv
tdiv-neg zero = refl
tdiv-neg (suc a) = refl

-- The milliseconds of a time that was made from milliseconds, negative ones included, are those.
pub time_to_ms-ms_to_time : (ms : ℤ) → time_to_ms (ms_to_time ms) ≡ ms
unfolding time_to_ms ms_to_time tdiv tmod scale
time_to_ms-ms_to_time (pos a) =
    add_pos (a / 1000 * 1000) (a % 1000 * 1000000 / 1000000) ∙ ap pos (omega arith)
time_to_ms-ms_to_time (negsuc a) =
    rw
      (
        scale-neg (suc a / 1000) 1000,
        scale-neg (suc a % 1000) 1000000,
        tdiv-neg (suc a % 1000 * 1000000),
        add_neg (suc a / 1000 * 1000) (suc a % 1000 * 1000000 / 1000000),
      )
      (ap neg {x = suc a / 1000 * 1000 + suc a % 1000 * 1000000 / 1000000} {y = suc a}
        (omega arith))

-- The sum of two readings, each with less than a second of nanoseconds, counts their nanoseconds
-- together. It has less than a second of them, unless they are one second exactly.
pub time_add-sum :
    (s n s' n' : ℕ)
    → n < nsec_to_sec
    → n' < nsec_to_sec
    → (d : ℕ) × (m : ℕ) × (time_add (time s n) (time s' n') ≡ time d m)
      × (d * nsec_to_sec + m ≡ (s * nsec_to_sec + n) + (s' * nsec_to_sec + n'))
      × ((m < nsec_to_sec) ⊎ (n + n' ≡ nsec_to_sec))
unfolding time_add tdiv tmod
time_add-sum s n s' n' h h' = elim (lt-cases nsec_to_sec (n + n')) [
  | inl over ↦ (
    (n + n') / nsec_to_sec + (s + s'),
    (n + n') % nsec_to_sec,
    rw
        (
          add_pos n n',
          add_pos s s',
          ltb_ℤ-true nsec_to_sec (n + n') over,
          add_pos ((n + n') / nsec_to_sec) (s + s'),
        )
        refl,
    omega arith,
    inl (omega arith),
  )
  | inr within ↦ (
    s + s',
    n + n',
    rw (add_pos n n', add_pos s s', ltb_ℤ-false nsec_to_sec (n + n') within, add_pos 0 (s + s'))
        (ap (λ (x : ℕ). time x (n + n')) {x = 0 + (s + s')} {y = s + s'} (omega arith)),
    omega arith,
    omega arith,
  )
]
