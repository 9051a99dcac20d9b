-- ===== src/Time/Laws.antt =====
-- `CHRONOS_TIME_NANO_OFFSET_GET` of include/chronos.h on clock readings.
use chronos_prototype.Base.{
  ℕ, ◌+◌, ◌-◌, ◌*◌, ◌≤◌, ◌<◌, ◌≡◌, ◌⊎◌, inl, inr, refl, Bool, true, false, ◌&&◌, arith, Bool-cases,
  ltb,
}
use chronos_prototype.Base.Int.{pos, ◌+ℤ◌, ◌-ℤ◌, ltb_ℤ}
use chronos_prototype.Time.{ChronosTime, nsec_to_sec, nano_offset}

-- A time of `s` seconds and `n` nanoseconds.
abbrev pub time : ℕ → ℕ → ChronosTime
time s n = record { tv_sec = pos s; tv_nsec = pos n }

sub_pos : (a b : ℕ) → b ≤ a → pos a -ℤ pos b ≡ pos (a - b)
unfolding ◌-ℤ◌
sub_pos a b h = ground arith

pub add_pos : (a b : ℕ) → pos a +ℤ pos b ≡ pos (a + b)
unfolding ◌+ℤ◌
add_pos a b = ground arith

pub lt-cases : (a b : ℕ) → (a < b) ⊎ (b ≤ a)
lt-cases a b = elim (Bool-cases (ltb a b)) [
  | inl e ↦ inl (ground (arith, e))
  | inr e ↦ inr (ground (arith, e))
]

pub ltb_ℤ-true : (a b : ℕ) → a < b → ltb_ℤ (pos a) (pos b) ≡ true
ltb_ℤ-true a b h = ground arith

pub ltb_ℤ-false : (a b : ℕ) → b ≤ a → ltb_ℤ (pos a) (pos b) ≡ false
ltb_ℤ-false a b h = ground arith

and-false : (b : Bool) → (b && false) ≡ false
and-false true = refl
and-false false = refl

-- A borrow of a second where the later nanoseconds are fewer.
nano_offset_borrow :
    (s n s' n' : ℕ)
    → s < s'
    → n' < n
    → n < nsec_to_sec
    → nano_offset (time s n) (time s' n') ≡ time (s' - 1 - s) (n' + nsec_to_sec - n)
unfolding nano_offset
nano_offset_borrow s n s' n' h g b =
    rw
      (
        ltb_ℤ-true s s' h,
        ltb_ℤ-true n' n g,
        sub_pos s' 1 (omega arith),
        sub_pos (s' - 1) s (omega arith),
        add_pos n' nsec_to_sec,
        sub_pos (n' + nsec_to_sec) n (omega arith),
      )
      refl

nano_offset_plain :
    (s n s' n' : ℕ) → s ≤ s' → n ≤ n' → nano_offset (time s n) (time s' n') ≡ time (s' - s) (n' - n)
unfolding nano_offset
nano_offset_plain s n s' n' h g =
    rw
      (
        ltb_ℤ-false n' n g,
        and-false (ltb_ℤ (pos s) (pos s')),
        ltb_ℤ-false s' s h,
        sub_pos s' s h,
        sub_pos n' n g,
      )
      refl

-- From one clock reading to one that is not earlier, both with less than a second of nanoseconds,
-- the offset is a time of the same kind, and added to the first it gives the second.
pub nano_offset-add :
    (s n s' n' : ℕ)
    → n < nsec_to_sec
    → n' < nsec_to_sec
    → s * nsec_to_sec + n ≤ s' * nsec_to_sec + n'
    → (d : ℕ) × (m : ℕ) × (nano_offset (time s n) (time s' n') ≡ time d m)
      × (m < nsec_to_sec)
      × ((s * nsec_to_sec + n) + (d * nsec_to_sec + m) ≡ s' * nsec_to_sec + n')
nano_offset-add s n s' n' h h' le = elim (lt-cases n' n) [
  | inl b ↦
      let later : s < s' = omega arith in
      (
        s' - 1 - s,
        n' + nsec_to_sec - n,
        nano_offset_borrow s n s' n' later b h,
        omega arith,
        omega arith,
      )
  | inr b ↦
      let later : s ≤ s' = omega arith in
      (s' - s, n' - n, nano_offset_plain s n s' n' later b, omega arith, omega arith)
]
