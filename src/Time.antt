-- ===== src/Time.antt =====
-- include/chronos.h: `chronos_time_t`, which is `struct timespec`, and the macros on it. The fields
-- are signed and 64 bits wide; clock readings are far inside that.
pub mod Laws
pub mod Sums
use Prim.Native.Nat.{ℕ, ◌*◌, ◌/◌, ◌%◌}
use chronos_prototype.Base.{◌&&◌, Bool, true, false, if◌then◌else◌}
use chronos_prototype.Base.Int.{ℤ, pos, negsuc, ◌+ℤ◌, ◌-ℤ◌, ltb_ℤ}

pub record ChronosTime : Type 0 where
  pub tv_sec : ℤ
  pub tv_nsec : ℤ

-- What `memset` leaves.
abbrev pub zero_time : ChronosTime
zero_time = record { tv_sec = pos 0; tv_nsec = pos 0 }

-- NSEC_TO_SEC
abbrev pub nsec_to_sec : ℕ
nsec_to_sec = 1000000000

-- CHRONOS_TIME_NANO_OFFSET_GET
pub nano_offset : ChronosTime → ChronosTime → ChronosTime
nano_offset begin end =
    if ltb_ℤ begin.tv_sec end.tv_sec && ltb_ℤ end.tv_nsec begin.tv_nsec
    then record {
      tv_sec = end.tv_sec -ℤ pos 1 -ℤ begin.tv_sec;
      tv_nsec = end.tv_nsec +ℤ pos nsec_to_sec -ℤ begin.tv_nsec;
    }
    else if ltb_ℤ end.tv_sec begin.tv_sec && ltb_ℤ begin.tv_nsec end.tv_nsec
    then record {
      tv_sec = end.tv_sec -ℤ (begin.tv_sec -ℤ pos 1);
      tv_nsec = end.tv_nsec -ℤ (begin.tv_nsec +ℤ pos nsec_to_sec);
    }
    else record { tv_sec = end.tv_sec -ℤ begin.tv_sec; tv_nsec = end.tv_nsec -ℤ begin.tv_nsec }
