-- ===== src/Server/Example.antt =====
-- Numbers in tenths in place of doubles, and a server of one item, for the tests.
use chronos_prototype.Base.{ℕ, ◌+◌, ◌-◌, ◌*◌, ◌/◌, ◌≡◌, refl, [], ◌∷◌, leb, ltb, ◌==◌, arith}
use chronos_prototype.Base.Int.{ℤ, pos, negsuc}
use chronos_prototype.Xact.Example.{acme}
use chronos_prototype.Server.{Doubles, DataItem, ServerContext}
use chronos_prototype.Server.Sampling.Periods.{Scales}
use chronos_prototype.Server.Sampling.Waiting.{NoShare}
use chronos_prototype.Server.Admission.{Halves}

abbrev pub tenths_of : ℤ → ℕ
tenths_of (pos n) = n * 10
tenths_of (negsuc n) = 0

abbrev pub tenths : Doubles ℕ
tenths = record {
  zero = 0;
  one = 10;
  tenth = 1;
  nine_tenths = 9;
  eleven_tenths = 11;
  half = 5;
  two_fifths = 4;
  hundred = 1000;
  of_int = tenths_of;
  to_int = λ x. pos (x / 10);
  to_nat = λ x. x / 10;
  lt = ltb;
  le = leb;
  eq = λ x y. x == y;
  add = λ x y. x + y;
  sub = λ x y. x - y;
  mul = λ x y. x * y / 10;
  div = λ x y. x * 10 / y;
}

pub tenths-Scales : Scales tenths
tenths-Scales = record {
  le_trans = λ a b c h g. ground arith;
  grows = λ a h. ground arith;
  shrinks = λ a h. ground arith;
  zero_grown = refl;
  zero_shrunk = refl;
}

-- Each of these numbers is finite.
abbrev pub IsFinite : ℕ → Type 0
IsFinite x = Unit {0}

pub tenths-NoShare : NoShare tenths IsFinite
tenths-NoShare x fin h = let e : 0 * x ≡ 0 = omega arith in rw e refl

pub tenths-Halves : Halves tenths
tenths-Halves v n h = (ground arith, ground arith, ground arith)

abbrev pub acme_item : DataItem ℕ
acme_item = record {
  index = 0;
  data_item = acme;
  next_update_time_ms = 50;
  update_frequency = λ i. 0;
  access_update_ratio = λ i. 0;
  update_period_ms = λ i. 5000;
}

abbrev pub context : ServerContext ℕ
context = record {
  running_mode = pos 3;
  min_update_period_ms = 5000;
  max_update_period_ms = 10000;
  desired_delay_bound_ms = 10;
  user_occupied = 0;
  sys_occupied = 0;
  current_slot = 0;
  stats_matrix = λ i. [];
  average_service_delay_ms = 0;
  degree_timing_violation = 0;
  smoth_degree_timing_violation = 0;
  alpha = 4;
  num_txn_to_wait = pos 2;
  total_txns_enqueued = 0;
  data_items = acme_item ∷ (record acme_item { index = 1; next_update_time_ms = 900 }) ∷ [];
}
