-- ===== src/Server/Arguments.antt =====
-- The command line of the server: `initProcessArguments` and `processArguments` of
-- src/startup_server.c, with the build of src/Makefile (CHRONOS_DEBUG). What `getopt` finds, with
-- the numbers that `atoi` and `atof` read, is the list of options.
pub mod Verdict
pub mod Accepted
use chronos_prototype.Base.{ℕ, ◌*◌, Bool, true, false, ◌||◌, if◌then◌else◌, List, [], ◌∷◌}
use chronos_prototype.Base.Int.{ℤ, pos, ltb_ℤ}
use chronos_prototype.Server.{Doubles}

pub data ServerOption (D : Type 0) : Type 0 where
  mode clients updaters port debug : ℤ → ServerOption D
  validity sampling duration : D → ServerOption D
  -- -n, -h, and what `getopt` does not know
  no_load help unknown : ServerOption D

-- The fields of `chronosServerContext_t` that the command line sets.
pub record Config (D : Type 0) : Type 0 where
  pub running_mode : ℤ
  pub num_server_threads : ℤ
  pub num_clients_threads : ℤ
  pub num_update_threads : ℤ
  pub num_updates_per_update_thread : ℤ
  pub server_port : ℤ
  pub initial_validity_interval_ms : D
  pub sampling_period_sec : D
  pub duration_sec : D
  pub desired_delay_bound_ms : D
  pub alpha : D
  pub initial_load : ℤ
  pub debug_level : ℤ
  pub min_update_period_ms : D
  pub max_update_period_ms : D
  pub update_period_ms : D

-- What `processArguments` comes to; `exited` is `exit(0)` after the usage.
pub data Arguments (D : Type 0) : Type 0 where
  accepted : Config D → Arguments D
  rejected exited : Arguments D

module _ {D : Type 0} (d : Doubles D) where
  -- `memset` and `initProcessArguments`.
  unfoldable pub defaults : Config D
  defaults = record {
    running_mode = pos 0;
    num_server_threads = pos 1;
    num_clients_threads = pos 10;
    num_update_threads = pos 100;
    num_updates_per_update_thread = pos 30;
    server_port = pos 5000;
    initial_validity_interval_ms = d.of_int (pos 1000);
    sampling_period_sec = d.of_int (pos 30);
    duration_sec = d.mul (d.of_int (pos 1)) (d.of_int (pos 60));
    desired_delay_bound_ms = d.of_int (pos 1);
    alpha = d.two_fifths;
    initial_load = pos 1;
    debug_level = pos 0;
    min_update_period_ms = d.zero;
    max_update_period_ms = d.zero;
    update_period_ms = d.zero;
  }

  -- The periods that follow from the validity interval.
  pub with_periods : Config D → Config D
  with_periods c = record c {
    min_update_period_ms = d.mul d.half c.initial_validity_interval_ms;
    max_update_period_ms = d.mul (d.mul d.half (d.of_int (pos 2))) c.initial_validity_interval_ms;
    update_period_ms = d.mul d.half c.initial_validity_interval_ms;
  }

  -- The tests after the loop.
  pub check_config : Config D → Arguments D
  unfolding with_periods
  check_config c =
      if ltb_ℤ c.num_clients_threads (pos 1)
      then rejected
      else if d.le c.initial_validity_interval_ms d.zero
      then rejected
      else if ltb_ℤ c.num_update_threads (pos 1)
      then rejected
      else if ltb_ℤ c.server_port (pos 1)
      then rejected
      else accepted (with_periods c)

  -- The loop over the options.
  unfoldable pub set_options : List (ServerOption D) → Config D → Arguments D
  unfolding check_config
  set_options [] c = check_config c
  set_options (mode n ∷ os) c = set_options os (record c { running_mode = n })
  set_options (clients n ∷ os) c = set_options os (record c { num_clients_threads = n })
  set_options (updaters n ∷ os) c = set_options os (record c { num_update_threads = n })
  set_options (port n ∷ os) c = set_options os (record c { server_port = n })
  set_options (debug n ∷ os) c = set_options os (record c { debug_level = n })
  set_options (validity x ∷ os) c = set_options os (record c { initial_validity_interval_ms = x })
  set_options (sampling x ∷ os) c = set_options os (record c { sampling_period_sec = x })
  set_options (duration x ∷ os) c = set_options os (record c { duration_sec = x })
  set_options (no_load ∷ os) c = set_options os (record c { initial_load = pos 0 })
  set_options (help ∷ os) c = exited
  set_options (unknown ∷ os) c = rejected

  unfoldable pub process_arguments : List (ServerOption D) → Arguments D
  unfolding set_options defaults
  process_arguments os = set_options os defaults
