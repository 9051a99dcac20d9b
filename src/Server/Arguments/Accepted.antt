-- ===== src/Server/Arguments/Accepted.antt =====
-- The command line of src/startup_server.c without options, for the tests.
use chronos_prototype.Base.{◌≡◌, refl, true, []}
use chronos_prototype.Server.Example.{tenths}
use chronos_prototype.Server.Arguments.{
  accepted, process_arguments, set_options, check_config, with_periods, defaults,
}

pub no_options-accepted :
    process_arguments tenths [] ≡ accepted (with_periods tenths (defaults tenths))
unfolding process_arguments set_options check_config defaults
no_options-accepted = refl

pub no_options-number :
    tenths.eq
      (with_periods tenths (defaults tenths)).initial_validity_interval_ms
      (with_periods tenths (defaults tenths)).initial_validity_interval_ms
    ≡ true
unfolding with_periods defaults
no_options-number = refl
