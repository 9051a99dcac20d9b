-- ===== src/Server/Arguments/Verdict.antt =====
-- Which command lines of the server are accepted: `processArguments` of src/startup_server.c.
use chronos_prototype.Base.{
  last_or, ◌≡◌, refl, false, Bool-cases, inl, inr, Option, none, some, List, [], ◌∷◌, arith, All,
  all_nil, all_cons,
}
use chronos_prototype.Base.Int.{ℤ, pos, ltb_ℤ, ◌≤ℤ◌}
use chronos_prototype.Server.{Doubles}
use chronos_prototype.Server.Arguments.{
  ServerOption, mode, clients, updaters, port, debug, validity, sampling, duration, no_load, help,
  unknown, Config, Arguments, accepted, rejected, exited, defaults, with_periods, check_config,
  set_options, process_arguments,
}

module _ {D : Type 0} where
  abbrev pub IsSetting : ServerOption D → Type 0
  IsSetting help = ⊥
  IsSetting unknown = ⊥
  IsSetting _ = Unit {0}

  abbrev pub mode_of : ServerOption D → Option ℤ
  mode_of (mode n) = some n
  mode_of _ = none

  abbrev pub clients_of : ServerOption D → Option ℤ
  clients_of (clients n) = some n
  clients_of _ = none

  abbrev pub updaters_of : ServerOption D → Option ℤ
  updaters_of (updaters n) = some n
  updaters_of _ = none

  abbrev pub port_of : ServerOption D → Option ℤ
  port_of (port n) = some n
  port_of _ = none

  abbrev pub debug_of : ServerOption D → Option ℤ
  debug_of (debug n) = some n
  debug_of _ = none

  abbrev pub load_of : ServerOption D → Option ℤ
  load_of no_load = some (pos 0)
  load_of _ = none

  abbrev pub validity_of : ServerOption D → Option D
  validity_of (validity x) = some x
  validity_of _ = none

  abbrev pub sampling_of : ServerOption D → Option D
  sampling_of (sampling x) = some x
  sampling_of _ = none

  abbrev pub duration_of : ServerOption D → Option D
  duration_of (duration x) = some x
  duration_of _ = none

  -- Every field that an option can set has its last value, and is else that of `c`.
  abbrev pub Chosen : List (ServerOption D) → Config D → Config D → Type 0
  Chosen os c c' =
      (c'.running_mode ≡ last_or mode_of c.running_mode os)
      × (c'.num_clients_threads ≡ last_or clients_of c.num_clients_threads os)
      × (c'.num_update_threads ≡ last_or updaters_of c.num_update_threads os)
      × (c'.server_port ≡ last_or port_of c.server_port os)
      × (c'.debug_level ≡ last_or debug_of c.debug_level os)
      × (c'.initial_load ≡ last_or load_of c.initial_load os)
      × (c'.initial_validity_interval_ms ≡ last_or validity_of c.initial_validity_interval_ms os)
      × (c'.sampling_period_sec ≡ last_or sampling_of c.sampling_period_sec os)
      × (c'.duration_sec ≡ last_or duration_of c.duration_sec os)

module _ {D : Type 0} (d : Doubles D) where
  -- At least one client, one update thread and port 1, and a validity interval that is not 0 or less.
  abbrev pub Valid : Config D → Type 0
  Valid c =
      (pos 1 ≤ℤ c.num_clients_threads)
      × (d.le c.initial_validity_interval_ms d.zero ≡ false)
      × (pos 1 ≤ℤ c.num_update_threads)
      × (pos 1 ≤ℤ c.server_port)

  -- The update periods lie between half of the validity interval and all of it.
  abbrev pub Periods : Config D → Type 0
  Periods c =
      (c.min_update_period_ms ≡ d.mul d.half c.initial_validity_interval_ms)
      × (c.max_update_period_ms
          ≡ d.mul (d.mul d.half (d.of_int (pos 2))) c.initial_validity_interval_ms)

  abbrev pub Verdict : List (ServerOption D) → Config D → Arguments D → Type 0
  Verdict os c (accepted c') = All IsSetting os × Chosen os c c' × Valid c' × Periods c'
  Verdict os c rejected = All IsSetting os → (c' : Config D) → Chosen os c c' → ¬ Valid c'
  Verdict os c exited = ¬ All IsSetting os

  check_config-Verdict : (c : Config D) → Verdict [] c (check_config d c)
  unfolding check_config with_periods
  check_config-Verdict c = elim (Bool-cases (ltb_ℤ c.num_clients_threads (pos 1))) [
    | inl e ↦ rw e (λ _ c' h v. ground arith)
    | inr e ↦ elim (Bool-cases (d.le c.initial_validity_interval_ms d.zero)) [
      | inl e1 ↦ rw (e, e1) (λ _ c' h v. ground arith)
      | inr e1 ↦ elim (Bool-cases (ltb_ℤ c.num_update_threads (pos 1))) [
        | inl e2 ↦ rw (e, e1, e2) (λ _ c' h v. ground arith)
        | inr e2 ↦ elim (Bool-cases (ltb_ℤ c.server_port (pos 1))) [
          | inl e3 ↦ rw (e, e1, e2, e3) (λ _ c' h v. ground arith)
          | inr e3 ↦ rw (e, e1, e2, e3) (all_nil, ground arith, ground arith, (refl, refl))
        ]
      ]
    ]
  ]

  All-tail :
      {o : ServerOption D} {os : List (ServerOption D)} → All IsSetting (o ∷ os) → All IsSetting os
  All-tail (all_cons p ps) = ps

  -- An option that is a setting, which takes `c` to `c1`.
  setting :
      (o : ServerOption D) (os : List (ServerOption D)) (c c1 : Config D) (r : Arguments D)
      → IsSetting o
      → ((c' : Config D) → Chosen os c1 c' → Chosen (o ∷ os) c c')
      → ((c' : Config D) → Chosen (o ∷ os) c c' → Chosen os c1 c')
      → Verdict os c1 r
      → Verdict (o ∷ os) c r
  setting o os c c1 (accepted c') s to from (all, chosen, valid, periods) =
      (all_cons s all, to c' chosen, valid, periods)
  setting o os c c1 rejected s to from h = λ all c' chosen. h (All-tail all) c' (from c' chosen)
  setting o os c c1 exited s to from h = λ all. h (All-tail all)

  set_options-Verdict :
      (os : List (ServerOption D)) (c : Config D) → Verdict os c (set_options d os c)
  unfolding set_options
  set_options-Verdict [] c = check_config-Verdict c
  set_options-Verdict (mode n ∷ os) c =
      let c1 = record c { running_mode = n } in
      setting (mode n) os c c1 (set_options d os c1) tt (λ c' h. h) (λ c' h. h)
        (set_options-Verdict os c1)
  set_options-Verdict (clients n ∷ os) c =
      let c1 = record c { num_clients_threads = n } in
      setting (clients n) os c c1 (set_options d os c1) tt (λ c' h. h) (λ c' h. h)
        (set_options-Verdict os c1)
  set_options-Verdict (updaters n ∷ os) c =
      let c1 = record c { num_update_threads = n } in
      setting (updaters n) os c c1 (set_options d os c1) tt (λ c' h. h) (λ c' h. h)
        (set_options-Verdict os c1)
  set_options-Verdict (port n ∷ os) c =
      let c1 = record c { server_port = n } in
      setting (port n) os c c1 (set_options d os c1) tt (λ c' h. h) (λ c' h. h)
        (set_options-Verdict os c1)
  set_options-Verdict (debug n ∷ os) c =
      let c1 = record c { debug_level = n } in
      setting (debug n) os c c1 (set_options d os c1) tt (λ c' h. h) (λ c' h. h)
        (set_options-Verdict os c1)
  set_options-Verdict (validity x ∷ os) c =
      let c1 = record c { initial_validity_interval_ms = x } in
      setting (validity x) os c c1 (set_options d os c1) tt (λ c' h. h) (λ c' h. h)
        (set_options-Verdict os c1)
  set_options-Verdict (sampling x ∷ os) c =
      let c1 = record c { sampling_period_sec = x } in
      setting (sampling x) os c c1 (set_options d os c1) tt (λ c' h. h) (λ c' h. h)
        (set_options-Verdict os c1)
  set_options-Verdict (duration x ∷ os) c =
      let c1 = record c { duration_sec = x } in
      setting (duration x) os c c1 (set_options d os c1) tt (λ c' h. h) (λ c' h. h)
        (set_options-Verdict os c1)
  set_options-Verdict (no_load ∷ os) c =
      let c1 = record c { initial_load = pos 0 } in
      setting no_load os c c1 (set_options d os c1) tt (λ c' h. h) (λ c' h. h)
        (set_options-Verdict os c1)
  set_options-Verdict (help ∷ os) c = λ all. refuses all
    where
      refuses : All IsSetting (help ∷ os) → ⊥
      refuses (all_cons p ps) = p
  set_options-Verdict (unknown ∷ os) c = λ all c' chosen v. refuses all
    where
      refuses : All IsSetting (unknown ∷ os) → ⊥
      refuses (all_cons p ps) = p

  -- A command line is accepted only if all its options are settings and the last value of each field,
  -- or its default, makes a valid configuration; the result then has those values and the update
  -- periods that follow from the validity interval. It is rejected only if an option is unknown or
  -- asks for help, or if no configuration with those values is valid; and it ends in the usage only
  -- if an option is no setting.
  pub process_arguments-Verdict :
      (os : List (ServerOption D)) → Verdict os (defaults d) (process_arguments d os)
  unfolding process_arguments
  process_arguments-Verdict os = set_options-Verdict os (defaults d)
