-- ===== src/Workload/Arguments.antt =====
-- The command line of the client: `initProcessArguments` and `processArguments` of
-- src/startup_client.c, with the build of src/Makefile (CHRONOS_DEBUG). What `getopt` finds, with the
-- numbers that `atoi` reads, is the list of options.
use chronos_prototype.Base.{
  ◌≡◌, refl, ap, false, ◌||◌, Bool-cases, inl, inr, Option, none, some, List, [], ◌∷◌, arith, All,
  all_nil, all_cons, last_or, take, if◌then◌else◌, Text,
}
use chronos_prototype.Base.Int.{ℤ, pos, ltb_ℤ, ◌≤ℤ◌}
use chronos_prototype.Orders.{is_empty}

pub data ClientOption : Type 0 where
  threads port view_stock_rate debug : ℤ → ClientOption
  address : Text → ClientOption
  -- -h, and what `processArguments` does not know: also -n, which `getopt` takes
  help unknown : ClientOption

-- The fields of `chronosClientContext_t` that are set at the start.
pub record ClientConfig : Type 0 where
  pub num_clients_threads : ℤ
  pub server_address : Text
  pub server_port : ℤ
  pub percentage_view_stock : ℤ
  pub debug_level : ℤ
  pub min_thinking_time : ℤ
  pub max_thinking_time : ℤ

pub data ClientArguments : Type 0 where
  accepted : ClientConfig → ClientArguments
  rejected exited : ClientArguments

-- `memset` and `initProcessArguments`. The address is CHRONOS_SERVER_ADDRESS.
unfoldable pub client_defaults : ClientConfig
client_defaults = record {
  num_clients_threads = pos 10;
  server_address = b'1' ∷ b'2' ∷ b'7' ∷ b'.' ∷ b'0' ∷ b'.' ∷ b'0' ∷ b'.' ∷ b'1' ∷ [];
  server_port = pos 5000;
  percentage_view_stock = pos 60;
  debug_level = pos 10;
  min_thinking_time = pos 500;
  max_thinking_time = pos 1000;
}

-- The tests after the loop.
pub check_client_config : ClientConfig → ClientArguments
check_client_config c =
    if ltb_ℤ c.num_clients_threads (pos 1)
    then rejected
    else if ltb_ℤ c.percentage_view_stock (pos 1) || ltb_ℤ (pos 100) c.percentage_view_stock
    then rejected
    else if ltb_ℤ c.server_port (pos 1)
    then rejected
    else if is_empty c.server_address
    then rejected
    else accepted c

-- The loop over the options. An address is cut to the array of 256 bytes.
pub set_client_options : List ClientOption → ClientConfig → ClientArguments
unfolding check_client_config
set_client_options [] c = check_client_config c
set_client_options (threads n ∷ os) c = set_client_options os (record c { num_clients_threads = n })
set_client_options (port n ∷ os) c = set_client_options os (record c { server_port = n })
set_client_options (view_stock_rate n ∷ os) c =
    set_client_options os (record c { percentage_view_stock = n })
set_client_options (debug n ∷ os) c = set_client_options os (record c { debug_level = n })
set_client_options (address a ∷ os) c =
    set_client_options os (record c { server_address = take 255 a })
set_client_options (help ∷ os) c = exited
set_client_options (unknown ∷ os) c = rejected

unfoldable pub process_client_arguments : List ClientOption → ClientArguments
unfolding set_client_options client_defaults
process_client_arguments os = set_client_options os client_defaults

abbrev pub IsSetting : ClientOption → Type 0
IsSetting help = ⊥
IsSetting unknown = ⊥
IsSetting _ = Unit {0}

abbrev pub threads_of : ClientOption → Option ℤ
threads_of (threads n) = some n
threads_of _ = none

abbrev pub port_of : ClientOption → Option ℤ
port_of (port n) = some n
port_of _ = none

abbrev pub rate_of : ClientOption → Option ℤ
rate_of (view_stock_rate n) = some n
rate_of _ = none

abbrev pub debug_of : ClientOption → Option ℤ
debug_of (debug n) = some n
debug_of _ = none

abbrev pub address_of : ClientOption → Option Text
address_of (address a) = some (take 255 a)
address_of _ = none

-- Every field that an option can set has its last value, and is else that of `c`.
abbrev pub Chosen : List ClientOption → ClientConfig → ClientConfig → Type 0
Chosen os c c' =
    (c'.num_clients_threads ≡ last_or threads_of c.num_clients_threads os)
    × (c'.server_port ≡ last_or port_of c.server_port os)
    × (c'.percentage_view_stock ≡ last_or rate_of c.percentage_view_stock os)
    × (c'.debug_level ≡ last_or debug_of c.debug_level os)
    × (c'.server_address ≡ last_or address_of c.server_address os)
    × (c'.min_thinking_time ≡ c.min_thinking_time)
    × (c'.max_thinking_time ≡ c.max_thinking_time)

-- At least one thread and port 1, a percentage from 1 to 100, and an address.
abbrev pub Valid : ClientConfig → Type 0
Valid c =
    (pos 1 ≤ℤ c.num_clients_threads)
    × (pos 1 ≤ℤ c.percentage_view_stock)
    × (c.percentage_view_stock ≤ℤ pos 100)
    × (pos 1 ≤ℤ c.server_port)
    × (is_empty c.server_address ≡ false)

abbrev pub Verdict : List ClientOption → ClientConfig → ClientArguments → Type 0
Verdict os c (accepted c') = All IsSetting os × Chosen os c c' × Valid c'
Verdict os c rejected = All IsSetting os → (c' : ClientConfig) → Chosen os c c' → ¬ Valid c'
Verdict os c exited = ¬ All IsSetting os

check_client_config-Verdict : (c : ClientConfig) → Verdict [] c (check_client_config c)
unfolding check_client_config
check_client_config-Verdict c = elim (Bool-cases (ltb_ℤ c.num_clients_threads (pos 1))) [
  | inl e ↦ rw e (λ _ c' h v. ground arith)
  | inr e ↦
      elim (Bool-cases
        (ltb_ℤ c.percentage_view_stock (pos 1) || ltb_ℤ (pos 100) c.percentage_view_stock)) [
          | inl e1 ↦ rw (e, e1) (λ _ c' h v. ground arith)
          | inr e1 ↦ elim (Bool-cases (ltb_ℤ c.server_port (pos 1))) [
            | inl e2 ↦ rw (e, e1, e2) (λ _ c' h v. ground arith)
            | inr e2 ↦ elim (Bool-cases (is_empty c.server_address)) [
              | inl e3 ↦ rw (e, e1, e2, e3) (λ _ c' h v. ground (arith, ap is_empty h.4))
              | inr e3 ↦
                  rw (e, e1, e2, e3)
                    (all_nil, (refl, refl, refl, refl, refl, refl, refl), ground arith)
            ]
          ]
        ]
]

All-tail : {o : ClientOption} {os : List ClientOption} → All IsSetting (o ∷ os) → All IsSetting os
All-tail (all_cons p ps) = ps

All-head : {o : ClientOption} {os : List ClientOption} → All IsSetting (o ∷ os) → IsSetting o
All-head (all_cons p ps) = p

-- An option that is a setting, which takes `c` to `c1`.
setting :
    (o : ClientOption) (os : List ClientOption) (c c1 : ClientConfig) (r : ClientArguments)
    → IsSetting o
    → ((c' : ClientConfig) → Chosen os c1 c' → Chosen (o ∷ os) c c')
    → ((c' : ClientConfig) → Chosen (o ∷ os) c c' → Chosen os c1 c')
    → Verdict os c1 r
    → Verdict (o ∷ os) c r
setting o os c c1 (accepted c') s to from (all, chosen, valid) =
    (all_cons s all, to c' chosen, valid)
setting o os c c1 rejected s to from h = λ all c' chosen. h (All-tail all) c' (from c' chosen)
setting o os c c1 exited s to from h = λ all. h (All-tail all)

set_client_options-Verdict :
    (os : List ClientOption) (c : ClientConfig) → Verdict os c (set_client_options os c)
unfolding set_client_options
set_client_options-Verdict [] c = check_client_config-Verdict c
set_client_options-Verdict (threads n ∷ os) c =
    let c1 = record c { num_clients_threads = n } in
    setting (threads n) os c c1 (set_client_options os c1) tt (λ c' h. h) (λ c' h. h)
      (set_client_options-Verdict os c1)
set_client_options-Verdict (port n ∷ os) c =
    let c1 = record c { server_port = n } in
    setting (port n) os c c1 (set_client_options os c1) tt (λ c' h. h) (λ c' h. h)
      (set_client_options-Verdict os c1)
set_client_options-Verdict (view_stock_rate n ∷ os) c =
    let c1 = record c { percentage_view_stock = n } in
    setting (view_stock_rate n) os c c1 (set_client_options os c1) tt (λ c' h. h) (λ c' h. h)
      (set_client_options-Verdict os c1)
set_client_options-Verdict (debug n ∷ os) c =
    let c1 = record c { debug_level = n } in
    setting (debug n) os c c1 (set_client_options os c1) tt (λ c' h. h) (λ c' h. h)
      (set_client_options-Verdict os c1)
set_client_options-Verdict (address a ∷ os) c =
    let c1 = record c { server_address = take 255 a } in
    setting (address a) os c c1 (set_client_options os c1) tt (λ c' h. h) (λ c' h. h)
      (set_client_options-Verdict os c1)
set_client_options-Verdict (help ∷ os) c = λ all. All-head all
set_client_options-Verdict (unknown ∷ os) c = λ all c' chosen v. All-head all

-- A command line of the client is accepted only if all its options are settings and the last value of
-- each field, or its default, makes a valid configuration, which the result is; it is rejected only
-- if an option is unknown or asks for help, or if no configuration with those values is valid; and it
-- ends in the usage only if an option is no setting.
pub process_client_arguments-Verdict :
    (os : List ClientOption) → Verdict os client_defaults (process_client_arguments os)
unfolding process_client_arguments
process_client_arguments-Verdict os = set_client_options-Verdict os client_defaults
