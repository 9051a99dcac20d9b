-- ===== src/Server/Sampling/Waiting.antt =====
-- How many transactions `handler_sampling` of src/startup_server.c asks to wait for.
use chronos_prototype.Base.{ℕ, ◌+◌, ◌≡◌, refl, true, false, ◌||◌, Bool-cases, inl, inr, arith}
use chronos_prototype.Base.Int.{ℤ, pos}
use chronos_prototype.Server.{Doubles, ServerContext, mode_ac, mode_full, is_mode}
use chronos_prototype.Server.Sampling.{txns_to_wait, handler_sampling}

-- A share of no transactions is none, by a degree that is finite: `IsFinite` is that of `double`. At an
-- infinite one the product is a NaN.
abbrev pub NoShare : {D : Type 0} → Doubles D → (D → Type 0) → Type 0
NoShare d IsFinite =
    (x : _)
    → IsFinite x
    → d.lt d.zero x ≡ true
    → d.to_int (d.div (d.mul (d.of_int (pos 0)) x) d.hundred) ≡ pos 0

module _ {D : Type 0} (d : Doubles D) where
  txns_to_wait-other :
      (mode : ℤ) (n : ℕ) (x : D)
      → (is_mode mode_full mode || is_mode mode_ac mode) ≡ false
      → txns_to_wait d mode n x ≡ pos 0
  unfolding txns_to_wait
  txns_to_wait-other mode n x h = rw h refl

  txns_to_wait-zero :
      {IsFinite : D → Type 0} (mode : ℤ) (x : D)
      → NoShare d IsFinite
      → IsFinite x
      → txns_to_wait d mode 0 x ≡ pos 0
  unfolding txns_to_wait
  txns_to_wait-zero mode x law fin =
      elim (Bool-cases (is_mode mode_full mode || is_mode mode_ac mode)) [
        | inl e ↦ elim (Bool-cases (d.lt d.zero x)) [
          | inl h ↦ rw (e, h) (law x fin h)
          | inr h ↦ rw (e, h) refl
        ]
        | inr e ↦ rw e refl
      ]

  pub handler_sampling-other :
      (s : ServerContext D)
      → (is_mode mode_full s.running_mode || is_mode mode_ac s.running_mode) ≡ false
      → (handler_sampling d s).num_txn_to_wait ≡ pos 0
  unfolding handler_sampling
  handler_sampling-other s h = txns_to_wait-other s.running_mode _ _ h

  pub handler_sampling-empty :
      {IsFinite : D → Type 0} (s : ServerContext D)
      → NoShare d IsFinite
      → IsFinite (handler_sampling d s).smoth_degree_timing_violation
      → s.user_occupied ≡ 0
      → s.sys_occupied ≡ 0
      → (handler_sampling d s).num_txn_to_wait ≡ pos 0
  unfolding handler_sampling
  handler_sampling-empty s law fin u v =
      let none_left : s.user_occupied + s.sys_occupied ≡ 0 = omega arith in
      rw none_left (txns_to_wait-zero s.running_mode _ law fin)

  pub handler_sampling-load :
      (s : ServerContext D)
      → ((handler_sampling d s).running_mode ≡ s.running_mode)
        × ((handler_sampling d s).user_occupied ≡ s.user_occupied)
        × ((handler_sampling d s).sys_occupied ≡ s.sys_occupied)
  unfolding handler_sampling
  handler_sampling-load s = (refl, refl, refl)
