-- ===== src/Server/Sampling/Periods.antt =====
-- The update periods that `handler_sampling` of src/startup_server.c sets.
use chronos_prototype.Base.{
  ℕ, ◌<◌, ◌≡◌, ◌⊎◌, inl, inr, refl, Bool, true, false, Bool-cases, ◌==◌, ◌||◌, if◌then◌else◌, List,
  [], ◌∷◌, map, arith, All, all_nil, all_cons,
}
use chronos_prototype.Server.{
  Doubles, Slots, put, sampling_space, DataItem, ServerContext, mode_aup, mode_full, is_mode,
}
use chronos_prototype.Server.Sampling.{next_periods, sample_item, handler_sampling}

-- What is used of the arithmetic on doubles.
pub record Scales {D : Type 0} (d : Doubles D) : Type 0 where
  pub le_trans : (a b c : D) → d.le a b ≡ true → d.le b c ≡ true → d.le a c ≡ true
  pub grows : (a : D) → d.le d.zero a ≡ true → d.le a (d.mul a d.eleven_tenths) ≡ true
  pub shrinks : (a : D) → d.le d.zero a ≡ true → d.le (d.mul a d.nine_tenths) a ≡ true
  pub zero_grown : d.mul d.zero d.eleven_tenths ≡ d.zero
  pub zero_shrunk : d.mul d.zero d.nine_tenths ≡ d.zero

module _ {D : Type 0} (d : Doubles D) (lowest highest : D) where
  -- A period in the bounds, or the 0 of a slot that nothing was written to.
  abbrev pub Allowed : D → Type 0
  Allowed p = (p ≡ d.zero) ⊎ ((d.le lowest p ≡ true) × (d.le p highest ≡ true))

  abbrev pub AllowedIn : Slots D → Type 0
  AllowedIn periods = (i : ℕ) → Allowed (periods i)

  put-AllowedIn :
      (periods : Slots D) (i : ℕ) (p : D)
      → AllowedIn periods
      → Allowed p
      → AllowedIn (put periods i p)
  put-AllowedIn periods i p all new j = elim (Bool-cases (j == i)) [
    | inl e ↦ rw e new
    | inr e ↦ rw e (all j)
  ]

  module _ (sc : Scales d) (positive : d.le d.zero lowest ≡ true) where
    grown-Allowed :
        (p : D)
        → Allowed p
        → d.le (d.mul p d.eleven_tenths) highest ≡ true
        → Allowed (d.mul p d.eleven_tenths)
    grown-Allowed p (inl e) h = inl (rw e sc.zero_grown)
    grown-Allowed p (inr (low, high)) h = inr (
      sc.le_trans lowest p (d.mul p d.eleven_tenths) low
          (sc.grows p (sc.le_trans d.zero lowest p positive low)),
      h,
    )

    shrunk-Allowed :
        (p : D)
        → Allowed p
        → d.le lowest (d.mul p d.nine_tenths) ≡ true
        → Allowed (d.mul p d.nine_tenths)
    shrunk-Allowed p (inl e) h = inl (rw e sc.zero_shrunk)
    shrunk-Allowed p (inr (low, high)) h = inr (
      h,
      sc.le_trans (d.mul p d.nine_tenths) p highest
          (sc.shrinks p (sc.le_trans d.zero lowest p positive low)) high,
    )

    put-if-AllowedIn :
        (b : Bool) (periods : Slots D) (i : ℕ) (p : D)
        → AllowedIn periods
        → (b ≡ true → Allowed p)
        → AllowedIn (if b then put periods i p else periods)
    put-if-AllowedIn true periods i p all new = put-AllowedIn periods i p all (new refl)
    put-if-AllowedIn false periods i p all new = all

    next_periods-AllowedIn :
        (ratio : D) (previous new : ℕ) (periods : Slots D)
        → AllowedIn periods
        → AllowedIn (next_periods d lowest highest ratio previous new periods)
    unfolding next_periods
    next_periods-AllowedIn ratio previous new periods all = elim (Bool-cases (d.lt ratio d.one)) [
      | inl cold ↦
          rw cold
            (put-if-AllowedIn _ periods new _ all (grown-Allowed (periods previous) (all previous)))
      | inr warm ↦ elim (Bool-cases (d.lt d.one ratio)) [
        | inl hot ↦
            rw (warm, hot)
              (put-if-AllowedIn _ periods new _ all
                (shrunk-Allowed (periods previous) (all previous)))
        | inr even ↦ rw (warm, even) all
      ]
    ]

-- Every period of every item is allowed.
pub record PeriodsAllowed {D : Type 0} (d : Doubles D) (s : ServerContext D) : Type 0 where
  pub lowest_positive : d.le d.zero s.min_update_period_ms ≡ true
  pub lowest_reflexive : d.le s.min_update_period_ms s.min_update_period_ms ≡ true
  pub bounds_ordered : d.le s.min_update_period_ms s.max_update_period_ms ≡ true
  pub slot_in_range : s.current_slot < sampling_space
  pub all_allowed :
      All
        (λ (x : DataItem D).
          AllowedIn d s.min_update_period_ms s.max_update_period_ms x.update_period_ms)
        s.data_items

module _ {D : Type 0} (d : Doubles D) (sc : Scales d) (s : ServerContext D)
    (h : PeriodsAllowed d s) where
  sample_item-AllowedIn :
      (previous new : ℕ) (x : DataItem D)
      → AllowedIn d s.min_update_period_ms s.max_update_period_ms x.update_period_ms
      → AllowedIn d s.min_update_period_ms s.max_update_period_ms
          (sample_item d s previous new x).update_period_ms
  unfolding sample_item
  sample_item-AllowedIn previous new x all =
      elim (Bool-cases (is_mode mode_full s.running_mode || is_mode mode_aup s.running_mode)) [
        | inl e ↦ rw e (
            next_periods-AllowedIn d s.min_update_period_ms s.max_update_period_ms sc
              h.lowest_positive _ previous new x.update_period_ms all)
        | inr e ↦ rw e (
            put-AllowedIn d s.min_update_period_ms s.max_update_period_ms x.update_period_ms new _
              all (inr (h.lowest_reflexive, h.bounds_ordered)))
      ]

  map-AllowedIn :
      (previous new : ℕ) (xs : List (DataItem D))
      → All
          (λ (x : DataItem D).
            AllowedIn d s.min_update_period_ms s.max_update_period_ms x.update_period_ms)
          xs
      → All
          (λ (x : DataItem D).
            AllowedIn d s.min_update_period_ms s.max_update_period_ms x.update_period_ms)
          (map (sample_item d s previous new) xs)
  map-AllowedIn previous new [] all_nil = all_nil
  map-AllowedIn previous new (x ∷ xs) (all_cons p ps) =
      all_cons (sample_item-AllowedIn previous new x p) (map-AllowedIn previous new xs ps)

  -- A sampling keeps the slot in range and every update period of every slot in the bounds, or 0
  -- where the slot was never written.
  pub handler_sampling-PeriodsAllowed : PeriodsAllowed d (handler_sampling d s)
  unfolding handler_sampling
  handler_sampling-PeriodsAllowed = record {
    lowest_positive = h.lowest_positive;
    lowest_reflexive = h.lowest_reflexive;
    bounds_ordered = h.bounds_ordered;
    slot_in_range = omega arith;
    all_allowed = map-AllowedIn _ _ s.data_items h.all_allowed;
  }
