-- ===== src/Server/Admission.antt =====
-- The server's context over time: every change that the threads of src/startup_server.c and the
-- sampling make of it, one at a time, from the start on.
use chronos_prototype.Base.{
  ℕ, ◌≡◌, ◌⊎◌, inl, inr, refl, ◌∙◌, ap, subst, Bool, true, false, ◌||◌, some, List, get_elem?,
  arith, Text,
}
use chronos_prototype.Base.Int.{pos}
use chronos_prototype.Time.{ChronosTime}
use chronos_prototype.Server.{Doubles, DataItem, ServerContext, mode_ac, mode_full, is_mode}
use chronos_prototype.Server.Sampling.{handler_sampling}
use chronos_prototype.Server.Sampling.Periods.{
  Scales, PeriodsAllowed, handler_sampling-PeriodsAllowed,
}
use chronos_prototype.Server.Sampling.Waiting.{
  NoShare, handler_sampling-other, handler_sampling-empty, handler_sampling-load,
}
use chronos_prototype.Server.Process.{wait_less, after_txn}
use chronos_prototype.Server.Process.Stats.{
  SameSettings, wait_less-SameSettings, after_txn-SameSettings, wait_less-zero, after_txn-zero,
}
use chronos_prototype.Server.Updates.{UpdateTurn, touch_item}
use chronos_prototype.Server.Updates.Items.{
  start_items-AllowedIn, touch_item-PeriodsAllowed, touch_item-num_txn_to_wait,
}
use chronos_prototype.Server.Arguments.{ServerOption, Config, accepted, process_arguments, defaults}
use chronos_prototype.Server.Arguments.Verdict.{Verdict, process_arguments-Verdict}
use chronos_prototype.Server.Start.{start_context}

-- A user transaction or a refresh is noted, an item is put off, or the timer samples, with a degree
-- of timing violation that is finite after that.
pub data Step {D : Type 0} (d : Doubles D) (IsFinite : D → Type 0) (s : ServerContext D)
    : ServerContext D → Type 0 where
  sampled :
      IsFinite (handler_sampling d s).smoth_degree_timing_violation
      → Step d IsFinite s (handler_sampling d s)
  finished :
      (sampling : Bool) (thread : ℕ) (begin end : ChronosTime) (success : Bool)
      → Step d IsFinite s (after_txn d sampling thread begin end success s)
  refreshed : Step d IsFinite s (wait_less d s)
  put_off :
      (turn : UpdateTurn) (i : ℕ) (x : DataItem D)
      → get_elem? s.data_items i ≡ some x
      → Step d IsFinite s (touch_item d turn i x s)

pub data Reach {D : Type 0} (d : Doubles D) (IsFinite : D → Type 0) (s : ServerContext D)
    : ServerContext D → Type 0 where
  here : Reach d IsFinite s s
  next : {t u : ServerContext D} → Reach d IsFinite s t → Step d IsFinite t u → Reach d IsFinite s u

-- Nothing makes the sampling ask for a wait: the mode has no admission control, or no transaction is
-- in a ready queue.
abbrev pub Unloaded : {D : Type 0} → Doubles D → (D → Type 0) → ServerContext D → Type 0
Unloaded d IsFinite s =
    ((is_mode mode_full s.running_mode || is_mode mode_ac s.running_mode) ≡ false)
    ⊎ (NoShare d IsFinite × (s.user_occupied ≡ 0) × (s.sys_occupied ≡ 0))

pub record Idle {D : Type 0} (d : Doubles D) (IsFinite : D → Type 0) (s : ServerContext D)
    : Type 0 where
  pub unloaded : Unloaded d IsFinite s
  pub no_wait : s.num_txn_to_wait ≡ pos 0

module _ {D : Type 0} (d : Doubles D) (IsFinite : D → Type 0) where
  Unloaded-kept :
      (s t : ServerContext D)
      → t.running_mode ≡ s.running_mode
      → t.user_occupied ≡ s.user_occupied
      → t.sys_occupied ≡ s.sys_occupied
      → Unloaded d IsFinite s
      → Unloaded d IsFinite t
  Unloaded-kept s t m u v (inl h) = inl (ap (λ k. is_mode mode_full k || is_mode mode_ac k) m ∙ h)
  Unloaded-kept s t m u v (inr (law, a, b)) = inr (law, u ∙ a, v ∙ b)

  handler_sampling-no_wait :
      (s : ServerContext D)
      → Unloaded d IsFinite s
      → IsFinite (handler_sampling d s).smoth_degree_timing_violation
      → (handler_sampling d s).num_txn_to_wait ≡ pos 0
  handler_sampling-no_wait s (inl h) fin = handler_sampling-other d s h
  handler_sampling-no_wait s (inr (law, a, b)) fin = handler_sampling-empty d s law fin a b

  Unloaded-same :
      (s t : ServerContext D) → SameSettings s t → Unloaded d IsFinite s → Unloaded d IsFinite t
  Unloaded-same s t k = Unloaded-kept s t k.mode_kept k.user_kept k.sys_kept

  Step-Idle : (s t : ServerContext D) → Step d IsFinite s t → Idle d IsFinite s → Idle d IsFinite t
  Step-Idle s _ (sampled fin) h =
      let k = handler_sampling-load d s in
      record {
        unloaded = Unloaded-kept s (handler_sampling d s) k.0 k.1 k.2 h.unloaded;
        no_wait = handler_sampling-no_wait s h.unloaded fin;
      }
  Step-Idle s _ (finished sampling thread begin end success) h = record {
    unloaded =
        Unloaded-same s _ (after_txn-SameSettings d sampling thread begin end success s) h.unloaded;
    no_wait = after_txn-zero d sampling thread begin end success s h.no_wait;
  }
  Step-Idle s _ refreshed h = record {
    unloaded = Unloaded-same s _ (wait_less-SameSettings d s) h.unloaded;
    no_wait = wait_less-zero d s h.no_wait;
  }
  Step-Idle s _ (put_off turn i x at_i) h =
      let k = touch_item-num_txn_to_wait d turn i x s in
      record {
        unloaded = Unloaded-kept s (touch_item d turn i x s) k.1 k.2 k.3 h.unloaded;
        no_wait = k.0 ∙ h.no_wait;
      }

  -- Where the mode has no admission control, or nothing is ever in a ready queue, a server that waits
  -- for no transaction never comes to wait for one.
  pub Reach-Idle :
      {s t : ServerContext D} → Reach d IsFinite s t → Idle d IsFinite s → Idle d IsFinite t
  Reach-Idle here h = h
  Reach-Idle (next r st) h = Step-Idle _ _ st (Reach-Idle r h)

  same-PeriodsAllowed :
      (s t : ServerContext D) → SameSettings s t → PeriodsAllowed d s → PeriodsAllowed d t
  same-PeriodsAllowed s t k h = record {
    lowest_positive = rw k.min_kept h.lowest_positive;
    lowest_reflexive = rw k.min_kept h.lowest_reflexive;
    bounds_ordered = rw (k.min_kept, k.max_kept) h.bounds_ordered;
    slot_in_range = omega (arith, k.same_items.slot_kept, h.slot_in_range);
    all_allowed = rw (k.min_kept, k.max_kept, k.same_items.items_kept) h.all_allowed;
  }

  Step-PeriodsAllowed :
      (s t : ServerContext D)
      → Scales d
      → Step d IsFinite s t
      → PeriodsAllowed d s
      → PeriodsAllowed d t
  Step-PeriodsAllowed s _ sc (sampled fin) h = handler_sampling-PeriodsAllowed d sc s h
  Step-PeriodsAllowed s _ sc (finished sampling thread begin end success) h =
      same-PeriodsAllowed s _ (after_txn-SameSettings d sampling thread begin end success s) h
  Step-PeriodsAllowed s _ sc refreshed h = same-PeriodsAllowed s _ (wait_less-SameSettings d s) h
  Step-PeriodsAllowed s _ sc (put_off turn i x at_i) h =
      touch_item-PeriodsAllowed d turn i x s at_i h

  Reach-PeriodsAllowed :
      {s t : ServerContext D}
      → Scales d
      → Reach d IsFinite s t
      → PeriodsAllowed d s
      → PeriodsAllowed d t
  Reach-PeriodsAllowed sc here h = h
  Reach-PeriodsAllowed sc (next r st) h =
      Step-PeriodsAllowed _ _ sc st (Reach-PeriodsAllowed sc r h)

-- The bounds that a validity interval above 0 gives are in order.
abbrev pub Halves : {D : Type 0} → Doubles D → Type 0
Halves d =
    (v : _)
    → d.eq v v ≡ true
    → d.le v d.zero ≡ false
    → (d.le d.zero (d.mul d.half v) ≡ true)
      × (d.le (d.mul d.half v) (d.mul d.half v) ≡ true)
      × (d.le (d.mul d.half v) (d.mul (d.mul d.half (d.of_int (pos 2))) v) ≡ true)

module _ {D : Type 0} (d : Doubles D) (sc : Scales d) (halves : Halves d) (IsFinite : D → Type 0)
    (share : NoShare d IsFinite) where
  start_context-PeriodsAllowed :
      (c : Config D) (keys : List Text) (now : ℕ)
      → (d.le d.zero c.min_update_period_ms ≡ true)
        × (d.le c.min_update_period_ms c.min_update_period_ms ≡ true)
        × (d.le c.min_update_period_ms c.max_update_period_ms ≡ true)
      → PeriodsAllowed d (start_context d c keys now)
  unfolding start_context
  start_context-PeriodsAllowed c keys now (a, b, e) = record {
    lowest_positive = a;
    lowest_reflexive = b;
    bounds_ordered = e;
    slot_in_range = omega arith;
    all_allowed =
        start_items-AllowedIn d c.min_update_period_ms c.max_update_period_ms c.min_update_period_ms
          _ 0 keys (inr (b, e));
  }

  start_context-Idle :
      (c : Config D) (keys : List Text) (now : ℕ) → Idle d IsFinite (start_context d c keys now)
  unfolding start_context
  start_context-Idle c keys now = record { unloaded = inr (share, refl, refl); no_wait = refl }

  -- A server whose command line is accepted, with a validity interval that is a number, at any time
  -- after its start, with samples that come to finite degrees: the slot is in range, every update period of every item lies between half of the
  -- validity interval and all of it, or is 0 in a slot that nothing was written to, and no transaction
  -- is waited for, in whatever mode it runs.
  pub Reach-start_context :
      (os : List (ServerOption D)) (c : Config D) (keys : List Text) (now : ℕ) (s : ServerContext D)
      → process_arguments d os ≡ accepted c
      → d.eq c.initial_validity_interval_ms c.initial_validity_interval_ms ≡ true
      → Reach d IsFinite (start_context d c keys now) s
      → PeriodsAllowed d s × (s.num_txn_to_wait ≡ pos 0)
  Reach-start_context os c keys now s ran number r =
      let v : Verdict d os (defaults d) (accepted c) =
        subst (Verdict d os (defaults d)) ran (process_arguments-Verdict d os) in
      let h = halves c.initial_validity_interval_ms number v.2.1 in
      let bounds : (d.le d.zero c.min_update_period_ms ≡ true)
          × (d.le c.min_update_period_ms c.min_update_period_ms ≡ true)
          × (d.le c.min_update_period_ms c.max_update_period_ms ≡ true) =
        rw (v.3.0, v.3.1) h in
      (
        Reach-PeriodsAllowed d IsFinite sc r (start_context-PeriodsAllowed c keys now bounds),
        (Reach-Idle d IsFinite r (start_context-Idle c keys now)).no_wait,
      )
