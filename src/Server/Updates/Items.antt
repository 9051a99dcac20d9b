-- ===== src/Server/Updates/Items.antt =====
-- The update periods of the data items of src/startup_server.c, at the start and after updates.
use chronos_prototype.Base.{
  ℕ, ◌+◌, ◌≡◌, refl, inl, inr, ◌==◌, Bool-cases, List, [], ◌∷◌, All, all_nil, all_cons, All-set,
  All-get_elem?, get_elem?, some, Text,
}
use chronos_prototype.Server.{Doubles, DataItem, ServerContext}
use chronos_prototype.Server.Sampling.Periods.{Allowed, AllowedIn, PeriodsAllowed}
use chronos_prototype.Server.Updates.{UpdateTurn, start_item, start_items, touched, touch_item}

module _ {D : Type 0} (d : Doubles D) (lowest highest : D) where
  start_item-AllowedIn :
      (p : D) (time i : ℕ) (key : Text)
      → Allowed d lowest highest p
      → AllowedIn d lowest highest (start_item d p time i key).update_period_ms
  unfolding start_item
  start_item-AllowedIn p time i key h j = elim (Bool-cases (j == 0)) [
    | inl e ↦ rw e h
    | inr e ↦ rw e (inl refl)
  ]

  pub start_items-AllowedIn :
      (p : D) (time i : ℕ) (keys : List Text)
      → Allowed d lowest highest p
      → All
          (λ (x : DataItem D). AllowedIn d lowest highest x.update_period_ms)
          (start_items d p time i keys)
  unfolding start_items
  start_items-AllowedIn p time i [] h = all_nil
  start_items-AllowedIn p time i (key ∷ keys) h =
      all_cons (start_item-AllowedIn p time i key h) (start_items-AllowedIn p time (i + 1) keys h)

module _ {D : Type 0} (d : Doubles D) where
  pub touch_item-PeriodsAllowed :
      (turn : UpdateTurn) (i : ℕ) (x : DataItem D) (s : ServerContext D)
      → get_elem? s.data_items i ≡ some x
      → PeriodsAllowed d s
      → PeriodsAllowed d (touch_item d turn i x s)
  unfolding touch_item touched
  touch_item-PeriodsAllowed turn i x s at_i h = record {
    lowest_positive = h.lowest_positive;
    lowest_reflexive = h.lowest_reflexive;
    bounds_ordered = h.bounds_ordered;
    slot_in_range = h.slot_in_range;
    all_allowed = All-set i _ h.all_allowed (All-get_elem? i h.all_allowed at_i);
  }

  pub touch_item-num_txn_to_wait :
      (turn : UpdateTurn) (i : ℕ) (x : DataItem D) (s : ServerContext D)
      → ((touch_item d turn i x s).num_txn_to_wait ≡ s.num_txn_to_wait)
        × ((touch_item d turn i x s).running_mode ≡ s.running_mode)
        × ((touch_item d turn i x s).user_occupied ≡ s.user_occupied)
        × ((touch_item d turn i x s).sys_occupied ≡ s.sys_occupied)
  unfolding touch_item
  touch_item-num_txn_to_wait turn i x s = (refl, refl, refl, refl)
