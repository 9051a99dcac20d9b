-- ===== src/Server/Process/Stats.antt =====
-- What the server notes of a transaction: the counters of src/startup_server.c.
use chronos_prototype.Base.{
  ℕ, ◌≡◌, refl, ◌∙◌, Bool, true, false, Bool-cases, inl, inr, arith, if◌then◌else◌, Text,
}
use chronos_prototype.Base.Int.{pos, ltb_ℤ}
use chronos_prototype.Time.{ChronosTime}
use chronos_prototype.Tables.{Floats}
use chronos_prototype.Db.{BerkeleyDb, Outcome, ok, fail, crash, out_of_fuel, World}
use chronos_prototype.Server.{Doubles, ServerContext}
use chronos_prototype.Server.Process.{
  settle, wait_less, record_txn, after_txn, process_refresh_transaction,
}

-- The items and the slot are the same.
pub record SameItems {D : Type 0} (s s' : ServerContext D) : Type 0 where
  pub items_kept : s'.data_items ≡ s.data_items
  pub slot_kept : s'.current_slot ≡ s.current_slot

module _ {D : Type 0} (d : Doubles D) where
  wait_less-SameItems : (s : ServerContext D) → SameItems s (wait_less d s)
  unfolding wait_less
  wait_less-SameItems s = elim (Bool-cases (ltb_ℤ (pos 0) s.num_txn_to_wait)) [
    | inl e ↦ rw e (record { items_kept = refl; slot_kept = refl })
    | inr e ↦ rw e (record { items_kept = refl; slot_kept = refl })
  ]

module _ {F D : Type 0} {db : BerkeleyDb F} (fl : Floats F) (d : Doubles D) where
  settle-SameItems :
      (s : ServerContext D) (x : Outcome (Unit {0}) × World db)
      → SameItems s (settle (λ success s. if success then wait_less d s else s) s x).1
  settle-SameItems s (ok u, w) = wait_less-SameItems d s
  settle-SameItems s (fail, w) = record { items_kept = refl; slot_kept = refl }
  settle-SameItems s (crash, w) = record { items_kept = refl; slot_kept = refl }
  settle-SameItems s (out_of_fuel, w) = record { items_kept = refl; slot_kept = refl }

  pub process_refresh_transaction-SameItems :
      (value : F) (direction : ℕ) (pkey : Text) (s : ServerContext D) (w : World db)
      → SameItems s (process_refresh_transaction fl d db value direction pkey s w).1
  unfolding process_refresh_transaction
  process_refresh_transaction-SameItems value direction pkey s w = settle-SameItems s _

-- What a step leaves alone of the mode, the queues, the bounds, the items and the slot.
pub record SameSettings {D : Type 0} (s s' : ServerContext D) : Type 0 where
  pub mode_kept : s'.running_mode ≡ s.running_mode
  pub user_kept : s'.user_occupied ≡ s.user_occupied
  pub sys_kept : s'.sys_occupied ≡ s.sys_occupied
  pub min_kept : s'.min_update_period_ms ≡ s.min_update_period_ms
  pub max_kept : s'.max_update_period_ms ≡ s.max_update_period_ms
  pub same_items : SameItems s s'

module _ {D : Type 0} (d : Doubles D) where
  settings_refl : (s : ServerContext D) → SameSettings s s
  settings_refl s = record {
    mode_kept = refl;
    user_kept = refl;
    sys_kept = refl;
    min_kept = refl;
    max_kept = refl;
    same_items = record { items_kept = refl; slot_kept = refl };
  }

  pub wait_less-SameSettings : (s : ServerContext D) → SameSettings s (wait_less d s)
  unfolding wait_less
  wait_less-SameSettings s = elim (Bool-cases (ltb_ℤ (pos 0) s.num_txn_to_wait)) [
    | inl e ↦ rw e (record {
      mode_kept = refl;
      user_kept = refl;
      sys_kept = refl;
      min_kept = refl;
      max_kept = refl;
      same_items = record { items_kept = refl; slot_kept = refl };
    })
    | inr e ↦ rw e (settings_refl s)
  ]

  record_txn-SameSettings :
      (thread : ℕ) (begin end : ChronosTime) (success : Bool) (s : ServerContext D)
      → SameSettings s (record_txn d thread begin end success s)
  unfolding record_txn
  record_txn-SameSettings thread begin end success s = record {
    mode_kept = refl;
    user_kept = refl;
    sys_kept = refl;
    min_kept = refl;
    max_kept = refl;
    same_items = record { items_kept = refl; slot_kept = refl };
  }

  settings_trans :
      (a b c : ServerContext D) → SameSettings a b → SameSettings b c → SameSettings a c
  settings_trans a b c h g = record {
    mode_kept = g.mode_kept ∙ h.mode_kept;
    user_kept = g.user_kept ∙ h.user_kept;
    sys_kept = g.sys_kept ∙ h.sys_kept;
    min_kept = g.min_kept ∙ h.min_kept;
    max_kept = g.max_kept ∙ h.max_kept;
    same_items = record {
      items_kept = g.same_items.items_kept ∙ h.same_items.items_kept;
      slot_kept = g.same_items.slot_kept ∙ h.same_items.slot_kept;
    };
  }

  pub after_txn-SameSettings :
      (sampling : Bool) (thread : ℕ) (begin end : ChronosTime) (success : Bool)
      (s : ServerContext D)
      → SameSettings s (after_txn d sampling thread begin end success s)
  unfolding after_txn
  after_txn-SameSettings true thread begin end success s =
      settings_trans s (wait_less d s) _ (wait_less-SameSettings s)
        (record_txn-SameSettings thread begin end success (wait_less d s))
  after_txn-SameSettings false thread begin end success s = wait_less-SameSettings s

  -- Where nothing is waited for, nothing is taken off.
  pub wait_less-zero :
      (s : ServerContext D) → s.num_txn_to_wait ≡ pos 0 → (wait_less d s).num_txn_to_wait ≡ pos 0
  unfolding wait_less
  wait_less-zero s h = let e : ltb_ℤ (pos 0) s.num_txn_to_wait ≡ false = ground arith in rw e h

  pub after_txn-zero :
      (sampling : Bool) (thread : ℕ) (begin end : ChronosTime) (success : Bool)
      (s : ServerContext D)
      → s.num_txn_to_wait ≡ pos 0
      → (after_txn d sampling thread begin end success s).num_txn_to_wait ≡ pos 0
  unfolding after_txn record_txn
  after_txn-zero true thread begin end success s h = wait_less-zero s h
  after_txn-zero false thread begin end success s h = wait_less-zero s h
