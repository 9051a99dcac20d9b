-- ===== src/Server/Updates.antt =====
-- The periodic updates of src/startup_server.c: the data items that `main` sets up and deals out to
-- the update threads, and `updateThread`, for a thread with its context. An access past the array of
-- data items is a crash.
pub mod Schedule
pub mod Prices
pub mod Items
pub mod Partition
mod Tests
use chronos_prototype.Base.{
  ℕ, zero, suc, ◌+◌, ◌*◌, Bool, true, false, Option, none, some, if◌then◌else◌, List, [], ◌∷◌, leb,
  set, get_elem?, take, Text,
}
use chronos_prototype.Base.Int.{ℤ, pos}
use chronos_prototype.Tables.{Floats}
use chronos_prototype.Db.{BerkeleyDb, Outcome, ok, fail, crash, out_of_fuel, World}
use chronos_prototype.Packets.{id_sz}
use chronos_prototype.Server.{Doubles, Slots, put, DataItem, ServerContext}
use chronos_prototype.Server.Process.{process_refresh_transaction}

module _ {D : Type 0} (d : Doubles D) where
  -- The items in the order of the list of stocks. `calloc` leaves zeros; `main` writes slot 0 only.
  pub start_item : D → ℕ → ℕ → Text → DataItem D
  start_item period first_time index key = record {
    index = index;
    data_item = key;
    next_update_time_ms = first_time;
    update_frequency = λ i. d.zero;
    access_update_ratio = λ i. d.zero;
    update_period_ms = put (λ i. d.zero) 0 period;
  }

  pub start_items : D → ℕ → ℕ → List Text → List (DataItem D)
  unfolding start_item
  start_items period first_time index [] = []
  start_items period first_time index (key ∷ keys) =
      start_item period first_time index key ∷ start_items period first_time (index + 1) keys

  -- What an update leaves in its item, in the slot of the moment, at a clock reading.
  pub touched : ℕ → ℕ → DataItem D → DataItem D
  touched slot reading x = record x {
    update_frequency = put x.update_frequency slot (d.add (x.update_frequency slot) d.one);
    next_update_time_ms = d.to_nat (d.add (d.of_int (pos reading)) (x.update_period_ms slot));
  }

-- The first item of an update thread, by the number of the thread and the items of each.
pub first_item : ℕ → ℕ → ℕ
first_item thread per_thread = thread * per_thread

-- What a turn of the loop of a thread reads: the clock at its start, the clock and `rand() % 2` by
-- the number of the item, and whether it is time to die.
pub record UpdateTurn : Type 0 where
  pub current_time_ms : ℕ
  pub reading_ms : ℕ → ℕ
  pub direction : ℕ → ℕ
  pub time_to_die : Bool

module _ {D : Type 0} (d : Doubles D) (turn : UpdateTurn) where
  pub touch_item : ℕ → DataItem D → ServerContext D → ServerContext D
  unfolding touched
  touch_item i x s = record s {
    data_items = set s.data_items i (touched d s.current_slot (turn.reading_ms i) x);
  }

module _ {F D : Type 0} {db : BerkeleyDb F} where
  abbrev pub go_on :
      {A : Type 0}
      → Outcome A × ServerContext D × World db
      → (ServerContext D → World db → Outcome (Unit {0}) × ServerContext D × World db)
      → Outcome (Unit {0}) × ServerContext D × World db
  go_on (ok a, s, w) next = next s w
  go_on (fail, s, w) next = (fail, s, w)
  go_on (crash, s, w) next = (crash, s, w)
  go_on (out_of_fuel, s, w) next = (out_of_fuel, s, w)

module _ {F D : Type 0} (fl : Floats F) (d : Doubles D) (db : BerkeleyDb F) (minus_one : F)
    (turn : UpdateTurn) where
  -- An item that is due is refreshed, and put off whether the refresh succeeds or not.
  pub update_item :
      ℕ → DataItem D → ServerContext D → World db → Outcome (Unit {0}) × ServerContext D × World db
  unfolding touch_item
  update_item i x s w =
      if leb x.next_update_time_ms turn.current_time_ms
      then go_on
          (process_refresh_transaction fl d db minus_one (turn.direction i) (take id_sz x.data_item)
            s w)
          (λ s w. (ok tt, touch_item d turn i x s, w))
      else (ok tt, s, w)

  -- The loop over the items of a thread, with the next item and the number that is left.
  pub update_items :
      ℕ → ℕ → ServerContext D → World db → Outcome (Unit {0}) × ServerContext D × World db
  unfolding update_item
  update_items i zero s w = (ok tt, s, w)
  update_items i (suc n) s w = elim (get_elem? s.data_items i) [
    | none ↦ (crash, s, w)
    | some x ↦ go_on (update_item i x s w) (update_items (i + 1) n)
  ]

module _ {F D : Type 0} (fl : Floats F) (d : Doubles D) (db : BerkeleyDb F) (minus_one : F) where
  -- The loop of a thread over its turns. It ends where it is time to die, and else goes on.
  pub update_thread :
      ℕ
      → ℕ
      → List UpdateTurn
      → ServerContext D
      → World db
      → Outcome (Unit {0}) × ServerContext D × World db
  unfolding update_items
  update_thread first n [] s w = (ok tt, s, w)
  update_thread first n (turn ∷ turns) s w =
      go_on (update_items fl d db minus_one turn first n s w) λ s w.
        let rest = update_thread first n turns s w in
        if turn.time_to_die then (ok tt, s, w) else rest
