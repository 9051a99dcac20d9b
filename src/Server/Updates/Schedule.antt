-- ===== src/Server/Updates/Schedule.antt =====
-- `updateThread` of src/startup_server.c: which items a turn touches.
use chronos_prototype.Base.{
  ℕ, zero, suc, ◌+◌, ◌≡◌, ◌≢◌, refl, sym, ap, subst, ◌∙◌, Bool, true, false, ◌&&◌, Bool-cases,
  Option-cases, inl, inr, Option, none, some, ◌==◌, if◌then◌else◌, arith, leb, ltb, get_elem?,
  get_elem?-set, take, ==_iff,
}
use chronos_prototype.Tables.{Floats}
use chronos_prototype.Db.{BerkeleyDb, Outcome, ok, fail, crash, out_of_fuel, World}
use chronos_prototype.Packets.{id_sz}
use chronos_prototype.Server.{Doubles, DataItem, ServerContext}
use chronos_prototype.Server.Process.Stats.{SameItems, process_refresh_transaction-SameItems}
use chronos_prototype.Server.Updates.{
  UpdateTurn, touched, touch_item, go_on, update_item, update_items,
}

abbrev pub mapped : {A : Type 0} → (A → A) → Option A → Option A
mapped f none = none
mapped f (some x) = some (f x)

module _ {D : Type 0} (d : Doubles D) (turn : UpdateTurn) where
  -- What a turn makes of an item: touched if it is due at the start of the turn.
  abbrev pub touched_if_due : ℕ → ℕ → DataItem D → DataItem D
  touched_if_due slot j x =
      if leb x.next_update_time_ms turn.current_time_ms
      then touched d slot (turn.reading_ms j) x
      else x

-- Is `j` one of the `n` numbers from `i` on?
abbrev pub within : ℕ → ℕ → ℕ → Bool
within i n j = leb i j && ltb j (i + n)

-- One item more at the front of the numbers.
module _ {A : Type 0} (f : ℕ → A → A) (i n j : ℕ) (x : A) {before mid after : Option A}
    (at_i : j ≡ i → before ≡ some x) (first : mid ≡ (if j == i then some (f i x) else before)) where
  within-suc :
      after ≡ (if within (i + 1) n j then mapped (f j) mid else mid)
      → after ≡ (if within i (suc n) j then mapped (f j) before else before)
  within-suc rest = elim (Bool-cases (j == i)) [
    | inl e ↦
        let same : j ≡ i = (==_iff j i).0 e in
        let here = at_i same in
        let out : within (i + 1) n j ≡ false = ground arith in
        let in' : within i (suc n) j ≡ true = ground arith in
        rest ∙ rw (out, in', first, here, e) (ap (λ k. some (f k x)) (sym same))
    | inr e ↦
        let same : within (i + 1) n j ≡ within i (suc n) j = ground arith in
        rest ∙ rw (first, e, same) refl
  ]

module _ {F D : Type 0} {db : BerkeleyDb F} where
  go_on-ok :
      {A : Type 0} (x : Outcome A × ServerContext D × World db)
      (next : ServerContext D → World db → Outcome (Unit {0}) × ServerContext D × World db)
      → (go_on x next).0 ≡ ok tt
      → go_on x next ≡ next x.1 x.2
  go_on-ok (ok a, s, w) next h = refl
  go_on-ok (fail, s, w) next h = cc
  go_on-ok (crash, s, w) next h = cc
  go_on-ok (out_of_fuel, s, w) next h = cc

  go_on-before :
      (x : Outcome (Unit {0}) × ServerContext D × World db)
      (next : ServerContext D → World db → Outcome (Unit {0}) × ServerContext D × World db)
      → (go_on x next).0 ≡ ok tt
      → x.0 ≡ ok tt
  go_on-before (ok tt, s, w) next h = refl
  go_on-before (fail, s, w) next h = cc
  go_on-before (crash, s, w) next h = cc
  go_on-before (out_of_fuel, s, w) next h = cc

module _ {F D : Type 0} {db : BerkeleyDb F} (d : Doubles D) (turn : UpdateTurn) (i : ℕ)
    (x : DataItem D) (s : ServerContext D) (at_i : get_elem? s.data_items i ≡ some x) where
  -- The item is touched where the refresh left the items alone.
  touch_item-at :
      {A : Type 0} (y : Outcome A × ServerContext D × World db)
      → SameItems s y.1
      → (go_on y (λ s w. (ok tt, touch_item d turn i x s, w))).0 ≡ ok tt
      → let s' = (go_on y (λ s w. (ok tt, touch_item d turn i x s, w))).1 in
        (s'.current_slot ≡ s.current_slot)
        × ((j : ℕ)
            → get_elem? s'.data_items j ≡ (
                if j == i
                then some (touched d s.current_slot (turn.reading_ms i) x)
                else get_elem? s.data_items j))
  unfolding touch_item
  touch_item-at (ok a, s1, w) same h = (
    same.slot_kept,
    λ j.
        let there = ap (λ xs. get_elem? xs i) same.items_kept ∙ at_i in
        ground (
          arith,
          get_elem?-set s1.data_items i j x (touched d s1.current_slot (turn.reading_ms i) x) there,
          same,
        ),
  )
  touch_item-at (fail, s1, w) same h = cc
  touch_item-at (crash, s1, w) same h = cc
  touch_item-at (out_of_fuel, s1, w) same h = cc

module _ {F D : Type 0} (fl : Floats F) (d : Doubles D) (db : BerkeleyDb F) (minus_one : F)
    (turn : UpdateTurn) where
  update_item-touched :
      (i : ℕ) (x : DataItem D) (s : ServerContext D) (w : World db)
      → get_elem? s.data_items i ≡ some x
      → (update_item fl d db minus_one turn i x s w).0 ≡ ok tt
      → let s' = (update_item fl d db minus_one turn i x s w).1 in
        (s'.current_slot ≡ s.current_slot)
        × ((j : ℕ)
            → get_elem? s'.data_items j ≡ (
                if j == i
                then some (touched_if_due d turn s.current_slot i x)
                else get_elem? s.data_items j))
  unfolding update_item
  update_item-touched i x s w at_i h =
      let same =
        process_refresh_transaction-SameItems fl d minus_one (turn.direction i)
          (take id_sz x.data_item) s w in
      elim (Bool-cases (leb x.next_update_time_ms turn.current_time_ms)) [
        | inl due ↦ let h' = (rw due at h) in rw due (touch_item-at d turn i x s at_i _ same h')
        | inr early ↦ rw early (refl, λ j. ground (arith, ==_iff j i))
      ]

  -- When the loop over `n` items from item `i` on ends well, they are all in the array, each one that
  -- was due at the start of the turn is touched in the slot of the moment, at the reading of its
  -- number, and nothing else has changed in the array.
  pub update_items-touched :
      (i n : ℕ) (s : ServerContext D) (w : World db)
      → (update_items fl d db minus_one turn i n s w).0 ≡ ok tt
      → let s' = (update_items fl d db minus_one turn i n s w).1 in
        (s'.current_slot ≡ s.current_slot)
        × ((j : ℕ)
            → get_elem? s'.data_items j ≡ (
                if within i n j
                then mapped (touched_if_due d turn s.current_slot j) (get_elem? s.data_items j)
                else get_elem? s.data_items j))
        × ((j : ℕ) → within i n j ≡ true → get_elem? s.data_items j ≢ none)
  unfolding update_items
  update_items-touched i zero s w h = (refl, λ j. ground arith, λ j e. absurd (ground arith))
  update_items-touched i (suc n) s w h = elim (Option-cases (get_elem? s.data_items i)) [
    | inl out ↦ absurd (let h' = (rw (out, update_items) at h) in cc)
    | inr (x, at_i) ↦
        let y = update_item fl d db minus_one turn i x s w in
        let h' : (go_on y (update_items fl d db minus_one turn (i + 1) n)).0 ≡ ok tt =
          (rw (at_i, update_items) at h) in
        let e = go_on-ok y (update_items fl d db minus_one turn (i + 1) n) h' in
        let first = update_item-touched i x s w at_i (go_on-before y _ h') in
        let rest = update_items-touched (i + 1) n y.1 y.2 (ap (λ r. r.0) (sym e) ∙ h') in
        let slot = rest.0 ∙ first.0 in
        rw (at_i, e, update_items)
          (
            slot,
            λ j.
                within-suc (touched_if_due d turn s.current_slot) i n j x
                  (λ same. ap (get_elem? s.data_items) same ∙ at_i) (first.1 j)
                  (subst
                    (λ k.
                      get_elem? (update_items fl d db minus_one turn (i + 1) n y.1 y.2).1.data_items
                        j
                      ≡ (if within (i + 1) n j
                          then mapped (touched_if_due d turn k j) (get_elem? y.1.data_items j)
                          else get_elem? y.1.data_items j))
                    first.0 (rest.1 j)),
            λ j inside out. elim (Bool-cases (j == i)) [
              | inl here ↦
                  let same : j ≡ i = (==_iff j i).0 here in
                  absurd (let both = ap (get_elem? s.data_items) (sym same) ∙ out in cc)
              | inr other ↦ rest.2 j (ground arith) (first.1 j ∙ rw other out)
            ],
          )
  ]
