-- ===== src/Handles/Closing.antt =====
-- `databases_close` of src/benchmark_common.c closes each database once.
use chronos_prototype.Base.{
  ◌==◌, ◌≡◌, ◌≢◌, ◌⊎◌, inl, inr, refl, sym, ◌∙◌, ap, subst, Bool, true, false, List, [], ◌∷◌, All,
  all_nil, all_cons, All-mono, All-head, All-tail, ==_iff, Bool-cases,
}
use chronos_prototype.Db.{Outcome, ok, fail}
use chronos_prototype.Handles.{
  Slot, number_of, Pointer, null, live, closed, db_close, Library, State, set_slot, continue,
  answer, close_pointer, close_all,
}

-- What a close makes of a pointer.
abbrev pub after_close : Pointer → Pointer
after_close null = null
after_close _ = closed

abbrev pub OtherThan : Slot → Slot → Type 0
OtherThan s s' = number_of s' ≢ number_of s

abbrev pub Distinct : List Slot → Type 0
Distinct [] = Unit {0}
Distinct (s ∷ ss) = All (OtherThan s) ss × Distinct ss

-- A call that closes a database did not succeed.
abbrev pub CloseFailed : Library → Type 0
CloseFailed lib = (s : Slot) × (w : lib.World) × ((lib.succeeds (db_close s) w).0 ≡ false)

-- The run over `ss`: it does not crash; it leaves the environment and every other slot alone; where it
-- succeeds, each slot of `ss` is closed or was NULL; where it fails, a close has failed, and each is untouched
-- or closed.
pub data Closes {lib : Library} (ss : List Slot) (old : State lib)
    : Outcome (Unit {0}) × State lib → Type 0 where
  all_closed :
      {st : State lib}
      → st.env ≡ old.env
      → ((s : Slot) → (st.dbs s ≡ old.dbs s) ⊎ (st.dbs s ≡ closed))
      → All (λ s. st.dbs s ≡ after_close (old.dbs s)) ss
      → ((s : Slot) → All (OtherThan s) ss → st.dbs s ≡ old.dbs s)
      → Closes ss old (ok tt, st)
  some_closed :
      {st : State lib}
      → CloseFailed lib
      → st.env ≡ old.env
      → ((s : Slot) → (st.dbs s ≡ old.dbs s) ⊎ (st.dbs s ≡ closed))
      → ((s : Slot) → All (OtherThan s) ss → st.dbs s ≡ old.dbs s)
      → Closes ss old (fail, st)

pub set_slot_self : (s : Slot) (p : Pointer) (f : Slot → Pointer) → set_slot s p f s ≡ p
set_slot_self s p f = rw ((==_iff (number_of s) (number_of s)).1 refl) refl

pub set_slot_ne :
    (s : Slot) (p : Pointer) (f : Slot → Pointer) (s' : Slot)
    → OtherThan s s'
    → set_slot s p f s' ≡ f s'
set_slot_ne s p f s' h = elim (Bool-cases (number_of s' == number_of s)) [
  | inl e ↦ absurd (h ((==_iff (number_of s') (number_of s)).0 e))
  | inr e ↦ rw e refl
]

OtherThan-symm : (s s' : Slot) → OtherThan s s' → OtherThan s' s
OtherThan-symm s s' h e = h (sym e)

pub set_slot_closed :
    (s : Slot) (f : Slot → Pointer) (s' : Slot)
    → (set_slot s closed f s' ≡ f s') ⊎ (set_slot s closed f s' ≡ closed)
set_slot_closed s f s' = elim (Bool-cases (number_of s' == number_of s)) [
  | inl e ↦ inr (rw e refl)
  | inr e ↦ inl (rw e refl)
]

-- The close of one pointer.
data ClosesOne {lib : Library} (s : Slot) (old : State lib)
    : Outcome (Unit {0}) × State lib → Type 0 where
  one_closed :
      {st : State lib}
      → st.env ≡ old.env
      → st.dbs s ≡ after_close (old.dbs s)
      → ((s' : Slot) → OtherThan s s' → st.dbs s' ≡ old.dbs s')
      → ((s' : Slot) → (st.dbs s' ≡ old.dbs s') ⊎ (st.dbs s' ≡ closed))
      → ClosesOne s old (ok tt, st)
  one_failed :
      {st : State lib}
      → CloseFailed lib
      → st.env ≡ old.env
      → st.dbs ≡ set_slot s closed old.dbs
      → ClosesOne s old (fail, st)

module _ {lib : Library} where
  answer-ClosesOne :
      (s : Slot) (old : State lib) (w : lib.World) (r : Bool × lib.World)
      → lib.succeeds (db_close s) w ≡ r
      → old.dbs s ≡ live
      → ClosesOne s old (answer r (record old { dbs = set_slot s closed old.dbs }))
  answer-ClosesOne s old w0 (true, w) a e =
      one_closed refl (set_slot_self s closed old.dbs ∙ sym (ap after_close e))
        (λ s' h. set_slot_ne s closed old.dbs s' h) (λ s'. set_slot_closed s old.dbs s')
  answer-ClosesOne s old w0 (false, w) a e =
      one_failed (s, w0, ap (λ (r : Bool × lib.World). r.0) a) refl refl

  close_pointer-ClosesOne :
      (p : Pointer) (s : Slot) (old : State lib)
      → old.dbs s ≡ p
      → p ≢ closed
      → ClosesOne s old (close_pointer p s old)
  close_pointer-ClosesOne null s old e h =
      one_closed refl (e ∙ sym (ap after_close e)) (λ s' g. refl) (λ s'. inl refl)
  close_pointer-ClosesOne live s old e h =
      answer-ClosesOne s old old.world (lib.succeeds (db_close s) old.world) refl e
  close_pointer-ClosesOne closed s old e h = absurd (h refl)

  -- A slot that the close of `s` leaves alone.
  kept_by :
      (s : Slot) (ss : List Slot) (old st : State lib)
      → ((s' : Slot) → OtherThan s s' → st.dbs s' ≡ old.dbs s')
      → All (OtherThan s) ss
      → All (λ s'. old.dbs s' ≢ closed) ss
      → All (λ s'. (st.dbs s' ≡ old.dbs s') × (st.dbs s' ≢ closed)) ss
  kept_by s [] old st same all_nil all_nil = all_nil
  kept_by s (s' ∷ ss) old st same (all_cons o os) (all_cons h hs) =
      all_cons (same s' o, λ e. h (sym (same s' o) ∙ e)) (kept_by s ss old st same os hs)

  -- The slots that are closed later, seen from before.
  after_step :
      (ss : List Slot) (old st st' : State lib)
      → All (λ s. st'.dbs s ≡ after_close (st.dbs s)) ss
      → All (λ s. (st.dbs s ≡ old.dbs s) × (st.dbs s ≢ closed)) ss
      → All (λ s. st'.dbs s ≡ after_close (old.dbs s)) ss
  after_step [] old st st' all_nil all_nil = all_nil
  after_step (s ∷ ss) old st st' (all_cons h hs) (all_cons k ks) =
      all_cons (h ∙ ap after_close k.0) (after_step ss old st st' hs ks)

  either_step :
      (s : Slot) (old st st' : State lib)
      → (st'.dbs s ≡ st.dbs s) ⊎ (st'.dbs s ≡ closed)
      → (st.dbs s ≡ old.dbs s) ⊎ (st.dbs s ≡ closed)
      → (st'.dbs s ≡ old.dbs s) ⊎ (st'.dbs s ≡ closed)
  either_step s old st st' (inl e) (inl h) = inl (e ∙ h)
  either_step s old st st' (inl e) (inr h) = inr (e ∙ h)
  either_step s old st st' (inr e) h = inr e

  Closes-cons :
      (s : Slot) (ss : List Slot) (old st : State lib)
      → st.env ≡ old.env
      → st.dbs s ≡ after_close (old.dbs s)
      → ((s' : Slot) → OtherThan s s' → st.dbs s' ≡ old.dbs s')
      → ((s' : Slot) → (st.dbs s' ≡ old.dbs s') ⊎ (st.dbs s' ≡ closed))
      → All (OtherThan s) ss
      → All (λ s'. (st.dbs s' ≡ old.dbs s') × (st.dbs s' ≢ closed)) ss
      → {r : Outcome (Unit {0}) × State lib} → Closes ss st r
      → Closes (s ∷ ss) old r
  Closes-cons s ss old st env now same each others kept
        (all_closed {st = st'} env' each' shut rest) =
      all_closed (env' ∙ env) (λ s'. either_step s' old st st' (each' s') (each s'))
        (all_cons (rest s others ∙ now) (after_step ss old st st' shut kept))
        (λ s' o. rest s' (All-tail o) ∙ same s' (OtherThan-symm s' s (All-head o)))
  Closes-cons s ss old st env now same each others kept
        (some_closed {st = st'} bad env' each' rest) =
      some_closed bad (env' ∙ env) (λ s'. either_step s' old st st' (each' s') (each s'))
        (λ s' o. rest s' (All-tail o) ∙ same s' (OtherThan-symm s' s (All-head o)))

  Closes-step :
      (s : Slot) (ss : List Slot) (old : State lib) {r : Outcome (Unit {0}) × State lib}
      → ClosesOne s old r
      → All (OtherThan s) ss
      → All (λ s'. old.dbs s' ≢ closed) ss
      → ((st : State lib) → All (λ s'. st.dbs s' ≢ closed) ss → Closes ss st (close_all ss st))
      → Closes (s ∷ ss) old (continue r (close_all ss))
  Closes-step s ss old (one_closed {st = st} env now same each) others sound rec =
      let kept = kept_by s ss old st same others sound in
      Closes-cons s ss old st env now same each others kept (rec st (All-mono (λ s' k. k.1) kept))
  Closes-step s ss old (one_failed bad env now) others sound rec =
      some_closed bad env
        (λ s'.
          subst (λ (f : Slot → Pointer). (f s' ≡ old.dbs s') ⊎ (f s' ≡ closed)) (sym now)
            (set_slot_closed s old.dbs s'))
        λ s' o.
          ap (λ (f : Slot → Pointer). f s') now
          ∙ set_slot_ne s closed old.dbs s' (OtherThan-symm s' s (All-head o))

  pub close_all-Closes :
      (ss : List Slot) (st : State lib)
      → Distinct ss
      → All (λ s. st.dbs s ≢ closed) ss
      → Closes ss st (close_all ss st)
  unfolding close_all
  close_all-Closes [] st d sound = all_closed refl (λ s. inl refl) all_nil (λ s o. refl)
  close_all-Closes (s ∷ ss) st (others, d) (all_cons h hs) =
      Closes-step s ss st (close_pointer-ClosesOne (st.dbs s) s st refl h) others hs
        (λ st' sound. close_all-Closes ss st' d sound)

  pub Closes-env :
      {ss : List Slot} {old : State lib} {r : Outcome (Unit {0}) × State lib}
      → Closes ss old r
      → r.1.env ≡ old.env
  Closes-env (all_closed env each shut rest) = env
  Closes-env (some_closed bad env each rest) = env

  pub Closes-each :
      {ss : List Slot} {old : State lib} {r : Outcome (Unit {0}) × State lib}
      → Closes ss old r
      → (s : Slot) → (r.1.dbs s ≡ old.dbs s) ⊎ (r.1.dbs s ≡ closed)
  Closes-each (all_closed env each shut rest) = each
  Closes-each (some_closed bad env each rest) = each
