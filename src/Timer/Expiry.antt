-- ===== src/Timer/Expiry.antt =====
-- The timers whose deadline has passed, and what `take_expired` does with them.
use sparreal_os.Prelude.{
  ℕ, ◌<◌, ◌≡◌, refl, ap, true, if◌then◌else◌, ltb, none, List, [], ◌∷◌, map, arith, Bool-cases, inl,
  inr,
}
use sparreal_os.Timer.{TimerKey, Timers, Index, index_get, index_remove, take_expired}
use sparreal_os.Timer.Ids.{index_get-index_remove}
use sparreal_os.Timer.Queue.{deadline_of, Above, InOrder}

module _ {Callback : Type 0} where
  -- The timers whose deadline has passed, and the others.
  unfoldable pub due : ℕ → Timers Callback → Timers Callback
  due now [] = []
  due now ((k, cb) ∷ ts) = if ltb now k.deadline then due now ts else (k, cb) ∷ due now ts

  unfoldable pub pending : ℕ → Timers Callback → Timers Callback
  pending now [] = []
  pending now ((k, cb) ∷ ts) =
      if ltb now k.deadline then (k, cb) ∷ pending now ts else pending now ts

  abbrev pub callbacks : Timers Callback → List Callback
  callbacks = map (λ t. t.1)

  all_due :
      (now : ℕ) (k : TimerKey) (ts : Timers Callback)
      → now < k.deadline
      → Above k ts
      → (due now ts ≡ []) × (pending now ts ≡ ts)
  unfolding Above due pending
  all_due now k [] h a = (refl, refl)
  all_due now k ((j, cb) ∷ ts) h (first', rest) =
      let later : ltb now j.deadline ≡ true = ground arith in
      let (none', all) = all_due now k ts h rest in rw (later, none', all) (refl, refl)

  pending-none :
      (now i : ℕ) (ts : Timers Callback)
      → deadline_of i ts ≡ none
      → deadline_of i (pending now ts) ≡ none
  unfolding deadline_of pending
  pending-none now i [] h = refl
  pending-none now i ((k, cb) ∷ ts) h =
      let ih = pending-none now i ts (ground arith) in ground arith

  pending-Above :
      (now : ℕ) (k : TimerKey) (ts : Timers Callback) → Above k ts → Above k (pending now ts)
  unfolding Above pending
  pending-Above now k [] a = tt
  pending-Above now k ((j, cb) ∷ ts) (first', rest) = elim (Bool-cases (ltb now j.deadline)) [
    | inl e ↦ rw e (first', pending-Above now k ts rest)
    | inr e ↦ rw e (pending-Above now k ts rest)
  ]

  pub pending-InOrder : (now : ℕ) (ts : Timers Callback) → InOrder ts → InOrder (pending now ts)
  unfolding InOrder pending
  pending-InOrder now [] o = tt
  pending-InOrder now ((k, cb) ∷ ts) (above, alone, o) = elim (Bool-cases (ltb now k.deadline)) [
    | inl e ↦
        rw e
          (pending-Above now k ts above, pending-none now k.id ts alone, pending-InOrder now ts o)
    | inr e ↦ rw e (pending-InOrder now ts o)
  ]

  pub take_expired_lem :
      (now : ℕ) (ts : Timers Callback) (index : Index)
      → InOrder ts
      → ((i : ℕ) → index_get i index ≡ deadline_of i ts)
      → let (expired, ts', index') = take_expired now ts index in
        (expired ≡ callbacks (due now ts))
        × (ts' ≡ pending now ts)
        × ((i : ℕ) → index_get i index' ≡ deadline_of i ts')
  unfolding take_expired InOrder due pending deadline_of
  take_expired_lem now [] index o indexed = (refl, refl, indexed)
  take_expired_lem now ((k, cb) ∷ ts) index (above, alone, o) indexed =
      elim (Bool-cases (ltb now k.deadline)) [
        | inl e ↦
            let (none', all) = all_due now k ts (ground arith) above in
            rw (e, none', all) (refl, refl, indexed)
        | inr e ↦
            let (taken, left, indexed') =
              take_expired_lem now ts (index_remove k.id index) o
                (λ i. rw (index_get-index_remove i k.id index, indexed i) (ground arith)) in
            rw e (ap (λ cbs. cb ∷ cbs) taken, left, indexed')
      ]
