-- ===== src/Timer/Queue.antt =====
-- crates/sparreal-kernel/src/os/time/timer.rs: the timers in the order of their keys.
use sparreal_os.Prelude.{
  ℕ, ◌≡◌, refl, true, ◌==◌, if◌then◌else◌, Option, none, some, [], ◌∷◌, arith, Bool-cases, inl, inr,
}
use sparreal_os.Timer.{TimerKey, Timers, less, same, insert, remove}

module _ {Callback : Type 0} where
  -- The deadline of the timer with an id.
  unfoldable pub deadline_of : ℕ → Timers Callback → Option ℕ
  deadline_of i [] = none
  deadline_of i ((k, cb) ∷ ts) = if i == k.id then some k.deadline else deadline_of i ts

  -- The deadline and the callback of the timer with an id.
  unfoldable pub timer_of : ℕ → Timers Callback → Option (ℕ × Callback)
  timer_of i [] = none
  timer_of i ((k, cb) ∷ ts) = if i == k.id then some (k.deadline, cb) else timer_of i ts

  -- Every key of the list comes after `k`.
  unfoldable pub Above : TimerKey → Timers Callback → Type 0
  Above k [] = Unit
  Above k ((j, cb) ∷ ts) = (less k j ≡ true) × Above k ts

  -- The keys rise, and no two timers have one id.
  unfoldable pub InOrder : Timers Callback → Type 0
  InOrder [] = Unit
  InOrder ((k, cb) ∷ ts) = Above k ts × (deadline_of k.id ts ≡ none) × InOrder ts

  Above-trans : (i j : TimerKey) (ts : Timers Callback) → less i j ≡ true → Above j ts → Above i ts
  unfolding Above
  Above-trans i j [] h a = tt
  Above-trans i j ((k, cb) ∷ ts) h (first, rest) = (ground arith, Above-trans i j ts h rest)

  insert-Above :
      (j k : TimerKey) (cb : Callback) (ts : Timers Callback)
      → less j k ≡ true
      → Above j ts
      → Above j (insert k cb ts)
  unfolding Above insert
  insert-Above j k cb [] h a = (h, tt)
  insert-Above j k cb ((i, cb') ∷ ts) h (first, rest) = elim (Bool-cases (less k i)) [
    | inl e ↦ rw e (h, (first, rest))
    | inr e ↦ elim (Bool-cases (same k i)) [
      | inl e' ↦ rw (e, e') (first, rest)
      | inr e' ↦ rw (e, e') (first, insert-Above j k cb ts h rest)
    ]
  ]

  remove-Above : (j k : TimerKey) (ts : Timers Callback) → Above j ts → Above j (remove k ts)
  unfolding Above remove
  remove-Above j k [] a = tt
  remove-Above j k ((i, cb) ∷ ts) (first, rest) = elim (Bool-cases (same k i)) [
    | inl e ↦ rw e rest
    | inr e ↦ rw e (first, remove-Above j k ts rest)
  ]

  pub deadline_of-insert :
      (i : ℕ) (k : TimerKey) (cb : Callback) (ts : Timers Callback)
      → deadline_of k.id ts ≡ none
      → deadline_of i (insert k cb ts) ≡ (if i == k.id then some k.deadline else deadline_of i ts)
  unfolding deadline_of insert
  deadline_of-insert i k cb [] new = refl
  deadline_of-insert i k cb ((j, cb') ∷ ts) new = elim (Bool-cases (k.id == j.id)) [
    | inl e ↦ ground arith
    | inr e ↦ let ih = deadline_of-insert i k cb ts (ground arith) in ground arith
  ]

  pub insert-InOrder :
      (k : TimerKey) (cb : Callback) (ts : Timers Callback)
      → deadline_of k.id ts ≡ none
      → InOrder ts
      → InOrder (insert k cb ts)
  unfolding InOrder Above deadline_of insert
  insert-InOrder k cb [] new ordered = (tt, refl, tt)
  insert-InOrder k cb ((j, cb') ∷ ts) new (above, alone, ordered) = elim (Bool-cases (less k j)) [
    | inl e ↦ rw e ((e, Above-trans k j ts e above), new, (above, alone, ordered))
    | inr e ↦ elim (Bool-cases (same k j)) [
      | inl e' ↦ ground arith
      | inr e' ↦
          rw (e, e')
            (
              insert-Above j k cb ts (ground arith) above,
              (rw (deadline_of-insert j.id k cb ts (ground arith)) (ground arith)),
              insert-InOrder k cb ts (ground arith) ordered,
            )
    ]
  ]

  -- Taking out the timer that an id stands for.
  pub deadline_of-remove :
      (i : ℕ) (k : TimerKey) (ts : Timers Callback)
      → deadline_of k.id ts ≡ some k.deadline
      → InOrder ts
      → deadline_of i (remove k ts) ≡ (if i == k.id then none else deadline_of i ts)
  unfolding deadline_of remove InOrder
  deadline_of-remove i k [] known ordered = ground arith
  deadline_of-remove i k ((j, cb) ∷ ts) known (above, alone, ordered) =
      elim (Bool-cases (k.id == j.id)) [
        | inl e ↦ ground arith
        | inr e ↦ let ih = deadline_of-remove i k ts (ground arith) ordered in ground arith
      ]

  remove-none :
      (i : ℕ) (k : TimerKey) (ts : Timers Callback)
      → deadline_of i ts ≡ none
      → deadline_of i (remove k ts) ≡ none
  unfolding deadline_of remove
  remove-none i k [] h = refl
  remove-none i k ((j, cb) ∷ ts) h = let ih = remove-none i k ts (ground arith) in ground arith

  pub remove-InOrder : (k : TimerKey) (ts : Timers Callback) → InOrder ts → InOrder (remove k ts)
  unfolding InOrder remove
  remove-InOrder k [] ordered = tt
  remove-InOrder k ((j, cb) ∷ ts) (above, alone, ordered) = elim (Bool-cases (same k j)) [
    | inl e ↦ rw e ordered
    | inr e ↦
        rw e (remove-Above j k ts above, remove-none j.id k ts alone, remove-InOrder k ts ordered)
  ]

  pub timer_of-none :
      (i : ℕ) (ts : Timers Callback) → deadline_of i ts ≡ none → timer_of i ts ≡ none
  unfolding deadline_of timer_of
  timer_of-none i [] h = refl
  timer_of-none i ((k, cb) ∷ ts) h = let ih = timer_of-none i ts (ground arith) in ground arith

  pub timer_of-insert :
      (i : ℕ) (k : TimerKey) (cb : Callback) (ts : Timers Callback)
      → deadline_of k.id ts ≡ none
      → timer_of i (insert k cb ts) ≡ (if i == k.id then some (k.deadline, cb) else timer_of i ts)
  unfolding deadline_of timer_of insert
  timer_of-insert i k cb [] new = refl
  timer_of-insert i k cb ((j, cb') ∷ ts) new = elim (Bool-cases (k.id == j.id)) [
    | inl e ↦ ground arith
    | inr e ↦ let ih = timer_of-insert i k cb ts (ground arith) in ground arith
  ]

  pub timer_of-remove :
      (i : ℕ) (k : TimerKey) (ts : Timers Callback)
      → deadline_of k.id ts ≡ some k.deadline
      → InOrder ts
      → timer_of i (remove k ts) ≡ (if i == k.id then none else timer_of i ts)
  unfolding deadline_of timer_of remove InOrder
  timer_of-remove i k [] known ordered = ground arith
  timer_of-remove i k ((j, cb) ∷ ts) known (above, alone, ordered) =
      elim (Bool-cases (k.id == j.id)) [
        | inl e ↦ let gone = timer_of-none k.id ts in ground arith
        | inr e ↦ let ih = timer_of-remove i k ts (ground arith) ordered in ground arith
      ]

  pub timer_of-some :
      (i d : ℕ) (ts : Timers Callback)
      → deadline_of i ts ≡ some d
      → (cb : Callback) × (timer_of i ts ≡ some (d, cb))
  unfolding deadline_of timer_of
  timer_of-some i d [] h = absurd cc
  timer_of-some i d ((k, cb) ∷ ts) h = elim (Bool-cases (i == k.id)) [
    | inl e ↦ (cb, ground arith)
    | inr e ↦ let (cb', there) = timer_of-some i d ts (ground arith) in (cb', ground arith)
  ]
