-- ===== src/Timer/Armed.antt =====
-- crates/sparreal-kernel/src/os/time/timer.rs: when the hardware timer is due.
use sparreal_os.Prelude.{
  ℕ, ◌+◌, ◌/◌, ◌≤◌, ◌≡◌, refl, true, false, Option, none, some, [], ◌∷◌, arith, Bool-cases, inl,
  inr, ◌↔◌, Option,
}
use sparreal_os.Timer.{
  TimerKey, Timers, Hardware, usize_max, less, same, insert, remove, arm_hardware_timer,
  is_earliest, was_first,
}

-- The hardware, set when the clock read `t`, waits for the least interval that reaches the deadline
-- and is neither below the ten-thousandth part of a second nor 0. Without a deadline it is off.
unfoldable pub Armed : (frequency t : ℕ) → Option ℕ → Hardware → Type 0
Armed frequency t none hw = (hw.irq_enabled ≡ false) × (hw.interval ≡ usize_max)
Armed frequency t (some deadline) hw =
    (hw.irq_enabled ≡ true)
    × ((n : ℕ) → (hw.interval ≤ n) ↔ ((deadline ≤ t + n) × (frequency / 10_000 ≤ n) × (1 ≤ n)))

module _ {Callback : Type 0} where
  -- The deadline of the first timer, which is the earliest where the keys rise.
  abbrev pub earliest : Timers Callback → Option ℕ
  earliest [] = none
  earliest ((k, cb) ∷ ts) = some k.deadline

  pub arm_hardware_timer-Armed :
      (frequency t : ℕ) (ts : Timers Callback)
      → Armed frequency t (earliest ts) (arm_hardware_timer frequency t ts)
  unfolding Armed arm_hardware_timer
  arm_hardware_timer-Armed frequency t [] = (refl, refl)
  arm_hardware_timer-Armed frequency t ((k, cb) ∷ ts) =
      (refl, λ n. ((λ h. (omega arith, omega arith, omega arith)), λ (a, b, c). omega arith))

  pub earliest-insert :
      (k : TimerKey) (cb : Callback) (ts : Timers Callback)
      → is_earliest k.deadline ts ≡ false
      → earliest (insert k cb ts) ≡ earliest ts
  unfolding is_earliest insert
  earliest-insert k cb [] late = ground arith
  earliest-insert k cb ((j, cb') ∷ ts) late = elim (Bool-cases (less k j)) [
    | inl e ↦ let same_deadline : k.deadline ≡ j.deadline = ground arith in rw (e, same_deadline)
    | inr e ↦ elim (Bool-cases (same k j)) [ inl e' ↦ rw (e, e') | inr e' ↦ rw (e, e') ]
  ]

  pub earliest-remove :
      (k : TimerKey) (ts : Timers Callback)
      → was_first k ts ≡ false
      → earliest (remove k ts) ≡ earliest ts
  unfolding was_first remove
  earliest-remove k [] later = refl
  earliest-remove k ((j, cb) ∷ ts) later = let other : same k j ≡ false = ground arith in rw other
