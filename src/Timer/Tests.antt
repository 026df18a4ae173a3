-- ===== src/Timer/Tests.antt =====
-- The theorems on timers at a queue of two timers.
use sparreal_os.Prelude.{
  min, ℕ, ◌+◌, ◌%◌, ◌<◌, ◌≤◌, ◌⊎◌, ◌≡◌, refl, true, false, ◌==◌, if◌then◌else◌, none, some, [], ◌∷◌,
  arith,
}
use sparreal_os.Timer.{
  usize_max, success, failure, overflow, Timers, System, Index, u64_mod, arm_hardware_timer,
  index_get, next_timer_id, schedule_at, cancel, handle_irq,
}
use sparreal_os.Timer.Ids.{next_timer_id-fresh}
use sparreal_os.Timer.Invariant.{
  WellFormed, Kept, schedule_at-WellFormed, cancel-WellFormed, handle_irq-WellFormed,
}
use sparreal_os.Timer.Armed.{Armed, earliest, arm_hardware_timer-Armed}
use sparreal_os.Timer.Expiry.{due, pending, callbacks}
use sparreal_os.Timer.Service.{
  Kernel, Duration, whole_ticks, one_shot_after, one_shot_after-WellFormed,
}
use sparreal_os.Timer.Queue.{deadline_of, timer_of, Above, InOrder}

-- The callbacks are told apart by numbers.
abbrev two_timers : Timers ℕ
two_timers = (record { deadline = 500; id = 2 }, 20) ∷ (record { deadline = 900; id = 1 }, 10) ∷ []

abbrev two_ids : Index
two_ids = (2, 500) ∷ (1, 900) ∷ []

abbrev two : System ℕ
two = record {
  manager = record { next_id = 3; timers = two_timers; index = two_ids };
  hardware = record { interval = 400; irq_enabled = true };
}

two_timers-InOrder : InOrder two_timers
unfolding InOrder Above deadline_of
two_timers-InOrder = ((refl, tt), refl, (tt, refl, tt))

two_ids_lem : (i : ℕ) → index_get i two_ids ≡ deadline_of i two_timers
unfolding index_get deadline_of
two_ids_lem i = refl

timers_due : Armed 1_000_000 100 (earliest two_timers) two.hardware
unfolding arm_hardware_timer
timers_due = arm_hardware_timer-Armed 1_000_000 100 two_timers

two-WellFormed : WellFormed 1_000_000 100 two
two-WellFormed = record {
  ordered = two_timers-InOrder;
  indexed = two_ids_lem;
  bounded = omega arith;
  armed = timers_due;
}

next_timer_id-fresh_example :
    (id : ℕ) × (next_timer_id 3 2 two_ids ≡ some (id, (id + 1) % u64_mod))
    × (index_get id two_ids ≡ none)
    × (id < u64_mod)
next_timer_id-fresh_example = next_timer_id-fresh 2 two_ids (omega arith) (omega arith)

-- Before both timers, so the hardware is armed again.
schedule_at-WellFormed_example :
    (id : ℕ) × (s' : System ℕ) × (schedule_at 1_000_000 150 300 30 two ≡ some (id, s'))
    × (timer_of id two_timers ≡ none)
    × ((i : ℕ)
        → timer_of i s'.manager.timers
          ≡ (if i == id then some (300, 30) else timer_of i two_timers))
    × Kept 1_000_000 150 100 two s'
schedule_at-WellFormed_example =
    schedule_at-WellFormed 1_000_000 150 100 300 30 two two-WellFormed (omega arith)

cancel-WellFormed_example :
    let (answer, s') = cancel 1_000_000 150 2 two in
    (answer ≡ elim (timer_of 2 two_timers) [ none ↦ false | some d ↦ true ])
    × ((i : ℕ) → timer_of i s'.manager.timers ≡ (if i == 2 then none else timer_of i two_timers))
    × Kept 1_000_000 150 100 two s'
cancel-WellFormed_example = cancel-WellFormed 1_000_000 150 100 2 two two-WellFormed

handle_irq-WellFormed_example :
    let (expired, s') = handle_irq 1_000_000 600 610 two in
    (expired ≡ callbacks (due 600 two_timers))
    × (s'.manager.timers ≡ pending 600 two_timers)
    × WellFormed 1_000_000 610 s'
handle_irq-WellFormed_example = handle_irq-WellFormed 1_000_000 600 610 100 two two-WellFormed

-- The first of the two timers is due at tick 600.
due_two : callbacks (due 600 two_timers) ≡ 20 ∷ []
unfolding due
due_two = refl

-- A delay of half a millisecond on a clock of 1 MHz.
one_shot_after-WellFormed_example :
    let k : Kernel ℕ = record {
      timer_manager = some two;
      timer_ready = true;
      handler_registered = true;
    } in
    let half : Duration = record { secs = 0; subsec_nanos = 500_000 } in
    let deadline = 150 + min (whole_ticks 1_000_000 half) usize_max in
    (usize_max < deadline)
      × (one_shot_after 1_000_000 150 160 half 30 k ≡ some (failure overflow, k))
    ⊎ (deadline ≤ usize_max)
      × (id : ℕ) × (s' : System ℕ) × (one_shot_after 1_000_000 150 160 half 30 k
          ≡ some (success id, record k { timer_manager = some s' }))
      × (timer_of id two_timers ≡ none)
      × ((i : ℕ)
          → timer_of i s'.manager.timers
            ≡ (if i == id then some (deadline, 30) else timer_of i two_timers))
      × Kept 1_000_000 160 100 two s'
one_shot_after-WellFormed_example =
    one_shot_after-WellFormed 1_000_000 150 160 100 (record { secs = 0; subsec_nanos = 500_000 }) 30
      two two-WellFormed (omega arith) (omega arith) (omega arith)
