-- ===== src/Timer/Service.antt =====
-- crates/sparreal-kernel/src/os/time/timer.rs and mod.rs: the timer functions of the kernel, over the
-- manager behind its lock. A function holds the lock for all that it does, so it is one step.
use native.Mathlib.Nat.{add-mul, mul_right_comm, mul-add-div_right, mul-le-mul_right}
use sparreal_os.Prelude.{
  sym, ap, ◌∙◌, min, ℕ, ◌+◌, ◌*◌, ◌/◌, ◌%◌, ◌<◌, ◌≤◌, ◌≡◌, ◌⊎◌, inl, inr, Bool, true, false, ◌==◌,
  if◌then◌else◌, ltb, Option, none, some, List, [], length, arith, Bool-cases,
}
use sparreal_os.Paging.Config.{saturating_add, saturating_mul}
use sparreal_os.Timer.{
  TimerResult, success, failure, not_ready, overflow, System, Hardware, TimeListEntry, u64_mod,
  usize_max, schedule_at, schedule_after, cancel, handle_irq, snapshot, new,
}
use sparreal_os.Timer.Invariant.{WellFormed, Kept, schedule_at-WellFormed}
use sparreal_os.Timer.Queue.{timer_of}

pub record Duration : Type 0 where
  pub secs : ℕ
  pub subsec_nanos : ℕ

unfoldable pub duration_to_ticks : (frequency : ℕ) → Duration → ℕ
duration_to_ticks frequency d =
    saturating_add (saturating_mul d.secs frequency % u64_mod)
      (d.subsec_nanos * frequency / 1_000_000_000 % u64_mod)

-- The ticks of the seconds and nanoseconds together, rounded down.
abbrev pub whole_ticks : (frequency : ℕ) → Duration → ℕ
whole_ticks frequency d = (d.secs * 1_000_000_000 + d.subsec_nanos) * frequency / 1_000_000_000

saturated :
    (a b : ℕ)
    → b < u64_mod
    → saturating_add ((if ltb a u64_mod then a else usize_max) % u64_mod) (b % u64_mod)
      ≡ min (a + b) usize_max
unfolding saturating_add
saturated a b h = ground arith

duration_to_ticks_lem :
    (frequency : ℕ) (d : Duration)
    → d.subsec_nanos < 1_000_000_000
    → frequency ≤ usize_max
    → duration_to_ticks frequency d ≡ min (whole_ticks frequency d) usize_max
unfolding duration_to_ticks saturating_mul
duration_to_ticks_lem frequency d nanos fast =
    let part = d.subsec_nanos * frequency in
    let bounded : part ≤ 1_000_000_000 * frequency =
      mul-le-mul_right {m = d.subsec_nanos} {n = 1_000_000_000} frequency (omega arith) in
    let small : part / 1_000_000_000 < u64_mod = omega arith in
    let split : (d.secs * 1_000_000_000 + d.subsec_nanos) * frequency
        ≡ d.secs * frequency * 1_000_000_000 + part =
      add-mul (d.secs * 1_000_000_000) d.subsec_nanos frequency
      ∙ ap (λ x. x + part) (mul_right_comm d.secs 1_000_000_000 frequency) in
    let whole : whole_ticks frequency d ≡ d.secs * frequency + part / 1_000_000_000 =
      rw split (mul-add-div_right {m = 1_000_000_000} (omega arith) (d.secs * frequency) part) in
    saturated (d.secs * frequency) (part / 1_000_000_000) small
    ∙ ap (λ x. min x usize_max) (sym whole)

module _ (Callback : Type 0) where
  -- `TIMER_MANAGER`, `TIMER_READY`, and whether the interrupt has its handler. The hardware is
  -- part of the manager's state once there is a manager.
  pub record Kernel : Type 0 where
    pub timer_manager : Option (System Callback)
    pub timer_ready : Bool
    pub handler_registered : Bool

module _ {Callback : Type 0} where
  -- `init`, on hardware in some state.
  unfoldable pub init : Hardware → Kernel Callback → Kernel Callback
  init hardware k = elim k.timer_manager [
    | some s ↦ k
    | none ↦ record {
      timer_manager = some (record { manager = new; hardware = hardware });
      timer_ready = true;
      handler_registered = true;
    }
  ]

  unfoldable pub one_shot_after :
      (frequency now later : ℕ)
      → Duration
      → Callback
      → Kernel Callback
      → Option (TimerResult ℕ × Kernel Callback)
  one_shot_after frequency now later delay cb k =
      if k.timer_ready
      then elim k.timer_manager [
        | none ↦ some (failure not_ready, k)
        | some s ↦
            elim (schedule_after frequency now later (duration_to_ticks frequency delay) cb s) [
              | none ↦ none
              | some (r, s') ↦ some (r, record k { timer_manager = some s' })
            ]
      ]
      else some (failure not_ready, k)

  unfoldable pub one_shot_at :
      (frequency now : ℕ)
      → Duration
      → Callback
      → Kernel Callback
      → Option (TimerResult ℕ × Kernel Callback)
  one_shot_at frequency now deadline cb k =
      if k.timer_ready
      then elim k.timer_manager [
        | none ↦ some (failure not_ready, k)
        | some s ↦ elim (schedule_at frequency now (duration_to_ticks frequency deadline) cb s) [
          | none ↦ none
          | some (id, s') ↦ some (success id, record k { timer_manager = some s' })
        ]
      ]
      else some (failure not_ready, k)

  -- The function `cancel`.
  pub cancel_timer : (frequency now id : ℕ) → Kernel Callback → Bool × Kernel Callback
  cancel_timer frequency now id k = elim k.timer_manager [
    | none ↦ (false, k)
    | some s ↦
        let (answer, s') = cancel frequency now id s in
        (answer, record k { timer_manager = some s' })
  ]

  pub time_list : (now : ℕ) → Kernel Callback → List TimeListEntry
  time_list now k = elim k.timer_manager [ none ↦ [] | some s ↦ snapshot now s.manager ]

  -- The callbacks that the handler runs once it has let the lock go, in their order.
  pub systimer_irq_handler :
      (frequency now later : ℕ) → Kernel Callback → List Callback × Kernel Callback
  systimer_irq_handler frequency now later k = elim k.timer_manager [
    | none ↦ ([], k)
    | some s ↦
        let (expired, s') = handle_irq frequency now later s in
        (expired, record k { timer_manager = some s' })
  ]

  -- A delay whose end is beyond the clock is refused with `Overflow`, and nothing changes. With any
  -- other, and fewer than 2 ^ 64 timers pending, a ready service schedules the callback for the
  -- reading of the clock and the delay in ticks, under an id that no pending timer has; the other
  -- timers keep their deadlines and callbacks, and the queue stays well formed, with the hardware
  -- armed at the second reading of the clock or left as it was. The delay in ticks is that of the
  -- seconds and nanoseconds together, rounded down, and at most the greatest number of 64 bits.
  pub one_shot_after-WellFormed :
      (frequency now later t : ℕ) (delay : Duration) (cb : Callback) (s : System Callback)
      → WellFormed frequency t s
      → length s.manager.index < u64_mod
      → delay.subsec_nanos < 1_000_000_000
      → frequency ≤ usize_max
      → let k : Kernel Callback = record {
        timer_manager = some s;
        timer_ready = true;
        handler_registered = true;
      } in
        let deadline = now + min (whole_ticks frequency delay) usize_max in
        (usize_max < deadline)
          × (one_shot_after frequency now later delay cb k ≡ some (failure overflow, k))
        ⊎ (deadline ≤ usize_max)
          × (id : ℕ) × (s' : System Callback) × (one_shot_after frequency now later delay cb k
              ≡ some (success id, record k { timer_manager = some s' }))
          × (timer_of id s.manager.timers ≡ none)
          × ((i : ℕ)
              → timer_of i s'.manager.timers
                ≡ (if i == id then some (deadline, cb) else timer_of i s.manager.timers))
          × Kept frequency later t s s'
  unfolding one_shot_after schedule_after
  one_shot_after-WellFormed frequency now later t delay cb s wf few nanos fast =
      let deadline = now + min (whole_ticks frequency delay) usize_max in
      let ticks = duration_to_ticks_lem frequency delay nanos fast in
      elim (Bool-cases (ltb usize_max deadline)) [
        | inl e ↦ inl (ground arith, rw (one_shot_after, schedule_after, ticks, e))
        | inr e ↦
            let (id, s', scheduled, fresh, added, kept) =
              schedule_at-WellFormed frequency later t deadline cb s wf few in
            inr (
              ground arith,
              id,
              s',
              rw (one_shot_after, schedule_after, ticks, e, scheduled),
              fresh,
              added,
              kept,
            )
      ]
