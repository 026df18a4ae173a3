-- ===== src/Timer/Invariant.antt =====
-- crates/sparreal-kernel/src/os/time/timer.rs: what `schedule_at`, `cancel` and `handle_irq` do to
-- the pending timers, the index and the hardware timer.
use sparreal_os.Prelude.{
  ℕ, ◌+◌, ◌%◌, ◌<◌, ◌≡◌, refl, sym, ◌∙◌, true, false, ◌==◌, if◌then◌else◌, none, some, length,
  arith, Bool-cases, Option-cases, inl, inr, subst,
}
use sparreal_os.Timer.{
  TimerKey, Timers, TimerManager, Hardware, System, u64_mod, insert, remove, index_get,
  index_insert, index_remove, arm_hardware_timer, is_earliest, was_first, schedule_at, cancel,
  handle_irq,
}
use sparreal_os.Timer.Ids.{index_get-index_remove, next_timer_id-fresh}
use sparreal_os.Timer.Queue.{
  deadline_of, InOrder, insert-InOrder, remove-InOrder, deadline_of-insert, deadline_of-remove,
  timer_of, timer_of-none, timer_of-some, timer_of-insert, timer_of-remove,
}
use sparreal_os.Timer.Armed.{
  Armed, earliest, arm_hardware_timer-Armed, earliest-insert, earliest-remove,
}
use sparreal_os.Timer.Expiry.{due, pending, callbacks, pending-InOrder, take_expired_lem}

module _ {Callback : Type 0} where
  -- The hardware was set when the clock read `t`, and stands at the earliest deadline.
  pub record WellFormed (frequency t : ℕ) (s : System Callback) : Type 0 where
    pub ordered : InOrder s.manager.timers
    pub indexed : (i : ℕ) → index_get i s.manager.index ≡ deadline_of i s.manager.timers
    pub bounded : s.manager.next_id < u64_mod
    pub armed : Armed frequency t (earliest s.manager.timers) s.hardware

  -- The queue `s'` is well formed: with the hardware set at the reading `now`, or untouched since it
  -- was set at `t`.
  pub data Kept (frequency now t : ℕ) (s s' : System Callback) : Type 0 where
    set_now : WellFormed frequency now s' → Kept frequency now t s s'
    untouched : s'.hardware ≡ s.hardware → WellFormed frequency t s' → Kept frequency now t s s'

  -- A timer is scheduled, with fewer than 2 ^ 64 pending: it gets an id that no pending timer has
  -- and its deadline and callback, no other timer changes its deadline or callback, and the queue
  -- stays well formed. The hardware is armed for the earliest deadline: at the reading of the clock
  -- now, for the least interval that reaches the deadline and is neither below the ten-thousandth
  -- part of a second nor 0; or it is left as it was so armed before, and that is still right.
  pub schedule_at-WellFormed :
      (frequency now t deadline : ℕ) (cb : Callback) (s : System Callback)
      → WellFormed frequency t s
      → length s.manager.index < u64_mod
      → (id : ℕ) × (s' : System Callback) × (schedule_at frequency now deadline cb s
          ≡ some (id, s'))
        × (timer_of id s.manager.timers ≡ none)
        × ((i : ℕ)
            → timer_of i s'.manager.timers
              ≡ (if i == id then some (deadline, cb) else timer_of i s.manager.timers))
        × Kept frequency now t s s'
  unfolding schedule_at index_insert index_get
  schedule_at-WellFormed frequency now t deadline cb s wf few =
      let (id, found, free, small) =
        next_timer_id-fresh s.manager.next_id s.manager.index wf.bounded few in
      let key : TimerKey = record { deadline = deadline; id = id } in
      let new : deadline_of id s.manager.timers ≡ none = sym (wf.indexed id) ∙ free in
      let ts = insert key cb s.manager.timers in
      let manager' : TimerManager Callback = record {
        next_id = (id + 1) % u64_mod;
        timers = ts;
        index = index_insert id deadline s.manager.index;
      } in
      let well : (hw : Hardware) (t' : ℕ)
          → Armed frequency t' (earliest ts) hw
          → WellFormed frequency t' (record { manager = manager'; hardware = hw }) =
        λ hw t' armed. record {
          ordered = insert-InOrder key cb s.manager.timers new wf.ordered;
          indexed = λ i.
              rw
                (
                  deadline_of-insert i key cb s.manager.timers new,
                  index_get-index_remove i id s.manager.index,
                )
                (rw (wf.indexed i) (ground arith));
          bounded = omega arith;
          armed = armed;
        } in
      let hw =
        if is_earliest deadline s.manager.timers
        then arm_hardware_timer frequency now ts
        else s.hardware in
      (
        id,
        record { manager = manager'; hardware = hw },
        rw (schedule_at, found),
        timer_of-none id s.manager.timers new,
        (λ i. timer_of-insert i key cb s.manager.timers new),
        (elim (Bool-cases (is_earliest deadline s.manager.timers)) [
          | inl e ↦ rw e (set_now (well _ now (arm_hardware_timer-Armed frequency now ts)))
          | inr e ↦ rw e (
              untouched refl (
                well _ t (
                  subst (λ d. Armed frequency t d s.hardware)
                    (sym (earliest-insert key cb s.manager.timers e)) wf.armed)))
        ]),
      )

  without_none :
      (id : ℕ) (ts : Timers Callback)
      → timer_of id ts ≡ none
      → (i : ℕ) → timer_of i ts ≡ (if i == id then none else timer_of i ts)
  without_none id ts e i = elim (Bool-cases (i == id)) [
    | inl h ↦ let at : i ≡ id = ground arith in rw (h, at, e)
    | inr h ↦ rw h
  ]

  -- The state after a pending timer is cancelled.
  cancelled :
      (frequency now t id d : ℕ) (s : System Callback)
      → WellFormed frequency t s
      → deadline_of id s.manager.timers ≡ some d
      → let key : TimerKey = record { deadline = d; id = id } in
        let ts = remove key s.manager.timers in
        Kept frequency now t s (record {
          manager = record s.manager { timers = ts; index = index_remove id s.manager.index };
          hardware =
              if was_first key s.manager.timers
              then arm_hardware_timer frequency now ts
              else s.hardware;
        })
  cancelled frequency now t id d s wf known =
      let key : TimerKey = record { deadline = d; id = id } in
      let ts = remove key s.manager.timers in
      let manager' : TimerManager Callback = record s.manager {
        timers = ts;
        index = index_remove id s.manager.index;
      } in
      let well : (hw : Hardware) (t' : ℕ)
          → Armed frequency t' (earliest ts) hw
          → WellFormed frequency t' (record { manager = manager'; hardware = hw }) =
        λ hw t' armed. record {
          ordered = remove-InOrder key s.manager.timers wf.ordered;
          indexed = λ i. rw (
            deadline_of-remove i key s.manager.timers known wf.ordered,
            index_get-index_remove i id s.manager.index,
            wf.indexed i,
          );
          bounded = wf.bounded;
          armed = armed;
        } in
      elim (Bool-cases (was_first key s.manager.timers)) [
        | inl e ↦ rw e (set_now (well _ now (arm_hardware_timer-Armed frequency now ts)))
        | inr e ↦ rw e (
            untouched refl (
              well _ t (
                subst (λ d. Armed frequency t d s.hardware)
                  (sym (earliest-remove key s.manager.timers e)) wf.armed)))
      ]

  -- Cancelling answers whether the timer was pending. It takes out that timer and no other, and
  -- the queue stays well formed. The hardware is armed for the earliest deadline left, or off where
  -- there is none: set so at the reading of the clock now, or left as it was set before, and that is
  -- still right.
  pub cancel-WellFormed :
      (frequency now t id : ℕ) (s : System Callback)
      → WellFormed frequency t s
      → let (answer, s') = cancel frequency now id s in
        (answer ≡ elim (timer_of id s.manager.timers) [ none ↦ false | some d ↦ true ])
        × ((i : ℕ)
            → timer_of i s'.manager.timers
              ≡ (if i == id then none else timer_of i s.manager.timers))
        × Kept frequency now t s s'
  unfolding cancel
  cancel-WellFormed frequency now t id s wf =
      elim (Option-cases (deadline_of id s.manager.timers)) [
        | inl e ↦
            let gone : index_get id s.manager.index ≡ none = wf.indexed id ∙ e in
            let none' = timer_of-none id s.manager.timers e in
            rw (cancel, gone, none')
              (refl, without_none id s.manager.timers none', untouched refl wf)
        | inr (d, e) ↦
            let known : index_get id s.manager.index ≡ some d = wf.indexed id ∙ e in
            let (cb, there) = timer_of-some id d s.manager.timers e in
            rw (cancel, known, there)
              (
                refl,
                (λ i.
                    timer_of-remove i (record { deadline = d; id = id }) s.manager.timers e
                      wf.ordered),
                cancelled frequency now t id d s wf e,
              )
      ]

  -- The timer interrupt takes exactly the callbacks whose deadline has passed, in the order of
  -- their deadlines, leaves the other timers, and keeps the queue well formed, with the hardware
  -- armed at the second reading of the clock for the earliest deadline left: for the least interval
  -- that reaches it and is neither below the ten-thousandth part of a second nor 0.
  pub handle_irq-WellFormed :
      (frequency now later t : ℕ) (s : System Callback)
      → WellFormed frequency t s
      → let (expired, s') = handle_irq frequency now later s in
        (expired ≡ callbacks (due now s.manager.timers))
        × (s'.manager.timers ≡ pending now s.manager.timers)
        × WellFormed frequency later s'
  unfolding handle_irq
  handle_irq-WellFormed frequency now later t s wf =
      let (taken, left, indexed) =
        take_expired_lem now s.manager.timers s.manager.index wf.ordered wf.indexed in
      (
        taken,
        left,
        record {
          ordered = subst InOrder (sym left) (pending-InOrder now s.manager.timers wf.ordered);
          indexed = indexed;
          bounded = wf.bounded;
          armed = arm_hardware_timer-Armed frequency later _;
        },
      )
