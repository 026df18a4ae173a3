-- ===== src/Async/Executor/Tick.antt =====
-- `tick` as a whole, and what it owes to a task that is woken.
use sparreal_os.Prelude.{
  ℕ, ◌+◌, ◌≤◌, ◌<◌, ◌≡◌, ◌⊎◌, inl, inr, sym, ap, ◌∙◌, true, none, [], arith, length,
}
use sparreal_os.Prelude.Outcome.{Ensures, bind, mono}
use sparreal_os.Async.Task.{TaskId, woken}
use sparreal_os.Async.Executor.{Polled, Runtime, contains, process_wake_queue, tick}
use sparreal_os.Async.Executor.Invariant.{is_queued, registered, Settled, Quiet, true-ne-false}
use sparreal_os.Async.Executor.Ticks.{Served, served, next, Drained, run_tasks-Drained}
use sparreal_os.Async.Executor.Wakeups.{Woke, drain_wakeups-Woke, none-ne-some}

module _ (polls : TaskId → ℕ → Polled)
    (quiet : (id : TaskId) (n : ℕ) → Quiet (polls id n).calls) where
  -- A tick in which every task may run ten times more.
  Woke-Drained :
      (s s1 s' : Runtime)
      → Woke 10 s.wakeup_queue s s1
      → Drained polls quiet s1 s'
      → (x : TaskId) → registered s x ≡ true
      → (contains x s.wakeup_queue ≡ true) ⊎ ((s.metadata x).state ≡ woken)
      → Served (s.metadata x).run_count x s'
  Woke-Drained s s1 s' woke drained x reg due = drained.progress (s.metadata x).run_count x (
      next (woke.stay x ∙ reg)
        (elim due [ inl among ↦ woke.up x among reg | inr up ↦ woke.still x up ]) (woke.counts x))

  -- In an empty queue no task waits to run.
  Served-emptied :
      {c : ℕ} {x : TaskId} {s : Runtime}
      → Settled 0 none s
      → s.priority_task_queue ≡ []
      → Served c x s
      → c < (s.metadata x).run_count
  unfolding contains
  Served-emptied inv empty (served lt) = lt
  Served-emptied {x} inv empty (next reg up count) = elim (inv.queued x reg up) [
    | inl there ↦ absurd (true-ne-false (sym there ∙ ap (is_queued x) empty))
    | inr absent ↦ absurd (none-ne-some absent)
  ]

  -- Where no future does more than wake tasks by their wakers, and no task has run 2 ^ 64 times,
  -- `tick` returns and keeps the state of the executor settled: no lock is left taken, the metadata
  -- and the registry agree, and a task of the registry waits for a wake-up, or is woken and queued.
  pub tick-Settled :
      (s : Runtime) → Settled 10 none s → Ensures (λ _. Settled 0 none) (λ _ _. ⊥) (tick polls s)
  unfolding tick process_wake_queue
  tick-Settled s inv =
      bind (drain_wakeups-Woke 10 s.wakeup_queue s inv)
        (λ _ s1 woke.
          mono (run_tasks-Drained polls quiet 10 s1 woke.settled)
            (λ _ s' (drained, empty). drained.settled) (λ _ _ failed. failed))
        (λ _ _ failed. failed)

  -- If besides the queue and the wake-ups hold at most ten tasks, every task of the registry that is
  -- woken, or whose waker was called before, has run when `tick` returns: no wake-up is lost.
  pub tick-run_count :
      (s : Runtime)
      → Settled 10 none s
      → length s.priority_task_queue + length s.wakeup_queue ≤ 10
      → (x : TaskId) → registered s x ≡ true
      → (contains x s.wakeup_queue ≡ true) ⊎ ((s.metadata x).state ≡ woken)
      → Ensures
          (λ _ s'. (s.metadata x).run_count < (s'.metadata x).run_count)
          (λ _ _. ⊥)
          (tick polls s)
  unfolding tick process_wake_queue
  tick-run_count s inv few x reg due =
      bind (drain_wakeups-Woke 10 s.wakeup_queue s inv)
        (λ _ s1 woke.
          mono (run_tasks-Drained polls quiet 10 s1 woke.settled)
            (λ _ s' (drained, empty).
              Served-emptied drained.settled (empty (omega (arith, woke.room)))
                (Woke-Drained s s1 s' woke drained x reg due))
            (λ _ _ failed. failed))
        (λ _ _ failed. failed)
