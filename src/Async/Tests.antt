-- ===== src/Async/Tests.antt =====
-- The theorems on the executor where one task wakes itself each time it is polled.
use sparreal_os.Prelude.{
  ℕ, ◌<◌, ◌≡◌, inl, inr, refl, true, false, none, [], ◌∷◌, arith, if◌then◌else◌,
}
use sparreal_os.Prelude.Outcome.{Ensures, ok, panic}
use sparreal_os.Async.Task
use sparreal_os.Async.Task.{TaskId, woken, priority}
use sparreal_os.Async.Executor.{Polled, waker_wake, Runtime, contains, spawn, tick, wake_by_id}
use sparreal_os.Async.Executor.Invariant.{Settled, Quiet, silent, wakes, registered}
use sparreal_os.Async.Executor.Spawn.{Spawned, spawn-Spawned, wake_by_id_lem}
use sparreal_os.Async.Executor.Tick.{tick-Settled, tick-run_count}

abbrev yields : TaskId → ℕ → Polled
yields id n = record { calls = waker_wake id ∷ []; ready = false }

yields-Quiet : (id : TaskId) (n : ℕ) → Quiet (yields id n).calls
yields-Quiet id n = wakes silent

abbrev one_task : Runtime
one_task = record {
  priority_task_queue = priority (Task.new 1 0) ∷ [];
  active_task_registry = 1 ∷ [];
  executor_running = true;
  task_timeout_milliseconds = 1000;
  wakeup_queue = 1 ∷ [];
  counter = 2;
  metadata = λ id. Task.new id 0;
  clock = λ i. i;
  reads = 0;
  registry_locked = false;
  polling = none;
}

one_task-Settled : Settled 10 none one_task
unfolding contains
one_task-Settled = record {
  unlocked = refl;
  idle = refl;
  own_id = λ id reg. refl;
  queued = λ id reg up. inl reg;
  waiting = λ id reg. inl refl;
  seen = λ id i le. omega arith;
  rested = λ id. omega arith;
  monotone = λ i j le. le;
}

one_task-registered : registered one_task 1 ≡ true
unfolding contains
one_task-registered = refl

tick-Settled_example : Ensures (λ _. Settled 0 none) (λ _ _. ⊥) (tick yields one_task)
tick-Settled_example = tick-Settled yields yields-Quiet one_task one_task-Settled

tick-run_count_example :
    Ensures (λ _ s'. 0 < (s'.metadata 1).run_count) (λ _ _. ⊥) (tick yields one_task)
tick-run_count_example =
    tick-run_count yields yields-Quiet one_task one_task-Settled (omega arith) 1 one_task-registered
      (inr refl)

spawn-Spawned_example : Ensures (Spawned 10 one_task) (λ _ _. ⊥) (spawn one_task)
spawn-Spawned_example = spawn-Spawned 10 one_task one_task-Settled

wake_by_id_lem_example : wake_by_id 1 one_task ≡ (
    if registered one_task 1 then panic else ok false (record one_task { registry_locked = false }))
wake_by_id_lem_example = wake_by_id_lem 1 one_task refl refl
