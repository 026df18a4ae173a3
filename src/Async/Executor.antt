-- ===== src/Async/Executor.antt =====
-- crates/sparreal-kernel/src/os/async/executor.rs: the executor. Its state includes the globals that
-- it works on: the queue of wake-ups, the counter of task ids, the readings of the clock, and the
-- metadata of the tasks, which the registry, the queue and the handles share.
pub mod Invariant
pub mod Due
pub mod Polls
pub mod Ticks
pub mod Wakeups
pub mod Tick
pub mod Spawn
use sparreal_os.Prelude.{
  ℕ, zero, suc, ◌+◌, ◌%◌, ◌^◌, Bool, true, false, Option, none, some, List, [], ◌∷◌, ◌++◌, length,
  ◌||◌, ◌==◌, if◌then◌else◌,
}
use sparreal_os.Prelude.Outcome.{Run, ok, panic, ◌>>=◌, ◌>>◌, pure, out_of_fuel}
use sparreal_os.Async.Task
use sparreal_os.Async.Task.{
  TaskId, TaskState, pending, completed, TaskMetadata, new, is_woken, is_completed, is_expired,
  update_execution, TaskPriority, priority, below,
}

-- What a future does while it is polled, besides its own work: it wakes a task by its waker, spawns
-- a task, or wakes a task by its handle.
pub data Call : Type 0 where
  waker_wake : TaskId → Call
  spawn_task : Call
  handle_wake : TaskId → Call

pub record Polled : Type 0 where
  pub calls : List Call
  pub ready : Bool

pub record Runtime : Type 0 where
  pub priority_task_queue : List TaskPriority
  pub active_task_registry : List TaskId
  pub executor_running : Bool
  pub task_timeout_milliseconds : ℕ
  pub wakeup_queue : List TaskId
  pub counter : ℕ
  pub metadata : TaskId → TaskMetadata
  pub clock : ℕ → ℕ
  pub reads : ℕ
  pub registry_locked : Bool
  pub polling : Option TaskId

abbrev pub M : Type 0 → Type 0
M B = Runtime → Run ⊥ Runtime B

unfoldable pub contains : TaskId → List TaskId → Bool
contains id [] = false
contains id (x ∷ xs) = (x == id) || contains id xs

unfoldable pub remove_id : TaskId → List TaskId → List TaskId
remove_id id [] = []
remove_id id (x ∷ xs) = if x == id then remove_id id xs else x ∷ remove_id id xs

-- `BinaryHeap::pop`: the entry that none is below, since the order of the wrapper is reversed.
unfoldable pub pop_least : TaskPriority → List TaskPriority → TaskPriority × List TaskPriority
pop_least p [] = (p, [])
pop_least p (q ∷ qs) =
    if below q p
    then ((pop_least q qs).0, p ∷ (pop_least q qs).1)
    else ((pop_least p qs).0, q ∷ (pop_least p qs).1)

-- `enqueue_task_wakeup`
unfoldable pub enqueue_task_wakeup : TaskId → M (Unit {0})
enqueue_task_wakeup id s =
    if contains id s.wakeup_queue
    then ok tt s
    else ok tt (record s { wakeup_queue = s.wakeup_queue ++ id ∷ [] })

-- A reading of the clock.
unfoldable pub now : M ℕ
now s = ok (s.clock s.reads) (record s { reads = suc s.reads })

-- The lock of the registry. `IrqSpinlock::lock` panics on a lock that its own processor holds.
unfoldable pub lock_registry : M (Unit {0})
lock_registry s = if s.registry_locked then panic else ok tt (record s { registry_locked = true })

unfoldable pub unlock_registry : M (Unit {0})
unlock_registry s = ok tt (record s { registry_locked = false })

-- The metadata of a task, under its lock, which `poll` holds while the future runs.
unfoldable pub is_polled : TaskId → Option TaskId → Bool
is_polled id none = false
is_polled id (some p) = p == id

unfoldable pub lock_metadata : TaskId → M TaskMetadata
lock_metadata id s = if is_polled id s.polling then panic else ok (s.metadata id) s

unfoldable pub set_metadata : TaskId → TaskMetadata → M (Unit {0})
set_metadata id m s = ok tt (record s { metadata = λ x. if x == id then m else s.metadata x })

unfoldable pub mark_woken : TaskId → M (Unit {0})
mark_woken id = do m ← lock_metadata id; t ← now; set_metadata id (Task.mark_woken m t)

unfoldable pub push_task : TaskPriority → M (Unit {0})
push_task p s = ok tt (record s { priority_task_queue = p ∷ s.priority_task_queue })

-- Queues a task of the registry, which is locked.
unfoldable pub push_registered : TaskId → M (Unit {0})
push_registered id s =
    if contains id s.active_task_registry
    then (lock_metadata id >>= λ m. push_task (priority m)) s
    else ok tt s

unfoldable pub add_task_to_queue : TaskId → M (Unit {0})
add_task_to_queue id = do lock_registry; push_registered id; unlock_registry

-- `TaskId::new`
unfoldable pub next_task_id : M TaskId
next_task_id s = ok s.counter (record s { counter = (s.counter + 1) % 2 ^ 64 })

unfoldable pub register : TaskId → M (Unit {0})
register id s = ok tt (record s { active_task_registry = id ∷ remove_id id s.active_task_registry })

unfoldable pub unregister : TaskId → M (Unit {0})
unregister id = do
  lock_registry
  (λ s. ok tt (record s { active_task_registry = remove_id id s.active_task_registry }))
  unlock_registry

unfoldable pub spawn : M TaskId
spawn = do
  id ← next_task_id
  t ← now
  set_metadata id (new id t)
  lock_registry
  register id
  unlock_registry
  add_task_to_queue id
  pure id

unfoldable pub wake_by_id : TaskId → M Bool
wake_by_id id = do
  lock_registry
  (λ s.
      if contains id s.active_task_registry
      then (mark_woken id >> add_task_to_queue id >> unlock_registry >> pure true) s
      else (unlock_registry >> pure false) s)

-- `TaskHandle::wake` of a handle that has its task.
unfoldable pub wake_handle : TaskId → M (Unit {0})
wake_handle id = mark_woken id

unfoldable pub set_polling : Option TaskId → M (Unit {0})
set_polling p s = ok tt (record s { polling = p })

unfoldable pub run_call : Call → M (Unit {0})
run_call (waker_wake id) = enqueue_task_wakeup id
run_call spawn_task = do id ← spawn; pure tt
run_call (handle_wake id) = wake_handle id

unfoldable pub run_calls : List Call → M (Unit {0})
run_calls [] = pure tt
run_calls (c ∷ cs) = do run_call c; run_calls cs

unfoldable pub set_state : TaskId → TaskState → M (Unit {0})
set_state id state s = set_metadata id (record (s.metadata id) { state = state }) s

-- Wakes and queues a task of the registry, which is locked.
unfoldable pub wake_registered : TaskId → M (Unit {0})
wake_registered id s =
    if contains id s.active_task_registry
    then (mark_woken id >> lock_metadata id >>= λ m. push_task (priority m)) s
    else ok tt s

unfoldable pub wake_one : TaskId → M (Unit {0})
wake_one id = do lock_registry; wake_registered id; unlock_registry

-- The loop of `process_wake_queue` over the ids that it takes out, one by one.
unfoldable pub drain_wakeups : List TaskId → M (Unit {0})
drain_wakeups [] = pure tt
drain_wakeups (id ∷ ids) = do
  (λ s. ok tt (record s { wakeup_queue = ids }))
  wake_one id
  drain_wakeups ids

unfoldable pub process_wake_queue : M (Unit {0})
process_wake_queue s = drain_wakeups s.wakeup_queue s

-- Whether a task that is not woken has waited too long; it is woken then.
unfoldable pub expire : TaskId → Option Bool → M Bool
expire id none s = panic
expire id (some false) s = ok false s
expire id (some true) s = (mark_woken id >> pure true) s

unfoldable pub promote_expired : TaskId → TaskMetadata → M Bool
promote_expired id m = do
  t ← now
  timeout ← (λ s. ok s.task_timeout_milliseconds s)
  expire id (is_expired m timeout t)

unfoldable pub should_execute : TaskId → M Bool
should_execute id = do
  m ← lock_metadata id
  if is_woken m.state then pure true else promote_expired id m

module _ (polls : TaskId → ℕ → Polled) where
  -- `TaskRef::poll`: whether the future is ready. The lock of the metadata is held meanwhile.
  unfoldable pub poll_future : TaskId → TaskMetadata → M Bool
  poll_future id m = do
    set_metadata id m
    set_polling (some id)
    run_calls (polls id m.run_count).calls
    set_polling none
    set_state id (if (polls id m.run_count).ready then completed else pending)
    pure (polls id m.run_count).ready

  unfoldable pub poll : TaskId → M Bool
  poll id = do
    m ← lock_metadata id
    if is_completed m.state then pure true else do
      t ← now
      elim (update_execution m t) [ none ↦ λ s. panic | some m' ↦ poll_future id m' ]

  -- A task that has been taken from the queue.
  unfoldable pub process_task : TaskId → M (Unit {0})
  process_task id = do
    m ← lock_metadata id
    if is_completed m.state then unregister id else do
      execute ← should_execute id
      if execute then (do ready ← poll id; if ready then unregister id else pure tt) else pure tt

  unfoldable pub process_queue : List TaskPriority → M Bool
  process_queue [] s = ok false s
  process_queue (p ∷ ps) s =
      (process_task (pop_least p ps).0.task_id >> pure true)
        (record s { priority_task_queue = (pop_least p ps).1 })

  unfoldable pub process_one_task : M Bool
  process_one_task s = process_queue s.priority_task_queue s

  -- The loop of `tick` with the tasks that it may still process.
  unfoldable pub run_tasks : ℕ → M (Unit {0})
  run_tasks zero = pure tt
  run_tasks (suc left) = do more ← process_one_task; if more then run_tasks left else pure tt

  unfoldable pub tick : M (Unit {0})
  tick = do process_wake_queue; run_tasks 10

  unfoldable pub has_pending_tasks : Runtime → Bool
  has_pending_tasks s = elim s.wakeup_queue [
    | _ ∷ _ ↦ true
    | [] ↦ elim s.priority_task_queue [
      | _ ∷ _ ↦ true
      | [] ↦ elim s.active_task_registry [ _ ∷ _ ↦ true | [] ↦ false ]
    ]
  ]

  -- The loop of `run_until_completion`.
  unfoldable pub run_ticks : ℕ → M (Unit {0})
  run_ticks zero s = if has_pending_tasks s then out_of_fuel else ok tt s
  run_ticks (suc fuel) s = if has_pending_tasks s then (tick >> run_ticks fuel) s else ok tt s

  unfoldable pub run_until_completion : ℕ → M (Unit {0})
  run_until_completion fuel = do
    (λ s. ok tt (record s { executor_running = true }))
    run_ticks fuel
    (λ s. ok tt (record s { executor_running = false }))

  -- `block_on`
  unfoldable pub block_on : ℕ → M (Unit {0})
  block_on fuel = do id ← spawn; run_until_completion fuel

-- `task_count` and `queued_task_count`
unfoldable pub task_count : Runtime → ℕ
task_count s = length s.active_task_registry

unfoldable pub queued_task_count : Runtime → ℕ
queued_task_count s = length s.priority_task_queue
