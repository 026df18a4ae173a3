-- ===== src/Async/Task.antt =====
-- crates/sparreal-kernel/src/os/async/task.rs: what the executor knows of a task. A method that reads
-- the clock takes the reading, in milliseconds, as an argument.
use sparreal_os.Prelude.{
  ℕ, ◌+◌, ◌-◌, ◌^◌, Bool, true, false, Option, none, some, ◌==◌, ltb, if◌then◌else◌,
}

abbrev pub TaskId : Type 0
TaskId = ℕ

pub data TaskState : Type 0 where
  pending woken running completed : TaskState

pub record TaskMetadata : Type 0 where
  pub id : TaskId
  pub state : TaskState
  pub created_at : ℕ
  pub last_wake_at : ℕ
  pub last_run_at : Option ℕ
  pub run_count : ℕ

abbrev pub new : TaskId → ℕ → TaskMetadata
new id now = record {
  id = id;
  state = woken;
  created_at = now;
  last_wake_at = now;
  last_run_at = none;
  run_count = 0;
}

abbrev pub is_woken : TaskState → Bool
is_woken pending = false
is_woken woken = true
is_woken running = false
is_woken completed = false

abbrev pub is_completed : TaskState → Bool
is_completed pending = false
is_completed woken = false
is_completed running = false
is_completed completed = true

-- The time from which a task waits for its next run.
abbrev pub waits_since : TaskMetadata → ℕ
waits_since m = elim m.last_run_at [ some last_run ↦ last_run | none ↦ m.created_at ]

-- `none` is the overflow of the subtraction.
unfoldable pub is_expired : TaskMetadata → ℕ → ℕ → Option Bool
is_expired m timeout_ms now =
    if ltb now (waits_since m) then none else some (ltb timeout_ms (now - waits_since m))

-- `none` is the overflow of the count.
unfoldable pub update_execution : TaskMetadata → ℕ → Option TaskMetadata
update_execution m now =
    if ltb (m.run_count + 1) (2 ^ 64)
    then some (record m { last_run_at = some now; run_count = m.run_count + 1; state = running })
    else none

abbrev pub mark_woken : TaskMetadata → ℕ → TaskMetadata
mark_woken m now = record m { last_wake_at = now; state = woken }

pub record TaskPriority : Type 0 where
  pub woken : Bool
  pub timestamp : ℕ
  pub task_id : TaskId

abbrev pub priority : TaskMetadata → TaskPriority
priority m = record { woken = is_woken m.state; timestamp = m.last_wake_at; task_id = m.id }

-- The derived order: field by field, with false below true.
unfoldable pub below : TaskPriority → TaskPriority → Bool
below p q = elim p.woken [
  | true ↦ elim q.woken [ true ↦ later | false ↦ false ]
  | false ↦ elim q.woken [ true ↦ true | false ↦ later ]
]
  where
    later : Bool
    later =
        if p.timestamp == q.timestamp then ltb p.task_id q.task_id else ltb p.timestamp q.timestamp
