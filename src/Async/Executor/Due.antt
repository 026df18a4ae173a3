-- ===== src/Async/Executor/Due.antt =====
-- A poll of a task, and the state in which a task is polled.
use sparreal_os.Prelude.{
  ◌-◌, ℕ, suc, ◌+◌, ◌^◌, ◌≤◌, ◌<◌, ◌≡◌, ◌≢◌, inl, inr, refl, sym, ap, ◌∙◌, Bool, true, false, none,
  some, List, [], ◌∷◌, ◌++◌, ==_self, ==_false, if◌then◌else◌, arith, Bool-cases, ltb, lt→ltb,
}
use sparreal_os.Prelude.Outcome.{ok, Ensures, returns, bind}
use sparreal_os.Async.Task
use sparreal_os.Async.Task.{
  TaskId, TaskState, pending, woken, running, completed, TaskMetadata, waits_since, is_expired,
  update_execution, TaskPriority,
}
use sparreal_os.Async.Executor.{
  Call, Polled, Runtime, contains, remove_id, enqueue_task_wakeup, now, lock_registry,
  unlock_registry, is_polled, lock_metadata, set_metadata, run_call, run_calls, set_polling,
  set_state, poll_future, poll, unregister,
}
use sparreal_os.Async.Executor.Invariant.{
  Settled, Quiet, silent, wakes, contains-remove_id, contains-removed, Handled, true-ne-false,
  not_lt,
}

-- `s` with other wake-ups.
abbrev pub with_wakeups : Runtime → List TaskId → Runtime
with_wakeups s w = record s { wakeup_queue = w }

-- What a quiet future does.
run_calls-Quiet :
    (cs : List Call) (s : Runtime)
    → Quiet cs
    → Ensures (λ _ s'. (w : List TaskId) × (s' ≡ with_wakeups s w)) (λ _ _. ⊥) (run_calls cs s)
unfolding run_calls run_call enqueue_task_wakeup
run_calls-Quiet _ s silent = returns (s.wakeup_queue, refl)
run_calls-Quiet _ s (wakes {id} {cs} q) = elim (Bool-cases (contains id s.wakeup_queue)) [
  | inl e ↦ rw e (run_calls-Quiet cs s q)
  | inr e ↦ rw e (run_calls-Quiet cs (with_wakeups s (s.wakeup_queue ++ id ∷ [])) q)
]

-- What a poll does.
pub record Ran (s : Runtime) (id : TaskId) (ready : Bool) (s' : Runtime) : Type 0 where
  pub others : (x : TaskId) → x ≢ id → s'.metadata x ≡ s.metadata x
  pub count : (s'.metadata id).run_count ≡ (s.metadata id).run_count + 1
  pub last : (s'.metadata id).last_run_at ≡ some (s.clock s.reads)
  pub same_id : (s'.metadata id).id ≡ (s.metadata id).id
  pub state : (s'.metadata id).state ≡ (if ready then completed else pending)
  pub same_registry : s'.active_task_registry ≡ s.active_task_registry
  pub same_queue : s'.priority_task_queue ≡ s.priority_task_queue
  pub same_clock : s'.clock ≡ s.clock
  pub read_once : s'.reads ≡ suc s.reads
  pub same_lock : s'.registry_locked ≡ s.registry_locked
  pub idle : s'.polling ≡ none

module _ (polls : TaskId → ℕ → Polled)
    (quiet : (id : TaskId) (n : ℕ) → Quiet (polls id n).calls) where
  pub poll-Ran :
      (s : Runtime) (id : TaskId)
      → s.polling ≡ none
      → Task.is_completed (s.metadata id).state ≡ false
      → (s.metadata id).run_count + 1 < 2 ^ 64
      → Ensures (Ran s id) (λ _ _. ⊥) (poll polls id s)
  unfolding poll poll_future lock_metadata now update_execution set_metadata set_polling set_state
      is_polled
  poll-Ran s id idle open_ room =
      rw (idle, open_, lt→ltb _ _ room)
        (bind (run_calls-Quiet _ _ (quiet id ((s.metadata id).run_count + 1)))
          (λ _ s' (w, same). rw same (
            returns (record {
              others = λ x ne. rw (==_false x id ne) refl;
              count = rw (==_self id) refl;
              last = rw (==_self id) refl;
              same_id = rw (==_self id) refl;
              state = rw (==_self id) refl;
              same_registry = refl;
              same_queue = refl;
              same_clock = refl;
              read_once = refl;
              same_lock = refl;
              idle = refl;
            })))
          (λ _ _ failed. failed))

-- The state in which a task is polled: as the state `s` it was taken out of the queue in, or with
-- the task woken.
pub record Due (s : Runtime) (id : TaskId) (s' : Runtime) : Type 0 where
  pub others : (x : TaskId) → x ≢ id → s'.metadata x ≡ s.metadata x
  pub count : (s'.metadata id).run_count ≡ (s.metadata id).run_count
  pub same_id : (s'.metadata id).id ≡ (s.metadata id).id
  pub open_ : Task.is_completed (s'.metadata id).state ≡ false
  pub same_registry : s'.active_task_registry ≡ s.active_task_registry
  pub same_queue : s'.priority_task_queue ≡ s.priority_task_queue
  pub same_clock : s'.clock ≡ s.clock
  pub later : s.reads ≤ s'.reads
  pub unlocked : s'.registry_locked ≡ false
  pub idle : s'.polling ≡ none

Ran-waits_since :
    {s s' : Runtime} {id : TaskId} {ready : Bool}
    → Ran s id ready s'
    → waits_since (s'.metadata id) ≡ s.clock s.reads
Ran-waits_since ran = rw ran.last

pub since_poll :
    {n : ℕ} {s s1 s2 : Runtime} {id : TaskId} {ready : Bool}
    → Settled (suc n) (some id) s
    → Due s id s1
    → Ran s1 id ready s2
    → (i : ℕ) → s2.reads ≤ i
    → waits_since (s2.metadata id) ≤ s2.clock i
since_poll {s} {s1} {s2} inv due ran i le =
    let reading : s1.clock s1.reads ≤ s1.clock i =
      rw due.same_clock (inv.monotone s1.reads i (omega (arith, le, ran.read_once))) in
    let clocks : s2.clock i ≡ s1.clock i = ap (λ c. c i) ran.same_clock in
    omega (arith, Ran-waits_since ran, reading, clocks)

pub unregister_lem :
    (id : TaskId) (s : Runtime)
    → s.registry_locked ≡ false
    → unregister id s
      ≡ ok tt (record s {
        active_task_registry = remove_id id s.active_task_registry;
        registry_locked = false;
      })
unfolding unregister lock_registry unlock_registry
unregister_lem id s unlocked = rw unlocked

pub is_expired_lem :
    (m : TaskMetadata) (timeout t : ℕ)
    → waits_since m ≤ t
    → is_expired m timeout t ≡ some (ltb timeout (t - waits_since m))
unfolding is_expired
is_expired_lem m timeout t h = rw (not_lt t (waits_since m) h)

-- A completed task that is taken out of the queue.
pub completed-Handled :
    (n : ℕ) (s : Runtime) (id : TaskId)
    → Settled (suc n) (some id) s
    → Task.is_completed (s.metadata id).state ≡ true
    → Handled s id (record s {
      active_task_registry = remove_id id s.active_task_registry;
      registry_locked = false;
    })
completed-Handled n s id inv done = record {
  others = λ x ne. refl;
  stay = λ x ne. contains-remove_id x id s.active_task_registry ne;
  here = λ reg. absurd (true-ne-false (sym reg ∙ contains-removed id s.active_task_registry));
  same_id = refl;
  since = inv.seen id;
  grows = omega arith;
  once = omega arith;
  ran = λ up. absurd (true-ne-false (sym done ∙ ap Task.is_completed up));
  same_queue = refl;
  same_clock = refl;
  later = omega arith;
  unlocked = refl;
  idle = inv.idle;
}

-- A woken task is due.
pub self-Due :
    (n : ℕ) (s : Runtime) (id : TaskId)
    → Settled (suc n) (some id) s
    → Task.is_completed (s.metadata id).state ≡ false
    → Due s id s
self-Due n s id inv open_ = record {
  others = λ x ne. refl;
  count = refl;
  same_id = refl;
  open_ = open_;
  same_registry = refl;
  same_queue = refl;
  same_clock = refl;
  later = omega arith;
  unlocked = inv.unlocked;
  idle = inv.idle;
}
