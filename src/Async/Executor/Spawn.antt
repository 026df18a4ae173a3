-- ===== src/Async/Executor/Spawn.antt =====
-- `spawn` and `wake_by_id`.
use sparreal_os.Prelude.{
  ℕ, suc, ◌+◌, ◌%◌, ◌^◌, ◌≡◌, ◌≢◌, inl, inr, refl, sym, ap, ◌∙◌, true, false, none, ◌∷◌, ◌||◌, ◌==◌,
  ==_self, ==_false, if◌then◌else◌, arith, Bool-cases,
}
use sparreal_os.Prelude.Outcome.{ok, panic, Ensures, returns}
use sparreal_os.Async.Task
use sparreal_os.Async.Task.{TaskId, pending, woken, TaskMetadata, waits_since, priority}
use sparreal_os.Async.Executor.{
  Runtime, contains, remove_id, spawn, wake_by_id, next_task_id, now, set_metadata, register,
  unlock_registry, lock_registry, add_task_to_queue, push_registered, push_task, mark_woken,
}
use sparreal_os.Async.Executor.Invariant.{
  is_queued, registered, Settled, eq-cases, contains-remove_id, lock_metadata_lem,
}
use sparreal_os.Async.Executor.Ticks.{or_true}
use sparreal_os.Async.Executor.Wakeups.{lock_registry_lem}

-- What `spawn` does.
pub record Spawned (n : ℕ) (s : Runtime) (id : TaskId) (s' : Runtime) : Type 0 where
  pub settled : Settled n none s'
  pub fresh : id ≡ s.counter
  pub listed : registered s' id ≡ true
  pub ready : (s'.metadata id).state ≡ woken
  pub queued : is_queued id s'.priority_task_queue ≡ true
  pub others :
      (x : TaskId) → x ≢ id → (s'.metadata x ≡ s.metadata x) × (registered s' x ≡ registered s x)

abbrev spawned_task : Runtime → TaskMetadata
spawned_task s = Task.new s.counter (s.clock s.reads)

abbrev after_spawn : Runtime → Runtime
after_spawn s = record s {
  counter = (s.counter + 1) % 2 ^ 64;
  reads = suc s.reads;
  metadata = λ x. if x == s.counter then spawned_task s else s.metadata x;
  active_task_registry = s.counter ∷ remove_id s.counter s.active_task_registry;
  priority_task_queue = priority (spawned_task s) ∷ s.priority_task_queue;
  registry_locked = false;
}

spawn_lem :
    (s : Runtime)
    → s.registry_locked ≡ false
    → s.polling ≡ none
    → spawn s ≡ ok s.counter (after_spawn s)
unfolding spawn next_task_id now set_metadata register unlock_registry add_task_to_queue
    push_registered push_task contains
spawn_lem s unlocked idle =
    let made : Runtime = record s {
      counter = (s.counter + 1) % 2 ^ 64;
      reads = suc s.reads;
      metadata = λ x. if x == s.counter then spawned_task s else s.metadata x;
    } in
    let listed : Runtime = record made {
      active_task_registry = s.counter ∷ remove_id s.counter s.active_task_registry;
      registry_locked = false;
    } in
    rw
      (
        lock_registry_lem made unlocked,
        lock_registry_lem listed refl,
        lock_metadata_lem s.counter (record listed { registry_locked = true }) idle,
        ==_self s.counter,
      )
      refl

spawn_others :
    (s : Runtime) (x : TaskId) → x ≢ s.counter → registered (after_spawn s) x ≡ registered s x
unfolding contains
spawn_others s x ne =
    ap (λ b. b || contains x (remove_id s.counter s.active_task_registry))
      (==_false s.counter x (λ e. ne (sym e)))
    ∙ contains-remove_id x s.counter s.active_task_registry ne

spawn_listed : (s : Runtime) → registered (after_spawn s) s.counter ≡ true
unfolding contains
spawn_listed s = rw (==_self s.counter)

spawn_queued : (s : Runtime) → is_queued s.counter (after_spawn s).priority_task_queue ≡ true
unfolding contains
spawn_queued s = rw (==_self s.counter)

spawn_still_queued :
    (s : Runtime) (x : TaskId)
    → is_queued x s.priority_task_queue ≡ true
    → is_queued x (after_spawn s).priority_task_queue ≡ true
unfolding contains
spawn_still_queued s x there = ap (λ b. (s.counter == x) || b) there ∙ or_true (s.counter == x)

after_spawn-Settled : (n : ℕ) (s : Runtime) → Settled n none s → Settled n none (after_spawn s)
after_spawn-Settled n s inv = record {
  unlocked = refl;
  idle = inv.idle;
  own_id = λ x reg. elim (eq-cases x s.counter) [
    | inl e ↦ rw (e, ==_self s.counter) refl
    | inr ne ↦ rw (==_false x s.counter ne) (inv.own_id x (sym (spawn_others s x ne) ∙ reg))
  ];
  queued = λ x reg up. elim (eq-cases x s.counter) [
    | inl e ↦ inl (ap (λ y. is_queued y (after_spawn s).priority_task_queue) e ∙ spawn_queued s)
    | inr ne ↦
        let up' : (s.metadata x).state ≡ woken = rw (==_false x s.counter ne) at up in
        elim (inv.queued x (sym (spawn_others s x ne) ∙ reg) up') [
          | inl there ↦ inl (spawn_still_queued s x there)
          | inr absent ↦ inr absent
        ]
  ];
  waiting = λ x reg. elim (eq-cases x s.counter) [
    | inl e ↦ rw (e, ==_self s.counter) (inl refl)
    | inr ne ↦ rw (==_false x s.counter ne) (inv.waiting x (sym (spawn_others s x ne) ∙ reg))
  ];
  seen = λ x i le. elim (eq-cases x s.counter) [
    | inl e ↦ rw (e, ==_self s.counter) (inv.monotone s.reads i (omega (arith, le)))
    | inr ne ↦ rw (==_false x s.counter ne) (inv.seen x i (omega (arith, le)))
  ];
  rested = λ x. elim (eq-cases x s.counter) [
    | inl e ↦ rw (e, ==_self s.counter) (omega (arith, inv.rested x))
    | inr ne ↦ rw (==_false x s.counter ne) (inv.rested x)
  ];
  monotone = inv.monotone;
}

-- Between the steps of the executor `spawn` never panics: it takes the next id of the counter, and
-- the new task is registered, woken and queued, while every other task stays as it was.
pub spawn-Spawned :
    (n : ℕ) (s : Runtime) → Settled n none s → Ensures (Spawned n s) (λ _ _. ⊥) (spawn s)
spawn-Spawned n s inv = rw (spawn_lem s inv.unlocked inv.idle) (
    returns (record {
      settled = after_spawn-Settled n s inv;
      fresh = refl;
      listed = spawn_listed s;
      ready = rw (==_self s.counter) refl;
      queued = spawn_queued s;
      others = λ x ne. (rw (==_false x s.counter ne) refl, spawn_others s x ne);
    }))

-- Between the steps of the executor `wake_by_id` panics on every task of the registry, since it takes
-- the lock of the registry twice; for any other id it returns false and changes nothing else.
pub wake_by_id_lem :
    (id : TaskId) (s : Runtime)
    → s.registry_locked ≡ false
    → s.polling ≡ none
    → wake_by_id id s
      ≡ (if registered s id then panic else ok false (record s { registry_locked = false }))
unfolding wake_by_id mark_woken now set_metadata add_task_to_queue unlock_registry lock_registry
wake_by_id_lem id s unlocked idle = elim (Bool-cases (registered s id)) [
  | inl reg ↦
      rw
        (
          lock_registry_lem s unlocked,
          reg,
          lock_metadata_lem id (record s { registry_locked = true }) idle,
        )
        refl
  | inr new ↦ rw (lock_registry_lem s unlocked, new) refl
]
