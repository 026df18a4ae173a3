-- ===== src/Async/Executor/Polls.antt =====
-- A task that has been taken out of the queue is run, if it is due.
use native.Mathlib.Nat.{le_refl}
use sparreal_os.Prelude.{
  ◌-◌, ℕ, suc, ◌≤◌, ◌≡◌, inl, inr, refl, sym, ap, ◌∙◌, Bool, true, false, some, ◌==◌, ==_self,
  ==_false, if◌then◌else◌, arith, Bool-cases, ltb,
}
use sparreal_os.Prelude.Outcome.{Run, ◌>>=◌, pure, and_then, Ensures, returns, bind}
use sparreal_os.Async.Task
use sparreal_os.Async.Task.{
  TaskId, TaskState, pending, woken, running, completed, TaskMetadata, waits_since, is_expired,
  update_execution, TaskPriority,
}
use sparreal_os.Async.Executor.{
  Polled, Runtime, contains, now, lock_registry, unlock_registry, set_metadata, mark_woken, expire,
  promote_expired, poll, should_execute, unregister, process_task,
}
use sparreal_os.Async.Executor.Invariant.{
  lock_metadata_lem, Settled, Quiet, contains-remove_id, contains-removed, Handled, true-ne-false,
}
use sparreal_os.Async.Executor.Due.{
  Ran, poll-Ran, Due, since_poll, unregister_lem, is_expired_lem, completed-Handled, self-Due,
}

module _ (polls : TaskId → ℕ → Polled)
    (quiet : (id : TaskId) (n : ℕ) → Quiet (polls id n).calls) where
  -- What becomes of a task that has been polled.
  unfoldable after_poll : TaskId → Bool → Runtime → Run ⊥ Runtime (Unit {0})
  after_poll id ready = if ready then unregister id else pure tt

  after_poll-Handled :
      (n : ℕ) (s s1 s2 : Runtime) (id : TaskId) (ready : Bool)
      → Settled (suc n) (some id) s
      → Due s id s1
      → Ran s1 id ready s2
      → Ensures (λ _. Handled s id) (λ _ _. ⊥) (after_poll id ready s2)
  unfolding after_poll unregister lock_registry unlock_registry
  after_poll-Handled n s s1 s2 id true inv due ran =
      rw (ran.same_lock, due.unlocked)
        (returns (record {
          others = λ x ne. ran.others x ne ∙ due.others x ne;
          stay = λ x ne.
              contains-remove_id x id s2.active_task_registry ne
              ∙ ap (contains x) (ran.same_registry ∙ due.same_registry);
          here =
              λ reg. absurd (true-ne-false (sym reg ∙ contains-removed id s2.active_task_registry));
          same_id = ran.same_id ∙ due.same_id;
          since = since_poll inv due ran;
          grows = omega (arith, ran.count, due.count);
          once = omega (arith, ran.count, due.count);
          ran = λ _. omega (arith, ran.count, due.count);
          same_queue = ran.same_queue ∙ due.same_queue;
          same_clock = ran.same_clock ∙ due.same_clock;
          later = omega (arith, due.later, ran.read_once);
          unlocked = refl;
          idle = ran.idle;
        }))
  after_poll-Handled n s s1 s2 id false inv due ran = returns (record {
    others = λ x ne. ran.others x ne ∙ due.others x ne;
    stay = λ x ne. ap (contains x) (ran.same_registry ∙ due.same_registry);
    here = λ reg. (sym (ap (contains id) (ran.same_registry ∙ due.same_registry)) ∙ reg, ran.state);
    same_id = ran.same_id ∙ due.same_id;
    since = since_poll inv due ran;
    grows = omega (arith, ran.count, due.count);
    once = omega (arith, ran.count, due.count);
    ran = λ _. omega (arith, ran.count, due.count);
    same_queue = ran.same_queue ∙ due.same_queue;
    same_clock = ran.same_clock ∙ due.same_clock;
    later = omega (arith, due.later, ran.read_once);
    unlocked = ran.same_lock ∙ due.unlocked;
    idle = ran.idle;
  })

  Due-Handled :
      (n : ℕ) (s s1 : Runtime) (id : TaskId)
      → Settled (suc n) (some id) s
      → Due s id s1
      → Ensures
          (λ _. Handled s id)
          (λ _ _. ⊥)
          (and_then (poll polls id s1) (λ ready. after_poll id ready))
  Due-Handled n s s1 id inv due =
      bind (poll-Ran polls quiet s1 id due.idle due.open_ (omega (arith, inv.rested id, due.count)))
        (λ ready s2 ran. after_poll-Handled n s s1 s2 id ready inv due ran) (λ _ _ failed. failed)

  -- What the test for tasks that have waited too long leaves behind.
  data Promoted (s : Runtime) (id : TaskId) : Bool → Runtime → Type 0 where
    due : {s1 : Runtime} → Due s id s1 → Promoted s id true s1
    early : {s1 : Runtime} → Handled s id s1 → Promoted s id false s1

  -- A task that is left asleep.
  asleep-Handled :
      (n : ℕ) (s : Runtime) (id : TaskId)
      → Settled (suc n) (some id) s
      → Task.is_woken (s.metadata id).state ≡ false
      → Handled s id (record s { reads = suc s.reads })
  asleep-Handled n s id inv asleep = record {
    others = λ x ne. refl;
    stay = λ x ne. refl;
    here = λ reg. elim (inv.waiting id reg) [
      | inl up ↦ absurd (true-ne-false (sym (ap Task.is_woken up) ∙ asleep))
      | inr down ↦ (reg, down)
    ];
    same_id = refl;
    since = λ i le. inv.seen id i (omega (arith, le));
    grows = omega arith;
    once = omega arith;
    ran = λ up. absurd (true-ne-false (sym (ap Task.is_woken up) ∙ asleep));
    same_queue = refl;
    same_clock = refl;
    later = omega arith;
    unlocked = inv.unlocked;
    idle = inv.idle;
  }

  -- A task that is woken since it has waited too long.
  woken-Due :
      (n : ℕ) (s : Runtime) (id : TaskId)
      → Settled (suc n) (some id) s
      → Due s id (record s {
        metadata = λ x.
            if x == id
            then Task.mark_woken (s.metadata id) (s.clock (suc s.reads))
            else s.metadata x;
        reads = suc (suc s.reads);
      })
  woken-Due n s id inv = record {
    others = λ x ne. rw (==_false x id ne) refl;
    count = rw (==_self id) refl;
    same_id = rw (==_self id) refl;
    open_ = rw (==_self id) refl;
    same_registry = refl;
    same_queue = refl;
    same_clock = refl;
    later = omega arith;
    unlocked = inv.unlocked;
    idle = inv.idle;
  }

  promote_expired-Due :
      (n : ℕ) (s : Runtime) (id : TaskId)
      → Settled (suc n) (some id) s
      → Task.is_completed (s.metadata id).state ≡ false
      → Task.is_woken (s.metadata id).state ≡ false
      → Ensures (Promoted s id) (λ _ _. ⊥) (promote_expired id (s.metadata id) s)
  unfolding promote_expired now expire mark_woken set_metadata
  promote_expired-Due n s id inv open_ asleep =
      let first : waits_since (s.metadata id) ≤ s.clock s.reads =
        inv.seen id s.reads (le_refl s.reads) in
      let test =
        is_expired_lem (s.metadata id) s.task_timeout_milliseconds (s.clock s.reads) first in
      elim (Bool-cases
        (ltb s.task_timeout_milliseconds (s.clock s.reads - waits_since (s.metadata id)))) [
          | inr soon ↦ rw (test, soon) (returns (early (asleep-Handled n s id inv asleep)))
          | inl late ↦
              rw (test, late, lock_metadata_lem id (record s { reads = suc s.reads }) inv.idle)
                (returns (due (woken-Due n s id inv)))
        ]

  executed :
      (n : ℕ) (s : Runtime) (id : TaskId)
      → Settled (suc n) (some id) s
      → (execute : Bool) (s1 : Runtime) → Promoted s id execute s1
      → Ensures
          (λ _. Handled s id)
          (λ _ _. ⊥)
          ((if execute then (poll polls id >>= λ ready. after_poll id ready) else pure tt) s1)
  executed n s id inv _ s1 (due d) = Due-Handled n s s1 id inv d
  executed n s id inv _ s1 (early h) = returns h

  pub process_task-Handled :
      (n : ℕ) (s : Runtime) (id : TaskId)
      → Settled (suc n) (some id) s
      → Ensures (λ _. Handled s id) (λ _ _. ⊥) (process_task polls id s)
  unfolding process_task should_execute after_poll now
  process_task-Handled n s id inv = elim (Bool-cases (Task.is_completed (s.metadata id).state)) [
    | inl done ↦
        rw (lock_metadata_lem id s inv.idle, done, unregister_lem id s inv.unlocked)
          (returns (completed-Handled n s id inv done))
    | inr open_ ↦ elim (Bool-cases (Task.is_woken (s.metadata id).state)) [
      | inl up ↦
          rw (lock_metadata_lem id s inv.idle, open_, lock_metadata_lem id s inv.idle, up)
            (Due-Handled n s s id inv (self-Due n s id inv open_))
      | inr asleep ↦
          rw (lock_metadata_lem id s inv.idle, open_, lock_metadata_lem id s inv.idle, asleep)
            (bind (promote_expired-Due n s id inv open_ asleep)
              (λ execute s1 due. executed n s id inv execute s1 due) (λ _ _ failed. failed))
    ]
  ]
