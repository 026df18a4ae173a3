-- ===== src/Async/Executor/Wakeups.antt =====
-- The wake-ups that are taken in at the start of a tick.
use sparreal_os.Prelude.{
  ℕ, suc, ◌+◌, ◌≤◌, ◌≡◌, ◌≢◌, inl, inr, refl, sym, ap, ◌∙◌, true, false, Option, none, some, List,
  [], ◌∷◌, ◌||◌, ◌==◌, ==_self, ==_false, if◌then◌else◌, arith, Bool-cases, length,
}
use sparreal_os.Prelude.Outcome.{ok, Ensures, returns, mono}
use sparreal_os.Async.Task
use sparreal_os.Async.Task.{
  TaskId, TaskState, pending, woken, TaskMetadata, waits_since, TaskPriority, priority,
}
use sparreal_os.Async.Executor.{
  Runtime, contains, lock_registry, unlock_registry, mark_woken, wake_registered, wake_one,
  drain_wakeups, push_task, now, set_metadata,
}
use sparreal_os.Async.Executor.Invariant.{
  registered, Settled, eq-cases, true-ne-false, lock_metadata_lem,
}
use sparreal_os.Async.Executor.Ticks.{or_true}

-- What taking in the wake-ups `ids` does.
pub record Woke (n : ℕ) (ids : List TaskId) (s s' : Runtime) : Type 0 where
  pub settled : Settled n none s'
  pub room : length s'.priority_task_queue ≤ length s.priority_task_queue + length ids
  pub counts : (x : TaskId) → (s'.metadata x).run_count ≡ (s.metadata x).run_count
  pub stay : (x : TaskId) → registered s' x ≡ registered s x
  pub up :
      (x : TaskId) → contains x ids ≡ true → registered s x ≡ true → (s'.metadata x).state ≡ woken
  pub still : (x : TaskId) → (s.metadata x).state ≡ woken → (s'.metadata x).state ≡ woken

-- The state in which a registered task has been woken and queued.
abbrev woken_task : TaskId → Runtime → TaskMetadata
woken_task id s = Task.mark_woken (s.metadata id) (s.clock s.reads)

abbrev with_woken : TaskId → List TaskId → Runtime → Runtime
with_woken id ids s = record s {
  wakeup_queue = ids;
  metadata = λ x. if x == id then woken_task id s else s.metadata x;
  reads = suc s.reads;
  priority_task_queue = priority (woken_task id s) ∷ s.priority_task_queue;
  registry_locked = false;
}

with_woken-Settled :
    (n : ℕ) (id : TaskId) (ids : List TaskId) (s : Runtime)
    → Settled n none s
    → registered s id ≡ true
    → Settled n none (with_woken id ids s)
unfolding contains
with_woken-Settled n id ids s inv reg = record {
  unlocked = refl;
  idle = inv.idle;
  own_id = λ x reg'. elim (eq-cases x id) [
    | inl e ↦ rw (e, ==_self id) (inv.own_id id reg)
    | inr ne ↦ rw (==_false x id ne) (inv.own_id x reg')
  ];
  queued = λ x reg' state. elim (eq-cases x id) [
    | inl e ↦ inl (rw (e, inv.own_id id reg, ==_self id) refl)
    | inr ne ↦
        let state' : (s.metadata x).state ≡ woken = rw (==_false x id ne) at state in
        elim (inv.queued x reg' state') [
          | inl there ↦ inl (ap (λ b. ((s.metadata id).id == x) || b) there ∙ or_true _)
          | inr absent ↦ inr absent
        ]
  ];
  waiting = λ x reg'. elim (eq-cases x id) [
    | inl e ↦ rw (e, ==_self id) (inl refl)
    | inr ne ↦ rw (==_false x id ne) (inv.waiting x reg')
  ];
  seen = λ x i le. elim (eq-cases x id) [
    | inl e ↦ rw (e, ==_self id) (inv.seen id i (omega (arith, le)))
    | inr ne ↦ rw (==_false x id ne) (inv.seen x i (omega (arith, le)))
  ];
  rested = λ x. elim (eq-cases x id) [
    | inl e ↦ rw (e, ==_self id) (inv.rested id)
    | inr ne ↦ rw (==_false x id ne) (inv.rested x)
  ];
  monotone = inv.monotone;
}

pub none-ne-some : {x : TaskId} → ¬ (◌≡◌ {A = Option TaskId} none (some x))
none-ne-some h = ground arith

pub lock_registry_lem :
    (s : Runtime)
    → s.registry_locked ≡ false
    → lock_registry s ≡ ok tt (record s { registry_locked = true })
unfolding lock_registry
lock_registry_lem s unlocked = rw unlocked

wake_one-registered :
    (id : TaskId) (ids : List TaskId) (s : Runtime)
    → s.registry_locked ≡ false
    → s.polling ≡ none
    → registered s id ≡ true
    → wake_one id (record s { wakeup_queue = ids }) ≡ ok tt (with_woken id ids s)
unfolding wake_one wake_registered unlock_registry mark_woken push_task now set_metadata
wake_one-registered id ids s unlocked idle reg =
    let locked : Runtime = record s { wakeup_queue = ids; registry_locked = true } in
    rw
      (
        lock_registry_lem (record s { wakeup_queue = ids }) unlocked,
        reg,
        lock_metadata_lem id locked idle,
        lock_metadata_lem id
            (record locked {
              metadata = λ x. if x == id then woken_task id s else s.metadata x;
              reads = suc s.reads;
            })
            idle,
        ==_self id,
      )
      refl

wake_one_unknown :
    (id : TaskId) (ids : List TaskId) (s : Runtime)
    → s.registry_locked ≡ false
    → registered s id ≡ false
    → wake_one id (record s { wakeup_queue = ids })
      ≡ ok tt (record s { wakeup_queue = ids; registry_locked = false })
unfolding wake_one wake_registered unlock_registry
wake_one_unknown id ids s unlocked reg =
    rw (lock_registry_lem (record s { wakeup_queue = ids }) unlocked, reg)

-- Two wake-ups in a row.
Woke-trans :
    {n : ℕ} {id : TaskId} {ids : List TaskId} {s s' s'' : Runtime}
    → Woke n (id ∷ []) s s'
    → Woke n ids s' s''
    → Woke n (id ∷ ids) s s''
unfolding contains
Woke-trans {id} {ids} {s} a b = record {
  settled = b.settled;
  room = omega (arith, a.room, b.room);
  counts = λ x. b.counts x ∙ a.counts x;
  stay = λ x. b.stay x ∙ a.stay x;
  up = λ x among reg. elim (Bool-cases (id == x)) [
    | inl first ↦ b.still x (a.up x (rw first refl) reg)
    | inr later ↦ b.up x (rw later at among) (a.stay x ∙ reg)
  ];
  still = λ x state. b.still x (a.still x state);
}

registered-Woke :
    (n : ℕ) (id : TaskId) (ids : List TaskId) (s : Runtime)
    → Settled n none s
    → registered s id ≡ true
    → Woke n (id ∷ []) s (with_woken id ids s)
unfolding contains
registered-Woke n id ids s inv reg = record {
  settled = with_woken-Settled n id ids s inv reg;
  room = omega arith;
  counts = λ x. elim (eq-cases x id) [
    | inl e ↦ rw (e, ==_self id) refl
    | inr ne ↦ rw (==_false x id ne) refl
  ];
  stay = λ x. refl;
  up = λ x among reg'. elim (eq-cases x id) [
    | inl e ↦ rw (e, ==_self id) refl
    | inr ne ↦ absurd (true-ne-false (sym among ∙ only id x ne))
  ];
  still = λ x state. elim (eq-cases x id) [
    | inl e ↦ rw (e, ==_self id) refl
    | inr ne ↦ rw (==_false x id ne) state
  ];
}
  where
    only : (id x : ℕ) → x ≢ id → ((id == x) || false) ≡ false
    only id x ne = rw (==_false id x (λ e. ne (sym e))) refl

unknown-Woke :
    (n : ℕ) (id : TaskId) (ids : List TaskId) (s : Runtime)
    → Settled n none s
    → registered s id ≡ false
    → Woke n (id ∷ []) s (record s { wakeup_queue = ids; registry_locked = false })
unfolding contains
unknown-Woke n id ids s inv reg = record {
  settled = record {
    unlocked = refl;
    idle = inv.idle;
    own_id = inv.own_id;
    queued = inv.queued;
    waiting = inv.waiting;
    seen = inv.seen;
    rested = inv.rested;
    monotone = inv.monotone;
  };
  room = omega arith;
  counts = λ x. refl;
  stay = λ x. refl;
  up = λ x among reg'. elim (eq-cases x id) [
    | inl e ↦ absurd (true-ne-false (sym reg' ∙ ap (registered s) e ∙ reg))
    | inr ne ↦ absurd (true-ne-false (sym among ∙ only id x ne))
  ];
  still = λ x state. state;
}
  where
    only : (id x : ℕ) → x ≢ id → ((id == x) || false) ≡ false
    only id x ne = rw (==_false id x (λ e. ne (sym e))) refl

pub drain_wakeups-Woke :
    (n : ℕ) (ids : List TaskId) (s : Runtime)
    → Settled n none s
    → Ensures (λ _. Woke n ids s) (λ _ _. ⊥) (drain_wakeups ids s)
unfolding drain_wakeups contains
drain_wakeups-Woke n [] s inv = returns (record {
  settled = inv;
  room = omega arith;
  counts = λ x. refl;
  stay = λ x. refl;
  up = λ x among reg. absurd (true-ne-false (sym among));
  still = λ x state. state;
})
drain_wakeups-Woke n (id ∷ ids) s inv = elim (Bool-cases (registered s id)) [
  | inl reg ↦
      let first = registered-Woke n id ids s inv reg in
      rw (wake_one-registered id ids s inv.unlocked inv.idle reg) (
        mono (drain_wakeups-Woke n ids (with_woken id ids s) first.settled)
          (λ _ s' rest. Woke-trans first rest) (λ _ _ failed. failed))
  | inr new ↦
      let first = unknown-Woke n id ids s inv new in
      let s1 : Runtime = record s { wakeup_queue = ids; registry_locked = false } in
      rw (wake_one_unknown id ids s inv.unlocked new) (
        mono (drain_wakeups-Woke n ids s1 first.settled) (λ _ s' rest. Woke-trans first rest)
          (λ _ _ failed. failed))
]
