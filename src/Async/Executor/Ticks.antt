-- ===== src/Async/Executor/Ticks.antt =====
-- The loops of a tick: the wake-ups are taken in, then up to ten tasks are run.
use sparreal_os.Prelude.{
  ℕ, zero, suc, ◌≤◌, ◌<◌, ◌≡◌, inl, inr, refl, sym, ap, ◌∙◌, Bool, true, false, Option, none, some,
  List, [], ◌∷◌, ◌||◌, ◌==◌, if◌then◌else◌, arith, Bool-cases, length,
}
use sparreal_os.Prelude.Outcome.{pure, Ensures, returns, bind, mono}
use sparreal_os.Async.Task.{TaskId, woken, TaskPriority, below}
use sparreal_os.Async.Executor.{
  Polled, Runtime, contains, pop_least, process_queue, process_one_task, run_tasks,
}
use sparreal_os.Async.Executor.Invariant.{
  is_queued, registered, Settled, Quiet, Handled, Handled-Settled, eq-cases, eq_of_test,
}
use sparreal_os.Async.Executor.Polls.{process_task-Handled}

or_swap : (a b c : Bool) → (a || (b || c)) ≡ (b || (a || c))
or_swap true true c = refl
or_swap true false c = refl
or_swap false b c = refl

pub or_true : (a : Bool) → (a || true) ≡ true
or_true true = refl
or_true false = refl

-- What is taken out of the queue was in it, and the rest stays.
queued-pop :
    (x : TaskId) (p : TaskPriority) (ps : List TaskPriority)
    → is_queued x (p ∷ ps) ≡ (((pop_least p ps).0.task_id == x) || is_queued x (pop_least p ps).1)
unfolding contains pop_least
queued-pop x p [] = refl
queued-pop x p (q ∷ qs) = elim (Bool-cases (below q p)) [
  | inl e ↦
      rw e (ap (λ b. (p.task_id == x) || b) (queued-pop x q qs) ∙ or_swap (p.task_id == x) _ _)
  | inr e ↦ rw e (
      or_swap (p.task_id == x) (q.task_id == x) _
      ∙ ap (λ b. (q.task_id == x) || b) (queued-pop x p qs)
      ∙ or_swap (q.task_id == x) _ _)
]

length-pop : (p : TaskPriority) (ps : List TaskPriority) → length (pop_least p ps).1 ≡ length ps
unfolding pop_least
length-pop p [] = refl
length-pop p (q ∷ qs) = elim (Bool-cases (below q p)) [
  | inl e ↦ rw e (ap suc (length-pop q qs))
  | inr e ↦ rw e (ap suc (length-pop p qs))
]

-- A task that has run more than `c` times, or is to run for the next time.
pub data Served (c : ℕ) (id : TaskId) (s : Runtime) : Type 0 where
  served : c < (s.metadata id).run_count → Served c id s
  next :
      registered s id ≡ true
      → (s.metadata id).state ≡ woken
      → (s.metadata id).run_count ≡ c
      → Served c id s

Handled-Served :
    {c : ℕ} {x id : TaskId} {s s' : Runtime} → Handled s id s' → Served c x s → Served c x s'
Handled-Served {c} {x} {id} {s} h (served lt) = elim (eq-cases x id) [
  | inl e ↦
      let lt' : c < (s.metadata id).run_count = rw (← e) lt in
      rw e (served (omega (arith, h.grows)))
  | inr ne ↦ served (rw (h.others x ne) lt)
]
Handled-Served {c} {x} {id} {s} h (next reg up count) = elim (eq-cases x id) [
  | inl e ↦
      let up' : (s.metadata id).state ≡ woken = ap (λ y. (s.metadata y).state) (sym e) ∙ up in
      let count' : (s.metadata id).run_count ≡ c =
        ap (λ y. (s.metadata y).run_count) (sym e) ∙ count in
      rw e (served (omega (arith, h.ran up', count')))
  | inr ne ↦
      next (h.stay x ne ∙ reg) (ap (λ m. m.state) (h.others x ne) ∙ up)
        (ap (λ m. m.run_count) (h.others x ne) ∙ count)
]

Settled-fewer :
    {n : ℕ} {hole : Option TaskId} {s : Runtime} → Settled (suc n) hole s → Settled n hole s
Settled-fewer inv = record {
  unlocked = inv.unlocked;
  idle = inv.idle;
  own_id = inv.own_id;
  queued = inv.queued;
  waiting = inv.waiting;
  seen = inv.seen;
  rested = λ id. omega (arith, inv.rested id);
  monotone = inv.monotone;
}

-- A task taken out of the queue is the one exception to the rule that the woken are queued.
popped :
    {n : ℕ} {s : Runtime} (p : TaskPriority) (ps : List TaskPriority)
    → s.priority_task_queue ≡ p ∷ ps
    → Settled n none s
    → Settled n
        (some (pop_least p ps).0.task_id)
        (record s { priority_task_queue = (pop_least p ps).1 })
popped {s} p ps e inv = record {
  unlocked = inv.unlocked;
  idle = inv.idle;
  own_id = inv.own_id;
  queued = λ x reg up. elim (inv.queued x reg up) [
    | inr absent ↦ absurd (none-ne-some absent)
    | inl there ↦ elim (Bool-cases ((pop_least p ps).0.task_id == x)) [
      | inl taken ↦ inr (ap some (eq_of_test _ _ taken))
      | inr left ↦ inl (
          sym (ap (λ b. b || is_queued x (pop_least p ps).1) left)
          ∙ sym (queued-pop x p ps)
          ∙ ap (is_queued x) (sym e)
          ∙ there)
    ]
  ];
  waiting = inv.waiting;
  seen = inv.seen;
  rested = inv.rested;
  monotone = inv.monotone;
}
  where
    none-ne-some : {x : TaskId} → ¬ (◌≡◌ {A = Option TaskId} none (some x))
    none-ne-some h = ground arith

module _ (polls : TaskId → ℕ → Polled)
    (quiet : (id : TaskId) (n : ℕ) → Quiet (polls id n).calls) where
  -- What one task taken out of the queue leaves behind.
  data Stepped (n : ℕ) (s : Runtime) : Bool → Runtime → Type 0 where
    nothing : s.priority_task_queue ≡ [] → Stepped n s false s
    handled :
        {s' : Runtime}
        → Settled n none s'
        → suc (length s'.priority_task_queue) ≡ length s.priority_task_queue
        → ((c : ℕ) (x : TaskId) → Served c x s → Served c x s')
        → Stepped n s true s'

  Served-queue :
      {c : ℕ} {x : TaskId} {s : Runtime} (q : List TaskPriority)
      → Served c x s
      → Served c x (record s { priority_task_queue = q })
  Served-queue q (served lt) = served lt
  Served-queue q (next reg up count) = next reg up count

  process_queue-Stepped :
      (n : ℕ) (s : Runtime) (q : List TaskPriority)
      → s.priority_task_queue ≡ q
      → Settled (suc n) none s
      → Ensures (Stepped n s) (λ _ _. ⊥) (process_queue polls q s)
  unfolding process_queue
  process_queue-Stepped n s [] e inv = returns (nothing e)
  process_queue-Stepped n s (p ∷ ps) e inv =
      let before = popped p ps e inv in
      bind (process_task-Handled polls quiet n _ _ before)
        (λ _ s' h. returns (
          handled (Handled-Settled before h)
            (ap suc (ap length h.same_queue ∙ length-pop p ps) ∙ sym (ap length e))
            (λ c x was. Handled-Served h (Served-queue (pop_least p ps).1 was))))
        (λ _ _ failed. failed)

  -- What the loop over the queue has done.
  pub record Drained (s s' : Runtime) : Type 0 where
    pub settled : Settled 0 none s'
    pub progress : (c : ℕ) (x : TaskId) → Served c x s → Served c x s'

  Settled-none : (n : ℕ) {s : Runtime} → Settled n none s → Settled 0 none s
  Settled-none zero inv = inv
  Settled-none (suc n) inv = Settled-none n (Settled-fewer inv)

  length-zero : (q : List TaskPriority) → length q ≤ 0 → q ≡ []
  length-zero [] h = refl
  length-zero (p ∷ ps) h = absurd (omega arith)

  abbrev Emptied : ℕ → Runtime → Runtime → Type 0
  Emptied n s s' = Drained s s' × (length s.priority_task_queue ≤ n → s'.priority_task_queue ≡ [])

  -- What follows a step of the loop.
  rest-Drained :
      (n : ℕ) (s : Runtime) (more : Bool) (s' : Runtime)
      → Settled (suc n) none s
      → Stepped n s more s'
      → ((t : Runtime)
          → Settled n none t
          → Ensures (λ _. Emptied n t) (λ _ _. ⊥) (run_tasks polls n t))
      → Ensures
          (λ _. Emptied (suc n) s)
          (λ _ _. ⊥)
          ((if more then run_tasks polls n else pure tt) s')
  rest-Drained n s _ _ inv (nothing e) ih =
      returns (record { settled = Settled-none (suc n) inv; progress = λ c x was. was }, λ few. e)
  rest-Drained n s _ s' inv (handled inv' shorter progress) ih =
      mono (ih s' inv')
        (λ _ s'' (drained, empty). (
          record {
            settled = drained.settled;
            progress = λ c x was. drained.progress c x (progress c x was);
          },
          λ few. empty (omega (arith, shorter)),
        ))
        (λ _ _ failed. failed)

  pub run_tasks-Drained :
      (n : ℕ) (s : Runtime)
      → Settled n none s
      → Ensures (λ _. Emptied n s) (λ _ _. ⊥) (run_tasks polls n s)
  unfolding run_tasks process_one_task
  run_tasks-Drained zero s inv = returns (
    record { settled = inv; progress = λ c x was. was },
    λ few. length-zero s.priority_task_queue few,
  )
  run_tasks-Drained (suc n) s inv =
      bind (process_queue-Stepped n s s.priority_task_queue refl inv)
        (λ more s' stepped. rest-Drained n s more s' inv stepped (run_tasks-Drained n))
        (λ _ _ failed. failed)
