-- ===== src/Async/Executor/Invariant.antt =====
-- The state of the executor between its steps: no lock is held, and a task of the registry waits for
-- a wake-up, or is woken and stands in the queue.
use sparreal_os.Prelude.{
  subst, ℕ, suc, ◌+◌, ◌^◌, ◌≤◌, ◌<◌, ◌≡◌, ◌≢◌, ◌⊎◌, inl, inr, refl, sym, ap, ◌∙◌, Bool, true, false,
  Option, none, some, List, [], ◌∷◌, map, ◌||◌, ◌==◌, ==_false, arith, Bool-cases, ltb,
}
use sparreal_os.Async.Task.{TaskId, pending, woken, waits_since, TaskPriority}
use sparreal_os.Prelude.Outcome.{ok}
use sparreal_os.Async.Executor.{
  lock_metadata, is_polled, Call, waker_wake, Runtime, contains, remove_id,
}

abbrev pub is_queued : TaskId → List TaskPriority → Bool
is_queued id ps = contains id (map (λ p. p.task_id) ps)

abbrev pub registered : Runtime → TaskId → Bool
registered s id = contains id s.active_task_registry

-- `hole` is a task that has just been taken out of the queue; every task can run `n` times more.
pub record Settled (n : ℕ) (hole : Option TaskId) (s : Runtime) : Type 0 where
  pub unlocked : s.registry_locked ≡ false
  pub idle : s.polling ≡ none
  pub own_id : (id : TaskId) → registered s id ≡ true → (s.metadata id).id ≡ id
  pub queued :
      (id : TaskId)
      → registered s id ≡ true
      → (s.metadata id).state ≡ woken
      → (is_queued id s.priority_task_queue ≡ true) ⊎ (hole ≡ some id)
  pub waiting :
      (id : TaskId)
      → registered s id ≡ true
      → ((s.metadata id).state ≡ woken) ⊎ ((s.metadata id).state ≡ pending)
  pub seen : (id : TaskId) (i : ℕ) → s.reads ≤ i → waits_since (s.metadata id) ≤ s.clock i
  pub rested : (id : TaskId) → (s.metadata id).run_count + n < 2 ^ 64
  pub monotone : (i j : ℕ) → i ≤ j → s.clock i ≤ s.clock j

-- A future that only uses its waker, or those of other tasks.
pub data Quiet : List Call → Type 0 where
  silent : Quiet []
  wakes : {id : TaskId} {cs : List Call} → Quiet cs → Quiet (waker_wake id ∷ cs)

pub eq_of_test : (a b : ℕ) → (a == b) ≡ true → a ≡ b
eq_of_test a b h = ground arith

pub contains-remove_id :
    (x id : ℕ) (xs : List ℕ) → x ≢ id → contains x (remove_id id xs) ≡ contains x xs
unfolding contains remove_id
contains-remove_id x id [] ne = refl
contains-remove_id x id (y ∷ ys) ne = elim (Bool-cases (y == id)) [
  | inl e ↦
      let other : (y == x) ≡ false = ==_false y x (λ same. ne (sym same ∙ eq_of_test y id e)) in
      rw (e, other) (contains-remove_id x id ys ne)
  | inr e ↦ rw e (ap (λ b. (y == x) || b) (contains-remove_id x id ys ne))
]

pub contains-removed : (id : ℕ) (xs : List ℕ) → contains id (remove_id id xs) ≡ false
unfolding contains remove_id
contains-removed id [] = refl
contains-removed id (y ∷ ys) = elim (Bool-cases (y == id)) [
  | inl e ↦ rw e (contains-removed id ys)
  | inr e ↦ rw (e, e) (contains-removed id ys)
]

-- What taking the task `id` out of the queue and running it, if it is due, leaves behind.
pub record Handled (s : Runtime) (id : TaskId) (s' : Runtime) : Type 0 where
  pub others : (x : TaskId) → x ≢ id → s'.metadata x ≡ s.metadata x
  pub stay : (x : TaskId) → x ≢ id → registered s' x ≡ registered s x
  pub here : registered s' id ≡ true → (registered s id ≡ true) × ((s'.metadata id).state ≡ pending)
  pub same_id : (s'.metadata id).id ≡ (s.metadata id).id
  pub since : (i : ℕ) → s'.reads ≤ i → waits_since (s'.metadata id) ≤ s'.clock i
  pub grows : (s.metadata id).run_count ≤ (s'.metadata id).run_count
  pub once : (s'.metadata id).run_count ≤ (s.metadata id).run_count + 1
  pub ran :
      (s.metadata id).state ≡ woken → (s'.metadata id).run_count ≡ (s.metadata id).run_count + 1
  pub same_queue : s'.priority_task_queue ≡ s.priority_task_queue
  pub same_clock : s'.clock ≡ s.clock
  pub later : s.reads ≤ s'.reads
  pub unlocked : s'.registry_locked ≡ false
  pub idle : s'.polling ≡ none

pub not_lt : (a b : ℕ) → b ≤ a → ltb a b ≡ false
not_lt a b h = ground arith

pub true-ne-false : ¬ (true ≡ false)
true-ne-false h = ground arith

pub eq-cases : (x y : ℕ) → (x ≡ y) ⊎ (x ≢ y)
eq-cases x y = ground arith

pending_woken : ¬ (pending ≡ woken)
pending_woken h = ground arith

some_eq : {x y : ℕ} → ◌≡◌ {A = Option ℕ} (some x) (some y) → x ≡ y
some_eq h = ground arith

pub Handled-Settled :
    {n : ℕ} {s s' : Runtime} {id : TaskId}
    → Settled (suc n) (some id) s
    → Handled s id s'
    → Settled n none s'
Handled-Settled {n} {s} {s'} {id} inv h = record {
  unlocked = h.unlocked;
  idle = h.idle;
  own_id = λ x reg. elim (eq-cases x id) [
    | inl e ↦ rw e (h.same_id ∙ inv.own_id id (h.here (ap (registered s') (sym e) ∙ reg)).0)
    | inr ne ↦ rw (h.others x ne) (inv.own_id x (sym (h.stay x ne) ∙ reg))
  ];
  queued = λ x reg state. elim (eq-cases x id) [
    | inl e ↦
        let state' : (s'.metadata id).state ≡ woken =
          ap (λ y. (s'.metadata y).state) (sym e) ∙ state in
        absurd (pending_woken (sym (h.here (ap (registered s') (sym e) ∙ reg)).1 ∙ state'))
    | inr ne ↦
        let state' : (s.metadata x).state ≡ woken =
          ap (λ m. m.state) (sym (h.others x ne)) ∙ state in
        elim (inv.queued x (sym (h.stay x ne) ∙ reg) state') [
          | inl there ↦ inl (ap (is_queued x) h.same_queue ∙ there)
          | inr hole ↦ absurd (ne (sym (some_eq hole)))
        ]
  ];
  waiting = λ x reg. elim (eq-cases x id) [
    | inl e ↦ rw e (inr (h.here (ap (registered s') (sym e) ∙ reg)).1)
    | inr ne ↦ rw (h.others x ne) (inv.waiting x (sym (h.stay x ne) ∙ reg))
  ];
  seen = λ x i le. elim (eq-cases x id) [
    | inl e ↦ rw e (h.since i le)
    | inr ne ↦ rw (h.others x ne, h.same_clock) (inv.seen x i (omega (arith, le, h.later)))
  ];
  rested = λ x. elim (eq-cases x id) [
    | inl e ↦ rw e (omega (arith, inv.rested id, h.once))
    | inr ne ↦ rw (h.others x ne) (omega (arith, inv.rested x))
  ];
  monotone = rw h.same_clock inv.monotone;
}

pub lock_metadata_lem :
    (id : TaskId) (s : Runtime) → s.polling ≡ none → lock_metadata id s ≡ ok (s.metadata id) s
unfolding lock_metadata is_polled
lock_metadata_lem id s idle = rw (subst (λ p. is_polled id p ≡ false) (sym idle) refl)
